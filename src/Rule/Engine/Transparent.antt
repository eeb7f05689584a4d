-- ===== src/Rule/Engine/Transparent.antt =====
-- src/rule/rule_engine.cpp, EvaluateRuleSet and EvaluateAll, against the values of the conditions.
use surface_ai.Base.{
  ℕ, suc, ◌≡◌, refl, inl, inr, List, [], ◌∷◌, ◌++◌, if◌then◌else◌, arith, Bool-cases, All,
}
use surface_ai.Base.Text.{Text}
use surface_ai.Base.Dict.{Dict}
use surface_ai.Core.Error.{Result, ok, ◌>>=◌}
use surface_ai.Rule.Double.{Double}
use surface_ai.Rule.FactBase.{FactBase, snapshot}
use surface_ai.Rule.Meaning.{meaning}
use surface_ai.Rule.Memo.{Table, IsMemoOf, IsCoherent, IsFresh, fresh-IsMemoOf, evaluate-eq-meaning}
use surface_ai.Rule.Engine.{
  Rule, ResolvedRule, settle, is_nullptr, unconditional, evaluate_rule, evaluate_rule_set,
  evaluate_all,
}

module _ {D : Type 0} ⦃d : Double D⦄ where
  -- A rule judged by the value of its condition in `facts`.
  unfoldable pub judge : ℕ → FactBase D → Rule D → Result (ResolvedRule D)
  judge timestamp facts r =
      if is_nullptr r.condition
      then ok (unconditional timestamp r)
      else settle timestamp r (meaning r.condition facts)

  unfoldable pub judge_set :
      (ℕ → ℕ) → ℕ → FactBase D → List (Rule D) → Result (List (ResolvedRule D))
  judge_set now i facts [] = ok []
  judge_set now i facts (r ∷ rs) = do
    x ← judge (now i) facts r
    xs ← judge_set now (suc i) facts rs
    ok (x ∷ xs)

  unfoldable pub judge_all :
      (Text → ℕ → ℕ) → FactBase D → Dict (List (Rule D)) → Result (List (ResolvedRule D))
  judge_all now facts [] = ok []
  judge_all now facts ((set_name, rules) ∷ sets) = do
    batch ← judge_set (now set_name) 0 facts rules
    rest ← judge_all now facts sets
    ok (batch ++ rest)

  module _ (hash : Text → ℕ) (facts : FactBase D) where
    abbrev pub AreCoherentRules : Table D → List (Rule D) → Type 0
    AreCoherentRules table = All (λ r. IsCoherent hash table facts r.condition)

    evaluate_rule-eq-judge :
        (table : Table D) (timestamp : ℕ) (r : Rule D) (fb : FactBase D)
        → IsCoherent hash table facts r.condition
        → IsMemoOf hash table facts fb
        → ((evaluate_rule hash timestamp r fb).0 ≡ judge timestamp facts r)
          × IsMemoOf hash table facts (evaluate_rule hash timestamp r fb).1
    unfolding evaluate_rule judge
    evaluate_rule-eq-judge table timestamp r fb c i =
        let (value, memos) = evaluate-eq-meaning hash table facts r.condition fb c i in
        elim (Bool-cases (is_nullptr r.condition)) [
          | inl e ↦ rw e (refl, i)
          | inr e ↦ rw e (rw value refl, memos)
        ]

    evaluate_rule_set-eq-judge_set :
        (table : Table D) (now : ℕ → ℕ) (n : ℕ) (rules : List (Rule D)) (fb : FactBase D)
        → AreCoherentRules table rules
        → IsMemoOf hash table facts fb
        → (evaluate_rule_set hash now n rules fb).0 ≡ judge_set now n facts rules
    unfolding evaluate_rule_set judge_set
    evaluate_rule_set-eq-judge_set table now n [] fb c i = refl
    evaluate_rule_set-eq-judge_set table now n (r ∷ rs) fb c i =
        let (head, memos) = evaluate_rule-eq-judge table (now n) r fb c.0 i in
        ground (
          arith,
          head,
          evaluate_rule_set-eq-judge_set table now (suc n) rs (evaluate_rule hash (now n) r fb).1
              c.1 memos,
        )

    abbrev pub AreCoherentSets : (Text → Table D) → Dict (List (Rule D)) → Type 0
    AreCoherentSets tables = All (λ entry. AreCoherentRules (tables entry.0) entry.1)

    -- From facts without memo entries, EvaluateAll gives for each rule of each set, in the order in which
    -- the set lists them, the judgement by the value of its condition in those facts, if in each set every
    -- node that writes a memo entry has the value that the set's table gives for its memo key, and no field
    -- or path of the set reads a key that a memo entry can have.
    pub evaluate_all-eq-judge_all :
        (tables : Text → Table D) (now : Text → ℕ → ℕ) (sets : Dict (List (Rule D)))
        → IsFresh hash facts
        → AreCoherentSets tables sets
        → evaluate_all hash now sets facts ≡ judge_all now facts sets
    unfolding evaluate_all judge_all snapshot
    evaluate_all-eq-judge_all tables now [] fresh c = refl
    evaluate_all-eq-judge_all tables now ((name, rules) ∷ sets) fresh c = ground (
      arith,
      evaluate_rule_set-eq-judge_set (tables name) (now name) 0 rules facts c.0
          (fresh-IsMemoOf hash (tables name) facts fresh),
      evaluate_all-eq-judge_all tables now sets fresh c.1,
    )
