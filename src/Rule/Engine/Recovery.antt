-- ===== src/Rule/Engine/Recovery.antt =====
-- src/rule/rule_engine.cpp, EvaluateRuleSet: errors of conditions.
use surface_ai.Base.{
  ℕ, suc, ◌≡◌, ◌≢◌, refl, ◌⊎◌, inl, inr, true, false, Bool, ◌||◌, Bool-cases, List, [], ◌∷◌, All,
  arith,
}
use surface_ai.Base.Text.{Text}
use surface_ai.Core.Error.{Result, ok, err, fault}
use surface_ai.Rule.Double.{Double}
use surface_ai.Rule.FactBase.{FactBase}
use surface_ai.Rule.Value.{Value}
use surface_ai.Rule.Evaluate.{evaluate, truth}
use surface_ai.Rule.Safety.{IsWhole, evaluate-ne-fault}
use surface_ai.Rule.Engine.{
  Rule, ResolvedRule, resolve, settle, is_nullptr, unconditional, evaluate_rule, evaluate_rule_set,
}

-- There is no condition, or one without empty operands.
abbrev pub IsEvaluable : {D : Type 0} → Rule D → Type 0
IsEvaluable r = (is_nullptr r.condition ≡ true) ⊎ IsWhole r.condition

-- What a condition tells of its rule: an error is no match.
abbrev pub is_match : {D : Type 0} → Result (Value D) → Bool
is_match (ok v) = truth v
is_match _ = false

module _ {D : Type 0} ⦃d : Double D⦄ (hash : Text → ℕ) where
  -- The match of a rule on the facts and memo entries that the rules before it leave.
  abbrev pub holds : Rule D → FactBase D → Bool
  holds r fb = is_nullptr r.condition || is_match (evaluate hash r.condition fb).0

  -- One result for each rule, in order.
  abbrev pub AreResolved : (ℕ → ℕ) → ℕ → List (Rule D) → List (ResolvedRule D) → FactBase D → Type 0
  AreResolved now i [] [] fb = Unit
  AreResolved now i (r ∷ rs) (x ∷ xs) fb =
      (x.name ≡ r.name)
      × (x.action ≡ r.action)
      × (x.matched ≡ holds r fb)
      × AreResolved now (suc i) rs xs (evaluate_rule hash (now i) r fb).1
  AreResolved now i _ _ fb = ⊥

  settle_total :
      (timestamp : ℕ) (r : Rule D) (v : Result (Value D))
      → v ≢ fault
      → (x : ResolvedRule D) × (settle timestamp r v ≡ ok x)
        × (x.name ≡ r.name)
        × (x.action ≡ r.action)
        × (x.matched ≡ is_match v)
  unfolding settle
  settle_total timestamp r (ok v) h = (resolve timestamp r (truth v) _, refl, refl, refl, refl)
  settle_total timestamp r (err e) h = (resolve timestamp r false _, refl, refl, refl, refl)
  settle_total timestamp r fault h = absurd (h refl)

  evaluate_rule_total :
      (timestamp : ℕ) (r : Rule D) (fb : FactBase D)
      → IsEvaluable r
      → (x : ResolvedRule D) × ((evaluate_rule hash timestamp r fb).0 ≡ ok x)
        × (x.name ≡ r.name)
        × (x.action ≡ r.action)
        × (x.matched ≡ holds r fb)
  unfolding evaluate_rule unconditional
  evaluate_rule_total timestamp r fb h = elim (Bool-cases (is_nullptr r.condition)) [
    | inl e ↦ (unconditional timestamp r, rw e refl, refl, refl, rw e refl)
    | inr e ↦ rw e (settle_total timestamp r (evaluate hash r.condition fb).0 (safe e h))
  ]
    where
      safe :
          is_nullptr r.condition ≡ false → IsEvaluable r → (evaluate hash r.condition fb).0 ≢ fault
      safe e (inl n) = λ q. cc
      safe e (inr w) = evaluate-ne-fault hash r.condition fb w

  -- If each rule has no condition or one without empty operands, EvaluateRuleSet returns one result for each
  -- rule, in the order of the set, with the rule's name and action. A rule without a condition matches; one
  -- whose condition gives an error on the facts and memo entries of that moment does not, and the rules
  -- after it are evaluated all the same; any other matches if the value of its condition is true.
  pub evaluate_rule_set_total :
      (now : ℕ → ℕ) (i : ℕ) (rules : List (Rule D)) (fb : FactBase D)
      → All IsEvaluable rules
      → (xs : List (ResolvedRule D)) × ((evaluate_rule_set hash now i rules fb).0 ≡ ok xs)
        × AreResolved now i rules xs fb
  unfolding evaluate_rule_set
  evaluate_rule_set_total now i [] fb h = ([], refl, tt)
  evaluate_rule_set_total now i (r ∷ rs) fb h =
      let (x, e, n, a, m) = evaluate_rule_total (now i) r fb h.0 in
      let (xs, es, ps) =
        evaluate_rule_set_total now (suc i) rs (evaluate_rule hash (now i) r fb).1 h.1 in
      (x ∷ xs, ground (arith, e, es), (n, a, m, ps))
