-- ===== src/Rule/Tests.antt =====
-- Runs of the rule engine's model, and its theorems at concrete inputs.
use surface_ai.Base.{ℕ, ◌≡◌, refl, inl, inr, Bool, true, List, [], ◌∷◌, map, arith, if◌then◌else◌}
use surface_ai.Base.Text.{text, text_eq, text_compare, to_string}
use surface_ai.Base.Dict.{find, insert_or_assign}
use surface_ai.Core.Error.{Result, ok}
use surface_ai.Rule.Value.{of_double, of_bool, value_gt}
use surface_ai.Rule.FactBase.{get, set, snapshot}
use surface_ai.Rule.Expression.{nullptr, apply_binary}
use surface_ai.Rule.Evaluate.{memo_key, evaluate, eval_binary, eval_strict, read_field}
use surface_ai.Rule.Meaning.{meaning}
use surface_ai.Rule.Memo.{
  Table, IsPlain, IsFresh, IsMemoOf, IsCoherent, fresh-IsMemoOf, evaluate-eq-meaning,
}
use surface_ai.Rule.Safety.{IsWhole}
use surface_ai.Rule.Engine.{
  Rule, ResolvedRule, settle, unconditional, evaluate_rule, evaluate_all, evaluate_rule_set,
}
use surface_ai.Rule.Engine.Transparent.{judge_all, evaluate_all-eq-judge_all}
use surface_ai.Rule.Engine.Recovery.{evaluate_rule_set_total, AreResolved}
use surface_ai.Rule.Sample.{rule_of, whole_numbers, by_length, facts, condition, sets}

abbrev two_rules : List (Rule ℕ)
two_rules = rule_of (text "a") [] condition ∷ rule_of (text "b") [] nullptr ∷ []

abbrev table : Table ℕ
table k = if text_eq k (text "__memo__5") then ok (of_double 5) else ok (of_bool true)

fresh : IsFresh by_length facts
unfolding get find text_eq memo_key
fresh s = refl

score-IsPlain : IsPlain by_length (text "score")
unfolding memo_key
score-IsPlain s e = ground (arith, e)

coherent : IsCoherent by_length table facts condition
unfolding IsCoherent meaning read_field get find text_eq memo_key to_string apply_binary value_gt
coherent = ((score-IsPlain, λ h. refl), tt, λ h. refl)

evaluate-eq-meaning_example :
    ((evaluate by_length condition facts).0 ≡ meaning condition facts)
    × IsMemoOf by_length table facts (evaluate by_length condition facts).1
evaluate-eq-meaning_example =
    evaluate-eq-meaning by_length table facts condition facts coherent
      (fresh-IsMemoOf by_length table facts fresh)

evaluate_all-eq-judge_all_example :
    evaluate_all by_length (λ name n. n) sets facts ≡ judge_all (λ name n. n) facts sets
unfolding IsCoherent
evaluate_all-eq-judge_all_example =
    evaluate_all-eq-judge_all by_length facts (λ name. table) (λ name n. n) sets fresh
      ((coherent, (tt, tt)), tt)

evaluate_rule_set_total_example :
    (xs : List (ResolvedRule ℕ)) × ((evaluate_rule_set by_length (λ n. n) 0 two_rules facts).0
      ≡ ok xs)
    × AreResolved by_length (λ n. n) 0 two_rules xs facts
unfolding IsWhole
evaluate_rule_set_total_example =
    evaluate_rule_set_total by_length (λ n. n) 0 two_rules facts (inr (tt, tt), (inl refl, tt))

abbrev matches : Result (List (ResolvedRule ℕ)) → List Bool
matches (ok xs) = map (λ x. x.matched) xs
matches _ = []

-- The first rule matches and the one without a condition does too.
both_match : matches (evaluate_all by_length (λ name n. n) sets facts) ≡ true ∷ true ∷ []
unfolding evaluate_all evaluate_rule_set evaluate_rule settle unconditional evaluate eval_binary
    eval_strict get set find insert_or_assign text_eq text_compare to_string memo_key value_gt
    snapshot
both_match = refl
