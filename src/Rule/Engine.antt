-- ===== src/Rule/Engine.antt =====
-- include/sai/rule/rule_engine.h and src/rule/rule_engine.cpp: evaluation of rule sets. `now` gives
-- the readings of the clock, which only stand in the trace. A `fault` of a condition is one of the
-- whole call; an error of a condition is caught and leaves its rule unmatched.
pub mod Transparent
pub mod Recovery
use surface_ai.Base.{
  ℕ, suc, Bool, true, false, Option, none, some, List, [], ◌∷◌, ◌++◌, if◌then◌else◌,
}
use surface_ai.Base.Text.{Text, text}
use surface_ai.Base.Dict.{Dict}
use surface_ai.Core.Error.{Result, ok, err, fault}
use surface_ai.Core.Error.{◌>>=◌ as then_do}
use surface_ai.Rule.Double.{Double}
use surface_ai.Rule.Value.{Value}
use surface_ai.Rule.FactBase.{FactBase, snapshot}
use surface_ai.Rule.Expression.{Expr, nullptr}
use surface_ai.Rule.Evaluate.{Eval, ◌>>=◌, return, truth, evaluate}

pub record RuleAction (D : Type 0) : Type 0 where
  pub label : Text
  pub base_severity : D
  pub recommendation : Text

pub data Level : Type 0 where
  expression rule tree_branch scoring : Level

pub record TraceStep : Type 0 where
  pub id : Text
  pub level : Level
  pub description : Text
  pub source_location : Text
  pub timestamp : ℕ
  pub parent_id : Option Text

-- The condition of a rule without one is `nullptr`.
pub record Rule (D : Type 0) : Type 0 where
  pub name : Text
  pub priority : ℕ
  pub rule_set : Text
  pub overrides : List Text
  pub overridden_by : List Text
  pub condition : Expr D
  pub action : RuleAction D

pub record ResolvedRule (D : Type 0) : Type 0 where
  pub name : Text
  pub matched : Bool
  pub action : RuleAction D
  pub eval_trace : List TraceStep

module _ {D : Type 0} where
  -- The result for one rule, with its one trace step.
  unfoldable pub resolve : ℕ → Rule D → Bool → Text → ResolvedRule D
  resolve timestamp r matched outcome = record {
    name = r.name;
    matched = matched;
    action = r.action;
    eval_trace =
        record {
          id = r.name ++ text ":eval";
          level = Level.rule;
          description = (text "Evaluating condition for " ++ r.name) ++ outcome;
          source_location = r.name;
          timestamp = timestamp;
          parent_id = none;
        }
        ∷ [];
  }

  -- What the loop of EvaluateRuleSet makes of the result of a condition.
  unfoldable pub settle : ℕ → Rule D → Result (Value D) → Result (ResolvedRule D)
  unfolding resolve
  settle timestamp r (ok v) =
      ok (resolve timestamp r (truth v) (if truth v then text " -> MATCH" else text " -> NO_MATCH"))
  settle timestamp r (err e) = ok (resolve timestamp r false (text " -> ERROR: " ++ e.message))
  settle timestamp r fault = fault

  abbrev pub is_nullptr : Expr D → Bool
  is_nullptr nullptr = true
  is_nullptr _ = false

  unfoldable pub unconditional : ℕ → Rule D → ResolvedRule D
  unfolding resolve
  unconditional timestamp r = resolve timestamp r true (text " -> MATCH (no condition)")

module _ {D : Type 0} ⦃d : Double D⦄ (hash : Text → ℕ) where
  unfoldable pub evaluate_rule : ℕ → Rule D → Eval D (ResolvedRule D)
  evaluate_rule timestamp r fb =
      if is_nullptr r.condition
      then (ok (unconditional timestamp r), fb)
      else (settle timestamp r (evaluate hash r.condition fb).0, (evaluate hash r.condition fb).1)

  -- EvaluateRuleSet, from the `i`-th reading of the clock.
  unfoldable pub evaluate_rule_set : (ℕ → ℕ) → ℕ → List (Rule D) → Eval D (List (ResolvedRule D))
  evaluate_rule_set now i [] = return []
  evaluate_rule_set now i (r ∷ rs) = do
    x ← evaluate_rule (now i) r
    xs ← evaluate_rule_set now (suc i) rs
    return (x ∷ xs)

  -- EvaluateAll: each rule set by a task with its own copy of the facts and its own clock readings; the
  -- results are joined in the order of the sets' names.
  unfoldable pub evaluate_all :
      (Text → ℕ → ℕ) → Dict (List (Rule D)) → FactBase D → Result (List (ResolvedRule D))
  unfolding snapshot
  evaluate_all now [] facts = ok []
  evaluate_all now ((set_name, rules) ∷ sets) facts =
      then_do (evaluate_rule_set (now set_name) 0 rules (snapshot facts)).0
        λ batch. then_do (evaluate_all now sets facts) λ rest. ok (batch ++ rest)
