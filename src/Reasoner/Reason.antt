-- ===== src/Reasoner/Reason.antt =====
-- src/reasoner/reasoner.cpp, DefaultReasoner::Reason.
use surface_ai.Base.{ℕ, Bool, true, ◌||◌, List, [], ◌∷◌, ◌++◌, if◌then◌else◌}
use surface_ai.Base.Text.{Text, text, text_eq}
use surface_ai.Core.Error.{Result, ok, ◌>>=◌}
use surface_ai.Rule.Double.{Double}
use surface_ai.Rule.FactBase.{FactBase}
use surface_ai.Rule.Engine.{ResolvedRule, TraceStep}
use surface_ai.Reasoner.Tree.{DecisionTree, VerdictMapping}
use surface_ai.Reasoner.Trace.{Tracer, no_steps, record_rule, record_expression}
use surface_ai.Reasoner.Walk.{WalkResult, walk}
use surface_ai.Reasoner.Evidence.{EvidenceItem, pack}

pub record ReasoningResult (D : Type 0) : Type 0 where
  pub surface_id : Text
  pub position_id : ℕ
  pub verdict : Text
  pub severity : D
  pub recommendation : Text
  pub confidence : D
  pub trace : List TraceStep
  pub evidence : List (EvidenceItem D)
  pub triggered_rules : List Text
  pub overridden_rules : List Text

-- What the first loop of Reason fills.
pub record Merged : Type 0 where
  pub triggered : List Text
  pub overridden : List Text
  pub tracer : Tracer

unfoldable pub record_trace : (ℕ → ℕ) → List TraceStep → Tracer → Tracer
record_trace now [] t = t
record_trace now (s ∷ ss) t =
    record_trace now ss (record_expression now s.description s.source_location t)

module _ {D : Type 0} where
  unfoldable pub merge_rule : (ℕ → ℕ) → ResolvedRule D → Merged → Merged
  unfolding record_trace
  merge_rule now r m =
      if r.matched
      then record m {
        triggered = m.triggered ++ r.name ∷ [];
        tracer = record_trace now r.eval_trace (record_rule now r.name true m.tracer);
      }
      else record m { overridden = m.overridden ++ r.name ∷ [] }

  unfoldable pub merge_rules : (ℕ → ℕ) → List (ResolvedRule D) → Merged → Merged
  merge_rules now [] m = m
  merge_rules now (r ∷ rs) m = merge_rules now rs (merge_rule now r m)

unfoldable pub is_verdict : Text → Bool
is_verdict label =
    ((text_eq label (text "NG") || text_eq label (text "WARN")) || text_eq label (text "OK"))
    || text_eq label (text "UNCERTAIN")

module _ {D : Type 0} ⦃d : Double D⦄ where
  unfoldable pub verdict_of_score : VerdictMapping D → D → Text
  verdict_of_score vm score =
      if d.gt score vm.ng_threshold
      then text "NG"
      else if d.gt score vm.warn_threshold
      then text "WARN"
      else text "OK"

  unfoldable pub verdict_of : VerdictMapping D → WalkResult D → Text
  verdict_of vm w = if is_verdict w.label then w.label else verdict_of_score vm w.score

  unfoldable pub reason :
      (ℕ → ℕ) → DecisionTree D → FactBase D → List (ResolvedRule D) → Result (ReasoningResult D)
  reason now tree facts rules =
      let m =
        merge_rules now rules (record { triggered = []; overridden = []; tracer = no_steps }) in
      walk now facts tree.root m.tracer >>= λ w. ok (record {
        surface_id = text "";
        position_id = 0;
        verdict = verdict_of tree.verdict_mapping w.0;
        severity = w.0.score;
        recommendation = w.0.recommendation;
        confidence = w.0.score;
        trace = w.1.steps;
        evidence = pack facts w.1.steps rules;
        triggered_rules = m.triggered;
        overridden_rules = m.overridden;
      })
