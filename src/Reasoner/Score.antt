-- ===== src/Reasoner/Score.antt =====
-- src/reasoner/score_calculator.cpp. A read of `weights` behind its end is a fault.
use surface_ai.Base.{none, some, List, [], ◌∷◌, if◌then◌else◌}
use surface_ai.Base.Text.{Text}
use surface_ai.Core.Error.{Result, ok, fault, ◌>>=◌}
use surface_ai.Rule.Double.{Double}
use surface_ai.Rule.Value.{as_double}
use surface_ai.Rule.FactBase.{FactBase, get}
use surface_ai.Reasoner.Tree.{ScoreFormula}

module _ {D : Type 0} ⦃d : Double D⦄ where
  unfoldable pub sigmoid : D → D
  sigmoid x = d.div d.one (d.add d.one (d.exp (d.neg x)))

  -- The loop of Compute: a feature that is missing or no number adds nothing, and its weight is not read.
  unfoldable pub weighted_sum : FactBase D → D → List Text → List D → Result D
  weighted_sum facts sum [] ws = ok sum
  weighted_sum facts sum (f ∷ fs) [] = elim (get f facts) [
    | none ↦ weighted_sum facts sum fs []
    | some v ↦ elim (as_double v) [ none ↦ weighted_sum facts sum fs [] | some x ↦ fault ]
  ]
  weighted_sum facts sum (f ∷ fs) (w ∷ ws) = elim (get f facts) [
    | none ↦ weighted_sum facts sum fs ws
    | some v ↦ elim (as_double v) [
      | none ↦ weighted_sum facts sum fs ws
      | some x ↦ weighted_sum facts (d.add sum (d.mul w x)) fs ws
    ]
  ]

  unfoldable pub compute : ScoreFormula D → FactBase D → Result D
  unfolding weighted_sum sigmoid
  compute formula facts = do
    sum ← weighted_sum facts d.nought formula.features formula.weights
    ok (sigmoid (d.sub sum formula.threshold))

  -- The loop of ComputeMax from `best`.
  unfoldable pub best_score : FactBase D → D → List (ScoreFormula D) → Result D
  unfolding compute
  best_score facts best [] = ok best
  best_score facts best (f ∷ fs) = do
    s ← compute f facts
    best_score facts (if d.gt s best then s else best) fs

  unfoldable pub compute_max : List (ScoreFormula D) → FactBase D → Result D
  unfolding best_score
  compute_max formulas facts = best_score facts d.nought formulas
