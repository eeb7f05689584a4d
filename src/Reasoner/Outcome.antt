-- ===== src/Reasoner/Outcome.antt =====
-- src/reasoner/reasoner.cpp: what DefaultReasoner::Reason returns.
use surface_ai.Base.{ℕ, ◌≤◌, ◌≡◌, Bool, true, false, List, [], ◌∷◌, ◌++◌, map, if◌then◌else◌, arith}
use surface_ai.Base.Text.{Text, text, text_eq}
use surface_ai.Core.Error.{ok}
use surface_ai.Rule.Double.{Double}
use surface_ai.Rule.FactBase.{FactBase, all_entries}
use surface_ai.Rule.Engine.{ResolvedRule}
use surface_ai.Reasoner.Tree.{DecisionTree, VerdictMapping, LeafNode}
use surface_ai.Reasoner.Score.{compute_max}
use surface_ai.Reasoner.Links.{content, fact_content, rule_content}
use surface_ai.Reasoner.Landing.{IsLeafOf}
use surface_ai.Reasoner.Reason.{ReasoningResult, is_verdict, verdict_of_score}

-- The names of the rules whose `matched` is `b`, in order.
abbrev pub names_with : {D : Type 0} → Bool → List (ResolvedRule D) → List Text
names_with b [] = []
names_with true (r ∷ rs) = if r.matched then r.name ∷ names_with true rs else names_with true rs
names_with false (r ∷ rs) = if r.matched then names_with false rs else r.name ∷ names_with false rs

module _ {D : Type 0} ⦃d : Double D⦄ where
  -- What Reason promises of its result `r`.
  pub record IsReasoned (tree : DecisionTree D) (facts : FactBase D) (rules : List (ResolvedRule D))
      (r : ReasoningResult D) : Type 0 where
    pub verdict : is_verdict r.verdict ≡ true
    pub triggered : r.triggered_rules ≡ names_with true rules
    pub overridden : r.overridden_rules ≡ names_with false rules
    pub evidence :
        map content r.evidence
        ≡ map (fact_content facts r.trace) (all_entries facts) ++ map rule_content rules
    pub confidence : r.confidence ≡ r.severity
    pub leaf :
        (n : LeafNode D) × IsLeafOf n tree.root
        × (r.recommendation ≡ n.recommendation)
        × (compute_max n.formulas facts ≡ ok r.severity)

  -- How bad a verdict by score is.
  abbrev pub grade : VerdictMapping D → D → ℕ
  grade vm score =
      if text_eq (verdict_of_score vm score) (text "NG")
      then 2
      else if text_eq (verdict_of_score vm score) (text "WARN")
      then 1
      else 0

  -- If what lies above a number also lies above each smaller one, a score that is at least as high
  -- never gets a milder verdict.
  pub grade_mono :
      (above : (s t c : D) → d.le s t ≡ true → d.gt s c ≡ true → d.gt t c ≡ true)
      (vm : VerdictMapping D) (s t : D)
      → d.le s t ≡ true
      → grade vm s ≤ grade vm t
  unfolding verdict_of_score text_eq
  grade_mono above vm s t h =
      ground (arith, above s t vm.ng_threshold h, above s t vm.warn_threshold h)
