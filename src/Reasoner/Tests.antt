-- ===== src/Reasoner/Tests.antt =====
-- Runs of the reasoner's model, and its theorems at concrete inputs.
use surface_ai.Base.{map, ◌++◌, ℕ, ◌≤◌, ◌≡◌, refl, none, List, [], ◌∷◌, arith}
use surface_ai.Base.Text.{Text, text}
use surface_ai.Rule.FactBase.{all_entries}
use surface_ai.Rule.Engine.{TraceStep, Level}
use surface_ai.Rule.Sample.{whole_numbers, facts, results}
use surface_ai.Reasoner.Tree.{
  ScoreFormula, DecisionNode, DecisionTree, branch, leaf, nil, cons, default_to,
}
use surface_ai.Reasoner.Trace.{no_steps}
use surface_ai.Reasoner.Walk.{walk}
use surface_ai.Reasoner.Evidence.{pack}
use surface_ai.Reasoner.Landing.{IsComplete, IsLeafOf, Lands, walk-Lands}
use surface_ai.Reasoner.Outcome.{grade, grade_mono}
use surface_ai.Reasoner.Links.{content, fact_content, rule_content, pack-content}

abbrev formula : ScoreFormula ℕ
formula = record { weights = 2 ∷ []; features = text "score" ∷ []; threshold = 1 }

abbrev leaf_named : Text → DecisionNode ℕ
leaf_named l = leaf (record { formulas = formula ∷ []; label = l; recommendation = text "check" })

-- Scores above 3 go to the first leaf.
abbrev root : DecisionNode ℕ
root =
    branch (text "score") (cons (text ">3") (leaf_named (text "NG")) nil)
      (default_to (leaf_named (text "by score")))

abbrev tree : DecisionTree ℕ
tree = record { root = root; verdict_mapping = record { ng_threshold = 7; warn_threshold = 3 } }

complete : IsComplete root
unfolding IsComplete
complete = omega arith

walk-Lands_example : Lands facts (λ m. IsLeafOf m root) (walk (λ n. n) facts root no_steps)
walk-Lands_example = walk-Lands facts (λ n. n) root no_steps complete

grade_mono_example : grade tree.verdict_mapping 4 ≤ grade tree.verdict_mapping 9
grade_mono_example = grade_mono (λ s t c. ground arith) tree.verdict_mapping 4 9 refl

abbrev step_about : Text → Text → TraceStep
step_about id desc = record {
  id = id;
  level = Level.tree_branch;
  description = desc;
  source_location = text "";
  timestamp = 0;
  parent_id = none;
}

abbrev trace : List TraceStep
trace =
    step_about (text "step_0") (text "other")
    ∷ step_about (text "step_1") (text "score=5 -> >3")
    ∷ []

pack-content_example :
    map content (pack facts trace results)
    ≡ map (fact_content facts trace) (all_entries facts) ++ map rule_content results
pack-content_example = pack-content facts trace results
