-- ===== src/Reasoner/Walk.antt =====
-- src/reasoner/tree_walker.cpp: the walk through the decision tree, with its trace.
use surface_ai.Base.{ℕ, Bool, true, false, ◌==◌, Option, none, some, [], ◌∷◌, ◌++◌, if◌then◌else◌}
use surface_ai.Base.Text.{Text, text, text_eq}
use surface_ai.Core.Error.{Result, ok, ◌>>=◌}
use surface_ai.Rule.Double.{Double}
use surface_ai.Rule.Value.{as_double, as_string}
use surface_ai.Rule.FactBase.{FactBase, get}
use surface_ai.Reasoner.Tree.{
  DecisionNode, Branches, Fallback, LeafNode, branch, leaf, nil, cons, absent, default_to,
}
use surface_ai.Reasoner.Trace.{Tracer, record_tree_branch, record_scoring}
use surface_ai.Reasoner.Score.{compute_max}

pub record WalkResult (D : Type 0) : Type 0 where
  pub label : Text
  pub score : D
  pub recommendation : Text

-- What follows `>=` or `<=`, if the operator has two characters.
abbrev after_eq : Text → Option Text
after_eq [] = none
after_eq (c ∷ cs) = if c == b'=' then some cs else none

module _ {D : Type 0} ⦃d : Double D⦄ where
  abbrev test_against : ℕ → (D → D → Bool) → (D → D → Bool) → Text → D → Bool
  test_against op above below [] value = false
  test_against op above below (c ∷ cs) value = elim (d.stod (c ∷ cs)) [
    | none ↦ false
    | some threshold ↦
        if op == b'>'
        then above value threshold
        else if op == b'<'
        then below value threshold
        else false
  ]

  unfoldable pub match_numeric : Text → D → Bool
  match_numeric [] value = false
  match_numeric (op ∷ rest) value = elim (after_eq rest) [
    | none ↦ test_against op d.gt d.lt rest value
    | some digits ↦ test_against op d.ge d.le digits value
  ]

  unfoldable pub walk_leaf :
      (ℕ → ℕ) → LeafNode D → FactBase D → Tracer → Result (WalkResult D × Tracer)
  unfolding compute_max
  walk_leaf now n facts tracer = do
    score ← compute_max n.formulas facts
    ok (
      record { label = n.label; score = score; recommendation = n.recommendation },
      record_scoring now (text "Leaf: " ++ (n.label ++ (text " score=" ++ d.print score))) score
          tracer,
    )

  module _ (now : ℕ → ℕ) (facts : FactBase D) where
    unfoldable mutual
      unfolding walk_leaf match_numeric

      pub walk : DecisionNode D → Tracer → Result (WalkResult D × Tracer)
      walk (leaf n) tracer = walk_leaf now n facts tracer
      walk (branch field branches fallback) tracer = elim (get field facts) [
        | none ↦
            walk_default fallback
              (record_tree_branch now field (text "missing") (text "default") tracer)
        | some v ↦ elim (walk_text field (as_string v) branches tracer) [
          | some r ↦ r
          | none ↦ elim (walk_number field (as_double v) branches tracer) [
            | some r ↦ r
            | none ↦
                walk_default fallback
                  (record_tree_branch now field (text "value") (text "default") tracer)
          ]
        ]
      ]

      -- The branch whose key is the text; `none` if there is none.
      pub walk_text :
          Text → Option Text → Branches D → Tracer → Option (Result (WalkResult D × Tracer))
      walk_text field key nil tracer = none
      walk_text field key (cons k n bs) tracer = elim key [
        | none ↦ none
        | some s ↦ elim (text_eq k s) [
          | true ↦ some (walk n (record_tree_branch now field s s tracer))
          | false ↦ walk_text field (some s) bs tracer
        ]
      ]

      -- The first branch in the order of the keys whose comparison holds of the number.
      pub walk_number :
          Text → Option D → Branches D → Tracer → Option (Result (WalkResult D × Tracer))
      walk_number field value nil tracer = none
      walk_number field value (cons k n bs) tracer = elim value [
        | none ↦ none
        | some x ↦ elim (match_numeric k x) [
          | true ↦ some (walk n (record_tree_branch now field (d.print x) k tracer))
          | false ↦ walk_number field (some x) bs tracer
        ]
      ]

      pub walk_default : Fallback D → Tracer → Result (WalkResult D × Tracer)
      walk_default absent tracer = ok (
        record {
          label = text "UNCERTAIN";
          score = d.nought;
          recommendation = text "No matching branch and no default";
        },
        tracer,
      )
      walk_default (default_to n) tracer = walk n tracer
