-- ===== src/Reasoner/Tree.antt =====
-- include/sai/reasoner/decision_tree.h and the builder API of src/reasoner/decision_tree.cpp. A child
-- in `branches` is never an empty pointer, since only parsed nodes are added; a default may be.
use surface_ai.Base.{Option, none, some, List, [], ◌∷◌, ◌++◌, Ordering, if◌then◌else◌, has_value}
use surface_ai.Base.Text.{Text, text_eq, text_compare}

pub record ScoreFormula (D : Type 0) : Type 0 where
  pub weights : List D
  pub features : List Text
  pub threshold : D

-- score > ng_threshold is NG, otherwise score > warn_threshold is WARN, otherwise OK.
pub record VerdictMapping (D : Type 0) : Type 0 where
  pub ng_threshold : D
  pub warn_threshold : D

pub record LeafNode (D : Type 0) : Type 0 where
  pub formulas : List (ScoreFormula D)
  pub label : Text
  pub recommendation : Text

mutual
  pub data DecisionNode (D : Type 0) : Type 0 where
    branch : Text → Branches D → Fallback D → DecisionNode D
    leaf : LeafNode D → DecisionNode D

  -- std::map: the branches in the order of their keys.
  pub data Branches (D : Type 0) : Type 0 where
    nil : Branches D
    cons : Text → DecisionNode D → Branches D → Branches D

  pub data Fallback (D : Type 0) : Type 0 where
    absent : Fallback D
    default_to : DecisionNode D → Fallback D

pub record DecisionTree (D : Type 0) : Type 0 where
  pub root : DecisionNode D
  pub verdict_mapping : VerdictMapping D

module _ {D : Type 0} where
  unfoldable pub find_branch : Text → Branches D → Option (DecisionNode D)
  find_branch k nil = none
  find_branch k (cons j n bs) = if text_eq j k then some n else find_branch k bs

  unfoldable pub insert_branch : Text → DecisionNode D → Branches D → Branches D
  insert_branch k n nil = cons k n nil
  insert_branch k n (cons j o bs) = elim (text_compare k j) [
    | Ordering.lt ↦ cons k n (cons j o bs)
    | Ordering.eq ↦ cons k n bs
    | Ordering.gt ↦ cons j o (insert_branch k n bs)
  ]

  -- `emplace`: a key that is present keeps its child.
  unfoldable pub add_branch : Text → DecisionNode D → Branches D → Branches D
  unfolding find_branch insert_branch
  add_branch k n bs = if has_value (find_branch k bs) then bs else insert_branch k n bs

  unfoldable pub set_label : Text → LeafNode D → LeafNode D
  set_label l n = record n { label = l }

  unfoldable pub set_recommendation : Text → LeafNode D → LeafNode D
  set_recommendation r n = record n { recommendation = r }

  unfoldable pub add_formula : ScoreFormula D → LeafNode D → LeafNode D
  add_formula f n = record n { formulas = n.formulas ++ f ∷ [] }
