-- ===== src/Reasoner/Loader.antt =====
-- src/reasoner/decision_tree.cpp: ParseNode and LoadFromYAML, and ReloadTree of
-- src/reasoner/reasoner.cpp. An exception of yaml-cpp that ParseNode does not catch is `thrown`. The
-- file system is the argument `file`: the document, or the text of the exception of YAML::LoadFile.
pub mod Gives
pub mod Complete
pub mod Weights
use surface_ai.Base.{
  length, ltb, ℕ, zero, suc, ◌⊎◌, inl, inr, Bool, true, false, not, ◌&&◌, Option, none, some, List,
  [], ◌∷◌, ◌++◌, if◌then◌else◌, value_or,
}
use surface_ai.Base.Text.{Text, text, text_eq}
use surface_ai.Core.Error.{ErrorCode, ErrorInfo}
use surface_ai.Rule.Double.{Double}
use surface_ai.Rule.Yaml.{Yaml}
use surface_ai.Reasoner.Tree.{
  ScoreFormula, VerdictMapping, LeafNode, DecisionNode, Branches, DecisionTree, branch, leaf, nil,
  default_to, add_branch, set_label, set_recommendation, add_formula,
}

-- How a parse ends: Result<T>, or an exception.
pub data Parsed (A : Type 0) : Type 0 where
  parsed : A → Parsed A
  failed : ErrorInfo → Parsed A
  thrown : Parsed A

-- `none` when the fuel runs out.
abbrev pub Parse : Type 0 → Type 0
Parse A = Option (Parsed A)

infixl 5 ◌>>=◌
abbrev pub ◌>>=◌ : {A B : Type 0} → Parse A → (A → Parse B) → Parse B
none >>= f = none
some (parsed a) >>= f = f a
some (failed e) >>= f = some (failed e)
some thrown >>= f = some thrown

abbrev pub return : {A : Type 0} → A → Parse A
return a = some (parsed a)

abbrev invalid_tree : {A : Type 0} → Text → Parse A
invalid_tree m = some (failed (record { code = ErrorCode.reasoner_invalid_tree; message = m }))

-- A conversion that may throw.
abbrev pub converted : {A : Type 0} → Option A → Parse A
converted none = some thrown
converted (some a) = return a

-- The conversions of a loop, in order, up to the first that throws.
unfoldable pub convert_all : {A N : Type 0} → (N → Option A) → List N → Parse (List A)
convert_all convert [] = return []
convert_all convert (n ∷ ns) = do
  a ← converted (convert n)
  rest ← convert_all convert ns
  return (a ∷ rest)

-- The new tree replaces the old one only if it was loaded.
unfoldable pub replace_tree :
    {D : Type 0} → Parse (DecisionTree D) → DecisionTree D → DecisionTree D × Parse Unit
replace_tree none tree = (tree, none)
replace_tree (some (parsed new_tree)) tree = (new_tree, return tt)
replace_tree (some (failed e)) tree = (tree, some (failed e))
replace_tree (some thrown) tree = (tree, some thrown)

module _ {D N : Type 0} ⦃d : Double D⦄ (y : Yaml D N) where
  abbrev has : Text → N → Bool
  has k n = y.is_defined (y.at k n)

  -- yaml[key] on a scalar throws.
  abbrev subscripted : {A : Type 0} → N → Parse A → Parse A
  subscripted n m = if y.is_scalar n then some thrown else m

  -- The elements of a member that may be missing. Those of a map have no value, and the conversion throws.
  unfoldable pub optional_list : {A : Type 0} → (N → Option A) → Text → N → Parse (List A)
  unfolding convert_all
  optional_list convert k n =
      if has k n
      then if y.is_map (y.at k n) && ltb 0 (length (y.entries (y.at k n)))
        then some thrown
        else convert_all convert (y.items (y.at k n))
      else return []

  unfoldable pub parse_formula : N → Parse (ScoreFormula D)
  unfolding optional_list
  parse_formula n = subscripted n (do
    weights ← optional_list y.as_double (text "weights") n
    features ← optional_list y.text_of (text "features") n
    return (record {
      weights = weights;
      features = features;
      threshold = value_or (y.as_double (y.at (text "threshold") n)) d.nought;
    }))

  unfoldable pub parse_formulas : List N → LeafNode D → Parse (LeafNode D)
  unfolding parse_formula add_formula
  parse_formulas [] m = return m
  parse_formulas (n ∷ ns) m = do f ← parse_formula n; parse_formulas ns (add_formula f m)

  -- A member of a leaf that may be missing.
  unfoldable pub optional_text : Text → N → Parse Text
  optional_text k n = if has k n then converted (y.text_of (y.at k n)) else return []

  abbrev pub empty_leaf : LeafNode D
  empty_leaf = record { formulas = []; label = []; recommendation = [] }

  -- The formulas of a leaf, added to it.
  unfoldable pub with_formulas : N → LeafNode D → Parse (LeafNode D)
  unfolding parse_formulas
  with_formulas n m =
      if has (text "formulas") n && y.is_sequence (y.at (text "formulas") n)
      then parse_formulas (y.items (y.at (text "formulas") n)) m
      else return m

  unfoldable pub parse_leaf : N → Parse (LeafNode D)
  unfolding with_formulas optional_text set_label set_recommendation
  parse_leaf n = do
    label ← optional_text (text "label") n
    recommendation ← optional_text (text "recommendation") n
    with_formulas n (set_recommendation recommendation (set_label label empty_leaf))

  -- The loop over the named branches; `parse` is the recursive call.
  unfoldable pub parse_branches :
      (N → Parse (DecisionNode D)) → List (N × N) → Branches D → Parse (Branches D)
  unfolding add_branch
  parse_branches parse [] bs = return bs
  parse_branches parse ((k, v) ∷ es) bs = do
    key ← converted (y.text_of k)
    child ← parse v
    parse_branches parse es (add_branch key child bs)

  unfoldable pub named_branches : (N → Parse (DecisionNode D)) → N → Parse (Branches D)
  unfolding parse_branches
  named_branches parse n =
      if has (text "branches") n && y.is_map (y.at (text "branches") n)
      then parse_branches parse (y.entries (y.at (text "branches") n)) nil
      else return nil

  unfoldable pub default_branch :
      (N → Parse (DecisionNode D)) → Text → Branches D → N → Parse (DecisionNode D)
  default_branch parse field branches n =
      if has (text "default") n
      then (do
        child ← parse (y.at (text "default") n)
        return (branch field branches (default_to child)))
      else invalid_tree (text "branch node missing required 'default' child")

  unfoldable pub parse_branch : (N → Parse (DecisionNode D)) → N → Parse (DecisionNode D)
  unfolding named_branches default_branch
  parse_branch parse n =
      if not (has (text "field") n)
      then invalid_tree (text "branch node missing required 'field'")
      else (do
        field ← converted (y.text_of (y.at (text "field") n))
        branches ← named_branches parse n
        default_branch parse field branches n)

  unfoldable pub parse_node : ℕ → N → Parse (DecisionNode D)
  unfolding parse_branch parse_leaf
  parse_node zero n = none
  parse_node (suc f) n = subscripted n (
      if not (has (text "type") n)
      then invalid_tree (text "node missing required 'type' field")
      else (do
        type ← converted (y.text_of (y.at (text "type") n))
        if text_eq type (text "branch")
            then parse_branch (parse_node f) n
            else if text_eq type (text "leaf")
            then (do m ← parse_leaf n; return (leaf m))
            else invalid_tree
                ((text "unknown node type '" ++ type) ++ text "' (expected 'branch' or 'leaf')")))

  -- `defaults` are the thresholds 0.7 and 0.3.
  unfoldable pub parse_mapping : VerdictMapping D → N → Parse (VerdictMapping D)
  parse_mapping defaults root =
      if not (has (text "verdict_mapping") root)
      then return defaults
      else subscripted (y.at (text "verdict_mapping") root) (
          return (record {
            ng_threshold =
                value_or
                  (y.as_double (y.at (text "ng_threshold") (y.at (text "verdict_mapping") root)))
                  defaults.ng_threshold;
            warn_threshold =
                value_or
                  (y.as_double (y.at (text "warn_threshold") (y.at (text "verdict_mapping") root)))
                  defaults.warn_threshold;
          }))

  unfoldable pub load_from_yaml :
      (Text → Text ⊎ N) → VerdictMapping D → ℕ → Text → Parse (DecisionTree D)
  unfolding parse_node parse_mapping
  load_from_yaml file defaults f p = elim (file p) [
    | inl what ↦ some (
        failed (record {
          code = ErrorCode.reasoner_tree_load_failed;
          message = ((text "failed to load decision tree from " ++ p) ++ text ": ") ++ what;
        }))
    | inr root ↦ (do
      node ← parse_node f root
      mapping ← parse_mapping defaults root
      return (record { root = node; verdict_mapping = mapping }))
  ]

  -- ReloadTree: the tree afterwards, and the result of the call.
  unfoldable pub reload_tree :
      (Text → Text ⊎ N) → VerdictMapping D → ℕ → Text → DecisionTree D → DecisionTree D × Parse Unit
  unfolding load_from_yaml replace_tree
  reload_tree file defaults f p tree = replace_tree (load_from_yaml file defaults f p) tree
