-- ===== src/Reasoner/LoaderTests.antt =====
-- A decision tree document: a run of the loader, and the theorems on loading at it.
use surface_ai.Base.{
  ℕ, ◌<◌, ◌≡◌, refl, subst, ◌⊎◌, inl, inr, Bool, true, false, Option, none, some, List, [], ◌∷◌,
  All, if◌then◌else◌, arith,
}
use surface_ai.Base.Text.{Text, text, text_eq}
use surface_ai.Rule.Yaml.{Yaml, IsFinite}
use surface_ai.Rule.Sample.{whole_numbers, read_digit}
use surface_ai.Reasoner.Tree.{VerdictMapping, DecisionTree, leaf}
use surface_ai.Reasoner.Landing.{IsComplete, IsCovered}
use surface_ai.Reasoner.Loader.{parsed, Parse, parse_formula, load_from_yaml, reload_tree}
use surface_ai.Reasoner.Loader.Gives.{Gives, Anything}
use surface_ai.Reasoner.Loader.Weights.{IsWeighed, load_from_yaml-IsCompleteTree}
use surface_ai.Reasoner.Loader.Complete.{HasWeights, IsCompleteTree, reload_tree-IsComplete}

-- A branch on the temperature, with one leaf as its only branch and its default.
data Node : Type 0 where
  root branches end formulas formula weights features missing : Node
  scalar : Text → Node

abbrev child : Text → Node → Node
child k root =
    if text_eq k (text "type")
    then scalar (text "branch")
    else if text_eq k (text "field")
    then scalar (text "temperature")
    else if text_eq k (text "branches")
    then branches
    else if text_eq k (text "default")
    then end
    else missing
child k end =
    if text_eq k (text "type")
    then scalar (text "leaf")
    else if text_eq k (text "label")
    then scalar (text "NG")
    else if text_eq k (text "formulas")
    then formulas
    else missing
child k formula =
    if text_eq k (text "weights")
    then weights
    else if text_eq k (text "features")
    then features
    else missing
child k _ = missing

abbrev is_defined : Node → Bool
is_defined missing = false
is_defined _ = true

abbrev is_scalar : Node → Bool
is_scalar (scalar t) = true
is_scalar _ = false

abbrev is_map : Node → Bool
is_map root = true
is_map branches = true
is_map end = true
is_map formula = true
is_map _ = false

abbrev is_sequence : Node → Bool
is_sequence formulas = true
is_sequence weights = true
is_sequence features = true
is_sequence _ = false

abbrev items : Node → List Node
items formulas = formula ∷ []
items weights = scalar (text "2") ∷ []
items features = scalar (text "score") ∷ []
items _ = []

abbrev entries : Node → List (Node × Node)
entries branches = (scalar (text ">5"), end) ∷ []
entries _ = []

abbrev text_of : Node → Option Text
text_of (scalar t) = some t
text_of _ = none

abbrev as_string : Node → Text
as_string (scalar t) = t
as_string _ = []

abbrev as_double : Node → Option ℕ
as_double (scalar t) = read_digit t
as_double _ = none

abbrev document : Yaml ℕ Node
document = record {
  is_defined = is_defined;
  is_null = λ n. false;
  is_scalar = is_scalar;
  is_map = is_map;
  is_sequence = is_sequence;
  at = child;
  items = items;
  entries = entries;
  as_string = as_string;
  text_of = text_of;
  as_double = as_double;
  as_int64 = as_double;
}

abbrev rank : Node → ℕ
rank root = 6
rank branches = 5
rank end = 4
rank formulas = 3
rank formula = 2
rank weights = 1
rank features = 1
rank _ = 0

child-rank : (k : Text) (n : Node) → is_defined (child k n) ≡ true → rank (child k n) < rank n
child-rank k root = ground arith
child-rank k end = ground arith
child-rank k formula = ground arith
child-rank k _ = ground arith

items-rank : (n : Node) → All (λ e. rank e < rank n) (items n)
items-rank formulas = omega arith
items-rank weights = omega arith
items-rank features = omega arith
items-rank _ = tt

entries-rank : (n : Node) → All (λ e. rank e.1 < rank n) (entries n)
entries-rank branches = omega arith
entries-rank _ = tt

finite : IsFinite document rank
finite = record { rank_at = child-rank; rank_items = items-rank; rank_entries = entries-rank }

covered : (n : Node) → Gives IsCovered (parse_formula document n)
unfolding Gives parse_formula text_eq
covered formula = omega arith
covered (scalar t) = tt
covered _ = omega arith

weights_given : HasWeights document
unfolding Gives
weights_given n f e = subst (Gives IsCovered) e (covered n)

abbrev file : Text → Text ⊎ Node
file p = if text_eq p (text "tree.yaml") then inr root else inl (text "bad file")

enough : (p : Text) (n : Node) → file p ≡ inr n → rank n < 7
enough p n e = ground arith

abbrev defaults : VerdictMapping ℕ
defaults = record { ng_threshold = 7; warn_threshold = 3 }

abbrev old_tree : DecisionTree ℕ
old_tree = record {
  root = leaf (record { formulas = []; label = text "OK"; recommendation = [] });
  verdict_mapping = defaults;
}

weighed : IsWeighed document
unfolding text_eq
weighed formula = omega arith
weighed root = omega arith
weighed end = omega arith
weighed _ = omega arith

load_from_yaml-IsCompleteTree_example :
    Gives IsCompleteTree (load_from_yaml document file defaults 7 (text "tree.yaml"))
load_from_yaml-IsCompleteTree_example =
    load_from_yaml-IsCompleteTree document rank file defaults 7 (text "tree.yaml") finite weighed
      enough

reload_tree-IsComplete_example :
    IsComplete (reload_tree document file defaults 7 (text "tree.yaml") old_tree).0.root
    × Gives Anything (reload_tree document file defaults 7 (text "tree.yaml") old_tree).1
    × (((reload_tree document file defaults 7 (text "tree.yaml") old_tree).1 ≡ some (parsed tt))
        ⊎ ((reload_tree document file defaults 7 (text "tree.yaml") old_tree).0 ≡ old_tree))
unfolding IsComplete
reload_tree-IsComplete_example =
    reload_tree-IsComplete document weights_given rank finite file defaults 7 enough
      (text "tree.yaml") old_tree tt

is_loaded : Parse (DecisionTree ℕ) → Bool
is_loaded (some (parsed t)) = true
is_loaded _ = false

load_runs : is_loaded (load_from_yaml document file defaults 7 (text "tree.yaml")) ≡ true
unfolding load_from_yaml text_eq is_loaded
load_runs = refl
