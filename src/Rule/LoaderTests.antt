-- ===== src/Rule/LoaderTests.antt =====
-- A run of the model of the rule loader, and its theorem at a concrete input.
use surface_ai.Base.{
  ℕ, ◌<◌, ◌≡◌, refl, ◌⊎◌, All, Bool, true, false, none, some, List, [], ◌∷◌, if◌then◌else◌, arith,
}
use surface_ai.Base.Text.{Text, text, text_eq}
use surface_ai.Base.Dict.{Dict, insert_or_assign}
use surface_ai.Core.Error.{ErrorInfo, ok, err}
use surface_ai.Rule.Expression.{nullptr}
use surface_ai.Rule.Engine.{Rule}
use surface_ai.Rule.Yaml.{Yaml, IsFinite}
use surface_ai.Rule.Condition.Sound.{IsClean}
use surface_ai.Rule.Loader.{RuleEngine, load_from_yaml, load_condition, optional_names, load_action}
use surface_ai.Rule.Loader.Loaded.{AreLoaded, load_from_yaml-AreLoaded}
use surface_ai.Rule.Sample.{whole_numbers}

-- {rule_sets: {r: [{name: r}]}}
data Node : Type 0 where
  root rule_sets name sequence rule missing : Node

abbrev member_of : Text → Node → Node
member_of k root = if text_eq k (text "rule_sets") then rule_sets else missing
member_of k rule = if text_eq k (text "name") then name else missing
member_of k _ = missing

abbrev is_missing : Node → Bool
is_missing missing = true
is_missing _ = false

abbrev is_name : Node → Bool
is_name name = true
is_name _ = false

abbrev is_sequence : Node → Bool
is_sequence sequence = true
is_sequence _ = false

abbrev items_of : Node → List Node
items_of sequence = rule ∷ []
items_of _ = []

abbrev entries_of : Node → List (Node × Node)
entries_of rule_sets = (name, sequence) ∷ []
entries_of _ = []

abbrev document : Yaml ℕ Node
document = record {
  is_defined = λ n. if is_missing n then false else true;
  is_null = λ n. false;
  is_scalar = is_name;
  is_map = λ n. false;
  is_sequence = is_sequence;
  at = member_of;
  items = items_of;
  entries = entries_of;
  as_string = λ n. text "r";
  text_of = λ n. if is_name n then some (text "r") else none;
  as_double = λ n. none;
  as_int64 = λ n. none;
}

abbrev rank : Node → ℕ
rank root = 4
rank rule_sets = 3
rank sequence = 2
rank rule = 1
rank _ = 0

finite : IsFinite document rank
finite = record { rank_at = at_lower; rank_items = items_lower; rank_entries = entries_lower }
  where
    at_lower :
        (k : Text) (n : Node)
        → document.is_defined (document.at k n) ≡ true
        → rank (document.at k n) < rank n
    at_lower k root = ground arith
    at_lower k rule_sets = ground arith
    at_lower k name = ground arith
    at_lower k sequence = ground arith
    at_lower k rule = ground arith
    at_lower k missing = ground arith

    items_lower : (n : Node) → All (λ e. rank e < rank n) (document.items n)
    items_lower sequence = (omega arith, tt)
    items_lower _ = tt

    entries_lower : (n : Node) → All (λ e. rank e.1 < rank n) (document.entries n)
    entries_lower rule_sets = (omega arith, tt)
    entries_lower _ = tt

clean : IsClean document
clean = record { not_null = λ n. refl; items_defined = defined }
  where
    defined : (n : Node) → All (λ e. document.is_defined e ≡ true) (document.items n)
    defined sequence = (refl, tt)
    defined _ = tt

abbrev empty_engine : RuleEngine ℕ
empty_engine = record { rule_sets = []; current_path = [] }

loads_one :
    load_from_yaml document (λ n. none) [] 5 (text "p") (some root) empty_engine
    ≡ some (
      ok tt,
      record {
        rule_sets =
            (
              text "r",
              record {
                name = text "r";
                priority = 0;
                rule_set = text "r";
                overrides = [];
                overridden_by = [];
                condition = nullptr;
                action = record { label = []; base_severity = 0; recommendation = [] };
              }
                  ∷ [],
            )
            ∷ [];
        current_path = text "p";
      },
    )
unfolding load_from_yaml load_condition optional_names load_action insert_or_assign text_eq
loads_one = refl

load_from_yaml-AreLoaded_example :
    ((e : ErrorInfo) × (load_from_yaml document (λ n. none) [] 5 (text "p") (some root) empty_engine
        ≡ some (err e, empty_engine)))
    ⊎ ((sets : Dict (List (Rule ℕ))) × (load_from_yaml document
            (λ n. none)
            []
            5
            (text "p")
            (some root)
            empty_engine
          ≡ some (ok tt, record { rule_sets = sets; current_path = text "p" }))
        × AreLoaded sets)
load_from_yaml-AreLoaded_example =
    load_from_yaml-AreLoaded document (λ n. none) [] rank finite clean 5 (text "p") root
      empty_engine (omega arith)
