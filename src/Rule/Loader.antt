-- ===== src/Rule/Loader.antt =====
-- src/rule/rule_engine.cpp, LoadFromYAML. The document is what YAML::LoadFile gives, or `none` for an
-- exception; `what` is the text of any exception, which the function catches. as<std::uint32_t> is a
-- parameter beside the other conversions.
pub mod Loaded
use surface_ai.Base.{
  length, ltb, ℕ, suc, ◌+◌, Bool, true, false, ◌&&◌, not, Option, none, some, value_or, List, [],
  ◌∷◌, ◌++◌, if◌then◌else◌,
}
use surface_ai.Base.Text.{Text, text, to_string}
use surface_ai.Base.Dict.{Dict, insert_or_assign}
use surface_ai.Core.Error.{ErrorCode, ErrorInfo, Result, ok, err, fault, fail}
use surface_ai.Rule.Double.{Double}
use surface_ai.Rule.Expression.{Expr, nullptr}
use surface_ai.Rule.Engine.{Rule, RuleAction}
use surface_ai.Rule.Yaml.{Yaml}
use surface_ai.Rule.Condition.{Build, ◌>>=◌, build_expression}

-- The members of RuleEngine.
pub record RuleEngine (D : Type 0) : Type 0 where
  pub rule_sets : Dict (List (Rule D))
  pub current_path : Text

abbrev pub rule_error : {A : Type 0} → Text → Build A
rule_error message = some (fail ErrorCode.rule_parse_error message)

module _ {D N : Type 0} ⦃d : Double D⦄ (y : Yaml D N) (as_uint32 : N → Option ℕ) (what : Text) where
  -- A conversion that may throw.
  abbrev pub converted : {A : Type 0} → Option A → Build A
  converted none = rule_error (text "YAML exception: " ++ what)
  converted (some a) = some (ok a)

  -- node[key] on a scalar throws.
  abbrev pub subscripted : {A : Type 0} → N → Build A → Build A
  subscripted n m = if y.is_scalar n then converted none else m

  -- as<std::string>("").
  abbrev pub text_or_empty : Text → N → Text
  text_or_empty k n = value_or (y.text_of (y.at k n)) []

  unfoldable pub load_names : List N → Build (List Text)
  load_names [] = some (ok [])
  load_names (n ∷ ns) = do
    name ← converted (y.text_of n)
    names ← load_names ns
    some (ok (name ∷ names))

  -- `overrides` and `overridden_by`, which may be missing. The elements of a map have no string, and the
  -- conversion throws.
  unfoldable pub optional_names : Text → N → Build (List Text)
  unfolding load_names
  optional_names k rn =
      if y.is_defined (y.at k rn)
      then if y.is_map (y.at k rn) && ltb 0 (length (y.entries (y.at k rn)))
        then converted none
        else load_names (y.items (y.at k rn))
      else some (ok [])

  unfoldable pub load_action : N → Build (RuleAction D)
  load_action rn =
      let act = y.at (text "action") rn in
      if y.is_defined act
      then subscripted act (
          some (
            ok (record {
              label = text_or_empty (text "label") act;
              base_severity = value_or (y.as_double (y.at (text "base_severity") act)) d.nought;
              recommendation = text_or_empty (text "recommendation") act;
            })))
      else some (ok (record { label = []; base_severity = d.nought; recommendation = [] }))

  -- An error of the condition becomes one of the rule.
  abbrev pub of_condition : Text → Build (Expr D) → Build (Expr D)
  of_condition name none = none
  of_condition name (some (ok e)) = some (ok e)
  of_condition name (some (err e)) =
      rule_error (text "condition error for rule '" ++ name ++ text "': " ++ e.message)
  of_condition name (some fault) = some fault

  unfoldable pub load_condition : ℕ → Text → N → Build (Expr D)
  unfolding build_expression
  load_condition f name rn =
      let cond_node = y.at (text "condition") rn in
      if y.is_defined cond_node && not (y.is_null cond_node)
      then of_condition name (build_expression y f cond_node)
      else some (ok nullptr)

  -- The body of the loop over the rules of a set, from the name on.
  unfoldable pub load_named : ℕ → Text → Text → N → Build (Rule D)
  unfolding load_condition optional_names load_action
  load_named f set_name name rn = do
    condition ← load_condition f name rn
    action ← load_action rn
    overrides ← optional_names (text "overrides") rn
    overridden_by ← optional_names (text "overridden_by") rn
    some (
        ok (record {
          name = name;
          priority = value_or (as_uint32 (y.at (text "priority") rn)) 0;
          rule_set = set_name;
          overrides = overrides;
          overridden_by = overridden_by;
          condition = condition;
          action = action;
        }))

  unfoldable pub load_rule : ℕ → Text → ℕ → N → Build (Rule D)
  unfolding load_named
  load_rule f set_name ri rn = subscripted rn (elim (text_or_empty (text "name") rn) [
    | [] ↦ rule_error (
        text "rule at index "
        ++ to_string ri
        ++ text " in rule_set '"
        ++ set_name
        ++ text "' has empty or missing 'name'")
    | c ∷ cs ↦ load_named f set_name (c ∷ cs) rn
  ])

  unfoldable pub load_rules : ℕ → Text → ℕ → List N → Build (List (Rule D))
  unfolding load_rule
  load_rules f set_name ri [] = some (ok [])
  load_rules f set_name ri (rn ∷ rns) = do
    rule ← load_rule f set_name ri rn
    rules ← load_rules f set_name (suc ri) rns
    some (ok (rule ∷ rules))

  -- The loop over the rule sets; a set of the same name replaces an earlier one.
  unfoldable pub load_sets :
      ℕ → Text → List (N × N) → Dict (List (Rule D)) → Build (Dict (List (Rule D)))
  unfolding load_rules
  load_sets f path [] loaded = some (ok loaded)
  load_sets f path ((key, rules_seq) ∷ sets) loaded = do
    set_name ← converted (y.text_of key)
    rules ←
        if y.is_sequence rules_seq
        then load_rules f set_name 0 (y.items rules_seq)
        else rule_error (text "rule_set '" ++ set_name ++ text "' is not a sequence in " ++ path)
    load_sets f path sets (insert_or_assign set_name rules loaded)

  -- The elements of a sequence have no key, and the conversion of the key throws.
  unfoldable pub load_document : ℕ → Text → N → Build (Dict (List (Rule D)))
  unfolding load_sets
  load_document f path root =
      let rs_node = y.at (text "rule_sets") root in
      subscripted root (
        if y.is_defined rs_node
        then if y.is_sequence rs_node && ltb 0 (length (y.items rs_node))
          then converted none
          else load_sets f path (y.entries rs_node) []
        else rule_error (text "missing top-level 'rule_sets' key in " ++ path))

  -- LoadFromYAML: the result, and the engine afterwards.
  unfoldable pub load_from_yaml :
      ℕ → Text → Option N → RuleEngine D → Option (Result (Unit {0}) × RuleEngine D)
  unfolding load_document
  load_from_yaml f path file engine = elim (converted file >>= λ root. load_document f path root) [
    | none ↦ none
    | some r ↦ elim r [
      | ok loaded ↦ some (ok tt, record { rule_sets = loaded; current_path = path })
      | err e ↦ some (err e, engine)
      | fault ↦ some (fault, engine)
    ]
  ]
