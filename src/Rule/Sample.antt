-- ===== src/Rule/Sample.antt =====
-- Whole numbers in place of doubles, small facts and rules, for the tests.
use surface_ai.Base.{
  ℕ, ◌+◌, ◌-◌, ◌*◌, ◌/◌, Bool, true, false, none, some, Option, List, [], ◌∷◌, length, ◌==◌, ltb,
  leb, if◌then◌else◌,
}
use surface_ai.Base.Text.{Text, text}
use surface_ai.Base.Dict.{Dict}
use surface_ai.Rule.Double.{Double}
use surface_ai.Rule.Value.{of_double}
use surface_ai.Rule.FactBase.{FactBase, FactSourceKind, source_of_kind}
use surface_ai.Rule.Expression.{Expr, nullptr, literal, field_ref, binary, BinaryOp}
use surface_ai.Rule.Engine.{Rule, RuleAction, ResolvedRule}

-- One digit.
abbrev pub read_digit : Text → Option ℕ
read_digit [] = none
read_digit (c ∷ []) = if leb b'0' c then some (c - b'0') else none
read_digit _ = none

instance abbrev pub whole_numbers : Double ℕ
whole_numbers = record {
  nought = 0;
  one = 1;
  add = ◌+◌;
  sub = ◌-◌;
  mul = ◌*◌;
  div = ◌/◌;
  neg = λ a. a;
  exp = λ a. a;
  eq = ◌==◌;
  lt = ltb;
  gt = λ a b. ltb b a;
  le = leb;
  ge = λ a b. leb b a;
  of_size = λ n. n;
  print = λ n. text "n";
  stod = read_digit;
}

abbrev pub by_length : Text → ℕ
by_length s = length s

abbrev pub facts : FactBase ℕ
facts = record {
  entries =
      (
        text "score",
        record { value = of_double 5; source = source_of_kind FactSourceKind.direct (text "") },
      )
      ∷ [];
  path_mappings = [];
}

abbrev pub condition : Expr ℕ
condition =
    binary BinaryOp.gt (field_ref (text "score")) (literal (of_double 3)) (text "score gt 3")

abbrev pub action : RuleAction ℕ
action = record { label = text "NG"; base_severity = 1; recommendation = text "stop" }

abbrev pub rule_of : Text → List Text → Expr ℕ → Rule ℕ
rule_of name overrides condition = record {
  name = name;
  priority = 0;
  rule_set = text "r";
  overrides = overrides;
  overridden_by = [];
  condition = condition;
  action = action;
}

abbrev pub sets : Dict (List (Rule ℕ))
sets =
    (text "r", rule_of (text "a") (text "b" ∷ []) condition ∷ rule_of (text "b") [] nullptr ∷ [])
    ∷ []

abbrev pub matched_as : Text → Bool → ResolvedRule ℕ
matched_as name matched = record {
  name = name;
  matched = matched;
  action = action;
  eval_trace = [];
}

abbrev pub results : List (ResolvedRule ℕ)
results = matched_as (text "a") true ∷ matched_as (text "b") true ∷ matched_as (text "c") false ∷ []
