-- ===== src/Rule/ConditionTests.antt =====
-- Runs of the model of the condition builder over a small document, and its theorems at concrete inputs.
use surface_ai.Base.{ℕ, ◌≡◌, refl, Bool, true, false, none, some, [], if◌then◌else◌}
use surface_ai.Base.Text.{Text, text, text_eq, to_string}
use surface_ai.Base.Dict.{find}
use surface_ai.Core.Error.{ok, fault}
use surface_ai.Rule.Value.{of_bool}
use surface_ai.Rule.FactBase.{get}
use surface_ai.Rule.Expression.{Expr, literal, unary, UnaryOp, apply_unary}
use surface_ai.Rule.Evaluate.{evaluate, memo_key}
use surface_ai.Rule.Yaml.{Yaml}
use surface_ai.Rule.Condition.{build_expression}
use surface_ai.Rule.Condition.Negation.{IsNegation, negations_share_value, negated_null_faults}
use surface_ai.Rule.Sample.{whole_numbers, by_length, facts}

-- {not: true}, {not: false}, {not: null}, their operands, and the node of a missing key.
data Node : Type 0 where
  not_yes not_no not_null yes_node no_node null_node missing : Node

abbrev under_not : Node → Node
under_not not_yes = yes_node
under_not not_no = no_node
under_not not_null = null_node
under_not _ = missing

abbrev is_defined : Node → Bool
is_defined missing = false
is_defined _ = true

abbrev is_map : Node → Bool
is_map not_yes = true
is_map not_no = true
is_map not_null = true
is_map _ = false

abbrev is_scalar : Node → Bool
is_scalar yes_node = true
is_scalar no_node = true
is_scalar _ = false

abbrev is_null : Node → Bool
is_null null_node = true
is_null _ = false

abbrev scalar_text : Node → Text
scalar_text yes_node = text "true"
scalar_text _ = text "false"

-- `nulls` says which nodes are null.
abbrev document : (Node → Bool) → Yaml ℕ Node
document nulls = record {
  is_defined = is_defined;
  is_null = nulls;
  is_scalar = is_scalar;
  is_map = is_map;
  is_sequence = λ n. false;
  at = λ k n. if text_eq k (text "not") then under_not n else missing;
  items = λ n. [];
  entries = λ n. [];
  as_string = scalar_text;
  text_of = λ n. if is_scalar n then some (scalar_text n) else none;
  as_double = λ n. none;
  as_int64 = λ n. none;
}

abbrev rank : Node → ℕ
rank not_yes = 1
rank not_no = 1
rank not_null = 1
rank _ = 0

abbrev no_nulls : Node → Bool
no_nulls n = false

abbrev negation_of : Bool → Expr ℕ
negation_of b = unary UnaryOp.not_op (literal (of_bool b)) (text "not")

negates_yes : IsNegation (document is_null) not_yes
unfolding text_eq
negates_yes = record {
  defined = refl;
  not_null = refl;
  not_scalar = refl;
  map = refl;
  no_field = refl;
  no_path = refl;
  no_and = refl;
  no_or = refl;
  operand = refl;
}

negates_no : IsNegation (document is_null) not_no
unfolding text_eq
negates_no = record {
  defined = refl;
  not_null = refl;
  not_scalar = refl;
  map = refl;
  no_field = refl;
  no_path = refl;
  no_and = refl;
  no_or = refl;
  operand = refl;
}

negates_null : IsNegation (document is_null) not_null
unfolding text_eq
negates_null = record {
  defined = refl;
  not_null = refl;
  not_scalar = refl;
  map = refl;
  no_field = refl;
  no_path = refl;
  no_and = refl;
  no_or = refl;
  operand = refl;
}

-- {not: false} is true, and after {not: true} it is false.
negations_share_value_example :
    (evaluate by_length (negation_of false) (evaluate by_length (negation_of true) facts).1).0
    ≡ ok (of_bool false)
unfolding build_expression text_eq evaluate apply_unary memo_key get find to_string
negations_share_value_example =
    negations_share_value (document is_null) by_length 2 not_yes not_no (negation_of true)
      (negation_of false) facts (of_bool false) negates_yes negates_no refl refl refl

negated_null_faults_example :
    (c : Expr ℕ) × (build_expression (document is_null) 2 not_null ≡ some (ok c))
    × ((evaluate by_length c facts).0 ≡ fault)
unfolding text_eq get find memo_key to_string
negated_null_faults_example =
    negated_null_faults (document is_null) by_length 0 not_null facts negates_null refl refl
