-- ===== src/Rule/Condition.antt =====
-- src/rule/condition_builder.cpp: conditions built from YAML. `none` is fuel that ran out, one unit for
-- each level of nesting. The memo text of a node is composed as in the source.
pub mod Sound
pub mod Negation
use surface_ai.Base.{
  ℕ, zero, suc, ◌≡◌, Bool, true, false, not, ◌&&◌, ◌||◌, ◌==◌, Option, none, some, List, [], ◌∷◌,
  ◌++◌, if◌then◌else◌,
}
use surface_ai.Base.{leb}
use surface_ai.Base.Text.{Text, text, text_eq}
use surface_ai.Core.Error.{Result, ok, err, fault, fail, ErrorCode}
use surface_ai.Rule.Double.{Double}
use surface_ai.Rule.Value.{Value, of_double, of_string, of_bool}
use surface_ai.Rule.Expression.{
  Expr, nullptr, literal, field_ref, binary, unary, path, BinaryOp, UnaryOp, literal_source,
  source_text,
}
use surface_ai.Rule.Engine.{is_nullptr}
use surface_ai.Rule.Yaml.{Yaml}

unfoldable pub parse_binary_op : Text → Option BinaryOp
parse_binary_op s =
    if text_eq s (text "and")
    then some BinaryOp.and
    else if text_eq s (text "or")
    then some BinaryOp.or
    else if text_eq s (text "add")
    then some BinaryOp.add
    else if text_eq s (text "sub")
    then some BinaryOp.sub
    else if text_eq s (text "mul")
    then some BinaryOp.mul
    else if text_eq s (text "div")
    then some BinaryOp.div
    else if text_eq s (text "eq")
    then some BinaryOp.eq
    else if text_eq s (text "neq")
    then some BinaryOp.neq
    else if text_eq s (text "lt")
    then some BinaryOp.lt
    else if text_eq s (text "le")
    then some BinaryOp.le
    else if text_eq s (text "gt")
    then some BinaryOp.gt
    else if text_eq s (text "ge")
    then some BinaryOp.ge
    else if text_eq s (text "in")
    then some BinaryOp.in_list
    else none

abbrev has_dot : Text → Bool
has_dot [] = false
has_dot (c ∷ cs) = (c == b'.') || has_dot cs

abbrev is_integral : Text → Bool
is_integral [] = true
is_integral (c ∷ cs) = ((leb b'0' c && leb c b'9') || (c == b'-')) && is_integral cs

abbrev pub Build : Type 0 → Type 0
Build A = Option (Result A)

infixl 5 ◌>>=◌
abbrev pub ◌>>=◌ : {A B : Type 0} → Build A → (A → Build B) → Build B
none >>= f = none
some (ok a) >>= f = f a
some (err e) >>= f = some (err e)
some fault >>= f = some fault

abbrev parse_error : {A : Type 0} → Text → Result A
parse_error m = fail ErrorCode.rule_parse_error m

module _ {D N : Type 0} ⦃d : Double D⦄ (y : Yaml D N) where
  -- A number that does not convert is kept as text.
  abbrev or_text : Text → Option D → Value D
  or_text s none = of_string s
  or_text s (some x) = of_double x

  unfoldable pub literal_value : N → Value D
  literal_value n =
      let s = y.as_string n in
      if text_eq s (text "true") || text_eq s (text "false")
      then of_bool (text_eq s (text "true"))
      else if has_dot s
      then or_text s (y.as_double n)
      else if is_integral s
      then or_text s (y.as_int64 n)
      else of_string s

  unfoldable pub build_literal : N → Result (Expr D)
  unfolding literal_value
  build_literal n =
      if y.is_scalar n
      then ok (literal (literal_value n))
      else parse_error (text "literal value must be a scalar")

  -- `op` and `value` against the left side.
  unfoldable pub build_operator : Text → Text → Expr D → N → N → Result (Expr D)
  unfolding parse_binary_op build_literal
  build_operator hint lhs_source lhs op_node value_node =
      if not (y.is_scalar op_node)
      then parse_error (hint ++ text ": 'op' must be a string")
      else elim (parse_binary_op (y.as_string op_node)) [
        | none ↦
            parse_error (((hint ++ text ": unknown operator '") ++ y.as_string op_node) ++ text "'")
        | some op ↦ elim (build_literal value_node) [
          | ok lit ↦ ok (
              binary op lhs lit (
                lhs_source ++ (text " " ++ (y.as_string op_node ++ (text " " ++ source_text lit)))))
          | err e ↦ err e
          | fault ↦ fault
        ]
      ]

  unfoldable pub build_side : Text → Text → Expr D → N → Result (Expr D)
  unfolding build_operator
  build_side hint lhs_source lhs n =
      let op_node = y.at (text "op") n in
      let value_node = y.at (text "value") n in
      if not (y.is_defined op_node) && not (y.is_defined value_node)
      then ok lhs
      else build_operator hint lhs_source lhs op_node value_node

  unfoldable pub build_comparison : Text → N → Result (Expr D)
  unfolding build_side
  build_comparison hint n =
      let field_node = y.at (text "field") n in
      let path_node = y.at (text "path") n in
      if y.is_scalar field_node
      then build_side hint (y.as_string field_node) (field_ref (y.as_string field_node)) n
      else if y.is_scalar path_node
      then build_side hint (y.as_string path_node) (path (y.as_string path_node)) n
      else parse_error (hint ++ text ": must have 'field' or 'path' key")

  -- The loop of `and` and `or`; the source text of an empty pointer is a fault.
  unfoldable pub join_rest :
      (N → Build (Expr D)) → BinaryOp → Text → Expr D → List N → Build (Expr D)
  unfolding source_text
  join_rest build op word left [] = some (ok left)
  join_rest build op word left (n ∷ ns) = do
    right ← build n
    if is_nullptr left || is_nullptr right
        then some fault
        else join_rest build op word
            (binary op left right
              (text "(" ++ (source_text left ++ (word ++ (source_text right ++ text ")")))))
            ns

  unfoldable pub build_junction : (N → Build (Expr D)) → BinaryOp → Text → Text → N → Build (Expr D)
  unfolding join_rest
  build_junction build op word complaint seq =
      if not (y.is_sequence seq) then some (parse_error complaint) else elim (y.items seq) [
        | [] ↦ some (parse_error complaint)
        | n ∷ ns ↦ (do left ← build n; join_rest build op word left ns)
      ]

  -- The branches for a map, in the order of the source.
  unfoldable pub build_map : (N → Build (Expr D)) → N → Build (Expr D)
  unfolding build_comparison build_junction build_literal
  build_map build n =
      if y.is_defined (y.at (text "field") n) || y.is_defined (y.at (text "path") n)
      then some (build_comparison (text "condition") n)
      else if y.is_defined (y.at (text "and") n)
      then build_junction build BinaryOp.and (text " and ")
          (text "'and' must be a non-empty sequence") (y.at (text "and") n)
      else if y.is_defined (y.at (text "or") n)
      then build_junction build BinaryOp.or (text " or ") (text "'or' must be a non-empty sequence")
          (y.at (text "or") n)
      else if y.is_defined (y.at (text "not") n)
      then (do
        operand ← build (y.at (text "not") n)
        some (ok (unary UnaryOp.not_op operand (text "not"))))
      else if y.is_defined (y.at (text "value") n)
      then some (build_literal (y.at (text "value") n))
      else some (
          parse_error (
            text
              "unrecognized condition structure — expected 'field'+'op'+'value', 'and'/'or'/'not', 'path', or 'value'"))

  unfoldable pub build_expression : ℕ → N → Build (Expr D)
  unfolding build_map build_literal
  build_expression zero n = none
  build_expression (suc f) n =
      if not (y.is_defined n) || y.is_null n
      then some (ok nullptr)
      else if y.is_scalar n
      then some (build_literal n)
      else if not (y.is_map n)
      then some (parse_error (text "condition must be a map or scalar"))
      else build_map (build_expression f) n
