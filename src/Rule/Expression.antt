-- ===== src/Rule/Expression.antt =====
-- include/sai/rule/expression.h, include/sai/rule/ast_nodes.h and src/rule/expression.cpp: the
-- expression tree and its evaluation, which writes memo entries into the fact base. `nullptr` is an
-- empty unique_ptr. What a constructor of the source computes from its arguments and then keeps (the
-- text of a literal, the flattened key of a path) is a function of the node here.
use surface_ai.Base.{
  Bool, false, not, ◌&&◌, ◌||◌, Option, none, some, List, [], ◌∷◌, ◌++◌, ◌==◌, if◌then◌else◌,
  length,
}
use surface_ai.Base.Text.{Text, text}
use surface_ai.Core.Error.{Result, ok, fault, ◌>>=◌}
use surface_ai.Rule.Double.{Double}
use surface_ai.Rule.Value.{
  Value, null, of_double, of_bool, as_double, as_string, as_bool, as_list, size, value_add,
  value_sub, value_mul, value_div, value_eq, value_lt, value_gt, member,
}

pub data BinaryOp : Type 0 where
  and or add sub mul div eq neq lt le gt ge in_list : BinaryOp

pub data UnaryOp : Type 0 where
  not_op neg : UnaryOp

pub data BuiltinFn : Type 0 where
  avg count max min sum len : BuiltinFn

mutual
  pub data Expr (D : Type 0) : Type 0 where
    nullptr : Expr D
    literal : Value D → Expr D
    field_ref : Text → Expr D
    binary : BinaryOp → Expr D → Expr D → Text → Expr D
    unary : UnaryOp → Expr D → Text → Expr D
    function : BuiltinFn → Exprs D → Text → Expr D
    path : Text → Expr D

  pub data Exprs (D : Type 0) : Type 0 where
    nil : Exprs D
    cons : Expr D → Exprs D → Exprs D

-- The constructor of PathExpr: each arrow becomes a dot.
unfoldable pub flatten : Text → Text
flatten [] = []
flatten (c ∷ []) = c ∷ []
flatten (c ∷ e ∷ rest) =
    let arrow = flatten rest in
    let other = flatten (e ∷ rest) in if (c == b'-') && (e == b'>') then b'.' ∷ arrow else c ∷ other

module _ {D : Type 0} where
  -- CollectFieldRefs; an empty operand is dereferenced.
  unfoldable mutual
    pub collect_field_refs : Expr D → Result (List Text)
    collect_field_refs nullptr = fault
    collect_field_refs (literal v) = ok []
    collect_field_refs (field_ref key) = ok (key ∷ [])
    collect_field_refs (binary op l r src) = do
      a ← collect_field_refs l
      b ← collect_field_refs r
      ok (a ++ b)
    collect_field_refs (unary op e src) = collect_field_refs e
    collect_field_refs (function fn args src) = collect_args args
    collect_field_refs (path p) = ok (p ∷ [])

    pub collect_args : Exprs D → Result (List Text)
    collect_args nil = ok []
    collect_args (cons e es) = do a ← collect_field_refs e; b ← collect_args es; ok (a ++ b)

module _ {D : Type 0} ⦃d : Double D⦄ where
  -- The constructor of LiteralExpr.
  unfoldable pub literal_source : Value D → Text
  literal_source v = elim (as_double v) [
    | some x ↦ d.print x
    | none ↦ elim (as_string v) [
      | some s ↦ s
      | none ↦ elim (as_bool v) [
        | some b ↦ if b then text "true" else text "false"
        | none ↦ text "null"
      ]
    ]
  ]

  unfoldable pub source_text : Expr D → Text
  unfolding literal_source
  source_text nullptr = []
  source_text (literal v) = literal_source v
  source_text (field_ref key) = key
  source_text (binary op l r src) = src
  source_text (unary op e src) = src
  source_text (function fn args src) = src
  source_text (path p) = p

  -- The switch of BinaryExpr::Evaluate, behind `and` and `or`.
  unfoldable pub apply_binary : BinaryOp → Value D → Value D → Value D
  apply_binary add l r = value_add l r
  apply_binary sub l r = value_sub l r
  apply_binary mul l r = value_mul l r
  apply_binary div l r = value_div l r
  apply_binary eq l r = of_bool (value_eq l r)
  apply_binary neq l r = of_bool (not (value_eq l r))
  apply_binary lt l r = of_bool (value_lt l r)
  apply_binary le l r = of_bool (value_lt l r || value_eq l r)
  apply_binary gt l r = of_bool (value_gt l r)
  apply_binary ge l r = of_bool (value_gt l r || value_eq l r)
  apply_binary in_list l r = elim (as_list r) [
    | none ↦ of_bool false
    | some vs ↦ of_bool (member l vs)
  ]
  apply_binary _ l r = null

  unfoldable pub apply_unary : UnaryOp → Value D → Value D
  apply_unary not_op v = elim (as_bool v) [ none ↦ null | some b ↦ of_bool (not b) ]
  apply_unary neg v = elim (as_double v) [
    | some x ↦ of_double (d.neg x)
    | none ↦ elim (as_bool v) [
      | some b ↦ of_double (d.neg (if b then d.one else d.nought))
      | none ↦ null
    ]
  ]

  -- The loops of `Avg` and `Sum`; `none` is their early return of null.
  unfoldable pub sum_doubles : D → List (Value D) → Option D
  sum_doubles acc [] = some acc
  sum_doubles acc (v ∷ vs) = elim (as_double v) [
    | none ↦ none
    | some n ↦ sum_doubles (d.add acc n) vs
  ]

  -- The loops of `Max` and `Min`: `better n m` is the test that replaces m.
  unfoldable pub best_double : (D → D → Bool) → D → List (Value D) → Option D
  best_double better m [] = some m
  best_double better m (v ∷ vs) = elim (as_double v) [
    | none ↦ none
    | some n ↦ best_double better (if better n m then n else m) vs
  ]

  abbrev pub or_null : Option D → Value D
  or_null none = null
  or_null (some x) = of_double x

  abbrev pub extremum : (D → D → Bool) → List (Value D) → Value D
  extremum better [] = null
  extremum better (v ∷ vs) = elim (as_double v) [
    | none ↦ null
    | some m ↦ or_null (best_double better m vs)
  ]

  -- The switch of FunctionExpr::Evaluate.
  unfoldable pub apply_function : BuiltinFn → List (Value D) → Value D
  unfolding sum_doubles best_double
  apply_function avg [] = null
  apply_function avg (v ∷ vs) = elim (sum_doubles d.nought (v ∷ vs)) [
    | none ↦ null
    | some s ↦ of_double (d.div s (d.of_size (length (v ∷ vs))))
  ]
  apply_function count vs = of_double (d.of_size (length vs))
  apply_function max vs = extremum d.gt vs
  apply_function min vs = extremum d.lt vs
  apply_function sum vs = or_null (sum_doubles d.nought vs)
  apply_function len [] = of_double d.nought
  apply_function len (v ∷ vs) = elim (as_string v) [
    | some s ↦ of_double (d.of_size (length s))
    | none ↦ elim (as_list v) [ some xs ↦ of_double (d.of_size (size xs)) | none ↦ null ]
  ]
