-- ===== src/Rule/Evaluate.antt =====
-- src/rule/expression.cpp: the `Evaluate` methods, which keep memo entries in the fact base.
use surface_ai.Base.{
  ℕ, Bool, true, false, not, ◌&&◌, ◌||◌, none, some, List, [], ◌∷◌, ◌++◌, value_or, if◌then◌else◌,
}
use surface_ai.Base.Text.{Text, text, to_string}
use surface_ai.Core.Error.{Result, ok, err, fault, fail, ErrorCode}
use surface_ai.Rule.Double.{Double}
use surface_ai.Rule.Value.{Value, of_bool, as_bool}
use surface_ai.Rule.FactBase.{FactBase, FactSourceKind, source_of_kind, get, set, resolve_path}
use surface_ai.Rule.Expression.{
  Expr, Exprs, nullptr, literal, field_ref, binary, unary, function, path, nil, cons, flatten,
  BinaryOp, apply_binary, apply_unary, apply_function,
}

-- A computation that may write facts, and may fail.
abbrev pub Eval : Type 0 → Type 0 → Type 0
Eval D A = FactBase D → Result A × FactBase D

infixl 5 ◌>>=◌
abbrev pub ◌>>=◌ : {D A B : Type 0} → Eval D A → (A → Eval D B) → Eval D B
◌>>=◌ m f fb = elim (m fb).0 [
  | ok a ↦ f a (m fb).1
  | err e ↦ (err e, (m fb).1)
  | fault ↦ (fault, (m fb).1)
]

abbrev pub return : {D A : Type 0} → A → Eval D A
return a fb = (ok a, fb)

-- `hash` is std::hash<std::string_view>.
unfoldable pub memo_key : (Text → ℕ) → Text → Text
memo_key hash src = text "__memo__" ++ to_string (hash src)

abbrev pub is_junction : BinaryOp → Bool
is_junction BinaryOp.and = true
is_junction BinaryOp.or = true
is_junction _ = false

-- The value of the left side that settles `and` (false) and `or` (true).
abbrev pub settles : BinaryOp → Bool → Bool
settles BinaryOp.and b = not b
settles BinaryOp.or b = b
settles _ b = false

abbrev pub join : BinaryOp → Bool → Bool → Bool
join BinaryOp.and a b = a && b
join _ a b = a || b

module _ {D : Type 0} where
  unfoldable pub store_memo :
      (Text → ℕ) → Text → Result (Value D) × FactBase D → Result (Value D) × FactBase D
  store_memo hash src (ok v, fb) = (
    ok v,
    set (memo_key hash src) v (source_of_kind FactSourceKind.computed (text "memoized:" ++ src)) fb,
  )
  store_memo hash src (r, fb) = (r, fb)

  unfoldable pub eval_with_memo : (Text → ℕ) → Text → Eval D (Value D) → Eval D (Value D)
  unfolding store_memo
  eval_with_memo hash [] compute fb = compute fb
  eval_with_memo hash (c ∷ src) compute fb = elim (get (memo_key hash (c ∷ src)) fb) [
    | some v ↦ (ok v, fb)
    | none ↦ store_memo hash (c ∷ src) (compute fb)
  ]

  -- The lookups of FieldRefExpr and PathExpr.
  unfoldable pub read_field : Text → FactBase D → Result (Value D)
  read_field key fb = elim (get key fb) [
    | some v ↦ ok v
    | none ↦ fail ErrorCode.rule_type_mismatch (text "field not found: " ++ key)
  ]

  unfoldable pub flat_key : Text → FactBase D → Text
  flat_key p fb = value_or (resolve_path p fb) (flatten p)

  unfoldable pub read_path : Text → FactBase D → Result (Value D)
  unfolding flat_key
  read_path p fb = elim (get (flat_key p fb) fb) [
    | some v ↦ ok v
    | none ↦ fail ErrorCode.rule_type_mismatch (text "field not found via path: " ++ flat_key p fb)
  ]

  abbrev pub truth : Value D → Bool
  truth v = value_or (as_bool v) false

module _ {D : Type 0} ⦃d : Double D⦄ where
  unfoldable pub eval_junction : BinaryOp → Eval D (Value D) → Eval D (Value D) → Eval D (Value D)
  eval_junction op l r = do
    a ← l
    if settles op (truth a)
        then return (of_bool (truth a))
        else (do b ← r; return (of_bool (join op (truth a) (truth b))))

  unfoldable pub eval_strict : BinaryOp → Eval D (Value D) → Eval D (Value D) → Eval D (Value D)
  unfolding apply_binary
  eval_strict op l r = do a ← l; b ← r; return (apply_binary op a b)

  unfoldable pub eval_binary : BinaryOp → Eval D (Value D) → Eval D (Value D) → Eval D (Value D)
  unfolding eval_junction eval_strict
  eval_binary op l r = if is_junction op then eval_junction op l r else eval_strict op l r

  module _ (hash : Text → ℕ) where
    unfoldable mutual
      unfolding eval_with_memo eval_binary apply_unary apply_function read_field read_path

      pub evaluate : Expr D → Eval D (Value D)
      evaluate nullptr fb = (fault, fb)
      evaluate (literal v) fb = (ok v, fb)
      evaluate (field_ref key) fb = eval_with_memo hash key (λ s. (read_field key s, s)) fb
      evaluate (binary op l r src) fb =
          eval_with_memo hash src (eval_binary op (evaluate l) (evaluate r)) fb
      evaluate (unary op e src) fb =
          eval_with_memo hash src (do v ← evaluate e; return (apply_unary op v)) fb
      evaluate (function fn args src) fb =
          eval_with_memo hash src (do vs ← evaluate_args args; return (apply_function fn vs)) fb
      evaluate (path p) fb = eval_with_memo hash p (λ s. (read_path p s, s)) fb

      -- The arguments in order, up to the first that fails.
      pub evaluate_args : Exprs D → Eval D (List (Value D))
      evaluate_args nil = return []
      evaluate_args (cons e es) = do v ← evaluate e; vs ← evaluate_args es; return (v ∷ vs)
