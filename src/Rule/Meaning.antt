-- ===== src/Rule/Meaning.antt =====
-- The value of an expression in one fact base, with no memo entries and no writes: the specification
-- of `Evaluate` in src/rule/expression.cpp.
use surface_ai.Base.{List, [], ◌∷◌, if◌then◌else◌}
use surface_ai.Core.Error.{Result, ok, fault, ◌>>=◌}
use surface_ai.Rule.Double.{Double}
use surface_ai.Rule.Value.{Value, of_bool}
use surface_ai.Rule.FactBase.{FactBase}
use surface_ai.Rule.Expression.{
  Expr, Exprs, nullptr, literal, field_ref, binary, unary, function, path, nil, cons, BinaryOp,
  apply_binary, apply_unary, apply_function,
}
use surface_ai.Rule.Evaluate.{read_field, read_path, is_junction, settles, join, truth}

module _ {D : Type 0} ⦃d : Double D⦄ where
  unfoldable pub mean_junction : BinaryOp → Result (Value D) → Result (Value D) → Result (Value D)
  mean_junction op l r = do
    a ← l
    if settles op (truth a)
        then ok (of_bool (truth a))
        else (do b ← r; ok (of_bool (join op (truth a) (truth b))))

  unfoldable pub mean_strict : BinaryOp → Result (Value D) → Result (Value D) → Result (Value D)
  mean_strict op l r = do a ← l; b ← r; ok (apply_binary op a b)

  unfoldable mutual
    unfolding mean_junction mean_strict

    pub meaning : Expr D → FactBase D → Result (Value D)
    meaning nullptr fb = fault
    meaning (literal v) fb = ok v
    meaning (field_ref key) fb = read_field key fb
    meaning (binary op l r src) fb =
        if is_junction op
        then mean_junction op (meaning l fb) (meaning r fb)
        else mean_strict op (meaning l fb) (meaning r fb)
    meaning (unary op e src) fb = do v ← meaning e fb; ok (apply_unary op v)
    meaning (function fn args src) fb = do vs ← mean_args args fb; ok (apply_function fn vs)
    meaning (path p) fb = read_path p fb

    pub mean_args : Exprs D → FactBase D → Result (List (Value D))
    mean_args nil fb = ok []
    mean_args (cons e es) fb = do v ← meaning e fb; vs ← mean_args es fb; ok (v ∷ vs)
