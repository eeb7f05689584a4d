-- ===== src/Rule/Condition/Negation.antt =====
-- src/rule/condition_builder.cpp, {not: ...}: every negation has the source text "not", and its operand
-- may be an empty pointer.
use surface_ai.Base.{ℕ, suc, zero, ◌≡◌, refl, true, false, none, some}
use surface_ai.Base.Text.{Text, text}
use surface_ai.Core.Error.{ok, err, fault}
use surface_ai.Rule.Double.{Double}
use surface_ai.Rule.Value.{Value}
use surface_ai.Rule.FactBase.{FactBase, get}
use surface_ai.Rule.Expression.{Expr, nullptr, unary, UnaryOp, apply_unary}
use surface_ai.Rule.Evaluate.{◌>>=◌ as bind, return, evaluate, memo_key, eval_with_memo}
use surface_ai.Rule.Safety.{memo_hit}
use surface_ai.Rule.Yaml.{Yaml}
use surface_ai.Rule.Condition.{Build, ◌>>=◌, build_map, build_expression}

-- The node is a map {not: operand}.
pub record IsNegation {D N : Type 0} (y : Yaml D N) (n : N) : Type 0 where
  pub defined : y.is_defined n ≡ true
  pub not_null : y.is_null n ≡ false
  pub not_scalar : y.is_scalar n ≡ false
  pub map : y.is_map n ≡ true
  pub no_field : y.is_defined (y.at (text "field") n) ≡ false
  pub no_path : y.is_defined (y.at (text "path") n) ≡ false
  pub no_and : y.is_defined (y.at (text "and") n) ≡ false
  pub no_or : y.is_defined (y.at (text "or") n) ≡ false
  pub operand : y.is_defined (y.at (text "not") n) ≡ true

module _ {D : Type 0} where
  abbrev negation : Expr D → Expr D
  negation e = unary UnaryOp.not_op e (text "not")

module _ {D N : Type 0} ⦃d : Double D⦄ (y : Yaml D N) where
  build_negation :
      (f : ℕ) (n : N)
      → IsNegation y n
      → build_expression y (suc f) n
        ≡ (build_expression y f (y.at (text "not") n) >>= λ e. some (ok (negation e)))
  unfolding build_expression build_map
  build_negation f n h =
      rw
        (
          h.defined, h.not_null, h.not_scalar, h.map, h.no_field, h.no_path, h.no_and, h.no_or,
          h.operand,
        )
        refl

  is_negation :
      (m : Build (Expr D)) (c : Expr D)
      → (m >>= λ e. some (ok (negation e))) ≡ some (ok c)
      → (a : Expr D) × (c ≡ negation a)
  is_negation none c h = cc
  is_negation (some (ok a)) c h = (a, cc)
  is_negation (some (err i)) c h = cc
  is_negation (some fault) c h = cc

  built_negation :
      (f : ℕ) (n : N) (c : Expr D)
      → IsNegation y n
      → build_expression y f n ≡ some (ok c)
      → (a : Expr D) × (c ≡ negation a)
  unfolding build_expression
  built_negation zero n c h e = cc
  built_negation (suc f) n c h e =
      is_negation (build_expression y f (y.at (text "not") n)) c (rw (build_negation f n h) at e)

  module _ (hash : Text → ℕ) where
    negation_hit :
        (a b : Expr D) (facts : FactBase D) (v : Value D)
        → (evaluate hash (negation a) facts).0 ≡ ok v
        → (evaluate hash (negation b) (evaluate hash (negation a) facts).1).0 ≡ ok v
    unfolding evaluate
    negation_hit a b facts v h =
        memo_hit hash _ _ (bind (evaluate hash a) (λ w. return (apply_unary UnaryOp.not_op w)))
          (bind (evaluate hash b) (λ w. return (apply_unary UnaryOp.not_op w))) facts v h

    -- Of two negations {not: ...} that are built without an error and evaluated one after the other in
    -- the same facts, the first to a value, the second has the value of the first, whatever its own
    -- operand is.
    pub negations_share_value :
        (f : ℕ) (n n' : N) (c c' : Expr D) (facts : FactBase D) (v : Value D)
        → IsNegation y n
        → IsNegation y n'
        → build_expression y f n ≡ some (ok c)
        → build_expression y f n' ≡ some (ok c')
        → (evaluate hash c facts).0 ≡ ok v
        → (evaluate hash c' (evaluate hash c facts).1).0 ≡ ok v
    negations_share_value f n n' c c' facts v h h' b b' e =
        let (a, p) = built_negation f n c h b in
        let (a', p') = built_negation f n' c' h' b' in
        rw (p, p') (negation_hit a a' facts v (rw p at e))

    negated_null_evaluates :
        (facts : FactBase D)
        → get (memo_key hash (text "not")) facts ≡ none
        → (evaluate hash (negation nullptr) facts).0 ≡ fault
    unfolding evaluate eval_with_memo
    negated_null_evaluates facts fresh = rw (fresh, eval_with_memo) refl

    -- A negation whose operand is null is built without an error, and dereferences a null pointer when
    -- it is evaluated in facts that hold no memo entry for "not".
    pub negated_null_faults :
        (f : ℕ) (n : N) (facts : FactBase D)
        → IsNegation y n
        → y.is_null (y.at (text "not") n) ≡ true
        → get (memo_key hash (text "not")) facts ≡ none
        → (c : Expr D) × (build_expression y (suc (suc f)) n ≡ some (ok c))
          × ((evaluate hash c facts).0 ≡ fault)
    unfolding build_expression
    negated_null_faults f n facts h null fresh = (
      negation nullptr,
      rw (build_negation (suc f) n h, h.operand, null) refl,
      negated_null_evaluates facts fresh,
    )
