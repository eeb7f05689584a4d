-- ===== src/Rule/Safety.antt =====
-- src/rule/expression.cpp: null pointers in expressions, and memo entries of nodes that share a source
-- text.
use surface_ai.Base.{
  ℕ, ◌≡◌, ◌≢◌, refl, ◌∙◌, inl, inr, Bool, true, false, some, [], ◌∷◌, ◌++◌, if◌then◌else◌, arith,
  Option-cases, List,
}
use surface_ai.Base.Text.{Text, text, text_eq_refl}
use surface_ai.Core.Error.{Result, ok, err, fault}
use surface_ai.Rule.Double.{Double}
use surface_ai.Rule.Value.{Value}
use surface_ai.Rule.FactBase.{FactBase, FactSourceKind, source_of_kind, get, get-set}
use surface_ai.Rule.Expression.{
  Expr, Exprs, nullptr, literal, field_ref, binary, unary, function, path, nil, cons, BinaryOp,
}
use surface_ai.Rule.Evaluate.{
  Eval, ◌>>=◌, return, memo_key, store_memo, eval_with_memo, read_field, read_path, eval_binary,
  eval_junction, eval_strict, settles, truth, is_junction, evaluate, evaluate_args,
}

module _ {D : Type 0} where
  -- No operand or argument is an empty pointer.
  unfoldable mutual
    pub IsWhole : Expr D → Type 0
    IsWhole nullptr = ⊥
    IsWhole (literal v) = Unit
    IsWhole (field_ref key) = Unit
    IsWhole (binary op l r src) = IsWhole l × IsWhole r
    IsWhole (unary op e src) = IsWhole e
    IsWhole (function fn args src) = AreWhole args
    IsWhole (path p) = Unit

    pub AreWhole : Exprs D → Type 0
    AreWhole nil = Unit
    AreWhole (cons e es) = IsWhole e × AreWhole es

  record NoFault (A : Type 0) (m : Eval D A) : Type 0 where
    apply : (fb : FactBase D) → (m fb).0 ≢ fault

  continue-ne-fault :
      {A B : Type 0} (x : Result A × FactBase D) (f : A → Eval D B) (fb : FactBase D)
      → x.0 ≢ fault
      → ((a : A) → NoFault B (f a))
      → (((λ _. x) >>= f) fb).0 ≢ fault
  continue-ne-fault (ok a, s) f fb n k = (k a).apply s
  continue-ne-fault (err e, s) f fb n k = λ q. cc
  continue-ne-fault (fault, s) f fb n k = absurd (n refl)

  bind-NoFault :
      {A B : Type 0} (m : Eval D A) (f : A → Eval D B)
      → NoFault A m
      → ((a : A) → NoFault B (f a))
      → NoFault B (m >>= f)
  bind-NoFault m f h k = record { apply = λ fb. continue-ne-fault (m fb) f fb (h.apply fb) k }

  if-NoFault :
      {A : Type 0} (b : Bool) (m m' : Eval D A)
      → NoFault A m
      → NoFault A m'
      → NoFault A (if b then m else m')
  if-NoFault true m m' h h' = h
  if-NoFault false m m' h h' = h'

  store_memo-ne-fault :
      (hash : Text → ℕ) (src : Text) (r : Result (Value D) × FactBase D)
      → r.0 ≢ fault
      → (store_memo hash src r).0 ≢ fault
  unfolding store_memo
  store_memo-ne-fault hash src (ok v, fb) h = λ q. cc
  store_memo-ne-fault hash src (err e, fb) h = h
  store_memo-ne-fault hash src (fault, fb) h = h

  memo-NoFault :
      (hash : Text → ℕ) (src : Text) (m : Eval D (Value D))
      → NoFault (Value D) m
      → NoFault (Value D) (eval_with_memo hash src m)
  unfolding eval_with_memo
  memo-NoFault hash [] m h = h
  memo-NoFault hash (c ∷ cs) m h = record {
    apply = λ fb. elim (Option-cases (get (memo_key hash (c ∷ cs)) fb)) [
      | inl e ↦ rw (e, eval_with_memo) (store_memo-ne-fault hash (c ∷ cs) (m fb) (h.apply fb))
      | inr (v, e) ↦ rw (e, eval_with_memo) (λ q. cc)
    ];
  }

  read_field-NoFault : (key : Text) → NoFault (Value D) (λ fb. (read_field key fb, fb))
  unfolding read_field
  read_field-NoFault key = record { apply = λ fb. ground arith }

  read_path-NoFault : (p : Text) → NoFault (Value D) (λ fb. (read_path p fb, fb))
  unfolding read_path
  read_path-NoFault p = record { apply = λ fb. ground arith }

  return-NoFault : (A : Type 0) (a : A) → NoFault A (return a)
  return-NoFault A a = record { apply = λ fb q. cc }

  store_memo-stores :
      (hash : Text → ℕ) (src : Text) (r : Result (Value D) × FactBase D) (v : Value D)
      → (store_memo hash src r).0 ≡ ok v
      → get (memo_key hash src) (store_memo hash src r).1 ≡ some v
  unfolding store_memo
  store_memo-stores hash src (ok u, fb) v e =
      let key = memo_key hash src in
      ground (
        arith,
        get-set key key u (source_of_kind FactSourceKind.computed (text "memoized:" ++ src)) fb,
        text_eq_refl key,
      )
  store_memo-stores hash src (err i, fb) v e = cc
  store_memo-stores hash src (fault, fb) v e = cc

  module _ (hash : Text → ℕ) (c : ℕ) (cs : Text) (m m' : Eval D (Value D)) (fb : FactBase D) where
    memo_stores :
        (v : Value D)
        → (eval_with_memo hash (c ∷ cs) m fb).0 ≡ ok v
        → get (memo_key hash (c ∷ cs)) (eval_with_memo hash (c ∷ cs) m fb).1 ≡ some v
    unfolding eval_with_memo
    memo_stores v = elim (Option-cases (get (memo_key hash (c ∷ cs)) fb)) [
      | inl e ↦ rw (e, eval_with_memo) (store_memo-stores hash (c ∷ cs) (m fb) v)
      | inr (w, e) ↦ rw (e, eval_with_memo) (λ q. e ∙ cc)
    ]

    -- A node is answered from the memo entry that another with the same source text has left.
    pub memo_hit :
        (v : Value D)
        → (eval_with_memo hash (c ∷ cs) m fb).0 ≡ ok v
        → (eval_with_memo hash (c ∷ cs) m' (eval_with_memo hash (c ∷ cs) m fb).1).0 ≡ ok v
    unfolding eval_with_memo
    memo_hit v h = rw (memo_stores v h, eval_with_memo)

module _ {D : Type 0} ⦃d : Double D⦄ (hash : Text → ℕ) where
  binary-NoFault :
      (op : BinaryOp) (l r : Eval D (Value D))
      → NoFault (Value D) l
      → NoFault (Value D) r
      → NoFault (Value D) (eval_binary op l r)
  unfolding eval_binary eval_junction eval_strict
  binary-NoFault op l r hl hr =
      if-NoFault (is_junction op) _ _
        (bind-NoFault l _ hl λ a.
          if-NoFault (settles op (truth a)) _ _ (return-NoFault _ _)
            (bind-NoFault r _ hr (λ b. return-NoFault _ _)))
        (bind-NoFault l _ hl λ a. bind-NoFault r _ hr (λ b. return-NoFault _ _))

  mutual
    unfolding evaluate IsWhole

    whole-NoFault : (e : Expr D) → IsWhole e → NoFault (Value D) (evaluate hash e)
    whole-NoFault nullptr h = elim h [ ]
    whole-NoFault (literal v) h = return-NoFault _ v
    whole-NoFault (field_ref key) h = memo-NoFault hash key _ (read_field-NoFault key)
    whole-NoFault (binary op l r src) h =
        memo-NoFault hash src _ (binary-NoFault op _ _ (whole-NoFault l h.0) (whole-NoFault r h.1))
    whole-NoFault (unary op e src) h =
        memo-NoFault hash src _ (bind-NoFault _ _ (whole-NoFault e h) (λ v. return-NoFault _ _))
    whole-NoFault (function fn args src) h =
        memo-NoFault hash src _ (bind-NoFault _ _ (args-NoFault args h) (λ v. return-NoFault _ _))
    whole-NoFault (path p) h = memo-NoFault hash p _ (read_path-NoFault p)

    args-NoFault : (es : Exprs D) → AreWhole es → NoFault (List (Value D)) (evaluate_args hash es)
    args-NoFault nil h = return-NoFault _ _
    args-NoFault (cons e es) h =
        bind-NoFault _ _ (whole-NoFault e h.0)
          (λ v. bind-NoFault _ _ (args-NoFault es h.1) (λ vs. return-NoFault _ _))

  -- An expression without empty operands dereferences no null pointer, in any fact base.
  pub evaluate-ne-fault :
      (e : Expr D) (fb : FactBase D) → IsWhole e → (evaluate hash e fb).0 ≢ fault
  evaluate-ne-fault e fb h = (whole-NoFault e h).apply fb
