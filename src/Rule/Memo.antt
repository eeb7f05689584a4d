-- ===== src/Rule/Memo.antt =====
-- src/rule/expression.cpp: memo entries, and the values they stand for.
use surface_ai.Base.{
  ℕ, ◌≡◌, ◌≢◌, refl, sym, ◌∙◌, inl, inr, Bool, true, false, none, some, List, [], ◌∷◌,
  if◌then◌else◌, arith, Option-cases,
}
use surface_ai.Base.Text.{Text, text_eq_iff}
use surface_ai.Core.Error.{Result, ok, err, fault, ◌>>=◌}
use surface_ai.Rule.Double.{Double}
use surface_ai.Rule.Value.{Value, of_bool}
use surface_ai.Rule.FactBase.{
  FactBase, FactSource, get, set, resolve_path, get-set, resolve_path-set,
}
use surface_ai.Rule.Expression.{
  Expr, Exprs, nullptr, literal, field_ref, binary, unary, function, path, nil, cons, BinaryOp,
}
use surface_ai.Rule.Evaluate.{
  Eval, ◌>>=◌ as bind, memo_key, store_memo, eval_with_memo, read_field, read_path, flat_key,
  is_junction, settles, truth, join, return, eval_junction, eval_strict, eval_binary, evaluate,
  evaluate_args,
}
use surface_ai.Rule.Meaning.{meaning, mean_args, mean_junction, mean_strict}

-- The keys of facts, as opposed to those of memo entries.
abbrev pub IsPlain : (Text → ℕ) → Text → Type 0
IsPlain hash k = (s : Text) → k ≢ memo_key hash s

-- A fact base that holds no memo entry yet.
abbrev pub IsFresh : {D : Type 0} → (Text → ℕ) → FactBase D → Type 0
IsFresh hash fb = (s : Text) → get (memo_key hash s) fb ≡ none

-- `table` is the value that belongs to each memo key.
abbrev pub Table : Type 0 → Type 0
Table D = Text → Result (Value D)

-- The fact base is `fb0` with memo entries added, each holding the value of its key.
pub record IsMemoOf {D : Type 0} (hash : Text → ℕ) (table : Table D) (fb0 fb : FactBase D)
    : Type 0 where
  pub facts : (k : Text) → IsPlain hash k → get k fb ≡ get k fb0
  pub memos :
      (s : Text) (v : Value D) → get (memo_key hash s) fb ≡ some v → table (memo_key hash s) ≡ ok v
  pub paths : (p : Text) → resolve_path p fb ≡ resolve_path p fb0

module _ {D : Type 0} ⦃d : Double D⦄ (hash : Text → ℕ) (table : Table D) (fb0 : FactBase D) where
  abbrev HasKey : Text → Expr D → Type 0
  HasKey src e = src ≢ [] → meaning e fb0 ≡ table (memo_key hash src)

  -- Each node that writes a memo entry has the value that belongs to its memo key, and no fact that is
  -- read has the key of a memo entry.
  unfoldable mutual
    pub IsCoherent : Expr D → Type 0
    IsCoherent nullptr = Unit
    IsCoherent (literal v) = Unit
    IsCoherent (field_ref key) = IsPlain hash key × HasKey key (field_ref key)
    IsCoherent (binary op l r src) = IsCoherent l × IsCoherent r × HasKey src (binary op l r src)
    IsCoherent (unary op e src) = IsCoherent e × HasKey src (unary op e src)
    IsCoherent (function fn args src) = AreCoherent args × HasKey src (function fn args src)
    IsCoherent (path p) = IsPlain hash (flat_key p fb0) × HasKey p (path p)

    pub AreCoherent : Exprs D → Type 0
    AreCoherent nil = Unit
    AreCoherent (cons e es) = IsCoherent e × AreCoherent es

  -- From every such fact base the computation gives `r` and ends in such a fact base.
  abbrev Computes : (A : Type 0) → Eval D A → Result A → Type 0
  Computes A m r =
      (fb : FactBase D)
      → IsMemoOf hash table fb0 fb
      → ((m fb).0 ≡ r) × IsMemoOf hash table fb0 (m fb).1

  set-IsMemoOf :
      (src : Text) (v : Value D) (fs : FactSource) (fb : FactBase D)
      → table (memo_key hash src) ≡ ok v
      → IsMemoOf hash table fb0 fb
      → IsMemoOf hash table fb0 (set (memo_key hash src) v fs fb)
  set-IsMemoOf src v fs fb h m =
      let key = memo_key hash src in
      record {
        facts = λ k plain.
            ground (arith, get-set k key v fs fb, text_eq_iff key k, plain src, m.facts k plain);
        memos = λ s w e. ground (
          arith,
          get-set (memo_key hash s) key v fs fb,
          text_eq_iff key (memo_key hash s),
          m.memos s w,
        );
        paths = λ p. resolve_path-set p key v fs fb ∙ m.paths p;
      }

  store_memo-Computes :
      (src : Text) (r : Result (Value D) × FactBase D) (v : Result (Value D))
      → r.0 ≡ v
      → v ≡ table (memo_key hash src)
      → IsMemoOf hash table fb0 r.1
      → ((store_memo hash src r).0 ≡ v) × IsMemoOf hash table fb0 (store_memo hash src r).1
  unfolding store_memo
  store_memo-Computes src (ok w, fb) v e h m = (e, set-IsMemoOf src w _ fb (cc) m)
  store_memo-Computes src (err i, fb) v e h m = (e, m)
  store_memo-Computes src (fault, fb) v e h m = (e, m)

  memo-Computes :
      (src : Text) (m : Eval D (Value D)) (v : Result (Value D))
      → Computes (Value D) m v
      → (src ≢ [] → v ≡ table (memo_key hash src))
      → Computes (Value D) (eval_with_memo hash src m) v
  unfolding eval_with_memo
  memo-Computes [] m v c h fb i = c fb i
  memo-Computes (b ∷ bs) m v c h fb i = elim (Option-cases (get (memo_key hash (b ∷ bs)) fb)) [
    | inl e ↦
        rw (e, eval_with_memo)
          (store_memo-Computes (b ∷ bs) (m fb) v (c fb i).0 (h (λ q. cc)) (c fb i).1)
    | inr (w, e) ↦ rw (e, eval_with_memo) (sym (h (λ q. cc) ∙ i.memos (b ∷ bs) w e), i)
  ]

  continue-Computes :
      {A B : Type 0} (x : Result A × FactBase D) (f : A → Eval D B) (g : A → Result B)
      → IsMemoOf hash table fb0 x.1
      → ((a : A) → Computes B (f a) (g a))
      → ((bind (λ _. x) f fb0).0 ≡ (x.0 >>= g)) × IsMemoOf hash table fb0 (bind (λ _. x) f fb0).1
  continue-Computes (ok a, s) f g i k = k a s i
  continue-Computes (err e, s) f g i k = (refl, i)
  continue-Computes (fault, s) f g i k = (refl, i)

  bind-Computes :
      {A B : Type 0} (m : Eval D A) (r : Result A) (f : A → Eval D B) (g : A → Result B)
      → Computes A m r
      → ((a : A) → Computes B (f a) (g a))
      → Computes B (bind m f) (r >>= g)
  bind-Computes m r f g c k fb i = rw (← (c fb i).0) (continue-Computes (m fb) f g (c fb i).1 k)

  if-Computes :
      {A : Type 0} (b : Bool) (m m' : Eval D A) (r r' : Result A)
      → Computes A m r
      → Computes A m' r'
      → Computes A (if b then m else m') (if b then r else r')
  if-Computes true m m' r r' c c' = c
  if-Computes false m m' r r' c c' = c'

  junction-Computes :
      (op : BinaryOp) (l r : Eval D (Value D)) (u v : Result (Value D))
      → Computes (Value D) l u
      → Computes (Value D) r v
      → Computes (Value D) (eval_junction op l r) (mean_junction op u v)
  unfolding eval_junction mean_junction
  junction-Computes op l r u v cl cr =
      bind-Computes l u
        (λ a.
          if settles op (truth a)
          then return (of_bool (truth a))
          else bind r (λ b. return (of_bool (join op (truth a) (truth b)))))
        (λ a.
          if settles op (truth a)
          then ok (of_bool (truth a))
          else v >>= (λ b. ok (of_bool (join op (truth a) (truth b)))))
        cl
        λ a.
          if-Computes (settles op (truth a)) _ _ _ _ (λ s j. (refl, j))
            (bind-Computes r v (λ b. return (of_bool (join op (truth a) (truth b))))
              (λ b. ok (of_bool (join op (truth a) (truth b)))) cr (λ b s j. (refl, j)))

  strict-Computes :
      (op : BinaryOp) (l r : Eval D (Value D)) (u v : Result (Value D))
      → Computes (Value D) l u
      → Computes (Value D) r v
      → Computes (Value D) (eval_strict op l r) (mean_strict op u v)
  unfolding eval_strict mean_strict
  strict-Computes op l r u v cl cr =
      bind-Computes l u _ _ cl (λ a. bind-Computes r v _ _ cr (λ b s j. (refl, j)))

  binary-Computes :
      (op : BinaryOp) (l r : Eval D (Value D)) (u v : Result (Value D))
      → Computes (Value D) l u
      → Computes (Value D) r v
      → Computes
          (Value D)
          (eval_binary op l r)
          (if is_junction op then mean_junction op u v else mean_strict op u v)
  unfolding eval_binary
  binary-Computes op l r u v cl cr =
      if-Computes (is_junction op) _ _ _ _ (junction-Computes op l r u v cl cr)
        (strict-Computes op l r u v cl cr)

  read_field-eq :
      (key : Text) (fb : FactBase D)
      → IsPlain hash key
      → IsMemoOf hash table fb0 fb
      → read_field key fb ≡ read_field key fb0
  unfolding read_field
  read_field-eq key fb p i = rw (i.facts key p, read_field)

  read_path-eq :
      (p : Text) (fb : FactBase D)
      → IsPlain hash (flat_key p fb0)
      → IsMemoOf hash table fb0 fb
      → read_path p fb ≡ read_path p fb0
  unfolding read_path
  read_path-eq p fb h i = ground (arith, i.paths p, i.facts (flat_key p fb0) h)

  mutual
    unfolding evaluate meaning IsCoherent

    evaluate-Computes :
        (e : Expr D) → IsCoherent e → Computes (Value D) (evaluate hash e) (meaning e fb0)
    evaluate-Computes nullptr c = λ fb i. (refl, i)
    evaluate-Computes (literal v) c = λ fb i. (refl, i)
    evaluate-Computes (field_ref key) c =
        memo-Computes key _ _ (λ fb i. (read_field-eq key fb c.0 i, i)) c.1
    evaluate-Computes (binary op l r src) c =
        memo-Computes src _ _
          (binary-Computes op _ _ _ _ (evaluate-Computes l c.0) (evaluate-Computes r c.1)) c.2
    evaluate-Computes (unary op e src) c =
        memo-Computes src _ _ (bind-Computes _ _ _ _ (evaluate-Computes e c.0) (λ v s j. (refl, j)))
          c.1
    evaluate-Computes (function fn args src) c =
        memo-Computes src _ _ (bind-Computes _ _ _ _ (args-Computes args c.0) (λ v s j. (refl, j)))
          c.1
    evaluate-Computes (path p) c = memo-Computes p _ _ (λ fb i. (read_path-eq p fb c.0 i, i)) c.1

    args-Computes :
        (es : Exprs D)
        → AreCoherent es
        → Computes (List (Value D)) (evaluate_args hash es) (mean_args es fb0)
    args-Computes nil c = λ fb i. (refl, i)
    args-Computes (cons e es) c =
        bind-Computes _ _ _ _ (evaluate-Computes e c.0)
          (λ v. bind-Computes _ _ _ _ (args-Computes es c.1) (λ vs s j. (refl, j)))

  pub fresh-IsMemoOf : IsFresh hash fb0 → IsMemoOf hash table fb0 fb0
  fresh-IsMemoOf fresh = record {
    facts = λ k plain. refl;
    memos = λ s v e. ground (arith, fresh s);
    paths = λ p. refl;
  }

  -- In a fact base that holds, besides its facts, only memo entries with the values of their keys, a
  -- coherent expression evaluates to its meaning, and leaves such a fact base behind.
  pub evaluate-eq-meaning :
      (e : Expr D) (fb : FactBase D)
      → IsCoherent e
      → IsMemoOf hash table fb0 fb
      → ((evaluate hash e fb).0 ≡ meaning e fb0) × IsMemoOf hash table fb0 (evaluate hash e fb).1
  evaluate-eq-meaning e fb c i = evaluate-Computes e c fb i
