-- ===== src/Embedding/FeatureCache/Recency.antt =====
-- src/embedding/feature_cache.cpp against a list of keys and values, the last used one first.
use surface_ai.Base.{
  Without, first, later, Without-self, AreDistinct, ℕ, zero, suc, ◌+◌, ◌%◌, ◌^◌, ◌≡◌, ◌≢◌, refl,
  sym, ap, subst, ◌∙◌, inl, inr, ◌==◌, Bool-cases, none, some, Option-cases, List, [], ◌∷◌, map, In,
  if◌then◌else◌, arith,
}
use surface_ai.Base.Table.{Table, lookup}
use surface_ai.Core.Error.{ok}
use surface_ai.Embedding.FeatureCache.{LruItem, FeatureCache, take_node, get}
use surface_ai.Embedding.FeatureCache.Coherent.{
  keys, IsCoherent, In-map, map-In, take_node-Without, keys-AreDistinct, touch-IsCoherent,
}

module _ {V : Type 0} where
  -- What a cache holds, without its nodes and its index.
  abbrev pub view : FeatureCache V → Table V
  view c = map (λ i. (i.key, i.value)) c.lru

  abbrev pub pairs : List (LruItem V) → Table V
  pairs xs = map (λ i. (i.key, i.value)) xs

  -- The entries of other keys.
  abbrev pub others : ℕ → Table V → Table V
  others k [] = []
  others k ((j, v) ∷ m) = if j == k then others k m else (j, v) ∷ others k m

  abbrev pub take : ℕ → Table V → Table V
  take zero m = []
  take (suc n) [] = []
  take (suc n) (e ∷ m) = e ∷ take n m

  pub others_absent :
      (k : ℕ) (xs : List (LruItem V)) → (¬ In k (keys xs)) → others k (pairs xs) ≡ pairs xs
  others_absent k [] out = refl
  others_absent k (x ∷ xs) out = elim (Bool-cases (x.key == k)) [
    | inl e ↦ absurd (out (inl (ground arith)))
    | inr e ↦ rw (e, others_absent k xs (λ m. out (inr m))) refl
  ]

  lookup_absent : (k : ℕ) (xs : List (LruItem V)) → (¬ In k (keys xs)) → lookup k (pairs xs) ≡ none
  unfolding lookup
  lookup_absent k [] out = refl
  lookup_absent k (x ∷ xs) out = elim (Bool-cases (x.key == k)) [
    | inl e ↦ absurd (out (inl (ground arith)))
    | inr e ↦ rw e (lookup_absent k xs (λ m. out (inr m)))
  ]

  others-Without :
      (x : LruItem V) (xs ys : List (LruItem V))
      → Without x xs ys
      → AreDistinct (keys xs)
      → others x.key (pairs xs) ≡ pairs ys
  others-Without x _ _ (first xs) d = ground (arith, others_absent x.key xs d.0)
  others-Without x _ _ (later y xs ys w) d =
      let ne : y.key ≢ x.key = λ e.
        d.0 (
          subst (λ k. In k (keys xs)) (sym e)
            (In-map (λ i. i.key) x xs (Without-self x xs ys w))) in
      ground (arith, ne, others-Without x xs ys w d.1)

  lookup-Without :
      (x : LruItem V) (xs ys : List (LruItem V))
      → Without x xs ys
      → AreDistinct (keys xs)
      → lookup x.key (pairs xs) ≡ some x.value
  unfolding lookup
  lookup-Without x _ _ (first xs) d = ground arith
  lookup-Without x _ _ (later y xs ys w) d =
      let ne : y.key ≢ x.key = λ e.
        d.0 (
          subst (λ k. In k (keys xs)) (sym e)
            (In-map (λ i. i.key) x xs (Without-self x xs ys w))) in
      ground (arith, ne, lookup-Without x xs ys w d.1)

  pub no_key :
      (k : ℕ) (c : FeatureCache V) → IsCoherent c → lookup k c.index ≡ none → ¬ In k (keys c.lru)
  no_key k c v e m =
      let (i, n, q) = map-In (λ i. i.key) k c.lru m in
      let there : lookup i.key c.index ≡ some i.node = v.indexed i n in
      let same : lookup k c.index ≡ some i.node = ap (λ j. lookup j c.index) q ∙ there in
      absurd (cc (e, same))

  -- The node that the index leads to.
  pub record Found (k it : ℕ) (c : FeatureCache V) : Type 0 where
    pub item : LruItem V
    pub rest : List (LruItem V)
    pub taken : take_node it c.lru ≡ some (item, rest)
    pub out : Without item c.lru rest
    pub keyed : item.key ≡ k
    pub value_there : lookup k (view c) ≡ some item.value
    pub rest_there : others k (view c) ≡ pairs rest

  pub find_node :
      (k it : ℕ) (c : FeatureCache V) → IsCoherent c → lookup k c.index ≡ some it → Found k it c
  find_node k it c v e =
      let (i, m, n, q) = v.listed k it e in
      let (rest, t, w) = take_node-Without i c.lru v.distinct m in
      let d = keys-AreDistinct c.lru c.index v.indexed v.distinct in
      record {
        item = i;
        rest = rest;
        taken = ap (λ x. take_node x c.lru) (sym n) ∙ t;
        out = w;
        keyed = q;
        value_there = ap (λ x. lookup x (view c)) (sym q) ∙ lookup-Without i c.lru rest w d;
        rest_there = ap (λ x. others x (view c)) (sym q) ∙ others-Without i c.lru rest w d;
      }

  -- Get gives the value of the key, without a fault, and makes its entry the first; a key that is not there
  -- changes nothing that the cache holds.
  pub get-view :
      (k : ℕ) (c : FeatureCache V)
      → IsCoherent c
      → (c' : FeatureCache V) × (get k c ≡ (ok (lookup k (view c)), c'))
        × IsCoherent c'
        × (view c' ≡ (elim (lookup k (view c)) as (λ _. Table V) [
          | none ↦ view c
          | some v ↦ (k, v) ∷ others k (view c)
        ]))
  unfolding get
  get-view k c v = elim (Option-cases (lookup k c.index)) [
    | inl e ↦
        let absent : lookup k (view c) ≡ none = lookup_absent k c.lru (no_key k c v e) in
        (
          record c { misses = (c.misses + 1) % 2 ^ 64 },
          rw (get, e, absent) refl,
          record {
            indexed = v.indexed;
            listed = v.listed;
            distinct = v.distinct;
            fresh = v.fresh;
            bounded = v.bounded;
          },
          rw absent refl,
        )
    | inr (it, e) ↦
        let f = find_node k it c v e in
        (
          record c { lru = f.item ∷ f.rest; hits = (c.hits + 1) % 2 ^ 64 },
          rw (get, e, f.taken, f.value_there) refl,
          touch-IsCoherent c f.item f.rest f.item.value ((c.hits + 1) % 2 ^ 64) v f.out,
          rw (f.value_there, f.keyed, f.rest_there) refl,
        )
  ]
