-- ===== src/Embedding/FeatureCache/Coherent.antt =====
-- src/embedding/feature_cache.cpp: the list and the index of a cache, step by step.
use surface_ai.Base.{
  Without, first, later, Without-All, Without-length, Without-self, Without-In, In-Without,
  AreDistinct, ℕ, ◌+◌, ◌≤◌, ◌<◌, ◌≡◌, ◌≢◌, refl, sym, ap, subst, ◌∙◌, inl, inr, ◌==◌, Bool-cases,
  none, some, List, [], ◌∷◌, map, length, All, In, arith,
}
use surface_ai.Base.Table.{Table, lookup, assign, lookup-assign}
use surface_ai.Embedding.FeatureCache.{LruItem, FeatureCache, take_node, insert_front}

module _ {V : Type 0} where
  abbrev pub nodes : List (LruItem V) → List ℕ
  nodes xs = map (λ i. i.node) xs

  abbrev pub keys : List (LruItem V) → List ℕ
  keys xs = map (λ i. i.key) xs

  -- The index leads from each key to the node with that key, and to no other; the list is bounded.
  pub record IsCoherent (c : FeatureCache V) : Type 0 where
    pub indexed : (i : LruItem V) → In i c.lru → lookup i.key c.index ≡ some i.node
    pub listed :
        (k it : ℕ)
        → lookup k c.index ≡ some it
        → (i : LruItem V) × In i c.lru × (i.node ≡ it) × (i.key ≡ k)
    pub distinct : AreDistinct (nodes c.lru)
    pub fresh : All (λ i. i.node < c.next_node) c.lru
    pub bounded : length c.lru ≤ c.max_entries

  pub In-map :
      (f : LruItem V → ℕ) (i : LruItem V) (xs : List (LruItem V)) → In i xs → In (f i) (map f xs)
  In-map f i [] m = m
  In-map f i (x ∷ xs) m = elim m [ inl e ↦ inl (ap f e) | inr n ↦ inr (In-map f i xs n) ]

  pub map-In :
      (f : LruItem V → ℕ) (n : ℕ) (xs : List (LruItem V))
      → In n (map f xs)
      → (i : LruItem V) × In i xs × (n ≡ f i)
  map-In f n [] m = absurd m
  map-In f n (x ∷ xs) m = elim m [
    | inl e ↦ (x, inl refl, e)
    | inr k ↦ let (i, j, e) = map-In f n xs k in (i, inr j, e)
  ]

  -- The iterator of a node takes out that node.
  pub take_node-Without :
      (i : LruItem V) (xs : List (LruItem V))
      → AreDistinct (nodes xs)
      → In i xs
      → (rest : List (LruItem V)) × (take_node i.node xs ≡ some (i, rest)) × Without i xs rest
  unfolding take_node
  take_node-Without i [] d m = absurd m
  take_node-Without i (x ∷ xs) d m = elim m [
    | inl e ↦
        subst
          (λ y.
            (rest : List (LruItem V)) × (take_node y.node (x ∷ xs) ≡ some (y, rest))
            × Without y (x ∷ xs) rest)
          (sym e) (xs, ground arith, first xs)
    | inr n ↦
        let (rest, t, w) = take_node-Without i xs d.1 n in
        let ne : x.node ≢ i.node =
          λ e. d.0 (subst (λ k. In k (nodes xs)) (sym e) (In-map (λ y. y.node) i xs n)) in
        (x ∷ rest, ground (arith, ne, t), later x xs rest w)
  ]

  -- Keys are distinct as well.
  pub keys-AreDistinct :
      (xs : List (LruItem V)) (index : Table ℕ)
      → ((i : LruItem V) → In i xs → lookup i.key index ≡ some i.node)
      → AreDistinct (nodes xs)
      → AreDistinct (keys xs)
  keys-AreDistinct [] index h d = tt
  keys-AreDistinct (x ∷ xs) index h d = (
    λ m.
        let (j, n, e) = map-In (λ i. i.key) x.key xs m in
        let a : lookup x.key index ≡ some x.node = h x (inl refl) in
        let b : lookup j.key index ≡ some j.node = h j (inr n) in
        let same : x.node ≡ j.node = cc in
        d.0 (subst (λ k. In k (nodes xs)) (sym same) (In-map (λ i. i.node) j xs n)),
    keys-AreDistinct xs index (λ i n. h i (inr n)) d.1,
  )

  pub Without-distinct :
      (f : LruItem V → ℕ) (x : LruItem V) (xs ys : List (LruItem V))
      → Without x xs ys
      → AreDistinct (map f xs)
      → AreDistinct (map f ys) × (¬ In (f x) (map f ys))
  Without-distinct f x _ _ (first xs) d = (d.1, d.0)
  Without-distinct f x _ _ (later y xs ys w) d =
      let (rest, out) = Without-distinct f x xs ys w d.1 in
      (
        (
          λ m.
              let (i, n, e) = map-In f (f y) ys m in
              d.0 (subst (λ k. In k (map f xs)) (sym e) (In-map f i xs (Without-In x i xs ys w n))),
          rest,
        ),
        λ m. elim m [
          | inl e ↦ d.0 (subst (λ k. In k (map f xs)) e (In-map f x xs (Without-self x xs ys w)))
          | inr n ↦ out n
        ],
      )

  -- A node comes to the front, with its value or another one.
  pub touch-IsCoherent :
      (c : FeatureCache V) (item : LruItem V) (rest : List (LruItem V)) (v : V) (hits : ℕ)
      → IsCoherent c
      → Without item c.lru rest
      → IsCoherent (record c { lru = record item { value = v } ∷ rest; hits = hits })
  touch-IsCoherent c item rest v hits k w =
      let (d, out) = Without-distinct (λ i. i.node) item c.lru rest w k.distinct in
      let (low, lows) = Without-All (λ i. i.node < c.next_node) item c.lru rest w k.fresh in
      record {
        indexed = λ i m. elim m [
          | inl e ↦
              subst (λ (j : LruItem V). lookup j.key c.index ≡ some j.node) (sym e)
                (k.indexed item (Without-self item c.lru rest w))
          | inr n ↦ k.indexed i (Without-In item i c.lru rest w n)
        ];
        listed = λ key it e.
            let (i, m, n, q) = k.listed key it e in
            elim (In-Without item i c.lru rest w m) [
              | inl same ↦ (
                record item { value = v },
                inl refl,
                ap (λ (j : LruItem V). j.node) (sym same) ∙ n,
                ap (λ (j : LruItem V). j.key) (sym same) ∙ q,
              )
              | inr r ↦ (i, inr r, n, q)
            ];
        distinct = (out, d);
        fresh = (low, lows);
        bounded = omega (arith, Without-length item c.lru rest w, k.bounded);
      }

  -- A new key comes to the front, where there is room.
  pub insert_front-IsCoherent :
      (key : ℕ) (value : V) (c : FeatureCache V)
      → IsCoherent c
      → lookup key c.index ≡ none
      → length c.lru < c.max_entries
      → IsCoherent (insert_front key value c)
  unfolding insert_front
  insert_front-IsCoherent key value c k e lt = record {
    indexed = λ i m. elim m [
      | inl q ↦
          subst (λ (j : LruItem V). lookup j.key (assign key c.next_node c.index) ≡ some j.node)
            (sym q) (ground (arith, lookup-assign key key c.next_node c.index))
      | inr n ↦ ground (
        arith,
        lookup-assign i.key key c.next_node c.index,
        k.indexed i n,
        e,
        ap (λ x. lookup x c.index) {x = key} {y = i.key},
      )
    ];
    listed = λ k' it q. elim (Bool-cases (key == k')) [
      | inl p ↦ (
        record { node = c.next_node; key = key; value = value },
        inl refl,
        ground (arith, lookup-assign k' key c.next_node c.index, q),
        ground arith,
      )
      | inr p ↦
          let (i, m, n, r) =
            k.listed k' it (ground (arith, lookup-assign k' key c.next_node c.index, q)) in
          (i, inr m, n, r)
    ];
    distinct = (
      λ m.
          let (i, n, q) = map-In (λ i. i.node) c.next_node c.lru m in
          absurd (omega (arith, q, below i c.lru k.fresh n)),
      k.distinct,
    );
    fresh = (omega arith, raised c.lru k.fresh);
    bounded = omega (arith, lt);
  }
    where
      below :
          (i : LruItem V) (xs : List (LruItem V))
          → All (λ j. j.node < c.next_node) xs
          → In i xs
          → i.node < c.next_node
      below i [] a m = absurd m
      below i (x ∷ xs) a m = elim m [
        | inl q ↦ subst (λ (j : LruItem V). j.node < c.next_node) (sym q) a.0
        | inr n ↦ below i xs a.1 n
      ]

      raised :
          (xs : List (LruItem V))
          → All (λ j. j.node < c.next_node) xs
          → All (λ j. j.node < c.next_node + 1) xs
      raised [] a = tt
      raised (x ∷ xs) a = (omega (arith, a.0), raised xs a.1)
