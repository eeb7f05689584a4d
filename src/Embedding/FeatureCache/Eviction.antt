-- ===== src/Embedding/FeatureCache/Eviction.antt =====
-- src/embedding/feature_cache.cpp: Put, and the entry that makes room.
use surface_ai.Base.{
  Without, first, later, Without-All, Without-length, Without-In, In-Without, ℕ, zero, suc, ◌≤◌,
  ◌<◌, ◌≡◌, ◌≢◌, refl, sym, ap, subst, inl, inr, ltb, leb, ◌==◌, true, false, Bool-cases, none,
  Option-cases, List, [], ◌∷◌, length, In, arith,
}
use surface_ai.Base.Table.{Table, lookup, erase, lookup-erase}
use surface_ai.Core.Error.{Result, ok}
use surface_ai.Embedding.FeatureCache.{
  LruItem, FeatureCache, split_back, evict, insert_front, put_new, put,
}
use surface_ai.Embedding.FeatureCache.Coherent.{
  keys, IsCoherent, In-map, keys-AreDistinct, Without-distinct, touch-IsCoherent,
  insert_front-IsCoherent,
}
use surface_ai.Embedding.FeatureCache.Recency.{
  view, pairs, others, take, others_absent, no_key, find_node,
}

module _ {V : Type 0} where
  split_back-Without :
      (i : LruItem V) (is : List (LruItem V))
      → Without (split_back i is).1 (i ∷ is) (split_back i is).0
  split_back-Without i [] = first []
  split_back-Without i (j ∷ js) = later i (j ∷ js) _ (split_back-Without j js)

  split_back-take :
      (i : LruItem V) (is : List (LruItem V))
      → pairs (split_back i is).0 ≡ take (length is) (pairs (i ∷ is))
  split_back-take i [] = refl
  split_back-take i (j ∷ js) = ap (λ m. (i.key, i.value) ∷ m) (split_back-take j js)

  take_all : (n : ℕ) (m : Table V) → length m ≤ n → take n m ≡ m
  take_all zero [] h = refl
  take_all zero (e ∷ m) h = absurd (omega (arith, h))
  take_all (suc n) [] h = refl
  take_all (suc n) (e ∷ m) h = ap (λ x. e ∷ x) (take_all n m (omega (arith, h)))

  length-pairs : (xs : List (LruItem V)) → length (pairs xs) ≡ length xs
  length-pairs [] = refl
  length-pairs (x ∷ xs) = omega (arith, length-pairs xs)

  -- The last entry leaves list and index.
  drop-IsCoherent :
      (c : FeatureCache V) (last : LruItem V) (front : List (LruItem V))
      → IsCoherent c
      → Without last c.lru front
      → IsCoherent (record c { lru = front; index = erase last.key c.index })
  drop-IsCoherent c last front v w =
      let d = keys-AreDistinct c.lru c.index v.indexed v.distinct in
      let out = (Without-distinct (λ i. i.key) last c.lru front w d).1 in
      record {
        indexed = λ i m.
            let ne : last.key ≢ i.key =
              λ e. out (subst (λ k. In k (keys front)) (sym e) (In-map (λ j. j.key) i front m)) in
            ground (
              arith,
              lookup-erase i.key last.key c.index,
              v.indexed i (Without-In last i c.lru front w m),
              ne,
            );
        listed = λ k it e. elim (Bool-cases (last.key == k)) [
          | inl p ↦ absurd (ground (arith, lookup-erase k last.key c.index, e))
          | inr p ↦
              let (i, m, n, q) =
                v.listed k it (ground (arith, lookup-erase k last.key c.index, e)) in
              elim (In-Without last i c.lru front w m) [
                | inl same ↦ absurd (ground (arith, ap (λ (j : LruItem V). j.key) same, q))
                | inr r ↦ (i, r, n, q)
              ]
        ];
        distinct = (Without-distinct (λ i. i.node) last c.lru front w v.distinct).0;
        fresh = (Without-All (λ i. i.node < c.next_node) last c.lru front w v.fresh).1;
        bounded = omega (arith, Without-length last c.lru front w, v.bounded);
      }

  -- What Put makes of a cache.
  abbrev pub Puts : ℕ → V → FeatureCache V → Result (FeatureCache V) → Type 0
  Puts k v c r =
      (c' : FeatureCache V) × (r ≡ ok c')
      × IsCoherent c'
      × (c'.max_entries ≡ c.max_entries)
      × (view c' ≡ take c.max_entries ((k, v) ∷ others k (view c)))

  put_new-Puts :
      (k : ℕ) (v : V) (c : FeatureCache V)
      → IsCoherent c
      → lookup k c.index ≡ none
      → Puts k v c (put_new k v c)
  unfolding put_new evict insert_front
  put_new-Puts k v c h e = elim (Bool-cases (leb c.max_entries (length c.lru))) [
    | inr room ↦
        let lt : length c.lru < c.max_entries = ground arith in
        let some_room : (c.max_entries == 0) ≡ false = ground (arith, lt) in
        (
          insert_front k v c,
          rw (put_new, room, some_room) refl,
          insert_front-IsCoherent k v c h e lt,
          refl,
          rw (others_absent k c.lru (no_key k c h e)) (
              sym
                (take_all c.max_entries ((k, v) ∷ view c) (omega (arith, lt, length-pairs c.lru)))),
        )
    | inl full ↦ at_size full c.max_entries refl c.lru refl
  ]
    where
      at_size :
          leb c.max_entries (length c.lru) ≡ true
          → (n : ℕ) → c.max_entries ≡ n
          → (xs : List (LruItem V)) → c.lru ≡ xs
          → Puts k v c (put_new k v c)
      at_size full zero en [] ex = (c, rw (put_new, full, en) refl, h, refl, rw (en, ex) refl)
      at_size full zero en (i ∷ is) ex = absurd (omega (arith, h.bounded, en, ap length ex))
      at_size full (suc n) en [] ex = absurd (ground (arith, full, en, ap length ex))
      at_size full (suc n) en (i ∷ is) ex =
          let size : length is ≡ n = ground (arith, full, en, ap length ex, h.bounded) in
          let some_room : ltb 0 c.max_entries ≡ true = ground (arith, en) in
          let c1 : FeatureCache V = record c {
            lru = (split_back i is).0;
            index = erase (split_back i is).1.key c.index;
          } in
          let w : Without (split_back i is).1 c.lru (split_back i is).0 =
            subst (λ xs. Without (split_back i is).1 xs (split_back i is).0) (sym ex)
              (split_back-Without i is) in
          let h1 : IsCoherent c1 = drop-IsCoherent c (split_back i is).1 (split_back i is).0 h w in
          let gone : lookup k c1.index ≡ none =
            ground (arith, lookup-erase k (split_back i is).1.key c.index, e) in
          let evicted : evict c ≡ ok c1 = rw (evict, ex) refl in
          (
            insert_front k v c1,
            rw (put_new, full, some_room, evicted) refl,
            insert_front-IsCoherent k v c1 h1 gone (
                omega (
                  arith,
                  Without-length (split_back i is).1 c.lru (split_back i is).0 w,
                  h.bounded,
                )),
            refl,
            rw (others_absent k c.lru (no_key k c h e), en, ex)
                (ap (λ m. (k, v) ∷ m)
                  (subst (λ x. pairs (split_back i is).0 ≡ take x (pairs (i ∷ is))) size
                    (split_back-take i is))),
          )

  -- Put ends without a fault. It makes the value the first entry, under its key alone, and keeps no more
  -- entries than allowed, the last used ones; nothing at all if none are allowed.
  pub put-view : (k : ℕ) (v : V) (c : FeatureCache V) → IsCoherent c → Puts k v c (put k v c)
  unfolding put
  put-view k v c h = elim (Option-cases (lookup k c.index)) [
    | inl e ↦ rw (put, e) (put_new-Puts k v c h e)
    | inr (it, e) ↦
        let f = find_node k it c h e in
        (
          record c { lru = record f.item { value = v } ∷ f.rest },
          rw (put, e, f.taken) refl,
          touch-IsCoherent c f.item f.rest v c.hits h f.out,
          refl,
          rw (f.keyed, f.rest_there)
              (sym (
                take_all c.max_entries ((k, v) ∷ pairs f.rest) (
                  omega (
                    arith,
                    h.bounded,
                    Without-length f.item c.lru f.rest f.out,
                    length-pairs f.rest,
                  )))),
        )
  ]
