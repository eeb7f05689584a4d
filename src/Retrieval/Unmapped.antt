-- ===== src/Retrieval/Unmapped.antt =====
-- src/retrieval/hybrid_retriever.cpp with WeightedFusion: results whose index has no node id.
use surface_ai.Base.{
  ℕ, zero, suc, ◌+◌, ◌≤◌, ◌<◌, ◌≡◌, refl, ap, ◌∙◌, inl, inr, true, false, none, some, has_value,
  Option-cases, Bool-cases, leb, List, [], ◌∷◌, map, length, get_elem?, All, In, arith,
}
use surface_ai.Base.Table.{Table}
use surface_ai.Core.Error.{Result, ok, err, fault, ◌>>=◌}
use surface_ai.Retrieval.Fusion.{
  NodeId, Float, VectorResult, MetadataResult, ScoreBreakdown, weigh_vectors, weigh_metadata,
  fuse_weighted, max_distance, meta_scores, sort, by_fused_score,
}
use surface_ai.Retrieval.Retriever.{
  VectorConfig, MetadataConfig, Paths, RetrievalItem, mapped_ids, has_filters, search_and_fuse,
  retrieve,
}

get_elem-none : (ids : List NodeId) (i : ℕ) → length ids ≤ i → get_elem? ids i ≡ none
get_elem-none [] i h = refl
get_elem-none (x ∷ ids) zero h = absurd (omega (arith, h))
get_elem-none (x ∷ ids) (suc i) h = get_elem-none ids i (omega (arith, h))

get_elem-some :
    (ids : List NodeId) (i : ℕ) → i < length ids → (x : NodeId) × (get_elem? ids i ≡ some x)
get_elem-some [] i h = absurd (omega (arith, h))
get_elem-some (x ∷ ids) zero h = (x, refl)
get_elem-some (x ∷ ids) (suc i) h = get_elem-some ids i (omega (arith, h))

abbrev pub IsOk : {A : Type 0} → Result A → Type 0
IsOk (ok a) = Unit
IsOk (err e) = ⊥
IsOk fault = ⊥

module _ {F : Type 0} where
  abbrev pub IsMapped : List NodeId → VectorResult F → Type 0
  IsMapped ids v = has_value (get_elem? ids v.index) ≡ true

  mapped_ids-le :
      (ids : List NodeId) (vs : List (VectorResult F)) → length (mapped_ids ids vs) ≤ length vs
  unfolding mapped_ids
  mapped_ids-le ids [] = omega arith
  mapped_ids-le ids (v ∷ vs) = elim (Option-cases (get_elem? ids v.index)) [
    | inl e ↦ rw (mapped_ids, e) (omega (arith, mapped_ids-le ids vs))
    | inr (x, e) ↦ rw (mapped_ids, e) (omega (arith, mapped_ids-le ids vs))
  ]

  mapped_ids-lt :
      (ids : List NodeId) (v : VectorResult F) (vs : List (VectorResult F))
      → In v vs
      → get_elem? ids v.index ≡ none
      → length (mapped_ids ids vs) < length vs
  unfolding mapped_ids
  mapped_ids-lt ids v [] m h = absurd m
  mapped_ids-lt ids v (w ∷ vs) m h = elim (Option-cases (get_elem? ids w.index)) [
    | inl e ↦ rw (mapped_ids, e) (omega (arith, mapped_ids-le ids vs))
    | inr (x, e) ↦ elim m [
      | inl same ↦
          let there : get_elem? ids v.index ≡ some x =
            ap (λ (u : VectorResult F). get_elem? ids u.index) same ∙ e in
          absurd (cc (there, h))
      | inr n ↦ rw (mapped_ids, e) (omega (arith, mapped_ids-lt ids v vs n h))
    ]
  ]

  mapped_ids-all :
      (ids : List NodeId) (vs : List (VectorResult F))
      → All (IsMapped ids) vs
      → length (mapped_ids ids vs) ≡ length vs
  unfolding mapped_ids
  mapped_ids-all ids [] a = refl
  mapped_ids-all ids (v ∷ vs) a = elim (Option-cases (get_elem? ids v.index)) [
    | inl e ↦ absurd (ground (arith, a.0, e))
    | inr (x, e) ↦ rw (mapped_ids, e) (omega (arith, mapped_ids-all ids vs a.1))
  ]

  module _ (c : Float F) (alpha max_dist : F) (scores : Table F) where
    weigh-fault :
        (i : ℕ) (vs : List (VectorResult F)) (ids : List NodeId) (b : Table (ScoreBreakdown F))
        → i ≤ length ids
        → length ids < i + length vs
        → weigh_vectors c alpha max_dist scores i vs ids b ≡ fault
    unfolding weigh_vectors
    weigh-fault i [] ids b h lt = absurd (omega (arith, h, lt))
    weigh-fault i (v ∷ vs) ids b h lt = elim (Bool-cases (leb (length ids) i)) [
      | inl q ↦
          let e : get_elem? ids i ≡ none = get_elem-none ids i (ground (arith, q)) in
          rw (weigh_vectors, e) refl
      | inr q ↦
          let below : i < length ids = ground (arith, q) in
          let (x, e) = get_elem-some ids i below in
          rw (weigh_vectors, e)
            (weigh-fault (suc i) vs ids _ (omega (arith, below)) (omega (arith, lt)))
    ]

    weigh-IsOk :
        (i : ℕ) (vs : List (VectorResult F)) (ids : List NodeId) (b : Table (ScoreBreakdown F))
        → i + length vs ≤ length ids
        → IsOk (weigh_vectors c alpha max_dist scores i vs ids b)
    unfolding weigh_vectors
    weigh-IsOk i [] ids b h = tt
    weigh-IsOk i (v ∷ vs) ids b h =
        let (x, e) = get_elem-some ids i (omega (arith, h)) in
        rw (weigh_vectors, e) (weigh-IsOk (suc i) vs ids _ (omega (arith, h)))

  fuse-fault :
      (c : Float F) (alpha : F) (vs : List (VectorResult F)) (ids : List NodeId)
      (ms : List (MetadataResult F))
      → length ids < length vs
      → fuse_weighted c alpha vs ids ms ≡ fault
  unfolding fuse_weighted
  fuse-fault c alpha vs ids ms lt =
      let e =
        weigh-fault c alpha (max_distance c c.one_float vs) (meta_scores c ms []) 0 vs ids []
          (omega arith) (omega (arith, lt)) in
      rw (fuse_weighted, e) refl

  fuse-IsOk :
      (c : Float F) (alpha : F) (vs : List (VectorResult F)) (ids : List NodeId)
      (ms : List (MetadataResult F))
      → length vs ≤ length ids
      → IsOk (fuse_weighted c alpha vs ids ms)
  unfolding fuse_weighted
  fuse-IsOk c alpha vs ids ms le =
      weighed
        (weigh_vectors c alpha (max_distance c c.one_float vs) (meta_scores c ms []) 0 vs ids [])
        (weigh-IsOk c alpha (max_distance c c.one_float vs) (meta_scores c ms []) 0 vs ids []
          (omega (arith, le)))
    where
      weighed :
          (r : Result (Table (ScoreBreakdown F)))
          → IsOk r
          → IsOk (
              r >>= λ breakdowns.
              ok (sort (by_fused_score c) (weigh_metadata c alpha ms breakdowns)))
      weighed (ok b) h = tt
      weighed (err e) h = h
      weighed fault h = h

  items-IsOk :
      (r : Result (List (NodeId × ScoreBreakdown F)))
      → IsOk r
      → IsOk (
          r >>= λ fused. ok (
            map {B = RetrievalItem F}
              (λ e. record { node_id = e.0; scores = e.1; node_type = [] })
              fused))
  items-IsOk (ok x) h = tt
  items-IsOk (err e) h = h
  items-IsOk fault h = h

module _ {F C : Type 0} (c : Float F) (alpha : F) where
  -- For a retrieval with WeightedFusion and without filters whose searches succeed: it gives items if every
  -- vector result has an index with a node id, and reads out of range if one has none.
  pub retrieve_unmapped :
      (paths : Paths F C) (vector_cfg : VectorConfig F) (metadata_cfg : MetadataConfig C)
      (ids : List NodeId) (vs : List (VectorResult F)) (ms : List (MetadataResult F))
      → paths.fuse ≡ fuse_weighted c alpha
      → paths.metadata_search metadata_cfg ≡ ok ms
      → paths.vector_search vector_cfg ≡ ok vs
      → has_filters metadata_cfg ≡ false
      → (All (IsMapped ids) vs → IsOk (retrieve paths vector_cfg metadata_cfg ids))
        × ((v : VectorResult F)
            → In v vs
            → get_elem? ids v.index ≡ none
            → retrieve paths vector_cfg metadata_cfg ids ≡ fault)
  unfolding retrieve
  retrieve_unmapped paths vector_cfg metadata_cfg ids vs ms f m v plain = (
    λ a.
        rw (retrieve, m, plain, search_and_fuse, v, f)
          (items-IsOk (fuse_weighted c alpha vs (mapped_ids ids vs) ms)
            (fuse-IsOk c alpha vs (mapped_ids ids vs) ms (omega (arith, mapped_ids-all ids vs a)))),
    λ x n h.
        let e = fuse-fault c alpha vs (mapped_ids ids vs) ms (mapped_ids-lt ids x vs n h) in
        rw (retrieve, m, plain, search_and_fuse, v, f, e) refl,
  )
