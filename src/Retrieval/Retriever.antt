-- ===== src/Retrieval/Retriever.antt =====
-- src/retrieval/hybrid_retriever.cpp. The two searches are interfaces: VectorPath wraps the index, and
-- MetadataPath a database.
use surface_ai.Base.{
  ℕ, suc, Bool, true, false, ◌&&◌, ◌||◌, not, none, some, List, [], ◌∷◌, map, get_elem?,
  if◌then◌else◌,
}
use surface_ai.Base.Text.{Text}
use surface_ai.Base.Table.{Table, lookup, assign}
use surface_ai.Core.Error.{Result, ok, ◌>>=◌}
use surface_ai.Retrieval.Fusion.{NodeId, VectorResult, MetadataResult, ScoreBreakdown}

pub data Mode : Type 0 where
  top_k range hybrid : Mode

pub record VectorConfig (F : Type 0) : Type 0 where
  pub mode : Mode
  pub k : ℕ
  pub range_threshold : F
  pub id_subset : List ℕ

-- `C` is the type of a filter condition.
pub record MetadataConfig (C : Type 0) : Type 0 where
  pub filters : List C
  pub node_types : List Text
  pub max_results : ℕ

-- The parts of a HybridRetriever, with the query as a part of the vector search.
pub record Paths (F C : Type 0) : Type 0 where
  pub vector_search : VectorConfig F → Result (List (VectorResult F))
  pub metadata_search : MetadataConfig C → Result (List (MetadataResult F))
  pub fuse :
      List (VectorResult F)
      → List NodeId
      → List (MetadataResult F)
      → Result (List (NodeId × ScoreBreakdown F))

pub record RetrievalItem (F : Type 0) : Type 0 where
  pub node_id : NodeId
  pub scores : ScoreBreakdown F
  pub node_type : Text

abbrev pub is_empty : {A : Type 0} → List A → Bool
is_empty [] = true
is_empty (x ∷ xs) = false

-- The reverse map, from node ids to indices.
unfoldable pub node_to_vec : ℕ → List NodeId → Table ℕ → Table ℕ
unfolding assign
node_to_vec i [] m = m
node_to_vec i (id ∷ ids) m = node_to_vec (suc i) ids (assign id i m)

abbrev pub is_top_k : Mode → Bool
is_top_k Mode.top_k = true
is_top_k _ = false

abbrev pub has_filters : {C : Type 0} → MetadataConfig C → Bool
has_filters cfg = not (is_empty cfg.filters) || not (is_empty cfg.node_types)

module _ {F : Type 0} where
  -- The indices of the matched nodes that have one.
  unfoldable pub matched_indices : Table ℕ → List (MetadataResult F) → List ℕ
  unfolding lookup
  matched_indices to_vec [] = []
  matched_indices to_vec (m ∷ ms) =
      let rest = matched_indices to_vec ms in
      elim (lookup m.node_id to_vec) [ none ↦ rest | some i ↦ i ∷ rest ]

  -- The node ids of the results, without those whose index has none.
  unfoldable pub mapped_ids : List NodeId → List (VectorResult F) → List NodeId
  mapped_ids vec_to_node_ids [] = []
  mapped_ids vec_to_node_ids (v ∷ vs) =
      let rest = mapped_ids vec_to_node_ids vs in
      elim (get_elem? vec_to_node_ids v.index) [ none ↦ rest | some id ↦ id ∷ rest ]

  -- The vector search within the indices, where there are any.
  unfoldable pub within : List ℕ → VectorConfig F → VectorConfig F
  within [] cfg = cfg
  within (i ∷ is) cfg = record cfg { mode = Mode.hybrid; id_subset = i ∷ is }

module _ {F C : Type 0} where
  -- From the vector search on.
  unfoldable pub search_and_fuse :
      Paths F C
      → List NodeId
      → VectorConfig F
      → List (MetadataResult F)
      → Result (List (RetrievalItem F))
  unfolding mapped_ids
  search_and_fuse paths vec_to_node_ids vec_cfg meta = paths.vector_search vec_cfg >>= λ vec.
      paths.fuse vec (mapped_ids vec_to_node_ids vec) meta >>= λ fused.
      ok (map (λ e. record { node_id = e.0; scores = e.1; node_type = [] }) fused)

  unfoldable pub retrieve :
      Paths F C → VectorConfig F → MetadataConfig C → List NodeId → Result (List (RetrievalItem F))
  unfolding search_and_fuse matched_indices node_to_vec within
  retrieve paths vector_cfg metadata_cfg vec_to_node_ids =
      paths.metadata_search metadata_cfg >>= λ meta.
      if has_filters metadata_cfg && is_top_k vector_cfg.mode
      then if is_empty meta
        then ok []
        else search_and_fuse paths vec_to_node_ids
            (within (matched_indices (node_to_vec 0 vec_to_node_ids []) meta) vector_cfg) meta
      else search_and_fuse paths vec_to_node_ids vector_cfg meta
