-- ===== src/Retrieval/Fusion.antt =====
-- include/sai/retrieval/score_fusion.h and src/retrieval/score_fusion.cpp. Floats and their operations are a
-- parameter, and so is a float that a node of yaml-cpp gives. Node ids are the bits of an int64_t. A table
-- gives its entries in the order in which they came; std::sort leaves equal elements in order.
use surface_ai.Base.{
  ℕ, suc, Bool, ◌||◌, none, some, value_or, has_value, List, [], ◌∷◌, get_elem?, if◌then◌else◌,
}
use surface_ai.Base.Text.{Text, text}
use surface_ai.Base.Table.{Table, lookup, assign}
use surface_ai.Core.Error.{ErrorCode, Result, ok, fault, fail, ◌>>=◌}

abbrev pub NodeId : Type 0
NodeId = ℕ

pub record Float (F : Type 0) : Type 0 where
  pub zero_float : F
  pub one_float : F
  -- 1e-6F
  pub tiny : F
  pub add : F → F → F
  pub sub : F → F → F
  pub mul : F → F → F
  pub div : F → F → F
  pub lt : F → F → Bool
  pub le : F → F → Bool
  pub of_size : ℕ → F

-- What params[key] of Configure gives: no node, an exception of the subscript (on a scalar) or of as<float>, or
-- a float.
pub data Param (F : Type 0) : Type 0 where
  missing throws : Param F
  given : F → Param F

pub record VectorResult (F : Type 0) : Type 0 where
  pub index : ℕ
  pub distance : F

pub record MetadataResult (F : Type 0) : Type 0 where
  pub node_id : NodeId
  pub score : F

pub record ScoreBreakdown (F : Type 0) : Type 0 where
  pub vector_score : F
  pub metadata_score : F
  pub fused_score : F
  pub fusion_strategy : Text

module _ {A : Type 0} (less : A → A → Bool) where
  unfoldable pub insert_sorted : A → List A → List A
  insert_sorted x [] = x ∷ []
  insert_sorted x (y ∷ ys) =
      let deeper = insert_sorted x ys in if less y x then y ∷ deeper else x ∷ y ∷ ys

  unfoldable pub sort : List A → List A
  unfolding insert_sorted
  sort [] = []
  sort (x ∷ xs) = insert_sorted x (sort xs)

module _ {F : Type 0} (c : Float F) where
  -- Configure of both strategies: the result, and the parameter afterwards, which is set before the check.
  -- Configure is noexcept: an exception of yaml-cpp ends the program, a fault.
  unfoldable pub configure_weighted : Param F → F → Result (Unit {0}) × F
  configure_weighted missing alpha = (
    fail ErrorCode.retrieval_fusion_config_invalid
        (text "WeightedFusion: missing 'alpha' parameter"),
    alpha,
  )
  configure_weighted throws alpha = (fault, alpha)
  configure_weighted (given new) alpha = (
    if c.lt new c.zero_float || c.lt c.one_float new
        then fail ErrorCode.retrieval_fusion_config_invalid
            (text "WeightedFusion: alpha must be in [0, 1]")
        else ok tt,
    new,
  )

  unfoldable pub configure_rrf : Param F → F → Result (Unit {0}) × F
  configure_rrf missing k = (ok tt, k)
  configure_rrf throws k = (fault, k)
  configure_rrf (given new) k = (
    if c.le new c.zero_float
        then fail ErrorCode.retrieval_fusion_config_invalid (text "RRFFusion: k must be positive")
        else ok tt,
    new,
  )

  abbrev pub max_distance : F → List (VectorResult F) → F
  max_distance best [] = best
  max_distance best (v ∷ vs) = max_distance (if c.lt best v.distance then v.distance else best) vs

  unfoldable pub meta_scores : List (MetadataResult F) → Table F → Table F
  unfolding assign
  meta_scores [] scores = scores
  meta_scores (m ∷ ms) scores = meta_scores ms (assign m.node_id m.score scores)

  abbrev pub weighted_entry : F → F → F → ScoreBreakdown F
  weighted_entry alpha v_score m_score = record {
    vector_score = v_score;
    metadata_score = m_score;
    fused_score = c.add (c.mul alpha v_score) (c.mul (c.sub c.one_float alpha) m_score);
    fusion_strategy = text "WeightedFusion";
  }

  -- The loop over the vector results from the index `i` on.
  unfoldable pub weigh_vectors :
      F
      → F
      → Table F
      → ℕ
      → List (VectorResult F)
      → List NodeId
      → Table (ScoreBreakdown F)
      → Result (Table (ScoreBreakdown F))
  unfolding lookup assign
  weigh_vectors alpha max_dist scores i [] ids breakdowns = ok breakdowns
  weigh_vectors alpha max_dist scores i (v ∷ vs) ids breakdowns = elim (get_elem? ids i) [
    | none ↦ fault
    | some node_id ↦
        let v_score = c.sub c.one_float (c.div v.distance (c.add max_dist c.tiny)) in
        let m_score = value_or (lookup node_id scores) c.zero_float in
        weigh_vectors alpha max_dist scores (suc i) vs ids
          (assign node_id (weighted_entry alpha v_score m_score) breakdowns)
  ]

  -- The results of the metadata alone.
  unfoldable pub weigh_metadata :
      F → List (MetadataResult F) → Table (ScoreBreakdown F) → Table (ScoreBreakdown F)
  unfolding lookup assign
  weigh_metadata alpha [] breakdowns = breakdowns
  weigh_metadata alpha (m ∷ ms) breakdowns = weigh_metadata alpha ms (
      if has_value (lookup m.node_id breakdowns)
      then breakdowns
      else assign m.node_id
          (record {
            vector_score = c.zero_float;
            metadata_score = m.score;
            fused_score = c.mul (c.sub c.one_float alpha) m.score;
            fusion_strategy = text "WeightedFusion";
          })
          breakdowns)

  abbrev pub by_fused_score : NodeId × ScoreBreakdown F → NodeId × ScoreBreakdown F → Bool
  by_fused_score a b = c.lt b.1.fused_score a.1.fused_score

  -- WeightedFusion::Fuse.
  unfoldable pub fuse_weighted :
      F
      → List (VectorResult F)
      → List NodeId
      → List (MetadataResult F)
      → Result (List (NodeId × ScoreBreakdown F))
  unfolding weigh_vectors weigh_metadata meta_scores sort
  fuse_weighted alpha vec_results vec_node_ids meta_results =
      weigh_vectors alpha (max_distance c.one_float vec_results) (meta_scores meta_results []) 0
        vec_results vec_node_ids []
      >>= λ breakdowns. ok (sort by_fused_score (weigh_metadata alpha meta_results breakdowns))

  abbrev pub no_scores : ScoreBreakdown F
  no_scores = record {
    vector_score = c.zero_float;
    metadata_score = c.zero_float;
    fused_score = c.zero_float;
    fusion_strategy = [];
  }

  abbrev pub reciprocal : F → ℕ → F
  reciprocal k rank = c.div c.one_float (c.add k (c.of_size (suc rank)))

  -- The distances with their indices.
  abbrev pub indexed : ℕ → List (VectorResult F) → List (ℕ × F)
  indexed i [] = []
  indexed i (v ∷ vs) = (i, v.distance) ∷ indexed (suc i) vs

  -- operator[]: an entry that is missing has no scores.
  unfoldable pub rank_vectors :
      F
      → ℕ
      → List (ℕ × F)
      → List NodeId
      → Table (ScoreBreakdown F)
      → Result (Table (ScoreBreakdown F))
  unfolding lookup assign
  rank_vectors k rank [] ids breakdowns = ok breakdowns
  rank_vectors k rank ((idx, distance) ∷ ranked) ids breakdowns = elim (get_elem? ids idx) [
    | none ↦ fault
    | some node_id ↦
        let bd = value_or (lookup node_id breakdowns) no_scores in
        rank_vectors k (suc rank) ranked ids (
          assign node_id
            (record bd {
              vector_score = reciprocal k rank;
              fused_score = c.add bd.fused_score (reciprocal k rank);
              fusion_strategy = text "RRFFusion";
            })
            breakdowns)
  ]

  unfoldable pub rank_metadata :
      F → ℕ → List (MetadataResult F) → Table (ScoreBreakdown F) → Table (ScoreBreakdown F)
  unfolding lookup assign
  rank_metadata k rank [] breakdowns = breakdowns
  rank_metadata k rank (m ∷ ms) breakdowns =
      let bd = value_or (lookup m.node_id breakdowns) no_scores in
      rank_metadata k (suc rank) ms (
        assign m.node_id
          (record bd {
            metadata_score = reciprocal k rank;
            fused_score = c.add bd.fused_score (reciprocal k rank);
            fusion_strategy = text "RRFFusion";
          })
          breakdowns)

  -- RRFFusion::Fuse.
  unfoldable pub fuse_rrf :
      F
      → List (VectorResult F)
      → List NodeId
      → List (MetadataResult F)
      → Result (List (NodeId × ScoreBreakdown F))
  unfolding rank_vectors rank_metadata sort
  fuse_rrf k vec_results vec_node_ids meta_results =
      rank_vectors k 0 (sort (λ a b. c.lt a.1 b.1) (indexed 0 vec_results)) vec_node_ids []
      >>= λ breakdowns. ok (sort by_fused_score (rank_metadata k 0 meta_results breakdowns))
