-- ===== src/Rule/FactBuilder.antt =====
-- include/sai/rule/fact_builder.h and src/rule/fact_builder.cpp, MapDetection and Build; the detection
-- result of include/sai/detection/detection_result.h, with floats as a type of their own.
pub mod Stored
use Prim.Native.Nat.{Ordering}
use surface_ai.Base.{
  ℕ, zero, suc, ◌+◌, ◌-◌, compare, Bool, true, false, ◌&&◌, ◌||◌, not, Option, none, some, List, [],
  ◌∷◌, ◌++◌, map, length, has_value, if◌then◌else◌, ltb, leb, ◌==◌,
}
use surface_ai.Base.Text.{Text, text, text_eq, to_string, starts_with}
use surface_ai.Base.Dict.{Dict, find}
use surface_ai.Core.Error.{ErrorCode, ErrorInfo, Result, ok, err, fault, fail, ◌>>=◌}
use surface_ai.Rule.Double.{Double}
use surface_ai.Rule.Value.{
  Value, Values, nil, cons, null, of_double, of_string, is_null, as_double, as_list,
}
use surface_ai.Rule.GraphPaths.{KnowledgeGraph, Fact, set_all, resolve_graph_paths}
use surface_ai.Rule.FactBase.{FactBase, FactSource, FactSourceKind, source_of_kind, set, get}

-- The casts between float, double and std::size_t, and the order of floats. A cast to std::size_t out of
-- range is undefined.
pub record Floats (D F : Type 0) : Type 0 where
  pub to_double : F → D
  pub to_float : D → F
  pub to_size : D → Option ℕ
  pub zero_float : F
  pub lt_float : F → F → Bool

pub record Rect : Type 0 where
  pub x : ℕ
  pub y : ℕ
  pub width : ℕ
  pub height : ℕ

pub record AnomalyMap (F : Type 0) : Type 0 where
  pub scores : List F
  pub grid_h : ℕ
  pub grid_w : ℕ

pub record RegionProposal (F : Type 0) : Type 0 where
  pub bounding_box : Rect
  pub max_anomaly_score : F
  pub mean_anomaly_score : F
  pub area_pixels : ℕ

pub record DetectionResult (F : Type 0) : Type 0 where
  pub anomaly_map : AnomalyMap F
  pub regions : List (RegionProposal F)
  pub image_level_score : F
  pub inference_latency : ℕ

module _ {D F : Type 0} ⦃d : Double D⦄ (c : Floats D F) where
  -- std::max_element: the first of the greatest elements.
  abbrev pub max_element : F → List F → F
  max_element best [] = best
  max_element best (s ∷ ss) = max_element (if c.lt_float best s then s else best) ss

  abbrev pub max_score : AnomalyMap F → F
  max_score m = elim m.scores [ [] ↦ c.zero_float | s ∷ ss ↦ max_element s ss ]

  abbrev pub direct_fact : Text → D → Text → Fact D
  direct_fact key value desc = record {
    key = text "detection." ++ key;
    value = of_double value;
    source = source_of_kind FactSourceKind.direct desc;
  }

  -- The calls of Set in MapDetection, in order; `elapsed` is the time between its readings of the clock.
  abbrev pub region_facts : RegionProposal F → List (Fact D)
  region_facts r =
      direct_fact (text "region.0.max_score") (c.to_double r.max_anomaly_score)
        (text "regions[0].max_anomaly_score")
      ∷ direct_fact (text "region.0.mean_score") (c.to_double r.mean_anomaly_score)
          (text "regions[0].mean_anomaly_score")
      ∷ direct_fact (text "region.0.area_pixels") (d.of_size r.area_pixels)
          (text "regions[0].area_pixels")
      ∷ direct_fact (text "region.0.x") (d.of_size r.bounding_box.x)
          (text "regions[0].bounding_box.x")
      ∷ direct_fact (text "region.0.y") (d.of_size r.bounding_box.y)
          (text "regions[0].bounding_box.y")
      ∷ direct_fact (text "region.0.width") (d.of_size r.bounding_box.width)
          (text "regions[0].bounding_box.width")
      ∷ direct_fact (text "region.0.height") (d.of_size r.bounding_box.height)
          (text "regions[0].bounding_box.height")
      ∷ []

  abbrev pub detection_facts : ℕ → DetectionResult F → List (Fact D)
  detection_facts elapsed dr =
      record {
        key = text "detection.image_level_score";
        value = of_double (c.to_double dr.image_level_score);
        source =
            record (source_of_kind FactSourceKind.direct
              (text "DetectionResult::image_level_score")) { elapsed = elapsed };
      }
      ∷ direct_fact (text "latency_ns") (d.of_size dr.inference_latency)
          (text "DetectionResult::inference_latency")
      ∷ direct_fact (text "anomaly_map.max_score") (c.to_double (max_score dr.anomaly_map))
          (text "DetectionResult::anomaly_map.MaxScore()")
      ∷ direct_fact (text "grid_h") (d.of_size dr.anomaly_map.grid_h)
          (text "DetectionResult::anomaly_map.grid_h")
      ∷ direct_fact (text "grid_w") (d.of_size dr.anomaly_map.grid_w)
          (text "DetectionResult::anomaly_map.grid_w")
      ∷ direct_fact (text "region_count") (d.of_size (length dr.regions))
          (text "DetectionResult::regions.size()")
      ∷ elim dr.regions [ [] ↦ [] | r0 ∷ rs ↦ region_facts r0 ]

  unfoldable pub map_detection : ℕ → DetectionResult F → FactBase D → FactBase D
  unfolding set_all
  map_detection elapsed dr fb = set_all (detection_facts elapsed dr) fb

  -- Build: the empty facts, then the surface, the detection, and the graph paths.
  unfoldable pub build :
      Option (KnowledgeGraph D) → ℕ → Text → DetectionResult F → List Text → Result (FactBase D)
  unfolding map_detection resolve_graph_paths set
  build kg elapsed surface_id detection paths =
      let fb =
        set (text "surface.id") (of_string surface_id)
          (source_of_kind FactSourceKind.direct (text "Build input surface_id"))
          (record { entries = []; path_mappings = [] }) in
      let (r, fb') = resolve_graph_paths kg paths (map_detection elapsed detection fb) in
      r >>= λ u. ok fb'
