-- ===== src/Rule/FactBuilder/Stored.antt =====
-- src/rule/fact_builder.cpp: what a fact base from Build holds.
use surface_ai.Base.{
  subst, ℕ, ◌≡◌, refl, ◌∙◌, Bool, true, false, ◌&&◌, not, Option, some, List, [], ◌∷◌, All, arith,
}
use surface_ai.Base.Text.{Text, text, text_eq, text_eq_refl, starts_with}
use surface_ai.Core.Error.{Result, ok, err, fault, ◌>>=◌}
use surface_ai.Rule.Double.{Double}
use surface_ai.Rule.Value.{of_string}
use surface_ai.Rule.FactBase.{FactBase, get, set, get-set, source_of_kind, FactSourceKind}
use surface_ai.Rule.GraphPaths.{KnowledgeGraph, Fact, set_all, resolve_graph_paths}
use surface_ai.Rule.GraphPaths.Frame.{get-set_all, graph_prefix, resolve_graph_paths-frame}
use surface_ai.Rule.FactBuilder.{Floats, DetectionResult, detection_facts, map_detection, build}

module _ {D : Type 0} where
  -- The key is none of those of the facts.
  abbrev is_new : Text → List (Fact D) → Bool
  is_new k [] = true
  is_new k (f ∷ fs) = not (text_eq f.key k) && is_new k fs

  abbrev have_distinct_keys : List (Fact D) → Bool
  have_distinct_keys [] = true
  have_distinct_keys (f ∷ fs) = is_new f.key fs && have_distinct_keys fs

  is_new-All :
      (k : Text) (fs : List (Fact D)) → is_new k fs ≡ true → All (λ f. text_eq f.key k ≡ false) fs
  is_new-All k [] h = tt
  is_new-All k (f ∷ fs) h = (ground (arith, h), is_new-All k fs (ground (arith, h)))

  -- Facts under distinct keys are all there after they were set.
  set_all-stores :
      (fs : List (Fact D)) (fb : FactBase D)
      → have_distinct_keys fs ≡ true
      → All (λ f. get f.key (set_all fs fb) ≡ some f.value) fs
  unfolding set_all
  set_all-stores [] fb h = tt
  set_all-stores (f ∷ fs) fb h = (
    get-set_all f.key fs (set f.key f.value f.source fb) (is_new-All f.key fs (ground (arith, h)))
        ∙ rw (get-set f.key f.key f.value f.source fb, text_eq_refl f.key) refl,
    set_all-stores fs (set f.key f.value f.source fb) (ground (arith, h)),
  )

  -- No key begins with `graph.`.
  abbrev are_outside : List (Fact D) → Bool
  are_outside [] = true
  are_outside (f ∷ fs) = not (starts_with graph_prefix f.key) && are_outside fs

  -- What is stored outside the graph keys stays through ResolveGraphPaths.
  frame-stores :
      (kg : Option (KnowledgeGraph D)) (paths : List Text) (fs : List (Fact D)) (fb : FactBase D)
      → are_outside fs ≡ true
      → All (λ f. get f.key fb ≡ some f.value) fs
      → All (λ f. get f.key (resolve_graph_paths kg paths fb).1 ≡ some f.value) fs
  frame-stores kg paths [] fb o a = tt
  frame-stores kg paths (f ∷ fs) fb o a = (
    resolve_graph_paths-frame kg f.key paths fb (ground (arith, o)) ∙ a.0,
    frame-stores kg paths fs fb (ground (arith, o)) a.1,
  )

  ok-bind : (r : Result (Unit {0})) (x y : FactBase D) → (r >>= λ u. ok x) ≡ ok y → x ≡ y
  ok-bind (ok u) x y e = cc
  ok-bind (err i) x y e = absurd (cc e)
  ok-bind fault x y e = absurd (cc e)

module _ {D F : Type 0} ⦃d : Double D⦄ (c : Floats D F) where
  detection-outside :
      (elapsed : ℕ) (dr : DetectionResult F) → are_outside (detection_facts c elapsed dr) ≡ true
  unfolding starts_with
  detection-outside elapsed dr =
      elim dr.regions
        as (λ rs. are_outside (detection_facts c elapsed (record dr { regions = rs })) ≡ true) [
          | [] ↦ refl
          | r ∷ rs ↦ refl
        ]

  detection-distinct :
      (elapsed : ℕ) (dr : DetectionResult F)
      → have_distinct_keys (detection_facts c elapsed dr) ≡ true
  unfolding text_eq
  detection-distinct elapsed dr =
      elim dr.regions
        as (λ rs.
          have_distinct_keys (detection_facts c elapsed (record dr { regions = rs })) ≡ true) [
            | [] ↦ refl
            | r ∷ rs ↦ refl
          ]

  surface-new :
      (elapsed : ℕ) (dr : DetectionResult F)
      → is_new (text "surface.id") (detection_facts c elapsed dr) ≡ true
  unfolding text_eq
  surface-new elapsed dr =
      elim dr.regions
        as (λ rs.
          is_new (text "surface.id") (detection_facts c elapsed (record dr { regions = rs }))
          ≡ true) [ [] ↦ refl | r ∷ rs ↦ refl ]

  -- A fact base that Build returns holds the surface and every fact of the detection, whatever the graph
  -- paths add.
  pub build-stores :
      (kg : Option (KnowledgeGraph D)) (elapsed : ℕ) (surface_id : Text) (dr : DetectionResult F)
      (paths : List Text) (fb : FactBase D)
      → build c kg elapsed surface_id dr paths ≡ ok fb
      → (get (text "surface.id") fb ≡ some (of_string surface_id))
        × All (λ f. get f.key fb ≡ some f.value) (detection_facts c elapsed dr)
  unfolding build map_detection text_eq starts_with
  build-stores kg elapsed surface_id dr paths fb e =
      let empty : FactBase D = record { entries = []; path_mappings = [] } in
      let source = source_of_kind FactSourceKind.direct (text "Build input surface_id") in
      let start : FactBase D = set (text "surface.id") (of_string surface_id) source empty in
      let mapped : FactBase D = set_all (detection_facts c elapsed dr) start in
      let same =
        ok-bind (resolve_graph_paths kg paths mapped).0 (resolve_graph_paths kg paths mapped).1 fb
          e in
      subst
        (λ (x : FactBase D).
          (get (text "surface.id") x ≡ some (of_string surface_id))
          × All (λ f. get f.key x ≡ some f.value) (detection_facts c elapsed dr))
        same
        (
          resolve_graph_paths-frame kg (text "surface.id") paths mapped refl
              ∙ get-set_all (text "surface.id") (detection_facts c elapsed dr) start (
                  is_new-All (text "surface.id") (detection_facts c elapsed dr)
                    (surface-new elapsed dr))
              ∙ get-set (text "surface.id") (text "surface.id") (of_string surface_id) source empty,
          frame-stores kg paths (detection_facts c elapsed dr) mapped (detection-outside elapsed dr)
              (set_all-stores (detection_facts c elapsed dr) start (detection-distinct elapsed dr)),
        )
