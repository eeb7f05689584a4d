-- ===== src/Rule/Conflict/Decision.antt =====
-- src/rule/conflict_resolver.cpp as a whole: which of its two outcomes a set of matched rules has.
use surface_ai.Base.{
  ℕ, ◌≤◌, ◌≡◌, ◌≢◌, refl, ◌⊎◌, inl, inr, Bool-cases, Bool, true, false, Option, none, some, List,
  [], ◌∷◌, ◌++◌, map, if◌then◌else◌, has_value, arith, length,
}
use surface_ai.Base.Text.{Text, text, text_eq, text_eq_iff}
use surface_ai.Base.Dict.{Dict, find, find-insert}
use surface_ai.Core.Error.{ErrorCode, ok, fail}
use surface_ai.Rule.Engine.{Rule, ResolvedRule}
use surface_ai.Rule.Conflict.Paths.{
  Graph, edges, Member, Edge, IsCyclic, Terminates, Terminates-not_cyclic,
}
use surface_ai.Rule.Conflict.Search.{whites, Finds, search_cycle-Finds, color_of-insert}
use surface_ai.Rule.Conflict.{
  Color, color_of, push_edge, add_overrides, add_overridden_by, build_graph, override_graph,
  matched_idx, all_white, search_cycle, cycle_info, eliminate, resolve_override_conflicts,
  resolve_conflicts,
}

abbrev pub keys : {V : Type 0} → Dict V → List Text
keys m = map (λ e. e.0) m

abbrev Targets : Dict ℕ → Graph → Type 0
Targets m g = (a b : Text) → Edge g a b → Member b (keys m)

pub find-Member : (k : Text) (m : Dict ℕ) → has_value (find k m) ≡ true → Member k (keys m)
unfolding find
find-Member k [] h = cc
find-Member k ((j, i) ∷ m) h = ground (arith, text_eq_iff j k, find-Member k m)

pub Member-append :
    (b to : Text) (xs : List Text) → Member b (xs ++ to ∷ []) → (b ≡ to) ⊎ Member b xs
Member-append b to [] (inl e) = inl e
Member-append b to [] (inr m) = absurd m
Member-append b to (x ∷ xs) (inl e) = inr (inl e)
Member-append b to (x ∷ xs) (inr m) = elim (Member-append b to xs m) [
  | inl e ↦ inl e
  | inr n ↦ inr (inr n)
]

pub edges-push :
    (from to a : Text) (g : Graph)
    → edges (push_edge from to g) a
      ≡ (if text_eq from a then edges g from ++ to ∷ [] else edges g a)
unfolding edges push_edge
edges-push from to a g = ground (arith, find-insert a from (edges g from ++ to ∷ []) g)

push_edge-Targets :
    (m : Dict ℕ) (from to : Text) (g : Graph)
    → Member to (keys m)
    → Targets m g
    → Targets m (push_edge from to g)
push_edge-Targets m from to g h t a b e = elim (Bool-cases (text_eq from a)) [
  | inl p ↦
      let e' : Member b (edges g from ++ to ∷ []) = rw (edges-push, p) at e in
      elim (Member-append b to (edges g from) e') [ inl q ↦ rw q h | inr n ↦ t from b n ]
  | inr p ↦ t a b (rw (edges-push, p) at e)
]

if-Targets :
    (m : Dict ℕ) (b : Bool) (g g' : Graph)
    → (b ≡ true → Targets m g)
    → Targets m g'
    → Targets m (if b then g else g')
if-Targets m true g g' t t' = t refl
if-Targets m false g g' t t' = t'

add_overrides-Targets :
    (m : Dict ℕ) (name : Text) (ts : List Text) (g : Graph)
    → Targets m g
    → Targets m (add_overrides m name ts g)
unfolding add_overrides
add_overrides-Targets m name [] g t = t
add_overrides-Targets m name (x ∷ ts) g t = add_overrides-Targets m name ts _ (
    if-Targets m (has_value (find x m)) _ _
      (λ h. push_edge-Targets m name x g (find-Member x m h) t) t)

add_overridden_by-Targets :
    (m : Dict ℕ) (name : Text) (ts : List Text) (g : Graph)
    → Member name (keys m)
    → Targets m g
    → Targets m (add_overridden_by m name ts g)
unfolding add_overridden_by
add_overridden_by-Targets m name [] g h t = t
add_overridden_by-Targets m name (x ∷ ts) g h t =
    add_overridden_by-Targets m name ts _ h
      (if-Targets m (has_value (find x m)) _ _ (λ _. push_edge-Targets m x name g h t) t)

build_graph-Targets :
    {D : Type 0} (rules : Dict (Rule D)) (m names : Dict ℕ) (g : Graph)
    → ((y : Text) → Member y (keys names) → Member y (keys m))
    → Targets m g
    → Targets m (build_graph rules m names g)
unfolding build_graph
build_graph-Targets {D} rules m [] g sub t = t
build_graph-Targets {D} rules m ((name, i) ∷ names) g sub t =
    build_graph-Targets rules m names _ (λ y n. sub y (inr n)) (at_rule (find name rules))
  where
    at_rule :
        (o : Option (Rule D))
        → Targets m (elim o [
          | none ↦ g
          | some r ↦ add_overridden_by m name r.overridden_by (add_overrides m name r.overrides g)
        ])
    at_rule none = t
    at_rule (some r) =
        add_overridden_by-Targets m name r.overridden_by _ (sub name (inl refl))
          (add_overrides-Targets m name r.overrides g t)

color_of-all_white :
    (x : Text) (m : Dict ℕ) (c : Dict Color)
    → color_of x c ≡ Color.white
    → color_of x (all_white m c) ≡ Color.white
unfolding all_white
color_of-all_white x [] c h = h
color_of-all_white x ((n, i) ∷ m) c h =
    color_of-all_white x m _ (ground (arith, color_of-insert x n Color.white c))

whites-le-length : (m : Dict ℕ) (c : Dict Color) → whites (keys m) c ≤ length m
whites-le-length [] c = omega arith
whites-le-length (e ∷ m) c = ground (arith, whites-le-length m c)

no-Edge : (a b : Text) → Edge [] a b → ⊥
unfolding edges find
no-Edge a b e = e

white-ne-gray : {v : Color} → v ≡ Color.white → v ≢ Color.gray
white-ne-gray e h = cc

white-ne-black : {v : Color} → v ≡ Color.white → v ≢ Color.black
white-ne-black e h = cc

module _ {D : Type 0} (sets : Dict (List (Rule D))) (evaluated : List (ResolvedRule D)) where
  abbrev pub matched_names : Dict ℕ
  matched_names = matched_idx 0 evaluated []

  abbrev pub graph : Graph
  graph = override_graph sets evaluated

  graph-Targets : Targets matched_names graph
  unfolding override_graph
  graph-Targets =
      build_graph-Targets _ matched_names matched_names [] (λ y h. h)
        (λ a b e. absurd (no-Edge a b e))

  abbrev search : Option (Bool × Dict Color)
  search = search_cycle (length matched_names) graph matched_names (all_white matched_names [])

  abbrev start : Dict Color
  start = all_white matched_names []

  start_white : (x : Text) → color_of x start ≡ Color.white
  unfolding color_of find
  start_white x = color_of-all_white x matched_names [] refl

  search-Finds :
      Finds graph
        (keys matched_names)
        graph-Targets
        ((y : Text) → Member y (keys matched_names) → Terminates graph y)
        start
        search
  search-Finds =
      search_cycle-Finds graph (keys matched_names) graph-Targets (length matched_names)
        matched_names start (λ y m. m) (λ x h. white-ne-gray (start_white x) h)
        (λ x h. absurd (white-ne-black (start_white x) h)) (whites-le-length matched_names start)

  -- Every node on a cycle is the target of an edge, hence matched.
  acyclic : ((y : Text) → Member y (keys matched_names) → Terminates graph y) → ¬ IsCyclic graph
  acyclic ends (a, b, s, e) = Terminates-not_cyclic graph (ends a (graph-Targets b a e)) b s e

  abbrev Decides : Option (Bool × Dict Color) → Type 0
  Decides none = ⊥
  Decides (some (true, c)) = IsCyclic graph
  Decides (some (false, c)) = ¬ IsCyclic graph

  search-Decides :
      (x : Option (Bool × Dict Color))
      → Finds graph
          (keys matched_names)
          graph-Targets
          ((y : Text) → Member y (keys matched_names) → Terminates graph y)
          start
          x
      → Decides x
  search-Decides none h = h
  search-Decides (some (true, c)) h = h
  search-Decides (some (false, c)) (ends, s) = acyclic ends

  abbrev pub Outcome : Type 0
  Outcome =
      (IsCyclic graph
        × ((message : Text) × (resolve_override_conflicts sets evaluated
              ≡ some (fail ErrorCode.rule_cyclic_override message)))
        × (resolve_conflicts sets evaluated ≡ some evaluated))
      ⊎ ((¬ IsCyclic graph)
          × (resolve_override_conflicts sets evaluated
              ≡ some (ok (eliminate graph matched_names matched_names evaluated)))
          × (resolve_conflicts sets evaluated
              ≡ some (eliminate graph matched_names matched_names evaluated)))

  by_search : (x : Option (Bool × Dict Color)) → search ≡ x → Decides x → Outcome
  unfolding resolve_override_conflicts resolve_conflicts
  by_search none e h = absurd h
  by_search (some (true, c)) e h = inl (
    h,
    (text "override cycle detected among: " ++ cycle_info c [], rw (e, resolve_override_conflicts)),
    rw (e, resolve_override_conflicts, resolve_conflicts),
  )
  by_search (some (false, c)) e h =
      inr (
        h,
        rw (e, resolve_override_conflicts),
        rw (e, resolve_override_conflicts, resolve_conflicts),
      )

  -- The fuel is enough, and the graph decides the outcome: if the matched rules override one another in
  -- a cycle, the error is Rule_CyclicOverride and the results come back unchanged; if not, the results
  -- come back without the overridden rules.
  pub resolve_conflicts_decides : Outcome
  resolve_conflicts_decides = by_search search refl (search-Decides search search-Finds)
