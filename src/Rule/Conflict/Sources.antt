-- ===== src/Rule/Conflict/Sources.antt =====
-- src/rule/conflict_resolver.cpp: which edges the graph of overrides has.
use surface_ai.Base.{
  ℕ, ◌≡◌, refl, sym, subst, ◌⊎◌, inl, inr, ◌↔◌, Bool-cases, true, Option, none, some, List, [], ◌∷◌,
  ◌++◌, has_value, arith,
}
use surface_ai.Base.Text.{Text, text_eq, text_eq_iff}
use surface_ai.Base.Dict.{Dict, find}
use surface_ai.Rule.Engine.{Rule, ResolvedRule}
use surface_ai.Rule.Conflict.Paths.{Graph, edges, Member, Edge}
use surface_ai.Rule.Conflict.Decision.{keys, Member-append, edges-push, matched_names}
use surface_ai.Rule.Conflict.{
  push_edge, add_overrides, add_overridden_by, build_graph, original, override_graph,
}

abbrev pub IsKey : Dict ℕ → Text → Type 0
IsKey m n = has_value (find n m) ≡ true

-- Of the members before and after a loop, one is new.
append-Member : (b to : Text) (xs : List Text) → (b ≡ to) ⊎ Member b xs → Member b (xs ++ to ∷ [])
append-Member b to [] (inl e) = inl e
append-Member b to [] (inr m) = absurd m
append-Member b to (x ∷ xs) (inl e) = inr (append-Member b to xs (inl e))
append-Member b to (x ∷ xs) (inr (inl e)) = inl e
append-Member b to (x ∷ xs) (inr (inr m)) = inr (append-Member b to xs (inr m))

push-Edge :
    (from to a b : Text) (g : Graph)
    → Edge (push_edge from to g) a b ↔ (Edge g a b ⊎ ((a ≡ from) × (b ≡ to)))
push-Edge from to a b g = elim (Bool-cases (text_eq from a)) [
  | inl p ↦
      rw (edges-push, p, ← (text_eq_iff from a).0 p)
        (
          λ m. elim (Member-append b to (edges g from) m) [ inl e ↦ inr (refl, e) | inr n ↦ inl n ],
          λ m. elim m [
            | inl n ↦ append-Member b to (edges g from) (inr n)
            | inr h ↦ append-Member b to (edges g from) (inl h.1)
          ],
        )
  | inr p ↦
      rw (edges-push, p)
        (λ m. inl m, λ m. elim m [ inl n ↦ n | inr h ↦ ground (arith, h.0, p, text_eq_iff from a) ])
]

overrides-Edge :
    (m : Dict ℕ) (name : Text) (ts : List Text) (g : Graph) (a b : Text)
    → Edge (add_overrides m name ts g) a b ↔ (Edge g a b ⊎ ((a ≡ name) × Member b ts × IsKey m b))
unfolding add_overrides
overrides-Edge m name [] g a b = (λ e. inl e, λ e. elim e [ inl h ↦ h | inr h ↦ absurd h.1 ])
overrides-Edge m name (t ∷ ts) g a b = elim (Bool-cases (has_value (find t m))) [
  | inl p ↦
      rw p (
        ground
          (arith, overrides-Edge m name ts (push_edge name t g) a b, push-Edge name t a b g, p))
  | inr p ↦ rw p (ground (arith, overrides-Edge m name ts g a b, p))
]

overridden-Edge :
    (m : Dict ℕ) (name : Text) (ts : List Text) (g : Graph) (a b : Text)
    → Edge (add_overridden_by m name ts g) a b
      ↔ (Edge g a b ⊎ ((b ≡ name) × Member a ts × IsKey m a))
unfolding add_overridden_by
overridden-Edge m name [] g a b = (λ e. inl e, λ e. elim e [ inl h ↦ h | inr h ↦ absurd h.1 ])
overridden-Edge m name (t ∷ ts) g a b = elim (Bool-cases (has_value (find t m))) [
  | inl p ↦ rw p (
      ground (arith, overridden-Edge m name ts (push_edge t name g) a b, push-Edge t name a b g, p))
  | inr p ↦ rw p (ground (arith, overridden-Edge m name ts g a b, p))
]

-- The rule `r` of the name `n` says that `a` overrides `b`, and the other of the two is matched.
abbrev pub Adds : {D : Type 0} → Dict ℕ → Text → Rule D → Text → Text → Type 0
Adds m n r a b =
    ((a ≡ n) × Member b r.overrides × IsKey m b) ⊎ ((b ≡ n) × Member a r.overridden_by × IsKey m a)

-- A rule of one of the names adds the edge.
abbrev pub IsAdded : {D : Type 0} → Dict (Rule D) → Dict ℕ → List Text → Text → Text → Type 0
IsAdded {D} rules m names a b =
    (n : Text) × (r : Rule D) × Member n names × (find n rules ≡ some r) × Adds m n r a b

module _ {D : Type 0} where
  rule-Edge :
      (m : Dict ℕ) (n : Text) (o : Option (Rule D)) (g : Graph) (a b : Text)
      → Edge
          (elim o [
            | none ↦ g
            | some r ↦ add_overridden_by m n r.overridden_by (add_overrides m n r.overrides g)
          ])
          a
          b
        ↔ (Edge g a b ⊎ ((r : Rule D) × (o ≡ some r) × Adds m n r a b))
  rule-Edge m n none g a b =
      (λ e. inl e, λ e. elim e [ inl h ↦ h | inr h ↦ (let (r, q, x) = h in absurd cc) ])
  rule-Edge m n (some r) g a b =
      let p = overridden-Edge m n r.overridden_by (add_overrides m n r.overrides g) a b in
      let q = overrides-Edge m n r.overrides g a b in
      (
        λ e. elim (p.0 e) [
          | inl f ↦ elim (q.0 f) [ inl h ↦ inl h | inr h ↦ inr (r, refl, inl h) ]
          | inr h ↦ inr (r, refl, inr h)
        ],
        λ e. elim e [
          | inl h ↦ p.1 (inl (q.1 (inl h)))
          | inr h ↦
              (let (s, o, x) = h in
                let same : r ≡ s = cc o in
                elim (subst (λ t. Adds m n t a b) (sym same) x) [
                  | inl y ↦ p.1 (inl (q.1 (inr y)))
                  | inr y ↦ p.1 (inr y)
                ])
        ],
      )

  split-IsAdded :
      (rules : Dict (Rule D)) (m : Dict ℕ) (n : Text) (names : List Text) (a b : Text)
      → IsAdded rules m (n ∷ names) a b
      → ((r : Rule D) × (find n rules ≡ some r) × Adds m n r a b) ⊎ IsAdded rules m names a b
  split-IsAdded rules m n names a b (k, r, inl e, o, x) =
      inl (r, (rw (← e) o), subst (λ t. Adds m t r a b) e x)
  split-IsAdded rules m n names a b (k, r, inr j, o, x) = inr (k, r, j, o, x)

  build_graph-Edge :
      (rules : Dict (Rule D)) (m names : Dict ℕ) (g : Graph) (a b : Text)
      → Edge (build_graph rules m names g) a b ↔ (Edge g a b ⊎ IsAdded rules m (keys names) a b)
  unfolding build_graph
  build_graph-Edge rules m [] g a b =
      (λ e. inl e, λ e. elim e [ inl h ↦ h | inr h ↦ (let (n, r, i, o, x) = h in absurd i) ])
  build_graph-Edge rules m ((n, i) ∷ names) g a b =
      let p = build_graph-Edge rules m names _ a b in
      let q = rule-Edge m n (find n rules) g a b in
      (
        λ e. elim (p.0 e) [
          | inl f ↦ elim (q.0 f) [
            | inl h ↦ inl h
            | inr h ↦ (let (r, o, x) = h in inr (n, r, inl refl, o, x))
          ]
          | inr h ↦ (let (k, r, j, o, x) = h in inr (k, r, inr j, o, x))
        ],
        λ e. elim e [
          | inl h ↦ p.1 (inl (q.1 (inl h)))
          | inr h ↦ elim (split-IsAdded rules m n (keys names) a b h) [
            | inl x ↦ p.1 (inl (q.1 (inr x)))
            | inr x ↦ p.1 (inr x)
          ]
        ],
      )

  -- The graph of ResolveOverrideConflicts has an edge from `a` to `b` exactly if both are names of
  -- matched results, and the rule under `a` names `b` in its `overrides` or the rule under `b` names `a`
  -- in its `overridden_by`. Neither of the two declarations prevails over the other.
  pub override_graph-Edge :
      (sets : Dict (List (Rule D))) (evaluated : List (ResolvedRule D)) (a b : Text)
      → Edge (override_graph sets evaluated) a b
        ↔ IsAdded
            (original sets [])
            (matched_names sets evaluated)
            (keys (matched_names sets evaluated))
            a
            b
  unfolding override_graph edges find
  override_graph-Edge sets evaluated a b =
      let p =
        build_graph-Edge (original sets []) (matched_names sets evaluated)
          (matched_names sets evaluated) [] a b in
      (λ e. elim (p.0 e) [ inl h ↦ absurd h | inr h ↦ h ], λ h. p.1 (inr h))
