-- ===== src/Rule/Conflict/Elimination.antt =====
-- src/rule/conflict_resolver.cpp, step 5: which results lose their match.
use surface_ai.Base.{
  ℕ, zero, suc, ◌≡◌, ◌≢◌, refl, subst, sym, ap, ◌∙◌, ◌⊎◌, inl, inr, Bool, true, false, not, ◌&&◌,
  ◌||◌, ◌==◌, Bool-cases, Option, none, some, List, [], ◌∷◌, get_elem?, if◌then◌else◌, has_value,
  arith,
}
use mathlib.Core.Option.{some-injective}
use surface_ai.Base.Text.{Text, text_eq, text_eq_iff}
use surface_ai.Base.Dict.{Dict, find}
use surface_ai.Rule.Engine.{ResolvedRule}
use surface_ai.Rule.Conflict.Paths.{Graph, edges, Edge, contains_text, contains_text_iff}
use surface_ai.Rule.Conflict.Matched.{
  AllEntries, DiffersFrom, IsMatchedAt, IsLast, matched_idx-AllEntries, find-matched_idx,
}
use surface_ai.Rule.Conflict.{matched_idx, is_overridden, unmatch, eliminate}

and_true : (b : Bool) → b ≡ (b && true)
and_true true = refl
and_true false = refl

and_false : (b : Bool) → false ≡ (b && false)
and_false true = refl
and_false false = refl

-- An entry at position i is overridden.
abbrev is_hit : Graph → Dict ℕ → Dict ℕ → ℕ → Bool
is_hit g m [] i = false
is_hit g m ((n, j) ∷ es) i = ((j == i) && is_overridden g m n) || is_hit g m es i

is_hit_sound :
    (P : Text → ℕ → Type 0) (g : Graph) (m es : Dict ℕ) (i : ℕ)
    → AllEntries P es
    → is_hit g m es i ≡ true
    → (n : Text) × P n i × (is_overridden g m n ≡ true)
is_hit_sound P g m [] i a h = cc
is_hit_sound P g m ((n, j) ∷ es) i a h = elim (Bool-cases ((j == i) && is_overridden g m n)) [
  | inl e ↦ (n, subst (P n) (ground arith) a.0, ground arith)
  | inr e ↦ is_hit_sound P g m es i a.1 (ground arith)
]

is_hit_complete :
    (g : Graph) (m es : Dict ℕ) (n : Text) (i : ℕ)
    → find n es ≡ some i
    → is_overridden g m n ≡ true
    → is_hit g m es i ≡ true
unfolding find
is_hit_complete g m [] n i f o = cc
is_hit_complete g m ((k, j) ∷ es) n i f o =
    ground (arith, text_eq_iff k n, is_hit_complete g m es n i)

is_overridden_sound :
    (P : Text → ℕ → Type 0) (g : Graph) (es : Dict ℕ) (n : Text)
    → AllEntries P es
    → is_overridden g es n ≡ true
    → (o : Text) × (j : ℕ) × P o j × (o ≢ n) × Edge g o n
unfolding is_overridden
is_overridden_sound P g [] n a h = cc
is_overridden_sound P g ((o, j) ∷ es) n a h =
    elim (Bool-cases (not (text_eq o n) && contains_text n (edges g o))) [
      | inl e ↦ (
        o,
        j,
        a.0,
        ground (arith, text_eq_iff o n),
        (contains_text_iff n (edges g o)).0 (ground arith),
      )
      | inr e ↦ is_overridden_sound P g es n a.1 (ground arith)
    ]

is_overridden_complete :
    (g : Graph) (es : Dict ℕ) (n o : Text)
    → has_value (find o es) ≡ true
    → o ≢ n
    → Edge g o n
    → is_overridden g es n ≡ true
unfolding is_overridden find
is_overridden_complete g [] n o f d e = cc
is_overridden_complete g ((k, j) ∷ es) n o f d e = elim (Bool-cases (text_eq k o)) [
  | inl p ↦
      let q : k ≡ o = (text_eq_iff k o).0 p in
      let c : contains_text n (edges g o) ≡ true = (contains_text_iff n (edges g o)).1 e in
      rw q (ground (arith, c, text_eq_iff o n))
  | inr p ↦ ground (arith, is_overridden_complete g es n o (ground arith) d e)
]

module _ {D : Type 0} where
  -- No two matched results have one name.
  abbrev pub AreDistinct : List (ResolvedRule D) → Type 0
  AreDistinct [] = Unit
  AreDistinct (q ∷ qs) = (q.matched ≡ true → DiffersFrom q.name qs) × AreDistinct qs

  -- Another matched result has an edge to the name.
  pub record IsOverridden (rs : List (ResolvedRule D)) (g : Graph) (n : Text) : Type 0 where
    pub other : Text
    pub index : ℕ
    pub found : IsMatchedAt rs other index
    pub differs : other ≢ n
    pub edge : Edge g other n

  abbrev pub unmatched : ResolvedRule D → ResolvedRule D
  unmatched r = record r { matched = false }

  abbrev after : Bool → Option (ResolvedRule D) → Option (ResolvedRule D)
  after b none = none
  after b (some r) = some (if b then unmatched r else r)

  after-after : (a b : Bool) (o : Option (ResolvedRule D)) → after a (after b o) ≡ after (b || a) o
  after-after a b none = refl
  after-after true true (some r) = refl
  after-after true false (some r) = refl
  after-after false true (some r) = refl
  after-after false false (some r) = refl

  get-unmatch :
      (rs : List (ResolvedRule D)) (j i : ℕ)
      → get_elem? (unmatch rs j) i ≡ after (j == i) (get_elem? rs i)
  unfolding unmatch
  get-unmatch [] j i = refl
  get-unmatch (r ∷ rs) zero zero = refl
  get-unmatch (r ∷ rs) zero (suc i) = ground arith
  get-unmatch (r ∷ rs) (suc j) zero = ground arith
  get-unmatch (r ∷ rs) (suc j) (suc i) = ground (arith, get-unmatch rs j i)

  get-eliminate :
      (g : Graph) (m es : Dict ℕ) (rs : List (ResolvedRule D)) (i : ℕ)
      → get_elem? (eliminate g m es rs) i ≡ after (is_hit g m es i) (get_elem? rs i)
  unfolding eliminate
  get-eliminate g m [] rs i = ground arith
  get-eliminate g m ((n, j) ∷ es) rs i = elim (Bool-cases (is_overridden g m n)) [
    | inl e ↦
        rw (e, eliminate)
          (get-eliminate g m es (unmatch rs j) i
            ∙ ap (after (is_hit g m es i)) (get-unmatch rs j i)
            ∙ after-after (is_hit g m es i) (j == i) (get_elem? rs i)
            ∙ ap (λ b. after (b || is_hit g m es i) (get_elem? rs i)) (and_true (j == i)))
    | inr e ↦
        rw (e, eliminate)
          (get-eliminate g m es rs i
            ∙ ap (λ b. after (b || is_hit g m es i) (get_elem? rs i)) (and_false (j == i)))
  ]

  differs_matched :
      (n : Text) (qs : List (ResolvedRule D))
      → DiffersFrom n qs
      → (i : ℕ) (o : Text) → IsMatchedAt qs o i
      → o ≢ n
  differs_matched n [] h i o c = cc c.at
  differs_matched n (q ∷ qs) h zero o c =
      λ p. h.0 (ground (arith, c.at, c.matched)) (ground (arith, c.at, c.named))
  differs_matched n (q ∷ qs) h (suc i) o c =
      differs_matched n qs h.1 i o
        (record { result = c.result; at = c.at; matched = c.matched; named = c.named })

  AreDistinct-IsLast :
      (rs : List (ResolvedRule D)) (i : ℕ) (n : Text)
      → AreDistinct rs
      → IsMatchedAt rs n i
      → IsLast rs i n
  AreDistinct-IsLast [] i n d c = tt
  AreDistinct-IsLast (q ∷ qs) zero n d c =
      subst (λ x. DiffersFrom x qs) (ground (arith, c.at, c.named))
        (d.0 (ground (arith, c.at, c.matched)))
  AreDistinct-IsLast (q ∷ qs) (suc i) n d c =
      AreDistinct-IsLast qs i n d.1
        (record { result = c.result; at = c.at; matched = c.matched; named = c.named })

  module _ (g : Graph) (rs : List (ResolvedRule D)) (distinct : AreDistinct rs) (i : ℕ)
      (r : ResolvedRule D) (at_i : get_elem? rs i ≡ some r) where
    abbrev pub m : Dict ℕ
    m = matched_idx 0 rs []

    entries : AllEntries (IsMatchedAt rs) m
    entries =
        matched_idx-AllEntries (IsMatchedAt rs) 0 rs []
          (λ j n c. subst (IsMatchedAt rs n) (ground arith) c) tt

    entry : (n : Text) (j : ℕ) → IsMatchedAt rs n j → find n m ≡ some j
    entry n j c =
        find-matched_idx n j 0 rs [] c (AreDistinct-IsLast rs j n distinct c)
        ∙ ap some (omega arith)

    -- Where no two matched results have one name, a matched result to which another matched one has an
    -- edge loses its match and keeps all else.
    pub eliminate_overridden :
        r.matched ≡ true
        → IsOverridden rs g r.name
        → get_elem? (eliminate g m m rs) i ≡ some (unmatched r)
    eliminate_overridden e o =
        let here : IsMatchedAt rs r.name i = record {
          result = r;
          at = at_i;
          matched = e;
          named = refl;
        } in
        let known : has_value (find o.other m) ≡ true = rw (entry o.other o.index o.found) refl in
        let hit : is_hit g m m i ≡ true =
          is_hit_complete g m m r.name i (entry r.name i here)
            (is_overridden_complete g m r.name o.other known o.differs o.edge) in
        get-eliminate g m m rs i ∙ rw (hit, at_i) refl

    hit_overrides : is_hit g m m i ≡ true → (r.matched ≡ true) × IsOverridden rs g r.name
    hit_overrides h =
        let (n, c, v) = is_hit_sound (IsMatchedAt rs) g m m i entries h in
        let (o, j, f, d, e) = is_overridden_sound (IsMatchedAt rs) g m n entries v in
        let same : c.result ≡ r = some-injective _ _ (sym c.at ∙ at_i) in
        (
          ap (λ (x : ResolvedRule D). x.matched) (sym same) ∙ c.matched,
          subst (IsOverridden rs g) (sym c.named ∙ ap (λ (x : ResolvedRule D). x.name) same)
              (record { other = o; index = j; found = f; differs = d; edge = e }),
        )

    stays :
        (r.matched ≡ true → ¬ IsOverridden rs g r.name)
        → (is_hit g m m i ≡ true) ⊎ (is_hit g m m i ≡ false)
        → get_elem? (eliminate g m m rs) i ≡ some r
    stays k (inl h) = absurd (k (hit_overrides h).0 (hit_overrides h).1)
    stays k (inr h) = get-eliminate g m m rs i ∙ rw (h, at_i) refl

    -- Where no two matched results have one name, a result that is unmatched, or to which no other
    -- matched result has an edge, stays as it is.
    pub eliminate_other :
        (r.matched ≡ true → ¬ IsOverridden rs g r.name) → get_elem? (eliminate g m m rs) i ≡ some r
    eliminate_other k = stays k (Bool-cases (is_hit g m m i))
