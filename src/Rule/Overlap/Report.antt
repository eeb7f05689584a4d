-- ===== src/Rule/Overlap/Report.antt =====
-- DetectOverlaps of src/rule/rule_engine.cpp: which pairs of rules of one set are reported.
use surface_ai.Base.{◌≡◌, refl, subst, ◌⊎◌, inl, inr, ◌↔◌, In, List, [], ◌∷◌, ◌++◌, arith}
use surface_ai.Base.Text.{Text}
use surface_ai.Rule.Conflict.Paths.{Member}
use surface_ai.Rule.Overlap.{OverlapWarning, common_fields, warn_pair, overlaps_with, overlaps_of}
use surface_ai.Rule.Overlap.Common.{common_fields_lem}

abbrev pub Refs : Type 0
Refs = Text × List Text

-- `r` stands before `s`.
abbrev pub Precedes : Refs → Refs → List Refs → Type 0
Precedes r s [] = ⊥
Precedes r s (x ∷ xs) = ((r ≡ x) × In s xs) ⊎ Precedes r s xs

abbrev pub warning : Refs → Refs → OverlapWarning
warning r s = record { rule_a = r.0; rule_b = s.0; common_fields = common_fields r.1 s.1 }

-- Both rules refer to some field, and `w` is the warning for them.
abbrev pub Reports : OverlapWarning → Refs → Refs → Type 0
Reports w r s = ((z : Text) × Member z r.1 × Member z s.1) × (w ≡ warning r s)

In-++ : {A : Type 0} (x : A) (xs ys : List A) → In x (xs ++ ys) ↔ (In x xs ⊎ In x ys)
In-++ x [] ys = (λ m. inr m, λ m. ground arith)
In-++ x (y ∷ xs) ys = ground (arith, In-++ x xs ys)

pair-In :
    (w : OverlapWarning) (a b : Text) (cs : List Text) (rest : List OverlapWarning)
    → In w (warn_pair a b cs rest) ↔ (
        (((z : Text) × Member z cs) × (w ≡ record { rule_a = a; rule_b = b; common_fields = cs }))
        ⊎ In w rest)
unfolding warn_pair
pair-In w a b [] rest = (λ m. inr m, λ m. elim m [ inl h ↦ absurd h.0.1 | inr h ↦ h ])
pair-In w a b (c ∷ cs) rest = (
  λ m. elim m [ inl e ↦ inl ((c, inl refl), e) | inr h ↦ inr h ],
  λ m. elim m [ inl h ↦ inl h.1 | inr h ↦ inr h ],
)

shared :
    (w : OverlapWarning) (r s : Refs)
    → Reports w r s
    → ((z : Text) × Member z (common_fields r.1 s.1)) × (w ≡ warning r s)
shared w r s ((z, m, n), e) = ((z, (common_fields_lem z r.1 s.1).1 (m, n)), e)

with-In :
    (w : OverlapWarning) (r : Refs) (rs : List Refs)
    → In w (overlaps_with r rs) ↔ ((s : Refs) × In s rs × Reports w r s)
unfolding overlaps_with
with-In w r [] = (λ m. absurd m, λ h. let (s, i, j) = h in absurd i)
with-In w r (s ∷ rs) =
    let p = pair-In w r.0 s.0 (common_fields r.1 s.1) (overlaps_with r rs) in
    let q = with-In w r rs in
    (
      λ m. elim (p.0 m) [
        | inl ((z, h), e) ↦
            (let (m, n) = (common_fields_lem z r.1 s.1).0 h in (s, inl refl, ((z, m, n), e)))
        | inr h ↦ (let (t, i, j) = q.0 h in (t, inr i, j))
      ],
      λ h. let (t, i, j) = h in back t i j (λ t i j. q.1 (t, i, j)),
    )
  where
    back :
        (t : Refs)
        → In t (s ∷ rs)
        → Reports w r t
        → ((t : Refs) → In t rs → Reports w r t → In w (overlaps_with r rs))
        → In w (overlaps_with r (s ∷ rs))
    back t (inl e) j k =
        (pair-In w r.0 s.0 (common_fields r.1 s.1) (overlaps_with r rs)).1
          (inl (shared w r s (subst (Reports w r) e j)))
    back t (inr i) j k =
        (pair-In w r.0 s.0 (common_fields r.1 s.1) (overlaps_with r rs)).1 (inr (k t i j))

-- The warnings for a rule set are those of the pairs of an earlier and a later rule that refer to a
-- common field, each with the names of the two and their common fields, whether or not one of the rules
-- declares that it overrides the other.
pub overlaps_of_lem :
    (w : OverlapWarning) (rs : List Refs)
    → In w (overlaps_of rs) ↔ ((r : Refs) × (s : Refs) × Precedes r s rs × Reports w r s)
unfolding overlaps_of
overlaps_of_lem w [] = (λ m. absurd m, λ h. let (r, s, i, j) = h in absurd i)
overlaps_of_lem w (x ∷ xs) =
    let p = In-++ w (overlaps_with x xs) (overlaps_of xs) in
    let q = overlaps_of_lem w xs in
    (
      λ m. elim (p.0 m) [
        | inl h ↦ (let (s, i, j) = (with-In w x xs).0 h in (x, s, inl (refl, i), j))
        | inr h ↦ (let (r, s, i, j) = q.0 h in (r, s, inr i, j))
      ],
      λ h. let (r, s, i, j) = h in p.1 (back r s i j (λ r s i j. q.1 (r, s, i, j))),
    )
  where
    back :
        (r s : Refs)
        → Precedes r s (x ∷ xs)
        → Reports w r s
        → ((r s : Refs) → Precedes r s xs → Reports w r s → In w (overlaps_of xs))
        → In w (overlaps_with x xs) ⊎ In w (overlaps_of xs)
    back r s (inl (e, i)) j k = inl ((with-In w x xs).1 (s, i, subst (λ t. Reports w t s) e j))
    back r s (inr i) j k = inr (k r s i j)
