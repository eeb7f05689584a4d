-- ===== src/Rule/Conflict/Matched.antt =====
-- src/rule/conflict_resolver.cpp, the entries of matched_idx.
use surface_ai.Base.{
  ℕ, zero, suc, ◌+◌, ◌≡◌, ◌≢◌, refl, subst, ap, ◌∙◌, ◌⊎◌, true, false, Bool-cases, inl, inr,
  Ordering, some, List, [], ◌∷◌, get_elem?, if◌then◌else◌, arith,
}
use surface_ai.Base.Text.{Text, text_eq_iff, text_compare}
use surface_ai.Base.Dict.{Dict, find, insert_or_assign, find-insert}
use surface_ai.Rule.Engine.{ResolvedRule}
use surface_ai.Rule.Conflict.{matched_idx}

abbrev pub AllEntries : (Text → ℕ → Type 0) → Dict ℕ → Type 0
AllEntries P [] = Unit
AllEntries P ((n, i) ∷ m) = P n i × AllEntries P m

insert-AllEntries :
    (P : Text → ℕ → Type 0) (k : Text) (v : ℕ) (m : Dict ℕ)
    → P k v
    → AllEntries P m
    → AllEntries P (insert_or_assign k v m)
unfolding insert_or_assign
insert-AllEntries P k v [] p h = (p, tt)
insert-AllEntries P k v ((j, w) ∷ m) p h = go (text_compare k j) (insert-AllEntries P k v m p h.1)
  where
    go :
        (o : Ordering)
        → AllEntries P (insert_or_assign k v m)
        → AllEntries P (elim o [
          | Ordering.lt ↦ (k, v) ∷ (j, w) ∷ m
          | Ordering.eq ↦ (k, v) ∷ m
          | Ordering.gt ↦ (j, w) ∷ insert_or_assign k v m
        ])
    go Ordering.lt rest = (p, h)
    go Ordering.eq rest = (p, h.1)
    go Ordering.gt rest = (h.0, rest)

module _ {D : Type 0} where
  -- Position i holds a matched result of the name n.
  pub record IsMatchedAt (rs : List (ResolvedRule D)) (n : Text) (i : ℕ) : Type 0 where
    pub result : ResolvedRule D
    pub at : get_elem? rs i ≡ some result
    pub matched : result.matched ≡ true
    pub named : result.name ≡ n

  abbrev pub DiffersFrom : Text → List (ResolvedRule D) → Type 0
  DiffersFrom n [] = Unit
  DiffersFrom n (q ∷ qs) = (q.matched ≡ true → q.name ≢ n) × DiffersFrom n qs

  pub matched_idx-AllEntries :
      (P : Text → ℕ → Type 0) (k : ℕ) (rs : List (ResolvedRule D)) (m : Dict ℕ)
      → ((i : ℕ) (n : Text) → IsMatchedAt rs n i → P n (k + i))
      → AllEntries P m
      → AllEntries P (matched_idx k rs m)
  unfolding matched_idx
  matched_idx-AllEntries P k [] m h a = a
  matched_idx-AllEntries P k (r ∷ rs) m h a =
      matched_idx-AllEntries P (suc k) rs _
        (λ i n c. subst (P n) (omega arith) (
          h (suc i) n
            (record { result = c.result; at = c.at; matched = c.matched; named = c.named })))
        (first (Bool-cases r.matched))
    where
      first :
          (r.matched ≡ true) ⊎ (r.matched ≡ false)
          → AllEntries P (if r.matched then insert_or_assign r.name k m else m)
      first (inl e) = rw e (
          insert-AllEntries P r.name k m
            (subst (P r.name) (omega arith)
              (h 0 r.name (record { result = r; at = refl; matched = e; named = refl })))
            a)
      first (inr e) = rw e a

  find-matched_idx_other :
      (n : Text) (k : ℕ) (rs : List (ResolvedRule D)) (m : Dict ℕ)
      → DiffersFrom n rs
      → find n (matched_idx k rs m) ≡ find n m
  unfolding matched_idx
  find-matched_idx_other n k [] m h = refl
  find-matched_idx_other n k (q ∷ qs) m h = ground (
    arith,
    find-matched_idx_other n (suc k) qs (if q.matched then insert_or_assign q.name k m else m) h.1,
    find-insert n q.name k m,
    text_eq_iff q.name n,
    h.0,
  )

  -- No later matched result has the name of the one at position i.
  abbrev pub IsLast : List (ResolvedRule D) → ℕ → Text → Type 0
  IsLast [] i n = Unit
  IsLast (q ∷ qs) zero n = DiffersFrom n qs
  IsLast (q ∷ qs) (suc i) n = IsLast qs i n

  pub find-matched_idx :
      (n : Text) (i k : ℕ) (rs : List (ResolvedRule D)) (m : Dict ℕ)
      → IsMatchedAt rs n i
      → IsLast rs i n
      → find n (matched_idx k rs m) ≡ some (k + i)
  unfolding matched_idx
  find-matched_idx n i k [] m c l = cc c.at
  find-matched_idx n zero k (q ∷ qs) m c l = ground (
    arith,
    c.at,
    c.matched,
    c.named,
    find-matched_idx_other n (suc k) qs (if q.matched then insert_or_assign q.name k m else m) l,
    find-insert n q.name k m,
    text_eq_iff q.name n,
  )
  find-matched_idx n (suc i) k (q ∷ qs) m c l =
      find-matched_idx n i (suc k) qs _
        (record { result = c.result; at = c.at; matched = c.matched; named = c.named }) l
      ∙ ap some (omega arith)
