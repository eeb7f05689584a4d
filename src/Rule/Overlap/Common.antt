-- ===== src/Rule/Overlap/Common.antt =====
-- The common fields of two rules in DetectOverlaps of src/rule/rule_engine.cpp.
use surface_ai.Base.{
  ◌≡◌, ◌≢◌, refl, sym, subst, ◌∙◌, ◌⊎◌, inl, inr, ◌↔◌, List, [], ◌∷◌, All, Ordering, arith,
}
use surface_ai.Base.Text.{
  Text, text_compare, text_compare_iff, text_compare_lt_trans, text_compare_flip,
  text_compare_irrefl,
}
use surface_ai.Rule.Conflict.Paths.{Member}
use surface_ai.Rule.Overlap.{insert_sorted, sort, advance, set_intersection, common_fields}

-- `z` does not stand before `x`.
abbrev Below : Text → Text → Type 0
Below x z = text_compare z x ≢ Ordering.lt

abbrev IsSorted : List Text → Type 0
IsSorted [] = Unit
IsSorted (x ∷ xs) = All (Below x) xs × IsSorted xs

All-Member : (P : Text → Type 0) (xs : List Text) (z : Text) → All P xs → Member z xs → P z
All-Member P [] z ps m = absurd m
All-Member P (x ∷ xs) z (p, ps) (inl e) = subst P (sym e) p
All-Member P (x ∷ xs) z (p, ps) (inr m) = All-Member P xs z ps m

insert-Member :
    (z x : Text) (ys : List Text) → Member z (insert_sorted x ys) ↔ ((z ≡ x) ⊎ Member z ys)
unfolding insert_sorted
insert-Member z x [] = (λ m. m, λ m. m)
insert-Member z x (y ∷ ys) = at_head (text_compare x y) (insert-Member z x ys)
  where
    at_head :
        (o : Ordering)
        → (Member z (insert_sorted x ys) ↔ ((z ≡ x) ⊎ Member z ys))
        → Member z (elim o [
          | Ordering.lt ↦ x ∷ y ∷ ys
          | Ordering.eq ↦ x ∷ y ∷ ys
          | Ordering.gt ↦ y ∷ insert_sorted x ys
        ])
          ↔ ((z ≡ x) ⊎ Member z (y ∷ ys))
    at_head Ordering.lt ih = (λ m. m, λ m. m)
    at_head Ordering.eq ih = (λ m. m, λ m. m)
    at_head Ordering.gt ih = (ground (arith, ih), ground (arith, ih))

sort-Member : (z : Text) (xs : List Text) → Member z (sort xs) ↔ Member z xs
unfolding sort
sort-Member z [] = (λ m. m, λ m. m)
sort-Member z (x ∷ xs) = ground (arith, insert-Member z x (sort xs), sort-Member z xs)

Below-trans : (x y z : Text) → text_compare x y ≡ Ordering.lt → Below y z → Below x z
Below-trans x y z h k e = k (text_compare_lt_trans z x y e h)

All-Below :
    (x y : Text) (zs : List Text)
    → text_compare x y ≡ Ordering.lt
    → All (Below y) zs
    → All (Below x) zs
All-Below x y [] h a = tt
All-Below x y (z ∷ zs) h (b, a) = (Below-trans x y z h b, All-Below x y zs h a)

All-insert :
    (y x : Text) (zs : List Text)
    → Below y x
    → All (Below y) zs
    → All (Below y) (insert_sorted x zs)
unfolding insert_sorted
All-insert y x [] b a = (b, tt)
All-insert y x (z ∷ zs) b (c, a) = at_head (text_compare x z) (All-insert y x zs b a)
  where
    at_head :
        (o : Ordering)
        → All (Below y) (insert_sorted x zs)
        → All (Below y) (elim o [
          | Ordering.lt ↦ x ∷ z ∷ zs
          | Ordering.eq ↦ x ∷ z ∷ zs
          | Ordering.gt ↦ z ∷ insert_sorted x zs
        ])
    at_head Ordering.lt ih = (b, (c, a))
    at_head Ordering.eq ih = (b, (c, a))
    at_head Ordering.gt ih = (c, ih)

lt-Below : (x y : Text) → text_compare x y ≡ Ordering.lt → Below x y
lt-Below x y h k = text_compare_irrefl x (text_compare_lt_trans x y x h k)

insert-IsSorted : (x : Text) (ys : List Text) → IsSorted ys → IsSorted (insert_sorted x ys)
unfolding insert_sorted
insert-IsSorted x [] s = (tt, tt)
insert-IsSorted x (y ∷ ys) (a, s) = at_head (text_compare x y) refl (insert-IsSorted x ys s)
  where
    at_head :
        (o : Ordering)
        → text_compare x y ≡ o
        → IsSorted (insert_sorted x ys)
        → IsSorted (elim o [
          | Ordering.lt ↦ x ∷ y ∷ ys
          | Ordering.eq ↦ x ∷ y ∷ ys
          | Ordering.gt ↦ y ∷ insert_sorted x ys
        ])
    at_head Ordering.lt e ih = ((lt-Below x y e, All-Below x y ys e a), (a, s))
    at_head Ordering.eq e ih =
        subst (λ w. IsSorted (w ∷ y ∷ ys)) (sym ((text_compare_iff x y).0 e))
          ((text_compare_irrefl y, a), (a, s))
    at_head Ordering.gt e ih = (All-insert y x ys (λ k. absurd (cc (k, e))) a, ih)

sort-IsSorted : (xs : List Text) → IsSorted (sort xs)
unfolding sort
sort-IsSorted [] = tt
sort-IsSorted (x ∷ xs) = insert-IsSorted x (sort xs) (sort-IsSorted xs)

-- What the two ranges share, given what `rest` shares with the range after `x`.
advance_sound :
    (z x : Text) (xs : List Text) (rest : List Text → List Text)
    → ((ys : List Text) → Member z (rest ys) → Member z xs × Member z ys)
    → (ys : List Text) → Member z (advance x rest ys)
    → Member z (x ∷ xs) × Member z ys
unfolding advance
advance_sound z x xs rest ih [] m = absurd m
advance_sound z x xs rest ih (y ∷ ys) m =
    at_head (text_compare x y) refl (advance_sound z x xs rest ih ys) m
  where
    at_head :
        (o : Ordering)
        → text_compare x y ≡ o
        → (Member z (advance x rest ys) → Member z (x ∷ xs) × Member z ys)
        → Member z (elim o [
          | Ordering.lt ↦ rest (y ∷ ys)
          | Ordering.eq ↦ x ∷ rest ys
          | Ordering.gt ↦ advance x rest ys
        ])
        → Member z (x ∷ xs) × Member z (y ∷ ys)
    at_head Ordering.lt e k m = (inr (ih (y ∷ ys) m).0, (ih (y ∷ ys) m).1)
    at_head Ordering.eq e k (inl p) = (inl p, inl (p ∙ (text_compare_iff x y).0 e))
    at_head Ordering.eq e k (inr m) = (inr (ih ys m).0, inr (ih ys m).1)
    at_head Ordering.gt e k m = ((k m).0, inr (k m).1)

advance_complete :
    (z x : Text) (xs : List Text) (rest : List Text → List Text)
    → All (Below x) xs
    → ((ys : List Text) → IsSorted ys → Member z xs → Member z ys → Member z (rest ys))
    → (ys : List Text) → IsSorted ys
    → Member z (x ∷ xs)
    → Member z ys
    → Member z (advance x rest ys)
unfolding advance
advance_complete z x xs rest b ih [] s m n = absurd n
advance_complete z x xs rest b ih (y ∷ ys) (a, s) m n =
    at_head (text_compare x y) refl (advance_complete z x xs rest b ih ys s m) m n
  where
    at_head :
        (o : Ordering)
        → text_compare x y ≡ o
        → (Member z ys → Member z (advance x rest ys))
        → Member z (x ∷ xs)
        → Member z (y ∷ ys)
        → Member z (elim o [
          | Ordering.lt ↦ rest (y ∷ ys)
          | Ordering.eq ↦ x ∷ rest ys
          | Ordering.gt ↦ advance x rest ys
        ])
    at_head Ordering.lt e k (inl p) n =
        absurd (All-Member (Below y) (y ∷ ys) z (text_compare_irrefl y, a) n (rw p e))
    at_head Ordering.lt e k (inr m) n = ih (y ∷ ys) (a, s) m n
    at_head Ordering.eq e k (inl p) n = inl p
    at_head Ordering.eq e k (inr m) (inl q) = inl (q ∙ sym ((text_compare_iff x y).0 e))
    at_head Ordering.eq e k (inr m) (inr n) = inr (ih ys s m n)
    at_head Ordering.gt e k m (inl q) = absurd (
        All-Member (Below x) (x ∷ xs) z (text_compare_irrefl x, b) m
          (rw q (text_compare_flip x y e)))
    at_head Ordering.gt e k m (inr n) = k n

intersection_sound :
    (z : Text) (xs ys : List Text) → Member z (set_intersection xs ys) → Member z xs × Member z ys
unfolding set_intersection
intersection_sound z [] ys m = absurd m
intersection_sound z (x ∷ xs) ys m =
    advance_sound z x xs (set_intersection xs) (intersection_sound z xs) ys m

intersection_complete :
    (z : Text) (xs ys : List Text)
    → IsSorted xs
    → IsSorted ys
    → Member z xs
    → Member z ys
    → Member z (set_intersection xs ys)
unfolding set_intersection
intersection_complete z [] ys s t m n = absurd m
intersection_complete z (x ∷ xs) ys (b, s) t m n =
    advance_complete z x xs (set_intersection xs) b (λ zs u. intersection_complete z xs zs s u) ys t
      m n

-- A field is among the common fields exactly if both conditions refer to it.
pub common_fields_lem :
    (z : Text) (a b : List Text) → Member z (common_fields a b) ↔ (Member z a × Member z b)
unfolding common_fields
common_fields_lem z a b = (
  λ m.
      let (p, q) = intersection_sound z (sort a) (sort b) m in
      ((sort-Member z a).0 p, (sort-Member z b).0 q),
  λ m.
      intersection_complete z (sort a) (sort b) (sort-IsSorted a) (sort-IsSorted b)
        ((sort-Member z a).1 m.0) ((sort-Member z b).1 m.1),
)
