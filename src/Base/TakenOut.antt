-- ===== src/Base/TakenOut.antt =====
-- A list with one occurrence of an element taken out.
use mathlib.Core.Path.{◌≡◌, refl}
use mathlib.Core.List.{List, ◌∷◌}
use mathlib.Core.Logic.{◌⊎◌, inl, inr}
use native.Mathlib.Omega.{arith}
use Prim.Native.Nat.{suc}
use surface_ai.Base.Lists.{length, All, In}

pub data Without {A : Type 0} (x : A) : List A → List A → Type 0 where
  first : (xs : List A) → Without x (x ∷ xs) xs
  later : (y : A) (xs ys : List A) → Without x xs ys → Without x (y ∷ xs) (y ∷ ys)

module _ {A : Type 0} where
  pub Without-All :
      (P : A → Type 0) (x : A) (xs ys : List A) → Without x xs ys → All P xs → P x × All P ys
  Without-All P x _ _ (first xs) a = a
  Without-All P x _ _ (later y xs ys w) a =
      let (p, rest) = Without-All P x xs ys w a.1 in (p, (a.0, rest))

  pub Without-length : (x : A) (xs ys : List A) → Without x xs ys → length xs ≡ suc (length ys)
  Without-length x _ _ (first xs) = refl
  Without-length x _ _ (later y xs ys w) = omega (arith, Without-length x xs ys w)

  pub Without-In : (x z : A) (xs ys : List A) → Without x xs ys → In z ys → In z xs
  Without-In x z _ _ (first xs) m = inr m
  Without-In x z _ _ (later y xs ys w) m = elim m [
    | inl e ↦ inl e
    | inr n ↦ inr (Without-In x z xs ys w n)
  ]

  pub In-Without : (x z : A) (xs ys : List A) → Without x xs ys → In z xs → (z ≡ x) ⊎ In z ys
  In-Without x z _ _ (first xs) m = m
  In-Without x z _ _ (later y xs ys w) m = elim m [
    | inl e ↦ inr (inl e)
    | inr n ↦ elim (In-Without x z xs ys w n) [ inl e ↦ inl e | inr k ↦ inr (inr k) ]
  ]

  pub Without-self : (x : A) (xs ys : List A) → Without x xs ys → In x xs
  Without-self x _ _ (first xs) = inl refl
  Without-self x _ _ (later y xs ys w) = inr (Without-self x xs ys w)
