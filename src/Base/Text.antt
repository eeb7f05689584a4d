-- ===== src/Base/Text.antt =====
-- std::string as the list of its characters: equality, the order of std::less, and decimal printing.
use Prim.Native.Nat.{ℕ, zero, suc, ◌+◌, ◌/◌, ◌%◌, compare, Ordering}
use Prim.Native.Char.{code}
use Prim.Native.String.{String}
use mathlib.Core.Path.{◌≡◌, refl}
use mathlib.Core.Logic.{◌↔◌, ◌≢◌}
use mathlib.Core.Bool.{Bool, true, false, ◌&&◌}
use mathlib.Core.List.{List, [], ◌∷◌, ◌++◌}
use native.Mathlib.Omega.{arith}
use surface_ai.Base.Tests.{◌==◌, ltb, if◌then◌else◌}

abbrev pub Text : Type 0
Text = List ℕ

-- The code points of a literal.
abbrev pub text : String → Text
text String.[] = []
text (String.◌∷◌ c s) = code c ∷ text s

unfoldable pub text_eq : Text → Text → Bool
text_eq [] [] = true
text_eq [] (b ∷ ys) = false
text_eq (a ∷ xs) [] = false
text_eq (a ∷ xs) (b ∷ ys) = (a == b) && text_eq xs ys

-- Whether the second text begins with the first.
unfoldable pub starts_with : Text → Text → Bool
starts_with [] s = true
starts_with (c ∷ cs) [] = false
starts_with (c ∷ cs) (b ∷ bs) = (c == b) && starts_with cs bs

unfoldable pub text_compare : Text → Text → Ordering
text_compare [] [] = Ordering.eq
text_compare [] (b ∷ ys) = Ordering.lt
text_compare (a ∷ xs) [] = Ordering.gt
text_compare (a ∷ xs) (b ∷ ys) = elim (compare a b) [
  | Ordering.lt ↦ Ordering.lt
  | Ordering.eq ↦ text_compare xs ys
  | Ordering.gt ↦ Ordering.gt
]

-- std::to_string of an unsigned integer; `f` bounds the number of digits from above.
unfoldable pub digits : ℕ → ℕ → Text
digits zero n = []
digits (suc f) n =
    let front = digits f (n / 10) in if ltb n 10 then (48 + n) ∷ [] else front ++ (48 + n % 10) ∷ []

unfoldable pub to_string : ℕ → Text
unfolding digits
to_string n = digits (suc n) n

text_eq→eq : (s t : Text) → text_eq s t ≡ true → s ≡ t
unfolding text_eq
text_eq→eq [] [] h = refl
text_eq→eq [] (b ∷ ys) h = cc
text_eq→eq (a ∷ xs) [] h = cc
text_eq→eq (a ∷ xs) (b ∷ ys) h = ground (arith, text_eq→eq xs ys)

pub text_eq_refl : (s : Text) → text_eq s s ≡ true
unfolding text_eq
text_eq_refl [] = refl
text_eq_refl (a ∷ xs) = ground (arith, text_eq_refl xs)

pub text_eq_iff : (s t : Text) → (text_eq s t ≡ true) ↔ (s ≡ t)
text_eq_iff s t = (text_eq→eq s t, λ e. rw e (text_eq_refl t))

text_compare→eq : (s t : Text) → text_compare s t ≡ Ordering.eq → s ≡ t
unfolding text_compare
text_compare→eq [] [] h = refl
text_compare→eq [] (b ∷ ys) h = cc
text_compare→eq (a ∷ xs) [] h = cc
text_compare→eq (a ∷ xs) (b ∷ ys) h = ground (arith, text_compare→eq xs ys)

text_compare_self : (s : Text) → text_compare s s ≡ Ordering.eq
unfolding text_compare
text_compare_self [] = refl
text_compare_self (a ∷ xs) = ground (arith, text_compare_self xs)

pub text_compare_iff : (s t : Text) → (text_compare s t ≡ Ordering.eq) ↔ (s ≡ t)
text_compare_iff s t = (text_compare→eq s t, λ e. rw e (text_compare_self t))

pub text_compare_lt_trans :
    (s t u : Text)
    → text_compare s t ≡ Ordering.lt
    → text_compare t u ≡ Ordering.lt
    → text_compare s u ≡ Ordering.lt
unfolding text_compare
text_compare_lt_trans [] [] u h k = absurd cc
text_compare_lt_trans [] (b ∷ ys) [] h k = absurd cc
text_compare_lt_trans [] (b ∷ ys) (c ∷ zs) h k = refl
text_compare_lt_trans (a ∷ xs) [] u h k = absurd cc
text_compare_lt_trans (a ∷ xs) (b ∷ ys) [] h k = absurd cc
text_compare_lt_trans (a ∷ xs) (b ∷ ys) (c ∷ zs) h k =
    ground (arith, text_compare_lt_trans xs ys zs)

pub text_compare_flip :
    (s t : Text) → text_compare s t ≡ Ordering.gt → text_compare t s ≡ Ordering.lt
unfolding text_compare
text_compare_flip [] [] h = absurd cc
text_compare_flip [] (b ∷ ys) h = absurd cc
text_compare_flip (a ∷ xs) [] h = refl
text_compare_flip (a ∷ xs) (b ∷ ys) h = ground (arith, text_compare_flip xs ys)

pub text_compare_irrefl : (s : Text) → text_compare s s ≢ Ordering.lt
text_compare_irrefl s h = absurd (cc (h, text_compare_self s))
