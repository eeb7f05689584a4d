-- ===== src/Base/Distinct.antt =====
-- Lists of numbers without repetition.
use Prim.Native.Nat.{ℕ, zero, suc, ◌+◌, ◌≤◌, ◌<◌}
use mathlib.Core.Path.{◌≡◌, refl, ap}
use mathlib.Core.List.{List, [], ◌∷◌}
use mathlib.Core.Logic.{inl, inr}
use native.Mathlib.Omega.{arith}
use surface_ai.Base.Tests.{◌==◌, ltb, if◌then◌else◌, Bool-cases}
use surface_ai.Base.Lists.{length, All, In}

abbrev pub AreDistinct : List ℕ → Type 0
AreDistinct [] = Unit
AreDistinct (n ∷ ns) = (¬ In n ns) × AreDistinct ns

abbrev occurs : ℕ → List ℕ → ℕ
occurs n [] = 0
occurs n (x ∷ xs) = (if x == n then 1 else 0) + occurs n xs

-- The occurrences of the numbers below `k`.
abbrev total : ℕ → List ℕ → ℕ
total zero xs = 0
total (suc k) xs = occurs k xs + total k xs

total-cons : (k x : ℕ) (xs : List ℕ) → total k (x ∷ xs) ≡ (if ltb x k then 1 else 0) + total k xs
total-cons zero x xs = ground arith
total-cons (suc k) x xs = ground (arith, total-cons k x xs)

total_none : (k : ℕ) → total k [] ≡ 0
total_none zero = refl
total_none (suc k) = omega (arith, total_none k)

total-length : (k : ℕ) (xs : List ℕ) → All (λ x. x < k) xs → total k xs ≡ length xs
total-length k [] a = total_none k
total-length k (x ∷ xs) a = ground (arith, total-cons k x xs, total-length k xs a.1, a.0)

occurs_out : (n : ℕ) (xs : List ℕ) → (¬ In n xs) → occurs n xs ≡ 0
occurs_out n [] out = refl
occurs_out n (x ∷ xs) out = elim (Bool-cases (x == n)) [
  | inl e ↦ absurd (out (inl (ground arith)))
  | inr e ↦ ground (arith, e, occurs_out n xs (λ i. out (inr i)))
]

occurs_once : (n : ℕ) (xs : List ℕ) → AreDistinct xs → occurs n xs ≤ 1
occurs_once n [] d = omega arith
occurs_once n (x ∷ xs) d = elim (Bool-cases (x == n)) [
  | inl e ↦
      let e' : x ≡ n = ground arith in ground (arith, occurs_out x xs d.0, ap (λ m. occurs m xs) e')
  | inr e ↦ ground (arith, e, occurs_once n xs d.1)
]

total-le : (k : ℕ) (xs : List ℕ) → AreDistinct xs → total k xs ≤ k
total-le zero xs d = omega arith
total-le (suc k) xs d = omega (arith, occurs_once k xs d, total-le k xs d)

pub length_distinct : (k : ℕ) (xs : List ℕ) → All (λ x. x < k) xs → AreDistinct xs → length xs ≤ k
length_distinct k xs a d = omega (arith, total-length k xs a, total-le k xs d)
