-- ===== src/Base/Table.antt =====
-- std::unordered_map with integer keys, as the list of its entries; what the source reads off the
-- order of the entries is stated for every order.
use Prim.Native.Nat.{ℕ}
use mathlib.Core.Path.{◌≡◌, refl}
use mathlib.Core.List.{List, [], ◌∷◌}
use mathlib.Core.Option.{Option, none, some}
use native.Mathlib.Omega.{arith}
use surface_ai.Base.Tests.{◌==◌, if◌then◌else◌, has_value}

abbrev pub Table : Type 0 → Type 0
Table V = List (ℕ × V)

module _ {V : Type 0} where
  unfoldable pub lookup : ℕ → Table V → Option V
  lookup k [] = none
  lookup k ((j, v) ∷ m) = if j == k then some v else lookup k m

  -- `operator[]=` and `insert_or_assign`.
  unfoldable pub assign : ℕ → V → Table V → Table V
  assign k v [] = (k, v) ∷ []
  assign k v ((j, w) ∷ m) = if j == k then (j, v) ∷ m else (j, w) ∷ assign k v m

  -- `emplace`: a key that is present keeps its value.
  unfoldable pub add_new : ℕ → V → Table V → Table V
  unfolding lookup assign
  add_new k v m = if has_value (lookup k m) then m else assign k v m

  pub lookup-assign :
      (i k : ℕ) (v : V) (m : Table V)
      → lookup i (assign k v m) ≡ (if k == i then some v else lookup i m)
  unfolding lookup assign
  lookup-assign i k v [] = refl
  lookup-assign i k v ((j, w) ∷ m) = ground (arith, lookup-assign i k v m)

  pub lookup-add_new :
      (i k : ℕ) (v : V) (m : Table V)
      → lookup k m ≡ none
      → lookup i (add_new k v m) ≡ (if k == i then some v else lookup i m)
  unfolding add_new
  lookup-add_new i k v m e = rw e (lookup-assign i k v m)

  -- `erase`.
  unfoldable pub erase : ℕ → Table V → Table V
  erase k [] = []
  erase k ((j, w) ∷ m) = let rest = erase k m in if j == k then rest else (j, w) ∷ rest

  pub lookup-erase :
      (i k : ℕ) (m : Table V) → lookup i (erase k m) ≡ (if k == i then none else lookup i m)
  unfolding lookup erase
  lookup-erase i k [] = ground arith
  lookup-erase i k ((j, w) ∷ m) = ground (arith, lookup-erase i k m)
