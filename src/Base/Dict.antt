-- ===== src/Base/Dict.antt =====
-- std::map<std::string, V>: the entries in the order of the keys. `find`, `insert_or_assign` and
-- `emplace` are the operations that the source uses.
use Prim.Native.Nat.{Ordering}
use mathlib.Core.Path.{◌≡◌, refl}
use mathlib.Core.List.{List, [], ◌∷◌}
use mathlib.Core.Logic.{inl, inr}
use mathlib.Core.Option.{Option, none, some}
use native.Mathlib.Omega.{arith}
use surface_ai.Base.Tests.{if◌then◌else◌, has_value, value_or, Option-cases, Bool-cases}
use surface_ai.Base.Text.{Text, text_eq, text_eq_iff, text_compare, text_compare_iff}

abbrev pub Dict : Type 0 → Type 0
Dict V = List (Text × V)

module _ {V : Type 0} where
  unfoldable pub find : Text → Dict V → Option V
  find k [] = none
  find k ((j, v) ∷ m) = if text_eq j k then some v else find k m

  unfoldable pub insert_or_assign : Text → V → Dict V → Dict V
  insert_or_assign k v [] = (k, v) ∷ []
  insert_or_assign k v ((j, w) ∷ m) = elim (text_compare k j) [
    | Ordering.lt ↦ (k, v) ∷ (j, w) ∷ m
    | Ordering.eq ↦ (k, v) ∷ m
    | Ordering.gt ↦ (j, w) ∷ insert_or_assign k v m
  ]

  -- A key that is present keeps its value.
  unfoldable pub emplace : Text → V → Dict V → Dict V
  emplace k v m = if has_value (find k m) then m else insert_or_assign k v m

  pub find-insert :
      (i k : Text) (v : V) (m : Dict V)
      → find i (insert_or_assign k v m) ≡ (if text_eq k i then some v else find i m)
  unfolding find insert_or_assign
  find-insert i k v [] = refl
  find-insert i k v ((j, w) ∷ m) = ground (
    arith,
    find-insert i k v m,
    text_compare_iff k j,
    text_eq_iff k j,
    text_eq_iff k i,
    text_eq_iff j i,
  )

  pub find-emplace :
      (i k : Text) (v : V) (m : Dict V)
      → find i (emplace k v m) ≡ (if text_eq k i then some (value_or (find k m) v) else find i m)
  unfolding emplace
  find-emplace i k v m = elim (Option-cases (find k m)) [
    | inl e ↦ rw e (find-insert i k v m)
    | inr (w, e) ↦ elim (Bool-cases (text_eq k i)) [
      | inl p ↦ rw (e, p) (rw (← (text_eq_iff k i).0 p) e)
      | inr p ↦ rw (e, p) refl
    ]
  ]
