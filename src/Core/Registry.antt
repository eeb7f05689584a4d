-- ===== src/Core/Registry.antt =====
-- include/sai/core/registry.h: instances under type ids. Each operation holds the lock to its end, so
-- it is one step.
use surface_ai.Base.{◌≡◌, refl, none, some, has_value, if◌then◌else◌}
use surface_ai.Base.Text.{text}
use surface_ai.Base.Table.{Table, lookup, assign}
use surface_ai.Core.Error.{ErrorCode, Result, ok, fail}
use surface_ai.Core.TypeId.{TypeId}

module _ {A : Type 0} where
  -- Register: the result, and the entries afterwards.
  unfoldable pub register : TypeId → A → Table A → Result (Unit {0}) × Table A
  register id instance_ entries =
      if has_value (lookup id entries)
      then (fail ErrorCode.core_type_already_registered (text "type already registered"), entries)
      else (ok tt, assign id instance_ entries)

  unfoldable pub resolve : TypeId → Table A → Result A
  resolve id entries = elim (lookup id entries) [
    | none ↦ fail ErrorCode.core_type_not_found (text "type not found")
    | some a ↦ ok a
  ]

  pub resolve_known :
      (id : TypeId) (a : A) (m : Table A) → lookup id m ≡ some a → resolve id m ≡ ok a
  unfolding resolve
  resolve_known id a m e = rw (resolve, e) refl

  pub resolve_unknown :
      (id : TypeId) (m : Table A)
      → lookup id m ≡ none
      → resolve id m ≡ fail ErrorCode.core_type_not_found (text "type not found")
  unfolding resolve
  resolve_unknown id m e = rw (resolve, e) refl

  pub register_new :
      (id : TypeId) (a : A) (m : Table A)
      → lookup id m ≡ none
      → register id a m ≡ (ok tt, assign id a m)
  unfolding register
  register_new id a m e = rw (register, e) refl
