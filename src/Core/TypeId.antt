-- ===== src/Core/TypeId.antt =====
-- include/sai/core/type_id.h: the 64-bit FNV-1a hash that makes type ids of names.
use Prim.Native.Nat.{bit_xor}
use surface_ai.Base.{ℕ, ◌*◌, ◌%◌, ◌^◌, [], ◌∷◌}
use surface_ai.Base.Text.{Text}

abbrev pub TypeId : Type 0
TypeId = ℕ

-- The loop of Fnv1aHash from the value `hash`.
unfoldable pub hash_from : ℕ → Text → TypeId
hash_from hash [] = hash
hash_from hash (ch ∷ name) = hash_from (bit_xor hash (ch % 256) * 1099511628211 % 2 ^ 64) name

unfoldable pub fnv1a_hash : Text → TypeId
unfolding hash_from
fnv1a_hash name = hash_from 14695981039346656037 name
