-- ===== src/Memory/PoolTests.antt =====
-- Runs of the model of the pools, and their theorems at concrete inputs.
use surface_ai.Base.{first, ◌≡◌, refl, [], ◌∷◌, arith}
use surface_ai.Core.Error.{ok, fault}
use surface_ai.Memory.Pool.{MemoryPoolConfig, Pool, Handle, create, acquire, copy, release}
use surface_ai.Memory.Pool.Handles.{IsCounted, Acquired, acquire-Acquired}
use surface_ai.Memory.Pool.Release.{copy-IsCounted, release-IsCounted}
use surface_ai.Memory.Pool.New.{create-IsCounted}

abbrev two_slabs : MemoryPoolConfig
two_slabs = record { slab_size = 16; slab_count = 2 }

new-IsCounted : IsCounted [] (create two_slabs)
new-IsCounted = create-IsCounted two_slabs (omega arith) (omega arith)

acquire-Acquired_example : Acquired 8 [] (create two_slabs) (acquire 8 (create two_slabs))
acquire-Acquired_example = acquire-Acquired 8 [] (create two_slabs) new-IsCounted

abbrev taken : Pool
taken = (acquire 8 (create two_slabs)).1

abbrev slab_0 : Handle
slab_0 = record { slab_ptr = 0; node = 0 }

taken-IsCounted : IsCounted (slab_0 ∷ []) taken
unfolding acquire create
taken-IsCounted = (acquire-Acquired 8 [] (create two_slabs) new-IsCounted).2

release-IsCounted_example : (p' : Pool) × (release slab_0 taken ≡ ok p') × IsCounted [] p'
release-IsCounted_example =
    release-IsCounted slab_0 (slab_0 ∷ []) [] taken (first []) taken-IsCounted

copy-IsCounted_example : IsCounted (slab_0 ∷ slab_0 ∷ []) (copy slab_0 taken)
unfolding acquire create
copy-IsCounted_example =
    copy-IsCounted slab_0 (slab_0 ∷ []) [] taken (first []) (omega arith) taken-IsCounted

-- The release of a handle of a pool with slabs of no bytes divides by zero.
abbrev empty_slabs : MemoryPoolConfig
empty_slabs = record { slab_size = 0; slab_count = 1 }

empty_slab_faults : release slab_0 (acquire 0 (create empty_slabs)).1 ≡ fault
unfolding acquire release create
empty_slab_faults = refl
