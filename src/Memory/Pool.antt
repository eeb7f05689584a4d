-- ===== src/Memory/Pool.antt =====
-- include/sai/memory/memory_pool.h, pooled_ptr.h, src/memory/gpu_pool.cpp and pinned_pool.cpp, which
-- differ in the kind of memory only. Operations are whole, one after the other. An address of a slab is
-- its distance from the region, modulo 2 ^ 64, and a node of the free list is its index. A reference
-- count is the 32 bits of an int, which wrap around.
pub mod Handles
pub mod Release
pub mod New
use surface_ai.Base.{
  ℕ, zero, suc, ◌+◌, ◌-◌, ◌*◌, ◌/◌, ◌%◌, ◌^◌, Bool, true, false, Option, none, some, List, [], ◌∷◌,
  ltb, leb, ◌==◌, if◌then◌else◌,
}
use surface_ai.Base.Text.{text}
use surface_ai.Core.Error.{ErrorCode, Result, ok, err, fault, fail}
use surface_ai.Memory.FreeList.{Node, set}

pub record MemoryPoolConfig : Type 0 where
  pub slab_size : ℕ
  pub slab_count : ℕ

pub record Pool : Type 0 where
  pub config : MemoryPoolConfig
  pub free_list : List Node
  pub available_count : ℕ
  pub ref_count : Node → ℕ

-- A PooledPtr that is not empty; the pool itself is its owner.
pub record Handle : Type 0 where
  pub slab_ptr : ℕ
  pub node : Node

-- The free list of Create: the nodes in order.
abbrev pub nodes_from : ℕ → ℕ → List Node
nodes_from i zero = []
nodes_from i (suc k) = i ∷ nodes_from (suc i) k

unfoldable pub create : MemoryPoolConfig → Pool
create config = record {
  config = config;
  free_list = nodes_from 0 config.slab_count;
  available_count = config.slab_count;
  ref_count = λ n. 0;
}

-- Acquire: the result, and the pool afterwards. The count of slabs wraps around.
unfoldable pub acquire : ℕ → Pool → Result Handle × Pool
acquire bytes p =
    if ltb p.config.slab_size bytes
    then (
      fail ErrorCode.memory_request_exceeds_slab_size (text "requested bytes exceed slab_size"),
      p,
    )
    else elim p.free_list [
      | [] ↦ (fail ErrorCode.memory_pool_exhausted (text "free list is empty"), p)
      | node ∷ rest ↦ (
        ok (record { slab_ptr = (node * p.config.slab_size) % 2 ^ 64; node = node }),
        record p {
          free_list = rest;
          available_count = (p.available_count + (2 ^ 64 - 1)) % 2 ^ 64;
          ref_count = set p.ref_count node 1;
        },
      )
    ]

-- The copy of a handle.
abbrev pub copy : Handle → Pool → Pool
copy h p = record p { ref_count = set p.ref_count h.node ((p.ref_count h.node + 1) % 2 ^ 32) }

abbrev pub drop : Handle → Pool → Pool
drop h p = record p {
  ref_count = set p.ref_count h.node ((p.ref_count h.node + (2 ^ 32 - 1)) % 2 ^ 32);
}

-- PushFreeList of nodes_[index], and the count of slabs.
abbrev pub give_back : ℕ → Pool → Result Pool
give_back index p =
    if ltb index p.config.slab_count
    then ok (record p {
      free_list = index ∷ p.free_list;
      available_count = (p.available_count + 1) % 2 ^ 64;
    })
    else fault

-- Release of a handle. A division by zero and an index out of range are faults.
unfoldable pub release : Handle → Pool → Result Pool
release h p =
    if p.ref_count h.node == 1
    then if p.config.slab_size == 0
      then fault
      else give_back (h.slab_ptr / p.config.slab_size) (drop h p)
    else ok (drop h p)
