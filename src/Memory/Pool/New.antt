-- ===== src/Memory/Pool/New.antt =====
-- src/memory/gpu_pool.cpp and pinned_pool.cpp: the pool that Create returns.
use surface_ai.Base.{
  ◌*◌, AreDistinct, ℕ, zero, suc, ◌+◌, ◌^◌, ◌≤◌, ◌<◌, ◌≡◌, ◌↔◌, refl, sym, inl, inr, [], In, length,
  ◌==◌, Bool-cases, arith,
}
use native.Mathlib.Nat.{mul-le-mul_left}
use surface_ai.Memory.Pool.{MemoryPoolConfig, nodes_from, create}
use surface_ai.Memory.Pool.Handles.{IsCounted}

below-In : (i k n : ℕ) → In n (nodes_from i k) ↔ ((i ≤ n) × (n < i + k))
below-In i zero n = (λ m. absurd m, λ q. absurd (omega (arith, q.0, q.1)))
below-In i (suc k) n = (
  λ m. elim m [
    | inl e ↦ (omega (arith, e), omega (arith, e))
    | inr r ↦ let q = (below-In (suc i) k n).0 r in (omega (arith, q.0), omega (arith, q.1))
  ],
  λ q. elim (Bool-cases (n == i)) [
    | inl e ↦ inl (ground arith)
    | inr e ↦ inr ((below-In (suc i) k n).1 (ground (arith, q.0), omega (arith, q.1)))
  ],
)

nodes_distinct : (i k : ℕ) → AreDistinct (nodes_from i k)
nodes_distinct i zero = tt
nodes_distinct i (suc k) =
    (λ m. absurd (omega (arith, ((below-In (suc i) k i).0 m).0)), nodes_distinct (suc i) k)

length-nodes : (i k : ℕ) → length (nodes_from i k) ≡ k
length-nodes i zero = refl
length-nodes i (suc k) = omega (arith, length-nodes (suc i) k)

-- A new pool has all its slabs free, if slabs have bytes and the size of the region does not wrap around.
pub create-IsCounted :
    (config : MemoryPoolConfig)
    → 0 < config.slab_size
    → config.slab_count * config.slab_size < 2 ^ 64
    → IsCounted [] (create config)
unfolding create
create-IsCounted config sized fits = record {
  sized = sized;
  few = omega (arith, mul-le-mul_left {m = 1} {n = config.slab_size} config.slab_count sized, fits);
  fits = fits;
  alive = λ n. omega arith;
  own = tt;
  counted = λ n. refl;
  distinct = nodes_distinct 0 config.slab_count;
  free_slabs = λ n. (
    λ i. (omega (arith, ((below-In 0 config.slab_count n).0 i).1), refl),
    λ q. (below-In 0 config.slab_count n).1 (omega arith, omega (arith, q.0)),
  );
  available = sym (length-nodes 0 config.slab_count);
}
