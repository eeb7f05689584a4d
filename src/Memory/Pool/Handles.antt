-- ===== src/Memory/Pool/Handles.antt =====
-- src/memory/gpu_pool.cpp and pinned_pool.cpp: the slabs of a pool and the handles that are alive.
use surface_ai.Base.{
  AreDistinct, length_distinct, ℕ, ◌+◌, ◌-◌, ◌*◌, ◌%◌, ◌^◌, ◌≤◌, ◌<◌, ◌≡◌, ◌≢◌, ◌↔◌, refl, sym, ap,
  subst, inl, inr, List, [], ◌∷◌, All, In, length, ltb, ◌==◌, if◌then◌else◌, Bool-cases, arith,
}
use surface_ai.Base.Text.{text}
use surface_ai.Core.Error.{ErrorCode, Result, ok, err, fault, fail}
use surface_ai.Memory.FreeList.{Node, set}
use native.Mathlib.Nat.{mod-eq_of_lt, mul-le-mul_right}
use surface_ai.Memory.Pool.{MemoryPoolConfig, Pool, Handle, acquire}

-- How many of the handles refer to a node.
abbrev pub uses : Node → List Handle → ℕ
uses n [] = 0
uses n (h ∷ hs) = (if h.node == n then 1 else 0) + uses n hs

-- The live handles of a pool whose slabs all have an address: counts are right, and the free slabs are
-- those without a handle.
pub record IsCounted (hs : List Handle) (p : Pool) : Type 0 where
  pub sized : 0 < p.config.slab_size
  pub few : p.config.slab_count < 2 ^ 64
  pub fits : p.config.slab_count * p.config.slab_size < 2 ^ 64
  pub own :
      All (λ h. (h.node < p.config.slab_count) × (h.slab_ptr ≡ h.node * p.config.slab_size)) hs
  pub counted : (n : Node) → p.ref_count n ≡ uses n hs
  pub alive : (n : Node) → p.ref_count n < 2 ^ 32
  pub distinct : AreDistinct p.free_list
  pub free_slabs : (n : Node) → In n p.free_list ↔ ((n < p.config.slab_count) × (uses n hs ≡ 0))
  pub available : p.available_count ≡ length p.free_list

-- What the pool gives back to the caller of Acquire.
abbrev pub Acquired : ℕ → List Handle → Pool → Result Handle × Pool → Type 0
Acquired bytes hs p (ok h, p') =
    (bytes ≤ p.config.slab_size) × (uses h.node hs ≡ 0) × IsCounted (h ∷ hs) p'
Acquired bytes hs p (err e, p') = (p' ≡ p)
Acquired bytes hs p (fault, p') = ⊥

pub All-below : (k : ℕ) (xs : List Node) → ((n : Node) → In n xs → n < k) → All (λ n. n < k) xs
All-below k [] f = tt
All-below k (x ∷ xs) f = (f x (inl refl), All-below k xs (λ n i. f n (inr i)))

room : (hs : List Handle) (p : Pool) → IsCounted hs p → length p.free_list ≤ p.config.slab_count
room hs p v =
    length_distinct p.config.slab_count p.free_list
      (All-below p.config.slab_count p.free_list (λ n i. ((v.free_slabs n).0 i).0)) v.distinct

-- The address of a slab does not wrap around if the last one does not.
in_region :
    (node : Node) (config : MemoryPoolConfig)
    → node < config.slab_count
    → config.slab_count * config.slab_size < 2 ^ 64
    → (node * config.slab_size) % 2 ^ 64 ≡ node * config.slab_size
in_region node config lt fits = mod-eq_of_lt (
    omega (
      arith,
      mul-le-mul_right {m = node} {n = config.slab_count} config.slab_size (omega (arith, lt)),
      fits,
    ))

pop-IsCounted :
    (hs : List Handle) (p : Pool) (node : Node) (rest : List Node)
    → IsCounted hs p
    → p.free_list ≡ node ∷ rest
    → IsCounted
        (record { slab_ptr = (node * p.config.slab_size) % 2 ^ 64; node = node } ∷ hs)
        (record p {
          free_list = rest;
          available_count = (p.available_count + (2 ^ 64 - 1)) % 2 ^ 64;
          ref_count = set p.ref_count node 1;
        })
pop-IsCounted hs p node rest v e =
    let ds : AreDistinct (node ∷ rest) = subst AreDistinct e v.distinct in
    let at_n = (v.free_slabs node).0 (subst (λ xs. In node xs) (sym e) (inl refl)) in
    record {
      sized = v.sized;
      few = v.few;
      fits = v.fits;
      own = ((at_n.0, in_region node p.config at_n.0 v.fits), v.own);
      alive = λ n. ground (arith, v.alive n);
      counted = λ n. ground (arith, v.counted n, at_n.1, ap (λ m. uses m hs) {x = node} {y = n});
      distinct = ds.1;
      free_slabs = λ n. (
        λ i.
            let old = (v.free_slabs n).0 (subst (λ xs. In n xs) (sym e) (inr i)) in
            let ne : node ≢ n = λ q. ds.0 (subst (λ x. In x rest) (sym q) i) in
            (old.0, ground (arith, old.1, ne)),
        λ q.
            let i : In n (node ∷ rest) =
              subst (λ xs. In n xs) e ((v.free_slabs n).1 (q.0, omega (arith, q.1))) in
            elim i [ inl x ↦ absurd (ground (arith, q.1, x)) | inr j ↦ j ],
      );
      available = omega (arith, v.available, ap length e, v.few, room hs p v);
    }

-- With the counts right, which includes that the size of the region does not wrap around, Acquire fails
-- without a change, or gives a slab that has no handle and keeps the counts right.
pub acquire-Acquired :
    (bytes : ℕ) (hs : List Handle) (p : Pool)
    → IsCounted hs p
    → Acquired bytes hs p (acquire bytes p)
unfolding acquire
acquire-Acquired bytes hs p v = elim (Bool-cases (ltb p.config.slab_size bytes)) [
  | inl e ↦ rw e refl
  | inr e ↦ rw e (from (ground (arith, e)) p.free_list refl)
]
  where
    from :
        bytes ≤ p.config.slab_size
        → (ns : List Node) → p.free_list ≡ ns
        → Acquired bytes hs p (elim ns [
          | [] ↦ (fail ErrorCode.memory_pool_exhausted (text "free list is empty"), p)
          | node ∷ rest ↦ (
            ok (record { slab_ptr = (node * p.config.slab_size) % 2 ^ 64; node = node }),
            record p {
              free_list = rest;
              available_count = (p.available_count + (2 ^ 64 - 1)) % 2 ^ 64;
              ref_count = set p.ref_count node 1;
            },
          )
        ])
    from le [] q = refl
    from le (node ∷ rest) q = (
      le,
      ((v.free_slabs node).0 (subst (λ xs. In node xs) (sym q) (inl refl))).1,
      pop-IsCounted hs p node rest v q,
    )
