-- ===== src/Memory/Pool/Release.antt =====
-- src/memory/gpu_pool.cpp and pinned_pool.cpp: copies and the release of handles.
use surface_ai.Base.{
  if◌then◌else◌, ◌==◌, ◌+◌, Without, first, later, Without-All, length_distinct, ℕ, ◌-◌, ◌/◌, ◌%◌,
  ◌^◌, ◌<◌, ◌≡◌, refl, sym, ap, subst, ◌∙◌, inl, inr, false, List, ◌∷◌, In, length, ◌==◌,
  Bool-cases, arith,
}
use native.Mathlib.Nat.{mul-div_cancel}
use surface_ai.Core.Error.{ok}
use surface_ai.Memory.FreeList.{Node}
use surface_ai.Memory.Pool.{Pool, Handle, copy, drop, give_back, release}
use surface_ai.Memory.Pool.Handles.{uses, IsCounted, All-below}

Without-uses :
    (h : Handle) (hs hs' : List Handle) (n : Node)
    → Without h hs hs'
    → uses n hs ≡ (if h.node == n then 1 else 0) + uses n hs'
Without-uses h _ _ n (first hs) = refl
Without-uses h _ _ n (later g hs hs' w) = omega (arith, Without-uses h hs hs' n w)

-- The count after a copy and after a drop, where an int holds it.
counted_up : (k : ℕ) → k + 1 < 2 ^ 32 → (k + 1) % 2 ^ 32 ≡ k + 1
counted_up k l = omega (arith, l)

counted_down : (k : ℕ) → 0 < k → k < 2 ^ 32 → (k + (2 ^ 32 - 1)) % 2 ^ 32 ≡ k - 1
counted_down k l l' = omega (arith, l, l')

-- If the counts are right, the copy of a live handle keeps them right, unless its count is the greatest of
-- 32 bits.
pub copy-IsCounted :
    (h : Handle) (hs hs' : List Handle) (p : Pool)
    → Without h hs hs'
    → p.ref_count h.node + 1 < 2 ^ 32
    → IsCounted hs p
    → IsCounted (h ∷ hs) (copy h p)
copy-IsCounted h hs hs' p w small v =
    let mine = Without-All _ h hs hs' w v.own in
    record {
      sized = v.sized;
      few = v.few;
      fits = v.fits;
      own = (mine.0, v.own);
      alive = λ n. ground (arith, v.alive n, small, counted_up (p.ref_count h.node) small);
      counted = λ n. ground (
        arith,
        counted_up (p.ref_count h.node) small,
        v.counted n,
        ap (λ m. uses m hs) {x = h.node} {y = n},
        ap p.ref_count {x = h.node} {y = n},
      );
      distinct = v.distinct;
      free_slabs = λ n. (
        λ i. ground (arith, (v.free_slabs n).0 i, Without-uses h hs hs' n w),
        λ q. (v.free_slabs n).1 (q.0, omega (arith, q.1)),
      );
      available = v.available;
    }

drop-counted :
    (h : Handle) (hs hs' : List Handle) (p : Pool) (n : Node)
    → Without h hs hs'
    → IsCounted hs p
    → (drop h p).ref_count n ≡ uses n hs'
drop-counted h hs hs' p n w v =
    let used : 0 < p.ref_count h.node =
      ground (arith, v.counted h.node, Without-uses h hs hs' h.node w) in
    ground (
      arith,
      counted_down (p.ref_count h.node) used (v.alive h.node),
      v.counted n,
      Without-uses h hs hs' n w,
      ap p.ref_count {x = h.node} {y = n},
    )

drop-alive :
    (h : Handle) (p : Pool) (hs : List Handle)
    → IsCounted hs p
    → (n : Node) → (drop h p).ref_count n < 2 ^ 32
drop-alive h p hs v n = elim (Bool-cases (h.node == n)) [
  | inl e ↦ rw e (omega arith)
  | inr e ↦ rw e (v.alive n)
]

-- A slab that is not free leaves room for one more.
room_left :
    (n : Node) (hs : List Handle) (p : Pool)
    → IsCounted hs p
    → n < p.config.slab_count
    → (¬ In n p.free_list)
    → length p.free_list < p.config.slab_count
room_left n hs p v lt out = omega (
  arith,
  length_distinct p.config.slab_count (n ∷ p.free_list)
      (lt, All-below p.config.slab_count p.free_list (λ m i. ((v.free_slabs m).0 i).0))
      (out, v.distinct),
)

give_back-IsCounted :
    (h : Handle) (hs hs' : List Handle) (p : Pool)
    → Without h hs hs'
    → IsCounted hs p
    → p.ref_count h.node ≡ 1
    → (p' : Pool) × (give_back h.node (drop h p) ≡ ok p') × IsCounted hs' p'
give_back-IsCounted h hs hs' p w v last =
    let mine = Without-All _ h hs hs' w v.own in
    let none_left : uses h.node hs' ≡ 0 =
      ground (arith, v.counted h.node, Without-uses h hs hs' h.node w) in
    let out : ¬ In h.node p.free_list = λ i.
      let q = ((v.free_slabs h.node).0 i).1 in absurd (omega (arith, q, last, v.counted h.node)) in
    (
      record (drop h p) {
        free_list = h.node ∷ p.free_list;
        available_count = (p.available_count + 1) % 2 ^ 64;
      },
      ground (arith, mine.0.0),
      record {
        sized = v.sized;
        few = v.few;
        fits = v.fits;
        alive = drop-alive h p hs v;
        own = mine.1;
        counted = λ n. drop-counted h hs hs' p n w v;
        distinct = (out, v.distinct);
        free_slabs = λ n. (
          λ i. elim i [
            | inl x ↦ (
              subst (λ m. m < p.config.slab_count) (sym x) mine.0.0,
              ap (λ m. uses m hs') x ∙ none_left,
            )
            | inr j ↦
                let q = (v.free_slabs n).0 j in
                (q.0, ground (arith, q.1, Without-uses h hs hs' n w))
          ],
          λ q. elim (Bool-cases (h.node == n)) [
            | inl e ↦ inl (ground arith)
            | inr e ↦ inr ((v.free_slabs n).1 (q.0, ground (arith, q.1, Without-uses h hs hs' n w)))
          ],
        );
        available = omega (arith, v.available, v.few, room_left h.node hs p v mine.0.0 out);
      },
    )

-- If the counts are right, which includes that the size of the region does not wrap around, the release of
-- a live handle ends without a fault and keeps the counts right.
pub release-IsCounted :
    (h : Handle) (hs hs' : List Handle) (p : Pool)
    → Without h hs hs'
    → IsCounted hs p
    → (p' : Pool) × (release h p ≡ ok p') × IsCounted hs' p'
unfolding release
release-IsCounted h hs hs' p w v = elim (Bool-cases (p.ref_count h.node == 1)) [
  | inl e ↦
      let mine = Without-All _ h hs hs' w v.own in
      let index : h.slab_ptr / p.config.slab_size ≡ h.node =
        ap (λ x. x / p.config.slab_size) mine.0.1 ∙ mul-div_cancel h.node v.sized in
      let sized : (p.config.slab_size == 0) ≡ false = ground (arith, v.sized) in
      let (p', q, c) = give_back-IsCounted h hs hs' p w v (ground (arith, e)) in
      (p', rw (e, sized, index) q, c)
  | inr e ↦ (
    drop h p,
    rw e refl,
    record {
      sized = v.sized;
      few = v.few;
      fits = v.fits;
      alive = drop-alive h p hs v;
      own = (Without-All _ h hs hs' w v.own).1;
      counted = λ n. drop-counted h hs hs' p n w v;
      distinct = v.distinct;
      free_slabs = λ n. (
        λ i. let q = (v.free_slabs n).0 i in (q.0, ground (arith, q.1, Without-uses h hs hs' n w)),
        λ q. (v.free_slabs n).1 (
          q.0,
          ground (
            arith,
            q.1,
            e,
            Without-uses h hs hs' n w,
            v.counted n,
            ap p.ref_count {x = h.node} {y = n},
          ),
        ),
      );
      available = v.available;
    },
  )
]
