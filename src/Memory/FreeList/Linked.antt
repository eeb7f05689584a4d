-- ===== src/Memory/FreeList/Linked.antt =====
-- include/sai/memory/free_list.h: what the list and the threads' variables are in every reachable state.
use surface_ai.Base.{
  AreDistinct, ℕ, ◌≤◌, ◌≡◌, ◌≢◌, ◌↔◌, refl, sym, ap, subst, ◌∙◌, inl, inr, true, ◌&&◌, Option, none,
  some, List, [], ◌∷◌, In, ◌==◌, Bool-cases, arith,
}
use surface_ai.Memory.FreeList.{
  Node, Thread, TaggedHead, Local, idle, popping, pop_read, pushing, push_written, free, held,
  pushed_by, System, set, pointer_eq, head_eq, at, push_free_list,
}

-- The nodes on the way along `next`.
abbrev pub Chain : (Node → Option Node) → Option Node → List Node → Type 0
Chain next p [] = p ≡ none
Chain next p (n ∷ ns) = (p ≡ some n) × Chain next (next n) ns

-- A head that was read is not newer than the list, and if it has the tag of the list, it is its head.
abbrev pub IsSeen : System → TaggedHead → Type 0
IsSeen s old = (old.tag ≤ s.exchanges) × (old.tag ≡ s.exchanges → s.head ≡ old)

abbrev pub Knows : System → Thread → Local → Type 0
Knows s t idle = Unit
Knows s t (popping old) = IsSeen s old
Knows s t (pop_read n tag nx) =
    IsSeen s (record { pointer = some n; tag = tag }) × (tag ≡ s.exchanges → s.next n ≡ nx)
Knows s t (pushing n old) = IsSeen s old × (s.place n ≡ pushed_by t)
Knows s t (push_written n old) = IsSeen s old × (s.place n ≡ pushed_by t) × (s.next n ≡ old.pointer)

pub record IsLinked (s : System) : Type 0 where
  pub nodes : List Node
  pub chain : Chain s.next s.head.pointer nodes
  pub distinct : AreDistinct nodes
  pub free_nodes : (n : Node) → In n nodes ↔ (s.place n ≡ free)
  pub tagged : s.head.tag ≡ s.exchanges
  pub locals : (t : Thread) → Knows s t (s.local_of t)

Chain-set :
    (next : Node → Option Node) (n : Node) (v p : Option Node) (ns : List Node)
    → ¬ In n ns
    → Chain next p ns
    → Chain (set next n v) p ns
Chain-set next n v p [] out c = c
Chain-set next n v p (m ∷ ns) out c = (
  c.0,
  subst (λ q. Chain (set next n v) q ns) (ground (arith, λ (e : n ≡ m). out (inl e)))
      (Chain-set next n v (next m) ns (λ i. out (inr i)) c.1),
)

pub first-In :
    (next : Node → Option Node) (p : Option Node) (m : Node) (ns : List Node)
    → Chain next p ns
    → p ≡ some m
    → In m ns
first-In next p m [] c e = absurd (cc (c, e))
first-In next p m (n ∷ ns) c e = inl (ground (arith, c.0, e))

-- What a thread knows stays true in a step of another one.
pub record Spares (u : Thread) (s s' : System) : Type 0 where
  pub seen : (old : TaggedHead) → IsSeen s old → IsSeen s' old
  pub placed : (n : Node) → s.place n ≡ pushed_by u → s'.place n ≡ pushed_by u
  pub written : (n : Node) → s.place n ≡ pushed_by u → s'.next n ≡ s.next n
  pub read :
      (n : Node) (tag : ℕ) (nx : Option Node)
      → IsSeen s (record { pointer = some n; tag = tag })
      → (tag ≡ s.exchanges → s.next n ≡ nx)
      → tag ≡ s'.exchanges
      → s'.next n ≡ nx

Knows-Spares : (u : Thread) (s s' : System) (l : Local) → Spares u s s' → Knows s u l → Knows s' u l
Knows-Spares u s s' idle p k = tt
Knows-Spares u s s' (popping old) p k = p.seen old k
Knows-Spares u s s' (pop_read n tag nx) p k = (p.seen _ k.0, p.read n tag nx k.0 k.1)
Knows-Spares u s s' (pushing n old) p k = (p.seen old k.0, p.placed n k.1)
Knows-Spares u s s' (push_written n old) p k =
    (p.seen old k.0, p.placed n k.1, p.written n k.1 ∙ k.2)

-- The threads after a step of `t`, which stands at `l` then.
pub step-locals :
    (s s' : System) (t : Thread) (l : Local)
    → s'.local_of ≡ set s.local_of t l
    → Knows s' t l
    → ((u : Thread) → t ≢ u → Spares u s s')
    → ((u : Thread) → Knows s u (s.local_of u))
    → (u : Thread) → Knows s' u (s'.local_of u)
step-locals s s' t l e k others v u =
    subst (λ (f : Thread → Local). Knows s' u (f u)) (sym e)
      (elim (Bool-cases (t == u)) [
        | inl p ↦ rw p (subst (λ x. Knows s' x l) (ground arith) k)
        | inr p ↦ rw p (Knows-Spares u s s' (s.local_of u) (others u (ground arith)) (v u))
      ])

pub at-IsLinked :
    (s : System) (t : Thread) (l : Local) → IsLinked s → Knows s t l → IsLinked (at t l s)
at-IsLinked s t l v k = record {
  nodes = v.nodes;
  chain = v.chain;
  distinct = v.distinct;
  free_nodes = v.free_nodes;
  tagged = v.tagged;
  locals =
      step-locals s (at t l s) t l refl (same l k)
        (λ u d. record {
          seen = λ old h. h;
          placed = λ n h. h;
          written = λ n h. refl;
          read = λ n tag nx h g. g;
        })
        v.locals;
}
  where
    same : (x : Local) → Knows s t x → Knows (at t l s) t x
    same idle h = tt
    same (popping old) h = h
    same (pop_read n tag nx) h = h
    same (pushing n old) h = h
    same (push_written n old) h = h

pub head-IsSeen : (s : System) → IsLinked s → IsSeen s s.head
head-IsSeen s v = (omega (arith, v.tagged), λ e. refl)

pub head_eq_iff : (a b : TaggedHead) → head_eq a b ≡ true → a ≡ b
head_eq_iff a b e = same a.pointer b.pointer refl refl e
  where
    same :
        (p q : Option Node)
        → a.pointer ≡ p
        → b.pointer ≡ q
        → (pointer_eq p q && a.tag == b.tag) ≡ true
        → a ≡ b
    same none none x y h = ground (arith, x, y, h)
    same none (some n) x y h = absurd (ground (arith, x, y, h))
    same (some m) none x y h = absurd (ground (arith, x, y, h))
    same (some m) (some n) x y h = ground (arith, x, y, h)

-- PushFreeList takes over a node that is handed out.
pub push-IsLinked :
    (s : System) (t : Thread) (n : Node)
    → IsLinked s
    → s.place n ≡ held
    → IsLinked (push_free_list t n s)
unfolding push_free_list
push-IsLinked s t n v h = record {
  nodes = v.nodes;
  chain = v.chain;
  distinct = v.distinct;
  free_nodes = λ m. (
    λ i. ground (arith, h, (v.free_nodes m).0 i, ap s.place {x = n} {y = m}),
    λ e. (v.free_nodes m).1 (ground (arith, e)),
  );
  tagged = v.tagged;
  locals =
      step-locals s (push_free_list t n s) t (pushing n s.head) refl (head-IsSeen s v, ground arith)
        (λ u d. record {
          seen = λ old k. k;
          placed = λ m e. ground (arith, e, h, ap s.place {x = n} {y = m});
          written = λ m e. refl;
          read = λ m tag nx k g. g;
        })
        v.locals;
}

-- The assignment of `next` in PushFreeList.
pub write-IsLinked :
    (s : System) (t : Thread) (n : Node) (old : TaggedHead)
    → IsLinked s
    → Knows s t (pushing n old)
    → IsLinked (record (at t (push_written n old) s) { next = set s.next n old.pointer })
write-IsLinked s t n old v k =
    let s' = record (at t (push_written n old) s) { next = set s.next n old.pointer } in
    let out : ¬ In n v.nodes =
      λ i. let e : s.place n ≡ free = (v.free_nodes n).0 i in absurd (ground (arith, e, k.1)) in
    record {
      nodes = v.nodes;
      chain = Chain-set s.next n old.pointer s.head.pointer v.nodes out v.chain;
      distinct = v.distinct;
      free_nodes = v.free_nodes;
      tagged = v.tagged;
      locals =
          step-locals s s' t (push_written n old) refl (k.0, k.1, ground arith)
            (λ u d. record {
              seen = λ old h. h;
              placed = λ m e. e;
              written = λ m e. ground (arith, e, k.1, ap s.place {x = n} {y = m});
              read = λ m tag nx h g q.
                  let at_head : s.head.pointer ≡ some m =
                    ap (λ (x : TaggedHead). x.pointer) (h.1 q) in
                  let ne : n ≢ m = λ e. out (
                    subst (λ x. In x v.nodes) (sym e)
                      (first-In s.next s.head.pointer m v.nodes v.chain at_head)) in
                  let same : s.next m ≡ nx = g q in ground (arith, ne, same);
            })
            v.locals;
    }
