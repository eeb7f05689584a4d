-- ===== src/Memory/FreeList/Exchange.antt =====
-- include/sai/memory/free_list.h: the exchanges of the head, and with them every step.
use surface_ai.Base.{
  false, AreDistinct, ℕ, ◌+◌, ◌%◌, ◌^◌, ◌≤◌, ◌<◌, ◌≡◌, ◌≢◌, ◌↔◌, refl, sym, ap, subst, ◌∙◌, inl,
  inr, Bool, true, Option, none, some, List, [], ◌∷◌, In, ◌==◌, Bool-cases, arith,
}
use surface_ai.Memory.FreeList.{
  Node, Thread, TaggedHead, Local, idle, popping, pop_read, pushing, push_written, free, held,
  pushed_by, System, set, head_eq, at, exchange, pop_free_list, push_free_list, advance, Step,
  goes_on, pops, pushes, Reach, here, then_,
}
use surface_ai.Memory.FreeList.Linked.{
  Chain, IsSeen, Knows, IsLinked, Spares, step-locals, at-IsLinked, head-IsSeen, head_eq_iff,
  push-IsLinked, write-IsLinked, first-In,
}

-- The tag after an exchange, before 2^64 of them.
next_tag :
    (s : System)
    → s.head.tag ≡ s.exchanges
    → s.exchanges + 1 < 2 ^ 64
    → (s.head.tag + 1) % 2 ^ 64 ≡ s.exchanges + 1
next_tag s e lt = omega (arith, e, lt)

-- After an exchange no head that was read before is the head.
exchange-Spares :
    (s s' : System) (u : Thread)
    → s'.exchanges ≡ s.exchanges + 1
    → s'.next ≡ s.next
    → ((n : Node) → s.place n ≡ pushed_by u → s'.place n ≡ pushed_by u)
    → Spares u s s'
exchange-Spares s s' u e same placed = record {
  seen = λ old h. (omega (arith, h.0, e), λ q. absurd (omega (arith, h.0, e, q)));
  placed = placed;
  written = λ n h. ap (λ (f : Node → Option Node). f n) same;
  read = λ n tag nx h g q. absurd (omega (arith, h.0, e, q));
}

pop-IsLinked :
    (s : System) (t : Thread) (n : Node) (tag : ℕ) (nx : Option Node)
    → IsLinked s
    → Knows s t (pop_read n tag nx)
    → s.head ≡ record { pointer = some n; tag = tag }
    → s.exchanges + 1 < 2 ^ 64
    → IsLinked (record (exchange t nx s) { place = set s.place n held })
pop-IsLinked s t n tag nx v k e lt = popped v.nodes v.chain v.distinct v.free_nodes
  where
    s' : System
    s' = record (exchange t nx s) { place = set s.place n held }

    tag_now : tag ≡ s.exchanges
    tag_now = sym (ap (λ (x : TaggedHead). x.tag) e) ∙ v.tagged

    popped :
        (ns : List Node)
        → Chain s.next s.head.pointer ns
        → AreDistinct ns
        → ((m : Node) → In m ns ↔ (s.place m ≡ free))
        → IsLinked s'
    popped [] c d f = absurd (ground (arith, c, ap (λ (x : TaggedHead). x.pointer) e))
    popped (m ∷ ns) c d f =
        let same : m ≡ n = ground (arith, c.0, ap (λ (x : TaggedHead). x.pointer) e) in
        let was_free : s.place m ≡ free = (f m).0 (inl refl) in
        record {
          nodes = ns;
          chain = subst (λ p. Chain s.next p ns) (ap s.next same ∙ k.1 tag_now) c.1;
          distinct = d.1;
          free_nodes = λ j. (
            λ i.
                let ne : n ≢ j = λ q. d.0 (subst (λ x. In x ns) (sym (same ∙ q)) i) in
                ground (arith, (f j).0 (inr i), ne),
            λ q. elim (Bool-cases (n == j)) [
              | inl p ↦ absurd (ground (arith, q))
              | inr p ↦
                  let at_j : In j (m ∷ ns) = (f j).1 (ground (arith, q)) in
                  elim at_j [ inl x ↦ absurd (ground (arith, same)) | inr i ↦ i ]
            ],
          );
          tagged = next_tag s v.tagged lt;
          locals =
              step-locals s s' t idle refl tt
                (λ u d.
                  exchange-Spares s s' u refl refl
                    (λ j q. ground (arith, q, was_free, same, ap s.place {x = n} {y = j})))
                v.locals;
        }

pushed-IsLinked :
    (s : System) (t : Thread) (n : Node) (old : TaggedHead)
    → IsLinked s
    → Knows s t (push_written n old)
    → s.head ≡ old
    → s.exchanges + 1 < 2 ^ 64
    → IsLinked (record (exchange t (some n) s) { place = set s.place n free })
pushed-IsLinked s t n old v k e lt =
    let s' : System = record (exchange t (some n) s) { place = set s.place n free } in
    record {
      nodes = n ∷ v.nodes;
      chain = (
        refl,
        subst (λ p. Chain s.next p v.nodes) (ap (λ (x : TaggedHead). x.pointer) e ∙ sym k.2)
            v.chain,
      );
      distinct = (
        λ i. let q : s.place n ≡ free = (v.free_nodes n).0 i in absurd (ground (arith, q, k.1)),
        v.distinct,
      );
      free_nodes = λ j. (
        λ i. elim i [ inl x ↦ ground (arith, x) | inr y ↦ ground (arith, (v.free_nodes j).0 y) ],
        λ q. elim (Bool-cases (n == j)) [
          | inl p ↦ inl (ground arith)
          | inr p ↦ inr ((v.free_nodes j).1 (ground (arith, q)))
        ],
      );
      tagged = next_tag s v.tagged lt;
      locals =
          step-locals s s' t idle refl tt
            (λ u d.
              exchange-Spares s s' u refl refl
                (λ j q. ground (arith, q, k.1, d, ap s.place {x = n} {y = j})))
            v.locals;
    }

advance-IsLinked :
    (s : System) (spurious : Bool) (t : Thread) (l : Local)
    → IsLinked s
    → Knows s t l
    → (advance spurious t l s).exchanges < 2 ^ 64
    → IsLinked (advance spurious t l s)
unfolding advance
advance-IsLinked s spurious t idle v k lt = v
advance-IsLinked s spurious t (popping old) v k lt = at_pointer old.pointer refl
  where
    at_pointer :
        (p : Option Node)
        → old.pointer ≡ p
        → IsLinked (elim p [ none ↦ at t idle s | some n ↦ at t (pop_read n old.tag (s.next n)) s ])
    at_pointer none e = at-IsLinked s t idle v tt
    at_pointer (some n) e =
        at-IsLinked s t (pop_read n old.tag (s.next n)) v
          (subst (λ p. IsSeen s (record { pointer = p; tag = old.tag })) e k, λ q. refl)
advance-IsLinked s spurious t (pop_read n tag nx) v k lt =
    elim (Bool-cases (head_eq s.head (record { pointer = some n; tag = tag }))) [
      | inr e ↦ rw e (at-IsLinked s t (popping s.head) v (head-IsSeen s v))
      | inl e ↦ elim (Bool-cases spurious) [
        | inl p ↦ rw (e, p) (at-IsLinked s t (popping s.head) v (head-IsSeen s v))
        | inr p ↦
            rw (e, p) (pop-IsLinked s t n tag nx v k (head_eq_iff s.head _ e) (rw (e, p) at lt))
      ]
    ]
advance-IsLinked s spurious t (pushing n old) v k lt = write-IsLinked s t n old v k
advance-IsLinked s spurious t (push_written n old) v k lt = elim (Bool-cases (head_eq s.head old)) [
  | inr e ↦ rw e (at-IsLinked s t (pushing n s.head) v (head-IsSeen s v, k.1))
  | inl e ↦ elim (Bool-cases spurious) [
    | inl p ↦ rw (e, p) (at-IsLinked s t (pushing n s.head) v (head-IsSeen s v, k.1))
    | inr p ↦ rw (e, p) (pushed-IsLinked s t n old v k (head_eq_iff s.head old e) (rw (e, p) at lt))
  ]
]

advance_counts :
    (s : System) (spurious : Bool) (t : Thread) (l : Local)
    → s.exchanges ≤ (advance spurious t l s).exchanges
unfolding advance
advance_counts s spurious t idle = omega arith
advance_counts s spurious t (popping old) = at_pointer old.pointer
  where
    at_pointer :
        (p : Option Node)
        → s.exchanges
          ≤ (elim p as (λ _. System) [
            | none ↦ at t idle s
            | some n ↦ at t (pop_read n old.tag (s.next n)) s
          ]).exchanges
    at_pointer none = omega arith
    at_pointer (some n) = omega arith
advance_counts s spurious t (pop_read n tag nx) = ground arith
advance_counts s spurious t (pushing n old) = omega arith
advance_counts s spurious t (push_written n old) = ground arith

Step-counts : {s t : System} → Step s t → s.exchanges ≤ t.exchanges
unfolding pop_free_list push_free_list
Step-counts {s} (goes_on spurious t) = advance_counts s spurious t (s.local_of t)
Step-counts (pops t e) = omega arith
Step-counts (pushes t n e h) = omega arith

pub Step-IsLinked : {s t : System} → Step s t → IsLinked s → t.exchanges < 2 ^ 64 → IsLinked t
unfolding pop_free_list
Step-IsLinked {s} (goes_on spurious t) v lt =
    advance-IsLinked s spurious t (s.local_of t) v (v.locals t) lt
Step-IsLinked {s} (pops t e) v lt = at-IsLinked s t (popping s.head) v (head-IsSeen s v)
Step-IsLinked {s} (pushes t n e h) v lt = push-IsLinked s t n v h

-- Whatever the threads do, and from a list that is linked, the list stays linked during the first 2 ^ 64 - 1
-- exchanges of its head: the nodes on the way from the head are distinct and are exactly those that are
-- neither handed out nor being pushed, and what each thread has read is right if its exchange can succeed.
pub Reach-IsLinked : (s t : System) → IsLinked s → Reach s t → t.exchanges < 2 ^ 64 → IsLinked t
Reach-IsLinked s _ v here lt = v
Reach-IsLinked s _ v (then_ {t} r st) lt =
    Step-IsLinked st (Reach-IsLinked s t v r (omega (arith, Step-counts st))) lt

-- In a state that threads reach from a linked one with fewer than 2 ^ 64 exchanges, a PopFreeList whose
-- exchange succeeds takes a node that is free. Afterwards that node is handed out, the node after it in the
-- list before is the head, with the next tag, and no other node has another place or next node.
pub pop_takes_free :
    (s u : System) (t : Thread) (n : Node) (tag : ℕ) (nx : Option Node)
    → IsLinked s
    → Reach s u
    → u.exchanges < 2 ^ 64
    → u.local_of t ≡ pop_read n tag nx
    → head_eq u.head (record { pointer = some n; tag = tag }) ≡ true
    → (u.place n ≡ free)
      × ((advance false t (u.local_of t) u).place ≡ set u.place n held)
      × ((advance false t (u.local_of t) u).next ≡ u.next)
      × ((advance false t (u.local_of t) u).head
          ≡ record { pointer = u.next n; tag = (tag + 1) % 2 ^ 64 })
unfolding advance
pop_takes_free s u t n tag nx v r lt e h =
    let w = Reach-IsLinked s u v r lt in
    let at_head = head_eq_iff u.head (record { pointer = some n; tag = tag }) h in
    let tags = ap (λ (x : TaggedHead). x.tag) at_head in
    let known : Knows u t (pop_read n tag nx) = rw e at (w.locals t) in
    let follows : u.next n ≡ nx = known.1 (sym tags ∙ w.tagged) in
    (
      (w.free_nodes n).0 (
          first-In u.next u.head.pointer n w.nodes w.chain
            (ap (λ (x : TaggedHead). x.pointer) at_head)),
      rw (e, h) refl,
      rw (e, h) refl,
      rw (e, h) (λ i. record { pointer = sym follows i; tag = (tags i + 1) % 2 ^ 64 }),
    )
