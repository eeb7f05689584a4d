-- ===== src/Memory/Tests.antt =====
-- Runs of the model of the free list, and its theorems at concrete inputs.
use surface_ai.Base.{
  ◌%◌, ◌+◌, ◌^◌, ◌<◌, ◌≡◌, refl, inl, inr, true, false, none, some, [], ◌∷◌, ◌==◌, leb,
  if◌then◌else◌, arith,
}
use surface_ai.Memory.FreeList.{
  Node, idle, popping, pop_read, free, held, set, System, head_eq, pop_free_list, push_free_list,
  advance, goes_on, pops, Reach, here, then_,
}
use surface_ai.Memory.FreeList.Linked.{IsLinked}
use surface_ai.Memory.FreeList.Exchange.{Reach-IsLinked, pop_takes_free}

-- 0, then 1; all other nodes are handed out.
abbrev two_free : System
two_free = record {
  head = record { pointer = some 0; tag = 0 };
  next = λ n. if n == 0 then some 1 else none;
  local_of = λ t. idle;
  place = λ n. if leb n 1 then free else held;
  exchanges = 0;
}

two_free-IsLinked : IsLinked two_free
two_free-IsLinked = record {
  nodes = 0 ∷ 1 ∷ [];
  chain = (refl, (refl, refl));
  distinct = (λ i. elim i [ inl e ↦ absurd (omega (arith, e)) | inr j ↦ j ], (λ i. i, tt));
  free_nodes = λ n. ground arith;
  tagged = refl;
  locals = λ t. tt;
}

-- Thread 0 has read node 0, and thread 1 has taken it.
abbrev read_by_0 : System
read_by_0 = advance false 0 (popping two_free.head) (pop_free_list 0 two_free)

read_by_0-Reach : Reach two_free read_by_0
unfolding pop_free_list advance
read_by_0-Reach = then_ (then_ here (pops 0 refl)) (goes_on false 0)

few_exchanges : read_by_0.exchanges < 2 ^ 64
unfolding pop_free_list advance
few_exchanges = omega arith

Reach-IsLinked_example : IsLinked read_by_0
Reach-IsLinked_example =
    Reach-IsLinked two_free read_by_0 two_free-IsLinked read_by_0-Reach few_exchanges

reads_0 : read_by_0.local_of 0 ≡ pop_read 0 0 (some 1)
unfolding pop_free_list advance
reads_0 = refl

same_head : head_eq read_by_0.head (record { pointer = some 0; tag = 0 }) ≡ true
unfolding pop_free_list advance
same_head = refl

pop_takes_free_example :
    (read_by_0.place 0 ≡ free)
    × ((advance false 0 (read_by_0.local_of 0) read_by_0).place ≡ set read_by_0.place 0 held)
    × ((advance false 0 (read_by_0.local_of 0) read_by_0).next ≡ read_by_0.next)
    × ((advance false 0 (read_by_0.local_of 0) read_by_0).head
        ≡ record { pointer = read_by_0.next 0; tag = (0 + 1) % 2 ^ 64 })
pop_takes_free_example =
    pop_takes_free two_free read_by_0 0 0 0 (some 1) two_free-IsLinked read_by_0-Reach few_exchanges
      reads_0 same_head

-- Three accesses of thread 1: a PopFreeList without contention.
abbrev pop_by_1 : System → System
unfolding pop_free_list advance
pop_by_1 s =
    let s1 = pop_free_list 1 s in
    let s2 = advance false 1 (s1.local_of 1) s1 in advance false 1 (s2.local_of 1) s2

abbrev push_by_1 : Node → System → System
unfolding push_free_list advance
push_by_1 n s =
    let s1 = push_free_list 1 n s in
    let s2 = advance false 1 (s1.local_of 1) s1 in advance false 1 (s2.local_of 1) s2

-- Node 0 is the first again, but the node after it is another one.
abbrev back_again : System
back_again = push_by_1 0 (pop_by_1 (pop_by_1 read_by_0))

same_pointer : back_again.head ≡ record { pointer = some 0; tag = 3 }
unfolding pop_by_1 push_by_1 pop_free_list push_free_list advance
same_pointer = refl

-- The exchange of thread 0 fails on the tag.
exchange_refused :
    (advance false 0 (back_again.local_of 0) back_again).local_of 0 ≡ popping back_again.head
unfolding pop_by_1 push_by_1 pop_free_list push_free_list advance
exchange_refused = refl
