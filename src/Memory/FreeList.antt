-- ===== src/Memory/FreeList.antt =====
-- include/sai/memory/free_list.h: PopFreeList and PushFreeList of threads that share one list. A thread
-- does one access of the shared memory in a step, and the accesses are sequentially consistent. Nodes are
-- their addresses; `place` and `exchanges` record who has a node, and how often the head was exchanged.
pub mod Linked
pub mod Exchange
use surface_ai.Base.{
  ℕ, zero, suc, ◌+◌, ◌%◌, ◌^◌, ◌≡◌, Bool, true, false, ◌&&◌, Option, none, some, ◌==◌,
  if◌then◌else◌,
}

abbrev pub Node : Type 0
Node = ℕ

abbrev pub Thread : Type 0
Thread = ℕ

pub record TaggedHead : Type 0 where
  pub pointer : Option Node
  pub tag : ℕ

-- Where a thread stands, with its local variables.
pub data Local : Type 0 where
  idle : Local
  -- PopFreeList with `old_head`; with the node, the tag and the `next` that it read.
  popping : TaggedHead → Local
  pop_read : Node → ℕ → Option Node → Local
  -- PushFreeList of a node with `old_head`, before and after the assignment of `next`.
  pushing : Node → TaggedHead → Local
  push_written : Node → TaggedHead → Local

-- A node is free, handed out by PopFreeList, or on its way back.
pub data Place : Type 0 where
  free held : Place
  pushed_by : Thread → Place

pub record System : Type 0 where
  pub head : TaggedHead
  pub next : Node → Option Node
  pub local_of : Thread → Local
  pub place : Node → Place
  pub exchanges : ℕ

abbrev pub set : {A : Type 0} → (ℕ → A) → ℕ → A → ℕ → A
set f k v i = if k == i then v else f i

abbrev pub pointer_eq : Option Node → Option Node → Bool
pointer_eq none none = true
pointer_eq none (some n) = false
pointer_eq (some n) none = false
pointer_eq (some n) (some m) = n == m

abbrev pub head_eq : TaggedHead → TaggedHead → Bool
head_eq a b = pointer_eq a.pointer b.pointer && a.tag == b.tag

abbrev pub at : Thread → Local → System → System
at t l s = record s { local_of = set s.local_of t l }

-- The exchange of the head for `pointer`, with the next tag, by a thread that is done then.
abbrev pub exchange : Thread → Option Node → System → System
exchange t p s = record s {
  head = record { pointer = p; tag = (s.head.tag + 1) % 2 ^ 64 };
  local_of = set s.local_of t idle;
  exchanges = s.exchanges + 1;
}

-- The loads at the start of the two functions.
unfoldable pub pop_free_list : Thread → System → System
pop_free_list t s = at t (popping s.head) s

unfoldable pub push_free_list : Thread → Node → System → System
push_free_list t n s = record (at t (pushing n s.head) s) { place = set s.place n (pushed_by t) }

-- The next access of a thread that stands at `l`. An exchange fails if the head has changed, or without a
-- cause if `spurious` is set; the loop is then repeated with the head of that moment.
unfoldable pub advance : Bool → Thread → Local → System → System
advance spurious t idle s = s
advance spurious t (popping old) s = elim old.pointer [
  | none ↦ at t idle s
  | some n ↦ at t (pop_read n old.tag (s.next n)) s
]
advance spurious t (pop_read n tag next) s =
    if head_eq s.head (record { pointer = some n; tag = tag })
    then if spurious
      then at t (popping s.head) s
      else record (exchange t next s) { place = set s.place n held }
    else at t (popping s.head) s
advance spurious t (pushing n old) s = record (at t (push_written n old) s) {
  next = set s.next n old.pointer;
}
advance spurious t (push_written n old) s =
    if head_eq s.head old
    then if spurious
      then at t (pushing n s.head) s
      else record (exchange t (some n) s) { place = set s.place n free }
    else at t (pushing n s.head) s

-- Any thread goes on, or calls one of the functions; only a node that is handed out is pushed.
pub data Step (s : System) : System → Type 0 where
  goes_on : (spurious : Bool) (t : Thread) → Step s (advance spurious t (s.local_of t) s)
  pops : (t : Thread) → s.local_of t ≡ idle → Step s (pop_free_list t s)
  pushes :
      (t : Thread) (n : Node)
      → s.local_of t ≡ idle
      → s.place n ≡ held
      → Step s (push_free_list t n s)

pub data Reach (s : System) : System → Type 0 where
  here : Reach s s
  then_ : {t u : System} → Reach s t → Step t u → Reach s u
