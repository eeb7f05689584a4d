-- ===== src/Runtime/WorkerPool/Fifo.antt =====
-- src/runtime/worker_pool.cpp: the pool under any interleaving of submitters and workers.
use surface_ai.Base.{
  Without, first, later, Without-length, ◌+◌, ◌-◌, if◌then◌else◌, ◌==◌, ℕ, ◌≤◌, ◌≡◌, ◌<◌, refl, ap,
  sym, ◌∙◌, Bool, true, List, [], ◌∷◌, ◌++◌, length, length-append, arith,
}
use mathlib.Core.List.{append_assoc, append-nil}
use surface_ai.Core.Error.{ok}
use surface_ai.Runtime.WorkerPool.{Handle, WorkerPool, try_enqueue, exits, takes, wake, on_queue}

-- The pool; the handles that it accepted, those that workers took from the queue, and those that they
-- resumed, each in order of time; the handles that workers took and have not resumed yet; and how many
-- workers are in their loop.
pub record System : Type 0 where
  pub pool : WorkerPool
  pub accepted : List Handle
  pub taken : List Handle
  pub held : List Handle
  pub resumed : List Handle
  pub workers : ℕ

-- A thread does one thing. A worker without a handle takes one or leaves its loop, under the lock; a
-- worker with one resumes it, without the lock.
pub data Step (s : System) : System → Type 0 where
  accept :
      (h : Handle) (p : WorkerPool)
      → try_enqueue h s.pool ≡ (ok tt, p)
      → Step s (record s { pool = p; accepted = s.accepted ++ h ∷ [] })
  take :
      (stop : Bool) (h : Handle) (p : WorkerPool)
      → length s.held < s.workers
      → wake stop s.pool ≡ (takes h, p)
      → Step s (record s { pool = p; taken = s.taken ++ h ∷ []; held = h ∷ s.held })
  resume :
      (h : Handle) (held : List Handle)
      → Without h s.held held
      → Step s (record s { held = held; resumed = s.resumed ++ h ∷ [] })
  exit :
      (stop : Bool) (p : WorkerPool)
      → length s.held < s.workers
      → wake stop s.pool ≡ (exits, p)
      → Step s (record s { pool = p; workers = s.workers - 1 })

pub data Reach (s : System) : System → Type 0 where
  here : Reach s s
  next : {t u : System} → Reach s t → Step t u → Reach s u

abbrev pub fresh : ℕ → ℕ → System
fresh thread_count capacity = record {
  pool = record { queue_capacity = capacity; queue = [] };
  accepted = [];
  taken = [];
  held = [];
  resumed = [];
  workers = thread_count;
}

-- How often a handle occurs.
abbrev pub times : Handle → List Handle → ℕ
times h [] = 0
times h (x ∷ xs) = (if x == h then 1 else 0) + times h xs

-- The queue is bounded, and holds the accepted handles that no worker took, in order; what was taken is
-- held by a worker or resumed, and with one worker, it is resumed in order.
pub record IsFifo (thread_count capacity : ℕ) (s : System) : Type 0 where
  pub capacity_kept : s.pool.queue_capacity ≡ capacity
  pub bounded : length s.pool.queue ≤ capacity
  pub in_order : s.accepted ≡ s.taken ++ s.pool.queue
  pub once : (h : Handle) → times h s.taken ≡ times h s.held + times h s.resumed
  pub busy : (length s.held ≤ s.workers) × (s.workers ≤ thread_count)
  pub alone : thread_count ≤ 1 → s.taken ≡ s.resumed ++ s.held

try_enqueue-accepts :
    (h : Handle) (p q : WorkerPool)
    → try_enqueue h p ≡ (ok tt, q)
    → (q.queue ≡ p.queue ++ h ∷ [])
      × (q.queue_capacity ≡ p.queue_capacity)
      × (length p.queue < p.queue_capacity)
unfolding try_enqueue
try_enqueue-accepts h p q e = (ground arith, ground arith, ground arith)

wake-takes :
    (stop : Bool) (h : Handle) (p q : WorkerPool)
    → wake stop p ≡ (takes h, q)
    → (p.queue ≡ h ∷ q.queue) × (q.queue_capacity ≡ p.queue_capacity)
unfolding wake
wake-takes stop h p q e = at_queue p.queue refl e
  where
    at_queue :
        (hs : List Handle)
        → p.queue ≡ hs
        → on_queue stop p hs ≡ (takes h, q)
        → (p.queue ≡ h ∷ q.queue) × (q.queue_capacity ≡ p.queue_capacity)
    at_queue [] k e = absurd (ground (arith, e, k))
    at_queue (x ∷ hs) k e = (ground (arith, e, k), ground (arith, e, k))

wake-exits :
    (stop : Bool) (p q : WorkerPool)
    → wake stop p ≡ (exits, q)
    → (p.queue ≡ []) × (q ≡ p) × (stop ≡ true)
unfolding wake
wake-exits stop p q e = at_queue p.queue refl e
  where
    at_queue :
        (hs : List Handle)
        → p.queue ≡ hs
        → on_queue stop p hs ≡ (exits, q)
        → (p.queue ≡ []) × (q ≡ p) × (stop ≡ true)
    at_queue [] k e = (k, ground (arith, e, k), ground (arith, e, k))
    at_queue (x ∷ hs) k e = absurd (ground (arith, e, k))

times-append : (h : Handle) (xs ys : List Handle) → times h (xs ++ ys) ≡ times h xs + times h ys
times-append h [] ys = omega arith
times-append h (x ∷ xs) ys = omega (arith, times-append h xs ys)

Without-times :
    (x h : Handle) (xs ys : List Handle)
    → Without x xs ys
    → times h xs ≡ (if x == h then 1 else 0) + times h ys
Without-times x h _ _ (first xs) = refl
Without-times x h _ _ (later y xs ys w) = omega (arith, Without-times x h xs ys w)

no_handles : (xs : List Handle) → length xs < 1 → xs ≡ []
no_handles [] l = refl
no_handles (x ∷ xs) l = absurd (omega (arith, l))

Without-one :
    (x : Handle) (xs ys : List Handle) → Without x xs ys → length xs ≤ 1 → (xs ≡ x ∷ []) × (ys ≡ [])
Without-one x _ _ (first xs) l =
    let e = no_handles xs (omega (arith, l)) in (ap (λ zs. x ∷ zs) e, e)
Without-one x _ _ (later y xs ys w) l = absurd (omega (arith, l, Without-length x xs ys w))

Step-IsFifo :
    {threads capacity : ℕ} {s t : System}
    → Step s t
    → IsFifo threads capacity s
    → IsFifo threads capacity t
Step-IsFifo {s} (accept h p e) v =
    let (q, c, l) = try_enqueue-accepts h s.pool p e in
    record {
      once = v.once;
      busy = v.busy;
      alone = v.alone;
      capacity_kept = c ∙ v.capacity_kept;
      bounded = omega (arith, ap length q, length-append s.pool.queue (h ∷ []), l, v.capacity_kept);
      in_order =
          ap (λ xs. xs ++ h ∷ []) v.in_order
          ∙ append_assoc s.taken s.pool.queue (h ∷ [])
          ∙ ap (λ xs. s.taken ++ xs) (sym q);
    }
Step-IsFifo {s} (take stop h p free e) v =
    let (q, c) = wake-takes stop h s.pool p e in
    record {
      capacity_kept = c ∙ v.capacity_kept;
      bounded = omega (arith, ap length q, v.bounded);
      in_order =
          v.in_order ∙ ap (λ xs. s.taken ++ xs) q ∙ sym (append_assoc s.taken (h ∷ []) p.queue);
      once = λ x. omega (arith, v.once x, times-append x s.taken (h ∷ []));
      busy = (omega (arith, free), v.busy.1);
      alone = λ one.
          let nothing = no_handles s.held (omega (arith, free, one, v.busy.1)) in
          let before = v.alone one ∙ ap (λ xs. s.resumed ++ xs) nothing ∙ append-nil s.resumed in
          ap (λ xs. xs ++ h ∷ []) before ∙ ap (λ xs. s.resumed ++ (h ∷ xs)) (sym nothing);
    }
Step-IsFifo {s} (resume h held w) v = record {
  capacity_kept = v.capacity_kept;
  bounded = v.bounded;
  in_order = v.in_order;
  once = λ x.
      omega (arith, v.once x, Without-times h x s.held held w, times-append x s.resumed (h ∷ []));
  busy = (omega (arith, v.busy.0, Without-length h s.held held w), v.busy.1);
  alone = λ one.
      let (was, is) = Without-one h s.held held w (omega (arith, v.busy.0, v.busy.1, one)) in
      v.alone one
      ∙ ap (λ xs. s.resumed ++ xs) was
      ∙ sym (append-nil (s.resumed ++ h ∷ []))
      ∙ ap (λ xs. (s.resumed ++ h ∷ []) ++ xs) (sym is);
}
Step-IsFifo {s} (exit stop p free e) v =
    let (q, c, t) = wake-exits stop s.pool p e in
    record {
      once = v.once;
      alone = v.alone;
      capacity_kept = ap (λ r. r.queue_capacity) c ∙ v.capacity_kept;
      bounded = rw c v.bounded;
      in_order = rw c v.in_order;
      busy = (omega (arith, free), omega (arith, v.busy.1));
    }

fresh-IsFifo : (threads capacity : ℕ) → IsFifo threads capacity (fresh threads capacity)
fresh-IsFifo threads capacity = record {
  capacity_kept = refl;
  bounded = omega arith;
  in_order = refl;
  once = λ h. refl;
  busy = (omega arith, omega arith);
  alone = λ one. refl;
}

-- Whatever submitters and workers do, the queue stays within its capacity, and handles are taken from it
-- in the order in which they were accepted. Each one taken is resumed once or held by a worker, no more
-- held than there are workers; with one worker they are also resumed in that order.
pub Reach-IsFifo :
    (threads capacity : ℕ) (s : System)
    → Reach (fresh threads capacity) s
    → IsFifo threads capacity s
Reach-IsFifo threads capacity _ here = fresh-IsFifo threads capacity
Reach-IsFifo threads capacity _ (next {t} r st) = Step-IsFifo st (Reach-IsFifo threads capacity t r)

-- A worker leaves its loop only after a stop, and then the queue is empty: every accepted handle has been
-- taken, and is resumed or held by a worker. If no worker holds one, each was resumed as often as it was
-- accepted.
pub exit_drained :
    (threads capacity : ℕ) (s : System) (stop : Bool) (p : WorkerPool)
    → Reach (fresh threads capacity) s
    → wake stop s.pool ≡ (exits, p)
    → (stop ≡ true)
      × (s.accepted ≡ s.taken)
      × ((h : Handle) → times h s.accepted ≡ times h s.held + times h s.resumed)
      × (s.held ≡ [] → (h : Handle) → times h s.accepted ≡ times h s.resumed)
exit_drained threads capacity s stop p r e =
    let (q, c, t) = wake-exits stop s.pool p e in
    let v = Reach-IsFifo threads capacity s r in
    let all_taken = v.in_order ∙ ap (λ xs. s.taken ++ xs) q ∙ append-nil s.taken in
    (
      t,
      all_taken,
      λ h. ap (times h) all_taken ∙ v.once h,
      λ none_held h. omega (arith, ap (times h) all_taken, v.once h, ap (times h) none_held),
    )
