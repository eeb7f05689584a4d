-- ===== src/Runtime/WorkerPool.antt =====
-- src/runtime/worker_pool.cpp and src/runtime/task_scheduler.cpp. Each function is what happens under
-- one hold of the queue's lock; handle.resume() of WorkerLoop comes after it and is a step of its own in
-- Fifo. A handle is the coroutine that it stands for.
pub mod Fifo
use surface_ai.Base.{
  ℕ, Bool, true, false, ◌&&◌, Option, none, some, List, [], ◌∷◌, ◌++◌, length, leb, if◌then◌else◌,
}
use surface_ai.Base.Text.{text}
use surface_ai.Base.Table.{Table, assign}
use surface_ai.Core.Error.{ErrorCode, Result, ok, err, fault, fail}
use surface_ai.Core.TypeId.{TypeId}
use surface_ai.Core.Registry.{resolve}

abbrev pub Handle : Type 0
Handle = ℕ

pub record WorkerPool : Type 0 where
  pub queue_capacity : ℕ
  pub queue : List Handle

-- TryEnqueue: the result, and the pool afterwards.
unfoldable pub try_enqueue : Handle → WorkerPool → Result (Unit {0}) × WorkerPool
try_enqueue h p =
    if leb p.queue_capacity (length p.queue)
    then (fail ErrorCode.runtime_queue_full (text "worker pool queue is at capacity"), p)
    else (ok tt, record p { queue = p.queue ++ h ∷ [] })

-- How a worker leaves the lock. A handle that it takes is resumed after that, without the lock.
pub data Wake : Type 0 where
  waits exits : Wake
  takes : Handle → Wake

abbrev pub on_queue : Bool → WorkerPool → List Handle → Wake × WorkerPool
on_queue stop p [] = (if stop then exits else waits, p)
on_queue stop p (h ∷ hs) = (takes h, record p { queue = hs })

-- The locked part of a round of WorkerLoop: the wait ends with work in the queue, or with a stop and none.
unfoldable pub wake : Bool → WorkerPool → Wake × WorkerPool
wake stop p = on_queue stop p p.queue

-- TaskScheduler::Submit: the result, and the pools afterwards.
unfoldable pub submit : TypeId → Handle → Table WorkerPool → Result (Unit {0}) × Table WorkerPool
unfolding resolve try_enqueue
submit stage_id h pools = elim (resolve stage_id pools) [
  | ok p ↦ ((try_enqueue h p).0, assign stage_id (try_enqueue h p).1 pools)
  | err e ↦ (err e, pools)
  | fault ↦ (fault, pools)
]
