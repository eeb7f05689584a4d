-- ===== src/Runtime/Tests.antt =====
-- Runs of the models of the task graph and the worker pool, and their theorems at concrete inputs.
use surface_ai.Base.{
  Ends, first, ◌+◌, zero, suc, ◌<◌, ◌≡◌, refl, true, false, none, some, List, [], ◌∷◌, All, In,
  arith,
}
use surface_ai.Base.Table.{lookup, assign, add_new}
use surface_ai.Core.Error.{ok}
use surface_ai.Runtime.TaskGraph.{
  TaskId, Outcome, TaskNode, TaskGraph, World, ensure_completed, run_to_completion, fresh_run,
}
use surface_ai.Runtime.TaskGraph.Schedule.{IsRanked, IsSchedule}
use surface_ai.Runtime.TaskGraph.Ensure.{run_to_completion-Ends}
use surface_ai.Runtime.TaskGraph.Cycle.{IsLooping, ensure_completed-cycle}
use surface_ai.Runtime.WorkerPool.{Handle, try_enqueue, wake, exits}
use surface_ai.Runtime.WorkerPool.Fifo.{
  System, accept, take, resume, Reach, times, here, next, fresh, IsFifo, Reach-IsFifo, exit_drained,
}

abbrev task : TaskId → List TaskId → TaskNode
task id dependencies = record { id = id; stage_id = 7; dependencies = dependencies }

-- 3 needs 1 and 2, which both need 0.
abbrev diamond : TaskGraph
diamond =
    (3, task 3 (1 ∷ 2 ∷ [])) ∷ (2, task 2 (0 ∷ [])) ∷ (1, task 1 (0 ∷ [])) ∷ (0, task 0 []) ∷ []

abbrev calm : World
calm = record { stop_requested = λ n. false; submit = λ n stage. ok tt; work = λ id. ok tt }

diamond_runs :
    run_to_completion calm diamond 4
    ≡ some (
      ok tt,
      record {
        completed = (0, ok tt) ∷ (1, ok tt) ∷ (2, ok tt) ∷ (3, ok tt) ∷ [];
        ran = 3 ∷ 2 ∷ 1 ∷ 0 ∷ [];
        readings = 8;
      },
    )
unfolding run_to_completion lookup assign add_new
diamond_runs = refl

diamond-IsRanked : IsRanked diamond (λ id. id)
unfolding lookup
diamond-IsRanked id node e = ground arith

run_to_completion-Ends_example :
    Ends
      (λ r t. IsSchedule diamond t.ran × (r ≡ ok tt → All (λ e. In e.0 t.ran) diamond))
      (run_to_completion calm diamond 4)
run_to_completion-Ends_example =
    run_to_completion-Ends diamond (λ id. id) calm diamond-IsRanked 4 (omega arith)

abbrev ring : TaskGraph
ring = (0, task 0 (1 ∷ [])) ∷ (1, task 1 (0 ∷ [])) ∷ []

abbrev IsInRing : TaskId → Type 0
IsInRing id = id < 2

ring-IsLooping : IsLooping ring IsInRing
unfolding lookup
ring-IsLooping zero p = (task 0 (1 ∷ []), 1, [], refl, refl, omega arith)
ring-IsLooping (suc zero) p = (task 1 (0 ∷ []), 0, [], refl, refl, omega arith)
ring-IsLooping (suc (suc n)) p = absurd (omega arith)

no_entries : (j : TaskId) → IsInRing j → lookup {V = Outcome} j [] ≡ none
unfolding lookup
no_entries j p = refl

ensure_completed-cycle_example : ensure_completed calm ring 100 0 fresh_run ≡ none
ensure_completed-cycle_example =
    ensure_completed-cycle calm ring IsInRing ring-IsLooping (λ n. refl) 100 0 fresh_run
      (omega arith) no_entries

abbrev one_resumed : System
one_resumed = record {
  pool = record { queue_capacity = 2; queue = [] };
  accepted = 5 ∷ [];
  taken = 5 ∷ [];
  held = [];
  resumed = 5 ∷ [];
  workers = 3;
}

one_resumed-Reach : Reach (fresh 3 2) one_resumed
unfolding try_enqueue wake
one_resumed-Reach =
    next (next (next here (accept 5 _ refl)) (take false 5 _ (omega arith) refl))
      (resume 5 [] (first []))

Reach-IsFifo_example : IsFifo 3 2 one_resumed
Reach-IsFifo_example = Reach-IsFifo 3 2 one_resumed one_resumed-Reach

wakes_to_exit : wake true one_resumed.pool ≡ (exits, one_resumed.pool)
unfolding wake
wakes_to_exit = refl

exit_drained_example :
    (true ≡ true)
    × (one_resumed.accepted ≡ one_resumed.taken)
    × ((h : Handle)
        → times h one_resumed.accepted ≡ times h one_resumed.held + times h one_resumed.resumed)
    × (one_resumed.held ≡ []
        → (h : Handle) → times h one_resumed.accepted ≡ times h one_resumed.resumed)
exit_drained_example =
    exit_drained 3 2 one_resumed true one_resumed.pool one_resumed-Reach wakes_to_exit

-- Two workers may resume in the other order.
abbrev two_swapped : System
two_swapped = record {
  pool = record { queue_capacity = 2; queue = [] };
  accepted = 5 ∷ 6 ∷ [];
  taken = 5 ∷ 6 ∷ [];
  held = [];
  resumed = 6 ∷ 5 ∷ [];
  workers = 2;
}

two_swapped-Reach : Reach (fresh 2 2) two_swapped
unfolding try_enqueue wake
two_swapped-Reach =
    next
      (next
        (next
          (next (next (next here (accept 5 _ refl)) (accept 6 _ refl))
            (take false 5 _ (omega arith) refl))
          (take false 6 _ (omega arith) refl))
        (resume 6 (5 ∷ []) (first (5 ∷ []))))
      (resume 5 [] (first []))
