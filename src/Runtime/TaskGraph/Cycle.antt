-- ===== src/Runtime/TaskGraph/Cycle.antt =====
-- src/runtime/task_graph.cpp: graphs with a cycle of dependencies, which AddNode accepts.
use surface_ai.Base.{ℕ, zero, suc, ◌+◌, ◌≡◌, refl, false, none, some, List, ◌∷◌}
use surface_ai.Base.Table.{lookup}
use surface_ai.Runtime.TaskGraph.{
  TaskId, TaskNode, TaskGraph, World, Run, node_at, ensure_each, ensure_completed,
}

-- A task of `P` has a task of `P` as its first dependency.
abbrev pub IsLooping : TaskGraph → (TaskId → Type 0) → Type 0
IsLooping g P =
    (id : TaskId)
    → P id
    → (node : TaskNode) × (d : TaskId) × (rest : List TaskId) × (lookup id g ≡ some node)
      × (node.dependencies ≡ d ∷ rest)
      × P d

-- Where each of some tasks has another of them as its first dependency, and none of them is done, no
-- fuel is enough for EnsureCompleted on them while the token is not set: the call does not return.
pub ensure_completed-cycle :
    (w : World) (g : TaskGraph) (P : TaskId → Type 0)
    → IsLooping g P
    → ((n : ℕ) → w.stop_requested n ≡ false)
    → (f : ℕ) (id : TaskId) (s : Run) → P id
    → ((j : TaskId) → P j → lookup j s.completed ≡ none)
    → ensure_completed w g f id s ≡ none
unfolding ensure_completed
ensure_completed-cycle w g P loops run zero id s p open_ = refl
ensure_completed-cycle w g P loops run (suc f) id s p open_ =
    let (node, d, rest, found, deps, q) = loops id p in
    let again =
      ensure_completed-cycle w g P loops run f d (record s { readings = s.readings + 1 }) q open_ in
    rw (open_ id p, ensure_completed, run s.readings, found, node_at, deps, ensure_each, again)
