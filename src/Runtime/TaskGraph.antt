-- ===== src/Runtime/TaskGraph.antt =====
-- src/runtime/task_graph.cpp and PipelineExecutor::Dispatch of src/runtime/pipeline_executor.cpp. A
-- co_await of a child runs it to its end on the awaiting thread, so the coroutines are functions.
-- `none` is fuel that ran out, one unit for each nested EnsureCompleted.
pub mod Schedule
pub mod Ensure
pub mod Cycle
use surface_ai.Base.{
  ℕ, zero, suc, ◌+◌, Bool, true, false, Option, none, some, List, [], ◌∷◌, map, has_value,
  if◌then◌else◌,
}
use surface_ai.Base.Text.{text}
use surface_ai.Base.Table.{Table, lookup, assign, add_new}
use surface_ai.Core.Error.{ErrorCode, Result, ok, err, fault, fail}
use surface_ai.Core.TypeId.{TypeId}

abbrev pub TaskId : Type 0
TaskId = ℕ

abbrev pub Outcome : Type 0
Outcome = Result (Unit {0})

-- The work of a node is what `World.work` says it gives.
pub record TaskNode : Type 0 where
  pub id : TaskId
  pub stage_id : TypeId
  pub dependencies : List TaskId

abbrev pub TaskGraph : Type 0
TaskGraph = Table TaskNode

-- What the run meets: the readings of the stop token and the answers of TaskScheduler::Submit, by the
-- number of readings before, and what the work of a task gives when a pool runs it.
pub record World : Type 0 where
  pub stop_requested : ℕ → Bool
  pub submit : ℕ → TypeId → Outcome
  pub work : TaskId → Outcome

-- `ran` holds the tasks whose work ran, the last one first.
pub record Run : Type 0 where
  pub completed : Table Outcome
  pub ran : List TaskId
  pub readings : ℕ

-- AddNode: the result, and the graph afterwards.
unfoldable pub add_node : TaskNode → TaskGraph → Outcome × TaskGraph
add_node node nodes =
    if has_value (lookup node.id nodes)
    then (fail ErrorCode.core_type_already_registered (text "task node id already added"), nodes)
    else (ok tt, assign node.id node nodes)

unfoldable pub node_at : TaskId → TaskGraph → Result TaskNode
node_at id nodes = elim (lookup id nodes) [
  | none ↦ fail ErrorCode.runtime_node_not_found (text "task node id not found in graph")
  | some node ↦ ok node
]

-- completed.emplace(id, r), and r as the result.
abbrev pub complete : TaskId → Outcome → Run → Outcome × Run
complete id r s = (r, record s { completed = add_new id r s.completed })

-- Dispatch: the token is read, the work submitted, and its result awaited.
unfoldable pub dispatch : World → TaskId → TaskNode → Run → Outcome × Run
dispatch w id node s =
    if w.stop_requested s.readings
    then (
      fail ErrorCode.runtime_cancelled (text "dispatch cancelled before submission"),
      record s { readings = s.readings + 1 },
    )
    else elim (w.submit s.readings node.stage_id) [
      | ok u ↦ (w.work id, record s { ran = id ∷ s.ran; readings = s.readings + 1 })
      | err e ↦ (err e, record s { readings = s.readings + 1 })
      | fault ↦ (fault, record s { readings = s.readings + 1 })
    ]

-- EnsureEach over EnsureCompleted: in order, up to the first failure.
unfoldable pub ensure_each :
    (TaskId → Run → Option (Outcome × Run)) → List TaskId → Run → Option (Outcome × Run)
ensure_each ensure [] s = some (ok tt, s)
ensure_each ensure (id ∷ ids) s = elim (ensure id s) [
  | none ↦ none
  | some (r, s') ↦ elim r [
    | ok u ↦ ensure_each ensure ids s'
    | err e ↦ some (err e, s')
    | fault ↦ some (fault, s')
  ]
]

-- The end of EnsureCompleted, after the dependencies.
unfoldable pub finish_node : World → TaskId → TaskNode → Outcome × Run → Outcome × Run
unfolding dispatch
finish_node w id node (ok u, s) = complete id (dispatch w id node s).0 (dispatch w id node s).1
finish_node w id node (err e, s) = complete id (err e) s
finish_node w id node (fault, s) = complete id fault s

unfoldable pub ensure_completed : World → TaskGraph → ℕ → TaskId → Run → Option (Outcome × Run)
unfolding node_at ensure_each finish_node
ensure_completed w g zero id s = none
ensure_completed w g (suc f) id s = elim (lookup id s.completed) [
  | some r ↦ some (r, s)
  | none ↦ elim (w.stop_requested s.readings) [
    | true ↦ some (
      fail ErrorCode.runtime_cancelled (text "task graph execution cancelled"),
      record s { readings = s.readings + 1 },
    )
    | false ↦
        let s' = record s { readings = s.readings + 1 } in
        elim (node_at id g) [
          | err e ↦ some (complete id (err e) s')
          | fault ↦ some (complete id fault s')
          | ok node ↦ elim (ensure_each (ensure_completed w g f) node.dependencies s') [
            | none ↦ none
            | some rs ↦ some (finish_node w id node rs)
          ]
        ]
  ]
]

abbrev pub fresh_run : Run
fresh_run = record { completed = []; ran = []; readings = 0 }

-- RunToCompletion: every node, in the order of the table.
unfoldable pub run_to_completion : World → TaskGraph → ℕ → Option (Outcome × Run)
unfolding ensure_completed
run_to_completion w g f = ensure_each (ensure_completed w g f) (map (λ e. e.0) g) fresh_run
