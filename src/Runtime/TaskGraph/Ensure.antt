-- ===== src/Runtime/TaskGraph/Ensure.antt =====
-- src/runtime/task_graph.cpp: EnsureCompleted and EnsureEach on a graph whose tasks are ranked.
use surface_ai.Base.{
  Ends, Ends-map, ℕ, zero, suc, ◌+◌, ◌<◌, ◌≡◌, refl, ap, ◌∙◌, inl, Bool, true, false, Option, none,
  some, List, [], ◌∷◌, map, All, In, if◌then◌else◌, arith,
}
use surface_ai.Base.Table.{Table, lookup}
use surface_ai.Base.Text.{text}
use surface_ai.Core.Error.{ErrorCode, Result, ok, err, fault, fail}
use surface_ai.Runtime.TaskGraph.{
  TaskId, Outcome, TaskNode, TaskGraph, World, Run, complete, ensure_each, finish_node,
  ensure_completed, fresh_run, run_to_completion, node_at,
}
use surface_ai.Runtime.TaskGraph.Schedule.{
  IsRanked, IsSchedule, IsSound, Keeps, Keeps-refl, Keeps-trans, Keeps-weaken, complete-Keeps,
  run-Keeps, reading-Keeps,
}

module _ (g : TaskGraph) (rank : TaskId → ℕ) where
  -- A call for one task of rank below `bound`.
  abbrev Calls : ℕ → (TaskId → Run → Option (Outcome × Run)) → Type 0
  Calls bound ensure =
      (id : TaskId) (s : Run)
      → rank id < bound
      → IsSound g s
      → Ends (λ r t. Keeps g rank bound s t × (r ≡ ok tt → In id t.ran)) (ensure id s)

  each-Ends :
      (bound : ℕ) (ensure : TaskId → Run → Option (Outcome × Run))
      → Calls bound ensure
      → (ids : List TaskId) (s : Run) → All (λ d. rank d < bound) ids
      → IsSound g s
      → Ends
          (λ r t. Keeps g rank bound s t × (r ≡ ok tt → All (λ d. In d t.ran) ids))
          (ensure_each ensure ids s)
  unfolding ensure_each
  each-Ends bound ensure calls [] s low v = (Keeps-refl g rank bound s v, λ e. tt)
  each-Ends bound ensure calls (id ∷ ids) s low v =
      first (ensure id s) (calls id s low.0 v) (λ t. each-Ends bound ensure calls ids t low.1)
    where
      rest :
          (t : Run) (o : Option (Outcome × Run))
          → Keeps g rank bound s t
          → In id t.ran
          → Ends (λ r u. Keeps g rank bound t u × (r ≡ ok tt → All (λ d. In d u.ran) ids)) o
          → Ends (λ r u. Keeps g rank bound s u × (r ≡ ok tt → All (λ d. In d u.ran) (id ∷ ids))) o
      rest t none k m h = h
      rest t (some (r, u)) k m (k', h) =
          (Keeps-trans g rank bound s t u k k', λ e. (k'.grows id m, h e))

      first :
          (o : Option (Outcome × Run))
          → Ends (λ r t. Keeps g rank bound s t × (r ≡ ok tt → In id t.ran)) o
          → ((t : Run)
              → IsSound g t
              → Ends
                  (λ r u. Keeps g rank bound t u × (r ≡ ok tt → All (λ d. In d u.ran) ids))
                  (ensure_each ensure ids t))
          → Ends
              (λ r u. Keeps g rank bound s u × (r ≡ ok tt → All (λ d. In d u.ran) (id ∷ ids)))
              (elim o [
                | none ↦ none
                | some (r, s') ↦ elim r [
                  | ok u ↦ ensure_each ensure ids s'
                  | err e ↦ some (err e, s')
                  | fault ↦ some (fault, s')
                ]
              ])
      first none h ih = h
      first (some (ok u, t)) (k, m) ih = rest t (ensure_each ensure ids t) k (m refl) (ih t k.sound)
      first (some (err e, t)) (k, m) ih = (k, λ q. absurd (cc q))
      first (some (fault, t)) (k, m) ih = (k, λ q. absurd (cc q))

  abbrev Finishes : TaskId → Run → Outcome × Run → Type 0
  Finishes id s rs = Keeps g rank (suc (rank id)) s rs.1 × (rs.0 ≡ ok tt → In id rs.1.ran)

  fail-Finishes :
      (id : TaskId) (r : Outcome) (n : ℕ) (s : Run)
      → IsSound g s
      → lookup id s.completed ≡ none
      → (r ≡ ok tt → ⊥)
      → Finishes id s (complete id r (record s { readings = n }))
  fail-Finishes id r n s v e bad = (
    Keeps-trans g rank (suc (rank id)) s (record s { readings = n }) _
        (reading-Keeps g rank (suc (rank id)) n s v)
        (complete-Keeps g rank id r (record s { readings = n })
          (reading-Keeps g rank (suc (rank id)) n s v).sound e bad),
    λ q. absurd (bad q),
  )

  finish-Ends :
      (w : World) (id : TaskId) (node : TaskNode) (r : Outcome) (s : Run)
      → IsSound g s
      → lookup id s.completed ≡ none
      → lookup id g ≡ some node
      → (r ≡ ok tt → All (λ d. In d s.ran) node.dependencies)
      → Finishes id s (finish_node w id node (r, s))
  unfolding finish_node
  finish-Ends w id node (err e) s v n k deps =
      (complete-Keeps g rank id (err e) s v n (λ q. cc), λ q. absurd (cc q))
  finish-Ends w id node fault s v n k deps =
      (complete-Keeps g rank id fault s v n (λ q. cc), λ q. absurd (cc q))
  finish-Ends w id node (ok u) s v n k deps =
      answered (w.stop_requested s.readings) (w.submit s.readings node.stage_id)
    where
      answered :
          (stopped : Bool) (o : Outcome)
          → Finishes id s (
              let d : Outcome × Run =
                (if stopped
                  then (
                    fail ErrorCode.runtime_cancelled (text "dispatch cancelled before submission"),
                    record s { readings = s.readings + 1 },
                  )
                  else elim o [
                    | ok x ↦ (w.work id, record s { ran = id ∷ s.ran; readings = s.readings + 1 })
                    | err e ↦ (err e, record s { readings = s.readings + 1 })
                    | fault ↦ (fault, record s { readings = s.readings + 1 })
                  ]) in
              complete id d.0 d.1)
      answered true o = fail-Finishes id _ (s.readings + 1) s v n (λ q. cc)
      answered false (ok x) =
          (run-Keeps g rank id node (w.work id) (s.readings + 1) s v n k (deps refl), λ q. inl refl)
      answered false (err e) = fail-Finishes id (err e) (s.readings + 1) s v n (λ q. cc)
      answered false fault = fail-Finishes id fault (s.readings + 1) s v n (λ q. cc)

  module _ (w : World) (ranked : IsRanked g rank) where
    -- After the dependencies of a task that is not in the cache.
    node-Ends :
        (id : TaskId) (node : TaskNode) (s : Run) (o : Option (Outcome × Run))
        → lookup id s.completed ≡ none
        → lookup id g ≡ some node
        → Ends
            (λ r t.
              Keeps g rank (rank id) s t × (r ≡ ok tt → All (λ d. In d t.ran) node.dependencies))
            o
        → Ends
            (λ r t. Finishes id s (r, t))
            (elim o [ none ↦ none | some rs ↦ some (finish_node w id node rs) ])
    node-Ends id node s none n k h = h
    node-Ends id node s (some (r, t)) n k (kept, deps) =
        let (kept', m) =
          finish-Ends w id node r t kept.sound (kept.above id (omega arith) ∙ n) k deps in
        (
          Keeps-trans g rank (suc (rank id)) s t _
              (Keeps-weaken g rank (rank id) (suc (rank id)) s t (omega arith) kept) kept',
          m,
        )

    ensure-Ends :
        (f : ℕ) (id : TaskId) (s : Run)
        → rank id < f
        → IsSound g s
        → Ends (λ r t. Finishes id s (r, t)) (ensure_completed w g f id s)
    unfolding ensure_completed
    ensure-Ends zero id s lt v = absurd (omega arith)
    ensure-Ends (suc f) id s lt v =
        cached (lookup id s.completed) refl (w.stop_requested s.readings) (λ d t below u.
          Ends-map (λ r t'. Finishes d t (r, t'))
            (λ r t'. Keeps g rank (rank id) t t' × (r ≡ ok tt → In d t'.ran))
            (ensure_completed w g f d t)
            (λ r t' p. (Keeps-weaken g rank (suc (rank d)) (rank id) t t' (omega arith) p.0, p.1))
            (ensure-Ends f d t (omega arith) u))
      where
        s1 : Run
        s1 = record s { readings = s.readings + 1 }

        found :
            (o : Option TaskNode)
            → lookup id g ≡ o
            → lookup id s.completed ≡ none
            → Calls (rank id) (ensure_completed w g f)
            → Ends
                (λ r t. Finishes id s (r, t))
                (elim (elim o as (λ _. Result TaskNode) [
                  | none ↦
                      fail ErrorCode.runtime_node_not_found (text "task node id not found in graph")
                  | some node ↦ ok node
                ]) [
                  | err e ↦ some (complete id (err e) s1)
                  | fault ↦ some (complete id fault s1)
                  | ok node ↦ elim (ensure_each (ensure_completed w g f) node.dependencies s1) [
                    | none ↦ none
                    | some rs ↦ some (finish_node w id node rs)
                  ]
                ])
        found none k n calls = fail-Finishes id _ (s.readings + 1) s v n (λ q. cc)
        found (some node) k n calls =
            Ends-map (λ r t. Finishes id s1 (r, t)) (λ r t. Finishes id s (r, t)) _
              (λ r t p. (
                Keeps-trans g rank (suc (rank id)) s s1 t
                    (reading-Keeps g rank (suc (rank id)) _ s v) p.0,
                p.1,
              ))
              (node-Ends id node s1 (ensure_each (ensure_completed w g f) node.dependencies s1) n k
                (each-Ends (rank id) (ensure_completed w g f) calls node.dependencies s1
                  (ranked id node k) (reading-Keeps g rank (rank id) _ s v).sound))

        cached :
            (o : Option Outcome)
            → lookup id s.completed ≡ o
            → (stopped : Bool) → Calls (rank id) (ensure_completed w g f)
            → Ends
                (λ r t. Finishes id s (r, t))
                (elim o [
                  | some r ↦ some (r, s)
                  | none ↦ elim stopped [
                    | true ↦ some (
                      fail ErrorCode.runtime_cancelled (text "task graph execution cancelled"),
                      s1,
                    )
                    | false ↦ elim (node_at id g) [
                      | err e ↦ some (complete id (err e) s1)
                      | fault ↦ some (complete id fault s1)
                      | ok node ↦ elim (ensure_each (ensure_completed w g f) node.dependencies s1) [
                        | none ↦ none
                        | some rs ↦ some (finish_node w id node rs)
                      ]
                    ]
                  ]
                ])
        cached (some r) e stopped calls =
            (Keeps-refl g rank (suc (rank id)) s v, λ q. v.succeeded id (e ∙ ap some q))
        cached none e true calls = (reading-Keeps g rank (suc (rank id)) _ s v, λ q. absurd (cc q))
        cached none e false calls = found (lookup id g) refl e calls

    keys-In :
        (m : Table TaskNode) (t : Run)
        → All (λ d. In d t.ran) (map (λ e. e.0) m)
        → All (λ e. In e.0 t.ran) m
    keys-In [] t h = tt
    keys-In (e ∷ m) t h = (h.0, keys-In m t h.1)

    fresh-IsSound : IsSound g fresh_run
    unfolding lookup
    fresh-IsSound = record {
      schedule = tt;
      succeeded = λ id h. absurd (cc h);
      cached = λ id m. absurd m;
    }

    -- If the dependencies of each task have a lower rank and the fuel exceeds every rank, RunToCompletion
    -- returns. Whatever the pools, the token and the tasks answer, no task ran twice, and each ran after
    -- all its dependencies; on success all tasks of the graph ran.
    pub run_to_completion-Ends :
        (f : ℕ)
        → All (λ id. rank id < f) (map (λ e. e.0) g)
        → Ends
            (λ r t. IsSchedule g t.ran × (r ≡ ok tt → All (λ e. In e.0 t.ran) g))
            (run_to_completion w g f)
    unfolding run_to_completion
    run_to_completion-Ends f low =
        Ends-map
          (λ r t.
            Keeps g rank f fresh_run t × (r ≡ ok tt → All (λ d. In d t.ran) (map (λ e. e.0) g)))
          (λ r t. IsSchedule g t.ran × (r ≡ ok tt → All (λ e. In e.0 t.ran) g))
          (ensure_each (ensure_completed w g f) (map (λ e. e.0) g) fresh_run)
          (λ r t p. (p.0.sound.schedule, λ q. keys-In g t (p.1 q)))
          (each-Ends f (ensure_completed w g f)
            (λ d s below v.
              Ends-map (λ r t. Finishes d s (r, t))
                (λ r t. Keeps g rank f s t × (r ≡ ok tt → In d t.ran)) (ensure_completed w g f d s)
                (λ r t p. (Keeps-weaken g rank (suc (rank d)) f s t (omega arith) p.0, p.1))
                (ensure-Ends f d s below v))
            (map (λ e. e.0) g) fresh_run low fresh-IsSound)
