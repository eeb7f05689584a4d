-- ===== src/Runtime/TaskGraph/Schedule.antt =====
-- src/runtime/task_graph.cpp: the order in which the work of a graph runs.
use surface_ai.Base.{
  ℕ, suc, ◌≤◌, ◌<◌, ◌≡◌, refl, subst, ap, ◌∙◌, inl, inr, Bool-cases, true, none, some, List, [],
  ◌∷◌, All, In, has_value, ◌==◌, arith,
}
use surface_ai.Base.Table.{lookup, lookup-add_new}
use surface_ai.Core.Error.{ok}
use surface_ai.Runtime.TaskGraph.{TaskId, Outcome, TaskNode, TaskGraph, Run, complete}

-- The dependencies of a task stand below it.
abbrev pub IsRanked : TaskGraph → (TaskId → ℕ) → Type 0
IsRanked g rank =
    (id : TaskId) (node : TaskNode)
    → lookup id g ≡ some node
    → All (λ d. rank d < rank id) node.dependencies

module _ (g : TaskGraph) where
  -- Each task ran once, after all its dependencies; the last one stands first.
  abbrev pub IsSchedule : List TaskId → Type 0
  IsSchedule [] = Unit
  IsSchedule (id ∷ earlier) =
      (¬ In id earlier)
      × ((node : TaskNode) → lookup id g ≡ some node → All (λ d. In d earlier) node.dependencies)
      × IsSchedule earlier

  -- The cache and the schedule agree.
  pub record IsSound (s : Run) : Type 0 where
    pub schedule : IsSchedule s.ran
    pub succeeded : (id : TaskId) → lookup id s.completed ≡ some (ok tt) → In id s.ran
    pub cached : (id : TaskId) → In id s.ran → has_value (lookup id s.completed) ≡ true

  pub complete-IsSound :
      (id : TaskId) (r : Outcome) (s : Run)
      → IsSound s
      → lookup id s.completed ≡ none
      → (r ≡ ok tt → ⊥)
      → IsSound (complete id r s).1
  complete-IsSound id r s v e bad = record {
    schedule = v.schedule;
    succeeded = λ j h. ground (arith, lookup-add_new j id r s.completed, v.succeeded j, h, bad);
    cached = λ j h. ground (arith, lookup-add_new j id r s.completed, v.cached j h);
  }

  pub run-IsSound :
      (id : TaskId) (node : TaskNode) (r : Outcome) (n : ℕ) (s : Run)
      → IsSound s
      → lookup id s.completed ≡ none
      → lookup id g ≡ some node
      → All (λ d. In d s.ran) node.dependencies
      → IsSound (complete id r (record s { ran = id ∷ s.ran; readings = n })).1
  run-IsSound id node r n s v e k deps = record {
    schedule = (
      λ m. let h : has_value (lookup id s.completed) ≡ true = v.cached id m in cc,
      λ node' k'.
          let same : node ≡ node' = cc in
          subst (λ (x : TaskNode). All (λ d. In d s.ran) x.dependencies) same deps,
      v.schedule,
    );
    succeeded = λ j h. elim (Bool-cases (id == j)) [
      | inl p ↦ inl (ground arith)
      | inr p ↦ inr (v.succeeded j (ground (arith, lookup-add_new j id r s.completed, h)))
    ];
    cached = λ j m. elim m [
      | inl p ↦ ground (arith, lookup-add_new j id r s.completed)
      | inr q ↦ ground (arith, lookup-add_new j id r s.completed, v.cached j q)
    ];
  }

  -- What a call leaves behind: a sound state, the tasks that ran before, and no change to the cache at
  -- tasks of rank `bound` and above.
  pub record Keeps (rank : TaskId → ℕ) (bound : ℕ) (s s' : Run) : Type 0 where
    pub sound : IsSound s'
    pub grows : (j : TaskId) → In j s.ran → In j s'.ran
    pub above : (j : TaskId) → bound ≤ rank j → lookup j s'.completed ≡ lookup j s.completed

  module _ (rank : TaskId → ℕ) where
    pub Keeps-refl : (bound : ℕ) (s : Run) → IsSound s → Keeps rank bound s s
    Keeps-refl bound s v = record { sound = v; grows = λ j m. m; above = λ j h. refl }

    pub Keeps-trans :
        (bound : ℕ) (s t u : Run)
        → Keeps rank bound s t
        → Keeps rank bound t u
        → Keeps rank bound s u
    Keeps-trans bound s t u p q = record {
      sound = q.sound;
      grows = λ j m. q.grows j (p.grows j m);
      above = λ j h. q.above j h ∙ p.above j h;
    }

    pub Keeps-weaken :
        (low high : ℕ) (s t : Run) → low ≤ high → Keeps rank low s t → Keeps rank high s t
    Keeps-weaken low high s t le p = record {
      sound = p.sound;
      grows = p.grows;
      above = λ j h. p.above j (omega arith);
    }

    -- A failure is entered into the cache.
    pub complete-Keeps :
        (id : TaskId) (r : Outcome) (s : Run)
        → IsSound s
        → lookup id s.completed ≡ none
        → (r ≡ ok tt → ⊥)
        → Keeps rank (suc (rank id)) s (complete id r s).1
    complete-Keeps id r s v e bad = record {
      sound = complete-IsSound id r s v e bad;
      grows = λ j m. m;
      above = λ j h. ground (arith, lookup-add_new j id r s.completed, ap rank {x = id} {y = j});
    }

    pub run-Keeps :
        (id : TaskId) (node : TaskNode) (r : Outcome) (n : ℕ) (s : Run)
        → IsSound s
        → lookup id s.completed ≡ none
        → lookup id g ≡ some node
        → All (λ d. In d s.ran) node.dependencies
        → Keeps rank
            (suc (rank id))
            s
            (complete id r (record s { ran = id ∷ s.ran; readings = n })).1
    run-Keeps id node r n s v e k deps = record {
      sound = run-IsSound id node r n s v e k deps;
      grows = λ j m. inr m;
      above = λ j h. ground (arith, lookup-add_new j id r s.completed);
    }

    -- The readings of the token do not count.
    pub reading-Keeps :
        (bound n : ℕ) (s : Run) → IsSound s → Keeps rank bound s (record s { readings = n })
    reading-Keeps bound n s v = record {
      sound = record { schedule = v.schedule; succeeded = v.succeeded; cached = v.cached };
      grows = λ j m. m;
      above = λ j h. refl;
    }
