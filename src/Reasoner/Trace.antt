-- ===== src/Reasoner/Trace.antt =====
-- src/reasoner/trace_recorder.h and .cpp. `now` gives the clock's reading at each step; the counter of
-- steps is 64 bits wide.
use surface_ai.Base.{ℕ, suc, ◌%◌, ◌^◌, Bool, none, List, [], ◌∷◌, ◌++◌, if◌then◌else◌}
use surface_ai.Base.Text.{Text, text, to_string}
use surface_ai.Rule.Double.{Double}
use surface_ai.Rule.Engine.{TraceStep, Level}

pub record Tracer : Type 0 where
  pub steps : List TraceStep
  pub next_id : ℕ

abbrev pub no_steps : Tracer
no_steps = record { steps = []; next_id = 0 }

unfoldable pub step_id : ℕ → Text
step_id n = text "step_" ++ to_string n

unfoldable pub record_step : (ℕ → ℕ) → Level → Text → Text → Tracer → Tracer
record_step now level desc source t = record {
  steps =
      t.steps
      ++ record {
        id = step_id t.next_id;
        level = level;
        description = desc;
        source_location = source;
        timestamp = now t.next_id;
        parent_id = none;
      }
        ∷ [];
  next_id = suc t.next_id % 2 ^ 64;
}

unfoldable pub record_expression : (ℕ → ℕ) → Text → Text → Tracer → Tracer
record_expression now desc source = record_step now Level.expression desc source

unfoldable pub record_rule : (ℕ → ℕ) → Text → Bool → Tracer → Tracer
record_rule now rule_name matched =
    record_step now Level.rule
      (rule_name
        ++ (text " (matched=" ++ ((if matched then text "true" else text "false") ++ text ")")))
      rule_name

unfoldable pub record_tree_branch : (ℕ → ℕ) → Text → Text → Text → Tracer → Tracer
record_tree_branch now field value branch =
    record_step now Level.tree_branch (field ++ (text "=" ++ (value ++ (text " -> " ++ branch))))
      field

unfoldable pub record_scoring : {D : Type 0} ⦃d : Double D⦄ → (ℕ → ℕ) → Text → D → Tracer → Tracer
record_scoring ⦃d⦄ now formula_desc score =
    record_step now Level.scoring (formula_desc ++ (text " score=" ++ d.print score)) formula_desc
