-- ===== src/Pipeline/Runner/Numbering.antt =====
-- The events of a whole run are numbered in the order in which they are written.
use datasheet_to_tscircuit.Prelude.{ℕ, suc, ◌≡◌, refl, true, List, [], ◌∷◌, String, if◌then◌else◌}
use datasheet_to_tscircuit.Pipeline.Types.{Stage, JsonFields}
use datasheet_to_tscircuit.Pipeline.Errors.{Thrown}
use datasheet_to_tscircuit.Pipeline.Result.{Result, return, throw}
use datasheet_to_tscircuit.Pipeline.Definition.{validate_pipeline_definition}
use datasheet_to_tscircuit.Pipeline.Effects.{Environment, Core, Run, raise}
use datasheet_to_tscircuit.Pipeline.Effects.Outcomes.{After}
use datasheet_to_tscircuit.Pipeline.Effects.Kept.{Keeps, Keeps-bind}
use datasheet_to_tscircuit.Pipeline.Trace.{Options, Setting, record_post_commit_trace_failure}
use datasheet_to_tscircuit.Pipeline.Trace.Numbering.{
  IsNumbered, event_numbers, countdown, numbered_rules, Keeps-emit, Keeps-record_failure,
}
use datasheet_to_tscircuit.Pipeline.Stages.Numbering.{Keeps-skip_unselected, Keeps-run_selected}
use datasheet_to_tscircuit.Pipeline.Runner.{
  run_stage, run_stages, finish_run, run_from_start, run_pipeline, initial_run, start_in_context,
  start_at_target, start_validated, serialize_execution_context, target_index,
}

module _ (env : Environment) (setting : Setting) where
  Keeps-run_stage :
      (target index : ℕ) (stage : Stage)
      → Keeps IsNumbered true (run_stage env setting target index stage)
  unfolding run_stage
  Keeps-run_stage target index stage =
      search (numbered_rules, Keeps-skip_unselected, Keeps-run_selected) depth 8

  Keeps-run_stages :
      (target index : ℕ) (stages : List Stage)
      → Keeps IsNumbered true (run_stages env setting target index stages)
  unfolding run_stages
  Keeps-run_stages target index [] = search numbered_rules
  Keeps-run_stages target index (stage ∷ stages) =
      Keeps-bind _ _ (Keeps-run_stage target index stage)
        (λ _. Keeps-run_stages target (suc index) stages)

  Keeps-record_end :
      (c : Core) (e : Thrown)
      → Keeps IsNumbered true (
          if c.has_committed_stage
          then record_post_commit_trace_failure env setting "pipeline"
              "record_pipeline_terminal_event" e
          else raise e)
  Keeps-record_end c e = search (numbered_rules, Keeps-record_failure)

  Keeps-finish_run : Keeps IsNumbered true (finish_run env setting)
  unfolding finish_run
  Keeps-finish_run = search (numbered_rules, Keeps-emit, Keeps-record_end) depth 10

Numbered-result :
    {A : Type 0} (r : Result A) (s : Run) → After (λ _. IsNumbered) IsNumbered r s → IsNumbered s
Numbered-result (return a) s h = h
Numbered-result (throw e) s h = h

module _ (env : Environment) (options : Options) where
  Keeps-run_from_start :
      (context : JsonFields) (dir : String) (target : ℕ)
      → Keeps IsNumbered true (run_from_start env options context dir target)
  unfolding run_from_start
  Keeps-run_from_start context dir target =
      search (numbered_rules, Keeps-emit, Keeps-run_stages, Keeps-finish_run) depth 10

  IsNumbered-in_context :
      (dir : String) (target : ℕ) (context : Result JsonFields) (s : Run)
      → IsNumbered s
      → IsNumbered (start_in_context env options dir target context s).1
  IsNumbered-in_context dir target (throw e) s h = h
  IsNumbered-in_context dir target (return context) s h =
      Numbered-result (run_from_start env options context dir target s).0 _
        ((Keeps-run_from_start context dir target).at s h)

  IsNumbered-at_target :
      (dir : String) (target : Result ℕ) (s : Run)
      → IsNumbered s
      → IsNumbered (start_at_target env options dir target s).1
  IsNumbered-at_target dir (throw e) s h = h
  IsNumbered-at_target dir (return target) s h =
      IsNumbered-in_context dir target (serialize_execution_context options) s h

  IsNumbered-validated :
      (dir : String) (r : Result (Unit {0})) (s : Run)
      → IsNumbered s
      → IsNumbered (start_validated env options dir r s).1
  IsNumbered-validated dir (throw e) s h = h
  IsNumbered-validated dir (return tt) s h = IsNumbered-at_target dir (target_index options) s h

  -- Whether a run returns or throws, and whatever fails in it: the events that it has appended or tried
  -- to append carry the numbers 1, 2, … up to its last sequence number, in this order, each once.
  pub run_pipeline_numbers :
      event_numbers (run_pipeline env options).1.trace
      ≡ countdown (run_pipeline env options).1.sequence
  unfolding run_pipeline
  run_pipeline_numbers =
      IsNumbered-validated (env.join (options.workspace_dir ∷ ".pipeline" ∷ []))
        (validate_pipeline_definition options.definition)
        (initial_run env options (env.join (options.workspace_dir ∷ ".pipeline" ∷ []))) refl
