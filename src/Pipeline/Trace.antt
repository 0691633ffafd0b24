-- ===== src/Pipeline/Trace.antt =====
-- pipeline-runner.ts: what a run records of itself: events with their observer, and the debug bundle
-- of each stage.
pub mod Quiet
pub mod Numbering
pub mod Variables
use datasheet_to_tscircuit.Prelude.{
  ℕ, ◌+◌, max, String, ◌<>◌, codes, decimal, pad_start, length, Bool, Option, none, some, List, [],
  ◌∷◌, if◌then◌else◌,
}
use datasheet_to_tscircuit.Pipeline.Types.{
  StageState, StageStatus, StageResult, status_of, PipelineDefinition, ExecutionTarget, EventBody,
  Event, Snapshot, TaskInputEnvelope, JsonFields,
}
use datasheet_to_tscircuit.Pipeline.Errors.{Thrown}
use datasheet_to_tscircuit.Pipeline.Result.{Result}
use datasheet_to_tscircuit.Pipeline.Effects.{
  make_directory, write_json_files, append_event, observe, append_observer_error,
  append_trace_failure, Document, DebugMetrics, Environment, Run, M, pure, try_catch, ◌>>=◌, ◌>>◌,
  get_run, advance_sequence, perform, read_now,
}

-- `RunPipelineOptions`. A callback is present or not, and the environment answers for it.
-- `serialized_context` is `JSON.parse(JSON.stringify(context))`: `none` if that is no object.
pub record Options : Type 0 where
  pub definition : PipelineDefinition
  pub run_id : String
  pub workspace_dir : String
  pub serialized_context : Result (Option JsonFields)
  pub target : Option ExecutionTarget
  pub has_observer : Bool
  pub snapshot_timeout_ms : Option ℕ
  pub has_before_stage_start : Bool
  pub task_input_root : Option String
  pub task_input_excluded_roots : Option (List String)

-- The constants of a run, bound before its first stage.
pub record Setting : Type 0 where
  pub options : Options
  pub context : JsonFields
  pub pipeline_dir : String
  pub events_path : String
  pub observer_errors_path : String
  pub started_at : ℕ

unfoldable pub make_debug_dir : Environment → String → ℕ → ℕ → String → String
unfolding decimal pad_start
make_debug_dir env pipeline_dir stage_index stage_count stage_id =
    let width = max 2 (length (codes (decimal stage_count))) in
    env.join (
      pipeline_dir
      ∷ "stages"
      ∷ (pad_start width "0" (decimal (stage_index + 1)) <> "-" <> stage_id)
      ∷ [])

unfoldable pub snapshot : Setting → ℕ → Run → Snapshot
snapshot setting updated_at s = record {
  run_id = setting.options.run_id;
  pipeline_id = setting.options.definition.pipeline_id;
  status = s.run_status;
  sequence = s.sequence;
  started_at = setting.started_at;
  updated_at = updated_at;
  stage_results = s.core.stage_results;
}

-- `Math.max(1, options.snapshot_timeout_ms ?? 5_000)`
abbrev timeout_of : Option ℕ → ℕ
timeout_of none = 5000
timeout_of (some ms) = max 1 ms

abbrev pub event_of : Setting → EventBody → ℕ → ℕ → Event
event_of setting body sequence timestamp = record {
  body = body;
  run_id = setting.options.run_id;
  pipeline_id = setting.options.definition.pipeline_id;
  sequence = sequence;
  timestamp = timestamp;
}

module _ (env : Environment) (setting : Setting) where
  notify_observer : ℕ → M (Unit {0})
  unfolding snapshot
  notify_observer timestamp =
      if setting.options.has_observer
      then (do
        s ← get_run
        perform env (
            observe (snapshot setting timestamp s)
              (timeout_of setting.options.snapshot_timeout_ms)))
      else pure tt

  -- The event is written before the observer runs, and a failure of the observer is only recorded.
  unfoldable pub emit : EventBody → M (Unit {0})
  unfolding notify_observer
  emit body = do
    timestamp ← read_now env
    advance_sequence
    s ← get_run
    perform env (append_event setting.events_path (event_of setting body s.sequence timestamp))
    try_catch (notify_observer timestamp) (λ e.
        try_catch
          (perform env (
            append_observer_error setting.observer_errors_path
              (event_of setting body s.sequence timestamp) e))
          (λ _. pure tt))

  unfoldable pub record_post_commit_trace_failure : String → String → Thrown → M (Unit {0})
  record_post_commit_trace_failure stage_id operation e = do
    timestamp ← read_now env
    s ← get_run
    try_catch
        (perform env (
          append_trace_failure setting.observer_errors_path timestamp s.sequence stage_id operation
            e))
        (λ _. pure tt)

abbrev pending_metrics : String → Option ℕ → DebugMetrics
pending_metrics task_id started_at = record {
  stage_id = task_id;
  status = elim started_at [ none ↦ StageStatus.pending | some _ ↦ StageStatus.running ];
  started_at = started_at;
  completed_at = none;
  duration_ms = none;
  artifact_count = 0;
  diagnostic_count = 0;
  stage_metrics = [];
}

-- `started_at`, `completed_at` and `duration_ms` of a terminal result.
abbrev started_of : StageState → Option ℕ
started_of (StageState.completed _ t _ _) = some t
started_of (StageState.failed _ t _ _) = some t
started_of (StageState.skipped _ _ t _) = t
started_of (StageState.cancelled _ _ t _) = t
started_of _ = none

abbrev completed_of : StageState → Option ℕ
completed_of (StageState.completed _ _ t _) = some t
completed_of (StageState.failed _ _ t _) = some t
completed_of (StageState.skipped _ t _ _) = some t
completed_of (StageState.cancelled _ t _ _) = some t
completed_of _ = none

abbrev duration_of : StageState → Option ℕ
duration_of (StageState.completed _ _ _ t) = some t
duration_of (StageState.failed _ _ _ t) = some t
duration_of (StageState.skipped _ _ _ t) = t
duration_of (StageState.cancelled _ _ _ t) = t
duration_of _ = none

abbrev error_document : StageState → Document
error_document (StageState.failed d _ _ _) = Document.diagnostic d
error_document _ = Document.empty

abbrev terminal_metrics : StageResult → DebugMetrics
terminal_metrics result = record {
  stage_id = result.stage_id;
  status = status_of result.state;
  started_at = started_of result.state;
  completed_at = completed_of result.state;
  duration_ms = duration_of result.state;
  artifact_count = length result.artifacts;
  diagnostic_count = length result.diagnostics;
  stage_metrics = result.metrics;
}

module _ (env : Environment) where
  unfoldable pub write_initial_debug_bundle : String → TaskInputEnvelope → Option ℕ → M (Unit {0})
  write_initial_debug_bundle debug_dir input started_at = do
    perform env (make_directory debug_dir)
    perform env (
        write_json_files debug_dir (
          ("input.json", Document.envelope input)
          ∷ ("output.json", Document.empty)
          ∷ ("error.json", Document.empty)
          ∷ ("metrics.json", Document.metrics (pending_metrics input.task_id started_at))
          ∷ []))

  unfoldable pub write_terminal_debug_bundle : String → StageResult → M (Unit {0})
  write_terminal_debug_bundle debug_dir result = perform env (
      write_json_files debug_dir (
        ("output.json", Document.output result)
        ∷ ("metrics.json", Document.metrics (terminal_metrics result))
        ∷ ("error.json", error_document result.state)
        ∷ []))
