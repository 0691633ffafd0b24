-- ===== src/Pipeline/Runner.antt =====
-- pipeline-runner.ts, `runPipeline`: the selection of stages, the loop and the end of a run.
pub mod Progress
pub mod Completion
pub mod Final
pub mod Total
pub mod Numbering
use datasheet_to_tscircuit.Prelude.{
  ℕ, suc, ◌==◌, ltb, length, String, ◌<>◌, str_eq, Bool, true, false, ◌||◌, Option, none, some,
  List, [], ◌∷◌, Dict, lookup, put, if◌then◌else◌,
}
use datasheet_to_tscircuit.Pipeline.Types.{
  Json, JsonFields, RunStatus, StageState, StageResult, Stage, ExecutionTarget, EventBody, Snapshot,
}
use datasheet_to_tscircuit.Pipeline.Errors.{Thrown, pipeline_error, diagnostic_of}
use datasheet_to_tscircuit.Pipeline.Result.{Result, return, throw}
use datasheet_to_tscircuit.Pipeline.Definition.{validate_pipeline_definition}
use datasheet_to_tscircuit.Pipeline.Dependencies.{DependencyState, get_dependency_state}
use datasheet_to_tscircuit.Pipeline.Effects.{
  make_directory, Environment, Core, Run, M, pure, raise, lift, try_catch, ◌>>=◌, ◌>>◌, get_core,
  get_run, set_run_status, perform, read_now,
}
use datasheet_to_tscircuit.Pipeline.Trace.{
  Options, Setting, make_debug_dir, snapshot, emit, record_post_commit_trace_failure,
}
use datasheet_to_tscircuit.Pipeline.Stages.{plain_result, skip_unselected, run_selected}

abbrev runner_error : String → String → Option String → String → Thrown
runner_error code message stage_id operation = pipeline_error (
    diagnostic_of
      (record {
        code = code;
        stage_id = stage_id;
        operation = operation;
        entity_refs = [];
        artifact_refs = [];
        hint = none;
        retryable = false;
      })
      message [])

-- `options.target ?? { mode: "pipeline" }`
abbrev pub target_of : Options → ExecutionTarget
target_of options = elim options.target [ none ↦ ExecutionTarget.pipeline | some t ↦ t ]

-- `stages.findIndex((stage) => stage.id === id)`
unfoldable pub find_index : String → List Stage → Option ℕ
find_index id [] = none
find_index id (stage ∷ stages) = elim (find_index id stages) [
  | none ↦ if str_eq stage.id id then some 0 else none
  | some i ↦ if str_eq stage.id id then some 0 else some (suc i)
]

abbrev index_or_throw : Options → String → Option ℕ → Result ℕ
index_or_throw options id (some i) = return i
index_or_throw options id none = throw (
    runner_error "pipeline_stage_not_found"
      ("Pipeline " <> options.definition.pipeline_id <> " has no stage " <> id) (some id)
      "select_pipeline_execution_target")

unfoldable pub target_index : Options → Result ℕ
unfolding find_index
target_index options = elim (target_of options) [
  | ExecutionTarget.pipeline ↦ return 0
  | ExecutionTarget.stage id _ ↦ index_or_throw options id (find_index id options.definition.stages)
  | ExecutionTarget.from_stage id _ ↦
      index_or_throw options id (find_index id options.definition.stages)
]

unfoldable pub is_selected : ExecutionTarget → (target_index stage_index : ℕ) → Bool
is_selected ExecutionTarget.pipeline target index = true
is_selected (ExecutionTarget.stage _ _) target index = index == target
is_selected (ExecutionTarget.from_stage _ _) target index = index == target || ltb target index

-- `target.dependency_outputs`, for a target that has them.
abbrev pub target_outputs : ExecutionTarget → Option (Dict Json)
target_outputs ExecutionTarget.pipeline = none
target_outputs (ExecutionTarget.stage _ outputs) = some outputs
target_outputs (ExecutionTarget.from_stage _ outputs) = some outputs

unfoldable pub serialize_execution_context : Options → Result JsonFields
serialize_execution_context options = elim options.serialized_context [
  | throw e ↦ throw e
  | return none ↦ throw (
      runner_error "task_context_not_serializable"
        "Pipeline task execution context must serialize to a JSON object" none
        "serialize_task_input")
  | return (some fields) ↦ return fields
]

-- The loop that makes every stage pending; `count` is the number of all stages.
unfoldable pub pending_results :
    Environment → String → (count index : ℕ) → List Stage → Dict StageResult → Dict StageResult
pending_results env pipeline_dir count index [] results = results
pending_results env pipeline_dir count index (stage ∷ stages) results =
    pending_results env pipeline_dir count (suc index) stages (
      put stage.id
        (plain_result stage.id (make_debug_dir env pipeline_dir index count stage.id)
          StageState.pending)
        results)

module _ (env : Environment) (setting : Setting) (target : ℕ) where
  -- `prior_result.debug_dir`
  prior_dir : Stage → Dict StageResult → Result String
  prior_dir stage results = elim (lookup stage.id results) [
    | none ↦ throw (
        runner_error "missing_stage_result" ("No pending result exists for stage " <> stage.id)
          (some stage.id) "run_pipeline")
    | some prior ↦ return prior.debug_dir
  ]

  abbrev target_mode : ExecutionTarget
  target_mode = target_of setting.options

  -- The state of a stage that is not selected: only a stage behind the target has one.
  continuation_state : ℕ → Stage → Dict StageResult → Result (Option DependencyState)
  unfolding get_dependency_state
  continuation_state index stage results =
      if ltb target index
      then elim (get_dependency_state stage results none (target_outputs target_mode)) [
        | return state ↦ return (some state)
        | throw e ↦ throw e
      ]
      else return none

  selected_state : ℕ → Stage → Dict StageResult → Result DependencyState
  unfolding get_dependency_state
  selected_state index stage results =
      get_dependency_state stage results
        (if index == target then target_outputs target_mode else none) (target_outputs target_mode)

  -- One round of the loop.
  unfoldable pub run_stage : ℕ → Stage → M (Unit {0})
  unfolding prior_dir continuation_state selected_state is_selected
  run_stage index stage = do
    c ← get_core
    debug_dir ← lift (prior_dir stage c.stage_results)
    (if is_selected target_mode target index
        then (do
          state ← lift (selected_state index stage c.stage_results)
          run_selected env setting stage debug_dir state)
        else (do
          state ← lift (continuation_state index stage c.stage_results)
          skip_unselected env setting stage debug_dir state))

  unfoldable pub run_stages : ℕ → List Stage → M (Unit {0})
  run_stages index [] = pure tt
  run_stages index (stage ∷ stages) = do run_stage index stage; run_stages (suc index) stages

abbrev pub final_status : Core → RunStatus
final_status c =
    if c.has_cancelled_stage
    then RunStatus.cancelled
    else if c.has_failed_stage
    then RunStatus.failed
    else RunStatus.completed

abbrev final_event : RunStatus → EventBody
final_event RunStatus.completed = EventBody.pipeline_completed
final_event RunStatus.failed = EventBody.pipeline_failed
final_event _ = EventBody.pipeline_cancelled

-- A failure to record the end of a run is thrown, unless a stage has committed.
unfoldable pub finish_run : Environment → Setting → M Snapshot
unfolding snapshot
finish_run env setting = do
  c ← get_core
  set_run_status (final_status c)
  completed_at ← read_now env
  try_catch (emit env setting (final_event (final_status c))) (λ e.
      if c.has_committed_stage
      then record_post_commit_trace_failure env setting "pipeline" "record_pipeline_terminal_event"
          e
      else raise e)
  s ← get_run
  pure (snapshot setting completed_at s)

abbrev pub initial_run : Environment → Options → String → Run
initial_run env options pipeline_dir = record {
  core = record {
    stage_results =
        pending_results env pipeline_dir (length options.definition.stages) 0
          options.definition.stages [];
    has_failed_stage = false;
    has_cancelled_stage = false;
    has_committed_stage = false;
    committed = none;
  };
  sequence = 0;
  run_status = RunStatus.running;
  clock = 0;
  trace = [];
}

-- The awaited part of a run.
unfoldable pub run_from_start : Environment → Options → JsonFields → String → ℕ → M Snapshot
unfolding run_stages finish_run
run_from_start env options context pipeline_dir target = do
  perform env (make_directory (env.join (pipeline_dir ∷ "stages" ∷ [])))
  started_at ← read_now env
  let setting : Setting = record {
    options = options;
    context = context;
    pipeline_dir = pipeline_dir;
    events_path = env.join (pipeline_dir ∷ "events.ndjson" ∷ []);
    observer_errors_path = env.join (pipeline_dir ∷ "observer-errors.ndjson" ∷ []);
    started_at = started_at;
  }
  emit env setting EventBody.pipeline_started
  run_stages env setting target 0 options.definition.stages
  finish_run env setting

-- The start of a run, each part by the end of the one before: the definition, the target and the
-- context.
abbrev pub start_in_context : Environment → Options → String → ℕ → Result JsonFields → M Snapshot
start_in_context env options dir target (throw e) s = (throw e, s)
start_in_context env options dir target (return context) s =
    run_from_start env options context dir target s

abbrev pub start_at_target : Environment → Options → String → Result ℕ → M Snapshot
start_at_target env options dir (throw e) s = (throw e, s)
start_at_target env options dir (return target) s =
    start_in_context env options dir target (serialize_execution_context options) s

abbrev pub start_validated : Environment → Options → String → Result (Unit {0}) → M Snapshot
start_validated env options dir (throw e) s = (throw e, s)
start_validated env options dir (return _) s =
    start_at_target env options dir (target_index options) s

-- The result of a run, with the state in which it ended.
unfoldable pub run_pipeline : Environment → Options → Result Snapshot × Run
run_pipeline env options =
    let pipeline_dir = env.join (options.workspace_dir ∷ ".pipeline" ∷ []) in
    start_validated env options pipeline_dir (validate_pipeline_definition options.definition)
      (initial_run env options pipeline_dir)
