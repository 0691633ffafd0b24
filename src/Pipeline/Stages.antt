-- ===== src/Pipeline/Stages.antt =====
-- pipeline-runner.ts, the body of the loop over the stages in `runPipeline`, one function for each of
-- its parts. A `continue` is the end of a function.
pub mod Closed
pub mod Closing
pub mod Running
pub mod Selected
pub mod Total
pub mod Commit
pub mod Numbering
use datasheet_to_tscircuit.Prelude.{
  ℕ, ◌-◌, String, ◌<>◌, str_eq, join_text, Bool, true, false, ◌||◌, Option, none, some, List, [],
  ◌∷◌, ◌++◌, map, put, if◌then◌else◌,
}
use datasheet_to_tscircuit.Pipeline.Types.{
  Json, Artifact, Severity, Diagnostic, Metrics, StageState, StageResult, Outcome, Stage, EventBody,
  TaskInputEnvelope,
}
use datasheet_to_tscircuit.Pipeline.Errors.{Thrown, get_pipeline_cause_chain, to_pipeline_error}
use datasheet_to_tscircuit.Pipeline.Definition.{stage_reference}
use datasheet_to_tscircuit.Pipeline.Artifacts.{validate_artifacts}
use datasheet_to_tscircuit.Pipeline.Dependencies.{DependencyState, no_dependencies}
use datasheet_to_tscircuit.Pipeline.Effects.{
  make_directory, before_stage_start, retain_input_files, ExecutionInput, Environment, Committed,
  Core, M, pure, lift, try_catch, ◌>>=◌, ◌>>◌, modify_core, get_core, perform, read_now,
  read_aborted, run_execute, snapshot_pipeline_artifacts, get_cancellation_reason,
}
use datasheet_to_tscircuit.Pipeline.Trace.{
  Setting, emit, record_post_commit_trace_failure, write_initial_debug_bundle,
  write_terminal_debug_bundle,
}

-- `mutable_results[stage_id] = result`
abbrev pub with_result : String → StageResult → Core → Core
with_result id result c = record c { stage_results = put id result c.stage_results }

abbrev pub mark_cancelled : Core → Core
mark_cancelled c = record c { has_cancelled_stage = true }

abbrev pub mark_failed : Core → Core
mark_failed c = record c { has_failed_stage = true }

abbrev mark_committed : Committed → Core → Core
mark_committed kept c = record c { has_committed_stage = true; committed = some kept }

-- A result with no artifacts, diagnostics or metrics.
abbrev pub plain_result : String → String → StageState → StageResult
plain_result stage_id debug_dir state = record {
  stage_id = stage_id;
  debug_dir = debug_dir;
  state = state;
  artifacts = [];
  diagnostics = [];
  metrics = [];
}

-- `value ?? []`
abbrev or_empty {ℓ} : {A : Type ℓ} → Option (List A) → List A
or_empty none = []
or_empty (some xs) = xs

-- `state?.dependency_statuses ?? {}`, and so for the outputs
abbrev or_no_dependencies : Option DependencyState → DependencyState
or_no_dependencies none = no_dependencies
or_no_dependencies (some state) = state

-- An empty text is no root.
abbrev present_root : Option String → Option String
present_root none = none
present_root (some root) = if str_eq root "" then none else some root

module _ (env : Environment) (setting : Setting) (stage : Stage) (debug_dir : String) where
  abbrev envelope_of : DependencyState → Bool → TaskInputEnvelope
  envelope_of state input_files = record {
    pipeline_id = setting.options.definition.pipeline_id;
    task_id = stage.id;
    run_id = setting.options.run_id;
    execution_context = setting.context;
    depends_on = stage.depends_on;
    dependency_statuses = state.dependency_statuses;
    dependency_outputs = state.dependency_outputs;
    input_files = input_files;
  }

  -- `retainPipelineTaskInputFiles`
  retain_under : String → M (Unit {0})
  retain_under root = perform env (
      retain_input_files root debug_dir (env.join (setting.pipeline_dir ∷ "input-objects" ∷ []))
        setting.options.task_input_excluded_roots)

  -- The input files of a continuation candidate, if there is a root: whether there are any.
  retain_files : Option String → M Bool
  unfolding retain_under
  retain_files none = pure false
  retain_files (some root) = do perform env (make_directory debug_dir); retain_under root; pure true

  -- The input files of a stage that starts; its directory is made in any case.
  retain_started : Option String → M Bool
  unfolding retain_under
  retain_started none = pure false
  retain_started (some root) = do retain_under root; pure true

  unfoldable pub prepare_directory : M Bool
  unfolding retain_started
  prepare_directory = do
    perform env (make_directory debug_dir)
    retain_started (present_root setting.options.task_input_root)

  -- The end of a stage that never ran: the result, both bundles and the event.
  unfoldable pub close_unstarted :
      (Core → Core) → StageResult → TaskInputEnvelope → EventBody → M (Unit {0})
  close_unstarted mark result input event = do
    modify_core (λ c. mark (with_result stage.id result c))
    write_initial_debug_bundle env debug_dir input none
    write_terminal_debug_bundle env debug_dir result
    emit env setting event

  -- The end of a stage that ran.
  unfoldable pub close_started : (Core → Core) → StageResult → EventBody → M (Unit {0})
  close_started mark result event = do
    modify_core (λ c. mark (with_result stage.id result c))
    write_terminal_debug_bundle env debug_dir result
    emit env setting event

  abbrev unselected_reason : String
  unselected_reason = "Stage was not selected for this isolated pipeline invocation"

  files_if_ready : List String → M Bool
  unfolding retain_files
  files_if_ready [] = retain_files (present_root setting.options.task_input_root)
  files_if_ready (_ ∷ _) = pure false

  continuation_files : Option DependencyState → M Bool
  unfolding files_if_ready
  continuation_files none = pure false
  continuation_files (some state) = files_if_ready state.incomplete_dependencies

  -- `state` is the dependency state of a continuation candidate.
  unfoldable pub skip_unselected : Option DependencyState → M (Unit {0})
  unfolding continuation_files
  skip_unselected state = do
    files ← continuation_files state
    completed_at ← read_now env
    let result =
        plain_result stage.id debug_dir
          (StageState.skipped unselected_reason completed_at none none)
    close_unstarted (λ c. c) result (envelope_of (or_no_dependencies state) files)
        (EventBody.stage_skipped stage.id debug_dir unselected_reason)

  -- Before the stage is started.
  unfoldable pub cancel_unstarted : DependencyState → M (Unit {0})
  unfolding get_cancellation_reason
  cancel_unstarted state = do
    completed_at ← read_now env
    let reason = get_cancellation_reason env.abort_reason
    let result =
        plain_result stage.id debug_dir (StageState.cancelled reason completed_at none none)
    close_unstarted mark_cancelled result (envelope_of state false)
        (EventBody.stage_cancelled stage.id debug_dir reason)

  abbrev incomplete_diagnostic : String → List String → Diagnostic
  incomplete_diagnostic reason incomplete = record {
    code = "dependency_not_completed";
    severity = Severity.warning;
    message = reason;
    stage_id = some stage.id;
    operation = "resolve_stage_dependencies";
    entity_refs = map stage_reference incomplete;
    artifact_refs = [];
    cause_chain = [];
    hint = some "Inspect the dependency stage result and its debug bundle.";
    retryable = false;
  }

  unfoldable pub skip_incomplete : DependencyState → M (Unit {0})
  skip_incomplete state = do
    completed_at ← read_now env
    let reason = "Dependencies did not complete: " <> join_text ", " state.incomplete_dependencies
    let result =
        record (plain_result stage.id debug_dir
          (StageState.skipped reason completed_at none none)) {
            diagnostics = incomplete_diagnostic reason state.incomplete_dependencies ∷ [];
          }
    close_unstarted (λ c. c) result (envelope_of state false)
        (EventBody.stage_skipped stage.id debug_dir reason)

  -- A cancellation while the stage runs.
  unfoldable pub cancel_started : (started completed_at : ℕ) → M (Unit {0})
  unfolding get_cancellation_reason
  cancel_started started completed_at =
      let reason = get_cancellation_reason env.abort_reason in
      close_started mark_cancelled
        (plain_result stage.id debug_dir
          (StageState.cancelled reason completed_at (some started) (some (completed_at - started))))
        (EventBody.stage_cancelled stage.id debug_dir reason)

  -- The declared artifacts are checked and copied.
  unfoldable pub collect_artifacts : Option (List Artifact) → M (List Artifact)
  collect_artifacts declared = do
    artifacts ← lift (validate_artifacts (or_empty declared) stage.id)
    snapshot_pipeline_artifacts env artifacts debug_dir stage.id

  -- The rest of the `try` block for a stage that skips itself.
  unfoldable pub close_skipped :
      ℕ
      → ℕ
      → String
      → Option (List Artifact)
      → Option (List Diagnostic)
      → Option Metrics
      → M (Unit {0})
  close_skipped started completed_at reason declared diagnostics metrics = do
    artifacts ← collect_artifacts declared
    close_started (λ c. c)
        (record {
          stage_id = stage.id;
          debug_dir = debug_dir;
          state =
              StageState.skipped reason completed_at (some started) (some (completed_at - started));
          artifacts = artifacts;
          diagnostics = or_empty diagnostics;
          metrics = or_empty metrics;
        })
        (EventBody.stage_skipped stage.id debug_dir reason)

  abbrev completed_result : Json → ℕ → ℕ → List Artifact → List Diagnostic → Metrics → StageResult
  completed_result output started completed_at artifacts diagnostics metrics = record {
    stage_id = stage.id;
    debug_dir = debug_dir;
    state = StageState.completed output started completed_at (completed_at - started);
    artifacts = artifacts;
    diagnostics = diagnostics;
    metrics = metrics;
  }

  abbrev committed_of : Json → List Artifact → List Diagnostic → Metrics → Committed
  committed_of output artifacts diagnostics metrics = record {
    output = output;
    artifacts = artifacts;
    diagnostics = diagnostics;
    metrics = metrics;
  }

  -- The rest of the `try` block for a completed outcome; a committed one is retained first, and again
  -- with its artifacts.
  unfoldable pub close_completed :
      ℕ
      → ℕ
      → Json
      → Bool
      → Option (List Artifact)
      → Option (List Diagnostic)
      → Option Metrics
      → M (Unit {0})
  close_completed started completed_at output committed declared diagnostics metrics = do
    artifacts ← collect_artifacts declared
    modify_core (
        if committed
        then (λ c. record c {
          committed =
              some (committed_of output artifacts (or_empty diagnostics) (or_empty metrics));
        })
        else (λ c. c))
    close_started (λ c. c)
        (completed_result output started completed_at artifacts (or_empty diagnostics)
          (or_empty metrics))
        (EventBody.stage_completed stage.id debug_dir (completed_at - started))

  -- What follows on `stage.execute` in the `try` block.
  unfoldable pub settle : ℕ → Outcome → M (Unit {0})
  settle started (Outcome.skipped reason artifacts diagnostics metrics) = do
    completed_at ← read_now env
    aborted ← read_aborted env
    (if aborted
        then cancel_started started completed_at
        else close_skipped started completed_at reason artifacts diagnostics metrics)
  settle started (Outcome.completed output false artifacts diagnostics metrics) = do
    completed_at ← read_now env
    aborted ← read_aborted env
    (if aborted
        then cancel_started started completed_at
        else close_completed started completed_at output false artifacts diagnostics metrics)
  settle started (Outcome.completed output true artifacts diagnostics metrics) = do
    completed_at ← read_now env
    modify_core (mark_committed (committed_of output [] [] []))
    close_completed started completed_at output true artifacts diagnostics metrics

  abbrev execution_input : DependencyState → ExecutionInput
  execution_input state = record {
    run_id = setting.options.run_id;
    pipeline_id = setting.options.definition.pipeline_id;
    stage_id = stage.id;
    debug_dir = debug_dir;
    dependency_outputs = state.dependency_outputs;
  }

  -- The `try` block.
  unfoldable pub execute_stage : ℕ → DependencyState → M (Unit {0})
  execute_stage started state = do
    outcome ← run_execute env (execution_input state)
    settle started outcome

  abbrev trace_diagnostic : Thrown → Diagnostic
  trace_diagnostic e = record {
    code = "post_commit_trace_failure";
    severity = Severity.warning;
    message =
        "The stage publication committed successfully, but its terminal trace could not be fully recorded.";
    stage_id = some stage.id;
    operation = "record_committed_stage_result";
    entity_refs = [];
    artifact_refs = [];
    cause_chain = get_pipeline_cause_chain e;
    hint =
        some
          "Inspect observer-errors.ndjson and verify storage health. The committed publication remains authoritative.";
    retryable = false;
  }

  -- The `catch` block, once the commit barrier is crossed: it records and never throws.
  unfoldable pub recover_committed : ℕ → ℕ → Committed → Thrown → M (Unit {0})
  recover_committed started completed_at kept e = do
    let result =
        completed_result kept.output started completed_at kept.artifacts
          (kept.diagnostics ++ trace_diagnostic e ∷ []) kept.metrics
    modify_core (with_result stage.id result)
    record_post_commit_trace_failure env setting stage.id "record_committed_stage_result" e
    try_catch (write_terminal_debug_bundle env debug_dir result)
        (record_post_commit_trace_failure env setting stage.id "write_committed_stage_debug_bundle")

  unfoldable pub fail_stage : ℕ → ℕ → Thrown → M (Unit {0})
  unfolding to_pipeline_error
  fail_stage started completed_at e =
      let diagnostic =
        to_pipeline_error e
          (record {
            code = "stage_execution_failed";
            stage_id = some stage.id;
            operation = "execute_stage";
            entity_refs = [];
            artifact_refs = [];
            hint = none;
            retryable = false;
          })
          ("Stage " <> stage.id <> " failed") in
      close_started mark_failed
        (record (plain_result stage.id debug_dir
          (StageState.failed diagnostic started completed_at (completed_at - started))) {
            diagnostics = diagnostic ∷ [];
          })
        (EventBody.stage_failed stage.id debug_dir diagnostic)

  unfoldable pub close_failure : ℕ → ℕ → Thrown → Option Committed → M (Unit {0})
  close_failure started completed_at e (some kept) = recover_committed started completed_at kept e
  close_failure started completed_at e none = do
    aborted ← read_aborted env
    (if aborted then cancel_started started completed_at else fail_stage started completed_at e)

  -- The `catch` block.
  unfoldable pub handle_failure : ℕ → Thrown → M (Unit {0})
  unfolding close_failure
  handle_failure started e = do
    completed_at ← read_now env
    c ← get_core
    close_failure started completed_at e c.committed

  unfoldable pub attempt_stage : ℕ → DependencyState → M (Unit {0})
  attempt_stage started state = try_catch (execute_stage started state) (handle_failure started)

  -- From the start of the stage on. `committed` is declared anew in each iteration.
  unfoldable pub start_stage : DependencyState → M (Unit {0})
  start_stage state = do
    started ← read_now env
    files ← prepare_directory
    modify_core
        (with_result stage.id (plain_result stage.id debug_dir (StageState.running started)))
    write_initial_debug_bundle env debug_dir (envelope_of state files) (some started)
    emit env setting (EventBody.stage_started stage.id debug_dir)
    modify_core (λ c. record c { committed = none })
    attempt_stage started state

  await_before_stage_start : M (Unit {0})
  await_before_stage_start =
      if setting.options.has_before_stage_start
      then perform env (before_stage_start stage.id)
      else pure tt

  -- A selected stage that is not cancelled yet, by its incomplete dependencies.
  start_if_ready : DependencyState → List String → M (Unit {0})
  unfolding await_before_stage_start
  start_if_ready state (_ ∷ _) = skip_incomplete state
  start_if_ready state [] = do
    await_before_stage_start
    aborted ← read_aborted env
    (if aborted then cancel_unstarted state else start_stage state)

  -- A selected stage, its dependencies resolved.
  unfoldable pub run_selected : DependencyState → M (Unit {0})
  unfolding start_if_ready
  run_selected state = do
    aborted ← read_aborted env
    c ← get_core
    (if aborted || c.has_cancelled_stage
        then cancel_unstarted state
        else start_if_ready state state.incomplete_dependencies)
