-- ===== src/Pipeline/Effects.antt =====
-- What the runner does to the world, and the state that it keeps while it runs.
-- The world is an argument: `Environment` answers each effect by the number of effects before it, so
-- that a theorem over all environments covers every order in which files, callbacks, the clock and the
-- cancellation signal may answer. A rejected promise is a `throw`.
pub mod Quiet
pub mod Outcomes
pub mod Kept
pub mod Variables
use datasheet_to_tscircuit.Prelude.{
  ℕ, suc, String, Bool, Option, none, some, List, ◌∷◌, Dict, str_eq, if◌then◌else◌,
}
use datasheet_to_tscircuit.Pipeline.Types.{
  Json, Artifact, Diagnostic, Metrics, StageStatus, StageResult, Outcome, RunStatus, Event,
  Snapshot, TaskInputEnvelope,
}
use datasheet_to_tscircuit.Pipeline.Errors.{Thrown}
use datasheet_to_tscircuit.Pipeline.Result.{Result, return, throw}

-- `StageDebugMetrics`
pub record DebugMetrics : Type 0 where
  pub stage_id : String
  pub status : StageStatus
  pub started_at : Option ℕ
  pub completed_at : Option ℕ
  pub duration_ms : Option ℕ
  pub artifact_count : ℕ
  pub diagnostic_count : ℕ
  pub stage_metrics : Metrics

-- A file of a debug bundle.
pub data Document : Type 0 where
  envelope : TaskInputEnvelope → Document
  empty : Document
  output : StageResult → Document
  diagnostic : Diagnostic → Document
  metrics : DebugMetrics → Document

pub data Action : Type 0 where
  make_directory : (path : String) → Action
  write_json_files : (directory : String) → List (String × Document) → Action
  append_event : (path : String) → Event → Action
  observe : Snapshot → (timeout_ms : ℕ) → Action
  append_observer_error : (path : String) → Event → Thrown → Action
  append_trace_failure :
      (path : String) (timestamp sequence : ℕ) (stage_id operation : String) → Thrown → Action
  before_stage_start : (stage_id : String) → Action
  retain_input_files :
      (root debug_dir objects_dir : String) (excluded_roots : Option (List String)) → Action

pub record ExecutionInput : Type 0 where
  pub run_id : String
  pub pipeline_id : String
  pub stage_id : String
  pub debug_dir : String
  pub dependency_outputs : Dict Json

-- `signal.reason`
pub data AbortReason : Type 0 where
  an_error : (message : String) → AbortReason
  a_text : String → AbortReason
  other : AbortReason

pub record Environment : Type 0 where
  -- How an awaited action ends: `none` if it is fulfilled.
  pub respond : ℕ → Action → Option Thrown
  pub execute : ℕ → ExecutionInput → Result Outcome
  -- `snapshotPipelineArtifacts`: reads and copies files.
  pub snapshot_artifacts :
      ℕ → List Artifact → (debug_dir stage_id : String) → Result (List Artifact)
  pub now : ℕ → ℕ
  pub aborted : ℕ → Bool
  pub abort_reason : AbortReason
  -- `join` of node:path
  pub join : List String → String

-- What was done, with the failure of a rejected action.
pub data Step : Type 0 where
  performed : Action → Step
  rejected : Action → Thrown → Step
  executed : ExecutionInput → Step

-- `crossed_commit_barrier` and what is retained of the outcome that crossed it.
pub record Committed : Type 0 where
  pub output : Json
  pub artifacts : List Artifact
  pub diagnostics : List Diagnostic
  pub metrics : Metrics

-- The local variables of `runPipeline`; `committed` stands for those of one iteration.
pub record Core : Type 0 where
  pub stage_results : Dict StageResult
  pub has_failed_stage : Bool
  pub has_cancelled_stage : Bool
  pub has_committed_stage : Bool
  pub committed : Option Committed

pub record Run : Type 0 where
  pub core : Core
  pub sequence : ℕ
  pub run_status : RunStatus
  -- How many effects there were, and which, the newest first.
  pub clock : ℕ
  pub trace : List Step

abbrev pub M : Type 0 → Type 0
M A = Run → Result A × Run

module _ {A : Type 0} where
  unfoldable pub pure : A → M A
  pure a s = (return a, s)

  unfoldable pub raise : Thrown → M A
  raise e s = (throw e, s)

  -- A synchronous step that may throw.
  unfoldable pub lift : Result A → M A
  lift r s = (r, s)

  -- `try { body } catch (error) { handler }`: what the body has done stays done.
  unfoldable pub continue_caught : Result A → (Thrown → M A) → M A
  continue_caught (return a) handler s = (return a, s)
  continue_caught (throw e) handler s = handler e s

  unfoldable pub try_catch : M A → (Thrown → M A) → M A
  unfolding continue_caught
  try_catch body handler s = let (r, s') = body s in continue_caught r handler s'

module _ {A B : Type 0} where
  abbrev pub continue : Result A → (A → M B) → M B
  continue (return a) f s = f a s
  continue (throw e) f s = (throw e, s)

  infixl 5 ◌>>=◌
  unfoldable pub ◌>>=◌ : M A → (A → M B) → M B
  ◌>>=◌ m f s = let (r, s') = m s in continue r f s'

  infixl 5 ◌>>◌
  abbrev pub ◌>>◌ : M A → M B → M B
  m >> n = m >>= λ _. n

unfoldable pub modify_core : (Core → Core) → M (Unit {0})
modify_core f s = (return tt, record s { core = f s.core })

unfoldable pub get_core : M Core
get_core s = (return s.core, s)

unfoldable pub get_run : M Run
get_run s = (return s, s)

unfoldable pub advance_sequence : M (Unit {0})
advance_sequence s = (return tt, record s { sequence = suc s.sequence })

unfoldable pub set_run_status : RunStatus → M (Unit {0})
set_run_status status s = (return tt, record s { run_status = status })

abbrev log_step : Step → Run → Run
log_step step s = record s { clock = suc s.clock; trace = step ∷ s.trace }

module _ (env : Environment) where
  unfoldable pub answer : Action → Option Thrown → M (Unit {0})
  answer action none s = (return tt, log_step (performed action) s)
  answer action (some e) s = (throw e, log_step (rejected action e) s)

  -- `await action`
  unfoldable pub perform : Action → M (Unit {0})
  unfolding answer
  perform action s = answer action (env.respond s.clock action) s

  unfoldable pub read_now : M ℕ
  read_now s = (return (env.now s.clock), record s { clock = suc s.clock })

  -- `signal.aborted`
  unfoldable pub read_aborted : M Bool
  read_aborted s = (return (env.aborted s.clock), s)

  unfoldable pub run_execute : ExecutionInput → M Outcome
  run_execute input s = (env.execute s.clock input, log_step (executed input) s)

  unfoldable pub snapshot_pipeline_artifacts : List Artifact → String → String → M (List Artifact)
  snapshot_pipeline_artifacts artifacts debug_dir stage_id s = (
    env.snapshot_artifacts s.clock artifacts debug_dir stage_id,
    record s { clock = suc s.clock },
  )

unfoldable pub get_cancellation_reason : AbortReason → String
get_cancellation_reason (an_error message) = message
get_cancellation_reason (a_text t) = if str_eq t "" then "Pipeline run was cancelled" else t
get_cancellation_reason other = "Pipeline run was cancelled"
