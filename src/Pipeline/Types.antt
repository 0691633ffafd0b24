-- ===== src/Pipeline/Types.antt =====
-- src/shared/pipeline-types.ts: stages, their results, events and snapshots of a run.
-- A time is its count of milliseconds: `toISOString` only prints it. A number inside a JSON value is
-- kept as its text, since the runner computes with none.
use datasheet_to_tscircuit.Prelude.{ℕ, String, Bool, true, false, Option, List, Dict}

mutual
  pub data Json : Type 0 where
    null : Json
    boolean : Bool → Json
    number : String → Json
    text : String → Json
    array : JsonItems → Json
    object : JsonFields → Json

  pub data JsonItems : Type 0 where
    nil : JsonItems
    cons : Json → JsonItems → JsonItems

  pub data JsonFields : Type 0 where
    end : JsonFields
    field : String → Json → JsonFields → JsonFields

pub record ArtifactHash : Type 0 where
  pub algorithm : String
  pub value : String

-- `size_bytes` is a JavaScript number, of which the runner asks whether it is an integer from 0.
pub data Size : Type 0 where
  whole : ℕ → Size
  negative : ℕ → Size
  not_an_integer : Size

pub record Artifact : Type 0 where
  pub artifact_id : String
  pub path : String
  pub hash : ArtifactHash
  pub size_bytes : Size
  pub media_type : String
  pub role : String

pub record Cause : Type 0 where
  pub name : String
  pub message : String

pub record EntityReference : Type 0 where
  pub entity_type : String
  pub entity_id : String

pub record ArtifactReference : Type 0 where
  pub artifact_id : Option String
  pub path : Option String

pub data Severity : Type 0 where
  info warning error : Severity

pub record Diagnostic : Type 0 where
  pub code : String
  pub severity : Severity
  pub message : String
  pub stage_id : Option String
  pub operation : String
  pub entity_refs : List EntityReference
  pub artifact_refs : List ArtifactReference
  pub cause_chain : List Cause
  pub hint : Option String
  pub retryable : Bool

abbrev pub Metrics : Type 0
Metrics = Dict Json

pub data StageStatus : Type 0 where
  pending running completed skipped failed cancelled : StageStatus

-- What `PipelineStageResult` holds beside its base, for each status.
pub data StageState : Type 0 where
  pending : StageState
  running : (started_at : ℕ) → StageState
  completed : (output : Json) (started_at completed_at duration_ms : ℕ) → StageState
  skipped : (reason : String) (completed_at : ℕ) (started_at duration_ms : Option ℕ) → StageState
  failed : (error : Diagnostic) (started_at completed_at duration_ms : ℕ) → StageState
  cancelled : (reason : String) (completed_at : ℕ) (started_at duration_ms : Option ℕ) → StageState

pub record StageResult : Type 0 where
  pub stage_id : String
  pub debug_dir : String
  pub state : StageState
  pub artifacts : List Artifact
  pub diagnostics : List Diagnostic
  pub metrics : Metrics

abbrev pub status_of : StageState → StageStatus
status_of StageState.pending = StageStatus.pending
status_of (StageState.running _) = StageStatus.running
status_of (StageState.completed _ _ _ _) = StageStatus.completed
status_of (StageState.skipped _ _ _ _) = StageStatus.skipped
status_of (StageState.failed _ _ _ _) = StageStatus.failed
status_of (StageState.cancelled _ _ _ _) = StageStatus.cancelled

-- The statuses of `TerminalStageResult`.
abbrev pub is_terminal : StageState → Bool
is_terminal StageState.pending = false
is_terminal (StageState.running _) = false
is_terminal _ = true

abbrev pub is_failed : StageState → Bool
is_failed (StageState.failed _ _ _ _) = true
is_failed _ = false

abbrev pub is_cancelled : StageState → Bool
is_cancelled (StageState.cancelled _ _ _ _) = true
is_cancelled _ = false

-- What a stage's `execute` returns.
pub data Outcome : Type 0 where
  completed :
      (output : Json) (committed : Bool) (artifacts : Option (List Artifact))
      (diagnostics : Option (List Diagnostic)) (metrics : Option Metrics)
      → Outcome
  skipped :
      (reason : String) (artifacts : Option (List Artifact))
      (diagnostics : Option (List Diagnostic)) (metrics : Option Metrics)
      → Outcome

pub record Stage : Type 0 where
  pub id : String
  pub depends_on : List String

pub record PipelineDefinition : Type 0 where
  pub pipeline_id : String
  pub stages : List Stage

pub data ExecutionTarget : Type 0 where
  pipeline : ExecutionTarget
  stage : (stage_id : String) (dependency_outputs : Dict Json) → ExecutionTarget
  from_stage : (stage_id : String) (dependency_outputs : Dict Json) → ExecutionTarget

pub data RunStatus : Type 0 where
  running completed failed cancelled : RunStatus

pub data EventBody : Type 0 where
  pipeline_started : EventBody
  stage_started : (stage_id debug_dir : String) → EventBody
  stage_completed : (stage_id debug_dir : String) (duration_ms : ℕ) → EventBody
  stage_skipped : (stage_id debug_dir reason : String) → EventBody
  stage_failed : (stage_id debug_dir : String) (diagnostic : Diagnostic) → EventBody
  stage_cancelled : (stage_id debug_dir reason : String) → EventBody
  pipeline_completed pipeline_failed pipeline_cancelled : EventBody

pub record Event : Type 0 where
  pub body : EventBody
  pub run_id : String
  pub pipeline_id : String
  pub sequence : ℕ
  pub timestamp : ℕ

pub record Snapshot : Type 0 where
  pub run_id : String
  pub pipeline_id : String
  pub status : RunStatus
  pub sequence : ℕ
  pub started_at : ℕ
  pub updated_at : ℕ
  pub stage_results : Dict StageResult

-- `input_files` has two constant paths, so only its presence is kept.
pub record TaskInputEnvelope : Type 0 where
  pub pipeline_id : String
  pub task_id : String
  pub run_id : String
  pub execution_context : JsonFields
  pub depends_on : List String
  pub dependency_statuses : Dict String
  pub dependency_outputs : Dict Json
  pub input_files : Bool
