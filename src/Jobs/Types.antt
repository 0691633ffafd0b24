-- ===== src/Jobs/Types.antt =====
-- job-store.ts: the records of the jobs and the state of the store.
-- A record holds by name what the store reads or writes itself. The other fields of a job (its code,
-- circuits, footprints, pipelines and so on) it only carries; `carried` holds those that are set. A time
-- is its count of milliseconds.
use datasheet_to_tscircuit.Prelude.{ℕ, String, Bool, Option, List, [], Dict}
use datasheet_to_tscircuit.Pipeline.Types.{Json}
use datasheet_to_tscircuit.Pipeline.Errors.{Thrown}

pub record JobLog : Type 0 where
  pub log_id : String
  pub created_at : ℕ
  pub stream : String
  pub message : String

-- `Job` with the private fields of `JobRecord`. A controller and a subscriber are known by numbers.
pub record JobRecord : Type 0 where
  pub job_id : String
  pub job_dir : String
  pub file_name : String
  pub use_openai : Option Bool
  pub additional_instructions : Option String
  pub retry_source_job_id : Option String
  pub created_at : ℕ
  pub completed_at : Option ℕ
  pub display_status : String
  pub is_complete : Bool
  pub has_errors : Bool
  pub error_message : Option String
  pub warnings : List String
  pub logs : List JobLog
  pub carried : Dict Json
  pub cancellation_controller : ℕ
  pub subscriber_set : List ℕ

pub record CreateJobInput : Type 0 where
  pub job_id : String
  pub job_dir : String
  pub file_name : String
  pub use_openai : Option Bool
  pub additional_instructions : Option String
  pub retry_source_job_id : Option String

-- One assignment of a `JobUpdate`.
pub data JobField : Type 0 where
  display_status : String → JobField
  use_openai : Option Bool → JobField
  is_complete has_errors : Bool → JobField
  error_message : Option String → JobField
  warnings : List String → JobField
  completed_at : Option ℕ → JobField
  carried : (name : String) → Json → JobField

pub record JobDeletionLease : Type 0 where
  pub job_id : String
  pub token : ℕ

pub data JobDeletionLeaseResult : Type 0 where
  acquired : JobDeletionLease → JobDeletionLeaseResult
  already_deleting not_found : JobDeletionLeaseResult

pub data JobCancellationResult : Type 0 where
  requested already_requested already_complete not_found : JobCancellationResult

-- A published record stands for its public view, which leaves out the private fields.
pub data JobEvent : Type 0 where
  job_updated : JobRecord → JobEvent
  log : JobLog → JobEvent
  job_deleted : (job_id : String) → JobEvent

-- What the store calls: the checkpoint writer, which may throw, the clock, and the subscribers, whose
-- answer is whether they throw. A subscriber does not call the store.
pub record Server : Type 0 where
  pub write_checkpoint : ℕ → JobRecord → Option Thrown
  pub now : ℕ → ℕ
  pub rejects : ℕ → (subscriber : ℕ) → JobEvent → Bool

-- `next_symbol` and `next_controller` are new with each use; `aborted` are the aborted controllers.
pub record Store : Type 0 where
  pub job_map : Dict JobRecord
  pub job_list_subscriber_set : List ℕ
  pub job_deletion_lease_map : Dict ℕ
  pub active_pipeline_execution_map : Dict (List String)
  pub next_symbol : ℕ
  pub next_controller : ℕ
  pub aborted : List ℕ
  pub clock : ℕ

abbrev pub empty_store : Store
empty_store = record {
  job_map = [];
  job_list_subscriber_set = [];
  job_deletion_lease_map = [];
  active_pipeline_execution_map = [];
  next_symbol = 0;
  next_controller = 0;
  aborted = [];
  clock = 0;
}
