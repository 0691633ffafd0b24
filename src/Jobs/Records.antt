-- ===== src/Jobs/Records.antt =====
-- job-store.ts: what creates, changes, cancels and deletes a job, and tells the subscribers.
pub mod Idle
pub mod Deleted
pub mod Cancelled
use datasheet_to_tscircuit.Prelude.{
  ℕ, suc, ◌+◌, String, ◌<>◌, length, Bool, true, false, not, Option, none, some, List, [], ◌∷◌,
  Dict, lookup, put, remove, if◌then◌else◌,
}
use datasheet_to_tscircuit.Pipeline.Errors.{Thrown, ErrorObject}
use datasheet_to_tscircuit.Pipeline.Result.{Result, return, throw}
use datasheet_to_tscircuit.Jobs.Types.{
  JobRecord, JobField, CreateJobInput, JobEvent, job_updated, job_deleted, JobCancellationResult,
  requested, already_requested, already_complete, Server, Store,
}
use datasheet_to_tscircuit.Jobs.Claims.{is_aborted}

abbrev assign_field : JobField → JobRecord → JobRecord
assign_field (JobField.display_status v) job = record job { display_status = v }
assign_field (JobField.use_openai v) job = record job { use_openai = v }
assign_field (JobField.is_complete v) job = record job { is_complete = v }
assign_field (JobField.has_errors v) job = record job { has_errors = v }
assign_field (JobField.error_message v) job = record job { error_message = v }
assign_field (JobField.warnings v) job = record job { warnings = v }
assign_field (JobField.completed_at v) job = record job { completed_at = v }
assign_field (JobField.carried name v) job = record job { carried = put name v job.carried }

-- `Object.assign(candidate, job_update)`
abbrev pub assign_update : List JobField → JobRecord → JobRecord
assign_update [] job = job
assign_update (f ∷ fs) job = assign_update fs (assign_field f job)

-- The subscribers that do not throw, called one after the other.
unfoldable pub retained : Server → JobEvent → (clock : ℕ) → List ℕ → List ℕ
retained server event clock [] = []
retained server event clock (x ∷ xs) =
    let rest = retained server event (suc clock) xs in
    if server.rejects clock x event then rest else x ∷ rest

-- `publish`, for a job that stands in the map.
unfoldable pub publish : Server → JobRecord → JobEvent → Store → Store
unfolding retained put
publish server job event s = record s {
  job_map =
      put job.job_id
        (record job { subscriber_set = retained server event s.clock job.subscriber_set })
        s.job_map;
  clock = s.clock + length job.subscriber_set;
}

unfoldable pub publish_job_list : Server → JobEvent → Store → Store
unfolding retained
publish_job_list server event s = record s {
  job_list_subscriber_set = retained server event s.clock s.job_list_subscriber_set;
  clock = s.clock + length s.job_list_subscriber_set;
}

-- The change takes effect in the map, and both kinds of subscribers are told.
unfoldable pub commit_job : Server → JobRecord → Store → Store
unfolding publish publish_job_list
commit_job server job s =
    publish_job_list server (job_updated job) (publish server job (job_updated job) s)

abbrev pub tick : Store → Store
tick s = record s { clock = suc s.clock }

job_not_found : String → Thrown
job_not_found job_id =
    Thrown.error
      (record {
        name = "Error";
        message = "Job " <> job_id <> " was not found";
        code = none;
        diagnostic = none;
        supplemental = none;
      })
      Thrown.nothing

new_record : CreateJobInput → (now controller : ℕ) → JobRecord
new_record input now controller = record {
  job_id = input.job_id;
  job_dir = input.job_dir;
  file_name = input.file_name;
  use_openai = input.use_openai;
  additional_instructions = input.additional_instructions;
  retry_source_job_id = input.retry_source_job_id;
  created_at = now;
  completed_at = none;
  display_status = "queued";
  is_complete = false;
  has_errors = false;
  error_message = none;
  warnings = [];
  logs = [];
  carried = [];
  cancellation_controller = controller;
  subscriber_set = [];
}

-- By the answer of the checkpoint writer.
create_checked : Server → JobRecord → Option Thrown → Store → Result JobRecord × Store
unfolding publish_job_list put
create_checked server job (some e) s = (throw e, s)
create_checked server job none s = (
  return job,
  publish_job_list server (job_updated job) (record s { job_map = put job.job_id job s.job_map }),
)

unfoldable pub create_job : Server → CreateJobInput → Store → Result JobRecord × Store
unfolding create_checked new_record
create_job server input s =
    let t : Store = record (tick s) { next_controller = suc s.next_controller } in
    let job = new_record input (server.now s.clock) s.next_controller in
    create_checked server job (server.write_checkpoint t.clock job) (tick t)

update_checked : Server → JobRecord → Option Thrown → Store → Result JobRecord × Store
unfolding commit_job
update_checked server candidate (some e) s = (throw e, s)
update_checked server candidate none s = (return candidate, commit_job server candidate s)

update_found : Server → String → List JobField → Option JobRecord → Store → Result JobRecord × Store
unfolding update_checked job_not_found
update_found server job_id fields none s = (throw (job_not_found job_id), s)
update_found server job_id fields (some job) s =
    let candidate = assign_update fields job in
    update_checked server candidate (server.write_checkpoint s.clock candidate) (tick s)

unfoldable pub update_job : Server → String → List JobField → Store → Result JobRecord × Store
unfolding update_found lookup
update_job server job_id fields s = update_found server job_id fields (lookup job_id s.job_map) s

-- The job, with the failure of its checkpoint.
project_found :
    Server
    → String
    → List JobField
    → Option JobRecord
    → Store
    → Result (JobRecord × Option Thrown) × Store
unfolding commit_job job_not_found
project_found server job_id fields none s = (throw (job_not_found job_id), s)
project_found server job_id fields (some job) s =
    let candidate = assign_update fields job in
    (
      return (candidate, server.write_checkpoint s.clock candidate),
      commit_job server candidate (tick s),
    )

unfoldable pub project_committed_publication :
    Server → String → List JobField → Store → Result (JobRecord × Option Thrown) × Store
unfolding project_found lookup
project_committed_publication server job_id fields s =
    project_found server job_id fields (lookup job_id s.job_map) s

-- `controller.abort()`
abbrev pub abort : ℕ → Store → Store
abort controller s = record s { aborted = controller ∷ s.aborted }

cancel_checked : Server → JobRecord → Option Thrown → Store → Result JobCancellationResult × Store
unfolding commit_job
cancel_checked server candidate (some e) s = (throw e, abort candidate.cancellation_controller s)
cancel_checked server candidate none s =
    (return requested, commit_job server candidate (abort candidate.cancellation_controller s))

cancel_found : Server → Option JobRecord → Store → Result JobCancellationResult × Store
unfolding cancel_checked is_aborted
cancel_found server none s = (return JobCancellationResult.not_found, s)
cancel_found server (some job) s =
    let candidate : JobRecord = record job { display_status = "cancelling" } in
    if job.is_complete
    then (return already_complete, s)
    else if is_aborted job.cancellation_controller s.aborted
    then (return already_requested, s)
    else (cancel_checked server candidate (server.write_checkpoint s.clock candidate) (tick s))

unfoldable pub request_cancellation : Server → String → Store → Result JobCancellationResult × Store
unfolding cancel_found lookup
request_cancellation server job_id s = cancel_found server (lookup job_id s.job_map) s

delete_found : Server → String → Option JobRecord → Store → Bool × Store
unfolding publish_job_list remove
delete_found server job_id none s = (false, s)
delete_found server job_id (some job) s =
    if job.is_complete
    then (
      true,
      publish_job_list server (job_deleted job_id) (record s {
        job_map = remove job_id s.job_map;
        job_deletion_lease_map = remove job_id s.job_deletion_lease_map;
        active_pipeline_execution_map = remove job_id s.active_pipeline_execution_map;
      }),
    )
    else (false, s)

unfoldable pub delete_job : Server → String → Store → Bool × Store
unfolding delete_found lookup
delete_job server job_id s = delete_found server job_id (lookup job_id s.job_map) s
