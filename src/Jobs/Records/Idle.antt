-- ===== src/Jobs/Records/Idle.antt =====
-- The operations on the records of jobs leave the leases and the executions alone.
use datasheet_to_tscircuit.Prelude.{
  String, ◌≡◌, refl, Bool, true, false, Option, none, some, List, lookup, if◌then◌else◌,
}
use datasheet_to_tscircuit.Pipeline.Errors.{Thrown}
use datasheet_to_tscircuit.Jobs.Types.{JobRecord, JobField, CreateJobInput, Server, Store}
use datasheet_to_tscircuit.Jobs.Claims.{is_aborted}
use datasheet_to_tscircuit.Jobs.Records.{
  publish, publish_job_list, commit_job, create_checked, create_job, update_checked, update_found,
  update_job, project_found, project_committed_publication, cancel_checked, cancel_found,
  request_cancellation, assign_update, tick, new_record,
}

-- From `s` to `t` the leases, the executions and the next symbol are the same.
pub record IsIdle (s t : Store) : Type 0 where
  pub leases : t.job_deletion_lease_map ≡ s.job_deletion_lease_map
  pub active : t.active_pipeline_execution_map ≡ s.active_pipeline_execution_map
  pub symbols : t.next_symbol ≡ s.next_symbol

idle : {s : Store} → IsIdle s s
idle = record { leases = refl; active = refl; symbols = refl }

if-IsIdle :
    {A : Type 0} (b : Bool) (m n : A × Store) (s : Store)
    → IsIdle s m.1
    → IsIdle s n.1
    → IsIdle s (if b then m else n).1
if-IsIdle true m n s p q = p
if-IsIdle false m n s p q = q

module _ (server : Server) where
  create_checked-IsIdle :
      (job : JobRecord) (o : Option Thrown) (s : Store) → IsIdle s (create_checked server job o s).1
  unfolding create_checked publish_job_list
  create_checked-IsIdle job none s = record { leases = refl; active = refl; symbols = refl }
  create_checked-IsIdle job (some e) s = idle

  pub create_job-IsIdle :
      (input : CreateJobInput) (s : Store) → IsIdle s (create_job server input s).1
  unfolding create_job
  create_job-IsIdle input s =
      let q =
        create_checked-IsIdle (new_record input (server.now s.clock) s.next_controller)
          (server.write_checkpoint _ (new_record input (server.now s.clock) s.next_controller)) _ in
      record { leases = q.leases; active = q.active; symbols = q.symbols }

  update_checked-IsIdle :
      (job : JobRecord) (o : Option Thrown) (s : Store) → IsIdle s (update_checked server job o s).1
  unfolding update_checked commit_job publish publish_job_list
  update_checked-IsIdle job none s = record { leases = refl; active = refl; symbols = refl }
  update_checked-IsIdle job (some e) s = idle

  update_found-IsIdle :
      (job_id : String) (fields : List JobField) (o : Option JobRecord) (s : Store)
      → IsIdle s (update_found server job_id fields o s).1
  unfolding update_found
  update_found-IsIdle job_id fields none s = idle
  update_found-IsIdle job_id fields (some job) s =
      let q =
        update_checked-IsIdle (assign_update fields job)
          (server.write_checkpoint s.clock (assign_update fields job)) (tick s) in
      record { leases = q.leases; active = q.active; symbols = q.symbols }

  pub update_job-IsIdle :
      (job_id : String) (fields : List JobField) (s : Store)
      → IsIdle s (update_job server job_id fields s).1
  unfolding update_job
  update_job-IsIdle job_id fields s = update_found-IsIdle job_id fields (lookup job_id s.job_map) s

  project_found-IsIdle :
      (job_id : String) (fields : List JobField) (o : Option JobRecord) (s : Store)
      → IsIdle s (project_found server job_id fields o s).1
  unfolding project_found commit_job publish publish_job_list
  project_found-IsIdle job_id fields none s = idle
  project_found-IsIdle job_id fields (some job) s = record {
    leases = refl;
    active = refl;
    symbols = refl;
  }

  pub project-IsIdle :
      (job_id : String) (fields : List JobField) (s : Store)
      → IsIdle s (project_committed_publication server job_id fields s).1
  unfolding project_committed_publication
  project-IsIdle job_id fields s = project_found-IsIdle job_id fields (lookup job_id s.job_map) s

  cancel_checked-IsIdle :
      (job : JobRecord) (o : Option Thrown) (s : Store) → IsIdle s (cancel_checked server job o s).1
  unfolding cancel_checked commit_job publish publish_job_list
  cancel_checked-IsIdle job none s = record { leases = refl; active = refl; symbols = refl }
  cancel_checked-IsIdle job (some e) s = record { leases = refl; active = refl; symbols = refl }

  cancel_found-IsIdle : (o : Option JobRecord) (s : Store) → IsIdle s (cancel_found server o s).1
  unfolding cancel_found
  cancel_found-IsIdle none s = idle
  cancel_found-IsIdle (some job) s =
      let candidate : JobRecord = record job { display_status = "cancelling" } in
      let q =
        cancel_checked-IsIdle candidate (server.write_checkpoint s.clock candidate) (tick s) in
      if-IsIdle job.is_complete _ _ s idle (
        if-IsIdle (is_aborted job.cancellation_controller s.aborted) _ _ s idle
          (record { leases = q.leases; active = q.active; symbols = q.symbols }))

  pub request_cancellation-IsIdle :
      (job_id : String) (s : Store) → IsIdle s (request_cancellation server job_id s).1
  unfolding request_cancellation
  request_cancellation-IsIdle job_id s = cancel_found-IsIdle (lookup job_id s.job_map) s
