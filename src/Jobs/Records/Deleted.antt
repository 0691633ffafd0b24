-- ===== src/Jobs/Records/Deleted.antt =====
-- The deletion of a job leaves the executions of the other jobs alone, and
-- brings no lease back.
use datasheet_to_tscircuit.Prelude.{
  String, ◌≡◌, refl, true, false, Option, none, some, lookup, lookup-remove, has_key-remove, str_eq,
  Bool-cases, inl, inr,
}
use datasheet_to_tscircuit.Jobs.Types.{JobRecord, JobDeletionLease, Server, Store}
use datasheet_to_tscircuit.Jobs.Claims.Granted.{active_of}
use datasheet_to_tscircuit.Jobs.Claims.Held.{IsGone, is_held-remove}
use datasheet_to_tscircuit.Jobs.Claims.Locked.{is_locked}
use datasheet_to_tscircuit.Jobs.Records.{delete_found, delete_job, publish_job_list}

delete_found_other :
    (server : Server) (o : Option JobRecord) (job_id other : String) (s : Store)
    → str_eq job_id other ≡ false
    → active_of other (delete_found server job_id o s).1 ≡ active_of other s
unfolding delete_found publish_job_list
delete_found_other server none job_id other s h = refl
delete_found_other server (some job) job_id other s h = elim (Bool-cases job.is_complete) [
  | inl e ↦
      rw
        (
          e,
          delete_found,
          publish_job_list,
          lookup-remove job_id other s.active_pipeline_execution_map,
          h,
        )
        refl
  | inr e ↦ rw (e, delete_found) refl
]

pub delete_other :
    (server : Server) (job_id other : String) (s : Store)
    → str_eq job_id other ≡ false
    → active_of other (delete_job server job_id s).1 ≡ active_of other s
unfolding delete_job
delete_other server job_id other s h =
    delete_found_other server (lookup job_id s.job_map) job_id other s h

delete_found-IsGone :
    (server : Server) (o : Option JobRecord) (job_id : String) (lease : JobDeletionLease)
    (s : Store)
    → IsGone lease s
    → IsGone lease (delete_found server job_id o s).1
unfolding delete_found publish_job_list
delete_found-IsGone server none job_id lease s g = g
delete_found-IsGone server (some job) job_id lease s g = elim (Bool-cases job.is_complete) [
  | inl e ↦
      rw (e, delete_found, publish_job_list)
        (record {
          not_held = is_held-remove job_id lease s.job_deletion_lease_map g.not_held;
          issued = g.issued;
        })
  | inr e ↦ rw (e, delete_found) g
]

pub delete-IsGone :
    (server : Server) (job_id : String) (lease : JobDeletionLease) (s : Store)
    → IsGone lease s
    → IsGone lease (delete_job server job_id s).1
unfolding delete_job
delete-IsGone server job_id lease s g =
    delete_found-IsGone server (lookup job_id s.job_map) job_id lease s g

delete_found_keeps :
    (server : Server) (o : Option JobRecord) (j job_id : String) (s : Store)
    → str_eq j job_id ≡ false
    → is_locked job_id s ≡ true
    → is_locked job_id (delete_found server j o s).1 ≡ true
unfolding delete_found publish_job_list
delete_found_keeps server none j job_id s apart h = h
delete_found_keeps server (some job) j job_id s apart h = elim (Bool-cases job.is_complete) [
  | inl e ↦
      rw
        (e, delete_found, publish_job_list, has_key-remove j job_id s.job_deletion_lease_map, apart)
        h
  | inr e ↦ rw (e, delete_found) h
]

-- A job that is being deleted stays so while another is deleted.
pub delete_keeps :
    (server : Server) (j job_id : String) (s : Store)
    → str_eq j job_id ≡ false
    → is_locked job_id s ≡ true
    → is_locked job_id (delete_job server j s).1 ≡ true
unfolding delete_job
delete_keeps server j job_id s apart h =
    delete_found_keeps server (lookup j s.job_map) j job_id s apart h
