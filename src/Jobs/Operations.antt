-- ===== src/Jobs/Operations.antt =====
-- job-store.ts: the operations of `JobStore` that change its state, as steps of the store.
pub mod Exclusion
pub mod Leases
pub mod Deletion
use datasheet_to_tscircuit.Prelude.{ℕ, String, List, [], ◌∷◌}
use datasheet_to_tscircuit.Jobs.Types.{CreateJobInput, JobField, JobDeletionLease, Server, Store}
use datasheet_to_tscircuit.Jobs.Records.{
  create_job, update_job, project_committed_publication, request_cancellation, delete_job,
}
use datasheet_to_tscircuit.Jobs.Claims.{
  acquire_job_deletion_lease, release_job_deletion_lease, claim_pipeline_execution,
  claim_coordinated_pipeline_executions, release_pipeline_execution,
}

pub data Operation : Type 0 where
  create : CreateJobInput → Operation
  update : (job_id : String) → List JobField → Operation
  project : (job_id : String) → List JobField → Operation
  request : (job_id : String) → Operation
  delete : (job_id : String) → Operation
  acquire : (job_id : String) → Operation
  release_lease : JobDeletionLease → Operation
  claim : (job_id pipeline_id : String) → Operation
  claim_coordinated : (job_id : String) (pipeline_ids : List String) → Operation
  release : (job_id pipeline_id : String) → Operation

-- The store after an operation, also after one that throws.
unfoldable pub apply : Server → Operation → Store → Store
unfolding create_job update_job project_committed_publication request_cancellation delete_job
    acquire_job_deletion_lease release_job_deletion_lease claim_pipeline_execution
    claim_coordinated_pipeline_executions release_pipeline_execution
apply server (create input) s = (create_job server input s).1
apply server (update job_id fields) s = (update_job server job_id fields s).1
apply server (project job_id fields) s = (project_committed_publication server job_id fields s).1
apply server (request job_id) s = (request_cancellation server job_id s).1
apply server (delete job_id) s = (delete_job server job_id s).1
apply server (acquire job_id) s = (acquire_job_deletion_lease job_id s).1
apply server (release_lease lease) s = (release_job_deletion_lease lease s).1
apply server (claim job_id pipeline_id) s = (claim_pipeline_execution job_id pipeline_id s).1
apply server (claim_coordinated job_id ids) s =
    (claim_coordinated_pipeline_executions job_id ids s).1
apply server (release job_id pipeline_id) s = release_pipeline_execution job_id pipeline_id s

unfoldable pub run : Server → List Operation → Store → Store
unfolding apply
run server [] s = s
run server (o ∷ os) s = run server os (apply server o s)
