-- ===== src/Jobs/Operations/Deletion.antt =====
-- While a job is being deleted, no execution of it starts.
use datasheet_to_tscircuit.Prelude.{
  String, ◌≡◌, ap, ◌∙◌, Bool, true, false, List, [], ◌∷◌, All, has_key, str_eq,
}
use datasheet_to_tscircuit.Jobs.Types.{JobDeletionLease, acquired, Server, Store}
use datasheet_to_tscircuit.Jobs.Claims.{
  acquire_job_deletion_lease, claim_pipeline_execution, claim_coordinated_pipeline_executions,
}
use datasheet_to_tscircuit.Jobs.Claims.Held.{
  AreSame, claim-AreSame, claim_coordinated-AreSame, release-AreSame,
}
use datasheet_to_tscircuit.Jobs.Claims.Locked.{
  is_locked, claim_locked, claim_coordinated_locked, acquire_keeps, acquire_locks,
  release_lease_keeps,
}
use datasheet_to_tscircuit.Jobs.Records.Deleted.{delete_keeps}
use datasheet_to_tscircuit.Jobs.Records.Idle.{
  IsIdle, create_job-IsIdle, update_job-IsIdle, project-IsIdle, request_cancellation-IsIdle,
}
use datasheet_to_tscircuit.Jobs.Operations.{
  Operation, create, update, project, request, delete, acquire, release_lease, claim,
  claim_coordinated, release, apply, run,
}

-- Whether an operation ends the deletion of the job: a release of a lease of it, or the deletion.
abbrev pub lifts : String → Operation → Bool
lifts job_id (release_lease lease) = str_eq lease.job_id job_id
lifts job_id (delete id) = str_eq id job_id
lifts job_id _ = false

locked-IsIdle :
    {s t : Store} (job_id : String)
    → IsIdle s t
    → is_locked job_id s ≡ true
    → is_locked job_id t ≡ true
locked-IsIdle job_id q h = ap (λ m. has_key job_id m) q.leases ∙ h

locked-AreSame :
    {s t : Store} (job_id : String)
    → AreSame s t
    → is_locked job_id s ≡ true
    → is_locked job_id t ≡ true
locked-AreSame job_id q h = ap (λ m. has_key job_id m) q.leases ∙ h

apply_locked :
    (server : Server) (o : Operation) (job_id : String) (s : Store)
    → lifts job_id o ≡ false
    → is_locked job_id s ≡ true
    → is_locked job_id (apply server o s) ≡ true
unfolding apply
apply_locked server (create input) job_id s e h =
    locked-IsIdle job_id (create_job-IsIdle server input s) h
apply_locked server (update j fields) job_id s e h =
    locked-IsIdle job_id (update_job-IsIdle server j fields s) h
apply_locked server (project j fields) job_id s e h =
    locked-IsIdle job_id (project-IsIdle server j fields s) h
apply_locked server (request j) job_id s e h =
    locked-IsIdle job_id (request_cancellation-IsIdle server j s) h
apply_locked server (delete j) job_id s e h = delete_keeps server j job_id s e h
apply_locked server (acquire j) job_id s e h = acquire_keeps j job_id s h
apply_locked server (release_lease lease) job_id s e h = release_lease_keeps lease job_id s e h
apply_locked server (claim j p) job_id s e h = locked-AreSame job_id (claim-AreSame j p s) h
apply_locked server (claim_coordinated j ids) job_id s e h =
    locked-AreSame job_id (claim_coordinated-AreSame j ids s) h
apply_locked server (release j p) job_id s e h = locked-AreSame job_id (release-AreSame j p s) h

run_locked :
    (server : Server) (os : List Operation) (job_id : String) (s : Store)
    → All (λ o. lifts job_id o ≡ false) os
    → is_locked job_id s ≡ true
    → is_locked job_id (run server os s) ≡ true
unfolding run
run_locked server [] job_id s none_lifts h = h
run_locked server (o ∷ os) job_id s (e, none_lifts) h =
    run_locked server os job_id (apply server o s) none_lifts (apply_locked server o job_id s e h)

-- After a deletion lease of a job is acquired, and any operations on the store of which none releases a
-- lease of this job or deletes it, both kinds of claims of executions of this job are refused and leave
-- the store as it is.
pub lease_blocks_claims :
    (server : Server) (job_id : String) (lease : JobDeletionLease) (os : List Operation) (s : Store)
    → (acquire_job_deletion_lease job_id s).0 ≡ acquired lease
    → All (λ o. lifts job_id o ≡ false) os
    → (let t = run server os (acquire_job_deletion_lease job_id s).1 in
        ((other : String) → claim_pipeline_execution job_id other t ≡ (false, t))
        × ((ids : List String) → claim_coordinated_pipeline_executions job_id ids t ≡ (false, t)))
lease_blocks_claims server job_id lease os s granted none_lifts =
    let t = run server os (acquire_job_deletion_lease job_id s).1 in
    let locked =
      run_locked server os job_id (acquire_job_deletion_lease job_id s).1 none_lifts
        (acquire_locks job_id lease s granted) in
    (
      λ other. claim_locked job_id other t locked,
      λ ids. claim_coordinated_locked job_id ids t locked,
    )
