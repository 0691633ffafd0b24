-- ===== src/Jobs/Operations/Exclusion.antt =====
-- While a job has active executions, no other execution of it starts.
use datasheet_to_tscircuit.Prelude.{
  String, ◌≡◌, ap, ◌∙◌, Bool, true, false, List, [], ◌∷◌, All, lookup, str_eq,
}
use datasheet_to_tscircuit.Jobs.Types.{Server, Store}
use datasheet_to_tscircuit.Jobs.Claims.{
  claim_pipeline_execution, claim_coordinated_pipeline_executions, executions_of,
}
use datasheet_to_tscircuit.Jobs.Claims.Granted.{
  active_of, claim_keeps, claim_coordinated_keeps, claim_busy, claim_coordinated_busy,
  release_other, acquire-active, release_lease-active, claim_grants,
}
use datasheet_to_tscircuit.Jobs.Records.Idle.{
  IsIdle, create_job-IsIdle, update_job-IsIdle, project-IsIdle, request_cancellation-IsIdle,
}
use datasheet_to_tscircuit.Jobs.Records.Deleted.{delete_other}
use datasheet_to_tscircuit.Jobs.Operations.{
  Operation, create, update, project, request, delete, acquire, release_lease, claim,
  claim_coordinated, release, apply, run,
}

-- Whether an operation ends executions of the job: a release, or the deletion of the job.
abbrev pub ends : String → Operation → Bool
ends job_id (release id _) = str_eq id job_id
ends job_id (delete id) = str_eq id job_id
ends job_id _ = false

active-IsIdle :
    {s t : Store} (job_id : String) → IsIdle s t → active_of job_id t ≡ active_of job_id s
active-IsIdle job_id q = ap (λ m. executions_of (lookup job_id m)) q.active

apply_keeps :
    (server : Server) (o : Operation) (job_id id : String) (rest : List String) (s : Store)
    → ends job_id o ≡ false
    → active_of job_id s ≡ id ∷ rest
    → active_of job_id (apply server o s) ≡ id ∷ rest
unfolding apply
apply_keeps server (create input) job_id id rest s e h =
    active-IsIdle job_id (create_job-IsIdle server input s) ∙ h
apply_keeps server (update j fields) job_id id rest s e h =
    active-IsIdle job_id (update_job-IsIdle server j fields s) ∙ h
apply_keeps server (project j fields) job_id id rest s e h =
    active-IsIdle job_id (project-IsIdle server j fields s) ∙ h
apply_keeps server (request j) job_id id rest s e h =
    active-IsIdle job_id (request_cancellation-IsIdle server j s) ∙ h
apply_keeps server (delete j) job_id id rest s e h = delete_other server j job_id s e ∙ h
apply_keeps server (acquire j) job_id id rest s e h =
    ap (λ m. executions_of (lookup job_id m)) (acquire-active j s) ∙ h
apply_keeps server (release_lease lease) job_id id rest s e h =
    ap (λ m. executions_of (lookup job_id m)) (release_lease-active lease s) ∙ h
apply_keeps server (claim j p) job_id id rest s e h = claim_keeps j job_id id p rest s h
apply_keeps server (claim_coordinated j ids) job_id id rest s e h =
    claim_coordinated_keeps j job_id id rest ids s h
apply_keeps server (release j p) job_id id rest s e h = release_other j job_id p s e ∙ h

run_keeps :
    (server : Server) (os : List Operation) (job_id id : String) (rest : List String) (s : Store)
    → All (λ o. ends job_id o ≡ false) os
    → active_of job_id s ≡ id ∷ rest
    → active_of job_id (run server os s) ≡ id ∷ rest
unfolding run
run_keeps server [] job_id id rest s none_ends h = h
run_keeps server (o ∷ os) job_id id rest s (e, none_ends) h =
    run_keeps server os job_id id rest (apply server o s) none_ends
      (apply_keeps server o job_id id rest s e h)

-- After a granted claim of an execution of a job, and any operations on the store of which none releases
-- an execution of this job or deletes it, both kinds of claims for this job are refused and leave the
-- store as it is.
pub claims_exclude :
    (server : Server) (job_id pipeline_id : String) (os : List Operation) (s : Store)
    → (claim_pipeline_execution job_id pipeline_id s).0 ≡ true
    → All (λ o. ends job_id o ≡ false) os
    → let t = run server os (claim_pipeline_execution job_id pipeline_id s).1 in
      ((other : String) → claim_pipeline_execution job_id other t ≡ (false, t))
      × ((ids : List String) → claim_coordinated_pipeline_executions job_id ids t ≡ (false, t))
claims_exclude server job_id pipeline_id os s granted none_ends =
    let t = run server os (claim_pipeline_execution job_id pipeline_id s).1 in
    let busy =
      run_keeps server os job_id pipeline_id [] (claim_pipeline_execution job_id pipeline_id s).1
        none_ends (claim_grants job_id pipeline_id s granted) in
    (
      λ other. claim_busy job_id other pipeline_id [] t busy,
      λ ids. claim_coordinated_busy job_id pipeline_id [] ids t busy,
    )
