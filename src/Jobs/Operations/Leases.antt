-- ===== src/Jobs/Operations/Leases.antt =====
-- A deletion lease that was released never releases a later lease.
use datasheet_to_tscircuit.Prelude.{◌<◌, ◌≡◌, ap, ◌∙◌, true, false, List, [], ◌∷◌}
use datasheet_to_tscircuit.Jobs.Types.{JobDeletionLease, Server, Store}
use datasheet_to_tscircuit.Jobs.Claims.{release_job_deletion_lease}
use datasheet_to_tscircuit.Jobs.Claims.Held.{
  is_held, IsGone, acquire-IsGone, release_lease-IsGone, claim-IsGone, claim_coordinated-IsGone,
  release-IsGone, release_gone, IsGone-of_release,
}
use datasheet_to_tscircuit.Jobs.Records.Deleted.{delete-IsGone}
use datasheet_to_tscircuit.Jobs.Records.Idle.{
  IsIdle, create_job-IsIdle, update_job-IsIdle, project-IsIdle, request_cancellation-IsIdle,
}
use datasheet_to_tscircuit.Jobs.Operations.{
  Operation, create, update, project, request, delete, acquire, release_lease, claim,
  claim_coordinated, release, apply, run,
}

idle-IsGone :
    {s t : Store} (lease : JobDeletionLease) → IsIdle s t → IsGone lease s → IsGone lease t
idle-IsGone lease q g = record {
  not_held = ap (λ m. is_held lease m) q.leases ∙ g.not_held;
  issued = rw q.symbols g.issued;
}

apply-IsGone :
    (server : Server) (o : Operation) (lease : JobDeletionLease) (s : Store)
    → IsGone lease s
    → IsGone lease (apply server o s)
unfolding apply
apply-IsGone server (create input) lease s g =
    idle-IsGone lease (create_job-IsIdle server input s) g
apply-IsGone server (update j fields) lease s g =
    idle-IsGone lease (update_job-IsIdle server j fields s) g
apply-IsGone server (project j fields) lease s g =
    idle-IsGone lease (project-IsIdle server j fields s) g
apply-IsGone server (request j) lease s g =
    idle-IsGone lease (request_cancellation-IsIdle server j s) g
apply-IsGone server (delete j) lease s g = delete-IsGone server j lease s g
apply-IsGone server (acquire j) lease s g = acquire-IsGone j lease s g
apply-IsGone server (release_lease other) lease s g = release_lease-IsGone other lease s g
apply-IsGone server (claim j p) lease s g = claim-IsGone j p lease s g
apply-IsGone server (claim_coordinated j ids) lease s g = claim_coordinated-IsGone j ids lease s g
apply-IsGone server (release j p) lease s g = release-IsGone j p lease s g

run-IsGone :
    (server : Server) (os : List Operation) (lease : JobDeletionLease) (s : Store)
    → IsGone lease s
    → IsGone lease (run server os s)
unfolding run
run-IsGone server [] lease s g = g
run-IsGone server (o ∷ os) lease s g =
    run-IsGone server os lease (apply server o s) (apply-IsGone server o lease s g)

-- A lease that the store has issued and that is released once is never released again, whatever
-- operations follow: a later lease of the same job has another token, and stays in place.
pub released_lease_stays_released :
    (server : Server) (lease : JobDeletionLease) (os : List Operation) (s : Store)
    → lease.token < s.next_symbol
    → (release_job_deletion_lease lease s).0 ≡ true
    → (let t = run server os (release_job_deletion_lease lease s).1 in
        release_job_deletion_lease lease t ≡ (false, t))
released_lease_stays_released server lease os s issued released =
    let t = run server os (release_job_deletion_lease lease s).1 in
    release_gone lease t (run-IsGone server os lease _ (IsGone-of_release lease s issued released))
