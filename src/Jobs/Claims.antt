-- ===== src/Jobs/Claims.antt =====
-- job-store.ts: deletion leases and the claims of pipeline executions.
pub mod Granted
pub mod Held
pub mod Locked
use datasheet_to_tscircuit.Prelude.{
  ℕ, suc, ◌==◌, String, Bool, true, false, not, ◌||◌, Option, none, some, List, [], ◌∷◌, Dict,
  lookup, has_key, put, remove, discard, member, if◌then◌else◌,
}
use datasheet_to_tscircuit.Jobs.Types.{
  JobRecord, JobDeletionLease, JobDeletionLeaseResult, acquired, already_deleting, Store,
}

unfoldable pub acquire_job_deletion_lease : String → Store → JobDeletionLeaseResult × Store
unfolding has_key put
acquire_job_deletion_lease job_id s =
    if not (has_key job_id s.job_map)
    then (JobDeletionLeaseResult.not_found, s)
    else if has_key job_id s.job_deletion_lease_map
    then (already_deleting, s)
    else (
      acquired (record { job_id = job_id; token = s.next_symbol }),
      record s {
        job_deletion_lease_map = put job_id s.next_symbol s.job_deletion_lease_map;
        next_symbol = suc s.next_symbol;
      },
    )

-- By the token that is held.
release_held : Option ℕ → JobDeletionLease → Store → Bool × Store
unfolding remove
release_held none lease s = (false, s)
release_held (some token) lease s =
    if token == lease.token
    then (true, record s { job_deletion_lease_map = remove lease.job_id s.job_deletion_lease_map })
    else (false, s)

unfoldable pub release_job_deletion_lease : JobDeletionLease → Store → Bool × Store
unfolding release_held lookup
release_job_deletion_lease lease s =
    release_held (lookup lease.job_id s.job_deletion_lease_map) lease s

unfoldable pub is_job_deleting : String → Store → Bool
unfolding has_key
is_job_deleting job_id s = has_key job_id s.job_deletion_lease_map

-- `job.cancellation_controller = new AbortController()`, for an aborted one.
unfoldable pub is_aborted : ℕ → List ℕ → Bool
is_aborted controller [] = false
is_aborted controller (c ∷ cs) = c == controller || is_aborted controller cs

unfoldable pub renew_controller : String → JobRecord → Store → Store
unfolding is_aborted put
renew_controller job_id job s =
    if is_aborted job.cancellation_controller s.aborted
    then record s {
      job_map = put job_id (record job { cancellation_controller = s.next_controller }) s.job_map;
      next_controller = suc s.next_controller;
    }
    else s

abbrev pub executions_of : Option (List String) → List String
executions_of none = []
executions_of (some active) = active

-- What both claims do for a job that is not being deleted, by its active executions.
claim_if_idle : List String → String → List String → JobRecord → Store → Bool × Store
unfolding renew_controller put
claim_if_idle (_ ∷ _) job_id ids job s = (false, s)
claim_if_idle [] job_id ids job s =
    let t = renew_controller job_id job s in
    (
      true,
      record t { active_pipeline_execution_map = put job_id ids t.active_pipeline_execution_map },
    )

claim_job : Option JobRecord → String → List String → Store → Bool × Store
unfolding claim_if_idle lookup has_key
claim_job none job_id ids s = (false, s)
claim_job (some job) job_id ids s =
    if has_key job_id s.job_deletion_lease_map
    then (false, s)
    else claim_if_idle (executions_of (lookup job_id s.active_pipeline_execution_map)) job_id ids
        job s

unfoldable pub claim_pipeline_execution : (job_id pipeline_id : String) → Store → Bool × Store
unfolding claim_job lookup
claim_pipeline_execution job_id pipeline_id s =
    claim_job (lookup job_id s.job_map) job_id (pipeline_id ∷ []) s

-- `new Set(ids).size === ids.length`
unfoldable pub are_distinct : List String → Bool
unfolding member
are_distinct [] = true
are_distinct (id ∷ ids) = let rest = are_distinct ids in if member id ids then false else rest

-- A nonempty list without duplicates.
unfoldable pub is_claimable : List String → Bool
unfolding are_distinct
is_claimable [] = false
is_claimable (id ∷ ids) = are_distinct (id ∷ ids)

unfoldable pub claim_coordinated_pipeline_executions :
    (job_id : String) (pipeline_ids : List String) → Store → Bool × Store
unfolding claim_job lookup is_claimable
claim_coordinated_pipeline_executions job_id ids s =
    if is_claimable ids then claim_job (lookup job_id s.job_map) job_id ids s else (false, s)

-- The executions that are left.
keep_active : String → List String → Store → Store
unfolding remove put
keep_active job_id [] s = record s {
  active_pipeline_execution_map = remove job_id s.active_pipeline_execution_map;
}
keep_active job_id (id ∷ ids) s = record s {
  active_pipeline_execution_map = put job_id (id ∷ ids) s.active_pipeline_execution_map;
}

unfoldable pub release_pipeline_execution : (job_id pipeline_id : String) → Store → Store
unfolding keep_active lookup discard
release_pipeline_execution job_id pipeline_id s =
    elim (lookup job_id s.active_pipeline_execution_map) [
      | none ↦ s
      | some active ↦ keep_active job_id (discard pipeline_id active) s
    ]
