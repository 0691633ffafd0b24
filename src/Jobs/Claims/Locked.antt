-- ===== src/Jobs/Claims/Locked.antt =====
-- A job that is being deleted.
use datasheet_to_tscircuit.Prelude.{
  ℕ, ◌==◌, String, ◌≡◌, refl, Bool, true, false, Option, none, some, List, [], ◌∷◌, lookup, has_key,
  has_key-put, has_key-put_own, has_key-remove, str_eq, Bool-cases, inl, inr,
}
use datasheet_to_tscircuit.Jobs.Types.{JobRecord, JobDeletionLease, acquired, Store}
use datasheet_to_tscircuit.Jobs.Claims.{
  acquire_job_deletion_lease, release_held, release_job_deletion_lease, claim_job,
  claim_pipeline_execution, claim_coordinated_pipeline_executions, is_claimable,
}

abbrev pub is_locked : String → Store → Bool
is_locked job_id s = has_key job_id s.job_deletion_lease_map

claim_job_locked :
    (o : Option JobRecord) (job_id : String) (ids : List String) (s : Store)
    → is_locked job_id s ≡ true
    → claim_job o job_id ids s ≡ (false, s)
unfolding claim_job
claim_job_locked none job_id ids s h = refl
claim_job_locked (some job) job_id ids s h = rw (h, claim_job) refl

pub claim_locked :
    (job_id pipeline_id : String) (s : Store)
    → is_locked job_id s ≡ true
    → claim_pipeline_execution job_id pipeline_id s ≡ (false, s)
unfolding claim_pipeline_execution
claim_locked job_id pipeline_id s h =
    claim_job_locked (lookup job_id s.job_map) job_id (pipeline_id ∷ []) s h

pub claim_coordinated_locked :
    (job_id : String) (ids : List String) (s : Store)
    → is_locked job_id s ≡ true
    → claim_coordinated_pipeline_executions job_id ids s ≡ (false, s)
unfolding claim_coordinated_pipeline_executions
claim_coordinated_locked job_id ids s h = elim (Bool-cases (is_claimable ids)) [
  | inl e ↦
      rw (e, claim_coordinated_pipeline_executions)
        (claim_job_locked (lookup job_id s.job_map) job_id ids s h)
  | inr e ↦ rw (e, claim_coordinated_pipeline_executions) refl
]

pub acquire_keeps :
    (j job_id : String) (s : Store)
    → is_locked job_id s ≡ true
    → is_locked job_id (acquire_job_deletion_lease j s).1 ≡ true
unfolding acquire_job_deletion_lease
acquire_keeps j job_id s h = elim (Bool-cases (has_key j s.job_map)) [
  | inr e ↦ rw (e, acquire_job_deletion_lease) h
  | inl e ↦ elim (Bool-cases (has_key j s.job_deletion_lease_map)) [
    | inl d ↦ rw (e, d, acquire_job_deletion_lease) h
    | inr d ↦
        rw (e, d, acquire_job_deletion_lease)
          (has_key-put j job_id s.next_symbol s.job_deletion_lease_map h)
  ]
]

pub acquire_locks :
    (job_id : String) (lease : JobDeletionLease) (s : Store)
    → (acquire_job_deletion_lease job_id s).0 ≡ acquired lease
    → is_locked job_id (acquire_job_deletion_lease job_id s).1 ≡ true
unfolding acquire_job_deletion_lease
acquire_locks job_id lease s h = elim (Bool-cases (has_key job_id s.job_map)) [
  | inr e ↦ cc (rw (e, acquire_job_deletion_lease) at h)
  | inl e ↦ elim (Bool-cases (has_key job_id s.job_deletion_lease_map)) [
    | inl d ↦ cc (rw (e, d, acquire_job_deletion_lease) at h)
    | inr d ↦
        rw (e, d, acquire_job_deletion_lease)
          (has_key-put_own job_id s.next_symbol s.job_deletion_lease_map)
  ]
]

release_held_keeps :
    (o : Option ℕ) (lease : JobDeletionLease) (job_id : String) (s : Store)
    → str_eq lease.job_id job_id ≡ false
    → is_locked job_id s ≡ true
    → is_locked job_id (release_held o lease s).1 ≡ true
unfolding release_held
release_held_keeps none lease job_id s apart h = h
release_held_keeps (some token) lease job_id s apart h = elim (Bool-cases (token == lease.token)) [
  | inl e ↦
      rw (e, release_held, has_key-remove lease.job_id job_id s.job_deletion_lease_map, apart) h
  | inr e ↦ rw (e, release_held) h
]

pub release_lease_keeps :
    (lease : JobDeletionLease) (job_id : String) (s : Store)
    → str_eq lease.job_id job_id ≡ false
    → is_locked job_id s ≡ true
    → is_locked job_id (release_job_deletion_lease lease s).1 ≡ true
unfolding release_job_deletion_lease
release_lease_keeps lease job_id s apart h =
    release_held_keeps (lookup lease.job_id s.job_deletion_lease_map) lease job_id s apart h
