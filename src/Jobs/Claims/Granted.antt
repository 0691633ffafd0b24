-- ===== src/Jobs/Claims/Granted.antt =====
-- When a claim is granted, and what it changes.
use datasheet_to_tscircuit.Prelude.{
  ℕ, String, ◌≡◌, refl, ap, ◌∙◌, inl, inr, true, false, Option, none, some, List, [], ◌∷◌, lookup,
  has_key, lookup-put, lookup-remove, discard, str_eq, eq_iff, Bool-cases, Option-cases, ◌==◌,
}
use datasheet_to_tscircuit.Jobs.Types.{JobRecord, JobDeletionLease, Store}
use datasheet_to_tscircuit.Jobs.Claims.{
  executions_of, is_aborted, renew_controller, claim_if_idle, claim_job, claim_pipeline_execution,
  claim_coordinated_pipeline_executions, is_claimable, keep_active, acquire_job_deletion_lease,
  release_held, release_job_deletion_lease, release_pipeline_execution,
}

-- The active executions of a job.
abbrev pub active_of : String → Store → List String
active_of job_id s = executions_of (lookup job_id s.active_pipeline_execution_map)

renew-active :
    (job_id : String) (job : JobRecord) (s : Store)
    → (renew_controller job_id job s).active_pipeline_execution_map
      ≡ s.active_pipeline_execution_map
unfolding renew_controller
renew-active job_id job s = elim (Bool-cases (is_aborted job.cancellation_controller s.aborted)) [
  | inl e ↦ rw (e, renew_controller) refl
  | inr e ↦ rw (e, renew_controller) refl
]

-- A claim for a job that has active executions is refused, and changes nothing.
claim_if_idle_busy :
    (busy : List String) (job_id id : String) (rest ids : List String) (job : JobRecord) (s : Store)
    → busy ≡ id ∷ rest
    → claim_if_idle busy job_id ids job s ≡ (false, s)
unfolding claim_if_idle
claim_if_idle_busy [] job_id id rest ids job s h = cc
claim_if_idle_busy (x ∷ xs) job_id id rest ids job s h = refl

claim_job_busy :
    (o : Option JobRecord) (job_id id : String) (rest ids : List String) (s : Store)
    → active_of job_id s ≡ id ∷ rest
    → claim_job o job_id ids s ≡ (false, s)
unfolding claim_job
claim_job_busy none job_id id rest ids s h = refl
claim_job_busy (some job) job_id id rest ids s h =
    elim (Bool-cases (has_key job_id s.job_deletion_lease_map)) [
      | inl e ↦ rw (e, claim_job) refl
      | inr e ↦
          rw (e, claim_job) (claim_if_idle_busy (active_of job_id s) job_id id rest ids job s h)
    ]

pub claim_busy :
    (job_id pipeline_id id : String) (rest : List String) (s : Store)
    → active_of job_id s ≡ id ∷ rest
    → claim_pipeline_execution job_id pipeline_id s ≡ (false, s)
unfolding claim_pipeline_execution
claim_busy job_id pipeline_id id rest s h =
    claim_job_busy (lookup job_id s.job_map) job_id id rest (pipeline_id ∷ []) s h

pub claim_coordinated_busy :
    (job_id id : String) (rest ids : List String) (s : Store)
    → active_of job_id s ≡ id ∷ rest
    → claim_coordinated_pipeline_executions job_id ids s ≡ (false, s)
unfolding claim_coordinated_pipeline_executions
claim_coordinated_busy job_id id rest ids s h = elim (Bool-cases (is_claimable ids)) [
  | inl e ↦
      rw (e, claim_coordinated_pipeline_executions)
        (claim_job_busy (lookup job_id s.job_map) job_id id rest ids s h)
  | inr e ↦ rw (e, claim_coordinated_pipeline_executions) refl
]

-- A claim leaves the executions of the other jobs alone.
claim_if_idle_other :
    (busy : List String) (job_id other : String) (ids : List String) (job : JobRecord) (s : Store)
    → str_eq job_id other ≡ false
    → active_of other (claim_if_idle busy job_id ids job s).1 ≡ active_of other s
unfolding claim_if_idle
claim_if_idle_other (x ∷ xs) job_id other ids job s h = refl
claim_if_idle_other [] job_id other ids job s h =
    rw
      (
        lookup-put job_id other ids (renew_controller job_id job s).active_pipeline_execution_map,
        h,
        renew-active job_id job s,
      )
      refl

claim_job_other :
    (o : Option JobRecord) (job_id other : String) (ids : List String) (s : Store)
    → str_eq job_id other ≡ false
    → active_of other (claim_job o job_id ids s).1 ≡ active_of other s
unfolding claim_job
claim_job_other none job_id other ids s h = refl
claim_job_other (some job) job_id other ids s h =
    elim (Bool-cases (has_key job_id s.job_deletion_lease_map)) [
      | inl e ↦ rw (e, claim_job) refl
      | inr e ↦
          rw (e, claim_job) (claim_if_idle_other (active_of job_id s) job_id other ids job s h)
    ]

-- A claim leaves a job with active executions as it is.
claim_job_keeps :
    (o : Option JobRecord) (job_id other id : String) (rest ids : List String) (s : Store)
    → active_of other s ≡ id ∷ rest
    → active_of other (claim_job o job_id ids s).1 ≡ id ∷ rest
claim_job_keeps o job_id other id rest ids s h = elim (Bool-cases (str_eq job_id other)) [
  | inl same ↦
      let it_is : job_id ≡ other = (eq_iff job_id other).0 same in
      ap (λ p. active_of other p.1) (claim_job_busy o job_id id rest ids s (rw it_is h)) ∙ h
  | inr apart ↦ claim_job_other o job_id other ids s apart ∙ h
]

pub claim_keeps :
    (job_id other id pipeline_id : String) (rest : List String) (s : Store)
    → active_of other s ≡ id ∷ rest
    → active_of other (claim_pipeline_execution job_id pipeline_id s).1 ≡ id ∷ rest
unfolding claim_pipeline_execution
claim_keeps job_id other id pipeline_id rest s h =
    claim_job_keeps (lookup job_id s.job_map) job_id other id rest (pipeline_id ∷ []) s h

pub claim_coordinated_keeps :
    (job_id other id : String) (rest ids : List String) (s : Store)
    → active_of other s ≡ id ∷ rest
    → active_of other (claim_coordinated_pipeline_executions job_id ids s).1 ≡ id ∷ rest
unfolding claim_coordinated_pipeline_executions
claim_coordinated_keeps job_id other id rest ids s h = elim (Bool-cases (is_claimable ids)) [
  | inl e ↦
      rw (e, claim_coordinated_pipeline_executions)
        (claim_job_keeps (lookup job_id s.job_map) job_id other id rest ids s h)
  | inr e ↦ rw (e, claim_coordinated_pipeline_executions) h
]

-- A release leaves the executions of the other jobs alone.
keep_active_other :
    (job_id other : String) (left : List String) (s : Store)
    → str_eq job_id other ≡ false
    → active_of other (keep_active job_id left s) ≡ active_of other s
unfolding keep_active
keep_active_other job_id other [] s h =
    rw (lookup-remove job_id other s.active_pipeline_execution_map, h) refl
keep_active_other job_id other (x ∷ xs) s h =
    rw (lookup-put job_id other (x ∷ xs) s.active_pipeline_execution_map, h) refl

pub release_other :
    (job_id other pipeline_id : String) (s : Store)
    → str_eq job_id other ≡ false
    → active_of other (release_pipeline_execution job_id pipeline_id s) ≡ active_of other s
unfolding release_pipeline_execution
release_other job_id other pipeline_id s h =
    elim (Option-cases (lookup job_id s.active_pipeline_execution_map)) [
      | inl e ↦ rw (e, release_pipeline_execution) refl
      | inr (active, e) ↦
          rw (e, release_pipeline_execution)
            (keep_active_other job_id other (discard pipeline_id active) s h)
    ]

pub acquire-active :
    (job_id : String) (s : Store)
    → (acquire_job_deletion_lease job_id s).1.active_pipeline_execution_map
      ≡ s.active_pipeline_execution_map
unfolding acquire_job_deletion_lease
acquire-active job_id s = elim (Bool-cases (has_key job_id s.job_map)) [
  | inr e ↦ rw (e, acquire_job_deletion_lease) refl
  | inl e ↦ elim (Bool-cases (has_key job_id s.job_deletion_lease_map)) [
    | inl d ↦ rw (e, d, acquire_job_deletion_lease) refl
    | inr d ↦ rw (e, d, acquire_job_deletion_lease) refl
  ]
]

release_held-active :
    (o : Option ℕ) (lease : JobDeletionLease) (s : Store)
    → (release_held o lease s).1.active_pipeline_execution_map ≡ s.active_pipeline_execution_map
unfolding release_held
release_held-active none lease s = refl
release_held-active (some token) lease s = elim (Bool-cases (token == lease.token)) [
  | inl e ↦ rw (e, release_held) refl
  | inr e ↦ rw (e, release_held) refl
]

pub release_lease-active :
    (lease : JobDeletionLease) (s : Store)
    → (release_job_deletion_lease lease s).1.active_pipeline_execution_map
      ≡ s.active_pipeline_execution_map
unfolding release_job_deletion_lease
release_lease-active lease s =
    release_held-active (lookup lease.job_id s.job_deletion_lease_map) lease s

claim_if_idle_grants :
    (busy : List String) (job_id id : String) (job : JobRecord) (s : Store)
    → (claim_if_idle busy job_id (id ∷ []) job s).0 ≡ true
    → active_of job_id (claim_if_idle busy job_id (id ∷ []) job s).1 ≡ id ∷ []
unfolding claim_if_idle
claim_if_idle_grants (x ∷ xs) job_id id job s h = cc
claim_if_idle_grants [] job_id id job s h =
    rw
      (
        lookup-put job_id job_id (id ∷ [])
            (renew_controller job_id job s).active_pipeline_execution_map,
        (eq_iff job_id job_id).1 refl,
      )
      refl

claim_job_grants :
    (o : Option JobRecord) (job_id id : String) (s : Store)
    → (claim_job o job_id (id ∷ []) s).0 ≡ true
    → active_of job_id (claim_job o job_id (id ∷ []) s).1 ≡ id ∷ []
unfolding claim_job
claim_job_grants none job_id id s h = cc
claim_job_grants (some job) job_id id s h =
    elim (Bool-cases (has_key job_id s.job_deletion_lease_map)) [
      | inl e ↦ cc (rw (e, claim_job) at h)
      | inr e ↦
          rw (e, claim_job)
            (claim_if_idle_grants (active_of job_id s) job_id id job s (rw (e, claim_job) at h))
    ]

-- A granted claim makes the execution active.
pub claim_grants :
    (job_id pipeline_id : String) (s : Store)
    → (claim_pipeline_execution job_id pipeline_id s).0 ≡ true
    → active_of job_id (claim_pipeline_execution job_id pipeline_id s).1 ≡ pipeline_id ∷ []
unfolding claim_pipeline_execution
claim_grants job_id pipeline_id s h =
    claim_job_grants (lookup job_id s.job_map) job_id pipeline_id s h
