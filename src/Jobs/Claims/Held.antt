-- ===== src/Jobs/Claims/Held.antt =====
-- Which leases are held.
use datasheet_to_tscircuit.Prelude.{
  ℕ, ◌==◌, ◌<◌, String, ◌≡◌, refl, ap, ◌∙◌, Bool, true, false, Option, none, some, List, [], ◌∷◌,
  Dict, lookup, lookup-put, lookup-remove, put, remove, discard, has_key, str_eq, eq_iff,
  Bool-cases, Option-cases, inl, inr, arith, if◌then◌else◌,
}
use datasheet_to_tscircuit.Jobs.Types.{JobRecord, JobDeletionLease, Store}
use datasheet_to_tscircuit.Jobs.Claims.{
  acquire_job_deletion_lease, release_held, release_job_deletion_lease, claim_if_idle, claim_job,
  claim_pipeline_execution, claim_coordinated_pipeline_executions, is_claimable, renew_controller,
  is_aborted, executions_of, keep_active, release_pipeline_execution,
}

-- Whether a token stands for the lease.
abbrev is_token : JobDeletionLease → Option ℕ → Bool
is_token lease none = false
is_token lease (some token) = token == lease.token

abbrev pub is_held : JobDeletionLease → Dict ℕ → Bool
is_held lease leases = is_token lease (lookup lease.job_id leases)

-- The lease was issued and is not held.
pub record IsGone (lease : JobDeletionLease) (s : Store) : Type 0 where
  pub not_held : is_held lease s.job_deletion_lease_map ≡ false
  pub issued : lease.token < s.next_symbol

-- The leases and the next symbol are the same.
pub record AreSame (s t : Store) : Type 0 where
  pub leases : t.job_deletion_lease_map ≡ s.job_deletion_lease_map
  pub symbols : t.next_symbol ≡ s.next_symbol

pub AreSame-IsGone :
    {s t : Store} (lease : JobDeletionLease) → AreSame s t → IsGone lease s → IsGone lease t
AreSame-IsGone lease q g = record {
  not_held = ap (λ m. is_held lease m) q.leases ∙ g.not_held;
  issued = rw q.symbols g.issued;
}

same : {s : Store} → AreSame s s
same = record { leases = refl; symbols = refl }

if-AreSame :
    {A : Type 0} (b : Bool) (m n : A × Store) (s : Store)
    → AreSame s m.1
    → AreSame s n.1
    → AreSame s (if b then m else n).1
if-AreSame true m n s p q = p
if-AreSame false m n s p q = q

is_held-put :
    (j : String) (n : ℕ) (lease : JobDeletionLease) (m : Dict ℕ)
    → is_held lease m ≡ false
    → lease.token < n
    → is_held lease (put j n m) ≡ false
is_held-put j n lease m h lt = elim (Bool-cases (str_eq j lease.job_id)) [
  | inl e ↦ rw (lookup-put j lease.job_id n m, e) (ground (arith, lt))
  | inr e ↦ rw (lookup-put j lease.job_id n m, e) h
]

pub is_held-remove :
    (j : String) (lease : JobDeletionLease) (m : Dict ℕ)
    → is_held lease m ≡ false
    → is_held lease (remove j m) ≡ false
is_held-remove j lease m h = elim (Bool-cases (str_eq j lease.job_id)) [
  | inl e ↦ rw (lookup-remove j lease.job_id m, e) refl
  | inr e ↦ rw (lookup-remove j lease.job_id m, e) h
]

pub acquire-IsGone :
    (j : String) (lease : JobDeletionLease) (s : Store)
    → IsGone lease s
    → IsGone lease (acquire_job_deletion_lease j s).1
unfolding acquire_job_deletion_lease
acquire-IsGone j lease s g = elim (Bool-cases (has_key j s.job_map)) [
  | inr e ↦ rw (e, acquire_job_deletion_lease) g
  | inl e ↦ elim (Bool-cases (has_key j s.job_deletion_lease_map)) [
    | inl d ↦ rw (e, d, acquire_job_deletion_lease) g
    | inr d ↦
        rw (e, d, acquire_job_deletion_lease)
          (record {
            not_held =
                is_held-put j s.next_symbol lease s.job_deletion_lease_map g.not_held g.issued;
            issued = omega (arith, g.issued);
          })
  ]
]

release_held-IsGone :
    (o : Option ℕ) (other lease : JobDeletionLease) (s : Store)
    → IsGone lease s
    → IsGone lease (release_held o other s).1
unfolding release_held
release_held-IsGone none other lease s g = g
release_held-IsGone (some token) other lease s g = elim (Bool-cases (token == other.token)) [
  | inl e ↦
      rw (e, release_held)
        (record {
          not_held = is_held-remove other.job_id lease s.job_deletion_lease_map g.not_held;
          issued = g.issued;
        })
  | inr e ↦ rw (e, release_held) g
]

pub release_lease-IsGone :
    (other lease : JobDeletionLease) (s : Store)
    → IsGone lease s
    → IsGone lease (release_job_deletion_lease other s).1
unfolding release_job_deletion_lease
release_lease-IsGone other lease s g =
    release_held-IsGone (lookup other.job_id s.job_deletion_lease_map) other lease s g

renew-AreSame : (j : String) (job : JobRecord) (s : Store) → AreSame s (renew_controller j job s)
unfolding renew_controller
renew-AreSame j job s = elim (Bool-cases (is_aborted job.cancellation_controller s.aborted)) [
  | inl e ↦ rw (e, renew_controller) (record { leases = refl; symbols = refl })
  | inr e ↦ rw (e, renew_controller) same
]

claim_if_idle-AreSame :
    (busy : List String) (j : String) (ids : List String) (job : JobRecord) (s : Store)
    → AreSame s (claim_if_idle busy j ids job s).1
unfolding claim_if_idle
claim_if_idle-AreSame (x ∷ xs) j ids job s = same
claim_if_idle-AreSame [] j ids job s =
    let q = renew-AreSame j job s in record { leases = q.leases; symbols = q.symbols }

claim_job-AreSame :
    (o : Option JobRecord) (j : String) (ids : List String) (s : Store)
    → AreSame s (claim_job o j ids s).1
unfolding claim_job
claim_job-AreSame none j ids s = same
claim_job-AreSame (some job) j ids s =
    if-AreSame (has_key j s.job_deletion_lease_map) _ _ s same
      (claim_if_idle-AreSame (executions_of (lookup j s.active_pipeline_execution_map)) j ids job s)

pub claim-IsGone :
    (j p : String) (lease : JobDeletionLease) (s : Store)
    → IsGone lease s
    → IsGone lease (claim_pipeline_execution j p s).1
unfolding claim_pipeline_execution
claim-IsGone j p lease s g =
    AreSame-IsGone lease (claim_job-AreSame (lookup j s.job_map) j (p ∷ []) s) g

pub claim_coordinated-IsGone :
    (j : String) (ids : List String) (lease : JobDeletionLease) (s : Store)
    → IsGone lease s
    → IsGone lease (claim_coordinated_pipeline_executions j ids s).1
unfolding claim_coordinated_pipeline_executions
claim_coordinated-IsGone j ids lease s g =
    AreSame-IsGone lease
      (if-AreSame (is_claimable ids) _ _ s (claim_job-AreSame (lookup j s.job_map) j ids s) same) g

keep_active-AreSame :
    (j : String) (left : List String) (s : Store) → AreSame s (keep_active j left s)
unfolding keep_active
keep_active-AreSame j [] s = record { leases = refl; symbols = refl }
keep_active-AreSame j (x ∷ xs) s = record { leases = refl; symbols = refl }

pub release-IsGone :
    (j p : String) (lease : JobDeletionLease) (s : Store)
    → IsGone lease s
    → IsGone lease (release_pipeline_execution j p s)
unfolding release_pipeline_execution
release-IsGone j p lease s g = elim (Option-cases (lookup j s.active_pipeline_execution_map)) [
  | inl e ↦ rw (e, release_pipeline_execution) g
  | inr (active, e) ↦
      rw (e, release_pipeline_execution)
        (AreSame-IsGone lease (keep_active-AreSame j (discard p active) s) g)
]

release_held_gone :
    (o : Option ℕ) (lease : JobDeletionLease) (s : Store)
    → is_token lease o ≡ false
    → release_held o lease s ≡ (false, s)
unfolding release_held
release_held_gone none lease s h = refl
release_held_gone (some token) lease s h = rw (h, release_held) refl

-- A lease that is not held is not released.
pub release_gone :
    (lease : JobDeletionLease) (s : Store)
    → IsGone lease s
    → release_job_deletion_lease lease s ≡ (false, s)
unfolding release_job_deletion_lease
release_gone lease s g =
    release_held_gone (lookup lease.job_id s.job_deletion_lease_map) lease s g.not_held

release_held_removes :
    (o : Option ℕ) (lease : JobDeletionLease) (s : Store)
    → lease.token < s.next_symbol
    → (release_held o lease s).0 ≡ true
    → IsGone lease (release_held o lease s).1
unfolding release_held
release_held_removes none lease s issued h = cc
release_held_removes (some token) lease s issued h = elim (Bool-cases (token == lease.token)) [
  | inl e ↦
      rw (e, release_held)
        (record {
          not_held =
              rw
                (
                  lookup-remove lease.job_id lease.job_id s.job_deletion_lease_map,
                  (eq_iff lease.job_id lease.job_id).1 refl,
                )
                refl;
          issued = issued;
        })
  | inr e ↦ cc (rw (e, release_held) at h)
]

pub IsGone-of_release :
    (lease : JobDeletionLease) (s : Store)
    → lease.token < s.next_symbol
    → (release_job_deletion_lease lease s).0 ≡ true
    → IsGone lease (release_job_deletion_lease lease s).1
unfolding release_job_deletion_lease
IsGone-of_release lease s issued h =
    release_held_removes (lookup lease.job_id s.job_deletion_lease_map) lease s issued h

pub claim-AreSame : (j p : String) (s : Store) → AreSame s (claim_pipeline_execution j p s).1
unfolding claim_pipeline_execution
claim-AreSame j p s = claim_job-AreSame (lookup j s.job_map) j (p ∷ []) s

pub claim_coordinated-AreSame :
    (j : String) (ids : List String) (s : Store)
    → AreSame s (claim_coordinated_pipeline_executions j ids s).1
unfolding claim_coordinated_pipeline_executions
claim_coordinated-AreSame j ids s =
    if-AreSame (is_claimable ids) _ _ s (claim_job-AreSame (lookup j s.job_map) j ids s) same

pub release-AreSame : (j p : String) (s : Store) → AreSame s (release_pipeline_execution j p s)
unfolding release_pipeline_execution
release-AreSame j p s = elim (Option-cases (lookup j s.active_pipeline_execution_map)) [
  | inl e ↦ rw (e, release_pipeline_execution) same
  | inr (active, e) ↦
      rw (e, release_pipeline_execution) (keep_active-AreSame j (discard p active) s)
]
