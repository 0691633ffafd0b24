-- ===== src/Jobs/Tests.antt =====
-- A store with one job, and the theorems at concrete inputs.
use datasheet_to_tscircuit.Prelude.{
  ◌<◌, String, ◌≡◌, refl, true, false, none, some, List, [], ◌∷◌, lookup, put, remove, has_key,
  member, discard, arith,
}
use datasheet_to_tscircuit.Pipeline.Errors.{Thrown}
use datasheet_to_tscircuit.Pipeline.Result.{return}
use datasheet_to_tscircuit.Jobs.Types.{
  JobRecord, JobField, CreateJobInput, JobDeletionLease, acquired, already_requested, Server, Store,
  empty_store,
}
use datasheet_to_tscircuit.Jobs.Records.{
  retained, publish, publish_job_list, commit_job, create_job, update_job,
  project_committed_publication, request_cancellation, delete_job,
}
use datasheet_to_tscircuit.Jobs.Records.Cancelled.{
  request_cancellation_twice, project_as_if_checkpointed,
}
use datasheet_to_tscircuit.Jobs.Claims.{
  acquire_job_deletion_lease, release_job_deletion_lease, claim_pipeline_execution, is_aborted,
  claim_coordinated_pipeline_executions, release_pipeline_execution, renew_controller, is_claimable,
  are_distinct,
}
use datasheet_to_tscircuit.Jobs.Operations.{Operation, claim, request, acquire, release, apply, run}
use datasheet_to_tscircuit.Jobs.Operations.Deletion.{lease_blocks_claims}
use datasheet_to_tscircuit.Jobs.Operations.Exclusion.{claims_exclude}
use datasheet_to_tscircuit.Jobs.Operations.Leases.{released_lease_stays_released}

-- A server whose disk is full: no checkpoint is written. Subscriber 1 throws.
abbrev full : Server
full = record {
  write_checkpoint = λ n job. some (Thrown.value "no space");
  now = λ n. n;
  rejects = λ n x event. is_aborted x (1 ∷ []);
}

abbrev server : Server
server = record full { write_checkpoint = λ n job. none }

abbrev input : CreateJobInput
input = record {
  job_id = "j";
  job_dir = "jobs/j";
  file_name = "datasheet.pdf";
  use_openai = none;
  additional_instructions = none;
  retry_source_job_id = none;
}

abbrev job : JobRecord
job = record {
  job_id = "j";
  job_dir = "jobs/j";
  file_name = "datasheet.pdf";
  use_openai = none;
  additional_instructions = none;
  retry_source_job_id = none;
  created_at = 0;
  completed_at = none;
  display_status = "queued";
  is_complete = false;
  has_errors = false;
  error_message = none;
  warnings = [];
  logs = [];
  carried = [];
  cancellation_controller = 0;
  subscriber_set = 1 ∷ 2 ∷ [];
}

abbrev one_job : Store
one_job = record empty_store { job_map = ("j", job) ∷ []; next_controller = 1; next_symbol = 4 }

program : Unit {0}
unfolding retained publish publish_job_list commit_job create_job update_job
    project_committed_publication request_cancellation delete_job acquire_job_deletion_lease
    release_job_deletion_lease claim_pipeline_execution is_aborted
    claim_coordinated_pipeline_executions release_pipeline_execution renew_controller is_claimable
    are_distinct apply run lookup put remove has_key member discard
program = tt

created : (create_job server input empty_store).0 ≡ return (record job { subscriber_set = [] })
unfolding program
created = refl

-- The disk is full, so that no job is created.
not_created : (create_job full input empty_store).1.job_map ≡ []
unfolding program
not_created = refl

granted : (claim_pipeline_execution "j" "spice_generation" one_job).0 ≡ true
unfolding program
granted = refl

abbrev between : List Operation
between =
    claim "j" "component_generation"
    ∷ request "j"
    ∷ acquire "j"
    ∷ release "k" "spice_generation"
    ∷ []

claims_exclude_example :
    (let t = run server between (claim_pipeline_execution "j" "spice_generation" one_job).1 in
      ((other : String) → claim_pipeline_execution "j" other t ≡ (false, t))
      × ((ids : List String) → claim_coordinated_pipeline_executions "j" ids t ≡ (false, t)))
claims_exclude_example =
    claims_exclude server "j" "spice_generation" between one_job granted
      (refl, (refl, (refl, (refl, tt))))

-- A failed checkpoint leaves the job as it is, and drops no subscriber.
update_fails :
    (update_job full "j" (JobField.is_complete true ∷ []) one_job).1.job_map ≡ one_job.job_map
unfolding program
update_fails = refl

-- A subscriber that throws is dropped.
update_drops :
    (update_job server "j" (JobField.is_complete true ∷ []) one_job).1.job_map
    ≡ ("j", record job { is_complete = true; subscriber_set = 2 ∷ [] }) ∷ []
unfolding program
update_drops = refl

abbrev lease : JobDeletionLease
lease = record { job_id = "j"; token = 4 }

abbrev leased : Store
leased = (acquire_job_deletion_lease "j" one_job).1

released : (release_job_deletion_lease lease leased).0 ≡ true
unfolding program
released = refl

issued : 4 < leased.next_symbol
unfolding program
issued = omega arith

released_lease_stays_released_example :
    (let t =
        run server (acquire "j" ∷ claim "j" "p" ∷ []) (release_job_deletion_lease lease leased).1 in
      release_job_deletion_lease lease t ≡ (false, t))
released_lease_stays_released_example =
    released_lease_stays_released server lease (acquire "j" ∷ claim "j" "p" ∷ []) leased issued
      released

found : lookup "j" one_job.job_map ≡ some job
unfolding program
found = refl

request_cancellation_twice_example :
    (let t = (request_cancellation full "j" one_job).1 in
      request_cancellation full "j" t ≡ (return already_requested, t))
request_cancellation_twice_example = request_cancellation_twice full job one_job found refl

project_as_if_checkpointed_example :
    (project_committed_publication full "j" (JobField.has_errors false ∷ []) one_job).1
    ≡ (update_job
        (record full { write_checkpoint = λ n job. none })
        "j"
        (JobField.has_errors false ∷ [])
        one_job).1
project_as_if_checkpointed_example =
    project_as_if_checkpointed full "j" (JobField.has_errors false ∷ []) one_job

lease_acquired : (acquire_job_deletion_lease "j" one_job).0 ≡ acquired lease
unfolding program
lease_acquired = refl

lease_blocks_claims_example :
    (let t = run server (acquire "j" ∷ claim "j" "p" ∷ []) leased in
      ((other : String) → claim_pipeline_execution "j" other t ≡ (false, t))
      × ((ids : List String) → claim_coordinated_pipeline_executions "j" ids t ≡ (false, t)))
lease_blocks_claims_example =
    lease_blocks_claims server "j" lease (acquire "j" ∷ claim "j" "p" ∷ []) one_job lease_acquired
      (refl, (refl, tt))
