-- ===== src/Jobs/Records/Cancelled.antt =====
-- A cancellation is requested once, and a committed publication is projected in any case.
use datasheet_to_tscircuit.Prelude.{
  ℕ, subst, String, ◌≡◌, refl, sym, ap, ◌∙◌, Bool, true, false, Option, none, some, List, [], ◌∷◌,
  suc, lookup, lookup-put, eq_iff, arith, if◌then◌else◌,
}
use datasheet_to_tscircuit.Pipeline.Errors.{Thrown}
use datasheet_to_tscircuit.Pipeline.Result.{return}
use datasheet_to_tscircuit.Jobs.Types.{
  JobRecord, JobField, JobEvent, job_updated, already_requested, Server, Store,
}
use datasheet_to_tscircuit.Jobs.Claims.{is_aborted}
use datasheet_to_tscircuit.Jobs.Records.{
  retained, publish, publish_job_list, commit_job, update_checked, update_found, update_job,
  project_found, project_committed_publication, cancel_checked, cancel_found, request_cancellation,
  tick, abort,
}

is_aborted-head : (c : ℕ) (cs : List ℕ) → is_aborted c (c ∷ cs) ≡ true
unfolding is_aborted
is_aborted-head c cs = ground arith

-- The job is there, with its controller aborted.
record IsStopped (job_id : String) (s : Store) : Type 0 where
  job : JobRecord
  found : lookup job_id s.job_map ≡ some job
  going : job.is_complete ≡ false
  stopped : is_aborted job.cancellation_controller s.aborted ≡ true

stopped_known :
    (server : Server) (job : JobRecord) (s : Store)
    → job.is_complete ≡ false
    → is_aborted job.cancellation_controller s.aborted ≡ true
    → cancel_found server (some job) s ≡ (return already_requested, s)
unfolding cancel_found
stopped_known server job s h k = ground (arith, h, k)

stopped_found :
    (server : Server) (o : Option JobRecord) (job : JobRecord) (s : Store)
    → o ≡ some job
    → job.is_complete ≡ false
    → is_aborted job.cancellation_controller s.aborted ≡ true
    → cancel_found server o s ≡ (return already_requested, s)
stopped_found server o job s e h k =
    ap (λ x. cancel_found server x s) e ∙ stopped_known server job s h k

-- A request for a stopped job is known and changes nothing.
stopped_again :
    (server : Server) (job_id : String) (s : Store)
    → IsStopped job_id s
    → request_cancellation server job_id s ≡ (return already_requested, s)
unfolding request_cancellation
stopped_again server job_id s p =
    stopped_found server (lookup job_id s.job_map) p.job s p.found p.going p.stopped

-- A commit of a job leaves it in the map, with the subscribers that are left.
lookup-commit :
    (server : Server) (job : JobRecord) (s : Store)
    → lookup job.job_id (commit_job server job s).job_map
      ≡ some (record job {
        subscriber_set = retained server (job_updated job) s.clock job.subscriber_set;
      })
unfolding commit_job publish publish_job_list
lookup-commit server job s =
    rw (lookup-put job.job_id job.job_id _ s.job_map, (eq_iff job.job_id job.job_id).1 refl) refl

retained-write :
    (server : Server) (event : JobEvent) (clock : ℕ) (xs : List ℕ)
    → retained (record server { write_checkpoint = λ n job. none }) event clock xs
      ≡ retained server event clock xs
unfolding retained
retained-write server event clock [] = refl
retained-write server event clock (x ∷ xs) =
    ap (λ rest. if server.rejects clock x event then rest else x ∷ rest)
      (retained-write server event (suc clock) xs)

project_found_as_if :
    (server : Server) (job_id : String) (fields : List JobField) (o : Option JobRecord) (s : Store)
    → (project_found server job_id fields o s).1
      ≡ (update_found (record server { write_checkpoint = λ n job. none }) job_id fields o s).1
unfolding project_found update_found update_checked commit_job publish publish_job_list
project_found_as_if server job_id fields none s = refl
project_found_as_if server job_id fields (some job) s = simp retained-write

-- A publication that is committed elsewhere is projected as if its checkpoint were written, whether or
-- not it is, and the failure is reported.
pub project_as_if_checkpointed :
    (server : Server) (job_id : String) (fields : List JobField) (s : Store)
    → (project_committed_publication server job_id fields s).1
      ≡ (update_job (record server { write_checkpoint = λ n job. none }) job_id fields s).1
unfolding project_committed_publication update_job
project_as_if_checkpointed server job_id fields s =
    project_found_as_if server job_id fields (lookup job_id s.job_map) s

commit-aborted :
    (server : Server) (job : JobRecord) (s : Store)
    → is_aborted job.cancellation_controller s.aborted ≡ true
    → is_aborted job.cancellation_controller (commit_job server job s).aborted ≡ true
unfolding commit_job publish publish_job_list
commit-aborted server job s h = h

cancel_checked-IsStopped :
    (server : Server) (job : JobRecord) (label : String) (o : Option Thrown) (s : Store)
    → lookup job.job_id s.job_map ≡ some job
    → job.is_complete ≡ false
    → IsStopped job.job_id (cancel_checked server (record job { display_status = label }) o s).1
unfolding cancel_checked
cancel_checked-IsStopped server job label (some e) s found going = record {
  job = job;
  found = found;
  going = going;
  stopped = is_aborted-head job.cancellation_controller s.aborted;
}
cancel_checked-IsStopped server job label none s found going =
    let candidate : JobRecord = record job { display_status = label } in
    let t = abort job.cancellation_controller s in
    record {
      job = record candidate {
        subscriber_set = retained server (job_updated candidate) t.clock candidate.subscriber_set;
      };
      found = lookup-commit server candidate t;
      going = going;
      stopped =
          commit-aborted server candidate t (is_aborted-head job.cancellation_controller s.aborted);
    }

if-IsStopped :
    {A : Type 0} (b : Bool) (m n : A × Store) (job_id : String)
    → (b ≡ true → IsStopped job_id m.1)
    → IsStopped job_id n.1
    → IsStopped job_id (if b then m else n).1
if-IsStopped true m n job_id p q = p refl
if-IsStopped false m n job_id p q = q

cancel_found-IsStopped :
    (server : Server) (job : JobRecord) (s : Store)
    → lookup job.job_id s.job_map ≡ some job
    → job.is_complete ≡ false
    → IsStopped job.job_id (cancel_found server (some job) s).1
unfolding cancel_found
cancel_found-IsStopped server job s found going =
    if-IsStopped job.is_complete _ _ job.job_id (λ done. cc)
      (if-IsStopped (is_aborted job.cancellation_controller s.aborted) _ _ job.job_id
        (λ stopped. record { job = job; found = found; going = going; stopped = stopped })
        (cancel_checked-IsStopped server job "cancelling" _ (tick s) found going))

requested-IsStopped :
    (server : Server) (job : JobRecord) (s : Store)
    → lookup job.job_id s.job_map ≡ some job
    → job.is_complete ≡ false
    → IsStopped job.job_id (request_cancellation server job.job_id s).1
unfolding request_cancellation
requested-IsStopped server job s found going =
    subst (λ o. IsStopped job.job_id (cancel_found server o s).1) (sym found)
      (cancel_found-IsStopped server job s found going)

-- A request for the cancellation of an incomplete job stops the job, whether or not its checkpoint can
-- be written: another request is answered by `already_requested` and changes nothing.
pub request_cancellation_twice :
    (server : Server) (job : JobRecord) (s : Store)
    → lookup job.job_id s.job_map ≡ some job
    → job.is_complete ≡ false
    → (let t = (request_cancellation server job.job_id s).1 in
        request_cancellation server job.job_id t ≡ (return already_requested, t))
request_cancellation_twice server job s found going =
    stopped_again server job.job_id (request_cancellation server job.job_id s).1
      (requested-IsStopped server job s found going)
