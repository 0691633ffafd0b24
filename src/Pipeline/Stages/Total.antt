-- ===== src/Pipeline/Stages/Total.antt =====
-- Where every awaited action is fulfilled, no part of an iteration throws, whatever the stage does, and
-- the results keep their keys.
use datasheet_to_tscircuit.Prelude.{
  ℕ, String, ◌≡◌, refl, sym, subst, Bool, true, false, Option, none, some, List, [], ◌∷◌, Dict,
  has_key, has_key-put, put, All, if◌then◌else◌,
}
use datasheet_to_tscircuit.Pipeline.Types.{
  Json, Artifact, Diagnostic, Metrics, StageResult, Outcome, Stage, EventBody, TaskInputEnvelope,
}
use datasheet_to_tscircuit.Pipeline.Errors.{Thrown}
use datasheet_to_tscircuit.Pipeline.Dependencies.{DependencyState}
use datasheet_to_tscircuit.Pipeline.Effects.{
  Environment, Committed, Core, Run, M, modify_core, read_aborted, ◌>>=◌,
}
use datasheet_to_tscircuit.Pipeline.Effects.Outcomes.{On}
use datasheet_to_tscircuit.Pipeline.Effects.Kept.{
  Keeps, Keeps-bind, Keeps-if, Keeps-read_aborted, Keeps-get_core, Keeps-try_catch, Keeps-may_throw,
}
use datasheet_to_tscircuit.Pipeline.Effects.Variables.{
  IsLocal, IsLocal-On, Reliable, reliable_rules, variable_rules, Keeps-modify_core, Keeps-read_now,
  Keeps-run_execute,
}
use datasheet_to_tscircuit.Pipeline.Trace.{Setting}
use datasheet_to_tscircuit.Pipeline.Trace.Variables.{
  Keeps-terminal_bundle, Keeps-record_failure, Keeps-emit_reliable, Keeps-initial_bundle_reliable,
  Keeps-terminal_bundle_reliable,
}
use datasheet_to_tscircuit.Pipeline.Stages.{
  with_result, close_unstarted, close_started, retain_under, retain_files, retain_started,
  prepare_directory, files_if_ready, continuation_files, skip_unselected, cancel_unstarted,
  skip_incomplete, cancel_started, collect_artifacts, close_skipped, close_completed, settle,
  execute_stage, recover_committed, fail_stage, close_failure, handle_failure, attempt_stage,
  start_stage, await_before_stage_start, start_if_ready, run_selected,
}

-- Each of the ids has a result.
abbrev pub HasResults : List String → Core → Type 0
HasResults ids c = All (λ id. has_key id c.stage_results ≡ true) ids

has_results-put :
    (ids : List String) (id : String) (r : StageResult) (m : Dict StageResult)
    → All (λ i. has_key i m ≡ true) ids
    → All (λ i. has_key i (put id r m) ≡ true) ids
has_results-put [] id r m h = tt
has_results-put (i ∷ ids) id r m (h, hs) = (has_key-put id i r m h, has_results-put ids id r m hs)

-- A change of the variables that leaves the results alone.
abbrev Marks : (Core → Core) → Type 0
Marks mark = (c : Core) → (mark c).stage_results ≡ c.stage_results

module _ (ids : List String) where
  abbrev pub Results : Run → Type 0
  Results = On (HasResults ids)

  pub local : IsLocal Results
  local = IsLocal-On (HasResults ids)

  Keeps-mark_result :
      {b : Bool} (mark : Core → Core) (id : String) (r : StageResult)
      → Marks mark
      → Keeps Results b (modify_core (λ c. mark (with_result id r c)))
  Keeps-mark_result mark id r plain = Keeps-modify_core local _ λ s h.
      subst (λ m. All (λ i. has_key i m ≡ true) ids) (sym (plain (with_result id r s.core)))
        (has_results-put ids id r s.core.stage_results h)

ruleset total_rules = (
  reliable_rules, Keeps-emit_reliable, Keeps-initial_bundle_reliable,
  Keeps-terminal_bundle_reliable, Keeps-record_failure, Keeps-terminal_bundle,
)

module _ (ids : List String) (env : Environment) (reliable : Reliable env) (setting : Setting)
    (stage : Stage) (dir : String) where
  Keeps-close_unstarted :
      (mark : Core → Core) (result : StageResult) (input : TaskInputEnvelope) (event : EventBody)
      → Marks mark
      → Keeps (Results ids) false (close_unstarted env setting stage dir mark result input event)
  unfolding close_unstarted
  Keeps-close_unstarted mark result input event plain =
      Keeps-bind _ _ (Keeps-mark_result ids mark stage.id result plain)
        (λ _. search (total_rules, reliable, local ids) depth 8)

  Keeps-close_started :
      (mark : Core → Core) (result : StageResult) (event : EventBody)
      → Marks mark
      → Keeps (Results ids) false (close_started env setting stage dir mark result event)
  unfolding close_started
  Keeps-close_started mark result event plain =
      Keeps-bind _ _ (Keeps-mark_result ids mark stage.id result plain)
        (λ _. search (total_rules, reliable, local ids) depth 8)

  Keeps-retain_files :
      (root : Option String) → Keeps (Results ids) false (retain_files env setting stage dir root)
  unfolding retain_files retain_under
  Keeps-retain_files none = search total_rules
  Keeps-retain_files (some root) = search (total_rules, reliable, local ids)

  Keeps-retain_started :
      (root : Option String) → Keeps (Results ids) false (retain_started env setting stage dir root)
  unfolding retain_started retain_under
  Keeps-retain_started none = search total_rules
  Keeps-retain_started (some root) = search (total_rules, reliable, local ids)

  Keeps-prepare_directory : Keeps (Results ids) false (prepare_directory env setting stage dir)
  unfolding prepare_directory
  Keeps-prepare_directory = search (total_rules, reliable, local ids, Keeps-retain_started)

  Keeps-files_if_ready :
      (incomplete : List String)
      → Keeps (Results ids) false (files_if_ready env setting stage dir incomplete)
  unfolding files_if_ready
  Keeps-files_if_ready [] = Keeps-retain_files _
  Keeps-files_if_ready (id ∷ incomplete) = search total_rules

  Keeps-continuation_files :
      (state : Option DependencyState)
      → Keeps (Results ids) false (continuation_files env setting stage dir state)
  unfolding continuation_files
  Keeps-continuation_files none = search total_rules
  Keeps-continuation_files (some state) = Keeps-files_if_ready state.incomplete_dependencies

  pub Keeps-skip_unselected :
      (state : Option DependencyState)
      → Keeps (Results ids) false (skip_unselected env setting stage dir state)
  unfolding skip_unselected
  Keeps-skip_unselected state = Keeps-bind _ _ (Keeps-continuation_files state) (λ files.
      Keeps-bind _ _ (Keeps-read_now (local ids) env)
        (λ at. Keeps-close_unstarted _ _ _ _ (λ c. refl)))

  Keeps-cancel_unstarted :
      (state : DependencyState)
      → Keeps (Results ids) false (cancel_unstarted env setting stage dir state)
  unfolding cancel_unstarted
  Keeps-cancel_unstarted state =
      Keeps-bind _ _ (Keeps-read_now (local ids) env)
        (λ at. Keeps-close_unstarted _ _ _ _ (λ c. refl))

  Keeps-skip_incomplete :
      (state : DependencyState)
      → Keeps (Results ids) false (skip_incomplete env setting stage dir state)
  unfolding skip_incomplete
  Keeps-skip_incomplete state =
      Keeps-bind _ _ (Keeps-read_now (local ids) env)
        (λ at. Keeps-close_unstarted _ _ _ _ (λ c. refl))

  Keeps-cancel_started :
      (started completed_at : ℕ)
      → Keeps (Results ids) false (cancel_started env setting stage dir started completed_at)
  unfolding cancel_started
  Keeps-cancel_started started completed_at = Keeps-close_started _ _ _ (λ c. refl)

  Keeps-collect_artifacts :
      (declared : Option (List Artifact))
      → Keeps (Results ids) true (collect_artifacts env setting stage dir declared)
  unfolding collect_artifacts
  Keeps-collect_artifacts declared = search (variable_rules, local ids)

  -- The end of a stage, in the `try` block.
  closed_in_try :
      (result : StageResult) (event : EventBody)
      → Keeps (Results ids) true (close_started env setting stage dir (λ c. c) result event)
  closed_in_try result event = Keeps-may_throw _ (Keeps-close_started _ result event (λ c. refl))

  Keeps-close_skipped :
      (started completed_at : ℕ) (reason : String) (declared : Option (List Artifact))
      (diagnostics : Option (List Diagnostic)) (metrics : Option Metrics)
      → Keeps (Results ids) true (
          close_skipped env setting stage dir started completed_at reason declared diagnostics
            metrics)
  unfolding close_skipped
  Keeps-close_skipped started completed_at reason declared diagnostics metrics =
      Keeps-bind _ _ (Keeps-collect_artifacts declared) (λ _. closed_in_try _ _)

  Keeps-close_completed :
      (started completed_at : ℕ) (output : Json) (committed : Bool)
      (declared : Option (List Artifact)) (diagnostics : Option (List Diagnostic))
      (metrics : Option Metrics)
      → Keeps (Results ids) true (
          close_completed env setting stage dir started completed_at output committed declared
            diagnostics metrics)
  unfolding close_completed
  Keeps-close_completed started completed_at output true declared diagnostics metrics =
      Keeps-bind _ _ (Keeps-collect_artifacts declared)
        (λ _. Keeps-bind _ _ (Keeps-modify_core (local ids) _ (λ s h. h)) (λ _. closed_in_try _ _))
  Keeps-close_completed started completed_at output false declared diagnostics metrics =
      Keeps-bind _ _ (Keeps-collect_artifacts declared)
        (λ _. Keeps-bind _ _ (Keeps-modify_core (local ids) _ (λ s h. h)) (λ _. closed_in_try _ _))

  unless_aborted :
      (started completed_at : ℕ) (m : M (Unit {0}))
      → Keeps (Results ids) true m
      → Keeps (Results ids) true (
          read_aborted env >>= λ aborted.
          if aborted then cancel_started env setting stage dir started completed_at else m)
  unless_aborted started completed_at m keeps = Keeps-read_aborted env _ (λ aborted.
      Keeps-if aborted _ _ (Keeps-may_throw _ (Keeps-cancel_started started completed_at)) keeps)

  Keeps-settle :
      (started : ℕ) (outcome : Outcome)
      → Keeps (Results ids) true (settle env setting stage dir started outcome)
  unfolding settle
  Keeps-settle started (Outcome.skipped reason artifacts diagnostics metrics) =
      Keeps-bind _ _ (Keeps-read_now (local ids) env) (λ at.
        unless_aborted started at _
          (Keeps-close_skipped started at reason artifacts diagnostics metrics))
  Keeps-settle started (Outcome.completed output false artifacts diagnostics metrics) =
      Keeps-bind _ _ (Keeps-read_now (local ids) env) (λ at.
        unless_aborted started at _
          (Keeps-close_completed started at output false artifacts diagnostics metrics))
  Keeps-settle started (Outcome.completed output true artifacts diagnostics metrics) =
      Keeps-bind _ _ (Keeps-read_now (local ids) env) (λ at.
        Keeps-bind _ _ (Keeps-modify_core (local ids) _ (λ s h. h))
          (λ _. Keeps-close_completed started at output true artifacts diagnostics metrics))

  Keeps-close_failure :
      (started completed_at : ℕ) (e : Thrown) (kept : Option Committed)
      → Keeps (Results ids) false (close_failure env setting stage dir started completed_at e kept)
  unfolding close_failure recover_committed fail_stage
  Keeps-close_failure started completed_at e (some kept) =
      Keeps-bind _ _ (Keeps-mark_result ids (λ c. c) stage.id _ (λ c. refl))
        (λ _. search (total_rules, reliable, local ids) depth 8)
  Keeps-close_failure started completed_at e none = Keeps-read_aborted env _ (λ aborted.
      Keeps-if aborted _ _ (Keeps-cancel_started started completed_at)
        (Keeps-close_started _ _ _ (λ c. refl)))

  Keeps-attempt_stage :
      (started : ℕ) (state : DependencyState)
      → Keeps (Results ids) false (attempt_stage env setting stage dir started state)
  unfolding attempt_stage execute_stage handle_failure
  Keeps-attempt_stage started state =
      Keeps-try_catch _ _
        (Keeps-bind _ _ (Keeps-run_execute (local ids) env _) (Keeps-settle started))
        (λ e.
          Keeps-bind _ _ (Keeps-read_now (local ids) env)
            (λ at. Keeps-get_core _ (λ s h. Keeps-close_failure started at e s.core.committed)))

  Keeps-start_stage :
      (state : DependencyState)
      → Keeps (Results ids) false (start_stage env setting stage dir state)
  unfolding start_stage
  Keeps-start_stage state = Keeps-bind _ _ (Keeps-read_now (local ids) env) (λ started.
      Keeps-bind _ _ Keeps-prepare_directory (λ files.
        Keeps-bind _ _ (Keeps-mark_result ids (λ c. c) stage.id _ (λ c. refl)) (λ _.
          Keeps-bind _ _ (Keeps-initial_bundle_reliable (local ids) env reliable setting _ _ _)
            (λ _. Keeps-bind _ _ (Keeps-emit_reliable (local ids) env reliable setting _) (λ _.
              Keeps-bind _ _ (Keeps-modify_core (local ids) _ (λ s h. h))
                (λ _. Keeps-attempt_stage started state))))))

  Keeps-start_if_ready :
      (state : DependencyState) (incomplete : List String)
      → Keeps (Results ids) false (start_if_ready env setting stage dir state incomplete)
  unfolding start_if_ready await_before_stage_start
  Keeps-start_if_ready state [] =
      search (total_rules, reliable, local ids, Keeps-cancel_unstarted, Keeps-start_stage) depth 8
  Keeps-start_if_ready state (id ∷ incomplete) = Keeps-skip_incomplete state

  pub Keeps-run_selected :
      (state : DependencyState)
      → Keeps (Results ids) false (run_selected env setting stage dir state)
  unfolding run_selected
  Keeps-run_selected state =
      search (total_rules, Keeps-cancel_unstarted, Keeps-start_if_ready) depth 8
