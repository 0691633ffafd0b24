-- ===== src/Pipeline/Stages/Numbering.antt =====
-- Each part of an iteration keeps the events numbered.
use datasheet_to_tscircuit.Prelude.{ℕ, String, Option, none, some, List, [], ◌∷◌, true, false}
use datasheet_to_tscircuit.Pipeline.Types.{
  Artifact, StageResult, Outcome, Stage, EventBody, TaskInputEnvelope,
}
use datasheet_to_tscircuit.Pipeline.Errors.{Thrown}
use datasheet_to_tscircuit.Pipeline.Dependencies.{DependencyState}
use datasheet_to_tscircuit.Pipeline.Effects.{Environment, Core, Committed}
use datasheet_to_tscircuit.Pipeline.Effects.Kept.{Keeps}
use datasheet_to_tscircuit.Pipeline.Trace.{Setting}
use datasheet_to_tscircuit.Pipeline.Trace.Numbering.{
  IsNumbered, numbered_rules, Keeps-emit, Keeps-record_failure, Keeps-initial_bundle,
  Keeps-terminal_bundle,
}
use datasheet_to_tscircuit.Pipeline.Stages.{
  close_unstarted, close_started, retain_under, retain_files, retain_started, prepare_directory,
  files_if_ready, continuation_files, skip_unselected, cancel_unstarted, skip_incomplete,
  cancel_started, collect_artifacts, close_skipped, close_completed, settle, execute_stage,
  recover_committed, fail_stage, close_failure, handle_failure, attempt_stage, start_stage,
  await_before_stage_start, start_if_ready, run_selected,
}

ruleset recorded_rules =
    (numbered_rules, Keeps-emit, Keeps-record_failure, Keeps-initial_bundle, Keeps-terminal_bundle)

module _ (env : Environment) (setting : Setting) (stage : Stage) (dir : String) where
  Keeps-close_unstarted :
      (mark : Core → Core) (result : StageResult) (input : TaskInputEnvelope) (event : EventBody)
      → Keeps IsNumbered true (close_unstarted env setting stage dir mark result input event)
  unfolding close_unstarted
  Keeps-close_unstarted mark result input event = search recorded_rules depth 8

  Keeps-close_started :
      (mark : Core → Core) (result : StageResult) (event : EventBody)
      → Keeps IsNumbered true (close_started env setting stage dir mark result event)
  unfolding close_started
  Keeps-close_started mark result event = search recorded_rules depth 8

  Keeps-retain_files :
      (root : Option String) → Keeps IsNumbered true (retain_files env setting stage dir root)
  unfolding retain_files retain_under
  Keeps-retain_files none = search recorded_rules
  Keeps-retain_files (some root) = search recorded_rules

  Keeps-retain_started :
      (root : Option String) → Keeps IsNumbered true (retain_started env setting stage dir root)
  unfolding retain_started retain_under
  Keeps-retain_started none = search recorded_rules
  Keeps-retain_started (some root) = search recorded_rules

  Keeps-prepare_directory : Keeps IsNumbered true (prepare_directory env setting stage dir)
  unfolding prepare_directory
  Keeps-prepare_directory = search (recorded_rules, Keeps-retain_started)

  Keeps-files_if_ready :
      (ids : List String) → Keeps IsNumbered true (files_if_ready env setting stage dir ids)
  unfolding files_if_ready
  Keeps-files_if_ready [] = Keeps-retain_files _
  Keeps-files_if_ready (id ∷ ids) = search recorded_rules

  Keeps-continuation_files :
      (state : Option DependencyState)
      → Keeps IsNumbered true (continuation_files env setting stage dir state)
  unfolding continuation_files
  Keeps-continuation_files none = search recorded_rules
  Keeps-continuation_files (some state) = Keeps-files_if_ready state.incomplete_dependencies

  pub Keeps-skip_unselected :
      (state : Option DependencyState)
      → Keeps IsNumbered true (skip_unselected env setting stage dir state)
  unfolding skip_unselected
  Keeps-skip_unselected state =
      search (recorded_rules, Keeps-continuation_files, Keeps-close_unstarted) depth 8

  Keeps-cancel_unstarted :
      (state : DependencyState)
      → Keeps IsNumbered true (cancel_unstarted env setting stage dir state)
  unfolding cancel_unstarted
  Keeps-cancel_unstarted state = search (recorded_rules, Keeps-close_unstarted) depth 8

  Keeps-skip_incomplete :
      (state : DependencyState)
      → Keeps IsNumbered true (skip_incomplete env setting stage dir state)
  unfolding skip_incomplete
  Keeps-skip_incomplete state = search (recorded_rules, Keeps-close_unstarted) depth 8

  Keeps-cancel_started :
      (started completed_at : ℕ)
      → Keeps IsNumbered true (cancel_started env setting stage dir started completed_at)
  unfolding cancel_started
  Keeps-cancel_started started completed_at = Keeps-close_started _ _ _

  Keeps-collect_artifacts :
      (declared : Option (List Artifact))
      → Keeps IsNumbered true (collect_artifacts env setting stage dir declared)
  unfolding collect_artifacts
  Keeps-collect_artifacts declared = search recorded_rules depth 8

  Keeps-settle :
      (started : ℕ) (outcome : Outcome)
      → Keeps IsNumbered true (settle env setting stage dir started outcome)
  unfolding settle close_skipped close_completed
  Keeps-settle started (Outcome.skipped reason artifacts diagnostics metrics) =
      search (recorded_rules, Keeps-cancel_started, Keeps-collect_artifacts, Keeps-close_started)
        depth 10
  Keeps-settle started (Outcome.completed output true artifacts diagnostics metrics) =
      search (recorded_rules, Keeps-collect_artifacts, Keeps-close_started) depth 10
  Keeps-settle started (Outcome.completed output false artifacts diagnostics metrics) =
      search (recorded_rules, Keeps-cancel_started, Keeps-collect_artifacts, Keeps-close_started)
        depth 10

  Keeps-close_failure :
      (started completed_at : ℕ) (e : Thrown) (kept : Option Committed)
      → Keeps IsNumbered true (close_failure env setting stage dir started completed_at e kept)
  unfolding close_failure recover_committed fail_stage
  Keeps-close_failure started completed_at e (some kept) = search recorded_rules depth 8
  Keeps-close_failure started completed_at e none =
      search (recorded_rules, Keeps-cancel_started, Keeps-close_started) depth 8

  Keeps-attempt_stage :
      (started : ℕ) (state : DependencyState)
      → Keeps IsNumbered true (attempt_stage env setting stage dir started state)
  unfolding attempt_stage execute_stage handle_failure
  Keeps-attempt_stage started state =
      search (recorded_rules, Keeps-settle, Keeps-close_failure) depth 8

  Keeps-start_stage :
      (state : DependencyState) → Keeps IsNumbered true (start_stage env setting stage dir state)
  unfolding start_stage
  Keeps-start_stage state =
      search (recorded_rules, Keeps-prepare_directory, Keeps-attempt_stage) depth 12

  Keeps-start_if_ready :
      (state : DependencyState) (ids : List String)
      → Keeps IsNumbered true (start_if_ready env setting stage dir state ids)
  unfolding start_if_ready await_before_stage_start
  Keeps-start_if_ready state [] =
      search (recorded_rules, Keeps-cancel_unstarted, Keeps-start_stage) depth 8
  Keeps-start_if_ready state (id ∷ ids) = Keeps-skip_incomplete state

  pub Keeps-run_selected :
      (state : DependencyState) → Keeps IsNumbered true (run_selected env setting stage dir state)
  unfolding run_selected
  Keeps-run_selected state =
      search (recorded_rules, Keeps-cancel_unstarted, Keeps-start_if_ready) depth 8
