-- ===== src/Pipeline/Tests.antt =====
-- Runs of small pipelines, and the theorems at concrete inputs.
use datasheet_to_tscircuit.Prelude.{
  ℕ, codes, true, false, ◌≢◌, ◌↔◌, Dict, ◌≡◌, refl, none, some, [], ◌∷◌, ◌-◌, All,
}
use datasheet_to_tscircuit.Pipeline.Types.{
  Json, text, end, StageState, StageStatus, StageResult, Snapshot, ExecutionTarget,
}
use datasheet_to_tscircuit.Pipeline.Result.{return}
use datasheet_to_tscircuit.Pipeline.Definition.WellFormed.{
  IsWellFormed, validate_pipeline_definition_iff,
}
use datasheet_to_tscircuit.Pipeline.Definition.StableId.{IsSnakeCase, is_stable_id_iff}
use datasheet_to_tscircuit.Pipeline.Artifacts.Accepted.{AreAccepted, validate_artifacts_iff}
use datasheet_to_tscircuit.Pipeline.Dependencies.{DependencyState, no_dependencies}
use datasheet_to_tscircuit.Pipeline.Dependencies.Readiness.{supplied, get_dependency_state_gives}
use datasheet_to_tscircuit.Pipeline.Stages.{plain_result}
use datasheet_to_tscircuit.Pipeline.Stages.Commit.{attempt_stage_commits}
use datasheet_to_tscircuit.Pipeline.Trace.{Options}
use datasheet_to_tscircuit.Pipeline.Trace.Numbering.{event_numbers, countdown}
use datasheet_to_tscircuit.Pipeline.Runner.{initial_run}
use datasheet_to_tscircuit.Pipeline.Runner.Final.{IsSettled, run_pipeline_settles}
use datasheet_to_tscircuit.Pipeline.Runner.Numbering.{run_pipeline_numbers}
use datasheet_to_tscircuit.Pipeline.Runner.Total.{run_pipeline_returns}
use datasheet_to_tscircuit.Pipeline.Samples.{
  calm, broken, chain, options_for, first_stage, setting_for, model_file, statuses, stage,
}
use datasheet_to_tscircuit.Pipeline.Definition.{is_stable_id, validate_pipeline_definition}
use datasheet_to_tscircuit.Pipeline.Artifacts.{
  is_sha256, is_size, artifact_fault, validate_from, validate_artifacts,
}
use datasheet_to_tscircuit.Pipeline.Dependencies.{
  reject, provided_state, resolve_from, get_dependency_state,
}
use datasheet_to_tscircuit.Pipeline.Effects.{
  pure, raise, lift, continue_caught, try_catch, ◌>>=◌, modify_core, get_core, get_run,
  advance_sequence, set_run_status, answer, perform, read_now, read_aborted, run_execute,
  snapshot_pipeline_artifacts, get_cancellation_reason,
}
use datasheet_to_tscircuit.Pipeline.Trace.{
  make_debug_dir, snapshot, emit, record_post_commit_trace_failure, write_initial_debug_bundle,
  write_terminal_debug_bundle,
}
use datasheet_to_tscircuit.Pipeline.Stages.{
  prepare_directory, close_unstarted, close_started, skip_unselected, cancel_unstarted,
  skip_incomplete, cancel_started, collect_artifacts, close_skipped, close_completed, settle,
  execute_stage, recover_committed, fail_stage, close_failure, handle_failure, attempt_stage,
  start_stage, run_selected,
}
use datasheet_to_tscircuit.Pipeline.Runner.{
  find_index, target_index, is_selected, serialize_execution_context, pending_results, run_stage,
  run_stages, finish_run, run_from_start, run_pipeline,
}
use datasheet_to_tscircuit.Pipeline.Errors.{
  get_pipeline_cause_chain, merge_artifact_references, to_pipeline_error,
}
use datasheet_to_tscircuit.Prelude.{
  lookup, has_key, put, remove, is_space, is_blank, contains_code, decimal, repeat_text, pad_start,
  join_text, member, add, discard,
}
use datasheet_to_tscircuit.Pipeline.Effects.{Run}
use datasheet_to_tscircuit.Pipeline.Runner.{initial_run}

abbrev whole_run : Options
whole_run = options_for none chain

-- What the tests compute with.
program : Unit {0}
unfolding is_stable_id validate_pipeline_definition is_sha256 is_size artifact_fault validate_from
    validate_artifacts reject provided_state resolve_from get_dependency_state pure raise lift
    continue_caught try_catch ◌>>=◌ modify_core get_core get_run advance_sequence set_run_status
    answer perform read_now read_aborted run_execute snapshot_pipeline_artifacts
    get_cancellation_reason make_debug_dir snapshot emit record_post_commit_trace_failure
    write_initial_debug_bundle write_terminal_debug_bundle prepare_directory close_unstarted
    close_started skip_unselected cancel_unstarted skip_incomplete cancel_started collect_artifacts
    close_skipped close_completed settle execute_stage recover_committed fail_stage close_failure
    handle_failure attempt_stage start_stage run_selected find_index target_index is_selected
    serialize_execution_context pending_results run_stage run_stages finish_run run_from_start
    run_pipeline get_pipeline_cause_chain merge_artifact_references to_pipeline_error lookup has_key
    put remove is_space is_blank contains_code decimal repeat_text pad_start join_text member add
    discard
program = tt

accepted : validate_pipeline_definition whole_run.definition ≡ return tt
unfolding program
accepted = refl

chain-IsWellFormed : IsWellFormed whole_run.definition
chain-IsWellFormed = (validate_pipeline_definition_iff whole_run.definition).0 accepted

ran : (snap : Snapshot) × ((run_pipeline calm whole_run).0 ≡ return snap)
ran = run_pipeline_returns calm (λ n action. refl) whole_run refl end chain-IsWellFormed refl

ran_statuses :
    statuses (run_pipeline calm whole_run).0
    ≡ StageStatus.completed ∷ StageStatus.failed ∷ StageStatus.skipped ∷ StageStatus.completed ∷ []
unfolding program
ran_statuses = refl

-- From stage `b` on, with the output of `a` given: `a` is skipped, and `d` runs although `b` fails.
continued_statuses :
    statuses
      (run_pipeline calm
        (options_for (some (ExecutionTarget.from_stage "b" (("a", text "x") ∷ []))) chain)).0
    ≡ StageStatus.skipped ∷ StageStatus.failed ∷ StageStatus.skipped ∷ StageStatus.completed ∷ []
unfolding program
continued_statuses = refl

-- Without the output that `b` depends on, a run of `b` alone throws.
isolated_throws :
    statuses (run_pipeline calm (options_for (some (ExecutionTarget.stage "b" [])) chain)).0 ≡ []
unfolding program
isolated_throws = refl

run_pipeline_settles_example : IsSettled whole_run ran.0
run_pipeline_settles_example = run_pipeline_settles calm (λ n stop. stop) whole_run ran.0 ran.1

run_pipeline_returns_example : (snap : Snapshot) × ((run_pipeline calm whole_run).0 ≡ return snap)
run_pipeline_returns_example =
    run_pipeline_returns calm (λ n action. refl) whole_run refl end chain-IsWellFormed refl

run_pipeline_numbers_example :
    event_numbers (run_pipeline calm whole_run).1.trace
    ≡ countdown (run_pipeline calm whole_run).1.sequence
run_pipeline_numbers_example = run_pipeline_numbers calm whole_run

-- Nine events: two for each of the stages that ran, one for the skipped one and two for the run.
ran_sequence : (run_pipeline calm whole_run).1.sequence ≡ 9
unfolding program
ran_sequence = refl

abbrev start_of_chain : Run
start_of_chain = initial_run calm whole_run "w/.pipeline"

-- No file can be written, the run is aborted, and the stage has committed.
attempt_stage_commits_example :
    ((attempt_stage broken
        (setting_for whole_run)
        first_stage
        "w/a"
        5
        no_dependencies
        start_of_chain).0
      ≡ return tt)
    × ((result : StageResult) × (at : ℕ) × (lookup "a"
            (attempt_stage broken
              (setting_for whole_run)
              first_stage
              "w/a"
              5
              no_dependencies
              start_of_chain).1.core.stage_results
          ≡ some result)
        × (result.state ≡ StageState.completed (text "a") 5 at (at - 5)))
attempt_stage_commits_example =
    attempt_stage_commits broken (setting_for whole_run) first_stage "w/a" (text "a") 5
      no_dependencies start_of_chain none none none refl

validate_pipeline_definition_iff_example :
    (validate_pipeline_definition whole_run.definition ≡ return tt)
    ↔ IsWellFormed whole_run.definition
validate_pipeline_definition_iff_example = validate_pipeline_definition_iff whole_run.definition

-- A cycle is refused: each dependency must stand before.
cycle_throws :
    validate_pipeline_definition
      (record { pipeline_id = "p"; stages = stage "a" ("b" ∷ []) ∷ stage "b" ("a" ∷ []) ∷ [] })
    ≢ return tt
unfolding program
cycle_throws h = cc h

validate_artifacts_iff_example :
    (validate_artifacts (model_file ∷ []) "a" ≡ return (model_file ∷ []))
    ↔ AreAccepted [] (model_file ∷ [])
validate_artifacts_iff_example = validate_artifacts_iff (model_file ∷ []) "a"

model_accepted : validate_artifacts (model_file ∷ []) "a" ≡ return (model_file ∷ [])
unfolding program
model_accepted = refl

abbrev done_a : Dict StageResult
done_a = ("a", plain_result "a" "w/a" (StageState.completed (text "x") 1 2 1)) ∷ []

abbrev given_b : DependencyState
given_b = record {
  dependency_outputs = ("a", text "x") ∷ [];
  dependency_statuses = ("a", "completed") ∷ [];
  incomplete_dependencies = [];
}

given : get_dependency_state (stage "b" ("a" ∷ [])) done_a none none ≡ return given_b
unfolding program
given = refl

get_dependency_state_gives_example :
    All
      (λ id.
        (v : Json) × (supplied done_a none id ≡ some v)
        × (lookup id given_b.dependency_outputs ≡ some v))
      ("a" ∷ [])
get_dependency_state_gives_example =
    get_dependency_state_gives (stage "b" ("a" ∷ [])) done_a none given_b given refl

is_stable_id_iff_example :
    (is_stable_id (codes "spice_generation") ≡ true) ↔ IsSnakeCase (codes "spice_generation")
is_stable_id_iff_example = is_stable_id_iff (codes "spice_generation")

-- Two underscores in a row are refused.
double_underscore : is_stable_id (codes "spice__generation") ≡ false
unfolding program
double_underscore = refl
