-- ===== src/Pipeline/Dependencies.antt =====
-- pipeline-runner.ts, `getDependencyState`: the inputs of a stage, from the results of the stages
-- before it, from an inherited input, or from the input of an isolated run. A key of an object is one
-- of its own; no stage of the program is called by a name that every object inherits.
pub mod Readiness
use datasheet_to_tscircuit.Prelude.{
  String, ◌<>◌, join_text, Bool, false, Option, none, some, List, [], ◌∷◌, ◌++◌, map, Dict, keys,
  lookup, has_key, put, if◌then◌else◌, member,
}
use datasheet_to_tscircuit.Pipeline.Types.{
  Json, StageStatus, StageState, StageResult, status_of, Stage,
}
use datasheet_to_tscircuit.Pipeline.Errors.{Thrown, pipeline_error, diagnostic_of}
use datasheet_to_tscircuit.Pipeline.Definition.{stage_reference}
use datasheet_to_tscircuit.Pipeline.Result.{Result, return, throw}

pub record DependencyState : Type 0 where
  pub dependency_outputs : Dict Json
  pub dependency_statuses : Dict String
  pub incomplete_dependencies : List String

abbrev pub status_text : StageStatus → String
status_text StageStatus.pending = "pending"
status_text StageStatus.running = "running"
status_text StageStatus.completed = "completed"
status_text StageStatus.skipped = "skipped"
status_text StageStatus.failed = "failed"
status_text StageStatus.cancelled = "cancelled"

-- `list.filter((id) => !test(id))`
unfoldable pub reject : (String → Bool) → List String → List String
reject test [] = []
reject test (x ∷ xs) = let rest = reject test xs in if test x then rest else x ∷ rest

-- A part of the message, if the list has entries.
named_part : String → List String → List String
named_part label [] = []
named_part label (x ∷ xs) = (label <> join_text ", " (x ∷ xs) <> ".") ∷ []

isolated_input_error : Stage → (missing unexpected : List String) → Thrown
unfolding named_part
isolated_input_error stage missing unexpected = pipeline_error (
    diagnostic_of
      (record {
        code = "invalid_isolated_stage_input";
        stage_id = some stage.id;
        operation = "resolve_isolated_stage_input";
        entity_refs = map stage_reference (missing ++ unexpected);
        artifact_refs = [];
        hint = some "Use the dependency_outputs from this stage's persisted input.json bundle.";
        retryable = false;
      })
      (join_text " " (
        ("The isolated input for " <> stage.id <> " does not match its declared dependencies.")
        ∷ (named_part "Missing: " missing ++ named_part "Unexpected: " unexpected)))
      [])

missing_result_error : Stage → String → Thrown
missing_result_error stage dependency_id = pipeline_error (
    diagnostic_of
      (record {
        code = "missing_dependency_result";
        stage_id = some stage.id;
        operation = "resolve_stage_dependencies";
        entity_refs = [];
        artifact_refs = [];
        hint = none;
        retryable = false;
      })
      ("No result exists for dependency " <> dependency_id <> " of stage " <> stage.id) [])

-- The branch with `provided_outputs`.
unfoldable pub provided_state : Stage → Dict Json → Result DependencyState
unfolding reject member has_key isolated_input_error
provided_state stage provided =
    let missing = reject (λ id. has_key id provided) stage.depends_on in
    let unexpected = reject (λ id. member id stage.depends_on) (keys provided) in
    elim (missing ++ unexpected) [
      | [] ↦ return (record {
        dependency_outputs = provided;
        dependency_statuses = map (λ id. (id, "provided")) stage.depends_on;
        incomplete_dependencies = [];
      })
      | _ ∷ _ ↦ throw (isolated_input_error stage missing unexpected)
    ]

-- `inherited_outputs && dependency_id in inherited_outputs`, with the value.
abbrev pub inherited : Option (Dict Json) → String → Option Json
inherited none id = none
inherited (some outputs) id = lookup id outputs

-- The output of a completed dependency.
abbrev pub output_of : StageState → Option Json
output_of (StageState.completed output _ _ _) = some output
output_of _ = none

-- One dependency that has a result, by its output or the inherited one: the assignments of the body.
resolve_one :
    String
    → StageStatus
    → (output inherited_output : Option Json) → DependencyState
    → DependencyState
unfolding put
resolve_one id status (some output) inherited_output acc = record {
  dependency_outputs = put id output acc.dependency_outputs;
  dependency_statuses = put id (status_text status) acc.dependency_statuses;
  incomplete_dependencies = acc.incomplete_dependencies;
}
resolve_one id status none (some output) acc = record {
  dependency_outputs = put id output acc.dependency_outputs;
  dependency_statuses = put id "provided" acc.dependency_statuses;
  incomplete_dependencies = acc.incomplete_dependencies;
}
resolve_one id status none none acc = record {
  dependency_outputs = acc.dependency_outputs;
  dependency_statuses = put id (status_text status) acc.dependency_statuses;
  incomplete_dependencies = acc.incomplete_dependencies ++ id ∷ [];
}

unfoldable pub resolve_from :
    Stage
    → Dict StageResult
    → Option (Dict Json)
    → DependencyState
    → List String
    → Result DependencyState
unfolding resolve_one lookup missing_result_error
resolve_from stage results inherited_outputs acc [] = return acc
resolve_from stage results inherited_outputs acc (id ∷ ids) = elim (lookup id results) [
  | none ↦ throw (missing_result_error stage id)
  | some result ↦
      resolve_from stage results inherited_outputs
        (resolve_one id (status_of result.state) (output_of result.state)
          (inherited inherited_outputs id) acc)
        ids
]

abbrev pub no_dependencies : DependencyState
no_dependencies = record {
  dependency_outputs = [];
  dependency_statuses = [];
  incomplete_dependencies = [];
}

unfoldable pub get_dependency_state :
    Stage
    → Dict StageResult
    → (provided_outputs inherited_outputs : Option (Dict Json)) → Result DependencyState
unfolding provided_state resolve_from
get_dependency_state stage results (some provided) inherited_outputs = provided_state stage provided
get_dependency_state stage results none inherited_outputs =
    resolve_from stage results inherited_outputs no_dependencies stage.depends_on
