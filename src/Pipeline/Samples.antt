-- ===== src/Pipeline/Samples.antt =====
-- Small pipelines and a world for the tests of the runner.
use datasheet_to_tscircuit.Prelude.{
  String, str_eq, join_text, true, false, Option, none, some, List, [], ◌∷◌, map, if◌then◌else◌,
  repeat_text,
}
use datasheet_to_tscircuit.Pipeline.Types.{
  text, end, Outcome, StageStatus, status_of, Stage, Snapshot, ExecutionTarget, Artifact, whole,
}
use datasheet_to_tscircuit.Pipeline.Errors.{Thrown}
use datasheet_to_tscircuit.Pipeline.Result.{Result, return, throw}
use datasheet_to_tscircuit.Pipeline.Effects.{Environment, ExecutionInput, other}
use datasheet_to_tscircuit.Pipeline.Trace.{Options, Setting}

abbrev pub oops : Thrown
oops = Thrown.value "oops"

-- Stage `b` fails, every other stage returns its own id.
abbrev pub answers : ExecutionInput → Result Outcome
answers input =
    if str_eq input.stage_id "b"
    then throw oops
    else return (Outcome.completed (text input.stage_id) true none none none)

-- A world in which every file is written and nothing is cancelled.
abbrev pub calm : Environment
calm = record {
  respond = λ n a. none;
  execute = λ n input. answers input;
  snapshot_artifacts = λ n artifacts dir id. return artifacts;
  now = λ n. n;
  aborted = λ n. false;
  abort_reason = other;
  join = join_text "/";
}

abbrev pub stage : String → List String → Stage
stage id deps = record { id = id; depends_on = deps }

abbrev pub chain : List Stage
chain = stage "a" [] ∷ stage "b" ("a" ∷ []) ∷ stage "c" ("b" ∷ []) ∷ stage "d" ("a" ∷ []) ∷ []

abbrev pub options_for : Option ExecutionTarget → List Stage → Options
options_for target stages = record {
  definition = record { pipeline_id = "spice_generation"; stages = stages };
  run_id = "run";
  workspace_dir = "w";
  serialized_context = return (some end);
  target = target;
  has_observer = true;
  snapshot_timeout_ms = none;
  has_before_stage_start = false;
  task_input_root = none;
  task_input_excluded_roots = none;
}

abbrev pub statuses : Result Snapshot → List StageStatus
statuses (return s) = map (λ e. status_of e.1.state) s.stage_results
statuses (throw e) = []

abbrev pub first_stage : Stage
first_stage = stage "a" []

abbrev pub setting_for : Options → Setting
setting_for options = record {
  options = options;
  context = end;
  pipeline_dir = "w/.pipeline";
  events_path = "w/.pipeline/events.ndjson";
  observer_errors_path = "w/.pipeline/observer-errors.ndjson";
  started_at = 0;
}

abbrev pub model_file : Artifact
model_file = record {
  artifact_id = "model";
  path = "w/model.lib";
  hash = record { algorithm = "sha256"; value = repeat_text 64 "a" };
  size_bytes = whole 12;
  media_type = "text/plain";
  role = "spice_model";
}

-- A world in which no file can be written, and in which the run is aborted.
abbrev pub broken : Environment
broken = record calm { respond = λ n action. some oops; aborted = λ n. true }
