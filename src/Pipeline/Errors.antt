-- ===== src/Pipeline/Errors.antt =====
-- src/server/pipeline/pipeline-error.ts. What is thrown, and its conversion to a `PipelineError`.
-- A cause chain that runs in a circle and the text of a JavaScript stack are not represented.
use datasheet_to_tscircuit.Prelude.{
  String, Bool, true, false, ◌||◌, ◌&&◌, Option, none, some, List, [], ◌∷◌, ◌++◌, str_eq,
  if◌then◌else◌, member,
}
use datasheet_to_tscircuit.Pipeline.Types.{
  Cause, EntityReference, ArtifactReference, Severity, Diagnostic,
}

-- An `Error` object: `diagnostic` makes it a `PipelineError`, `code` is a text under that key, and
-- `supplemental` is its entry in the map of supplemental artifact references.
pub record ErrorObject : Type 0 where
  pub name : String
  pub message : String
  pub code : Option String
  pub diagnostic : Option Diagnostic
  pub supplemental : Option (List ArtifactReference)

-- A thrown value: an error with its cause, another value with its text, or `undefined` or `null`.
pub data Thrown : Type 0 where
  error : ErrorObject → Thrown → Thrown
  value : String → Thrown
  nothing : Thrown

-- `PipelineDiagnosticInput`, less the fields that have their defaults at every call.
pub record DiagnosticInput : Type 0 where
  pub code : String
  pub stage_id : Option String
  pub operation : String
  pub entity_refs : List EntityReference
  pub artifact_refs : List ArtifactReference
  pub hint : Option String
  pub retryable : Bool

abbrev is_empty : String → Bool
is_empty s = str_eq s ""

unfoldable pub get_pipeline_cause_chain : Thrown → List Cause
get_pipeline_cause_chain (Thrown.error e cause) =
    record { name = if is_empty e.name then "Error" else e.name; message = e.message }
    ∷ get_pipeline_cause_chain cause
get_pipeline_cause_chain (Thrown.value s) = record { name = "NonErrorCause"; message = s } ∷ []
get_pipeline_cause_chain Thrown.nothing = []

-- `new PipelineError(input)`, with no cause.
abbrev pub pipeline_error : Diagnostic → Thrown
pipeline_error d =
    Thrown.error
      (record {
        name = "PipelineError";
        message = d.message;
        code = none;
        diagnostic = some d;
        supplemental = none;
      })
      Thrown.nothing

abbrev pub diagnostic_of : DiagnosticInput → String → List Cause → Diagnostic
diagnostic_of input message chain = record {
  code = input.code;
  severity = Severity.error;
  message = message;
  stage_id = input.stage_id;
  operation = input.operation;
  entity_refs = input.entity_refs;
  artifact_refs = input.artifact_refs;
  cause_chain = chain;
  hint = input.hint;
  retryable = input.retryable;
}

same_option : Option String → Option String → Bool
same_option none none = true
same_option (some a) (some b) = str_eq a b
same_option _ _ = false

-- `seen.has(key)`: the key is the printed pair of the two optional texts.
seen_reference : ArtifactReference → List ArtifactReference → Bool
unfolding same_option
seen_reference r [] = false
seen_reference r (q ∷ qs) =
    (same_option q.artifact_id r.artifact_id && same_option q.path r.path) || seen_reference r qs

merge_from : List ArtifactReference → List ArtifactReference → List ArtifactReference
unfolding seen_reference
merge_from merged [] = merged
merge_from merged (r ∷ rs) =
    merge_from (if seen_reference r merged then merged else merged ++ r ∷ []) rs

unfoldable pub merge_artifact_references :
    List ArtifactReference → Option (List ArtifactReference) → List ArtifactReference
unfolding merge_from
merge_artifact_references first none = merge_from [] first
merge_artifact_references first (some second) = merge_from [] (first ++ second)

abbrev process_codes : List String
process_codes =
    "process_spawn_failed" ∷ "process_exit_failed" ∷ "process_output_handler_failed"
    ∷ "process_transport_failed" ∷ "process_idle_timeout" ∷ "process_wall_timeout"
    ∷ "process_cancelled" ∷ []

process_error_code : Option String → Option String
unfolding member
process_error_code none = none
process_error_code (some code) = if member code process_codes then some code else none

with_process_code : Option String → DiagnosticInput → DiagnosticInput
with_process_code none input = input
with_process_code (some code) input = record input {
  code = code;
  operation = "run_external_process";
  retryable = str_eq code "process_spawn_failed" || str_eq code "process_transport_failed";
}

-- The branch of an error that is already a `PipelineError`.
retain_diagnostic : Diagnostic → Option String → Diagnostic
retain_diagnostic d none = d
retain_diagnostic d (some stage_id) = elim d.stage_id [
  | some own ↦ d
  | none ↦ record d { stage_id = some stage_id }
]

wrap_error : Thrown → List ArtifactReference → DiagnosticInput → String → Diagnostic
wrap_error thrown refs input message =
    diagnostic_of (record input { artifact_refs = refs }) message (get_pipeline_cause_chain thrown)

-- The diagnostic of `toPipelineError(error, input)`.
unfoldable pub to_pipeline_error :
    Thrown → DiagnosticInput → (fallback_message : String) → Diagnostic
unfolding get_pipeline_cause_chain merge_artifact_references process_error_code with_process_code
    retain_diagnostic wrap_error
to_pipeline_error (Thrown.error e cause) input fallback = elim e.diagnostic [
  | some d ↦ retain_diagnostic d input.stage_id
  | none ↦
      wrap_error (Thrown.error e cause)
        (merge_artifact_references input.artifact_refs e.supplemental)
        (with_process_code (process_error_code e.code) input) e.message
]
to_pipeline_error thrown input fallback =
    wrap_error thrown (merge_artifact_references input.artifact_refs none) input fallback
