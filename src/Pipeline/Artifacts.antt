-- ===== src/Pipeline/Artifacts.antt =====
-- pipeline-runner.ts, `validateArtifacts`: the metadata that a stage declares of its artifacts.
pub mod Accepted
use datasheet_to_tscircuit.Prelude.{
  ℕ, ◌==◌, String, ◌<>◌, str_eq, codes, is_blank, is_digit, between, contains_code, all, length,
  Bool, true, false, ◌&&◌, ◌||◌, not, Option, none, some, List, [], ◌∷◌, if◌then◌else◌, member,
}
use datasheet_to_tscircuit.Pipeline.Types.{Size, Artifact, ArtifactReference}
use datasheet_to_tscircuit.Pipeline.Errors.{Thrown, pipeline_error, diagnostic_of}
use datasheet_to_tscircuit.Pipeline.Result.{Result, return, throw}

-- /^[a-f0-9]{64}$/
unfoldable pub is_sha256 : List ℕ → Bool
is_sha256 cs = length cs == 64 && all (λ c. is_digit c || between b'a' b'f' c) cs

unfoldable pub is_size : Size → Bool
is_size (Size.whole n) = true
is_size _ = false

abbrev artifact_error : String → String → String → List ArtifactReference → Thrown
artifact_error code message stage_id refs = pipeline_error (
    diagnostic_of
      (record {
        code = code;
        stage_id = some stage_id;
        operation = "validate_stage_artifacts";
        entity_refs = [];
        artifact_refs = refs;
        hint = none;
        retryable = false;
      })
      message [])

abbrev reference_to : Artifact → List ArtifactReference
reference_to a = record { artifact_id = some a.artifact_id; path = some a.path } ∷ []

-- One round of the loop: what it throws.
unfoldable pub artifact_fault : String → List String → Artifact → Option Thrown
unfolding member is_blank is_sha256 is_size contains_code
artifact_fault stage_id artifact_ids a =
    if is_blank (codes a.artifact_id)
    then some (
        artifact_error "invalid_stage_artifact"
          ("Stage " <> stage_id <> " returned an artifact without an artifact_id") stage_id [])
    else if member a.artifact_id artifact_ids
    then some (
        artifact_error "duplicate_stage_artifact_id"
          ("Stage " <> stage_id <> " returned duplicate artifact_id " <> a.artifact_id) stage_id
          (reference_to a))
    else if is_blank (codes a.path) || not (is_sha256 (codes a.hash.value))
    then some (
        artifact_error "invalid_stage_artifact"
          ("Stage " <> stage_id <> " returned invalid metadata for artifact " <> a.artifact_id)
          stage_id (reference_to a))
    else if not (str_eq a.hash.algorithm "sha256")
        || not (is_size a.size_bytes)
        || not (contains_code b'/' (codes a.media_type))
        || is_blank (codes a.role)
    then some (
        artifact_error "invalid_stage_artifact"
          ("Stage " <> stage_id <> " returned invalid metadata for artifact " <> a.artifact_id)
          stage_id (reference_to a))
    else none

unfoldable pub validate_from : String → List String → List Artifact → Option Thrown
unfolding artifact_fault
validate_from stage_id ids [] = none
validate_from stage_id ids (a ∷ artifacts) = elim (artifact_fault stage_id ids a) [
  | some e ↦ some e
  | none ↦ validate_from stage_id (a.artifact_id ∷ ids) artifacts
]

unfoldable pub validate_artifacts : List Artifact → String → Result (List Artifact)
unfolding validate_from
validate_artifacts artifacts stage_id = elim (validate_from stage_id [] artifacts) [
  | some e ↦ throw e
  | none ↦ return artifacts
]
