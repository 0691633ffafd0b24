-- ===== src/Pipeline/Definition.antt =====
-- pipeline-runner.ts, `validatePipelineDefinition`: ids are stable, and each dependency of a stage is
-- an earlier stage, named once. The sets of the source are lists, to which it only adds.
pub mod WellFormed
pub mod StableId
use datasheet_to_tscircuit.Prelude.{
  ℕ, ◌==◌, String, ◌<>◌, codes, is_digit, is_lower, Bool, true, false, ◌&&◌, ◌||◌, not, Option,
  none, some, List, [], ◌∷◌, if◌then◌else◌, member,
}
use datasheet_to_tscircuit.Pipeline.Types.{EntityReference, Stage, PipelineDefinition}
use datasheet_to_tscircuit.Pipeline.Errors.{Thrown, pipeline_error, diagnostic_of}
use datasheet_to_tscircuit.Pipeline.Result.{Result, return, throw, ◌>>◌}

-- The rest of a stable id: letters and digits, and single underscores between them. `within` says
-- that a letter or digit stands before.
stable_rest : (within : Bool) → List ℕ → Bool
stable_rest within [] = within
stable_rest within (c ∷ cs) =
    let word = is_lower c || is_digit c in (word || (within && c == b'_')) && stable_rest word cs

-- /^[a-z][a-z0-9]*(?:_[a-z0-9]+)*$/
unfoldable pub is_stable_id : List ℕ → Bool
unfolding stable_rest
is_stable_id [] = false
is_stable_id (c ∷ cs) = is_lower c && stable_rest true cs

abbrev definition_error :
    String → String → Option String → List EntityReference → Option String → Thrown
definition_error code message stage_id refs hint = pipeline_error (
    diagnostic_of
      (record {
        code = code;
        stage_id = stage_id;
        operation = "validate_pipeline_definition";
        entity_refs = refs;
        artifact_refs = [];
        hint = hint;
        retryable = false;
      })
      message [])

abbrev pub stage_reference : String → EntityReference
stage_reference id = record { entity_type = "pipeline_stage"; entity_id = id }

-- The inner loop, over the dependencies of one stage.
validate_dependencies :
    (stage_id : String) (seen_stage_ids seen_dependencies deps : List String) → Result (Unit {0})
unfolding member
validate_dependencies id seen_ids seen [] = return tt
validate_dependencies id seen_ids seen (dep ∷ deps) =
    let rest = validate_dependencies id seen_ids (dep ∷ seen) deps in
    if member dep seen
    then throw (
        definition_error "duplicate_stage_dependency"
          ("Stage " <> id <> " declares dependency " <> dep <> " more than once") (some id)
          (stage_reference dep ∷ []) none)
    else if not (member dep seen_ids)
    then throw (
        definition_error "stage_dependency_not_prior"
          ("Stage " <> id <> " depends on " <> dep <> ", which is not an earlier stage") (some id)
          (stage_reference dep ∷ [])
          (some "Declare every dependency before the stage that consumes it."))
    else rest

-- The outer loop, over the stages.
validate_stages :
    (pipeline_id : String) (seen_stage_ids : List String) → List Stage → Result (Unit {0})
unfolding validate_dependencies is_stable_id
validate_stages pipeline_id seen_ids [] = return tt
validate_stages pipeline_id seen_ids (stage ∷ stages) =
    let rest = validate_stages pipeline_id (stage.id ∷ seen_ids) stages in
    if not (is_stable_id (codes stage.id))
    then throw (
        definition_error "invalid_stage_id" ("Stage id must be stable snake_case: " <> stage.id)
          (some stage.id) [] (some "Use lowercase letters, digits, and single underscores."))
    else if member stage.id seen_ids
    then throw (
        definition_error "duplicate_stage_id"
          ("Pipeline " <> pipeline_id <> " contains duplicate stage " <> stage.id) (some stage.id)
          [] none)
    else (validate_dependencies stage.id seen_ids [] stage.depends_on >> rest)

-- The test of the number of stages, and the loop.
validate_nonempty : (pipeline_id : String) → List Stage → Result (Unit {0})
unfolding validate_stages
validate_nonempty pipeline_id [] = throw (
    definition_error "pipeline_has_no_stages" ("Pipeline " <> pipeline_id <> " has no stages") none
      [] none)
validate_nonempty pipeline_id (stage ∷ stages) = validate_stages pipeline_id [] (stage ∷ stages)

unfoldable pub validate_pipeline_definition : PipelineDefinition → Result (Unit {0})
unfolding validate_nonempty
validate_pipeline_definition definition =
    if not (is_stable_id (codes definition.pipeline_id))
    then throw (
        definition_error "invalid_pipeline_id"
          ("Pipeline id must be stable snake_case: " <> definition.pipeline_id) none []
          (some "Use lowercase letters, digits, and single underscores."))
    else validate_nonempty definition.pipeline_id definition.stages
