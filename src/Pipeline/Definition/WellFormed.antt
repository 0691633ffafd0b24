-- ===== src/Pipeline/Definition/WellFormed.antt =====
-- Which definitions are accepted.
use datasheet_to_tscircuit.Prelude.{
  String, codes, ◌≡◌, refl, ◌≢◌, ◌↔◌, inl, inr, true, false, List, [], ◌∷◌, Bool-cases, member,
  arith,
}
use datasheet_to_tscircuit.Pipeline.Types.{Stage, PipelineDefinition}
use datasheet_to_tscircuit.Pipeline.Result.{Result, return, throw, ◌>>◌}
use datasheet_to_tscircuit.Pipeline.Definition.{
  is_stable_id, validate_dependencies, validate_stages, validate_nonempty,
  validate_pipeline_definition,
}

-- The dependencies stand in `prior`, and none is in `seen` or named twice.
abbrev pub ArePrior : (prior seen deps : List String) → Type 0
ArePrior prior seen [] = Unit
ArePrior prior seen (d ∷ deps) =
    (member d seen ≡ false) × (member d prior ≡ true) × ArePrior prior (d ∷ seen) deps

-- Each stage has a stable id that no stage before it has, and depends on stages before it only.
abbrev pub AreOrdered : (prior : List String) → List Stage → Type 0
AreOrdered prior [] = Unit
AreOrdered prior (stage ∷ stages) =
    (is_stable_id (codes stage.id) ≡ true)
    × (member stage.id prior ≡ false)
    × ArePrior prior [] stage.depends_on
    × AreOrdered (stage.id ∷ prior) stages

pub record IsWellFormed (definition : PipelineDefinition) : Type 0 where
  pub stable : is_stable_id (codes definition.pipeline_id) ≡ true
  pub has_stages : definition.stages ≢ []
  pub ordered : AreOrdered [] definition.stages

validate_dependencies_iff :
    (id : String) (prior seen deps : List String)
    → (validate_dependencies id prior seen deps ≡ return tt) ↔ ArePrior prior seen deps
unfolding validate_dependencies
validate_dependencies_iff id prior seen [] = (λ _. tt, λ _. refl)
validate_dependencies_iff id prior seen (d ∷ deps) =
    ground (arith, validate_dependencies_iff id prior (d ∷ seen) deps)

then_iff : (m k : Result (Unit {0})) → ((m >> k) ≡ return tt) ↔ ((m ≡ return tt) × (k ≡ return tt))
then_iff (return tt) k = (λ h. (refl, h), λ h. h.1)
then_iff (throw e) k = (λ h. cc, λ h. cc)

validate_stages_iff :
    (pipeline_id : String) (prior : List String) (stages : List Stage)
    → (validate_stages pipeline_id prior stages ≡ return tt) ↔ AreOrdered prior stages
unfolding validate_stages
validate_stages_iff pipeline_id prior [] = (λ _. tt, λ _. refl)
validate_stages_iff pipeline_id prior (stage ∷ stages) = ground (
  arith,
  then_iff (validate_dependencies stage.id prior [] stage.depends_on)
      (validate_stages pipeline_id (stage.id ∷ prior) stages),
  validate_dependencies_iff stage.id prior [] stage.depends_on,
  validate_stages_iff pipeline_id (stage.id ∷ prior) stages,
)

validate_nonempty_iff :
    (pipeline_id : String) (stages : List Stage)
    → (validate_nonempty pipeline_id stages ≡ return tt) ↔ ((stages ≢ []) × AreOrdered [] stages)
unfolding validate_nonempty
validate_nonempty_iff pipeline_id [] = (λ h. cc, λ h. absurd (h.0 refl))
validate_nonempty_iff pipeline_id (stage ∷ stages) =
    let (to, from) = validate_stages_iff pipeline_id [] (stage ∷ stages) in
    (λ h. (λ e. cc, to h), λ h. from h.1)

-- A definition is accepted exactly if its id and the ids of its stages are stable, it has stages,
-- whose ids are different, and each dependency of a stage is the id of an earlier stage, named once.
pub validate_pipeline_definition_iff :
    (definition : PipelineDefinition)
    → (validate_pipeline_definition definition ≡ return tt) ↔ IsWellFormed definition
unfolding validate_pipeline_definition
validate_pipeline_definition_iff definition =
    elim (Bool-cases (is_stable_id (codes definition.pipeline_id))) [
      | inl stable ↦
          let (to, from) = validate_nonempty_iff definition.pipeline_id definition.stages in
          (
            λ h.
                let (has_stages, ordered) = to (rw (stable, validate_pipeline_definition) at h) in
                record { stable = stable; has_stages = has_stages; ordered = ordered },
            λ w. rw (stable, validate_pipeline_definition) (from (w.has_stages, w.ordered)),
          )
      | inr unstable ↦
          (λ h. cc (rw (unstable, validate_pipeline_definition) at h), λ w. cc w.stable)
    ]
