-- ===== src/Pipeline/Runner/Total.antt =====
-- A run of a whole pipeline returns where the storage and the callbacks do not fail.
use datasheet_to_tscircuit.Prelude.{
  ℕ, suc, ◌==◌, String, ◌≡◌, refl, sym, ap, true, false, none, some, List, [], ◌∷◌, Dict, keys,
  has_key, lookup_of_has_key, member, All, arith, eq_iff, subst, Bool-cases, inl, inr, str_eq,
}
use datasheet_to_tscircuit.Pipeline.Types.{
  JsonFields, Stage, StageResult, ExecutionTarget, Snapshot,
}
use datasheet_to_tscircuit.Pipeline.Result.{Result, return, throw}
use datasheet_to_tscircuit.Pipeline.Definition.WellFormed.{
  ArePrior, AreOrdered, IsWellFormed, validate_pipeline_definition_iff,
}
use datasheet_to_tscircuit.Pipeline.Dependencies.{DependencyState}
use datasheet_to_tscircuit.Pipeline.Dependencies.Readiness.{get_dependency_state_returns}
use datasheet_to_tscircuit.Pipeline.Effects.{Environment, Core, Run}
use datasheet_to_tscircuit.Pipeline.Effects.Outcomes.{After}
use datasheet_to_tscircuit.Pipeline.Effects.Kept.{
  Keeps, Keeps-bind, Keeps-lift_known, Keeps-get_core, Keeps-get_run, Keeps-pure, Keeps-if_true,
  Keeps-try_safe,
}
use datasheet_to_tscircuit.Pipeline.Effects.Variables.{
  Reliable, Keeps-perform-Reliable, Keeps-read_now, Keeps-set_run_status,
}
use datasheet_to_tscircuit.Pipeline.Trace.{Options, Setting}
use datasheet_to_tscircuit.Pipeline.Trace.Variables.{Keeps-emit_reliable}
use datasheet_to_tscircuit.Pipeline.Stages.Total.{HasResults, Results, local, Keeps-run_selected}
use datasheet_to_tscircuit.Pipeline.Runner.{
  target_of, target_outputs, target_index, prior_dir, selected_state, is_selected, run_stage,
  run_stages, finish_run, run_from_start, run_pipeline, initial_run, start_in_context,
  start_at_target, start_validated, serialize_execution_context,
}
use datasheet_to_tscircuit.Pipeline.Runner.Completion.{provided_none}
use datasheet_to_tscircuit.Pipeline.Runner.Final.{keys_initial}
use datasheet_to_tscircuit.Pipeline.Runner.Progress.{ids_of}

has_result :
    (ids : List String) (c : Core) (id : String)
    → HasResults ids c
    → member id ids ≡ true
    → has_key id c.stage_results ≡ true
unfolding member
has_result [] c id h m = cc
has_result (i ∷ ids) c id (h, hs) m =
    ground (
      arith,
      has_result ids c id hs,
      eq_iff i id,
      subst (λ x. has_key x c.stage_results ≡ true) _ h,
    )

-- What holds of the members of a list holds of all of it.
All-of_members :
    (P : String → Type 0) (ids : List String)
    → ((x : String) → member x ids ≡ true → P x)
    → All P ids
unfolding member
All-of_members P [] f = tt
All-of_members P (i ∷ ids) f =
    (f i (ground (arith, eq_iff i i)), All-of_members P ids (λ x m. f x (ground (arith, m))))

prior_results :
    (ids prior deps seen : List String) (c : Core)
    → HasResults ids c
    → ((x : String) → member x prior ≡ true → member x ids ≡ true)
    → ArePrior prior seen deps
    → All (λ id. has_key id c.stage_results ≡ true) deps
prior_results ids prior [] seen c h sub _ = tt
prior_results ids prior (d ∷ deps) seen c h sub (_, before, rest) =
    (has_result ids c d h (sub d before), prior_results ids prior deps (d ∷ seen) c h sub rest)

member_cons :
    (ids : List String) (x id : String) (prior : List String)
    → member id ids ≡ true
    → (member x prior ≡ true → member x ids ≡ true)
    → member x (id ∷ prior) ≡ true
    → member x ids ≡ true
unfolding member
member_cons ids x id prior here sub m = elim (Bool-cases (str_eq id x)) [
  | inl same ↦ subst (λ y. member y ids ≡ true) ((eq_iff id x).0 same) here
  | inr other ↦ sub (ground (arith, other, m))
]

pipeline_selects :
    (m : ExecutionTarget) (target index : ℕ)
    → m ≡ ExecutionTarget.pipeline
    → is_selected m target index ≡ true
unfolding is_selected
pipeline_selects m target index e = rw e refl

module _ (ids : List String) (env : Environment) (reliable : Reliable env) (setting : Setting)
    (whole : target_of setting.options ≡ ExecutionTarget.pipeline) where
  prior_dir_returns :
      (target : ℕ) (stage : Stage) (c : Core)
      → has_key stage.id c.stage_results ≡ true
      → (dir : String) × (prior_dir env setting target stage c.stage_results ≡ return dir)
  unfolding prior_dir
  prior_dir_returns target stage c h =
      let (result, found) = lookup_of_has_key stage.id c.stage_results h in
      (result.debug_dir, rw (found, prior_dir) refl)

  selected_state_returns :
      (target index : ℕ) (stage : Stage) (c : Core)
      → All (λ id. has_key id c.stage_results ≡ true) stage.depends_on
      → (state : DependencyState) × (selected_state env setting target index stage c.stage_results
          ≡ return state)
  unfolding selected_state
  selected_state_returns target index stage c h =
      let e = provided_none (index == target) (target_of setting.options) whole in
      rw (e, ap target_outputs whole, selected_state)
        (get_dependency_state_returns stage c.stage_results none h)

  Keeps-run_stage :
      (target index : ℕ) (stage : Stage) (prior : List String)
      → member stage.id ids ≡ true
      → ((x : String) → member x prior ≡ true → member x ids ≡ true)
      → ArePrior prior [] stage.depends_on
      → Keeps (Results ids) false (run_stage env setting target index stage)
  unfolding run_stage
  Keeps-run_stage target index stage prior here sub deps = Keeps-get_core _ λ s h.
      let (dir, found) =
        prior_dir_returns target stage s.core (has_result ids s.core stage.id h here) in
      let (state, given) =
        selected_state_returns target index stage s.core
          (prior_results ids prior stage.depends_on [] s.core h sub deps) in
      Keeps-bind _ _ (Keeps-lift_known _ dir found) (λ d.
        Keeps-if_true (is_selected (target_of setting.options) target index) _ _
          (pipeline_selects (target_of setting.options) target index whole)
          (Keeps-bind _ _ (Keeps-lift_known _ state given)
            (λ t. Keeps-run_selected ids env reliable setting stage d t)))

  Keeps-run_stages :
      (target index : ℕ) (stages : List Stage) (prior : List String)
      → AreOrdered prior stages
      → All (λ id. member id ids ≡ true) (ids_of stages)
      → ((x : String) → member x prior ≡ true → member x ids ≡ true)
      → Keeps (Results ids) false (run_stages env setting target index stages)
  unfolding run_stages
  Keeps-run_stages target index [] prior _ _ _ = Keeps-pure tt
  Keeps-run_stages target index (stage ∷ stages) prior (_, _, deps, ordered) (here, rest) sub =
      Keeps-bind _ _ (Keeps-run_stage target index stage prior here sub deps) (λ _.
        Keeps-run_stages target (suc index) stages (stage.id ∷ prior) ordered rest
          (λ x m. member_cons ids x stage.id prior here (sub x) m))

  Keeps-finish_run : Keeps (Results ids) false (finish_run env setting)
  unfolding finish_run
  Keeps-finish_run = Keeps-get_core _ λ s h.
      Keeps-bind _ _ (Keeps-set_run_status (local ids) _) (λ _.
        Keeps-bind _ _ (Keeps-read_now (local ids) env) (λ at.
          Keeps-bind _ _
            (Keeps-try_safe _ _ (Keeps-emit_reliable (local ids) env reliable setting _))
            (λ _. Keeps-get_run _ (λ t. Keeps-pure _))))

has_own_keys :
    (m : Dict StageResult) (id : String) → member id (keys m) ≡ true → has_key id m ≡ true
unfolding member has_key
has_own_keys [] id h = h
has_own_keys ((k, r) ∷ m) id h = ground (arith, has_own_keys m id, h)

initial-Results :
    (env : Environment) (options : Options) (dir : String)
    → AreOrdered [] options.definition.stages
    → Results (ids_of options.definition.stages) (initial_run env options dir)
initial-Results env options dir ordered =
    let results = (initial_run env options dir).core.stage_results in
    subst (λ ids. All (λ id. has_key id results ≡ true) ids) (keys_initial env options dir ordered)
      (All-of_members (λ id. has_key id results ≡ true) (keys results)
        (λ id m. has_own_keys results id m))

module _ (env : Environment) (reliable : Reliable env) (options : Options)
    (whole : target_of options ≡ ExecutionTarget.pipeline) where
  abbrev ids : List String
  ids = ids_of options.definition.stages

  Keeps-run_from_start :
      (context : JsonFields) (dir : String) (target : ℕ)
      → AreOrdered [] options.definition.stages
      → Keeps (Results ids) false (run_from_start env options context dir target)
  unfolding run_from_start member
  Keeps-run_from_start context dir target ordered =
      Keeps-bind _ _ (Keeps-perform-Reliable (local ids) env _ reliable) (λ _.
        Keeps-bind _ _ (Keeps-read_now (local ids) env) (λ at.
          Keeps-bind _ _ (Keeps-emit_reliable (local ids) env reliable _ _) (λ _.
            Keeps-bind _ _
              (Keeps-run_stages ids env reliable _ whole target 0 options.definition.stages []
                ordered (All-of_members (λ id. member id ids ≡ true) ids (λ x m. m)) (λ x m. cc m))
              (λ _. Keeps-finish_run ids env reliable _ whole))))

  returned :
      (r : Result Snapshot) (s : Run)
      → After (λ _. Results ids) (λ _. ⊥) r s
      → (snap : Snapshot) × (r ≡ return snap)
  returned (return snap) s h = (snap, refl)
  returned (throw e) s h = absurd h

  abbrev Returns : Result Snapshot × Run → Type 0
  Returns run = (snap : Snapshot) × (run.0 ≡ return snap)

  whole_target : target_index options ≡ return 0
  unfolding target_index
  whole_target = rw (whole, target_index) refl

  context_serializes :
      (context : JsonFields)
      → options.serialized_context ≡ return (some context)
      → serialize_execution_context options ≡ return context
  unfolding serialize_execution_context
  context_serializes context e = rw (e, serialize_execution_context) refl

  -- If every awaited action is fulfilled, a run of a whole pipeline whose definition is well-formed and
  -- whose context serializes to an object returns a snapshot, whatever its stages return or throw and
  -- whenever it is cancelled.
  pub run_pipeline_returns :
      (context : JsonFields)
      → IsWellFormed options.definition
      → options.serialized_context ≡ return (some context)
      → (snap : Snapshot) × ((run_pipeline env options).0 ≡ return snap)
  unfolding run_pipeline
  run_pipeline_returns context formed serializes =
      let dir = env.join (options.workspace_dir ∷ ".pipeline" ∷ []) in
      let start : Run = initial_run env options dir in
      let run = run_from_start env options context dir 0 start in
      subst (λ r. Returns (start_validated env options dir r start))
        (sym ((validate_pipeline_definition_iff options.definition).1 formed))
        (subst (λ r. Returns (start_at_target env options dir r start)) (sym whole_target)
          (subst (λ r. Returns (start_in_context env options dir 0 r start))
            (sym (context_serializes context serializes))
            (returned run.0 run.1 (
              (Keeps-run_from_start context dir 0 formed.ordered).at start
                (initial-Results env options dir formed.ordered)))))
