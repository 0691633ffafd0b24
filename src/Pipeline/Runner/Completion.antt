-- ===== src/Pipeline/Runner/Completion.antt =====
-- What a run that returns has done to its stages.
use datasheet_to_tscircuit.Prelude.{
  ℕ, suc, ◌==◌, String, ◌≡◌, refl, sym, ap, subst, ◌∙◌, inl, inr, Bool, true, false, none, some,
  List, [], ◌∷◌, ◌++◌, Dict, lookup, has_key, member, All, Option-cases, if◌then◌else◌,
}
use datasheet_to_tscircuit.Pipeline.Types.{Json, StageState, StageResult, Stage, ExecutionTarget}
use datasheet_to_tscircuit.Pipeline.Result.{return}
use datasheet_to_tscircuit.Pipeline.Definition.WellFormed.{ArePrior, AreOrdered}
use datasheet_to_tscircuit.Pipeline.Dependencies.{DependencyState, get_dependency_state, output_of}
use datasheet_to_tscircuit.Pipeline.Dependencies.Readiness.{
  supply, supplied, get_dependency_state_gives,
}
use datasheet_to_tscircuit.Pipeline.Effects.{Environment, Core, Run, pure}
use datasheet_to_tscircuit.Pipeline.Effects.Quiet.{Persistent}
use datasheet_to_tscircuit.Pipeline.Effects.Outcomes.{
  Triple, Anything, Triple-bind, Triple-if, Triple-get_core_known, Triple-lift, Triple-result,
}
use datasheet_to_tscircuit.Pipeline.Trace.{Setting}
use datasheet_to_tscircuit.Pipeline.Stages.Closed.{IsClosed}
use datasheet_to_tscircuit.Pipeline.Stages.Closing.{skip_unselected-Closes}
use datasheet_to_tscircuit.Pipeline.Stages.Selected.{run_selected-Closes}
use datasheet_to_tscircuit.Pipeline.Runner.{
  target_of, target_outputs, prior_dir, continuation_state, selected_state, is_selected, run_stage,
  run_stages,
}
use datasheet_to_tscircuit.Pipeline.Runner.Progress.{
  IsProgress, IsProgress-step, IsCompleted, AreJustified, AreJustified-step, IsCompleted-before,
  append_nil, append_snoc, All-map, is_completed,
}

has_output :
    (state : StageState) (v : Json)
    → supply (output_of state) none ≡ some v
    → is_completed state ≡ true
has_output (StageState.completed _ _ _ _) v h = refl
has_output _ v h = cc

-- A dependency that stands before was completed among the results before.
All-IsCompleted_before :
    (prior : List String) (done more : Dict StageResult)
    → ((x : String) → member x prior ≡ has_key x done)
    → (deps seen : List String) → ArePrior prior seen deps
    → All (IsCompleted (done ++ more)) deps
    → All (IsCompleted done) deps
All-IsCompleted_before prior done more known [] seen _ _ = tt
All-IsCompleted_before prior done more known (d ∷ deps) seen (_, before, later) (here, rest) = (
  IsCompleted-before done more d (sym (known d) ∙ before) here,
  All-IsCompleted_before prior done more known deps (d ∷ seen) later rest,
)

pub provided_none :
    (b : Bool) (m : ExecutionTarget)
    → m ≡ ExecutionTarget.pipeline
    → (if b then target_outputs m else none) ≡ none
provided_none true m e = ap target_outputs e
provided_none false m e = refl

module _ (env : Environment) (persistent : Persistent env) (setting : Setting) (target : ℕ) where
  -- In a run of the whole pipeline a stage that is not incomplete has all dependencies completed.
  abbrev Explains : Stage → Core → List String → Type 0
  Explains stage c incomplete =
      target_of setting.options ≡ ExecutionTarget.pipeline
      → incomplete ≡ []
      → All (IsCompleted c.stage_results) stage.depends_on

  -- One round from the variables `c` has closed the stage.
  record IsRound (stage : Stage) (c : Core) (s : Run) : Type 0 where
    dir : String
    incomplete : List String
    closed : IsClosed stage.id dir incomplete c s
    explained : Explains stage c incomplete

  IsCompleted-of_supplied :
      (results : Dict StageResult) (id : String) (v : Json)
      → supplied results none id ≡ some v
      → IsCompleted results id
  IsCompleted-of_supplied results id v h = elim (Option-cases (lookup id results)) [
    | inl missing ↦ cc (rw (missing, supplied) at h)
    | inr (result, found) ↦ (result, found, has_output result.state v (rw (found, supplied) at h))
  ]

  selected-Explains :
      (index : ℕ) (stage : Stage) (c : Core) (state : DependencyState)
      → selected_state env setting target index stage c.stage_results ≡ return state
      → Explains stage c state.incomplete_dependencies
  unfolding selected_state
  selected-Explains index stage c state h whole complete =
      let h' : get_dependency_state stage c.stage_results none none ≡ return state =
        rw
          (
            provided_none (index == target) (target_of setting.options) whole,
            ap target_outputs whole,
          )
          at h in
      All-map stage.depends_on (λ id g. IsCompleted-of_supplied c.stage_results id g.0 g.1)
        (get_dependency_state_gives stage c.stage_results none state h' complete)

  -- `ready` with a dependency that is incomplete, for a stage that cannot have run.
  run_stage_closes :
      (index : ℕ) (stage : Stage) (c : Core)
      → Triple
          (λ s. s.core ≡ c)
          (run_stage env setting target index stage)
          (λ _. IsRound stage c)
          Anything
  unfolding run_stage
  run_stage_closes index stage c = Triple-get_core_known c _ (
      Triple-lift (prior_dir env setting target stage c.stage_results) _
        (λ dir _.
          Triple-if (is_selected (target_of setting.options) target index) _ _
            (λ _.
              Triple-lift (selected_state env setting target index stage c.stage_results) _
                (λ state e.
                  Triple-result (run_selected-Closes env persistent setting stage dir c state)
                    (λ _ s closed. record {
                      dir = dir;
                      incomplete = state.incomplete_dependencies;
                      closed = closed;
                      explained = selected-Explains index stage c state e;
                    }))
                (λ _ _. tt))
            (λ _.
              Triple-lift (continuation_state env setting target index stage c.stage_results) _
                (λ state _.
                  Triple-result
                    (skip_unselected-Closes env persistent setting stage dir c (stage.id ∷ [])
                      state)
                    (λ _ s closed. record {
                      dir = dir;
                      incomplete = stage.id ∷ [];
                      closed = closed;
                      explained = λ _ none_left. cc;
                    }))
                (λ _ _. tt)))
        (λ _ _. tt))

  -- The results so far, with their justification.
  pub record IsRunning (ran todo : List Stage) (prior : List String) (s : Run) : Type 0 where
    pub done : Dict StageResult
    pub rest : Dict StageResult
    pub progress : IsProgress ran todo prior done rest s.core
    pub justified : target_of setting.options ≡ ExecutionTarget.pipeline → AreJustified ran done

  step :
      (ran todo : List Stage) (prior : List String) (stage : Stage) (c : Core)
      (done rest : Dict StageResult) (s : Run)
      → IsProgress ran (stage ∷ todo) prior done rest c
      → (target_of setting.options ≡ ExecutionTarget.pipeline → AreJustified ran done)
      → member stage.id prior ≡ false
      → ArePrior prior [] stage.depends_on
      → IsRound stage c s
      → IsRunning (ran ++ stage ∷ []) todo (stage.id ∷ prior) s
  step ran todo prior stage c done [] s p j fresh deps round = cc p.rest_keys
  step ran todo prior stage c done ((k, old) ∷ rest) s p j fresh deps round =
      let same : k ≡ stage.id = cc p.rest_keys in
      let p' = subst (λ x. IsProgress ran (stage ∷ todo) prior done ((x, old) ∷ rest) c) same p in
      let result = round.closed.result in
      record {
        done = done ++ (stage.id, result) ∷ [];
        rest = rest;
        progress = IsProgress-step stage old s p' fresh round.closed;
        justified = λ whole. AreJustified-step stage result p' fresh (j whole) (λ executed.
            All-IsCompleted_before prior done ((stage.id, old) ∷ rest) p'.seen stage.depends_on []
              deps
              (subst (λ results. All (IsCompleted results) stage.depends_on) p'.results
                (round.explained whole (round.closed.ready executed))));
      }

  round-IsRunning :
      (index : ℕ) (ran todo : List Stage) (prior : List String) (stage : Stage)
      → member stage.id prior ≡ false
      → ArePrior prior [] stage.depends_on
      → Triple
          (IsRunning ran (stage ∷ todo) prior)
          (run_stage env setting target index stage)
          (λ _. IsRunning (ran ++ stage ∷ []) todo (stage.id ∷ prior))
          Anything
  round-IsRunning index ran todo prior stage fresh deps = record {
    at = λ s h.
        (Triple-result (run_stage_closes index stage s.core) (λ _ t round.
            step ran todo prior stage s.core h.done h.rest t h.progress h.justified fresh deps
              round)).at
          s refl;
  }

  pub run_stages_progress :
      (todo ran : List Stage) (prior : List String) (index : ℕ)
      → AreOrdered prior todo
      → Triple
          (IsRunning ran todo prior)
          (run_stages env setting target index todo)
          (λ _ s. (prior' : List String) × IsRunning (ran ++ todo) [] prior' s)
          Anything
  unfolding run_stages pure
  run_stages_progress [] ran prior index ordered = record {
    at = λ s h. (prior, subst (λ stages. IsRunning stages [] prior s) (sym (append_nil ran)) h);
  }
  run_stages_progress (stage ∷ todo) ran prior index (stable, fresh, deps, ordered) =
      Triple-bind {R = λ _. IsRunning (ran ++ stage ∷ []) todo (stage.id ∷ prior)} _ _
        (round-IsRunning index ran todo prior stage fresh deps)
        (λ _.
          subst
            (λ stages.
              Triple (IsRunning (ran ++ stage ∷ []) todo (stage.id ∷ prior))
                (run_stages env setting target (suc index) todo)
                (λ (_ : Unit {0}) s. (prior' : List String) × IsRunning stages [] prior' s)
                Anything)
            (append_snoc ran stage todo)
            (run_stages_progress todo (ran ++ stage ∷ []) (stage.id ∷ prior) (suc index) ordered))
