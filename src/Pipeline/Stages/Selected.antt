-- ===== src/Pipeline/Stages/Selected.antt =====
-- The whole iteration of a selected stage.
use datasheet_to_tscircuit.Prelude.{ℕ, refl, ap, ◌||◌, String, Option, none, some, List, [], ◌∷◌}
use datasheet_to_tscircuit.Pipeline.Types.{Stage}
use datasheet_to_tscircuit.Pipeline.Errors.{Thrown}
use datasheet_to_tscircuit.Pipeline.Dependencies.{DependencyState}
use datasheet_to_tscircuit.Pipeline.Effects.{Environment, Core}
use datasheet_to_tscircuit.Pipeline.Effects.Quiet.{
  Persistent, Quiet, Quiet-read_now, Quiet-run_execute, quiet_rules,
}
use datasheet_to_tscircuit.Pipeline.Effects.Outcomes.{
  Triple, Anything, Triple-then, Triple-if, Triple-modify, Triple-get_core, Triple-read_aborted,
  Triple-try_catch, Triple-weaken,
}
use datasheet_to_tscircuit.Pipeline.Trace.{Setting}
use datasheet_to_tscircuit.Pipeline.Trace.Quiet.{Quiet-emit, Quiet-write_initial_debug_bundle}
use datasheet_to_tscircuit.Pipeline.Stages.{
  with_result, retain_under, retain_started, prepare_directory, execute_stage, handle_failure,
  attempt_stage, start_stage, await_before_stage_start, start_if_ready, run_selected,
}
use datasheet_to_tscircuit.Pipeline.Stages.Closed.{
  IsClosed, IsOpen, IsBroken, On, Is, Stable-On, Stable-IsBroken, IsBroken-of_open,
}
use datasheet_to_tscircuit.Pipeline.Stages.Closing.{
  Closes, cancel_unstarted-Closes, skip_incomplete-Closes,
}
use datasheet_to_tscircuit.Pipeline.Stages.Running.{settle_closes, close_failure_closes}

module _ (env : Environment) (persistent : Persistent env) (setting : Setting) (stage : Stage)
    (dir : String) where
  execute_stage_closes :
      (c : Core) (started : ℕ) (state : DependencyState)
      → Triple
          (On (IsOpen stage.id c none))
          (execute_stage env setting stage dir started state)
          (λ _. IsClosed stage.id dir [] c)
          (IsBroken env stage.id c)
  unfolding execute_stage
  execute_stage_closes c started state =
      Triple-then {env = env} _ _ (Quiet-run_execute persistent _) (Stable-On _)
        (λ s o. IsBroken-of_open s o) (settle_closes env persistent setting stage dir c started)

  handle_failure_closes :
      (c : Core) (started : ℕ) (e : Thrown)
      → Triple
          (IsBroken env stage.id c)
          (handle_failure env setting stage dir started e)
          (λ _. IsClosed stage.id dir [] c)
          Anything
  unfolding handle_failure
  handle_failure_closes c started e =
      Triple-then {env = env} _ _ (Quiet-read_now persistent) (Stable-IsBroken stage.id c)
        (λ _ _. tt)
        λ completed_at. Triple-get_core _ λ d.
          Triple-weaken
            (close_failure_closes env persistent setting stage dir c started completed_at e
              d.committed)
            (λ s p. (p.0, ap (λ x. x.committed) p.1))

  attempt_stage_closes :
      (c : Core) (started : ℕ) (state : DependencyState)
      → Triple
          (On (IsOpen stage.id c none))
          (attempt_stage env setting stage dir started state)
          (λ _. IsClosed stage.id dir [] c)
          Anything
  unfolding attempt_stage
  attempt_stage_closes c started state =
      Triple-try_catch _ _ (execute_stage_closes c started state) (handle_failure_closes c started)

  Quiet-retain_started :
      (root : Option String) → Quiet env (retain_started env setting stage dir root)
  unfolding retain_started retain_under
  Quiet-retain_started none = search quiet_rules
  Quiet-retain_started (some root) = search (quiet_rules, persistent)

  start_stage-Closes :
      (c : Core) (state : DependencyState)
      → Closes env persistent setting stage dir c [] (start_stage env setting stage dir state)
  unfolding start_stage prepare_directory
  start_stage-Closes c state =
      Triple-then {env = env} _ _ (Quiet-read_now persistent) (Stable-On _) (λ _ _. tt)
        λ started.
          Triple-then {env = env} _ _ (search (quiet_rules, persistent, Quiet-retain_started))
            (Stable-On _) (λ _ _. tt)
            λ files.
              Triple-modify _ _ (λ s e. ap (with_result stage.id _) e)
                (Triple-then {env = env} _ _ (Quiet-write_initial_debug_bundle persistent _ _ _)
                  (Stable-On (Is (with_result stage.id _ c))) (λ _ _. tt)
                  λ _.
                    Triple-then {env = env} _ _ (Quiet-emit persistent setting _) (Stable-On _)
                      (λ _ _. tt)
                      λ _.
                        Triple-modify _ _
                          (λ s e. record {
                            last = _;
                            stored = ap (λ x. x.stage_results) e;
                            failed = ap (λ x. x.has_failed_stage) e;
                            cancelled = ap (λ x. x.has_cancelled_stage) e;
                            committed = refl;
                          })
                          (attempt_stage_closes c started state))

  Quiet-await_before_stage_start : Quiet env (await_before_stage_start env setting stage dir)
  unfolding await_before_stage_start
  Quiet-await_before_stage_start = search (quiet_rules, persistent)

  start_if_ready-Closes :
      (c : Core) (state : DependencyState) (incomplete : List String)
      → Closes env persistent setting stage dir c incomplete
          (start_if_ready env setting stage dir state incomplete)
  unfolding start_if_ready
  start_if_ready-Closes c state (id ∷ ids) =
      skip_incomplete-Closes env persistent setting stage dir c (id ∷ ids) state
  start_if_ready-Closes c state [] =
      Triple-then {env = env} _ _ Quiet-await_before_stage_start (Stable-On _) (λ _ _. tt)
        λ _. Triple-read_aborted env _ λ b.
          Triple-if b _ _
            (λ _.
              Triple-weaken (cancel_unstarted-Closes env persistent setting stage dir c [] state)
                (λ s p. p.0))
            (λ _. Triple-weaken (start_stage-Closes c state) (λ s p. p.0))

  pub run_selected-Closes :
      (c : Core) (state : DependencyState)
      → Closes env persistent setting stage dir c state.incomplete_dependencies
          (run_selected env setting stage dir state)
  unfolding run_selected
  run_selected-Closes c state = Triple-read_aborted env _ λ b. Triple-get_core _ λ d.
      Triple-if (b || d.has_cancelled_stage) _ _
        (λ _.
          Triple-weaken (cancel_unstarted-Closes env persistent setting stage dir c _ state)
            (λ s p. p.0.0))
        (λ _.
          Triple-weaken (start_if_ready-Closes c state state.incomplete_dependencies)
            (λ s p. p.0.0))
