-- ===== src/Pipeline/Stages/Closing.antt =====
-- The iterations that close a stage before it runs.
use datasheet_to_tscircuit.Prelude.{
  ℕ, String, ◌≡◌, refl, ap, ◌∙◌, Option, none, some, List, [], ◌∷◌,
}
use datasheet_to_tscircuit.Pipeline.Types.{
  StageState, StageResult, is_terminal, Stage, EventBody, TaskInputEnvelope,
}
use datasheet_to_tscircuit.Pipeline.Dependencies.{DependencyState}
use datasheet_to_tscircuit.Pipeline.Effects.{Environment, Core, Run, M}
use datasheet_to_tscircuit.Pipeline.Effects.Quiet.{Persistent, Quiet, quiet_rules}
use datasheet_to_tscircuit.Pipeline.Effects.Outcomes.{
  Triple, Anything, Triple-quiet, Triple-then, Triple-modify, Triple-result,
}
use datasheet_to_tscircuit.Pipeline.Trace.{Setting}
use datasheet_to_tscircuit.Pipeline.Trace.Quiet.{
  Quiet-emit, Quiet-write_initial_debug_bundle, Quiet-write_terminal_debug_bundle,
}
use datasheet_to_tscircuit.Pipeline.Stages.{
  with_result, retain_under, retain_files, close_unstarted, files_if_ready, continuation_files,
  skip_unselected, cancel_unstarted, skip_incomplete,
}
use datasheet_to_tscircuit.Pipeline.Stages.Closed.{
  is_executed, IsClosed, On, Is, Stable-On, or_false, or_true,
}

module _ (env : Environment) (persistent : Persistent env) (setting : Setting) (stage : Stage)
    (dir : String) where
  Triple-close_unstarted :
      (mark : Core → Core) (result : StageResult) (input : TaskInputEnvelope) (event : EventBody)
      (c : Core)
      → Triple
          (On (Is c))
          (close_unstarted env setting stage dir mark result input event)
          (λ _. On (Is (mark (with_result stage.id result c))))
          Anything
  unfolding close_unstarted
  Triple-close_unstarted mark result input event c =
      Triple-modify _ _ (λ s e. ap (λ d. mark (with_result stage.id result d)) e)
        (Triple-quiet {env = env} _
          (search (
            quiet_rules, persistent, Quiet-write_initial_debug_bundle,
            Quiet-write_terminal_debug_bundle, Quiet-emit,
          ))
          (Stable-On _) (λ _ _. tt))

  -- The start of every iteration that closes a stage before it runs.
  abbrev pub Closes : Core → List String → M (Unit {0}) → Type 0
  Closes c incomplete m = Triple (On (Is c)) m (λ _. IsClosed stage.id dir incomplete c) Anything

  skipped-IsClosed :
      (c : Core) (incomplete : List String) (result : StageResult) (reason : String) (t : ℕ)
      (u v : Option ℕ)
      → result.stage_id ≡ stage.id
      → result.debug_dir ≡ dir
      → result.state ≡ StageState.skipped reason t u v
      → (a : Unit {0}) (s : Run) → s.core ≡ with_result stage.id result c
      → IsClosed stage.id dir incomplete c s
  skipped-IsClosed c incomplete result reason t u v named placed state a s e = record {
    result = result;
    named = named;
    placed = placed;
    terminal = ap is_terminal state;
    stored = ap (λ d. d.stage_results) e;
    failed = ap (λ d. d.has_failed_stage) e ∙ rw state (or_false _);
    cancelled = ap (λ d. d.has_cancelled_stage) e ∙ rw state (or_false _);
    ready = λ h. cc (ap is_executed state);
  }

  pub cancel_unstarted-Closes :
      (c : Core) (incomplete : List String) (state : DependencyState)
      → Closes c incomplete (cancel_unstarted env setting stage dir state)
  unfolding cancel_unstarted
  cancel_unstarted-Closes c incomplete state =
      Triple-then {env = env} _ _ (search (quiet_rules, persistent)) (Stable-On _) (λ _ _. tt)
        λ completed_at. Triple-result (Triple-close_unstarted _ _ _ _ c) λ _ s e. record {
          result = _;
          named = refl;
          placed = refl;
          terminal = refl;
          stored = ap (λ d. d.stage_results) e;
          failed = ap (λ d. d.has_failed_stage) e ∙ or_false _;
          cancelled = ap (λ d. d.has_cancelled_stage) e ∙ or_true _;
          ready = λ h. cc;
        }

  pub skip_incomplete-Closes :
      (c : Core) (incomplete : List String) (state : DependencyState)
      → Closes c incomplete (skip_incomplete env setting stage dir state)
  unfolding skip_incomplete
  skip_incomplete-Closes c incomplete state =
      Triple-then {env = env} _ _ (search (quiet_rules, persistent)) (Stable-On _) (λ _ _. tt)
        λ completed_at.
          Triple-result (Triple-close_unstarted _ _ _ _ c)
            (skipped-IsClosed c incomplete _ _ _ _ _ refl refl refl)

  Quiet-retain_files : (root : Option String) → Quiet env (retain_files env setting stage dir root)
  unfolding retain_files retain_under
  Quiet-retain_files none = search quiet_rules
  Quiet-retain_files (some root) = search (quiet_rules, persistent)

  Quiet-files_if_ready :
      (incomplete : List String) → Quiet env (files_if_ready env setting stage dir incomplete)
  unfolding files_if_ready
  Quiet-files_if_ready [] = Quiet-retain_files _
  Quiet-files_if_ready (id ∷ ids) = search quiet_rules

  Quiet-continuation_files :
      (state : Option DependencyState) → Quiet env (continuation_files env setting stage dir state)
  unfolding continuation_files
  Quiet-continuation_files none = search quiet_rules
  Quiet-continuation_files (some state) = Quiet-files_if_ready state.incomplete_dependencies

  pub skip_unselected-Closes :
      (c : Core) (incomplete : List String) (state : Option DependencyState)
      → Closes c incomplete (skip_unselected env setting stage dir state)
  unfolding skip_unselected
  skip_unselected-Closes c incomplete state =
      Triple-then {env = env} _ _ (Quiet-continuation_files state) (Stable-On _) (λ _ _. tt)
        λ files.
          Triple-then {env = env} _ _ (search (quiet_rules, persistent)) (Stable-On _) (λ _ _. tt)
            λ completed_at.
              Triple-result (Triple-close_unstarted _ _ _ _ c)
                (skipped-IsClosed c incomplete _ _ _ _ _ refl refl refl)
