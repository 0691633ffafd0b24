-- ===== src/Pipeline/Stages/Running.antt =====
-- The iteration of a stage that runs, through its `try` and `catch` blocks.
use datasheet_to_tscircuit.Prelude.{
  ℕ, ◌-◌, String, ◌≡◌, refl, ap, ◌∙◌, ◌⊎◌, inl, inr, Bool, true, false, ◌||◌, Option, none, some,
  List, [], put, put-put, if◌then◌else◌,
}
use datasheet_to_tscircuit.Pipeline.Types.{
  Json, Artifact, Diagnostic, Metrics, StageState, StageResult, is_terminal, is_failed,
  is_cancelled, Outcome, Stage, EventBody,
}
use datasheet_to_tscircuit.Pipeline.Errors.{Thrown}
use datasheet_to_tscircuit.Pipeline.Effects.{
  Environment, Committed, Core, Run, M, read_aborted, ◌>>=◌, get_cancellation_reason,
}
use datasheet_to_tscircuit.Pipeline.Effects.Quiet.{
  Persistent, Quiet, Stable, Quiet-read_now, quiet_rules,
}
use datasheet_to_tscircuit.Pipeline.Effects.Outcomes.{
  Triple, Anything, Triple-quiet, Triple-then, Triple-if, Triple-modify, Triple-read_aborted,
  Triple-weaken, Triple-result, Triple-forget,
}
use datasheet_to_tscircuit.Pipeline.Trace.{Setting, emit, write_terminal_debug_bundle}
use datasheet_to_tscircuit.Pipeline.Trace.Quiet.{
  Quiet-emit, Quiet-record_post_commit_trace_failure, Quiet-write_terminal_debug_bundle,
}
use datasheet_to_tscircuit.Pipeline.Stages.{
  with_result, mark_cancelled, plain_result, close_started, cancel_started, collect_artifacts,
  close_skipped, close_completed, settle, recover_committed, fail_stage, close_failure,
}
use datasheet_to_tscircuit.Pipeline.Stages.Closed.{
  IsClosed, IsOpen, IsBroken, On, Stable-On, Stopped, Stable-Stopped, IsBroken-of_open, or_false,
  or_true,
}

-- The variables once the result of the stage is stored, with the marks `f` and `x`.
record IsStored (id : String) (c : Core) (result : StageResult) (f x : Bool) (d : Core)
    : Type 0 where
  stored : d.stage_results ≡ put id result c.stage_results
  failed : d.has_failed_stage ≡ f
  cancelled : d.has_cancelled_stage ≡ x

store :
    {id : String} {c : Core} {kept : Option Committed} (result : StageResult) (d : Core)
    → IsOpen id c kept d
    → IsStored id c result c.has_failed_stage c.has_cancelled_stage (with_result id result d)
store {id} {c} result d o = record {
  stored = ap (put id result) o.stored ∙ put-put id o.last result c.stage_results;
  failed = o.failed;
  cancelled = o.cancelled;
}

IsClosed-of_stored :
    {id dir : String} {c : Core} (result : StageResult) (f x : Bool) (s : Run)
    → result.stage_id ≡ id
    → result.debug_dir ≡ dir
    → is_terminal result.state ≡ true
    → f ≡ (c.has_failed_stage || is_failed result.state)
    → x ≡ (c.has_cancelled_stage || is_cancelled result.state)
    → IsStored id c result f x s.core
    → IsClosed id dir [] c s
IsClosed-of_stored result f x s named placed terminal ef ex h = record {
  result = result;
  named = named;
  placed = placed;
  terminal = terminal;
  stored = h.stored;
  failed = h.failed ∙ ef;
  cancelled = h.cancelled ∙ ex;
  ready = λ _. refl;
}

IsBroken-of_stored :
    {env : Environment} {id : String} {c : Core} (result : StageResult) (s : Run)
    → IsStored id c result c.has_failed_stage c.has_cancelled_stage s.core
    → IsBroken env id c s
IsBroken-of_stored result s h = record {
  last = result;
  stored = h.stored;
  failed = h.failed;
  cancelled = inl h.cancelled;
}

module _ (env : Environment) (persistent : Persistent env) (setting : Setting) (stage : Stage)
    (dir : String) (c : Core) where
  abbrev pub Done : Unit {0} → Run → Type 0
  Done _ s = IsClosed stage.id dir [] c s

  abbrev pub Broken : Run → Type 0
  Broken = IsBroken env stage.id c

  Quiet-closing :
      (result : StageResult) (event : EventBody)
      → Quiet env (write_terminal_debug_bundle env dir result >>= λ _. emit env setting event)
  Quiet-closing result event =
      search (quiet_rules, persistent, Quiet-write_terminal_debug_bundle, Quiet-emit)

  -- The three steps at the end of a stage that ran.
  close_with :
      (P R E : Run → Type 0) (mark : Core → Core) (result : StageResult) (event : EventBody)
      → ((s : Run) → P s → R (record s { core = mark (with_result stage.id result s.core) }))
      → Stable env R
      → ((s : Run) → R s → E s)
      → ((s : Run) → R s → IsClosed stage.id dir [] c s)
      → Triple P (close_started env setting stage dir mark result event) Done E
  unfolding close_started
  close_with P R E mark result event to stable broken closed = Triple-modify _ _ to (
      Triple-result (Triple-quiet {env = env} _ (Quiet-closing result event) stable broken)
        (λ _. closed))

  -- A result that marks nothing.
  close-Done :
      (kept : Option Committed) (result : StageResult) (event : EventBody)
      → result.stage_id ≡ stage.id
      → result.debug_dir ≡ dir
      → is_terminal result.state ≡ true
      → is_failed result.state ≡ false
      → is_cancelled result.state ≡ false
      → Triple
          (On (IsOpen stage.id c kept))
          (close_started env setting stage dir (λ d. d) result event)
          Done
          Broken
  close-Done kept result event named placed terminal no_fail no_stop =
      close_with _ (On (IsStored stage.id c result c.has_failed_stage c.has_cancelled_stage)) _ _
        result event (λ s o. store result s.core o) (Stable-On _)
        (λ s h. IsBroken-of_stored result s h)
        (λ s h.
          IsClosed-of_stored result _ _ s named placed terminal (rw no_fail (or_false _))
            (rw no_stop (or_false _)) h)

  -- The stage has some result and nothing is committed.
  record IsHeld (d : Core) : Type 0 where
    last : StageResult
    stored : d.stage_results ≡ put stage.id last c.stage_results
    failed : d.has_failed_stage ≡ c.has_failed_stage
    committed : d.committed ≡ none

  IsHeld-of_open : (d : Core) → IsOpen stage.id c none d → IsHeld d
  IsHeld-of_open d o = record {
    last = o.last;
    stored = o.stored;
    failed = o.failed;
    committed = o.committed;
  }

  abbrev stopped_result : ℕ → ℕ → StageResult
  stopped_result started completed_at = plain_result stage.id dir (
      StageState.cancelled (get_cancellation_reason env.abort_reason) completed_at (some started)
        (some (completed_at - started)))

  -- The variables once a cancellation is stored.
  abbrev IsStopped : StageResult → Core → Type 0
  IsStopped result d = IsStored stage.id c result c.has_failed_stage true d × (d.committed ≡ none)

  stop :
      (result : StageResult) (d : Core)
      → IsHeld d
      → IsStopped result (mark_cancelled (with_result stage.id result d))
  stop result d h = (
    record {
      stored = ap (put stage.id result) h.stored ∙ put-put stage.id h.last result c.stage_results;
      failed = h.failed;
      cancelled = refl;
    },
    h.committed,
  )

  cancel_started_closes :
      (started completed_at : ℕ)
      → Triple
          (Stopped env IsHeld)
          (cancel_started env setting stage dir started completed_at)
          Done
          Broken
  unfolding cancel_started
  cancel_started_closes started completed_at =
      let result = stopped_result started completed_at in
      close_with _ (Stopped env (IsStopped result)) _ _ result _
        (λ s p. (stop result s.core p.0, p.1)) (Stable-Stopped _)
        (λ s h. record {
          last = result;
          stored = h.0.0.stored;
          failed = h.0.0.failed;
          cancelled = inr (h.1, h.0.0.cancelled, h.0.1);
        })
        (λ s h. IsClosed-of_stored result _ _ s refl refl refl (or_false _) (or_true _) h.0.0)

  Quiet-collect_artifacts :
      (declared : Option (List Artifact))
      → Quiet env (collect_artifacts env setting stage dir declared)
  unfolding collect_artifacts
  Quiet-collect_artifacts declared = search (quiet_rules, persistent)

  close_skipped_closes :
      (started completed_at : ℕ) (reason : String) (declared : Option (List Artifact))
      (diagnostics : Option (List Diagnostic)) (metrics : Option Metrics)
      → Triple
          (On (IsOpen stage.id c none))
          (close_skipped env setting stage dir started completed_at reason declared diagnostics
            metrics)
          Done
          Broken
  unfolding close_skipped
  close_skipped_closes started completed_at reason declared diagnostics metrics =
      Triple-then {env = env} _ _ (Quiet-collect_artifacts declared) (Stable-On _)
        (λ s o. IsBroken-of_open s o) (λ artifacts. close-Done none _ _ refl refl refl refl refl)

  close_completed_closes :
      (kept : Option Committed) (started completed_at : ℕ) (output : Json) (committed : Bool)
      (declared : Option (List Artifact)) (diagnostics : Option (List Diagnostic))
      (metrics : Option Metrics)
      → Triple
          (On (IsOpen stage.id c kept))
          (close_completed env setting stage dir started completed_at output committed declared
            diagnostics metrics)
          Done
          Broken
  unfolding close_completed
  close_completed_closes kept started completed_at output true declared diagnostics metrics =
      Triple-then {env = env} _ _ (Quiet-collect_artifacts declared) (Stable-On _)
        (λ s o. IsBroken-of_open s o)
        (λ artifacts.
          Triple-modify _ _
            (λ s o. record {
              last = o.last;
              stored = o.stored;
              failed = o.failed;
              cancelled = o.cancelled;
              committed = refl;
            })
            (close-Done _ _ _ refl refl refl refl refl))
  close_completed_closes kept started completed_at output false declared diagnostics metrics =
      Triple-then {env = env} _ _ (Quiet-collect_artifacts declared) (Stable-On _)
        (λ s o. IsBroken-of_open s o)
        (λ artifacts. Triple-modify _ _ (λ s o. o) (close-Done kept _ _ refl refl refl refl refl))

  -- The test of the signal between `execute` and the rest.
  unless_aborted :
      (started completed_at : ℕ) (m : M (Unit {0}))
      → Triple (On (IsOpen stage.id c none)) m Done Broken
      → Triple
          (On (IsOpen stage.id c none))
          (read_aborted env >>= λ aborted.
            if aborted then cancel_started env setting stage dir started completed_at else m)
          Done
          Broken
  unless_aborted started completed_at m t = Triple-read_aborted env _ λ b.
      Triple-if b _ _
        (λ e.
          Triple-weaken (cancel_started_closes started completed_at)
            (λ s p. (IsHeld-of_open s.core p.0, p.1 ∙ e)))
        (λ e. Triple-weaken t (λ s p. p.0))

  pub settle_closes :
      (started : ℕ) (outcome : Outcome)
      → Triple
          (On (IsOpen stage.id c none))
          (settle env setting stage dir started outcome)
          Done
          Broken
  unfolding settle
  settle_closes started (Outcome.skipped reason artifacts diagnostics metrics) =
      Triple-then {env = env} _ _ (Quiet-read_now persistent) (Stable-On _)
        (λ s o. IsBroken-of_open s o)
        λ completed_at.
          unless_aborted started completed_at _
            (close_skipped_closes started completed_at reason artifacts diagnostics metrics)
  settle_closes started (Outcome.completed output false artifacts diagnostics metrics) =
      Triple-then {env = env} _ _ (Quiet-read_now persistent) (Stable-On _)
        (λ s o. IsBroken-of_open s o)
        λ completed_at. unless_aborted started completed_at _ (
          close_completed_closes none started completed_at output false artifacts diagnostics
            metrics)
  settle_closes started (Outcome.completed output true artifacts diagnostics metrics) =
      Triple-then {env = env} _ _ (Quiet-read_now persistent) (Stable-On _)
        (λ s o. IsBroken-of_open s o)
        λ completed_at.
          Triple-modify _ _
            (λ s o. record {
              last = o.last;
              stored = o.stored;
              failed = o.failed;
              cancelled = o.cancelled;
              committed = refl;
            })
            (close_completed_closes _ started completed_at output true artifacts diagnostics
              metrics)

  fail_stage_closes :
      (started completed_at : ℕ) (e : Thrown)
      → Triple
          (On (IsOpen stage.id c none))
          (fail_stage env setting stage dir started completed_at e)
          Done
          Anything
  unfolding fail_stage
  fail_stage_closes started completed_at e =
      close_with _ (On (IsStored stage.id c _ true c.has_cancelled_stage)) _ _ _ _
        (λ s o. record {
          stored = (store _ s.core o).stored;
          failed = refl;
          cancelled = o.cancelled;
        })
        (Stable-On _) (λ _ _. tt)
        (λ s h. IsClosed-of_stored _ _ _ s refl refl refl (or_true _) (or_false _) h)

  recover_committed_closes :
      (started completed_at : ℕ) (kept : Committed) (e : Thrown)
      → Triple
          (On (IsOpen stage.id c (some kept)))
          (recover_committed env setting stage dir started completed_at kept e)
          Done
          Anything
  unfolding recover_committed
  recover_committed_closes started completed_at kept e =
      Triple-modify _ _ {R = On (IsStored stage.id c _ c.has_failed_stage c.has_cancelled_stage)}
        (λ s o. store _ s.core o)
        (Triple-result
          (Triple-quiet {env = env} _
            (search (
              quiet_rules, persistent, Quiet-record_post_commit_trace_failure,
              Quiet-write_terminal_debug_bundle,
            ))
            (Stable-On _) (λ _ _. tt))
          (λ _ s h. IsClosed-of_stored _ _ _ s refl refl refl (or_false _) (or_false _) h))

  -- What is known once the signal was read in the `catch` block.
  IsOpen-of_Broken :
      (kept : Option Committed) (s : Run)
      → Broken s
      → s.core.committed ≡ kept
      → (env.aborted s.clock ≡ false) ⊎ ((k : Committed) × (kept ≡ some k))
      → IsOpen stage.id c kept s.core
  IsOpen-of_Broken kept s b e why = record {
    last = b.last;
    stored = b.stored;
    failed = b.failed;
    cancelled = elim b.cancelled [
      | inl same ↦ same
      | inr (stop, _, nothing_kept) ↦ elim why [ inl running ↦ cc | inr (k, some_kept) ↦ cc ]
    ];
    committed = e;
  }

  IsHeld-of_Broken : (s : Run) → Broken s → s.core.committed ≡ none → IsHeld s.core
  IsHeld-of_Broken s b e = record {
    last = b.last;
    stored = b.stored;
    failed = b.failed;
    committed = e;
  }

  pub close_failure_closes :
      (started completed_at : ℕ) (e : Thrown) (kept : Option Committed)
      → Triple
          (λ s. Broken s × (s.core.committed ≡ kept))
          (close_failure env setting stage dir started completed_at e kept)
          Done
          Anything
  unfolding close_failure
  close_failure_closes started completed_at e (some kept) =
      Triple-weaken (recover_committed_closes started completed_at kept e)
        (λ s p. IsOpen-of_Broken (some kept) s p.0 p.1 (inr (kept, refl)))
  close_failure_closes started completed_at e none = Triple-read_aborted env _ λ b.
      Triple-if b _ _
        (λ h. Triple-forget (
          Triple-weaken (cancel_started_closes started completed_at)
            (λ s p. (IsHeld-of_Broken s p.0.0 p.0.1, p.1 ∙ h))))
        (λ h.
          Triple-weaken (fail_stage_closes started completed_at e)
            (λ s p. IsOpen-of_Broken none s p.0.0 p.0.1 (inl (p.1 ∙ h))))
