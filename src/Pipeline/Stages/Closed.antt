-- ===== src/Pipeline/Stages/Closed.antt =====
-- What one iteration leaves in the local variables of a run, as predicates on them.
use datasheet_to_tscircuit.Prelude.{
  String, ◌≡◌, refl, sym, ap, subst, ◌∙◌, ◌⊎◌, inl, inr, Bool, true, false, ◌||◌, Option, none,
  List, [], put,
}
use datasheet_to_tscircuit.Pipeline.Types.{
  StageState, StageResult, is_terminal, is_failed, is_cancelled,
}
use datasheet_to_tscircuit.Pipeline.Effects.{Environment, Committed, Core, Run}
use datasheet_to_tscircuit.Pipeline.Effects.Quiet.{Stable}
pub use datasheet_to_tscircuit.Pipeline.Effects.Outcomes.{On}

-- Whether a result is one of a stage whose `execute` was called and that was not cancelled or skipped.
abbrev pub is_executed : StageState → Bool
is_executed (StageState.completed _ _ _ _) = true
is_executed (StageState.failed _ _ _ _) = true
is_executed _ = false

-- The iteration for stage `id`, from the variables `c`, has given the stage a final result, marked the
-- run accordingly and changed nothing else; it ran only with no incomplete dependency.
pub record IsClosed (id dir : String) (incomplete : List String) (c : Core) (s : Run) : Type 0 where
  pub result : StageResult
  pub named : result.stage_id ≡ id
  pub placed : result.debug_dir ≡ dir
  pub terminal : is_terminal result.state ≡ true
  pub stored : s.core.stage_results ≡ put id result c.stage_results
  pub failed : s.core.has_failed_stage ≡ (c.has_failed_stage || is_failed result.state)
  pub cancelled : s.core.has_cancelled_stage ≡ (c.has_cancelled_stage || is_cancelled result.state)
  pub ready : is_executed result.state ≡ true → incomplete ≡ []

-- The stage has some result, and the run is marked as it was.
pub record IsOpen (id : String) (c : Core) (kept : Option Committed) (d : Core) : Type 0 where
  pub last : StageResult
  pub stored : d.stage_results ≡ put id last c.stage_results
  pub failed : d.has_failed_stage ≡ c.has_failed_stage
  pub cancelled : d.has_cancelled_stage ≡ c.has_cancelled_stage
  pub committed : d.committed ≡ kept

-- What the `catch` block finds: the run may be marked as cancelled.
pub record IsBroken (env : Environment) (id : String) (c : Core) (s : Run) : Type 0 where
  pub last : StageResult
  pub stored : s.core.stage_results ≡ put id last c.stage_results
  pub failed : s.core.has_failed_stage ≡ c.has_failed_stage
  pub cancelled :
      (s.core.has_cancelled_stage ≡ c.has_cancelled_stage)
      ⊎ ((env.aborted s.clock ≡ true)
          × (s.core.has_cancelled_stage ≡ true)
          × (s.core.committed ≡ none))

abbrev pub Is : Core → Core → Type 0
Is c d = d ≡ c

pub Stable-On : {env : Environment} (Φ : Core → Type 0) → Stable env (On Φ)
Stable-On Φ = record { at = λ p l. subst Φ (sym l.core) p }

-- Also with an aborted signal.
abbrev pub Stopped : Environment → (Core → Type 0) → Run → Type 0
Stopped env Φ s = Φ s.core × (env.aborted s.clock ≡ true)

pub Stable-Stopped : {env : Environment} (Φ : Core → Type 0) → Stable env (Stopped env Φ)
Stable-Stopped Φ = record { at = λ p l. (subst Φ (sym l.core) p.0, l.signal p.1) }

pub IsBroken-of_open :
    {env : Environment} {id : String} {c : Core} {kept : Option Committed} (s : Run)
    → IsOpen id c kept s.core
    → IsBroken env id c s
IsBroken-of_open s o = record {
  last = o.last;
  stored = o.stored;
  failed = o.failed;
  cancelled = inl o.cancelled;
}

pub Stable-IsBroken : {env : Environment} (id : String) (c : Core) → Stable env (IsBroken env id c)
Stable-IsBroken {env} id c = record {
  at = λ p l. record {
    last = p.last;
    stored = ap (λ d. d.stage_results) l.core ∙ p.stored;
    failed = ap (λ d. d.has_failed_stage) l.core ∙ p.failed;
    cancelled = elim p.cancelled [
      | inl same ↦ inl (ap (λ d. d.has_cancelled_stage) l.core ∙ same)
      | inr (stop, marked, none_kept) ↦ inr (
        l.signal stop,
        ap (λ d. d.has_cancelled_stage) l.core ∙ marked,
        ap (λ d. d.committed) l.core ∙ none_kept,
      )
    ];
  };
}

pub or_false : (b : Bool) → b ≡ (b || false)
or_false true = refl
or_false false = refl

pub or_true : (b : Bool) → true ≡ (b || true)
or_true true = refl
or_true false = refl
