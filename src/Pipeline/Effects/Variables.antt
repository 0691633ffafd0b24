-- ===== src/Pipeline/Effects/Variables.antt =====
-- Actions that keep every predicate of the local variables, for any answers of the world.
use datasheet_to_tscircuit.Prelude.{
  ℕ, String, ◌≡◌, sym, subst, Bool, true, refl, Option, none, some, List,
}
use datasheet_to_tscircuit.Pipeline.Types.{Artifact, RunStatus}
use datasheet_to_tscircuit.Pipeline.Errors.{Thrown}
use datasheet_to_tscircuit.Pipeline.Effects.{
  Action, Environment, ExecutionInput, Core, Run, advance_sequence, set_run_status, modify_core,
  answer, perform, read_now, run_execute, snapshot_pipeline_artifacts,
}
use datasheet_to_tscircuit.Pipeline.Effects.Outcomes.{After, On}
use datasheet_to_tscircuit.Pipeline.Effects.Kept.{Allowed, Keeps, After-kept, kept_rules}

-- Every awaited action is fulfilled.
abbrev pub Reliable : Environment → Type 0
Reliable env = (n : ℕ) (action : Action) → env.respond n action ≡ none

-- A predicate that depends on the local variables only.
pub record IsLocal (Φ : Run → Type 0) : Type 0 where
  pub at : {s t : Run} → t.core ≡ s.core → Φ s → Φ t

pub IsLocal-On : (Ψ : Core → Type 0) → IsLocal (On Ψ)
IsLocal-On Ψ = record { at = λ e h. subst Ψ (sym e) h }

module _ {Φ : Run → Type 0} (local : IsLocal Φ) where
  pub Keeps-advance : {b : Bool} → Keeps Φ b advance_sequence
  unfolding advance_sequence
  Keeps-advance = record { at = λ s h. local.at refl h }

  pub Keeps-set_run_status : {b : Bool} (status : RunStatus) → Keeps Φ b (set_run_status status)
  unfolding set_run_status
  Keeps-set_run_status status = record { at = λ s h. local.at refl h }

  pub Keeps-modify_core :
      {b : Bool} (f : Core → Core)
      → ((s : Run) → Φ s → Φ (record s { core = f s.core }))
      → Keeps Φ b (modify_core f)
  unfolding modify_core
  Keeps-modify_core f keep = record { at = keep }

  pub Keeps-read_now : {b : Bool} (env : Environment) → Keeps Φ b (read_now env)
  unfolding read_now
  Keeps-read_now env = record { at = λ s h. local.at refl h }

  After-answered :
      (env : Environment) (action : Action) (o : Option Thrown) (s : Run)
      → Φ s
      → After (λ _. Φ) Φ (answer env action o s).0 (answer env action o s).1
  unfolding answer
  After-answered env action none s h = local.at refl h
  After-answered env action (some e) s h = local.at refl h

  pub Keeps-perform : (env : Environment) (action : Action) → Keeps Φ true (perform env action)
  unfolding perform
  Keeps-perform env action = record {
    at = λ s h. After-answered env action (env.respond s.clock action) s h;
  }

  pub Keeps-perform-Reliable :
      {b : Bool} (env : Environment) (action : Action)
      → Reliable env
      → Keeps Φ b (perform env action)
  unfolding perform answer
  Keeps-perform-Reliable {b} env action reliable = record {
    at = λ s h.
        subst
          (λ o. After (λ _. Φ) (Allowed Φ b) (answer env action o s).0 (answer env action o s).1)
          (sym (reliable s.clock action)) (local.at refl h);
  }

  pub Keeps-run_execute :
      (env : Environment) (input : ExecutionInput) → Keeps Φ true (run_execute env input)
  unfolding run_execute
  Keeps-run_execute env input = record {
    at = λ s h. After-kept Φ (env.execute s.clock input) _ (local.at refl h);
  }

  pub Keeps-snapshot_artifacts :
      (env : Environment) (artifacts : List Artifact) (dir id : String)
      → Keeps Φ true (snapshot_pipeline_artifacts env artifacts dir id)
  unfolding snapshot_pipeline_artifacts
  Keeps-snapshot_artifacts env artifacts dir id = record {
    at = λ s h. After-kept Φ (env.snapshot_artifacts s.clock artifacts dir id) _ (local.at refl h);
  }

pub ruleset variable_rules = (
  kept_rules, Keeps-advance, Keeps-set_run_status, Keeps-read_now, Keeps-perform, Keeps-run_execute,
  Keeps-snapshot_artifacts,
)

pub ruleset reliable_rules = (
  kept_rules, Keeps-advance, Keeps-set_run_status, Keeps-read_now, Keeps-perform-Reliable,
  Keeps-run_execute, Keeps-snapshot_artifacts,
)
