-- ===== src/Pipeline/Stages/Commit.antt =====
-- A stage that has committed its publication is completed, whatever fails afterwards.
use datasheet_to_tscircuit.Prelude.{
  ℕ, ◌-◌, String, ◌≡◌, refl, true, false, Option, some, none, List, lookup, put, lookup-put, eq_iff,
  arith,
}
use datasheet_to_tscircuit.Pipeline.Types.{
  Json, Artifact, Diagnostic, Metrics, StageState, StageResult, Outcome, Stage, EventBody,
}
use datasheet_to_tscircuit.Pipeline.Errors.{Thrown}
use datasheet_to_tscircuit.Pipeline.Result.{Result, return, throw}
use datasheet_to_tscircuit.Pipeline.Dependencies.{DependencyState}
use datasheet_to_tscircuit.Pipeline.Effects.{
  Environment, Committed, Core, Run, run_execute, ◌>>=◌, get_core,
}
use datasheet_to_tscircuit.Pipeline.Effects.Outcomes.{
  After, Anything, Triple, On, Triple-bind, Triple-modify, Triple-try_catch, Triple-result,
}
use datasheet_to_tscircuit.Pipeline.Effects.Kept.{Triple-keeps}
use datasheet_to_tscircuit.Pipeline.Effects.Variables.{IsLocal-On, variable_rules, Keeps-read_now}
use datasheet_to_tscircuit.Pipeline.Trace.{Setting}
use datasheet_to_tscircuit.Pipeline.Trace.Variables.{
  Keeps-emit, Keeps-record_failure, Keeps-terminal_bundle,
}
use datasheet_to_tscircuit.Pipeline.Stages.{
  execution_input, close_started, collect_artifacts, close_completed, settle, execute_stage,
  recover_committed, close_failure, handle_failure, attempt_stage,
}

abbrev Never : Run → Type 0
Never s = ⊥

module _ (env : Environment) (setting : Setting) (stage : Stage) (dir : String) (output : Json)
    (started : ℕ) where
  -- The output is retained.
  abbrev IsCrossed : Core → Type 0
  IsCrossed c = (k : Committed) × (c.committed ≡ some k) × (k.output ≡ output)

  -- The stage's result is completed, with the output.
  abbrev pub IsRecorded : Core → Type 0
  IsRecorded c =
      (result : StageResult) × (at : ℕ) × (lookup stage.id c.stage_results ≡ some result)
      × (result.state ≡ StageState.completed output started at (at - started))

  lookup_stored :
      (result : StageResult) (m : List (String × StageResult))
      → lookup stage.id (put stage.id result m) ≡ some result
  lookup_stored result m =
      ground (arith, lookup-put stage.id stage.id result m, eq_iff stage.id stage.id)

  recover_committed_records :
      (at : ℕ) (kept : Committed) (e : Thrown)
      → kept.output ≡ output
      → Triple Anything
          (recover_committed env setting stage dir started at kept e)
          (λ _. On IsRecorded)
          Never
  unfolding recover_committed
  recover_committed_records at kept e same =
      Triple-modify _ _ {R = On IsRecorded}
        (λ s _. (_, at, lookup_stored _ s.core.stage_results, rw same refl))
        (Triple-keeps {b = false} _
          (search
            (variable_rules, IsLocal-On IsRecorded, Keeps-record_failure, Keeps-terminal_bundle))
          (λ s h. h))

  close_failure_records :
      (at : ℕ) (e : Thrown) (kept : Option Committed)
      → (k : Committed) × (kept ≡ some k) × (k.output ≡ output)
      → Triple Anything
          (close_failure env setting stage dir started at e kept)
          (λ _. On IsRecorded)
          Never
  unfolding close_failure
  close_failure_records at e none (k, found, same) = cc
  close_failure_records at e (some kept) (k, found, same) =
      let it_is : kept ≡ k = cc in recover_committed_records at kept e (rw it_is same)

  handle_failure_records :
      (e : Thrown)
      → Triple
          (On IsCrossed)
          (handle_failure env setting stage dir started e)
          (λ _. On IsRecorded)
          Never
  unfolding handle_failure ◌>>=◌ get_core
  handle_failure_records e =
      Triple-bind {R = λ _. On IsCrossed} _ _
        (Triple-keeps {b = false} _ (Keeps-read_now (IsLocal-On IsCrossed) env) (λ s h. h))
        (λ at. record {
          at = λ s (k, found, same).
              (close_failure_records at e s.core.committed (k, found, same)).at s tt;
        })

  -- While the result is stored.
  abbrev IsBoth : Core → Type 0
  IsBoth c = IsCrossed c × IsRecorded c

  close_started_records :
      (at : ℕ) (result : StageResult) (event : EventBody)
      → result.state ≡ StageState.completed output started at (at - started)
      → Triple
          (On IsCrossed)
          (close_started env setting stage dir (λ c. c) result event)
          (λ _. On IsRecorded)
          (On IsCrossed)
  unfolding close_started
  close_started_records at result event state =
      Triple-modify _ _ {R = On IsBoth}
        (λ s h. (h, (result, at, lookup_stored result s.core.stage_results, state)))
        (Triple-result {Q' = λ _. On IsBoth}
          (Triple-keeps {b = true} _
            (search (variable_rules, IsLocal-On IsBoth, Keeps-emit, Keeps-terminal_bundle))
            (λ s h. h.0))
          (λ _ s h. h.1))

  close_completed_records :
      (at : ℕ) (declared : Option (List Artifact)) (diagnostics : Option (List Diagnostic))
      (metrics : Option Metrics)
      → Triple
          (On IsCrossed)
          (close_completed env setting stage dir started at output true declared diagnostics
            metrics)
          (λ _. On IsRecorded)
          (On IsCrossed)
  unfolding close_completed collect_artifacts
  close_completed_records at declared diagnostics metrics =
      Triple-bind {R = λ _. On IsCrossed} _ _
        (Triple-keeps {b = true} _ (search (variable_rules, IsLocal-On IsCrossed)) (λ s h. h))
        (λ artifacts.
          Triple-modify _ _ {R = On IsCrossed} (λ s h. (_, refl, refl))
            (close_started_records at _ _ refl))

  settle_records :
      (declared : Option (List Artifact)) (diagnostics : Option (List Diagnostic))
      (metrics : Option Metrics)
      → Triple Anything
          (settle env setting stage dir started
            (Outcome.completed output true declared diagnostics metrics))
          (λ _. On IsRecorded)
          (On IsCrossed)
  unfolding settle
  settle_records declared diagnostics metrics =
      Triple-bind {R = λ _. Anything} _ _
        (Triple-keeps {b = false} _ (Keeps-read_now (IsLocal-On (λ _. Unit)) env) (λ s h. absurd h))
        (λ at.
          Triple-modify _ _ {R = On IsCrossed} (λ s _. (_, refl, refl))
            (close_completed_records at declared diagnostics metrics))

  abbrev AnswersCommitted : DependencyState → Run → Type 0
  AnswersCommitted state s =
      (declared : Option (List Artifact)) × (diagnostics : Option (List Diagnostic))
      × (metrics : Option Metrics) × (env.execute s.clock
            (execution_input env setting stage dir state)
          ≡ return (Outcome.completed output true declared diagnostics metrics))

  execute_stage_records :
      (state : DependencyState)
      → Triple
          (AnswersCommitted state)
          (execute_stage env setting stage dir started state)
          (λ _. On IsRecorded)
          (On IsCrossed)
  unfolding execute_stage run_execute ◌>>=◌
  execute_stage_records state = record {
    at = λ s (declared, diagnostics, metrics, answer).
        rw answer ((settle_records declared diagnostics metrics).at _ tt);
  }

  attempt_stage_records :
      (state : DependencyState)
      → Triple
          (AnswersCommitted state)
          (attempt_stage env setting stage dir started state)
          (λ _. On IsRecorded)
          Never
  unfolding attempt_stage
  attempt_stage_records state =
      Triple-try_catch _ _ (execute_stage_records state) handle_failure_records

returned_of_After :
    (Q : Run → Type 0) (r : Result (Unit {0})) (s : Run)
    → After (λ _. Q) Never r s
    → (r ≡ return tt) × Q s
returned_of_After Q (return tt) s h = (refl, h)
returned_of_After Q (throw e) s h = absurd h

-- If a stage answers with a committed output, then whatever fails after that (the check or the copy of
-- its artifacts, its debug bundle, its event, the record of that failure) and whether or not the run is
-- cancelled meanwhile, the attempt of the stage does not throw, and the result of the stage is
-- completed, with this output.
pub attempt_stage_commits :
    (env : Environment) (setting : Setting) (stage : Stage) (dir : String) (output : Json)
    (started : ℕ) (state : DependencyState) (s : Run) (declared : Option (List Artifact))
    (diagnostics : Option (List Diagnostic)) (metrics : Option Metrics)
    → env.execute s.clock (execution_input env setting stage dir state)
      ≡ return (Outcome.completed output true declared diagnostics metrics)
    → ((attempt_stage env setting stage dir started state s).0 ≡ return tt)
      × ((result : StageResult) × (at : ℕ) × (lookup stage.id
              (attempt_stage env setting stage dir started state s).1.core.stage_results
            ≡ some result)
          × (result.state ≡ StageState.completed output started at (at - started)))
attempt_stage_commits env setting stage dir output started state s declared diagnostics metrics
      answer =
    returned_of_After (On (IsRecorded env setting stage dir output started)) _ _ (
      (attempt_stage_records env setting stage dir output started state).at s
        (declared, diagnostics, metrics, answer))
