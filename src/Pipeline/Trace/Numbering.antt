-- ===== src/Pipeline/Trace/Numbering.antt =====
-- The numbers of the events of a run.
use datasheet_to_tscircuit.Prelude.{
  ℕ, zero, suc, String, ◌≡◌, refl, ap, ◌∙◌, Bool, true, false, Option, none, some, List, [], ◌∷◌,
}
use datasheet_to_tscircuit.Pipeline.Types.{
  Artifact, Event, EventBody, RunStatus, StageResult, TaskInputEnvelope,
}
use datasheet_to_tscircuit.Pipeline.Errors.{Thrown}
use datasheet_to_tscircuit.Pipeline.Effects.{
  Action, append_event, Step, performed, rejected, executed, Environment, ExecutionInput, Core, Run,
  M, ◌>>=◌, modify_core, set_run_status, advance_sequence, get_run, answer, perform, read_now,
  run_execute, snapshot_pipeline_artifacts,
}
use datasheet_to_tscircuit.Pipeline.Effects.Outcomes.{After}
use datasheet_to_tscircuit.Pipeline.Effects.Kept.{
  Allowed, Keeps, Keeps-bind, After-next, kept_rules, After-kept,
}
use datasheet_to_tscircuit.Pipeline.Trace.{
  Setting, event_of, notify_observer, emit, record_post_commit_trace_failure,
  write_initial_debug_bundle, write_terminal_debug_bundle,
}

-- The number of an event that is appended, whether or not the write succeeds.
abbrev number_of : Action → Option ℕ
number_of (append_event path event) = some event.sequence
number_of _ = none

abbrev pushed : Option ℕ → List ℕ → List ℕ
pushed none ns = ns
pushed (some n) ns = n ∷ ns

-- The numbers of the events, the last one first.
abbrev pub event_numbers : List Step → List ℕ
event_numbers [] = []
event_numbers (performed action ∷ steps) = pushed (number_of action) (event_numbers steps)
event_numbers (rejected action e ∷ steps) = pushed (number_of action) (event_numbers steps)
event_numbers (executed input ∷ steps) = event_numbers steps

-- n, …, 2, 1
abbrev pub countdown : ℕ → List ℕ
countdown zero = []
countdown (suc n) = suc n ∷ countdown n

abbrev pub IsNumbered : Run → Type 0
IsNumbered s = event_numbers s.trace ≡ countdown s.sequence

module _ (env : Environment) where
  After-answer :
      (action : Action) (o : Option Thrown) (s : Run)
      → number_of action ≡ none
      → IsNumbered s
      → After (λ _. IsNumbered) IsNumbered (answer env action o s).0 (answer env action o s).1
  unfolding answer
  After-answer action none s plain h = rw plain h
  After-answer action (some e) s plain h = rw plain h

  pub After-append :
      (path : String) (event : Event) (o : Option Thrown) (s : Run)
      → event.sequence ∷ event_numbers s.trace ≡ countdown s.sequence
      → After
          (λ _. IsNumbered)
          IsNumbered
          (answer env (append_event path event) o s).0
          (answer env (append_event path event) o s).1
  unfolding answer
  After-append path event none s h = h
  After-append path event (some e) s h = h

  pub Keeps-perform_plain :
      (action : Action) → number_of action ≡ none → Keeps IsNumbered true (perform env action)
  unfolding perform
  Keeps-perform_plain action plain = record {
    at = λ s h. After-answer action (env.respond s.clock action) s plain h;
  }

  pub Keeps-read_now-IsNumbered : Keeps IsNumbered true (read_now env)
  unfolding read_now
  Keeps-read_now-IsNumbered = record { at = λ s h. h }

  pub Keeps-modify_core-IsNumbered : (f : Core → Core) → Keeps IsNumbered true (modify_core f)
  unfolding modify_core
  Keeps-modify_core-IsNumbered f = record { at = λ s h. h }

  pub Keeps-set_run_status-IsNumbered :
      (status : RunStatus) → Keeps IsNumbered true (set_run_status status)
  unfolding set_run_status
  Keeps-set_run_status-IsNumbered status = record { at = λ s h. h }

  pub Keeps-run_execute-IsNumbered :
      (input : ExecutionInput) → Keeps IsNumbered true (run_execute env input)
  unfolding run_execute
  Keeps-run_execute-IsNumbered input = record {
    at = λ s h. After-kept IsNumbered (env.execute s.clock input) _ h;
  }

  pub Keeps-snapshot_artifacts-IsNumbered :
      (artifacts : List Artifact) (dir id : String)
      → Keeps IsNumbered true (snapshot_pipeline_artifacts env artifacts dir id)
  unfolding snapshot_pipeline_artifacts
  Keeps-snapshot_artifacts-IsNumbered artifacts dir id = record {
    at = λ s h. After-kept IsNumbered (env.snapshot_artifacts s.clock artifacts dir id) _ h;
  }

pub ruleset numbered_rules = (
  kept_rules, Keeps-perform_plain, Keeps-read_now-IsNumbered, Keeps-modify_core-IsNumbered,
  Keeps-set_run_status-IsNumbered, Keeps-run_execute-IsNumbered,
  Keeps-snapshot_artifacts-IsNumbered, refl,
)

module _ (env : Environment) (setting : Setting) where
  Keeps-notify_observer : (t : ℕ) → Keeps IsNumbered true (notify_observer env setting t)
  unfolding notify_observer
  Keeps-notify_observer t = search numbered_rules

  -- The number is taken and the event appended with it.
  append_next :
      (body : EventBody) (timestamp : ℕ) (k : Run → M (Unit {0}))
      → ((s : Run) → Keeps IsNumbered true (k s))
      → Keeps IsNumbered true (
          advance_sequence >>= λ _. get_run >>= λ s.
          perform env
            (append_event setting.events_path (event_of setting body s.sequence timestamp))
          >>= λ _. k s)
  unfolding advance_sequence get_run ◌>>=◌ perform
  append_next body timestamp k keeps = record {
    at = λ s h.
        let t : Run = record s { sequence = suc s.sequence } in
        let action =
          append_event setting.events_path (event_of setting body t.sequence timestamp) in
        let o = env.respond t.clock action in
        After-next {b = true} (answer env action o t).0 (λ _. k t) (answer env action o t).1
          (After-append env setting.events_path (event_of setting body t.sequence timestamp) o t
            (ap (λ ns. t.sequence ∷ ns) h))
          (λ _. keeps t);
  }

  pub Keeps-emit : (body : EventBody) → Keeps IsNumbered true (emit env setting body)
  unfolding emit
  Keeps-emit body = Keeps-bind _ _ (Keeps-read_now-IsNumbered env) (λ timestamp.
      append_next body timestamp _ (λ s. search (numbered_rules, Keeps-notify_observer)))

  pub Keeps-record_failure :
      (id operation : String) (e : Thrown)
      → Keeps IsNumbered true (record_post_commit_trace_failure env setting id operation e)
  unfolding record_post_commit_trace_failure
  Keeps-record_failure id operation e = search numbered_rules

module _ (env : Environment) where
  pub Keeps-initial_bundle :
      (dir : String) (input : TaskInputEnvelope) (started : Option ℕ)
      → Keeps IsNumbered true (write_initial_debug_bundle env dir input started)
  unfolding write_initial_debug_bundle
  Keeps-initial_bundle dir input started = search numbered_rules

  pub Keeps-terminal_bundle :
      (dir : String) (result : StageResult)
      → Keeps IsNumbered true (write_terminal_debug_bundle env dir result)
  unfolding write_terminal_debug_bundle
  Keeps-terminal_bundle dir result = search numbered_rules
