-- ===== src/Pipeline/Trace/Variables.antt =====
-- The recording parts of a stage keep every predicate of the local variables, and the record of a
-- failure after a commit never throws.
use datasheet_to_tscircuit.Prelude.{ℕ, String, true, false, Option}
use datasheet_to_tscircuit.Pipeline.Types.{EventBody, StageResult, TaskInputEnvelope}
use datasheet_to_tscircuit.Pipeline.Errors.{Thrown}
use datasheet_to_tscircuit.Pipeline.Effects.{Environment, Run}
use datasheet_to_tscircuit.Pipeline.Effects.Kept.{Keeps}
use datasheet_to_tscircuit.Pipeline.Effects.Variables.{
  IsLocal, Reliable, variable_rules, reliable_rules,
}
use datasheet_to_tscircuit.Pipeline.Trace.{
  Setting, notify_observer, emit, record_post_commit_trace_failure, write_initial_debug_bundle,
  write_terminal_debug_bundle,
}

module _ {Φ : Run → Type 0} (local : IsLocal Φ) (env : Environment) (setting : Setting) where
  Keeps-notify : (t : ℕ) → Keeps Φ true (notify_observer env setting t)
  unfolding notify_observer
  Keeps-notify t = search (variable_rules, local)

  pub Keeps-emit : (body : EventBody) → Keeps Φ true (emit env setting body)
  unfolding emit
  Keeps-emit body = search (variable_rules, local, Keeps-notify) depth 10

  pub Keeps-record_failure :
      (id operation : String) (e : Thrown)
      → Keeps Φ false (record_post_commit_trace_failure env setting id operation e)
  unfolding record_post_commit_trace_failure
  Keeps-record_failure id operation e = search (variable_rules, local) depth 8

  pub Keeps-terminal_bundle :
      (dir : String) (result : StageResult)
      → Keeps Φ true (write_terminal_debug_bundle env dir result)
  unfolding write_terminal_debug_bundle
  Keeps-terminal_bundle dir result = search (variable_rules, local) depth 8

module _ {Φ : Run → Type 0} (local : IsLocal Φ) (env : Environment) (reliable : Reliable env)
    (setting : Setting) where
  Keeps-notify_reliable : (t : ℕ) → Keeps Φ false (notify_observer env setting t)
  unfolding notify_observer
  Keeps-notify_reliable t = search (reliable_rules, local, reliable)

  pub Keeps-emit_reliable : (body : EventBody) → Keeps Φ false (emit env setting body)
  unfolding emit
  Keeps-emit_reliable body = search (reliable_rules, local, reliable, Keeps-notify) depth 10

  pub Keeps-initial_bundle_reliable :
      (dir : String) (input : TaskInputEnvelope) (started : Option ℕ)
      → Keeps Φ false (write_initial_debug_bundle env dir input started)
  unfolding write_initial_debug_bundle
  Keeps-initial_bundle_reliable dir input started = search (reliable_rules, local, reliable) depth 8

  pub Keeps-terminal_bundle_reliable :
      (dir : String) (result : StageResult)
      → Keeps Φ false (write_terminal_debug_bundle env dir result)
  unfolding write_terminal_debug_bundle
  Keeps-terminal_bundle_reliable dir result = search (reliable_rules, local, reliable) depth 8
