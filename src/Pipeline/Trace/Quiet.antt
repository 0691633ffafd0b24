-- ===== src/Pipeline/Trace/Quiet.antt =====
-- The recording parts of a stage leave the local variables alone.
use datasheet_to_tscircuit.Prelude.{ℕ, String, Option}
use datasheet_to_tscircuit.Pipeline.Types.{EventBody, StageResult, TaskInputEnvelope}
use datasheet_to_tscircuit.Pipeline.Errors.{Thrown}
use datasheet_to_tscircuit.Pipeline.Effects.{Environment}
use datasheet_to_tscircuit.Pipeline.Effects.Quiet.{Persistent, Quiet, quiet_rules}
use datasheet_to_tscircuit.Pipeline.Trace.{
  Setting, notify_observer, emit, record_post_commit_trace_failure, write_initial_debug_bundle,
  write_terminal_debug_bundle,
}

module _ {env : Environment} (persistent : Persistent env) (setting : Setting) where
  Quiet-notify_observer : (t : ℕ) → Quiet env (notify_observer env setting t)
  unfolding notify_observer
  Quiet-notify_observer t = search (quiet_rules, persistent) depth 8

  pub Quiet-emit : (body : EventBody) → Quiet env (emit env setting body)
  unfolding emit
  Quiet-emit body = search (quiet_rules, persistent, Quiet-notify_observer) depth 12

  pub Quiet-record_post_commit_trace_failure :
      (id operation : String) (e : Thrown)
      → Quiet env (record_post_commit_trace_failure env setting id operation e)
  unfolding record_post_commit_trace_failure
  Quiet-record_post_commit_trace_failure id operation e = search (quiet_rules, persistent) depth 8

module _ {env : Environment} (persistent : Persistent env) where
  pub Quiet-write_initial_debug_bundle :
      (dir : String) (input : TaskInputEnvelope) (started : Option ℕ)
      → Quiet env (write_initial_debug_bundle env dir input started)
  unfolding write_initial_debug_bundle
  Quiet-write_initial_debug_bundle dir input started = search (quiet_rules, persistent) depth 8

  pub Quiet-write_terminal_debug_bundle :
      (dir : String) (result : StageResult) → Quiet env (write_terminal_debug_bundle env dir result)
  unfolding write_terminal_debug_bundle
  Quiet-write_terminal_debug_bundle dir result = search (quiet_rules, persistent) depth 8
