-- ===== src/Processes/Outcome.antt =====
-- process-runner.ts and process-error.ts: how a run answers, once the race of its tasks is over.
use datasheet_to_tscircuit.Prelude.{
  ℕ, zero, suc, Bool, true, String, ◌<>◌, decimal, Option, none, some, List, [], ◌∷◌, if◌then◌else◌,
}
use datasheet_to_tscircuit.Processes.Runner.{
  Target, Signal, sigkill, Termination, cancelled, idle_timeout, wall_timeout, Request, Run,
  ProcessEvent, signal_process, handle_all, begin_run,
}

pub data ProcessErrorCode : Type 0 where
  process_spawn_failed : ProcessErrorCode
  process_exit_failed : ProcessErrorCode
  process_output_handler_failed : ProcessErrorCode
  process_transport_failed : ProcessErrorCode
  process_idle_timeout : ProcessErrorCode
  process_wall_timeout : ProcessErrorCode
  process_cancelled : ProcessErrorCode

pub record ProcessError (E : Type 0) : Type 0 where
  pub code : ProcessErrorCode
  pub command_label : String
  pub message : String
  pub exit_code : Option ℕ
  pub output_tail : Option (List ℕ)
  pub cause : Option E

-- `Math.round` of the difference of two clock readings is given with the completion.
pub data Result (E : Type 0) : Type 0 where
  succeeded : (exit_code duration_ms : ℕ) → (output_tail : List ℕ) → Result E
  failed : ProcessError E → Result E

-- What ends the race: all tasks, a termination, or a task that fails, the handler of the output or a
-- reader.
pub data Completion (E : Type 0) : Type 0 where
  completed : (exit_code duration_ms : ℕ) → Completion E
  terminated : Completion E
  handler_failed : E → Completion E
  stream_failed : E → Completion E

-- `termination`, or the abortion where it comes first in a condition.
unfoldable pub reason_of : Run → Option Termination
reason_of s = if s.aborted then some cancelled else s.termination

-- `termination ?? (request.signal.aborted ? "cancelled" : undefined)`
unfoldable pub failure_termination : Run → Option Termination
failure_termination s = elim s.termination [
  | some reason ↦ some reason
  | none ↦ if s.aborted then some cancelled else none
]

-- The start of the `catch`.
interrupt : (is_windows : Bool) → (kill_throws : Target → Signal → Bool) → Request → Run → Run
unfolding signal_process
interrupt is_windows kill_throws request s =
    signal_process is_windows kill_throws request sigkill (record s { is_settled = true })

module _ {E : Type 0} (request : Request) where
  -- The error of a run that was terminated.
  unfoldable pub termination_error : Termination → Option ℕ → (output_tail : List ℕ) → Result E
  termination_error cancelled exit_code output_tail = failed (record {
    code = process_cancelled;
    command_label = request.command_label;
    message = request.command_label <> " was cancelled";
    exit_code = exit_code;
    output_tail = some output_tail;
    cause = none;
  })
  termination_error idle_timeout exit_code output_tail = failed (record {
    code = process_idle_timeout;
    command_label = request.command_label;
    message = request.command_label <> " produced no output or heartbeat before its idle timeout";
    exit_code = exit_code;
    output_tail = some output_tail;
    cause = none;
  })
  termination_error wall_timeout exit_code output_tail = failed (record {
    code = process_wall_timeout;
    command_label = request.command_label;
    message = request.command_label <> " exceeded its absolute time limit";
    exit_code = exit_code;
    output_tail = some output_tail;
    cause = none;
  })

  unfoldable pub exit_result : (exit_code duration_ms : ℕ) → (output_tail : List ℕ) → Result E
  exit_result zero duration_ms output_tail = succeeded zero duration_ms output_tail
  exit_result (suc code) duration_ms output_tail = failed (record {
    code = process_exit_failed;
    command_label = request.command_label;
    message = request.command_label <> " exited with code " <> decimal (suc code);
    exit_code = some (suc code);
    output_tail = some output_tail;
    cause = none;
  })

  unfoldable pub conclude_completed : (exit_code duration_ms : ℕ) → Run → Result E
  unfolding reason_of termination_error exit_result
  conclude_completed exit_code duration_ms s = elim (reason_of s) [
    | some reason ↦ termination_error reason (some exit_code) s.output_tail
    | none ↦ exit_result exit_code duration_ms s.output_tail
  ]

  -- What is no cancellation and no idle timeout is reported as a wall timeout.
  unfoldable pub conclude_terminated : Run → Result E
  unfolding reason_of termination_error
  conclude_terminated s = elim (reason_of s) [
    | some reason ↦ termination_error reason s.exit_code s.output_tail
    | none ↦ termination_error wall_timeout s.exit_code s.output_tail
  ]

  unfoldable pub conclude_failure :
      Option Termination → ProcessErrorCode → (message : String) → (cause : E) → Run → Result E
  unfolding termination_error
  conclude_failure (some reason) code message cause s =
      termination_error reason s.exit_code s.output_tail
  conclude_failure none code message cause s = failed (record {
    code = code;
    command_label = request.command_label;
    message = request.command_label <> message;
    exit_code = none;
    output_tail = some s.output_tail;
    cause = some cause;
  })

  module _ (is_windows : Bool) (kill_throws : Target → Signal → Bool) where
    -- `late` is what comes while `settleProcessTasks` waits.
    unfoldable pub conclude : Completion E → (late : List ProcessEvent) → Run → Result E
    unfolding conclude_completed conclude_terminated failure_termination conclude_failure interrupt
        handle_all
    conclude (completed exit_code duration_ms) late s = conclude_completed exit_code duration_ms s
    conclude terminated late s =
        conclude_terminated (handle_all is_windows kill_throws request late s)
    conclude (handler_failed cause) late s =
        conclude_failure (failure_termination s) process_output_handler_failed
          " could not persist or deliver process output" cause
          (handle_all is_windows kill_throws request late
            (interrupt is_windows kill_throws request s))
    conclude (stream_failed cause) late s =
        conclude_failure (failure_termination s) process_exit_failed
          " failed while streaming process output" cause
          (handle_all is_windows kill_throws request late
            (interrupt is_windows kill_throws request s))

    unfoldable pub early_error : ProcessErrorCode → (message : String) → Option E → Result E
    early_error code message cause = failed (record {
      code = code;
      command_label = request.command_label;
      message = request.command_label <> message;
      exit_code = none;
      output_tail = none;
      cause = cause;
    })

    unfoldable pub run_spawned :
        Option E
        → (aborted : Bool) → (now : ℕ) → (events : List ProcessEvent) → Completion E
        → (late : List ProcessEvent) → Result E
    unfolding early_error begin_run handle_all conclude
    run_spawned (some cause) aborted now events completion late =
        early_error process_spawn_failed " could not start" (some cause)
    run_spawned none aborted now events completion late = conclude completion late (
        handle_all is_windows kill_throws request events
          (begin_run is_windows kill_throws request aborted now))

    -- `aborted_before` and `aborted` are `request.signal.aborted` before and behind the spawn, which
    -- may throw; the events up to the end of the race, what ends it, and the events behind.
    unfoldable pub run :
        (aborted_before : Bool)
        → (spawn_error : Option E) → (aborted : Bool) → (now : ℕ) → (events : List ProcessEvent)
        → Completion E
        → (late : List ProcessEvent) → Result E
    unfolding early_error run_spawned
    run aborted_before spawn_error aborted now events completion late = elim request.command [
      | [] ↦ early_error process_spawn_failed " has no executable" none
      | _ ∷ _ ↦
          if aborted_before
          then early_error process_cancelled " was cancelled before it started" none
          else run_spawned spawn_error aborted now events completion late
    ]
