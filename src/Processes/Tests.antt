-- ===== src/Processes/Tests.antt =====
-- Runs of the definitions, and the theorems at concrete inputs.
use datasheet_to_tscircuit.Prelude.{
  ℕ, Bool, true, false, Option, none, List, [], ◌∷◌, ◌≡◌, ◌≤◌, refl, All, length,
}
use datasheet_to_tscircuit.Logs.Bounded.{last}
use datasheet_to_tscircuit.Processes.Runner.{
  OutputChars, normalize_output_limit, append_tail, stdout, stderr, Target, group, Signal, sigterm,
  sigkill, Request, ProcessEvent, chunk, abort, force_kill_timer, exits, handle_all, begin_run,
}
use datasheet_to_tscircuit.Processes.Outcome.{Completion, Result, succeeded, completed, run}
use datasheet_to_tscircuit.Processes.Output.{output_of, run_keeps_tail}
use datasheet_to_tscircuit.Processes.Undisturbed.{IsHarmless}
use datasheet_to_tscircuit.Processes.Succeeded.{run_succeeds}

abbrev request : Request
request = record {
  command = "ngspice" ∷ [];
  command_label = "ngspice";
  idle_timeout_ms = none;
  wall_timeout_ms = none;
  has_heartbeat_paths = false;
  max_output_chars = OutputChars.undefined_chars;
  detached = none;
  has_on_output = true;
}

abbrev never : Target → Signal → Bool
never target signal = false

abbrev printed : List ProcessEvent
printed = chunk stdout (1 ∷ 2 ∷ []) 5 ∷ chunk stderr (3 ∷ []) 6 ∷ exits 0 ∷ []

program : Unit {0}
unfolding run handle_all begin_run normalize_output_limit append_tail
program = tt

cancelled_run :
    (handle_all false never request
      (abort ∷ chunk stdout (7 ∷ []) 9 ∷ force_kill_timer ∷ abort ∷ [])
      (begin_run false never request false 0)).kills
    ≡ (group, sigterm) ∷ (group, sigkill) ∷ []
unfolding program
cancelled_run = refl

printed_run :
    Path
      (Result (Unit {0}))
      (run request false never false none false 0 printed (completed 0 8) [])
      (succeeded 0 8 (1 ∷ 2 ∷ 3 ∷ []))
unfolding program
printed_run = refl

run_keeps_tail_example :
    let limit = normalize_output_limit OutputChars.undefined_chars in
    let tail =
      (handle_all false never request printed
        (begin_run false never request false 0)).output_tail in
    (tail ≡ last limit (output_of printed))
    × (length tail ≤ limit)
    × (1000 ≤ limit)
    × (limit ≤ 1000000)
run_keeps_tail_example = run_keeps_tail false never request false 0 printed

run_succeeds_example :
    (false ≡ false)
    × (false ≡ false)
    × (Path (Option (Unit {0})) none none)
    × (Path (Completion (Unit {0})) (completed 0 8) (completed 0 8))
    × (Path ℕ 0 0)
    × All (IsHarmless false never request) printed
    × (let s = handle_all false never request printed (begin_run false never request false 0) in
        (1 ∷ 2 ∷ 3 ∷ [] ≡ s.output_tail) × (s.kills ≡ []))
run_succeeds_example =
    run_succeeds (Unit {0}) request 0 8 (1 ∷ 2 ∷ 3 ∷ []) false never false none false 0 printed
      (completed 0 8) [] printed_run
