-- ===== src/Processes/Runner.antt =====
-- process-runner.ts: what the callbacks of one run write, and how the run answers.
-- The operating system and the timers are the events of the run, in the order in which they come. A
-- text of output is its list of UTF-16 units. `kill_throws` says which calls of `kill` throw.
use datasheet_to_tscircuit.Prelude.{
  ℕ, ◌-◌, min, max, Bool, true, false, ◌&&◌, not, String, Option, none, some, List, [], ◌∷◌, ◌++◌,
  if◌then◌else◌, ◌==◌, leb, str_eq, length, drop,
}

-- `max_output_chars`, where a finite value is given by its `Math.floor`, or is below 0.
pub data OutputChars : Type 0 where
  undefined_chars : OutputChars
  not_finite : OutputChars
  below_zero : OutputChars
  floored : ℕ → OutputChars

abbrev pub default_output_chars : ℕ
default_output_chars = 200000

abbrev pub max_output_chars : ℕ
max_output_chars = 1000000

unfoldable pub normalize_output_limit : OutputChars → ℕ
normalize_output_limit undefined_chars = default_output_chars
normalize_output_limit not_finite = default_output_chars
normalize_output_limit below_zero = 1000
normalize_output_limit (floored value) = max 1000 (min max_output_chars value)

-- `next.slice(-limit)` has a limit that is not 0.
unfoldable pub append_tail : (current chunk : List ℕ) → (limit : ℕ) → List ℕ
append_tail current chunk limit =
    let next = current ++ chunk in
    if leb (length next) limit then next else drop (length next - limit) next

pub data Stream : Type 0 where
  stdout : Stream
  stderr : Stream

pub data Termination : Type 0 where
  cancelled : Termination
  idle_timeout : Termination
  wall_timeout : Termination

pub data Signal : Type 0 where
  sigterm : Signal
  sigkill : Signal

-- The group of processes of the child, or the child alone.
pub data Target : Type 0 where
  group : Target
  child : Target

pub record Request : Type 0 where
  pub command : List String
  pub command_label : String
  pub idle_timeout_ms : Option ℕ
  pub wall_timeout_ms : Option ℕ
  pub has_heartbeat_paths : Bool
  pub max_output_chars : OutputChars
  pub detached : Option Bool
  pub has_on_output : Bool

-- The local variables of `run`, the abortion of `request.signal`, `child.exitCode`, the calls of
-- `kill`, and what `on_output` was called with.
pub record Run : Type 0 where
  pub output_tail : List ℕ
  pub last_activity_at : ℕ
  pub last_heartbeat : Option String
  pub termination : Option Termination
  pub is_settled : Bool
  pub idle_check_running : Bool
  pub force_kill_armed : Bool
  pub aborted : Bool
  pub exit_code : Option ℕ
  pub kills : List (Target × Signal)
  pub delivered : List (Stream × List ℕ)

-- What the event loop runs: a chunk of output at a time, the abortion, the two timers that terminate,
-- a tick of the idle timer, the signature of the heartbeat that its check waits for with the two times
-- that are read behind it, the timer that kills, and the exit of the child.
pub data ProcessEvent : Type 0 where
  chunk : Stream → (message : List ℕ) → (now : ℕ) → ProcessEvent
  abort : ProcessEvent
  wall_timer : ProcessEvent
  idle_tick : ProcessEvent
  heartbeat : (signature : String) → (now checked_at : ℕ) → ProcessEvent
  force_kill_timer : ProcessEvent
  exits : ℕ → ProcessEvent

abbrev pub initial_run : (aborted : Bool) → (now : ℕ) → Run
initial_run aborted now = record {
  output_tail = [];
  last_activity_at = now;
  last_heartbeat = none;
  termination = none;
  is_settled = false;
  idle_check_running = false;
  force_kill_armed = false;
  aborted = aborted;
  exit_code = none;
  kills = [];
  delivered = [];
}

module _ (is_windows : Bool) (kill_throws : Target → Signal → Bool) (request : Request) where
  attempt_kill : Target → Signal → Run → Run
  attempt_kill target signal s = record s { kills = s.kills ++ (target, signal) ∷ [] }

  is_detached : Bool
  is_detached = elim request.detached [ none ↦ true | some d ↦ d ]

  first_target : Target
  unfolding is_detached
  first_target = if is_detached && not is_windows then group else child

  -- A call that throws is followed by one for the child alone, and that one may throw.
  unfoldable pub signal_process : Signal → Run → Run
  unfolding attempt_kill first_target
  signal_process signal s = elim s.exit_code [
    | some _ ↦ s
    | none ↦
        (let s1 = attempt_kill first_target signal s in
          if kill_throws first_target signal then attempt_kill child signal s1 else s1)
  ]

  unfoldable pub terminate : Termination → Run → Run
  unfolding signal_process
  terminate reason s = elim s.termination [
    | some _ ↦ s
    | none ↦
        if s.is_settled
        then s
        else record (signal_process sigterm (record s { termination = some reason })) {
          force_kill_armed = true;
        }
  ]

  unfoldable pub on_chunk : Stream → (message : List ℕ) → (now : ℕ) → Run → Run
  unfolding append_tail normalize_output_limit
  on_chunk stream message now s =
      let limit = normalize_output_limit request.max_output_chars in
      let s1 = record s {
        last_activity_at = now;
        output_tail = append_tail s.output_tail message limit;
      } in
      if not request.has_on_output then s1 else elim s.termination [
        | some _ ↦ s1
        | none ↦
            if s.is_settled
            then s1
            else record s1 { delivered = s.delivered ++ (stream, message) ∷ [] }
      ]

  unfoldable pub begin_idle_check : Run → Run
  begin_idle_check s =
      if s.idle_check_running
      then s
      else if s.is_settled
      then s
      else record s { idle_check_running = true }

  unfoldable pub note_heartbeat : (signature : String) → (now : ℕ) → Run → Run
  note_heartbeat signature now s = elim s.last_heartbeat [
    | none ↦ record s {
      last_heartbeat = some signature;
      last_activity_at = if request.has_heartbeat_paths then now else s.last_activity_at;
    }
    | some last ↦
        if str_eq signature last
        then s
        else record s { last_heartbeat = some signature; last_activity_at = now }
  ]

  -- `Date.now() - last_activity_at >= idle_timeout_ms && child.exitCode === null`
  unfoldable pub check_idle : (idle_timeout_ms checked_at : ℕ) → Run → Run
  unfolding terminate
  check_idle idle_timeout_ms checked_at s = elim s.exit_code [
    | some _ ↦ s
    | none ↦
        if leb idle_timeout_ms (checked_at - s.last_activity_at)
        then terminate idle_timeout s
        else s
  ]

  unfoldable pub end_idle_check :
      (idle_timeout_ms : ℕ) → (signature : String) → (now checked_at : ℕ) → Run → Run
  unfolding note_heartbeat check_idle
  end_idle_check idle_timeout_ms signature now checked_at s =
      let s1 =
        if s.is_settled
        then s
        else check_idle idle_timeout_ms checked_at (note_heartbeat signature now s) in
      record s1 { idle_check_running = false }

  unfoldable pub wall_timeout_ms : ℕ
  wall_timeout_ms = elim request.wall_timeout_ms [ none ↦ 1800000 | some ms ↦ ms ]

  -- A timer that is not set, or is cleared, does not fire.
  unfoldable pub handle : ProcessEvent → Run → Run
  unfolding on_chunk terminate begin_idle_check end_idle_check signal_process wall_timeout_ms
  handle (chunk stream message now) s = on_chunk stream message now s
  handle abort s =
      if s.aborted
      then s
      else let s1 = record s { aborted = true } in
        if s.is_settled then s1 else terminate cancelled s1
  handle wall_timer s =
      if wall_timeout_ms == 0 then s else if s.is_settled then s else terminate wall_timeout s
  handle idle_tick s = elim request.idle_timeout_ms [
    | none ↦ s
    | some ms ↦ if ms == 0 then s else begin_idle_check s
  ]
  handle (heartbeat signature now checked_at) s = elim request.idle_timeout_ms [
    | none ↦ s
    | some ms ↦ if s.idle_check_running then end_idle_check ms signature now checked_at s else s
  ]
  handle force_kill_timer s =
      if s.force_kill_armed
      then signal_process sigkill (record s { force_kill_armed = false })
      else s
  handle (exits code) s = record s { exit_code = some code }

  unfoldable pub handle_all : List ProcessEvent → Run → Run
  unfolding handle
  handle_all [] s = s
  handle_all (e ∷ es) s = handle_all es (handle e s)

  -- A run whose child was spawned, where the signal may be aborted by then.
  unfoldable pub begin_run : (aborted : Bool) → (now : ℕ) → Run
  unfolding terminate
  begin_run aborted now =
      let s = initial_run aborted now in if aborted then terminate cancelled s else s
