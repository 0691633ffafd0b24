-- ===== src/Processes/Output.antt =====
-- What a run keeps of its output.
use datasheet_to_tscircuit.Prelude.{
  ℕ, append_nil, append_assoc, drop_nil, String, Bool, true, false, List, [], ◌∷◌, ◌++◌, ◌≡◌, refl,
  sym, ◌∙◌, ap, arith, Option-cases, some, inl, inr, ◌≤◌, length, ◌-◌, subst,
}
use datasheet_to_tscircuit.Logs.Bounded.{last}
use datasheet_to_tscircuit.Processes.Runner.{
  Stream, Target, Signal, sigterm, sigkill, Termination, cancelled, idle_timeout, wall_timeout,
  Request, Run, check_idle, note_heartbeat, begin_idle_check, end_idle_check, ProcessEvent, chunk,
  abort, wall_timer, idle_tick, heartbeat, force_kill_timer, exits, signal_process,
  normalize_output_limit, terminate, on_chunk, handle, handle_all, initial_run, begin_run,
  append_tail,
}
use datasheet_to_tscircuit.Processes.Tail.{
  normalize_output_limit-bounds, append_tail-ends, length-last,
}

-- All output of the events.
abbrev pub output_of : List ProcessEvent → List ℕ
output_of [] = []
output_of (chunk _ message _ ∷ es) = message ++ output_of es
output_of (_ ∷ es) = output_of es

output_of-cons :
    (e : ProcessEvent) (es : List ProcessEvent)
    → output_of (e ∷ []) ++ output_of es ≡ output_of (e ∷ es)
output_of-cons (chunk _ message _) es = append_assoc message [] (output_of es)
output_of-cons abort es = refl
output_of-cons wall_timer es = refl
output_of-cons idle_tick es = refl
output_of-cons (heartbeat _ _ _) es = refl
output_of-cons force_kill_timer es = refl
output_of-cons (exits _) es = refl

module _ (is_windows : Bool) (kill_throws : Target → Signal → Bool) (request : Request) where
  signal_process_output :
      (signal : Signal) (s : Run)
      → (signal_process is_windows kill_throws request signal s).output_tail ≡ s.output_tail
  unfolding signal_process
  signal_process_output signal s = ground arith

  terminate_output :
      (reason : Termination) (s : Run)
      → (terminate is_windows kill_throws request reason s).output_tail ≡ s.output_tail
  unfolding terminate
  terminate_output reason s =
      ground (arith, signal_process_output sigterm (record s { termination = some reason }))

  on_chunk_output :
      (stream : Stream) (message : List ℕ) (now : ℕ) (s : Run)
      → (on_chunk is_windows kill_throws request stream message now s).output_tail
        ≡ append_tail s.output_tail message (normalize_output_limit request.max_output_chars)
  unfolding on_chunk
  on_chunk_output stream message now s = ground arith

  note_heartbeat_output :
      (signature : String) (now : ℕ) (s : Run)
      → (note_heartbeat is_windows kill_throws request signature now s).output_tail ≡ s.output_tail
  unfolding note_heartbeat
  note_heartbeat_output signature now s = ground arith

  check_idle_output :
      (idle_timeout_ms checked_at : ℕ) (s : Run)
      → (check_idle is_windows kill_throws request idle_timeout_ms checked_at s).output_tail
        ≡ s.output_tail
  unfolding check_idle
  check_idle_output idle_timeout_ms checked_at s = ground (arith, terminate_output idle_timeout s)

  end_idle_check_output :
      (idle_timeout_ms : ℕ) (signature : String) (now checked_at : ℕ) (s : Run)
      → (end_idle_check is_windows kill_throws request idle_timeout_ms signature now checked_at
          s).output_tail
        ≡ s.output_tail
  unfolding end_idle_check
  end_idle_check_output idle_timeout_ms signature now checked_at s =
      let noted = note_heartbeat is_windows kill_throws request signature now s in
      ground (
        arith,
        check_idle_output idle_timeout_ms checked_at noted,
        note_heartbeat_output signature now s,
      )

  -- Each event keeps the tail, and a chunk is added to it.
  handle_output :
      (e : ProcessEvent) (all : List ℕ) (s : Run)
      → s.output_tail ≡ last (normalize_output_limit request.max_output_chars) all
      → (handle is_windows kill_throws request e s).output_tail
        ≡ last (normalize_output_limit request.max_output_chars) (all ++ output_of (e ∷ []))
  unfolding handle begin_idle_check
  handle_output (chunk stream message now) all s h =
      on_chunk_output stream message now s
      ∙ ap (λ t. append_tail t message (normalize_output_limit request.max_output_chars)) h
      ∙ append_tail-ends all message (normalize_output_limit request.max_output_chars)
      ∙ ap (λ l. last (normalize_output_limit request.max_output_chars) (all ++ l))
          (sym (append_nil message))
  handle_output abort all s h =
      ground (arith, h, append_nil all, terminate_output cancelled (record s { aborted = true }))
  handle_output wall_timer all s h =
      ground (arith, h, append_nil all, terminate_output wall_timeout s)
  handle_output idle_tick all s h = ground (arith, h, append_nil all)
  handle_output (heartbeat signature now checked_at) all s h =
      elim (Option-cases request.idle_timeout_ms) [
        | inl unset ↦ ground (arith, h, append_nil all, unset)
        | inr (ms, set) ↦
            ground
              (arith, h, append_nil all, set, end_idle_check_output ms signature now checked_at s)
      ]
  handle_output force_kill_timer all s h = ground (
    arith,
    h,
    append_nil all,
    signal_process_output sigkill (record s { force_kill_armed = false }),
  )
  handle_output (exits code) all s h = ground (arith, h, append_nil all)

  handle_all_output :
      (es : List ProcessEvent) (all : List ℕ) (s : Run)
      → s.output_tail ≡ last (normalize_output_limit request.max_output_chars) all
      → (handle_all is_windows kill_throws request es s).output_tail
        ≡ last (normalize_output_limit request.max_output_chars) (all ++ output_of es)
  unfolding handle_all
  handle_all_output [] all s h =
      h ∙ ap (λ l. last (normalize_output_limit request.max_output_chars) l) (sym (append_nil all))
  handle_all_output (e ∷ es) all s h =
      handle_all_output es (all ++ output_of (e ∷ [])) (handle is_windows kill_throws request e s)
        (handle_output e all s h)
      ∙ ap (λ l. last (normalize_output_limit request.max_output_chars) l)
          (append_assoc all (output_of (e ∷ [])) (output_of es)
            ∙ ap (λ l. all ++ l) (output_of-cons e es))

  begin_run_output :
      (aborted : Bool) (now : ℕ)
      → (begin_run is_windows kill_throws request aborted now).output_tail ≡ []
  unfolding begin_run
  begin_run_output true now = terminate_output cancelled (initial_run true now)
  begin_run_output false now = refl

  -- After any events of a run, the tail of its output is the end of all output of the events that has
  -- the length of the limit, or all of it where that is no longer; and the limit is from 1,000 to
  -- 1,000,000 units.
  pub run_keeps_tail :
      (aborted : Bool) (now : ℕ) (es : List ProcessEvent)
      → let limit = normalize_output_limit request.max_output_chars in
        let tail =
          (handle_all is_windows kill_throws request es
            (begin_run is_windows kill_throws request aborted now)).output_tail in
        (tail ≡ last limit (output_of es))
        × (length tail ≤ limit)
        × (1000 ≤ limit)
        × (limit ≤ 1000000)
  run_keeps_tail aborted now es =
      let limit = normalize_output_limit request.max_output_chars in
      let e =
        handle_all_output es [] (begin_run is_windows kill_throws request aborted now)
          (begin_run_output aborted now ∙ sym (drop_nil (0 - limit))) in
      let (low, high) = normalize_output_limit-bounds request.max_output_chars in
      (e, subst (λ l. length l ≤ limit) (sym e) (length-last limit (output_of es)), low, high)
