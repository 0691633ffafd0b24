-- ===== src/Processes/Undisturbed.antt =====
-- A run that nothing has aborted or terminated.
use datasheet_to_tscircuit.Prelude.{
  ℕ, String, Bool, true, false, List, [], ◌∷◌, none, some, ◌≡◌, ◌≢◌, inl, inr, refl, sym, ◌∙◌,
  arith, ==_iff, ◌==◌, leb, ◌-◌, Bool-cases, Option-cases, All, if◌then◌else◌,
}
use datasheet_to_tscircuit.Processes.Runner.{
  Stream, Target, Signal, sigterm, sigkill, Termination, cancelled, idle_timeout, wall_timeout,
  Request, Run, ProcessEvent, chunk, abort, wall_timer, idle_tick, heartbeat, force_kill_timer,
  exits, wall_timeout_ms, signal_process, terminate, on_chunk, note_heartbeat, check_idle,
  begin_idle_check, end_idle_check, handle, handle_all, initial_run, begin_run,
}

-- The variables of the supervision are as they were.
abbrev Kept : Run → Run → Type 0
Kept s t =
    (t.termination ≡ s.termination)
    × (t.aborted ≡ s.aborted)
    × (t.is_settled ≡ s.is_settled)
    × (t.kills ≡ s.kills)
    × (t.force_kill_armed ≡ s.force_kill_armed)

-- A run before its end, which sends no signal to the child before it has a reason.
abbrev IsSupervised : Run → Type 0
IsSupervised s =
    (s.is_settled ≡ false) × (s.termination ≡ none → (s.kills ≡ []) × (s.force_kill_armed ≡ false))

abbrev IsCalm : Run → Type 0
IsCalm s = (s.termination ≡ none) × (s.aborted ≡ false)

Kept-IsSupervised : (s t : Run) → Kept s t → IsSupervised s → IsSupervised t
Kept-IsSupervised s t (e1, _, e3, e4, e5) (settled, unsent) =
    (e3 ∙ settled, λ n. let (k, f) = unsent (sym e1 ∙ n) in (e4 ∙ k, e5 ∙ f))

-- The branch of a test that fails.
otherwise : (P : Run → Type 0) (b : Bool) (s t : Run) → b ≡ false → P t → P (if b then s else t)
otherwise P true s t h p = cc
otherwise P false s t h p = p

by_test :
    (P : Run → Type 0) (b : Bool) (s t : Run)
    → (b ≡ true → P s)
    → (b ≡ false → P t)
    → P (if b then s else t)
by_test P true s t p q = p refl
by_test P false s t p q = q refl

module _ (is_windows : Bool) (kill_throws : Target → Signal → Bool) (request : Request) where
  -- An event that cannot end a run: no abortion, and no timer of the wall clock that is set.
  abbrev pub IsHarmless : ProcessEvent → Type 0
  IsHarmless abort = ⊥
  IsHarmless wall_timer = wall_timeout_ms is_windows kill_throws request ≡ 0
  IsHarmless _ = Unit

  -- What an event does: it changes no variable of the supervision and is harmless, or the run is not
  -- calm behind it.
  Round : ProcessEvent → Run → Run → Type 0
  Round e s t = IsSupervised s → IsSupervised t × (IsCalm t → IsCalm s × IsHarmless e)

  signal_process-keeps :
      (signal : Signal) (s : Run)
      → let t = signal_process is_windows kill_throws request signal s in
        (t.termination ≡ s.termination) × (t.aborted ≡ s.aborted) × (t.is_settled ≡ s.is_settled)
  unfolding signal_process
  signal_process-keeps signal s = (ground arith, ground arith, ground arith)

  -- A termination leaves a reason.
  terminate-IsSupervised :
      (reason : Termination) (s : Run)
      → IsSupervised s
      → let t = terminate is_windows kill_throws request reason s in
        IsSupervised t × (t.termination ≢ none)
  unfolding terminate
  terminate-IsSupervised reason s (settled, unsent) = elim (Option-cases s.termination) [
    | inr (r, old) ↦ rw (old, terminate) ((settled, unsent), λ n. cc (sym old ∙ n))
    | inl fresh ↦
        let (e1, _, e3) = signal_process-keeps sigterm (record s { termination = some reason }) in
        rw (fresh, terminate)
          (otherwise (λ t. IsSupervised t × (t.termination ≢ none)) s.is_settled s _ settled
            ((e3 ∙ settled, λ n. cc (sym e1 ∙ n)), λ n. cc (sym e1 ∙ n)))
  ]

  terminate-aborted :
      (reason : Termination) (s : Run)
      → (terminate is_windows kill_throws request reason s).aborted ≡ s.aborted
  unfolding terminate
  terminate-aborted reason s =
      ground (arith, (signal_process-keeps sigterm (record s { termination = some reason })).1)

  on_chunk-keeps :
      (stream : Stream) (message : List ℕ) (now : ℕ) (s : Run)
      → Kept s (on_chunk is_windows kill_throws request stream message now s)
  unfolding on_chunk
  on_chunk-keeps stream message now s =
      (ground arith, ground arith, ground arith, ground arith, ground arith)

  note_heartbeat-keeps :
      (signature : String) (now : ℕ) (s : Run)
      → Kept s (note_heartbeat is_windows kill_throws request signature now s)
  unfolding note_heartbeat
  note_heartbeat-keeps signature now s =
      (ground arith, ground arith, ground arith, ground arith, ground arith)

  begin_idle_check-keeps : (s : Run) → Kept s (begin_idle_check is_windows kill_throws request s)
  unfolding begin_idle_check
  begin_idle_check-keeps s = (ground arith, ground arith, ground arith, ground arith, ground arith)

  -- A check that finds the run idle terminates it.
  check_idle-keeps :
      (ms at : ℕ) (s : Run)
      → IsSupervised s
      → let t = check_idle is_windows kill_throws request ms at s in
        IsSupervised t × (IsCalm t → IsCalm s)
  unfolding check_idle
  check_idle-keeps ms at s supervised = elim (Option-cases s.exit_code) [
    | inr (code, exited) ↦ rw (exited, check_idle) (supervised, λ c. c)
    | inl running ↦ elim (Bool-cases (leb ms (at - s.last_activity_at))) [
      | inr busy ↦ rw (running, busy, check_idle) (supervised, λ c. c)
      | inl idle ↦
          let (left, reason) = terminate-IsSupervised idle_timeout s supervised in
          rw (running, idle, check_idle) (left, λ c. absurd (reason c.0))
    ]
  ]

  end_idle_check-keeps :
      (ms : ℕ) (signature : String) (now at : ℕ) (s : Run)
      → IsSupervised s
      → let t = end_idle_check is_windows kill_throws request ms signature now at s in
        IsSupervised t × (IsCalm t → IsCalm s)
  unfolding end_idle_check
  end_idle_check-keeps ms signature now at s supervised =
      let noted = note_heartbeat is_windows kill_throws request signature now s in
      let kept = note_heartbeat-keeps signature now s in
      let (left, calm) = check_idle-keeps ms at noted (Kept-IsSupervised s noted kept supervised) in
      otherwise
        (λ t.
          IsSupervised (record t { idle_check_running = false })
          × (IsCalm (record t { idle_check_running = false }) → IsCalm s))
        s.is_settled s _ supervised.0
        (left, λ c. let (n, a) = calm c in (sym kept.0 ∙ n, sym kept.1 ∙ a))

  Kept-Round : (e : ProcessEvent) (s t : Run) → Kept s t → IsHarmless e → Round e s t
  unfolding Round
  Kept-Round e s t kept harmless supervised = (
    Kept-IsSupervised s t kept supervised,
    λ (n, a). ((sym kept.0 ∙ n, sym kept.1 ∙ a), harmless),
  )

  handle-Round :
      (e : ProcessEvent) (s : Run) → Round e s (handle is_windows kill_throws request e s)
  unfolding handle Round
  handle-Round (chunk stream message now) s supervised =
      Kept-Round (chunk stream message now) s
        (on_chunk is_windows kill_throws request stream message now s)
        (on_chunk-keeps stream message now s) tt supervised
  handle-Round abort s supervised =
      let s1 : Run = record s { aborted = true } in
      let (left, reason) = terminate-IsSupervised cancelled s1 supervised in
      by_test (λ t. IsSupervised t × (IsCalm t → IsCalm s × ⊥)) s.aborted s _
        (λ already. (supervised, λ c. cc (already, c.1)))
        (λ first.
          otherwise (λ t. IsSupervised t × (IsCalm t → IsCalm s × ⊥)) s.is_settled s1 _ supervised.0
            (left, λ c. absurd (reason c.0)))
  handle-Round wall_timer s supervised =
      elim (Bool-cases (wall_timeout_ms is_windows kill_throws request == 0)) [
        | inl unset ↦
            rw (unset, handle)
              (
                supervised,
                λ c. (c, (==_iff (wall_timeout_ms is_windows kill_throws request) 0).0 unset),
              )
        | inr set ↦
            let (left, reason) = terminate-IsSupervised wall_timeout s supervised in
            rw (set, handle)
              (otherwise
                (λ t.
                  IsSupervised t
                  × (IsCalm t → IsCalm s × (wall_timeout_ms is_windows kill_throws request ≡ 0)))
                s.is_settled s _ supervised.0 (left, λ c. absurd (reason c.0)))
      ]
  handle-Round idle_tick s supervised = elim (Option-cases request.idle_timeout_ms) [
    | inl unset ↦ rw (unset, handle) (supervised, λ c. (c, tt))
    | inr (ms, set) ↦ elim (Bool-cases (ms == 0)) [
      | inl never ↦ rw (set, never, handle) (supervised, λ c. (c, tt))
      | inr some_time ↦
          rw (set, some_time, handle)
            (Kept-Round idle_tick s (begin_idle_check is_windows kill_throws request s)
              (begin_idle_check-keeps s) tt supervised)
    ]
  ]
  handle-Round (heartbeat signature now at) s supervised =
      elim (Option-cases request.idle_timeout_ms) [
        | inl unset ↦ rw (unset, handle) (supervised, λ c. (c, tt))
        | inr (ms, set) ↦
            rw (set, handle)
              (by_test (λ t. IsSupervised t × (IsCalm t → IsCalm s × Unit {0})) s.idle_check_running
                _ s
                (λ _.
                  let (left, calm) = end_idle_check-keeps ms signature now at s supervised in
                  (left, λ c. (calm c, tt)))
                (λ _. (supervised, λ c. (c, tt))))
      ]
  handle-Round force_kill_timer s supervised =
      let (e1, e2, e3) = signal_process-keeps sigkill (record s { force_kill_armed = false }) in
      by_test (λ t. IsSupervised t × (IsCalm t → IsCalm s × Unit {0})) s.force_kill_armed _ s
        (λ armed. (
          (e3 ∙ supervised.0, λ n. cc (armed, (supervised.1 (sym e1 ∙ n)).1)),
          λ (n, a). ((sym e1 ∙ n, sym e2 ∙ a), tt),
        ))
        (λ _. (supervised, λ c. (c, tt)))
  handle-Round (exits code) s supervised = (supervised, λ c. (c, tt))

  -- A run that is calm behind its events was calm, and all of them are harmless.
  handle_all-IsCalm :
      (es : List ProcessEvent) (s : Run)
      → IsSupervised s
      → IsCalm (handle_all is_windows kill_throws request es s)
      → IsSupervised (handle_all is_windows kill_throws request es s) × IsCalm s × All IsHarmless es
  unfolding handle_all Round
  handle_all-IsCalm [] s supervised calm = (supervised, calm, tt)
  handle_all-IsCalm (e ∷ es) s supervised calm =
      let (left, back) = handle-Round e s supervised in
      let (last, calm', rest) =
        handle_all-IsCalm es (handle is_windows kill_throws request e s) left calm in
      let (before, harmless) = back calm' in (last, before, (harmless, rest))

  begin_run-IsSupervised :
      (aborted : Bool) (now : ℕ)
      → IsSupervised (begin_run is_windows kill_throws request aborted now)
  unfolding begin_run
  begin_run-IsSupervised true now =
      (terminate-IsSupervised cancelled (initial_run true now) (refl, λ n. (refl, refl))).0
  begin_run-IsSupervised false now = (refl, λ n. (refl, refl))

  -- Nothing has disturbed a run that has no reason to end and no abortion: the signal was not aborted,
  -- all events are harmless, and no signal was sent to the child.
  pub calm_run-undisturbed :
      (aborted : Bool) (now : ℕ) (es : List ProcessEvent)
      → let s =
          handle_all is_windows kill_throws request es
            (begin_run is_windows kill_throws request aborted now) in
        s.termination ≡ none
        → s.aborted ≡ false
        → (aborted ≡ false) × All IsHarmless es × (s.kills ≡ [])
  unfolding begin_run
  calm_run-undisturbed true now es n a =
      let (_, calm, _) =
        handle_all-IsCalm es (begin_run is_windows kill_throws request true now)
          (begin_run-IsSupervised true now) (n, a) in
      absurd (cc (calm.1, terminate-aborted cancelled (initial_run true now)))
  calm_run-undisturbed false now es n a =
      let (supervised, _, harmless) =
        handle_all-IsCalm es (begin_run is_windows kill_throws request false now)
          (begin_run-IsSupervised false now) (n, a) in
      (refl, harmless, (supervised.1 n).0)
