-- ===== src/Processes/Succeeded.antt =====
-- What a run that succeeds has been.
use datasheet_to_tscircuit.Prelude.{
  ℕ, zero, suc, Bool, false, Option, none, some, List, [], ◌∷◌, ◌≡◌, refl, sym, subst, String, All,
  ◌⊎◌, Bool-cases, Option-cases, inl, inr,
}
use datasheet_to_tscircuit.Processes.Runner.{
  Target, Signal, Termination, cancelled, idle_timeout, wall_timeout, Request, Run, ProcessEvent,
  handle_all, begin_run,
}
use datasheet_to_tscircuit.Processes.Undisturbed.{IsHarmless, calm_run-undisturbed}
use datasheet_to_tscircuit.Processes.Outcome.{
  ProcessErrorCode, Result, succeeded, failed, Completion, completed, terminated, handler_failed,
  stream_failed, termination_error, exit_result, reason_of, conclude_completed, conclude_terminated,
  conclude_failure, conclude, run_spawned, run, early_error,
}

List-cases {ℓ} : {A : Type ℓ} (xs : List A) → (xs ≡ []) ⊎ ((y : A) × (ys : List A) × (xs ≡ y ∷ ys))
List-cases [] = inl refl
List-cases (x ∷ xs) = inr (x, xs, refl)

-- A success has these fields.
abbrev HasFields : {E : Type 0} → Result E → ℕ → ℕ → List ℕ → Type 0
HasFields (succeeded c' d' t') c d t = (c ≡ c') × (d ≡ d') × (t ≡ t')
HasFields (failed _) c d t = ⊥

reason_of-none : (s : Run) → reason_of s ≡ none → (s.aborted ≡ false) × (s.termination ≡ none)
unfolding reason_of
reason_of-none s h = elim (Bool-cases s.aborted) [
  | inl aborted ↦ absurd (cc (rw (aborted, reason_of) at h))
  | inr not_aborted ↦ (not_aborted, rw (not_aborted, reason_of) at h)
]

module _ (E : Type 0) (request : Request) (c d : ℕ) (t : List ℕ) where
  termination_error-fails :
      (r : Termination) (code : Option ℕ) (tail : List ℕ)
      → HasFields (termination_error {E = E} request r code tail) c d t
      → ⊥
  unfolding termination_error
  termination_error-fails cancelled code tail h = h
  termination_error-fails idle_timeout code tail h = h
  termination_error-fails wall_timeout code tail h = h

  conclude_failure-fails :
      (r : Option Termination) (code : ProcessErrorCode) (message : String) (cause : E) (s : Run)
      → HasFields (conclude_failure request r code message cause s) c d t
      → ⊥
  unfolding conclude_failure
  conclude_failure-fails (some r) code message cause s h =
      termination_error-fails r s.exit_code s.output_tail h
  conclude_failure-fails none code message cause s h = h

  conclude_terminated-fails :
      (s : Run) → HasFields (conclude_terminated {E = E} request s) c d t → ⊥
  unfolding conclude_terminated
  conclude_terminated-fails s h = elim (Option-cases (reason_of s)) [
    | inl nothing ↦
        termination_error-fails wall_timeout s.exit_code s.output_tail
          (rw (nothing, conclude_terminated) at h)
    | inr (r, e) ↦
        termination_error-fails r s.exit_code s.output_tail (rw (e, conclude_terminated) at h)
  ]

  exit_result-fields :
      (code duration : ℕ) (tail : List ℕ)
      → HasFields (exit_result {E = E} request code duration tail) c d t
      → (c ≡ 0) × (code ≡ 0) × (d ≡ duration) × (t ≡ tail)
  unfolding exit_result
  exit_result-fields zero duration tail (hc, hd, ht) = (hc, refl, hd, ht)
  exit_result-fields (suc code) duration tail h = absurd h

  conclude_completed-fields :
      (code duration : ℕ) (s : Run)
      → HasFields (conclude_completed {E = E} request code duration s) c d t
      → (reason_of s ≡ none) × ((c ≡ 0) × (code ≡ 0) × (d ≡ duration) × (t ≡ s.output_tail))
  unfolding conclude_completed
  conclude_completed-fields code duration s h = elim (Option-cases (reason_of s)) [
    | inr (r, e) ↦
        absurd
          (termination_error-fails r (some code) s.output_tail (rw (e, conclude_completed) at h))
    | inl e ↦ (e, exit_result-fields code duration s.output_tail (rw (e, conclude_completed) at h))
  ]

  module _ (is_windows : Bool) (kill_throws : Target → Signal → Bool) where
    conclude-fields :
        (completion : Completion E) (late : List ProcessEvent) (s : Run)
        → HasFields (conclude request is_windows kill_throws completion late s) c d t
        → (completion ≡ completed 0 d)
          × (c ≡ 0)
          × (t ≡ s.output_tail)
          × (s.aborted ≡ false)
          × (s.termination ≡ none)
    unfolding conclude
    conclude-fields (completed code duration) late s h =
        let (e, fields) = conclude_completed-fields code duration s h in
        let (not_aborted, not_terminated) = reason_of-none s e in
        (cc (fields.1, fields.2), fields.0, fields.3, not_aborted, not_terminated)
    conclude-fields terminated late s h =
        absurd (conclude_terminated-fails (handle_all is_windows kill_throws request late s) h)
    conclude-fields (handler_failed cause) late s h =
        absurd (conclude_failure-fails _ _ _ cause _ h)
    conclude-fields (stream_failed cause) late s h = absurd (conclude_failure-fails _ _ _ cause _ h)

    run_spawned-fields :
        (spawn_error : Option E) (aborted : Bool) (now : ℕ) (events : List ProcessEvent)
        (completion : Completion E) (late : List ProcessEvent)
        → HasFields
            (run_spawned request is_windows kill_throws spawn_error aborted now events completion
              late)
            c
            d
            t
        → (spawn_error ≡ none)
          × HasFields
              (conclude request is_windows kill_throws completion late (
                handle_all is_windows kill_throws request events
                  (begin_run is_windows kill_throws request aborted now)))
              c
              d
              t
    unfolding run_spawned early_error
    run_spawned-fields none aborted now events completion late h = (refl, h)
    run_spawned-fields (some cause) aborted now events completion late h = absurd h

    run-fields :
        (aborted_before : Bool) (spawn_error : Option E) (aborted : Bool) (now : ℕ)
        (events : List ProcessEvent) (completion : Completion E) (late : List ProcessEvent)
        → HasFields
            (run request is_windows kill_throws aborted_before spawn_error aborted now events
              completion late)
            c
            d
            t
        → (aborted_before ≡ false)
          × HasFields
              (run_spawned request is_windows kill_throws spawn_error aborted now events completion
                late)
              c
              d
              t
    unfolding run early_error
    run-fields aborted_before spawn_error aborted now events completion late h =
        elim (List-cases request.command) [
          | inl nothing ↦ absurd (rw (nothing, run, early_error) at h)
          | inr (x, xs, e) ↦ elim (Bool-cases aborted_before) [
            | inl before ↦ absurd (rw (e, before, run, early_error) at h)
            | inr not_before ↦ (not_before, rw (e, not_before, run) at h)
          ]
        ]

    -- If a run succeeds, then its signal was not aborted before or behind the spawn, its program was
    -- spawned, and all of its tasks were completed with the exit code 0, which it answers with the time
    -- and the tail of the output up to then; and up to then there was no abortion among the events, nor
    -- the timer of the wall clock, if it was set, and no signal was sent to the program.
    pub run_succeeds :
        (aborted_before : Bool) (spawn_error : Option E) (aborted : Bool) (now : ℕ)
        (events : List ProcessEvent) (completion : Completion E) (late : List ProcessEvent)
        → run request is_windows kill_throws aborted_before spawn_error aborted now events
            completion late
          ≡ succeeded c d t
        → (aborted_before ≡ false)
          × (aborted ≡ false)
          × (spawn_error ≡ none)
          × (completion ≡ completed 0 d)
          × (c ≡ 0)
          × All (IsHarmless is_windows kill_throws request) events
          × (let s =
                handle_all is_windows kill_throws request events
                  (begin_run is_windows kill_throws request aborted now) in
              (t ≡ s.output_tail) × (s.kills ≡ []))
    run_succeeds aborted_before spawn_error aborted now events completion late e =
        let fields : HasFields
            (run request is_windows kill_throws aborted_before spawn_error aborted now events
              completion late)
            c d t =
          subst (λ r. HasFields r c d t) (sym e) (refl, refl, refl) in
        let (not_before, spawned) =
          run-fields aborted_before spawn_error aborted now events completion late fields in
        let (no_error, concluded) =
          run_spawned-fields spawn_error aborted now events completion late spawned in
        let (all_completed, code, tail, not_aborted, not_terminated) =
          conclude-fields completion late _ concluded in
        let (not_since, harmless, unsent) =
          calm_run-undisturbed is_windows kill_throws request aborted now events not_terminated
            not_aborted in
        (not_before, not_since, no_error, all_completed, code, harmless, (tail, unsent))
