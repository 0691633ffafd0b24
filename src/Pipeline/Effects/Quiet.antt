-- ===== src/Pipeline/Effects/Quiet.antt =====
-- Actions that leave the local variables of a run alone, and rules for actions that do not.
use datasheet_to_tscircuit.Prelude.{
  ℕ, suc, String, ◌≡◌, refl, ◌∙◌, Bool, true, false, Option, none, some, List, if◌then◌else◌,
}
use datasheet_to_tscircuit.Pipeline.Types.{Artifact}
use datasheet_to_tscircuit.Pipeline.Errors.{Thrown}
use datasheet_to_tscircuit.Pipeline.Result.{Result, return, throw}
use datasheet_to_tscircuit.Pipeline.Effects.{
  Action, Environment, ExecutionInput, Run, M, pure, raise, lift, continue, continue_caught,
  try_catch, ◌>>=◌, get_core, get_run, advance_sequence, answer, perform, read_now, read_aborted,
  run_execute, snapshot_pipeline_artifacts,
}

-- What the platform documents of an `AbortSignal`: once aborted, it stays so.
abbrev pub Persistent : Environment → Type 0
Persistent env = (n : ℕ) → env.aborted n ≡ true → env.aborted (suc n) ≡ true

-- From `s` to `s'` the variables and the status of the run are the same, and a cancellation is not taken back.
pub record Later (env : Environment) (s s' : Run) : Type 0 where
  pub core : s'.core ≡ s.core
  pub status : s'.run_status ≡ s.run_status
  pub signal : env.aborted s.clock ≡ true → env.aborted s'.clock ≡ true

pub record Quiet (env : Environment) {A : Type 0} (m : M A) : Type 0 where
  pub at : (s : Run) → Later env s (m s).1

-- A predicate that quiet actions keep.
pub record Stable (env : Environment) (P : Run → Type 0) : Type 0 where
  pub at : {s s' : Run} → P s → Later env s s' → P s'

Later-refl : {env : Environment} (s : Run) → Later env s s
Later-refl s = record { core = refl; status = refl; signal = λ h. h }

Later-trans : {env : Environment} {s t u : Run} → Later env s t → Later env t u → Later env s u
Later-trans p q = record {
  core = q.core ∙ p.core;
  status = q.status ∙ p.status;
  signal = λ h. q.signal (p.signal h);
}

module _ {env : Environment} {A : Type 0} where
  pub Quiet-pure : (a : A) → Quiet env (pure a)
  unfolding pure
  Quiet-pure a = record { at = Later-refl }

  pub Quiet-raise : (e : Thrown) → Quiet env (raise {A = A} e)
  unfolding raise
  Quiet-raise e = record { at = Later-refl }

  pub Quiet-lift : (r : Result A) → Quiet env (lift r)
  unfolding lift
  Quiet-lift r = record { at = Later-refl }

  Later-caught :
      (r : Result A) (handler : Thrown → M A) (s : Run)
      → ((e : Thrown) → Quiet env (handler e))
      → Later env s (continue_caught r handler s).1
  unfolding continue_caught
  Later-caught (return a) handler s k = Later-refl s
  Later-caught (throw e) handler s k = (k e).at s

  pub Quiet-try_catch :
      (m : M A) (handler : Thrown → M A)
      → Quiet env m
      → ((e : Thrown) → Quiet env (handler e))
      → Quiet env (try_catch m handler)
  unfolding try_catch
  Quiet-try_catch m handler q k = record {
    at = λ s. Later-trans (q.at s) (Later-caught (m s).0 handler (m s).1 k);
  }

  pub Quiet-if : (b : Bool) (m n : M A) → Quiet env m → Quiet env n → Quiet env (if b then m else n)
  Quiet-if true m n p q = p
  Quiet-if false m n p q = q

module _ {env : Environment} {A B : Type 0} where
  Later-continue :
      (r : Result A) (f : A → M B) (s : Run)
      → ((a : A) → Quiet env (f a))
      → Later env s (continue r f s).1
  Later-continue (return a) f s k = (k a).at s
  Later-continue (throw e) f s k = Later-refl s

  pub Quiet-bind :
      (m : M A) (f : A → M B) → Quiet env m → ((a : A) → Quiet env (f a)) → Quiet env (m >>= f)
  unfolding ◌>>=◌
  Quiet-bind m f q k = record {
    at = λ s. Later-trans (q.at s) (Later-continue (m s).0 f (m s).1 k);
  }

module _ {env : Environment} where
  pub Quiet-get_core : Quiet env get_core
  unfolding get_core
  Quiet-get_core = record { at = Later-refl }

  pub Quiet-get_run : Quiet env get_run
  unfolding get_run
  Quiet-get_run = record { at = Later-refl }

  pub Quiet-advance_sequence : Quiet env advance_sequence
  unfolding advance_sequence
  Quiet-advance_sequence = record {
    at = λ s. record { core = refl; status = refl; signal = λ h. h };
  }

  pub Quiet-read_aborted : Quiet env (read_aborted env)
  unfolding read_aborted
  Quiet-read_aborted = record { at = Later-refl }

module _ {env : Environment} (persistent : Persistent env) where
  Later-answer :
      (action : Action) (o : Option Thrown) (s : Run) → Later env s (answer env action o s).1
  unfolding answer
  Later-answer action none s = record { core = refl; status = refl; signal = persistent s.clock }
  Later-answer action (some e) s = record {
    core = refl;
    status = refl;
    signal = persistent s.clock;
  }

  pub Quiet-perform : (action : Action) → Quiet env (perform env action)
  unfolding perform
  Quiet-perform action = record { at = λ s. Later-answer action (env.respond s.clock action) s }

  pub Quiet-read_now : Quiet env (read_now env)
  unfolding read_now
  Quiet-read_now = record {
    at = λ s. record { core = refl; status = refl; signal = persistent s.clock };
  }

  pub Quiet-run_execute : (input : ExecutionInput) → Quiet env (run_execute env input)
  unfolding run_execute
  Quiet-run_execute input = record {
    at = λ s. record { core = refl; status = refl; signal = persistent s.clock };
  }

  pub Quiet-snapshot_pipeline_artifacts :
      (artifacts : List Artifact) (dir id : String)
      → Quiet env (snapshot_pipeline_artifacts env artifacts dir id)
  unfolding snapshot_pipeline_artifacts
  Quiet-snapshot_pipeline_artifacts artifacts dir id = record {
    at = λ s. record { core = refl; status = refl; signal = persistent s.clock };
  }

pub ruleset quiet_rules = (
  Quiet-pure, Quiet-raise, Quiet-lift, Quiet-try_catch, Quiet-if, Quiet-bind, Quiet-get_core,
  Quiet-get_run, Quiet-advance_sequence, Quiet-read_aborted, Quiet-perform, Quiet-read_now,
  Quiet-run_execute, Quiet-snapshot_pipeline_artifacts,
)
