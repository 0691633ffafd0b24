-- ===== src/Pipeline/Effects/Kept.antt =====
-- Actions that keep a predicate of the run, and whether they may throw.
use datasheet_to_tscircuit.Prelude.{◌≡◌, sym, subst, Bool, true, false, if◌then◌else◌}
use datasheet_to_tscircuit.Pipeline.Errors.{Thrown}
use datasheet_to_tscircuit.Pipeline.Result.{Result, return, throw}
use datasheet_to_tscircuit.Pipeline.Effects.{
  Environment, Core, Run, M, pure, raise, lift, continue, continue_caught, try_catch, ◌>>=◌,
  get_core, get_run, read_aborted,
}
use datasheet_to_tscircuit.Pipeline.Effects.Outcomes.{After, Triple}

-- What holds after a throw.
abbrev pub Allowed : (Run → Type 0) → (may_throw : Bool) → Run → Type 0
Allowed Φ true s = Φ s
Allowed Φ false s = ⊥

pub record Keeps (Φ : Run → Type 0) (may_throw : Bool) {A : Type 0} (m : M A) : Type 0 where
  pub at : (s : Run) → Φ s → After (λ _. Φ) (Allowed Φ may_throw) (m s).0 (m s).1

pub After-kept :
    {A : Type 0} (Φ : Run → Type 0) (r : Result A) (s : Run) → Φ s → After (λ _. Φ) Φ r s
After-kept Φ (return a) s h = h
After-kept Φ (throw e) s h = h

module _ {Φ : Run → Type 0} {A : Type 0} where
  pub Keeps-pure : {b : Bool} (a : A) → Keeps Φ b (pure a)
  unfolding pure
  Keeps-pure a = record { at = λ s h. h }

  pub Keeps-raise : (e : Thrown) → Keeps Φ true (raise {A = A} e)
  unfolding raise
  Keeps-raise e = record { at = λ s h. h }

  pub Keeps-lift : (r : Result A) → Keeps Φ true (lift r)
  unfolding lift
  Keeps-lift r = record { at = After-kept Φ r }

  pub Keeps-lift_known : {b : Bool} (r : Result A) (a : A) → r ≡ return a → Keeps Φ b (lift r)
  unfolding lift
  Keeps-lift_known {b} r a e = record {
    at = λ s h. subst (λ q. After (λ _. Φ) (Allowed Φ b) q s) (sym e) h;
  }

  After-recovered :
      {b : Bool} (r : Result A) (handler : Thrown → M A) (s : Run)
      → After (λ _. Φ) Φ r s
      → ((e : Thrown) → Keeps Φ b (handler e))
      → After (λ _. Φ) (Allowed Φ b) (continue_caught r handler s).0 (continue_caught r handler s).1
  unfolding continue_caught
  After-recovered (return a) handler s h k = h
  After-recovered (throw e) handler s h k = (k e).at s h

  pub Keeps-try_catch :
      {b : Bool} (m : M A) (handler : Thrown → M A)
      → Keeps Φ true m
      → ((e : Thrown) → Keeps Φ b (handler e))
      → Keeps Φ b (try_catch m handler)
  unfolding try_catch
  Keeps-try_catch m handler q k = record {
    at = λ s h. After-recovered (m s).0 handler (m s).1 (q.at s h) k;
  }

  pub Keeps-if :
      {b : Bool} (t : Bool) (m n : M A) → Keeps Φ b m → Keeps Φ b n → Keeps Φ b (if t then m else n)
  Keeps-if true m n p q = p
  Keeps-if false m n p q = q

  pub Keeps-read_aborted :
      {b : Bool} (env : Environment) (f : Bool → M A)
      → ((a : Bool) → Keeps Φ b (f a))
      → Keeps Φ b (read_aborted env >>= f)
  unfolding read_aborted ◌>>=◌
  Keeps-read_aborted env f k = record { at = λ s h. (k (env.aborted s.clock)).at s h }

  -- The variables that are read satisfy what is kept of them.
  pub Keeps-get_core :
      {b : Bool} (f : Core → M A)
      → ((s : Run) → Φ s → Keeps Φ b (f s.core))
      → Keeps Φ b (get_core >>= f)
  unfolding get_core ◌>>=◌
  Keeps-get_core f k = record { at = λ s h. (k s h).at s h }

  pub Keeps-get_run :
      {b : Bool} (f : Run → M A) → ((s : Run) → Keeps Φ b (f s)) → Keeps Φ b (get_run >>= f)
  unfolding get_run ◌>>=◌
  Keeps-get_run f k = record { at = λ s h. (k s).at s h }

module _ {Φ : Run → Type 0} {A B : Type 0} where
  pub After-next :
      {b : Bool} (r : Result A) (f : A → M B) (s : Run)
      → After (λ _. Φ) (Allowed Φ b) r s
      → ((a : A) → Keeps Φ b (f a))
      → After (λ _. Φ) (Allowed Φ b) (continue r f s).0 (continue r f s).1
  After-next (return a) f s h k = (k a).at s h
  After-next (throw e) f s h k = h

  pub Keeps-bind :
      {b : Bool} (m : M A) (f : A → M B)
      → Keeps Φ b m
      → ((a : A) → Keeps Φ b (f a))
      → Keeps Φ b (m >>= f)
  unfolding ◌>>=◌
  Keeps-bind m f q k = record { at = λ s h. After-next (m s).0 f (m s).1 (q.at s h) k }

pub ruleset kept_rules = (
  Keeps-read_aborted, Keeps-get_core, Keeps-get_run, Keeps-pure, Keeps-raise, Keeps-lift,
  Keeps-try_catch, Keeps-if, Keeps-bind,
)

After-weakened :
    {A : Type 0} (Φ E F : Run → Type 0) (r : Result A) (t : Run)
    → After (λ _. Φ) F r t
    → ((s : Run) → F s → E s)
    → After (λ _. Φ) E r t
After-weakened Φ E F (return a) t h weaken = h
After-weakened Φ E F (throw e) t h weaken = weaken t h

-- What is kept, as a triple.
pub Triple-keeps :
    {Φ E : Run → Type 0} {b : Bool} {A : Type 0} (m : M A)
    → Keeps Φ b m
    → ((s : Run) → Allowed Φ b s → E s)
    → Triple Φ m (λ _. Φ) E
Triple-keeps {Φ} {E} {b} m q weaken = record {
  at = λ s h. After-weakened Φ E (Allowed Φ b) (m s).0 (m s).1 (q.at s h) weaken;
}

-- What never throws may be used where it might.
pub Keeps-may_throw : {Φ : Run → Type 0} {A : Type 0} (m : M A) → Keeps Φ false m → Keeps Φ true m
Keeps-may_throw {Φ} m q = record {
  at = λ s h. After-weakened Φ Φ (λ _. ⊥) (m s).0 (m s).1 (q.at s h) (λ t e. absurd e);
}

-- A test whose result is known.
pub Keeps-if_true :
    {Φ : Run → Type 0} {A : Type 0} {b : Bool} (t : Bool) (m n : M A)
    → t ≡ true
    → Keeps Φ b m
    → Keeps Φ b (if t then m else n)
Keeps-if_true true m n h q = q
Keeps-if_true false m n h q = cc

After-untouched :
    {A : Type 0} (Φ : Run → Type 0) (r : Result A) (handler : Thrown → M A) (s : Run)
    → After (λ _. Φ) (λ _. ⊥) r s
    → After (λ _. Φ) (λ _. ⊥) (continue_caught r handler s).0 (continue_caught r handler s).1
unfolding continue_caught
After-untouched Φ (return a) handler s h = h
After-untouched Φ (throw e) handler s h = absurd h

-- The handler of what never throws.
pub Keeps-try_safe :
    {Φ : Run → Type 0} {A : Type 0} (m : M A) (handler : Thrown → M A)
    → Keeps Φ false m
    → Keeps Φ false (try_catch m handler)
unfolding try_catch
Keeps-try_safe {Φ} m handler q = record {
  at = λ s h. After-untouched Φ (m s).0 handler (m s).1 (q.at s h);
}
