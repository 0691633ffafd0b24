-- ===== src/Pipeline/Effects/Outcomes.antt =====
-- What holds after an action, when it returns and when it throws, and the rules for it.
use datasheet_to_tscircuit.Prelude.{◌≡◌, refl, sym, subst, Bool, true, false, if◌then◌else◌}
use datasheet_to_tscircuit.Pipeline.Errors.{Thrown}
use datasheet_to_tscircuit.Pipeline.Result.{Result, return, throw}
use datasheet_to_tscircuit.Pipeline.Effects.{
  Environment, Core, Run, M, lift, continue, continue_caught, try_catch, ◌>>=◌, modify_core,
  get_core, read_aborted,
}
use datasheet_to_tscircuit.Pipeline.Effects.Quiet.{Quiet, Stable}

abbrev pub After : {A : Type 0} → (A → Run → Type 0) → (Run → Type 0) → Result A → Run → Type 0
After Q E (return a) s = Q a s
After Q E (throw e) s = E s

abbrev pub On : (Core → Type 0) → Run → Type 0
On Φ s = Φ s.core

abbrev pub Anything : Run → Type 0
Anything s = Unit

-- From a state with `P`, `m` ends in one with `Q` if it returns, and with `E` if it throws.
pub record Triple {A : Type 0} (P : Run → Type 0) (m : M A) (Q : A → Run → Type 0)
    (E : Run → Type 0) : Type 0 where
  pub at : (s : Run) → P s → After Q E (m s).0 (m s).1

After-quiet :
    {A : Type 0} {P E : Run → Type 0} (r : Result A) (s : Run)
    → P s
    → ((t : Run) → P t → E t)
    → After (λ _. P) E r s
After-quiet (return a) s p weaken = p
After-quiet (throw e) s p weaken = weaken s p

After-continue :
    {A B : Type 0} {E : Run → Type 0} {R : A → Run → Type 0} {Q : B → Run → Type 0} (r : Result A)
    (f : A → M B) (s : Run)
    → After R E r s
    → ((a : A) → Triple (R a) (f a) Q E)
    → After Q E (continue r f s).0 (continue r f s).1
After-continue (return a) f s h k = (k a).at s h
After-continue (throw e) f s h k = h

After-caught :
    {A : Type 0} {E F : Run → Type 0} {Q : A → Run → Type 0} (r : Result A) (handler : Thrown → M A)
    (s : Run)
    → After Q F r s
    → ((e : Thrown) → Triple F (handler e) Q E)
    → After Q E (continue_caught r handler s).0 (continue_caught r handler s).1
unfolding continue_caught
After-caught (return a) handler s h k = h
After-caught (throw e) handler s h k = (k e).at s h

After-result :
    {A : Type 0} (E : Run → Type 0) (Q Q' : A → Run → Type 0) (r : Result A) (s : Run)
    → After Q' E r s
    → ((a : A) (t : Run) → Q' a t → Q a t)
    → After Q E r s
After-result E Q Q' (return a) s h to = to a s h
After-result E Q Q' (throw e) s h to = h

After-forget :
    {A : Type 0} (E : Run → Type 0) (Q : A → Run → Type 0) (r : Result A) (s : Run)
    → After Q E r s
    → After Q Anything r s
After-forget E Q (return a) s h = h
After-forget E Q (throw e) s h = tt

module _ {env : Environment} {P E : Run → Type 0} where
  pub Triple-quiet :
      {A : Type 0} (m : M A)
      → Quiet env m
      → Stable env P
      → ((t : Run) → P t → E t)
      → Triple P m (λ _. P) E
  Triple-quiet m q stable weaken = record {
    at = λ s p. After-quiet (m s).0 (m s).1 (stable.at p (q.at s)) weaken;
  }

module _ {A B : Type 0} {P E : Run → Type 0} {R : A → Run → Type 0} {Q : B → Run → Type 0} where
  pub Triple-bind :
      (m : M A) (f : A → M B)
      → Triple P m R E
      → ((a : A) → Triple (R a) (f a) Q E)
      → Triple P (m >>= f) Q E
  unfolding ◌>>=◌
  Triple-bind m f t k = record { at = λ s p. After-continue (m s).0 f (m s).1 (t.at s p) k }

module _ {A : Type 0} {P E : Run → Type 0} {Q : A → Run → Type 0} where
  pub Triple-if :
      (b : Bool) (m n : M A)
      → (b ≡ true → Triple P m Q E)
      → (b ≡ false → Triple P n Q E)
      → Triple P (if b then m else n) Q E
  Triple-if true m n p q = p refl
  Triple-if false m n p q = q refl

  pub Triple-modify :
      (f : Core → Core) (m : M A) {R : Run → Type 0}
      → ((s : Run) → P s → R (record s { core = f s.core }))
      → Triple R m Q E
      → Triple P (modify_core f >>= λ _. m) Q E
  unfolding modify_core ◌>>=◌
  Triple-modify f m to t = record { at = λ s p. t.at _ (to s p) }

  pub Triple-get_core :
      (f : Core → M A)
      → ((c : Core) → Triple (λ s. P s × (s.core ≡ c)) (f c) Q E)
      → Triple P (get_core >>= f) Q E
  unfolding get_core ◌>>=◌
  Triple-get_core f k = record { at = λ s p. (k s.core).at s (p, refl) }

  pub Triple-read_aborted :
      (env : Environment) (f : Bool → M A)
      → ((b : Bool) → Triple (λ s. P s × (env.aborted s.clock ≡ b)) (f b) Q E)
      → Triple P (read_aborted env >>= f) Q E
  unfolding read_aborted ◌>>=◌
  Triple-read_aborted env f k = record { at = λ s p. (k (env.aborted s.clock)).at s (p, refl) }

  pub Triple-lift :
      {B : Type 0} (r : Result B) (f : B → M A)
      → ((b : B) → r ≡ return b → Triple P (f b) Q E)
      → ((s : Run) → P s → E s)
      → Triple P (lift r >>= f) Q E
  unfolding lift ◌>>=◌
  Triple-lift (return b) f k weaken = record { at = (k b refl).at }
  Triple-lift (throw e) f k weaken = record { at = weaken }

  pub Triple-try_catch :
      {F : Run → Type 0} (m : M A) (handler : Thrown → M A)
      → Triple P m Q F
      → ((e : Thrown) → Triple F (handler e) Q E)
      → Triple P (try_catch m handler) Q E
  unfolding try_catch
  Triple-try_catch m handler t k = record {
    at = λ s p. After-caught (m s).0 handler (m s).1 (t.at s p) k;
  }

  pub Triple-weaken :
      {P' : Run → Type 0} {m : M A} → Triple P m Q E → ((s : Run) → P' s → P s) → Triple P' m Q E
  Triple-weaken t to = record { at = λ s p. t.at s (to s p) }

  pub Triple-result :
      {Q' : A → Run → Type 0} {m : M A}
      → Triple P m Q' E
      → ((a : A) (s : Run) → Q' a s → Q a s)
      → Triple P m Q E
  Triple-result {Q'} {m} t to = record {
    at = λ s p. After-result E Q Q' (m s).0 (m s).1 (t.at s p) to;
  }

  pub Triple-forget : {m : M A} → Triple P m Q E → Triple P m Q Anything
  Triple-forget {m} t = record { at = λ s p. After-forget E Q (m s).0 (m s).1 (t.at s p) }

  -- A quiet action first.
  pub Triple-then :
      {env : Environment} {B : Type 0} (m : M B) (f : B → M A)
      → Quiet env m
      → Stable env P
      → ((t : Run) → P t → E t)
      → ((b : B) → Triple P (f b) Q E)
      → Triple P (m >>= f) Q E
  Triple-then m f q stable weaken k = Triple-bind m f (Triple-quiet m q stable weaken) k

-- The variables are known.
pub Triple-get_core_known :
    {A : Type 0} {E : Run → Type 0} {Q : A → Run → Type 0} (c : Core) (f : Core → M A)
    → Triple (λ s. s.core ≡ c) (f c) Q E
    → Triple (λ s. s.core ≡ c) (get_core >>= f) Q E
unfolding get_core ◌>>=◌
Triple-get_core_known {E} {Q} c f t = record {
  at = λ s p. subst (λ d. After Q E (f d s).0 (f d s).1) (sym p) (t.at s p);
}
