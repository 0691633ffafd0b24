-- ===== src/Pipeline/Result.antt =====
-- The end of a synchronous step: a value, or what it throws.
use datasheet_to_tscircuit.Prelude.{◌≡◌, refl}
use datasheet_to_tscircuit.Pipeline.Errors.{Thrown}

pub data Result (A : Type 0) : Type 0 where
  return : A → Result A
  throw : Thrown → Result A

module _ {A B : Type 0} where
  infixl 5 ◌>>=◌
  abbrev pub ◌>>=◌ : Result A → (A → Result B) → Result B
  return a >>= f = f a
  throw e >>= f = throw e

  infixl 5 ◌>>◌
  abbrev pub ◌>>◌ : Result A → Result B → Result B
  m >> k = m >>= λ _. k

  pub bind-eq-return :
      (m : Result A) (f : A → Result B) {b : B}
      → (m >>= f) ≡ return b
      → (a : A) × (m ≡ return a) × (f a ≡ return b)
  bind-eq-return (return a) f h = (a, refl, h)
  bind-eq-return (throw e) f h = cc
