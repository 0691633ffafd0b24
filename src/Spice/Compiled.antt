-- ===== src/Spice/Compiled.antt =====
-- spice-validation/compiler.ts: the end of a step of the compiler, a value or a `ValidationCompileError`.
use datasheet_to_tscircuit.Prelude.{String, List, [], ◌∷◌, ◌≡◌, refl, Option, none, some}

pub data Compiled (A : Type 0) : Type 0 where
  compiled : A → Compiled A
  compile_error : (message : String) → Compiled A

module _ {A B : Type 0} where
  infixl 5 ◌>>=◌
  abbrev pub ◌>>=◌ : Compiled A → (A → Compiled B) → Compiled B
  compiled a >>= f = f a
  compile_error message >>= f = compile_error message

  pub bind-eq-compiled :
      (m : Compiled A) (f : A → Compiled B) {b : B}
      → (m >>= f) ≡ compiled b
      → (a : A) × (m ≡ compiled a) × (f a ≡ compiled b)
  bind-eq-compiled (compiled a) f h = (a, refl, h)
  bind-eq-compiled (compile_error message) f h = cc

module _ {A B : Type 0} where
  -- `items.map(step)`, where a step can throw
  abbrev pub compile_all : (A → Compiled B) → List A → Compiled (List B)
  compile_all f [] = compiled []
  compile_all f (x ∷ xs) = f x >>= λ y. elim (compile_all f xs) [
    | compiled ys ↦ compiled (y ∷ ys)
    | compile_error message ↦ compile_error message
  ]

-- A missing value is an error.
abbrev pub required : {A : Type 0} → (message : String) → Option A → Compiled A
required message none = compile_error message
required message (some a) = compiled a
