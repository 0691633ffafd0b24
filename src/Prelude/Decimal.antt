-- ===== src/Prelude/Decimal.antt =====
-- The decimal text of a number determines the number.
use text.Mathlib.TextLemmas.{nil-append, cons-append}
use Prim.Native.Nat.{ℕ, zero, suc, ◌+◌, ◌-◌, ◌*◌, ◌/◌, ◌%◌, ◌<◌}
use Prim.Native.Char.{code}
use Prim.Native.String.{String}
use mathlib.Core.Path.{◌≡◌, refl, sym, ◌∙◌, ap}
use mathlib.Core.Logic.{inl, inr}
use mathlib.Core.List.{List, [], ◌∷◌, ◌++◌}
use native.Mathlib.Omega.{arith}
use datasheet_to_tscircuit.Prelude.Tests.{Bool-cases, leb}
use datasheet_to_tscircuit.Prelude.Text.{
  codes, ◌<>◌, decimal, decimal_from, digit_text, lower_code, lower_codes, ignoring_case,
}

pub codes-append : (s t : String) → codes (s <> t) ≡ codes s ++ codes t
codes-append String.[] t = ap codes (nil-append t)
codes-append (String.◌∷◌ c s) t =
    ap codes (cons-append c s t) ∙ ap (λ l. code c ∷ l) (codes-append s t)

-- The number that digits write behind the number `n`.
read_digits : ℕ → List ℕ → ℕ
read_digits n [] = n
read_digits n (c ∷ cs) = read_digits (n * 10 + (c - b'0')) cs

read_digits-append :
    (n : ℕ) (xs ys : List ℕ) → read_digits n (xs ++ ys) ≡ read_digits (read_digits n xs) ys
unfolding read_digits
read_digits-append n [] ys = refl
read_digits-append n (x ∷ xs) ys = read_digits-append (n * 10 + (x - b'0')) xs ys

read_digit : (n d : ℕ) → d < 10 → read_digits n (codes (digit_text d)) ≡ n * 10 + d
unfolding read_digits
read_digit n zero h = omega arith
read_digit n (suc zero) h = omega arith
read_digit n (suc (suc zero)) h = omega arith
read_digit n (suc (suc (suc zero))) h = omega arith
read_digit n (suc (suc (suc (suc zero)))) h = omega arith
read_digit n (suc (suc (suc (suc (suc zero))))) h = omega arith
read_digit n (suc (suc (suc (suc (suc (suc zero)))))) h = omega arith
read_digit n (suc (suc (suc (suc (suc (suc (suc zero))))))) h = omega arith
read_digit n (suc (suc (suc (suc (suc (suc (suc (suc zero)))))))) h = omega arith
read_digit n (suc (suc (suc (suc (suc (suc (suc (suc (suc zero))))))))) h = omega arith
read_digit n (suc (suc (suc (suc (suc (suc (suc (suc (suc (suc d)))))))))) h = omega arith

read_decimal_from : (f n : ℕ) → n < f → read_digits 0 (codes (decimal_from f n)) ≡ n
unfolding decimal_from
read_decimal_from zero n h = omega arith
read_decimal_from (suc f) n h = elim (Bool-cases (leb 10 n)) [
  | inl more ↦ rw more (
      ap (read_digits 0) (codes-append (decimal_from f (n / 10)) (digit_text (n % 10)))
      ∙ read_digits-append 0 (codes (decimal_from f (n / 10))) (codes (digit_text (n % 10)))
      ∙ ap (λ m. read_digits m (codes (digit_text (n % 10))))
          (read_decimal_from f (n / 10) (ground arith))
      ∙ read_digit (n / 10) (n % 10) (omega arith)
      ∙ omega arith)
  | inr last ↦ rw last (
      ap (λ t. read_digits 0 (codes t)) (nil-append (digit_text (n % 10)))
      ∙ read_digit 0 (n % 10) (omega arith)
      ∙ ground arith)
]

lower_codes-append : (xs ys : List ℕ) → lower_codes (xs ++ ys) ≡ lower_codes xs ++ lower_codes ys
lower_codes-append [] ys = refl
lower_codes-append (x ∷ xs) ys = ap (λ l. lower_code x ∷ l) (lower_codes-append xs ys)

pub ignoring_case-append :
    (s t : String) → ignoring_case (s <> t) ≡ ignoring_case s ++ ignoring_case t
unfolding ignoring_case
ignoring_case-append s t =
    ap lower_codes (codes-append s t) ∙ lower_codes-append (codes s) (codes t)

ignoring_case-digit : (d : ℕ) → d < 10 → ignoring_case (digit_text d) ≡ codes (digit_text d)
unfolding ignoring_case
ignoring_case-digit zero h = refl
ignoring_case-digit (suc zero) h = refl
ignoring_case-digit (suc (suc zero)) h = refl
ignoring_case-digit (suc (suc (suc zero))) h = refl
ignoring_case-digit (suc (suc (suc (suc zero)))) h = refl
ignoring_case-digit (suc (suc (suc (suc (suc zero))))) h = refl
ignoring_case-digit (suc (suc (suc (suc (suc (suc zero)))))) h = refl
ignoring_case-digit (suc (suc (suc (suc (suc (suc (suc zero))))))) h = refl
ignoring_case-digit (suc (suc (suc (suc (suc (suc (suc (suc zero)))))))) h = refl
ignoring_case-digit (suc (suc (suc (suc (suc (suc (suc (suc (suc zero))))))))) h = refl
ignoring_case-digit (suc (suc (suc (suc (suc (suc (suc (suc (suc (suc d)))))))))) h =
    absurd (omega (arith, h))

ignoring_case-decimal_from : (f n : ℕ) → ignoring_case (decimal_from f n) ≡ codes (decimal_from f n)
unfolding decimal_from ignoring_case
ignoring_case-decimal_from zero n = refl
ignoring_case-decimal_from (suc f) n = elim (Bool-cases (leb 10 n)) [
  | inl more ↦ rw more (both (decimal_from f (n / 10)) (ignoring_case-decimal_from f (n / 10)))
  | inr last ↦ rw last (both "" refl)
]
  where
    both :
        (s : String)
        → ignoring_case s ≡ codes s
        → ignoring_case (s <> digit_text (n % 10)) ≡ codes (s <> digit_text (n % 10))
    both s h =
        ignoring_case-append s (digit_text (n % 10))
        ∙ ap (λ l. l ++ ignoring_case (digit_text (n % 10))) h
        ∙ ap (λ l. codes s ++ l) (ignoring_case-digit (n % 10) (omega arith))
        ∙ sym (codes-append s (digit_text (n % 10)))

-- Two numbers with the same text are the same, also when the case of letters is ignored.
pub decimal_injective : (m n : ℕ) → ignoring_case (decimal m) ≡ ignoring_case (decimal n) → m ≡ n
unfolding decimal
decimal_injective m n h =
    sym (read_decimal_from (suc m) m (omega arith))
    ∙ ap (read_digits 0)
        (sym (ignoring_case-decimal_from (suc m) m) ∙ h ∙ ignoring_case-decimal_from (suc n) n)
    ∙ read_decimal_from (suc n) n (omega arith)
