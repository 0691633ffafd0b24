-- ===== src/Processes/Tail.antt =====
-- The tail of the output is an end of all of it.
use datasheet_to_tscircuit.Prelude.{
  ℕ, zero, suc, ◌+◌, ◌-◌, ◌≤◌, List, [], ◌∷◌, ◌++◌, leb, leb→le, length, drop, length-drop,
  length-append, drop-drop, ◌≡◌, refl, sym, ◌∙◌, ap, arith, Bool-cases, inl, inr,
}
use datasheet_to_tscircuit.Logs.Bounded.{last}
use datasheet_to_tscircuit.Processes.Runner.{OutputChars, normalize_output_limit, append_tail}

pub normalize_output_limit-bounds :
    (value : OutputChars)
    → (1000 ≤ normalize_output_limit value) × (normalize_output_limit value ≤ 1000000)
unfolding normalize_output_limit
normalize_output_limit-bounds OutputChars.undefined_chars = (omega arith, omega arith)
normalize_output_limit-bounds OutputChars.not_finite = (omega arith, omega arith)
normalize_output_limit-bounds OutputChars.below_zero = (omega arith, omega arith)
normalize_output_limit-bounds (OutputChars.floored n) = (omega arith, omega arith)

append_tail-last :
    (current chunk : List ℕ) (limit : ℕ)
    → append_tail current chunk limit ≡ last limit (current ++ chunk)
unfolding append_tail
append_tail-last current chunk limit = elim (Bool-cases (leb (length (current ++ chunk)) limit)) [
  | inl fits ↦
      (let e : length (current ++ chunk) - limit ≡ 0 =
          let h = leb→le _ _ fits in omega (arith, h) in
        rw (fits, append_tail) (ap (λ n. drop n (current ++ chunk)) (sym e)))
  | inr long ↦ rw (long, append_tail) refl
]

drop-append : (n : ℕ) (xs ys : List ℕ) → n ≤ length xs → drop n (xs ++ ys) ≡ drop n xs ++ ys
drop-append zero xs ys h = refl
drop-append (suc n) [] ys h = absurd (omega (arith, h))
drop-append (suc n) (x ∷ xs) ys h = drop-append n xs ys (omega (arith, h))

-- The end of an end with more behind it.
pub append_tail-ends :
    (all chunk : List ℕ) (limit : ℕ)
    → append_tail (last limit all) chunk limit ≡ last limit (all ++ chunk)
append_tail-ends all chunk limit =
    let n = length all - limit in
    let joined = drop-append n all chunk (omega arith) in
    let shorter = length-drop n all in
    let sum = length-append all chunk in
    let sum' = length-append (drop n all) chunk in
    let e : n + (length (drop n all ++ chunk) - limit) ≡ length (all ++ chunk) - limit =
      omega (arith, shorter, sum, sum') in
    append_tail-last (drop n all) chunk limit
    ∙ ap (λ l. drop (length (drop n all ++ chunk) - limit) l) (sym joined)
    ∙ drop-drop (length (drop n all ++ chunk) - limit) n (all ++ chunk)
    ∙ ap (λ k. drop k (all ++ chunk)) e

pub length-last : (limit : ℕ) (xs : List ℕ) → length (last limit xs) ≤ limit
length-last limit xs = omega (arith, length-drop (length xs - limit) xs)
