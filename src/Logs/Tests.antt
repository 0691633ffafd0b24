-- ===== src/Logs/Tests.antt =====
-- Runs of the definitions, and the theorems at concrete inputs.
use datasheet_to_tscircuit.Prelude.{
  ℕ, ◌≤◌, ◌<◌, ◌*◌, max, none, some, List, [], ◌∷◌, ◌++◌, length, drop, if◌then◌else◌, ltb, sym, ap,
  ◌∙◌, ◌≡◌, ◌⊎◌, refl, arith,
}
use datasheet_to_tscircuit.Logs.Bounded.{
  LogFiles, Utf8, prepare_bounded_log_event, read_bounded_utf8_tail, append_bounded_log_event_now,
  persisted_log_event_byte_limit,
}
use datasheet_to_tscircuit.Logs.Tails.{IsTailAt, read_bounded_utf8_tail-IsTailAt}
use datasheet_to_tscircuit.Logs.Files.{Utf8Laws, IsBounded, append_bounded_log_event_now-IsBounded}

program : Unit {0}
unfolding prepare_bounded_log_event read_bounded_utf8_tail append_bounded_log_event_now
program = tt

-- An event of 60,000 bytes for each unit of its message.
abbrev bytes : List ℕ → ℕ
bytes message = 60000 * length message

cut : prepare_bounded_log_event bytes (0 ∷ []) (1 ∷ 2 ∷ 3 ∷ 4 ∷ 5 ∷ []) ≡ 0 ∷ 3 ∷ 4 ∷ 5 ∷ []
unfolding program
cut = refl

-- Two lines of three bytes.
abbrev lines : List ℕ
lines = 1 ∷ 2 ∷ 10 ∷ 3 ∷ 4 ∷ 10 ∷ []

-- ASCII texts; all else is written and read as a question mark.
abbrev unit : ℕ → ℕ
unit c = if ltb c 128 then c else 63

abbrev units : List ℕ → List ℕ
units [] = []
units (c ∷ cs) = unit c ∷ units cs

abbrev ascii : Utf8 (List ℕ)
ascii = record { encode = units; decode = units }

units-units : (cs : List ℕ) → units (units cs) ≡ units cs
units-units [] = refl
units-units (c ∷ cs) = rw (units-units cs) (ap (λ d. d ∷ units cs) (ground arith))

units-append : (xs ys : List ℕ) → units (xs ++ ys) ≡ units xs ++ units ys
units-append [] ys = refl
units-append (x ∷ xs) ys = ap (λ l. unit x ∷ l) (units-append xs ys)

ascii-laws : Utf8Laws ascii
ascii-laws = record {
  valid_text = λ text. ap units (units-units text) ∙ units-units text;
  valid_nil = refl;
  valid_append = λ xs ys p q.
      units-units (xs ++ ys)
      ∙ units-append xs ys
      ∙ ap (λ l. l ++ units ys) (sym (units-units xs) ∙ p)
      ∙ ap (λ l. xs ++ l) (sym (units-units ys) ∙ q);
}

tails :
    (read_bounded_utf8_tail ascii lines 3 ≡ 3 ∷ 4 ∷ 10 ∷ [])
    × (read_bounded_utf8_tail ascii lines 5 ≡ 3 ∷ 4 ∷ 10 ∷ [])
    × (read_bounded_utf8_tail ascii lines 2 ≡ [])
unfolding program
tails = (refl, refl, refl)

read_bounded_utf8_tail-IsTailAt_example :
    (k : ℕ) × (read_bounded_utf8_tail ascii lines 3 ≡ ascii.decode (drop k lines))
    × IsTailAt lines (max 1 3) k
read_bounded_utf8_tail-IsTailAt_example = read_bounded_utf8_tail-IsTailAt ascii lines 3

abbrev files : LogFiles
files = record { current = lines; archive = [] }

files-IsBounded : IsBounded ascii files
files-IsBounded = record {
  current_bound = omega arith;
  archive_bound = omega arith;
  current_valid = refl;
  archive_valid = refl;
}

abbrev line : List ℕ
line = 5 ∷ 10 ∷ []

append_bounded_log_event_now-IsBounded_example :
    ((append_bounded_log_event_now ascii line files ≡ none)
      × (persisted_log_event_byte_limit < length line))
    ⊎ ((length line ≤ persisted_log_event_byte_limit)
        × ((after : LogFiles) × (append_bounded_log_event_now ascii line files ≡ some after)
            × IsBounded ascii after
            × ((before : List ℕ) × (after.archive ++ after.current ≡ before ++ (lines ++ line)))))
append_bounded_log_event_now-IsBounded_example =
    append_bounded_log_event_now-IsBounded ascii line files ascii-laws files-IsBounded
