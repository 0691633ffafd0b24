-- ===== src/Prelude/Text.antt =====
-- Text over its code points, and the patterns that the program tests with regular expressions.
use Prim.Native.Nat.{ℕ, zero, suc, ◌+◌, ◌-◌, ◌/◌, ◌%◌}
use Prim.Native.Char.{code}
use Prim.Native.String
use Prim.Native.String.{String}
use mathlib.Core.Bool.{Bool, true, false, ◌&&◌, ◌||◌}
use mathlib.Core.List.{List, [], ◌∷◌}
use mathlib.Core.Option.{Option, none, some}
use mathlib.Core.Option
use datasheet_to_tscircuit.Prelude.Tests.{leb, ◌==◌, if◌then◌else◌}
use datasheet_to_tscircuit.Prelude.Lists.{length}

infixl 65 ◌<>◌
abbrev pub ◌<>◌ : String → String → String
a <> b = String.◌++◌ a b

abbrev pub codes : String → List ℕ
codes String.[] = []
codes (String.◌∷◌ c s) = code c ∷ codes s

abbrev pub between : ℕ → ℕ → ℕ → Bool
between lo hi c = leb lo c && leb c hi

abbrev pub is_digit : ℕ → Bool
is_digit c = between b'0' b'9' c

abbrev pub is_lower : ℕ → Bool
is_lower c = between b'a' b'z' c

abbrev pub is_upper : ℕ → Bool
is_upper c = between b'A' b'Z' c

-- The white space that `String.prototype.trim` removes.
unfoldable pub is_space : ℕ → Bool
is_space c =
    between 9 13 c
    || c == 32
    || c == 160
    || c == 0x1680
    || between 0x2000 0x200a c
    || c == 0x2028
    || c == 0x2029
    || c == 0x202f
    || c == 0x205f
    || c == 0x3000
    || c == 0xfeff

-- `!text.trim()`
unfoldable pub is_blank : List ℕ → Bool
unfolding is_space
is_blank [] = true
is_blank (c ∷ cs) = is_space c && is_blank cs

abbrev pub lower_code : ℕ → ℕ
lower_code c = if is_upper c then c + 32 else c

-- The codes of `text.toLowerCase()`, for a text of ASCII.
abbrev pub lower_codes : List ℕ → List ℕ
lower_codes [] = []
lower_codes (c ∷ cs) = lower_code c ∷ lower_codes cs

unfoldable pub ignoring_case : String → List ℕ
ignoring_case s = lower_codes (codes s)

abbrev pub all {ℓ} : {A : Type ℓ} → (A → Bool) → List A → Bool
all p [] = true
all p (x ∷ xs) = p x && all p xs

unfoldable pub contains_code : ℕ → List ℕ → Bool
contains_code c [] = false
contains_code c (d ∷ ds) = d == c || contains_code c ds

abbrev pub digit_text : ℕ → String
digit_text n =
    if n == 0
    then "0"
    else if n == 1
    then "1"
    else if n == 2
    then "2"
    else if n == 3
    then "3"
    else if n == 4
    then "4"
    else if n == 5
    then "5"
    else if n == 6
    then "6"
    else if n == 7
    then "7"
    else if n == 8
    then "8"
    else "9"

-- One digit for each round; the fuel `n + 1` of `decimal` is enough, since a round divides by 10.
unfoldable pub decimal_from : ℕ → ℕ → String
decimal_from zero n = ""
decimal_from (suc f) n =
    let higher = decimal_from f (n / 10) in (if leb 10 n then higher else "") <> digit_text (n % 10)

-- `String(n)` for a natural number.
unfoldable pub decimal : ℕ → String
unfolding decimal_from
decimal n = decimal_from (suc n) n

unfoldable pub repeat_text : ℕ → String → String
repeat_text zero s = ""
repeat_text (suc n) s = s <> repeat_text n s

-- `s.padStart(width, fill)` for a `fill` of one character.
unfoldable pub pad_start : ℕ → String → String → String
unfolding repeat_text
pad_start width fill s = repeat_text (width - length (codes s)) fill <> s

-- `list.join(separator)`
unfoldable pub join_text : String → List String → String
join_text separator [] = ""
join_text separator (s ∷ []) = s
join_text separator (s ∷ t ∷ ts) = s <> (separator <> join_text separator (t ∷ ts))

-- `text.indexOf(character)`; `none` is -1.
unfoldable pub index_of : ℕ → String → Option ℕ
index_of d String.[] = none
index_of d (String.◌∷◌ c s) =
    let rest = index_of d s in if code c == d then some 0 else Option.map suc rest

-- `text.slice(0, n)` and `text.slice(n)`
unfoldable pub take_text : ℕ → String → String
take_text zero s = ""
take_text (suc n) String.[] = ""
take_text (suc n) (String.◌∷◌ c s) = String.◌∷◌ c (take_text n s)

unfoldable pub drop_text : ℕ → String → String
drop_text zero s = s
drop_text (suc n) String.[] = ""
drop_text (suc n) (String.◌∷◌ c s) = drop_text n s

abbrev hex_digit : ℕ → String
hex_digit n =
    if n == 10
    then "a"
    else if n == 11
    then "b"
    else if n == 12
    then "c"
    else if n == 13
    then "d"
    else if n == 14
    then "e"
    else if n == 15
    then "f"
    else digit_text n

-- A character inside a JSON text.
escape_code : ℕ → String → String
escape_code c s =
    if c == 34
    then "\\\""
    else if c == 92
    then "\\\\"
    else if c == 8
    then "\\b"
    else if c == 9
    then "\\t"
    else if c == 10
    then "\\n"
    else if c == 12
    then "\\f"
    else if c == 13
    then "\\r"
    else if leb c 15
    then "\\u000" <> hex_digit c
    else if leb c 31
    then "\\u001" <> hex_digit (c - 16)
    else s

escape_text : String → String
unfolding escape_code
escape_text String.[] = ""
escape_text (String.◌∷◌ c s) = escape_code (code c) (String.◌∷◌ c "") <> escape_text s

-- `JSON.stringify(text)`
unfoldable pub quote : String → String
unfolding escape_text
quote s = "\"" <> escape_text s <> "\""

-- `text.startsWith(prefix)`, with `text.slice(prefix.length)`
unfoldable pub strip_prefix : (prefix text : String) → Option String
strip_prefix String.[] s = some s
strip_prefix (String.◌∷◌ c p) String.[] = none
strip_prefix (String.◌∷◌ c p) (String.◌∷◌ d s) =
    let rest = strip_prefix p s in if code c == code d then rest else none
