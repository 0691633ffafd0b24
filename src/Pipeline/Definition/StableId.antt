-- ===== src/Pipeline/Definition/StableId.antt =====
-- What the pattern of stable ids, /^[a-z][a-z0-9]*(?:_[a-z0-9]+)*$/, describes.
use datasheet_to_tscircuit.Prelude.{
  ℕ, is_digit, is_lower, all, ◌≡◌, refl, ap, ◌∙◌, ◌≢◌, ◌↔◌, inl, inr, Bool, true, false, ◌||◌, List,
  [], ◌∷◌, ◌++◌, All, Bool-cases, arith,
}
use datasheet_to_tscircuit.Pipeline.Definition.{stable_rest, is_stable_id}

-- [a-z0-9]
abbrev pub is_word_code : ℕ → Bool
is_word_code c = is_lower c || is_digit c

-- [a-z0-9]+
abbrev pub IsPart : List ℕ → Type 0
IsPart v = (v ≢ []) × (all is_word_code v ≡ true)

-- Each part after an underscore.
abbrev pub joined : List (List ℕ) → List ℕ
joined [] = []
joined (v ∷ vs) = b'_' ∷ (v ++ joined vs)

-- A lowercase letter, letters and digits, and then parts that each follow on an underscore.
pub record IsSnakeCase (cs : List ℕ) : Type 0 where
  pub first : ℕ
  pub word : List ℕ
  pub parts : List (List ℕ)
  pub lower : is_lower first ≡ true
  pub letters : all is_word_code word ≡ true
  pub are_parts : All IsPart parts
  pub spelled : cs ≡ first ∷ (word ++ joined parts)

-- A rest of an id, split at its underscores.
record IsSplit (within : Bool) (cs : List ℕ) : Type 0 where
  word : List ℕ
  parts : List (List ℕ)
  letters : all is_word_code word ≡ true
  started : within ≡ false → word ≢ []
  are_parts : All IsPart parts
  spelled : cs ≡ word ++ joined parts

split : (within : Bool) (cs : List ℕ) → stable_rest within cs ≡ true → IsSplit within cs
unfolding stable_rest
split within [] h = record {
  word = [];
  parts = [];
  letters = refl;
  started = λ e. cc;
  are_parts = tt;
  spelled = refl;
}
split within (c ∷ cs) h = elim (Bool-cases (is_word_code c)) [
  | inl word ↦
      let q = split true cs (ground (arith, h, word)) in
      record {
        word = c ∷ q.word;
        parts = q.parts;
        letters = ground (arith, word, q.letters);
        started = λ e n. cc;
        are_parts = q.are_parts;
        spelled = ap (λ l. c ∷ l) q.spelled;
      }
  | inr other ↦
      let q = split false cs (ground (arith, h, other)) in
      let it_is : c ≡ b'_' = ground (arith, h, other) in
      record {
        word = [];
        parts = q.word ∷ q.parts;
        letters = refl;
        started = λ e. ground (arith, h, other, e);
        are_parts = ((q.started refl, q.letters), q.are_parts);
        spelled = ap (λ l. c ∷ l) q.spelled ∙ ap (λ x. x ∷ (q.word ++ joined q.parts)) it_is;
      }
]

unsplit :
    (parts : List (List ℕ)) (word : List ℕ) (within : Bool)
    → all is_word_code word ≡ true
    → (within ≡ false → word ≢ [])
    → All IsPart parts
    → stable_rest within (word ++ joined parts) ≡ true
unfolding stable_rest
unsplit [] [] true letters started are_parts = refl
unsplit [] [] false letters started are_parts = absurd (started refl refl)
unsplit (v ∷ vs) [] false letters started are_parts = absurd (started refl refl)
unsplit (v ∷ vs) [] true letters started ((filled, word), rest) =
    unsplit vs v false word (λ _. filled) rest
unsplit parts (c ∷ word) within letters started are_parts =
    ground
      (arith, letters, unsplit parts word true (ground (arith, letters)) (λ e n. cc e) are_parts)

-- The test of an id accepts exactly the texts in snake case: a lowercase letter, then letters and
-- digits, then any number of parts that are an underscore with at least one letter or digit after it.
pub is_stable_id_iff : (cs : List ℕ) → (is_stable_id cs ≡ true) ↔ IsSnakeCase cs
unfolding is_stable_id
is_stable_id_iff [] = (λ h. cc, λ p. cc p.spelled)
is_stable_id_iff (c ∷ cs) = (
  λ h.
      let q = split true cs (ground (arith, h)) in
      record {
        first = c;
        word = q.word;
        parts = q.parts;
        lower = ground (arith, h);
        letters = q.letters;
        are_parts = q.are_parts;
        spelled = ap (λ l. c ∷ l) q.spelled;
      },
  λ p.
      let head : c ≡ p.first = cc p.spelled in
      let tail : cs ≡ p.word ++ joined p.parts = cc p.spelled in
      rw (head, tail, p.lower) (unsplit p.parts p.word true p.letters (λ e. cc e) p.are_parts),
)
