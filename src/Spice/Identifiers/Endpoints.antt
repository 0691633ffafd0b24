-- ===== src/Spice/Identifiers/Endpoints.antt =====
-- The syntax of endpoints.
use Prim.Native.Char.{Char, code}
use text.Mathlib.TextEquality.{Char-path}
use text.Mathlib.TextLemmas.{nil-append, cons-append, append_assoc}
use datasheet_to_tscircuit.Prelude.{
  ℕ, zero, suc, String, true, false, ◌||◌, ◌&&◌, none, some, List, [], ◌∷◌, ◌==◌, str_eq, eq_iff,
  ◌<>◌, codes, all, index_of, take_text, drop_text, ◌≡◌, ◌≢◌, ◌↔◌, inl, inr, refl, sym, ◌∙◌, ap,
  arith, Option-cases, Bool-cases, subst, if-eq-some, if-none-eq-some, &&-eq-true,
}
use datasheet_to_tscircuit.Spice.Identifiers.{
  is_word, is_identifier, is_spice_node, ParsedEndpoint, gnd, dut, net, endpoint_of, parse_at,
  parse_endpoint_syntax,
}

-- The text of an endpoint.
abbrev pub print_endpoint : ParsedEndpoint → String
print_endpoint gnd = "gnd"
print_endpoint (dut identifier) = "dut." <> identifier
print_endpoint (net identifier) = "net." <> identifier

-- An endpoint whose name is one of a node of a model, or of a net.
unfoldable pub IsEndpoint : ParsedEndpoint → Type 0
IsEndpoint gnd = Unit
IsEndpoint (dut identifier) = is_spice_node (codes identifier) ≡ true
IsEndpoint (net identifier) = is_identifier (codes identifier) ≡ true

dot-append : (t : String) → "." <> t ≡ String.◌∷◌ "." t
dot-append t = cons-append "." "" t ∙ ap (λ u. String.◌∷◌ "." u) (nil-append t)

pub index_of_splits :
    (d : ℕ) (s : String) (i : ℕ)
    → index_of d s ≡ some i
    → (c : Char) × (code c ≡ d) × (s ≡ take_text i s <> String.◌∷◌ c (drop_text (suc i) s))
unfolding index_of take_text drop_text
index_of_splits d String.[] i h = cc
index_of_splits d (String.◌∷◌ c s) zero h = (c, ground arith, sym (nil-append (String.◌∷◌ c s)))
index_of_splits d (String.◌∷◌ c s) (suc i) h =
    let (e, code_d, split) = index_of_splits d s i (ground arith) in
    (
      e,
      code_d,
      ap (λ t. String.◌∷◌ c t) split
          ∙ sym (cons-append c (take_text i s) (String.◌∷◌ e (drop_text (suc i) s))),
    )

-- A word holds no separator.
index_of-word : (s : String) → all is_word (codes s) ≡ true → index_of b'.' s ≡ none
unfolding index_of
index_of-word String.[] h = refl
index_of-word (String.◌∷◌ c s) h = ground (arith, index_of-word s)

endpoint_of_reads :
    (scope identifier : String) (p : ParsedEndpoint)
    → endpoint_of scope identifier ≡ some p
    → (scope <> ("." <> identifier) ≡ print_endpoint p) × IsEndpoint p
unfolding endpoint_of IsEndpoint
endpoint_of_reads scope identifier p h =
    elim (if-eq-some (str_eq scope "dut" && is_spice_node (codes identifier)) (dut identifier) _
      h) [
        | inl (b, e) ↦
            let (s, node) = &&-eq-true (str_eq scope "dut") (is_spice_node (codes identifier)) b in
            subst (λ q. (scope <> ("." <> identifier) ≡ print_endpoint q) × IsEndpoint q) e
              (rw ((eq_iff scope "dut").0 s) (sym (append_assoc "dut" "." identifier)), node)
        | inr rest ↦
            elim (if-eq-some (str_eq scope "net" && is_identifier (codes identifier))
              (net identifier) _ rest) [
                | inl (b, e) ↦
                    let (s, node) =
                      &&-eq-true (str_eq scope "net") (is_identifier (codes identifier)) b in
                    subst (λ q. (scope <> ("." <> identifier) ≡ print_endpoint q) × IsEndpoint q) e
                      (
                        rw ((eq_iff scope "net").0 s) (sym (append_assoc "net" "." identifier)),
                        node,
                      )
                | inr none_left ↦ cc
              ]
      ]

parse_at_reads :
    (i : ℕ) (value : String) (p : ParsedEndpoint)
    → index_of b'.' value ≡ some i
    → parse_at i value ≡ some p
    → (value ≡ print_endpoint p) × IsEndpoint p
unfolding parse_at
parse_at_reads i value p found h =
    let (c, e, split) = index_of_splits b'.' value i found in
    let identifier = drop_text (suc i) value in
    let (_, inner) = if-none-eq-some (i == 0 || str_eq identifier "") _ h in
    elim (Option-cases (index_of b'.' identifier)) [
      | inl alone ↦
          let (text, valid) =
            endpoint_of_reads (take_text i value) identifier p (rw alone at inner) in
          (
            split
                ∙ ap (λ t. take_text i value <> t)
                    (ap (λ d. String.◌∷◌ d identifier) (Char-path c "." e)
                      ∙ sym (dot-append identifier))
                ∙ text,
            valid,
          )
      | inr (j, more) ↦ cc (rw more at inner)
    ]

three-append :
    (a b c : Char) (t : String)
    → String.◌∷◌ a (String.◌∷◌ b (String.◌∷◌ c (String.◌∷◌ "." ""))) <> t
      ≡ String.◌∷◌ a (String.◌∷◌ b (String.◌∷◌ c (String.◌∷◌ "." t)))
three-append a b c t = simp (cons-append, dot-append)

-- A separator is no part of `gnd`.
gnd-ne_of_index : (s : String) (i : ℕ) → index_of b'.' s ≡ some i → str_eq s "gnd" ≡ false
unfolding index_of
gnd-ne_of_index s i h = elim (Bool-cases (str_eq s "gnd")) [
  | inl same ↦ cc (subst (λ t. index_of b'.' t ≡ some i) ((eq_iff s "gnd").0 same) h)
  | inr other ↦ other
]

is_spice_node-IsWord : (cs : List ℕ) → is_spice_node cs ≡ true → (all is_word cs ≡ true) × (cs ≢ [])
unfolding is_spice_node
is_spice_node-IsWord [] h = cc
is_spice_node-IsWord (c ∷ cs) h = (ground arith, λ e. cc)

is_identifier-IsWord : (cs : List ℕ) → is_identifier cs ≡ true → (all is_word cs ≡ true) × (cs ≢ [])
unfolding is_identifier
is_identifier-IsWord [] h = cc
is_identifier-IsWord (c ∷ cs) h = (ground arith, λ e. cc)

str_eq-filled : (s : String) → codes s ≢ [] → str_eq s "" ≡ false
str_eq-filled s h = elim (Bool-cases (str_eq s "")) [
  | inl same ↦ absurd (h (ap codes ((eq_iff s "").0 same)))
  | inr other ↦ other
]

-- The syntax reads a word behind a scope.
parse_dut :
    (identifier : String)
    → all is_word (codes identifier) ≡ true
    → codes identifier ≢ []
    → parse_endpoint_syntax ("dut." <> identifier) ≡ endpoint_of "dut" identifier
unfolding parse_endpoint_syntax parse_at index_of take_text drop_text
parse_dut identifier word filled =
    ap parse_endpoint_syntax (three-append "d" "u" "t" identifier) ∙ scoped
  where
    scoped :
        parse_endpoint_syntax
          (String.◌∷◌ "d" (String.◌∷◌ "u" (String.◌∷◌ "t" (String.◌∷◌ "." identifier))))
        ≡ endpoint_of "dut" identifier
    scoped =
        rw
          (
            gnd-ne_of_index
                (String.◌∷◌ "d" (String.◌∷◌ "u" (String.◌∷◌ "t" (String.◌∷◌ "." identifier)))) 3
                refl,
            str_eq-filled identifier filled,
            index_of-word identifier word,
          )
          refl

parse_net :
    (identifier : String)
    → all is_word (codes identifier) ≡ true
    → codes identifier ≢ []
    → parse_endpoint_syntax ("net." <> identifier) ≡ endpoint_of "net" identifier
unfolding parse_endpoint_syntax parse_at index_of take_text drop_text
parse_net identifier word filled =
    ap parse_endpoint_syntax (three-append "n" "e" "t" identifier) ∙ scoped
  where
    scoped :
        parse_endpoint_syntax
          (String.◌∷◌ "n" (String.◌∷◌ "e" (String.◌∷◌ "t" (String.◌∷◌ "." identifier))))
        ≡ endpoint_of "net" identifier
    scoped =
        rw
          (
            gnd-ne_of_index
                (String.◌∷◌ "n" (String.◌∷◌ "e" (String.◌∷◌ "t" (String.◌∷◌ "." identifier)))) 3
                refl,
            str_eq-filled identifier filled,
            index_of-word identifier word,
          )
          refl

-- The text of a valid endpoint is read as this endpoint.
pub parse-print_endpoint :
    (p : ParsedEndpoint) → IsEndpoint p → parse_endpoint_syntax (print_endpoint p) ≡ some p
unfolding IsEndpoint parse_endpoint_syntax endpoint_of
parse-print_endpoint gnd h = refl
parse-print_endpoint (dut identifier) h =
    let (word, filled) = is_spice_node-IsWord (codes identifier) h in
    parse_dut identifier word filled ∙ rw h refl
parse-print_endpoint (net identifier) h =
    let (word, filled) = is_identifier-IsWord (codes identifier) h in
    parse_net identifier word filled ∙ rw h refl

-- The syntax accepts exactly the texts of the valid endpoints, which are `gnd`, `dut.` with the name
-- of a SPICE node and `net.` with an identifier, and reads each text as its endpoint.
pub parse_endpoint_syntax_iff :
    (value : String) (p : ParsedEndpoint)
    → (parse_endpoint_syntax value ≡ some p) ↔ ((value ≡ print_endpoint p) × IsEndpoint p)
unfolding parse_endpoint_syntax IsEndpoint
parse_endpoint_syntax_iff value p =
    (read, λ h. ap parse_endpoint_syntax h.0 ∙ parse-print_endpoint p h.1)
  where
    scan :
        (elim (index_of b'.' value) [ none ↦ none | some i ↦ parse_at i value ]) ≡ some p
        → (value ≡ print_endpoint p) × IsEndpoint p
    scan h = elim (Option-cases (index_of b'.' value)) [
      | inl missing ↦ cc (rw missing at h)
      | inr (i, found) ↦ parse_at_reads i value p found (rw found at h)
    ]

    read : parse_endpoint_syntax value ≡ some p → (value ≡ print_endpoint p) × IsEndpoint p
    read h = elim (if-eq-some (str_eq value "gnd") gnd _ h) [
      | inl (same, e) ↦
          subst (λ q. (value ≡ print_endpoint q) × IsEndpoint q) e ((eq_iff value "gnd").0 same, tt)
      | inr rest ↦ scan rest
    ]
