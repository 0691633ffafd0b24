-- ===== src/Logs/Tails.antt =====
-- The recent logs, and the place from which the tail of a file is read.
use mathlib.Core.Option.{some_inj}
use datasheet_to_tscircuit.Prelude.{
  ℕ, false, zero, suc, ◌+◌, ◌-◌, ◌≤◌, ◌<◌, max, List, [], ◌∷◌, ◌==◌, ==_iff, length, drop,
  length-drop, get_or, get_elem?, get_elem?-drop, get_elem?-or, drop-drop, some, ◌≡◌, ◌⊎◌, inl, inr,
  refl, sym, ◌∙◌, ap, arith, Bool-cases,
}
use datasheet_to_tscircuit.Logs.Bounded.{
  recent_log_event_limit, cap_recent_logs, newline, Utf8, after_newline, cut_tail,
  read_bounded_utf8_tail,
}

-- The recent logs are the last of all logs, no more than the limit, and all of them up to it.
pub cap_recent_logs-length :
    {A : Type 0} (logs : List A)
    → (length (cap_recent_logs logs) ≤ recent_log_event_limit)
      × (length logs ≤ recent_log_event_limit → cap_recent_logs logs ≡ logs)
unfolding cap_recent_logs
cap_recent_logs-length logs = (
  omega (arith, length-drop (length logs - 500) logs),
  λ h. let e : length logs - 500 ≡ 0 = omega (arith, h) in ap (λ n. drop n logs) e,
)

-- A place of a file where a line begins, or its end.
abbrev pub BeginsLine : (bytes : List ℕ) → ℕ → Type 0
BeginsLine bytes zero = Unit
BeginsLine bytes (suc k) = (suc k ≡ length bytes) ⊎ (get_elem? bytes k ≡ some newline)

-- The first place behind a newline, or the end.
record IsAfter (bytes : List ℕ) (k : ℕ) : Type 0 where
  inside : k ≤ length bytes
  begins : (k ≡ length bytes) ⊎ ((i : ℕ) × (k ≡ suc i) × (get_elem? bytes i ≡ some newline))
  least : (i : ℕ) → get_elem? bytes i ≡ some newline → k ≤ suc i

IsAfter-cons :
    (b : ℕ) (bytes : List ℕ) (k : ℕ)
    → (b == newline) ≡ false
    → IsAfter bytes k
    → IsAfter (b ∷ bytes) (suc k)
IsAfter-cons b bytes k other a = record {
  inside = omega (arith, a.inside);
  begins = elim a.begins [
    | inl end ↦ inl (omega (arith, end))
    | inr (i, e, n) ↦ inr (suc i, omega (arith, e), n)
  ];
  least = first;
}
  where
    first : (i : ℕ) → get_elem? (b ∷ bytes) i ≡ some newline → suc k ≤ suc i
    first zero h = absurd (cc (other, (==_iff b newline).1 (some_inj.0 h)))
    first (suc i) h = omega (arith, a.least i h)

after_newline-drop :
    (bytes : List ℕ) → (k : ℕ) × (after_newline bytes ≡ drop k bytes) × IsAfter bytes k
unfolding after_newline
after_newline-drop [] =
    (0, refl, record { inside = omega arith; begins = inl refl; least = λ i h. cc })
after_newline-drop (b ∷ bytes) = elim (Bool-cases (b == newline)) [
  | inl end ↦ (
    1,
    rw (end, after_newline) refl,
    record {
      inside = omega arith;
      begins = inr (0, refl, ap some ((==_iff b newline).0 end));
      least = λ i h. omega arith;
    },
  )
  | inr other ↦
      let (k, e, a) = after_newline-drop bytes in
      (suc k, rw (other, after_newline) e, IsAfter-cons b bytes k other a)
]

-- Where the tail of a file begins: of the places where a line begins, and the end, the first one from
-- which there are no more bytes than the bound.
pub record IsTailAt (bytes : List ℕ) (bound k : ℕ) : Type 0 where
  pub inside : k ≤ length bytes
  pub short : length bytes - k ≤ bound
  pub begins : BeginsLine bytes k
  pub least : (j : ℕ) → BeginsLine bytes j → length bytes - j ≤ bound → k ≤ j

-- The place from which the tail is cut.
cut_tail-IsTailAt :
    (bytes : List ℕ) (bound n : ℕ)
    → n ≡ length bytes - bound
    → (k : ℕ) × (cut_tail n bytes ≡ drop k bytes) × IsTailAt bytes bound k
unfolding cut_tail
cut_tail-IsTailAt bytes bound zero e = (
  0,
  refl,
  record {
    inside = omega arith;
    short = omega (arith, e);
    begins = tt;
    least = λ j b h. omega arith;
  },
)
cut_tail-IsTailAt bytes bound (suc n) e =
    let tail = drop (suc n) bytes in
    let there = get_elem?-or bytes n 0 (omega (arith, e)) in
    elim (Bool-cases (get_or bytes n 0 == newline)) [
      | inl end ↦ (
        suc n,
        rw (end, cut_tail) refl,
        record {
          inside = omega (arith, e);
          short = omega (arith, e);
          begins = inr (there ∙ ap some ((==_iff (get_or bytes n 0) newline).0 end));
          least = λ j b h. omega (arith, e, h);
        },
      )
      | inr amid ↦
          let (k, cut, after) = after_newline-drop tail in
          let place : suc n + k ≡ suc (n + k) = omega arith in
          (
            suc (n + k),
            rw (amid, cut_tail) (cut ∙ drop-drop k (suc n) bytes ∙ ap (λ m. drop m bytes) place),
            behind n e amid there k after,
          )
    ]
  where
    behind :
        (n : ℕ)
        → suc n ≡ length bytes - bound
        → (get_or bytes n 0 == newline) ≡ false
        → get_elem? bytes n ≡ some (get_or bytes n 0)
        → (k : ℕ) → IsAfter (drop (suc n) bytes) k
        → IsTailAt bytes bound (suc (n + k))
    behind n e amid there k after = record {
      inside = omega (arith, e, after.inside, length-drop (suc n) bytes);
      short = omega (arith, e);
      begins = elim after.begins [
        | inl end ↦ inl (omega (arith, e, end, length-drop (suc n) bytes))
        | inr (i, next, is_newline) ↦ inr (
            let at : suc n + i ≡ n + k = omega (arith, next) in
            ap (λ m. get_elem? bytes m) (sym at)
            ∙ sym (get_elem?-drop (suc n) i bytes)
            ∙ is_newline)
      ];
      least = least;
    }
      where
        later : (j : ℕ) → n < j → get_elem? bytes j ≡ some newline → suc (n + k) ≤ suc j
        later j above is_newline =
            let at : suc n + (j - suc n) ≡ j = omega (arith, above) in
            let found : get_elem? (drop (suc n) bytes) (j - suc n) ≡ some newline =
              get_elem?-drop (suc n) (j - suc n) bytes
              ∙ ap (λ m. get_elem? bytes m) at
              ∙ is_newline in
            omega (arith, above, after.least (j - suc n) found)

        least : (j : ℕ) → BeginsLine bytes j → length bytes - j ≤ bound → suc (n + k) ≤ j
        least zero b h = absurd (omega (arith, e, h))
        least (suc j) (inl end) h = omega (arith, e, end, after.inside, length-drop (suc n) bytes)
        least (suc j) (inr is_newline) h = elim (Bool-cases (j == n)) [
          | inr other ↦ later j (ground (arith, e, h, other, ==_iff j n)) is_newline
          | inl same ↦
              let here = ap (λ m. get_elem? bytes m) (sym ((==_iff j n).0 same)) ∙ is_newline in
              absurd
                (cc (amid, (==_iff (get_or bytes n 0) newline).1 (some_inj.0 (sym there ∙ here))))
        ]

module _ {T : Type 0} (utf8 : Utf8 T) where
  -- The text that is read of a file is what its bytes from one place on decode to: of the places where a
  -- line begins, and the end of the file, the first one from which there are no more bytes than are
  -- asked for, or one.
  pub read_bounded_utf8_tail-IsTailAt :
      (bytes : List ℕ) (max_bytes : ℕ)
      → (k : ℕ) × (read_bounded_utf8_tail utf8 bytes max_bytes ≡ utf8.decode (drop k bytes))
        × IsTailAt bytes (max 1 max_bytes) k
  unfolding read_bounded_utf8_tail
  read_bounded_utf8_tail-IsTailAt bytes max_bytes =
      let (k, cut, at) =
        cut_tail-IsTailAt bytes (max 1 max_bytes) (length bytes - max 1 max_bytes) refl in
      (k, ap (λ tail. utf8.decode tail) cut, at)
