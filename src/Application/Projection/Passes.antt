-- ===== src/Application/Projection/Passes.antt =====
-- What a pass over the fixtures retains.
use datasheet_to_tscircuit.Prelude.{
  ℕ, ◌+◌, ◌≤◌, ◌<◌, String, true, false, List, [], ◌∷◌, if◌then◌else◌, length, str_eq, eq_iff,
  member, add, member-add, All, ◌≡◌, ◌⊎◌, inl, inr, refl, sym, ◌∙◌, ap, subst, arith, Bool-cases,
}
use datasheet_to_tscircuit.Application.Projection.{
  any_retained, all_retained, Pass, retain_ids, retain_pass, id_count,
}

-- A fixture with one group of a set has all its groups in it.
abbrev pub IsClosed : List (List String) → List String → Type 0
IsClosed fixtures ids = All (λ f. any_retained ids f ≡ true → all_retained ids f ≡ true) fixtures

abbrev pub IsWithin : List String → List String → Type 0
IsWithin ids others = (x : String) → member x ids ≡ true → member x others ≡ true

-- The ids of a fixture that are not retained.
abbrev pub missing : List String → List String → ℕ
missing retained [] = 0
missing retained (id ∷ ids) = (if member id retained then 0 else 1) + missing retained ids

abbrev pub missing_all : List (List String) → List String → ℕ
missing_all [] retained = 0
missing_all (ids ∷ fixtures) retained = missing retained ids + missing_all fixtures retained

all_retained_mono :
    (r s ids : List String) → IsWithin r s → all_retained r ids ≡ true → all_retained s ids ≡ true
all_retained_mono r s [] w h = refl
all_retained_mono r s (x ∷ ids) w h = ground (arith, w x, all_retained_mono r s ids w)

missing_mono : (r s ids : List String) → IsWithin r s → missing s ids ≤ missing r ids
missing_mono r s [] w = omega arith
missing_mono r s (x ∷ ids) w = ground (arith, w x, missing_mono r s ids w)

missing_all_mono :
    (fixtures : List (List String)) (r s : List String)
    → IsWithin r s
    → missing_all fixtures s ≤ missing_all fixtures r
missing_all_mono [] r s w = omega arith
missing_all_mono (ids ∷ fixtures) r s w =
    omega (arith, missing_mono r s ids w, missing_all_mono fixtures r s w)

missing-le : (r ids : List String) → missing r ids ≤ length ids
missing-le r [] = omega arith
missing-le r (x ∷ ids) = ground (arith, missing-le r ids)

pub missing_all-le :
    (fixtures : List (List String)) (r : List String) → missing_all fixtures r ≤ id_count fixtures
missing_all-le [] r = omega arith
missing_all-le (ids ∷ fixtures) r = omega (arith, missing-le r ids, missing_all-le fixtures r)

-- What the ids of one fixture do to a pass: the ids that are retained grow, all ids of the fixture are
-- retained, no other is, and a pass that is not changed has added none.
record Retained (ids : List String) (p q : Pass) : Type 0 where
  grown : IsWithin p.ids q.ids
  whole : all_retained q.ids ids ≡ true
  least : (t : List String) → IsWithin p.ids t → all_retained t ids ≡ true → IsWithin q.ids t
  fewer : (missing q.ids ids < missing p.ids ids) ⊎ (q ≡ p)
  later : q.changed ≡ false → q ≡ p

retain_ids-old :
    (id : String) (ids : List String) (p : Pass)
    → member id p.ids ≡ true
    → retain_ids (id ∷ ids) p ≡ retain_ids ids p
unfolding retain_ids
retain_ids-old id ids p h = rw h refl

retain_ids-new :
    (id : String) (ids : List String) (p : Pass)
    → member id p.ids ≡ false
    → retain_ids (id ∷ ids) p ≡ retain_ids ids (record { ids = add id p.ids; changed = true })
unfolding retain_ids
retain_ids-new id ids p h =
    ap (λ b. retain_ids ids (if b then p else record { ids = add id p.ids; changed = true })) h

retain_ids-Retained : (ids : List String) (p : Pass) → Retained ids p (retain_ids ids p)
unfolding retain_ids
retain_ids-Retained [] p = record {
  grown = λ x h. h;
  whole = refl;
  least = λ t w a. w;
  fewer = inr refl;
  later = λ h. refl;
}
retain_ids-Retained (id ∷ ids) p = elim (Bool-cases (member id p.ids)) [
  | inl old ↦
      let r = retain_ids-Retained ids p in
      subst (Retained (id ∷ ids) p) (sym (retain_ids-old id ids p old)) (record {
        grown = r.grown;
        whole = ground (arith, r.grown id old, r.whole);
        least = λ t w a. r.least t w (ground (arith, a));
        fewer = elim r.fewer [
          | inl less ↦ inl (ground (arith, less, old, r.grown id old))
          | inr same ↦ inr same
        ];
        later = r.later;
      })
  | inr new ↦
      let p' : Pass = record { ids = add id p.ids; changed = true } in
      let q = retain_ids ids p' in
      let r = retain_ids-Retained ids p' in
      let own : member id q.ids ≡ true =
        r.grown id (ground (arith, member-add id id p.ids, eq_iff id id)) in
      let grown : IsWithin p.ids q.ids =
        λ x h. r.grown x (ground (arith, member-add x id p.ids, h)) in
      subst (Retained (id ∷ ids) p) (sym (retain_ids-new id ids p new)) (record {
        grown = grown;
        whole = ground (arith, own, r.whole);
        least = λ t w a. r.least t (λ x h. added t w (ground (arith, a)) x h) (ground (arith, a));
        fewer = inl (ground (arith, own, new, missing_mono p.ids q.ids ids grown));
        later = λ h. cc (r.later h, h);
      })
]
  where
    added :
        (t : List String)
        → IsWithin p.ids t
        → member id t ≡ true
        → (x : String) → member x (add id p.ids) ≡ true
        → member x t ≡ true
    added t w a x h = elim (Bool-cases (str_eq id x)) [
      | inl same ↦ subst (λ z. member z t ≡ true) ((eq_iff id x).0 same) a
      | inr other ↦ w x (ground (arith, member-add x id p.ids, h, other))
    ]

-- What a pass does.
pub record Passed (fixtures : List (List String)) (p q : Pass) : Type 0 where
  pub grown : IsWithin p.ids q.ids
  pub least : (t : List String) → IsWithin p.ids t → IsClosed fixtures t → IsWithin q.ids t
  pub fewer : (missing_all fixtures q.ids < missing_all fixtures p.ids) ⊎ (q ≡ p)
  pub later : q.changed ≡ false → q ≡ p
  pub stable : q.changed ≡ false → IsClosed fixtures q.ids

-- The part of a pass for one fixture.
abbrev visit_ids : List String → Pass → Pass
visit_ids ids p = if any_retained p.ids ids then retain_ids ids p else p

any_retained_mono :
    (r s ids : List String) → IsWithin r s → any_retained r ids ≡ true → any_retained s ids ≡ true
any_retained_mono r s [] w h = h
any_retained_mono r s (x ∷ ids) w h = ground (arith, h, w x, any_retained_mono r s ids w)

-- As for a pass over a single fixture.
visit_ids-Passed : (ids : List String) (p : Pass) → Passed (ids ∷ []) p (visit_ids ids p)
visit_ids-Passed ids p = elim (Bool-cases (any_retained p.ids ids)) [
  | inl some_retained ↦
      let r = retain_ids-Retained ids p in
      subst (λ b. Passed (ids ∷ []) p (if b then retain_ids ids p else p)) (sym some_retained)
        (record {
          grown = r.grown;
          least = λ t w (closed, _).
              r.least t w (closed (any_retained_mono p.ids t ids w some_retained));
          fewer = elim r.fewer [ inl less ↦ inl (omega (arith, less)) | inr same ↦ inr same ];
          later = r.later;
          stable = λ h. ((λ _. r.whole), tt);
        })
  | inr none_retained ↦
      subst (λ b. Passed (ids ∷ []) p (if b then retain_ids ids p else p)) (sym none_retained)
        (record {
          grown = λ x h. h;
          least = λ t w closed. w;
          fewer = inr refl;
          later = λ h. refl;
          stable = λ h. ((λ some_retained. cc (some_retained, none_retained)), tt);
        })
]

pub retain_pass-Passed :
    (fixtures : List (List String)) (p : Pass) → Passed fixtures p (retain_pass fixtures p)
unfolding retain_pass
retain_pass-Passed [] p = record {
  grown = λ x h. h;
  least = λ t w closed. w;
  fewer = inr refl;
  later = λ h. refl;
  stable = λ h. tt;
}
retain_pass-Passed (ids ∷ fixtures) p =
    let p1 = visit_ids ids p in
    let one = visit_ids-Passed ids p in
    let rest = retain_pass-Passed fixtures p1 in
    let q = retain_pass fixtures p1 in
    let grown : IsWithin p.ids q.ids = λ x h. rest.grown x (one.grown x h) in
    record {
      grown = grown;
      least = λ t w (closed, others). rest.least t (one.least t w (closed, tt)) others;
      fewer = elim rest.fewer [
        | inl less ↦ inl (
            omega (
              arith,
              less,
              missing_all_mono fixtures p.ids p1.ids one.grown,
              missing_mono p.ids q.ids ids grown,
            ))
        | inr same ↦ elim one.fewer [
          | inl less ↦ inl (
              subst (λ s. missing_all (ids ∷ fixtures) s.ids < missing_all (ids ∷ fixtures) p.ids)
                (sym same) (omega (arith, less, missing_all_mono fixtures p.ids p1.ids one.grown)))
          | inr first ↦ inr (same ∙ first)
        ]
      ];
      later = λ h. let same = rest.later h in same ∙ one.later (sym (ap (λ s. s.changed) same) ∙ h);
      stable = λ h.
          let same = rest.later h in
          let (closed, _) = one.stable (sym (ap (λ s. s.changed) same) ∙ h) in
          (
            subst (λ s. any_retained s.ids ids ≡ true → all_retained s.ids ids ≡ true) (sym same)
                closed,
            rest.stable h,
          );
    }
