-- ===== src/Application/Projection/Least.antt =====
-- The retained groups are the least set of the roots that the fixtures close.
use datasheet_to_tscircuit.Prelude.{
  ℕ, zero, suc, ◌<◌, String, false, Option, none, some, List, ◌≡◌, inl, inr, refl, sym, ap, subst,
  arith, Bool-cases,
}
use datasheet_to_tscircuit.Application.Projection.{
  Pass, retain_pass, retain_loop, id_count, retain_all,
}
use datasheet_to_tscircuit.Application.Projection.Passes.{
  IsClosed, IsWithin, missing_all, missing_all-le, retain_pass-Passed,
}

-- What the loop returns.
record Retaining (fixtures : List (List String)) (roots ids : List String) : Type 0 where
  pub rooted : IsWithin roots ids
  pub closed : IsClosed fixtures ids
  pub least : (t : List String) → IsWithin roots t → IsClosed fixtures t → IsWithin ids t

retain_loop_returns :
    (fuel : ℕ) (fixtures : List (List String)) (r : List String)
    → missing_all fixtures r < fuel
    → (ids : List String) × (retain_loop fuel fixtures r ≡ some ids) × Retaining fixtures r ids
unfolding retain_loop
retain_loop_returns zero fixtures r h = absurd (omega (arith, h))
retain_loop_returns (suc fuel) fixtures r h =
    let p : Pass = record { ids = r; changed = false } in
    let q = retain_pass fixtures p in
    let passed = retain_pass-Passed fixtures p in
    elim (Bool-cases q.changed) [
      | inr done ↦ (
        q.ids,
        rw (done, retain_loop) refl,
        record { rooted = passed.grown; closed = passed.stable done; least = passed.least },
      )
      | inl going ↦
          let less : missing_all fixtures q.ids < fuel = elim passed.fewer [
            | inl less ↦ omega (arith, less, h)
            | inr same ↦ cc (ap (λ s. s.changed) same, going)
          ] in
          let (ids, ends, rest) = retain_loop_returns fuel fixtures q.ids less in
          (
            ids,
            rw (going, retain_loop) ends,
            record {
              rooted = λ x m. rest.rooted x (passed.grown x m);
              closed = rest.closed;
              least = λ t w c. rest.least t (passed.least t w c) c;
            },
          )
    ]

-- The loop over the passes ends within its fuel. The groups that it retains are those of the roots and
-- of all fixtures that have one of them, and no others: they are in each set that holds the roots and
-- that holds with one group of a fixture all of its groups.
pub retain_all-IsLeast :
    (fixtures : List (List String)) (roots : List String)
    → IsWithin roots (retain_all fixtures roots)
      × IsClosed fixtures (retain_all fixtures roots)
      × ((t : List String)
          → IsWithin roots t
          → IsClosed fixtures t
          → IsWithin (retain_all fixtures roots) t)
unfolding retain_all
retain_all-IsLeast fixtures roots =
    let (ids, ends, r) =
      retain_loop_returns (suc (id_count fixtures)) fixtures roots
        (omega (arith, missing_all-le fixtures roots)) in
    let e : retain_all fixtures roots ≡ ids =
      ap
        (λ (o : Option (List String)). elim o as (λ _. List String) [
          | none ↦ roots
          | some found ↦ found
        ])
        ends in
    subst
      (λ s.
        IsWithin roots s
        × IsClosed fixtures s
        × ((t : List String) → IsWithin roots t → IsClosed fixtures t → IsWithin s t))
      (sym e) (r.rooted, r.closed, r.least)
