-- ===== src/Spice/Collector/Clean.antt =====
-- What a validation that adds no error has found.
use datasheet_to_tscircuit.Prelude.{
  ℕ, suc, String, false, none, List, [], ◌∷◌, ◌++◌, eq_iff, ◌≡◌, ◌≢◌, refl, inl, inr, arith, Dict,
  lookup, put, lookup-put, member, All, Distinct, Option-cases, fold_at,
}
use datasheet_to_tscircuit.Spice.Collector.{Errors, report, duplicates_from, add_duplicate_errors}

append_cons-ne-nil : {A : Type 0} (xs : List A) (x : A) → xs ++ x ∷ [] ≢ []
append_cons-ne-nil [] x h = cc
append_cons-ne-nil (y ∷ xs) x h = cc

pub report-ne-nil :
    (path code message : String) (errors : Errors) → report path code message errors ≢ []
unfolding report
report-ne-nil path code message errors = append_cons-ne-nil errors _

module _ {A S : Type 0} (errors_of : S → Errors) (f : ℕ → A → S → S) (P : A → Type 0) where
  -- A loop that adds no error has added none in each of its rounds.
  pub fold_at-Clean :
      ((i : ℕ) (x : A) (s : S) → errors_of (f i x s) ≡ [] → (errors_of s ≡ []) × P x)
      → (i : ℕ) (xs : List A) (s : S) → errors_of (fold_at f i xs s) ≡ []
      → (errors_of s ≡ []) × All P xs
  unfolding fold_at
  fold_at-Clean round i [] s h = (h, tt)
  fold_at-Clean round i (x ∷ xs) s h =
      let (later, rest) = fold_at-Clean round (suc i) xs (f i x s) h in
      let (before, this) = round i x s later in (before, (this, rest))

fresh-put :
    (x : String) (i : ℕ) (first_index : Dict ℕ) (values : List String)
    → All (λ y. lookup y (put x i first_index) ≡ none) values
    → (member x values ≡ false) × All (λ y. lookup y first_index ≡ none) values
unfolding member
fresh-put x i first_index [] h = (refl, tt)
fresh-put x i first_index (y ∷ values) (h, hs) =
    let (other, rest) = fresh-put x i first_index values hs in
    (
      ground (arith, lookup-put x y i first_index, eq_iff x y, eq_iff y x, h, other),
      (ground (arith, lookup-put x y i first_index, h), rest),
    )

duplicates_from-Clean :
    (base_path : String) (first_index : Dict ℕ) (index : ℕ) (values : List String) (errors : Errors)
    → duplicates_from base_path first_index index values errors ≡ []
    → (errors ≡ []) × Distinct values × All (λ y. lookup y first_index ≡ none) values
unfolding duplicates_from
duplicates_from-Clean base_path first_index index [] errors h = (h, tt, tt)
duplicates_from-Clean base_path first_index index (value ∷ values) errors h =
    elim (Option-cases (lookup value first_index)) [
      | inl new ↦
          let (e, d, a) =
            duplicates_from-Clean base_path (put value index first_index) (suc index) values errors
              (rw (new, duplicates_from) at h) in
          let (other, rest) = fresh-put value index first_index values a in
          (e, (other, d), (new, rest))
      | inr (existing, old) ↦
          let (e, _, _) =
            duplicates_from-Clean base_path first_index (suc index) values _
              (rw (old, duplicates_from) at h) in
          absurd (report-ne-nil _ _ _ errors e)
    ]

pub add_duplicate_errors-Clean :
    (values : List String) (base_path : String) (errors : Errors)
    → add_duplicate_errors values base_path errors ≡ []
    → (errors ≡ []) × Distinct values
unfolding add_duplicate_errors
add_duplicate_errors-Clean values base_path errors h =
    let (e, d, _) = duplicates_from-Clean base_path [] 0 values errors h in (e, d)
