-- ===== src/Spice/Collector.antt =====
-- parse-helpers.ts: the errors of a validation, in the order in which they are added.
pub mod Clean
use datasheet_to_tscircuit.Prelude.{
  ℕ, suc, String, Option, none, some, List, [], ◌∷◌, ◌++◌, ◌<>◌, decimal, quote, Dict, lookup, put,
}
use datasheet_to_tscircuit.Spice.Types.{ValidationPathError}

abbrev pub Errors : Type 0
Errors = List ValidationPathError

-- `collector.add(path, code, message)`
unfoldable pub report : (path code message : String) → Errors → Errors
report path code message errors =
    errors ++ record { path = path; code = code; message = message } ∷ []

-- `${path}[${index}]`
unfoldable pub at_index : String → ℕ → String
unfolding decimal
at_index path index = path <> "[" <> decimal index <> "]"

duplicates_from : (base_path : String) → (first_index : Dict ℕ) → ℕ → List String → Errors → Errors
unfolding lookup put report at_index quote
duplicates_from base_path first_index index [] errors = errors
duplicates_from base_path first_index index (value ∷ values) errors =
    elim (lookup value first_index) [
      | none ↦ duplicates_from base_path (put value index first_index) (suc index) values errors
      | some existing ↦ duplicates_from base_path first_index (suc index) values (
          report (at_index base_path index) "duplicate_id"
            ("duplicates " <> at_index base_path existing <> " (" <> quote value <> ")") errors)
    ]

unfoldable pub add_duplicate_errors : List String → (base_path : String) → Errors → Errors
unfolding duplicates_from
add_duplicate_errors values base_path errors = duplicates_from base_path [] 0 values errors
