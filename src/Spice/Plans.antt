-- ===== src/Spice/Plans.antt =====
-- parse-validation-plan/plan.ts and case.ts: the checks of the cases of a plan and of its coverage.
-- The cases are those that the parsers of their parts return, and the errors those of these checks; the
-- parsers add others between them.
pub mod Accepted
use datasheet_to_tscircuit.Prelude.{
  ℕ, String, not, List, [], map, ◌<>◌, quote, member, add, fold_at, if◌then◌else◌,
}
use datasheet_to_tscircuit.Spice.Types.{ValidationCase, ModelPin}
use datasheet_to_tscircuit.Spice.Numbers.{Numbers}
use datasheet_to_tscircuit.Spice.Collector.{Errors, report, at_index}
use datasheet_to_tscircuit.Spice.Validation.{validate_case_connectivity, validate_plan_coverage}

-- The two sets and the collector that the cases share.
pub record Coverage : Type 0 where
  pub covered_dut_pins : List String
  pub covered_requirement_ids : List String
  pub errors : Errors

unfoldable pub cover_requirement :
    (modeled_requirement_ids : List String)
    → (path : String) → (observed_requirement_ids : List String) → ℕ
    → String
    → Coverage
    → Coverage
unfolding member add report at_index quote
cover_requirement modeled_requirement_ids path observed_requirement_ids index requirement_id k =
    if not (member requirement_id observed_requirement_ids)
    then record k {
      errors =
          report (at_index (path <> ".requirement_ids") index) "unobserved_requirement"
            ("must be bound to at least one observation (" <> quote requirement_id <> ")") k.errors;
    }
    else if member requirement_id modeled_requirement_ids
    then record k { covered_requirement_ids = add requirement_id k.covered_requirement_ids }
    else k

module _ (N : Numbers) (pins : List ModelPin) (modeled_requirement_ids : List String) where
  -- The end of `parseCase`.
  unfoldable pub visit_case : ℕ → ValidationCase N.Number → Coverage → Coverage
  unfolding cover_requirement fold_at validate_case_connectivity at_index
  visit_case index c k =
      let observed_requirement_ids = map (λ o. o.requirement_id) c.observations in
      let k1 =
        fold_at
          (cover_requirement modeled_requirement_ids (at_index "cases" index)
            observed_requirement_ids)
          0 c.requirement_ids k in
      let s = validate_case_connectivity N c index pins k1.covered_dut_pins k1.errors in
      record k1 { covered_dut_pins = s.covered_dut_pins; errors = s.errors }

  unfoldable pub visit_cases : List (ValidationCase N.Number) → Errors → Coverage
  unfolding visit_case fold_at
  visit_cases cases errors =
      fold_at visit_case 0 cases
        (record { covered_dut_pins = []; covered_requirement_ids = []; errors = errors })

  -- The errors with which the plan is refused, unless there are none.
  unfoldable pub validate_plan : List (ValidationCase N.Number) → Errors → Errors
  unfolding visit_cases validate_plan_coverage
  validate_plan cases errors =
      let k = visit_cases cases errors in
      validate_plan_coverage pins k.covered_dut_pins modeled_requirement_ids
        k.covered_requirement_ids k.errors
