-- ===== src/Spice/Validation.antt =====
-- validate-plan-connectivity.ts: the validation of a case and of the coverage of a plan.
pub mod Clean
pub mod Covered
use datasheet_to_tscircuit.Prelude.{
  ℕ, String, Bool, not, List, [], map, ◌<>◌, quote, member, fold_at, false, if◌then◌else◌,
}
use datasheet_to_tscircuit.Spice.Types.{ValidationCase, ModelPin}
use datasheet_to_tscircuit.Spice.Identifiers.{id_of}
use datasheet_to_tscircuit.Spice.Numbers.{Numbers}
use datasheet_to_tscircuit.Spice.Circuit.{groups_of, overlays_of}
use datasheet_to_tscircuit.Spice.Collector.{Errors, report, at_index, add_duplicate_errors}
use datasheet_to_tscircuit.Spice.Connectivity.{
  CaseState, Names, visit_group, visit_overlay, visit_fixture, visit_declared_net, visit_ground,
}
use datasheet_to_tscircuit.Spice.Observations.{validate_sweep, visit_observation}

-- The pins covered before, and the errors that were added before, go in.
module _ (N : Numbers) where
  unfoldable pub duplicates_of_case :
      (case_path : String) → ValidationCase N.Number → Errors → Errors
  unfolding add_duplicate_errors
  duplicates_of_case case_path c errors =
      add_duplicate_errors (map (λ o. o.id) c.observations) (case_path <> ".observations") (
        add_duplicate_errors (map id_of c.fixtures) (case_path <> ".fixtures")
          (add_duplicate_errors c.nets (case_path <> ".nets") errors))

  unfoldable pub validate_case_connectivity :
      ValidationCase N.Number
      → (case_index : ℕ) → List ModelPin
      → (covered_dut_pins : List String) → Errors
      → CaseState
  unfolding duplicates_of_case groups_of overlays_of fold_at visit_group visit_overlay visit_fixture
      visit_declared_net visit_ground validate_sweep visit_observation at_index
  validate_case_connectivity c case_index pins covered_dut_pins errors =
      let case_path = at_index "cases" case_index in
      let names : Names = record {
        manifest_nodes = map (λ pin. pin.spice_node) pins;
        declared_nets = c.nets;
      } in
      let s0 : CaseState = record {
        errors = duplicates_of_case case_path c errors;
        covered_dut_pins = covered_dut_pins;
        net_terminal_counts = [];
        has_ground = false;
      } in
      let s1 = fold_at (visit_group names case_path) 0 (groups_of c) s0 in
      let s2 = fold_at (visit_overlay names case_path) 0 (overlays_of c) s1 in
      let s3 = fold_at (visit_fixture names case_path) 0 c.fixtures s2 in
      let s4 = fold_at (visit_declared_net names case_path) 0 c.nets s3 in
      let s5 = validate_sweep case_path c (visit_ground names case_path s4) in
      fold_at (visit_observation N names c case_path) 0 c.observations s5

pub visit_pin : (covered_dut_pins : List String) → ℕ → ModelPin → Errors → Errors
unfolding report at_index quote member
visit_pin covered_dut_pins index pin errors =
    if not (member pin.spice_node covered_dut_pins)
    then report (at_index "model.pins" index) "uncovered_dut_pin"
        ("manifest pin " <> quote pin.spice_node <> " is not connected by any validation case")
        errors
    else errors

pub visit_requirement : (covered_requirement_ids : List String) → ℕ → String → Errors → Errors
unfolding report at_index quote member
visit_requirement covered_requirement_ids index requirement_id errors =
    if not (member requirement_id covered_requirement_ids)
    then report (at_index "modeled_requirement_ids" index) "uncovered_requirement"
        ("modeled requirement " <> quote requirement_id <> " is not covered by any validation case")
        errors
    else errors

unfoldable pub validate_plan_coverage :
    List ModelPin
    → (covered_dut_pins modeled_requirement_ids covered_requirement_ids : List String) → Errors
    → Errors
unfolding visit_pin visit_requirement fold_at
validate_plan_coverage pins covered_dut_pins modeled_requirement_ids covered_requirement_ids
      errors =
    fold_at (visit_requirement covered_requirement_ids) 0 modeled_requirement_ids
      (fold_at (visit_pin covered_dut_pins) 0 pins errors)
