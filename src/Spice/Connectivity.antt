-- ===== src/Spice/Connectivity.antt =====
-- validate-plan-connectivity.ts: whether the circuit of a validation case measures the model.
pub mod Clean
pub mod Counted
pub mod Covering
use datasheet_to_tscircuit.Prelude.{
  ℕ, suc, ◌+◌, String, Bool, true, false, not, ◌||◌, ◌&&◌, Option, none, some, List, [], ◌∷◌, ◌++◌,
  map, ltb, if◌then◌else◌, str_eq, ◌<>◌, decimal, quote, Dict, lookup, put, put_all, member, add,
  fold_at,
}
use datasheet_to_tscircuit.Spice.Types.{
  FixtureElement, voltage_source, current_source, diode, ValidationAnalysis, operating_point,
  dc_sweep, transient, CurvePoint, ReferenceContract, target, bounds, curve, ObservationRole,
  stimulus, ObservationScale, log, voltage, current, ValidationObservation,
  ResolvedApplicationNodeGroup, ApplicationConditionOverlay, logic_state, pulsed_source,
  ValidationCase, ModelPin,
}
use datasheet_to_tscircuit.Spice.Identifiers.{
  ParsedEndpoint, gnd, dut, net, parse_endpoint_syntax, id_of, get_fixture_endpoints,
}
use datasheet_to_tscircuit.Spice.Numbers.{Numbers, minimum, maximum, minimum_of, maximum_of}
use datasheet_to_tscircuit.Spice.Circuit.{
  group_node, groups_of, overlays_of, is_voltage_clamped, reaches_dut,
}
use datasheet_to_tscircuit.Spice.Collector.{Errors, report, at_index, add_duplicate_errors}

-- What the validation of a case writes, beside `adjacency`.
pub record CaseState : Type 0 where
  pub errors : Errors
  pub covered_dut_pins : List String
  pub net_terminal_counts : Dict ℕ
  pub has_ground : Bool

unfoldable pub complain : (path code message : String) → CaseState → CaseState
unfolding report
complain path code message s = record s { errors = report path code message s.errors }

abbrev pub complain_if : Bool → (path code message : String) → CaseState → CaseState
complain_if b path code message s = if b then complain path code message s else s

unfoldable pub terminal_count : String → Dict ℕ → ℕ
unfolding lookup
terminal_count net_id counts = elim (lookup net_id counts) [ none ↦ 0 | some n ↦ n ]

count_terminal : String → CaseState → CaseState
unfolding terminal_count put
count_terminal net_id s = record s {
  net_terminal_counts =
      put net_id (terminal_count net_id s.net_terminal_counts + 1) s.net_terminal_counts;
}

-- The names that the endpoints of a case can have: the pins of the model and the declared nets.
pub record Names : Type 0 where
  pub manifest_nodes : List String
  pub declared_nets : List String

visit_dut : Names → (identifier path : String) → (counts_as_terminal : Bool) → CaseState → CaseState
unfolding member add
visit_dut names identifier path counts_as_terminal s =
    if not (member identifier names.manifest_nodes)
    then complain path "unknown_dut_pin"
        ("does not match a manifest spice_node (" <> identifier <> ")") s
    else if counts_as_terminal
    then record s { covered_dut_pins = add identifier s.covered_dut_pins }
    else s

visit_net : Names → (identifier path : String) → (counts_as_terminal : Bool) → CaseState → CaseState
unfolding member count_terminal quote
visit_net names identifier path counts_as_terminal s =
    if not (member identifier names.declared_nets)
    then complain path "unknown_net" ("references undeclared net " <> quote identifier) s
    else if counts_as_terminal
    then count_terminal identifier s
    else s

unfoldable pub validate_endpoint :
    Names → (endpoint path : String) → (counts_as_terminal : Bool) → CaseState → CaseState
unfolding parse_endpoint_syntax visit_dut visit_net
validate_endpoint names endpoint path counts_as_terminal s = elim (parse_endpoint_syntax endpoint) [
  | none ↦ s
  | some p ↦ elim p [
    | gnd ↦ if counts_as_terminal then record s { has_ground = true } else s
    | dut identifier ↦ visit_dut names identifier path counts_as_terminal s
    | net identifier ↦ visit_net names identifier path counts_as_terminal s
  ]
]

module _ (names : Names) (case_path : String) where
  visit_group_endpoint :
      ResolvedApplicationNodeGroup → (group_path : String) → ℕ → String → CaseState → CaseState
  unfolding validate_endpoint count_terminal at_index
  visit_group_endpoint group group_path index endpoint s =
      let s' =
        validate_endpoint names endpoint (at_index (group_path <> ".dut_endpoints") index) true s in
      if group.is_ground then s' else count_terminal group.id s'

  enter_group : ResolvedApplicationNodeGroup → (group_path : String) → CaseState → CaseState
  unfolding member quote complain
  enter_group group group_path s =
      if group.is_ground
      then record s { has_ground = true }
      else complain_if (not (member group.id names.declared_nets)) (group_path <> ".id")
          "unknown_application_net"
          ("application node group " <> quote group.id <> " must be declared in case.nets") s

  unfoldable pub visit_group : ℕ → ResolvedApplicationNodeGroup → CaseState → CaseState
  unfolding enter_group visit_group_endpoint at_index fold_at
  visit_group index group s =
      let group_path = at_index (case_path <> ".application_fixture.node_groups") index in
      fold_at (visit_group_endpoint group group_path) 0 group.dut_endpoints
        (enter_group group group_path s)

  unfoldable pub visit_overlay : ℕ → ApplicationConditionOverlay → CaseState → CaseState
  unfolding validate_endpoint at_index
  visit_overlay index (pulsed_source endpoint _) s =
      let path = at_index (case_path <> ".application_fixture.condition_overlays") index in
      validate_endpoint names endpoint (path <> ".endpoint") true s
  visit_overlay index (logic_state endpoint reference _ _) s =
      let path = at_index (case_path <> ".application_fixture.condition_overlays") index in
      validate_endpoint names reference (path <> ".reference") false
        (validate_endpoint names endpoint (path <> ".endpoint") true s)

  module _ {N : Type 0} where
    -- The names of the two ends of a fixture.
    abbrev end_names : FixtureElement N → String × String
    end_names (diode _ _ _) = ("anode", "cathode")
    end_names _ = ("positive", "negative")

    unfoldable pub visit_fixture : ℕ → FixtureElement N → CaseState → CaseState
    unfolding validate_endpoint get_fixture_endpoints at_index
    visit_fixture index fixture s =
        let path = at_index (case_path <> ".fixtures") index in
        let (first, second) = get_fixture_endpoints fixture in
        let (first_name, second_name) = end_names fixture in
        let s1 = validate_endpoint names first (path <> "." <> first_name) true s in
        let s2 = validate_endpoint names second (path <> "." <> second_name) true s1 in
        complain_if (str_eq first second) path "shorted_fixture"
          "both terminals resolve to the same endpoint" s2

  unfoldable pub visit_declared_net : ℕ → String → CaseState → CaseState
  unfolding terminal_count at_index decimal
  visit_declared_net index net_id s =
      let count = terminal_count net_id s.net_terminal_counts in
      complain_if (ltb count 2) (at_index (case_path <> ".nets") index)
        "insufficient_net_connections"
        ("must be used by at least two fixture terminals; found " <> decimal count) s

  unfoldable pub visit_ground : CaseState → CaseState
  visit_ground s =
      complain_if (not s.has_ground) (case_path <> ".fixtures") "missing_ground"
        "must connect at least one fixture terminal to gnd" s
