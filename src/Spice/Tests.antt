-- ===== src/Spice/Tests.antt =====
-- Runs of the definitions, and the theorems at concrete inputs.
use datasheet_to_tscircuit.Prelude.{
  ℕ, List, String, suc, ignoring_case, get_or, arith, str_eq, ◌≢◌, true, false, Option, none, some,
  [], ◌∷◌, Bool, ap, join_text, has_key, ◌≡◌, ◌↔◌, refl, All,
}
use datasheet_to_tscircuit.Spice.Identifiers.{gnd, dut, net, parse_endpoint_syntax, is_spice_node}
use datasheet_to_tscircuit.Spice.Identifiers.Endpoints.{
  IsEndpoint, print_endpoint, parse_endpoint_syntax_iff,
}
use datasheet_to_tscircuit.Spice.Circuit.{
  is_voltage_clamped, voltage_links, case_links, is_dut, reaches_dut, groups_of, overlays_of,
}
use datasheet_to_tscircuit.Spice.Circuit.Decided.{is_voltage_clamped_iff, reaches_dut_iff}
use datasheet_to_tscircuit.Spice.Graph.{connect_all, search, edge_count}
use datasheet_to_tscircuit.Spice.Graph.Links.{Chain}
use datasheet_to_tscircuit.Spice.Validation.{validate_case_connectivity, validate_plan_coverage}
use datasheet_to_tscircuit.Spice.Validation.Clean.{
  HasEndpoints, IsAccepted, validate_case_connectivity-IsAccepted,
}
use datasheet_to_tscircuit.Spice.Types.{ValidationCase, voltage_source, resistor}
use datasheet_to_tscircuit.Spice.Connectivity.Covering.{Any, Connects}
use datasheet_to_tscircuit.Spice.Plans.{validate_plan}
use datasheet_to_tscircuit.Spice.Plans.Accepted.{Covers, validate_plan-IsAccepted}
use datasheet_to_tscircuit.Spice.Compiled.{Compiled, compiled, compile_error}
use datasheet_to_tscircuit.Spice.Resolver.{
  NodeResolver, get_node_resolver, resolve_node, group_node_name,
}
use datasheet_to_tscircuit.Spice.Resolver.Topology.{
  HasNodeNames, IsTiedBy, get_node_resolver_keeps_topology,
}
use datasheet_to_tscircuit.Spice.Resolver.Separation.{resolve_node_separates}
use datasheet_to_tscircuit.Spice.Compiler.{CompiledValidationCase, compile_validation_case}
use datasheet_to_tscircuit.Spice.Samples.{naturals, pins, divider, application}

program : Unit {0}
unfolding parse_endpoint_syntax is_voltage_clamped reaches_dut validate_case_connectivity
    validate_plan_coverage get_node_resolver resolve_node compile_validation_case IsEndpoint
    is_spice_node group_node_name ignoring_case validate_plan groups_of overlays_of join_text
program = tt

parsed :
    (parse_endpoint_syntax "dut.VIN" ≡ some (dut "VIN"))
    × (parse_endpoint_syntax "net.1A" ≡ none)
    × (parse_endpoint_syntax "gnd" ≡ some gnd)
    × (parse_endpoint_syntax "dut.a.b" ≡ none)
unfolding program
parsed = (refl, refl, refl, refl)

searched :
    (is_voltage_clamped divider "gnd" "dut.VIN" ≡ true)
    × (is_voltage_clamped divider "net.A" "gnd" ≡ false)
    × (reaches_dut divider "net.A" ≡ true)
unfolding program
searched = (refl, refl, refl)

accepted : (validate_case_connectivity naturals divider 0 pins [] []).errors ≡ []
unfolding program
accepted = refl

abbrev resolver : NodeResolver
resolver = record {
  dut_nodes = ("VIN", "n_dut_1") ∷ ("OUT", "n_dut_2") ∷ ("EN", "n_dut_3") ∷ ("GND", "n_dut_4") ∷ [];
  grouped_dut_nodes =
      ("VIN", "n_net_N1") ∷ ("OUT", "n_net_N1") ∷ ("GND", "0") ∷ ("EN", "n_net_N1") ∷ [];
}

resolved : get_node_resolver pins application ≡ compiled resolver
unfolding program
resolved = refl

abbrev netlist : String
netlist =
    "* spice-validation version 1 case divider\n.include ../model.lib\nX_DUT n_dut_1 n_dut_2 n_dut_3 n_dut_4 LDO\nV_vin n_dut_1 0 DC 5\nR_upper n_dut_2 n_net_A 1\nR_lower n_net_A 0 2\n.save i(V_vin) v(n_net_A)\n.op\n.end\n"

compiled_text : {N : Type 0} → Compiled (CompiledValidationCase N) → Option String
compiled_text (compiled c) = some c.source
compiled_text (compile_error m) = none

abbrev id_le : String → String → Bool
id_le a b = true

compiled_divider :
    compiled_text (compile_validation_case naturals id_le divider pins "LDO") ≡ some netlist
unfolding program compiled_text
compiled_divider = refl

parse_endpoint_syntax_iff_example :
    (parse_endpoint_syntax "dut.VIN" ≡ some (dut "VIN"))
    ↔ (("dut.VIN" ≡ print_endpoint (dut "VIN")) × IsEndpoint (dut "VIN"))
parse_endpoint_syntax_iff_example = parse_endpoint_syntax_iff "dut.VIN" (dut "VIN")

is_voltage_clamped_iff_example :
    let g = connect_all (voltage_links divider) [] in
    (search (λ node. str_eq node "dut.VIN") g (suc (edge_count g)) ("gnd" ∷ []) []
      ≡ some (is_voltage_clamped divider "gnd" "dut.VIN"))
    × ((is_voltage_clamped divider "gnd" "dut.VIN" ≡ true)
        ↔ Chain (voltage_links divider) "gnd" "dut.VIN")
is_voltage_clamped_iff_example = is_voltage_clamped_iff divider "gnd" "dut.VIN"

reaches_dut_iff_example :
    let g = connect_all (case_links divider) [] in
    ((Path String "net.A" "gnd" → ⊥)
      → search is_dut g (suc (edge_count g)) ("net.A" ∷ []) [] ≡ some (reaches_dut divider "net.A"))
    × ((reaches_dut divider "net.A" ≡ true)
        ↔ ((pin : String) × Chain (case_links divider) "net.A" pin × (is_dut pin ≡ true)))
reaches_dut_iff_example = reaches_dut_iff divider "net.A"

divider-HasEndpoints : All HasEndpoints divider.fixtures
unfolding program
divider-HasEndpoints = (
  ((dut "VIN", refl), (gnd, refl)),
  (((dut "OUT", refl), (net "A", refl)), (((net "A", refl), (gnd, refl)), tt)),
)

validate_case_connectivity-IsAccepted_example : IsAccepted pins divider
validate_case_connectivity-IsAccepted_example =
    validate_case_connectivity-IsAccepted naturals divider 0 pins [] [] divider-HasEndpoints
      accepted

pins-HasNodeNames : HasNodeNames pins
unfolding program
pins-HasNodeNames = (refl, (refl, (refl, (refl, tt))))

get_node_resolver_keeps_topology_example :
    All
      (λ g. All (λ e. resolve_node resolver e ≡ compiled (group_node_name g)) g.dut_endpoints)
      (groups_of application)
    × All (IsTiedBy resolver) (overlays_of application)
get_node_resolver_keeps_topology_example =
    get_node_resolver_keeps_topology application pins resolver pins-HasNodeNames resolved

abbrev plain_resolver : NodeResolver
plain_resolver = record {
  dut_nodes = ("VIN", "n_dut_1") ∷ ("OUT", "n_dut_2") ∷ ("EN", "n_dut_3") ∷ ("GND", "n_dut_4") ∷ [];
  grouped_dut_nodes = [];
}

plain :
    (get_node_resolver pins divider ≡ compiled plain_resolver)
    × (parse_endpoint_syntax "dut.OUT" ≡ some (dut "OUT"))
    × (parse_endpoint_syntax "net.A" ≡ some (net "A"))
    × (resolve_node plain_resolver "dut.OUT" ≡ compiled "n_dut_2")
    × (resolve_node plain_resolver "net.A" ≡ compiled "n_net_A")
    × (has_key "OUT" plain_resolver.grouped_dut_nodes ≡ false)
unfolding program has_key
plain = (refl, refl, refl, refl, refl, refl)

out-ne-net : ignoring_case "dut.OUT" ≢ ignoring_case "net.A"
unfolding program
out-ne-net e = let first : 100 ≡ 110 = ap (λ l. get_or l 0 0) e in omega (arith, first)

resolve_node_separates_example : ignoring_case "n_dut_2" ≢ ignoring_case "n_net_A"
resolve_node_separates_example =
    resolve_node_separates divider pins plain_resolver "dut.OUT" "net.A" (dut "OUT") (net "A")
      "n_dut_2" "n_net_A" plain.0 plain.1 plain.2 plain.5 tt plain.3 plain.4 out-ne-net

-- Two nets of a case whose nodes are one to a simulator that ignores the case of letters.
same_node :
    (resolve_node plain_resolver "net.A" ≡ compiled "n_net_A")
    × (resolve_node plain_resolver "net.a" ≡ compiled "n_net_a")
    × (ignoring_case "n_net_A" ≡ ignoring_case "n_net_a")
unfolding program
same_node = (refl, refl, refl)

-- The divider, and the divider with its other pins at the ground.
abbrev tied : ValidationCase ℕ
tied = record divider {
  fixtures =
      voltage_source "vin" "dut.VIN" "gnd" 5 none
      ∷ resistor "upper" "dut.OUT" "net.A" 1
      ∷ resistor "lower" "net.A" "gnd" 2
      ∷ resistor "enable" "dut.EN" "gnd" 1
      ∷ resistor "ground" "dut.GND" "gnd" 1
      ∷ [];
}

abbrev plan : List (ValidationCase ℕ)
plan = divider ∷ tied ∷ []

plan-HasEndpoints : All (λ c. All HasEndpoints c.fixtures) plan
unfolding program
plan-HasEndpoints = (
  divider-HasEndpoints,
  (
    (
      ((dut "VIN", refl), (gnd, refl)),
      (
        ((dut "OUT", refl), (net "A", refl)),
        (
          ((net "A", refl), (gnd, refl)),
          (((dut "EN", refl), (gnd, refl)), (((dut "GND", refl), (gnd, refl)), tt)),
        ),
      ),
    ),
    tt,
  ),
)

plan-accepted : validate_plan naturals pins ("gain" ∷ []) plan [] ≡ []
unfolding program
plan-accepted = refl

validate_plan-IsAccepted_example :
    All (IsAccepted pins) plan
    × All (λ pin. Any (λ c. Connects c pin.spice_node) plan) pins
    × All (λ id. Any (λ c. Covers c id) plan) ("gain" ∷ [])
validate_plan-IsAccepted_example =
    validate_plan-IsAccepted naturals pins ("gain" ∷ []) plan plan-HasEndpoints plan-accepted
