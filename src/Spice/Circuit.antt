-- ===== src/Spice/Circuit.antt =====
-- validate-plan-connectivity.ts: the circuit of a validation case, and what its nodes are joined to.
-- The graph `adjacency` is written by `connect` alone and read by the observations alone, so that it
-- is made here from the pairs that are connected, in their order.
pub mod Decided
use datasheet_to_tscircuit.Prelude.{
  ℕ, suc, ◌+◌, String, Bool, true, false, not, ◌||◌, ◌&&◌, Option, none, some, List, [], ◌∷◌, ◌++◌,
  map, ltb, if◌then◌else◌, str_eq, ◌<>◌, decimal, quote, Dict, lookup, put, put_all, has_key,
  member, add, fold_at,
}
use datasheet_to_tscircuit.Spice.Types.{
  FixtureElement, voltage_source, current_source, diode, ValidationAnalysis, operating_point,
  dc_sweep, transient, CurvePoint, ReferenceContract, target, bounds, curve, ObservationRole,
  stimulus, ObservationScale, log, voltage, current, ValidationObservation,
  ResolvedApplicationNodeGroup, ApplicationConditionOverlay, logic_state, pulsed_source,
  ResolvedApplicationFixture, ValidationCase, ModelPin,
}
use datasheet_to_tscircuit.Spice.Identifiers.{
  ParsedEndpoint, gnd, dut, net, parse_endpoint_syntax, id_of, get_fixture_endpoints,
}
use datasheet_to_tscircuit.Spice.Graph.{Graph, connect_all, search_from}

abbrev pub Links : Type 0
Links = List (String × String)

-- `group.is_ground ? "gnd" : "net." + group.id`
unfoldable pub group_node : ResolvedApplicationNodeGroup → String
group_node group = if group.is_ground then "gnd" else "net." <> group.id

module _ {N : Type 0} where
  unfoldable pub groups_of : ValidationCase N → List ResolvedApplicationNodeGroup
  groups_of c = elim c.application_fixture [ none ↦ [] | some f ↦ f.node_groups ]

  unfoldable pub overlays_of : ValidationCase N → List ApplicationConditionOverlay
  overlays_of c = elim c.application_fixture [ none ↦ [] | some f ↦ f.condition_overlays ]

  source_links : List (FixtureElement N) → Links
  source_links [] = []
  source_links (voltage_source _ positive negative _ _ ∷ fixtures) =
      (positive, negative) ∷ source_links fixtures
  source_links (_ ∷ fixtures) = source_links fixtures

  fixture_links : List (FixtureElement N) → Links
  unfolding get_fixture_endpoints
  fixture_links fixtures = map get_fixture_endpoints fixtures

endpoint_links : (node : String) (endpoints : List String) → Links
endpoint_links node endpoints = map (λ endpoint. (endpoint, node)) endpoints

group_links : List ResolvedApplicationNodeGroup → Links
unfolding endpoint_links group_node
group_links [] = []
group_links (group ∷ groups) =
    endpoint_links (group_node group) group.dut_endpoints ++ group_links groups

overlay_links : List ApplicationConditionOverlay → Links
overlay_links [] = []
overlay_links (logic_state endpoint reference _ _ ∷ overlays) =
    (endpoint, reference) ∷ overlay_links overlays
overlay_links (pulsed_source _ _ ∷ overlays) = overlay_links overlays

-- `connect` of a case leaves out the ground, which joins no two branches.
without_ground : Links → Links
without_ground [] = []
without_ground ((first, second) ∷ links) =
    let rest = without_ground links in
    if str_eq first "gnd" || str_eq second "gnd" then rest else (first, second) ∷ rest

module _ {N : Type 0} where
  -- What fixes the voltage between two nodes, whatever the model does.
  unfoldable pub voltage_links : ValidationCase N → Links
  unfolding source_links group_links overlay_links groups_of overlays_of
  voltage_links c =
      source_links c.fixtures ++ group_links (groups_of c) ++ overlay_links (overlays_of c)

  unfoldable pub is_voltage_clamped : ValidationCase N → (positive negative : String) → Bool
  unfolding search_from connect_all voltage_links
  is_voltage_clamped c positive negative =
      search_from (λ node. str_eq node negative) (connect_all (voltage_links c) []) positive

  -- The pairs of `adjacency`.
  unfoldable pub case_links : ValidationCase N → Links
  unfolding group_links overlay_links fixture_links without_ground groups_of overlays_of
  case_links c =
      without_ground
        (group_links (groups_of c) ++ overlay_links (overlays_of c) ++ fixture_links c.fixtures)

unfoldable pub is_dut : String → Bool
unfolding parse_endpoint_syntax
is_dut node = elim (parse_endpoint_syntax node) [
  | none ↦ false
  | some p ↦ elim p [ gnd ↦ false | dut _ ↦ true | net _ ↦ false ]
]

module _ {N : Type 0} where
  unfoldable pub reaches_dut : ValidationCase N → String → Bool
  unfolding search_from connect_all case_links is_dut
  reaches_dut c endpoint =
      if str_eq endpoint "gnd"
      then false
      else search_from is_dut (connect_all (case_links c) []) endpoint
