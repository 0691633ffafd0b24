-- ===== src/Spice/Resolver.antt =====
-- spice-validation/compiler.ts: `getNodeResolver`, the node of the netlist for each endpoint of a case.
-- A node that is found is never the empty text, which the code would take for a missing one.
pub mod Topology
pub mod Separation
use datasheet_to_tscircuit.Prelude.{
  ℕ, suc, String, Bool, true, false, Option, none, some, List, [], ◌∷◌, map, if◌then◌else◌, str_eq,
  ◌<>◌, quote, strip_prefix, Dict, lookup, put, put_all, has_key,
}
use datasheet_to_tscircuit.Spice.Types.{
  ResolvedApplicationNodeGroup, ApplicationConditionOverlay, logic_state, pulsed_source,
  ValidationCase, ModelPin,
}
use datasheet_to_tscircuit.Spice.Identifiers.{
  ParsedEndpoint, gnd, dut, net, parse_endpoint_syntax, get_dut_node_name, get_net_node_name,
}
use datasheet_to_tscircuit.Spice.Circuit.{groups_of, overlays_of}
use datasheet_to_tscircuit.Spice.Compiled.{Compiled, compiled, compile_error, ◌>>=◌, required}

pin_entries : ℕ → List ModelPin → Dict String
unfolding get_dut_node_name
pin_entries index [] = []
pin_entries index (pin ∷ pins) =
    (pin.spice_node, get_dut_node_name index) ∷ pin_entries (suc index) pins

unfoldable pub dut_nodes_of : List ModelPin → Dict String
unfolding pin_entries put_all
dut_nodes_of pins = put_all (pin_entries 0 pins) []

unfoldable pub group_node_name : ResolvedApplicationNodeGroup → String
unfolding get_net_node_name
group_node_name group = if group.is_ground then "0" else get_net_node_name group.id

module _ (dut_nodes : Dict String) where
  -- One round of the inner loop over the groups, for the pin of an endpoint.
  group_pin :
      ResolvedApplicationNodeGroup → (spice_node : String) → Dict String → Compiled (Dict String)
  unfolding has_key put quote group_node_name
  group_pin group spice_node grouped =
      if has_key spice_node dut_nodes
      then if has_key spice_node grouped
        then compile_error
            ("DUT pin " <> quote spice_node <> " belongs to more than one application node group")
        else compiled (put spice_node (group_node_name group) grouped)
      else compile_error (
          "Application node group "
          <> quote group.id
          <> " references unknown DUT pin "
          <> quote spice_node)

  group_endpoints :
      ResolvedApplicationNodeGroup → List String → Dict String → Compiled (Dict String)
  unfolding strip_prefix quote group_pin
  group_endpoints group [] grouped = compiled grouped
  group_endpoints group (endpoint ∷ endpoints) grouped =
      required
        ("Application node group "
          <> quote group.id
          <> " contains non-DUT endpoint "
          <> quote endpoint)
        (strip_prefix "dut." endpoint)
      >>= λ spice_node. group_pin group spice_node grouped >>= λ grouped'.
          group_endpoints group endpoints grouped'

  group_all : List ResolvedApplicationNodeGroup → Dict String → Compiled (Dict String)
  unfolding group_endpoints
  group_all [] grouped = compiled grouped
  group_all (group ∷ groups) grouped =
      group_endpoints group group.dut_endpoints grouped >>= λ grouped'. group_all groups grouped'

  -- A pin of the model that has no node yet.
  free_pin : (spice_node : String) → Dict String → Compiled String
  unfolding has_key quote
  free_pin spice_node grouped =
      if has_key spice_node dut_nodes
      then if has_key spice_node grouped
        then compile_error (
            "Application logic overlay endpoint "
            <> quote spice_node
            <> " is not one detached DUT pin")
        else compiled spice_node
      else compile_error (
          "Application logic overlay endpoint "
          <> quote spice_node
          <> " is not one detached DUT pin")

  -- A pin that an overlay detaches.
  detached_pin : (endpoint : String) → Dict String → Compiled String
  unfolding strip_prefix quote free_pin
  detached_pin endpoint grouped =
      required ("Application logic overlay contains non-DUT endpoint " <> quote endpoint)
        (strip_prefix "dut." endpoint)
      >>= λ spice_node. free_pin spice_node grouped

  -- The node that the reference of an overlay has in the groups.
  reference_node : (reference : String) → Dict String → Compiled String
  unfolding strip_prefix lookup quote
  reference_node reference grouped =
      required
        ("Application logic overlay reference "
          <> quote reference
          <> " is not anchored by the resolved topology")
        (if str_eq reference "gnd"
          then some "0"
          else elim (strip_prefix "dut." reference) [ none ↦ none | some pin ↦ lookup pin grouped ])

  overlay_all : List ApplicationConditionOverlay → Dict String → Compiled (Dict String)
  unfolding detached_pin reference_node put
  overlay_all [] grouped = compiled grouped
  overlay_all (pulsed_source endpoint _ ∷ overlays) grouped =
      detached_pin endpoint grouped >>= λ spice_node. overlay_all overlays grouped
  overlay_all (logic_state endpoint reference _ _ ∷ overlays) grouped =
      detached_pin endpoint grouped >>= λ spice_node. reference_node reference grouped >>= λ node.
      overlay_all overlays (put spice_node node grouped)

-- What the resolver has when it is made.
pub record NodeResolver : Type 0 where
  pub dut_nodes : Dict String
  pub grouped_dut_nodes : Dict String

unfoldable pub get_node_resolver :
    {N : Type 0} → List ModelPin → ValidationCase N → Compiled NodeResolver
unfolding dut_nodes_of group_all overlay_all groups_of overlays_of
get_node_resolver pins c =
    let dut_nodes = dut_nodes_of pins in
    group_all dut_nodes (groups_of c) [] >>= λ grouped.
    overlay_all dut_nodes (overlays_of c) grouped >>= λ grouped'.
    compiled (record { dut_nodes = dut_nodes; grouped_dut_nodes = grouped' })

pin_node : NodeResolver → String → Option String
unfolding lookup
pin_node r pin = elim (lookup pin r.grouped_dut_nodes) [
  | some node ↦ some node
  | none ↦ lookup pin r.dut_nodes
]

-- The node of an endpoint that is read.
unfoldable pub node_of : NodeResolver → ParsedEndpoint → Compiled String
unfolding pin_node get_net_node_name quote
node_of r gnd = compiled "0"
node_of r (net identifier) = compiled (get_net_node_name identifier)
node_of r (dut identifier) =
    required ("Unknown DUT pin " <> quote identifier) (pin_node r identifier)

-- The function that `getNodeResolver` returns.
unfoldable pub resolve_node : NodeResolver → (endpoint : String) → Compiled String
unfolding parse_endpoint_syntax node_of quote
resolve_node r endpoint =
    required ("Invalid endpoint " <> quote endpoint) (parse_endpoint_syntax endpoint) >>= node_of r
