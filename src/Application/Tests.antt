-- ===== src/Application/Tests.antt =====
-- Runs of the definitions, and the theorems at concrete inputs.
use datasheet_to_tscircuit.Prelude.{
  ℕ, String, true, false, none, some, List, [], ◌∷◌, ◌≡◌, refl, All,
}
use datasheet_to_tscircuit.Spice.Types.{
  high, logic_state, ResolvedApplicationNodeGroup, ResolvedApplicationFixture,
}
use datasheet_to_tscircuit.Spice.Compiled.{compile_error}
use datasheet_to_tscircuit.Spice.Resolver.{get_node_resolver}
use datasheet_to_tscircuit.Spice.Samples.{pins, divider}
use datasheet_to_tscircuit.Application.Types.{
  ApplicationFixtureNodeGroup, ApplicationFixtureContract, ModelReferenceAuxiliaryFixture,
  steady_state, ModelReferenceElectricalBinding,
}
use datasheet_to_tscircuit.Application.Projection.{retain_all}
use datasheet_to_tscircuit.Application.Projection.Passes.{IsClosed, IsWithin}
use datasheet_to_tscircuit.Application.Projection.Least.{retain_all-IsLeast}
use datasheet_to_tscircuit.Application.Detaching.{resolved}
use datasheet_to_tscircuit.Application.Resolving.{
  Topology, is_present, conditioned_topology, resolve_application_fixture_for_binding,
}
use datasheet_to_tscircuit.Application.Resolving.Conditioned.{pin_of}
use datasheet_to_tscircuit.Application.Resolving.Anchored.{
  IsAnchored, resolve_application_fixture_detaches,
}

program : Unit {0}
unfolding retain_all conditioned_topology resolve_application_fixture_for_binding get_node_resolver
program = tt

-- Three groups in a row, of which the first is a root, and one apart.
retained_row :
    retain_all (("B" ∷ "C" ∷ []) ∷ ("A" ∷ "B" ∷ []) ∷ ("D" ∷ "E" ∷ []) ∷ []) ("A" ∷ [])
    ≡ "A" ∷ "B" ∷ "C" ∷ []
unfolding program
retained_row = refl

abbrev supply : ApplicationFixtureNodeGroup
supply = record {
  id = "N1";
  source_net = "VIN";
  is_ground = false;
  source_endpoints = [];
  dut_endpoints = "dut.VIN" ∷ "dut.EN" ∷ [];
  external_terminals = "J1" ∷ [];
}

abbrev ground : ApplicationFixtureNodeGroup
ground = record {
  id = "N2";
  source_net = "GND";
  is_ground = true;
  source_endpoints = [];
  dut_endpoints = "dut.GND" ∷ [];
  external_terminals = [];
}

abbrev contract : ApplicationFixtureContract ℕ
contract = record {
  availability = "documented";
  source_plan_sha256 = "";
  source_pdf_sha256 = "";
  ground_node_group_id = some "N2";
  node_groups = supply ∷ ground ∷ [];
  fixtures = [];
  contract_sha256 = "";
}

-- The enable pin is high.
abbrev binding : ModelReferenceElectricalBinding ℕ
binding = record {
  application_fixture_sha256 = none;
  application_topology_sha256 = none;
  response_positive = "dut.OUT";
  response_negative = "gnd";
  nominal_volts = none;
  stimulus = steady_state;
  auxiliary_fixtures =
      some (ModelReferenceAuxiliaryFixture.logic_state "dut.EN" "dut.VIN" high ∷ []);
}

abbrev left_supply : ResolvedApplicationNodeGroup
left_supply = record {
  id = "N1";
  source_net = "VIN";
  is_ground = false;
  dut_endpoints = "dut.VIN" ∷ [];
  external_terminals = "J1" ∷ [];
}

abbrev left_ground : ResolvedApplicationNodeGroup
left_ground = record {
  id = "N2";
  source_net = "GND";
  is_ground = true;
  dut_endpoints = "dut.GND" ∷ [];
  external_terminals = [];
}

abbrev topology : Topology
topology = record {
  conditions = record {
    groups = left_supply ∷ left_ground ∷ [];
    conditioned_endpoints = "dut.EN" ∷ [];
  };
  condition_overlays = logic_state "dut.EN" "dut.VIN" high "N1" ∷ [];
}

conditioned : conditioned_topology contract binding ≡ resolved topology
unfolding program
conditioned = refl

-- The projection drops the group of the reference, which then has one pin and no fixture, and the
-- resolver of the compiler refuses the topology.
abbrev fixture : ResolvedApplicationFixture ℕ
fixture = record {
  contract_sha256 = "";
  node_groups = left_ground ∷ [];
  fixtures = [];
  condition_overlays = logic_state "dut.EN" "dut.VIN" high "N1" ∷ [];
  topology_sha256 = "";
}

dropped :
    (resolve_application_fixture_for_binding (λ c groups fixtures overlays. "") contract binding
      ≡ resolved fixture)
    × (get_node_resolver pins (record divider { application_fixture = some fixture })
        ≡ compile_error
            "Application logic overlay reference \"dut.VIN\" is not anchored by the resolved topology")
unfolding program
dropped = (refl, refl)

resolve_application_fixture_detaches_example :
    All (λ o. is_present (pin_of o) fixture.node_groups ≡ false) fixture.condition_overlays
    × ((t : Topology) × (conditioned_topology contract binding ≡ resolved t)
        × All (IsAnchored t.conditions.groups) fixture.condition_overlays)
resolve_application_fixture_detaches_example =
    resolve_application_fixture_detaches (λ c groups fixtures overlays. "") contract binding fixture
      dropped.0

abbrev chains : List (List String)
chains = ("B" ∷ "C" ∷ []) ∷ ("A" ∷ "B" ∷ []) ∷ ("D" ∷ "E" ∷ []) ∷ []

retain_all-IsLeast_example :
    IsWithin ("A" ∷ []) (retain_all chains ("A" ∷ []))
    × IsClosed chains (retain_all chains ("A" ∷ []))
    × ((t : List String)
        → IsWithin ("A" ∷ []) t
        → IsClosed chains t
        → IsWithin (retain_all chains ("A" ∷ [])) t)
retain_all-IsLeast_example = retain_all-IsLeast chains ("A" ∷ [])
