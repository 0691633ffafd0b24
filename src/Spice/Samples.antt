-- ===== src/Spice/Samples.antt =====
-- Validation cases to evaluate the definitions on.
use datasheet_to_tscircuit.Prelude.{
  ℕ, true, false, none, some, List, [], ◌∷◌, ltb, leb, ◌+◌, ◌-◌, ◌*◌, digit_text,
}
use datasheet_to_tscircuit.Spice.Types.{
  resistor, voltage_source, operating_point, target, response, linear, voltage, current,
  ValidationObservation, ResolvedApplicationNodeGroup, high, logic_state, ValidationCase, ModelPin,
}
use datasheet_to_tscircuit.Spice.Numbers.{Numbers}

-- Natural numbers in the place of the JavaScript numbers.
abbrev pub naturals : Numbers
naturals = record {
  Number = ℕ;
  zero_number = 0;
  one_number = 1;
  range_epsilon = 0;
  less = ltb;
  at_most = leb;
  subtract = λ a b. a - b;
  add_numbers = λ a b. a + b;
  multiply = λ a b. a * b;
  absolute = λ a. a;
  is_finite = λ a. true;
  is_minus_zero = λ a. false;
  number_text = digit_text;
}

abbrev pub pins : List ModelPin
pins =
    record { component_pin = "pin1"; spice_node = "VIN" }
    ∷ record { component_pin = "pin2"; spice_node = "OUT" }
    ∷ record { component_pin = "pin3"; spice_node = "EN" }
    ∷ record { component_pin = "pin4"; spice_node = "GND" }
    ∷ []

abbrev output : ValidationObservation ℕ
output = record {
  id = "out";
  role = some response;
  requirement_id = "gain";
  scale = linear;
  reference = target 2 1;
  measurement = voltage "net.A" "gnd";
}

abbrev supply_current : ValidationObservation ℕ
supply_current = record {
  id = "supply";
  role = none;
  requirement_id = "gain";
  scale = linear;
  reference = target 2 1;
  measurement = current "vin" none;
}

-- A source at one pin, and two resistors from another pin to the ground.
abbrev pub divider : ValidationCase ℕ
divider = record {
  id = "divider";
  title = none;
  requirement_ids = "gain" ∷ [];
  nets = "A" ∷ [];
  fixtures =
      voltage_source "vin" "dut.VIN" "gnd" 5 none
      ∷ resistor "upper" "dut.OUT" "net.A" 1
      ∷ resistor "lower" "net.A" "gnd" 2
      ∷ [];
  analysis = operating_point;
  observations = output ∷ supply_current ∷ [];
  application_fixture = none;
}

abbrev pub supply_group : ResolvedApplicationNodeGroup
supply_group = record {
  id = "N1";
  source_net = "VIN";
  is_ground = false;
  dut_endpoints = "dut.VIN" ∷ "dut.OUT" ∷ [];
  external_terminals = [];
}

abbrev pub ground_group : ResolvedApplicationNodeGroup
ground_group = record {
  id = "N2";
  source_net = "GND";
  is_ground = true;
  dut_endpoints = "dut.GND" ∷ [];
  external_terminals = [];
}

-- The divider in an application whose enable pin is tied to the supply.
abbrev pub application : ValidationCase ℕ
application = record divider {
  nets = "A" ∷ "N1" ∷ [];
  application_fixture = some (record {
    contract_sha256 = "";
    node_groups = supply_group ∷ ground_group ∷ [];
    fixtures = [];
    condition_overlays = logic_state "dut.EN" "dut.VIN" high "N1" ∷ [];
    topology_sha256 = "";
  });
}
