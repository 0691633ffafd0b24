-- ===== src/Spice/Types.antt =====
-- spice-validation/types.ts and the types of modeling/ that a validation case holds.
-- `N` is the type of the JavaScript numbers. An endpoint is its text.
use datasheet_to_tscircuit.Prelude.{String, Bool, Option, List}

pub record PulseSpecification (N : Type 0) : Type 0 where
  pub low : N
  pub high : N
  pub delay : N
  pub rise : N
  pub fall : N
  pub width : N
  pub period : N

pub data FixtureElement (N : Type 0) : Type 0 where
  resistor : (id positive negative : String) (resistance_ohms : N) → FixtureElement N
  capacitor : (id positive negative : String) (capacitance_farads : N) → FixtureElement N
  inductor : (id positive negative : String) (inductance_henries : N) → FixtureElement N
  voltage_source :
      (id positive negative : String) (dc_volts : N) (pulse : Option (PulseSpecification N))
      → FixtureElement N
  current_source :
      (id positive negative : String) (dc_amps : N) (pulse : Option (PulseSpecification N))
      → FixtureElement N
  diode : (id anode cathode : String) → FixtureElement N

pub data ValidationAnalysis (N : Type 0) : Type 0 where
  operating_point : ValidationAnalysis N
  dc_sweep : (source_id : String) (start stop step : N) → ValidationAnalysis N
  transient : (step stop : N) (start : Option N) → ValidationAnalysis N

pub record CurvePoint (N : Type 0) : Type 0 where
  pub x : N
  pub y : N

pub data ReferenceContract (N : Type 0) : Type 0 where
  target : (target tolerance : N) → ReferenceContract N
  bounds : (min max : Option N) → ReferenceContract N
  curve : (tolerance : N) (points : List (CurvePoint N)) → ReferenceContract N

pub data ObservationRole : Type 0 where
  response stimulus : ObservationRole

pub data ObservationScale : Type 0 where
  linear log : ObservationScale

pub data CurrentDirection : Type 0 where
  positive_to_negative negative_to_positive : CurrentDirection

-- What an observation measures: its unit is V or A.
pub data Measurement : Type 0 where
  voltage : (positive negative : String) → Measurement
  current : (element_id : String) (direction : Option CurrentDirection) → Measurement

-- The evidence of an observation is shown beside its result and read by no definition here.
pub record ValidationObservation (N : Type 0) : Type 0 where
  pub id : String
  pub role : Option ObservationRole
  pub requirement_id : String
  pub scale : ObservationScale
  pub reference : ReferenceContract N
  pub measurement : Measurement

pub record ResolvedApplicationNodeGroup : Type 0 where
  pub id : String
  pub source_net : String
  pub is_ground : Bool
  pub dut_endpoints : List String
  pub external_terminals : List String

pub data LogicState : Type 0 where
  low high : LogicState

pub data ApplicationConditionOverlay : Type 0 where
  logic_state :
      (endpoint reference : String) (state : LogicState) (detached_from_node_group_id : String)
      → ApplicationConditionOverlay
  pulsed_source : (endpoint detached_from_node_group_id : String) → ApplicationConditionOverlay

-- An application passive is a fixture element with its reference in the source and two terminals.
pub record ApplicationPassiveFixture (N : Type 0) : Type 0 where
  pub reference : String
  pub source_terminals : String × String
  pub element : FixtureElement N

pub record ResolvedApplicationFixture (N : Type 0) : Type 0 where
  pub contract_sha256 : String
  pub node_groups : List ResolvedApplicationNodeGroup
  pub fixtures : List (ApplicationPassiveFixture N)
  pub condition_overlays : List ApplicationConditionOverlay
  pub topology_sha256 : String

pub record ValidationCase (N : Type 0) : Type 0 where
  pub id : String
  pub title : Option String
  pub requirement_ids : List String
  pub nets : List String
  pub fixtures : List (FixtureElement N)
  pub analysis : ValidationAnalysis N
  pub observations : List (ValidationObservation N)
  pub application_fixture : Option (ResolvedApplicationFixture N)

-- A pin of the model, with its pin of the component.
pub record ModelPin : Type 0 where
  pub component_pin : String
  pub spice_node : String

pub record ValidationPathError : Type 0 where
  pub path : String
  pub code : String
  pub message : String
