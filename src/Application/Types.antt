-- ===== src/Application/Types.antt =====
-- modeling/application-fixture-contract/types.ts, and the electrical binding of modeling/types.ts.
use datasheet_to_tscircuit.Prelude.{String, Bool, Option, List}
use datasheet_to_tscircuit.Spice.Types.{PulseSpecification, LogicState, ApplicationPassiveFixture}

pub record ApplicationFixtureNodeGroup : Type 0 where
  pub id : String
  pub source_net : String
  pub is_ground : Bool
  pub source_endpoints : List String
  pub dut_endpoints : List String
  pub external_terminals : List String

-- The components that are not executable are named in the contract and read by no definition here.
pub record ApplicationFixtureContract (N : Type 0) : Type 0 where
  pub availability : String
  pub source_plan_sha256 : String
  pub source_pdf_sha256 : String
  pub ground_node_group_id : Option String
  pub node_groups : List ApplicationFixtureNodeGroup
  pub fixtures : List (ApplicationPassiveFixture N)
  pub contract_sha256 : String

pub data ModelReferenceAuxiliaryFixture (N : Type 0) : Type 0 where
  dc_voltage : (positive negative : String) (dc_volts : N) → ModelReferenceAuxiliaryFixture N
  dc_current : (positive negative : String) (dc_amps : N) → ModelReferenceAuxiliaryFixture N
  logic_state :
      (endpoint reference : String) (state : LogicState) → ModelReferenceAuxiliaryFixture N
  resistor : (positive negative : String) (resistance_ohms : N) → ModelReferenceAuxiliaryFixture N

pub data ModelReferenceStimulus (N : Type 0) : Type 0 where
  steady_state : ModelReferenceStimulus N
  voltage_step current_step :
      (positive negative : String) (pulse : PulseSpecification N) → ModelReferenceStimulus N

pub record ModelReferenceElectricalBinding (N : Type 0) : Type 0 where
  pub application_fixture_sha256 : Option String
  pub application_topology_sha256 : Option String
  pub response_positive : String
  pub response_negative : String
  pub nominal_volts : Option N
  pub stimulus : ModelReferenceStimulus N
  pub auxiliary_fixtures : Option (List (ModelReferenceAuxiliaryFixture N))
