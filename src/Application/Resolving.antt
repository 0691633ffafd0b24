-- ===== src/Application/Resolving.antt =====
-- application-fixture-contract/resolver.ts: the topology of one experiment.
-- The contract is the one that `parseApplicationFixtureContract` returns, and the digest of a topology
-- is a parameter.
pub mod Detached
pub mod Conditioned
pub mod Anchored
use datasheet_to_tscircuit.Prelude.{
  String, Bool, true, false, not, ◌||◌, ◌&&◌, Option, none, some, List, [], ◌∷◌, ◌++◌, map,
  if◌then◌else◌, str_eq, ◌<>◌, member,
}
use datasheet_to_tscircuit.Spice.Types.{
  LogicState, low, high, ResolvedApplicationNodeGroup, ApplicationPassiveFixture,
  ApplicationConditionOverlay, logic_state, pulsed_source, ResolvedApplicationFixture,
}
use datasheet_to_tscircuit.Application.Types.{
  ApplicationFixtureNodeGroup, ApplicationFixtureContract, ModelReferenceAuxiliaryFixture,
  dc_voltage, dc_current, resistor, ModelReferenceStimulus, steady_state, voltage_step,
  current_step, ModelReferenceElectricalBinding,
}
use datasheet_to_tscircuit.Application.Projection.{executable_application_projection}
use datasheet_to_tscircuit.Application.Detaching.{
  Resolved, resolved, condition_conflict, ◌>>=◌, forbid, Conditions, detach_endpoint,
}

copied_group : ApplicationFixtureNodeGroup → ResolvedApplicationNodeGroup
copied_group group = record {
  id = group.id;
  source_net = group.source_net;
  is_ground = group.is_ground;
  dut_endpoints = group.dut_endpoints;
  external_terminals = group.external_terminals;
}

-- `groups.some((group) => group.dut_endpoints.includes(endpoint))`
unfoldable pub is_present : String → List ResolvedApplicationNodeGroup → Bool
unfolding member
is_present endpoint [] = false
is_present endpoint (group ∷ groups) =
    member endpoint group.dut_endpoints || is_present endpoint groups

abbrev is_low : LogicState → Bool
is_low low = true
is_low high = false

-- The groups and the overlays of the experiment so far.
pub record Topology : Type 0 where
  pub conditions : Conditions
  pub condition_overlays : List ApplicationConditionOverlay

-- The checks of a logic state, before its endpoint is detached.
check_logic_state :
    (endpoint reference : String)
    → LogicState
    → List ResolvedApplicationNodeGroup
    → Resolved (Unit {0})
unfolding is_present
check_logic_state endpoint reference state groups =
    forbid (str_eq reference endpoint)
      ("logic-state endpoint " <> endpoint <> " cannot reference itself") endpoint
    >>= λ _.
        forbid (is_low state && not (str_eq reference "gnd"))
          ("logic-low endpoint " <> endpoint <> " must reference gnd") endpoint
        >>= λ _.
            forbid (not (is_low state) && str_eq reference "gnd")
              ("logic-high endpoint " <> endpoint <> " must reference a public supply endpoint")
              endpoint
            >>= λ _.
                forbid (not (str_eq reference "gnd") && not (is_present reference groups))
                  ("logic-state reference " <> reference
                    <> " is not present in the application topology")
                  endpoint

module _ {N : Type 0} (fixtures : List (ApplicationPassiveFixture N)) where
  condition_logic_state : (endpoint reference : String) → LogicState → Topology → Resolved Topology
  unfolding check_logic_state detach_endpoint
  condition_logic_state endpoint reference state t =
      check_logic_state endpoint reference state t.conditions.groups >>= λ _.
      detach_endpoint fixtures endpoint t.conditions >>= λ (id, conditions). resolved (record {
        conditions = conditions;
        condition_overlays = t.condition_overlays ++ logic_state endpoint reference state id ∷ [];
      })

  -- The other auxiliary fixtures detach nothing.
  pub condition_all : List (ModelReferenceAuxiliaryFixture N) → Topology → Resolved Topology
  unfolding condition_logic_state
  condition_all [] t = resolved t
  condition_all (ModelReferenceAuxiliaryFixture.logic_state endpoint reference state ∷ rest) t =
      condition_logic_state endpoint reference state t >>= condition_all rest
  condition_all (_ ∷ rest) t = condition_all rest t

  abbrev has_separate_dc_supply :
      (endpoint : String) → List (ModelReferenceAuxiliaryFixture N) → Bool
  has_separate_dc_supply endpoint [] = false
  has_separate_dc_supply endpoint (dc_voltage positive _ _ ∷ rest) =
      not (str_eq positive endpoint) || has_separate_dc_supply endpoint rest
  has_separate_dc_supply endpoint (_ ∷ rest) = has_separate_dc_supply endpoint rest

  detach_pulsed : (endpoint : String) → Topology → Resolved Topology
  unfolding detach_endpoint
  detach_pulsed endpoint t = detach_endpoint fixtures endpoint t.conditions >>= λ (id, conditions).
      resolved (record {
        conditions = conditions;
        condition_overlays = t.condition_overlays ++ pulsed_source endpoint id ∷ [];
      })

  pub condition_stimulus :
      ModelReferenceStimulus N
      → List (ModelReferenceAuxiliaryFixture N)
      → Topology
      → Resolved Topology
  unfolding detach_pulsed
  condition_stimulus (voltage_step positive _ _) auxiliaries t =
      let detached = detach_pulsed positive t in
      if has_separate_dc_supply positive auxiliaries then detached else resolved t
  condition_stimulus _ auxiliaries t = resolved t

-- Each reference is still there when all endpoints are detached.
check_overlays :
    List ApplicationConditionOverlay → List ResolvedApplicationNodeGroup → Resolved (Unit {0})
unfolding is_present
check_overlays [] groups = resolved tt
check_overlays (pulsed_source _ _ ∷ overlays) groups = check_overlays overlays groups
check_overlays (logic_state endpoint reference _ _ ∷ overlays) groups =
    forbid (not (str_eq reference "gnd") && not (is_present reference groups))
      ("logic-state reference " <> reference
        <> " was detached by another condition and no longer anchors the application topology")
      endpoint
    >>= λ _. check_overlays overlays groups

-- `auxiliary_fixtures ?? []`
abbrev auxiliaries_of :
    {N : Type 0} → ModelReferenceElectricalBinding N → List (ModelReferenceAuxiliaryFixture N)
auxiliaries_of binding = elim binding.auxiliary_fixtures [ none ↦ [] | some fixtures ↦ fixtures ]

module _ {N : Type 0} where
  -- The groups and the overlays, before the projection.
  unfoldable pub conditioned_topology :
      ApplicationFixtureContract N → ModelReferenceElectricalBinding N → Resolved Topology
  unfolding copied_group condition_all condition_stimulus check_overlays
  conditioned_topology contract binding =
      let start : Topology = record {
        conditions = record {
          groups = map copied_group contract.node_groups;
          conditioned_endpoints = [];
        };
        condition_overlays = [];
      } in
      (if str_eq contract.availability "documented"
        then resolved tt
        else condition_conflict
            "a reference experiment cannot use an unavailable typical-application fixture" none)
      >>= λ _. condition_all contract.fixtures (auxiliaries_of binding) start >>= λ t.
          condition_stimulus contract.fixtures binding.stimulus (auxiliaries_of binding) t >>= λ t'.
          check_overlays t'.condition_overlays t'.conditions.groups >>= λ _. resolved t'

  -- `hash` is `hashResolvedApplicationFixture`, of all fields but the digest.
  unfoldable pub resolve_application_fixture_for_binding :
      (hash : (contract_sha256 : String) (node_groups : List ResolvedApplicationNodeGroup)
          (fixtures : List (ApplicationPassiveFixture N))
          (condition_overlays : List ApplicationConditionOverlay)
        → String)
      → ApplicationFixtureContract N
      → ModelReferenceElectricalBinding N
      → Resolved (ResolvedApplicationFixture N)
  unfolding conditioned_topology executable_application_projection
  resolve_application_fixture_for_binding hash contract binding =
      conditioned_topology contract binding >>= λ t.
      let (groups, fixtures) =
        executable_application_projection t.conditions.groups contract.fixtures in
      resolved (record {
        contract_sha256 = contract.contract_sha256;
        node_groups = groups;
        fixtures = fixtures;
        condition_overlays = t.condition_overlays;
        topology_sha256 = hash contract.contract_sha256 groups fixtures t.condition_overlays;
      })
