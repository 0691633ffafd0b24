-- ===== src/Application/Resolving/Anchored.antt =====
-- The pins that are detached, and what their overlays tie them to.
use datasheet_to_tscircuit.Prelude.{
  String, true, false, not, ◌&&◌, none, List, [], ◌∷◌, map, if◌then◌else◌, str_eq, eq_iff, All,
  All-map, ◌≡◌, ◌⊎◌, inl, inr, subst, arith, Bool-cases,
}
use datasheet_to_tscircuit.Spice.Types.{
  ResolvedApplicationNodeGroup, ApplicationPassiveFixture, ApplicationConditionOverlay, logic_state,
  pulsed_source, ResolvedApplicationFixture,
}
use datasheet_to_tscircuit.Application.Types.{
  ApplicationFixtureContract, ModelReferenceElectricalBinding,
}
use datasheet_to_tscircuit.Application.Detaching.{resolved, condition_conflict}
use datasheet_to_tscircuit.Application.Resolving.{
  is_present, Topology, condition_all, condition_stimulus, check_overlays, auxiliaries_of,
  conditioned_topology, copied_group, resolve_application_fixture_for_binding,
}
use datasheet_to_tscircuit.Application.Projection.{executable_application_projection}
use datasheet_to_tscircuit.Application.Resolving.Detached.{is_present-keep}
use datasheet_to_tscircuit.Application.Resolving.Conditioned.{
  bind-eq-resolved, forbid-bind, pin_of, condition_all-AreDetached, condition_stimulus-AreDetached,
}

-- A logic state refers to the ground or to a pin of a group.
abbrev pub IsAnchored : List ResolvedApplicationNodeGroup → ApplicationConditionOverlay → Type 0
IsAnchored groups (pulsed_source _ _) = Unit
IsAnchored groups (logic_state _ reference _ _) =
    (reference ≡ "gnd") ⊎ (is_present reference groups ≡ true)

check_overlays-IsAnchored :
    (overlays : List ApplicationConditionOverlay) (groups : List ResolvedApplicationNodeGroup)
    (u : Unit {0})
    → check_overlays overlays groups ≡ resolved u
    → All (IsAnchored groups) overlays
unfolding check_overlays
check_overlays-IsAnchored [] groups u h = tt
check_overlays-IsAnchored (pulsed_source _ _ ∷ overlays) groups u h =
    (tt, check_overlays-IsAnchored overlays groups u h)
check_overlays-IsAnchored (logic_state endpoint reference _ _ ∷ overlays) groups u h =
    let (clear, rest) =
      forbid-bind (not (str_eq reference "gnd") && not (is_present reference groups)) _ endpoint
        (λ _. check_overlays overlays groups) h in
    (
      elim (Bool-cases (str_eq reference "gnd")) [
        | inl ground ↦ inl ((eq_iff reference "gnd").0 ground)
        | inr other ↦ inr (ground (arith, clear, other))
      ],
      check_overlays-IsAnchored overlays groups u rest,
    )

-- The pin of each overlay is in no group that is left, and each reference is anchored.
conditioned_topology_detaches :
    {N : Type 0} (contract : ApplicationFixtureContract N)
    (binding : ModelReferenceElectricalBinding N) (t : Topology)
    → conditioned_topology contract binding ≡ resolved t
    → All
        (λ o.
          (is_present (pin_of o) t.conditions.groups ≡ false) × IsAnchored t.conditions.groups o)
        t.condition_overlays
unfolding conditioned_topology
conditioned_topology_detaches contract binding t h =
    let start : Topology = record {
      conditions = record {
        groups = map copied_group contract.node_groups;
        conditioned_endpoints = [];
      };
      condition_overlays = [];
    } in
    let (_, _, h1) =
      bind-eq-resolved
        (if str_eq contract.availability "documented"
          then resolved tt
          else condition_conflict
              "a reference experiment cannot use an unavailable typical-application fixture" none)
        _ h in
    let (t1, first, h2) =
      bind-eq-resolved (condition_all contract.fixtures (auxiliaries_of binding) start) _ h1 in
    let (t2, second, h3) =
      bind-eq-resolved
        (condition_stimulus contract.fixtures binding.stimulus (auxiliaries_of binding) t1) _ h2 in
    let (u, checked, h4) =
      bind-eq-resolved (check_overlays t2.condition_overlays t2.conditions.groups) _ h3 in
    let detached =
      condition_stimulus-AreDetached contract.fixtures binding.stimulus (auxiliaries_of binding) t1
        t2 second
        (condition_all-AreDetached contract.fixtures (auxiliaries_of binding) start t1 first tt) in
    let anchored = check_overlays-IsAnchored t2.condition_overlays t2.conditions.groups u checked in
    let same : t2 ≡ t = cc in
    subst
      (λ s.
        All
          (λ o.
            (is_present (pin_of o) s.conditions.groups ≡ false) × IsAnchored s.conditions.groups o)
          s.condition_overlays)
      same (both _ _ t2.condition_overlays detached anchored)
  where
    both :
        {A : Type 0} (P Q : A → Type 0) (xs : List A)
        → All P xs
        → All Q xs
        → All (λ x. P x × Q x) xs
    both P Q [] p q = tt
    both P Q (x ∷ xs) (p, ps) (q, qs) = ((p, q), both P Q xs ps qs)

-- If the topology of an experiment is resolved, then the pin of each overlay is in no node group of the
-- fixture that is answered; and each logic state refers to the ground or to a pin of a group that is
-- there when all conditions are applied, before the projection to what is executable.
pub resolve_application_fixture_detaches :
    {N : Type 0}
    (hash : (contract_sha256 : String) (node_groups : List ResolvedApplicationNodeGroup)
        (fixtures : List (ApplicationPassiveFixture N))
        (condition_overlays : List ApplicationConditionOverlay)
      → String)
    (contract : ApplicationFixtureContract N) (binding : ModelReferenceElectricalBinding N)
    (fixture : ResolvedApplicationFixture N)
    → resolve_application_fixture_for_binding hash contract binding ≡ resolved fixture
    → All (λ o. is_present (pin_of o) fixture.node_groups ≡ false) fixture.condition_overlays
      × ((t : Topology) × (conditioned_topology contract binding ≡ resolved t)
          × All (IsAnchored t.conditions.groups) fixture.condition_overlays)
unfolding resolve_application_fixture_for_binding executable_application_projection
resolve_application_fixture_detaches hash contract binding fixture h =
    let (t, conditioned, made) = bind-eq-resolved (conditioned_topology contract binding) _ h in
    let (groups, fixtures) =
      executable_application_projection t.conditions.groups contract.fixtures in
    let answer : ResolvedApplicationFixture _ = record {
      contract_sha256 = contract.contract_sha256;
      node_groups = groups;
      fixtures = fixtures;
      condition_overlays = t.condition_overlays;
      topology_sha256 = hash contract.contract_sha256 groups fixtures t.condition_overlays;
    } in
    let same : answer ≡ fixture = cc made in
    let all = conditioned_topology_detaches contract binding t conditioned in
    subst
      (λ f.
        All (λ o. is_present (pin_of o) f.node_groups ≡ false) f.condition_overlays
        × ((s : Topology) × (conditioned_topology contract binding ≡ resolved s)
            × All (IsAnchored s.conditions.groups) f.condition_overlays))
      same
      (
        All-map t.condition_overlays
            (λ o (d, _). is_present-keep (pin_of o) _ t.conditions.groups d) all,
        (t, conditioned, All-map t.condition_overlays (λ o (_, a). a) all),
      )
