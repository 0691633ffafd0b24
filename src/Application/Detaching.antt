-- ===== src/Application/Detaching.antt =====
-- application-fixture-contract/resolver.ts: the pins that the conditions of an experiment detach.
use datasheet_to_tscircuit.Prelude.{
  String, Bool, true, false, not, ◌||◌, Option, some, List, [], ◌∷◌, if◌then◌else◌, leb, length,
  str_eq, ◌<>◌, decimal, member, add, discard,
}
use datasheet_to_tscircuit.Spice.Types.{ResolvedApplicationNodeGroup, ApplicationPassiveFixture}
use datasheet_to_tscircuit.Spice.Identifiers.{get_fixture_endpoints}

-- A value, or the `ApplicationConditionConflictError` that is thrown.
pub data Resolved (A : Type 0) : Type 0 where
  resolved : A → Resolved A
  condition_conflict : (message : String) (endpoint : Option String) → Resolved A

module _ {A B : Type 0} where
  infixl 5 ◌>>=◌
  abbrev pub ◌>>=◌ : Resolved A → (A → Resolved B) → Resolved B
  resolved a >>= f = f a
  condition_conflict message endpoint >>= f = condition_conflict message endpoint

-- `if (test) conditionConflict(message, endpoint)`
abbrev pub forbid : Bool → (message endpoint : String) → Resolved (Unit {0})
forbid true message endpoint = condition_conflict message (some endpoint)
forbid false message endpoint = resolved tt

-- The variables of `resolveApplicationFixtureForBinding` that `detachEndpoint` writes.
pub record Conditions : Type 0 where
  pub groups : List ResolvedApplicationNodeGroup
  pub conditioned_endpoints : List String

module _ {N : Type 0} where
  touches : (endpoint : String) → List (ApplicationPassiveFixture N) → Bool
  unfolding get_fixture_endpoints
  touches endpoint [] = false
  touches endpoint (fixture ∷ fixtures) =
      let (first, second) = get_fixture_endpoints fixture.element in
      str_eq first endpoint || str_eq second endpoint || touches endpoint fixtures

  unfoldable pub has_executable_anchor_after_detach :
      ResolvedApplicationNodeGroup → List (ApplicationPassiveFixture N) → Bool
  unfolding touches
  has_executable_anchor_after_detach group fixtures =
      group.is_ground
      || leb 1 (length group.dut_endpoints)
      || not (touches ("net." <> group.id) fixtures)

-- The groups that have an endpoint.
unfoldable pub containing_groups :
    (endpoint : String) → List ResolvedApplicationNodeGroup → List ResolvedApplicationNodeGroup
unfolding member
containing_groups endpoint [] = []
containing_groups endpoint (group ∷ groups) =
    let rest = containing_groups endpoint groups in
    if member endpoint group.dut_endpoints then group ∷ rest else rest

unfoldable pub without_endpoint :
    (endpoint : String) → ResolvedApplicationNodeGroup → ResolvedApplicationNodeGroup
unfolding discard
without_endpoint endpoint group = record group {
  dut_endpoints = discard endpoint group.dut_endpoints;
}

-- The first group that has the endpoint, an object of `groups`, loses it in place.
unfoldable pub detach_first :
    (endpoint : String) → List ResolvedApplicationNodeGroup → List ResolvedApplicationNodeGroup
unfolding without_endpoint member
detach_first endpoint [] = []
detach_first endpoint (group ∷ groups) =
    let rest = detach_first endpoint groups in
    if member endpoint group.dut_endpoints
    then without_endpoint endpoint group ∷ groups
    else group ∷ rest

module _ {N : Type 0} where
  unfoldable pub detach_from :
      List (ApplicationPassiveFixture N)
      → (endpoint : String) → List ResolvedApplicationNodeGroup
      → Conditions
      → Resolved (String × Conditions)
  unfolding without_endpoint detach_first has_executable_anchor_after_detach decimal
  detach_from fixtures endpoint (group ∷ []) s =
      forbid (not (has_executable_anchor_after_detach (without_endpoint endpoint group) fixtures))
        ("condition endpoint " <> endpoint
          <> " is the only electrical anchor for non-ground application node " <> group.source_net
          <> "; detaching it would orphan a required passive/network")
        endpoint
      >>= λ _. resolved (group.id, record s { groups = detach_first endpoint s.groups })
  detach_from fixtures endpoint containing s =
      condition_conflict
        ("condition endpoint "
          <> endpoint
          <> " belongs to "
          <> decimal (length containing)
          <> " application node groups; expected one uniquely detachable U1 leaf")
        (some endpoint)

  unfoldable pub detach_endpoint :
      List (ApplicationPassiveFixture N)
      → (endpoint : String) → Conditions
      → Resolved (String × Conditions)
  unfolding detach_from containing_groups member add
  detach_endpoint fixtures endpoint s =
      forbid (str_eq endpoint "gnd") "condition cannot detach the global ground endpoint" endpoint
      >>= λ _.
          forbid (member endpoint s.conditioned_endpoints)
            ("endpoint " <> endpoint <> " is conditioned more than once") endpoint
          >>= λ _.
              detach_from fixtures endpoint (containing_groups endpoint s.groups)
                (record s { conditioned_endpoints = add endpoint s.conditioned_endpoints })
