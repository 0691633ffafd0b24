-- ===== src/Application/Projection.antt =====
-- application-fixture-contract/resolver.ts: the executable part of an application.
pub mod Passes
pub mod Least
use datasheet_to_tscircuit.Prelude.{
  ℕ, zero, suc, ◌+◌, String, Bool, true, false, not, ◌||◌, ◌&&◌, Option, none, some, List, [], ◌∷◌,
  ◌++◌, map, if◌then◌else◌, ltb, leb, length, str_eq, ◌<>◌, strip_prefix, member, add, all,
}
use datasheet_to_tscircuit.Spice.Types.{
  FixtureElement, ResolvedApplicationNodeGroup, ApplicationPassiveFixture,
}
use datasheet_to_tscircuit.Spice.Identifiers.{get_fixture_endpoints}

-- The node group of an endpoint of a fixture.
group_of : String → List String
unfolding strip_prefix
group_of endpoint = elim (strip_prefix "net." endpoint) [ none ↦ [] | some id ↦ id ∷ [] ]

module _ {N : Type 0} where
  unfoldable pub fixture_group_ids : ApplicationPassiveFixture N → List String
  unfolding get_fixture_endpoints group_of
  fixture_group_ids fixture =
      let (first, second) = get_fixture_endpoints fixture.element in
      group_of first ++ group_of second

abbrev any_retained : List String → List String → Bool
any_retained retained [] = false
any_retained retained (id ∷ ids) = member id retained || any_retained retained ids

abbrev all_retained : List String → List String → Bool
all_retained retained [] = true
all_retained retained (id ∷ ids) = member id retained && all_retained retained ids

-- The retained ids, and whether the pass has added one.
pub record Pass : Type 0 where
  pub ids : List String
  pub changed : Bool

retain_ids : List String → Pass → Pass
unfolding member add
retain_ids [] pass = pass
retain_ids (id ∷ ids) pass =
    retain_ids ids
      (if member id pass.ids then pass else record { ids = add id pass.ids; changed = true })

-- One pass over the group ids of the fixtures.
unfoldable pub retain_pass : List (List String) → Pass → Pass
unfolding retain_ids member
retain_pass [] pass = pass
retain_pass (ids ∷ fixtures) pass =
    retain_pass fixtures (if any_retained pass.ids ids then retain_ids ids pass else pass)

-- `while (changed)`; `none` is a loop that is out of fuel.
retain_loop : ℕ → List (List String) → List String → Option (List String)
unfolding retain_pass
retain_loop zero fixtures retained = none
retain_loop (suc fuel) fixtures retained =
    let pass = retain_pass fixtures (record { ids = retained; changed = false }) in
    let rest = retain_loop fuel fixtures pass.ids in if pass.changed then rest else some pass.ids

abbrev pub id_count : List (List String) → ℕ
id_count [] = 0
id_count (ids ∷ fixtures) = length ids + id_count fixtures

-- A pass that changes adds an id, so that there is one round more than there are ids.
unfoldable pub retain_all : List (List String) → List String → List String
unfolding retain_loop
retain_all fixtures roots = elim (retain_loop (suc (id_count fixtures)) fixtures roots) [
  | none ↦ roots
  | some ids ↦ ids
]

-- A group that is kept whatever its fixtures are: the ground, a node of two pins, and a node of a
-- pin and a fixture.
abbrev is_root : List String → ResolvedApplicationNodeGroup → Bool
is_root passive_group_ids group =
    group.is_ground
    || leb 2 (length group.dut_endpoints)
    || leb 1 (length group.dut_endpoints) && member group.id passive_group_ids

unfoldable pub root_ids : List String → List ResolvedApplicationNodeGroup → List String
unfolding member
root_ids passive_group_ids [] = []
root_ids passive_group_ids (group ∷ groups) =
    let rest = root_ids passive_group_ids groups in
    if is_root passive_group_ids group then group.id ∷ rest else rest

abbrev pub keep : {A : Type 0} → (A → Bool) → List A → List A
keep p [] = []
keep p (x ∷ xs) = let rest = keep p xs in if p x then x ∷ rest else rest

abbrev join_ids : List (List String) → List String
join_ids [] = []
join_ids (ids ∷ rest) = ids ++ join_ids rest

module _ {N : Type 0} where
  unfoldable pub executable_application_projection :
      List ResolvedApplicationNodeGroup
      → List (ApplicationPassiveFixture N)
      → List ResolvedApplicationNodeGroup × List (ApplicationPassiveFixture N)
  unfolding fixture_group_ids root_ids retain_all member
  executable_application_projection groups fixtures =
      let ids = map fixture_group_ids fixtures in
      let retained = retain_all ids (root_ids (join_ids ids) groups) in
      (
        keep (λ group. member group.id retained) groups,
        keep (λ fixture. all_retained retained (fixture_group_ids fixture)) fixtures,
      )
