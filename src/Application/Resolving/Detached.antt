-- ===== src/Application/Resolving/Detached.antt =====
-- The groups that a pin is in, before and after it is detached.
use datasheet_to_tscircuit.Prelude.{
  String, Bool, false, List, [], ◌∷◌, if◌then◌else◌, str_eq, eq_iff, member, member-discard, ◌≡◌,
  inl, inr, refl, arith, Bool-cases,
}
use datasheet_to_tscircuit.Spice.Types.{ResolvedApplicationNodeGroup}
use datasheet_to_tscircuit.Application.Detaching.{containing_groups, without_endpoint, detach_first}
use datasheet_to_tscircuit.Application.Projection.{keep}
use datasheet_to_tscircuit.Application.Resolving.{is_present}

-- A group that loses an endpoint keeps the others.
member-without :
    (x endpoint : String) (group : ResolvedApplicationNodeGroup)
    → member x (without_endpoint endpoint group).dut_endpoints
      ≡ (if str_eq endpoint x then false else member x group.dut_endpoints)
unfolding without_endpoint
member-without x endpoint group = member-discard x endpoint group.dut_endpoints

-- What is in no group is not in the groups that are left.
pub is_present-detach_other :
    (x endpoint : String) (groups : List ResolvedApplicationNodeGroup)
    → is_present x groups ≡ false
    → is_present x (detach_first endpoint groups) ≡ false
unfolding is_present detach_first
is_present-detach_other x endpoint [] h = h
is_present-detach_other x endpoint (group ∷ groups) h =
    let rest = is_present-detach_other x endpoint groups (ground (arith, h)) in
    elim (Bool-cases (member endpoint group.dut_endpoints)) [
      | inl found ↦ rw (found, detach_first) (ground (arith, h, member-without x endpoint group))
      | inr not_here ↦ rw (not_here, detach_first) (ground (arith, h, rest))
    ]

containing_groups-nil :
    (endpoint : String) (groups : List ResolvedApplicationNodeGroup)
    → containing_groups endpoint groups ≡ []
    → is_present endpoint groups ≡ false
unfolding containing_groups is_present
containing_groups-nil endpoint [] h = refl
containing_groups-nil endpoint (group ∷ groups) h =
    elim (Bool-cases (member endpoint group.dut_endpoints)) [
      | inl found ↦ cc (rw (found, containing_groups) at h)
      | inr not_here ↦ ground (
        arith,
        not_here,
        containing_groups-nil endpoint groups (rw (not_here, containing_groups) at h),
      )
    ]

-- An endpoint that one group has is in none when that group loses it.
pub is_present-detach_one :
    (endpoint : String) (groups : List ResolvedApplicationNodeGroup)
    (one : ResolvedApplicationNodeGroup)
    → containing_groups endpoint groups ≡ one ∷ []
    → is_present endpoint (detach_first endpoint groups) ≡ false
unfolding containing_groups is_present detach_first
is_present-detach_one endpoint [] one h = refl
is_present-detach_one endpoint (group ∷ groups) one h =
    elim (Bool-cases (member endpoint group.dut_endpoints)) [
      | inl found ↦
          let none_else : containing_groups endpoint groups ≡ [] =
            let opened : group ∷ containing_groups endpoint groups ≡ one ∷ [] =
              rw (found, containing_groups) at h in
            cc opened in
          rw (found, detach_first)
            (ground (
              arith,
              containing_groups-nil endpoint groups none_else,
              member-without endpoint endpoint group,
              eq_iff endpoint endpoint,
            ))
      | inr not_here ↦
          rw (not_here, detach_first)
            (ground (
              arith,
              not_here,
              is_present-detach_one endpoint groups one (rw (not_here, containing_groups) at h),
            ))
    ]

-- What is in no group is in none of those that are kept.
pub is_present-keep :
    (x : String) (p : ResolvedApplicationNodeGroup → Bool)
    (groups : List ResolvedApplicationNodeGroup)
    → is_present x groups ≡ false
    → is_present x (keep p groups) ≡ false
unfolding is_present
is_present-keep x p [] h = h
is_present-keep x p (group ∷ groups) h =
    let rest = is_present-keep x p groups (ground (arith, h)) in
    elim (Bool-cases (p group)) [
      | inl kept ↦ rw kept (ground (arith, h, rest))
      | inr left ↦ rw left rest
    ]
