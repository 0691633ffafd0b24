-- ===== src/Spice/Validation/Clean.antt =====
-- A case and a plan that are accepted.
use datasheet_to_tscircuit.Prelude.{
  ℕ, ◌≤◌, String, true, false, some, ◌≢◌, List, [], ◌∷◌, map, ◌≡◌, ◌∙◌, subst, arith, member,
  eq_iff, ◌+◌, All, Distinct,
}
use datasheet_to_tscircuit.Spice.Types.{ValidationCase, ModelPin, FixtureElement}
use datasheet_to_tscircuit.Spice.Identifiers.{
  id_of, ParsedEndpoint, parse_endpoint_syntax, get_fixture_endpoints,
}
use datasheet_to_tscircuit.Spice.Numbers.{Numbers}
use datasheet_to_tscircuit.Spice.Circuit.{groups_of, overlays_of}
use datasheet_to_tscircuit.Spice.Collector.{Errors, at_index}
use datasheet_to_tscircuit.Spice.Collector.Clean.{fold_at-Clean, add_duplicate_errors-Clean}
use datasheet_to_tscircuit.Spice.Connectivity.{
  CaseState, Names, visit_group, visit_overlay, visit_fixture,
}
use datasheet_to_tscircuit.Spice.Connectivity.Clean.{
  IsFixed, IsKnown, IsKnownText, visit_group-Clean, visit_overlay-Clean, visit_fixture-Clean,
  visit_declared_nets-Clean, visit_ground-Clean,
}
use datasheet_to_tscircuit.Spice.Connectivity.Counted.{net_terminals, occurrences, circuit-tally}
use datasheet_to_tscircuit.Spice.Observations.{visit_observation}
use datasheet_to_tscircuit.Spice.Observations.Clean.{
  IsMeasuredAs, IsSwept, validate_sweep-Clean, visit_observation-Clean,
}
use datasheet_to_tscircuit.Spice.Validation.{duplicates_of_case, validate_case_connectivity}

-- The names of a case.
abbrev pub names_of : {N : Type 0} → List ModelPin → ValidationCase N → Names
names_of pins c = record {
  manifest_nodes = map (λ pin. pin.spice_node) pins;
  declared_nets = c.nets;
}

-- The text of an endpoint is one; the parser of a case lets no other text pass.
abbrev pub IsEndpointText : String → Type 0
IsEndpointText endpoint = (p : ParsedEndpoint) × (parse_endpoint_syntax endpoint ≡ some p)

abbrev pub HasEndpoints : {N : Type 0} → FixtureElement N → Type 0
HasEndpoints fixture =
    let (first, second) = get_fixture_endpoints fixture in
    IsEndpointText first × IsEndpointText second

-- An endpoint that is the ground, a pin of the model or a declared net.
abbrev pub Exists : Names → String → Type 0
Exists names endpoint =
    (p : ParsedEndpoint) × (parse_endpoint_syntax endpoint ≡ some p) × IsKnown names p

-- A fixture element between two different endpoints that exist.
abbrev pub IsJoined : {N : Type 0} → Names → FixtureElement N → Type 0
IsJoined names fixture =
    let (first, second) = get_fixture_endpoints fixture in
    (first ≢ second) × Exists names first × Exists names second

all_joined :
    {N : Type 0} (names : Names) (fixtures : List (FixtureElement N))
    → All HasEndpoints fixtures
    → All (IsFixed names) fixtures
    → All (IsJoined names) fixtures
all_joined names [] p h = tt
all_joined names (fixture ∷ fixtures) (((p, read_p), (q, read_q)), ps)
      ((differ, known_p, known_q), hs) =
    (
      (differ, (p, read_p, known_p p read_p), (q, read_q, known_q q read_q)),
      all_joined names fixtures ps hs,
    )

-- What an accepted case is: its names are unique, each net joins two terminals, each fixture joins two
-- different endpoints that exist, its sweep varies a source, and each observation measures the model.
pub record IsAccepted {N : Type 0} (pins : List ModelPin) (c : ValidationCase N) : Type 0 where
  pub distinct_nets : Distinct c.nets
  pub distinct_fixtures : Distinct (map id_of c.fixtures)
  pub distinct_observations : Distinct (map (λ o. o.id) c.observations)
  pub joined_nets : All (λ x. 2 ≤ occurrences x (net_terminals c)) c.nets
  pub joined : All (IsJoined (names_of pins c)) c.fixtures
  pub swept : IsSwept c
  pub measured : All (λ o. IsMeasuredAs c o.role o.measurement) c.observations

module _ (N : Numbers) where
  duplicates_of_case-Clean :
      (case_path : String) (c : ValidationCase N.Number) (errors : Errors)
      → duplicates_of_case N case_path c errors ≡ []
      → (errors ≡ [])
        × Distinct c.nets
        × Distinct (map id_of c.fixtures)
        × Distinct (map (λ o. o.id) c.observations)
  unfolding duplicates_of_case
  duplicates_of_case-Clean case_path c errors h =
      let (e2, observations) = add_duplicate_errors-Clean _ _ _ h in
      let (e1, fixtures) = add_duplicate_errors-Clean _ _ _ e2 in
      let (e0, nets) = add_duplicate_errors-Clean c.nets _ errors e1 in
      (e0, nets, fixtures, observations)

  -- A net of the list, whose count stands for its terminals.
  counted :
      (nets : List String) (P Q : String → Type 0)
      → ((x : String) → member x nets ≡ true → P x → Q x)
      → All P nets
      → All Q nets
  unfolding member
  counted [] P Q f h = tt
  counted (x ∷ nets) P Q f (p, ps) =
      (f x (ground (arith, eq_iff x x)) p, counted nets P Q (λ y m. f y (ground (arith, m))) ps)

  pub validate_case_connectivity-Clean :
      (c : ValidationCase N.Number) (case_index : ℕ) (pins : List ModelPin) (covered : List String)
      (errors : Errors)
      → (validate_case_connectivity N c case_index pins covered errors).errors ≡ []
      → (errors ≡ []) × (All HasEndpoints c.fixtures → IsAccepted pins c)
  unfolding validate_case_connectivity
  validate_case_connectivity-Clean c case_index pins covered errors h =
      let path = at_index "cases" case_index in
      let names = names_of pins c in
      let s0 : CaseState = record {
        errors = duplicates_of_case N path c errors;
        covered_dut_pins = covered;
        net_terminal_counts = [];
        has_ground = false;
      } in
      let (c5, measured) =
        fold_at-Clean (λ t. t.errors) (visit_observation N names c path)
          (λ o. IsMeasuredAs c o.role o.measurement) (visit_observation-Clean N names c path) 0
          c.observations _ h in
      let (c4g, swept) = validate_sweep-Clean path c _ c5 in
      let (c4, _) = visit_ground-Clean names path _ c4g in
      let (c3, enough) = visit_declared_nets-Clean names path 0 c.nets _ c4 in
      let (c2, fixed) =
        fold_at-Clean (λ t. t.errors) (visit_fixture names path) (IsFixed names)
          (visit_fixture-Clean names path) 0 c.fixtures _ c3 in
      let (c1, _) =
        fold_at-Clean (λ t. t.errors) (visit_overlay names path) (λ _. Unit {0})
          (visit_overlay-Clean names path) 0 (overlays_of c) _ c2 in
      let (c0, _) =
        fold_at-Clean (λ t. t.errors) (visit_group names path)
          (λ group. All (IsKnownText names) group.dut_endpoints) (visit_group-Clean names path) 0
          (groups_of c) s0 c1 in
      let (e0, nets, fixtures, observations) = duplicates_of_case-Clean path c errors c0 in
      (
        e0,
        λ parsed. record {
          distinct_nets = nets;
          distinct_fixtures = fixtures;
          distinct_observations = observations;
          joined_nets =
              counted c.nets _ _
                (λ x m p. subst (λ n. 2 ≤ n) (circuit-tally names path x m c s0 ∙ empty x) p)
                enough;
          joined = all_joined names c.fixtures parsed fixed;
          swept = swept;
          measured = measured;
        },
      )
    where
      empty : (x : String) → 0 + occurrences x (net_terminals c) ≡ occurrences x (net_terminals c)
      empty x = omega arith

  -- If the ends of the fixtures of a case are texts of endpoints, and the list of errors, with those from
  -- before, is empty after the validation of the case, then its nets, fixtures and observations have distinct
  -- names, each of its nets has at least two terminals, the two ends of each fixture exist and differ,
  -- a sweep varies a source of the case, and each observation is of a voltage or a current that a chain
  -- of links joins to the model; and unless it is a stimulus, no chain of ideal voltage sources fixes
  -- this voltage, and no ideal current source this current.
  pub validate_case_connectivity-IsAccepted :
      (c : ValidationCase N.Number) (case_index : ℕ) (pins : List ModelPin) (covered : List String)
      (errors : Errors)
      → All HasEndpoints c.fixtures
      → (validate_case_connectivity N c case_index pins covered errors).errors ≡ []
      → IsAccepted pins c
  validate_case_connectivity-IsAccepted c case_index pins covered errors parsed h =
      (validate_case_connectivity-Clean c case_index pins covered errors h).1 parsed
