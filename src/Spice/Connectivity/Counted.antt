-- ===== src/Spice/Connectivity/Counted.antt =====
-- The counts of the terminals of the nets.
use datasheet_to_tscircuit.Prelude.{
  ℕ, suc, ◌+◌, String, Bool, true, false, Option, none, some, List, [], ◌∷◌, ◌++◌, if◌then◌else◌,
  str_eq, ◌<>◌, eq_iff, ◌≡◌, refl, ◌∙◌, ap, arith, member, lookup-put, Bool-cases, fold_at, inl,
  inr,
}
use datasheet_to_tscircuit.Spice.Types.{
  FixtureElement, ResolvedApplicationNodeGroup, ApplicationConditionOverlay, logic_state,
  pulsed_source, ValidationCase,
}
use datasheet_to_tscircuit.Spice.Identifiers.{
  ParsedEndpoint, gnd, dut, net, parse_endpoint_syntax, get_fixture_endpoints,
}
use datasheet_to_tscircuit.Spice.Collector.{at_index}
use datasheet_to_tscircuit.Spice.Circuit.{groups_of, overlays_of}
use datasheet_to_tscircuit.Spice.Connectivity.{
  CaseState, complain, complain_if, Names, validate_endpoint, visit_dut, visit_net, count_terminal,
  terminal_count, visit_group_endpoint, enter_group, visit_group, visit_overlay, visit_fixture,
}

-- The net that an endpoint names.
abbrev net_of : ParsedEndpoint → List String
net_of (net identifier) = identifier ∷ []
net_of _ = []

unfoldable pub nets_at : String → List String
unfolding parse_endpoint_syntax
nets_at endpoint = elim (parse_endpoint_syntax endpoint) [ none ↦ [] | some p ↦ net_of p ]

abbrev pub terminals_of_all : {A : Type 0} → (A → List String) → List A → List String
terminals_of_all f [] = []
terminals_of_all f (x ∷ xs) = f x ++ terminals_of_all f xs

-- Each pin of a group is a terminal of the net of the group.
pin_terminals : ResolvedApplicationNodeGroup → String → List String
unfolding nets_at
pin_terminals group endpoint = nets_at endpoint ++ (if group.is_ground then [] else group.id ∷ [])

unfoldable pub group_terminals : ResolvedApplicationNodeGroup → List String
unfolding pin_terminals
group_terminals group = terminals_of_all (pin_terminals group) group.dut_endpoints

unfoldable pub overlay_terminals : ApplicationConditionOverlay → List String
unfolding nets_at
overlay_terminals (logic_state endpoint _ _ _) = nets_at endpoint
overlay_terminals (pulsed_source endpoint _) = nets_at endpoint

unfoldable pub fixture_terminals : {N : Type 0} → FixtureElement N → List String
unfolding nets_at get_fixture_endpoints
fixture_terminals fixture =
    let (first, second) = get_fixture_endpoints fixture in nets_at first ++ nets_at second

-- The nets that the terminals of a case are on, once for each terminal.
unfoldable pub net_terminals : {N : Type 0} → ValidationCase N → List String
unfolding group_terminals overlay_terminals fixture_terminals groups_of overlays_of
net_terminals c =
    terminals_of_all group_terminals (groups_of c)
    ++ terminals_of_all overlay_terminals (overlays_of c)
    ++ terminals_of_all fixture_terminals c.fixtures

abbrev pub occurrences : String → List String → ℕ
occurrences x [] = 0
occurrences x (y ∷ ys) = (if str_eq y x then 1 else 0) + occurrences x ys

pub occurrences-append :
    (x : String) (ys zs : List String)
    → occurrences x (ys ++ zs) ≡ occurrences x ys + occurrences x zs
occurrences-append x [] zs = omega arith
occurrences-append x (y ∷ ys) zs = omega (arith, occurrences-append x ys zs)

-- The count of a net.
abbrev pub tally : String → CaseState → ℕ
tally x s = terminal_count x s.net_terminal_counts

module _ {A : Type 0} (x : String) (f : ℕ → A → CaseState → CaseState)
    (terminals : A → List String) where
  pub fold_at-tally :
      ((i : ℕ) (a : A) (s : CaseState)
        → tally x (f i a s) ≡ tally x s + occurrences x (terminals a))
      → (i : ℕ) (xs : List A) (s : CaseState)
      → tally x (fold_at f i xs s) ≡ tally x s + occurrences x (terminals_of_all terminals xs)
  unfolding fold_at
  fold_at-tally round i [] s = omega arith
  fold_at-tally round i (a ∷ xs) s = omega (
    arith,
    fold_at-tally round (suc i) xs (f i a s),
    round i a s,
    occurrences-append x (terminals a) (terminals_of_all terminals xs),
  )

complain_if-tally :
    (x : String) (b : Bool) (path code message : String) (s : CaseState)
    → tally x (complain_if b path code message s) ≡ tally x s
unfolding complain
complain_if-tally x true path code message s = refl
complain_if-tally x false path code message s = refl

count_terminal-tally :
    (x y : String) (s : CaseState)
    → tally x (count_terminal y s) ≡ tally x s + occurrences x (y ∷ [])
unfolding count_terminal terminal_count
count_terminal-tally x y s = ground (
  arith,
  lookup-put y x (terminal_count y s.net_terminal_counts + 1) s.net_terminal_counts,
  eq_iff y x,
)

module _ (names : Names) (case_path x : String)
    (declared : member x names.declared_nets ≡ true) where
  visit_net-tally :
      (y path : String) (s : CaseState)
      → tally x (visit_net names y path true s) ≡ tally x s + occurrences x (y ∷ [])
  unfolding visit_net complain
  visit_net-tally y path s = elim (Bool-cases (member y names.declared_nets)) [
    | inl known ↦ rw (known, visit_net) (count_terminal-tally x y s)
    | inr unknown ↦
        rw (unknown, visit_net)
          (ground (
            arith,
            eq_iff y x,
            unknown,
            declared,
            (λ (e : y ≡ x). ap (λ z. member z names.declared_nets) e),
          ))
  ]

  uncounted_net-tally :
      (y path : String) (s : CaseState) → tally x (visit_net names y path false s) ≡ tally x s
  unfolding visit_net complain
  uncounted_net-tally y path s = elim (Bool-cases (member y names.declared_nets)) [
    | inl known ↦ rw (known, visit_net) refl
    | inr unknown ↦ rw (unknown, visit_net) refl
  ]

  visit_dut-tally :
      (y path : String) (counts : Bool) (s : CaseState)
      → tally x (visit_dut names y path counts s) ≡ tally x s
  unfolding visit_dut complain
  visit_dut-tally y path true s = elim (Bool-cases (member y names.manifest_nodes)) [
    | inl known ↦ rw (known, visit_dut) refl
    | inr unknown ↦ rw (unknown, visit_dut) refl
  ]
  visit_dut-tally y path false s = elim (Bool-cases (member y names.manifest_nodes)) [
    | inl known ↦ rw (known, visit_dut) refl
    | inr unknown ↦ rw (unknown, visit_dut) refl
  ]

  validate_endpoint-tally :
      (endpoint path : String) (s : CaseState)
      → tally x (validate_endpoint names endpoint path true s)
        ≡ tally x s + occurrences x (nets_at endpoint)
  unfolding validate_endpoint nets_at
  validate_endpoint-tally endpoint path s = parsed (parse_endpoint_syntax endpoint) refl
    where
      parsed :
          (o : Option ParsedEndpoint)
          → parse_endpoint_syntax endpoint ≡ o
          → tally x (validate_endpoint names endpoint path true s)
            ≡ tally x s + occurrences x (nets_at endpoint)
      parsed none e = rw (e, validate_endpoint, nets_at) (omega arith)
      parsed (some gnd) e = rw (e, validate_endpoint, nets_at) (omega arith)
      parsed (some (dut identifier)) e =
          rw (e, validate_endpoint, nets_at) (omega (arith, visit_dut-tally identifier path true s))
      parsed (some (net identifier)) e =
          rw (e, validate_endpoint, nets_at) (visit_net-tally identifier path s)

  uncounted-tally :
      (endpoint path : String) (s : CaseState)
      → tally x (validate_endpoint names endpoint path false s) ≡ tally x s
  unfolding validate_endpoint
  uncounted-tally endpoint path s = parsed (parse_endpoint_syntax endpoint) refl
    where
      parsed :
          (o : Option ParsedEndpoint)
          → parse_endpoint_syntax endpoint ≡ o
          → tally x (validate_endpoint names endpoint path false s) ≡ tally x s
      parsed none e = rw (e, validate_endpoint) refl
      parsed (some gnd) e = rw (e, validate_endpoint) refl
      parsed (some (dut identifier)) e =
          rw (e, validate_endpoint) (visit_dut-tally identifier path false s)
      parsed (some (net identifier)) e =
          rw (e, validate_endpoint) (uncounted_net-tally identifier path s)

  visit_group_endpoint-tally :
      (group : ResolvedApplicationNodeGroup) (path : String) (i : ℕ) (endpoint : String)
      (s : CaseState)
      → tally x (visit_group_endpoint names case_path group path i endpoint s)
        ≡ tally x s + occurrences x (pin_terminals group endpoint)
  unfolding visit_group_endpoint pin_terminals
  visit_group_endpoint-tally group path i endpoint s =
      let path' = at_index (path <> ".dut_endpoints") i in
      let visited = validate_endpoint-tally endpoint path' s in
      let counted =
        count_terminal-tally x group.id (validate_endpoint names endpoint path' true s) in
      let split =
        occurrences-append x (nets_at endpoint) (if group.is_ground then [] else group.id ∷ []) in
      elim (Bool-cases group.is_ground) [
        | inl g ↦
            rw (g, visit_group_endpoint, pin_terminals) (omega (arith, visited, rw g at split))
        | inr o ↦
            rw (o, visit_group_endpoint, pin_terminals)
              (omega (arith, visited, counted, rw o at split))
      ]

  enter_group-tally :
      (group : ResolvedApplicationNodeGroup) (path : String) (s : CaseState)
      → tally x (enter_group names case_path group path s) ≡ tally x s
  unfolding enter_group
  enter_group-tally group path s = elim (Bool-cases group.is_ground) [
    | inl g ↦ rw (g, enter_group) refl
    | inr o ↦ rw (o, enter_group) (complain_if-tally x _ _ _ _ s)
  ]

  visit_group-tally :
      (i : ℕ) (group : ResolvedApplicationNodeGroup) (s : CaseState)
      → tally x (visit_group names case_path i group s)
        ≡ tally x s + occurrences x (group_terminals group)
  unfolding visit_group group_terminals
  visit_group-tally i group s =
      let path = at_index (case_path <> ".application_fixture.node_groups") i in
      fold_at-tally x (visit_group_endpoint names case_path group path) (pin_terminals group)
        (λ j endpoint t. visit_group_endpoint-tally group path j endpoint t) 0 group.dut_endpoints _
      ∙ ap (λ n. n + occurrences x (group_terminals group)) (enter_group-tally group path s)

  visit_overlay-tally :
      (i : ℕ) (overlay : ApplicationConditionOverlay) (s : CaseState)
      → tally x (visit_overlay names case_path i overlay s)
        ≡ tally x s + occurrences x (overlay_terminals overlay)
  unfolding visit_overlay overlay_terminals
  visit_overlay-tally i (logic_state endpoint reference _ _) s =
      uncounted-tally reference _ _ ∙ validate_endpoint-tally endpoint _ s
  visit_overlay-tally i (pulsed_source endpoint _) s = validate_endpoint-tally endpoint _ s

  visit_fixture-tally :
      {N : Type 0} (i : ℕ) (fixture : FixtureElement N) (s : CaseState)
      → tally x (visit_fixture names case_path i fixture s)
        ≡ tally x s + occurrences x (fixture_terminals fixture)
  unfolding visit_fixture fixture_terminals
  visit_fixture-tally i fixture s =
      let (first, second) = get_fixture_endpoints fixture in
      complain_if-tally x _ _ _ _ _
      ∙ validate_endpoint-tally second _ _
      ∙ omega (
        arith,
        validate_endpoint-tally first _ s,
        occurrences-append x (nets_at first) (nets_at second),
      )

  -- The three loops over the circuit of a case count each declared net once for each of its terminals.
  pub circuit-tally :
      {N : Type 0} (c : ValidationCase N) (s : CaseState)
      → tally x (
          fold_at (visit_fixture names case_path) 0 c.fixtures (
            fold_at
              (visit_overlay names case_path)
              0
              (overlays_of c)
              (fold_at (visit_group names case_path) 0 (groups_of c) s)))
        ≡ tally x s + occurrences x (net_terminals c)
  unfolding net_terminals
  circuit-tally c s =
      let s1 = fold_at (visit_group names case_path) 0 (groups_of c) s in
      let s2 = fold_at (visit_overlay names case_path) 0 (overlays_of c) s1 in
      let groups = terminals_of_all group_terminals (groups_of c) in
      let overlays = terminals_of_all overlay_terminals (overlays_of c) in
      let fixtures = terminals_of_all fixture_terminals c.fixtures in
      omega (
        arith,
        fold_at-tally x (visit_fixture names case_path) fixture_terminals
            (λ i a t. visit_fixture-tally i a t) 0 c.fixtures s2,
        fold_at-tally x (visit_overlay names case_path) overlay_terminals
            (λ i a t. visit_overlay-tally i a t) 0 (overlays_of c) s1,
        fold_at-tally x (visit_group names case_path) group_terminals
            (λ i a t. visit_group-tally i a t) 0 (groups_of c) s,
        occurrences-append x (groups ++ overlays) fixtures,
        occurrences-append x groups overlays,
      )
