-- ===== src/Spice/Connectivity/Covering.antt =====
-- The pins that a case covers are those that its terminals are on.
use datasheet_to_tscircuit.Prelude.{
  ℕ, String, Bool, true, false, some, List, [], ◌∷◌, ◌≡◌, ◌⊎◌, inl, inr, refl, subst, arith, eq_iff,
  str_eq, member, member-add, All, Bool-cases, Option-cases, fold_at, fold_at-keeps,
}
use datasheet_to_tscircuit.Spice.Types.{
  FixtureElement, ResolvedApplicationNodeGroup, ApplicationConditionOverlay, logic_state,
  pulsed_source, ValidationCase,
}
use datasheet_to_tscircuit.Spice.Identifiers.{
  gnd, dut, net, parse_endpoint_syntax, get_fixture_endpoints,
}
use datasheet_to_tscircuit.Spice.Circuit.{groups_of, overlays_of}
use datasheet_to_tscircuit.Spice.Connectivity.{
  CaseState, complain, complain_if, Names, validate_endpoint, visit_dut, visit_net, count_terminal,
  visit_group_endpoint, enter_group, visit_group, visit_overlay, visit_fixture,
}

-- Some member of a list.
abbrev pub Any {ℓ} : {A : Type ℓ} → (A → Type 0) → List A → Type 0
Any P [] = ⊥
Any P (x ∷ xs) = P x ⊎ Any P xs

-- What holds of each member that a relation holds of, if it does of some.
pub All-into_any :
    {A : Type 0} (R : String → A → Type 0) (P : String → Type 0) (xs : List A)
    → ((x : String) → Any (R x) xs → P x)
    → All (λ a. (x : String) → R x a → P x) xs
All-into_any R P [] k = tt
All-into_any R P (a ∷ xs) k = (λ x r. k x (inl r), All-into_any R P xs (λ x r. k x (inr r)))

-- An endpoint is a pin.
abbrev pub IsPin : String → String → Type 0
IsPin pin endpoint = parse_endpoint_syntax endpoint ≡ some (dut pin)

abbrev pub IsPinOfGroup : String → ResolvedApplicationNodeGroup → Type 0
IsPinOfGroup pin group = Any (IsPin pin) group.dut_endpoints

abbrev pub IsPinOfOverlay : String → ApplicationConditionOverlay → Type 0
IsPinOfOverlay pin (logic_state endpoint _ _ _) = IsPin pin endpoint
IsPinOfOverlay pin (pulsed_source endpoint _) = IsPin pin endpoint

abbrev pub IsPinOfFixture : {N : Type 0} → String → FixtureElement N → Type 0
IsPinOfFixture pin fixture =
    let (first, second) = get_fixture_endpoints fixture in IsPin pin first ⊎ IsPin pin second

-- A terminal of a case is on a pin: of a node group, of an overlay, or of a fixture.
abbrev pub Connects : {N : Type 0} → ValidationCase N → String → Type 0
Connects c pin =
    Any (IsPinOfGroup pin) (groups_of c)
    ⊎ (Any (IsPinOfOverlay pin) (overlays_of c) ⊎ Any (IsPinOfFixture pin) c.fixtures)

pub complain_if-covered :
    (b : Bool) (path code message : String) (s : CaseState)
    → (complain_if b path code message s).covered_dut_pins ≡ s.covered_dut_pins
unfolding complain
complain_if-covered true path code message s = refl
complain_if-covered false path code message s = refl

module _ (names : Names) where
  visit_net-covered :
      (identifier path : String) (counts : Bool) (s : CaseState)
      → (visit_net names identifier path counts s).covered_dut_pins ≡ s.covered_dut_pins
  unfolding visit_net complain count_terminal
  visit_net-covered identifier path counts s = ground arith

  pub uncounted-covered :
      (endpoint path : String) (s : CaseState)
      → (validate_endpoint names endpoint path false s).covered_dut_pins ≡ s.covered_dut_pins
  unfolding validate_endpoint visit_dut complain
  uncounted-covered endpoint path s = elim (Option-cases (parse_endpoint_syntax endpoint)) [
    | inl e ↦ rw (e, validate_endpoint) refl
    | inr (gnd, e) ↦ rw (e, validate_endpoint) refl
    | inr (dut identifier, e) ↦ rw (e, validate_endpoint) (ground arith)
    | inr (net identifier, e) ↦
        rw (e, validate_endpoint) (visit_net-covered identifier path false s)
  ]

enter_group-covered :
    (names : Names) (case_path : String) (group : ResolvedApplicationNodeGroup) (path : String)
    (s : CaseState)
    → (enter_group names case_path group path s).covered_dut_pins ≡ s.covered_dut_pins
unfolding enter_group
enter_group-covered names case_path group path s = elim (Bool-cases group.is_ground) [
  | inl g ↦ rw (g, enter_group) refl
  | inr g ↦ rw (g, enter_group) (complain_if-covered _ _ _ _ s)
]

module _ (P : String → Type 0) where
  -- The covered pins are of some kind.
  unfoldable pub Within : CaseState → Type 0
  Within s = (x : String) → member x s.covered_dut_pins ≡ true → P x

  abbrev Allowed : String → Type 0
  Allowed endpoint = (x : String) → IsPin x endpoint → P x

  pub Within-same :
      (s t : CaseState) → t.covered_dut_pins ≡ s.covered_dut_pins → Within s → Within t
  unfolding Within
  Within-same s t e w x m = w x (subst (λ l. member x l ≡ true) e m)

  module _ (names : Names) (case_path : String) where
    visit_dut-Within :
        (identifier path : String) (s : CaseState)
        → P identifier
        → Within s
        → Within (visit_dut names identifier path true s)
    unfolding visit_dut complain Within
    visit_dut-Within identifier path s p w =
        elim (Bool-cases (member identifier names.manifest_nodes)) [
          | inr unknown ↦ rw (unknown, visit_dut) w
          | inl known ↦
              rw (known, visit_dut)
                (λ x m. elim (Bool-cases (str_eq identifier x)) [
                  | inl same ↦ subst P ((eq_iff identifier x).0 same) p
                  | inr other ↦
                      w x (ground (arith, m, other, member-add x identifier s.covered_dut_pins))
                ])
        ]

    validate_endpoint-Within :
        (endpoint path : String) (s : CaseState)
        → Allowed endpoint
        → Within s
        → Within (validate_endpoint names endpoint path true s)
    unfolding validate_endpoint Within
    validate_endpoint-Within endpoint path s allowed w =
        elim (Option-cases (parse_endpoint_syntax endpoint)) [
          | inl e ↦ rw (e, validate_endpoint) w
          | inr (gnd, e) ↦ rw (e, validate_endpoint) w
          | inr (dut identifier, e) ↦
              rw (e, validate_endpoint)
                (visit_dut-Within identifier path s (allowed identifier e) w)
          | inr (net identifier, e) ↦
              rw (e, validate_endpoint)
                (Within-same s (visit_net names identifier path true s)
                  (visit_net-covered names identifier path true s) w)
        ]

    visit_group_endpoint-Within :
        (group : ResolvedApplicationNodeGroup) (path : String) (i : ℕ) (endpoint : String)
        (s : CaseState)
        → Allowed endpoint
        → Within s
        → Within (visit_group_endpoint names case_path group path i endpoint s)
    unfolding visit_group_endpoint count_terminal Within
    visit_group_endpoint-Within group path i endpoint s allowed w =
        let visited = validate_endpoint-Within endpoint _ s allowed w in
        elim (Bool-cases group.is_ground) [
          | inl g ↦ rw (g, visit_group_endpoint) visited
          | inr g ↦ rw (g, visit_group_endpoint, count_terminal) visited
        ]

    visit_group-Within :
        (i : ℕ) (group : ResolvedApplicationNodeGroup) (s : CaseState)
        → ((x : String) → IsPinOfGroup x group → P x)
        → Within s
        → Within (visit_group names case_path i group s)
    unfolding visit_group
    visit_group-Within i group s allowed w =
        fold_at-keeps Within Allowed (visit_group_endpoint names case_path group _)
          (λ j e t. visit_group_endpoint-Within group _ j e t) 0 group.dut_endpoints _
          (All-into_any IsPin P group.dut_endpoints allowed)
          (Within-same s (enter_group names case_path group _ s)
            (enter_group-covered names case_path group _ s) w)

    visit_overlay-Within :
        (i : ℕ) (overlay : ApplicationConditionOverlay) (s : CaseState)
        → ((x : String) → IsPinOfOverlay x overlay → P x)
        → Within s
        → Within (visit_overlay names case_path i overlay s)
    unfolding visit_overlay
    visit_overlay-Within i (logic_state endpoint reference _ _) s allowed w =
        Within-same _ _ (uncounted-covered names reference _ _)
          (validate_endpoint-Within endpoint _ s allowed w)
    visit_overlay-Within i (pulsed_source endpoint _) s allowed w =
        validate_endpoint-Within endpoint _ s allowed w

    visit_fixture-Within :
        {N : Type 0} (i : ℕ) (fixture : FixtureElement N) (s : CaseState)
        → ((x : String) → IsPinOfFixture x fixture → P x)
        → Within s
        → Within (visit_fixture names case_path i fixture s)
    unfolding visit_fixture
    visit_fixture-Within i fixture s allowed w =
        let (first, second) = get_fixture_endpoints fixture in
        Within-same _ _ (complain_if-covered _ _ _ _ _) (
          validate_endpoint-Within second _ _ (λ x r. allowed x (inr r))
            (validate_endpoint-Within first _ s (λ x r. allowed x (inl r)) w))

    -- The three loops over the circuit of a case cover pins of its terminals only.
    pub circuit-Within :
        {N : Type 0} (c : ValidationCase N) (s : CaseState)
        → ((x : String) → Connects c x → P x)
        → Within s
        → Within (
            fold_at (visit_fixture names case_path) 0 c.fixtures (
              fold_at
                (visit_overlay names case_path)
                0
                (overlays_of c)
                (fold_at (visit_group names case_path) 0 (groups_of c) s)))
    circuit-Within c s allowed w =
        fold_at-keeps Within _ (visit_fixture names case_path) (λ i a t. visit_fixture-Within i a t)
          0 c.fixtures _ (All-into_any IsPinOfFixture P c.fixtures (λ x r. allowed x (inr (inr r))))
          (fold_at-keeps Within _ (visit_overlay names case_path)
            (λ i a t. visit_overlay-Within i a t) 0 (overlays_of c) _
            (All-into_any IsPinOfOverlay P (overlays_of c) (λ x r. allowed x (inr (inl r))))
            (fold_at-keeps Within _ (visit_group names case_path)
              (λ i a t. visit_group-Within i a t) 0 (groups_of c) s
              (All-into_any IsPinOfGroup P (groups_of c) (λ x r. allowed x (inl r))) w))
