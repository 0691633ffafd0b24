-- ===== src/Spice/Connectivity/Clean.antt =====
-- The fixtures and the nets of a case that adds no error.
use mathlib.Core.Option.{some_inj}
use datasheet_to_tscircuit.Prelude.{
  ℕ, suc, ◌≤◌, String, Bool, true, false, Option, none, some, List, [], ◌∷◌, str_eq, eq_iff, ◌≡◌,
  ◌≢◌, refl, sym, ◌∙◌, subst, arith, ltb, member, All, Bool-cases, fold_at, inl, inr,
}
use datasheet_to_tscircuit.Spice.Types.{
  FixtureElement, ResolvedApplicationNodeGroup, ApplicationConditionOverlay, logic_state,
  pulsed_source,
}
use datasheet_to_tscircuit.Spice.Identifiers.{
  ParsedEndpoint, gnd, dut, net, parse_endpoint_syntax, get_fixture_endpoints,
}
use datasheet_to_tscircuit.Spice.Collector.Clean.{report-ne-nil, fold_at-Clean}
use datasheet_to_tscircuit.Spice.Connectivity.{
  CaseState, complain, complain_if, Names, validate_endpoint, visit_dut, visit_net, count_terminal,
  terminal_count, visit_group_endpoint, enter_group, visit_group, visit_overlay, visit_fixture,
  visit_declared_net, visit_ground,
}

-- No error is there.
abbrev pub IsClean : CaseState → Type 0
IsClean s = s.errors ≡ []

pub complain-not_clean :
    (path code message : String) (s : CaseState) → IsClean (complain path code message s) → ⊥
unfolding complain
complain-not_clean path code message s h = report-ne-nil path code message s.errors h

pub complain_if-Clean :
    (b : Bool) (path code message : String) (s : CaseState)
    → IsClean (complain_if b path code message s)
    → (b ≡ false) × IsClean s
complain_if-Clean true path code message s h = absurd (complain-not_clean path code message s h)
complain_if-Clean false path code message s h = (refl, h)

-- What an endpoint names exists.
abbrev pub IsKnown : Names → ParsedEndpoint → Type 0
IsKnown names gnd = Unit
IsKnown names (dut identifier) = member identifier names.manifest_nodes ≡ true
IsKnown names (net identifier) = member identifier names.declared_nets ≡ true

abbrev pub IsKnownText : Names → String → Type 0
IsKnownText names endpoint =
    (p : ParsedEndpoint) → parse_endpoint_syntax endpoint ≡ some p → IsKnown names p

visit_dut-Clean :
    (names : Names) (identifier path : String) (counts : Bool) (s : CaseState)
    → IsClean (visit_dut names identifier path counts s)
    → IsClean s × (member identifier names.manifest_nodes ≡ true)
unfolding visit_dut
visit_dut-Clean names identifier path counts s h =
    elim (Bool-cases (member identifier names.manifest_nodes)) [
      | inr missing ↦ absurd (complain-not_clean path _ _ s (rw (missing, visit_dut) at h))
      | inl known ↦ (
        elim (Bool-cases counts) [
          | inl c ↦ rw (known, c, visit_dut) at h
          | inr c ↦ rw (known, c, visit_dut) at h
        ],
        known,
      )
    ]

visit_net-Clean :
    (names : Names) (identifier path : String) (counts : Bool) (s : CaseState)
    → IsClean (visit_net names identifier path counts s)
    → IsClean s × (member identifier names.declared_nets ≡ true)
unfolding visit_net count_terminal
visit_net-Clean names identifier path counts s h =
    elim (Bool-cases (member identifier names.declared_nets)) [
      | inr missing ↦ absurd (complain-not_clean path _ _ s (rw (missing, visit_net) at h))
      | inl known ↦ (
        elim (Bool-cases counts) [
          | inl c ↦ rw (known, c, visit_net, count_terminal) at h
          | inr c ↦ rw (known, c, visit_net) at h
        ],
        known,
      )
    ]

pub validate_endpoint-Clean :
    (names : Names) (endpoint path : String) (counts : Bool) (s : CaseState)
    → IsClean (validate_endpoint names endpoint path counts s)
    → IsClean s × IsKnownText names endpoint
unfolding validate_endpoint
validate_endpoint-Clean names endpoint path counts s h =
    parsed (parse_endpoint_syntax endpoint) refl
  where
    named :
        (p : ParsedEndpoint) → parse_endpoint_syntax endpoint ≡ some p → IsClean s × IsKnown names p
    named gnd e = (
      elim (Bool-cases counts) [
        | inl c ↦ rw (e, c, validate_endpoint) at h
        | inr c ↦ rw (e, c, validate_endpoint) at h
      ],
      tt,
    )
    named (dut identifier) e =
        visit_dut-Clean names identifier path counts s (rw (e, validate_endpoint) at h)
    named (net identifier) e =
        visit_net-Clean names identifier path counts s (rw (e, validate_endpoint) at h)

    parsed :
        (o : Option ParsedEndpoint)
        → parse_endpoint_syntax endpoint ≡ o
        → IsClean s × IsKnownText names endpoint
    parsed none e = (rw (e, validate_endpoint) at h, λ p f. cc)
    parsed (some p) e =
        let (clean, known) = named p e in
        (clean, λ q f. subst (IsKnown names) (some_inj.0 (sym e ∙ f)) known)

-- Both ends of a fixture exist, and they differ.
abbrev pub IsFixed : {N : Type 0} → Names → FixtureElement N → Type 0
IsFixed names fixture =
    let (first, second) = get_fixture_endpoints fixture in
    (first ≢ second) × IsKnownText names first × IsKnownText names second

module _ (names : Names) (case_path : String) where
  visit_group_endpoint-Clean :
      (group : ResolvedApplicationNodeGroup) (path : String) (i : ℕ) (endpoint : String)
      (s : CaseState)
      → IsClean (visit_group_endpoint names case_path group path i endpoint s)
      → IsClean s × IsKnownText names endpoint
  unfolding visit_group_endpoint count_terminal
  visit_group_endpoint-Clean group path i endpoint s h =
      validate_endpoint-Clean names endpoint _ true s (elim (Bool-cases group.is_ground) [
        | inl g ↦ rw (g, visit_group_endpoint) at h
        | inr g ↦ rw (g, visit_group_endpoint, count_terminal) at h
      ])

  pub visit_group-Clean :
      (i : ℕ) (group : ResolvedApplicationNodeGroup) (s : CaseState)
      → IsClean (visit_group names case_path i group s)
      → IsClean s × All (IsKnownText names) group.dut_endpoints
  unfolding visit_group enter_group
  visit_group-Clean i group s h =
      let (before, known) =
        fold_at-Clean (λ t. t.errors) _ (IsKnownText names)
          (λ j x t. visit_group_endpoint-Clean group _ j x t) 0 group.dut_endpoints _ h in
      (
        elim (Bool-cases group.is_ground) [
          | inl g ↦ rw (g, enter_group) at before
          | inr g ↦ (complain_if-Clean _ _ _ _ s (rw (g, enter_group) at before)).1
        ],
        known,
      )

  pub visit_overlay-Clean :
      (i : ℕ) (overlay : ApplicationConditionOverlay) (s : CaseState)
      → IsClean (visit_overlay names case_path i overlay s)
      → IsClean s × Unit {0}
  unfolding visit_overlay
  visit_overlay-Clean i (logic_state endpoint reference _ _) s h = (
    (validate_endpoint-Clean names endpoint _ true s
        (validate_endpoint-Clean names reference _ false _ h).0).0,
    tt,
  )
  visit_overlay-Clean i (pulsed_source endpoint _) s h =
      ((validate_endpoint-Clean names endpoint _ true s h).0, tt)

  pub visit_fixture-Clean :
      {N : Type 0} (i : ℕ) (fixture : FixtureElement N) (s : CaseState)
      → IsClean (visit_fixture names case_path i fixture s)
      → IsClean s × IsFixed names fixture
  unfolding visit_fixture
  visit_fixture-Clean i fixture s h =
      let (first, second) = get_fixture_endpoints fixture in
      let (differ, c2) = complain_if-Clean (str_eq first second) _ _ _ _ h in
      let (c1, known_second) = validate_endpoint-Clean names second _ true _ c2 in
      let (c0, known_first) = validate_endpoint-Clean names first _ true s c1 in
      (c0, ((λ e. cc (differ, (eq_iff first second).1 e)), known_first, known_second))

  -- The check of the nets changes no count.
  pub visit_declared_nets-Clean :
      (i : ℕ) (nets : List String) (s : CaseState)
      → IsClean (fold_at (visit_declared_net names case_path) i nets s)
      → IsClean s × All (λ x. 2 ≤ terminal_count x s.net_terminal_counts) nets
  unfolding visit_declared_net fold_at
  visit_declared_nets-Clean i [] s h = (h, tt)
  visit_declared_nets-Clean i (x ∷ nets) s h =
      elim (Bool-cases (ltb (terminal_count x s.net_terminal_counts) 2)) [
        | inl few ↦ absurd (
            complain-not_clean _ _ _ s
              (visit_declared_nets-Clean (suc i) nets _ (rw (few, fold_at) at h)).0)
        | inr enough ↦
            let (clean, rest) =
              visit_declared_nets-Clean (suc i) nets s (rw (enough, fold_at) at h) in
            (clean, (ground (arith, enough), rest))
      ]

  pub visit_ground-Clean :
      (s : CaseState) → IsClean (visit_ground names case_path s) → IsClean s × (s.has_ground ≡ true)
  unfolding visit_ground
  visit_ground-Clean s h =
      let (b, clean) = complain_if-Clean _ _ _ _ s h in (clean, ground (arith, b))
