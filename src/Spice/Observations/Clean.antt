-- ===== src/Spice/Observations/Clean.antt =====
-- The observations of a case that adds no error.
use datasheet_to_tscircuit.Prelude.{
  ℕ, String, true, false, not, ◌&&◌, Option, none, some, List, [], ◌∷◌, str_eq, eq_iff, ◌≡◌, ◌≢◌,
  ◌⊎◌, inl, inr, refl, arith, lookup, Bool-cases,
}
use datasheet_to_tscircuit.Spice.Types.{
  FixtureElement, ReferenceContract, target, bounds, curve, ObservationRole, ObservationScale,
  linear, log, Measurement, voltage, current, ValidationAnalysis, operating_point, dc_sweep,
  transient, ValidationObservation, ValidationCase, CurvePoint,
}
use datasheet_to_tscircuit.Spice.Identifiers.{get_fixture_endpoints}
use datasheet_to_tscircuit.Spice.Numbers.{Numbers}
use datasheet_to_tscircuit.Spice.Circuit.{
  is_voltage_clamped, voltage_links, case_links, is_dut, reaches_dut,
}
use datasheet_to_tscircuit.Spice.Circuit.Decided.{is_voltage_clamped_iff, reaches_dut_iff}
use datasheet_to_tscircuit.Spice.Graph.Links.{Chain}
use datasheet_to_tscircuit.Spice.Collector.Clean.{fold_at-Clean}
use datasheet_to_tscircuit.Spice.Connectivity.{CaseState, Names}
use datasheet_to_tscircuit.Spice.Connectivity.Clean.{
  IsClean, complain-not_clean, complain_if-Clean, validate_endpoint-Clean,
}
use datasheet_to_tscircuit.Spice.Observations.{
  fixture_by_id, is_current_source, is_response, is_sweep_source, validate_sweep_source,
  validate_sweep, check_log, check_log_point, validate_log_reference, validate_range,
  validate_curve_analysis_range, check_reference_range, validate_voltage, validate_current,
  validate_measurement, validate_scale, visit_observation,
}

module _ {N : Type 0} (c : ValidationCase N) where
  -- An endpoint that a chain of links joins to a pin of the model.
  abbrev pub IsJoined : String → Type 0
  IsJoined endpoint = (pin : String) × Chain (case_links c) endpoint pin × (is_dut pin ≡ true)

  -- A voltage between two nodes of which one is joined to the model, and which no chain of ideal
  -- sources fixes, unless it is a stimulus.
  abbrev pub IsMeasuredVoltage : Option ObservationRole → (positive negative : String) → Type 0
  IsMeasuredVoltage role positive negative =
      (positive ≢ negative)
      × (IsJoined positive ⊎ IsJoined negative)
      × (is_response role ≡ true → ¬ Chain (voltage_links c) positive negative)

  -- A current through a fixture of which one end is joined to the model, and which is no current
  -- source, unless it is a stimulus.
  abbrev pub IsMeasuredCurrent : Option ObservationRole → (element_id : String) → Type 0
  IsMeasuredCurrent role element_id =
      (fixture : FixtureElement N) × (lookup element_id (fixture_by_id c.fixtures) ≡ some fixture)
      × (let (first, second) = get_fixture_endpoints fixture in IsJoined first ⊎ IsJoined second)
      × (is_response role ≡ true → is_current_source fixture ≡ false)

  abbrev pub IsMeasuredAs : Option ObservationRole → Measurement → Type 0
  IsMeasuredAs role (voltage positive negative) = IsMeasuredVoltage role positive negative
  IsMeasuredAs role (current element_id _) = IsMeasuredCurrent role element_id

  joined :
      (a b : String)
      → (not (reaches_dut c a) && not (reaches_dut c b)) ≡ false
      → IsJoined a ⊎ IsJoined b
  joined a b h = elim (Bool-cases (reaches_dut c a)) [
    | inl r ↦ inl ((reaches_dut_iff c a).1.0 r)
    | inr o ↦ inr ((reaches_dut_iff c b).1.0 (ground (arith, o, h)))
  ]

-- A dc sweep varies a source that is a fixture of the case.
abbrev pub IsSwept : {N : Type 0} → ValidationCase N → Type 0
IsSwept c = elim c.analysis [
  | operating_point ↦ Unit
  | transient _ _ _ ↦ Unit
  | dc_sweep source_id _ _ _ ↦
      (source : FixtureElement _) × (lookup source_id (fixture_by_id c.fixtures) ≡ some source)
      × (is_sweep_source source ≡ true)
]

validate_sweep_source-Clean :
    {N : Type 0} (path : String) (found : Option (FixtureElement N)) (s : CaseState)
    → IsClean (validate_sweep_source path found s)
    → IsClean s
      × ((source : FixtureElement N) × (found ≡ some source) × (is_sweep_source source ≡ true))
unfolding validate_sweep_source
validate_sweep_source-Clean path none s h = absurd (complain-not_clean _ _ _ s h)
validate_sweep_source-Clean path (some source) s h =
    let (b, clean) = complain_if-Clean (not (is_sweep_source source)) _ _ _ s h in
    (clean, (source, refl, ground (arith, b)))

pub validate_sweep-Clean :
    {N : Type 0} (case_path : String) (c : ValidationCase N) (s : CaseState)
    → IsClean (validate_sweep case_path c s)
    → IsClean s × IsSwept c
unfolding validate_sweep
validate_sweep-Clean {N} case_path c s h = swept c.analysis h
  where
    swept :
        (a : ValidationAnalysis N)
        → IsClean (validate_sweep case_path (record c { analysis = a }) s)
        → IsClean s × IsSwept (record c { analysis = a })
    swept operating_point h = (h, tt)
    swept (transient _ _ _) h = (h, tt)
    swept (dc_sweep source_id _ _ _) h =
        validate_sweep_source-Clean _ (lookup source_id (fixture_by_id c.fixtures)) s h

module _ (N : Numbers) where
  open N use {Number}

  check_log-Clean :
      (path : String) (value : Number) (s : CaseState)
      → IsClean (check_log N path value s)
      → IsClean s
  unfolding check_log
  check_log-Clean path value s h = (complain_if-Clean _ _ _ _ s h).1

  validate_log_reference-Clean :
      (r : ReferenceContract Number) (path : String) (s : CaseState)
      → IsClean (validate_log_reference N r path s)
      → IsClean s
  unfolding validate_log_reference check_log_point
  validate_log_reference-Clean (target value _) path s h = check_log-Clean _ value s h
  validate_log_reference-Clean (bounds none none) path s h = h
  validate_log_reference-Clean (bounds (some a) none) path s h = check_log-Clean _ a s h
  validate_log_reference-Clean (bounds none (some b)) path s h = check_log-Clean _ b s h
  validate_log_reference-Clean (bounds (some a) (some b)) path s h =
      check_log-Clean _ a s (check_log-Clean _ b _ h)
  validate_log_reference-Clean (curve _ points) path s h =
      (fold_at-Clean (λ t. t.errors) (check_log_point N path) (λ _. Unit {0})
        (λ i p t e. (check_log-Clean _ p.y t e, tt)) 0 points s h).0

  validate_curve_analysis_range-Clean :
      (analysis : ValidationAnalysis Number) (points : List (CurvePoint Number)) (path : String)
      (s : CaseState)
      → IsClean (validate_curve_analysis_range N analysis points path s)
      → IsClean s
  unfolding validate_curve_analysis_range validate_range
  validate_curve_analysis_range-Clean analysis [] path s h = h
  validate_curve_analysis_range-Clean operating_point (p ∷ points) path s h = h
  validate_curve_analysis_range-Clean (dc_sweep _ _ _ _) (p ∷ points) path s h =
      (complain_if-Clean _ _ _ _ s h).1
  validate_curve_analysis_range-Clean (transient _ _ _) (p ∷ points) path s h =
      (complain_if-Clean _ _ _ _ s h).1

  module _ (names : Names) (c : ValidationCase Number) where
    check_reference_range-Clean :
        (r : ReferenceContract Number) (path : String) (s : CaseState)
        → IsClean (check_reference_range N names c r path s)
        → IsClean s
    unfolding check_reference_range
    check_reference_range-Clean (target _ _) path s h = h
    check_reference_range-Clean (bounds _ _) path s h = h
    check_reference_range-Clean (curve _ points) path s h =
        validate_curve_analysis_range-Clean c.analysis points _ s h

    validate_voltage-Clean :
        (role : Option ObservationRole) (positive negative path : String) (s : CaseState)
        → IsClean (validate_voltage N names c role positive negative path s)
        → IsClean s × IsMeasuredVoltage c role positive negative
    unfolding validate_voltage
    validate_voltage-Clean role positive negative path s h =
        let (free, c4) =
          complain_if-Clean (is_response role && is_voltage_clamped c positive negative) _ _ _ _
            h in
        let (reached, c3) =
          complain_if-Clean (not (reaches_dut c positive) && not (reaches_dut c negative)) _ _ _ _
            c4 in
        let (differ, c2) = complain_if-Clean (str_eq positive negative) _ _ _ _ c3 in
        let (c1, _) = validate_endpoint-Clean names negative _ false _ c2 in
        let (c0, _) = validate_endpoint-Clean names positive _ false s c1 in
        (
          c0,
          (
            λ e. cc (differ, (eq_iff positive negative).1 e),
            joined c positive negative reached,
            λ r chain.
                let clamped = (is_voltage_clamped_iff c positive negative).1.1 chain in
                ground (arith, r, clamped, free),
          ),
        )

    validate_current-Clean :
        (role : Option ObservationRole) (found : Option (FixtureElement Number)) (path : String)
        (s : CaseState)
        → IsClean (validate_current N names c role found path s)
        → IsClean s
          × ((fixture : FixtureElement Number) × (found ≡ some fixture)
              × (let (first, second) = get_fixture_endpoints fixture in
                  IsJoined c first ⊎ IsJoined c second)
              × (is_response role ≡ true → is_current_source fixture ≡ false))
    unfolding validate_current
    validate_current-Clean role none path s h = absurd (complain-not_clean _ _ _ s h)
    validate_current-Clean role (some fixture) path s h =
        let (first, second) = get_fixture_endpoints fixture in
        let (reached, c1) =
          complain_if-Clean (not (reaches_dut c first) && not (reaches_dut c second)) _ _ _ _ h in
        let (free, c0) =
          complain_if-Clean (is_response role && is_current_source fixture) _ _ _ s c1 in
        (c0, (fixture, refl, joined c first second reached, λ r. ground (arith, r, free)))

    validate_measurement-Clean :
        (m : Measurement) (role : Option ObservationRole) (path : String) (s : CaseState)
        → IsClean (validate_measurement N names c m role path s)
        → IsClean s × IsMeasuredAs c role m
    unfolding validate_measurement
    validate_measurement-Clean (voltage positive negative) role path s h =
        validate_voltage-Clean role positive negative path s h
    validate_measurement-Clean (current element_id _) role path s h =
        validate_current-Clean role _ path s h

    validate_scale-Clean :
        (scale : ObservationScale) (r : ReferenceContract Number) (path : String) (s : CaseState)
        → IsClean (validate_scale N names c scale r path s)
        → IsClean s
    unfolding validate_scale
    validate_scale-Clean linear r path s h = h
    validate_scale-Clean log r path s h = validate_log_reference-Clean r _ s h

    pub visit_observation-Clean :
        (case_path : String) (i : ℕ) (o : ValidationObservation Number) (s : CaseState)
        → IsClean (visit_observation N names c case_path i o s)
        → IsClean s × IsMeasuredAs c o.role o.measurement
    unfolding visit_observation
    visit_observation-Clean case_path i o s h =
        let c2 = validate_scale-Clean o.scale o.reference _ _ h in
        let (c1, measured) = validate_measurement-Clean o.measurement o.role _ _ c2 in
        (check_reference_range-Clean o.reference _ s c1, measured)
