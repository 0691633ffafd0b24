-- ===== src/Spice/Observations.antt =====
-- validate-plan-connectivity.ts: the checks of the analysis and of the observations of a case.
pub mod Clean
pub mod Covered
use datasheet_to_tscircuit.Prelude.{
  ℕ, String, Bool, true, false, not, ◌||◌, ◌&&◌, Option, none, some, List, [], ◌∷◌, map,
  if◌then◌else◌, str_eq, ◌<>◌, Dict, lookup, put_all, fold_at,
}
use datasheet_to_tscircuit.Spice.Types.{
  FixtureElement, resistor, capacitor, inductor, voltage_source, current_source, diode,
  ValidationAnalysis, operating_point, dc_sweep, transient, CurvePoint, ReferenceContract, target,
  bounds, curve, ObservationRole, response, stimulus, ObservationScale, linear, log, Measurement,
  voltage, current, ValidationObservation, ValidationCase,
}
use datasheet_to_tscircuit.Spice.Identifiers.{id_of, get_fixture_endpoints}
use datasheet_to_tscircuit.Spice.Numbers.{Numbers, minimum, maximum, minimum_of, maximum_of}
use datasheet_to_tscircuit.Spice.Circuit.{is_voltage_clamped, reaches_dut}
use datasheet_to_tscircuit.Spice.Collector.{at_index}
use datasheet_to_tscircuit.Spice.Connectivity.{
  CaseState, Names, complain, complain_if, validate_endpoint,
}

-- `fixture_by_id`
unfoldable pub fixture_by_id : {N : Type 0} → List (FixtureElement N) → Dict (FixtureElement N)
unfolding put_all
fixture_by_id fixtures = put_all (map (λ fixture. (id_of fixture, fixture)) fixtures) []

abbrev is_sweep_source : {N : Type 0} → FixtureElement N → Bool
is_sweep_source (voltage_source _ _ _ _ _) = true
is_sweep_source (current_source _ _ _ _ _) = true
is_sweep_source _ = false

abbrev pub is_current_source : {N : Type 0} → FixtureElement N → Bool
is_current_source (current_source _ _ _ _ _) = true
is_current_source _ = false

-- `observation.role !== "stimulus"`
abbrev pub is_response : Option ObservationRole → Bool
is_response (some stimulus) = false
is_response _ = true

validate_sweep_source :
    {N : Type 0} → (path : String) → Option (FixtureElement N) → CaseState → CaseState
validate_sweep_source path none s =
    complain path "unknown_sweep_source" "must reference a fixture source in the same case" s
validate_sweep_source path (some source) s =
    complain_if (not (is_sweep_source source)) path "invalid_sweep_source"
      "must reference a voltage_source or current_source" s

unfoldable pub validate_sweep :
    {N : Type 0} → (case_path : String) → ValidationCase N → CaseState → CaseState
unfolding validate_sweep_source fixture_by_id lookup
validate_sweep case_path c s = elim c.analysis [
  | operating_point ↦ s
  | transient _ _ _ ↦ s
  | dc_sweep source_id _ _ _ ↦
      validate_sweep_source (case_path <> ".analysis.source_id")
        (lookup source_id (fixture_by_id c.fixtures)) s
]

module _ (N : Numbers) where
  open N use {
    Number, zero_number, one_number, range_epsilon, less, at_most, subtract, add_numbers, multiply,
    absolute, number_text,
  }

  -- The least and the greatest value of the swept quantity.
  abbrev analysis_range : ValidationAnalysis Number → Option (Number × Number)
  analysis_range operating_point = none
  analysis_range (dc_sweep _ start stop _) = some (minimum N start stop, maximum N start stop)
  analysis_range (transient _ stop start) =
      some (elim start [ none ↦ zero_number | some t ↦ t ], stop)

  abbrev analysis_type : ValidationAnalysis Number → String
  analysis_type operating_point = "operating_point"
  analysis_type (dc_sweep _ _ _ _) = "dc_sweep"
  analysis_type (transient _ _ _) = "transient"

  range_message :
      (analysis : String)
      → (reference_min reference_max analysis_min analysis_max : Number) → String
  range_message analysis reference_min reference_max analysis_min analysis_max =
      "curve x range ["
      <> number_text reference_min
      <> ", "
      <> number_text reference_max
      <> "] must fit inside the "
      <> analysis
      <> " range ["
      <> number_text analysis_min
      <> ", "
      <> number_text analysis_max
      <> "]"

  validate_range :
      (path analysis : String)
      → (reference_min reference_max analysis_min analysis_max : Number) → CaseState
      → CaseState
  unfolding range_message
  validate_range path analysis reference_min reference_max analysis_min analysis_max s =
      let magnitude = maximum_of N one_number (
        absolute analysis_min
        ∷ absolute analysis_max
        ∷ absolute reference_min
        ∷ absolute reference_max
        ∷ []) in
      let epsilon = multiply magnitude range_epsilon in
      complain_if
        (less reference_min (subtract analysis_min epsilon)
          || less (add_numbers analysis_max epsilon) reference_max)
        path "reference_curve_outside_analysis_range"
        (range_message analysis reference_min reference_max analysis_min analysis_max) s

  validate_curve_analysis_range :
      ValidationAnalysis Number → List (CurvePoint Number) → String → CaseState → CaseState
  unfolding validate_range
  validate_curve_analysis_range analysis [] path s = s
  validate_curve_analysis_range analysis (p ∷ points) path s = elim (analysis_range analysis) [
    | none ↦ s
    | some (analysis_min, analysis_max) ↦
        let rest = map (λ q. q.x) points in
        validate_range path (analysis_type analysis) (minimum_of N p.x rest) (maximum_of N p.x rest)
          analysis_min analysis_max s
  ]

  check_log : (path : String) → Number → CaseState → CaseState
  check_log path value s =
      complain_if (at_most value zero_number) path "invalid_log_reference"
        "must be positive for log scale" s

  check_log_point : String → ℕ → CurvePoint Number → CaseState → CaseState
  unfolding check_log at_index
  check_log_point path index p s = check_log (at_index (path <> ".points") index <> ".y") p.y s

  validate_log_reference : ReferenceContract Number → (path : String) → CaseState → CaseState
  unfolding check_log check_log_point fold_at
  validate_log_reference (target value _) path s = check_log (path <> ".target") value s
  validate_log_reference (bounds min max) path s =
      let s' : CaseState = elim min [
        | none ↦ s
        | some value ↦ check_log (path <> ".min") value s
      ] in
      elim max [ none ↦ s' | some value ↦ check_log (path <> ".max") value s' ]
  validate_log_reference (curve _ points) path s = fold_at (check_log_point path) 0 points s

  module _ (names : Names) (c : ValidationCase Number) where
    unfoldable pub validate_voltage :
        Option ObservationRole → (positive negative path : String) → CaseState → CaseState
    unfolding validate_endpoint reaches_dut is_voltage_clamped
    validate_voltage role positive negative path s =
        let s1 = validate_endpoint names positive (path <> ".positive") false s in
        let s2 = validate_endpoint names negative (path <> ".negative") false s1 in
        let s3 =
          complain_if (str_eq positive negative) path "zero_differential"
            "positive and negative endpoints must differ" s2 in
        let s4 =
          complain_if (not (reaches_dut c positive) && not (reaches_dut c negative)) path
            "disconnected_observation"
            "must observe a node in the DUT-connected fixture graph; ground alone does not connect independent branches"
            s3 in
        complain_if (is_response role && is_voltage_clamped c positive negative) path
          "insensitive_voltage_observation"
          "an ideal voltage-source path fixes the measured voltage independently of the DUT" s4

    unfoldable pub validate_current :
        Option ObservationRole
        → Option (FixtureElement Number)
        → (path : String) → CaseState
        → CaseState
    unfolding reaches_dut get_fixture_endpoints
    validate_current role none path s =
        complain (path <> ".element_id") "unknown_observation_element"
          "must reference a fixture element in the same case" s
    validate_current role (some fixture) path s =
        let s1 =
          complain_if (is_response role && is_current_source fixture) path
            "insensitive_current_observation"
            "current through an ideal current-source fixture is fixed independently of the DUT" s in
        let (first, second) = get_fixture_endpoints fixture in
        complain_if (not (reaches_dut c first) && not (reaches_dut c second)) path
          "disconnected_observation"
          "must observe an element in the DUT-connected fixture graph; ground alone does not connect independent branches"
          s1

    check_reference_range : ReferenceContract Number → (path : String) → CaseState → CaseState
    unfolding validate_curve_analysis_range
    check_reference_range (curve _ points) path s =
        validate_curve_analysis_range c.analysis points (path <> ".reference.points") s
    check_reference_range _ path s = s

    validate_measurement :
        Measurement → Option ObservationRole → (path : String) → CaseState → CaseState
    unfolding validate_voltage validate_current fixture_by_id lookup
    validate_measurement (voltage positive negative) role path s =
        validate_voltage role positive negative path s
    validate_measurement (current element_id _) role path s =
        validate_current role (lookup element_id (fixture_by_id c.fixtures)) path s

    validate_scale :
        ObservationScale → ReferenceContract Number → (path : String) → CaseState → CaseState
    unfolding validate_log_reference
    validate_scale linear reference path s = s
    validate_scale log reference path s = validate_log_reference reference (path <> ".reference") s

    unfoldable pub visit_observation :
        (case_path : String) → ℕ → ValidationObservation Number → CaseState → CaseState
    unfolding validate_measurement validate_scale check_reference_range at_index
    visit_observation case_path index o s =
        let path = at_index (case_path <> ".observations") index in
        validate_scale o.scale o.reference path (
          validate_measurement o.measurement o.role path (check_reference_range o.reference path s))
