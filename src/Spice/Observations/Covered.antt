-- ===== src/Spice/Observations/Covered.antt =====
-- The checks of the sweep, the observations, the nets and the ground cover no pin.
use datasheet_to_tscircuit.Prelude.{
  ℕ, suc, String, Bool, false, Option, none, some, List, [], ◌∷◌, ◌<>◌, not, ◌&&◌, str_eq, ◌≡◌,
  refl, ◌∙◌, arith, Option-cases, fold_at, lookup, inl, inr,
}
use datasheet_to_tscircuit.Spice.Types.{
  FixtureElement, ValidationCase, ValidationAnalysis, ValidationObservation, ReferenceContract,
  CurvePoint, target, bounds, curve, ObservationScale, linear, log, ObservationRole, Measurement,
  voltage, current, operating_point, dc_sweep, transient,
}
use datasheet_to_tscircuit.Spice.Circuit.{reaches_dut, is_voltage_clamped}
use datasheet_to_tscircuit.Spice.Numbers.{Numbers}
use datasheet_to_tscircuit.Spice.Connectivity.{
  CaseState, complain, complain_if, Names, validate_endpoint, visit_declared_net, visit_ground,
}
use datasheet_to_tscircuit.Spice.Connectivity.Covering.{complain_if-covered, uncounted-covered}
use datasheet_to_tscircuit.Spice.Observations.{
  is_response, fixture_by_id, validate_sweep, validate_sweep_source, analysis_range, validate_range,
  validate_curve_analysis_range, check_log, check_log_point, validate_log_reference,
  validate_voltage, validate_current, check_reference_range, validate_measurement, validate_scale,
  visit_observation,
}

-- The covered pins are the same.
abbrev Uncovered : (CaseState → CaseState) → Type 0
Uncovered f = (s : CaseState) → (f s).covered_dut_pins ≡ s.covered_dut_pins

pub fold_at-Uncovered :
    {A : Type 0} (f : ℕ → A → CaseState → CaseState)
    → ((i : ℕ) (a : A) → Uncovered (f i a))
    → (i : ℕ) (xs : List A) → Uncovered (fold_at f i xs)
unfolding fold_at
fold_at-Uncovered f round i [] s = refl
fold_at-Uncovered f round i (a ∷ xs) s =
    fold_at-Uncovered f round (suc i) xs (f i a s) ∙ round i a s

pub visit_declared_net-Uncovered :
    (names : Names) (case_path : String) (i : ℕ) (net : String)
    → Uncovered (visit_declared_net names case_path i net)
unfolding visit_declared_net
visit_declared_net-Uncovered names case_path i net s = complain_if-covered _ _ _ _ s

pub visit_ground-Uncovered :
    (names : Names) (case_path : String) → Uncovered (visit_ground names case_path)
unfolding visit_ground
visit_ground-Uncovered names case_path s = complain_if-covered _ _ _ _ s

complain-covered : (path code message : String) → Uncovered (complain path code message)
unfolding complain
complain-covered path code message s = refl

validate_sweep_source-Uncovered :
    {N : Type 0} (path : String) (source : Option (FixtureElement N))
    → Uncovered (validate_sweep_source path source)
unfolding validate_sweep_source
validate_sweep_source-Uncovered path none s = complain-covered _ _ _ s
validate_sweep_source-Uncovered path (some source) s = complain_if-covered _ _ _ _ s

pub validate_sweep-Uncovered :
    {N : Type 0} (path : String) (c : ValidationCase N) → Uncovered (validate_sweep path c)
unfolding validate_sweep
validate_sweep-Uncovered path c s = by_analysis c.analysis refl
  where
    by_analysis :
        (a : ValidationAnalysis _)
        → c.analysis ≡ a
        → (validate_sweep path c s).covered_dut_pins ≡ s.covered_dut_pins
    by_analysis operating_point e = rw (e, validate_sweep) refl
    by_analysis (transient _ _ _) e = rw (e, validate_sweep) refl
    by_analysis (dc_sweep id _ _ _) e =
        rw (e, validate_sweep) (validate_sweep_source-Uncovered _ _ s)

three_checks-covered :
    (a b c : Bool) (path code message code' message' code'' message'' : String)
    → Uncovered (λ s.
      complain_if c path code'' message''
        (complain_if b path code' message' (complain_if a path code message s)))
three_checks-covered a b c path code message code' message' code'' message'' s =
    let s1 = complain_if a path code message s in
    let s2 = complain_if b path code' message' s1 in
    complain_if-covered c path code'' message'' s2
    ∙ complain_if-covered b path code' message' s1
    ∙ complain_if-covered a path code message s

module _ (N : Numbers) where
  validate_range-Uncovered :
      (path analysis : String) (a b c d : N.Number)
      → Uncovered (validate_range N path analysis a b c d)
  unfolding validate_range
  validate_range-Uncovered path analysis a b c d s = complain_if-covered _ _ _ _ s

  validate_curve-Uncovered :
      (analysis : ValidationAnalysis N.Number) (points : List (CurvePoint N.Number)) (path : String)
      → Uncovered (validate_curve_analysis_range N analysis points path)
  unfolding validate_curve_analysis_range
  validate_curve-Uncovered analysis [] path s = refl
  validate_curve-Uncovered analysis (p ∷ points) path s =
      elim (Option-cases (analysis_range N analysis)) [
        | inl e ↦ rw (e, validate_curve_analysis_range) refl
        | inr ((low, high), e) ↦
            rw (e, validate_curve_analysis_range) (validate_range-Uncovered _ _ _ _ low high s)
      ]

  check_log-Uncovered : (path : String) (value : N.Number) → Uncovered (check_log N path value)
  unfolding check_log
  check_log-Uncovered path value s = complain_if-covered _ _ _ _ s

  validate_log_reference-Uncovered :
      (reference : ReferenceContract N.Number) (path : String)
      → Uncovered (validate_log_reference N reference path)
  unfolding validate_log_reference check_log_point
  validate_log_reference-Uncovered (target value _) path s = check_log-Uncovered _ value s
  validate_log_reference-Uncovered (bounds none none) path s = refl
  validate_log_reference-Uncovered (bounds (some a) none) path s = check_log-Uncovered _ a s
  validate_log_reference-Uncovered (bounds none (some b)) path s = check_log-Uncovered _ b s
  validate_log_reference-Uncovered (bounds (some a) (some b)) path s =
      check_log-Uncovered _ b _ ∙ check_log-Uncovered _ a s
  validate_log_reference-Uncovered (curve _ points) path s =
      fold_at-Uncovered (check_log_point N path) (λ i p t. check_log-Uncovered _ p.y t) 0 points s

  module _ (names : Names) (c : ValidationCase N.Number) where
    validate_measurement-Uncovered :
        (m : Measurement) (role : Option ObservationRole) (path : String)
        → Uncovered (validate_measurement N names c m role path)
    unfolding validate_measurement validate_voltage validate_current complain
    validate_measurement-Uncovered (voltage positive negative) role path s =
        let s1 = validate_endpoint names positive (path <> ".positive") false s in
        let s2 = validate_endpoint names negative (path <> ".negative") false s1 in
        three_checks-covered (str_eq positive negative)
          (not (reaches_dut c positive) && not (reaches_dut c negative))
          (is_response role && is_voltage_clamped c positive negative) path "zero_differential"
          "positive and negative endpoints must differ" "disconnected_observation"
          "must observe a node in the DUT-connected fixture graph; ground alone does not connect independent branches"
          "insensitive_voltage_observation"
          "an ideal voltage-source path fixes the measured voltage independently of the DUT" s2
        ∙ uncounted-covered names negative (path <> ".negative") s1
        ∙ uncounted-covered names positive (path <> ".positive") s
    validate_measurement-Uncovered (current element_id _) role path s =
        elim (Option-cases (lookup element_id (fixture_by_id c.fixtures))) [
          | inl e ↦ rw (e, validate_measurement) refl
          | inr (fixture, e) ↦ rw (e, validate_measurement) (ground arith)
        ]

    check_reference_range-Uncovered :
        (reference : ReferenceContract N.Number) (path : String)
        → Uncovered (check_reference_range N names c reference path)
    unfolding check_reference_range
    check_reference_range-Uncovered (target _ _) path s = refl
    check_reference_range-Uncovered (bounds _ _) path s = refl
    check_reference_range-Uncovered (curve _ points) path s =
        validate_curve-Uncovered c.analysis points _ s

    validate_scale-Uncovered :
        (scale : ObservationScale) (reference : ReferenceContract N.Number) (path : String)
        → Uncovered (validate_scale N names c scale reference path)
    unfolding validate_scale
    validate_scale-Uncovered linear reference path s = refl
    validate_scale-Uncovered log reference path s = validate_log_reference-Uncovered reference _ s

    pub visit_observation-Uncovered :
        (case_path : String) (i : ℕ) (o : ValidationObservation N.Number)
        → Uncovered (visit_observation N names c case_path i o)
    unfolding visit_observation
    visit_observation-Uncovered case_path i o s =
        validate_scale-Uncovered o.scale o.reference _ _
        ∙ validate_measurement-Uncovered o.measurement o.role _ _
        ∙ check_reference_range-Uncovered o.reference _ s
