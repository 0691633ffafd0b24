-- ===== src/Spice/Plans/Accepted.antt =====
-- A plan that is accepted.
use datasheet_to_tscircuit.Prelude.{
  ℕ, String, true, false, List, [], ◌∷◌, map, ◌≡◌, inl, inr, ◌∙◌, subst, arith, eq_iff, str_eq,
  member, member-add, All, All-map, Bool-cases, fold_at, fold_at-keeps,
}
use datasheet_to_tscircuit.Spice.Types.{ValidationCase, ModelPin}
use datasheet_to_tscircuit.Spice.Numbers.{Numbers}
use datasheet_to_tscircuit.Spice.Circuit.{groups_of, overlays_of}
use datasheet_to_tscircuit.Spice.Collector.{Errors, at_index}
use datasheet_to_tscircuit.Spice.Collector.Clean.{report-ne-nil, fold_at-Clean}
use datasheet_to_tscircuit.Spice.Connectivity.{
  CaseState, visit_group, visit_overlay, visit_fixture, visit_declared_net, visit_ground,
}
use datasheet_to_tscircuit.Spice.Connectivity.Covering.{
  Any, All-into_any, Connects, Within, circuit-Within,
}
use datasheet_to_tscircuit.Spice.Observations.{validate_sweep, visit_observation}
use datasheet_to_tscircuit.Spice.Observations.Covered.{
  fold_at-Uncovered, visit_declared_net-Uncovered, visit_ground-Uncovered, validate_sweep-Uncovered,
  visit_observation-Uncovered,
}
use datasheet_to_tscircuit.Spice.Validation.{validate_case_connectivity, duplicates_of_case}
use datasheet_to_tscircuit.Spice.Validation.Clean.{
  names_of, HasEndpoints, IsAccepted, validate_case_connectivity-Clean,
}
use datasheet_to_tscircuit.Spice.Validation.Covered.{validate_plan_coverage_iff}
use datasheet_to_tscircuit.Spice.Plans.{
  Coverage, cover_requirement, visit_case, visit_cases, validate_plan,
}

-- A case names a requirement and has an observation for it.
abbrev pub Covers : {N : Type 0} → ValidationCase N → String → Type 0
Covers c requirement_id =
    (member requirement_id c.requirement_ids ≡ true)
    × (member requirement_id (map (λ o. o.requirement_id) c.observations) ≡ true)

-- The requirements that are covered are of some kind.
abbrev AreCovered : (String → Type 0) → Coverage → Type 0
AreCovered Q k = (x : String) → member x k.covered_requirement_ids ≡ true → Q x

-- The pins that are covered are of some kind.
abbrev AreConnected : (String → Type 0) → Coverage → Type 0
AreConnected P k = (x : String) → member x k.covered_dut_pins ≡ true → P x

All-members :
    (P : String → Type 0) (xs : List String) → ((x : String) → member x xs ≡ true → P x) → All P xs
unfolding member
All-members P [] h = tt
All-members P (x ∷ xs) h =
    (h x (ground (arith, eq_iff x x)), All-members P xs (λ y m. h y (ground (arith, m))))

module _ (modeled_requirement_ids : List String) (path : String) (observed : List String) where
  cover_requirement-AreCovered :
      (Q : String → Type 0) (i : ℕ) (id : String) (k : Coverage)
      → (member id observed ≡ true → Q id)
      → AreCovered Q k
      → AreCovered Q (cover_requirement modeled_requirement_ids path observed i id k)
  unfolding cover_requirement
  cover_requirement-AreCovered Q i id k q h = elim (Bool-cases (member id observed)) [
    | inr unobserved ↦ rw (unobserved, cover_requirement) h
    | inl seen ↦ elim (Bool-cases (member id modeled_requirement_ids)) [
      | inr other ↦ rw (seen, other, cover_requirement) h
      | inl modeled ↦
          rw (seen, modeled, cover_requirement)
            (λ x m. elim (Bool-cases (str_eq id x)) [
              | inl same ↦ subst Q ((eq_iff id x).0 same) (q seen)
              | inr apart ↦
                  h x (ground (arith, m, apart, member-add x id k.covered_requirement_ids))
            ])
    ]
  ]

  cover_requirement-pins :
      (P : String → Type 0) (i : ℕ) (id : String) (k : Coverage)
      → Unit {0}
      → AreConnected P k
      → AreConnected P (cover_requirement modeled_requirement_ids path observed i id k)
  unfolding cover_requirement
  cover_requirement-pins P i id k u h = elim (Bool-cases (member id observed)) [
    | inr unobserved ↦ rw (unobserved, cover_requirement) h
    | inl seen ↦ elim (Bool-cases (member id modeled_requirement_ids)) [
      | inr other ↦ rw (seen, other, cover_requirement) h
      | inl modeled ↦ rw (seen, modeled, cover_requirement) h
    ]
  ]

  cover_requirement-Clean :
      (i : ℕ) (id : String) (k : Coverage)
      → (cover_requirement modeled_requirement_ids path observed i id k).errors ≡ []
      → (k.errors ≡ []) × Unit {0}
  unfolding cover_requirement
  cover_requirement-Clean i id k h = elim (Bool-cases (member id observed)) [
    | inr unobserved ↦
        absurd (report-ne-nil _ _ _ k.errors (rw (unobserved, cover_requirement) at h))
    | inl seen ↦ elim (Bool-cases (member id modeled_requirement_ids)) [
      | inr other ↦ (rw (seen, other, cover_requirement) at h, tt)
      | inl modeled ↦ (rw (seen, modeled, cover_requirement) at h, tt)
    ]
  ]

module _ (N : Numbers) (pins : List ModelPin) where
  -- A case covers the pins that it connects, beside those that were covered.
  validate_case_connectivity-Within :
      (P : String → Type 0) (c : ValidationCase N.Number) (index : ℕ) (covered : List String)
      (errors : Errors)
      → ((x : String) → Connects c x → P x)
      → ((x : String) → member x covered ≡ true → P x)
      → (x : String)
      → member x (validate_case_connectivity N c index pins covered errors).covered_dut_pins ≡ true
      → P x
  unfolding validate_case_connectivity Within
  validate_case_connectivity-Within P c index covered errors connects before x m =
      let path = at_index "cases" index in
      let names = names_of pins c in
      let s0 : CaseState = record {
        errors = duplicates_of_case N path c errors;
        covered_dut_pins = covered;
        net_terminal_counts = [];
        has_ground = false;
      } in
      let s3 = fold_at (visit_fixture names path) 0 c.fixtures (
        fold_at (visit_overlay names path) 0 (overlays_of c)
          (fold_at (visit_group names path) 0 (groups_of c) s0)) in
      let s4 = fold_at (visit_declared_net names path) 0 c.nets s3 in
      let s5 = validate_sweep path c (visit_ground names path s4) in
      let same =
        fold_at-Uncovered (visit_observation N names c path)
          (λ i o. visit_observation-Uncovered N names c path i o) 0 c.observations s5
        ∙ validate_sweep-Uncovered path c (visit_ground names path s4)
        ∙ visit_ground-Uncovered names path s4
        ∙ fold_at-Uncovered (visit_declared_net names path)
            (λ i net. visit_declared_net-Uncovered names path i net) 0 c.nets s3 in
      circuit-Within P names path c s0 connects before x (subst (λ l. member x l ≡ true) same m)

  module _ (modeled_requirement_ids : List String) where
    visit_case-pins :
        (P : String → Type 0) (i : ℕ) (c : ValidationCase N.Number) (k : Coverage)
        → ((x : String) → Connects c x → P x)
        → AreConnected P k
        → AreConnected P (visit_case N pins modeled_requirement_ids i c k)
    unfolding visit_case
    visit_case-pins P i c k connects before = validate_case_connectivity-Within P c i _ _ connects (
        fold_at-keeps (AreConnected P) (λ _. Unit {0}) _
          (cover_requirement-pins modeled_requirement_ids _ _ P) 0 c.requirement_ids k
          (All-members (λ _. Unit {0}) c.requirement_ids (λ x m. tt)) before)

    visit_case-requirements :
        (Q : String → Type 0) (i : ℕ) (c : ValidationCase N.Number) (k : Coverage)
        → ((x : String) → Covers c x → Q x)
        → AreCovered Q k
        → AreCovered Q (visit_case N pins modeled_requirement_ids i c k)
    unfolding visit_case
    visit_case-requirements Q i c k covers before =
        let observed = map (λ o. o.requirement_id) c.observations in
        fold_at-keeps (AreCovered Q) (λ id. member id observed ≡ true → Q id) _
          (cover_requirement-AreCovered modeled_requirement_ids _ observed Q) 0 c.requirement_ids k
          (All-members (λ id. member id observed ≡ true → Q id) c.requirement_ids
            (λ x m o. covers x (m, o)))
          before

    visit_case-Clean :
        (i : ℕ) (c : ValidationCase N.Number) (k : Coverage)
        → (visit_case N pins modeled_requirement_ids i c k).errors ≡ []
        → (k.errors ≡ []) × (All HasEndpoints c.fixtures → IsAccepted pins c)
    unfolding visit_case
    visit_case-Clean i c k h =
        let (before, accepted) = validate_case_connectivity-Clean N c i pins _ _ h in
        (
          (fold_at-Clean (λ t. t.errors) _ (λ _. Unit {0})
              (cover_requirement-Clean modeled_requirement_ids _ _) 0 c.requirement_ids k before).0,
          accepted,
        )

    apply_all :
        {A : Type 0} (P Q : A → Type 0) (xs : List A)
        → All P xs
        → All (λ x. P x → Q x) xs
        → All Q xs
    apply_all P Q [] p h = tt
    apply_all P Q (x ∷ xs) (p, ps) (h, hs) = (h p, apply_all P Q xs ps hs)

    -- If the ends of the fixtures of all cases are texts of endpoints, and a plan is validated without an
    -- error, then each of its cases is accepted, each pin of the model is one of a node group, an overlay
    -- or a fixture of some case, and each modeled requirement is named by some case that has an
    -- observation for it.
    pub validate_plan-IsAccepted :
        (cases : List (ValidationCase N.Number))
        → All (λ c. All HasEndpoints c.fixtures) cases
        → validate_plan N pins modeled_requirement_ids cases [] ≡ []
        → All (IsAccepted pins) cases
          × All (λ pin. Any (λ c. Connects c pin.spice_node) cases) pins
          × All (λ id. Any (λ c. Covers c id) cases) modeled_requirement_ids
    unfolding validate_plan visit_cases member
    validate_plan-IsAccepted cases parsed h =
        let start : Coverage = record {
          covered_dut_pins = [];
          covered_requirement_ids = [];
          errors = [];
        } in
        let k = fold_at (visit_case N pins modeled_requirement_ids) 0 cases start in
        let P = λ (x : String). Any (λ c. Connects c x) cases in
        let Q = λ (x : String). Any (λ c. Covers c x) cases in
        let (clean, connected, required) =
          (validate_plan_coverage_iff pins k.covered_dut_pins modeled_requirement_ids
              k.covered_requirement_ids k.errors).0
            h in
        let (_, accepted) =
          fold_at-Clean (λ t. t.errors) (visit_case N pins modeled_requirement_ids) _
            visit_case-Clean 0 cases start clean in
        let within =
          fold_at-keeps (AreConnected P) _ (visit_case N pins modeled_requirement_ids)
            (visit_case-pins P) 0 cases start
            (All-into_any (λ x c. Connects c x) P cases (λ x r. r)) (λ x m. cc m) in
        let covered =
          fold_at-keeps (AreCovered Q) _ (visit_case N pins modeled_requirement_ids)
            (visit_case-requirements Q) 0 cases start
            (All-into_any (λ x c. Covers c x) Q cases (λ x r. r)) (λ x m. cc m) in
        (
          apply_all _ _ cases parsed accepted,
          All-map pins (λ pin m. within pin.spice_node m) connected,
          All-map modeled_requirement_ids (λ id m. covered id m) required,
        )
