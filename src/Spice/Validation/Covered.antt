-- ===== src/Spice/Validation/Covered.antt =====
-- The coverage of a plan that is accepted.
use datasheet_to_tscircuit.Prelude.{
  ℕ, suc, String, true, List, [], ◌∷◌, ◌≡◌, refl, ◌∙◌, ◌↔◌, member, All, Bool-cases, fold_at, inl,
  inr,
}
use datasheet_to_tscircuit.Spice.Types.{ModelPin}
use datasheet_to_tscircuit.Spice.Collector.{Errors}
use datasheet_to_tscircuit.Spice.Collector.Clean.{report-ne-nil, fold_at-Clean}
use datasheet_to_tscircuit.Spice.Validation.{visit_pin, visit_requirement, validate_plan_coverage}

-- A pin is connected by some case.
abbrev pub IsConnected : List String → ModelPin → Type 0
IsConnected covered pin = member pin.spice_node covered ≡ true

-- A requirement is covered by some case.
abbrev pub IsRequired : List String → String → Type 0
IsRequired covered requirement_id = member requirement_id covered ≡ true

visit_pin-Clean :
    (covered : List String) (index : ℕ) (pin : ModelPin) (errors : Errors)
    → visit_pin covered index pin errors ≡ []
    → (errors ≡ []) × IsConnected covered pin
unfolding visit_pin
visit_pin-Clean covered index pin errors h = elim (Bool-cases (member pin.spice_node covered)) [
  | inl known ↦ (rw (known, visit_pin) at h, known)
  | inr missing ↦ absurd (report-ne-nil _ _ _ errors (rw (missing, visit_pin) at h))
]

visit_requirement-Clean :
    (covered : List String) (index : ℕ) (requirement_id : String) (errors : Errors)
    → visit_requirement covered index requirement_id errors ≡ []
    → (errors ≡ []) × IsRequired covered requirement_id
unfolding visit_requirement
visit_requirement-Clean covered index requirement_id errors h =
    elim (Bool-cases (member requirement_id covered)) [
      | inl known ↦ (rw (known, visit_requirement) at h, known)
      | inr missing ↦ absurd (report-ne-nil _ _ _ errors (rw (missing, visit_requirement) at h))
    ]

-- What is covered adds nothing.
visits_pins :
    (covered : List String) (index : ℕ) (pins : List ModelPin) (errors : Errors)
    → All (IsConnected covered) pins
    → fold_at (visit_pin covered) index pins errors ≡ errors
unfolding fold_at visit_pin
visits_pins covered index [] errors h = refl
visits_pins covered index (pin ∷ pins) errors (p, ps) =
    rw (p, visit_pin) (visits_pins covered (suc index) pins errors ps)

visits_requirements :
    (covered : List String) (index : ℕ) (ids : List String) (errors : Errors)
    → All (IsRequired covered) ids
    → fold_at (visit_requirement covered) index ids errors ≡ errors
unfolding fold_at visit_requirement
visits_requirements covered index [] errors h = refl
visits_requirements covered index (id ∷ ids) errors (p, ps) =
    rw (p, visit_requirement) (visits_requirements covered (suc index) ids errors ps)

-- After the coverage of a plan is validated there are no errors exactly if there were none before, each
-- pin of the manifest is connected by some case, and each modeled requirement is covered by some case.
pub validate_plan_coverage_iff :
    (pins : List ModelPin) (covered_dut_pins modeled_ids covered_ids : List String)
    (errors : Errors)
    → (validate_plan_coverage pins covered_dut_pins modeled_ids covered_ids errors ≡ []) ↔ (
        (errors ≡ [])
        × All (IsConnected covered_dut_pins) pins
        × All (IsRequired covered_ids) modeled_ids)
unfolding validate_plan_coverage
validate_plan_coverage_iff pins covered_dut_pins modeled_ids covered_ids errors = (
  λ h.
      let (e1, requirements) =
        fold_at-Clean (λ e. e) (visit_requirement covered_ids) (IsRequired covered_ids)
          (visit_requirement-Clean covered_ids) 0 modeled_ids _ h in
      let (e0, connected) =
        fold_at-Clean (λ e. e) (visit_pin covered_dut_pins) (IsConnected covered_dut_pins)
          (visit_pin-Clean covered_dut_pins) 0 pins errors e1 in
      (e0, connected, requirements),
  λ (e, connected, requirements).
      visits_requirements covered_ids 0 modeled_ids _ requirements
      ∙ visits_pins covered_dut_pins 0 pins errors connected
      ∙ e,
)
