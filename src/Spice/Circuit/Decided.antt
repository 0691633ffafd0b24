-- ===== src/Spice/Circuit/Decided.antt =====
-- What the two searches of a case decide.
use datasheet_to_tscircuit.Prelude.{
  String, suc, some, true, ◌||◌, [], ◌∷◌, ◌++◌, str_eq, eq_iff, ◌≡◌, ◌≢◌, ◌↔◌, inl, inr, refl, ap,
  ◌∙◌, subst, arith, Bool-cases, In,
}
use datasheet_to_tscircuit.Spice.Types.{ValidationCase}
use datasheet_to_tscircuit.Spice.Graph.{connect_all, search, edge_count}
use datasheet_to_tscircuit.Spice.Graph.Search.{search_from_iff, search_from_returns}
use datasheet_to_tscircuit.Spice.Graph.Links.{Chain, walk_iff_chain}
use datasheet_to_tscircuit.Spice.Identifiers.{parse_endpoint_syntax}
use datasheet_to_tscircuit.Spice.Circuit.{
  Links, without_ground, voltage_links, is_voltage_clamped, case_links, is_dut, reaches_dut,
  group_links, overlay_links, fixture_links, groups_of, overlays_of,
}

module _ {N : Type 0} (c : ValidationCase N) where
  -- The search for the second node of a voltage from the first one ends within its fuel, with the answer
  -- of the code; and this is that the voltage is clamped exactly if a chain of voltage sources, of
  -- application node groups with their pins, and of logic-state overlays joins the two nodes.
  pub is_voltage_clamped_iff :
      (positive negative : String)
      → let g = connect_all (voltage_links c) [] in
        (search (λ node. str_eq node negative) g (suc (edge_count g)) (positive ∷ []) []
          ≡ some (is_voltage_clamped c positive negative))
        × ((is_voltage_clamped c positive negative ≡ true)
            ↔ Chain (voltage_links c) positive negative)
  unfolding is_voltage_clamped
  is_voltage_clamped_iff positive negative =
      let links = voltage_links c in
      let (found, full) =
        search_from_iff (λ node. str_eq node negative) (connect_all links []) positive in
      (
        search_from_returns (λ node. str_eq node negative) (connect_all links []) positive,
        (
          λ h.
              let (y, walk, hit) = found h in
              subst (Chain links positive) ((eq_iff y negative).0 hit)
                ((walk_iff_chain links positive y).0 walk),
          λ chain. full (
            negative,
            (walk_iff_chain links positive negative).1 chain,
            (eq_iff negative negative).1 refl,
          ),
        ),
      )

-- No link that is kept ends at the ground.
In-without_ground-not :
    (links : Links) (x y : String) → In (x, y) (without_ground links) → (x ≢ "gnd") × (y ≢ "gnd")
unfolding without_ground
In-without_ground-not [] x y h = absurd h
In-without_ground-not ((a, b) ∷ links) x y h =
    elim (Bool-cases (str_eq a "gnd" || str_eq b "gnd")) [
      | inl ground ↦ In-without_ground-not links x y (rw (ground, without_ground) at h)
      | inr kept ↦ elim (rw (kept, without_ground) at h) [
        | inl e ↦
            let a_x : a ≡ x = ap (λ p. p.0) e in
            let b_y : b ≡ y = ap (λ p. p.1) e in
            (
              λ g. cc (kept, (eq_iff a "gnd").1 (a_x ∙ g)),
              λ g. ground (arith, kept, (eq_iff b "gnd").1 (b_y ∙ g)),
            )
        | inr later ↦ In-without_ground-not links x y later
      ]
    ]

is_dut-ne : (x : String) → is_dut x ≡ true → x ≢ "gnd"
unfolding is_dut parse_endpoint_syntax
is_dut-ne x h e = cc (subst (λ t. is_dut t ≡ true) e h)

module _ {N : Type 0} (c : ValidationCase N) where
  -- The ground is joined to nothing.
  Chain-ne_gnd : {x y : String} → Chain (case_links c) x y → is_dut y ≡ true → x ≢ "gnd"
  unfolding case_links
  Chain-ne_gnd (Chain.here {x} filled) dut = is_dut-ne x dut
  Chain-ne_gnd (Chain.step {x} {y} filled next chain) dut =
      let all =
        group_links (groups_of c) ++ overlay_links (overlays_of c) ++ fixture_links c.fixtures in
      elim next [
        | inl forth ↦ (In-without_ground-not all x y forth).0
        | inr back ↦ (In-without_ground-not all y x back).1
      ]

  -- The search for a pin from an endpoint that is not the ground ends within its fuel, with the answer
  -- of the code; and an endpoint reaches the model exactly if a chain of links of the case, which are
  -- fixtures, node groups with their pins and logic-state overlays that do not end at the ground, joins
  -- it to a pin.
  pub reaches_dut_iff :
      (endpoint : String)
      → let g = connect_all (case_links c) [] in
        (endpoint ≢ "gnd"
          → search is_dut g (suc (edge_count g)) (endpoint ∷ []) [] ≡ some (reaches_dut c endpoint))
        × ((reaches_dut c endpoint ≡ true)
            ↔ ((pin : String) × Chain (case_links c) endpoint pin × (is_dut pin ≡ true)))
  unfolding reaches_dut
  reaches_dut_iff endpoint =
      let links = case_links c in
      let (found, full) = search_from_iff is_dut (connect_all links []) endpoint in
      elim (Bool-cases (str_eq endpoint "gnd")) [
        | inl ground ↦
            let at = (eq_iff endpoint "gnd").0 ground in
            (
              λ other. absurd (other at),
              (
                λ h. cc (rw (ground, reaches_dut) at h),
                λ (y, chain, hit). absurd (Chain-ne_gnd chain hit at),
              ),
            )
        | inr other ↦
            rw (other, reaches_dut)
              (
                λ _. search_from_returns is_dut (connect_all links []) endpoint,
                (
                  λ h.
                      let (y, walk, hit) = found h in
                      (y, (walk_iff_chain links endpoint y).0 walk, hit),
                  λ (y, chain, hit). full (y, (walk_iff_chain links endpoint y).1 chain, hit),
                ),
              )
      ]
