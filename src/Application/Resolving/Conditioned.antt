-- ===== src/Application/Resolving/Conditioned.antt =====
-- The pins that the conditions of an experiment detach.
use datasheet_to_tscircuit.Prelude.{
  String, Bool, true, false, not, List, [], ◌∷◌, ◌++◌, str_eq, member, add, ◌<>◌, All, All-map, ◌≡◌,
  inl, inr, refl, sym, ap, subst, Bool-cases,
}
use datasheet_to_tscircuit.Spice.Types.{
  LogicState, ResolvedApplicationNodeGroup, ApplicationPassiveFixture, ApplicationConditionOverlay,
  logic_state, pulsed_source,
}
use datasheet_to_tscircuit.Application.Types.{
  ModelReferenceAuxiliaryFixture, dc_voltage, dc_current, resistor, ModelReferenceStimulus,
  steady_state, voltage_step, current_step,
}
use datasheet_to_tscircuit.Application.Detaching.{
  Resolved, resolved, condition_conflict, ◌>>=◌, forbid, Conditions, detach_endpoint, detach_from,
  has_executable_anchor_after_detach, containing_groups, without_endpoint, detach_first,
}
use datasheet_to_tscircuit.Application.Resolving.{
  is_present, Topology, check_logic_state, condition_logic_state, condition_all, detach_pulsed,
  condition_stimulus, has_separate_dc_supply,
}
use datasheet_to_tscircuit.Application.Resolving.Detached.{
  is_present-detach_other, is_present-detach_one,
}

pub bind-eq-resolved :
    {A B : Type 0} (m : Resolved A) (f : A → Resolved B) {b : B}
    → (m >>= f) ≡ resolved b
    → (a : A) × (m ≡ resolved a) × (f a ≡ resolved b)
bind-eq-resolved (resolved a) f h = (a, refl, h)
bind-eq-resolved (condition_conflict message endpoint) f h = cc

pub forbid-bind :
    {B : Type 0} (b : Bool) (message endpoint : String) (f : Unit {0} → Resolved B) {r : B}
    → (forbid b message endpoint >>= f) ≡ resolved r
    → (b ≡ false) × (f tt ≡ resolved r)
forbid-bind true message endpoint f h = cc
forbid-bind false message endpoint f h = (refl, h)

-- The pin of an overlay.
abbrev pub pin_of : ApplicationConditionOverlay → String
pin_of (logic_state endpoint _ _ _) = endpoint
pin_of (pulsed_source endpoint _) = endpoint

module _ {N : Type 0} (fixtures : List (ApplicationPassiveFixture N)) where
  detach_from-groups :
      (endpoint : String) (containing : List ResolvedApplicationNodeGroup) (s : Conditions)
      (id : String) (t : Conditions)
      → detach_from fixtures endpoint containing s ≡ resolved (id, t)
      → (t.groups ≡ detach_first endpoint s.groups)
        × ((one : ResolvedApplicationNodeGroup) × (containing ≡ one ∷ []))
  unfolding detach_from
  detach_from-groups endpoint [] s id t h = cc
  detach_from-groups endpoint (g ∷ g' ∷ gs) s id t h = cc
  detach_from-groups endpoint (g ∷ []) s id t h =
      let left : Conditions = record s { groups = detach_first endpoint s.groups } in
      let (_, e) =
        forbid-bind
          (not (has_executable_anchor_after_detach (without_endpoint endpoint g) fixtures)) _
          endpoint (λ _. resolved (g.id, left)) h in
      let same : left ≡ t = cc e in (ap (λ c. c.groups) (sym same), (g, refl))

  detach_endpoint-groups :
      (endpoint : String) (s : Conditions) (id : String) (t : Conditions)
      → detach_endpoint fixtures endpoint s ≡ resolved (id, t)
      → (t.groups ≡ detach_first endpoint s.groups)
        × ((one : ResolvedApplicationNodeGroup) × (containing_groups endpoint s.groups ≡ one ∷ []))
  unfolding detach_endpoint
  detach_endpoint-groups endpoint s id t h =
      let left : Conditions = record s {
        conditioned_endpoints = add endpoint s.conditioned_endpoints;
      } in
      let last = detach_from fixtures endpoint (containing_groups endpoint s.groups) left in
      let (_, h1) =
        forbid-bind (str_eq endpoint "gnd") "condition cannot detach the global ground endpoint"
          endpoint
          (λ _.
            forbid (member endpoint s.conditioned_endpoints)
              ("endpoint " <> endpoint <> " is conditioned more than once") endpoint
            >>= λ _. last)
          h in
      let (_, h2) =
        forbid-bind (member endpoint s.conditioned_endpoints)
          ("endpoint " <> endpoint <> " is conditioned more than once") endpoint (λ _. last) h1 in
      detach_from-groups endpoint (containing_groups endpoint s.groups) left id t h2

  -- The pin of each overlay is in no group.
  abbrev pub IsDetached : List ResolvedApplicationNodeGroup → ApplicationConditionOverlay → Type 0
  IsDetached groups overlay = is_present (pin_of overlay) groups ≡ false

  abbrev pub AreDetached : Topology → Type 0
  AreDetached t = All (IsDetached t.conditions.groups) t.condition_overlays

  All-snoc :
      {A : Type 0} (P : A → Type 0) (xs : List A) (x : A) → All P xs → P x → All P (xs ++ x ∷ [])
  All-snoc P [] x h p = (p, tt)
  All-snoc P (y ∷ xs) x (q, h) p = (q, All-snoc P xs x h p)

  -- One pin more is detached, and its overlay added.
  detach-AreDetached :
      (t : Topology) (overlay : ApplicationConditionOverlay) (id : String) (c : Conditions)
      → detach_endpoint fixtures (pin_of overlay) t.conditions ≡ resolved (id, c)
      → AreDetached t
      → All (IsDetached c.groups) (t.condition_overlays ++ overlay ∷ [])
  detach-AreDetached t overlay id c h kept =
      let (e, (one, only)) = detach_endpoint-groups (pin_of overlay) t.conditions id c h in
      subst (λ gs. All (IsDetached gs) (t.condition_overlays ++ overlay ∷ [])) (sym e)
        (All-snoc _ t.condition_overlays overlay
          (All-map t.condition_overlays
            (λ o d. is_present-detach_other (pin_of o) (pin_of overlay) t.conditions.groups d) kept)
          (is_present-detach_one (pin_of overlay) t.conditions.groups one only))

  condition_logic_state-AreDetached :
      (endpoint reference : String) (state : LogicState) (t t' : Topology)
      → condition_logic_state fixtures endpoint reference state t ≡ resolved t'
      → AreDetached t
      → AreDetached t'
  unfolding condition_logic_state
  condition_logic_state-AreDetached endpoint reference state t t' h kept =
      let (_, _, h1) =
        bind-eq-resolved (check_logic_state endpoint reference state t.conditions.groups) _ h in
      let ((id, c), detached, made) =
        bind-eq-resolved (detach_endpoint fixtures endpoint t.conditions) _ h1 in
      let overlay = logic_state endpoint reference state id in
      let same : record {
        conditions = c;
        condition_overlays = t.condition_overlays ++ overlay ∷ [];
      }
          ≡ t' =
        cc in
      subst AreDetached same (detach-AreDetached t overlay id c detached kept)

  detach_pulsed-AreDetached :
      (endpoint : String) (t t' : Topology)
      → detach_pulsed fixtures endpoint t ≡ resolved t'
      → AreDetached t
      → AreDetached t'
  unfolding detach_pulsed
  detach_pulsed-AreDetached endpoint t t' h kept =
      let ((id, c), detached, made) =
        bind-eq-resolved (detach_endpoint fixtures endpoint t.conditions) _ h in
      let overlay = pulsed_source endpoint id in
      let same : record {
        conditions = c;
        condition_overlays = t.condition_overlays ++ overlay ∷ [];
      }
          ≡ t' =
        cc in
      subst AreDetached same (detach-AreDetached t overlay id c detached kept)

  pub condition_all-AreDetached :
      (auxiliaries : List (ModelReferenceAuxiliaryFixture N)) (t t' : Topology)
      → condition_all fixtures auxiliaries t ≡ resolved t'
      → AreDetached t
      → AreDetached t'
  unfolding condition_all
  condition_all-AreDetached [] t t' h kept = let same : t ≡ t' = cc in subst AreDetached same kept
  condition_all-AreDetached (dc_voltage _ _ _ ∷ rest) t t' h kept =
      condition_all-AreDetached rest t t' h kept
  condition_all-AreDetached (dc_current _ _ _ ∷ rest) t t' h kept =
      condition_all-AreDetached rest t t' h kept
  condition_all-AreDetached (resistor _ _ _ ∷ rest) t t' h kept =
      condition_all-AreDetached rest t t' h kept
  condition_all-AreDetached
        (ModelReferenceAuxiliaryFixture.logic_state endpoint reference state ∷ rest) t t' h kept =
      let (t1, first, later) =
        bind-eq-resolved (condition_logic_state fixtures endpoint reference state t) _ h in
      condition_all-AreDetached rest t1 t' later
        (condition_logic_state-AreDetached endpoint reference state t t1 first kept)

  pub condition_stimulus-AreDetached :
      (stimulus : ModelReferenceStimulus N) (auxiliaries : List (ModelReferenceAuxiliaryFixture N))
      (t t' : Topology)
      → condition_stimulus fixtures stimulus auxiliaries t ≡ resolved t'
      → AreDetached t
      → AreDetached t'
  unfolding condition_stimulus
  condition_stimulus-AreDetached steady_state auxiliaries t t' h kept =
      let same : t ≡ t' = cc in subst AreDetached same kept
  condition_stimulus-AreDetached (current_step _ _ _) auxiliaries t t' h kept =
      let same : t ≡ t' = cc in subst AreDetached same kept
  condition_stimulus-AreDetached (voltage_step positive _ _) auxiliaries t t' h kept =
      elim (Bool-cases (has_separate_dc_supply fixtures positive auxiliaries)) [
        | inl separate ↦
            detach_pulsed-AreDetached positive t t' (rw (separate, condition_stimulus) at h) kept
        | inr alone ↦
            let kept_all : resolved t ≡ resolved t' = rw (alone, condition_stimulus) at h in
            let same : t ≡ t' = cc kept_all in subst AreDetached same kept
      ]
