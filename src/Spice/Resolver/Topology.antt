-- ===== src/Spice/Resolver/Topology.antt =====
-- The nodes that the resolver gives the pins of an application.
use datasheet_to_tscircuit.Prelude.{
  ℕ, suc, String, ◌<>◌, quote, codes, put_all, strip_prefix-eq-some, true, false, Option, none,
  some, List, [], ◌∷◌, if◌then◌else◌, str_eq, eq_iff, ◌≡◌, refl, ◌⊎◌, ◌∙◌, ap, subst, arith, inl,
  inr, strip_prefix, Dict, lookup, put, has_key, lookup-put, has_key_of_lookup, All, All-map,
  Bool-cases, Option-cases,
}
use datasheet_to_tscircuit.Spice.Types.{
  ResolvedApplicationNodeGroup, ApplicationConditionOverlay, logic_state, pulsed_source,
  ValidationCase, ModelPin,
}
use datasheet_to_tscircuit.Spice.Identifiers.{
  ParsedEndpoint, dut, parse_endpoint_syntax, is_spice_node, get_dut_node_name,
}
use datasheet_to_tscircuit.Spice.Identifiers.Endpoints.{IsEndpoint, parse-print_endpoint}
use datasheet_to_tscircuit.Spice.Circuit.{groups_of, overlays_of}
use datasheet_to_tscircuit.Spice.Compiled.{compiled, ◌>>=◌, required, bind-eq-compiled}
use datasheet_to_tscircuit.Spice.Resolver.{
  pin_entries, dut_nodes_of, group_node_name, group_pin, group_endpoints, group_all, free_pin,
  detached_pin, reference_node, overlay_all, NodeResolver, get_node_resolver, pin_node, node_of,
  resolve_node,
}

pub required-eq-compiled :
    {A : Type 0} (message : String) (o : Option A) {a : A}
    → required message o ≡ compiled a
    → o ≡ some a
required-eq-compiled message none h = cc
required-eq-compiled message (some b) h = cc

module _ (dut_nodes : Dict String) where
  -- Every entry is kept, and only pins of the model are added.
  record Grows (m n : Dict String) : Type 0 where
    kept : (k v : String) → lookup k m ≡ some v → lookup k n ≡ some v
    known :
        ((k : String) → has_key k m ≡ true → has_key k dut_nodes ≡ true)
        → (k : String) → has_key k n ≡ true
        → has_key k dut_nodes ≡ true

  Grows-refl : (m : Dict String) → Grows m m
  Grows-refl m = record { kept = λ k v h. h; known = λ h. h }

  Grows-trans : (m n o : Dict String) → Grows m n → Grows n o → Grows m o
  Grows-trans m n o f g = record {
    kept = λ k v h. g.kept k v (f.kept k v h);
    known = λ h. g.known (f.known h);
  }

  has_key-put_iff :
      (p k v : String) (m : Dict String)
      → has_key k (put p v m) ≡ (if str_eq p k then true else has_key k m)
  unfolding has_key put
  has_key-put_iff p k v [] = ground arith
  has_key-put_iff p k v ((j, w) ∷ m) =
      ground (arith, has_key-put_iff p k v m, eq_iff j p, eq_iff j k, eq_iff p k)

  Grows-put :
      (p v : String) (m : Dict String)
      → has_key p m ≡ false
      → has_key p dut_nodes ≡ true
      → Grows m (put p v m)
  Grows-put p v m fresh pin = record {
    kept = λ k w h. ground (
      arith,
      lookup-put p k v m,
      eq_iff p k,
      has_key_of_lookup k m w h,
      fresh,
      h,
      (λ (e : p ≡ k). ap (λ z. has_key z m) e),
    );
    known = λ h k own. ground (
      arith,
      has_key-put_iff p k v m,
      own,
      h k,
      pin,
      eq_iff p k,
      (λ (e : p ≡ k). ap (λ z. has_key z dut_nodes) e),
    );
  }

  -- A pin of the model has a node.
  abbrev IsAt : (m : Dict String) → (pin node : String) → Type 0
  IsAt m pin node = (has_key pin dut_nodes ≡ true) × (lookup pin m ≡ some node)

  put-IsAt : (p v : String) (m : Dict String) → has_key p dut_nodes ≡ true → IsAt (put p v m) p v
  put-IsAt p v m pin = (pin, ground (arith, lookup-put p p v m, eq_iff p p))

  group_pin_puts :
      (g : ResolvedApplicationNodeGroup) (p : String) (m n : Dict String)
      → group_pin dut_nodes g p m ≡ compiled n
      → Grows m n × IsAt n p (group_node_name g)
  unfolding group_pin
  group_pin_puts g p m n h = elim (Bool-cases (has_key p dut_nodes)) [
    | inr foreign ↦ cc (rw (foreign, group_pin) at h)
    | inl pin ↦ elim (Bool-cases (has_key p m)) [
      | inl taken ↦ cc (rw (pin, taken, group_pin) at h)
      | inr fresh ↦
          let e : put p (group_node_name g) m ≡ n = cc (rw (pin, fresh, group_pin) at h) in
          subst (λ d. Grows m d × IsAt d p (group_node_name g)) e
            (Grows-put p _ m fresh pin, put-IsAt p _ m pin)
    ]
  ]

  -- An endpoint of a group is a pin that has the node of the group.
  abbrev IsPlaced : Dict String → (node endpoint : String) → Type 0
  IsPlaced m node endpoint =
      (pin : String) × (strip_prefix "dut." endpoint ≡ some pin) × IsAt m pin node

  IsPlaced-Grows :
      (m n : Dict String) (node endpoint : String)
      → Grows m n
      → IsPlaced m node endpoint
      → IsPlaced n node endpoint
  IsPlaced-Grows m n node endpoint g (pin, e, (known, at)) = (pin, e, (known, g.kept pin node at))

  group_endpoints_puts :
      (g : ResolvedApplicationNodeGroup) (endpoints : List String) (m n : Dict String)
      → group_endpoints dut_nodes g endpoints m ≡ compiled n
      → Grows m n × All (IsPlaced n (group_node_name g)) endpoints
  unfolding group_endpoints
  group_endpoints_puts g [] m n h = (subst (Grows m) (cc) (Grows-refl m), tt)
  group_endpoints_puts g (e ∷ endpoints) m n h =
      let (pin, read, inner) = bind-eq-compiled _ _ h in
      let (m', put_pin, rest) = bind-eq-compiled _ _ inner in
      let (grow, at) = group_pin_puts g pin m m' put_pin in
      let (later, placed) = group_endpoints_puts g endpoints m' n rest in
      (
        Grows-trans m m' n grow later,
        (IsPlaced-Grows m' n _ e later (pin, required-eq-compiled _ _ read, at), placed),
      )

  group_all_puts :
      (groups : List ResolvedApplicationNodeGroup) (m n : Dict String)
      → group_all dut_nodes groups m ≡ compiled n
      → Grows m n × All (λ g. All (IsPlaced n (group_node_name g)) g.dut_endpoints) groups
  unfolding group_all
  group_all_puts [] m n h = (subst (Grows m) (cc) (Grows-refl m), tt)
  group_all_puts (g ∷ groups) m n h =
      let (m', first, rest) = bind-eq-compiled _ _ h in
      let (grow, placed) = group_endpoints_puts g g.dut_endpoints m m' first in
      let (later, others) = group_all_puts groups m' n rest in
      (
        Grows-trans m m' n grow later,
        (All-map g.dut_endpoints (λ e. IsPlaced-Grows m' n _ e later) placed, others),
      )

  free_pin-eq :
      (p : String) (m : Dict String) (pin : String)
      → free_pin dut_nodes p m ≡ compiled pin
      → (p ≡ pin) × (has_key p dut_nodes ≡ true) × (has_key p m ≡ false)
  unfolding free_pin
  free_pin-eq p m pin h = elim (Bool-cases (has_key p dut_nodes)) [
    | inr foreign ↦ cc (rw (foreign, free_pin) at h)
    | inl own ↦ elim (Bool-cases (has_key p m)) [
      | inl taken ↦ cc (rw (own, taken, free_pin) at h)
      | inr fresh ↦ (cc (rw (own, fresh, free_pin) at h), own, fresh)
    ]
  ]

  detached_pin-eq :
      (endpoint : String) (m : Dict String) (pin : String)
      → detached_pin dut_nodes endpoint m ≡ compiled pin
      → (strip_prefix "dut." endpoint ≡ some pin)
        × (has_key pin dut_nodes ≡ true)
        × (has_key pin m ≡ false)
  unfolding detached_pin
  detached_pin-eq endpoint m pin h =
      let (p, read, inner) =
        bind-eq-compiled (required _ (strip_prefix "dut." endpoint)) (λ q. free_pin dut_nodes q m)
          h in
      let (e, own, fresh) = free_pin-eq p m pin inner in
      subst
        (λ q.
          (strip_prefix "dut." endpoint ≡ some q)
          × (has_key q dut_nodes ≡ true)
          × (has_key q m ≡ false))
        e (required-eq-compiled _ _ read, own, fresh)

  -- The reference of an overlay is the ground, or a pin that has a node.
  abbrev IsAnchor : Dict String → (node reference : String) → Type 0
  IsAnchor m node reference = ((reference ≡ "gnd") × (node ≡ "0")) ⊎ IsPlaced m node reference

  IsAnchor-Grows :
      (m n : Dict String) (node reference : String)
      → Grows m n
      → IsAnchor m node reference
      → IsAnchor n node reference
  IsAnchor-Grows m n node reference g (inl ground) = inl ground
  IsAnchor-Grows m n node reference g (inr placed) =
      inr (IsPlaced-Grows m n node reference g placed)

  reference_node-eq :
      (reference : String) (m : Dict String) (node : String)
      → ((k : String) → has_key k m ≡ true → has_key k dut_nodes ≡ true)
      → reference_node dut_nodes reference m ≡ compiled node
      → IsAnchor m node reference
  unfolding reference_node
  reference_node-eq reference m node own h =
      let read = required-eq-compiled _ _ h in
      elim (Bool-cases (str_eq reference "gnd")) [
        | inl ground ↦ inl ((eq_iff reference "gnd").0 ground, cc (rw ground at read))
        | inr other ↦ elim (Option-cases (strip_prefix "dut." reference)) [
          | inl foreign ↦ cc (rw (other, foreign) at read)
          | inr (pin, stripped) ↦
              let at : lookup pin m ≡ some node = rw (other, stripped) at read in
              inr (pin, stripped, (own pin (has_key_of_lookup pin m node at), at))
        ]
      ]

  -- A pin of a logic-state overlay has the node of its reference.
  abbrev IsTied : Dict String → ApplicationConditionOverlay → Type 0
  IsTied m (pulsed_source _ _) = Unit
  IsTied m (logic_state endpoint reference _ _) =
      (node : String) × IsPlaced m node endpoint × IsAnchor m node reference

  IsTied-Grows :
      (m n : Dict String) (o : ApplicationConditionOverlay) → Grows m n → IsTied m o → IsTied n o
  IsTied-Grows m n (pulsed_source _ _) g t = tt
  IsTied-Grows m n (logic_state endpoint reference _ _) g (node, placed, anchor) =
      (node, IsPlaced-Grows m n node endpoint g placed, IsAnchor-Grows m n node reference g anchor)

  overlay_all_puts :
      (overlays : List ApplicationConditionOverlay) (m n : Dict String)
      → ((k : String) → has_key k m ≡ true → has_key k dut_nodes ≡ true)
      → overlay_all dut_nodes overlays m ≡ compiled n
      → Grows m n × All (IsTied n) overlays
  unfolding overlay_all
  overlay_all_puts [] m n own h = (subst (Grows m) (cc) (Grows-refl m), tt)
  overlay_all_puts (pulsed_source endpoint _ ∷ overlays) m n own h =
      let (pin, _, rest) =
        bind-eq-compiled (detached_pin dut_nodes endpoint m) (λ _. overlay_all dut_nodes overlays m)
          h in
      let (grow, tied) = overlay_all_puts overlays m n own rest in (grow, (tt, tied))
  overlay_all_puts (logic_state endpoint reference s d ∷ overlays) m n own h =
      let (pin, detach, inner) =
        bind-eq-compiled (detached_pin dut_nodes endpoint m)
          (λ p. reference_node dut_nodes reference m >>= λ node.
            overlay_all dut_nodes overlays (put p node m))
          h in
      let (node, refer, rest) =
        bind-eq-compiled (reference_node dut_nodes reference m)
          (λ node. overlay_all dut_nodes overlays (put pin node m)) inner in
      let (read, known, fresh) = detached_pin-eq endpoint m pin detach in
      let m' = put pin node m in
      let step = Grows-put pin node m fresh known in
      let (grow, tied) = overlay_all_puts overlays m' n (step.known own) rest in
      let here : IsTied m' (logic_state endpoint reference s d) = (
        node,
        (pin, read, put-IsAt pin node m known),
        IsAnchor-Grows m m' node reference step (reference_node-eq reference m node own refer),
      ) in
      (
        Grows-trans m m' n step grow,
        (IsTied-Grows m' n (logic_state endpoint reference s d) grow here, tied),
      )

-- The names of the pins are names of nodes.
abbrev pub HasNodeNames : List ModelPin → Type 0
HasNodeNames pins = All (λ pin. is_spice_node (codes pin.spice_node) ≡ true) pins

has_key-put_own_or :
    (p k v : String) (m : Dict String)
    → has_key k (put p v m) ≡ true
    → (p ≡ k) ⊎ (has_key k m ≡ true)
has_key-put_own_or p k v m h = elim (Bool-cases (str_eq p k)) [
  | inl same ↦ inl ((eq_iff p k).0 same)
  | inr other ↦ inr (ground (arith, other, h, has_key-put_iff m p k v m))
]

pin_entries-IsNode :
    (i : ℕ) (pins : List ModelPin) (m : Dict String) (k : String)
    → HasNodeNames pins
    → has_key k (put_all (pin_entries i pins) m) ≡ true
    → (has_key k m ≡ true) ⊎ (is_spice_node (codes k) ≡ true)
unfolding pin_entries put_all
pin_entries-IsNode i [] m k valid h = inl h
pin_entries-IsNode i (pin ∷ pins) m k (node, valid) h =
    elim (pin_entries-IsNode (suc i) pins (put pin.spice_node (get_dut_node_name i) m) k valid h) [
      | inr other ↦ inr other
      | inl own ↦ elim (has_key-put_own_or pin.spice_node k (get_dut_node_name i) m own) [
        | inl e ↦ inr (subst (λ t. is_spice_node (codes t) ≡ true) e node)
        | inr old ↦ inl old
      ]
    ]

pub resolve-parsed :
    (r : NodeResolver) (endpoint : String) (p : ParsedEndpoint)
    → parse_endpoint_syntax endpoint ≡ some p
    → resolve_node r endpoint ≡ node_of r p
unfolding resolve_node
resolve-parsed r endpoint p h =
    ap (λ o. required ("Invalid endpoint " <> quote endpoint) o >>= node_of r) h

pub node_of-grouped :
    (r : NodeResolver) (pin node : String)
    → lookup pin r.grouped_dut_nodes ≡ some node
    → node_of r (dut pin) ≡ compiled node
unfolding node_of pin_node
node_of-grouped r pin node h =
    ap
      (λ o.
        required ("Unknown DUT pin " <> quote pin)
          (elim o as (λ _. Option String) [ some own ↦ some own | none ↦ lookup pin r.dut_nodes ]))
      h

module _ (pins : List ModelPin) (valid : HasNodeNames pins) (r : NodeResolver) where
  IsNode-of_pin :
      (pin : String) → has_key pin (dut_nodes_of pins) ≡ true → is_spice_node (codes pin) ≡ true
  unfolding dut_nodes_of has_key
  IsNode-of_pin pin h = elim (pin_entries-IsNode 0 pins [] pin valid h) [
    | inl nothing ↦ cc
    | inr node ↦ node
  ]

  resolve_placed :
      (node endpoint : String)
      → IsPlaced (dut_nodes_of pins) r.grouped_dut_nodes node endpoint
      → resolve_node r endpoint ≡ compiled node
  unfolding IsEndpoint
  resolve_placed node endpoint (pin, stripped, (known, at)) =
      let parsed =
        ap parse_endpoint_syntax (strip_prefix-eq-some "dut." endpoint pin stripped)
        ∙ parse-print_endpoint (dut pin) (IsNode-of_pin pin known) in
      resolve-parsed r endpoint (dut pin) parsed ∙ node_of-grouped r pin node at

  resolve_anchor :
      (node reference : String)
      → IsAnchor (dut_nodes_of pins) r.grouped_dut_nodes node reference
      → resolve_node r reference ≡ compiled node
  unfolding resolve_node
  resolve_anchor node reference (inl (gnd_text, e)) = rw (gnd_text, e) refl
  resolve_anchor node reference (inr placed) = resolve_placed node reference placed

-- A pin of an overlay and its reference are on one node.
abbrev pub IsTiedBy : NodeResolver → ApplicationConditionOverlay → Type 0
IsTiedBy r (pulsed_source _ _) = Unit
IsTiedBy r (logic_state endpoint reference _ _) =
    (node : String) × (resolve_node r endpoint ≡ compiled node)
    × (resolve_node r reference ≡ compiled node)

tied_by :
    (pins : List ModelPin) (valid : HasNodeNames pins) (r : NodeResolver)
    (o : ApplicationConditionOverlay)
    → IsTied (dut_nodes_of pins) r.grouped_dut_nodes o
    → IsTiedBy r o
tied_by pins valid r (pulsed_source _ _) t = tt
tied_by pins valid r (logic_state endpoint reference _ _) (node, placed, anchor) = (
  node,
  resolve_placed pins valid r node endpoint placed,
  resolve_anchor pins valid r node reference anchor,
)

no_keys : (m : Dict String) (k : String) → has_key {V = String} k [] ≡ true → has_key k m ≡ true
unfolding has_key
no_keys m k h = cc

-- If a resolver is made for a case, and the pins of the model have names of nodes, then each endpoint
-- of an application node group resolves to the node of its group, which is 0 for the ground, and the
-- endpoint of each logic-state overlay resolves to the node of its reference.
pub get_node_resolver_keeps_topology :
    {N : Type 0} (c : ValidationCase N) (pins : List ModelPin) (r : NodeResolver)
    → HasNodeNames pins
    → get_node_resolver pins c ≡ compiled r
    → All
        (λ g. All (λ e. resolve_node r e ≡ compiled (group_node_name g)) g.dut_endpoints)
        (groups_of c)
      × All (IsTiedBy r) (overlays_of c)
unfolding get_node_resolver
get_node_resolver_keeps_topology c pins r valid h =
    let nodes = dut_nodes_of pins in
    let (m, grouped, inner) =
      bind-eq-compiled (group_all nodes (groups_of c) [])
        (λ m. overlay_all nodes (overlays_of c) m >>= λ n.
          compiled (record { dut_nodes = nodes; grouped_dut_nodes = n }))
        h in
    let (n, overlaid, made) =
      bind-eq-compiled (overlay_all nodes (overlays_of c) m)
        (λ n. compiled (record { dut_nodes = nodes; grouped_dut_nodes = n })) inner in
    let (first, placed) = group_all_puts nodes (groups_of c) [] m grouped in
    let (later, tied) =
      overlay_all_puts nodes (overlays_of c) m n (first.known (λ k h. no_keys nodes k h))
        overlaid in
    let e : record { dut_nodes = nodes; grouped_dut_nodes = n } ≡ r = cc in
    subst
      (λ s.
        All (λ g. All (λ e. resolve_node s e ≡ compiled (group_node_name g)) g.dut_endpoints)
          (groups_of c)
        × All (IsTiedBy s) (overlays_of c))
      e
      (let s : NodeResolver = record { dut_nodes = nodes; grouped_dut_nodes = n } in
        (
          All-map (groups_of c)
              (λ g.
                All-map g.dut_endpoints
                  (λ e p. resolve_placed pins valid s _ e (IsPlaced-Grows nodes m n _ e later p)))
              placed,
          All-map (overlays_of c) (λ o. tied_by pins valid s o) tied,
        ))
