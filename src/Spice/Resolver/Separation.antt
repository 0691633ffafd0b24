-- ===== src/Spice/Resolver/Separation.antt =====
-- Endpoints that no application joins have nodes of their own.
use datasheet_to_tscircuit.Prelude.{
  ℕ, suc, ◌+◌, ◌≤◌, String, ◌<>◌, quote, ignoring_case, ignoring_case-append, decimal_injective,
  drop, ◌++◌, put_all, false, Option, none, some, List, [], ◌∷◌, get_or, str_eq, eq_iff, ◌≡◌, ◌≢◌,
  ◌⊎◌, refl, sym, ◌∙◌, ap, subst, arith, inl, inr, Dict, lookup, put, has_key, lookup-put,
  lookup-none, Bool-cases, decimal,
}
use datasheet_to_tscircuit.Spice.Types.{ValidationCase, ModelPin}
use datasheet_to_tscircuit.Spice.Identifiers.{
  ParsedEndpoint, gnd, dut, net, parse_endpoint_syntax, get_dut_node_name, get_net_node_name,
}
use datasheet_to_tscircuit.Spice.Identifiers.Endpoints.{print_endpoint, parse_endpoint_syntax_iff}
use datasheet_to_tscircuit.Spice.Circuit.{groups_of, overlays_of}
use datasheet_to_tscircuit.Spice.Compiled.{compiled, ◌>>=◌, bind-eq-compiled}
use datasheet_to_tscircuit.Spice.Resolver.{
  pin_entries, dut_nodes_of, group_all, overlay_all, NodeResolver, get_node_resolver, pin_node,
  node_of, resolve_node,
}
use datasheet_to_tscircuit.Spice.Resolver.Topology.{required-eq-compiled, resolve-parsed}

-- The pin at a place of a list whose places are counted from `k`.
abbrev PinAt : ℕ → List ModelPin → ℕ → String → Type 0
PinAt k [] i p = ⊥
PinAt k (pin ∷ pins) i p = ((k ≡ i) × (pin.spice_node ≡ p)) ⊎ PinAt (suc k) pins i p

PinAt-le : (k : ℕ) (pins : List ModelPin) (i : ℕ) (p : String) → PinAt k pins i p → k ≤ i
PinAt-le k [] i p h = absurd h
PinAt-le k (pin ∷ pins) i p (inl (e, _)) = omega (arith, e)
PinAt-le k (pin ∷ pins) i p (inr later) = omega (arith, PinAt-le (suc k) pins i p later)

PinAt-unique :
    (k : ℕ) (pins : List ModelPin) (i : ℕ) (p q : String)
    → PinAt k pins i p
    → PinAt k pins i q
    → p ≡ q
PinAt-unique k [] i p q h g = absurd h
PinAt-unique k (pin ∷ pins) i p q (inl (_, a)) (inl (_, b)) = sym a ∙ b
PinAt-unique k (pin ∷ pins) i p q (inl (e, _)) (inr later) =
    absurd (omega (arith, e, PinAt-le (suc k) pins i q later))
PinAt-unique k (pin ∷ pins) i p q (inr later) (inl (e, _)) =
    absurd (omega (arith, e, PinAt-le (suc k) pins i p later))
PinAt-unique k (pin ∷ pins) i p q (inr a) (inr b) = PinAt-unique (suc k) pins i p q a b

-- Where a pin has its node from.
pin_entries-PinAt :
    (k : ℕ) (pins : List ModelPin) (m : Dict String) (p n : String)
    → lookup p (put_all (pin_entries k pins) m) ≡ some n
    → (lookup p m ≡ some n) ⊎ ((i : ℕ) × (n ≡ get_dut_node_name i) × PinAt k pins i p)
unfolding pin_entries put_all
pin_entries-PinAt k [] m p n h = inl h
pin_entries-PinAt k (pin ∷ pins) m p n h =
    elim (pin_entries-PinAt (suc k) pins (put pin.spice_node (get_dut_node_name k) m) p n h) [
      | inr (i, e, at) ↦ inr (i, e, inr at)
      | inl own ↦ elim (Bool-cases (str_eq pin.spice_node p)) [
        | inl same ↦ inr (
          k,
          cc (lookup-put pin.spice_node p (get_dut_node_name k) m, own, same),
          inl (refl, (eq_iff pin.spice_node p).0 same),
        )
        | inr other ↦
            inl (ground (arith, lookup-put pin.spice_node p (get_dut_node_name k) m, own, other))
      ]
    ]

dut_nodes_of-PinAt :
    (pins : List ModelPin) (p n : String)
    → lookup p (dut_nodes_of pins) ≡ some n
    → (i : ℕ) × (n ≡ get_dut_node_name i) × PinAt 0 pins i p
unfolding dut_nodes_of lookup
dut_nodes_of-PinAt pins p n h = elim (pin_entries-PinAt 0 pins [] p n h) [
  | inl nothing ↦ cc
  | inr at ↦ at
]

get_dut_node_name-injective :
    (i j : ℕ) → ignoring_case (get_dut_node_name i) ≡ ignoring_case (get_dut_node_name j) → i ≡ j
unfolding get_dut_node_name ignoring_case
get_dut_node_name-injective i j h = omega (
  arith,
  decimal_injective (i + 1) (j + 1) (
      ap (λ l. drop 6 l)
        (sym (ignoring_case-append "n_dut_" (decimal (i + 1)))
          ∙ h
          ∙ ignoring_case-append "n_dut_" (decimal (j + 1)))),
)

get_net_node_name-injective :
    (a b : String)
    → ignoring_case (get_net_node_name a) ≡ ignoring_case (get_net_node_name b)
    → ignoring_case a ≡ ignoring_case b
unfolding get_net_node_name ignoring_case
get_net_node_name-injective a b h =
    ap (λ l. drop 6 l) (sym (ignoring_case-append "n_net_" a) ∙ h ∙ ignoring_case-append "n_net_" b)

-- The three kinds of nodes are different.
get_net_node_name-ne :
    (a : String) (i : ℕ)
    → (ignoring_case (get_net_node_name a) ≢ ignoring_case "0")
      × (ignoring_case (get_dut_node_name i) ≢ ignoring_case "0")
      × (ignoring_case (get_net_node_name a) ≢ ignoring_case (get_dut_node_name i))
unfolding get_net_node_name get_dut_node_name ignoring_case
get_net_node_name-ne a i = (
  λ h.
      let first : 110 ≡ 48 = ap (λ cs. get_or cs 0 0) (sym (ignoring_case-append "n_net_" a) ∙ h) in
      omega (arith, first),
  λ h.
      let first : 110 ≡ 48 =
        ap (λ cs. get_or cs 0 0) (sym (ignoring_case-append "n_dut_" (decimal (i + 1))) ∙ h) in
      omega (arith, first),
  λ h.
      let third : 110 ≡ 100 =
        ap (λ cs. get_or cs 2 0)
          (sym (ignoring_case-append "n_net_" a)
            ∙ h
            ∙ ignoring_case-append "n_dut_" (decimal (i + 1))) in
      omega (arith, third),
)

-- No node group and no overlay joins a pin.
abbrev pub IsFree : NodeResolver → ParsedEndpoint → Type 0
IsFree r (dut pin) = has_key pin r.grouped_dut_nodes ≡ false
IsFree r _ = Unit

free_node :
    (r : NodeResolver) (pin n : String)
    → IsFree r (dut pin)
    → node_of r (dut pin) ≡ compiled n
    → lookup pin r.dut_nodes ≡ some n
unfolding node_of pin_node
free_node r pin n free h =
    let read : pin_node r pin ≡ some n =
      required-eq-compiled ("Unknown DUT pin " <> quote pin) (pin_node r pin) h in
    sym (own_node (lookup-none pin r.grouped_dut_nodes free)) ∙ read
  where
    own_node : lookup pin r.grouped_dut_nodes ≡ none → pin_node r pin ≡ lookup pin r.dut_nodes
    own_node e =
        ap
          (λ (o : Option String). elim o as (λ _. Option String) [
            | some own ↦ some own
            | none ↦ lookup pin r.dut_nodes
          ])
          e

-- Where the node of a pin that is free comes from.
free_dut :
    (pins : List ModelPin) (r : NodeResolver) (x n : String)
    → r.dut_nodes ≡ dut_nodes_of pins
    → IsFree r (dut x)
    → node_of r (dut x) ≡ compiled n
    → (i : ℕ) × (n ≡ get_dut_node_name i) × PinAt 0 pins i x
free_dut pins r x n e f a =
    dut_nodes_of-PinAt pins x n (subst (λ m. lookup x m ≡ some n) e (free_node r x n f a))

compiled_inj : {A : Type 0} {a b : A} → compiled a ≡ compiled b → a ≡ b
compiled_inj h = cc

-- Endpoints whose nodes are the same but for the case of letters are so themselves.
node_of-separates :
    (pins : List ModelPin) (r : NodeResolver) (p q : ParsedEndpoint) (m n : String)
    → r.dut_nodes ≡ dut_nodes_of pins
    → IsFree r p
    → IsFree r q
    → node_of r p ≡ compiled m
    → node_of r q ≡ compiled n
    → ignoring_case m ≡ ignoring_case n
    → ignoring_case (print_endpoint p) ≡ ignoring_case (print_endpoint q)
unfolding node_of
node_of-separates pins r gnd gnd m n e f g a b h = refl
node_of-separates pins r gnd (net y) m n e f g a b h = absurd (
    (get_net_node_name-ne y 0).0
      (ap ignoring_case (compiled_inj b) ∙ sym (ap ignoring_case (compiled_inj a) ∙ h)))
node_of-separates pins r (net x) gnd m n e f g a b h = absurd (
    (get_net_node_name-ne x 0).0
      (ap ignoring_case (compiled_inj a) ∙ h ∙ sym (ap ignoring_case (compiled_inj b))))
node_of-separates pins r (net x) (net y) m n e f g a b h =
    let same =
      get_net_node_name-injective x y
        (ap ignoring_case (compiled_inj a) ∙ h ∙ sym (ap ignoring_case (compiled_inj b))) in
    ignoring_case-append "net." x
    ∙ ap (λ l. ignoring_case "net." ++ l) same
    ∙ sym (ignoring_case-append "net." y)
node_of-separates pins r gnd (dut y) m n e f g a b h =
    let (j, f_j, _) = free_dut pins r y n e g b in
    absurd (
      (get_net_node_name-ne "" j).1
        (ap ignoring_case (sym f_j) ∙ sym (ap ignoring_case (compiled_inj a) ∙ h)))
node_of-separates pins r (dut x) gnd m n e f g a b h =
    let (i, f_i, _) = free_dut pins r x m e f a in
    absurd (
      (get_net_node_name-ne "" i).1
        (ap ignoring_case (sym f_i) ∙ h ∙ sym (ap ignoring_case (compiled_inj b))))
node_of-separates pins r (net x) (dut y) m n e f g a b h =
    let (j, f_j, _) = free_dut pins r y n e g b in
    absurd
      ((get_net_node_name-ne x j).2 (ap ignoring_case (compiled_inj a) ∙ h ∙ ap ignoring_case f_j))
node_of-separates pins r (dut x) (net y) m n e f g a b h =
    let (i, f_i, _) = free_dut pins r x m e f a in
    absurd (
      (get_net_node_name-ne y i).2
        (ap ignoring_case (compiled_inj b) ∙ sym h ∙ ap ignoring_case f_i))
node_of-separates pins r (dut x) (dut y) m n e f g a b h =
    let (i, f_i, at_i) = free_dut pins r x m e f a in
    let (j, f_j, at_j) = free_dut pins r y n e g b in
    let same =
      get_dut_node_name-injective i j (ap ignoring_case (sym f_i) ∙ h ∙ ap ignoring_case f_j) in
    let one = PinAt-unique 0 pins j x y (subst (λ k. PinAt 0 pins k x) same at_i) at_j in
    ap (λ pin. ignoring_case (print_endpoint (dut pin))) one

get_node_resolver-dut_nodes :
    {N : Type 0} (pins : List ModelPin) (c : ValidationCase N) (r : NodeResolver)
    → get_node_resolver pins c ≡ compiled r
    → r.dut_nodes ≡ dut_nodes_of pins
unfolding get_node_resolver
get_node_resolver-dut_nodes pins c r h =
    let nodes = dut_nodes_of pins in
    let (m, _, inner) =
      bind-eq-compiled (group_all nodes (groups_of c) [])
        (λ m. overlay_all nodes (overlays_of c) m >>= λ n.
          compiled (record { dut_nodes = nodes; grouped_dut_nodes = n }))
        h in
    let (n, _, made) =
      bind-eq-compiled (overlay_all nodes (overlays_of c) m)
        (λ n. compiled (record { dut_nodes = nodes; grouped_dut_nodes = n })) inner in
    let e : record { dut_nodes = nodes; grouped_dut_nodes = n } ≡ r = cc in
    ap (λ s. s.dut_nodes) (sym e)

-- If a resolver is made for a case, then two endpoints that differ in more than the case of letters
-- resolve to nodes that do so too, unless one of them is a pin that a node group or an overlay joins.
pub resolve_node_separates :
    {N : Type 0} (c : ValidationCase N) (pins : List ModelPin) (r : NodeResolver) (a b : String)
    (p q : ParsedEndpoint) (m n : String)
    → get_node_resolver pins c ≡ compiled r
    → parse_endpoint_syntax a ≡ some p
    → parse_endpoint_syntax b ≡ some q
    → IsFree r p
    → IsFree r q
    → resolve_node r a ≡ compiled m
    → resolve_node r b ≡ compiled n
    → ignoring_case a ≢ ignoring_case b
    → ignoring_case m ≢ ignoring_case n
resolve_node_separates c pins r a b p q m n made read_a read_b free_p free_q at_a at_b differ same =
    differ (
      ap ignoring_case ((parse_endpoint_syntax_iff a p).0 read_a).0
      ∙ node_of-separates pins r p q m n (get_node_resolver-dut_nodes pins c r made) free_p free_q
          (sym (resolve-parsed r a p read_a) ∙ at_a) (sym (resolve-parsed r b q read_b) ∙ at_b) same
      ∙ sym (ap ignoring_case ((parse_endpoint_syntax_iff b q).0 read_b).0))
