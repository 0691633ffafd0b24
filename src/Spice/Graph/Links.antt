-- ===== src/Spice/Graph/Links.antt =====
-- The edges of a graph that is made of links, and the chains of links that the walks in it are.
use datasheet_to_tscircuit.Prelude.{
  String, true, List, [], ◌∷◌, if◌then◌else◌, str_eq, eq_iff, lookup, put, lookup-put, member, add,
  member-add, ◌≡◌, ◌≢◌, ◌↔◌, ◌⊎◌, inr, arith, In,
}
use datasheet_to_tscircuit.Spice.Graph.{Graph, neighbors, connect, connect_all}
use datasheet_to_tscircuit.Spice.Graph.Search.{Walk}

neighbors-put :
    (a x : String) (nodes : List String) (g : Graph)
    → neighbors x (put a nodes g) ≡ (if str_eq a x then nodes else neighbors x g)
unfolding neighbors
neighbors-put a x nodes g = ground (arith, lookup-put a x nodes g)

member-connect :
    (a b x y : String) (g : Graph)
    → (member y (neighbors x (connect a b g)) ≡ true)
      ↔ ((member y (neighbors x g) ≡ true) ⊎ (((a ≡ x) × (b ≡ y)) ⊎ ((b ≡ x) × (a ≡ y))))
unfolding connect
member-connect a b x y g =
    let g' = put a (add b (neighbors a g)) g in
    ground (
      arith,
      neighbors-put b x (add a (neighbors b g')) g',
      neighbors-put a b (add b (neighbors a g)) g,
      neighbors-put a x (add b (neighbors a g)) g,
      member-add y a (neighbors b g'),
      member-add y b (neighbors a g),
      eq_iff a x,
      eq_iff b x,
      eq_iff a y,
      eq_iff b y,
      eq_iff a b,
    )

-- Two ends of one link, in one of its two orders.
abbrev pub Linked : List (String × String) → String → String → Type 0
Linked links x y = In (x, y) links ⊎ In (y, x) links

member-connect_all :
    (links : List (String × String)) (x y : String) (g : Graph)
    → (member y (neighbors x (connect_all links g)) ≡ true)
      ↔ ((member y (neighbors x g) ≡ true) ⊎ Linked links x y)
unfolding connect_all
member-connect_all [] x y g = ground arith
member-connect_all ((a, b) ∷ links) x y g =
    ground (arith, member-connect_all links x y (connect a b g), member-connect a b x y g)

-- A chain of links over nodes that are not empty.
pub data Chain (links : List (String × String)) : String → String → Type 0 where
  here : {x : String} → x ≢ "" → Chain links x x
  step : {x y z : String} → x ≢ "" → Linked links x y → Chain links y z → Chain links x z

module _ (links : List (String × String)) where
  Chain-of_walk : {x y : String} → Walk (connect_all links []) x y → Chain links x y
  unfolding neighbors lookup member
  Chain-of_walk (Walk.here filled) = Chain.here filled
  Chain-of_walk (Walk.step {x} {y} filled next walk) =
      Chain.step filled (ground (arith, member-connect_all links x y [], next)) (Chain-of_walk walk)

  Walk-of_chain : {x y : String} → Chain links x y → Walk (connect_all links []) x y
  Walk-of_chain (Chain.here filled) = Walk.here filled
  Walk-of_chain (Chain.step {x} {y} filled next chain) =
      Walk.step filled ((member-connect_all links x y []).1 (inr next)) (Walk-of_chain chain)

  pub walk_iff_chain : (x y : String) → Walk (connect_all links []) x y ↔ Chain links x y
  walk_iff_chain x y = (Chain-of_walk, Walk-of_chain)
