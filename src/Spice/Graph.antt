-- ===== src/Spice/Graph.antt =====
-- validate-plan-connectivity.ts: the graphs of a validation case, and the search in them.
-- A graph is its `Map` from a node to the set of its neighbors. The texts that stand for nodes are not
-- empty; the code skips an empty one.
pub mod Search
pub mod Links
use datasheet_to_tscircuit.Prelude.{
  ℕ, zero, suc, ◌+◌, String, Bool, true, false, ◌||◌, ◌&&◌, not, Option, none, some, List, [], ◌∷◌,
  length, if◌then◌else◌, str_eq, Dict, lookup, put, member, add, ◌≢◌,
}

abbrev pub Graph : Type 0
Graph = Dict (List String)

-- `adjacency.get(node) ?? []`
unfoldable pub neighbors : String → Graph → List String
unfolding lookup
neighbors node g = elim (lookup node g) [ none ↦ [] | some nodes ↦ nodes ]

unfoldable pub connect : (left right : String) → Graph → Graph
unfolding put add neighbors
connect left right g =
    let g' = put left (add right (neighbors left g)) g in
    put right (add left (neighbors right g')) g'

-- The stack after each of the nodes is pushed: the last one is on the top, which is the head.
unfoldable pub push_all : (nodes pending : List String) → List String
push_all [] pending = pending
push_all (node ∷ nodes) pending = push_all nodes (node ∷ pending)

-- The loop of a search that `is_target` ends; `none` is a loop that is out of fuel.
unfoldable pub search :
    (is_target : String → Bool) → Graph → ℕ → (pending visited : List String) → Option Bool
unfolding member add push_all neighbors
search is_target g fuel [] visited = some false
search is_target g zero (current ∷ pending) visited = none
search is_target g (suc fuel) (current ∷ pending) visited =
    let skip = str_eq current "" || member current visited in
    let rest =
      search is_target g fuel (if skip then pending else push_all (neighbors current g) pending)
        (if skip then visited else add current visited) in
    if not skip && is_target current then some true else rest

-- The number of the directed edges.
unfoldable pub edge_count : Graph → ℕ
edge_count [] = 0
edge_count ((node, nodes) ∷ g) = length nodes + edge_count g

-- The search from one node; a round pops a node, and no edge pushes twice.
unfoldable pub search_from : (is_target : String → Bool) → Graph → String → Bool
unfolding search edge_count
search_from is_target g start = elim (search is_target g (suc (edge_count g)) (start ∷ []) []) [
  | none ↦ false
  | some b ↦ b
]

-- The graph after each of the pairs is connected.
unfoldable pub connect_all : List (String × String) → Graph → Graph
unfolding connect
connect_all [] g = g
connect_all ((left, right) ∷ links) g = connect_all links (connect left right g)
