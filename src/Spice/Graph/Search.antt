-- ===== src/Spice/Graph/Search.antt =====
-- The search of a graph ends with the fuel it is given, and decides whether a walk leads to a target.
use datasheet_to_tscircuit.Prelude.{
  ℕ, zero, suc, ◌+◌, ◌≤◌, String, Bool, true, false, ◌||◌, some, List, [], ◌∷◌, length,
  if◌then◌else◌, str_eq, eq_iff, lookup, member, add, member-add, ◌≡◌, ◌∙◌, ◌≢◌, ◌↔◌, ◌⊎◌, inl, inr,
  refl, sym, ap, subst, arith, Bool-cases,
}
use datasheet_to_tscircuit.Spice.Graph.{Graph, neighbors, push_all, search, edge_count, search_from}

-- A walk over nodes that are not empty.
pub data Walk (g : Graph) : String → String → Type 0 where
  here : {x : String} → x ≢ "" → Walk g x x
  step : {x y z : String} → x ≢ "" → member y (neighbors x g) ≡ true → Walk g y z → Walk g x z

length-push_all :
    (nodes pending : List String) → length (push_all nodes pending) ≡ length nodes + length pending
unfolding push_all
length-push_all [] pending = omega arith
length-push_all (x ∷ nodes) pending = omega (arith, length-push_all nodes (x ∷ pending))

member-push_all :
    (x : String) (nodes pending : List String)
    → member x (push_all nodes pending) ≡ (member x nodes || member x pending)
unfolding push_all member
member-push_all x [] pending = refl
member-push_all x (y ∷ nodes) pending = ground (arith, member-push_all x nodes (y ∷ pending))

-- The edges that leave nodes that are not visited.
unvisited_edges : (visited : List String) → Graph → ℕ
unfolding member
unvisited_edges visited [] = 0
unvisited_edges visited ((node, nodes) ∷ g) =
    (if member node visited then 0 else length nodes) + unvisited_edges visited g

unvisited_edges-nil : (g : Graph) → unvisited_edges [] g ≡ edge_count g
unfolding unvisited_edges edge_count member
unvisited_edges-nil [] = refl
unvisited_edges-nil ((node, nodes) ∷ g) = omega (arith, unvisited_edges-nil g)

unvisited_edges-le :
    (x : String) (visited : List String) (g : Graph)
    → unvisited_edges (add x visited) g ≤ unvisited_edges visited g
unfolding unvisited_edges
unvisited_edges-le x visited [] = omega arith
unvisited_edges-le x visited ((node, nodes) ∷ g) =
    ground (arith, unvisited_edges-le x visited g, member-add node x visited)

unvisited_edges-add :
    (x : String) (visited : List String) (g : Graph)
    → member x visited ≡ false
    → length (neighbors x g) + unvisited_edges (add x visited) g ≤ unvisited_edges visited g
unfolding unvisited_edges neighbors lookup
unvisited_edges-add x visited [] h = omega arith
unvisited_edges-add x visited ((node, nodes) ∷ g) h = ground (
  arith,
  unvisited_edges-add x visited g h,
  unvisited_edges-le x visited g,
  member-add node x visited,
  eq_iff node x,
  eq_iff x node,
)

module _ (is_target : String → Bool) (g : Graph) where
  search-skip :
      (fuel : ℕ) (x : String) (pending visited : List String)
      → (str_eq x "" || member x visited) ≡ true
      → search is_target g (suc fuel) (x ∷ pending) visited
        ≡ search is_target g fuel pending visited
  unfolding search
  search-skip fuel x pending visited h = rw h refl

  search-fresh :
      (fuel : ℕ) (x : String) (pending visited : List String)
      → (str_eq x "" || member x visited) ≡ false
      → search is_target g (suc fuel) (x ∷ pending) visited ≡ (
          if is_target x
          then some true
          else search is_target g fuel (push_all (neighbors x g) pending) (add x visited))
  unfolding search
  search-fresh fuel x pending visited h = rw h refl

  search_ends :
      (fuel : ℕ) (pending visited : List String)
      → length pending + unvisited_edges visited g ≤ fuel
      → (b : Bool) × (search is_target g fuel pending visited ≡ some b)
  unfolding search
  search_ends fuel [] visited h = (false, refl)
  search_ends zero (x ∷ pending) visited h = absurd (omega (arith, h))
  search_ends (suc fuel) (x ∷ pending) visited h =
      elim (Bool-cases (str_eq x "" || member x visited)) [
        | inl skip ↦
            rw (search-skip fuel x pending visited skip)
              (search_ends fuel pending visited (omega arith))
        | inr fresh ↦
            rw (search-fresh fuel x pending visited fresh) (elim (Bool-cases (is_target x)) [
              | inl hit ↦ (true, rw hit refl)
              | inr miss ↦ rw miss (
                  search_ends fuel (push_all (neighbors x g) pending) (add x visited) (
                    omega (
                      arith,
                      length-push_all (neighbors x g) pending,
                      unvisited_edges-add x visited g (ground (arith, fresh)),
                    )))
            ])
      ]

  -- What a search that succeeds has found.
  search_sound :
      (fuel : ℕ) (pending visited : List String)
      → search is_target g fuel pending visited ≡ some true
      → (x y : String) × (member x pending ≡ true) × Walk g x y × (is_target y ≡ true)
  unfolding search member
  search_sound fuel [] visited h = cc
  search_sound zero (x ∷ pending) visited h = cc
  search_sound (suc fuel) (x ∷ pending) visited h =
      elim (Bool-cases (str_eq x "" || member x visited)) [
        | inl skip ↦
            let (p, y, m, walk, hit) =
              search_sound fuel pending visited
                (sym (search-skip fuel x pending visited skip) ∙ h) in
            (p, y, ground arith, walk, hit)
        | inr fresh ↦
            let filled : x ≢ "" = ground (arith, fresh, eq_iff x "") in
            let run = sym (search-fresh fuel x pending visited fresh) ∙ h in
            elim (Bool-cases (is_target x)) [
              | inl hit ↦ (x, x, ground (arith, eq_iff x x), here filled, hit)
              | inr miss ↦
                  let (p, y, m, walk, hit) =
                    search_sound fuel (push_all (neighbors x g) pending) (add x visited)
                      (rw miss at run) in
                  elim (Bool-cases (member p (neighbors x g))) [
                    | inl next ↦ (x, y, ground (arith, eq_iff x x), step filled next walk, hit)
                    | inr other ↦ (
                      p,
                      y,
                      ground (arith, m, member-push_all p (neighbors x g) pending),
                      walk,
                      hit,
                    )
                  ]
            ]
      ]

  -- The nodes that a search has visited that fails.
  record Exhausted (pending visited all : List String) : Type 0 where
    kept : (x : String) → member x visited ≡ true → member x all ≡ true
    reached : (x : String) → x ≢ "" → member x pending ≡ true → member x all ≡ true
    closed :
        (x : String)
        → member x all ≡ true
        → (member x visited ≡ true)
          ⊎ ((is_target x ≡ false)
              × ((y : String) → y ≢ "" → member y (neighbors x g) ≡ true → member y all ≡ true))

  Exhausted-skip :
      (x : String) (pending visited all : List String)
      → (str_eq x "" || member x visited) ≡ true
      → Exhausted pending visited all
      → Exhausted (x ∷ pending) visited all
  unfolding member
  Exhausted-skip x pending visited all skip e = record {
    kept = e.kept;
    reached = λ y filled m.
        ground (arith, e.reached y filled, e.kept x, eq_iff x y, eq_iff x "", skip, filled);
    closed = e.closed;
  }

  Exhausted-fresh :
      (x : String) (pending visited all : List String)
      → is_target x ≡ false
      → Exhausted (push_all (neighbors x g) pending) (add x visited) all
      → Exhausted (x ∷ pending) visited all
  unfolding member
  Exhausted-fresh x pending visited all miss e = record {
    kept = λ y m. e.kept y (ground (arith, member-add y x visited));
    reached = λ y filled m. ground (
      arith,
      e.reached y filled,
      member-push_all y (neighbors x g) pending,
      e.kept y,
      member-add y x visited,
      eq_iff x y,
    );
    closed = λ y m. elim (e.closed y m) [
      | inr done ↦ inr done
      | inl seen ↦ elim (Bool-cases (str_eq x y)) [
        | inl same ↦ rw (sym ((eq_iff x y).0 same)) (
            inr (
              miss,
              λ z filled next.
                  e.reached z filled (ground (arith, member-push_all z (neighbors x g) pending)),
            ))
        | inr other ↦ inl (ground (arith, member-add y x visited))
      ]
    ];
  }

  search_complete :
      (fuel : ℕ) (pending visited : List String)
      → search is_target g fuel pending visited ≡ some false
      → (all : List String) × Exhausted pending visited all
  unfolding search member
  search_complete fuel [] visited h =
      (visited, record { kept = λ x m. m; reached = λ x f m. cc; closed = λ x m. inl m })
  search_complete zero (x ∷ pending) visited h = cc
  search_complete (suc fuel) (x ∷ pending) visited h =
      elim (Bool-cases (str_eq x "" || member x visited)) [
        | inl skip ↦
            let (all, e) =
              search_complete fuel pending visited
                (sym (search-skip fuel x pending visited skip) ∙ h) in
            (all, Exhausted-skip x pending visited all skip e)
        | inr fresh ↦
            let run = sym (search-fresh fuel x pending visited fresh) ∙ h in
            elim (Bool-cases (is_target x)) [
              | inl hit ↦ cc (rw hit at run)
              | inr miss ↦
                  let (all, e) =
                    search_complete fuel (push_all (neighbors x g) pending) (add x visited)
                      (rw miss at run) in
                  (all, Exhausted-fresh x pending visited all miss e)
            ]
      ]

  Walk-filled : {x y : String} → Walk g x y → x ≢ ""
  Walk-filled (here filled) = filled
  Walk-filled (step filled next walk) = filled

  -- A walk from a visited node stays among the visited ones, where no target is.
  walk_stays :
      (pending all : List String)
      → Exhausted pending [] all
      → {x y : String} → member x all ≡ true
      → Walk g x y
      → is_target y ≡ false
  unfolding member
  walk_stays pending all e m (here {x} filled) = elim (e.closed x m) [
    | inl seen ↦ cc
    | inr (miss, _) ↦ miss
  ]
  walk_stays pending all e m (step {x} {y} filled next walk) = elim (e.closed x m) [
    | inl seen ↦ cc
    | inr (_, onward) ↦ walk_stays pending all e (onward y (Walk-filled walk) next) walk
  ]

  search_from_ends :
      (start : String)
      → (b : Bool) × (search is_target g (suc (edge_count g)) (start ∷ []) [] ≡ some b)
  search_from_ends start =
      search_ends (suc (edge_count g)) (start ∷ []) [] (omega (arith, unvisited_edges-nil g))

  -- A search does not run out of the fuel it is given.
  pub search_from_returns :
      (start : String)
      → search is_target g (suc (edge_count g)) (start ∷ []) []
        ≡ some (search_from is_target g start)
  unfolding search_from
  search_from_returns start =
      let (b, ends) = search_from_ends start in ends ∙ ap some (sym (rw (ends, search_from) refl))

  -- A search succeeds exactly if a walk leads from its start to a target.
  pub search_from_iff :
      (start : String)
      → (search_from is_target g start ≡ true)
        ↔ ((y : String) × Walk g start y × (is_target y ≡ true))
  unfolding search_from member
  search_from_iff start = decided (search_from_ends start)
    where
      missed :
          search is_target g (suc (edge_count g)) (start ∷ []) [] ≡ some false
          → (y : String) → Walk g start y
          → is_target y ≡ false
      missed ends y walk =
          let (all, e) = search_complete (suc (edge_count g)) (start ∷ []) [] ends in
          walk_stays (start ∷ []) all e
            (e.reached start (Walk-filled walk) (ground (arith, eq_iff start start))) walk

      found :
          search is_target g (suc (edge_count g)) (start ∷ []) [] ≡ some true
          → (y : String) × Walk g start y × (is_target y ≡ true)
      found ends =
          let (x, y, m, walk, hit) = search_sound (suc (edge_count g)) (start ∷ []) [] ends in
          (y, subst (λ z. Walk g z y) (ground (arith, m, eq_iff start x)) walk, hit)

      decided :
          (b : Bool) × (search is_target g (suc (edge_count g)) (start ∷ []) [] ≡ some b)
          → (search_from is_target g start ≡ true)
            ↔ ((y : String) × Walk g start y × (is_target y ≡ true))
      decided (true, ends) = (λ h. found ends, λ w. rw (ends, search_from) refl)
      decided (false, ends) = (
        λ h. cc (rw (ends, search_from) at h),
        λ (y, walk, hit). cc (sym hit ∙ missed ends y walk),
      )
