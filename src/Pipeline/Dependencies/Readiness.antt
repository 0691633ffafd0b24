-- ===== src/Pipeline/Dependencies/Readiness.antt =====
-- What a stage is given when none of its dependencies is incomplete.
use datasheet_to_tscircuit.Prelude.{
  String, ◌≡◌, refl, sym, subst, true, inl, inr, Option, none, some, List, [], ◌∷◌, ◌++◌, Dict,
  has_key, lookup_of_has_key, lookup, put, lookup-put, eq_iff, All, Option-cases, arith,
}
use datasheet_to_tscircuit.Pipeline.Types.{Json, StageStatus, StageResult, status_of, Stage}
use datasheet_to_tscircuit.Pipeline.Result.{return}
use datasheet_to_tscircuit.Pipeline.Dependencies.{
  DependencyState, inherited, output_of, resolve_one, resolve_from, no_dependencies,
  get_dependency_state,
}

-- The output of a completed stage, or else the inherited one.
abbrev pub supply : (output inherited_output : Option Json) → Option Json
supply (some output) o = some output
supply none o = o

-- What the results and the inherited input hold for a dependency.
abbrev pub supplied : Dict StageResult → Option (Dict Json) → String → Option Json
supplied results inherited_outputs id = elim (lookup id results) [
  | none ↦ none
  | some result ↦ supply (output_of result.state) (inherited inherited_outputs id)
]

append_cons-ne-nil : {A : Type 0} (xs : List A) (x : A) → xs ++ x ∷ [] ≡ [] → ⊥
append_cons-ne-nil [] x h = cc
append_cons-ne-nil (y ∷ xs) x h = cc

-- One round that leaves nothing incomplete stores the supplied value.
resolve_one_stores :
    (id : String) (status : StageStatus) (output o : Option Json) (acc : DependencyState)
    → (resolve_one id status output o acc).incomplete_dependencies ≡ []
    → (v : Json) × (supply output o ≡ some v)
      × ((resolve_one id status output o acc).dependency_outputs ≡ put id v acc.dependency_outputs)
      × (acc.incomplete_dependencies ≡ [])
unfolding resolve_one
resolve_one_stores id status (some v) o acc h = (v, refl, refl, h)
resolve_one_stores id status none (some v) acc h = (v, refl, refl, h)
resolve_one_stores id status none none acc h =
    absurd (append_cons-ne-nil acc.incomplete_dependencies id h)

module _ (stage : Stage) (results : Dict StageResult) (inherited_outputs : Option (Dict Json)) where
  -- A dependency is supplied, and `outputs` holds its value.
  abbrev IsGiven : Dict Json → String → Type 0
  IsGiven outputs id =
      (v : Json) × (supplied results inherited_outputs id ≡ some v) × (lookup id outputs ≡ some v)

  IsGiven-put :
      (outputs : Dict Json) (id j : String) (v : Json)
      → supplied results inherited_outputs id ≡ some v
      → IsGiven outputs j
      → IsGiven (put id v outputs) j
  IsGiven-put outputs id j v e (w, g, l) =
      (w, g, ground (arith, lookup-put id j v outputs, eq_iff id j))

  -- The loop gives what was given before, and the dependencies that are left.
  resolve_from_gives :
      (acc state : DependencyState) (ids : List String)
      → resolve_from stage results inherited_outputs acc ids ≡ return state
      → state.incomplete_dependencies ≡ []
      → (acc.incomplete_dependencies ≡ [])
        × ((j : String) → IsGiven acc.dependency_outputs j → IsGiven state.dependency_outputs j)
        × All (IsGiven state.dependency_outputs) ids
  unfolding resolve_from
  resolve_from_gives acc state [] h e =
      let same : acc ≡ state = cc in
      (rw same e, λ j g. subst (λ d. IsGiven d.dependency_outputs j) same g, tt)
  resolve_from_gives acc state (id ∷ ids) h e = elim (Option-cases (lookup id results)) [
    | inl missing ↦ cc (rw (missing, resolve_from) at h)
    | inr (result, found) ↦
        let o = inherited inherited_outputs id in
        let status = status_of result.state in
        let output = output_of result.state in
        let (left, kept, later) =
          resolve_from_gives (resolve_one id status output o acc) state ids
            (rw (found, resolve_from) at h) e in
        let (v, value, stored, nothing) = resolve_one_stores id status output o acc left in
        let known : supplied results inherited_outputs id ≡ some v = rw (found, supplied) value in
        (
          nothing,
          λ j g. kept j (
              subst (λ m. IsGiven m j) (sym stored)
                (IsGiven-put acc.dependency_outputs id j v known g)),
          (
            kept id (
              v,
              known,
              rw stored (ground (arith, lookup-put id id v acc.dependency_outputs, eq_iff id id)),
            ),
            later,
          ),
        )
  ]

-- If a stage that takes its inputs from the results has no incomplete dependency, then for each
-- dependency there is a value that the result of a completed stage holds, or else the inherited input,
-- and this is the value that the stage is given.
pub get_dependency_state_gives :
    (stage : Stage) (results : Dict StageResult) (inherited_outputs : Option (Dict Json))
    (state : DependencyState)
    → get_dependency_state stage results none inherited_outputs ≡ return state
    → state.incomplete_dependencies ≡ []
    → All
        (λ id.
          (v : Json) × (supplied results inherited_outputs id ≡ some v)
          × (lookup id state.dependency_outputs ≡ some v))
        stage.depends_on
unfolding get_dependency_state
get_dependency_state_gives stage results inherited_outputs state h e =
    (resolve_from_gives stage results inherited_outputs no_dependencies state stage.depends_on h
      e).2

resolve_from_returns :
    (stage : Stage) (results : Dict StageResult) (inherited_outputs : Option (Dict Json))
    (ids : List String) (acc : DependencyState)
    → All (λ id. has_key id results ≡ true) ids
    → (state : DependencyState) × (resolve_from stage results inherited_outputs acc ids
        ≡ return state)
unfolding resolve_from
resolve_from_returns stage results inherited_outputs [] acc h = (acc, refl)
resolve_from_returns stage results inherited_outputs (id ∷ ids) acc (present, h) =
    let (result, found) = lookup_of_has_key id results present in
    rw (found, resolve_from) (resolve_from_returns stage results inherited_outputs ids _ h)

-- With a result for each dependency the inputs are found.
pub get_dependency_state_returns :
    (stage : Stage) (results : Dict StageResult) (inherited_outputs : Option (Dict Json))
    → All (λ id. has_key id results ≡ true) stage.depends_on
    → (state : DependencyState) × (get_dependency_state stage results none inherited_outputs
        ≡ return state)
unfolding get_dependency_state
get_dependency_state_returns stage results inherited_outputs h =
    resolve_from_returns stage results inherited_outputs stage.depends_on no_dependencies h
