-- ===== src/Pipeline/Runner/Progress.antt =====
-- The invariant of the loop over the stages: the results of the stages before are final, and the run
-- is marked by them.
use datasheet_to_tscircuit.Prelude.{
  String, ◌≡◌, refl, sym, ap, subst, ◌∙◌, ◌⊎◌, inl, inr, Bool, true, false, ◌||◌, some, List, [],
  ◌∷◌, ◌++◌, map, Dict, keys, lookup, has_key, put, put-append, lookup-append, has_key-append,
  has_key_of_lookup, lookup_of_has_key, lookup-none, member, All, In, eq_iff, arith,
}
use datasheet_to_tscircuit.Pipeline.Types.{
  StageState, StageResult, is_terminal, is_failed, is_cancelled, Stage,
}
use datasheet_to_tscircuit.Pipeline.Effects.{Core, Run}
use datasheet_to_tscircuit.Pipeline.Stages.Closed.{is_executed, IsClosed}

abbrev pub is_completed : StageState → Bool
is_completed (StageState.completed _ _ _ _) = true
is_completed _ = false

abbrev pub any_result : (StageState → Bool) → Dict StageResult → Bool
any_result test [] = false
any_result test ((id, result) ∷ results) = test result.state || any_result test results

abbrev pub IsFinal : String × StageResult → Type 0
IsFinal e = is_terminal e.1.state ≡ true

-- The dependency has a completed result.
abbrev pub IsCompleted : Dict StageResult → String → Type 0
IsCompleted results id =
    (result : StageResult) × (lookup id results ≡ some result) × (is_completed result.state ≡ true)

-- Each of the stages whose result says that it ran had all of its dependencies completed.
abbrev pub AreJustified : List Stage → Dict StageResult → Type 0
AreJustified stages results =
    (stage : Stage) (result : StageResult)
    → In stage stages
    → lookup stage.id results ≡ some result
    → is_executed result.state ≡ true
    → All (IsCompleted results) stage.depends_on

abbrev pub ids_of : List Stage → List String
ids_of stages = map (λ s. s.id) stages

-- `done` are the results of the stages `ran`, and `rest` those of the stages `todo`.
pub record IsProgress (ran todo : List Stage) (prior : List String) (done rest : Dict StageResult)
    (c : Core) : Type 0 where
  pub results : c.stage_results ≡ done ++ rest
  pub done_keys : keys done ≡ ids_of ran
  pub rest_keys : keys rest ≡ ids_of todo
  pub seen : (x : String) → member x prior ≡ has_key x done
  pub final : All IsFinal done
  pub failed : c.has_failed_stage ≡ any_result is_failed done
  pub cancelled : c.has_cancelled_stage ≡ any_result is_cancelled done

any_result-append :
    (test : StageState → Bool) (xs : Dict StageResult) (id : String) (r : StageResult)
    → any_result test (xs ++ (id, r) ∷ []) ≡ (any_result test xs || test r.state)
any_result-append test [] id r = ground arith
any_result-append test ((j, q) ∷ xs) id r = ground (arith, any_result-append test xs id r)

All-snoc :
    {A : Type 0} (P : A → Type 0) (xs : List A) (x : A) → All P xs → P x → All P (xs ++ x ∷ [])
All-snoc P [] x _ p = (p, tt)
All-snoc P (y ∷ xs) x (q, h) p = (q, All-snoc P xs x h p)

keys-snoc :
    (xs : Dict StageResult) (id : String) (r : StageResult)
    → keys (xs ++ (id, r) ∷ []) ≡ keys xs ++ id ∷ []
keys-snoc [] id r = refl
keys-snoc ((j, q) ∷ xs) id r = ap (λ l. j ∷ l) (keys-snoc xs id r)

ids_of-snoc : (xs : List Stage) (s : Stage) → ids_of (xs ++ s ∷ []) ≡ ids_of xs ++ s.id ∷ []
ids_of-snoc [] s = refl
ids_of-snoc (x ∷ xs) s = ap (λ l. x.id ∷ l) (ids_of-snoc xs s)

pub append_snoc :
    {A : Type 0} (xs : List A) (x : A) (ys : List A) → (xs ++ x ∷ []) ++ ys ≡ xs ++ x ∷ ys
append_snoc [] x ys = refl
append_snoc (z ∷ xs) x ys = ap (λ l. z ∷ l) (append_snoc xs x ys)

pub append_nil : {A : Type 0} (xs : List A) → xs ++ [] ≡ xs
append_nil [] = refl
append_nil (x ∷ xs) = ap (λ l. x ∷ l) (append_nil xs)

-- A stage closed by its iteration moves from `todo` to `ran`.
pub IsProgress-step :
    {ran todo : List Stage} {prior : List String} {done rest : Dict StageResult} {c : Core}
    {dir : String} {incomplete : List String} (stage : Stage) (old : StageResult) (s : Run)
    → IsProgress ran (stage ∷ todo) prior done ((stage.id, old) ∷ rest) c
    → member stage.id prior ≡ false
    → (closed : IsClosed stage.id dir incomplete c s)
    → IsProgress
        (ran ++ stage ∷ [])
        todo
        (stage.id ∷ prior)
        (done ++ (stage.id, closed.result) ∷ [])
        rest
        s.core
unfolding member has_key
IsProgress-step {ran} {done = done} {rest = rest} stage old s p fresh closed = record {
  results =
      closed.stored
      ∙ ap (put stage.id closed.result) p.results
      ∙ put-append stage.id closed.result old done rest (sym (p.seen stage.id) ∙ fresh)
      ∙ sym (append_snoc done (stage.id, closed.result) rest);
  done_keys =
      keys-snoc done stage.id closed.result
      ∙ ap (λ l. l ++ stage.id ∷ []) p.done_keys
      ∙ sym (ids_of-snoc ran stage);
  rest_keys = cc p.rest_keys;
  seen = λ x. ground (arith, p.seen x, has_key-append x done ((stage.id, closed.result) ∷ []));
  final = All-snoc IsFinal done _ p.final closed.terminal;
  failed =
      closed.failed
      ∙ ap (λ b. b || is_failed closed.result.state) p.failed
      ∙ sym (any_result-append is_failed done stage.id closed.result);
  cancelled =
      closed.cancelled
      ∙ ap (λ b. b || is_cancelled closed.result.state) p.cancelled
      ∙ sym (any_result-append is_cancelled done stage.id closed.result);
}

lookup_before :
    (xs ys : Dict StageResult) (k : String)
    → has_key k xs ≡ true
    → lookup k (xs ++ ys) ≡ lookup k xs
lookup_before xs ys k h = ground (arith, lookup-append k xs ys, lookup_of_has_key k xs h)

lookup_last :
    (xs : Dict StageResult) (k : String) (r : StageResult)
    → has_key k xs ≡ false
    → lookup k (xs ++ (k, r) ∷ []) ≡ some r
unfolding lookup
lookup_last xs k r h =
    ground (arith, lookup-append k xs ((k, r) ∷ []), lookup-none k xs h, eq_iff k k)

IsCompleted-append :
    (xs ys : Dict StageResult) (k : String) → IsCompleted xs k → IsCompleted (xs ++ ys) k
IsCompleted-append xs ys k (r, found, done) =
    (r, lookup_before xs ys k (has_key_of_lookup k xs r found) ∙ found, done)

pub IsCompleted-before :
    (xs ys : Dict StageResult) (k : String)
    → has_key k xs ≡ true
    → IsCompleted (xs ++ ys) k
    → IsCompleted xs k
IsCompleted-before xs ys k h (r, found, done) = (r, sym (lookup_before xs ys k h) ∙ found, done)

pub All-map :
    {A : Type 0} {P Q : A → Type 0} (xs : List A) → ((x : A) → P x → Q x) → All P xs → All Q xs
All-map [] f h = tt
All-map (x ∷ xs) f (p, h) = (f x p, All-map xs f h)

In-snoc : {A : Type 0} (xs : List A) (x y : A) → In y (xs ++ x ∷ []) → In y xs ⊎ (x ≡ y)
In-snoc [] x y (inl e) = inr e
In-snoc [] x y (inr h) = absurd h
In-snoc (z ∷ xs) x y (inl e) = inl (inl e)
In-snoc (z ∷ xs) x y (inr h) = elim (In-snoc xs x y h) [ inl g ↦ inl (inr g) | inr e ↦ inr e ]

has_key_of_In :
    (stages : List Stage) (results : Dict StageResult) (stage : Stage)
    → keys results ≡ ids_of stages
    → In stage stages
    → has_key stage.id results ≡ true
unfolding has_key
has_key_of_In [] results stage h m = absurd m
has_key_of_In (t ∷ stages) [] stage h m = cc
has_key_of_In (t ∷ stages) ((k, r) ∷ results) stage h (inl e) =
    let same : k ≡ stage.id = cc (ap (λ (x : Stage). x.id) e) in
    ground (arith, same, eq_iff k stage.id)
has_key_of_In (t ∷ stages) ((k, r) ∷ results) stage h (inr m) =
    ground (arith, has_key_of_In stages results stage (cc) m)

-- The justification of a stage that is added.
pub AreJustified-step :
    {ran todo : List Stage} {prior : List String} {done rest : Dict StageResult} {c : Core}
    (stage : Stage) (result : StageResult)
    → IsProgress ran todo prior done rest c
    → member stage.id prior ≡ false
    → AreJustified ran done
    → (is_executed result.state ≡ true → All (IsCompleted done) stage.depends_on)
    → AreJustified (ran ++ stage ∷ []) (done ++ (stage.id, result) ∷ [])
AreJustified-step {ran} {done = done} stage result p fresh old new st r m found executed =
    elim (In-snoc ran stage st m) [
      | inl before ↦
          let present = has_key_of_In ran done st p.done_keys before in
          All-map st.depends_on (λ d. IsCompleted-append done _ d)
            (old st r before (sym (lookup_before done _ st.id present) ∙ found) executed)
      | inr same ↦
          let found' : lookup stage.id (done ++ (stage.id, result) ∷ []) ≡ some r =
            subst (λ (t : Stage). lookup t.id (done ++ (stage.id, result) ∷ []) ≡ some r) (sym same)
              found in
          let last = lookup_last done stage.id result (sym (p.seen stage.id) ∙ fresh) in
          let it_is : result ≡ r = cc in
          subst (λ (t : Stage). All (IsCompleted (done ++ (stage.id, result) ∷ [])) t.depends_on)
            same
            (All-map stage.depends_on (λ d. IsCompleted-append done _ d) (new (rw it_is executed)))
    ]
