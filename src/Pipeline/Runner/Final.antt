-- ===== src/Pipeline/Runner/Final.antt =====
-- What a run returns, whatever its stages do.
use datasheet_to_tscircuit.Prelude.{
  ℕ, suc, String, ◌≡◌, refl, sym, ap, subst, ◌∙◌, false, List, [], ◌∷◌, ◌++◌, Dict, keys, has_key,
  has_key-append, put, put_new, keys-append, member, All, if◌then◌else◌, length, arith,
}
use datasheet_to_tscircuit.Pipeline.Types.{
  StageResult, StageState, Stage, ExecutionTarget, RunStatus, Snapshot, is_failed, is_cancelled,
  JsonFields,
}
use datasheet_to_tscircuit.Pipeline.Result.{Result, return, throw}
use datasheet_to_tscircuit.Pipeline.Definition.{validate_pipeline_definition}
use datasheet_to_tscircuit.Pipeline.Definition.WellFormed.{
  AreOrdered, validate_pipeline_definition_iff,
}
use datasheet_to_tscircuit.Pipeline.Effects.{
  Environment, Core, Run, raise, get_run, set_run_status, pure, ◌>>=◌,
}
use datasheet_to_tscircuit.Pipeline.Effects.Quiet.{
  Persistent, Quiet, Stable, quiet_rules, Quiet-read_now, Quiet-perform,
}
use datasheet_to_tscircuit.Pipeline.Effects.Outcomes.{
  After, Triple, Anything, Triple-bind, Triple-then, Triple-get_core_known, Triple-result,
  Triple-weaken,
}
use datasheet_to_tscircuit.Pipeline.Trace.{
  Options, Setting, make_debug_dir, record_post_commit_trace_failure, snapshot,
}
use datasheet_to_tscircuit.Pipeline.Trace.Quiet.{Quiet-emit, Quiet-record_post_commit_trace_failure}
use datasheet_to_tscircuit.Pipeline.Errors.{Thrown}
use datasheet_to_tscircuit.Pipeline.Stages.{plain_result}
use datasheet_to_tscircuit.Pipeline.Stages.Closed.{Is, Stable-On}
use datasheet_to_tscircuit.Pipeline.Runner.{
  target_of, final_status, pending_results, run_stages, finish_run, run_from_start, run_pipeline,
  initial_run, start_in_context, start_at_target, start_validated, serialize_execution_context,
  target_index,
}
use datasheet_to_tscircuit.Pipeline.Runner.Progress.{
  IsProgress, AreJustified, IsFinal, any_result, ids_of, append_nil, append_snoc,
}
use datasheet_to_tscircuit.Pipeline.Runner.Completion.{IsRunning, run_stages_progress}

known_put :
    (prior : List String) (results : Dict StageResult) (id x : String) (r : StageResult)
    → member id prior ≡ false
    → ((y : String) → member y prior ≡ has_key y results)
    → member x (id ∷ prior) ≡ has_key x (put id r results)
unfolding member has_key
known_put prior results id x r fresh known =
    let new = put_new id r results (sym (known id) ∙ fresh) in
    rw new (ground (arith, known x, has_key-append x results ((id, r) ∷ [])))

keys_pending :
    (env : Environment) (dir : String) (count index : ℕ) (prior : List String) (stages : List Stage)
    (results : Dict StageResult)
    → AreOrdered prior stages
    → ((x : String) → member x prior ≡ has_key x results)
    → keys (pending_results env dir count index stages results) ≡ keys results ++ ids_of stages
unfolding pending_results
keys_pending env dir count index prior [] results _ known = sym (append_nil (keys results))
keys_pending env dir count index prior (stage ∷ stages) results (_, fresh, _, ordered) known =
    let pending =
      plain_result stage.id (make_debug_dir env dir index count stage.id) StageState.pending in
    let new = put_new stage.id pending results (sym (known stage.id) ∙ fresh) in
    keys_pending env dir count (suc index) (stage.id ∷ prior) stages (put stage.id pending results)
      ordered (λ x. known_put prior results stage.id x pending fresh known)
    ∙ ap (λ m. keys m ++ ids_of stages) new
    ∙ ap (λ l. l ++ ids_of stages) (keys-append results ((stage.id, pending) ∷ []))
    ∙ append_snoc (keys results) stage.id (ids_of stages)

-- How the source classifies a run by the results of its stages.
abbrev pub classify : Dict StageResult → RunStatus
classify results =
    if any_result is_cancelled results
    then RunStatus.cancelled
    else if any_result is_failed results
    then RunStatus.failed
    else RunStatus.completed

-- What a returned snapshot says of the stages of a pipeline.
pub record IsSettled (options : Options) (s : Snapshot) : Type 0 where
  pub known : keys s.stage_results ≡ ids_of options.definition.stages
  pub final : All IsFinal s.stage_results
  pub status : s.status ≡ classify s.stage_results
  pub justified :
      target_of options ≡ ExecutionTarget.pipeline
      → AreJustified options.definition.stages s.stage_results

module _ (env : Environment) (persistent : Persistent env) (setting : Setting) where
  -- The last snapshot has the results and the status that the variables give.
  abbrev IsLast : Core → Snapshot → Type 0
  IsLast c s = (s.stage_results ≡ c.stage_results) × (s.status ≡ final_status c)

  -- The variables and the status of the run.
  abbrev Ended : Core → Run → Type 0
  Ended c s = (s.core ≡ c) × (s.run_status ≡ final_status c)

  Stable-Ended : (c : Core) → Stable env (Ended c)
  Stable-Ended c = record { at = λ p l. (l.core ∙ p.0, l.status ∙ p.1) }

  Quiet-record_end :
      (c : Core) (e : Thrown)
      → Quiet env (
          if c.has_committed_stage
          then record_post_commit_trace_failure env setting "pipeline"
              "record_pipeline_terminal_event" e
          else raise e)
  Quiet-record_end c e = search (quiet_rules, Quiet-record_post_commit_trace_failure, persistent)

  mark-Ended :
      (c : Core)
      → Triple (λ s. s.core ≡ c) (set_run_status (final_status c)) (λ _. Ended c) Anything
  unfolding set_run_status
  mark-Ended c = record { at = λ s p. (p, refl) }

  IsLast-snapshot :
      (c : Core) (at : ℕ)
      → Triple
          (Ended c)
          (get_run >>= λ s. pure (snapshot setting at s))
          (λ snap _. IsLast c snap)
          Anything
  unfolding get_run pure snapshot ◌>>=◌
  IsLast-snapshot c at = record { at = λ s p. (ap (λ d. d.stage_results) p.0, p.1) }

  finish_run_lem :
      (c : Core)
      → Triple (λ s. s.core ≡ c) (finish_run env setting) (λ snap _. IsLast c snap) Anything
  unfolding finish_run
  finish_run_lem c = Triple-get_core_known c _ (
      Triple-bind {R = λ _. Ended c} _ _ (mark-Ended c) (λ _.
        Triple-then {env = env} _ _ (Quiet-read_now persistent) (Stable-Ended c) (λ _ _. tt)
          (λ at.
            Triple-then {env = env} _ _
              (search (quiet_rules, Quiet-record_end, Quiet-emit, persistent)) (Stable-Ended c)
              (λ _ _. tt) (λ _. IsLast-snapshot c at))))

no_keys : (m : Dict StageResult) → keys m ≡ [] → m ≡ []
no_keys [] h = refl
no_keys ((k, r) ∷ m) h = cc

final_of_status :
    (c : Core) (results : Dict StageResult)
    → c.has_failed_stage ≡ any_result is_failed results
    → c.has_cancelled_stage ≡ any_result is_cancelled results
    → final_status c ≡ classify results
final_of_status c results f k = rw (f, k) refl

IsSettled-of_last :
    (options : Options) (done rest : Dict StageResult) (prior : List String) (c : Core)
    (snap : Snapshot)
    → IsProgress options.definition.stages [] prior done rest c
    → (target_of options ≡ ExecutionTarget.pipeline → AreJustified options.definition.stages done)
    → snap.stage_results ≡ c.stage_results
    → snap.status ≡ final_status c
    → IsSettled options snap
IsSettled-of_last options done rest prior c snap p justified same status =
    let all_done : snap.stage_results ≡ done =
      same ∙ p.results ∙ ap (λ m. done ++ m) (no_keys rest p.rest_keys) ∙ append_nil done in
    record {
      known = rw all_done p.done_keys;
      final = rw all_done p.final;
      status = rw all_done (status ∙ final_of_status c done p.failed p.cancelled);
      justified = λ whole. rw all_done (justified whole);
    }

-- At the start each stage has a result, in the order of the stages.
pub keys_initial :
    (env : Environment) (options : Options) (dir : String)
    → AreOrdered [] options.definition.stages
    → keys (initial_run env options dir).core.stage_results ≡ ids_of options.definition.stages
unfolding member has_key
keys_initial env options dir ordered =
    keys_pending env dir (length options.definition.stages) 0 [] options.definition.stages []
      ordered (λ x. refl)

initial-IsProgress :
    (env : Environment) (options : Options) (dir : String)
    → AreOrdered [] options.definition.stages
    → IsProgress [] options.definition.stages [] []
        (initial_run env options dir).core.stage_results
        (initial_run env options dir).core
unfolding member has_key
initial-IsProgress env options dir ordered = record {
  results = refl;
  done_keys = refl;
  rest_keys =
      keys_pending env dir (length options.definition.stages) 0 [] options.definition.stages []
        ordered (λ x. refl);
  seen = λ x. refl;
  final = tt;
  failed = refl;
  cancelled = refl;
}

module _ (env : Environment) (persistent : Persistent env) where
  abbrev Finished : Setting → ℕ → Run → Type 0
  Finished setting target s =
      (prior : List String) × IsRunning env persistent setting target
        setting.options.definition.stages [] prior s

  finish_settles :
      (setting : Setting) (target : ℕ)
      → Triple
          (Finished setting target)
          (finish_run env setting)
          (λ snap _. IsSettled setting.options snap)
          Anything
  finish_settles setting target = record {
    at = λ s (prior, r).
        (Triple-result (finish_run_lem env persistent setting s.core) (λ snap _ (same, status).
            IsSettled-of_last setting.options r.done r.rest prior s.core snap r.progress r.justified
              same status)).at
          s refl;
  }

  started-IsRunning :
      (setting : Setting) (target : ℕ) (dir : String) (s : Run)
      → AreOrdered [] setting.options.definition.stages
      → s.core ≡ (initial_run env setting.options dir).core
      → IsRunning env persistent setting target [] setting.options.definition.stages [] s
  started-IsRunning setting target dir s ordered same = record {
    done = [];
    rest = (initial_run env setting.options dir).core.stage_results;
    progress =
        subst
          (λ c.
            IsProgress [] setting.options.definition.stages [] []
              (initial_run env setting.options dir).core.stage_results c)
          (sym same) (initial-IsProgress env setting.options dir ordered);
    justified = λ whole stage result m. absurd m;
  }

  run_and_finish :
      (setting : Setting) (target : ℕ) (dir : String)
      → AreOrdered [] setting.options.definition.stages
      → Triple
          (λ s. s.core ≡ (initial_run env setting.options dir).core)
          (run_stages env setting target 0 setting.options.definition.stages >>= λ _.
            finish_run env setting)
          (λ snap _. IsSettled setting.options snap)
          Anything
  run_and_finish setting target dir ordered =
      Triple-bind {R = λ _. Finished setting target} _ _
        (Triple-weaken
          (run_stages_progress env persistent setting target setting.options.definition.stages [] []
            0 ordered)
          (λ s same. started-IsRunning setting target dir s ordered same))
        (λ _. finish_settles setting target)

  run_from_start_settles :
      (options : Options) (context : JsonFields) (dir : String) (target : ℕ)
      → AreOrdered [] options.definition.stages
      → Triple
          (λ s. s.core ≡ (initial_run env options dir).core)
          (run_from_start env options context dir target)
          (λ snap _. IsSettled options snap)
          Anything
  unfolding run_from_start
  run_from_start_settles options context dir target ordered =
      Triple-then {env = env} _ _ (Quiet-perform persistent _) (Stable-On (Is _)) (λ _ _. tt)
        λ _.
          Triple-then {env = env} _ _ (Quiet-read_now persistent) (Stable-On (Is _)) (λ _ _. tt)
            λ started.
              Triple-then {env = env} _ _ (Quiet-emit persistent _ _) (Stable-On (Is _)) (λ _ _. tt)
                λ _. run_and_finish _ target dir ordered

  context_settles :
      (options : Options) (dir : String) (target : ℕ) (context : Result JsonFields)
      → AreOrdered [] options.definition.stages
      → After
          (λ snap _. IsSettled options snap)
          Anything
          (start_in_context env options dir target context (initial_run env options dir)).0
          (start_in_context env options dir target context (initial_run env options dir)).1
  context_settles options dir target (throw e) ordered = tt
  context_settles options dir target (return context) ordered =
      (run_from_start_settles options context dir target ordered).at (initial_run env options dir)
        refl

  target_settles :
      (options : Options) (dir : String) (target : Result ℕ)
      → AreOrdered [] options.definition.stages
      → After
          (λ snap _. IsSettled options snap)
          Anything
          (start_at_target env options dir target (initial_run env options dir)).0
          (start_at_target env options dir target (initial_run env options dir)).1
  target_settles options dir (throw e) ordered = tt
  target_settles options dir (return target) ordered =
      context_settles options dir target (serialize_execution_context options) ordered

  validated_settles :
      (options : Options) (dir : String) (r : Result (Unit {0}))
      → validate_pipeline_definition options.definition ≡ r
      → After
          (λ snap _. IsSettled options snap)
          Anything
          (start_validated env options dir r (initial_run env options dir)).0
          (start_validated env options dir r (initial_run env options dir)).1
  validated_settles options dir (throw e) h = tt
  validated_settles options dir (return tt) h =
      target_settles options dir (target_index options)
        ((validate_pipeline_definition_iff options.definition).0 h).ordered

  run_pipeline-After :
      (options : Options)
      → After
          (λ snap _. IsSettled options snap)
          Anything
          (run_pipeline env options).0
          (run_pipeline env options).1
  unfolding run_pipeline
  run_pipeline-After options =
      validated_settles options (env.join (options.workspace_dir ∷ ".pipeline" ∷ []))
        (validate_pipeline_definition options.definition) refl

  -- If `run_pipeline` returns a snapshot, in a world where an aborted signal stays aborted, then the
  -- snapshot has one result for each stage of the definition, in its order, each of them final; its
  -- status is `cancelled` if a stage was cancelled, else `failed` if one failed, else `completed`; and in
  -- a run of the whole pipeline each stage that completed or failed had all of its dependencies
  -- completed.
  pub run_pipeline_settles :
      (options : Options) (snap : Snapshot)
      → (run_pipeline env options).0 ≡ return snap
      → IsSettled options snap
  run_pipeline_settles options snap h =
      subst (λ r. After (λ snap _. IsSettled options snap) Anything r (run_pipeline env options).1)
        h (run_pipeline-After options)
