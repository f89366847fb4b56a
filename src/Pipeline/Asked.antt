-- ===== src/Pipeline/Asked.antt =====
-- How `AskQuestion` of internal/controlplane/controller/query.go ends: the run that it creates is completed.
use mission.Prelude.{ℕ, suc, ◌≡◌, refl, sym, ap, ◌∙◌, inl, inr, Bool-cases, List, [], ◌∷◌, ◌++◌}
use mission.Prelude.Actions.{Result, ok, err, ◌>>=◌, bind-ok, bind-err}
use mission.Prelude.Text.{Text, codes}
use mission.SqlGuard.Ast.{SqlLib}
use mission.SqlGuard.Result.{Result as GuardResult}
use mission.Semantic.Methods.{TenantSchemaVersion}
use mission.Pipeline.{
  AskQuestionAttempt, AgentRows, Cause, Outcome, succeeded, gave_up, execute_ask_question_pipeline,
}
use mission.Pipeline.Executed.{
  Backed, Backed-more, backed, execute_ask_question_pipeline-IsApproved,
}
use mission.Pipeline.Runs.{Warning, QueryRun, new_run, completed, succeeded_with}
use mission.Pipeline.Question.{
  QueryPromptContext, Searched, AskQuestionResult, no_result, Failure, failing, Env, Store,
  PreparedAskQuestion, hits, search_failed, store_error, search_error, pipeline_error,
}
use mission.Pipeline.Preparation.{
  validate_ask_question_request, resolve_prompt_context, resolve_retrieved_examples, create_run,
  complete, fail_preparation, with_examples, prepare_ask_question,
}
use mission.Pipeline.Ask.{
  fail_ask_question, successful, complete_successful_ask_question, record_outcome, attempt_question,
  ask_question,
}
use mission.Pipeline.Recorded.{
  Fails, IsNew, refused, AskEnds, ask_failed, ask_succeeded, IsFresh, called, complete_lem,
  still_running, failed-Fails,
}
use mission.Pipeline.Reading.{
  read_ok, read_err, validate_ask_question_request-Reads, resolve_prompt_context-Reads,
}

module _ (lib : SqlLib) (env : Env) (tenant : ℕ) (user : Text) (before : Store) (run : QueryRun)
    (new : IsNew tenant user before run) (w : Store) (here : w.runs ≡ before.runs ++ run ∷ [])
    (prepared : PreparedAskQuestion) (same : prepared.result.query_run_id ≡ run.id) where
  gave_up-AskEnds :
      (question stage message : Text) (cause : Cause) (attempts : List AskQuestionAttempt)
      → AskEnds lib tenant user before
          (record_outcome lib env question prepared (gave_up stage message cause attempts) w)
  unfolding record_outcome fail_ask_question
  gave_up-AskEnds question stage message cause attempts =
      let (f, w', e, fails) =
        failed-Fails env tenant user before run new w here {A = AskQuestionResult}
          (record prepared.result { attempts = attempts }) attempts prepared.warnings
          prepared.retrieved_example_ids stage message (pipeline_error cause) same refl in
      rw e (ask_failed fails)

  succeeded-AskEnds :
      (question sql : Text) (guard : GuardResult) (answer : AgentRows)
      (attempts : List AskQuestionAttempt)
      → Backed lib w.sent (succeeded sql guard answer attempts)
      → AskEnds lib tenant user before
          (record_outcome lib env question prepared (succeeded sql guard answer attempts) w)
  unfolding record_outcome complete_successful_ask_question
  succeeded-AskEnds question sql guard answer attempts (backed v k i) =
      let a =
        successful lib env prepared sql guard answer attempts
          (env.summary question guard.rewritten_sql answer) in
      let c =
        succeeded_with sql guard.rewritten_sql attempts a.warnings a.row_count a.elapsed_ms
          prepared.retrieved_example_ids in
      let step = ap (λ (id : ℕ). complete env a id c w) same in
      let none_called = called env tenant user before run new w here in
      elim (complete_lem env tenant user before run new w here a c) [
        | inl e ↦
            rw
              (bind-err (complete env a a.query_run_id c) _ w
                (record { result = a; error = store_error }) none_called (step ∙ e))
              (ask_failed (
                still_running env tenant user before run new w here
                  (record { result = a; error = store_error }) refl))
        | inr e ↦
            rw
              (bind-ok (complete env a a.query_run_id c) _ w tt
                (record none_called { runs = before.runs ++ completed env.now c run ∷ [] })
                (step ∙ e))
              (ask_succeeded (completed env.now c run)
                (record {
                  tenant_id = new.owned.tenant_id;
                  clerk_user_id = new.owned.clerk_user_id;
                })
                refl
                (record {
                  status = refl;
                  id = sym same;
                  sql = refl;
                  attempts = refl;
                  warnings = refl;
                  row_count = refl;
                  approved = record {
                    sql = _;
                    result = guard;
                    accepts = v;
                    ok = k;
                    rewritten = refl;
                  };
                  executed = i;
                }))
      ]

  record_outcome-AskEnds :
      (question : Text) (o : Outcome)
      → Backed lib w.sent o
      → AskEnds lib tenant user before (record_outcome lib env question prepared o w)
  record_outcome-AskEnds question (succeeded sql guard answer attempts) b =
      succeeded-AskEnds question sql guard answer attempts b
  record_outcome-AskEnds question (gave_up stage message cause attempts) b =
      gave_up-AskEnds question stage message cause attempts

-- How a preparation ends: with an error, or with a new run.
data Prepares (tenant : ℕ) (user : Text) (before : Store)
    (p : Result Failure PreparedAskQuestion × Store) : Type 0 where
  prepared_with :
      (run : QueryRun) (a : PreparedAskQuestion) (w : Store)
      → p ≡ (ok a, w)
      → IsNew tenant user before run
      → w.runs ≡ before.runs ++ run ∷ []
      → a.result.query_run_id ≡ run.id
      → Prepares tenant user before p
  not_prepared :
      (f : Failure) (w : Store)
      → p ≡ (err f, w)
      → Fails tenant user before f w
      → Prepares tenant user before p

module _ (lib : SqlLib) (env : Env) (tenant : ℕ) (user : Text) (before : Store) (run : QueryRun)
    (new : IsNew tenant user before run) where
  attempted-AskEnds :
      (question : Text) (p : PreparedAskQuestion) (w : Store)
      → w.runs ≡ before.runs ++ run ∷ []
      → p.result.query_run_id ≡ run.id
      → AskEnds lib tenant user before
          ((attempt_question lib env question p >>= λ o. record_outcome lib env question p o) w)
  unfolding attempt_question
  attempted-AskEnds question p w here same =
      let ran =
        execute_ask_question_pipeline lib (env.generate question p.prompt_ctx p.retrieved_examples)
          env.agent in
      let checked =
        execute_ask_question_pipeline-IsApproved lib
          (env.generate question p.prompt_ctx p.retrieved_examples) env.agent in
      let w1 = record w { sent = w.sent ++ ran.1 } in
      rw
        (bind-ok (attempt_question lib env question p) (λ o. record_outcome lib env question p o) w
          ran.0 w1 refl)
        (record_outcome-AskEnds lib env tenant user before run new w1 here p same question ran.0
          (Backed-more lib w.sent ran.1 ran.0 checked.1.1))

  with_examples-Prepares :
      (result : AskQuestionResult) (ctx : QueryPromptContext) (warnings : List Warning)
      (s : Searched) (w : Store)
      → w.runs ≡ before.runs ++ run ∷ []
      → result.query_run_id ≡ run.id
      → result.attempts ≡ []
      → Prepares tenant user before (with_examples env result ctx warnings s w)
  unfolding with_examples fail_preparation
  with_examples-Prepares result ctx warnings (hits es) w here same tried =
      prepared_with run _ w refl new here same
  with_examples-Prepares result ctx warnings (search_failed e) w here same tried =
      let (f, w', k, fails) =
        failed-Fails env tenant user before run new w here {A = PreparedAskQuestion} result []
          warnings [] (codes "generation") (codes "search canonical examples: " ++ e)
          (search_error e) same tried in
      not_prepared f w' k fails

module _ (lib : SqlLib) (env : Env) (w : Store) where
  module _ (v : IsFresh w) (tenant : ℕ) (user : Text) where
    create_run-Prepares :
        (question : Text) (schema : TenantSchemaVersion) (ctx : QueryPromptContext)
        (warnings : List Warning)
        → Prepares tenant user w (
            (create_run env tenant schema.id ctx.semantic_layer_id ctx.source user question
                >>= λ id.
                    with_examples env
                      (record no_result { query_run_id = id; warnings = warnings })
                      ctx
                      warnings
                      (resolve_retrieved_examples env schema.id question))
              w)
    unfolding create_run
    create_run-Prepares question schema ctx warnings =
        let run =
          new_run w.next_id tenant schema.id ctx.semantic_layer_id ctx.source user question in
        let called = record w { calls = suc w.calls } in
        let created = record called { runs = w.runs ++ run ∷ []; next_id = suc w.next_id } in
        let new : IsNew tenant user w run = record {
          given = v.given;
          unused = v.unused;
          started = refl;
          owned = record { tenant_id = refl; clerk_user_id = refl };
        } in
        let create =
          create_run env tenant schema.id ctx.semantic_layer_id ctx.source user question in
        elim (Bool-cases (env.faults w.calls)) [
          | inl e ↦
              not_prepared (failing store_error) called
                (bind-err create _ w (failing store_error) called (rw e refl)) (refused refl refl)
          | inr e ↦ rw (bind-ok create _ w w.next_id created (rw e refl)) (
              with_examples-Prepares lib env tenant user w run new
                (record no_result { query_run_id = w.next_id; warnings = warnings }) ctx warnings
                (resolve_retrieved_examples env schema.id question) created refl refl refl)
        ]

    prepare_ask_question-Prepares :
        (question : Text) (schema : TenantSchemaVersion)
        → Prepares tenant user w (prepare_ask_question env tenant user question schema w)
    unfolding prepare_ask_question
    prepare_ask_question-Prepares question schema =
        elim (resolve_prompt_context-Reads env w schema) [
          | read_err f e ↦
              not_prepared f w (bind-err (resolve_prompt_context env schema) _ w f w e)
                (refused refl refl)
          | read_ok c e ↦
              rw (bind-ok (resolve_prompt_context env schema) _ w c w e)
                (create_run-Prepares question schema c.0 c.1)
        ]

    -- However a question ends, when the new identifier is not uuid.Nil and no run's: at most one run is
    -- added, of the tenant and the user, and no other is changed. When the question succeeds, the run is
    -- marked as succeeded, with the SQL (blank SQL as none), the attempts, the warnings and the row count of
    -- the result, and that SQL is among what was sent to the agent and is the guard's rewriting of a text
    -- that the guard accepts. When it fails once the run was created, the run is marked as failed, with the
    -- attempts of the result that comes with the error; only on an error of the database is it left running.
    -- When it fails before that, nothing is sent to the agent.
    pub ask_question-AskEnds :
        (question : Text) → AskEnds lib tenant user w (ask_question lib env tenant user question w)
    unfolding ask_question
    ask_question-AskEnds question = elim (validate_ask_question_request-Reads env w question) [
      | read_err f e ↦
          rw (bind-err (validate_ask_question_request env question) _ w f w e)
            (ask_failed (refused refl refl))
      | read_ok r e ↦
          rw (bind-ok (validate_ask_question_request env question) _ w r w e)
            (elim (prepare_ask_question-Prepares r.0 r.1) [
              | not_prepared f w' k fails ↦
                  rw (bind-err (prepare_ask_question env tenant user r.0 r.1) _ w f w' k)
                    (ask_failed fails)
              | prepared_with run a w' k new here same ↦
                  rw (bind-ok (prepare_ask_question env tenant user r.0 r.1) _ w a w' k)
                    (attempted-AskEnds lib env tenant user w run new r.0 a w' here same)
            ])
    ]
