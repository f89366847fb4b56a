-- ===== src/Pipeline/Ask.antt =====
-- `AskQuestion` of internal/controlplane/controller/query.go, with what follows the attempts in
-- query_pipeline.go.
use mission.Prelude.{ℕ, List, [], ◌∷◌, ◌++◌, if◌then◌else◌}
use mission.Prelude.Actions.{ok, ◌>>=◌, ◌>>◌, pure, raise}
use mission.Prelude.Text.{Text}
use mission.SqlGuard.Ast.{SqlLib}
use mission.SqlGuard.Result.{Result}
use mission.Pipeline.{
  AskQuestionAttempt, AgentRows, Cause, Outcome, succeeded, gave_up, execute_ask_question_pipeline,
}
use mission.Pipeline.Runs.{Warning, limit_injected, summary_failed, succeeded_with}
use mission.Pipeline.Question.{
  Summary, AskQuestionResult, Env, Method, PreparedAskQuestion, summarized, no_summary,
  pipeline_error,
}
use mission.Pipeline.Preparation.{
  validate_ask_question_request, complete, complete_failed_query_run, prepare_ask_question,
}

module _ (lib : SqlLib) (env : Env) where
  unfoldable pub fail_ask_question :
      PreparedAskQuestion → List AskQuestionAttempt → Text → Text → Cause → Method AskQuestionResult
  unfolding complete_failed_query_run
  fail_ask_question prepared attempts stage message cause = do
    let result = record prepared.result { attempts = attempts }
    complete_failed_query_run env result attempts prepared.warnings prepared.retrieved_example_ids
        stage message
    raise (record { result = result; error = pipeline_error cause })

  abbrev pub summary_text : Summary → Text
  summary_text (summarized t) = t
  summary_text (no_summary e) = []

  abbrev pub summary_warnings : Summary → List Warning
  summary_warnings (summarized t) = []
  summary_warnings (no_summary e) = summary_failed e ∷ []

  -- The result of a success.
  abbrev pub successful :
      PreparedAskQuestion
      → Text
      → Result
      → AgentRows
      → List AskQuestionAttempt
      → Summary
      → AskQuestionResult
  successful prepared sql guard answer attempts summary = record {
    query_run_id = prepared.result.query_run_id;
    sql_original = sql;
    sql_executed = guard.rewritten_sql;
    limit_injected = guard.limit_injected;
    row_count = answer.row_count;
    elapsed_ms = answer.elapsed_ms;
    summary_ko = summary_text summary;
    warnings =
        prepared.warnings
        ++ (summary_warnings summary ++ (if guard.limit_injected then limit_injected ∷ [] else []));
    attempts = attempts;
  }

  unfoldable pub complete_successful_ask_question :
      Text
      → PreparedAskQuestion
      → Text
      → Result
      → AgentRows
      → List AskQuestionAttempt
      → Method AskQuestionResult
  unfolding complete
  complete_successful_ask_question question prepared sql guard answer attempts = do
    let result =
        successful prepared sql guard answer attempts
          (env.summary question guard.rewritten_sql answer)
    complete env result result.query_run_id (
        succeeded_with result.sql_original result.sql_executed attempts result.warnings
          result.row_count result.elapsed_ms prepared.retrieved_example_ids)
    pure result

  -- What the attempts end with is stored.
  unfoldable pub record_outcome : Text → PreparedAskQuestion → Outcome → Method AskQuestionResult
  unfolding complete_successful_ask_question fail_ask_question
  record_outcome question prepared (succeeded sql guard answer attempts) =
      complete_successful_ask_question question prepared sql guard answer attempts
  record_outcome question prepared (gave_up stage message cause attempts) =
      fail_ask_question prepared attempts stage message cause

  -- The attempts, and what they send.
  unfoldable pub attempt_question : Text → PreparedAskQuestion → Method Outcome
  unfolding execute_ask_question_pipeline
  attempt_question question prepared w =
      let (outcome, sent) =
        execute_ask_question_pipeline lib
          (env.generate question prepared.prompt_ctx prepared.retrieved_examples) env.agent in
      (ok outcome, record w { sent = w.sent ++ sent })

  unfoldable pub ask_question : ℕ → Text → Text → Method AskQuestionResult
  unfolding validate_ask_question_request prepare_ask_question attempt_question record_outcome
  ask_question tenant user question = do
    request ← validate_ask_question_request env question
    prepared ← prepare_ask_question env tenant user request.0 request.1
    outcome ← attempt_question request.0 prepared
    record_outcome request.0 prepared outcome
