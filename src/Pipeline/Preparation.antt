-- ===== src/Pipeline/Preparation.antt =====
-- The request's checks in internal/controlplane/controller/query.go and its preparation in query_prepare.go,
-- with the statements on the runs. The two searches that run side by side only read.
use mission.Prelude.{
  ℕ, suc, not, ◌||◌, Option, none, some, List, [], ◌∷◌, ◌++◌, nat_beq, if◌then◌else◌,
}
use mission.Prelude.Actions.{
  Found, found, missing, failed, ok, err, ◌>>=◌, ◌>>◌, pure, raise, raise_if, or_raise, of_found,
}
use mission.Prelude.Text.{Text, codes, is_empty, trim_space}
use mission.Semantic.Types.{SchemaBlob, TenantSemanticLayer}
use mission.Semantic.Methods.{TenantSchemaVersion}
use mission.Pipeline.{AskQuestionAttempt}
use mission.Pipeline.Runs.{
  PromptContextSource, from_approved, from_draft, from_raw_schema, Warning, used_draft_layer,
  used_raw_schema, new_run, Completed, has_run, complete_run, failed_with,
}
use mission.Pipeline.Question.{
  QueryPromptContext, Searched, AskQuestionResult, no_result, AskError, failing, Env, Method,
  PreparedAskQuestion, canonical_example_ids, hits, search_failed, empty_question, access_denied,
  no_schema, store_error, decode_error, search_error,
}

module _ (env : Env) where
  unfoldable pub validate_ask_question_request : Text → Method (Text × TenantSchemaVersion)
  unfolding trim_space
  validate_ask_question_request question = do
    raise_if (is_empty (trim_space question)) (failing empty_question)
    of_found (failing access_denied) (failing store_error) env.membership
    schema ← of_found (failing no_schema) (failing store_error) env.latest_schema
    pure (trim_space question, schema)

  -- A layer that was found gives the context.
  abbrev pub layer_context :
      SchemaBlob
      → PromptContextSource
      → List Warning
      → TenantSemanticLayer
      → Method (QueryPromptContext × List Warning)
  layer_context blob source warnings layer = do
    content ← or_raise (failing decode_error) layer.content
    pure (
      record {
        schema_blob = blob;
        semantic_layer = some content;
        semantic_layer_id = some layer.id;
        source = source;
      },
      warnings,
    )

  unfoldable pub draft_context :
      SchemaBlob → Found TenantSemanticLayer → Method (QueryPromptContext × List Warning)
  draft_context blob (found layer) = layer_context blob from_draft (used_draft_layer ∷ []) layer
  draft_context blob failed = raise (failing store_error)
  draft_context blob missing = pure (
    record {
      schema_blob = blob;
      semantic_layer = none;
      semantic_layer_id = none;
      source = from_raw_schema;
    },
    used_raw_schema ∷ [],
  )

  unfoldable pub approved_context :
      SchemaBlob → ℕ → Found TenantSemanticLayer → Method (QueryPromptContext × List Warning)
  unfolding draft_context
  approved_context blob version (found layer) = layer_context blob from_approved [] layer
  approved_context blob version failed = raise (failing store_error)
  approved_context blob version missing = draft_context blob (env.draft_layer version)

  unfoldable pub resolve_prompt_context :
      TenantSchemaVersion → Method (QueryPromptContext × List Warning)
  unfolding approved_context
  resolve_prompt_context schema = do
    blob ← or_raise (failing decode_error) schema.blob
    approved_context blob schema.id (env.approved_layer schema.id)

  -- The examples of the schema version, or of any when there is none.
  unfoldable pub resolve_retrieved_examples : ℕ → Text → Searched
  resolve_retrieved_examples version question = elim (env.search_examples question (some version)) [
    | search_failed e ↦ search_failed e
    | hits [] ↦ env.search_examples question none
    | hits (x ∷ xs) ↦ hits (x ∷ xs)
  ]

  unfoldable pub create_run : ℕ → ℕ → Option ℕ → PromptContextSource → Text → Text → Method ℕ
  create_run tenant version layer source user question w =
      let called = record w { calls = suc w.calls } in
      if env.faults w.calls then (err (failing store_error), called) else (
        ok w.next_id,
        record called {
          runs = w.runs ++ new_run w.next_id tenant version layer source user question ∷ [];
          next_id = suc w.next_id;
        },
      )

  -- `complete` of the repository: an error, or the row of the identifier changes.
  unfoldable pub complete : AskQuestionResult → ℕ → Completed → Method (Unit {0})
  unfolding has_run complete_run
  complete result id c w =
      let called = record w { calls = suc w.calls } in
      if env.faults w.calls || not (has_run id w.runs)
      then (err (record { result = result; error = store_error }), called)
      else (ok tt, record called { runs = complete_run env.now id c w.runs })

  unfoldable pub complete_failed_query_run :
      AskQuestionResult
      → List AskQuestionAttempt
      → List Warning
      → List ℕ
      → Text
      → Text
      → Method (Unit {0})
  unfolding complete
  complete_failed_query_run result attempts warnings ids stage message =
      if nat_beq result.query_run_id 0
      then pure tt
      else complete result result.query_run_id (failed_with attempts warnings ids stage message)

  unfoldable pub fail_preparation :
      {A : Type 0} → AskQuestionResult → List Warning → Text → AskError → Method A
  unfolding complete_failed_query_run
  fail_preparation result warnings message e = do
    complete_failed_query_run result [] warnings [] (codes "generation") message
    raise (record { result = result; error = e })

  -- The end of `prepareAskQuestion`, once the run is there.
  unfoldable pub with_examples :
      AskQuestionResult → QueryPromptContext → List Warning → Searched → Method PreparedAskQuestion
  unfolding fail_preparation canonical_example_ids
  with_examples result ctx warnings (search_failed e) =
      fail_preparation result warnings (codes "search canonical examples: " ++ e) (search_error e)
  with_examples result ctx warnings (hits examples) = pure (record {
    result = result;
    prompt_ctx = ctx;
    warnings = warnings;
    retrieved_examples = examples;
    retrieved_example_ids = canonical_example_ids examples;
  })

  unfoldable pub prepare_ask_question :
      ℕ → Text → Text → TenantSchemaVersion → Method PreparedAskQuestion
  unfolding resolve_prompt_context create_run with_examples resolve_retrieved_examples
  prepare_ask_question tenant user question schema = do
    context ← resolve_prompt_context schema
    id ← create_run tenant schema.id context.0.semantic_layer_id context.0.source user question
    with_examples (record no_result { query_run_id = id; warnings = context.1 }) context.0 context.1
        (resolve_retrieved_examples schema.id question)
