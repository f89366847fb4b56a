-- ===== src/Pipeline/Question.antt =====
-- What `AskQuestion` of internal/controlplane/controller/query.go works with. The answers of the other components
-- are an argument, as are the faults of the database by the number of the call. A run's identifier is a
-- number that was not used before, and 0 is uuid.Nil.
use mission.Prelude.{ℕ, Bool, false, Option, List, [], ◌∷◌, nat_beq, if◌then◌else◌}
use mission.Prelude.Actions.{Found, Action}
use mission.Prelude.Text.{Text}
use mission.Semantic.Types.{SchemaBlob, SemanticLayerContent, TenantSemanticLayer}
use mission.Semantic.Methods.{TenantSchemaVersion}
use mission.Pipeline.{AskQuestionAttempt, AgentRows, Execution, Generated, Cause}
use mission.Pipeline.Runs.{PromptContextSource, Warning, Runs}

pub record QueryPromptContext : Type 0 where
  pub schema_blob : SchemaBlob
  pub semantic_layer : Option SemanticLayerContent
  pub semantic_layer_id : Option ℕ
  pub source : PromptContextSource

pub record TenantCanonicalQueryExample : Type 0 where
  pub id : ℕ
  pub question : Text
  pub sql : Text
  pub notes : Text

pub data Searched : Type 0 where
  hits : List TenantCanonicalQueryExample → Searched
  search_failed : Text → Searched

pub data Summary : Type 0 where
  summarized no_summary : Text → Summary

pub record AskQuestionResult : Type 0 where
  pub query_run_id : ℕ
  pub sql_original : Text
  pub sql_executed : Text
  pub limit_injected : Bool
  pub row_count : ℕ
  pub elapsed_ms : ℕ
  pub summary_ko : Text
  pub warnings : List Warning
  pub attempts : List AskQuestionAttempt

abbrev pub no_result : AskQuestionResult
no_result = record {
  query_run_id = 0;
  sql_original = [];
  sql_executed = [];
  limit_injected = false;
  row_count = 0;
  elapsed_ms = 0;
  summary_ko = [];
  warnings = [];
  attempts = [];
}

pub data AskError : Type 0 where
  empty_question access_denied no_schema store_error decode_error : AskError
  search_error : Text → AskError
  pipeline_error : Cause → AskError

-- An error comes with a result.
pub record Failure : Type 0 where
  pub result : AskQuestionResult
  pub error : AskError

abbrev pub failing : AskError → Failure
failing e = record { result = no_result; error = e }

pub record Env : Type 0 where
  pub membership : Found (Unit {0})
  pub latest_schema : Found TenantSchemaVersion
  pub approved_layer : ℕ → Found TenantSemanticLayer
  pub draft_layer : ℕ → Found TenantSemanticLayer
  pub search_examples : Text → Option ℕ → Searched
  pub generate :
      Text → QueryPromptContext → List TenantCanonicalQueryExample → ℕ → Text → Text → Generated
  pub agent : ℕ → Text → Execution
  pub summary : Text → Text → AgentRows → Summary
  pub faults : ℕ → Bool
  pub now : ℕ

-- The runs, the next identifier, the statements so far, and the texts sent to the agent.
pub record Store : Type 0 where
  pub runs : Runs
  pub next_id : ℕ
  pub calls : ℕ
  pub sent : List Text

abbrev pub Method : Type 0 → Type 0
Method A = Action Store Failure A

pub record PreparedAskQuestion : Type 0 where
  pub result : AskQuestionResult
  pub prompt_ctx : QueryPromptContext
  pub warnings : List Warning
  pub retrieved_examples : List TenantCanonicalQueryExample
  pub retrieved_example_ids : List ℕ

-- `canonicalExampleIDs`.
unfoldable pub canonical_example_ids : List TenantCanonicalQueryExample → List ℕ
canonical_example_ids [] = []
canonical_example_ids (e ∷ es) =
    let rest = canonical_example_ids es in if nat_beq e.id 0 then rest else e.id ∷ rest
