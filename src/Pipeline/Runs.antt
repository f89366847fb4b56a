-- ===== src/Pipeline/Runs.antt =====
-- internal/controlplane/repository/query_memory.go over the rows of tenant_query_runs, with the columns
-- of internal/controlplane/model/query_memory.go.
use mission.Prelude.{
  ℕ, Bool, Option, none, some, List, [], ◌∷◌, nat_beq, false, ◌||◌, if◌then◌else◌,
}
use mission.Prelude.Text.{Text, is_empty, trim_space}
use mission.Pipeline.{AskQuestionAttempt}

pub data PromptContextSource : Type 0 where
  from_approved from_draft from_raw_schema : PromptContextSource

pub data QueryRunStatus : Type 0 where
  running run_succeeded run_failed : QueryRunStatus

-- The texts of locale_messages.go, in either locale.
pub data Warning : Type 0 where
  used_draft_layer used_raw_schema limit_injected : Warning
  summary_failed : Text → Warning

pub record QueryRun : Type 0 where
  pub id : ℕ
  pub tenant_id : ℕ
  pub schema_version_id : ℕ
  pub semantic_layer_id : Option ℕ
  pub prompt_context_source : PromptContextSource
  pub clerk_user_id : Text
  pub question : Text
  pub status : QueryRunStatus
  pub sql_original : Text
  pub sql_executed : Text
  pub attempts : List AskQuestionAttempt
  pub warnings : List Warning
  pub row_count : ℕ
  pub elapsed_ms : ℕ
  pub retrieved_example_ids : List ℕ
  pub error_stage : Text
  pub error_message : Text
  pub completed_at : Option ℕ

abbrev pub Runs : Type 0
Runs = List QueryRun

abbrev pub new_run : ℕ → ℕ → ℕ → Option ℕ → PromptContextSource → Text → Text → QueryRun
new_run id tenant version layer source user question = record {
  id = id;
  tenant_id = tenant;
  schema_version_id = version;
  semantic_layer_id = layer;
  prompt_context_source = source;
  clerk_user_id = user;
  question = question;
  status = running;
  sql_original = [];
  sql_executed = [];
  attempts = [];
  warnings = [];
  row_count = 0;
  elapsed_ms = 0;
  retrieved_example_ids = [];
  error_stage = [];
  error_message = [];
  completed_at = none;
}

-- `nullableString`, as it is read back: a blank text is stored as NULL.
unfoldable pub nullable_string : Text → Text
unfolding trim_space
nullable_string t = if is_empty (trim_space t) then [] else t

-- `queryRunCompletion`.
pub record Completed : Type 0 where
  pub status : QueryRunStatus
  pub sql_original : Text
  pub sql_executed : Text
  pub attempts : List AskQuestionAttempt
  pub warnings : List Warning
  pub row_count : ℕ
  pub elapsed_ms : ℕ
  pub retrieved_example_ids : List ℕ
  pub error_stage : Text
  pub error_message : Text

abbrev pub completed : ℕ → Completed → QueryRun → QueryRun
completed now c r = record r {
  status = c.status;
  sql_original = nullable_string c.sql_original;
  sql_executed = nullable_string c.sql_executed;
  attempts = c.attempts;
  warnings = c.warnings;
  row_count = c.row_count;
  elapsed_ms = c.elapsed_ms;
  retrieved_example_ids = c.retrieved_example_ids;
  error_stage = nullable_string c.error_stage;
  error_message = nullable_string c.error_message;
  completed_at = some now;
}

unfoldable pub has_run : ℕ → Runs → Bool
has_run id [] = false
has_run id (r ∷ rs) = nat_beq r.id id || has_run id rs

unfoldable pub complete_run : ℕ → ℕ → Completed → Runs → Runs
complete_run now id c [] = []
complete_run now id c (r ∷ rs) =
    (if nat_beq r.id id then completed now c r else r) ∷ complete_run now id c rs

abbrev pub succeeded_with :
    Text → Text → List AskQuestionAttempt → List Warning → ℕ → ℕ → List ℕ → Completed
succeeded_with original sql attempts warnings rows elapsed ids = record {
  status = run_succeeded;
  sql_original = original;
  sql_executed = sql;
  attempts = attempts;
  warnings = warnings;
  row_count = rows;
  elapsed_ms = elapsed;
  retrieved_example_ids = ids;
  error_stage = [];
  error_message = [];
}

abbrev pub failed_with : List AskQuestionAttempt → List Warning → List ℕ → Text → Text → Completed
failed_with attempts warnings ids stage message = record {
  status = run_failed;
  sql_original = [];
  sql_executed = [];
  attempts = attempts;
  warnings = warnings;
  row_count = 0;
  elapsed_ms = 0;
  retrieved_example_ids = ids;
  error_stage = trim_space stage;
  error_message = trim_space message;
}
