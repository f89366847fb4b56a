-- ===== src/EdgeAgent/Types.antt =====
-- The messages of internal/edgeagent/controller/agent.go and the query errors of
-- internal/queryerror/queryerror.go. Times are numbers of nanoseconds; what the agent's collaborators
-- answer is a value.
use mission.Prelude.{ℕ, zero, suc, ◌-◌, ◌/◌, Option, List, leb, if◌then◌else◌, String}
use mission.Prelude.Text.{Text, codes, is_empty}
use mission.Sessions.Types.{SchemaBlob, Row}

-- Milliseconds, which are negative when the clock went back.
pub data ℤ : Type 0 where
  pos : ℕ → ℤ
  negsuc : ℕ → ℤ

abbrev pub neg : ℕ → ℤ
neg zero = pos 0
neg (suc n) = negsuc n

abbrev pub nanoseconds : ℕ
nanoseconds = 1000000

-- `to.Sub(from).Milliseconds()`, which rounds towards 0.
unfoldable pub milliseconds_between : ℕ → ℕ → ℤ
milliseconds_between from to =
    if leb from to then pos ((to - from) / nanoseconds) else neg ((from - to) / nanoseconds)

-- `queryerror.Error`, as far as the agent reads it.
pub record QueryError : Type 0 where
  pub code : Text
  pub reason : Text
  pub blocked_constructs : List Text

-- `queryerror.Code.String`.
unfoldable pub code_string : Text → Text
code_string code = if is_empty code then codes "UNSPECIFIED" else code

-- An error of the executor: its text, and the query error that `errors.As` finds in it.
pub record ExecutionError : Type 0 where
  pub text : Text
  pub query_error : Option QueryError

pub record QueryResult : Type 0 where
  pub columns : List String
  pub rows : List Row
  pub elapsed_ms : ℤ
  pub database_user : Text
  pub database_name : Text

pub record SchemaAnswer : Type 0 where
  pub schema : SchemaBlob
  pub elapsed_ms : ℤ
  pub database_user : Text
  pub database_name : Text

pub record ConfigureDatabaseResult : Type 0 where
  pub elapsed_ms : ℤ
  pub database_user : Text
  pub database_name : Text
  pub error : Text
  pub error_code : Text

-- What a collaborator's call returns: a value, or an error that is not nil.
pub data Answer (A : Type 0) (E : Type 0) : Type 0 where
  returned : A → Answer A E
  failed : E → Answer A E

-- `ControlMessage.Kind`, a string; `""` and those that are not known are told apart.
pub data ControlKind : Type 0 where
  no_kind ping execute_query introspect_schema configure_database : ControlKind
  unknown : Text → ControlKind

-- `issued_at` is 0 for the zero time.
pub record ControlMessage : Type 0 where
  pub session_id : Text
  pub command_id : Text
  pub issued_at : ℕ
  pub kind : ControlKind
  pub sql : Text
  pub dsn : Text

pub record QueryAuditEvent : Type 0 where
  pub completed_at : ℕ
  pub session_id : Text
  pub command_id : Text
  pub sql : Text
  pub database_user : Text
  pub database_name : Text
  pub elapsed_ms : ℤ
  pub row_count : ℕ
  pub error_code : Text
  pub error_reason : Text
  pub blocked_constructs : List Text

pub record SubmitPingResultRequest : Type 0 where
  pub session_id : Text
  pub command_id : Text
  pub completed_at : ℕ
  pub round_trip_ms : ℤ

pub record SubmitExecuteQueryResultRequest : Type 0 where
  pub session_id : Text
  pub command_id : Text
  pub completed_at : ℕ
  pub columns : List String
  pub rows : List Row
  pub elapsed_ms : ℤ
  pub database_user : Text
  pub database_name : Text
  pub error : Text
  pub error_code : Text
  pub error_reason : Text
  pub blocked_constructs : List Text

pub record SubmitIntrospectSchemaResultRequest : Type 0 where
  pub session_id : Text
  pub command_id : Text
  pub completed_at : ℕ
  pub schema : Option SchemaBlob
  pub elapsed_ms : ℤ
  pub database_user : Text
  pub database_name : Text
  pub error : Text

pub record SubmitConfigureDatabaseResultRequest : Type 0 where
  pub session_id : Text
  pub command_id : Text
  pub completed_at : ℕ
  pub elapsed_ms : ℤ
  pub database_user : Text
  pub database_name : Text
  pub error : Text
  pub error_code : Text

-- What a command makes the agent do, in order: the calls of the auditor and of the client.
pub data Effect : Type 0 where
  log_query_event : QueryAuditEvent → Effect
  submit_ping : SubmitPingResultRequest → Effect
  submit_query : SubmitExecuteQueryResultRequest → Effect
  submit_schema : SubmitIntrospectSchemaResultRequest → Effect
  submit_config : SubmitConfigureDatabaseResultRequest → Effect

-- What a command's handling returns: the answer of the submission, nothing at once, or the error of
-- an unsupported kind.
pub data Handled : Type 0 where
  submitted nothing : Handled
  unsupported : Text → Handled
