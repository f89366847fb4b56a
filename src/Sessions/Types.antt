-- ===== src/Sessions/Types.antt =====
-- The data of internal/controlplane/controller/agent.go. Tenants, tokens and commands are named by
-- UUIDs, which are numbers here; times are numbers, durations too.
use mission.Prelude.{ℕ, Bool, Option, List, String}
use mission.Prelude.Text.{Text}
use mission.Prelude.Dict.{Dict}

-- Schema blobs, of internal/controlplane/model/schema.go.
pub record SchemaTable : Type 0 where
  pub table_schema : String
  pub table_name : String
  pub table_type : String
  pub table_comment : String

pub record SchemaColumn : Type 0 where
  pub table_schema : String
  pub table_name : String
  pub column_name : String
  pub ordinal_position : ℕ
  pub data_type : String
  pub column_type : String
  pub is_nullable : Bool
  pub has_default : Bool
  pub default_value : String
  pub column_comment : String

pub record SchemaPrimaryKey : Type 0 where
  pub table_schema : String
  pub table_name : String
  pub constraint_name : String
  pub column_name : String
  pub ordinal_position : ℕ

pub record SchemaForeignKey : Type 0 where
  pub table_schema : String
  pub table_name : String
  pub constraint_name : String
  pub column_name : String
  pub ordinal_position : ℕ
  pub referenced_table_schema : String
  pub referenced_table_name : String
  pub referenced_column_name : String

pub record SchemaBlob : Type 0 where
  pub database_name : String
  pub tables : List SchemaTable
  pub columns : List SchemaColumn
  pub primary_keys : List SchemaPrimaryKey
  pub foreign_keys : List SchemaForeignKey

-- A row maps columns to values of any type, which are only copied; a value is its text here.
abbrev pub Row : Type 0
Row = Dict String String

pub record AgentPingResult : Type 0 where
  pub session_id : Text
  pub command_id : ℕ
  pub completed_at : ℕ
  pub round_trip_ms : ℕ

pub record AgentExecuteQueryResult : Type 0 where
  pub session_id : Text
  pub command_id : ℕ
  pub completed_at : ℕ
  pub columns : List String
  pub rows : List Row
  pub elapsed_ms : ℕ
  pub database_user : String
  pub database_name : String
  pub error : String
  pub error_code : String
  pub error_reason : String
  pub blocked_constructs : List String

pub record AgentIntrospectSchemaResult : Type 0 where
  pub session_id : Text
  pub command_id : ℕ
  pub completed_at : ℕ
  pub schema : SchemaBlob
  pub elapsed_ms : ℕ
  pub database_user : String
  pub database_name : String
  pub error : String

pub record AgentConfigureDatabaseResult : Type 0 where
  pub session_id : Text
  pub command_id : ℕ
  pub completed_at : ℕ
  pub elapsed_ms : ℕ
  pub database_user : String
  pub database_name : String
  pub error : String
  pub error_code : String

-- What the four kinds of waiters are sent.
pub data AgentResult : Type 0 where
  ping_result : AgentPingResult → AgentResult
  query_result : AgentExecuteQueryResult → AgentResult
  schema_result : AgentIntrospectSchemaResult → AgentResult
  config_result : AgentConfigureDatabaseResult → AgentResult

pub data CommandKind : Type 0 where
  ping execute_query introspect_schema configure_database : CommandKind

pub record AgentCommand : Type 0 where
  pub session_id : Text
  pub command_id : ℕ
  pub issued_at : ℕ
  pub kind : CommandKind
  pub sql : Text
  pub dsn : String

-- model.TenantToken, as far as `RegisterSession` reads it.
pub record TenantToken : Type 0 where
  pub id : ℕ
  pub tenant_id : ℕ
  pub label : String

pub record AgentSessionSnapshot : Type 0 where
  pub session_id : Text
  pub tenant_id : ℕ
  pub token_id : ℕ
  pub token_label : String
  pub hostname : Text
  pub agent_version : String
  pub connected_at : ℕ
  pub last_heartbeat_at : ℕ
  pub disconnected_at : Option ℕ
  pub status : String

-- The sentinel errors.
pub data Failure : Type 0 where
  invalid_session_id invalid_hostname session_not_found session_not_active : Failure
  command_not_found command_rejected tenant_not_connected : Failure
