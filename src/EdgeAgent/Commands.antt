-- ===== src/EdgeAgent/Commands.antt =====
-- `handleCommand` and its handlers of internal/edgeagent/controller/agent.go. The collaborators are
-- optional, and `none` is nil; their answers to the call of this command are given. `now` has the
-- readings of the clock at the places of the source, in their order. The text of a command's error is never empty
-- where the source makes it; the auditor's own error is only logged.
use mission.Prelude.{
  ℕ, Bool, Option, none, some, List, [], ◌∷◌, ◌++◌, length, nat_beq, if◌then◌else◌,
}
use mission.Prelude.Text.{Text, codes, is_empty}
use mission.EdgeAgent.Types.{
  ℤ, pos, negsuc, milliseconds_between, QueryError, code_string, ExecutionError, QueryResult,
  SchemaAnswer, ConfigureDatabaseResult, Answer, returned, failed, ControlKind, no_kind, ping,
  execute_query, introspect_schema, configure_database, unknown, ControlMessage, QueryAuditEvent,
  SubmitPingResultRequest, SubmitExecuteQueryResultRequest, SubmitIntrospectSchemaResultRequest,
  SubmitConfigureDatabaseResultRequest, Effect, log_query_event, submit_ping, submit_query,
  submit_schema, submit_config, Handled, submitted, nothing, unsupported,
}

-- The service's collaborators, for one command.
pub record Collaborators : Type 0 where
  pub query_executor : Option (Text → Answer QueryResult ExecutionError)
  pub has_auditor : Bool
  pub schema_introspector : Option (Answer SchemaAnswer Text)
  pub database_configurer : Option (Text → Answer ConfigureDatabaseResult Text)
  pub now : ℕ → ℕ

unfoldable pub record_query_audit : Collaborators → QueryAuditEvent → List Effect
record_query_audit s event = if s.has_auditor then log_query_event event ∷ [] else []

unfoldable pub first_non_empty : List Text → Text
first_non_empty [] = []
first_non_empty (value ∷ values) =
    let rest = first_non_empty values in if is_empty value then rest else value

-- The round trip, from 0 up.
unfoldable pub clamp : ℤ → ℤ
clamp (pos n) = pos n
clamp (negsuc n) = pos 0

unfoldable pub issued_or : ℕ → ℕ → ℕ
issued_or issued now = if nat_beq issued 0 then now else issued

unfoldable pub ping_request : Collaborators → ControlMessage → SubmitPingResultRequest
unfolding clamp issued_or milliseconds_between
ping_request s c =
    let issued = issued_or c.issued_at (s.now 0) in
    record {
      session_id = c.session_id;
      command_id = c.command_id;
      completed_at = s.now 2;
      round_trip_ms = clamp (milliseconds_between issued (s.now 1));
    }

unfoldable pub query_base : ControlMessage → ℕ → SubmitExecuteQueryResultRequest
query_base c at = record {
  session_id = c.session_id;
  command_id = c.command_id;
  completed_at = at;
  columns = [];
  rows = [];
  elapsed_ms = pos 0;
  database_user = [];
  database_name = [];
  error = [];
  error_code = [];
  error_reason = [];
  blocked_constructs = [];
}

unfoldable pub audit_base : ControlMessage → ℕ → QueryAuditEvent
audit_base c at = record {
  completed_at = at;
  session_id = c.session_id;
  command_id = c.command_id;
  sql = c.sql;
  database_user = [];
  database_name = [];
  elapsed_ms = pos 0;
  row_count = 0;
  error_code = [];
  error_reason = [];
  blocked_constructs = [];
}

-- What `errors.As` adds to the request.
unfoldable pub with_query_error :
    Option QueryError → SubmitExecuteQueryResultRequest → SubmitExecuteQueryResultRequest
with_query_error none req = req
with_query_error (some e) req = record req {
  error_code = e.code;
  error_reason = e.reason;
  blocked_constructs = [] ++ e.blocked_constructs;
}

unfoldable pub failed_request :
    Collaborators → ControlMessage → ExecutionError → SubmitExecuteQueryResultRequest
unfolding query_base with_query_error milliseconds_between
failed_request s c e = with_query_error e.query_error (record (query_base c (s.now 1)) {
  elapsed_ms = milliseconds_between (s.now 0) (s.now 1);
  error = e.text;
})

unfoldable pub failed_audit : ControlMessage → SubmitExecuteQueryResultRequest → QueryAuditEvent
unfolding audit_base first_non_empty code_string
failed_audit c req = record (audit_base c req.completed_at) {
  elapsed_ms = req.elapsed_ms;
  error_code = code_string req.error_code;
  error_reason = first_non_empty (req.error_reason ∷ req.error ∷ []);
  blocked_constructs = [] ++ req.blocked_constructs;
}

unfoldable pub returned_request :
    Collaborators → ControlMessage → QueryResult → SubmitExecuteQueryResultRequest
unfolding query_base
returned_request s c r = record (query_base c (s.now 1)) {
  columns = r.columns;
  rows = r.rows;
  elapsed_ms = r.elapsed_ms;
  database_user = r.database_user;
  database_name = r.database_name;
}

unfoldable pub returned_audit : Collaborators → ControlMessage → QueryResult → QueryAuditEvent
unfolding audit_base
returned_audit s c r = record (audit_base c (s.now 1)) {
  database_user = r.database_user;
  database_name = r.database_name;
  elapsed_ms = r.elapsed_ms;
  row_count = length r.rows;
}

unfoldable pub executed :
    Collaborators → ControlMessage → Answer QueryResult ExecutionError → List Effect
unfolding failed_request failed_audit record_query_audit returned_audit returned_request
executed s c (failed e) =
    let req = failed_request s c e in
    record_query_audit s (failed_audit c req) ++ submit_query req ∷ []
executed s c (returned r) =
    record_query_audit s (returned_audit s c r) ++ submit_query (returned_request s c r) ∷ []

abbrev no_executor : Text
no_executor = codes "query executor is not configured"

unfoldable pub refused_request : Collaborators → ControlMessage → SubmitExecuteQueryResultRequest
unfolding query_base
refused_request s c = record (query_base c (s.now 0)) { error = no_executor }

unfoldable pub refused_audit : Collaborators → ControlMessage → QueryAuditEvent
unfolding audit_base
refused_audit s c = record (audit_base c (s.now 0)) { error_reason = no_executor }

unfoldable pub execute_with :
    Collaborators → ControlMessage → Option (Text → Answer QueryResult ExecutionError) → List Effect
unfolding executed refused_audit refused_request
execute_with s c none =
    record_query_audit s (refused_audit s c) ++ submit_query (refused_request s c) ∷ []
execute_with s c (some executor) = executed s c (executor c.sql)

unfoldable pub handle_execute_query : Collaborators → ControlMessage → List Effect
unfolding execute_with
handle_execute_query s c = execute_with s c s.query_executor

unfoldable pub schema_base : ControlMessage → ℕ → Text → SubmitIntrospectSchemaResultRequest
schema_base c at error = record {
  session_id = c.session_id;
  command_id = c.command_id;
  completed_at = at;
  schema = none;
  elapsed_ms = pos 0;
  database_user = [];
  database_name = [];
  error = error;
}

-- The request; the zero blob is `none`.
unfoldable pub introspect_with :
    Collaborators
    → ControlMessage
    → Option (Answer SchemaAnswer Text)
    → SubmitIntrospectSchemaResultRequest
unfolding schema_base milliseconds_between
introspect_with s c none = schema_base c (s.now 0) (codes "schema introspector is not configured")
introspect_with s c (some (failed e)) = record (schema_base c (s.now 1) e) {
  elapsed_ms = milliseconds_between (s.now 0) (s.now 2);
}
introspect_with s c (some (returned r)) = record (schema_base c (s.now 1) []) {
  schema = some r.schema;
  elapsed_ms = r.elapsed_ms;
  database_user = r.database_user;
  database_name = r.database_name;
}

unfoldable pub handle_introspect_schema : Collaborators → ControlMessage → List Effect
unfolding introspect_with
handle_introspect_schema s c = submit_schema (introspect_with s c s.schema_introspector) ∷ []

unfoldable pub config_base : ControlMessage → ℕ → Text → SubmitConfigureDatabaseResultRequest
config_base c at error = record {
  session_id = c.session_id;
  command_id = c.command_id;
  completed_at = at;
  elapsed_ms = pos 0;
  database_user = [];
  database_name = [];
  error = error;
  error_code = [];
}

unfoldable pub configured :
    Collaborators
    → ControlMessage
    → Answer ConfigureDatabaseResult Text
    → SubmitConfigureDatabaseResultRequest
unfolding config_base milliseconds_between
configured s c (failed e) = record (config_base c (s.now 1) e) {
  elapsed_ms = milliseconds_between (s.now 0) (s.now 2);
}
configured s c (returned r) = record (config_base c (s.now 1) r.error) {
  elapsed_ms = r.elapsed_ms;
  database_user = r.database_user;
  database_name = r.database_name;
  error_code = r.error_code;
}

unfoldable pub configure_with :
    Collaborators
    → ControlMessage
    → Option (Text → Answer ConfigureDatabaseResult Text)
    → SubmitConfigureDatabaseResultRequest
unfolding configured config_base
configure_with s c none = config_base c (s.now 0) (codes "database configurer is not configured")
configure_with s c (some configurer) = configured s c (configurer c.dsn)

unfoldable pub handle_configure_database : Collaborators → ControlMessage → List Effect
unfolding configure_with
handle_configure_database s c = submit_config (configure_with s c s.database_configurer) ∷ []

unfoldable pub handle_kind : Collaborators → ControlMessage → ControlKind → List Effect × Handled
unfolding ping_request handle_execute_query handle_introspect_schema handle_configure_database
handle_kind s c no_kind = ([], nothing)
handle_kind s c ping = (submit_ping (ping_request s c) ∷ [], submitted)
handle_kind s c execute_query = (handle_execute_query s c, submitted)
handle_kind s c introspect_schema = (handle_introspect_schema s c, submitted)
handle_kind s c configure_database = (handle_configure_database s c, submitted)
handle_kind s c (unknown k) = ([], unsupported k)

unfoldable pub handle_command : Collaborators → ControlMessage → List Effect × Handled
unfolding handle_kind
handle_command s c = handle_kind s c c.kind
