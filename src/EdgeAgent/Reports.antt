-- ===== src/EdgeAgent/Reports.antt =====
-- What the control plane and the audit log are told of a command, of
-- internal/edgeagent/controller/agent.go.
use mission.Prelude.{
  ℕ, zero, suc, ap, ◌∙◌, ◌≡◌, refl, ◌-◌, ◌/◌, ◌⊎◌, inl, inr, Bool, true, false, Option, none, some,
  List, [], ◌∷◌, ◌++◌, length, leb, nat_beq, if◌then◌else◌, arith, Bool-cases,
}
use mission.Prelude.Text.{Text}
use mission.EdgeAgent.Types.{
  pos, milliseconds_between, nanoseconds, neg, SchemaAnswer, ConfigureDatabaseResult, QueryError,
  ExecutionError, QueryResult, Answer, returned, failed, ControlKind, no_kind, ping, execute_query,
  introspect_schema, configure_database, unknown, ControlMessage, QueryAuditEvent,
  SubmitExecuteQueryResultRequest, Effect, log_query_event, submit_ping, submit_query,
  submit_schema, submit_config, submitted, nothing, unsupported,
}
use mission.EdgeAgent.Commands.{
  Collaborators, record_query_audit, first_non_empty, clamp, issued_or, ping_request, execute_with,
  executed, returned_audit, returned_request, refused_audit, refused_request, failed_request,
  failed_audit, with_query_error, handle_execute_query, introspect_with, handle_introspect_schema,
  configure_with, configured, schema_base, config_base, handle_configure_database, handle_kind,
  handle_command,
}

-- The audit event and the report of a query say the same of it.
pub record Agree (c : ControlMessage) (e : QueryAuditEvent) (req : SubmitExecuteQueryResultRequest)
    : Type 0 where
  pub event_session : e.session_id ≡ c.session_id
  pub event_command : e.command_id ≡ c.command_id
  pub event_sql : e.sql ≡ c.sql
  pub report_session : req.session_id ≡ c.session_id
  pub report_command : req.command_id ≡ c.command_id
  pub time : e.completed_at ≡ req.completed_at
  pub elapsed : e.elapsed_ms ≡ req.elapsed_ms
  pub rows : e.row_count ≡ length req.rows
  pub user : e.database_user ≡ req.database_user
  pub database : e.database_name ≡ req.database_name
  pub blocked : e.blocked_constructs ≡ req.blocked_constructs
  pub reason : e.error_reason ≡ first_non_empty (req.error_reason ∷ req.error ∷ [])

pub data Logged (c : ControlMessage) : Bool → List Effect → Type 0 where
  audited :
      {e : QueryAuditEvent} {req : SubmitExecuteQueryResultRequest}
      → Agree c e req
      → Logged c true (log_query_event e ∷ submit_query req ∷ [])
  unaudited :
      {req : SubmitExecuteQueryResultRequest}
      → req.session_id ≡ c.session_id
      → req.command_id ≡ c.command_id
      → Logged c false (submit_query req ∷ [])

logs :
    (s : Collaborators) (c : ControlMessage) (e : QueryAuditEvent)
    (req : SubmitExecuteQueryResultRequest) (b : Bool)
    → s.has_auditor ≡ b
    → Agree c e req
    → Logged c b (record_query_audit s e ++ submit_query req ∷ [])
unfolding record_query_audit
logs s c e req true h a = rw h (audited a)
logs s c e req false h a = rw h (unaudited a.report_session a.report_command)

failed-Agree :
    (s : Collaborators) (c : ControlMessage) (text : Text) (q : Option QueryError)
    → Agree c
        (failed_audit c (failed_request s c (record { text = text; query_error = q })))
        (failed_request s c (record { text = text; query_error = q }))
unfolding failed_audit failed_request with_query_error first_non_empty
failed-Agree s c text none = record {
  event_session = refl;
  event_command = refl;
  event_sql = refl;
  report_session = refl;
  report_command = refl;
  time = refl;
  elapsed = refl;
  rows = refl;
  user = refl;
  database = refl;
  blocked = refl;
  reason = refl;
}
failed-Agree s c text (some e) = record {
  event_session = refl;
  event_command = refl;
  event_sql = refl;
  report_session = refl;
  report_command = refl;
  time = refl;
  elapsed = refl;
  rows = refl;
  user = refl;
  database = refl;
  blocked = refl;
  reason = refl;
}

executed-Logged :
    (s : Collaborators) (c : ControlMessage) (a : Answer QueryResult ExecutionError)
    → Logged c s.has_auditor (executed s c a)
unfolding executed returned_audit returned_request first_non_empty
executed-Logged s c (failed e) =
    logs s c (failed_audit c (failed_request s c e)) (failed_request s c e) s.has_auditor refl
      (failed-Agree s c e.text e.query_error)
executed-Logged s c (returned r) =
    logs s c (returned_audit s c r) (returned_request s c r) s.has_auditor refl (record {
      event_session = refl;
      event_command = refl;
      event_sql = refl;
      report_session = refl;
      report_command = refl;
      time = refl;
      elapsed = refl;
      rows = refl;
      user = refl;
      database = refl;
      blocked = refl;
      reason = refl;
    })

execute_with-Logged :
    (s : Collaborators) (c : ControlMessage) (o : Option (Text → Answer QueryResult ExecutionError))
    → Logged c s.has_auditor (execute_with s c o)
unfolding execute_with refused_audit refused_request first_non_empty
execute_with-Logged s c none =
    logs s c (refused_audit s c) (refused_request s c) s.has_auditor refl (record {
      event_session = refl;
      event_command = refl;
      event_sql = refl;
      report_session = refl;
      report_command = refl;
      time = refl;
      elapsed = refl;
      rows = refl;
      user = refl;
      database = refl;
      blocked = refl;
      reason = refl;
    })
execute_with-Logged s c (some x) = executed-Logged s c (x c.sql)

-- Whatever the executor answers, and without one too: with an auditor exactly one event is logged for
-- a query, before its one report, and both have the command's ids and agree on the times, the rows, the
-- database, the blocked constructs and the reason of an error; without an auditor there is the report.
pub handle_execute_query-Logged :
    (s : Collaborators) (c : ControlMessage) → Logged c s.has_auditor (handle_execute_query s c)
unfolding handle_execute_query
handle_execute_query-Logged s c = execute_with-Logged s c s.query_executor

-- The ids of the reports among the effects.
abbrev pub reports : List Effect → List (Text × Text)
reports [] = []
reports (log_query_event e ∷ rest) = reports rest
reports (submit_ping r ∷ rest) = (r.session_id, r.command_id) ∷ reports rest
reports (submit_query r ∷ rest) = (r.session_id, r.command_id) ∷ reports rest
reports (submit_schema r ∷ rest) = (r.session_id, r.command_id) ∷ reports rest
reports (submit_config r ∷ rest) = (r.session_id, r.command_id) ∷ reports rest

Logged-reports :
    (c : ControlMessage) (b : Bool) (es : List Effect)
    → Logged c b es
    → reports es ≡ (c.session_id, c.command_id) ∷ []
Logged-reports c _ _ (audited {e} {req} a) = rw (a.report_session, a.report_command) refl
Logged-reports c _ _ (unaudited {req} p q) = rw (p, q) refl

introspect-ids :
    (s : Collaborators) (c : ControlMessage) (o : Option (Answer SchemaAnswer Text))
    → ((introspect_with s c o).session_id ≡ c.session_id)
      × ((introspect_with s c o).command_id ≡ c.command_id)
unfolding introspect_with schema_base
introspect-ids s c none = (refl, refl)
introspect-ids s c (some (failed e)) = (refl, refl)
introspect-ids s c (some (returned r)) = (refl, refl)

configured-ids :
    (s : Collaborators) (c : ControlMessage) (a : Answer ConfigureDatabaseResult Text)
    → ((configured s c a).session_id ≡ c.session_id)
      × ((configured s c a).command_id ≡ c.command_id)
unfolding configured config_base
configured-ids s c (failed e) = (refl, refl)
configured-ids s c (returned r) = (refl, refl)

configure-ids :
    (s : Collaborators) (c : ControlMessage)
    (o : Option (Text → Answer ConfigureDatabaseResult Text))
    → ((configure_with s c o).session_id ≡ c.session_id)
      × ((configure_with s c o).command_id ≡ c.command_id)
unfolding configure_with configured config_base
configure-ids s c none = (refl, refl)
configure-ids s c (some f) = configured-ids s c (f c.dsn)

introspect-reports :
    (s : Collaborators) (c : ControlMessage)
    → reports (handle_introspect_schema s c) ≡ (c.session_id, c.command_id) ∷ []
unfolding handle_introspect_schema
introspect-reports s c = let p = introspect-ids s c s.schema_introspector in rw (p.0, p.1) refl

configure-reports :
    (s : Collaborators) (c : ControlMessage)
    → reports (handle_configure_database s c) ≡ (c.session_id, c.command_id) ∷ []
unfolding handle_configure_database
configure-reports s c = let p = configure-ids s c s.database_configurer in rw (p.0, p.1) refl

kind-reports :
    (s : Collaborators) (c : ControlMessage) (k : ControlKind)
    → (((handle_kind s c k).1 ≡ submitted)
        × (reports (handle_kind s c k).0 ≡ (c.session_id, c.command_id) ∷ []))
      ⊎ (((k ≡ no_kind) × (handle_kind s c k ≡ ([], nothing)))
          ⊎ ((u : Text) × ((k ≡ unknown u) × (handle_kind s c k ≡ ([], unsupported u)))))
unfolding handle_kind ping_request
kind-reports s c no_kind = inr (inl (refl, refl))
kind-reports s c ping = inl (refl, refl)
kind-reports s c execute_query =
    inl (refl, Logged-reports c s.has_auditor _ (handle_execute_query-Logged s c))
kind-reports s c introspect_schema = inl (refl, introspect-reports s c)
kind-reports s c configure_database = inl (refl, configure-reports s c)
kind-reports s c (unknown u) = inr (inr (u, (refl, refl)))

-- A command of a known kind gets exactly one report, under its own session and command ids, whatever
-- the collaborators answer and whichever of them are missing. A command without a kind and one of an
-- unknown kind have no effect at all, and the unknown kind ends in an error that names it.
pub handle_command-reports :
    (s : Collaborators) (c : ControlMessage)
    → (((handle_command s c).1 ≡ submitted)
        × (reports (handle_command s c).0 ≡ (c.session_id, c.command_id) ∷ []))
      ⊎ (((c.kind ≡ no_kind) × (handle_command s c ≡ ([], nothing)))
          ⊎ ((u : Text) × ((c.kind ≡ unknown u) × (handle_command s c ≡ ([], unsupported u)))))
unfolding handle_command
handle_command-reports s c = kind-reports s c c.kind

clamp-neg : (k : ℕ) → clamp (neg k) ≡ pos 0
unfolding clamp
clamp-neg zero = refl
clamp-neg (suc k) = refl

clamp_between : (a b : ℕ) → clamp (milliseconds_between a b) ≡ pos ((b - a) / nanoseconds)
unfolding milliseconds_between clamp
clamp_between a b = elim (Bool-cases (leb a b)) [
  | inl h ↦ rw h refl
  | inr h ↦ rw h (clamp-neg ((a - b) / nanoseconds) ∙ ap pos (ground arith))
]

-- The round trip that a ping reports is the whole milliseconds from the issue, or from the first
-- reading of the clock if there is no time of issue, to the next reading, and 0 if the clock went back.
pub ping_request-round_trip :
    (s : Collaborators) (c : ControlMessage)
    → (ping_request s c).round_trip_ms
      ≡ pos ((s.now 1 - (if nat_beq c.issued_at 0 then s.now 0 else c.issued_at)) / nanoseconds)
unfolding ping_request issued_or
ping_request-round_trip s c = clamp_between _ (s.now 1)
