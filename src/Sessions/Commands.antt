-- ===== src/Sessions/Commands.antt =====
-- Sending commands to sessions and receiving their results, of
-- internal/controlplane/controller/agent.go. A call that issues a command is two steps: the part
-- under the mutex that queues it, and its end, which is the waiter's answer or `ctx.Done()`.
-- `command_id` is what `uuid.NewString` made.
use mission.Prelude.{
  ℕ, suc, Bool, not, ◌&&◌, Option, none, some, List, [], ◌∷◌, ◌++◌, ltb, if◌then◌else◌, ◌==◌,
  nat_test, text_test, String, length,
}
use mission.Prelude.Text.{Text}
use mission.Prelude.Dict.{Dict, lookup, insert, delete}
use mission.Sessions.Types.{
  CommandKind, ping, execute_query, introspect_schema, configure_database, AgentCommand,
  AgentResult, Failure, session_not_found, session_not_active, command_rejected,
  tenant_not_connected,
}
use mission.Sessions.Store.{
  AgentSession, Waiter, waiting, answered, dropped, panic, Manager, update, set_session,
  set_pending, command_capacity,
}
use mission.Sessions.Manager.{is_active_locked}

-- The session and the waiter that were taken for a command, or why it is not sent.
pub data Issued : Type 0 where
  issued : ℕ → ℕ → Issued
  not_issued : Failure → Issued

-- The session with the waiter entered, and the command behind the others or, if the queue is full,
-- the waiter taken out again.
unfoldable pub enqueued : ℕ → AgentCommand → AgentSession → AgentSession
enqueued waiter command s =
    let entered = insert command.command_id waiter (s.pending command.kind) in
    if ltb (length s.commands) command_capacity
    then record (set_pending command.kind entered s) { commands = s.commands ++ command ∷ [] }
    else set_pending command.kind (delete command.command_id entered) s

unfoldable pub enqueue_answer : ℕ → ℕ → AgentSession → Issued
enqueue_answer ref waiter s =
    if ltb (length s.commands) command_capacity
    then issued ref waiter
    else not_issued command_rejected

unfoldable pub enqueue : ℕ → AgentCommand → Manager → Manager × Issued
unfolding enqueued enqueue_answer
enqueue ref command m =
    let s = m.sessions ref in
    (
      record (set_session ref (enqueued m.next_waiter command s) m) {
        waiters = update m.waiters m.next_waiter waiting;
        next_waiter = suc m.next_waiter;
      },
      enqueue_answer ref m.next_waiter s,
    )

-- `command.SessionID = session.snapshot.SessionID`.
unfoldable pub enqueue_for : AgentCommand → Option ℕ → Manager → Manager × Issued
unfolding enqueue
enqueue_for command none m = (m, not_issued tenant_not_connected)
enqueue_for command (some ref) m =
    enqueue ref (record command { session_id = (m.sessions ref).snapshot.session_id }) m

unfoldable pub ping_command : Text → ℕ → ℕ → AgentCommand
ping_command session_id command_id now = record {
  session_id = session_id;
  command_id = command_id;
  issued_at = now;
  kind = ping;
  sql = [];
  dsn = "";
}

unfoldable pub ping_session : AgentCommand → ℕ → Option ℕ → Manager → Manager × Issued
unfolding enqueue is_active_locked
ping_session command now none m = (m, not_issued session_not_found)
ping_session command now (some ref) m =
    if not (is_active_locked m now (m.sessions ref))
    then (m, not_issued session_not_active)
    else enqueue ref command m

unfoldable pub start_ping : Text → ℕ → ℕ → Manager → Manager × Issued
unfolding ping_command ping_session
start_ping session_id command_id now m =
    ping_session (ping_command session_id command_id now) now (lookup session_id m.by_id) m

-- The test of one session in the loop of `activeTenantSessionLocked`, and its choice.
unfoldable pub serves : ℕ → ℕ → Manager → ℕ → Bool
unfolding is_active_locked
serves now tenant_id m ref =
    (m.sessions ref).snapshot.tenant_id == tenant_id && is_active_locked m now (m.sessions ref)

unfoldable pub later : Manager → Option ℕ → ℕ → ℕ
later m none ref = ref
later m (some current) ref =
    if ltb (m.sessions current).snapshot.connected_at (m.sessions ref).snapshot.connected_at
    then ref
    else current

-- The order of the list is the order in which the loop happens to visit the map.
unfoldable pub latest_serving : ℕ → ℕ → Manager → Dict ℕ ℕ → Option ℕ → Option ℕ
unfolding serves later
latest_serving now tenant_id m [] current = current
latest_serving now tenant_id m ((token, ref) ∷ rest) current =
    latest_serving now tenant_id m rest
      (if serves now tenant_id m ref then some (later m current ref) else current)

unfoldable pub active_tenant_session_locked : ℕ → ℕ → Manager → Option ℕ
unfolding latest_serving
active_tenant_session_locked now tenant_id m = latest_serving now tenant_id m m.by_token none

unfoldable pub active_ref : ℕ → Manager → Option ℕ → Option ℕ
unfolding is_active_locked
active_ref now m none = none
active_ref now m (some ref) = if is_active_locked m now (m.sessions ref) then some ref else none

unfoldable pub active_token_session_locked : ℕ → ℕ → Manager → Option ℕ
unfolding active_ref
active_token_session_locked now token_id m = active_ref now m (lookup token_id m.by_token)

unfoldable pub query_command : Text → ℕ → ℕ → AgentCommand
query_command sql command_id now = record {
  session_id = [];
  command_id = command_id;
  issued_at = now;
  kind = execute_query;
  sql = sql;
  dsn = "";
}

unfoldable pub start_execute_query : ℕ → Text → ℕ → ℕ → Manager → Manager × Issued
unfolding enqueue_for active_tenant_session_locked query_command
start_execute_query tenant_id sql command_id now m =
    enqueue_for (query_command sql command_id now) (active_tenant_session_locked now tenant_id m) m

unfoldable pub schema_command : ℕ → ℕ → AgentCommand
schema_command command_id now = record {
  session_id = [];
  command_id = command_id;
  issued_at = now;
  kind = introspect_schema;
  sql = [];
  dsn = "";
}

unfoldable pub start_introspect_schema : ℕ → ℕ → ℕ → Manager → Manager × Issued
unfolding enqueue_for active_tenant_session_locked schema_command
start_introspect_schema tenant_id command_id now m =
    enqueue_for (schema_command command_id now) (active_tenant_session_locked now tenant_id m) m

unfoldable pub config_command : String → ℕ → ℕ → AgentCommand
config_command dsn command_id now = record {
  session_id = [];
  command_id = command_id;
  issued_at = now;
  kind = configure_database;
  sql = [];
  dsn = dsn;
}

unfoldable pub start_configure_database : ℕ → String → ℕ → ℕ → Manager → Manager × Issued
unfolding enqueue_for active_token_session_locked config_command
start_configure_database token_id dsn command_id now m =
    enqueue_for (config_command dsn command_id now) (active_token_session_locked now token_id m) m

-- What the caller gets from its waiter: nothing while it waits, the result, or the error of a
-- session that was closed.
pub data Awaited : Type 0 where
  not_yet : Awaited
  done : AgentResult → Awaited
  failed : Failure → Awaited

unfoldable pub awaited : Waiter → Awaited
awaited waiting = not_yet
awaited (answered r) = done r
awaited dropped = failed session_not_active
awaited panic = not_yet

unfoldable pub await : ℕ → Manager → Awaited
unfolding awaited
await waiter m = awaited (m.waiters waiter)

-- The branch of `ctx.Done()`: the waiter is taken out if the session is still the one of its name.
unfoldable pub expire_at : Option ℕ → ℕ → CommandKind → ℕ → Manager → Manager
expire_at none ref kind command_id m = m
expire_at (some current) ref kind command_id m =
    if current == ref
    then set_session ref
        (set_pending kind (delete command_id ((m.sessions ref).pending kind)) (m.sessions ref)) m
    else m

unfoldable pub expire : Text → ℕ → CommandKind → ℕ → Manager → Manager
unfolding expire_at
expire session_id ref kind command_id m =
    expire_at (lookup session_id m.by_id) ref kind command_id m

-- The stream takes the first command of its queue.
unfoldable pub take_first : ℕ → List AgentCommand → Manager → Manager × Option AgentCommand
take_first ref [] m = (m, none)
take_first ref (command ∷ rest) m =
    (set_session ref (record (m.sessions ref) { commands = rest }) m, some command)

unfoldable pub receive_command : ℕ → Manager → Manager × Option AgentCommand
unfolding take_first
receive_command ref m = take_first ref (m.sessions ref).commands m
