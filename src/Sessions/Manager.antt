-- ===== src/Sessions/Manager.antt =====
-- Making, finding and closing sessions, of internal/controlplane/controller/agent.go. The mutex
-- makes each method one step; `now` is the clock's reading in it.
use mission.Prelude.{
  ℕ, suc, ◌+◌, Bool, true, false, not, ◌&&◌, Option, none, some, [], leb, ltb, if◌then◌else◌, ◌==◌,
  nat_test, text_test, String,
}
use mission.Prelude.Text.{Text, is_empty}
use mission.Prelude.Dict.{lookup, insert, delete}
use mission.Sessions.Types.{
  ping, execute_query, introspect_schema, configure_database, TenantToken, Failure,
  invalid_session_id, invalid_hostname, session_not_found, session_not_active,
}
use mission.Sessions.Store.{
  AgentSession, Waiter, waiting, Manager, update, set_session, close_waiters,
}

-- `NewAgentSessionManager`: a duration that is not positive is 25 or 5 seconds, in nanoseconds.
abbrev pub or_default : ℕ → ℕ → ℕ
or_default value default = if ltb 0 value then value else default

abbrev pub no_session : AgentSession
no_session = record {
  snapshot = record {
    session_id = [];
    tenant_id = 0;
    token_id = 0;
    token_label = "";
    hostname = [];
    agent_version = "";
    connected_at = 0;
    last_heartbeat_at = 0;
    disconnected_at = none;
    status = "";
  };
  active = false;
  commands = [];
  done = true;
  pending = λ k. [];
}

-- Cells of the store that nothing names yet hold `no_session` and `waiting`.
unfoldable pub new_agent_session_manager : ℕ → ℕ → Manager
new_agent_session_manager stale_after ping_timeout = record {
  stale_after = or_default stale_after 25000000000;
  ping_timeout = or_default ping_timeout 5000000000;
  sessions = λ r. no_session;
  next_session = 0;
  waiters = λ w. waiting;
  next_waiter = 0;
  by_token = [];
  by_id = [];
}

-- `now.Sub(LastHeartbeatAt) <= staleAfter`; a heartbeat may lie in the future.
abbrev pub is_fresh : Manager → ℕ → AgentSession → Bool
is_fresh m now s = leb now (s.snapshot.last_heartbeat_at + m.stale_after)

unfoldable pub is_active_locked : Manager → ℕ → AgentSession → Bool
is_active_locked m now s = s.active && is_fresh m now s

abbrev first_disconnect : Option ℕ → ℕ → Option ℕ
first_disconnect none at = some at
first_disconnect (some t) at = some t

-- The session as `closeSessionLocked` leaves it.
abbrev pub closed_session : ℕ → AgentSession → AgentSession
closed_session at s = record s {
  snapshot =
      if s.active
      then record s.snapshot { disconnected_at = first_disconnect s.snapshot.disconnected_at at }
      else s.snapshot;
  active = false;
  done = true;
  pending = λ k. [];
}

abbrev pub close_pending : AgentSession → (ℕ → Waiter) → ℕ → Waiter
close_pending s ws = close_waiters (s.pending configure_database) (
    close_waiters (s.pending introspect_schema)
      (close_waiters (s.pending execute_query) (close_waiters (s.pending ping) ws)))

unfoldable pub close_session_locked : ℕ → ℕ → Manager → Manager
close_session_locked ref at m =
    let s = m.sessions ref in
    record m {
      sessions = update m.sessions ref (closed_session at s);
      waiters = close_pending s m.waiters;
    }

abbrev pub new_session : TenantToken → Text → Text → String → ℕ → AgentSession
new_session token session_id hostname version now = record {
  snapshot = record {
    session_id = session_id;
    tenant_id = token.tenant_id;
    token_id = token.id;
    token_label = token.label;
    hostname = hostname;
    agent_version = version;
    connected_at = now;
    last_heartbeat_at = now;
    disconnected_at = none;
    status = "online";
  };
  active = true;
  commands = [];
  done = false;
  pending = λ k. [];
}

-- The session that the token had, if any, is closed and its name forgotten.
unfoldable pub replace_existing : Option ℕ → Text → ℕ → Manager → Manager
unfolding close_session_locked
replace_existing none session_id now m = m
replace_existing (some ref) session_id now m =
    let old = (m.sessions ref).snapshot.session_id in
    let c = close_session_locked ref now m in
    if old == session_id then c else record c { by_id = delete old m.by_id }

unfoldable pub add_session : TenantToken → Text → Text → String → ℕ → Manager → Manager
add_session token session_id hostname version now m = record m {
  sessions = update m.sessions m.next_session (new_session token session_id hostname version now);
  next_session = suc m.next_session;
  by_token = insert token.id m.next_session m.by_token;
  by_id = insert session_id m.next_session m.by_id;
}

-- The new state with the session registered, or why it is refused.
pub data Registered : Type 0 where
  registered : ℕ → Registered
  refused : Failure → Registered

unfoldable pub register_session :
    TenantToken → Text → Text → String → ℕ → Manager → Manager × Registered
unfolding replace_existing add_session
register_session token session_id hostname version now m =
    if is_empty session_id
    then (m, refused invalid_session_id)
    else if is_empty hostname
    then (m, refused invalid_hostname)
    else (
      add_session token session_id hostname version now
          (replace_existing (lookup token.id m.by_token) session_id now m),
      registered m.next_session,
    )

-- `sessionLocked`: the session, or why there is none.
pub data Found : Type 0 where
  found : ℕ → Found
  lost : Failure → Found

unfoldable pub session_at : ℕ → ℕ → Manager → Option ℕ → Found
session_at now token_id m none = lost session_not_found
session_at now token_id m (some ref) =
    if not ((m.sessions ref).snapshot.token_id == token_id)
    then lost session_not_found
    else if is_active_locked m now (m.sessions ref)
    then found ref
    else lost session_not_active

unfoldable pub session_locked : ℕ → ℕ → Text → Manager → Found
unfolding session_at is_active_locked
session_locked now token_id session_id m = session_at now token_id m (lookup session_id m.by_id)

unfoldable pub heartbeat_found : ℕ → Manager → Found → Manager × Option Failure
heartbeat_found at m (lost e) = (m, some e)
heartbeat_found at m (found ref) =
    let s = m.sessions ref in
    (set_session ref (record s { snapshot = record s.snapshot { last_heartbeat_at = at } }) m, none)

unfoldable pub mark_heartbeat : ℕ → ℕ → Text → ℕ → Manager → Manager × Option Failure
unfolding heartbeat_found
mark_heartbeat now token_id session_id at m =
    heartbeat_found at m (session_locked now token_id session_id m)

unfoldable pub disconnect_found : Option ℕ → ℕ → Manager → Manager
unfolding close_session_locked
disconnect_found none now m = m
disconnect_found (some ref) now m = close_session_locked ref now m

unfoldable pub disconnect_session : Text → ℕ → Manager → Manager
unfolding disconnect_found
disconnect_session session_id now m = disconnect_found (lookup session_id m.by_id) now m

unfoldable pub disconnect_if : Option ℕ → ℕ → ℕ → Manager → Manager
unfolding close_session_locked
disconnect_if none target now m = m
disconnect_if (some ref) target now m = if ref == target then close_session_locked ref now m else m

-- The `Disconnect` of a stream closes the session it was made for, if that still has its name.
unfoldable pub disconnect_registered_session : Text → ℕ → ℕ → Manager → Manager
unfolding disconnect_if
disconnect_registered_session session_id target now m =
    disconnect_if (lookup session_id m.by_id) target now m
