-- ===== src/Sessions/Reachable.antt =====
-- Every state of the session manager of internal/controlplane/controller/agent.go, as what any
-- sequence of its methods, in the order in which they take the mutex, leads to.
use mission.Prelude.{ℕ, ◌≡◌, refl, sym, ap, ◌∙◌, true, some_inj, nat_test, String, arith}
use mission.Prelude.Text.{Text}
use mission.Prelude.Dict.{lookup}
use mission.Sessions.Types.{CommandKind, AgentResult, TenantToken}
use mission.Sessions.Store.{Manager}
use mission.Sessions.Manager.{
  new_agent_session_manager, mark_heartbeat, disconnect_session, disconnect_registered_session,
  register_session,
}
use mission.Sessions.Commands.{
  start_ping, start_execute_query, start_introspect_schema, start_configure_database, expire,
  receive_command,
}
use mission.Sessions.Results.{submit}
use mission.Sessions.Valid.{shut, IsValid}
use mission.Sessions.Preservation.{
  submit-IsValid, mark_heartbeat-IsValid, disconnect_session-IsValid,
  disconnect_registered_session-IsValid,
}
use mission.Sessions.Issuing.{
  start_ping-IsValid, start_execute_query-IsValid, start_introspect_schema-IsValid,
  start_configure_database-IsValid, expire-IsValid, receive_command-IsValid,
}
use mission.Sessions.Registering.{register_session-IsValid}

-- One method, or one part of a method between two takings of the mutex. Arguments are arbitrary: a
-- caller may submit, give up or disconnect what it has no right to.
pub data Step (m : Manager) : Manager → Type 0 where
  register :
      (token : TenantToken) (name host : Text) (version : String) (now : ℕ)
      → Step m (register_session token name host version now m).0
  heartbeat : (now token : ℕ) (name : Text) (at : ℕ) → Step m (mark_heartbeat now token name at m).0
  send_ping : (name : Text) (c now : ℕ) → Step m (start_ping name c now m).0
  send_query :
      (tenant : ℕ) (sql : Text) (c now : ℕ) → Step m (start_execute_query tenant sql c now m).0
  send_introspection : (tenant c now : ℕ) → Step m (start_introspect_schema tenant c now m).0
  send_configuration :
      (token : ℕ) (dsn : String) (c now : ℕ) → Step m (start_configure_database token dsn c now m).0
  submit_result :
      (k : CommandKind) (now token : ℕ) (name : Text) (c : ℕ) (r : AgentResult)
      → Step m (submit k now token name c r m).0
  give_up : (name : Text) (ref : ℕ) (k : CommandKind) (c : ℕ) → Step m (expire name ref k c m)
  receive : (ref : ℕ) → Step m (receive_command ref m).0
  disconnect : (name : Text) (now : ℕ) → Step m (disconnect_session name now m)
  disconnect_stream :
      (name : Text) (ref now : ℕ) → Step m (disconnect_registered_session name ref now m)

pub data Reachable : Manager → Type 0 where
  start :
      (stale_after ping_timeout : ℕ)
      → Reachable (new_agent_session_manager stale_after ping_timeout)
  step : {m n : Manager} → Reachable m → Step m n → Reachable n

new_agent_session_manager-IsValid : (s p : ℕ) → IsValid (new_agent_session_manager s p)
unfolding new_agent_session_manager lookup
new_agent_session_manager-IsValid s p = record {
  tokens = λ token ref h. ground (arith, h);
  names = λ name ref h. ground (arith, h);
  current = λ ref h. ground (arith, h);
  liveness = λ ref. shut refl refl (λ k. refl);
  queues = λ ref. omega arith;
}

Step-IsValid : (m n : Manager) → Step m n → IsValid m → IsValid n
Step-IsValid m _ (register token name host version now) v =
    register_session-IsValid token name host version now m v
Step-IsValid m _ (heartbeat now token name at) v = mark_heartbeat-IsValid now token name at m v
Step-IsValid m _ (send_ping name c now) v = start_ping-IsValid name c now m v
Step-IsValid m _ (send_query tenant sql c now) v = start_execute_query-IsValid tenant sql c now m v
Step-IsValid m _ (send_introspection tenant c now) v =
    start_introspect_schema-IsValid tenant c now m v
Step-IsValid m _ (send_configuration token dsn c now) v =
    start_configure_database-IsValid token dsn c now m v
Step-IsValid m _ (submit_result k now token name c r) v = submit-IsValid k now token name c r m v
Step-IsValid m _ (give_up name ref k c) v = expire-IsValid name ref k c m v
Step-IsValid m _ (receive ref) v = receive_command-IsValid ref m v
Step-IsValid m _ (disconnect name now) v = disconnect_session-IsValid name now m v
Step-IsValid m _ (disconnect_stream name ref now) v =
    disconnect_registered_session-IsValid name ref now m v

-- In every state that the methods lead to, with any arguments and in any order: `byToken` and `byID`
-- name sessions that were registered, under their own token and name; an active session is the one
-- of its token; a session is open, or its stream is closed and nobody waits for it; and no queue
-- holds more than 16 commands.
pub Reachable-IsValid : (m : Manager) → Reachable m → IsValid m
Reachable-IsValid _ (start s p) = new_agent_session_manager-IsValid s p
Reachable-IsValid n (step {m} r s) = Step-IsValid m n s (Reachable-IsValid m r)

-- In every state that the methods lead to, no two sessions of one token are active.
pub one_active_session_per_token :
    (m : Manager)
    → Reachable m
    → (a b : ℕ) → (m.sessions a).active ≡ true
    → (m.sessions b).active ≡ true
    → (m.sessions a).snapshot.token_id ≡ (m.sessions b).snapshot.token_id
    → a ≡ b
one_active_session_per_token m r a b ha hb t = some_inj (
    sym ((Reachable-IsValid m r).current a ha)
    ∙ ap (λ k. lookup k m.by_token) t
    ∙ (Reachable-IsValid m r).current b hb)
