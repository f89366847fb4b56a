-- ===== src/Sessions/Exchange.antt =====
-- Commands and their results from end to end, of internal/controlplane/controller/agent.go.
use mission.Prelude.{
  ℕ, ◌≡◌, refl, subst, String, true, none, some, length, nat_test, text_test, beq_self, ltb,
}
use mission.Prelude.Text.{Text}
use mission.Prelude.Dict.{lookup}
use mission.Sessions.Types.{CommandKind, ping, AgentCommand, AgentResult, command_not_found}
use mission.Sessions.Store.{waiting, Manager, command_capacity}
use mission.Sessions.Manager.{is_active_locked}
use mission.Sessions.Commands.{
  enqueue, enqueued, enqueue_answer, start_ping, ping_session, ping_command, await, done, issued,
}
use mission.Sessions.Results.{submit, deliver}
use mission.Sessions.Commands.{
  start_execute_query, start_configure_database, query_command, config_command, enqueue_for,
  active_tenant_session_locked, active_token_session_locked,
}
use mission.Sessions.Types.{execute_query, configure_database}
use mission.Sessions.Delivery.{enqueued-pending, submit-pending, deliver-await, deliver-submit}

-- In state `m` a result for the command is taken, and is what the waiter of the command gets; another
-- result for the command is refused from then on.
pub record AnsweredOnce (k : CommandKind) (now token : ℕ) (name : Text) (c waiter : ℕ)
    (r again : AgentResult) (m : Manager) : Type 0 where
  pub taken : (submit k now token name c r m).1 ≡ none
  pub got : await waiter (submit k now token name c r m).0 ≡ done r
  pub once :
      (submit k now token name c again (submit k now token name c r m).0).1 ≡ some command_not_found

-- A command that is queued for a session known under the command's own name.
module _ (ref : ℕ) (c : AgentCommand) (m : Manager) (later : ℕ)
    (room : ltb (length (m.sessions ref).commands) command_capacity ≡ true)
    (named : lookup c.session_id m.by_id ≡ some ref)
    (a : is_active_locked m later (m.sessions ref) ≡ true) where
  sent : Manager
  unfolding enqueue
  sent = (enqueue ref c m).0

  sent-session : sent.sessions ref ≡ enqueued m.next_waiter c (m.sessions ref)
  unfolding sent enqueue
  sent-session = rw (beq_self ref) refl

  sent-active : is_active_locked sent later (sent.sessions ref) ≡ true
  unfolding sent enqueue is_active_locked enqueued
  sent-active = rw (beq_self ref, room) a

  sent-token : (sent.sessions ref).snapshot.token_id ≡ (m.sessions ref).snapshot.token_id
  unfolding sent enqueue enqueued
  sent-token = rw (beq_self ref, room) refl

  sent-pending : lookup c.command_id ((sent.sessions ref).pending c.kind) ≡ some m.next_waiter
  sent-pending = rw sent-session (enqueued-pending m.next_waiter c (m.sessions ref) room)

  sent-waiter : sent.waiters m.next_waiter ≡ waiting
  unfolding sent enqueue
  sent-waiter = rw (beq_self m.next_waiter) refl

  sent-named : lookup c.session_id sent.by_id ≡ some ref
  unfolding sent enqueue
  sent-named = named

  sent-submit :
      (r : AgentResult)
      → submit c.kind later (m.sessions ref).snapshot.token_id c.session_id c.command_id r sent
        ≡ (deliver ref c.kind c.command_id m.next_waiter r sent, none)
  sent-submit r =
      subst
        (λ t.
          submit c.kind later t c.session_id c.command_id r sent
          ≡ (deliver ref c.kind c.command_id m.next_waiter r sent, none))
        sent-token
        (submit-pending c.kind later c.session_id c.command_id r sent ref m.next_waiter sent-named
          sent-active sent-pending)

  sent-issued : (enqueue ref c m).1 ≡ issued ref m.next_waiter
  unfolding enqueue enqueue_answer
  sent-issued = rw room refl

  sent-answered :
      (r again : AgentResult)
      → AnsweredOnce c.kind later
          (m.sessions ref).snapshot.token_id
          c.session_id
          c.command_id
          m.next_waiter
          r
          again
          (enqueue ref c m).0
  unfolding sent
  sent-answered r again = record {
    taken = rw (sent-submit r) refl;
    got = rw (sent-submit r) (
        deliver-await c.kind later c.session_id c.command_id r sent ref m.next_waiter sent-named
          sent-active sent-pending sent-waiter);
    once = rw (sent-submit r) (
        subst
          (λ t.
            (submit c.kind later t c.session_id c.command_id again
              (deliver ref c.kind c.command_id m.next_waiter r sent)).1
            ≡ some command_not_found)
          sent-token
          (deliver-submit c.kind later c.session_id c.command_id r sent ref m.next_waiter sent-named
            sent-active sent-pending again));
  }

-- `Ping` of the session that `byID` has under the name, active at that time and with fewer than 16
-- commands queued, is sent to that session; and if the session is active when its token reports a
-- result for the ping, the report is taken, the caller gets exactly that result, and a second report
-- is refused.
pub start_ping-answered :
    (name : Text) (c now later ref : ℕ) (m : Manager) (r again : AgentResult)
    → lookup name m.by_id ≡ some ref
    → is_active_locked m now (m.sessions ref) ≡ true
    → is_active_locked m later (m.sessions ref) ≡ true
    → ltb (length (m.sessions ref).commands) command_capacity ≡ true
    → ((start_ping name c now m).1 ≡ issued ref m.next_waiter)
      × AnsweredOnce ping later
          (m.sessions ref).snapshot.token_id
          name
          c
          m.next_waiter
          r
          again
          (start_ping name c now m).0
unfolding start_ping ping_session ping_command
start_ping-answered name c now later ref m r again n a b room =
    rw (n, a)
      (
        sent-issued ref (ping_command name c now) m later room n b,
        sent-answered ref (ping_command name c now) m later room n b r again,
      )

-- `ExecuteQuery` for a tenant goes to the session that `activeTenantSessionLocked` chooses. If that
-- session has fewer than 16 commands queued and `byID` has it under its own name, then while it is
-- active its token's report of a result is taken, the caller gets exactly that result, and a second
-- report is refused.
pub start_execute_query-answered :
    (tenant : ℕ) (sql : Text) (c now later ref : ℕ) (m : Manager) (r again : AgentResult)
    → active_tenant_session_locked now tenant m ≡ some ref
    → lookup (m.sessions ref).snapshot.session_id m.by_id ≡ some ref
    → is_active_locked m later (m.sessions ref) ≡ true
    → ltb (length (m.sessions ref).commands) command_capacity ≡ true
    → ((start_execute_query tenant sql c now m).1 ≡ issued ref m.next_waiter)
      × AnsweredOnce execute_query later
          (m.sessions ref).snapshot.token_id
          (m.sessions ref).snapshot.session_id
          c
          m.next_waiter
          r
          again
          (start_execute_query tenant sql c now m).0
unfolding start_execute_query enqueue_for query_command
start_execute_query-answered tenant sql c now later ref m r again found_ref n b room =
    rw found_ref (
      sent-issued ref (sent_command (query_command sql c now)) m later room n b,
      sent-answered ref (sent_command (query_command sql c now)) m later room n b r again,
    )
  where
    sent_command : AgentCommand → AgentCommand
    sent_command q = record q { session_id = (m.sessions ref).snapshot.session_id }

-- `ConfigureDatabase` for a token goes to the active session of the token. If that session has fewer
-- than 16 commands queued and `byID` has it under its own name, then while it is active its token's
-- report of a result is taken, the caller gets exactly that result, and a second report is refused.
pub start_configure_database-answered :
    (token : ℕ) (dsn : String) (c now later ref : ℕ) (m : Manager) (r again : AgentResult)
    → active_token_session_locked now token m ≡ some ref
    → lookup (m.sessions ref).snapshot.session_id m.by_id ≡ some ref
    → is_active_locked m later (m.sessions ref) ≡ true
    → ltb (length (m.sessions ref).commands) command_capacity ≡ true
    → ((start_configure_database token dsn c now m).1 ≡ issued ref m.next_waiter)
      × AnsweredOnce configure_database later
          (m.sessions ref).snapshot.token_id
          (m.sessions ref).snapshot.session_id
          c
          m.next_waiter
          r
          again
          (start_configure_database token dsn c now m).0
unfolding start_configure_database enqueue_for config_command
start_configure_database-answered token dsn c now later ref m r again found_ref n b room =
    rw found_ref (
      sent-issued ref (sent_command (config_command dsn c now)) m later room n b,
      sent-answered ref (sent_command (config_command dsn c now)) m later room n b r again,
    )
  where
    sent_command : AgentCommand → AgentCommand
    sent_command q = record q { session_id = (m.sessions ref).snapshot.session_id }
