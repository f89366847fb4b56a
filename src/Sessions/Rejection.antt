-- ===== src/Sessions/Rejection.antt =====
-- Commands for a session whose queue is full, of internal/controlplane/controller/agent.go.
use mission.Prelude.{
  ℕ, ◌≡◌, refl, false, ◌&&◌, none, some, arith, ltb, length, if◌then◌else◌, ◌==◌, nat_test,
  text_test, beq_self,
}
use mission.Prelude.Text.{Text}
use mission.Prelude.Dict.{lookup, insert, delete, lookup-delete, lookup-insert}
use mission.Sessions.Types.{
  CommandKind, ping, introspect_schema, configure_database, execute_query, command_rejected,
}
use mission.Sessions.Store.{AgentSession, Manager, command_capacity, same_kind}
use mission.Sessions.Commands.{
  enqueued, enqueue, enqueue_for, enqueue_answer, start_execute_query, query_command,
  active_tenant_session_locked, not_issued,
}

withdrawn :
    (w c : ℕ) (s : AgentSession) (k : CommandKind) (j : ℕ)
    → lookup j (
        if same_kind execute_query k
        then delete c (insert c w (s.pending execute_query))
        else s.pending k)
      ≡ (if same_kind execute_query k && (c == j) then none else lookup j (s.pending k))
withdrawn w c s execute_query j = ground (
  arith,
  lookup-delete c j (insert c w (s.pending execute_query)),
  lookup-insert c j w (s.pending execute_query),
)
withdrawn w c s ping j = refl
withdrawn w c s introspect_schema j = refl
withdrawn w c s configure_database j = refl

-- `ExecuteQuery` on a tenant whose chosen session has a full queue fails with ErrCommandRejected, leaves
-- the queue as it was, and leaves nobody waiting for the command while every other waiter of the
-- session stays.
pub start_execute_query-full :
    (tenant : ℕ) (sql : Text) (c now ref : ℕ) (m : Manager) (k : CommandKind) (j : ℕ)
    → active_tenant_session_locked now tenant m ≡ some ref
    → ltb (length (m.sessions ref).commands) command_capacity ≡ false
    → ((start_execute_query tenant sql c now m).1 ≡ not_issued command_rejected)
      × ((((start_execute_query tenant sql c now m).0.sessions ref).commands
            ≡ (m.sessions ref).commands)
          × (lookup j (((start_execute_query tenant sql c now m).0.sessions ref).pending k) ≡ (
              if same_kind execute_query k && (c == j)
              then none
              else lookup j ((m.sessions ref).pending k))))
unfolding start_execute_query enqueue_for query_command enqueue enqueued enqueue_answer
start_execute_query-full tenant sql c now ref m k j chosen full =
    rw (chosen, beq_self ref, full) (refl, (refl, withdrawn m.next_waiter c (m.sessions ref) k j))
