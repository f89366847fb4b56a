-- ===== src/Sessions/Tests.antt =====
-- The session manager's theorems at concrete states: two tokens of one tenant, their sessions, and a
-- queue that is full.
use mission.Prelude.{
  ℕ, zero, suc, ◌≡◌, refl, none, List, [], ◌∷◌, All, nat_test, text_test, ◌&&◌, if◌then◌else◌,
  nat_beq,
}
use mission.Prelude.Text.{codes}
use mission.Prelude.Dict.{lookup, insert}
use mission.Prelude.Equality.{text_beq}
use mission.Sessions.Types.{
  TenantToken, AgentResult, ping_result, AgentCommand, ping, execute_query, command_rejected,
}
use mission.Sessions.Store.{Manager, same_kind}
use mission.Sessions.Manager.{
  new_agent_session_manager, register_session, session_locked, is_active_locked,
}
use mission.Sessions.Commands.{
  start_execute_query, active_tenant_session_locked, active_token_session_locked, issued,
  not_issued,
}
use mission.Sessions.Results.{submit}
use mission.Sessions.Valid.{IsValid}
use mission.Sessions.Reachable.{
  Reachable, start, step, register, Reachable-IsValid, one_active_session_per_token,
}
use mission.Sessions.Exchange.{AnsweredOnce, start_execute_query-answered}
use mission.Sessions.Selection.{Chosen, Latest, active_tenant_session_locked-Latest}
use mission.Sessions.Authority.{Verdict, submit-Verdict}
use mission.Sessions.Rejection.{start_execute_query-full}

abbrev token_a : TenantToken
token_a = record { id = 1; tenant_id = 7; label = "a" }

abbrev token_b : TenantToken
token_b = record { id = 2; tenant_id = 7; label = "b" }

abbrev empty_manager : Manager
unfolding new_agent_session_manager
empty_manager = new_agent_session_manager 0 0

-- Token 1 registers s1, then token 2 registers s1 too.
abbrev with_a : Manager
unfolding register_session
with_a = (register_session token_a (codes "s1") (codes "host") "1" 100 empty_manager).0

abbrev with_both : Manager
unfolding register_session
with_both = (register_session token_b (codes "s1") (codes "host") "1" 200 with_a).0

with_a_at : Reachable with_a
unfolding register_session with_a new_agent_session_manager empty_manager
with_a_at = step (start 0 0) (register token_a (codes "s1") (codes "host") "1" 100)

with_both_at : Reachable with_both
unfolding register_session with_both
with_both_at = step with_a_at (register token_b (codes "s1") (codes "host") "1" 200)

abbrev pong : AgentResult
pong =
    ping_result
      (record { session_id = codes "s1"; command_id = 5; completed_at = 300; round_trip_ms = 3 })

Reachable-IsValid_example : IsValid with_both
unfolding with_both with_a empty_manager register_session new_agent_session_manager lookup insert
    text_beq is_active_locked active_tenant_session_locked active_token_session_locked
    session_locked
Reachable-IsValid_example = Reachable-IsValid with_both with_both_at

one_active_session_per_token_example : ◌≡◌ {A = ℕ} 1 1
unfolding with_both with_a empty_manager register_session new_agent_session_manager lookup insert
    text_beq is_active_locked active_tenant_session_locked active_token_session_locked
    session_locked
one_active_session_per_token_example =
    one_active_session_per_token with_both with_both_at 1 1 refl refl refl

start_execute_query-answered_example :
    ((start_execute_query 7 (codes "SELECT 1") 5 300 with_both).1 ≡ issued 1 0)
    × AnsweredOnce execute_query 310 2
        (codes "s1")
        5
        0
        pong
        pong
        (start_execute_query 7 (codes "SELECT 1") 5 300 with_both).0
unfolding with_both with_a empty_manager register_session new_agent_session_manager lookup insert
    text_beq is_active_locked active_tenant_session_locked active_token_session_locked
    session_locked
start_execute_query-answered_example =
    start_execute_query-answered 7 (codes "SELECT 1") 5 300 310 1 with_both pong pong refl refl refl
      refl

active_tenant_session_locked-Latest_example :
    Chosen 300 7 with_both with_both.by_token (active_tenant_session_locked 300 7 with_both)
    × All
        (λ e. Latest 300 7 with_both e.1 (active_tenant_session_locked 300 7 with_both))
        with_both.by_token
unfolding with_both with_a empty_manager register_session new_agent_session_manager lookup insert
    text_beq is_active_locked active_tenant_session_locked active_token_session_locked
    session_locked
active_tenant_session_locked-Latest_example = active_tenant_session_locked-Latest 300 7 with_both

submit-Verdict_example :
    Verdict ping 310 2
      (codes "s1")
      5
      pong
      with_both
      (submit ping 310 2 (codes "s1") 5 pong with_both)
unfolding with_both with_a empty_manager register_session new_agent_session_manager lookup insert
    text_beq is_active_locked active_tenant_session_locked active_token_session_locked
    session_locked
submit-Verdict_example = submit-Verdict ping 310 2 (codes "s1") 5 pong with_both

abbrev idle_queue : ℕ → List AgentCommand
idle_queue zero = []
idle_queue (suc n) =
    (record {
      session_id = codes "s1";
      command_id = n;
      issued_at = 250;
      kind = execute_query;
      sql = codes "SELECT 1";
      dsn = "";
    })
    ∷ idle_queue n

abbrev crowded : Manager
unfolding register_session
crowded = record with_both {
  sessions = λ r. record (with_both.sessions r) { commands = idle_queue 16 };
}

start_execute_query-full_example :
    ((start_execute_query 7 (codes "SELECT 1") 99 300 crowded).1 ≡ not_issued command_rejected)
    × ((((start_execute_query 7 (codes "SELECT 1") 99 300 crowded).0.sessions 1).commands
          ≡ (crowded.sessions 1).commands)
        × (lookup 99 (
              ((start_execute_query 7 (codes "SELECT 1") 99 300 crowded).0.sessions 1).pending
                execute_query)
            ≡ (if same_kind execute_query execute_query && nat_beq 99 99
                then none
                else lookup 99 ((crowded.sessions 1).pending execute_query))))
unfolding with_both with_a empty_manager register_session new_agent_session_manager lookup insert
    text_beq is_active_locked active_tenant_session_locked active_token_session_locked
    session_locked crowded
start_execute_query-full_example =
    start_execute_query-full 7 (codes "SELECT 1") 99 300 1 crowded execute_query 99 refl refl
