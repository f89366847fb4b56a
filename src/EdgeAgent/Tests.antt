-- ===== src/EdgeAgent/Tests.antt =====
-- The edge agent's theorems at a concrete agent, whose executor refuses a query, and at concrete delays.
use mission.Prelude.{ℕ, ◌*◌, ◌+◌, ◌≤◌, refl, true, false, none, some, [], ◌∷◌, arith, All}
use mission.Prelude.Text.{codes}
use mission.EdgeAgent.Types.{ControlMessage, execute_query, failed}
use mission.EdgeAgent.Commands.{Collaborators, handle_execute_query}
use mission.EdgeAgent.Reconnect.{Reconnect, new_reconnect, run}
use mission.EdgeAgent.Backoff.{run-bounds}
use mission.EdgeAgent.Reports.{Logged, handle_execute_query-Logged}

abbrev refusing : Collaborators
refusing = record {
  query_executor = some (λ sql. failed (record {
    text = codes "denied";
    query_error = some (record {
      code = codes "PERMISSION_DENIED";
      reason = codes "denied";
      blocked_constructs = codes "lock" ∷ [];
    });
  }));
  has_auditor = true;
  schema_introspector = none;
  database_configurer = none;
  now = λ i. 5000000 + i * 1000000;
}

abbrev query : ControlMessage
query = record {
  session_id = codes "s1";
  command_id = codes "c1";
  issued_at = 4000000;
  kind = execute_query;
  sql = codes "SELECT 1 FOR UPDATE";
  dsn = [];
}

abbrev quick : Reconnect
quick = record { base = 1000000000; max = 30000000000 }

-- A generator that always draws 0.
abbrev draw : ℕ → ℕ → ℕ
draw seed n = 0

handle_execute_query-Logged_example : Logged query true (handle_execute_query refusing query)
handle_execute_query-Logged_example = handle_execute_query-Logged refusing query

run-bounds_example :
    All
      (λ d. (1000000000 ≤ d) × (d ≤ 36000000000))
      (run draw quick ((false, 1) ∷ (true, 2) ∷ (false, 3) ∷ []))
unfolding new_reconnect
run-bounds_example =
    run-bounds draw 0 0 quick ((false, 1) ∷ (true, 2) ∷ (false, 3) ∷ []) (λ seed n l. l) refl
      (omega arith)
