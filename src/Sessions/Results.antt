-- ===== src/Sessions/Results.antt =====
-- The results that sessions report, of internal/controlplane/controller/agent.go: the `Submit`
-- methods, which differ only in the map they look in and in the record they send.
use mission.Prelude.{ℕ, Option, none, some, List, [], ◌∷◌, ◌++◌, String, nat_test}
use mission.Prelude.Text.{Text}
use mission.Prelude.Dict.{lookup, delete}
use mission.Sessions.Types.{
  CommandKind, ping, execute_query, introspect_schema, configure_database, AgentResult, ping_result,
  query_result, schema_result, config_result, SchemaBlob, Row, Failure, command_not_found,
}
use mission.Sessions.Store.{Manager, update, set_session, set_pending, send_and_close}
use mission.Sessions.Manager.{session_locked, Found, found, lost}

-- The waiter leaves the map, then is sent the result and closed.
unfoldable pub deliver : ℕ → CommandKind → ℕ → ℕ → AgentResult → Manager → Manager
deliver ref kind command_id waiter result m =
    let s = m.sessions ref in
    record (set_session ref (set_pending kind (delete command_id (s.pending kind)) s) m) {
      waiters = update m.waiters waiter (send_and_close result (m.waiters waiter));
    }

unfoldable pub submit_to :
    ℕ → CommandKind → ℕ → Option ℕ → AgentResult → Manager → Manager × Option Failure
unfolding deliver
submit_to ref kind command_id none result m = (m, some command_not_found)
submit_to ref kind command_id (some waiter) result m =
    (deliver ref kind command_id waiter result m, none)

unfoldable pub submit_found :
    CommandKind → ℕ → Found → AgentResult → Manager → Manager × Option Failure
unfolding submit_to
submit_found kind command_id (lost e) result m = (m, some e)
submit_found kind command_id (found ref) result m =
    submit_to ref kind command_id (lookup command_id ((m.sessions ref).pending kind)) result m

unfoldable pub submit :
    CommandKind → ℕ → ℕ → Text → ℕ → AgentResult → Manager → Manager × Option Failure
unfolding session_locked submit_found
submit kind now token_id session_id command_id result m =
    submit_found kind command_id (session_locked now token_id session_id m) result m

unfoldable pub submit_ping_result : ℕ → ℕ → Text → ℕ → ℕ → ℕ → Manager → Manager × Option Failure
unfolding submit
submit_ping_result now token_id session_id command_id completed_at round_trip_ms m =
    submit ping now token_id session_id command_id
      (ping_result (record {
        session_id = session_id;
        command_id = command_id;
        completed_at = completed_at;
        round_trip_ms = round_trip_ms;
      }))
      m

clone_row : Row → Row
clone_row [] = []
clone_row ((k, v) ∷ row) = (k, v) ∷ clone_row row

-- `out` has the rows cloned so far.
clone_rows_onto : List Row → List Row → List Row
unfolding clone_row
clone_rows_onto out [] = out
clone_rows_onto out (row ∷ rows) = clone_rows_onto (out ++ clone_row row ∷ []) rows

unfoldable pub clone_rows : List Row → List Row
unfolding clone_rows_onto
clone_rows rows = clone_rows_onto [] rows

unfoldable pub submit_execute_query_result :
    ℕ
    → ℕ
    → Text
    → ℕ
    → ℕ
    → List String
    → List Row
    → ℕ
    → String
    → String
    → String
    → String
    → String
    → List String
    → Manager
    → Manager × Option Failure
unfolding submit clone_rows
submit_execute_query_result now token_id session_id command_id completed_at columns rows elapsed_ms
      user name error code reason blocked m =
    submit execute_query now token_id session_id command_id
      (query_result (record {
        session_id = session_id;
        command_id = command_id;
        completed_at = completed_at;
        columns = [] ++ columns;
        rows = clone_rows rows;
        elapsed_ms = elapsed_ms;
        database_user = user;
        database_name = name;
        error = error;
        error_code = code;
        error_reason = reason;
        blocked_constructs = [] ++ blocked;
      }))
      m

unfoldable pub clone_schema_blob : SchemaBlob → SchemaBlob
clone_schema_blob blob = record {
  database_name = blob.database_name;
  tables = [] ++ blob.tables;
  columns = [] ++ blob.columns;
  primary_keys = [] ++ blob.primary_keys;
  foreign_keys = [] ++ blob.foreign_keys;
}

unfoldable pub submit_introspect_schema_result :
    ℕ
    → ℕ
    → Text
    → ℕ
    → ℕ
    → SchemaBlob
    → ℕ
    → String
    → String
    → String
    → Manager
    → Manager × Option Failure
unfolding submit clone_schema_blob
submit_introspect_schema_result now token_id session_id command_id completed_at schema elapsed_ms
      user name error m =
    submit introspect_schema now token_id session_id command_id
      (schema_result (record {
        session_id = session_id;
        command_id = command_id;
        completed_at = completed_at;
        schema = clone_schema_blob schema;
        elapsed_ms = elapsed_ms;
        database_user = user;
        database_name = name;
        error = error;
      }))
      m

unfoldable pub submit_configure_database_result :
    ℕ
    → ℕ
    → Text
    → ℕ
    → ℕ
    → ℕ
    → String
    → String
    → String
    → String
    → Manager
    → Manager × Option Failure
unfolding submit
submit_configure_database_result now token_id session_id command_id completed_at elapsed_ms user
      name error code m =
    submit configure_database now token_id session_id command_id
      (config_result (record {
        session_id = session_id;
        command_id = command_id;
        completed_at = completed_at;
        elapsed_ms = elapsed_ms;
        database_user = user;
        database_name = name;
        error = error;
        error_code = code;
      }))
      m
