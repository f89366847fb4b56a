-- ===== src/Sessions/Store.antt =====
-- The state behind AgentSessionManager: sessions and waiters are objects of an explicit store, named
-- by numbers in the order of their making, since `byToken`, `byID` and the closures share them.
use mission.Prelude.{ℕ, Bool, true, false, List, [], ◌∷◌, if◌then◌else◌, nat_beq}
use mission.Prelude.Text.{Text}
use mission.Prelude.Dict.{Dict}
use mission.Sessions.Types.{
  AgentCommand, AgentResult, CommandKind, ping, execute_query, introspect_schema,
  configure_database, AgentSessionSnapshot,
}

-- `pending` is the four maps pendingPings, pendingQueries, pendingSchemas and pendingConfigs, from
-- command to waiter; `commands` is what the channel of capacity 16 holds; `done` tells whether the
-- channel of that name is closed.
pub record AgentSession : Type 0 where
  pub snapshot : AgentSessionSnapshot
  pub active : Bool
  pub commands : List AgentCommand
  pub done : Bool
  pub pending : CommandKind → Dict ℕ ℕ

-- A waiter's channel: open and empty, closed behind a result, closed empty, or the fault of a send
-- on a closed channel or of a second close, at which Go panics.
pub data Waiter : Type 0 where
  waiting : Waiter
  answered : AgentResult → Waiter
  dropped : Waiter
  panic : Waiter

pub record Manager : Type 0 where
  pub stale_after : ℕ
  pub ping_timeout : ℕ
  pub sessions : ℕ → AgentSession
  pub next_session : ℕ
  pub waiters : ℕ → Waiter
  pub next_waiter : ℕ
  pub by_token : Dict ℕ ℕ
  pub by_id : Dict Text ℕ

abbrev pub command_capacity : ℕ
command_capacity = 16

abbrev pub update {ℓ} : {A : Type ℓ} → (ℕ → A) → ℕ → A → ℕ → A
update f i a j = if nat_beq i j then a else f j

abbrev pub set_session : ℕ → AgentSession → Manager → Manager
set_session ref s m = record m { sessions = update m.sessions ref s }

abbrev pub same_kind : CommandKind → CommandKind → Bool
same_kind ping ping = true
same_kind execute_query execute_query = true
same_kind introspect_schema introspect_schema = true
same_kind configure_database configure_database = true
same_kind _ _ = false

abbrev pub set_pending : CommandKind → Dict ℕ ℕ → AgentSession → AgentSession
set_pending k d s = record s { pending = λ j. if same_kind k j then d else s.pending j }

-- `waiter <- result` and `close(waiter)`; `close(waiter)` alone.
abbrev pub send_and_close : AgentResult → Waiter → Waiter
send_and_close r waiting = answered r
send_and_close r _ = panic

abbrev pub close : Waiter → Waiter
close waiting = dropped
close _ = panic

-- The loop that closes the waiters of one map.
unfoldable pub close_waiters : Dict ℕ ℕ → (ℕ → Waiter) → ℕ → Waiter
close_waiters [] ws = ws
close_waiters ((c, w) ∷ rest) ws = close_waiters rest (update ws w (close (ws w)))
