-- ===== src/Sessions/Valid.antt =====
-- What holds of the session manager of internal/controlplane/controller/agent.go between its
-- operations, and what an operation owes for it.
use mission.Prelude.{
  ℕ, ◌<◌, ◌≤◌, ◌≡◌, refl, sym, ◌∙◌, true, false, inl, inr, some, [], arith, length, Bool-cases,
  nat_beq, nat_beq_iff, nat_test, text_test,
}
use mission.Prelude.Text.{Text}
use mission.Prelude.Dict.{lookup}
use mission.Sessions.Types.{CommandKind}
use mission.Sessions.Store.{AgentSession, Manager, Waiter, update, set_session, command_capacity}

-- A session is open, or closed with its channel closed and nobody waiting for it.
pub data Liveness (s : AgentSession) : Type 0 where
  opened : s.active ≡ true → s.done ≡ false → Liveness s
  shut : s.active ≡ false → s.done ≡ true → ((k : CommandKind) → s.pending k ≡ []) → Liveness s

-- Both maps name sessions that were made, with that token or that name; an active session is the one
-- `byToken` has for its token; a session is open or closed; no queue holds more than 16 commands.
pub record IsValid (m : Manager) : Type 0 where
  pub tokens :
      (token ref : ℕ)
      → lookup token m.by_token ≡ some ref
      → ((m.sessions ref).snapshot.token_id ≡ token) × (ref < m.next_session)
  pub names :
      (name : Text) (ref : ℕ)
      → lookup name m.by_id ≡ some ref
      → ((m.sessions ref).snapshot.session_id ≡ name) × (ref < m.next_session)
  pub current :
      (ref : ℕ)
      → (m.sessions ref).active ≡ true
      → lookup (m.sessions ref).snapshot.token_id m.by_token ≡ some ref
  pub liveness : (ref : ℕ) → Liveness (m.sessions ref)
  pub queues : (ref : ℕ) → length (m.sessions ref).commands ≤ command_capacity

-- What a session may become: it keeps its names and is not made active again.
pub record Follows (s t : AgentSession) : Type 0 where
  pub same_token : t.snapshot.token_id ≡ s.snapshot.token_id
  pub same_name : t.snapshot.session_id ≡ s.snapshot.session_id
  pub not_revived : t.active ≡ true → s.active ≡ true
  pub live : Liveness t
  pub queue : length t.commands ≤ command_capacity

pub update_here : (f : ℕ → AgentSession) (i : ℕ) (s : AgentSession) → update f i s i ≡ s
update_here f i s = ground arith

pub update_elsewhere :
    (f : ℕ → AgentSession) (i j : ℕ) (s : AgentSession) → nat_beq i j ≡ false → update f i s j ≡ f j
update_elsewhere f i j s h = ground arith

pub self-Follows : (m : Manager) → IsValid m → (j : ℕ) → Follows (m.sessions j) (m.sessions j)
self-Follows m v j = record {
  same_token = refl;
  same_name = refl;
  not_revived = λ h. h;
  live = v.liveness j;
  queue = v.queues j;
}

update-Follows :
    (m : Manager) (ref : ℕ) (t : AgentSession)
    → IsValid m
    → Follows (m.sessions ref) t
    → (j : ℕ) → Follows (m.sessions j) (update m.sessions ref t j)
update-Follows m ref t v f j = elim (Bool-cases (nat_beq ref j)) [
  | inl h ↦ rw (h, sym ((nat_beq_iff ref j).0 h)) f
  | inr h ↦ rw h (self-Follows m v j)
]

-- One session changes to one that may follow it; the waiters are free to change.
pub set_session-IsValid :
    (m : Manager) (ref : ℕ) (t : AgentSession) (waiters : ℕ → Waiter) (next : ℕ)
    → IsValid m
    → Follows (m.sessions ref) t
    → IsValid (record (set_session ref t m) { waiters = waiters; next_waiter = next })
set_session-IsValid m ref t waiters next v f =
    let step = update-Follows m ref t v f in
    record {
      tokens = λ token r h. ((step r).same_token ∙ (v.tokens token r h).0, (v.tokens token r h).1);
      names = λ name r h. ((step r).same_name ∙ (v.names name r h).0, (v.names name r h).1);
      current = λ r h. rw (step r).same_token (v.current r ((step r).not_revived h));
      liveness = λ r. (step r).live;
      queues = λ r. (step r).queue;
    }
