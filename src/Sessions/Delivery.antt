-- ===== src/Sessions/Delivery.antt =====
-- A result reaches the caller of its command, and no other, of
-- internal/controlplane/controller/agent.go.
use mission.Prelude.{
  ℕ, ◌≡◌, refl, subst, true, none, some, arith, length, nat_test, text_test, beq_self, ltb,
}
use mission.Prelude.Text.{Text}
use mission.Prelude.Dict.{lookup, delete, lookup-insert_same, lookup-delete}
use mission.Sessions.Types.{CommandKind, AgentCommand, AgentResult, command_not_found}
use mission.Sessions.Store.{
  AgentSession, waiting, Manager, set_pending, command_capacity, same_kind,
}
use mission.Sessions.Manager.{is_active_locked, session_locked, session_at, found}
use mission.Sessions.Commands.{enqueued, await, done}
use mission.Sessions.Results.{submit, submit_to, submit_found, deliver}

pub same_kind_self : (k : CommandKind) → same_kind k k ≡ true
same_kind_self k = ground arith

-- What the session of a command looks like once it is queued.
pub enqueued-pending :
    (waiter : ℕ) (c : AgentCommand) (s : AgentSession)
    → ltb (length s.commands) command_capacity ≡ true
    → lookup c.command_id ((enqueued waiter c s).pending c.kind) ≡ some waiter
unfolding enqueued
enqueued-pending waiter c s q =
    rw (q, same_kind_self c.kind) (lookup-insert_same c.command_id waiter (s.pending c.kind))

session_at-some :
    (now : ℕ) (m : Manager) (ref : ℕ)
    → is_active_locked m now (m.sessions ref) ≡ true
    → session_at now (m.sessions ref).snapshot.token_id m (some ref) ≡ found ref
unfolding session_at
session_at-some now m ref a = rw (beq_self (m.sessions ref).snapshot.token_id, a) refl

-- A session with a command pending gets one result for it.
pub submit-pending :
    (k : CommandKind) (now : ℕ) (name : Text) (c : ℕ) (r : AgentResult) (m : Manager)
    (ref waiter : ℕ)
    → lookup name m.by_id ≡ some ref
    → is_active_locked m now (m.sessions ref) ≡ true
    → lookup c ((m.sessions ref).pending k) ≡ some waiter
    → submit k now (m.sessions ref).snapshot.token_id name c r m
      ≡ (deliver ref k c waiter r m, none)
unfolding submit submit_found submit_to session_locked
submit-pending k now name c r m ref waiter n a p = rw (n, session_at-some now m ref a, p) refl

submit-none :
    (k : CommandKind) (now : ℕ) (name : Text) (c : ℕ) (r : AgentResult) (m : Manager) (ref : ℕ)
    → lookup name m.by_id ≡ some ref
    → is_active_locked m now (m.sessions ref) ≡ true
    → lookup c ((m.sessions ref).pending k) ≡ none
    → (submit k now (m.sessions ref).snapshot.token_id name c r m).1 ≡ some command_not_found
unfolding submit submit_found submit_to session_locked
submit-none k now name c r m ref n a p = rw (n, session_at-some now m ref a, p) refl

-- A delivery answers the waiter and takes the command out, and changes nothing else.
module _ (k : CommandKind) (now : ℕ) (name : Text) (c : ℕ) (r : AgentResult) (m : Manager)
    (ref waiter : ℕ) (named : lookup name m.by_id ≡ some ref)
    (a : is_active_locked m now (m.sessions ref) ≡ true)
    (pending : lookup c ((m.sessions ref).pending k) ≡ some waiter) where
  pub deliver-await :
      m.waiters waiter ≡ waiting → await waiter (deliver ref k c waiter r m) ≡ done r
  unfolding deliver await
  deliver-await w = rw (beq_self waiter, w) refl

  after_deliver :
      (deliver ref k c waiter r m).sessions ref
      ≡ set_pending k (delete c ((m.sessions ref).pending k)) (m.sessions ref)
  unfolding deliver
  after_deliver = rw (beq_self ref) refl

  after_deliver-pending : lookup c (((deliver ref k c waiter r m).sessions ref).pending k) ≡ none
  after_deliver-pending =
      rw
        (
          after_deliver,
          same_kind_self k,
          lookup-delete c c ((m.sessions ref).pending k),
          beq_self c,
        )
        refl

  after_deliver-active :
      is_active_locked (deliver ref k c waiter r m) now ((deliver ref k c waiter r m).sessions ref)
      ≡ true
  unfolding is_active_locked deliver
  after_deliver-active = rw (beq_self ref) a

  after_deliver-token :
      ((deliver ref k c waiter r m).sessions ref).snapshot.token_id
      ≡ (m.sessions ref).snapshot.token_id
  after_deliver-token = rw after_deliver refl

  after_deliver-named : lookup name (deliver ref k c waiter r m).by_id ≡ some ref
  unfolding deliver
  after_deliver-named = named

  pub deliver-submit :
      (again : AgentResult)
      → (submit k now
          (m.sessions ref).snapshot.token_id
          name
          c
          again
          (deliver ref k c waiter r m)).1
        ≡ some command_not_found
  deliver-submit again =
      subst
        (λ t. (submit k now t name c again (deliver ref k c waiter r m)).1 ≡ some command_not_found)
        after_deliver-token
        (submit-none k now name c again _ ref after_deliver-named after_deliver-active
          after_deliver-pending)
