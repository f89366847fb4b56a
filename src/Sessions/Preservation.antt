-- ===== src/Sessions/Preservation.antt =====
-- The operations of internal/controlplane/controller/agent.go keep the manager valid.
use mission.Prelude.{
  ℕ, ◌≡◌, refl, true, false, inl, inr, Option, none, some, arith, Bool-cases, nat_beq, nat_beq_iff,
  nat_test, text_test,
}
use mission.Prelude.Text.{Text}
use mission.Prelude.Dict.{delete}
use mission.Sessions.Types.{CommandKind, AgentResult}
use mission.Sessions.Store.{AgentSession, Manager, set_pending, same_kind}
use mission.Sessions.Manager.{
  is_active_locked, close_session_locked, session_at, heartbeat_found, disconnect_found,
  disconnect_if, Found, found, lost, mark_heartbeat, disconnect_session,
  disconnect_registered_session,
}
use mission.Sessions.Results.{submit, submit_to, submit_found, deliver}
use mission.Sessions.Valid.{Liveness, opened, shut, IsValid, Follows, set_session-IsValid}

pub close_session_locked-IsValid :
    (ref at : ℕ) (m : Manager) → IsValid m → IsValid (close_session_locked ref at m)
unfolding close_session_locked
close_session_locked-IsValid ref at m v = set_session-IsValid m ref _ _ _ v (record {
  same_token = ground arith;
  same_name = ground arith;
  not_revived = ground arith;
  live = shut refl refl (λ k. refl);
  queue = v.queues ref;
})

pub active-of :
    (m : Manager) (now : ℕ) (s : AgentSession) → is_active_locked m now s ≡ true → s.active ≡ true
unfolding is_active_locked
active-of m now s h = ground arith

-- A session that is active may change what waits for it.
pub open-Liveness : (s : AgentSession) → Liveness s → s.active ≡ true → s.done ≡ false
open-Liveness s (opened a d) h = d
open-Liveness s (shut a d p) h = ground arith

delete_pending-Liveness :
    (s : AgentSession) (k : CommandKind) (c : ℕ)
    → Liveness s
    → Liveness (set_pending k (delete c (s.pending k)) s)
unfolding delete
delete_pending-Liveness s k c (opened a d) = opened a d
delete_pending-Liveness s k c (shut a d p) =
    shut a d
      (λ j. elim (Bool-cases (same_kind k j)) [ inl h ↦ rw (h, p k) refl | inr h ↦ rw h (p j) ])

pub delete_pending-Follows :
    (m : Manager) (ref : ℕ) (k : CommandKind) (c : ℕ)
    → IsValid m
    → Follows
        (m.sessions ref)
        (set_pending k (delete c ((m.sessions ref).pending k)) (m.sessions ref))
delete_pending-Follows m ref k c v = record {
  same_token = refl;
  same_name = refl;
  not_revived = λ h. h;
  live = delete_pending-Liveness (m.sessions ref) k c (v.liveness ref);
  queue = v.queues ref;
}

pub session_at-found :
    (now token : ℕ) (m : Manager) (o : Option ℕ) (ref : ℕ)
    → session_at now token m o ≡ found ref
    → (o ≡ some ref)
      × (((m.sessions ref).snapshot.token_id ≡ token)
          × (is_active_locked m now (m.sessions ref) ≡ true))
unfolding session_at
session_at-found now token m none ref h = ground arith
session_at-found now token m (some r) ref h =
    ground (arith, nat_beq_iff (m.sessions r).snapshot.token_id token)

submit_to-IsValid :
    (ref : ℕ) (k : CommandKind) (c : ℕ) (o : Option ℕ) (r : AgentResult) (m : Manager)
    → IsValid m
    → IsValid (submit_to ref k c o r m).0
unfolding submit_to deliver
submit_to-IsValid ref k c none r m v = v
submit_to-IsValid ref k c (some w) r m v =
    set_session-IsValid m ref _ _ _ v (delete_pending-Follows m ref k c v)

submit_found-IsValid :
    (k : CommandKind) (c : ℕ) (f : Found) (r : AgentResult) (m : Manager)
    → IsValid m
    → IsValid (submit_found k c f r m).0
unfolding submit_found
submit_found-IsValid k c (lost e) r m v = v
submit_found-IsValid k c (found ref) r m v = submit_to-IsValid ref k c _ r m v

pub submit-IsValid :
    (k : CommandKind) (now token : ℕ) (name : Text) (c : ℕ) (r : AgentResult) (m : Manager)
    → IsValid m
    → IsValid (submit k now token name c r m).0
unfolding submit
submit-IsValid k now token name c r m v = submit_found-IsValid k c _ r m v

heartbeat_found-IsValid :
    (at : ℕ) (m : Manager) (f : Found) → IsValid m → IsValid (heartbeat_found at m f).0
unfolding heartbeat_found
heartbeat_found-IsValid at m (lost e) v = v
heartbeat_found-IsValid at m (found ref) v = set_session-IsValid m ref _ _ _ v (record {
  same_token = refl;
  same_name = refl;
  not_revived = λ h. h;
  live = moved (v.liveness ref);
  queue = v.queues ref;
})
  where
    moved :
        Liveness (m.sessions ref)
        → Liveness (record (m.sessions ref) {
          snapshot = record (m.sessions ref).snapshot { last_heartbeat_at = at };
        })
    moved (opened a d) = opened a d
    moved (shut a d p) = shut a d p

pub mark_heartbeat-IsValid :
    (now token : ℕ) (name : Text) (at : ℕ) (m : Manager)
    → IsValid m
    → IsValid (mark_heartbeat now token name at m).0
unfolding mark_heartbeat
mark_heartbeat-IsValid now token name at m v = heartbeat_found-IsValid at m _ v

disconnect_found-IsValid :
    (o : Option ℕ) (now : ℕ) (m : Manager) → IsValid m → IsValid (disconnect_found o now m)
unfolding disconnect_found
disconnect_found-IsValid none now m v = v
disconnect_found-IsValid (some ref) now m v = close_session_locked-IsValid ref now m v

pub disconnect_session-IsValid :
    (name : Text) (now : ℕ) (m : Manager) → IsValid m → IsValid (disconnect_session name now m)
unfolding disconnect_session
disconnect_session-IsValid name now m v = disconnect_found-IsValid _ now m v

disconnect_if-IsValid :
    (o : Option ℕ) (target now : ℕ) (m : Manager)
    → IsValid m
    → IsValid (disconnect_if o target now m)
unfolding disconnect_if
disconnect_if-IsValid none target now m v = v
disconnect_if-IsValid (some ref) target now m v = elim (Bool-cases (nat_beq ref target)) [
  | inl h ↦ rw h (close_session_locked-IsValid ref now m v)
  | inr h ↦ rw h v
]

pub disconnect_registered_session-IsValid :
    (name : Text) (target now : ℕ) (m : Manager)
    → IsValid m
    → IsValid (disconnect_registered_session name target now m)
unfolding disconnect_registered_session
disconnect_registered_session-IsValid name target now m v = disconnect_if-IsValid _ target now m v
