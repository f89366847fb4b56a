-- ===== src/Sessions/Issuing.antt =====
-- Issuing commands, giving them up and taking them from the queue keep the manager valid, of
-- internal/controlplane/controller/agent.go.
use mission.Prelude.{
  ℕ, suc, ◌≤◌, ◌≡◌, refl, sym, subst, some_inj, ltb, true, inl, inr, Option, none, some, List, [],
  ◌∷◌, arith, length, length-append, Bool-cases, nat_beq, nat_test, text_test, String,
}
use mission.Prelude.Text.{Text}
use mission.Prelude.Dict.{Dict}
use mission.Sessions.Types.{CommandKind, AgentCommand}
use mission.Sessions.Store.{Manager, command_capacity}
use mission.Sessions.Manager.{is_active_locked}
use mission.Sessions.Commands.{
  enqueued, enqueue, enqueue_for, ping_session, expire_at, take_first, active_ref, start_ping,
  start_execute_query, start_introspect_schema, start_configure_database,
  active_tenant_session_locked, active_token_session_locked, latest_serving, expire,
  receive_command,
}
use mission.Sessions.Valid.{Liveness, opened, shut, IsValid, Follows, set_session-IsValid}
use mission.Sessions.Preservation.{open-Liveness, active-of, delete_pending-Follows}
use mission.Sessions.Commands.{serves, later, query_command, schema_command, config_command}

enqueued-Follows :
    (waiter : ℕ) (c : AgentCommand) (m : Manager) (ref : ℕ)
    → IsValid m
    → (m.sessions ref).active ≡ true
    → Follows (m.sessions ref) (enqueued waiter c (m.sessions ref))
unfolding enqueued
enqueued-Follows waiter c m ref v a = record {
  same_token = ground arith;
  same_name = ground arith;
  not_revived = λ h. a;
  live = opened (ground arith) (ground (arith, open-Liveness (m.sessions ref) (v.liveness ref) a));
  queue = ground (arith, v.queues ref, length-append (m.sessions ref).commands (c ∷ []));
}

enqueue-IsValid :
    (ref : ℕ) (c : AgentCommand) (m : Manager)
    → IsValid m
    → (m.sessions ref).active ≡ true
    → IsValid (enqueue ref c m).0
unfolding enqueue
enqueue-IsValid ref c m v a = set_session-IsValid m ref _ _ _ v (enqueued-Follows _ c m ref v a)

ping_session-IsValid :
    (c : AgentCommand) (now : ℕ) (o : Option ℕ) (m : Manager)
    → IsValid m
    → IsValid (ping_session c now o m).0
unfolding ping_session
ping_session-IsValid c now none m v = v
ping_session-IsValid c now (some ref) m v =
    elim (Bool-cases (is_active_locked m now (m.sessions ref))) [
      | inl h ↦ rw h (enqueue-IsValid ref c m v (active-of m now (m.sessions ref) h))
      | inr h ↦ rw h v
    ]

pub start_ping-IsValid :
    (name : Text) (c now : ℕ) (m : Manager) → IsValid m → IsValid (start_ping name c now m).0
unfolding start_ping
start_ping-IsValid name c now m v = ping_session-IsValid _ now _ m v

-- The session that a search returns is active, if it returns one.
enqueue_for-IsValid :
    (c : AgentCommand) (o : Option ℕ) (m : Manager)
    → IsValid m
    → ((ref : ℕ) → o ≡ some ref → (m.sessions ref).active ≡ true)
    → IsValid (enqueue_for c o m).0
unfolding enqueue_for
enqueue_for-IsValid c none m v a = v
enqueue_for-IsValid c (some ref) m v a = enqueue-IsValid ref _ m v (a ref refl)

-- The later of two sessions that serve the tenant serves it.
later-serves :
    (now tenant : ℕ) (m : Manager) (o : Option ℕ) (r : ℕ)
    → ((ref : ℕ) → o ≡ some ref → serves now tenant m ref ≡ true)
    → serves now tenant m r ≡ true
    → serves now tenant m (later m o r) ≡ true
unfolding later
later-serves now tenant m none r a h = h
later-serves now tenant m (some c) r a h =
    elim (Bool-cases
      (ltb (m.sessions c).snapshot.connected_at (m.sessions r).snapshot.connected_at)) [
        | inl l ↦ rw l h
        | inr l ↦ rw l (a c refl)
      ]

pub latest_serving-serves :
    (now tenant : ℕ) (m : Manager) (d : Dict ℕ ℕ) (o : Option ℕ)
    → ((ref : ℕ) → o ≡ some ref → serves now tenant m ref ≡ true)
    → (ref : ℕ) → latest_serving now tenant m d o ≡ some ref
    → serves now tenant m ref ≡ true
unfolding latest_serving
latest_serving-serves now tenant m [] o a ref h = a ref h
latest_serving-serves now tenant m ((token, r) ∷ rest) o a ref h =
    latest_serving-serves now tenant m rest _
      (λ q e. elim (Bool-cases (serves now tenant m r)) [
        | inl s ↦
            subst (λ x. serves now tenant m x ≡ true) (some_inj (rw s at e))
              (later-serves now tenant m o r a s)
        | inr s ↦ a q (rw s at e)
      ])
      ref h

-- The session that `activeTenantSessionLocked` returns is of the tenant, active, and had a heartbeat
-- within `staleAfter`.
pub active_tenant_session_locked-serves :
    (now tenant : ℕ) (m : Manager) (ref : ℕ)
    → active_tenant_session_locked now tenant m ≡ some ref
    → serves now tenant m ref ≡ true
unfolding active_tenant_session_locked
active_tenant_session_locked-serves now tenant m =
    latest_serving-serves now tenant m m.by_token none (λ ref h. ground arith)

serves-active :
    (now tenant : ℕ) (m : Manager) (ref : ℕ)
    → serves now tenant m ref ≡ true
    → (m.sessions ref).active ≡ true
unfolding serves is_active_locked
serves-active now tenant m ref h = ground arith

active_ref-active :
    (now : ℕ) (m : Manager) (o : Option ℕ) (ref : ℕ)
    → active_ref now m o ≡ some ref
    → is_active_locked m now (m.sessions ref) ≡ true
unfolding active_ref
active_ref-active now m none ref h = ground arith
active_ref-active now m (some r) ref h = ground arith

start_tenant-active :
    (now tenant : ℕ) (m : Manager) (ref : ℕ)
    → active_tenant_session_locked now tenant m ≡ some ref
    → (m.sessions ref).active ≡ true
start_tenant-active now tenant m ref h =
    serves-active now tenant m ref (active_tenant_session_locked-serves now tenant m ref h)

pub start_execute_query-IsValid :
    (tenant : ℕ) (sql : Text) (c now : ℕ) (m : Manager)
    → IsValid m
    → IsValid (start_execute_query tenant sql c now m).0
unfolding start_execute_query
start_execute_query-IsValid tenant sql c now m v =
    enqueue_for-IsValid (query_command sql c now) _ m v (start_tenant-active now tenant m)

pub start_introspect_schema-IsValid :
    (tenant c now : ℕ) (m : Manager)
    → IsValid m
    → IsValid (start_introspect_schema tenant c now m).0
unfolding start_introspect_schema
start_introspect_schema-IsValid tenant c now m v =
    enqueue_for-IsValid (schema_command c now) _ m v (start_tenant-active now tenant m)

pub start_configure_database-IsValid :
    (token : ℕ) (dsn : String) (c now : ℕ) (m : Manager)
    → IsValid m
    → IsValid (start_configure_database token dsn c now m).0
unfolding start_configure_database active_token_session_locked
start_configure_database-IsValid token dsn c now m v =
    enqueue_for-IsValid (config_command dsn c now) _ m v
      (λ ref h. active-of m now (m.sessions ref) (active_ref-active now m _ ref h))

expire_at-IsValid :
    (o : Option ℕ) (ref : ℕ) (k : CommandKind) (c : ℕ) (m : Manager)
    → IsValid m
    → IsValid (expire_at o ref k c m)
unfolding expire_at
expire_at-IsValid none ref k c m v = v
expire_at-IsValid (some r) ref k c m v = elim (Bool-cases (nat_beq r ref)) [
  | inl h ↦ rw h (set_session-IsValid m ref _ _ _ v (delete_pending-Follows m ref k c v))
  | inr h ↦ rw h v
]

pub expire-IsValid :
    (name : Text) (ref : ℕ) (k : CommandKind) (c : ℕ) (m : Manager)
    → IsValid m
    → IsValid (expire name ref k c m)
unfolding expire
expire-IsValid name ref k c m v = expire_at-IsValid _ ref k c m v

take_first-IsValid :
    (ref : ℕ) (cs : List AgentCommand) (m : Manager)
    → IsValid m
    → cs ≡ (m.sessions ref).commands
    → IsValid (take_first ref cs m).0
unfolding take_first
take_first-IsValid ref [] m v e = v
take_first-IsValid ref (c ∷ cs) m v e = set_session-IsValid m ref _ _ _ v (record {
  same_token = refl;
  same_name = refl;
  not_revived = λ h. h;
  live = moved (v.liveness ref);
  queue = ground (arith, shorter);
})
  where
    shorter : suc (length cs) ≤ command_capacity
    shorter = subst (λ l. length l ≤ command_capacity) (sym e) (v.queues ref)

    moved : Liveness (m.sessions ref) → Liveness (record (m.sessions ref) { commands = cs })
    moved (opened a d) = opened a d
    moved (shut a d p) = shut a d p

pub receive_command-IsValid :
    (ref : ℕ) (m : Manager) → IsValid m → IsValid (receive_command ref m).0
unfolding receive_command
receive_command-IsValid ref m v = take_first-IsValid ref _ m v refl
