-- ===== src/Sessions/Registering.antt =====
-- `RegisterSession` of internal/controlplane/controller/agent.go keeps the manager valid: it closes the
-- token's session before it makes another.
use mission.Prelude.{
  ℕ, suc, ◌<◌, ◌≡◌, refl, sym, ap, subst, ◌∙◌, true, inl, inr, Option, none, some, arith,
  Bool-cases, nat_beq, nat_beq_iff, text_beq, nat_test, text_test, beq_self, beq_of_ne, String,
}
use mission.Prelude.Text.{Text, is_empty}
use mission.Prelude.Dict.{
  lookup, delete, insert, lookup-insert-some, lookup-insert_same, lookup-insert_other,
  lookup-delete-some,
}
use mission.Sessions.Types.{TenantToken}
use mission.Sessions.Store.{AgentSession, Manager, update}
use mission.Sessions.Manager.{
  close_session_locked, replace_existing, add_session, new_session, register_session,
}
use mission.Sessions.Valid.{opened, IsValid}
use mission.Sessions.Preservation.{close_session_locked-IsValid}

-- A name may be forgotten.
forget-IsValid :
    (name : Text) (m : Manager) → IsValid m → IsValid (record m { by_id = delete name m.by_id })
forget-IsValid name m v = record {
  tokens = v.tokens;
  names = λ n ref h. v.names n ref (lookup-delete-some name n ref m.by_id h);
  current = v.current;
  liveness = v.liveness;
  queues = v.queues;
}

replace_existing-IsValid :
    (o : Option ℕ) (name : Text) (now : ℕ) (m : Manager)
    → IsValid m
    → IsValid (replace_existing o name now m)
unfolding replace_existing
replace_existing-IsValid none name now m v = v
replace_existing-IsValid (some ref) name now m v =
    let c = close_session_locked-IsValid ref now m v in
    elim (Bool-cases (text_beq (m.sessions ref).snapshot.session_id name)) [
      | inl h ↦ rw h c
      | inr h ↦ rw h (forget-IsValid _ _ c)
    ]

replaced-sessions :
    (r : ℕ) (name : Text) (now : ℕ) (m : Manager)
    → (replace_existing (some r) name now m).sessions ≡ (close_session_locked r now m).sessions
unfolding replace_existing
replaced-sessions r name now m =
    elim (Bool-cases (text_beq (m.sessions r).snapshot.session_id name)) [
      | inl h ↦ rw h refl
      | inr h ↦ rw h refl
    ]

-- Only `r` was active for the token, and it is closed.
closed-Idle :
    (token r now : ℕ) (m : Manager) (ref : ℕ)
    → ((m.sessions ref).active ≡ true
        → lookup (m.sessions ref).snapshot.token_id m.by_token ≡ some ref)
    → lookup token m.by_token ≡ some r
    → ((close_session_locked r now m).sessions ref).active ≡ true
    → ((close_session_locked r now m).sessions ref).snapshot.token_id ≡ token
    → ⊥
unfolding close_session_locked
closed-Idle token r now m ref c l a t = elim (Bool-cases (nat_beq r ref)) [
  | inl h ↦ ground (arith, rw h at a)
  | inr h ↦ ground (
    arith,
    nat_beq_iff r ref,
    sym (c (rw h at a)) ∙ ap (λ k. lookup k m.by_token) (rw h at t) ∙ l,
  )
]

-- Nothing is active for the token once its session is replaced.
replace_existing-idle :
    (token : ℕ) (name : Text) (now : ℕ) (m : Manager)
    → IsValid m
    → (o : Option ℕ) → lookup token m.by_token ≡ o
    → (ref : ℕ) → ((replace_existing o name now m).sessions ref).active ≡ true
    → ((replace_existing o name now m).sessions ref).snapshot.token_id ≡ token
    → ⊥
unfolding replace_existing
replace_existing-idle token name now m v none l ref a t =
    ground (arith, sym l ∙ ap (λ k. lookup k m.by_token) (sym t) ∙ v.current ref a)
replace_existing-idle token name now m v (some r) l ref a t =
    closed-Idle token r now m ref (v.current ref) l
      (subst (λ f. (f ref).active ≡ true) (replaced-sessions r name now m) a)
      (subst (λ f. (f ref).snapshot.token_id ≡ token) (replaced-sessions r name now m) t)

add_session-IsValid :
    (token : TenantToken) (name host : Text) (version : String) (now : ℕ) (m : Manager)
    → IsValid m
    → ((ref : ℕ)
        → (m.sessions ref).active ≡ true
        → (m.sessions ref).snapshot.token_id ≡ token.id
        → ⊥)
    → IsValid (add_session token name host version now m)
unfolding add_session
add_session-IsValid token name host version now m v idle = record {
  tokens = λ t ref h. elim (lookup-insert-some token.id t m.next_session ref m.by_token h) [
    | inl e ↦
        subst
          (λ r.
            ((update m.sessions m.next_session fresh r).snapshot.token_id ≡ t)
            × (r < suc m.next_session))
          e.1 (rw new_at e.0, omega arith)
    | inr e ↦ let p = v.tokens t ref e.1 in (rw (old_at ref p.1) p.0, ground arith)
  ];
  names = λ n ref h. elim (lookup-insert-some name n m.next_session ref m.by_id h) [
    | inl e ↦
        subst
          (λ r.
            ((update m.sessions m.next_session fresh r).snapshot.session_id ≡ n)
            × (r < suc m.next_session))
          e.1 (rw new_at e.0, omega arith)
    | inr e ↦ let p = v.names n ref e.1 in (rw (old_at ref p.1) p.0, ground arith)
  ];
  current = λ ref h. elim (Bool-cases (nat_beq m.next_session ref)) [
    | inl e ↦
        subst
          (λ r.
            lookup (update m.sessions m.next_session fresh r).snapshot.token_id
              (insert token.id m.next_session m.by_token)
            ≡ some r)
          ((nat_beq_iff m.next_session ref).0 e)
          (rw new_at (lookup-insert_same token.id m.next_session m.by_token))
    | inr e ↦ rw e (
        lookup-insert_other token.id (m.sessions ref).snapshot.token_id m.next_session m.by_token (
          beq_of_ne token.id (m.sessions ref).snapshot.token_id (λ q. idle ref (rw e at h) (sym q)))
        ∙ v.current ref (rw e at h))
  ];
  liveness = λ ref. elim (Bool-cases (nat_beq m.next_session ref)) [
    | inl e ↦ rw e (opened refl refl)
    | inr e ↦ rw e (v.liveness ref)
  ];
  queues = λ ref. elim (Bool-cases (nat_beq m.next_session ref)) [
    | inl e ↦ rw e (omega arith)
    | inr e ↦ rw e (v.queues ref)
  ];
}
  where
    fresh : AgentSession
    fresh = new_session token name host version now

    new_at : update m.sessions m.next_session fresh m.next_session ≡ fresh
    new_at = rw (beq_self m.next_session) refl

    old_at : (r : ℕ) → r < m.next_session → update m.sessions m.next_session fresh r ≡ m.sessions r
    old_at r l = ground (arith, nat_beq_iff m.next_session r)

pub register_session-IsValid :
    (token : TenantToken) (name host : Text) (version : String) (now : ℕ) (m : Manager)
    → IsValid m
    → IsValid (register_session token name host version now m).0
unfolding register_session
register_session-IsValid token name host version now m v = elim (Bool-cases (is_empty name)) [
  | inl h ↦ rw h v
  | inr h ↦ elim (Bool-cases (is_empty host)) [
    | inl g ↦ rw (h, g) v
    | inr g ↦
        rw (h, g)
          (add_session-IsValid token name host version now _
            (replace_existing-IsValid (lookup token.id m.by_token) name now m v)
            (replace_existing-idle token.id name now m v (lookup token.id m.by_token) refl))
  ]
]
