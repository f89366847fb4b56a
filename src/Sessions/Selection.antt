-- ===== src/Sessions/Selection.antt =====
-- Which session a tenant's commands go to: `activeTenantSessionLocked` of
-- internal/controlplane/controller/agent.go.
use mission.Prelude.{
  ℕ, ◌≡◌, refl, sym, subst, ◌∙◌, ltb, false, inl, inr, Option, none, some, [], ◌∷◌, if◌then◌else◌,
  arith, Bool-cases, All, In, ◌≤◌, ◌+◌, true, ◌⊎◌,
}
use mission.Prelude.Dict.{Dict}
use mission.Sessions.Store.{Manager}
use mission.Sessions.Manager.{is_active_locked}
use mission.Sessions.Commands.{serves, later, latest_serving, active_tenant_session_locked}

abbrev connected : Manager → ℕ → ℕ
connected m ref = (m.sessions ref).snapshot.connected_at

-- The session is of the tenant, open, and heard from recently enough.
pub record Serves (now tenant : ℕ) (m : Manager) (ref : ℕ) : Type 0 where
  pub of_tenant : (m.sessions ref).snapshot.tenant_id ≡ tenant
  pub is_active : (m.sessions ref).active ≡ true
  pub is_fresh : now ≤ (m.sessions ref).snapshot.last_heartbeat_at + m.stale_after

serves-Serves :
    (now tenant : ℕ) (m : Manager) (ref : ℕ)
    → serves now tenant m ref ≡ true
    → Serves now tenant m ref
unfolding serves is_active_locked
serves-Serves now tenant m ref h = ground (arith, h)

serves-not_Serves :
    (now tenant : ℕ) (m : Manager) (ref : ℕ)
    → serves now tenant m ref ≡ false
    → ¬ Serves now tenant m ref
unfolding serves is_active_locked
serves-not_Serves now tenant m ref h s = ground (arith, h, s.of_tenant, s.is_active, s.is_fresh)

-- A session that does not serve the tenant, or one that is no later than the choice.
pub data Latest (now tenant : ℕ) (m : Manager) (ref : ℕ) : Option ℕ → Type 0 where
  idle : {o : Option ℕ} → ¬ Serves now tenant m ref → Latest now tenant m ref o
  earlier : {best : ℕ} → connected m ref ≤ connected m best → Latest now tenant m ref (some best)

-- A choice stands under a token in the dictionary and serves the tenant.
pub data Chosen (now tenant : ℕ) (m : Manager) (d : Dict ℕ ℕ) : Option ℕ → Type 0 where
  unserved : Chosen now tenant m d none
  served :
      {best : ℕ} (token : ℕ)
      → In (token, best) d
      → Serves now tenant m best
      → Chosen now tenant m d (some best)

-- The choice is `o` or later than it.
data Beyond (m : Manager) : Option ℕ → Option ℕ → Type 0 where
  first : {o : Option ℕ} → Beyond m none o
  beyond : {a b : ℕ} → connected m a ≤ connected m b → Beyond m (some a) (some b)

Beyond-trans : (m : Manager) (a b c : Option ℕ) → Beyond m a b → Beyond m b c → Beyond m a c
Beyond-trans m _ _ _ first q = first
Beyond-trans m _ _ _ (beyond p) (beyond q) = beyond (omega arith)

later-Beyond : (m : Manager) (o : Option ℕ) (r : ℕ) → Beyond m o (some (later m o r))
unfolding later
later-Beyond m none r = first
later-Beyond m (some c) r = beyond (ground arith)

later-Latest : (m : Manager) (o : Option ℕ) (r : ℕ) → connected m r ≤ connected m (later m o r)
unfolding later
later-Latest m none r = omega arith
later-Latest m (some c) r = ground arith

module _ (now tenant : ℕ) (m : Manager) where
  choose : Option ℕ → ℕ → Option ℕ
  choose o r = if serves now tenant m r then some (later m o r) else o

  choose-Beyond : (o : Option ℕ) (r : ℕ) → Beyond m o (choose o r)
  unfolding choose
  choose-Beyond o r = elim (Bool-cases (serves now tenant m r)) [
    | inl h ↦ rw h (later-Beyond m o r)
    | inr h ↦ rw h (Beyond-self o)
  ]
    where
      Beyond-self : (q : Option ℕ) → Beyond m q q
      Beyond-self none = first
      Beyond-self (some a) = beyond (omega arith)

  choose-Latest : (o : Option ℕ) (r : ℕ) → Latest now tenant m r (choose o r)
  unfolding choose
  choose-Latest o r = elim (Bool-cases (serves now tenant m r)) [
    | inl h ↦ rw h (earlier (later-Latest m o r))
    | inr h ↦ rw h (idle (serves-not_Serves now tenant m r h))
  ]

  Latest-Beyond :
      (r : ℕ) (a b : Option ℕ) → Latest now tenant m r a → Beyond m a b → Latest now tenant m r b
  Latest-Beyond r _ _ (idle h) q = idle h
  Latest-Beyond r _ _ (earlier h) (beyond q) = earlier (omega arith)

  latest_serving-Beyond :
      (d : Dict ℕ ℕ) (o : Option ℕ) → Beyond m o (latest_serving now tenant m d o)
  unfolding latest_serving choose
  latest_serving-Beyond [] none = first
  latest_serving-Beyond [] (some a) = beyond (omega arith)
  latest_serving-Beyond ((t, r) ∷ rest) o =
      Beyond-trans m o (choose o r) _ (choose-Beyond o r) (latest_serving-Beyond rest (choose o r))

  latest_serving-Latest :
      (d : Dict ℕ ℕ) (o : Option ℕ)
      → All (λ e. Latest now tenant m e.1 (latest_serving now tenant m d o)) d
  unfolding latest_serving choose
  latest_serving-Latest [] o = tt
  latest_serving-Latest ((t, r) ∷ rest) o = (
    Latest-Beyond r _ _ (choose-Latest o r) (latest_serving-Beyond rest (choose o r)),
    latest_serving-Latest rest (choose o r),
  )

  Chosen-more :
      (e : ℕ × ℕ) (d : Dict ℕ ℕ) (o : Option ℕ)
      → Chosen now tenant m d o
      → Chosen now tenant m (e ∷ d) o
  Chosen-more e d _ unserved = unserved
  Chosen-more e d _ (served t i s) = served t (inr i) s

  later_cases : (o : Option ℕ) (r : ℕ) → (later m o r ≡ r) ⊎ (o ≡ some (later m o r))
  unfolding later
  later_cases none r = inl refl
  later_cases (some c) r =
      elim (Bool-cases
        (ltb (m.sessions c).snapshot.connected_at (m.sessions r).snapshot.connected_at)) [
          | inl h ↦ rw h (inl refl)
          | inr h ↦ rw h (inr refl)
        ]

  choose_cases :
      (o : Option ℕ) (r : ℕ) → (choose o r ≡ o) ⊎ ((choose o r ≡ some r) × Serves now tenant m r)
  unfolding choose
  choose_cases o r = elim (Bool-cases (serves now tenant m r)) [
    | inl h ↦ elim (later_cases o r) [
      | inl k ↦ inr (rw (h, k) refl, serves-Serves now tenant m r h)
      | inr k ↦ inl (rw h (sym k))
    ]
    | inr h ↦ inl (rw h refl)
  ]

  -- The choice is the one there was, or stands in the dictionary.
  latest_serving-Chosen :
      (d : Dict ℕ ℕ) (o : Option ℕ)
      → (latest_serving now tenant m d o ≡ o)
        ⊎ Chosen now tenant m d (latest_serving now tenant m d o)
  unfolding latest_serving choose
  latest_serving-Chosen [] o = inl refl
  latest_serving-Chosen ((t, r) ∷ rest) o = elim (latest_serving-Chosen rest (choose o r)) [
    | inl e ↦ elim (choose_cases o r) [
      | inl k ↦ inl (e ∙ k)
      | inr k ↦ inr (
          subst (λ z. Chosen now tenant m ((t, r) ∷ rest) z) (sym (e ∙ k.0))
            (served t (inl refl) k.1))
    ]
    | inr c ↦ inr (Chosen-more (t, r) rest _ c)
  ]

  first_choice :
      (o : Option ℕ)
      → (o ≡ none) ⊎ Chosen now tenant m m.by_token o
      → Chosen now tenant m m.by_token o
  first_choice o (inl e) = subst (λ z. Chosen now tenant m m.by_token z) (sym e) unserved
  first_choice o (inr c) = c

-- For whatever order the loop visits the map in: a session that `activeTenantSessionLocked` returns is
-- one of `byToken` that is of the tenant, open and not stale; every other such session of `byToken` was
-- connected no later than it; and if it returns none, `byToken` holds no such session.
pub active_tenant_session_locked-Latest :
    (now tenant : ℕ) (m : Manager)
    → Chosen now tenant m m.by_token (active_tenant_session_locked now tenant m)
      × All (λ e. Latest now tenant m e.1 (active_tenant_session_locked now tenant m)) m.by_token
unfolding active_tenant_session_locked
active_tenant_session_locked-Latest now tenant m = (
  first_choice now tenant m _ (latest_serving-Chosen now tenant m m.by_token none),
  latest_serving-Latest now tenant m m.by_token none,
)
