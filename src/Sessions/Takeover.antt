-- ===== src/Sessions/Takeover.antt =====
-- What `RegisterSession` of internal/controlplane/controller/agent.go leaves of the sessions and names
-- that were there before.
use mission.Prelude.{
  ℕ, ◌≡◌, ◌≢◌, refl, sym, ap, ◌∙◌, false, Option, none, some, arith, Bool-cases, inl, inr, text_beq,
  nat_test, text_test, beq_self, beq_of_ne, ne_of_beq, ◌==◌, String, le→leb, ◌+◌, ◌<◌,
}
use mission.Prelude.Text.{Text, is_empty}
use mission.Prelude.Dict.{lookup, lookup-insert_same, lookup-insert_other, lookup-delete}
use mission.Sessions.Types.{TenantToken, session_not_found}
use mission.Sessions.Store.{Manager}
use mission.Sessions.Manager.{
  close_session_locked, replace_existing, add_session, register_session, session_locked, session_at,
  is_active_locked, found, lost, registered,
}

register_eq :
    (token : TenantToken) (name host : Text) (version : String) (now : ℕ) (m : Manager)
    → is_empty name ≡ false
    → is_empty host ≡ false
    → register_session token name host version now m ≡ (
      add_session token name host version now
          (replace_existing (lookup token.id m.by_token) name now m),
      registered m.next_session,
    )
unfolding register_session
register_eq token name host version now m named hosted = rw (named, hosted) refl

replaced-next :
    (o : Option ℕ) (name : Text) (now : ℕ) (m : Manager)
    → (replace_existing o name now m).next_session ≡ m.next_session
unfolding replace_existing close_session_locked
replaced-next none name now m = refl
replaced-next (some r) name now m = ground arith

add-found :
    (token : TenantToken) (name host : Text) (version : String) (now : ℕ) (m : Manager)
    → session_locked now token.id name (add_session token name host version now m)
      ≡ found m.next_session
unfolding session_locked session_at add_session is_active_locked
add-found token name host version now m =
    rw
      (
        lookup-insert_same name m.next_session m.by_id,
        beq_self m.next_session,
        beq_self token.id,
        le→leb now (now + m.stale_after) (omega arith),
      )
      refl

add-token :
    (token : TenantToken) (name host : Text) (version : String) (now : ℕ) (m : Manager)
    → lookup token.id (add_session token name host version now m).by_token ≡ some m.next_session
unfolding add_session
add-token token name host version now m = lookup-insert_same token.id m.next_session m.by_token

add-other :
    (token : TenantToken) (name host : Text) (version : String) (now : ℕ) (m : Manager) (other : ℕ)
    → other < m.next_session
    → (add_session token name host version now m).sessions other ≡ m.sessions other
unfolding add_session
add-other token name host version now m other l =
    rw (beq_of_ne m.next_session other (λ e. ground (arith, e))) refl

replaced-other :
    (ref other : ℕ) (name : Text) (now : ℕ) (m : Manager)
    → other ≢ ref
    → (replace_existing (some ref) name now m).sessions other ≡ m.sessions other
unfolding replace_existing close_session_locked
replaced-other ref other name now m n =
    elim (Bool-cases (text_beq (m.sessions ref).snapshot.session_id name)) [
      | inl h ↦ rw (h, beq_of_ne ref other (λ e. n (sym e))) refl
      | inr h ↦ rw (h, beq_of_ne ref other (λ e. n (sym e))) refl
    ]

add-forgets :
    (token : TenantToken) (name host : Text) (version : String) (now later t : ℕ) (old : Text)
    (m : Manager)
    → lookup old m.by_id ≡ none
    → (name == old) ≡ false
    → session_locked later t old (add_session token name host version now m)
      ≡ lost session_not_found
unfolding session_locked session_at add_session
add-forgets token name host version now later t old m e n =
    rw (lookup-insert_other name old m.next_session m.by_id n, e) refl

-- A registration with a name and a hostname succeeds, and from then on the new session is the one of
-- its token and the one that its token finds under its name.
pub register_session-found :
    (token : TenantToken) (name host : Text) (version : String) (now : ℕ) (m : Manager)
    → is_empty name ≡ false
    → is_empty host ≡ false
    → ((register_session token name host version now m).1 ≡ registered m.next_session)
      × ((session_locked now token.id name (register_session token name host version now m).0
            ≡ found m.next_session)
          × (lookup token.id (register_session token name host version now m).0.by_token
              ≡ some m.next_session))
register_session-found token name host version now m named hosted =
    rw (register_eq token name host version now m named hosted) (
      refl,
      (
        add-found token name host version now _
            ∙ ap found (replaced-next (lookup token.id m.by_token) name now m),
        add-token token name host version now _
            ∙ ap some (replaced-next (lookup token.id m.by_token) name now m),
      ),
    )

replaced-forgets :
    (ref : ℕ) (name : Text) (now : ℕ) (m : Manager)
    → text_beq (m.sessions ref).snapshot.session_id name ≡ false
    → lookup (m.sessions ref).snapshot.session_id (replace_existing (some ref) name now m).by_id
      ≡ none
unfolding replace_existing close_session_locked
replaced-forgets ref name now m d = rw d (
    rw
      (
        lookup-delete (m.sessions ref).snapshot.session_id (m.sessions ref).snapshot.session_id
            m.by_id,
        beq_self (m.sessions ref).snapshot.session_id,
      )
      refl)

-- The name of the session that a registration replaces leads nowhere afterwards, whichever session it
-- led to before: a session of another token that was registered under that name since, although it
-- stays as active as it was, is not found by its own token any more.
pub register_session-forgets :
    (token : TenantToken) (name host : Text) (version : String) (now later : ℕ) (m : Manager)
    (ref other : ℕ)
    → is_empty name ≡ false
    → is_empty host ≡ false
    → lookup token.id m.by_token ≡ some ref
    → text_beq (m.sessions ref).snapshot.session_id name ≡ false
    → lookup (m.sessions ref).snapshot.session_id m.by_id ≡ some other
    → other ≢ ref
    → other < m.next_session
    → ((register_session token name host version now m).0.sessions other ≡ m.sessions other)
      × (session_locked later
            (m.sessions other).snapshot.token_id
            (m.sessions ref).snapshot.session_id
            (register_session token name host version now m).0
          ≡ lost session_not_found)
register_session-forgets token name host version now later m ref other named hosted held d led apart
      made =
    rw (register_eq token name host version now m named hosted, held)
      (
        add-other token name host version now _ other
              (rw (replaced-next (some ref) name now m) made)
            ∙ replaced-other ref other name now m apart,
        add-forgets token name host version now later (m.sessions other).snapshot.token_id
            (m.sessions ref).snapshot.session_id _ (replaced-forgets ref name now m d)
            (beq_of_ne name (m.sessions ref).snapshot.session_id
              (λ e. ne_of_beq (m.sessions ref).snapshot.session_id name d (sym e))),
      )
