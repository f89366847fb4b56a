-- ===== src/Tokens/Lifecycle.antt =====
-- A token from its issue to its revocation, through internal/controlplane/controller/tenant.go and
-- internal/controlplane/auth/agent.go.
use mission.Prelude.{
  ℕ, ◌<◌, ◌≡◌, refl, sym, ap, ◌∙◌, arith, Bool, Bool-cases, inl, inr, true, false, ◌||◌, Option,
  none, some, List, [], ◌∷◌, ◌++◌, In, if◌then◌else◌,
}
use mission.Prelude.Text.{Text, is_empty, trim_space}
use mission.Prelude.Equality.{text_beq_iff}
use mission.Tokens.Store.{
  TenantToken, Store, is_active, new_token, create, update_where, any_row, revocable, revoked,
  revoke, lookup_active, touchable, touched, touch_last_used,
}
use mission.Tokens.Issue.{
  issued, label_wrong, generate_token, issue_agent_token, revoke_agent_token, token_prefix,
  issue_plain,
}
use mission.Tokens.Bearer.{
  scheme, bearer_token_from_header, Agent, next_handler, touch, with_token, require_agent_token,
}
use mission.Prelude.Prefix.{has_prefix-append}
use mission.Tokens.Access.{without_prefix-append}
use mission.Tokens.Authority.{require_agent_token-Vouched}

-- What touches the tokens of all tenants, with the faults and the time of each step.
pub data Operation : Type 0 where
  issuing : Bool → ℕ → ℕ → Option Text → Text → Operation
  revoking : Bool → ℕ → ℕ → ℕ → Operation
  requesting : Bool → Bool → ℕ → Text → Operation

unfoldable pub perform : (Text → Text) → Operation → Store → Store
perform hash (issuing fault now tenant random label) s =
    (issue_agent_token hash fault now tenant random label s).1
perform hash (revoking fault now tenant id) s = (revoke_agent_token fault now tenant id s).1
perform hash (requesting lookup_fault touch_fault now header) s =
    (require_agent_token hash lookup_fault touch_fault now header s).1

unfoldable pub run : (Text → Text) → List Operation → Store → Store
unfolding perform
run hash [] s = s
run hash (o ∷ os) s = run hash os (perform hash o s)

-- The identifier was handed out, and no row that has it is active.
record IsGone (id : ℕ) (s : Store) : Type 0 where
  known : id < s.next_id
  inactive : any_row (touchable id) s.rows ≡ false

any_row-update_where :
    (id : ℕ) (test : TenantToken → Bool) (change : TenantToken → TenantToken)
    (ts : List TenantToken)
    → ((t : TenantToken) → In t ts → touchable id (if test t then change t else t) ≡ false)
    → any_row (touchable id) (update_where test change ts) ≡ false
unfolding any_row update_where
any_row-update_where id test change [] h = refl
any_row-update_where id test change (t ∷ ts) h =
    rw (h t (inl refl)) (any_row-update_where id test change ts (λ u i. h u (inr i)))

any_row-In :
    (id : ℕ) (t : TenantToken) (ts : List TenantToken)
    → any_row (touchable id) ts ≡ false
    → In t ts
    → touchable id t ≡ false
unfolding any_row
any_row-In id t (u ∷ us) h (inl e) = ap (touchable id) e ∙ ground (arith, h)
any_row-In id t (u ∷ us) h (inr i) = any_row-In id t us (ground (arith, h)) i
any_row-In id t [] h i = elim i [ ]

any_row-append :
    (test : TenantToken → Bool) (ts : List TenantToken) (t : TenantToken)
    → any_row test (ts ++ t ∷ []) ≡ any_row test ts || test t
unfolding any_row
any_row-append test [] t = ground arith
any_row-append test (u ∷ us) t = ground (arith, any_row-append test us t)

module _ (id : ℕ) (t : TenantToken) where
  still_revoked :
      (now : ℕ) (b : Bool)
      → touchable id t ≡ false
      → touchable id (if b then revoked now t else t) ≡ false
  still_revoked now true h = ground arith
  still_revoked now false h = h

  still_touched :
      (now : ℕ) (b : Bool)
      → touchable id t ≡ false
      → touchable id (if b then touched now t else t) ≡ false
  still_touched now true h = h
  still_touched now false h = h

issue-IsGone :
    (hash : Text → Text) (fault : Bool) (now tenant id : ℕ) (plain : Option Text) (label : Text)
    (s : Store)
    → IsGone id s
    → IsGone id (issue_plain hash fault now tenant plain label s).1
unfolding issue_plain create
issue-IsGone hash fault now tenant id none label s g = g
issue-IsGone hash true now tenant id (some p) label s g = g
issue-IsGone hash false now tenant id (some p) label s g = record {
  known = omega (arith, g.known);
  inactive = any_row-append (touchable id) s.rows _ ∙ ground (arith, g.inactive, g.known);
}

touch-IsGone :
    (fault : Bool) (now id : ℕ) (r : Option TenantToken) (s : Store)
    → IsGone id s
    → IsGone id (touch fault now r s).1
unfolding touch touch_last_used
touch-IsGone fault now id none s g = g
touch-IsGone true now id (some t) s g = g
touch-IsGone false now id (some t) s g = record {
  known = g.known;
  inactive =
      any_row-update_where id (touchable t.id) (touched now) s.rows
        (λ u i. still_touched id u now (touchable t.id u) (any_row-In id u s.rows g.inactive i));
}

with_token-IsGone :
    (hash : Text → Text) (lf tf : Bool) (now id : ℕ) (o : Option Text) (s : Store)
    → IsGone id s
    → IsGone id (with_token hash lf tf now o s).1
unfolding with_token
with_token-IsGone hash lf tf now id none s g = g
with_token-IsGone hash true tf now id (some token) s g = g
with_token-IsGone hash false tf now id (some token) s g =
    touch-IsGone tf now id (lookup_active (hash token) s.rows) s g

issue_agent_token-IsGone :
    (hash : Text → Text) (fault : Bool) (now tenant id : ℕ) (random : Option Text) (label : Text)
    (s : Store)
    → IsGone id s
    → IsGone id (issue_agent_token hash fault now tenant random label s).1
unfolding issue_agent_token
issue_agent_token-IsGone hash fault now tenant id random label s g =
    elim (Bool-cases (label_wrong label)) [
      | inl w ↦ rw w g
      | inr w ↦ rw w (issue-IsGone hash fault now tenant id (generate_token random) label s g)
    ]

perform-IsGone :
    (hash : Text → Text) (id : ℕ) (o : Operation) (s : Store)
    → IsGone id s
    → IsGone id (perform hash o s)
unfolding perform issue_agent_token revoke_agent_token revoke require_agent_token
perform-IsGone hash id (issuing fault now tenant random label) s g =
    issue_agent_token-IsGone hash fault now tenant id random label s g
perform-IsGone hash id (revoking true now tenant other) s g = g
perform-IsGone hash id (revoking false now tenant other) s g = record {
  known = g.known;
  inactive = any_row-update_where id (revocable tenant other) (revoked now) s.rows (λ u i.
      still_revoked id u now (revocable tenant other u) (any_row-In id u s.rows g.inactive i));
}
perform-IsGone hash id (requesting lf tf now header) s g =
    with_token-IsGone hash lf tf now id (bearer_token_from_header header) s g

run-IsGone :
    (hash : Text → Text) (id : ℕ) (os : List Operation) (s : Store)
    → IsGone id s
    → IsGone id (run hash os s)
unfolding run
run-IsGone hash id [] s g = g
run-IsGone hash id (o ∷ os) s g =
    run-IsGone hash id os (perform hash o s) (perform-IsGone hash id o s g)

revoke-IsGone :
    (now tenant id : ℕ) (s : Store)
    → id < s.next_id
    → ((t : TenantToken) → In t s.rows → t.id ≡ id → t.tenant_id ≡ tenant)
    → IsGone id (revoke_agent_token false now tenant id s).1
unfolding revoke_agent_token revoke
revoke-IsGone now tenant id s known own = record {
  known = known;
  inactive =
      any_row-update_where id (revocable tenant id) (revoked now) s.rows (λ t i. ended t (own t i));
}
  where
    ended :
        (t : TenantToken)
        → (t.id ≡ id → t.tenant_id ≡ tenant)
        → touchable id (if revocable tenant id t then revoked now t else t) ≡ false
    ended t o = elim (Bool-cases (revocable tenant id t)) [
      | inl r ↦ rw r (ground arith)
      | inr r ↦ rw r (ground (arith, r, o))
    ]

-- Once a tenant has revoked one of its tokens, no request gets through as that token any more, whatever
-- tokens are issued and revoked and whatever requests are made in between, by anyone.
pub revoked_for_good :
    (hash : Text → Text) (now tenant id : ℕ) (s : Store) (os : List Operation)
    → id < s.next_id
    → ((t : TenantToken) → In t s.rows → t.id ≡ id → t.tenant_id ≡ tenant)
    → (lookup_fault touch_fault : Bool) (later : ℕ) (header : Text) (agent : Agent)
    → (require_agent_token hash lookup_fault touch_fault later header
        (run hash os (revoke_agent_token false now tenant id s).1)).0
      ≡ next_handler agent
    → ¬ (agent.token_id ≡ id)
revoked_for_good hash now tenant id s os known own lf tf later header agent h e =
    let g = run-IsGone hash id os _ (revoke-IsGone now tenant id s known own) in
    let v =
      require_agent_token-Vouched hash lf tf later header
        (run hash os (revoke_agent_token false now tenant id s).1) agent h in
    let same : v.row.id ≡ id = sym (ap (λ (a : Agent). a.token_id) v.named) ∙ e in
    let active : any_row (touchable id)
          (run hash os (revoke_agent_token false now tenant id s).1).rows
        ≡ true =
      sym (
        ap
          (λ i.
            any_row (touchable i) (run hash os (revoke_agent_token false now tenant id s).1).rows)
          same)
      ∙ v.touched in
    absurd (ground (arith, active, g.inactive))

-- A token that nothing else has the hash of is found where it was inserted.
lookup_active-append :
    (hash : Text) (ts : List TenantToken) (t : TenantToken)
    → lookup_active hash ts ≡ none
    → t.token_hash ≡ hash
    → is_active t ≡ true
    → lookup_active hash (ts ++ t ∷ []) ≡ some t
unfolding lookup_active
lookup_active-append hash [] t n h a = rw ((text_beq_iff t.token_hash hash).1 h, a) refl
lookup_active-append hash (u ∷ us) t n h a =
    ground (arith, n, lookup_active-append hash us t (ground (arith, n)) h a)

bearer-append :
    (token : Text)
    → trim_space token ≡ token
    → is_empty token ≡ false
    → bearer_token_from_header (scheme ++ token) ≡ some token
unfolding bearer_token_from_header
bearer-append token trimmed left =
    rw (has_prefix-append scheme token, without_prefix-append scheme token, trimmed, left) refl

-- A token that was issued lets its holder in: when the label is allowed, nothing fails and the random text
-- has no space at its end, and no active row has the token's hash yet, a request with the header "Bearer "
-- and the plaintext that was returned gets through as the new row's identifier, tenant and label.
pub require_agent_token-issue :
    (hash : Text → Text) (now later tenant : ℕ) (random label : Text) (s : Store)
    → label_wrong label ≡ false
    → trim_space (token_prefix ++ random) ≡ token_prefix ++ random
    → lookup_active (hash (token_prefix ++ random)) s.rows ≡ none
    → ((issue_agent_token hash false now tenant (some random) label s).0
        ≡ issued
            (new_token s.next_id tenant label (hash (token_prefix ++ random)) now)
            (token_prefix ++ random))
      × ((require_agent_token hash false false later
            (scheme ++ (token_prefix ++ random))
            (issue_agent_token hash false now tenant (some random) label s).1).0
          ≡ next_handler (record { token_id = s.next_id; tenant_id = tenant; label = label }))
unfolding issue_agent_token issue_plain create generate_token require_agent_token with_token touch
    touch_last_used
require_agent_token-issue hash now later tenant random label s allowed trimmed fresh =
    let new = new_token s.next_id tenant label (hash (token_prefix ++ random)) now in
    let active : any_row (touchable s.next_id) (s.rows ++ new ∷ []) ≡ true =
      any_row-append (touchable s.next_id) s.rows new ∙ ground arith in
    rw allowed (
      refl,
      rw (bearer-append (token_prefix ++ random) trimmed refl) (
          rw (lookup_active-append (hash (token_prefix ++ random)) s.rows new fresh refl refl)
            (rw active refl)),
    )
