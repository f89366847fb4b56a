-- ===== src/Tokens/Access.antt =====
-- Exactly which requests `RequireAgentToken` of internal/controlplane/auth/agent.go lets through.
use mission.Prelude.{
  ℕ, ◌≡◌, ◌↔◌, refl, sym, ap, subst, ◌∙◌, arith, Bool, Bool-cases, inl, inr, true, false, ◌&&◌,
  Option, none, some, some_inj, List, [], ◌∷◌, ◌++◌, In,
}
use mission.Prelude.Text.{Text, codes, is_empty, has_prefix, trim_space}
use mission.Prelude.Prefix.{has_prefix-append}
use mission.Prelude.Trim.{
  Blank, IsSolid, IsSolid-full, trim_space_cut, trim_space-IsSolid, trim_space-around,
}
use mission.Prelude.Equality.{text_beq, text_beq_iff}
use mission.Tokens.Store.{
  TenantToken, Store, is_active, any_row, lookup_active, touchable, touch_last_used,
}
use mission.Tokens.Bearer.{
  scheme, without_prefix, bearer_token_from_header, Agent, next_handler, agent_of, touch,
  with_token, require_agent_token,
}
use mission.Tokens.Authority.{require_agent_token-Vouched}

-- The header is "Bearer " and the token, with white space around it at most.
pub record Presents (header token : Text) : Type 0 where
  pub left : Text
  pub right : Text
  pub left_blank : Blank left
  pub right_blank : Blank right
  pub solid : IsSolid token
  pub written : header ≡ codes "Bearer " ++ (left ++ (token ++ right))

-- The token of the header is that of a stored row that is not revoked, and the agent is the row's.
pub record Entitled (hash : Text → Text) (header : Text) (s : Store) (agent : Agent) : Type 0 where
  pub token : Text
  pub presented : Presents header token
  pub row : TenantToken
  pub stored : In row s.rows
  pub not_revoked : row.revoked_at ≡ none
  pub hashed : row.token_hash ≡ hash token
  pub token_id : agent.token_id ≡ row.id
  pub tenant_id : agent.tenant_id ≡ row.tenant_id
  pub label : agent.label ≡ row.label

prefix_cut : (s p : Text) → has_prefix s p ≡ true → s ≡ p ++ without_prefix s p
unfolding has_prefix without_prefix
prefix_cut s [] h = refl
prefix_cut [] (p ∷ ps) h = absurd (ground (arith, h))
prefix_cut (c ∷ s) (p ∷ ps) h =
    let same : c ≡ p = ground (arith, h) in
    ap (λ x. x ∷ s) same ∙ ap (◌∷◌ p) (prefix_cut s ps (ground (arith, h)))

pub without_prefix-append : (p s : Text) → without_prefix (p ++ s) p ≡ s
unfolding without_prefix
without_prefix-append [] s = refl
without_prefix-append (c ∷ p) s = without_prefix-append p s

bearer_token-Presents :
    (header token : Text) → bearer_token_from_header header ≡ some token → Presents header token
unfolding bearer_token_from_header
bearer_token-Presents header token h =
    let body = without_prefix header scheme in
    elim (Bool-cases (has_prefix header scheme)) [
      | inl p ↦ elim (Bool-cases (is_empty (trim_space body))) [
        | inl e ↦ absurd (ground (arith, h, p, e))
        | inr e ↦
            let same : trim_space body ≡ token = some_inj (ground (arith, h, p, e)) in
            let (l, (r, (bl, (br, cut)))) = trim_space_cut body in
            record {
              left = l;
              right = r;
              left_blank = bl;
              right_blank = br;
              solid = subst IsSolid same (trim_space-IsSolid body e);
              written =
                  prefix_cut header scheme p
                  ∙ ap (λ x. scheme ++ x) (cut ∙ ap (λ t. l ++ (t ++ r)) same);
            }
      ]
      | inr p ↦ absurd (ground (arith, h, p))
    ]

Presents-bearer_token :
    (header token : Text) → Presents header token → bearer_token_from_header header ≡ some token
unfolding bearer_token_from_header
Presents-bearer_token header token v =
    let body = v.left ++ (token ++ v.right) in
    let trimmed = trim_space-around v.left token v.right v.left_blank v.right_blank v.solid in
    ap bearer_token_from_header v.written
    ∙ rw (has_prefix-append scheme body)
        (rw (without_prefix-append scheme body) (rw trimmed (rw (IsSolid-full token v.solid) refl)))

active-not_revoked : (o : TenantToken) → is_active o ≡ true → o.revoked_at ≡ none
active-not_revoked t h = go t.revoked_at h
  where
    go : (o : Option ℕ) → (elim o as (λ _. Bool) [ none ↦ true | some _ ↦ false ]) ≡ true → o ≡ none
    go none h = refl
    go (some x) h = absurd (ground (arith, h))

not_revoked-active : (t : TenantToken) → t.revoked_at ≡ none → is_active t ≡ true
not_revoked-active t h = ap (λ o. elim o as (λ _. Bool) [ none ↦ true | some _ ↦ false ]) h

-- The first active row of a hash is the only one.
In-lookup_active :
    (hash : Text) (ts : List TenantToken) (t : TenantToken)
    → In t ts
    → is_active t ≡ true
    → t.token_hash ≡ hash
    → ((u : TenantToken) → In u ts → is_active u ≡ true → u.token_hash ≡ hash → u ≡ t)
    → lookup_active hash ts ≡ some t
unfolding lookup_active
In-lookup_active hash [] t i a h unique = elim i [ ]
In-lookup_active hash (u ∷ us) t i a h unique =
    elim (Bool-cases (text_beq u.token_hash hash && is_active u)) [
      | inl k ↦ rw k (
          ap some (
            unique u (inl refl) (ground (arith, k))
              ((text_beq_iff u.token_hash hash).0 (ground (arith, k)))))
      | inr k ↦ elim i [
        | inl e ↦ absurd (
            ground (
              arith,
              k,
              sym (ap is_active e) ∙ a,
              (text_beq_iff u.token_hash hash).1
                  (sym (ap (λ (x : TenantToken). x.token_hash) e) ∙ h),
            ))
        | inr j ↦ rw k (In-lookup_active hash us t j a h (λ v i2. unique v (inr i2)))
      ]
    ]

In-any_row :
    (test : TenantToken → Bool) (ts : List TenantToken) (t : TenantToken)
    → In t ts
    → test t ≡ true
    → any_row test ts ≡ true
unfolding any_row
In-any_row test [] t i h = elim i [ ]
In-any_row test (u ∷ us) t (inl e) h = rw (sym (ap test e) ∙ h) refl
In-any_row test (u ∷ us) t (inr i) h = ground (arith, In-any_row test us t i h)

same_agent :
    (a : Agent) (t : TenantToken)
    → a.token_id ≡ t.id
    → a.tenant_id ≡ t.tenant_id
    → a.label ≡ t.label
    → agent_of t ≡ a
same_agent a t h k l = rw (sym h, sym k, sym l) refl

touch-no_fault :
    (fault : Bool) (now : ℕ) (s : Store) (agent : Agent) (r : Option TenantToken)
    → (touch fault now r s).0 ≡ next_handler agent
    → fault ≡ false
unfolding touch
touch-no_fault fault now s agent none h = absurd (ground (arith, h))
touch-no_fault true now s agent (some t) h = absurd (ground (arith, h))
touch-no_fault false now s agent (some t) h = refl

with_token-no_fault :
    (hash : Text → Text) (lookup_fault touch_fault : Bool) (now : ℕ) (s : Store) (agent : Agent)
    (o : Option Text)
    → (with_token hash lookup_fault touch_fault now o s).0 ≡ next_handler agent
    → (lookup_fault ≡ false) × (touch_fault ≡ false)
unfolding with_token
with_token-no_fault hash lf tf now s agent none h = absurd (ground (arith, h))
with_token-no_fault hash true tf now s agent (some t) h = absurd (ground (arith, h))
with_token-no_fault hash false tf now s agent (some t) h =
    (refl, touch-no_fault tf now s agent (lookup_active (hash t) s.rows) h)

module _ (hash : Text → Text) (lookup_fault touch_fault : Bool) (now : ℕ) (header : Text)
    (s : Store) (agent : Agent) where
  through-Entitled :
      (require_agent_token hash lookup_fault touch_fault now header s).0 ≡ next_handler agent
      → Entitled hash header s agent
  through-Entitled h =
      let v = require_agent_token-Vouched hash lookup_fault touch_fault now header s agent h in
      record {
        token = v.token;
        presented = bearer_token-Presents header v.token v.presented;
        row = v.row;
        stored = v.stored;
        not_revoked = active-not_revoked v.row v.active;
        hashed = v.hashed;
        token_id = ap (λ (a : Agent). a.token_id) v.named;
        tenant_id = ap (λ (a : Agent). a.tenant_id) v.named;
        label = ap (λ (a : Agent). a.label) v.named;
      }

  through-no_fault :
      (require_agent_token hash lookup_fault touch_fault now header s).0 ≡ next_handler agent
      → (lookup_fault ≡ false) × (touch_fault ≡ false)
  unfolding require_agent_token
  through-no_fault h = with_token-no_fault hash lookup_fault touch_fault now s agent _ h

  Entitled-through :
      lookup_fault ≡ false
      → touch_fault ≡ false
      → ((t u : TenantToken)
          → In t s.rows
          → In u s.rows
          → t.revoked_at ≡ none
          → u.revoked_at ≡ none
          → t.token_hash ≡ u.token_hash
          → t ≡ u)
      → Entitled hash header s agent
      → (require_agent_token hash lookup_fault touch_fault now header s).0 ≡ next_handler agent
  unfolding require_agent_token with_token touch touch_last_used
  Entitled-through fine fine' unique v =
      let active = not_revoked-active v.row v.not_revoked in
      let found = In-lookup_active (hash v.token) s.rows v.row v.stored active v.hashed (λ u i a h.
        unique u v.row i v.stored (active-not_revoked u a) v.not_revoked (h ∙ sym v.hashed)) in
      let row = In-any_row (touchable v.row.id) s.rows v.row v.stored (ground (arith, active)) in
      rw (Presents-bearer_token header v.token v.presented) (
        rw (fine, fine', found)
          (rw row (ap next_handler (same_agent agent v.row v.token_id v.tenant_id v.label))))

  -- Where the hashes of the rows that are not revoked differ, as the unique index of the table has it: a
  -- request gets through as an agent exactly when the two calls of the database succeed, the header is
  -- "Bearer " and a token, with white space around it at most, the token is not empty, there is a stored
  -- row with the hash of that token that is not revoked, and the agent has the row's identifier, tenant and
  -- label.
  pub require_agent_token-Entitled_iff :
      ((t u : TenantToken)
        → In t s.rows
        → In u s.rows
        → t.revoked_at ≡ none
        → u.revoked_at ≡ none
        → t.token_hash ≡ u.token_hash
        → t ≡ u)
      → ((require_agent_token hash lookup_fault touch_fault now header s).0 ≡ next_handler agent)
        ↔ ((lookup_fault ≡ false) × ((touch_fault ≡ false) × Entitled hash header s agent))
  require_agent_token-Entitled_iff unique = (
    λ h. let (f, g) = through-no_fault h in (f, (g, through-Entitled h)),
    λ v. Entitled-through v.0 v.1.0 unique v.1.1,
  )
