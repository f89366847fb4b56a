-- ===== src/Tokens/Authority.antt =====
-- The checks of `RequireAgentToken` of internal/controlplane/auth/agent.go.
use mission.Prelude.{
  ℕ, ◌≡◌, refl, sym, ap, ◌∙◌, arith, Bool, Bool-cases, inl, inr, true, ◌&&◌, Option, none, some,
  List, [], ◌∷◌, In,
}
use mission.Prelude.Text.{Text}
use mission.Prelude.Equality.{text_beq, text_beq_iff}
use mission.Tokens.Store.{
  TenantToken, Store, is_active, any_row, lookup_active, touchable, touch_last_used,
}
use mission.Tokens.Bearer.{
  bearer_token_from_header, Agent, next_handler, agent_of, touch, with_token, require_agent_token,
}

-- The row that a hash names.
lookup_active-In :
    (hash : Text) (ts : List TenantToken) (t : TenantToken)
    → lookup_active hash ts ≡ some t
    → In t ts × ((is_active t ≡ true) × (t.token_hash ≡ hash))
unfolding lookup_active
lookup_active-In hash [] t h = absurd (ground (arith, h))
lookup_active-In hash (u ∷ us) t h = elim (Bool-cases (text_beq u.token_hash hash && is_active u)) [
  | inl yes_ ↦ here (ground (arith, h, yes_)) yes_
  | inr no_ ↦ let (i, rest) = lookup_active-In hash us t (ground (arith, h, no_)) in (inr i, rest)
]
  where
    here :
        u ≡ t
        → text_beq u.token_hash hash && is_active u ≡ true
        → In t (u ∷ us) × ((is_active t ≡ true) × (t.token_hash ≡ hash))
    here e y = (
      inl (sym e),
      (
        sym (ap is_active e) ∙ ground (arith, y),
        sym (ap (λ (x : TenantToken). x.token_hash) e)
            ∙ (text_beq_iff u.token_hash hash).0 (ground (arith, y)),
      ),
    )

-- Why a request got through.
pub record Vouched (hash : Text → Text) (header : Text) (s : Store) (agent : Agent) : Type 0 where
  pub token : Text
  pub row : TenantToken
  pub presented : bearer_token_from_header header ≡ some token
  pub stored : In row s.rows
  pub active : is_active row ≡ true
  pub hashed : row.token_hash ≡ hash token
  pub touched : any_row (touchable row.id) s.rows ≡ true
  pub named : agent ≡ agent_of row

module _ (touch_fault : Bool) (now : ℕ) (s : Store) (agent : Agent) where
  -- What a token that gets through was found to be.
  touch-row :
      (r : Option TenantToken)
      → (touch touch_fault now r s).0 ≡ next_handler agent
      → (t : TenantToken) × ((r ≡ some t)
          × ((any_row (touchable t.id) s.rows ≡ true) × (agent ≡ agent_of t)))
  unfolding touch touch_last_used
  touch-row none h = absurd (ground (arith, h))
  touch-row (some t) h = elim (Bool-cases touch_fault) [
    | inl f ↦ absurd (ground (arith, h, f))
    | inr f ↦ elim (Bool-cases (any_row (touchable t.id) s.rows)) [
      | inl k ↦ (t, (refl, (k, ground (arith, h, f, k))))
      | inr k ↦ absurd (ground (arith, h, f, k))
    ]
  ]

module _ (hash : Text → Text) (lookup_fault touch_fault : Bool) (now : ℕ) (header : Text)
    (s : Store) (agent : Agent) where
  with_token-Vouched :
      (o : Option Text)
      → bearer_token_from_header header ≡ o
      → (with_token hash lookup_fault touch_fault now o s).0 ≡ next_handler agent
      → Vouched hash header s agent
  unfolding with_token
  with_token-Vouched none p h = absurd (ground (arith, h))
  with_token-Vouched (some token) p h = elim (Bool-cases lookup_fault) [
    | inl f ↦ absurd (ground (arith, h, f))
    | inr f ↦ found (
        touch-row touch_fault now s agent (lookup_active (hash token) s.rows)
          (ground (arith, h, f)))
  ]
    where
      found :
          (t : TenantToken) × ((lookup_active (hash token) s.rows ≡ some t)
              × ((any_row (touchable t.id) s.rows ≡ true) × (agent ≡ agent_of t)))
          → Vouched hash header s agent
      found (t, (q, (k, e))) =
          let (i, (a, e')) = lookup_active-In (hash token) s.rows t q in
          record {
            token = token;
            row = t;
            presented = p;
            stored = i;
            active = a;
            hashed = e';
            touched = k;
            named = e;
          }

  -- What the code has checked of a request that gets through.
  pub require_agent_token-Vouched :
      (require_agent_token hash lookup_fault touch_fault now header s).0 ≡ next_handler agent
      → Vouched hash header s agent
  unfolding require_agent_token
  require_agent_token-Vouched h = with_token-Vouched (bearer_token_from_header header) refl h
