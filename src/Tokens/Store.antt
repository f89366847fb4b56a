-- ===== src/Tokens/Store.antt =====
-- The rows of tenant_tokens and the statements of internal/controlplane/repository/tenant_token.go on them.
-- Identifiers are numbers that the database hands out in order; hashes are texts.
use mission.Prelude.{
  ℕ, suc, Bool, true, false, ◌&&◌, Option, none, some, List, [], ◌∷◌, ◌++◌, nat_beq, if◌then◌else◌,
}
use mission.Prelude.Text.{Text}
use mission.Prelude.Equality.{text_beq}

pub record TenantToken : Type 0 where
  pub id : ℕ
  pub tenant_id : ℕ
  pub label : Text
  pub token_hash : Text
  pub created_at : ℕ
  pub last_used_at : Option ℕ
  pub revoked_at : Option ℕ

abbrev pub is_active : TenantToken → Bool
is_active t = elim t.revoked_at [ none ↦ true | some _ ↦ false ]

pub record Store : Type 0 where
  pub rows : List TenantToken
  pub next_id : ℕ

abbrev pub new_token : ℕ → ℕ → Text → Text → ℕ → TenantToken
new_token id tenant label hash now = record {
  id = id;
  tenant_id = tenant;
  label = label;
  token_hash = hash;
  created_at = now;
  last_used_at = none;
  revoked_at = none;
}

-- `Create`.
unfoldable pub create : ℕ → Text → Text → ℕ → Store → TenantToken × Store
create tenant label hash now s =
    let t = new_token s.next_id tenant label hash now in
    (t, record { rows = s.rows ++ t ∷ []; next_id = suc s.next_id })

-- An UPDATE of the rows that pass a test, and whether there were any.
unfoldable pub update_where :
    (TenantToken → Bool) → (TenantToken → TenantToken) → List TenantToken → List TenantToken
update_where test change [] = []
update_where test change (t ∷ ts) = (if test t then change t else t) ∷ update_where test change ts

unfoldable pub any_row : (TenantToken → Bool) → List TenantToken → Bool
any_row test [] = false
any_row test (t ∷ ts) = let rest = any_row test ts in if test t then true else rest

abbrev pub revocable : ℕ → ℕ → TenantToken → Bool
revocable tenant id t = nat_beq t.id id && (nat_beq t.tenant_id tenant && is_active t)

abbrev pub revoked : ℕ → TenantToken → TenantToken
revoked now t = record t { revoked_at = some now }

-- `Revoke`; false is ErrNotFound.
unfoldable pub revoke : ℕ → ℕ → ℕ → Store → Bool × Store
unfolding any_row update_where
revoke tenant id now s = (
  any_row (revocable tenant id) s.rows,
  record s { rows = update_where (revocable tenant id) (revoked now) s.rows },
)

-- `LookupActiveByHash`.
unfoldable pub lookup_active : Text → List TenantToken → Option TenantToken
lookup_active hash [] = none
lookup_active hash (t ∷ ts) =
    let rest = lookup_active hash ts in
    if text_beq t.token_hash hash && is_active t then some t else rest

abbrev pub touchable : ℕ → TenantToken → Bool
touchable id t = nat_beq t.id id && is_active t

abbrev pub touched : ℕ → TenantToken → TenantToken
touched now t = record t { last_used_at = some now }

-- `TouchLastUsed`; false is ErrNotFound.
unfoldable pub touch_last_used : ℕ → ℕ → Store → Bool × Store
unfolding any_row update_where
touch_last_used id now s = (
  any_row (touchable id) s.rows,
  record s { rows = update_where (touchable id) (touched now) s.rows },
)
