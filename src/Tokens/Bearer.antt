-- ===== src/Tokens/Bearer.antt =====
-- `bearerTokenFromHeader` of internal/controlplane/auth/auth.go and `RequireAgentToken` of
-- internal/controlplane/auth/agent.go, as the response or the agent that the next handler gets.
use mission.Prelude.{ℕ, Bool, Option, none, some, [], ◌∷◌, if◌then◌else◌}
use mission.Prelude.Text.{Text, codes, is_empty, has_prefix, trim_space}
use mission.Tokens.Store.{TenantToken, Store, lookup_active, touch_last_used}

-- Go's `strings.TrimPrefix`, when the prefix is there.
unfoldable pub without_prefix : Text → Text → Text
without_prefix s [] = s
without_prefix [] (p ∷ ps) = []
without_prefix (c ∷ s) (p ∷ ps) = without_prefix s ps

abbrev pub scheme : Text
scheme = codes "Bearer "

unfoldable pub bearer_token_from_header : Text → Option Text
unfolding without_prefix
bearer_token_from_header header =
    let token = trim_space (without_prefix header scheme) in
    if has_prefix header scheme then (if is_empty token then none else some token) else none

pub record Agent : Type 0 where
  pub token_id : ℕ
  pub tenant_id : ℕ
  pub label : Text

pub data Response : Type 0 where
  missing_bearer_token invalid_token token_lookup_failed token_touch_failed : Response
  next_handler : Agent → Response

abbrev pub agent_of : TenantToken → Agent
agent_of t = record { token_id = t.id; tenant_id = t.tenant_id; label = t.label }

-- The token that was found is touched; the first argument is a fault of the database.
unfoldable pub touch : Bool → ℕ → Option TenantToken → Store → Response × Store
touch fault now none s = (invalid_token, s)
touch fault now (some t) s =
    let (found, s') = touch_last_used t.id now s in
    if fault
    then (token_touch_failed, s)
    else (if found then next_handler (agent_of t) else invalid_token, s')

module _ (hash : Text → Text) (lookup_fault touch_fault : Bool) (now : ℕ) where
  unfoldable pub with_token : Option Text → Store → Response × Store
  unfolding touch lookup_active
  with_token none s = (missing_bearer_token, s)
  with_token (some token) s =
      let done = touch touch_fault now (lookup_active (hash token) s.rows) s in
      if lookup_fault then (token_lookup_failed, s) else done

  unfoldable pub require_agent_token : Text → Store → Response × Store
  unfolding with_token bearer_token_from_header
  require_agent_token header s = with_token (bearer_token_from_header header) s
