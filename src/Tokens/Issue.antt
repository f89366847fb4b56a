-- ===== src/Tokens/Issue.antt =====
-- `IssueAgentToken` and `RevokeAgentToken` of internal/controlplane/controller/tenant.go. The random bytes,
-- encoded, are an argument; `none` is a generator that fails. `hash` is SHA-256.
use mission.Prelude.{ℕ, ◌+◌, Bool, ◌||◌, Option, none, some, [], ◌∷◌, ◌++◌, ltb, if◌then◌else◌}
use mission.Prelude.Text.{Text, codes}
use mission.Tokens.Store.{TenantToken, Store, create, revoke}

pub data Error : Type 0 where
  invalid_label generate_token_failed store_failed not_found : Error

pub data Issued : Type 0 where
  issued : TenantToken → Text → Issued
  refused : Error → Issued

-- The bytes of a character in UTF-8.
abbrev utf8_length : ℕ → ℕ
utf8_length c = if ltb c 0x80 then 1 else if ltb c 0x800 then 2 else if ltb c 0x10000 then 3 else 4

-- Go's `len`.
unfoldable pub byte_length : Text → ℕ
byte_length [] = 0
byte_length (c ∷ s) = utf8_length c + byte_length s

abbrev pub token_prefix : Text
token_prefix = codes "mssn_"

unfoldable pub generate_token : Option Text → Option Text
generate_token none = none
generate_token (some random) = some (token_prefix ++ random)

abbrev pub label_wrong : Text → Bool
label_wrong label = ltb (byte_length label) 1 || ltb 100 (byte_length label)

module _ (hash : Text → Text) (fault : Bool) (now tenant : ℕ) where
  unfoldable pub issue_plain : Option Text → Text → Store → Issued × Store
  unfolding create
  issue_plain none label s = (refused generate_token_failed, s)
  issue_plain (some plaintext) label s =
      let (t, s') = create tenant label (hash plaintext) now s in
      if fault then (refused store_failed, s) else (issued t plaintext, s')

  unfoldable pub issue_agent_token : Option Text → Text → Store → Issued × Store
  unfolding issue_plain generate_token byte_length
  issue_agent_token random label s =
      let done = issue_plain (generate_token random) label s in
      if label_wrong label then (refused invalid_label, s) else done

-- `none` is success.
unfoldable pub revoke_agent_token : Bool → ℕ → ℕ → ℕ → Store → Option Error × Store
unfolding revoke
revoke_agent_token fault now tenant id s =
    let (found, s') = revoke tenant id now s in
    if fault then (some store_failed, s) else (if found then none else some not_found, s')
