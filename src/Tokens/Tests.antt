-- ===== src/Tokens/Tests.antt =====
-- The theorems on tokens at a store with one token.
use mission.Prelude.{
  ◌≡◌, ◌↔◌, ◌∙◌, refl, sym, ap, arith, false, none, some, List, [], ◌∷◌, ◌++◌, In, inl, inr,
}
use mission.Prelude.Text.{Text, codes, trim_space, has_prefix}
use mission.Prelude.Equality.{text_beq, text_beq_iff}
use mission.Tokens.Store.{
  TenantToken, Store, new_token, lookup_active, update_where, any_row, touch_last_used, revoke,
}
use mission.Tokens.Issue.{issued, issue_agent_token, revoke_agent_token, token_prefix, byte_length}
use mission.Tokens.Bearer.{
  scheme, bearer_token_from_header, without_prefix, next_handler, agent_of, require_agent_token,
  with_token, touch,
}
use mission.Tokens.Access.{Entitled, require_agent_token-Entitled_iff}
use mission.Tokens.Lifecycle.{
  Operation, issuing, requesting, run, perform, revoked_for_good, require_agent_token-issue,
}

-- A hash that keeps every text apart.
abbrev hash : Text → Text
hash s = 0 ∷ s

abbrev first : TenantToken
first = new_token 0 7 (codes "office") (hash (codes "mssn_a")) 5

abbrev second : TenantToken
second = new_token 1 8 (codes "plant") (hash (codes "mssn_b")) 6

abbrev two_tokens : Store
two_tokens = record { rows = first ∷ second ∷ []; next_id = 2 }

require_agent_token-issue_example :
    ((issue_agent_token hash false 9 7 (some (codes "c")) (codes "new") two_tokens).0
      ≡ issued
          (new_token 2 7 (codes "new") (hash (token_prefix ++ codes "c")) 9)
          (token_prefix ++ codes "c"))
    × ((require_agent_token hash false false 10
          (scheme ++ (token_prefix ++ codes "c"))
          (issue_agent_token hash false 9 7 (some (codes "c")) (codes "new") two_tokens).1).0
        ≡ next_handler (record { token_id = 2; tenant_id = 7; label = codes "new" }))
unfolding byte_length trim_space lookup_active text_beq
require_agent_token-issue_example =
    require_agent_token-issue hash 9 10 7 (codes "c") (codes "new") two_tokens refl refl refl

hash_of : {t u : TenantToken} → t ≡ u → t.token_hash ≡ u.token_hash
hash_of e = ap (λ (x : TenantToken). x.token_hash) e

different : ¬ (hash (codes "mssn_a") ≡ hash (codes "mssn_b"))
unfolding text_beq
different h =
    absurd (ground (arith, (text_beq_iff (hash (codes "mssn_a")) (hash (codes "mssn_b"))).1 h))

apart :
    (t u : TenantToken)
    → In t two_tokens.rows
    → In u two_tokens.rows
    → t.revoked_at ≡ none
    → u.revoked_at ≡ none
    → t.token_hash ≡ u.token_hash
    → t ≡ u
apart t u (inl e) (inl f) _ _ _ = e ∙ sym f
apart t u (inr (inl e)) (inr (inl f)) _ _ _ = e ∙ sym f
apart t u (inl e) (inr (inl f)) _ _ h = absurd (different (sym (hash_of e) ∙ (h ∙ hash_of f)))
apart t u (inr (inl e)) (inl f) _ _ h = absurd (different (sym (hash_of f) ∙ (sym h ∙ hash_of e)))
apart t u (inr (inr i)) j _ _ _ = elim i [ ]
apart t u (inl e) (inr (inr j)) _ _ _ = elim j [ ]
apart t u (inr (inl e)) (inr (inr j)) _ _ _ = elim j [ ]

require_agent_token-Entitled_iff_example :
    ((require_agent_token hash false false 9 (codes "Bearer  mssn_b ") two_tokens).0
      ≡ next_handler (agent_of second))
    ↔ ((false ≡ false)
        × ((false ≡ false) × Entitled hash (codes "Bearer  mssn_b ") two_tokens (agent_of second)))
require_agent_token-Entitled_iff_example =
    require_agent_token-Entitled_iff hash false false 9 (codes "Bearer  mssn_b ") two_tokens
      (agent_of second) apart

-- The request gets through.
let_through_test :
    (require_agent_token hash false false 9 (codes "Bearer  mssn_b ") two_tokens).0
    ≡ next_handler (agent_of second)
unfolding require_agent_token with_token touch touch_last_used bearer_token_from_header
    without_prefix has_prefix trim_space lookup_active any_row text_beq
let_through_test = refl

-- A token is issued and used, and the first one is tried again.
abbrev later : List Operation
later =
    issuing false 20 7 (some (codes "c")) (codes "new")
    ∷ requesting false false 21 (codes "Bearer mssn_a")
    ∷ []

own : (t : TenantToken) → In t two_tokens.rows → t.id ≡ 0 → t.tenant_id ≡ 7
own t (inl e) h = ap (λ (x : TenantToken). x.tenant_id) e
own t (inr (inl e)) h = absurd (ground (arith, h, ap (λ (x : TenantToken). x.id) e))
own t (inr (inr i)) h = elim i [ ]

revoked_for_good_example : ¬ ((agent_of second).token_id ≡ 0)
unfolding run perform issue_agent_token revoke_agent_token revoke update_where require_agent_token
    with_token touch touch_last_used bearer_token_from_header without_prefix has_prefix trim_space
    lookup_active any_row text_beq byte_length
revoked_for_good_example =
    revoked_for_good hash 10 7 0 two_tokens later (omega arith) own false false 22
      (codes "Bearer mssn_b") (agent_of second) refl
