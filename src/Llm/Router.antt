-- ===== src/Llm/Router.antt =====
-- router.go of internal/controlplane/gateway/llm. `Complete` walks the ordered providers; each is
-- met once, so what the outside does at a provider is a `Visit`: the clock's readings before and
-- after the call and what the provider returns. Requests that run at the same time share the
-- breakers; here one request runs from start to end (interleavings are in Breaker).
pub mod Order
pub mod Failover
pub mod Answers
use mission.Prelude.{
  ℕ, Bool, true, false, Option, none, some, List, [], ◌∷◌, ◌++◌, String, if◌then◌else◌, ◌==◌,
  text_test,
}
use mission.Prelude.Text.{Text, trim_space, is_empty}
use mission.Prelude.Dict.{Dict, lookup, insert}
use mission.Llm.Errors.{
  Err, message, provider, wrap_error, is_transient_provider_error, new_unavailable_error,
}
use mission.Llm.Request.{CompletionRequest, CompletionResponse, model_for_provider}
use mission.Llm.Breaker.{ProviderBreaker, new_provider_breaker, before_call, after_call}

-- What a provider's `Complete` returns: an error that is not nil, or a response.
pub data Reply : Type 0 where
  response : CompletionResponse → Reply
  failure : Err → Reply

pub record Visit : Type 0 where
  pub before_at : ℕ
  pub after_at : ℕ
  pub reply : CompletionRequest → Reply

-- The `Provider` interface: its `Name`. Its `Complete` is the visit.
pub record Provider : Type 0 where
  pub name : Text

pub record Router : Type 0 where
  pub default_provider : Text
  pub order : List Text
  pub providers : Dict Text Provider
  pub breakers : Dict Text ProviderBreaker

abbrev pub has {ℓ} : {A : Type ℓ} → Option A → Bool
has none = false
has (some _) = true

add_named : Text → Provider → Router → Router
add_named name p r =
    if is_empty name then r else if has (lookup name r.providers) then r else record r {
      order = r.order ++ name ∷ [];
      providers = insert name p r.providers;
      breakers = insert name (new_provider_breaker name) r.breakers;
    }

-- One round of the loop of `NewRouter`; `none` is a nil provider.
unfoldable pub add_provider : Option Provider → Router → Router
unfolding add_named
add_provider none r = r
add_provider (some p) r = add_named (trim_space p.name) p r

add_providers : List (Option Provider) → Router → Router
unfolding add_provider
add_providers [] r = r
add_providers (p ∷ ps) r = add_providers ps (add_provider p r)

unfoldable pub new_router : Text → List (Option Provider) → Router
unfolding add_providers
new_router default ps =
    add_providers ps
      (record { default_provider = trim_space default; order = []; providers = []; breakers = [] })

-- The loop over `r.order`; `seen` holds at most the preferred provider.
others : Option Text → List Text → List Text
others seen [] = []
others none (name ∷ names) = name ∷ others none names
others (some p) (name ∷ names) =
    let rest = others (some p) names in if name == p then rest else name ∷ rest

preferred : Router → Option Text
preferred r =
    let name = trim_space r.default_provider in
    if is_empty name then none else if has (lookup name r.providers) then some name else none

front : Option Text → List Text
front none = []
front (some p) = p ∷ []

unfoldable pub ordered_providers : Router → List Text
unfolding others preferred front
ordered_providers r =
    if is_empty r.order then [] else front (preferred r) ++ others (preferred r) r.order

-- The result of `Complete`. `missing` is a nil provider or breaker, which a router never meets.
pub data Result : Type 0 where
  ok : CompletionResponse → Result
  err : Err → Result
  missing : Result

abbrev pub no_providers : Err
no_providers = message "no llm providers are configured"

abbrev pub give_up : List Text → Option Err → Result
give_up attempted none = err no_providers
give_up attempted (some e) = err (new_unavailable_error attempted e)

abbrev pub with_provider : Text → CompletionResponse → CompletionResponse
with_provider name r = if is_empty r.provider then record r { provider = name } else r

abbrev pub request_for : Text → CompletionRequest → CompletionRequest
request_for name req = record req { model = model_for_provider req name }

abbrev pub save : Text → ProviderBreaker → Router → Router
save name b r = record r { breakers = insert name b r.breakers }

-- One round of the loop of `Complete`: the loop goes on with an error, or `Complete` returns. Both
-- hold the breaker as the round leaves it.
pub data Round : Type 0 where
  next : ProviderBreaker → Err → Round
  stop : ProviderBreaker → Result → Round
  panic : Round

after_reply : Text → Provider → ℕ → ProviderBreaker → Reply → Round
after_reply name p at b (response r) = stop (after_call at none b) (ok (with_provider p.name r))
after_reply name p at b (failure e) =
    let w = wrap_error name e in
    let c = after_call at (some w) b in
    if is_transient_provider_error (some w) then next c w else stop c (err w)

admitted : Text → Provider → Visit → CompletionRequest → ProviderBreaker → Option Err → Round
unfolding after_reply
admitted name p v req b (some e) = next b e
admitted name p v req b none =
    let call = request_for name req in
    let w = provider name (message "model is not configured for provider") false in
    if is_empty call.model
    then stop (after_call v.after_at (some w) b) (err w)
    else after_reply name p v.after_at b (v.reply call)

unfoldable pub round :
    Text → Visit → CompletionRequest → Option Provider → Option ProviderBreaker → Round
unfolding admitted
round name v req (some p) (some b) =
    let (c, e) = before_call v.before_at b in admitted name p v req c e
round name v req _ _ = panic

abbrev pub round_of : Router → (Text → Visit) → CompletionRequest → Text → Round
round_of r visits req name =
    round name (visits name) req (lookup name r.providers) (lookup name r.breakers)

-- The loop, with `attemptedProviders` and `lastErr`.
unfoldable pub complete_from :
    (Text → Visit)
    → CompletionRequest
    → List Text
    → List Text
    → Option Err
    → Router
    → Router × Result
complete_from visits req [] attempted last r = (r, give_up attempted last)
complete_from visits req (name ∷ names) attempted last r = elim (round_of r visits req name) [
  | next b e ↦ complete_from visits req names (attempted ++ name ∷ []) (some e) (save name b r)
  | stop b result ↦ (save name b r, result)
  | panic ↦ (r, missing)
]

unfoldable pub complete : (Text → Visit) → CompletionRequest → Router → Router × Result
complete visits req r =
    if is_empty (ordered_providers r)
    then (r, err no_providers)
    else complete_from visits req (ordered_providers r) [] none r
