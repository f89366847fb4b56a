-- ===== src/Llm/Errors.antt =====
-- errors.go of internal/controlplane/gateway/llm. An error value is a chain: `errors.As` and
-- `errors.Is` walk it by `Unwrap`. A Go `error` that may be nil is an `Option Err`.
use mission.Prelude.{
  Bool, true, false, Option, none, some, List, String, ◌≡◌, inl, inr, arith, Bool-cases,
  Option-cases, ◌≢◌, if◌then◌else◌,
}
use mission.Prelude.Text.{Text, is_empty}

-- `provider` is *ProviderError, `unavailable` is *UnavailableError, `wrapped` is what fmt.Errorf
-- makes with %w, and `message` is an error with no `Unwrap`. `circuit_open` is ErrCircuitOpen and
-- `canceled` is context.Canceled.
pub data Err : Type 0 where
  circuit_open : Err
  canceled : Err
  provider : Text → Err → Bool → Err
  unavailable : List Text → Err → Err
  wrapped : String → Err → Err
  message : String → Err

-- The result of errors.As at *ProviderError: the provider's name, what it wraps, and `Transient`.
pub record ProviderError : Type 0 where
  pub name : Text
  pub cause : Err
  pub transient : Bool

unfoldable pub as_provider_error : Err → Option ProviderError
as_provider_error circuit_open = none
as_provider_error canceled = none
as_provider_error (provider p e t) = some (record { name = p; cause = e; transient = t })
as_provider_error (unavailable ps e) = as_provider_error e
as_provider_error (wrapped m e) = as_provider_error e
as_provider_error (message m) = none

-- errors.Is at context.Canceled.
unfoldable pub is_canceled : Err → Bool
is_canceled circuit_open = false
is_canceled canceled = true
is_canceled (provider p e t) = is_canceled e
is_canceled (unavailable ps e) = is_canceled e
is_canceled (wrapped m e) = is_canceled e
is_canceled (message m) = false

unfoldable pub new_provider_error : Text → Option Err → Option Err
new_provider_error p none = none
new_provider_error p (some e) = some (provider p e false)

unfoldable pub new_transient_provider_error : Text → Option Err → Option Err
new_transient_provider_error p none = none
new_transient_provider_error p (some e) = some (provider p e true)

wrap_found : Text → Err → Option ProviderError → Err
wrap_found p e none = provider p e false
wrap_found p e (some f) = if is_empty f.name then provider p f.cause f.transient else e

-- WrapProviderError at an error that is not nil.
unfoldable pub wrap_error : Text → Err → Err
unfolding wrap_found as_provider_error
wrap_error p e = wrap_found p e (as_provider_error e)

unfoldable pub wrap_provider_error : Text → Option Err → Option Err
unfolding wrap_error
wrap_provider_error p none = none
wrap_provider_error p (some e) = some (wrap_error p e)

transient_found : Option ProviderError → Bool
transient_found none = false
transient_found (some f) = f.transient

unfoldable pub is_transient_provider_error : Option Err → Bool
unfolding transient_found as_provider_error
is_transient_provider_error none = false
is_transient_provider_error (some e) = transient_found (as_provider_error e)

unfoldable pub new_unavailable_error : List Text → Err → Err
new_unavailable_error ps e = unavailable ps e

-- errors.As at *UnavailableError.
unfoldable pub is_unavailable_error : Err → Bool
is_unavailable_error circuit_open = false
is_unavailable_error canceled = false
is_unavailable_error (provider p e t) = is_unavailable_error e
is_unavailable_error (unavailable ps e) = true
is_unavailable_error (wrapped m e) = is_unavailable_error e
is_unavailable_error (message m) = false

found_canceled :
    (e : Err) (f : ProviderError)
    → as_provider_error e ≡ some f
    → is_canceled e ≡ is_canceled f.cause
unfolding as_provider_error is_canceled
found_canceled (provider p e t) f h = cc (ap_cause h)
  where
    ap_cause :
        some (record { name = p; cause = e; transient = t }) ≡ some f
        → is_canceled e ≡ is_canceled f.cause
    ap_cause k = ground arith
found_canceled (unavailable ps e) f h = found_canceled e f h
found_canceled (wrapped m e) f h = found_canceled e f h
found_canceled circuit_open f h = cc
found_canceled canceled f h = cc
found_canceled (message m) f h = cc

-- Wrapping an error that is not nil with a provider's name gives an error that is not nil, that
-- `errors.As` finds a provider error in, and that is transient, or a cancellation, exactly where
-- the wrapped error is.
pub wrap_provider_error_class :
    (p : Text) (e : Err)
    → (w : Err) × (wrap_provider_error p (some e) ≡ some w)
      × (is_transient_provider_error (some w) ≡ is_transient_provider_error (some e))
      × (is_canceled w ≡ is_canceled e)
      × (as_provider_error w ≢ none)
unfolding wrap_provider_error is_transient_provider_error is_canceled
wrap_provider_error_class p e = elim (Option-cases (as_provider_error e)) [
  | inl h ↦ (provider p e false, ground arith, ground arith, ground arith, ground arith)
  | inr (f, h) ↦ elim (Bool-cases (is_empty f.name)) [
    | inl b ↦ (
      provider p f.cause f.transient,
      ground arith,
      ground arith,
      ground (arith, found_canceled e f),
      ground arith,
    )
    | inr b ↦ (e, ground arith, ground arith, ground arith, ground arith)
  ]
]
