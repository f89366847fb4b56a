-- ===== src/Llm/Breaker.antt =====
-- breaker.go of internal/controlplane/gateway/llm. Times are nanoseconds since the zero
-- `time.Time`, unbounded; `now` is an argument. The mutex makes each call one step.
pub mod Outcome
pub mod Invariant
pub mod Probe
pub mod Streak
use mission.Prelude.{
  ℕ, zero, suc, ◌+◌, ◌*◌, ◌^◌, Bool, true, false, Option, none, some, List, [], ◌∷◌, leb, ltb,
  if◌then◌else◌, ◌==◌, nat_test,
}
use mission.Prelude.Text.{Text}
use mission.Llm.Errors.{
  Err, circuit_open, is_canceled, is_transient_provider_error, new_transient_provider_error,
}

abbrev pub breaker_failure_threshold : ℕ
breaker_failure_threshold = 3

-- 30 * time.Second
abbrev pub breaker_open_interval : ℕ
breaker_open_interval = 30000000000

pub data BreakerState : Type 0 where
  closed open_ half_open : BreakerState

pub record ProviderBreaker : Type 0 where
  pub provider : Text
  pub state : BreakerState
  pub consecutive_fails : ℕ
  pub open_until : ℕ
  pub half_open_in_flight : Bool

unfoldable pub new_provider_breaker : Text → ProviderBreaker
new_provider_breaker p = record {
  provider = p;
  state = closed;
  consecutive_fails = 0;
  open_until = 0;
  half_open_in_flight = false;
}

abbrev rejected : ProviderBreaker → Option Err
rejected b = new_transient_provider_error b.provider (some circuit_open)

before_in : BreakerState → ℕ → ProviderBreaker → ProviderBreaker × Option Err
before_in closed now b = (b, none)
before_in open_ now b =
    if ltb now b.open_until
    then (b, rejected b)
    else (record b { state = half_open; half_open_in_flight = true }, none)
before_in half_open now b =
    if b.half_open_in_flight
    then (b, rejected b)
    else (record b { half_open_in_flight = true }, none)

-- The new state, and the error (`none` is nil: the call may go ahead).
unfoldable pub before_call : ℕ → ProviderBreaker → ProviderBreaker × Option Err
unfolding before_in new_transient_provider_error
before_call now b = before_in b.state now b

unfoldable pub trip_locked : ℕ → ProviderBreaker → ProviderBreaker
trip_locked now b = record b {
  state = open_;
  consecutive_fails = 0;
  open_until = now + breaker_open_interval;
  half_open_in_flight = false;
}

abbrev reset : ProviderBreaker → ProviderBreaker
reset b = record b {
  state = closed;
  consecutive_fails = 0;
  open_until = 0;
  half_open_in_flight = false;
}

abbrev is_half_open : BreakerState → Bool
is_half_open half_open = true
is_half_open _ = false

count_failure : ℕ → ProviderBreaker → ProviderBreaker
unfolding trip_locked
count_failure now b =
    let c = record b { consecutive_fails = b.consecutive_fails + 1 } in
    if leb breaker_failure_threshold c.consecutive_fails then trip_locked now c else c

after_error : ℕ → Err → ProviderBreaker → ProviderBreaker
unfolding count_failure trip_locked
after_error now e b =
    if is_canceled e
    then (if is_half_open b.state then record b { half_open_in_flight = false } else b)
    else if is_transient_provider_error (some e)
    then (if is_half_open b.state then trip_locked now b else count_failure now b)
    else reset b

unfoldable pub after_call : ℕ → Option Err → ProviderBreaker → ProviderBreaker
unfolding after_error
after_call now none b = reset b
after_call now (some e) b = after_error now e b
