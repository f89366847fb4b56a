-- ===== src/Llm/Breaker/Invariant.antt =====
-- What holds of a breaker after any history of calls.
use mission.Prelude.{ℕ, ◌<◌, ◌≡◌, true, Option, none, some, List, [], ◌∷◌, arith}
use mission.Prelude.Text.{Text}
use mission.Llm.Errors.{Err}
use mission.Llm.Breaker.{
  closed, half_open, ProviderBreaker, new_provider_breaker, before_call, after_call,
}

pub record IsValid (b : ProviderBreaker) : Type 0 where
  pub few_fails : b.consecutive_fails < 3
  pub closed_ready : b.state ≡ closed → b.open_until ≡ 0
  pub flight_half_open : b.half_open_in_flight ≡ true → b.state ≡ half_open

pub new_provider_breaker-IsValid : (p : Text) → IsValid (new_provider_breaker p)
unfolding new_provider_breaker
new_provider_breaker-IsValid p = ground arith

pub before_call-IsValid :
    (now : ℕ) (b : ProviderBreaker) → IsValid b → IsValid (before_call now b).0
unfolding before_call
before_call-IsValid now b v = ground arith

pub after_call-IsValid :
    (now : ℕ) (e : Option Err) (b : ProviderBreaker) → IsValid b → IsValid (after_call now e b)
unfolding after_call
after_call-IsValid now none b v = ground arith
after_call-IsValid now (some e) b v = ground arith

-- A call of the breaker's methods, by any of the goroutines that share it.
pub data Call : Type 0 where
  before : ℕ → Call
  after : ℕ → Option Err → Call

unfoldable pub step : Call → ProviderBreaker → ProviderBreaker
step (before now) b = (before_call now b).0
step (after now e) b = after_call now e b

unfoldable pub run : List Call → ProviderBreaker → ProviderBreaker
unfolding step
run [] b = b
run (c ∷ cs) b = run cs (step c b)

run-IsValid : (cs : List Call) (b : ProviderBreaker) → IsValid b → IsValid (run cs b)
unfolding run
run-IsValid [] b v = v
run-IsValid (before now ∷ cs) b v = run-IsValid cs _ (before_call-IsValid now b v)
run-IsValid (after now e ∷ cs) b v = run-IsValid cs _ (after_call-IsValid now e b v)

-- After any interleaving of calls on a new breaker, whatever their times and outcomes: it counts
-- fewer than three failures, a closed breaker has no reopening time, and a probe is marked as in
-- flight only while the breaker is half open.
pub run-new-IsValid : (p : Text) (cs : List Call) → IsValid (run cs (new_provider_breaker p))
run-new-IsValid p cs = run-IsValid cs _ (new_provider_breaker-IsValid p)
