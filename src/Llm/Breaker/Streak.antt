-- ===== src/Llm/Breaker/Streak.antt =====
-- When a closed breaker opens, against a count over the history of outcomes.
use mission.Prelude.{
  ℕ, ◌+◌, ◌<◌, ◌≡◌, ◌⊎◌, refl, ap, ◌∙◌, Option, none, some, List, [], ◌∷◌, ◌++◌, arith,
}
use mission.Llm.Errors.{Err}
use mission.Llm.Breaker.Outcome.{
  Outcome, success, cancellation, transient_failure, permanent_failure, outcome,
}
use mission.Llm.Breaker.{closed, open_, ProviderBreaker, after_call, breaker_open_interval}

abbrev next_streak : ℕ → Outcome → ℕ
next_streak k success = 0
next_streak k cancellation = k
next_streak k transient_failure = k + 1
next_streak k permanent_failure = 0

-- The transient failures since the last success or permanent failure, cancellations left out.
unfoldable pub streak : ℕ → List (ℕ × Option Err) → ℕ
streak k [] = k
streak k ((now, e) ∷ hs) = streak (next_streak k (outcome e)) hs

-- The streak stays below three all along the history.
abbrev pub Calm : ℕ → List (ℕ × Option Err) → Type 0
Calm k [] = k < 3
Calm k ((now, e) ∷ hs) = (k < 3) × Calm (next_streak k (outcome e)) hs

-- The calls that end at these times with these results.
unfoldable pub after_calls : List (ℕ × Option Err) → ProviderBreaker → ProviderBreaker
after_calls [] b = b
after_calls ((now, e) ∷ hs) b = after_calls hs (after_call now e b)

after_call-streak :
    (now : ℕ) (e : Option Err) (b : ProviderBreaker)
    → b.state ≡ closed
    → next_streak b.consecutive_fails (outcome e) < 3
    → ((after_call now e b).state ≡ closed)
      × ((after_call now e b).consecutive_fails ≡ next_streak b.consecutive_fails (outcome e))
unfolding after_call outcome
after_call-streak now none b c s = ground arith
after_call-streak now (some e) b c s = ground arith

Calm-head : (k : ℕ) (hs : List (ℕ × Option Err)) → Calm k hs → k < 3
Calm-head k [] h = h
Calm-head k ((now, e) ∷ hs) h = h.0

after_calls-Calm :
    (hs : List (ℕ × Option Err)) (k : ℕ) (b : ProviderBreaker)
    → b.state ≡ closed
    → b.consecutive_fails ≡ k
    → Calm k hs
    → ((after_calls hs b).state ≡ closed) × ((after_calls hs b).consecutive_fails ≡ streak k hs)
unfolding after_calls streak
after_calls-Calm [] k b c f h = (c, f)
after_calls-Calm ((now, e) ∷ hs) k b c f h =
    let (closed', fails') = after_call-streak now e b c (rw f (Calm-head _ hs h.1)) in
    after_calls-Calm hs (next_streak k (outcome e)) (after_call now e b) closed'
      (fails' ∙ ap (λ n. next_streak n (outcome e)) f) h.1

streak-Calm : (k : ℕ) (hs : List (ℕ × Option Err)) → Calm k hs → streak k hs < 3
unfolding streak
streak-Calm k [] h = h
streak-Calm k ((now, e) ∷ hs) h = streak-Calm (next_streak k (outcome e)) hs h.1

after_calls-append :
    (hs ks : List (ℕ × Option Err)) (b : ProviderBreaker)
    → after_calls (hs ++ ks) b ≡ after_calls ks (after_calls hs b)
unfolding after_calls
after_calls-append [] ks b = refl
after_calls-append ((now, e) ∷ hs) ks b = after_calls-append hs ks (after_call now e b)

last_call :
    (now : ℕ) (e : Option Err) (b : ProviderBreaker)
    → b.state ≡ closed
    → b.consecutive_fails < 3
    → let d = after_call now e b in
      ((b.consecutive_fails ≡ 2)
        × (outcome e ≡ transient_failure)
        × (d.state ≡ open_)
        × (d.open_until ≡ now + breaker_open_interval))
      ⊎ ((¬ ((b.consecutive_fails ≡ 2) × (outcome e ≡ transient_failure)))
          × (d.state ≡ closed)
          × (d.consecutive_fails ≡ next_streak b.consecutive_fails (outcome e)))
unfolding after_call outcome
last_call now none b c f = ground arith
last_call now (some e) b c f = ground arith

-- A closed breaker with a clear counter stays closed, and counts the streak, as long as the streak
-- stays below three. The third transient failure in a row opens it, for a full interval from the
-- time of that failure, and after any other call it is closed and counts on.
pub third_failure_trips :
    (hs : List (ℕ × Option Err)) (now : ℕ) (e : Option Err) (b : ProviderBreaker)
    → b.state ≡ closed
    → b.consecutive_fails ≡ 0
    → Calm 0 hs
    → let c = after_calls hs b in
      let d = after_calls (hs ++ (now, e) ∷ []) b in
      (c.state ≡ closed)
      × (c.consecutive_fails ≡ streak 0 hs)
      × (((streak 0 hs ≡ 2)
            × (outcome e ≡ transient_failure)
            × (d.state ≡ open_)
            × (d.open_until ≡ now + breaker_open_interval))
          ⊎ ((¬ ((streak 0 hs ≡ 2) × (outcome e ≡ transient_failure)))
              × (d.state ≡ closed)
              × (d.consecutive_fails ≡ next_streak (streak 0 hs) (outcome e))))
unfolding after_calls
third_failure_trips hs now e b c f h =
    let (calm, count) = after_calls-Calm hs 0 b c f h in
    let last = last_call now e (after_calls hs b) calm (rw count (streak-Calm 0 hs h)) in
    (calm, count, rw (after_calls-append hs ((now, e) ∷ []) b) (rw count at last))
