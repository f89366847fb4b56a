-- ===== src/Llm/Breaker/Probe.antt =====
-- Which calls a breaker lets through.
use mission.Prelude.{
  ℕ, ◌+◌, ◌≤◌, ◌<◌, ◌≡◌, ◌≢◌, ◌⊎◌, refl, true, Option, none, some, List, [], ◌∷◌, arith, length,
  inl, inr,
}
use mission.Llm.Breaker.Invariant.{Call, run}
use mission.Llm.Errors.{Err, circuit_open, provider, is_canceled}
use mission.Llm.Breaker.Outcome.{
  success, cancellation, transient_failure, permanent_failure, outcome,
}
use mission.Llm.Breaker.{
  BreakerState, closed, open_, half_open, ProviderBreaker, before_call, after_call,
  breaker_open_interval,
}

-- The breaker is shut at the given time: open with time left, or half open with its probe out.
abbrev pub Shut : ℕ → ProviderBreaker → Type 0
Shut now b =
    ((b.state ≡ open_) × (now < b.open_until))
    ⊎ ((b.state ≡ half_open) × (b.half_open_in_flight ≡ true))

-- `beforeCall` returns an error exactly when the breaker is shut; then it changes nothing, and the
-- error is a transient one with the breaker's provider that wraps ErrCircuitOpen. A call that is
-- let through leaves a closed breaker as it was, and any other one half open with a probe out.
pub before_call_lem :
    (now : ℕ) (b : ProviderBreaker)
    → (Shut now b × (before_call now b ≡ (b, some (provider b.provider circuit_open true))))
      ⊎ ((¬ Shut now b)
          × ((before_call now b).1 ≡ none)
          × (((b.state ≡ closed) × ((before_call now b).0 ≡ b))
              ⊎ ((b.state ≢ closed)
                  × ((before_call now b).0
                      ≡ record b { state = half_open; half_open_in_flight = true }))))
unfolding before_call
before_call_lem now b = go b.state refl
  where
    go :
        (s : BreakerState)
        → b.state ≡ s
        → (Shut now b × (before_call now b ≡ (b, some (provider b.provider circuit_open true))))
          ⊎ ((¬ Shut now b)
              × ((before_call now b).1 ≡ none)
              × (((b.state ≡ closed) × ((before_call now b).0 ≡ b))
                  ⊎ ((b.state ≢ closed)
                      × ((before_call now b).0
                          ≡ record b { state = half_open; half_open_in_flight = true }))))
    go closed e = ground arith
    go open_ e = ground arith
    go half_open e = ground arith

abbrev one_if_let_through : Option Err → ℕ
one_if_let_through none = 1
one_if_let_through (some _) = 0

-- How many of the calls that begin at these times are let through, if none of them ends meanwhile.
unfoldable pub let_through : List ℕ → ProviderBreaker → ℕ
let_through [] b = 0
let_through (now ∷ ts) b =
    one_if_let_through (before_call now b).1 + let_through ts (before_call now b).0

let_through_shut :
    (ts : List ℕ) (b : ProviderBreaker)
    → b.state ≡ half_open
    → b.half_open_in_flight ≡ true
    → let_through ts b ≡ 0
unfolding let_through before_call
let_through_shut [] b h f = refl
let_through_shut (now ∷ ts) b h f = ground (arith, let_through_shut ts b h f)

let_through_closed :
    (ts : List ℕ) (b : ProviderBreaker) → b.state ≡ closed → let_through ts b ≡ length ts
unfolding let_through before_call
let_through_closed [] b h = refl
let_through_closed (now ∷ ts) b h = ground (arith, let_through_closed ts b h)

let_through_tripped : (ts : List ℕ) (b : ProviderBreaker) → b.state ≢ closed → let_through ts b ≤ 1
unfolding let_through before_call
let_through_tripped [] b h = omega arith
let_through_tripped (now ∷ ts) b h = ground (
  arith,
  let_through_tripped ts b h,
  let_through_shut ts (record b { state = half_open; half_open_in_flight = true }) refl refl,
)

-- While no call ends, a closed breaker lets every call through, and an open or half open one lets
-- at most one through, however many begin and whenever they do.
pub let_through_lem :
    (ts : List ℕ) (b : ProviderBreaker)
    → ((b.state ≡ closed) × (let_through ts b ≡ length ts))
      ⊎ ((b.state ≢ closed) × (let_through ts b ≤ 1))
let_through_lem ts b = go b.state refl
  where
    go :
        (s : BreakerState)
        → b.state ≡ s
        → ((b.state ≡ closed) × (let_through ts b ≡ length ts))
          ⊎ ((b.state ≢ closed) × (let_through ts b ≤ 1))
    go closed e = inl (e, let_through_closed ts b e)
    go open_ e = inr (cc, let_through_tripped ts b cc)
    go half_open e = inr (cc, let_through_tripped ts b cc)

-- An open breaker whose time has come lets a call through as its probe. When the probe ends at
-- `later`, success and a permanent failure close the breaker and clear its counter; a transient
-- failure opens it again for a full interval from `later`; and a cancelled probe frees its place,
-- so that a call at any time `t` is let through.
pub probe_outcomes :
    (now later t : ℕ) (b : ProviderBreaker) (r : Option Err)
    → b.state ≡ open_
    → b.open_until ≤ now
    → let ended = after_call later r (before_call now b).0 in
      ((before_call now b).1 ≡ none)
      × (((outcome r ≡ success ⊎ outcome r ≡ permanent_failure)
            × (ended.state ≡ closed)
            × (ended.consecutive_fails ≡ 0))
          ⊎ ((outcome r ≡ transient_failure)
              × (ended.state ≡ open_)
              × (ended.open_until ≡ later + breaker_open_interval))
          ⊎ ((outcome r ≡ cancellation) × ((before_call t ended).1 ≡ none)))
unfolding before_call after_call outcome
probe_outcomes now later t b none o h = ground arith
probe_outcomes now later t b (some e) o h = ground arith

let_through_when_closed :
    (b : ProviderBreaker) (t0 : ℕ) → b.state ≡ closed → (before_call t0 b).1 ≡ none
unfolding before_call
let_through_when_closed b t0 h = ground arith

probe_beside_probe :
    (o : ProviderBreaker) (e : Err) (p cancelled_at q : ℕ)
    → o.state ≡ open_
    → o.open_until ≤ p
    → is_canceled e ≡ true
    → let probing = (before_call p o).0 in
      ((before_call p o).1 ≡ none)
      × ((before_call q probing).1 ≡ some (provider o.provider circuit_open true))
      × ((before_call q (after_call cancelled_at (some e) probing)).1 ≡ none)
unfolding before_call after_call
probe_beside_probe o e p cancelled_at q h k c = ground arith

-- A closed breaker lets a call through at `t0`, and whatever begins and ends after that opens it, so
-- that at `p`, once its time has come, it lets its probe through. While the probe is out a call at `q`
-- is refused; but when the call of `t0` ends meanwhile and is cancelled, a call at `q` is let
-- through beside the probe.
pub straggler_second_probe :
    (b : ProviderBreaker) (others : List Call) (e : Err) (t0 p cancelled_at q : ℕ)
    → b.state ≡ closed
    → (run others (before_call t0 b).0).state ≡ open_
    → (run others (before_call t0 b).0).open_until ≤ p
    → is_canceled e ≡ true
    → let opened = run others (before_call t0 b).0 in
      let probing = (before_call p opened).0 in
      ((before_call t0 b).1 ≡ none)
      × ((before_call p opened).1 ≡ none)
      × ((before_call q probing).1 ≡ some (provider opened.provider circuit_open true))
      × ((before_call q (after_call cancelled_at (some e) probing)).1 ≡ none)
straggler_second_probe b others e t0 p cancelled_at q shut opened due canceled =
    let (probe, refused, second) =
      probe_beside_probe (run others (before_call t0 b).0) e p cancelled_at q opened due canceled in
    (let_through_when_closed b t0 shut, probe, refused, second)
