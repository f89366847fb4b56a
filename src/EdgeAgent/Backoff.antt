-- ===== src/EdgeAgent/Backoff.antt =====
-- The bounds and the growth of the delays of internal/edgeagent/controller/agent.go.
use mission.Prelude.{
  ℕ, zero, suc, ◌+◌, ◌*◌, ◌/◌, ◌^◌, ◌≤◌, ◌<◌, ◌≡◌, Bool, true, false, some, List, [], ◌∷◌, nat_beq,
  arith, All, Bool-cases, inl, inr, min,
}
use native.Mathlib.Omega.{pow_step}
use mission.EdgeAgent.Reconnect.{
  Reconnect, new_reconnect, double, grow, next_backoff, settle, jitter, run_from, run,
}

-- Settings that `NewAgentService` accepts, with a largest delay below 2^62 nanoseconds.
pub record IsValid (s : Reconnect) : Type 0 where
  pub positive : 0 < s.base
  pub ordered : s.base ≤ s.max
  pub small : s.max < 4611686018427387904

pub record InRange (s : Reconnect) (backoff : ℕ) : Type 0 where
  pub low : s.base ≤ backoff
  pub high : backoff ≤ s.max

double_eq : (b : ℕ) → b < 4611686018427387904 → double b ≡ b * 2
unfolding double
double_eq b l = omega arith

grow_eq : (s : Reconnect) (b : ℕ) → IsValid s → b ≤ s.max → grow s b ≡ min (b * 2) s.max
unfolding grow
grow_eq s b v l = rw (double_eq b (omega (arith, v.small))) (ground arith)

next_backoff-InRange :
    (s : Reconnect) (c : Bool) (b : ℕ) → IsValid s → InRange s b → InRange s (next_backoff s c b)
unfolding next_backoff
next_backoff-InRange s true b v r = record { low = ground arith; high = v.ordered }
next_backoff-InRange s false b v r = record {
  low = ground (arith, grow_eq s b v r.high);
  high = ground (arith, grow_eq s b v r.high);
}

settle-InRange :
    (s : Reconnect) (c : Bool) (b : ℕ) → IsValid s → InRange s b → InRange s (settle s c b)
settle-InRange s true b v r = record { low = ground arith; high = v.ordered }
settle-InRange s false b v r = r

-- The delay for a backoff, by what `Int63n` promises for a positive bound.
jitter-bounds :
    {Seed : Type 0} (int63n : Seed → ℕ → ℕ) (seed : Seed) (b : ℕ)
    → ((n : ℕ) → 0 < n → int63n seed n < n)
    → (b ≤ jitter int63n seed b) × (jitter int63n seed b ≤ b + b / 5)
unfolding jitter
jitter-bounds int63n seed b h = elim (Bool-cases (nat_beq (b / 5) 0)) [
  | inl z ↦ ground arith
  | inr z ↦ ground (arith, h (b / 5) (ground arith))
]

run_from-bounds :
    {Seed : Type 0} (int63n : Seed → ℕ → ℕ) (s : Reconnect) (b : ℕ) (ends : List (Bool × Seed))
    → ((seed : Seed) (n : ℕ) → 0 < n → int63n seed n < n)
    → IsValid s
    → InRange s b
    → All (λ d. (s.base ≤ d) × (d ≤ s.max + s.max / 5)) (run_from int63n s b ends)
unfolding run_from
run_from-bounds int63n s b [] h v r = tt
run_from-bounds int63n s b ((c, seed) ∷ ends) h v r =
    let j = jitter-bounds int63n seed (settle s c b) (h seed) in
    let w = settle-InRange s c b v r in
    (
      (omega (arith, j.0, w.low), omega (arith, j.1, w.high)),
      run_from-bounds int63n s (next_backoff s c b) ends h v (next_backoff-InRange s c b v r),
    )

abbrev pub after_failures : Reconnect → ℕ → ℕ
after_failures s zero = s.base
after_failures s (suc n) = next_backoff s false (after_failures s n)

next_backoff-min :
    (s : Reconnect) (b x : ℕ)
    → IsValid s
    → b ≡ min x s.max
    → next_backoff s false b ≡ min (x * 2) s.max
unfolding next_backoff
next_backoff-min s b x v e = ground (arith, grow_eq s b v (omega arith))

double_pow : (b n : ℕ) → b * 2 ^ suc n ≡ (b * 2 ^ n) * 2
double_pow b n = rw (pow_step 2 n) (omega arith)

after_failures-min :
    (s : Reconnect) (n : ℕ) → IsValid s → after_failures s n ≡ min (s.base * 2 ^ n) s.max
after_failures-min s zero v = ground arith
after_failures-min s (suc n) v =
    rw (double_pow s.base n)
      (next_backoff-min s (after_failures s n) (s.base * 2 ^ n) v (after_failures-min s n v))

new_reconnect-IsValid :
    (base max : ℕ) (s : Reconnect)
    → new_reconnect base max ≡ some s
    → s.max < 4611686018427387904
    → IsValid s
unfolding new_reconnect
new_reconnect-IsValid base max s e l = record {
  positive = ground arith;
  ordered = ground arith;
  small = l;
}

-- With settings that `NewAgentService` accepts and a largest delay below 2^62 nanoseconds: after `n`
-- sessions in a row that never connected the backoff is the base doubled `n` times, or the largest
-- delay if that is less.
pub after_failures_eq :
    (base max : ℕ) (s : Reconnect) (n : ℕ)
    → new_reconnect base max ≡ some s
    → s.max < 4611686018427387904
    → after_failures s n ≡ min (s.base * 2 ^ n) s.max
after_failures_eq base max s n e l = after_failures-min s n (new_reconnect-IsValid base max s e l)

-- With settings that `NewAgentService` accepts, a largest delay below 2^62 nanoseconds and random
-- numbers below their bound: however the sessions end, every delay between them is at least the base
-- and at most a fifth above the largest delay.
pub run-bounds :
    {Seed : Type 0} (int63n : Seed → ℕ → ℕ) (base max : ℕ) (s : Reconnect)
    (ends : List (Bool × Seed))
    → ((seed : Seed) (n : ℕ) → 0 < n → int63n seed n < n)
    → new_reconnect base max ≡ some s
    → s.max < 4611686018427387904
    → All (λ d. (s.base ≤ d) × (d ≤ s.max + s.max / 5)) (run int63n s ends)
unfolding run
run-bounds int63n base max s ends h e l =
    let v = new_reconnect-IsValid base max s e l in
    run_from-bounds int63n s s.base ends h v (record { low = omega arith; high = v.ordered })
