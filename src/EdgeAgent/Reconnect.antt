-- ===== src/EdgeAgent/Reconnect.antt =====
-- `Run` and `jitter` of internal/edgeagent/controller/agent.go: the delays between the sessions of the
-- command stream. Durations are numbers of nanoseconds, with 0 for those that are not positive.
-- `int63n` is `rand.Rand.Int63n` with the generator's state.
use mission.Prelude.{
  ℕ, ◌+◌, ◌*◌, ◌/◌, ◌%◌, ◌^◌, Bool, not, ◌&&◌, Option, none, some, List, [], ◌∷◌, ltb, nat_beq,
  if◌then◌else◌,
}

-- The settings of the service that `Run` reads.
pub record Reconnect : Type 0 where
  pub base : ℕ
  pub max : ℕ

reconnect_or : ℕ → ℕ → ℕ
reconnect_or value default = if ltb 0 value then value else default

-- `NewAgentService`: 1 and 30 seconds unless positive; its error is `none`.
unfoldable pub new_reconnect : ℕ → ℕ → Option Reconnect
unfolding reconnect_or
new_reconnect base max =
    let b = reconnect_or base 1000000000 in
    let m = reconnect_or max 30000000000 in
    if ltb m b then none else some (record { base = b; max = m })

-- An `int64`, read as the number that it is while it is not negative.
unfoldable pub double : ℕ → ℕ
double backoff = (backoff * 2) % 2 ^ 64

unfoldable pub grow : Reconnect → ℕ → ℕ
unfolding double
grow s backoff = if ltb s.max (double backoff) then s.max else double backoff

-- The backoff after a session that was or was not connected, before and after the sleep.
abbrev pub settle : Reconnect → Bool → ℕ → ℕ
settle s connected backoff = if connected then s.base else backoff

unfoldable pub next_backoff : Reconnect → Bool → ℕ → ℕ
unfolding grow
next_backoff s connected backoff =
    let b = settle s connected backoff in if not connected && ltb b s.max then grow s b else b

module _ {Seed : Type 0} (int63n : Seed → ℕ → ℕ) where
  unfoldable pub jitter : Seed → ℕ → ℕ
  jitter seed base =
      if nat_beq base 0
      then 0
      else if nat_beq (base / 5) 0
      then base
      else base + int63n seed (base / 5)

  -- The delays that `Run` sleeps for, given how each session ended: whether it was connected, and the
  -- state of the generator.
  unfoldable pub run_from : Reconnect → ℕ → List (Bool × Seed) → List ℕ
  unfolding jitter next_backoff
  run_from s backoff [] = []
  run_from s backoff ((connected, seed) ∷ ends) =
      jitter seed (settle s connected backoff) ∷ run_from s (next_backoff s connected backoff) ends

  unfoldable pub run : Reconnect → List (Bool × Seed) → List ℕ
  unfolding run_from
  run s ends = run_from s s.base ends
