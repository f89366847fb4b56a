-- ===== src/Onboarding/Completion.antt =====
-- An owner whose agent is online and whose requests meet no fault gets through the steps of
-- internal/controlplane/controller/onboarding.go.
use mission.Prelude.{ℕ, suc, ◌≡◌, refl, ◌∙◌, Bool, false, Option, some}
use mission.Prelude.Equality.{string_test}
use mission.Onboarding.Types.{OnboardingWorkspace, OnboardingPayload, State, Error}
use mission.Onboarding.Store.{
  World, Env, Action, Result, ok, ◌>>=◌, ◌>>◌, raise_if, called, persist_state, put_row,
}
use mission.Onboarding.Handlers.{loaded, save, build_state_view, list_invites, view_of}
use mission.Onboarding.Advances.{stored}
use mission.Onboarding.Access.{bind-ok}

-- A success whose state has a property.
pub data Gives {A : Type 0} (Q : World → Type 0) : Result A × World → Type 0 where
  gives : {a : A} {w : World} → Q w → Gives Q (ok a, w)

pub Gives-post : {A : Type 0} (Q : World → Type 0) (p : Result A × World) → Gives Q p → Q p.1
Gives-post Q _ (gives h) = h

module _ {A B : Type 0} where
  -- A part that succeeds hands on.
  pub then_gives :
      (Q : World → Type 0) (m : Action A) (f : A → Action B) (w w' : World) (a : A)
      → m w ≡ (ok a, w')
      → Gives Q (f a w')
      → Gives Q ((m >>= f) w)
  then_gives Q m f w w' a h g = rw (bind-ok m f w a w' h) g

-- A guard that lets the rest run.
pub passed :
    {A : Type 0} (Q : World → Type 0) (c : Bool) (e : Error) (k : Action A) (w : World)
    → c ≡ false
    → Gives Q (k w)
    → Gives Q ((raise_if c e >> k) w)
passed Q c e k w h g = then_gives Q (raise_if c e) _ w w tt (rw h refl) g

abbrev pub AtStep : ℕ → World → Type 0
AtStep k w = (loaded w.row).current_step ≡ k

module _ (env : Env) (fine : (n : ℕ) → env.faults n ≡ false) where
  called-ok : (w : World) → called env w ≡ (ok tt, record w { calls = suc w.calls })
  unfolding called
  called-ok w = rw (fine w.calls) refl

  pub persist-ok :
      (step : ℕ) (p : OnboardingPayload) (c : Option ℕ) (w : World)
      → persist_state env step p c w ≡ (
        ok (stored env step p c),
        record w { row = some (stored env step p c); calls = suc w.calls },
      )
  unfolding persist_state put_row
  persist-ok step p c w = bind-ok (called env) _ w tt _ (called-ok w)

  pub build-ok :
      (v : OnboardingWorkspace) (s : State) (w : World)
      → build_state_view env v s w
        ≡ (ok (view_of env v s w.invites), record w { calls = suc w.calls })
  unfolding build_state_view list_invites
  build-ok v s w =
      bind-ok (called env) _ w tt _ (called-ok w)
      ∙ bind-ok (list_invites env) _ (record w { calls = suc w.calls }) w.invites _ refl

  -- The state that a method stores is loaded again.
  pub save_gives :
      (v : OnboardingWorkspace) (step : ℕ) (p : OnboardingPayload) (c : Option ℕ) (w : World)
      (Q : World → Type 0)
      → Q (record w { row = some (stored env step p c); calls = suc (suc w.calls) })
      → Gives Q (save env v step p c w)
  unfolding save
  save_gives v step p c w Q h =
      then_gives Q (persist_state env step p c) _ w _ _ (persist-ok step p c w) (
        rw
          (build-ok _ (stored env step p c)
            (record w { row = some (stored env step p c); calls = suc w.calls }))
          (gives h))
