-- ===== src/Onboarding/Rules.antt =====
-- Rules for the methods of internal/controlplane/controller/onboarding.go, one for each part that they
-- share: what a part did to the row is an allowed change, and so is what it hands on.
use mission.Prelude.{
  ℕ, ◌≡◌, refl, Bool, true, false, not, Option, none, some, List, Bool-cases, inl, inr,
}
use mission.Prelude.Text.{Text}
use mission.Sessions.Types.{AgentSessionSnapshot}
use mission.Onboarding.Types.{
  OnboardingWorkspace, OnboardingPayload, State, Error, owner_required, OnboardingStateView,
  TenantInvite,
}
use mission.Onboarding.Store.{
  World, Env, Answer, answer, refusal, Action, Result, ok, err, ◌>>=◌, raise_if, of_answer, called,
  persist_state, put_row,
}
use mission.Onboarding.Handlers.{
  is_owner, loaded, load_workspace, workspace_or_denied, find_workspace, load_record, get_row,
  with_agent, without_agent, persist_if, refresh_with, refresh_agent_connection, build_state_view,
  list_invites, save, as_owner, agent_news, agent_gone,
}
use mission.Onboarding.Progress.{
  Moves, Moves-trans, Moves-with_agent, Moves-without_agent, Moves-loaded, Moves-stamp,
}

-- The row is an allowed successor of `base`, and a result satisfies `Q`.
pub data Runs {A : Type 0} (base : State) (Q : A → Type 0) : Result A × World → Type 0 where
  returns : {a : A} {w : World} → Moves base (loaded w.row) → Q a → Runs base Q (ok a, w)
  raises : {e : Error} {w : World} → Moves base (loaded w.row) → Runs base Q (err e, w)

-- The same, and the result's state is one too.
abbrev pub Carries : State → OnboardingWorkspace × State → Type 0
Carries base (workspace, s) = Moves base s

module _ {A B : Type 0} (base : State) (Q : A → Type 0) (R : B → Type 0) where
  bind_pair :
      (f : A → Action B) (p : Result A × World)
      → Runs base Q p
      → ((a : A) (w : World) → Moves base (loaded w.row) → Q a → Runs base R (f a w))
      → Runs base R (elim p.0 [ ok a ↦ f a p.1 | err e ↦ (err e, p.1) ])
  bind_pair f _ (returns {a} {w} h q) k = k a w h q
  bind_pair f _ (raises h) k = raises h

  pub bind_runs :
      (m : Action A) (f : A → Action B) (w : World)
      → Runs base Q (m w)
      → ((a : A) (w' : World) → Moves base (loaded w'.row) → Q a → Runs base R (f a w'))
      → Runs base R ((m >>= f) w)
  unfolding ◌>>=◌
  bind_runs m f w h k = bind_pair f (m w) h k

pub raise_if_runs :
    (base : State) (c : Bool) (e : Error) (w : World)
    → Moves base (loaded w.row)
    → Runs base (λ (_ : Unit {0}). c ≡ false) (raise_if c e w)
raise_if_runs base true e w h = raises h
raise_if_runs base false e w h = returns h refl

pub of_answer_runs :
    {A : Type 0} (base : State) (a : Answer A) (w : World)
    → Moves base (loaded w.row)
    → Runs base (λ (x : A). Unit {0}) (of_answer a w)
of_answer_runs base (answer a) w h = returns h tt
of_answer_runs base (refusal e) w h = raises h

module _ (env : Env) (base : State) where
  pub called_runs :
      (w : World)
      → Moves base (loaded w.row)
      → Runs base (λ (_ : Unit {0}). Unit {0}) (called env w)
  unfolding called
  called_runs w h = elim (Bool-cases (env.faults w.calls)) [
    | inl f ↦ rw f (raises h)
    | inr f ↦ rw f (returns h tt)
  ]

  pub persist_runs :
      (step : ℕ) (p : OnboardingPayload) (c : Option ℕ) (w : World)
      → Moves base (loaded w.row)
      → Moves base
          (record { current_step = step; payload = p; completed_at = c; updated_at = env.now })
      → Runs base (λ s. Moves base s) (persist_state env step p c w)
  unfolding persist_state put_row
  persist_runs step p c w h m =
      bind_runs base _ _ (called env) _ w (called_runs w h)
        (λ _ w' h' _. returns (Moves-loaded base _ m) m)

  pub build_runs :
      (workspace : OnboardingWorkspace) (s : State) (w : World)
      → Moves base (loaded w.row)
      → Runs base (λ (v : OnboardingStateView). Unit {0}) (build_state_view env workspace s w)
  unfolding build_state_view list_invites
  build_runs workspace s w h = bind_runs base _ _ (called env) _ w (called_runs w h) (λ _ w' h' _.
      bind_runs base (λ (_ : List TenantInvite). Unit {0}) _ (list_invites env) _ w' (returns h' tt)
        (λ is w2 h2 _. returns h2 tt))

  pub save_runs :
      (workspace : OnboardingWorkspace) (step : ℕ) (p : OnboardingPayload) (c : Option ℕ)
      (w : World)
      → Moves base (loaded w.row)
      → Moves base
          (record { current_step = step; payload = p; completed_at = c; updated_at = env.now })
      → Runs base (λ (v : OnboardingStateView). Unit {0}) (save env workspace step p c w)
  unfolding save
  save_runs workspace step p c w h m =
      bind_runs base _ _ (persist_state env step p c) _ w (persist_runs step p c w h m)
        (λ s w' h' _. build_runs _ s w' h')

  persist_if_runs :
      (b : Bool) (workspace : OnboardingWorkspace) (old new : State) (w : World)
      → Moves base (loaded w.row)
      → Moves base old
      → Moves base new
      → Runs base (Carries base) (persist_if env b workspace old new w)
  unfolding persist_if
  persist_if_runs false workspace old new w h o n = returns h o
  persist_if_runs true workspace old new w h o n =
      bind_runs base (λ s. Moves base s) (Carries base)
        (persist_state env new.current_step new.payload new.completed_at) _ w
        (persist_runs new.current_step new.payload new.completed_at w h
          (Moves-stamp base new env.now n))
        (λ s w' h' m. returns h' m)

  refresh_with_runs :
      (o : Option AgentSessionSnapshot) (workspace : OnboardingWorkspace) (s : State) (w : World)
      → Moves base (loaded w.row)
      → Moves base s
      → Runs base (Carries base) (refresh_with env o workspace s w)
  unfolding refresh_with
  refresh_with_runs none workspace s w h m =
      persist_if_runs (agent_gone s) workspace s (without_agent s) w h m
        (Moves-trans base s _ m (Moves-without_agent s))
  refresh_with_runs (some n) workspace s w h m =
      persist_if_runs (agent_news (env.uuid_string n.token_id) n s) workspace s
        (with_agent (env.uuid_string n.token_id) n s) w h m
        (Moves-trans base s _ m (Moves-with_agent (env.uuid_string n.token_id) n s))

  pub refresh_runs :
      (tenant : ℕ) (workspace : OnboardingWorkspace) (s : State) (w : World)
      → Moves base (loaded w.row)
      → Moves base s
      → Runs base (Carries base) (refresh_agent_connection env tenant workspace s w)
  unfolding refresh_agent_connection
  refresh_runs tenant workspace s w h m = refresh_with_runs _ workspace s w h m

  workspace_or_denied_runs :
      (o : Option OnboardingWorkspace) (w : World)
      → Moves base (loaded w.row)
      → Runs base (λ (_ : OnboardingWorkspace). Unit {0}) (workspace_or_denied o w)
  unfolding workspace_or_denied
  workspace_or_denied_runs none w h = raises h
  workspace_or_denied_runs (some v) w h = returns h tt

  pub load_workspace_runs :
      (tenant : ℕ) (user : Text) (w : World)
      → Moves base (loaded w.row)
      → Runs base (λ (_ : OnboardingWorkspace). Unit {0}) (load_workspace env tenant user w)
  unfolding load_workspace
  load_workspace_runs tenant user w h =
      bind_runs base _ _ (of_answer (env.workspaces user)) _ w
        (of_answer_runs base (env.workspaces user) w h)
        (λ ws w' h' _. workspace_or_denied_runs (find_workspace tenant ws) w' h')

  pub load_record_runs :
      (w : World) → Moves base (loaded w.row) → Runs base (λ s. Moves base s) (load_record env w)
  unfolding load_record get_row
  load_record_runs w h =
      bind_runs base _ _ (called env) _ w (called_runs w h) (λ _ w' h' _. returns h' h')

  pub as_owner_runs :
      (tenant : ℕ) (user : Text) (w : World)
      → Moves base (loaded w.row)
      → Runs base (Carries base) (as_owner env tenant user w)
  unfolding as_owner
  as_owner_runs tenant user w h =
      bind_runs base _ _ (load_workspace env tenant user) _ w (load_workspace_runs tenant user w h)
        (λ v w1 h1 _.
          bind_runs base _ _ (raise_if (not (is_owner v.role)) owner_required) _ w1
            (raise_if_runs base _ _ w1 h1)
            (λ _ w2 h2 _.
              bind_runs base _ _ (load_record env) _ w2 (load_record_runs w2 h2)
                (λ s w3 h3 m. returns h3 m)))
