-- ===== src/Onboarding/Parts.antt =====
-- What the methods of internal/controlplane/controller/onboarding.go are made of changes the row only as it may.
use mission.Prelude.{
  ℕ, ◌≡◌, Bool, Bool-cases, inl, inr, true, false, not, Option, none, some, List, arith, leb, ◌||◌,
}
use mission.Prelude.Text.{Text, is_empty}
use mission.Onboarding.Types.{
  OnboardingWorkspace, OnboardingPayload, State, invalid_workspace_name, primary_language_required,
  Locale, OnboardingStateView, DatabaseResult, Layer, step_agent_install, step_database,
  step_starter, tenant_error,
}
use mission.Onboarding.Store.{World, Env, raise_if, of_answer}
use mission.Onboarding.Handlers.{loaded, parse_optional_uuid}
use mission.Onboarding.Steps.{
  set_name, record_token, update_name, welcome_payload, finish_welcome, issue, ensure_token,
  ensure_password, finish_database, token_or_invalid, connect, connect_or_save, layer_or_invalid,
  emails_or_invalid,
}
use mission.Onboarding.Progress.{Moves, Moves-trans}
use mission.Onboarding.Advances.{
  Moves-low, Moves-welcome_payload, Moves-with_token, Moves-verified_payload,
}
use mission.Onboarding.Rules.{
  Runs, returns, raises, bind_runs, raise_if_runs, of_answer_runs, save_runs,
}

-- What the result is does not matter here.
abbrev pub Any : (A : Type 0) → A → Type 0
Any A a = Unit {0}

module _ (env : Env) (base : State) where
  pub update_name_runs :
      (name : Text) (w : World)
      → Moves base (loaded w.row)
      → Runs base (Any (Unit {0})) (update_name env name w)
  unfolding update_name set_name
  update_name_runs name w h =
      bind_runs base _ _ (raise_if _ tenant_error) _ w (raise_if_runs _ _ _ w h)
        (λ _ w1 h1 _. returns h1 tt)

  pub finish_welcome_runs :
      (confirm : Bool) (workspace : OnboardingWorkspace) (s : State) (name language : Text)
      (w : World)
      → leb step_starter s.current_step ≡ false
      → Moves base (loaded w.row)
      → Moves base s
      → Runs base (Any OnboardingStateView) (
          finish_welcome env confirm workspace s
            (welcome_payload env workspace name language s.payload)
            w)
  unfolding finish_welcome
  finish_welcome_runs false workspace s name language w early h m =
      save_runs env base workspace _ _ _ w h
        (Moves-trans base s _ m (Moves-welcome_payload env s workspace name language early))
  finish_welcome_runs true workspace s name language w early h m =
      bind_runs base _ _ (raise_if _ primary_language_required) _ w (raise_if_runs _ _ _ w h)
        (λ _ w1 h1 _.
          bind_runs base _ _ (raise_if _ invalid_workspace_name) _ w1 (raise_if_runs _ _ _ w1 h1)
            (λ _ w2 h2 _.
              bind_runs base _ _ (update_name env _) _ w2 (update_name_runs _ w2 h2) (λ _ w3 h3 _.
                save_runs env base
                  (record workspace {
                    name = (welcome_payload env workspace name language s.payload).workspace_name;
                  })
                  _ _ _ w3 h3
                  (Moves-trans base s _ m
                    (Moves-low env s step_agent_install _ early (omega arith) (omega arith))))))

  issue_runs :
      (b : Bool) (s : State) (w : World)
      → Moves base (loaded w.row)
      → Moves base s
      → Runs base (λ t. Moves base t) (issue env b s w)
  unfolding issue record_token
  issue_runs false s w h m = returns h m
  issue_runs true s w h m =
      bind_runs base _ _ (of_answer env.issue_agent_token) _ w
        (of_answer_runs base env.issue_agent_token w h)
        (λ token w1 h1 _.
          bind_runs base (Any (ℕ × Text)) _ (record_token token) _ w1 (returns h1 tt)
            (λ token' w2 h2 _. returns h2 (Moves-trans base s _ m (Moves-with_token env s token'))))

  pub ensure_token_runs :
      (s : State) (w : World)
      → Moves base (loaded w.row)
      → Moves base s
      → Runs base (λ t. Moves base t) (ensure_token env s w)
  unfolding ensure_token
  ensure_token_runs s w h m = issue_runs (is_empty s.payload.agent_token_id) s w h m

  pub ensure_password_runs :
      (b : Bool) (p : OnboardingPayload) (w : World)
      → Moves base (loaded w.row)
      → Runs base (Any OnboardingPayload) (ensure_password env b p w)
  unfolding ensure_password
  ensure_password_runs false p w h = returns h tt
  ensure_password_runs true p w h =
      bind_runs base _ _ (of_answer env.database_password) _ w
        (of_answer_runs base env.database_password w h) (λ password w1 h1 _. returns h1 tt)

  token_or_invalid_runs :
      (o : Option ℕ) (w : World)
      → Moves base (loaded w.row)
      → Runs base (Any ℕ) (token_or_invalid env o w)
  unfolding token_or_invalid
  token_or_invalid_runs none w h = raises h
  token_or_invalid_runs (some n) w h = returns h tt

  pub layer_or_invalid_runs :
      (o : Option Layer) (w : World)
      → Moves base (loaded w.row)
      → Runs base (Any Layer) (layer_or_invalid env o w)
  unfolding layer_or_invalid
  layer_or_invalid_runs none w h = raises h
  layer_or_invalid_runs (some l) w h = returns h tt

  pub emails_or_invalid_runs :
      (o : Option (List Text)) (w : World)
      → Moves base (loaded w.row)
      → Runs base (Any (List Text)) (emails_or_invalid env o w)
  unfolding emails_or_invalid
  emails_or_invalid_runs none w h = raises h
  emails_or_invalid_runs (some es) w h = returns h tt

  module _ (workspace : OnboardingWorkspace) (s : State) (p : OnboardingPayload)
      (early : leb step_starter s.current_step ≡ false) (m : Moves base s) where
    finish_database_runs :
        (locale : Locale) (r : DatabaseResult) (w : World)
        → Moves base (loaded w.row)
        → Runs base (Any OnboardingStateView) (finish_database env workspace s p locale r w)
    unfolding finish_database
    finish_database_runs locale r w h =
        elim (Bool-cases (not (is_empty r.error) || not (is_empty r.error_code))) [
          | inl f ↦ rw f (
              save_runs env base workspace _ _ _ w h (
                Moves-trans base s _ m
                  (Moves-low env s step_database _ early (omega arith) (omega arith))))
          | inr f ↦ rw f (
              save_runs env base workspace _ _ _ w h
                (Moves-trans base s _ m (Moves-verified_payload env s r p early)))
        ]

    connect_runs :
        (locale : Locale) (connection : Text) (w : World)
        → Moves base (loaded w.row)
        → Runs base (Any OnboardingStateView) (connect env workspace s p locale connection w)
    unfolding connect
    connect_runs locale connection w h =
        bind_runs base _ _ (token_or_invalid env (parse_optional_uuid env p.agent_token_id)) _ w
          (token_or_invalid_runs _ w h)
          (λ token w1 h1 _.
            bind_runs base _ _ (of_answer (env.configure_database token connection)) _ w1
              (of_answer_runs base _ w1 h1) (λ r w2 h2 _. finish_database_runs locale r w2 h2))

    pub connect_or_save_runs :
        (b : Bool) (locale : Locale) (connection : Text) (w : World)
        → Moves base (loaded w.row)
        → Runs base
            (Any OnboardingStateView)
            (connect_or_save env b workspace s p locale connection w)
    unfolding connect_or_save
    connect_or_save_runs true locale connection w h =
        save_runs env base workspace _ _ _ w h (
          Moves-trans base s _ m
            (Moves-low env s step_database p early (omega arith) (omega arith)))
    connect_or_save_runs false locale connection w h = connect_runs locale connection w h
