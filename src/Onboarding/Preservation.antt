-- ===== src/Onboarding/Preservation.antt =====
-- Each method of internal/controlplane/controller/onboarding.go changes the row only as its step allows.
use mission.Prelude.{ℕ, ◌≡◌, Bool, false, some, List, max}
use mission.Prelude.Text.{Text, is_empty, trim_space}
use mission.Onboarding.Types.{
  OnboardingWorkspace, State, invalid_step, step_locked, invalid_workspace_name,
  primary_language_required, Locale, OnboardingStateView, step_agent_install, step_done,
  TenantInvite, Error, invalid_semantic_layer,
}
use mission.Onboarding.Texts.{normalize_invite_emails}
use mission.Onboarding.Store.{
  World, Env, ◌>>=◌, ◌>>◌, raise_if, of_answer, persist_state, called, Action,
}
use mission.Onboarding.Handlers.{
  or_else, loaded, as_owner, refresh_agent_connection, build_state_view, load_workspace,
  load_record, get_state,
}
use mission.Onboarding.Steps.{
  add_invites, save_welcome, install_payload, ensure_token, ensure_install_bundle,
  get_agent_connection_status, database_payload, ensure_password, configure_database,
  run_schema_introspection, mark_semantic_approved, layer_or_invalid, complete_starter_step,
  complete_onboarding, emails_or_invalid, create_invites,
}
use mission.Onboarding.Progress.{Moves, Moves-refl, Moves-trans}
use mission.Onboarding.Advances.{
  Moves-install_payload, Moves-max, Moves-schema_payload, Moves-semantic_payload, Moves-starter,
  Moves-complete,
}
use mission.Onboarding.Rules.{
  Runs, returns, Carries, bind_runs, raise_if_runs, of_answer_runs, called_runs, persist_runs,
  build_runs, save_runs, refresh_runs, load_workspace_runs, load_record_runs, as_owner_runs,
}
use mission.Onboarding.Parts.{
  Any, finish_welcome_runs, ensure_token_runs, ensure_password_runs, layer_or_invalid_runs,
  emails_or_invalid_runs, connect_or_save_runs,
}

module _ (env : Env) (tenant : ℕ) (user : Text) (w : World) where
  pub get_state_runs : Runs (loaded w.row) (Any OnboardingStateView) (get_state env tenant user w)
  unfolding get_state
  get_state_runs =
      bind_runs (loaded w.row) _ _ (load_workspace env tenant user) _ w
        (load_workspace_runs env (loaded w.row) tenant user w (Moves-refl (loaded w.row)))
        (λ v w1 h1 _.
          bind_runs (loaded w.row) _ _ (load_record env) _ w1
            (load_record_runs env (loaded w.row) w1 h1)
            (λ s w2 h2 m.
              bind_runs (loaded w.row) (Carries (loaded w.row)) _
                (refresh_agent_connection env tenant v s) _ w2
                (refresh_runs env (loaded w.row) tenant v s w2 h2 m)
                (λ p w3 h3 _. build_runs env (loaded w.row) p.0 p.1 w3 h3)))

  -- The start of every method but `GetState`.
  owned :
      {A : Type 0} (f : OnboardingWorkspace × State → Action A)
      → ((p : OnboardingWorkspace × State) (w' : World)
          → Moves (loaded w.row) (loaded w'.row)
          → Moves (loaded w.row) p.1
          → Runs (loaded w.row) (Any A) (f p w'))
      → Runs (loaded w.row) (Any A) ((as_owner env tenant user >>= f) w)
  owned f k =
      bind_runs (loaded w.row) (Carries (loaded w.row)) _ (as_owner env tenant user) f w
        (as_owner_runs env (loaded w.row) tenant user w (Moves-refl (loaded w.row)))
        (λ (v, s) w' h m. k (v, s) w' h m)

  -- A guard that lets the rest of a method run.
  guarded :
      {A : Type 0} (c : Bool) (e : Error) (k : Action A) (w' : World)
      → Moves (loaded w.row) (loaded w'.row)
      → (c ≡ false
          → (w' : World) → Moves (loaded w.row) (loaded w'.row)
          → Runs (loaded w.row) (Any A) (k w'))
      → Runs (loaded w.row) (Any A) ((raise_if c e >> k) w')
  guarded c e k w' h rest =
      bind_runs (loaded w.row) _ _ (raise_if c e) _ w' (raise_if_runs (loaded w.row) c e w' h)
        (λ _ w1 h1 no. rest no w1 h1)

  pub save_welcome_runs :
      (name language : Text) (confirm auto_save : Bool)
      → Runs
          (loaded w.row)
          (Any OnboardingStateView)
          (save_welcome env tenant user name language confirm auto_save w)
  unfolding save_welcome
  save_welcome_runs name language confirm auto_save = owned _ (λ (v, s) w1 h1 m.
      guarded _ step_locked _ w1 h1 (λ early w2 h2.
        guarded _ invalid_workspace_name _ w2 h2 (λ _ w3 h3.
          guarded _ primary_language_required _ w3 h3 (λ _ w4 h4.
            finish_welcome_runs env (loaded w.row) confirm v s (trim_space name) language w4 early
              h4 m))))

  pub ensure_install_bundle_runs :
      Runs (loaded w.row) (Any OnboardingStateView) (ensure_install_bundle env tenant user w)
  unfolding ensure_install_bundle
  ensure_install_bundle_runs = owned _ (λ (v, s) w1 h1 m. guarded _ invalid_step _ w1 h1 (λ _ w2 h2.
      guarded _ step_locked _ w2 h2 (λ early w3 h3.
        bind_runs (loaded w.row) (Carries (loaded w.row)) _
          (refresh_agent_connection env tenant v
            (record s { payload = install_payload env v s.payload }))
          _ w3
          (refresh_runs env (loaded w.row) tenant v _ w3 h3
            (Moves-trans _ s _ m (Moves-install_payload env s v early)))
          (λ (v1, s1) w4 h4 m1.
            bind_runs (loaded w.row) _ _ (ensure_token env s1) _ w4
              (ensure_token_runs env (loaded w.row) s1 w4 h4 m1)
              (λ s2 w5 h5 m2.
                bind_runs (loaded w.row) _ _
                  (persist_state env (max s2.current_step step_agent_install) s2.payload
                    s2.completed_at)
                  _ w5
                  (persist_runs env (loaded w.row) _ _ _ w5 h5
                    (Moves-trans _ s2 _ m2 (Moves-max env s2)))
                  (λ s3 w6 h6 m3.
                    bind_runs (loaded w.row) (Carries (loaded w.row)) _
                      (refresh_agent_connection env tenant
                        (record v1 { current_step = s3.current_step }) s3)
                      _ w6 (refresh_runs env (loaded w.row) tenant _ s3 w6 h6 m3)
                      (λ (v4, s4) w7 h7 _. build_runs env (loaded w.row) v4 s4 w7 h7)))))))

  pub get_agent_connection_status_runs :
      Runs (loaded w.row) (Any OnboardingStateView) (get_agent_connection_status env tenant user w)
  unfolding get_agent_connection_status
  get_agent_connection_status_runs = owned _ (λ (v, s) w1 h1 m.
      guarded _ invalid_step _ w1 h1 (λ _ w2 h2.
        bind_runs (loaded w.row) (Carries (loaded w.row)) _
          (refresh_agent_connection env tenant v s) _ w2
          (refresh_runs env (loaded w.row) tenant v s w2 h2 m)
          (λ (v1, s1) w3 h3 _. build_runs env (loaded w.row) v1 s1 w3 h3)))

  pub configure_database_runs :
      (host : Text) (port : ℕ) (name connection : Text) (locale : Locale)
      → Runs
          (loaded w.row)
          (Any OnboardingStateView)
          (configure_database env tenant user host port name connection locale w)
  unfolding configure_database
  configure_database_runs host port name connection locale = owned _ (λ (v, s) w1 h1 m.
      guarded _ invalid_step _ w1 h1 (λ _ w2 h2. guarded _ step_locked _ w2 h2 (λ early w3 h3.
        bind_runs (loaded w.row) _ _
          (ensure_password env
            (is_empty (database_payload env host port name s.payload).generated_password)
            (database_payload env host port name s.payload))
          _ w3 (ensure_password_runs env (loaded w.row) _ _ w3 h3)
          (λ p w4 h4 _. guarded _ invalid_workspace_name _ w4 h4 (λ _ w5 h5.
            connect_or_save_runs env (loaded w.row) v s p early m _ locale (trim_space connection)
              w5 h5)))))

  pub run_schema_introspection_runs :
      ((n : ℕ) → is_empty (env.uuid_string n) ≡ false)
      → Runs (loaded w.row) (Any OnboardingStateView) (run_schema_introspection env tenant user w)
  unfolding run_schema_introspection
  run_schema_introspection_runs id = owned _ (λ (v, s) w1 h1 m.
      guarded _ invalid_step _ w1 h1 (λ late w2 h2. guarded _ step_locked _ w2 h2 (λ early w3 h3.
        bind_runs (loaded w.row) _ _ (of_answer (env.capture tenant)) _ w3
          (of_answer_runs _ (env.capture tenant) w3 h3)
          (λ r w4 h4 _.
            save_runs env (loaded w.row) v _ _ _ w4 h4
              (Moves-trans _ s _ m (Moves-schema_payload env s r (id r.version_id) late early))))))

  pub mark_semantic_approved_runs :
      (id : ℕ)
      → Runs (loaded w.row) (Any OnboardingStateView) (mark_semantic_approved env tenant user id w)
  unfolding mark_semantic_approved
  mark_semantic_approved_runs id = owned _ (λ (v, s) w1 h1 m.
      guarded _ invalid_step _ w1 h1 (λ late w2 h2. guarded _ step_locked _ w2 h2 (λ early w3 h3.
        bind_runs (loaded w.row) _ _ (of_answer (env.semantic_layer tenant id)) _ w3
          (of_answer_runs _ (env.semantic_layer tenant id) w3 h3)
          (λ found w4 h4 _.
            bind_runs (loaded w.row) _ _ (layer_or_invalid env found) _ w4
              (layer_or_invalid_runs env (loaded w.row) found w4 h4)
              (λ layer w5 h5 _. guarded _ invalid_semantic_layer _ w5 h5 (λ _ w6 h6.
                save_runs env (loaded w.row) v _ _ _ w6 h6
                  (Moves-trans _ s _ m (Moves-semantic_payload env s id layer late early))))))))

  pub complete_starter_step_runs :
      Runs (loaded w.row) (Any OnboardingStateView) (complete_starter_step env tenant user w)
  unfolding complete_starter_step
  complete_starter_step_runs = owned _ (λ (v, s) w1 h1 m.
      guarded _ invalid_step _ w1 h1 (λ late w2 h2.
        save_runs env (loaded w.row) v _ _ _ w2 h2
          (Moves-trans _ s _ m (Moves-starter env s late))))

  pub complete_onboarding_runs :
      Runs (loaded w.row) (Any OnboardingStateView) (complete_onboarding env tenant user w)
  unfolding complete_onboarding
  complete_onboarding_runs = owned _ (λ (v, s) w1 h1 m.
      guarded _ invalid_step _ w1 h1 (λ late w2 h2.
        bind_runs (loaded w.row) _ _
          (persist_state env step_done s.payload (some (or_else s.completed_at env.now))) _ w2
          (persist_runs env (loaded w.row) _ _ _ w2 h2
            (Moves-trans _ s _ m (Moves-complete env s late)))
          (λ s1 w3 h3 _. build_runs env (loaded w.row) _ s1 w3 h3)))

  pub create_invites_runs :
      (emails : List Text)
      → Runs
          (loaded w.row)
          (Any (OnboardingStateView × List TenantInvite))
          (create_invites env tenant user emails w)
  unfolding create_invites add_invites
  create_invites_runs emails = owned _ (λ (v, s) w1 h1 m. guarded _ invalid_step _ w1 h1 (λ _ w2 h2.
      bind_runs (loaded w.row) _ _ (emails_or_invalid env (normalize_invite_emails emails)) _ w2
        (emails_or_invalid_runs env (loaded w.row) (normalize_invite_emails emails) w2 h2)
        (λ es w3 h3 _.
          bind_runs (loaded w.row) _ _ (called env) _ w3 (called_runs env (loaded w.row) w3 h3)
            (λ _ w4 h4 _.
              bind_runs (loaded w.row) (Any (List TenantInvite)) _ (add_invites user es) _ w4
                (returns h4 tt)
                (λ created w5 h5 _.
                  bind_runs (loaded w.row) _ _ (build_state_view env v s) _ w5
                    (build_runs env (loaded w.row) v s w5 h5) (λ view w6 h6 _. returns h6 tt))))))
