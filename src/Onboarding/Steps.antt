-- ===== src/Onboarding/Steps.antt =====
-- The methods of internal/controlplane/controller/onboarding.go that take a tenant from step to step.
-- A port that is not positive is 0.
use mission.Prelude.{
  ℕ, Bool, true, false, not, ◌&&◌, ◌||◌, Option, none, some, List, [], ◌∷◌, ◌++◌, map, ltb, leb,
  nat_beq, text_beq, if◌then◌else◌, max,
}
use mission.Prelude.Text.{Text, codes, is_empty, trim_space}
use mission.Onboarding.Types.{
  OnboardingWorkspace, OnboardingPayload, State, invalid_step, step_locked, invalid_workspace_name,
  primary_language_required, invalid_semantic_layer, invite_email_invalid, tenant_error,
  TenantInvite, Locale, OnboardingStateView, DatabaseResult, SchemaCaptureResult, Layer,
  step_welcome, step_agent_install, step_database, step_schema, step_semantic, step_starter,
  step_done,
}
use mission.Onboarding.Texts.{
  first_non_blank, slugify_workspace_name, default_database_username, normalize_invite_emails,
}
use mission.Onboarding.Messages.{database_error_message}
use mission.Onboarding.Store.{
  Env, Action, ok, ◌>>=◌, ◌>>◌, pure, raise, raise_if, of_answer, called, persist_state,
}
use mission.Onboarding.Handlers.{
  or_else, as_owner, save, refresh_agent_connection, build_state_view, parse_optional_uuid,
}

abbrev pub or_text : Text → Text → Text
or_text given kept = if is_empty given then kept else given

abbrev pub or_number : ℕ → ℕ → ℕ
or_number given kept = if nat_beq given 0 then kept else given

unfoldable pub set_name : Text → Action (Unit {0})
set_name name w = (ok tt, record w { name = name })

unfoldable pub record_token : ℕ × Text → Action (ℕ × Text)
record_token token w = (ok token, record w { issued = w.issued ++ token ∷ [] })

unfoldable pub add_invites : Text → List Text → Action (List TenantInvite)
add_invites user emails w =
    let created = map (λ e. record { email = e; created_by_user_id = user }) emails in
    (ok created, record w { invites = w.invites ++ created })

module _ (env : Env) where
  unfoldable pub update_name : Text → Action (Unit {0})
  unfolding set_name
  update_name name = do raise_if (not (env.can_update_name name)) tenant_error; set_name name

  unfoldable pub welcome_payload :
      OnboardingWorkspace → Text → Text → OnboardingPayload → OnboardingPayload
  welcome_payload workspace name language p = record p {
    workspace_name = or_text name p.workspace_name;
    install_slug =
        if is_empty name
        then p.install_slug
        else slugify_workspace_name env.to_lower name workspace.slug;
    primary_language = or_text language p.primary_language;
  }

  -- `confirmPrimaryLanguage` moves on to the installation; without it the step stays.
  unfoldable pub finish_welcome :
      Bool → OnboardingWorkspace → State → OnboardingPayload → Action OnboardingStateView
  unfolding save update_name
  finish_welcome false workspace s p =
      save env workspace (or_number s.current_step step_welcome) p s.completed_at
  finish_welcome true workspace s p = do
    raise_if (not (text_beq p.primary_language (codes "ko"))) primary_language_required
    raise_if (is_empty p.workspace_name) invalid_workspace_name
    update_name p.workspace_name
    save env (record workspace { name = p.workspace_name }) step_agent_install p s.completed_at

  unfoldable pub save_welcome : ℕ → Text → Text → Text → Bool → Bool → Action OnboardingStateView
  unfolding as_owner finish_welcome welcome_payload
  save_welcome tenant user workspace_name language confirm auto_save = do
    (workspace, s) ← as_owner env tenant user
    raise_if (leb step_starter s.current_step) step_locked
    let name = trim_space workspace_name
    raise_if (not auto_save && is_empty name) invalid_workspace_name
    raise_if (confirm && not (text_beq language (codes "ko"))) primary_language_required
    finish_welcome confirm workspace s (welcome_payload workspace name language s.payload)

  unfoldable pub install_payload : OnboardingWorkspace → OnboardingPayload → OnboardingPayload
  install_payload workspace p = record p {
    install_slug = or_text p.install_slug (
        slugify_workspace_name env.to_lower
          (first_non_blank (p.workspace_name ∷ workspace.name ∷ [])) workspace.slug);
    agent_wait_started = some (or_else p.agent_wait_started env.now);
  }

  unfoldable pub with_token : State → ℕ × Text → State
  with_token s (id, plain) = record s {
    payload = record s.payload { agent_token_id = env.uuid_string id; agent_token_plain = plain };
  }

  unfoldable pub issue : Bool → State → Action State
  unfolding with_token record_token
  issue false s = pure s
  issue true s = do
    token ← of_answer env.issue_agent_token
    token' ← record_token token
    pure (with_token s token')

  unfoldable pub ensure_token : State → Action State
  unfolding issue
  ensure_token s = issue (is_empty s.payload.agent_token_id) s

  unfoldable pub ensure_install_bundle : ℕ → Text → Action OnboardingStateView
  unfolding as_owner install_payload refresh_agent_connection ensure_token persist_state
      build_state_view
  ensure_install_bundle tenant user = do
    (workspace, s) ← as_owner env tenant user
    raise_if (ltb s.current_step step_agent_install) invalid_step
    raise_if (leb step_starter s.current_step) step_locked
    (workspace1, s1) ←
        refresh_agent_connection env tenant workspace
          (record s { payload = install_payload workspace s.payload })
    s2 ← ensure_token s1
    s3 ← persist_state env (max s2.current_step step_agent_install) s2.payload s2.completed_at
    (workspace4, s4) ←
        refresh_agent_connection env tenant (record workspace1 { current_step = s3.current_step })
          s3
    build_state_view env workspace4 s4

  unfoldable pub get_agent_connection_status : ℕ → Text → Action OnboardingStateView
  unfolding as_owner refresh_agent_connection build_state_view
  get_agent_connection_status tenant user = do
    (workspace, s) ← as_owner env tenant user
    raise_if (ltb s.current_step step_agent_install) invalid_step
    (workspace1, s1) ← refresh_agent_connection env tenant workspace s
    build_state_view env workspace1 s1

  unfoldable pub database_payload : Text → ℕ → Text → OnboardingPayload → OnboardingPayload
  database_payload host port name p = record p {
    database_host = trim_space (first_non_blank (host ∷ p.database_host ∷ []));
    database_name = trim_space (first_non_blank (name ∷ p.database_name ∷ []));
    database_port = or_number port (or_number p.database_port 3306);
    database_username = or_text p.database_username default_database_username;
  }

  unfoldable pub ensure_password : Bool → OnboardingPayload → Action OnboardingPayload
  ensure_password false p = pure p
  ensure_password true p = do
    password ← of_answer env.database_password
    pure (record p { generated_password = password })

  unfoldable pub failed_payload : Locale → DatabaseResult → OnboardingPayload → OnboardingPayload
  unfolding database_error_message
  failed_payload locale r p = record p {
    db_error_code = r.error_code;
    db_error_message = database_error_message r.error_code locale;
  }

  unfoldable pub verified_payload : DatabaseResult → OnboardingPayload → OnboardingPayload
  verified_payload r p = record p {
    database_username = first_non_blank (r.database_user ∷ p.database_username ∷ []);
    database_name = first_non_blank (r.database_name ∷ p.database_name ∷ []);
    db_verified_at = some (or_number r.completed_at env.now);
    db_error_code = [];
    db_error_message = [];
  }

  unfoldable pub finish_database :
      OnboardingWorkspace
      → State
      → OnboardingPayload
      → Locale
      → DatabaseResult
      → Action OnboardingStateView
  unfolding save failed_payload verified_payload
  finish_database workspace s p locale r =
      if not (is_empty r.error) || not (is_empty r.error_code)
      then save env workspace step_database (failed_payload locale r p) s.completed_at
      else save env workspace step_schema (verified_payload r p) s.completed_at

  unfoldable pub token_or_invalid : Option ℕ → Action ℕ
  token_or_invalid none = raise invalid_step
  token_or_invalid (some token) = pure token

  unfoldable pub connect :
      OnboardingWorkspace → State → OnboardingPayload → Locale → Text → Action OnboardingStateView
  unfolding token_or_invalid finish_database parse_optional_uuid
  connect workspace s p locale connection = do
    token ← token_or_invalid (parse_optional_uuid env p.agent_token_id)
    r ← of_answer (env.configure_database token connection)
    finish_database workspace s p locale r

  unfoldable pub connect_or_save :
      Bool
      → OnboardingWorkspace
      → State
      → OnboardingPayload
      → Locale
      → Text
      → Action OnboardingStateView
  unfolding save connect
  connect_or_save true workspace s p locale connection =
      save env workspace step_database p s.completed_at
  connect_or_save false workspace s p locale connection = connect workspace s p locale connection

  unfoldable pub configure_database :
      ℕ → Text → Text → ℕ → Text → Text → Locale → Action OnboardingStateView
  unfolding as_owner database_payload ensure_password connect_or_save
  configure_database tenant user host port name connection locale = do
    (workspace, s) ← as_owner env tenant user
    raise_if (ltb s.current_step step_database) invalid_step
    raise_if (leb step_starter s.current_step) step_locked
    let p = database_payload host port name s.payload
    p1 ← ensure_password (is_empty p.generated_password) p
    raise_if (is_empty p1.database_name) invalid_workspace_name
    connect_or_save (is_empty (trim_space connection)) workspace s p1 locale (trim_space connection)

  unfoldable pub schema_payload : SchemaCaptureResult → OnboardingPayload → OnboardingPayload
  schema_payload r p = record p {
    schema_version_id = env.uuid_string r.version_id;
    schema_table_count = r.table_count;
    schema_column_count = r.column_count;
    schema_fk_count = r.foreign_key_count;
  }

  unfoldable pub run_schema_introspection : ℕ → Text → Action OnboardingStateView
  unfolding as_owner save schema_payload
  run_schema_introspection tenant user = do
    (workspace, s) ← as_owner env tenant user
    raise_if (ltb s.current_step step_schema) invalid_step
    raise_if (leb step_starter s.current_step) step_locked
    r ← of_answer (env.capture tenant)
    save env workspace step_semantic (schema_payload r s.payload) s.completed_at

  unfoldable pub layer_or_invalid : Option Layer → Action Layer
  layer_or_invalid none = raise invalid_semantic_layer
  layer_or_invalid (some layer) = pure layer

  unfoldable pub semantic_payload : ℕ → Layer → OnboardingPayload → OnboardingPayload
  semantic_payload id layer p = record p {
    semantic_layer_id = env.uuid_string id;
    semantic_approved = some (or_else layer.approved_at env.now);
  }

  unfoldable pub mark_semantic_approved : ℕ → Text → ℕ → Action OnboardingStateView
  unfolding as_owner layer_or_invalid save semantic_payload
  mark_semantic_approved tenant user id = do
    (workspace, s) ← as_owner env tenant user
    raise_if (ltb s.current_step step_semantic) invalid_step
    raise_if (leb step_starter s.current_step) step_locked
    found ← of_answer (env.semantic_layer tenant id)
    layer ← layer_or_invalid found
    raise_if (not layer.is_approved) invalid_semantic_layer
    save env workspace step_starter (semantic_payload id layer s.payload) s.completed_at

  unfoldable pub complete_starter_step : ℕ → Text → Action OnboardingStateView
  unfolding as_owner save
  complete_starter_step tenant user = do
    (workspace, s) ← as_owner env tenant user
    raise_if (ltb s.current_step step_starter) invalid_step
    save env workspace step_done s.payload s.completed_at

  unfoldable pub complete_onboarding : ℕ → Text → Action OnboardingStateView
  unfolding as_owner persist_state build_state_view
  complete_onboarding tenant user = do
    (workspace, s) ← as_owner env tenant user
    raise_if (ltb s.current_step step_done) invalid_step
    s1 ← persist_state env step_done s.payload (some (or_else s.completed_at env.now))
    build_state_view env
        (record workspace {
          onboarding_complete = true;
          current_step = s1.current_step;
          updated_at = s1.updated_at;
        })
        s1

  unfoldable pub emails_or_invalid : Option (List Text) → Action (List Text)
  emails_or_invalid none = raise invite_email_invalid
  emails_or_invalid (some emails) = pure emails

  unfoldable pub create_invites :
      ℕ → Text → List Text → Action (OnboardingStateView × List TenantInvite)
  unfolding as_owner emails_or_invalid add_invites called build_state_view
  create_invites tenant user emails = do
    (workspace, s) ← as_owner env tenant user
    raise_if (ltb s.current_step step_done) invalid_step
    normalized ← emails_or_invalid (normalize_invite_emails emails)
    called env
    created ← add_invites user normalized
    view ← build_state_view env workspace s
    pure (view, created)
