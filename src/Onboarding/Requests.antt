-- ===== src/Onboarding/Requests.antt =====
-- The requests to internal/controlplane/controller/onboarding.go, as one type.
use mission.Prelude.{ℕ, Bool, List}
use mission.Prelude.Text.{Text}
use mission.Onboarding.Types.{Locale, OnboardingStateView}
use mission.Onboarding.Store.{Env, Action, ◌>>=◌, pure}
use mission.Onboarding.Handlers.{get_state}
use mission.Onboarding.Steps.{
  save_welcome, ensure_install_bundle, get_agent_connection_status, configure_database,
  run_schema_introspection, mark_semantic_approved, complete_starter_step, complete_onboarding,
  create_invites,
}

pub data Request : Type 0 where
  read : Request
  welcome : Text → Text → Bool → Bool → Request
  install connection : Request
  database : Text → ℕ → Text → Text → Locale → Request
  introspect : Request
  approve : ℕ → Request
  starter complete : Request
  invite : List Text → Request

unfoldable pub handle : Env → ℕ → Text → Request → Action OnboardingStateView
handle env tenant user read = get_state env tenant user
handle env tenant user (welcome name language confirm auto_save) =
    save_welcome env tenant user name language confirm auto_save
handle env tenant user install = ensure_install_bundle env tenant user
handle env tenant user connection = get_agent_connection_status env tenant user
handle env tenant user (database host port name dsn locale) =
    configure_database env tenant user host port name dsn locale
handle env tenant user introspect = run_schema_introspection env tenant user
handle env tenant user (approve id) = mark_semantic_approved env tenant user id
handle env tenant user starter = complete_starter_step env tenant user
handle env tenant user complete = complete_onboarding env tenant user
handle env tenant user (invite emails) = do p ← create_invites env tenant user emails; pure p.0
