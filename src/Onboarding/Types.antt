-- ===== src/Onboarding/Types.antt =====
-- The data of internal/controlplane/controller/onboarding.go and of
-- internal/controlplane/model/onboarding.go. Tenants and tokens are named by UUIDs, which are numbers;
-- times are numbers.
use mission.Prelude.{ℕ, Bool, Option, none, List, []}
use mission.Prelude.Text.{Text}
use mission.Sessions.Types.{Failure}

pub data WorkspaceRole : Type 0 where
  owner member : WorkspaceRole
  other_role : Text → WorkspaceRole

pub record OnboardingWorkspace : Type 0 where
  pub tenant_id : ℕ
  pub slug : Text
  pub name : Text
  pub role : WorkspaceRole
  pub onboarding_complete : Bool
  pub current_step : ℕ
  pub updated_at : ℕ

pub record OnboardingPayload : Type 0 where
  pub primary_language : Text
  pub workspace_name : Text
  pub install_slug : Text
  pub agent_token_id : Text
  pub agent_token_plain : Text
  pub agent_wait_started : Option ℕ
  pub agent_session_id : Text
  pub agent_connected_at : Option ℕ
  pub database_host : Text
  pub database_port : ℕ
  pub database_name : Text
  pub database_username : Text
  pub generated_password : Text
  pub db_verified_at : Option ℕ
  pub db_error_code : Text
  pub db_error_message : Text
  pub schema_version_id : Text
  pub schema_table_count : ℕ
  pub schema_column_count : ℕ
  pub schema_fk_count : ℕ
  pub semantic_layer_id : Text
  pub semantic_approved : Option ℕ

abbrev pub empty_payload : OnboardingPayload
empty_payload = record {
  primary_language = [];
  workspace_name = [];
  install_slug = [];
  agent_token_id = [];
  agent_token_plain = [];
  agent_wait_started = none;
  agent_session_id = [];
  agent_connected_at = none;
  database_host = [];
  database_port = 0;
  database_name = [];
  database_username = [];
  generated_password = [];
  db_verified_at = none;
  db_error_code = [];
  db_error_message = [];
  schema_version_id = [];
  schema_table_count = 0;
  schema_column_count = 0;
  schema_fk_count = 0;
  semantic_layer_id = [];
  semantic_approved = none;
}

-- `TenantOnboardingState` with its payload decoded: what the handlers hold as `record` and `payload`.
pub record State : Type 0 where
  pub current_step : ℕ
  pub payload : OnboardingPayload
  pub completed_at : Option ℕ
  pub updated_at : ℕ

abbrev pub step_welcome : ℕ
step_welcome = 1

abbrev pub step_agent_install : ℕ
step_agent_install = 2

abbrev pub step_database : ℕ
step_database = 3

abbrev pub step_schema : ℕ
step_schema = 4

abbrev pub step_semantic : ℕ
step_semantic = 5

abbrev pub step_starter : ℕ
step_starter = 6

abbrev pub step_done : ℕ
step_done = 7

-- The sentinel errors, and those that the stores and the other components return.
pub data Error : Type 0 where
  access_denied owner_required invalid_step step_locked invalid_workspace_name : Error
  primary_language_required invalid_semantic_layer invite_email_invalid : Error
  store_error tenant_error schema_error semantic_error password_error : Error
  session_error : Failure → Error

-- `model.Locale`, a string.
pub data Locale : Type 0 where
  korean english : Locale
  other_locale : Text → Locale

pub record TenantInvite : Type 0 where
  pub email : Text
  pub created_by_user_id : Text

pub record OnboardingStateView : Type 0 where
  pub workspace : OnboardingWorkspace
  pub state : State
  pub docker_run_command : Text
  pub agent_connected : Bool
  pub agent_connection_timed_out : Bool
  pub db_setup_sql : Text
  pub invites : List TenantInvite
  pub can_edit : Bool
  pub waiting_for_owner : Bool

-- `AgentConfigureDatabaseResult`, as far as the handler reads it; `completed_at` is 0 for the zero time.
pub record DatabaseResult : Type 0 where
  pub completed_at : ℕ
  pub database_user : Text
  pub database_name : Text
  pub error : Text
  pub error_code : Text

pub record SchemaCaptureResult : Type 0 where
  pub version_id : ℕ
  pub table_count : ℕ
  pub column_count : ℕ
  pub foreign_key_count : ℕ

-- `TenantSemanticLayer`, as far as the handler reads it.
pub record Layer : Type 0 where
  pub is_approved : Bool
  pub approved_at : Option ℕ
