-- ===== src/Onboarding/Store.antt =====
-- What a request of internal/controlplane/controller/onboarding.go reads and changes: one tenant's row,
-- name, tokens and invites, and the answers of the other components. The row is kept decoded, since a
-- payload that went through JSON and jsonb is the payload again; a row that cannot be read or written
-- is a fault. Requests of a tenant run one at a time here, and the clock stands still during each.
use mission.Prelude.{ℕ, suc, Bool, Option, some, List, if◌then◌else◌}
use mission.Prelude.Text.{Text}
use mission.Prelude.Actions
pub use mission.Prelude.Actions.{ok, err, pure, raise, raise_if}
unfoldable pub use mission.Prelude.Actions.{◌>>=◌, ◌>>◌}
use mission.Sessions.Types.{AgentSessionSnapshot}
use mission.Onboarding.Types.{
  OnboardingWorkspace, OnboardingPayload, State, Error, store_error, TenantInvite, DatabaseResult,
  SchemaCaptureResult, Layer,
}

pub record World : Type 0 where
  pub row : Option State
  pub name : Text
  pub issued : List (ℕ × Text)
  pub invites : List TenantInvite
  pub calls : ℕ

pub data Answer (A : Type 0) : Type 0 where
  answer : A → Answer A
  refusal : Error → Answer A

-- The rest of the program, and the libraries for UUIDs and lower case. `faults` tells which calls of the
-- database fail, by their number; each answer is that of a call during this request.
pub record Env : Type 0 where
  pub workspaces : Text → Answer (List OnboardingWorkspace)
  pub faults : ℕ → Bool
  pub now : ℕ
  pub to_lower : Text → Text
  pub uuid_parse : Text → Option ℕ
  pub uuid_string : ℕ → Text
  pub latest_session_for_token : ℕ → Option AgentSessionSnapshot
  pub latest_session_for_tenant : ℕ → Option AgentSessionSnapshot
  pub configure_database : ℕ → Text → Answer DatabaseResult
  pub capture : ℕ → Answer SchemaCaptureResult
  pub semantic_layer : ℕ → ℕ → Answer (Option Layer)
  pub database_password : Answer Text
  pub issue_agent_token : Answer (ℕ × Text)
  pub can_update_name : Text → Bool
  pub edge_agent_image : Text
  pub edge_agent_version : Text
  pub public_control_plane_url : Text

abbrev pub Result : Type 0 → Type 0
Result A = Actions.Result Error A

-- What was written stays written when a later step fails.
abbrev pub Action : Type 0 → Type 0
Action A = Actions.Action World Error A

abbrev pub of_answer : {A : Type 0} → Answer A → Action A
of_answer (answer a) = pure a
of_answer (refusal e) = raise e

module _ (env : Env) where
  -- A call of the database.
  unfoldable pub called : Action (Unit {0})
  called w =
      (if env.faults w.calls then err store_error else ok tt, record w { calls = suc w.calls })

  unfoldable pub put_row : State → Action State
  put_row s w = (ok s, record w { row = some s })

  -- `persistState`.
  unfoldable pub persist_state : ℕ → OnboardingPayload → Option ℕ → Action State
  unfolding called put_row
  persist_state step payload completed = do
    called
    put_row (record {
      current_step = step;
      payload = payload;
      completed_at = completed;
      updated_at = env.now;
    })
