-- ===== src/Onboarding/Handlers.antt =====
-- The methods of internal/controlplane/controller/onboarding.go, for the requests of one tenant.
use mission.Prelude.{
  ℕ, ◌+◌, Bool, true, false, not, ◌&&◌, ◌||◌, Option, none, some, List, [], ◌∷◌, ltb, leb, nat_beq,
  text_beq, if◌then◌else◌,
}
use mission.Prelude.Text.{Text, is_empty, trim_space}
use mission.Prelude.Equality.{◌==◌, string_test}
use mission.Sessions.Types.{AgentSessionSnapshot}
use mission.Onboarding.Types.{
  WorkspaceRole, owner, member, OnboardingWorkspace, OnboardingPayload, State, access_denied,
  owner_required, TenantInvite, OnboardingStateView, empty_payload, step_welcome, step_database,
}
use mission.Onboarding.Texts.{build_docker_run_command, build_database_setup_sql}
use mission.Onboarding.Store.{
  Env, Action, ok, ◌>>=◌, ◌>>◌, pure, raise, raise_if, of_answer, called, persist_state,
}

abbrev pub is_some : Option ℕ → Bool
is_some none = false
is_some (some _) = true

abbrev is_at : Option ℕ → ℕ → Bool
is_at none t = false
is_at (some s) t = nat_beq s t

abbrev pub or_else : Option ℕ → ℕ → ℕ
or_else none t = t
or_else (some s) t = s

abbrev pub is_owner : WorkspaceRole → Bool
is_owner owner = true
is_owner _ = false

abbrev is_member : WorkspaceRole → Bool
is_member member = true
is_member _ = false

-- `loadRecord`, of the row: no row is a new state, and step 0 is step 1.
unfoldable pub loaded : Option State → State
loaded none = record {
  current_step = step_welcome;
  payload = empty_payload;
  completed_at = none;
  updated_at = 0;
}
loaded (some s) = if nat_beq s.current_step 0 then record s { current_step = step_welcome } else s

unfoldable pub find_workspace : ℕ → List OnboardingWorkspace → Option OnboardingWorkspace
find_workspace tenant [] = none
find_workspace tenant (w ∷ ws) =
    if nat_beq w.tenant_id tenant then some w else find_workspace tenant ws

unfoldable pub workspace_or_denied : Option OnboardingWorkspace → Action OnboardingWorkspace
workspace_or_denied none = raise access_denied
workspace_or_denied (some w) = pure w

unfoldable pub get_row : Action State
unfolding loaded
get_row w = (ok (loaded w.row), w)

-- The state that a connected agent makes of one, and whether anything changes by it.
unfoldable pub with_agent : Text → AgentSessionSnapshot → State → State
with_agent token snapshot s = record s {
  current_step = if ltb s.current_step step_database then step_database else s.current_step;
  payload = record s.payload {
    agent_token_id = token;
    agent_session_id = snapshot.session_id;
    agent_connected_at = some snapshot.connected_at;
    agent_token_plain = [];
  };
}

unfoldable pub agent_news : Text → AgentSessionSnapshot → State → Bool
agent_news token snapshot s =
    not (text_beq s.payload.agent_token_id token)
    || not (text_beq s.payload.agent_session_id snapshot.session_id)
    || not (is_at s.payload.agent_connected_at snapshot.connected_at)
    || not (is_empty s.payload.agent_token_plain)
    || ltb s.current_step step_database

unfoldable pub without_agent : State → State
without_agent s = record s {
  payload = record s.payload { agent_session_id = []; agent_connected_at = none };
}

unfoldable pub agent_gone : State → Bool
agent_gone s = not (is_empty s.payload.agent_session_id) || is_some s.payload.agent_connected_at

module _ (env : Env) where
  unfoldable pub load_workspace : ℕ → Text → Action OnboardingWorkspace
  unfolding find_workspace workspace_or_denied
  load_workspace tenant user = do
    ws ← of_answer (env.workspaces user)
    workspace_or_denied (find_workspace tenant ws)

  unfoldable pub load_record : Action State
  unfolding called get_row
  load_record = do called env; get_row

  unfoldable pub online : Option AgentSessionSnapshot → Option AgentSessionSnapshot
  online none = none
  online (some s) = if s.status == "online" then some s else none

  unfoldable pub online_for_token : Option ℕ → Option AgentSessionSnapshot
  unfolding online
  online_for_token none = none
  online_for_token (some token) = online (env.latest_session_for_token token)

  unfoldable pub parse_optional_uuid : Text → Option ℕ
  parse_optional_uuid raw = if is_empty (trim_space raw) then none else env.uuid_parse raw

  unfoldable pub latest_online_agent_session : ℕ → Text → Option AgentSessionSnapshot
  unfolding online_for_token parse_optional_uuid
  latest_online_agent_session tenant raw = elim (online_for_token (parse_optional_uuid raw)) [
    | none ↦ online (env.latest_session_for_tenant tenant)
    | some s ↦ some s
  ]

  -- The end of `refreshAgentConnection`.
  unfoldable pub persist_if :
      Bool → OnboardingWorkspace → State → State → Action (OnboardingWorkspace × State)
  persist_if false workspace old new = pure (workspace, old)
  persist_if true workspace old new = do
    s ← persist_state env new.current_step new.payload new.completed_at
    pure (record workspace { current_step = s.current_step; updated_at = s.updated_at }, s)

  unfoldable pub refresh_with :
      Option AgentSessionSnapshot
      → OnboardingWorkspace
      → State
      → Action (OnboardingWorkspace × State)
  unfolding persist_if agent_news agent_gone
  refresh_with none workspace s = persist_if (agent_gone s) workspace s (without_agent s)
  refresh_with (some snapshot) workspace s =
      let token = env.uuid_string snapshot.token_id in
      persist_if (agent_news token snapshot s) workspace s (with_agent token snapshot s)

  unfoldable pub refresh_agent_connection :
      ℕ → OnboardingWorkspace → State → Action (OnboardingWorkspace × State)
  unfolding refresh_with
  refresh_agent_connection tenant workspace s =
      refresh_with (latest_online_agent_session tenant s.payload.agent_token_id) workspace s

  timed_out : Bool → Option ℕ → Bool
  timed_out connected none = false
  timed_out connected (some since) = not connected && leb (since + 300000000000) env.now

  unfoldable pub view_of : OnboardingWorkspace → State → List TenantInvite → OnboardingStateView
  unfolding timed_out
  view_of workspace s invites =
      let p = s.payload in
      let connected = not (is_empty p.agent_session_id) && is_some p.agent_connected_at in
      record {
        workspace = workspace;
        state = s;
        docker_run_command =
            if not (is_empty p.install_slug)
              && (not (is_empty p.agent_token_plain) && not (is_empty env.public_control_plane_url))
            then build_docker_run_command p.install_slug env.public_control_plane_url
                p.agent_token_plain env.edge_agent_version env.edge_agent_image
            else [];
        agent_connected = connected;
        agent_connection_timed_out = timed_out connected p.agent_wait_started;
        db_setup_sql = build_database_setup_sql p.database_name p.generated_password;
        invites = invites;
        can_edit = is_owner workspace.role;
        waiting_for_owner = is_member workspace.role && not workspace.onboarding_complete;
      }

  unfoldable pub list_invites : Action (List TenantInvite)
  list_invites w = (ok w.invites, w)

  unfoldable pub build_state_view : OnboardingWorkspace → State → Action OnboardingStateView
  unfolding called list_invites
  build_state_view workspace s = do
    called env
    invites ← list_invites
    pure (view_of workspace s invites)

  -- The end that most methods share: the state is stored, and shown.
  unfoldable pub save :
      OnboardingWorkspace → ℕ → OnboardingPayload → Option ℕ → Action OnboardingStateView
  save workspace step payload completed = do
    s ← persist_state env step payload completed
    build_state_view (record workspace { current_step = s.current_step }) s

  -- The start that they share: the workspace of an owner, and the state.
  unfoldable pub as_owner : ℕ → Text → Action (OnboardingWorkspace × State)
  unfolding load_workspace load_record
  as_owner tenant user = do
    workspace ← load_workspace tenant user
    raise_if (not (is_owner workspace.role)) owner_required
    s ← load_record
    pure (workspace, s)

  unfoldable pub get_state : ℕ → Text → Action OnboardingStateView
  unfolding load_workspace load_record refresh_agent_connection
  get_state tenant user = do
    workspace ← load_workspace tenant user
    s ← load_record
    (workspace', s') ← refresh_agent_connection tenant workspace s
    build_state_view workspace' s'
