-- ===== src/Onboarding/Tests.antt =====
-- The theorems on onboarding at a tenant whose owner has installed the agent.
use mission.Prelude.{
  zero, suc, ap, length, ℕ, length, ◌≡◌, refl, true, false, Option, none, some, List, [], ◌∷◌,
}
use mission.Prelude.Text.{Text, codes, trim_space}
use mission.Prelude.Equality.{text_beq}
use mission.Sessions.Types.{AgentSessionSnapshot}
use mission.Onboarding.Types.{
  OnboardingWorkspace, WorkspaceRole, owner, member, State, empty_payload, korean, owner_required,
  step_locked,
}
use mission.Onboarding.Texts.{first_non_blank, build_database_setup_sql, setup_before, setup_behind}
use mission.Onboarding.Store.{World, Env, ◌>>=◌, answer, err}
use mission.Onboarding.Handlers.{
  is_some, loaded, latest_online_agent_session, with_agent, find_workspace,
}
use mission.Onboarding.Steps.{
  complete_onboarding, complete_starter_step, mark_semantic_approved, run_schema_introspection,
  configure_database, ensure_install_bundle, save_welcome,
}
use mission.Onboarding.Requests.{
  Request, welcome, install, database, introspect, approve, starter, complete, handle,
}
use mission.Onboarding.Progress.{IsValid, Moves}
use mission.Onboarding.Invariant.{
  NamesIds, Call, serve, AllNameIds, none_left, one_more, handle-Moves, serve-IsValid,
}
use mission.Onboarding.Access.{is_read, handle-owner_required}
use mission.Onboarding.Order.{is_setup, handle-step_locked}
use mission.Onboarding.Liveness.{calls_of, journey, serve-completed_at}
use mission.Onboarding.Quoting.{read_quoted, drop, read_quoted-build_database_setup_sql}

abbrev workspace : WorkspaceRole → OnboardingWorkspace
workspace role = record {
  tenant_id = 7;
  slug = codes "shop";
  name = codes "Shop";
  role = role;
  onboarding_complete = false;
  current_step = 1;
  updated_at = 0;
}

abbrev agent : AgentSessionSnapshot
agent = record {
  session_id = codes "s1";
  tenant_id = 7;
  token_id = 3;
  token_label = "onboarding-agent";
  hostname = codes "host";
  agent_version = "v0.1.0";
  connected_at = 5;
  last_heartbeat_at = 9;
  disconnected_at = none;
  status = "online";
}

-- Every identifier is written as one letter.
abbrev env : WorkspaceRole → Env
env role = record {
  workspaces = λ user. answer (workspace role ∷ []);
  faults = λ n. false;
  now = 10;
  to_lower = λ s. s;
  uuid_parse = λ s. some 3;
  uuid_string = λ n. codes "t";
  latest_session_for_token = λ t. some agent;
  latest_session_for_tenant = λ t. some agent;
  configure_database = λ t s. answer (record {
    completed_at = 8;
    database_user = codes "okta_ai_ro";
    database_name = codes "shop";
    error = [];
    error_code = [];
  });
  capture = λ t.
      answer (record { version_id = 4; table_count = 2; column_count = 9; foreign_key_count = 1 });
  semantic_layer = λ t l. answer (some (record { is_approved = true; approved_at = none }));
  database_password = answer (codes "secret");
  issue_agent_token = answer (3, codes "mssn_x");
  can_update_name = λ s. true;
  edge_agent_image = codes "edge-agent";
  edge_agent_version = codes "v0.1.0";
  public_control_plane_url = codes "https://control";
}

abbrev start : Option State → World
start row = record { row = row; name = codes "Shop"; issued = []; invites = []; calls = 0 }

abbrev at_step : ℕ → Option State
at_step n =
    some (record { current_step = n; payload = empty_payload; completed_at = none; updated_at = 0 })

abbrev owned : Request → Call
owned r = record { env = env owner; user = codes "u"; request = r }

-- The requests of the owner from the first to the last step.
abbrev whole_run : List Call
whole_run =
    owned (welcome (codes "Shop") (codes "ko") true false)
    ∷ owned install
    ∷ owned (database (codes "db") 3306 (codes "shop") (codes "dsn") korean)
    ∷ owned introspect
    ∷ owned (approve 2)
    ∷ owned starter
    ∷ owned complete
    ∷ []

names : NamesIds (env owner)
names n = refl

all_names : AllNameIds whole_run
all_names = one_more names (
    one_more names (
      one_more names (one_more names (one_more names (one_more names (one_more names none_left))))))

-- The run ends with a completed tenant.
whole_run_completes : (loaded (serve 7 whole_run (start none)).row).completed_at ≡ some 10
unfolding serve loaded handle complete_onboarding ◌>>=◌ complete_starter_step mark_semantic_approved
    run_schema_introspection configure_database ensure_install_bundle save_welcome trim_space
    text_beq latest_online_agent_session with_agent first_non_blank
whole_run_completes = refl

handle-Moves_example :
    Moves
      (loaded (at_step 4))
      (loaded (handle (env owner) 7 (codes "u") introspect (start (at_step 4))).1.row)
handle-Moves_example = handle-Moves (env owner) 7 (codes "u") introspect (start (at_step 4)) names

serve-IsValid_example : IsValid (loaded (serve 7 whole_run (start none)).row)
serve-IsValid_example = serve-IsValid 7 whole_run (start none) all_names refl

handle-owner_required_example :
    handle (env member) 7 (codes "u") complete (start (at_step 7))
    ≡ (err owner_required, start (at_step 7))
unfolding find_workspace is_read
handle-owner_required_example =
    handle-owner_required (env member) 7 (codes "u") (workspace member ∷ []) (start (at_step 7))
      refl complete (workspace member) refl refl refl

handle-step_locked_example :
    handle (env owner) 7 (codes "u") introspect (start (at_step 6))
    ≡ (err step_locked, record (start (at_step 6)) { calls = 1 })
unfolding find_workspace loaded is_setup
handle-step_locked_example =
    handle-step_locked (env owner) 7 (codes "u") (workspace owner ∷ []) (start (at_step 6)) refl
      (workspace owner) refl refl refl introspect refl refl

abbrev odd_name : Text
odd_name = codes " my`db "

read_quoted-build_database_setup_sql_example :
    read_quoted false (
      drop
        (length (setup_before (trim_space (codes "secret"))))
        (build_database_setup_sql odd_name (codes "secret")))
    ≡ some (trim_space odd_name, setup_behind)
unfolding trim_space
read_quoted-build_database_setup_sql_example =
    read_quoted-build_database_setup_sql odd_name (codes "secret") refl refl

-- Identifiers in unary, which are read as they are written.
abbrev unary : ℕ → Text
unary zero = []
unary (suc n) = b'a' ∷ unary n

length-unary : (n : ℕ) → length (unary n) ≡ n
length-unary zero = refl
length-unary (suc n) = ap suc (length-unary n)

abbrev parsed : Text → Option ℕ
parsed [] = none
parsed (c ∷ s) = some (length s)

abbrev named : Env
named = record (env owner) { uuid_parse = parsed; uuid_string = λ n. b'a' ∷ unary n }

serve-completed_at_example :
    is_some
      (loaded
        (serve 7
          (calls_of named
            (codes "u")
            (journey (codes "Shop") (codes "db") 3306 (codes "shop") (codes "dsn") korean 2))
          (start (at_step 5))).row).completed_at
    ≡ true
unfolding find_workspace loaded trim_space
serve-completed_at_example =
    serve-completed_at named 7 (codes "u") (start (at_step 5)) (codes "Shop") (codes "db") 3306
      (codes "shop") (codes "dsn") korean 2 (λ n. refl) (workspace owner ∷ []) refl
      (workspace owner) refl refl refl refl refl agent refl refl (λ n. ap some (length-unary n))
      (λ n. refl)
      (record {
        completed_at = 8;
        database_user = codes "okta_ai_ro";
        database_name = codes "shop";
        error = [];
        error_code = [];
      })
      (λ t s. refl) refl refl (codes "secret") refl refl refl
      (record { version_id = 4; table_count = 2; column_count = 9; foreign_key_count = 1 }) refl
      (record { is_approved = true; approved_at = none }) refl refl
