-- ===== src/Onboarding/Liveness.antt =====
-- The way of an owner through all steps of internal/controlplane/controller/onboarding.go.
use mission.Prelude.{ℕ, ◌≡◌, true, false, some, List, [], ◌∷◌, leb}
use mission.Prelude.Text.{Text, codes, is_empty, trim_space}
use mission.Prelude.Equality.{◌==◌, string_test}
use mission.Sessions.Types.{AgentSessionSnapshot}
use mission.Onboarding.Types.{
  OnboardingWorkspace, Locale, DatabaseResult, SchemaCaptureResult, Layer, step_starter,
}
use mission.Onboarding.Store.{World, Env, answer}
use mission.Onboarding.Handlers.{is_some, is_owner, loaded, find_workspace}
use mission.Onboarding.Requests.{
  Request, welcome, install, database, introspect, approve, starter, complete, handle,
}
use mission.Onboarding.Invariant.{Call, serve}
use mission.Onboarding.Completion.{Gives-post}
use mission.Onboarding.Connecting.{install_gives, database_gives}
use mission.Onboarding.Journey.{
  welcome_gives, introspect_gives, approve_gives, starter_gives, complete_gives,
}

abbrev pub calls_of : Env → Text → List Request → List Call
calls_of env user [] = []
calls_of env user (r ∷ rs) = record { env = env; user = user; request = r } ∷ calls_of env user rs

-- One request of each step.
abbrev pub journey : Text → Text → ℕ → Text → Text → Locale → ℕ → List Request
journey name host port database_name dsn locale layer =
    welcome name (codes "ko") true false
    ∷ install
    ∷ database host port database_name dsn locale
    ∷ introspect
    ∷ approve layer
    ∷ starter
    ∷ complete
    ∷ []

-- An owner whose setup is not locked completes the onboarding, from whatever step, by one request of each
-- kind, when the database does not fail, an agent of the tenant is online, a UUID is read as it is written
-- and not blank, the name is allowed, the texts given are not blank, and the connection, the capture of the
-- schema, the password and the approved semantic layer are answered without an error.
pub serve-completed_at :
    (env : Env) (tenant : ℕ) (user : Text) (w : World) (name host : Text) (port : ℕ)
    (database_name dsn : Text) (locale : Locale) (layer : ℕ)
    → ((n : ℕ) → env.faults n ≡ false)
    → (ws : List OnboardingWorkspace) → env.workspaces user ≡ answer ws
    → (v : OnboardingWorkspace) → find_workspace tenant ws ≡ some v
    → is_owner v.role ≡ true
    → leb step_starter (loaded w.row).current_step ≡ false
    → is_empty (trim_space name) ≡ false
    → env.can_update_name (trim_space name) ≡ true
    → (a : AgentSessionSnapshot) → env.latest_session_for_tenant tenant ≡ some a
    → (a.status == "online") ≡ true
    → ((n : ℕ) → env.uuid_parse (env.uuid_string n) ≡ some n)
    → ((n : ℕ) → is_empty (trim_space (env.uuid_string n)) ≡ false)
    → (r : DatabaseResult) → ((t : ℕ) (s : Text) → env.configure_database t s ≡ answer r)
    → r.error ≡ []
    → r.error_code ≡ []
    → (password : Text) → env.database_password ≡ answer password
    → is_empty (trim_space database_name) ≡ false
    → is_empty (trim_space dsn) ≡ false
    → (schema : SchemaCaptureResult) → env.capture tenant ≡ answer schema
    → (l : Layer) → env.semantic_layer tenant layer ≡ answer (some l)
    → l.is_approved ≡ true
    → is_some
        (loaded
          (serve tenant
            (calls_of env user (journey name host port database_name dsn locale layer))
            w).row).completed_at
      ≡ true
unfolding serve handle
serve-completed_at env tenant user w name host port database_name dsn locale layer fine ws known v
      found own early named allowed a here up read written r configured e1 e2 password drawn
      database_named given schema captured l known_layer approved =
    let g1 =
      Gives-post _ _ (
        welcome_gives env fine tenant user ws known v found own name false w named allowed early) in
    let g2 =
      Gives-post _ _
        (install_gives env fine tenant user ws known v found own a here up read written _ g1) in
    let g3 = Gives-post _ _ (
      database_gives env fine tenant user ws known v found own a here up read written r configured
        e1 e2 password drawn host port database_name dsn locale database_named given _ g2) in
    let g4 =
      Gives-post _ _
        (introspect_gives env fine tenant user ws known v found own schema _ captured g3) in
    let g5 =
      Gives-post _ _ (
        approve_gives env fine tenant user ws known v found own layer l _ known_layer approved
          g4) in
    let g6 = Gives-post _ _ (starter_gives env fine tenant user ws known v found own _ g5) in
    Gives-post _ _ (complete_gives env fine tenant user ws known v found own _ g6)
