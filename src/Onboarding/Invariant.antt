-- ===== src/Onboarding/Invariant.antt =====
-- What holds of a tenant's row after any requests to internal/controlplane/controller/onboarding.go.
use mission.Prelude.{ℕ, ◌≡◌, none, List, [], ◌∷◌, false, arith}
use mission.Prelude.Text.{Text, is_empty}
use mission.Onboarding.Types.{State, OnboardingStateView}
use mission.Onboarding.Store.{World, Env, Result}
use mission.Onboarding.Handlers.{loaded}
use mission.Onboarding.Steps.{create_invites}
use mission.Onboarding.Requests.{
  Request, read, welcome, install, connection, database, introspect, approve, starter, complete,
  invite, handle,
}
use mission.Onboarding.Progress.{IsValid, Moves, Moves-refl, Moves-trans}
use mission.Onboarding.Rules.{Runs, returns, raises, bind_runs}
use mission.Onboarding.Parts.{Any}
use mission.Onboarding.Preservation.{
  get_state_runs, save_welcome_runs, ensure_install_bundle_runs, get_agent_connection_status_runs,
  configure_database_runs, run_schema_introspection_runs, mark_semantic_approved_runs,
  complete_starter_step_runs, complete_onboarding_runs, create_invites_runs,
}

-- A UUID is never written as the empty text.
abbrev pub NamesIds : Env → Type 0
NamesIds env = (n : ℕ) → is_empty (env.uuid_string n) ≡ false

handle_runs :
    (env : Env) (tenant : ℕ) (user : Text) (w : World)
    → NamesIds env
    → (req : Request) → Runs (loaded w.row) (Any OnboardingStateView) (handle env tenant user req w)
unfolding handle
handle_runs env tenant user w id read = get_state_runs env tenant user w
handle_runs env tenant user w id (welcome name language confirm auto_save) =
    save_welcome_runs env tenant user w name language confirm auto_save
handle_runs env tenant user w id install = ensure_install_bundle_runs env tenant user w
handle_runs env tenant user w id connection = get_agent_connection_status_runs env tenant user w
handle_runs env tenant user w id (database host port name dsn locale) =
    configure_database_runs env tenant user w host port name dsn locale
handle_runs env tenant user w id introspect = run_schema_introspection_runs env tenant user w id
handle_runs env tenant user w id (approve layer) =
    mark_semantic_approved_runs env tenant user w layer
handle_runs env tenant user w id starter = complete_starter_step_runs env tenant user w
handle_runs env tenant user w id complete = complete_onboarding_runs env tenant user w
handle_runs env tenant user w id (invite emails) =
    bind_runs (loaded w.row) _ _ (create_invites env tenant user emails) _ w
      (create_invites_runs env tenant user w emails) (λ p w1 h1 _. returns h1 tt)

Runs-Moves :
    {A : Type 0} (base : State) (Q : A → Type 0) (p : Result A × World)
    → Runs base Q p
    → Moves base (loaded p.1.row)
Runs-Moves base Q _ (returns h _) = h
Runs-Moves base Q _ (raises h) = h

-- Whatever the request, the user, the faults of the database and the answers of the other components: when
-- a UUID is never written as the empty text, the tenant's state after the request, refused or not, is valid
-- if it was (a step is between 1 and 7 and has what the steps before it leave, and a completed tenant is at
-- step 7); a valid state at step 6 or later keeps its language, names, database settings, schema and
-- approved layer and does not go back; and a time of completion never changes.
pub handle-Moves :
    (env : Env) (tenant : ℕ) (user : Text) (req : Request) (w : World)
    → NamesIds env
    → Moves (loaded w.row) (loaded (handle env tenant user req w).1.row)
handle-Moves env tenant user req w id =
    Runs-Moves (loaded w.row) _ _ (handle_runs env tenant user w id req)

-- A request, with what the rest of the program answers while it runs.
pub record Call : Type 0 where
  pub env : Env
  pub user : Text
  pub request : Request

unfoldable pub serve : ℕ → List Call → World → World
serve tenant [] w = w
serve tenant (c ∷ cs) w = serve tenant cs (handle c.env tenant c.user c.request w).1

-- Of each call of a list.
pub data AllNameIds : List Call → Type 0 where
  none_left : AllNameIds []
  one_more : {c : Call} {cs : List Call} → NamesIds c.env → AllNameIds cs → AllNameIds (c ∷ cs)

-- The same of any list of requests, each by any user and with any answers, faults and time: when a UUID is
-- never written as the empty text, a tenant whose semantic layer was once approved (a valid state at step 6
-- or later) keeps its setup and does not go back, and a time of completion never changes.
pub serve-Moves :
    (tenant : ℕ) (calls : List Call) (w : World)
    → AllNameIds calls
    → Moves (loaded w.row) (loaded (serve tenant calls w).row)
unfolding serve
serve-Moves tenant [] w none_left = Moves-refl _
serve-Moves tenant (c ∷ cs) w (one_more id ids) =
    Moves-trans _ _ _ (handle-Moves c.env tenant c.user c.request w id)
      (serve-Moves tenant cs (handle c.env tenant c.user c.request w).1 ids)

loaded-none-IsValid : IsValid (loaded none)
unfolding loaded
loaded-none-IsValid = record {
  low = omega arith;
  high = omega arith;
  verified = λ h. absurd (omega arith);
  introspected = λ h. absurd (omega arith);
  approved = λ h. absurd (omega arith);
  finished = λ h. absurd (ground (arith, h));
}

-- A tenant that has no row yet has a valid state after any list of requests by any users, whatever failed on
-- the way, when a UUID is never written as the empty text: at step 4 or later its database was verified, at
-- step 5 or later its schema was captured, at step 6 or later its semantic layer was approved, and it is
-- completed only at step 7.
pub serve-IsValid :
    (tenant : ℕ) (calls : List Call) (w : World)
    → AllNameIds calls
    → w.row ≡ none
    → IsValid (loaded (serve tenant calls w).row)
serve-IsValid tenant calls w ids new =
    (serve-Moves tenant calls w ids).valid (rw new loaded-none-IsValid)
