-- ===== src/Onboarding/Access.antt =====
-- Who may do what, in internal/controlplane/controller/onboarding.go.
use mission.Prelude.{
  ℕ, suc, ◌≡◌, refl, ◌∙◌, arith, Bool, Bool-cases, inl, inr, true, false, not, none, some, List,
}
use mission.Prelude.Text.{Text}
use mission.Onboarding.Types.{OnboardingWorkspace, Error, access_denied, owner_required}
pub use mission.Prelude.Actions.{bind-ok, bind-err}
use mission.Onboarding.Store.{World, Env, answer, ok, err, raise_if, of_answer, called}
use mission.Onboarding.Handlers.{
  is_owner, loaded, get_row, load_record, find_workspace, workspace_or_denied, load_workspace,
  as_owner, get_state,
}
use mission.Onboarding.Steps.{
  save_welcome, ensure_install_bundle, get_agent_connection_status, configure_database,
  run_schema_introspection, mark_semantic_approved, complete_starter_step, complete_onboarding,
  create_invites,
}
use mission.Onboarding.Requests.{
  Request, read, welcome, install, connection, database, introspect, approve, starter, complete,
  invite, handle,
}

unfoldable pub is_read : Request → Bool
is_read read = true
is_read _ = false

module _ (env : Env) (tenant : ℕ) (user : Text) (ws : List OnboardingWorkspace) (w : World)
    (known : env.workspaces user ≡ answer ws) where
  load_workspace-denied :
      find_workspace tenant ws ≡ none → load_workspace env tenant user w ≡ (err access_denied, w)
  unfolding load_workspace workspace_or_denied
  load_workspace-denied missing =
      bind-ok (of_answer (env.workspaces user)) _ w ws w (rw known refl) ∙ rw missing refl

  pub load_workspace-found :
      (v : OnboardingWorkspace)
      → find_workspace tenant ws ≡ some v
      → load_workspace env tenant user w ≡ (ok v, w)
  unfolding load_workspace workspace_or_denied
  load_workspace-found v found =
      bind-ok (of_answer (env.workspaces user)) _ w ws w (rw known refl) ∙ rw found refl

  as_owner-denied :
      find_workspace tenant ws ≡ none → as_owner env tenant user w ≡ (err access_denied, w)
  unfolding as_owner
  as_owner-denied missing =
      bind-err (load_workspace env tenant user) _ w _ w (load_workspace-denied missing)

  pub as_owner-ok :
      (v : OnboardingWorkspace)
      → find_workspace tenant ws ≡ some v
      → is_owner v.role ≡ true
      → env.faults w.calls ≡ false
      → as_owner env tenant user w ≡ (ok (v, loaded w.row), record w { calls = suc w.calls })
  unfolding as_owner load_record called get_row
  as_owner-ok v found own fine =
      bind-ok (load_workspace env tenant user) _ w v w (load_workspace-found v found)
      ∙ (bind-ok (raise_if (not (is_owner v.role)) owner_required) _ w tt w (rw own refl)
          ∙ bind-ok (load_record env) _ w (loaded w.row) (record w { calls = suc w.calls })
              (bind-ok (called env) _ w tt (record w { calls = suc w.calls }) (rw fine refl)))

  as_owner-refused :
      (v : OnboardingWorkspace)
      → find_workspace tenant ws ≡ some v
      → is_owner v.role ≡ false
      → as_owner env tenant user w ≡ (err owner_required, w)
  unfolding as_owner
  as_owner-refused v found other =
      bind-ok (load_workspace env tenant user) _ w v w (load_workspace-found v found)
      ∙ bind-err (raise_if (not (is_owner v.role)) owner_required) _ w owner_required w
          (rw other refl)

  handle-err :
      (e : Error) (req : Request)
      → as_owner env tenant user w ≡ (err e, w)
      → is_read req ≡ false
      → handle env tenant user req w ≡ (err e, w)
  unfolding is_read handle save_welcome ensure_install_bundle get_agent_connection_status
      configure_database run_schema_introspection mark_semantic_approved complete_starter_step
      complete_onboarding create_invites
  handle-err e read h writing = absurd (ground (arith, writing))
  handle-err e (welcome _ _ _ _) h writing = bind-err (as_owner env tenant user) _ w e w h
  handle-err e install h writing = bind-err (as_owner env tenant user) _ w e w h
  handle-err e connection h writing = bind-err (as_owner env tenant user) _ w e w h
  handle-err e (database _ _ _ _ _) h writing = bind-err (as_owner env tenant user) _ w e w h
  handle-err e introspect h writing = bind-err (as_owner env tenant user) _ w e w h
  handle-err e (approve _) h writing = bind-err (as_owner env tenant user) _ w e w h
  handle-err e starter h writing = bind-err (as_owner env tenant user) _ w e w h
  handle-err e complete h writing = bind-err (as_owner env tenant user) _ w e w h
  handle-err e (invite emails) h writing =
      bind-err (create_invites env tenant user emails) _ w e w
        (bind-err (as_owner env tenant user) _ w e w h)

  read-denied :
      (req : Request)
      → is_read req ≡ true
      → find_workspace tenant ws ≡ none
      → handle env tenant user req w ≡ (err access_denied, w)
  unfolding handle get_state is_read
  read-denied read reading missing =
      bind-err (load_workspace env tenant user) _ w _ w (load_workspace-denied missing)
  read-denied (welcome _ _ _ _) reading missing = absurd (ground (arith, reading))
  read-denied install reading missing = absurd (ground (arith, reading))
  read-denied connection reading missing = absurd (ground (arith, reading))
  read-denied (database _ _ _ _ _) reading missing = absurd (ground (arith, reading))
  read-denied introspect reading missing = absurd (ground (arith, reading))
  read-denied (approve _) reading missing = absurd (ground (arith, reading))
  read-denied starter reading missing = absurd (ground (arith, reading))
  read-denied complete reading missing = absurd (ground (arith, reading))
  read-denied (invite emails) reading missing = absurd (ground (arith, reading))

  -- When the list of a user's workspaces does not name the tenant, each of the user's requests fails with
  -- ErrWorkspaceAccessDenied and changes nothing.
  pub handle-denied :
      (req : Request)
      → find_workspace tenant ws ≡ none
      → handle env tenant user req w ≡ (err access_denied, w)
  handle-denied req missing = elim (Bool-cases (is_read req)) [
    | inl reading ↦ read-denied req reading missing
    | inr writing ↦ handle-err access_denied req (as_owner-denied missing) writing
  ]

  -- A member who is not an owner of the tenant is refused each request but the reading of the state with
  -- ErrOnboardingOwnerRequired, and the request changes nothing.
  pub handle-owner_required :
      (req : Request) (v : OnboardingWorkspace)
      → find_workspace tenant ws ≡ some v
      → is_owner v.role ≡ false
      → is_read req ≡ false
      → handle env tenant user req w ≡ (err owner_required, w)
  handle-owner_required req v found other writing =
      handle-err owner_required req (as_owner-refused v found other) writing
