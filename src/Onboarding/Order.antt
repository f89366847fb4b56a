-- ===== src/Onboarding/Order.antt =====
-- The order of the steps of internal/controlplane/controller/onboarding.go: from which step on a request
-- is allowed, and up to which.
use mission.Prelude.{ℕ, suc, ◌≤◌, ◌≡◌, refl, ◌∙◌, arith, Bool, true, false, some, List, ltb, leb}
use mission.Prelude.Text.{Text}
use mission.Onboarding.Types.{
  OnboardingWorkspace, State, invalid_step, step_locked, step_agent_install, step_database,
  step_schema, step_semantic, step_starter, step_done,
}
use mission.Onboarding.Store.{World, Env, answer, Action, err, ◌>>=◌, ◌>>◌, raise_if}
use mission.Onboarding.Handlers.{is_owner, loaded, find_workspace, as_owner}
use mission.Onboarding.Steps.{
  save_welcome, ensure_install_bundle, get_agent_connection_status, configure_database,
  run_schema_introspection, mark_semantic_approved, complete_starter_step, complete_onboarding,
  create_invites,
}
use mission.Onboarding.Requests.{
  Request, read, welcome, install, connection, database, introspect, approve, starter, complete,
  invite, handle,
}
use mission.Onboarding.Access.{bind-ok, bind-err, as_owner-ok}

-- The first step at which a request is allowed.
unfoldable pub first_step : Request → ℕ
first_step read = 0
first_step (welcome _ _ _ _) = 0
first_step install = step_agent_install
first_step connection = step_agent_install
first_step (database _ _ _ _ _) = step_database
first_step introspect = step_schema
first_step (approve _) = step_semantic
first_step starter = step_starter
first_step complete = step_done
first_step (invite _) = step_done

-- Whether the approval of the semantic layer ends it.
unfoldable pub is_setup : Request → Bool
is_setup (welcome _ _ _ _) = true
is_setup install = true
is_setup (database _ _ _ _ _) = true
is_setup introspect = true
is_setup (approve _) = true
is_setup _ = false

-- The guard on a first step lets a request after the approval pass, and the next guard stops it.
stopped_behind :
    {A : Type 0} (step first : ℕ) (rest : Action A) (w : World)
    → leb step_starter step ≡ true
    → first ≤ step_starter
    → (raise_if (ltb step first) invalid_step
          >> (raise_if (leb step_starter step) step_locked >> rest))
        w
      ≡ (err step_locked, w)
stopped_behind step first rest w late low =
    bind-ok (raise_if (ltb step first) invalid_step) _ w tt w (rw passes refl)
    ∙ bind-err (raise_if (leb step_starter step) step_locked) _ w step_locked w (rw late refl)
  where
    passes : ltb step first ≡ false
    passes = ground (arith, late)

module _ (env : Env) (tenant : ℕ) (user : Text) (ws : List OnboardingWorkspace) (w : World)
    (known : env.workspaces user ≡ answer ws) (v : OnboardingWorkspace)
    (found : find_workspace tenant ws ≡ some v) (own : is_owner v.role ≡ true)
    (fine : env.faults w.calls ≡ false) where
  -- What is left of a method after its start.
  owned :
      {A : Type 0} (f : OnboardingWorkspace × State → Action A)
      → (as_owner env tenant user >>= f) w ≡ f (v, loaded w.row) (record w { calls = suc w.calls })
  owned f =
      bind-ok (as_owner env tenant user) f w _ _
        (as_owner-ok env tenant user ws w known v found own fine)

  -- An owner's request before its step fails with ErrOnboardingInvalidStep, after one call of the database,
  -- which reads the row; nothing is changed.
  pub handle-invalid_step :
      (req : Request)
      → ltb (loaded w.row).current_step (first_step req) ≡ true
      → handle env tenant user req w ≡ (err invalid_step, record w { calls = suc w.calls })
  unfolding first_step handle ensure_install_bundle get_agent_connection_status configure_database
      run_schema_introspection mark_semantic_approved complete_starter_step complete_onboarding
      create_invites
  handle-invalid_step read early = absurd (ground (arith, early))
  handle-invalid_step (welcome _ _ _ _) early = absurd (ground (arith, early))
  handle-invalid_step install early = owned _ ∙ bind-err (raise_if _ _) _ _ _ _ (rw early refl)
  handle-invalid_step connection early = owned _ ∙ bind-err (raise_if _ _) _ _ _ _ (rw early refl)
  handle-invalid_step (database _ _ _ _ _) early =
      owned _ ∙ bind-err (raise_if _ _) _ _ _ _ (rw early refl)
  handle-invalid_step introspect early = owned _ ∙ bind-err (raise_if _ _) _ _ _ _ (rw early refl)
  handle-invalid_step (approve _) early = owned _ ∙ bind-err (raise_if _ _) _ _ _ _ (rw early refl)
  handle-invalid_step starter early = owned _ ∙ bind-err (raise_if _ _) _ _ _ _ (rw early refl)
  handle-invalid_step complete early = owned _ ∙ bind-err (raise_if _ _) _ _ _ _ (rw early refl)
  handle-invalid_step (invite emails) early =
      bind-err (create_invites env tenant user emails) _ w _ _
        (owned _ ∙ bind-err (raise_if _ _) _ _ _ _ (rw early refl))

  -- From the approval of the semantic layer on, an owner's request that sets up the installation, the
  -- database, the schema or the layer fails with ErrOnboardingStepLocked and changes nothing.
  pub handle-step_locked :
      (req : Request)
      → is_setup req ≡ true
      → leb step_starter (loaded w.row).current_step ≡ true
      → handle env tenant user req w ≡ (err step_locked, record w { calls = suc w.calls })
  unfolding is_setup handle save_welcome ensure_install_bundle configure_database
      run_schema_introspection mark_semantic_approved
  handle-step_locked read setup late = absurd (ground (arith, setup))
  handle-step_locked (welcome _ _ _ _) setup late =
      owned _ ∙ bind-err (raise_if _ _) _ _ _ _ (rw late refl)
  handle-step_locked install setup late =
      owned _ ∙ stopped_behind _ step_agent_install _ _ late (omega arith)
  handle-step_locked connection setup late = absurd (ground (arith, setup))
  handle-step_locked (database _ _ _ _ _) setup late =
      owned _ ∙ stopped_behind _ step_database _ _ late (omega arith)
  handle-step_locked introspect setup late =
      owned _ ∙ stopped_behind _ step_schema _ _ late (omega arith)
  handle-step_locked (approve _) setup late =
      owned _ ∙ stopped_behind _ step_semantic _ _ late (omega arith)
  handle-step_locked starter setup late = absurd (ground (arith, setup))
  handle-step_locked complete setup late = absurd (ground (arith, setup))
  handle-step_locked (invite emails) setup late = absurd (ground (arith, setup))
