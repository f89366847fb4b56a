-- ===== src/Onboarding/Journey.antt =====
-- Each request of an owner's way through internal/controlplane/controller/onboarding.go, when nothing
-- fails.
use mission.Prelude.{ℕ, suc, ◌≡◌, refl, arith, Bool, true, false, some, List, leb}
use mission.Prelude.Text.{Text, codes, is_empty, trim_space}
use mission.Prelude.Equality.{string_test, text_beq}
use mission.Onboarding.Types.{
  OnboardingWorkspace, State, tenant_error, primary_language_required, invalid_workspace_name,
  SchemaCaptureResult, Layer, step_agent_install, step_schema, step_semantic, step_starter,
  step_done,
}
use mission.Onboarding.Store.{
  World, Env, answer, Action, ok, ◌>>=◌, raise_if, of_answer, persist_state,
}
use mission.Onboarding.Handlers.{is_some, is_owner, or_else, loaded, find_workspace, as_owner}
use mission.Onboarding.Advances.{stored}
use mission.Onboarding.Access.{bind-ok, as_owner-ok}
use mission.Onboarding.Steps.{
  set_name, update_name, welcome_payload, finish_welcome, save_welcome, run_schema_introspection,
  schema_payload, mark_semantic_approved, layer_or_invalid, semantic_payload, complete_starter_step,
  complete_onboarding,
}
use mission.Onboarding.Completion.{
  Gives, gives, passed, then_gives, AtStep, persist-ok, build-ok, save_gives,
}

module _ (env : Env) (fine : (n : ℕ) → env.faults n ≡ false) (tenant : ℕ) (user : Text)
    (ws : List OnboardingWorkspace) (known : env.workspaces user ≡ answer ws)
    (v : OnboardingWorkspace) (found : find_workspace tenant ws ≡ some v)
    (own : is_owner v.role ≡ true) where
  pub owned :
      {A : Type 0} (Q : World → Type 0) (f : OnboardingWorkspace × State → Action A) (w : World)
      → Gives Q (f (v, loaded w.row) (record w { calls = suc w.calls }))
      → Gives Q ((as_owner env tenant user >>= f) w)
  owned Q f w g =
      then_gives Q (as_owner env tenant user) f w _ _
        (as_owner-ok env tenant user ws w known v found own (fine w.calls)) g

  then_name :
      (name : Text) (w : World)
      → env.can_update_name name ≡ true
      → update_name env name w ≡ (ok tt, record w { name = name })
  unfolding update_name set_name
  then_name name w h = bind-ok (raise_if _ tenant_error) _ w tt w (rw h refl)

  pub welcome_gives :
      (name : Text) (auto_save : Bool) (w : World)
      → is_empty (trim_space name) ≡ false
      → env.can_update_name (trim_space name) ≡ true
      → leb step_starter (loaded w.row).current_step ≡ false
      → Gives
          (AtStep step_agent_install)
          (save_welcome env tenant user name (codes "ko") true auto_save w)
  unfolding save_welcome finish_welcome welcome_payload update_name set_name text_beq loaded
  welcome_gives name auto_save w named allowed early =
      let w1 = record w { calls = suc w.calls } in
      let p = welcome_payload env v (trim_space name) (codes "ko") (loaded w.row).payload in
      owned _ _ w (
        passed _ _ _ _ w1 early (
          passed _ _ _ _ w1 (ground (arith, named)) (
            passed _ _ primary_language_required _ w1 refl (
              passed _ _ primary_language_required _ w1 refl (
                passed _ _ invalid_workspace_name _ w1 (rw (named, named) refl) (
                  then_gives _ (update_name env p.workspace_name) _ w1
                    (record w1 { name = p.workspace_name }) tt
                    (then_name p.workspace_name w1 (rw (named, allowed) refl))
                    (save_gives env fine (record v { name = p.workspace_name }) step_agent_install p
                      (loaded w.row).completed_at (record w1 { name = p.workspace_name })
                      (AtStep step_agent_install) refl)))))))

  pub introspect_gives :
      (r : SchemaCaptureResult) (w : World)
      → env.capture tenant ≡ answer r
      → AtStep step_schema w
      → Gives (AtStep step_semantic) (run_schema_introspection env tenant user w)
  unfolding run_schema_introspection loaded
  introspect_gives r w captured h =
      let w1 = record w { calls = suc w.calls } in
      owned _ _ w (
        passed _ _ _ _ w1 (ground (arith, h)) (
          passed _ _ _ _ w1 (ground (arith, h)) (
            then_gives _ (of_answer (env.capture tenant)) _ w1 w1 r (rw captured refl) (
              save_gives env fine v step_semantic (schema_payload env r (loaded w.row).payload)
                (loaded w.row).completed_at w1 (AtStep step_semantic) refl))))

  pub approve_gives :
      (id : ℕ) (l : Layer) (w : World)
      → env.semantic_layer tenant id ≡ answer (some l)
      → l.is_approved ≡ true
      → AtStep step_semantic w
      → Gives (AtStep step_starter) (mark_semantic_approved env tenant user id w)
  unfolding mark_semantic_approved layer_or_invalid loaded
  approve_gives id l w known_layer approved h =
      let w1 = record w { calls = suc w.calls } in
      owned _ _ w (
        passed _ _ _ _ w1 (ground (arith, h)) (
          passed _ _ _ _ w1 (ground (arith, h)) (
            then_gives _ (of_answer (env.semantic_layer tenant id)) _ w1 w1 (some l)
              (rw known_layer refl)
              (then_gives _ (layer_or_invalid env (some l)) _ w1 w1 l refl (
                passed _ _ _ _ w1 (rw approved refl) (
                  save_gives env fine v step_starter
                    (semantic_payload env id l (loaded w.row).payload) (loaded w.row).completed_at
                    w1 (AtStep step_starter) refl))))))

  pub starter_gives :
      (w : World)
      → AtStep step_starter w
      → Gives (AtStep step_done) (complete_starter_step env tenant user w)
  unfolding complete_starter_step loaded
  starter_gives w h =
      let w1 = record w { calls = suc w.calls } in
      owned _ _ w (
        passed _ _ _ _ w1 (ground (arith, h)) (
          save_gives env fine v step_done (loaded w.row).payload (loaded w.row).completed_at w1
            (AtStep step_done) refl))

  pub complete_gives :
      (w : World)
      → AtStep step_done w
      → Gives
          (λ w'. is_some (loaded w'.row).completed_at ≡ true)
          (complete_onboarding env tenant user w)
  unfolding complete_onboarding loaded
  complete_gives w h =
      let w1 = record w { calls = suc w.calls } in
      let s =
        stored env step_done (loaded w.row).payload
          (some (or_else (loaded w.row).completed_at env.now)) in
      owned _ _ w (
        passed _ _ _ _ w1 (ground (arith, h)) (
          then_gives _
            (persist_state env step_done (loaded w.row).payload
              (some (or_else (loaded w.row).completed_at env.now)))
            _ w1 (record w1 { row = some s; calls = suc w1.calls }) s (persist-ok env fine _ _ _ w1)
            (rw (build-ok env fine _ s (record w1 { row = some s; calls = suc w1.calls }))
              (gives refl))))
