-- ===== src/Onboarding/Connecting.antt =====
-- The requests with which an owner connects an agent and a database to internal/controlplane/controller/onboarding.go, when nothing
-- fails.
use mission.Prelude.{
  ℕ, suc, ◌≤◌, ◌≡◌, refl, ap, ◌∙◌, arith, Bool, true, false, Option, none, some, List, [], ◌∷◌, ltb,
  nat_beq, max,
}
use mission.Prelude.Text.{Text, is_empty, trim_space}
use mission.Prelude.Equality.{◌==◌, string_test}
use mission.Sessions.Types.{AgentSessionSnapshot}
use mission.Onboarding.Types.{
  OnboardingWorkspace, OnboardingPayload, State, invalid_step, step_locked, invalid_workspace_name,
  Locale, DatabaseResult, step_agent_install, step_database, step_schema,
}
use mission.Onboarding.Store.{World, Env, answer, Action, ok, ◌>>=◌, of_answer, persist_state}
use mission.Onboarding.Handlers.{
  is_owner, loaded, find_workspace, latest_online_agent_session, online, online_for_token,
  parse_optional_uuid, with_agent, agent_news, persist_if, refresh_with, refresh_agent_connection,
}
use mission.Onboarding.Trim.{trim_space_idem}
use mission.Onboarding.Advances.{stored}
use mission.Onboarding.Access.{bind-ok}
use mission.Onboarding.Steps.{
  ensure_token, issue, install_payload, ensure_install_bundle, configure_database, database_payload,
  ensure_password, connect_or_save, connect, token_or_invalid, finish_database, verified_payload,
}
use mission.Onboarding.Texts.{first_non_blank}
use mission.Onboarding.Completion.{
  Gives, gives, passed, then_gives, AtStep, persist-ok, build-ok, save_gives,
}
use mission.Onboarding.Journey.{owned}

nonblank : (s : Text) → is_empty (trim_space s) ≡ false → is_empty s ≡ false
unfolding trim_space
nonblank [] h = h
nonblank (c ∷ s) h = refl

-- The agent stays online during the requests, and a UUID is read as it is written.
module _ (env : Env) (fine : (n : ℕ) → env.faults n ≡ false) (tenant : ℕ) (user : Text)
    (ws : List OnboardingWorkspace) (known : env.workspaces user ≡ answer ws)
    (v : OnboardingWorkspace) (found : find_workspace tenant ws ≡ some v)
    (own : is_owner v.role ≡ true) (a : AgentSessionSnapshot)
    (here : env.latest_session_for_tenant tenant ≡ some a) (up : (a.status == "online") ≡ true)
    (read : (n : ℕ) → env.uuid_parse (env.uuid_string n) ≡ some n)
    (written : (n : ℕ) → is_empty (trim_space (env.uuid_string n)) ≡ false) where
  first_of :
      (o p : Option AgentSessionSnapshot)
      → p ≡ some a
      → (b : AgentSessionSnapshot) × ((elim o as (λ _. Option AgentSessionSnapshot) [
        | none ↦ p
        | some s ↦ some s
      ])
          ≡ some b)
  first_of none p e = (a, e)
  first_of (some b) p e = (b, refl)

  -- Some agent is found, whatever token is asked for.
  any_agent :
      (raw : Text)
      → (b : AgentSessionSnapshot) × (latest_online_agent_session env tenant raw ≡ some b)
  unfolding latest_online_agent_session online
  any_agent raw =
      first_of (online_for_token env (parse_optional_uuid env raw))
        (online env (env.latest_session_for_tenant tenant)) (rw here (rw up refl))

  -- A state that has an agent's token, in a row.
  abbrev IsConnected : State → World → Type 0
  IsConnected s w =
      (loaded w.row ≡ s)
      × ((s.current_step ≡ step_database)
          × ((n : ℕ) × (s.payload.agent_token_id ≡ env.uuid_string n)))

  abbrev pub ConnectedAtDatabase : World → Type 0
  ConnectedAtDatabase w = IsConnected (loaded w.row) w

  loaded-some : (s : State) → s.current_step ≡ step_database → loaded (some s) ≡ s
  unfolding loaded
  loaded-some s h = let z : nat_beq s.current_step 0 ≡ false = ground (arith, h) in rw z refl

  persist_if-ok :
      (u : OnboardingWorkspace) (old new : State) (w : World)
      → persist_if env true u old new w ≡ (
        ok (
          record u { current_step = new.current_step; updated_at = env.now },
          stored env new.current_step new.payload new.completed_at,
        ),
        record w {
          row = some (stored env new.current_step new.payload new.completed_at);
          calls = suc w.calls;
        },
      )
  unfolding persist_if
  persist_if-ok u old new w =
      bind-ok (persist_state env new.current_step new.payload new.completed_at) _ w _ _
        (persist-ok env fine _ _ _ w)

  persist_if_gives :
      {A : Type 0} (R : World → Type 0) (b : Bool) (u : OnboardingWorkspace) (old new : State)
      (f : OnboardingWorkspace × State → Action A) (w : World)
      → (b ≡ false → IsConnected old w)
      → new.current_step ≡ step_database
      → ((n : ℕ) × (new.payload.agent_token_id ≡ env.uuid_string n))
      → ((u' : OnboardingWorkspace) (s : State) (w' : World)
          → IsConnected s w'
          → Gives R (f (u', s) w'))
      → Gives R ((persist_if env b u old new >>= f) w)
  unfolding persist_if
  persist_if_gives R false u old new f w c step token k =
      then_gives R (persist_if env false u old new) f w w (u, old) refl (k u old w (c refl))
  persist_if_gives R true u old new f w c step token k =
      then_gives R (persist_if env true u old new) f w _ _ (persist_if-ok u old new w) (
        k _ _ _ (
          loaded-some (stored env new.current_step new.payload new.completed_at) step,
          (step, token),
        ))

  -- `refreshAgentConnection` of a state at the second step, or at the third with a row and a token.
  refresh_gives :
      {A : Type 0} (R : World → Type 0) (u : OnboardingWorkspace) (s : State)
      (f : OnboardingWorkspace × State → Action A) (w : World)
      → 1 ≤ s.current_step
      → s.current_step ≤ step_database
      → (ltb s.current_step step_database ≡ false → IsConnected s w)
      → ((u' : OnboardingWorkspace) (s' : State) (w' : World)
          → IsConnected s' w'
          → Gives R (f (u', s') w'))
      → Gives R ((refresh_agent_connection env tenant u s >>= f) w)
  unfolding refresh_agent_connection refresh_with agent_news with_agent
  refresh_gives R u s f w low high c k =
      let (b, e) = any_agent s.payload.agent_token_id in
      rw e (
        persist_if_gives R (agent_news (env.uuid_string b.token_id) b s) u s
          (with_agent (env.uuid_string b.token_id) b s) f w (λ h. c (ground (arith, h)))
          (ground arith) (b.token_id, refl) k)

  loaded-ConnectedAtDatabase : (s : State) (w : World) → IsConnected s w → ConnectedAtDatabase w
  loaded-ConnectedAtDatabase s w (e, (step, (n, token))) = (
    refl,
    (
      ap (λ (x : State). x.current_step) e ∙ step,
      (n, ap (λ (x : State). x.payload.agent_token_id) e ∙ token),
    ),
  )

  ensure_token-ok :
      (s : State) (n : ℕ) (w : World)
      → s.payload.agent_token_id ≡ env.uuid_string n
      → ensure_token env s w ≡ (ok s, w)
  unfolding ensure_token issue
  ensure_token-ok s n w h = rw (ap is_empty h ∙ nonblank (env.uuid_string n) (written n)) refl

  pub install_gives :
      (w : World)
      → AtStep step_agent_install w
      → Gives ConnectedAtDatabase (ensure_install_bundle env tenant user w)
  unfolding ensure_install_bundle
  install_gives w h =
      let w1 = record w { calls = suc w.calls } in
      owned env fine tenant user ws known v found own _ _ w (
        passed _ _ invalid_step _ w1 (ground (arith, h)) (
          passed _ _ step_locked _ w1 (ground (arith, h)) (
            refresh_gives _ v
              (record (loaded w.row) { payload = install_payload env v (loaded w.row).payload }) _
              w1 (omega (arith, h)) (omega (arith, h)) (λ late. absurd (ground (arith, h, late)))
              (λ u1 s1 w2 c1.
                then_gives _ (ensure_token env s1) _ w2 w2 s1
                  (ensure_token-ok s1 c1.1.1.0 w2 c1.1.1.1)
                  (then_gives _
                    (persist_state env (max s1.current_step step_agent_install) s1.payload
                      s1.completed_at)
                    _ w2 (record w2 { row = some (next s1); calls = suc w2.calls }) (next s1)
                    (persist-ok env fine _ _ _ w2)
                    (refresh_gives _ _ (next s1) _
                      (record w2 { row = some (next s1); calls = suc w2.calls })
                      (ground (arith, c1.1.0)) (ground (arith, c1.1.0))
                      (λ _. (
                        loaded-some (next s1) (ground (arith, c1.1.0)),
                        (ground (arith, c1.1.0), c1.1.1),
                      ))
                      (λ u2 s2 w3 c2.
                        rw (build-ok env fine u2 s2 w3)
                          (gives (loaded-ConnectedAtDatabase s2 w3 c2)))))))))
    where
      next : State → State
      next s = stored env (max s.current_step step_agent_install) s.payload s.completed_at

  password_gives :
      {A : Type 0} (R : World → Type 0) (pw : Text)
      → env.database_password ≡ answer pw
      → (b : Bool) (p : OnboardingPayload) (f : OnboardingPayload → Action A) (w : World)
      → ((p1 : OnboardingPayload)
          → p1.database_name ≡ p.database_name
          → p1.agent_token_id ≡ p.agent_token_id
          → Gives R (f p1 w))
      → Gives R ((ensure_password env b p >>= f) w)
  unfolding ensure_password
  password_gives R pw drawn false p f w k =
      then_gives R (ensure_password env false p) f w w p refl (k p refl refl)
  password_gives R pw drawn true p f w k =
      then_gives R (ensure_password env true p) f w w (record p { generated_password = pw })
        (bind-ok (of_answer env.database_password) _ w pw w (rw drawn refl))
        (k (record p { generated_password = pw }) refl refl)

  connect_gives :
      (r : DatabaseResult)
      → ((t : ℕ) (dsn : Text) → env.configure_database t dsn ≡ answer r)
      → r.error ≡ []
      → r.error_code ≡ []
      → (s : State) (p : OnboardingPayload) (locale : Locale) (dsn : Text) (n : ℕ) (w : World)
      → p.agent_token_id ≡ env.uuid_string n
      → Gives (AtStep step_schema) (connect env v s p locale dsn w)
  unfolding connect token_or_invalid parse_optional_uuid finish_database loaded
  connect_gives r configured e1 e2 s p locale dsn n w h =
      then_gives _ (token_or_invalid env (parse_optional_uuid env p.agent_token_id)) _ w w n
        (rw h (rw (written n) (rw (read n) refl)))
        (then_gives _ (of_answer (env.configure_database n dsn)) _ w w r
          (rw (configured n dsn) refl)
          (rw (ap is_empty e1) (
            rw (ap is_empty e2) (
              save_gives env fine v step_schema (verified_payload env r p) s.completed_at w
                (AtStep step_schema) refl))))

  pub database_gives :
      (r : DatabaseResult)
      → ((t : ℕ) (dsn : Text) → env.configure_database t dsn ≡ answer r)
      → r.error ≡ []
      → r.error_code ≡ []
      → (pw : Text) → env.database_password ≡ answer pw
      → (host : Text) (port : ℕ) (name dsn : Text) (locale : Locale)
      → is_empty (trim_space name) ≡ false
      → is_empty (trim_space dsn) ≡ false
      → (w : World) → ConnectedAtDatabase w
      → Gives (AtStep step_schema) (configure_database env tenant user host port name dsn locale w)
  unfolding configure_database database_payload first_non_blank connect_or_save
  database_gives r configured e1 e2 pw drawn host port name dsn locale named given w
        (_, (step, (n, token))) =
      let w1 = record w { calls = suc w.calls } in
      let p = database_payload env host port name (loaded w.row).payload in
      owned env fine tenant user ws known v found own _ _ w (
        passed _ _ invalid_step _ w1 (ground (arith, step)) (
          passed _ _ step_locked _ w1 (ground (arith, step)) (
            password_gives _ pw drawn (is_empty p.generated_password) p _ w1 (λ p1 same keep.
              passed _ _ invalid_workspace_name _ w1 (ap is_empty same ∙ name_kept) (
                rw given (
                  connect_gives r configured e1 e2 (loaded w.row) p1 locale (trim_space dsn) n w1
                    (keep ∙ token)))))))
    where
      name_kept :
          is_empty (database_payload env host port name (loaded w.row).payload).database_name
          ≡ false
      name_kept = rw named (rw (trim_space_idem name) named)
