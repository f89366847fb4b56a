-- ===== src/Onboarding/Advances.antt =====
-- The states that the methods of internal/controlplane/controller/onboarding.go store are allowed
-- successors of the state that they load.
use mission.Prelude.{ℕ, ◌≤◌, ◌<◌, ◌≡◌, refl, true, false, Option, none, some, arith, ltb, leb, max}
use mission.Prelude.Text.{Text, is_empty}
use mission.Onboarding.Types.{
  OnboardingWorkspace, OnboardingPayload, State, DatabaseResult, SchemaCaptureResult, Layer,
  step_welcome, step_agent_install, step_schema, step_semantic, step_starter, step_done,
}
use mission.Onboarding.Store.{Env}
use mission.Onboarding.Handlers.{is_some, or_else}
use mission.Onboarding.Steps.{
  or_number, welcome_payload, install_payload, with_token, verified_payload, schema_payload,
  semantic_payload,
}
use mission.Onboarding.Progress.{Moves, Moves-early, SameSetup-refl}

-- What `persistState` makes of a step and a payload.
abbrev pub stored : Env → ℕ → OnboardingPayload → Option ℕ → State
stored env step p completed = record {
  current_step = step;
  payload = p;
  completed_at = completed;
  updated_at = env.now;
}

module _ (env : Env) (s : State) where
  -- Steps that need no part of the payload.
  pub Moves-low :
      (step : ℕ) (p : OnboardingPayload)
      → leb step_starter s.current_step ≡ false
      → 1 ≤ step
      → step < step_schema
      → Moves s (stored env step p s.completed_at)
  Moves-low step p early low high =
      Moves-early s _ (ground (arith, early))
        (λ v. record {
          low = low;
          high = omega arith;
          verified = λ h. absurd (omega arith);
          introspected = λ h. absurd (omega arith);
          approved = λ h. absurd (omega arith);
          finished = λ h. absurd (ground (arith, early, v.finished h));
        })
        refl

  pub Moves-welcome_payload :
      (workspace : OnboardingWorkspace) (name language : Text)
      → leb step_starter s.current_step ≡ false
      → Moves s (
          stored env
            (or_number s.current_step step_welcome)
            (welcome_payload env workspace name language s.payload)
            s.completed_at)
  unfolding welcome_payload
  Moves-welcome_payload workspace name language early =
      Moves-early s _ (ground (arith, early))
        (λ v. record {
          low = ground arith;
          high = ground (arith, v.high);
          verified = λ h. v.verified (ground (arith, v.low));
          introspected = λ h. v.introspected (ground (arith, v.low));
          approved = λ h. v.approved (ground (arith, v.low));
          finished = λ h. ground (arith, v.finished h);
        })
        refl

  pub Moves-install_payload :
      (workspace : OnboardingWorkspace)
      → leb step_starter s.current_step ≡ false
      → Moves s (record s { payload = install_payload env workspace s.payload })
  unfolding install_payload
  Moves-install_payload workspace early =
      Moves-early s _ (ground (arith, early))
        (λ v. record {
          low = v.low;
          high = v.high;
          verified = v.verified;
          introspected = v.introspected;
          approved = v.approved;
          finished = v.finished;
        })
        refl

  pub Moves-with_token : (token : ℕ × Text) → Moves s (with_token env s token)
  unfolding with_token
  Moves-with_token (id, plain) = record {
    valid = λ v. record {
      low = v.low;
      high = v.high;
      verified = v.verified;
      introspected = v.introspected;
      approved = v.approved;
      finished = v.finished;
    };
    forward = λ _ h. omega arith;
    locked = λ _ h. record {
      language = refl;
      workspace = refl;
      slug = refl;
      host = refl;
      port = refl;
      database = refl;
      username = refl;
      password = refl;
      verified = refl;
      schema = refl;
      layer = refl;
      approved = refl;
    };
    completed = λ h. refl;
  }

  pub Moves-max :
      Moves s (stored env (max s.current_step step_agent_install) s.payload s.completed_at)
  Moves-max = record {
    valid = λ v. record {
      low = ground arith;
      high = ground (arith, v.high);
      verified = λ h. v.verified (ground arith);
      introspected = λ h. v.introspected (ground arith);
      approved = λ h. v.approved (ground arith);
      finished = λ h. ground (arith, v.finished h);
    };
    forward = λ _ h. ground arith;
    locked = λ _ h. SameSetup-refl s.payload;
    completed = λ h. refl;
  }

  pub Moves-verified_payload :
      (r : DatabaseResult) (p : OnboardingPayload)
      → leb step_starter s.current_step ≡ false
      → Moves s (stored env step_schema (verified_payload env r p) s.completed_at)
  unfolding verified_payload
  Moves-verified_payload r p early =
      Moves-early s _ (ground (arith, early))
        (λ v. record {
          low = omega arith;
          high = omega arith;
          verified = λ h. refl;
          introspected = λ h. absurd (omega arith);
          approved = λ h. absurd (omega arith);
          finished = λ h. absurd (ground (arith, early, v.finished h));
        })
        refl

  pub Moves-schema_payload :
      (r : SchemaCaptureResult)
      → is_empty (env.uuid_string r.version_id) ≡ false
      → ltb s.current_step step_schema ≡ false
      → leb step_starter s.current_step ≡ false
      → Moves s (stored env step_semantic (schema_payload env r s.payload) s.completed_at)
  unfolding schema_payload
  Moves-schema_payload r id late early =
      Moves-early s _ (ground (arith, early))
        (λ v. record {
          low = omega arith;
          high = omega arith;
          verified = λ h. v.verified (ground (arith, late));
          introspected = λ h. id;
          approved = λ h. absurd (omega arith);
          finished = λ h. absurd (ground (arith, early, v.finished h));
        })
        refl

  pub Moves-semantic_payload :
      (id : ℕ) (layer : Layer)
      → ltb s.current_step step_semantic ≡ false
      → leb step_starter s.current_step ≡ false
      → Moves s (stored env step_starter (semantic_payload env id layer s.payload) s.completed_at)
  unfolding semantic_payload
  Moves-semantic_payload id layer late early =
      Moves-early s _ (ground (arith, early))
        (λ v. record {
          low = omega arith;
          high = omega arith;
          verified = λ h. v.verified (ground (arith, late));
          introspected = λ h. v.introspected (ground (arith, late));
          approved = λ h. refl;
          finished = λ h. absurd (ground (arith, early, v.finished h));
        })
        refl

  Moves-done :
      (c : Option ℕ)
      → ltb s.current_step step_starter ≡ false
      → (is_some s.completed_at ≡ true → c ≡ s.completed_at)
      → Moves s (stored env step_done s.payload c)
  Moves-done c late same = record {
    valid = λ v. record {
      low = omega arith;
      high = omega arith;
      verified = λ h. v.verified (ground (arith, late));
      introspected = λ h. v.introspected (ground (arith, late));
      approved = λ h. v.approved (ground (arith, late));
      finished = λ h. refl;
    };
    forward = λ v h. v.high;
    locked = λ _ h. SameSetup-refl s.payload;
    completed = same;
  }

  pub Moves-starter :
      ltb s.current_step step_starter ≡ false
      → Moves s (stored env step_done s.payload s.completed_at)
  Moves-starter late = Moves-done s.completed_at late (λ _. refl)

  completed_once : (c : Option ℕ) → is_some c ≡ true → some (or_else c env.now) ≡ c
  completed_once none h = absurd (ground (arith, h))
  completed_once (some t) h = refl

  pub Moves-complete :
      ltb s.current_step step_done ≡ false
      → Moves s (stored env step_done s.payload (some (or_else s.completed_at env.now)))
  Moves-complete late = Moves-done _ (ground (arith, late)) (completed_once s.completed_at)
