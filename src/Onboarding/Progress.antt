-- ===== src/Onboarding/Progress.antt =====
-- How far a tenant is, and which changes of its state are allowed, of
-- internal/controlplane/controller/onboarding.go.
use mission.Prelude.{
  ℕ, ◌≤◌, ◌<◌, ◌≡◌, refl, ap, ◌∙◌, true, false, some, arith, nat_beq, Bool-cases, inl, inr,
}
use mission.Prelude.Text.{Text, is_empty}
use mission.Sessions.Types.{AgentSessionSnapshot}
use mission.Onboarding.Types.{
  OnboardingPayload, State, step_schema, step_semantic, step_starter, step_done,
}
use mission.Onboarding.Handlers.{is_some, loaded, with_agent, without_agent}

-- A step is reached only with what the steps before it left.
pub record IsValid (s : State) : Type 0 where
  pub low : 1 ≤ s.current_step
  pub high : s.current_step ≤ step_done
  pub verified : step_schema ≤ s.current_step → is_some s.payload.db_verified_at ≡ true
  pub introspected : step_semantic ≤ s.current_step → is_empty s.payload.schema_version_id ≡ false
  pub approved : step_starter ≤ s.current_step → is_some s.payload.semantic_approved ≡ true
  pub finished : is_some s.completed_at ≡ true → s.current_step ≡ step_done

-- The parts of the payload that the steps up to the approval set.
pub record SameSetup (p q : OnboardingPayload) : Type 0 where
  pub language : q.primary_language ≡ p.primary_language
  pub workspace : q.workspace_name ≡ p.workspace_name
  pub slug : q.install_slug ≡ p.install_slug
  pub host : q.database_host ≡ p.database_host
  pub port : q.database_port ≡ p.database_port
  pub database : q.database_name ≡ p.database_name
  pub username : q.database_username ≡ p.database_username
  pub password : q.generated_password ≡ p.generated_password
  pub verified : q.db_verified_at ≡ p.db_verified_at
  pub schema : q.schema_version_id ≡ p.schema_version_id
  pub layer : q.semantic_layer_id ≡ p.semantic_layer_id
  pub approved : q.semantic_approved ≡ p.semantic_approved

-- A valid state stays valid; once the semantic layer is approved the step does not go back and the setup
-- stays as it is; and a time of completion stays.
pub record Moves (s t : State) : Type 0 where
  pub valid : IsValid s → IsValid t
  pub forward : IsValid s → step_starter ≤ s.current_step → s.current_step ≤ t.current_step
  pub locked : IsValid s → step_starter ≤ s.current_step → SameSetup s.payload t.payload
  pub completed : is_some s.completed_at ≡ true → t.completed_at ≡ s.completed_at

pub SameSetup-refl : (p : OnboardingPayload) → SameSetup p p
SameSetup-refl p = record {
  language = refl;
  workspace = refl;
  slug = refl;
  host = refl;
  port = refl;
  database = refl;
  username = refl;
  password = refl;
  verified = refl;
  schema = refl;
  layer = refl;
  approved = refl;
}

SameSetup-trans : (p q r : OnboardingPayload) → SameSetup p q → SameSetup q r → SameSetup p r
SameSetup-trans p q r h k = record {
  language = k.language ∙ h.language;
  workspace = k.workspace ∙ h.workspace;
  slug = k.slug ∙ h.slug;
  host = k.host ∙ h.host;
  port = k.port ∙ h.port;
  database = k.database ∙ h.database;
  username = k.username ∙ h.username;
  password = k.password ∙ h.password;
  verified = k.verified ∙ h.verified;
  schema = k.schema ∙ h.schema;
  layer = k.layer ∙ h.layer;
  approved = k.approved ∙ h.approved;
}

pub Moves-refl : (s : State) → Moves s s
Moves-refl s = record {
  valid = λ v. v;
  forward = λ v h. omega arith;
  locked = λ v h. SameSetup-refl s.payload;
  completed = λ h. refl;
}

pub Moves-trans : (s t u : State) → Moves s t → Moves t u → Moves s u
Moves-trans s t u h k = record {
  valid = λ v. k.valid (h.valid v);
  forward =
      λ v l. omega (arith, h.forward v l, k.forward (h.valid v) (omega (arith, h.forward v l)));
  locked = λ v l.
      SameSetup-trans s.payload t.payload u.payload (h.locked v l)
        (k.locked (h.valid v) (omega (arith, h.forward v l)));
  completed = λ c. k.completed (ap is_some (h.completed c) ∙ c) ∙ h.completed c;
}

-- Before the approval only what a step needs is owed.
pub Moves-early :
    (s t : State)
    → s.current_step < step_starter
    → (IsValid s → IsValid t)
    → t.completed_at ≡ s.completed_at
    → Moves s t
Moves-early s t early v c = record {
  valid = v;
  forward = λ _ l. absurd (omega arith);
  locked = λ _ l. absurd (omega arith);
  completed = λ h. c;
}

pub Moves-with_agent :
    (token : Text) (n : AgentSessionSnapshot) (s : State) → Moves s (with_agent token n s)
unfolding with_agent
Moves-with_agent token n s = record {
  valid = λ v. record {
    low = ground arith;
    high = ground (arith, v.high);
    verified = λ h. v.verified (ground arith);
    introspected = λ h. v.introspected (ground arith);
    approved = λ h. v.approved (ground arith);
    finished = λ h. ground (arith, v.finished h);
  };
  forward = λ _ h. ground arith;
  locked = λ _ h. record {
    language = refl;
    workspace = refl;
    slug = refl;
    host = refl;
    port = refl;
    database = refl;
    username = refl;
    password = refl;
    verified = refl;
    schema = refl;
    layer = refl;
    approved = refl;
  };
  completed = λ h. refl;
}

pub Moves-without_agent : (s : State) → Moves s (without_agent s)
unfolding without_agent
Moves-without_agent s = record {
  valid = λ v. record {
    low = v.low;
    high = v.high;
    verified = v.verified;
    introspected = v.introspected;
    approved = v.approved;
    finished = v.finished;
  };
  forward = λ _ h. omega arith;
  locked = λ _ h. record {
    language = refl;
    workspace = refl;
    slug = refl;
    host = refl;
    port = refl;
    database = refl;
    username = refl;
    password = refl;
    verified = refl;
    schema = refl;
    layer = refl;
    approved = refl;
  };
  completed = λ h. refl;
}

-- A state that is stored is loaded again.
pub Moves-loaded : (s t : State) → Moves s t → Moves s (loaded (some t))
unfolding loaded
Moves-loaded s t m = elim (Bool-cases (nat_beq t.current_step 0)) [
  | inl z ↦ rw z (record {
    valid = λ v. absurd (ground (arith, (m.valid v).low));
    forward = λ v l. absurd (ground (arith, m.forward v l));
    locked = λ v l. absurd (ground (arith, m.forward v l));
    completed = m.completed;
  })
  | inr z ↦ rw z m
]

-- The time of the last change is free.
pub Moves-stamp : (s t : State) (now : ℕ) → Moves s t → Moves s (record t { updated_at = now })
Moves-stamp s t now m = record {
  valid = λ v.
      let w = m.valid v in
      record {
        low = w.low;
        high = w.high;
        verified = w.verified;
        introspected = w.introspected;
        approved = w.approved;
        finished = w.finished;
      };
  forward = m.forward;
  locked = m.locked;
  completed = m.completed;
}
