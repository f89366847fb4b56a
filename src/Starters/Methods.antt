-- ===== src/Starters/Methods.antt =====
-- The methods of internal/controlplane/controller/starter_questions.go. The answers of the memberships, of
-- the layers and of the model are an argument, as are the faults of the database by the number of the call
-- and the clock; new identifiers are numbers that were not used before.
use mission.Prelude.{
  ℕ, zero, suc, ◌+◌, Bool, true, false, Option, none, some, List, [], ◌∷◌, ◌++◌, length, nat_beq,
  text_beq, if◌then◌else◌,
}
use mission.Prelude.Actions.{ok, err, Found, Action, ◌>>=◌, ◌>>◌, pure, raise, or_raise, of_found}
use mission.Prelude.Text.{Text, trim_space}
use mission.Semantic.Types.{SemanticLayerContent, TenantSemanticLayer}
use mission.Starters.{
  StarterQuestionCandidate, Fault, normalize_starter_question_candidates,
  validate_starter_questions,
}
use mission.Starters.Rows.{StarterQuestion, Rows, ActiveSet, replace_active_set, latest_active}

-- What a second prompt tells the model of its first answer.
pub data Feedback : Type 0 where
  nothing_wrong : Feedback
  decode_feedback : Text → Feedback
  fault_feedback : Fault → Feedback

pub data Error : Type 0 where
  access_denied no_layer not_found store_error decode_error model_error : Error
  invalid_llm : Feedback → Error
  budget_exhausted : Error

-- What differs between the requests to the model.
pub record Prompt : Type 0 where
  pub content : SemanticLayerContent
  pub locale : Text
  pub feedback : Feedback

pub data Completion : Type 0 where
  call_failed : Completion
  undecodable : Text → Completion
  decoded : List StarterQuestionCandidate → Completion

pub record Env : Type 0 where
  pub membership : Found (Unit {0})
  pub layer : Found TenantSemanticLayer
  pub complete : ℕ → Prompt → Completion
  pub faults : ℕ → Bool
  pub now : ℕ

-- The table, the next identifier, the calls of the database and the requests to the model so far.
pub record Store : Type 0 where
  pub rows : Rows
  pub next_id : ℕ
  pub calls : ℕ
  pub asked : List Prompt

abbrev pub Method : Type 0 → Type 0
Method A = Action Store Error A

pub record StarterQuestionsListResult : Type 0 where
  pub questions : List StarterQuestion
  pub generated_at : ℕ
  pub set_id : ℕ

abbrev pub result_of : ActiveSet → StarterQuestionsListResult
result_of s = record { questions = s.questions; generated_at = s.generated_at; set_id = s.set_id }

abbrev pub starter_question : ℕ → ℕ → ℕ → Text → ℕ → ℕ → StarterQuestionCandidate → StarterQuestion
starter_question tenant layer set locale ordinal id c = record {
  id = id;
  set_id = set;
  tenant_id = tenant;
  semantic_layer_id = layer;
  ordinal = ordinal;
  text = trim_space c.text;
  category = trim_space c.category;
  primary_table = trim_space c.primary_table;
  locale = locale;
  created_at = 0;
  is_active = true;
}

-- The questions of a set, of the given number on, with new identifiers.
unfoldable pub starter_questions :
    ℕ → ℕ → ℕ → Text → ℕ → ℕ → List StarterQuestionCandidate → List StarterQuestion
starter_questions tenant layer set locale ordinal id [] = []
starter_questions tenant layer set locale ordinal id (c ∷ cs) =
    starter_question tenant layer set locale ordinal id c
    ∷ starter_questions tenant layer set locale (suc ordinal) (suc id) cs

module _ (env : Env) (tenant : ℕ) where
  -- A call of the database, which fails or gives what the rows have.
  unfoldable pub select_latest_active : Method (Option ActiveSet)
  unfolding latest_active
  select_latest_active w = (
    if env.faults w.calls then err store_error else ok (latest_active tenant w.rows),
    record w { calls = suc w.calls },
  )

  unfoldable pub store_questions : ℕ → Text → List StarterQuestionCandidate → Method (Unit {0})
  unfolding replace_active_set starter_questions
  store_questions layer locale cs w =
      if env.faults w.calls
      then (err store_error, record w { next_id = suc w.next_id + length cs; calls = suc w.calls })
      else (
        ok tt,
        record w {
          rows =
              replace_active_set env.now tenant layer w.next_id
                (starter_questions tenant layer w.next_id locale 1 (suc w.next_id) cs) w.rows;
          next_id = suc w.next_id + length cs;
          calls = suc w.calls;
        },
      )

  unfoldable pub complete : Prompt → Method Completion
  complete prompt w =
      (ok (env.complete (length w.asked) prompt), record w { asked = w.asked ++ prompt ∷ [] })

  -- A first attempt that is no good leads to a second, a later one to an error.
  abbrev pub try_again :
      ℕ
      → Feedback
      → (Feedback → Method (List StarterQuestionCandidate))
      → Method (List StarterQuestionCandidate)
  try_again attempt feedback again = elim (nat_beq attempt 0) [
    | true ↦ again feedback
    | false ↦ raise (invalid_llm feedback)
  ]

  unfoldable pub after_validation :
      ℕ
      → List StarterQuestionCandidate
      → (Feedback → Method (List StarterQuestionCandidate))
      → Option Fault
      → Method (List StarterQuestionCandidate)
  after_validation attempt normalized again none = pure normalized
  after_validation attempt normalized again (some e) = try_again attempt (fault_feedback e) again

  unfoldable pub after_completion :
      SemanticLayerContent
      → ℕ
      → (Feedback → Method (List StarterQuestionCandidate))
      → Completion
      → Method (List StarterQuestionCandidate)
  unfolding after_validation
  after_completion content attempt again call_failed = raise model_error
  after_completion content attempt again (undecodable e) =
      try_again attempt (decode_feedback e) again
  after_completion content attempt again (decoded questions) =
      let normalized = normalize_starter_question_candidates questions in
      after_validation attempt normalized again (validate_starter_questions normalized content)

  -- The loop, with the attempts that are left.
  unfoldable pub attempt_from :
      ℕ → ℕ → SemanticLayerContent → Text → Feedback → Method (List StarterQuestionCandidate)
  unfolding complete after_completion
  attempt_from zero attempt content locale feedback = raise budget_exhausted
  attempt_from (suc left) attempt content locale feedback = do
    completion ← complete (record { content = content; locale = locale; feedback = feedback })
    after_completion content attempt (λ f. attempt_from left (suc attempt) content locale f)
        completion

  unfoldable pub generate : Text → Method (TenantSemanticLayer × List StarterQuestionCandidate)
  unfolding attempt_from
  generate locale = do
    layer ← of_found no_layer store_error env.layer
    content ← or_raise decode_error layer.content
    candidates ← attempt_from 2 0 content locale nothing_wrong
    pure (layer, candidates)

  unfoldable pub generate_and_persist : Text → Method StarterQuestionsListResult
  unfolding generate store_questions select_latest_active
  generate_and_persist locale = do
    generated ← generate locale
    store_questions generated.0.id locale generated.1
    persisted ← select_latest_active
    s ← or_raise not_found persisted
    pure (result_of s)

  unfoldable pub ensure_membership : Method (Unit {0})
  ensure_membership = of_found access_denied store_error env.membership

  -- What `List` does with the stored set.
  unfoldable pub list_from : Text → Option ActiveSet → Method StarterQuestionsListResult
  unfolding generate_and_persist
  list_from locale none = generate_and_persist locale
  list_from locale (some s) =
      if text_beq s.locale locale then pure (result_of s) else generate_and_persist locale

  unfoldable pub list : Text → Method StarterQuestionsListResult
  unfolding ensure_membership select_latest_active list_from
  list locale = do ensure_membership; cached ← select_latest_active; list_from locale cached

  unfoldable pub regenerate : Text → Method StarterQuestionsListResult
  unfolding ensure_membership generate_and_persist
  regenerate locale = do ensure_membership; generate_and_persist locale
