-- ===== src/Starters/Tests.antt =====
-- Runs of the starter questions on concrete values.
use mission.Prelude.{
  String, ◌≡◌, refl, false, nat_beq, none, some, List, [], ◌∷◌, map, ◌↔◌, if◌then◌else◌,
}
use mission.Prelude.Actions.{ok, found, ◌>>=◌}
use mission.Prelude.Text.{codes}
use mission.Semantic.Types.{SemanticTable, SemanticLayerContent, approved, TenantSemanticLayer}
use mission.Starters.{
  StarterQuestionCandidate, wrong_count, invalid_category, validate_starter_questions,
  normalize_starter_question_candidates,
}
use mission.Starters.Valid.{IsQuestionSet, validate_starter_questions-IsQuestionSet}
use mission.Starters.Rows.{latest_active}
use mission.Starters.Methods.{
  Env, Store, decoded, fault_feedback, nothing_wrong, attempt_from, StarterQuestionsListResult,
  result_of, list, regenerate,
}
use mission.Starters.Attempts.{asking, two_attempts, attempt_from-two_attempts}
use mission.Starters.Sets.{HasOneSet, starter_questions-HasOneSet, latest_active-other_tenant}
use mission.Starters.Stored.{stored_set, new_rows}
use mission.Starters.Persisted.{list-regenerate}
use mission.Starters.Regenerated.{Regenerated, regenerate-Regenerated}

abbrev orders : SemanticTable
orders = record {
  table_schema = [];
  table_name = codes " orders";
  table_type = [];
  table_comment = [];
  description = [];
  columns = [];
}

abbrev layer_content : SemanticLayerContent
layer_content = record { tables = orders ∷ []; entities = []; candidate_metrics = [] }

abbrev about : String → StarterQuestionCandidate
about category = record {
  text = codes "How many? ";
  category = codes category;
  primary_table = codes "orders";
}

abbrev nine : List StarterQuestionCandidate
nine =
    map about (
      "count" ∷ "trend" ∷ "latest" ∷ "count" ∷ "count" ∷ "count" ∷ "count" ∷ "count" ∷ "count" ∷ [])

abbrev ten : List StarterQuestionCandidate
ten = about "top_n" ∷ nine

abbrev trimmed : List StarterQuestionCandidate
trimmed = normalize_starter_question_candidates ten

count_test : validate_starter_questions nine layer_content ≡ some (wrong_count 9)
unfolding validate_starter_questions
count_test = refl

category_test :
    validate_starter_questions (about "other" ∷ nine) layer_content
    ≡ some (invalid_category 1 (codes "other"))
unfolding validate_starter_questions
category_test = refl

ten_test : validate_starter_questions ten layer_content ≡ none
unfolding validate_starter_questions
ten_test = refl

validate_starter_questions-IsQuestionSet_example :
    (validate_starter_questions ten layer_content ≡ none) ↔ IsQuestionSet ten layer_content
validate_starter_questions-IsQuestionSet_example =
    validate_starter_questions-IsQuestionSet ten layer_content

abbrev layer : TenantSemanticLayer
layer = record {
  id = 3;
  tenant_id = 7;
  schema_version_id = 5;
  status = approved;
  content = some layer_content;
  created_at = 1;
  approved_at = some 2;
  approved_by_user_id = none;
}

-- The model answers with nine questions at first.
abbrev env : Env
env = record {
  membership = found tt;
  layer = found layer;
  complete = λ n p. if nat_beq n 0 then decoded nine else decoded ten;
  faults = λ n. false;
  now = 20;
}

abbrev empty : Store
empty = record { rows = []; next_id = 1; calls = 0; asked = [] }

attempt_from-two_attempts_example :
    attempt_from env 7 2 0 layer_content (codes "en") nothing_wrong empty
    ≡ two_attempts layer_content env (asking env 7 layer_content (codes "en")) empty
attempt_from-two_attempts_example = attempt_from-two_attempts env 7 layer_content (codes "en") empty

-- The second prompt has the count of the first answer.
second_test :
    (attempt_from env 7 2 0 layer_content (codes "en") nothing_wrong empty).1.asked
    ≡ asking env 7 layer_content (codes "en") nothing_wrong
      ∷ asking env 7 layer_content (codes "en") (fault_feedback (wrong_count 9))
      ∷ []
unfolding attempt_from validate_starter_questions normalize_starter_question_candidates ◌>>=◌
second_test = refl

abbrev shown : StarterQuestionsListResult
shown = result_of (stored_set 20 7 3 1 (codes "en") trimmed)

abbrev after : Store
after = record {
  rows = new_rows 20 7 3 1 (codes "en") [] trimmed;
  next_id = 12;
  calls = 2;
  asked =
      asking env 7 layer_content (codes "en") nothing_wrong
      ∷ asking env 7 layer_content (codes "en") (fault_feedback (wrong_count 9))
      ∷ [];
}

regenerate_test : regenerate env 7 (codes "en") empty ≡ (ok shown, after)
unfolding regenerate validate_starter_questions normalize_starter_question_candidates ◌>>=◌
regenerate_test = refl

regenerate-Regenerated_example : Regenerated env 7 (codes "en") shown after.rows
regenerate-Regenerated_example =
    regenerate-Regenerated env 7 (codes "en") empty after shown refl regenerate_test

list-regenerate_example : list env 7 (codes "en") after ≡ (ok shown, record after { calls = 3 })
list-regenerate_example =
    list-regenerate env env 7 (codes "en") empty after shown refl refl regenerate_test refl refl

empty-HasOneSet : HasOneSet []
empty-HasOneSet = record { same = λ l m i. elim i [ ] }

starter_questions-HasOneSet_example :
    HasOneSet (list env 7 (codes "en") empty).1.rows
    × HasOneSet (regenerate env 7 (codes "en") empty).1.rows
starter_questions-HasOneSet_example =
    starter_questions-HasOneSet env 7 (codes "en") empty empty-HasOneSet

latest_active-other_tenant_example :
    (latest_active 7 (list env 8 (codes "en") after).1.rows ≡ latest_active 7 after.rows)
    × (latest_active 7 (regenerate env 8 (codes "en") after).1.rows ≡ latest_active 7 after.rows)
latest_active-other_tenant_example = latest_active-other_tenant 8 7 refl env (codes "en") after
