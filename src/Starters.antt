-- ===== src/Starters.antt =====
-- The starter questions of a tenant: internal/controlplane/controller/starter_questions.go,
-- starter_questions_validator.go beside it and internal/controlplane/repository/starter_questions.go. Here:
-- the model's candidates and their validation. Go's maps of names are lists of keys, whose order nothing
-- reads; texts are lists of code points, so that the test for valid UTF-8 always passes.
mod Keys
mod Tables
mod Valid
mod Rows
mod Methods
mod Written
mod Sets
mod Stored
mod Persisted
mod Regenerated
mod Attempts
mod Tests
use mission.Prelude.{
  ℕ, suc, Bool, true, false, not, ◌||◌, Option, none, some, List, [], ◌∷◌, map, length, ltb, min,
  nat_beq, if◌then◌else◌,
}
use mission.Prelude.Text.{Text, codes, is_empty, trim_space}
use mission.Prelude.Equality.{text_beq}
use mission.Semantic.Types.{SemanticTable, SemanticLayerContent}

pub record StarterQuestionCandidate : Type 0 where
  pub text : Text
  pub category : Text
  pub primary_table : Text

-- The errors of the validator, with the values in their messages.
pub data Fault : Type 0 where
  no_tables no_named_table : Fault
  wrong_count text_required text_too_long few_categories : ℕ → Fault
  invalid_category unknown_table : ℕ → Text → Fault
  few_tables : ℕ → ℕ → Fault

unfoldable pub normalize_starter_question_candidates :
    List StarterQuestionCandidate → List StarterQuestionCandidate
unfolding trim_space
normalize_starter_question_candidates questions =
    map
      (λ q. record {
        text = trim_space q.text;
        category = trim_space q.category;
        primary_table = trim_space q.primary_table;
      })
      questions

abbrev pub starter_question_category_values : List Text
starter_question_category_values =
    codes "count"
    ∷ codes "trend"
    ∷ codes "top_n"
    ∷ codes "latest"
    ∷ codes "comparison"
    ∷ codes "anomaly"
    ∷ []

unfoldable pub has_key : Text → List Text → Bool
unfolding text_beq
has_key x [] = false
has_key x (y ∷ ys) = text_beq x y || has_key x ys

unfoldable pub add_key : Text → List Text → List Text
unfolding has_key
add_key x keys = if has_key x keys then keys else x ∷ keys

-- `validTables`: the trimmed names that are not blank.
unfoldable pub valid_tables : List Text → List SemanticTable → List Text
unfolding add_key trim_space
valid_tables keys [] = keys
valid_tables keys (t ∷ ts) =
    valid_tables
      (if is_empty (trim_space t.table_name) then keys else add_key (trim_space t.table_name) keys)
      ts

-- The checks of one question, of the number in the message.
unfoldable pub question_fault : List Text → ℕ → StarterQuestionCandidate → Option Fault
unfolding has_key trim_space
question_fault tables number q =
    if is_empty (trim_space q.text)
    then some (text_required number)
    else if ltb 80 (length (trim_space q.text))
    then some (text_too_long number)
    else if not (has_key (trim_space q.category) starter_question_category_values)
    then some (invalid_category number (trim_space q.category))
    else if not (has_key (trim_space q.primary_table) tables)
    then some (unknown_table number (trim_space q.primary_table))
    else none

unfoldable pub spread_fault : List Text → List Text → List Text → Option Fault
spread_fault tables seen_categories seen_tables =
    if ltb (length seen_categories) 3
    then some (few_categories (length seen_categories))
    else if ltb (length seen_tables) (min 5 (length tables))
    then some (few_tables (min 5 (length tables)) (length seen_tables))
    else none

abbrev pub or_else : Option Fault → Option Fault → Option Fault
or_else none rest = rest
or_else (some e) rest = some e

-- The loop over the questions, with what it has seen, and the tests after it.
unfoldable pub check_questions :
    List Text → ℕ → List Text → List Text → List StarterQuestionCandidate → Option Fault
unfolding question_fault spread_fault add_key trim_space
check_questions tables number seen_categories seen_tables [] =
    spread_fault tables seen_categories seen_tables
check_questions tables number seen_categories seen_tables (q ∷ qs) =
    let rest =
      check_questions tables (suc number) (add_key (trim_space q.category) seen_categories)
        (add_key (trim_space q.primary_table) seen_tables) qs in
    or_else (question_fault tables number q) rest

unfoldable pub validate_starter_questions :
    List StarterQuestionCandidate → SemanticLayerContent → Option Fault
unfolding check_questions valid_tables
validate_starter_questions questions layer =
    if nat_beq (length layer.tables) 0
    then some no_tables
    else if not (nat_beq (length questions) 10)
    then some (wrong_count (length questions))
    else if nat_beq (length (valid_tables [] layer.tables)) 0
    then some no_named_table
    else check_questions (valid_tables [] layer.tables) 1 [] [] questions
