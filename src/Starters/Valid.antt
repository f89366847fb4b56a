-- ===== src/Starters/Valid.antt =====
-- What internal/controlplane/controller/starter_questions_validator.go accepts.
use native.Mathlib.Decide.{dec_le}
use mission.Prelude.{
  ℕ, suc, ◌≤◌, ◌≡◌, sym, subst, ◌↔◌, ◌⊎◌, inl, inr, arith, false, none, List, [], ◌∷◌, map, length,
  min, In, All, nat_beq,
}
use mission.Prelude.Text.{Text, is_empty, trim_space}
use mission.Semantic.Types.{SemanticLayerContent}
use mission.Starters.{
  StarterQuestionCandidate, starter_question_category_values, add_key, valid_tables, question_fault,
  spread_fault, check_questions, validate_starter_questions,
}
use mission.Starters.Keys.{
  has_key-In, In-has_key, add_keys, add_keys-Distinct, In-add_keys, add_keys-In, Distinct-le,
  Distinct_all, HasDistinct, HasDistinct_lem,
}
use mission.Starters.Tables.{IsTable, valid_tables-In, In-valid_tables, valid_tables-Distinct}

abbrev pub category_of : StarterQuestionCandidate → Text
category_of q = trim_space q.category

abbrev pub table_of : StarterQuestionCandidate → Text
table_of q = trim_space q.primary_table

-- A question of 1 to 80 characters, of a known category, about a table of the layer.
pub record IsQuestion (layer : SemanticLayerContent) (q : StarterQuestionCandidate) : Type 0 where
  pub given : is_empty (trim_space q.text) ≡ false
  pub short : length (trim_space q.text) ≤ 80
  pub category : In (category_of q) starter_question_category_values
  pub table : IsTable layer.tables (table_of q)

-- Ten questions of three categories at least, about five tables at least or about all there are.
pub record IsQuestionSet (questions : List StarterQuestionCandidate) (layer : SemanticLayerContent)
    : Type 0 where
  pub ten : length questions ≡ 10
  pub each : All (IsQuestion layer) questions
  pub categories : HasDistinct 3 (map category_of questions)
  pub tables :
      HasDistinct 5 (map table_of questions)
      ⊎ ((name : Text) → IsTable layer.tables name → In name (map table_of questions))

not_empty : {A : Type 0} (xs : List A) (x : A) → In x xs → nat_beq (length xs) 0 ≡ false
not_empty [] x i = elim i [ ]
not_empty (y ∷ ys) x i = ground arith

module _ (layer : SemanticLayerContent) where
  abbrev names : List Text
  names = valid_tables [] layer.tables

  In-names : (name : Text) → In name names → IsTable layer.tables name
  In-names name i = elim (In-valid_tables name [] layer.tables i) [ inl w ↦ w | inr j ↦ elim j [ ] ]

  names-In : (name : Text) → IsTable layer.tables name → In name names
  names-In name w = valid_tables-In name [] layer.tables (inl w)

  question_fault-IsQuestion :
      (number : ℕ) (q : StarterQuestionCandidate)
      → question_fault names number q ≡ none
      → IsQuestion layer q
  unfolding question_fault
  question_fault-IsQuestion number q h = record {
    given = ground (arith, h);
    short = ground (arith, h);
    category = has_key-In (category_of q) starter_question_category_values (ground (arith, h));
    table = In-names (table_of q) (has_key-In (table_of q) names (ground (arith, h)));
  }

  IsQuestion-question_fault :
      (number : ℕ) (q : StarterQuestionCandidate)
      → IsQuestion layer q
      → question_fault names number q ≡ none
  unfolding question_fault
  IsQuestion-question_fault number q v = ground (
    arith,
    v,
    In-has_key (category_of q) starter_question_category_values v.category,
    In-has_key (table_of q) names (names-In (table_of q) v.table),
  )

  -- The loop finds nothing exactly when each question is one and the tests after it pass.
  check_questions_lem :
      (number : ℕ) (cs ts : List Text) (qs : List StarterQuestionCandidate)
      → (check_questions names number cs ts qs ≡ none) ↔ (
          All (IsQuestion layer) qs
          × (spread_fault names (add_keys (map category_of qs) cs) (add_keys (map table_of qs) ts)
              ≡ none))
  unfolding check_questions add_keys
  check_questions_lem number cs ts [] = (λ h. (tt, h), λ h. h.1)
  check_questions_lem number cs ts (q ∷ qs) =
      let ih =
        check_questions_lem (suc number) (add_key (category_of q) cs) (add_key (table_of q) ts)
          qs in
      (
        λ h.
            let here : question_fault names number q ≡ none = ground (arith, h) in
            let rest = ih.0 (ground (arith, h, here)) in
            ((question_fault-IsQuestion number q here, rest.0), rest.1),
        λ h. ground (arith, IsQuestion-question_fault number q h.0.0, ih.1 (h.0.1, h.1)),
      )

  spread_fault_lem :
      (cs ts : List Text)
      → (spread_fault names cs ts ≡ none) ↔ ((3 ≤ length cs) × (min 5 (length names) ≤ length ts))
  unfolding spread_fault
  spread_fault_lem cs ts = ground arith

  tables_known :
      (qs : List StarterQuestionCandidate) (name : Text)
      → All (IsQuestion layer) qs
      → In name (map table_of qs)
      → In name names
  tables_known [] name h i = elim i [ ]
  tables_known (q ∷ qs) name h (inl e) =
      subst (λ n. In n names) (sym e) (names-In (table_of q) h.0.table)
  tables_known (q ∷ qs) name h (inr i) = tables_known qs name h.1 i

  module _ (qs : List StarterQuestionCandidate) (each : All (IsQuestion layer) qs) where
    abbrev seen : List Text
    seen = add_keys (map table_of qs) []

    seen_asked : (name : Text) → In name seen → In name (map table_of qs)
    seen_asked name i = elim (In-add_keys name (map table_of qs) [] i) [
      | inl j ↦ j
      | inr j ↦ elim j [ ]
    ]

    -- Five tables, or as many as there are, are about five of them or all.
    enough_tables : (min 5 (length names) ≤ length seen) ↔ (
        HasDistinct 5 (map table_of qs)
        ⊎ ((name : Text) → IsTable layer.tables name → In name (map table_of qs)))
    enough_tables = (
      λ h. elim (dec_le 5 (length seen)) [
        | yes five ↦ inl ((HasDistinct_lem 5 (map table_of qs)).0 five)
        | no few ↦ inr (λ name w. seen_asked name (
            Distinct_all seen names (add_keys-Distinct (map table_of qs) [] tt)
              (λ y i. tables_known qs y each (seen_asked y i)) (ground (arith, h, few)) name
              (names-In name w)))
      ],
      λ c. elim c [
        | inl d ↦ ground (arith, (HasDistinct_lem 5 (map table_of qs)).1 d)
        | inr all ↦
            let few =
              Distinct-le names seen (valid_tables-Distinct [] layer.tables tt)
                (λ y i. add_keys-In y (map table_of qs) [] (inl (all y (In-names y i)))) in
            ground (arith, few)
      ],
    )

  -- A question is about a table, so there is one.
  some_table :
      (qs : List StarterQuestionCandidate)
      → All (IsQuestion layer) qs
      → length qs ≡ 10
      → (nat_beq (length layer.tables) 0 ≡ false) × (nat_beq (length names) 0 ≡ false)
  some_table [] each ten = absurd (omega (arith, ten))
  some_table (q ∷ qs) each ten = (
    not_empty layer.tables each.0.table.table each.0.table.here,
    not_empty names (table_of q) (names-In (table_of q) each.0.table),
  )

-- No fault is found exactly when there are ten questions, each of 1 to 80 characters, of a known category
-- and about a named table of the layer (all trimmed), which have at least three different categories, and
-- are about at least five different tables or about every named table of the layer.
pub validate_starter_questions-IsQuestionSet :
    (questions : List StarterQuestionCandidate) (layer : SemanticLayerContent)
    → (validate_starter_questions questions layer ≡ none) ↔ IsQuestionSet questions layer
unfolding validate_starter_questions
validate_starter_questions-IsQuestionSet questions layer = (
  λ h.
      let c = (check_questions_lem layer 1 [] [] questions).0 (ground (arith, h)) in
      let spread = (spread_fault_lem layer _ _).0 c.1 in
      record {
        ten = ground (arith, h);
        each = c.0;
        categories = (HasDistinct_lem 3 (map category_of questions)).0 spread.0;
        tables = (enough_tables layer questions c.0).0 spread.1;
      },
  λ v.
      let t = some_table layer questions v.each v.ten in
      let spread =
        (spread_fault_lem layer (add_keys (map category_of questions) [])
            (add_keys (map table_of questions) [])).1
          (
            (HasDistinct_lem 3 (map category_of questions)).1 v.categories,
            (enough_tables layer questions v.each).1 v.tables,
          ) in
      ground (arith, v, t, (check_questions_lem layer 1 [] [] questions).1 (v.each, spread)),
)
