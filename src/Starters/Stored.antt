-- ===== src/Starters/Stored.antt =====
-- A set of questions as internal/controlplane/repository/starter_questions.go selects it after it was stored.
use mission.Prelude.{
  ℕ, suc, ◌≡◌, refl, sym, ap, ◌∙◌, arith, inl, inr, Bool, Bool-cases, true, false, some, Option,
  List, [], ◌∷◌, ◌++◌, append-nil, append_assoc, map, nat_beq, if◌then◌else◌, ◌&&◌,
}
use mission.Prelude.Text.{Text, codes, is_empty}
use mission.Starters.{StarterQuestionCandidate}
use mission.Starters.Rows.{
  StarterQuestion, Rows, ActiveSet, active_of, deactivate_prior_sets, inserted, insert_set,
  replace_active_set, select, rows_of_set, first_row, latest_active, unless_empty, no_set,
  scan_rows, insert_by_ordinal, order_by_ordinal, before,
}
use mission.Starters.Methods.{starter_question, starter_questions}
use mission.Starters.Sets.{select-append}

-- A test that inactive rows fail selects none of the deactivated ones.
select_deactivated :
    (tenant : ℕ) (test : StarterQuestion → Bool) (rows : Rows)
    → ((q : StarterQuestion) → active_of tenant q ≡ false → test q ≡ false)
    → select test (deactivate_prior_sets tenant rows) ≡ []
unfolding select deactivate_prior_sets
select_deactivated tenant test [] h = refl
select_deactivated tenant test (q ∷ qs) h = elim (Bool-cases (active_of tenant q)) [
  | inl a ↦
      rw (a, h (record q { is_active = false }) (ground arith))
        (select_deactivated tenant test qs h)
  | inr a ↦ rw (a, h q a) (select_deactivated tenant test qs h)
]

module _ (now tenant layer set : ℕ) (locale : Text) where
  -- The rows of a set's questions.
  abbrev pub stored : ℕ → ℕ → List StarterQuestionCandidate → Rows
  stored ordinal id cs =
      map (inserted now tenant layer set) (starter_questions tenant layer set locale ordinal id cs)

  abbrev row : ℕ → ℕ → StarterQuestionCandidate → StarterQuestion
  row ordinal id c =
      inserted now tenant layer set (starter_question tenant layer set locale ordinal id c)

  stored_selected :
      (test : StarterQuestion → Bool) (ordinal id : ℕ) (cs : List StarterQuestionCandidate)
      → ((q : StarterQuestion) → active_of tenant q ≡ true → q.set_id ≡ set → test q ≡ true)
      → select test (stored ordinal id cs) ≡ stored ordinal id cs
  unfolding select starter_questions
  stored_selected test ordinal id [] h = refl
  stored_selected test ordinal id (c ∷ cs) h =
      rw (h (row ordinal id c) (ground arith) refl)
        (ap (λ (r : Rows). row ordinal id c ∷ r) (stored_selected test (suc ordinal) (suc id) cs h))

  stored_ordered :
      (ordinal id : ℕ) (cs : List StarterQuestionCandidate)
      → order_by_ordinal (stored ordinal id cs) ≡ stored ordinal id cs
  unfolding order_by_ordinal insert_by_ordinal starter_questions
  stored_ordered ordinal id [] = refl
  stored_ordered ordinal id (c ∷ []) = refl
  stored_ordered ordinal id (c ∷ d ∷ cs) =
      rw (stored_ordered (suc ordinal) (suc id) (d ∷ cs)) (ground arith)

  abbrev set_locale : Text
  set_locale = if is_empty locale then codes "ko" else locale

  -- The first of the rows is of the set.
  first_stored :
      (ordinal id : ℕ) (c : StarterQuestionCandidate) (cs : List StarterQuestionCandidate)
      → (q : StarterQuestion) × (first_row (stored ordinal id (c ∷ cs)) ≡ some q) × (q.set_id ≡ set)
  unfolding first_row starter_questions
  first_stored ordinal id c [] = (_, refl, refl)
  first_stored ordinal id c (d ∷ cs) =
      let here = row ordinal id c in
      let (q, e, s) = first_stored (suc ordinal) (suc id) d cs in
      elim (Bool-cases (before here q)) [
        | inl b ↦ (here, rw (e, b) refl, refl)
        | inr b ↦ (q, rw (e, b) refl, s)
      ]

  scan_stored :
      (s : ActiveSet) (ordinal id : ℕ) (cs : List StarterQuestionCandidate)
      → nat_beq s.generated_at 0 ≡ false
      → scan_rows s (stored ordinal id cs)
        ≡ record s { questions = s.questions ++ stored ordinal id cs }
  unfolding scan_rows starter_questions
  scan_stored s ordinal id [] h =
      ap (λ (x : List StarterQuestion). record s { questions = x }) (sym (append-nil s.questions))
  scan_stored s ordinal id (c ∷ cs) h =
      let more = record s { questions = s.questions ++ row ordinal id c ∷ [] } in
      rw (h, scan_rows)
        (scan_stored more (suc ordinal) (suc id) cs h
          ∙ ap (λ (x : List StarterQuestion). record s { questions = x })
              (append_assoc s.questions (row ordinal id c ∷ []) (stored (suc ordinal) (suc id) cs)))

  -- The set as it is selected after it was stored.
  abbrev pub stored_set : List StarterQuestionCandidate → ActiveSet
  stored_set cs = record {
    questions = stored 1 (suc set) cs;
    set_id = set;
    generated_at = now;
    locale = set_locale;
  }

  module _ (rows : Rows) (cs : List StarterQuestionCandidate) where
    abbrev pub new_rows : Rows
    new_rows =
        replace_active_set now tenant layer set
          (starter_questions tenant layer set locale 1 (suc set) cs) rows

    new_selected :
        (test : StarterQuestion → Bool)
        → ((q : StarterQuestion) → active_of tenant q ≡ false → test q ≡ false)
        → ((q : StarterQuestion) → active_of tenant q ≡ true → q.set_id ≡ set → test q ≡ true)
        → select test new_rows ≡ stored 1 (suc set) cs
    unfolding replace_active_set insert_set
    new_selected test narrow wide =
        select-append test (deactivate_prior_sets tenant rows) (stored 1 (suc set) cs)
        ∙ rw (select_deactivated tenant test rows narrow) (stored_selected test 1 (suc set) cs wide)

  -- A set that was stored, with its questions in their order, is the active set that is selected.
  pub latest_active-stored :
      (rows : Rows) (c : StarterQuestionCandidate) (cs : List StarterQuestionCandidate)
      → nat_beq now 0 ≡ false
      → latest_active tenant (new_rows rows (c ∷ cs)) ≡ some (stored_set (c ∷ cs))
  unfolding latest_active rows_of_set scan_rows starter_questions
  latest_active-stored rows c cs h =
      let (q, e, s) = first_stored 1 (suc set) c cs in
      let of_set =
        ap order_by_ordinal (
          new_selected rows (c ∷ cs) (λ r. active_of tenant r && nat_beq r.set_id q.set_id)
            (λ r n. ground (arith, n)) (λ r a t. ground (arith, a, t, s)))
        ∙ stored_ordered 1 (suc set) (c ∷ cs) in
      ap
        (λ (r : Rows).
          unless_empty
            (scan_rows no_set (rows_of_set tenant (new_rows rows (c ∷ cs)) (first_row r))))
        (new_selected rows (c ∷ cs) (active_of tenant) (λ r n. n) (λ r a t. a))
      ∙ (ap
            (λ (o : Option StarterQuestion).
              unless_empty (scan_rows no_set (rows_of_set tenant (new_rows rows (c ∷ cs)) o)))
            e
          ∙ (ap (λ (r : Rows). unless_empty (scan_rows no_set r)) of_set
              ∙ ap unless_empty (
                  scan_stored
                    (record {
                      questions = row 1 (suc set) c ∷ [];
                      set_id = set;
                      generated_at = now;
                      locale = set_locale;
                    })
                    2 (suc (suc set)) cs h)))
