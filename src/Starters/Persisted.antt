-- ===== src/Starters/Persisted.antt =====
-- What a successful regeneration of internal/controlplane/controller/starter_questions.go stores, and what
-- is listed after it.
use mission.Prelude.{
  ℕ, suc, ◌≡◌, refl, sym, ap, ◌∙◌, arith, inl, inr, Bool-cases, false, none, some, Option, List, [],
  ◌∷◌, some_inj, nat_beq,
}
use mission.Prelude.Actions.{ok, found, or_raise, bind-ok, bind_gives}
use mission.Prelude.Text.{Text, is_empty}
use mission.Prelude.Equality.{text_beq_iff}
use mission.Semantic.Types.{SemanticLayerContent, TenantSemanticLayer}
use mission.Starters.{StarterQuestionCandidate, validate_starter_questions}
use mission.Starters.Rows.{Rows, ActiveSet, latest_active}
use mission.Starters.Methods.{
  Env, Store, not_found, StarterQuestionsListResult, result_of, select_latest_active,
  store_questions, generate, generate_and_persist, ensure_membership, list_from, list, regenerate,
}
use mission.Starters.Attempts.{IsGenerated, generate-IsGenerated, or_raise-ok, or_raise-same}
use mission.Starters.Stored.{stored_set, new_rows, latest_active-stored}

-- The set that a successful regeneration has stored, with the code's own functions.
pub record IsRegenerated (env : Env) (tenant : ℕ) (locale : Text) (r : StarterQuestionsListResult)
    (rows : Rows) : Type 0 where
  pub layer : TenantSemanticLayer
  pub candidates : List StarterQuestionCandidate
  pub set : ℕ
  pub old : Rows
  pub generated : IsGenerated env layer candidates
  pub replaced : rows ≡ new_rows env.now tenant layer.id set locale old candidates
  pub latest :
      latest_active tenant rows ≡ some (stored_set env.now tenant layer.id set locale candidates)
  pub shown : r ≡ result_of (stored_set env.now tenant layer.id set locale candidates)

no_questions : (content : SemanticLayerContent) → ¬ (validate_starter_questions [] content ≡ none)
unfolding validate_starter_questions
no_questions content h = absurd (ground (arith, h))

module _ (env : Env) (tenant : ℕ) where
  store_questions-ok :
      (layer : ℕ) (locale : Text) (cs : List StarterQuestionCandidate) (u : Unit {0}) (w w' : Store)
      → store_questions env tenant layer locale cs w ≡ (ok u, w')
      → w'.rows ≡ new_rows env.now tenant layer w.next_id locale w.rows cs
  unfolding store_questions
  store_questions-ok layer locale cs u w w' h = elim (Bool-cases (env.faults w.calls)) [
    | inl e ↦ absurd (ground (arith, h, e))
    | inr e ↦ ground (arith, h, e)
  ]

  select_latest_active-ok :
      (p : Option ActiveSet) (w w' : Store)
      → select_latest_active env tenant w ≡ (ok p, w')
      → (p ≡ latest_active tenant w'.rows) × (w'.rows ≡ w.rows)
  unfolding select_latest_active
  select_latest_active-ok p w w' h = elim (Bool-cases (env.faults w.calls)) [
    | inl e ↦ absurd (ground (arith, h, e))
    | inr e ↦ ground (arith, h, e)
  ]

  stored_latest :
      (layer : TenantSemanticLayer) (locale : Text) (set : ℕ) (rows : Rows)
      (cs : List StarterQuestionCandidate)
      → nat_beq env.now 0 ≡ false
      → IsGenerated env layer cs
      → latest_active tenant (new_rows env.now tenant layer.id set locale rows cs)
        ≡ some (stored_set env.now tenant layer.id set locale cs)
  stored_latest layer locale set rows [] clock g = absurd (no_questions g.content g.valid)
  stored_latest layer locale set rows (c ∷ cs) clock g =
      latest_active-stored env.now tenant layer.id set locale rows c cs clock

  generate_and_persist-IsRegenerated :
      (locale : Text) (w w' : Store) (r : StarterQuestionsListResult)
      → nat_beq env.now 0 ≡ false
      → generate_and_persist env tenant locale w ≡ (ok r, w')
      → IsRegenerated env tenant locale r w'.rows
  unfolding generate_and_persist
  generate_and_persist-IsRegenerated locale w w' r clock h =
      let ((layer, cs), w1, e1, h1) = bind_gives (generate env tenant locale) _ w _ _ h in
      let (u, w2, e2, h2) =
        bind_gives (store_questions env tenant layer.id locale cs) _ w1 _ _ h1 in
      let (p, w3, e3, h3) = bind_gives (select_latest_active env tenant) _ w2 _ _ h2 in
      let (s, w4, e4, h4) = bind_gives (or_raise not_found p) _ w3 _ _ h3 in
      let generated = generate-IsGenerated env tenant locale w w1 layer cs e1 in
      let selected = select_latest_active-ok p w2 w3 e3 in
      let rows : w'.rows ≡ w3.rows = or_raise-same not_found p s w3 w4 w' e4 (cc h4) in
      let replaced = rows ∙ (selected.1 ∙ store_questions-ok layer.id locale cs u w1 w2 e2) in
      let latest =
        ap (latest_active tenant) replaced
        ∙ stored_latest layer locale w1.next_id w1.rows cs clock generated in
      record {
        layer = layer;
        candidates = cs;
        set = w1.next_id;
        old = w1.rows;
        generated = generated;
        replaced = replaced;
        latest = latest;
        shown =
            let same : s ≡ stored_set env.now tenant layer.id w1.next_id locale cs = some_inj (
              sym (or_raise-ok not_found p s w3 w4 e4)
              ∙ (selected.0 ∙ (ap (latest_active tenant) (sym rows) ∙ latest))) in
            let shown : r ≡ result_of s = cc h4 in shown ∙ ap result_of same;
      }

  -- The same of the whole method.
  pub regenerate-IsRegenerated :
      (locale : Text) (w w' : Store) (r : StarterQuestionsListResult)
      → nat_beq env.now 0 ≡ false
      → regenerate env tenant locale w ≡ (ok r, w')
      → IsRegenerated env tenant locale r w'.rows
  unfolding regenerate
  regenerate-IsRegenerated locale w w' r clock h =
      let (u, w1, e1, h1) = bind_gives (ensure_membership env tenant) _ w _ _ h in
      generate_and_persist-IsRegenerated locale w1 w' r clock h1

-- After a successful regeneration a member of the tenant who lists the questions in the same locale gets
-- them, from any later environment whose database answers: the model is not asked and nothing is written.
pub list-regenerate :
    (env later : Env) (tenant : ℕ) (locale : Text) (w w' : Store) (r : StarterQuestionsListResult)
    → nat_beq env.now 0 ≡ false
    → is_empty locale ≡ false
    → regenerate env tenant locale w ≡ (ok r, w')
    → later.membership ≡ found tt
    → later.faults w'.calls ≡ false
    → list later tenant locale w' ≡ (ok r, record w' { calls = suc w'.calls })
unfolding list list_from ensure_membership select_latest_active
list-regenerate env later tenant locale w w' r clock given h member fine =
    let v = regenerate-IsRegenerated env tenant locale w w' r clock h in
    let s = stored_set env.now tenant v.layer.id v.set locale v.candidates in
    let w1 = record w' { calls = suc w'.calls } in
    bind-ok (ensure_membership later tenant) _ w' tt w' (rw member refl)
    ∙ (bind-ok (select_latest_active later tenant) _ w' (some s) w1 (rw (fine, v.latest) refl)
        ∙ rw (given, (text_beq_iff locale locale).1 refl)
            (ap (λ (x : StarterQuestionsListResult). (ok x, w1)) (sym v.shown)))
