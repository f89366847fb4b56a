-- ===== src/Starters/Written.antt =====
-- What the methods of internal/controlplane/controller/starter_questions.go write, on every path.
use mission.Prelude.{
  ℕ, zero, suc, ◌≡◌, refl, sym, ap, subst, inl, inr, Bool-cases, none, some, Option, List, nat_beq,
  text_beq,
}
use mission.Prelude.Actions.{
  Found, found, missing, failed, ◌>>=◌, or_raise, of_found, ends_ok, ends_err, ending, bind-ok,
  bind-err,
}
use mission.Prelude.Text.{Text}
use mission.Semantic.Types.{SemanticLayerContent}
use mission.Starters.{StarterQuestionCandidate, Fault}
use mission.Starters.Rows.{Rows, ActiveSet, replace_active_set}
use mission.Starters.Methods.{
  Env, Store, Method, Error, no_layer, not_found, store_error, decode_error, access_denied,
  nothing_wrong, decode_feedback, fault_feedback, try_again, Feedback, Completion, call_failed,
  undecodable, decoded, complete, starter_questions, select_latest_active, store_questions,
  after_validation, after_completion, attempt_from, generate, generate_and_persist,
  ensure_membership, list_from, list, regenerate,
}

-- The rows after some replacements of the tenant's set.
pub data Written (tenant : ℕ) (old : Rows) : Rows → Type 0 where
  kept : {new : Rows} → new ≡ old → Written tenant old new
  replaced :
      {new : Rows} (rows : Rows) (now layer set id : ℕ) (locale : Text)
      (cs : List StarterQuestionCandidate)
      → Written tenant old rows
      → new
        ≡ replace_active_set now tenant layer set
            (starter_questions tenant layer set locale 1 id cs)
            rows
      → Written tenant old new

Written-trans :
    (tenant : ℕ) (a b c : Rows) → Written tenant a b → Written tenant b c → Written tenant a c
Written-trans tenant a b c v (kept e) = subst (Written tenant a) (sym e) v
Written-trans tenant a b c v (replaced rows now layer set id locale cs w e) =
    replaced rows now layer set id locale cs (Written-trans tenant a b rows v w) e

module _ (tenant : ℕ) where
  -- The method does so in every state.
  abbrev Writes : {A : Type 0} → Method A → Type 0
  Writes m = (w : Store) → Written tenant w.rows (m w).1.rows

  bind-Writes :
      {A B : Type 0} (m : Method A) (f : A → Method B)
      → Writes m
      → ((a : A) → Writes (f a))
      → Writes (m >>= f)
  bind-Writes m f hm hf w = elim (ending (m w)) [
    | ends_ok a w' e ↦
        Written-trans tenant w.rows w'.rows _
          (subst (λ (s : Store). Written tenant w.rows s.rows) (ap (λ p. p.1) e) (hm w))
          (rw (bind-ok m f w a w' e) (hf a w'))
    | ends_err e w' k ↦
        rw (bind-err m f w e w' k)
          (subst (λ (s : Store). Written tenant w.rows s.rows) (ap (λ p. p.1) k) (hm w))
  ]

  module _ (env : Env) (attempt : ℕ) (again : Feedback → Method (List StarterQuestionCandidate))
      (h : (f : Feedback) → Writes (again f)) where
    try_again-Writes : (f : Feedback) → Writes (try_again env tenant attempt f again)
    try_again-Writes f w = elim (Bool-cases (nat_beq attempt 0)) [
      | inl e ↦ rw (e, try_again) (h f w)
      | inr e ↦ rw (e, try_again) (kept refl)
    ]

    after_validation-Writes :
        (normalized : List StarterQuestionCandidate) (e : Option Fault)
        → Writes (after_validation env tenant attempt normalized again e)
    unfolding after_validation
    after_validation-Writes normalized none w = kept refl
    after_validation-Writes normalized (some e) w = try_again-Writes (fault_feedback e) w

    after_completion-Writes :
        (content : SemanticLayerContent) (completion : Completion)
        → Writes (after_completion env tenant content attempt again completion)
    unfolding after_completion
    after_completion-Writes content call_failed w = kept refl
    after_completion-Writes content (undecodable e) w = try_again-Writes (decode_feedback e) w
    after_completion-Writes content (decoded questions) w = after_validation-Writes _ _ w

  of_found-Writes : {A : Type 0} (e other : Error) (a : Found A) → Writes (of_found e other a)
  of_found-Writes e other (found a) w = kept refl
  of_found-Writes e other missing w = kept refl
  of_found-Writes e other failed w = kept refl

  or_raise-Writes : {A : Type 0} (e : Error) (a : Option A) → Writes (or_raise e a)
  or_raise-Writes e none w = kept refl
  or_raise-Writes e (some a) w = kept refl

module _ (env : Env) (tenant : ℕ) where
  attempt_from-Writes :
      (left attempt : ℕ) (content : SemanticLayerContent) (locale : Text) (feedback : Feedback)
      → Writes tenant (attempt_from env tenant left attempt content locale feedback)
  unfolding attempt_from complete
  attempt_from-Writes zero attempt content locale feedback w = kept refl
  attempt_from-Writes (suc left) attempt content locale feedback w =
      bind-Writes tenant _ _ (λ w. kept refl)
        (after_completion-Writes tenant env attempt
          (λ f. attempt_from env tenant left (suc attempt) content locale f)
          (λ f. attempt_from-Writes left (suc attempt) content locale f) content)
        w

  pub generate-Writes : (locale : Text) → Writes tenant (generate env tenant locale)
  unfolding generate
  generate-Writes locale =
      bind-Writes tenant _ _ (of_found-Writes tenant no_layer store_error env.layer) (λ layer.
        bind-Writes tenant _ _ (or_raise-Writes tenant decode_error layer.content) (λ content.
          bind-Writes tenant _ _ (attempt_from-Writes 2 0 content locale nothing_wrong)
            (λ candidates w. kept refl)))

  store_questions-Writes :
      (layer : ℕ) (locale : Text) (cs : List StarterQuestionCandidate)
      → Writes tenant (store_questions env tenant layer locale cs)
  unfolding store_questions
  store_questions-Writes layer locale cs w = elim (Bool-cases (env.faults w.calls)) [
    | inl e ↦ rw e (kept refl)
    | inr e ↦
        rw e (replaced w.rows env.now layer w.next_id (suc w.next_id) locale cs (kept refl) refl)
  ]

  select_latest_active-Writes : Writes tenant (select_latest_active env tenant)
  unfolding select_latest_active
  select_latest_active-Writes w = kept refl

  generate_and_persist-Writes :
      (locale : Text) → Writes tenant (generate_and_persist env tenant locale)
  unfolding generate_and_persist
  generate_and_persist-Writes locale = bind-Writes tenant _ _ (generate-Writes locale) (λ generated.
      bind-Writes tenant _ _ (store_questions-Writes generated.0.id locale generated.1) (λ _.
        bind-Writes tenant _ _ select_latest_active-Writes (λ persisted.
          bind-Writes tenant _ _ (or_raise-Writes tenant not_found persisted) (λ s w. kept refl))))

  list_from-Writes :
      (locale : Text) (s : Option ActiveSet) → Writes tenant (list_from env tenant locale s)
  unfolding list_from
  list_from-Writes locale none w = generate_and_persist-Writes locale w
  list_from-Writes locale (some s) w = elim (Bool-cases (text_beq s.locale locale)) [
    | inl e ↦ rw e (kept refl)
    | inr e ↦ rw e (generate_and_persist-Writes locale w)
  ]

  pub list-Writes : (locale : Text) → Writes tenant (list env tenant locale)
  unfolding list ensure_membership
  list-Writes locale =
      bind-Writes tenant _ _ (of_found-Writes tenant access_denied store_error env.membership) (λ _.
        bind-Writes tenant _ _ select_latest_active-Writes
          (λ cached. list_from-Writes locale cached))

  pub regenerate-Writes : (locale : Text) → Writes tenant (regenerate env tenant locale)
  unfolding regenerate ensure_membership
  regenerate-Writes locale =
      bind-Writes tenant _ _ (of_found-Writes tenant access_denied store_error env.membership)
        (λ _. generate_and_persist-Writes locale)
