-- ===== src/Starters/Attempts.antt =====
-- The attempts of `generate` in internal/controlplane/controller/starter_questions.go.
use mathlib.Core.Path.{fun_ext}
use mission.Prelude.{
  ℕ, zero, suc, ◌≡◌, refl, sym, ap, ◌∙◌, arith, inl, inr, Option, none, some, Option-cases, List,
  [], ◌∷◌, ◌++◌, length,
}
use mission.Prelude.Actions.{
  Result, ok, err, Found, found, missing, failed, or_raise, of_found, bind-ok, bind_gives,
}
use mission.Prelude.Text.{Text}
use mission.Semantic.Types.{SemanticLayerContent, TenantSemanticLayer}
use mission.Starters.{
  StarterQuestionCandidate, normalize_starter_question_candidates, validate_starter_questions,
}
use mission.Starters.Methods.{
  Env, Store, Method, Error, no_layer, store_error, decode_error, model_error, invalid_llm,
  Feedback, nothing_wrong, decode_feedback, fault_feedback, Prompt, Completion, call_failed,
  undecodable, decoded, complete, after_validation, after_completion, attempt_from, generate,
}

module _ (content : SemanticLayerContent) where
  -- What is wrong with an answer.
  abbrev pub complaint : Completion → Option Feedback
  complaint call_failed = none
  complaint (undecodable e) = some (decode_feedback e)
  complaint (decoded questions) =
      elim (validate_starter_questions (normalize_starter_question_candidates questions) content) [
        | none ↦ none
        | some e ↦ some (fault_feedback e)
      ]

  -- An answer that is the last: the normalized questions or an error.
  abbrev pub judged : Completion → Result Error (List StarterQuestionCandidate)
  judged call_failed = err model_error
  judged (undecodable e) = err (invalid_llm (decode_feedback e))
  judged (decoded questions) =
      elim (validate_starter_questions (normalize_starter_question_candidates questions) content) [
        | none ↦ ok (normalize_starter_question_candidates questions)
        | some e ↦ err (invalid_llm (fault_feedback e))
      ]

  -- What two attempts come to, when `ask` is the request with some feedback.
  abbrev pub two_attempts :
      Env → (Feedback → Prompt) → Store → Result Error (List StarterQuestionCandidate) × Store
  two_attempts env ask w =
      let first = env.complete (length w.asked) (ask nothing_wrong) in
      let asked = w.asked ++ ask nothing_wrong ∷ [] in
      elim (complaint first) [
        | none ↦ (judged first, record w { asked = asked })
        | some f ↦
            (judged (env.complete (length asked) (ask f)), record w { asked = asked ++ ask f ∷ [] })
      ]

  module _ (env : Env) (tenant : ℕ) (again : Feedback → Method (List StarterQuestionCandidate))
      (w : Store) where
    -- A later attempt is judged, the first one is so only when there is nothing to tell.
    after_later : (k : Completion) → after_completion env tenant content 1 again k w ≡ (judged k, w)
    unfolding after_completion after_validation
    after_later call_failed = refl
    after_later (undecodable e) = refl
    after_later (decoded questions) = ground arith

    after_first :
        (k : Completion)
        → after_completion env tenant content 0 again k w
          ≡ elim (complaint k) [ none ↦ (judged k, w) | some f ↦ again f w ]
    unfolding after_completion after_validation
    after_first call_failed = refl
    after_first (undecodable e) = refl
    after_first (decoded questions) = ground arith

module _ (env : Env) (tenant : ℕ) (content : SemanticLayerContent) (locale : Text) where
  abbrev pub asking : Feedback → Prompt
  asking f = record { content = content; locale = locale; feedback = f }

  last_attempt :
      (f : Feedback) (w : Store)
      → attempt_from env tenant 1 1 content locale f w ≡ (
        judged content (env.complete (length w.asked) (asking f)),
        record w { asked = w.asked ++ asking f ∷ [] },
      )
  unfolding attempt_from complete
  last_attempt f w =
      bind-ok (complete env tenant (asking f)) _ w _ _ refl
      ∙ after_later content env tenant (attempt_from env tenant zero 2 content locale) _
          (env.complete (length w.asked) (asking f))

  -- The loop of `generate` always ends, by the judgement of one answer of the model or of two: a second
  -- request is made exactly when the first answer could not be decoded or is not valid, it tells the model
  -- so, and its answer is final; the questions it ends with are the last answer's, normalized and found
  -- valid.
  pub attempt_from-two_attempts :
      (w : Store)
      → attempt_from env tenant 2 0 content locale nothing_wrong w
        ≡ two_attempts content env asking w
  unfolding attempt_from complete
  attempt_from-two_attempts w =
      let first = env.complete (length w.asked) (asking nothing_wrong) in
      let w1 = record w { asked = w.asked ++ asking nothing_wrong ∷ [] } in
      bind-ok (complete env tenant (asking nothing_wrong)) _ w _ _ refl
      ∙ (after_first content env tenant (attempt_from env tenant (suc zero) 1 content locale) w1
            first
          ∙ ap
              (λ (g : Feedback → Result Error (List StarterQuestionCandidate) × Store).
                elim (complaint content first)
                  as (λ _. Result Error (List StarterQuestionCandidate) × Store) [
                    | none ↦ (judged content first, w1)
                    | some f ↦ g f
                  ])
              (fun_ext (λ f. last_attempt f w1)))

-- A success is of questions that the validator accepts.
judged-valid :
    (content : SemanticLayerContent) (k : Completion) (cs : List StarterQuestionCandidate)
    → judged content k ≡ ok cs
    → validate_starter_questions cs content ≡ none
judged-valid content call_failed cs h = absurd (ground (arith, h))
judged-valid content (undecodable e) cs h = absurd (ground (arith, h))
judged-valid content (decoded questions) cs h =
    elim (Option-cases
      (validate_starter_questions (normalize_starter_question_candidates questions) content)) [
        | inl e ↦ ground (arith, h, e)
        | inr f ↦ absurd (ground (arith, h, f.1))
      ]

two_attempts-valid :
    (content : SemanticLayerContent) (env : Env) (ask : Feedback → Prompt) (w : Store)
    (cs : List StarterQuestionCandidate)
    → (two_attempts content env ask w).0 ≡ ok cs
    → validate_starter_questions cs content ≡ none
two_attempts-valid content env ask w cs h =
    let first = env.complete (length w.asked) (ask nothing_wrong) in
    let asked = w.asked ++ ask nothing_wrong ∷ [] in
    elim (Option-cases (complaint content first)) [
      | inl e ↦ judged-valid content first cs (ground (arith, h, e))
      | inr f ↦
          judged-valid content (env.complete (length asked) (ask f.0)) cs (ground (arith, h, f.1))
    ]

-- What a generation succeeds with.
pub record IsGenerated (env : Env) (layer : TenantSemanticLayer)
    (cs : List StarterQuestionCandidate) : Type 0 where
  pub content : SemanticLayerContent
  pub approved : env.layer ≡ found layer
  pub read : layer.content ≡ some content
  pub valid : validate_starter_questions cs content ≡ none

of_found-ok :
    {A : Type 0} (e other : Error) (x : Found A) (a : A) (w w' : Store)
    → of_found e other x w ≡ (ok a, w')
    → x ≡ found a
of_found-ok e other (found b) a w w' h = ground (arith, h)
of_found-ok e other missing a w w' h = absurd (ground (arith, h))
of_found-ok e other failed a w w' h = absurd (ground (arith, h))

pub or_raise-ok :
    {A : Type 0} (e : Error) (x : Option A) (a : A) (w w' : Store)
    → or_raise e x w ≡ (ok a, w')
    → x ≡ some a
or_raise-ok e (some b) a w w' h = ground (arith, h)
or_raise-ok e none a w w' h = absurd (ground (arith, h))

pub or_raise-same :
    {A : Type 0} (e : Error) (x : Option A) (a : A) (w w' w'' : Store)
    → or_raise e x w ≡ (ok a, w')
    → w' ≡ w''
    → w''.rows ≡ w.rows
or_raise-same e (some b) a w w' w'' h k = ground (arith, h, k)
or_raise-same e none a w w' w'' h k = absurd (ground (arith, h))

pub generate-IsGenerated :
    (env : Env) (tenant : ℕ) (locale : Text) (w w' : Store) (layer : TenantSemanticLayer)
    (cs : List StarterQuestionCandidate)
    → generate env tenant locale w ≡ (ok (layer, cs), w')
    → IsGenerated env layer cs
unfolding generate
generate-IsGenerated env tenant locale w w' layer cs h =
    let (l, w1, e1, h1) = bind_gives (of_found no_layer store_error env.layer) _ w _ _ h in
    let (content, w2, e2, h2) = bind_gives (or_raise decode_error l.content) _ w1 _ _ h1 in
    let (ds, w3, e3, h3) =
      bind_gives (attempt_from env tenant 2 0 content locale nothing_wrong) _ w2 _ _ h2 in
    let same_layer : l ≡ layer = cc h3 in
    let same : ds ≡ cs = cc h3 in
    record {
      content = content;
      approved = of_found-ok no_layer store_error env.layer l w w1 e1 ∙ ap found same_layer;
      read =
          ap (λ (x : TenantSemanticLayer). x.content) (sym same_layer)
          ∙ or_raise-ok decode_error l.content content w1 w2 e2;
      valid = two_attempts-valid content env (asking env tenant content locale) w2 cs (
          ap (λ p. p.0) (sym (attempt_from-two_attempts env tenant content locale w2) ∙ e3)
          ∙ ap ok same);
    }
