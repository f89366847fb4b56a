-- ===== src/Starters/Regenerated.antt =====
-- The rows and the result of a regeneration of internal/controlplane/controller/starter_questions.go.
use mission.Prelude.{
  ℕ, suc, ◌≡◌, refl, sym, ap, subst, arith, inl, inr, Bool-cases, true, false, some, List, [], ◌∷◌,
  In, All, All-In, In-append, In-append_right, nat_beq, if◌then◌else◌,
}
use mission.Prelude.Actions.{ok, found}
use mission.Prelude.Text.{Text, codes, is_empty, trim_space}
use mission.Semantic.Types.{SemanticLayerContent, TenantSemanticLayer}
use mission.Starters.{StarterQuestionCandidate}
use mission.Starters.Valid.{IsQuestionSet, validate_starter_questions-IsQuestionSet}
use mission.Starters.Rows.{
  StarterQuestion, Rows, ActiveSet, latest_active, replace_active_set, insert_set,
  deactivate_prior_sets,
}
use mission.Starters.Methods.{Env, Store, StarterQuestionsListResult, starter_questions, regenerate}
use mission.Starters.Sets.{still_active}
use mission.Starters.Stored.{stored, new_rows}
use mission.Starters.Persisted.{regenerate-IsRegenerated}

-- A blank locale is Korean.
pub data Localized : Text → Text → Type 0 where
  unset : {locale : Text} → is_empty locale ≡ true → Localized locale (codes "ko")
  set_to : {locale : Text} → is_empty locale ≡ false → Localized locale locale

-- The row of a candidate, with its number.
pub record IsRow (now tenant layer set : ℕ) (locale : Text) (number : ℕ)
    (c : StarterQuestionCandidate) (q : StarterQuestion) : Type 0 where
  pub set_id : q.set_id ≡ set
  pub tenant_id : q.tenant_id ≡ tenant
  pub semantic_layer_id : q.semantic_layer_id ≡ layer
  pub ordinal : q.ordinal ≡ number
  pub text : q.text ≡ trim_space c.text
  pub category : q.category ≡ trim_space c.category
  pub primary_table : q.primary_table ≡ trim_space c.primary_table
  pub localized : Localized locale q.locale
  pub created_at : q.created_at ≡ now
  pub is_active : q.is_active ≡ true

-- The rows of the candidates in their order, numbered from the given number on.
unfoldable pub Numbered :
    ℕ → ℕ → ℕ → ℕ → Text → ℕ → List StarterQuestionCandidate → List StarterQuestion → Type 0
Numbered now tenant layer set locale n [] [] = Unit
Numbered now tenant layer set locale n [] (q ∷ qs) = ⊥
Numbered now tenant layer set locale n (c ∷ cs) [] = ⊥
Numbered now tenant layer set locale n (c ∷ cs) (q ∷ qs) =
    IsRow now tenant layer set locale n c q × Numbered now tenant layer set locale (suc n) cs qs

-- What a successful regeneration stores and returns.
pub record Regenerated (env : Env) (tenant : ℕ) (locale : Text) (r : StarterQuestionsListResult)
    (rows : Rows) : Type 0 where
  pub layer : TenantSemanticLayer
  pub content : SemanticLayerContent
  pub candidates : List StarterQuestionCandidate
  pub approved : env.layer ≡ found layer
  pub read : layer.content ≡ some content
  pub question_set : IsQuestionSet candidates content
  pub generated_at : r.generated_at ≡ env.now
  pub numbered : Numbered env.now tenant layer.id r.set_id locale 1 candidates r.questions
  pub stored_rows : All (λ q. In q rows) r.questions
  pub only :
      (q : StarterQuestion)
      → In q rows
      → q.tenant_id ≡ tenant
      → q.is_active ≡ true
      → In q r.questions
  pub active_set : ActiveSet
  pub selected : latest_active tenant rows ≡ some active_set
  pub same_questions : active_set.questions ≡ r.questions
  pub same_set_id : active_set.set_id ≡ r.set_id
  pub same_generated_at : active_set.generated_at ≡ r.generated_at

stored-Localized : (l : Text) → Localized l (if is_empty l then codes "ko" else l)
stored-Localized l = elim (Bool-cases (is_empty l)) [
  | inl h ↦ rw h (unset h)
  | inr h ↦ rw h (set_to h)
]

stored-Numbered :
    (now tenant layer set : ℕ) (locale : Text) (n id : ℕ) (cs : List StarterQuestionCandidate)
    → Numbered now tenant layer set locale n cs (stored now tenant layer set locale n id cs)
unfolding Numbered starter_questions
stored-Numbered now tenant layer set locale n id [] = tt
stored-Numbered now tenant layer set locale n id (c ∷ cs) = (
  record {
    set_id = refl;
    tenant_id = refl;
    semantic_layer_id = refl;
    ordinal = refl;
    text = refl;
    category = refl;
    primary_table = refl;
    localized = stored-Localized locale;
    created_at = refl;
    is_active = refl;
  },
  stored-Numbered now tenant layer set locale (suc n) (suc id) cs,
)

module _ (now tenant layer set : ℕ) (locale : Text) (old : Rows)
    (cs : List StarterQuestionCandidate) where
  stored_In :
      (q : StarterQuestion)
      → In q (stored now tenant layer set locale 1 (suc set) cs)
      → In q (new_rows now tenant layer set locale old cs)
  unfolding replace_active_set insert_set
  stored_In q i = In-append_right q (deactivate_prior_sets tenant old) _ i

  active-stored :
      (q : StarterQuestion)
      → In q (new_rows now tenant layer set locale old cs)
      → q.tenant_id ≡ tenant
      → q.is_active ≡ true
      → In q (stored now tenant layer set locale 1 (suc set) cs)
  unfolding replace_active_set insert_set
  active-stored q i t a = elim (In-append q (deactivate_prior_sets tenant old) _ i) [
    | inl j ↦ absurd (ground (arith, (still_active tenant q old j a).1, t))
    | inr j ↦ j
  ]

-- A regeneration that succeeds, at a time that is not Go's zero time, has an approved layer and ten
-- questions that are a valid set for its content. It returns a row for each, in order: trimmed,
-- numbered from 1, of the tenant, the layer and one set, in the asked locale (Korean when none is asked
-- for), of that time and active. These rows are stored, they are the only active rows of the
-- tenant, and they are what is selected afterwards.
pub regenerate-Regenerated :
    (env : Env) (tenant : ℕ) (locale : Text) (w w' : Store) (r : StarterQuestionsListResult)
    → nat_beq env.now 0 ≡ false
    → regenerate env tenant locale w ≡ (ok r, w')
    → Regenerated env tenant locale r w'.rows
regenerate-Regenerated env tenant locale w w' r clock h =
    let v = regenerate-IsRegenerated env tenant locale w w' r clock h in
    let rows = stored env.now tenant v.layer.id v.set locale 1 (suc v.set) v.candidates in
    let questions : r.questions ≡ rows =
      ap (λ (x : StarterQuestionsListResult). x.questions) v.shown in
    let set : r.set_id ≡ v.set = ap (λ (x : StarterQuestionsListResult). x.set_id) v.shown in
    let at : r.generated_at ≡ env.now =
      ap (λ (x : StarterQuestionsListResult). x.generated_at) v.shown in
    record {
      layer = v.layer;
      content = v.generated.content;
      candidates = v.candidates;
      approved = v.generated.approved;
      read = v.generated.read;
      question_set =
          (validate_starter_questions-IsQuestionSet v.candidates v.generated.content).0
            v.generated.valid;
      generated_at = at;
      numbered =
          subst (λ x. Numbered env.now tenant v.layer.id x locale 1 v.candidates r.questions)
            (sym set)
            (subst (Numbered env.now tenant v.layer.id v.set locale 1 v.candidates) (sym questions)
              (stored-Numbered env.now tenant v.layer.id v.set locale 1 (suc v.set) v.candidates));
      stored_rows = All-In _ r.questions (λ q i. subst (In q) (sym v.replaced) (
          stored_In env.now tenant v.layer.id v.set locale v.old v.candidates q
            (subst (In q) questions i)));
      only = λ q i t a. subst (In q) (sym questions) (
          active-stored env.now tenant v.layer.id v.set locale v.old v.candidates q
            (subst (In q) v.replaced i) t a);
      active_set = _;
      selected = v.latest;
      same_questions = sym questions;
      same_set_id = sym set;
      same_generated_at = sym at;
    }
