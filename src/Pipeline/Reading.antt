-- ===== src/Pipeline/Reading.antt =====
-- What of `AskQuestion` in internal/controlplane/controller/query.go only reads.
use mission.Prelude.{ℕ, ◌≡◌, refl, Bool, true, false, Option, none, some, List, [], ◌∷◌}
use mission.Prelude.Actions.{
  Result, ok, err, Found, found, missing, failed, ◌>>=◌, raise_if, or_raise, of_found, bind-ok,
  bind-err,
}
use mission.Prelude.Text.{Text, is_empty, trim_space}
use mission.Semantic.Types.{SchemaBlob, TenantSemanticLayer}
use mission.Semantic.Methods.{TenantSchemaVersion}
use mission.Pipeline.Runs.{
  PromptContextSource, from_approved, from_draft, Warning, used_draft_layer,
}
use mission.Pipeline.Question.{
  Failure, failing, Env, Store, Method, empty_question, access_denied, no_schema, store_error,
  decode_error,
}
use mission.Pipeline.Preparation.{
  validate_ask_question_request, layer_context, draft_context, approved_context,
  resolve_prompt_context,
}

-- A step that only reads.
pub data Reads {A : Type 0} (w : Store) (p : Result Failure A × Store) : Type 0 where
  read_ok : (a : A) → p ≡ (ok a, w) → Reads w p
  read_err : (f : Failure) → p ≡ (err f, w) → Reads w p

bind-Reads :
    {A B : Type 0} (m : Method A) (f : A → Method B) (w : Store)
    → Reads w (m w)
    → ((a : A) → Reads w (f a w))
    → Reads w ((m >>= f) w)
bind-Reads m f w (read_ok a e) h = rw (bind-ok m f w a w e) (h a)
bind-Reads m f w (read_err g e) h = read_err g (bind-err m f w g w e)

of_found-Reads :
    {A : Type 0} (e other : Failure) (a : Found A) (w : Store) → Reads w (of_found e other a w)
of_found-Reads e other (found a) w = read_ok a refl
of_found-Reads e other missing w = read_err e refl
of_found-Reads e other failed w = read_err other refl

or_raise-Reads : {A : Type 0} (e : Failure) (a : Option A) (w : Store) → Reads w (or_raise e a w)
or_raise-Reads e none w = read_err e refl
or_raise-Reads e (some a) w = read_ok a refl

raise_if-Reads : (c : Bool) (e : Failure) (w : Store) → Reads w (raise_if c e w)
raise_if-Reads true e w = read_err e refl
raise_if-Reads false e w = read_ok tt refl

module _ (env : Env) (w : Store) where
  pub validate_ask_question_request-Reads :
      (question : Text) → Reads w (validate_ask_question_request env question w)
  unfolding validate_ask_question_request
  validate_ask_question_request-Reads question =
      bind-Reads _ _ w (raise_if-Reads (is_empty (trim_space question)) (failing empty_question) w)
        (λ _.
          bind-Reads _ _ w
            (of_found-Reads (failing access_denied) (failing store_error) env.membership w)
            (λ _.
              bind-Reads _ _ w
                (of_found-Reads (failing no_schema) (failing store_error) env.latest_schema w)
                (λ schema. read_ok (trim_space question, schema) refl)))

  layer_context-Reads :
      (blob : SchemaBlob) (source : PromptContextSource) (warnings : List Warning)
      (layer : TenantSemanticLayer)
      → Reads w (layer_context env blob source warnings layer w)
  layer_context-Reads blob source warnings layer =
      bind-Reads _ _ w (or_raise-Reads (failing decode_error) layer.content w)
        (λ content. read_ok _ refl)

  draft_context-Reads :
      (blob : SchemaBlob) (l : Found TenantSemanticLayer) → Reads w (draft_context env blob l w)
  unfolding draft_context
  draft_context-Reads blob (found layer) =
      layer_context-Reads blob from_draft (used_draft_layer ∷ []) layer
  draft_context-Reads blob missing = read_ok _ refl
  draft_context-Reads blob failed = read_err (failing store_error) refl

  approved_context-Reads :
      (blob : SchemaBlob) (version : ℕ) (l : Found TenantSemanticLayer)
      → Reads w (approved_context env blob version l w)
  unfolding approved_context
  approved_context-Reads blob version (found layer) =
      layer_context-Reads blob from_approved [] layer
  approved_context-Reads blob version missing = draft_context-Reads blob (env.draft_layer version)
  approved_context-Reads blob version failed = read_err (failing store_error) refl

  pub resolve_prompt_context-Reads :
      (schema : TenantSchemaVersion) → Reads w (resolve_prompt_context env schema w)
  unfolding resolve_prompt_context
  resolve_prompt_context-Reads schema =
      bind-Reads _ _ w (or_raise-Reads (failing decode_error) schema.blob w)
        (λ blob. approved_context-Reads blob schema.id (env.approved_layer schema.id))
