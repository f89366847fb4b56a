-- ===== src/Semantic/Methods.antt =====
-- The methods of internal/controlplane/controller/semantic_layer.go. A request's answers of the other
-- components and of the model are an argument, as are the faults of the database by the number of the call;
-- requests run one at a time.
use mission.Prelude.{ℕ, suc, Bool, true, false, not, Option, none, some, nat_beq, if◌then◌else◌}
use mission.Prelude.Actions.{
  ok, err, Found, found, missing, failed, Action, ◌>>=◌, ◌>>◌, pure, raise, raise_if, or_raise,
  of_found,
}
use mission.Prelude.Text.{Text}
use mission.Semantic.Types.{SemanticLayerContent, SchemaBlob, TenantSemanticLayer}
use mission.Semantic.Content.{
  validate_semantic_layer_content, hydrate_semantic_layer_from_schema, merge_editable_descriptions,
}
use mission.Semantic.Layers.{
  Rows, is_archived, is_approved, latest_draft_by_schema_version, latest_approved_by_schema_version,
  get_by_id, new_draft, create_draft_version, approval, approve_row,
}

pub data Error : Type 0 where
  schema_version_not_found semantic_layer_not_found semantic_layer_archived invalid_semantic_layer :
      Error
  access_denied not_found store_error decode_error model_error : Error

pub record TenantSchemaVersion : Type 0 where
  pub id : ℕ
  pub blob : Option SchemaBlob

-- The model's answer, decoded, with its usage.
pub record CompletionResponse : Type 0 where
  pub content : Option SemanticLayerContent
  pub usage : ℕ

pub record Env : Type 0 where
  pub membership : Text → Found (Unit {0})
  pub latest_schema : Found TenantSchemaVersion
  pub schema_by_id : ℕ → Found TenantSchemaVersion
  pub complete : TenantSchemaVersion → Option CompletionResponse
  pub faults : ℕ → Bool
  pub now : ℕ

pub record Store : Type 0 where
  pub rows : Rows
  pub next_id : ℕ
  pub calls : ℕ

abbrev pub Method : Type 0 → Type 0
Method A = Action Store Error A

pub record SemanticLayerRecord : Type 0 where
  pub layer : TenantSemanticLayer
  pub content : SemanticLayerContent

pub record GetSemanticLayerResult : Type 0 where
  pub has_schema : Bool
  pub needs_draft : Bool
  pub latest_schema : Option TenantSchemaVersion
  pub current_layer : Option SemanticLayerRecord
  pub approved_baseline : Option SemanticLayerRecord

pub record DraftSemanticLayerResult : Type 0 where
  pub layer : SemanticLayerRecord
  pub usage : ℕ

unfoldable pub decode_semantic_layer_record : TenantSemanticLayer → Method SemanticLayerRecord
decode_semantic_layer_record layer = do
  content ← or_raise decode_error layer.content
  raise_if (not (validate_semantic_layer_content content)) invalid_semantic_layer
  pure (record { layer = layer; content = content })

-- `decodeSemanticLayerRecord` of a layer that was found.
unfoldable pub decode_if_found : Option TenantSemanticLayer → Method (Option SemanticLayerRecord)
unfolding decode_semantic_layer_record
decode_if_found none = pure none
decode_if_found (some layer) = do r ← decode_semantic_layer_record layer; pure (some r)

-- The end of `Get`: which layer is shown, and beside which approved one.
unfoldable pub shown :
    TenantSchemaVersion
    → Option SemanticLayerRecord
    → Option SemanticLayerRecord
    → GetSemanticLayerResult
shown schema none none = record {
  has_schema = true;
  needs_draft = true;
  latest_schema = some schema;
  current_layer = none;
  approved_baseline = none;
}
shown schema none (some a) = record {
  has_schema = true;
  needs_draft = false;
  latest_schema = some schema;
  current_layer = some a;
  approved_baseline = none;
}
shown schema (some d) none = record {
  has_schema = true;
  needs_draft = false;
  latest_schema = some schema;
  current_layer = some d;
  approved_baseline = none;
}
shown schema (some d) (some a) = record {
  has_schema = true;
  needs_draft = false;
  latest_schema = some schema;
  current_layer = some d;
  approved_baseline = if nat_beq d.layer.id a.layer.id then none else some a;
}

abbrev no_schema : GetSemanticLayerResult
no_schema = record {
  has_schema = false;
  needs_draft = false;
  latest_schema = none;
  current_layer = none;
  approved_baseline = none;
}

module _ (env : Env) (tenant : ℕ) (user : Text) where
  -- A statement, which fails or does something with the rows.
  unfoldable pub called : Method (Unit {0})
  called w =
      (if env.faults w.calls then err store_error else ok tt, record w { calls = suc w.calls })

  abbrev pub rows : Method Rows
  rows w = (ok w.rows, w)

  unfoldable pub insert_draft : ℕ → SemanticLayerContent → Method TenantSemanticLayer
  insert_draft version content w =
      let new = new_draft w.next_id tenant version content env.now in
      (ok new, record w { rows = create_draft_version new w.rows; next_id = suc w.next_id })

  unfoldable pub approve_target : Option TenantSemanticLayer → Method TenantSemanticLayer
  approve_target none w = (err not_found, w)
  approve_target (some target) w = (
    ok (approval env.now user target),
    record w { rows = approve_row target env.now user w.rows },
  )

  unfoldable pub approve_by_id : ℕ → Method TenantSemanticLayer
  unfolding approve_target get_by_id
  approve_by_id id w = approve_target (get_by_id tenant id w.rows) w

  unfoldable pub ensure_membership : Method (Unit {0})
  ensure_membership = of_found access_denied store_error (env.membership user)

  unfoldable pub get_from : Found TenantSchemaVersion → Method GetSemanticLayerResult
  unfolding called decode_if_found
  get_from missing = pure no_schema
  get_from failed = raise store_error
  get_from (found schema) = do
    called
    ls ← rows
    current ← decode_if_found (latest_draft_by_schema_version tenant schema.id ls)
    called
    baseline ← decode_if_found (latest_approved_by_schema_version tenant schema.id ls)
    pure (shown schema current baseline)

  unfoldable pub get : Method GetSemanticLayerResult
  unfolding ensure_membership get_from
  get = do ensure_membership; get_from env.latest_schema

  unfoldable pub draft : ℕ → Method DraftSemanticLayerResult
  unfolding ensure_membership called insert_draft
  draft version = do
    ensure_membership
    schema ← of_found schema_version_not_found store_error (env.schema_by_id version)
    blob ← or_raise decode_error schema.blob
    completion ← or_raise model_error (env.complete schema)
    generated ← or_raise decode_error completion.content
    let content = hydrate_semantic_layer_from_schema blob generated
    raise_if (not (validate_semantic_layer_content content)) invalid_semantic_layer
    called
    layer ← insert_draft version content
    pure (record { layer = record { layer = layer; content = content }; usage = completion.usage })

  unfoldable pub find_layer : ℕ → Method TenantSemanticLayer
  unfolding called get_by_id
  find_layer id = do
    called
    ls ← rows
    layer ← or_raise semantic_layer_not_found (get_by_id tenant id ls)
    raise_if (is_archived layer.status) semantic_layer_archived
    pure layer

  unfoldable pub update : ℕ → SemanticLayerContent → Method SemanticLayerRecord
  unfolding ensure_membership find_layer decode_semantic_layer_record called insert_draft
  update id content = do
    ensure_membership
    base ← find_layer id
    r ← decode_semantic_layer_record base
    let merged = merge_editable_descriptions r.content content
    raise_if (not (validate_semantic_layer_content merged)) invalid_semantic_layer
    called
    layer ← insert_draft base.schema_version_id merged
    pure (record { layer = layer; content = merged })

  unfoldable pub approve_found : ℕ → Bool → TenantSemanticLayer → Method SemanticLayerRecord
  unfolding decode_semantic_layer_record called approve_by_id
  approve_found id true layer = decode_semantic_layer_record layer
  approve_found id false layer = do
    called
    approved ← approve_by_id id
    decode_semantic_layer_record approved

  unfoldable pub approve : ℕ → Method SemanticLayerRecord
  unfolding ensure_membership find_layer approve_found
  approve id = do
    ensure_membership
    layer ← find_layer id
    approve_found id (is_approved layer.status) layer
