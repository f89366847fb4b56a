-- ===== src/Semantic/Updated.antt =====
-- What an update of internal/controlplane/controller/semantic_layer.go stores and returns.
use mission.Prelude.{ℕ, suc, ◌≡◌, refl, true, false, none, some, ◌∷◌}
use mission.Prelude.Actions.{found, ok}
use mission.Prelude.Text.{Text}
use mission.Prelude.Equality.{text_test}
use mission.Semantic.Types.{SemanticLayerContent, draft, TenantSemanticLayer}
use mission.Semantic.Content.{merge_editable_descriptions, validate_semantic_layer_content}
use mission.Semantic.Layers.{Rows, is_archived, get_by_id, create_draft_version, new_draft}
use mission.Semantic.Descriptions.{EditedContent, merge_editable_descriptions-EditedContent}
use mission.Semantic.Changes.{Pairs, Redrafting, archive_drafts-Redrafting}
use mission.Semantic.Methods.{Env, Store, SemanticLayerRecord, update}
use mission.Semantic.Outcomes.{update-ok}

-- What an update stores and returns: the new row stands before the old ones and is a draft, at that time,
-- of the edited layer's version with its edited content.
pub record Updated (env : Env) (tenant : ℕ) (w : Store) (base : TenantSemanticLayer)
    (c edited : SemanticLayerContent) (shown : SemanticLayerRecord) (w' : Store) : Type 0 where
  pub content : EditedContent c edited shown.content
  pub id : shown.layer.id ≡ w.next_id
  pub tenant_id : shown.layer.tenant_id ≡ tenant
  pub schema_version_id : shown.layer.schema_version_id ≡ base.schema_version_id
  pub status : shown.layer.status ≡ draft
  pub stored_content : shown.layer.content ≡ some shown.content
  pub created_at : shown.layer.created_at ≡ env.now
  pub approved_at : shown.layer.approved_at ≡ none
  pub approved_by_user_id : shown.layer.approved_by_user_id ≡ none
  pub old_rows : Rows
  pub rows : w'.rows ≡ shown.layer ∷ old_rows
  pub redrafted : Pairs (Redrafting tenant base.schema_version_id) w.rows old_rows

create_draft_version-Redrafting :
    (id tenant version now : ℕ) (content : SemanticLayerContent) (ls : Rows)
    → (old : Rows) × ((create_draft_version (new_draft id tenant version content now) ls
          ≡ new_draft id tenant version content now ∷ old)
        × Pairs (Redrafting tenant version) ls old)
unfolding create_draft_version
create_draft_version-Redrafting id tenant version now content ls =
    (_, (refl, archive_drafts-Redrafting tenant version ls))

-- A member's edit of a layer that is stored for the tenant, not archived and of valid content succeeds,
-- whatever it says, when the two calls of the database succeed. The tables, columns, entities and metrics
-- of the result are the layer's, in its order, but that the description of a table or a column is that
-- of the edit's last entry with its qualified name, where there is one. The result is stored and returned as
-- a new draft of the layer's version, and the version's drafts before it are archived; no other row
-- changes.
pub update-Updated :
    (env : Env) (tenant : ℕ) (user : Text) (w : Store) (id : ℕ) (base : TenantSemanticLayer)
    (c edited : SemanticLayerContent)
    → env.membership user ≡ found tt
    → env.faults w.calls ≡ false
    → env.faults (suc w.calls) ≡ false
    → get_by_id tenant id w.rows ≡ some base
    → is_archived base.status ≡ false
    → base.content ≡ some c
    → validate_semantic_layer_content c ≡ true
    → (shown : SemanticLayerRecord) × ((w' : Store) × ((update env tenant user id edited w
            ≡ (ok shown, w'))
          × Updated env tenant w base c edited shown w'))
update-Updated env tenant user w id base c edited member fine fine' here live h valid =
    let merged = merge_editable_descriptions c edited in
    let (old, (rows, redrafted)) =
      create_draft_version-Redrafting w.next_id tenant base.schema_version_id env.now merged
        w.rows in
    let layer = new_draft w.next_id tenant base.schema_version_id merged env.now in
    let updated : Updated env tenant w base c edited (record { layer = layer; content = merged })
        (record {
          rows = create_draft_version layer w.rows;
          next_id = suc w.next_id;
          calls = suc (suc w.calls);
        }) =
      record {
        content = merge_editable_descriptions-EditedContent c edited;
        id = refl;
        tenant_id = refl;
        schema_version_id = refl;
        status = refl;
        stored_content = refl;
        created_at = refl;
        approved_at = refl;
        approved_by_user_id = refl;
        old_rows = old;
        rows = rows;
        redrafted = redrafted;
      } in
    (
      _,
      (
        _,
        (update-ok env tenant user w id base c edited member fine fine' here live h valid, updated),
      ),
    )
