-- ===== src/Semantic/Outcomes.antt =====
-- What an update of internal/controlplane/controller/semantic_layer.go comes to.
use mission.Prelude.{ℕ, suc, ◌≡◌, refl, ◌∙◌, true, false, not, some}
use mission.Prelude.Text.{Text}
use mission.Semantic.Types.{SemanticLayerContent, TenantSemanticLayer}
use mission.Semantic.Content.{validate_semantic_layer_content, merge_editable_descriptions}
use mission.Semantic.Layers.{is_archived, new_draft, create_draft_version, get_by_id}
use mission.Semantic.Editing.{validate-merge_editable_descriptions}
use mission.Prelude.Actions.{found, ok, or_raise, raise_if, bind-ok}
use mission.Semantic.Methods.{
  Env, Store, decode_error, invalid_semantic_layer, semantic_layer_not_found,
  semantic_layer_archived, decode_semantic_layer_record, called, rows, insert_draft,
  ensure_membership, find_layer, update,
}

module _ (env : Env) (tenant : ℕ) (user : Text) (w : Store) where
  called-ok :
      env.faults w.calls ≡ false
      → called env tenant user w ≡ (ok tt, record w { calls = suc w.calls })
  unfolding called
  called-ok fine = rw fine refl

  find_layer-ok :
      (id : ℕ) (base : TenantSemanticLayer)
      → env.faults w.calls ≡ false
      → get_by_id tenant id w.rows ≡ some base
      → is_archived base.status ≡ false
      → find_layer env tenant user id w ≡ (ok base, record w { calls = suc w.calls })
  unfolding find_layer
  find_layer-ok id base fine here live =
      bind-ok (called env tenant user) _ w tt _ (called-ok fine)
      ∙ (bind-ok (rows env tenant user) _ (record w { calls = suc w.calls }) w.rows
            (record w { calls = suc w.calls }) refl
          ∙ (bind-ok (or_raise semantic_layer_not_found (get_by_id tenant id w.rows)) _
                (record w { calls = suc w.calls }) base (record w { calls = suc w.calls })
                (rw here refl)
              ∙ bind-ok (raise_if (is_archived base.status) semantic_layer_archived) _
                  (record w { calls = suc w.calls }) tt (record w { calls = suc w.calls })
                  (rw live refl)))

decode-ok :
    (l : TenantSemanticLayer) (c : SemanticLayerContent) (w : Store)
    → l.content ≡ some c
    → validate_semantic_layer_content c ≡ true
    → decode_semantic_layer_record l w ≡ (ok (record { layer = l; content = c }), w)
unfolding decode_semantic_layer_record
decode-ok l c w h valid =
    bind-ok (or_raise decode_error l.content) _ w c w (rw h refl)
    ∙ bind-ok (raise_if (not (validate_semantic_layer_content c)) invalid_semantic_layer) _ w tt w
        (rw valid refl)

-- An update whose checks and calls of the database succeed, as its result and the store after it.
pub update-ok :
    (env : Env) (tenant : ℕ) (user : Text) (w : Store) (id : ℕ) (base : TenantSemanticLayer)
    (c edited : SemanticLayerContent)
    → env.membership user ≡ found tt
    → env.faults w.calls ≡ false
    → env.faults (suc w.calls) ≡ false
    → get_by_id tenant id w.rows ≡ some base
    → is_archived base.status ≡ false
    → base.content ≡ some c
    → validate_semantic_layer_content c ≡ true
    → update env tenant user id edited w ≡ (
      ok (record {
        layer =
            new_draft w.next_id tenant base.schema_version_id
              (merge_editable_descriptions c edited)
              env.now;
        content = merge_editable_descriptions c edited;
      }),
      record {
        rows =
            create_draft_version
              (new_draft w.next_id tenant base.schema_version_id
                (merge_editable_descriptions c edited)
                env.now)
              w.rows;
        next_id = suc w.next_id;
        calls = suc (suc w.calls);
      },
    )
unfolding update insert_draft ensure_membership
update-ok env tenant user w id base c edited member fine fine' here live h valid =
    bind-ok (ensure_membership env tenant user) _ w tt w (rw member refl)
    ∙ (bind-ok (find_layer env tenant user id) _ w base w1
          (find_layer-ok env tenant user w id base fine here live)
        ∙ (bind-ok (decode_semantic_layer_record base) _ w1 (record { layer = base; content = c })
              w1 (decode-ok base c w1 h valid)
            ∙ (bind-ok
                  (raise_if (not (validate_semantic_layer_content merged)) invalid_semantic_layer) _
                  w1 tt w1 (rw (validate-merge_editable_descriptions c edited, valid) refl)
                ∙ (bind-ok (called env tenant user) _ w1 tt w2 (called-ok env tenant user w1 fine')
                    ∙ bind-ok (insert_draft env tenant user base.schema_version_id merged) _ w2 _ _
                        refl))))
  where
    w1 : Store
    w1 = record w { calls = suc w.calls }

    w2 : Store
    w2 = record w { calls = suc (suc w.calls) }

    merged : SemanticLayerContent
    merged = merge_editable_descriptions c edited
