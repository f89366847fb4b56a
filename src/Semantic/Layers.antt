-- ===== src/Semantic/Layers.antt =====
-- The statements of internal/controlplane/repository/semantic_layer.go on the rows of
-- tenant_semantic_layers. A statement in a transaction that fails is rolled back, so a method changes the
-- rows as a whole or not at all. Identifiers are numbers that the database hands out in order.
use mission.Prelude.{
  ℕ, Bool, true, false, not, ◌&&◌, ◌||◌, Option, none, some, List, [], ◌∷◌, ltb, nat_beq,
  if◌then◌else◌,
}
use mission.Prelude.Text.{Text}
use mission.Semantic.Types.{
  SemanticLayerContent, SemanticLayerStatus, draft, approved, archived, TenantSemanticLayer,
}

abbrev pub Rows : Type 0
Rows = List TenantSemanticLayer

abbrev pub is_draft : SemanticLayerStatus → Bool
is_draft draft = true
is_draft _ = false

abbrev pub is_approved : SemanticLayerStatus → Bool
is_approved approved = true
is_approved _ = false

abbrev pub is_archived : SemanticLayerStatus → Bool
is_archived archived = true
is_archived _ = false

abbrev pub of_version : ℕ → ℕ → TenantSemanticLayer → Bool
of_version tenant version l = nat_beq l.tenant_id tenant && nat_beq l.schema_version_id version

abbrev pub draft_of : ℕ → ℕ → TenantSemanticLayer → Bool
draft_of tenant version l = of_version tenant version l && is_draft l.status

abbrev pub approved_of : ℕ → ℕ → TenantSemanticLayer → Bool
approved_of tenant version l = of_version tenant version l && is_approved l.status

-- `ORDER BY created_at DESC LIMIT 1` and `ORDER BY approved_at DESC NULLS LAST, created_at DESC LIMIT 1`.
abbrev earlier : TenantSemanticLayer → TenantSemanticLayer → Bool
earlier l m = ltb l.created_at m.created_at

abbrev approved_before : Option ℕ → Option ℕ → Bool → Bool
approved_before none none tie = tie
approved_before none (some t) tie = true
approved_before (some s) none tie = false
approved_before (some s) (some t) tie = ltb s t || (nat_beq s t && tie)

abbrev approved_earlier : TenantSemanticLayer → TenantSemanticLayer → Bool
approved_earlier l m = approved_before l.approved_at m.approved_at (earlier l m)

abbrev ahead :
    (TenantSemanticLayer → TenantSemanticLayer → Bool)
    → TenantSemanticLayer
    → Option TenantSemanticLayer
    → TenantSemanticLayer
ahead behind l none = l
ahead behind l (some m) = if behind l m then m else l

unfoldable pub first_row :
    (TenantSemanticLayer → TenantSemanticLayer → Bool)
    → (TenantSemanticLayer → Bool)
    → Rows
    → Option TenantSemanticLayer
first_row behind test [] = none
first_row behind test (l ∷ ls) =
    let rest = first_row behind test ls in if test l then some (ahead behind l rest) else rest

unfoldable pub latest_draft_by_schema_version : ℕ → ℕ → Rows → Option TenantSemanticLayer
unfolding first_row
latest_draft_by_schema_version tenant version = first_row earlier (draft_of tenant version)

unfoldable pub latest_approved_by_schema_version : ℕ → ℕ → Rows → Option TenantSemanticLayer
unfolding first_row
latest_approved_by_schema_version tenant version =
    first_row approved_earlier (approved_of tenant version)

unfoldable pub get_by_id : ℕ → ℕ → Rows → Option TenantSemanticLayer
get_by_id tenant id [] = none
get_by_id tenant id (l ∷ ls) =
    let rest = get_by_id tenant id ls in
    if nat_beq l.tenant_id tenant && nat_beq l.id id then some l else rest

-- An UPDATE of some rows.
unfoldable pub update_rows :
    (TenantSemanticLayer → Bool) → (TenantSemanticLayer → TenantSemanticLayer) → Rows → Rows
update_rows test change [] = []
update_rows test change (l ∷ ls) = (if test l then change l else l) ∷ update_rows test change ls

abbrev pub archive : TenantSemanticLayer → TenantSemanticLayer
archive l = record l { status = archived }

abbrev pub new_draft : ℕ → ℕ → ℕ → SemanticLayerContent → ℕ → TenantSemanticLayer
new_draft id tenant version content now = record {
  id = id;
  tenant_id = tenant;
  schema_version_id = version;
  status = draft;
  content = some content;
  created_at = now;
  approved_at = none;
  approved_by_user_id = none;
}

-- `CreateDraftVersion`: the drafts of the version are archived, and the new one is inserted.
unfoldable pub create_draft_version : TenantSemanticLayer → Rows → Rows
unfolding update_rows
create_draft_version new rows =
    new ∷ update_rows (draft_of new.tenant_id new.schema_version_id) archive rows

-- The other drafts and approved layers of the target's version.
abbrev pub is_peer : TenantSemanticLayer → TenantSemanticLayer → Bool
is_peer target l =
    of_version target.tenant_id target.schema_version_id l
    && not (nat_beq l.id target.id)
    && (is_draft l.status || is_approved l.status)

abbrev pub approval : ℕ → Text → TenantSemanticLayer → TenantSemanticLayer
approval now user l = record l {
  status = approved;
  approved_at = some now;
  approved_by_user_id = some user;
}

-- `Approve`, from the row that it selects on.
unfoldable pub approve_row : TenantSemanticLayer → ℕ → Text → Rows → Rows
unfolding update_rows
approve_row target now user rows =
    update_rows (λ l. nat_beq l.id target.id) (approval now user)
      (update_rows (is_peer target) archive rows)
