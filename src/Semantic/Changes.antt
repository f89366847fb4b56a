-- ===== src/Semantic/Changes.antt =====
-- What an approval and a new draft make of each row, in internal/controlplane/repository/semantic_layer.go.
use mission.Prelude.{
  ℕ, ◌≡◌, ◌≢◌, refl, sym, ap, arith, Bool, Bool-cases, inl, inr, ◌⊎◌, true, false, some, List, [],
  ◌∷◌, nat_beq, if◌then◌else◌, In, ◌||◌,
}
use mission.Prelude.Text.{Text}
use mission.Semantic.Types.{SemanticLayerStatus, draft, approved, archived, TenantSemanticLayer}
use mission.Semantic.Layers.{
  Rows, of_version, draft_of, is_draft, is_approved, archive, approval, update_rows, approve_row,
}
use mission.Semantic.Unique.{has_id, IsUnique}
use mission.Semantic.Approval.{after, after_cases, unique_row}

-- Two lists of one length, related entry by entry.
unfoldable pub Pairs : {A B : Type 0} → (A → B → Type 0) → List A → List B → Type 0
Pairs R [] [] = Unit
Pairs R [] (y ∷ ys) = ⊥
Pairs R (x ∷ xs) [] = ⊥
Pairs R (x ∷ xs) (y ∷ ys) = R x y × Pairs R xs ys

-- The row with its status archived.
pub record IsArchived (before after : TenantSemanticLayer) : Type 0 where
  pub id : after.id ≡ before.id
  pub tenant_id : after.tenant_id ≡ before.tenant_id
  pub schema_version_id : after.schema_version_id ≡ before.schema_version_id
  pub status : after.status ≡ archived
  pub content : after.content ≡ before.content
  pub created_at : after.created_at ≡ before.created_at
  pub approved_at : after.approved_at ≡ before.approved_at
  pub approved_by_user_id : after.approved_by_user_id ≡ before.approved_by_user_id

-- The row approved at a time by a user.
pub record IsApproved (now : ℕ) (user : Text) (before after : TenantSemanticLayer) : Type 0 where
  pub id : after.id ≡ before.id
  pub tenant_id : after.tenant_id ≡ before.tenant_id
  pub schema_version_id : after.schema_version_id ≡ before.schema_version_id
  pub status : after.status ≡ approved
  pub content : after.content ≡ before.content
  pub created_at : after.created_at ≡ before.created_at
  pub approved_at : after.approved_at ≡ some now
  pub approved_by_user_id : after.approved_by_user_id ≡ some user

-- What becomes of a row when the target is approved: the target is, the other rows of its version are
-- archived, also those that were before, and a row of another tenant or version stays as it was.
pub data Approving (target : TenantSemanticLayer) (now : ℕ) (user : Text)
    (before after : TenantSemanticLayer) : Type 0 where
  the_target :
      before ≡ target → IsApproved now user before after → Approving target now user before after
  a_peer :
      before.id ≢ target.id
      → before.tenant_id ≡ target.tenant_id
      → before.schema_version_id ≡ target.schema_version_id
      → IsArchived before after
      → Approving target now user before after
  elsewhere :
      before.id ≢ target.id
      → (before.tenant_id ≢ target.tenant_id)
        ⊎ (before.schema_version_id ≢ target.schema_version_id)
      → after ≡ before
      → Approving target now user before after

-- What becomes of a row when a draft of the version is stored: its drafts are archived.
pub data Redrafting (tenant version : ℕ) (before after : TenantSemanticLayer) : Type 0 where
  a_draft :
      before.tenant_id ≡ tenant
      → before.schema_version_id ≡ version
      → before.status ≡ draft
      → IsArchived before after
      → Redrafting tenant version before after
  no_draft :
      (before.tenant_id ≢ tenant) ⊎ ((before.schema_version_id ≢ version) ⊎ (before.status ≢ draft))
      → after ≡ before
      → Redrafting tenant version before after

draft_status : (s : SemanticLayerStatus) → is_draft s ≡ true → s ≡ draft
draft_status draft h = refl
draft_status approved h = absurd (ground (arith, h))
draft_status archived h = absurd (ground (arith, h))

archived_status : (s : SemanticLayerStatus) → (is_draft s || is_approved s) ≡ false → s ≡ archived
archived_status archived h = refl
archived_status draft h = absurd (ground (arith, h))
archived_status approved h = absurd (ground (arith, h))

archive-IsArchived : (l : TenantSemanticLayer) → IsArchived l (archive l)
archive-IsArchived l = record {
  id = refl;
  tenant_id = refl;
  schema_version_id = refl;
  status = refl;
  content = refl;
  created_at = refl;
  approved_at = refl;
  approved_by_user_id = refl;
}

already-IsArchived : (l : TenantSemanticLayer) → l.status ≡ archived → IsArchived l l
already-IsArchived l h = record {
  id = refl;
  tenant_id = refl;
  schema_version_id = refl;
  status = h;
  content = refl;
  created_at = refl;
  approved_at = refl;
  approved_by_user_id = refl;
}

approval-IsApproved :
    (now : ℕ) (user : Text) (l : TenantSemanticLayer) → IsApproved now user l (approval now user l)
approval-IsApproved now user l = record {
  id = refl;
  tenant_id = refl;
  schema_version_id = refl;
  status = refl;
  content = refl;
  created_at = refl;
  approved_at = refl;
  approved_by_user_id = refl;
}

not_of_version :
    (tenant version : ℕ) (l : TenantSemanticLayer)
    → of_version tenant version l ≡ false
    → (l.tenant_id ≢ tenant) ⊎ (l.schema_version_id ≢ version)
not_of_version tenant version l h = elim (Bool-cases (nat_beq l.tenant_id tenant)) [
  | inl t ↦ inr (λ e. absurd (ground (arith, h, t, e)))
  | inr t ↦ inl (λ e. absurd (ground (arith, t, e)))
]

archive-Redrafting :
    (tenant version : ℕ) (l : TenantSemanticLayer) (b : Bool)
    → draft_of tenant version l ≡ b
    → Redrafting tenant version l (if b then archive l else l)
archive-Redrafting tenant version l true h =
    a_draft (ground (arith, h)) (ground (arith, h)) (draft_status l.status (ground (arith, h)))
      (archive-IsArchived l)
archive-Redrafting tenant version l false h = elim (Bool-cases (of_version tenant version l)) [
  | inl t ↦ no_draft (inr (inr (λ e. absurd (ground (arith, sym h, t, ap is_draft e))))) refl
  | inr t ↦ elim (not_of_version tenant version l t) [
    | inl n ↦ no_draft (inl n) refl
    | inr n ↦ no_draft (inr (inl n)) refl
  ]
]

pub archive_drafts-Redrafting :
    (tenant version : ℕ) (ls : Rows)
    → Pairs (Redrafting tenant version) ls (update_rows (draft_of tenant version) archive ls)
unfolding Pairs update_rows
archive_drafts-Redrafting tenant version [] = tt
archive_drafts-Redrafting tenant version (l ∷ ls) = (
  archive-Redrafting tenant version l (draft_of tenant version l) refl,
  archive_drafts-Redrafting tenant version ls,
)

module _ (target : TenantSemanticLayer) (now : ℕ) (user : Text) where
  after-Approving :
      (l : TenantSemanticLayer)
      → (has_id target.id l ≡ true → l ≡ target)
      → Approving target now user l (after target now user l)
  after-Approving l unique = elim (after_cases target now user l) [
    | inl a ↦ rw a.1 (
        a_peer (ground (arith, a.0)) (ground (arith, a.0)) (ground (arith, a.0))
          (archive-IsArchived l))
    | inr (inl a) ↦ rw a.1.1 (the_target (unique a.1.0) (approval-IsApproved now user l))
    | inr (inr a) ↦
        rw a.1.1 (elim (Bool-cases (of_version target.tenant_id target.schema_version_id l)) [
          | inl t ↦
              a_peer (ground (arith, a.1.0)) (ground (arith, t)) (ground (arith, t))
                (already-IsArchived l (archived_status l.status (ground (arith, a.0, a.1.0, t))))
          | inr t ↦
              elsewhere (ground (arith, a.1.0))
                (not_of_version target.tenant_id target.schema_version_id l t) refl
        ])
  ]

  approve_rows-Approving :
      (ls : Rows)
      → ((l : TenantSemanticLayer) → In l ls → has_id target.id l ≡ true → l ≡ target)
      → Pairs (Approving target now user) ls (approve_row target now user ls)
  unfolding Pairs approve_row update_rows
  approve_rows-Approving [] unique = tt
  approve_rows-Approving (l ∷ ls) unique =
      (after-Approving l (unique l (inl refl)), approve_rows-Approving ls (λ m i. unique m (inr i)))

  -- The approval of one of a store's rows, whose identifiers are unique, makes each row one row, in the same
  -- order: the target is approved at that time by that user; every other row of its tenant and schema
  -- version is archived; and any other row stays as it was.
  pub approve_row-Approving :
      (next : ℕ) (ls : Rows)
      → IsUnique next ls
      → In target ls
      → Pairs (Approving target now user) ls (approve_row target now user ls)
  approve_row-Approving next ls v here =
      approve_rows-Approving ls
        (λ l i h. unique_row target.id l target ls (v.ids target.id) i here h (ground arith))
