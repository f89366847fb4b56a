-- ===== src/Semantic/Unique.antt =====
-- internal/controlplane/repository/semantic_layer.go keeps the rows as the unique indices of
-- internal/controlplane/db/migrations/0001_schema.up.sql want them: one draft and one approved layer of a
-- tenant's schema version.
use mission.Prelude.{
  ℕ, suc, ◌≤◌, ◌≡◌, refl, arith, Bool, Bool-cases, inl, inr, true, false, [], ◌∷◌, nat_beq,
  if◌then◌else◌, In,
}
use mission.Semantic.Types.{TenantSemanticLayer, draft}
use mission.Semantic.Layers.{
  Rows, of_version, draft_of, approved_of, update_rows, archive, create_draft_version,
}

-- How many rows pass a test.
unfoldable pub count : (TenantSemanticLayer → Bool) → Rows → ℕ
count test [] = 0
count test (l ∷ ls) = let rest = count test ls in if test l then suc rest else rest

abbrev pub has_id : ℕ → TenantSemanticLayer → Bool
has_id id l = nat_beq l.id id

pub record IsUnique (next : ℕ) (rows : Rows) : Type 0 where
  pub ids : (id : ℕ) → count (has_id id) rows ≤ 1
  pub fresh : (id : ℕ) → next ≤ id → count (has_id id) rows ≡ 0
  pub one_draft : (tenant version : ℕ) → count (draft_of tenant version) rows ≤ 1
  pub one_approved : (tenant version : ℕ) → count (approved_of tenant version) rows ≤ 1

-- An update adds no row to those that pass a test, when a row that passes it after the change passed
-- another before.
count-update_rows :
    (test p q : TenantSemanticLayer → Bool) (change : TenantSemanticLayer → TenantSemanticLayer)
    (rows : Rows)
    → ((l : TenantSemanticLayer)
        → In l rows
        → p (if test l then change l else l) ≡ true
        → q l ≡ true)
    → count p (update_rows test change rows) ≤ count q rows
unfolding count update_rows
count-update_rows test p q change [] h = omega arith
count-update_rows test p q change (l ∷ ls) h =
    ground (arith, h l (inl refl), count-update_rows test p q change ls (λ m i. h m (inr i)))

count_none :
    (test p : TenantSemanticLayer → Bool) (change : TenantSemanticLayer → TenantSemanticLayer)
    (rows : Rows)
    → ((l : TenantSemanticLayer) → p (if test l then change l else l) ≡ false)
    → count p (update_rows test change rows) ≡ 0
unfolding count update_rows
count_none test p change [] h = refl
count_none test p change (l ∷ ls) h = rw (h l) (count_none test p change ls h)

module _ (l : TenantSemanticLayer) where
  kept_id : (id : ℕ) (b : Bool) → has_id id (if b then archive l else l) ≡ true → has_id id l ≡ true
  kept_id id true h = h
  kept_id id false h = h

  kept_draft :
      (tenant version : ℕ) (b : Bool)
      → draft_of tenant version (if b then archive l else l) ≡ true
      → draft_of tenant version l ≡ true
  kept_draft tenant version true h = absurd (ground (arith, h))
  kept_draft tenant version false h = h

  kept_approved :
      (tenant version : ℕ) (b : Bool)
      → approved_of tenant version (if b then archive l else l) ≡ true
      → approved_of tenant version l ≡ true
  kept_approved tenant version true h = absurd (ground (arith, h))
  kept_approved tenant version false h = h

  -- No draft of a version is left.
  archived_draft :
      (new : TenantSemanticLayer) (tenant version : ℕ)
      → of_version tenant version new ≡ true
      → draft_of tenant version
          (if draft_of new.tenant_id new.schema_version_id l then archive l else l)
        ≡ false
  archived_draft new tenant version same =
      elim (Bool-cases (draft_of new.tenant_id new.schema_version_id l)) [
        | inl h ↦ rw h (ground arith)
        | inr h ↦ rw h (ground (arith, h, same))
      ]

pub create_draft_version-IsUnique :
    (new : TenantSemanticLayer) (rows : Rows)
    → new.status ≡ draft
    → IsUnique new.id rows
    → IsUnique (suc new.id) (create_draft_version new rows)
unfolding create_draft_version count
create_draft_version-IsUnique new rows d v = record {
  ids = λ id. ground (arith, fewer_ids id, v.ids id, v.fresh id);
  fresh = λ id h. ground (arith, fewer_ids id, v.fresh id (omega (arith, h)), h);
  one_draft = λ tenant version. elim (Bool-cases (of_version tenant version new)) [
    | inl same ↦ ground (arith, no_draft tenant version same)
    | inr other ↦ ground (arith, other, fewer_drafts tenant version, v.one_draft tenant version)
  ];
  one_approved = λ tenant version. ground (
    arith,
    not_approved tenant version,
    fewer_approved tenant version,
    v.one_approved tenant version,
  );
}
  where
    left : Rows
    left = update_rows (draft_of new.tenant_id new.schema_version_id) archive rows

    fewer_ids : (id : ℕ) → count (has_id id) left ≤ count (has_id id) rows
    fewer_ids id = count-update_rows _ _ _ archive rows (λ l _ h. kept_id l id _ h)

    fewer_drafts : (t s : ℕ) → count (draft_of t s) left ≤ count (draft_of t s) rows
    fewer_drafts t s = count-update_rows _ _ _ archive rows (λ l _ h. kept_draft l t s _ h)

    fewer_approved : (t s : ℕ) → count (approved_of t s) left ≤ count (approved_of t s) rows
    fewer_approved t s = count-update_rows _ _ _ archive rows (λ l _ h. kept_approved l t s _ h)

    no_draft : (t s : ℕ) → of_version t s new ≡ true → count (draft_of t s) left ≡ 0
    no_draft t s same = count_none _ _ archive rows (λ l. archived_draft l new t s same)

    not_approved : (t s : ℕ) → approved_of t s new ≡ false
    not_approved t s = rw d (ground arith)
