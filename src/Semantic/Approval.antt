-- ===== src/Semantic/Approval.antt =====
-- The approval of internal/controlplane/repository/semantic_layer.go keeps the rows unique.
use mission.Prelude.{
  ℕ, ◌≤◌, ◌≡◌, refl, sym, ap, ◌∙◌, arith, Bool, Bool-cases, inl, inr, true, false, [], ◌∷◌, nat_beq,
  if◌then◌else◌, In, ◌⊎◌,
}
use mission.Prelude.Text.{Text}
use mission.Semantic.Types.{TenantSemanticLayer}
use mission.Semantic.Layers.{
  Rows, of_version, draft_of, approved_of, update_rows, archive, is_peer, approval, approve_row,
}
use mission.Semantic.Unique.{count, has_id, IsUnique}

count-In :
    (test : TenantSemanticLayer → Bool) (l : TenantSemanticLayer) (rows : Rows)
    → In l rows
    → test l ≡ true
    → 1 ≤ count test rows
unfolding count
count-In test l (m ∷ ms) (inl e) h = rw (ap test (sym e) ∙ h) (omega arith)
count-In test l (m ∷ ms) (inr i) h = ground (arith, count-In test l ms i h)
count-In test l [] i h = elim i [ ]

-- An identifier names one row.
pub unique_row :
    (id : ℕ) (l m : TenantSemanticLayer) (rows : Rows)
    → count (has_id id) rows ≤ 1
    → In l rows
    → In m rows
    → has_id id l ≡ true
    → has_id id m ≡ true
    → l ≡ m
unfolding count
unique_row id l m (x ∷ xs) c (inl e) (inl f) h k = e ∙ sym f
unique_row id l m (x ∷ xs) c (inl e) (inr j) h k =
    absurd (ground (arith, c, ap (has_id id) e, h, count-In (has_id id) m xs j k))
unique_row id l m (x ∷ xs) c (inr i) (inl f) h k =
    absurd (ground (arith, c, ap (has_id id) f, k, count-In (has_id id) l xs i h))
unique_row id l m (x ∷ xs) c (inr i) (inr j) h k = unique_row id l m xs (ground (arith, c)) i j h k
unique_row id l m [] c i j h k = elim i [ ]

module _ (target : TenantSemanticLayer) (now : ℕ) (user : Text) where
  -- What becomes of a row.
  abbrev pub after : TenantSemanticLayer → TenantSemanticLayer
  after l =
      let m = if is_peer target l then archive l else l in
      if nat_beq m.id target.id then approval now user m else m

  count-approve_row :
      (p q : TenantSemanticLayer → Bool) (rows : Rows)
      → ((l : TenantSemanticLayer) → In l rows → p (after l) ≡ true → q l ≡ true)
      → count p (approve_row target now user rows) ≤ count q rows
  unfolding count approve_row update_rows
  count-approve_row p q [] h = omega arith
  count-approve_row p q (l ∷ ls) h =
      ground (arith, h l (inl refl), count-approve_row p q ls (λ m i. h m (inr i)))

  peer_other : (l : TenantSemanticLayer) → is_peer target l ≡ true → has_id target.id l ≡ false
  peer_other l h = ground (arith, h)

  -- A peer is archived, the target approved, and any other row stays.
  pub after_cases :
      (l : TenantSemanticLayer)
      → ((is_peer target l ≡ true) × (after l ≡ archive l))
        ⊎ (((is_peer target l ≡ false)
              × ((has_id target.id l ≡ true) × (after l ≡ approval now user l)))
            ⊎ ((is_peer target l ≡ false) × ((has_id target.id l ≡ false) × (after l ≡ l))))
  after_cases l = elim (Bool-cases (is_peer target l)) [
    | inl h ↦ rw h (inl (refl, rw (peer_other l h) refl))
    | inr h ↦ elim (Bool-cases (has_id target.id l)) [
      | inl k ↦ rw (h, k) (inr (inl (refl, (refl, refl))))
      | inr k ↦ rw (h, k) (inr (inr (refl, (refl, refl))))
    ]
  ]

  kept_id : (id : ℕ) (l : TenantSemanticLayer) → has_id id (after l) ≡ true → has_id id l ≡ true
  kept_id id l h = elim (after_cases l) [
    | inl a ↦ sym (ap (has_id id) a.1) ∙ h
    | inr (inl a) ↦ sym (ap (has_id id) a.1.1) ∙ h
    | inr (inr a) ↦ sym (ap (has_id id) a.1.1) ∙ h
  ]

  kept_draft :
      (t s : ℕ) (l : TenantSemanticLayer) → draft_of t s (after l) ≡ true → draft_of t s l ≡ true
  kept_draft t s l h = elim (after_cases l) [
    | inl a ↦ absurd (ground (arith, sym (ap (draft_of t s) a.1) ∙ h))
    | inr (inl a) ↦ absurd (ground (arith, sym (ap (draft_of t s) a.1.1) ∙ h))
    | inr (inr a) ↦ sym (ap (draft_of t s) a.1.1) ∙ h
  ]

  -- In the target's version only the target is approved.
  only_target :
      (t s : ℕ) (l : TenantSemanticLayer)
      → of_version t s target ≡ true
      → approved_of t s (after l) ≡ true
      → has_id target.id l ≡ true
  only_target t s l same h = elim (after_cases l) [
    | inl a ↦ absurd (ground (arith, sym (ap (approved_of t s) a.1) ∙ h))
    | inr (inl a) ↦ a.1.0
    | inr (inr a) ↦ absurd (ground (arith, a.0, a.1.0, same, sym (ap (approved_of t s) a.1.1) ∙ h))
  ]

  -- Another version's approved layers are the old ones.
  kept_approved :
      (t s : ℕ) (l : TenantSemanticLayer)
      → of_version t s target ≡ false
      → (has_id target.id l ≡ true → l ≡ target)
      → approved_of t s (after l) ≡ true
      → approved_of t s l ≡ true
  kept_approved t s l other unique h = elim (after_cases l) [
    | inl a ↦ absurd (ground (arith, sym (ap (approved_of t s) a.1) ∙ h))
    | inr (inl a) ↦ absurd (
        ground
          (arith, other, ap (of_version t s) (unique a.1.0), sym (ap (approved_of t s) a.1.1) ∙ h))
    | inr (inr a) ↦ sym (ap (approved_of t s) a.1.1) ∙ h
  ]

  pub approve_row-IsUnique :
      (next : ℕ) (rows : Rows)
      → In target rows
      → IsUnique next rows
      → IsUnique next (approve_row target now user rows)
  approve_row-IsUnique next rows here v = record {
    ids = λ id. omega (arith, fewer_ids id, v.ids id);
    fresh = λ id h. omega (arith, fewer_ids id, v.fresh id h);
    one_draft = λ t s. omega (
      arith,
      count-approve_row (draft_of t s) (draft_of t s) rows (λ l _ h. kept_draft t s l h),
      v.one_draft t s,
    );
    one_approved = λ t s. elim (Bool-cases (of_version t s target)) [
      | inl same ↦ omega (
        arith,
        v.ids target.id,
        count-approve_row (approved_of t s) (has_id target.id) rows
            (λ l _ h. only_target t s l same h),
      )
      | inr other ↦ omega (
        arith,
        v.one_approved t s,
        count-approve_row (approved_of t s) (approved_of t s) rows (λ l i h.
            kept_approved t s l other
              (λ k. unique_row target.id l target rows (v.ids target.id) i here k (ground arith))
              h),
      )
    ];
  }
    where
      fewer_ids :
          (id : ℕ) → count (has_id id) (approve_row target now user rows) ≤ count (has_id id) rows
      fewer_ids id = count-approve_row (has_id id) (has_id id) rows (λ l _ h. kept_id id l h)
