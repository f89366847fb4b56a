-- ===== src/Onboarding/Slugs.antt =====
-- What `slugifyWorkspaceName` of internal/controlplane/controller/onboarding.go makes of a name.
use mission.Prelude.{
  ℕ, ◌≡◌, refl, sym, ap, ◌∙◌, arith, Bool, Bool-cases, inl, inr, ◌⊎◌, true, false, not, ◌&&◌, ◌||◌,
  [], ◌∷◌, nat_beq, if◌then◌else◌,
}
use mission.Prelude.Text.{Text, is_empty, trim_space}
use mission.Onboarding.Texts.{
  is_alphanumeric, dashed, trim_left_dash, trim_right_dash, slugify_workspace_name,
}

-- The letters and digits of a text.
unfoldable pub letters : Text → Text
letters [] = []
letters (c ∷ s) = let rest = letters s in if is_alphanumeric c then c ∷ rest else rest

-- Letters and digits with single dashes between them; the argument tells whether a dash, or the start, is
-- just before.
unfoldable pub is_slug : Bool → Text → Bool
is_slug behind_dash [] = not behind_dash
is_slug behind_dash (c ∷ s) =
    (is_alphanumeric c && is_slug false s)
    || (nat_beq c b'-' && (not behind_dash && is_slug true s))

-- The same, but a dash may be at the end.
is_tidy : Bool → Text → Bool
is_tidy behind_dash [] = true
is_tidy behind_dash (c ∷ s) =
    (is_alphanumeric c && is_tidy false s)
    || (nat_beq c b'-' && (not behind_dash && is_tidy true s))

dash_is_no_letter : (c : ℕ) → nat_beq c b'-' ≡ true → is_alphanumeric c ≡ false
unfolding is_alphanumeric
dash_is_no_letter c h = ground (arith, h)

dashed-is_tidy : (last : Bool) (s : Text) → is_tidy last (dashed last s) ≡ true
unfolding is_tidy dashed
dashed-is_tidy last [] = refl
dashed-is_tidy last (c ∷ s) = ground (arith, dashed-is_tidy false s, dashed-is_tidy true s)

letters_gap : (b : Bool) (s : Text) → letters (if not b then b'-' ∷ s else s) ≡ letters s
unfolding letters is_alphanumeric
letters_gap false s = refl
letters_gap true s = refl

letters-dashed : (last : Bool) (s : Text) → letters (dashed last s) ≡ letters s
unfolding letters dashed
letters-dashed last [] = refl
letters-dashed last (c ∷ s) = elim (Bool-cases (is_alphanumeric c)) [
  | inl h ↦ rw h (rw h (ap (◌∷◌ c) (letters-dashed false s)))
  | inr h ↦ rw h (letters_gap last (dashed true s) ∙ letters-dashed true s)
]

letters-trim_left_dash : (s : Text) → letters (trim_left_dash s) ≡ letters s
unfolding letters trim_left_dash
letters-trim_left_dash [] = refl
letters-trim_left_dash (c ∷ s) = elim (Bool-cases (nat_beq c b'-')) [
  | inl h ↦ rw (h, dash_is_no_letter c h) (letters-trim_left_dash s)
  | inr h ↦ rw h refl
]

trim_left_dash-is_tidy :
    (last : Bool) (s : Text) → is_tidy last s ≡ true → is_tidy true (trim_left_dash s) ≡ true
unfolding is_tidy trim_left_dash
trim_left_dash-is_tidy last [] h = refl
trim_left_dash-is_tidy last (c ∷ s) h = elim (Bool-cases (nat_beq c b'-')) [
  | inl dash ↦
      rw dash (trim_left_dash-is_tidy true s (ground (arith, h, dash, dash_is_no_letter c dash)))
  | inr other ↦ rw other (ground (arith, h, other))
]

is_empty-letters : (s : Text) → is_empty s ≡ true → letters s ≡ []
unfolding letters
is_empty-letters [] h = refl
is_empty-letters (c ∷ s) h = absurd (ground (arith, h))

letters-trim_right_dash : (s : Text) → letters (trim_right_dash s) ≡ letters s
unfolding letters trim_right_dash
letters-trim_right_dash [] = refl
letters-trim_right_dash (c ∷ s) = elim (Bool-cases (nat_beq c b'-')) [
  | inl dash ↦ elim (Bool-cases (is_empty (trim_right_dash s))) [
    | inl gone ↦
        rw (dash, gone, dash_is_no_letter c dash)
          (sym (is_empty-letters _ gone) ∙ letters-trim_right_dash s)
    | inr left ↦ rw (dash, left, dash_is_no_letter c dash) (letters-trim_right_dash s)
  ]
  | inr other ↦ rw other (rw (letters-trim_right_dash s) refl)
]

not_gone :
    (b : Bool) (t : Text)
    → is_empty t ≡ false
    → is_empty t ≡ true ⊎ is_slug b t ≡ true
    → is_slug b t ≡ true
not_gone b t left (inl gone) = absurd (ground (arith, left, gone))
not_gone b t left (inr ok) = ok

gone-is_slug : (t : Text) → is_empty t ≡ true ⊎ is_slug false t ≡ true → is_slug false t ≡ true
unfolding is_slug
gone-is_slug [] _ = refl
gone-is_slug (c ∷ s) (inl gone) = absurd (ground (arith, gone))
gone-is_slug (c ∷ s) (inr ok) = ok

trim_right_dash-is_slug :
    (last : Bool) (s : Text)
    → is_tidy last s ≡ true
    → is_empty (trim_right_dash s) ≡ true ⊎ is_slug last (trim_right_dash s) ≡ true
unfolding is_tidy is_slug trim_right_dash
trim_right_dash-is_slug last [] h = inl refl
trim_right_dash-is_slug last (c ∷ s) h = elim (Bool-cases (nat_beq c b'-')) [
  | inl dash ↦ elim (Bool-cases (is_empty (trim_right_dash s))) [
    | inl gone ↦ rw (dash, gone) (inl refl)
    | inr left ↦
        rw (dash, left)
          (inr (
            ground (
              arith,
              h,
              dash,
              dash_is_no_letter c dash,
              not_gone _ _ left (
                  trim_right_dash-is_slug true s
                    (ground (arith, h, dash, dash_is_no_letter c dash))),
            )))
  ]
  | inr other ↦ rw other (
      inr (
        ground (
          arith,
          h,
          other,
          gone-is_slug _ (trim_right_dash-is_slug false s (ground (arith, h, other))),
        )))
]

-- A text with a letter is not empty.
letters-is_empty : (s : Text) → is_empty (letters s) ≡ false → is_empty s ≡ false
unfolding letters
letters-is_empty [] h = h
letters-is_empty (c ∷ s) h = refl

-- When the lower-cased, trimmed name has an ASCII letter or digit, its slug starts and ends with a letter
-- or digit, has single dashes between them and nothing else, and keeps the name's letters and digits in
-- their order.
pub slugify_workspace_name-is_slug :
    (to_lower : Text → Text) (name fallback : Text)
    → is_empty (letters (to_lower (trim_space name))) ≡ false
    → is_slug true (slugify_workspace_name to_lower name fallback) ≡ true
      × letters (slugify_workspace_name to_lower name fallback)
        ≡ letters (to_lower (trim_space name))
unfolding slugify_workspace_name
slugify_workspace_name-is_slug to_lower name fallback some_letter =
    let lowered = to_lower (trim_space name) in
    let same =
      letters-trim_right_dash (trim_left_dash (dashed false lowered))
      ∙ (letters-trim_left_dash (dashed false lowered) ∙ letters-dashed false lowered) in
    let left = letters-is_empty _ (ap is_empty same ∙ some_letter) in
    rw left (
      not_gone true _ left (
          trim_right_dash-is_slug true _
            (trim_left_dash-is_tidy false _ (dashed-is_tidy false lowered))),
      same,
    )
