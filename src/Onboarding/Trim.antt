-- ===== src/Onboarding/Trim.antt =====
-- Trimming twice is trimming once.
use mission.Prelude.{◌≡◌, refl, ap, ◌∙◌, ◌&&◌, Bool-cases, inl, inr, [], ◌∷◌}
use mission.Prelude.Text.{Text, is_empty, is_space, trim_left, trim_right, trim_space}
use mission.Prelude.Trim.{Starts, empty_start, start, trim_left-Starts, trim_right-Starts}

trim_left-id : (s : Text) → Starts s → trim_left s ≡ s
unfolding trim_left
trim_left-id [] empty_start = refl
trim_left-id (c ∷ s) (start h) = rw h refl

trim_right_idem : (s : Text) → trim_right (trim_right s) ≡ trim_right s
unfolding trim_right
trim_right_idem [] = refl
trim_right_idem (c ∷ s) = elim (Bool-cases (is_space c && is_empty (trim_right s))) [
  | inl h ↦ rw h refl
  | inr h ↦ rw h (rw (trim_right_idem s) (rw h refl))
]

pub trim_space_idem : (s : Text) → trim_space (trim_space s) ≡ trim_space s
unfolding trim_space
trim_space_idem s =
    ap trim_right
      (trim_left-id (trim_right (trim_left s)) (trim_right-Starts _ (trim_left-Starts s)))
    ∙ trim_right_idem (trim_left s)
