-- ===== src/Prelude/Trim.antt =====
-- What Go's `strings.TrimSpace` cuts off.
use mathlib.Core.Path.{◌≡◌, refl, sym, ap, ◌∙◌, subst}
use mathlib.Core.Logic.{inl, inr}
use mathlib.Core.Bool.{true, false, ◌&&◌}
use mathlib.Core.List.{[], ◌∷◌, ◌++◌}
use Prim.Native.Nat.{ℕ}
use native.Mathlib.Omega.{arith}
use mission.Prelude.Tests.{Bool-cases}
use mission.Prelude.Lists.{All}
use mission.Prelude.Text.{Text, is_empty, is_space, trim_left, trim_right, trim_space}

-- A text of white space.
abbrev pub Blank : Text → Type 0
Blank s = All (λ c. is_space c ≡ true) s

-- A text that is not empty and neither begins nor ends with white space.
pub record IsSolid (t : Text) : Type 0 where
  pub head : ℕ
  pub behind_head : Text
  pub begins : t ≡ head ∷ behind_head
  pub head_seen : is_space head ≡ false
  pub end : ℕ
  pub before_end : Text
  pub ends : t ≡ before_end ++ end ∷ []
  pub end_seen : is_space end ≡ false

trim_left_cut : (s : Text) → (pad : Text) × (Blank pad × (s ≡ pad ++ trim_left s))
unfolding trim_left
trim_left_cut [] = ([], (tt, refl))
trim_left_cut (c ∷ s) = elim (Bool-cases (is_space c)) [
  | inl h ↦ let (p, (b, e)) = trim_left_cut s in (c ∷ p, ((h, b), rw h (ap (◌∷◌ c) e)))
  | inr h ↦ ([], (tt, rw h refl))
]

is_empty-nil : (s : Text) → is_empty s ≡ true → s ≡ []
is_empty-nil [] h = refl
is_empty-nil (c ∷ s) h = absurd (ground (arith, h))

trim_right_cut : (s : Text) → (pad : Text) × (Blank pad × (s ≡ trim_right s ++ pad))
unfolding trim_right
trim_right_cut [] = ([], (tt, refl))
trim_right_cut (c ∷ s) =
    let (p, (b, e)) = trim_right_cut s in
    elim (Bool-cases (is_space c && is_empty (trim_right s))) [
      | inl h ↦
          let same : s ≡ p =
            e ∙ ap (λ x. x ++ p) (is_empty-nil (trim_right s) (ground (arith, h))) in
          (c ∷ s, ((ground (arith, h), subst Blank (sym same) b), rw h refl))
      | inr h ↦ (p, (b, rw h (ap (◌∷◌ c) e)))
    ]

-- What is trimmed is the text without white space around it.
pub trim_space_cut :
    (s : Text)
    → (left : Text) × ((right : Text) × (Blank left
          × (Blank right × (s ≡ left ++ (trim_space s ++ right)))))
unfolding trim_space
trim_space_cut s =
    let (l, (bl, el)) = trim_left_cut s in
    let (r, (br, er)) = trim_right_cut (trim_left s) in
    (l, (r, (bl, (br, el ∙ ap (λ x. l ++ x) er))))

data Ends : Text → Type 0 where
  nothing : Ends []
  something : {s : Text} (u : Text) (c : ℕ) → is_space c ≡ false → s ≡ u ++ c ∷ [] → Ends s

Ends-more : (c : ℕ) (s : Text) → is_empty s ≡ false → Ends s → Ends (c ∷ s)
Ends-more c _ n nothing = absurd (ground (arith, n))
Ends-more c s n (something u d h e) = something (c ∷ u) d h (ap (◌∷◌ c) e)

trim_right-Ends : (s : Text) → Ends (trim_right s)
unfolding trim_right
trim_right-Ends [] = nothing
trim_right-Ends (c ∷ s) = elim (Bool-cases (is_empty (trim_right s))) [
  | inl e ↦ elim (Bool-cases (is_space c)) [
    | inl h ↦ rw (h, e) nothing
    | inr h ↦ rw h (something [] c h (ap (◌∷◌ c) (is_empty-nil (trim_right s) e)))
  ]
  | inr e ↦
      let h : (is_space c && is_empty (trim_right s)) ≡ false = ground (arith, e) in
      rw h (Ends-more c (trim_right s) e (trim_right-Ends s))
]

-- A text that a left trim leaves.
pub data Starts : Text → Type 0 where
  empty_start : Starts []
  start : {c : ℕ} {s : Text} → is_space c ≡ false → Starts (c ∷ s)

pub trim_left-Starts : (s : Text) → Starts (trim_left s)
unfolding trim_left
trim_left-Starts [] = empty_start
trim_left-Starts (c ∷ s) = elim (Bool-cases (is_space c)) [
  | inl h ↦ rw h (trim_left-Starts s)
  | inr h ↦ rw h (start h)
]

pub trim_right-Starts : (s : Text) → Starts s → Starts (trim_right s)
unfolding trim_right
trim_right-Starts [] empty_start = empty_start
trim_right-Starts (c ∷ s) (start h) = rw h (start h)

Starts-Ends-IsSolid : (s : Text) → is_empty s ≡ false → Starts s → Ends s → IsSolid s
Starts-Ends-IsSolid [] n st en = absurd (ground (arith, n))
Starts-Ends-IsSolid (c ∷ s) n (start h) (something u d k e) = record {
  head = c;
  behind_head = s;
  begins = refl;
  head_seen = h;
  end = d;
  before_end = u;
  ends = e;
  end_seen = k;
}

pub trim_space-IsSolid : (s : Text) → is_empty (trim_space s) ≡ false → IsSolid (trim_space s)
unfolding trim_space
trim_space-IsSolid s n =
    Starts-Ends-IsSolid (trim_right (trim_left s)) n
      (trim_right-Starts (trim_left s) (trim_left-Starts s)) (trim_right-Ends (trim_left s))

trim_left-Blank : (l s : Text) → Blank l → Starts s → trim_left (l ++ s) ≡ s
unfolding trim_left
trim_left-Blank [] _ b empty_start = refl
trim_left-Blank [] _ b (start h) = rw h refl
trim_left-Blank (c ∷ l) s b st = rw b.0 (trim_left-Blank l s b.1 st)

trim_right-Blank : (r : Text) → Blank r → trim_right r ≡ []
unfolding trim_right
trim_right-Blank [] b = refl
trim_right-Blank (c ∷ r) b = rw (b.0, trim_right-Blank r b.1) refl

is_empty-snoc : (u : Text) (c : ℕ) → is_empty (u ++ c ∷ []) ≡ false
is_empty-snoc [] c = refl
is_empty-snoc (x ∷ u) c = refl

trim_right-snoc :
    (u r : Text) (c : ℕ)
    → is_space c ≡ false
    → Blank r
    → trim_right ((u ++ c ∷ []) ++ r) ≡ u ++ c ∷ []
unfolding trim_right
trim_right-snoc [] r c h b = rw (h, trim_right-Blank r b) refl
trim_right-snoc (x ∷ u) r c h b =
    let ih = trim_right-snoc u r c h b in
    let n : (is_space x && is_empty (u ++ c ∷ [])) ≡ false = ground (arith, is_empty-snoc u c) in
    rw (ih, n) refl

Starts-append : (t r : Text) → IsSolid t → Starts (t ++ r)
Starts-append t r s = subst (λ x. Starts (x ++ r)) (sym s.begins) (start s.head_seen)

-- White space around a solid text is trimmed.
pub trim_space-around :
    (left t right : Text)
    → Blank left
    → Blank right
    → IsSolid t
    → trim_space (left ++ (t ++ right)) ≡ t
unfolding trim_space
trim_space-around left t right bl br s =
    ap trim_right (trim_left-Blank left (t ++ right) bl (Starts-append t right s))
    ∙ (ap (λ x. trim_right (x ++ right)) s.ends
        ∙ (trim_right-snoc s.before_end right s.end s.end_seen br ∙ sym s.ends))

pub IsSolid-full : (t : Text) → IsSolid t → is_empty t ≡ false
IsSolid-full t s = ap is_empty s.begins
