-- ===== src/Grants/Parse.antt =====
-- How `ValidateGrants` of internal/edgeagent/gateway/mysql/mysql.go takes a grant apart.
use mission.Prelude.{
  ◌≡◌, refl, sym, ap, ◌∙◌, arith, Bool-cases, inl, inr, true, false, some, some_inj, Option-cases,
  List, [], ◌∷◌, ◌++◌, append_assoc, append-nil, nat_beq,
}
use mission.Prelude.Text.{Text, has_prefix, contains}
use mission.Prelude.Prefix.{has_prefix-append, prefix_rest}
use mission.Grants.Check.{split_onto, before, behind}

-- The pieces with commas between them.
unfoldable pub listing : List Text → Text
listing [] = []
listing (p ∷ []) = p
listing (p ∷ q ∷ qs) = p ++ b',' ∷ listing (q ∷ qs)

-- The mark stands in the text.
pub record Occurs (mark s : Text) : Type 0 where
  pub left : Text
  pub right : Text
  pub split : s ≡ left ++ (mark ++ right)

contains-append : (l m r : Text) → contains (l ++ (m ++ r)) m ≡ true
unfolding contains
contains-append [] [] [] = refl
contains-append [] [] (c ∷ r) = refl
contains-append [] (c ∷ m) r = rw (has_prefix-append (c ∷ m) r) refl
contains-append (c ∷ l) m r = ground (arith, contains-append l m r)

pub contains-not_Occurs : (mark s : Text) → contains s mark ≡ false → ¬ Occurs mark s
contains-not_Occurs mark s h o = absurd (
    ground
      (arith, sym (ap (λ x. contains x mark) o.split) ∙ h, contains-append o.left mark o.right))

pub before_cut : (mark s u : Text) → before mark s ≡ some u → (r : Text) × (s ≡ u ++ (mark ++ r))
unfolding before
before_cut mark [] u h = elim (Bool-cases (has_prefix [] mark)) [
  | inl p ↦
      let empty : [] ≡ u = some_inj (ground (arith, h, p)) in
      let (r, e) = prefix_rest [] mark p in (r, e ∙ ap (λ x. x ++ (mark ++ r)) empty)
  | inr p ↦ absurd (ground (arith, h, p))
]
before_cut mark (c ∷ s) u h = elim (Bool-cases (has_prefix (c ∷ s) mark)) [
  | inl p ↦
      let empty : [] ≡ u = some_inj (ground (arith, h, p)) in
      let (r, e) = prefix_rest (c ∷ s) mark p in (r, e ∙ ap (λ x. x ++ (mark ++ r)) empty)
  | inr p ↦ elim (Option-cases (before mark s)) [
    | inl n ↦ absurd (ground (arith, h, p, n))
    | inr (b, e) ↦
        let longer : c ∷ b ≡ u = some_inj (ground (arith, h, p, e)) in
        let (r, cut) = before_cut mark s b e in
        (r, ap (◌∷◌ c) cut ∙ ap (λ x. x ++ (mark ++ r)) longer)
  ]
]

pub behind_cut : (p u r l : Text) → behind p u ≡ some l → has_prefix (u ++ r) p ≡ true → u ≡ p ++ l
unfolding behind has_prefix
behind_cut [] u r l h k = some_inj h
behind_cut (p ∷ ps) [] r l h k = absurd (ground (arith, h))
behind_cut (p ∷ ps) (c ∷ u) r l h k =
    let same : c ≡ p = ground (arith, k) in
    ap (λ x. x ∷ u) same ∙ ap (◌∷◌ p) (behind_cut ps u r l h (ground (arith, k)))

split_onto-cons : (piece s : Text) → (p : Text) × ((ps : List Text) × (split_onto piece s ≡ p ∷ ps))
unfolding split_onto
split_onto-cons piece [] = (piece, ([], refl))
split_onto-cons piece (c ∷ s) = elim (Bool-cases (nat_beq c b',')) [
  | inl h ↦ (piece, (split_onto [] s, rw h refl))
  | inr h ↦ let (p, (ps, e)) = split_onto-cons (piece ++ c ∷ []) s in (p, (ps, rw h e))
]

listing-more :
    (p : Text) (s : Text) → listing (p ∷ split_onto [] s) ≡ p ++ b',' ∷ listing (split_onto [] s)
unfolding listing
listing-more p s = let (q, (qs, e)) = split_onto-cons [] s in rw e refl

pub listing-split_onto : (piece s : Text) → listing (split_onto piece s) ≡ piece ++ s
unfolding split_onto listing
listing-split_onto piece [] = sym (append-nil piece)
listing-split_onto piece (c ∷ s) = elim (Bool-cases (nat_beq c b',')) [
  | inl h ↦
      let comma : c ≡ b',' = ground (arith, h) in
      rw h (
        listing-more piece s
        ∙ (ap (λ x. piece ++ b',' ∷ x) (listing-split_onto [] s)
            ∙ ap (λ x. piece ++ x ∷ s) (sym comma)))
  | inr h ↦ rw h (listing-split_onto (piece ++ c ∷ []) s ∙ append_assoc piece (c ∷ []) s)
]

pub split_onto-full : (piece s : Text) → ¬ (split_onto piece s ≡ [])
split_onto-full piece s h =
    let (p, (ps, e)) = split_onto-cons piece s in absurd (ground (arith, sym e ∙ h))
