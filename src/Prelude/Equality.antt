-- ===== src/Prelude/Equality.antt =====
-- Equality tests as an interface, so that one operator compares numbers, texts and native strings.
use Prim.Native.Nat.{ℕ, compare, Ordering}
use Prim.Native.String.{String}
use text.Mathlib.Text
use text.Mathlib.TextEquality
use mathlib.Core.Path.{◌≡◌, refl}
use mathlib.Core.Logic.{◌↔◌}
use mathlib.Core.Bool.{Bool, true, false, ◌&&◌}
use mathlib.Core.List.{List, [], ◌∷◌}
use native.Mathlib.Omega.{arith}

-- A Boolean test that tells exactly which values are equal.
pub record EqTest {ℓ} (K : Type ℓ) : Type ℓ where
  pub same : K → K → Bool
  pub same_iff : (k l : K) → (same k l ≡ true) ↔ (k ≡ l)

abbrev pub nat_beq : ℕ → ℕ → Bool
nat_beq m n = elim (compare m n) [ Ordering.eq ↦ true | _ ↦ false ]

pub nat_beq_iff : (m n : ℕ) → (nat_beq m n ≡ true) ↔ (m ≡ n)
nat_beq_iff m n = ground arith

unfoldable pub text_beq : List ℕ → List ℕ → Bool
text_beq [] [] = true
text_beq (c ∷ s) (d ∷ t) = nat_beq c d && text_beq s t
text_beq _ _ = false

pub text_beq_iff : (s t : List ℕ) → (text_beq s t ≡ true) ↔ (s ≡ t)
unfolding text_beq
text_beq_iff (c ∷ s) (d ∷ t) = ground (arith, text_beq_iff s t)
text_beq_iff _ _ = ground arith

instance abbrev pub text_test : EqTest (List ℕ)
text_test = record { same = text_beq; same_iff = text_beq_iff }

instance abbrev pub nat_test : EqTest ℕ
nat_test = record { same = nat_beq; same_iff = nat_beq_iff }

instance abbrev pub string_test : EqTest String
string_test = record { same = Text.◌==◌; same_iff = TextEquality.eq_iff }

module _ {ℓ} {K : Type ℓ} ⦃test : EqTest K⦄ where
  infix 50 ◌==◌
  abbrev pub ◌==◌ : K → K → Bool
  k == l = test.same k l

  pub beq_self : (k : K) → (k == k) ≡ true
  beq_self k = (test.same_iff k k).1 refl

  pub ne_of_beq : (k l : K) → (k == l) ≡ false → ¬ (k ≡ l)
  ne_of_beq k l f h = cc ((test.same_iff k l).1 h)

  pub beq_of_ne : (k l : K) → ¬ (k ≡ l) → (k == l) ≡ false
  beq_of_ne k l n = ground (arith, test.same_iff k l)
