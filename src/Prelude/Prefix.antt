-- ===== src/Prelude/Prefix.antt =====
-- Texts that begin with another.
use mathlib.Core.Path.{◌≡◌, refl, ap, ◌∙◌}
use mathlib.Core.Bool.{true}
use mathlib.Core.List.{[], ◌∷◌, ◌++◌}
use native.Mathlib.Omega.{arith}
use mission.Prelude.Text.{Text, has_prefix}

pub has_prefix-append : (p s : Text) → has_prefix (p ++ s) p ≡ true
unfolding has_prefix
has_prefix-append [] s = refl
has_prefix-append (c ∷ p) s = ground (arith, has_prefix-append p s)

pub prefix_rest : (s p : Text) → has_prefix s p ≡ true → (r : Text) × (s ≡ p ++ r)
unfolding has_prefix
prefix_rest s [] h = (s, refl)
prefix_rest [] (p ∷ ps) h = absurd (ground (arith, h))
prefix_rest (c ∷ s) (p ∷ ps) h =
    let same : c ≡ p = ground (arith, h) in
    let (r, e) = prefix_rest s ps (ground (arith, h)) in (r, ap (λ x. x ∷ s) same ∙ ap (◌∷◌ p) e)
