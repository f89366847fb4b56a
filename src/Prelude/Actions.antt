-- ===== src/Prelude/Actions.antt =====
-- Methods that change a store and may fail: what was stored before an error stays stored.
use mathlib.Core.Path.{◌≡◌, refl, sym, ap, ◌∙◌}
use mathlib.Core.Bool.{Bool}
use mathlib.Core.Option.{Option, none, some}
use native.Mathlib.Omega.{arith}
use mission.Prelude.Tests.{if◌then◌else◌}

pub data Result (E A : Type 0) : Type 0 where
  ok : A → Result E A
  err : E → Result E A

-- What a store answers; `missing` is repository.ErrNotFound.
pub data Found (A : Type 0) : Type 0 where
  found : A → Found A
  missing failed : Found A

abbrev pub Action : Type 0 → Type 0 → Type 0 → Type 0
Action S E A = S → Result E A × S

module _ {S E : Type 0} where
  infixl 5 ◌>>=◌ ◌>>◌
  unfoldable pub ◌>>=◌ : {A B : Type 0} → Action S E A → (A → Action S E B) → Action S E B
  ◌>>=◌ m f w = let (r, w') = m w in elim r [ ok a ↦ f a w' | err e ↦ (err e, w') ]

  abbrev pub ◌>>◌ : {A B : Type 0} → Action S E A → Action S E B → Action S E B
  m >> k = m >>= λ _. k

  abbrev pub raise_if : Bool → E → Action S E (Unit {0})
  raise_if c e w = (if c then err e else ok tt, w)

  module _ {A : Type 0} where
    abbrev pub pure : A → Action S E A
    pure a w = (ok a, w)

    abbrev pub raise : E → Action S E A
    raise e w = (err e, w)

    abbrev pub or_raise : E → Option A → Action S E A
    or_raise e none = raise e
    or_raise e (some a) = pure a

    abbrev pub of_found : E → E → Found A → Action S E A
    of_found e other (found a) = pure a
    of_found e other missing = raise e
    of_found e other failed = raise other

  module _ {A B : Type 0} (m : Action S E A) (f : A → Action S E B) (w : S) where
    pub bind-ok : (a : A) (w' : S) → m w ≡ (ok a, w') → (m >>= f) w ≡ f a w'
    unfolding ◌>>=◌
    bind-ok a w' h =
        ap
          (λ (p : Result E A × S). elim p.0 as (λ _. Result E B × S) [
            | ok x ↦ f x p.1
            | err e ↦ (err e, p.1)
          ])
          h

    pub bind-err : (e : E) (w' : S) → m w ≡ (err e, w') → (m >>= f) w ≡ (err e, w')
    unfolding ◌>>=◌
    bind-err e w' h =
        ap
          (λ (p : Result E A × S). elim p.0 as (λ _. Result E B × S) [
            | ok x ↦ f x p.1
            | err e ↦ (err e, p.1)
          ])
          h

  -- How a first step ends.
  pub data Ends {A : Type 0} (p : Result E A × S) : Type 0 where
    ends_ok : (a : A) (w : S) → p ≡ (ok a, w) → Ends p
    ends_err : (e : E) (w : S) → p ≡ (err e, w) → Ends p

  pub ending : {A : Type 0} (p : Result E A × S) → Ends p
  ending (ok a, w) = ends_ok a w refl
  ending (err e, w) = ends_err e w refl

  -- A success of two steps is a success of each.
  pub bind_gives :
      {A B : Type 0} (m : Action S E A) (f : A → Action S E B) (w : S) (b : B) (w'' : S)
      → (m >>= f) w ≡ (ok b, w'')
      → (a : A) × (w' : S) × (m w ≡ (ok a, w')) × (f a w' ≡ (ok b, w''))
  bind_gives m f w b w'' h = elim (ending (m w)) [
    | ends_ok a w' e ↦ (a, w', e, sym (bind-ok m f w a w' e) ∙ h)
    | ends_err e w' k ↦ absurd (ground (arith, sym (bind-err m f w e w' k) ∙ h))
  ]
