-- ===== src/Prelude/Dict.antt =====
-- Go's maps, as association lists. `range` over a map runs through the list; its order is one of
-- those that Go may choose.
use mathlib.Core.Path.{◌≡◌}
use mathlib.Core.Logic.{◌⊎◌}
use mathlib.Core.Bool.{false}
use mathlib.Core.Option.{Option, none, some}
use mathlib.Core.List.{List, [], ◌∷◌}
use native.Mathlib.Omega.{arith}
use mission.Prelude.Tests.{if◌then◌else◌}
use mission.Prelude.Equality.{EqTest, ◌==◌}

abbrev pub Dict {ℓ κ} : Type ℓ → Type κ → Type (ℓ ⊔ κ)
Dict K V = List (K × V)

module _ {ℓ κ} {K : Type ℓ} {V : Type κ} ⦃test : EqTest K⦄ where
  unfoldable pub lookup : K → Dict K V → Option V
  lookup key [] = none
  lookup key ((here, value) ∷ rest) = if here == key then some value else lookup key rest

  -- Go's `delete(m, key)`.
  unfoldable pub delete : K → Dict K V → Dict K V
  delete key [] = []
  delete key ((here, value) ∷ rest) =
      if here == key then delete key rest else (here, value) ∷ delete key rest

  -- Go's `m[key] = value`.
  unfoldable pub insert : K → V → Dict K V → Dict K V
  unfolding delete
  insert key value dict = (key, value) ∷ delete key dict

  pub lookup-delete :
      (gone key : K) (dict : Dict K V)
      → lookup key (delete gone dict) ≡ (if gone == key then none else lookup key dict)
  unfolding lookup delete
  lookup-delete gone key [] = ground arith
  lookup-delete gone key ((here, value) ∷ rest) = ground (
    arith,
    test.same_iff gone key,
    test.same_iff here gone,
    test.same_iff here key,
    lookup-delete gone key rest,
  )

  pub lookup-insert :
      (new key : K) (value : V) (dict : Dict K V)
      → lookup key (insert new value dict) ≡ (if new == key then some value else lookup key dict)
  unfolding lookup insert
  lookup-insert new key value dict = ground (arith, lookup-delete new key dict)

  pub lookup-delete-some :
      (gone key : K) (value : V) (dict : Dict K V)
      → lookup key (delete gone dict) ≡ some value
      → lookup key dict ≡ some value
  lookup-delete-some gone key value dict h = ground (arith, lookup-delete gone key dict)

  -- An entry after an insertion is the new one or an old one under another key.
  pub lookup-insert-some :
      (new key : K) (value old : V) (dict : Dict K V)
      → lookup key (insert new value dict) ≡ some old
      → ((new ≡ key) × (value ≡ old)) ⊎ (((new == key) ≡ false) × (lookup key dict ≡ some old))
  lookup-insert-some new key value old dict h =
      ground (arith, lookup-insert new key value dict, test.same_iff new key)

  pub lookup-insert_same :
      (key : K) (value : V) (dict : Dict K V) → lookup key (insert key value dict) ≡ some value
  lookup-insert_same key value dict =
      ground (arith, lookup-insert key key value dict, test.same_iff key key)

  pub lookup-insert_other :
      (new key : K) (value : V) (dict : Dict K V)
      → (new == key) ≡ false
      → lookup key (insert new value dict) ≡ lookup key dict
  lookup-insert_other new key value dict h = ground (arith, lookup-insert new key value dict)
