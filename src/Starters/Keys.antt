-- ===== src/Starters/Keys.antt =====
-- The keys of a map as a list without repetitions, for the sets of names that
-- internal/controlplane/controller/starter_questions_validator.go counts.
use mission.Prelude.{
  ℕ, suc, ◌≤◌, ◌≡◌, refl, sym, ap, subst, ◌∙◌, ◌↔◌, arith, inl, inr, Bool-cases, true, false, List,
  [], ◌∷◌, length, In, Distinct, text_beq, ◌⊎◌,
}
use mission.Prelude.Text.{Text}
use mission.Prelude.Equality.{text_beq_iff}
use mission.Starters.{has_key, add_key}

pub has_key-In : (x : Text) (keys : List Text) → has_key x keys ≡ true → In x keys
unfolding has_key
has_key-In x [] h = absurd (ground (arith, h))
has_key-In x (y ∷ ys) h = elim (Bool-cases (text_beq x y)) [
  | inl e ↦ inl ((text_beq_iff x y).0 e)
  | inr e ↦ inr (has_key-In x ys (ground (arith, h, e)))
]

pub In-has_key : (x : Text) (keys : List Text) → In x keys → has_key x keys ≡ true
unfolding has_key
In-has_key x (y ∷ ys) (inl e) = rw ((text_beq_iff x y).1 e) refl
In-has_key x (y ∷ ys) (inr i) = ground (arith, In-has_key x ys i)
In-has_key x [] i = elim i [ ]

pub not-has_key : (x : Text) (keys : List Text) → has_key x keys ≡ false → ¬ In x keys
not-has_key x keys h i = absurd (ground (arith, h, In-has_key x keys i))

-- What is a key after another was put in.
pub In-add_key : (y x : Text) (keys : List Text) → In y (add_key x keys) → (y ≡ x) ⊎ In y keys
unfolding add_key
In-add_key y x keys i = elim (Bool-cases (has_key x keys)) [
  | inl h ↦ inr (rw h at i)
  | inr h ↦ rw h at i
]

pub add_key-In : (y x : Text) (keys : List Text) → (y ≡ x) ⊎ In y keys → In y (add_key x keys)
unfolding add_key
add_key-In y x keys i = elim (Bool-cases (has_key x keys)) [
  | inl h ↦
      rw h (elim i [ inl e ↦ subst (λ z. In z keys) (sym e) (has_key-In x keys h) | inr j ↦ j ])
  | inr h ↦ rw h i
]

pub add_key-Distinct : (x : Text) (keys : List Text) → Distinct keys → Distinct (add_key x keys)
unfolding add_key
add_key-Distinct x keys d = elim (Bool-cases (has_key x keys)) [
  | inl h ↦ rw h d
  | inr h ↦ rw h (not-has_key x keys h, d)
]

-- A list without one entry.
record Without (x : Text) (keys : List Text) : Type 0 where
  rest : List Text
  size : length keys ≡ suc (length rest)
  keeps : (y : Text) → In y keys → ¬ (y ≡ x) → In y rest

without : (x : Text) (keys : List Text) → In x keys → Without x keys
without x (y ∷ ys) (inl e) = record {
  rest = ys;
  size = refl;
  keeps = λ z i n. elim i [ inl e' ↦ absurd (n (e' ∙ sym e)) | inr j ↦ j ];
}
without x (y ∷ ys) (inr i) =
    let w = without x ys i in
    record {
      rest = y ∷ w.rest;
      size = ap suc w.size;
      keeps = λ z j n. elim j [ inl e ↦ inl e | inr k ↦ inr (w.keeps z k n) ];
    }
without x [] i = elim i [ ]

-- Different entries are not more than the list that holds them has.
pub Distinct-le :
    (xs ys : List Text) → Distinct xs → ((y : Text) → In y xs → In y ys) → length xs ≤ length ys
Distinct-le [] ys d h = omega arith
Distinct-le (x ∷ xs) ys d h =
    let w = without x ys (h x (inl refl)) in
    omega (
      arith,
      w.size,
      Distinct-le xs w.rest d.1
          (λ y i. w.keeps y (h y (inr i)) (λ e. d.0 (subst (λ z. In z xs) e i))),
    )

-- As many different entries as a list has are all that it has.
pub Distinct_all :
    (xs ys : List Text)
    → Distinct xs
    → ((y : Text) → In y xs → In y ys)
    → length ys ≤ length xs
    → (y : Text) → In y ys
    → In y xs
Distinct_all xs ys d h few y i = elim (Bool-cases (has_key y xs)) [
  | inl k ↦ has_key-In y xs k
  | inr k ↦ absurd (
      omega (
        arith,
        few,
        Distinct-le (y ∷ xs) ys (not-has_key y xs k, d)
            (λ z j. elim j [ inl e ↦ subst (λ x. In x ys) (sym e) i | inr l ↦ h z l ]),
      ))
]

-- Putting keys in one by one.
unfoldable pub add_keys : List Text → List Text → List Text
add_keys [] keys = keys
add_keys (x ∷ xs) keys = add_keys xs (add_key x keys)

pub add_keys-Distinct : (xs keys : List Text) → Distinct keys → Distinct (add_keys xs keys)
unfolding add_keys
add_keys-Distinct [] keys d = d
add_keys-Distinct (x ∷ xs) keys d =
    add_keys-Distinct xs (add_key x keys) (add_key-Distinct x keys d)

pub In-add_keys : (y : Text) (xs keys : List Text) → In y (add_keys xs keys) → In y xs ⊎ In y keys
unfolding add_keys
In-add_keys y [] keys i = inr i
In-add_keys y (x ∷ xs) keys i = elim (In-add_keys y xs (add_key x keys) i) [
  | inl j ↦ inl (inr j)
  | inr j ↦ elim (In-add_key y x keys j) [ inl e ↦ inl (inl e) | inr k ↦ inr k ]
]

pub add_keys-In : (y : Text) (xs keys : List Text) → In y xs ⊎ In y keys → In y (add_keys xs keys)
unfolding add_keys
add_keys-In y [] keys (inr i) = i
add_keys-In y [] keys (inl i) = elim i [ ]
add_keys-In y (x ∷ xs) keys (inl (inl e)) =
    add_keys-In y xs (add_key x keys) (inr (add_key-In y x keys (inl e)))
add_keys-In y (x ∷ xs) keys (inl (inr i)) = add_keys-In y xs (add_key x keys) (inl i)
add_keys-In y (x ∷ xs) keys (inr i) =
    add_keys-In y xs (add_key x keys) (inr (add_key-In y x keys (inr i)))

-- The list has so many different entries.
pub record HasDistinct (n : ℕ) (xs : List Text) : Type 0 where
  pub some_of : List Text
  pub distinct : Distinct some_of
  pub within : (y : Text) → In y some_of → In y xs
  pub enough : n ≤ length some_of

pub HasDistinct_lem : (n : ℕ) (xs : List Text) → n ≤ length (add_keys xs []) ↔ HasDistinct n xs
HasDistinct_lem n xs = (
  λ h. record {
    some_of = add_keys xs [];
    distinct = add_keys-Distinct xs [] tt;
    within = λ y i. elim (In-add_keys y xs [] i) [ inl j ↦ j | inr j ↦ elim j [ ] ];
    enough = h;
  },
  λ d. omega (
    arith,
    d.enough,
    Distinct-le d.some_of (add_keys xs []) d.distinct
        (λ y i. add_keys-In y xs [] (inl (d.within y i))),
  ),
)
