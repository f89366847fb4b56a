-- ===== src/SqlGuard/Result.antt =====
-- `Result`, `deny` and `uniqueConstructs` of internal/sqlguard/sqlguard.go.
use mission.Prelude.{
  ◌≡◌, ◌≢◌, ◌⊎◌, ◌↔◌, inl, inr, sym, ◌∙◌, Bool, true, false, List, [], ◌∷◌, ◌++◌, String, In,
  Distinct, Distinct-concat, In-append, In-append_left, In-append_right, Bool-cases, if◌then◌else◌,
  ◌==◌, string_test, ne_of_beq, ◌||◌,
}
use mission.Prelude.Text.{Text}
use text.Mathlib.TextEquality.{eq_iff}

pub record Result : Type 0 where
  pub ok : Bool
  pub rewritten_sql : Text
  pub reason : String
  pub blocked_constructs : List String
  pub limit_injected : Bool

-- The map `seen` holds the items of `out`.
unfoldable pub is_seen : String → List String → Bool
is_seen item [] = false
is_seen item (x ∷ xs) = item == x || is_seen item xs

unique_onto : List String → List String → List String
unfolding is_seen
unique_onto out [] = out
unique_onto out (item ∷ rest) =
    unique_onto (if item == "" then out else if is_seen item out then out else out ++ item ∷ [])
      rest

unfoldable pub unique_constructs : List String → List String
unfolding unique_onto
unique_constructs items = unique_onto [] items

unfoldable pub deny : String → String → Result
unfolding unique_constructs
deny reason construct = record {
  ok = false;
  rewritten_sql = [];
  reason = reason;
  blocked_constructs = unique_constructs (construct ∷ []);
  limit_injected = false;
}

is_seen_iff : (x : String) (xs : List String) → (is_seen x xs ≡ true) ↔ In x xs
unfolding is_seen
is_seen_iff x [] = (λ e. cc, λ i. elim i [ ])
is_seen_iff x (y ∷ ys) = elim (Bool-cases (x == y)) [
  | inl same ↦ (λ _. inl ((eq_iff x y).0 same), λ _. rw same)
  | inr other ↦ rw other (
    λ e. inr ((is_seen_iff x ys).0 e),
    λ i. elim i [ inl e ↦ absurd (ne_of_beq x y other e) | inr j ↦ (is_seen_iff x ys).1 j ],
  )
]

-- What `uniqueConstructs` has done so far, and will do.
abbrev Unique : List String → List String → List String → Type 0
Unique out items result =
    Distinct result
    × (¬ In "" result)
    × ((x : String) → In x result ↔ (In x out ⊎ (In x items × (x ≢ ""))))

Unique-skip :
    (out rest result : List String) (item : String)
    → (item ≢ "" → In item out)
    → Unique out rest result
    → Unique out (item ∷ rest) result
Unique-skip out rest result item known (d, e, m) = (
  d,
  e,
  λ x. (
    λ i. elim ((m x).0 i) [ inl a ↦ inl a | inr b ↦ inr (inr b.0, b.1) ],
    λ i. elim i [
      | inl a ↦ (m x).1 (inl a)
      | inr b ↦ elim b.0 [
        | inl h ↦ (m x).1 (inl (rw h (known (λ z. b.1 (h ∙ z)))))
        | inr j ↦ (m x).1 (inr (j, b.1))
      ]
    ],
  ),
)

Unique-add :
    (out rest result : List String) (item : String)
    → item ≢ ""
    → Unique (out ++ item ∷ []) rest result
    → Unique out (item ∷ rest) result
Unique-add out rest result item ne (d, e, m) = (
  d,
  e,
  λ x. (
    λ i. elim ((m x).0 i) [
      | inl a ↦ elim (In-append x out (item ∷ []) a) [
        | inl b ↦ inl b
        | inr b ↦ elim b [ inl h ↦ inr (inl h, λ z. ne (sym h ∙ z)) | inr z ↦ elim z [ ] ]
      ]
      | inr b ↦ inr (inr b.0, b.1)
    ],
    λ i. elim i [
      | inl a ↦ (m x).1 (inl (In-append_left x out (item ∷ []) a))
      | inr b ↦ elim b.0 [
        | inl h ↦ (m x).1 (inl (In-append_right x out (item ∷ []) (inl h)))
        | inr j ↦ (m x).1 (inr (j, b.1))
      ]
    ],
  ),
)

unique_onto-Unique :
    (items out : List String)
    → Distinct out
    → ¬ In "" out
    → Unique out items (unique_onto out items)
unfolding unique_onto
unique_onto-Unique [] out d e =
    (d, e, λ x. (λ i. inl i, λ i. elim i [ inl a ↦ a | inr b ↦ elim b.0 [ ] ]))
unique_onto-Unique (item ∷ rest) out d e = elim (Bool-cases (item == "")) [
  | inl blank ↦ rw blank (
      Unique-skip out rest _ item (λ n. absurd (n ((eq_iff item "").0 blank)))
        (unique_onto-Unique rest out d e))
  | inr given ↦ elim (Bool-cases (is_seen item out)) [
    | inl seen ↦
        rw (given, seen)
          (Unique-skip out rest _ item (λ n. (is_seen_iff item out).0 seen)
            (unique_onto-Unique rest out d e))
    | inr fresh ↦
        rw (given, fresh)
          (Unique-add out rest _ item (ne_of_beq item "" given) (
            unique_onto-Unique rest (out ++ item ∷ [])
              (Distinct-concat out item d (λ i. cc ((is_seen_iff item out).1 i, fresh)))
              (λ i. elim (In-append "" out (item ∷ []) i) [
                | inl a ↦ e a
                | inr b ↦ elim b [ inl h ↦ ne_of_beq item "" given (sym h) | inr z ↦ z ]
              ])))
  ]
]

-- `uniqueConstructs` gives a list that holds each item once, and exactly the items that are not
-- empty.
pub unique_constructs_lem :
    (items : List String)
    → Distinct (unique_constructs items)
      × ((x : String) → In x (unique_constructs items) ↔ (In x items × (x ≢ "")))
unfolding unique_constructs
unique_constructs_lem items =
    let (d, e, m) = unique_onto-Unique items [] tt (λ i. i) in
    (d, λ x. (λ i. elim ((m x).0 i) [ inl a ↦ elim a [ ] | inr b ↦ b ], λ i. (m x).1 (inr i)))
