-- ===== src/Llm/Router/Order.antt =====
-- The routers that `NewRouter` builds, and the order in which `Complete` tries their providers.
use mission.Prelude.{
  ◌≡◌, ◌≢◌, ◌⊎◌, ◌↔◌, inl, inr, refl, sym, ap, ◌∙◌, true, Option, none, some, List, [], ◌∷◌, ◌++◌,
  arith, In, Distinct, Distinct-concat, In-append, In-append_left, In-append_right, Bool-cases,
  if◌then◌else◌, ◌==◌, text_test, text_beq_iff, ne_of_beq,
}
use mission.Prelude.Text.{Text, trim_space, is_empty}
use mission.Prelude.Dict.{Dict, lookup, insert, lookup-insert}
use mission.Llm.Breaker.{new_provider_breaker}
use mission.Llm.Router.{
  Provider, Router, has, add_named, add_provider, add_providers, new_router, ordered_providers,
  others, preferred, front,
}

-- Each provider stands once in the order, under a name that is not empty, and the names in the
-- order are those that have a provider, and those that have a breaker.
pub record IsValid (r : Router) : Type 0 where
  pub distinct : Distinct r.order
  pub named : (n : Text) → In n r.order → n ≢ []
  pub provided : (n : Text) → In n r.order ↔ (has (lookup n r.providers) ≡ true)
  pub guarded : (n : Text) → In n r.order ↔ (has (lookup n r.breakers) ≡ true)

In-insert :
    {A : Type 0} (m n : Text) (xs : List Text) (v : A) (d : Dict Text A)
    → (In m xs ↔ (has (lookup m d) ≡ true))
    → (In m (xs ++ n ∷ []) ↔ (has (lookup m (insert n v d)) ≡ true))
In-insert m n xs v d h = elim (Bool-cases (n == m)) [
  | inl same ↦
      rw (lookup-insert n m v d, same)
        (λ _. refl, λ _. In-append_right m xs (n ∷ []) (inl (sym ((text_beq_iff n m).0 same))))
  | inr other ↦
      rw (lookup-insert n m v d, other)
        (
          λ i. elim (In-append m xs (n ∷ []) i) [
            | inl a ↦ h.0 a
            | inr b ↦ elim b [ inl e ↦ absurd (ne_of_beq n m other (sym e)) | inr z ↦ elim z [ ] ]
          ],
          λ e. In-append_left m xs (n ∷ []) (h.1 e),
        )
]

add_named-IsValid : (n : Text) (p : Provider) (r : Router) → IsValid r → IsValid (add_named n p r)
unfolding add_named
add_named-IsValid n p r v = elim (Bool-cases (is_empty n)) [
  | inl none_given ↦ rw none_given v
  | inr given ↦ elim (Bool-cases (has (lookup n r.providers))) [
    | inl known ↦ rw (given, known) v
    | inr fresh ↦
        rw (given, fresh)
          (record {
            distinct = Distinct-concat r.order n v.distinct (λ i. cc ((v.provided n).0 i, fresh));
            named = λ m i. elim (In-append m r.order (n ∷ []) i) [
              | inl a ↦ v.named m a
              | inr b ↦ elim b [
                | inl e ↦ rw e (λ z. cc (ap is_empty z, given))
                | inr z ↦ elim z [ ]
              ]
            ];
            provided = λ m. In-insert m n r.order p r.providers (v.provided m);
            guarded = λ m. In-insert m n r.order (new_provider_breaker n) r.breakers (v.guarded m);
          })
  ]
]

add_providers-IsValid :
    (ps : List (Option Provider)) (r : Router) → IsValid r → IsValid (add_providers ps r)
unfolding add_providers add_provider
add_providers-IsValid [] r v = v
add_providers-IsValid (none ∷ ps) r v = add_providers-IsValid ps r v
add_providers-IsValid (some p ∷ ps) r v =
    add_providers-IsValid ps (add_named (trim_space p.name) p r)
      (add_named-IsValid (trim_space p.name) p r v)

-- `NewRouter` builds a valid router from any providers, nil ones and repeated names included.
pub new_router-IsValid :
    (default : Text) (ps : List (Option Provider)) → IsValid (new_router default ps)
unfolding new_router lookup
new_router-IsValid default ps = add_providers-IsValid ps _ (record {
  distinct = tt;
  named = λ n i. elim i [ ];
  provided = λ n. (λ i. elim i [ ], λ e. cc);
  guarded = λ n. (λ i. elim i [ ], λ e. cc);
})

others-none : (ns : List Text) → others none ns ≡ ns
unfolding others
others-none [] = refl
others-none (n ∷ ns) = rw (others-none ns)

In-others : (p n : Text) (ns : List Text) → In n (others (some p) ns) ↔ (In n ns × (n ≢ p))
unfolding others
In-others p n [] = (λ i. elim i [ ], λ h. h.0)
In-others p n (m ∷ ns) = elim (Bool-cases (m == p)) [
  | inl same ↦ rw same (
    λ i. (inr ((In-others p n ns).0 i).0, ((In-others p n ns).0 i).1),
    λ h. elim h.0 [
      | inl e ↦ absurd (h.1 (e ∙ (text_beq_iff m p).0 same))
      | inr i ↦ (In-others p n ns).1 (i, h.1)
    ],
  )
  | inr other ↦ rw other (
    λ i. elim i [
      | inl e ↦ (inl e, λ z. ne_of_beq m p other (sym e ∙ z))
      | inr j ↦ (inr ((In-others p n ns).0 j).0, ((In-others p n ns).0 j).1)
    ],
    λ h. elim h.0 [ inl e ↦ inl e | inr i ↦ inr ((In-others p n ns).1 (i, h.1)) ],
  )
]

Distinct-others : (p : Text) (ns : List Text) → Distinct ns → Distinct (others (some p) ns)
unfolding others
Distinct-others p [] d = tt
Distinct-others p (m ∷ ns) d = elim (Bool-cases (m == p)) [
  | inl same ↦ rw same (Distinct-others p ns d.1)
  | inr other ↦ rw other (λ i. d.0 ((In-others p m ns).0 i).0, Distinct-others p ns d.1)
]

-- A list without an entry, the order of the rest kept.
unfoldable pub without : Text → List Text → List Text
without p [] = []
without p (n ∷ ns) = if n == p then without p ns else n ∷ without p ns

others-without : (p : Text) (ns : List Text) → others (some p) ns ≡ without p ns
unfolding others without
others-without p [] = refl
others-without p (n ∷ ns) = ground (arith, others-without p ns)

first_In :
    (d : Text) (ns : List Text) → In d ns → (n : Text) → In n (d ∷ others (some d) ns) ↔ In n ns
first_In d ns i n = (
  λ j. elim j [ inl e ↦ rw e i | inr k ↦ ((In-others d n ns).0 k).0 ],
  λ j. elim (Bool-cases (n == d)) [
    | inl same ↦ inl ((text_beq_iff n d).0 same)
    | inr other ↦ inr ((In-others d n ns).1 (j, ne_of_beq n d other))
  ],
)

preferred-cases :
    (r : Router)
    → IsValid r
    → let d = trim_space r.default_provider in
      (In d r.order × (preferred r ≡ some d)) ⊎ ((¬ In d r.order) × (preferred r ≡ none))
unfolding preferred
preferred-cases r v = go (trim_space r.default_provider) refl
  where
    go :
        (d : Text)
        → trim_space r.default_provider ≡ d
        → (In d r.order × (preferred r ≡ some d)) ⊎ ((¬ In d r.order) × (preferred r ≡ none))
    go [] e = inr (λ i. v.named [] i refl, rw (preferred, e))
    go (c ∷ cs) e = elim (Bool-cases (has (lookup (c ∷ cs) r.providers))) [
      | inl known ↦ inl ((v.provided (c ∷ cs)).1 known, rw (preferred, e, known))
      | inr unknown ↦ inr (λ i. cc ((v.provided (c ∷ cs)).0 i, unknown), rw (preferred, e, unknown))
    ]

ordered_providers-eq :
    (r : Router)
    → IsValid r
    → ordered_providers r ≡ front (preferred r) ++ others (preferred r) r.order
unfolding ordered_providers
ordered_providers-eq r v = elim (Bool-cases (is_empty r.order)) [
  | inr some_given ↦ rw some_given
  | inl none_given ↦ rw none_given (elim (preferred-cases r v) [
    | inl (i, _) ↦ absurd (not_in_empty _ r.order none_given i)
    | inr (_, e) ↦ rw (e, front, others-none) (sym (is_empty-nil r.order none_given))
  ])
]
  where
    not_in_empty : (d : Text) (ns : List Text) → is_empty ns ≡ true → ¬ In d ns
    not_in_empty d [] h i = i
    not_in_empty d (n ∷ ns) h i = cc

    is_empty-nil : (ns : List Text) → is_empty ns ≡ true → ns ≡ []
    is_empty-nil [] h = refl
    is_empty-nil (n ∷ ns) h = cc

-- The order in which `Complete` tries the providers of a valid router: each of them exactly once.
-- The trimmed default provider, where it is one of them, comes first and the others follow in the
-- order they were given in; where it is not, all are in the order they were given in.
pub ordered_providers_lem :
    (r : Router)
    → IsValid r
    → let d = trim_space r.default_provider in
      Distinct (ordered_providers r)
      × ((n : Text) → In n (ordered_providers r) ↔ In n r.order)
      × ((In d r.order × (ordered_providers r ≡ d ∷ without d r.order))
          ⊎ ((¬ In d r.order) × (ordered_providers r ≡ r.order)))
unfolding front
ordered_providers_lem r v = rw (ordered_providers-eq r v) (elim (preferred-cases r v) [
  | inl (i, e) ↦
      rw (e, front)
        (
          (λ j. ((In-others _ _ r.order).0 j).1 refl, Distinct-others _ r.order v.distinct),
          first_In _ r.order i,
          inl (i, ap (◌∷◌ (trim_space r.default_provider)) (others-without _ r.order)),
        )
  | inr (n, e) ↦ rw (e, front, others-none) (v.distinct, λ m. (λ i. i, λ i. i), inr (n, refl))
])
