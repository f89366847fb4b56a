-- ===== src/SqlGuard/Limit.antt =====
-- `needsLimitInjection` of internal/sqlguard/sqlguard.go.
use mission.Prelude.{
  ℕ, zero, suc, ◌<◌, ◌≡◌, ◌⊎◌, inl, inr, refl, sym, some_inj, Bool-cases, Bool, true, false, Option,
  none, some, List, [], ◌∷◌, In, arith, ltb, if◌then◌else◌,
}
use mission.SqlGuard.Kinds.{is_allowed}
use mission.SqlGuard.Ast.{
  Expr, aggregate_func_expr, other_expr, no_expr, parentheses_expr, SelectStmt, Stmt, select_stmt,
  set_opr_stmt, show_stmt,
}

contains_top_level_aggregate : Expr → Bool
contains_top_level_aggregate aggregate_func_expr = true
contains_top_level_aggregate (parentheses_expr e) = contains_top_level_aggregate e
contains_top_level_aggregate other_expr = false
contains_top_level_aggregate no_expr = false

aggregate_field : Option (Option Expr) → Bool
unfolding contains_top_level_aggregate
aggregate_field none = false
aggregate_field (some none) = false
aggregate_field (some (some e)) = contains_top_level_aggregate e

any_aggregate : List (Option (Option Expr)) → Bool
unfolding aggregate_field
any_aggregate [] = false
any_aggregate (f ∷ fs) = if aggregate_field f then true else any_aggregate fs

grouped : Option ℕ → Bool
grouped none = false
grouped (some n) = ltb 0 n

aggregate_fields : Option (List (Option (Option Expr))) → Bool
unfolding any_aggregate
aggregate_fields none = false
aggregate_fields (some fs) = any_aggregate fs

unfoldable pub is_aggregated_select : SelectStmt → Bool
unfolding grouped aggregate_fields
is_aggregated_select s = if grouped s.group_by then true else aggregate_fields s.fields

-- `none` is the error for a statement of another type.
unfoldable pub needs_limit_injection : Stmt → Option Bool
needs_limit_injection (select_stmt s) =
    some (if s.limit then false else if is_aggregated_select s then false else true)
needs_limit_injection (set_opr_stmt limit) = some (if limit then false else true)
needs_limit_injection show_stmt = some false
needs_limit_injection _ = none

-- An aggregate function, in any number of parentheses.
pub data IsAggregate : Expr → Type 0 where
  function : IsAggregate aggregate_func_expr
  in_parentheses : {e : Expr} → IsAggregate e → IsAggregate (parentheses_expr e)

-- One row for each group, or one row: a GROUP BY with an item, or a field that is an aggregate.
abbrev pub IsAggregated : SelectStmt → Type 0
IsAggregated s =
    ((n : ℕ) × (s.group_by ≡ some n) × (0 < n))
    ⊎ ((fs : List (Option (Option Expr))) × (e : Expr) × (s.fields ≡ some fs)
        × In (some (some e)) fs
        × IsAggregate e)

-- The rows of the statement are bounded by what it says itself.
abbrev pub IsBounded : Stmt → Type 0
IsBounded (select_stmt s) = (s.limit ≡ true) ⊎ IsAggregated s
IsBounded (set_opr_stmt limit) = limit ≡ true
IsBounded _ = Unit

contains_top_level_aggregate-IsAggregate :
    (e : Expr) → contains_top_level_aggregate e ≡ true → IsAggregate e
unfolding contains_top_level_aggregate
contains_top_level_aggregate-IsAggregate aggregate_func_expr h = function
contains_top_level_aggregate-IsAggregate (parentheses_expr e) h =
    in_parentheses (contains_top_level_aggregate-IsAggregate e h)
contains_top_level_aggregate-IsAggregate other_expr h = cc
contains_top_level_aggregate-IsAggregate no_expr h = cc

IsAggregate-contains_top_level_aggregate :
    {e : Expr} → IsAggregate e → contains_top_level_aggregate e ≡ true
unfolding contains_top_level_aggregate
IsAggregate-contains_top_level_aggregate function = refl
IsAggregate-contains_top_level_aggregate (in_parentheses a) =
    IsAggregate-contains_top_level_aggregate a

abbrev AnyAggregate : List (Option (Option Expr)) → Type 0
AnyAggregate fs = (e : Expr) × In (some (some e)) fs × IsAggregate e

any_aggregate_cases :
    (fs : List (Option (Option Expr)))
    → ((any_aggregate fs ≡ true) × AnyAggregate fs)
      ⊎ ((any_aggregate fs ≡ false) × (¬ AnyAggregate fs))
unfolding any_aggregate aggregate_field
any_aggregate_cases [] = inr (refl, λ a. a.1)
any_aggregate_cases (f ∷ fs) = elim (Bool-cases (aggregate_field f)) [
  | inl hit ↦ let (e, h, a) = field_hit f hit in inl (rw (any_aggregate, hit), (e, inl (sym h), a))
  | inr miss ↦ elim (any_aggregate_cases fs) [
    | inl (t, (e, i, a)) ↦ inl (rw (any_aggregate, miss) t, (e, inr i, a))
    | inr (t, n) ↦ inr (
      rw (any_aggregate, miss) t,
      λ (e, i, a). elim i [ inl h ↦ field_miss f e a (sym h) miss | inr j ↦ n (e, j, a) ],
    )
  ]
]
  where
    field_hit :
        (f : Option (Option Expr))
        → aggregate_field f ≡ true
        → (e : Expr) × (f ≡ some (some e)) × IsAggregate e
    field_hit none h = cc
    field_hit (some none) h = cc
    field_hit (some (some e)) h = (e, refl, contains_top_level_aggregate-IsAggregate e h)

    field_miss :
        (f : Option (Option Expr)) (e : Expr)
        → IsAggregate e
        → f ≡ some (some e)
        → aggregate_field f ≡ false
        → ⊥
    field_miss f e a h miss = cc (rw h at miss, IsAggregate-contains_top_level_aggregate a)

grouped_cases :
    (g : Option ℕ)
    → ((grouped g ≡ true) × ((n : ℕ) × (g ≡ some n) × (0 < n)))
      ⊎ ((grouped g ≡ false) × (¬ ((n : ℕ) × (g ≡ some n) × (0 < n))))
unfolding grouped
grouped_cases none = inr (refl, λ (n, e, l). cc)
grouped_cases (some zero) = inr (refl, λ (n, e, l). absurd (omega (arith, some_inj e)))
grouped_cases (some (suc n)) = inl (ground arith, (suc n, refl, omega arith))

abbrev AggregateFields : Option (List (Option (Option Expr))) → Type 0
AggregateFields f =
    (fs : List (Option (Option Expr))) × (e : Expr) × (f ≡ some fs)
    × In (some (some e)) fs
    × IsAggregate e

aggregate_fields_cases :
    (f : Option (List (Option (Option Expr))))
    → ((aggregate_fields f ≡ true) × AggregateFields f)
      ⊎ ((aggregate_fields f ≡ false) × (¬ AggregateFields f))
unfolding aggregate_fields
aggregate_fields_cases none = inr (refl, λ (fs, e, h, i, a). cc)
aggregate_fields_cases (some fs) = elim (any_aggregate_cases fs) [
  | inl (t, (e, i, a)) ↦ inl (t, (fs, e, refl, i, a))
  | inr (t, n) ↦ inr (t, λ (gs, e, h, i, a). n (e, rw (sym (some_inj h)) at i, a))
]

is_aggregated_select_cases :
    (s : SelectStmt)
    → ((is_aggregated_select s ≡ true) × IsAggregated s)
      ⊎ ((is_aggregated_select s ≡ false) × (¬ IsAggregated s))
unfolding is_aggregated_select
is_aggregated_select_cases s = elim (grouped_cases s.group_by) [
  | inl (t, g) ↦ inl (rw t, inl g)
  | inr (t, g) ↦ elim (aggregate_fields_cases s.fields) [
    | inl (u, f) ↦ inl (rw (t, u), inr f)
    | inr (u, f) ↦ inr (rw (t, u), λ i. elim i [ inl a ↦ g a | inr b ↦ f b ])
  ]
]

-- What `needsLimitInjection` returns: an error for the statements that `Validate` does not allow,
-- and otherwise whether the statement does not bound its own rows. A statement does by a LIMIT, a
-- SELECT also by a GROUP BY item or an aggregate among its fields, in any parentheses; a SHOW
-- always counts as bounded.
pub needs_limit_injection_lem :
    (t : Stmt)
    → ((needs_limit_injection t ≡ none) × (is_allowed t ≡ false))
      ⊎ ((needs_limit_injection t ≡ some false) × (is_allowed t ≡ true) × IsBounded t)
      ⊎ ((needs_limit_injection t ≡ some true) × (is_allowed t ≡ true) × (¬ IsBounded t))
unfolding needs_limit_injection
needs_limit_injection_lem (select_stmt s) = elim (Bool-cases s.limit) [
  | inl l ↦ rw l (inr (inl (refl, refl, inl refl)))
  | inr l ↦ elim (is_aggregated_select_cases s) [
    | inl (t, a) ↦ rw (t, l) (inr (inl (refl, refl, inr a)))
    | inr (t, a) ↦ rw (t, l) (inr (inr (refl, refl, λ i. elim i [ inl z ↦ cc | inr b ↦ a b ])))
  ]
]
needs_limit_injection_lem (set_opr_stmt true) = inr (inl (refl, refl, refl))
needs_limit_injection_lem (set_opr_stmt false) = inr (inr (refl, refl, λ e. cc))
needs_limit_injection_lem show_stmt = inr (inl (refl, refl, tt))
needs_limit_injection_lem _ = inl (refl, refl)
