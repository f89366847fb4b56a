-- ===== src/Starters/Tables.antt =====
-- The tables that internal/controlplane/controller/starter_questions_validator.go goes by.
use mission.Prelude.{
  ◌≡◌, refl, sym, ◌∙◌, ◌⊎◌, inl, inr, arith, Bool-cases, true, false, List, [], ◌∷◌, In, Distinct,
}
use mission.Prelude.Text.{Text, is_empty, trim_space}
use mission.Semantic.Types.{SemanticTable}
use mission.Starters.{add_key, valid_tables}
use mission.Starters.Keys.{In-add_key, add_key-In, add_key-Distinct}

-- A trimmed name, which is not blank, of one of the tables.
pub record IsTable (tables : List SemanticTable) (name : Text) : Type 0 where
  pub table : SemanticTable
  pub here : In table tables
  pub named : trim_space table.table_name ≡ name
  pub given : is_empty name ≡ false

-- The names that `valid_tables` collects.
pub valid_tables-In :
    (name : Text) (keys : List Text) (ts : List SemanticTable)
    → IsTable ts name ⊎ In name keys
    → In name (valid_tables keys ts)
unfolding valid_tables
valid_tables-In name keys [] (inl t) = elim t.here [ ]
valid_tables-In name keys [] (inr i) = i
valid_tables-In name keys (t ∷ ts) c = elim (Bool-cases (is_empty (trim_space t.table_name))) [
  | inl h ↦ rw h (valid_tables-In name keys ts (blank h c))
  | inr h ↦ rw h (valid_tables-In name (add_key (trim_space t.table_name) keys) ts (named c))
]
  where
    blank :
        is_empty (trim_space t.table_name) ≡ true
        → IsTable (t ∷ ts) name ⊎ In name keys
        → IsTable ts name ⊎ In name keys
    blank h (inr i) = inr i
    blank h (inl w) = elim w.here [
      | inl e ↦ absurd (ground (arith, w.given, w.named, e, h))
      | inr j ↦ inl (record { table = w.table; here = j; named = w.named; given = w.given })
    ]

    named :
        IsTable (t ∷ ts) name ⊎ In name keys
        → IsTable ts name ⊎ In name (add_key (trim_space t.table_name) keys)
    named (inr i) = inr (add_key-In name (trim_space t.table_name) keys (inr i))
    named (inl w) = elim w.here [
      | inl e ↦ inr (add_key-In name (trim_space t.table_name) keys (inl (sym w.named ∙ cc e)))
      | inr j ↦ inl (record { table = w.table; here = j; named = w.named; given = w.given })
    ]

pub In-valid_tables :
    (name : Text) (keys : List Text) (ts : List SemanticTable)
    → In name (valid_tables keys ts)
    → IsTable ts name ⊎ In name keys
unfolding valid_tables
In-valid_tables name keys [] i = inr i
In-valid_tables name keys (t ∷ ts) i = elim (Bool-cases (is_empty (trim_space t.table_name))) [
  | inl h ↦ later (In-valid_tables name keys ts (rw h at i))
  | inr h ↦ elim (In-valid_tables name (add_key (trim_space t.table_name) keys) ts (rw h at i)) [
    | inl w ↦ later (inl w)
    | inr j ↦ elim (In-add_key name (trim_space t.table_name) keys j) [
      | inl e ↦ inl (record { table = t; here = inl refl; named = sym e; given = rw e h })
      | inr k ↦ inr k
    ]
  ]
]
  where
    later : IsTable ts name ⊎ In name keys → IsTable (t ∷ ts) name ⊎ In name keys
    later (inr k) = inr k
    later (inl w) =
        inl (record { table = w.table; here = inr w.here; named = w.named; given = w.given })

pub valid_tables-Distinct :
    (keys : List Text) (ts : List SemanticTable) → Distinct keys → Distinct (valid_tables keys ts)
unfolding valid_tables
valid_tables-Distinct keys [] d = d
valid_tables-Distinct keys (t ∷ ts) d =
    let more = add_key-Distinct (trim_space t.table_name) keys d in
    elim (Bool-cases (is_empty (trim_space t.table_name))) [
      | inl h ↦ rw h (valid_tables-Distinct keys ts d)
      | inr h ↦ rw h (valid_tables-Distinct (add_key (trim_space t.table_name) keys) ts more)
    ]
