-- ===== src/Starters/Rows.antt =====
-- internal/controlplane/repository/starter_questions.go over the rows of tenant_starter_questions. A
-- transaction (pgx.BeginFunc) that fails leaves the rows as they were.
use mission.Prelude.{
  ℕ, Bool, false, ◌&&◌, ◌||◌, Option, none, some, List, [], ◌∷◌, ◌++◌, map, ltb, leb, nat_beq,
  if◌then◌else◌,
}
use mission.Prelude.Text.{Text, codes, is_empty}

pub record StarterQuestion : Type 0 where
  pub id : ℕ
  pub set_id : ℕ
  pub tenant_id : ℕ
  pub semantic_layer_id : ℕ
  pub ordinal : ℕ
  pub text : Text
  pub category : Text
  pub primary_table : Text
  pub locale : Text
  pub created_at : ℕ
  pub is_active : Bool

abbrev pub Rows : Type 0
Rows = List StarterQuestion

abbrev pub active_of : ℕ → StarterQuestion → Bool
active_of tenant q = nat_beq q.tenant_id tenant && q.is_active

abbrev pub deactivated : ℕ → StarterQuestion → StarterQuestion
deactivated tenant q = if active_of tenant q then record q { is_active = false } else q

unfoldable pub deactivate_prior_sets : ℕ → Rows → Rows
deactivate_prior_sets tenant rows = map (deactivated tenant) rows

-- The row of a question: the identifiers are the call's, not the question's, and the database puts the
-- time.
abbrev pub inserted : ℕ → ℕ → ℕ → ℕ → StarterQuestion → StarterQuestion
inserted now tenant layer set q = record q {
  tenant_id = tenant;
  semantic_layer_id = layer;
  set_id = set;
  locale = if is_empty q.locale then codes "ko" else q.locale;
  created_at = now;
}

unfoldable pub insert_set : ℕ → ℕ → ℕ → ℕ → List StarterQuestion → Rows → Rows
insert_set now tenant layer set questions rows =
    rows ++ map (inserted now tenant layer set) questions

unfoldable pub replace_active_set : ℕ → ℕ → ℕ → ℕ → List StarterQuestion → Rows → Rows
unfolding insert_set deactivate_prior_sets
replace_active_set now tenant layer set questions rows =
    insert_set now tenant layer set questions (deactivate_prior_sets tenant rows)

unfoldable pub select : (StarterQuestion → Bool) → Rows → Rows
select test [] = []
select test (q ∷ qs) = let rest = select test qs in if test q then q ∷ rest else rest

-- `ORDER BY created_at DESC, ordinal ASC LIMIT 1`.
abbrev pub before : StarterQuestion → StarterQuestion → Bool
before q r =
    ltb r.created_at q.created_at || (nat_beq q.created_at r.created_at && leb q.ordinal r.ordinal)

unfoldable pub first_row : Rows → Option StarterQuestion
first_row [] = none
first_row (q ∷ qs) = elim (first_row qs) [
  | none ↦ some q
  | some r ↦ if before q r then some q else some r
]

-- `ORDER BY ordinal ASC`.
unfoldable pub insert_by_ordinal : StarterQuestion → Rows → Rows
insert_by_ordinal q [] = q ∷ []
insert_by_ordinal q (r ∷ rs) =
    let rest = insert_by_ordinal q rs in if leb q.ordinal r.ordinal then q ∷ r ∷ rs else r ∷ rest

unfoldable pub order_by_ordinal : Rows → Rows
unfolding insert_by_ordinal
order_by_ordinal [] = []
order_by_ordinal (q ∷ qs) = insert_by_ordinal q (order_by_ordinal qs)

-- The rows of the statement.
unfoldable pub rows_of_set : ℕ → Rows → Option StarterQuestion → Rows
unfolding select order_by_ordinal
rows_of_set tenant rows none = []
rows_of_set tenant rows (some first) =
    order_by_ordinal (select (λ q. active_of tenant q && nat_beq q.set_id first.set_id) rows)

pub record ActiveSet : Type 0 where
  pub questions : List StarterQuestion
  pub set_id : ℕ
  pub generated_at : ℕ
  pub locale : Text

-- The loop over the rows: the first one with a time, 0 being no time, gives the set's data.
unfoldable pub scan_rows : ActiveSet → Rows → ActiveSet
scan_rows s [] = s
scan_rows s (q ∷ qs) =
    let more = s.questions ++ q ∷ [] in
    scan_rows
      (if nat_beq s.generated_at 0
        then record {
          questions = more;
          set_id = q.set_id;
          generated_at = q.created_at;
          locale = q.locale;
        }
        else record s { questions = more })
      qs

-- `none` is ErrNotFound.
abbrev pub unless_empty : ActiveSet → Option ActiveSet
unless_empty s = elim s.questions [ [] ↦ none | _ ∷ _ ↦ some s ]

abbrev pub no_set : ActiveSet
no_set = record { questions = []; set_id = 0; generated_at = 0; locale = [] }

unfoldable pub latest_active : ℕ → Rows → Option ActiveSet
unfolding scan_rows rows_of_set first_row select
latest_active tenant rows =
    unless_empty
      (scan_rows no_set (rows_of_set tenant rows (first_row (select (active_of tenant) rows))))
