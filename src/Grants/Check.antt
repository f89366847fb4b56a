-- ===== src/Grants/Check.antt =====
-- `ValidateGrants` and `normalizePrivilege` of internal/edgeagent/gateway/mysql/mysql.go, over the rows of
-- SHOW GRANTS. `to_upper` is Go's strings.ToUpper.
use mission.Prelude.{
  Bool, true, false, not, ◌||◌, Option, none, some, List, [], ◌∷◌, ◌++◌, nat_beq, if◌then◌else◌,
}
use mission.Prelude.Text.{Text, codes, is_empty, is_space, has_prefix, contains, trim_space}
use mission.Prelude.Equality.{text_beq}

pub data Refusal : Type 0 where
  empty_row grant_option unsupported_format malformed all_privileges no_select : Refusal
  not_allowed : Text → Refusal

-- Whether a SELECT was seen so far, or why the grants are refused, or that the slice of the privileges is out
-- of range, which panics.
pub data Checked : Type 0 where
  passed : Bool → Checked
  refused : Refusal → Checked
  out_of_range : Checked

pub data Outcome : Type 0 where
  accepted : Outcome
  denied : Refusal → Outcome
  panicked : Outcome

abbrev flush : Text → List Text → List Text
flush field rest = if is_empty field then rest else field ∷ rest

-- Go's `strings.Fields`, with the field so far.
unfoldable pub fields_onto : Text → Text → List Text
unfolding is_space
fields_onto field [] = flush field []
fields_onto field (c ∷ s) =
    let cut = flush field (fields_onto [] s) in
    let longer = fields_onto (field ++ c ∷ []) s in if is_space c then cut else longer

-- Go's `strings.Join(fields, " ")`.
unfoldable pub joined : List Text → Text
joined [] = []
joined (f ∷ []) = f
joined (f ∷ g ∷ gs) = f ++ b' ' ∷ joined (g ∷ gs)

unfoldable pub normalize_privilege : (Text → Text) → Text → Text
unfolding fields_onto joined
normalize_privilege to_upper value = joined (fields_onto [] (trim_space (to_upper value)))

-- Go's `strings.Split(s, ",")`, with the piece so far.
unfoldable pub split_onto : Text → Text → List Text
split_onto piece [] = piece ∷ []
split_onto piece (c ∷ s) =
    let cut = piece ∷ split_onto [] s in
    let longer = split_onto (piece ++ c ∷ []) s in if nat_beq c b',' then cut else longer

-- The text before the first occurrence of another, as Go's `strings.Index` finds it.
unfoldable pub before : Text → Text → Option Text
before mark [] = if has_prefix [] mark then some [] else none
before mark (c ∷ s) =
    let rest = before mark s in
    if has_prefix (c ∷ s) mark then some [] else elim rest [ none ↦ none | some b ↦ some (c ∷ b) ]

-- What stands behind "GRANT "; `none` is a slice whose end is before its start.
unfoldable pub behind : Text → Text → Option Text
behind [] s = some s
behind (p ∷ ps) [] = none
behind (p ∷ ps) (c ∷ s) = behind ps s

-- `allowedPrivileges`.
unfoldable pub is_allowed : Text → Bool
unfolding text_beq
is_allowed name =
    text_beq name (codes "USAGE")
    || text_beq name (codes "SELECT")
    || text_beq name (codes "SHOW VIEW")

module _ (to_upper : Text → Text) where
  -- The loop over the privileges of one grant.
  unfoldable pub check_privileges : Bool → List Text → Checked
  unfolding normalize_privilege is_allowed text_beq
  check_privileges has_select [] = passed has_select
  check_privileges has_select (p ∷ ps) =
      let name = normalize_privilege to_upper p in
      let rest = check_privileges (text_beq name (codes "SELECT") || has_select) ps in
      if text_beq name (codes "ALL PRIVILEGES")
      then refused all_privileges
      else if not (is_allowed name)
      then refused (not_allowed name)
      else rest

  unfoldable pub check_sliced : Bool → Option Text → Checked
  unfolding check_privileges split_onto
  check_sliced has_select none = out_of_range
  check_sliced has_select (some l) = check_privileges has_select (split_onto [] l)

  unfoldable pub check_list : Bool → Option Text → Checked
  unfolding check_sliced behind
  check_list has_select none = refused malformed
  check_list has_select (some b) = check_sliced has_select (behind (codes "GRANT ") b)

  unfoldable pub check_grant : Bool → Text → Checked
  unfolding check_list before
  check_grant has_select grant =
      let normalized = to_upper (trim_space grant) in
      let listed = check_list has_select (before (codes " ON ") normalized) in
      if is_empty normalized
      then refused empty_row
      else if contains normalized (codes "WITH GRANT OPTION")
      then refused grant_option
      else if not (has_prefix normalized (codes "GRANT "))
      then refused unsupported_format
      else listed

  -- The loop over the grants.
  unfoldable pub check_grants : Bool → List Text → Checked
  unfolding check_grant
  check_grants has_select [] = passed has_select
  check_grants has_select (g ∷ gs) = elim (check_grant has_select g) [
    | refused r ↦ refused r
    | out_of_range ↦ out_of_range
    | passed b ↦ check_grants b gs
  ]

  unfoldable pub outcome : Checked → Outcome
  outcome (refused r) = denied r
  outcome out_of_range = panicked
  outcome (passed true) = accepted
  outcome (passed false) = denied no_select

  unfoldable pub validate_grants : List Text → Outcome
  unfolding check_grants outcome
  validate_grants grants = outcome (check_grants false grants)
