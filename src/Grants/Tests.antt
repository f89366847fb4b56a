-- ===== src/Grants/Tests.antt =====
-- The check of grants at grants that are written in upper case already.
use mission.Prelude.{◌≡◌, refl, List, [], ◌∷◌, All, In}
use mission.Prelude.Text.{Text, codes, trim_space, has_prefix, contains}
use mission.Prelude.Equality.{text_beq}
use mission.Grants.Check.{
  denied, panicked, not_allowed, validate_grants, check_grants, check_grant, check_list,
  check_sliced, check_privileges, normalize_privilege, is_allowed, before, behind, split_onto,
  outcome, fields_onto, joined,
}
use mission.Grants.ReadOnly.{ReadsOnly, Selects, validate_grants-ReadsOnly}

abbrev same : Text → Text
same s = s

abbrev reader : List Text
reader = codes "GRANT USAGE ON *.* TO U" ∷ codes "GRANT SELECT,  SHOW VIEW ON SHOP.* TO U" ∷ []

validate_grants-ReadsOnly_example :
    All (ReadsOnly same) reader × ((g : Text) × (In g reader × Selects same g))
unfolding validate_grants check_grants check_grant check_list check_sliced check_privileges
    normalize_privilege is_allowed before behind split_onto outcome fields_onto joined trim_space
    has_prefix contains text_beq
validate_grants-ReadsOnly_example = validate_grants-ReadsOnly same reader refl

writer_test :
    validate_grants same (codes "GRANT SELECT, INSERT ON SHOP.* TO U" ∷ [])
    ≡ denied (not_allowed (codes "INSERT"))
unfolding validate_grants check_grants check_grant check_list check_sliced check_privileges
    normalize_privilege is_allowed before behind split_onto outcome fields_onto joined trim_space
    has_prefix contains text_beq
writer_test = refl

-- A grant that lists nothing makes a slice whose end is before its start.
empty_list_test : validate_grants same (codes "GRANT ON SHOP.* TO U" ∷ []) ≡ panicked
unfolding validate_grants check_grants check_grant check_list check_sliced check_privileges
    normalize_privilege is_allowed before behind split_onto outcome fields_onto joined trim_space
    has_prefix contains text_beq
empty_list_test = refl
