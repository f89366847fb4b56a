-- ===== src/Onboarding/Texts.antt =====
-- The texts that internal/controlplane/controller/onboarding.go makes and reads: slugs, the docker
-- command, the setup SQL and the invited addresses.
use mission.Prelude.{
  ℕ, Bool, true, false, not, ◌&&◌, ◌||◌, Option, none, some, List, [], ◌∷◌, ◌++◌, leb, nat_beq,
  if◌then◌else◌,
}
use mission.Prelude.Text.{Text, codes, is_empty, trim_space}

-- `firstNonEmpty`, which trims.
unfoldable pub first_non_blank : List Text → Text
first_non_blank [] = []
first_non_blank (value ∷ values) =
    let rest = first_non_blank values in
    if not (is_empty (trim_space value)) then trim_space value else rest

unfoldable pub is_alphanumeric : ℕ → Bool
is_alphanumeric c = (leb b'a' c && leb c b'z') || (leb b'0' c && leb c b'9')

-- The loop of `slugifyWorkspaceName`, with `lastDash`.
unfoldable pub dashed : Bool → Text → Text
unfolding is_alphanumeric
dashed last_dash [] = []
dashed last_dash (c ∷ s) =
    let letter = c ∷ dashed false s in
    let gap = b'-' ∷ dashed true s in
    let skipped = dashed true s in
    if is_alphanumeric c then letter else if not last_dash then gap else skipped

-- Go's `strings.Trim(s, "-")`.
unfoldable pub trim_left_dash : Text → Text
trim_left_dash [] = []
trim_left_dash (c ∷ s) = if nat_beq c b'-' then trim_left_dash s else c ∷ s

unfoldable pub trim_right_dash : Text → Text
trim_right_dash [] = []
trim_right_dash (c ∷ s) =
    let rest = trim_right_dash s in if nat_beq c b'-' && is_empty rest then [] else c ∷ rest

-- `to_lower` is Go's `strings.ToLower`.
unfoldable pub slugify_workspace_name : (Text → Text) → Text → Text → Text
unfolding dashed trim_left_dash trim_right_dash
slugify_workspace_name to_lower name fallback =
    let slug = trim_right_dash (trim_left_dash (dashed false (to_lower (trim_space name)))) in
    let spare = trim_space (to_lower fallback) in
    if not (is_empty slug) then slug else if not (is_empty spare) then spare else codes "workspace"

unfoldable pub build_docker_run_command : Text → Text → Text → Text → Text → Text
build_docker_run_command slug url token version image =
    codes "docker run -d --name "
    ++ (slug
        ++ (codes "-agent \\\n  --restart unless-stopped \\\n  -e CONTROL_PLANE_URL="
            ++ (url
                ++ (codes " \\\n  -e TENANT_TOKEN="
                    ++ (token
                        ++ (codes " \\\n  -e AGENT_VERSION="
                            ++ (version
                                ++ (codes " \\\n  -v /etc/"
                                    ++ (slug
                                        ++ (codes "-agent:/etc/agent \\\n  -v /var/lib/"
                                            ++ (slug
                                                ++ (codes "-agent:/var/lib/agent \\\n  "
                                                    ++ image))))))))))))

-- `strings.ReplaceAll(s, "`", "``")`.
unfoldable pub double_backticks : Text → Text
double_backticks [] = []
double_backticks (c ∷ s) =
    if nat_beq c b'`' then b'`' ∷ b'`' ∷ double_backticks s else c ∷ double_backticks s

unfoldable pub escape_mysql_identifier : Text → Text
unfolding double_backticks
escape_mysql_identifier identifier = double_backticks (trim_space identifier)

abbrev pub default_database_username : Text
default_database_username = codes "okta_ai_ro"

-- What stands before and behind the identifier.
abbrev pub setup_before : Text → Text
setup_before password =
    codes "CREATE USER '"
    ++ (default_database_username
        ++ (codes "'@'%' IDENTIFIED BY '"
            ++ (password ++ codes "';\nGRANT SELECT, SHOW VIEW ON `")))

abbrev pub setup_behind : Text
setup_behind = codes ".* TO '" ++ (default_database_username ++ codes "'@'%';\nFLUSH PRIVILEGES;")

unfoldable pub build_database_setup_sql : Text → Text → Text
unfolding escape_mysql_identifier
build_database_setup_sql database_name password =
    let name = trim_space database_name in
    let pass = trim_space password in
    if is_empty name || is_empty pass
    then []
    else setup_before pass ++ (escape_mysql_identifier name ++ (b'`' ∷ setup_behind))

-- The class `[^@\s]` of the address pattern.
unfoldable pub is_address_char : ℕ → Bool
is_address_char c = not (
    nat_beq c b'@' || nat_beq c b' ' || nat_beq c 9 || nat_beq c 10 || nat_beq c 12 || nat_beq c 13)

-- `[^@\s]+` up to the end.
unfoldable pub all_address : Text → Bool
unfolding is_address_char
all_address [] = true
all_address (c ∷ s) = is_address_char c && all_address s

-- `[^@\s]*\.[^@\s]+$`.
unfoldable pub has_dotted_end : Text → Bool
unfolding all_address
has_dotted_end [] = false
has_dotted_end (c ∷ s) =
    (nat_beq c b'.' && (not (is_empty s) && all_address s))
    || (is_address_char c && has_dotted_end s)

-- `[^@\s]+\.[^@\s]+$`.
unfoldable pub is_domain : Text → Bool
unfolding has_dotted_end
is_domain [] = false
is_domain (c ∷ s) = is_address_char c && has_dotted_end s

-- `[^@\s]*@[^@\s]+\.[^@\s]+$`.
unfoldable pub has_at : Text → Bool
unfolding is_domain
has_at [] = false
has_at (c ∷ s) = (nat_beq c b'@' && is_domain s) || (is_address_char c && has_at s)

-- `emailRE`.
unfoldable pub is_email : Text → Bool
unfolding has_at
is_email [] = false
is_email (c ∷ s) = is_address_char c && has_at s

unfoldable pub is_separator : ℕ → Bool
is_separator c = nat_beq c b',' || nat_beq c 10 || nat_beq c b';'

-- Go's `strings.FieldsFunc`, with the field so far; fields are not empty.
abbrev flush : Text → List Text → List Text
flush field rest = if is_empty field then rest else field ∷ rest

unfoldable pub fields_onto : Text → Text → List Text
unfolding is_separator
fields_onto field [] = flush field []
fields_onto field (c ∷ s) =
    let cut = flush field (fields_onto [] s) in
    let longer = fields_onto (field ++ c ∷ []) s in if is_separator c then cut else longer

-- The inner loop; `none` is ErrOnboardingInviteEmailInvalid.
unfoldable pub checked_emails : List Text → Option (List Text)
unfolding is_email
checked_emails [] = some []
checked_emails (item ∷ items) =
    let rest = checked_emails items in
    if is_empty (trim_space item)
    then rest
    else if not (is_email (trim_space item))
    then none
    else elim rest [ none ↦ none | some es ↦ some (trim_space item ∷ es) ]

unfoldable pub normalize_invite_emails : List Text → Option (List Text)
unfolding fields_onto checked_emails
normalize_invite_emails [] = some []
normalize_invite_emails (value ∷ values) = elim (checked_emails (fields_onto [] value)) [
  | none ↦ none
  | some es ↦ elim (normalize_invite_emails values) [ none ↦ none | some rest ↦ some (es ++ rest) ]
]
