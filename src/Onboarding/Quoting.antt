-- ===== src/Onboarding/Quoting.antt =====
-- The setup SQL of internal/controlplane/controller/onboarding.go, read back as MySQL reads it.
use mission.Prelude.{
  ℕ, suc, ◌≡◌, refl, ap, arith, Bool, Bool-cases, inl, inr, true, false, Option, none, some, [],
  ◌∷◌, ◌++◌, length, nat_beq, if◌then◌else◌,
}
use mission.Prelude.Text.{Text, is_empty, trim_space}
use mission.Onboarding.Texts.{
  double_backticks, escape_mysql_identifier, build_database_setup_sql, setup_before, setup_behind,
}
use mission.Onboarding.Trim.{trim_space_idem}

with_char : ℕ → Option (Text × Text) → Option (Text × Text)
with_char c none = none
with_char c (some (name, rest)) = some (c ∷ name, rest)

-- A quoted identifier from behind its first backtick: a doubled backtick is one of the name, a single one
-- ends it. The first argument tells whether a backtick was just read. The result is the name and the rest.
unfoldable pub read_quoted : Bool → Text → Option (Text × Text)
unfolding with_char
read_quoted false [] = none
read_quoted true [] = some ([], [])
read_quoted false (c ∷ s) =
    let closing = read_quoted true s in
    let inside = with_char c (read_quoted false s) in if nat_beq c b'`' then closing else inside
read_quoted true (c ∷ s) =
    let inside = with_char c (read_quoted false s) in
    if nat_beq c b'`' then inside else some ([], c ∷ s)

read_quoted-double_backticks :
    (name : Text) (c : ℕ) (rest : Text)
    → nat_beq c b'`' ≡ false
    → read_quoted false (double_backticks name ++ b'`' ∷ c ∷ rest) ≡ some (name, c ∷ rest)
unfolding read_quoted double_backticks
read_quoted-double_backticks [] c rest other = rw other refl
read_quoted-double_backticks (d ∷ name) c rest other = elim (Bool-cases (nat_beq d b'`')) [
  | inl h ↦ rw h (
      rw (read_quoted-double_backticks name c rest other)
        (ap (λ x. some (x ∷ name, c ∷ rest)) (ground (arith, h))))
  | inr h ↦ rw h (rw (h, read_quoted-double_backticks name c rest other) refl)
]

abbrev pub drop : ℕ → Text → Text
drop Prim.Native.Nat.zero s = s
drop (suc n) [] = []
drop (suc n) (c ∷ s) = drop n s

drop-append : (before s : Text) → drop (length before) (before ++ s) ≡ s
drop-append [] s = refl
drop-append (c ∷ before) s = drop-append before s

-- When neither the database name nor the password is blank, what the setup SQL grants on is, read with
-- MySQL's rule for quoted identifiers, exactly the trimmed database name, whatever characters it has, and
-- the rest of the statement stands behind it.
pub read_quoted-build_database_setup_sql :
    (name password : Text)
    → is_empty (trim_space name) ≡ false
    → is_empty (trim_space password) ≡ false
    → read_quoted false (
        drop (length (setup_before (trim_space password))) (build_database_setup_sql name password))
      ≡ some (trim_space name, setup_behind)
unfolding build_database_setup_sql escape_mysql_identifier
read_quoted-build_database_setup_sql name password n p =
    rw (n, p, drop-append, trim_space_idem)
      (read_quoted-double_backticks (trim_space name) b'.' _ refl)
