-- ===== src/SqlGuard/Validate/Denial.antt =====
-- What `Validate` returns for the texts that it does not accept.
use mission.Prelude.{
  ◌≡◌, ◌≢◌, ◌⊎◌, inl, inr, refl, Bool, true, false, Option, none, some, List, [], ◌∷◌, String,
  Bool-cases, ◌==◌, string_test, ne_of_beq,
}
use mission.Prelude.Text.{Text, trim_space, is_empty}
use mission.SqlGuard.Ast.{Stmt, insert_stmt, Restored, restored, restore_error, SqlLib}
use mission.SqlGuard.Result.{Result, deny, unique_constructs}
use mission.SqlGuard.Scan.{has_comment_token, has_raw_denied_pattern}
use mission.SqlGuard.Visitor.{visit_lem}
use mission.SqlGuard.Kinds.{is_allowed, statement_construct}
use mission.SqlGuard.Limit.{needs_limit_injection_lem}
use mission.SqlGuard.Validate.Acceptance.{validate_tree-eq}
use mission.SqlGuard.Validate.{
  Verdict, returned, failed, rewrite_with, after_visit, validate_tree, validate_parsed,
  validate_trimmed, validate,
}

-- A denial names one construct and rewrites nothing.
pub record IsDenial (r : Result) : Type 0 where
  pub construct : String
  pub names_it : r.blocked_constructs ≡ construct ∷ []
  pub construct_given : construct ≢ ""
  pub no_sql : r.rewritten_sql ≡ []
  pub no_limit : r.limit_injected ≡ false
  pub not_ok : r.ok ≡ false

deny-IsDenial :
    (reason construct : String) → (construct == "") ≡ false → IsDenial (deny reason construct)
unfolding deny
deny-IsDenial reason construct h = record {
  construct = construct;
  names_it = rw (unique_constructs, h);
  construct_given = ne_of_beq construct "" h;
  no_sql = refl;
  no_limit = refl;
  not_ok = refl;
}

statement_construct-given : (s : Stmt) → (statement_construct s == "") ≡ false
unfolding statement_construct
statement_construct-given (insert_stmt true) = refl
statement_construct-given (insert_stmt false) = refl
statement_construct-given _ = refl

module _ (lib : SqlLib) where
  open lib use {Tree, parse, stmt, nodes, restore, unicode_upper}

  -- The verdict is an acceptance, a denial, or an error of `Restore`.
  abbrev pub Expected : Verdict → Type 0
  Expected (returned r) = (r.ok ≡ true) ⊎ IsDenial r
  Expected (failed e) = (t : Tree) × (restore t ≡ restore_error e)

  rewrite_with-Expected :
      (t : Tree) (b : Bool) (p : Restored) → restore t ≡ p → Expected (rewrite_with lib b p)
  unfolding rewrite_with
  rewrite_with-Expected t b (restored text) h = inl refl
  rewrite_with-Expected t b (restore_error e) h = (t, h)

  validate_tree-Expected : (t : Tree) → Expected (validate_tree lib t)
  unfolding validate_tree
  validate_tree-Expected t = elim (Bool-cases (is_allowed (stmt t))) [
    | inr other ↦ rw other (inr (deny-IsDenial _ _ (statement_construct-given (stmt t))))
    | inl a ↦ elim (visit_lem (nodes t)) [
      | inr (_, inl d) ↦ rw (a, d, after_visit) (inr (deny-IsDenial _ _ refl))
      | inr (_, inr d) ↦ rw (a, d, after_visit) (inr (deny-IsDenial _ _ refl))
      | inl (_, v) ↦ elim (needs_limit_injection_lem (stmt t)) [
        | inl (_, n) ↦ cc (a, n)
        | inr (inl (n, _, _)) ↦
            rw (validate_tree-eq lib t false a v n) (rewrite_with-Expected t false (restore t) refl)
        | inr (inr (n, _, _)) ↦
            rw (validate_tree-eq lib t true a v n) (rewrite_with-Expected t true (restore t) refl)
      ]
    ]
  ]

  validate_parsed-Expected : (p : Option (List Tree)) → Expected (validate_parsed lib p)
  unfolding validate_parsed
  validate_parsed-Expected none = inr (deny-IsDenial _ _ refl)
  validate_parsed-Expected (some []) = inr (deny-IsDenial _ _ refl)
  validate_parsed-Expected (some (t ∷ [])) = validate_tree-Expected t
  validate_parsed-Expected (some (_ ∷ _ ∷ _)) = inr (deny-IsDenial _ _ refl)

  validate_trimmed-Expected : (s : Text) → Expected (validate_trimmed lib s)
  unfolding validate_trimmed
  validate_trimmed-Expected s = elim (Bool-cases (is_empty s)) [
    | inl a ↦ rw a (inr (deny-IsDenial _ _ refl))
    | inr a ↦ elim (Bool-cases (has_comment_token s)) [
      | inl b ↦ rw (a, b) (inr (deny-IsDenial _ _ refl))
      | inr b ↦ elim (Bool-cases (has_raw_denied_pattern unicode_upper s)) [
        | inl c ↦ rw (a, b, c) (inr (deny-IsDenial _ _ refl))
        | inr c ↦ rw (a, b, c) (validate_parsed-Expected (parse s))
      ]
    ]
  ]

  -- For every text `Validate` returns a result that is ok, or a denial, which names exactly one
  -- blocked construct and holds no SQL, or the error of printing a statement; the error for a
  -- statement of an unexpected type is never returned.
  pub validate-Expected : (sql : Text) → Expected (validate lib sql)
  unfolding validate
  validate-Expected sql = validate_trimmed-Expected (trim_space sql)
