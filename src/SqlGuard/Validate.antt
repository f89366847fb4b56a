-- ===== src/SqlGuard/Validate.antt =====
-- `Validate` of internal/sqlguard/sqlguard.go.
pub mod Acceptance
pub mod Denial
use mission.Prelude.{
  ◌≡◌, ◌≢◌, ◌⊎◌, ◌↔◌, inl, inr, refl, sym, ap, ◌∙◌, Bool, true, false, Option, none, some, List, [],
  ◌∷◌, ◌++◌, String, if◌then◌else◌, arith, All, Bool-cases, Option-cases,
}
use mission.Prelude.Text.{Text, codes, trim_space, is_empty}
use mission.SqlGuard.Ast.{
  Stmt, SelectStmt, select_stmt, Node, select_node, Restored, restored, restore_error, SqlLib,
}
use mission.SqlGuard.Result.{Result, deny}
use mission.SqlGuard.Scan.{has_comment_token, has_raw_denied_pattern}
use mission.SqlGuard.Visitor.{visit, visit_lem, ReadsOnly, select_into_denied, for_update_denied}
use mission.SqlGuard.Kinds.{is_allowed, statement_construct}
use mission.SqlGuard.Limit.{needs_limit_injection, needs_limit_injection_lem, IsBounded}

-- What `Validate` returns: a result, or an error that is not nil.
pub data Verdict : Type 0 where
  returned : Result → Verdict
  failed : String → Verdict

abbrev pub parse_denied : Result
parse_denied = deny "SQL could not be parsed as a single MySQL statement" "parse_error"

abbrev pub comment_denied : Result
comment_denied = deny "SQL comments are not allowed" "comment"

abbrev pub multi_denied : Result
multi_denied = deny "multi-statement SQL is not allowed" "multi_statement"

abbrev pub kind_denied : Stmt → Result
kind_denied s =
    deny "only SELECT, WITH-that-resolves-to-SELECT, and SHOW statements are allowed"
      (statement_construct s)

-- " LIMIT %d" of `DefaultRowLimit`.
abbrev pub limit_suffix : Text
limit_suffix = codes " LIMIT 1000"

abbrev pub accepted : Text → Bool → Result
accepted sql needs_limit = record {
  ok = true;
  rewritten_sql = if needs_limit then sql ++ limit_suffix else sql;
  reason = "";
  blocked_constructs = [];
  limit_injected = needs_limit;
}

module _ (lib : SqlLib) where
  open lib use {Tree, parse, stmt, nodes, restore, unicode_upper}

  pub rewrite_with : Bool → Restored → Verdict
  rewrite_with needs_limit (restored sql) = returned (accepted sql needs_limit)
  rewrite_with needs_limit (restore_error e) = failed e

  limit_and_restore : Tree → Option Bool → Verdict
  unfolding rewrite_with
  limit_and_restore t none = failed "unexpected statement type"
  limit_and_restore t (some needs_limit) = rewrite_with needs_limit (restore t)

  after_visit : Tree → Option Result → Verdict
  unfolding limit_and_restore
  after_visit t (some denied) = returned denied
  after_visit t none = limit_and_restore t (needs_limit_injection (stmt t))

  pub validate_tree : Tree → Verdict
  unfolding after_visit
  validate_tree t =
      if is_allowed (stmt t)
      then after_visit t (visit (nodes t))
      else returned (kind_denied (stmt t))

  validate_parsed : Option (List Tree) → Verdict
  unfolding validate_tree
  validate_parsed none = returned parse_denied
  validate_parsed (some []) = returned parse_denied
  validate_parsed (some (t ∷ [])) = validate_tree t
  validate_parsed (some (_ ∷ _ ∷ _)) = returned multi_denied

  validate_trimmed : Text → Verdict
  unfolding validate_parsed
  validate_trimmed sql =
      if is_empty sql
      then returned parse_denied
      else if has_comment_token sql
      then returned comment_denied
      else if has_raw_denied_pattern unicode_upper sql
      then returned select_into_denied
      else validate_parsed (parse sql)

  unfoldable pub validate : Text → Verdict
  unfolding validate_trimmed
  validate sql = validate_trimmed (trim_space sql)

  -- What stands behind an accepted text: one statement that only reads, with its rows bounded.
  pub record Accepts (sql : Text) (r : Result) : Type 0 where
    pub tree : Tree
    pub text : Text
    pub ne_nil : trim_space sql ≢ []
    pub no_comment : has_comment_token (trim_space sql) ≡ false
    pub no_raw_pattern : has_raw_denied_pattern unicode_upper (trim_space sql) ≡ false
    pub single : parse (trim_space sql) ≡ some (tree ∷ [])
    pub allowed : is_allowed (stmt tree) ≡ true
    pub reads_only : All ReadsOnly (nodes tree)
    pub prints : restore tree ≡ restored text
    pub bounded :
        (IsBounded (stmt tree) × (r ≡ accepted text false))
        ⊎ ((¬ IsBounded (stmt tree)) × (r ≡ accepted text true))
