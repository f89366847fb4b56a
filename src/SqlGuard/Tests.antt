-- ===== src/SqlGuard/Tests.antt =====
-- Runs of the guard on concrete texts, over a parser that knows one statement.
use mission.Prelude.{◌≡◌, ◌⊎◌, refl, true, false, none, some, [], ◌∷◌, map, All, arith}
use mission.Prelude.Text.{Text, codes, trim_space, contains}
use mission.SqlGuard.Ast.{
  aggregate_func_expr, parentheses_expr, lock_for_share, SelectStmt, Stmt, select_stmt, select_node,
  other_node, restored, SqlLib,
}
use mission.SqlGuard.Scan.{
  has_comment_token, has_raw_denied_pattern, outside_quotes_upper, to_upper, move, scan,
  comment_fragment, upper_fragment,
}
use mission.SqlGuard.Scan.Quoting.{
  single, raw, doubled, escaped, Segments, plain_end, quoted, render, has_comment, IsSegmented,
  has_comment_token-render, outside_quotes_upper-render,
}
use mission.SqlGuard.Visitor.{visit, visit_lem, ReadsOnly, select_into_denied, for_update_denied}
use mission.SqlGuard.Limit.{is_aggregated_select, needs_limit_injection}
use mission.SqlGuard.Validate.{returned, accepted, validate, Accepts}
use mission.SqlGuard.Validate.Acceptance.{validate-Accepts_iff}
use mission.SqlGuard.Validate.Denial.{Expected, validate-Expected}

comment_tests :
    (has_comment_token (codes "SELECT 1 -- x") ≡ true)
    × (has_comment_token (codes "SELECT '-- x' FROM t") ≡ false)
    × (has_comment_token (codes "SELECT 'it''s' /* x */") ≡ true)
    × (has_comment_token (codes "SELECT a--1") ≡ false)
    × (has_comment_token (codes "SELECT \"a\\\"#\"") ≡ false)
unfolding has_comment_token contains move scan comment_fragment
comment_tests = (refl, refl, refl, refl, refl)

-- SELECT COUNT(x) with a share lock, and SELECT x INTO OUTFILE.
abbrev counting : SelectStmt
counting = record {
  select_into_opt = false;
  lock_info = some lock_for_share;
  limit = false;
  group_by = none;
  fields = some (some (some (parentheses_expr aggregate_func_expr)) ∷ []);
}

abbrev plain : SelectStmt
plain = record {
  select_into_opt = false;
  lock_info = none;
  limit = false;
  group_by = none;
  fields = none;
}

abbrev exporting : SelectStmt
exporting = record plain { select_into_opt = true }

abbrev one_statement : SqlLib
one_statement = record {
  Tree = Stmt;
  parse = λ t. some (select_stmt plain ∷ []);
  stmt = λ t. t;
  nodes = λ t. select_node plain ∷ other_node ∷ [];
  restore = λ t. restored (codes "SELECT a FROM t");
  unicode_upper = λ c. c;
}

abbrev query : Text
query = codes " select a from t "

guard_run : (validate one_statement query ≡ returned (accepted (codes "SELECT a FROM t") true))
unfolding validate trim_space contains move scan has_comment_token comment_fragment
    has_raw_denied_pattern upper_fragment to_upper visit needs_limit_injection is_aggregated_select
guard_run = refl

validate-Accepts_iff_example : Accepts one_statement query (accepted (codes "SELECT a FROM t") true)
validate-Accepts_iff_example =
    (validate-Accepts_iff one_statement query (accepted (codes "SELECT a FROM t") true)).0
      (guard_run, refl)

validate-Expected_example : Expected one_statement (validate one_statement query)
validate-Expected_example = validate-Expected one_statement query

-- a = '-- #''\'' and b = 'x'
abbrev two_strings : Segments
two_strings =
    quoted (codes "a = ") single
      (raw b'-' ∷ raw b'-' ∷ raw b' ' ∷ raw b'#' ∷ doubled ∷ escaped b'\'' ∷ [])
      (quoted (codes " and b = ") single (raw b'x' ∷ []) (plain_end []))

two_strings-IsSegmented : IsSegmented two_strings
two_strings-IsSegmented = ground arith

has_comment_token-render_example : has_comment_token (render two_strings) ≡ has_comment two_strings
has_comment_token-render_example = has_comment_token-render two_strings two_strings-IsSegmented

outside_quotes_upper-render_example :
    outside_quotes_upper (λ c. c) (render two_strings)
    ≡ map (to_upper (λ c. c)) (codes "a =  and b = ")
unfolding has_comment
outside_quotes_upper-render_example =
    outside_quotes_upper-render (λ c. c) two_strings two_strings-IsSegmented refl

visit_lem_example :
    (All ReadsOnly (select_node exporting ∷ []) × (visit (select_node exporting ∷ []) ≡ none))
    ⊎ ((¬ All ReadsOnly (select_node exporting ∷ []))
        × ((visit (select_node exporting ∷ []) ≡ some select_into_denied)
            ⊎ (visit (select_node exporting ∷ []) ≡ some for_update_denied)))
visit_lem_example = visit_lem (select_node exporting ∷ [])
