-- ===== src/SqlGuard/Kinds.antt =====
-- The two type switches over statements in internal/sqlguard/sqlguard.go: the kinds that `Validate`
-- allows, and `statementConstruct`.
use mission.Prelude.{Bool, true, false, String, if◌then◌else◌}
use mission.SqlGuard.Ast.{
  Stmt, select_stmt, set_opr_stmt, insert_stmt, show_stmt, alter_table_stmt, begin_stmt, call_stmt,
  commit_stmt, create_database_stmt, create_table_stmt, create_view_stmt, create_index_stmt,
  delete_stmt, do_stmt, drop_database_stmt, drop_table_stmt, flush_stmt, grant_stmt, kill_stmt,
  load_data_stmt, lock_tables_stmt, rename_table_stmt, revoke_stmt, rollback_stmt, set_stmt,
  truncate_table_stmt, unlock_tables_stmt, update_stmt, other_stmt,
}

abbrev pub is_allowed : Stmt → Bool
is_allowed (select_stmt _) = true
is_allowed (set_opr_stmt _) = true
is_allowed show_stmt = true
is_allowed _ = false

unfoldable pub statement_construct : Stmt → String
statement_construct alter_table_stmt = "statement_alter"
statement_construct begin_stmt = "statement_begin"
statement_construct call_stmt = "statement_call"
statement_construct commit_stmt = "statement_commit"
statement_construct create_database_stmt = "statement_create"
statement_construct create_table_stmt = "statement_create"
statement_construct create_view_stmt = "statement_create"
statement_construct create_index_stmt = "statement_create"
statement_construct delete_stmt = "statement_delete"
statement_construct do_stmt = "statement_do"
statement_construct drop_database_stmt = "statement_drop"
statement_construct drop_table_stmt = "statement_drop"
statement_construct flush_stmt = "statement_flush"
statement_construct grant_stmt = "statement_grant"
statement_construct (insert_stmt is_replace) =
    if is_replace then "statement_replace" else "statement_insert"
statement_construct kill_stmt = "statement_kill"
statement_construct load_data_stmt = "statement_load_data"
statement_construct lock_tables_stmt = "statement_lock_tables"
statement_construct rename_table_stmt = "statement_rename_table"
statement_construct revoke_stmt = "statement_revoke"
statement_construct rollback_stmt = "statement_rollback"
statement_construct set_stmt = "statement_set"
statement_construct truncate_table_stmt = "statement_truncate"
statement_construct unlock_tables_stmt = "statement_unlock_tables"
statement_construct update_stmt = "statement_update"
statement_construct (select_stmt _) = "statement_disallowed"
statement_construct (set_opr_stmt _) = "statement_disallowed"
statement_construct show_stmt = "statement_disallowed"
statement_construct other_stmt = "statement_disallowed"
