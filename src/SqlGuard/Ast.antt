-- ===== src/SqlGuard/Ast.antt =====
-- What internal/sqlguard takes from the TiDB parser package. The syntax tree is seen through the
-- type switches and the fields that the code reads; a pointer field that is only compared with nil
-- is a Bool (true: not nil).
use mission.Prelude.{ℕ, Bool, Option, List, String}
use mission.Prelude.Text.{Text}

-- ast.ExprNode. `no_expr` is a nil interface inside parentheses.
pub data Expr : Type 0 where
  aggregate_func_expr other_expr no_expr : Expr
  parentheses_expr : Expr → Expr

-- ast.SelectLockType; `other_lock` stands for those that the code does not name (FOR UPDATE).
pub data LockType : Type 0 where
  lock_none lock_for_share lock_for_share_no_wait lock_for_share_skip_locked other_lock : LockType

-- `group_by` holds len(GroupBy.Items); a field of `fields` is nil, has a nil Expr, or an Expr.
pub record SelectStmt : Type 0 where
  pub select_into_opt : Bool
  pub lock_info : Option LockType
  pub limit : Bool
  pub group_by : Option ℕ
  pub fields : Option (List (Option (Option Expr)))

-- The dynamic type of an ast.StmtNode, with the fields that are read of it.
pub data Stmt : Type 0 where
  select_stmt : SelectStmt → Stmt
  set_opr_stmt : Bool → Stmt
  insert_stmt : Bool → Stmt
  show_stmt alter_table_stmt begin_stmt call_stmt commit_stmt create_database_stmt : Stmt
  create_table_stmt create_view_stmt create_index_stmt delete_stmt do_stmt : Stmt
  drop_database_stmt drop_table_stmt flush_stmt grant_stmt kill_stmt load_data_stmt : Stmt
  lock_tables_stmt rename_table_stmt revoke_stmt rollback_stmt set_stmt : Stmt
  truncate_table_stmt unlock_tables_stmt update_stmt other_stmt : Stmt

-- An ast.Node as the visitor's `Enter` sees it.
pub data Node : Type 0 where
  select_node : SelectStmt → Node
  other_node : Node

-- What `Restore` writes, or the error it returns.
pub data Restored : Type 0 where
  restored : Text → Restored
  restore_error : String → Restored

-- The parser package, and the upper case of characters above ASCII. `nodes` lists the nodes of a
-- statement in the order in which `Accept` enters them while no node is refused.
pub record SqlLib : Type 1 where
  pub Tree : Type 0
  pub parse : Text → Option (List Tree)
  pub stmt : Tree → Stmt
  pub nodes : Tree → List Node
  pub restore : Tree → Restored
  pub unicode_upper : ℕ → ℕ
