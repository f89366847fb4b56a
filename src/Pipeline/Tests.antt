-- ===== src/Pipeline/Tests.antt =====
-- A pipeline whose first SQL has a comment and whose second one runs.
use mission.Prelude.{refl, ℕ, ◌≤◌, false, none, some, [], ◌∷◌, length, All, nat_beq, if◌then◌else◌}
use mission.Prelude.Text.{Text, codes}
use mission.SqlGuard.Ast.{SelectStmt, Stmt, select_stmt, select_node, restored, SqlLib}
use mission.Prelude.Actions.{found, missing}
use mission.Pipeline.Question.{Env, Store, hits, summarized}
use mission.Pipeline.Ask.{ask_question}
use mission.Pipeline.Runs.{has_run}
use mission.Pipeline.Recorded.{AskEnds, IsFresh}
use mission.Pipeline.Asked.{ask_question-AskEnds}
use mission.Pipeline.{Generated, generated, Execution, executed, execute_ask_question_pipeline}
use mission.Pipeline.Executed.{IsApproved, Backed, execute_ask_question_pipeline-IsApproved}

abbrev column_select : SelectStmt
column_select = record {
  select_into_opt = false;
  lock_info = none;
  limit = false;
  group_by = none;
  fields = none;
}

abbrev lenient : SqlLib
lenient = record {
  Tree = Stmt;
  parse = λ t. some (select_stmt column_select ∷ []);
  stmt = λ t. t;
  nodes = λ t. select_node column_select ∷ [];
  restore = λ t. restored (codes "SELECT a FROM t");
  unicode_upper = λ c. c;
}

abbrev improving : ℕ → Text → Text → Generated
improving i prior_sql prior_error =
    generated (if nat_beq i 0 then codes "SELECT a FROM t -- all" else codes "SELECT a FROM t")

abbrev answering : ℕ → Text → Execution
answering i sql = executed [] [] [] [] (record { row_count = 2; elapsed_ms = 5 })

execute_ask_question_pipeline-IsApproved_example :
    All (IsApproved lenient) (execute_ask_question_pipeline lenient improving answering).1
    × ((length (execute_ask_question_pipeline lenient improving answering).1 ≤ 2)
        × Backed lenient
            (execute_ask_question_pipeline lenient improving answering).1
            (execute_ask_question_pipeline lenient improving answering).0)
execute_ask_question_pipeline-IsApproved_example =
    execute_ask_question_pipeline-IsApproved lenient improving answering

-- No semantic layer, and no example.
abbrev asked : Env
asked = record {
  membership = found tt;
  latest_schema = found (record { id = 4; blob = some (record { tables = []; columns = [] }) });
  approved_layer = λ v. missing;
  draft_layer = λ v. missing;
  search_examples = λ q v. hits [];
  generate = λ q c es. improving;
  agent = answering;
  summary = λ q sql rows. summarized (codes "Two.");
  faults = λ n. false;
  now = 9;
}

abbrev start : Store
start = record { runs = []; next_id = 1; calls = 0; sent = [] }

start-IsFresh : IsFresh start
unfolding has_run
start-IsFresh = record { given = refl; unused = refl }

ask_question-AskEnds_example :
    AskEnds lenient 7
      (codes "u")
      start
      (ask_question lenient asked 7 (codes "u") (codes " How many? ") start)
ask_question-AskEnds_example =
    ask_question-AskEnds lenient asked start start-IsFresh 7 (codes "u") (codes " How many? ")
