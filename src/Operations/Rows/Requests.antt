-- ===== src/Operations/Rows/Requests.antt =====
-- Sequences of transactions on the ledger: uta/tasks/storage/operation_repository.py.
use unit_test_agent.Prelude.{String, List, [], ◌∷◌, string_eq, Result, ok, err}
use unit_test_agent.Operations.Rows.{
  Row, Db, Refusal, Claim, Completion, Closing, start_workflow_operation,
  complete_workflow_operation, finish_workflow_operation, retry_workflow_operation,
}

-- The transactions on the table, with the time of each.
pub data Request : Type 0 where
  start : Claim → Request
  complete : String → Completion → Request
  finish : String → Closing → Request
  retry : String → Claim → String → Request

unfoldable pub run : Request → String → Db → Result Refusal (Row × Db)
unfolding start_workflow_operation complete_workflow_operation finish_workflow_operation
    retry_workflow_operation
run (start c) now db = start_workflow_operation c now db
run (complete i c) now db = complete_workflow_operation i c now db
run (finish i c) now db = finish_workflow_operation i c now db
run (retry old c kind) now db = retry_workflow_operation old c kind now db

abbrev pub table_after : Db → Result Refusal (Row × Db) → Db
table_after db (ok (r, db')) = db'
table_after db (err e) = db

-- A refused transaction is rolled back, and the program goes on.
unfoldable pub run_all : List (Request × String) → Db → Db
unfolding run
run_all [] db = db
run_all ((q, now) ∷ qs) db = run_all qs (table_after db (run q now db))
