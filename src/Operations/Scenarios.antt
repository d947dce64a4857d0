-- ===== src/Operations/Scenarios.antt =====
-- Runs of the ledger on a small table.
use unit_test_agent.Prelude.{ℕ, String, ◌⊎◌, ◌≡◌, refl, none, some, List, [], ◌∷◌, ok, err}
use unit_test_agent.Operations.Rows.{
  Row, Db, conflict, failed, turn, Claim, Completion, failing, find, new_row,
  start_workflow_operation, completed_row, retry_workflow_operation,
}
use unit_test_agent.Operations.Rows.Requests.{Request, start, complete, finish, retry, run, run_all}
use unit_test_agent.Operations.Rows.Keeping.{Holds}
use unit_test_agent.Operations.Rows.Terminal.{run_all-Holds}
use unit_test_agent.Operations.Rows.Replay.{run_replay}
use unit_test_agent.Operations.Rows.Successor.{Replaced, Followed, retry_workflow_operation_cases}

abbrev claim_of : String → ℕ → Claim
claim_of i ordinal = record {
  operation_id = i;
  repo_task_id = 7;
  workflow_run_id = "run";
  unit_id = "unit";
  phase = "generate_tests";
  operation_step = turn;
  attempt = 0;
  execution_ordinal = ordinal;
  input_fingerprint = "f0";
  prerequisite_operation_ids_json = "[]";
  schema_version = 1;
  session_id = none;
}

abbrev evidence : Completion
evidence = record {
  resulting_workspace_fingerprint = "f1";
  result_artifact_path = "run/a.json";
  result_artifact_sha256 = "00";
  output_fingerprints_json = "{}";
  session_id = some "s1";
}

abbrev no_rows : Db
no_rows = record { task_ids = 7 ∷ []; operations = [] }

abbrev row_a : Row
row_a = completed_row evidence "t1" (new_row (claim_of "a" 0) "t0")

abbrev table_a : Db
table_a = record { task_ids = 7 ∷ []; operations = row_a ∷ [] }

abbrev later_requests : List (Request × String)
later_requests =
    (finish "a" (failing "lost" "lost"), "t2")
    ∷ (retry "a" (claim_of "b" 1) "process_crashed", "t3")
    ∷ []

begun_and_completed :
    run_all ((start (claim_of "a" 0), "t0") ∷ (complete "a" evidence, "t1") ∷ []) no_rows ≡ table_a
unfolding run_all
begun_and_completed = refl

run_all-Holds_example : Holds "a" row_a (run_all later_requests table_a)
run_all-Holds_example =
    run_all-Holds "a" row_a later_requests table_a (unfold find in refl) (λ e. cc)

run_replay_example : run (complete "a" evidence) "t9" table_a ≡ ok (row_a, table_a)
run_replay_example =
    run_replay (7 ∷ []) ((start (claim_of "a" 0), "t0") ∷ []) (complete "a" evidence) "t1" "t9" tt
      (unfold run run_all in refl)

abbrev crashed_table : Db
crashed_table = record { task_ids = 7 ∷ []; operations = new_row (claim_of "a" 0) "t0" ∷ [] }

abbrev retried_table : Db
retried_table = record {
  task_ids = 7 ∷ [];
  operations =
      record (new_row (claim_of "a" 0) "t0") {
        status = failed;
        error_kind = some "process_crashed";
        error = some "process_crashed";
        completed_at = some "t5";
        updated_at = "t5";
        superseded_by_operation_id = some "b";
      }
      ∷ new_row (claim_of "b" 1) "t5"
      ∷ [];
}

retry_workflow_operation_cases_example :
    (q : Row) × (find "a" crashed_table.operations ≡ some q)
    × (Replaced "a"
          (claim_of "b" 1)
          "process_crashed"
          "t5"
          q
          (new_row (claim_of "b" 1) "t5")
          crashed_table
          retried_table
        ⊎ Followed (claim_of "b" 1) q (new_row (claim_of "b" 1) "t5") crashed_table retried_table)
retry_workflow_operation_cases_example =
    retry_workflow_operation_cases "a" (claim_of "b" 1) "process_crashed" "t5" crashed_table
      (unfold retry_workflow_operation in refl)

-- A second claim of an operation with another input is refused.
changed_claim :
    start_workflow_operation (record (claim_of "a" 0) { input_fingerprint = "f9" }) "t2" table_a
    ≡ err conflict
unfolding start_workflow_operation
changed_claim = refl
