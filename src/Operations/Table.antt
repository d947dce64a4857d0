-- ===== src/Operations/Table.antt =====
-- The rows of the table `workflow_operations` and the arguments of its transactions:
-- uta/tasks/storage/operation_repository.py. Columns that hold JSON are the text that `json_dumps`
-- wrote, and a time is the text of `now_iso()`.
use unit_test_agent.Prelude.{ℕ, String, Bool, true, false, Option, none, some, List}

pub data Step : Type 0 where
  turn interpret deterministic : Step

pub data Status : Type 0 where
  started completed failed cancelled : Status

pub data Closed : Type 0 where
  closed_failed closed_cancelled : Closed

-- `WorkflowOperationConflict`, `KeyError` and `sqlite3.IntegrityError`
pub data Refusal : Type 0 where
  conflict not_found integrity_error : Refusal

pub record Row : Type 0 where
  pub operation_id : String
  pub repo_task_id : ℕ
  pub workflow_run_id : String
  pub unit_id : String
  pub phase : String
  pub operation_step : Step
  pub attempt : ℕ
  pub execution_ordinal : ℕ
  pub status : Status
  pub input_fingerprint : String
  pub resulting_workspace_fingerprint : Option String
  pub result_artifact_path : Option String
  pub result_artifact_sha256 : Option String
  pub output_fingerprints_json : String
  pub prerequisite_operation_ids_json : String
  pub schema_version : ℕ
  pub session_id : Option String
  pub superseded_by_operation_id : Option String
  pub started_at : String
  pub completed_at : Option String
  pub updated_at : String
  pub error_kind : Option String
  pub error : Option String

-- The ids of `repo_tasks`, which a row must name, and the rows.
pub record Db : Type 0 where
  pub task_ids : List ℕ
  pub operations : List Row

-- The arguments of `start_workflow_operation`.
pub record Claim : Type 0 where
  pub operation_id : String
  pub repo_task_id : ℕ
  pub workflow_run_id : String
  pub unit_id : String
  pub phase : String
  pub operation_step : Step
  pub attempt : ℕ
  pub execution_ordinal : ℕ
  pub input_fingerprint : String
  pub prerequisite_operation_ids_json : String
  pub schema_version : ℕ
  pub session_id : Option String

-- The arguments of `complete_workflow_operation`.
pub record Completion : Type 0 where
  pub resulting_workspace_fingerprint : String
  pub result_artifact_path : String
  pub result_artifact_sha256 : String
  pub output_fingerprints_json : String
  pub session_id : Option String

-- The arguments of `_finish_workflow_operation`.
pub record Closing : Type 0 where
  pub status : Closed
  pub error_kind : String
  pub error : String
  pub resulting_workspace_fingerprint : Option String
  pub result_artifact_path : Option String
  pub result_artifact_sha256 : Option String
  pub output_fingerprints_json : Option String
  pub session_id : Option String

abbrev pub step_beq : Step → Step → Bool
step_beq turn turn = true
step_beq interpret interpret = true
step_beq deterministic deterministic = true
step_beq _ _ = false

-- COALESCE(a, b)
abbrev pub coalesce {ℓ} : {A : Type ℓ} → Option A → Option A → Option A
coalesce none b = b
coalesce (some a) b = some a

abbrev pub coalesce_or {ℓ} : {A : Type ℓ} → Option A → A → A
coalesce_or none b = b
coalesce_or (some a) b = a

-- The rows of a slot: `ORDER BY execution_ordinal DESC LIMIT 1`.
pub record Slot : Type 0 where
  pub repo_task_id : ℕ
  pub workflow_run_id : String
  pub unit_id : String
  pub phase : String
  pub operation_step : Step
  pub attempt : ℕ
