-- ===== src/Tasks.antt =====
-- The task tables of uta/tasks: the statuses of uta/tasks/models.py, the rows of
-- uta/tasks/storage/schema.py as far as the lifecycle reads or writes them, and statements on the
-- tables. A statement may raise, and what was committed before outlives the exception.
pub mod Engine
pub mod Actions
pub mod Tables
pub mod Store
pub mod Finish
pub mod Lifecycle
pub mod Recovery
pub mod Requeue
pub mod Keeping
pub mod Progress
pub mod Scheduler
pub mod Requests
pub mod Rerun
mod Scenarios
mod Workbench
use unit_test_agent.Prelude.{ℕ, ℤ, String, Bool, true, false, Option, List, Json, Result}

-- `REPO_TASK_STATUSES`
pub data RepoStatus : Type 0 where
  created queued running stop_requested stopped : RepoStatus
  completed failed cancelled poisoned budget_exceeded : RepoStatus

-- `TERMINAL_REPO_STATUSES`
abbrev pub is_terminal : RepoStatus → Bool
is_terminal completed = true
is_terminal failed = true
is_terminal cancelled = true
is_terminal poisoned = true
is_terminal budget_exceeded = true
is_terminal _ = false

-- `CLASS_TASK_STATUSES`
pub data ClassStatus : Type 0 where
  class_pending class_created class_queued class_running class_stopped class_generated : ClassStatus
  class_pass class_fail class_mutation_fail class_budget_exceeded class_provider_error : ClassStatus
  class_provider_rate_limited class_push_failed class_unsafe_diff class_llm_stalled : ClassStatus
  class_cancelled : ClassStatus

-- `TERMINAL_CLASS_STATUSES`
abbrev pub class_is_terminal : ClassStatus → Bool
class_is_terminal class_pending = false
class_is_terminal class_created = false
class_is_terminal class_queued = false
class_is_terminal class_running = false
class_is_terminal class_stopped = false
class_is_terminal class_generated = false
class_is_terminal _ = true

-- A row of `repo_tasks`.
pub record Task : Type 0 where
  pub id : ℕ
  pub repo_path : String
  pub priority : ℤ
  pub status : RepoStatus
  pub current_stage : Option String
  pub current_detail : Option String
  pub started_at : Option String
  pub finished_at : Option String
  pub stop_requested_at : Option String
  pub last_error : Option String
  pub error : Option String
  pub resume_count : ℕ
  pub config_snapshot_json : String
  pub total_classes : ℕ
  pub completed_classes : ℕ
  pub passed_classes : ℕ
  pub failed_classes : ℕ
  pub progress_event_count : ℕ
  pub progress_event_bytes : ℕ
  pub progress_truncated : Bool
  pub created_at : String
  pub updated_at : String

-- A row of `class_tasks`.
pub record ClassTask : Type 0 where
  pub id : ℕ
  pub repo_task_id : ℕ
  pub class_fqn : String
  pub target_id : Option String
  pub batch_key : Option String
  pub priority : ℤ
  pub status : ClassStatus
  pub stage : Option String
  pub current_stage : Option String
  pub current_detail : Option String
  pub started_at : Option String
  pub finished_at : Option String
  pub last_error : Option String
  pub error : Option String
  pub updated_at : String

-- A row of `task_events`, of an event that belongs to a task.
pub record Event : Type 0 where
  pub id : ℕ
  pub repo_task_id : ℕ
  pub class_task_id : Option ℕ
  pub event_type : String
  pub severity : String
  pub stage : Option String
  pub message : String
  pub payload_json : String
  pub created_at : String

-- A row of `task_control`.
pub record Control : Type 0 where
  pub repo_task_id : ℕ
  pub action : String
  pub reason : Option String
  pub acknowledged_at : Option String

-- A row of `runner_heartbeats`.
pub record Heartbeat : Type 0 where
  pub runner_id : String
  pub current_repo_task_id : Option ℕ
  pub status : String
  pub heartbeat_at : Option String
  pub updated_at : String
  pub created_at : String

-- The tables, each in the order of its ids, and the ids that come next.
pub record Db : Type 0 where
  pub tasks : List Task
  pub classes : List ClassTask
  pub events : List Event
  pub controls : List Control
  pub heartbeats : List Heartbeat
  pub next_task : ℕ
  pub next_event : ℕ

-- The exceptions: `LegacyGenerationTaskError` with its reason, and the built-in ones.
pub data Refusal : Type 0 where
  legacy_task : String → Refusal
  key_error value_error runtime_error type_error integrity_error : Refusal

-- What a statement reads besides the tables: `json.loads` (`none` where it raises), `json_dumps`,
-- `now_iso` and `settings.quarantine_threshold`. One call reads one time.
pub record Env : Type 0 where
  pub loads : String → Option Json
  pub dumps : Json → String
  pub now : String
  pub quarantine_threshold : ℤ

abbrev pub Action : Type 0 → Type 0
Action A = Db → Result Refusal A × Db
