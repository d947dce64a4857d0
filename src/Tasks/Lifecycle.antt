-- ===== src/Tasks/Lifecycle.antt =====
-- The state transitions of uta/tasks/lifecycle/state.py, except the three that resume preempted
-- tasks.
pub mod Keeps
use unit_test_agent.Prelude.{
  ℕ, ℤ, pos, negsuc, suc, decimal, String, Bool, true, false, ◌||◌, Option, none, some, List, [],
  ◌∷◌, Json, object, Fields, end, ◌==◌, string_eq, if◌then◌else◌, Result, ok, err, ◌+++◌,
}
use unit_test_agent.Tasks.{
  Env, Db, Task, ClassTask, Control, Refusal, value_error, Action, RepoStatus, queued, running,
  stop_requested, stopped, completed, cancelled, poisoned, budget_exceeded, failed, ClassStatus,
  class_created, class_pending, class_queued, class_running, class_stopped, class_cancelled,
}
use unit_test_agent.Tasks.Engine.{require_durable_generation_task}
use unit_test_agent.Tasks.Actions.{pure, raise, and_then, for_each, ◌>>=◌, ◌>>◌}
use unit_test_agent.Tasks.Tables.{
  Assign, set_status, set_stage, set_detail, set_started, set_finished, set_stop_requested,
  set_last_error, set_error, class_set_status, class_set_stage, class_set_current_stage,
  class_set_finished, class_set_last_error, class_set_error,
}
use unit_test_agent.Tasks.Store.{
  get_repo_task, list_class_tasks, update_repo_task, update_class_task, NewEvent, add_event,
  request_control, latest_control, acknowledge_controls,
}
use unit_test_agent.Tasks.Finish.{Finish, finish_task_with_terminal_event, status_name, text_or}

abbrev pub new_event : String → String → Option String → String → NewEvent
new_event kind message stage severity = record {
  event_type = kind;
  message = message;
  stage = stage;
  severity = severity;
  payload = object end;
}

abbrev pub with_payload : Fields → NewEvent → NewEvent
with_payload fs e = record e { payload = object fs }

-- `str` of a number
abbrev pub int_text : ℤ → String
int_text (pos n) = decimal n
int_text (negsuc n) = "-" +++ decimal (suc n)

abbrev given_text : Option String → Option String
given_text none = none
given_text (some s) = if s == "" then none else some s

abbrev start_of : Option Task → Option String
start_of none = none
start_of (some t) = given_text t.started_at

-- `{"CREATED", "PENDING", "QUEUED", "RUNNING", "STOPPED"}`
abbrev pub is_unfinished : ClassStatus → Bool
is_unfinished class_created = true
is_unfinished class_pending = true
is_unfinished class_queued = true
is_unfinished class_running = true
is_unfinished class_stopped = true
is_unfinished _ = false

abbrev pub stop_words : String → Bool
stop_words a = a == "stop" || a == "cancel"

abbrev pub ending : RepoStatus → String → String → String → List Assign → List String → Finish
ending s message stage severity fields summaries = record {
  status = s;
  message = message;
  stage = stage;
  severity = severity;
  payload = end;
  task_fields = fields;
  summary_event_types = summaries;
}

abbrev pub errors : String → List Assign
errors message = set_last_error (some message) ∷ set_error (some message) ∷ []

abbrev unblockable : RepoStatus → Bool
unblockable poisoned = true
unblockable budget_exceeded = true
unblockable failed = true
unblockable _ = false

-- A check that may raise, as a statement.
abbrev pub checking : Result Refusal (Unit {0}) → Action (Unit {0})
checking r db = (r, db)

module _ (env : Env) where
  unfoldable pub start_task : ℕ → Action (Unit {0})
  start_task i = do
    update_repo_task env i (
        set_status queued
        ∷ set_stage (some "queued")
        ∷ set_started none
        ∷ set_finished none
        ∷ set_last_error none
        ∷ set_error none
        ∷ [])
    add_event env i none
        (new_event "task_queued" "Task queued for daemon execution" (some "queued") "INFO")

  unfoldable pub mark_running : ℕ → String → Option String → Action (Unit {0})
  mark_running i stage detail = do
    row ← get_repo_task i
    update_repo_task env i (
        set_status running
        ∷ set_stage (some stage)
        ∷ set_detail detail
        ∷ set_started (some (text_or (start_of row) env.now))
        ∷ set_finished none
        ∷ set_last_error none
        ∷ set_error none
        ∷ [])
    add_event env i none
        (new_event "task_running" (text_or detail "Task running") (some stage) "INFO")

  unfoldable pub stop_task : ℕ → Option String → Action (Unit {0})
  stop_task i reason = do
    request_control i "stop" reason
    update_repo_task env i
        (set_status stop_requested ∷ set_stop_requested (some env.now) ∷ set_detail reason ∷ [])
    add_event env i none (new_event "task_stopped" (text_or reason "Stop requested") none "WARNING")

  unfoldable pub mark_stopped : ℕ → Option String → String → Action (Unit {0})
  mark_stopped i reason stage = do
    acknowledge_controls env i (some "stop")
    update_repo_task env i (
        set_status stopped
        ∷ set_stage (some stage)
        ∷ set_detail reason
        ∷ set_finished (some env.now)
        ∷ set_last_error reason
        ∷ set_error reason
        ∷ [])
    add_event env i none (
        new_event "task_stopped" (text_or reason "Task stopped cooperatively") (some stage)
          "WARNING")

  control_reason : Option Control → Option String
  control_reason none = none
  control_reason (some c) =
      if stop_words c.action then some (text_or c.reason (c.action +++ " requested")) else none

  requested_reason : Option Task → Option Control → Option String
  unfolding control_reason
  requested_reason none c = control_reason c
  requested_reason (some t) c = elim t.status [
    | stop_requested ↦ some (text_or t.current_detail "stop requested")
    | _ ↦ control_reason c
  ]

  unfoldable pub check_stop_requested : ℕ → Action (Option String)
  unfolding requested_reason
  check_stop_requested i = do
    task ← get_repo_task i
    control ← latest_control i
    pure (requested_reason task control)

  cancel_class : Option String → ClassTask → Action (Unit {0})
  cancel_class reason c =
      if is_unfinished c.status
      then update_class_task env c.id (
          class_set_status class_cancelled
          ∷ class_set_stage (some "cancelled")
          ∷ class_set_current_stage (some "cancelled")
          ∷ class_set_finished (some env.now)
          ∷ class_set_last_error reason
          ∷ class_set_error reason
          ∷ [])
      else pure tt

  unfoldable pub cancel_task : ℕ → Option String → Action ℕ
  unfolding cancel_class
  cancel_task i reason = do
    request_control i "cancel" reason
    rows ← list_class_tasks i
    for_each rows (cancel_class reason)
    finish_task_with_terminal_event env i (
        ending cancelled (text_or reason "Task cancelled") "cancelled" "WARNING" []
          ("task_cancelled" ∷ []))

  unfoldable pub mark_poisoned : ℕ → String → Action ℕ
  mark_poisoned i message =
      finish_task_with_terminal_event env i
        (ending poisoned message "quarantined" "ERROR" (errors message) ("task_poisoned" ∷ []))

  unblock_found : ℕ → Option Task → Action (Unit {0})
  unblock_found i none = raise value_error
  unblock_found i (some t) = do
    checking (require_durable_generation_task env t)
    checking (if unblockable t.status then ok tt else err value_error)
    let from : String = "Unblocked from " +++ status_name t.status
    update_repo_task env i (
        set_status queued
        ∷ set_stage (some "unblocked")
        ∷ set_detail (some from)
        ∷ set_finished none
        ∷ set_error none
        ∷ [])
    acknowledge_controls env i none
    add_event env i none (new_event "task_unblocked" from (some "unblocked") "INFO")

  unfoldable pub unblock : ℕ → Action (Unit {0})
  unfolding unblock_found
  unblock i = do task ← get_repo_task i; unblock_found i task
