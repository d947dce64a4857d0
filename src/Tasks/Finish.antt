-- ===== src/Tasks/Finish.antt =====
-- `finish_task_with_terminal_event` of uta/tasks/progress_store.py.
pub mod Twice
use unit_test_agent.Prelude.{
  ℕ, String, Bool, true, false, ◌&&◌, Option, none, some, List, [], ◌∷◌, ◌++◌, Json, text, object,
  Fields, ◌==◌, nat_eq, string_eq, if◌then◌else◌, Result, ok, err,
}
use unit_test_agent.Tasks.{
  Env, Db, Task, Event, Refusal, value_error, key_error, Action, RepoStatus, is_terminal, created,
  queued, running, stop_requested, stopped, completed, failed, cancelled, poisoned, budget_exceeded,
}
use unit_test_agent.Tasks.Actions.{pure, raise}
use unit_test_agent.Tasks.Engine.{put_field}
use unit_test_agent.Tasks.Tables.{
  Assign, assign_all, set_status, set_stage, set_detail, set_finished, set_updated,
}
use unit_test_agent.Tasks.Store.{find_task, modify_task, insert_event}

abbrev pub status_name : RepoStatus → String
status_name created = "CREATED"
status_name queued = "QUEUED"
status_name running = "RUNNING"
status_name stop_requested = "STOP_REQUESTED"
status_name stopped = "STOPPED"
status_name completed = "COMPLETED"
status_name failed = "FAILED"
status_name cancelled = "CANCELLED"
status_name poisoned = "POISONED"
status_name budget_exceeded = "BUDGET_EXCEEDED"

pub record Finish : Type 0 where
  pub status : RepoStatus
  pub message : String
  pub stage : String
  pub severity : String
  pub payload : Fields
  pub task_fields : List Assign
  pub summary_event_types : List String

-- `updates.get("finished_at")`
abbrev given_finished : List Assign → Option String
given_finished [] = none
given_finished (set_finished s ∷ as') = elim (given_finished as') [ some s' ↦ some s' | none ↦ s ]
given_finished (_ ∷ as') = given_finished as'

-- `x or now`
abbrev pub text_or : Option String → String → String
text_or none d = d
text_or (some s) d = if s == "" then d else s

abbrev pub finishing : Env → Finish → List Assign
finishing env f =
    f.task_fields
    ++ set_status f.status
      ∷ set_stage (some f.stage)
      ∷ set_detail (some f.message)
      ∷ set_finished (some (text_or (given_finished f.task_fields) env.now))
      ∷ set_updated env.now
      ∷ []

abbrev pub is_terminal_of : ℕ → Event → Bool
is_terminal_of i e = e.repo_task_id == i && e.event_type == "task_terminal"

-- ORDER BY id DESC LIMIT 1
abbrev pub last_terminal : ℕ → List Event → Option ℕ
last_terminal i [] = none
last_terminal i (e ∷ es) =
    let rest = last_terminal i es in
    elim rest [ some j ↦ some j | none ↦ if is_terminal_of i e then some e.id else none ]

abbrev pub status_beq : RepoStatus → RepoStatus → Bool
status_beq s t = status_name s == status_name t

unfoldable pub prior_terminal : ℕ → Finish → Task → Db → Option ℕ
prior_terminal i f t db = if status_beq t.status f.status then last_terminal i db.events else none

module _ (env : Env) where
  abbrev pub insert_summaries : ℕ → Finish → List String → Db → Db
  insert_summaries i f [] db = db
  insert_summaries i f (s ∷ ss) db = insert_summaries i f ss (
      insert_event env i none
        (record {
          event_type = s;
          message = f.message;
          stage = some f.stage;
          severity = f.severity;
          payload = object f.payload;
        })
        db)

  abbrev pub insert_terminal : ℕ → Finish → Db → Db
  insert_terminal i f db =
      insert_event env i none
        (record {
          event_type = "task_terminal";
          message = f.message;
          stage = some f.stage;
          severity = f.severity;
          payload = object (put_field "status" (text (status_name f.status)) f.payload);
        })
        db

  -- The transaction after the update of the row.
  unfoldable pub close_stream : ℕ → Finish → Option ℕ → Db → Result Refusal ℕ × Db
  close_stream i f (some cursor) db = (ok cursor, db)
  close_stream i f none db =
      let summed : Db = insert_summaries i f f.summary_event_types db in
      (ok summed.next_event, insert_terminal i f summed)

  unfoldable pub finish_found : ℕ → Finish → Option Task → Action ℕ
  unfolding close_stream prior_terminal
  finish_found i f none = raise key_error
  finish_found i f (some t) = λ db.
      close_stream i f (prior_terminal i f t db) (modify_task i (assign_all (finishing env f)) db)

  unfoldable pub finish_task_with_terminal_event : ℕ → Finish → Action ℕ
  unfolding finish_found
  finish_task_with_terminal_event i f db =
      if is_terminal f.status then finish_found i f (find_task i db) db else (err value_error, db)
