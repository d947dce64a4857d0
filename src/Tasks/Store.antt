-- ===== src/Tasks/Store.antt =====
-- Transactions on tasks, classes, events and controls:
-- uta/tasks/storage/task_repository.py, event_repository.py and scheduler_repository.py.
use unit_test_agent.Prelude.{
  ℕ, suc, String, Bool, true, false, ◌&&◌, ◌||◌, Option, none, some, List, [], ◌∷◌, ◌++◌, Json,
  ◌==◌, nat_eq, string_eq, if◌then◌else◌, Result, ok, err, sum_by, sort_by, int_leb,
}
use unit_test_agent.Tasks.{
  Env, Db, Task, ClassTask, Event, Control, Refusal, integrity_error, Action, RepoStatus, created,
  queued, running, stop_requested, stopped, ClassStatus, class_pass, class_pending, class_created,
  class_queued, class_running, class_stopped, class_generated, class_is_terminal,
}
use unit_test_agent.Tasks.Engine.{require_durable_generation_task}
use unit_test_agent.Tasks.Actions.{pure, reading, writing, and_then}
use unit_test_agent.Tasks.Tables.{
  find_row, modify_row, Assign, assign_all, given_status, set_updated, set_total, set_completed,
  set_passed, set_failed, ClassAssign, class_assign_all, class_set_updated,
}

abbrev pub find_task : ℕ → Db → Option Task
find_task i db = find_row (λ t. t.id) i db.tasks

abbrev pub modify_task : ℕ → (Task → Task) → Db → Db
modify_task i f db = record db { tasks = modify_row (λ t. t.id) i f db.tasks }

abbrev pub get_repo_task : ℕ → Action (Option Task)
get_repo_task i = reading (find_task i)

abbrev pub find_class : ℕ → Db → Option ClassTask
find_class i db = find_row (λ c. c.id) i db.classes

abbrev pub modify_class : ℕ → (ClassTask → ClassTask) → Db → Db
modify_class i f db = record db { classes = modify_row (λ c. c.id) i f db.classes }

abbrev pub get_class_task : ℕ → Action (Option ClassTask)
get_class_task i = reading (find_class i)

-- The classes of a task, in the order of their ids.
abbrev pub classes_of : ℕ → List ClassTask → List ClassTask
classes_of i [] = []
classes_of i (c ∷ cs) = let rest = classes_of i cs in if c.repo_task_id == i then c ∷ rest else rest

-- ORDER BY priority ASC, id ASC: the order of the ids is that of the table.
abbrev pub list_class_tasks : ℕ → Action (List ClassTask)
list_class_tasks i =
    reading (λ db. sort_by (λ c d. int_leb c.priority d.priority) (classes_of i db.classes))

-- `data.get("status") in {…}`
abbrev pub reactivates : Option RepoStatus → Bool
reactivates (some created) = true
reactivates (some queued) = true
reactivates (some running) = true
reactivates (some stop_requested) = true
reactivates (some stopped) = true
reactivates _ = false

module _ (env : Env) where
  -- The guard of `_update`: a missing row is not an error.
  unfoldable pub reactivation : Bool → Option Task → Result Refusal (Unit {0})
  unfolding require_durable_generation_task
  reactivation true (some t) = require_durable_generation_task env t
  reactivation _ _ = ok tt

  -- `_update` on `repo_tasks`
  unfoldable pub update_repo_task : ℕ → List Assign → Action (Unit {0})
  unfolding reactivation
  update_repo_task i [] = pure tt
  update_repo_task i (a ∷ as') = λ db.
      and_then (reactivation (reactivates (given_status (a ∷ as'))) (find_task i db))
        (λ _. writing (modify_task i (assign_all (a ∷ as' ++ set_updated env.now ∷ [])))) db

  -- `_update` on `class_tasks`
  unfoldable pub update_class_task : ℕ → List ClassAssign → Action (Unit {0})
  update_class_task i [] = pure tt
  update_class_task i (a ∷ as') =
      writing (modify_class i (class_assign_all (a ∷ as' ++ class_set_updated env.now ∷ [])))

-- FOREIGN KEY(class_task_id)
unfoldable pub class_exists : Option ℕ → Db → Bool
class_exists none db = true
class_exists (some c) db = elim (find_class c db) [ some _ ↦ true | none ↦ false ]

unfoldable pub task_exists : ℕ → Db → Bool
task_exists i db = elim (find_task i db) [ some _ ↦ true | none ↦ false ]

-- What `add_event` is given besides the ids.
pub record NewEvent : Type 0 where
  pub event_type : String
  pub message : String
  pub stage : Option String
  pub severity : String
  pub payload : Json

module _ (env : Env) where
  -- INSERT INTO task_events, within a transaction
  abbrev pub insert_event : ℕ → Option ℕ → NewEvent → Db → Db
  insert_event i c new db = record db {
    events =
        db.events
        ++ record {
          id = db.next_event;
          repo_task_id = i;
          class_task_id = c;
          event_type = new.event_type;
          severity = new.severity;
          stage = new.stage;
          message = new.message;
          payload_json = env.dumps new.payload;
          created_at = env.now;
        }
          ∷ [];
    next_event = suc db.next_event;
  }

  unfoldable pub add_event : ℕ → Option ℕ → NewEvent → Action (Unit {0})
  unfolding task_exists class_exists
  add_event i c new db =
      if task_exists i db && class_exists c db
      then (ok tt, insert_event i c new db)
      else (err integrity_error, db)

abbrev pub event_count : (Event → Bool) → List Event → ℕ
event_count p = sum_by (λ e. if p e then 1 else 0)

abbrev pub is_failure_of : ℕ → Event → Bool
is_failure_of i e = e.repo_task_id == i && e.event_type == "task_failed"

unfoldable pub count_task_failures : ℕ → Action ℕ
count_task_failures i = reading (λ db. event_count (is_failure_of i) db.events)

unfoldable pub request_control : ℕ → String → Option String → Action (Unit {0})
unfolding task_exists
request_control i action reason db =
    if task_exists i db
    then (
      ok tt,
      record db {
        controls =
            db.controls
            ++ record { repo_task_id = i; action = action; reason = reason; acknowledged_at = none }
              ∷ [];
      },
    )
    else (err integrity_error, db)

abbrev pub is_open : ℕ → Control → Bool
is_open i c = c.repo_task_id == i && elim c.acknowledged_at [ none ↦ true | some _ ↦ false ]

last_open : ℕ → List Control → Option Control
last_open i [] = none
last_open i (c ∷ cs) =
    let rest = last_open i cs in
    elim rest [ some d ↦ some d | none ↦ if is_open i c then some c else none ]

unfoldable pub latest_control : ℕ → Action (Option Control)
unfolding last_open
latest_control i = reading (λ db. last_open i db.controls)

-- `if action: clauses.append("action=?")`
abbrev names_action : Option String → Control → Bool
names_action none c = true
names_action (some a) c = c.action == a || a == ""

unfoldable pub acknowledge_rows : String → ℕ → Option String → List Control → List Control
acknowledge_rows now i action [] = []
acknowledge_rows now i action (c ∷ cs) =
    (if is_open i c && names_action action c then record c { acknowledged_at = some now } else c)
    ∷ acknowledge_rows now i action cs

unfoldable pub acknowledge_controls : Env → ℕ → Option String → Action (Unit {0})
unfolding acknowledge_rows
acknowledge_controls env i action =
    writing (λ db. record db { controls = acknowledge_rows env.now i action db.controls })

-- `status='PASS'` and `status NOT IN ('PASS', 'CREATED', …)`
abbrev pub passed : ClassStatus → Bool
passed class_pass = true
passed _ = false

abbrev pub counts_as_failed : ClassStatus → Bool
counts_as_failed class_pass = false
counts_as_failed class_created = false
counts_as_failed class_pending = false
counts_as_failed class_queued = false
counts_as_failed class_running = false
counts_as_failed class_stopped = false
counts_as_failed class_generated = false
counts_as_failed _ = true

-- `SUM(CASE WHEN … THEN 1 ELSE 0 END)` over the classes of a task
abbrev pub class_count : (ClassStatus → Bool) → List ClassTask → ℕ
class_count p = sum_by (λ c. if p c.status then 1 else 0)

-- The counts of `aggregate_repo_task`, as `_refresh_repo_counts` stores them.
abbrev pub counts : List ClassTask → List Assign
counts cs =
    set_total (sum_by (λ c. 1) cs)
    ∷ set_completed (class_count class_is_terminal cs)
    ∷ set_passed (class_count passed cs)
    ∷ set_failed (class_count counts_as_failed cs)
    ∷ []

unfoldable pub refresh_repo_counts : Env → ℕ → Action (Unit {0})
unfolding update_repo_task
refresh_repo_counts env i db = update_repo_task env i (counts (classes_of i db.classes)) db
