-- ===== src/Tasks/Requeue.antt =====
-- Requeueing tasks whose runner is gone, preempting and reprioritizing:
-- uta/tasks/lifecycle/recovery.py.
pub mod Keeps
use unit_test_agent.Prelude.{
  ℕ, ℤ, pos, negsuc, suc, String, Bool, true, false, ◌&&◌, ◌||◌, not, Option, none, some, List, [],
  ◌∷◌, ◌++◌, Json, null, int, text, object, Fields, end, field, ◌==◌, string_eq, nat_eq, option_eq,
  elem, if◌then◌else◌, Result, ok, err, ◌+++◌, ltb, leb, int_leb, text_le, sort_by, decimal,
}
use unit_test_agent.Tasks.{
  Env, Db, Task, ClassTask, Heartbeat, Refusal, key_error, Action, RepoStatus, queued, running,
  ClassStatus, class_running, class_queued,
}
use unit_test_agent.Tasks.Actions.{pure, raise, reading, for_each, ◌>>=◌, ◌>>◌}
use unit_test_agent.Tasks.Tables.{
  Assign, set_status, set_stage, set_detail, set_finished, set_stop_requested, set_last_error,
  set_error, set_priority, class_set_status, class_set_stage, class_set_current_stage,
  class_set_detail, class_set_finished, class_set_last_error, class_set_error, class_set_priority,
}
use unit_test_agent.Tasks.Store.{
  get_repo_task, get_class_task, list_class_tasks, update_repo_task, update_class_task, NewEvent,
  add_event, refresh_repo_counts,
}
use unit_test_agent.Tasks.Finish.{text_or, status_beq}
use unit_test_agent.Tasks.Lifecycle.{new_event, with_payload, int_text, stop_task}

abbrev pub is_running : RepoStatus → Bool
is_running running = true
is_running _ = false

abbrev class_is_running : ClassStatus → Bool
class_is_running class_running = true
class_is_running _ = false

-- The age of a time in whole seconds; `none` where the text is no ISO time.
abbrev pub Age : Type 0
Age = String → Option ℕ

-- COALESCE(heartbeat_at, updated_at, created_at)
abbrev beat_order : Heartbeat → String
beat_order h = elim h.heartbeat_at [ some s ↦ s | none ↦ h.updated_at ]

-- `heartbeat["heartbeat_at"] or heartbeat["updated_at"] or heartbeat["created_at"]`
abbrev beat_time : Heartbeat → String
beat_time h = text_or (some (text_or h.heartbeat_at h.updated_at)) h.created_at

latest_beat : ℕ → List Heartbeat → Option Heartbeat
latest_beat i [] = none
latest_beat i (h ∷ hs) =
    let rest = latest_beat i hs in
    if h.current_repo_task_id == some i && h.status == "RUNNING"
    then elim rest [
      | none ↦ some h
      | some g ↦ if text_le (beat_order g) (beat_order h) then some h else some g
    ]
    else rest

latest_running_heartbeat : ℕ → Action (Option Heartbeat)
unfolding latest_beat
latest_running_heartbeat i = reading (λ db. latest_beat i db.heartbeats)

-- `max(1.0, float(stale_after_seconds))`
abbrev at_least_one : ℕ → ℕ
at_least_one n = if leb 1 n then n else 1

unfoldable pub is_stale_heartbeat : Age → ℕ → Heartbeat → Bool
is_stale_heartbeat age threshold h = elim (age (beat_time h)) [
  | none ↦ true
  | some seconds ↦ leb threshold seconds
]

-- `heartbeat and not self._is_stale_heartbeat(heartbeat, …)`
lives : Age → ℕ → Option Heartbeat → Bool
unfolding is_stale_heartbeat
lives age threshold none = false
lives age threshold (some h) = not (is_stale_heartbeat age threshold h)

running_tasks : List Task → List Task
running_tasks [] = []
running_tasks (t ∷ ts) =
    let rest = running_tasks ts in if is_running t.status then t ∷ rest else rest

urgent_victims : Task → List Task → List Task
urgent_victims u [] = []
urgent_victims u (t ∷ ts) =
    let rest = urgent_victims u ts in
    if t.repo_path == u.repo_path
      && is_running t.status
      && not (t.id == u.id)
      && int_leb (pos 100) t.priority
    then t ∷ rest
    else rest

-- ORDER BY started_at ASC: NULL comes first.
abbrev started_le : Task → Task → Bool
started_le t u = elim t.started_at [
  | none ↦ true
  | some s ↦ elim u.started_at [ none ↦ false | some v ↦ text_le s v ]
]

insert_id : ℕ → List ℕ → List ℕ
insert_id i [] = i ∷ []
insert_id i (j ∷ js) =
    let rest = insert_id i js in if i == j then j ∷ js else if leb i j then i ∷ j ∷ js else j ∷ rest

-- `sorted({int(value) for value in …})`
sorted_ids : List ℕ → List ℕ
unfolding insert_id
sorted_ids [] = []
sorted_ids (i ∷ is) = insert_id i (sorted_ids is)

module _ (env : Env) where
  requeue_class : String → ClassTask → Action (Unit {0})
  requeue_class detail c =
      if class_is_running c.status
      then update_class_task env c.id (
          class_set_status class_queued
          ∷ class_set_stage (some "queued")
          ∷ class_set_current_stage (some "queued")
          ∷ class_set_detail (some detail)
          ∷ class_set_finished none
          ∷ class_set_last_error none
          ∷ class_set_error none
          ∷ [])
      else pure tt

  -- The update that both requeueing loops make.
  requeue_task : ℕ → String → NewEvent → Action (Unit {0})
  unfolding requeue_class
  requeue_task i detail said = do
    update_repo_task env i (
        set_status queued
        ∷ set_stage (some "queued")
        ∷ set_detail (some detail)
        ∷ set_finished none
        ∷ set_stop_requested none
        ∷ set_last_error none
        ∷ set_error none
        ∷ [])
    rows ← list_class_tasks i
    for_each rows (requeue_class detail)
    add_event env i none said
    refresh_repo_counts env i

  orphan_event : ℕ → Option Heartbeat → NewEvent
  orphan_event threshold beat =
      with_payload
        (field "stale_after_seconds" (int (pos threshold)) (
          field "heartbeat_runner_id" (elim beat [ some h ↦ text h.runner_id | none ↦ null ])
            (field "heartbeat_at"
              (elim beat [ some h ↦ text (text_or h.heartbeat_at h.updated_at) | none ↦ null ])
              end)))
        (new_event "orphaned_task_requeued" "requeued after stale runner heartbeat" (some "queued")
          "WARNING")

  requeue_unless : Bool → ℕ → String → NewEvent → Action (List ℕ)
  unfolding requeue_task
  requeue_unless true i detail said = pure []
  requeue_unless false i detail said = requeue_task i detail said >> pure (i ∷ [])

  requeue_orphan : List ℕ → ℕ → Age → Task → Action (List ℕ)
  unfolding requeue_unless latest_running_heartbeat lives orphan_event
  requeue_orphan active threshold age t = do
    beat ← latest_running_heartbeat t.id
    requeue_unless (elem t.id active || lives age threshold beat) t.id
        "requeued after stale runner heartbeat" (orphan_event threshold beat)

  collect_each : {A : Type 0} → (A → Action (List ℕ)) → List A → Action (List ℕ)
  collect_each body [] = pure []
  collect_each body (x ∷ xs) = do first ← body x; rest ← collect_each body xs; pure (first ++ rest)

  unfoldable pub requeue_orphaned_running_tasks : List ℕ → ℕ → Age → Action (List ℕ)
  unfolding running_tasks collect_each requeue_orphan
  requeue_orphaned_running_tasks active threshold age = do
    rows ← reading (λ db. running_tasks db.tasks)
    collect_each (requeue_orphan active (at_least_one threshold) age) rows

  abbrev is_running_row : Option Task → Bool
  is_running_row none = false
  is_running_row (some t) = is_running t.status

  requeue_killed : String → ℕ → Action (List ℕ)
  unfolding requeue_unless
  requeue_killed reason i = do
    task ← get_repo_task i
    let detail : String = "requeued after daemon shutdown: " +++ reason
    requeue_unless (not (is_running_row task)) i detail (
        with_payload (field "reason" (text reason) end)
          (new_event "daemon_shutdown_requeued" detail (some "queued") "WARNING"))

  unfoldable pub requeue_daemon_shutdown_tasks : List ℕ → String → Action (List ℕ)
  unfolding sorted_ids collect_each requeue_killed
  requeue_daemon_shutdown_tasks active reason =
      collect_each (requeue_killed reason) (sorted_ids active)

  preempt : ℕ → Task → Action (List ℕ)
  preempt urgent t = do
    let reason : String = "preempted by urgent RDC repair task " +++ decimal urgent
    let payload : Fields =
        field "preempted_by_task_id" (int (pos urgent))
          (field "preempted_task_id" (int (pos t.id)) end)
    stop_task env t.id (some reason)
    add_event env t.id none
        (with_payload payload (new_event "task_preempted" reason (some "preempted") "WARNING"))
    add_event env urgent none (
        with_payload payload (
          new_event "task_preempting" ("Requested stop for batch task " +++ decimal t.id)
            (some "preempted") "INFO"))
    pure (t.id ∷ [])

  preempt_for : ℕ → Option Task → Action (List ℕ)
  unfolding urgent_victims collect_each preempt
  preempt_for urgent none = raise key_error
  preempt_for urgent (some u) = do
    rows ← reading (λ db. sort_by started_le (urgent_victims u db.tasks))
    collect_each (preempt urgent) rows

  unfoldable pub preempt_running_same_repo_for_urgent : ℕ → Action (List ℕ)
  unfolding preempt_for
  preempt_running_same_repo_for_urgent urgent = do
    task ← get_repo_task urgent
    preempt_for urgent task

  unfoldable pub reprioritize_task : ℕ → ℤ → Action (Unit {0})
  reprioritize_task i priority = do
    update_repo_task env i (set_priority priority ∷ [])
    add_event env i none
        (new_event "task_reprioritized" ("Priority set to " +++ int_text priority) none "INFO")

  reprioritize_found : ℕ → ℤ → Option ClassTask → Action (Unit {0})
  reprioritize_found i priority none = raise key_error
  reprioritize_found i priority (some c) = do
    update_class_task env i (class_set_priority priority ∷ [])
    add_event env c.repo_task_id (some i) (
        new_event "class_reprioritized" ("Class priority set to " +++ int_text priority) none
          "INFO")

  unfoldable pub reprioritize_class : ℕ → ℤ → Action (Unit {0})
  unfolding reprioritize_found
  reprioritize_class i priority = do row ← get_class_task i; reprioritize_found i priority row
