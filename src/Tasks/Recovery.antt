-- ===== src/Tasks/Recovery.antt =====
-- Resuming, requeueing and preempting: uta/tasks/lifecycle/recovery.py, and the transitions of
-- uta/tasks/lifecycle/state.py that resume preempted tasks.
pub mod Keeps
pub mod Quarantine
pub mod Atomic
use unit_test_agent.Prelude.{
  ℕ, ℤ, pos, negsuc, suc, ◌+◌, String, Bool, true, false, ◌&&◌, ◌||◌, not, Option, none, some, List,
  [], ◌∷◌, ◌++◌, Json, null, bool, int, text, float, array, object, Fields, end, field, get_field,
  truthy, ◌==◌, string_eq, nat_eq, elem, if◌then◌else◌, Result, ok, err, ◌+++◌, ltb, leb, int_leb,
  int_beq, text_le, sort_by, decimal, option_eq,
}
use unit_test_agent.Tasks.{
  Env, Db, Task, ClassTask, Event, Control, Heartbeat, Refusal, key_error, value_error,
  runtime_error, type_error, Action, RepoStatus, queued, running, stop_requested, stopped,
  completed, poisoned, budget_exceeded, failed, ClassStatus, class_pass, class_cancelled,
  class_running, class_queued, class_is_terminal,
}
use unit_test_agent.Tasks.Engine.{require_durable_generation_task}
use unit_test_agent.Tasks.Actions.{pure, raise, reading, and_then, for_each, ◌>>=◌, ◌>>◌}
use unit_test_agent.Tasks.Tables.{
  Assign, set_status, set_stage, set_detail, set_started, set_finished, set_stop_requested,
  set_last_error, set_error, set_resume_count, set_priority, class_set_status, class_set_stage,
  class_set_current_stage, class_set_detail, class_set_finished, class_set_last_error,
  class_set_error, class_set_priority,
}
use unit_test_agent.Tasks.Store.{
  get_repo_task, get_class_task, list_class_tasks, update_repo_task, update_class_task, NewEvent,
  add_event, acknowledge_controls, count_task_failures, refresh_repo_counts,
}
use unit_test_agent.Tasks.Finish.{Finish, finish_task_with_terminal_event, text_or, status_beq}
use unit_test_agent.Tasks.Lifecycle.{
  new_event, with_payload, int_text, is_unfinished, ending, errors, checking, stop_task,
}

-- The flags of `resume_task`.
pub record Force : Type 0 where
  pub force_rerun_failed : Bool
  pub force_rerun_all : Bool

abbrev pub no_force : Force
no_force = record { force_rerun_failed = false; force_rerun_all = false }

abbrev rerun_if_failed : ClassStatus → Bool
rerun_if_failed class_pass = false
rerun_if_failed class_cancelled = false
rerun_if_failed s = class_is_terminal s

-- `row["status"] in resumable`
abbrev pub resumable : Force → ClassStatus → Bool
resumable force s =
    is_unfinished s
    || (force.force_rerun_failed && rerun_if_failed s)
    || (force.force_rerun_all && class_is_terminal s)

-- `int(payload.get("preempted_by_task_id") or 0)`. A text or a float is not converted here: the
-- only writer stores an int.
unfoldable pub to_int : Json → Result Refusal ℤ
to_int (int n) = ok n
to_int (bool true) = ok (pos 1)
to_int v = if truthy v then err type_error else ok (pos 0)

preempted_by : Option Json → Result Refusal ℤ
unfolding to_int
preempted_by (some (object fs)) = to_int (get_field "preempted_by_task_id" fs)
preempted_by _ = ok (pos 0)

unfoldable pub preemptions : List Event → List Event
preemptions [] = []
preemptions (e ∷ es) =
    let rest = preemptions es in if e.event_type == "task_preempted" then e ∷ rest else rest

-- `threshold > 0 and failures + 1 >= threshold`
abbrev pub poisons : ℤ → ℕ → Bool
poisons threshold failures = int_leb (pos 1) threshold && int_leb threshold (pos (failures + 1))

abbrev pub poison_message : ℤ → String → String
poison_message threshold message =
    "Auto-quarantined after " +++ int_text threshold +++ " failures. Last: " +++ message

module _ (env : Env) where
  resume_class : Force → ClassTask → Action (Unit {0})
  resume_class force c =
      if resumable force c.status
      then update_class_task env c.id (
          class_set_status class_queued
          ∷ class_set_stage (some "queued")
          ∷ class_set_current_stage (some "queued")
          ∷ class_set_finished none
          ∷ class_set_last_error none
          ∷ class_set_error none
          ∷ [])
      else pure tt

  unfoldable pub refuse_pending : ℕ → Task → Action (Unit {0})
  refuse_pending i t =
      if status_beq t.status stop_requested
      then add_event env i none (
          new_event "task_resume_blocked"
            ("Cannot resume task while stop is still pending: "
              +++ text_or t.current_detail "stop requested")
            (some "queued") "WARNING")
        >> raise runtime_error
      else pure tt

  -- `resume_task` after its tests.
  requeue_resumed : Force → ℕ → Task → Action (Unit {0})
  unfolding resume_class
  requeue_resumed force i t = do
    update_repo_task env i (
        set_status queued
        ∷ set_stop_requested none
        ∷ set_finished none
        ∷ set_resume_count (suc t.resume_count)
        ∷ set_stage (some "queued")
        ∷ set_detail (some "resume requested")
        ∷ set_last_error none
        ∷ set_error none
        ∷ [])
    acknowledge_controls env i none
    rows ← list_class_tasks i
    for_each rows (resume_class force)
    refresh_repo_counts env i
    add_event env i none (
        with_payload
          (field "force_rerun_failed" (bool force.force_rerun_failed)
            (field "force_rerun_all" (bool force.force_rerun_all) end))
          (new_event "task_resumed" "Task resumed and queued" (some "queued") "INFO"))

  unfoldable pub resume_found : Force → ℕ → Option Task → Action (Unit {0})
  unfolding refuse_pending requeue_resumed
  resume_found force i none = raise key_error
  resume_found force i (some t) = do
    checking (require_durable_generation_task env t)
    refuse_pending i t
    requeue_resumed force i t

  unfoldable pub resume_task : Force → ℕ → Action (Unit {0})
  unfolding resume_found
  resume_task force i = do row ← get_repo_task i; resume_found force i row

  -- The body of the loop of `resume_preempted_tasks` after its tests.
  resume_stopped : ℕ → ℕ → Option Task → Action (List ℕ)
  unfolding resume_task
  resume_stopped urgent i none = pure []
  resume_stopped urgent i (some t) =
      if status_beq t.status stopped
      then resume_task no_force i
        >> add_event env urgent none (
            with_payload (field "preempted_task_id" (int (pos i)) end) (
              new_event "preempted_task_resumed" ("Resumed preempted batch task " +++ decimal i)
                (some "finished") "INFO"))
        >> pure (i ∷ [])
      else pure []

  resume_if_own : ℕ → ℕ → Bool → Action (List ℕ)
  unfolding resume_stopped
  resume_if_own urgent i false = pure []
  resume_if_own urgent i true = do task ← get_repo_task i; resume_stopped urgent i task

  resume_one : ℕ → Event → Action (List ℕ)
  unfolding preempted_by resume_if_own
  resume_one urgent e = do
    by ← λ db. (preempted_by (env.loads e.payload_json), db)
    resume_if_own urgent e.repo_task_id (int_beq by (pos urgent))

  -- One pass over the events that were read, with the ids that were resumed.
  resume_each : ℕ → List Event → Action (List ℕ)
  unfolding resume_one
  resume_each urgent [] = pure []
  resume_each urgent (e ∷ es) = do
    resumed ← resume_one urgent e
    rest ← resume_each urgent es
    pure (resumed ++ rest)

  unfoldable pub resume_preempted_tasks : ℕ → Action (List ℕ)
  unfolding resume_each preemptions
  resume_preempted_tasks urgent = do
    rows ← reading (λ db. preemptions db.events)
    resume_each urgent rows

  -- What `mark_failed` asks for.
  abbrev pub failure_of : Bool → String → String → Finish
  failure_of true message stage =
      let said : String = poison_message env.quarantine_threshold message in
      ending poisoned said "quarantined" "ERROR" (errors said)
        ("task_failed" ∷ "task_poisoned" ∷ [])
  failure_of false message stage =
      ending failed message stage "ERROR" (errors message) ("task_failed" ∷ [])

  unfoldable pub mark_failed : ℕ → String → String → Action (List ℕ)
  unfolding resume_preempted_tasks
  mark_failed i message stage = do
    failures ← count_task_failures i
    finish_task_with_terminal_event env i
        (failure_of (poisons env.quarantine_threshold failures) message stage)
    resume_preempted_tasks i

  unfoldable pub mark_completed : ℕ → String → Action (List ℕ)
  unfolding resume_preempted_tasks
  mark_completed i message = do
    finish_task_with_terminal_event env i
        (ending completed message "finished" "INFO" [] ("task_completed" ∷ []))
    resume_preempted_tasks i

  unfoldable pub mark_budget_exceeded : ℕ → String → Action (List ℕ)
  unfolding resume_preempted_tasks
  mark_budget_exceeded i message = do
    finish_task_with_terminal_event env i (
        ending budget_exceeded message "budget_exceeded" "ERROR" (errors message)
          ("task_budget_exceeded" ∷ []))
    resume_preempted_tasks i
