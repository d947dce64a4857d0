-- ===== src/Tasks/Scenarios.antt =====
-- Runs of the task tables.
use unit_test_agent.Prelude.{
  arith, any, ltb, ◌⊎◌, sum_by, not, ◌&&◌, ◌||◌, All, pos, String, true, false, none, some, List,
  [], ◌∷◌, ◌++◌, length, null, bool, int, object, Fields, end, field, ok, err, ◌≡◌, refl, ap, subst,
  ◌==◌, string_eq, if◌then◌else◌,
}
use unit_test_agent.Tasks.{
  stop_requested, runtime_error, failed, poisoned, Env, Db, Task, Event, RepoStatus, created,
  queued,
}
use unit_test_agent.Tasks.Engine.{
  version_key, compatibility_key, durable_generation_snapshot, classify_generation_snapshot,
  require_durable_generation_task,
}
use unit_test_agent.Tasks.Engine.Snapshots.{Reads, durable_generation_snapshot_roundtrip}
use unit_test_agent.Tasks.Actions.{◌>>=◌}
use unit_test_agent.Tasks.Lifecycle.{unblock, new_event}
use unit_test_agent.Tasks.Store.{
  find_task, insert_event, count_task_failures, update_repo_task, acknowledge_controls, add_event,
}
use unit_test_agent.Tasks.Finish.{Finish, finish_task_with_terminal_event}
use unit_test_agent.Tasks.Finish.Twice.{finish_task_with_terminal_event_twice}
use unit_test_agent.Tasks.Progress.{
  ProgressItem, Admission, prepared, first_events, after_cursor, append_progress_event_batch,
  events_since, prune_progress_events,
}
use unit_test_agent.Tasks.Progress.Sizes.{asks, plain, payload_bytes}
use unit_test_agent.Tasks.Progress.Rows.{Appended}
use unit_test_agent.Tasks.Progress.Bounds.{Bounded, Admits, append_progress_event_batch-Bounded}
use unit_test_agent.Tasks.Progress.Pages.{events_since_pages}
use unit_test_agent.Tasks.Recovery.{
  no_force, resume_found, refuse_pending, resume_task, preemptions, failure_of, mark_failed,
}
use unit_test_agent.Tasks.Recovery.Atomic.{Unchanged, resume_task-Unchanged}
use unit_test_agent.Tasks.Scheduler.{
  NewTask, new_task, create_repo_task, ClaimOptions, candidates, acquire_next_task,
}
use unit_test_agent.Tasks.Scheduler.Candidates.{Queue}
use unit_test_agent.Tasks.Scheduler.Turns.{Claims, acquire_next_task-Claims}
use unit_test_agent.Tasks.Requests.{
  Admissible, Request, creates, acquires, fails, unblocks, prunes, run, run_all, Readable,
}
use unit_test_agent.Tasks.Requests.Durable.{AllDurable, run_all-AllDurable}
use unit_test_agent.Tasks.Requests.Closed.{AllClosed, run_all-AllClosed}
use unit_test_agent.Tasks.Requests.Cursor.{Numbered, Continues, run_all-Numbered}
use unit_test_agent.Tasks.Recovery.Quarantine.{Failed, Reached, mark_failed-Failed}
use unit_test_agent.Tasks.Requests.Locks.{Grants, locked, repo_paths, acquire_next_task-Grants}
use unit_test_agent.Tasks.Requests.Exclusive.{Exclusive, asked, Reach, here, next, Reach-Exclusive}

abbrev snapshot : Fields
snapshot = field compatibility_key (bool true) (field version_key (int (pos 2)) end)

abbrev pub env : Env
env = record {
  loads = λ s. if s == "v2" then some (object snapshot) else none;
  dumps = λ j. "v2";
  now = "t0";
  quarantine_threshold = pos 2;
}

durable : durable_generation_snapshot end ≡ ok snapshot
unfolding durable_generation_snapshot
durable = refl

read_back : Reads env.loads env.dumps snapshot
read_back = (snapshot, refl, λ k. refl, λ k. refl)

durable_generation_snapshot_roundtrip_example : classify_generation_snapshot env.loads "v2" ≡ none
durable_generation_snapshot_roundtrip_example =
    durable_generation_snapshot_roundtrip env.loads env.dumps end snapshot durable read_back

abbrev task : NewTask
task = record {
  repo_path = "/repo";
  priority = pos 100;
  status = none;
  config_snapshot = none;
  total_classes = 1;
}

abbrev readable : (now : String) → Readable (record env { now = now }) task
readable now fs h =
    subst (Reads env.loads env.dumps)
      (ap (λ r. elim r as (λ _. Fields) [ ok x ↦ x | err _ ↦ end ])
        (subst (λ r. r ≡ ok fs) durable h))
      read_back

abbrev empty : Db
empty = record {
  tasks = [];
  classes = [];
  events = [];
  controls = [];
  heartbeats = [];
  next_task = 1;
  next_event = 1;
}

abbrev one_at_a_time : ClaimOptions
one_at_a_time = record {
  allow_same_repo_concurrency = false;
  include_failed = false;
  exclude_task_ids = [];
}

abbrev life : List (Request × String)
life =
    (creates task, "t1")
    ∷ (creates task, "t2")
    ∷ (acquires one_at_a_time, "t3")
    ∷ (acquires one_at_a_time, "t4")
    ∷ (fails 1 "boom" "failed", "t5")
    ∷ (unblocks 1, "t6")
    ∷ (prunes "t9", "t7")
    ∷ []

abbrev status_of : Task → RepoStatus
status_of t = t.status

abbrev statuses : List Task → List RepoStatus
statuses [] = []
statuses (t ∷ ts) = status_of t ∷ statuses ts

lived : statuses (run_all env life empty).tasks ≡ queued ∷ created ∷ []
unfolding run_all prune_progress_events unblock ◌>>=◌ mark_failed count_task_failures
    finish_task_with_terminal_event acquire_next_task create_repo_task durable_generation_snapshot
    require_durable_generation_task classify_generation_snapshot update_repo_task
    acknowledge_controls add_event
lived = refl

abbrev admissible : All (λ r. Admissible env r.0) life
admissible = ((readable "t0", refl), ((readable "t0", refl), (tt, (tt, (tt, (tt, (tt, tt)))))))

run_all-AllDurable_example : AllDurable env.loads (run_all env life empty)
run_all-AllDurable_example = run_all-AllDurable env life empty admissible (tt, tt) tt

run_all-AllClosed_example : AllClosed (run_all env life empty)
run_all-AllClosed_example = run_all-AllClosed env life empty admissible (tt, tt) tt

abbrev pub queue : Db
queue = record empty {
  tasks = new_task env 1 task snapshot ∷ new_task env 2 task snapshot ∷ [];
  next_task = 3;
}

acquire_next_task-Claims_example :
    (waiting : List Task) × Queue one_at_a_time queue.tasks waiting
    × Claims env one_at_a_time queue waiting
        (acquire_next_task env one_at_a_time queue).0
        (acquire_next_task env one_at_a_time queue).1
acquire_next_task-Claims_example =
    acquire_next_task-Claims env one_at_a_time queue (refl, (refl, tt))

acquire_next_task-Grants_example :
    Grants
      (λ t. t.repo_path)
      (locked queue)
      (repo_paths (candidates one_at_a_time queue.tasks))
      (acquire_next_task env one_at_a_time queue).0
      (locked (acquire_next_task env one_at_a_time queue).1)
acquire_next_task-Grants_example =
    acquire_next_task-Grants env one_at_a_time queue refl
      ((omega arith, (omega arith, tt)), (refl, (refl, tt)))

abbrev claims : Db
claims = run (record env { now = "t3" }) (acquires one_at_a_time) queue

abbrev steps : Reach env queue (run (record env { now = "t4" }) (acquires one_at_a_time) claims)
steps =
    next (next here (asked "t3" (acquires one_at_a_time) queue tt refl))
      (asked "t4" (acquires one_at_a_time) claims tt refl)

Reach-Exclusive_example :
    Exclusive (run (record env { now = "t4" }) (acquires one_at_a_time) claims).tasks
Reach-Exclusive_example =
    Reach-Exclusive env queue (run (record env { now = "t4" }) (acquires one_at_a_time) claims)
      steps ((omega arith, (omega arith, tt)), (refl, (refl, tt))) ((refl, tt), (tt, tt))

abbrev finish : Finish
finish = failure_of env false "boom" "failed"

finished_first : (finish_task_with_terminal_event env 1 finish queue).0 ≡ ok 2
unfolding finish_task_with_terminal_event
finished_first = refl

finish_task_with_terminal_event_twice_example :
    ((finish_task_with_terminal_event
        (record env { now = "t9" })
        1
        finish
        (finish_task_with_terminal_event env 1 finish queue).1).0
      ≡ ok 2)
    × ((finish_task_with_terminal_event
          (record env { now = "t9" })
          1
          finish
          (finish_task_with_terminal_event env 1 finish queue).1).1.events
        ≡ (finish_task_with_terminal_event env 1 finish queue).1.events)
finish_task_with_terminal_event_twice_example =
    finish_task_with_terminal_event_twice env "t9" 1 finish queue 2 finished_first

abbrev said : ProgressItem
said = record {
  event_type = none;
  severity = none;
  stage = none;
  message = some "step";
  payload = null;
}

abbrev pub first_task : Task
first_task = new_task env 1 task snapshot

append_progress_event_batch-Bounded_example :
    (a : Admission) × (u : Task) × (fit : List ProgressItem) × ((append_progress_event_batch env 1
        (said ∷ said ∷ [])
        (pos 1)
        (pos 100)
        queue).0
      ≡ ok a)
    × (find_task 1 (append_progress_event_batch env 1 (said ∷ said ∷ []) (pos 1) (pos 100) queue).1
        ≡ some u)
    × Bounded env 1 100 first_task u a
    × Admits env 1 100 0 0 (said ∷ said ∷ []) fit
    × (a.admitted_events ≡ length fit)
    × (a.admitted_serialized_bytes ≡ sum_by (payload_bytes env) fit)
    × Appended env 1 fit
        (if a.truncated && not first_task.progress_truncated then 1 else 0)
        queue
        (append_progress_event_batch env 1 (said ∷ said ∷ []) (pos 1) (pos 100) queue).1
    × (u.progress_truncated ≡ (first_task.progress_truncated || a.truncated))
    × (prepared (said ∷ said ∷ []) ≡ plain (said ∷ said ∷ []))
    × (a.truncated
        ≡ (any asks (said ∷ said ∷ []) || ltb (length fit) (length (prepared (said ∷ said ∷ [])))))
    × (a.truncated ≡ false → fit ≡ said ∷ said ∷ [])
append_progress_event_batch-Bounded_example =
    append_progress_event_batch-Bounded env 1 (said ∷ said ∷ []) (pos 1) (pos 100) first_task queue
      refl (omega arith) (omega arith)

abbrev drop_two : List Event → List Event
drop_two (d ∷ e ∷ es) = es
drop_two _ = []

-- Two events, then a third.
abbrev told : Db
told =
    insert_event env 1 none (new_event "a" "one" none "INFO")
      (insert_event env 1 none (new_event "b" "two" none "INFO") queue)

abbrev told_more : Db
told_more = insert_event env 1 none (new_event "c" "three" none "INFO") told

abbrev last_event : List Event
last_event = drop_two told_more.events

read_first : events_since 1 (pos 0) (pos 1) told ≡ (ok (first_events 1 told.events), told)
unfolding events_since
read_first = refl

events_since_pages_example :
    (more : List Event) × (events_since 1 (pos 1) (pos 1) told_more ≡ (ok more, told_more))
    × (first_events 1 told.events ++ more ≡ first_events 2 (after_cursor 1 0 told_more.events))
events_since_pages_example =
    events_since_pages 1 0 (pos 1) (pos 1) told told_more last_event (first_events 1 told.events)
      refl ((omega arith, (omega arith, tt)), ((omega arith, tt), (tt, tt))) read_first

run_all-Numbered_example :
    Numbered (run_all env life empty) × Continues empty (run_all env life empty)
run_all-Numbered_example = run_all-Numbered env life empty admissible (tt, tt) (tt, tt)

-- One failure is on record, and two are the threshold.
abbrev failed_once : Db
failed_once = insert_event env 1 none (new_event "task_failed" "boom" none "ERROR") queue

nothing_preempted : preemptions failed_once.events ≡ []
unfolding preemptions
nothing_preempted = refl

mark_failed-Failed_example :
    (Reached (pos 2) 1 × Failed 1 1 poisoned (mark_failed env 1 "again" "failed" failed_once).1)
    ⊎ ((¬ Reached (pos 2) 1) × Failed 1 1 failed (mark_failed env 1 "again" "failed" failed_once).1)
mark_failed-Failed_example =
    mark_failed-Failed env 1 "again" "failed" first_task failed_once nothing_preempted refl refl
      refl

-- A task that is asked to stop.
abbrev stopping : Db
stopping = record queue { tasks = record first_task { status = stop_requested } ∷ [] }

still_pending : (resume_task env no_force 1 stopping).0 ≡ err runtime_error
unfolding resume_task resume_found refuse_pending add_event require_durable_generation_task ◌>>=◌
    classify_generation_snapshot
still_pending = refl

resume_task-Unchanged_example : Unchanged stopping (resume_task env no_force 1 stopping).1
resume_task-Unchanged_example =
    resume_task-Unchanged env no_force 1 stopping runtime_error still_pending
