-- ===== src/Tasks/Requests.antt =====
-- One request after another on the task tables of uta/tasks: what users, the daemon and its runners
-- ask of the manager, in any order.
pub mod Ids
pub mod Durable
pub mod Closed
pub mod Exclusive
pub mod Cursor
pub mod Locks
use unit_test_agent.Prelude.{
  ℕ, ℤ, String, Bool, true, false, ◌||◌, not, Option, none, some, List, [], ◌∷◌, Fields, Result, ok,
  err, ◌≡◌, refl, sym, subst, All,
}
use unit_test_agent.Tasks.{
  Env, Db, Task, ClassTask, Control, ClassStatus, Refusal, Action, is_terminal, RepoStatus, created,
  queued, running, stop_requested, stopped, completed, failed, cancelled, poisoned, budget_exceeded,
}
use unit_test_agent.Tasks.Actions.{Keeps}
use unit_test_agent.Tasks.Engine.{durable_generation_snapshot, require_durable_generation_task}
use unit_test_agent.Tasks.Engine.Snapshots.{Reads}
use unit_test_agent.Tasks.Keeping.{Keeping}
use unit_test_agent.Tasks.Store.{find_task, NewEvent}
use unit_test_agent.Tasks.Rerun.{Digest}
use unit_test_agent.Tasks.Rerun.Clean.{
  Lineage, RerunRequest, FreshIds, Supersession, Scope, clean_rerun_generation,
}
use unit_test_agent.Tasks.Rerun.Clean.Writes.{requeued_tables, clean_rerun_generation-Requeues}
use unit_test_agent.Tasks.Lifecycle.{
  start_task, mark_running, stop_task, mark_stopped, cancel_task, mark_poisoned, unblock,
}
use unit_test_agent.Tasks.Recovery.{
  Force, resume_task, mark_failed, mark_completed, mark_budget_exceeded,
}
use unit_test_agent.Tasks.Requeue.{
  Age, requeue_orphaned_running_tasks, requeue_daemon_shutdown_tasks,
  preempt_running_same_repo_for_urgent, reprioritize_task, reprioritize_class,
}
use unit_test_agent.Tasks.Progress.{
  ProgressItem, append_progress_event_batch, prune_progress_events,
}
use unit_test_agent.Tasks.Scheduler.{
  NewTask, fields_or_none, status_or_created, claimable, create_repo_task, ClaimOptions,
  acquire_next_task,
}
use unit_test_agent.Tasks.Lifecycle.Keeps as Life
use unit_test_agent.Tasks.Recovery.Keeps as Back
use unit_test_agent.Tasks.Requeue.Keeps as Again

pub data Request : Type 0 where
  creates : NewTask → Request
  starts : ℕ → Request
  runs : ℕ → String → Option String → Request
  stops : ℕ → Option String → Request
  halts : ℕ → Option String → String → Request
  cancels : ℕ → Option String → Request
  fails : ℕ → String → String → Request
  completes : ℕ → String → Request
  quarantines : ℕ → String → Request
  exceeds : ℕ → String → Request
  unblocks : ℕ → Request
  resumes : Force → ℕ → Request
  recovers : List ℕ → ℕ → Age → Request
  shuts_down : List ℕ → String → Request
  preempts : ℕ → Request
  reprioritizes : ℕ → ℤ → Request
  reprioritizes_class : ℕ → ℤ → Request
  acquires : ClaimOptions → Request
  appends : ℕ → List ProgressItem → ℤ → ℤ → Request
  prunes : String → Request
  reruns : Digest → FreshIds → RerunRequest → List Supersession → List Scope → Request

-- A clean rerun is one transaction: where it raises, nothing is written.
abbrev rerun_tables : Db → Result Refusal (String × Lineage) → Db
rerun_tables db (ok (_, l)) = l.db
rerun_tables db (err e) = db

-- The tables after a request, whether it returned or raised.
abbrev pub run : Env → Request → Db → Db
run env (creates new) db = (create_repo_task env new db).1
run env (starts i) db = (start_task env i db).1
run env (runs i stage detail) db = (mark_running env i stage detail db).1
run env (stops i reason) db = (stop_task env i reason db).1
run env (halts i reason stage) db = (mark_stopped env i reason stage db).1
run env (cancels i reason) db = (cancel_task env i reason db).1
run env (fails i message stage) db = (mark_failed env i message stage db).1
run env (completes i message) db = (mark_completed env i message db).1
run env (quarantines i message) db = (mark_poisoned env i message db).1
run env (exceeds i message) db = (mark_budget_exceeded env i message db).1
run env (unblocks i) db = (unblock env i db).1
run env (resumes force i) db = (resume_task env force i db).1
run env (recovers active threshold age) db =
    (requeue_orphaned_running_tasks env active threshold age db).1
run env (shuts_down active reason) db = (requeue_daemon_shutdown_tasks env active reason db).1
run env (preempts urgent) db = (preempt_running_same_repo_for_urgent env urgent db).1
run env (reprioritizes i priority) db = (reprioritize_task env i priority db).1
run env (reprioritizes_class i priority) db = (reprioritize_class env i priority db).1
run env (acquires c) db = (acquire_next_task env c db).1
run env (appends i events rows bytes) db =
    (append_progress_event_batch env i events rows bytes db).1
run env (prunes before) db = (prune_progress_events before db).1
run env (reruns digest fresh r supersessions scopes) db = rerun_tables db (
    clean_rerun_generation env digest fresh r
      (record { db = db; supersessions = supersessions; scopes = scopes }))

-- Each request at its time.
unfoldable pub run_all : Env → List (Request × String) → Db → Db
run_all env [] db = db
run_all env ((r, now) ∷ rs) db = run_all env rs (run (record env { now = now }) r db)

-- A snapshot that a new task is given can be read back.
abbrev pub Readable : Env → NewTask → Type 0
Readable env new =
    (fs : Fields)
    → durable_generation_snapshot (fields_or_none new.config_snapshot) ≡ ok fs
    → Reads env.loads env.dumps fs

pub claimable_live : (s : RepoStatus) → claimable false s ≡ true → is_terminal s ≡ false
claimable_live created h = refl
claimable_live queued h = refl
claimable_live running h = cc
claimable_live stop_requested h = cc
claimable_live stopped h = cc
claimable_live completed h = cc
claimable_live failed h = cc
claimable_live cancelled h = cc
claimable_live poisoned h = cc
claimable_live budget_exceeded h = cc

abbrev pub Admissible : Env → Request → Type 0
Admissible env (creates new) =
    Readable env new × (claimable false (status_or_created new.status) ≡ true)
Admissible env _ = Unit

-- The requests that may start a second runner on a repository.
abbrev pub permits : Bool → Request → Bool
permits may_run (runs i stage detail) = may_run
permits may_run (acquires c) = may_run || not c.allow_same_repo_concurrency
permits may_run _ = true

-- All requests keep the invariant; a second runner on a repository is started only where the first
-- argument says so.
pub record Serving (env : Env) (may_run : Bool) (I : Db → Type 0) : Type 0 where
  pub keeping : Keeping env may_run I
  pub creating :
      (new : NewTask)
      → Readable env new
      → claimable false (status_or_created new.status) ≡ true
      → Keeps I (create_repo_task env new)
  pub acquiring :
      (c : ClaimOptions)
      → (may_run || not c.allow_same_repo_concurrency) ≡ true
      → Keeps I (acquire_next_task env c)
  pub appending :
      (i : ℕ) (events : List ProgressItem) (rows bytes : ℤ)
      → Keeps I (append_progress_event_batch env i events rows bytes)
  pub pruning : (before : String) → Keeps I (prune_progress_events before)
  pub rerunning :
      (i : ℕ) (t : Task) (statuses : List ClassStatus) (cs : List ClassTask) (ks : List Control)
      (new : NewEvent) (db : Db)
      → find_task i db ≡ some t
      → require_durable_generation_task env t ≡ ok tt
      → I db
      → I (requeued_tables env i statuses cs ks new db)

module _ (env : Env) (may_run : Bool) (I : Db → Type 0) (s : Serving env may_run I) where
  reruns-Keeps :
      (digest : Digest) (fresh : FreshIds) (r : RerunRequest) (l : Lineage)
      (o : Result Refusal (String × Lineage))
      → clean_rerun_generation env digest fresh r l ≡ o
      → I l.db
      → I (rerun_tables l.db o)
  reruns-Keeps digest fresh r l (err e) h held = held
  reruns-Keeps digest fresh r l (ok (run', after)) h held =
      let (t, found, guard, statuses, cs, ks, new, is) =
        clean_rerun_generation-Requeues env digest fresh r l after run' h in
      subst I (sym is) (s.rerunning r.task_id t statuses cs ks new l.db found guard held)

  pub run-Keeps :
      (r : Request)
      → Admissible env r
      → permits may_run r ≡ true
      → (db : Db) → I db
      → I (run env r db)
  run-Keeps (creates new) w may = s.creating new w.0 w.1
  run-Keeps (starts i) w may = Life.start_task-Keeps env may_run I s.keeping i
  run-Keeps (runs i stage detail) w may =
      Life.mark_running-Keeps env may_run I s.keeping may i stage detail
  run-Keeps (stops i reason) w may = Life.stop_task-Keeps env may_run I s.keeping i reason
  run-Keeps (halts i reason stage) w may =
      Life.mark_stopped-Keeps env may_run I s.keeping i reason stage
  run-Keeps (cancels i reason) w may = Life.cancel_task-Keeps env may_run I s.keeping i reason
  run-Keeps (fails i message stage) w may =
      Back.mark_failed-Keeps env may_run I s.keeping i message stage
  run-Keeps (completes i message) w may =
      Back.mark_completed-Keeps env may_run I s.keeping i message
  run-Keeps (quarantines i message) w may =
      Life.mark_poisoned-Keeps env may_run I s.keeping i message
  run-Keeps (exceeds i message) w may =
      Back.mark_budget_exceeded-Keeps env may_run I s.keeping i message
  run-Keeps (unblocks i) w may = Life.unblock-Keeps env may_run I s.keeping i
  run-Keeps (resumes force i) w may = Back.resume_task-Keeps env may_run I s.keeping force i
  run-Keeps (recovers active threshold age) w may =
      Again.requeue_orphaned_running_tasks-Keeps env may_run I s.keeping active threshold age
  run-Keeps (shuts_down active reason) w may =
      Again.requeue_daemon_shutdown_tasks-Keeps env may_run I s.keeping active reason
  run-Keeps (preempts urgent) w may =
      Again.preempt_running_same_repo_for_urgent-Keeps env may_run I s.keeping urgent
  run-Keeps (reprioritizes i priority) w may =
      Again.reprioritize_task-Keeps env may_run I s.keeping i priority
  run-Keeps (reprioritizes_class i priority) w may =
      Again.reprioritize_class-Keeps env may_run I s.keeping i priority
  run-Keeps (acquires c) w may = s.acquiring c may
  run-Keeps (appends i events rows bytes) w may = s.appending i events rows bytes
  run-Keeps (prunes before) w may = s.pruning before
  run-Keeps (reruns digest fresh r supersessions scopes) w may = λ db held.
      let l : Lineage = record { db = db; supersessions = supersessions; scopes = scopes } in
      reruns-Keeps digest fresh r l (clean_rerun_generation env digest fresh r l) refl held

pub run_all-Keeps :
    (env : Env) (I : Db → Type 0)
    → ((now : String) → Serving (record env { now = now }) true I)
    → (rs : List (Request × String)) → All (λ r. Admissible env r.0) rs
    → (db : Db) → I db
    → I (run_all env rs db)
unfolding run_all
run_all-Keeps env I s [] w db held = held
run_all-Keeps env I s ((r, now) ∷ rs) w db held =
    run_all-Keeps env I s rs w.1 (run (record env { now = now }) r db) (
      run-Keeps (record env { now = now }) true I (s now) r (admissible r w.0).0
        (admissible r w.0).1 db held)
  where
    admissible :
        (r : Request)
        → Admissible env r
        → Admissible (record env { now = now }) r × (permits true r ≡ true)
    admissible (creates new) w = (w, refl)
    admissible (starts i) w = (tt, refl)
    admissible (runs i stage detail) w = (tt, refl)
    admissible (stops i reason) w = (tt, refl)
    admissible (halts i reason stage) w = (tt, refl)
    admissible (cancels i reason) w = (tt, refl)
    admissible (fails i message stage) w = (tt, refl)
    admissible (completes i message) w = (tt, refl)
    admissible (quarantines i message) w = (tt, refl)
    admissible (exceeds i message) w = (tt, refl)
    admissible (unblocks i) w = (tt, refl)
    admissible (resumes force i) w = (tt, refl)
    admissible (recovers active threshold age) w = (tt, refl)
    admissible (shuts_down active reason) w = (tt, refl)
    admissible (preempts urgent) w = (tt, refl)
    admissible (reprioritizes i priority) w = (tt, refl)
    admissible (reprioritizes_class i priority) w = (tt, refl)
    admissible (acquires c) w = (tt, refl)
    admissible (appends i events rows bytes) w = (tt, refl)
    admissible (prunes before) w = (tt, refl)
    admissible (reruns digest fresh r supersessions scopes) w = (tt, refl)
