-- ===== src/Tasks/Scheduler.antt =====
-- Creating and claiming tasks: `create_repo_task` of uta/tasks/storage/task_repository.py and
-- `acquire_next_task` of uta/tasks/storage/scheduler_repository.py.
pub mod Claiming
pub mod Candidates
pub mod Turns
use unit_test_agent.Prelude.{
  ℕ, zero, suc, ℤ, String, Bool, true, false, ◌&&◌, ◌||◌, not, Option, none, some, List, [], ◌∷◌,
  ◌++◌, Json, object, Fields, end, ◌==◌, nat_eq, string_eq, elem, if◌then◌else◌, Result, ok, err,
  ◌>>=◌, int_leb, int_beq, text_le, sort_by, any,
}
use unit_test_agent.Tasks.{
  Env, Db, Task, Refusal, Action, RepoStatus, created, queued, running, stop_requested, failed,
}
use unit_test_agent.Tasks.Engine.{durable_generation_snapshot, require_durable_generation_task}
use unit_test_agent.Tasks.Actions.{and_then}
use unit_test_agent.Tasks.Store.{find_task, modify_task}

-- The fields that `create_repo_task` is given, where they are columns of the model.
pub record NewTask : Type 0 where
  pub repo_path : String
  pub priority : ℤ
  pub status : Option RepoStatus
  pub config_snapshot : Option Fields
  pub total_classes : ℕ

abbrev pub status_or_created : Option RepoStatus → RepoStatus
status_or_created none = created
status_or_created (some s) = s

-- `dict(snapshot or {})`
abbrev pub fields_or_none : Option Fields → Fields
fields_or_none none = end
fields_or_none (some fs) = fs

-- `acquire_next_task`'s arguments.
pub record ClaimOptions : Type 0 where
  pub allow_same_repo_concurrency : Bool
  pub include_failed : Bool
  pub exclude_task_ids : List ℕ

-- status IN (…) AND id NOT IN (…)
abbrev pub claimable : Bool → RepoStatus → Bool
claimable with_failed created = true
claimable with_failed queued = true
claimable with_failed failed = with_failed
claimable with_failed _ = false

abbrev pub is_eligible : ClaimOptions → Task → Bool
is_eligible c t = claimable c.include_failed t.status && not (elem t.id c.exclude_task_ids)

abbrev pub eligible_rows : ClaimOptions → List Task → List Task
eligible_rows c [] = []
eligible_rows c (t ∷ ts) =
    let rest = eligible_rows c ts in if is_eligible c t then t ∷ rest else rest

-- ORDER BY priority ASC, created_at ASC
abbrev pub claim_le : Task → Task → Bool
claim_le t u =
    int_leb t.priority u.priority
    && (not (int_beq t.priority u.priority) || text_le t.created_at u.created_at)

abbrev pub first_rows : ℕ → List Task → List Task
first_rows zero ts = []
first_rows (suc n) [] = []
first_rows (suc n) (t ∷ ts) = t ∷ first_rows n ts

-- The rows that the query reads.
abbrev pub candidates : ClaimOptions → List Task → List Task
candidates c ts = first_rows 20 (sort_by claim_le (eligible_rows c ts))

-- status IN ('RUNNING', 'STOP_REQUESTED')
abbrev pub occupies : RepoStatus → Bool
occupies running = true
occupies stop_requested = true
occupies _ = false

-- A row that occupies the repository of t, and is another.
abbrev pub rival : Task → Task → Bool
rival t u = u.repo_path == t.repo_path && occupies u.status && not (u.id == t.id)

module _ (env : Env) where
  abbrev pub new_task : ℕ → NewTask → Fields → Task
  new_task i new snapshot = record {
    id = i;
    repo_path = new.repo_path;
    priority = new.priority;
    status = status_or_created new.status;
    current_stage = none;
    current_detail = none;
    started_at = none;
    finished_at = none;
    stop_requested_at = none;
    last_error = none;
    error = none;
    resume_count = 0;
    config_snapshot_json = env.dumps (object snapshot);
    total_classes = new.total_classes;
    completed_classes = 0;
    passed_classes = 0;
    failed_classes = 0;
    progress_event_count = 0;
    progress_event_bytes = 0;
    progress_truncated = false;
    created_at = env.now;
    updated_at = env.now;
  }

  unfoldable pub insert_task : NewTask → Fields → Action ℕ
  insert_task new snapshot db = (
    ok db.next_task,
    record db {
      tasks = db.tasks ++ new_task db.next_task new snapshot ∷ [];
      next_task = suc db.next_task;
    },
  )

  unfoldable pub create_repo_task : NewTask → Action ℕ
  unfolding insert_task
  create_repo_task new =
      and_then (durable_generation_snapshot (fields_or_none new.config_snapshot)) (insert_task new)

  abbrev start_if_none : Option String → Option String
  start_if_none none = some env.now
  start_if_none (some s) = some s

  abbrev pub claimed_row : Task → Task
  claimed_row t = record t {
    status = running;
    started_at = start_if_none t.started_at;
    updated_at = env.now;
    current_stage = some "acquired";
  }

  -- The body of the loop after the guard, where `rest` is the rest of the loop.
  claim_row : Bool → Task → Action (Option Task) → Action (Option Task)
  claim_row true t rest = rest
  claim_row false t rest =
      λ db. let after : Db = modify_task t.id claimed_row db in (ok (find_task t.id after), after)

  abbrev pub is_held_back : ClaimOptions → Task → Db → Bool
  is_held_back c t db = not c.allow_same_repo_concurrency && any (rival t) db.tasks

  claim_first : ClaimOptions → List Task → Action (Option Task)
  unfolding claim_row
  claim_first c [] = λ db. (ok none, db)
  claim_first c (t ∷ ts) = λ db.
      and_then (require_durable_generation_task env t)
        (λ _. claim_row (is_held_back c t db) t (claim_first c ts)) db

  unfoldable pub acquire_next_task : ClaimOptions → Action (Option Task)
  unfolding claim_first
  acquire_next_task c db = claim_first c (candidates c db.tasks) db
