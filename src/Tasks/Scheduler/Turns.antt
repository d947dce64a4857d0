-- ===== src/Tasks/Scheduler/Turns.antt =====
-- Whose turn it is: `acquire_next_task` of uta/tasks/storage/scheduler_repository.py.
use unit_test_agent.Prelude.{
  Bool, true, false, ◌&&◌, ◌||◌, not, Option, none, some, List, [], ◌∷◌, ◌++◌, ◌≡◌, refl, sym, ap,
  ◌∙◌, nat_eq, string_eq, ◌==◌, All, All-imp, any, Result, ok, err,
}
use unit_test_agent.Tasks.{
  Env, Db, Task, Refusal, RepoStatus, created, queued, running, stop_requested, stopped, completed,
  failed, cancelled, poisoned, budget_exceeded,
}
use unit_test_agent.Tasks.Engine.{require_durable_generation_task}
use unit_test_agent.Tasks.Store.{find_task, modify_task}
use unit_test_agent.Tasks.Finish.{status_beq}
use unit_test_agent.Tasks.Scheduler.{
  ClaimOptions, candidates, occupies, rival, is_held_back, acquire_next_task,
}
use unit_test_agent.Tasks.Scheduler.Candidates.{Queue, candidates-Queue}
use unit_test_agent.Tasks.Scheduler.Claiming.{Waits, Chosen, acquire_next_task-Chosen}

pub occupies_lem :
    (s : RepoStatus) → occupies s ≡ (status_beq s running || status_beq s stop_requested)
occupies_lem created = refl
occupies_lem queued = refl
occupies_lem running = refl
occupies_lem stop_requested = refl
occupies_lem stopped = refl
occupies_lem completed = refl
occupies_lem failed = refl
occupies_lem cancelled = refl
occupies_lem poisoned = refl
occupies_lem budget_exceeded = refl

-- Another task runs on the repository, or is asked to stop there.
abbrev pub takes : Task → Task → Bool
takes t u =
    u.repo_path == t.repo_path
    && (status_beq u.status running || status_beq u.status stop_requested)
    && not (u.id == t.id)

abbrev pub taken : ClaimOptions → Db → Task → Bool
taken c db t = not c.allow_same_repo_concurrency && any (takes t) db.tasks

module _ (env : Env) (c : ClaimOptions) (db : Db) where
  abbrev pub PassedOver : Task → Type 0
  PassedOver t = (require_durable_generation_task env t ≡ ok tt) × (taken c db t ≡ true)

  -- The row after the claim.
  abbrev pub claimed : Task → Task
  claimed t = record t {
    status = running;
    started_at = elim t.started_at [ some s ↦ some s | none ↦ some env.now ];
    updated_at = env.now;
    current_stage = some "acquired";
  }

  -- The candidate that is claimed, or is refused, stands behind those that are passed over.
  abbrev pub Claims : List Task → Result Refusal (Option Task) → Db → Type 0
  Claims queue (ok none) after = (after ≡ db) × All PassedOver queue
  Claims queue (ok (some row)) after =
      (t : Task) × (before : List Task) × (behind : List Task) × (queue ≡ before ++ t ∷ behind)
      × All PassedOver before
      × (require_durable_generation_task env t ≡ ok tt)
      × (taken c db t ≡ false)
      × (row ≡ claimed t)
      × (after ≡ modify_task t.id claimed db)
  Claims queue (err e) after =
      (t : Task) × (before : List Task) × (behind : List Task) × (queue ≡ before ++ t ∷ behind)
      × All PassedOver before
      × (require_durable_generation_task env t ≡ err e)
      × (after ≡ db)

  taken-is_held_back : (t : Task) → is_held_back env c t db ≡ taken c db t
  taken-is_held_back t = ap (λ b. not c.allow_same_repo_concurrency && b) (go db.tasks)
    where
      go : (us : List Task) → any (rival t) us ≡ any (takes t) us
      go [] = refl
      go (u ∷ us) =
          ap (λ b. (u.repo_path == t.repo_path && b && not (u.id == t.id)) || any (rival t) us)
            (occupies_lem u.status)
          ∙ ap (λ b. takes t u || b) (go us)

  passed_over : (ts : List Task) → All (Waits env c db) ts → All PassedOver ts
  passed_over ts = All-imp ts (λ t w. (w.0, sym (taken-is_held_back t) ∙ w.1))

  Claims-Chosen :
      (queue : List Task) (r : Result Refusal (Option Task)) (after : Db)
      → Chosen env c db queue r after
      → Claims queue r after
  Claims-Chosen queue (ok none) after (same, w) = (same, passed_over queue w)
  Claims-Chosen queue (ok (some row)) after (t, (b, a, is, w, req, free), row_is, after_is) =
      (t, b, a, is, passed_over b w, req, sym (taken-is_held_back t) ∙ free, row_is, after_is)
  Claims-Chosen queue (err e) after (same, b, t, a, is, w, req) =
      (t, b, a, is, passed_over b w, req, same)

-- `acquire_next_task` reads the first 20 of the rows that wait, in the order of their priority and,
-- within one, of their age. It passes over those whose repository another task occupies, and claims
-- the first of the others; a row whose snapshot is refused ends the call before any write, where no
-- free one stands in front of it. Each row is the one that its id finds.
pub acquire_next_task-Claims :
    (env : Env) (c : ClaimOptions) (db : Db)
    → All (λ t. find_task t.id db ≡ some t) db.tasks
    → (queue : List Task) × Queue c db.tasks queue
      × Claims env c db queue (acquire_next_task env c db).0 (acquire_next_task env c db).1
acquire_next_task-Claims env c db own = (
  candidates c db.tasks,
  candidates-Queue c db.tasks,
  Claims-Chosen env c db (candidates c db.tasks) (acquire_next_task env c db).0
      (acquire_next_task env c db).1 (acquire_next_task-Chosen env c db own),
)
