-- ===== src/Tasks/Requests/Ids.antt =====
-- The primary key of `repo_tasks` under the requests of `Request`.
use unit_test_agent.Prelude.{
  ℕ, suc, String, Bool, true, false, ◌&&◌, not, Option, none, some, List, [], ◌∷◌, ◌++◌, map,
  Result, ok, err, ◌≡◌, refl, sym, subst, All, ◌∙◌,
}
use unit_test_agent.Tasks.{Env, Db, Task, Refusal}
use unit_test_agent.Tasks.Actions.{Keeps, Keeps-and_then}
use unit_test_agent.Tasks.Engine.{durable_generation_snapshot}
use unit_test_agent.Tasks.Keeping.{Stable, keeping}
use unit_test_agent.Tasks.Store.{find_task, modify_task, insert_event}
use unit_test_agent.Tasks.Tables.{assign_all, set_updated}
use unit_test_agent.Tasks.Tables.Frames.{map-modify_row, assign_all-Frame}
use unit_test_agent.Tasks.Tables.Unique.{Fresh, Fresh-snoc, map-append, find_row-own}
use unit_test_agent.Tasks.Finish.{Finish, finishing, close_stream, prior_terminal, insert_summaries}
use unit_test_agent.Tasks.Progress.{
  write_progress, fitting, cuts, ProgressItem, append_progress_event_batch, append_found,
  at_least_zero, prune_progress_events, insert_progress, insert_marker, count_progress,
}
use unit_test_agent.Tasks.Rerun.{requeued_row}
use unit_test_agent.Tasks.Scheduler.{
  NewTask, create_repo_task, insert_task, fields_or_none, new_task, ClaimOptions, candidates,
  claimed_row, acquire_next_task,
}
use unit_test_agent.Tasks.Scheduler.Claiming.{Chosen, acquire_next_task-Chosen}
use unit_test_agent.Tasks.Requests.{Serving}

abbrev pub ids : List Task → List ℕ
ids = map (λ t. t.id)

-- The ids of the tasks are distinct and below the next.
abbrev pub HasIds : Db → Type 0
HasIds db = Fresh (ids db.tasks) db.next_task

-- An update that keeps the ids keeps the key.
HasIds-modify_task :
    (i : ℕ) (f : Task → Task) (db : Db)
    → ((t : Task) → (f t).id ≡ t.id)
    → HasIds db
    → HasIds (modify_task i f db)
HasIds-modify_task i f db k held =
    subst (λ is. Fresh is db.next_task)
      (sym (map-modify_row (λ t. t.id) (λ t. t.id) i f db.tasks k)) held

pub HasIds-own : (db : Db) → HasIds db → All (λ t. find_task t.id db ≡ some t) db.tasks
HasIds-own db held = find_row-own (λ t. t.id) db.tasks held.1

module _ (env : Env) where
  -- Inserting events leaves the tasks.
  pub tasks-insert_summaries :
      (i : ℕ) (f : Finish) (ss : List String) (db : Db)
      → ((insert_summaries env i f ss db).tasks ≡ db.tasks)
        × ((insert_summaries env i f ss db).next_task ≡ db.next_task)
  tasks-insert_summaries i f [] db = (refl, refl)
  tasks-insert_summaries i f (s ∷ ss) db =
      tasks-insert_summaries i f ss (insert_event env i none _ db)

  pub tasks-close_stream :
      (i : ℕ) (f : Finish) (prior : Option ℕ) (db : Db)
      → ((close_stream env i f prior db).1.tasks ≡ db.tasks)
        × ((close_stream env i f prior db).1.next_task ≡ db.next_task)
  unfolding close_stream
  tasks-close_stream i f (some cursor) db = (refl, refl)
  tasks-close_stream i f none db = tasks-insert_summaries i f f.summary_event_types db

  pub tasks-insert_progress :
      (i : ℕ) (es : List ProgressItem) (db : Db)
      → ((insert_progress env i es db).tasks ≡ db.tasks)
        × ((insert_progress env i es db).next_task ≡ db.next_task)
  tasks-insert_progress i [] db = (refl, refl)
  tasks-insert_progress i (e ∷ es) db = tasks-insert_progress i es (insert_event env i none _ db)

  pub tasks-insert_marker :
      (won : Bool) (i m n : ℕ) (db : Db)
      → ((insert_marker env won i m n db).tasks ≡ db.tasks)
        × ((insert_marker env won i m n db).next_task ≡ db.next_task)
  tasks-insert_marker true i m n db = (refl, refl)
  tasks-insert_marker false i m n db = (refl, refl)

  HasIds-Stable : Stable env true HasIds
  HasIds-Stable = record {
    elsewhere = λ cs ks db held. held;
    inserted = λ i c new db held. held;
    updated = λ i fields db opens req held.
        HasIds-modify_task i (assign_all (fields ++ set_updated env.now ∷ [])) db
          (λ t. (assign_all-Frame (fields ++ set_updated env.now ∷ []) t).0) held;
    finished = λ i f t db terminal found held.
        let db' : Db = modify_task i (assign_all (finishing env f)) db in
        let same = tasks-close_stream i f (prior_terminal i f t db) db' in
        rw (same.0, same.1)
          (HasIds-modify_task i (assign_all (finishing env f)) db
            (λ u. (assign_all-Frame (finishing env f) u).0) held);
  }

  HasIds-creating : (new : NewTask) → Keeps HasIds (create_repo_task env new)
  unfolding create_repo_task insert_task
  HasIds-creating new =
      Keeps-and_then HasIds (durable_generation_snapshot (fields_or_none new.config_snapshot))
        (insert_task env new)
        (λ fs db held.
          subst (λ is. Fresh is (suc db.next_task))
            (sym (map-append (λ t. t.id) db.tasks (new_task env db.next_task new fs ∷ [])))
            (Fresh-snoc db.next_task (ids db.tasks) held))

  HasIds-Chosen :
      (c : ClaimOptions) (db : Db) (ts : List Task) (r : Result Refusal (Option Task)) (db' : Db)
      → Chosen env c db ts r db'
      → HasIds db
      → HasIds db'
  HasIds-Chosen c db ts (ok none) db' ch held = rw ch.0 held
  HasIds-Chosen c db ts (ok (some row)) db' (t, first, is, after) held =
      rw after (HasIds-modify_task t.id (claimed_row env) db (λ u. refl) held)
  HasIds-Chosen c db ts (err e) db' ch held = rw ch.0 held

  pub tasks-written :
      (i : ℕ) (fit : List ProgressItem) (won : Bool) (m n : ℕ) (db : Db)
      → ((insert_marker env won i m n (insert_progress env i fit db)).tasks ≡ db.tasks)
        × ((insert_marker env won i m n (insert_progress env i fit db)).next_task ≡ db.next_task)
  tasks-written i fit won m n db =
      let marked = tasks-insert_marker won i m n (insert_progress env i fit db) in
      let shown = tasks-insert_progress i fit db in (marked.0 ∙ shown.0, marked.1 ∙ shown.1)

  HasIds-written :
      (i : ℕ) (fit : List ProgressItem) (won : Bool) (m n : ℕ) (db : Db)
      → HasIds db
      → HasIds (write_progress env i fit won m n db)
  HasIds-written i fit won m n db held =
      HasIds-modify_task i (count_progress env fit won)
        (insert_marker env won i m n (insert_progress env i fit db)) (λ u. refl)
        (rw ((tasks-written i fit won m n db).0, (tasks-written i fit won m n db).1) held)

  HasIds-append_found :
      (i : ℕ) (events : List ProgressItem) (m n : ℕ) (t : Option Task)
      → Keeps HasIds (append_found env i events m n t)
  unfolding append_found
  HasIds-append_found i events m n none = λ db held. held
  HasIds-append_found i events m n (some t) = λ db held.
      HasIds-written i (fitting env events m n t)
        (cuts env events m n t && not t.progress_truncated) m n db held

  pub HasIds-Serving : Serving env true HasIds
  HasIds-Serving = record {
    keeping = keeping env true HasIds HasIds-Stable;
    creating = λ new w live. HasIds-creating new;
    acquiring = λ c may db held.
        HasIds-Chosen c db (candidates c db.tasks) (acquire_next_task env c db).0
          (acquire_next_task env c db).1 (acquire_next_task-Chosen env c db (HasIds-own db held))
          held;
    appending = λ i events rows bytes db held.
        unfold append_progress_event_batch in
        HasIds-append_found i events (at_least_zero rows) (at_least_zero bytes) (find_task i db) db
          held;
    pruning = λ before db held. unfold prune_progress_events in held;
    rerunning = λ i t statuses cs ks new db found guard held.
        HasIds-modify_task i (requeued_row env.now statuses) db (λ u. refl) held;
  }
