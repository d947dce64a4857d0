-- ===== src/Tasks/Requests/Durable.antt =====
-- The durable-only boundary of uta/tasks/generation_engine.py: which tasks may be active.
use unit_test_agent.Prelude.{
  ℕ, String, Bool, true, false, ◌&&◌, not, Option, none, some, List, [], ◌∷◌, ◌++◌, Fields, Json,
  Result, ok, err, ◌≡◌, refl, sym, subst, All, All-append, All-middle, ◌∙◌, ap,
}
use unit_test_agent.Tasks.{
  Env, Db, Task, Refusal, RepoStatus, is_terminal, created, queued, running, stop_requested,
  stopped, completed, failed, cancelled, poisoned, budget_exceeded,
}
use unit_test_agent.Tasks.Actions.{and_then, Keeps}
use unit_test_agent.Tasks.Engine.{durable_generation_snapshot, classify_generation_snapshot}
use unit_test_agent.Tasks.Engine.Snapshots.{required_none, durable_generation_snapshot_roundtrip}
use unit_test_agent.Tasks.Keeping.{
  Stable, keeping, allows, allows_live, finishing_status, Keeping-×,
}
use unit_test_agent.Tasks.Store.{find_task, modify_task, reactivates, reactivation}
use unit_test_agent.Tasks.Tables.{Assign, assign_all, set_updated, given_status}
use unit_test_agent.Tasks.Tables.Frames.{
  All-modify_row, assign_all-Frame, status_after, given_status-append,
}
use unit_test_agent.Tasks.Finish.{finishing, prior_terminal}
use unit_test_agent.Tasks.Progress.{
  ProgressItem, append_progress_event_batch, append_found, at_least_zero, prune_progress_events,
  fitting, cuts, write_progress, count_progress, insert_marker, insert_progress,
}
use unit_test_agent.Tasks.Rerun.{requeued_row}
use unit_test_agent.Tasks.Scheduler.{
  NewTask, create_repo_task, insert_task, fields_or_none, status_or_created, claimable, new_task,
  ClaimOptions, candidates, claimed_row, acquire_next_task,
}
use unit_test_agent.Tasks.Scheduler.Claiming.{Chosen, acquire_next_task-Chosen, All-candidates}
use unit_test_agent.Tasks.Requests.{Serving, Readable, Request, run_all, run_all-Keeps, Admissible}
use unit_test_agent.Tasks.Requests.Ids.{
  HasIds, HasIds-own, HasIds-Serving, tasks-close_stream, tasks-written,
}

-- A task that has not ended names engine version 2.
abbrev pub IsDurable : (String → Option Json) → Task → Type 0
IsDurable loads t =
    is_terminal t.status ≡ false → classify_generation_snapshot loads t.config_snapshot_json ≡ none

abbrev pub AllDurable : (String → Option Json) → Db → Type 0
AllDurable loads db = All (IsDurable loads) db.tasks

-- The same snapshot under a status that is open only where the old one was.
IsDurable-move :
    (loads : String → Option Json) (t u : Task)
    → u.config_snapshot_json ≡ t.config_snapshot_json
    → (is_terminal u.status ≡ false → is_terminal t.status ≡ false)
    → IsDurable loads t
    → IsDurable loads u
IsDurable-move loads t u same back d h = rw same (d (back h))

module _ (env : Env) where
  -- The guard of `_update`.
  guarded :
      (s : RepoStatus) (t : Task)
      → is_terminal s ≡ false
      → reactivation env (reactivates (some s)) (some t) ≡ ok tt
      → classify_generation_snapshot env.loads t.config_snapshot_json ≡ none
  unfolding reactivation
  guarded created t live h = required_none env t h
  guarded queued t live h = required_none env t h
  guarded running t live h = required_none env t h
  guarded stop_requested t live h = required_none env t h
  guarded stopped t live h = required_none env t h
  guarded completed t live h = cc
  guarded failed t live h = cc
  guarded cancelled t live h = cc
  guarded poisoned t live h = cc
  guarded budget_exceeded t live h = cc

  assigned-IsDurable :
      (as' : List Assign) (t : Task) (g : Option RepoStatus)
      → given_status as' ≡ g
      → elim g [ none ↦ true | some s ↦ allows true s ] ≡ true
      → reactivation env (reactivates g) (some t) ≡ ok tt
      → IsDurable env.loads t
      → IsDurable env.loads (assign_all (as' ++ set_updated env.now ∷ []) t)
  assigned-IsDurable as' t g e opens req d =
      let fr = assign_all-Frame (as' ++ set_updated env.now ∷ []) t in
      let named : given_status (as' ++ set_updated env.now ∷ []) ≡ g =
        given_status-append as' (set_updated env.now ∷ []) ∙ e in
      go g opens req fr.2 (fr.3 ∙ ap (λ x. status_after x t.status) named)
    where
      go :
          (g : Option RepoStatus)
          → elim g [ none ↦ true | some s ↦ allows true s ] ≡ true
          → reactivation env (reactivates g) (some t) ≡ ok tt
          → (assign_all (as' ++ set_updated env.now ∷ []) t).config_snapshot_json
            ≡ t.config_snapshot_json
          → (assign_all (as' ++ set_updated env.now ∷ []) t).status ≡ status_after g t.status
          → IsDurable env.loads (assign_all (as' ++ set_updated env.now ∷ []) t)
      go none opens req same st =
          IsDurable-move env.loads t (assign_all (as' ++ set_updated env.now ∷ []) t) same
            (λ h. ap is_terminal (sym st) ∙ h) d
      go (some s) opens req same st = λ _. rw same (guarded s t (allows_live true s opens) req)

  AllDurable-Stable : Stable env true (AllDurable env.loads)
  AllDurable-Stable = record {
    elsewhere = λ cs ks db held. held;
    inserted = λ i c new db held. held;
    updated = λ i fields db opens req held.
        All-modify_row (λ t. t.id) (IsDurable env.loads) i
          (assign_all (fields ++ set_updated env.now ∷ [])) db.tasks
          (λ t found d.
            assigned-IsDurable fields t (given_status fields) refl opens
              (subst (λ x. reactivation env (reactivates (given_status fields)) x ≡ ok tt) found
                req)
              d)
          held;
    finished = λ i f t db terminal found held.
        rw
          ((tasks-close_stream env i f (prior_terminal i f t db)
            (modify_task i (assign_all (finishing env f)) db)).0)
          (All-modify_row (λ u. u.id) (IsDurable env.loads) i (assign_all (finishing env f))
            db.tasks
            (λ u _ d h.
              let st : (assign_all (finishing env f) u).status ≡ f.status =
                (assign_all-Frame (finishing env f) u).3
                ∙ ap (λ x. status_after x u.status) (finishing_status env f) in
              let no : true ≡ false = sym terminal ∙ ap is_terminal (sym st) ∙ h in cc)
            held);
  }

  -- The invariant with the primary key, which claiming needs.
  abbrev pub Sound : Db → Type 0
  Sound db = HasIds db × AllDurable env.loads db

  Sound-creating :
      (new : NewTask)
      → Readable env new
      → claimable false (status_or_created new.status) ≡ true
      → Keeps Sound (create_repo_task env new)
  unfolding create_repo_task insert_task
  Sound-creating new w live = λ db held. (
    (HasIds-Serving env).creating new w live db held.0,
    go (durable_generation_snapshot (fields_or_none new.config_snapshot)) refl db held.1,
  )
    where
      go :
          (r : Result Refusal Fields)
          → durable_generation_snapshot (fields_or_none new.config_snapshot) ≡ r
          → (db : Db) → AllDurable env.loads db
          → AllDurable env.loads (and_then r (insert_task env new) db).1
      go (ok fs) e db held =
          All-append (IsDurable env.loads) db.tasks (new_task env db.next_task new fs ∷ []) held (
            (λ _.
                durable_generation_snapshot_roundtrip env.loads env.dumps
                  (fields_or_none new.config_snapshot) fs e (w fs e)),
            tt,
          )
      go (err x) e db held = held

  -- The row that is claimed_row is the one that was checked.
  Sound-Chosen :
      (c : ClaimOptions) (db : Db) (r : Result Refusal (Option Task)) (db' : Db)
      → Chosen env c db (candidates c db.tasks) r db'
      → Sound db
      → AllDurable env.loads db'
  Sound-Chosen c db (ok none) db' ch held = rw ch.0 held.1
  Sound-Chosen c db (err e) db' ch held = rw ch.0 held.1
  Sound-Chosen c db (ok (some row)) db' (t, (b, a, e, w, req, free), is, after) held = rw after (
      All-modify_row (λ u. u.id) (IsDurable env.loads) t.id (claimed_row env) db.tasks
        (λ u found d _.
          let same : t ≡ u = ap (λ o. from_option t o) (sym own ∙ found) in
          subst (λ v. classify_generation_snapshot env.loads v.config_snapshot_json ≡ none) same
            (required_none env t req))
        held.1)
    where
      from_option : Task → Option Task → Task
      from_option d none = d
      from_option d (some x) = x

      own : find_task t.id db ≡ some t
      own =
          All-middle (λ u. find_task u.id db ≡ some u) b t a
            (subst (All (λ u. find_task u.id db ≡ some u)) e
              (All-candidates (λ u. find_task u.id db ≡ some u) c db.tasks (HasIds-own db held.0)))

  AllDurable-written :
      (i : ℕ) (fit : List ProgressItem) (won : Bool) (m n : ℕ)
      → Keeps (AllDurable env.loads) (λ db. (ok tt, write_progress env i fit won m n db))
  AllDurable-written i fit won m n db held =
      All-modify_row (λ u. u.id) (IsDurable env.loads) i (count_progress env fit won)
        (insert_marker env won i m n (insert_progress env i fit db)).tasks (λ u _ d. d)
        (rw ((tasks-written env i fit won m n db).0) held)

  AllDurable-append_found :
      (i : ℕ) (events : List ProgressItem) (m n : ℕ) (t : Option Task)
      → Keeps (AllDurable env.loads) (append_found env i events m n t)
  unfolding append_found
  AllDurable-append_found i events m n none = λ db held. held
  AllDurable-append_found i events m n (some t) =
      AllDurable-written i (fitting env events m n t)
        (cuts env events m n t && not t.progress_truncated) m n

  Sound-Serving : Serving env true Sound
  Sound-Serving =
      let key = HasIds-Serving env in
      record {
        keeping =
            Keeping-× env true HasIds (AllDurable env.loads) key.keeping
              (keeping env true (AllDurable env.loads) AllDurable-Stable);
        creating = Sound-creating;
        acquiring = λ c may db held. (
          key.acquiring c may db held.0,
          Sound-Chosen c db (acquire_next_task env c db).0 (acquire_next_task env c db).1
              (acquire_next_task-Chosen env c db (HasIds-own db held.0)) held,
        );
        appending = λ i events rows bytes db held. (
          key.appending i events rows bytes db held.0,
          unfold append_progress_event_batch in
              AllDurable-append_found i events (at_least_zero rows) (at_least_zero bytes)
                (find_task i db) db held.1,
        );
        pruning = λ before db held.
            (key.pruning before db held.0, unfold prune_progress_events in held.1);
        rerunning = λ i t statuses cs ks new db found guard held. (
          key.rerunning i t statuses cs ks new db found guard held.0,
          All-modify_row (λ u. u.id) (IsDurable env.loads) i (requeued_row env.now statuses)
              db.tasks
              (λ u found' _ _.
                subst (λ v. classify_generation_snapshot env.loads v.config_snapshot_json ≡ none)
                  (same_row i db t u found found') (required_none env t guard))
              held.1,
        );
      }
    where
      same_row :
          (i : ℕ) (db : Db) (t u : Task) → find_task i db ≡ some t → find_task i db ≡ some u → t ≡ u
      same_row i db t u a b = ap (λ o. elim o [ some y ↦ y | none ↦ t ]) (sym a ∙ b)

-- After any sequence of the requests of `Request`, which are the creation and the claiming of tasks,
-- the methods of their lifecycle and recovery, their progress and its pruning, and the clean rerun,
-- a task that has not ended has a snapshot of engine version 2: a task with a snapshot that is
-- refused, once it has ended, is never queued, run, stopped, resumed, unblocked or rerun again. Tasks
-- are created in a status in which they wait to be claimed, and their snapshots are read back as they
-- were written. The tables have distinct ids and the property before the first request.
pub run_all-AllDurable :
    (env : Env) (rs : List (Request × String)) (db : Db)
    → All (λ r. Admissible env r.0) rs
    → HasIds db
    → AllDurable env.loads db
    → AllDurable env.loads (run_all env rs db)
run_all-AllDurable env rs db admissible key durable =
    (run_all-Keeps env (Sound env) (λ now. Sound-Serving (record env { now = now })) rs admissible
      db (key, durable)).1
