-- ===== src/Tasks/Requests/Closed.antt =====
-- The closing cursor of a task's stream, uta/tasks/progress_store.py, under the requests of
-- `Request`.
use unit_test_agent.Prelude.{
  arith, ℕ, String, Bool, true, false, ◌&&◌, ◌||◌, not, Option, none, some, List, [], ◌∷◌, ◌++◌,
  Result, ok, err, ◌≡◌, refl, sym, All, All-imp, All-append, any, any-append, ◌==◌, nat_eq,
  string_eq, ==_iff, ==_refl, Bool-cases, inl, inr, ◌∙◌, ap, if◌then◌else◌, Fields,
}
use unit_test_agent.Tasks.{Env, Db, Task, Event, Refusal, RepoStatus, is_terminal}
use unit_test_agent.Tasks.Actions.{and_then, Keeps}
use unit_test_agent.Tasks.Engine.{durable_generation_snapshot}
use unit_test_agent.Tasks.Keeping.{Stable, keeping, allows, allows_live, Keeping-×}
use unit_test_agent.Tasks.Store.{find_task, modify_task, insert_event}
use unit_test_agent.Tasks.Tables.{Assign, assign_all, set_updated, given_status}
use unit_test_agent.Tasks.Tables.Frames.{
  All-modify_row, find_row-id, assign_all-Frame, status_after, given_status-append,
}
use unit_test_agent.Tasks.Finish.{
  Finish, finishing, is_terminal_of, last_terminal, close_stream, prior_terminal, insert_summaries,
  status_beq,
}
use unit_test_agent.Tasks.Progress.{
  ProgressItem, append_progress_event_batch, append_found, at_least_zero, prunable, unpruned,
  prune_progress_events, fitting, cuts, write_progress, count_progress, insert_marker,
  insert_progress,
}
use unit_test_agent.Tasks.Rerun.{requeued_row}
use unit_test_agent.Tasks.Scheduler.{
  NewTask, create_repo_task, insert_task, fields_or_none, status_or_created, claimable, new_task,
  ClaimOptions, candidates, claimed_row, acquire_next_task,
}
use unit_test_agent.Tasks.Scheduler.Claiming.{Chosen, acquire_next_task-Chosen}
use unit_test_agent.Tasks.Requests.{
  Serving, claimable_live, Request, run_all, run_all-Keeps, Admissible,
}
use unit_test_agent.Tasks.Requests.Ids.{
  HasIds, HasIds-own, HasIds-Serving, tasks-close_stream, tasks-written,
}

-- A task that has ended has a closing event.
abbrev pub IsClosed : List Event → Task → Type 0
IsClosed es t = is_terminal t.status ≡ true → any (is_terminal_of t.id) es ≡ true

abbrev pub AllClosed : Db → Type 0
AllClosed db = All (IsClosed db.events) db.tasks

-- No closing event is lost.
abbrev Grows : List Event → List Event → Type 0
Grows es fs = (i : ℕ) → any (is_terminal_of i) es ≡ true → any (is_terminal_of i) fs ≡ true

IsClosed-Grows :
    (es fs : List Event) (ts : List Task)
    → Grows es fs
    → All (IsClosed es) ts
    → All (IsClosed fs) ts
IsClosed-Grows es fs ts grows = All-imp ts (λ t closed ended. grows t.id (closed ended))

Grows-append : (es fs : List Event) → Grows es (es ++ fs)
Grows-append es fs i h = any-append (is_terminal_of i) es fs ∙ rw h refl

last_terminal-any :
    (i : ℕ) (es : List Event) {j : ℕ}
    → last_terminal i es ≡ some j
    → any (is_terminal_of i) es ≡ true
last_terminal-any i [] h = cc
last_terminal-any i (e ∷ es) {j} h = go (last_terminal i es) (λ k h. last_terminal-any i es h) h
  where
    go :
        (r : Option ℕ)
        → ((k : ℕ) → r ≡ some k → any (is_terminal_of i) es ≡ true)
        → elim r as (λ _. Option ℕ) [
          | some j ↦ some j
          | none ↦ if is_terminal_of i e then some e.id else none
        ]
          ≡ some j
        → (is_terminal_of i e || any (is_terminal_of i) es) ≡ true
    go (some k) back h = ground (arith, back k refl)
    go none back h = ground arith

-- A closing event is no progress.
other : (s : String) → (s == "task_terminal") ≡ true → (s == "agent_progress") ≡ false
other s h = rw ((==_iff s "task_terminal").0 h) refl

Grows-unpruned : (before : String) (es : List Event) → Grows es (unpruned before es)
Grows-unpruned before [] i h = h
Grows-unpruned before (e ∷ es) i h = elim (Bool-cases (prunable before e)) [
  | inl p ↦ rw p (Grows-unpruned before es i (rest p))
  | inr p ↦ rw p (go (Grows-unpruned before es i))
]
  where
    rest : prunable before e ≡ true → any (is_terminal_of i) es ≡ true
    rest p = ground (arith, h, other e.event_type)

    go :
        (any (is_terminal_of i) es ≡ true → any (is_terminal_of i) (unpruned before es) ≡ true)
        → any (is_terminal_of i) (e ∷ unpruned before es) ≡ true
    go back = ground (arith, h, back)

module _ (env : Env) where
  Grows-summaries :
      (i : ℕ) (f : Finish) (ss : List String) (db : Db)
      → Grows db.events (insert_summaries env i f ss db).events
  Grows-summaries i f [] db = λ j h. h
  Grows-summaries i f (s ∷ ss) db =
      λ j h. Grows-summaries i f ss (insert_event env i none _ db) j (Grows-append db.events _ j h)

  Grows-close_stream :
      (i : ℕ) (f : Finish) (prior : Option ℕ) (db : Db)
      → Grows db.events (close_stream env i f prior db).1.events
  unfolding close_stream
  Grows-close_stream i f (some cursor) db = λ j h. h
  Grows-close_stream i f none db = λ j h.
      Grows-append (insert_summaries env i f f.summary_event_types db).events _ j
        (Grows-summaries i f f.summary_event_types db j h)

  -- The stream is closed afterwards.
  closes :
      (i : ℕ) (f : Finish) (t : Task) (db db' : Db)
      → db'.events ≡ db.events
      → any (is_terminal_of i) (close_stream env i f (prior_terminal i f t db) db').1.events ≡ true
  unfolding prior_terminal close_stream
  closes i f t db db' same = elim (Bool-cases (status_beq t.status f.status)) [
    | inl h ↦ rw h (go (last_terminal i db.events) refl)
    | inr h ↦ rw h fresh
  ]
    where
      fresh : any (is_terminal_of i) (close_stream env i f none db').1.events ≡ true
      fresh =
          any-append (is_terminal_of i) (insert_summaries env i f f.summary_event_types db').events
            _
          ∙ ground (arith, ==_refl i)

      go :
          (r : Option ℕ)
          → last_terminal i db.events ≡ r
          → any (is_terminal_of i) (close_stream env i f r db').1.events ≡ true
      go none e = fresh
      go (some j) e = rw same (last_terminal-any i db.events e)

  AllClosed-Stable : Stable env true AllClosed
  AllClosed-Stable = record {
    elsewhere = λ cs ks db held. held;
    inserted = λ i c new db held.
        IsClosed-Grows db.events (insert_event env i c new db).events db.tasks
          (Grows-append db.events _) held;
    updated = λ i fields db opens req held.
        All-modify_row (λ t. t.id) (IsClosed db.events) i
          (assign_all (fields ++ set_updated env.now ∷ [])) db.tasks
          (λ t found closed.
            updated-IsClosed fields t db.events (given_status fields) refl opens closed)
          held;
    finished = λ i f t db terminal found held.
        let db' : Db = modify_task i (assign_all (finishing env f)) db in
        let after : Db = (close_stream env i f (prior_terminal i f t db) db').1 in
        rw ((tasks-close_stream env i f (prior_terminal i f t db) db').0) (
          All-modify_row (λ u. u.id) (IsClosed after.events) i (assign_all (finishing env f))
            db.tasks
            (λ u found' closed ended.
              let own : (assign_all (finishing env f) u).id ≡ i =
                (assign_all-Frame (finishing env f) u).0
                ∙ find_row-id (λ v. v.id) i db.tasks found' in
              rw own (closes i f t db db' refl))
            (IsClosed-Grows db.events after.events db.tasks
              (Grows-close_stream i f (prior_terminal i f t db) db') held));
  }
    where
      updated-IsClosed :
          (fields : List Assign) (t : Task) (es : List Event) (g : Option RepoStatus)
          → given_status fields ≡ g
          → elim g [ none ↦ true | some s ↦ allows true s ] ≡ true
          → IsClosed es t
          → IsClosed es (assign_all (fields ++ set_updated env.now ∷ []) t)
      updated-IsClosed fields t es g e opens closed ended =
          let fr = assign_all-Frame (fields ++ set_updated env.now ∷ []) t in
          let named : given_status (fields ++ set_updated env.now ∷ []) ≡ g =
            given_status-append fields (set_updated env.now ∷ []) ∙ e in
          let st : (assign_all (fields ++ set_updated env.now ∷ []) t).status
              ≡ status_after g t.status =
            fr.3 ∙ ap (λ x. status_after x t.status) named in
          rw fr.0 (closed (still g opens (sym (ap is_terminal st) ∙ ended)))
        where
          still :
              (g : Option RepoStatus)
              → elim g [ none ↦ true | some s ↦ allows true s ] ≡ true
              → is_terminal (status_after g t.status) ≡ true
              → is_terminal t.status ≡ true
          still none opens h = h
          still (some s) opens h = (let no : true ≡ false = sym h ∙ allows_live true s opens in cc)

  Closed-creating :
      (new : NewTask)
      → claimable false (status_or_created new.status) ≡ true
      → Keeps AllClosed (create_repo_task env new)
  unfolding create_repo_task insert_task
  Closed-creating new live db held =
      go (durable_generation_snapshot (fields_or_none new.config_snapshot))
    where
      go : (r : Result Refusal Fields) → AllClosed (and_then r (insert_task env new) db).1
      go (ok fs) =
          All-append (IsClosed db.events) db.tasks (new_task env db.next_task new fs ∷ []) held (
            (λ ended.
                let no : true ≡ false =
                  sym ended ∙ claimable_live (status_or_created new.status) live in
                cc),
            tt,
          )
      go (err x) = held

  Closed-Chosen :
      (c : ClaimOptions) (db : Db) (ts : List Task) (r : Result Refusal (Option Task)) (db' : Db)
      → Chosen env c db ts r db'
      → AllClosed db
      → AllClosed db'
  Closed-Chosen c db ts (ok none) db' ch held = rw ch.0 held
  Closed-Chosen c db ts (err e) db' ch held = rw ch.0 held
  Closed-Chosen c db ts (ok (some row)) db' (t, first, is, after) held = rw after (
      All-modify_row (λ u. u.id) (IsClosed db.events) t.id (claimed_row env) db.tasks
        (λ u found _ ended. cc) held)

  Grows-insert_progress :
      (i : ℕ) (es : List ProgressItem) (db : Db)
      → Grows db.events (insert_progress env i es db).events
  Grows-insert_progress i [] db = λ j h. h
  Grows-insert_progress i (e ∷ es) db = λ j h.
      Grows-insert_progress i es (insert_event env i none _ db) j (Grows-append db.events _ j h)

  Grows-insert_marker :
      (won : Bool) (i m n : ℕ) (db : Db) → Grows db.events (insert_marker env won i m n db).events
  Grows-insert_marker true i m n db = Grows-append db.events _
  Grows-insert_marker false i m n db = λ j h. h

  Closed-written :
      (i : ℕ) (fit : List ProgressItem) (won : Bool) (m n : ℕ) (db : Db)
      → AllClosed db
      → AllClosed (write_progress env i fit won m n db)
  Closed-written i fit won m n db held =
      let shown : Db = insert_progress env i fit db in
      let db' : Db = insert_marker env won i m n shown in
      All-modify_row (λ u. u.id) (IsClosed db'.events) i (count_progress env fit won) db'.tasks
        (λ u _ closed. closed)
        (rw ((tasks-written env i fit won m n db).0) (
          IsClosed-Grows db.events db'.events db.tasks
            (λ j h. Grows-insert_marker won i m n shown j (Grows-insert_progress i fit db j h))
            held))

  Closed-append_found :
      (i : ℕ) (events : List ProgressItem) (m n : ℕ) (t : Option Task)
      → Keeps AllClosed (append_found env i events m n t)
  unfolding append_found
  Closed-append_found i events m n none = λ db held. held
  Closed-append_found i events m n (some t) = λ db held.
      Closed-written i (fitting env events m n t)
        (cuts env events m n t && not t.progress_truncated) m n db held

  Ended : Db → Type 0
  Ended db = HasIds db × AllClosed db

  Ended-Serving : Serving env true Ended
  unfolding Ended
  Ended-Serving =
      let key = HasIds-Serving env in
      record {
        keeping =
            Keeping-× env true HasIds AllClosed key.keeping
              (keeping env true AllClosed AllClosed-Stable);
        creating = λ new w live db held.
            (key.creating new w live db held.0, Closed-creating new live db held.1);
        acquiring = λ c may db held. (
          key.acquiring c may db held.0,
          Closed-Chosen c db (candidates c db.tasks) (acquire_next_task env c db).0
              (acquire_next_task env c db).1
              (acquire_next_task-Chosen env c db (HasIds-own db held.0)) held.1,
        );
        appending = λ i events rows bytes db held. (
          key.appending i events rows bytes db held.0,
          unfold append_progress_event_batch in
              Closed-append_found i events (at_least_zero rows) (at_least_zero bytes)
                (find_task i db) db held.1,
        );
        pruning = λ before db held. (
          key.pruning before db held.0,
          unfold prune_progress_events in
              IsClosed-Grows db.events (unpruned before db.events) db.tasks
                (Grows-unpruned before db.events) held.1,
        );
        rerunning = λ i t statuses cs ks new db found guard held. (
          key.rerunning i t statuses cs ks new db found guard held.0,
          All-modify_row (λ u. u.id) (IsClosed (insert_event env i none new db).events) i
              (requeued_row env.now statuses) db.tasks (λ u _ _ ended. cc)
              (IsClosed-Grows db.events (insert_event env i none new db).events db.tasks
                (Grows-append db.events _) held.1),
        );
      }

-- After any sequence of the requests of `Request`, which are the creation and the claiming of tasks,
-- the methods of their lifecycle and recovery, their progress and its pruning, and the clean rerun, a
-- task that has ended has a closing event in its stream, also after pruning. The results of classes
-- and of pushes, which end a task by an update and write no closing event, are not among them. Tasks
-- are created in a status in which they wait to be claimed. The tables have distinct ids and the
-- property before the first request.
pub run_all-AllClosed :
    (env : Env) (rs : List (Request × String)) (db : Db)
    → All (λ r. Admissible env r.0) rs
    → HasIds db
    → AllClosed db
    → AllClosed (run_all env rs db)
unfolding Ended
run_all-AllClosed env rs db admissible key closed =
    (run_all-Keeps env (Ended env) (λ now. Ended-Serving (record env { now = now })) rs admissible
      db (key, closed)).1
