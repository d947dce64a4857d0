-- ===== src/Tasks/Requests/Cursor.antt =====
-- The ids of `task_events` under the requests of `Request`.
use unit_test_agent.Prelude.{
  arith, ℕ, suc, ◌<◌, ◌≤◌, ◌⊎◌, ◌≡◌, refl, String, Bool, true, false, ◌&&◌, not, Option, none, some,
  List, [], ◌∷◌, ◌++◌, Result, ok, err, All, All-imp, All-append, Bool-cases, inl, inr,
}
use unit_test_agent.Tasks.{Env, Db, Task, Event, Refusal}
use unit_test_agent.Tasks.Actions.{Keeps, Keeps-and_then}
use unit_test_agent.Tasks.Engine.{durable_generation_snapshot}
use unit_test_agent.Tasks.Keeping.{Stable, keeping, Keeping-×}
use unit_test_agent.Tasks.Store.{find_task, modify_task, NewEvent, insert_event}
use unit_test_agent.Tasks.Tables.{assign_all}
use unit_test_agent.Tasks.Finish.{Finish, finishing, close_stream, prior_terminal, insert_summaries}
use unit_test_agent.Tasks.Progress.{
  ProgressItem, append_progress_event_batch, append_found, at_least_zero, prunable, unpruned,
  prune_progress_events, fitting, cuts, insert_marker, insert_progress,
}
use unit_test_agent.Tasks.Progress.Pages.{Rising}
use unit_test_agent.Tasks.Rerun.{requeued_row}
use unit_test_agent.Tasks.Scheduler.{
  NewTask, create_repo_task, insert_task, fields_or_none, ClaimOptions, candidates,
  acquire_next_task,
}
use unit_test_agent.Tasks.Scheduler.Claiming.{Chosen, acquire_next_task-Chosen}
use unit_test_agent.Tasks.Requests.{Serving, Request, run_all, run_all-Keeps, Admissible}
use unit_test_agent.Tasks.Requests.Ids.{HasIds, HasIds-own, HasIds-Serving}

-- The ids of the events rise, and are below the next.
abbrev pub Numbered : Db → Type 0
Numbered db = All (λ e. e.id < db.next_event) db.events × Rising db.events

-- No event between the two tables has been lost in front of a cursor and then met behind it: each
-- event of the later table stood in the earlier one, or has an id that no event and no cursor of the
-- earlier table has reached.
abbrev pub Among : Event → List Event → Type 0
Among e [] = ⊥
Among e (d ∷ ds) = (d ≡ e) ⊎ Among e ds

abbrev pub Continues : Db → Db → Type 0
Continues base db =
    (base.next_event ≤ db.next_event)
    × All (λ e. Among e base.events ⊎ (base.next_event ≤ e.id)) db.events

All-Among : (es : List Event) → All (λ e. Among e es) es
All-Among [] = tt
All-Among (e ∷ es) = (inl refl, All-imp es (λ d a. inr a) (All-Among es))

Rising-snoc :
    (e : Event) (es : List Event) → All (λ d. d.id < e.id) es → Rising es → Rising (es ++ e ∷ [])
Rising-snoc e [] all r = (tt, tt)
Rising-snoc e (d ∷ es) all r =
    (All-append (λ x. d.id < x.id) es (e ∷ []) r.0 (all.0, tt), Rising-snoc e es all.1 r.1)

-- Pruning keeps the order.
All-unpruned :
    (P : Event → Type 0) (before : String) (es : List Event) → All P es → All P (unpruned before es)
All-unpruned P before [] all = tt
All-unpruned P before (e ∷ es) all = elim (Bool-cases (prunable before e)) [
  | inl h ↦ rw h (All-unpruned P before es all.1)
  | inr h ↦ rw h (all.0, All-unpruned P before es all.1)
]

Rising-unpruned : (before : String) (es : List Event) → Rising es → Rising (unpruned before es)
Rising-unpruned before [] r = tt
Rising-unpruned before (e ∷ es) r = elim (Bool-cases (prunable before e)) [
  | inl h ↦ rw h (Rising-unpruned before es r.1)
  | inr h ↦ rw h (All-unpruned (λ d. e.id < d.id) before es r.0, Rising-unpruned before es r.1)
]

module _ (env : Env) (base : Db) where
  -- Both parts, from a table on.
  abbrev Kept : Db → Type 0
  Kept db = Numbered db × Continues base db

  Kept-insert_event :
      (i : ℕ) (c : Option ℕ) (new : NewEvent) (db : Db)
      → Kept db
      → Kept (insert_event env i c new db)
  Kept-insert_event i c new db ((below, rising), (on, all)) = (
    (
      All-append (λ e. e.id < suc db.next_event) db.events _
          (All-imp db.events (λ e h. omega (arith, h)) below) (omega arith, tt),
      Rising-snoc _ db.events below rising,
    ),
    (
      omega (arith, on),
      All-append (λ e. Among e base.events ⊎ (base.next_event ≤ e.id)) db.events _ all (inr on, tt),
    ),
  )

  Kept-summaries :
      (i : ℕ) (f : Finish) (ss : List String) (db : Db)
      → Kept db
      → Kept (insert_summaries env i f ss db)
  Kept-summaries i f [] db held = held
  Kept-summaries i f (s ∷ ss) db held =
      Kept-summaries i f ss (insert_event env i none _ db) (Kept-insert_event i none _ db held)

  Kept-close_stream :
      (i : ℕ) (f : Finish) (prior : Option ℕ) (db : Db)
      → Kept db
      → Kept (close_stream env i f prior db).1
  unfolding close_stream
  Kept-close_stream i f (some cursor) db held = held
  Kept-close_stream i f none db held =
      Kept-insert_event i none _ (insert_summaries env i f f.summary_event_types db)
        (Kept-summaries i f f.summary_event_types db held)

  Kept-progress :
      (i : ℕ) (es : List ProgressItem) (db : Db) → Kept db → Kept (insert_progress env i es db)
  Kept-progress i [] db held = held
  Kept-progress i (e ∷ es) db held =
      Kept-progress i es (insert_event env i none _ db) (Kept-insert_event i none _ db held)

  Kept-marker : (won : Bool) (i m n : ℕ) (db : Db) → Kept db → Kept (insert_marker env won i m n db)
  Kept-marker true i m n db held = Kept-insert_event i none _ db held
  Kept-marker false i m n db held = held

  Kept-Stable : Stable env true Kept
  Kept-Stable = record {
    elsewhere = λ cs ks db held. held;
    inserted = λ i c new db held. Kept-insert_event i c new db held;
    updated = λ i fields db opens req held. held;
    finished = λ i f t db terminal found held.
        Kept-close_stream i f (prior_terminal i f t db)
          (modify_task i (assign_all (finishing env f)) db) held;
  }

  Kept-creating : (new : NewTask) → Keeps Kept (create_repo_task env new)
  unfolding create_repo_task insert_task
  Kept-creating new =
      Keeps-and_then Kept (durable_generation_snapshot (fields_or_none new.config_snapshot))
        (insert_task env new) (λ fs db held. held)

  Kept-Chosen :
      (c : ClaimOptions) (db : Db) (ts : List Task) (r : Result Refusal (Option Task)) (db' : Db)
      → Chosen env c db ts r db'
      → Kept db
      → Kept db'
  Kept-Chosen c db ts (ok none) db' ch held = rw ch.0 held
  Kept-Chosen c db ts (err e) db' ch held = rw ch.0 held
  Kept-Chosen c db ts (ok (some row)) db' (t, first, is, after) held = rw after held

  Kept-append_found :
      (i : ℕ) (events : List ProgressItem) (m n : ℕ) (t : Option Task)
      → Keeps Kept (append_found env i events m n t)
  unfolding append_found
  Kept-append_found i events m n none = λ db held. held
  Kept-append_found i events m n (some t) = λ db held.
      Kept-marker (cuts env events m n t && not t.progress_truncated) i m n
        (insert_progress env i (fitting env events m n t) db)
        (Kept-progress i (fitting env events m n t) db held)

  Ordered : Db → Type 0
  Ordered db = HasIds db × Kept db

  Ordered-Serving : Serving env true Ordered
  unfolding Ordered
  Ordered-Serving =
      let key = HasIds-Serving env in
      record {
        keeping = Keeping-× env true HasIds Kept key.keeping (keeping env true Kept Kept-Stable);
        creating =
            λ new w live db held. (key.creating new w live db held.0, Kept-creating new db held.1);
        acquiring = λ c may db held. (
          key.acquiring c may db held.0,
          Kept-Chosen c db (candidates c db.tasks) (acquire_next_task env c db).0
              (acquire_next_task env c db).1
              (acquire_next_task-Chosen env c db (HasIds-own db held.0)) held.1,
        );
        appending = λ i events rows bytes db held. (
          key.appending i events rows bytes db held.0,
          unfold append_progress_event_batch in
              Kept-append_found i events (at_least_zero rows) (at_least_zero bytes) (find_task i db)
                db held.1,
        );
        pruning = λ before db held. (
          key.pruning before db held.0,
          unfold prune_progress_events in
              (
                (
                  All-unpruned (λ e. e.id < db.next_event) before db.events held.1.0.0,
                  Rising-unpruned before db.events held.1.0.1,
                ),
                (
                  held.1.1.0,
                  All-unpruned (λ e. Among e base.events ⊎ (base.next_event ≤ e.id)) before
                      db.events held.1.1.1,
                ),
              ),
        );
        rerunning = λ i t statuses cs ks new db found guard held. (
          key.rerunning i t statuses cs ks new db found guard held.0,
          Kept-insert_event i none new (modify_task i (requeued_row env.now statuses) db) held.1,
        );
      }

-- After any sequence of the requests of `Request`, from a table whose ids of events rise and are
-- below the next one, they still do, also after pruning, and each event that is there now was there
-- before, or has an id from the earlier next one on: it is beyond every id that was there, and so
-- beyond every cursor that was read from it. Tasks are created in a status in which they wait to be
-- claimed, and the ids of the tasks are distinct.
pub run_all-Numbered :
    (env : Env) (rs : List (Request × String)) (db : Db)
    → All (λ r. Admissible env r.0) rs
    → HasIds db
    → Numbered db
    → Numbered (run_all env rs db) × Continues db (run_all env rs db)
unfolding Ordered
run_all-Numbered env rs db admissible key numbered =
    (run_all-Keeps env (Ordered env db) (λ now. Ordered-Serving (record env { now = now }) db) rs
      admissible db
      (key, (numbered, (omega arith, All-imp db.events (λ e a. inl a) (All-Among db.events))))).1
