-- ===== src/Tasks/Finish/Twice.antt =====
-- Finishing a task again: `finish_task_with_terminal_event` of uta/tasks/progress_store.py.
use unit_test_agent.Prelude.{
  arith, ℕ, String, true, false, Option, none, some, List, [], ◌∷◌, ◌++◌, Result, ok, ◌≡◌, refl, ap,
  ◌∙◌, string_eq, nat_eq, ==_refl, Bool-cases, inl, inr, ◌⊎◌,
}
use unit_test_agent.Tasks.{Env, Db, Task, Event, Refusal, is_terminal}
use unit_test_agent.Tasks.Store.{find_task, modify_task, insert_event}
use unit_test_agent.Tasks.Tables.{assign_all, find_row}
use unit_test_agent.Tasks.Tables.Frames.{find_row-modify_row, assign_all-Frame, status_after}
use unit_test_agent.Tasks.Finish.{
  Finish, finishing, status_name, status_beq, is_terminal_of, last_terminal, prior_terminal,
  insert_summaries, close_stream, finish_found, finish_task_with_terminal_event,
}
use unit_test_agent.Tasks.Keeping.{finishing_status}

-- The event that is appended is the last.
last_terminal-snoc :
    (i : ℕ) (es : List Event) (e : Event)
    → is_terminal_of i e ≡ true
    → last_terminal i (es ++ e ∷ []) ≡ some e.id
last_terminal-snoc i [] e h = rw h refl
last_terminal-snoc i (d ∷ es) e h = rw (last_terminal-snoc i es e h) refl

-- A stream that is closed: the cursor of the last closing event is the one that was returned.
close_stream-last :
    (env : Env) (i : ℕ) (f : Finish) (prior : Option ℕ) (db : Db) {j : ℕ}
    → ((k : ℕ) → prior ≡ some k → last_terminal i db.events ≡ some k)
    → (close_stream env i f prior db).0 ≡ ok j
    → last_terminal i (close_stream env i f prior db).1.events ≡ some j
unfolding close_stream
close_stream-last env i f (some cursor) db back h = back cursor refl ∙ ground arith
close_stream-last env i f none db back h =
    last_terminal-snoc i (insert_summaries env i f f.summary_event_types db).events _
      (ground (arith, ==_refl i))
    ∙ ground arith

prior_terminal-last :
    (i : ℕ) (f : Finish) (t : Task) (db : Db) (k : ℕ)
    → prior_terminal i f t db ≡ some k
    → last_terminal i db.events ≡ some k
unfolding prior_terminal
prior_terminal-last i f t db k h = ground arith

-- After a finish that returned: the status of the row, and the last closing event.
abbrev pub Finished : ℕ → Finish → ℕ → Db → Type 0
Finished i f j db =
    (t : Task) × (find_task i db ≡ some t)
    × (t.status ≡ f.status)
    × (last_terminal i db.events ≡ some j)

module _ (env : Env) where
  -- The tasks are those of the update.
  tasks_of :
      (i : ℕ) (f : Finish) (ss : List String) (db : Db)
      → (insert_summaries env i f ss db).tasks ≡ db.tasks
  tasks_of i f [] db = refl
  tasks_of i f (s ∷ ss) db = tasks_of i f ss (insert_event env i none _ db)

  close_stream-tasks :
      (i : ℕ) (f : Finish) (prior : Option ℕ) (db : Db)
      → (close_stream env i f prior db).1.tasks ≡ db.tasks
  unfolding close_stream
  close_stream-tasks i f (some cursor) db = refl
  close_stream-tasks i f none db = tasks_of i f f.summary_event_types db

  found-Finished :
      (i : ℕ) (f : Finish) (t : Option Task) (db : Db) {j : ℕ}
      → find_task i db ≡ t
      → (finish_found env i f t db).0 ≡ ok j
      → Finished i f j (finish_found env i f t db).1
  unfolding finish_found
  found-Finished i f none db found h = cc
  found-Finished i f (some t) db found h =
      let db' : Db = modify_task i (assign_all (finishing env f)) db in
      (
        assign_all (finishing env f) t,
        ap (λ ts. find_row (λ u. u.id) i ts) (close_stream-tasks i f (prior_terminal i f t db) db')
            ∙ find_row-modify_row (λ u. u.id) i (assign_all (finishing env f)) db.tasks
                (λ u. (assign_all-Frame (finishing env f) u).0) found,
        (assign_all-Frame (finishing env f) t).3
            ∙ ap (λ x. status_after x t.status) (finishing_status env f),
        close_stream-last env i f (prior_terminal i f t db) db'
            (λ k e. prior_terminal-last i f t db k e) h,
      )

  pub finish-Finished :
      (i : ℕ) (f : Finish) (db : Db) {j : ℕ}
      → (finish_task_with_terminal_event env i f db).0 ≡ ok j
      → Finished i f j (finish_task_with_terminal_event env i f db).1
  unfolding finish_task_with_terminal_event
  finish-Finished i f db {j} h = go (Bool-cases (is_terminal f.status)) h
    where
      go :
          ((is_terminal f.status ≡ true) ⊎ (is_terminal f.status ≡ false))
          → (finish_task_with_terminal_event env i f db).0 ≡ ok j
          → Finished i f j (finish_task_with_terminal_event env i f db).1
      go (inl ends) h = rw ends (found-Finished i f (find_task i db) db refl (ground arith))
      go (inr lives) h = cc

  finish-ends :
      (i : ℕ) (f : Finish) (db : Db) {j : ℕ}
      → (finish_task_with_terminal_event env i f db).0 ≡ ok j
      → is_terminal f.status ≡ true
  unfolding finish_task_with_terminal_event
  finish-ends i f db h = ground arith

  -- A finish of a stream that is closed under the same status appends nothing.
  again :
      (i : ℕ) (f : Finish) (j : ℕ) (db : Db)
      → is_terminal f.status ≡ true
      → Finished i f j db
      → ((finish_task_with_terminal_event env i f db).0 ≡ ok j)
        × ((finish_task_with_terminal_event env i f db).1.events ≡ db.events)
  unfolding finish_task_with_terminal_event finish_found prior_terminal close_stream
  again i f j db ends (t, found, same, last) =
      let level : status_beq t.status f.status ≡ true = rw same (==_refl (status_name f.status)) in
      (rw (ends, found, level, last) refl, rw (ends, found, level, last) refl)

-- Finishing a task again under the same status, at any later time, with the same request, returns
-- the cursor that the first call returned and appends no event: neither a second closing event nor
-- a second summary, by which the failures are counted.
pub finish_task_with_terminal_event_twice :
    (env : Env) (later : String) (i : ℕ) (f : Finish) (db : Db) (j : ℕ)
    → (finish_task_with_terminal_event env i f db).0 ≡ ok j
    → let after : Db = (finish_task_with_terminal_event env i f db).1 in
      let second : Result Refusal ℕ × Db =
        finish_task_with_terminal_event (record env { now = later }) i f after in
      (second.0 ≡ ok j) × (second.1.events ≡ after.events)
finish_task_with_terminal_event_twice env later i f db j h =
    again (record env { now = later }) i f j (finish_task_with_terminal_event env i f db).1
      (finish-ends env i f db h) (finish-Finished env i f db h)
