-- ===== src/Tasks/Keeping.antt =====
-- Invariants of the task tables, by the transactions that the lifecycle of uta/tasks is made of.
use unit_test_agent.Prelude.{
  ℕ, String, Bool, true, false, ◌&&◌, Option, none, some, List, [], ◌∷◌, ◌++◌, Result, ok, err, ◌≡◌,
  refl, Bool-cases, inl, inr,
}
use unit_test_agent.Tasks.{
  Env, Db, Task, ClassTask, Control, Refusal, RepoStatus, is_terminal, created, queued, running,
  stop_requested, stopped, completed, failed, cancelled, poisoned, budget_exceeded,
}
use unit_test_agent.Tasks.Actions.{Keeps}
use unit_test_agent.Tasks.Tables.{
  Assign, assign_all, given_status, set_status, set_stage, set_detail, set_finished, set_updated,
  ClassAssign,
}
use unit_test_agent.Tasks.Tables.Frames.{given_status-append}
use unit_test_agent.Tasks.Store.{
  find_task, modify_task, reactivates, reactivation, update_repo_task, update_class_task, NewEvent,
  insert_event, add_event, task_exists, class_exists, request_control, acknowledge_controls,
}
use unit_test_agent.Tasks.Finish.{
  Finish, finishing, prior_terminal, close_stream, finish_found, finish_task_with_terminal_event,
}

-- The statuses that `_update` is asked for. A terminal one is never, and RUNNING only where the
-- first argument says so.
abbrev pub allows : Bool → RepoStatus → Bool
allows may_run created = true
allows may_run queued = true
allows may_run running = may_run
allows may_run stop_requested = true
allows may_run stopped = true
allows may_run _ = false

pub allows_live :
    (may_run : Bool) (s : RepoStatus) → allows may_run s ≡ true → is_terminal s ≡ false
allows_live may_run created h = refl
allows_live may_run queued h = refl
allows_live may_run running h = refl
allows_live may_run stop_requested h = refl
allows_live may_run stopped h = refl
allows_live may_run completed h = cc
allows_live may_run failed h = cc
allows_live may_run cancelled h = cc
allows_live may_run poisoned h = cc
allows_live may_run budget_exceeded h = cc

abbrev pub Opens : Bool → List Assign → Type 0
Opens may_run fields = elim (given_status fields) [ none ↦ true | some s ↦ allows may_run s ] ≡ true

-- The transactions of the lifecycle keep the invariant: it never updates a task to a terminal
-- status except through `finish_task_with_terminal_event`.
pub record Keeping (env : Env) (may_run : Bool) (I : Db → Type 0) : Type 0 where
  pub update_task :
      (i : ℕ) (fields : List Assign)
      → Opens may_run fields
      → Keeps I (update_repo_task env i fields)
  pub update_class : (i : ℕ) (fields : List ClassAssign) → Keeps I (update_class_task env i fields)
  pub event : (i : ℕ) (c : Option ℕ) (new : NewEvent) → Keeps I (add_event env i c new)
  pub control :
      (i : ℕ) (action : String) (reason : Option String) → Keeps I (request_control i action reason)
  pub acknowledge : (i : ℕ) (action : Option String) → Keeps I (acknowledge_controls env i action)
  pub finish : (i : ℕ) (f : Finish) → Keeps I (finish_task_with_terminal_event env i f)

-- What an invariant is asked for: it does not read classes and controls, and holds after each write.
pub record Stable (env : Env) (may_run : Bool) (I : Db → Type 0) : Type 0 where
  pub elsewhere :
      (cs : List ClassTask) (ks : List Control) (db : Db)
      → I db
      → I (record db { classes = cs; controls = ks })
  pub inserted :
      (i : ℕ) (c : Option ℕ) (new : NewEvent) (db : Db) → I db → I (insert_event env i c new db)
  pub updated :
      (i : ℕ) (fields : List Assign) (db : Db)
      → Opens may_run fields
      → reactivation env (reactivates (given_status fields)) (find_task i db) ≡ ok tt
      → I db
      → I (modify_task i (assign_all (fields ++ set_updated env.now ∷ [])) db)
  pub finished :
      (i : ℕ) (f : Finish) (t : Task) (db : Db)
      → is_terminal f.status ≡ true
      → find_task i db ≡ some t
      → I db
      → I
          (close_stream env i f
            (prior_terminal i f t db)
            (modify_task i (assign_all (finishing env f)) db)).1

module _ (env : Env) (may_run : Bool) (I : Db → Type 0) (s : Stable env may_run I) where
  update_task-Keeps :
      (i : ℕ) (fields : List Assign)
      → Opens may_run fields
      → Keeps I (update_repo_task env i fields)
  unfolding update_repo_task
  update_task-Keeps i [] opens = λ db held. held
  update_task-Keeps i (a ∷ as') opens = λ db held.
      go db held (reactivation env (reactivates (given_status (a ∷ as'))) (find_task i db)) refl
    where
      go :
          (db : Db)
          → I db
          → (r : Result Refusal (Unit {0}))
          → reactivation env (reactivates (given_status (a ∷ as'))) (find_task i db) ≡ r
          → I (update_repo_task env i (a ∷ as') db).1
      go db held (ok tt) e = rw e (s.updated i (a ∷ as') db opens e held)
      go db held (err x) e = rw e held

  event-Keeps : (i : ℕ) (c : Option ℕ) (new : NewEvent) → Keeps I (add_event env i c new)
  unfolding add_event
  event-Keeps i c new = λ db held. elim (Bool-cases (task_exists i db && class_exists c db)) [
    | inl h ↦ rw h (s.inserted i c new db held)
    | inr h ↦ rw h held
  ]

  control-Keeps :
      (i : ℕ) (action : String) (reason : Option String) → Keeps I (request_control i action reason)
  unfolding request_control
  control-Keeps i action reason = λ db held. elim (Bool-cases (task_exists i db)) [
    | inl h ↦ rw h (s.elsewhere db.classes _ db held)
    | inr h ↦ rw h held
  ]

  finish-Keeps : (i : ℕ) (f : Finish) → Keeps I (finish_task_with_terminal_event env i f)
  unfolding finish_task_with_terminal_event finish_found
  finish-Keeps i f = λ db held. elim (Bool-cases (is_terminal f.status)) [
    | inl h ↦ rw h (go db held h (find_task i db) refl)
    | inr h ↦ rw h held
  ]
    where
      go :
          (db : Db)
          → I db
          → is_terminal f.status ≡ true
          → (t : Option Task) → find_task i db ≡ t
          → I (finish_found env i f t db).1
      go db held h none e = held
      go db held h (some t) e = s.finished i f t db h e held

  update_class-Keeps :
      (i : ℕ) (fields : List ClassAssign) → Keeps I (update_class_task env i fields)
  unfolding update_class_task
  update_class-Keeps i [] = λ db held. held
  update_class-Keeps i (a ∷ as') = λ db held. s.elsewhere _ db.controls db held

  acknowledge-Keeps : (i : ℕ) (action : Option String) → Keeps I (acknowledge_controls env i action)
  unfolding acknowledge_controls
  acknowledge-Keeps i action = λ db held. s.elsewhere db.classes _ db held

  pub keeping : Keeping env may_run I
  keeping = record {
    update_task = update_task-Keeps;
    update_class = update_class-Keeps;
    event = event-Keeps;
    control = control-Keeps;
    acknowledge = acknowledge-Keeps;
    finish = finish-Keeps;
  }

-- Two invariants at once.
pub Keeping-× :
    (env : Env) (may_run : Bool) (I J : Db → Type 0)
    → Keeping env may_run I
    → Keeping env may_run J
    → Keeping env may_run (λ db. I db × J db)
Keeping-× env may_run I J k l = record {
  update_task = λ i fields opens db held.
      (k.update_task i fields opens db held.0, l.update_task i fields opens db held.1);
  update_class =
      λ i fields db held. (k.update_class i fields db held.0, l.update_class i fields db held.1);
  event = λ i c new db held. (k.event i c new db held.0, l.event i c new db held.1);
  control = λ i action reason db held.
      (k.control i action reason db held.0, l.control i action reason db held.1);
  acknowledge =
      λ i action db held. (k.acknowledge i action db held.0, l.acknowledge i action db held.1);
  finish = λ i f db held. (k.finish i f db held.0, l.finish i f db held.1);
}

allows_more : (may_run : Bool) (s : RepoStatus) → allows may_run s ≡ true → allows true s ≡ true
allows_more may_run created h = refl
allows_more may_run queued h = refl
allows_more may_run running h = refl
allows_more may_run stop_requested h = refl
allows_more may_run stopped h = refl
allows_more may_run completed h = cc
allows_more may_run failed h = cc
allows_more may_run cancelled h = cc
allows_more may_run poisoned h = cc
allows_more may_run budget_exceeded h = cc

-- Fewer updates keep the invariant as well.
pub weaker :
    (env : Env) (may_run : Bool) (I : Db → Type 0) → Keeping env true I → Keeping env may_run I
weaker env may_run I k = record {
  update_task = λ i fields opens. k.update_task i fields (more (given_status fields) opens);
  update_class = k.update_class;
  event = k.event;
  control = k.control;
  acknowledge = k.acknowledge;
  finish = k.finish;
}
  where
    more :
        (g : Option RepoStatus)
        → elim g [ none ↦ true | some s ↦ allows may_run s ] ≡ true
        → elim g [ none ↦ true | some s ↦ allows true s ] ≡ true
    more none h = refl
    more (some s) h = allows_more may_run s h

-- The status that a task ends with.
module _ (env : Env) where
  pub finishing_status : (f : Finish) → given_status (finishing env f) ≡ some f.status
  finishing_status f = given_status-append f.task_fields (
      set_status f.status
      ∷ set_stage (some f.stage)
      ∷ set_detail (some f.message)
      ∷ set_finished _
      ∷ set_updated env.now
      ∷ [])
