-- ===== src/Tasks/Progress/Rows.antt =====
-- The rows of `task_events` that a batch of progress appends: uta/tasks/progress_store.py.
use unit_test_agent.Prelude.{
  ℕ, suc, Bool, true, false, none, List, [], ◌∷◌, ◌++◌, ◌≡◌, refl, sym, ap, ◌∙◌, length, All,
  string_eq, if◌then◌else◌,
}
use unit_test_agent.Tasks.{Env, Db, Event}
use unit_test_agent.Tasks.Store.{insert_event, NewEvent}
use mathlib.Core.List.{append-nil, append_assoc}
use unit_test_agent.Tasks.Progress.{
  ProgressItem, progress_event, truncation, write_progress, insert_progress,
}

module _ (env : Env) where
  -- The rows of `task_events` for the items, numbered from n on.
  abbrev pub Told : ℕ → ℕ → List ProgressItem → List Event → Type 0
  Told i n [] [] = Unit
  Told i n (e ∷ es) (d ∷ ds) =
      (d.id ≡ n)
      × (d.repo_task_id ≡ i)
      × (d.event_type ≡ "agent_progress")
      × (d.payload_json ≡ env.dumps e.payload)
      × (d.created_at ≡ env.now)
      × Told i (suc n) es ds
  Told i n _ _ = ⊥

  -- The batch appends a row for each item, and then a marker where one is due.
  abbrev pub Appended : ℕ → List ProgressItem → ℕ → Db → Db → Type 0
  Appended i fit due db after =
      (told : List Event) × (marks : List Event) × (after.events ≡ db.events ++ told ++ marks)
      × Told i db.next_event fit told
      × All (λ d. (d.repo_task_id ≡ i) × (d.event_type ≡ "progress_truncated")) marks
      × (length marks ≡ due)

  insert_progress-Told :
      (i : ℕ) (es : List ProgressItem) (db : Db)
      → (told : List Event) × ((insert_progress env i es db).events ≡ db.events ++ told)
        × Told i db.next_event es told
  insert_progress-Told i [] db = ([], sym (append-nil db.events), tt)
  insert_progress-Told i (e ∷ es) db =
      let next : Db = insert_event env i none (progress_event env e) db in
      let (told, is, each) = insert_progress-Told i es next in
      (_ ∷ told, is ∙ append_assoc db.events _ told, (refl, refl, refl, refl, refl, each))

  insert_event-one :
      (i : ℕ) (new : NewEvent) (db : Db)
      → (d : Event) × ((insert_event env i none new db).events ≡ db.events ++ d ∷ [])
        × (d.repo_task_id ≡ i)
        × (d.event_type ≡ new.event_type)
  insert_event-one i new db = (
    record {
      id = db.next_event;
      repo_task_id = i;
      class_task_id = none;
      event_type = new.event_type;
      severity = new.severity;
      stage = new.stage;
      message = new.message;
      payload_json = env.dumps new.payload;
      created_at = env.now;
    },
    refl,
    refl,
    refl,
  )

  pub insert_marker-Appended :
      (i : ℕ) (fit : List ProgressItem) (won : Bool) (m n : ℕ) (db : Db)
      → Appended i fit (if won then 1 else 0) db (write_progress env i fit won m n db)
  insert_marker-Appended i fit true m n db =
      let (told, is, each) = insert_progress-Told i fit db in
      let (d, one, mine, marks) =
        insert_event-one i (truncation env m n) (insert_progress env i fit db) in
      (told, d ∷ [], one ∙ ap (λ es. es ++ d ∷ []) is, each, ((mine, marks), tt), refl)
  insert_marker-Appended i fit false m n db =
      let (told, is, each) = insert_progress-Told i fit db in
      (told, [], is ∙ sym (append-nil (db.events ++ told)), each, tt, refl)
