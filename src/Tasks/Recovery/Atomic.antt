-- ===== src/Tasks/Recovery/Atomic.antt =====
-- What a refused resume leaves behind: `resume_task` of uta/tasks/lifecycle/recovery.py, which is
-- several transactions.
use unit_test_agent.Prelude.{
  ℕ, String, Bool, true, false, ◌&&◌, Option, none, some, List, [], ◌∷◌, ◌++◌, Result, ok, err, ◌≡◌,
  refl, ap, Bool-cases, inl, inr,
}
use unit_test_agent.Tasks.{Env, Db, Task, ClassTask, Refusal, Action, stop_requested, runtime_error}
use unit_test_agent.Tasks.Actions.{◌>>=◌, ◌>>◌, and_then, for_each, raise}
use unit_test_agent.Tasks.Engine.{require_durable_generation_task}
use unit_test_agent.Tasks.Tables.{Assign, assign_all, given_status, set_updated}
use unit_test_agent.Tasks.Tables.Frames.{find_row-modify_row, assign_all-Frame}
use unit_test_agent.Tasks.Store.{
  find_task, list_class_tasks, update_repo_task, update_class_task, reactivation, reactivates,
  NewEvent, add_event, acknowledge_controls, refresh_repo_counts, counts, classes_of, task_exists,
  class_exists,
}
use unit_test_agent.Tasks.Finish.{status_beq}
use unit_test_agent.Tasks.Recovery.{
  Force, resumable, resume_class, refuse_pending, requeue_resumed, resume_found, resume_task,
}

-- A statement that returns, under an invariant that it keeps.
Returns : (Db → Type 0) → {A : Type 0} → Action A → Type 0
Returns I {A} m = (db : Db) → I db → ((a : A) × ((m db).0 ≡ ok a)) × I (m db).1

Returns->>= :
    {A B : Type 0} (I : Db → Type 0) (m : Action A) (next : A → Action B)
    → Returns I m
    → ((a : A) → Returns I (next a))
    → Returns I (m >>= next)
unfolding Returns ◌>>=◌
Returns->>= I m next k h db held =
    let ((a, done), after) = k db held in rw done (h a (m db).1 after)

Returns-for_each :
    {A : Type 0} (I : Db → Type 0) (xs : List A) (body : A → Action (Unit {0}))
    → ((x : A) → Returns I (body x))
    → Returns I (for_each xs body)
unfolding Returns
Returns-for_each I [] body h = λ db held. ((tt, refl), held)
Returns-for_each I (x ∷ xs) body h =
    Returns->>= I (body x) (λ _. for_each xs body) (h x) (λ _. Returns-for_each I xs body h)

module _ (env : Env) (i : ℕ) where
  -- The task is there, and its snapshot is accepted.
  Ready : Db → Type 0
  Ready db =
      (u : Task) × (find_task i db ≡ some u) × (require_durable_generation_task env u ≡ ok tt)

  same_guard :
      (t u : Task)
      → u.config_snapshot_json ≡ t.config_snapshot_json
      → require_durable_generation_task env t ≡ ok tt
      → require_durable_generation_task env u ≡ ok tt
  unfolding require_durable_generation_task
  same_guard t u same h = rw same h

  update-Returns :
      (a : Assign) (as' : List Assign) → Returns Ready (update_repo_task env i (a ∷ as'))
  unfolding Returns update_repo_task Ready reactivation
  update-Returns a as' db (u, found, guard) =
      let f : Task → Task = assign_all (a ∷ as' ++ set_updated env.now ∷ []) in
      let passes : reactivation env (reactivates (given_status (a ∷ as'))) (find_task i db)
          ≡ ok tt =
        rw found (go (reactivates (given_status (a ∷ as')))) in
      rw passes (
        (tt, refl),
        (
          f u,
          find_row-modify_row (λ t. t.id) i f db.tasks
              (λ t. (assign_all-Frame (a ∷ as' ++ set_updated env.now ∷ []) t).0) found,
          same_guard u (f u) (assign_all-Frame (a ∷ as' ++ set_updated env.now ∷ []) u).2 guard,
        ),
      )
    where
      go : (b : Bool) → reactivation env b (some u) ≡ ok tt
      go true = guard
      go false = refl

  acknowledge-Returns : (action : Option String) → Returns Ready (acknowledge_controls env i action)
  unfolding Returns acknowledge_controls Ready
  acknowledge-Returns action db held = ((tt, refl), held)

  class-Returns : (force : Force) (c : ClassTask) → Returns Ready (resume_class env force c)
  unfolding Returns resume_class update_class_task Ready
  class-Returns force c db held = elim (Bool-cases (resumable force c.status)) [
    | inl h ↦ rw h ((tt, refl), held)
    | inr h ↦ rw h ((tt, refl), held)
  ]

  fields-Returns : (fields : List Assign) → Returns Ready (update_repo_task env i fields)
  unfolding Returns update_repo_task
  fields-Returns [] = λ db held. ((tt, refl), held)
  fields-Returns (a ∷ as') = update-Returns a as'

  refresh-Returns : Returns Ready (refresh_repo_counts env i)
  unfolding Returns refresh_repo_counts
  refresh-Returns db held = fields-Returns (counts (classes_of i db.classes)) db held

  task_exists-find_task : (db : Db) (u : Task) → find_task i db ≡ some u → task_exists i db ≡ true
  unfolding task_exists
  task_exists-find_task db u found =
      ap (λ o. elim o as (λ _. Bool) [ some _ ↦ true | none ↦ false ]) found

  event-Returns : (new : NewEvent) → Returns Ready (add_event env i none new)
  unfolding Returns add_event Ready class_exists
  event-Returns new db (u, found, guard) =
      let there : task_exists i db ≡ true = task_exists-find_task db u found in
      rw there ((tt, refl), (u, found, guard))

  list-Returns : Returns Ready (list_class_tasks i)
  unfolding Returns Ready
  list-Returns db held = ((_, refl), held)

-- No row of a task, a class or a control has changed.
abbrev pub Unchanged : Db → Db → Type 0
Unchanged db after =
    (after.tasks ≡ db.tasks) × (after.classes ≡ db.classes) × (after.controls ≡ db.controls)

add_event-Unchanged :
    (env : Env) (i : ℕ) (new : NewEvent) (db : Db) → Unchanged db (add_event env i none new db).1
unfolding add_event
add_event-Unchanged env i new db = elim (Bool-cases (task_exists i db && class_exists none db)) [
  | inl h ↦ rw h (refl, refl, refl)
  | inr h ↦ rw h (refl, refl, refl)
]

module _ (env : Env) (force : Force) (i : ℕ) where
  -- A refusal raises, and the event is all that it has written.
  Refuses : Action (Unit {0}) → Db → Type 0
  Refuses m db = (e : Refusal) × ((m db).0 ≡ err e) × Unchanged db (m db).1

  raise_after-Refuses :
      (m : Action (Unit {0})) (db : Db)
      → Unchanged db (m db).1
      → Refuses (m >> raise runtime_error) db
  unfolding Refuses ◌>>=◌
  raise_after-Refuses m db = go (m db)
    where
      go :
          (r : Result Refusal (Unit {0}) × Db)
          → Unchanged db r.1
          → (e : Refusal) × ((and_then {B = Unit {0}} r.0 (λ _. raise runtime_error) r.1).0 ≡ err e)
            × Unchanged db (and_then {B = Unit {0}} r.0 (λ _. raise runtime_error) r.1).1
      go (ok _, after) h = (runtime_error, refl, h)
      go (err e, after) h = (e, refl, h)

  refuse_pending-Refuses :
      (t : Task) (db : Db)
      → status_beq t.status stop_requested ≡ true
      → Refuses (refuse_pending env i t) db
  unfolding refuse_pending
  refuse_pending-Refuses t db h =
      rw h (raise_after-Refuses (add_event env i none _) db (add_event-Unchanged env i _ db))

  refused-Unchanged :
      (m n : Action (Unit {0})) (db : Db) → Refuses m db → Unchanged db ((m >> n) db).1
  unfolding Refuses ◌>>=◌
  refused-Unchanged m n db (e, raised, same) = rw raised same

  -- What follows the refusals returns.
  requeue_resumed-Returns : (t : Task) → Returns (Ready env i) (requeue_resumed env force i t)
  unfolding requeue_resumed
  requeue_resumed-Returns t = Returns->>= (Ready env i) _ _ (fields-Returns env i _) (λ _.
      Returns->>= (Ready env i) _ _ (acknowledge-Returns env i none) (λ _.
        Returns->>= (Ready env i) _ _ (list-Returns env i) (λ rows.
          Returns->>= (Ready env i) _ _
            (Returns-for_each (Ready env i) rows _ (class-Returns env i force))
            (λ _.
              Returns->>= (Ready env i) _ _ (refresh-Returns env i) (λ _. event-Returns env i _)))))

  -- Where the first passes and the second returns, nothing is raised.
  not_raised_after :
      (m n : Action (Unit {0})) (db : Db) (e : Refusal) (a : Unit {0})
      → m db ≡ (ok tt, db)
      → (n db).0 ≡ ok a
      → ¬ (((m >> n) db).0 ≡ err e)
  unfolding ◌>>=◌
  not_raised_after m n db e a passes returns raised =
      let same : ((m >> n) db).0 ≡ (n db).0 = rw passes refl in cc

  pending_passes :
      (t : Task) (db : Db)
      → status_beq t.status stop_requested ≡ false
      → refuse_pending env i t db ≡ (ok tt, db)
  unfolding refuse_pending
  pending_passes t db ready = rw ready refl

  after_guard-Unchanged :
      (t : Task) (db : Db) (e : Refusal)
      → find_task i db ≡ some t
      → require_durable_generation_task env t ≡ ok tt
      → ((refuse_pending env i t >> requeue_resumed env force i t) db).0 ≡ err e
      → Unchanged db ((refuse_pending env i t >> requeue_resumed env force i t) db).1
  unfolding ◌>>=◌ refuse_pending Returns Ready
  after_guard-Unchanged t db e found guard h =
      elim (Bool-cases (status_beq t.status stop_requested)) [
        | inl stopping ↦
            refused-Unchanged (refuse_pending env i t) (requeue_resumed env force i t) db
              (refuse_pending-Refuses t db stopping)
        | inr ready ↦ absurd (
            let ((a, returned), held) = requeue_resumed-Returns t db (t, found, guard) in
            not_raised_after (refuse_pending env i t) (requeue_resumed env force i t) db e a
              (pending_passes t db ready) returned h)
      ]

  guarded-Unchanged :
      (t : Task) (r : Result Refusal (Unit {0})) (db : Db) (e : Refusal)
      → find_task i db ≡ some t
      → require_durable_generation_task env t ≡ r
      → (and_then r (λ _. refuse_pending env i t >> requeue_resumed env force i t) db).0 ≡ err e
      → Unchanged db
          (and_then r (λ _. refuse_pending env i t >> requeue_resumed env force i t) db).1
  guarded-Unchanged t (ok tt) db e found guard h = after_guard-Unchanged t db e found guard h
  guarded-Unchanged t (err _) db e found guard h = (refl, refl, refl)

  resume_found-Unchanged :
      (o : Option Task) (db : Db) (e : Refusal)
      → find_task i db ≡ o
      → (resume_found env force i o db).0 ≡ err e
      → Unchanged db (resume_found env force i o db).1
  unfolding resume_found ◌>>=◌
  resume_found-Unchanged none db e found h = (refl, refl, refl)
  resume_found-Unchanged (some t) db e found h =
      guarded-Unchanged t (require_durable_generation_task env t) db e found refl h

  -- A resume that is refused, for a task that is not there, a snapshot that is not accepted or a
  -- stop that is pending, has changed no task, no class and no control.
  pub resume_task-Unchanged :
      (db : Db) (e : Refusal)
      → (resume_task env force i db).0 ≡ err e
      → Unchanged db (resume_task env force i db).1
  unfolding resume_task ◌>>=◌
  resume_task-Unchanged db e h = resume_found-Unchanged (find_task i db) db e refl h
