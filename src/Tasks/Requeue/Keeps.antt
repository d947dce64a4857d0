-- ===== src/Tasks/Requeue/Keeps.antt =====
-- Invariants under requeueing, preempting and reprioritizing: uta/tasks/lifecycle/recovery.py.
use unit_test_agent.Prelude.{
  ℕ, ℤ, String, Bool, true, false, Option, none, some, List, [], ◌∷◌, nat_eq, refl, Bool-cases, inl,
  inr,
}
use unit_test_agent.Tasks.{Env, Db, Task, ClassTask, Action}
use unit_test_agent.Tasks.Actions.{Keeps, Keeps->>=, Keeps-for_each}
use unit_test_agent.Tasks.Keeping.{Keeping}
use unit_test_agent.Tasks.Store.{list_class_tasks, get_repo_task, get_class_task, NewEvent}
use unit_test_agent.Tasks.Lifecycle.Keeps.{stop_task-Keeps}
use unit_test_agent.Tasks.Recovery.Keeps.{refresh_repo_counts-Keeps}
use unit_test_agent.Tasks.Requeue.{
  Age, class_is_running, requeue_class, requeue_task, requeue_unless, requeue_orphan,
  latest_running_heartbeat, collect_each, requeue_orphaned_running_tasks, requeue_killed,
  requeue_daemon_shutdown_tasks, sorted_ids, preempt, preempt_for,
  preempt_running_same_repo_for_urgent, reprioritize_task, reprioritize_found, reprioritize_class,
}

module _ (env : Env) (may_run : Bool) (I : Db → Type 0) (k : Keeping env may_run I) where
  requeue_class-Keeps : (detail : String) (c : ClassTask) → Keeps I (requeue_class env detail c)
  unfolding requeue_class
  requeue_class-Keeps detail c = elim (Bool-cases (class_is_running c.status)) [
    | inl h ↦ rw h (k.update_class c.id _)
    | inr h ↦ rw h (λ db held. held)
  ]

  requeue_task-Keeps :
      (i : ℕ) (detail : String) (said : NewEvent) → Keeps I (requeue_task env i detail said)
  unfolding requeue_task
  requeue_task-Keeps i detail said = Keeps->>= I _ _ (k.update_task i _ refl) (λ _.
      Keeps->>= I (list_class_tasks i) _ (λ db h. h)
        (λ rows. Keeps->>= I _ _ (Keeps-for_each I rows _ (requeue_class-Keeps detail)) (λ _.
          Keeps->>= I _ _ (k.event i _ _) (λ _. refresh_repo_counts-Keeps env may_run I k i))))

  requeue_unless-Keeps :
      (b : Bool) (i : ℕ) (detail : String) (said : NewEvent)
      → Keeps I (requeue_unless env b i detail said)
  unfolding requeue_unless
  requeue_unless-Keeps true i detail said = λ db h. h
  requeue_unless-Keeps false i detail said =
      Keeps->>= I _ _ (requeue_task-Keeps i detail said) (λ _ db held. held)

  requeue_orphan-Keeps :
      (active : List ℕ) (threshold : ℕ) (age : Age) (t : Task)
      → Keeps I (requeue_orphan env active threshold age t)
  unfolding requeue_orphan latest_running_heartbeat
  requeue_orphan-Keeps active threshold age t =
      Keeps->>= I (latest_running_heartbeat t.id) _ (λ db h. h)
        (λ beat. requeue_unless-Keeps _ _ _ _)

  collect_each-Keeps :
      {A : Type 0} (body : A → Action (List ℕ)) (xs : List A)
      → ((x : A) → Keeps I (body x))
      → Keeps I (collect_each env body xs)
  unfolding collect_each
  collect_each-Keeps body [] h = λ db held. held
  collect_each-Keeps body (x ∷ xs) h =
      Keeps->>= I _ _ (h x)
        (λ _. Keeps->>= I _ _ (collect_each-Keeps body xs h) (λ _ db held. held))

  pub requeue_orphaned_running_tasks-Keeps :
      (active : List ℕ) (threshold : ℕ) (age : Age)
      → Keeps I (requeue_orphaned_running_tasks env active threshold age)
  unfolding requeue_orphaned_running_tasks
  requeue_orphaned_running_tasks-Keeps active threshold age =
      Keeps->>= I _ _ (λ db h. h)
        (λ rows. collect_each-Keeps _ rows (requeue_orphan-Keeps active _ age))

  requeue_killed-Keeps : (reason : String) (i : ℕ) → Keeps I (requeue_killed env reason i)
  unfolding requeue_killed
  requeue_killed-Keeps reason i =
      Keeps->>= I (get_repo_task i) _ (λ db h. h) (λ task. requeue_unless-Keeps _ _ _ _)

  pub requeue_daemon_shutdown_tasks-Keeps :
      (active : List ℕ) (reason : String)
      → Keeps I (requeue_daemon_shutdown_tasks env active reason)
  unfolding requeue_daemon_shutdown_tasks
  requeue_daemon_shutdown_tasks-Keeps active reason =
      collect_each-Keeps _ (sorted_ids active) (requeue_killed-Keeps reason)

  preempt-Keeps : (urgent : ℕ) (t : Task) → Keeps I (preempt env urgent t)
  unfolding preempt
  preempt-Keeps urgent t = Keeps->>= I _ _ (stop_task-Keeps env may_run I k t.id _) (λ _.
      Keeps->>= I _ _ (k.event t.id _ _)
        (λ _. Keeps->>= I _ _ (k.event urgent _ _) (λ _ db held. held)))

  preempt_for-Keeps : (urgent : ℕ) (u : Option Task) → Keeps I (preempt_for env urgent u)
  unfolding preempt_for
  preempt_for-Keeps urgent none = λ db h. h
  preempt_for-Keeps urgent (some u) =
      Keeps->>= I _ _ (λ db h. h) (λ rows. collect_each-Keeps _ rows (preempt-Keeps urgent))

  pub preempt_running_same_repo_for_urgent-Keeps :
      (urgent : ℕ) → Keeps I (preempt_running_same_repo_for_urgent env urgent)
  unfolding preempt_running_same_repo_for_urgent
  preempt_running_same_repo_for_urgent-Keeps urgent =
      Keeps->>= I (get_repo_task urgent) _ (λ db h. h) (λ u. preempt_for-Keeps urgent u)

  pub reprioritize_task-Keeps : (i : ℕ) (priority : ℤ) → Keeps I (reprioritize_task env i priority)
  unfolding reprioritize_task
  reprioritize_task-Keeps i priority = Keeps->>= I _ _ (k.update_task i _ refl) (λ _. k.event i _ _)

  reprioritize_found-Keeps :
      (i : ℕ) (priority : ℤ) (c : Option ClassTask) → Keeps I (reprioritize_found env i priority c)
  unfolding reprioritize_found
  reprioritize_found-Keeps i priority none = λ db h. h
  reprioritize_found-Keeps i priority (some c) =
      Keeps->>= I _ _ (k.update_class i _) (λ _. k.event c.repo_task_id _ _)

  pub reprioritize_class-Keeps :
      (i : ℕ) (priority : ℤ) → Keeps I (reprioritize_class env i priority)
  unfolding reprioritize_class
  reprioritize_class-Keeps i priority =
      Keeps->>= I (get_class_task i) _ (λ db h. h) (λ c. reprioritize_found-Keeps i priority c)
