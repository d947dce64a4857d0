-- ===== src/Tasks/Recovery/Keeps.antt =====
-- Invariants under resuming and under the transitions that resume preempted tasks:
-- uta/tasks/lifecycle/recovery.py and state.py.
use unit_test_agent.Prelude.{
  ℕ, String, Bool, true, false, Option, none, some, List, [], ◌∷◌, refl, Bool-cases, inl, inr,
  int_beq, pos,
}
use unit_test_agent.Tasks.{Env, Db, Task, ClassTask, Event, stop_requested, stopped}
use unit_test_agent.Tasks.Actions.{Keeps, Keeps->>=, Keeps-for_each}
use unit_test_agent.Tasks.Keeping.{Keeping}
use unit_test_agent.Tasks.Store.{
  list_class_tasks, get_repo_task, refresh_repo_counts, counts, classes_of, count_task_failures,
}
use unit_test_agent.Tasks.Finish.{status_beq}
use unit_test_agent.Tasks.Recovery.{
  Force, no_force, resumable, resume_class, refuse_pending, requeue_resumed, resume_found,
  resume_task, resume_stopped, resume_if_own, resume_one, resume_each, resume_preempted_tasks,
  mark_failed, mark_completed, mark_budget_exceeded,
}

module _ (env : Env) (may_run : Bool) (I : Db → Type 0) (k : Keeping env may_run I) where
  pub refresh_repo_counts-Keeps : (i : ℕ) → Keeps I (refresh_repo_counts env i)
  unfolding refresh_repo_counts
  refresh_repo_counts-Keeps i = λ db. k.update_task i (counts (classes_of i db.classes)) refl db

  resume_class-Keeps : (force : Force) (c : ClassTask) → Keeps I (resume_class env force c)
  unfolding resume_class
  resume_class-Keeps force c = elim (Bool-cases (resumable force c.status)) [
    | inl h ↦ rw h (k.update_class c.id _)
    | inr h ↦ rw h (λ db held. held)
  ]

  refuse_pending-Keeps : (i : ℕ) (t : Task) → Keeps I (refuse_pending env i t)
  unfolding refuse_pending
  refuse_pending-Keeps i t = elim (Bool-cases (status_beq t.status stop_requested)) [
    | inl h ↦ rw h (Keeps->>= I _ _ (k.event i _ _) (λ _ db held. held))
    | inr h ↦ rw h (λ db held. held)
  ]

  requeue_resumed-Keeps :
      (force : Force) (i : ℕ) (t : Task) → Keeps I (requeue_resumed env force i t)
  unfolding requeue_resumed
  requeue_resumed-Keeps force i t = Keeps->>= I _ _ (k.update_task i _ refl) (λ _.
      Keeps->>= I _ _ (k.acknowledge i _) (λ _.
        Keeps->>= I (list_class_tasks i) _ (λ db h. h)
          (λ rows.
            Keeps->>= I _ _ (Keeps-for_each I rows _ (resume_class-Keeps force))
              (λ _. Keeps->>= I _ _ (refresh_repo_counts-Keeps i) (λ _. k.event i _ _)))))

  resume_found-Keeps :
      (force : Force) (i : ℕ) (t : Option Task) → Keeps I (resume_found env force i t)
  unfolding resume_found
  resume_found-Keeps force i none = λ db h. h
  resume_found-Keeps force i (some t) =
      Keeps->>= I _ _ (λ db h. h)
        (λ _. Keeps->>= I _ _ (refuse_pending-Keeps i t) (λ _. requeue_resumed-Keeps force i t))

  pub resume_task-Keeps : (force : Force) (i : ℕ) → Keeps I (resume_task env force i)
  unfolding resume_task
  resume_task-Keeps force i =
      Keeps->>= I (get_repo_task i) _ (λ db h. h) (λ t. resume_found-Keeps force i t)

  resume_stopped-Keeps : (urgent i : ℕ) (t : Option Task) → Keeps I (resume_stopped env urgent i t)
  unfolding resume_stopped
  resume_stopped-Keeps urgent i none = λ db h. h
  resume_stopped-Keeps urgent i (some t) = elim (Bool-cases (status_beq t.status stopped)) [
    | inl h ↦ rw h (
        Keeps->>= I _ _ (Keeps->>= I _ _ (resume_task-Keeps no_force i) (λ _. k.event urgent _ _))
          (λ _ db held. held))
    | inr h ↦ rw h (λ db held. held)
  ]

  resume_if_own-Keeps : (urgent i : ℕ) (own : Bool) → Keeps I (resume_if_own env urgent i own)
  unfolding resume_if_own
  resume_if_own-Keeps urgent i false = λ db h. h
  resume_if_own-Keeps urgent i true =
      Keeps->>= I (get_repo_task i) _ (λ db h. h) (λ t. resume_stopped-Keeps urgent i t)

  resume_one-Keeps : (urgent : ℕ) (e : Event) → Keeps I (resume_one env urgent e)
  unfolding resume_one
  resume_one-Keeps urgent e =
      Keeps->>= I _ _ (λ db h. h)
        (λ by. resume_if_own-Keeps urgent e.repo_task_id (int_beq by (pos urgent)))

  resume_each-Keeps : (urgent : ℕ) (es : List Event) → Keeps I (resume_each env urgent es)
  unfolding resume_each
  resume_each-Keeps urgent [] = λ db h. h
  resume_each-Keeps urgent (e ∷ es) =
      Keeps->>= I _ _ (resume_one-Keeps urgent e)
        (λ _. Keeps->>= I _ _ (resume_each-Keeps urgent es) (λ _ db held. held))

  pub resume_preempted_tasks-Keeps : (urgent : ℕ) → Keeps I (resume_preempted_tasks env urgent)
  unfolding resume_preempted_tasks
  resume_preempted_tasks-Keeps urgent =
      Keeps->>= I _ _ (λ db h. h) (λ es. resume_each-Keeps urgent es)

  pub mark_failed-Keeps :
      (i : ℕ) (message stage : String) → Keeps I (mark_failed env i message stage)
  unfolding mark_failed count_task_failures
  mark_failed-Keeps i message stage =
      Keeps->>= I (count_task_failures i) _ (λ db h. h)
        (λ _. Keeps->>= I _ _ (k.finish i _) (λ _. resume_preempted_tasks-Keeps i))

  pub mark_completed-Keeps : (i : ℕ) (message : String) → Keeps I (mark_completed env i message)
  unfolding mark_completed
  mark_completed-Keeps i message =
      Keeps->>= I _ _ (k.finish i _) (λ _. resume_preempted_tasks-Keeps i)

  pub mark_budget_exceeded-Keeps :
      (i : ℕ) (message : String) → Keeps I (mark_budget_exceeded env i message)
  unfolding mark_budget_exceeded
  mark_budget_exceeded-Keeps i message =
      Keeps->>= I _ _ (k.finish i _) (λ _. resume_preempted_tasks-Keeps i)
