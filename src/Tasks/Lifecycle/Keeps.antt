-- ===== src/Tasks/Lifecycle/Keeps.antt =====
-- Invariants under the transitions of uta/tasks/lifecycle/state.py.
use unit_test_agent.Prelude.{
  ℕ, String, Bool, true, Option, none, some, ◌≡◌, refl, Bool-cases, inl, inr,
}
use unit_test_agent.Tasks.{Env, Db, Task, ClassTask}
use unit_test_agent.Tasks.Actions.{◌>>=◌, Keeps, Keeps->>=, Keeps-for_each}
use unit_test_agent.Tasks.Keeping.{Keeping}
use unit_test_agent.Tasks.Store.{list_class_tasks, get_repo_task, latest_control}
use unit_test_agent.Tasks.Lifecycle.{
  start_task, mark_running, stop_task, mark_stopped, check_stop_requested, cancel_task,
  cancel_class, mark_poisoned, unblock, unblock_found, is_unfinished,
}

module _ (env : Env) (may_run : Bool) (I : Db → Type 0) (k : Keeping env may_run I) where
  pub start_task-Keeps : (i : ℕ) → Keeps I (start_task env i)
  unfolding start_task
  start_task-Keeps i = Keeps->>= I _ _ (k.update_task i _ refl) (λ _. k.event i _ _)

  pub mark_running-Keeps :
      may_run ≡ true
      → (i : ℕ) (stage : String) (detail : Option String)
      → Keeps I (mark_running env i stage detail)
  unfolding mark_running
  mark_running-Keeps may i stage detail =
      Keeps->>= I (get_repo_task i) _ (λ db h. h)
        (λ row. Keeps->>= I _ _ (k.update_task i _ may) (λ _. k.event i _ _))

  pub stop_task-Keeps : (i : ℕ) (reason : Option String) → Keeps I (stop_task env i reason)
  unfolding stop_task
  stop_task-Keeps i reason =
      Keeps->>= I _ _ (k.control i _ _)
        (λ _. Keeps->>= I _ _ (k.update_task i _ refl) (λ _. k.event i _ _))

  pub mark_stopped-Keeps :
      (i : ℕ) (reason : Option String) (stage : String) → Keeps I (mark_stopped env i reason stage)
  unfolding mark_stopped
  mark_stopped-Keeps i reason stage =
      Keeps->>= I _ _ (k.acknowledge i _)
        (λ _. Keeps->>= I _ _ (k.update_task i _ refl) (λ _. k.event i _ _))

  pub check_stop_requested-Keeps : (i : ℕ) → Keeps I (check_stop_requested env i)
  unfolding check_stop_requested latest_control ◌>>=◌
  check_stop_requested-Keeps i = λ db h. h

  cancel_class-Keeps :
      (reason : Option String) (c : ClassTask) → Keeps I (cancel_class env reason c)
  unfolding cancel_class
  cancel_class-Keeps reason c = elim (Bool-cases (is_unfinished c.status)) [
    | inl h ↦ rw h (k.update_class c.id _)
    | inr h ↦ rw h (λ db held. held)
  ]

  pub cancel_task-Keeps : (i : ℕ) (reason : Option String) → Keeps I (cancel_task env i reason)
  unfolding cancel_task
  cancel_task-Keeps i reason = Keeps->>= I _ _ (k.control i _ _) (λ _.
      Keeps->>= I (list_class_tasks i) _ (λ db h. h)
        (λ rows.
          Keeps->>= I _ _ (Keeps-for_each I rows _ (cancel_class-Keeps reason))
            (λ _. k.finish i _)))

  pub mark_poisoned-Keeps : (i : ℕ) (message : String) → Keeps I (mark_poisoned env i message)
  unfolding mark_poisoned
  mark_poisoned-Keeps i message = k.finish i _

  unblock_found-Keeps : (i : ℕ) (t : Option Task) → Keeps I (unblock_found env i t)
  unfolding unblock_found
  unblock_found-Keeps i none = λ db h. h
  unblock_found-Keeps i (some t) =
      Keeps->>= I _ _ (λ db h. h)
        (λ _.
          Keeps->>= I _ _ (λ db h. h)
            (λ _.
              Keeps->>= I _ _ (k.update_task i _ refl)
                (λ _. Keeps->>= I _ _ (k.acknowledge i _) (λ _. k.event i _ _))))

  pub unblock-Keeps : (i : ℕ) → Keeps I (unblock env i)
  unfolding unblock
  unblock-Keeps i = Keeps->>= I (get_repo_task i) _ (λ db h. h) (λ t. unblock_found-Keeps i t)
