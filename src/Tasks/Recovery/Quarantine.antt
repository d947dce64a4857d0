-- ===== src/Tasks/Recovery/Quarantine.antt =====
-- Failures and quarantine: `mark_failed` of uta/tasks/lifecycle/state.py.
use unit_test_agent.Prelude.{
  arith, ℕ, ◌+◌, ◌≤◌, ℤ, pos, negsuc, leb, leb→le, subst, ◌&&◌, ◌⊎◌, String, Bool, true, false,
  none, some, List, [], ◌∷◌, ◌++◌, ◌≡◌, refl, ap, ◌∙◌, ◌==◌, nat_eq, string_eq, ==_refl, Bool-cases,
  inl, inr, if◌then◌else◌, sum_by-append,
}
use unit_test_agent.Tasks.{Env, Db, Task, Event, RepoStatus, failed, poisoned, is_terminal}
use unit_test_agent.Tasks.Actions.{◌>>=◌, and_then}
use unit_test_agent.Tasks.Store.{
  find_task, modify_task, event_count, is_failure_of, count_task_failures,
}
use unit_test_agent.Tasks.Tables.{assign_all, find_row}
use unit_test_agent.Tasks.Tables.Frames.{find_row-modify_row, assign_all-Frame, status_after}
use unit_test_agent.Tasks.Keeping.{finishing_status}
use unit_test_agent.Tasks.Finish.{
  Finish, finishing, status_beq, prior_terminal, close_stream, finish_found,
  finish_task_with_terminal_event,
}
use unit_test_agent.Tasks.Recovery.{
  preemptions, resume_each, resume_preempted_tasks, poisons, failure_of, mark_failed,
}

preemptions-append :
    (es fs : List Event) → preemptions es ≡ [] → preemptions fs ≡ [] → preemptions (es ++ fs) ≡ []
unfolding preemptions
preemptions-append [] fs a b = b
preemptions-append (e ∷ es) fs a b = elim (Bool-cases (e.event_type == "task_preempted")) [
  | inl h ↦ absurd (no h)
  | inr h ↦ rw h (preemptions-append es fs (ground arith) b)
]
  where
    no : (e.event_type == "task_preempted") ≡ true → ⊥
    no h = ground arith

-- The threshold is positive, and one failure more than n reaches it.
abbrev pub Reached : ℤ → ℕ → Type 0
Reached (pos k) n = (1 ≤ k) × (k ≤ n + 1)
Reached (negsuc k) n = ⊥

poisons-Reached :
    (k : ℤ) (n : ℕ)
    → ((poisons k n ≡ true) × Reached k n) ⊎ ((poisons k n ≡ false) × (¬ Reached k n))
poisons-Reached (negsuc k) n = inr (refl, λ h. h)
poisons-Reached (pos k) n = elim (Bool-cases (leb 1 k && leb k (n + 1))) [
  | inl reached ↦ inl (reached, (leb→le 1 k (ground arith), leb→le k (n + 1) (ground arith)))
  | inr not_reached ↦ inr (not_reached, λ h. (let (one, enough) = h in ground arith))
]

-- What a failure makes of a task.
abbrev pub Failed : ℕ → ℕ → RepoStatus → Db → Type 0
Failed i n s db =
    (u : Task) × (find_task i db ≡ some u)
    × (u.status ≡ s)
    × (event_count (is_failure_of i) db.events ≡ n + 1)

module _ (env : Env) where
  -- A finish under a status that the task does not have yet.
  finish-fresh :
      (i : ℕ) (f : Finish) (t : Task) (db : Db)
      → is_terminal f.status ≡ true
      → find_task i db ≡ some t
      → status_beq t.status f.status ≡ false
      → finish_task_with_terminal_event env i f db
        ≡ close_stream env i f none (modify_task i (assign_all (finishing env f)) db)
  unfolding finish_task_with_terminal_event finish_found prior_terminal
  finish-fresh i f t db ends found other = rw (ends, found, other) refl

  -- Where no task was preempted, nothing is resumed.
  resumes_none :
      (i : ℕ) (db : Db) → preemptions db.events ≡ [] → (resume_preempted_tasks env i db).1 ≡ db
  unfolding resume_preempted_tasks ◌>>=◌ resume_each
  resumes_none i db h = rw h refl

  -- One event more.
  counts_one :
      (i : ℕ) (es : List Event) (e : Event)
      → event_count (is_failure_of i) (es ++ e ∷ [])
        ≡ event_count (is_failure_of i) es + (if is_failure_of i e then 1 else 0)
  counts_one i es e =
      omega (arith, sum_by-append (λ d. if is_failure_of i d then 1 else 0) es (e ∷ []))

  counts_same :
      (i : ℕ) (es : List Event) (e : Event)
      → is_failure_of i e ≡ false
      → event_count (is_failure_of i) (es ++ e ∷ []) ≡ event_count (is_failure_of i) es
  counts_same i es e h = counts_one i es e ∙ rw h (omega arith)

  counts_more :
      (i : ℕ) (es : List Event) (e : Event)
      → is_failure_of i e ≡ true
      → event_count (is_failure_of i) (es ++ e ∷ []) ≡ event_count (is_failure_of i) es + 1
  counts_more i es e h = counts_one i es e ∙ rw h refl

  preempts_none :
      (es : List Event) (e : Event)
      → preemptions es ≡ []
      → (e.event_type == "task_preempted") ≡ false
      → preemptions (es ++ e ∷ []) ≡ []
  unfolding preemptions
  preempts_none es e h other = preemptions-append es (e ∷ []) h (rw other refl)

  -- The events of a failure: one that counts, and none of a preemption.
  closed_events :
      (b : Bool) (i : ℕ) (message stage : String) (db : Db)
      → preemptions db.events ≡ []
      → (preemptions (close_stream env i (failure_of env b message stage) none db).1.events ≡ [])
        × (event_count
              (is_failure_of i)
              (close_stream env i (failure_of env b message stage) none db).1.events
            ≡ event_count (is_failure_of i) db.events + 1)
        × ((close_stream env i (failure_of env b message stage) none db).1.tasks ≡ db.tasks)
  unfolding close_stream
  closed_events true i message stage db h = (
    preempts_none _ _ (preempts_none _ _ (preempts_none db.events _ h refl) refl) refl,
    counts_same i _ _ (rw (==_refl i) refl)
        ∙ counts_same i _ _ (rw (==_refl i) refl)
        ∙ counts_more i db.events _ (rw (==_refl i) refl),
    refl,
  )
  closed_events false i message stage db h = (
    preempts_none _ _ (preempts_none db.events _ h refl) refl,
    counts_same i _ _ (rw (==_refl i) refl) ∙ counts_more i db.events _ (rw (==_refl i) refl),
    refl,
  )

marked :
    (env : Env) (i : ℕ) (message stage : String) (t : Task) (db : Db)
    → preemptions db.events ≡ []
    → find_task i db ≡ some t
    → status_beq t.status failed ≡ false
    → status_beq t.status poisoned ≡ false
    → let n : ℕ = event_count (is_failure_of i) db.events in
      Failed i n
        (if poisons env.quarantine_threshold n then poisoned else failed)
        (mark_failed env i message stage db).1
unfolding mark_failed ◌>>=◌ count_task_failures close_stream
marked env i message stage t db none_preempted found not_failed not_poisoned =
    go (poisons env.quarantine_threshold (event_count (is_failure_of i) db.events))
  where
    fresh : (b : Bool) → status_beq t.status (failure_of env b message stage).status ≡ false
    fresh true = not_poisoned
    fresh false = not_failed

    ending : (b : Bool) → is_terminal (failure_of env b message stage).status ≡ true
    ending true = refl
    ending false = refl

    named : (b : Bool) → (failure_of env b message stage).status ≡ (if b then poisoned else failed)
    named true = refl
    named false = refl

    go :
        (b : Bool)
        → Failed i
            (event_count (is_failure_of i) db.events)
            (if b then poisoned else failed)
            (and_then
              (finish_task_with_terminal_event env i (failure_of env b message stage) db).0
              (λ _. resume_preempted_tasks env i)
              (finish_task_with_terminal_event env i (failure_of env b message stage) db).1).1
    go b =
        let f : Finish = failure_of env b message stage in
        let db' : Db = modify_task i (assign_all (finishing env f)) db in
        let wrote = closed_events env b i message stage db' none_preempted in
        rw (finish-fresh env i f t db (ending b) found (fresh b)) (
          rw (resumes_none env i (close_stream env i f none db').1 wrote.0) (
            assign_all (finishing env f) t,
            ap (λ ts. find_row (λ u. u.id) i ts) wrote.2
                ∙ find_row-modify_row (λ u. u.id) i (assign_all (finishing env f)) db.tasks
                    (λ u. (assign_all-Frame (finishing env f) u).0) found,
            (assign_all-Frame (finishing env f) t).3
                ∙ ap (λ x. status_after x t.status) (finishing_status env f)
                ∙ named b,
            wrote.1,
          ))

-- A task that fails, and that has neither failed nor been quarantined before, where no task was
-- preempted: it is quarantined when the threshold is positive and reached with this failure, it has
-- failed when it is not, and the failures that are counted grow by one in both cases.
pub mark_failed-Failed :
    (env : Env) (i : ℕ) (message stage : String) (t : Task) (db : Db)
    → preemptions db.events ≡ []
    → find_task i db ≡ some t
    → status_beq t.status failed ≡ false
    → status_beq t.status poisoned ≡ false
    → let n : ℕ = event_count (is_failure_of i) db.events in
      let after : Db = (mark_failed env i message stage db).1 in
      (Reached env.quarantine_threshold n × Failed i n poisoned after)
      ⊎ ((¬ Reached env.quarantine_threshold n) × Failed i n failed after)
mark_failed-Failed env i message stage t db none_preempted found not_failed not_poisoned =
    let n : ℕ = event_count (is_failure_of i) db.events in
    let all = marked env i message stage t db none_preempted found not_failed not_poisoned in
    let under : RepoStatus → Type 0 = λ s. Failed i n s (mark_failed env i message stage db).1 in
    elim (poisons-Reached env.quarantine_threshold n) [
      | inl (decided, reached) ↦
          inl (reached, subst (λ b. under (if b then poisoned else failed)) decided all)
      | inr (decided, open_threshold) ↦
          inr (open_threshold, subst (λ b. under (if b then poisoned else failed)) decided all)
    ]
