-- ===== src/Tasks/Progress/Bounds.antt =====
-- The caps of `append_progress_event_batch` in uta/tasks/progress_store.py.
use unit_test_agent.Prelude.{
  arith, ℕ, suc, ◌+◌, ◌≤◌, ◌<◌, ℤ, Bool, true, false, ◌&&◌, not, none, some, List, [], ◌∷◌, ◌++◌,
  ok, ◌≡◌, refl, sym, ap, ◌∙◌, ◌⊎◌, inl, inr, ltb, length, length-append, any, string_eq, sum_by,
  ◌||◌, if◌then◌else◌, Bool-cases, subst, ltb→lt,
}
use unit_test_agent.Tasks.{Env, Db, Task}
use unit_test_agent.Tasks.Store.{find_task, insert_event}
use mathlib.Core.List.{append-nil}
use unit_test_agent.Tasks.Tables.{find_row}
use unit_test_agent.Tasks.Tables.Frames.{find_row-modify_row}
use unit_test_agent.Tasks.Progress.Sizes.{
  asks, plain, prepared-plain, marker_requested-any, payload_bytes, total_bytes-sum_by,
}
use unit_test_agent.Tasks.Progress.Rows.{Appended, insert_marker-Appended}
use unit_test_agent.Tasks.Progress.{
  ProgressItem, Admission, prepared, serialized_bytes, admitted, total_bytes, at_least_zero,
  fitting, cuts, count_progress, write_progress, insert_progress, insert_marker, append_found,
  append_progress_event_batch,
}

module _ (env : Env) where
  -- The next item is too much for one of the caps.
  abbrev pub Over : ℕ → ℕ → ℕ → ℕ → List ProgressItem → Type 0
  Over max_rows max_bytes rows bytes [] = Unit
  Over max_rows max_bytes rows bytes (e ∷ es) =
      (max_rows < rows + 1) ⊎ (max_bytes < bytes + serialized_bytes env e)

  -- The items that are admitted, and those that are not.
  abbrev pub Admits : ℕ → ℕ → ℕ → ℕ → List ProgressItem → List ProgressItem → Type 0
  Admits max_rows max_bytes rows bytes items fit =
      (dropped : List ProgressItem) × (items ≡ fit ++ dropped)
      × Over max_rows max_bytes (rows + length fit) (bytes + total_bytes env fit) dropped
      × (rows ≤ max_rows → rows + length fit ≤ max_rows)
      × (bytes ≤ max_bytes → bytes + total_bytes env fit ≤ max_bytes)

  admitted-Admits :
      (max_rows max_bytes rows bytes : ℕ) (items : List ProgressItem)
      → Admits max_rows max_bytes rows bytes items
          (admitted env max_rows max_bytes rows bytes items)
  unfolding admitted
  admitted-Admits max_rows max_bytes rows bytes [] =
      ([], refl, tt, λ h. omega (arith, h), λ h. omega (arith, h))
  admitted-Admits max_rows max_bytes rows bytes (e ∷ es) =
      go (Bool-cases (ltb max_rows (rows + 1)))
        (Bool-cases (ltb max_bytes (bytes + serialized_bytes env e)))
        (admitted-Admits max_rows max_bytes (rows + 1) (bytes + serialized_bytes env e) es)
    where
      stop :
          Over max_rows max_bytes rows bytes (e ∷ es)
          → Admits max_rows max_bytes rows bytes (e ∷ es) []
      stop over = (
        e ∷ es,
        refl,
        elim over [ inl h ↦ inl (omega (arith, h)) | inr h ↦ inr (omega (arith, h)) ],
        λ h. omega (arith, h),
        λ h. omega (arith, h),
      )

      go :
          ((ltb max_rows (rows + 1) ≡ true) ⊎ (ltb max_rows (rows + 1) ≡ false))
          → ((ltb max_bytes (bytes + serialized_bytes env e) ≡ true)
              ⊎ (ltb max_bytes (bytes + serialized_bytes env e) ≡ false))
          → Admits max_rows max_bytes
              (rows + 1)
              (bytes + serialized_bytes env e)
              es
              (admitted env max_rows max_bytes (rows + 1) (bytes + serialized_bytes env e) es)
          → Admits max_rows max_bytes rows bytes
              (e ∷ es)
              (admitted env max_rows max_bytes rows bytes (e ∷ es))
      go (inl full) _ rest = rw full (stop (inl (ltb→lt _ _ full)))
      go (inr roomy) (inl full) rest = rw (roomy, full) (stop (inr (ltb→lt _ _ full)))
      go (inr roomy) (inr fits) (dropped, is, over, r, b) =
          rw (roomy, fits)
            (
              dropped,
              ap (λ xs. e ∷ xs) is,
              over_shift dropped over,
              λ h. omega (arith, r (ground arith)),
              λ h. omega (arith, b (ground arith)),
            )
        where
          over_shift :
              (xs : List ProgressItem)
              → Over max_rows max_bytes
                  (rows
                    + 1
                    + length (
                        admitted env max_rows max_bytes
                          (rows + 1)
                          (bytes + serialized_bytes env e)
                          es))
                  (bytes
                    + serialized_bytes env e
                    + total_bytes env (
                        admitted env max_rows max_bytes
                          (rows + 1)
                          (bytes + serialized_bytes env e)
                          es))
                  xs
              → Over max_rows max_bytes
                  (rows
                    + suc (
                        length (
                          admitted env max_rows max_bytes
                            (rows + 1)
                            (bytes + serialized_bytes env e)
                            es)))
                  (bytes
                    + (serialized_bytes env e
                        + total_bytes env (
                            admitted env max_rows max_bytes
                              (rows + 1)
                              (bytes + serialized_bytes env e)
                              es)))
                  xs
          over_shift [] over = tt
          over_shift (x ∷ xs) (inl h) = inl (omega (arith, h))
          over_shift (x ∷ xs) (inr h) = inr (omega (arith, h))

  -- The tasks are those of the update.
  progress-tasks :
      (i : ℕ) (es : List ProgressItem) (db : Db) → (insert_progress env i es db).tasks ≡ db.tasks
  progress-tasks i [] db = refl
  progress-tasks i (e ∷ es) db = progress-tasks i es (insert_event env i none _ db)

  marker-tasks :
      (won : Bool) (i m n : ℕ) (db : Db) → (insert_marker env won i m n db).tasks ≡ db.tasks
  marker-tasks true i m n db = refl
  marker-tasks false i m n db = refl

  write_progress-found :
      (i : ℕ) (fit : List ProgressItem) (won : Bool) (m n : ℕ) (t : Task) (db : Db)
      → find_task i db ≡ some t
      → find_task i (write_progress env i fit won m n db) ≡ some (count_progress env fit won t)
  write_progress-found i fit won m n t db found =
      find_row-modify_row (λ u. u.id) i (count_progress env fit won)
        (insert_marker env won i m n (insert_progress env i fit db)).tasks (λ u. refl)
        (ap (λ ts. find_row (λ u. u.id) i ts)
            (marker-tasks won i m n (insert_progress env i fit db) ∙ progress-tasks i fit db)
          ∙ found)

  -- What a batch does to the task's counters, where they were within the caps.
  abbrev pub Bounded : ℕ → ℕ → Task → Task → Admission → Type 0
  Bounded max_rows max_bytes t u a =
      (u.progress_event_count ≡ t.progress_event_count + a.admitted_events)
      × (u.progress_event_bytes ≡ t.progress_event_bytes + a.admitted_serialized_bytes)
      × (u.progress_event_count ≤ max_rows)
      × (u.progress_event_bytes ≤ max_bytes)

  nothing_dropped :
      (fit dropped : List ProgressItem)
      → ltb (length fit) (length (fit ++ dropped)) ≡ false
      → dropped ≡ []
  nothing_dropped fit [] h = refl
  nothing_dropped fit (x ∷ xs) h = absurd (ground (arith, length-append fit (x ∷ xs)))

  -- A batch of progress for a task whose counters are within the caps is admitted up to the first
  -- item that a cap has no room for. The counters of the task grow by the number of the admitted items
  -- and by the bytes of their payloads in UTF-8, which are what is reported, and stay within the caps.
  -- The table of events gets a row for each admitted item, in their order and with its payload, and then
  -- a marker if something was dropped, or a marker was asked for, and the task had none. A result that
  -- is not truncated has admitted every item that is no marker.
  pub append_progress_event_batch-Bounded :
      (i : ℕ) (events : List ProgressItem) (max_events max_bytes : ℤ) (t : Task) (db : Db)
      → find_task i db ≡ some t
      → t.progress_event_count ≤ at_least_zero max_events
      → t.progress_event_bytes ≤ at_least_zero max_bytes
      → (a : Admission) × (u : Task) × (fit : List ProgressItem) × ((append_progress_event_batch env
            i events max_events max_bytes db).0
          ≡ ok a)
        × (find_task i (append_progress_event_batch env i events max_events max_bytes db).1
            ≡ some u)
        × Bounded (at_least_zero max_events) (at_least_zero max_bytes) t u a
        × Admits
            (at_least_zero max_events)
            (at_least_zero max_bytes)
            t.progress_event_count
            t.progress_event_bytes
            (prepared events)
            fit
        × (a.admitted_events ≡ length fit)
        × (a.admitted_serialized_bytes ≡ sum_by (payload_bytes env) fit)
        × Appended env i fit
            (if a.truncated && not t.progress_truncated then 1 else 0)
            db
            (append_progress_event_batch env i events max_events max_bytes db).1
        × (u.progress_truncated ≡ (t.progress_truncated || a.truncated))
        × (prepared events ≡ plain events)
        × (a.truncated ≡ (any asks events || ltb (length fit) (length (prepared events))))
        × (a.truncated ≡ false → fit ≡ prepared events)
  unfolding append_progress_event_batch append_found fitting admitted
  append_progress_event_batch-Bounded i events max_events max_bytes t db found rows bytes =
      let m : ℕ = at_least_zero max_events in
      let n : ℕ = at_least_zero max_bytes in
      let fit : List ProgressItem = fitting env events m n t in
      let won : Bool = cuts env events m n t && not t.progress_truncated in
      let adm : Admits m n t.progress_event_count t.progress_event_bytes (prepared events) fit =
        admitted-Admits m n t.progress_event_count t.progress_event_bytes (prepared events) in
      rw found (
        record {
          admitted_events = length fit;
          admitted_serialized_bytes = total_bytes env fit;
          truncated = cuts env events m n t;
        },
        count_progress env fit won t,
        fit,
        refl,
        write_progress-found i fit won m n t db found,
        (refl, refl, adm.3 rows, adm.4 bytes),
        adm,
        refl,
        total_bytes-sum_by env fit,
        insert_marker-Appended env i fit won m n db,
        stays t.progress_truncated (cuts env events m n t),
        prepared-plain events,
        ap (λ b. b || ltb (length fit) (length (prepared events))) (marker_requested-any events),
        λ whole. whole_fit fit adm.0 adm.1 (ground arith),
      )
    where
      stays : (before cut : Bool) → (if cut && not before then true else before) ≡ (before || cut)
      stays true true = refl
      stays true false = refl
      stays false true = refl
      stays false false = refl

      whole_fit :
          (fit dropped : List ProgressItem)
          → prepared events ≡ fit ++ dropped
          → ltb (length fit) (length (prepared events)) ≡ false
          → fit ≡ prepared events
      whole_fit fit dropped is h = sym (
          is
          ∙ ap (λ xs. fit ++ xs)
              (nothing_dropped fit dropped
                (subst (λ ys. ltb (length fit) (length ys) ≡ false) is h))
          ∙ append-nil fit)
