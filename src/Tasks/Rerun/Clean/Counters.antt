-- ===== src/Tasks/Rerun/Clean/Counters.antt =====
-- The task after `clean_rerun_generation` of uta/tasks/workflow_rerun.py.
use unit_test_agent.Prelude.{
  arith, ℕ, String, Option, none, some, List, [], ◌∷◌, ◌≡◌, refl, sym, ap, ◌∙◌, subst, Distinct, ok,
  err, bind_ok, nat_eq,
}
use unit_test_agent.Tasks.{Env, Db, Task, ClassTask, queued, class_is_terminal}
use unit_test_agent.Tasks.Engine.{require_durable_generation_task}
use unit_test_agent.Tasks.Store.{find_task, classes_of, class_count, passed, counts_as_failed}
use unit_test_agent.Tasks.Tables.{find_row}
use unit_test_agent.Tasks.Tables.Frames.{find_row-modify_row}
use unit_test_agent.Tasks.Rerun.{
  Prior, Digest, batch_size, prior_identities, partition, replace_keys, rows_of, requeued_row,
  queue_task,
}
use unit_test_agent.Tasks.Rerun.Counts.{class_ids, counted, tasks-replace_keys}
use unit_test_agent.Tasks.Rerun.Clean.{
  Lineage, RerunRequest, FreshIds, validated_request, require_eligible, rerun_rows, write_rerun,
  clean_rerun_generation,
}

-- A task that may be rerun is the one that is found.
require_eligible-found :
    (env : Env) (i : ℕ) (o : Option Task) (db : Db) (t : Task)
    → require_eligible env i o db ≡ ok t
    → o ≡ some t
unfolding require_eligible
require_eligible-found env i none db t h = cc
require_eligible-found env i (some u) db t h =
    let (a, done, last) = bind_ok (require_durable_generation_task env u) _ h in
    ap some (ground arith)

-- The task waits, with the counts of its classes.
abbrev pub Counted : ℕ → Db → Type 0
Counted i db =
    (t : Task) × (find_task i db ≡ some t)
    × (t.status ≡ queued)
    × (t.completed_classes ≡ class_count class_is_terminal (classes_of i db.classes))
    × (t.passed_classes ≡ class_count passed (classes_of i db.classes))
    × (t.failed_classes ≡ class_count counts_as_failed (classes_of i db.classes))

module _ (env : Env) (digest : Digest) (fresh : FreshIds) where
  write_rerun-Counted :
      (r : RerunRequest) (reason actor : String) (prior : Prior)
      (units : List (String × List ClassTask)) (t : Task) (l after : Lineage)
      → Distinct (class_ids l.db.classes)
      → find_task r.task_id l.db ≡ some t
      → write_rerun env digest fresh r reason actor (rows_of r.task_id l.db) prior units l
        ≡ ok after
      → Counted r.task_id after.db
  unfolding write_rerun queue_task
  write_rerun-Counted r reason actor prior units t l after d found h =
      let (done, loop, last) =
        bind_ok (replace_keys r.force env.now (fresh 0) units (rows_of r.task_id l.db) l.db) _ h in
      let count = counted r.force env.now (fresh 0) units r.task_id l.db done d loop in
      let here : find_task r.task_id done.1 ≡ some t =
        ap (λ ts. find_row (λ u. u.id) r.task_id ts)
          (tasks-replace_keys r.force env.now (fresh 0) units r.task_id l.db done d loop)
        ∙ found in
      let now_is : Counted r.task_id (queue_task r.task_id done.0 env.now done.1) = (
        requeued_row env.now done.0 t,
        find_row-modify_row (λ u. u.id) r.task_id (requeued_row env.now done.0) done.1.tasks
            (λ u. refl) here,
        refl,
        sym (count class_is_terminal),
        sym (count passed),
        sym (count counts_as_failed),
      ) in
      subst (λ r'. elim r' as (λ _. Type 0) [ ok x ↦ Counted r.task_id x.db | err _ ↦ Unit ]) last
        now_is

  rerun_rows-Counted :
      (r : RerunRequest) (reason actor : String) (t : Task) (rows : List ClassTask)
      (l after : Lineage)
      → rows ≡ rows_of r.task_id l.db
      → Distinct (class_ids l.db.classes)
      → find_task r.task_id l.db ≡ some t
      → rerun_rows env digest fresh r reason actor t rows l ≡ ok after
      → Counted r.task_id after.db
  unfolding rerun_rows
  rerun_rows-Counted r reason actor t [] l after e d found h = cc
  rerun_rows-Counted r reason actor t (c ∷ cs) l after e d found h =
      let (prior, one, h') = bind_ok (prior_identities (c ∷ cs)) _ h in
      let (size, two, h'') = bind_ok (batch_size _ prior.key_counts r.default_batch_size) _ h' in
      write_rerun-Counted r reason actor prior (partition digest size (c ∷ cs)) t l after d found (
        subst
          (λ rows.
            write_rerun env digest fresh r reason actor rows prior (partition digest size (c ∷ cs))
              l
            ≡ ok after)
          e h'')

  -- A clean rerun that returns leaves the task queued, and its counters are those of its classes as
  -- they now stand in the table: the ended, the passed and the failed ones among them. The ids of
  -- the classes are distinct.
  pub clean_rerun_generation-Counted :
      (r : RerunRequest) (l : Lineage) (run : String) (after : Lineage)
      → Distinct (class_ids l.db.classes)
      → clean_rerun_generation env digest fresh r l ≡ ok (run, after)
      → Counted r.task_id after.db
  unfolding clean_rerun_generation
  clean_rerun_generation-Counted r l run after d h =
      let (who, one, h1) = bind_ok (validated_request r) _ h in
      let (t, two, h2) =
        bind_ok (require_eligible env r.task_id (find_task r.task_id l.db) l.db) _ h1 in
      let (l', three, h3) =
        bind_ok (rerun_rows env digest fresh r who.0 who.1 t (rows_of r.task_id l.db) l) _ h2 in
      let same : l' ≡ after = cc in
      subst (λ x. Counted r.task_id x.db) same
        (rerun_rows-Counted r who.0 who.1 t (rows_of r.task_id l.db) l l' refl d
          (require_eligible-found env r.task_id (find_task r.task_id l.db) l.db t two) three)
