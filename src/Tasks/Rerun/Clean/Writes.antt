-- ===== src/Tasks/Rerun/Clean/Writes.antt =====
-- The task tables after `clean_rerun_generation` of uta/tasks/workflow_rerun.py: one task, classes,
-- controls and one event.
use unit_test_agent.Prelude.{
  arith, ℕ, String, Option, none, some, List, [], ◌∷◌, ◌≡◌, sym, ap, ◌∙◌, subst, Result, ok, err,
  bind_ok, nat_eq, object, Option-cases, inl, inr,
}
use unit_test_agent.Tasks.{Env, Db, Task, ClassTask, Control, ClassStatus, Refusal}
use unit_test_agent.Tasks.Engine.{require_durable_generation_task}
use unit_test_agent.Tasks.Store.{
  find_task, modify_task, modify_class, NewEvent, insert_event, acknowledge_rows,
}
use unit_test_agent.Tasks.Recovery.{Force}
use unit_test_agent.Tasks.Rerun.{
  Prior, Digest, batch_size, prior_identities, partition, replace_keys, unit_by_class, rekeyed,
  rows_of, requeued_row, queue_task,
}
use unit_test_agent.Tasks.Rerun.Clean.{
  Lineage, RerunRequest, FreshIds, validated_request, require_eligible, rerun_rows, write_rerun,
  rerun_payload, clean_rerun_generation,
}

-- The tables with one task queued again, other classes and controls, and one event more.
abbrev pub requeued_tables :
    Env → ℕ → List ClassStatus → List ClassTask → List Control → NewEvent → Db → Db
requeued_tables env i statuses cs ks new db =
    insert_event env i none new
      (record (modify_task i (requeued_row env.now statuses) db) { classes = cs; controls = ks })

-- The task was found and its snapshot accepted.
abbrev pub Requeues : Env → ℕ → Db → Db → Type 0
Requeues env i db after =
    (t : Task) × (find_task i db ≡ some t)
    × (require_durable_generation_task env t ≡ ok tt)
    × (statuses : List ClassStatus) × (cs : List ClassTask) × (ks : List Control) × (new : NewEvent)
    × (after ≡ requeued_tables env i statuses cs ks new db)

only_classes :
    (force : Force) (now run : String) (units : List (String × List ClassTask))
    (rows : List ClassTask) (db : Db) (done : List ClassStatus × Db)
    → replace_keys force now run units rows db ≡ ok done
    → (cs : List ClassTask) × (done.1 ≡ record db { classes = cs })
unfolding replace_keys
only_classes force now run units [] db done h =
    (db.classes, ap (λ r. elim r as (λ _. Db) [ ok d ↦ d.1 | err _ ↦ db ]) (sym h))
only_classes force now run units (c ∷ rows) db done h =
    elim (Option-cases (unit_by_class c.id units)) [
      | inl lost ↦ absurd (cc (rw (lost, replace_keys) at h))
      | inr (unit, there) ↦
          let (r, loop, last) =
            bind_ok
              (replace_keys force now run units rows
                (modify_class c.id (rekeyed force now run unit) db))
              _ (rw (there, replace_keys) at h) in
          let (cs, is) =
            only_classes force now run units rows
              (modify_class c.id (rekeyed force now run unit) db) r loop in
          (cs, ap (λ x. x.1) (sym (inside last)) ∙ is)
    ]
  where
    inside :
        {a b : List ClassStatus × Db}
        → ◌≡◌ {A = Result Refusal (List ClassStatus × Db)} (ok a) (ok b)
        → a ≡ b
    inside e = cc

require_eligible-Guarded :
    (env : Env) (i : ℕ) (o : Option Task) (db : Db) (t : Task)
    → require_eligible env i o db ≡ ok t
    → (o ≡ some t) × (require_durable_generation_task env t ≡ ok tt)
unfolding require_eligible
require_eligible-Guarded env i none db t h = cc
require_eligible-Guarded env i (some u) db t h =
    let (a, done, last) = bind_ok (require_durable_generation_task env u) _ h in
    let same : u ≡ t = ground arith in
    (ap some same, subst (λ v. require_durable_generation_task env v ≡ ok tt) same done)

module _ (env : Env) (digest : Digest) (fresh : FreshIds) where
  write_rerun-Requeues :
      (r : RerunRequest) (reason actor : String) (rows : List ClassTask) (prior : Prior)
      (units : List (String × List ClassTask)) (t : Task) (l after : Lineage)
      → find_task r.task_id l.db ≡ some t
      → require_durable_generation_task env t ≡ ok tt
      → write_rerun env digest fresh r reason actor rows prior units l ≡ ok after
      → Requeues env r.task_id l.db after.db
  unfolding write_rerun queue_task
  write_rerun-Requeues r reason actor rows prior units t l after found guard h =
      let (done, loop, last) =
        bind_ok (replace_keys r.force env.now (fresh 0) units rows l.db) _ h in
      let (cs, is) = only_classes r.force env.now (fresh 0) units rows l.db done loop in
      let new : NewEvent = record {
        event_type = "generation_cycle_clean_rerun_requested";
        message = "Clean generation rerun requested";
        stage = some "queued";
        severity = "WARNING";
        payload = object (rerun_payload env digest fresh r reason actor units prior l.scopes);
      } in
      (
        t,
        found,
        guard,
        done.0,
        cs,
        acknowledge_rows env.now r.task_id none l.db.controls,
        new,
        ap (λ x. elim x as (λ _. Db) [ ok y ↦ y.db | err _ ↦ l.db ]) (sym last)
            ∙ ap (λ d. insert_event env r.task_id none new (queue_task r.task_id done.0 env.now d))
                is,
      )

  rerun_rows-Requeues :
      (r : RerunRequest) (reason actor : String) (t : Task) (rows : List ClassTask)
      (l after : Lineage)
      → find_task r.task_id l.db ≡ some t
      → require_durable_generation_task env t ≡ ok tt
      → rerun_rows env digest fresh r reason actor t rows l ≡ ok after
      → Requeues env r.task_id l.db after.db
  unfolding rerun_rows
  rerun_rows-Requeues r reason actor t [] l after found guard h = cc
  rerun_rows-Requeues r reason actor t (c ∷ cs) l after found guard h =
      let (prior, one, h') = bind_ok (prior_identities (c ∷ cs)) _ h in
      let (size, two, h'') = bind_ok (batch_size _ prior.key_counts r.default_batch_size) _ h' in
      write_rerun-Requeues r reason actor (c ∷ cs) prior (partition digest size (c ∷ cs)) t l after
        found guard h''

  pub clean_rerun_generation-Requeues :
      (r : RerunRequest) (l after : Lineage) (run : String)
      → clean_rerun_generation env digest fresh r l ≡ ok (run, after)
      → Requeues env r.task_id l.db after.db
  unfolding clean_rerun_generation
  clean_rerun_generation-Requeues r l after run h =
      let (who, one, h1) = bind_ok (validated_request r) _ h in
      let (t, two, h2) =
        bind_ok (require_eligible env r.task_id (find_task r.task_id l.db) l.db) _ h1 in
      let (l', three, h3) =
        bind_ok (rerun_rows env digest fresh r who.0 who.1 t (rows_of r.task_id l.db) l) _ h2 in
      let (found, guard) =
        require_eligible-Guarded env r.task_id (find_task r.task_id l.db) l.db t two in
      let same : l' ≡ after = cc in
      subst (λ x. Requeues env r.task_id l.db x.db) same
        (rerun_rows-Requeues r who.0 who.1 t (rows_of r.task_id l.db) l l' found guard three)
