-- ===== src/Tasks/Workbench.antt =====
-- Runs of a clean rerun.
use unit_test_agent.Prelude.{
  decimal, arith, ℕ, pos, String, false, Option, none, some, List, [], ◌∷◌, Result, ok, err, ◌≡◌,
  refl, nat_eq,
}
use unit_test_agent.Tasks.{
  ClassTask, Refusal, ClassStatus, class_pass, class_fail, class_running, class_queued, failed,
}
use unit_test_agent.Tasks.Engine.{classify_generation_snapshot, require_durable_generation_task}
use unit_test_agent.Tasks.Scenarios.{env, queue, first_task}
use unit_test_agent.Tasks.Rerun.{
  Digest, partition, prior_identities, batch_size, replace_keys, queue_task,
}
use unit_test_agent.Tasks.Rerun.Slices.{members, Sized, partition-Sized}
use unit_test_agent.Tasks.Rerun.Clean.{Lineage, RerunRequest, FreshIds, clean_rerun_generation}
use unit_test_agent.Tasks.Rerun.Clean.Counters.{Counted, clean_rerun_generation-Counted}

abbrev class_row : ℕ → ClassStatus → Option String → ClassTask
class_row i s key = record {
  id = i;
  repo_task_id = 1;
  class_fqn = "a.B";
  target_id = none;
  batch_key = key;
  priority = pos 100;
  status = s;
  stage = none;
  current_stage = none;
  current_detail = none;
  started_at = none;
  finished_at = none;
  last_error = none;
  error = none;
  updated_at = "t0";
}

abbrev rows : List ClassTask
rows =
    class_row 1 class_pass (some "r0/unit-0001-x")
    ∷ class_row 2 class_fail (some "r0/unit-0001-x")
    ∷ class_row 3 class_running none
    ∷ []

abbrev start : Lineage
start = record {
  db = record queue { tasks = record first_task { status = failed } ∷ []; classes = rows };
  supersessions = [];
  scopes = [];
}

abbrev request : RerunRequest
request = record {
  task_id = 1;
  reason = some " lost ";
  confirm_task_id = 1;
  force = record { force_rerun_failed = false; force_rerun_all = false };
  requested_by = none;
  user = "me";
  default_batch_size = 1;
}

abbrev digest : Digest
digest names = "00"

abbrev fresh : FreshIds
fresh n = "r1"

abbrev result : Result Refusal (String × Lineage)
result = clean_rerun_generation env digest fresh request start

abbrev after : Lineage
after = elim result [ ok x ↦ x.1 | err _ ↦ start ]

abbrev keyed : List ClassTask → List (Option String × ClassStatus)
keyed [] = []
keyed (c ∷ cs) = (c.batch_key, c.status) ∷ keyed cs

rekeyed_rows :
    keyed after.db.classes
    ≡ (some "r1/unit-0001-00", class_pass)
      ∷ (some "r1/unit-0001-00", class_fail)
      ∷ (some "r1/unit-0002-00", class_queued)
      ∷ []
unfolding clean_rerun_generation require_durable_generation_task classify_generation_snapshot
    prior_identities batch_size replace_keys partition queue_task decimal
rekeyed_rows = refl

returned : result ≡ ok ("r1", after)
unfolding clean_rerun_generation require_durable_generation_task classify_generation_snapshot
    prior_identities batch_size replace_keys partition
returned = refl

clean_rerun_generation-Counted_example : Counted 1 after.db
clean_rerun_generation-Counted_example =
    clean_rerun_generation-Counted env digest fresh request start "r1" after
      (refl, (refl, (refl, tt))) returned

partition-Sized_example :
    (members (partition digest 2 rows) ≡ rows) × Sized 2 (partition digest 2 rows)
partition-Sized_example = partition-Sized digest 2 rows (omega arith)
