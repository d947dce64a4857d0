-- ===== src/Operations/Rows/Written.antt =====
-- The row that a transaction of uta/tasks/storage/operation_repository.py returns, and its table.
use unit_test_agent.Prelude.{
  String, ◌≡◌, refl, true, some, string_eq, ==_refl, Option-cases, inl, inr, ok, bind_ok, &&_iff,
  subst,
}
use unit_test_agent.Operations.Rows.{
  Row, Db, Status, started, completed, failed, cancelled, Claim, Completion, find, modify, new_row,
  same_claim, same_completion, same_session, start_workflow_operation, complete_workflow_operation,
  complete_row, completed_row, retry_workflow_operation,
}
use unit_test_agent.Operations.Rows.Lookup.{
  find-modify_self, find-append, require_found, write_found, insert-ok,
}
use unit_test_agent.Operations.Rows.Replay.{
  reads_ok, same_claim-new_row, same_completion-completed_row,
}
use unit_test_agent.Operations.Rows.Successor.{retry_workflow_operation_cases}

pub start_workflow_operation-found :
    (c : Claim) (now : String) (db : Db) {n : Row} {db' : Db}
    → start_workflow_operation c now db ≡ ok (n, db')
    → (find c.operation_id db'.operations ≡ some n) × (same_claim n c ≡ true)
unfolding start_workflow_operation
start_workflow_operation-found c now db {n} {db'} h =
    elim (Option-cases (find c.operation_id db.operations)) [
      | inl fresh ↦
          let (_, _, is_new, e) = insert-ok c now db (rw (fresh, start_workflow_operation) at h) in
          (
            rw (
              e,
              find-append c.operation_id db.operations (new_row c now),
              fresh,
              ==_refl c.operation_id,
              is_new,
            ),
            rw is_new (same_claim-new_row c now),
          )
      | inr (q, there) ↦
          let (same, is_row, is_db) = reads_ok _ q db (rw (there, start_workflow_operation) at h) in
          (rw (← is_row, ← is_db) there, rw (← is_row) same)
    ]

complete_row-found :
    (t : Status) (j : String) (c : Completion) (now : String) (q : Row) (db : Db) {n : Row}
    {db' : Db}
    → find j db.operations ≡ some q
    → q.status ≡ t
    → complete_row t j c now q db ≡ ok (n, db')
    → (find j db'.operations ≡ some n) × (n.status ≡ completed) × (same_completion n c ≡ true)
unfolding complete_row
complete_row-found started j c now q db {n} {db'} found e h =
    let w = write_found j (completed_row c now) db q (λ x. refl) found in
    let is_row : completed_row c now q ≡ n = cc in
    let is_db : record db { operations = modify j (completed_row c now) db.operations } ≡ db' =
      cc in
    rw (← is_row, ← is_db)
      (
        find-modify_self j (completed_row c now) db.operations q (λ x. refl) found,
        refl,
        same_completion-completed_row c now q,
      )
complete_row-found completed j c now q db {n} {db'} found e h =
    let (b, is_row, is_db) = reads_ok _ q db h in
    let (same, _) = (&&_iff (same_completion q c) (same_session q c.session_id)).0 b in
    rw (← is_row, ← is_db) (found, e, same)
complete_row-found failed j c now q db found e h = absurd (cc)
complete_row-found cancelled j c now q db found e h = absurd (cc)

pub complete_workflow_operation-found :
    (j : String) (c : Completion) (now : String) (db : Db) {n : Row} {db' : Db}
    → complete_workflow_operation j c now db ≡ ok (n, db')
    → (find j db'.operations ≡ some n) × (n.status ≡ completed) × (same_completion n c ≡ true)
unfolding complete_workflow_operation
complete_workflow_operation-found j c now db h =
    let (q, req, h') = bind_ok _ _ h in
    complete_row-found q.status j c now q db (require_found j db req) refl h'

pub retry_workflow_operation-found :
    (old : String) (c : Claim) (kind now : String) (db : Db) {n : Row} {db' : Db}
    → retry_workflow_operation old c kind now db ≡ ok (n, db')
    → find c.operation_id db'.operations ≡ some n
retry_workflow_operation-found old c kind now db {n} {db'} h =
    let (q, _, either) = retry_workflow_operation_cases old c kind now db h in
    elim either [
      | inl r ↦ r.new_found
      | inr f ↦ subst (λ d. find c.operation_id d.operations ≡ some n) f.unchanged f.there
    ]
