-- ===== src/Operations/Rows/Terminal.antt =====
-- Rows of uta/tasks/storage/operation_repository.py that have left `STARTED`.
use unit_test_agent.Prelude.{
  String, ◌≡◌, ◌≢◌, refl, sym, ap, ◌∙◌, subst, some, List, [], ◌∷◌, string_eq, Bool-cases,
  Option-cases, inl, inr, Result, ok, err, bind_ok,
}
use unit_test_agent.Operations.Rows.{
  Row, Db, Refusal, Status, started, completed, failed, cancelled, Claim, Completion, Closing,
  Closed, closed_failed, closed_cancelled, find, modify, insert, require, write,
  start_workflow_operation, complete_workflow_operation, complete_row, completed_row,
  finish_workflow_operation, finish_row, closed_row, retry_workflow_operation, replace,
  close_crashed, superseded_row, successor_of, is_completed, unsessioned,
}
use unit_test_agent.Operations.Rows.Lookup.{KeepsId, require_found, write_found}
use unit_test_agent.Operations.Rows.Requests.{
  Request, start, complete, finish, retry, run, run_all, table_after,
}
use unit_test_agent.Operations.Rows.Keeping.{
  Keeps, Holds, Keeps-superseded_row, close_crashed-id, close_crashed-KeepsId, reads, follows,
  Holds-modify, Holds-insert,
}

-- A settled row is not the started row that is found under the id.
not_started :
    (j : String) (r s q : Row) (db : Db)
    → r.status ≢ started
    → Keeps r s
    → find j db.operations ≡ some s
    → find j db.operations ≡ some q
    → q.status ≡ started
    → ⊥
not_started j r s q db settled same found found' e =
    let one : s ≡ q = cc in settled (sym (ap (λ x. x.status) same) ∙ ap (λ x. x.status) one ∙ e)

module _ (i : String) (r : Row) (settled : r.status ≢ started) where
  -- A write to the started row under an id.
  Holds-write :
      (j : String) (f : Row → Row) (q : Row) (db : Db) {n : Row} {db' : Db}
      → KeepsId f
      → find j db.operations ≡ some q
      → q.status ≡ started
      → write j f db ≡ ok (n, db')
      → Holds i r db
      → Holds i r db'
  Holds-write j f q db {n} {db'} k found e h held =
      let w : record db { operations = modify j f db.operations } ≡ db' =
        cc (write_found j f db q k found) in
      subst (Holds i r) w (
        Holds-modify i r j f db k
          (λ s found' same. absurd (not_started j r s q db settled same found' found e)) held)

  Holds-complete_row :
      (t : Status) (j : String) (c : Completion) (now : String) (q : Row) (db : Db) {n : Row}
      {db' : Db}
      → find j db.operations ≡ some q
      → q.status ≡ t
      → complete_row t j c now q db ≡ ok (n, db')
      → Holds i r db
      → Holds i r db'
  unfolding complete_row
  Holds-complete_row started j c now q db found e h held =
      Holds-write j (completed_row c now) q db (λ x. refl) found e h held
  Holds-complete_row completed j c now q db found e h held = subst (Holds i r) (reads _ q db h) held
  Holds-complete_row failed j c now q db found e h held = absurd (cc)
  Holds-complete_row cancelled j c now q db found e h held = absurd (cc)

  Holds-finish_row :
      (t : Status) (u : Closed) (j : String) (c : Closing) (now : String) (q : Row) (db : Db)
      {n : Row} {db' : Db}
      → find j db.operations ≡ some q
      → q.status ≡ t
      → finish_row t u j c now q db ≡ ok (n, db')
      → Holds i r db
      → Holds i r db'
  unfolding finish_row
  Holds-finish_row started closed_failed j c now q db found e h held =
      Holds-write j (closed_row c now) q db (λ x. refl) found e h held
  Holds-finish_row started closed_cancelled j c now q db found e h held =
      Holds-write j (closed_row c now) q db (λ x. refl) found e h held
  Holds-finish_row failed closed_failed j c now q db found e h held =
      subst (Holds i r) (reads _ q db h) held
  Holds-finish_row cancelled closed_cancelled j c now q db found e h held =
      subst (Holds i r) (reads _ q db h) held
  Holds-finish_row _ _ j c now q db found e h held = absurd (cc)

  Holds-replace :
      (old : String) (c : Claim) (kind now : String) (q : Row) (db : Db) {n : Row} {db' : Db}
      → find old db.operations ≡ some q
      → replace old c kind now q db ≡ ok (n, db')
      → Holds i r db
      → Holds i r db'
  unfolding replace
  Holds-replace old c kind now q db {n} {db'} found h held =
      elim (Bool-cases (is_completed q.status)) [
        | inl done ↦ absurd (cc (rw done at h))
        | inr open_row ↦
            let closed : Db = record db {
              operations = modify old (close_crashed q.status kind now) db.operations;
            } in
            let ((m, inserted), e, h') =
              bind_ok (insert (unsessioned c) now closed) _ (rw open_row at h) in
            let linked : Db = record inserted {
              operations = modify old (superseded_row c.operation_id now) inserted.operations;
            } in
            let (s, _, last) = bind_ok (require c.operation_id linked) _ h' in
            let done : linked ≡ db' = cc in
            subst (Holds i r) done (
              Holds-modify i r old (superseded_row c.operation_id now) inserted (λ x. refl)
                (λ x _ same. Keeps-superseded_row r x c.operation_id now same)
                (Holds-insert i r (unsessioned c) now closed e (
                  Holds-modify i r old (close_crashed q.status kind now) db
                    (close_crashed-KeepsId q.status kind now)
                    (λ x found' same.
                      rw
                        (close_crashed-id q.status kind now x (λ open_status.
                          not_started old r x q db settled same found' found open_status))
                        same)
                    held)))
      ]

  Holds-retry :
      (old : String) (c : Claim) (kind now : String) (db : Db) {n : Row} {db' : Db}
      → retry_workflow_operation old c kind now db ≡ ok (n, db')
      → Holds i r db
      → Holds i r db'
  unfolding retry_workflow_operation
  Holds-retry old c kind now db h held =
      let (q, req, h') = bind_ok (require old db) _ h in
      elim (Option-cases (successor_of q)) [
        | inl fresh ↦
            Holds-replace old c kind now q db (require_found old db req) (rw fresh at h') held
        | inr (s, linked) ↦
            subst (Holds i r) (follows _ (require c.operation_id db) db (rw linked at h')) held
      ]

  Holds-start :
      (c : Claim) (now : String) (db : Db) {n : Row} {db' : Db}
      → start_workflow_operation c now db ≡ ok (n, db')
      → Holds i r db
      → Holds i r db'
  unfolding start_workflow_operation
  Holds-start c now db h held = elim (Option-cases (find c.operation_id db.operations)) [
    | inl fresh ↦ Holds-insert i r c now db (rw (fresh, start_workflow_operation) at h) held
    | inr (q, there) ↦
        subst (Holds i r) (reads _ q db (rw (there, start_workflow_operation) at h)) held
  ]

  Holds-complete :
      (j : String) (c : Completion) (now : String) (db : Db) {n : Row} {db' : Db}
      → complete_workflow_operation j c now db ≡ ok (n, db')
      → Holds i r db
      → Holds i r db'
  unfolding complete_workflow_operation
  Holds-complete j c now db h held =
      let (q, req, h') = bind_ok (require j db) _ h in
      Holds-complete_row q.status j c now q db (require_found j db req) refl h' held

  Holds-finish :
      (j : String) (c : Closing) (now : String) (db : Db) {n : Row} {db' : Db}
      → finish_workflow_operation j c now db ≡ ok (n, db')
      → Holds i r db
      → Holds i r db'
  unfolding finish_workflow_operation
  Holds-finish j c now db h held =
      let (q, req, h') = bind_ok (require j db) _ h in
      Holds-finish_row q.status c.status j c now q db (require_found j db req) refl h' held

  Holds-table_after :
      (db : Db) (result : Result Refusal (Row × Db))
      → ((n : Row) (db' : Db) → result ≡ ok (n, db') → Holds i r db')
      → Holds i r db
      → Holds i r (table_after db result)
  Holds-table_after db (ok (n, db')) step held = step n db' refl
  Holds-table_after db (err x) step held = held

  Holds-run :
      (q : Request) (now : String) (db : Db)
      → Holds i r db
      → Holds i r (table_after db (run q now db))
  unfolding run
  Holds-run (start c) now db held =
      Holds-table_after db _ (λ n db' h. Holds-start c now db h held) held
  Holds-run (complete j c) now db held =
      Holds-table_after db _ (λ n db' h. Holds-complete j c now db h held) held
  Holds-run (finish j c) now db held =
      Holds-table_after db _ (λ n db' h. Holds-finish j c now db h held) held
  Holds-run (retry old c kind) now db held =
      Holds-table_after db _ (λ n db' h. Holds-retry old c kind now db h held) held

  Holds-run_all :
      (qs : List (Request × String)) (db : Db) → Holds i r db → Holds i r (run_all qs db)
  unfolding run_all
  Holds-run_all [] db held = held
  Holds-run_all ((q, now) ∷ qs) db held =
      Holds-run_all qs (table_after db (run q now db)) (Holds-run q now db held)

-- Once an operation is completed, failed or cancelled, no sequence of transactions on the ledger,
-- whichever of them are refused, changes its row but for its successor and its time of update: its
-- status, its evidence, its session, its error and its identity stay.
pub run_all-Holds :
    (i : String) (r : Row) (qs : List (Request × String)) (db : Db)
    → find i db.operations ≡ some r
    → r.status ≢ started
    → Holds i r (run_all qs db)
run_all-Holds i r qs db found settled = Holds-run_all i r settled qs db (r, found, refl)
