-- ===== src/Operations/Rows/Everywhere.antt =====
-- A property of every row of the ledger, kept by the transactions when it is kept by the rows that
-- they write.
use unit_test_agent.Prelude.{
  All, All-append, String, ◌≡◌, refl, subst, Bool, true, false, some, List, [], ◌∷◌, if◌then◌else◌,
  ◌==◌, string_eq, Bool-cases, Option-cases, inl, inr, Result, ok, err, bind_ok,
}
use unit_test_agent.Operations.Rows.{
  Row, Db, Refusal, Status, started, completed, failed, cancelled, Claim, Completion, Closing,
  Closed, closed_failed, closed_cancelled, find, modify, insert, new_row, require, write,
  start_workflow_operation, complete_row, completed_row, finish_row, closed_row, replace,
  close_crashed, crashed_row, superseded_row, successor_of, is_completed, unsessioned,
}
use unit_test_agent.Operations.Rows.Lookup.{KeepsId, require_found, write_found, insert-ok}
use unit_test_agent.Operations.Rows.Requests.{
  Request, start, complete, finish, retry, run, run_all, table_after,
}
use unit_test_agent.Operations.Rows.Keeping.{reads, follows}

abbrev pub Everywhere : (Row → Type 0) → Db → Type 0
Everywhere P db = All P db.operations

pub All-find :
    (P : Row → Type 0) (i : String) (rs : List Row) {r : Row} → All P rs → find i rs ≡ some r → P r
unfolding find
All-find P i [] all h = absurd (cc)
All-find P i (q ∷ rs) {r} all h = elim (Bool-cases (q.operation_id == i)) [
  | inl same ↦ let e : q ≡ r = cc (rw same at h) in subst P e all.0
  | inr other ↦ All-find P i rs all.1 (rw other at h)
]

All-modify :
    (P : Row → Type 0) (j : String) (f : Row → Row) (rs : List Row)
    → ((q : Row) → P q → P (f q))
    → All P rs
    → All P (modify j f rs)
unfolding modify
All-modify P j f [] step all = tt
All-modify P j f (q ∷ rs) step all = (either (q.operation_id == j), All-modify P j f rs step all.1)
  where
    either : (b : Bool) → P (if b then f q else q)
    either true = step q all.0
    either false = all.0

-- Each row that a transaction writes has the property.
pub record IsWritten (P : Row → Type 0) : Type 0 where
  pub fresh : (c : Claim) (now : String) → P (new_row c now)
  pub completes : (c : Completion) (now : String) (q : Row) → P q → P (completed_row c now q)
  pub closes : (c : Closing) (now : String) (q : Row) → P q → P (closed_row c now q)
  pub crashes : (kind now : String) (q : Row) → P q → P (crashed_row kind now q)
  pub supersedes : (s now : String) (q : Row) → P q → P (superseded_row s now q)

module _ (P : Row → Type 0) (w : IsWritten P) where
  Everywhere-insert :
      (c : Claim) (now : String) (db : Db) {n : Row} {db' : Db}
      → insert c now db ≡ ok (n, db')
      → Everywhere P db
      → Everywhere P db'
  Everywhere-insert c now db {n} {db'} h all =
      let (_, _, _, e) = insert-ok c now db h in
      rw e (All-append P db.operations (new_row c now ∷ []) all (w.fresh c now, tt))

  Everywhere-write :
      (j : String) (f : Row → Row) (q : Row) (db : Db) {n : Row} {db' : Db}
      → KeepsId f
      → ((r : Row) → P r → P (f r))
      → find j db.operations ≡ some q
      → write j f db ≡ ok (n, db')
      → Everywhere P db
      → Everywhere P db'
  Everywhere-write j f q db {n} {db'} k step found h all =
      let e : record db { operations = modify j f db.operations } ≡ db' =
        cc (write_found j f db q k found) in
      subst (Everywhere P) e (All-modify P j f db.operations step all)

  Everywhere-complete_row :
      (t : Status) (j : String) (c : Completion) (now : String) (q : Row) (db : Db) {n : Row}
      {db' : Db}
      → find j db.operations ≡ some q
      → complete_row t j c now q db ≡ ok (n, db')
      → Everywhere P db
      → Everywhere P db'
  unfolding complete_row
  Everywhere-complete_row started j c now q db found h all =
      Everywhere-write j (completed_row c now) q db (λ x. refl) (w.completes c now) found h all
  Everywhere-complete_row completed j c now q db found h all =
      subst (Everywhere P) (reads _ q db h) all
  Everywhere-complete_row failed j c now q db found h all = absurd (cc)
  Everywhere-complete_row cancelled j c now q db found h all = absurd (cc)

  Everywhere-finish_row :
      (t : Status) (u : Closed) (j : String) (c : Closing) (now : String) (q : Row) (db : Db)
      {n : Row} {db' : Db}
      → find j db.operations ≡ some q
      → finish_row t u j c now q db ≡ ok (n, db')
      → Everywhere P db
      → Everywhere P db'
  unfolding finish_row
  Everywhere-finish_row started closed_failed j c now q db found h all =
      Everywhere-write j (closed_row c now) q db (λ x. refl) (w.closes c now) found h all
  Everywhere-finish_row started closed_cancelled j c now q db found h all =
      Everywhere-write j (closed_row c now) q db (λ x. refl) (w.closes c now) found h all
  Everywhere-finish_row failed closed_failed j c now q db found h all =
      subst (Everywhere P) (reads _ q db h) all
  Everywhere-finish_row cancelled closed_cancelled j c now q db found h all =
      subst (Everywhere P) (reads _ q db h) all
  Everywhere-finish_row _ _ j c now q db found h all = absurd (cc)

  close : (t : Status) (kind now : String) (q : Row) → P q → P (close_crashed t kind now q)
  close started kind now q p = w.crashes kind now q p
  close _ kind now q p = p

  Everywhere-replace :
      (old : String) (c : Claim) (kind now : String) (q : Row) (db : Db) {n : Row} {db' : Db}
      → replace old c kind now q db ≡ ok (n, db')
      → Everywhere P db
      → Everywhere P db'
  unfolding replace
  Everywhere-replace old c kind now q db {n} {db'} h all =
      elim (Bool-cases (is_completed q.status)) [
        | inl done ↦ absurd (cc (rw done at h))
        | inr open_row ↦
            let closed : Db = record db {
              operations = modify old (close_crashed q.status kind now) db.operations;
            } in
            let ((m, inserted), e, h') =
              bind_ok (insert (unsessioned c) now closed) _ (rw open_row at h) in
            let linked : Db = record inserted {
              operations = modify old (superseded_row c.operation_id now) inserted.operations;
            } in
            let (s, _, last) = bind_ok (require c.operation_id linked) _ h' in
            let is_db : linked ≡ db' = cc in
            subst (Everywhere P) is_db (
              All-modify P old (superseded_row c.operation_id now) inserted.operations
                (w.supersedes c.operation_id now)
                (Everywhere-insert (unsessioned c) now closed e (
                  All-modify P old (close_crashed q.status kind now) db.operations
                    (close q.status kind now) all)))
      ]

  Everywhere-request :
      (q : Request) (now : String) (db : Db) {n : Row} {db' : Db}
      → run q now db ≡ ok (n, db')
      → Everywhere P db
      → Everywhere P db'
  unfolding run
  Everywhere-request (start c) now db h all =
      elim (Option-cases (find c.operation_id db.operations)) [
        | inl fresh ↦ Everywhere-insert c now db (rw (fresh, start_workflow_operation) at h) all
        | inr (q, there) ↦
            subst (Everywhere P) (reads _ q db (rw (there, start_workflow_operation) at h)) all
      ]
  Everywhere-request (complete j c) now db h all =
      let (q, req, h') = bind_ok (require j db) _ h in
      Everywhere-complete_row q.status j c now q db (require_found j db req) h' all
  Everywhere-request (finish j c) now db h all =
      let (q, req, h') = bind_ok (require j db) _ h in
      Everywhere-finish_row q.status c.status j c now q db (require_found j db req) h' all
  Everywhere-request (retry old c kind) now db h all =
      let (q, req, h') = bind_ok (require old db) _ h in
      elim (Option-cases (successor_of q)) [
        | inl fresh ↦ Everywhere-replace old c kind now q db (rw fresh at h') all
        | inr (s, linked) ↦
            subst (Everywhere P) (follows _ (require c.operation_id db) db (rw linked at h')) all
      ]

  Everywhere-table_after :
      (db : Db) (result : Result Refusal (Row × Db))
      → ((n : Row) (db' : Db) → result ≡ ok (n, db') → Everywhere P db')
      → Everywhere P db
      → Everywhere P (table_after db result)
  Everywhere-table_after db (ok (n, db')) step all = step n db' refl
  Everywhere-table_after db (err x) step all = all

  -- Every row has the property after any requests.
  pub Everywhere-run_all :
      (qs : List (Request × String)) (db : Db) → Everywhere P db → Everywhere P (run_all qs db)
  unfolding run_all
  Everywhere-run_all [] db all = all
  Everywhere-run_all ((q, now) ∷ qs) db all =
      Everywhere-run_all qs (table_after db (run q now db)) (
        Everywhere-table_after db (run q now db) (λ n db' h. Everywhere-request q now db h all) all)
