-- ===== src/Operations/Rows/Successor.antt =====
-- `retry_workflow_operation` of uta/tasks/storage/operation_repository.py: what it writes, and what
-- it does when it is run again.
use unit_test_agent.Prelude.{
  String, Option, ◌⊎◌, ◌≡◌, ◌≢◌, refl, sym, ap, ◌∙◌, subst, Bool, true, false, none, some, List,
  if◌then◌else◌, ◌==◌, string_eq, nat_eq, ==_iff, ==_refl, Bool-cases, Option-cases, inl, inr,
  Result, ok, err, ◌>>=◌, bind_ok,
}
use unit_test_agent.Operations.Table.{Status, started, completed, failed, cancelled}
use unit_test_agent.Operations.Rows.{
  Row, Db, Refusal, conflict, Claim, find, modify, insert, new_row, require,
  retry_workflow_operation, retry_row, replace, close_crashed, superseded_row, successor_of,
  is_completed, unsessioned,
}
use unit_test_agent.Operations.Rows.Lookup.{
  find-modify_self, find-modify_ne, find-append, require_found, require-some, insert-ok,
}
use unit_test_agent.Operations.Rows.Keeping.{close_crashed-KeepsId}

-- A retry that closed the old row: the old row is closed and names its successor, which is new and
-- started.
pub record Replaced (old : String) (c : Claim) (kind now : String) (q n : Row) (db db' : Db)
    : Type 0 where
  pub had_no_successor :
      (q.superseded_by_operation_id ≡ none) ⊎ (q.superseded_by_operation_id ≡ some "")
  pub was_open : q.status ≢ completed
  pub was_new : find c.operation_id db.operations ≡ none
  pub old_row :
      find old db'.operations
      ≡ some (superseded_row c.operation_id now (close_crashed q.status kind now q))
  pub closing :
      let closed : Row = superseded_row c.operation_id now (close_crashed q.status kind now q) in
      (closed.superseded_by_operation_id ≡ some c.operation_id)
      × (((q.status ≡ started) × (closed.status ≡ failed) × (closed.error_kind ≡ some kind))
          ⊎ ((q.status ≢ started) × (closed.status ≡ q.status)))
  pub successor : n ≡ new_row (unsessioned c) now
  pub beginning : (n.operation_id ≡ c.operation_id) × (n.status ≡ started) × (n.session_id ≡ none)
  pub new_found : find c.operation_id db'.operations ≡ some n

successor_of-superseded_row :
    (i now : String) (q : Row) → i ≢ "" → successor_of (superseded_row i now q) ≡ some i
successor_of-superseded_row i now q h = elim (Bool-cases (i == "")) [
  | inl blank ↦ absurd (h ((==_iff i "").0 blank))
  | inr named ↦ rw named
]

apart :
    (i j : String) (rs : List Row) {q : Row}
    → find i rs ≡ none
    → find j rs ≡ some q
    → (j == i) ≡ false
apart i j rs h k = elim (Bool-cases (j == i)) [
  | inl same ↦ let e = (==_iff j i).0 same in absurd (cc (rw e at k))
  | inr other ↦ other
]

pub replace-Replaced :
    (old : String) (c : Claim) (kind now : String) (q : Row) (db : Db) {n : Row} {db' : Db}
    → find old db.operations ≡ some q
    → successor_of q ≡ none
    → replace old c kind now q db ≡ ok (n, db')
    → Replaced old c kind now q n db db'
unfolding replace
replace-Replaced old c kind now q db {n} {db'} found fresh h =
    elim (Bool-cases (is_completed q.status)) [
      | inl done ↦ absurd (cc (rw done at h))
      | inr open_row ↦
          let close = close_crashed q.status kind now in
          let closed : Db = record db { operations = modify old close db.operations } in
          let ((m, inserted), e, h') =
            bind_ok (insert (unsessioned c) now closed) _ (rw open_row at h) in
          let linked : Db = record inserted {
            operations = modify old (superseded_row c.operation_id now) inserted.operations;
          } in
          let (s, req, last) = bind_ok (require c.operation_id linked) _ h' in
          let is_db : linked ≡ db' = cc in
          let is_row : s ≡ n = cc in
          let (is_new, _, _, is_inserted) = insert-ok (unsessioned c) now closed e in
          let k = close_crashed-KeepsId q.status kind now in
          let old_closed : find old closed.operations ≡ some (close q) =
            find-modify_self old close db.operations q k found in
          let old_inserted : find old inserted.operations ≡ some (close q) =
            rw
              (
                is_inserted,
                find-append old closed.operations (new_row (unsessioned c) now),
                old_closed,
              )
              refl in
          let other : (old == c.operation_id) ≡ false =
            apart c.operation_id old closed.operations is_new old_closed in
          let new_inserted : find c.operation_id inserted.operations
              ≡ some (new_row (unsessioned c) now) =
            rw
              (
                is_inserted,
                find-append c.operation_id closed.operations (new_row (unsessioned c) now),
                is_new,
                ==_refl c.operation_id,
              )
              refl in
          let new_linked : find c.operation_id linked.operations
              ≡ some (new_row (unsessioned c) now) =
            find-modify_ne old c.operation_id (superseded_row c.operation_id now)
              inserted.operations (λ x. refl) other
            ∙ new_inserted in
          let there = require_found c.operation_id linked req in
          record {
            had_no_successor = no_successor q.superseded_by_operation_id fresh;
            was_open = still_open q.status open_row;
            was_new = sym (find-modify_ne old c.operation_id close db.operations k other) ∙ is_new;
            old_row = rw (← is_db) (
                find-modify_self old (superseded_row c.operation_id now) inserted.operations
                  (close q) (λ x. refl) old_inserted);
            closing = (refl, crashes q.status q);
            successor = cc;
            beginning =
                let is_new_row : new_row (unsessioned c) now ≡ n = cc in
                (
                  ap (λ r. r.operation_id) (sym is_new_row),
                  ap (λ r. r.status) (sym is_new_row),
                  ap (λ r. r.session_id) (sym is_new_row),
                );
            new_found = rw (← is_db, ← is_row) there;
          }
    ]
  where
    still_open : (s : Status) → is_completed s ≡ false → s ≢ completed
    still_open started h = λ e. cc
    still_open completed h = cc
    still_open failed h = λ e. cc
    still_open cancelled h = λ e. cc

    no_successor :
        (o : Option String)
        → elim o as (λ _. Option String) [ none ↦ none | some s ↦ if s == "" then none else some s ]
          ≡ none
        → (o ≡ none) ⊎ (o ≡ some "")
    no_successor none h = inl refl
    no_successor (some s) h = elim (Bool-cases (s == "")) [
      | inl blank ↦ inr (ap some ((==_iff s "").0 blank))
      | inr named ↦ absurd (cc (rw named at h))
    ]

    crashes :
        (s : Status) (r : Row)
        → ((s ≡ started)
            × ((superseded_row c.operation_id now (close_crashed s kind now r)).status ≡ failed)
            × ((superseded_row c.operation_id now (close_crashed s kind now r)).error_kind
                ≡ some kind))
          ⊎ ((s ≢ started)
              × ((superseded_row c.operation_id now (close_crashed s kind now r)).status
                  ≡ r.status))
    crashes started r = inl (refl, refl, refl)
    crashes completed r = inr (λ h. cc, refl)
    crashes failed r = inr (λ h. cc, refl)
    crashes cancelled r = inr (λ h. cc, refl)

-- Reading the successor of an old row that has one.
retry_again :
    (old : String) (c : Claim) (kind later : String) (db : Db) (q n : Row)
    → find old db.operations ≡ some q
    → successor_of q ≡ some c.operation_id
    → find c.operation_id db.operations ≡ some n
    → retry_workflow_operation old c kind later db ≡ ok (n, db)
unfolding retry_workflow_operation
retry_again old c kind later db q n found linked there = rw (require-some old db found) (
    rw linked
      (unfold retry_row in rw (==_refl c.operation_id) (rw (require-some c.operation_id db there))))

linked_ok :
    (b : Bool) (m : Result Refusal Row) (db : Db) {n : Row} {db' : Db}
    → if◌then◌else◌ {A = Result Refusal (Row × Db)} b (m >>= λ s. ok (s, db)) (err conflict)
      ≡ ok (n, db')
    → (b ≡ true) × (m ≡ ok n) × (db ≡ db')
linked_ok true (ok s) db h = (refl, cc, cc)
linked_ok true (err x) db h = absurd (cc)
linked_ok false m db h = absurd (cc)

pub retry_replay :
    (old : String) (c : Claim) (kind now later : String) (db : Db) {n : Row} {db' : Db}
    → c.operation_id ≢ ""
    → retry_workflow_operation old c kind now db ≡ ok (n, db')
    → retry_workflow_operation old c kind later db' ≡ ok (n, db')
unfolding retry_workflow_operation
retry_replay old c kind now later db {n} {db'} named h =
    let (q, req, h') = bind_ok (require old db) _ h in
    let found = require_found old db req in
    elim (Option-cases (successor_of q)) [
      | inl fresh ↦
          let r =
            replace-Replaced old c kind now q db found fresh (unfold retry_row in rw fresh at h') in
          retry_again old c kind later db' _ n r.old_row
            (successor_of-superseded_row c.operation_id now (close_crashed q.status kind now q)
              named)
            r.new_found
      | inr (s, linked) ↦
          let (same, there, is_db) =
            linked_ok _ (require c.operation_id db) db (unfold retry_row in rw linked at h') in
          let e = (==_iff s c.operation_id).0 same in
          subst (λ d. retry_workflow_operation old c kind later d ≡ ok (n, d)) is_db
            (retry_again old c kind later db q n found (linked ∙ ap some e)
              (require_found c.operation_id db there))
    ]

named_successor :
    (o : Option String) {i : String}
    → elim o as (λ _. Option String) [ none ↦ none | some s ↦ if s == "" then none else some s ]
      ≡ some i
    → o ≡ some i
named_successor none h = cc
named_successor (some s) h = elim (Bool-cases (s == "")) [
  | inl blank ↦ absurd (cc (rw blank at h))
  | inr named ↦ rw named at h
]

-- A retry that found a successor recorded before, and returned it.
pub record Followed (c : Claim) (q n : Row) (db db' : Db) : Type 0 where
  pub names : q.superseded_by_operation_id ≡ some c.operation_id
  pub there : find c.operation_id db.operations ≡ some n
  pub unchanged : db ≡ db'

-- A retry that succeeds reads an old row. Either the old row had no successor: then it was not
-- completed, it is failed with the kind of the error if it was started, it names the new id, and the
-- new id, which was free, has a started row without a session. Or the old row named the same new id
-- before: then the row of that id is returned, and the table is unchanged.
pub retry_workflow_operation_cases :
    (old : String) (c : Claim) (kind now : String) (db : Db) {n : Row} {db' : Db}
    → retry_workflow_operation old c kind now db ≡ ok (n, db')
    → (q : Row) × (find old db.operations ≡ some q)
      × (Replaced old c kind now q n db db' ⊎ Followed c q n db db')
unfolding retry_workflow_operation
retry_workflow_operation_cases old c kind now db {n} {db'} h =
    let (q, req, h') = bind_ok (require old db) _ h in
    let found = require_found old db req in
    elim (Option-cases (successor_of q)) [
      | inl fresh ↦ (
        q,
        found,
        inl (replace-Replaced old c kind now q db found fresh (unfold retry_row in rw fresh at h')),
      )
      | inr (s, linked) ↦
          let (same, there, is_db) =
            linked_ok _ (require c.operation_id db) db (unfold retry_row in rw linked at h') in
          let e = (==_iff s c.operation_id).0 same in
          (
            q,
            found,
            inr (record {
              names = named_successor q.superseded_by_operation_id linked ∙ ap some e;
              there = require_found c.operation_id db there;
              unchanged = is_db;
            }),
          )
    ]
