-- ===== src/Operations/Rows/Replay.antt =====
-- A transaction of the ledger that is run again with the same arguments.
use unit_test_agent.Prelude.{
  ℕ, String, ◌≡◌, ◌≢◌, refl, ap, Bool, true, false, Option, none, some, List, [], if◌then◌else◌,
  string_eq, nat_eq, option_eq, ==_refl, option_beq_refl, Option-cases, inl, inr, Result, ok, err,
  bind_ok, &&_iff,
}
use unit_test_agent.Operations.Rows.{
  Row, Db, Refusal, conflict, Status, started, completed, failed, cancelled, Step, turn, step_beq,
  Claim, Completion, Closing, Closed, closed_failed, closed_cancelled, find, modify, new_row,
  require, write, same_claim, same_completion, same_session, same_closing, given, given_session,
  coalesce, coalesce_or, start_workflow_operation, complete_workflow_operation, complete_row,
  completed_row, finish_workflow_operation, finish_row, closed_row, closed_status,
}
use unit_test_agent.Operations.Rows.Lookup.{
  find-modify_self, find-append, require_found, require-some, write_found, insert-ok,
}
use unit_test_agent.Operations.Rows.Requests.{Request, start, complete, finish, retry, run, run_all}
use unit_test_agent.Operations.Rows.Everywhere.{Everywhere, All-find, IsWritten, Everywhere-run_all}
use unit_test_agent.Operations.Rows.Successor.{retry_replay}

step_beq_refl : (s : Step) → step_beq s s ≡ true
step_beq_refl turn = refl
step_beq_refl _ = refl

pub same_claim-new_row : (c : Claim) (now : String) → same_claim (new_row c now) c ≡ true
unfolding same_claim
same_claim-new_row c now = simp (==_refl, step_beq_refl)

pub same_completion-completed_row :
    (c : Completion) (now : String) (q : Row) → same_completion (completed_row c now q) c ≡ true
unfolding same_completion
same_completion-completed_row c now q = simp ==_refl

same_session-coalesce :
    (s t : Option String) (q : Row) → q.session_id ≡ coalesce s t → same_session q s ≡ true
same_session-coalesce none t q h = refl
same_session-coalesce (some s) t q h = rw h (==_refl (some s))

given-coalesce_or : (o : Option String) (t : String) → given o (coalesce_or o t) ≡ o
given-coalesce_or none t = refl
given-coalesce_or (some o) t = refl

given_session-coalesce : (s t : Option String) → given_session s (coalesce s t) ≡ s
given_session-coalesce none t = refl
given_session-coalesce (some s) t = refl

coalesce-none : (s : Option String) {t : Option String} → t ≡ none → coalesce s t ≡ s
coalesce-none none h = h
coalesce-none (some s) h = refl

-- The row has nothing of a result.
record IsBare (q : Row) : Type 0 where
  no_fingerprint : q.resulting_workspace_fingerprint ≡ none
  no_path : q.result_artifact_path ≡ none
  no_sha : q.result_artifact_sha256 ≡ none

same_closing-closed_row :
    (c : Closing) (now : String) (q : Row) → IsBare q → same_closing (closed_row c now q) c ≡ true
unfolding same_closing
same_closing-closed_row c now q bare =
    rw
      (
        coalesce-none c.resulting_workspace_fingerprint bare.no_fingerprint,
        coalesce-none c.result_artifact_path bare.no_path,
        coalesce-none c.result_artifact_sha256 bare.no_sha,
        given-coalesce_or c.output_fingerprints_json q.output_fingerprints_json,
        given_session-coalesce c.session_id q.session_id,
      )
      (simp (==_refl, option_beq_refl))

-- A transaction that only reads, and returned.
pub reads_ok :
    (b : Bool) (q : Row) (db : Db) {r : Row} {db' : Db}
    → if◌then◌else◌ {A = Result Refusal (Row × Db)} b (ok (q, db)) (err conflict) ≡ ok (r, db')
    → (b ≡ true) × (q ≡ r) × (db ≡ db')
reads_ok true q db h = (refl, cc, cc)
reads_ok false q db h = absurd (cc)

start_replay :
    (c : Claim) (now later : String) (db : Db) {r : Row} {db' : Db}
    → start_workflow_operation c now db ≡ ok (r, db')
    → start_workflow_operation c later db' ≡ ok (r, db')
unfolding start_workflow_operation
start_replay c now later db {r} {db'} h = elim (Option-cases (find c.operation_id db.operations)) [
  | inl fresh ↦
      let (_, _, is_new, e) = insert-ok c now db (rw (fresh, start_workflow_operation) at h) in
      let found : find c.operation_id db'.operations ≡ some (new_row c now) = rw (
        e,
        find-append c.operation_id db.operations (new_row c now),
        fresh,
        ==_refl c.operation_id,
      ) in
      rw (found, start_workflow_operation, same_claim-new_row c now, is_new)
  | inr (q, there) ↦
      let (same, is_row, is_db) = reads_ok _ q db (rw (there, start_workflow_operation) at h) in
      rw (← is_row, ← is_db) (rw (there, start_workflow_operation) (rw same))
]

-- The row that a repeated completion reads.
complete_again :
    (i : String) (c : Completion) (later : String) (db : Db) (q : Row)
    → find i db.operations ≡ some q
    → q.status ≡ completed
    → same_completion q c ≡ true
    → same_session q c.session_id ≡ true
    → complete_workflow_operation i c later db ≡ ok (q, db)
unfolding complete_workflow_operation complete_row
complete_again i c later db q found done same session =
    rw (require-some i db found) (rw (done, same, session))

complete_row_replay :
    (t : Status) (i : String) (c : Completion) (now later : String) (q : Row) (db : Db) {r : Row}
    {db' : Db}
    → find i db.operations ≡ some q
    → q.status ≡ t
    → complete_row t i c now q db ≡ ok (r, db')
    → complete_workflow_operation i c later db' ≡ ok (r, db')
unfolding complete_row
complete_row_replay started i c now later q db {r} {db'} found e h =
    let w = write_found i (completed_row c now) db q (λ x. refl) found in
    let is_row : completed_row c now q ≡ r = cc in
    let is_db : record db { operations = modify i (completed_row c now) db.operations } ≡ db' =
      cc in
    rw (← is_row, ← is_db)
      (complete_again i c later _ (completed_row c now q)
        (find-modify_self i (completed_row c now) db.operations q (λ x. refl) found) refl
        (same_completion-completed_row c now q)
        (same_session-coalesce c.session_id q.session_id (completed_row c now q) refl))
complete_row_replay completed i c now later q db {r} {db'} found e h =
    let (b, is_row, is_db) = reads_ok _ q db h in
    let (same, session) = (&&_iff (same_completion q c) (same_session q c.session_id)).0 b in
    rw (← is_row, ← is_db) (complete_again i c later db q found e same session)
complete_row_replay failed i c now later q db found e h = cc
complete_row_replay cancelled i c now later q db found e h = cc

finish_again :
    (u : Closed) (i : String) (c : Closing) (later : String) (db : Db) (q : Row)
    → find i db.operations ≡ some q
    → c.status ≡ u
    → q.status ≡ closed_status u
    → same_closing q c ≡ true
    → finish_workflow_operation i c later db ≡ ok (q, db)
unfolding finish_workflow_operation finish_row
finish_again closed_failed i c later db q found e done same =
    rw (require-some i db found) (rw (done, e, same))
finish_again closed_cancelled i c later db q found e done same =
    rw (require-some i db found) (rw (done, e, same))

finish_write_replay :
    (u : Closed) (i : String) (c : Closing) (now later : String) (q : Row) (db : Db) {r : Row}
    {db' : Db}
    → find i db.operations ≡ some q
    → c.status ≡ u
    → IsBare q
    → write i (closed_row c now) db ≡ ok (r, db')
    → finish_workflow_operation i c later db' ≡ ok (r, db')
finish_write_replay u i c now later q db {r} {db'} found e bare h =
    let w = write_found i (closed_row c now) db q (λ x. refl) found in
    let is_row : closed_row c now q ≡ r = cc in
    let is_db : record db { operations = modify i (closed_row c now) db.operations } ≡ db' = cc in
    rw (← is_row, ← is_db)
      (finish_again u i c later _ (closed_row c now q)
        (find-modify_self i (closed_row c now) db.operations q (λ x. refl) found) e
        (ap closed_status e) (same_closing-closed_row c now q bare))

finish_row_replay :
    (t : Status) (u : Closed) (i : String) (c : Closing) (now later : String) (q : Row) (db : Db)
    {r : Row} {db' : Db}
    → find i db.operations ≡ some q
    → q.status ≡ t
    → c.status ≡ u
    → (q.status ≡ started → IsBare q)
    → finish_row t u i c now q db ≡ ok (r, db')
    → finish_workflow_operation i c later db' ≡ ok (r, db')
unfolding finish_row
finish_row_replay started closed_failed i c now later q db found e f bare h =
    finish_write_replay closed_failed i c now later q db found f (bare e) h
finish_row_replay started closed_cancelled i c now later q db found e f bare h =
    finish_write_replay closed_cancelled i c now later q db found f (bare e) h
finish_row_replay failed closed_failed i c now later q db found e f bare h =
    let (same, is_row, is_db) = reads_ok _ q db h in
    rw (← is_row, ← is_db) (finish_again closed_failed i c later db q found f e same)
finish_row_replay cancelled closed_cancelled i c now later q db found e f bare h =
    let (same, is_row, is_db) = reads_ok _ q db h in
    rw (← is_row, ← is_db) (finish_again closed_cancelled i c later db q found f e same)
finish_row_replay _ _ i c now later q db found e f bare h = absurd (cc)

-- A started row has nothing of a result.
BareStart : Row → Type 0
BareStart q = q.status ≡ started → IsBare q

BareStart-IsWritten : IsWritten BareStart
unfolding BareStart
BareStart-IsWritten = record {
  fresh = λ c now _. record { no_fingerprint = refl; no_path = refl; no_sha = refl };
  completes = λ c now q _ e. absurd (cc);
  closes = λ c now q _ e. absurd (closed-not_started c.status e);
  crashes = λ kind now q _ e. absurd (cc);
  supersedes = λ s now q bare e.
      let b = bare e in
      record { no_fingerprint = b.no_fingerprint; no_path = b.no_path; no_sha = b.no_sha };
}
  where
    closed-not_started : (u : Closed) → closed_status u ≢ started
    closed-not_started closed_failed e = cc
    closed-not_started closed_cancelled e = cc

-- A retry names an id that is not the empty text.
abbrev pub Named : Request → Type 0
Named (retry old c kind) = c.operation_id ≢ ""
Named _ = Unit

replay_bare :
    (q : Request) (now later : String) (db : Db) {r : Row} {db' : Db}
    → Everywhere BareStart db
    → Named q
    → run q now db ≡ ok (r, db')
    → run q later db' ≡ ok (r, db')
unfolding run BareStart
replay_bare (start c) now later db bare named h = start_replay c now later db h
replay_bare (complete j c) now later db bare named h =
    let (q, req, h') = bind_ok (require j db) _ (unfold complete_workflow_operation in h) in
    complete_row_replay q.status j c now later q db (require_found j db req) refl h'
replay_bare (finish j c) now later db bare named h =
    let (q, req, h') = bind_ok (require j db) _ (unfold finish_workflow_operation in h) in
    finish_row_replay q.status c.status j c now later q db (require_found j db req) refl refl
      (All-find BareStart j db.operations bare (require_found j db req)) h'
replay_bare (retry old c kind) now later db bare named h =
    retry_replay old c kind now later db named h

-- In a table that transactions have built from an empty one, a transaction that succeeds succeeds
-- again at any later time with the same arguments: it returns the same row and leaves the table
-- unchanged. A retry must name a successor whose id is not empty.
pub run_replay :
    (tasks : List ℕ) (qs : List (Request × String)) (q : Request) (now later : String) {r : Row}
    {db' : Db}
    → Named q
    → run q now (run_all qs (record { task_ids = tasks; operations = [] })) ≡ ok (r, db')
    → run q later db' ≡ ok (r, db')
run_replay tasks qs q now later named h =
    replay_bare q now later _
      (Everywhere-run_all BareStart BareStart-IsWritten qs
        (record { task_ids = tasks; operations = [] }) tt)
      named h
