-- ===== src/Operations/Rows.antt =====
-- The table `workflow_operations` and its transactions:
-- uta/tasks/storage/operation_repository.py. A transaction that raises is rolled back, so it returns
-- an error and no table.
mod Lookup
pub mod Requests
pub mod Keeping
pub mod Terminal
mod Everywhere
pub mod Successor
pub mod Replay
pub mod Written
use unit_test_agent.Prelude.{
  ℕ, String, Bool, true, false, ◌&&◌, ◌||◌, not, Option, none, some, List, [], ◌∷◌, ◌++◌, map, ltb,
  if◌then◌else◌, ◌==◌, Eq, nat_eq, string_eq, option_eq, elem, Result, ok, err, ◌>>=◌,
}
pub use unit_test_agent.Operations.Table.{
  Step, turn, interpret, deterministic, Status, started, completed, failed, cancelled, Closed,
  closed_failed, closed_cancelled, Refusal, conflict, not_found, integrity_error, Row, Db, Claim,
  Completion, Closing, step_beq, coalesce, coalesce_or, Slot,
}

unfoldable pub find : String → List Row → Option Row
find i [] = none
find i (r ∷ rs) = if r.operation_id == i then some r else find i rs

-- UPDATE … WHERE operation_id=?
unfoldable pub modify : String → (Row → Row) → List Row → List Row
modify i f [] = []
modify i f (r ∷ rs) = (if r.operation_id == i then f r else r) ∷ modify i f rs

unfoldable pub get_workflow_operation : String → Db → Option Row
unfolding find
get_workflow_operation i db = find i db.operations

abbrev pub new_row : Claim → String → Row
new_row c now = record {
  operation_id = c.operation_id;
  repo_task_id = c.repo_task_id;
  workflow_run_id = c.workflow_run_id;
  unit_id = c.unit_id;
  phase = c.phase;
  operation_step = c.operation_step;
  attempt = c.attempt;
  execution_ordinal = c.execution_ordinal;
  status = started;
  input_fingerprint = c.input_fingerprint;
  resulting_workspace_fingerprint = none;
  result_artifact_path = none;
  result_artifact_sha256 = none;
  output_fingerprints_json = "{}";
  prerequisite_operation_ids_json = c.prerequisite_operation_ids_json;
  schema_version = c.schema_version;
  session_id = c.session_id;
  superseded_by_operation_id = none;
  started_at = now;
  completed_at = none;
  updated_at = now;
  error_kind = none;
  error = none;
}

-- `stored == immutable`
pub same_claim : Row → Claim → Bool
same_claim r c =
    r.repo_task_id == c.repo_task_id
    && r.workflow_run_id == c.workflow_run_id
    && r.unit_id == c.unit_id
    && r.phase == c.phase
    && step_beq r.operation_step c.operation_step
    && r.attempt == c.attempt
    && r.execution_ordinal == c.execution_ordinal
    && r.input_fingerprint == c.input_fingerprint
    && r.prerequisite_operation_ids_json == c.prerequisite_operation_ids_json
    && r.schema_version == c.schema_version
    && r.session_id == c.session_id

-- INSERT INTO workflow_operations: the id is new and the task exists.
pub insert : Claim → String → Db → Result Refusal (Row × Db)
unfolding find
insert c now db = elim (find c.operation_id db.operations) [
  | some _ ↦ err integrity_error
  | none ↦
      if elem c.repo_task_id db.task_ids
      then ok (new_row c now, record db { operations = db.operations ++ new_row c now ∷ [] })
      else err integrity_error
]

unfoldable pub start_workflow_operation : Claim → String → Db → Result Refusal (Row × Db)
unfolding find same_claim insert
start_workflow_operation c now db = elim (find c.operation_id db.operations) [
  | some r ↦ if same_claim r c then ok (r, db) else err conflict
  | none ↦ insert c now db
]

-- `_require_workflow_operation`
pub require : String → Db → Result Refusal Row
unfolding find
require i db = elim (find i db.operations) [ some r ↦ ok r | none ↦ err not_found ]

-- An UPDATE of one row, and the row read back.
pub write : String → (Row → Row) → Db → Result Refusal (Row × Db)
unfolding require modify
write i f db =
    let db' : Db = record db { operations = modify i f db.operations } in
    require i db' >>= λ r. ok (r, db')

-- `stored == completed_values`
unfoldable pub same_completion : Row → Completion → Bool
same_completion r c =
    r.resulting_workspace_fingerprint == some c.resulting_workspace_fingerprint
    && r.result_artifact_path == some c.result_artifact_path
    && r.result_artifact_sha256 == some c.result_artifact_sha256
    && r.output_fingerprints_json == c.output_fingerprints_json

-- A session id that is given must be the stored one.
abbrev same_session : Row → Option String → Bool
same_session r none = true
same_session r (some s) = r.session_id == some s

abbrev pub completed_row : Completion → String → Row → Row
completed_row c now r = record r {
  status = completed;
  resulting_workspace_fingerprint = some c.resulting_workspace_fingerprint;
  result_artifact_path = some c.result_artifact_path;
  result_artifact_sha256 = some c.result_artifact_sha256;
  output_fingerprints_json = c.output_fingerprints_json;
  session_id = coalesce c.session_id r.session_id;
  completed_at = some now;
  updated_at = now;
}

complete_row : Status → String → Completion → String → Row → Db → Result Refusal (Row × Db)
unfolding same_completion write
complete_row completed i c now r db =
    if same_completion r c && same_session r c.session_id then ok (r, db) else err conflict
complete_row started i c now r db = write i (completed_row c now) db
complete_row _ i c now r db = err conflict

unfoldable pub complete_workflow_operation :
    String → Completion → String → Db → Result Refusal (Row × Db)
unfolding require complete_row
complete_workflow_operation i c now db = require i db >>= λ r. complete_row r.status i c now r db

abbrev pub closed_status : Closed → Status
closed_status closed_failed = failed
closed_status closed_cancelled = cancelled

abbrev given : Option String → String → Option String
given none stored = none
given (some _) stored = some stored

abbrev given_session : Option String → Option String → Option String
given_session none stored = none
given_session (some _) stored = stored

-- `stored == expected`: the outputs and the session are compared where they are given.
same_closing : Row → Closing → Bool
same_closing r c =
    r.error_kind == some c.error_kind
    && r.error == some c.error
    && r.resulting_workspace_fingerprint == c.resulting_workspace_fingerprint
    && r.result_artifact_path == c.result_artifact_path
    && r.result_artifact_sha256 == c.result_artifact_sha256
    && given c.output_fingerprints_json r.output_fingerprints_json == c.output_fingerprints_json
    && given_session c.session_id r.session_id == c.session_id

abbrev pub closed_row : Closing → String → Row → Row
closed_row c now r = record r {
  status = closed_status c.status;
  error_kind = some c.error_kind;
  error = some c.error;
  resulting_workspace_fingerprint =
      coalesce c.resulting_workspace_fingerprint r.resulting_workspace_fingerprint;
  result_artifact_path = coalesce c.result_artifact_path r.result_artifact_path;
  result_artifact_sha256 = coalesce c.result_artifact_sha256 r.result_artifact_sha256;
  output_fingerprints_json = coalesce_or c.output_fingerprints_json r.output_fingerprints_json;
  session_id = coalesce c.session_id r.session_id;
  completed_at = some now;
  updated_at = now;
}

finish_row : Status → Closed → String → Closing → String → Row → Db → Result Refusal (Row × Db)
unfolding same_closing write
finish_row started _ i c now r db = write i (closed_row c now) db
finish_row failed closed_failed i c now r db = if same_closing r c then ok (r, db) else err conflict
finish_row cancelled closed_cancelled i c now r db =
    if same_closing r c then ok (r, db) else err conflict
finish_row _ _ i c now r db = err conflict

unfoldable pub finish_workflow_operation :
    String → Closing → String → Db → Result Refusal (Row × Db)
unfolding require finish_row
finish_workflow_operation i c now db =
    require i db >>= λ r. finish_row r.status c.status i c now r db

abbrev pub failing : String → String → Closing
failing kind message = record {
  status = closed_failed;
  error_kind = kind;
  error = message;
  resulting_workspace_fingerprint = none;
  result_artifact_path = none;
  result_artifact_sha256 = none;
  output_fingerprints_json = none;
  session_id = none;
}

unfoldable pub fail_workflow_operation :
    String → String → String → String → Db → Result Refusal (Row × Db)
fail_workflow_operation i kind message now db =
    finish_workflow_operation i (failing kind message) now db

unfoldable pub cancel_workflow_operation :
    String → Closing → String → Db → Result Refusal (Row × Db)
cancel_workflow_operation i c now db =
    finish_workflow_operation i (record c { status = closed_cancelled }) now db

abbrev pub crashed_row : String → String → Row → Row
crashed_row kind now r = record r {
  status = failed;
  error_kind = some kind;
  error = some kind;
  completed_at = some now;
  updated_at = now;
}

abbrev pub superseded_row : String → String → Row → Row
superseded_row successor now r = record r {
  superseded_by_operation_id = some successor;
  updated_at = now;
}

-- The first UPDATE closes a row that is still `STARTED`.
abbrev pub close_crashed : Status → String → String → Row → Row
close_crashed started kind now r = crashed_row kind now r
close_crashed _ kind now r = r

abbrev pub is_completed : Status → Bool
is_completed completed = true
is_completed _ = false

-- A successor that was recorded before: `if old["superseded_by_operation_id"]`, where the empty text
-- counts as none.
abbrev pub successor_of : Row → Option String
successor_of r = elim r.superseded_by_operation_id [
  | none ↦ none
  | some s ↦ if s == "" then none else some s
]

-- The inserted row never has a session.
abbrev pub unsessioned : Claim → Claim
unsessioned c = record c { session_id = none }

pub replace : String → Claim → String → String → Row → Db → Result Refusal (Row × Db)
unfolding modify insert require
replace old c kind now r db =
    if is_completed r.status
    then err conflict
    else let closed : Db = record db {
      operations = modify old (close_crashed r.status kind now) db.operations;
    } in
      insert (unsessioned c) now closed >>= λ (_, inserted).
      let linked : Db = record inserted {
        operations = modify old (superseded_row c.operation_id now) inserted.operations;
      } in
      require c.operation_id linked >>= λ s. ok (s, linked)

retry_row : Option String → String → Claim → String → String → Row → Db → Result Refusal (Row × Db)
unfolding require replace
retry_row (some s) old c kind now r db =
    if s == c.operation_id then (require c.operation_id db >>= λ n. ok (n, db)) else err conflict
retry_row none old c kind now r db = replace old c kind now r db

unfoldable pub retry_workflow_operation :
    String → Claim → String → String → Db → Result Refusal (Row × Db)
unfolding require retry_row
retry_workflow_operation old c kind now db =
    require old db >>= λ r. retry_row (successor_of r) old c kind now r db

unfoldable pub in_slot : Slot → Row → Bool
in_slot s r =
    r.repo_task_id == s.repo_task_id
    && r.workflow_run_id == s.workflow_run_id
    && r.unit_id == s.unit_id
    && r.phase == s.phase
    && step_beq r.operation_step s.operation_step
    && r.attempt == s.attempt

abbrev later : Row → Option Row → Option Row
later r none = some r
later r (some s) = if ltb r.execution_ordinal s.execution_ordinal then some s else some r

latest_in : Slot → List Row → Option Row
unfolding in_slot
latest_in s [] = none
latest_in s (r ∷ rs) = let rest = latest_in s rs in if in_slot s r then later r rest else rest

unfoldable pub latest_workflow_operation : Slot → Db → Option Row
unfolding latest_in
latest_workflow_operation s db = latest_in s db.operations
