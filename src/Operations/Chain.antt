-- ===== src/Operations/Chain.antt =====
-- The artifact of an operation and the chain of its prerequisites:
-- uta/testgen/operations/reconciliation.py.
pub mod Ancestors
pub mod Fuel
use unit_test_agent.Prelude.{
  ℕ, String, suc, zero, Bool, true, false, ◌&&◌, Option, none, some, List, [], ◌∷◌, map, ◌==◌,
  nat_eq, string_eq, list_eq, elem, length, Json, array, items, if◌then◌else◌, Result, ok, err,
  ◌>>=◌, ◌+++◌,
}
use unit_test_agent.Operations.Table.{
  Step, turn, Row, Db, Status, started, completed, failed, cancelled,
}
use unit_test_agent.Operations.Rows.{get_workflow_operation, is_completed}
use unit_test_agent.Operations.Envelope.{
  OperationIdentity, OperationResultEnvelope, Failure, artifact_invalid, out_of_fuel, Ports,
  operation_id, identity_beq, present, raised,
}

abbrev pub identity_for_row : Row → OperationIdentity
identity_for_row r = record {
  workflow_run_id = r.workflow_run_id;
  unit_id = r.unit_id;
  phase = r.phase;
  operation_step = r.operation_step;
  logical_attempt = r.attempt;
  execution_ordinal = r.execution_ordinal;
  input_fingerprint = r.input_fingerprint;
}

abbrev pub listed : Ports → Option Json → Result Failure (List String)
listed ports (some (array js)) = ok (map ports.str (items js))
listed ports _ = err artifact_invalid

-- `_row_prerequisites`
unfoldable pub row_prerequisites : Ports → Row → Result Failure (List String)
row_prerequisites ports r = listed ports (ports.loads r.prerequisite_operation_ids_json)

-- An envelope with the path and the digest of its file.
abbrev pub Artifact : Type 0
Artifact = OperationResultEnvelope × String × String

-- The path of an identity's file, from the root of the store.
abbrev pub artifact_name : Ports → OperationIdentity → String
artifact_name ports i =
    i.workflow_run_id +++ ("/" +++ (i.unit_id +++ ("/" +++ (operation_id ports i +++ ".json"))))

abbrev pub kind_of_step : Step → String
kind_of_step turn = "turn"
kind_of_step _ = "phase"

-- The three tests of an envelope against its row.
unfoldable pub agreeing : Ports → Row → Artifact → Result Failure (Option Artifact)
unfolding row_prerequisites
agreeing ports r (envelope, path, sha) =
    if identity_beq envelope.identity (identity_for_row r)
    then (row_prerequisites ports r >>= λ ids.
        if envelope.prerequisite_operation_ids == ids
          && envelope.result_kind == kind_of_step r.operation_step
        then ok (some (envelope, path, sha))
        else err artifact_invalid)
    else err artifact_invalid

-- `_artifact_for_row`, with the recorded path and digest where both are there.
unfoldable pub stored_artifact :
    Ports → Row → Option String → Option String → Result Failure (Option Artifact)
unfolding agreeing
stored_artifact ports r (some path) (some sha) =
    raised (ports.read path sha) >>= λ envelope. agreeing ports r (envelope, path, sha)
stored_artifact ports r _ _ = raised (ports.read_for_identity (identity_for_row r)) >>= λ orphan.
    elim orphan [
      | none ↦ ok none
      | some (envelope, sha) ↦
          agreeing ports r (envelope, artifact_name ports (identity_for_row r), sha)
    ]

unfoldable pub artifact_for_row : Ports → Row → Result Failure (Option Artifact)
unfolding stored_artifact
artifact_for_row ports r =
    stored_artifact ports r (present r.result_artifact_path) (present r.result_artifact_sha256)

abbrev pub same_place : Row → Row → Bool
same_place q r =
    q.repo_task_id == r.repo_task_id
    && q.workflow_run_id == r.workflow_run_id
    && q.unit_id == r.unit_id

-- What a prerequisite that was looked up must be.
unfoldable pub check_prerequisite : Ports → Row → Option Row → Result Failure Row
unfolding artifact_for_row
check_prerequisite ports r none = err artifact_invalid
check_prerequisite ports r (some q) =
    if is_completed q.status && same_place q r
    then (artifact_for_row ports q >>= λ a. elim a [ some _ ↦ ok q | none ↦ err artifact_invalid ])
    else err artifact_invalid

-- A loop whose body may raise.
abbrev pub each : (String → Result Failure (Unit {0})) → List String → Result Failure (Unit {0})
each body [] = ok tt
each body (x ∷ xs) = body x >>= λ _. each body xs

-- `_validate_prerequisites`, with fuel for the depth of its calls.
unfoldable pub validate_prerequisites :
    Ports → Db → ℕ → Row → List String → Result Failure (Unit {0})
unfolding check_prerequisite row_prerequisites get_workflow_operation
validate_prerequisites ports db zero r seen = err out_of_fuel
validate_prerequisites ports db (suc fuel) r seen =
    if elem r.operation_id seen
    then err artifact_invalid
    else row_prerequisites ports r >>= λ ids.
        each
          (λ p.
            if elem p (r.operation_id ∷ seen)
            then err artifact_invalid
            else check_prerequisite ports r (get_workflow_operation p db) >>= λ q.
                validate_prerequisites ports db fuel q (r.operation_id ∷ seen))
          ids

-- One call more than there are rows.
abbrev pub enough_fuel : Db → ℕ
enough_fuel db = suc (suc (length db.operations))
