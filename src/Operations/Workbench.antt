-- ===== src/Operations/Workbench.antt =====
-- Runs of the ledger against a small workspace: a finished unit of two operations.
use unit_test_agent.Prelude.{
  String, ◌≡◌, ◌≢◌, refl, false, none, some, List, [], ◌∷◌, ◌==◌, string_eq, Json, text, array, nil,
  cons, end, if◌then◌else◌, Result, ok, err,
}
use unit_test_agent.Operations.Table.{Row, Db, deterministic, Claim, Completion}
use unit_test_agent.Operations.Rows.{new_row, completed_row, get_workflow_operation}
use unit_test_agent.Operations.Envelope.{
  OperationResultEnvelope, State, out_of_fuel, Ports, Unreadable, unreadable,
}
use unit_test_agent.Operations.Chain.{
  identity_for_row, row_prerequisites, validate_prerequisites, enough_fuel,
}
use unit_test_agent.Operations.Chain.Ancestors.{
  Ancestor, Sound, parent, validate_prerequisites-Sound,
}
use unit_test_agent.Operations.Chain.Fuel.{validate_prerequisites-enough_fuel}
use unit_test_agent.Operations.Classify.{Decision, reuse_result, classify}
use unit_test_agent.Operations.Classify.Outcomes.{Justified}
use unit_test_agent.Operations.Classify.Justified.{classify-Justified}
use unit_test_agent.Operations.Results.{validate_terminal, record_result}
use unit_test_agent.Operations.Results.Recorded.{
  Committable, validate_terminal-Committable, Recorded, record_result-Recorded,
}

abbrev claim_of : String → String → String → Claim
claim_of i phase needs = record {
  operation_id = i;
  repo_task_id = 7;
  workflow_run_id = "run";
  unit_id = "unit";
  phase = phase;
  operation_step = deterministic;
  attempt = 0;
  execution_ordinal = 0;
  input_fingerprint = "f1";
  prerequisite_operation_ids_json = needs;
  schema_version = 1;
  session_id = none;
}

abbrev evidence_at : String → Completion
evidence_at path = record {
  resulting_workspace_fingerprint = "f1";
  result_artifact_path = path;
  result_artifact_sha256 = "00";
  output_fingerprints_json = "{}";
  session_id = none;
}

abbrev begun_row : Row
begun_row = new_row (claim_of "t" "complete_generation" "a") "t2"

abbrev checked_row : Row
checked_row = completed_row (evidence_at "pa") "t1" (new_row (claim_of "a" "precheck" "") "t0")

abbrev finished_row : Row
finished_row = completed_row (evidence_at "pt") "t3" begun_row

abbrev envelope_of : Row → List String → OperationResultEnvelope
envelope_of r ids = record {
  identity = identity_for_row r;
  result_kind = "phase";
  result = end;
  resulting_workspace_fingerprint = "f1";
  output_fingerprints = [];
  prerequisite_operation_ids = ids;
}

-- The text of a list is the id of its one element.
abbrev one_id : String → Json
one_id i = if i == "" then array nil else array (cons (text i) nil)

abbrev read_file : String → Result Unreadable OperationResultEnvelope
read_file path =
    if path == "pa"
    then ok (envelope_of checked_row [])
    else if path == "pt"
    then ok (envelope_of finished_row ("a" ∷ []))
    else err unreadable

abbrev text_of : Json → String
text_of (text s) = s
text_of _ = ""

abbrev first_of : List String → String
first_of [] = ""
first_of (i ∷ ids) = i

abbrev bench : Ports
bench = record {
  hexdigest = λ s. s;
  loads = λ s. some (one_id s);
  str = text_of;
  dumps_ids = first_of;
  dumps_outputs = λ d. "{}";
  fingerprint = λ state phase step. "f1";
  output_fingerprints = λ state phase step. [];
  allowed_edit = λ state r. false;
  read = λ path sha. read_file path;
  read_for_identity = λ i. ok none;
  store = λ e. ok ("pt", "00");
}

abbrev unit_state : State
unit_state = record {
  task_id = some 7;
  workflow_run_id = some "run";
  unit_id = some "unit";
  attempts_by_phase = [];
  attempts = [];
  prerequisite_operation_ids = [];
  operation_id = some "t";
}

abbrev finished_table : Db
finished_table = record { task_ids = 7 ∷ []; operations = checked_row ∷ finished_row ∷ [] }

abbrev begun_table : Db
begun_table = record { task_ids = 7 ∷ []; operations = checked_row ∷ begun_row ∷ [] }

abbrev reuse_decision : Decision
reuse_decision = record {
  outcome = reuse_result;
  identity = identity_for_row finished_row;
  output_fingerprints_before = [];
}

reused :
    classify bench 1 "complete_generation" deterministic unit_state "t8" "t9" finished_table
    ≡ ok (reuse_decision, finished_table)
unfolding classify
reused = refl

validated :
    validate_terminal bench unit_state finished_table ≡ ok (envelope_of finished_row ("a" ∷ []))
unfolding validate_terminal
validated = refl

recorded :
    record_result bench "complete_generation" deterministic unit_state end "t3" begun_table
    ≡ ok (finished_row, finished_table)
unfolding record_result
recorded = refl

classify-Justified_example :
    Justified bench 1 "complete_generation" deterministic unit_state finished_table reuse_result
      reuse_decision finished_table
classify-Justified_example =
    classify-Justified bench 1 "complete_generation" deterministic unit_state "t8" "t9"
      finished_table reused

validate_terminal-Committable_example :
    Committable bench unit_state finished_table (envelope_of finished_row ("a" ∷ []))
validate_terminal-Committable_example =
    validate_terminal-Committable bench unit_state finished_table validated

record_result-Recorded_example :
    Recorded bench "complete_generation" deterministic unit_state end begun_table finished_row
      finished_table
record_result-Recorded_example =
    record_result-Recorded bench "complete_generation" deterministic unit_state end "t3" begun_table
      recorded

finished-Ancestor : Ancestor bench finished_table finished_row checked_row
finished-Ancestor = parent finished_row checked_row (record {
  ids = "a" ∷ [];
  id = "a";
  listed = unfold row_prerequisites in refl;
  among = refl;
  found = unfold get_workflow_operation in refl;
})

validate_prerequisites-Sound_example : Sound bench finished_table [] finished_row checked_row
validate_prerequisites-Sound_example =
    validate_prerequisites-Sound bench finished_table 4 finished_row checked_row
      (unfold validate_prerequisites in refl) finished-Ancestor

-- Two operations that rest on each other.
abbrev circular_table : Db
circular_table = record {
  task_ids = 7 ∷ [];
  operations = record checked_row { prerequisite_operation_ids_json = "t" } ∷ finished_row ∷ [];
}

validate_prerequisites-enough_fuel_example :
    validate_prerequisites bench circular_table (enough_fuel circular_table) finished_row []
    ≢ err out_of_fuel
validate_prerequisites-enough_fuel_example =
    validate_prerequisites-enough_fuel bench circular_table finished_row
