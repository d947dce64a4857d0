-- ===== src/Operations/Classify.antt =====
-- What the ledger decides after a crash: `classify` of uta/testgen/operations/reconciliation.py. A
-- call that writes twice has two times.
pub mod Outcomes
pub mod Justified
use unit_test_agent.Prelude.{
  ℕ, String, suc, ◌+◌, Bool, true, false, ◌&&◌, not, Option, none, some, List, [], ◌∷◌, ◌++◌, ◌==◌,
  ltb, nat_eq, string_eq, option_eq, elem, get_or, dict_beq, Dict, Json, get_field, text,
  if◌then◌else◌, Result, ok, err, ◌>>=◌,
}
use unit_test_agent.Operations.Table.{
  Step, turn, interpret, deterministic, step_beq, Row, Db, Status, started, completed, failed,
  cancelled, Claim, Completion, Closing, closed_cancelled, Refusal, Slot,
}
use unit_test_agent.Operations.Rows.{
  get_workflow_operation, latest_workflow_operation, start_workflow_operation,
  complete_workflow_operation, cancel_workflow_operation, retry_workflow_operation, is_completed,
}
use unit_test_agent.Operations.Envelope.{
  OperationIdentity, OperationResultEnvelope, State, Failure, artifact_invalid, refused, type_error,
  Ports, operation_id, present, last_session_locator,
}
use unit_test_agent.Operations.Chain.{
  Artifact, identity_for_row, artifact_for_row, validate_prerequisites, enough_fuel,
}
use unit_test_agent.Operations.Slots.{Parts, state_parts}
use unit_test_agent.Operations.Adoption.{
  or_refused, outputs_match, complete_from_envelope, cancel_from_envelope,
}

pub data Outcome : Type 0 where
  run reuse_result fail_unsafe adopt_result fail_indeterminate verify_existing_edit
        retry_no_effect :
      Outcome

pub record Decision : Type 0 where
  pub outcome : Outcome
  pub identity : OperationIdentity
  pub output_fingerprints_before : Dict String

-- The claim of an operation under an identity, as `classify` passes it.
abbrev pub claim_for : Ports → Parts → OperationIdentity → Claim
claim_for ports parts i = record {
  operation_id = operation_id ports i;
  repo_task_id = parts.slot.repo_task_id;
  workflow_run_id = i.workflow_run_id;
  unit_id = i.unit_id;
  phase = i.phase;
  operation_step = i.operation_step;
  attempt = i.logical_attempt;
  execution_ordinal = i.execution_ordinal;
  input_fingerprint = i.input_fingerprint;
  prerequisite_operation_ids_json = ports.dumps_ids parts.prerequisites;
  schema_version = 1;
  session_id = none;
}

-- `result.get("status") == "cancelled"`, of a turn.
abbrev is_text : Json → String → Bool
is_text (text s) t = s == t
is_text _ t = false

abbrev pub is_cancelled_turn : OperationResultEnvelope → Bool
is_cancelled_turn e = e.result_kind == "turn" && is_text (get_field "status" e.result) "cancelled"

-- The next execution of the same attempt.
abbrev pub successor_identity : OperationIdentity → String → OperationIdentity
successor_identity i current = record i {
  execution_ordinal = i.execution_ordinal + 1;
  input_fingerprint = current;
}

module _ (ports : Ports) (max_crash_replays : ℕ) where
  abbrev pub decide : Outcome → OperationIdentity → Dict String → Db → Decision × Db
  decide o i before db =
      (record { outcome = o; identity = i; output_fingerprints_before = before }, db)

  -- Nothing of the operation can be used: it left an edit, it has been replayed often enough, or it
  -- runs again. The identity is that of the row that was found first.
  unfoldable pub replay :
      State
      → Parts
      → Dict String
      → String
      → OperationIdentity
      → Row
      → String
      → Db
      → Result Failure (Decision × Db)
  unfolding retry_workflow_operation
  replay state parts before current i r now db =
      if not (current == r.input_fingerprint)
      then ok (
          decide (if ports.allowed_edit state r then verify_existing_edit else fail_unsafe) i before
            db)
      else if ltb i.execution_ordinal max_crash_replays
      then (or_refused (
            retry_workflow_operation (operation_id ports i)
              (claim_for ports parts (successor_identity i current)) "crash_no_observable_effect"
              now db)
          >>= λ (n, db'). ok (decide retry_no_effect (successor_identity i current) before db'))
      else ok (decide fail_indeterminate i before db)

  -- A result was written, and the row that claims it is still `STARTED`.
  unfoldable pub adopt :
      State
      → Parts
      → Dict String
      → String
      → Row
      → Artifact
      → String
      → String
      → Db
      → Result Failure (Decision × Db)
  unfolding complete_from_envelope cancel_from_envelope replay get_workflow_operation
  adopt state parts before current r a now later db =
      let i = identity_for_row r in
      if current == a.0.resulting_workspace_fingerprint && outputs_match ports state r a.0
      then if is_cancelled_turn a.0
        then (cancel_from_envelope ports r a now db >>= λ (n, db').
            elim (get_workflow_operation (operation_id ports i) db') [
              | some m ↦ replay state parts before current i m later db'
              | none ↦ err type_error
            ])
        else (complete_from_envelope ports r a now db >>= λ (n, db').
            ok (decide adopt_result i before db'))
      else ok (decide fail_indeterminate i before db)

  abbrev pub reuse :
      State → Dict String → String → Row → Option Artifact → Db → Result Failure (Decision × Db)
  reuse state before current r none db =
      ok (decide fail_indeterminate (identity_for_row r) before db)
  reuse state before current r (some a) db = ok (
      decide
        (if current == a.0.resulting_workspace_fingerprint && outputs_match ports state r a.0
          then reuse_result
          else fail_unsafe)
        (identity_for_row r) before db)

  unfoldable pub reconcile_row :
      Status
      → State
      → Parts
      → Dict String
      → String
      → Row
      → Option Artifact
      → String
      → String
      → Db
      → Result Failure (Decision × Db)
  unfolding adopt replay
  reconcile_row completed state parts before current r a now later db =
      reuse state before current r a db
  reconcile_row started state parts before current r (some a) now later db =
      adopt state parts before current r a now later db
  reconcile_row _ state parts before current r a now later db =
      replay state parts before current (identity_for_row r) r now db

  -- The artifact and the prerequisites are read under one `try`.
  unfoldable pub trusted_artifact : Db → Row → Result Failure (Option Artifact)
  unfolding artifact_for_row validate_prerequisites
  trusted_artifact db r = artifact_for_row ports r >>= λ a.
      validate_prerequisites ports db (enough_fuel db) r [] >>= λ _. ok a

  unfoldable pub classify_row :
      State
      → Parts
      → Dict String
      → String
      → Row
      → Result Failure (Option Artifact)
      → String
      → String
      → Db
      → Result Failure (Decision × Db)
  unfolding reconcile_row
  classify_row state parts before current r (err artifact_invalid) now later db =
      ok (decide fail_indeterminate (identity_for_row r) before db)
  classify_row state parts before current r (err e) now later db = err e
  classify_row state parts before current r (ok a) now later db =
      reconcile_row r.status state parts before current r a now later db

  abbrev pub outputs_before : State → String → Step → Dict String
  outputs_before state phase interpret = []
  outputs_before state phase step = ports.output_fingerprints state phase step

  abbrev pub first_identity : Parts → String → OperationIdentity
  first_identity parts current = record {
    workflow_run_id = parts.slot.workflow_run_id;
    unit_id = parts.slot.unit_id;
    phase = parts.slot.phase;
    operation_step = parts.slot.operation_step;
    logical_attempt = parts.slot.attempt;
    execution_ordinal = 0;
    input_fingerprint = current;
  }

  unfoldable pub classify_slot :
      State
      → Parts
      → Dict String
      → String
      → Option Row
      → String
      → String
      → Db
      → Result Failure (Decision × Db)
  unfolding start_workflow_operation classify_row trusted_artifact
  classify_slot state parts before current none now later db =
      or_refused
        (start_workflow_operation (claim_for ports parts (first_identity parts current)) now db)
      >>= λ (n, db'). ok (decide run (first_identity parts current) before db')
  classify_slot state parts before current (some r) now later db =
      classify_row state parts before current r (trusted_artifact db r) now later db

  unfoldable pub classify :
      String → Step → State → String → String → Db → Result Failure (Decision × Db)
  unfolding state_parts classify_slot latest_workflow_operation
  classify phase step state now later db = state_parts state phase step db >>= λ parts.
      classify_slot state parts (outputs_before state phase step)
        (ports.fingerprint state phase step) (latest_workflow_operation parts.slot db) now later db
