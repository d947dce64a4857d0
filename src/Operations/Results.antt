-- ===== src/Operations/Results.antt =====
-- Recording the result of a phase, and the check of a finished unit: uta/testgen/operations/ledger.py,
-- with `_row_from_state` and `validate_terminal` of uta/testgen/operations/reconciliation.py.
pub mod Recorded
use unit_test_agent.Prelude.{
  ℕ, String, Bool, true, false, ◌&&◌, not, Option, none, some, List, [], ◌∷◌, ◌==◌, string_eq, Dict,
  Fields, if◌then◌else◌, Result, ok, err, ◌>>=◌,
}
use unit_test_agent.Operations.Table.{
  Step, turn, interpret, deterministic, step_beq, Row, Db, Completion, Closing, closed_cancelled,
}
use unit_test_agent.Operations.Rows.{
  latest_workflow_operation, complete_workflow_operation, cancel_workflow_operation,
  fail_workflow_operation, is_completed,
}
use unit_test_agent.Operations.Envelope.{
  OperationResultEnvelope, State, Failure, artifact_invalid, Ports, TurnResult, last_locator,
  present, raised,
}
use unit_test_agent.Operations.Chain.{
  Artifact, identity_for_row, row_prerequisites, artifact_for_row, validate_prerequisites,
  enough_fuel,
}
use unit_test_agent.Operations.Slots.{Parts, state_parts, lookup_previous}
use unit_test_agent.Operations.Adoption.{outputs_match, completion_of, cancellation_of, or_refused}

-- The last test of `_row_from_state`.
abbrev pub active : String → Step → Option Row → Result Failure Row
active phase step none = err artifact_invalid
active phase step (some r) =
    if r.phase == phase && step_beq r.operation_step step then ok r else err artifact_invalid

-- The row that the state names, or else the newest of its slot.
unfoldable pub named_or_latest : Option Row → State → String → Step → Db → Result Failure Row
unfolding state_parts latest_workflow_operation
named_or_latest (some r) state phase step db = active phase step (some r)
named_or_latest none state phase step db = state_parts state phase step db >>= λ parts.
    active phase step (latest_workflow_operation parts.slot db)

unfoldable pub row_from_state : State → String → Step → Db → Result Failure Row
unfolding named_or_latest lookup_previous
row_from_state state phase step db =
    named_or_latest (lookup_previous (present state.operation_id) db) state phase step db

module _ (ports : Ports) where
  abbrev pub verify_terminal :
      State → Row → Option Artifact → Db → Result Failure OperationResultEnvelope
  verify_terminal state r none db = err artifact_invalid
  verify_terminal state r (some a) db =
      validate_prerequisites ports db (enough_fuel db) r [] >>= λ _.
      if ports.fingerprint state "complete_generation" deterministic
          == a.0.resulting_workspace_fingerprint
        && outputs_match ports state r a.0
      then ok a.0
      else err artifact_invalid

  unfoldable pub validate_terminal : State → Db → Result Failure OperationResultEnvelope
  unfolding row_from_state artifact_for_row validate_prerequisites
  validate_terminal state db = row_from_state state "complete_generation" deterministic db >>= λ r.
      if is_completed r.status
      then (artifact_for_row ports r >>= λ a. verify_terminal state r a db)
      else err artifact_invalid

  -- The envelope that is written for a row.
  abbrev pub envelope_for :
      String → Fields → State → String → Step → Row → List String → OperationResultEnvelope
  envelope_for kind result state phase step r ids = record {
    identity = identity_for_row r;
    result_kind = kind;
    result = result;
    resulting_workspace_fingerprint = ports.fingerprint state phase step;
    output_fingerprints = ports.output_fingerprints state phase step;
    prerequisite_operation_ids = ids;
  }

  -- The artifact is written before the row is.
  unfoldable pub stored_envelope :
      String → Fields → State → String → Step → Row → Result Failure Artifact
  unfolding row_prerequisites
  stored_envelope kind result state phase step r = row_prerequisites ports r >>= λ ids.
      raised (ports.store (envelope_for kind result state phase step r ids)) >>= λ (path, sha).
      ok (envelope_for kind result state phase step r ids, path, sha)

  -- The row that is completed, and its phase's result, which the caller merges.
  unfoldable pub record_result :
      String → Step → State → Fields → String → Db → Result Failure (Row × Db)
  unfolding row_from_state stored_envelope complete_workflow_operation
  record_result phase step state result now db = row_from_state state phase step db >>= λ r.
      stored_envelope "phase" result state phase step r >>= λ a.
      or_refused (complete_workflow_operation r.operation_id (completion_of ports a none) now db)

  -- `config.get("label") or state.get("current_phase") or ""`
  abbrev pub phase_of : Option String → Option String → String
  phase_of label current_phase = elim (present label) [
    | some l ↦ l
    | none ↦ elim current_phase [ some p ↦ p | none ↦ "" ]
  ]

  unfoldable pub settle_turn : TurnResult → Artifact → Row → String → Db → Result Failure (Row × Db)
  unfolding complete_workflow_operation cancel_workflow_operation
  settle_turn result a r now db =
      if result.status == "cancelled"
      then or_refused (
          cancel_workflow_operation r.operation_id
            (cancellation_of ports a (last_locator result.session_locators)) now db)
      else or_refused (
          complete_workflow_operation r.operation_id
            (completion_of ports a (last_locator result.session_locators)) now db)

  unfoldable pub on_result :
      State → Option String → Option String → TurnResult → String → Db → Result Failure (Row × Db)
  unfolding row_from_state stored_envelope settle_turn
  on_result state label current_phase result now db =
      let phase = phase_of label current_phase in
      row_from_state state phase turn db >>= λ r.
      stored_envelope "turn" result.as_dict state phase turn r >>= λ a.
      settle_turn result a r now db

  unfoldable pub reject_result :
      State → Option String → Option String → String → String → Db → Result Failure (Row × Db)
  unfolding row_from_state fail_workflow_operation
  reject_result state label current_phase reason now db =
      row_from_state state (phase_of label current_phase) turn db >>= λ r.
      or_refused (fail_workflow_operation r.operation_id "guard_rejected" reason now db)
