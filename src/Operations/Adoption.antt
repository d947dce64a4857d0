-- ===== src/Operations/Adoption.antt =====
-- Completing and cancelling an operation from the envelope of its result: `_complete_from_envelope`
-- and `_cancel_from_envelope` of uta/testgen/operations/ledger.py.
use unit_test_agent.Prelude.{
  String, Bool, Option, some, nat_eq, string_eq, option_eq, dict_beq, Result, ok, err, ◌>>=◌,
}
use unit_test_agent.Operations.Table.{Row, Db, Completion, Closing, closed_cancelled, Refusal}
use unit_test_agent.Operations.Rows.{complete_workflow_operation, cancel_workflow_operation}
use unit_test_agent.Operations.Envelope.{
  OperationResultEnvelope, State, Failure, refused, Ports, last_session_locator,
}
use unit_test_agent.Operations.Chain.{Artifact}

abbrev pub or_refused {ℓ} : {A : Type ℓ} → Result Refusal A → Result Failure A
or_refused (ok a) = ok a
or_refused (err e) = err (refused e)

abbrev pub outputs_match : Ports → State → Row → OperationResultEnvelope → Bool
outputs_match ports state r envelope =
    dict_beq (ports.output_fingerprints state r.phase r.operation_step) envelope.output_fingerprints

abbrev pub completion_of : Ports → Artifact → Option String → Completion
completion_of ports (envelope, path, sha) session = record {
  resulting_workspace_fingerprint = envelope.resulting_workspace_fingerprint;
  result_artifact_path = path;
  result_artifact_sha256 = sha;
  output_fingerprints_json = ports.dumps_outputs envelope.output_fingerprints;
  session_id = session;
}

abbrev pub cancellation_of : Ports → Artifact → Option String → Closing
cancellation_of ports (envelope, path, sha) session = record {
  status = closed_cancelled;
  error_kind = "cancelled";
  error = "cancelled";
  resulting_workspace_fingerprint = some envelope.resulting_workspace_fingerprint;
  result_artifact_path = some path;
  result_artifact_sha256 = some sha;
  output_fingerprints_json = some (ports.dumps_outputs envelope.output_fingerprints);
  session_id = session;
}

unfoldable pub complete_from_envelope :
    Ports → Row → Artifact → String → Db → Result Failure (Row × Db)
unfolding last_session_locator complete_workflow_operation
complete_from_envelope ports r a now db = last_session_locator ports a.0.result >>= λ session.
    or_refused (complete_workflow_operation r.operation_id (completion_of ports a session) now db)

unfoldable pub cancel_from_envelope :
    Ports → Row → Artifact → String → Db → Result Failure (Row × Db)
unfolding last_session_locator cancel_workflow_operation
cancel_from_envelope ports r a now db = last_session_locator ports a.0.result >>= λ session.
    or_refused (cancel_workflow_operation r.operation_id (cancellation_of ports a session) now db)
