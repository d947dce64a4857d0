-- ===== src/Operations/Classify/Outcomes.antt =====
-- The conditions of each outcome of `classify` of uta/testgen/operations/reconciliation.py.
use unit_test_agent.Prelude.{
  ℕ, String, ◌<◌, ◌≡◌, ◌≢◌, true, false, Option, none, some, [], nat_eq, string_eq, option_eq, ok,
}
use unit_test_agent.Operations.Table.{Step, Row, Db, started, completed}
use unit_test_agent.Operations.Rows.{find, latest_workflow_operation, same_claim, same_completion}
use unit_test_agent.Operations.Envelope.{State, Ports, operation_id}
use unit_test_agent.Operations.Chain.{
  Artifact, identity_for_row, artifact_for_row, validate_prerequisites, enough_fuel,
}
use unit_test_agent.Operations.Slots.{Parts, state_parts}
use unit_test_agent.Operations.Adoption.{outputs_match, completion_of}
use unit_test_agent.Operations.Classify.{
  Outcome, run, reuse_result, fail_unsafe, adopt_result, fail_indeterminate, verify_existing_edit,
  retry_no_effect, Decision, claim_for, is_cancelled_turn, successor_identity, first_identity,
}

module _ (ports : Ports) (max_crash_replays : ℕ) (phase : String) (step : Step) (state : State)
    (db : Db) where
  abbrev current : String
  current = ports.fingerprint state phase step

  -- The newest row of the state's slot.
  pub record IsLatest (parts : Parts) (r : Row) : Type 0 where
    pub slot : state_parts state phase step db ≡ ok parts
    pub latest : latest_workflow_operation parts.slot db ≡ some r

  -- An artifact that agrees with the row, behind a valid chain, and a workspace that is still as the
  -- artifact left it.
  pub record Verified (r : Row) (a : Artifact) : Type 0 where
    pub has_artifact : artifact_for_row ports r ≡ ok (some a)
    pub has_chain : validate_prerequisites ports db (enough_fuel db) r [] ≡ ok tt
    pub same_workspace : current ≡ a.0.resulting_workspace_fingerprint
    pub same_outputs : outputs_match ports state r a.0 ≡ true

  pub record Started (d : Decision) (db' : Db) : Type 0 where
    pub parts : Parts
    pub slot : state_parts state phase step db ≡ ok parts
    pub no_row : latest_workflow_operation parts.slot db ≡ none
    pub row : Row
    pub found : find (operation_id ports d.identity) db'.operations ≡ some row
    pub claimed :
        same_claim row
          (claim_for ports parts (first_identity ports max_crash_replays parts current))
        ≡ true

  pub record Reused (d : Decision) (db' : Db) : Type 0 where
    pub parts : Parts
    pub row : Row
    pub latest : IsLatest parts row
    pub is_completed : row.status ≡ completed
    pub artifact : Artifact
    pub verified : Verified row artifact
    pub unchanged : db' ≡ db

  pub record Adopted (d : Decision) (db' : Db) : Type 0 where
    pub parts : Parts
    pub row : Row
    pub latest : IsLatest parts row
    pub was_started : row.status ≡ started
    pub artifact : Artifact
    pub verified : Verified row artifact
    pub not_cancelled : is_cancelled_turn artifact.0 ≡ false
    pub session : Option String
    pub after : Row
    pub found : find row.operation_id db'.operations ≡ some after
    pub is_completed : after.status ≡ completed
    pub same_evidence : same_completion after (completion_of ports artifact session) ≡ true

  pub record Retried (d : Decision) (db' : Db) : Type 0 where
    pub parts : Parts
    pub row : Row
    pub latest : IsLatest parts row
    pub not_completed : row.status ≢ completed
    pub replays_left : row.execution_ordinal < max_crash_replays
    pub identity : d.identity ≡ successor_identity (identity_for_row row) current
    pub successor : Row
    pub found : find (operation_id ports d.identity) db'.operations ≡ some successor

  pub record Edited : Type 0 where
    pub parts : Parts
    pub row : Row
    pub latest : IsLatest parts row
    pub not_completed : row.status ≢ completed

  pub record Refused : Type 0 where
    pub parts : Parts
    pub row : Row
    pub latest : IsLatest parts row

  abbrev pub Justified : Outcome → Decision → Db → Type 0
  Justified run d db' = Started d db'
  Justified reuse_result d db' = Reused d db'
  Justified adopt_result d db' = Adopted d db'
  Justified retry_no_effect d db' = Retried d db'
  Justified verify_existing_edit d db' = Edited
  Justified fail_unsafe d db' = Refused
  Justified fail_indeterminate d db' = Refused
