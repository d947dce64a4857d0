-- ===== src/Operations/Slots.antt =====
-- The slot of the operation that a phase is about to run, and its prerequisites: `_state_parts` of
-- uta/testgen/operations/reconciliation.py.
use unit_test_agent.Prelude.{
  ℕ, String, ◌&&◌, not, Option, none, some, List, [], ◌∷◌, ◌++◌, ◌==◌, nat_eq, string_eq, option_eq,
  elem, get_or, Dict, if◌then◌else◌, Result, ok, err, ◌>>=◌,
}
use unit_test_agent.Operations.Table.{Step, step_beq, Row, Db, Slot}
use unit_test_agent.Operations.Rows.{get_workflow_operation, is_completed}
use unit_test_agent.Operations.Envelope.{State, Failure, artifact_invalid, present}

-- What `_state_parts` returns: the slot of the operation, and its prerequisites.
pub record Parts : Type 0 where
  pub slot : Slot
  pub prerequisites : List String

abbrev required : Option String → Result Failure String
required (some s) = ok s
required none = err artifact_invalid

abbrev required_id : Option ℕ → Result Failure ℕ
required_id (some n) = ok n
required_id none = err artifact_invalid

-- `state.get("attempts_by_phase") or state.get("attempts") or {}`
abbrev attempts_of : Dict ℕ → Dict ℕ → Dict ℕ
attempts_of [] attempts = attempts
attempts_of (a ∷ by_phase) attempts = a ∷ by_phase

-- `dict.fromkeys(ids)`, after those that are taken.
abbrev pub from_keys : List String → List String → List String
from_keys taken [] = []
from_keys taken (i ∷ ids) =
    let skip = from_keys taken ids in
    let keep = from_keys (i ∷ taken) ids in if elem i taken then skip else i ∷ keep

-- The operation that ran before is a prerequisite if it is another one, and completed.
abbrev previous_ids : Option Row → String → Step → ℕ → List String
previous_ids none phase step attempt = []
previous_ids (some p) phase step attempt =
    if not (p.phase == phase && step_beq p.operation_step step && p.attempt == attempt)
      && is_completed p.status
    then p.operation_id ∷ []
    else []

unfoldable pub lookup_previous : Option String → Db → Option Row
unfolding get_workflow_operation
lookup_previous none db = none
lookup_previous (some i) db = get_workflow_operation i db

unfoldable pub state_parts : State → String → Step → Db → Result Failure Parts
unfolding lookup_previous
state_parts state phase step db = required_id state.task_id >>= λ task.
    required state.workflow_run_id >>= λ run_id. required state.unit_id >>= λ unit.
    let attempt = get_or phase 0 (attempts_of state.attempts_by_phase state.attempts) in
    let previous = lookup_previous (present state.operation_id) db in
    ok (record {
      slot = record {
        repo_task_id = task;
        workflow_run_id = run_id;
        unit_id = unit;
        phase = phase;
        operation_step = step;
        attempt = attempt;
      };
      prerequisites =
          from_keys []
            (state.prerequisite_operation_ids ++ previous_ids previous phase step attempt);
    })
