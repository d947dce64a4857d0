-- ===== src/Operations/Envelope.antt =====
-- The identity of an operation, the envelope of its result, and the state that a generation phase
-- has: uta/testgen/operations/models.py. Identities that were read from a file have been validated,
-- so a step is one of the three and the counts are natural numbers.
use unit_test_agent.Prelude.{
  ℕ, String, Bool, ◌&&◌, Option, none, some, List, [], ◌∷◌, ◌==◌, nat_eq, string_eq, Dict, Json,
  null, text, array, object, nil, cons, Items, Fields, get_field, truthy, decimal, joined, Result,
  ok, err, if◌then◌else◌,
}
use unit_test_agent.Operations.Table.{Step, turn, interpret, deterministic, step_beq, Row, Refusal}

pub record OperationIdentity : Type 0 where
  pub workflow_run_id : String
  pub unit_id : String
  pub phase : String
  pub operation_step : Step
  pub logical_attempt : ℕ
  pub execution_ordinal : ℕ
  pub input_fingerprint : String

pub record OperationResultEnvelope : Type 0 where
  pub identity : OperationIdentity
  pub result_kind : String
  pub result : Fields
  pub resulting_workspace_fingerprint : String
  pub output_fingerprints : Dict String
  pub prerequisite_operation_ids : List String

-- What a phase reads of the state of its cycle: a field that is absent or cannot be converted is
-- `none`.
pub record State : Type 0 where
  pub task_id : Option ℕ
  pub workflow_run_id : Option String
  pub unit_id : Option String
  pub attempts_by_phase : Dict ℕ
  pub attempts : Dict ℕ
  pub prerequisite_operation_ids : List String
  pub operation_id : Option String

-- The exceptions: `ArtifactValidationError`, those of the ledger's transactions, and `TypeError`.
-- The last is a recursion that the model's fuel has cut.
pub data Failure : Type 0 where
  artifact_invalid : Failure
  refused : Refusal → Failure
  type_error : Failure
  out_of_fuel : Failure

-- `ArtifactValidationError`, the one exception of the store.
pub data Unreadable : Type 0 where
  unreadable : Unreadable

-- What the ledger uses of its surroundings: sha256 in hexadecimal, `json.loads`, `str`, `json_dumps`
-- on the two kinds of values that it stores, the callbacks that look at the workspace, and the store
-- of the artifacts, where a write returns the path and the digest of the file.
pub record Ports : Type 0 where
  pub hexdigest : String → String
  pub loads : String → Option Json
  pub str : Json → String
  pub dumps_ids : List String → String
  pub dumps_outputs : Dict String → String
  pub fingerprint : State → String → Step → String
  pub output_fingerprints : State → String → Step → Dict String
  pub allowed_edit : State → Row → Bool
  pub read : String → String → Result Unreadable OperationResultEnvelope
  pub read_for_identity :
      OperationIdentity → Result Unreadable (Option (OperationResultEnvelope × String))
  pub store : OperationResultEnvelope → Result Unreadable (String × String)

abbrev pub raised {ℓ} : {A : Type ℓ} → Result Unreadable A → Result Failure A
raised (ok a) = ok a
raised (err unreadable) = err artifact_invalid

abbrev pub step_name : Step → String
step_name turn = "turn"
step_name interpret = "interpret"
step_name deterministic = "deterministic"

unfoldable pub operation_id : Ports → OperationIdentity → String
operation_id ports i = ports.hexdigest (
    joined "\0" (
      i.workflow_run_id
      ∷ i.unit_id
      ∷ i.phase
      ∷ step_name i.operation_step
      ∷ decimal i.logical_attempt
      ∷ decimal i.execution_ordinal
      ∷ i.input_fingerprint
      ∷ []))

-- `identity == other`
abbrev pub identity_beq : OperationIdentity → OperationIdentity → Bool
identity_beq i j =
    i.workflow_run_id == j.workflow_run_id
    && i.unit_id == j.unit_id
    && i.phase == j.phase
    && step_beq i.operation_step j.operation_step
    && i.logical_attempt == j.logical_attempt
    && i.execution_ordinal == j.execution_ordinal
    && i.input_fingerprint == j.input_fingerprint

-- A text that is there and not empty.
abbrev pub present : Option String → Option String
present none = none
present (some s) = if s == "" then none else some s

-- `bool` and then `str` of a value.
abbrev text_if_truthy : Ports → Json → Option String
text_if_truthy ports j = if truthy j then some (ports.str j) else none

abbrev last_item : Items → Option Json
last_item nil = none
last_item (cons j nil) = some j
last_item (cons j (cons k js)) = last_item (cons k js)

-- `list(refs or ())`, and its last element: what is not an array has no mapping for an element.
abbrev last_ref : Json → Result Failure (Option Json)
last_ref null = ok none
last_ref (array js) = ok (last_item js)
last_ref (object fs) = ok none
last_ref (text s) = ok none
last_ref j = if truthy j then err type_error else ok none

abbrev locator_of : Ports → Option Json → Option String
locator_of ports (some (object fs)) = text_if_truthy ports (get_field "locator" fs)
locator_of ports _ = none

abbrev or_else : Option String → Option String → Option String
or_else none t = t
or_else (some s) t = some s

-- `_last_session_locator_mapping`
unfoldable pub last_session_locator : Ports → Fields → Result Failure (Option String)
last_session_locator ports result = elim (last_ref (get_field "session_refs" result)) [
  | err e ↦ err e
  | ok last ↦
      ok (or_else (locator_of ports last) (text_if_truthy ports (get_field "session_id" result)))
]

-- What the ledger reads of the result of a turn, an `AgentTurnResult`.
pub record TurnResult : Type 0 where
  pub status : String
  pub as_dict : Fields
  pub session_locators : List String

abbrev pub last_locator : List String → Option String
last_locator [] = none
last_locator (l ∷ []) = some l
last_locator (l ∷ m ∷ ls) = last_locator (m ∷ ls)
