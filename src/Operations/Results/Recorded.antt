-- ===== src/Operations/Results/Recorded.antt =====
-- What a recorded result and a validated unit have: uta/testgen/operations/ledger.py and
-- `validate_terminal` of uta/testgen/operations/reconciliation.py.
use unit_test_agent.Prelude.{
  String, ◌≡◌, refl, sym, ap, ◌∙◌, true, ◌&&◌, Option, none, some, List, [], ◌==◌, string_eq,
  option_eq, arith, map, Json, null, bool, int, float, text, array, object, Items, items, ==_iff,
  Bool-cases, inl, inr, Fields, Result, ok, err, bind_ok, &&_iff,
}
use unit_test_agent.Operations.Table.{
  Step, turn, interpret, deterministic, step_beq, Row, Db, completed, Completion,
}
use unit_test_agent.Operations.Rows.{find, latest_workflow_operation, is_completed, same_completion}
use unit_test_agent.Operations.Rows.Written.{complete_workflow_operation-found}
use unit_test_agent.Operations.Envelope.{
  OperationResultEnvelope, State, Ports, Unreadable, unreadable, raised, present,
}
use unit_test_agent.Operations.Chain.{
  Artifact, listed, row_prerequisites, artifact_for_row, validate_prerequisites, enough_fuel,
}
use unit_test_agent.Operations.Chain.Ancestors.{
  is_completed_lem, Ancestor, Sound, validate_prerequisites-Sound,
}
use unit_test_agent.Operations.Slots.{state_parts, lookup_previous}
use unit_test_agent.Operations.Adoption.{outputs_match, completion_of}
use unit_test_agent.Operations.Classify.Outcomes.{Verified}
use unit_test_agent.Operations.Classify.Justified.{or_refused_ok}
use unit_test_agent.Operations.Results.{
  active, named_or_latest, row_from_state, verify_terminal, validate_terminal, envelope_for,
  stored_envelope, record_result,
}

step_beq_lem : (s t : Step) → step_beq s t ≡ true → s ≡ t
step_beq_lem turn turn h = refl
step_beq_lem interpret interpret h = refl
step_beq_lem deterministic deterministic h = refl
step_beq_lem _ _ h = absurd (cc)

active_ok :
    (phase : String) (step : Step) (o : Option Row) {r : Row}
    → active phase step o ≡ ok r
    → (o ≡ some r) × (r.phase ≡ phase) × (r.operation_step ≡ step)
active_ok phase step none h = absurd (cc)
active_ok phase step (some q) {r} h =
    elim (Bool-cases (q.phase == phase && step_beq q.operation_step step)) [
      | inr other ↦ absurd (cc (rw other at h))
      | inl same ↦
          let e : q ≡ r = cc (rw same at h) in
          let (p, s) = (&&_iff (q.phase == phase) (step_beq q.operation_step step)).0 same in
          (
            ap some e,
            ap (λ x. x.phase) (sym e) ∙ (==_iff q.phase phase).0 p,
            ap (λ x. x.operation_step) (sym e) ∙ step_beq_lem q.operation_step step s,
          )
    ]

named_or_latest_ok :
    (o : Option Row) (state : State) (phase : String) (step : Step) (db : Db) {r : Row}
    → named_or_latest o state phase step db ≡ ok r
    → (r.phase ≡ phase) × (r.operation_step ≡ step)
unfolding named_or_latest
named_or_latest_ok (some q) state phase step db h =
    let (_, p, s) = active_ok phase step (some q) h in (p, s)
named_or_latest_ok none state phase step db h =
    let (parts, _, last) = bind_ok (state_parts state phase step db) _ h in
    let (_, p, s) = active_ok phase step (latest_workflow_operation parts.slot db) last in (p, s)

pub row_from_state_ok :
    (state : State) (phase : String) (step : Step) (db : Db) {r : Row}
    → row_from_state state phase step db ≡ ok r
    → (r.phase ≡ phase) × (r.operation_step ≡ step)
unfolding row_from_state
row_from_state_ok state phase step db h =
    named_or_latest_ok (lookup_previous (present state.operation_id) db) state phase step db h

-- The finished generation of a unit, behind a chain of completed operations.
pub record Committable (ports : Ports) (state : State) (db : Db) (e : OperationResultEnvelope)
    : Type 0 where
  pub row : Row
  pub from_state : row_from_state state "complete_generation" deterministic db ≡ ok row
  pub right_phase : row.phase ≡ "complete_generation"
  pub right_step : row.operation_step ≡ deterministic
  pub is_complete : row.status ≡ completed
  pub artifact : Artifact
  pub is_envelope : artifact.0 ≡ e
  pub verified : Verified ports 0 "complete_generation" deterministic state db row artifact
  pub ancestors : (q : Row) → Ancestor ports db row q → Sound ports db [] row q

module _ (ports : Ports) (state : State) (db : Db) where
  verify_terminal_ok :
      (r : Row) (a : Option Artifact) {e : OperationResultEnvelope}
      → artifact_for_row ports r ≡ ok a
      → verify_terminal ports state r a db ≡ ok e
      → (b : Artifact) × (b.0 ≡ e)
        × Verified ports 0 "complete_generation" deterministic state db r b
  verify_terminal_ok r none there h = absurd (cc)
  verify_terminal_ok r (some a) {e} there h =
      let (_, chain, last) = bind_ok (validate_prerequisites ports db (enough_fuel db) r []) _ h in
      let current = ports.fingerprint state "complete_generation" deterministic in
      elim (Bool-cases
        (current == a.0.resulting_workspace_fingerprint && outputs_match ports state r a.0)) [
          | inr changed ↦ absurd (cc (rw changed at last))
          | inl same ↦
              let (workspace, outputs) =
                (&&_iff (current == a.0.resulting_workspace_fingerprint)
                    (outputs_match ports state r a.0)).0
                  same in
              (
                a,
                cc (rw same at last),
                record {
                  has_artifact = there;
                  has_chain = chain;
                  same_workspace = (==_iff current a.0.resulting_workspace_fingerprint).0 workspace;
                  same_outputs = outputs;
                },
              )
        ]

-- A unit whose terminal operation validates may be committed: the operation that its state names, or
-- the newest of its slot, is the completed deterministic `complete_generation`, the envelope that is
-- returned is that of its artifact, which agrees with the row, the workspace and the outputs are still
-- those of the envelope, and every operation that it rests on, at any depth, is completed, belongs to
-- the same task, run and unit, and has an artifact that agrees with it.
pub validate_terminal-Committable :
    (ports : Ports) (state : State) (db : Db) {e : OperationResultEnvelope}
    → validate_terminal ports state db ≡ ok e
    → Committable ports state db e
unfolding validate_terminal
validate_terminal-Committable ports state db {e} h =
    let (r, named, more) =
      bind_ok (row_from_state state "complete_generation" deterministic db) _ h in
    let (phase, step) = row_from_state_ok state "complete_generation" deterministic db named in
    elim (Bool-cases (is_completed r.status)) [
      | inr open_row ↦ absurd (cc (rw open_row at more))
      | inl done ↦
          let (o, there, last) = bind_ok (artifact_for_row ports r) _ (rw done at more) in
          let (a, same, v) = verify_terminal_ok ports state db r o there last in
          record {
            row = r;
            from_state = named;
            right_phase = phase;
            right_step = step;
            is_complete = is_completed_lem r.status done;
            artifact = a;
            is_envelope = same;
            verified = v;
            ancestors =
                λ q up. validate_prerequisites-Sound ports db (enough_fuel db) r q v.has_chain up;
          }
    ]

-- A result that has been recorded: what the envelope says, and what the row says of it.
pub record Recorded (ports : Ports) (phase : String) (step : Step) (state : State) (result : Fields)
    (db : Db) (n : Row) (db' : Db) : Type 0 where
  pub row : Row
  pub from_state : row_from_state state phase step db ≡ ok row
  pub right_phase : row.phase ≡ phase
  pub right_step : row.operation_step ≡ step
  pub prerequisites : Items
  pub reads : ports.loads row.prerequisite_operation_ids_json ≡ some (array prerequisites)
  pub envelope : OperationResultEnvelope
  pub of_row : envelope.identity ≡ record {
    workflow_run_id = row.workflow_run_id;
    unit_id = row.unit_id;
    phase = row.phase;
    operation_step = row.operation_step;
    logical_attempt = row.attempt;
    execution_ordinal = row.execution_ordinal;
    input_fingerprint = row.input_fingerprint;
  }
  pub has_kind : envelope.result_kind ≡ "phase"
  pub has_result : envelope.result ≡ result
  pub has_workspace : envelope.resulting_workspace_fingerprint ≡ ports.fingerprint state phase step
  pub has_outputs : envelope.output_fingerprints ≡ ports.output_fingerprints state phase step
  pub has_prerequisites : envelope.prerequisite_operation_ids ≡ map ports.str (items prerequisites)
  pub file : String × String
  pub written : ports.store envelope ≡ ok file
  pub found : find row.operation_id db'.operations ≡ some n
  pub is_complete : n.status ≡ completed
  pub row_workspace : n.resulting_workspace_fingerprint ≡ some (ports.fingerprint state phase step)
  pub row_path : n.result_artifact_path ≡ some file.0
  pub row_sha256 : n.result_artifact_sha256 ≡ some file.1
  pub row_outputs :
      n.output_fingerprints_json ≡ ports.dumps_outputs (ports.output_fingerprints state phase step)

same_completion_lem :
    (r : Row) (c : Completion)
    → same_completion r c ≡ true
    → (r.resulting_workspace_fingerprint ≡ some c.resulting_workspace_fingerprint)
      × (r.result_artifact_path ≡ some c.result_artifact_path)
      × (r.result_artifact_sha256 ≡ some c.result_artifact_sha256)
      × (r.output_fingerprints_json ≡ c.output_fingerprints_json)
unfolding same_completion
same_completion_lem r c h = (
  (==_iff r.resulting_workspace_fingerprint (some c.resulting_workspace_fingerprint)).0
      (ground arith),
  (==_iff r.result_artifact_path (some c.result_artifact_path)).0 (ground arith),
  (==_iff r.result_artifact_sha256 (some c.result_artifact_sha256)).0 (ground arith),
  (==_iff r.output_fingerprints_json c.output_fingerprints_json).0 (ground arith),
)

listed_ok :
    (ports : Ports) (o : Option Json) (ids : List String)
    → listed ports o ≡ ok ids
    → (js : Items) × (o ≡ some (array js)) × (ids ≡ map ports.str (items js))
listed_ok ports none ids h = cc
listed_ok ports (some (array js)) ids h =
    (js, refl, ap (λ r. elim r [ ok x ↦ x | err _ ↦ [] ]) (sym h))
listed_ok ports (some null) ids h = cc
listed_ok ports (some (bool b)) ids h = cc
listed_ok ports (some (int n)) ids h = cc
listed_ok ports (some (float x)) ids h = cc
listed_ok ports (some (text s)) ids h = cc
listed_ok ports (some (object fs)) ids h = cc

row_prerequisites_ok :
    (ports : Ports) (r : Row) (ids : List String)
    → row_prerequisites ports r ≡ ok ids
    → (js : Items) × (ports.loads r.prerequisite_operation_ids_json ≡ some (array js))
      × (ids ≡ map ports.str (items js))
unfolding row_prerequisites
row_prerequisites_ok ports r ids h =
    listed_ok ports (ports.loads r.prerequisite_operation_ids_json) ids h

raised_ok {ℓ} : {A : Type ℓ} (m : Result Unreadable A) {a : A} → raised m ≡ ok a → m ≡ ok a
raised_ok (ok b) {a} h = let e : b ≡ a = cc in ap ok e
raised_ok (err unreadable) h = absurd (cc)

-- When the result of a phase is recorded, an envelope with that result, the identity and the
-- prerequisites of its row, and the fingerprints of the workspace and of the outputs, is given to the
-- store, and the row is completed and has those fingerprints and the path and the digest of the file.
pub record_result-Recorded :
    (ports : Ports) (phase : String) (step : Step) (state : State) (result : Fields) (now : String)
    (db : Db) {n : Row} {db' : Db}
    → record_result ports phase step state result now db ≡ ok (n, db')
    → Recorded ports phase step state result db n db'
unfolding record_result stored_envelope
record_result-Recorded ports phase step state result now db {n} {db'} h =
    let (r, named, more) = bind_ok (row_from_state state phase step db) _ h in
    let (a, stored, last) =
      bind_ok (stored_envelope ports "phase" result state phase step r) _ more in
    let (ids, list, saved) = bind_ok (row_prerequisites ports r) _ stored in
    let (file, wrote, made) =
      bind_ok (raised (ports.store (envelope_for ports "phase" result state phase step r ids))) _
        saved in
    let is_a : (envelope_for ports "phase" result state phase step r ids, file.0, file.1) ≡ a =
      cc in
    let (found, done, evidence) =
      complete_workflow_operation-found r.operation_id (completion_of ports a none) now db
        (or_refused_ok _ last) in
    let e : OperationResultEnvelope = envelope_for ports "phase" result state phase step r ids in
    let right = row_from_state_ok state phase step db named in
    let read = row_prerequisites_ok ports r ids list in
    let same =
      same_completion_lem n (completion_of ports (e, file.0, file.1) none)
        (ap (λ x. same_completion n (completion_of ports x none)) is_a ∙ evidence) in
    record {
      row = r;
      from_state = named;
      right_phase = right.0;
      right_step = right.1;
      prerequisites = read.0;
      reads = read.1;
      envelope = e;
      of_row = refl;
      has_kind = refl;
      has_result = refl;
      has_workspace = refl;
      has_outputs = refl;
      has_prerequisites = read.2;
      file = file;
      written = raised_ok _ wrote;
      found = found;
      is_complete = done;
      row_workspace = same.0;
      row_path = same.1;
      row_sha256 = same.2;
      row_outputs = same.3;
    }
