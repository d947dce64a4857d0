-- ===== src/Operations/Classify/Justified.antt =====
-- What each outcome of `classify` of uta/testgen/operations/reconciliation.py rests on.
use unit_test_agent.Prelude.{
  ℕ, String, ◌≡◌, ◌≢◌, refl, ap, ◌∙◌, subst, ◌&&◌, Option, none, some, [], ◌==◌, ltb, ltb→lt,
  nat_eq, string_eq, option_eq, ==_iff, Bool-cases, Option-cases, inl, inr, Dict, Result, ok, err,
  bind_ok, &&_iff,
}
use unit_test_agent.Operations.Table.{Step, Row, Db, Status, started, completed, failed, cancelled}
use unit_test_agent.Operations.Rows.{
  get_workflow_operation, latest_workflow_operation, start_workflow_operation,
  retry_workflow_operation,
}
use unit_test_agent.Operations.Rows.Written.{
  start_workflow_operation-found, complete_workflow_operation-found, retry_workflow_operation-found,
}
use unit_test_agent.Operations.Envelope.{
  State, Failure, artifact_invalid, refused, type_error, out_of_fuel, Ports, operation_id,
  last_session_locator,
}
use unit_test_agent.Operations.Chain.{
  Artifact, identity_for_row, artifact_for_row, validate_prerequisites, enough_fuel,
}
use unit_test_agent.Operations.Slots.{Parts, state_parts}
use unit_test_agent.Operations.Adoption.{
  or_refused, outputs_match, completion_of, complete_from_envelope, cancel_from_envelope,
}
use unit_test_agent.Operations.Classify.Outcomes.{IsLatest, Justified}
use unit_test_agent.Operations.Classify.{
  run, reuse_result, fail_unsafe, adopt_result, fail_indeterminate, verify_existing_edit,
  retry_no_effect, Decision, claim_for, is_cancelled_turn, successor_identity, decide, replay,
  adopt, reuse, reconcile_row, trusted_artifact, classify_row, outputs_before, first_identity,
  classify_slot, classify,
}

pub or_refused_ok {ℓ} : {A : Type ℓ} (m : Result _ A) {a : A} → or_refused m ≡ ok a → m ≡ ok a
or_refused_ok (ok b) h = let e : b ≡ _ = cc in ap ok e
or_refused_ok (err e) h = absurd (cc)

module _ (ports : Ports) (max_crash_replays : ℕ) (phase : String) (step : Step) (state : State)
    (db : Db) where
  abbrev current : String
  current = ports.fingerprint state phase step

  abbrev Latest : Parts → Row → Type 0
  Latest parts r = IsLatest ports max_crash_replays phase step state db parts r

  abbrev Just : Decision × Db → Type 0
  Just (d, db') = Justified ports max_crash_replays phase step state db d.outcome d db'

  returned :
      (made : Decision × Db) {d : Decision} {db' : Db}
      → ◌≡◌ {A = Result Failure (Decision × Db)} (ok made) (ok (d, db'))
      → Just made
      → Just (d, db')
  returned made {d} {db'} h j = let e : made ≡ (d, db') = cc in subst Just e j

  module _ (parts : Parts) (before : Dict String) (r : Row) (latest : Latest parts r) where
    -- A later look at the row, after a cancelled turn has been recorded, leaves the identity.
    replay-Justified :
        (m : Row) (now : String) (table : Db) {d : Decision} {db' : Db}
        → r.status ≢ completed
        → replay ports max_crash_replays state parts before current (identity_for_row r) m now table
          ≡ ok (d, db')
        → Just (d, db')
    unfolding replay
    replay-Justified m now table {d} {db'} open_row h =
        let i = identity_for_row r in
        elim (Bool-cases (current == m.input_fingerprint)) [
          | inr moved ↦ elim (Bool-cases (ports.allowed_edit state m)) [
            | inl allowed ↦
                returned (decide ports max_crash_replays verify_existing_edit i before table)
                  (rw (moved, allowed) at h)
                  (record { parts = parts; row = r; latest = latest; not_completed = open_row })
            | inr forbidden ↦
                returned (decide ports max_crash_replays fail_unsafe i before table)
                  (rw (moved, forbidden) at h) (record { parts = parts; row = r; latest = latest })
          ]
          | inl same ↦ elim (Bool-cases (ltb r.execution_ordinal max_crash_replays)) [
            | inr spent ↦
                returned (decide ports max_crash_replays fail_indeterminate i before table)
                  (rw (same, spent) at h) (record { parts = parts; row = r; latest = latest })
            | inl more ↦
                let ((n, after), e, last) =
                  bind_ok
                    (or_refused (
                      retry_workflow_operation (operation_id ports i)
                        (claim_for ports parts (successor_identity i current))
                        "crash_no_observable_effect" now table))
                    _ (rw (same, more) at h) in
                returned
                  (decide ports max_crash_replays retry_no_effect (successor_identity i current)
                    before after)
                  last
                  (record {
                    parts = parts;
                    row = r;
                    latest = latest;
                    not_completed = open_row;
                    replays_left = ltb→lt r.execution_ordinal max_crash_replays more;
                    identity = refl;
                    successor = n;
                    found =
                        retry_workflow_operation-found (operation_id ports i)
                          (claim_for ports parts (successor_identity i current))
                          "crash_no_observable_effect" now table (or_refused_ok _ e);
                  })
          ]
        ]

    adopt-Justified :
        (a : Artifact) (now later : String) {d : Decision} {db' : Db}
        → r.status ≡ started
        → artifact_for_row ports r ≡ ok (some a)
        → validate_prerequisites ports db (enough_fuel db) r [] ≡ ok tt
        → adopt ports max_crash_replays state parts before current r a now later db ≡ ok (d, db')
        → Just (d, db')
    unfolding adopt
    adopt-Justified a now later {d} {db'} begun there chain h =
        elim (Bool-cases
          (current == a.0.resulting_workspace_fingerprint && outputs_match ports state r a.0)) [
            | inr changed ↦
                returned
                  (decide ports max_crash_replays fail_indeterminate (identity_for_row r) before db)
                  (rw changed at h) (record { parts = parts; row = r; latest = latest })
            | inl same ↦ elim (Bool-cases (is_cancelled_turn a.0)) [
              | inl ended ↦
                  let ((n, table), _, last) =
                    bind_ok (cancel_from_envelope ports r a now db) _ (rw (same, ended) at h) in
                  elim (Option-cases
                    (get_workflow_operation (operation_id ports (identity_for_row r)) table)) [
                      | inl lost ↦ absurd (cc (rw lost at last))
                      | inr (m, again) ↦ replay-Justified m later table (λ e. cc) (rw again at last)
                    ]
              | inr kept ↦
                  let ((n, table), e, last) =
                    bind_ok (complete_from_envelope ports r a now db) _ (rw (same, kept) at h) in
                  let (session, _, written) =
                    bind_ok (last_session_locator ports a.0.result) _
                      (unfold complete_from_envelope in e) in
                  let (found, done, evidence) =
                    complete_workflow_operation-found r.operation_id (completion_of ports a session)
                      now db (or_refused_ok _ written) in
                  let (workspace, outputs) =
                    (&&_iff (current == a.0.resulting_workspace_fingerprint)
                        (outputs_match ports state r a.0)).0
                      same in
                  returned
                    (decide ports max_crash_replays adopt_result (identity_for_row r) before table)
                    last
                    (record {
                      parts = parts;
                      row = r;
                      latest = latest;
                      was_started = begun;
                      artifact = a;
                      verified = record {
                        has_artifact = there;
                        has_chain = chain;
                        same_workspace =
                            (==_iff current a.0.resulting_workspace_fingerprint).0 workspace;
                        same_outputs = outputs;
                      };
                      not_cancelled = kept;
                      session = session;
                      after = n;
                      found = found;
                      is_completed = done;
                      same_evidence = evidence;
                    })
            ]
          ]

    reuse-Justified :
        (a : Option Artifact) {d : Decision} {db' : Db}
        → r.status ≡ completed
        → artifact_for_row ports r ≡ ok a
        → validate_prerequisites ports db (enough_fuel db) r [] ≡ ok tt
        → reuse ports max_crash_replays state before current r a db ≡ ok (d, db')
        → Just (d, db')
    reuse-Justified none {d} {db'} done there chain h =
        returned (decide ports max_crash_replays fail_indeterminate (identity_for_row r) before db)
          h (record { parts = parts; row = r; latest = latest })
    reuse-Justified (some a) {d} {db'} done there chain h =
        elim (Bool-cases
          (current == a.0.resulting_workspace_fingerprint && outputs_match ports state r a.0)) [
            | inr changed ↦
                returned (decide ports max_crash_replays fail_unsafe (identity_for_row r) before db)
                  (rw changed at h) (record { parts = parts; row = r; latest = latest })
            | inl same ↦
                let (workspace, outputs) =
                  (&&_iff (current == a.0.resulting_workspace_fingerprint)
                      (outputs_match ports state r a.0)).0
                    same in
                returned
                  (decide ports max_crash_replays reuse_result (identity_for_row r) before db)
                  (rw same at h)
                  (record {
                    parts = parts;
                    row = r;
                    latest = latest;
                    is_completed = done;
                    artifact = a;
                    verified = record {
                      has_artifact = there;
                      has_chain = chain;
                      same_workspace =
                          (==_iff current a.0.resulting_workspace_fingerprint).0 workspace;
                      same_outputs = outputs;
                    };
                    unchanged = refl;
                  })
          ]

    reconcile_row-Justified :
        (t : Status) (a : Option Artifact) (now later : String) {d : Decision} {db' : Db}
        → r.status ≡ t
        → artifact_for_row ports r ≡ ok a
        → validate_prerequisites ports db (enough_fuel db) r [] ≡ ok tt
        → reconcile_row ports max_crash_replays t state parts before current r a now later db
          ≡ ok (d, db')
        → Just (d, db')
    unfolding reconcile_row
    reconcile_row-Justified completed a now later e there chain h =
        reuse-Justified a e there chain h
    reconcile_row-Justified started (some a) now later e there chain h =
        adopt-Justified a now later e there chain h
    reconcile_row-Justified started none now later e there chain h =
        replay-Justified r now db (λ f. cc) h
    reconcile_row-Justified failed a now later e there chain h =
        replay-Justified r now db (λ f. cc) h
    reconcile_row-Justified cancelled a now later e there chain h =
        replay-Justified r now db (λ f. cc) h

    classify_row-Justified :
        (trusted : Result Failure (Option Artifact)) (now later : String) {d : Decision} {db' : Db}
        → trusted_artifact ports max_crash_replays db r ≡ trusted
        → classify_row ports max_crash_replays state parts before current r trusted now later db
          ≡ ok (d, db')
        → Just (d, db')
    unfolding classify_row trusted_artifact
    classify_row-Justified (err artifact_invalid) now later e h =
        returned (decide ports max_crash_replays fail_indeterminate (identity_for_row r) before db)
          h (record { parts = parts; row = r; latest = latest })
    classify_row-Justified (err (refused x)) now later e h = absurd (cc)
    classify_row-Justified (err type_error) now later e h = absurd (cc)
    classify_row-Justified (err out_of_fuel) now later e h = absurd (cc)
    classify_row-Justified (ok a) now later e h =
        let (b, there, more) = bind_ok (artifact_for_row ports r) _ e in
        let (u, chain, last) =
          bind_ok (validate_prerequisites ports db (enough_fuel db) r []) _ more in
        let same : b ≡ a = cc in
        reconcile_row-Justified r.status a now later refl (there ∙ ap ok same) chain h

  classify_slot-Justified :
      (parts : Parts) (before : Dict String) (o : Option Row) (now later : String) {d : Decision}
      {db' : Db}
      → state_parts state phase step db ≡ ok parts
      → latest_workflow_operation parts.slot db ≡ o
      → classify_slot ports max_crash_replays state parts before current o now later db
        ≡ ok (d, db')
      → Just (d, db')
  unfolding classify_slot
  classify_slot-Justified parts before none now later slot none_yet h =
      let i = first_identity ports max_crash_replays parts current in
      let ((n, table), e, last) =
        bind_ok (or_refused (start_workflow_operation (claim_for ports parts i) now db)) _ h in
      let (found, same) =
        start_workflow_operation-found (claim_for ports parts i) now db (or_refused_ok _ e) in
      returned (decide ports max_crash_replays run i before table) last (record {
        parts = parts;
        slot = slot;
        no_row = none_yet;
        row = n;
        found = found;
        claimed = same;
      })
  classify_slot-Justified parts before (some r) now later slot there h =
      classify_row-Justified parts before r (record { slot = slot; latest = there })
        (trusted_artifact ports max_crash_replays db r) now later refl h

-- Whatever the ledger decides about an operation, the decision is justified. It runs an operation
-- only when its slot has no row, and then the row is claimed. It reuses a result only when the slot's
-- newest row is completed, its artifact agrees with it, the chain of its prerequisites is valid, and
-- the workspace and the outputs are still those of the artifact; the table stays as it is. It adopts a
-- result under the same conditions when the row is started and the result is not a cancelled turn,
-- and then the row is completed with the artifact's evidence. It retries only when the newest row is
-- not completed and was replayed fewer times than allowed, and then the row of the next execution is
-- there. It checks an edit only when the newest row is not completed.
pub classify-Justified :
    (ports : Ports) (max_crash_replays : ℕ) (phase : String) (step : Step) (state : State)
    (now later : String) (db : Db) {d : Decision} {db' : Db}
    → classify ports max_crash_replays phase step state now later db ≡ ok (d, db')
    → Justified ports max_crash_replays phase step state db d.outcome d db'
unfolding classify
classify-Justified ports max_crash_replays phase step state now later db h =
    let (parts, slot, more) = bind_ok (state_parts state phase step db) _ h in
    classify_slot-Justified ports max_crash_replays phase step state db parts
      (outputs_before ports max_crash_replays state phase step)
      (latest_workflow_operation parts.slot db) now later slot refl more
