-- ===== src/Operations/Chain/Fuel.antt =====
-- How deep the recursion of `_validate_prerequisites` of uta/testgen/operations/reconciliation.py
-- goes.
use unit_test_agent.Prelude.{
  ◌⊎◌, ℕ, String, suc, zero, ◌≤◌, ◌<◌, ◌≡◌, ◌≢◌, refl, sym, ap, ◌∙◌, false, ◌&&◌, Option, none,
  some, List, [], ◌∷◌, ◌==◌, nat_eq, string_eq, list_eq, ==_iff, ==_refl, elem, length, sum_by,
  Bool-cases, Option-cases, inl, inr, if◌then◌else◌, Result, ok, err, ◌>>=◌, arith, Json, array,
}
use unit_test_agent.Operations.Table.{Row, Db}
use unit_test_agent.Operations.Rows.{get_workflow_operation, is_completed, find}
use unit_test_agent.Operations.Envelope.{
  Failure, out_of_fuel, Ports, raised, Unreadable, unreadable, identity_beq,
  OperationResultEnvelope, present,
}
use unit_test_agent.Operations.Chain.{
  Artifact, row_prerequisites, listed, artifact_for_row, stored_artifact, agreeing, kind_of_step,
  identity_for_row, artifact_name, same_place, check_prerequisite, each, validate_prerequisites,
  enough_fuel,
}
use unit_test_agent.Operations.Chain.Ancestors.{find-operation_id, check_prerequisite-some}

-- The rows whose id has not been seen.
unseen : List String → Row → ℕ
unseen seen q = if elem q.operation_id seen then 0 else 1

abbrev left : Db → List String → ℕ
left db seen = sum_by (unseen seen) db.operations

unseen-cons : (i : String) (seen : List String) (q : Row) → unseen (i ∷ seen) q ≤ unseen seen q
unfolding unseen
unseen-cons i seen q = ground arith

sum-unseen-cons :
    (i : String) (seen : List String) (rs : List Row)
    → sum_by (unseen (i ∷ seen)) rs ≤ sum_by (unseen seen) rs
sum-unseen-cons i seen [] = omega arith
sum-unseen-cons i seen (q ∷ rs) = omega (arith, unseen-cons i seen q, sum-unseen-cons i seen rs)

unseen-new :
    (q : Row) (seen : List String)
    → elem q.operation_id seen ≡ false
    → unseen (q.operation_id ∷ seen) q < unseen seen q
unfolding unseen
unseen-new q seen new = rw (new, ==_refl q.operation_id) (omega arith)

-- A row that is seen for the first time leaves fewer.
left-cons :
    (i : String) (seen : List String) (rs : List Row) {q : Row}
    → find i rs ≡ some q
    → elem i seen ≡ false
    → sum_by (unseen (i ∷ seen)) rs < sum_by (unseen seen) rs
unfolding find
left-cons i seen [] h new = absurd (cc)
left-cons i seen (r ∷ rs) {q} h new = elim (Bool-cases (r.operation_id == i)) [
  | inl same ↦
      let e = (==_iff r.operation_id i).0 same in
      let here = unseen-new r seen (ap (λ x. elem x seen) e ∙ new) in
      let moved = ap (λ x. unseen (x ∷ seen) r) e in
      omega (arith, here, moved, sum-unseen-cons i seen rs)
  | inr other ↦ omega (arith, unseen-cons i seen r, left-cons i seen rs (rw other at h) new)
]

sum-unseen-length : (seen : List String) (rs : List Row) → sum_by (unseen seen) rs ≤ length rs
unfolding unseen
sum-unseen-length seen [] = omega arith
sum-unseen-length seen (q ∷ rs) = ground (arith, sum-unseen-length seen rs)

raised_err {ℓ} : {A : Type ℓ} (m : Result Unreadable A) → raised m ≢ err out_of_fuel
raised_err (ok a) e = cc
raised_err (err unreadable) e = cc

-- A block that runs out of fuel does so in one of its parts.
bind_err :
    {A B : Type 0} (m : Result Failure A) (next : A → Result Failure B)
    → (m >>= next) ≡ err out_of_fuel
    → m ≢ err out_of_fuel
    → (a : A) × (m ≡ ok a) × (next a ≡ err out_of_fuel)
bind_err (err x) next h fine = let e : x ≡ out_of_fuel = cc in absurd (fine (ap err e))
bind_err (ok a) next h fine = (a, refl, h)

row_prerequisites_err : (ports : Ports) (r : Row) → row_prerequisites ports r ≢ err out_of_fuel
unfolding row_prerequisites
row_prerequisites_err ports r = listed_err (ports.loads r.prerequisite_operation_ids_json)
  where
    listed_err : (o : Option Json) → listed ports o ≢ err out_of_fuel
    listed_err none e = cc
    listed_err (some (array js)) e = cc
    listed_err (some _) e = cc

agreeing_err : (ports : Ports) (r : Row) (a : Artifact) → agreeing ports r a ≢ err out_of_fuel
unfolding agreeing
agreeing_err ports r (envelope, path, sha) e =
    elim (Bool-cases (identity_beq envelope.identity (identity_for_row r))) [
      | inr other ↦ absurd (cc (rw other at e))
      | inl same ↦
          let (ids, _, last) =
            bind_err (row_prerequisites ports r) _ (rw same at e) (row_prerequisites_err ports r) in
          elim (Bool-cases (
            envelope.prerequisite_operation_ids == ids
            && envelope.result_kind == kind_of_step r.operation_step)) [
              | inl fine ↦ absurd (cc (rw fine at last))
              | inr wrong ↦ absurd (cc (rw wrong at last))
            ]
    ]

orphan_err :
    (ports : Ports) (r : Row)
    → (raised (ports.read_for_identity (identity_for_row r)) >>= λ orphan. elim orphan [
      | none ↦ ok none
      | some (envelope, sha) ↦
          agreeing ports r (envelope, artifact_name ports (identity_for_row r), sha)
    ])
      ≢ err out_of_fuel
orphan_err ports r e =
    let (orphan, _, last) =
      bind_err (raised (ports.read_for_identity (identity_for_row r))) _ e
        (raised_err (ports.read_for_identity (identity_for_row r))) in
    either orphan last
  where
    either :
        (o : Option (OperationResultEnvelope × String))
        → elim o [
          | none ↦ ok none
          | some (envelope, sha) ↦
              agreeing ports r (envelope, artifact_name ports (identity_for_row r), sha)
        ]
          ≢ err out_of_fuel
    either none e = cc
    either (some (envelope, sha)) e = agreeing_err ports r _ e

stored_artifact_err :
    (ports : Ports) (r : Row) (path sha : Option String)
    → stored_artifact ports r path sha ≢ err out_of_fuel
unfolding stored_artifact
stored_artifact_err ports r (some path) (some sha) e =
    let (envelope, _, last) =
      bind_err (raised (ports.read path sha)) _ e (raised_err (ports.read path sha)) in
    agreeing_err ports r (envelope, path, sha) last
stored_artifact_err ports r none sha e = orphan_err ports r e
stored_artifact_err ports r (some path) none e = orphan_err ports r e

check_prerequisite_err :
    (ports : Ports) (r : Row) (o : Option Row) → check_prerequisite ports r o ≢ err out_of_fuel
unfolding check_prerequisite artifact_for_row
check_prerequisite_err ports r none e = cc
check_prerequisite_err ports r (some q) e =
    elim (Bool-cases (is_completed q.status && same_place q r)) [
      | inr refused ↦ absurd (cc (rw refused at e))
      | inl fine ↦
          let (a, _, last) = bind_err (artifact_for_row ports q) _ (rw fine at e) (
            stored_artifact_err ports q (present q.result_artifact_path)
              (present q.result_artifact_sha256)) in
          elim (Option-cases a) [
            | inl nothing ↦ absurd (cc (rw nothing at last))
            | inr (_, there) ↦ absurd (cc (rw there at last))
          ]
    ]

either_err :
    {A B : Type 0} (m : Result Failure A) (next : A → Result Failure B)
    → (m >>= next) ≡ err out_of_fuel
    → (m ≡ err out_of_fuel) ⊎ ((a : A) × (next a ≡ err out_of_fuel))
either_err (err x) next h = let e : x ≡ out_of_fuel = cc in inl (ap err e)
either_err (ok a) next h = inr (a, h)

each-err :
    (body : String → Result Failure (Unit {0})) (ids : List String)
    → each body ids ≡ err out_of_fuel
    → (p : String) × (body p ≡ err out_of_fuel)
each-err body [] h = absurd (cc)
each-err body (i ∷ ids) h = elim (either_err (body i) _ h) [
  | inl here ↦ (i, here)
  | inr (_, later) ↦ each-err body ids later
]

module _ (ports : Ports) (db : Db) where
  -- A call that is out of fuel has made one with less, on a stored row.
  call_err :
      (fuel : ℕ) (r : Row) (seen : List String)
      → validate_prerequisites ports db (suc fuel) r seen ≡ err out_of_fuel
      → (elem r.operation_id seen ≡ false)
        × ((q : Row) × (find q.operation_id db.operations ≡ some q)
            × (validate_prerequisites ports db fuel q (r.operation_id ∷ seen) ≡ err out_of_fuel))
  unfolding validate_prerequisites get_workflow_operation
  call_err fuel r seen h = elim (Bool-cases (elem r.operation_id seen)) [
    | inl again ↦ absurd (cc (rw again at h))
    | inr new ↦
        let (ids, _, loop) =
          bind_err (row_prerequisites ports r) _ (rw new at h) (row_prerequisites_err ports r) in
        let (p, body) = each-err _ ids loop in
        elim (Bool-cases (elem p (r.operation_id ∷ seen))) [
          | inl cycle ↦ absurd (cc (rw cycle at body))
          | inr fresh ↦
              let o = find p db.operations in
              let (n, check, deeper) =
                bind_err (check_prerequisite ports r o) _ (rw fresh at body)
                  (check_prerequisite_err ports r o) in
              elim (Option-cases o) [
                | inl nothing ↦
                    absurd (no_row r (ap (check_prerequisite ports r) (sym nothing) ∙ check))
                | inr (q, there) ↦
                    let (_, _, is_n) =
                      check_prerequisite-some ports db r q
                        (ap (check_prerequisite ports r) (sym there) ∙ check) in
                    (
                      new,
                      (
                        q,
                        ap (λ i. find i db.operations) (find-operation_id p db.operations there)
                            ∙ there,
                        ap (λ x. validate_prerequisites ports db fuel x (r.operation_id ∷ seen))
                              is_n
                            ∙ deeper,
                      ),
                    )
              ]
        ]
  ]
    where
      no_row : (r : Row) {n : Row} → check_prerequisite ports r none ≢ ok n
      no_row r e = unfold check_prerequisite in cc

  -- The fuel that a stored row needs.
  stored-fuel :
      (fuel : ℕ) (r : Row) (seen : List String)
      → find r.operation_id db.operations ≡ some r
      → left db seen < fuel
      → validate_prerequisites ports db fuel r seen ≢ err out_of_fuel
  stored-fuel zero r seen there some_fuel h = absurd (omega (arith, some_fuel))
  stored-fuel (suc fuel) r seen there some_fuel h =
      let (new, (q, found, deeper)) = call_err fuel r seen h in
      stored-fuel fuel q (r.operation_id ∷ seen) found
        (omega (arith, some_fuel, left-cons r.operation_id seen db.operations there new)) deeper

-- The validation of a row's prerequisites never runs out of the fuel that the ledger's length gives:
-- it returns or raises, whatever the rows say of each other.
pub validate_prerequisites-enough_fuel :
    (ports : Ports) (db : Db) (r : Row)
    → validate_prerequisites ports db (enough_fuel db) r [] ≢ err out_of_fuel
validate_prerequisites-enough_fuel ports db r h =
    let (new, (q, found, deeper)) = call_err ports db (suc (length db.operations)) r [] h in
    stored-fuel ports db (suc (length db.operations)) q (r.operation_id ∷ []) found
      (omega (arith, sum-unseen-length (r.operation_id ∷ []) db.operations)) deeper
