-- ===== src/Operations/Chain/Ancestors.antt =====
-- What `_validate_prerequisites` of uta/testgen/operations/reconciliation.py has checked.
use unit_test_agent.Prelude.{
  ℕ, String, suc, zero, ◌≡◌, refl, sym, ap, ◌∙◌, true, false, ◌&&◌, some, List, [], ◌∷◌, ◌==◌,
  nat_eq, string_eq, ==_iff, elem, Bool-cases, Option-cases, inl, inr, Result, ok, bind_ok, &&_iff,
  arith,
}
use unit_test_agent.Operations.Table.{Row, Db, Status, started, completed, failed, cancelled}
use unit_test_agent.Operations.Rows.{get_workflow_operation, is_completed, find}
use unit_test_agent.Operations.Envelope.{Failure, Ports}
use unit_test_agent.Operations.Chain.{
  Artifact, row_prerequisites, artifact_for_row, same_place, check_prerequisite, each,
  validate_prerequisites,
}

pub find-operation_id :
    (i : String) (rs : List Row) {q : Row} → find i rs ≡ some q → q.operation_id ≡ i
unfolding find
find-operation_id i [] h = absurd (cc)
find-operation_id i (r ∷ rs) {q} h = elim (Bool-cases (r.operation_id == i)) [
  | inl same ↦
      let e : r ≡ q = cc (rw same at h) in
      ap (λ x. x.operation_id) (sym e) ∙ (==_iff r.operation_id i).0 same
  | inr other ↦ find-operation_id i rs (rw other at h)
]

pub is_completed_lem : (s : Status) → is_completed s ≡ true → s ≡ completed
is_completed_lem completed h = refl
is_completed_lem started h = cc
is_completed_lem failed h = cc
is_completed_lem cancelled h = cc

pub each-ok :
    (body : String → Result Failure (Unit {0})) (ids : List String) (p : String)
    → each body ids ≡ ok tt
    → elem p ids ≡ true
    → body p ≡ ok tt
each-ok body [] p h m = absurd (cc)
each-ok body (i ∷ ids) p h m =
    let (u, first, rest) = bind_ok (body i) _ h in
    elim (Bool-cases (i == p)) [
      | inl same ↦ let e = (==_iff i p).0 same in cc
      | inr other ↦ each-ok body ids p rest (ground (arith, other, m))
    ]

module _ (ports : Ports) (db : Db) where
  -- A row that is stored under one of the prerequisites of a row.
  pub record Needs (r q : Row) : Type 0 where
    pub ids : List String
    pub id : String
    pub listed : row_prerequisites ports r ≡ ok ids
    pub among : elem id ids ≡ true
    pub found : get_workflow_operation id db ≡ some q

  pub data Ancestor : Row → Row → Type 0 where
    parent : (r q : Row) → Needs r q → Ancestor r q
    beyond : (r q s : Row) → Needs r q → Ancestor q s → Ancestor r s

  -- A completed row of the same task, run and unit, whose artifact is there and agrees with it, and
  -- whose id is none of those on the way to it.
  pub record Sound (seen : List String) (r q : Row) : Type 0 where
    pub is_complete : q.status ≡ completed
    pub same_task : q.repo_task_id ≡ r.repo_task_id
    pub same_run : q.workflow_run_id ≡ r.workflow_run_id
    pub same_unit : q.unit_id ≡ r.unit_id
    pub artifact : Artifact
    pub has_artifact : artifact_for_row ports q ≡ ok (some artifact)
    pub unseen : elem q.operation_id (r.operation_id ∷ seen) ≡ false

  pub check_prerequisite-some :
      (r q : Row) {n : Row}
      → check_prerequisite ports r (some q) ≡ ok n
      → ((is_completed q.status ≡ true) × (same_place q r ≡ true))
        × ((a : Artifact) × (artifact_for_row ports q ≡ ok (some a)))
        × (q ≡ n)
  unfolding check_prerequisite
  check_prerequisite-some r q {n} h = elim (Bool-cases (is_completed q.status && same_place q r)) [
    | inr refused ↦ absurd (cc (rw refused at h))
    | inl fine ↦
        let (a, e, last) = bind_ok (artifact_for_row ports q) _ (rw fine at h) in
        elim (Option-cases a) [
          | inl nothing ↦ absurd (cc (rw nothing at last))
          | inr (found, there) ↦ (
            (&&_iff (is_completed q.status) (same_place q r)).0 fine,
            (found, e ∙ ap ok there),
            cc (rw there at last),
          )
        ]
  ]

  -- What the loop has done for one prerequisite.
  validated :
      (fuel : ℕ) (r q : Row) (seen : List String)
      → validate_prerequisites ports db fuel r seen ≡ ok tt
      → Needs r q
      → Sound seen r q
        × ((less : ℕ) × (validate_prerequisites ports db less q (r.operation_id ∷ seen) ≡ ok tt))
  unfolding validate_prerequisites get_workflow_operation
  validated zero r q seen h n = absurd (cc)
  validated (suc fuel) r q seen h n = elim (Bool-cases (elem r.operation_id seen)) [
    | inl again ↦ absurd (cc (rw again at h))
    | inr once ↦
        let (ids, list, loop) = bind_ok (row_prerequisites ports r) _ (rw once at h) in
        let same_ids : ids ≡ n.ids = cc (n.listed) in
        let body = each-ok _ ids n.id loop (rw same_ids n.among) in
        elim (Bool-cases (elem n.id (r.operation_id ∷ seen))) [
          | inl cycle ↦ absurd (cc (rw cycle at body))
          | inr new ↦
              let (m, check, deeper) =
                bind_ok (check_prerequisite ports r (find n.id db.operations)) _ (rw new at body) in
              let ((done, place), (a, there), is_m) =
                check_prerequisite-some r q
                  (ap (check_prerequisite ports r) (sym n.found) ∙ check) in
              (
                record {
                  is_complete = is_completed_lem q.status done;
                  same_task = ground (arith, ==_iff q.repo_task_id r.repo_task_id, place);
                  same_run = ground (arith, ==_iff q.workflow_run_id r.workflow_run_id, place);
                  same_unit = ground (arith, ==_iff q.unit_id r.unit_id, place);
                  artifact = a;
                  has_artifact = there;
                  unseen =
                      ap (λ i. elem i (r.operation_id ∷ seen))
                        (find-operation_id n.id db.operations n.found)
                      ∙ new;
                },
                (
                  fuel,
                  ap (λ x. validate_prerequisites ports db fuel x (r.operation_id ∷ seen)) is_m
                      ∙ deeper,
                ),
              )
        ]
  ]

  Ancestor-Sound :
      (fuel : ℕ) (r q : Row) (seen : List String)
      → validate_prerequisites ports db fuel r seen ≡ ok tt
      → Ancestor r q
      → Sound seen r q
  Ancestor-Sound fuel r q seen h (parent _ _ n) = (validated fuel r q seen h n).0
  Ancestor-Sound fuel r s seen h (beyond _ q _ n more) =
      let (first, (less, deeper)) = validated fuel r q seen h n in
      let last = Ancestor-Sound less q s (r.operation_id ∷ seen) deeper more in
      record {
        is_complete = last.is_complete;
        same_task = last.same_task ∙ first.same_task;
        same_run = last.same_run ∙ first.same_run;
        same_unit = last.same_unit ∙ first.same_unit;
        artifact = last.artifact;
        has_artifact = last.has_artifact;
        unseen = ground (arith, last.unseen);
      }

-- When the validation of a row's prerequisites returns, each ancestor of the row, at any depth, is
-- completed, belongs to the row's task, run and unit, has an artifact that agrees with it, and is not
-- the row itself.
pub validate_prerequisites-Sound :
    (ports : Ports) (db : Db) (fuel : ℕ) (r q : Row)
    → validate_prerequisites ports db fuel r [] ≡ ok tt
    → Ancestor ports db r q
    → Sound ports db [] r q
validate_prerequisites-Sound ports db fuel r q h a = Ancestor-Sound ports db fuel r q [] h a
