-- ===== src/Operations/Rows/Lookup.antt =====
-- Reading a row by its id after the writes of uta/tasks/storage/operation_repository.py.
use unit_test_agent.Prelude.{
  String, ◌≡◌, refl, true, false, Option, none, some, List, [], ◌∷◌, ◌++◌, arith, if◌then◌else◌,
  ◌==◌, string_eq, ==_iff, ==_refl, Bool-cases, inl, inr, elem, nat_eq, ok,
}
use unit_test_agent.Operations.Rows.{Row, Db, Claim, find, modify, insert, new_row, require, write}

abbrev pub map_row : (Row → Row) → Option Row → Option Row
map_row f none = none
map_row f (some r) = some (f r)

-- A write that leaves the id alone.
abbrev pub KeepsId : (Row → Row) → Type 0
KeepsId f = (r : Row) → (f r).operation_id ≡ r.operation_id

pub operation_id-find :
    (i : String) (rs : List Row) {r : Row} → find i rs ≡ some r → r.operation_id ≡ i
unfolding find
operation_id-find i [] h = cc
operation_id-find i (r ∷ rs) h = elim (Bool-cases (r.operation_id == i)) [
  | inl same ↦ ground (arith, ==_iff r.operation_id i)
  | inr other ↦ operation_id-find i rs (rw other at h)
]

pub find-modify :
    (i j : String) (f : Row → Row) (rs : List Row)
    → KeepsId f
    → find j (modify i f rs) ≡ (if i == j then map_row f (find j rs) else find j rs)
unfolding find modify
find-modify i j f [] k = ground arith
find-modify i j f (r ∷ rs) k = ground (
  arith,
  find-modify i j f rs k,
  k r,
  ==_iff i j,
  ==_iff r.operation_id i,
  ==_iff r.operation_id j,
  ==_iff (f r).operation_id j,
)

pub find-append :
    (j : String) (rs : List Row) (r : Row)
    → find j (rs ++ r ∷ [])
      ≡ elim (find j rs) [ some s ↦ some s | none ↦ if r.operation_id == j then some r else none ]
unfolding find
find-append j [] r = refl
find-append j (s ∷ rs) r = ground (arith, find-append j rs r)

pub find-modify_self :
    (i : String) (f : Row → Row) (rs : List Row) (r : Row)
    → KeepsId f
    → find i rs ≡ some r
    → find i (modify i f rs) ≡ some (f r)
find-modify_self i f rs r k found = rw (find-modify i i f rs k, ==_refl i, found)

pub find-modify_ne :
    (i j : String) (f : Row → Row) (rs : List Row)
    → KeepsId f
    → (i == j) ≡ false
    → find j (modify i f rs) ≡ find j rs
find-modify_ne i j f rs k other = rw (find-modify i j f rs k, other)

pub require_found :
    (i : String) (db : Db) {r : Row} → require i db ≡ ok r → find i db.operations ≡ some r
unfolding require
require_found i db h = ground arith

pub require-some :
    (i : String) (db : Db) {r : Row} → find i db.operations ≡ some r → require i db ≡ ok r
unfolding require
require-some i db h = rw (h, require)

-- A write to a row that is there returns the written row.
pub write_found :
    (i : String) (f : Row → Row) (db : Db) (r : Row)
    → KeepsId f
    → find i db.operations ≡ some r
    → write i f db ≡ ok (f r, record db { operations = modify i f db.operations })
unfolding write
write_found i f db r k found =
    let e = find-modify_self i f db.operations r k found in
    let written : Db = record db { operations = modify i f db.operations } in
    rw (require-some i written e)

-- What an insertion that succeeds has checked, and what it wrote.
pub insert-ok :
    (c : Claim) (now : String) (db : Db) {r : Row} {db' : Db}
    → insert c now db ≡ ok (r, db')
    → (find c.operation_id db.operations ≡ none)
      × (elem c.repo_task_id db.task_ids ≡ true)
      × (r ≡ new_row c now)
      × (db' ≡ record db { operations = db.operations ++ new_row c now ∷ [] })
unfolding insert
insert-ok c now db h = ground arith
