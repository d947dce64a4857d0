-- ===== src/Operations/Rows/Keeping.antt =====
-- What a write to one row and an insertion leave of a row of the ledger.
use unit_test_agent.Prelude.{
  String, ◌≡◌, ◌≢◌, refl, ap, ◌∙◌, Bool, true, false, some, if◌then◌else◌, ◌==◌, string_eq, ==_iff,
  Bool-cases, inl, inr, Result, ok, err, ◌>>=◌,
}
use unit_test_agent.Operations.Rows.{
  Row, Db, Refusal, conflict, Status, started, completed, Claim, find, modify, insert, new_row,
  close_crashed, superseded_row,
}
use unit_test_agent.Operations.Rows.Lookup.{
  KeepsId, find-modify_self, find-modify_ne, find-append, insert-ok,
}

-- The row is the same but for its successor and the time of its last update.
abbrev pub Keeps : Row → Row → Type 0
Keeps r s = s ≡ record r {
  superseded_by_operation_id = s.superseded_by_operation_id;
  updated_at = s.updated_at;
}

abbrev pub Holds : String → Row → Db → Type 0
Holds i r db = (s : Row) × (find i db.operations ≡ some s) × Keeps r s

pub Keeps-superseded_row :
    (r s : Row) (successor now : String) → Keeps r s → Keeps r (superseded_row successor now s)
Keeps-superseded_row r s successor now same = ap (superseded_row successor now) same

pub close_crashed-id :
    (t : Status) (kind now : String) (q : Row) → t ≢ started → close_crashed t kind now q ≡ q
close_crashed-id started kind now q h = absurd (h refl)
close_crashed-id completed kind now q h = refl
close_crashed-id _ kind now q h = refl

pub close_crashed-KeepsId : (t : Status) (kind now : String) → KeepsId (close_crashed t kind now)
close_crashed-KeepsId started kind now q = refl
close_crashed-KeepsId _ kind now q = refl

-- A transaction that only reads.
pub reads :
    (b : Bool) (r : Row) (db : Db) {n : Row} {db' : Db}
    → if◌then◌else◌ {A = Result Refusal (Row × Db)} b (ok (r, db)) (err conflict) ≡ ok (n, db')
    → db ≡ db'
reads true r db h = cc
reads false r db h = absurd (cc)

pub follows :
    (b : Bool) (m : Result Refusal Row) (db : Db) {n : Row} {db' : Db}
    → if◌then◌else◌ {A = Result Refusal (Row × Db)} b (m >>= λ s. ok (s, db)) (err conflict)
      ≡ ok (n, db')
    → db ≡ db'
follows true (ok s) db h = cc
follows true (err x) db h = absurd (cc)
follows false m db h = absurd (cc)

module _ (i : String) (r : Row) where
  pub Holds-modify :
      (j : String) (f : Row → Row) (db : Db)
      → KeepsId f
      → ((s : Row) → find j db.operations ≡ some s → Keeps r s → Keeps r (f s))
      → Holds i r db
      → Holds i r (record db { operations = modify j f db.operations })
  Holds-modify j f db k step (s, found, same) = elim (Bool-cases (j == i)) [
    | inr other ↦ (s, find-modify_ne j i f db.operations k other ∙ found, same)
    | inl self ↦
        let e = (==_iff j i).0 self in
        (f s, rw e (find-modify_self i f db.operations s k found), step s (rw e found) same)
  ]

  pub Holds-insert :
      (c : Claim) (now : String) (db : Db) {n : Row} {db' : Db}
      → insert c now db ≡ ok (n, db')
      → Holds i r db
      → Holds i r db'
  Holds-insert c now db {n} {db'} h (s, found, same) =
      let (_, _, _, e) = insert-ok c now db h in
      (s, rw (e, find-append i db.operations (new_row c now), found) refl, same)
