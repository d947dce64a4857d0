-- ===== src/Tasks/Rerun/Counts.antt =====
-- The counters of a task after a clean rerun: `_replace_keys_and_requeue` and `_queue_task` of
-- uta/tasks/workflow_rerun.py.
use unit_test_agent.Prelude.{
  arith, ℕ, ◌+◌, String, Bool, true, false, Option, none, some, List, [], ◌∷◌, map, ◌≡◌, refl, ap,
  ◌∙◌, subst, ◌==◌, nat_eq, ==_iff, elem, Distinct, Bool-cases, inl, inr, All, All-sort_by, sum_by,
  sum_by-sort_by, sort_by, insert_by, int_leb, Result, ok, err, ◌>>=◌, bind_ok, if◌then◌else◌,
}
use unit_test_agent.Tasks.{Db, ClassTask, ClassStatus, Refusal, key_error}
use unit_test_agent.Tasks.Store.{find_class, modify_class, classes_of, class_count, passed}
use unit_test_agent.Tasks.Tables.{find_row, modify_row}
use unit_test_agent.Tasks.Tables.Unique.{find_row-own}
use unit_test_agent.Tasks.Recovery.{Force, resumable}
use unit_test_agent.Tasks.Rerun.{
  unit_by_class, rekeyed, new_status, replace_keys, rows_of, status_count,
}

abbrev pub class_ids : List ClassTask → List ℕ
class_ids = map (λ c. c.id)

-- A row of the table that belongs to the task.
abbrev Own : ℕ → Db → ClassTask → Type 0
Own i db c = (find_class c.id db ≡ some c) × (c.repo_task_id ≡ i)

All-classes_of :
    (P : ClassTask → Type 0) (i : ℕ) (cs : List ClassTask)
    → All P cs
    → All (λ c. P c × (c.repo_task_id ≡ i)) (classes_of i cs)
All-classes_of P i [] all = tt
All-classes_of P i (c ∷ cs) all = elim (Bool-cases (c.repo_task_id == i)) [
  | inl h ↦ rw h ((all.0, (==_iff c.repo_task_id i).0 h), All-classes_of P i cs all.1)
  | inr h ↦ rw h (All-classes_of P i cs all.1)
]

elem-classes_of :
    (j i : ℕ) (cs : List ClassTask)
    → elem j (class_ids cs) ≡ false
    → elem j (class_ids (classes_of i cs)) ≡ false
elem-classes_of j i [] h = refl
elem-classes_of j i (c ∷ cs) h = elim (Bool-cases (c.repo_task_id == i)) [
  | inl own ↦ rw own (ground (arith, elem-classes_of j i cs))
  | inr other ↦ rw other (elem-classes_of j i cs (ground arith))
]

classes_of-Distinct :
    (i : ℕ) (cs : List ClassTask) → Distinct (class_ids cs) → Distinct (class_ids (classes_of i cs))
classes_of-Distinct i [] d = tt
classes_of-Distinct i (c ∷ cs) d = elim (Bool-cases (c.repo_task_id == i)) [
  | inl own ↦ rw own (elem-classes_of c.id i cs d.0, classes_of-Distinct i cs d.1)
  | inr other ↦ rw other (classes_of-Distinct i cs d.1)
]

module _ (le : ClassTask → ClassTask → Bool) where
  elem-insert_by :
      (j : ℕ) (x : ClassTask) (ys : List ClassTask)
      → (x.id == j) ≡ false
      → elem j (class_ids ys) ≡ false
      → elem j (class_ids (insert_by le x ys)) ≡ false
  elem-insert_by j x [] a b = ground arith
  elem-insert_by j x (y ∷ ys) a b = elim (Bool-cases (le x y)) [
    | inl h ↦ rw h (ground arith)
    | inr h ↦ rw h (ground (arith, elem-insert_by j x ys a))
  ]

  insert_by-Distinct :
      (x : ClassTask) (ys : List ClassTask)
      → elem x.id (class_ids ys) ≡ false
      → Distinct (class_ids ys)
      → Distinct (class_ids (insert_by le x ys))
  insert_by-Distinct x [] out d = (refl, tt)
  insert_by-Distinct x (y ∷ ys) out d = elim (Bool-cases (le x y)) [
    | inl h ↦ rw h (out, d)
    | inr h ↦ rw h (
      elem-insert_by y.id x ys (ground (arith, ==_iff x.id y.id, ==_iff y.id x.id)) d.0,
      insert_by-Distinct x ys (ground arith) d.1,
    )
  ]

  elem-sort_by :
      (j : ℕ) (xs : List ClassTask)
      → elem j (class_ids xs) ≡ false
      → elem j (class_ids (sort_by le xs)) ≡ false
  elem-sort_by j [] h = refl
  elem-sort_by j (x ∷ xs) h =
      elem-insert_by j x (sort_by le xs) (ground arith) (elem-sort_by j xs (ground arith))

  sort_by-Distinct :
      (xs : List ClassTask) → Distinct (class_ids xs) → Distinct (class_ids (sort_by le xs))
  sort_by-Distinct [] d = tt
  sort_by-Distinct (x ∷ xs) d =
      insert_by-Distinct x (sort_by le xs) (elem-sort_by x.id xs d.0) (sort_by-Distinct xs d.1)

-- A row under another id stays.
find_row-other :
    (i j : ℕ) (f : ClassTask → ClassTask) (xs : List ClassTask)
    → ((c : ClassTask) → (f c).id ≡ c.id)
    → (i == j) ≡ false
    → find_row (λ c. c.id) j (modify_row (λ c. c.id) i f xs) ≡ find_row (λ c. c.id) j xs
find_row-other i j f [] k other = refl
find_row-other i j f (x ∷ xs) k other = elim (Bool-cases (x.id == i)) [
  | inl same ↦
      (let no : (x.id == j) ≡ false = rw ((==_iff x.id i).0 same) other in rw (same, k x, no) refl)
  | inr diff ↦ elim (Bool-cases (x.id == j)) [
    | inl here ↦ rw (diff, here) refl
    | inr there ↦ rw (diff, there) (find_row-other i j f xs k other)
  ]
]

rekeyed-id :
    (force : Force) (now run unit : String) (c : ClassTask)
    → ((rekeyed force now run unit c).id ≡ c.id)
      × ((rekeyed force now run unit c).repo_task_id ≡ c.repo_task_id)
      × ((rekeyed force now run unit c).status ≡ new_status force c)
rekeyed-id force now run unit c = elim (Bool-cases (resumable force c.status)) [
  | inl h ↦ rw h (refl, refl, refl)
  | inr h ↦ rw h (refl, refl, refl)
]

module _ (i : ℕ) (w : ClassTask → ℕ) where
  -- The sum over the classes of a task, when one of them changes.
  sum_by-modify_row :
      (c : ClassTask) (f : ClassTask → ClassTask) (cs : List ClassTask)
      → ((d : ClassTask) → (f d).repo_task_id ≡ d.repo_task_id)
      → find_row (λ d. d.id) c.id cs ≡ some c
      → c.repo_task_id ≡ i
      → sum_by w (classes_of i (modify_row (λ d. d.id) c.id f cs)) + w c
        ≡ sum_by w (classes_of i cs) + w (f c)
  sum_by-modify_row c f [] k found own = cc
  sum_by-modify_row c f (x ∷ xs) k found own = elim (Bool-cases (x.id == c.id)) [
    | inl same ↦
        let e : x ≡ c = ground arith in
        let mine : (x.repo_task_id == i) ≡ true =
          (==_iff x.repo_task_id i).1 (ap (λ d. d.repo_task_id) e ∙ own) in
        let fmine : ((f x).repo_task_id == i) ≡ true = rw (k x) mine in
        let a : w x ≡ w c = ap w e in
        let b : w (f x) ≡ w (f c) = ap (λ d. w (f d)) e in
        rw (same, fmine, mine) (omega (arith, a, b))
    | inr other ↦
        let rest = sum_by-modify_row c f xs k (ground arith) own in
        elim (Bool-cases (x.repo_task_id == i)) [
          | inl mine ↦ rw (other, mine) (omega (arith, rest))
          | inr not_mine ↦ rw (other, not_mine) rest
        ]
  ]

-- The rest of the rows after the update of one.
Own-rest :
    (i : ℕ) (c : ClassTask) (f : ClassTask → ClassTask) (cs : List ClassTask) (db : Db)
    → ((d : ClassTask) → (f d).id ≡ d.id)
    → elem c.id (class_ids cs) ≡ false
    → All (Own i db) cs
    → All (Own i (modify_class c.id f db)) cs
Own-rest i c f [] db k out own = tt
Own-rest i c f (d ∷ ds) db k out own =
    let other : (c.id == d.id) ≡ false = ground (arith, ==_iff c.id d.id, ==_iff d.id c.id) in
    (
      (find_row-other c.id d.id f db.classes k other ∙ own.0.0, own.0.1),
      Own-rest i c f ds db k (ground arith) own.1,
    )

module _ (force : Force) (now run : String) (units : List (String × List ClassTask)) (i : ℕ)
    (p : ClassStatus → Bool) where
  abbrev weight : ClassTask → ℕ
  weight c = if p c.status then 1 else 0

  -- What the loop does to the sum over the classes, and that it leaves the tasks.
  abbrev Moved : List ClassTask → Db → List ClassStatus × Db → Type 0
  Moved cs db r =
      (sum_by weight (classes_of i r.1.classes) + sum_by weight cs
        ≡ sum_by weight (classes_of i db.classes) + status_count p r.0)
      × (r.1.tasks ≡ db.tasks)

  replace_one :
      (c : ClassTask) (cs : List ClassTask) (unit : String) (db : Db) (a : List ClassStatus × Db)
      → Own i db c
      → Moved cs (modify_class c.id (rekeyed force now run unit) db) a
      → Moved (c ∷ cs) db (new_status force c ∷ a.0, a.1)
  replace_one c cs unit db a own (sums, tasks) =
      let kept = λ (d : ClassTask). rekeyed-id force now run unit d in
      let one =
        sum_by-modify_row i weight c (rekeyed force now run unit) db.classes (λ d. (kept d).1) own.0
          own.1 in
      let new : weight (rekeyed force now run unit c) ≡ (if p (new_status force c) then 1 else 0) =
        ap (λ s. if p s then 1 else 0) (kept c).2 in
      (omega (arith, sums, one, new), tasks)

  replace_keys-Moved :
      (cs : List ClassTask) (db : Db) (r : List ClassStatus × Db)
      → All (Own i db) cs
      → Distinct (class_ids cs)
      → replace_keys force now run units cs db ≡ ok r
      → Moved cs db r
  unfolding replace_keys
  replace_keys-Moved [] db r own d h =
      let same : ([], db) ≡ r = cc in subst (Moved [] db) same (omega arith, refl)
  replace_keys-Moved (c ∷ cs) db r own d h =
      go
        (λ unit a.
          replace_keys-Moved cs (modify_class c.id (rekeyed force now run unit) db) a
            (Own-rest i c (rekeyed force now run unit) cs db
              (λ x. (rekeyed-id force now run unit x).0) d.0 own.1)
            d.1)
        (unit_by_class c.id units) h
    where
      go :
          ((unit : String) (a : List ClassStatus × Db)
            → replace_keys force now run units cs
                (modify_class c.id (rekeyed force now run unit) db)
              ≡ ok a
            → Moved cs (modify_class c.id (rekeyed force now run unit) db) a)
          → (o : Option String)
          → elim o as (λ _. Result Refusal (List ClassStatus × Db)) [
            | none ↦ err key_error
            | some unit ↦
                replace_keys force now run units cs
                  (modify_class c.id (rekeyed force now run unit) db)
                >>= λ a. ok (new_status force c ∷ a.0, a.1)
          ]
            ≡ ok r
          → Moved (c ∷ cs) db r
      go ih none h = cc
      go ih (some unit) h =
          let (a, done, last) =
            bind_ok
              (replace_keys force now run units cs
                (modify_class c.id (rekeyed force now run unit) db))
              _ h in
          let same : (new_status force c ∷ a.0, a.1) ≡ r = cc in
          subst (Moved (c ∷ cs) db) same (replace_one c cs unit db a own.0 (ih unit a done))

-- The rows that are read are rows of the table, each once.
rows_of-Own :
    (i : ℕ) (db : Db)
    → Distinct (class_ids db.classes)
    → All (Own i db) (rows_of i db) × Distinct (class_ids (rows_of i db))
rows_of-Own i db d = (
  All-sort_by (Own i db) (λ c d. int_leb c.priority d.priority) (classes_of i db.classes)
      (All-classes_of (λ c. find_class c.id db ≡ some c) i db.classes
        (find_row-own (λ c. c.id) db.classes d)),
  sort_by-Distinct (λ c d. int_leb c.priority d.priority) (classes_of i db.classes)
      (classes_of-Distinct i db.classes d),
)

-- The statuses that the loop collects are those of the table afterwards.
pub counted :
    (force : Force) (now run : String) (units : List (String × List ClassTask)) (i : ℕ) (db : Db)
    (r : List ClassStatus × Db)
    → Distinct (class_ids db.classes)
    → replace_keys force now run units (rows_of i db) db ≡ ok r
    → (p : ClassStatus → Bool) → class_count p (classes_of i r.1.classes) ≡ status_count p r.0
counted force now run units i db r d h p =
    let rows = rows_of-Own i db d in
    let moved = replace_keys-Moved force now run units i p (rows_of i db) db r rows.0 rows.1 h in
    let all =
      sum_by-sort_by (λ c. if p c.status then 1 else 0) (λ c d. int_leb c.priority d.priority)
        (classes_of i db.classes) in
    omega (arith, moved.0, all)

-- The tasks are left by the loop.
pub tasks-replace_keys :
    (force : Force) (now run : String) (units : List (String × List ClassTask)) (i : ℕ) (db : Db)
    (r : List ClassStatus × Db)
    → Distinct (class_ids db.classes)
    → replace_keys force now run units (rows_of i db) db ≡ ok r
    → r.1.tasks ≡ db.tasks
tasks-replace_keys force now run units i db r d h =
    let rows = rows_of-Own i db d in
    (replace_keys-Moved force now run units i passed (rows_of i db) db r rows.0 rows.1 h).1
