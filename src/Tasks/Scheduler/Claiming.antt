-- ===== src/Tasks/Scheduler/Claiming.antt =====
-- Which row `acquire_next_task` of uta/tasks/storage/scheduler_repository.py claims.
use unit_test_agent.Prelude.{
  ℕ, zero, suc, Bool, true, false, Option, none, some, List, [], ◌∷◌, ◌++◌, nat_eq, ◌≡◌, refl, ap,
  All, All-sort_by, sort_by, Bool-cases, inl, inr, Result, ok, err,
}
use unit_test_agent.Tasks.{Env, Db, Task, Refusal}
use unit_test_agent.Tasks.Actions.{and_then}
use unit_test_agent.Tasks.Engine.{require_durable_generation_task}
use unit_test_agent.Tasks.Store.{find_task, modify_task}
use unit_test_agent.Tasks.Tables.Frames.{find_row-modify_row}
use unit_test_agent.Tasks.Scheduler.{
  ClaimOptions, is_eligible, eligible_rows, claim_le, first_rows, candidates, is_held_back,
  claimed_row, claim_row, claim_first, acquire_next_task,
}

module _ (P : Task → Type 0) (c : ClaimOptions) where
  All-eligible_rows : (ts : List Task) → All P ts → All P (eligible_rows c ts)
  All-eligible_rows [] all = tt
  All-eligible_rows (t ∷ ts) all = elim (Bool-cases (is_eligible c t)) [
    | inl h ↦ rw h (all.0, All-eligible_rows ts all.1)
    | inr h ↦ rw h (All-eligible_rows ts all.1)
  ]

  All-first_rows : (n : ℕ) (ts : List Task) → All P ts → All P (first_rows n ts)
  All-first_rows zero ts all = tt
  All-first_rows (suc n) [] all = tt
  All-first_rows (suc n) (t ∷ ts) all = (all.0, All-first_rows n ts all.1)

  -- The candidates are rows of the table.
  pub All-candidates : (ts : List Task) → All P ts → All P (candidates c ts)
  All-candidates ts all =
      All-first_rows 20 (sort_by claim_le (eligible_rows c ts))
        (All-sort_by P claim_le (eligible_rows c ts) (All-eligible_rows ts all))

-- The candidates are is_eligible.
pub candidates-is_eligible :
    (c : ClaimOptions) (ts : List Task) → All (λ t. is_eligible c t ≡ true) (candidates c ts)
candidates-is_eligible c ts =
    All-first_rows (λ t. is_eligible c t ≡ true) c 20 (sort_by claim_le (eligible_rows c ts))
      (All-sort_by (λ t. is_eligible c t ≡ true) claim_le (eligible_rows c ts) (go ts))
  where
    go : (ts : List Task) → All (λ t. is_eligible c t ≡ true) (eligible_rows c ts)
    go [] = tt
    go (t ∷ ts) = elim (Bool-cases (is_eligible c t)) [
      | inl h ↦ rw h (h, go ts)
      | inr h ↦ rw h (go ts)
    ]

module _ (env : Env) (c : ClaimOptions) (db : Db) where
  -- A row that is passed over.
  abbrev pub Waits : Task → Type 0
  Waits t = (require_durable_generation_task env t ≡ ok tt) × (is_held_back env c t db ≡ true)

  -- The first row that nothing holds back.
  abbrev pub First : List Task → Task → Type 0
  First ts t =
      (before : List Task) × (after : List Task) × (ts ≡ before ++ t ∷ after)
      × All Waits before
      × (require_durable_generation_task env t ≡ ok tt)
      × (is_held_back env c t db ≡ false)

  -- What a pass over the rows comes to: no row, the first row that is free, or an exception at a
  -- row whose snapshot is refused, before any write.
  abbrev pub Chosen : List Task → Result Refusal (Option Task) → Db → Type 0
  Chosen ts (ok none) db' = (db' ≡ db) × All Waits ts
  Chosen ts (ok (some row)) db' =
      (t : Task) × First ts t
      × (row ≡ claimed_row env t)
      × (db' ≡ modify_task t.id (claimed_row env) db)
  Chosen ts (err e) db' =
      (db' ≡ db)
      × (before : List Task) × (t : Task) × (after : List Task) × (ts ≡ before ++ t ∷ after)
      × All Waits before
      × (require_durable_generation_task env t ≡ err e)

  behind :
      (t : Task) (ts : List Task) (r : Result Refusal (Option Task)) (db' : Db)
      → Waits t
      → Chosen ts r db'
      → Chosen (t ∷ ts) r db'
  behind t ts (ok none) db' w (same, all) = (same, (w, all))
  behind t ts (ok (some row)) db' w (u, (b, a, e, all, req, free), is, after) =
      (u, (t ∷ b, a, ap (λ us. t ∷ us) e, (w, all), req, free), is, after)
  behind t ts (err x) db' w (same, b, u, a, e, all, req) =
      (same, t ∷ b, u, a, ap (λ us. t ∷ us) e, (w, all), req)

  claim_first-Chosen :
      (ts : List Task)
      → All (λ t. find_task t.id db ≡ some t) ts
      → Chosen ts (claim_first env c ts db).0 (claim_first env c ts db).1
  unfolding claim_first claim_row
  claim_first-Chosen [] own = (refl, tt)
  claim_first-Chosen (t ∷ ts) own =
      go (claim_first-Chosen ts own.1) (require_durable_generation_task env t)
        (is_held_back env c t db) refl refl
    where
      go :
          Chosen ts (claim_first env c ts db).0 (claim_first env c ts db).1
          → (r : Result Refusal (Unit {0})) (held : Bool)
          → require_durable_generation_task env t ≡ r
          → is_held_back env c t db ≡ held
          → Chosen
              (t ∷ ts)
              (and_then r (λ _. claim_row env held t (claim_first env c ts)) db).0
              (and_then r (λ _. claim_row env held t (claim_first env c ts)) db).1
      go rest (err x) held e f = (refl, [], t, ts, refl, tt, e)
      go rest (ok _) true e f =
          behind t ts (claim_first env c ts db).0 (claim_first env c ts db).1 (e, f) rest
      go rest (ok _) false e f =
          rw (find_row-modify_row (λ u. u.id) t.id (claimed_row env) db.tasks (λ u. refl) own.0)
            (t, ([], ts, refl, tt, e, f), refl, refl)

-- `acquire_next_task` passes over the candidates in the order of their priority and age, at most 20,
-- as long as their repository is occupied, and claims the first that is free; a candidate whose
-- snapshot is refused ends the call before any write, where no free one stands in front of it.
pub acquire_next_task-Chosen :
    (env : Env) (c : ClaimOptions) (db : Db)
    → All (λ t. find_task t.id db ≡ some t) db.tasks
    → Chosen env c db
        (candidates c db.tasks)
        (acquire_next_task env c db).0
        (acquire_next_task env c db).1
unfolding acquire_next_task
acquire_next_task-Chosen env c db own =
    claim_first-Chosen env c db (candidates c db.tasks)
      (All-candidates (λ t. find_task t.id db ≡ some t) c db.tasks own)
