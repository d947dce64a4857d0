-- ===== src/Tasks/Scheduler/Candidates.antt =====
-- The SELECT of `acquire_next_task` in uta/tasks/storage/scheduler_repository.py: which rows it reads,
-- and in which order.
use unit_test_agent.Prelude.{
  arith, ℕ, zero, suc, ◌+◌, ◌≤◌, ℤ, pos, negsuc, int_leb, int_beq, text_le, text_le_total,
  text_le_trans, Bool, true, false, ◌&&◌, ◌||◌, not, List, [], ◌∷◌, ◌++◌, ◌≡◌, ◌⊎◌, refl, sym, ap,
  ◌∙◌, subst, nat_eq, elem, Bool-cases, inl, inr, All, All-imp, Ordered, sort_by, sort_by-Ordered,
  sum_by, sum_by-sort_by, length, if◌then◌else◌,
}
use unit_test_agent.Tasks.{
  Task, RepoStatus, created, queued, running, stop_requested, stopped, completed, failed, cancelled,
  poisoned, budget_exceeded,
}
use unit_test_agent.Tasks.Finish.{status_beq}
use unit_test_agent.Tasks.Scheduler.{
  ClaimOptions, claimable, is_eligible, eligible_rows, claim_le, first_rows, candidates,
}

int_leb_total : (m n : ℤ) → int_leb m n ≡ false → int_leb n m ≡ true
int_leb_total (pos m) (pos n) h = ground arith
int_leb_total (pos m) (negsuc n) h = refl
int_leb_total (negsuc m) (pos n) h = cc
int_leb_total (negsuc m) (negsuc n) h = ground arith

int_leb_trans : (m n k : ℤ) → int_leb m n ≡ true → int_leb n k ≡ true → int_leb m k ≡ true
int_leb_trans (pos m) (pos n) (pos k) a b = ground arith
int_leb_trans (pos m) (pos n) (negsuc k) a b = cc
int_leb_trans (pos m) (negsuc n) k a b = cc
int_leb_trans (negsuc m) n (pos k) a b = refl
int_leb_trans (negsuc m) (pos n) (negsuc k) a b = cc
int_leb_trans (negsuc m) (negsuc n) (negsuc k) a b = ground arith

-- Equal numbers are those that are at most each other.
int_beq_lem : (m n : ℤ) → int_beq m n ≡ (int_leb m n && int_leb n m)
int_beq_lem (pos m) (pos n) = ground arith
int_beq_lem (pos m) (negsuc n) = refl
int_beq_lem (negsuc m) (pos n) = refl
int_beq_lem (negsuc m) (negsuc n) = ground arith

-- The priority is the smaller number, or it is the same and the row is not the younger one.
abbrev pub Sooner : Task → Task → Type 0
Sooner t u =
    (int_leb t.priority u.priority ≡ true)
    × (int_leb u.priority t.priority ≡ true → text_le t.created_at u.created_at ≡ true)

abbrev pub InTurn : List Task → Type 0
InTurn [] = Unit
InTurn (t ∷ ts) = All (Sooner t) ts × InTurn ts

-- The row waits to be claimed, and is not to be left out.
abbrev pub waits : ClaimOptions → Task → Bool
waits c t =
    (status_beq t.status created
      || status_beq t.status queued
      || (c.include_failed && status_beq t.status failed))
    && not (elem t.id c.exclude_task_ids)

waits-is_eligible : (c : ClaimOptions) (t : Task) → is_eligible c t ≡ waits c t
waits-is_eligible c t =
    ap (λ b. b && not (elem t.id c.exclude_task_ids)) (go c.include_failed t.status)
  where
    go :
        (b : Bool) (s : RepoStatus)
        → claimable b s
          ≡ (status_beq s created || status_beq s queued || (b && status_beq s failed))
    go b created = refl
    go b queued = refl
    go true failed = refl
    go false failed = refl
    go true running = refl
    go false running = refl
    go true stop_requested = refl
    go false stop_requested = refl
    go true stopped = refl
    go false stopped = refl
    go true completed = refl
    go false completed = refl
    go true cancelled = refl
    go false cancelled = refl
    go true poisoned = refl
    go false poisoned = refl
    go true budget_exceeded = refl
    go false budget_exceeded = refl

-- The first 20 of the rows that may be claimed, each as often as in the table, in their turn.
abbrev pub Queue : ClaimOptions → List Task → List Task → Type 0
Queue c ts queue =
    (rest : List Task) × InTurn (queue ++ rest)
    × ((f : Task → ℕ) → sum_by f (queue ++ rest) ≡ sum_by (λ t. if waits c t then f t else 0) ts)
    × (length queue ≤ 20)
    × ((rest ≡ []) ⊎ (length queue ≡ 20))

claim_le-Sooner : (t u : Task) → claim_le t u ≡ true → Sooner t u
claim_le-Sooner t u h =
    (ground arith, λ back. ground (arith, int_beq_lem t.priority u.priority, back))

claim_le_total : (t u : Task) → claim_le t u ≡ false → claim_le u t ≡ true
claim_le_total t u h = ground (
  arith,
  int_beq_lem t.priority u.priority,
  int_beq_lem u.priority t.priority,
  int_leb_total t.priority u.priority,
  text_le_total t.created_at u.created_at,
)

claim_le_trans : (t u v : Task) → claim_le t u ≡ true → claim_le u v ≡ true → claim_le t v ≡ true
claim_le_trans t u v a b = ground (
  arith,
  int_beq_lem t.priority u.priority,
  int_beq_lem u.priority v.priority,
  int_beq_lem t.priority v.priority,
  int_leb_trans t.priority u.priority v.priority,
  int_leb_trans u.priority v.priority t.priority,
  int_leb_trans v.priority t.priority u.priority,
  text_le_trans t.created_at u.created_at v.created_at,
)

in_turn : (ts : List Task) → Ordered claim_le ts → InTurn ts
in_turn [] o = tt
in_turn (t ∷ ts) o = (All-imp ts (λ u h. claim_le-Sooner t u h) o.0, in_turn ts o.1)

sum_by-eligible_rows :
    (f : Task → ℕ) (c : ClaimOptions) (ts : List Task)
    → sum_by f (eligible_rows c ts) ≡ sum_by (λ t. if waits c t then f t else 0) ts
sum_by-eligible_rows f c [] = refl
sum_by-eligible_rows f c (t ∷ ts) = elim (Bool-cases (is_eligible c t)) [
  | inl h ↦
      rw (h, sym (waits-is_eligible c t) ∙ h) (ap (λ n. f t + n) (sum_by-eligible_rows f c ts))
  | inr h ↦ rw (h, sym (waits-is_eligible c t) ∙ h) (omega (arith, sum_by-eligible_rows f c ts))
]

first_rows-split :
    (n : ℕ) (ts : List Task)
    → (rest : List Task) × (first_rows n ts ++ rest ≡ ts)
      × (length (first_rows n ts) ≤ n)
      × ((rest ≡ []) ⊎ (length (first_rows n ts) ≡ n))
first_rows-split zero ts = (ts, refl, omega arith, inr refl)
first_rows-split (suc n) [] = ([], refl, omega arith, inl refl)
first_rows-split (suc n) (t ∷ ts) =
    let (rest, is, few, all) = first_rows-split n ts in
    (
      rest,
      ap (λ us. t ∷ us) is,
      omega (arith, few),
      elim all [ inl none_left ↦ inl none_left | inr full ↦ inr (ap suc full) ],
    )

pub candidates-Queue : (c : ClaimOptions) (ts : List Task) → Queue c ts (candidates c ts)
candidates-Queue c ts =
    let sorted : List Task = sort_by claim_le (eligible_rows c ts) in
    let (rest, is, few, all) = first_rows-split 20 sorted in
    (
      rest,
      subst InTurn (sym is) (
          in_turn sorted
            (sort_by-Ordered claim_le claim_le_total claim_le_trans (eligible_rows c ts))),
      λ f.
          ap (sum_by f) is
          ∙ sum_by-sort_by f claim_le (eligible_rows c ts)
          ∙ sum_by-eligible_rows f c ts,
      few,
      all,
    )
