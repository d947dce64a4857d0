-- ===== src/Tasks/Requests/Locks.antt =====
-- Repositories as locks: what `acquire_next_task` of uta/tasks/storage/scheduler_repository.py promises
-- without a word of rows, statuses or the order in which a row is updated.
use unit_test_agent.Prelude.{
  arith, String, Bool, true, false, ◌&&◌, ◌||◌, Option, none, some, List, [], ◌∷◌, ◌++◌, map,
  Result, ok, err, ◌≡◌, refl, sym, ap, ◌∙◌, subst, All, All-middle, any, ◌==◌, nat_eq, string_eq,
  ==_iff, Bool-cases, inl, inr, if◌then◌else◌,
}
use unit_test_agent.Tasks.{
  Env, Db, Task, Refusal, RepoStatus, created, queued, running, stop_requested, stopped, completed,
  failed, cancelled, poisoned, budget_exceeded,
}
use unit_test_agent.Tasks.Store.{find_task}
use unit_test_agent.Tasks.Tables.{find_row, modify_row}
use unit_test_agent.Tasks.Scheduler.{
  ClaimOptions, is_eligible, claimable, candidates, occupies, rival, claimed_row, is_held_back,
  acquire_next_task,
}
use unit_test_agent.Tasks.Finish.{status_beq}
use unit_test_agent.Tasks.Scheduler.Turns.{occupies_lem}
use unit_test_agent.Tasks.Scheduler.Claiming.{
  Waits, Chosen, All-candidates, candidates-is_eligible, acquire_next_task-Chosen,
}
use unit_test_agent.Tasks.Requests.Ids.{HasIds, HasIds-own}

-- Which repositories are taken.
abbrev pub Locks : Type 0
Locks = String → Bool

-- The first wish that is free.
abbrev pub first_free : Locks → List String → Option String
first_free l [] = none
first_free l (r ∷ rs) = if l r then first_free l rs else some r

abbrev pub lock : Option String → Locks → Locks
lock none l s = l s
lock (some r) l s = l s || s == r

-- The abstract operation: the first wish that is free is granted and locked. A refusal locks
-- nothing.
abbrev pub Grants :
    {A : Type 0} → (A → String) → Locks → List String → Result Refusal (Option A) → Locks → Type 0
Grants name l rs (ok none) l' = (first_free l rs ≡ none) × ((s : String) → l' s ≡ l s)
Grants name l rs (ok (some a)) l' =
    (first_free l rs ≡ some (name a)) × ((s : String) → l' s ≡ lock (some (name a)) l s)
Grants name l rs (err e) l' = (s : String) → l' s ≡ l s

abbrev pub on_repo : String → Task → Bool
on_repo s u =
    u.repo_path == s && (status_beq u.status running || status_beq u.status stop_requested)

-- The table as locks: a task that runs, or is asked to stop, occupies its repository.
abbrev pub locked : Db → Locks
locked db s = any (on_repo s) db.tasks

abbrev pub repo_paths : List Task → List String
repo_paths = map (λ t. t.repo_path)

claimable_free : (b : Bool) (s : RepoStatus) → claimable b s ≡ true → occupies s ≡ false
claimable_free b running h = cc
claimable_free b stop_requested h = cc
claimable_free b created h = refl
claimable_free b queued h = refl
claimable_free b stopped h = refl
claimable_free b completed h = refl
claimable_free b failed h = refl
claimable_free b cancelled h = refl
claimable_free b poisoned h = refl
claimable_free b budget_exceeded h = refl

-- A row that does not occupy its repository has rivals exactly where another row does.
any-rival :
    (t : Task) (ts : List Task)
    → All (λ u. (u.id == t.id) ≡ true → occupies u.status ≡ false) ts
    → any (rival t) ts ≡ any (on_repo t.repo_path) ts
any-rival t [] idle = refl
any-rival t (u ∷ us) idle =
    rw (any-rival t us idle.1) (ground (arith, idle.0, occupies_lem u.status))

any-claimed_row :
    (env : Env) (s : String) (t : Task) (ts : List Task)
    → find_row (λ u. u.id) t.id ts ≡ some t
    → any (on_repo s) (modify_row (λ u. u.id) t.id (claimed_row env) ts)
      ≡ (any (on_repo s) ts || s == t.repo_path)
any-claimed_row env s t [] found = cc
any-claimed_row env s t (x ∷ xs) found = elim (Bool-cases (x.id == t.id)) [
  | inl same ↦
      let own : x ≡ t = ground arith in
      rw (same, own) (ground (arith, ==_iff t.repo_path s, ==_iff s t.repo_path))
  | inr other ↦ rw (other, any-claimed_row env s t xs (ground arith)) (ground arith)
]

module _ (env : Env) (c : ClaimOptions) (db : Db) where
  -- What holds a candidate back is that its repository is taken.
  abbrev Told : Task → Type 0
  Told t = is_held_back env c t db ≡ locked db t.repo_path

  told :
      c.allow_same_repo_concurrency ≡ false
      → All (λ u. find_task u.id db ≡ some u) db.tasks
      → (t : Task) → is_eligible c t ≡ true
      → find_task t.id db ≡ some t
      → Told t
  told alone own t may found = rw alone (any-rival t db.tasks (idle db.tasks own))
    where
      free : occupies t.status ≡ false
      free = claimable_free c.include_failed t.status (ground arith)

      idle :
          (us : List Task)
          → All (λ u. find_task u.id db ≡ some u) us
          → All (λ u. (u.id == t.id) ≡ true → occupies u.status ≡ false) us
      idle [] own = tt
      idle (u ∷ us) own = (
        λ same.
            let one : find_task t.id db ≡ some u =
              subst (λ i. find_task i db ≡ some u) ((==_iff u.id t.id).0 same) own.0 in
            let this : t ≡ u = ap (λ o. elim o [ some y ↦ y | none ↦ t ]) (sym found ∙ one) in
            subst (λ v. occupies v.status ≡ false) this free,
        idle us own.1,
      )

  All-told :
      c.allow_same_repo_concurrency ≡ false
      → All (λ u. find_task u.id db ≡ some u) db.tasks
      → (ts : List Task) → All (λ t. is_eligible c t ≡ true) ts
      → All (λ t. find_task t.id db ≡ some t) ts
      → All Told ts
  All-told alone own [] may found = tt
  All-told alone own (t ∷ ts) may found =
      (told alone own t may.0 found.0, All-told alone own ts may.1 found.1)

  first_free-none :
      (ts : List Task)
      → All Told ts
      → All (Waits env c db) ts
      → first_free (locked db) (repo_paths ts) ≡ none
  first_free-none [] says w = refl
  first_free-none (t ∷ ts) says w = rw (sym says.0 ∙ w.0.1) (first_free-none ts says.1 w.1)

  first_free-found :
      (b : List Task) (t : Task) (a : List Task)
      → All Told (b ++ t ∷ a)
      → All (Waits env c db) b
      → is_held_back env c t db ≡ false
      → first_free (locked db) (repo_paths (b ++ t ∷ a)) ≡ some t.repo_path
  first_free-found [] t a says w free = rw (sym says.0 ∙ free) refl
  first_free-found (x ∷ b) t a says w free =
      rw (sym says.0 ∙ w.0.1) (first_free-found b t a says.1 w.1 free)

  found_candidates :
      All (λ u. find_task u.id db ≡ some u) db.tasks
      → All (λ u. find_task u.id db ≡ some u) (candidates c db.tasks)
  found_candidates own = All-candidates (λ u. find_task u.id db ≡ some u) c db.tasks own

  Grants-Chosen :
      (r : Result Refusal (Option Task)) (db' : Db)
      → All (λ u. find_task u.id db ≡ some u) (candidates c db.tasks)
      → All Told (candidates c db.tasks)
      → Chosen env c db (candidates c db.tasks) r db'
      → Grants (λ t. t.repo_path) (locked db) (repo_paths (candidates c db.tasks)) r (locked db')
  Grants-Chosen (ok none) db' found says (same, w) =
      (first_free-none (candidates c db.tasks) says w, λ s. rw same refl)
  Grants-Chosen (err e) db' found says (same, b, t, a, split, w, req) = λ s. rw same refl
  Grants-Chosen (ok (some row)) db' found says (t, (b, a, split, w, req, free), is, after) =
      let path : row.repo_path ≡ t.repo_path = ap (λ u. u.repo_path) is in
      (
        ap (λ ts. first_free (locked db) (repo_paths ts)) split
            ∙ first_free-found b t a (subst (All Told) split says) w free
            ∙ ap (λ p. some p) (sym path),
        λ s.
            ap (λ d. locked d s) after
            ∙ any-claimed_row env s t db.tasks (
                All-middle (λ u. find_task u.id db ≡ some u) b t a
                  (subst (All (λ u. find_task u.id db ≡ some u)) split found))
            ∙ ap (λ p. locked db s || s == p) (sym path),
      )

-- `acquire_next_task`, without the permission of same-repository concurrency, on a table whose ids
-- are distinct, implements a table of locks: asked for the repositories of the candidates, in
-- their order, it grants and locks the first that is free, or none where all are taken, and the
-- locks of all other repositories stay; where it raises, all locks stay. A repository is locked
-- where a task runs on it or is asked to stop.
pub acquire_next_task-Grants :
    (env : Env) (c : ClaimOptions) (db : Db)
    → c.allow_same_repo_concurrency ≡ false
    → HasIds db
    → Grants
        (λ t. t.repo_path)
        (locked db)
        (repo_paths (candidates c db.tasks))
        (acquire_next_task env c db).0
        (locked (acquire_next_task env c db).1)
acquire_next_task-Grants env c db alone key =
    let own = HasIds-own db key in
    Grants-Chosen env c db (acquire_next_task env c db).0 (acquire_next_task env c db).1
      (found_candidates env c db own)
      (All-told env c db alone own (candidates c db.tasks) (candidates-is_eligible c db.tasks)
        (found_candidates env c db own))
      (acquire_next_task-Chosen env c db own)
