-- ===== src/Tasks/Requests/Exclusive.antt =====
-- One runner for a repository: `acquire_next_task` of uta/tasks/storage/scheduler_repository.py among
-- the other requests of uta/tasks.
use unit_test_agent.Prelude.{
  arith, ℕ, String, Bool, true, false, ◌&&◌, not, Option, none, some, List, [], ◌∷◌, ◌++◌, map,
  Result, ok, err, ◌≡◌, refl, sym, subst, All, All-imp, All-append, All-middle, any-false, elem,
  Distinct, ◌==◌, nat_eq, string_eq, ==_iff, Bool-cases, inl, inr, ◌∙◌, ap, Fields,
}
use unit_test_agent.Tasks.{
  Env, Db, Task, Refusal, RepoStatus, created, queued, running, stop_requested, stopped, completed,
  failed, cancelled, poisoned, budget_exceeded, is_terminal,
}
use unit_test_agent.Tasks.Lifecycle.Keeps.{mark_running-Keeps}
use unit_test_agent.Tasks.Actions.{and_then, writing, ◌>>=◌, Keeps-and_then, Keeps}
use unit_test_agent.Tasks.Engine.{durable_generation_snapshot}
use unit_test_agent.Tasks.Keeping.{Stable, keeping, allows, Keeping-×, weaker, finishing_status}
use unit_test_agent.Tasks.Lifecycle.{mark_running}
use unit_test_agent.Tasks.Requeue.{is_running}
use unit_test_agent.Tasks.Store.{
  find_task, modify_task, update_repo_task, reactivation, reactivates,
}
use unit_test_agent.Tasks.Tables.{
  Assign, assign_all, set_updated, given_status, modify_row, find_row,
}
use unit_test_agent.Tasks.Tables.Frames.{
  All-modify_row, assign_all-Frame, status_after, given_status-append,
}
use unit_test_agent.Tasks.Finish.{finishing, prior_terminal}
use unit_test_agent.Tasks.Progress.{
  ProgressItem, append_progress_event_batch, append_found, at_least_zero, prune_progress_events,
  fitting, cuts, write_progress, count_progress, insert_marker, insert_progress,
}
use unit_test_agent.Tasks.Rerun.{requeued_row}
use unit_test_agent.Tasks.Scheduler.{
  NewTask, create_repo_task, insert_task, fields_or_none, status_or_created, claimable, new_task,
  ClaimOptions, candidates, claimed_row, acquire_next_task, rival, is_held_back, occupies,
}
use unit_test_agent.Tasks.Scheduler.Claiming.{Chosen, acquire_next_task-Chosen, All-candidates}
use unit_test_agent.Tasks.Requests.{Serving, Request, run, run-Keeps, permits, Admissible}
use unit_test_agent.Tasks.Requests.Ids.{
  HasIds, HasIds-own, HasIds-Serving, tasks-close_stream, tasks-written,
}

-- Both run, on the same repository.
abbrev pub clash : Task → Task → Bool
clash t u = is_running t.status && is_running u.status && t.repo_path == u.repo_path

-- No two rows clash.
abbrev pub Exclusive : List Task → Type 0
Exclusive [] = Unit
Exclusive (t ∷ ts) = All (λ u. clash t u ≡ false) ts × Exclusive ts

-- An update of a row that starts no runner.
abbrev Calm : (Task → Task) → Task → Type 0
Calm f t =
    ((f t).repo_path ≡ t.repo_path) × (is_running (f t).status ≡ true → is_running t.status ≡ true)

clash-left : (f : Task → Task) (t u : Task) → Calm f t → clash t u ≡ false → clash (f t) u ≡ false
clash-left f t u k h = rw k.0 (ground (arith, k.1))

clash-right : (f : Task → Task) (t u : Task) → Calm f u → clash t u ≡ false → clash t (f u) ≡ false
clash-right f t u k h = rw k.0 (ground (arith, k.1))

Exclusive-modify_row :
    (i : ℕ) (f : Task → Task) (ts : List Task)
    → ((t : Task) → find_row (λ u. u.id) i ts ≡ some t → Calm f t)
    → Exclusive ts
    → Exclusive (modify_row (λ t. t.id) i f ts)
Exclusive-modify_row i f [] k e = tt
Exclusive-modify_row i f (t ∷ ts) k e = elim (Bool-cases (t.id == i)) [
  | inl same ↦ rw same (All-imp ts (λ u. clash-left f t u (k t (rw same refl))) e.0, e.1)
  | inr other ↦ rw other (
    All-modify_row (λ u. u.id) (λ u. clash t u ≡ false) i f ts
        (λ u found. clash-right f t u (k u (rw other found))) e.0,
    Exclusive-modify_row i f ts (λ u found. k u (rw other found)) e.1,
  )
]

Exclusive-snoc :
    (t : Task) (ts : List Task)
    → is_running t.status ≡ false
    → Exclusive ts
    → Exclusive (ts ++ t ∷ [])
Exclusive-snoc t [] still e = (tt, tt)
Exclusive-snoc t (u ∷ ts) still e = (
  All-append (λ v. clash u v ≡ false) ts (t ∷ []) e.0 (ground arith, tt),
  Exclusive-snoc t ts still e.1,
)

not_running : (s : RepoStatus) → allows false s ≡ true → is_running s ≡ false
not_running created h = refl
not_running queued h = refl
not_running running h = cc
not_running stop_requested h = refl
not_running stopped h = refl
not_running completed h = refl
not_running failed h = refl
not_running cancelled h = refl
not_running poisoned h = refl
not_running budget_exceeded h = refl

claimable_still : (s : RepoStatus) → claimable false s ≡ true → is_running s ≡ false
claimable_still created h = refl
claimable_still queued h = refl
claimable_still running h = cc
claimable_still stop_requested h = cc
claimable_still stopped h = cc
claimable_still completed h = cc
claimable_still failed h = cc
claimable_still cancelled h = cc
claimable_still poisoned h = cc
claimable_still budget_exceeded h = cc

ended_still : (s : RepoStatus) → is_terminal s ≡ true → is_running s ≡ false
ended_still running h = cc
ended_still created h = refl
ended_still queued h = refl
ended_still stop_requested h = refl
ended_still stopped h = refl
ended_still completed h = refl
ended_still failed h = refl
ended_still cancelled h = refl
ended_still poisoned h = refl
ended_still budget_exceeded h = refl

running_occupies : (s : RepoStatus) → is_running s ≡ true → occupies s ≡ true
running_occupies running h = refl
running_occupies created h = cc
running_occupies queued h = cc
running_occupies stop_requested h = cc
running_occupies stopped h = cc
running_occupies completed h = cc
running_occupies failed h = cc
running_occupies cancelled h = cc
running_occupies poisoned h = cc
running_occupies budget_exceeded h = cc

-- A row that is no rival of t does not clash with t, whatever the status of t.
no_rival :
    (t v u : Task)
    → v.repo_path ≡ t.repo_path
    → rival t u ≡ false
    → (u.id == t.id) ≡ false
    → (clash v u ≡ false) × (clash u v ≡ false)
no_rival t v u same h other = (
  rw same (
      ground (
        arith,
        running_occupies u.status,
        ==_iff u.repo_path t.repo_path,
        ==_iff t.repo_path u.repo_path,
      )),
  rw same (ground (arith, running_occupies u.status)),
)

-- Claiming a row that has no rival.
Exclusive-claimed_row :
    (f : Task → Task) (t : Task) (ts : List Task)
    → ((u : Task) → (f u).repo_path ≡ u.repo_path)
    → Distinct (map (λ u. u.id) ts)
    → find_row (λ u. u.id) t.id ts ≡ some t
    → All (λ u. rival t u ≡ false) ts
    → Exclusive ts
    → Exclusive (modify_row (λ u. u.id) t.id f ts)
Exclusive-claimed_row f t [] path d found free e = tt
Exclusive-claimed_row f t (x ∷ xs) path d found free e = elim (Bool-cases (x.id == t.id)) [
  | inl same ↦
      let own : x ≡ t = ground arith in
      rw same (
        behind xs (path x ∙ ap (λ y. y.repo_path) own)
            (subst (λ k. elem k (map (λ u. u.id) xs) ≡ false) ((==_iff x.id t.id).0 same) d.0)
            free.1,
        e.1,
      )
  | inr other ↦ rw other (
    All-modify_row (λ u. u.id) (λ u. clash x u ≡ false) t.id f xs
        (λ u found' _.
          let own : t ≡ u = ground (arith, found_rest xs (ground arith) found') in
          (no_rival t (f u) x (path u ∙ ap (λ y. y.repo_path) (sym own)) free.0 other).1)
        e.0,
    Exclusive-claimed_row f t xs path d.1 (ground arith) free.1 e.1,
  )
]
  where
    found_rest :
        (xs : List Task) {u : Task}
        → find_row (λ u. u.id) t.id xs ≡ some t
        → find_row (λ u. u.id) t.id xs ≡ some u
        → t ≡ u
    found_rest xs a b = ap (λ o. elim o [ some y ↦ y | none ↦ t ]) (sym a ∙ b)

    behind :
        (ys : List Task)
        → (f x).repo_path ≡ t.repo_path
        → elem t.id (map (λ u. u.id) ys) ≡ false
        → All (λ u. rival t u ≡ false) ys
        → All (λ u. clash (f x) u ≡ false) ys
    behind [] p out free = tt
    behind (y ∷ ys) p out free =
        ((no_rival t (f x) y p free.0 (ground arith)).0, behind ys p (ground arith) free.1)

module _ (env : Env) where
  Exclusive-Stable : Stable env false (λ db. Exclusive db.tasks)
  Exclusive-Stable = record {
    elsewhere = λ cs ks db held. held;
    inserted = λ i c new db held. held;
    updated = λ i fields db opens req held.
        Exclusive-modify_row i (assign_all (fields ++ set_updated env.now ∷ [])) db.tasks
          (λ t _. calm fields (given_status fields) refl opens t) held;
    finished = λ i f t db terminal found held.
        rw
          ((tasks-close_stream env i f (prior_terminal i f t db)
            (modify_task i (assign_all (finishing env f)) db)).0)
          (Exclusive-modify_row i (assign_all (finishing env f)) db.tasks
            (λ u _.
              let fr = assign_all-Frame (finishing env f) u in
              (
                fr.1,
                λ h.
                    let no : true ≡ false =
                      sym h
                      ∙ ended_still _ (
                          ap is_terminal
                            (fr.3 ∙ ap (λ x. status_after x u.status) (finishing_status env f))
                          ∙ terminal) in
                    cc,
              ))
            held);
  }
    where
      calm :
          (fields : List Assign) (g : Option RepoStatus)
          → given_status fields ≡ g
          → elim g [ none ↦ true | some s ↦ allows false s ] ≡ true
          → (t : Task)
          → ((assign_all (fields ++ set_updated env.now ∷ []) t).repo_path ≡ t.repo_path)
            × (is_running (assign_all (fields ++ set_updated env.now ∷ []) t).status ≡ true
                → is_running t.status ≡ true)
      calm fields g e opens t =
          let fr = assign_all-Frame (fields ++ set_updated env.now ∷ []) t in
          (
            fr.1,
            λ h. still g opens (
                sym (
                  ap is_running (
                    fr.3
                    ∙ ap (λ x. status_after x t.status)
                        (given_status-append fields (set_updated env.now ∷ []) ∙ e)))
                ∙ h),
          )
        where
          still :
              (g : Option RepoStatus)
              → elim g [ none ↦ true | some s ↦ allows false s ] ≡ true
              → is_running (status_after g t.status) ≡ true
              → is_running t.status ≡ true
          still none opens h = h
          still (some s) opens h = (let no : true ≡ false = sym h ∙ not_running s opens in cc)

  -- The invariant with the primary key.
  abbrev pub OneRunner : Db → Type 0
  OneRunner db = HasIds db × Exclusive db.tasks

  creating :
      (new : NewTask)
      → claimable false (status_or_created new.status) ≡ true
      → Keeps (λ db. Exclusive db.tasks) (create_repo_task env new)
  unfolding create_repo_task insert_task
  creating new live db held = go (durable_generation_snapshot (fields_or_none new.config_snapshot))
    where
      go : (r : Result Refusal Fields) → Exclusive (and_then r (insert_task env new) db).1.tasks
      go (ok fs) =
          Exclusive-snoc (new_task env db.next_task new fs) db.tasks (claimable_still _ live) held
      go (err x) = held

  free_of :
      (c : ClaimOptions) (t : Task) (db : Db)
      → c.allow_same_repo_concurrency ≡ false
      → is_held_back env c t db ≡ false
      → All (λ u. rival t u ≡ false) db.tasks
  free_of c t db alone free = any-false (rival t) db.tasks (ground arith)

  acquiring :
      (c : ClaimOptions) (db : Db) (r : Result Refusal (Option Task)) (db' : Db)
      → c.allow_same_repo_concurrency ≡ false
      → Chosen env c db (candidates c db.tasks) r db'
      → OneRunner db
      → Exclusive db'.tasks
  acquiring c db (ok none) db' alone ch held = rw ch.0 held.1
  acquiring c db (err e) db' alone ch held = rw ch.0 held.1
  acquiring c db (ok (some row)) db' alone (t, (b, a, e, w, req, free), is, after) held = rw after (
      Exclusive-claimed_row (claimed_row env) t db.tasks (λ u. refl) held.0.1
        (All-middle (λ u. find_task u.id db ≡ some u) b t a
          (subst (All (λ u. find_task u.id db ≡ some u)) e
            (All-candidates (λ u. find_task u.id db ≡ some u) c db.tasks (HasIds-own db held.0))))
        (free_of c t db alone free) held.1)

  written :
      (i : ℕ) (fit : List ProgressItem) (won : Bool) (m n : ℕ) (db : Db)
      → Exclusive db.tasks
      → Exclusive (write_progress env i fit won m n db).tasks
  written i fit won m n db held =
      Exclusive-modify_row i (count_progress env fit won)
        (insert_marker env won i m n (insert_progress env i fit db)).tasks (λ u _. (refl, λ h. h))
        (rw ((tasks-written env i fit won m n db).0) held)

  appending :
      (i : ℕ) (events : List ProgressItem) (m n : ℕ) (t : Option Task)
      → Keeps (λ db. Exclusive db.tasks) (append_found env i events m n t)
  unfolding append_found
  appending i events m n none = λ db held. held
  appending i events m n (some t) = λ db held.
      written i (fitting env events m n t) (cuts env events m n t && not t.progress_truncated) m n
        db held

  OneRunner-Serving : Serving env false OneRunner
  OneRunner-Serving =
      let key = HasIds-Serving env in
      record {
        keeping =
            Keeping-× env false HasIds (λ db. Exclusive db.tasks)
              (weaker env false HasIds key.keeping)
              (keeping env false (λ db. Exclusive db.tasks) Exclusive-Stable);
        creating =
            λ new w live db held. (key.creating new w live db held.0, creating new live db held.1);
        acquiring = λ c may db held. (
          key.acquiring c refl db held.0,
          acquiring c db (acquire_next_task env c db).0 (acquire_next_task env c db).1
              (ground arith) (acquire_next_task-Chosen env c db (HasIds-own db held.0)) held,
        );
        appending = λ i events rows bytes db held. (
          key.appending i events rows bytes db held.0,
          unfold append_progress_event_batch in
              appending i events (at_least_zero rows) (at_least_zero bytes) (find_task i db) db
                held.1,
        );
        pruning = λ before db held.
            (key.pruning before db held.0, unfold prune_progress_events in held.1);
        rerunning = λ i t statuses cs ks new db found guard held. (
          key.rerunning i t statuses cs ks new db found guard held.0,
          Exclusive-modify_row i (requeued_row env.now statuses) db.tasks (λ u _. (refl, λ h. cc))
              held.1,
        );
      }

  -- A runner that marks its own task.
  marked :
      (i : ℕ) (as' : List Assign) (t : Task) (db : Db)
      → find_task i db ≡ some t
      → is_running t.status ≡ true
      → Exclusive db.tasks
      → Exclusive (update_repo_task env i as' db).1.tasks
  unfolding update_repo_task
  marked i [] t db found runs held = held
  marked i (a ∷ as') t db found runs held =
      go (reactivation env (reactivates (given_status (a ∷ as'))) (find_task i db))
    where
      go :
          (r : Result Refusal (Unit {0}))
          → Exclusive
              (and_then r
                (λ _. writing (modify_task i (assign_all (a ∷ as' ++ set_updated env.now ∷ []))))
                db).1.tasks
      go (err x) = held
      go (ok _) =
          Exclusive-modify_row i (assign_all (a ∷ as' ++ set_updated env.now ∷ [])) db.tasks
            (λ u found'. (
              (assign_all-Frame (a ∷ as' ++ set_updated env.now ∷ []) u).1,
              λ h.
                  (let own : t ≡ u =
                      ap (λ o. elim o [ some y ↦ y | none ↦ t ]) (sym found ∙ found') in
                    subst (λ v. is_running v.status ≡ true) own runs),
            ))
            held

  staged-OneRunner :
      (i : ℕ) (stage : String) (detail : Option String) (t : Task) (db : Db)
      → find_task i db ≡ some t
      → is_running t.status ≡ true
      → OneRunner db
      → OneRunner (mark_running env i stage detail db).1
  staged-OneRunner i stage detail t db found runs held = (
    mark_running-Keeps env true HasIds (HasIds-Serving env).keeping refl i stage detail db held.0,
    unfold mark_running ◌>>=◌ in
        Keeps-and_then (λ db'. Exclusive db'.tasks) _ _
          (λ _. (keeping env false (λ db'. Exclusive db'.tasks) Exclusive-Stable).event i none _) _
          (marked i _ t db found runs held.1),
  )

-- A step of the system: a request that starts no second runner on a repository, or a runner that
-- marks its own task, which runs, as running in the next stage.
pub data Move (env : Env) : Db → Db → Type 0 where
  asked :
      (now : String) (r : Request) (db : Db)
      → Admissible (record env { now = now }) r
      → permits false r ≡ true
      → Move env db (run (record env { now = now }) r db)
  staged :
      (now : String) (i : ℕ) (stage : String) (detail : Option String) (t : Task) (db : Db)
      → find_task i db ≡ some t
      → is_running t.status ≡ true
      → Move env db (mark_running (record env { now = now }) i stage detail db).1

pub data Reach (env : Env) (start : Db) : Db → Type 0 where
  here : Reach env start start
  next : {db after : Db} → Reach env start db → Move env db after → Reach env start after

-- From a table where no two running tasks share a repository, no steps lead to one where two do:
-- tasks are claimed_row without the permission of same-repository concurrency, and only a task that
-- runs is marked as running in a later stage.
pub Reach-Exclusive :
    (env : Env) (start db : Db)
    → Reach env start db
    → HasIds start
    → Exclusive start.tasks
    → Exclusive db.tasks
Reach-Exclusive env start db reach key alone = (go reach).1
  where
    step : {db after : Db} → Move env db after → OneRunner env db → OneRunner env after
    step (asked now r db w may) held =
        run-Keeps (record env { now = now }) false (OneRunner env)
          (OneRunner-Serving (record env { now = now })) r w may db held
    step (staged now i stage detail t db found runs) held =
        staged-OneRunner (record env { now = now }) i stage detail t db found runs held

    go : {db : Db} → Reach env start db → OneRunner env db
    go here = (key, alone)
    go (next r s) = step s (go r)
