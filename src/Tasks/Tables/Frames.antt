-- ===== src/Tasks/Tables/Frames.antt =====
-- One row after an UPDATE, and the columns that an UPDATE of `repo_tasks` leaves.
use unit_test_agent.Prelude.{
  arith, ℕ, Option, none, some, List, [], ◌∷◌, ◌++◌, map, ◌==◌, nat_eq, ==_iff, ◌≡◌, refl, sym, ap,
  ◌∙◌, All, Bool-cases, inl, inr,
}
use unit_test_agent.Tasks.{Task, RepoStatus}
use unit_test_agent.Tasks.Tables.{
  find_row, modify_row, Assign, set_status, set_stage, set_detail, set_started, set_finished,
  set_stop_requested, set_last_error, set_error, set_resume_count, set_total, set_completed,
  set_passed, set_failed, set_priority, set_updated, assign, assign_all, named_status, given_status,
  later_status,
}

module _ {A : Type 0} (id : A → ℕ) where
  pub All-modify_row :
      (P : A → Type 0) (i : ℕ) (f : A → A) (xs : List A)
      → ((x : A) → find_row id i xs ≡ some x → P x → P (f x))
      → All P xs
      → All P (modify_row id i f xs)
  All-modify_row P i f [] h all = tt
  All-modify_row P i f (x ∷ xs) h all = elim (Bool-cases (id x == i)) [
    | inl same ↦ rw same (h x (rw same refl) all.0, all.1)
    | inr other ↦
        rw other (all.0, All-modify_row P i f xs (λ y found p. h y (rw other found) p) all.1)
  ]

  pub All-find_row :
      (P : A → Type 0) (i : ℕ) (xs : List A) {y : A} → find_row id i xs ≡ some y → All P xs → P y
  All-find_row P i [] h all = cc
  All-find_row P i (x ∷ xs) {y} h all = elim (Bool-cases (id x == i)) [
    | inl same ↦ (let e : x ≡ y = ground arith in rw (sym e) all.0)
    | inr other ↦ All-find_row P i xs (ground arith) all.1
  ]

  -- The row that is found has the id.
  pub find_row-id : (i : ℕ) (xs : List A) {y : A} → find_row id i xs ≡ some y → id y ≡ i
  find_row-id i [] h = cc
  find_row-id i (x ∷ xs) {y} h = elim (Bool-cases (id x == i)) [
    | inl same ↦ (let e : x ≡ y = ground arith in rw (sym e) ((==_iff (id x) i).0 same))
    | inr other ↦ find_row-id i xs (ground arith)
  ]

  -- An update that keeps the ids is what is found afterwards.
  pub find_row-modify_row :
      (i : ℕ) (f : A → A) (xs : List A) {y : A}
      → ((z : A) → id (f z) ≡ id z)
      → find_row id i xs ≡ some y
      → find_row id i (modify_row id i f xs) ≡ some (f y)
  find_row-modify_row i f [] k h = cc
  find_row-modify_row i f (x ∷ xs) {y} k h = elim (Bool-cases (id x == i)) [
    | inl same ↦ (let e : x ≡ y = ground arith in rw (same, k x, same) (ap (λ z. some (f z)) e))
    | inr other ↦ rw (other, other) (find_row-modify_row i f xs k (ground arith))
  ]

  pub map-modify_row :
      {B : Type 0} (g : A → B) (i : ℕ) (f : A → A) (xs : List A)
      → ((y : A) → g (f y) ≡ g y)
      → map g (modify_row id i f xs) ≡ map g xs
  map-modify_row g i f [] k = refl
  map-modify_row g i f (x ∷ xs) k = elim (Bool-cases (id x == i)) [
    | inl same ↦ rw same (ap (λ y. y ∷ map g xs) (k x))
    | inr other ↦ rw other (ap (λ ys. g x ∷ ys) (map-modify_row g i f xs k))
  ]

-- What no assignment changes, and the status that it names.
abbrev pub status_after : Option RepoStatus → RepoStatus → RepoStatus
status_after none s = s
status_after (some s') s = s'

abbrev pub Frame : Option RepoStatus → Task → Task → Type 0
Frame s t u =
    (u.id ≡ t.id)
    × (u.repo_path ≡ t.repo_path)
    × (u.config_snapshot_json ≡ t.config_snapshot_json)
    × (u.status ≡ status_after s t.status)

assign-Frame : (a : Assign) (t : Task) → Frame (named_status a) t (assign a t)
assign-Frame (set_status s) t = (refl, refl, refl, refl)
assign-Frame (set_stage s) t = (refl, refl, refl, refl)
assign-Frame (set_detail s) t = (refl, refl, refl, refl)
assign-Frame (set_started s) t = (refl, refl, refl, refl)
assign-Frame (set_finished s) t = (refl, refl, refl, refl)
assign-Frame (set_stop_requested s) t = (refl, refl, refl, refl)
assign-Frame (set_last_error s) t = (refl, refl, refl, refl)
assign-Frame (set_error s) t = (refl, refl, refl, refl)
assign-Frame (set_resume_count n) t = (refl, refl, refl, refl)
assign-Frame (set_total n) t = (refl, refl, refl, refl)
assign-Frame (set_completed n) t = (refl, refl, refl, refl)
assign-Frame (set_passed n) t = (refl, refl, refl, refl)
assign-Frame (set_failed n) t = (refl, refl, refl, refl)
assign-Frame (set_priority p) t = (refl, refl, refl, refl)
assign-Frame (set_updated s) t = (refl, refl, refl, refl)

status_after-given :
    (a : Assign) (as' : List Assign) (s : RepoStatus)
    → status_after (given_status as') (status_after (named_status a) s)
      ≡ status_after (given_status (a ∷ as')) s
status_after-given a as' s = go (given_status as')
  where
    go :
        (g : Option RepoStatus)
        → status_after g (status_after (named_status a) s)
          ≡ status_after (later_status g (named_status a)) s
    go none = refl
    go (some s') = refl

pub assign_all-Frame :
    (as' : List Assign) (t : Task) → Frame (given_status as') t (assign_all as' t)
assign_all-Frame [] t = (refl, refl, refl, refl)
assign_all-Frame (a ∷ as') t =
    let one : Frame (named_status a) t (assign a t) = assign-Frame a t in
    let rest : Frame (given_status as') (assign a t) (assign_all as' (assign a t)) =
      assign_all-Frame as' (assign a t) in
    (
      rest.0 ∙ one.0,
      rest.1 ∙ one.1,
      rest.2 ∙ one.2,
      rest.3 ∙ ap (status_after (given_status as')) one.3 ∙ status_after-given a as' t.status,
    )

-- The last status that is named counts.
pub given_status-append :
    (as' bs : List Assign)
    → given_status (as' ++ bs) ≡ later_status (given_status bs) (given_status as')
given_status-append [] bs = go (given_status bs)
  where
    go : (g : Option RepoStatus) → g ≡ later_status g none
    go none = refl
    go (some s) = refl
given_status-append (a ∷ as') bs = rw (given_status-append as' bs) (go (given_status bs))
  where
    go :
        (g : Option RepoStatus)
        → later_status (later_status g (given_status as')) (named_status a)
          ≡ later_status g (later_status (given_status as') (named_status a))
    go none = refl
    go (some s) = refl
