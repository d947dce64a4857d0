-- ===== src/Tasks/Tables.antt =====
-- Rows with a numeric primary key: the lookup and the update of one row, and assignments to the
-- columns of `repo_tasks` and `class_tasks`.
pub mod Frames
pub mod Unique
use unit_test_agent.Prelude.{
  ℕ, ℤ, String, Bool, true, false, Option, none, some, List, [], ◌∷◌, ◌++◌, ◌==◌, nat_eq,
  if◌then◌else◌, ◌≡◌, refl,
}
use unit_test_agent.Tasks.{Task, ClassTask, RepoStatus, ClassStatus}

module _ {A : Type 0} (id : A → ℕ) where
  -- SELECT … WHERE id=?
  abbrev pub find_row : ℕ → List A → Option A
  find_row i [] = none
  find_row i (x ∷ xs) = if id x == i then some x else find_row i xs

  -- UPDATE … WHERE id=?, for a primary key: one row
  abbrev pub modify_row : ℕ → (A → A) → List A → List A
  modify_row i f [] = []
  modify_row i f (x ∷ xs) = let rest = modify_row i f xs in if id x == i then f x ∷ xs else x ∷ rest

-- `column=?` in an UPDATE of `repo_tasks`
pub data Assign : Type 0 where
  set_status : RepoStatus → Assign
  set_stage set_detail set_started set_finished : Option String → Assign
  set_stop_requested set_last_error set_error : Option String → Assign
  set_resume_count set_total set_completed set_passed set_failed : ℕ → Assign
  set_priority : ℤ → Assign
  set_updated : String → Assign

abbrev pub assign : Assign → Task → Task
assign (set_status s) t = record t { status = s }
assign (set_stage s) t = record t { current_stage = s }
assign (set_detail s) t = record t { current_detail = s }
assign (set_started s) t = record t { started_at = s }
assign (set_finished s) t = record t { finished_at = s }
assign (set_stop_requested s) t = record t { stop_requested_at = s }
assign (set_last_error s) t = record t { last_error = s }
assign (set_error s) t = record t { error = s }
assign (set_resume_count n) t = record t { resume_count = n }
assign (set_total n) t = record t { total_classes = n }
assign (set_completed n) t = record t { completed_classes = n }
assign (set_passed n) t = record t { passed_classes = n }
assign (set_failed n) t = record t { failed_classes = n }
assign (set_priority p) t = record t { priority = p }
assign (set_updated s) t = record t { updated_at = s }

-- A later assignment to the same column wins, as in a `dict` that is updated.
abbrev pub assign_all : List Assign → Task → Task
assign_all [] t = t
assign_all (a ∷ as') t = assign_all as' (assign a t)

abbrev pub named_status : Assign → Option RepoStatus
named_status (set_status s) = some s
named_status _ = none

-- The value under a key that is written again, if it is.
abbrev pub later_status : Option RepoStatus → Option RepoStatus → Option RepoStatus
later_status none earlier = earlier
later_status (some s) earlier = some s

-- `fields.get("status")`
abbrev pub given_status : List Assign → Option RepoStatus
given_status [] = none
given_status (a ∷ as') = later_status (given_status as') (named_status a)

-- `column=?` in an UPDATE of `class_tasks`
pub data ClassAssign : Type 0 where
  class_set_status : ClassStatus → ClassAssign
  class_set_stage class_set_current_stage class_set_detail : Option String → ClassAssign
  class_set_started class_set_finished class_set_last_error class_set_error :
      Option String → ClassAssign
  class_set_priority : ℤ → ClassAssign
  class_set_updated : String → ClassAssign

abbrev pub class_assign : ClassAssign → ClassTask → ClassTask
class_assign (class_set_status s) c = record c { status = s }
class_assign (class_set_stage s) c = record c { stage = s }
class_assign (class_set_current_stage s) c = record c { current_stage = s }
class_assign (class_set_detail s) c = record c { current_detail = s }
class_assign (class_set_started s) c = record c { started_at = s }
class_assign (class_set_finished s) c = record c { finished_at = s }
class_assign (class_set_last_error s) c = record c { last_error = s }
class_assign (class_set_error s) c = record c { error = s }
class_assign (class_set_priority p) c = record c { priority = p }
class_assign (class_set_updated s) c = record c { updated_at = s }

abbrev pub class_assign_all : List ClassAssign → ClassTask → ClassTask
class_assign_all [] c = c
class_assign_all (a ∷ as') c = class_assign_all as' (class_assign a c)
