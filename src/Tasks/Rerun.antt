-- ===== src/Tasks/Rerun.antt =====
-- The clean rerun of a generation workflow: uta/tasks/workflow_rerun.py. It is one transaction: where
-- it raises, the tables are as they were.
pub mod Slices
pub mod Clean
pub mod Counts
use Prim.Native.Char.{code}
use unit_test_agent.Prelude.{
  ℕ, zero, suc, ◌+◌, ℤ, pos, negsuc, String, Bool, true, false, ◌&&◌, ◌||◌, not, Option, none, some,
  List, [], ◌∷◌, ◌++◌, map, Json, null, int, text, bool, array, object, Fields, end, field, items,
  Items, nil, cons, get_field, truthy, ◌==◌, nat_eq, string_eq, elem, if◌then◌else◌, Result, ok,
  err, ◌>>=◌, ◌+++◌, ltb, leb, length, sum_by, sort_by, int_leb, decimal, strip, Dict, get, put,
  any, option_eq,
}
use unit_test_agent.Tasks.{
  Env, Db, Task, ClassTask, Control, Heartbeat, Refusal, key_error, value_error, runtime_error,
  RepoStatus, queued, stopped, is_terminal, ClassStatus, class_queued, class_is_terminal,
}
use unit_test_agent.Tasks.Engine.{require_durable_generation_task}
use unit_test_agent.Tasks.Store.{
  find_task, modify_task, modify_class, classes_of, insert_event, acknowledge_rows, passed,
  counts_as_failed,
}
use unit_test_agent.Tasks.Finish.{text_or, status_beq}
use unit_test_agent.Tasks.Recovery.{Force, resumable, to_int}

-- The classes of the task that the rerun reads: ORDER BY priority ASC, id ASC.
abbrev pub rows_of : ℕ → Db → List ClassTask
rows_of i db = sort_by (λ c d. int_leb c.priority d.priority) (classes_of i db.classes)

-- `_COMPONENT`: a letter or a digit, and up to 127 of those, dots, underscores and hyphens.
abbrev alphanumeric : ℕ → Bool
alphanumeric c = (leb 48 c && leb c 57) || (leb 65 c && leb c 90) || (leb 97 c && leb c 122)

component_tail : ℕ → String → Bool
component_tail room String.[] = true
component_tail zero (String.◌∷◌ c s) = false
component_tail (suc room) (String.◌∷◌ c s) =
    let rest = component_tail room s in
    (alphanumeric (code c) || code c == 46 || code c == 95 || code c == 45) && rest

pub is_component : String → Bool
unfolding component_tail
is_component String.[] = false
is_component (String.◌∷◌ c s) = alphanumeric (code c) && component_tail 127 s

-- `key.split("/")`
abbrev onto : (String → String) → List String → List String
onto f [] = []
onto f (w ∷ ws) = f w ∷ ws

split_slash : String → List String
split_slash String.[] = "" ∷ []
split_slash (String.◌∷◌ c s) =
    let rest = split_slash s in if code c == 47 then "" ∷ rest else onto (λ w. String.◌∷◌ c w) rest

-- The run and the unit of a batch key.
pair_of : List String → Option (String × String)
unfolding is_component
pair_of (run ∷ unit ∷ []) = if is_component run && is_component unit then some (run, unit) else none
pair_of _ = none

-- `known[run_id]`
pub record Group : Type 0 where
  pub unit_ids : List String
  pub class_ids : List ℕ

pub record Prior : Type 0 where
  pub known : Dict Group
  pub missing : List ℕ
  pub key_counts : Dict ℕ

abbrev no_prior : Prior
no_prior = record { known = []; missing = []; key_counts = [] }

abbrev join_group : String → ℕ → Option Group → Group
join_group unit i none = record { unit_ids = unit ∷ []; class_ids = i ∷ [] }
join_group unit i (some g) = record {
  unit_ids = if elem unit g.unit_ids then g.unit_ids else g.unit_ids ++ unit ∷ [];
  class_ids = g.class_ids ++ i ∷ [];
}

abbrev count_of : Option ℕ → ℕ
count_of none = 0
count_of (some n) = n

-- `key is None or not str(key).strip()`
key_of : ClassTask → Option String
unfolding strip
key_of c = elim c.batch_key [ none ↦ none | some k ↦ if strip k == "" then none else some k ]

join_key : ClassTask → String → Option (String × String) → Prior → Result Refusal Prior
join_key c key none p = err runtime_error
join_key c key (some (run, unit)) p = ok (record p {
  known = put run (join_group unit c.id (get run p.known)) p.known;
  key_counts = put key (count_of (get key p.key_counts) + 1) p.key_counts;
})

prior_row : ClassTask → Option String → Prior → Result Refusal Prior
unfolding join_key pair_of split_slash
prior_row c none p = ok (record p { missing = p.missing ++ c.id ∷ [] })
prior_row c (some key) p = join_key c key (pair_of (split_slash key)) p

prior_rows : List ClassTask → Prior → Result Refusal Prior
unfolding prior_row key_of
prior_rows [] p = ok p
prior_rows (c ∷ cs) p = prior_row c (key_of c) p >>= prior_rows cs

unfoldable pub prior_identities : List ClassTask → Result Refusal Prior
unfolding prior_rows
prior_identities rows = prior_rows rows no_prior

-- `max(old_key_counts.values(), default=0)`
abbrev max_count : Dict ℕ → ℕ
max_count [] = 0
max_count ((k, n) ∷ d) = let rest = max_count d in if ltb rest n then n else rest

abbrev first_truthy : Json → Json → Json
first_truthy a b = if truthy a then a else b

abbrev one_or_more : ℤ → ℕ
one_or_more (pos n) = if leb 1 n then n else 1
one_or_more (negsuc n) = 1

-- `max(int(configured or inferred or default_batch_size), 1)`
unfoldable pub batch_size : Fields → Dict ℕ → ℕ → Result Refusal ℕ
unfolding to_int
batch_size config key_counts default_size =
    let configured : Json =
      first_truthy (get_field "classes_per_agent_run" config)
        (get_field "classes_per_run" config) in
    to_int (
      first_truthy configured
        (first_truthy (int (pos (max_count key_counts))) (int (pos default_size))))
    >>= λ n. ok (one_or_more n)

-- `rows[:n]` and `rows[n:]`
abbrev pub front : {A : Type 0} → ℕ → List A → List A
front zero xs = []
front (suc n) [] = []
front (suc n) (x ∷ xs) = x ∷ front n xs

abbrev pub remainder : {A : Type 0} → ℕ → List A → List A
remainder zero xs = xs
remainder (suc n) [] = []
remainder (suc n) (x ∷ xs) = remainder n xs

-- The slices from 0, n, 2 n, …, on fuel.
abbrev pub slices : {A : Type 0} → ℕ → ℕ → List A → List (List A)
slices zero n xs = []
slices (suc fuel) n [] = []
slices (suc fuel) n (x ∷ xs) = front n (x ∷ xs) ∷ slices fuel n (remainder n (x ∷ xs))

abbrev target_of : ClassTask → String
target_of c = text_or c.target_id c.class_fqn

-- `f"{index:04d}"`
padded : ℕ → String
padded n =
    (if ltb n 10 then "000" else if ltb n 100 then "00" else if ltb n 1000 then "0" else "")
    +++ decimal n

-- The first twelve hexadecimal digits of sha256 over the names, with a zero byte between them.
abbrev pub Digest : Type 0
Digest = List String → String

name_unit : Digest → ℕ → List ClassTask → String
unfolding padded
name_unit digest index members = "unit-" +++ padded index +++ "-" +++ digest (map target_of members)

-- The units in order, each with its classes.
name_units : Digest → ℕ → List (List ClassTask) → List (String × List ClassTask)
unfolding name_unit
name_units digest index [] = []
name_units digest index (members ∷ rest) =
    (name_unit digest index members, members) ∷ name_units digest (index + 1) rest

-- The fuel is the number of the rows.
unfoldable pub partition : Digest → ℕ → List ClassTask → List (String × List ClassTask)
unfolding name_units
partition digest size rows = name_units digest 1 (slices (length rows) size rows)

abbrev unit_in : ℕ → String → List ClassTask → Option String
unit_in i unit [] = none
unit_in i unit (c ∷ cs) = if c.id == i then some unit else unit_in i unit cs

-- `new_unit_by_class.get(class_id)`
abbrev pub unit_by_class : ℕ → List (String × List ClassTask) → Option String
unit_by_class i [] = none
unit_by_class i ((unit, members) ∷ rest) = elim (unit_in i unit members) [
  | some u ↦ some u
  | none ↦ unit_by_class i rest
]

-- What is written to a class of the task.
abbrev pub rekeyed : Force → String → String → String → ClassTask → ClassTask
rekeyed force now new_run unit c =
    let key : Option String = some (new_run +++ "/" +++ unit) in
    if resumable force c.status
    then record c {
      batch_key = key;
      status = class_queued;
      stage = some "queued";
      current_stage = some "queued";
      current_detail = some "clean generation rerun";
      finished_at = none;
      last_error = none;
      error = none;
      updated_at = now;
    }
    else record c { batch_key = key; updated_at = now }

abbrev pub new_status : Force → ClassTask → ClassStatus
new_status force c = if resumable force c.status then class_queued else c.status

-- `_replace_keys_and_requeue`: the statuses and the table.
unfoldable pub replace_keys :
    Force
    → String
    → String
    → List (String × List ClassTask)
    → List ClassTask
    → Db
    → Result Refusal (List ClassStatus × Db)
replace_keys force now new_run units [] db = ok ([], db)
replace_keys force now new_run units (c ∷ cs) db = elim (unit_by_class c.id units) [
  | none ↦ err key_error
  | some unit ↦
      replace_keys force now new_run units cs
        (modify_class c.id (rekeyed force now new_run unit) db)
      >>= λ r. ok (new_status force c ∷ r.0, r.1)
]

-- `sum(… for status in statuses)`
abbrev pub status_count : (ClassStatus → Bool) → List ClassStatus → ℕ
status_count p = sum_by (λ s. if p s then 1 else 0)

abbrev pub requeued_row : String → List ClassStatus → Task → Task
requeued_row now statuses t = record t {
  status = queued;
  stop_requested_at = none;
  finished_at = none;
  resume_count = t.resume_count + 1;
  current_stage = some "queued";
  current_detail = some "clean generation rerun requested";
  last_error = none;
  error = none;
  completed_classes = status_count class_is_terminal statuses;
  passed_classes = status_count passed statuses;
  failed_classes = status_count counts_as_failed statuses;
  updated_at = now;
}

unfoldable pub queue_task : ℕ → List ClassStatus → String → Db → Db
unfolding acknowledge_rows
queue_task i statuses now db = record (modify_task i (requeued_row now statuses) db) {
  controls = acknowledge_rows now i none db.controls;
}
