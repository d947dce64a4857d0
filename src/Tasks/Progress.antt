-- ===== src/Tasks/Progress.antt =====
-- Bounded progress, the event cursor and the pruning of uta/tasks/progress_store.py.
pub mod Sizes
pub mod Rows
pub mod Bounds
pub mod Pages
use Prim.Native.Char.{code}
use unit_test_agent.Prelude.{
  ℕ, zero, suc, ◌+◌, ℤ, pos, negsuc, String, Bool, true, false, ◌&&◌, ◌||◌, not, Option, none, some,
  List, [], ◌∷◌, ◌++◌, Json, int, text, object, Fields, end, field, ◌==◌, nat_eq, string_eq,
  if◌then◌else◌, Result, ok, err, ltb, leb, length, text_le,
}
use unit_test_agent.Tasks.{Env, Db, Task, Event, Refusal, key_error, Action}
use unit_test_agent.Tasks.Actions.{pure, raise, reading}
use unit_test_agent.Tasks.Store.{find_task, modify_task, insert_event, NewEvent}
use unit_test_agent.Tasks.Finish.{text_or}

-- An event of the batch. A missing payload is None, which `json_dumps` writes as {}.
pub record ProgressItem : Type 0 where
  pub event_type : Option String
  pub severity : Option String
  pub stage : Option String
  pub message : Option String
  pub payload : Json

-- The length of a character in UTF-8.
abbrev utf8_width : ℕ → ℕ
utf8_width c = if ltb c 0x80 then 1 else if ltb c 0x800 then 2 else if ltb c 0x10000 then 3 else 4

-- `len(s.encode("utf-8"))`
utf8_length : String → ℕ
utf8_length String.[] = 0
utf8_length (String.◌∷◌ c s) = utf8_width (code c) + utf8_length s

abbrev is_marker : ProgressItem → Bool
is_marker e = elim e.event_type [ some s ↦ s == "progress_truncated" | none ↦ false ]

-- The items that are no markers.
abbrev pub prepared : List ProgressItem → List ProgressItem
prepared [] = []
prepared (e ∷ es) = let rest = prepared es in if is_marker e then rest else e ∷ rest

abbrev pub marker_requested : List ProgressItem → Bool
marker_requested [] = false
marker_requested (e ∷ es) = is_marker e || marker_requested es

-- `max(int(n), 0)`
abbrev pub at_least_zero : ℤ → ℕ
at_least_zero (pos n) = n
at_least_zero (negsuc n) = 0

-- What a batch did.
pub record Admission : Type 0 where
  pub admitted_events : ℕ
  pub admitted_serialized_bytes : ℕ
  pub truncated : Bool

module _ (env : Env) where
  unfoldable pub serialized_bytes : ProgressItem → ℕ
  unfolding utf8_length
  serialized_bytes e = utf8_length (env.dumps e.payload)

  -- The items that fit, in front of the first that does not: `rows` and `bytes` are in use.
  unfoldable pub admitted : ℕ → ℕ → ℕ → ℕ → List ProgressItem → List ProgressItem
  admitted max_rows max_bytes rows bytes [] = []
  admitted max_rows max_bytes rows bytes (e ∷ es) =
      let rest = admitted max_rows max_bytes (rows + 1) (bytes + serialized_bytes e) es in
      if ltb max_rows (rows + 1)
      then []
      else if ltb max_bytes (bytes + serialized_bytes e)
      then []
      else e ∷ rest

  abbrev pub total_bytes : List ProgressItem → ℕ
  total_bytes [] = 0
  total_bytes (e ∷ es) = serialized_bytes e + total_bytes es

  abbrev pub progress_event : ProgressItem → NewEvent
  progress_event e = record {
    event_type = "agent_progress";
    message = text_or e.message "Agent progress";
    stage = e.stage;
    severity = text_or e.severity "INFO";
    payload = e.payload;
  }

  abbrev pub insert_progress : ℕ → List ProgressItem → Db → Db
  insert_progress i [] db = db
  insert_progress i (e ∷ es) db =
      insert_progress i es (insert_event env i none (progress_event e) db)

  abbrev truncation : ℕ → ℕ → NewEvent
  truncation max_rows max_bytes = record {
    event_type = "progress_truncated";
    message = "Some agent progress updates were omitted";
    stage = none;
    severity = "WARNING";
    payload = object (
        field "maxEvents" (int (pos max_rows))
          (field "maxSerializedBytes" (int (pos max_bytes)) end));
  }

  abbrev pub insert_marker : Bool → ℕ → ℕ → ℕ → Db → Db
  insert_marker false i max_rows max_bytes db = db
  insert_marker true i max_rows max_bytes db =
      insert_event env i none (truncation max_rows max_bytes) db

  abbrev pub count_progress : List ProgressItem → Bool → Task → Task
  count_progress es won t = record t {
    progress_event_count = t.progress_event_count + length es;
    progress_event_bytes = t.progress_event_bytes + total_bytes es;
    progress_truncated = if won then true else t.progress_truncated;
    updated_at = env.now;
  }

  -- The rows that a batch writes.
  abbrev pub write_progress : ℕ → List ProgressItem → Bool → ℕ → ℕ → Db → Db
  write_progress i fit won max_rows max_bytes db =
      modify_task i (count_progress fit won)
        (insert_marker won i max_rows max_bytes (insert_progress i fit db))

  abbrev pub fitting : List ProgressItem → ℕ → ℕ → Task → List ProgressItem
  unfolding admitted
  fitting events max_rows max_bytes t =
      admitted max_rows max_bytes t.progress_event_count t.progress_event_bytes (prepared events)

  -- A marker is asked for, or something was dropped.
  abbrev pub cuts : List ProgressItem → ℕ → ℕ → Task → Bool
  cuts events max_rows max_bytes t =
      marker_requested events
      || ltb (length (fitting events max_rows max_bytes t)) (length (prepared events))

  -- The transaction once the row is read.
  unfoldable pub append_found : ℕ → List ProgressItem → ℕ → ℕ → Option Task → Action Admission
  append_found i events max_rows max_bytes none = raise key_error
  append_found i events max_rows max_bytes (some t) = λ db. (
    ok (record {
      admitted_events = length (fitting events max_rows max_bytes t);
      admitted_serialized_bytes = total_bytes (fitting events max_rows max_bytes t);
      truncated = cuts events max_rows max_bytes t;
    }),
    write_progress i (fitting events max_rows max_bytes t)
        (cuts events max_rows max_bytes t && not t.progress_truncated) max_rows max_bytes db,
  )

  unfoldable pub append_progress_event_batch : ℕ → List ProgressItem → ℤ → ℤ → Action Admission
  unfolding append_found
  append_progress_event_batch i events max_events max_serialized_bytes db =
      append_found i events (at_least_zero max_events) (at_least_zero max_serialized_bytes)
        (find_task i db) db

-- WHERE repo_task_id=? AND id>?
abbrev pub after_cursor : ℕ → ℕ → List Event → List Event
after_cursor i cursor [] = []
after_cursor i cursor (e ∷ es) =
    let rest = after_cursor i cursor es in
    if e.repo_task_id == i && ltb cursor e.id then e ∷ rest else rest

abbrev pub first_events : ℕ → List Event → List Event
first_events zero es = []
first_events (suc n) [] = []
first_events (suc n) (e ∷ es) = e ∷ first_events n es

-- `min(max(int(limit), 1), 5000)`
abbrev pub bounded_limit : ℤ → ℕ
bounded_limit (pos n) = if ltb n 1 then 1 else if ltb 5000 n then 5000 else n
bounded_limit (negsuc n) = 1

-- ORDER BY id ASC is the order of the table.
unfoldable pub events_since : ℕ → ℤ → ℤ → Action (List Event)
events_since i after_id limit =
    reading
      (λ db. first_events (bounded_limit limit) (after_cursor i (at_least_zero after_id) db.events))

abbrev pub prunable : String → Event → Bool
prunable before e = e.event_type == "agent_progress" && text_le e.created_at before

abbrev pub unpruned : String → List Event → List Event
unpruned before [] = []
unpruned before (e ∷ es) =
    let rest = unpruned before es in if prunable before e then rest else e ∷ rest

abbrev pruned_count : String → List Event → ℕ
pruned_count before [] = 0
pruned_count before (e ∷ es) = (if prunable before e then 1 else 0) + pruned_count before es

unfoldable pub prune_progress_events : String → Action ℕ
prune_progress_events before db =
    (ok (pruned_count before db.events), record db { events = unpruned before db.events })
