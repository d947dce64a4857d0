-- ===== src/Tasks/Engine/Snapshots.antt =====
-- What uta/tasks/generation_engine.py writes into a snapshot and reads back from it.
use unit_test_agent.Prelude.{
  pos, String, true, Option, none, some, Json, bool, int, object, Fields, end, field, get_field,
  has_field, ◌==◌, ==_refl, string_eq, Result, ok, err, ◌≡◌, refl, ◌∙◌, arith, Bool-cases, inl, inr,
}
use unit_test_agent.Tasks.{Env, Task, Refusal, legacy_task}
use unit_test_agent.Tasks.Engine.{
  version_key, compatibility_key, put_field, durable_generation_snapshot,
  classify_generation_snapshot, classify_loaded, classify_object, classify_version,
  require_durable_generation_task,
}

-- `json.loads` of what `json_dumps` wrote is an object with the same entries, in any order.
abbrev pub Reads : (String → Option Json) → (Json → String) → Fields → Type 0
Reads loads dumps fs =
    (gs : Fields) × (loads (dumps (object fs)) ≡ some (object gs))
    × ((k : String) → has_field k gs ≡ has_field k fs)
    × ((k : String) → get_field k gs ≡ get_field k fs)

get_field-put_field : (k : String) (v : Json) (fs : Fields) → get_field k (put_field k v fs) ≡ v
get_field-put_field k v end = rw (==_refl k) refl
get_field-put_field k v (field j w fs) = elim (Bool-cases (j == k)) [
  | inl same ↦ rw (same, same) refl
  | inr other ↦ rw (other, other) (get_field-put_field k v fs)
]

has_field-put_field : (k : String) (v : Json) (fs : Fields) → has_field k (put_field k v fs) ≡ true
has_field-put_field k v end = rw (==_refl k) refl
has_field-put_field k v (field j w fs) = elim (Bool-cases (j == k)) [
  | inl same ↦ rw (same, same) refl
  | inr other ↦ rw (other, other) (has_field-put_field k v fs)
]

-- An accepted snapshot is the one that was supplied with the two keys set.
snapshot_of :
    (supplied fs : Fields)
    → durable_generation_snapshot supplied ≡ ok fs
    → fs ≡ put_field version_key (int (pos 2)) (put_field compatibility_key (bool true) supplied)
unfolding durable_generation_snapshot
snapshot_of supplied fs h = ground arith

classify-object :
    (gs : Fields)
    → has_field version_key gs ≡ true
    → get_field version_key gs ≡ int (pos 2)
    → classify_object (object gs) ≡ none
unfolding classify_object classify_version
classify-object gs has is = rw (has, is) refl

-- A snapshot that a new task is given, written with `json_dumps` and read with `json.loads`, names
-- engine version 2: `classify_generation_snapshot` finds no blocker in it.
pub durable_generation_snapshot_roundtrip :
    (loads : String → Option Json) (dumps : Json → String) (supplied fs : Fields)
    → durable_generation_snapshot supplied ≡ ok fs
    → Reads loads dumps fs
    → classify_generation_snapshot loads (dumps (object fs)) ≡ none
unfolding classify_generation_snapshot classify_loaded
durable_generation_snapshot_roundtrip loads dumps supplied fs h (gs, read, has, is) = rw read (
    classify-object gs
      (has version_key
        ∙ rw (snapshot_of supplied fs h) (
            has_field-put_field version_key (int (pos 2))
              (put_field compatibility_key (bool true) supplied)))
      (is version_key
        ∙ rw (snapshot_of supplied fs h) (
            get_field-put_field version_key (int (pos 2))
              (put_field compatibility_key (bool true) supplied))))

-- A task that may be acted on has no blocker in its snapshot.
pub required_none :
    (env : Env) (t : Task)
    → require_durable_generation_task env t ≡ ok tt
    → classify_generation_snapshot env.loads t.config_snapshot_json ≡ none
unfolding require_durable_generation_task
required_none env t h = go (classify_generation_snapshot env.loads t.config_snapshot_json) h
  where
    go :
        (r : Option String)
        → elim r as (λ _. Result Refusal (Unit {0})) [
          | none ↦ ok tt
          | some reason ↦ err (legacy_task reason)
        ]
          ≡ ok tt
        → r ≡ none
    go none h = refl
    go (some reason) h = cc
