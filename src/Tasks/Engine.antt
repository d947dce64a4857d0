-- ===== src/Tasks/Engine.antt =====
-- uta/tasks/generation_engine.py: which generation engine a task's stored configuration names.
pub mod Snapshots
use unit_test_agent.Prelude.{
  ℕ, ℤ, pos, int_beq, String, Bool, true, false, ◌&&◌, not, Option, none, some, List, [], ◌∷◌, Json,
  bool, int, object, Fields, end, field, get_field, has_field, ◌==◌, string_eq, if◌then◌else◌,
  Result, ok, err, ◌≡◌, refl,
}
use unit_test_agent.Tasks.{Env, Task, Refusal, legacy_task, value_error}

abbrev pub version_key : String
version_key = "generation_engine_version"

abbrev pub compatibility_key : String
compatibility_key = "generation_cycle_v2_enabled"

abbrev is_two : ℤ → Bool
is_two n = int_beq n (pos 2)

-- `isinstance(version, bool) or not isinstance(version, int) or version != 2`, negated
abbrev version_is_two : Json → Bool
version_is_two (int n) = is_two n
version_is_two _ = false

abbrev is_true : Json → Bool
is_true (bool b) = b
is_true _ = false

-- `obj[k] = v`
abbrev pub put_field : String → Json → Fields → Fields
put_field k v end = field k v end
put_field k v (field j w fs) =
    let rest = put_field k v fs in if j == k then field j v fs else field j w rest

unfoldable pub durable_generation_snapshot : Fields → Result Refusal Fields
durable_generation_snapshot supplied =
    if has_field compatibility_key supplied && not (is_true (get_field compatibility_key supplied))
    then err value_error
    else if has_field version_key supplied && not (version_is_two (get_field version_key supplied))
    then err value_error
    else ok (put_field version_key (int (pos 2)) (put_field compatibility_key (bool true) supplied))

classify_version : Json → Option String
classify_version (int n) = if is_two n then none else some "unsupported_generation_engine_version"
classify_version _ = some "invalid_generation_engine_version_type"

classify_object : Json → Option String
unfolding classify_version
classify_object (object fs) =
    if has_field version_key fs
    then classify_version (get_field version_key fs)
    else some "missing_generation_engine_version"
classify_object _ = some "config_snapshot_not_object"

classify_loaded : Option Json → Option String
unfolding classify_object
classify_loaded none = some "malformed_config_snapshot_json"
classify_loaded (some j) = classify_object j

-- `json.loads` is the parameter.
unfoldable pub classify_generation_snapshot : (String → Option Json) → String → Option String
unfolding classify_loaded
classify_generation_snapshot loads raw = classify_loaded (loads raw)

unfoldable pub require_durable_generation_task : Env → Task → Result Refusal (Unit {0})
require_durable_generation_task env task =
    elim (classify_generation_snapshot env.loads task.config_snapshot_json) [
      | none ↦ ok tt
      | some reason ↦ err (legacy_task reason)
    ]
