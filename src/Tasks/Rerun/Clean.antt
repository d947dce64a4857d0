-- ===== src/Tasks/Rerun/Clean.antt =====
-- `clean_rerun_generation` of uta/tasks/workflow_rerun.py as a whole, with the rows that it leaves
-- in `workflow_run_supersessions` and `legacy_prompt_scopes`.
pub mod Counters
pub mod Writes
use Prim.Native.Char.{code}
use unit_test_agent.Prelude.{
  ℕ, zero, suc, ◌+◌, ℤ, pos, String, Bool, true, false, ◌&&◌, ◌||◌, not, Option, none, some, List,
  [], ◌∷◌, ◌++◌, map, Json, null, int, text, bool, array, object, Fields, end, field, Items, nil,
  cons, get_field, ◌==◌, nat_eq, string_eq, option_eq, elem, if◌then◌else◌, Result, ok, err, ◌>>=◌,
  leb, length, sort_by, int_leb, strip, Dict,
}
use unit_test_agent.Tasks.{
  Env, Db, Task, ClassTask, Heartbeat, Refusal, key_error, value_error, runtime_error, stopped,
  is_terminal,
}
use unit_test_agent.Tasks.Engine.{require_durable_generation_task}
use unit_test_agent.Tasks.Store.{find_task, classes_of, insert_event}
use unit_test_agent.Tasks.Finish.{status_beq}
use unit_test_agent.Tasks.Recovery.{Force}
use unit_test_agent.Tasks.Rerun.{
  Group, Prior, is_component, prior_identities, batch_size, Digest, partition, unit_by_class,
  replace_keys, rows_of, queue_task,
}

-- A row of `workflow_run_supersessions`, with its lists as lists. The kind is `known` where there is
-- an old run, and `missing` where there is none.
pub record Supersession : Type 0 where
  pub supersession_id : String
  pub repo_task_id : ℕ
  pub old_workflow_run_id : Option String
  pub new_workflow_run_id : String
  pub old_unit_ids : List String
  pub new_unit_ids : List String
  pub affected_class_ids : List ℕ
  pub requeue_policy : String
  pub reason : String
  pub requested_by : String
  pub requested_at : String

-- A row of `legacy_prompt_scopes`.
pub record Scope : Type 0 where
  pub repo_task_id : ℕ
  pub legacy_run_id : String
  pub language : String
  pub superseded_at : Option String
  pub superseded_by : Option String

-- The tables of the transaction.
pub record Lineage : Type 0 where
  pub db : Db
  pub supersessions : List Supersession
  pub scopes : List Scope

pub record RerunRequest : Type 0 where
  pub task_id : ℕ
  pub reason : Option String
  pub confirm_task_id : ℕ
  pub force : Force
  pub requested_by : Option String
  pub user : String
  pub default_batch_size : ℕ

abbrev text_or_else : String → String → String
text_or_else s d = if s == "" then d else s

abbrev or_empty : Option String → String
or_empty none = ""
or_empty (some s) = s

-- The reason and the actor.
validated_request : RerunRequest → Result Refusal (String × String)
unfolding strip
validated_request r =
    let reason : String = strip (or_empty r.reason) in
    let actor : String =
      text_or_else (strip (text_or_else (text_or_else (or_empty r.requested_by) r.user) "unknown"))
        "unknown" in
    if reason == ""
    then err value_error
    else if r.confirm_task_id == r.task_id
    then ok (reason, actor)
    else err value_error

abbrev pub leases : ℕ → List Heartbeat → Bool
leases i [] = false
leases i (h ∷ hs) = (h.status == "RUNNING" && h.current_repo_task_id == some i) || leases i hs

abbrev pub may_rerun : Task → Bool
may_rerun t = status_beq t.status stopped || is_terminal t.status

require_eligible : Env → ℕ → Option Task → Db → Result Refusal Task
require_eligible env i none db = err key_error
require_eligible env i (some t) db = require_durable_generation_task env t >>= λ _.
    if may_rerun t
    then if leases i db.heartbeats then err runtime_error else ok t
    else err runtime_error

-- `json_loads`: an object, or the empty one.
abbrev object_or_empty : Option Json → Fields
object_or_empty (some (object fs)) = fs
object_or_empty _ = end

abbrev policy_of : Force → String
policy_of f =
    if f.force_rerun_all then "all" else if f.force_rerun_failed then "failed" else "ordinary"

-- `dict.fromkeys`: the first of equal names.
distinct : List String → List String → List String
distinct seen [] = []
distinct seen (s ∷ ss) = if elem s seen then distinct seen ss else s ∷ distinct (s ∷ seen) ss

named_units : List ℕ → List (String × List ClassTask) → List String
named_units [] units = []
named_units (i ∷ is) units =
    let rest = named_units is units in
    elim (unit_by_class i units) [ some u ↦ u ∷ rest | none ↦ rest ]

new_units_for : List ℕ → List (String × List ClassTask) → List String
unfolding distinct named_units
new_units_for is units = distinct [] (named_units is units)

-- `uuid.uuid4().hex`, by the number of the call.
abbrev pub FreshIds : Type 0
FreshIds = ℕ → String

superseded_known :
    (RerunRequest → String → Option String → List String → List ℕ → Supersession)
    → RerunRequest
    → FreshIds
    → ℕ
    → Dict Group
    → List Supersession
superseded_known row r fresh n [] = []
superseded_known row r fresh n ((run, g) ∷ d) =
    row r (fresh n) (some run) g.unit_ids g.class_ids ∷ superseded_known row r fresh (n + 1) d

superseded_missing :
    (RerunRequest → String → Option String → List String → List ℕ → Supersession)
    → RerunRequest
    → FreshIds
    → ℕ
    → List ℕ
    → List Supersession
superseded_missing row r fresh n [] = []
superseded_missing row r fresh n (i ∷ is) = row r (fresh n) none [] (i ∷ is) ∷ []

-- UPDATE legacy_prompt_scopes
supersede_scopes : ℕ → String → String → List Scope → List Scope
supersede_scopes i new_run now [] = []
supersede_scopes i new_run now (s ∷ ss) =
    (if s.repo_task_id == i && elim s.superseded_at [ none ↦ true | some _ ↦ false ]
      then record s { superseded_at = some now; superseded_by = some new_run }
      else s)
    ∷ supersede_scopes i new_run now ss

-- `_LEGACY_RUN_ID`: 32 hexadecimal digits in lower case.
hex_digits : ℕ → String → Bool
hex_digits zero String.[] = true
hex_digits zero (String.◌∷◌ c s) = false
hex_digits (suc n) String.[] = false
hex_digits (suc n) (String.◌∷◌ c s) =
    let rest = hex_digits n s in
    ((leb 48 (code c) && leb (code c) 57) || (leb 97 (code c) && leb (code c) 102)) && rest

-- `_prior_legacy_scopes`, with the scopes in the order of their opening.
prior_scopes : ℕ → List Scope → Items
unfolding hex_digits
prior_scopes i [] = nil
prior_scopes i (s ∷ ss) =
    let rest = prior_scopes i ss in
    if s.repo_task_id == i
      && elim s.superseded_at [ none ↦ true | some _ ↦ false ]
      && hex_digits 32 s.legacy_run_id
      && is_component s.language
    then cons
        (object (field "run_id" (text s.legacy_run_id) (field "language" (text s.language) end)))
        rest
    else rest

texts : List String → Items
texts [] = nil
texts (s ∷ ss) = cons (text s) (texts ss)

numbers : List ℕ → Items
numbers [] = nil
numbers (n ∷ ns) = cons (int (pos n)) (numbers ns)

module _ (env : Env) (digest : Digest) (fresh : FreshIds) where
  -- The new run is the first id.
  abbrev new_run_id : String
  new_run_id = fresh 0

  supersession :
      String
      → String
      → List (String × List ClassTask)
      → RerunRequest
      → String
      → Option String
      → List String
      → List ℕ
      → Supersession
  unfolding new_units_for
  supersession reason actor units r id old old_units classes = record {
    supersession_id = id;
    repo_task_id = r.task_id;
    old_workflow_run_id = old;
    new_workflow_run_id = new_run_id;
    old_unit_ids = old_units;
    new_unit_ids = new_units_for classes units;
    affected_class_ids = classes;
    requeue_policy = policy_of r.force;
    reason = reason;
    requested_by = actor;
    requested_at = env.now;
  }

  rerun_payload :
      RerunRequest → String → String → List (String × List ClassTask) → Prior → List Scope → Fields
  unfolding prior_scopes texts numbers
  rerun_payload r reason actor units prior scopes = field "new_workflow_run_id" (text new_run_id) (
      field "new_unit_ids" (array (texts (map (λ u. u.0) units))) (
        field "old_workflow_run_ids" (array (texts (map (λ g. g.0) prior.known))) (
          field "old_legacy_scopes" (array (prior_scopes r.task_id scopes)) (
            field "missing_class_ids" (array (numbers prior.missing)) (
              field "requeue_policy" (text (policy_of r.force))
                (field "reason" (text reason) (field "requested_by" (text actor) end)))))))

  -- The writes, in the order of the source.
  write_rerun :
      RerunRequest
      → String
      → String
      → List ClassTask
      → Prior
      → List (String × List ClassTask)
      → Lineage
      → Result Refusal Lineage
  unfolding superseded_known superseded_missing supersede_scopes supersession rerun_payload
  write_rerun r reason actor rows prior units l =
      replace_keys r.force env.now new_run_id units rows l.db >>= λ done. ok (record {
        db =
            insert_event env r.task_id none
              (record {
                event_type = "generation_cycle_clean_rerun_requested";
                message = "Clean generation rerun requested";
                stage = some "queued";
                severity = "WARNING";
                payload = object (rerun_payload r reason actor units prior l.scopes);
              })
              (queue_task r.task_id done.0 env.now done.1);
        supersessions =
            l.supersessions
            ++ superseded_known (supersession reason actor units) r fresh 1 prior.known
            ++ superseded_missing (supersession reason actor units) r fresh (1 + length prior.known)
                prior.missing;
        scopes = supersede_scopes r.task_id new_run_id env.now l.scopes;
      })

  -- The transaction from the rows on.
  rerun_rows :
      RerunRequest → String → String → Task → List ClassTask → Lineage → Result Refusal Lineage
  unfolding write_rerun
  rerun_rows r reason actor t [] l = err runtime_error
  rerun_rows r reason actor t (c ∷ cs) l = prior_identities (c ∷ cs) >>= λ prior.
      batch_size (object_or_empty (env.loads t.config_snapshot_json)) prior.key_counts
        r.default_batch_size
      >>= λ size. write_rerun r reason actor (c ∷ cs) prior (partition digest size (c ∷ cs)) l

  -- The new run's id and the tables.
  unfoldable pub clean_rerun_generation : RerunRequest → Lineage → Result Refusal (String × Lineage)
  unfolding validated_request require_eligible rerun_rows
  clean_rerun_generation r l = validated_request r >>= λ who.
      require_eligible env r.task_id (find_task r.task_id l.db) l.db >>= λ t.
      rerun_rows r who.0 who.1 t (rows_of r.task_id l.db) l >>= λ after. ok (new_run_id, after)
