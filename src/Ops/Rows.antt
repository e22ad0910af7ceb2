-- ===== src/Ops/Rows.antt =====
-- ops.py, `Runs.put`: the rows that it writes. The configurations are dictionaries; a value that is
-- none where one is read counts as an empty one here, and fails in Python. The run's identifier is
-- given.
use langgraph_runtime_inmem.Prelude.{
  ℕ, zero, ◌+◌, Bool, true, false, Option, none, some, List, [], ◌∷◌, String, nat_eq, string_eq,
  if◌then◌else◌,
}
use langgraph_runtime_inmem.Prelude.Int.{pos}
use langgraph_runtime_inmem.Json.{
  Value, null, bool, num, str, arr, obj, nil, Fields, end, field, get, put, merge,
}
use langgraph_runtime_inmem.Ops.State.{
  Thread, ThreadStatus, busy, Run, RunStatus, Multitask, Assistant,
}

-- What `Runs.put` is asked for; `creates` is `if_not_exists == "create"`.
pub record Request : Type 0 where
  pub assistant_id : ℕ
  pub thread_id : Option ℕ
  pub run_id : ℕ
  pub kwargs : Fields
  pub user_id : Value
  pub status : RunStatus
  pub metadata : Fields
  pub prevent_insert_if_inflight : Bool
  pub multitask_strategy : Multitask
  pub creates : Bool
  pub after_time : ℕ

-- `fs.get(k, {})`
abbrev pub fields_at : String → Fields → Fields
fields_at k fs = elim (get k fs) [ some (obj gs) ↦ gs | _ ↦ end ]

-- `fs.get(k)` as a value
abbrev pub value_at : String → Fields → Value
value_at k fs = elim (get k fs) [ none ↦ null | some v ↦ v ]

abbrev pub configurable_of : Fields → Fields
configurable_of config = fields_at "configurable" config

-- Python's `a or b`
abbrev pub or_value : Value → Value → Value
or_value null b = b
or_value (bool false) b = b
or_value (num (pos zero)) b = b
or_value (str String.[]) b = b
or_value (arr nil) b = b
or_value (obj end) b = b
or_value a b = a

-- `_merge_jsonb` of the objects
unfoldable pub merge_jsonb : List Fields → Fields
merge_jsonb objects = merge_all end objects
  where
    merge_all : Fields → List Fields → Fields
    merge_all result [] = result
    merge_all result (o ∷ os) = merge_all (merge result o) os

-- The keys that a run's thread takes from its assistant.
abbrev pub origin : (ℕ → String) → Assistant → Fields
origin text_of a =
    field "graph_id" (str a.graph_id) (field "assistant_id" (str (text_of a.assistant_id)) end)

abbrev pub single : String → Fields → Fields
single k fs = field k (obj fs) end

-- The thread that is made for a run; its `state_updated_at` is not set.
unfoldable pub thread_for : (ℕ → String) → ℕ → ℕ → Assistant → Fields → Fields → Thread
unfolding merge_jsonb
thread_for text_of now id a config metadata = record {
  thread_id = id;
  created_at = now;
  updated_at = now;
  state_updated_at = none;
  metadata = merge (merge (origin text_of a) (fields_at "metadata" config)) metadata;
  status = busy;
  config = merge_jsonb (
      a.config ∷ config ∷ single "configurable" (merge_jsonb (configurable_of a.config ∷ [])) ∷ []);
  values = none;
  interrupts = none;
  failure = none;
}

abbrev pub is_busy : ThreadStatus → Bool
is_busy busy = true
is_busy _ = false

-- What a run makes of the thread that is there; a busy one stays as it is.
unfoldable pub occupied : (ℕ → String) → ℕ → Assistant → Fields → Thread → Thread
unfolding merge_jsonb
occupied text_of now a config t = if is_busy t.status then t else record t {
  status = busy;
  metadata = merge_jsonb (t.metadata ∷ origin text_of a ∷ []);
  config = merge_jsonb (
      a.config
      ∷ t.config
      ∷ config
      ∷ single "configurable"
          (merge_jsonb (configurable_of a.config ∷ configurable_of t.config ∷ []))
      ∷ []);
  updated_at = now;
}

-- The configuration and the metadata of the existing thread, or empty ones.
abbrev pub config_of : Option Thread → Fields
config_of none = end
config_of (some t) = t.config

abbrev pub metadata_of : Option Thread → Fields
metadata_of none = end
metadata_of (some t) = t.metadata

-- `kwargs.get("config", {})`
abbrev pub config_given : Request → Fields
config_given q = fields_at "config" q.kwargs

module _ (text_of : ℕ → String) (now : ℕ) (q : Request) (a : Assistant) where
  unfoldable pub run_metadata : Option Thread → Fields
  unfolding merge_jsonb
  run_metadata existing = put "assistant_id" (str (text_of a.assistant_id)) (
      merge_jsonb (
        a.metadata
        ∷ metadata_of existing
        ∷ fields_at "metadata" (config_given q)
        ∷ q.metadata
        ∷ []))

  unfoldable pub run_configurable : ℕ → Option Thread → Fields
  unfolding merge_jsonb
  run_configurable thread_id existing =
      let user : Fields → Value = λ c. value_at "user_id" (configurable_of c) in
      let identity = field "run_id" (str (text_of q.run_id)) (
        field "thread_id" (str (text_of thread_id)) (
          field "graph_id" (str a.graph_id) (
            field "assistant_id" (str (text_of a.assistant_id)) (
              field "user_id"
                (or_value (user (config_given q))
                  (or_value (user (config_of existing)) (or_value (user a.config) q.user_id)))
                end)))) in
      merge_jsonb (
        configurable_of a.config
        ∷ configurable_of (config_of existing)
        ∷ configurable_of (config_given q)
        ∷ identity
        ∷ [])

  unfoldable pub new_run : ℕ → Option Thread → Run
  unfolding run_metadata run_configurable
  new_run thread_id existing = record {
    run_id = q.run_id;
    thread_id = thread_id;
    assistant_id = a.assistant_id;
    metadata = run_metadata existing;
    status = q.status;
    created_at = some (now + q.after_time);
    updated_at = now;
    kwargs = merge q.kwargs (
        field "config"
          (obj (
            merge_jsonb (
              a.config
              ∷ config_given q
              ∷ single "configurable" (run_configurable thread_id existing)
              ∷ single "metadata" (run_metadata existing)
              ∷ [])))
          (field "context" (obj (merge_jsonb (a.context ∷ fields_at "context" q.kwargs ∷ [])))
            end));
    multitask_strategy = q.multitask_strategy;
  }
