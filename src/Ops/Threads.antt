-- ===== src/Ops/Threads.antt =====
-- ops.py, `Threads`: creating, reading, patching and deleting a thread. `auth` is what the
-- authorization handler answered: the filters, where the empty dictionary stands for no filter, or
-- the exception that it raised. The handler is taken to leave the tables alone. `now` is the clock.
pub mod Deletion
pub mod Creation
use langgraph_runtime_inmem.Prelude.{
  ℕ, Bool, true, false, not, ◌&&◌, Option, none, some, List, [], ◌∷◌, ◌++◌, ◌==◌, nat_eq, Error,
  http, Result, ok, err, if◌then◌else◌, keep,
}
use langgraph_runtime_inmem.Exec.{Exec, pure, raise, lift, gets, modify, ◌>>=◌, ◌>>◌}
use langgraph_runtime_inmem.Dict.{remove}
use langgraph_runtime_inmem.Json.{Fields, end, merge}
use langgraph_runtime_inmem.Filters.{is_allowed}
use langgraph_runtime_inmem.Ops.State.{
  Thread, ThreadStatus, idle, Run, Cron, Db, Checkpointer, find_thread, update_thread, pop_thread,
  TtlState,
}
use langgraph_runtime_inmem.Ops.Ttl.{
  TtlConfig, TtlInfo, TtlPolicy, set_thread_ttl_override, effective_thread_ttl, thread_ttl_info,
}

pub data OnConflict : Type 0 where
  raises do_nothing : OnConflict

abbrev pub is_some : {A : Type 0} → Option A → Bool
is_some none = false
is_some (some a) = true

-- `thread.setdefault("state_updated_at", thread.get("updated_at"))`
abbrev pub with_state_time : Thread → Thread
with_state_time t = record t {
  state_updated_at = elim t.state_updated_at [ none ↦ some t.updated_at | some u ↦ some u ];
}

abbrev pub new_thread : ℕ → ℕ → Fields → Thread
new_thread now thread_id metadata = record {
  thread_id = thread_id;
  created_at = now;
  updated_at = now;
  state_updated_at = some now;
  metadata = metadata;
  status = idle;
  config = end;
  values = none;
  interrupts = none;
  failure = none;
}

abbrev pub patched : ℕ → Fields → Thread → Thread
patched now metadata t = record (with_state_time t) {
  metadata = merge t.metadata metadata;
  updated_at = now;
}

-- `result["ttl"]`, if a policy applies
abbrev pub ttl_info_of : Thread → Result (Option TtlPolicy × TtlState) → Result (Option TtlInfo)
ttl_info_of t (err e) = err e
ttl_info_of t (ok (none, state)) = ok none
ttl_info_of t (ok (some policy, state)) = ok (some (thread_ttl_info t policy state))

module _ {S : Type 0} where
  -- The rows that fall with a thread: its runs and crons, and the thread and its TTL record.
  unfoldable pub drop_runs : ℕ → Db S → Db S
  drop_runs id db = record db {
    runs = keep (λ r. not (r.thread_id == id)) db.runs;
    crons = keep (λ c. elim c.thread_id [ none ↦ true | some t ↦ not (t == id) ]) db.crons;
  }

  unfoldable pub drop_row : ℕ → Db S → Db S
  drop_row id db = record db {
    threads = pop_thread id db.threads;
    thread_ttls = remove id db.thread_ttls;
  }

  unfoldable pub drop_thread_rows : ℕ → Db S → Db S
  unfolding drop_runs drop_row
  drop_thread_rows id db = drop_row id (drop_runs id db)

  -- The end of `Threads.delete`, by what came of the checkpointer's deletion: when it raises, the
  -- runs and the crons are gone, and the row and the TTL record stay.
  unfoldable pub after_checkpoints : ℕ → Db S → Result (Unit {0}) × S → Result ℕ × Db S
  unfolding drop_row
  after_checkpoints id db deleted = elim (deleted.0) [
    | err e ↦ (err e, record db { saver = deleted.1 })
    | ok _ ↦ (ok id, drop_row id (record db { saver = deleted.1 }))
  ]

  unfoldable pub delete : Checkpointer S → Result Fields → ℕ → Exec (Db S) ℕ
  unfolding drop_runs after_checkpoints
  delete cp auth id db = elim auth [
    | err e ↦ (err e, db)
    | ok filters ↦ elim (find_thread id db.threads) [
      | none ↦ (err (http 404), db)
      | some t ↦ elim (is_allowed t.metadata filters) [
        | err e ↦ (err e, db)
        | ok allowed ↦
            if allowed
            then after_checkpoints id (drop_runs id db) (cp.delete_thread id db.saver)
            else (err (http 404), db)
      ]
    ]
  ]

  -- `if ttl is not None: _set_thread_ttl_override(conn, thread_id, ttl)`
  unfoldable pub override_ttl : ℕ → Option TtlConfig → Exec (Db S) (Unit {0})
  override_ttl id none db = (ok tt, db)
  override_ttl id (some ttl) db = elim (set_thread_ttl_override db.thread_ttls id ttl) [
    | err e ↦ (err e, db)
    | ok ttls ↦ (ok tt, record db { thread_ttls = ttls })
  ]

  -- What `put` does with a thread that exists.
  unfoldable pub put_existing : Fields → OnConflict → Thread → Exec (Db S) Thread
  put_existing filters raises t db = elim (is_allowed t.metadata filters) [
    | err e ↦ (err e, db)
    | ok allowed ↦ (err (http 409), db)
  ]
  put_existing filters do_nothing t db = elim (is_allowed t.metadata filters) [
    | err e ↦ (err e, db)
    | ok allowed ↦ if allowed then (ok t, db) else (err (http 409), db)
  ]

  -- The new thread is in the table before its TTL is checked.
  unfoldable pub put :
      Result Fields → ℕ → ℕ → Fields → OnConflict → Option TtlConfig → Exec (Db S) Thread
  unfolding put_existing override_ttl
  put auth now id metadata if_exists ttl = do
    filters ← lift auth
    existing ← gets (λ db. find_thread id db.threads)
    elim existing [
      | some t ↦ put_existing filters if_exists t
      | none ↦ do
        modify (λ db. record db { threads = db.threads ++ new_thread now id metadata ∷ [] })
        override_ttl id ttl
        pure (new_thread now id metadata)
    ]

  -- `none` is the empty iterator, for a thread that is not there or not allowed.
  unfoldable pub patch :
      Result Fields → ℕ → ℕ → Fields → Option TtlConfig → Exec (Db S) (Option Thread)
  unfolding override_ttl
  patch auth now id metadata ttl db = elim (find_thread id db.threads) [
    | none ↦ (ok none, db)
    | some t ↦
        (do
          filters ← lift auth
          allowed ← lift (is_allowed t.metadata filters)
          if not allowed then pure none else do
            modify (λ d. record d { threads = update_thread id (patched now metadata) d.threads })
            override_ttl id ttl
            pure (some (patched now metadata t)))
          db
  ]

  -- The default for `state_updated_at` is written to the stored thread.
  unfoldable pub get_with_filters : ℕ → Fields → Exec (Db S) (Option Thread)
  get_with_filters id filters db = elim (find_thread id db.threads) [
    | none ↦ (ok none, db)
    | some t ↦ elim (is_allowed t.metadata filters) [
      | err e ↦ (err e, db)
      | ok allowed ↦
          if allowed
          then (
            ok (some (with_state_time t)),
            record db { threads = update_thread id with_state_time db.threads },
          )
          else (ok none, db)
    ]
  ]

  unfoldable pub get :
      Result Fields → Option TtlConfig → ℕ → Bool → Exec (Db S) (Thread × Option TtlInfo)
  unfolding get_with_filters
  get auth global id include_ttl = do
    filters ← lift auth
    found ← get_with_filters id filters
    elim found [
      | none ↦ raise (http 404)
      | some t ↦
          if include_ttl
          then (do
            config ← gets (λ db. effective_thread_ttl global db.thread_ttls id)
            info ← lift (ttl_info_of t config)
            pure (t, info))
          else pure (t, none)
    ]
