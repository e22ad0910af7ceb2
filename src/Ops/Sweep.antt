-- ===== src/Ops/Sweep.antt =====
-- ops.py, `Threads.sweep_ttl`: the sweep of expired threads. It runs with no authorization context, so
-- that the deletions it makes have no filters.
pub mod Selection
pub mod Order
pub mod Distinct
pub mod Entries
pub mod Steps
pub mod Safety
pub mod Batches
pub mod Effect
pub mod Repeat
use langgraph_runtime_inmem.Prelude.{
  ℕ, zero, suc, ◌+◌, ◌-◌, max, Bool, true, false, not, ◌&&◌, ◌||◌, Option, none, some, List, [],
  ◌∷◌, ◌++◌, map, ◌==◌, nat_eq, leb, ltb, Error, http, Error, http, overflow_error, Result, ok, err,
  ◌>>=◌, if◌then◌else◌, keep, length, take, drop, sum_by,
}
use langgraph_runtime_inmem.Prelude.Int.{ℤ, pos, negsuc, pos_part}
use langgraph_runtime_inmem.Dict.{put}
use langgraph_runtime_inmem.Json.{end}
use langgraph_runtime_inmem.Ops.State.{
  Thread, Run, Db, Checkpointer, TtlState, has_active_runs, Strategy, keep_latest,
}
use langgraph_runtime_inmem.Ops.State
use langgraph_runtime_inmem.Ops.Ttl.{
  TtlConfig, TtlPolicy, effective_thread_ttl, is_swept, is_keep_latest,
}
use langgraph_runtime_inmem.Ops.Threads

-- One element of the list `expired`.
pub record Expired : Type 0 where
  pub expires_at : ℕ
  pub thread_id : ℕ
  pub policy : TtlPolicy
  pub state : TtlState
  pub updated_at : ℕ

abbrev pub is_marked : TtlPolicy → TtlState → ℕ → Bool
is_marked policy state updated_at =
    is_keep_latest policy.strategy && is_swept state.last_swept_updated_at updated_at

-- `datetime.max`, in microseconds from `datetime.min`
abbrev pub max_time : ℕ
max_time = 315537897599999999

-- `updated_at + timedelta(minutes=ttl_minutes)`, which raises beyond `datetime.max`
abbrev pub expiry_of : ℕ → ℕ → Result ℕ
expiry_of updated_at ttl_minutes =
    if leb (updated_at + ttl_minutes) max_time
    then ok (updated_at + ttl_minutes)
    else err overflow_error

abbrev pub entry_at : ℕ → Thread → TtlPolicy → TtlState → ℕ → Option Expired
entry_at now t policy state expires_at =
    if leb expires_at now
    then some (record {
      expires_at = expires_at;
      thread_id = t.thread_id;
      policy = policy;
      state = state;
      updated_at = t.updated_at;
    })
    else none

-- A thread with a policy, if it has expired and was not pruned since its last update.
unfoldable pub expired_entry : ℕ → Thread → Option TtlPolicy × TtlState → Result (Option Expired)
expired_entry now t (none, state) = ok none
expired_entry now t (some policy, state) =
    if is_marked policy state t.updated_at then ok none else do
      expires_at ← expiry_of t.updated_at policy.ttl_minutes
      ok (entry_at now t policy state expires_at)

abbrev pub add_entry : Option Expired → List Expired → List Expired
add_entry none xs = xs
add_entry (some x) xs = x ∷ xs

module _ {S : Type 0} (global : Option TtlConfig) (now : ℕ) (db : Db S) where
  -- The body of the loop over the threads. Active threads are skipped before their policy is read.
  unfoldable pub candidate : Thread → Result (Option Expired)
  unfolding expired_entry
  candidate t = if has_active_runs t.thread_id db.runs then ok none else do
    found ← effective_thread_ttl global db.thread_ttls t.thread_id
    expired_entry now t found

  unfoldable pub scan : List Thread → Result (List Expired)
  unfolding candidate
  scan [] = ok []
  scan (t ∷ ts) = do entry ← candidate t; rest ← scan ts; ok (add_entry entry rest)

-- The order of the sort key `(expires_at, str(thread_id))`.
abbrev pub entry_le : Expired → Expired → Bool
entry_le x y =
    ltb x.expires_at y.expires_at || x.expires_at == y.expires_at && leb x.thread_id y.thread_id

unfoldable pub insert_entry : Expired → List Expired → List Expired
insert_entry x [] = x ∷ []
insert_entry x (y ∷ ys) = if entry_le x y then x ∷ y ∷ ys else y ∷ insert_entry x ys

-- `expired.sort(key=…)`, a stable sort
unfoldable pub sort_entries : List Expired → List Expired
unfolding insert_entry
sort_entries [] = []
sort_entries (x ∷ xs) = insert_entry x (sort_entries xs)

-- `expired[:effective_limit]`, where `None` is no limit and a negative one counts as 0
abbrev pub limited : Option ℤ → List Expired → List Expired
limited none xs = xs
limited (some limit) xs = take (pos_part limit) xs

-- The argument, and otherwise the configured `sweep_limit`.
abbrev pub effective_limit : Option ℤ → Option ℤ → Option ℤ
effective_limit (some limit) configured = some limit
effective_limit none configured = configured

-- `limit is not None and limit <= 0`
abbrev pub is_disabled : Option ℤ → Bool
is_disabled none = false
is_disabled (some (pos n)) = n == 0
is_disabled (some (negsuc n)) = true

abbrev pub is_kept : Expired → Bool
is_kept x = is_keep_latest x.policy.strategy

-- The counts of a sweep, beside the database, and what was raised, after which nothing is done.
pub record Progress (S : Type 0) : Type 0 where
  pub db : Db S
  pub processed : ℕ
  pub deleted : ℕ
  pub raised : Option Error

-- `ttl_state["last_swept_updated_at"] = updated_at`, written back
unfoldable pub mark_swept : {S : Type 0} → Expired → Db S → Db S
mark_swept x db = record db {
  thread_ttls =
      put x.thread_id (record x.state { last_swept_updated_at = some x.updated_at }) db.thread_ttls;
}

-- `exc.status_code == 404`, of an `HTTPException`
abbrev pub is_missing : Error → Bool
is_missing (http code) = code == 404
is_missing e = false

abbrev pub after_deletion : {S : Type 0} → Progress S → Result ℕ × Db S → Progress S
after_deletion p (ok id, db) = record p {
  db = db;
  processed = p.processed + 1;
  deleted = p.deleted + 1;
}
after_deletion p (err e, db) = record p { db = db; raised = if is_missing e then none else some e }

-- `(processed, deleted)`, or what was raised
abbrev pub counts_of : {S : Type 0} → Progress S → Result (ℕ × ℕ)
counts_of p = elim p.raised [ none ↦ ok (p.processed, p.deleted) | some e ↦ err e ]

module _ {S : Type 0} (cp : Checkpointer S) where
  -- One thread of a batch, if nothing was raised: a deletion that raises a 404 is passed over.
  unfoldable pub process_entry : Progress S → Expired → Progress S
  unfolding mark_swept
  process_entry p x =
      if is_kept x
      then record p { db = mark_swept x p.db; processed = p.processed + 1 }
      else after_deletion p (Threads.delete cp (ok end) x.thread_id p.db)

  unfoldable pub process : Progress S → Expired → Progress S
  unfolding process_entry
  process p x = elim p.raised [ none ↦ process_entry p x | some e ↦ p ]

  unfoldable pub process_all : Progress S → List Expired → Progress S
  process_all p [] = p
  process_all p (x ∷ xs) = process_all (process p x) xs

  -- The checkpointer prunes the threads of a batch that are kept, if there are any.
  unfoldable pub prune_kept : List Expired → Db S → Db S
  prune_kept [] db = db
  prune_kept (x ∷ xs) db = record db {
    saver = cp.prune_latest (map (λ e. e.thread_id) (x ∷ xs)) db.saver;
  }

  unfoldable pub prune_batch : List Expired → Db S → Db S
  unfolding prune_kept
  prune_batch batch db = prune_kept (keep is_kept batch) db

  unfoldable pub process_batch : Progress S → List Expired → Progress S
  unfolding process_all prune_batch
  process_batch p batch = elim p.raised [
    | none ↦ process_all (record p { db = prune_batch batch p.db }) batch
    | some e ↦ p
  ]

  -- `for offset in range(0, len(expired), batch_size)`; as many rounds as entries are enough.
  unfoldable pub batches : ℕ → ℕ → Progress S → List Expired → Progress S
  batches zero size p xs = p
  batches (suc rounds) size p [] = p
  batches (suc rounds) size p (x ∷ xs) =
      batches rounds size (process_batch p (take size (x ∷ xs))) (drop size (x ∷ xs))

  unfoldable pub sweep_selected : ℕ → Db S → List Expired → Progress S
  sweep_selected batch_size db selected =
      batches (length selected) (max 1 batch_size)
        (record { db = db; processed = 0; deleted = 0; raised = none }) selected

-- What is selected for a sweep.
unfoldable pub select :
    {S : Type 0} → Option TtlConfig → Option ℤ → ℕ → Db S → Result (List Expired)
unfolding scan sort_entries
select global limit now db = do
  expired ← scan global now db db.threads
  ok (limited limit (sort_entries expired))

-- The arguments are the checkpointer, the global TTL configuration and its `sweep_limit`, the limit
-- and the batch size of the call, and the time. The result is `(processed, deleted)`.
unfoldable pub sweep_ttl :
    {S : Type 0}
    → Checkpointer S
    → Option TtlConfig
    → Option ℤ
    → Option ℤ
    → ℕ
    → ℕ
    → Db S
    → Result (ℕ × ℕ) × Db S
sweep_ttl cp global configured limit batch_size now db =
    if is_disabled limit
    then (ok (0, 0), db)
    else elim (select global (effective_limit limit configured) now db) [
      | err e ↦ (err e, db)
      | ok selected ↦ let p = sweep_selected cp batch_size db selected in (counts_of p, p.db)
    ]
