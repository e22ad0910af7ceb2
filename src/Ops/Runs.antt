-- ===== src/Ops/Runs.antt =====
-- ops.py, `Runs`: taking the next runs from the queue, and setting and deleting runs. The consumer of
-- `Runs.next` awaits nothing between two runs that it is given, so that one call is one step. A run is
-- written through its identifier, which is that of one run.
pub mod Tables
pub mod Queue
pub mod Oldest
pub mod Exclusion
use langgraph_runtime_inmem.Prelude.{
  ℕ, suc, ◌+◌, Bool, true, false, not, ◌&&◌, Option, none, some, List, [], ◌∷◌, ◌==◌, nat_eq, ltb,
  leb, if◌then◌else◌, keep, take, Error, http, Result, ok, err,
}
use langgraph_runtime_inmem.Exec.{Exec}
use langgraph_runtime_inmem.Dict.{get, put, get_or}
use langgraph_runtime_inmem.Json.{Fields, is_empty}
use langgraph_runtime_inmem.Ops.State.{
  Run, RunStatus, Db, Checkpointer, find_thread, is_pending, is_running, has_running_run,
}
use langgraph_runtime_inmem.Ops.State
use langgraph_runtime_inmem.Ops.Threads.{get_with_filters}

-- `run.get("created_at", now) < now`
abbrev pub is_due : ℕ → Option ℕ → Bool
is_due now none = false
is_due now (some created) = ltb created now

abbrev pub created_le : Run → Run → Bool
created_le r s = leb (get_or r.created_at 0) (get_or s.created_at 0)

unfoldable pub insert_run : Run → List Run → List Run
insert_run r [] = r ∷ []
insert_run r (s ∷ ss) = if created_le r s then r ∷ s ∷ ss else s ∷ insert_run r ss

unfoldable pub sort_runs : List Run → List Run
unfolding insert_run
sort_runs [] = []
sort_runs (r ∷ rs) = insert_run r (sort_runs rs)

-- The due pending runs, oldest first.
unfoldable pub pending_runs : ℕ → List Run → List Run
unfolding sort_runs
pending_runs now runs = sort_runs (keep (λ r. is_pending r.status && is_due now r.created_at) runs)

unfoldable pub find_run : ℕ → List Run → Option Run
find_run id [] = none
find_run id (r ∷ rs) = if r.run_id == id then some r else find_run id rs

unfoldable pub update_run : ℕ → (Run → Run) → List Run → List Run
update_run id f [] = []
update_run id f (r ∷ rs) = if r.run_id == id then f r ∷ rs else r ∷ update_run id f rs

abbrev pub with_status : RunStatus → Run → Run
with_status s r = record r { status = s }

abbrev pub is_run : ℕ → ℕ → Run → Bool
is_run id thread_id r = r.run_id == id && r.thread_id == thread_id

unfoldable pub has_run : ℕ → ℕ → List Run → Bool
has_run id thread_id [] = false
has_run id thread_id (r ∷ rs) = if is_run id thread_id r then true else has_run id thread_id rs

unfoldable pub pop_run : ℕ → ℕ → List Run → List Run
pop_run id thread_id [] = []
pop_run id thread_id (r ∷ rs) = if is_run id thread_id r then rs else r ∷ pop_run id thread_id rs

abbrev pub add_yield : Option (Run × ℕ) → List (Run × ℕ) → List (Run × ℕ)
add_yield none ys = ys
add_yield (some y) ys = y ∷ ys

abbrev pub some_id : {S : Type 0} → Result ℕ × S → Result (Option ℕ) × S
some_id (ok id, s) = (ok (some id), s)
some_id (err e, s) = (err e, s)

module _ {S : Type 0} where
  -- A run that is still pending, on a thread that is there and has no running run.
  abbrev pub is_available : Db S → Run → Bool
  is_available db r =
      is_pending r.status
      && elim (find_thread r.thread_id db.threads) [ none ↦ false | some t ↦ true ]
      && not (has_running_run r.thread_id db.runs)

  -- `retry_counter.increment(run_id)`
  abbrev pub attempt_of : Db S → ℕ → ℕ
  attempt_of db run_id = suc (get_or (get run_id db.retry_counter) 0)

  unfoldable pub take_run : Run → Db S → Db S
  take_run r db = record db {
    retry_counter = put r.run_id (attempt_of db r.run_id) db.retry_counter;
    runs = update_run r.run_id (with_status RunStatus.running) db.runs;
  }

  -- One round of the loop, on the run as it is now: what is yielded, if anything.
  unfoldable pub claim : Run → Db S → Option (Run × ℕ) × Db S
  unfolding take_run
  claim queued db = elim (find_run queued.run_id db.runs) [
    | none ↦ (none, db)
    | some r ↦
        if is_available db r
        then (some (with_status RunStatus.running r, attempt_of db r.run_id), take_run r db)
        else (none, db)
  ]

  unfoldable pub claim_all : List Run → Db S → List (Run × ℕ) × Db S
  claim_all [] db = ([], db)
  claim_all (r ∷ rs) db =
      let (y, db') = claim r db in let (ys, db'') = claim_all rs db' in (add_yield y ys, db'')

  -- `Runs.next(limit=limit)`: the first `limit` due pending runs are looked at.
  unfoldable pub next : ℕ → ℕ → Db S → List (Run × ℕ) × Db S
  unfolding pending_runs
  next limit now db = claim_all (take limit (pending_runs now db.runs)) db

  -- `Runs.set_status`
  unfoldable pub set_status : ℕ → ℕ → RunStatus → Db S → Option Run × Db S
  set_status now id status db = elim (find_run id db.runs) [
    | none ↦ (none, db)
    | some r ↦ (
      some (record r { status = status; updated_at = now }),
      record db {
        runs = update_run id (λ x. record x { status = status; updated_at = now }) db.runs;
      },
    )
  ]

  -- The end of `Runs.delete`: the run's checkpoints are dropped before the run is looked for.
  unfoldable pub delete_run : Checkpointer S → ℕ → ℕ → Exec (Db S) ℕ
  delete_run cp id thread_id db =
      let dropped = record db { saver = cp.delete_for_run thread_id id db.saver } in
      if has_run id thread_id db.runs
      then (ok id, record dropped { runs = pop_run id thread_id db.runs })
      else (err (http 404), dropped)

  -- `Runs.delete`; `none` is the empty iterator, for a thread that the filters hide.
  unfoldable pub delete : Checkpointer S → Result Fields → ℕ → ℕ → Exec (Db S) (Option ℕ)
  unfolding get_with_filters delete_run
  delete cp (err e) id thread_id db = (err e, db)
  delete cp (ok filters) id thread_id db =
      if is_empty filters
      then some_id (delete_run cp id thread_id db)
      else let (found, db') = get_with_filters thread_id filters db in
        elim found [
          | err e ↦ (err e, db')
          | ok none ↦ (ok none, db')
          | ok (some t) ↦ some_id (delete_run cp id thread_id db')
        ]
