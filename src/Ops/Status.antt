-- ===== src/Ops/Status.antt =====
-- ops.py: `Threads.set_status` and `Threads.set_joint_status`, which close a run. `patch_interrupt` is
-- `_patch_interrupt`, whose work is that of langgraph's class `Interrupt`.
pub mod Closed
pub mod Joint
use langgraph_runtime_inmem.Prelude.{
  ℕ, Bool, true, false, not, ◌&&◌, ◌||◌, Option, none, some, List, [], ◌∷◌, String, ◌==◌, nat_eq,
  http, Result, ok, err, if◌then◌else◌,
}
use langgraph_runtime_inmem.Exec.{Exec}
use langgraph_runtime_inmem.Json.{Value, str, arr, Items, nil, cons, Fields, end, put}
use langgraph_runtime_inmem.Ops.State.{
  Thread, ThreadStatus, Run, RunStatus, Db, Checkpointer, is_active, find_thread, update_thread,
  has_active_runs,
}
use langgraph_runtime_inmem.Ops.State
use langgraph_runtime_inmem.Ops.Runs.{is_run, has_run}
use langgraph_runtime_inmem.Ops.Runs

-- A task of a checkpoint: its `id`, and its `interrupts` as they came.
pub record Task : Type 0 where
  pub id : String
  pub interrupts : List Value

-- The keys of a `CheckpointPayload` that are read.
pub record Payload : Type 0 where
  pub next : List String
  pub tasks : List Task
  pub values : Value

-- An exception that ended a run: its JSON form, and whether it is a `UserInterrupt` or `UserRollback`.
pub record Failure : Type 0 where
  pub json : Value
  pub is_user : Bool

-- The status that `set_joint_status` is given.
pub data Closing : Type 0 where
  rollback : Closing
  becomes : RunStatus → Closing

abbrev pub is_none : {A : Type 0} → List A → Bool
is_none [] = true
is_none (x ∷ xs) = false

-- `bool(checkpoint and checkpoint["next"])`
abbrev pub has_next : Option Payload → Bool
has_next none = false
has_next (some c) = not (is_none c.next)

abbrev pub patched_items : (Value → Value) → List Value → Items
patched_items patch_interrupt [] = nil
patched_items patch_interrupt (v ∷ vs) = cons (patch_interrupt v) (patched_items patch_interrupt vs)

unfoldable pub add_tasks : (Value → Value) → List Task → Fields → Fields
add_tasks patch_interrupt [] fs = fs
add_tasks patch_interrupt (t ∷ ts) fs =
    if is_none t.interrupts
    then add_tasks patch_interrupt ts fs
    else add_tasks patch_interrupt ts
        (put t.id (arr (patched_items patch_interrupt t.interrupts)) fs)

-- `{t["id"]: [_patch_interrupt(i) …] for t in checkpoint["tasks"] if t.get("interrupts")}`
unfoldable pub interrupts_of : (Value → Value) → Option Payload → Fields
interrupts_of patch_interrupt none = end
interrupts_of patch_interrupt (some c) = add_tasks patch_interrupt c.tasks end

abbrev pub error_of : Option Failure → Option Value
error_of none = none
error_of (some f) = some f.json

-- `update["values"] = checkpoint["values"]`, if there is a checkpoint
abbrev pub values_of : Option Payload → Option Value → Option Value
values_of none old = old
values_of (some c) old = some c.values

-- The status of a thread on which no run is active.
unfoldable pub base_status : Bool → Bool → ThreadStatus
base_status failed next =
    if failed then State.error else if next then State.interrupted else State.idle

abbrev pub failed : Option Failure → Bool
failed none = false
failed (some f) = true

-- `exception and not isinstance(exception, UserInterrupt | UserRollback)`
abbrev pub failed_joint : Option Failure → Bool
failed_joint none = false
failed_joint (some f) = not f.is_user

-- `thread.update(update)`
unfoldable pub closed :
    (Value → Value) → ℕ → ThreadStatus → Option Payload → Option Failure → Thread → Thread
closed patch_interrupt now status checkpoint exception t = record t {
  updated_at = now;
  state_updated_at = some now;
  status = status;
  interrupts = some (interrupts_of patch_interrupt checkpoint);
  failure = error_of exception;
  values = values_of checkpoint t.values;
}

-- `thread["metadata"]["graph_id"] = graph_id`
abbrev pub with_graph_id : String → Thread → Thread
with_graph_id graph_id t = record t { metadata = put "graph_id" (str graph_id) t.metadata }

-- The status and the time of the first run with these identifiers.
unfoldable pub close_run : ℕ → ℕ → ℕ → RunStatus → List Run → List Run
close_run now id thread_id status [] = []
close_run now id thread_id status (r ∷ rs) =
    if is_run id thread_id r
    then record r { status = status; updated_at = now } ∷ rs
    else r ∷ close_run now id thread_id status rs

module _ {S : Type 0} (patch_interrupt : Value → Value) (now : ℕ) where
  unfoldable pub set_status : ℕ → Option Payload → Option Failure → Exec (Db S) (Unit {0})
  set_status id checkpoint exception db = elim (find_thread id db.threads) [
    | none ↦ (err (http 404), db)
    | some t ↦
        let status =
          if has_active_runs id db.runs
          then State.busy
          else base_status (failed exception) (has_next checkpoint) in
        (
          ok tt,
          record db {
            threads =
                update_thread id (closed patch_interrupt now status checkpoint exception)
                  db.threads;
          },
        )
  ]

  -- The thread's row, after its run was closed.
  unfoldable pub finish : ℕ → String → Bool → Option Payload → Option Failure → Db S → Db S
  finish id graph_id started checkpoint exception db =
      let status =
        if started || has_active_runs id db.runs
        then State.busy
        else base_status (failed_joint exception) (has_next checkpoint) in
      record db {
        threads =
            update_thread id
              (λ t.
                closed patch_interrupt now status checkpoint exception (with_graph_id graph_id t))
              db.threads;
      }

  abbrev pub rolled_back :
      ℕ
      → String
      → Option Payload
      → Option Failure
      → Result (Option ℕ) × Db S
      → Result (Unit {0}) × Db S
  rolled_back id graph_id checkpoint exception (err e, db) = (err e, db)
  rolled_back id graph_id checkpoint exception (ok _, db) =
      (ok tt, finish id graph_id false checkpoint exception db)

  -- A rollback deletes the run, with no authorization context.
  unfoldable pub close :
      Checkpointer S
      → ℕ
      → ℕ
      → Closing
      → String
      → Option Payload
      → Option Failure
      → Exec (Db S) (Unit {0})
  unfolding close_run
  close cp id run_id rollback graph_id checkpoint exception db =
      rolled_back id graph_id checkpoint exception (Runs.delete cp (ok end) run_id id db)
  close cp id run_id (becomes status) graph_id checkpoint exception db = (
    ok tt,
    finish id graph_id (is_active status) checkpoint exception
        (record db { runs = close_run now run_id id status db.runs }),
  )

  unfoldable pub set_joint_status :
      Checkpointer S
      → ℕ
      → ℕ
      → Closing
      → String
      → Option Payload
      → Option Failure
      → Exec (Db S) (Unit {0})
  unfolding close
  set_joint_status cp id run_id closing graph_id checkpoint exception db =
      elim (find_thread id db.threads) [
        | none ↦ (err (http 404), db)
        | some t ↦
            if has_run run_id id db.runs
            then close cp id run_id closing graph_id checkpoint exception db
            else (err (http 404), db)
      ]
