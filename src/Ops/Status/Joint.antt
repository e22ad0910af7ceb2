-- ===== src/Ops/Status/Joint.antt =====
-- What closing a run makes of its thread.
use langgraph_runtime_inmem.Prelude.{
  ℕ, ◌≡◌, refl, Bool, none, true, false, ◌||◌, Option, some, List, String, nat_eq, arith, ok,
  if◌then◌else◌, ap,
}
use langgraph_runtime_inmem.Json.{Value, str, put, end}
use langgraph_runtime_inmem.Ops.State.{
  Thread, ThreadStatus, Run, RunStatus, Db, Checkpointer, is_active, find_thread, update_thread,
  has_active_runs,
}
use langgraph_runtime_inmem.Ops.State
use langgraph_runtime_inmem.Ops.State.Tables.{find_updated}
use langgraph_runtime_inmem.Ops.Runs.{is_run, has_run, find_run, update_run, pop_run, delete_run}
use langgraph_runtime_inmem.Ops.Runs
use langgraph_runtime_inmem.Ops.Runs.Queue.{UniqueRuns}
use langgraph_runtime_inmem.Ops.Status.{
  Payload, Failure, Closing, becomes, rollback, has_next, base_status, failed, failed_joint, closed,
  with_graph_id, interrupts_of, close_run, set_status, finish, rolled_back, close, set_joint_status,
}
use langgraph_runtime_inmem.Ops.Status.Closed.{
  has_active_runs-close_run, close_run-update, has_run-found, update_thread-compose,
  expected_status, status_lem, set_run, IsClosed, find_run-updated, find_run-update_ne,
  find_run-pop_run, find_run-pop_run_ne,
}

module _ (patch_interrupt : Value → Value) (now id : ℕ) (graph_id : String)
    (checkpoint : Option Payload) (exception : Option Failure) where
  -- The thread as its active runs, the checkpoint and the exception make it.
  abbrev settled : List Run → Thread → Thread
  settled runs t =
      closed patch_interrupt now
        (if has_active_runs id runs
          then State.busy
          else base_status (failed_joint exception) (has_next checkpoint))
        checkpoint exception (with_graph_id graph_id t)

  -- The same by its fields.
  abbrev outcome : List Run → Thread → Thread
  outcome runs t = record t {
    updated_at = now;
    state_updated_at = some now;
    status = expected_status (has_active_runs id runs) exception checkpoint;
    interrupts = some (interrupts_of patch_interrupt checkpoint);
    failure = elim exception [ none ↦ none | some f ↦ some f.json ];
    values = elim checkpoint [ none ↦ t.values | some c ↦ some c.values ];
    metadata = put "graph_id" (str graph_id) t.metadata;
  }

  settled_lem : (runs : List Run) (t : Thread) → settled runs t ≡ outcome runs t
  unfolding closed
  settled_lem runs t = rw (status_lem (has_active_runs id runs) exception checkpoint) (ground arith)

module _ {S : Type 0} (patch_interrupt : Value → Value) (now id : ℕ) (graph_id : String)
    (checkpoint : Option Payload) (exception : Option Failure) where
  finish_lem :
      (started : Bool) (db : Db S) (t : Thread)
      → find_thread id db.threads ≡ some t
      → (started || has_active_runs id db.runs) ≡ has_active_runs id db.runs
      → find_thread id
          (finish patch_interrupt now id graph_id started checkpoint exception db).threads
        ≡ some (
            outcome patch_interrupt now id graph_id checkpoint exception
              (finish patch_interrupt now id graph_id started checkpoint exception db).runs
              t)
  unfolding finish
  finish_lem started db t f s =
      rw
        (
          s,
          find_updated id (settled patch_interrupt now id graph_id checkpoint exception db.runs)
              db.threads t (λ u. unfold closed in refl) f,
        )
        (ap some (settled_lem patch_interrupt now id graph_id checkpoint exception db.runs t))

  joint_found :
      (cp : Checkpointer S) (run_id : ℕ) (closing : Closing) (db : Db S) (t : Thread)
      → find_thread id db.threads ≡ some t
      → has_run run_id id db.runs ≡ true
      → set_joint_status patch_interrupt now cp id run_id closing graph_id checkpoint exception db
        ≡ close patch_interrupt now cp id run_id closing graph_id checkpoint exception db
  unfolding set_joint_status
  joint_found cp run_id closing db t f h = rw (f, h, set_joint_status) refl

  delete_found :
      (cp : Checkpointer S) (run_id : ℕ) (db : Db S)
      → has_run run_id id db.runs ≡ true
      → Runs.delete cp (ok end) run_id id db ≡ (
        ok (some run_id),
        record db {
          saver = cp.delete_for_run id run_id db.saver;
          runs = pop_run run_id id db.runs;
        },
      )
  unfolding Runs.delete delete_run
  delete_found cp run_id db h = rw (h, delete_run) refl

  close_rollback :
      (cp : Checkpointer S) (run_id : ℕ) (db : Db S)
      → has_run run_id id db.runs ≡ true
      → close patch_interrupt now cp id run_id rollback graph_id checkpoint exception db ≡ (
        ok tt,
        finish patch_interrupt now id graph_id false checkpoint exception (record db {
          saver = cp.delete_for_run id run_id db.saver;
          runs = pop_run run_id id db.runs;
        }),
      )
  unfolding close
  close_rollback cp run_id db h =
      ap (rolled_back patch_interrupt now id graph_id checkpoint exception)
        (delete_found cp run_id db h)

  becomes-IsClosed :
      (db : Db S) (status : RunStatus) (r : Run)
      → find_run r.run_id db.runs ≡ some r
      → r.thread_id ≡ id
      → IsClosed now (becomes status) r db.runs (close_run now r.run_id id status db.runs)
  becomes-IsClosed db status r f e = rw (close_run-update now r.run_id id status db.runs r f e) (
    find_run-updated r.run_id (set_run now status) db.runs r (λ x. refl) f,
    λ k other. find_run-update_ne r.run_id k (set_run now status) db.runs (λ x. refl) other,
  )

  -- Where the identifiers of runs are unique, the thread is there and the run is a run of it, closing the run succeeds. The run then has the status that was given and the time of the call, or
  -- after a rollback it is gone, and other runs stay. The thread is busy exactly when it has an active
  -- run afterwards; otherwise it is in error if there was an exception that no user caused,
  -- interrupted if the checkpoint names a next node, and idle else. Its times are that of the call,
  -- its values those of the checkpoint, if there is one, its error is that of the exception, and the
  -- graph is written to its metadata.
  pub set_joint_status_lem :
      (cp : Checkpointer S) (closing : Closing) (db : Db S) (t : Thread) (r : Run)
      → find_thread id db.threads ≡ some t
      → UniqueRuns db.runs
      → find_run r.run_id db.runs ≡ some r
      → r.thread_id ≡ id
      → let (result, after) =
          set_joint_status patch_interrupt now cp id r.run_id closing graph_id checkpoint exception
            db in
        (result ≡ ok tt)
        × IsClosed now closing r db.runs after.runs
        × (find_thread id after.threads
            ≡ some (record t {
              updated_at = now;
              state_updated_at = some now;
              status = expected_status (has_active_runs id after.runs) exception checkpoint;
              interrupts = some (interrupts_of patch_interrupt checkpoint);
              failure = elim exception [ none ↦ none | some f ↦ some f.json ];
              values = elim checkpoint [ none ↦ t.values | some c ↦ some c.values ];
              metadata = put "graph_id" (str graph_id) t.metadata;
            }))
  unfolding close
  set_joint_status_lem cp rollback db t r f u g e =
      let h = has_run-found r.run_id id db.runs r g e in
      rw (joint_found cp r.run_id rollback db t f h, close_rollback cp r.run_id db h)
        (
          refl,
          unfold finish in
              (
                find_run-pop_run r.run_id id db.runs r u g e,
                λ k. find_run-pop_run_ne r.run_id k id db.runs,
              ),
          finish_lem false _ t f refl,
        )
  set_joint_status_lem cp (becomes status) db t r f u g e =
      let h = has_run-found r.run_id id db.runs r g e in
      rw (joint_found cp r.run_id (becomes status) db t f h, close)
        (
          refl,
          unfold finish in becomes-IsClosed db status r g e,
          finish_lem (is_active status)
              (record db { runs = close_run now r.run_id id status db.runs }) t f
              (has_active_runs-close_run now r.run_id id status db.runs h),
        )

  run_set :
      (run_id : ℕ) (status : RunStatus) (db : Db S) (r : Run)
      → find_run run_id db.runs ≡ some r
      → (Runs.set_status now run_id status db).1 ≡ record db {
        runs = update_run run_id (λ x. record x { status = status; updated_at = now }) db.runs;
      }
  unfolding Runs.set_status
  run_set run_id status db r g = rw (g, Runs.set_status) refl

  thread_set :
      (db : Db S) (t : Thread)
      → find_thread id db.threads ≡ some t
      → (set_status patch_interrupt now id checkpoint exception db).1 ≡ record db {
        threads =
            update_thread id
              (closed patch_interrupt now
                (if has_active_runs id db.runs
                  then State.busy
                  else base_status (failed exception) (has_next checkpoint))
                checkpoint
                exception)
              db.threads;
      }
  unfolding set_status
  thread_set db t f = rw (f, set_status) refl

  -- Closing a run is `Runs.set_status` and then `Threads.set_status`, with the graph written to the
  -- thread's metadata, where the run's identifier is that of a run of this thread and no user has
  -- interrupted the run or rolled it back.
  pub set_joint_status-set_status :
      (cp : Checkpointer S) (run_id : ℕ) (status : RunStatus) (db : Db S) (t : Thread) (r : Run)
      → find_thread id db.threads ≡ some t
      → find_run run_id db.runs ≡ some r
      → r.thread_id ≡ id
      → failed_joint exception ≡ failed exception
      → let first = (Runs.set_status now run_id status db).1 in
        let second = (set_status patch_interrupt now id checkpoint exception first).1 in
        set_joint_status patch_interrupt now cp id run_id
          (becomes status)
          graph_id
          checkpoint
          exception
          db
        ≡ (
          ok tt,
          record second { threads = update_thread id (with_graph_id graph_id) second.threads },
        )
  unfolding close finish closed
  set_joint_status-set_status cp run_id status db t r f g e user =
      let h = has_run-found run_id id db.runs r g e in
      let same = close_run-update now run_id id status db.runs r g e in
      let busy = rw same at (has_active_runs-close_run now run_id id status db.runs h) in
      let first : Db S = record db {
        runs = update_run run_id (λ x. record x { status = status; updated_at = now }) db.runs;
      } in
      rw
        (
          joint_found cp run_id (becomes status) db t f h,
          run_set run_id status db r g,
          thread_set first t f,
          close,
          finish,
          same,
          busy,
          user,
          update_thread-compose id (with_graph_id graph_id)
              (closed patch_interrupt now
                (if has_active_runs id first.runs
                  then State.busy
                  else base_status (failed exception) (has_next checkpoint))
                checkpoint exception)
              db.threads (λ u. refl),
        )
        refl
