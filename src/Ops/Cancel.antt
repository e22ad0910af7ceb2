-- ===== src/Ops/Cancel.antt =====
-- ops.py: `Runs.cancel`. `auth` is what the authorization handler answers, `now` the clock, and
-- `has_queues run_id thread_id` whether the stream manager has a queue for the run when it is asked
-- with the thread of the call, which there need not be one.
pub mod Effect
use langgraph_runtime_inmem.Prelude.{
  ℕ, Bool, true, false, not, ◌&&◌, ◌||◌, Option, none, some, List, [], ◌∷◌, ◌==◌, nat_eq, Error,
  http, value_error, Result, ok, err, if◌then◌else◌, keep, any, map,
}
use langgraph_runtime_inmem.Exec.{Exec}
use langgraph_runtime_inmem.Json.{Fields, end, is_empty}
use langgraph_runtime_inmem.Ops.State.{
  Thread, Run, RunStatus, Db, Checkpointer, is_active, is_pending, is_running, find_thread,
  update_thread,
}
use langgraph_runtime_inmem.Ops.State
use langgraph_runtime_inmem.Ops.Threads.{get_with_filters}
use langgraph_runtime_inmem.Ops.Runs.{update_run}
use langgraph_runtime_inmem.Ops.Runs

-- The action, and the status that selects runs.
pub data Action : Type 0 where
  interrupts rolls_back : Action

pub data Selected : Type 0 where
  pendings runnings all unsupported : Selected

-- What selects the runs to cancel.
pub record Selection : Type 0 where
  pub run_ids : Option (List ℕ)
  pub thread_id : Option ℕ
  pub status : Option Selected
  pub assistant_id : Option ℕ

-- A selection in one of its three forms.
pub data Criterion : Type 0 where
  of_assistant : ℕ → Criterion
  of_status : Selected → Criterion
  of_runs : ℕ → List ℕ → Criterion

-- The validation of the arguments.
unfoldable pub criterion : Selection → Result Criterion
criterion s = elim s.assistant_id [
  | some a ↦ elim s.thread_id [
    | some t ↦ err (http 422)
    | none ↦ elim s.run_ids [
      | some ids ↦ err (http 422)
      | none ↦ elim s.status [ some status ↦ err (http 422) | none ↦ ok (of_assistant a) ]
    ]
  ]
  | none ↦ elim s.status [
    | some status ↦ elim s.thread_id [
      | some t ↦ err (http 422)
      | none ↦ elim s.run_ids [ some ids ↦ err (http 422) | none ↦ ok (of_status status) ]
    ]
    | none ↦ elim s.thread_id [
      | none ↦ err (http 422)
      | some t ↦ elim s.run_ids [ none ↦ err (http 422) | some ids ↦ ok (of_runs t ids) ]
    ]
  ]
]

-- `raise ValueError` for a status that is not supported, after the authorization.
abbrev pub check_supported : Criterion → Result (Unit {0})
check_supported (of_status unsupported) = err value_error
check_supported c = ok tt

unfoldable pub is_run_match : Criterion → Run → Bool
unfolding any
is_run_match (of_assistant a) r = r.assistant_id == a && is_active r.status
is_run_match (of_status pendings) r = is_pending r.status
is_run_match (of_status runnings) r = is_running r.status
is_run_match (of_status all) r = is_active r.status
is_run_match (of_status unsupported) r = false
is_run_match (of_runs t ids) r = r.thread_id == t && any (λ id. id == r.run_id) ids

abbrev pub thread_of : Criterion → Option ℕ
thread_of (of_runs t ids) = some t
thread_of c = none

-- A cancellation by assistant may find nothing.
abbrev pub may_be_none : Criterion → Result (Unit {0})
may_be_none (of_assistant a) = ok tt
may_be_none c = err (http 404)

-- Whether the loop interrupts the run at once, or leaves its deletion to the end.
abbrev pub is_interrupted : (ℕ → Option ℕ → Bool) → Action → Option ℕ → Run → Bool
is_interrupted has_queues interrupts thread r = is_active r.status
is_interrupted has_queues rolls_back thread r = is_active r.status && has_queues r.run_id thread

abbrev pub is_deleted : (ℕ → Option ℕ → Bool) → Action → Option ℕ → Run → Bool
is_deleted has_queues interrupts thread r = false
is_deleted has_queues rolls_back thread r = is_active r.status && not (has_queues r.run_id thread)

abbrev pub first_error : Result (Unit {0}) → Result (Option ℕ) → Result (Unit {0})
first_error (err e) r = err e
first_error (ok u) (err e) = err e
first_error (ok u) (ok r) = ok u

module _ {S : Type 0} where
  -- The runs whose threads the filters show.
  unfoldable pub visible_runs : Fields → List Run → Exec (Db S) (List Run)
  visible_runs filters [] db = (ok [], db)
  visible_runs filters (r ∷ rs) db =
      let (found, db') = get_with_filters r.thread_id filters db in
      elim found [
        | err e ↦ (err e, db')
        | ok shown ↦
            let (rest, db'') = visible_runs filters rs db' in
            elim rest [
              | err e ↦ (err e, db'')
              | ok runs ↦ (ok (elim shown [ none ↦ runs | some t ↦ r ∷ runs ]), db'')
            ]
      ]

  unfoldable pub authorized_runs : Fields → Criterion → List Run → Exec (Db S) (List Run)
  unfolding visible_runs
  authorized_runs filters c rs db = if is_empty filters then (ok rs, db) else elim (thread_of c) [
    | none ↦ visible_runs filters rs db
    | some t ↦
        let (found, db') = get_with_filters t filters db in
        elim found [
          | err e ↦ (err e, db')
          | ok none ↦ (ok [], db')
          | ok (some shown) ↦ (ok rs, db')
        ]
  ]

  -- `thread["status"] = "idle"`
  unfoldable pub idle_thread : ℕ → ℕ → Db S → Db S
  idle_thread now id db = record db {
    threads = update_thread id (λ t. record t { status = State.idle; updated_at = now }) db.threads;
  }

  unfoldable pub interrupt_run : ℕ → Run → Db S → Db S
  unfolding idle_thread
  interrupt_run now r db =
      let db' = if is_pending r.status then idle_thread now r.thread_id db else db in
      record db' {
        runs =
            update_run r.run_id (λ x. record x { status = RunStatus.interrupted; updated_at = now })
              db'.runs;
      }

  unfoldable pub interrupt_all :
      (ℕ → Option ℕ → Bool) → Action → Option ℕ → ℕ → List Run → Db S → Db S
  unfolding interrupt_run
  interrupt_all has_queues action thread now [] db = db
  interrupt_all has_queues action thread now (r ∷ rs) db =
      interrupt_all has_queues action thread now rs
        (if is_interrupted has_queues action thread r then interrupt_run now r db else db)

  -- `asyncio.gather` of the deletions, with no authorization context: each of them runs, and the first
  -- exception is raised.
  unfoldable pub delete_all : Checkpointer S → List Run → Result (Unit {0}) → Exec (Db S) (Unit {0})
  delete_all cp [] sofar db = (sofar, db)
  delete_all cp (r ∷ rs) sofar db =
      let (deleted, db') = Runs.delete cp (ok end) r.run_id r.thread_id db in
      delete_all cp rs (first_error sofar deleted) db'

  -- The loop over the candidates and what follows it.
  unfoldable pub cancel_all :
      Checkpointer S
      → (ℕ → Option ℕ → Bool)
      → Action
      → Criterion
      → ℕ
      → List Run
      → Exec (Db S) (Unit {0})
  unfolding interrupt_all delete_all
  cancel_all cp has_queues action c now candidates db =
      let db' = interrupt_all has_queues action (thread_of c) now candidates db in
      if any (λ r. is_active r.status) candidates
      then delete_all cp (keep (is_deleted has_queues action (thread_of c)) candidates) (ok tt) db'
      else (may_be_none c, db')

  -- With the candidates that were found.
  unfoldable pub cancel_found :
      Checkpointer S
      → (ℕ → Option ℕ → Bool)
      → Action
      → Criterion
      → ℕ
      → Result (List Run)
      → Exec (Db S) (Unit {0})
  unfolding cancel_all
  cancel_found cp has_queues action c now (err e) db = (err e, db)
  cancel_found cp has_queues action c now (ok []) db = (may_be_none c, db)
  cancel_found cp has_queues action c now (ok (r ∷ rs)) db =
      cancel_all cp has_queues action c now (r ∷ rs) db

  -- After the arguments were found to be in order.
  unfoldable pub cancel_by :
      Checkpointer S
      → (ℕ → Option ℕ → Bool)
      → Fields
      → Action
      → Criterion
      → ℕ
      → Exec (Db S) (Unit {0})
  unfolding is_run_match authorized_runs cancel_found
  cancel_by cp has_queues filters action c now db =
      let (found, db') = authorized_runs filters c (keep (is_run_match c) db.runs) db in
      cancel_found cp has_queues action c now found db'

  unfoldable pub cancel :
      Checkpointer S
      → (ℕ → Option ℕ → Bool)
      → Result Fields
      → Action
      → Selection
      → ℕ
      → Exec (Db S) (Unit {0})
  unfolding criterion cancel_by
  cancel cp has_queues auth action s now db = elim (criterion s) [
    | err e ↦ (err e, db)
    | ok c ↦ elim auth [
      | err e ↦ (err e, db)
      | ok filters ↦ elim (check_supported c) [
        | err e ↦ (err e, db)
        | ok _ ↦ cancel_by cp has_queues filters action c now db
      ]
    ]
  ]
