-- ===== src/Ops/Status/Closed.antt =====
-- The runs after one of them was closed, and the status of their thread.
use langgraph_runtime_inmem.Prelude.{
  ℕ, ◌≡◌, ◌≢◌, refl, Bool, none, true, false, ◌||◌, Option, some, List, [], ◌∷◌, nat_eq, arith,
  if◌then◌else◌, ap,
}
use langgraph_runtime_inmem.Ops.State.{
  Thread, ThreadStatus, Run, RunStatus, Db, Checkpointer, is_active, find_thread, update_thread,
  has_active_runs,
}
use langgraph_runtime_inmem.Ops.State
use langgraph_runtime_inmem.Ops.Runs.{has_run, find_run, update_run, pop_run}
use langgraph_runtime_inmem.Ops.Runs.Queue.{UniqueRuns}
use langgraph_runtime_inmem.Ops.Status.{
  Payload, Failure, Closing, becomes, rollback, has_next, base_status, failed_joint, close_run,
}

pub has_active_runs-close_run :
    (now id k : ℕ) (status : RunStatus) (rs : List Run)
    → has_run id k rs ≡ true
    → (is_active status || has_active_runs k (close_run now id k status rs))
      ≡ has_active_runs k (close_run now id k status rs)
unfolding has_run close_run has_active_runs
has_active_runs-close_run now id k status [] h = cc
has_active_runs-close_run now id k status (r ∷ rs) h =
    ground (arith, has_active_runs-close_run now id k status rs)

pub close_run-update :
    (now id k : ℕ) (status : RunStatus) (rs : List Run) (r : Run)
    → find_run id rs ≡ some r
    → r.thread_id ≡ k
    → close_run now id k status rs
      ≡ update_run id (λ x. record x { status = status; updated_at = now }) rs
unfolding find_run close_run update_run
close_run-update now id k status [] r f e = cc
close_run-update now id k status (x ∷ rs) r f e =
    ground (arith, close_run-update now id k status rs r)

pub has_run-found :
    (id k : ℕ) (rs : List Run) (r : Run)
    → find_run id rs ≡ some r
    → r.thread_id ≡ k
    → has_run id k rs ≡ true
unfolding find_run has_run
has_run-found id k [] r f e = cc
has_run-found id k (x ∷ rs) r f e = ground (arith, has_run-found id k rs r)

pub update_thread-compose :
    (id : ℕ) (f g : Thread → Thread) (ts : List Thread)
    → ((t : Thread) → (g t).thread_id ≡ t.thread_id)
    → update_thread id f (update_thread id g ts) ≡ update_thread id (λ t. f (g t)) ts
unfolding update_thread
update_thread-compose id f g [] same = refl
update_thread-compose id f g (t ∷ ts) same =
    ground (arith, same t, update_thread-compose id f g ts same)

-- The statuses of a thread when a run of it has ended, by whether another is active.
abbrev pub waiting_status : Option Payload → ThreadStatus
waiting_status none = State.idle
waiting_status (some c) = elim c.next [ [] ↦ State.idle | node ∷ nodes ↦ State.interrupted ]

abbrev pub expected_status : Bool → Option Failure → Option Payload → ThreadStatus
expected_status true exception checkpoint = State.busy
expected_status false none checkpoint = waiting_status checkpoint
expected_status false (some f) checkpoint =
    if f.is_user then waiting_status checkpoint else State.error

pub status_lem :
    (active : Bool) (exception : Option Failure) (checkpoint : Option Payload)
    → (if active then State.busy else base_status (failed_joint exception) (has_next checkpoint))
      ≡ expected_status active exception checkpoint
unfolding base_status
status_lem active exception checkpoint = ground arith

abbrev pub set_run : ℕ → RunStatus → Run → Run
set_run now status x = record x { status = status; updated_at = now }

-- The run after it was closed, and the other runs.
abbrev pub IsClosed : ℕ → Closing → Run → List Run → List Run → Type 0
IsClosed now rollback r before after =
    (find_run r.run_id after ≡ none)
    × ((k : ℕ) → r.run_id ≢ k → find_run k after ≡ find_run k before)
IsClosed now (becomes s) r before after =
    (find_run r.run_id after ≡ some (record r { status = s; updated_at = now }))
    × ((k : ℕ) → r.run_id ≢ k → find_run k after ≡ find_run k before)

pub find_run-updated :
    (id : ℕ) (f : Run → Run) (rs : List Run) (r : Run)
    → ((x : Run) → (f x).run_id ≡ x.run_id)
    → find_run id rs ≡ some r
    → find_run id (update_run id f rs) ≡ some (f r)
unfolding find_run update_run
find_run-updated id f [] r same h = cc
find_run-updated id f (x ∷ rs) r same h = ground (arith, same x, h, find_run-updated id f rs r same)

pub find_run-update_ne :
    (id k : ℕ) (f : Run → Run) (rs : List Run)
    → ((x : Run) → (f x).run_id ≡ x.run_id)
    → id ≢ k
    → find_run k (update_run id f rs) ≡ find_run k rs
unfolding find_run update_run
find_run-update_ne id k f [] same other = refl
find_run-update_ne id k f (x ∷ rs) same other =
    ground (arith, same x, find_run-update_ne id k f rs same other)

pub find_run-pop_run :
    (id k : ℕ) (rs : List Run) (r : Run)
    → UniqueRuns rs
    → find_run id rs ≡ some r
    → r.thread_id ≡ k
    → find_run id (pop_run id k rs) ≡ none
unfolding find_run pop_run
find_run-pop_run id k [] r u f e = cc
find_run-pop_run id k (x ∷ rs) r u f e =
    ground (arith, find_run-pop_run id k rs r u.1, u.0, ap (λ i. find_run i rs))

pub find_run-pop_run_ne :
    (id j k : ℕ) (rs : List Run) → id ≢ j → find_run j (pop_run id k rs) ≡ find_run j rs
unfolding find_run pop_run
find_run-pop_run_ne id j k [] other = refl
find_run-pop_run_ne id j k (x ∷ rs) other = ground (arith, find_run-pop_run_ne id j k rs other)
