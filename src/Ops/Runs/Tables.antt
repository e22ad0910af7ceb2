-- ===== src/Ops/Runs/Tables.antt =====
-- Laws of the run table.
use langgraph_runtime_inmem.Prelude.{
  ℕ, ◌≡◌, false, ◌&&◌, ◌||◌, some, List, [], ◌∷◌, ◌==◌, nat_eq, arith,
}
use langgraph_runtime_inmem.Ops.State.{Run, RunStatus, is_running, has_running_run}
use langgraph_runtime_inmem.Ops.Runs.{find_run, update_run, with_status}

-- At most one run of each thread is running.
abbrev pub Exclusive : List Run → Type 0
Exclusive [] = Unit
Exclusive (r ∷ rs) =
    ((is_running r.status && has_running_run r.thread_id rs) ≡ false) × Exclusive rs

pub find_run-id : (id : ℕ) (rs : List Run) (r : Run) → find_run id rs ≡ some r → r.run_id ≡ id
unfolding find_run
find_run-id id [] r h = cc
find_run-id id (x ∷ rs) r h = ground (arith, find_run-id id rs r)

-- Starting a run makes its thread a running one.
pub has_running_run-start :
    (id k : ℕ) (rs : List Run) (r : Run)
    → find_run id rs ≡ some r
    → has_running_run k (update_run id (with_status RunStatus.running) rs)
      ≡ (has_running_run k rs || r.thread_id == k)
unfolding find_run update_run has_running_run
has_running_run-start id k [] r h = cc
has_running_run-start id k (x ∷ rs) r h = ground (arith, has_running_run-start id k rs r)

pub start-Exclusive :
    (id : ℕ) (rs : List Run) (r : Run)
    → find_run id rs ≡ some r
    → has_running_run r.thread_id rs ≡ false
    → Exclusive rs
    → Exclusive (update_run id (with_status RunStatus.running) rs)
unfolding find_run update_run has_running_run
start-Exclusive id [] r f h e = tt
start-Exclusive id (x ∷ rs) r f h e =
    ground (arith, start-Exclusive id rs r, has_running_run-start id x.thread_id rs r)
