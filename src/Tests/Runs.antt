-- ===== src/Tests/Runs.antt =====
-- The queue of runs: a run on a thread that is running one, and one on a free thread.
use langgraph_runtime_inmem.Prelude.{
  ℕ, ◌≡◌, ◌≤◌, refl, false, some, inl, inr, arith, List, [], ◌∷◌, ◌==◌, All, length, take, keep,
  nat_eq,
}
use langgraph_runtime_inmem.Ops.State
use langgraph_runtime_inmem.Ops.State.{Db, Run, find_thread, has_running_run, is_pending}
use langgraph_runtime_inmem.Ops.Runs.{next, pending_runs, sort_runs, insert_run, find_run}
use langgraph_runtime_inmem.Ops.Runs.Tables.{Exclusive}
use langgraph_runtime_inmem.Ops.Runs.Exclusion.{
  IsStarted, OfApartThreads, next-Exclusive, next_starts,
}
use langgraph_runtime_inmem.Ops.Runs.Queue.{
  UniqueRuns, IsBlocked, IsOldestFirst, IsWaiting, time, waits, next_blocked, pending_runs_lem,
}
use langgraph_runtime_inmem.Ops.Runs.Oldest.{IsLater, next_oldest}
use langgraph_runtime_inmem.Dict
use langgraph_runtime_inmem.Ops.Threads.{new_thread}
use langgraph_runtime_inmem.Json.{end}
use langgraph_runtime_inmem.Tests.Threads.{run_at, sample}

abbrev free_run : Run
free_run = run_at 20 1 State.pending

abbrev blocked_run : Run
blocked_run = run_at 15 3 State.pending

abbrev queued : Db (List ℕ)
queued = record sample { runs = free_run ∷ blocked_run ∷ sample.runs }

abbrev unblocked : Db (List ℕ)
unblocked = record sample { runs = free_run ∷ sample.runs }

next-Exclusive_example : Exclusive (next 5 200 queued).1.runs
unfolding has_running_run
next-Exclusive_example = next-Exclusive 5 200 queued (refl, (refl, (refl, (refl, tt))))

next_starts_example :
    All (IsStarted queued) (next 5 200 queued).0
    × OfApartThreads (next 5 200 queued).0
    × (length (next 5 200 queued).0 ≤ 5)
next_starts_example = next_starts 5 200 queued

queued-UniqueRuns : UniqueRuns queued.runs
unfolding find_run
queued-UniqueRuns = (refl, (refl, (refl, (refl, tt))))

queue : pending_runs 200 queued.runs ≡ blocked_run ∷ free_run ∷ []
unfolding pending_runs sort_runs insert_run keep
queue = refl

first-IsBlocked : All (IsBlocked queued) (take 1 (pending_runs 200 queued.runs))
unfolding has_running_run pending_runs sort_runs insert_run keep
first-IsBlocked = (refl, tt)

next_blocked_example : next 1 200 queued ≡ ([], queued)
next_blocked_example = next_blocked 1 200 queued queued-UniqueRuns first-IsBlocked

free_run_found : find_run 20 unblocked.runs ≡ some free_run
unfolding find_run
free_run_found = refl

first_thread : find_thread 1 unblocked.threads ≡ some (new_thread 10 1 end)
unfolding find_thread
first_thread = refl

first_is_free : has_running_run 1 unblocked.runs ≡ false
unfolding has_running_run
first_is_free = refl

others-IsLater : All (IsLater free_run 120) unblocked.runs
others-IsLater = (inl refl, (inr (inl (λ h. cc)), (inr (inl (λ h. cc)), tt)))

next_oldest_example :
    (rest : List (Run × ℕ)) × ((next 3 200 unblocked).0
      ≡ (record free_run { status = State.running }, 1) ∷ rest)
unfolding Dict.get
next_oldest_example =
    next_oldest 2 200 120 unblocked free_run (new_thread 10 1 end) free_run_found refl refl
      (omega arith) others-IsLater first_thread first_is_free

pending_runs_lem_example :
    All (IsWaiting 200) (pending_runs 200 queued.runs)
    × IsOldestFirst (pending_runs 200 queued.runs)
    × (keep (λ r. time r == 115) (pending_runs 200 queued.runs) ≡ keep (waits 200 115) queued.runs)
pending_runs_lem_example = pending_runs_lem 200 115 queued.runs
