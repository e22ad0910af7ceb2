-- ===== src/Tests/Search.antt =====
-- Searching for runs of the third thread, with two runs added to the sample.
use langgraph_runtime_inmem.Prelude.{ℕ, ◌≡◌, refl, none, List, [], ◌∷◌, ok, nat_eq}
use langgraph_runtime_inmem.Json.{end}
use langgraph_runtime_inmem.Ops.State
use langgraph_runtime_inmem.Ops.State.{Db}
use langgraph_runtime_inmem.Ops.Search.{search, filtered_runs, is_shown, sort_newest, insert_newest}
use langgraph_runtime_inmem.Tests.Threads.{run_at, sample}

abbrev several : Db (List ℕ)
several = record sample {
  runs = run_at 14 3 State.pending ∷ run_at 15 3 State.pending ∷ sample.runs;
}

first_page : (search (ok end) 3 1 0 none several).0 ≡ ok (run_at 15 3 State.pending ∷ [])
unfolding search filtered_runs is_shown sort_newest insert_newest
first_page = refl

second_page :
    (search (ok end) 3 2 1 none several).0
    ≡ ok (run_at 14 3 State.pending ∷ run_at 13 3 State.running ∷ [])
unfolding search filtered_runs is_shown sort_newest insert_newest
second_page = refl
