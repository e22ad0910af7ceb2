-- ===== src/Tests/Sizes.antt =====
-- Inputs for the size trackers.
use langgraph_runtime_inmem.Prelude.{ℕ, refl, List, [], ◌∷◌, nat_eq}
use langgraph_runtime_inmem.Prelude.Int.{pos, negsuc}
use langgraph_runtime_inmem.SizeTracking
use langgraph_runtime_inmem.SizeTracking.{SizeTracker}
use langgraph_runtime_inmem.SizeTracking.Totals
use langgraph_runtime_inmem.Checkpoint.SizeState
use langgraph_runtime_inmem.Checkpoint.SizeState.{SizeState, thread_bytes}
use langgraph_runtime_inmem.Checkpoint.SizeState.Totals as StateTotals

abbrev calls : List (SizeTracking.Call ℕ)
calls = SizeTracking.sets 7 (pos 40) ∷ SizeTracking.sets 8 (negsuc 4) ∷ SizeTracking.removes 7 ∷ []

run-IsBalanced_example : Totals.IsBalanced (SizeTracking.run (SizeTracking.init {K = ℕ}) calls)
run-IsBalanced_example =
    Totals.run-IsBalanced SizeTracking.init calls (record { distinct = tt; total = refl })

abbrev state_calls : List (SizeState.Call ℕ)
state_calls =
    SizeState.adjusts 1 (pos 90) (pos 1)
    ∷ SizeState.copies 1 2
    ∷ SizeState.adjusts 1 (negsuc 120) (negsuc 0)
    ∷ SizeState.removes 2
    ∷ []

run-IsConsistent_example :
    StateTotals.IsConsistent (SizeState.run (SizeState.init {K = ℕ}) state_calls)
run-IsConsistent_example =
    StateTotals.run-IsConsistent SizeState.init state_calls
      (record { distinct = tt; bytes = refl; checkpoints = refl })
