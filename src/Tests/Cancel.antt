-- ===== src/Tests/Cancel.antt =====
-- Cancelling runs of the sample.
use langgraph_runtime_inmem.Prelude.{
  ℕ, ◌≡◌, refl, Bool, some, none, false, ◌&&◌, ok, Option, if◌then◌else◌,
}
use langgraph_runtime_inmem.Json.{end}
use langgraph_runtime_inmem.Ops.State
use langgraph_runtime_inmem.Ops.State.{is_active}
use langgraph_runtime_inmem.Ops.Runs.{find_run}
use langgraph_runtime_inmem.Ops.Runs.Queue.{UniqueRuns}
use langgraph_runtime_inmem.Ops.Cancel.{
  Selection, criterion, of_status, all, interrupts, is_run_match, cancel,
}
use langgraph_runtime_inmem.Ops.Cancel.Effect.{interrupted_run, cancel_interrupts}
use langgraph_runtime_inmem.Tests.Threads.{recorder, run_at, sample}

abbrev every : Selection
every = record { run_ids = none; thread_id = none; status = some all; assistant_id = none }

abbrev no_queues : ℕ → Option ℕ → Bool
no_queues run thread = false

every_valid : criterion every ≡ ok (of_status all)
unfolding criterion
every_valid = refl

sample-UniqueRuns : UniqueRuns sample.runs
unfolding find_run
sample-UniqueRuns = (refl, (refl, tt))

running_found : find_run 13 sample.runs ≡ some (run_at 13 3 State.running)
unfolding find_run
running_found = refl

cancel_interrupts_example :
    find_run 13 (cancel recorder no_queues (ok end) interrupts every 60 sample).1.runs
    ≡ some (
        if is_run_match (of_status all) (run_at 13 3 State.running) && is_active State.running
        then interrupted_run 60 (run_at 13 3 State.running)
        else run_at 13 3 State.running)
cancel_interrupts_example =
    cancel_interrupts recorder no_queues 60 13 every (of_status all) sample
      (run_at 13 3 State.running) every_valid refl sample-UniqueRuns running_found
