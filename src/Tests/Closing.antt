-- ===== src/Tests/Closing.antt =====
-- Closing a run, pruning and copying threads on the sample.
use langgraph_runtime_inmem.Prelude.{
  ℕ, ◌≡◌, ◌≢◌, refl, some, none, List, [], ◌∷◌, ◌++◌, true, ok, length, keep, Option, nat_eq,
}
use langgraph_runtime_inmem.Dict.{get}
use langgraph_runtime_inmem.Json.{Value, null, str, end}
use langgraph_runtime_inmem.Json
use langgraph_runtime_inmem.Ops.Runs.Queue.{UniqueRuns}
use langgraph_runtime_inmem.Filters.{is_allowed, check_filter_match}
use langgraph_runtime_inmem.Ops.State
use langgraph_runtime_inmem.Ops.State.{
  Db, find_thread, has_active_runs, update_thread, Checkpointer, delete, keep_latest,
}
use langgraph_runtime_inmem.Ops.Ttl.{ttl_state, policy_of_state}
use langgraph_runtime_inmem.Ops.Threads.{new_thread}
use langgraph_runtime_inmem.Ops.Runs.{has_run, find_run}
use langgraph_runtime_inmem.Ops.Runs
use langgraph_runtime_inmem.Ops.Status.{
  Payload, Failure, rollback, becomes, interrupts_of, set_status, set_joint_status, with_graph_id,
}
use langgraph_runtime_inmem.Ops.Status.Closed.{IsClosed, expected_status}
use langgraph_runtime_inmem.Ops.Status.Joint.{set_joint_status_lem, set_joint_status-set_status}
use langgraph_runtime_inmem.Ops.Prune.{prune, copy, is_there}
use langgraph_runtime_inmem.Ops.Prune.Deletes.{Pruned, prune-Pruned}
use langgraph_runtime_inmem.Ops.Prune.Keeps.{PrunesEach, prune_keeps}
use langgraph_runtime_inmem.Ops.Prune.Copies.{copy_lem}
use langgraph_runtime_inmem.Tests.Threads.{recorder, sample, sample-UniqueIds, run_at}

-- The third thread waits for an answer after its run.
abbrev payload : Option Payload
payload = some (record { next = "node" ∷ []; tasks = []; values = null })

abbrev no_failure : Option Failure
no_failure = none

abbrev as_is : Value → Value
as_is v = v

third_found : find_thread 3 sample.threads ≡ some (new_thread 30 3 end)
unfolding find_thread
third_found = refl

third_run_found : find_run 13 sample.runs ≡ some (run_at 13 3 State.running)
unfolding find_run
third_run_found = refl

sample-UniqueRuns : UniqueRuns sample.runs
unfolding find_run
sample-UniqueRuns = (refl, (refl, tt))

set_joint_status_lem_example :
    let (r, after) =
      set_joint_status as_is 40 recorder 3 13 rollback "graph" payload no_failure sample in
    (r ≡ ok tt)
    × IsClosed 40 rollback (run_at 13 3 State.running) sample.runs after.runs
    × (find_thread 3 after.threads
        ≡ some (record (new_thread 30 3 end) {
          updated_at = 40;
          state_updated_at = some 40;
          status = expected_status (has_active_runs 3 after.runs) no_failure payload;
          interrupts = some (interrupts_of as_is payload);
          failure = none;
          values = some null;
          metadata = Json.put "graph_id" (str "graph") end;
        }))
set_joint_status_lem_example =
    set_joint_status_lem as_is 40 3 "graph" payload no_failure recorder rollback sample
      (new_thread 30 3 end) (run_at 13 3 State.running) third_found sample-UniqueRuns
      third_run_found refl

set_joint_status-set_status_example :
    let first = (Runs.set_status 40 13 State.success sample).1 in
    let second = (set_status as_is 40 3 payload no_failure first).1 in
    set_joint_status as_is 40 recorder 3 13
      (becomes State.success)
      "graph"
      payload
      no_failure
      sample
    ≡ (ok tt, record second { threads = update_thread 3 (with_graph_id "graph") second.threads })
set_joint_status-set_status_example =
    set_joint_status-set_status as_is 40 3 "graph" payload no_failure recorder 13 State.success
      sample (new_thread 30 3 end) (run_at 13 3 State.running) third_found third_run_found refl refl

prune-Pruned_example :
    Pruned recorder
      (1 ∷ 9 ∷ 1 ∷ [])
      0
      sample
      (prune recorder (ok end) (λ i. ok end) (some delete) 100 (1 ∷ 9 ∷ 1 ∷ []) sample)
prune-Pruned_example =
    prune-Pruned recorder 100 (1 ∷ 9 ∷ 1 ∷ []) sample (λ id s. refl) sample-UniqueIds

-- A checkpointer that notes each thread that it prunes.
abbrev noting : Checkpointer (List ℕ)
noting = record recorder { prune_latest = λ ids s. s ++ ids }

append_none : (s : List ℕ) → s ++ [] ≡ s
append_none [] = refl
append_none (x ∷ s) = rw (append_none s) refl

append_assoc : (s xs ys : List ℕ) → s ++ (xs ++ ys) ≡ (s ++ xs) ++ ys
append_assoc [] xs ys = refl
append_assoc (x ∷ s) xs ys = rw (append_assoc s xs ys) refl

noting-PrunesEach : PrunesEach noting
noting-PrunesEach = record { none_pruned = append_none; split = λ xs ys s. append_assoc s xs ys }

prune_keeps_example :
    prune noting (ok end) (λ i. ok end) (some keep_latest) 1 (2 ∷ 9 ∷ 3 ∷ []) sample ≡ (
      ok (length (keep (is_there sample) (2 ∷ 9 ∷ 3 ∷ []))),
      record sample {
        saver = noting.prune_latest (keep (is_there sample) (2 ∷ 9 ∷ 3 ∷ [])) sample.saver;
      },
    )
prune_keeps_example = prune_keeps noting noting-PrunesEach (λ i. ok end) 1 (2 ∷ 9 ∷ 3 ∷ []) sample

third_allowed : is_allowed (new_thread 30 3 end).metadata end ≡ ok true
unfolding is_allowed check_filter_match
third_allowed = refl

four_fresh : find_thread 4 sample.threads ≡ none
unfolding find_thread
four_fresh = refl

four_has_no_ttl : get 4 sample.thread_ttls ≡ none
unfolding get
four_has_no_ttl = refl

copy_lem_example :
    let after = (copy recorder (ok end) (ok end) 50 3 4 sample).1 in
    (find_thread 4 after.threads
      ≡ some (record {
        thread_id = 4;
        created_at = 50;
        updated_at = 50;
        state_updated_at = some 50;
        metadata = end;
        status = State.idle;
        config = end;
        values = none;
        interrupts = none;
        failure = none;
      }))
    × (policy_of_state none (ttl_state after.thread_ttls 4)
        ≡ policy_of_state none (ttl_state sample.thread_ttls 3))
    × ((k : ℕ) → 4 ≢ k → find_thread k after.threads ≡ find_thread k sample.threads)
copy_lem_example =
    copy_lem recorder end end none 50 3 4 sample (new_thread 30 3 end) third_found third_allowed
      four_fresh four_has_no_ttl
