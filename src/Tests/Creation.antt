-- ===== src/Tests/Creation.antt =====
-- Requests for runs on the sample.
use langgraph_runtime_inmem.Prelude.{
  ℕ, ◌≡◌, refl, some, none, [], ◌∷◌, true, ok, String, nat_eq, string_eq, keep,
}
use langgraph_runtime_inmem.Json.{null, end, get, value_eq}
use langgraph_runtime_inmem.Filters.{is_allowed, check_filter_match}
use langgraph_runtime_inmem.Ops.State
use langgraph_runtime_inmem.Ops.State.{Run, Db, find_thread, has_active_runs, has_running_run}
use langgraph_runtime_inmem.Ops.Runs.Tables.{Exclusive}
use langgraph_runtime_inmem.Ops.Rows.{Request, occupied, new_run, merge_jsonb}
use langgraph_runtime_inmem.Ops.Creation.{create, find_assistant, place, on_thread, insert}
use langgraph_runtime_inmem.Ops.Creation.Busy.{OnBusyThread, create-OnBusyThread}
use langgraph_runtime_inmem.Ops.Creation.Single.{
  SingleInFlight, create-SingleInFlight, create-Exclusive,
}
use langgraph_runtime_inmem.Tests.Threads.{sample, run_at}

abbrev text : ℕ → String
text n = "id"

-- A run for a thread that has one in flight, which prevents the insertion.
abbrev request : Request
request = record {
  assistant_id = 50;
  thread_id = some 3;
  run_id = 70;
  kwargs = end;
  user_id = null;
  status = State.pending;
  metadata = end;
  prevent_insert_if_inflight = true;
  multitask_strategy = State.enqueue;
  creates = true;
  after_time = 0;
}

nine_fresh : find_thread 9 sample.threads ≡ none
unfolding find_thread
nine_fresh = refl

given : (create text (ok end) (ok end) 60 9 request sample).0 ≡ ok (run_at 13 3 State.running ∷ [])
unfolding create find_assistant place on_thread insert occupied new_run merge_jsonb get value_eq
    is_allowed check_filter_match find_thread keep
given = refl

create-OnBusyThread_example :
    OnBusyThread text 60 request
      (run_at 13 3 State.running ∷ [])
      (create text (ok end) (ok end) 60 9 request sample).1
create-OnBusyThread_example =
    create-OnBusyThread text 60 request (ok end) (ok end) 9 sample (run_at 13 3 State.running) []
      nine_fresh given

sample-SingleInFlight : SingleInFlight sample.runs
unfolding has_active_runs
sample-SingleInFlight = (refl, (refl, tt))

create-SingleInFlight_example :
    SingleInFlight (create text (ok end) (ok end) 60 9 request sample).1.runs
create-SingleInFlight_example =
    create-SingleInFlight text 60 request (ok end) (ok end) 9 sample nine_fresh refl
      sample-SingleInFlight

sample-Exclusive : Exclusive sample.runs
unfolding has_running_run
sample-Exclusive = (refl, (refl, tt))

create-Exclusive_example : Exclusive (create text (ok end) (ok end) 60 9 request sample).1.runs
create-Exclusive_example =
    create-Exclusive text 60 request (ok end) (ok end) 9 sample nine_fresh refl sample-Exclusive
