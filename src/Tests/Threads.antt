-- ===== src/Tests/Threads.antt =====
-- Inputs for the operations on threads: a database with a thread under `delete` that has expired, one
-- under `keep_latest`, and one that is active.
use langgraph_runtime_inmem.Prelude.{ℕ, ◌+◌, ◌≡◌, refl, some, none, List, [], ◌∷◌, http, ok, err}
use langgraph_runtime_inmem.Prelude.Int.{negsuc}
use langgraph_runtime_inmem.Json.{end}
use langgraph_runtime_inmem.Ops.State.{
  Thread, Run, RunStatus, Cron, Db, Checkpointer, TtlState, Strategy, delete, keep_latest, idle,
  find_thread,
}
use langgraph_runtime_inmem.Ops.State
use langgraph_runtime_inmem.Ops.State.Tables.{UniqueIds}
use langgraph_runtime_inmem.Ops.Ttl.{
  TtlConfig, number, normalize_ttl_config, set_thread_ttl_override,
}
use langgraph_runtime_inmem.Ops.Threads
use langgraph_runtime_inmem.Ops.Threads.{new_thread, do_nothing}
use langgraph_runtime_inmem.Ops.Threads.Creation.{put-UniqueIds, put_refused_ttl_stays}

-- A checkpointer whose state is the list of the threads that it was told to delete or prune.
abbrev pub recorder : Checkpointer (List ℕ)
recorder = record {
  delete_thread = λ t s. (ok tt, t ∷ s);
  delete_for_run = λ t r s. t ∷ s;
  prune_latest = λ ts s. ts;
  copy_thread = λ a b s. s;
  total_bytes = λ s. 0;
  thread_bytes = λ s t. 0;
  thread_checkpoints = λ s t. 0;
}

abbrev pub run_at : ℕ → ℕ → RunStatus → Run
run_at id thread status = record {
  run_id = id;
  thread_id = thread;
  assistant_id = 50;
  metadata = end;
  status = status;
  created_at = some (100 + id);
  updated_at = 100;
  kwargs = end;
  multitask_strategy = State.reject;
}

abbrev pub override : Strategy → ℕ → TtlState
override strategy minutes = record {
  strategy = some strategy;
  ttl_minutes = some minutes;
  last_swept_updated_at = none;
}

abbrev pub sample : Db (List ℕ)
sample = record {
  assistants =
      (record {
        assistant_id = 50;
        graph_id = "graph";
        config = end;
        context = end;
        metadata = end;
      })
      ∷ [];
  threads = new_thread 10 1 end ∷ new_thread 20 2 end ∷ new_thread 30 3 end ∷ [];
  runs = run_at 11 1 State.success ∷ run_at 13 3 State.running ∷ [];
  crons = record { cron_id = 90; thread_id = some 1; assistant_id = 50 } ∷ [];
  thread_ttls = (1, override delete 5) ∷ (2, override keep_latest 5) ∷ (3, override delete 5) ∷ [];
  retry_counter = [];
  saver = [];
}

pub sample-UniqueIds : UniqueIds sample.threads
unfolding find_thread
sample-UniqueIds = (refl, (refl, (refl, tt)))

put-UniqueIds_example : UniqueIds (Threads.put (ok end) 40 4 end do_nothing none sample).1.threads
put-UniqueIds_example = put-UniqueIds (ok end) 40 4 end do_nothing none sample sample-UniqueIds

four_is_free : find_thread 4 sample.threads ≡ none
unfolding find_thread
four_is_free = refl

abbrev negative_ttl : TtlConfig
negative_ttl = record {
  strategy = none;
  ttl = some (number (negsuc 0));
  ttl_minutes = none;
  default_ttl = none;
}

negative_is_refused : set_thread_ttl_override sample.thread_ttls 4 negative_ttl ≡ err (http 422)
unfolding set_thread_ttl_override normalize_ttl_config
negative_is_refused = refl

put_refused_ttl_stays_example :
    ((Threads.put (ok end) 40 4 end do_nothing (some negative_ttl) sample).0 ≡ err (http 422))
    × (find_thread 4 (Threads.put (ok end) 40 4 end do_nothing (some negative_ttl) sample).1.threads
        ≡ some (new_thread 40 4 end))
put_refused_ttl_stays_example =
    put_refused_ttl_stays end 40 4 end do_nothing negative_ttl (http 422) sample four_is_free
      negative_is_refused
