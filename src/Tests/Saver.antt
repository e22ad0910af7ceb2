-- ===== src/Tests/Saver.antt =====
-- A saver whose versions are numbers, with a library saver that stores the payloads it is given.
use langgraph_runtime_inmem.Prelude.{
  ℕ, Option, none, some, List, [], ◌∷◌, ◌≡◌, refl, ◌==◌, not, nat_eq, string_eq, pair_eq, String,
  keep, All, length, arith,
}
use langgraph_runtime_inmem.Dict.{Dict, get, remove, Distinct}
use langgraph_runtime_inmem.Checkpoint.Saver.{Payload, Entry, Checkpoints, Tables, Serde}
use langgraph_runtime_inmem.Checkpoint.Saver.Base.{
  BaseSaver, PutArgs, IsBaseSaver, put_entry, put_blobs, checkpoints_of,
}
use langgraph_runtime_inmem.Checkpoint.Saver.Chain.{parent_chain, latest_of}
use langgraph_runtime_inmem.Checkpoint.Saver.Rebuild.{init}
use langgraph_runtime_inmem.Checkpoint.Saver.Rebuild.Accounts.{init-run-IsAccounted}
use langgraph_runtime_inmem.Checkpoint.Saver.Calls.{Call, puts, deletes, prunes, run}
use langgraph_runtime_inmem.Checkpoint.Saver.Calls.Accounts.{IsCall}
use langgraph_runtime_inmem.Checkpoint.Saver.Sizes.{IsAccounted}
use langgraph_runtime_inmem.Checkpoint.Saver.Prune.{prune_thread}
use langgraph_runtime_inmem.Checkpoint.Saver.Prune.Descent.{IsDescending, Loop, parent_chain-Loop}
use langgraph_runtime_inmem.Checkpoint.Saver.Prune.Values.{value_at}
use langgraph_runtime_inmem.Checkpoint.Saver.Prune.Rebuilt.{prune_thread_values}

-- A checkpoint's bytes hold the version of its one channel.
abbrev versions_in : List ℕ → Dict String ℕ
versions_in [] = []
versions_in (n ∷ more) = ("messages", n) ∷ []

abbrev serde : Serde ℕ
serde = record {
  channel_versions = λ p. versions_in p.bytes;
  encoded_length = λ s. 3;
  id_text = λ n. "id";
  index_text = λ z. "0";
  version_text = λ n. "v";
}

abbrev empty_payload : Payload
empty_payload = record { tag = "empty"; bytes = [] }

abbrev full_payload : Payload
full_payload = record { tag = "msgpack"; bytes = 1 ∷ 2 ∷ 3 ∷ [] }

abbrev entry_at : ℕ → Option ℕ → Entry
entry_at version parent = record {
  checkpoint = record { tag = "msgpack"; bytes = version ∷ [] };
  metadata = empty_payload;
  parent_id = parent;
}

-- The arguments are the entry and the value of each channel, or the group of writes.
abbrev base : BaseSaver (Entry × Payload) ℕ
base = record {
  put = λ args t. record t {
    storage = put_entry args.thread_id args.checkpoint_ns args.checkpoint_id args.body.0 t.storage;
    blobs =
        put_blobs args.thread_id args.checkpoint_ns (λ c. args.body.1) args.new_versions t.blobs;
  };
  put_writes = λ args t. t;
  delete_thread = λ id t. record {
    storage = remove id t.storage;
    writes = keep (λ r. not (r.0.0 == id)) t.writes;
    blobs = keep (λ r. not (r.0.0 == id)) t.blobs;
  };
}

base-IsBaseSaver : IsBaseSaver base
base-IsBaseSaver = record {
  puts = λ args t. (args.body.0, (λ c. args.body.1), refl);
  puts_writes = λ args t. (none, refl);
  deletes = λ id t. refl;
}

-- Three checkpoints: the value of the channel is stored at the second, and the third has none.
abbrev history : Checkpoints
history = (1, entry_at 1 none) ∷ (2, entry_at 2 (some 1)) ∷ (3, entry_at 3 (some 2)) ∷ []

abbrev loaded : Tables ℕ
loaded = record {
  storage = (7, ("", history) ∷ []) ∷ [];
  writes = [];
  blobs =
      ((7, ("", ("messages", 1))), full_payload)
      ∷ ((7, ("", ("messages", 2))), full_payload)
      ∷ ((7, ("", ("messages", 3))), empty_payload)
      ∷ [];
}

abbrev next_put : PutArgs (Entry × Payload) ℕ
next_put = record {
  thread_id = 7;
  checkpoint_ns = "";
  checkpoint_id = 4;
  new_versions = ("messages", 4) ∷ [];
  body = (entry_at 4 (some 3), full_payload);
}

abbrev calls : List (Call (Entry × Payload) ℕ)
calls = prunes (7 ∷ []) "keep_latest" ∷ puts next_put ∷ prunes (7 ∷ []) "newest" ∷ deletes 8 ∷ []

loaded-Distinct : Distinct loaded.storage
unfolding get
loaded-Distinct = (refl, tt)

calls-IsCall : All (IsCall serde base base-IsBaseSaver) calls
unfolding get
calls-IsCall = (tt, ((refl, tt), (tt, (tt, tt))))

init-run-IsAccounted_example : IsAccounted serde (run serde base (init serde loaded) calls).1
init-run-IsAccounted_example =
    init-run-IsAccounted serde base base-IsBaseSaver loaded calls loaded-Distinct calls-IsCall

history-IsDescending : IsDescending history
unfolding get
history-IsDescending id parent entry h p = ground arith

parent_chain-Loop_example :
    Loop loaded.blobs 7 "" serde history
      ("messages" ∷ [])
      (some 2)
      (parent_chain loaded.blobs 7 "" serde history (length history) ("messages" ∷ []) (some 2))
parent_chain-Loop_example =
    parent_chain-Loop loaded.blobs 7 "" serde history ("messages" ∷ []) (some 2)
      history-IsDescending

newest_is_last :
    get (latest_of 1 ((2, entry_at 2 (some 1)) ∷ (3, entry_at 3 (some 2)) ∷ [])) history
    ≡ some (entry_at 3 (some 2))
unfolding get latest_of
newest_is_last = refl

channel_is_there : get "messages" (serde.channel_versions (entry_at 3 (some 2)).checkpoint) ≡ some 3
unfolding get
channel_is_there = refl

thread_is_there : get 7 loaded.storage ≡ some (("", history) ∷ [])
unfolding get
thread_is_there = refl

namespace_is_there :
    Path (Option Checkpoints) (get {K = String} "" (("", history) ∷ [])) (some history)
unfolding get
namespace_is_there = refl

prune_thread_values_example :
    value_at serde 7 ""
      (prune_thread serde 7 (init serde loaded)).tables.blobs
      (checkpoints_of (prune_thread serde 7 (init serde loaded)).tables 7 "")
      4
      "messages"
      (some (latest_of 1 ((2, entry_at 2 (some 1)) ∷ (3, entry_at 3 (some 2)) ∷ [])))
    ≡ value_at serde 7 "" loaded.blobs history 4 "messages"
        (some (latest_of 1 ((2, entry_at 2 (some 1)) ∷ (3, entry_at 3 (some 2)) ∷ [])))
unfolding init
prune_thread_values_example =
    prune_thread_values serde 7 "" (init serde loaded) (1, entry_at 1 none)
      ((2, entry_at 2 (some 1)) ∷ (3, entry_at 3 (some 2)) ∷ []) (entry_at 3 (some 2)) "messages" 3
      newest_is_last channel_is_there (("", history) ∷ []) thread_is_there namespace_is_there
