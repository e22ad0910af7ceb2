-- ===== src/Store/Calls/Steps.antt =====
-- The Store is well formed after any sequence of calls.
use langgraph_runtime_inmem.Prelude.{List, [], ◌∷◌, string_eq, pair_eq, All}
use langgraph_runtime_inmem.Dict.{Dict, Distinct}
use langgraph_runtime_inmem.Store.Base.{ItemKey, Tables, StoreBase, IsWriter, list_eq}
use langgraph_runtime_inmem.Store.{Store, TtlRecord, init, prepare_ops, batch_search}
use langgraph_runtime_inmem.Store.Calls.{Call, gets, searches, writes, sweeps, step, run}
use langgraph_runtime_inmem.Store.Calls.Sound.{
  IsSound, init-IsSound, sweep-IsSound, refreshed-IsSound,
}
use langgraph_runtime_inmem.Store.Calls.Written.{apply_put_ops-IsSound}

module _ {V W U M F : Type 0} (base : StoreBase V W U M F) where
  -- The keys of a batch of writes are those of a dictionary.
  abbrev pub IsBatch : Call U M → Type 0
  IsBatch (gets ops now) = Unit
  IsBatch (searches ops now) = Unit
  IsBatch (writes ops now) = Distinct ops
  IsBatch (sweeps now) = Unit

  pub step-IsSound :
      (super_laws : IsWriter base) (s : Store V W M F) (c : Call U M)
      → IsBatch c
      → IsSound base s
      → IsSound base (step base s c).1
  unfolding step prepare_ops batch_search
  step-IsSound super_laws s (gets ops now) d w = refreshed-IsSound base s _ now w
  step-IsSound super_laws s (searches ops now) d w = refreshed-IsSound base s _ now w
  step-IsSound super_laws s (writes ops now) d w =
      apply_put_ops-IsSound base super_laws ops now s d w
  step-IsSound super_laws s (sweeps now) d w = sweep-IsSound base s now w

  run-IsSound :
      (super_laws : IsWriter base) (s : Store V W M F) (cs : List (Call U M))
      → All IsBatch cs
      → IsSound base s
      → IsSound base (run base s cs).1
  unfolding run
  run-IsSound super_laws s [] d w = w
  run-IsSound super_laws s (c ∷ cs) d w =
      run-IsSound super_laws (step base s c).1 cs d.1 (step-IsSound super_laws s c d.0 w)

  -- The Store starts well formed from whatever was persisted, and any sequence of reads with refresh,
  -- searches, writes and sweeps keeps it so, the ones that raise included, where the inherited writes
  -- do what they document: no time of expiry is without its item, the tracked size of every key is
  -- the estimate of what is stored, and the total is the sum of the sizes.
  pub init-run-IsSound :
      (super_laws : IsWriter base) (tables : Tables V W) (ttl : Dict ItemKey (TtlRecord M))
      (cs : List (Call U M))
      → Distinct ttl
      → All IsBatch cs
      → IsSound base (run base (init base tables ttl) cs).1
  init-run-IsSound super_laws tables ttl cs d batches =
      run-IsSound super_laws (init base tables ttl) cs batches (init-IsSound base tables ttl d)
