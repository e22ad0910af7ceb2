-- ===== src/Store/Calls.antt =====
-- The methods of the Store that change it, and sequences of them. The first three are the parts of
-- a batch that this class overrides, `_prepare_ops`, `_batch_search` and `_apply_put_ops`, which the
-- inherited `batch` and `abatch` call. What those do between the parts, such as the embedding of
-- texts and the insertion of vectors, is the parent's and is no step here. A part that raises
-- leaves a Store, with which the next one goes on.
pub mod Sound
pub mod Written
pub mod Steps
pub mod View
pub mod Refresh
pub mod Refinement
use langgraph_runtime_inmem.Prelude.{ℕ, Bool, Option, List, [], ◌∷◌, Result, ok}
use langgraph_runtime_inmem.Dict.{Dict}
use langgraph_runtime_inmem.Store.Base.{ItemKey, PutOp, StoreBase}
use langgraph_runtime_inmem.Store.{Store, Op, prepare_ops, batch_search, apply_put_ops}
use langgraph_runtime_inmem.Store.Sweep.{sweep_ttl}

-- A part of a batch, or a sweep. The time of the call comes last.
pub data Call (U M : Type 0) : Type 0 where
  gets : List (Op × Bool) → ℕ → Call U M
  searches : List (Bool × Option (List ItemKey)) → ℕ → Call U M
  writes : Dict ItemKey (PutOp U M) → ℕ → Call U M
  sweeps : ℕ → Call U M

module _ {V W U M F : Type 0} (base : StoreBase V W U M F) where
  unfoldable pub step : Store V W M F → Call U M → Result (Unit {0}) × Store V W M F
  unfolding prepare_ops batch_search apply_put_ops sweep_ttl
  step s (gets ops now) =
      let (r, ttl) = prepare_ops base ops now s.ttl in (r, record s { ttl = ttl })
  step s (searches ops now) =
      let (r, ttl) = batch_search base ops now s.ttl in (r, record s { ttl = ttl })
  step s (writes ops now) = apply_put_ops base ops now s
  step s (sweeps now) = (ok tt, (sweep_ttl base now s).1)

  unfoldable pub run : Store V W M F → List (Call U M) → List (Result (Unit {0})) × Store V W M F
  unfolding step
  run s [] = ([], s)
  run s (c ∷ cs) = let (r, after) = step s c in let (rs, final) = run after cs in (r ∷ rs, final)
