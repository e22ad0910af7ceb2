-- ===== src/Checkpoint/Saver/Calls.antt =====
-- The calls that change the saver, and sequences of them.
pub mod Accounts
use langgraph_runtime_inmem.Prelude.{ℕ, List, [], ◌∷◌, Eq, String, Result, ok}
use langgraph_runtime_inmem.Checkpoint.Saver.{Saver, Serde}
use langgraph_runtime_inmem.Checkpoint.Saver.Base.{BaseSaver, PutArgs, WritesArgs}
use langgraph_runtime_inmem.Checkpoint.Saver.Puts
use langgraph_runtime_inmem.Checkpoint.Saver.Puts.{put_writes}
use langgraph_runtime_inmem.Checkpoint.Saver.Prune.{prune, delete_thread}

pub data Call (A R : Type 0) : Type 0 where
  puts : PutArgs A R → Call A R
  puts_writes : WritesArgs A → Call A R
  deletes : ℕ → Call A R
  prunes : List ℕ → String → Call A R

module _ {A R : Type 0} ⦃e : Eq R⦄ (serde : Serde R) (base : BaseSaver A R) where
  unfoldable pub step : Saver R → Call A R → Result (Unit {0}) × Saver R
  unfolding Puts.put put_writes delete_thread prune
  step s (puts args) = Puts.put serde base args s
  step s (puts_writes args) = (ok tt, put_writes serde base args s)
  step s (deletes id) = (ok tt, delete_thread serde base.delete_thread id s)
  step s (prunes ids strategy) = prune serde base.delete_thread ids strategy s

  unfoldable pub run : Saver R → List (Call A R) → List (Result (Unit {0})) × Saver R
  unfolding step
  run s [] = ([], s)
  run s (c ∷ cs) = let (r, after) = step s c in let (rs, final) = run after cs in (r ∷ rs, final)
