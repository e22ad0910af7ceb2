-- ===== src/SizeTracking.antt =====
-- size_tracking.py: the tracker of estimated sizes of the Store's items. Python's `int` is ℤ where a
-- value can be negative; an entry's size is stored after `max(0, …)` and is a ℕ. The lock is left
-- out: each method is one step.
pub mod Totals
use langgraph_runtime_inmem.Prelude.{ℕ, List, [], ◌∷◌, Eq}
use langgraph_runtime_inmem.Prelude.Int.{ℤ, pos, pos_part, ◌+ℤ◌, ◌-ℤ◌}
use langgraph_runtime_inmem.Dict.{Dict, get, put, remove, get_or}

pub record SizeTracker (K : Type 0) : Type 0 where
  pub entries : Dict K ℕ
  pub total_bytes : ℤ

abbrev pub init : {K : Type 0} → SizeTracker K
init = record { entries = []; total_bytes = pos 0 }

-- The calls that change a tracker.
pub data Call (K : Type 0) : Type 0 where
  sets : K → ℤ → Call K
  removes : K → Call K
  clears : Call K

module _ {K : Type 0} ⦃e : Eq K⦄ where
  unfoldable pub set_size : SizeTracker K → K → ℤ → SizeTracker K
  set_size t entry size_bytes =
      let size = pos_part size_bytes in
      let old_size = get_or (get entry t.entries) 0 in
      let delta = pos size -ℤ pos old_size in
      record { entries = put entry size t.entries; total_bytes = t.total_bytes +ℤ delta }

  -- The tracker that is left, and the size that was tracked.
  unfoldable pub remove_entry : SizeTracker K → K → SizeTracker K × ℕ
  remove_entry t entry =
      let size_bytes = get_or (get entry t.entries) 0 in
      (
        record { entries = remove entry t.entries; total_bytes = t.total_bytes -ℤ pos size_bytes },
        size_bytes,
      )

  -- `_entries.clear()` and the total set to 0
  unfoldable pub clear : SizeTracker K → SizeTracker K
  clear t = record t { entries = []; total_bytes = pos 0 }

  unfoldable pub step : SizeTracker K → Call K → SizeTracker K
  unfolding set_size remove_entry clear
  step t (sets k z) = set_size t k z
  step t (removes k) = (remove_entry t k).0
  step t clears = clear t

  unfoldable pub run : SizeTracker K → List (Call K) → SizeTracker K
  run t [] = t
  run t (c ∷ cs) = run (step t c) cs
