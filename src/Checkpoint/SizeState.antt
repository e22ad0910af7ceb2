-- ===== src/Checkpoint/SizeState.antt =====
-- checkpoint.py, `_CheckpointSizeState`: bytes and checkpoints of each thread, with their totals.
-- What is stored for a thread has passed `max(0, …)` and is a ℕ; deltas and totals are ℤ. The lock
-- is left out: each method is one step.
pub mod Totals
use langgraph_runtime_inmem.Prelude.{ℕ, List, [], ◌∷◌, Eq, Bool, ◌&&◌, nat_beq, if◌then◌else◌}
use langgraph_runtime_inmem.Prelude.Int.{ℤ, pos, pos_part, ◌+ℤ◌, ◌-ℤ◌}
use langgraph_runtime_inmem.Dict.{Dict, get, put, remove, get_or}

pub record SizeState (K : Type 0) : Type 0 where
  pub by_thread : Dict K (ℕ × ℕ)
  pub total_bytes : ℤ
  pub total_checkpoints : ℤ

abbrev pub init : {K : Type 0} → SizeState K
init = record { by_thread = []; total_bytes = pos 0; total_checkpoints = pos 0 }

-- `_by_thread.clear()` and both totals set to 0
unfoldable pub clear : {K : Type 0} → SizeState K → SizeState K
clear s = record s { by_thread = []; total_bytes = pos 0; total_checkpoints = pos 0 }

pub data Call (K : Type 0) : Type 0 where
  adjusts : K → ℤ → ℤ → Call K
  removes : K → Call K
  copies : K → K → Call K
  clears : Call K

module _ {K : Type 0} ⦃e : Eq K⦄ where
  -- `_by_thread.get(thread_id, (0, 0))`
  abbrev pub entry : SizeState K → K → ℕ × ℕ
  entry s thread_id = get_or (get thread_id s.by_thread) (0, 0)

  unfoldable pub thread_bytes : SizeState K → K → ℕ
  thread_bytes s thread_id = (entry s thread_id).0

  unfoldable pub thread_checkpoints : SizeState K → K → ℕ
  thread_checkpoints s thread_id = (entry s thread_id).1

  -- A pair of zeros is not kept: the common end of `adjust` and `copy_thread`.
  unfoldable pub write_entry : K → ℕ → ℕ → Dict K (ℕ × ℕ) → Dict K (ℕ × ℕ)
  write_entry thread_id new_size new_count m =
      if nat_beq new_size 0 && nat_beq new_count 0
      then remove thread_id m
      else put thread_id (new_size, new_count) m

  -- A thread's entry becomes the given one, and the totals move by the differences.
  replace_entry : SizeState K → K → ℕ → ℕ → SizeState K
  replace_entry s thread_id new_size new_count =
      let (old_size, old_count) = entry s thread_id in
      record {
        by_thread = write_entry thread_id new_size new_count s.by_thread;
        total_bytes = s.total_bytes +ℤ (pos new_size -ℤ pos old_size);
        total_checkpoints = s.total_checkpoints +ℤ (pos new_count -ℤ pos old_count);
      }

  unfoldable pub adjust : SizeState K → K → ℤ → ℤ → SizeState K
  unfolding replace_entry
  adjust s thread_id size_delta checkpoint_delta =
      let (old_size, old_count) = entry s thread_id in
      let new_size = pos_part (pos old_size +ℤ size_delta) in
      let new_count = pos_part (pos old_count +ℤ checkpoint_delta) in
      replace_entry s thread_id new_size new_count

  -- The state that is left, and the bytes of the thread that is dropped.
  unfoldable pub remove_thread : SizeState K → K → SizeState K × ℕ
  remove_thread s thread_id =
      let (size_bytes, checkpoint_count) = entry s thread_id in
      (
        record {
          by_thread = remove thread_id s.by_thread;
          total_bytes = s.total_bytes -ℤ pos size_bytes;
          total_checkpoints = s.total_checkpoints -ℤ pos checkpoint_count;
        },
        size_bytes,
      )

  unfoldable pub copy_thread : SizeState K → K → K → SizeState K
  unfolding replace_entry
  copy_thread s source target =
      let (new_size, new_count) = entry s source in replace_entry s target new_size new_count

  unfoldable pub step : SizeState K → Call K → SizeState K
  step s (adjusts k d c) = adjust s k d c
  step s (removes k) = (remove_thread s k).0
  step s (copies a b) = copy_thread s a b
  step s clears = clear s

  unfoldable pub run : SizeState K → List (Call K) → SizeState K
  run s [] = s
  run s (c ∷ cs) = run (step s c) cs
