-- ===== src/Checkpoint/Saver/Rebuild.antt =====
-- checkpoint.py: the sizes counted anew, as after loading, and the sizes that the runtime moves when
-- it copies a thread or removes a checkpoint itself.
pub mod Accounts
use langgraph_runtime_inmem.Prelude.{ℕ, List, [], ◌∷◌, Eq, nat_eq, String}
use langgraph_runtime_inmem.Prelude.Int.{ℤ, pos, ◌-ℤ◌}
use langgraph_runtime_inmem.Dict.{Dict}
use langgraph_runtime_inmem.Checkpoint.SizeState
use langgraph_runtime_inmem.Checkpoint.SizeState.{SizeState, adjust, copy_thread, clear}
use langgraph_runtime_inmem.Checkpoint.Saver.{
  Payload, Entry, Checkpoints, WriteKey, WriteGroup, BlobKey, Tables, Saver, Serde,
  checkpoint_entry_size, write_group_size, blob_entry_size,
}

module _ {R : Type 0} (serde : Serde R) where
  unfoldable pub count_checkpoints : ℕ → Checkpoints → SizeState ℕ → SizeState ℕ
  count_checkpoints thread_id [] st = st
  count_checkpoints thread_id ((id, entry) ∷ cs) st =
      count_checkpoints thread_id cs
        (adjust st thread_id (pos (checkpoint_entry_size serde id entry)) (pos 1))

  unfoldable pub count_namespaces : ℕ → Dict String Checkpoints → SizeState ℕ → SizeState ℕ
  unfolding count_checkpoints
  count_namespaces thread_id [] st = st
  count_namespaces thread_id ((ns, cs) ∷ nss) st =
      count_namespaces thread_id nss (count_checkpoints thread_id cs st)

  unfoldable pub count_storage : Dict ℕ (Dict String Checkpoints) → SizeState ℕ → SizeState ℕ
  unfolding count_namespaces
  count_storage [] st = st
  count_storage ((thread_id, nss) ∷ rest) st =
      count_storage rest (count_namespaces thread_id nss st)

  unfoldable pub count_writes : Dict WriteKey WriteGroup → SizeState ℕ → SizeState ℕ
  count_writes [] st = st
  count_writes ((key, group) ∷ rest) st =
      count_writes rest (adjust st key.0 (pos (write_group_size serde key.1.1 group)) (pos 0))

  unfoldable pub count_blobs : Dict (BlobKey R) Payload → SizeState ℕ → SizeState ℕ
  count_blobs [] st = st
  count_blobs ((key, value) ∷ rest) st =
      count_blobs rest
        (adjust st key.0 (pos (blob_entry_size serde key.1.1.0 key.1.1.1 value)) (pos 0))

  unfoldable pub rebuild_size_tracking : Tables R → SizeState ℕ → SizeState ℕ
  unfolding count_storage count_writes count_blobs
  rebuild_size_tracking t st =
      count_blobs t.blobs (count_writes t.writes (count_storage t.storage (clear st)))

  -- The saver over the tables that were loaded.
  unfoldable pub init : Tables R → Saver R
  unfolding rebuild_size_tracking
  init t = record { tables = t; size_state = rebuild_size_tracking t SizeState.init }

  unfoldable pub copy_thread_size : ℕ → ℕ → Saver R → Saver R
  copy_thread_size source target s = record s {
    size_state = copy_thread s.size_state source target;
  }

  -- The size that is forgotten comes with the saver.
  unfoldable pub discard_checkpoint_size : ℕ → ℕ → Entry → Saver R → ℕ × Saver R
  discard_checkpoint_size thread_id checkpoint_id entry s =
      let size_bytes = checkpoint_entry_size serde checkpoint_id entry in
      (
        size_bytes,
        record s {
          size_state = adjust s.size_state thread_id (pos 0 -ℤ pos size_bytes) (pos 0 -ℤ pos 1);
        },
      )
