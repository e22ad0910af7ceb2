-- ===== src/Checkpoint/Saver/Sizes.antt =====
-- The sizes of what is stored for a thread, and the saver's size state that agrees with them.
pub mod Rows
use langgraph_runtime_inmem.Prelude.{
  ℕ, ◌+◌, Bool, List, [], ◌∷◌, ◌≡◌, Eq, ◌==◌, nat_eq, String, keep, sum_by, length,
}
use langgraph_runtime_inmem.Dict.{Dict, get, get_or}
use langgraph_runtime_inmem.Checkpoint.SizeState.{entry}
use langgraph_runtime_inmem.Checkpoint.Saver.{
  Payload, Checkpoints, WriteKey, WriteGroup, BlobKey, Tables, Saver, Serde, checkpoint_entry_size,
  write_group_size, blob_entry_size,
}

-- The rows of a thread.
abbrev pub rows_of : {K A : Type 0} → ℕ → Dict (ℕ × K) A → Dict (ℕ × K) A
rows_of thread_id m = keep (λ r. r.0.0 == thread_id) m

module _ {R : Type 0} (serde : Serde R) where
  abbrev pub checkpoints_size : Checkpoints → ℕ
  checkpoints_size cs = sum_by (λ p. checkpoint_entry_size serde p.0 p.1) cs

  abbrev pub namespaces_size : Dict String Checkpoints → ℕ
  namespaces_size nss = sum_by (λ p. checkpoints_size p.1) nss

  abbrev pub writes_size : Dict WriteKey WriteGroup → ℕ
  writes_size m = sum_by (λ p. write_group_size serde p.0.1.1 p.1) m

  abbrev pub blobs_size : Dict (BlobKey R) Payload → ℕ
  blobs_size m = sum_by (λ p. blob_entry_size serde p.0.1.1.0 p.0.1.1.1 p.1) m

  -- The bytes of all that is stored for a thread.
  abbrev pub stored_bytes : Tables R → ℕ → ℕ
  stored_bytes t thread_id =
      namespaces_size (get_or (get thread_id t.storage) [])
      + writes_size (rows_of thread_id t.writes)
      + blobs_size (rows_of thread_id t.blobs)

abbrev pub namespaces_count : Dict String Checkpoints → ℕ
namespaces_count nss = sum_by (λ p. length p.1) nss

abbrev pub stored_checkpoints : {R : Type 0} → Tables R → ℕ → ℕ
stored_checkpoints t thread_id = namespaces_count (get_or (get thread_id t.storage) [])

-- For every thread, the size state has the bytes and the number of checkpoints that are stored.
abbrev pub IsAccounted : {R : Type 0} → Serde R → Saver R → Type 0
IsAccounted serde s =
    (thread_id : ℕ)
    → entry s.size_state thread_id
      ≡ (stored_bytes serde s.tables thread_id, stored_checkpoints s.tables thread_id)
