-- ===== src/Checkpoint/Saver/Prune.antt =====
-- checkpoint.py, `prune`: what the pruning of threads keeps and removes. The variables that the loop
-- over the namespaces fills are one function each.
pub mod Descent
pub mod Kept
pub mod Values
pub mod Rebuilt
pub mod Accounts
use langgraph_runtime_inmem.Prelude.{
  ℕ, ◌+◌, Bool, true, false, not, ◌&&◌, ◌||◌, Option, none, some, List, [], ◌∷◌, ◌++◌, map, Eq,
  ◌==◌, if◌then◌else◌, String, string_eq, nat_eq, pair_eq, keep, sum_by, length, mem, Result, ok,
  err, Error, value_error,
}
use langgraph_runtime_inmem.Prelude.Int.{ℤ, pos, ◌-ℤ◌}
use langgraph_runtime_inmem.Dict.{Dict, get, put}
use langgraph_runtime_inmem.Checkpoint.SizeState.{adjust, remove_thread}
use langgraph_runtime_inmem.Checkpoint.Saver.{
  Payload, Entry, Checkpoints, WriteKey, WriteGroup, BlobKey, Tables, Saver, Serde,
  checkpoint_entry_size, write_group_size, blob_entry_size,
}
use langgraph_runtime_inmem.Checkpoint.Saver.Chain.{latest_of, needed_channels, parent_chain}

-- `namespaces[checkpoint_ns] = {… if checkpoint_id in keep_ids}`
unfoldable pub keep_checkpoints : List ℕ → Checkpoints → Checkpoints
keep_checkpoints ids checkpoints = keep (λ p. mem p.0 ids) checkpoints

unfoldable pub drop_checkpoints : List ℕ → Checkpoints → Checkpoints
drop_checkpoints ids checkpoints = keep (λ p. not (mem p.0 ids)) checkpoints

module _ {R : Type 0} ⦃e : Eq R⦄ (serde : Serde R) (blobs : Dict (BlobKey R) Payload)
    (thread_id : ℕ) where
  -- `keep_ids`; there are as many rounds as checkpoints.
  unfoldable pub keep_ids : String → Checkpoints → List ℕ
  unfolding latest_of needed_channels parent_chain
  keep_ids ns [] = []
  keep_ids ns ((id, entry) ∷ rest) =
      let latest_id = latest_of id rest in
      elim (get latest_id ((id, entry) ∷ rest)) [
        | none ↦ []
        | some latest_entry ↦
            let versions = serde.channel_versions latest_entry.checkpoint in
            latest_id
            ∷ parent_chain blobs thread_id ns serde ((id, entry) ∷ rest)
                (length ((id, entry) ∷ rest)) (needed_channels blobs thread_id ns versions)
                latest_entry.parent_id
      ]

  -- The namespaces without checkpoints go.
  unfoldable pub kept_namespaces : Dict String Checkpoints → Dict String Checkpoints
  unfolding keep_ids keep_checkpoints
  kept_namespaces [] = []
  kept_namespaces ((ns, []) ∷ rest) = kept_namespaces rest
  kept_namespaces ((ns, c ∷ cs) ∷ rest) =
      (ns, keep_checkpoints (keep_ids ns (c ∷ cs)) (c ∷ cs)) ∷ kept_namespaces rest

  unfoldable pub removed_checkpoints : Dict String Checkpoints → ℕ
  unfolding keep_ids drop_checkpoints
  removed_checkpoints [] = 0
  removed_checkpoints ((ns, cs) ∷ rest) =
      length (drop_checkpoints (keep_ids ns cs) cs) + removed_checkpoints rest

  unfoldable pub removed_checkpoint_size : Dict String Checkpoints → ℕ
  unfolding keep_ids drop_checkpoints
  removed_checkpoint_size [] = 0
  removed_checkpoint_size ((ns, cs) ∷ rest) =
      sum_by (λ p. checkpoint_entry_size serde p.0 p.1) (drop_checkpoints (keep_ids ns cs) cs)
      + removed_checkpoint_size rest

  unfoldable pub kept_write_keys : Dict String Checkpoints → List WriteKey
  unfolding keep_ids
  kept_write_keys [] = []
  kept_write_keys ((ns, cs) ∷ rest) =
      map (λ id. (thread_id, (ns, id))) (keep_ids ns cs) ++ kept_write_keys rest

  abbrev pub versions_at : ℕ → Checkpoints → Dict String R
  versions_at id cs = elim (get id cs) [
    | none ↦ []
    | some entry ↦ serde.channel_versions entry.checkpoint
  ]

  -- The blobs of one namespace that the kept checkpoints name.
  unfoldable pub blob_keys : String → Checkpoints → List ℕ → List (BlobKey R)
  blob_keys ns cs [] = []
  blob_keys ns cs (id ∷ ids) =
      map (λ p. (thread_id, (ns, p))) (versions_at id cs) ++ blob_keys ns cs ids

  unfoldable pub kept_blob_keys : Dict String Checkpoints → List (BlobKey R)
  unfolding keep_ids blob_keys
  kept_blob_keys [] = []
  kept_blob_keys ((ns, cs) ∷ rest) = blob_keys ns cs (keep_ids ns cs) ++ kept_blob_keys rest

module _ {R : Type 0} ⦃e : Eq R⦄ (serde : Serde R) where
  -- A row of another thread, or one whose key is among the kept ones.
  abbrev pub is_kept_write : ℕ → List WriteKey → WriteKey → Bool
  is_kept_write thread_id kept key = not (key.0 == thread_id && not (mem key kept))

  abbrev pub is_kept_blob : ℕ → List (BlobKey R) → BlobKey R → Bool
  is_kept_blob thread_id kept key = not (key.0 == thread_id && not (mem key kept))

  unfoldable pub removed_write_size : ℕ → List WriteKey → Dict WriteKey WriteGroup → ℕ
  removed_write_size thread_id kept writes =
      sum_by (λ p. write_group_size serde p.0.1.1 p.1)
        (keep (λ p. not (is_kept_write thread_id kept p.0)) writes)

  unfoldable pub removed_blob_size : ℕ → List (BlobKey R) → Dict (BlobKey R) Payload → ℕ
  removed_blob_size thread_id kept blobs =
      sum_by (λ p. blob_entry_size serde p.0.1.1.0 p.0.1.1.1 p.1)
        (keep (λ p. not (is_kept_blob thread_id kept p.0)) blobs)

  unfoldable pub prune_namespaces : ℕ → Dict String Checkpoints → Saver R → Saver R
  unfolding kept_namespaces removed_checkpoints removed_checkpoint_size kept_write_keys
      kept_blob_keys removed_write_size removed_blob_size
  prune_namespaces thread_id namespaces s =
      let t = s.tables in
      let write_keys = kept_write_keys serde t.blobs thread_id namespaces in
      let blob_keys = kept_blob_keys serde t.blobs thread_id namespaces in
      let removed_size =
        removed_checkpoint_size serde t.blobs thread_id namespaces
        + removed_write_size thread_id write_keys t.writes
        + removed_blob_size thread_id blob_keys t.blobs in
      let removed = removed_checkpoints serde t.blobs thread_id namespaces in
      record {
        tables = record {
          storage = put thread_id (kept_namespaces serde t.blobs thread_id namespaces) t.storage;
          writes = keep (λ p. is_kept_write thread_id write_keys p.0) t.writes;
          blobs = keep (λ p. is_kept_blob thread_id blob_keys p.0) t.blobs;
        };
        size_state =
            adjust s.size_state thread_id (pos 0 -ℤ pos removed_size) (pos 0 -ℤ pos removed);
      }

  -- A thread without namespaces is passed over.
  unfoldable pub prune_thread : ℕ → Saver R → Saver R
  unfolding prune_namespaces
  prune_thread thread_id s = elim (get thread_id s.tables.storage) [
    | none ↦ s
    | some [] ↦ s
    | some (n ∷ namespaces) ↦ prune_namespaces thread_id (n ∷ namespaces) s
  ]

  unfoldable pub prune_threads : List ℕ → Saver R → Saver R
  unfolding prune_thread
  prune_threads [] s = s
  prune_threads (id ∷ ids) s = prune_threads ids (prune_thread id s)

  module _ (base_delete : ℕ → Tables R → Tables R) where
    -- The inherited deletion, and the size of the thread forgotten
    unfoldable pub delete_thread : ℕ → Saver R → Saver R
    delete_thread id s = record {
      tables = base_delete id s.tables;
      size_state = (remove_thread s.size_state id).0;
    }

    unfoldable pub delete_threads : List ℕ → Saver R → Saver R
    unfolding delete_thread
    delete_threads [] s = s
    delete_threads (id ∷ ids) s = delete_threads ids (delete_thread id s)

    unfoldable pub prune : List ℕ → String → Saver R → Result (Unit {0}) × Saver R
    unfolding prune_threads delete_threads
    prune thread_ids strategy s =
        if strategy == "delete" || strategy == "delete_all"
        then (ok tt, delete_threads thread_ids s)
        else if strategy == "keep_latest"
        then (ok tt, prune_threads thread_ids s)
        else (err value_error, s)
