-- ===== src/Checkpoint/Saver/Prune/Accounts.antt =====
-- Pruning keeps the size state in step with what is stored.
use langgraph_runtime_inmem.Prelude.{
  ℕ, ◌+◌, true, false, List, [], ◌∷◌, ◌≡◌, refl, ◌∙◌, Eq, ◌==◌, nat_eq, string_eq, pair_eq, String,
  keep, sum_by, length, mem, sum_by-keep, arith, Bool-cases, Option-cases, some, inl, inr,
}
use langgraph_runtime_inmem.Prelude.Int.{take_away}
use langgraph_runtime_inmem.Dict.{Dict, get}
use langgraph_runtime_inmem.Dict.Laws.{beq_refl, get-put}
use langgraph_runtime_inmem.Checkpoint.SizeState.{entry}
use langgraph_runtime_inmem.Checkpoint.SizeState.Totals.{entry-adjust}
use langgraph_runtime_inmem.Checkpoint.Saver.{
  Payload, Entry, Checkpoints, WriteKey, WriteGroup, BlobKey, Saver, Serde, checkpoint_entry_size,
  write_group_size, blob_entry_size,
}
use langgraph_runtime_inmem.Checkpoint.Saver.Prune.{
  keep_checkpoints, drop_checkpoints, keep_ids, kept_namespaces, removed_checkpoints,
  removed_checkpoint_size, kept_write_keys, kept_blob_keys, removed_write_size, removed_blob_size,
  prune_namespaces, prune_thread, prune_threads, is_kept_write, is_kept_blob,
}
use langgraph_runtime_inmem.Checkpoint.Saver.Sizes.{
  rows_of, namespaces_size, writes_size, blobs_size, stored_bytes, namespaces_count,
  stored_checkpoints, IsAccounted,
}
use langgraph_runtime_inmem.Checkpoint.Saver.Sizes.Rows.{sum_by-own, sum_by-other}

sum_by-split :
    (f : ℕ × Entry → ℕ) (ids : List ℕ) (cs : Checkpoints)
    → sum_by f (keep_checkpoints ids cs) + sum_by f (drop_checkpoints ids cs) ≡ sum_by f cs
unfolding keep_checkpoints drop_checkpoints
sum_by-split f ids cs = sum_by-keep f (λ p. mem p.0 ids) cs

both : {A B : Type 0} {a b : A} {x y : B} → a ≡ b → x ≡ y → Path (A × B) (a, x) (b, y)
both p q = rw (p, q) refl

length-split :
    (ids : List ℕ) (cs : Checkpoints)
    → length (keep_checkpoints ids cs) + length (drop_checkpoints ids cs) ≡ length cs
unfolding keep_checkpoints drop_checkpoints keep
length-split ids [] = omega arith
length-split ids (c ∷ cs) = ground (arith, length-split ids cs)

module _ {R : Type 0} ⦃e : Eq R⦄ (serde : Serde R) where
  module _ (blobs : Dict (BlobKey R) Payload) (thread_id : ℕ) where
    size-kept_namespaces :
        (nss : Dict String Checkpoints)
        → namespaces_size serde (kept_namespaces serde blobs thread_id nss)
            + removed_checkpoint_size serde blobs thread_id nss
          ≡ namespaces_size serde nss
    unfolding kept_namespaces removed_checkpoint_size drop_checkpoints keep
    size-kept_namespaces [] = omega arith
    size-kept_namespaces ((ns, []) ∷ nss) = omega (arith, size-kept_namespaces nss)
    size-kept_namespaces ((ns, c ∷ cs) ∷ nss) = omega (
      arith,
      size-kept_namespaces nss,
      sum_by-split (λ p. checkpoint_entry_size serde p.0 p.1)
          (keep_ids serde blobs thread_id ns (c ∷ cs)) (c ∷ cs),
    )

    count-kept_namespaces :
        (nss : Dict String Checkpoints)
        → namespaces_count (kept_namespaces serde blobs thread_id nss)
            + removed_checkpoints serde blobs thread_id nss
          ≡ namespaces_count nss
    unfolding kept_namespaces removed_checkpoints drop_checkpoints keep
    count-kept_namespaces [] = omega arith
    count-kept_namespaces ((ns, []) ∷ nss) = omega (arith, count-kept_namespaces nss)
    count-kept_namespaces ((ns, c ∷ cs) ∷ nss) = omega (
      arith,
      count-kept_namespaces nss,
      length-split (keep_ids serde blobs thread_id ns (c ∷ cs)) (c ∷ cs),
    )

  -- The rows of writes and of values, of the thread itself and of another one.
  own_writes :
      (id : ℕ) (kept : List WriteKey) (m : Dict WriteKey WriteGroup)
      → writes_size serde (rows_of id (keep (λ p. is_kept_write serde id kept p.0) m))
          + removed_write_size serde id kept m
        ≡ writes_size serde (rows_of id m)
  unfolding removed_write_size
  own_writes id kept m =
      sum_by-own (λ p. write_group_size serde p.0.1.1 p.1) (λ r. r.0.0 == id) (λ p. mem p.0 kept) m

  own_blobs :
      (id : ℕ) (kept : List (BlobKey R)) (m : Dict (BlobKey R) Payload)
      → blobs_size serde (rows_of id (keep (λ p. is_kept_blob serde id kept p.0) m))
          + removed_blob_size serde id kept m
        ≡ blobs_size serde (rows_of id m)
  unfolding removed_blob_size
  own_blobs id kept m =
      sum_by-own (λ p. blob_entry_size serde p.0.1.1.0 p.0.1.1.1 p.1) (λ r. r.0.0 == id)
        (λ p. mem p.0 kept) m

  apart : (id j k : ℕ) → (id == j) ≡ false → (k == j) ≡ true → (k == id) ≡ false
  apart id j k h g = ground arith

  other_writes :
      (id j : ℕ) (kept : List WriteKey) (m : Dict WriteKey WriteGroup)
      → (id == j) ≡ false
      → writes_size serde (rows_of j (keep (λ p. is_kept_write serde id kept p.0) m))
        ≡ writes_size serde (rows_of j m)
  other_writes id j kept m h =
      sum_by-other _ (λ r. r.0.0 == id) (λ p. mem p.0 kept) (λ r. r.0.0 == j) m
        (λ r g. apart id j r.0.0 h g)

  other_blobs :
      (id j : ℕ) (kept : List (BlobKey R)) (m : Dict (BlobKey R) Payload)
      → (id == j) ≡ false
      → blobs_size serde (rows_of j (keep (λ p. is_kept_blob serde id kept p.0) m))
        ≡ blobs_size serde (rows_of j m)
  other_blobs id j kept m h =
      sum_by-other _ (λ r. r.0.0 == id) (λ p. mem p.0 kept) (λ r. r.0.0 == j) m
        (λ r g. apart id j r.0.0 h g)

  -- The thread that is pruned.
  pruned_entry :
      (id : ℕ) (nss : Dict String Checkpoints) (s : Saver R)
      → get id s.tables.storage ≡ some nss
      → IsAccounted serde s
      → entry (prune_namespaces serde id nss s).size_state id ≡ (
        stored_bytes serde (prune_namespaces serde id nss s).tables id,
        stored_checkpoints (prune_namespaces serde id nss s).tables id,
      )
  unfolding prune_namespaces
  pruned_entry id nss s g w =
      let t = s.tables in
      rw
        (
          entry-adjust s.size_state id id _ _,
          beq_refl id,
          w id,
          g,
          get-put id id (kept_namespaces serde t.blobs id nss) t.storage,
          beq_refl id,
        )
        (both
          (take_away _ _ _ (
            omega (
              arith,
              size-kept_namespaces t.blobs id nss,
              own_writes id (kept_write_keys serde t.blobs id nss) t.writes,
              own_blobs id (kept_blob_keys serde t.blobs id nss) t.blobs,
            )))
          (take_away _ _ _ (count-kept_namespaces t.blobs id nss)))

  prune_namespaces-IsAccounted :
      (id : ℕ) (nss : Dict String Checkpoints) (s : Saver R)
      → get id s.tables.storage ≡ some nss
      → IsAccounted serde s
      → IsAccounted serde (prune_namespaces serde id nss s)
  unfolding prune_namespaces
  prune_namespaces-IsAccounted id nss s g w j =
      let t = s.tables in
      let writes = kept_write_keys serde t.blobs id nss in
      let blobs = kept_blob_keys serde t.blobs id nss in
      elim (Bool-cases (id == j)) [
        | inl same ↦ rw (← (nat_eq.same_iff id j).0 same) (pruned_entry id nss s g w)
        | inr other ↦
            entry-adjust s.size_state id j _ _
            ∙ rw
                (
                  other,
                  w j,
                  get-put id j (kept_namespaces serde t.blobs id nss) t.storage,
                  other,
                  other_writes id j writes t.writes other,
                  other_blobs id j blobs t.blobs other,
                )
                refl
      ]

  pub prune_thread-IsAccounted :
      (id : ℕ) (s : Saver R) → IsAccounted serde s → IsAccounted serde (prune_thread serde id s)
  unfolding prune_thread
  prune_thread-IsAccounted id s w = elim (Option-cases (get id s.tables.storage)) [
    | inl g ↦ rw (prune_thread, g) w
    | inr ([], g) ↦ rw (prune_thread, g) w
    | inr (n ∷ nss, g) ↦ rw (prune_thread, g) (prune_namespaces-IsAccounted id (n ∷ nss) s g w)
  ]

  pub prune_threads-IsAccounted :
      (ids : List ℕ) (s : Saver R)
      → IsAccounted serde s
      → IsAccounted serde (prune_threads serde ids s)
  unfolding prune_threads
  prune_threads-IsAccounted [] s w = w
  prune_threads-IsAccounted (id ∷ ids) s w =
      prune_threads-IsAccounted ids (prune_thread serde id s) (prune_thread-IsAccounted id s w)
