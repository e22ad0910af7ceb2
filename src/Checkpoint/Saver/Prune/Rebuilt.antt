-- ===== src/Checkpoint/Saver/Prune/Rebuilt.antt =====
-- Pruning a thread keeps the value of every channel at the newest checkpoint of each namespace.
use langgraph_runtime_inmem.Prelude.{
  ℕ, suc, Bool, true, false, not, ◌&&◌, some, List, [], ◌∷◌, ◌≡◌, refl, ap, ◌∙◌, Eq, ◌==◌, nat_eq,
  string_eq, pair_eq, String, keep, mem, any, arith, Option-cases, Bool-cases, inl, inr, length,
}
use langgraph_runtime_inmem.Dict.{Dict, get}
use langgraph_runtime_inmem.Dict.Laws.{beq_refl, get-put}
use langgraph_runtime_inmem.Checkpoint.Saver.{Payload, Entry, Checkpoints, BlobKey, Serde, Saver}
use langgraph_runtime_inmem.Checkpoint.Saver.Base.{checkpoints_of}
use langgraph_runtime_inmem.Checkpoint.Saver.Chain.{
  latest_of, needed_channels, has_value, parent_chain,
}
use langgraph_runtime_inmem.Checkpoint.Saver.Prune.{
  keep_checkpoints, keep_ids, kept_namespaces, kept_blob_keys, prune_thread, prune_namespaces,
  is_kept_blob,
}
use langgraph_runtime_inmem.Checkpoint.Saver.Prune.Kept.{
  kept_entry, mem-needed_channels, get-keep, get-kept_namespaces, mem-blob_keys, mem-kept_blob_keys,
}
use langgraph_runtime_inmem.Checkpoint.Saver.Prune.Values.{
  own_value, or_else, value_at, own_value-has_value, or_else_some, get-there, value_at-chain,
  value_at-blobs,
}

module _ {R : Type 0} ⦃e : Eq R⦄ (serde : Serde R) (thread_id : ℕ) (ns : String) where
  own_row : (b : Bool) → not (b && not true) ≡ true
  own_row true = refl
  own_row false = refl

  own_value-kept :
      (namespaces : Dict String Checkpoints) (cs : Checkpoints) (blobs : Dict (BlobKey R) Payload)
      (j : ℕ) (entry : Entry) (channel : String)
      → get ns namespaces ≡ some cs
      → get j (keep_checkpoints (keep_ids serde blobs thread_id ns cs) cs) ≡ some entry
      → own_value serde thread_id ns
          (keep
            (λ p.
              is_kept_blob serde thread_id (kept_blob_keys serde blobs thread_id namespaces) p.0)
            blobs)
          entry
          channel
        ≡ own_value serde thread_id ns blobs entry channel
  unfolding own_value
  own_value-kept namespaces cs blobs j entry channel g h =
      let (m, there) = kept_entry (keep_ids serde blobs thread_id ns cs) j cs entry h in
      let kept = kept_blob_keys serde blobs thread_id namespaces in
      elim (Option-cases (get channel (serde.channel_versions entry.checkpoint))) [
        | inl n ↦ rw (own_value, n) refl
        | inr (version, n) ↦
            let key : BlobKey R = (thread_id, (ns, (channel, version))) in
            let named =
              mem-kept_blob_keys serde blobs thread_id ns cs namespaces key g
                (mem-blob_keys serde blobs thread_id ns cs _ j entry channel version m there n) in
            rw
              (
                own_value,
                n,
                get-keep (is_kept_blob serde thread_id kept) key blobs,
                named,
                own_row (thread_id == thread_id),
              )
              refl
      ]

  module _ (s : Saver R) (c : ℕ × Entry) (cs : Checkpoints) (latest : Entry) (channel : String)
      (version : R) (found : get (latest_of c.0 cs) (c ∷ cs) ≡ some latest)
      (has : get channel (serde.channel_versions latest.checkpoint) ≡ some version) where
    ids : List ℕ
    ids = keep_ids serde s.tables.blobs thread_id ns (c ∷ cs)

    chain : List ℕ
    chain =
        parent_chain s.tables.blobs thread_id ns serde (c ∷ cs) (length (c ∷ cs))
          (needed_channels s.tables.blobs thread_id ns (serde.channel_versions latest.checkpoint))
          latest.parent_id

    ids_lem : ids ≡ latest_of c.0 cs ∷ chain
    unfolding ids chain keep_ids
    ids_lem = rw (keep_ids, found) refl

    value_at-kept :
        value_at serde thread_id ns s.tables.blobs
          (keep_checkpoints ids (c ∷ cs))
          (suc (length (c ∷ cs)))
          channel
          (some (latest_of c.0 cs))
        ≡ value_at serde thread_id ns s.tables.blobs
            (c ∷ cs)
            (suc (length (c ∷ cs)))
            channel
            (some (latest_of c.0 cs))
    unfolding value_at chain has_value any
    value_at-kept =
        let first = ap (mem (latest_of c.0 cs)) ids_lem ∙ rw (beq_refl (latest_of c.0 cs)) refl in
        let versions = serde.channel_versions latest.checkpoint in
        rw
          (
            value_at,
            get-there serde thread_id ns ids (latest_of c.0 cs) (c ∷ cs) latest first found,
            found,
          )
          (elim (Bool-cases (has_value s.tables.blobs thread_id ns versions channel)) [
            | inl here ↦
                or_else_some serde thread_id ns _ _ _
                  (own_value-has_value serde thread_id ns s.tables.blobs latest channel ∙ here)
            | inr gone ↦
                ap
                  (or_else serde thread_id ns
                    (own_value serde thread_id ns s.tables.blobs latest channel))
                  (value_at-chain serde thread_id ns s.tables.blobs (c ∷ cs) ids (length (c ∷ cs)) _
                    latest.parent_id channel
                    (mem-needed_channels s.tables.blobs thread_id ns versions channel version has
                      (rw (has_value, has) at gone))
                    (λ j x. ap (mem j) ids_lem ∙ rw x (ground arith)))
          ])

    pruned_checkpoints :
        (namespaces : Dict String Checkpoints)
        → get ns namespaces ≡ some (c ∷ cs)
        → checkpoints_of (prune_namespaces serde thread_id namespaces s).tables thread_id ns
          ≡ keep_checkpoints ids (c ∷ cs)
    unfolding prune_namespaces ids
    pruned_checkpoints namespaces g =
        rw
          (
            get-put thread_id thread_id (kept_namespaces serde s.tables.blobs thread_id namespaces)
                s.tables.storage,
            beq_refl thread_id,
            get-kept_namespaces serde s.tables.blobs thread_id ns c cs namespaces g,
          )
          refl

    pruned_values :
        (namespaces : Dict String Checkpoints)
        → get ns namespaces ≡ some (c ∷ cs)
        → value_at serde thread_id ns
            (prune_namespaces serde thread_id namespaces s).tables.blobs
            (keep_checkpoints ids (c ∷ cs))
            (suc (length (c ∷ cs)))
            channel
            (some (latest_of c.0 cs))
          ≡ value_at serde thread_id ns s.tables.blobs
              (keep_checkpoints ids (c ∷ cs))
              (suc (length (c ∷ cs)))
              channel
              (some (latest_of c.0 cs))
    unfolding prune_namespaces ids
    pruned_values namespaces g =
        value_at-blobs serde thread_id ns s.tables.blobs _ (keep_checkpoints ids (c ∷ cs)) _ channel
          _ (λ j entry h. own_value-kept namespaces (c ∷ cs) s.tables.blobs j entry channel g h)

    prune_thread_lem :
        (n : String × Checkpoints) (more : Dict String Checkpoints)
        → get thread_id s.tables.storage ≡ some (n ∷ more)
        → prune_thread serde thread_id s ≡ prune_namespaces serde thread_id (n ∷ more) s
    unfolding prune_thread
    prune_thread_lem n more t = rw (prune_thread, t) refl

    -- Pruning a thread keeps the value of every channel that the newest checkpoint of a namespace has,
    -- be it stored there or at the nearest ancestor that has one: the search for it, from the newest
    -- checkpoint up through as many ancestors as there are checkpoints, has the same result before and
    -- after.
    pub prune_thread_values :
        (namespaces : Dict String Checkpoints)
        → get thread_id s.tables.storage ≡ some namespaces
        → get ns namespaces ≡ some (c ∷ cs)
        → value_at serde thread_id ns
            (prune_thread serde thread_id s).tables.blobs
            (checkpoints_of (prune_thread serde thread_id s).tables thread_id ns)
            (suc (length (c ∷ cs)))
            channel
            (some (latest_of c.0 cs))
          ≡ value_at serde thread_id ns s.tables.blobs
              (c ∷ cs)
              (suc (length (c ∷ cs)))
              channel
              (some (latest_of c.0 cs))
    unfolding get
    prune_thread_values [] t g = cc g
    prune_thread_values (n ∷ more) t g =
        rw (prune_thread_lem n more t, pruned_checkpoints (n ∷ more) g)
          (pruned_values (n ∷ more) g ∙ value_at-kept)
