-- ===== src/Checkpoint/Saver/Prune/Kept.antt =====
-- Which rows a pruning keeps: checkpoints, namespaces and values of channels.
use langgraph_runtime_inmem.Prelude.{
  ℕ, Bool, true, ◌&&◌, ◌||◌, none, some, List, [], ◌∷◌, ◌++◌, map, ◌≡◌, refl, ap, ◌∙◌, Eq, ◌==◌,
  nat_eq, string_eq, pair_eq, if◌then◌else◌, String, keep, mem, any, arith, Bool-cases, inl, inr,
  sym, false,
}
use langgraph_runtime_inmem.Dict.{Dict, get}
use langgraph_runtime_inmem.Checkpoint.Saver.{Payload, Entry, Checkpoints, BlobKey, Serde}
use langgraph_runtime_inmem.Checkpoint.Saver.Chain.{is_materialized, needed_channels}
use langgraph_runtime_inmem.Checkpoint.Saver.Prune.{
  keep_checkpoints, keep_ids, kept_namespaces, versions_at, blob_keys, kept_blob_keys,
}

pub mem-append :
    {K : Type 0} ⦃e : Eq K⦄ (j : K) (ks js : List K) → mem j (ks ++ js) ≡ (mem j ks || mem j js)
unfolding any
mem-append j [] js = refl
mem-append j (k ∷ ks) js = ground (arith, mem-append j ks js)

pub mem-keep :
    {K : Type 0} ⦃e : Eq K⦄ (p : K → Bool) (j : K) (ks : List K)
    → mem j (keep p ks) ≡ (mem j ks && p j)
unfolding any keep
mem-keep p j [] = refl
mem-keep ⦃e⦄ p j (k ∷ ks) = ground (arith, mem-keep p j ks, e.same_iff k j, λ (h : k ≡ j). ap p h)

-- A filter on the keys, and a read.
pub get-keep :
    {K A : Type 0} ⦃e : Eq K⦄ (p : K → Bool) (j : K) (m : Dict K A)
    → get j (keep (λ r. p r.0) m) ≡ (if p j then get j m else none)
unfolding get keep
get-keep p j [] = ground arith
get-keep ⦃e⦄ p j ((k, a) ∷ m) =
    ground (arith, get-keep p j m, e.same_iff k j, λ (h : k ≡ j). ap p h)

pub get-keep_checkpoints :
    (ids : List ℕ) (j : ℕ) (cs : Checkpoints)
    → get j (keep_checkpoints ids cs) ≡ (if mem j ids then get j cs else none)
unfolding keep_checkpoints
get-keep_checkpoints ids j cs = get-keep (λ i. mem i ids) j cs

some_injective : {A : Type 0} {a b : A} → some a ≡ some b → a ≡ b
some_injective h = cc

module _ {R : Type 0} ⦃e : Eq R⦄ (serde : Serde R) (blobs : Dict (BlobKey R) Payload)
    (thread_id : ℕ) where
  -- A namespace with checkpoints is kept, with the checkpoints that its state needs.
  pub get-kept_namespaces :
      (ns : String) (c : ℕ × Entry) (cs : Checkpoints) (namespaces : Dict String Checkpoints)
      → get ns namespaces ≡ some (c ∷ cs)
      → get ns (kept_namespaces serde blobs thread_id namespaces)
        ≡ some (keep_checkpoints (keep_ids serde blobs thread_id ns (c ∷ cs)) (c ∷ cs))
  unfolding kept_namespaces get
  get-kept_namespaces ns c cs [] h = cc
  get-kept_namespaces ns c cs ((m, []) ∷ rest) h = elim (Bool-cases (m == ns)) [
    | inl same ↦ cc (rw (get, same) at h)
    | inr other ↦ get-kept_namespaces ns c cs rest (rw (get, other) at h)
  ]
  get-kept_namespaces ns c cs ((m, d ∷ ds) ∷ rest) h = elim (Bool-cases (m == ns)) [
    | inl same ↦ rw same (
        ap (λ n. some (keep_checkpoints (keep_ids serde blobs thread_id n (d ∷ ds)) (d ∷ ds)))
          ((string_eq.same_iff m ns).0 same)
        ∙ ap (λ xs. some (keep_checkpoints (keep_ids serde blobs thread_id ns xs) xs))
            (some_injective (rw (get, same) at h)))
    | inr other ↦ rw other (get-kept_namespaces ns c cs rest (rw (get, other) at h))
  ]

  -- The versions that a kept checkpoint names are kept.
  abbrev key_of : String → String × R → BlobKey R
  key_of ns p = (thread_id, (ns, p))

  mem-versions :
      (ns : String) (channel : String) (version : R) (versions : Dict String R)
      → get channel versions ≡ some version
      → mem (key_of ns (channel, version)) (map (key_of ns) versions) ≡ true
  unfolding any get
  mem-versions ns channel version [] h = cc
  mem-versions ns channel version ((c, v) ∷ versions) h = ground (
    arith,
    mem-versions ns channel version versions,
    string_eq.same_iff c channel,
    e.same_iff v version,
    string_eq.same_iff ns ns,
  )

  versions_at_lem :
      (cs : Checkpoints) (j id : ℕ) (entry : Entry)
      → (j == id) ≡ true
      → get id cs ≡ some entry
      → versions_at serde blobs thread_id j cs ≡ serde.channel_versions entry.checkpoint
  versions_at_lem cs j id entry same g =
      rw ((nat_eq.same_iff j id).0 same) (rw (versions_at, g) refl)

  pub mem-blob_keys :
      (ns : String) (cs : Checkpoints) (ids : List ℕ) (id : ℕ) (entry : Entry) (channel : String)
      (version : R)
      → mem id ids ≡ true
      → get id cs ≡ some entry
      → get channel (serde.channel_versions entry.checkpoint) ≡ some version
      → mem (key_of ns (channel, version)) (blob_keys serde blobs thread_id ns cs ids) ≡ true
  unfolding blob_keys any
  mem-blob_keys ns cs [] id entry channel version m g v = cc m
  mem-blob_keys ns cs (j ∷ ids) id entry channel version m g v =
      mem-append (key_of ns (channel, version))
        (map (key_of ns) (versions_at serde blobs thread_id j cs))
        (blob_keys serde blobs thread_id ns cs ids)
      ∙ elim (Bool-cases (j == id)) [
        | inl same ↦
            rw (versions_at_lem cs j id entry same g, mem-versions ns channel version _ v) refl
        | inr other ↦
            rw (mem-blob_keys ns cs ids id entry channel version (rw other at m) g v) (ground arith)
      ]

  pub mem-kept_blob_keys :
      (ns : String) (cs : Checkpoints) (namespaces : Dict String Checkpoints) (key : BlobKey R)
      → get ns namespaces ≡ some cs
      → mem key (blob_keys serde blobs thread_id ns cs (keep_ids serde blobs thread_id ns cs))
        ≡ true
      → mem key (kept_blob_keys serde blobs thread_id namespaces) ≡ true
  unfolding kept_blob_keys get any
  mem-kept_blob_keys ns cs [] key g h = cc
  mem-kept_blob_keys ns cs ((m, ds) ∷ rest) key g h =
      mem-append key (blob_keys serde blobs thread_id m ds (keep_ids serde blobs thread_id m ds))
        (kept_blob_keys serde blobs thread_id rest)
      ∙ elim (Bool-cases (m == ns)) [
        | inl same ↦
            rw ((string_eq.same_iff m ns).0 same, some_injective (rw (get, same) at g), h) refl
        | inr other ↦ rw (mem-kept_blob_keys ns cs rest key (rw (get, other) at g) h) (ground arith)
      ]

pub kept_entry :
    (ids : List ℕ) (j : ℕ) (cs : Checkpoints) (entry : Entry)
    → get j (keep_checkpoints ids cs) ≡ some entry
    → (mem j ids ≡ true) × (get j cs ≡ some entry)
kept_entry ids j cs entry h = elim (Bool-cases (mem j ids)) [
  | inl m ↦ (m, rw m at (sym (get-keep_checkpoints ids j cs) ∙ h))
  | inr m ↦ cc (rw m at (sym (get-keep_checkpoints ids j cs) ∙ h))
]

module _ {R : Type 0} ⦃e : Eq R⦄ (blobs : Dict (BlobKey R) Payload) (thread_id : ℕ)
    (ns : String) where
  -- A channel that has no value at a checkpoint is needed there.
  pub mem-needed_channels :
      (versions : Dict String R) (channel : String) (version : R)
      → get channel versions ≡ some version
      → is_materialized blobs thread_id ns channel version ≡ false
      → mem channel (needed_channels blobs thread_id ns versions) ≡ true
  unfolding needed_channels any get
  mem-needed_channels [] channel version h n = cc h
  mem-needed_channels ((c, v) ∷ versions) channel version h n = elim (Bool-cases (c == channel)) [
    | inl same ↦
        let here = (string_eq.same_iff c channel).0 same in
        let old = some_injective (rw (get, same) at h) in
        rw
          (ap (λ x. is_materialized blobs thread_id ns x v) here
            ∙ ap (is_materialized blobs thread_id ns channel) old
            ∙ n)
          (rw same refl)
    | inr other ↦
        let rest = mem-needed_channels versions channel version (rw (get, other) at h) n in
        elim (Bool-cases (is_materialized blobs thread_id ns c v)) [
          | inl full ↦ rw full rest
          | inr empty ↦ rw (empty, other) rest
        ]
  ]
