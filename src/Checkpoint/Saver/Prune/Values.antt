-- ===== src/Checkpoint/Saver/Prune/Values.antt =====
-- Pruning keeps the value of every channel at the newest checkpoint of a namespace: where the newest
-- checkpoint has none of its own, the nearest ancestor that has one is still found.
use langgraph_runtime_inmem.Prelude.{
  ℕ, zero, suc, true, not, Option, none, some, List, [], ◌∷◌, ◌≡◌, refl, ap, ◌∙◌, Eq, ◌==◌, nat_eq,
  string_eq, pair_eq, if◌then◌else◌, String, mem, any, arith, Option-cases, Bool-cases, inl, inr,
}
use langgraph_runtime_inmem.Dict.{Dict, get, is_some}
use langgraph_runtime_inmem.Dict.Laws.{beq_refl}
use langgraph_runtime_inmem.Checkpoint.Saver.{Payload, Entry, Checkpoints, BlobKey, Serde}
use langgraph_runtime_inmem.Checkpoint.Saver.Chain.{
  is_materialized, has_value, still_needed, parent_chain,
}
use langgraph_runtime_inmem.Checkpoint.Saver.Prune.{keep_checkpoints}
use langgraph_runtime_inmem.Checkpoint.Saver.Prune.Kept.{mem-keep, get-keep_checkpoints}

module _ {R : Type 0} ⦃e : Eq R⦄ (serde : Serde R) (thread_id : ℕ) (ns : String) where
  -- The stored value of a channel at one checkpoint, if there is one that is not empty.
  unfoldable pub own_value : Dict (BlobKey R) Payload → Entry → String → Option Payload
  own_value blobs entry channel = elim (get channel (serde.channel_versions entry.checkpoint)) [
    | none ↦ none
    | some version ↦ elim (get (thread_id, (ns, (channel, version))) blobs) [
      | none ↦ none
      | some blob ↦ if blob.tag == "empty" then none else some blob
    ]
  ]

  abbrev pub or_else : {A : Type 0} → Option A → Option A → Option A
  or_else none other = other
  or_else (some a) other = some a

  -- The value at a checkpoint, or else the one of its nearest ancestor that has one, so many
  -- checkpoints up.
  unfoldable pub value_at :
      Dict (BlobKey R) Payload → Checkpoints → ℕ → String → Option ℕ → Option Payload
  unfolding own_value
  value_at blobs cs zero channel id = none
  value_at blobs cs (suc steps) channel none = none
  value_at blobs cs (suc steps) channel (some id) = elim (get id cs) [
    | none ↦ none
    | some entry ↦
        or_else (own_value blobs entry channel) (value_at blobs cs steps channel entry.parent_id)
  ]

  pub own_value-has_value :
      (blobs : Dict (BlobKey R) Payload) (entry : Entry) (channel : String)
      → is_some (own_value blobs entry channel)
        ≡ has_value blobs thread_id ns (serde.channel_versions entry.checkpoint) channel
  unfolding own_value has_value is_materialized
  own_value-has_value blobs entry channel =
      elim (Option-cases (get channel (serde.channel_versions entry.checkpoint))) [
        | inl n ↦ rw (own_value, has_value, n) refl
        | inr (version, n) ↦ elim (Option-cases (get (thread_id, (ns, (channel, version))) blobs)) [
          | inl b ↦ rw (own_value, has_value, is_materialized, n, b) refl
          | inr (blob, b) ↦ elim (Bool-cases (blob.tag == "empty")) [
            | inl empty ↦ rw (own_value, has_value, is_materialized, n, b, empty) refl
            | inr full ↦ rw (own_value, has_value, is_materialized, n, b, full) refl
          ]
        ]
      ]

  pub or_else_some : {A : Type 0} (o x y : Option A) → is_some o ≡ true → or_else o x ≡ or_else o y
  or_else_some none x y h = cc h
  or_else_some (some a) x y h = refl

  pub get-missing :
      (ids : List ℕ) (id : ℕ) (cs : Checkpoints)
      → get id cs ≡ none
      → get id (keep_checkpoints ids cs) ≡ none
  get-missing ids id cs h = get-keep_checkpoints ids id cs ∙ rw h (ground arith)

  pub get-there :
      (ids : List ℕ) (id : ℕ) (cs : Checkpoints) (entry : Entry)
      → mem id ids ≡ true
      → get id cs ≡ some entry
      → get id (keep_checkpoints ids cs) ≡ some entry
  get-there ids id cs entry m h = get-keep_checkpoints ids id cs ∙ rw (m, h) refl

  -- One step of the loop: either the value is here, or the channel is still needed.
  value_at-parent :
      (blobs : Dict (BlobKey R) Payload) (cs : Checkpoints) (ids : List ℕ) (rounds : ℕ)
      (entry : Entry) (needed : List String) (channel : String)
      → mem channel needed ≡ true
      → (mem channel
              (still_needed blobs thread_id ns (serde.channel_versions entry.checkpoint) needed)
            ≡ true
          → value_at blobs (keep_checkpoints ids cs) rounds channel entry.parent_id
            ≡ value_at blobs cs rounds channel entry.parent_id)
      → or_else
          (own_value blobs entry channel)
          (value_at blobs (keep_checkpoints ids cs) rounds channel entry.parent_id)
        ≡ or_else (own_value blobs entry channel) (value_at blobs cs rounds channel entry.parent_id)
  unfolding still_needed
  value_at-parent blobs cs ids rounds entry needed channel m rest =
      let versions = serde.channel_versions entry.checkpoint in
      elim (Bool-cases (has_value blobs thread_id ns versions channel)) [
        | inl here ↦
            or_else_some (own_value blobs entry channel) _ _
              (own_value-has_value blobs entry channel ∙ here)
        | inr gone ↦ ap (or_else (own_value blobs entry channel)) (
            rest (
              mem-keep (λ c. not (has_value blobs thread_id ns versions c)) channel needed
              ∙ rw (m, gone) refl))
      ]

  -- The ancestors that the loop adds are enough.
  pub value_at-chain :
      (blobs : Dict (BlobKey R) Payload) (cs : Checkpoints) (ids : List ℕ) (rounds : ℕ)
      (needed : List String) (parent_id : Option ℕ) (channel : String)
      → mem channel needed ≡ true
      → ((j : ℕ)
          → mem j (parent_chain blobs thread_id ns serde cs rounds needed parent_id) ≡ true
          → mem j ids ≡ true)
      → value_at blobs (keep_checkpoints ids cs) rounds channel parent_id
        ≡ value_at blobs cs rounds channel parent_id
  unfolding value_at parent_chain any
  value_at-chain blobs cs ids zero needed parent_id channel m h = refl
  value_at-chain blobs cs ids (suc rounds) [] parent_id channel m h = cc m
  value_at-chain blobs cs ids (suc rounds) (c ∷ more) none channel m h = refl
  value_at-chain blobs cs ids (suc rounds) (c ∷ more) (some id) channel m h =
      elim (Option-cases (get id cs)) [
        | inl missing ↦ rw (value_at, missing, get-missing ids id cs missing) refl
        | inr (entry, g) ↦
            let chain = λ (j : ℕ) (x : _). h j (rw (parent_chain, g) x) in
            rw (value_at, g, get-there ids id cs entry (chain id (rw (beq_refl id) refl)) g)
              (value_at-parent blobs cs ids rounds entry (c ∷ more) channel m (λ needs.
                value_at-chain blobs cs ids rounds
                  (still_needed blobs thread_id ns (serde.channel_versions entry.checkpoint)
                    (c ∷ more))
                  entry.parent_id channel needs (λ j x. chain j (rw x (ground arith)))))
      ]

  -- Values that the kept checkpoints name are the same.
  pub value_at-blobs :
      (blobs blobs' : Dict (BlobKey R) Payload) (cs : Checkpoints) (steps : ℕ) (channel : String)
      (id : Option ℕ)
      → ((j : ℕ) (entry : Entry)
          → get j cs ≡ some entry
          → own_value blobs' entry channel ≡ own_value blobs entry channel)
      → value_at blobs' cs steps channel id ≡ value_at blobs cs steps channel id
  unfolding value_at
  value_at-blobs blobs blobs' cs zero channel id same = refl
  value_at-blobs blobs blobs' cs (suc steps) channel none same = refl
  value_at-blobs blobs blobs' cs (suc steps) channel (some id) same =
      elim (Option-cases (get id cs)) [
        | inl missing ↦ rw (value_at, missing) refl
        | inr (entry, g) ↦
            rw
              (
                value_at,
                g,
                same id entry g,
                value_at-blobs blobs blobs' cs steps channel entry.parent_id same,
              )
              refl
      ]
