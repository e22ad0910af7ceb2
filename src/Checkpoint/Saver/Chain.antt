-- ===== src/Checkpoint/Saver/Chain.antt =====
-- checkpoint.py, `prune`: the checkpoints that the state at the newest one needs.
use langgraph_runtime_inmem.Prelude.{
  ℕ, zero, suc, Bool, false, not, Option, none, some, List, [], ◌∷◌, Eq, ◌==◌, if◌then◌else◌,
  String, string_eq, nat_eq, pair_eq, leb, keep,
}
use langgraph_runtime_inmem.Dict.{Dict, get}
use langgraph_runtime_inmem.Checkpoint.Saver.{Payload, Checkpoints, BlobKey, Serde}

-- `max(checkpoints, key=str)`
unfoldable pub latest_of : ℕ → Checkpoints → ℕ
latest_of best [] = best
latest_of best ((id, entry) ∷ rest) = latest_of (if leb id best then best else id) rest

module _ {R : Type 0} ⦃e : Eq R⦄ (blobs : Dict (BlobKey R) Payload) (thread_id : ℕ)
    (ns : String) where
  -- `blob is not None and blob[0] != "empty"`
  unfoldable pub is_materialized : String → R → Bool
  is_materialized channel version = elim (get (thread_id, (ns, (channel, version))) blobs) [
    | none ↦ false
    | some blob ↦ not (blob.tag == "empty")
  ]

  -- The channels of the newest checkpoint without a value of their own.
  unfoldable pub needed_channels : Dict String R → List String
  unfolding is_materialized
  needed_channels [] = []
  needed_channels ((channel, version) ∷ versions) =
      let rest = needed_channels versions in
      if is_materialized channel version then rest else channel ∷ rest

  -- The checkpoint with these versions has a value for the channel.
  unfoldable pub has_value : Dict String R → String → Bool
  unfolding is_materialized
  has_value versions channel = elim (get channel versions) [
    | none ↦ false
    | some version ↦ is_materialized channel version
  ]

  unfoldable pub still_needed : Dict String R → List String → List String
  unfolding has_value
  still_needed versions needed = keep (λ channel. not (has_value versions channel)) needed

  -- `while parent_id is not None and needed_channels`: the parents that are added to `keep_ids`, in
  -- at most the given number of rounds.
  unfoldable pub parent_chain : Serde R → Checkpoints → ℕ → List String → Option ℕ → List ℕ
  unfolding still_needed
  parent_chain serde checkpoints zero needed parent_id = []
  parent_chain serde checkpoints (suc rounds) [] parent_id = []
  parent_chain serde checkpoints (suc rounds) (c ∷ cs) none = []
  parent_chain serde checkpoints (suc rounds) (c ∷ cs) (some id) = elim (get id checkpoints) [
    | none ↦ []
    | some entry ↦
        id
        ∷ parent_chain serde checkpoints rounds
            (still_needed (serde.channel_versions entry.checkpoint) (c ∷ cs)) entry.parent_id
  ]
