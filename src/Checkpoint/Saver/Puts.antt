-- ===== src/Checkpoint/Saver/Puts.antt =====
-- checkpoint.py: `put` and `put_writes` of the saver, which move the sizes by what they change.
pub mod Accounts
pub mod Stored
pub mod Groups
use langgraph_runtime_inmem.Prelude.{
  ℕ, ◌+◌, Option, none, some, List, [], ◌∷◌, Eq, ◌==◌, nat_eq, string_eq, pair_eq, String, Result,
  ok, err, Error, key_error, ◌>>=◌,
}
use langgraph_runtime_inmem.Prelude.Int.{ℤ, pos, ◌-ℤ◌}
use langgraph_runtime_inmem.Dict.{Dict, get}
use langgraph_runtime_inmem.Dict.Laws.{weight}
use langgraph_runtime_inmem.Checkpoint.SizeState.{SizeState, adjust}
use langgraph_runtime_inmem.Checkpoint.Saver.{
  Payload, Entry, WriteKey, WriteGroup, BlobKey, Tables, Saver, Serde, checkpoint_entry_size,
  write_group_size, blob_entry_size,
}
use langgraph_runtime_inmem.Checkpoint.Saver.Base.{BaseSaver, PutArgs, WritesArgs, checkpoints_of}

-- `self.blobs[key]`, which raises for a missing key
abbrev pub item_or_raise : {A : Type 0} → Option A → Result A
item_or_raise none = err key_error
item_or_raise (some a) = ok a

-- `int(old_entry is None)`
abbrev pub count_new : {A : Type 0} → Option A → ℤ
count_new none = pos 1
count_new (some a) = pos 0

module _ {R : Type 0} ⦃e : Eq R⦄ (serde : Serde R) where
  -- The sum over the new versions whose values are there.
  unfoldable pub old_blobs_size : ℕ → String → Dict String R → Dict (BlobKey R) Payload → ℕ
  old_blobs_size thread_id ns [] blobs = 0
  old_blobs_size thread_id ns ((channel, version) ∷ versions) blobs =
      weight (blob_entry_size serde channel version)
        (get (thread_id, (ns, (channel, version))) blobs)
      + old_blobs_size thread_id ns versions blobs

  -- The sum over the new versions, all of whose values must be there.
  unfoldable pub new_blobs_size : ℕ → String → Dict String R → Dict (BlobKey R) Payload → Result ℕ
  new_blobs_size thread_id ns [] blobs = ok 0
  new_blobs_size thread_id ns ((channel, version) ∷ versions) blobs = do
    value ← item_or_raise (get (thread_id, (ns, (channel, version))) blobs)
    rest ← new_blobs_size thread_id ns versions blobs
    ok (blob_entry_size serde channel version value + rest)

  module _ {A : Type 0} (base : BaseSaver A R) where
    unfoldable pub old_size : PutArgs A R → Tables R → ℕ
    unfolding old_blobs_size
    old_size args t =
        weight (checkpoint_entry_size serde args.checkpoint_id)
          (get args.checkpoint_id (checkpoints_of t args.thread_id args.checkpoint_ns))
        + old_blobs_size args.thread_id args.checkpoint_ns args.new_versions t.blobs

    unfoldable pub new_size : PutArgs A R → Tables R → Result ℕ
    unfolding new_blobs_size
    new_size args t = do
      entry ←
          item_or_raise
            (get args.checkpoint_id (checkpoints_of t args.thread_id args.checkpoint_ns))
      values ← new_blobs_size args.thread_id args.checkpoint_ns args.new_versions t.blobs
      ok (checkpoint_entry_size serde args.checkpoint_id entry + values)

    -- `put` from the tables that the inherited one leaves
    unfoldable pub after_put : PutArgs A R → Saver R → Tables R → Result (Unit {0}) × Saver R
    unfolding old_size new_size
    after_put args s t = elim (new_size args t) [
      | err raised ↦ (err raised, record s { tables = t })
      | ok size ↦ (
        ok tt,
        record {
          tables = t;
          size_state =
              adjust s.size_state args.thread_id (pos size -ℤ pos (old_size args s.tables)) (
                count_new (
                  get args.checkpoint_id
                    (checkpoints_of s.tables args.thread_id args.checkpoint_ns)));
        },
      )
    ]

    unfoldable pub put : PutArgs A R → Saver R → Result (Unit {0}) × Saver R
    unfolding after_put
    put args s = after_put args s (base.put args s.tables)

    abbrev pub outer_key : WritesArgs A → WriteKey
    outer_key args = (args.thread_id, (args.checkpoint_ns, args.checkpoint_id))

    unfoldable pub group_size : WritesArgs A → Tables R → ℕ
    group_size args t =
        weight (write_group_size serde args.checkpoint_id) (get (outer_key args) t.writes)

    -- `put_writes` from the tables that the inherited one leaves
    unfoldable pub after_put_writes : WritesArgs A → Saver R → Tables R → Saver R
    unfolding group_size
    after_put_writes args s t = record {
      tables = t;
      size_state =
          adjust s.size_state args.thread_id
            (pos (group_size args t) -ℤ pos (group_size args s.tables)) (pos 0);
    }

    unfoldable pub put_writes : WritesArgs A → Saver R → Saver R
    unfolding after_put_writes
    put_writes args s = after_put_writes args s (base.put_writes args s.tables)
