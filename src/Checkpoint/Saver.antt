-- ===== src/Checkpoint/Saver.antt =====
-- checkpoint.py, `InMemorySaver`: checkpoints by thread, namespace and identifier, the writes that
-- are pending on them, the values of their channels, and the sizes of all these. Identifiers of
-- threads and checkpoints are numbers, in the order of their texts. The library's own saver, the
-- texts of values and the serializer are parameters.
pub mod Chain
pub mod Prune
pub mod Sizes
pub mod Base
pub mod Puts
pub mod Rebuild
pub mod Calls
use langgraph_runtime_inmem.Prelude.{
  ℕ, zero, suc, ◌+◌, Bool, true, false, not, ◌&&◌, Option, none, some, List, [], ◌∷◌, ◌++◌, map, Eq,
  ◌==◌, if◌then◌else◌, String, string_eq, nat_eq, pair_eq, leb, keep, sum_by, length, mem,
}
use langgraph_runtime_inmem.Prelude.Int.{ℤ, pos, ◌-ℤ◌}
use langgraph_runtime_inmem.Dict.{Dict, get, put, remove, keys, get_or}
use langgraph_runtime_inmem.Checkpoint.SizeState.{SizeState, adjust, remove_thread}
use langgraph_runtime_inmem.Checkpoint.SizeState

-- `(type, bytes)`, a serialized value
pub record Payload : Type 0 where
  pub tag : String
  pub bytes : List ℕ

-- `(checkpoint, metadata, parent_id)`
pub record Entry : Type 0 where
  pub checkpoint : Payload
  pub metadata : Payload
  pub parent_id : Option ℕ

-- `(task_id, channel, value, task_path)`
pub record Write : Type 0 where
  pub task_id : String
  pub channel : String
  pub value : Payload
  pub task_path : String

-- The checkpoints of one namespace.
abbrev pub Checkpoints : Type 0
Checkpoints = Dict ℕ Entry

-- `(thread_id, checkpoint_ns, checkpoint_id)`
abbrev pub WriteKey : Type 0
WriteKey = ℕ × (String × ℕ)

-- `(task_id, index)`, and the write
abbrev pub WriteGroup : Type 0
WriteGroup = Dict (String × ℤ) Write

-- `(thread_id, checkpoint_ns, channel, version)`
abbrev pub BlobKey : Type 0 → Type 0
BlobKey R = ℕ × (String × (String × R))

pub record Tables (R : Type 0) : Type 0 where
  pub storage : Dict ℕ (Dict String Checkpoints)
  pub writes : Dict WriteKey WriteGroup
  pub blobs : Dict (BlobKey R) Payload

pub record Saver (R : Type 0) : Type 0 where
  pub tables : Tables R
  pub size_state : SizeState ℕ

-- What is taken from outside; versions of channels are an R.
pub record Serde (R : Type 0) : Type 0 where
  -- `loads_typed(checkpoint).get("channel_versions", {})`
  pub channel_versions : Payload → Dict String R
  -- `len(text.encode())`
  pub encoded_length : String → ℕ
  -- texts of identifiers, of indices and of versions
  pub id_text : ℕ → String
  pub index_text : ℤ → String
  pub version_text : R → String

-- What a size is asked of: nothing, a text or the text of another value, or bytes.
pub data Component : Type 0 where
  absent : Component
  text : String → Component
  raw : List ℕ → Component

module _ {R : Type 0} (serde : Serde R) where
  unfoldable pub component_size : Component → ℕ
  component_size absent = 0
  component_size (text s) = serde.encoded_length s
  component_size (raw bytes) = length bytes

  unfoldable pub typed_payload_size : Payload → ℕ
  unfolding component_size
  typed_payload_size value = component_size (text value.tag) + component_size (raw value.bytes)

  abbrev pub parent_component : Option ℕ → Component
  parent_component none = absent
  parent_component (some id) = text (serde.id_text id)

  unfoldable pub checkpoint_entry_size : ℕ → Entry → ℕ
  unfolding typed_payload_size
  checkpoint_entry_size checkpoint_id entry =
      component_size (text (serde.id_text checkpoint_id))
      + typed_payload_size entry.checkpoint
      + typed_payload_size entry.metadata
      + component_size (parent_component entry.parent_id)

  unfoldable pub write_size : (String × ℤ) × Write → ℕ
  unfolding typed_payload_size
  write_size ((key_task, index), write) =
      component_size (text key_task)
      + component_size (text (serde.index_text index))
      + component_size (text write.task_id)
      + component_size (text write.channel)
      + typed_payload_size write.value
      + component_size (text write.task_path)

  unfoldable pub write_group_size : ℕ → WriteGroup → ℕ
  unfolding write_size
  write_group_size checkpoint_id writes =
      component_size (text (serde.id_text checkpoint_id)) + sum_by write_size writes

  unfoldable pub blob_entry_size : String → R → Payload → ℕ
  unfolding typed_payload_size
  blob_entry_size channel version value =
      component_size (text channel)
      + component_size (text (serde.version_text version))
      + typed_payload_size value
