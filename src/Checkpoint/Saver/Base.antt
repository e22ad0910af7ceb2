-- ===== src/Checkpoint/Saver/Base.antt =====
-- The saver of the library that `InMemorySaver` extends, by what it documents.
use langgraph_runtime_inmem.Prelude.{
  ℕ, not, Option, none, some, [], ◌∷◌, ◌≡◌, Eq, ◌==◌, nat_eq, string_eq, pair_eq, String, keep,
}
use langgraph_runtime_inmem.Dict.{Dict, get, put, remove, get_or}
use langgraph_runtime_inmem.Checkpoint.Saver.{
  Payload, Entry, Checkpoints, WriteKey, WriteGroup, BlobKey, Tables,
}

-- `storage.get(thread_id, {}).get(checkpoint_ns, {})`
abbrev pub checkpoints_of : {R : Type 0} → Tables R → ℕ → String → Checkpoints
checkpoints_of t thread_id ns = get_or (get ns (get_or (get thread_id t.storage) [])) []

-- The arguments of `put`: the `body` is what only the library's saver reads.
pub record PutArgs (A R : Type 0) : Type 0 where
  pub thread_id : ℕ
  pub checkpoint_ns : String
  pub checkpoint_id : ℕ
  pub new_versions : Dict String R
  pub body : A

-- The arguments of `put_writes`.
pub record WritesArgs (A : Type 0) : Type 0 where
  pub thread_id : ℕ
  pub checkpoint_ns : String
  pub checkpoint_id : ℕ
  pub body : A

pub record BaseSaver (A R : Type 0) : Type 0 where
  pub put : PutArgs A R → Tables R → Tables R
  pub put_writes : WritesArgs A → Tables R → Tables R
  pub delete_thread : ℕ → Tables R → Tables R

-- Writes to nested tables, which make the inner ones.
abbrev pub put_entry :
    ℕ → String → ℕ → Entry → Dict ℕ (Dict String Checkpoints) → Dict ℕ (Dict String Checkpoints)
put_entry thread_id ns id entry storage =
    let namespaces = get_or (get thread_id storage) [] in
    put thread_id (put ns (put id entry (get_or (get ns namespaces) [])) namespaces) storage

abbrev pub put_group :
    WriteKey → Option WriteGroup → Dict WriteKey WriteGroup → Dict WriteKey WriteGroup
put_group key none writes = writes
put_group key (some group) writes = put key group writes

module _ {R : Type 0} ⦃e : Eq R⦄ where
  -- One value for each channel that has a new version
  abbrev pub put_blobs :
      ℕ
      → String
      → (String → Payload)
      → Dict String R
      → Dict (BlobKey R) Payload
      → Dict (BlobKey R) Payload
  put_blobs thread_id ns value [] blobs = blobs
  put_blobs thread_id ns value ((channel, version) ∷ versions) blobs =
      put_blobs thread_id ns value versions
        (put (thread_id, (ns, (channel, version))) (value channel) blobs)

  -- `put` stores one checkpoint and one value for each new version, `put_writes` one group of writes at
  -- most, and `delete_thread` removes all rows of the thread.
  pub record IsBaseSaver {A : Type 0} (base : BaseSaver A R) : Type 0 where
    pub puts :
        (args : PutArgs A R) (t : Tables R)
        → (entry : Entry) × (value : String → Payload) × (base.put args t ≡ record t {
          storage = put_entry args.thread_id args.checkpoint_ns args.checkpoint_id entry t.storage;
          blobs = put_blobs args.thread_id args.checkpoint_ns value args.new_versions t.blobs;
        })
    pub puts_writes :
        (args : WritesArgs A) (t : Tables R)
        → (group : Option WriteGroup) × (base.put_writes args t ≡ record t {
          writes =
              put_group (args.thread_id, (args.checkpoint_ns, args.checkpoint_id)) group t.writes;
        })
    pub deletes :
        (thread_id : ℕ) (t : Tables R)
        → base.delete_thread thread_id t ≡ record {
          storage = remove thread_id t.storage;
          writes = keep (λ r. not (r.0.0 == thread_id)) t.writes;
          blobs = keep (λ r. not (r.0.0 == thread_id)) t.blobs;
        }
