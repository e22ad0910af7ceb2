-- ===== src/Ops/Prune.antt =====
-- ops.py: `Threads.prune` and `Threads.copy`. `auth` is what the authorization handler answers when it
-- is asked for the list of threads, `auth_of` when it is asked for one of them.
pub mod Deletes
pub mod Keeps
pub mod Copies
use langgraph_runtime_inmem.Prelude.{
  ℕ, zero, suc, ◌+◌, max, Bool, true, false, not, ◌&&◌, Option, none, some, List, [], ◌∷◌, ◌++◌,
  ◌==◌, nat_eq, Error, http, Result, ok, err, if◌then◌else◌, keep, take, drop, length,
}
use langgraph_runtime_inmem.Exec.{Exec}
use langgraph_runtime_inmem.Dict.{Dict, get, put, get_or}
use langgraph_runtime_inmem.Json.{Fields, is_empty}
use langgraph_runtime_inmem.Filters.{is_allowed}
use langgraph_runtime_inmem.Ops.State.{
  Thread, Db, Checkpointer, find_thread, Strategy, delete, keep_latest, TtlState,
}
use langgraph_runtime_inmem.Ops.Threads.{new_thread, get_with_filters}
use langgraph_runtime_inmem.Ops.Threads

abbrev pub both_found : Result Bool → Result (Option Thread) → Result Bool
both_found (err e) r = err e
both_found (ok b) (err e) = err e
both_found (ok b) (ok none) = ok false
both_found (ok b) (ok (some t)) = ok b

-- The copy of an override, without the marker of the last sweep; a thread without one gets none.
unfoldable pub copy_ttl : ℕ → ℕ → Dict ℕ TtlState → Dict ℕ TtlState
copy_ttl old new ttls = elim (get old ttls) [
  | none ↦ ttls
  | some state ↦ elim state.ttl_minutes [
    | none ↦ ttls
    | some minutes ↦
        put new
          (record {
            strategy = some (get_or state.strategy delete);
            ttl_minutes = some minutes;
            last_swept_updated_at = none;
          })
          ttls
  ]
]

module _ {S : Type 0} where
  -- `asyncio.gather` of `Threads._get_with_filters` over the threads: each of them runs, and the first
  -- exception is raised; otherwise, whether every thread was found.
  unfoldable pub all_found : Fields → List ℕ → Result Bool → Exec (Db S) Bool
  all_found filters [] sofar db = (sofar, db)
  all_found filters (id ∷ ids) sofar db =
      let (r, db') = get_with_filters id filters db in
      all_found filters ids (both_found sofar r) db'

  abbrev pub checked : Result Bool × Db S → Result (Unit {0}) × Db S
  checked (err e, db) = (err e, db)
  checked (ok b, db) = if b then (ok tt, db) else (err (http 404), db)

  -- The access to all the threads, if there are filters.
  unfoldable pub check_access : Fields → List ℕ → Exec (Db S) (Unit {0})
  unfolding all_found
  check_access filters ids db =
      if is_empty filters then (ok tt, db) else checked (all_found filters ids (ok true) db)

  -- One round of the strategy `delete`, which passes over an `HTTPException`, and the rest.
  abbrev pub counted_delete : (ℕ → Exec (Db S) ℕ) → ℕ → Result ℕ × Db S → Result ℕ × Db S
  counted_delete rest pruned (ok _, db) = rest (pruned + 1) db
  counted_delete rest pruned (err (http code), db) = rest pruned db
  counted_delete rest pruned (err e, db) = (err e, db)

  unfoldable pub delete_each : Checkpointer S → (ℕ → Result Fields) → List ℕ → ℕ → Exec (Db S) ℕ
  delete_each cp auth_of [] pruned db = (ok pruned, db)
  delete_each cp auth_of (id ∷ ids) pruned db =
      counted_delete (delete_each cp auth_of ids) pruned (Threads.delete cp (auth_of id) id db)

  -- `for offset in range(0, len(ordered_ids), batch_size)`; as many rounds as there are identifiers
  -- are enough.
  unfoldable pub prune_batches : Checkpointer S → ℕ → ℕ → List ℕ → ℕ → Db S → ℕ × Db S
  prune_batches cp zero size ids pruned db = (pruned, db)
  prune_batches cp (suc rounds) size [] pruned db = (pruned, db)
  prune_batches cp (suc rounds) size (id ∷ ids) pruned db =
      let batch = take size (id ∷ ids) in
      prune_batches cp rounds size (drop size (id ∷ ids)) (pruned + length batch)
        (record db { saver = cp.prune_latest batch db.saver })

  abbrev pub is_there : Db S → ℕ → Bool
  is_there db id = elim (find_thread id db.threads) [ none ↦ false | some t ↦ true ]

  unfoldable pub prune_by :
      Checkpointer S → (ℕ → Result Fields) → Option Strategy → ℕ → List ℕ → Exec (Db S) ℕ
  unfolding delete_each prune_batches
  prune_by cp auth_of none batch_size ids db = (err (http 422), db)
  prune_by cp auth_of (some delete) batch_size ids db = delete_each cp auth_of ids 0 db
  prune_by cp auth_of (some keep_latest) batch_size ids db =
      let ordered_ids = keep (is_there db) ids in
      let (pruned, db') =
        prune_batches cp (length ordered_ids) (max 1 batch_size) ordered_ids 0 db in
      (ok pruned, db')

  -- The strategy `none` is one that is not supported.
  unfoldable pub prune :
      Checkpointer S
      → Result Fields
      → (ℕ → Result Fields)
      → Option Strategy
      → ℕ
      → List ℕ
      → Exec (Db S) ℕ
  unfolding check_access prune_by
  prune cp auth auth_of strategy batch_size [] db = (ok 0, db)
  prune cp auth auth_of strategy batch_size (id ∷ ids) db = elim auth [
    | err e ↦ (err e, db)
    | ok filters ↦
        let (r, db') = check_access filters (id ∷ ids) db in
        elim r [
          | err e ↦ (err e, db')
          | ok _ ↦ prune_by cp auth_of strategy batch_size (id ∷ ids) db'
        ]
  ]

  unfoldable pub add_copy : Checkpointer S → ℕ → ℕ → ℕ → Thread → Db S → Db S
  unfolding copy_ttl
  add_copy cp now old new t db = record db {
    threads = db.threads ++ new_thread now new t.metadata ∷ [];
    thread_ttls = copy_ttl old new db.thread_ttls;
    saver = cp.copy_thread old new db.saver;
  }

  -- `new` is the fresh identifier, `may_read` and `may_create` what the authorization handler answers.
  -- `none` is the empty iterator.
  unfoldable pub copy :
      Checkpointer S → Result Fields → Result Fields → ℕ → ℕ → ℕ → Exec (Db S) (Option Thread)
  unfolding add_copy
  copy cp (err e) may_create now old new db = (err e, db)
  copy cp (ok filters) (err e) now old new db = (err e, db)
  copy cp (ok filters) (ok created) now old new db = elim (find_thread old db.threads) [
    | none ↦ (ok none, db)
    | some t ↦ elim (is_allowed t.metadata filters) [
      | err e ↦ (err e, db)
      | ok allowed ↦
          if allowed
          then (ok (some (new_thread now new t.metadata)), add_copy cp now old new t db)
          else (ok none, db)
    ]
  ]
