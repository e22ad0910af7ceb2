-- ===== src/Store.antt =====
-- store.py, `DiskBackedInMemStore`: the items of the Store, the vectors that index them, their times
-- of expiry and their tracked sizes. What the Store inherits from the library's `InMemoryStore`, the
-- serialized sizes and the arithmetic of dates are parameters. A step holds the operation lock.
pub mod Base
pub mod Keys
pub mod Lookup
pub mod Sweep
pub mod Writes
pub mod Orphans
pub mod Tracked
pub mod Calls
use langgraph_runtime_inmem.Prelude.{
  ℕ, Bool, true, false, Option, none, some, List, [], ◌∷◌, ◌==◌, if◌then◌else◌, leb, Result, ok,
  err, map, ◌++◌, ◌>>=◌, ◌>>◌, String, string_eq, pair_eq,
}
use langgraph_runtime_inmem.Prelude.Int.{ℤ}
use langgraph_runtime_inmem.Dict.{Dict, get, put, remove, is_some, keys}
use langgraph_runtime_inmem.SizeTracking
use langgraph_runtime_inmem.SizeTracking.{SizeTracker, set_size, remove_entry}
use langgraph_runtime_inmem.Store.Base.{
  Namespace, ItemKey, Nested, Tables, PutOp, StoreBase, nested, lookup, list_eq,
}

pub record TtlRecord (M : Type 0) : Type 0 where
  pub expires_at : ℕ
  pub ttl_minutes : M

pub record Stats (F : Type 0) : Type 0 where
  pub deleted_items : ℕ
  pub deleted_size_bytes : ℕ
  pub total_before_bytes : ℤ
  pub deleted_ratio_percent : F

pub record Store (V W M F : Type 0) : Type 0 where
  pub tables : Tables V W
  pub ttl : Dict ItemKey (TtlRecord M)
  pub size_tracker : SizeTracker ItemKey
  pub last_ttl_sweep_stats : Stats F

-- A `GetOp`, and the other operations of a batch.
pub data Op : Type 0 where
  get_op : (namespace : Namespace) (key : String) (refresh_ttl : Bool) → Op
  other_op : Op

-- `key in self._data.get(namespace, {})`
abbrev pub has_item : {V : Type 0} → ItemKey → Nested V → Bool
has_item k items = is_some (lookup k items)

-- The loop over `list(self._ttl)`, and what it leaves of the times of expiry.
unfoldable pub drop_each :
    {V M : Type 0}
    → Nested V
    → List (ItemKey × TtlRecord M)
    → Dict ItemKey (TtlRecord M)
    → Dict ItemKey (TtlRecord M)
drop_each items [] ttl = ttl
drop_each items (p ∷ ps) ttl =
    drop_each items ps (if has_item p.0 items then ttl else remove p.0 ttl)

unfoldable pub drop_orphaned_ttl_records :
    {V M : Type 0} → Nested V → Dict ItemKey (TtlRecord M) → Dict ItemKey (TtlRecord M)
unfolding drop_each
drop_orphaned_ttl_records items ttl = drop_each items ttl ttl

-- `_prepare_ops`: the operations, each with whether its result is an item.
unfoldable pub refreshed_gets : List (Op × Bool) → List ItemKey
refreshed_gets [] = []
refreshed_gets ((get_op ns key true, true) ∷ ops) = (ns, key) ∷ refreshed_gets ops
refreshed_gets (_ ∷ ops) = refreshed_gets ops

-- The items that the searches with `refresh_ttl` found; `none` is a search without a result.
unfoldable pub refreshed_searches : List (Bool × Option (List ItemKey)) → List ItemKey
refreshed_searches [] = []
refreshed_searches ((true, some found) ∷ ops) = found ++ refreshed_searches ops
refreshed_searches (_ ∷ ops) = refreshed_searches ops

-- `if not self._data.get(namespace): self._data.pop(namespace, None)`
unfoldable pub drop_bucket : {A : Type 0} → Namespace → Nested A → Nested A
drop_bucket ns table = elim (nested ns table) [ [] ↦ remove ns table | _ ∷ _ ↦ table ]

unfoldable pub drop_buckets : {V W : Type 0} → List Namespace → Tables V W → Tables V W
unfolding drop_bucket
drop_buckets [] tables = tables
drop_buckets (ns ∷ nss) tables =
    drop_buckets nss
      (record { items = drop_bucket ns tables.items; vectors = drop_bucket ns tables.vectors })

unfoldable pub write_records :
    {M : Type 0}
    → Dict ItemKey (Option (TtlRecord M))
    → Dict ItemKey (TtlRecord M)
    → Dict ItemKey (TtlRecord M)
write_records [] ttl = ttl
write_records ((k, none) ∷ updates) ttl = write_records updates (remove k ttl)
write_records ((k, some r) ∷ updates) ttl = write_records updates (put k r ttl)

module _ {V W U M F : Type 0} (base : StoreBase V W U M F) where
  unfoldable pub estimate_item_size : Tables V W → ItemKey → ℤ
  estimate_item_size tables k =
      base.estimate_pickle_size k (lookup k tables.items) (lookup k tables.vectors)

  unfoldable pub track_item_size : Tables V W → ItemKey → SizeTracker ItemKey → SizeTracker ItemKey
  unfolding estimate_item_size
  track_item_size tables k tracker =
      if has_item k tables.items
      then set_size tracker k (estimate_item_size tables k)
      else (remove_entry tracker k).0

  unfoldable pub track_all : Tables V W → List ItemKey → SizeTracker ItemKey → SizeTracker ItemKey
  track_all tables [] tracker = tracker
  track_all tables (k ∷ ks) tracker = track_all tables ks (track_item_size tables k tracker)

  -- `for key in items`, for the items of one namespace
  unfoldable pub track_items :
      Tables V W → Namespace → Dict String V → SizeTracker ItemKey → SizeTracker ItemKey
  track_items tables ns [] tracker = tracker
  track_items tables ns ((key, item) ∷ own) tracker =
      track_items tables ns own (track_item_size tables (ns, key) tracker)

  unfoldable pub track_namespaces :
      Tables V W → Nested V → SizeTracker ItemKey → SizeTracker ItemKey
  track_namespaces tables [] tracker = tracker
  track_namespaces tables ((ns, own) ∷ rest) tracker =
      track_namespaces tables rest (track_items tables ns own tracker)

  unfoldable pub rebuild_size_tracking : Tables V W → SizeTracker ItemKey → SizeTracker ItemKey
  rebuild_size_tracking tables tracker =
      track_namespaces tables tables.items (SizeTracking.clear tracker)

  -- The Store over what was loaded, or over empty tables.
  unfoldable pub init : Tables V W → Dict ItemKey (TtlRecord M) → Store V W M F
  unfolding drop_orphaned_ttl_records rebuild_size_tracking
  init tables ttl =
      let tracker = rebuild_size_tracking tables SizeTracking.init in
      record {
        tables = tables;
        ttl = drop_orphaned_ttl_records tables.items ttl;
        size_tracker = tracker;
        last_ttl_sweep_stats = record {
          deleted_items = 0;
          deleted_size_bytes = 0;
          total_before_bytes = tracker.total_bytes;
          deleted_ratio_percent = base.zero_percent;
        };
      }

  -- The record of a TTL that starts now; a date out of range raises.
  unfoldable pub new_record : ℕ → M → Result (TtlRecord M)
  new_record now ttl_minutes = do
    expires_at ← base.add_minutes now ttl_minutes
    ok (record { expires_at = expires_at; ttl_minutes = ttl_minutes })

  unfoldable pub refresh_ttl :
      ItemKey → ℕ → Dict ItemKey (TtlRecord M) → Result (Dict ItemKey (TtlRecord M))
  unfolding new_record
  refresh_ttl k now ttl = elim (get k ttl) [
    | none ↦ ok ttl
    | some r ↦ do fresh ← new_record now r.ttl_minutes; ok (put k fresh ttl)
  ]

  -- Refreshes in turn, with what they leave when one raises.
  unfoldable pub refresh_keys :
      List ItemKey → ℕ → Dict ItemKey (TtlRecord M) → Result (Unit {0}) × Dict ItemKey (TtlRecord M)
  refresh_keys [] now ttl = (ok tt, ttl)
  refresh_keys (k ∷ ks) now ttl = elim (refresh_ttl k now ttl) [
    | err e ↦ (err e, ttl)
    | ok ttl' ↦ refresh_keys ks now ttl'
  ]

  -- `_prepare_ops`, after the inherited one
  unfoldable pub prepare_ops :
      List (Op × Bool)
      → ℕ
      → Dict ItemKey (TtlRecord M)
      → Result (Unit {0}) × Dict ItemKey (TtlRecord M)
  unfolding refreshed_gets refresh_keys
  prepare_ops ops now ttl = refresh_keys (refreshed_gets ops) now ttl

  -- `_batch_search`, after the inherited one
  unfoldable pub batch_search :
      List (Bool × Option (List ItemKey))
      → ℕ
      → Dict ItemKey (TtlRecord M)
      → Result (Unit {0}) × Dict ItemKey (TtlRecord M)
  unfolding refreshed_searches refresh_keys
  batch_search ops now ttl = refresh_keys (refreshed_searches ops) now ttl

  -- `ttl_updates[item_key]`
  unfoldable pub ttl_update : ℕ → PutOp U M → Result (Option (TtlRecord M))
  unfolding new_record
  ttl_update now op = elim (op.value) [
    | none ↦ ok none
    | some value ↦ elim (op.ttl) [
      | none ↦ ok none
      | some ttl_minutes ↦ do r ← new_record now ttl_minutes; ok (some r)
    ]
  ]

  unfoldable pub ttl_updates :
      ℕ → Dict ItemKey (PutOp U M) → Result (Dict ItemKey (Option (TtlRecord M)))
  unfolding ttl_update
  ttl_updates now [] = ok []
  ttl_updates now ((k, op) ∷ ops) = do
    update ← ttl_update now op
    rest ← ttl_updates now ops
    ok ((k, update) ∷ rest)

  -- `_apply_put_ops`: all the times are computed first, so that one out of range changes nothing.
  unfoldable pub apply_put_ops :
      Dict ItemKey (PutOp U M) → ℕ → Store V W M F → Result (Unit {0}) × Store V W M F
  unfolding ttl_updates write_records track_all drop_buckets
  apply_put_ops ops now s = elim (ttl_updates now ops) [
    | err e ↦ (err e, s)
    | ok updates ↦
        let tables = base.apply_put_ops ops s.tables in
        (
          ok tt,
          record s {
            tables = drop_buckets (map (λ p. p.0.0) ops) tables;
            ttl = write_records updates s.ttl;
            size_tracker = track_all tables (keys ops) s.size_tracker;
          },
        )
  ]
