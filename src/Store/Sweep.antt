-- ===== src/Store/Sweep.antt =====
-- store.py, `sweep_ttl`: the sweep of expired items.
pub mod Effect
pub mod Counts
use langgraph_runtime_inmem.Prelude.{
  ℕ, zero, suc, ◌+◌, Bool, true, false, Option, none, some, List, [], ◌∷◌, map, ◌==◌, leb, any,
  String, string_eq, pair_eq, if◌then◌else◌, keep,
}
use langgraph_runtime_inmem.Prelude.Int.{ℤ, pos, negsuc}
use langgraph_runtime_inmem.Dict.{Dict, get, put, remove, keys, is_some}
use langgraph_runtime_inmem.SizeTracking.{SizeTracker, remove_entry}
use langgraph_runtime_inmem.Store.Base.{
  Namespace, ItemKey, Nested, Tables, StoreBase, nested, lookup, list_eq,
}
use langgraph_runtime_inmem.Store.{Store, TtlRecord, Stats, drop_buckets}

-- `expired`, in the order of the records
unfoldable pub expired_keys : {K M : Type 0} → ℕ → Dict K (TtlRecord M) → List K
expired_keys now [] = []
expired_keys now ((k, r) ∷ ttl) =
    let rest = expired_keys now ttl in if leb r.expires_at now then k ∷ rest else rest

-- `touched_namespaces.add(namespace)`
unfoldable pub add_namespace : Namespace → List Namespace → List Namespace
add_namespace ns seen = if any (λ n. n == ns) seen then seen else ns ∷ seen

-- `table.get(namespace)`, and the item's key popped from it in place
unfoldable pub pop_item : {A : Type 0} → ItemKey → Nested A → Nested A
pop_item (ns, key) table = elim (get ns table) [
  | none ↦ table
  | some own ↦ put ns (remove key own) table
]

-- The variables of the loop, beside the Store's.
pub record Sweep (V W M : Type 0) : Type 0 where
  pub tables : Tables V W
  pub ttl : Dict ItemKey (TtlRecord M)
  pub tracker : SizeTracker ItemKey
  pub touched : List Namespace
  pub deleted : ℕ
  pub deleted_size : ℕ

module _ {V W M : Type 0} where
  -- The body of the loop over `expired`: only the bytes of an item that is there are counted.
  unfoldable pub sweep_one : ItemKey → Sweep V W M → Sweep V W M
  unfolding pop_item add_namespace
  sweep_one k w =
      let there = is_some (lookup k w.tables.items) in
      let (tracker, size) = remove_entry w.tracker k in
      record {
        tables = record {
          items = if there then pop_item k w.tables.items else w.tables.items;
          vectors = pop_item k w.tables.vectors;
        };
        ttl = remove k w.ttl;
        tracker = tracker;
        touched = add_namespace k.0 w.touched;
        deleted = if there then w.deleted + 1 else w.deleted;
        deleted_size = if there then w.deleted_size + size else w.deleted_size;
      }

  unfoldable pub sweep_keys : List ItemKey → Sweep V W M → Sweep V W M
  sweep_keys [] w = w
  sweep_keys (k ∷ ks) w = sweep_keys ks (sweep_one k w)

  unfoldable pub sweep_start : {F : Type 0} → Store V W M F → Sweep V W M
  sweep_start s = record {
    tables = s.tables;
    ttl = s.ttl;
    tracker = s.size_tracker;
    touched = [];
    deleted = 0;
    deleted_size = 0;
  }

-- `round(100 * deleted_size / total_before, 1) if total_before > 0 else 0.0`
unfoldable pub deleted_ratio : {V W U M F : Type 0} → StoreBase V W U M F → ℕ → ℤ → F
deleted_ratio base size (pos zero) = base.zero_percent
deleted_ratio base size (pos (suc n)) = base.percent size (pos (suc n))
deleted_ratio base size (negsuc n) = base.zero_percent

-- The items that were deleted, and the Store that is left.
unfoldable pub sweep_ttl :
    {V W U M F : Type 0} → StoreBase V W U M F → ℕ → Store V W M F → ℕ × Store V W M F
unfolding expired_keys sweep_keys sweep_start deleted_ratio drop_buckets
sweep_ttl base now s =
    let total_before = s.size_tracker.total_bytes in
    let w = sweep_keys (expired_keys now s.ttl) (sweep_start s) in
    (
      w.deleted,
      record {
        tables = drop_buckets w.touched w.tables;
        ttl = w.ttl;
        size_tracker = w.tracker;
        last_ttl_sweep_stats = record {
          deleted_items = w.deleted;
          deleted_size_bytes = w.deleted_size;
          total_before_bytes = total_before;
          deleted_ratio_percent = deleted_ratio base w.deleted_size total_before;
        };
      },
    )
