-- ===== src/Store/Tracked.antt =====
-- The tracked sizes of the Store: what is tracked under each key.
use langgraph_runtime_inmem.Prelude.{
  mem, ℕ, true, Option, none, some, List, [], ◌∷◌, ◌++◌, map, ◌≡◌, refl, ◌∙◌, ap, sym, ◌==◌, any,
  ◌||◌, if◌then◌else◌, string_eq, pair_eq, arith, Bool-cases, inl, inr, String,
}
use langgraph_runtime_inmem.Prelude.Int.{pos_part}
use langgraph_runtime_inmem.Dict.{Dict, get, is_some}
use langgraph_runtime_inmem.SizeTracking.{SizeTracker}
use langgraph_runtime_inmem.SizeTracking
use langgraph_runtime_inmem.SizeTracking.Totals.{
  entry_after_call, IsBalanced, set_size-IsBalanced, remove_entry-IsBalanced,
}
use langgraph_runtime_inmem.Store.Base.{Namespace, ItemKey, Nested, Tables, StoreBase, list_eq}
use langgraph_runtime_inmem.Store.{
  has_item, estimate_item_size, track_item_size, track_all, track_items, track_namespaces,
  rebuild_size_tracking,
}
use langgraph_runtime_inmem.Store.Keys.{if_if, guard_lem, same_value}

module _ {V W U M F : Type 0} (base : StoreBase V W U M F) where
  -- The size of what is stored under a key.
  abbrev pub expected_size : Tables V W → ItemKey → Option ℕ
  expected_size tables k =
      if has_item k tables.items then some (pos_part (estimate_item_size base tables k)) else none

  -- Each key has the size of what is stored under it.
  abbrev pub Tracks : Tables V W → SizeTracker ItemKey → Type 0
  Tracks tables tracker = (k : ItemKey) → get k tracker.entries ≡ expected_size tables k

  track_item_size_lem :
      (tables : Tables V W) (k j : ItemKey) (t : SizeTracker ItemKey)
      → get j (track_item_size base tables k t).entries
        ≡ (if k == j then expected_size tables k else get j t.entries)
  unfolding track_item_size
  track_item_size_lem tables k j t =
      let (sets, removes, size) = entry_after_call t k j (estimate_item_size base tables k) in
      elim (Bool-cases (has_item k tables.items)) [
        | inl h ↦ rw (h, sets) refl
        | inr h ↦ rw (h, removes) refl
      ]

  track_item_size-get :
      (tables : Tables V W) (k j : ItemKey) (t : SizeTracker ItemKey)
      → get j (track_item_size base tables k t).entries
        ≡ (if k == j then expected_size tables j else get j t.entries)
  track_item_size-get tables k j t =
      track_item_size_lem tables k j t ∙ same_value (expected_size tables) k j (get j t.entries)

  pub track_all-get :
      (tables : Tables V W) (ks : List ItemKey) (j : ItemKey) (t : SizeTracker ItemKey)
      → get j (track_all base tables ks t).entries
        ≡ (if mem j ks then expected_size tables j else get j t.entries)
  unfolding track_all any
  track_all-get tables [] j t = refl
  track_all-get tables (k ∷ ks) j t =
      rw
        (
          track_all-get tables ks j (track_item_size base tables k t),
          track_item_size-get tables k j t,
        )
        (if_if (k == j) (mem j ks) _ _)

  track_item_size-IsBalanced :
      (tables : Tables V W) (k : ItemKey) (t : SizeTracker ItemKey)
      → IsBalanced t
      → IsBalanced (track_item_size base tables k t)
  unfolding track_item_size
  track_item_size-IsBalanced tables k t b = elim (Bool-cases (has_item k tables.items)) [
    | inl h ↦ rw h (set_size-IsBalanced t k _ b)
    | inr h ↦ rw h (remove_entry-IsBalanced t k b)
  ]

  pub track_all-IsBalanced :
      (tables : Tables V W) (ks : List ItemKey) (t : SizeTracker ItemKey)
      → IsBalanced t
      → IsBalanced (track_all base tables ks t)
  unfolding track_all
  track_all-IsBalanced tables [] t b = b
  track_all-IsBalanced tables (k ∷ ks) t b =
      track_all-IsBalanced tables ks _ (track_item_size-IsBalanced tables k t b)

  -- The keys of a table, in the order of the loops that rebuild the sizes.
  abbrev bucket_keys : Namespace → Dict String V → List ItemKey
  bucket_keys ns own = map (λ p. (ns, p.0)) own

  abbrev all_keys : Nested V → List ItemKey
  all_keys [] = []
  all_keys ((ns, own) ∷ rest) = bucket_keys ns own ++ all_keys rest

  track_all-append :
      (tables : Tables V W) (ks js : List ItemKey) (t : SizeTracker ItemKey)
      → track_all base tables (ks ++ js) t ≡ track_all base tables js (track_all base tables ks t)
  unfolding track_all
  track_all-append tables [] js t = refl
  track_all-append tables (k ∷ ks) js t = track_all-append tables ks js _

  track_items_lem :
      (tables : Tables V W) (ns : Namespace) (own : Dict String V) (t : SizeTracker ItemKey)
      → track_items base tables ns own t ≡ track_all base tables (bucket_keys ns own) t
  unfolding track_items track_all
  track_items_lem tables ns [] t = refl
  track_items_lem tables ns ((key, item) ∷ own) t = track_items_lem tables ns own _

  track_namespaces_lem :
      (tables : Tables V W) (table : Nested V) (t : SizeTracker ItemKey)
      → track_namespaces base tables table t ≡ track_all base tables (all_keys table) t
  unfolding track_namespaces track_all
  track_namespaces_lem tables [] t = refl
  track_namespaces_lem tables ((ns, own) ∷ rest) t =
      track_namespaces_lem tables rest _
      ∙ ap (track_all base tables (all_keys rest)) (track_items_lem tables ns own t)
      ∙ sym (track_all-append tables (bucket_keys ns own) (all_keys rest) t)

  mem-append : (j : ItemKey) (ks js : List ItemKey) → mem j (ks ++ js) ≡ (mem j ks || mem j js)
  unfolding any
  mem-append j [] js = refl
  mem-append j (k ∷ ks) js = ground (arith, mem-append j ks js)

  mem-bucket_keys :
      (ns m : Namespace) (name : String) (own : Dict String V)
      → (ns == m) ≡ true
      → is_some (get name own) ≡ true
      → mem (m, name) (bucket_keys ns own) ≡ true
  unfolding any get
  mem-bucket_keys ns m name [] h there = there
  mem-bucket_keys ns m name ((key, item) ∷ own) h there =
      ground (arith, mem-bucket_keys ns m name own)

  -- Every item is visited.
  mem-all_keys :
      (k : ItemKey) (table : Nested V) → has_item k table ≡ true → mem k (all_keys table) ≡ true
  unfolding get any
  mem-all_keys (m, name) [] there = there
  mem-all_keys (m, name) ((ns, own) ∷ rest) there =
      rw (mem-append (m, name) (bucket_keys ns own) (all_keys rest))
        (ground (arith, mem-bucket_keys ns m name own, mem-all_keys (m, name) rest))

  -- The rebuilt sizes.
  pub rebuild_size_tracking-Tracks :
      (tables : Tables V W) (t : SizeTracker ItemKey)
      → Tracks tables (rebuild_size_tracking base tables t)
  unfolding rebuild_size_tracking SizeTracking.clear get
  rebuild_size_tracking-Tracks tables t k =
      rw
        (
          track_namespaces_lem tables tables.items (SizeTracking.clear t),
          track_all-get tables (all_keys tables.items) k (SizeTracking.clear t),
        )
        (guard_lem (mem k (all_keys tables.items)) (has_item k tables.items) _
          (mem-all_keys k tables.items))

  pub rebuild_size_tracking-IsBalanced :
      (tables : Tables V W) (t : SizeTracker ItemKey)
      → IsBalanced (rebuild_size_tracking base tables t)
  unfolding rebuild_size_tracking SizeTracking.clear
  rebuild_size_tracking-IsBalanced tables t =
      rw (track_namespaces_lem tables tables.items (SizeTracking.clear t)) (
        track_all-IsBalanced tables (all_keys tables.items) (SizeTracking.clear t)
          (record { distinct = tt; total = refl }))
