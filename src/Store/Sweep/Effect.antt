-- ===== src/Store/Sweep/Effect.antt =====
-- What a sweep of the Store removes.
use langgraph_runtime_inmem.Prelude.{
  mem, ℕ, Bool, false, Option, none, some, List, [], ◌∷◌, ◌≡◌, refl, ap, ◌==◌, leb, any,
  if◌then◌else◌, string_eq, pair_eq, arith, Eq, Bool-cases, inl, inr,
}
use langgraph_runtime_inmem.Prelude.Int.{pos}
use langgraph_runtime_inmem.Dict.{Dict, get, Distinct, is_some}
use langgraph_runtime_inmem.Dict.Laws.{get-remove, Distinct-remove}
use langgraph_runtime_inmem.SizeTracking.Totals.{
  entry_after_call, IsBalanced, remove_entry-IsBalanced,
}
use langgraph_runtime_inmem.Store.Base.{ItemKey, StoreBase, lookup, list_eq}
use langgraph_runtime_inmem.Store.{Store, TtlRecord}
use langgraph_runtime_inmem.Store.Sweep.{
  Sweep, expired_keys, sweep_one, sweep_keys, sweep_start, sweep_ttl,
}
use langgraph_runtime_inmem.Store.Keys.{if_if, is_some-false, absent_lem}
use langgraph_runtime_inmem.Store.Lookup.{lookup-pop_item, lookup-drop_buckets}

-- The time of expiry has come.
abbrev pub is_due : {M : Type 0} → ℕ → Option (TtlRecord M) → Bool
is_due now none = false
is_due now (some r) = leb r.expires_at now

module _ {K : Type 0} ⦃e : Eq K⦄ where
  pub mem-expired_keys :
      {M : Type 0} (now : ℕ) (j : K) (ttl : Dict K (TtlRecord M))
      → Distinct ttl
      → mem j (expired_keys now ttl) ≡ is_due now (get j ttl)
  unfolding expired_keys get any
  mem-expired_keys now j [] d = refl
  mem-expired_keys now j ((k, r) ∷ ttl) d =
      ground (
        arith,
        mem-expired_keys now j ttl d.1,
        e.same_iff k j,
        λ (h : k ≡ j). ap (λ i. get i ttl) h,
      )

module _ {V W M : Type 0} where
  pub items-sweep_one :
      (k j : ItemKey) (w : Sweep V W M)
      → lookup j (sweep_one k w).tables.items ≡ (if k == j then none else lookup j w.tables.items)
  unfolding sweep_one
  items-sweep_one k j w = elim (Bool-cases (is_some (lookup k w.tables.items))) [
    | inl there ↦ rw there (lookup-pop_item k j w.tables.items)
    | inr absent ↦
        rw absent (absent_lem (λ i. lookup i w.tables.items) k j (is_some-false _ absent))
  ]

  pub others-sweep_one :
      (k j : ItemKey) (w : Sweep V W M)
      → (lookup j (sweep_one k w).tables.vectors
          ≡ (if k == j then none else lookup j w.tables.vectors))
        × (get j (sweep_one k w).ttl ≡ (if k == j then none else get j w.ttl))
        × (get j (sweep_one k w).tracker.entries
            ≡ (if k == j then none else get j w.tracker.entries))
  unfolding sweep_one
  others-sweep_one k j w = (
    lookup-pop_item k j w.tables.vectors,
    get-remove k j w.ttl,
    (entry_after_call w.tracker k j (pos 0)).1,
  )

  -- The tables, the records and the sizes after the loop.
  pub sweep_keys_lem :
      (ks : List ItemKey) (j : ItemKey) (w : Sweep V W M)
      → (lookup j (sweep_keys ks w).tables.items
          ≡ (if mem j ks then none else lookup j w.tables.items))
        × (lookup j (sweep_keys ks w).tables.vectors
            ≡ (if mem j ks then none else lookup j w.tables.vectors))
        × (get j (sweep_keys ks w).ttl ≡ (if mem j ks then none else get j w.ttl))
        × (get j (sweep_keys ks w).tracker.entries
            ≡ (if mem j ks then none else get j w.tracker.entries))
  unfolding sweep_keys any
  sweep_keys_lem [] j w = (refl, refl, refl, refl)
  sweep_keys_lem (k ∷ ks) j w =
      let (i, v, t, z) = sweep_keys_lem ks j (sweep_one k w) in
      let (v1, t1, z1) = others-sweep_one k j w in
      (
        rw (i, items-sweep_one k j w) (if_if (k == j) (mem j ks) none _),
        rw (v, v1) (if_if (k == j) (mem j ks) none _),
        rw (t, t1) (if_if (k == j) (mem j ks) none _),
        rw (z, z1) (if_if (k == j) (mem j ks) none _),
      )

-- What is left under one key after a sweep: with the dictionary of the times of expiry being one, an
-- item whose time has come is gone, with its vectors, its time and its tracked size, and for every
-- other key all four are as before.
pub sweep_ttl_lem :
    {V W U M F : Type 0} (base : StoreBase V W U M F) (now : ℕ) (s : Store V W M F) (j : ItemKey)
    → Distinct s.ttl
    → let after = (sweep_ttl base now s).1 in
      let due = is_due now (get j s.ttl) in
      (lookup j after.tables.items ≡ (if due then none else lookup j s.tables.items))
      × (lookup j after.tables.vectors ≡ (if due then none else lookup j s.tables.vectors))
      × (get j after.ttl ≡ (if due then none else get j s.ttl))
      × (get j after.size_tracker.entries ≡ (if due then none else get j s.size_tracker.entries))
unfolding sweep_ttl sweep_start
sweep_ttl_lem base now s j d =
    let (i, v, t, z) = sweep_keys_lem (expired_keys now s.ttl) j (sweep_start s) in
    let (items, vectors) =
      lookup-drop_buckets (sweep_keys (expired_keys now s.ttl) (sweep_start s)).touched j
        (sweep_keys (expired_keys now s.ttl) (sweep_start s)).tables in
    let due = mem-expired_keys now j s.ttl d in
    (rw (items, i, due) refl, rw (vectors, v, due) refl, rw (t, due) refl, rw (z, due) refl)

module _ {V W M : Type 0} where
  sweep_keys-Distinct :
      (ks : List ItemKey) (w : Sweep V W M) → Distinct w.ttl → Distinct (sweep_keys ks w).ttl
  unfolding sweep_keys sweep_one
  sweep_keys-Distinct [] w d = d
  sweep_keys-Distinct (k ∷ ks) w d =
      sweep_keys-Distinct ks (sweep_one k w) (Distinct-remove k w.ttl d)

  pub sweep_keys-IsBalanced :
      (ks : List ItemKey) (w : Sweep V W M)
      → IsBalanced w.tracker
      → IsBalanced (sweep_keys ks w).tracker
  unfolding sweep_keys sweep_one
  sweep_keys-IsBalanced [] w b = b
  sweep_keys-IsBalanced (k ∷ ks) w b =
      sweep_keys-IsBalanced ks (sweep_one k w) (remove_entry-IsBalanced w.tracker k b)

module _ {V W U M F : Type 0} (base : StoreBase V W U M F) (now : ℕ) (s : Store V W M F) where
  pub sweep_ttl-Distinct : Distinct s.ttl → Distinct (sweep_ttl base now s).1.ttl
  unfolding sweep_ttl sweep_start
  sweep_ttl-Distinct d = sweep_keys-Distinct (expired_keys now s.ttl) (sweep_start s) d

  pub sweep_ttl-IsBalanced :
      IsBalanced s.size_tracker → IsBalanced (sweep_ttl base now s).1.size_tracker
  unfolding sweep_ttl sweep_start
  sweep_ttl-IsBalanced b = sweep_keys-IsBalanced (expired_keys now s.ttl) (sweep_start s) b
