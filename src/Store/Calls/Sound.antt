-- ===== src/Store/Calls/Sound.antt =====
-- Well-formed states of the Store: where it starts, and what refreshes and sweeps keep.
use langgraph_runtime_inmem.Prelude.{
  ℕ, Bool, true, false, Option, none, some, List, [], ◌∷◌, ◌≡◌, refl, ◌∙◌, ap, sym, ◌==◌,
  if◌then◌else◌, string_eq, pair_eq, Bool-cases, inl, inr, Option-cases, ok, Result-cases,
  >>=-eq-ok, ok-injective, String,
}
use langgraph_runtime_inmem.Prelude.Int.{pos_part}
use langgraph_runtime_inmem.Dict.{Dict, get, put, Distinct, is_some}
use langgraph_runtime_inmem.Dict.Laws.{get-put, Distinct-put}
use langgraph_runtime_inmem.SizeTracking.Totals.{IsBalanced}
use langgraph_runtime_inmem.Store.Base.{ItemKey, Tables, StoreBase, lookup, list_eq}
use langgraph_runtime_inmem.Store.{
  Store, TtlRecord, has_item, estimate_item_size, refresh_ttl, refresh_keys, new_record, init,
}
use langgraph_runtime_inmem.Store.Sweep.{sweep_ttl}
use langgraph_runtime_inmem.Store.Sweep.Effect.{
  is_due, sweep_ttl_lem, sweep_ttl-Distinct, sweep_ttl-IsBalanced,
}
use langgraph_runtime_inmem.Store.Keys.{owned_if}
use langgraph_runtime_inmem.Store.Orphans.{
  drop_orphaned_ttl_records-get, drop_orphaned_ttl_records-Distinct,
}
use langgraph_runtime_inmem.Store.Tracked.{
  expected_size, Tracks, rebuild_size_tracking-Tracks, rebuild_size_tracking-IsBalanced,
}

module _ {V W U M F : Type 0} (base : StoreBase V W U M F) where
  -- No time of expiry is left without its item, each item's size is the estimate of what is stored,
  -- nothing else has a size, and the total is the sum of the sizes.
  pub record IsSound (s : Store V W M F) : Type 0 where
    pub distinct : Distinct s.ttl
    pub owned : (k : ItemKey) → has_item k s.tables.items ≡ false → get k s.ttl ≡ none
    pub tracks : Tracks base s.tables s.size_tracker
    pub balanced : IsBalanced s.size_tracker

  -- The size of an item with its vectors.
  abbrev pub size_of : ItemKey → Option V → Option W → Option ℕ
  size_of k item vectors =
      if is_some item then some (pos_part (base.estimate_pickle_size k item vectors)) else none

  pub expected_size_lem :
      (t : Tables V W) (k : ItemKey)
      → expected_size base t k ≡ size_of k (lookup k t.items) (lookup k t.vectors)
  unfolding estimate_item_size
  expected_size_lem t k = refl

  pub expected_size-ext :
      (t : Tables V W) (k : ItemKey) (item : Option V) (vectors : Option W)
      → lookup k t.items ≡ item
      → lookup k t.vectors ≡ vectors
      → expected_size base t k ≡ size_of k item vectors
  expected_size-ext t k item vectors i v =
      expected_size_lem t k
      ∙ ap (λ x. size_of k x (lookup k t.vectors)) i
      ∙ ap (λ x. size_of k item x) v

  size_of-if :
      (due : Bool) (k : ItemKey) (item : Option V) (vectors : Option W)
      → size_of k (if due then none else item) (if due then none else vectors)
        ≡ (if due then none else size_of k item vectors)
  size_of-if true k item vectors = refl
  size_of-if false k item vectors = refl

  pub init-IsSound :
      (tables : Tables V W) (ttl : Dict ItemKey (TtlRecord M))
      → Distinct ttl
      → IsSound (init base tables ttl)
  unfolding init
  init-IsSound tables ttl d = record {
    distinct = drop_orphaned_ttl_records-Distinct tables.items ttl d;
    owned = λ k h. rw (drop_orphaned_ttl_records-get tables.items ttl k, h) refl;
    tracks = rebuild_size_tracking-Tracks base tables _;
    balanced = rebuild_size_tracking-IsBalanced base tables _;
  }

  pub sweep-IsSound : (s : Store V W M F) (now : ℕ) → IsSound s → IsSound (sweep_ttl base now s).1
  sweep-IsSound s now w = record {
    distinct = sweep_ttl-Distinct base now s w.distinct;
    owned = λ k h.
        let (i, v, t, z) = sweep_ttl_lem base now s k w.distinct in
        owned_if (is_due now (get k s.ttl)) _ _ _ _ i t (w.owned k) h;
    tracks = λ k.
        let (i, v, t, z) = sweep_ttl_lem base now s k w.distinct in
        let due = is_due now (get k s.ttl) in
        z
        ∙ ap (λ x. if due then none else x) (w.tracks k ∙ expected_size_lem s.tables k)
        ∙ sym (size_of-if due k _ _)
        ∙ sym (expected_size-ext (sweep_ttl base now s).1.tables k _ _ i v);
    balanced = sweep_ttl-IsBalanced base now s w.balanced;
  }

  refreshed_none :
      (k j : ItemKey) (fresh r : TtlRecord M) (ttl : Dict ItemKey (TtlRecord M))
      → get k ttl ≡ some r
      → get j ttl ≡ none
      → get j (put k fresh ttl) ≡ none
  refreshed_none k j fresh r ttl e n = elim (Bool-cases (k == j)) [
    | inl same ↦ cc (ap (λ i. get i ttl) ((pair_eq.same_iff k j).0 same), e, n)
    | inr other ↦ rw (get-put k j fresh ttl, other) n
  ]

  -- A refresh keeps the set of keys.
  pub refresh_ttl-shape :
      (k j : ItemKey) (now : ℕ) (ttl ttl' : Dict ItemKey (TtlRecord M))
      → refresh_ttl base k now ttl ≡ ok ttl'
      → (get j ttl ≡ none → get j ttl' ≡ none) × (Distinct ttl → Distinct ttl')
  unfolding refresh_ttl
  refresh_ttl-shape k j now ttl ttl' h = elim (Option-cases (get k ttl)) [
    | inl e ↦ rw (← ok-injective (rw (refresh_ttl, e) at h)) (λ n. n, λ d. d)
    | inr (r, e) ↦
        let (fresh, f, same) =
          >>=-eq-ok (new_record base now r.ttl_minutes) _ (rw (refresh_ttl, e) at h) in
        rw (← ok-injective same) (refreshed_none k j fresh r ttl e, Distinct-put k fresh ttl)
  ]

  refresh_keys-shape :
      (ks : List ItemKey) (j : ItemKey) (now : ℕ) (ttl : Dict ItemKey (TtlRecord M))
      → (get j ttl ≡ none → get j (refresh_keys base ks now ttl).1 ≡ none)
        × (Distinct ttl → Distinct (refresh_keys base ks now ttl).1)
  unfolding refresh_keys
  refresh_keys-shape [] j now ttl = (λ h. h, λ d. d)
  refresh_keys-shape (k ∷ ks) j now ttl = elim (Result-cases (refresh_ttl base k now ttl)) [
    | inr (e, h) ↦ rw (refresh_keys, h) (λ n. n, λ d. d)
    | inl (ttl', h) ↦
        let (n, d) = refresh_ttl-shape k j now ttl ttl' h in
        let (n', d') = refresh_keys-shape ks j now ttl' in
        rw (refresh_keys, h) (λ x. n' (n x), λ x. d' (d x))
  ]

  pub refreshed-IsSound :
      (s : Store V W M F) (ks : List ItemKey) (now : ℕ)
      → IsSound s
      → IsSound (record s { ttl = (refresh_keys base ks now s.ttl).1 })
  refreshed-IsSound s ks now w = record {
    distinct = (refresh_keys-shape ks ([], String.[]) now s.ttl).1 w.distinct;
    owned = λ k h. (refresh_keys-shape ks k now s.ttl).0 (w.owned k h);
    tracks = w.tracks;
    balanced = w.balanced;
  }
