-- ===== src/Store/Calls/Written.antt =====
-- A batch of writes keeps the Store well formed.
use langgraph_runtime_inmem.Prelude.{
  ℕ, false, Option, none, map, ◌≡◌, refl, ◌∙◌, ap, sym, string_eq, pair_eq, inl, inr, Option-cases,
  ok, Result-cases,
}
use langgraph_runtime_inmem.Dict.{Dict, get, Distinct, keys, is_some}
use langgraph_runtime_inmem.Store.Base.{ItemKey, PutOp, StoreBase, IsWriter, list_eq}
use langgraph_runtime_inmem.Store.{
  Store, TtlRecord, has_item, ttl_update, ttl_updates, write_records, apply_put_ops, track_all,
  drop_buckets,
}
use langgraph_runtime_inmem.Store.Keys.{updated}
use langgraph_runtime_inmem.Store.Lookup.{lookup-drop_buckets}
use langgraph_runtime_inmem.Store.Writes.{
  mem-keys, write_records-get, write_records-Distinct, ttl_updates-get, ttl_updates-Distinct,
  expected_update,
}
use langgraph_runtime_inmem.Store.Tracked.{expected_size, track_all-get, track_all-IsBalanced}
use langgraph_runtime_inmem.Store.Calls.Sound.{IsSound, expected_size_lem, expected_size-ext}

module _ {V W U M F : Type 0} (base : StoreBase V W U M F) where
  -- What a batch of writes leaves, where all the times are in range.
  module _ (super_laws : IsWriter base) (ops : Dict ItemKey (PutOp U M)) (now : ℕ)
      (updates : Dict ItemKey (Option (TtlRecord M))) (s : Store V W M F) (d : Distinct ops)
      (h : ttl_updates base now ops ≡ ok updates) where
    pub written_ttl :
        (k : ItemKey)
        → get k (write_records updates s.ttl)
          ≡ updated (expected_update base now (get k ops)) (get k s.ttl)
    written_ttl k =
        write_records-get updates s.ttl k (ttl_updates-Distinct base now ops updates d h)
        ∙ ap (λ u. updated u (get k s.ttl)) (ttl_updates-get base now ops updates k h)

    written-owned :
        (k : ItemKey)
        → IsSound base s
        → has_item k (base.apply_put_ops ops s.tables).items ≡ false
        → get k (write_records updates s.ttl) ≡ none
    unfolding ttl_update
    written-owned k w absent = written_ttl k ∙ elim (Option-cases (get k ops)) [
      | inl e ↦
          let (i, v) = super_laws.kept ops s.tables k d e in
          rw e (w.owned k (ap is_some (sym i) ∙ absent))
      | inr (op, e) ↦ elim (Option-cases (op.value)) [
        | inl n ↦ rw (e, n) refl
        | inr (u, n) ↦
            let (v, stored, same) = super_laws.stored ops s.tables k op u d e n in
            cc (ap is_some stored, absent)
      ]
    ]

    written-tracks :
        (k : ItemKey)
        → IsSound base s
        → get k (track_all base (base.apply_put_ops ops s.tables) (keys ops) s.size_tracker).entries
          ≡ expected_size base (base.apply_put_ops ops s.tables) k
    written-tracks k w =
        track_all-get base (base.apply_put_ops ops s.tables) (keys ops) k s.size_tracker
        ∙ elim (Option-cases (get k ops)) [
          | inl e ↦
              let (i, v) = super_laws.kept ops s.tables k d e in
              rw (mem-keys k ops, e)
                (w.tracks k
                  ∙ expected_size_lem base s.tables k
                  ∙ sym (expected_size-ext base (base.apply_put_ops ops s.tables) k _ _ i v))
          | inr (op, e) ↦ rw (mem-keys k ops, e) refl
        ]

    written-IsSound :
        IsSound base s
        → IsSound base (record s {
          tables = drop_buckets (map (λ p. p.0.0) ops) (base.apply_put_ops ops s.tables);
          ttl = write_records updates s.ttl;
          size_tracker = track_all base (base.apply_put_ops ops s.tables) (keys ops) s.size_tracker;
        })
    written-IsSound w =
        let tables = base.apply_put_ops ops s.tables in
        let same = λ (k : ItemKey). lookup-drop_buckets (map (λ p. p.0.0) ops) k tables in
        record {
          distinct = write_records-Distinct updates s.ttl w.distinct;
          owned = λ k absent. written-owned k w (ap is_some (sym (same k).0) ∙ absent);
          tracks = λ k.
              written-tracks k w
              ∙ expected_size_lem base tables k
              ∙ sym (expected_size-ext base _ k _ _ (same k).0 (same k).1);
          balanced = track_all-IsBalanced base tables (keys ops) s.size_tracker w.balanced;
        }

  pub apply_put_ops-IsSound :
      (super_laws : IsWriter base) (ops : Dict ItemKey (PutOp U M)) (now : ℕ) (s : Store V W M F)
      → Distinct ops
      → IsSound base s
      → IsSound base (apply_put_ops base ops now s).1
  unfolding apply_put_ops
  apply_put_ops-IsSound super_laws ops now s d w = elim (Result-cases (ttl_updates base now ops)) [
    | inl (updates, h) ↦ rw (apply_put_ops, h) (written-IsSound super_laws ops now updates s d h w)
    | inr (e, h) ↦ rw (apply_put_ops, h) w
  ]
