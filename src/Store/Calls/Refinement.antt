-- ===== src/Store/Calls/Refinement.antt =====
-- The Store implements the function that it stands for.
use langgraph_runtime_inmem.Prelude.{
  ℕ, Bool, true, ◌++◌, ◌>>=◌, false, Option, none, some, List, [], ◌∷◌, map, ◌≡◌, refl, ◌∙◌, ap,
  sym, if◌then◌else◌, string_eq, pair_eq, arith, inl, inr, Option-cases, ok, Result-cases, fun_ext,
  All,
}
use langgraph_runtime_inmem.Dict.{Dict, get, Distinct}
use langgraph_runtime_inmem.Store.Base.{
  ItemKey, Nested, PutOp, StoreBase, IsWriter, lookup, list_eq,
}
use langgraph_runtime_inmem.Store.{
  Store, TtlRecord, write_records, ttl_update, has_item, refresh_ttl, refresh_keys, new_record,
  ttl_updates, prepare_ops, Op, get_op, other_op, refreshed_gets, refreshed_searches, batch_search,
  apply_put_ops,
}
use langgraph_runtime_inmem.Store.Sweep.Effect.{is_due, sweep_ttl_lem}
use langgraph_runtime_inmem.Store.Calls.{Call, gets, searches, writes, sweeps, step, run}
use langgraph_runtime_inmem.Store.Calls.View.{
  Entry, expire, touch_keys, write, in_range, all_in_range, asked_gets, asked_searches, view_step,
  view_run, entry, view_of, view,
}
use langgraph_runtime_inmem.Store.Calls.Refresh.{refresh_ttl-touch, refresh_ttl-err}
use langgraph_runtime_inmem.Store.Lookup.{lookup-drop_buckets}
use langgraph_runtime_inmem.Store.Calls.Sound.{IsSound, refresh_ttl-shape}
use langgraph_runtime_inmem.Store.Calls.Steps.{IsBatch, step-IsSound}
use langgraph_runtime_inmem.Store.Calls.Written.{written_ttl}
use langgraph_runtime_inmem.Store.Writes.{update_of}

asked-gets : (ops : List (Op × Bool)) → asked_gets ops ≡ refreshed_gets ops
unfolding refreshed_gets
asked-gets [] = refl
asked-gets ((get_op ns key true, true) ∷ ops) = ap (◌∷◌ (ns, key)) (asked-gets ops)
asked-gets ((get_op ns key true, false) ∷ ops) = asked-gets ops
asked-gets ((get_op ns key false, found) ∷ ops) = asked-gets ops
asked-gets ((other_op, found) ∷ ops) = asked-gets ops

asked-searches :
    (ops : List (Bool × Option (List ItemKey))) → asked_searches ops ≡ refreshed_searches ops
unfolding refreshed_searches
asked-searches [] = refl
asked-searches ((true, some found) ∷ ops) = ap (λ ks. found ++ ks) (asked-searches ops)
asked-searches ((true, none) ∷ ops) = asked-searches ops
asked-searches ((false, some found) ∷ ops) = asked-searches ops
asked-searches ((false, none) ∷ ops) = asked-searches ops

module _ {V W U M F : Type 0} (base : StoreBase V W U M F) where
  entry-expire :
      (now : ℕ) (item after : Option V) (old left : Option (TtlRecord M))
      → after ≡ (if is_due now old then none else item)
      → left ≡ (if is_due now old then none else old)
      → entry base after left ≡ expire now (entry base item old)
  entry-expire now item after old left a l = rw (a, l) (go item old)
    where
      go :
          (item : Option V) (old : Option (TtlRecord M))
          → entry base
              (if is_due now old then none else item)
              (if is_due now old then none else old)
            ≡ expire now (entry base item old)
      go none none = refl
      go (some v) none = refl
      go none (some r) = ground arith
      go (some v) (some r) = ground arith

  touch_keys_lem :
      (ks : List ItemKey) (now : ℕ) (items : Nested V) (ttl : Dict ItemKey (TtlRecord M))
      → ((k : ItemKey) → has_item k items ≡ false → get k ttl ≡ none)
      → touch_keys base ks now (view_of base items ttl)
        ≡ ((refresh_keys base ks now ttl).0, view_of base items (refresh_keys base ks now ttl).1)
  unfolding touch_keys refresh_keys
  touch_keys_lem [] now items ttl own = refl
  touch_keys_lem (k ∷ ks) now items ttl own = elim (Result-cases (refresh_ttl base k now ttl)) [
    | inl (ttl', h) ↦
        let (t, same) = refresh_ttl-touch base items k now ttl ttl' (own k) h in
        rw (touch_keys, refresh_keys, h, t, fun_ext same)
          (touch_keys_lem ks now items ttl'
            (λ j absent. (refresh_ttl-shape base k j now ttl ttl' h).0 (own j absent)))
    | inr (e, h) ↦
        rw (touch_keys, refresh_keys, h, refresh_ttl-err base items k now ttl e (own k) h) refl
  ]

  in_range-ttl_update :
      (now : ℕ) (op : PutOp U M)
      → in_range base now op ≡ (ttl_update base now op >>= λ update. ok tt)
  unfolding ttl_update new_record
  in_range-ttl_update now op = ground arith

  all_in_range-ttl_updates :
      (now : ℕ) (ops : Dict ItemKey (PutOp U M))
      → all_in_range base now ops ≡ (ttl_updates base now ops >>= λ updates. ok tt)
  unfolding ttl_updates
  all_in_range-ttl_updates now [] = refl
  all_in_range-ttl_updates now ((k, op) ∷ ops) =
      rw (in_range-ttl_update now op, all_in_range-ttl_updates now ops) (ground arith)

  -- The time of expiry that a write of a value gives.
  fresh_ttl :
      (now : ℕ) (op : PutOp U M) (u : U)
      → op.value ≡ some u
      → (v : V) → base.value_of v ≡ u
      → entry base (some v) (update_of base now (ttl_update base now op))
        ≡ write base now (some op) none
  unfolding ttl_update new_record
  fresh_ttl now op u n v same = elim (Option-cases (op.ttl)) [
    | inl t ↦ rw (ttl_update, n, t, same) refl
    | inr (minutes, t) ↦ elim (Result-cases (base.add_minutes now minutes)) [
      | inl (fresh, f) ↦ rw (ttl_update, new_record, n, t, f, same) refl
      | inr (e, f) ↦ rw (ttl_update, new_record, n, t, f, same) refl
    ]
  ]

  write_stored :
      (now : ℕ) (op : PutOp U M) (u : U) (old : Entry U M)
      → op.value ≡ some u
      → write base now (some op) none ≡ write base now (some op) old
  write_stored now op u old n = rw n refl

  -- Each entry after a batch of writes whose times are all in range.
  written-entry :
      (super_laws : IsWriter base) (ops : Dict ItemKey (PutOp U M)) (now : ℕ)
      (updates : Dict ItemKey (Option (TtlRecord M))) (s : Store V W M F)
      → Distinct ops
      → ttl_updates base now ops ≡ ok updates
      → (k : ItemKey)
      → entry base
          (lookup k (base.apply_put_ops ops s.tables).items)
          (get k (write_records updates s.ttl))
        ≡ write base now (get k ops) (view base s k)
  written-entry super_laws ops now updates s d h k =
      rw (written_ttl base super_laws ops now updates s d h k) (elim (Option-cases (get k ops)) [
        | inl e ↦ rw (e, (super_laws.kept ops s.tables k d e).0) refl
        | inr (op, e) ↦ elim (Option-cases (op.value)) [
          | inl n ↦ rw (e, super_laws.deleted ops s.tables k op d e n, n) refl
          | inr (u, n) ↦
              let (v, stored, same) = super_laws.stored ops s.tables k op u d e n in
              rw (e, stored) (fresh_ttl now op u n v same ∙ write_stored now op u (view base s k) n)
        ]
      ])

  writes_lem :
      (super_laws : IsWriter base) (ops : Dict ItemKey (PutOp U M)) (now : ℕ) (s : Store V W M F)
      → Distinct ops
      → view_step base (view base s) (writes ops now)
        ≡ ((step base s (writes ops now)).0, view base (step base s (writes ops now)).1)
  unfolding view_step step apply_put_ops
  writes_lem super_laws ops now s d = elim (Result-cases (ttl_updates base now ops)) [
    | inr (e, h) ↦ rw (view_step, all_in_range-ttl_updates now ops, step, apply_put_ops, h) refl
    | inl (updates, h) ↦
        rw (view_step, all_in_range-ttl_updates now ops, step, apply_put_ops, h)
          (ap (λ m. (ok tt, m))
            (fun_ext (λ k.
              sym (written-entry super_laws ops now updates s d h k)
              ∙ ap (λ i. entry base i (get k (write_records updates s.ttl)))
                  (sym
                    (lookup-drop_buckets (map (λ p. p.0.0) ops) k
                      (base.apply_put_ops ops s.tables)).0))))
  ]

  step_lem :
      (super_laws : IsWriter base) (s : Store V W M F) (c : Call U M)
      → IsBatch base c
      → IsSound base s
      → view_step base (view base s) c ≡ ((step base s c).0, view base (step base s c).1)
  unfolding view_step step prepare_ops batch_search
  step_lem super_laws s (gets ops now) d w =
      rw (asked-gets ops) (touch_keys_lem _ now s.tables.items s.ttl w.owned)
  step_lem super_laws s (searches ops now) d w =
      rw (asked-searches ops) (touch_keys_lem _ now s.tables.items s.ttl w.owned)
  step_lem super_laws s (writes ops now) d w = writes_lem super_laws ops now s d
  step_lem super_laws s (sweeps now) d w =
      ap (λ m. (ok tt, m))
        (fun_ext (λ k.
          let (i, v, t, z) = sweep_ttl_lem base now s k w.distinct in
          sym (entry-expire now _ _ _ _ i t)))

  -- Where the inherited writes do what they document, in any sequence of calls on a well-formed Store
  -- each raises or returns, and leaves under every key, as the same calls do on the function from
  -- keys to values with their times of expiry: an expired entry goes at a sweep, a write replaces both
  -- parts or raises when a time is out of range, and a refresh that was asked for gives an entry its
  -- own minutes from the time of the call.
  pub run-view_run :
      (super_laws : IsWriter base) (s : Store V W M F) (cs : List (Call U M))
      → All (IsBatch base) cs
      → IsSound base s
      → view_run base (view base s) cs ≡ ((run base s cs).0, view base (run base s cs).1)
  unfolding view_run run
  run-view_run super_laws s [] d w = refl
  run-view_run super_laws s (c ∷ cs) d w =
      rw
        (
          view_run,
          step_lem super_laws s c d.0 w,
          run-view_run super_laws (step base s c).1 cs d.1 (step-IsSound base super_laws s c d.0 w),
        )
        refl
