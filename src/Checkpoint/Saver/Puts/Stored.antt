-- ===== src/Checkpoint/Saver/Puts/Stored.antt =====
-- `put` and `put_writes` on savers that agree with what is stored.
use langgraph_runtime_inmem.Prelude.{
  ℕ, ◌+◌, Option, none, some, List, [], ◌∷◌, ◌≡◌, refl, ap, sym, ◌∙◌, Eq, ◌==◌, nat_eq, string_eq,
  pair_eq, String, length, arith, Bool-cases, inl, inr, ok,
}
use langgraph_runtime_inmem.Prelude.Int.{pos, ◌-ℤ◌, replace_part}
use langgraph_runtime_inmem.Dict.{Dict, get, put, get_or, Distinct}
use langgraph_runtime_inmem.Dict.Laws.{weight, beq_refl, get-put, sum_by-put}
use langgraph_runtime_inmem.Checkpoint.SizeState.{entry, adjust}
use langgraph_runtime_inmem.Checkpoint.SizeState.Totals.{entry-adjust}
use langgraph_runtime_inmem.Checkpoint.Saver.{
  Payload, Entry, Checkpoints, Tables, Saver, Serde, checkpoint_entry_size,
}
use langgraph_runtime_inmem.Checkpoint.Saver.Base.{
  BaseSaver, PutArgs, checkpoints_of, put_blobs, put_entry,
}
use langgraph_runtime_inmem.Checkpoint.Saver.Puts.{
  item_or_raise, count_new, old_size, new_size, put_writes, group_size, outer_key, after_put,
  after_put_writes,
}
use langgraph_runtime_inmem.Checkpoint.Saver.Puts
use langgraph_runtime_inmem.Checkpoint.Saver.Puts.Accounts.{
  written_size, new_blobs_size-put_blobs, blobs_size-put_blobs, other-put_blobs,
}
use langgraph_runtime_inmem.Checkpoint.Saver.Sizes.{
  checkpoints_size, namespaces_size, stored_bytes, namespaces_count, stored_checkpoints,
  IsAccounted,
}
use langgraph_runtime_inmem.Checkpoint.Saver.Sizes.Rows.{sum_by-put_pair}

length-put :
    {K A : Type 0} ⦃e : Eq K⦄ (k : K) (v : A) (m : Dict K A)
    → length (put k v m) + weight (λ a. 1) (get k m) ≡ length m + 1
unfolding get put
length-put k v [] = omega arith
length-put k v ((j, w) ∷ m) = ground (arith, length-put k v m)

count_new_lem : {A : Type 0} (o : Option A) → count_new o ≡ pos 1 -ℤ pos (weight (λ a. 1) o)
unfolding ◌-ℤ◌
count_new_lem none = refl
count_new_lem (some a) = refl

pub both : {A B : Type 0} {a b : A} {x y : B} → a ≡ b → x ≡ y → Path (A × B) (a, x) (b, y)
both p q = rw (p, q) refl

weight_or_empty :
    {A : Type 0} (f : List A → ℕ) (o : Option (List A)) → f [] ≡ 0 → weight f o ≡ f (get_or o [])
weight_or_empty f none h = sym h
weight_or_empty f (some a) h = refl

module _ {A R : Type 0} ⦃e : Eq R⦄ (serde : Serde R) (base : BaseSaver A R) (args : PutArgs A R)
    (new : Entry) (value : String → Payload) (s : Saver R) where
  abbrev pub namespaces : Dict String Checkpoints
  namespaces = get_or (get args.thread_id s.tables.storage) []

  abbrev pub cs : Checkpoints
  cs = checkpoints_of s.tables args.thread_id args.checkpoint_ns

  abbrev pub stored : Tables R
  stored = record s.tables {
    storage = put_entry args.thread_id args.checkpoint_ns args.checkpoint_id new s.tables.storage;
    blobs = put_blobs args.thread_id args.checkpoint_ns value args.new_versions s.tables.blobs;
  }

  namespaces-stored :
      get args.thread_id stored.storage
      ≡ some (put args.checkpoint_ns (put args.checkpoint_id new cs) namespaces)
  namespaces-stored =
      get-put args.thread_id args.thread_id _ s.tables.storage ∙ rw (beq_refl args.thread_id) refl

  checkpoints-stored :
      checkpoints_of stored args.thread_id args.checkpoint_ns ≡ put args.checkpoint_id new cs
  checkpoints-stored =
      rw
        (
          namespaces-stored,
          get-put args.checkpoint_ns args.checkpoint_ns (put args.checkpoint_id new cs) namespaces,
          beq_refl args.checkpoint_ns,
        )
        refl

  new_size-stored :
      Distinct args.new_versions
      → new_size serde base args stored
        ≡ ok (
            checkpoint_entry_size serde args.checkpoint_id new
            + written_size serde args.thread_id args.checkpoint_ns value args.new_versions)
  unfolding new_size
  new_size-stored d =
      rw
        (
          new_size,
          checkpoints-stored,
          get-put args.checkpoint_id args.checkpoint_id new cs,
          beq_refl args.checkpoint_id,
          new_blobs_size-put_blobs serde args.thread_id args.checkpoint_ns value args.new_versions
              s.tables.blobs d,
        )
        refl

  bytes-stored :
      Distinct args.new_versions
      → stored_bytes serde stored args.thread_id + old_size serde base args s.tables
        ≡ stored_bytes serde s.tables args.thread_id
          + (checkpoint_entry_size serde args.checkpoint_id new
              + written_size serde args.thread_id args.checkpoint_ns value args.new_versions)
  unfolding old_size
  bytes-stored d =
      let size = λ (p : ℕ × Entry). checkpoint_entry_size serde p.0 p.1 in
      omega (
        arith,
        ap (λ o. namespaces_size serde (get_or o [])) namespaces-stored,
        sum_by-put (checkpoints_size serde) args.checkpoint_ns (put args.checkpoint_id new cs)
            namespaces,
        weight_or_empty (checkpoints_size serde) (get args.checkpoint_ns namespaces) refl,
        sum_by-put_pair size args.checkpoint_id new cs,
        blobs_size-put_blobs serde args.thread_id args.checkpoint_ns value args.new_versions
            s.tables.blobs d,
      )

  checkpoints_count-stored :
      stored_checkpoints stored args.thread_id + weight (λ a. 1) (get args.checkpoint_id cs)
      ≡ stored_checkpoints s.tables args.thread_id + 1
  checkpoints_count-stored = omega (
    arith,
    ap (λ o. namespaces_count (get_or o [])) namespaces-stored,
    sum_by-put length args.checkpoint_ns (put args.checkpoint_id new cs) namespaces,
    weight_or_empty length (get args.checkpoint_ns namespaces) refl,
    length-put args.checkpoint_id new cs,
  )

  -- The saver that is left.
  abbrev pub saver_after : Saver R
  saver_after = record {
    tables = stored;
    size_state =
        adjust s.size_state args.thread_id
          (pos (
              checkpoint_entry_size serde args.checkpoint_id new
              + written_size serde args.thread_id args.checkpoint_ns value args.new_versions)
            -ℤ pos (old_size serde base args s.tables))
          (count_new (get args.checkpoint_id cs));
  }

  pub put-saver_after :
      Distinct args.new_versions
      → base.put args s.tables ≡ stored
      → Puts.put serde base args s ≡ (ok tt, saver_after)
  unfolding Puts.put after_put
  put-saver_after d h = ap (after_put serde base args s) h ∙ rw (after_put, new_size-stored d) refl

  own_entry :
      Distinct args.new_versions
      → IsAccounted serde s
      → entry saver_after.size_state args.thread_id
        ≡ (stored_bytes serde stored args.thread_id, stored_checkpoints stored args.thread_id)
  own_entry d w =
      rw
        (
          entry-adjust s.size_state args.thread_id args.thread_id _ _,
          beq_refl args.thread_id,
          w args.thread_id,
          count_new_lem (get args.checkpoint_id cs),
        )
        (both (replace_part _ _ _ _ (bytes-stored d))
          (replace_part _ _ _ _ checkpoints_count-stored))

  pub saver_after-IsAccounted :
      Distinct args.new_versions → IsAccounted serde s → IsAccounted serde saver_after
  saver_after-IsAccounted d w j = elim (Bool-cases (args.thread_id == j)) [
    | inl same ↦ rw (← (nat_eq.same_iff args.thread_id j).0 same) (own_entry d w)
    | inr other ↦
        entry-adjust s.size_state args.thread_id j _ _
        ∙ rw
            (
              other,
              w j,
              get-put args.thread_id j
                  (put args.checkpoint_ns (put args.checkpoint_id new cs) namespaces)
                  s.tables.storage,
              other,
              other-put_blobs serde args.thread_id args.checkpoint_ns value j args.new_versions
                  s.tables.blobs other,
            )
            refl
  ]
