-- ===== src/Checkpoint/Saver/Rebuild/Accounts.antt =====
-- Counting anew gives what is stored.
use langgraph_runtime_inmem.Prelude.{
  ℕ, suc, ◌+◌, Bool, true, false, List, [], ◌∷◌, ◌≡◌, refl, ap, sym, ◌∙◌, Eq, ◌==◌, nat_eq,
  string_eq, pair_eq, String, keep, length, arith, Bool-cases, inl, inr, All,
}
use langgraph_runtime_inmem.Prelude.Int.{pos, add_part}
use langgraph_runtime_inmem.Dict.{Dict, get, Distinct, get_or}
use langgraph_runtime_inmem.Checkpoint.SizeState.{SizeState, entry, adjust, clear}
use langgraph_runtime_inmem.Checkpoint.SizeState.Totals.{entry-adjust}
use langgraph_runtime_inmem.Checkpoint.Saver.{
  Payload, Checkpoints, WriteKey, WriteGroup, BlobKey, Tables, Serde, checkpoint_entry_size,
  write_group_size, blob_entry_size,
}
use langgraph_runtime_inmem.Checkpoint.Saver.Rebuild.{
  count_checkpoints, count_namespaces, count_storage, count_writes, count_blobs,
  rebuild_size_tracking, init,
}
use langgraph_runtime_inmem.Checkpoint.Saver.Sizes.{
  rows_of, checkpoints_size, namespaces_size, namespaces_count, writes_size, blobs_size,
  IsAccounted,
}
use langgraph_runtime_inmem.Checkpoint.Saver.Base.{BaseSaver, IsBaseSaver}
use langgraph_runtime_inmem.Checkpoint.Saver.Calls.{Call, run}
use langgraph_runtime_inmem.Checkpoint.Saver.Calls.Accounts.{IsCall, run-IsAccounted}

-- Bytes and checkpoints added to an entry, under a condition.
abbrev shift : Bool → ℕ → ℕ → ℕ × ℕ → ℕ × ℕ
shift true a b p = (p.0 + a, p.1 + b)
shift false a b p = p

pairs_equal : {a b x y : ℕ} → a ≡ b → x ≡ y → Path (ℕ × ℕ) (a, x) (b, y)
pairs_equal p q = rw (p, q) refl

shift-shift :
    (c : Bool) (a b x y : ℕ) (p : ℕ × ℕ) → shift c a b (shift c x y p) ≡ shift c (x + a) (y + b) p
shift-shift true a b x y p = pairs_equal (omega arith) (omega arith)
shift-shift false a b x y p = refl

one_more :
    (c : Bool) (a b x : ℕ) (p : ℕ × ℕ) → shift c a b (shift c x 1 p) ≡ shift c (x + a) (suc b) p
one_more true a b x p = pairs_equal (omega arith) (omega arith)
one_more false a b x p = refl

shift_zero : (c : Bool) (p : ℕ × ℕ) → p ≡ shift c 0 0 p
shift_zero true p = pairs_equal (omega arith) (omega arith)
shift_zero false p = refl

entry-adjust_pos :
    (st : SizeState ℕ) (id j a b : ℕ)
    → entry (adjust st id (pos a) (pos b)) j ≡ shift (id == j) a b (entry st j)
entry-adjust_pos st id j a b = entry-adjust st id j (pos a) (pos b) ∙ elim (Bool-cases (id == j)) [
  | inl same ↦
      rw (same, ← (nat_eq.same_iff id j).0 same) (pairs_equal (add_part _ a) (add_part _ b))
  | inr other ↦ rw other refl
]

module _ {R : Type 0} (serde : Serde R) where
  entry-count_checkpoints :
      (id j : ℕ) (cs : Checkpoints) (st : SizeState ℕ)
      → entry (count_checkpoints serde id cs st) j
        ≡ shift (id == j) (checkpoints_size serde cs) (length cs) (entry st j)
  unfolding count_checkpoints
  entry-count_checkpoints id j [] st = shift_zero (id == j) (entry st j)
  entry-count_checkpoints id j ((c, x) ∷ cs) st =
      entry-count_checkpoints id j cs _
      ∙ rw (entry-adjust_pos st id j (checkpoint_entry_size serde c x) 1) (
          one_more (id == j) (checkpoints_size serde cs) (length cs)
            (checkpoint_entry_size serde c x) _)

  entry-count_namespaces :
      (id j : ℕ) (nss : Dict String Checkpoints) (st : SizeState ℕ)
      → entry (count_namespaces serde id nss st) j
        ≡ shift (id == j) (namespaces_size serde nss) (namespaces_count nss) (entry st j)
  unfolding count_namespaces
  entry-count_namespaces id j [] st = shift_zero (id == j) (entry st j)
  entry-count_namespaces id j ((ns, cs) ∷ nss) st =
      entry-count_namespaces id j nss _
      ∙ rw (entry-count_checkpoints id j cs st) (shift-shift (id == j) _ _ _ _ _)

  entry-count_storage :
      (j : ℕ) (m : Dict ℕ (Dict String Checkpoints)) (st : SizeState ℕ)
      → Distinct m
      → entry (count_storage serde m st) j
        ≡ shift true
            (namespaces_size serde (get_or (get j m) []))
            (namespaces_count (get_or (get j m) []))
            (entry st j)
  unfolding count_storage get
  entry-count_storage j [] st d = shift_zero true (entry st j)
  entry-count_storage j ((id, nss) ∷ m) st d =
      entry-count_storage j m (count_namespaces serde id nss st) d.1
      ∙ rw (entry-count_namespaces id j nss st) (elim (Bool-cases (id == j)) [
        | inl same ↦
            rw (same, ap (λ i. get i m) (sym ((nat_eq.same_iff id j).0 same)) ∙ d.0)
              (sym (shift_zero true _))
        | inr other ↦ rw other refl
      ])

  entry-count_writes :
      (j : ℕ) (m : Dict WriteKey WriteGroup) (st : SizeState ℕ)
      → entry (count_writes serde m st) j
        ≡ shift true (writes_size serde (rows_of j m)) 0 (entry st j)
  unfolding count_writes keep
  entry-count_writes j [] st = shift_zero true (entry st j)
  entry-count_writes j ((key, group) ∷ m) st =
      entry-count_writes j m _
      ∙ rw (entry-adjust_pos st key.0 j (write_group_size serde key.1.1 group) 0)
          (elim (Bool-cases (key.0 == j)) [
            | inl same ↦ rw same (shift-shift true _ _ _ _ _)
            | inr other ↦ rw other refl
          ])

  entry-count_blobs :
      (j : ℕ) (m : Dict (BlobKey R) Payload) (st : SizeState ℕ)
      → entry (count_blobs serde m st) j
        ≡ shift true (blobs_size serde (rows_of j m)) 0 (entry st j)
  unfolding count_blobs keep
  entry-count_blobs j [] st = shift_zero true (entry st j)
  entry-count_blobs j ((key, value) ∷ m) st =
      entry-count_blobs j m _
      ∙ rw (entry-adjust_pos st key.0 j (blob_entry_size serde key.1.1.0 key.1.1.1 value) 0)
          (elim (Bool-cases (key.0 == j)) [
            | inl same ↦ rw same (shift-shift true _ _ _ _ _)
            | inr other ↦ rw other refl
          ])

  init-IsAccounted : (t : Tables R) → Distinct t.storage → IsAccounted serde (init serde t)
  unfolding init rebuild_size_tracking clear get
  init-IsAccounted t d j =
      entry-count_blobs j t.blobs _
      ∙ ap (shift true (blobs_size serde (rows_of j t.blobs)) 0) (
          entry-count_writes j t.writes _
          ∙ ap (shift true (writes_size serde (rows_of j t.writes)) 0)
              (entry-count_storage j t.storage _ d))
      ∙ pairs_equal (omega arith) (omega arith)

-- Where the inherited saver stores and removes what it documents, from whatever was loaded and after
-- any sequence of `put`, `put_writes`, `delete_thread` and `prune`, the calls that raise included, the
-- size state has for every thread the bytes of all checkpoints, writes and values that are stored for
-- it, and the number of its checkpoints.
pub init-run-IsAccounted :
    {A R : Type 0} ⦃e : Eq R⦄ (serde : Serde R) (base : BaseSaver A R) (laws : IsBaseSaver base)
    (t : Tables R) (cs : List (Call A R))
    → Distinct t.storage
    → All (IsCall serde base laws) cs
    → IsAccounted serde (run serde base (init serde t) cs).1
init-run-IsAccounted serde base laws t cs d calls =
    run-IsAccounted serde base laws (init serde t) cs calls (init-IsAccounted serde t d)
