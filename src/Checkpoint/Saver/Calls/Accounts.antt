-- ===== src/Checkpoint/Saver/Calls/Accounts.antt =====
-- After any sequence of calls the size state of the saver is what counting anew would give.
use langgraph_runtime_inmem.Prelude.{
  ℕ, true, false, not, List, [], ◌∷◌, ◌≡◌, refl, ◌∙◌, Eq, ◌==◌, nat_eq, string_eq, pair_eq, String,
  keep, arith, Bool-cases, inl, inr, ok, All, ◌||◌,
}
use langgraph_runtime_inmem.Dict.{remove, Distinct}
use langgraph_runtime_inmem.Dict.Laws.{beq_refl, get-remove}
use langgraph_runtime_inmem.Checkpoint.SizeState.Totals.{entry-remove_thread}
use langgraph_runtime_inmem.Checkpoint.Saver.{Tables, Saver, Serde}
use langgraph_runtime_inmem.Checkpoint.Saver.Base.{BaseSaver, PutArgs, WritesArgs, IsBaseSaver}
use langgraph_runtime_inmem.Checkpoint.Saver.Puts
use langgraph_runtime_inmem.Checkpoint.Saver.Puts.{put_writes, after_put_writes}
use langgraph_runtime_inmem.Checkpoint.Saver.Puts.Stored.{put-saver_after, saver_after-IsAccounted}
use langgraph_runtime_inmem.Checkpoint.Saver.Puts.Groups.{after_put_writes-IsAccounted}
use langgraph_runtime_inmem.Checkpoint.Saver.Prune.{prune, delete_thread, delete_threads}
use langgraph_runtime_inmem.Checkpoint.Saver.Prune.Accounts.{prune_threads-IsAccounted}
use langgraph_runtime_inmem.Checkpoint.Saver.Sizes.{stored_bytes, stored_checkpoints, IsAccounted}
use langgraph_runtime_inmem.Checkpoint.Saver.Sizes.Rows.{sum_by-removed, sum_by-unremoved}
use langgraph_runtime_inmem.Checkpoint.Saver.Calls.{
  Call, puts, puts_writes, deletes, prunes, step, run,
}

module _ {A R : Type 0} ⦃e : Eq R⦄ (serde : Serde R) (base : BaseSaver A R)
    (laws : IsBaseSaver base) where
  put-IsAccounted :
      (args : PutArgs A R) (s : Saver R)
      → Distinct args.new_versions
      → IsAccounted serde s
      → ((Puts.put serde base args s).0 ≡ ok tt) × IsAccounted serde (Puts.put serde base args s).1
  put-IsAccounted args s d w =
      let (new, value, h) = laws.puts args s.tables in
      rw (put-saver_after serde base args new value s d h)
        (refl, saver_after-IsAccounted serde base args new value s d w)

  put_writes-IsAccounted :
      (args : WritesArgs A) (s : Saver R)
      → IsAccounted serde s
      → IsAccounted serde (put_writes serde base args s)
  unfolding put_writes
  put_writes-IsAccounted args s w =
      let (group, h) = laws.puts_writes args s.tables in
      rw h (after_put_writes-IsAccounted serde base args s group w)

  -- The rows that are left when those of a thread are removed
  removed_tables : ℕ → Tables R → Tables R
  removed_tables id t = record {
    storage = remove id t.storage;
    writes = keep (λ r. not (r.0.0 == id)) t.writes;
    blobs = keep (λ r. not (r.0.0 == id)) t.blobs;
  }

  apart : (id j k : ℕ) → (id == j) ≡ false → (k == j) ≡ true → (k == id) ≡ false
  apart id j k h g = ground arith

  removed_own :
      (id : ℕ) (t : Tables R)
      → Path
          (ℕ × ℕ)
          (0, 0)
          (stored_bytes serde (removed_tables id t) id, stored_checkpoints (removed_tables id t) id)
  unfolding removed_tables
  removed_own id t =
      rw
        (
          get-remove id id t.storage,
          beq_refl id,
          sum_by-removed _ (λ r. r.0.0 == id) t.writes,
          sum_by-removed _ (λ r. r.0.0 == id) t.blobs,
        )
        refl

  removed_other :
      (id j : ℕ) (t : Tables R)
      → (id == j) ≡ false
      → Path
          (ℕ × ℕ)
          (stored_bytes serde t j, stored_checkpoints t j)
          (stored_bytes serde (removed_tables id t) j, stored_checkpoints (removed_tables id t) j)
  unfolding removed_tables
  removed_other id j t h =
      rw
        (
          get-remove id j t.storage,
          h,
          sum_by-unremoved _ (λ r. r.0.0 == id) (λ r. r.0.0 == j) t.writes
              (λ r g. apart id j r.0.0 h g),
          sum_by-unremoved _ (λ r. r.0.0 == id) (λ r. r.0.0 == j) t.blobs
              (λ r g. apart id j r.0.0 h g),
        )
        refl

  delete_thread-IsAccounted :
      (id : ℕ) (s : Saver R)
      → IsAccounted serde s
      → IsAccounted serde (delete_thread serde base.delete_thread id s)
  unfolding delete_thread removed_tables
  delete_thread-IsAccounted id s w j = rw (laws.deletes id s.tables) (
      entry-remove_thread s.size_state id j ∙ elim (Bool-cases (id == j)) [
        | inl same ↦ rw (same, ← (nat_eq.same_iff id j).0 same) (removed_own id s.tables)
        | inr other ↦ rw (other, w j) (removed_other id j s.tables other)
      ])

  delete_threads-IsAccounted :
      (ids : List ℕ) (s : Saver R)
      → IsAccounted serde s
      → IsAccounted serde (delete_threads serde base.delete_thread ids s)
  unfolding delete_threads
  delete_threads-IsAccounted [] s w = w
  delete_threads-IsAccounted (id ∷ ids) s w =
      delete_threads-IsAccounted ids _ (delete_thread-IsAccounted id s w)

  prune-IsAccounted :
      (ids : List ℕ) (strategy : String) (s : Saver R)
      → IsAccounted serde s
      → IsAccounted serde (prune serde base.delete_thread ids strategy s).1
  unfolding prune
  prune-IsAccounted ids strategy s w =
      elim (Bool-cases (strategy == "delete" || strategy == "delete_all")) [
        | inl gone ↦ rw gone (delete_threads-IsAccounted ids s w)
        | inr keeps ↦ elim (Bool-cases (strategy == "keep_latest")) [
          | inl latest ↦ rw (keeps, latest) (prune_threads-IsAccounted serde ids s w)
          | inr other ↦ rw (keeps, other) w
        ]
      ]

  -- New versions are those of a dictionary.
  abbrev pub IsCall : Call A R → Type 0
  IsCall (puts args) = Distinct args.new_versions
  IsCall (puts_writes args) = Unit
  IsCall (deletes id) = Unit
  IsCall (prunes ids strategy) = Unit

  step-IsAccounted :
      (s : Saver R) (c : Call A R)
      → IsCall c
      → IsAccounted serde s
      → IsAccounted serde (step serde base s c).1
  unfolding step
  step-IsAccounted s (puts args) d w = (put-IsAccounted args s d w).1
  step-IsAccounted s (puts_writes args) d w = put_writes-IsAccounted args s w
  step-IsAccounted s (deletes id) d w = delete_thread-IsAccounted id s w
  step-IsAccounted s (prunes ids strategy) d w = prune-IsAccounted ids strategy s w

  pub run-IsAccounted :
      (s : Saver R) (cs : List (Call A R))
      → All IsCall cs
      → IsAccounted serde s
      → IsAccounted serde (run serde base s cs).1
  unfolding run
  run-IsAccounted s [] d w = w
  run-IsAccounted s (c ∷ cs) d w =
      run-IsAccounted (step serde base s c).1 cs d.1 (step-IsAccounted s c d.0 w)
