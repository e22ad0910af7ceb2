-- ===== src/Checkpoint/SizeState/Totals.antt =====
-- `_CheckpointSizeState`: the totals are the sums over the threads, and what a call does to the
-- numbers of each thread.
use langgraph_runtime_inmem.Prelude.{
  ℕ, ◌+◌, ◌≡◌, refl, Option, none, some, List, [], ◌∷◌, Eq, ◌==◌, if◌then◌else◌, arith, sum_by,
}
use langgraph_runtime_inmem.Prelude.Int.{ℤ, pos, pos_part, ◌+ℤ◌, shift_total, drop_total}
use langgraph_runtime_inmem.Dict.{Dict, get, Distinct, get_or}
use langgraph_runtime_inmem.Dict.Laws.{
  Distinct-put, Distinct-remove, get-put, get-remove, sum_by-put, sum_by-remove, weight,
}
use langgraph_runtime_inmem.Checkpoint.SizeState.{
  SizeState, Call, adjusts, removes, copies, clears, entry, thread_bytes, write_entry,
  replace_entry, adjust, remove_thread, copy_thread, clear, step, run,
}

abbrev pub sum_bytes : {K : Type 0} → Dict K (ℕ × ℕ) → ℕ
sum_bytes = sum_by (λ p. p.1.0)

abbrev pub sum_checkpoints : {K : Type 0} → Dict K (ℕ × ℕ) → ℕ
sum_checkpoints = sum_by (λ p. p.1.1)

weight_bytes : (o : Option (ℕ × ℕ)) → weight (λ p. p.0) o ≡ (get_or o (0, 0)).0
weight_bytes none = refl
weight_bytes (some p) = refl

weight_checkpoints : (o : Option (ℕ × ℕ)) → weight (λ p. p.1) o ≡ (get_or o (0, 0)).1
weight_checkpoints none = refl
weight_checkpoints (some p) = refl

module _ {K : Type 0} ⦃e : Eq K⦄ where
  -- The threads are distinct, and each total is the sum over the threads.
  pub record IsConsistent (s : SizeState K) : Type 0 where
    pub distinct : Distinct s.by_thread
    pub bytes : s.total_bytes ≡ pos (sum_bytes s.by_thread)
    pub checkpoints : s.total_checkpoints ≡ pos (sum_checkpoints s.by_thread)

  write_entry-Distinct :
      (k : K) (a b : ℕ) (m : Dict K (ℕ × ℕ)) → Distinct m → Distinct (write_entry k a b m)
  unfolding write_entry
  write_entry-Distinct k a b m d = ground (arith, Distinct-put k (a, b) m d, Distinct-remove k m d)

  sum_bytes-write_entry :
      (k : K) (a b : ℕ) (m : Dict K (ℕ × ℕ))
      → Distinct m
      → sum_bytes (write_entry k a b m) + (get_or (get k m) (0, 0)).0 ≡ sum_bytes m + a
  unfolding write_entry
  sum_bytes-write_entry k a b m d = ground (
    arith,
    sum_by-put (λ (p : ℕ × ℕ). p.0) k (a, b) m,
    sum_by-remove (λ (p : ℕ × ℕ). p.0) k m d,
    weight_bytes (get k m),
  )

  sum_checkpoints-write_entry :
      (k : K) (a b : ℕ) (m : Dict K (ℕ × ℕ))
      → Distinct m
      → sum_checkpoints (write_entry k a b m) + (get_or (get k m) (0, 0)).1 ≡ sum_checkpoints m + b
  unfolding write_entry
  sum_checkpoints-write_entry k a b m d = ground (
    arith,
    sum_by-put (λ (p : ℕ × ℕ). p.1) k (a, b) m,
    sum_by-remove (λ (p : ℕ × ℕ). p.1) k m d,
    weight_checkpoints (get k m),
  )

  replace_entry-IsConsistent :
      (s : SizeState K) (k : K) (a b : ℕ) → IsConsistent s → IsConsistent (replace_entry s k a b)
  unfolding replace_entry
  replace_entry-IsConsistent s k a b v = record {
    distinct = write_entry-Distinct k a b s.by_thread v.distinct;
    bytes = rw v.bytes (shift_total _ _ a _ (sum_bytes-write_entry k a b s.by_thread v.distinct));
    checkpoints =
        rw v.checkpoints
          (shift_total _ _ b _ (sum_checkpoints-write_entry k a b s.by_thread v.distinct));
  }

  remove_thread-IsConsistent :
      (s : SizeState K) (k : K) → IsConsistent s → IsConsistent (remove_thread s k).0
  unfolding remove_thread
  remove_thread-IsConsistent s k v = record {
    distinct = Distinct-remove k s.by_thread v.distinct;
    bytes = rw v.bytes (
        drop_total _ _ _ (
          rw (← weight_bytes (get k s.by_thread))
            (sum_by-remove (λ p. p.0) k s.by_thread v.distinct)));
    checkpoints = rw v.checkpoints (
        drop_total _ _ _ (
          rw (← weight_checkpoints (get k s.by_thread))
            (sum_by-remove (λ p. p.1) k s.by_thread v.distinct)));
  }

  step-IsConsistent : (s : SizeState K) (c : Call K) → IsConsistent s → IsConsistent (step s c)
  unfolding step adjust copy_thread clear
  step-IsConsistent s (adjusts k d c) v = replace_entry-IsConsistent s k _ _ v
  step-IsConsistent s (removes k) v = remove_thread-IsConsistent s k v
  step-IsConsistent s (copies a b) v = replace_entry-IsConsistent s b _ _ v
  step-IsConsistent s clears v = record { distinct = tt; bytes = refl; checkpoints = refl }

  -- From a state whose totals are the sums over its threads, any sequence of calls of `adjust`,
  -- `remove_thread`, `copy_thread` and `clear` leads to one.
  pub run-IsConsistent :
      (s : SizeState K) (cs : List (Call K)) → IsConsistent s → IsConsistent (run s cs)
  unfolding run
  run-IsConsistent s [] v = v
  run-IsConsistent s (c ∷ cs) v = run-IsConsistent (step s c) cs (step-IsConsistent s c v)

  get-write_entry :
      (k j : K) (a b : ℕ) (m : Dict K (ℕ × ℕ))
      → get_or (get j (write_entry k a b m)) (0, 0)
        ≡ (if k == j then (a, b) else get_or (get j m) (0, 0))
  unfolding write_entry
  get-write_entry k j a b m = ground (arith, get-put k j (a, b) m, get-remove k j m)

  -- The bytes of every thread after each call: the named thread's move by the delta and stop at 0,
  -- are gone, or are those of the source of a copy; every other thread keeps its bytes.
  pub bytes_after_call :
      (s : SizeState K) (k j a : K) (d c : ℤ)
      → (thread_bytes (adjust s k d c) j
          ≡ (if k == j then pos_part (pos (thread_bytes s k) +ℤ d) else thread_bytes s j))
        × (thread_bytes (remove_thread s k).0 j ≡ (if k == j then 0 else thread_bytes s j))
        × (thread_bytes (copy_thread s a k) j
            ≡ (if k == j then thread_bytes s a else thread_bytes s j))
  unfolding thread_bytes adjust remove_thread copy_thread
  bytes_after_call s k j a d c = (
    ground (
      arith,
      get-write_entry k j (pos_part (pos (entry s k).0 +ℤ d)) (pos_part (pos (entry s k).1 +ℤ c))
          s.by_thread,
    ),
    ground (arith, get-remove k j s.by_thread),
    ground (arith, get-write_entry k j (entry s a).0 (entry s a).1 s.by_thread),
  )

  pub entry-adjust :
      (s : SizeState K) (k j : K) (d c : ℤ)
      → entry (adjust s k d c) j ≡ (
          if k == j
          then (pos_part (pos (entry s k).0 +ℤ d), pos_part (pos (entry s k).1 +ℤ c))
          else entry s j)
  unfolding adjust
  entry-adjust s k j d c = get-write_entry k j _ _ s.by_thread

  pub entry-remove_thread :
      (s : SizeState K) (k j : K)
      → entry (remove_thread s k).0 j ≡ (if k == j then (0, 0) else entry s j)
  unfolding remove_thread
  entry-remove_thread s k j = rw (get-remove k j s.by_thread) (ground arith)
