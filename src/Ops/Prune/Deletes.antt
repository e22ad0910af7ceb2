-- ===== src/Ops/Prune/Deletes.antt =====
-- `Threads.prune` with the strategy `delete`.
use langgraph_runtime_inmem.Prelude.{
  ℕ, ◌+◌, ◌≡◌, refl, ap, Bool, none, some, List, [], ◌∷◌, ◌==◌, nat_eq, arith, Result, ok,
  if◌then◌else◌, any, length, Option-cases, inl, inr,
}
use langgraph_runtime_inmem.Json.{end}
use langgraph_runtime_inmem.Ops.State.{Thread, Db, Checkpointer, find_thread, pop_thread, delete}
use langgraph_runtime_inmem.Ops.State.Tables.{UniqueIds, find_thread-pop, pop-UniqueIds}
use langgraph_runtime_inmem.Ops.Threads.{drop_thread_rows}
use langgraph_runtime_inmem.Ops.Sweep.Entries.{Returns, delete_internal, delete_returned}
use langgraph_runtime_inmem.Ops.Prune.{check_access, counted_delete, delete_each, prune_by, prune}

abbrev pub is_listed : ℕ → List ℕ → Bool
is_listed k ids = any (λ id. id == k) ids

length-pop_thread :
    (id : ℕ) (ts : List Thread) (t : Thread)
    → find_thread id ts ≡ some t
    → length (pop_thread id ts) + 1 ≡ length ts
unfolding find_thread pop_thread
length-pop_thread id [] t f = cc
length-pop_thread id (x ∷ ts) t f = ground (arith, length-pop_thread id ts t)

module _ {S : Type 0} (cp : Checkpointer S) where
  -- How many threads went, and which are left.
  pub record Pruned (ids : List ℕ) (start : ℕ) (before : Db S) (result : Result ℕ × Db S)
      : Type 0 where
    pub count : ℕ
    pub returned : result.0 ≡ ok count
    pub counted : count + length result.1.threads ≡ start + length before.threads
    pub left :
        (k : ℕ)
        → find_thread k result.1.threads
          ≡ (if is_listed k ids then none else find_thread k before.threads)

  missing_step :
      (id : ℕ) (ids : List ℕ) (n : ℕ) (db : Db S)
      → find_thread id db.threads ≡ none
      → delete_each cp (λ i. ok end) (id ∷ ids) n db ≡ delete_each cp (λ i. ok end) ids n db
  unfolding delete_each
  missing_step id ids n db missing =
      ap (counted_delete (delete_each cp (λ i. ok end) ids) n)
        (rw missing at (delete_internal cp id db))

  found_step :
      (id : ℕ) (ids : List ℕ) (n : ℕ) (db : Db S) (t : Thread)
      → Returns cp
      → find_thread id db.threads ≡ some t
      → delete_each cp (λ i. ok end) (id ∷ ids) n db
        ≡ delete_each cp
            (λ i. ok end)
            ids
            (n + 1)
            (drop_thread_rows id (record db { saver = (cp.delete_thread id db.saver).1 }))
  unfolding delete_each
  found_step id ids n db t returns found =
      ap (counted_delete (delete_each cp (λ i. ok end) ids) n)
        (delete_returned cp id db t found (returns id db.saver))

  delete_each-Pruned :
      (ids : List ℕ) (n : ℕ) (db : Db S)
      → Returns cp
      → UniqueIds db.threads
      → Pruned ids n db (delete_each cp (λ i. ok end) ids n db)
  unfolding any drop_thread_rows delete_each
  delete_each-Pruned [] n db returns u = record {
    count = n;
    returned = refl;
    counted = refl;
    left = λ k. refl;
  }
  delete_each-Pruned (id ∷ ids) n db returns u = elim (Option-cases (find_thread id db.threads)) [
    | inl missing ↦ rw (missing_step id ids n db missing) (
        let v = delete_each-Pruned ids n db returns u in
        record {
          count = v.count;
          returned = v.returned;
          counted = v.counted;
          left = λ k. ground (arith, v.left k, missing);
        })
    | inr (t, found) ↦ rw (found_step id ids n db t returns found) (
        let v =
          delete_each-Pruned ids (n + 1)
            (drop_thread_rows id (record db { saver = (cp.delete_thread id db.saver).1 })) returns
            (pop-UniqueIds id db.threads u) in
        record {
          count = v.count;
          returned = v.returned;
          counted = omega (arith, v.counted, length-pop_thread id db.threads t found);
          left = λ k. ground (arith, v.left k, find_thread-pop id k db.threads u);
        })
  ]

  -- Without authorization filters, and where the identifiers of the threads are unique and the
  -- checkpointer's deletions return, pruning with
  -- `delete` succeeds: exactly the listed threads are gone afterwards, whether they are listed once or
  -- more often or are not there, and the result is the number of threads that went.
  pub prune-Pruned :
      (batch_size : ℕ) (ids : List ℕ) (db : Db S)
      → Returns cp
      → UniqueIds db.threads
      → Pruned ids 0 db (prune cp (ok end) (λ i. ok end) (some delete) batch_size ids db)
  unfolding prune prune_by check_access any
  prune-Pruned batch_size [] db returns u = record {
    count = 0;
    returned = refl;
    counted = refl;
    left = λ k. refl;
  }
  prune-Pruned batch_size (id ∷ ids) db returns u = delete_each-Pruned (id ∷ ids) 0 db returns u
