-- ===== src/Ops/Sweep/Steps.antt =====
-- What each step of a sweep leaves alone.
use langgraph_runtime_inmem.Prelude.{
  ℕ, zero, suc, ◌≡◌, ◌≢◌, refl, ◌∙◌, List, [], ◌∷◌, nat_eq, arith, Result-cases, All, take, drop,
  keep, Bool-cases, Option-cases, inl, inr,
}
use langgraph_runtime_inmem.Dict
use langgraph_runtime_inmem.Dict.Laws.{get-put, get-remove}
use langgraph_runtime_inmem.Ops.State.{Db, Checkpointer, find_thread}
use langgraph_runtime_inmem.Ops.State.Tables.{find_thread-pop_ne}
use langgraph_runtime_inmem.Ops.Threads.{drop_runs, drop_thread_rows}
use langgraph_runtime_inmem.Ops.Threads.Deletion.{runs_of, crons_of, runs_of-drop, crons_of-drop}
use langgraph_runtime_inmem.Ops.Sweep.{
  Expired, Progress, is_kept, mark_swept, process, process_all, prune_kept, prune_batch,
  process_batch, batches,
}
use langgraph_runtime_inmem.Ops.Sweep.Entries.{
  process_stopped, process_kept, process_missing, process_found, process_raised, batch_stopped,
  batch_on,
}

All-take-ne :
    (k n : ℕ) (xs : List Expired)
    → All (λ x. x.thread_id ≢ k) xs
    → All (λ x. x.thread_id ≢ k) (take n xs)
All-take-ne k zero xs h = tt
All-take-ne k (suc n) [] h = tt
All-take-ne k (suc n) (x ∷ xs) h = (h.0, All-take-ne k n xs h.1)

All-drop-ne :
    (k n : ℕ) (xs : List Expired)
    → All (λ x. x.thread_id ≢ k) xs
    → All (λ x. x.thread_id ≢ k) (drop n xs)
All-drop-ne k zero xs h = h
All-drop-ne k (suc n) [] h = tt
All-drop-ne k (suc n) (x ∷ xs) h = All-drop-ne k n xs h.1

module _ {S : Type 0} where
  -- The thread's row, runs, crons and TTL record are what they were.
  pub record Untouched (k : ℕ) (db db' : Db S) : Type 0 where
    pub row : find_thread k db'.threads ≡ find_thread k db.threads
    pub runs : runs_of k db'.runs ≡ runs_of k db.runs
    pub crons : crons_of k db'.crons ≡ crons_of k db.crons
    pub ttl : Dict.get k db'.thread_ttls ≡ Dict.get k db.thread_ttls

  pub Untouched-refl : (k : ℕ) (db : Db S) → Untouched k db db
  Untouched-refl k db = record { row = refl; runs = refl; crons = refl; ttl = refl }

  pub Untouched-trans : {k : ℕ} {a b c : Db S} → Untouched k a b → Untouched k b c → Untouched k a c
  Untouched-trans p q = record {
    row = q.row ∙ p.row;
    runs = q.runs ∙ p.runs;
    crons = q.crons ∙ p.crons;
    ttl = q.ttl ∙ p.ttl;
  }

  drop_thread_rows-Untouched :
      (id k : ℕ) (db : Db S) (s : S)
      → id ≢ k
      → Untouched k db (drop_thread_rows id (record db { saver = s }))
  unfolding drop_thread_rows
  drop_thread_rows-Untouched id k db s h = record {
    row = find_thread-pop_ne id k db.threads h;
    runs = ground (arith, runs_of-drop id k db.runs);
    crons = ground (arith, crons_of-drop id k db.crons);
    ttl = ground (arith, get-remove id k db.thread_ttls);
  }

  mark_swept-Untouched :
      (k : ℕ) (x : Expired) (db : Db S) → x.thread_id ≢ k → Untouched k db (mark_swept x db)
  unfolding mark_swept
  mark_swept-Untouched k x db h = record {
    row = refl;
    runs = refl;
    crons = refl;
    ttl = rw get-put (ground arith);
  }

  prune_kept-Untouched :
      (cp : Checkpointer S) (k : ℕ) (xs : List Expired) (db : Db S)
      → Untouched k db (prune_kept cp xs db)
  unfolding prune_kept
  prune_kept-Untouched cp k [] db = Untouched-refl k db
  prune_kept-Untouched cp k (x ∷ xs) db = record {
    row = refl;
    runs = refl;
    crons = refl;
    ttl = refl;
  }

  prune_batch-Untouched :
      (cp : Checkpointer S) (k : ℕ) (xs : List Expired) (db : Db S)
      → Untouched k db (prune_batch cp xs db)
  unfolding prune_batch
  prune_batch-Untouched cp k xs db = prune_kept-Untouched cp k (keep is_kept xs) db

  drop_runs-Untouched :
      (id k : ℕ) (db : Db S) (s : S)
      → id ≢ k
      → Untouched k db (record (drop_runs id db) { saver = s })
  unfolding drop_runs
  drop_runs-Untouched id k db s h = record {
    row = refl;
    runs = ground (arith, runs_of-drop id k db.runs);
    crons = ground (arith, crons_of-drop id k db.crons);
    ttl = refl;
  }

  module _ (cp : Checkpointer S) where
    pub process-Untouched :
        (k : ℕ) (p : Progress S) (x : Expired)
        → x.thread_id ≢ k
        → Untouched k p.db (process cp p x).db
    process-Untouched k p x h = elim (Option-cases p.raised) [
      | inr (e, stopped) ↦ rw (process_stopped cp p x e stopped) (Untouched-refl k p.db)
      | inl on ↦ elim (Bool-cases (is_kept x)) [
        | inl kept ↦ rw (process_kept cp p x on kept) (mark_swept-Untouched k x p.db h)
        | inr gone ↦ elim (Option-cases (find_thread x.thread_id p.db.threads)) [
          | inl missing ↦ rw (process_missing cp p x on gone missing) (Untouched-refl k p.db)
          | inr (t, found) ↦ elim (Result-cases (cp.delete_thread x.thread_id p.db.saver).0) [
            | inl (done, returned) ↦
                rw (process_found cp p x t on gone found returned)
                  (drop_thread_rows-Untouched x.thread_id k p.db _ h)
            | inr (e, raised) ↦
                rw (process_raised cp p x t e on gone found raised)
                  (drop_runs-Untouched x.thread_id k p.db _ h)
          ]
        ]
      ]
    ]

    pub process_all-Untouched :
        (k : ℕ) (p : Progress S) (xs : List Expired)
        → All (λ x. x.thread_id ≢ k) xs
        → Untouched k p.db (process_all cp p xs).db
    unfolding process_all
    process_all-Untouched k p [] h = Untouched-refl k p.db
    process_all-Untouched k p (x ∷ xs) h =
        Untouched-trans (process-Untouched k p x h.0)
          (process_all-Untouched k (process cp p x) xs h.1)

    process_batch-Untouched :
        (k : ℕ) (p : Progress S) (xs : List Expired)
        → All (λ x. x.thread_id ≢ k) xs
        → Untouched k p.db (process_batch cp p xs).db
    unfolding process_batch
    process_batch-Untouched k p xs h = elim (Option-cases p.raised) [
      | inr (e, stopped) ↦ rw (batch_stopped cp p xs e stopped) (Untouched-refl k p.db)
      | inl on ↦
          rw (batch_on cp p xs on)
            (Untouched-trans (prune_batch-Untouched cp k xs p.db) (process_all-Untouched k _ xs h))
    ]

    pub batches-Untouched :
        (k rounds size : ℕ) (p : Progress S) (xs : List Expired)
        → All (λ x. x.thread_id ≢ k) xs
        → Untouched k p.db (batches cp rounds size p xs).db
    unfolding batches
    batches-Untouched k zero size p xs h = Untouched-refl k p.db
    batches-Untouched k (suc n) size p [] h = Untouched-refl k p.db
    batches-Untouched k (suc n) size p (x ∷ xs) h =
        Untouched-trans
          (process_batch-Untouched k p (take size (x ∷ xs)) (All-take-ne k size (x ∷ xs) h))
          (batches-Untouched k n size _ (drop size (x ∷ xs)) (All-drop-ne k size (x ∷ xs) h))
