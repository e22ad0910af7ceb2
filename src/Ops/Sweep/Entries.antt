-- ===== src/Ops/Sweep/Entries.antt =====
-- What becomes of one entry of a sweep, and of a batch.
use langgraph_runtime_inmem.Prelude.{
  ℕ, ◌+◌, ◌≡◌, refl, ◌∙◌, true, false, none, some, List, nat_eq, arith, ok, err, Error, sym, ap,
  Option, if◌then◌else◌, http,
}
use langgraph_runtime_inmem.Json.{end}
use langgraph_runtime_inmem.Filters.{is_allowed, check_filter_match}
use langgraph_runtime_inmem.Ops.State.{Thread, Db, Checkpointer, find_thread}
use langgraph_runtime_inmem.Ops.Threads
use langgraph_runtime_inmem.Ops.Threads.{drop_runs, drop_thread_rows, after_checkpoints}
use langgraph_runtime_inmem.Ops.Sweep.{
  Expired, Progress, is_kept, mark_swept, is_missing, after_deletion, process_entry, process,
  process_all, prune_batch, process_batch,
}

module _ {S : Type 0} where
  -- The checkpointer's deletions return.
  abbrev pub Returns : Checkpointer S → Type 0
  Returns cp = (id : ℕ) (s : S) → (cp.delete_thread id s).0 ≡ ok tt

  module _ (cp : Checkpointer S) where
    -- Without filters a deletion is refused only for want of the thread, and then with 404.
    pub delete_internal :
        (id : ℕ) (db : Db S)
        → Threads.delete cp (ok end) id db ≡ elim (find_thread id db.threads) [
          | none ↦ (err (http 404), db)
          | some t ↦ after_checkpoints id (drop_runs id db) (cp.delete_thread id db.saver)
        ]
    unfolding Threads.delete is_allowed check_filter_match
    delete_internal id db = ground arith

    pub delete_returned :
        (id : ℕ) (db : Db S) (t : Thread)
        → find_thread id db.threads ≡ some t
        → (cp.delete_thread id db.saver).0 ≡ ok tt
        → Threads.delete cp (ok end) id db
          ≡ (ok id, drop_thread_rows id (record db { saver = (cp.delete_thread id db.saver).1 }))
    unfolding after_checkpoints drop_thread_rows
    delete_returned id db t found returned =
        rw (delete_internal id db, found, after_checkpoints, returned) refl

    pub delete_raised :
        (id : ℕ) (db : Db S) (t : Thread) (e : Error)
        → find_thread id db.threads ≡ some t
        → (cp.delete_thread id db.saver).0 ≡ err e
        → Threads.delete cp (ok end) id db
          ≡ (err e, record (drop_runs id db) { saver = (cp.delete_thread id db.saver).1 })
    unfolding after_checkpoints
    delete_raised id db t e found raised =
        rw (delete_internal id db, found, after_checkpoints, raised) refl

    -- The things that can happen to an entry.
    pub process_stopped :
        (p : Progress S) (x : Expired) (e : Error) → p.raised ≡ some e → process cp p x ≡ p
    unfolding process
    process_stopped p x e stopped =
        ap (λ (r : Option Error). elim r [ none ↦ process_entry cp p x | some e ↦ p ]) stopped

    pub process_on :
        (p : Progress S) (x : Expired) → p.raised ≡ none → process cp p x ≡ process_entry cp p x
    unfolding process
    process_on p x on =
        ap (λ (r : Option Error). elim r [ none ↦ process_entry cp p x | some e ↦ p ]) on

    pub process_kept :
        (p : Progress S) (x : Expired)
        → p.raised ≡ none
        → is_kept x ≡ true
        → process cp p x ≡ record p { db = mark_swept x p.db; processed = p.processed + 1 }
    unfolding process_entry
    process_kept p x on kept = process_on p x on ∙ rw (process_entry, kept) refl

    pub process_missing :
        (p : Progress S) (x : Expired)
        → p.raised ≡ none
        → is_kept x ≡ false
        → find_thread x.thread_id p.db.threads ≡ none
        → process cp p x ≡ p
    unfolding process_entry
    process_missing p x on gone missing =
        let d = rw missing at (delete_internal x.thread_id p.db) in
        process_on p x on
        ∙ rw (process_entry, gone) (ap (after_deletion p) d)
        ∙ ap (λ r. record p { raised = r }) (sym on)

    pub process_found :
        (p : Progress S) (x : Expired) (t : Thread)
        → p.raised ≡ none
        → is_kept x ≡ false
        → find_thread x.thread_id p.db.threads ≡ some t
        → (cp.delete_thread x.thread_id p.db.saver).0 ≡ ok tt
        → process cp p x ≡ record p {
          db =
              drop_thread_rows x.thread_id
                (record p.db { saver = (cp.delete_thread x.thread_id p.db.saver).1 });
          processed = p.processed + 1;
          deleted = p.deleted + 1;
        }
    unfolding process_entry
    process_found p x t on gone found returned =
        process_on p x on
        ∙ rw (process_entry, gone)
            (ap (after_deletion p) (delete_returned x.thread_id p.db t found returned))

    pub process_raised :
        (p : Progress S) (x : Expired) (t : Thread) (e : Error)
        → p.raised ≡ none
        → is_kept x ≡ false
        → find_thread x.thread_id p.db.threads ≡ some t
        → (cp.delete_thread x.thread_id p.db.saver).0 ≡ err e
        → process cp p x ≡ record p {
          db = record (drop_runs x.thread_id p.db) {
            saver = (cp.delete_thread x.thread_id p.db.saver).1;
          };
          raised = if is_missing e then none else some e;
        }
    unfolding process_entry
    process_raised p x t e on gone found raised =
        process_on p x on
        ∙ rw (process_entry, gone)
            (ap (after_deletion p) (delete_raised x.thread_id p.db t e found raised))

    pub batch_stopped :
        (p : Progress S) (xs : List Expired) (e : Error)
        → p.raised ≡ some e
        → process_batch cp p xs ≡ p
    unfolding process_batch
    batch_stopped p xs e stopped =
        ap
          (λ (r : Option Error). elim r [
            | none ↦ process_all cp (record p { db = prune_batch cp xs p.db }) xs
            | some e ↦ p
          ])
          stopped

    pub batch_on :
        (p : Progress S) (xs : List Expired)
        → p.raised ≡ none
        → process_batch cp p xs ≡ process_all cp (record p { db = prune_batch cp xs p.db }) xs
    unfolding process_batch
    batch_on p xs on =
        ap
          (λ (r : Option Error). elim r [
            | none ↦ process_all cp (record p { db = prune_batch cp xs p.db }) xs
            | some e ↦ p
          ])
          on
