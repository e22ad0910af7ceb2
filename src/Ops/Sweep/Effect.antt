-- ===== src/Ops/Sweep/Effect.antt =====
-- What a sweep does to the threads that it selects, and what it counts.
use langgraph_runtime_inmem.Prelude.{
  ℕ, ◌+◌, ◌≡◌, ◌≢◌, refl, sym, ap, ◌∙◌, true, false, not, Option, none, some, List, [], ◌∷◌, arith,
  nat_eq, if◌then◌else◌, ok, All, keep, length, Bool-cases, inl, inr, ◌⊎◌,
}
use langgraph_runtime_inmem.Prelude.Int.{ℤ}
use langgraph_runtime_inmem.Dict
use langgraph_runtime_inmem.Dict.Laws.{get-put}
use langgraph_runtime_inmem.Ops.State.{Thread, Db, Checkpointer, find_thread}
use langgraph_runtime_inmem.Ops.State.Tables.{UniqueIds, pop-UniqueIds}
use langgraph_runtime_inmem.Ops.Ttl.{TtlConfig}
use langgraph_runtime_inmem.Ops.Threads.{drop_thread_rows}
use langgraph_runtime_inmem.Ops.Threads.Deletion.{runs_of, crons_of, drop_thread_rows-Dropped}
use langgraph_runtime_inmem.Ops.Sweep.{
  Expired, Progress, is_kept, mark_swept, process, process_all, select, sweep_ttl, is_disabled,
  effective_limit,
}
use langgraph_runtime_inmem.Ops.Sweep.Selection.{IsEligible, select-IsEligible}
use langgraph_runtime_inmem.Ops.Sweep.Distinct.{Apart, select-Apart}
use langgraph_runtime_inmem.Ops.Sweep.Entries.{Returns, process_kept, process_found}
use langgraph_runtime_inmem.Ops.Sweep.Steps.{Untouched, process-Untouched, process_all-Untouched}
use langgraph_runtime_inmem.Ops.Sweep.Batches.{
  no_saver, tables, erase-sweep_selected, process-returns, process_all-returns,
}

-- The entry's thread after a sweep, by its strategy: its row is there as before and its TTL record
-- is marked with the update that was swept, or its row, runs, crons and TTL record are gone.
abbrev pub Settled : {S : Type 0} → Db S → Db S → Expired → Type 0
Settled before after x =
    (is_kept x ≡ true)
      × (find_thread x.thread_id after.threads ≡ find_thread x.thread_id before.threads)
      × (Dict.get x.thread_id after.thread_ttls
          ≡ some (record x.state { last_swept_updated_at = some x.updated_at }))
    ⊎ (is_kept x ≡ false)
      × (find_thread x.thread_id after.threads ≡ none)
      × (runs_of x.thread_id after.runs ≡ [])
      × (crons_of x.thread_id after.crons ≡ [])
      × (Dict.get x.thread_id after.thread_ttls ≡ none)

module _ {S : Type 0} where
  Settled-after :
      (a b c : Db S) (x : Expired) → Untouched x.thread_id b c → Settled a b x → Settled a c x
  Settled-after a b c x u (inl (k, row, ttl)) = inl (k, u.row ∙ row, u.ttl ∙ ttl)
  Settled-after a b c x u (inr (k, row, runs, crons, ttl)) =
      inr (k, u.row ∙ row, u.runs ∙ runs, u.crons ∙ crons, u.ttl ∙ ttl)

  Settled-Untouched :
      (a b c : Db S) (x : Expired) → Untouched x.thread_id a b → Settled b c x → Settled a c x
  Settled-Untouched a b c x u (inl (k, row, ttl)) = inl (k, row ∙ u.row, ttl)
  Settled-Untouched a b c x u (inr gone) = inr gone

  abbrev IsThere : Db S → Expired → Type 0
  IsThere db x = (t : Thread) × (find_thread x.thread_id db.threads ≡ some t)

  module _ (cp : Checkpointer S) (returns : Returns cp) where
    process-Settled :
        (p : Progress S) (x : Expired)
        → p.raised ≡ none
        → UniqueIds p.db.threads
        → IsThere p.db x
        → Settled p.db (process cp p x).db x
          × UniqueIds (process cp p x).db.threads
          × ((process cp p x).processed ≡ p.processed + 1)
          × ((process cp p x).deleted ≡ p.deleted + (if is_kept x then 0 else 1))
    process-Settled p x on u (t, found) = elim (Bool-cases (is_kept x)) [
      | inl kept ↦
          rw (process_kept cp p x on kept, kept)
            (unfold mark_swept in
              (inl (refl, refl, rw get-put (ground arith)), u, refl, omega arith))
      | inr gone ↦
          let d =
            drop_thread_rows-Dropped x.thread_id x.thread_id p.db
              (cp.delete_thread x.thread_id p.db.saver).1 u in
          rw (process_found cp p x t on gone found (returns x.thread_id p.db.saver), gone)
            (
              inr (
                refl,
                d.row ∙ ground arith,
                d.runs ∙ ground arith,
                d.crons ∙ ground arith,
                d.ttl ∙ ground arith,
              ),
              unfold drop_thread_rows in pop-UniqueIds x.thread_id p.db.threads u,
              refl,
              refl,
            )
    ]

    -- What holds of the other entries before one is processed holds of them afterwards.
    still-IsThere :
        (p : Progress S) (x : Expired) (ys : List Expired)
        → All (λ y. y.thread_id ≢ x.thread_id) ys
        → All (IsThere p.db) ys
        → All (IsThere (process cp p x).db) ys
    still-IsThere p x [] h v = tt
    still-IsThere p x (y ∷ ys) h v = (
      (v.0.0, (process-Untouched cp y.thread_id p x (λ e. h.0 (sym e))).row ∙ v.0.1),
      still-IsThere p x ys h.1 v.1,
    )

    Settled-process :
        (p : Progress S) (x : Expired) (c : Db S) (ys : List Expired)
        → All (λ y. y.thread_id ≢ x.thread_id) ys
        → All (Settled (process cp p x).db c) ys
        → All (Settled p.db c) ys
    Settled-process p x c [] h v = tt
    Settled-process p x c (y ∷ ys) h v = (
      Settled-Untouched p.db (process cp p x).db c y
          (process-Untouched cp y.thread_id p x (λ e. h.0 (sym e))) v.0,
      Settled-process p x c ys h.1 v.1,
    )

    process_all-Settled :
        (p : Progress S) (xs : List Expired)
        → p.raised ≡ none
        → UniqueIds p.db.threads
        → Apart xs
        → All (IsThere p.db) xs
        → All (Settled p.db (process_all cp p xs).db) xs
          × ((process_all cp p xs).processed ≡ p.processed + length xs)
          × ((process_all cp p xs).deleted ≡ p.deleted + length (keep (λ x. not (is_kept x)) xs))
    unfolding process_all keep
    process_all-Settled p [] on u a v = (tt, omega arith, omega arith)
    process_all-Settled p (x ∷ xs) on u a v =
        let (mine, u', n, d) = process-Settled p x on u v.0 in
        let (others, ns, ds) =
          process_all-Settled (process cp p x) xs (process-returns cp returns p x on) u' a.1
            (still-IsThere p x xs a.0 v.1) in
        (
          (
            Settled-after p.db (process cp p x).db (process_all cp (process cp p x) xs).db x
                (process_all-Untouched cp x.thread_id (process cp p x) xs a.0) mine,
            Settled-process p x (process_all cp (process cp p x) xs).db xs a.0 others,
          ),
          omega (arith, ns, n),
          ground (arith, ds, d),
        )

All-IsThere :
    {S : Type 0} (global : Option TtlConfig) (now : ℕ) (db : Db S) (xs : List Expired)
    → All (IsEligible global now db db.threads) xs
    → All (IsThere (tables db)) xs
All-IsThere global now db [] v = tt
All-IsThere global now db (x ∷ xs) v =
    ((v.0.thread, v.0.is_there), All-IsThere global now db xs v.1)

-- Where the checkpointer's deletions return, the identifiers of the threads are unique and the limit is
-- not below 1, a sweep settles every thread that it selects, for every batch size: one under `keep_latest` keeps its row and has its last
-- update marked as swept, and of one under `delete` the row, the runs, the crons and the TTL record
-- are gone. It counts as processed what it selects, and as deleted what is under `delete`.
pub sweep_ttl_settles :
    {S : Type 0} (cp : Checkpointer S) (global : Option TtlConfig) (configured limit : Option ℤ)
    (batch_size now : ℕ) (db : Db S) (xs : List Expired)
    → Returns cp
    → UniqueIds db.threads
    → is_disabled limit ≡ false
    → select global (effective_limit limit configured) now db ≡ ok xs
    → ((sweep_ttl cp global configured limit batch_size now db).0
        ≡ ok (length xs, length (keep (λ x. not (is_kept x)) xs)))
      × All (Settled db (sweep_ttl cp global configured limit batch_size now db).1) xs
unfolding sweep_ttl
sweep_ttl_settles cp global configured limit batch_size now db xs returns u on chosen =
    let start : Progress Unit = record {
      db = tables db;
      processed = 0;
      deleted = 0;
      raised = none;
    } in
    let (settled, n, d) =
      process_all-Settled no_saver (λ id s. refl) start xs refl u
        (select-Apart global _ now db xs u chosen)
        (All-IsThere global now db xs (select-IsEligible global _ now db xs u chosen)) in
    let e = erase-sweep_selected cp returns batch_size db xs in
    rw (on, chosen, sweep_ttl)
      (
        ground (
          arith,
          ap (λ (q : Progress Unit). q.raised) e,
          process_all-returns no_saver (λ id s. refl) start xs refl,
          ap (λ (q : Progress Unit). q.processed) e,
          ap (λ (q : Progress Unit). q.deleted) e,
          n,
          d,
        ),
        rw (← e) at settled,
      )
