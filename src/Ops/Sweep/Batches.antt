-- ===== src/Ops/Sweep/Batches.antt =====
-- The batches of a sweep change when the checkpointer prunes, and nothing else.
use langgraph_runtime_inmem.Prelude.{
  ℕ, zero, suc, ◌-◌, keep, ◌≤◌, ◌≡◌, refl, sym, ap, ◌∙◌, ok, none, List, [], ◌∷◌, ◌++◌, arith, take,
  drop, length, max, Bool-cases, Option-cases, inl, inr,
}
use langgraph_runtime_inmem.Ops.State.{Db, Checkpointer, find_thread}
use langgraph_runtime_inmem.Ops.Threads.{drop_thread_rows}
use langgraph_runtime_inmem.Ops.Sweep.{
  Expired, Progress, is_kept, mark_swept, process, process_all, prune_kept, prune_batch,
  process_batch, batches, sweep_selected,
}
use langgraph_runtime_inmem.Ops.Sweep.Entries.{
  Returns, process_stopped, batch_on, process_kept, process_missing, process_found,
}

-- A checkpointer that holds nothing.
abbrev pub no_saver : Checkpointer Unit
no_saver = record {
  delete_thread = λ t s. (ok tt, s);
  delete_for_run = λ t r s. s;
  prune_latest = λ ts s. s;
  copy_thread = λ a b s. s;
  total_bytes = λ s. 0;
  thread_bytes = λ s t. 0;
  thread_checkpoints = λ s t. 0;
}

abbrev pub tables : {S : Type 0} → Db S → Db Unit
tables db = record {
  assistants = db.assistants;
  threads = db.threads;
  runs = db.runs;
  crons = db.crons;
  thread_ttls = db.thread_ttls;
  retry_counter = db.retry_counter;
  saver = tt;
}

-- The tables and the counts, without the checkpointer's state.
abbrev pub erase : {S : Type 0} → Progress S → Progress Unit
erase p = record {
  db = tables p.db;
  processed = p.processed;
  deleted = p.deleted;
  raised = p.raised;
}

module _ {S : Type 0} (cp : Checkpointer S) (returns : Returns cp) where
  erase-process :
      (p : Progress S) (x : Expired) → erase (process cp p x) ≡ process no_saver (erase p) x
  unfolding mark_swept drop_thread_rows
  erase-process p x = elim (Option-cases p.raised) [
    | inr (e, stopped) ↦
        rw (process_stopped cp p x e stopped, process_stopped no_saver (erase p) x e stopped) refl
    | inl on ↦ elim (Bool-cases (is_kept x)) [
      | inl kept ↦ rw (process_kept cp p x on kept, process_kept no_saver (erase p) x on kept) refl
      | inr gone ↦ elim (Option-cases (find_thread x.thread_id p.db.threads)) [
        | inl missing ↦
            rw
              (
                process_missing cp p x on gone missing,
                process_missing no_saver (erase p) x on gone missing,
              )
              refl
        | inr (t, found) ↦
            rw
              (
                process_found cp p x t on gone found (returns x.thread_id p.db.saver),
                process_found no_saver (erase p) x t on gone found refl,
              )
              refl
      ]
    ]
  ]

  erase-process_all :
      (p : Progress S) (xs : List Expired)
      → erase (process_all cp p xs) ≡ process_all no_saver (erase p) xs
  unfolding process_all
  erase-process_all p [] = refl
  erase-process_all p (x ∷ xs) =
      erase-process_all (process cp p x) xs
      ∙ ap (λ q. process_all no_saver q xs) (erase-process p x)

  pub process-returns :
      (p : Progress S) (x : Expired) → p.raised ≡ none → (process cp p x).raised ≡ none
  process-returns p x on = elim (Bool-cases (is_kept x)) [
    | inl kept ↦ rw (process_kept cp p x on kept) on
    | inr gone ↦ elim (Option-cases (find_thread x.thread_id p.db.threads)) [
      | inl missing ↦ rw (process_missing cp p x on gone missing) on
      | inr (t, found) ↦
          rw (process_found cp p x t on gone found (returns x.thread_id p.db.saver)) on
    ]
  ]

  pub process_all-returns :
      (p : Progress S) (xs : List Expired) → p.raised ≡ none → (process_all cp p xs).raised ≡ none
  unfolding process_all
  process_all-returns p [] on = on
  process_all-returns p (x ∷ xs) on =
      process_all-returns (process cp p x) xs (process-returns p x on)

  process_batch-returns :
      (p : Progress S) (xs : List Expired) → p.raised ≡ none → (process_batch cp p xs).raised ≡ none
  process_batch-returns p xs on =
      rw (batch_on cp p xs on)
        (process_all-returns (record p { db = prune_batch cp xs p.db }) xs on)

  tables-prune_kept : (xs : List Expired) (db : Db S) → tables (prune_kept cp xs db) ≡ tables db
  unfolding prune_kept
  tables-prune_kept [] db = refl
  tables-prune_kept (x ∷ xs) db = refl

  erase-process_batch :
      (p : Progress S) (xs : List Expired)
      → p.raised ≡ none
      → erase (process_batch cp p xs) ≡ process_all no_saver (erase p) xs
  unfolding process_batch prune_batch
  erase-process_batch p xs on =
      ap erase (batch_on cp p xs on)
      ∙ erase-process_all _ xs
      ∙ ap
          (λ d.
            process_all no_saver
              (record { db = d; processed = p.processed; deleted = p.deleted; raised = p.raised })
              xs)
          (tables-prune_kept (keep is_kept xs) p.db)

process_all-append :
    (p : Progress Unit) (xs ys : List Expired)
    → process_all no_saver (process_all no_saver p xs) ys ≡ process_all no_saver p (xs ++ ys)
unfolding process_all
process_all-append p [] ys = refl
process_all-append p (x ∷ xs) ys = process_all-append (process no_saver p x) xs ys

take-append-drop : (n : ℕ) (xs : List Expired) → take n xs ++ drop n xs ≡ xs
take-append-drop zero xs = refl
take-append-drop (suc n) [] = refl
take-append-drop (suc n) (x ∷ xs) = ap (◌∷◌ x) (take-append-drop n xs)

length-drop-le : (n : ℕ) (xs : List Expired) → length (drop n xs) ≤ length xs
length-drop-le zero xs = omega arith
length-drop-le (suc n) [] = omega arith
length-drop-le (suc n) (x ∷ xs) = omega (arith, length-drop-le n xs)

module _ {S : Type 0} (cp : Checkpointer S) (returns : Returns cp) where
  -- As many rounds as entries are enough, for every batch size of at least 1.
  erase-batches :
      (rounds size : ℕ) (p : Progress S) (xs : List Expired)
      → length xs ≤ rounds
      → p.raised ≡ none
      → erase (batches cp rounds (suc size) p xs) ≡ process_all no_saver (erase p) xs
  unfolding batches process_all
  erase-batches zero size p [] h on = refl
  erase-batches zero size p (x ∷ xs) h on = absurd (omega arith)
  erase-batches (suc n) size p [] h on = refl
  erase-batches (suc n) size p (x ∷ xs) h on =
      erase-batches n size (process_batch cp p (x ∷ take size xs)) (drop size xs)
        (omega (arith, length-drop-le size xs))
        (process_batch-returns cp returns p (x ∷ take size xs) on)
      ∙ ap (λ q. process_all no_saver q (drop size xs))
          (erase-process_batch cp returns p (x ∷ take size xs) on)
      ∙ process_all-append (erase p) (x ∷ take size xs) (drop size xs)
      ∙ ap (λ l. process_all no_saver (erase p) (x ∷ l)) (take-append-drop size xs)

  pub erase-sweep_selected :
      (batch_size : ℕ) (db : Db S) (xs : List Expired)
      → erase (sweep_selected cp batch_size db xs)
        ≡ process_all no_saver
            (record { db = tables db; processed = 0; deleted = 0; raised = none })
            xs
  unfolding sweep_selected
  erase-sweep_selected batch_size db xs =
      let e : max 1 batch_size ≡ suc (max 1 batch_size - 1) = omega arith in
      rw e (erase-batches (length xs) _ _ xs (omega arith) refl)

-- Where the checkpointer's deletions return, the batch size does not matter: with any two of them, a sweep leaves the same threads, runs, crons
-- and TTL records, and counts the same.
pub batch_size_irrelevant :
    {S : Type 0} (cp : Checkpointer S) (a b : ℕ) (db : Db S) (selected : List Expired)
    → Returns cp
    → erase (sweep_selected cp a db selected) ≡ erase (sweep_selected cp b db selected)
batch_size_irrelevant cp a b db xs returns =
    erase-sweep_selected cp returns a db xs ∙ sym (erase-sweep_selected cp returns b db xs)
