-- ===== src/Ops/Cancel/Effect.antt =====
-- What cancelling with the action `interrupt` does to each run.
use langgraph_runtime_inmem.Prelude.{
  ℕ, ◌≡◌, refl, ◌∙◌, Bool, false, ◌&&◌, Option, none, some, List, [], ◌∷◌, ◌==◌, nat_eq, arith, ok,
  if◌then◌else◌, keep, any, Bool-cases, inl, inr,
}
use langgraph_runtime_inmem.Json.{end}
use langgraph_runtime_inmem.Ops.State.{Run, RunStatus, Db, Checkpointer, is_active}
use langgraph_runtime_inmem.Ops.State.Tables.{map_option}
use langgraph_runtime_inmem.Ops.Runs.{find_run, update_run}
use langgraph_runtime_inmem.Ops.Runs.Queue.{UniqueRuns}
use langgraph_runtime_inmem.Ops.Cancel.{
  Selection, Criterion, interrupts, criterion, check_supported, is_run_match, thread_of,
  authorized_runs, idle_thread, interrupt_run, interrupt_all, delete_all, cancel_all, cancel_found,
  cancel_by, cancel,
}

abbrev pub interrupted_run : ℕ → Run → Run
interrupted_run now r = record r { status = RunStatus.interrupted; updated_at = now }

find_run-update :
    (id k now : ℕ) (rs : List Run)
    → find_run k (update_run id (interrupted_run now) rs)
      ≡ (if id == k then map_option (interrupted_run now) (find_run k rs) else find_run k rs)
unfolding find_run update_run
find_run-update id k now [] = ground arith
find_run-update id k now (r ∷ rs) = ground (arith, find_run-update id k now rs)

-- A run with this identifier among those that are in flight.
abbrev is_hit : ℕ → List Run → Bool
is_hit k rs = any (λ r. r.run_id == k && is_active r.status) rs

module _ {S : Type 0} (has_queues : ℕ → Option ℕ → Bool) (thread : Option ℕ) (now k : ℕ) where
  runs-interrupt_run :
      (r : Run) (db : Db S)
      → (interrupt_run now r db).runs ≡ update_run r.run_id (interrupted_run now) db.runs
  unfolding interrupt_run idle_thread
  runs-interrupt_run r db = ground arith

  interrupt_step :
      (r : Run) (db : Db S)
      → find_run k (if is_active r.status then interrupt_run now r db else db).runs ≡ (
          if r.run_id == k && is_active r.status
          then map_option (interrupted_run now) (find_run k db.runs)
          else find_run k db.runs)
  interrupt_step r db = elim (Bool-cases (is_active r.status)) [
    | inl on ↦
        rw (on, runs-interrupt_run r db, find_run-update r.run_id k now db.runs) (ground arith)
    | inr off ↦ rw off (ground arith)
  ]

  find_run-interrupt_all :
      (rs : List Run) (db : Db S)
      → find_run k (interrupt_all has_queues interrupts thread now rs db).runs ≡ (
          if is_hit k rs
          then map_option (interrupted_run now) (find_run k db.runs)
          else find_run k db.runs)
  unfolding interrupt_all any
  find_run-interrupt_all [] db = refl
  find_run-interrupt_all (r ∷ rs) db =
      find_run-interrupt_all rs (if is_active r.status then interrupt_run now r db else db)
      ∙ ground (arith, interrupt_step r db)

none_deleted : (rs : List Run) → keep (λ r. false) rs ≡ []
unfolding keep
none_deleted [] = refl
none_deleted (r ∷ rs) = none_deleted rs

is_hit-missing :
    (k : ℕ) (c : Criterion) (rs : List Run)
    → find_run k rs ≡ none
    → is_hit k (keep (is_run_match c) rs) ≡ false
unfolding find_run keep any
is_hit-missing k c [] f = refl
is_hit-missing k c (x ∷ rs) f = ground (arith, is_hit-missing k c rs)

is_hit-match :
    (k : ℕ) (c : Criterion) (rs : List Run) (r : Run)
    → UniqueRuns rs
    → find_run k rs ≡ some r
    → is_hit k (keep (is_run_match c) rs) ≡ (is_run_match c r && is_active r.status)
unfolding find_run keep any
is_hit-match k c [] r u f = cc
is_hit-match k c (x ∷ rs) r u f = ground (arith, is_hit-match k c rs r, is_hit-missing k c rs)

module _ {S : Type 0} (cp : Checkpointer S) (has_queues : ℕ → Option ℕ → Bool) (now k : ℕ) where
  cancel_all-interrupts :
      (c : Criterion) (rs : List Run) (db : Db S)
      → (cancel_all cp has_queues interrupts c now rs db).1
        ≡ interrupt_all has_queues interrupts (thread_of c) now rs db
  unfolding cancel_all delete_all
  cancel_all-interrupts c rs db = rw (none_deleted rs) (ground arith)

  listed_interrupts :
      (c : Criterion) (rs : List Run) (db : Db S)
      → (cancel_found cp has_queues interrupts c now (ok rs) db).1
        ≡ interrupt_all has_queues interrupts (thread_of c) now rs db
  unfolding interrupt_all cancel_found
  listed_interrupts c [] db = refl
  listed_interrupts c (r ∷ rs) db = cancel_all-interrupts c (r ∷ rs) db

  cancel_by-interrupts :
      (c : Criterion) (db : Db S)
      → (cancel_by cp has_queues end interrupts c now db).1
        ≡ interrupt_all has_queues interrupts (thread_of c) now (keep (is_run_match c) db.runs) db
  unfolding cancel_by authorized_runs
  cancel_by-interrupts c db = listed_interrupts c (keep (is_run_match c) db.runs) db

  -- Where the identifiers of the runs are unique, the arguments are in order and there are no
  -- authorization filters: cancelling with `interrupt` sets a run that is there to interrupted, with
  -- the time of the call, if it is selected and is pending or running, and leaves it as it is
  -- otherwise. A running run is interrupted at once.
  pub cancel_interrupts :
      (s : Selection) (c : Criterion) (db : Db S) (r : Run)
      → criterion s ≡ ok c
      → check_supported c ≡ ok tt
      → UniqueRuns db.runs
      → find_run k db.runs ≡ some r
      → find_run k (cancel cp has_queues (ok end) interrupts s now db).1.runs
        ≡ some (if is_run_match c r && is_active r.status then interrupted_run now r else r)
  unfolding cancel
  cancel_interrupts s c db r valid supported u f =
      rw (valid, cancel, supported, cancel_by-interrupts c db)
        (find_run-interrupt_all has_queues (thread_of c) now k (keep (is_run_match c) db.runs) db
          ∙ ground (arith, is_hit-match k c db.runs r u f, f))
