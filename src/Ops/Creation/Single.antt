-- ===== src/Ops/Creation/Single.antt =====
-- `Runs.put` and the runs of a thread: at most one in flight where this is asked for, and at most one
-- running.
use langgraph_runtime_inmem.Prelude.{
  ℕ, ◌≡◌, refl, ap, ◌∙◌, true, false, ◌&&◌, ◌||◌, Option, none, some, List, [], ◌∷◌, ◌++◌, String,
  ◌==◌, nat_eq, arith, Result, keep, ◌⊎◌, inl, inr, Bool-cases,
}
use langgraph_runtime_inmem.Json.{Fields}
use langgraph_runtime_inmem.Ops.State.{
  Thread, Run, Assistant, Db, is_active, is_running, has_active_runs, has_running_run, find_thread,
  update_thread,
}
use langgraph_runtime_inmem.Ops.Runs.Tables.{Exclusive}
use langgraph_runtime_inmem.Ops.Rows.{Request, new_run, occupied, thread_for, fields_at}
use langgraph_runtime_inmem.Ops.Creation.{is_some_run, inflight, insert, on_thread, create}
use langgraph_runtime_inmem.Ops.Creation.Busy.{create-Outcome}

-- At most one run of each thread is pending or running.
abbrev pub SingleInFlight : List Run → Type 0
SingleInFlight [] = Unit
SingleInFlight (r ∷ rs) =
    ((is_active r.status && has_active_runs r.thread_id rs) ≡ false) × SingleInFlight rs

has_active_runs-append :
    (k : ℕ) (rs : List Run) (r : Run)
    → has_active_runs k (rs ++ r ∷ [])
      ≡ (has_active_runs k rs || r.thread_id == k && is_active r.status)
unfolding has_active_runs
has_active_runs-append k [] r = ground arith
has_active_runs-append k (x ∷ rs) r = ground (arith, has_active_runs-append k rs r)

append-SingleInFlight :
    (rs : List Run) (r : Run)
    → SingleInFlight rs
    → has_active_runs r.thread_id rs ≡ false
    → SingleInFlight (rs ++ r ∷ [])
unfolding has_active_runs
append-SingleInFlight [] r s h = ground arith
append-SingleInFlight (x ∷ rs) r s h =
    ground (arith, append-SingleInFlight rs r, has_active_runs-append x.thread_id rs r)

has_running_run-append :
    (k : ℕ) (rs : List Run) (r : Run)
    → is_running r.status ≡ false
    → has_running_run k (rs ++ r ∷ []) ≡ has_running_run k rs
unfolding has_running_run
has_running_run-append k [] r h = ground arith
has_running_run-append k (x ∷ rs) r h = ground (arith, has_running_run-append k rs r h)

append-Exclusive :
    (rs : List Run) (r : Run)
    → Exclusive rs
    → is_running r.status ≡ false
    → Exclusive (rs ++ r ∷ [])
unfolding has_running_run
append-Exclusive [] r s h = ground arith
append-Exclusive (x ∷ rs) r s h =
    ground (arith, append-Exclusive rs r, has_running_run-append x.thread_id rs r h)

is_some-inflight :
    (k : ℕ) (rs : List Run)
    → is_some_run (keep (λ r. r.thread_id == k && is_active r.status) rs) ≡ has_active_runs k rs
unfolding has_active_runs keep
is_some-inflight k [] = refl
is_some-inflight k (r ∷ rs) = ground (arith, is_some-inflight k rs)

-- The run table after a request: as it was, or with a new run of the requested status behind it, on a
-- thread that has no run in flight if that was asked for.
abbrev pub Grown : Request → List Run → List Run → Type 0
Grown q before after =
    (after ≡ before)
    ⊎ (r : Run) × (after ≡ before ++ r ∷ [])
      × (r.status ≡ q.status)
      × ((q.prevent_insert_if_inflight && has_active_runs r.thread_id before) ≡ false)

module _ {S : Type 0} (text_of : ℕ → String) (now : ℕ) (q : Request) where
  insert-Grown :
      (a : Assistant) (id : ℕ) (existing : Option Thread) (db : Db S)
      → Grown q db.runs (insert text_of now q a id existing db).1.runs
  unfolding insert new_run
  insert-Grown a id existing db =
      elim (Bool-cases
        (q.prevent_insert_if_inflight && is_some_run (inflight text_of now q a id db))) [
          | inl held ↦ rw (held, insert) (inl refl)
          | inr free ↦
              rw (free, insert)
                (inr (
                  new_run text_of now q a id existing,
                  refl,
                  refl,
                  rw (is_some-inflight id db.runs) at free,
                ))
        ]

  on_thread-Grown :
      (a : Assistant) (id : ℕ) (found : Option Thread) (db : Db S)
      → Grown q db.runs (on_thread text_of now q a id found db).1.runs
  unfolding on_thread
  on_thread-Grown a id none db = insert-Grown a id none (record db {
    threads =
        db.threads ++ thread_for text_of now id a (fields_at "config" q.kwargs) q.metadata ∷ [];
  })
  on_thread-Grown a id (some t) db =
      let change = occupied text_of now a (fields_at "config" q.kwargs) in
      insert-Grown a id (some (change t))
        (record db { threads = update_thread id change db.threads })

  create-Grown :
      (auth assistant_auth : Result Fields) (fresh : ℕ) (db : Db S)
      → find_thread fresh db.threads ≡ none
      → Grown q db.runs (create text_of auth assistant_auth now fresh q db).1.runs
  create-Grown auth assistant_auth fresh db f =
      elim (create-Outcome text_of now q db auth assistant_auth fresh f) [
        | inl (e, raised) ↦ rw raised (inl refl)
        | inr (inl nothing) ↦ rw nothing (inl refl)
        | inr (inr (a, id, found, g, placed)) ↦ rw placed (on_thread-Grown a id found db)
      ]

  -- Where the fresh identifier is that of no thread: a request that prevents an insertion if a run is
  -- in flight keeps at most one run in flight on each thread.
  pub create-SingleInFlight :
      (auth assistant_auth : Result Fields) (fresh : ℕ) (db : Db S)
      → find_thread fresh db.threads ≡ none
      → q.prevent_insert_if_inflight ≡ true
      → SingleInFlight db.runs
      → SingleInFlight (create text_of auth assistant_auth now fresh q db).1.runs
  create-SingleInFlight auth assistant_auth fresh db f prevent s =
      elim (create-Grown auth assistant_auth fresh db f) [
        | inl same ↦ rw same s
        | inr (r, grown, status, free) ↦
            rw grown (append-SingleInFlight db.runs r s (rw prevent at free))
      ]

  -- Where the fresh identifier is that of no thread: a request for a run that does not start as running
  -- keeps at most one running run on each thread.
  pub create-Exclusive :
      (auth assistant_auth : Result Fields) (fresh : ℕ) (db : Db S)
      → find_thread fresh db.threads ≡ none
      → is_running q.status ≡ false
      → Exclusive db.runs
      → Exclusive (create text_of auth assistant_auth now fresh q db).1.runs
  create-Exclusive auth assistant_auth fresh db f waits s =
      elim (create-Grown auth assistant_auth fresh db f) [
        | inl same ↦ rw same s
        | inr (r, grown, status, free) ↦
            rw grown (append-Exclusive db.runs r s (ap is_running status ∙ waits))
      ]
