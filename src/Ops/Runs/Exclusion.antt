-- ===== src/Ops/Runs/Exclusion.antt =====
-- `Runs.next` never starts a second run of a thread.
use langgraph_runtime_inmem.Prelude.{
  ℕ, zero, suc, ◌≤◌, ◌≡◌, ◌≢◌, refl, ap, sym, ◌∙◌, true, false, none, some, List, [], ◌∷◌, nat_eq,
  arith, All, length, take, Bool-cases, Option-cases, ◌⊎◌, inl, inr,
}
use langgraph_runtime_inmem.Ops.State.{
  Run, RunStatus, Db, Thread, is_pending, has_running_run, find_thread,
}
use langgraph_runtime_inmem.Ops.Runs.{
  find_run, with_status, is_available, attempt_of, take_run, claim, claim_all, add_yield, next,
  pending_runs,
}
use langgraph_runtime_inmem.Ops.Runs.Tables.{
  find_run-id, Exclusive, has_running_run-start, start-Exclusive,
}

-- What a yielded run is: it is running now, its thread is there, and no run of the thread was running.
pub record IsStarted {S : Type 0} (db : Db S) (y : Run × ℕ) : Type 0 where
  pub running : y.0.status ≡ RunStatus.running
  pub thread : Thread
  pub is_there : find_thread y.0.thread_id db.threads ≡ some thread
  pub was_idle : has_running_run y.0.thread_id db.runs ≡ false

-- No two yields are of one thread.
abbrev pub OfApartThreads : List (Run × ℕ) → Type 0
OfApartThreads [] = Unit
OfApartThreads (y ∷ ys) = All (λ z. z.0.thread_id ≢ y.0.thread_id) ys × OfApartThreads ys

module _ {S : Type 0} where
  threads-claim : (q : Run) (db : Db S) → (claim q db).1.threads ≡ db.threads
  unfolding claim
  threads-claim q db = ground arith

  -- A claim leaves everything as it was, or takes an available run.
  abbrev Claims : Run → Db S → Type 0
  Claims q db =
      (claim q db ≡ (none, db))
      ⊎ ((r : Run) × (find_run r.run_id db.runs ≡ some r)
          × (is_available db r ≡ true)
          × (claim q db
              ≡ (some (with_status RunStatus.running r, attempt_of db r.run_id), take_run r db)))

  pub claim_cases : (q : Run) (db : Db S) → Claims q db
  unfolding claim
  claim_cases q db = elim (Option-cases (find_run q.run_id db.runs)) [
    | inl missing ↦ inl (rw (missing, claim) refl)
    | inr (r, found) ↦ elim (Bool-cases (is_available db r)) [
      | inr not_now ↦ inl (rw (found, claim, not_now) refl)
      | inl free ↦ inr (
        r,
        ap (λ i. find_run i db.runs) (find_run-id q.run_id db.runs r found) ∙ found,
        free,
        rw (found, claim, free) refl,
      )
    ]
  ]

  pub available_fields :
      (db : Db S) (r : Run)
      → is_available db r ≡ true
      → (is_pending r.status ≡ true)
        × (has_running_run r.thread_id db.runs ≡ false)
        × ((t : Thread) × (find_thread r.thread_id db.threads ≡ some t))
  available_fields db r h = ground arith

  claim-Exclusive : (q : Run) (db : Db S) → Exclusive db.runs → Exclusive (claim q db).1.runs
  claim-Exclusive q db e = elim (claim_cases q db) [
    | inl same ↦ rw same e
    | inr (r, found, free, taken) ↦ rw taken (
        unfold take_run in
        start-Exclusive r.run_id db.runs r found (available_fields db r free).1 e)
  ]

  claim_all-Exclusive :
      (qs : List Run) (db : Db S) → Exclusive db.runs → Exclusive (claim_all qs db).1.runs
  unfolding claim_all
  claim_all-Exclusive [] db e = e
  claim_all-Exclusive (q ∷ qs) db e = claim_all-Exclusive qs (claim q db).1 (claim-Exclusive q db e)

  -- A thread that has a running run keeps one, and gets no other.
  running-claim :
      (k : ℕ) (q : Run) (db : Db S)
      → has_running_run k db.runs ≡ true
      → has_running_run k (claim q db).1.runs ≡ true
  running-claim k q db h = elim (claim_cases q db) [
    | inl same ↦ rw same h
    | inr (r, found, free, taken) ↦
        rw taken (unfold take_run in rw (has_running_run-start r.run_id k db.runs r found, h) refl)
  ]

  add_not_yielded :
      (k : ℕ) (q : Run) (db : Db S) (ys : List (Run × ℕ))
      → has_running_run k db.runs ≡ true
      → All (λ y. y.0.thread_id ≢ k) ys
      → All (λ y. y.0.thread_id ≢ k) (add_yield (claim q db).0 ys)
  add_not_yielded k q db ys h rest = elim (claim_cases q db) [
    | inl same ↦ rw same rest
    | inr (r, found, free, taken) ↦ rw taken (
      (λ on. cc (ap (λ i. has_running_run i db.runs) on, (available_fields db r free).1, h)),
      rest,
    )
  ]

  not_yielded :
      (k : ℕ) (qs : List Run) (db : Db S)
      → has_running_run k db.runs ≡ true
      → All (λ y. y.0.thread_id ≢ k) (claim_all qs db).0
  unfolding claim_all
  not_yielded k [] db h = tt
  not_yielded k (q ∷ qs) db h =
      add_not_yielded k q db (claim_all qs (claim q db).1).0 h
        (not_yielded k qs (claim q db).1 (running-claim k q db h))

  -- What was idle after a claim was idle before it.
  idle_before :
      (k : ℕ) (q : Run) (db : Db S)
      → has_running_run k (claim q db).1.runs ≡ false
      → has_running_run k db.runs ≡ false
  idle_before k q db h = elim (Bool-cases (has_running_run k db.runs)) [
    | inr idle ↦ idle
    | inl busy ↦ cc (running-claim k q db busy)
  ]

  IsStarted-before :
      (q : Run) (db : Db S) (ys : List (Run × ℕ))
      → All (IsStarted (claim q db).1) ys
      → All (IsStarted db) ys
  IsStarted-before q db [] v = tt
  IsStarted-before q db (y ∷ ys) v = (
    record {
      running = v.0.running;
      thread = v.0.thread;
      is_there = ap (find_thread y.0.thread_id) (sym (threads-claim q db)) ∙ v.0.is_there;
      was_idle = idle_before y.0.thread_id q db v.0.was_idle;
    },
    IsStarted-before q db ys v.1,
  )

  add-IsStarted :
      (q : Run) (db : Db S) (ys : List (Run × ℕ))
      → All (IsStarted db) ys
      → All (IsStarted db) (add_yield (claim q db).0 ys)
  add-IsStarted q db ys v = elim (claim_cases q db) [
    | inl same ↦ rw same v
    | inr (r, found, free, taken) ↦
        let (pending, idle, (t, there)) = available_fields db r free in
        rw taken (record { running = refl; thread = t; is_there = there; was_idle = idle }, v)
  ]

  add-OfApartThreads :
      (q : Run) (qs : List Run) (db : Db S)
      → OfApartThreads (claim_all qs (claim q db).1).0
      → OfApartThreads (add_yield (claim q db).0 (claim_all qs (claim q db).1).0)
  add-OfApartThreads q qs db v = elim (claim_cases q db) [
    | inl same ↦ rw same (rw same at v)
    | inr (r, found, free, taken) ↦ rw taken (
      not_yielded r.thread_id qs (take_run r db) (
          unfold take_run in
          rw (has_running_run-start r.run_id r.thread_id db.runs r found) (ground arith)),
      rw taken at v,
    )
  ]

  claim_all_starts :
      (qs : List Run) (db : Db S)
      → All (IsStarted db) (claim_all qs db).0
        × OfApartThreads (claim_all qs db).0
        × (length (claim_all qs db).0 ≤ length qs)
  unfolding claim_all
  claim_all_starts [] db = (tt, tt, omega arith)
  claim_all_starts (q ∷ qs) db =
      let (started, apart, short) = claim_all_starts qs (claim q db).1 in
      (
        add-IsStarted q db _ (IsStarted-before q db _ started),
        add-OfApartThreads q qs db apart,
        ground (arith, short),
      )

length-take-le : (n : ℕ) (xs : List Run) → length (take n xs) ≤ n
length-take-le zero xs = omega arith
length-take-le (suc n) [] = omega arith
length-take-le (suc n) (x ∷ xs) = omega (arith, length-take-le n xs)

-- Mutual exclusion: if at most one run of each thread is running before `Runs.next`, this holds after
-- it.
pub next-Exclusive :
    {S : Type 0} (limit now : ℕ) (db : Db S)
    → Exclusive db.runs
    → Exclusive (next limit now db).1.runs
unfolding next
next-Exclusive limit now db e = claim_all-Exclusive _ db e

-- Every run that `Runs.next` yields is set to running, on a thread that is there and had no running
-- run; no two of them are of one thread, and they are no more than the limit.
pub next_starts :
    {S : Type 0} (limit now : ℕ) (db : Db S)
    → All (IsStarted db) (next limit now db).0
      × OfApartThreads (next limit now db).0
      × (length (next limit now db).0 ≤ limit)
unfolding next
next_starts limit now db =
    let (started, apart, short) = claim_all_starts (take limit (pending_runs now db.runs)) db in
    (started, apart, omega (arith, short, length-take-le limit (pending_runs now db.runs)))
