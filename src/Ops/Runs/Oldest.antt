-- ===== src/Ops/Runs/Oldest.antt =====
-- What `Runs.next` yields first.
use langgraph_runtime_inmem.Prelude.{
  ℕ, suc, ◌≤◌, ◌<◌, ◌≡◌, ◌≢◌, refl, true, false, ◌&&◌, none, some, List, [], ◌∷◌, nat_eq, arith, ap,
  ◌==◌, ◌+◌, All, keep, take, Bool-cases, inl, inr, ◌⊎◌,
}
use langgraph_runtime_inmem.Dict.{get, get_or}
use langgraph_runtime_inmem.Ops.State.{
  Thread, Run, RunStatus, Db, is_pending, find_thread, has_running_run,
}
use langgraph_runtime_inmem.Ops.Runs.{
  find_run, is_due, insert_run, sort_runs, pending_runs, claim, claim_all, next, is_available,
}
use langgraph_runtime_inmem.Ops.Runs.Queue.{All-sort_runs, time}

abbrev waiting : ℕ → List Run → List Run
waiting now = keep (λ r. is_pending r.status && is_due now r.created_at)

-- The run is `q`, or it is not pending, or it was created after `q`, or at no time.
abbrev pub IsLater : Run → ℕ → Run → Type 0
IsLater q created r =
    (r ≡ q) ⊎ (r.status ≢ RunStatus.pending) ⊎ (r.created_at ≡ none) ⊎ (created < time r)

module _ (now created : ℕ) (q : Run) (is_pending_q : q.status ≡ RunStatus.pending)
    (made : q.created_at ≡ some created) (due : created < now) where
  insert_first : (rs : List Run) → All (λ r. created ≤ time r) rs → insert_run q rs ≡ q ∷ rs
  unfolding insert_run
  insert_first [] v = refl
  insert_first (r ∷ rs) v = ground (arith, made, v.0)

  later_or_same :
      (r : Run)
      → IsLater q created r
      → (is_pending r.status && is_due now r.created_at) ≡ true
      → created ≤ time r
  later_or_same r later w = ground (arith, made, later, w)

  waiting-later :
      (rs : List Run) → All (IsLater q created) rs → All (λ r. created ≤ time r) (waiting now rs)
  unfolding keep
  waiting-later [] v = tt
  waiting-later (r ∷ rs) v = elim (Bool-cases (is_pending r.status && is_due now r.created_at)) [
    | inl w ↦ rw w (later_or_same r v.0 w, waiting-later rs v.1)
    | inr w ↦ rw w (waiting-later rs v.1)
  ]

  waits_itself : (is_pending q.status && is_due now q.created_at) ≡ true
  waits_itself = rw (is_pending_q, made) (ground (arith, due))

  found_itself :
      (r : Run) (rs : List Run)
      → find_run q.run_id (r ∷ rs) ≡ some q
      → (r.run_id == q.run_id) ≡ true
      → r ≡ q
  unfolding find_run
  found_itself r rs f same = ground (arith, f, same)

  insert_behind :
      (r : Run) (qs : List Run)
      → IsLater q created r
      → (r.run_id == q.run_id) ≡ false
      → (is_pending r.status && is_due now r.created_at) ≡ true
      → insert_run r (q ∷ qs) ≡ q ∷ insert_run r qs
  unfolding insert_run
  insert_behind r qs (inl same) other w =
      absurd (ground (arith, other, ap (λ (x : Run). x.run_id) same))
  insert_behind r qs (inr later) other w = ground (arith, later, w, made)

  first_waiting :
      (rs : List Run)
      → find_run q.run_id rs ≡ some q
      → All (IsLater q created) rs
      → (qs : List Run) × (sort_runs (waiting now rs) ≡ q ∷ qs)
  unfolding find_run keep sort_runs
  first_waiting [] f v = cc
  first_waiting (r ∷ rs) f v = elim (Bool-cases (r.run_id == q.run_id)) [
    | inl same ↦
        let first =
          insert_first (sort_runs (waiting now rs))
            (All-sort_runs (λ r. created ≤ time r) _ (waiting-later rs v.1)) in
        rw (found_itself r rs f same, waits_itself) (sort_runs (waiting now rs), first)
    | inr other ↦
        let (qs, e) = first_waiting rs (rw other at f) v.1 in
        elim (Bool-cases (is_pending r.status && is_due now r.created_at)) [
          | inr w ↦ rw w (qs, e)
          | inl w ↦ rw (w, e) (insert_run r qs, insert_behind r qs v.0 other w)
        ]
  ]

claim_first :
    {S : Type 0} (db : Db S) (q : Run) (t : Thread)
    → find_run q.run_id db.runs ≡ some q
    → q.status ≡ RunStatus.pending
    → find_thread q.thread_id db.threads ≡ some t
    → has_running_run q.thread_id db.runs ≡ false
    → (claim q db).0
      ≡ some (record q { status = RunStatus.running }, get_or (get q.run_id db.retry_counter) 0 + 1)
unfolding claim
claim_first db q t f p there free =
    let a : is_available db q ≡ true = rw (p, there, free) refl in rw (f, claim, a) (ground arith)

-- Where a pending run is in the table under its identifier, was created before the time of the call
-- and before every other pending run with a time of creation, and its thread is there and has no
-- running run: `Runs.next` with a limit of at least 1 yields it first, as running and with the number
-- of its attempt, which is one more than its counter.
pub next_oldest :
    {S : Type 0} (n now created : ℕ) (db : Db S) (q : Run) (t : Thread)
    → find_run q.run_id db.runs ≡ some q
    → q.status ≡ RunStatus.pending
    → q.created_at ≡ some created
    → created < now
    → All (IsLater q created) db.runs
    → find_thread q.thread_id db.threads ≡ some t
    → has_running_run q.thread_id db.runs ≡ false
    → (rest : List (Run × ℕ)) × ((next (suc n) now db).0
        ≡ (record q { status = RunStatus.running }, get_or (get q.run_id db.retry_counter) 0 + 1)
          ∷ rest)
unfolding next claim_all pending_runs
next_oldest n now created db q t f p made due v there free =
    let (qs, e) = first_waiting now created q p made due db.runs f v in
    ((claim_all (take n qs) (claim q db).1).0, rw (e, claim_first db q t f p there free) refl)
