-- ===== src/Ops/Runs/Queue.antt =====
-- The queue of `Runs.next`, and that no run behind blocked ones is taken.
use langgraph_runtime_inmem.Prelude.{
  ℕ, zero, suc, ◌≤◌, ◌<◌, ◌∙◌, ◌==◌, ltb, ◌≡◌, false, Bool, refl, true, ◌&&◌, none, some, List, [],
  ◌∷◌, nat_eq, arith, All, All-keep, keep-All, keep, take, Bool-cases, inl, inr,
}
use langgraph_runtime_inmem.Dict.{get_or}
use langgraph_runtime_inmem.Ops.State.{Run, RunStatus, Db, is_pending, has_running_run}
use langgraph_runtime_inmem.Ops.Runs.{
  find_run, is_due, claim, claim_all, next, created_le, insert_run, sort_runs, pending_runs,
}

abbrev pub UniqueRuns : List Run → Type 0
UniqueRuns [] = Unit
UniqueRuns (r ∷ rs) = (find_run r.run_id rs ≡ none) × UniqueRuns rs

abbrev pub IsFound : List Run → Run → Type 0
IsFound rs r = find_run r.run_id rs ≡ some r

IsFound-behind :
    (x : Run) (rs qs : List Run)
    → find_run x.run_id rs ≡ none
    → All (IsFound rs) qs
    → All (IsFound (x ∷ rs)) qs
unfolding find_run
IsFound-behind x rs [] h v = tt
IsFound-behind x rs (q ∷ qs) h v = (ground (arith, v.0), IsFound-behind x rs qs h v.1)

pub All-IsFound : (rs : List Run) → UniqueRuns rs → All (IsFound rs) rs
All-IsFound [] u = tt
All-IsFound (r ∷ rs) u =
    (unfold find_run in ground arith, IsFound-behind r rs rs u.0 (All-IsFound rs u.1))

module _ {κ} (P : Run → Type κ) where
  pub All-insert_run : (r : Run) (rs : List Run) → P r → All P rs → All P (insert_run r rs)
  unfolding insert_run
  All-insert_run r [] p ps = (p, tt)
  All-insert_run r (s ∷ ss) p ps = elim (Bool-cases (created_le r s)) [
    | inl before ↦ rw before (p, ps)
    | inr after ↦ rw after (ps.0, All-insert_run r ss p ps.1)
  ]

  pub All-sort_runs : (rs : List Run) → All P rs → All P (sort_runs rs)
  unfolding sort_runs
  All-sort_runs [] ps = tt
  All-sort_runs (r ∷ rs) ps = All-insert_run r (sort_runs rs) ps.0 (All-sort_runs rs ps.1)

pending-IsFound : (now : ℕ) (rs : List Run) → UniqueRuns rs → All (IsFound rs) (pending_runs now rs)
unfolding pending_runs
pending-IsFound now rs u =
    All-sort_runs (IsFound rs) _ (All-keep (IsFound rs) _ rs (All-IsFound rs u))

-- The thread of the run has a running run.
abbrev pub IsBlocked : {S : Type 0} → Db S → Run → Type 0
IsBlocked db q = has_running_run q.thread_id db.runs ≡ true

module _ {S : Type 0} where
  claim_blocked :
      (q : Run) (db : Db S) → IsFound db.runs q → IsBlocked db q → claim q db ≡ (none, db)
  unfolding claim
  claim_blocked q db f b = ground arith

  claim_all_blocked :
      (n : ℕ) (qs : List Run) (db : Db S)
      → All (IsFound db.runs) qs
      → All (IsBlocked db) (take n qs)
      → claim_all (take n qs) db ≡ ([], db)
  unfolding claim_all
  claim_all_blocked zero qs db f b = refl
  claim_all_blocked (suc n) [] db f b = refl
  claim_all_blocked (suc n) (q ∷ qs) db f b =
      rw (claim_blocked q db f.0 b.0, claim_all_blocked n qs db f.1 b.1) refl

-- Where run identifiers are unique: when the threads of the oldest `limit` due pending runs all have a
-- running run, `Runs.next` yields nothing and changes nothing, whatever runs are pending behind them.
pub next_blocked :
    {S : Type 0} (limit now : ℕ) (db : Db S)
    → UniqueRuns db.runs
    → All (IsBlocked db) (take limit (pending_runs now db.runs))
    → next limit now db ≡ ([], db)
unfolding next
next_blocked limit now db u b =
    claim_all_blocked limit (pending_runs now db.runs) db (pending-IsFound now db.runs u) b

abbrev pub time : Run → ℕ
time r = get_or r.created_at 0

-- No run stands before an older one.
abbrev pub IsOldestFirst : List Run → Type 0
IsOldestFirst [] = Unit
IsOldestFirst (r ∷ rs) = All (λ s. time r ≤ time s) rs × IsOldestFirst rs

All-time_le :
    (r s : Run) (ss : List Run)
    → time r ≤ time s
    → All (λ t. time s ≤ time t) ss
    → All (λ t. time r ≤ time t) ss
All-time_le r s [] p q = tt
All-time_le r s (t ∷ ts) p q = (omega (arith, p, q.0), All-time_le r s ts p q.1)

insert-IsOldestFirst :
    (r : Run) (rs : List Run) → IsOldestFirst rs → IsOldestFirst (insert_run r rs)
unfolding insert_run
insert-IsOldestFirst r [] v = (tt, tt)
insert-IsOldestFirst r (s ∷ ss) v = elim (Bool-cases (created_le r s)) [
  | inl before ↦
      let le : time r ≤ time s = ground (arith, before) in
      rw before ((le, All-time_le r s ss le v.0), v)
  | inr after ↦ rw after (
    All-insert_run (λ t. time s ≤ time t) r ss (ground (arith, after)) v.0,
    insert-IsOldestFirst r ss v.1,
  )
]

sort-IsOldestFirst : (rs : List Run) → IsOldestFirst (sort_runs rs)
unfolding sort_runs
sort-IsOldestFirst [] = tt
sort-IsOldestFirst (r ∷ rs) = insert-IsOldestFirst r (sort_runs rs) (sort-IsOldestFirst rs)

-- A pending run that was created before `now`.
abbrev pub IsWaiting : ℕ → Run → Type 0
IsWaiting now r =
    (r.status ≡ RunStatus.pending) × (created : ℕ) × (r.created_at ≡ some created) × (created < now)

-- A pending run that was created at `t`, before `now`.
abbrev pub waits : ℕ → ℕ → Run → Bool
waits now t r = elim r.created_at [
  | none ↦ false
  | some created ↦
      created == t && ltb created now && elim r.status [ RunStatus.pending ↦ true | _ ↦ false ]
]

keep-insert_run :
    (t : ℕ) (r : Run) (rs : List Run)
    → keep (λ s. time s == t) (insert_run r rs) ≡ keep (λ s. time s == t) (r ∷ rs)
unfolding keep insert_run
keep-insert_run t r [] = refl
keep-insert_run t r (s ∷ ss) = ground (arith, keep-insert_run t r ss)

keep-sort_runs :
    (t : ℕ) (rs : List Run) → keep (λ s. time s == t) (sort_runs rs) ≡ keep (λ s. time s == t) rs
unfolding keep sort_runs
keep-sort_runs t [] = refl
keep-sort_runs t (r ∷ rs) = keep-insert_run t r (sort_runs rs) ∙ ground (arith, keep-sort_runs t rs)

keep-waits :
    (now t : ℕ) (rs : List Run)
    → keep (λ s. time s == t) (keep (λ r. is_pending r.status && is_due now r.created_at) rs)
      ≡ keep (waits now t) rs
unfolding keep
keep-waits now t [] = refl
keep-waits now t (r ∷ rs) = ground (arith, keep-waits now t rs)

All-IsWaiting :
    (now : ℕ) (rs : List Run)
    → All (λ r. (is_pending r.status && is_due now r.created_at) ≡ true) rs
    → All (IsWaiting now) rs
All-IsWaiting now [] v = tt
All-IsWaiting now (r ∷ rs) v = (waiting r v.0, All-IsWaiting now rs v.1)
  where
    waiting : (r : Run) → (is_pending r.status && is_due now r.created_at) ≡ true → IsWaiting now r
    waiting r h = ground (arith, h)

-- The queue that `Runs.next` walks holds only pending runs that were created before the time of the
-- call, the older ones first; and of those created at one time it holds all such runs of the table,
-- in the order of the table.
pub pending_runs_lem :
    (now t : ℕ) (rs : List Run)
    → All (IsWaiting now) (pending_runs now rs)
      × IsOldestFirst (pending_runs now rs)
      × (keep (λ r. time r == t) (pending_runs now rs) ≡ keep (waits now t) rs)
unfolding pending_runs
pending_runs_lem now t rs =
    let due = keep (λ r. is_pending r.status && is_due now r.created_at) rs in
    (
      All-IsWaiting now (sort_runs due) (All-sort_runs _ due (keep-All _ rs)),
      sort-IsOldestFirst due,
      keep-sort_runs t due ∙ keep-waits now t rs,
    )
