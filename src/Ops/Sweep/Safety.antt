-- ===== src/Ops/Sweep/Safety.antt =====
-- What a sweep leaves alone.
use langgraph_runtime_inmem.Prelude.{
  ℕ, ◌+◌, ◌<◌, ◌≡◌, ◌≢◌, ap, sym, ◌∙◌, true, Option, some, List, [], ◌∷◌, nat_eq, arith, Result, ok,
  All, Bool-cases, Result-cases, inl, inr, ◌⊎◌,
}
use langgraph_runtime_inmem.Prelude.Int.{ℤ}
use langgraph_runtime_inmem.Ops.State.{
  Thread, Db, Checkpointer, TtlState, find_thread, has_active_runs,
}
use langgraph_runtime_inmem.Ops.State.Tables.{UniqueIds}
use langgraph_runtime_inmem.Ops.Ttl.{TtlConfig, TtlPolicy, effective_thread_ttl}
use langgraph_runtime_inmem.Ops.Sweep.{
  Expired, sweep_selected, select, sweep_ttl, is_disabled, effective_limit,
}
use langgraph_runtime_inmem.Ops.Sweep.Selection.{IsEligible, select-IsEligible}
use langgraph_runtime_inmem.Ops.Sweep.Steps.{Untouched, Untouched-refl, batches-Untouched}

same_minutes :
    {p q : TtlPolicy} {s u : TtlState}
    → ◌≡◌ {A = Result (Option TtlPolicy × TtlState)} (ok (some p, s)) (ok (some q, u))
    → p.ttl_minutes ≡ q.ttl_minutes
same_minutes h = ground arith

same_time : {t u : Thread} → some t ≡ some u → t.updated_at ≡ u.updated_at
same_time h = ground arith

module _ {S : Type 0} where
  -- A sweep with no limit below 1 keeps to what it selects.
  module _ (cp : Checkpointer S) (global : Option TtlConfig) (configured limit : Option ℤ)
      (batch_size now : ℕ) (db : Db S) where
    sweep_ttl-Untouched :
        (k : ℕ)
        → ((xs : List Expired)
            → select global (effective_limit limit configured) now db ≡ ok xs
            → All (λ x. x.thread_id ≢ k) xs)
        → Untouched k db (sweep_ttl cp global configured limit batch_size now db).1
    unfolding sweep_ttl sweep_selected
    sweep_ttl-Untouched k h = elim (Bool-cases (is_disabled limit)) [
      | inl off ↦ rw (off, sweep_ttl) (Untouched-refl k db)
      | inr on ↦ elim (Result-cases (select global (effective_limit limit configured) now db)) [
        | inr (e, raised) ↦ rw (on, raised, sweep_ttl) (Untouched-refl k db)
        | inl (xs, chosen) ↦
            rw (on, chosen, sweep_ttl) (batches-Untouched cp k _ _ _ xs (h xs chosen))
      ]
    ]

  -- No entry of an eligible list is that of an active thread, nor that of a thread that has not expired.
  spared_active :
      (global : Option TtlConfig) (now : ℕ) (db : Db S) (ts : List Thread) (k : ℕ)
      (xs : List Expired)
      → has_active_runs k db.runs ≡ true
      → All (IsEligible global now db ts) xs
      → All (λ x. x.thread_id ≢ k) xs
  spared_active global now db ts k [] a v = tt
  spared_active global now db ts k (x ∷ xs) a v = (
    λ same. cc (ap (λ i. has_active_runs i db.runs) same, v.0.inactive),
    spared_active global now db ts k xs a v.1,
  )

  spared_unexpired :
      (global : Option TtlConfig) (now : ℕ) (db : Db S) (ts : List Thread) (k : ℕ)
      (xs : List Expired) (t : Thread) (policy : TtlPolicy) (state : TtlState)
      → find_thread k ts ≡ some t
      → effective_thread_ttl global db.thread_ttls k ≡ ok (some policy, state)
      → now < t.updated_at + policy.ttl_minutes
      → All (IsEligible global now db ts) xs
      → All (λ x. x.thread_id ≢ k) xs
  spared_unexpired global now db ts k [] t policy state f e late v = tt
  spared_unexpired global now db ts k (x ∷ xs) t policy state f e late v = (
    λ same.
        let there = rw same at v.0.is_there in
        let eff = rw same at v.0.effective in
        omega (
          arith,
          same_minutes (sym eff ∙ e),
          same_time (sym there ∙ f),
          v.0.same_update,
          v.0.expiry,
          v.0.expired,
        ),
    spared_unexpired global now db ts k xs t policy state f e late v.1,
  )

-- Where the identifiers of the threads are unique, a sweep leaves two kinds of threads alone, with
-- their runs, crons and TTL records, whatever the limit and the batch size: a thread that has a pending
-- or running run, whether or not a policy applies to it, and a thread whose last update and effective
-- policy put its expiry after the time of the sweep.
pub sweep_ttl_spares :
    {S : Type 0} (cp : Checkpointer S) (global : Option TtlConfig) (configured limit : Option ℤ)
    (batch_size now k : ℕ) (db : Db S)
    → UniqueIds db.threads
    → (has_active_runs k db.runs ≡ true)
      ⊎ (t : Thread) × (policy : TtlPolicy) × (state : TtlState) × (find_thread k db.threads
          ≡ some t)
        × (effective_thread_ttl global db.thread_ttls k ≡ ok (some policy, state))
        × (now < t.updated_at + policy.ttl_minutes)
    → Untouched k db (sweep_ttl cp global configured limit batch_size now db).1
sweep_ttl_spares cp global configured limit batch_size now k db u (inl active) =
    sweep_ttl-Untouched cp global configured limit batch_size now db k λ xs chosen.
      spared_active global now db db.threads k xs active
        (select-IsEligible global _ now db xs u chosen)
sweep_ttl_spares cp global configured limit batch_size now k db u
      (inr (t, policy, state, f, e, late)) =
    sweep_ttl-Untouched cp global configured limit batch_size now db k λ xs chosen.
      spared_unexpired global now db db.threads k xs t policy state f e late
        (select-IsEligible global _ now db xs u chosen)
