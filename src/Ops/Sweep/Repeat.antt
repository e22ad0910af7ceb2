-- ===== src/Ops/Sweep/Repeat.antt =====
-- A thread that a sweep has settled is not selected again while nothing changes.
use langgraph_runtime_inmem.Prelude.{
  ℕ, ◌≡◌, ◌≢◌, refl, ap, sym, ◌∙◌, true, false, none, Option, some, List, [], ◌∷◌, arith, Result,
  ok, ok-injective, >>=-eq-ok, nat_eq, All, Bool-cases, Option-cases, inl, inr,
}
use langgraph_runtime_inmem.Prelude.Int.{ℤ}
use langgraph_runtime_inmem.Dict
use langgraph_runtime_inmem.Ops.State.{Thread, Db, Checkpointer, TtlState, find_thread}
use langgraph_runtime_inmem.Ops.State.Tables.{UniqueIds, pop-UniqueIds}
use langgraph_runtime_inmem.Ops.Ttl.{
  TtlConfig, TtlPolicy, policy_of_state, effective_thread_ttl, ttl_state,
}
use langgraph_runtime_inmem.Ops.Threads.{drop_thread_rows}
use langgraph_runtime_inmem.Ops.Sweep.{
  Expired, Progress, is_kept, is_marked, mark_swept, process, process_all, select, sweep_ttl,
  is_disabled, effective_limit,
}
use langgraph_runtime_inmem.Ops.Sweep.Selection.{IsEligible, select-IsEligible}
use langgraph_runtime_inmem.Ops.Sweep.Entries.{
  Returns, process_kept, process_missing, process_found,
}
use langgraph_runtime_inmem.Ops.Sweep.Batches.{
  no_saver, tables, erase-sweep_selected, process-returns,
}
use langgraph_runtime_inmem.Ops.Sweep.Effect.{Settled, sweep_ttl_settles}

-- The TTL record that a sweep leaves for a thread that it keeps.
abbrev pub marked : Expired → TtlState
marked x = record x.state { last_swept_updated_at = some x.updated_at }

policy-marked :
    (global : Option TtlConfig) (x : Expired)
    → policy_of_state global (marked x) ≡ policy_of_state global x.state
unfolding policy_of_state
policy-marked global x = refl

-- A thread whose policy a sweep read has the policy of the state that the sweep read with it.
effective-policy :
    (global : Option TtlConfig) (ttls : Dict.Dict ℕ TtlState) (id : ℕ) (p : Option TtlPolicy)
    (s : TtlState)
    → effective_thread_ttl global ttls id ≡ ok (p, s)
    → policy_of_state global s ≡ ok p
unfolding effective_thread_ttl
effective-policy global ttls id p s h =
    let (c, e, m) = >>=-eq-ok (policy_of_state global (ttl_state ttls id)) _ h in
    let same = ok-injective m in
    rw
      (
        ap (λ (q : Option TtlPolicy × TtlState). q.1) same,
        ap (λ (q : Option TtlPolicy × TtlState). q.0) same,
      )
      at e

effective-marked :
    (global : Option TtlConfig) (before after : Dict.Dict ℕ TtlState) (x : Expired)
    → effective_thread_ttl global before x.thread_id ≡ ok (some x.policy, x.state)
    → Dict.get x.thread_id after ≡ some (marked x)
    → effective_thread_ttl global after x.thread_id ≡ ok (some x.policy, marked x)
unfolding effective_thread_ttl
effective-marked global before after x e found =
    let p = effective-policy global before x.thread_id (some x.policy) x.state e in
    rw (found, policy-marked global x, p) refl

same_record :
    {p q : TtlPolicy} {s u : TtlState}
    → ◌≡◌ {A = Result (Option TtlPolicy × TtlState)} (ok (some p, s)) (ok (some q, u))
    → (p ≡ q) × (s ≡ u)
same_record h = ground arith

same_row : {t u : Thread} → some t ≡ some u → t ≡ u
same_row h = ground arith

marked-is_marked :
    (x : Expired) → is_kept x ≡ true → is_marked x.policy (marked x) x.updated_at ≡ true
marked-is_marked x kept = rw kept (ground arith)

module _ {S : Type 0} where
  -- An entry that a sweep settled is not eligible afterwards.
  not_again :
      (global : Option TtlConfig) (now later : ℕ) (db after : Db S) (x y : Expired)
      → IsEligible global now db db.threads x
      → Settled db after x
      → IsEligible global later after after.threads y
      → y.thread_id ≢ x.thread_id
  not_again global now later db after x y v (inr (deleted, gone, runs, crons, ttl)) w same =
      cc (rw same at w.is_there, gone)
  not_again global now later db after x y v (inl (kept, row, ttl)) w same =
      let e = effective-marked global db.thread_ttls after.thread_ttls x v.effective ttl in
      let (p, s) = same_record (sym e ∙ rw same at w.effective) in
      let t = same_row (sym (rw same at w.is_there) ∙ row ∙ v.is_there) in
      let u : y.updated_at ≡ x.updated_at =
        sym w.same_update ∙ ap (λ (t : Thread). t.updated_at) t ∙ v.same_update in
      cc (rw (← p, ← s, u) at w.unmarked, marked-is_marked x kept)

  none_again :
      (global : Option TtlConfig) (now later : ℕ) (db after : Db S) (x : Expired)
      (ys : List Expired)
      → IsEligible global now db db.threads x
      → Settled db after x
      → All (IsEligible global later after after.threads) ys
      → All (λ y. y.thread_id ≢ x.thread_id) ys
  none_again global now later db after x [] v settled w = tt
  none_again global now later db after x (y ∷ ys) v settled w = (
    not_again global now later db after x y v settled w.0,
    none_again global now later db after x ys v settled w.1,
  )

  again_apart :
      (global : Option TtlConfig) (now later : ℕ) (db after : Db S) (xs ys : List Expired)
      → All (IsEligible global now db db.threads) xs
      → All (Settled db after) xs
      → All (IsEligible global later after after.threads) ys
      → All (λ x. All (λ y. y.thread_id ≢ x.thread_id) ys) xs
  again_apart global now later db after [] ys v settled w = tt
  again_apart global now later db after (x ∷ xs) ys v settled w = (
    none_again global now later db after x ys v.0 settled.0 w,
    again_apart global now later db after xs ys v.1 settled.1 w,
  )

  module _ (cp : Checkpointer S) (returns : Returns cp) where
    process-UniqueIds :
        (p : Progress S) (x : Expired)
        → p.raised ≡ none
        → UniqueIds p.db.threads
        → UniqueIds (process cp p x).db.threads
    process-UniqueIds p x on u = elim (Bool-cases (is_kept x)) [
      | inl kept ↦ rw (process_kept cp p x on kept) (unfold mark_swept in u)
      | inr gone ↦ elim (Option-cases (find_thread x.thread_id p.db.threads)) [
        | inl missing ↦ rw (process_missing cp p x on gone missing) u
        | inr (t, found) ↦
            rw (process_found cp p x t on gone found (returns x.thread_id p.db.saver))
              (unfold drop_thread_rows in pop-UniqueIds x.thread_id p.db.threads u)
      ]
    ]

    process_all-UniqueIds :
        (p : Progress S) (xs : List Expired)
        → p.raised ≡ none
        → UniqueIds p.db.threads
        → UniqueIds (process_all cp p xs).db.threads
    unfolding process_all
    process_all-UniqueIds p [] on u = u
    process_all-UniqueIds p (x ∷ xs) on u =
        process_all-UniqueIds (process cp p x) xs (process-returns cp returns p x on)
          (process-UniqueIds p x on u)

sweep-UniqueIds :
    {S : Type 0} (cp : Checkpointer S) (global : Option TtlConfig) (configured limit : Option ℤ)
    (batch_size now : ℕ) (db : Db S) (xs : List Expired)
    → Returns cp
    → UniqueIds db.threads
    → is_disabled limit ≡ false
    → select global (effective_limit limit configured) now db ≡ ok xs
    → UniqueIds (sweep_ttl cp global configured limit batch_size now db).1.threads
unfolding sweep_ttl
sweep-UniqueIds cp global configured limit batch_size now db xs returns u on chosen =
    let start : Progress Unit = record {
      db = tables db;
      processed = 0;
      deleted = 0;
      raised = none;
    } in
    let kept = process_all-UniqueIds no_saver (λ id s. refl) start xs refl u in
    let e = erase-sweep_selected cp returns batch_size db xs in
    rw (on, chosen, sweep_ttl) (rw (← e) at kept)

-- Where the checkpointer's deletions return, the identifiers of the threads are unique and the limit of
-- the first sweep is not below 1: whenever the next sweep comes, and whatever its limit, it selects none of the threads that the
-- first one swept, if nothing else has changed the tables in between. This holds of the threads
-- that were pruned under `keep_latest` as of those that were deleted.
pub swept_not_selected :
    {S : Type 0} (cp : Checkpointer S) (global : Option TtlConfig)
    (configured limit again : Option ℤ) (batch_size now later : ℕ) (db : Db S)
    (xs ys : List Expired)
    → Returns cp
    → UniqueIds db.threads
    → is_disabled limit ≡ false
    → select global (effective_limit limit configured) now db ≡ ok xs
    → select global again later (sweep_ttl cp global configured limit batch_size now db).1 ≡ ok ys
    → All (λ x. All (λ y. y.thread_id ≢ x.thread_id) ys) xs
swept_not_selected cp global configured limit again batch_size now later db xs ys returns u on
      chosen next =
    let after = (sweep_ttl cp global configured limit batch_size now db).1 in
    let u' = sweep-UniqueIds cp global configured limit batch_size now db xs returns u on chosen in
    let settled =
      (sweep_ttl_settles cp global configured limit batch_size now db xs returns u on chosen).1 in
    again_apart global now later db after xs ys (select-IsEligible global _ now db xs u chosen)
      settled (select-IsEligible global again later after ys u' next)
