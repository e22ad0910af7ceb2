-- ===== src/Ops/Sweep/Selection.antt =====
-- Which threads a sweep selects, and in which order.
use langgraph_runtime_inmem.Prelude.{
  ℕ, zero, suc, ◌+◌, ◌≤◌, ◌≡◌, false, Option, none, some, List, [], ◌∷◌, nat_eq, arith, ok, All,
  take, Bool-cases, Result-cases, ok-injective, >>=-eq-ok, inl, inr, sym,
}
use langgraph_runtime_inmem.Prelude.Int.{ℤ, pos_part}
use langgraph_runtime_inmem.Ops.State.{Thread, Db, TtlState, find_thread, has_active_runs}
use langgraph_runtime_inmem.Ops.State.Tables.{UniqueIds}
use langgraph_runtime_inmem.Ops.Ttl.{TtlConfig, TtlPolicy, effective_thread_ttl}
use langgraph_runtime_inmem.Ops.Sweep.{
  Expired, is_marked, expired_entry, add_entry, candidate, scan, entry_le, insert_entry,
  sort_entries, limited, select,
}

module _ {S : Type 0} (global : Option TtlConfig) (now : ℕ) (db : Db S) where
  -- The entry is that of a thread of the list, which has no active run, has expired by its effective
  -- policy, and was not pruned since its last update.
  pub record IsEligible (ts : List Thread) (x : Expired) : Type 0 where
    pub thread : Thread
    pub is_there : find_thread x.thread_id ts ≡ some thread
    pub same_update : thread.updated_at ≡ x.updated_at
    pub inactive : has_active_runs x.thread_id db.runs ≡ false
    pub effective :
        effective_thread_ttl global db.thread_ttls x.thread_id ≡ ok (some x.policy, x.state)
    pub unmarked : is_marked x.policy x.state x.updated_at ≡ false
    pub expiry : x.expires_at ≡ x.updated_at + x.policy.ttl_minutes
    pub expired : x.expires_at ≤ now

  expired_entry_fields :
      (t : Thread) (policy : TtlPolicy) (state : TtlState) (x : Expired)
      → expired_entry now t (some policy, state) ≡ ok (some x)
      → (x.thread_id ≡ t.thread_id)
        × (x.policy ≡ policy)
        × (x.state ≡ state)
        × (x.updated_at ≡ t.updated_at)
        × (is_marked policy state t.updated_at ≡ false)
        × (x.expires_at ≡ t.updated_at + policy.ttl_minutes)
        × (x.expires_at ≤ now)
  unfolding expired_entry
  expired_entry_fields t policy state x h = ground arith

  expired_entry-IsEligible :
      (t : Thread) (ts : List Thread) (found : Option TtlPolicy × TtlState) (x : Expired)
      → has_active_runs t.thread_id db.runs ≡ false
      → effective_thread_ttl global db.thread_ttls t.thread_id ≡ ok found
      → expired_entry now t found ≡ ok (some x)
      → IsEligible (t ∷ ts) x
  expired_entry-IsEligible t ts (none, state) x i e h = unfold expired_entry in cc
  expired_entry-IsEligible t ts (some policy, state) x i e h =
      let (a, b, c, d, m, y, z) = expired_entry_fields t policy state x h in
      record {
        thread = t;
        is_there = rw a (unfold find_thread in ground arith);
        same_update = sym d;
        inactive = rw a i;
        effective = rw (a, b, c) e;
        unmarked = rw (b, c, d) m;
        expiry = rw (b, d) y;
        expired = z;
      }

  -- An entry of the rest of the list, behind a thread with another identifier.
  IsEligible-cons :
      (t : Thread) (ts : List Thread) (x : Expired)
      → find_thread t.thread_id ts ≡ none
      → IsEligible ts x
      → IsEligible (t ∷ ts) x
  unfolding find_thread
  IsEligible-cons t ts x fresh v = record {
    thread = v.thread;
    is_there = ground (arith, v.is_there);
    same_update = v.same_update;
    inactive = v.inactive;
    effective = v.effective;
    unmarked = v.unmarked;
    expiry = v.expiry;
    expired = v.expired;
  }

  All-cons_IsEligible :
      (t : Thread) (ts : List Thread) (xs : List Expired)
      → find_thread t.thread_id ts ≡ none
      → All (IsEligible ts) xs
      → All (IsEligible (t ∷ ts)) xs
  All-cons_IsEligible t ts [] fresh v = tt
  All-cons_IsEligible t ts (x ∷ xs) fresh v =
      (IsEligible-cons t ts x fresh v.0, All-cons_IsEligible t ts xs fresh v.1)

  pub candidate-id :
      (t : Thread) (x : Expired)
      → candidate global now db t ≡ ok (some x)
      → x.thread_id ≡ t.thread_id
  unfolding candidate expired_entry
  candidate-id t x h = ground arith

  candidate-IsEligible :
      (t : Thread) (ts : List Thread) (x : Expired)
      → candidate global now db t ≡ ok (some x)
      → IsEligible (t ∷ ts) x
  unfolding candidate
  candidate-IsEligible t ts x h = elim (Bool-cases (has_active_runs t.thread_id db.runs)) [
    | inl active ↦ cc (rw (active, candidate) at h)
    | inr idle ↦ elim (Result-cases (effective_thread_ttl global db.thread_ttls t.thread_id)) [
      | inr (e, raised) ↦ cc (rw (idle, raised, candidate) at h)
      | inl (found, answered) ↦
          expired_entry-IsEligible t ts found x idle answered (rw (idle, answered, candidate) at h)
    ]
  ]

  add_entry-IsEligible :
      (t : Thread) (ts : List Thread) (entry : Option Expired) (xs : List Expired)
      → candidate global now db t ≡ ok entry
      → All (IsEligible (t ∷ ts)) xs
      → All (IsEligible (t ∷ ts)) (add_entry entry xs)
  add_entry-IsEligible t ts none xs c v = v
  add_entry-IsEligible t ts (some x) xs c v = (candidate-IsEligible t ts x c, v)

  -- Where identifiers are unique, everything that a scan finds is eligible.
  pub scan-IsEligible :
      (ts : List Thread) (xs : List Expired)
      → UniqueIds ts
      → scan global now db ts ≡ ok xs
      → All (IsEligible ts) xs
  unfolding scan
  scan-IsEligible [] xs u h = rw (← ok-injective h) tt
  scan-IsEligible (t ∷ ts) xs u h =
      let (entry, c, more) = >>=-eq-ok (candidate global now db t) _ h in
      let (rest, r, same) = >>=-eq-ok (scan global now db ts) _ more in
      rw (← ok-injective same) (
        add_entry-IsEligible t ts entry rest c
          (All-cons_IsEligible t ts rest u.0 (scan-IsEligible ts rest u.1 r)))

-- Sorting moves entries about, and cutting drops some.
module _ {κ} (P : Expired → Type κ) where
  pub All-insert : (x : Expired) (xs : List Expired) → P x → All P xs → All P (insert_entry x xs)
  unfolding insert_entry
  All-insert x [] p ps = (p, tt)
  All-insert x (y ∷ ys) p ps = elim (Bool-cases (entry_le x y)) [
    | inl before ↦ rw before (p, ps)
    | inr after ↦ rw after (ps.0, All-insert x ys p ps.1)
  ]

  pub All-sort : (xs : List Expired) → All P xs → All P (sort_entries xs)
  unfolding sort_entries
  All-sort [] ps = tt
  All-sort (x ∷ xs) ps = All-insert x (sort_entries xs) ps.0 (All-sort xs ps.1)

  pub All-take : (n : ℕ) (xs : List Expired) → All P xs → All P (take n xs)
  All-take zero xs ps = tt
  All-take (suc n) [] ps = tt
  All-take (suc n) (x ∷ xs) ps = (ps.0, All-take n xs ps.1)

  pub All-limited : (limit : Option ℤ) (xs : List Expired) → All P xs → All P (limited limit xs)
  All-limited none xs ps = ps
  All-limited (some limit) xs ps = All-take (pos_part limit) xs ps

-- Where the identifiers of the threads are unique, every entry that a sweep selects is that of a
-- thread in the table with no pending or running run, which has expired by its effective policy and
-- was not pruned since its last update.
pub select-IsEligible :
    {S : Type 0} (global : Option TtlConfig) (limit : Option ℤ) (now : ℕ) (db : Db S)
    (xs : List Expired)
    → UniqueIds db.threads
    → select global limit now db ≡ ok xs
    → All (IsEligible global now db db.threads) xs
unfolding select
select-IsEligible global limit now db xs u h =
    let (found, s, same) = >>=-eq-ok (scan global now db db.threads) _ h in
    rw (← ok-injective same) (
      All-limited _ limit _ (All-sort _ found (scan-IsEligible global now db db.threads found u s)))
