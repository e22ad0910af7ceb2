-- ===== src/Ops/Sweep/Distinct.antt =====
-- A sweep selects no thread twice.
use langgraph_runtime_inmem.Prelude.{
  ℕ, zero, suc, ◌≡◌, ◌≢◌, Option, none, some, List, [], ◌∷◌, ok, All, take, Bool-cases,
  ok-injective, >>=-eq-ok, inl, inr, ap, sym,
}
use langgraph_runtime_inmem.Prelude.Int.{ℤ, pos_part}
use langgraph_runtime_inmem.Ops.State.{Thread, Db, find_thread}
use langgraph_runtime_inmem.Ops.State.Tables.{UniqueIds}
use langgraph_runtime_inmem.Ops.Ttl.{TtlConfig}
use langgraph_runtime_inmem.Ops.Sweep.{
  Expired, add_entry, candidate, scan, entry_le, insert_entry, sort_entries, limited, select,
}
use langgraph_runtime_inmem.Ops.Sweep.Selection.{
  IsEligible, candidate-id, scan-IsEligible, All-insert, All-sort, All-take,
}

-- No two entries are of one thread.
abbrev pub Apart : List Expired → Type 0
Apart [] = Unit
Apart (x ∷ xs) = All (λ y. y.thread_id ≢ x.thread_id) xs × Apart xs

module _ {S : Type 0} (global : Option TtlConfig) (now : ℕ) (db : Db S) where
  fresh_entries :
      (k : ℕ) (ts : List Thread) (xs : List Expired)
      → find_thread k ts ≡ none
      → All (IsEligible global now db ts) xs
      → All (λ y. y.thread_id ≢ k) xs
  fresh_entries k ts [] h v = tt
  fresh_entries k ts (x ∷ xs) h v =
      (λ same. cc (ap (λ i. find_thread i ts) same, v.0.is_there), fresh_entries k ts xs h v.1)

  add_entry-Apart :
      (t : Thread) (ts : List Thread) (entry : Option Expired) (xs : List Expired)
      → find_thread t.thread_id ts ≡ none
      → candidate global now db t ≡ ok entry
      → All (IsEligible global now db ts) xs
      → Apart xs
      → Apart (add_entry entry xs)
  add_entry-Apart t ts none xs u c v a = a
  add_entry-Apart t ts (some x) xs u c v a =
      (fresh_entries x.thread_id ts xs (rw (candidate-id global now db t x c) u) v, a)

  scan-Apart :
      (ts : List Thread) (xs : List Expired)
      → UniqueIds ts
      → scan global now db ts ≡ ok xs
      → Apart xs
  unfolding scan
  scan-Apart [] xs u h = rw (← ok-injective h) tt
  scan-Apart (t ∷ ts) xs u h =
      let (entry, c, more) = >>=-eq-ok (candidate global now db t) _ h in
      let (rest, r, same) = >>=-eq-ok (scan global now db ts) _ more in
      rw (← ok-injective same) (
        add_entry-Apart t ts entry rest u.0 c (scan-IsEligible global now db ts rest u.1 r)
          (scan-Apart ts rest u.1 r))

insert-Apart :
    (x : Expired) (xs : List Expired)
    → All (λ y. y.thread_id ≢ x.thread_id) xs
    → Apart xs
    → Apart (insert_entry x xs)
unfolding insert_entry
insert-Apart x [] h a = (tt, tt)
insert-Apart x (y ∷ ys) h a = elim (Bool-cases (entry_le x y)) [
  | inl before ↦ rw before (h, a)
  | inr after ↦ rw after (
    All-insert (λ z. z.thread_id ≢ y.thread_id) x ys (λ e. h.0 (sym e)) a.0,
    insert-Apart x ys h.1 a.1,
  )
]

sort-Apart : (xs : List Expired) → Apart xs → Apart (sort_entries xs)
unfolding sort_entries
sort-Apart [] a = tt
sort-Apart (x ∷ xs) a = insert-Apart x (sort_entries xs) (All-sort _ xs a.0) (sort-Apart xs a.1)

take-Apart : (n : ℕ) (xs : List Expired) → Apart xs → Apart (take n xs)
take-Apart zero xs a = tt
take-Apart (suc n) [] a = tt
take-Apart (suc n) (x ∷ xs) a = (All-take _ n xs a.0, take-Apart n xs a.1)

limited-Apart : (limit : Option ℤ) (xs : List Expired) → Apart xs → Apart (limited limit xs)
limited-Apart none xs a = a
limited-Apart (some limit) xs a = take-Apart (pos_part limit) xs a

-- Where the identifiers of the threads are unique, a sweep selects no thread twice.
pub select-Apart :
    {S : Type 0} (global : Option TtlConfig) (limit : Option ℤ) (now : ℕ) (db : Db S)
    (xs : List Expired)
    → UniqueIds db.threads
    → select global limit now db ≡ ok xs
    → Apart xs
unfolding select
select-Apart global limit now db xs u h =
    let (found, s, same) = >>=-eq-ok (scan global now db db.threads) _ h in
    rw (← ok-injective same)
      (limited-Apart limit _ (sort-Apart found (scan-Apart global now db db.threads found u s)))
