-- ===== src/Ops/Sweep/Order.antt =====
-- The order in which a sweep takes the threads that it selects.
use langgraph_runtime_inmem.Prelude.{
  ℕ, zero, suc, ◌≤◌, ◌≡◌, refl, ap, true, false, Option, none, some, List, [], ◌∷◌, ◌++◌, arith, ok,
  All, take, drop, length, Bool-cases, inl, inr, ok-injective, >>=-eq-ok,
}
use langgraph_runtime_inmem.Prelude.Int.{ℤ, pos_part}
use langgraph_runtime_inmem.Ops.State.{Db}
use langgraph_runtime_inmem.Ops.Ttl.{TtlConfig}
use langgraph_runtime_inmem.Ops.Sweep.{Expired, scan, entry_le, insert_entry, sort_entries, select}
use langgraph_runtime_inmem.Ops.Sweep.Selection.{All-insert}

-- No entry stands before one that expires earlier, or at the same time with a smaller identifier.
abbrev pub IsSorted : List Expired → Type 0
IsSorted [] = Unit
IsSorted (x ∷ xs) = All (λ y. entry_le x y ≡ true) xs × IsSorted xs

entry_le_trans : (x y z : Expired) → entry_le x y ≡ true → entry_le y z ≡ true → entry_le x z ≡ true
entry_le_trans x y z p q = ground arith

entry_le-total : (x y : Expired) → entry_le x y ≡ false → entry_le y x ≡ true
entry_le-total x y p = ground arith

All-entry_le :
    (x y : Expired) (ys : List Expired)
    → entry_le x y ≡ true
    → All (λ z. entry_le y z ≡ true) ys
    → All (λ z. entry_le x z ≡ true) ys
All-entry_le x y [] p q = tt
All-entry_le x y (z ∷ zs) p q = (entry_le_trans x y z p q.0, All-entry_le x y zs p q.1)

insert-IsSorted : (x : Expired) (xs : List Expired) → IsSorted xs → IsSorted (insert_entry x xs)
unfolding insert_entry
insert-IsSorted x [] s = (tt, tt)
insert-IsSorted x (y ∷ ys) s = elim (Bool-cases (entry_le x y)) [
  | inl before ↦ rw before ((before, All-entry_le x y ys before s.0), s)
  | inr after ↦ rw after (
    All-insert (λ z. entry_le y z ≡ true) x ys (entry_le-total x y after) s.0,
    insert-IsSorted x ys s.1,
  )
]

sort-IsSorted : (xs : List Expired) → IsSorted (sort_entries xs)
unfolding sort_entries
sort-IsSorted [] = tt
sort-IsSorted (x ∷ xs) = insert-IsSorted x (sort_entries xs) (sort-IsSorted xs)

length-take-le : (n : ℕ) (xs : List Expired) → length (take n xs) ≤ n
length-take-le zero xs = omega arith
length-take-le (suc n) [] = omega arith
length-take-le (suc n) (x ∷ xs) = omega (arith, length-take-le n xs)

take-append-drop : (n : ℕ) (xs : List Expired) → take n xs ++ drop n xs ≡ xs
take-append-drop zero xs = refl
take-append-drop (suc n) [] = refl
take-append-drop (suc n) (x ∷ xs) = ap (◌∷◌ x) (take-append-drop n xs)

-- A limited sweep selects the entries that expire first: with the others behind them they are the
-- unlimited selection, which is in order of expiry and then of identifier, and they are no more than
-- the limit, a negative one counting as 0.
pub select_earliest :
    {S : Type 0} (global : Option TtlConfig) (limit : ℤ) (now : ℕ) (db : Db S) (xs : List Expired)
    → select global (some limit) now db ≡ ok xs
    → (rest : List Expired) × (select global none now db ≡ ok (xs ++ rest))
      × IsSorted (xs ++ rest)
      × (length xs ≤ pos_part limit)
unfolding select
select_earliest global limit now db xs h =
    let (found, s, same) = >>=-eq-ok (scan global now db db.threads) _ h in
    let n = pos_part limit in
    let sorted = sort_entries found in
    (
      drop n sorted,
      rw (s, ← ok-injective same, take-append-drop n sorted) refl,
      rw (← ok-injective same, take-append-drop n sorted) (sort-IsSorted found),
      rw (← ok-injective same) (length-take-le n sorted),
    )
