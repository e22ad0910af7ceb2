-- ===== src/Ops/Search/Pages.antt =====
-- The pages of `Runs.search`.
use langgraph_runtime_inmem.Prelude.{
  ℕ, zero, suc, ◌+◌, ◌≡◌, refl, ap, true, Option, List, [], ◌∷◌, ◌++◌, nat_eq, arith, Result, ok,
  err, ok-injective, take, drop, All, Bool-cases, inl, inr,
}
use langgraph_runtime_inmem.Json.{Fields}
use langgraph_runtime_inmem.Ops.State.{Run, RunStatus, Db}
use langgraph_runtime_inmem.Ops.Search.{
  newest_le, insert_newest, sort_newest, filtered_runs, page, search,
}

take_none : (n : ℕ) → take {A = Run} n [] ≡ []
take_none zero = refl
take_none (suc n) = refl

drop_none : (n : ℕ) → drop {A = Run} n [] ≡ []
drop_none zero = refl
drop_none (suc n) = refl

take-append : (a b : ℕ) (xs : List Run) → take a xs ++ take b (drop a xs) ≡ take (a + b) xs
take-append zero b xs = ap (λ n. take n xs) (omega arith)
take-append (suc a) b [] = rw (take_none b, take_none (suc a + b)) refl
take-append (suc a) b (x ∷ xs) =
    let e : suc a + b ≡ suc (a + b) = omega arith in rw (e, take-append a b xs) refl

drop-drop : (a b : ℕ) (xs : List Run) → drop b (drop a xs) ≡ drop (a + b) xs
drop-drop zero b xs = ap (λ n. drop n xs) (omega arith)
drop-drop (suc a) b [] = rw (drop_none b, drop_none (suc a + b)) refl
drop-drop (suc a) b (x ∷ xs) =
    let e : suc a + b ≡ suc (a + b) = omega arith in rw (e, drop-drop a b xs) refl

page-append :
    (a b o : ℕ) (found : Result (List Run)) (p q : List Run)
    → page a o found ≡ ok p
    → page b (o + a) found ≡ ok q
    → page (a + b) o found ≡ ok (p ++ q)
page-append a b o (err e) p q h k = cc
page-append a b o (ok rs) p q h k =
    rw (← ok-injective h, ← ok-injective k, ← drop-drop o a (sort_newest rs), take-append) refl

-- No run stands before a newer one.
abbrev pub IsNewestFirst : List Run → Type 0
IsNewestFirst [] = Unit
IsNewestFirst (r ∷ rs) = All (λ s. newest_le r s ≡ true) rs × IsNewestFirst rs

module _ (P : Run → Type 0) where
  All-insert_newest : (r : Run) (rs : List Run) → P r → All P rs → All P (insert_newest r rs)
  unfolding insert_newest
  All-insert_newest r [] p ps = (p, tt)
  All-insert_newest r (s ∷ ss) p ps = elim (Bool-cases (newest_le r s)) [
    | inl before ↦ rw before (p, ps)
    | inr after ↦ rw after (ps.0, All-insert_newest r ss p ps.1)
  ]

  All-sort_newest : (rs : List Run) → All P rs → All P (sort_newest rs)
  unfolding sort_newest
  All-sort_newest [] ps = tt
  All-sort_newest (r ∷ rs) ps = All-insert_newest r (sort_newest rs) ps.0 (All-sort_newest rs ps.1)

  All-drop : (n : ℕ) (rs : List Run) → All P rs → All P (drop n rs)
  All-drop zero rs ps = ps
  All-drop (suc n) [] ps = tt
  All-drop (suc n) (r ∷ rs) ps = All-drop n rs ps.1

  All-take : (n : ℕ) (rs : List Run) → All P rs → All P (take n rs)
  All-take zero rs ps = tt
  All-take (suc n) [] ps = tt
  All-take (suc n) (r ∷ rs) ps = (ps.0, All-take n rs ps.1)

All-newest_le :
    (r s : Run) (ss : List Run)
    → newest_le r s ≡ true
    → All (λ t. newest_le s t ≡ true) ss
    → All (λ t. newest_le r t ≡ true) ss
All-newest_le r s [] p q = tt
All-newest_le r s (t ∷ ts) p q = (ground (arith, q.0), All-newest_le r s ts p q.1)

insert-IsNewestFirst :
    (r : Run) (rs : List Run) → IsNewestFirst rs → IsNewestFirst (insert_newest r rs)
unfolding insert_newest
insert-IsNewestFirst r [] v = (tt, tt)
insert-IsNewestFirst r (s ∷ ss) v = elim (Bool-cases (newest_le r s)) [
  | inl before ↦ rw before ((before, All-newest_le r s ss before v.0), v)
  | inr after ↦ rw after (
    All-insert_newest (λ t. newest_le s t ≡ true) r ss (ground arith) v.0,
    insert-IsNewestFirst r ss v.1,
  )
]

sort-IsNewestFirst : (rs : List Run) → IsNewestFirst (sort_newest rs)
unfolding sort_newest
sort-IsNewestFirst [] = tt
sort-IsNewestFirst (r ∷ rs) = insert-IsNewestFirst r (sort_newest rs) (sort-IsNewestFirst rs)

drop-IsNewestFirst : (n : ℕ) (rs : List Run) → IsNewestFirst rs → IsNewestFirst (drop n rs)
drop-IsNewestFirst zero rs v = v
drop-IsNewestFirst (suc n) [] v = tt
drop-IsNewestFirst (suc n) (r ∷ rs) v = drop-IsNewestFirst n rs v.1

take-IsNewestFirst : (n : ℕ) (rs : List Run) → IsNewestFirst rs → IsNewestFirst (take n rs)
take-IsNewestFirst zero rs v = tt
take-IsNewestFirst (suc n) [] v = tt
take-IsNewestFirst (suc n) (r ∷ rs) v = (All-take _ n rs v.0, take-IsNewestFirst n rs v.1)

page-IsNewestFirst :
    (limit offset : ℕ) (found : Result (List Run)) (p : List Run)
    → page limit offset found ≡ ok p
    → IsNewestFirst p
page-IsNewestFirst limit offset (err e) p h = cc
page-IsNewestFirst limit offset (ok rs) p h =
    rw (ok-injective h) at
      (take-IsNewestFirst limit _ (drop-IsNewestFirst offset _ (sort-IsNewestFirst rs)))

module _ {S : Type 0} where
  -- Two consecutive pages of one search are, together, the page of both sizes.
  pub search-append :
      (auth : Result Fields) (id a b offset : ℕ) (status : Option RunStatus) (db : Db S)
      (p q : List Run)
      → (search auth id a offset status db).0 ≡ ok p
      → (search auth id b (offset + a) status db).0 ≡ ok q
      → (search auth id (a + b) offset status db).0 ≡ ok (p ++ q)
  unfolding search
  search-append (err e) id a b offset status db p q h k = cc
  search-append (ok filters) id a b offset status db p q h k =
      page-append a b offset (filtered_runs filters id status db.runs db).0 p q h k

  -- A page holds runs of the newest creation first.
  pub search-IsNewestFirst :
      (auth : Result Fields) (id limit offset : ℕ) (status : Option RunStatus) (db : Db S)
      (p : List Run)
      → (search auth id limit offset status db).0 ≡ ok p
      → IsNewestFirst p
  unfolding search
  search-IsNewestFirst (err e) id limit offset status db p h = cc
  search-IsNewestFirst (ok filters) id limit offset status db p h =
      page-IsNewestFirst limit offset (filtered_runs filters id status db.runs db).0 p h
