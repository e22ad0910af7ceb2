-- ===== src/Checkpoint/Saver/Sizes/Rows.antt =====
-- Sums over the rows of one thread, after the rows of a thread that are not named are removed.
use langgraph_runtime_inmem.Prelude.{
  ℕ, ◌+◌, Bool, true, false, not, ◌&&◌, List, [], ◌∷◌, ◌≡◌, refl, keep, sum_by, arith,
  if◌then◌else◌, Eq, ap,
}
use langgraph_runtime_inmem.Dict.{Dict, get, put}
use langgraph_runtime_inmem.Dict.Laws.{weight}

module _ {A : Type 0} (f : A → ℕ) (own named : A → Bool) where
  abbrev pub stays : A → Bool
  stays x = not (own x && not (named x))

  -- What leaves is the owner's.
  pub sum_by-own :
      (xs : List A)
      → sum_by f (keep own (keep stays xs)) + sum_by f (keep (λ x. not (stays x)) xs)
        ≡ sum_by f (keep own xs)
  unfolding keep
  sum_by-own [] = omega arith
  sum_by-own (x ∷ xs) = ground (arith, sum_by-own xs)

  -- Another one's rows stay.
  pub sum_by-other :
      (other : A → Bool) (xs : List A)
      → ((x : A) → other x ≡ true → own x ≡ false)
      → sum_by f (keep other (keep stays xs)) ≡ sum_by f (keep other xs)
  unfolding keep
  sum_by-other other [] h = refl
  sum_by-other other (x ∷ xs) h = ground (arith, sum_by-other other xs h, h x)

module _ {K A : Type 0} ⦃e : Eq K⦄ (f : K × A → ℕ) where
  -- A write moves the sum by the difference of the two values.
  pub sum_by-put_pair :
      (k : K) (v : A) (m : Dict K A)
      → sum_by f (put k v m) + weight (λ a. f (k, a)) (get k m) ≡ sum_by f m + f (k, v)
  unfolding get put
  sum_by-put_pair k v [] = omega arith
  sum_by-put_pair k v ((j, w) ∷ m) = ground (
    arith,
    sum_by-put_pair k v m,
    e.same_iff j k,
    λ (h : j ≡ k). ap (λ i. f (i, w)) h,
    λ (h : j ≡ k). ap (λ i. f (i, v)) h,
  )

  -- The same for the rows whose keys pass a test.
  pub sum_by-put_row :
      (own : K → Bool) (k : K) (v : A) (m : Dict K A)
      → sum_by f (keep (λ r. own r.0) (put k v m))
          + (if own k then weight (λ a. f (k, a)) (get k m) else 0)
        ≡ sum_by f (keep (λ r. own r.0) m) + (if own k then f (k, v) else 0)
  unfolding get put keep
  sum_by-put_row own k v [] = ground arith
  sum_by-put_row own k v ((j, w) ∷ m) = ground (
    arith,
    sum_by-put_row own k v m,
    e.same_iff j k,
    λ (h : j ≡ k). ap (λ i. f (i, w)) h,
    λ (h : j ≡ k). ap (λ i. f (i, v)) h,
    λ (h : j ≡ k). ap own h,
  )

-- Rows that pass a test, after those that pass another one are removed.
module _ {A : Type 0} (f : A → ℕ) (own : A → Bool) where
  pub sum_by-removed : (xs : List A) → sum_by f (keep own (keep (λ x. not (own x)) xs)) ≡ 0
  unfolding keep
  sum_by-removed [] = refl
  sum_by-removed (x ∷ xs) = ground (arith, sum_by-removed xs)

  pub sum_by-unremoved :
      (other : A → Bool) (xs : List A)
      → ((x : A) → other x ≡ true → own x ≡ false)
      → sum_by f (keep other (keep (λ x. not (own x)) xs)) ≡ sum_by f (keep other xs)
  unfolding keep
  sum_by-unremoved other [] h = refl
  sum_by-unremoved other (x ∷ xs) h = ground (arith, sum_by-unremoved other xs h, h x)
