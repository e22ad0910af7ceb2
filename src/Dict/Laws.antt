-- ===== src/Dict/Laws.antt =====
-- The laws of dictionaries: reads after writes, distinct keys, and sums over the values.
use langgraph_runtime_inmem.Prelude.{
  ℕ, ◌+◌, ◌≡◌, refl, true, Option, none, some, [], ◌∷◌, Eq, ◌==◌, if◌then◌else◌, arith, sum_by,
}
use langgraph_runtime_inmem.Dict.{Dict, get, put, remove, Distinct}

abbrev pub weight : {V : Type 0} → (V → ℕ) → Option V → ℕ
weight f none = 0
weight f (some v) = f v

pub beq_refl : {K : Type 0} ⦃e : Eq K⦄ (k : K) → (k == k) ≡ true
beq_refl ⦃e⦄ k = (e.same_iff k k).1 refl

module _ {K V : Type 0} ⦃e : Eq K⦄ where
  pub get-put :
      (k j : K) (v : V) (m : Dict K V) → get j (put k v m) ≡ (if k == j then some v else get j m)
  unfolding get put
  get-put k j v [] = refl
  get-put k j v ((i, w) ∷ m) =
      ground (arith, get-put k j v m, e.same_iff i k, e.same_iff i j, e.same_iff k j)

  pub get-remove :
      (k j : K) (m : Dict K V) → get j (remove k m) ≡ (if k == j then none else get j m)
  unfolding get remove
  get-remove k j [] = ground arith
  get-remove k j ((i, w) ∷ m) =
      ground (arith, get-remove k j m, e.same_iff i k, e.same_iff i j, e.same_iff k j)

  pub Distinct-put : (k : K) (v : V) (m : Dict K V) → Distinct m → Distinct (put k v m)
  unfolding put
  Distinct-put k v [] d = (unfold get in refl, tt)
  Distinct-put k v ((j, w) ∷ m) d =
      ground (arith, Distinct-put k v m, get-put k j v m, e.same_iff k j, e.same_iff j k)

  pub Distinct-remove : (k : K) (m : Dict K V) → Distinct m → Distinct (remove k m)
  unfolding remove
  Distinct-remove k [] d = tt
  Distinct-remove k ((j, w) ∷ m) d = ground (arith, Distinct-remove k m, get-remove k j m)

  pub remove_absent : (k : K) (m : Dict K V) → get k m ≡ none → remove k m ≡ m
  unfolding get remove
  remove_absent k [] h = refl
  remove_absent k ((j, w) ∷ m) h = ground (arith, remove_absent k m)

  pub sum_by-put :
      (f : V → ℕ) (k : K) (v : V) (m : Dict K V)
      → sum_by (λ p. f p.1) (put k v m) + weight f (get k m) ≡ sum_by (λ p. f p.1) m + f v
  unfolding get put
  sum_by-put f k v [] = omega arith
  sum_by-put f k v ((j, w) ∷ m) = ground (arith, sum_by-put f k v m)

  pub sum_by-remove :
      (f : V → ℕ) (k : K) (m : Dict K V)
      → Distinct m
      → sum_by (λ p. f p.1) (remove k m) + weight f (get k m) ≡ sum_by (λ p. f p.1) m
  unfolding get remove
  sum_by-remove f k [] d = omega arith
  sum_by-remove f k ((j, w) ∷ m) d =
      ground (arith, sum_by-remove f k m, remove_absent k m, e.same_iff j k)
