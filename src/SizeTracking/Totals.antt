-- ===== src/SizeTracking/Totals.antt =====
-- The tracked total is the sum of the entries, whatever the history of calls.
use langgraph_runtime_inmem.Prelude.{
  ℕ, ◌≡◌, refl, Option, none, some, List, [], ◌∷◌, Eq, ◌==◌, if◌then◌else◌, sum_by,
}
use langgraph_runtime_inmem.Prelude.Int.{ℤ, pos, pos_part, shift_total, drop_total}
use langgraph_runtime_inmem.Dict.{Dict, get, Distinct, get_or}
use langgraph_runtime_inmem.Dict.Laws.{
  Distinct-put, Distinct-remove, get-put, get-remove, sum_by-put, sum_by-remove, weight,
}
use langgraph_runtime_inmem.SizeTracking.{
  SizeTracker, Call, sets, removes, clears, set_size, remove_entry, step, run,
}

abbrev pub sum_sizes : {K : Type 0} → Dict K ℕ → ℕ
sum_sizes = sum_by (λ p. p.1)

weight_or : (o : Option ℕ) → weight (λ n. n) o ≡ get_or o 0
weight_or none = refl
weight_or (some n) = refl

module _ {K : Type 0} ⦃e : Eq K⦄ where
  -- The keys are distinct, and the total is the sum of the sizes.
  pub record IsBalanced (t : SizeTracker K) : Type 0 where
    pub distinct : Distinct t.entries
    pub total : t.total_bytes ≡ pos (sum_sizes t.entries)

  pub set_size-IsBalanced :
      (t : SizeTracker K) (k : K) (z : ℤ) → IsBalanced t → IsBalanced (set_size t k z)
  unfolding set_size
  set_size-IsBalanced t k z b = record {
    distinct = Distinct-put k (pos_part z) t.entries b.distinct;
    total = rw b.total (
        shift_total _ _ (pos_part z) _
          (rw (← weight_or (get k t.entries)) (sum_by-put (λ n. n) k (pos_part z) t.entries)));
  }

  pub remove_entry-IsBalanced :
      (t : SizeTracker K) (k : K) → IsBalanced t → IsBalanced (remove_entry t k).0
  unfolding remove_entry
  remove_entry-IsBalanced t k b = record {
    distinct = Distinct-remove k t.entries b.distinct;
    total = rw b.total (
        drop_total _ _ _
          (rw (← weight_or (get k t.entries)) (sum_by-remove (λ n. n) k t.entries b.distinct)));
  }

  step-IsBalanced : (t : SizeTracker K) (c : Call K) → IsBalanced t → IsBalanced (step t c)
  unfolding step
  step-IsBalanced t (sets k z) b = set_size-IsBalanced t k z b
  step-IsBalanced t (removes k) b = remove_entry-IsBalanced t k b
  step-IsBalanced t clears b = record { distinct = tt; total = refl }

  -- From a tracker whose total is the sum of its entries, any sequence of calls leads to one.
  pub run-IsBalanced :
      (t : SizeTracker K) (cs : List (Call K)) → IsBalanced t → IsBalanced (run t cs)
  unfolding run
  run-IsBalanced t [] b = b
  run-IsBalanced t (c ∷ cs) b = run-IsBalanced (step t c) cs (step-IsBalanced t c b)

  -- The size of an entry after a call of `set_size` or `remove`: the entry that is named has the new
  -- size, a negative one counting as 0, or none, and every other entry keeps its size; `remove`
  -- returns the size that was tracked, 0 for an unknown entry.
  pub entry_after_call :
      (t : SizeTracker K) (k j : K) (z : ℤ)
      → (get j (set_size t k z).entries ≡ (if k == j then some (pos_part z) else get j t.entries))
        × (get j (remove_entry t k).0.entries ≡ (if k == j then none else get j t.entries))
        × ((remove_entry t k).1 ≡ get_or (get k t.entries) 0)
  unfolding set_size remove_entry
  entry_after_call t k j z = (get-put k j _ t.entries, get-remove k j t.entries, refl)
