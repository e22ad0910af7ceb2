-- ===== src/Store/Sweep/Counts.antt =====
-- The counts of a sweep of the Store: items and bytes.
use langgraph_runtime_inmem.Prelude.{
  mem, ℕ, ◌+◌, ◌≤◌, true, false, Option, none, some, List, [], ◌∷◌, ◌≡◌, refl, ◌∙◌, ap, ◌==◌, leb,
  any, length, string_eq, pair_eq, arith, Eq, Bool-cases, inl, inr,
}
use langgraph_runtime_inmem.Prelude.Int.{pos_part}
use langgraph_runtime_inmem.Dict.{Dict, get, Distinct, is_some, get_or}
use langgraph_runtime_inmem.Dict.Laws.{beq_refl, sum_by-remove, weight, Distinct-remove}
use langgraph_runtime_inmem.SizeTracking.{remove_entry}
use langgraph_runtime_inmem.SizeTracking.Totals.{sum_sizes}
use langgraph_runtime_inmem.Store.Base.{ItemKey, StoreBase, list_eq}
use langgraph_runtime_inmem.Store.{Store, TtlRecord, has_item}
use langgraph_runtime_inmem.Store.Sweep.{
  Sweep, expired_keys, sweep_one, sweep_keys, sweep_start, sweep_ttl,
}
use langgraph_runtime_inmem.Store.Sweep.Effect.{
  sweep_keys-IsBalanced, items-sweep_one, others-sweep_one, mem-expired_keys, is_due,
}
use langgraph_runtime_inmem.Store.Calls.Sound.{IsSound}
use langgraph_runtime_inmem.Store.Keys.{owned_if, ||-false, beq_false}

later :
    {K A : Type 0} ⦃e : Eq K⦄ (k j : K) (a : A) (m : Dict K A)
    → is_some (get j m) ≡ true
    → is_some (get j ((k, a) ∷ m)) ≡ true
unfolding get
later k j a m h = ground arith

size_or_zero : (o : Option ℕ) → weight (λ n. n) o ≡ get_or o 0
size_or_zero none = refl
size_or_zero (some n) = refl

module _ {V W M : Type 0} where
  -- Only what is stored has a size.
  abbrev IsTight : Sweep V W M → Type 0
  IsTight w = (j : ItemKey) → has_item j w.tables.items ≡ false → get j w.tracker.entries ≡ none

  sweep_one-IsTight : (k : ItemKey) (w : Sweep V W M) → IsTight w → IsTight (sweep_one k w)
  sweep_one-IsTight k w t j =
      let (v, r, z) = others-sweep_one k j w in
      owned_if (k == j) _ _ _ _ (items-sweep_one k j w) z (t j)

  -- One item: its bytes go from the total to the count.
  sweep_one-size :
      (k : ItemKey) (w : Sweep V W M)
      → IsTight w
      → Distinct w.tracker.entries
      → (sweep_one k w).deleted_size + sum_sizes (sweep_one k w).tracker.entries
        ≡ w.deleted_size + sum_sizes w.tracker.entries
  unfolding sweep_one remove_entry
  sweep_one-size k w t d =
      let moved = rw size_or_zero at (sum_by-remove (λ n. n) k w.tracker.entries d) in
      elim (Bool-cases (has_item k w.tables.items)) [
        | inl h ↦ rw h (omega (arith, moved))
        | inr h ↦ rw h (omega (arith, moved, ap (λ o. get_or o 0) (t k h)))
      ]

  sweep_keys-size :
      (ks : List ItemKey) (w : Sweep V W M)
      → IsTight w
      → Distinct w.tracker.entries
      → (sweep_keys ks w).deleted_size + sum_sizes (sweep_keys ks w).tracker.entries
        ≡ w.deleted_size + sum_sizes w.tracker.entries
  unfolding sweep_keys sweep_one remove_entry
  sweep_keys-size [] w t d = refl
  sweep_keys-size (k ∷ ks) w t d =
      sweep_keys-size ks (sweep_one k w) (sweep_one-IsTight k w t)
        (Distinct-remove k w.tracker.entries d)
      ∙ sweep_one-size k w t d

  -- Every key of the list is there, and none occurs twice.
  abbrev AreThere : List ItemKey → Sweep V W M → Type 0
  AreThere [] w = Unit
  AreThere (k ∷ ks) w = (has_item k w.tables.items ≡ true) × (mem k ks ≡ false) × AreThere ks w

  AreThere-sweep_one :
      (k : ItemKey) (ks : List ItemKey) (w : Sweep V W M)
      → mem k ks ≡ false
      → AreThere ks w
      → AreThere ks (sweep_one k w)
  unfolding any
  AreThere-sweep_one k [] w n h = tt
  AreThere-sweep_one k (j ∷ ks) w n h =
      let (other, rest) = ||-false (j == k) (mem k ks) n in
      (
        ap is_some (items-sweep_one k j w) ∙ rw (beq_false k j other) h.0,
        h.1,
        AreThere-sweep_one k ks w rest h.2,
      )

  sweep_one-deleted :
      (k : ItemKey) (w : Sweep V W M)
      → has_item k w.tables.items ≡ true
      → (sweep_one k w).deleted ≡ w.deleted + 1
  unfolding sweep_one
  sweep_one-deleted k w h = rw h refl

  sweep_keys-deleted :
      (ks : List ItemKey) (w : Sweep V W M)
      → AreThere ks w
      → (sweep_keys ks w).deleted ≡ w.deleted + length ks
  unfolding sweep_keys
  sweep_keys-deleted [] w h = omega arith
  sweep_keys-deleted (k ∷ ks) w h = omega (
    arith,
    sweep_keys-deleted ks (sweep_one k w) (AreThere-sweep_one k ks w h.1 h.2),
    sweep_one-deleted k w h.0,
  )

  due_keys :
      (now : ℕ) (ttl : Dict ItemKey (TtlRecord M)) (w : Sweep V W M)
      → Distinct ttl
      → ((k : ItemKey) → is_some (get k ttl) ≡ true → has_item k w.tables.items ≡ true)
      → AreThere (expired_keys now ttl) w
  unfolding expired_keys get
  due_keys now [] w d own = tt
  due_keys now ((k, r) ∷ ttl) w d own = elim (Bool-cases (leb r.expires_at now)) [
    | inl due ↦ rw due (
      own k (rw (beq_refl k) refl),
      mem-expired_keys now k ttl d.1 ∙ ap (is_due now) d.0,
      due_keys now ttl w d.1 (λ j h. own j (later k j r ttl h)),
    )
    | inr not_due ↦ rw not_due (due_keys now ttl w d.1 (λ j h. own j (later k j r ttl h)))
  ]

module _ {V W U M F : Type 0} (base : StoreBase V W U M F) (s : Store V W M F) where
  tight :
      IsSound base s
      → (j : ItemKey) → has_item j s.tables.items ≡ false
      → get j s.size_tracker.entries ≡ none
  tight w j h = w.tracks j ∙ rw h refl

  there :
      IsSound base s
      → (k : ItemKey) → is_some (get k s.ttl) ≡ true
      → has_item k s.tables.items ≡ true
  there w k h = elim (Bool-cases (has_item k s.tables.items)) [
    | inl here ↦ here
    | inr gone ↦ cc (ap is_some (w.owned k gone), h)
  ]

-- On a well-formed Store a sweep deletes as many items as have expired, and returns that number; the
-- bytes that it counts are what the total loses, and are no more than the total before it.
pub sweep_ttl-counts :
    {V W U M F : Type 0} (base : StoreBase V W U M F) (now : ℕ) (s : Store V W M F)
    → IsSound base s
    → let (deleted, after) = sweep_ttl base now s in
      let stats = after.last_ttl_sweep_stats in
      (deleted ≡ length (expired_keys now s.ttl))
      × (stats.deleted_items ≡ deleted)
      × (stats.total_before_bytes ≡ s.size_tracker.total_bytes)
      × (stats.deleted_size_bytes + pos_part after.size_tracker.total_bytes
          ≡ pos_part s.size_tracker.total_bytes)
      × (stats.deleted_size_bytes ≤ pos_part s.size_tracker.total_bytes)
unfolding sweep_ttl sweep_start
sweep_ttl-counts base now s w =
    let start = sweep_start s in
    let sizes =
      sweep_keys-size (expired_keys now s.ttl) start (tight base s w) w.balanced.distinct in
    let before = ap pos_part w.balanced.total in
    let after =
      ap pos_part (sweep_keys-IsBalanced (expired_keys now s.ttl) start w.balanced).total in
    (
      omega (
        arith,
        sweep_keys-deleted (expired_keys now s.ttl) start
            (due_keys now s.ttl start w.distinct (there base s w)),
      ),
      refl,
      refl,
      omega (arith, sizes, before, after),
      omega (arith, sizes, before, after),
    )
