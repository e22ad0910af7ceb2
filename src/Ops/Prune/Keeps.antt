-- ===== src/Ops/Prune/Keeps.antt =====
-- `Threads.prune` with the strategy `keep_latest`.
use langgraph_runtime_inmem.Prelude.{
  ℕ, zero, suc, ◌+◌, ◌-◌, ◌≤◌, max, ◌≡◌, refl, ap, ◌∙◌, some, List, [], ◌∷◌, ◌++◌, nat_eq, arith,
  Result, ok, keep, take, drop, length,
}
use langgraph_runtime_inmem.Json.{Fields, end}
use langgraph_runtime_inmem.Ops.State.{Db, Checkpointer, keep_latest}
use langgraph_runtime_inmem.Ops.Prune.{is_there, check_access, prune_batches, prune_by, prune}

-- Pruning no thread does nothing, and pruning threads in two calls is pruning them in one.
pub record PrunesEach {S : Type 0} (cp : Checkpointer S) : Type 0 where
  pub none_pruned : (s : S) → cp.prune_latest [] s ≡ s
  pub split :
      (xs ys : List ℕ) (s : S)
      → cp.prune_latest (xs ++ ys) s ≡ cp.prune_latest ys (cp.prune_latest xs s)

take-append-drop : (n : ℕ) (xs : List ℕ) → take n xs ++ drop n xs ≡ xs
take-append-drop zero xs = refl
take-append-drop (suc n) [] = refl
take-append-drop (suc n) (x ∷ xs) = ap (◌∷◌ x) (take-append-drop n xs)

length-take-drop : (n : ℕ) (xs : List ℕ) → length (take n xs) + length (drop n xs) ≡ length xs
length-take-drop zero xs = omega arith
length-take-drop (suc n) [] = omega arith
length-take-drop (suc n) (x ∷ xs) = omega (arith, length-take-drop n xs)

plus_none : (n : ℕ) → n ≡ n + length {A = ℕ} []
plus_none n = omega arith

module _ {S : Type 0} (cp : Checkpointer S) (law : PrunesEach cp) where
  -- As many rounds as identifiers are enough, for every batch size of at least 1.
  prune_batches_lem :
      (rounds size : ℕ) (ids : List ℕ) (n : ℕ) (db : Db S)
      → length ids ≤ rounds
      → prune_batches cp rounds (suc size) ids n db
        ≡ (n + length ids, record db { saver = cp.prune_latest ids db.saver })
  unfolding prune_batches
  prune_batches_lem zero size [] n db h =
      rw (law.none_pruned db.saver) (ap (λ m. (m, db)) (plus_none n))
  prune_batches_lem zero size (id ∷ ids) n db h = absurd (omega arith)
  prune_batches_lem (suc rounds) size [] n db h =
      rw (law.none_pruned db.saver) (ap (λ m. (m, db)) (plus_none n))
  prune_batches_lem (suc rounds) size (id ∷ ids) n db h =
      let batch = id ∷ take size ids in
      let shorter : length (drop size ids) ≤ rounds = omega (arith, length-take-drop size ids) in
      let sum : (n + length batch) + length (drop size ids) ≡ n + length (id ∷ ids) =
        omega (arith, length-take-drop size ids) in
      let joined = ap (◌∷◌ id) (take-append-drop size ids) in
      prune_batches_lem rounds size (drop size ids) (n + length batch)
        (record db { saver = cp.prune_latest batch db.saver }) shorter
      ∙ rw (sum, ← law.split batch (drop size ids) db.saver, joined) refl

  -- Where pruning threads in two calls is pruning them in one, pruning with `keep_latest` hands the
  -- checkpointer the listed threads that are there, in their order and each as often as it is listed, whatever
  -- the batch size, and returns their number; no table changes. It is stated without filters.
  pub prune_keeps :
      (auth_of : ℕ → Result Fields) (batch_size : ℕ) (ids : List ℕ) (db : Db S)
      → prune cp (ok end) auth_of (some keep_latest) batch_size ids db ≡ (
        ok (length (keep (is_there db) ids)),
        record db { saver = cp.prune_latest (keep (is_there db) ids) db.saver },
      )
  unfolding prune prune_by check_access keep
  prune_keeps auth_of batch_size [] db = rw (law.none_pruned db.saver) refl
  prune_keeps auth_of batch_size (id ∷ ids) db =
      let e : max 1 batch_size ≡ suc (max 1 batch_size - 1) = omega arith in
      let present = keep (is_there db) (id ∷ ids) in
      let r =
        prune_batches_lem (length present) (max 1 batch_size - 1) present 0 db (omega arith) in
      let z : 0 + length present ≡ length present = omega arith in
      ap (λ p. (ok p.0, p.1)) (rw (← e, z) at r)
