-- ===== src/Checkpoint/Saver/Puts/Groups.antt =====
-- `put_writes` on savers that agree with what is stored.
use langgraph_runtime_inmem.Prelude.{
  ℕ, ◌+◌, false, Option, none, some, ◌≡◌, refl, ap, ◌∙◌, Eq, ◌==◌, nat_eq, string_eq, pair_eq,
  arith, Bool-cases, inl, inr,
}
use langgraph_runtime_inmem.Prelude.Int.{replace_part, same_part}
use langgraph_runtime_inmem.Dict.{get, put}
use langgraph_runtime_inmem.Dict.Laws.{weight, beq_refl, get-put}
use langgraph_runtime_inmem.Checkpoint.SizeState.{entry}
use langgraph_runtime_inmem.Checkpoint.SizeState.Totals.{entry-adjust}
use langgraph_runtime_inmem.Checkpoint.Saver.{
  WriteKey, WriteGroup, Tables, Saver, Serde, write_group_size,
}
use langgraph_runtime_inmem.Checkpoint.Saver.Base.{BaseSaver, WritesArgs, put_group}
use langgraph_runtime_inmem.Checkpoint.Saver.Puts.{group_size, outer_key, after_put_writes}
use langgraph_runtime_inmem.Checkpoint.Saver.Sizes.{
  rows_of, writes_size, stored_bytes, stored_checkpoints, IsAccounted,
}
use langgraph_runtime_inmem.Checkpoint.Saver.Sizes.Rows.{sum_by-put_row}
use langgraph_runtime_inmem.Checkpoint.Saver.Puts.Stored.{both}

module _ {A R : Type 0} ⦃e : Eq R⦄ (serde : Serde R) (base : BaseSaver A R) (args : WritesArgs A)
    (s : Saver R) where
  abbrev pub key : WriteKey
  key = outer_key serde base args

  abbrev pub grouped : Option WriteGroup → Tables R
  grouped group = record s.tables { writes = put_group key group s.tables.writes }

  written_group : (g : WriteGroup) → get key (put key g s.tables.writes) ≡ some g
  written_group g = get-put key key g s.tables.writes ∙ rw (beq_refl key) refl

  writes-grouped :
      (group : Option WriteGroup)
      → writes_size serde (rows_of args.thread_id (grouped group).writes)
          + group_size serde base args s.tables
        ≡ writes_size serde (rows_of args.thread_id s.tables.writes)
          + group_size serde base args (grouped group)
  unfolding group_size
  writes-grouped none = refl
  writes-grouped (some g) = omega (
    arith,
    rw (beq_refl args.thread_id) at (
        sum_by-put_row (λ p. write_group_size serde p.0.1.1 p.1) (λ k. k.0 == args.thread_id) key g
          s.tables.writes),
    ap (weight (write_group_size serde args.checkpoint_id)) (written_group g),
  )

  other_writes-grouped :
      (group : Option WriteGroup) (j : ℕ)
      → (args.thread_id == j) ≡ false
      → writes_size serde (rows_of j (grouped group).writes)
        ≡ writes_size serde (rows_of j s.tables.writes)
  other_writes-grouped none j h = refl
  other_writes-grouped (some g) j h = omega (
    arith,
    rw h at (
        sum_by-put_row (λ p. write_group_size serde p.0.1.1 p.1) (λ k. k.0 == j) key g
          s.tables.writes),
  )

  own_entry-grouped :
      (group : Option WriteGroup)
      → IsAccounted serde s
      → entry (after_put_writes serde base args s (grouped group)).size_state args.thread_id ≡ (
        stored_bytes serde (grouped group) args.thread_id,
        stored_checkpoints (grouped group) args.thread_id,
      )
  unfolding after_put_writes
  own_entry-grouped group w =
      rw
        (
          entry-adjust s.size_state args.thread_id args.thread_id _ _,
          beq_refl args.thread_id,
          w args.thread_id,
        )
        (both (replace_part _ _ _ _ (omega (arith, writes-grouped group))) (same_part _))

  pub after_put_writes-IsAccounted :
      (group : Option WriteGroup)
      → IsAccounted serde s
      → IsAccounted serde (after_put_writes serde base args s (grouped group))
  unfolding after_put_writes
  after_put_writes-IsAccounted group w j = elim (Bool-cases (args.thread_id == j)) [
    | inl same ↦ rw (← (nat_eq.same_iff args.thread_id j).0 same) (own_entry-grouped group w)
    | inr other ↦
        entry-adjust s.size_state args.thread_id j _ _
        ∙ rw (other, w j, other_writes-grouped group j other) refl
  ]
