-- ===== src/Store/Writes.antt =====
-- What a batch of writes to the Store leaves under each key.
use langgraph_runtime_inmem.Prelude.{
  mem, ℕ, Option, none, some, [], ◌∷◌, ◌≡◌, refl, ◌∙◌, ap, ◌==◌, any, string_eq, pair_eq, arith, Eq,
  Bool-cases, inl, inr, Result, ok, err, >>=-eq-ok, ok-injective,
}
use langgraph_runtime_inmem.Dict.{Dict, get, put, remove, Distinct, keys, is_some}
use langgraph_runtime_inmem.Dict.Laws.{get-put, get-remove, Distinct-put, Distinct-remove}
use langgraph_runtime_inmem.Store.Base.{ItemKey, PutOp, StoreBase, list_eq}
use langgraph_runtime_inmem.Store.{TtlRecord, ttl_update, ttl_updates, write_records}
use langgraph_runtime_inmem.Store.Keys.{updated, updated_if}

module _ {M : Type 0} where
  pub write_records-get :
      (updates : Dict ItemKey (Option (TtlRecord M))) (ttl : Dict ItemKey (TtlRecord M))
      (j : ItemKey)
      → Distinct updates
      → get j (write_records updates ttl) ≡ updated (get j updates) (get j ttl)
  unfolding write_records get
  write_records-get [] ttl j d = refl
  write_records-get ((k, none) ∷ updates) ttl j d =
      rw (write_records-get updates (remove k ttl) j d.1, get-remove k j ttl)
        (updated_if (λ i. get i updates) k j none (get j ttl) d.0)
  write_records-get ((k, some r) ∷ updates) ttl j d =
      rw (write_records-get updates (put k r ttl) j d.1, get-put k j r ttl)
        (updated_if (λ i. get i updates) k j (some r) (get j ttl) d.0)

  pub write_records-Distinct :
      (updates : Dict ItemKey (Option (TtlRecord M))) (ttl : Dict ItemKey (TtlRecord M))
      → Distinct ttl
      → Distinct (write_records updates ttl)
  unfolding write_records
  write_records-Distinct [] ttl d = d
  write_records-Distinct ((k, none) ∷ updates) ttl d =
      write_records-Distinct updates (remove k ttl) (Distinct-remove k ttl d)
  write_records-Distinct ((k, some r) ∷ updates) ttl d =
      write_records-Distinct updates (put k r ttl) (Distinct-put k r ttl d)

pub mem-keys : {K A : Type 0} ⦃e : Eq K⦄ (k : K) (m : Dict K A) → mem k (keys m) ≡ is_some (get k m)
unfolding any get
mem-keys k [] = refl
mem-keys k ((j, a) ∷ m) = ground (arith, mem-keys k m)

module _ {V W U M F : Type 0} (base : StoreBase V W U M F) (now : ℕ) where
  -- What an update stands for.
  abbrev pub update_of : Result (Option (TtlRecord M)) → Option (TtlRecord M)
  update_of (ok update) = update
  update_of (err e) = none

  -- The update of each key, where all are in range.
  abbrev pub expected_update : Option (PutOp U M) → Option (Option (TtlRecord M))
  expected_update none = none
  expected_update (some op) = some (update_of (ttl_update base now op))

  pub ttl_updates-get :
      (ops : Dict ItemKey (PutOp U M)) (updates : Dict ItemKey (Option (TtlRecord M))) (k : ItemKey)
      → ttl_updates base now ops ≡ ok updates
      → get k updates ≡ expected_update (get k ops)
  unfolding ttl_updates get
  ttl_updates-get [] updates k h = rw (← ok-injective h) refl
  ttl_updates-get ((j, op) ∷ ops) updates k h =
      let (update, u, more) = >>=-eq-ok (ttl_update base now op) _ h in
      let (rest, r, same) = >>=-eq-ok (ttl_updates base now ops) _ more in
      rw (← ok-injective same) (elim (Bool-cases (j == k)) [
        | inl here ↦ rw (here, u) refl
        | inr there ↦ rw there (ttl_updates-get ops rest k r)
      ])

  pub ttl_updates-Distinct :
      (ops : Dict ItemKey (PutOp U M)) (updates : Dict ItemKey (Option (TtlRecord M)))
      → Distinct ops
      → ttl_updates base now ops ≡ ok updates
      → Distinct updates
  unfolding ttl_updates
  ttl_updates-Distinct [] updates d h = rw (← ok-injective h) tt
  ttl_updates-Distinct ((j, op) ∷ ops) updates d h =
      let (update, u, more) = >>=-eq-ok (ttl_update base now op) _ h in
      let (rest, r, same) = >>=-eq-ok (ttl_updates base now ops) _ more in
      rw (← ok-injective same)
        (ttl_updates-get ops rest j r ∙ ap expected_update d.0, ttl_updates-Distinct ops rest d.1 r)
