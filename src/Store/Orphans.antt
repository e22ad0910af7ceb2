-- ===== src/Store/Orphans.antt =====
-- Which times of expiry the Store keeps when it starts.
use langgraph_runtime_inmem.Prelude.{
  mem, Bool, true, false, ◌||◌, any, Option, none, List, [], ◌∷◌, ◌≡◌, refl, ap, ◌==◌,
  if◌then◌else◌, string_eq, pair_eq, arith, Bool-cases, inl, inr, Option-cases,
}
use langgraph_runtime_inmem.Dict.{Dict, get, remove, Distinct, keys}
use langgraph_runtime_inmem.Dict.Laws.{get-remove, Distinct-remove}
use langgraph_runtime_inmem.Store.Base.{ItemKey, Nested, list_eq}
use langgraph_runtime_inmem.Store.{TtlRecord, has_item, drop_each, drop_orphaned_ttl_records}
use langgraph_runtime_inmem.Store.Writes.{mem-keys}

kept_lem :
    {A : Type 0} (here later k_there j_there : Bool) (old : Option A)
    → (here ≡ true → k_there ≡ j_there)
    → k_there ≡ true
    → (if later then if j_there then old else none else old)
      ≡ (if here || later then if j_there then old else none else old)
kept_lem here later k_there j_there old same h = ground arith

dropped_lem :
    {A : Type 0} (here later k_there j_there : Bool) (old : Option A)
    → (here ≡ true → k_there ≡ j_there)
    → k_there ≡ false
    → (if later
        then if j_there then if here then none else old else none
        else if here
        then none
        else old)
      ≡ (if here || later then if j_there then old else none else old)
dropped_lem here later k_there j_there old same h = ground arith

module _ {V M : Type 0} (items : Nested V) where
  drop_each-get :
      (ps : List (ItemKey × TtlRecord M)) (ttl : Dict ItemKey (TtlRecord M)) (j : ItemKey)
      → get j (drop_each items ps ttl)
        ≡ (if mem j (keys ps) then if has_item j items then get j ttl else none else get j ttl)
  unfolding drop_each any
  drop_each-get [] ttl j = refl
  drop_each-get (p ∷ ps) ttl j =
      let same =
        λ (h : (p.0 == j) ≡ true). ap (λ i. has_item i items) ((pair_eq.same_iff p.0 j).0 h) in
      elim (Bool-cases (has_item p.0 items)) [
        | inl there ↦
            rw (there, drop_each-get ps ttl j)
              (kept_lem (p.0 == j) (mem j (keys ps)) (has_item p.0 items) (has_item j items) _ same
                there)
        | inr absent ↦
            rw (absent, drop_each-get ps (remove p.0 ttl) j, get-remove p.0 j ttl)
              (dropped_lem (p.0 == j) (mem j (keys ps)) (has_item p.0 items) (has_item j items) _
                same absent)
      ]

  drop_each-Distinct :
      (ps : List (ItemKey × TtlRecord M)) (ttl : Dict ItemKey (TtlRecord M))
      → Distinct ttl
      → Distinct (drop_each items ps ttl)
  unfolding drop_each
  drop_each-Distinct [] ttl d = d
  drop_each-Distinct (p ∷ ps) ttl d = elim (Bool-cases (has_item p.0 items)) [
    | inl there ↦ rw there (drop_each-Distinct ps ttl d)
    | inr absent ↦ rw absent (drop_each-Distinct ps (remove p.0 ttl) (Distinct-remove p.0 ttl d))
  ]

  -- A time of expiry is kept where there is an item.
  pub drop_orphaned_ttl_records-get :
      (ttl : Dict ItemKey (TtlRecord M)) (j : ItemKey)
      → get j (drop_orphaned_ttl_records items ttl) ≡ (if has_item j items then get j ttl else none)
  unfolding drop_orphaned_ttl_records
  drop_orphaned_ttl_records-get ttl j = elim (Option-cases (get j ttl)) [
    | inl e ↦ rw (drop_each-get ttl ttl j, mem-keys j ttl, e) (ground arith)
    | inr (r, e) ↦ rw (drop_each-get ttl ttl j, mem-keys j ttl, e) refl
  ]

  pub drop_orphaned_ttl_records-Distinct :
      (ttl : Dict ItemKey (TtlRecord M))
      → Distinct ttl
      → Distinct (drop_orphaned_ttl_records items ttl)
  unfolding drop_orphaned_ttl_records
  drop_orphaned_ttl_records-Distinct ttl d = drop_each-Distinct ttl ttl d
