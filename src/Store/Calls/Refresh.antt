-- ===== src/Store/Calls/Refresh.antt =====
-- A refresh of a time of expiry, on the Store and on what it stands for.
use langgraph_runtime_inmem.Prelude.{
  ℕ, false, Option, none, some, ◌≡◌, refl, ap, sym, ◌==◌, if◌then◌else◌, string_eq, pair_eq,
  Bool-cases, inl, inr, Option-cases, ok, err, Result-cases, ◌>>=◌, >>=-eq-ok, ok-injective, Error,
  err-injective,
}
use langgraph_runtime_inmem.Dict.{Dict, get, put, is_some}
use langgraph_runtime_inmem.Dict.Laws.{get-put, beq_refl}
use langgraph_runtime_inmem.Store.Base.{ItemKey, Nested, StoreBase, lookup, list_eq}
use langgraph_runtime_inmem.Store.{TtlRecord, has_item, refresh_ttl, new_record}
use langgraph_runtime_inmem.Store.Calls.View.{set, touch, entry, view_of}

module _ {V W U M F : Type 0} (base : StoreBase V W U M F) where
  touch_record :
      (u : U) (now : ℕ) (r : TtlRecord M)
      → touch base now (some (u, some r))
        ≡ (new_record base now r.ttl_minutes >>= λ fresh. ok (some (u, some fresh)))
  unfolding new_record
  touch_record u now r = elim (Result-cases (base.add_minutes now r.ttl_minutes)) [
    | inl (at, f) ↦ rw f refl
    | inr (e, f) ↦ rw f refl
  ]

  module _ (items : Nested V) (k : ItemKey) (now : ℕ) (ttl : Dict ItemKey (TtlRecord M)) where
    set-view_of :
        (ttl' : Dict ItemKey (TtlRecord M)) (j : ItemKey)
        → get j ttl' ≡ (if k == j then get k ttl' else get j ttl)
        → set k (view_of base items ttl' k) (view_of base items ttl) j ≡ view_of base items ttl' j
    set-view_of ttl' j h = elim (Bool-cases (k == j)) [
      | inl same ↦ rw same (ap (view_of base items ttl') ((pair_eq.same_iff k j).0 same))
      | inr other ↦ rw other (sym (ap (entry base (lookup j items)) (rw other at h)))
    ]

    put-get :
        (fresh : TtlRecord M) (j : ItemKey)
        → get j (put k fresh ttl) ≡ (if k == j then get k (put k fresh ttl) else get j ttl)
    put-get fresh j = rw (get-put k j fresh ttl, get-put k k fresh ttl, beq_refl k) refl

    same-get : (j : ItemKey) → get j ttl ≡ (if k == j then get k ttl else get j ttl)
    same-get j = elim (Bool-cases (k == j)) [
      | inl same ↦ rw same (sym (ap (λ i. get i ttl) ((pair_eq.same_iff k j).0 same)))
      | inr other ↦ rw other refl
    ]

    touch-none :
        (item : Option V) → touch base now (entry base item none) ≡ ok (entry base item none)
    touch-none none = refl
    touch-none (some v) = refl

    -- A refresh of one key, on the Store and on what it stands for.
    pub refresh_ttl-touch :
        (ttl' : Dict ItemKey (TtlRecord M))
        → (has_item k items ≡ false → get k ttl ≡ none)
        → refresh_ttl base k now ttl ≡ ok ttl'
        → (touch base now (view_of base items ttl k) ≡ ok (view_of base items ttl' k))
          × ((j : ItemKey)
              → set k (view_of base items ttl' k) (view_of base items ttl) j
                ≡ view_of base items ttl' j)
    unfolding refresh_ttl
    refresh_ttl-touch ttl' own h = elim (Option-cases (get k ttl)) [
      | inl e ↦
          let same = ok-injective (rw (refresh_ttl, e) at h) in
          rw (← same) (rw e (touch-none (lookup k items)), λ j. set-view_of ttl j (same-get j))
      | inr (r, e) ↦
          let (fresh, f, same) =
            >>=-eq-ok (new_record base now r.ttl_minutes) _ (rw (refresh_ttl, e) at h) in
          rw (← ok-injective same) (elim (Option-cases (lookup k items)) [
            | inl absent ↦ cc (own (ap is_some absent), e)
            | inr (v, there) ↦ (
              rw
                  (
                    e,
                    there,
                    touch_record (base.value_of v) now r,
                    f,
                    get-put k k fresh ttl,
                    beq_refl k,
                  )
                  refl,
              λ j. set-view_of (put k fresh ttl) j (put-get fresh j),
            )
          ])
    ]

    pub refresh_ttl-err :
        (e : Error)
        → (has_item k items ≡ false → get k ttl ≡ none)
        → refresh_ttl base k now ttl ≡ err e
        → touch base now (view_of base items ttl k) ≡ err e
    unfolding refresh_ttl
    refresh_ttl-err e own h = elim (Option-cases (get k ttl)) [
      | inl n ↦ cc (rw (refresh_ttl, n) at h)
      | inr (r, n) ↦ elim (Option-cases (lookup k items)) [
        | inl absent ↦ cc (own (ap is_some absent), n)
        | inr (v, there) ↦ elim (Result-cases (new_record base now r.ttl_minutes)) [
          | inl (fresh, f) ↦ cc (rw (refresh_ttl, n, f) at h)
          | inr (e', f) ↦
              rw (n, there, touch_record (base.value_of v) now r, f)
                (ap err (err-injective (rw (refresh_ttl, n, f) at h)))
        ]
      ]
    ]
