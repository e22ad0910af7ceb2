-- ===== src/Store/Calls/View.antt =====
-- The Store as a function from keys to values with their times of expiry, and what each call does to
-- that function.
use langgraph_runtime_inmem.Prelude.{
  ℕ, Option, none, some, List, [], ◌∷◌, ◌==◌, leb, if◌then◌else◌, string_eq, pair_eq, Result, ok,
  err, ◌>>=◌, ◌>>◌, Bool, ◌&&◌, ◌++◌,
}
use langgraph_runtime_inmem.Dict.{Dict, get}
use langgraph_runtime_inmem.Store.Base.{ItemKey, Nested, PutOp, StoreBase, lookup, list_eq}
use langgraph_runtime_inmem.Store.{Store, TtlRecord, Op, get_op, other_op}
use langgraph_runtime_inmem.Store.Calls.{Call, gets, searches, writes, sweeps}

-- A value with its time of expiry, if there is one.
abbrev pub Entry : Type 0 → Type 0 → Type 0
Entry U M = Option (U × Option (TtlRecord M))

abbrev pub View : Type 0 → Type 0 → Type 0
View U M = ItemKey → Entry U M

abbrev pub set : {A : Type 0} → ItemKey → A → (ItemKey → A) → ItemKey → A
set k new m j = if k == j then new else m j

abbrev pub expire : {U M : Type 0} → ℕ → Entry U M → Entry U M
expire now none = none
expire now (some (u, none)) = some (u, none)
expire now (some (u, some r)) = if leb r.expires_at now then none else some (u, some r)

-- The keys of the items that were asked for with a refresh, and found.
abbrev pub asked_gets : List (Op × Bool) → List ItemKey
asked_gets [] = []
asked_gets ((get_op namespace key refresh, found) ∷ ops) =
    if refresh && found then (namespace, key) ∷ asked_gets ops else asked_gets ops
asked_gets ((other_op, found) ∷ ops) = asked_gets ops

abbrev pub asked_searches : List (Bool × Option (List ItemKey)) → List ItemKey
asked_searches [] = []
asked_searches ((refresh, none) ∷ ops) = asked_searches ops
asked_searches ((refresh, some found) ∷ ops) = (if refresh then found else []) ++ asked_searches ops

module _ {V W U M F : Type 0} (base : StoreBase V W U M F) where
  -- An entry after a refresh, which gives it its own minutes from now on.
  abbrev pub touch : ℕ → Entry U M → Result (Entry U M)
  touch now none = ok none
  touch now (some (u, none)) = ok (some (u, none))
  touch now (some (u, some r)) = do
    expires_at ← base.add_minutes now r.ttl_minutes
    ok (some (u, some (record { expires_at = expires_at; ttl_minutes = r.ttl_minutes })))

  unfoldable pub touch_keys : List ItemKey → ℕ → View U M → Result (Unit {0}) × View U M
  touch_keys [] now m = (ok tt, m)
  touch_keys (k ∷ ks) now m = elim (touch now (m k)) [
    | err e ↦ (err e, m)
    | ok new ↦ touch_keys ks now (set k new m)
  ]

  -- An entry after a write: a value of a deletion is gone, and a time of expiry is always replaced.
  abbrev pub write : ℕ → Option (PutOp U M) → Entry U M → Entry U M
  write now none old = old
  write now (some op) old = elim (op.value) [
    | none ↦ none
    | some u ↦ elim (op.ttl) [
      | none ↦ some (u, none)
      | some ttl_minutes ↦ elim (base.add_minutes now ttl_minutes) [
        | err e ↦ some (u, none)
        | ok expires_at ↦
            some (u, some (record { expires_at = expires_at; ttl_minutes = ttl_minutes }))
      ]
    ]
  ]

  -- The time of expiry of a value that is written with one is in range.
  abbrev pub in_range : ℕ → PutOp U M → Result (Unit {0})
  in_range now op = elim (op.value) [
    | none ↦ ok tt
    | some u ↦ elim (op.ttl) [
      | none ↦ ok tt
      | some ttl_minutes ↦ do expires_at ← base.add_minutes now ttl_minutes; ok tt
    ]
  ]

  abbrev pub all_in_range : ℕ → Dict ItemKey (PutOp U M) → Result (Unit {0})
  all_in_range now [] = ok tt
  all_in_range now ((k, op) ∷ ops) = in_range now op >> all_in_range now ops

  -- One call.
  unfoldable pub view_step : View U M → Call U M → Result (Unit {0}) × View U M
  unfolding touch_keys
  view_step m (gets ops now) = touch_keys (asked_gets ops) now m
  view_step m (searches ops now) = touch_keys (asked_searches ops) now m
  view_step m (writes ops now) = elim (all_in_range now ops) [
    | err e ↦ (err e, m)
    | ok _ ↦ (ok tt, λ k. write now (get k ops) (m k))
  ]
  view_step m (sweeps now) = (ok tt, λ k. expire now (m k))

  unfoldable pub view_run : View U M → List (Call U M) → List (Result (Unit {0})) × View U M
  unfolding view_step
  view_run m [] = ([], m)
  view_run m (c ∷ cs) =
      let (r, after) = view_step m c in let (rs, final) = view_run after cs in (r ∷ rs, final)

  abbrev pub entry : Option V → Option (TtlRecord M) → Entry U M
  entry none r = none
  entry (some v) r = some (base.value_of v, r)

  abbrev pub view_of : Nested V → Dict ItemKey (TtlRecord M) → View U M
  view_of items ttl k = entry (lookup k items) (get k ttl)

  -- What the Store stands for.
  abbrev pub view : Store V W M F → View U M
  view s = view_of s.tables.items s.ttl
