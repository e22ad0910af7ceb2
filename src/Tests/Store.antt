-- ===== src/Tests/Store.antt =====
-- A Store of numbers, with writes done one by one.
use langgraph_runtime_inmem.Prelude.{
  ℕ, ◌+◌, ◌≤◌, ltb, All, length, true, Option, none, some, List, [], ◌∷◌, ◌≡◌, refl, ◌∙◌, ap, ◌==◌,
  if◌then◌else◌, string_eq, pair_eq, ok, err, value_error, Bool-cases, inl, inr,
}
use langgraph_runtime_inmem.Prelude.Int.{pos, pos_part}
use langgraph_runtime_inmem.Dict.{Dict, get, put, Distinct, get_or}
use langgraph_runtime_inmem.Dict.Laws.{get-put}
use langgraph_runtime_inmem.Store.Base.{
  ItemKey, Nested, Tables, PutOp, StoreBase, IsWriter, nested, lookup, list_eq, list_same_iff,
}
use langgraph_runtime_inmem.Store.{Store, TtlRecord, get_op, init}
use langgraph_runtime_inmem.Store.Sweep.{pop_item, sweep_ttl, expired_keys}
use langgraph_runtime_inmem.Store.Sweep.Counts.{sweep_ttl-counts}
use langgraph_runtime_inmem.Store.Sweep.Effect.{is_due, sweep_ttl_lem}
use langgraph_runtime_inmem.Store.Calls.Sound.{IsSound, init-IsSound}
use langgraph_runtime_inmem.Store.Calls.Steps.{IsBatch, init-run-IsSound}
use langgraph_runtime_inmem.Store.Calls.View.{view, view_run}
use langgraph_runtime_inmem.Store.Calls.Refinement.{run-view_run}
use langgraph_runtime_inmem.Store.Lookup.{lookup-pop_item}
use langgraph_runtime_inmem.Store.Calls.{Call, gets, writes, sweeps, run}

put_item : {A : Type 0} → ItemKey → A → Nested A → Nested A
put_item (ns, key) a table = put ns (put key a (nested ns table)) table

-- `put` or `pop`, as the value says
unfoldable put_value : ItemKey → Option ℕ → Nested ℕ → Nested ℕ
put_value k none table = pop_item k table
put_value k (some u) table = put_item k u table

unfoldable put_all : Dict ItemKey (PutOp ℕ ℕ) → Nested ℕ → Nested ℕ
unfolding put_value
put_all [] table = table
put_all ((k, op) ∷ ops) table = put_value k op.value (put_all ops table)

abbrev numbers : StoreBase ℕ ℕ ℕ ℕ ℕ
numbers = record {
  estimate_pickle_size = λ k item vectors. pos (get_or item 0 + get_or vectors 0);
  apply_put_ops = λ ops t. record t { items = put_all ops t.items };
  value_of = λ v. v;
  add_minutes = λ now minutes. if ltb minutes 1000 then ok (now + minutes) else err value_error;
  percent = λ a b. a;
  zero_percent = 0;
}

lookup-put_item :
    (k j : ItemKey) (u : ℕ) (table : Nested ℕ)
    → lookup j (put_item k u table) ≡ (if k == j then some u else lookup j table)
unfolding put_item
lookup-put_item (ns, key) (m, name) u table = elim (Bool-cases (ns == m)) [
  | inl same ↦
      rw
        (
          get-put ns m (put key u (nested ns table)) table,
          same,
          get-put key name u (nested ns table),
        )
        (ap (λ n. if key == name then some u else get name (nested n table))
          ((list_same_iff ns m).0 same))
  | inr other ↦ rw (get-put ns m (put key u (nested ns table)) table, other) refl
]

-- The value of the key of a batch, and the old one of another key.
abbrev after_op : Option (PutOp ℕ ℕ) → Option ℕ → Option ℕ
after_op none old = old
after_op (some op) old = op.value

lookup-put_value :
    (k j : ItemKey) (value : Option ℕ) (table : Nested ℕ)
    → lookup j (put_value k value table) ≡ (if k == j then value else lookup j table)
unfolding put_value
lookup-put_value k j none table = lookup-pop_item k j table
lookup-put_value k j (some u) table = lookup-put_item k j u table

lookup-put_all :
    (ops : Dict ItemKey (PutOp ℕ ℕ)) (j : ItemKey) (table : Nested ℕ)
    → lookup j (put_all ops table) ≡ after_op (get j ops) (lookup j table)
unfolding put_all get
lookup-put_all [] j table = refl
lookup-put_all ((k, op) ∷ ops) j table = elim (Bool-cases (k == j)) [
  | inl same ↦ rw (lookup-put_value k j op.value (put_all ops table), same) refl
  | inr other ↦
      rw (lookup-put_value k j op.value (put_all ops table), other) (lookup-put_all ops j table)
]

numbers-IsWriter : IsWriter numbers
numbers-IsWriter = record {
  kept = λ ops t k d h. (lookup-put_all ops k t.items ∙ rw h refl, refl);
  deleted = λ ops t k op d h n. lookup-put_all ops k t.items ∙ rw (h, n) refl;
  stored = λ ops t k op u d h n. (u, lookup-put_all ops k t.items ∙ rw (h, n) refl, refl);
}

abbrev x_key : ItemKey
x_key = ("notes" ∷ [], "x")

abbrev y_key : ItemKey
y_key = ("notes" ∷ [], "y")

-- One item is loaded; the time of expiry of another one is an orphan.
abbrev loaded : Tables ℕ ℕ
loaded = record { items = ("notes" ∷ [], ("x", 40) ∷ []) ∷ []; vectors = [] }

abbrev loaded_ttl : Dict ItemKey (TtlRecord ℕ)
loaded_ttl =
    (x_key, record { expires_at = 10; ttl_minutes = 6 })
    ∷ (y_key, record { expires_at = 3; ttl_minutes = 3 })
    ∷ []

loaded_ttl-Distinct : Distinct loaded_ttl
unfolding get
loaded_ttl-Distinct = (refl, (refl, tt))

abbrev started : Store ℕ ℕ ℕ ℕ
started = init numbers loaded loaded_ttl

abbrev y_write : Dict ItemKey (PutOp ℕ ℕ)
y_write = (y_key, record { value = some 7; ttl = some 2 }) ∷ []

abbrev bad_write : Dict ItemKey (PutOp ℕ ℕ)
bad_write = (x_key, record { value = some 9; ttl = some 5000 }) ∷ []

abbrev calls : List (Call ℕ ℕ)
calls =
    gets ((get_op x_key.0 x_key.1 true, true) ∷ []) 8
    ∷ writes y_write 9
    ∷ writes bad_write 10
    ∷ sweeps 11
    ∷ []

calls-IsBatch : All (IsBatch numbers) calls
unfolding get
calls-IsBatch = (tt, ((refl, tt), ((refl, tt), (tt, tt))))

init-run-IsSound_example : IsSound numbers (run numbers started calls).1
init-run-IsSound_example =
    init-run-IsSound numbers numbers-IsWriter loaded loaded_ttl calls loaded_ttl-Distinct
      calls-IsBatch

started-IsSound : IsSound numbers started
started-IsSound = init-IsSound numbers loaded loaded_ttl loaded_ttl-Distinct

run-view_run_example :
    view_run numbers (view numbers started) calls
    ≡ ((run numbers started calls).0, view numbers (run numbers started calls).1)
run-view_run_example =
    run-view_run numbers numbers-IsWriter started calls calls-IsBatch started-IsSound

sweep_ttl-counts_example :
    let (deleted, after) = sweep_ttl numbers 12 started in
    let stats = after.last_ttl_sweep_stats in
    (deleted ≡ length (expired_keys 12 started.ttl))
    × (stats.deleted_items ≡ deleted)
    × (stats.total_before_bytes ≡ started.size_tracker.total_bytes)
    × (stats.deleted_size_bytes + pos_part after.size_tracker.total_bytes
        ≡ pos_part started.size_tracker.total_bytes)
    × (stats.deleted_size_bytes ≤ pos_part started.size_tracker.total_bytes)
sweep_ttl-counts_example = sweep_ttl-counts numbers 12 started started-IsSound

sweep_ttl_lem_example :
    let after = (sweep_ttl numbers 12 started).1 in
    let due = is_due 12 (get x_key started.ttl) in
    (lookup x_key after.tables.items ≡ (if due then none else lookup x_key started.tables.items))
    × (lookup x_key after.tables.vectors
        ≡ (if due then none else lookup x_key started.tables.vectors))
    × (get x_key after.ttl ≡ (if due then none else get x_key started.ttl))
    × (get x_key after.size_tracker.entries
        ≡ (if due then none else get x_key started.size_tracker.entries))
sweep_ttl_lem_example = sweep_ttl_lem numbers 12 started x_key started-IsSound.distinct
