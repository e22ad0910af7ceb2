-- ===== src/Store/Base.antt =====
-- What store.py takes from outside: the tables of `InMemoryStore`, its `_apply_put_ops`, the size of
-- a pickled value, and the arithmetic of dates and percentages. A table is a dictionary of
-- dictionaries, and is read through `.get(namespace, {})`.
use langgraph_runtime_inmem.Prelude.{
  ℕ, Bool, true, false, ◌&&◌, Option, none, some, List, [], ◌∷◌, ◌≡◌, ◌↔◌, Eq, arith, Result,
  String, string_eq, pair_eq,
}
use langgraph_runtime_inmem.Prelude.Int.{ℤ}
use langgraph_runtime_inmem.Dict.{Dict, get, get_or, Distinct}

module _ {A : Type 0} ⦃e : Eq A⦄ where
  abbrev pub list_same : List A → List A → Bool
  list_same [] [] = true
  list_same [] (y ∷ ys) = false
  list_same (x ∷ xs) [] = false
  list_same (x ∷ xs) (y ∷ ys) = e.same x y && list_same xs ys

  pub list_same_iff : (xs ys : List A) → (list_same xs ys ≡ true) ↔ (xs ≡ ys)
  list_same_iff [] [] = ground arith
  list_same_iff [] (y ∷ ys) = ground arith
  list_same_iff (x ∷ xs) [] = ground arith
  list_same_iff (x ∷ xs) (y ∷ ys) = ground (arith, e.same_iff x y, list_same_iff xs ys)

  instance abbrev pub list_eq : Eq (List A)
  list_eq = record { same = list_same; same_iff = list_same_iff }

abbrev pub Namespace : Type 0
Namespace = List String

abbrev pub ItemKey : Type 0
ItemKey = Namespace × String

abbrev pub Nested : Type 0 → Type 0
Nested V = Dict Namespace (Dict String V)

-- `self._data.get(namespace, {})`
abbrev pub nested : {V : Type 0} → Namespace → Nested V → Dict String V
nested ns items = get_or (get ns items) []

-- `self._data.get(namespace, {}).get(key)`
abbrev pub lookup : {V : Type 0} → ItemKey → Nested V → Option V
lookup (ns, key) items = get key (nested ns items)

-- Items, and the vectors of their texts.
pub record Tables (V W : Type 0) : Type 0 where
  pub items : Nested V
  pub vectors : Nested W

-- `value` is none for a deletion.
pub record PutOp (U M : Type 0) : Type 0 where
  pub value : Option U
  pub ttl : Option M

-- Items are a V, their vectors a W, the values in them a U, minutes an M and percentages an F.
pub record StoreBase (V W U M F : Type 0) : Type 0 where
  pub estimate_pickle_size : ItemKey → Option V → Option W → ℤ
  pub apply_put_ops : Dict ItemKey (PutOp U M) → Tables V W → Tables V W
  -- `item.value`
  pub value_of : V → U
  -- `now + timedelta(minutes=ttl_minutes)`
  pub add_minutes : ℕ → M → Result ℕ
  -- `round(100 * a / b, 1)`
  pub percent : ℕ → ℤ → F
  pub zero_percent : F

-- What an inherited write does: the keys of the batch get their values, or lose them, and the other
-- keys keep their items and their vectors.
pub record IsWriter {V W U M F : Type 0} (base : StoreBase V W U M F) : Type 0 where
  pub kept :
      (ops : Dict ItemKey (PutOp U M)) (t : Tables V W) (k : ItemKey)
      → Distinct ops
      → get k ops ≡ none
      → (lookup k (base.apply_put_ops ops t).items ≡ lookup k t.items)
        × (lookup k (base.apply_put_ops ops t).vectors ≡ lookup k t.vectors)
  pub deleted :
      (ops : Dict ItemKey (PutOp U M)) (t : Tables V W) (k : ItemKey) (op : PutOp U M)
      → Distinct ops
      → get k ops ≡ some op
      → op.value ≡ none
      → lookup k (base.apply_put_ops ops t).items ≡ none
  pub stored :
      (ops : Dict ItemKey (PutOp U M)) (t : Tables V W) (k : ItemKey) (op : PutOp U M) (u : U)
      → Distinct ops
      → get k ops ≡ some op
      → op.value ≡ some u
      → (v : V) × (lookup k (base.apply_put_ops ops t).items ≡ some v) × (base.value_of v ≡ u)
