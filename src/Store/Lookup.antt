-- ===== src/Store/Lookup.antt =====
-- Reads of the tables of the Store after the writes of a sweep.
use langgraph_runtime_inmem.Prelude.{
  true, none, List, [], ◌∷◌, ◌≡◌, refl, ◌==◌, nat_eq, string_eq, pair_eq, if◌then◌else◌, arith,
  String, Option-cases, inl, inr, ap, ◌∙◌, ◌⊎◌,
}
use langgraph_runtime_inmem.Dict.{Dict, get, put, remove}
use langgraph_runtime_inmem.Dict.Laws.{get-put, get-remove}
use langgraph_runtime_inmem.Store.Base.{
  Namespace, ItemKey, Nested, Tables, nested, lookup, list_eq, list_same_iff,
}
use langgraph_runtime_inmem.Store.{drop_bucket, drop_buckets}
use langgraph_runtime_inmem.Store.Sweep.{pop_item}

nested-put :
    {A : Type 0} (ns m : Namespace) (own : Dict String A) (table : Nested A)
    → nested m (put ns own table) ≡ (if ns == m then own else nested m table)
nested-put ns m own table = rw (get-put ns m own table) (ground arith)

nested-remove :
    {A : Type 0} (ns m : Namespace) (table : Nested A)
    → nested m (remove ns table) ≡ (if ns == m then [] else nested m table)
nested-remove ns m table = rw (get-remove ns m table) (ground arith)

List-cases : {A : Type 0} (xs : List A) → (xs ≡ []) ⊎ ((x : A) × (ys : List A) × (xs ≡ x ∷ ys))
List-cases [] = inl refl
List-cases (x ∷ xs) = inr (x, xs, refl)

get-nothing : {A : Type 0} (name : String) (own : Dict String A) → own ≡ [] → get name own ≡ none
get-nothing name own h = rw h (unfold get in refl)

module _ {A : Type 0} where
  same_bucket :
      (ns m : Namespace) (table : Nested A) → (ns == m) ≡ true → nested ns table ≡ nested m table
  same_bucket ns m table h = ap (λ n. nested n table) ((list_same_iff ns m).0 h)

  pub lookup-pop_item :
      (k j : ItemKey) (table : Nested A)
      → lookup j (pop_item k table) ≡ (if k == j then none else lookup j table)
  unfolding pop_item get
  lookup-pop_item (ns, key) (m, name) table = elim (Option-cases (get ns table)) [
    | inl e ↦ rw (pop_item, e) (ground (arith, same_bucket ns m table))
    | inr (own, e) ↦
        rw (pop_item, e, nested-put ns m (remove key own) table)
          (ground (arith, get-remove key name own, same_bucket ns m table))
  ]

  pub lookup-drop_bucket :
      (ns : Namespace) (k : ItemKey) (table : Nested A)
      → lookup k (drop_bucket ns table) ≡ lookup k table
  unfolding drop_bucket get
  lookup-drop_bucket ns (m, name) table = elim (List-cases (nested ns table)) [
    | inl e ↦
        rw (drop_bucket, e, nested-remove ns m table)
          (ground (arith, same_bucket ns m table, get-nothing name (nested ns table) e))
    | inr (p, own, e) ↦ rw (drop_bucket, e) refl
  ]

module _ {V W : Type 0} where
  pub lookup-drop_buckets :
      (nss : List Namespace) (k : ItemKey) (t : Tables V W)
      → (lookup k (drop_buckets nss t).items ≡ lookup k t.items)
        × (lookup k (drop_buckets nss t).vectors ≡ lookup k t.vectors)
  unfolding drop_buckets
  lookup-drop_buckets [] k t = (refl, refl)
  lookup-drop_buckets (ns ∷ nss) k t =
      let (items, vectors) =
        lookup-drop_buckets nss k
          (record { items = drop_bucket ns t.items; vectors = drop_bucket ns t.vectors }) in
      (items ∙ lookup-drop_bucket ns k t.items, vectors ∙ lookup-drop_bucket ns k t.vectors)
