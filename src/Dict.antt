-- ===== src/Dict.antt =====
-- Python's `dict`: an association list in insertion order. A write to a key that is there replaces
-- the value in its place, any other write goes to the end.
pub mod Laws
use langgraph_runtime_inmem.Prelude.{
  ℕ, Bool, true, false, Option, none, some, List, [], ◌∷◌, ◌≡◌, Eq, ◌==◌, if◌then◌else◌, map,
}

abbrev pub Dict {ℓ κ} : Type ℓ → Type κ → Type (ℓ ⊔ κ)
Dict K V = List (K × V)

module _ {K V : Type 0} ⦃e : Eq K⦄ where
  -- `m.get(k)`
  unfoldable pub get : K → Dict K V → Option V
  get k [] = none
  get k ((j, v) ∷ m) = if j == k then some v else get k m

  -- `m[k] = v`
  unfoldable pub put : K → V → Dict K V → Dict K V
  put k v [] = (k, v) ∷ []
  put k v ((j, w) ∷ m) = if j == k then (j, v) ∷ m else (j, w) ∷ put k v m

  -- `m.pop(k, None)`, the dictionary that is left
  unfoldable pub remove : K → Dict K V → Dict K V
  remove k [] = []
  remove k ((j, v) ∷ m) = let rest = remove k m in if j == k then rest else (j, v) ∷ rest

  -- No key occurs twice, as in every dictionary.
  abbrev pub Distinct : Dict K V → Type 0
  Distinct [] = Unit
  Distinct ((k, v) ∷ m) = (get k m ≡ none) × Distinct m

-- `m.get(k, d)`
abbrev pub get_or : {V : Type 0} → Option V → V → V
get_or none d = d
get_or (some v) d = v

abbrev pub is_some : {V : Type 0} → Option V → Bool
is_some none = false
is_some (some v) = true

abbrev pub keys : {K V : Type 0} → Dict K V → List K
keys = map (λ p. p.0)
