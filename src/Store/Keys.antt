-- ===== src/Store/Keys.antt =====
-- Whether a key is in a list, and conditionals on it.
use langgraph_runtime_inmem.Prelude.{
  Bool, true, false, Option, none, some, ◌≡◌, refl, ◌∙◌, ap, sym, ◌==◌, ◌||◌, if◌then◌else◌, Eq,
  Bool-cases, inl, inr, arith,
}
use langgraph_runtime_inmem.Dict.{is_some}

pub if_if :
    {A : Type 0} (b c : Bool) (x y : A)
    → (if c then x else if b then x else y) ≡ (if b || c then x else y)
if_if true true x y = refl
if_if true false x y = refl
if_if false c x y = refl

pub is_some-false : {A : Type 0} (o : Option A) → is_some o ≡ false → o ≡ none
is_some-false none h = refl
is_some-false (some a) h = cc

-- What an update leaves of an old value.
abbrev pub updated : {A : Type 0} → Option (Option A) → Option A → Option A
updated none old = old
updated (some new) old = new

-- A guard that the other one implies.
pub guard_lem :
    {A : Type 0} (b c : Bool) (x : A)
    → (c ≡ true → b ≡ true)
    → (if b then if c then some x else none else none) ≡ (if c then some x else none)
guard_lem true c x h = refl
guard_lem false true x h = cc (h refl)
guard_lem false false x h = refl

-- What belongs to an item goes where the item does.
pub owned_if :
    {V R : Type 0} (gone : Bool) (item after : Option V) (old left : Option R)
    → after ≡ (if gone then none else item)
    → left ≡ (if gone then none else old)
    → (is_some item ≡ false → old ≡ none)
    → is_some after ≡ false
    → left ≡ none
owned_if true item after old left a l own h = l
owned_if false item after old left a l own h = l ∙ own (ap is_some (sym a) ∙ h)

pub ||-false : (b c : Bool) → (b || c) ≡ false → (b ≡ false) × (c ≡ false)
||-false b c h = ground arith

module _ {K : Type 0} ⦃e : Eq K⦄ where
  -- A write to what is absent changes nothing.
  pub absent_lem :
      {A : Type 0} (f : K → Option A) (k j : K) → f k ≡ none → f j ≡ (if k == j then none else f j)
  absent_lem f k j h = elim (Bool-cases (k == j)) [
    | inl same ↦ rw same (ap f (sym ((e.same_iff k j).0 same)) ∙ h)
    | inr other ↦ rw other refl
  ]

  pub same_value :
      {A : Type 0} (f : K → A) (k j : K) (y : A)
      → (if k == j then f k else y) ≡ (if k == j then f j else y)
  same_value f k j y = elim (Bool-cases (k == j)) [
    | inl same ↦ rw same (ap f ((e.same_iff k j).0 same))
    | inr other ↦ rw other refl
  ]

  -- A write before the other updates, which do not name its key.
  pub updated_if :
      {A : Type 0} (f : K → Option (Option A)) (k j : K) (new old : Option A)
      → f k ≡ none
      → updated (f j) (if k == j then new else old) ≡ updated (if k == j then some new else f j) old
  updated_if f k j new old h = elim (Bool-cases (k == j)) [
    | inl same ↦ rw (same, ap f (sym ((e.same_iff k j).0 same)) ∙ h) refl
    | inr other ↦ rw other refl
  ]

  pub beq_false : (k j : K) → (j == k) ≡ false → (k == j) ≡ false
  beq_false k j h = ground (arith, e.same_iff k j, e.same_iff j k)
