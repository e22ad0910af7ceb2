-- ===== src/Json.antt =====
-- The JSON values that metadata, configurations and filters are made of: Python's `None`, `bool`,
-- `int`, `str`, `list` and `dict`. Floats are left out. `is_jsonb_contained` is of ops.py.
pub mod Laws
use langgraph_runtime_inmem.Prelude.{
  ℕ, zero, suc, Bool, true, false, ◌&&◌, ◌||◌, Option, none, some, String, ◌==◌, string_eq,
  if◌then◌else◌, nat_beq,
}
use langgraph_runtime_inmem.Prelude.Int.{ℤ, pos, negsuc}

mutual
  -- The fields of a `dict`, in insertion order.
  pub data Fields : Type 0 where
    end : Fields
    field : String → Value → Fields → Fields

  pub data Items : Type 0 where
    nil : Items
    cons : Value → Items → Items

  pub data Value : Type 0 where
    null : Value
    bool : Bool → Value
    num : ℤ → Value
    str : String → Value
    obj : Fields → Value
    arr : Items → Value

-- `len` of a list and of a dictionary.
abbrev pub count : Items → ℕ
count nil = 0
count (cons v vs) = suc (count vs)

abbrev pub size : Fields → ℕ
size end = 0
size (field k v fs) = suc (size fs)

abbrev pub is_empty : Fields → Bool
is_empty end = true
is_empty (field k v fs) = false

-- `fs.get(k)`, where `none` is a key that is not there.
unfoldable pub get : String → Fields → Option Value
get k end = none
get k (field j v fs) = if j == k then some v else get k fs

unfoldable pub put : String → Value → Fields → Fields
put k v end = field k v end
put k v (field j w fs) = if j == k then field j v fs else field j w (put k v fs)

-- `{j: v for j, v in fs.items() if j != k}`
unfoldable pub without : String → Fields → Fields
without k end = end
without k (field j v fs) = let rest = without k fs in if j == k then rest else field j v rest

-- `{**fs, **gs}`
unfoldable pub merge : Fields → Fields → Fields
merge fs end = fs
merge fs (field k v gs) = merge (put k v fs) gs

abbrev pub bool_num : Bool → ℤ → Bool
bool_num b (pos n) = nat_beq n (if b then 1 else 0)
bool_num b (negsuc n) = false

abbrev pub int_eq : ℤ → ℤ → Bool
int_eq (pos a) (pos b) = nat_beq a b
int_eq (negsuc a) (negsuc b) = nat_beq a b
int_eq _ _ = false

abbrev pub bool_eq : Bool → Bool → Bool
bool_eq true b = b
bool_eq false true = false
bool_eq false false = true

-- Python's `==`: a Boolean equals the number that it stands for, and dictionaries are compared
-- without regard to the order of their keys.
unfoldable mutual
  pub value_eq : Value → Value → Bool
  value_eq null null = true
  value_eq (bool a) (bool b) = bool_eq a b
  value_eq (bool a) (num b) = bool_num a b
  value_eq (num a) (bool b) = bool_num b a
  value_eq (num a) (num b) = int_eq a b
  value_eq (str a) (str b) = a == b
  value_eq (arr xs) (arr ys) = items_eq xs ys
  value_eq (obj fs) (obj gs) = nat_beq (size fs) (size gs) && fields_in fs gs
  value_eq _ _ = false

  pub items_eq : Items → Items → Bool
  items_eq nil nil = true
  items_eq (cons x xs) (cons y ys) = value_eq x y && items_eq xs ys
  items_eq _ _ = false

  pub fields_in : Fields → Fields → Bool
  fields_in end gs = true
  fields_in (field k v fs) gs =
      elim (get k gs) [ none ↦ false | some w ↦ value_eq v w ] && fields_in fs gs

-- `v in items`
unfoldable pub member : Value → Items → Bool
member v nil = false
member v (cons w ws) = value_eq w v || member v ws

-- `is_jsonb_contained(superset, subset)`, by recursion on the subset.
unfoldable mutual
  pub jsonb_contained : Fields → Fields → Bool
  jsonb_contained end superset = true
  jsonb_contained (field k v fs) superset =
      elim (get k superset) [ none ↦ false | some w ↦ jsonb_value v w ]
      && jsonb_contained fs superset

  pub jsonb_value : Value → Value → Bool
  jsonb_value (obj fs) (obj gs) = jsonb_contained fs gs
  jsonb_value v w = value_eq w v

unfoldable pub is_jsonb_contained : Fields → Fields → Bool
unfolding jsonb_contained
is_jsonb_contained superset subset = jsonb_contained subset superset
