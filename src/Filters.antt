-- ===== src/Filters.antt =====
-- ops.py: `_validate_filter_structure` and `_check_filter_match`, the authorization filters.
-- `budget` is 3 - nesting_level, so that a nesting level above 2 is the budget zero, and both
-- recursions are structural in it. A group that is no dictionary is carried through both functions.
pub mod Validated
pub mod Meaning
use Prim.Native.Char.{code}
use langgraph_runtime_inmem.Prelude.{
  ℕ, zero, suc, Bool, true, false, ◌&&◌, ◌||◌, not, Option, none, some, String, ◌==◌, string_eq,
  if◌then◌else◌, ltb, http, stop_iteration, type_error, attribute_error, raise_if, nat_eq, Result,
  ok, err, ◌>>=◌, ◌>>◌,
}
use langgraph_runtime_inmem.Prelude.Int.{pos}
use langgraph_runtime_inmem.Json.{
  Value, null, bool, num, str, arr, obj, Items, nil, cons, Fields, end, field, count, is_empty, get,
  without, value_eq, member,
}

-- `groups = filters[op]`, which must be a list of at least two groups.
unfoldable pub group_list : Value → Result Items
group_list (arr items) = if ltb (count items) 2 then err (http 500) else ok items
group_list _ = err (http 500)

-- `not group`
abbrev pub is_falsy : Value → Bool
is_falsy null = true
is_falsy (bool b) = not b
is_falsy (num (pos zero)) = true
is_falsy (str s) = s == ""
is_falsy (arr nil) = true
is_falsy (obj end) = true
is_falsy _ = false

abbrev pub starts_with : String → String → Bool
starts_with String.[] s = true
starts_with (String.◌∷◌ c p) String.[] = false
starts_with (String.◌∷◌ c p) (String.◌∷◌ d s) = code c == code d && starts_with p s

-- `part in text`
abbrev pub occurs : String → String → Bool
occurs part String.[] = part == ""
occurs part (String.◌∷◌ c s) = starts_with part (String.◌∷◌ c s) || occurs part s

-- `"$or" in group`, `"$and" in group` of a truthy group that is no dictionary: a text or a list is
-- searched, and raises when it is indexed by what was found; the others cannot be searched.
unfoldable pub without_operators : Value → Result (Unit {0})
without_operators (str s) = raise_if (occurs "$or" s || occurs "$and" s) type_error
without_operators (arr items) =
    raise_if (member (str "$or") items || member (str "$and") items) type_error
without_operators v = err type_error

-- `_validate_filter_structure(group)`. What is no dictionary has its nesting level checked, as the
-- empty filter has.
unfoldable pub validate_group : (Fields → Result (Unit {0})) → Value → Result (Unit {0})
unfolding without_operators
validate_group validate (obj fs) = validate fs
validate_group validate v = validate end >> (if is_falsy v then ok tt else without_operators v)

-- `_check_filter_match(metadata, group)`; what is no dictionary has no `items`.
unfoldable pub check_group : (Fields → Result Bool) → Value → Result Bool
unfolding without_operators
check_group check (obj fs) = check fs
check_group check v = do
  matched ← check end
  if is_falsy v then ok matched else without_operators v >> err attribute_error

-- `for group in groups: _validate_filter_structure(group)`
unfoldable pub each_group : (Fields → Result (Unit {0})) → Items → Result (Unit {0})
unfolding validate_group
each_group validate nil = ok tt
each_group validate (cons v vs) = validate_group validate v >> each_group validate vs

-- One operator of `_validate_filter_structure`: its groups, and the remaining filters.
unfoldable pub validate_operator :
    (Fields → Result (Unit {0})) → String → Fields → Result (Unit {0})
unfolding group_list each_group without
validate_operator validate op filters = elim (get op filters) [
  | none ↦ ok tt
  | some v ↦ do
    groups ← group_list v
    each_group validate groups
    let remaining_filters = without op filters
    if is_empty remaining_filters then ok tt else validate remaining_filters
]

unfoldable pub validate_filter_structure : ℕ → Fields → Result (Unit {0})
unfolding validate_operator
validate_filter_structure zero filters = err (http 500)
validate_filter_structure (suc budget) filters = if is_empty filters then ok tt else do
  validate_operator (validate_filter_structure budget) "$or" filters
  validate_operator (validate_filter_structure budget) "$and" filters

-- The `$or` loop stops at the first group that matches, the `$and` loop at the first that does not.
unfoldable pub any_group : (Fields → Result Bool) → Items → Result Bool
unfolding check_group
any_group check nil = ok false
any_group check (cons v vs) = do
  matched ← check_group check v
  if matched then ok true else any_group check vs

unfoldable pub all_groups : (Fields → Result Bool) → Items → Result Bool
unfolding check_group
all_groups check nil = ok true
all_groups check (cons v vs) = do
  matched ← check_group check v
  if matched then all_groups check vs else ok false

-- `key in metadata and metadata[key] == value`
abbrev pub has_value : Fields → String → Value → Bool
has_value metadata key value = elim (get key metadata) [ none ↦ false | some v ↦ value_eq v value ]

unfoldable pub all_members : Items → Items → Bool
all_members nil elements = true
all_members (cons v vs) elements = member v elements && all_members vs elements

unfoldable pub contains_value : Value → Value → Bool
unfolding all_members
contains_value (arr elements) (arr wanted) = all_members wanted elements
contains_value (arr elements) wanted = member wanted elements
contains_value _ wanted = false

abbrev pub contains_at : Fields → String → Value → Bool
contains_at metadata key wanted = elim (get key metadata) [
  | none ↦ false
  | some v ↦ contains_value v wanted
]

-- One entry of the regular filters. Of a dictionary only the first operator is read, and an operator
-- that is neither `$eq` nor `$contains` is passed over.
unfoldable pub condition_holds : Fields → String → Value → Result Bool
unfolding contains_value
condition_holds metadata key (obj end) = err stop_iteration
condition_holds metadata key (obj (field op filter_value rest)) =
    if op == "$eq"
    then ok (has_value metadata key filter_value)
    else if op == "$contains"
    then ok (contains_at metadata key filter_value)
    else ok true
condition_holds metadata key value = ok (has_value metadata key value)

unfoldable pub regular_match : Fields → Fields → Result Bool
regular_match metadata end = ok true
regular_match metadata (field key value filters) = do
  holds ← condition_holds metadata key value
  if holds then regular_match metadata filters else ok false

-- `$or` or `$and` with its groups validated first and then matched, and the remaining filters.
unfoldable pub match_operator :
    (Fields → Result (Unit {0}))
    → (Fields → Result Bool)
    → ((Fields → Result Bool) → Items → Result Bool)
    → String
    → Value
    → Fields
    → Result Bool
unfolding group_list each_group without
match_operator validate check match_groups op v filters = do
  groups ← group_list v
  each_group validate groups
  matched ← match_groups check groups
  let remaining_filters = without op filters
  if not matched
      then ok false
      else if is_empty remaining_filters
      then ok true
      else check remaining_filters

-- By the operator that is found: `$or` before `$and`, and otherwise the regular filters.
unfoldable pub match_found :
    (Fields → Result (Unit {0}))
    → (Fields → Result Bool)
    → Fields
    → Fields
    → Option Value
    → Option Value
    → Result Bool
unfolding match_operator regular_match
match_found validate check metadata filters (some v) conjunction =
    match_operator validate check any_group "$or" v filters
match_found validate check metadata filters none (some v) =
    match_operator validate check all_groups "$and" v filters
match_found validate check metadata filters none none = regular_match metadata filters

unfoldable pub check_filter_match : ℕ → Fields → Fields → Result Bool
check_filter_match zero metadata filters = err (http 500)
check_filter_match (suc budget) metadata filters =
    let validate = validate_filter_structure budget in
    let check = check_filter_match budget metadata in
    if is_empty filters
    then ok true
    else match_found validate check metadata filters (get "$or" filters) (get "$and" filters)

-- The callers' test, `filters and not _check_filter_match(metadata, filters)`, at nesting level 0.
unfoldable pub is_allowed : Fields → Fields → Result Bool
is_allowed metadata filters = check_filter_match 3 metadata filters
