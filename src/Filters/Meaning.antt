-- ===== src/Filters/Meaning.antt =====
-- What a filter means: `$or` and `$and` as disjunction and conjunction, regular filters as the
-- conjunction of their conditions.
use langgraph_runtime_inmem.Prelude.{
  ℕ, suc, ◌≡◌, ◌↔◌, refl, Bool, true, ◌&&◌, ◌||◌, none, String, string_eq, arith, ok,
}
use langgraph_runtime_inmem.Json.{Value, arr, obj, nil, cons, Fields, end, field, get}
use langgraph_runtime_inmem.Filters.{
  validate_filter_structure, any_group, all_groups, regular_match, match_found, check_filter_match,
}

-- `{op: [f, g]}`
abbrev pub two_groups : String → Fields → Fields → Fields
two_groups op f g = field op (arr (cons (obj f) (cons (obj g) nil))) end

-- When two valid groups are decided at one nesting level, the filter `{"$or": [f, g]}` one level
-- above is decided by their disjunction, and `{"$and": [f, g]}` by their conjunction.
pub check-two_groups :
    (budget : ℕ) (metadata f g : Fields) (a b : Bool)
    → validate_filter_structure budget f ≡ ok tt
    → validate_filter_structure budget g ≡ ok tt
    → check_filter_match budget metadata f ≡ ok a
    → check_filter_match budget metadata g ≡ ok b
    → (check_filter_match (suc budget) metadata (two_groups "$or" f g) ≡ ok (a || b))
      × (check_filter_match (suc budget) metadata (two_groups "$and" f g) ≡ ok (a && b))
unfolding get match_found any_group all_groups
check-two_groups n m f g a b vf vg cf cg = (
  unfold check_filter_match in rw (vf, vg, cf, cg) (ground arith),
  unfold check_filter_match in rw (vf, vg, cf, cg) (ground arith),
)

-- Each field of a dictionary satisfies `P`.
abbrev pub AllFields : (String → Value → Type 0) → Fields → Type 0
AllFields P end = Unit
AllFields P (field k v fs) = P k v × AllFields P fs

-- Every condition on its own matches.
abbrev pub EachMatches : ℕ → Fields → Fields → Type 0
EachMatches n m = AllFields (λ k v. check_filter_match (suc n) m (field k v end) ≡ ok true)

check-regular :
    (n : ℕ) (m fs : Fields)
    → get "$or" fs ≡ none
    → get "$and" fs ≡ none
    → check_filter_match (suc n) m fs ≡ regular_match m fs
check-regular n m end p q = unfold check_filter_match regular_match in refl
check-regular n m (field k v fs) p q = unfold check_filter_match match_found in rw (p, q) refl

EachMatches-iff :
    (n : ℕ) (m fs : Fields)
    → get "$or" fs ≡ none
    → get "$and" fs ≡ none
    → (regular_match m fs ≡ ok true) ↔ EachMatches n m fs
unfolding get regular_match
EachMatches-iff n m end p q = ground arith
EachMatches-iff n m (field k v fs) p q =
    ground (arith, EachMatches-iff n m fs, check-regular n m (field k v end))

-- A filter without `$or` and `$and` matches exactly when each of its conditions, taken as a filter
-- of its own, matches.
pub check_regular_iff :
    (budget : ℕ) (metadata filters : Fields)
    → get "$or" filters ≡ none
    → get "$and" filters ≡ none
    → (check_filter_match (suc budget) metadata filters ≡ ok true)
      ↔ EachMatches budget metadata filters
check_regular_iff n m fs p q = rw (check-regular n m fs p q) (EachMatches-iff n m fs p q)
