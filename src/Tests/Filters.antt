-- ===== src/Tests/Filters.antt =====
-- Inputs for the authorization filters.
use langgraph_runtime_inmem.Prelude.{◌≡◌, refl, true, false, ok, err, attribute_error}
use langgraph_runtime_inmem.Json.{
  str, arr, obj, nil, cons, Fields, end, field, get, without, value_eq, member,
}
use langgraph_runtime_inmem.Filters.{
  validate_filter_structure, check_filter_match, match_found, any_group, regular_match,
  condition_holds,
}
use langgraph_runtime_inmem.Filters.Validated
use langgraph_runtime_inmem.Filters.Meaning

abbrev metadata : Fields
metadata = field "owner" (str "ann") (field "tags" (arr (cons (str "a") (cons (str "b") nil))) end)

abbrev by_owner : Fields
by_owner = field "owner" (obj (field "$eq" (str "ann") end)) end

abbrev by_tag : Fields
by_tag = field "tags" (obj (field "$contains" (str "z") end)) end

either_is_valid : validate_filter_structure 3 (Meaning.two_groups "$or" by_owner by_tag) ≡ ok tt
unfolding validate_filter_structure get without
either_is_valid = refl

validated_filter-IsDecided_example :
    Validated.IsDecided (check_filter_match 3 metadata (Meaning.two_groups "$or" by_owner by_tag))
validated_filter-IsDecided_example =
    Validated.validated_filter-IsDecided 3 metadata (Meaning.two_groups "$or" by_owner by_tag)
      either_is_valid

-- A group that is a text: the validation accepts it, and the match fails on it.
abbrev text_group : Fields
text_group = field "$or" (arr (cons (str "abc") (cons (obj by_owner) nil))) end

text_is_valid : validate_filter_structure 3 text_group ≡ ok tt
unfolding validate_filter_structure get without
text_is_valid = refl

text_faults : check_filter_match 3 metadata text_group ≡ err attribute_error
unfolding check_filter_match match_found any_group get without validate_filter_structure
text_faults = refl

owner_valid : validate_filter_structure 2 by_owner ≡ ok tt
unfolding validate_filter_structure get without
owner_valid = refl

tag_valid : validate_filter_structure 2 by_tag ≡ ok tt
unfolding validate_filter_structure get without
tag_valid = refl

owner_matches : check_filter_match 2 metadata by_owner ≡ ok true
unfolding check_filter_match match_found regular_match condition_holds get value_eq
owner_matches = refl

tag_fails : check_filter_match 2 metadata by_tag ≡ ok false
unfolding check_filter_match match_found regular_match condition_holds get value_eq member
tag_fails = refl

check-two_groups_example :
    (check_filter_match 3 metadata (Meaning.two_groups "$or" by_owner by_tag) ≡ ok true)
    × (check_filter_match 3 metadata (Meaning.two_groups "$and" by_owner by_tag) ≡ ok false)
check-two_groups_example =
    Meaning.check-two_groups 2 metadata by_owner by_tag true false owner_valid tag_valid
      owner_matches tag_fails

no_or : get "$or" by_owner ≡ get "$or" end
unfolding get
no_or = refl

check_regular_iff_example :
    (check_filter_match 3 metadata by_owner ≡ ok true → Meaning.EachMatches 2 metadata by_owner)
    × (Meaning.EachMatches 2 metadata by_owner → check_filter_match 3 metadata by_owner ≡ ok true)
unfolding get
check_regular_iff_example = Meaning.check_regular_iff 2 metadata by_owner refl refl
