-- ===== src/Filters/Validated.antt =====
-- What `_validate_filter_structure` is good for: a filter that it accepts is decided by
-- `_check_filter_match`.
use langgraph_runtime_inmem.Prelude.{
  ℕ, zero, suc, ◌≡◌, refl, Bool, true, false, not, Option, none, some, String, arith, ◌⊎◌, inr,
  stop_iteration, attribute_error, Result, ok, err, ◌>>=◌, ◌>>◌, if◌then◌else◌,
}
use langgraph_runtime_inmem.Json.{
  Value, null, bool, num, str, obj, arr, Items, nil, cons, Fields, end, field, is_empty, get,
  without,
}
use langgraph_runtime_inmem.Filters.{
  group_list, is_falsy, validate_group, check_group, without_operators, each_group,
  validate_operator, validate_filter_structure, any_group, all_groups, condition_holds,
  regular_match, match_operator, match_found, check_filter_match,
}

-- A Boolean, or the fault of a condition with no operator or of a group that is no dictionary.
abbrev pub IsDecided : Result Bool → Type 0
IsDecided (ok b) = Unit
IsDecided (err e) = (e ≡ stop_iteration) ⊎ (e ≡ attribute_error)

condition_holds-IsDecided :
    (m : Fields) (k : String) (v : Value) → IsDecided (condition_holds m k v)
unfolding condition_holds
condition_holds-IsDecided m k v = ground arith

regular_match-IsDecided : (m fs : Fields) → IsDecided (regular_match m fs)
unfolding regular_match
regular_match-IsDecided m end = tt
regular_match-IsDecided m (field k v fs) =
    ground (arith, condition_holds-IsDecided m k v, regular_match-IsDecided m fs)

-- The parts of a block that succeeded.
bind_inversion :
    {A : Type 0} (r : Result A) (f : A → Result (Unit {0})) (rest : Result (Unit {0}))
    → (r >>= λ a. f a >> rest) ≡ ok tt
    → (a : A) × (r ≡ ok a) × (f a ≡ ok tt) × (rest ≡ ok tt)
bind_inversion (ok a) f rest h = (a, refl, ground arith, ground arith)
bind_inversion (err e) f rest h = cc

guarded_step :
    (r : Result Bool) (done : Bool) (rest : Result Bool)
    → IsDecided r
    → (done ≡ false → IsDecided rest)
    → IsDecided (r >>= λ matched. if not matched then ok false else if done then ok true else rest)
guarded_step (ok true) true rest h k = tt
guarded_step (ok true) false rest h k = k refl
guarded_step (ok false) done rest h k = tt
guarded_step (err e) done rest h k = h

both_inversion :
    (r : Result (Unit {0})) (rest : Result (Unit {0}))
    → (r >> rest) ≡ ok tt
    → (r ≡ ok tt) × (rest ≡ ok tt)
both_inversion (ok u) rest h = (refl, h)
both_inversion (err e) rest h = cc

module _ (validate : Fields → Result (Unit {0})) (check : Fields → Result Bool)
    (sound : (fs : Fields) → validate fs ≡ ok tt → IsDecided (check fs)) where
  any_step :
      (r : Result Bool) (rest : Result Bool)
      → IsDecided r
      → IsDecided rest
      → IsDecided (r >>= λ matched. if matched then ok true else rest)
  any_step (ok true) rest h k = tt
  any_step (ok false) rest h k = k
  any_step (err e) rest h k = h

  all_step :
      (r : Result Bool) (rest : Result Bool)
      → IsDecided r
      → IsDecided rest
      → IsDecided (r >>= λ matched. if matched then rest else ok false)
  all_step (ok true) rest h k = k
  all_step (ok false) rest h k = tt
  all_step (err e) rest h k = h

  other-IsDecided :
      (v : Value)
      → (validate end >> (if is_falsy v then ok tt else without_operators v)) ≡ ok tt
      → IsDecided (
          check end >>= λ matched.
          if is_falsy v then ok matched else without_operators v >> err attribute_error)
  other-IsDecided v h =
      let (valid, rest) = both_inversion (validate end) _ h in
      go (check end) (is_falsy v) (without_operators v) (sound end valid) rest
    where
      go :
          (r : Result Bool) (b : Bool) (operators : Result (Unit {0}))
          → IsDecided r
          → (if b then ok tt else operators) ≡ ok tt
          → IsDecided (r >>= λ matched. if b then ok matched else operators >> err attribute_error)
      go (err e) b operators d h = d
      go (ok b) true operators d h = tt
      go (ok b) false (ok u) d h = inr refl
      go (ok b) false (err e) d h = cc

  check_group-IsDecided :
      (v : Value) → validate_group validate v ≡ ok tt → IsDecided (check_group check v)
  unfolding validate_group check_group
  check_group-IsDecided (obj fs) h = sound fs h
  check_group-IsDecided null h = other-IsDecided null h
  check_group-IsDecided (bool b) h = other-IsDecided (bool b) h
  check_group-IsDecided (num z) h = other-IsDecided (num z) h
  check_group-IsDecided (str s) h = other-IsDecided (str s) h
  check_group-IsDecided (arr vs) h = other-IsDecided (arr vs) h

  any_group-IsDecided :
      (vs : Items) → each_group validate vs ≡ ok tt → IsDecided (any_group check vs)
  unfolding each_group any_group
  any_group-IsDecided nil h = tt
  any_group-IsDecided (cons v vs) h =
      let (valid, rest) = both_inversion (validate_group validate v) _ h in
      any_step (check_group check v) (any_group check vs) (check_group-IsDecided v valid)
        (any_group-IsDecided vs rest)

  all_groups-IsDecided :
      (vs : Items) → each_group validate vs ≡ ok tt → IsDecided (all_groups check vs)
  unfolding each_group all_groups
  all_groups-IsDecided nil h = tt
  all_groups-IsDecided (cons v vs) h =
      let (valid, rest) = both_inversion (validate_group validate v) _ h in
      all_step (check_group check v) (all_groups check vs) (check_group-IsDecided v valid)
        (all_groups-IsDecided vs rest)

  match_operator-IsDecided :
      (match_groups : (Fields → Result Bool) → Items → Result Bool)
      → ((vs : Items) → each_group validate vs ≡ ok tt → IsDecided (match_groups check vs))
      → (op : String) (v : Value) (fs : Fields) → get op fs ≡ some v
      → validate_operator validate op fs ≡ ok tt
      → IsDecided (match_operator validate check match_groups op v fs)
  unfolding validate_operator match_operator
  match_operator-IsDecided match_groups decided op v fs found valid =
      let (gs, listed, each_valid, rest) =
        bind_inversion (group_list v) (each_group validate)
          (if is_empty (without op fs) then ok tt else validate (without op fs))
          (rw (found, validate_operator) at valid) in
      rw (listed, each_valid)
        (guarded_step (match_groups check gs) (is_empty (without op fs)) (check (without op fs))
          (decided gs each_valid) (λ more. sound (without op fs) (rw more at rest)))

  match_found-IsDecided :
      (m fs : Fields) (disjunction conjunction : Option Value)
      → get "$or" fs ≡ disjunction
      → get "$and" fs ≡ conjunction
      → validate_operator validate "$or" fs ≡ ok tt
      → validate_operator validate "$and" fs ≡ ok tt
      → IsDecided (match_found validate check m fs disjunction conjunction)
  unfolding match_found
  match_found-IsDecided m fs (some v) conjunction p q hor hand =
      match_operator-IsDecided any_group any_group-IsDecided "$or" v fs p hor
  match_found-IsDecided m fs none (some v) p q hor hand =
      match_operator-IsDecided all_groups all_groups-IsDecided "$and" v fs q hand
  match_found-IsDecided m fs none none p q hor hand = regular_match-IsDecided m fs

-- A filter that `_validate_filter_structure` accepts is decided by `_check_filter_match` at the same
-- nesting level: the result is a Boolean, and never the error 500 of a malformed or too deeply
-- nested filter nor a `TypeError`. Two faults are left: that of a condition with no operator, and
-- that of a group that is no dictionary, which the validation accepts.
pub validated_filter-IsDecided :
    (budget : ℕ) (metadata filters : Fields)
    → validate_filter_structure budget filters ≡ ok tt
    → IsDecided (check_filter_match budget metadata filters)
unfolding validate_filter_structure check_filter_match
validated_filter-IsDecided zero m fs h = cc
validated_filter-IsDecided (suc n) m end h = tt
validated_filter-IsDecided (suc n) m (field k v fs) h =
    let (hor, hand) = both_inversion _ _ h in
    match_found-IsDecided (validate_filter_structure n) (check_filter_match n m)
      (λ gs valid. validated_filter-IsDecided n m gs valid) m (field k v fs) _ _ refl refl hor hand
