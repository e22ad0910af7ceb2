-- ===== src/Ops/Ttl.antt =====
-- ops.py: the time to live of a thread, from its own override or from the global configuration.
use Prim.Native.Char.{code}
use langgraph_runtime_inmem.Prelude.{
  ℕ, ◌+◌, Bool, true, false, ◌&&◌, Option, none, some, List, [], ◌∷◌, String, ◌==◌, nat_eq,
  if◌then◌else◌, leb, http, Result, ok, err, ◌>>=◌,
}
use langgraph_runtime_inmem.Prelude.Int.{ℤ, pos, negsuc}
use langgraph_runtime_inmem.Dict.{Dict, get, put, remove, get_or}
use langgraph_runtime_inmem.Ops.State.{
  Strategy, delete, keep_latest, TtlState, no_ttl_state, Thread,
}

-- A configured value as `float` reads it: `None`, a number, a text with the number that it denotes if
-- it denotes one, or something else.
pub data Setting : Type 0 where
  nothing : Setting
  number : ℤ → Setting
  text : Option ℤ → Setting
  other : Setting

-- The keys of a TTL configuration that are read; `none` is a key that is not there. The value of
-- `strategy` is its text under `str`.
pub record TtlConfig : Type 0 where
  pub strategy : Option String
  pub ttl : Option Setting
  pub ttl_minutes : Option Setting
  pub default_ttl : Option Setting

-- A normalized configuration.
pub record TtlPolicy : Type 0 where
  pub strategy : Strategy
  pub ttl_minutes : ℕ

-- `str.lower` on the letters of the two strategies' names, as code points.
abbrev pub lower_codes : String → List ℕ
lower_codes String.[] = []
lower_codes (String.◌∷◌ c s) =
    let n = code c in (if leb b'A' n && leb n b'Z' then n + 32 else n) ∷ lower_codes s

abbrev pub codes_eq : List ℕ → List ℕ → Bool
codes_eq [] [] = true
codes_eq (a ∷ as') (b ∷ bs) = a == b && codes_eq as' bs
codes_eq _ _ = false

unfoldable pub parse_strategy : Option String → Option Strategy
parse_strategy none = some delete
parse_strategy (some s) =
    if codes_eq (lower_codes s) (lower_codes "delete")
    then some delete
    else if codes_eq (lower_codes s) (lower_codes "keep_latest")
    then some keep_latest
    else none

-- `config.get("ttl", config.get("ttl_minutes", config.get("default_ttl")))`: the first key that is
-- there, also if its value is `None`.
abbrev pub first_setting : Option Setting → Option Setting → Option Setting → Setting
first_setting (some a) b c = a
first_setting none (some b) c = b
first_setting none none (some c) = c
first_setting none none none = nothing

-- The minutes are there, are a number, and are not negative.
unfoldable pub read_minutes : Setting → Result (Option ℕ)
read_minutes nothing = ok none
read_minutes (number (pos n)) = ok (some n)
read_minutes (number (negsuc n)) = err (http 422)
read_minutes (text (some (pos n))) = ok (some n)
read_minutes (text (some (negsuc n))) = err (http 422)
read_minutes (text none) = err (http 422)
read_minutes other = err (http 422)

unfoldable pub normalize_ttl_config : Option TtlConfig → Result (Option TtlPolicy)
unfolding parse_strategy read_minutes
normalize_ttl_config none = ok none
normalize_ttl_config (some config) = elim (parse_strategy config.strategy) [
  | none ↦ err (http 422)
  | some strategy ↦ do
    minutes ← read_minutes (first_setting config.ttl config.ttl_minutes config.default_ttl)
    elim minutes [
      | none ↦ ok none
      | some n ↦ ok (some (record { strategy = strategy; ttl_minutes = n }))
    ]
]

-- `ttl_store.get(str(thread_id), {})`
abbrev pub ttl_state : Dict ℕ TtlState → ℕ → TtlState
ttl_state ttls thread_id = get_or (get thread_id ttls) no_ttl_state

-- The policy of a state that holds an override, and otherwise the global one.
unfoldable pub policy_of_state : Option TtlConfig → TtlState → Result (Option TtlPolicy)
policy_of_state global state = elim state.ttl_minutes [
  | some minutes ↦
      ok (some (record { strategy = get_or state.strategy delete; ttl_minutes = minutes }))
  | none ↦ normalize_ttl_config global
]

unfoldable pub effective_thread_ttl :
    Option TtlConfig → Dict ℕ TtlState → ℕ → Result (Option TtlPolicy × TtlState)
unfolding policy_of_state
effective_thread_ttl global ttls thread_id = do
  let state = ttl_state ttls thread_id
  config ← policy_of_state global state
  ok (config, state)

-- An override that names no minutes removes the thread's record.
unfoldable pub set_thread_ttl_override : Dict ℕ TtlState → ℕ → TtlConfig → Result (Dict ℕ TtlState)
set_thread_ttl_override ttls thread_id ttl = do
  normalized ← normalize_ttl_config (some ttl)
  elim normalized [
    | none ↦ ok (remove thread_id ttls)
    | some policy ↦ ok (
        put thread_id
          (record {
            strategy = some policy.strategy;
            ttl_minutes = some policy.ttl_minutes;
            last_swept_updated_at = none;
          })
          ttls)
  ]

-- `last_swept is not None and last_swept >= updated_at`
abbrev pub is_swept : Option ℕ → ℕ → Bool
is_swept none updated_at = false
is_swept (some swept) updated_at = leb updated_at swept

abbrev pub is_keep_latest : Strategy → Bool
is_keep_latest keep_latest = true
is_keep_latest delete = false

pub record TtlInfo : Type 0 where
  pub strategy : Strategy
  pub ttl_minutes : ℕ
  pub expires_at : Option ℕ

unfoldable pub thread_ttl_info : Thread → TtlPolicy → TtlState → TtlInfo
thread_ttl_info thread config state = record {
  strategy = config.strategy;
  ttl_minutes = config.ttl_minutes;
  expires_at =
      if is_swept state.last_swept_updated_at thread.updated_at && is_keep_latest config.strategy
      then none
      else some (thread.updated_at + config.ttl_minutes);
}
