-- ===== src/Ops/Prune/Copies.antt =====
-- `Threads.copy`.
use langgraph_runtime_inmem.Prelude.{
  ℕ, ◌≡◌, ◌≢◌, refl, ap, sym, ◌∙◌, true, Option, none, some, nat_eq, arith, ok, Option-cases, inl,
  inr,
}
use langgraph_runtime_inmem.Dict.{Dict, put, get_or}
use langgraph_runtime_inmem.Dict
use langgraph_runtime_inmem.Dict.Laws.{get-put}
use langgraph_runtime_inmem.Json.{Fields, end}
use langgraph_runtime_inmem.Filters.{is_allowed}
use langgraph_runtime_inmem.Ops.State.{
  Thread, Db, Checkpointer, find_thread, TtlState, delete, idle,
}
use langgraph_runtime_inmem.Ops.State.Tables.{find_thread-append}
use langgraph_runtime_inmem.Ops.Ttl.{TtlConfig, ttl_state, policy_of_state}
use langgraph_runtime_inmem.Ops.Threads.{new_thread}
use langgraph_runtime_inmem.Ops.Prune.{copy_ttl, add_copy, copy}

abbrev copied : TtlState → ℕ → TtlState
copied state minutes = record {
  strategy = some (get_or state.strategy delete);
  ttl_minutes = some minutes;
  last_swept_updated_at = none;
}

copied_state :
    (old new minutes : ℕ) (ttls : Dict ℕ TtlState) (state : TtlState)
    → Dict.get old ttls ≡ some state
    → state.ttl_minutes ≡ some minutes
    → Dict.get new (copy_ttl old new ttls) ≡ some (copied state minutes)
unfolding copy_ttl
copied_state old new minutes ttls state found set =
    rw (found, copy_ttl, set, get-put) (ground arith)

policy_of_copied :
    (global : Option TtlConfig) (state : TtlState) (minutes : ℕ)
    → state.ttl_minutes ≡ some minutes
    → policy_of_state global (copied state minutes) ≡ policy_of_state global state
unfolding policy_of_state
policy_of_copied global state minutes set = rw set refl

copied_policy :
    (global : Option TtlConfig) (old new : ℕ) (ttls : Dict ℕ TtlState)
    → Dict.get new ttls ≡ none
    → policy_of_state global (ttl_state (copy_ttl old new ttls) new)
      ≡ policy_of_state global (ttl_state ttls old)
unfolding copy_ttl policy_of_state
copied_policy global old new ttls fresh = elim (Option-cases (Dict.get old ttls)) [
  | inl missing ↦ rw (missing, copy_ttl, fresh) refl
  | inr (state, found) ↦ elim (Option-cases state.ttl_minutes) [
    | inl unset ↦ rw (found, copy_ttl, unset, fresh, policy_of_state) refl
    | inr (minutes, set) ↦
        let there : ttl_state (copy_ttl old new ttls) new ≡ copied state minutes =
          rw (copied_state old new minutes ttls state found set) refl in
        let here : ttl_state ttls old ≡ state = rw found refl in
        ap (policy_of_state global) there
        ∙ policy_of_copied global state minutes set
        ∙ sym (ap (policy_of_state global) here)
  ]
]

module _ {S : Type 0} where
  copy_allowed :
      (cp : Checkpointer S) (filters created : Fields) (now old new : ℕ) (db : Db S) (t : Thread)
      → find_thread old db.threads ≡ some t
      → is_allowed t.metadata filters ≡ ok true
      → copy cp (ok filters) (ok created) now old new db
        ≡ (ok (some (new_thread now new t.metadata)), add_copy cp now old new t db)
  unfolding copy
  copy_allowed cp filters created now old new db t found allowed = rw (found, copy, allowed) refl

  -- Copying a thread that is there and allowed under a fresh identifier adds an idle thread with the
  -- same metadata, the time of the copy and no configuration, values, interrupts or error, whose policy is that of the original by its override or by the global
  -- configuration; the row of every thread that was there stays.
  pub copy_lem :
      (cp : Checkpointer S) (filters created : Fields) (global : Option TtlConfig) (now old new : ℕ)
      (db : Db S) (t : Thread)
      → find_thread old db.threads ≡ some t
      → is_allowed t.metadata filters ≡ ok true
      → find_thread new db.threads ≡ none
      → Dict.get new db.thread_ttls ≡ none
      → let after = (copy cp (ok filters) (ok created) now old new db).1 in
        (find_thread new after.threads
          ≡ some (record {
            thread_id = new;
            created_at = now;
            updated_at = now;
            state_updated_at = some now;
            metadata = t.metadata;
            status = idle;
            config = end;
            values = none;
            interrupts = none;
            failure = none;
          }))
        × (policy_of_state global (ttl_state after.thread_ttls new)
            ≡ policy_of_state global (ttl_state db.thread_ttls old))
        × ((k : ℕ) → new ≢ k → find_thread k after.threads ≡ find_thread k db.threads)
  unfolding add_copy
  copy_lem cp filters created global now old new db t found allowed fresh no_ttl =
      rw (copy_allowed cp filters created now old new db t found allowed) (
        ground (arith, find_thread-append new db.threads (new_thread now new t.metadata)),
        copied_policy global old new db.thread_ttls no_ttl,
        λ k other. ground (arith, find_thread-append k db.threads (new_thread now new t.metadata)),
      )
