-- ===== src/Ops/Creation.antt =====
-- ops.py: `Runs.put`, which creates a run and, where it must, its thread. `auth` and `assistant_auth`
-- are what the authorization handler answers when it is asked to create a run and to read the
-- assistant, `now` is the clock, `fresh` a new identifier, and `text_of` is `str` of a UUID.
pub mod Busy
pub mod Single
use langgraph_runtime_inmem.Prelude.{
  ℕ, Bool, true, false, ◌&&◌, Option, none, some, List, [], ◌∷◌, ◌++◌, String, ◌==◌, nat_eq,
  string_eq, Result, ok, err, ◌>>=◌, if◌then◌else◌, keep,
}
use langgraph_runtime_inmem.Exec.{Exec}
use langgraph_runtime_inmem.Json.{str, Fields, value_eq}
use langgraph_runtime_inmem.Filters.{is_allowed}
use langgraph_runtime_inmem.Ops.State.{
  Thread, Run, Assistant, Db, is_active, find_thread, update_thread,
}
use langgraph_runtime_inmem.Ops.Rows.{
  Request, value_at, config_given, thread_for, occupied, new_run,
}

unfoldable pub find_assistant : ℕ → List Assistant → Option Assistant
find_assistant id [] = none
find_assistant id (a ∷ as') = if a.assistant_id == id then some a else find_assistant id as'

abbrev pub is_some_run : List Run → Bool
is_some_run [] = false
is_some_run (r ∷ rs) = true

module _ (text_of : ℕ → String) (now : ℕ) (q : Request) (a : Assistant) {S : Type 0} where
  -- The runs of the thread that are pending or running.
  abbrev pub inflight : ℕ → Db S → List Run
  inflight thread_id db = keep (λ r. r.thread_id == thread_id && is_active r.status) db.runs

  -- The end of `Runs.put`, on a thread that is now there.
  unfoldable pub insert : ℕ → Option Thread → Exec (Db S) (List Run)
  unfolding new_run
  insert thread_id existing db =
      if q.prevent_insert_if_inflight && is_some_run (inflight thread_id db)
      then (ok (inflight thread_id db), db)
      else (
        ok (new_run text_of now q a thread_id existing ∷ inflight thread_id db),
        record db { runs = db.runs ++ new_run text_of now q a thread_id existing ∷ [] },
      )

  -- The thread with this identifier, or one that is made for the run.
  unfoldable pub on_thread : ℕ → Option Thread → Exec (Db S) (List Run)
  unfolding insert occupied thread_for
  on_thread thread_id (some t) db =
      insert thread_id (some (occupied text_of now a (config_given q) t)) (record db {
        threads = update_thread thread_id (occupied text_of now a (config_given q)) db.threads;
      })
  on_thread thread_id none db = insert thread_id none (record db {
    threads = db.threads ++ thread_for text_of now thread_id a (config_given q) q.metadata ∷ [];
  })

  -- `filters` is what a request to create a run is allowed to see.
  unfoldable pub place : Fields → ℕ → Exec (Db S) (List Run)
  unfolding on_thread
  place filters fresh db = elim q.thread_id [
    | none ↦ on_thread fresh none db
    | some id ↦ elim (find_thread id db.threads) [
      | none ↦ if q.creates then on_thread id none db else (ok [], db)
      | some t ↦ elim (is_allowed t.metadata filters) [
        | err e ↦ (err e, db)
        | ok allowed ↦ if allowed then on_thread id (some t) db else (ok [], db)
      ]
    ]
  ]

-- Whether the assistant may be used; the assistants of the system may.
abbrev pub may_use : Assistant → Result Fields → Result Bool
may_use a assistant_auth =
    if value_eq (value_at "created_by" a.metadata) (str "system")
    then ok true
    else do filters ← assistant_auth; is_allowed a.metadata filters

-- The runs that the iterator gives: the new one, if one is made, and then those in flight.
unfoldable pub create :
    {S : Type 0}
    → (ℕ → String)
    → Result Fields
    → Result Fields
    → ℕ
    → ℕ
    → Request
    → Exec (Db S) (List Run)
unfolding place
create text_of auth assistant_auth now fresh q db =
    elim (find_assistant q.assistant_id db.assistants) [
      | none ↦ (ok [], db)
      | some a ↦ elim auth [
        | err e ↦ (err e, db)
        | ok filters ↦ elim (may_use a assistant_auth) [
          | err e ↦ (err e, db)
          | ok usable ↦ if usable then place text_of now q a filters fresh db else (ok [], db)
        ]
      ]
    ]
