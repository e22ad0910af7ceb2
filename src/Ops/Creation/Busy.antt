-- ===== src/Ops/Creation/Busy.antt =====
-- The thread of a run that `Runs.put` gives.
use langgraph_runtime_inmem.Prelude.{
  ℕ, ◌≡◌, refl, ap, sym, ◌∙◌, true, false, ◌&&◌, Option, none, some, List, [], ◌∷◌, ◌++◌, String,
  ◌==◌, nat_eq, arith, Error, Result, ok, err, ok-injective, keep, All, ◌⊎◌, inl, inr, Bool-cases,
  Option-cases, Result-cases,
}
use langgraph_runtime_inmem.Json.{Fields}
use langgraph_runtime_inmem.Filters.{is_allowed}
use langgraph_runtime_inmem.Ops.State.{
  Thread, ThreadStatus, busy, Run, Assistant, Db, is_active, find_thread, update_thread,
}
use langgraph_runtime_inmem.Ops.State.Tables.{find_thread-append, find_updated}
use langgraph_runtime_inmem.Ops.Rows.{Request, thread_for, occupied, is_busy, new_run, fields_at}
use langgraph_runtime_inmem.Ops.Creation.{
  find_assistant, is_some_run, inflight, insert, on_thread, place, may_use, create,
}

module _ {S : Type 0} (text_of : ℕ → String) (now : ℕ) (q : Request) (db : Db S) where
  -- What an outcome is: nothing changes and no run is given, or the run is put on a thread, which was
  -- found or is not there yet.
  abbrev pub Outcome : Result (List Run) × Db S → Type 0
  Outcome result =
      ((e : Error) × (result ≡ (err e, db)))
      ⊎ ((result ≡ (ok [], db))
          ⊎ (a : Assistant) × (id : ℕ) × (found : Option Thread) × (find_thread id db.threads
              ≡ found)
            × (result ≡ on_thread text_of now q a id found db))

  place-Outcome :
      (a : Assistant) (filters : Fields) (fresh : ℕ)
      → find_thread fresh db.threads ≡ none
      → Outcome (place text_of now q a filters fresh db)
  unfolding place
  place-Outcome a filters fresh f = elim (Option-cases q.thread_id) [
    | inl unnamed ↦ rw (unnamed, place) (inr (inr (a, fresh, none, f, refl)))
    | inr (id, named) ↦ elim (Option-cases (find_thread id db.threads)) [
      | inl missing ↦ elim (Bool-cases q.creates) [
        | inl made ↦ rw (named, place, missing, made) (inr (inr (a, id, none, missing, refl)))
        | inr kept ↦ rw (named, place, missing, kept) (inr (inl refl))
      ]
      | inr (t, there) ↦ elim (Result-cases (is_allowed t.metadata filters)) [
        | inr (e, raised) ↦ rw (named, place, there, raised) (inl (e, refl))
        | inl (true, allowed) ↦
            rw (named, place, there, allowed) (inr (inr (a, id, some t, there, refl)))
        | inl (false, refused) ↦ rw (named, place, there, refused) (inr (inl refl))
      ]
    ]
  ]

  pub create-Outcome :
      (auth assistant_auth : Result Fields) (fresh : ℕ)
      → find_thread fresh db.threads ≡ none
      → Outcome (create text_of auth assistant_auth now fresh q db)
  unfolding create
  create-Outcome (err e) assistant_auth fresh f =
      elim (Option-cases (find_assistant q.assistant_id db.assistants)) [
        | inl missing ↦ rw (missing, create) (inr (inl refl))
        | inr (a, there) ↦ rw (there, create) (inl (e, refl))
      ]
  create-Outcome (ok filters) assistant_auth fresh f =
      elim (Option-cases (find_assistant q.assistant_id db.assistants)) [
        | inl missing ↦ rw (missing, create) (inr (inl refl))
        | inr (a, there) ↦ elim (Result-cases (may_use a assistant_auth)) [
          | inr (e, raised) ↦ rw (there, create, raised) (inl (e, refl))
          | inl (true, usable) ↦ rw (there, create, usable) (place-Outcome a filters fresh f)
          | inl (false, hidden) ↦ rw (there, create, hidden) (inr (inl refl))
        ]
      ]

is_busy-eq : (s : ThreadStatus) → is_busy s ≡ true → s ≡ busy
is_busy-eq ThreadStatus.idle h = cc
is_busy-eq busy h = refl
is_busy-eq ThreadStatus.interrupted h = cc
is_busy-eq ThreadStatus.error h = cc

module _ (text_of : ℕ → String) (now : ℕ) (a : Assistant) (config : Fields) where
  occupied-busy : (t : Thread) → (occupied text_of now a config t).status ≡ busy
  unfolding occupied
  occupied-busy t = elim (Bool-cases (is_busy t.status)) [
    | inl already ↦ rw (already) (is_busy-eq t.status already)
    | inr idle ↦ rw idle refl
  ]

  pub occupied-id : (t : Thread) → (occupied text_of now a config t).thread_id ≡ t.thread_id
  unfolding occupied
  occupied-id t = ground arith

inflight-thread :
    (id : ℕ) (rs : List Run)
    → All (λ r. r.thread_id ≡ id) (keep (λ r. r.thread_id == id && is_active r.status) rs)
unfolding keep
inflight-thread id [] = tt
inflight-thread id (r ∷ rs) = elim (Bool-cases (r.thread_id == id && is_active r.status)) [
  | inl mine ↦ rw mine (ground arith, inflight-thread id rs)
  | inr other ↦ rw other (inflight-thread id rs)
]

failed_give : {e : Error} {runs : List Run} → err e ≡ ok runs → ⊥
failed_give h = cc

empty_give : {r : Run} {rs : List Run} → ok [] ≡ ok (r ∷ rs) → ⊥
empty_give h = cc

module _ {S : Type 0} (text_of : ℕ → String) (now : ℕ) (q : Request) where
  -- The runs are all of one thread, which is there and busy.
  pub record OnBusyThread (runs : List Run) (after : Db S) : Type 0 where
    pub id : ℕ
    pub thread : Thread
    pub is_there : find_thread id after.threads ≡ some thread
    pub is_occupied : thread.status ≡ busy
    pub same : All (λ r. r.thread_id ≡ id) runs

  pub threads-insert :
      (a : Assistant) (id : ℕ) (existing : Option Thread) (db : Db S)
      → (insert text_of now q a id existing db).1.threads ≡ db.threads
  unfolding insert
  threads-insert a id existing db = ground arith

  -- An insertion always succeeds, with runs of the thread alone.
  insert-given :
      (a : Assistant) (id : ℕ) (existing : Option Thread) (db : Db S)
      → (runs : List Run) × ((insert text_of now q a id existing db).0 ≡ ok runs)
        × All (λ r. r.thread_id ≡ id) runs
  unfolding insert new_run
  insert-given a id existing db =
      elim (Bool-cases
        (q.prevent_insert_if_inflight && is_some_run (inflight text_of now q a id db))) [
          | inl held ↦
              rw (held, insert) (inflight text_of now q a id db, refl, inflight-thread id db.runs)
          | inr free ↦
              rw (free, insert)
                (
                  new_run text_of now q a id existing ∷ inflight text_of now q a id db,
                  refl,
                  (refl, inflight-thread id db.runs),
                )
        ]

  on_thread-OnBusyThread :
      (a : Assistant) (id : ℕ) (found : Option Thread) (db : Db S) (runs : List Run)
      → find_thread id db.threads ≡ found
      → (on_thread text_of now q a id found db).0 ≡ ok runs
      → OnBusyThread runs (on_thread text_of now q a id found db).1
  unfolding on_thread thread_for
  on_thread-OnBusyThread a id none db runs f h =
      let made = thread_for text_of now id a (fields_at "config" q.kwargs) q.metadata in
      let db' : Db S = record db { threads = db.threads ++ made ∷ [] } in
      let (given, e, all) = insert-given a id none db' in
      record {
        id = id;
        thread = made;
        is_there =
            ap (find_thread id) (threads-insert a id none db')
            ∙ ground (arith, find_thread-append id db.threads made, f);
        is_occupied = refl;
        same = rw (ok-injective (sym e ∙ h)) at all;
      }
  on_thread-OnBusyThread a id (some t) db runs f h =
      let change = occupied text_of now a (fields_at "config" q.kwargs) in
      let db' : Db S = record db { threads = update_thread id change db.threads } in
      let (given, e, all) = insert-given a id (some (change t)) db' in
      record {
        id = id;
        thread = change t;
        is_there =
            ap (find_thread id) (threads-insert a id (some (change t)) db')
            ∙ find_updated id change db.threads t
                (occupied-id text_of now a (fields_at "config" q.kwargs)) f;
        is_occupied = occupied-busy text_of now a (fields_at "config" q.kwargs) t;
        same = rw (ok-injective (sym e ∙ h)) at all;
      }

  -- Where the fresh identifier is that of no thread: if `Runs.put` gives any run, all the runs that it
  -- gives are of one thread, which is there and busy.
  pub create-OnBusyThread :
      (auth assistant_auth : Result Fields) (fresh : ℕ) (db : Db S) (r : Run) (rs : List Run)
      → find_thread fresh db.threads ≡ none
      → (create text_of auth assistant_auth now fresh q db).0 ≡ ok (r ∷ rs)
      → OnBusyThread (r ∷ rs) (create text_of auth assistant_auth now fresh q db).1
  create-OnBusyThread auth assistant_auth fresh db r rs f h =
      elim (create-Outcome text_of now q db auth assistant_auth fresh f) [
        | inl (e, raised) ↦ absurd (failed_give (sym (ap (λ p. p.0) raised) ∙ h))
        | inr (inl nothing) ↦ absurd (empty_give (sym (ap (λ p. p.0) nothing) ∙ h))
        | inr (inr (a, id, found, g, placed)) ↦
            rw placed
              (on_thread-OnBusyThread a id found db (r ∷ rs) g (sym (ap (λ p. p.0) placed) ∙ h))
      ]
