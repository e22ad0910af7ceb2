-- ===== src/Ops/Threads/Creation.antt =====
-- `Threads.put` and `Threads.patch`: identifiers stay unique, what is stored, and what an invalid TTL
-- leaves behind.
use langgraph_runtime_inmem.Prelude.{
  ℕ, ◌≡◌, refl, ap, ◌∙◌, Option, none, some, [], ◌∷◌, ◌++◌, ◌==◌, nat_eq, arith, if◌then◌else◌,
  Error, Result, ok, err, ◌⊎◌, inl, inr, Option-cases,
}
use langgraph_runtime_inmem.Exec.{state-pure}
use langgraph_runtime_inmem.Json.{Fields}
use langgraph_runtime_inmem.Ops.State.{Thread, Db, find_thread}
use langgraph_runtime_inmem.Ops.State.Tables.{UniqueIds, find_thread-append, append-UniqueIds}
use langgraph_runtime_inmem.Ops.Ttl.{TtlConfig, set_thread_ttl_override}
use langgraph_runtime_inmem.Ops.Threads.{
  OnConflict, raises, do_nothing, new_thread, override_ttl, put_existing, put,
}

module _ {S : Type 0} where
  threads-override_ttl :
      (id : ℕ) (ttl : Option TtlConfig) (db : Db S)
      → (override_ttl id ttl db).1.threads ≡ db.threads
  unfolding override_ttl
  threads-override_ttl id none db = refl
  threads-override_ttl id (some ttl) db = ground arith

  put_existing_unchanged :
      (filters : Fields) (c : OnConflict) (t : Thread) (db : Db S)
      → (put_existing filters c t db).1 ≡ db
  unfolding put_existing
  put_existing_unchanged filters raises t db = ground arith
  put_existing_unchanged filters do_nothing t db = ground arith

  put_free :
      (filters : Fields) (now id : ℕ) (metadata : Fields) (c : OnConflict) (ttl : Option TtlConfig)
      (db : Db S)
      → find_thread id db.threads ≡ none
      → (put (ok filters) now id metadata c ttl db).1.threads
        ≡ db.threads ++ new_thread now id metadata ∷ []
  unfolding put
  put_free filters now id metadata c ttl db free =
      rw (free, put)
        (ap (λ (d : Db S). d.threads)
            (state-pure (override_ttl id ttl) (new_thread now id metadata) _)
          ∙ threads-override_ttl id ttl _)

  -- The thread table after `put`, whether it returns or raises: unchanged, or longer by the new
  -- thread, under an identifier that was free.
  put_threads :
      (auth : Result Fields) (now id : ℕ) (metadata : Fields) (c : OnConflict)
      (ttl : Option TtlConfig) (db : Db S)
      → ((put auth now id metadata c ttl db).1.threads ≡ db.threads)
        ⊎ ((find_thread id db.threads ≡ none)
            × ((put auth now id metadata c ttl db).1.threads
                ≡ db.threads ++ new_thread now id metadata ∷ []))
  unfolding put
  put_threads (err e) now id metadata c ttl db = inl refl
  put_threads (ok filters) now id metadata c ttl db =
      elim (Option-cases (find_thread id db.threads)) [
        | inr (t, found) ↦
            rw (found, put) (inl (ground (arith, put_existing_unchanged filters c t db)))
        | inl missing ↦ inr (missing, put_free filters now id metadata c ttl db missing)
      ]

  -- Whether it returns or raises, `put` keeps the identifiers of the threads unique.
  pub put-UniqueIds :
      (auth : Result Fields) (now id : ℕ) (metadata : Fields) (c : OnConflict)
      (ttl : Option TtlConfig) (db : Db S)
      → UniqueIds db.threads
      → UniqueIds (put auth now id metadata c ttl db).1.threads
  put-UniqueIds auth now id metadata c ttl db u = elim (put_threads auth now id metadata c ttl db) [
    | inl same ↦ rw same u
    | inr (free, longer) ↦
        rw longer (append-UniqueIds db.threads (new_thread now id metadata) u free)
  ]

  -- After a `put` of a free identifier that the authorization handler lets through, the
  -- thread is found as created, and every other thread is found as before.
  pub find_thread-put :
      (filters : Fields) (now id k : ℕ) (metadata : Fields) (c : OnConflict)
      (ttl : Option TtlConfig) (db : Db S)
      → find_thread id db.threads ≡ none
      → find_thread k (put (ok filters) now id metadata c ttl db).1.threads
        ≡ (if id == k then some (new_thread now id metadata) else find_thread k db.threads)
  find_thread-put filters now id k metadata c ttl db free =
      rw (put_free filters now id metadata c ttl db free)
        (ground (arith, find_thread-append k db.threads (new_thread now id metadata)))

  -- A `put` of a free identifier whose TTL is refused raises the refusal, and leaves the new thread in
  -- the table all the same.
  pub put_refused_ttl_stays :
      (filters : Fields) (now id : ℕ) (metadata : Fields) (c : OnConflict) (ttl : TtlConfig)
      (e : Error) (db : Db S)
      → find_thread id db.threads ≡ none
      → set_thread_ttl_override db.thread_ttls id ttl ≡ err e
      → ((put (ok filters) now id metadata c (some ttl) db).0 ≡ err e)
        × (find_thread id (put (ok filters) now id metadata c (some ttl) db).1.threads
            ≡ some (new_thread now id metadata))
  unfolding put override_ttl
  put_refused_ttl_stays filters now id metadata c ttl e db free refused = (
    rw (free, put, refused, override_ttl) refl,
    rw (put_free filters now id metadata c (some ttl) db free)
        (ground (arith, find_thread-append id db.threads (new_thread now id metadata))),
  )
