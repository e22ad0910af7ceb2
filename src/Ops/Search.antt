-- ===== src/Ops/Search.antt =====
-- ops.py: `Runs.get` and `Runs.search`. `auth` is what the authorization handler answers. Limit and
-- offset are not negative, and a run has its time of creation. The selection of fields is left out.
pub mod Pages
use langgraph_runtime_inmem.Prelude.{
  ℕ, Bool, true, false, ◌&&◌, Option, none, some, List, [], ◌∷◌, ◌==◌, nat_eq, leb, Result, ok, err,
  if◌then◌else◌, take, drop,
}
use langgraph_runtime_inmem.Exec.{Exec}
use langgraph_runtime_inmem.Dict.{get_or}
use langgraph_runtime_inmem.Json.{Fields, is_empty}
use langgraph_runtime_inmem.Ops.State.{Run, RunStatus, Thread, Db}
use langgraph_runtime_inmem.Ops.Threads.{get_with_filters}
use langgraph_runtime_inmem.Ops.Runs.{is_run}

abbrev pub newest_le : Run → Run → Bool
newest_le r s = leb (get_or s.created_at 0) (get_or r.created_at 0)

unfoldable pub insert_newest : Run → List Run → List Run
insert_newest r [] = r ∷ []
insert_newest r (s ∷ ss) = if newest_le r s then r ∷ s ∷ ss else s ∷ insert_newest r ss

-- `sorted(…, key=created_at, reverse=True)`, which keeps the order of equal runs
unfoldable pub sort_newest : List Run → List Run
unfolding insert_newest
sort_newest [] = []
sort_newest (r ∷ rs) = insert_newest r (sort_newest rs)

abbrev pub status_eq : RunStatus → RunStatus → Bool
status_eq RunStatus.pending RunStatus.pending = true
status_eq RunStatus.running RunStatus.running = true
status_eq RunStatus.success RunStatus.success = true
status_eq RunStatus.error RunStatus.error = true
status_eq RunStatus.timeout RunStatus.timeout = true
status_eq RunStatus.interrupted RunStatus.interrupted = true
status_eq _ _ = false

abbrev pub has_status : Option RunStatus → Run → Bool
has_status none r = true
has_status (some s) r = status_eq r.status s

abbrev pub add_if : Bool → Run → List Run → List Run
add_if b r rs = if b then r ∷ rs else rs

abbrev pub to_bool : Result (Option Thread) → Result Bool
to_bool (err e) = err e
to_bool (ok none) = ok false
to_bool (ok (some t)) = ok true

abbrev pub page : ℕ → ℕ → Result (List Run) → Result (List Run)
page limit offset (err e) = err e
page limit offset (ok rs) = ok (take limit (drop offset (sort_newest rs)))

unfoldable pub find_own : ℕ → ℕ → List Run → Option Run
find_own id thread_id [] = none
find_own id thread_id (r ∷ rs) = if is_run id thread_id r then some r else find_own id thread_id rs

module _ {S : Type 0} where
  -- `not filters or await Threads._get_with_filters(…)`
  unfoldable pub is_shown : Fields → ℕ → Exec (Db S) Bool
  is_shown filters thread_id db =
      if is_empty filters
      then (ok true, db)
      else let (found, db') = get_with_filters thread_id filters db in (to_bool found, db')

  -- The rest of the runs, once it is known whether a run of the thread is shown.
  abbrev pub with_rest :
      Option RunStatus
      → Run
      → Exec (Db S) (List Run)
      → Result Bool × Db S
      → Result (List Run) × Db S
  with_rest status r rest (err e, db) = (err e, db)
  with_rest status r rest (ok shown, db) =
      let (found, db') = rest db in
      elim found [
        | err e ↦ (err e, db')
        | ok rs ↦ (ok (add_if (shown && has_status status r) r rs), db')
      ]

  unfoldable pub filtered_runs : Fields → ℕ → Option RunStatus → List Run → Exec (Db S) (List Run)
  unfolding is_shown
  filtered_runs filters thread_id status [] db = (ok [], db)
  filtered_runs filters thread_id status (r ∷ rs) db =
      let rest : Exec (Db S) (List Run) = filtered_runs filters thread_id status rs in
      if r.thread_id == thread_id
      then with_rest status r rest (is_shown filters thread_id db)
      else rest db

  unfoldable pub search : Result Fields → ℕ → ℕ → ℕ → Option RunStatus → Exec (Db S) (List Run)
  unfolding filtered_runs sort_newest
  search (err e) thread_id limit offset status db = (err e, db)
  search (ok filters) thread_id limit offset status db =
      let (found, db') = filtered_runs filters thread_id status db.runs db in
      (page limit offset found, db')

  abbrev pub shown_run : Run → Result Bool × Db S → Result (Option Run) × Db S
  shown_run r (err e, db) = (err e, db)
  shown_run r (ok shown, db) = (ok (if shown then some r else none), db)

  -- `none` is the empty iterator.
  unfoldable pub get : Result Fields → ℕ → ℕ → Exec (Db S) (Option Run)
  unfolding find_own is_shown
  get (err e) id thread_id db = (err e, db)
  get (ok filters) id thread_id db = elim (find_own id thread_id db.runs) [
    | none ↦ (ok none, db)
    | some r ↦ shown_run r (is_shown filters r.thread_id db)
  ]
