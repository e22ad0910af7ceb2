-- ===== src/Ops/Threads/Deletion.antt =====
-- What `Threads.delete` removes, and what it leaves.
use langgraph_runtime_inmem.Prelude.{
  ℕ, ◌≡◌, refl, Bool, true, false, not, none, some, List, [], ◌∷◌, ◌==◌, nat_eq, arith,
  if◌then◌else◌, keep,
}
use langgraph_runtime_inmem.Dict
use langgraph_runtime_inmem.Dict.Laws.{get-remove}
use langgraph_runtime_inmem.Ops.State.{Run, Cron, Db, find_thread}
use langgraph_runtime_inmem.Ops.State.Tables.{UniqueIds, find_thread-pop}
use langgraph_runtime_inmem.Ops.Threads.{drop_runs, drop_thread_rows}

-- The runs of a thread, and its crons.
abbrev pub runs_of : ℕ → List Run → List Run
runs_of id = keep (λ r. r.thread_id == id)

pub runs_of-drop :
    (id k : ℕ) (runs : List Run)
    → runs_of k (keep (λ r. not (r.thread_id == id)) runs)
      ≡ (if id == k then [] else runs_of k runs)
unfolding keep
runs_of-drop id k [] = ground arith
runs_of-drop id k (r ∷ runs) = ground (arith, runs_of-drop id k runs)

abbrev pub is_cron_of : ℕ → Cron → Bool
is_cron_of id c = elim c.thread_id [ none ↦ false | some t ↦ t == id ]

abbrev pub crons_of : ℕ → List Cron → List Cron
crons_of id = keep (is_cron_of id)

pub crons_of-drop :
    (id k : ℕ) (crons : List Cron)
    → crons_of k (keep (λ c. elim c.thread_id [ none ↦ true | some t ↦ not (t == id) ]) crons)
      ≡ (if id == k then [] else crons_of k crons)
unfolding keep
crons_of-drop id k [] = ground arith
crons_of-drop id k (c ∷ crons) = ground (arith, crons_of-drop id k crons)

module _ {S : Type 0} where
  -- Thread `k` of `db'` compared with `db`, after the thread `id` went: its row, its runs, its crons and
  -- its TTL record are gone if it is that thread, and as they were otherwise.
  pub record Dropped (id : ℕ) (db db' : Db S) (k : ℕ) : Type 0 where
    pub row : find_thread k db'.threads ≡ (if id == k then none else find_thread k db.threads)
    pub runs : runs_of k db'.runs ≡ (if id == k then [] else runs_of k db.runs)
    pub crons : crons_of k db'.crons ≡ (if id == k then [] else crons_of k db.crons)
    pub ttl : Dict.get k db'.thread_ttls ≡ (if id == k then none else Dict.get k db.thread_ttls)

  pub drop_thread_rows-Dropped :
      (id k : ℕ) (db : Db S) (s : S)
      → UniqueIds db.threads
      → Dropped id db (drop_thread_rows id (record db { saver = s })) k
  unfolding drop_thread_rows
  drop_thread_rows-Dropped id k db s u = record {
    row = find_thread-pop id k db.threads u;
    runs = runs_of-drop id k db.runs;
    crons = crons_of-drop id k db.crons;
    ttl = get-remove id k db.thread_ttls;
  }

  -- Thread `k` of `db'` compared with `db`, after the deletion of the thread `id` was broken off.
  pub record Halted (id : ℕ) (db db' : Db S) (k : ℕ) : Type 0 where
    pub row : db'.threads ≡ db.threads
    pub runs : runs_of k db'.runs ≡ (if id == k then [] else runs_of k db.runs)
    pub crons : crons_of k db'.crons ≡ (if id == k then [] else crons_of k db.crons)
    pub ttl : db'.thread_ttls ≡ db.thread_ttls

  pub drop_runs-Halted :
      (id k : ℕ) (db : Db S) (s : S) → Halted id db (record (drop_runs id db) { saver = s }) k
  unfolding drop_runs
  drop_runs-Halted id k db s = record {
    row = refl;
    runs = runs_of-drop id k db.runs;
    crons = crons_of-drop id k db.crons;
    ttl = refl;
  }
