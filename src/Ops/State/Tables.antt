-- ===== src/Ops/State/Tables.antt =====
-- Laws of the thread table: which thread is found after a write, and that identifiers stay unique.
use langgraph_runtime_inmem.Prelude.{
  ℕ, ◌≡◌, ◌≢◌, refl, Option, none, some, List, [], ◌∷◌, ◌++◌, ◌==◌, nat_eq, arith, if◌then◌else◌,
}
use langgraph_runtime_inmem.Ops.State.{Thread, find_thread, update_thread, pop_thread}

-- No two threads have one identifier.
abbrev pub UniqueIds : List Thread → Type 0
UniqueIds [] = Unit
UniqueIds (t ∷ ts) = (find_thread t.thread_id ts ≡ none) × UniqueIds ts

abbrev pub or_else : {A : Type 0} → Option A → Option A → Option A
or_else (some a) o = some a
or_else none o = o

abbrev pub map_option : {A B : Type 0} → (A → B) → Option A → Option B
map_option f none = none
map_option f (some a) = some (f a)

pub find_thread-append :
    (k : ℕ) (ts : List Thread) (t : Thread)
    → find_thread k (ts ++ t ∷ [])
      ≡ or_else (find_thread k ts) (if t.thread_id == k then some t else none)
unfolding find_thread
find_thread-append k [] t = refl
find_thread-append k (x ∷ ts) t = ground (arith, find_thread-append k ts t)

pub find_thread-pop :
    (id k : ℕ) (ts : List Thread)
    → UniqueIds ts
    → find_thread k (pop_thread id ts) ≡ (if id == k then none else find_thread k ts)
unfolding find_thread pop_thread
find_thread-pop id k [] u = ground arith
find_thread-pop id k (x ∷ ts) u = ground (arith, find_thread-pop id k ts)

-- Without the assumption, for the other identifiers.
pub find_thread-pop_ne :
    (id k : ℕ) (ts : List Thread) → id ≢ k → find_thread k (pop_thread id ts) ≡ find_thread k ts
unfolding find_thread pop_thread
find_thread-pop_ne id k [] h = refl
find_thread-pop_ne id k (x ∷ ts) h = ground (arith, find_thread-pop_ne id k ts)

module _ (id : ℕ) (f : Thread → Thread) (same : (t : Thread) → (f t).thread_id ≡ t.thread_id) where
  pub find_thread-update :
      (k : ℕ) (ts : List Thread)
      → find_thread k (update_thread id f ts)
        ≡ (if id == k then map_option f (find_thread k ts) else find_thread k ts)
  unfolding find_thread update_thread
  find_thread-update k [] = ground arith
  find_thread-update k (x ∷ ts) = ground (arith, find_thread-update k ts, same x)

  pub update-UniqueIds : (ts : List Thread) → UniqueIds ts → UniqueIds (update_thread id f ts)
  unfolding find_thread update_thread
  update-UniqueIds [] u = tt
  update-UniqueIds (x ∷ ts) u =
      ground (arith, update-UniqueIds ts, same x, find_thread-update x.thread_id ts)

pub find_updated :
    (id : ℕ) (f : Thread → Thread) (ts : List Thread) (t : Thread)
    → ((u : Thread) → (f u).thread_id ≡ u.thread_id)
    → find_thread id ts ≡ some t
    → find_thread id (update_thread id f ts) ≡ some (f t)
find_updated id f ts t same found = rw (find_thread-update id f same id ts, found) (ground arith)

pub append-UniqueIds :
    (ts : List Thread) (t : Thread)
    → UniqueIds ts
    → find_thread t.thread_id ts ≡ none
    → UniqueIds (ts ++ t ∷ [])
unfolding find_thread
append-UniqueIds [] t u h = (refl, tt)
append-UniqueIds (x ∷ ts) t u h =
    ground (arith, append-UniqueIds ts t, find_thread-append x.thread_id ts t)

pub pop-UniqueIds : (id : ℕ) (ts : List Thread) → UniqueIds ts → UniqueIds (pop_thread id ts)
unfolding pop_thread
pop-UniqueIds id [] u = tt
pop-UniqueIds id (x ∷ ts) u = ground (arith, pop-UniqueIds id ts, find_thread-pop id x.thread_id ts)
