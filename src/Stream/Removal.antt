-- ===== src/Stream/Removal.antt =====
-- inmem_stream.py: the removal of queues from a `StreamManager`.
use langgraph_runtime_inmem.Prelude.{
  ℕ, none, some, List, [], ◌∷◌, ◌==◌, if◌then◌else◌, nat_eq, Result, ok, err, value_error,
}
use langgraph_runtime_inmem.Dict.{get, put, remove, get_or}
use langgraph_runtime_inmem.Stream.{Key, Nested, Manager, option_eq, read, write}

-- `queues.remove(queue)`: the first occurrence, or a ValueError
unfoldable pub remove_first : ℕ → List ℕ → Result (List ℕ)
remove_first q [] = err value_error
remove_first q (x ∷ xs) =
    let rest = remove_first q xs in
    if x == q then ok xs else elim rest [ err e ↦ err e | ok ys ↦ ok (x ∷ ys) ]

-- The list without the queue, and no entry for an empty list
unfoldable pub drop_queue : Key → Key → ℕ → Nested (List ℕ) → Result (Nested (List ℕ))
unfolding remove_first write
drop_queue run thread q m = elim (read thread run m) [
  | none ↦ ok m
  | some qs ↦ elim (remove_first q qs) [
    | err e ↦ err e
    | ok [] ↦ ok (put thread (remove run (get_or (get thread m) [])) m)
    | ok (x ∷ xs) ↦ ok (write thread run (x ∷ xs) m)
  ]
]

unfoldable pub remove_queue : Key → Key → ℕ → Manager → Result (Unit {0}) × Manager
unfolding drop_queue
remove_queue run thread q s = elim (drop_queue run thread q s.queues) [
  | err e ↦ (err e, s)
  | ok queues ↦ (ok tt, record s { queues = queues })
]

unfoldable pub remove_control_queue : Key → Key → ℕ → Manager → Result (Unit {0}) × Manager
unfolding drop_queue
remove_control_queue run thread q s = elim (drop_queue run thread q s.control_queues) [
  | err e ↦ (err e, s)
  | ok queues ↦ (ok tt, record s { control_queues = queues })
]
