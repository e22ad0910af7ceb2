-- ===== src/Stream.antt =====
-- inmem_stream.py, `StreamManager`: queues by thread and run, and the messages that are kept for
-- clients that come back. A queue is an object: the lists hold its number, and what it contains is
-- kept beside them. A message's identifier, its milliseconds with `-0`, is the number of milliseconds;
-- such texts of one length compare as their numbers. The waiting of a queue's reader is not modelled:
-- the queues have no limit, so that a put never waits.
pub mod Removal
pub mod Replay
pub mod Delivery
use langgraph_runtime_inmem.Prelude.{
  ℕ, suc, ◌+◌, Bool, true, false, Option, none, some, List, [], ◌∷◌, ◌++◌, Eq, ◌==◌, ltb,
  if◌then◌else◌, keep, String, nat_eq, Result, ok, err, Error, value_error, ◌≡◌, ◌↔◌, arith,
}
use langgraph_runtime_inmem.Dict.{Dict, get, put, remove, get_or}

abbrev pub option_same : Option ℕ → Option ℕ → Bool
option_same none none = true
option_same none (some b) = false
option_same (some a) none = false
option_same (some a) (some b) = a == b

pub option_same_iff : (a b : Option ℕ) → (option_same a b ≡ true) ↔ (a ≡ b)
option_same_iff none none = ground arith
option_same_iff none (some b) = ground arith
option_same_iff (some a) none = ground arith
option_same_iff (some a) (some b) = ground (arith, nat_eq.same_iff a b)

instance abbrev pub option_eq : Eq (Option ℕ)
option_eq = record { same = option_same; same_iff = option_same_iff }

-- A thread or `THREADLESS_KEY`, which is none; a run, which `put` may be called without.
abbrev pub Key : Type 0
Key = Option ℕ

-- `topic` has the text of the topic, `is_control` says whether "control" occurs in it.
pub record Message : Type 0 where
  pub topic : String
  pub is_control : Bool
  pub text : String
  pub id : Option ℕ

-- A `defaultdict` of `defaultdict`s
abbrev pub Nested : Type 0 → Type 0
Nested A = Dict Key (Dict Key A)

pub record Manager : Type 0 where
  pub queues : Nested (List ℕ)
  pub control_keys : Nested Message
  pub control_queues : Nested (List ℕ)
  pub thread_streams : Dict Key (List ℕ)
  pub message_stores : Nested (List Message)
  -- the contents of the queues, and the number of the next one
  pub contents : Dict ℕ (List Message)
  pub next_queue : ℕ

abbrev pub init : Manager
init = record {
  queues = [];
  control_keys = [];
  control_queues = [];
  thread_streams = [];
  message_stores = [];
  contents = [];
  next_queue = 0;
}

abbrev pub read : {A : Type 0} → Key → Key → Nested A → Option A
read thread run m = get run (get_or (get thread m) [])

unfoldable pub write : {A : Type 0} → Key → Key → A → Nested A → Nested A
write thread run a m = put thread (put run a (get_or (get thread m) [])) m

-- `m[thread][run]` of a `defaultdict`, which makes an empty list where there is none
abbrev pub list_at : {A : Type 0} → Key → Key → Nested (List A) → List A
list_at thread run m = get_or (read thread run m) []

unfoldable pub touch : {A : Type 0} → Key → Key → Nested (List A) → Nested (List A)
unfolding write
touch thread run m = write thread run (list_at thread run m) m

-- `queue.put(message)`
unfoldable pub enqueue : Message → ℕ → Dict ℕ (List Message) → Dict ℕ (List Message)
enqueue message queue contents =
    put queue (get_or (get queue contents) [] ++ (message ∷ [])) contents

unfoldable pub enqueue_all : Message → List ℕ → Dict ℕ (List Message) → Dict ℕ (List Message)
unfolding enqueue
enqueue_all message [] contents = contents
enqueue_all message (q ∷ qs) contents = enqueue_all message qs (enqueue message q contents)

unfoldable pub get_queues : Key → Key → Manager → List ℕ × Manager
unfolding touch
get_queues run thread s =
    (list_at thread run s.queues, record s { queues = touch thread run s.queues })

unfoldable pub get_control_queues : Key → Key → Manager → List ℕ × Manager
unfolding touch
get_control_queues run thread s = (
  list_at thread run s.control_queues,
  record s { control_queues = touch thread run s.control_queues },
)

unfoldable pub get_control_key : Key → Key → Manager → Option Message
get_control_key run thread s = read thread run s.control_keys

-- The message with its identifier is appended to the store of its run.
unfoldable pub store_message : Key → Key → Message → Bool → Manager → Manager
unfolding write
store_message run thread message true s = record s {
  message_stores =
      write thread run (list_at thread run s.message_stores ++ (message ∷ [])) s.message_stores;
}
store_message run thread message false s = s

-- To the control queues, or to the queues of the run
unfoldable pub send : Key → Key → Message → Bool → Manager → Manager
unfolding touch write enqueue_all
send run thread message true s = record s {
  control_keys = write thread run message s.control_keys;
  control_queues = touch thread run s.control_queues;
  contents = enqueue_all message (list_at thread run s.control_queues) s.contents;
}
send run thread message false s = record s {
  queues = touch thread run s.queues;
  contents = enqueue_all message (list_at thread run s.queues) s.contents;
}

-- `put`, at a time in milliseconds
unfoldable pub put_message : Key → Key → Message → Bool → ℕ → Manager → Manager
unfolding store_message send
put_message run thread message resumable now s =
    let stamped = record message { id = some now } in
    send run thread stamped stamped.is_control (store_message run thread stamped resumable s)

unfoldable pub put_thread : ℕ → Message → ℕ → Manager → Manager
unfolding enqueue_all
put_thread thread message now s =
    let stamped = record message { id = some now } in
    let queues = get_or (get (some thread) s.thread_streams) [] in
    record s {
      thread_streams = put (some thread) queues s.thread_streams;
      contents = enqueue_all stamped queues s.contents;
    }

-- A queue that is new and empty, put at the end of a list of queues
unfoldable pub add_queue : Key → Key → Manager → ℕ × Manager
unfolding write
add_queue run thread s = (
  s.next_queue,
  record s {
    queues = write thread run (list_at thread run s.queues ++ (s.next_queue ∷ [])) s.queues;
    contents = put s.next_queue [] s.contents;
    next_queue = suc s.next_queue;
  },
)

unfoldable pub add_control_queue : Key → Key → Manager → ℕ × Manager
unfolding write
add_control_queue run thread s = (
  s.next_queue,
  record s {
    control_queues =
        write thread run (list_at thread run s.control_queues ++ (s.next_queue ∷ []))
          s.control_queues;
    contents = put s.next_queue [] s.contents;
    next_queue = suc s.next_queue;
  },
)

unfoldable pub add_thread_stream : ℕ → Manager → ℕ × Manager
add_thread_stream thread s = (
  s.next_queue,
  record s {
    thread_streams =
        put (some thread) (get_or (get (some thread) s.thread_streams) [] ++ (s.next_queue ∷ []))
          s.thread_streams;
    contents = put s.next_queue [] s.contents;
    next_queue = suc s.next_queue;
  },
)

-- `message.id > message_id`; every stored message has an identifier.
abbrev pub is_later : ℕ → Message → Bool
is_later id message = elim (message.id) [ none ↦ false | some i ↦ ltb id i ]

-- `restore_messages`, for an identifier in the form that `put` gives, or for none
unfoldable pub restore_messages : Key → Key → Option ℕ → Manager → List Message
restore_messages run thread none s = []
restore_messages run thread (some id) s = keep (is_later id) (list_at thread run s.message_stores)

unfoldable pub all_queues : Dict Key (List ℕ) → List ℕ
all_queues [] = []
all_queues ((run, qs) ∷ rest) = qs ++ all_queues rest

unfoldable pub get_queues_by_thread_id : ℕ → Manager → List ℕ
unfolding all_queues
get_queues_by_thread_id thread s = all_queues (get_or (get (some thread) s.queues) [])

-- The end of the context of a queue, which empties it
unfoldable pub exit_queue : ℕ → Manager → Manager
exit_queue q s = record s { contents = put q [] s.contents }

-- `start_stream`
unfoldable pub start_stream : Manager
start_stream = init

-- `stop_stream`: its loop goes over the threads and then over the keys of their runs, whose `put` is
-- an error that is passed over, so that no queue is sent anything.
unfoldable pub stop_stream : Manager → Manager
stop_stream s = record s { queues = []; control_queues = []; message_stores = [] }
