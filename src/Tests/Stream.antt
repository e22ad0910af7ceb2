-- ===== src/Tests/Stream.antt =====
-- One reader of a run, and a second run of the same thread.
use langgraph_runtime_inmem.Prelude.{
  ℕ, nat_eq, ◌≤◌, ◌<◌, Bool, true, false, none, some, List, [], ◌∷◌, ◌++◌, ◌≡◌, refl, All, arith,
  ◌==◌, ◌&&◌,
}
use langgraph_runtime_inmem.Dict.{get, get_or}
use langgraph_runtime_inmem.Stream.{
  Key, Message, Manager, option_eq, option_same_iff, init, restore_messages, list_at,
}
use langgraph_runtime_inmem.Stream.Replay.{Put, run_puts, resumable_of, restore_messages-run_puts}
use langgraph_runtime_inmem.Stream.Delivery.{count, IsSubscribed, messages_of, run_puts-delivered}

abbrev message : Bool → Message
message is_control = record {
  topic = "run:1:stream";
  is_control = is_control;
  text = "data";
  id = none;
}

abbrev put_at : ℕ → Bool → ℕ → Put
put_at run is_control now = record {
  run = some run;
  thread = some 7;
  message = message is_control;
  resumable = true;
  now = now;
}

abbrev first_puts : List Put
first_puts = put_at 1 false 10 ∷ put_at 2 false 10 ∷ []

abbrev last_puts : List Put
last_puts = put_at 1 false 12 ∷ put_at 1 true 13 ∷ []

-- The reader's queue is number 0.
abbrev subscribed : Manager
subscribed = record init {
  queues = (some 7, (some 1, 0 ∷ []) ∷ []) ∷ [];
  contents = (0, []) ∷ [];
  next_queue = 1;
}

nothing_stored : list_at (some 7) (some 1) subscribed.message_stores ≡ []
unfolding get
nothing_stored = refl

first_puts-old : All (λ b. b.now ≤ 11) first_puts
first_puts-old = (omega arith, (omega arith, tt))

last_puts-new : All (λ a. 11 < a.now) last_puts
last_puts-new = (omega arith, (omega arith, tt))

restore_messages-run_puts_example :
    restore_messages
      (some 1)
      (some 7)
      (some 11)
      (run_puts (first_puts ++ (put_at 1 false 11 ∷ last_puts)) subscribed)
    ≡ resumable_of (some 1) (some 7) last_puts
restore_messages-run_puts_example =
    restore_messages-run_puts first_puts last_puts (put_at 1 false 11) subscribed nothing_stored
      first_puts-old last_puts-new

elsewhere :
    (t r : Key) → (t == some 7 && r == some 1) ≡ false → count 0 (list_at t r subscribed.queues) ≡ 0
unfolding get count
elsewhere t r h = ground (
  arith,
  option_same_iff (some 7) t,
  option_same_iff t (some 7),
  option_same_iff (some 1) r,
  option_same_iff r (some 1),
)

subscribed-IsSubscribed : IsSubscribed 0 (some 1) (some 7) subscribed
unfolding get count
subscribed-IsSubscribed = record {
  once = refl;
  nowhere_else = elsewhere;
  not_control = λ t r. refl;
}

run_puts-delivered_example :
    get_or (get 0 (run_puts last_puts subscribed).contents) []
    ≡ get_or (get 0 subscribed.contents) [] ++ messages_of (some 1) (some 7) last_puts
run_puts-delivered_example =
    run_puts-delivered 0 (some 1) (some 7) last_puts subscribed subscribed-IsSubscribed
