-- ===== src/Stream/Replay.antt =====
-- What a client that comes back is given.
use langgraph_runtime_inmem.Prelude.{
  ℕ, ◌≤◌, ◌<◌, Bool, true, false, some, List, [], ◌∷◌, ◌++◌, ◌≡◌, refl, ap, sym, ◌∙◌, ◌==◌, ◌&&◌,
  if◌then◌else◌, keep, All, arith, Bool-cases, inl, inr, nat_eq,
}
use langgraph_runtime_inmem.Dict.{get, put, get_or}
use langgraph_runtime_inmem.Dict.Laws.{get-put}
use langgraph_runtime_inmem.Stream.{
  Key, Message, Nested, Manager, option_eq, option_same_iff, write, list_at, store_message, send,
  put_message, is_later, restore_messages,
}

-- A call of `put` at a time.
pub record Put : Type 0 where
  pub run : Key
  pub thread : Key
  pub message : Message
  pub resumable : Bool
  pub now : ℕ

unfoldable pub run_puts : List Put → Manager → Manager
unfolding put_message
run_puts [] s = s
run_puts (c ∷ cs) s = run_puts cs (put_message c.run c.thread c.message c.resumable c.now s)

-- The message as it is sent
abbrev pub stamped : Put → Message
stamped c = record c.message { id = some c.now }

abbrev pub is_to : Key → Key → Put → Bool
is_to run thread c = c.thread == thread && c.run == run

-- The messages of a run that are kept.
unfoldable pub resumable_of : Key → Key → List Put → List Message
resumable_of run thread [] = []
resumable_of run thread (c ∷ cs) =
    let rest = resumable_of run thread cs in
    if c.resumable && is_to run thread c then stamped c ∷ rest else rest

pub list_at-write :
    {A : Type 0} (thread run t r : Key) (xs : List A) (m : Nested (List A))
    → list_at t r (write thread run xs m) ≡ (if thread == t && run == r then xs else list_at t r m)
unfolding write
list_at-write thread run t r xs m = elim (Bool-cases (thread == t)) [
  | inl same ↦
      let to : thread ≡ t = (option_same_iff thread t).0 same in
      rw
        (
          get-put thread t (put run xs (get_or (get thread m) [])) m,
          same,
          get-put run r xs (get_or (get thread m) []),
        )
        (elim (Bool-cases (run == r)) [
          | inl here ↦ rw here refl
          | inr there ↦ rw there (ap (λ x. list_at x r m) to)
        ])
  | inr other ↦ rw (get-put thread t (put run xs (get_or (get thread m) [])) m, other) refl
]

keep-append :
    {A : Type 0} (p : A → Bool) (xs ys : List A) → keep p (xs ++ ys) ≡ keep p xs ++ keep p ys
unfolding keep
keep-append p [] ys = refl
keep-append p (x ∷ xs) ys = ground (arith, keep-append p xs ys)

pub ++-assoc : {A : Type 0} (xs ys zs : List A) → (xs ++ ys) ++ zs ≡ xs ++ (ys ++ zs)
++-assoc [] ys zs = refl
++-assoc (x ∷ xs) ys zs = ap (λ l. x ∷ l) (++-assoc xs ys zs)

pub ++-nil : {A : Type 0} (xs : List A) → xs ++ [] ≡ xs
++-nil [] = refl
++-nil (x ∷ xs) = ap (λ l. x ∷ l) (++-nil xs)

resumable_of-append :
    (run thread : Key) (cs ds : List Put)
    → resumable_of run thread (cs ++ ds) ≡ resumable_of run thread cs ++ resumable_of run thread ds
unfolding resumable_of
resumable_of-append run thread [] ds = refl
resumable_of-append run thread (c ∷ cs) ds =
    let rest = resumable_of-append run thread cs ds in
    elim (Bool-cases (c.resumable && is_to run thread c)) [
      | inl kept ↦ rw kept (ap (λ l. stamped c ∷ l) rest)
      | inr passed ↦ rw passed rest
    ]

&&-true : (b c : Bool) → (b && c) ≡ true → (b ≡ true) × (c ≡ true)
&&-true b c h = ground arith

stores-send :
    (run thread : Key) (m : Message) (b : Bool) (s : Manager)
    → (send run thread m b s).message_stores ≡ s.message_stores
unfolding send
stores-send run thread m true s = refl
stores-send run thread m false s = refl

pub same_list :
    {A : Type 0} (thread run t r : Key) (m : Nested (List A))
    → (t == thread && r == run) ≡ true
    → list_at t r m ≡ list_at thread run m
same_list thread run t r m h =
    let (a, b) = &&-true (t == thread) (r == run) h in
    ap (λ x. list_at x r m) ((option_same_iff t thread).0 a)
    ∙ ap (λ y. list_at thread y m) ((option_same_iff r run).0 b)

stores-store_message :
    (run thread r t : Key) (message : Message) (resumable : Bool) (s : Manager)
    → list_at thread run (store_message r t message resumable s).message_stores
      ≡ list_at thread run s.message_stores
        ++ (if resumable && (t == thread && r == run) then message ∷ [] else [])
unfolding store_message
stores-store_message run thread r t message true s =
    list_at-write t r thread run (list_at t r s.message_stores ++ (message ∷ [])) s.message_stores
    ∙ elim (Bool-cases (t == thread && r == run)) [
      | inl same ↦
          rw same (ap (λ l. l ++ (message ∷ [])) (same_list thread run t r s.message_stores same))
      | inr other ↦ rw other (sym (++-nil (list_at thread run s.message_stores)))
    ]
stores-store_message run thread r t message false s =
    sym (++-nil (list_at thread run s.message_stores))

-- One call adds its message to the store of its run, if it is to be kept.
stores-put_message :
    (run thread : Key) (c : Put) (s : Manager)
    → list_at thread run (put_message c.run c.thread c.message c.resumable c.now s).message_stores
      ≡ list_at thread run s.message_stores ++ resumable_of run thread (c ∷ [])
unfolding put_message resumable_of
stores-put_message run thread c s =
    ap (list_at thread run) (
      stores-send c.run c.thread (stamped c) c.message.is_control
        (store_message c.run c.thread (stamped c) c.resumable s))
    ∙ stores-store_message run thread c.run c.thread (stamped c) c.resumable s

stores-run_puts :
    (run thread : Key) (cs : List Put) (s : Manager)
    → list_at thread run (run_puts cs s).message_stores
      ≡ list_at thread run s.message_stores ++ resumable_of run thread cs
unfolding run_puts resumable_of
stores-run_puts run thread [] s = sym (++-nil (list_at thread run s.message_stores))
stores-run_puts run thread (c ∷ cs) s =
    stores-run_puts run thread cs _
    ∙ ap (λ l. l ++ resumable_of run thread cs) (stores-put_message run thread c s)
    ∙ ++-assoc (list_at thread run s.message_stores) (resumable_of run thread (c ∷ []))
        (resumable_of run thread cs)
    ∙ ap (λ l. list_at thread run s.message_stores ++ l)
        (sym (resumable_of-append run thread (c ∷ []) cs))

le_refl : (n : ℕ) → n ≤ n
le_refl n = omega arith

none_later :
    (run thread : Key) (id : ℕ) (cs : List Put)
    → All (λ c. c.now ≤ id) cs
    → keep (is_later id) (resumable_of run thread cs) ≡ []
unfolding resumable_of keep
none_later run thread id [] h = refl
none_later run thread id (c ∷ cs) h = ground (arith, none_later run thread id cs)

later_stay :
    (run thread : Key) (id : ℕ) (cs : List Put)
    → All (λ c. id < c.now) cs
    → keep (is_later id) (resumable_of run thread cs) ≡ resumable_of run thread cs
unfolding resumable_of keep
later_stay run thread id [] h = refl
later_stay run thread id (c ∷ cs) h = ground (arith, later_stay run thread id cs)

-- A client that saw a message which is kept of a run, and asks for what came after it, is given the
-- messages of that run which were put after it to be kept, all of them and in their order, where no
-- message before it is younger and every one after it is at least a millisecond younger: whatever else
-- was put to other runs, and in a manager that kept nothing of the run before.
pub restore_messages-run_puts :
    (before after : List Put) (c : Put) (s : Manager)
    → list_at c.thread c.run s.message_stores ≡ []
    → All (λ b. b.now ≤ c.now) before
    → All (λ a. c.now < a.now) after
    → restore_messages c.run c.thread (some c.now) (run_puts (before ++ (c ∷ after)) s)
      ≡ resumable_of c.run c.thread after
unfolding restore_messages
restore_messages-run_puts before after c s empty old new =
    let r = c.run in
    let t = c.thread in
    ap (keep (is_later c.now)) (
      stores-run_puts r t (before ++ (c ∷ after)) s
      ∙ ap (λ l. l ++ resumable_of r t (before ++ (c ∷ after))) empty
      ∙ resumable_of-append r t before (c ∷ after)
      ∙ ap (λ l. resumable_of r t before ++ l) (resumable_of-append r t (c ∷ []) after))
    ∙ keep-append (is_later c.now) (resumable_of r t before) _
    ∙ rw (none_later r t c.now before old) (
        keep-append (is_later c.now) (resumable_of r t (c ∷ [])) (resumable_of r t after)
        ∙ rw (none_later r t c.now (c ∷ []) (le_refl c.now, tt), later_stay r t c.now after new)
            refl)
