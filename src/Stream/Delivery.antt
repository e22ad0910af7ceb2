-- ===== src/Stream/Delivery.antt =====
-- What the reader of a queue is sent.
use langgraph_runtime_inmem.Prelude.{
  ℕ, ◌+◌, Bool, true, false, not, List, [], ◌∷◌, ◌++◌, ◌≡◌, refl, ap, sym, ◌∙◌, ◌==◌, ◌&&◌,
  if◌then◌else◌, arith, Bool-cases, inl, inr, nat_eq,
}
use langgraph_runtime_inmem.Dict.{Dict, get, get_or}
use langgraph_runtime_inmem.Dict.Laws.{get-put}
use langgraph_runtime_inmem.Stream.{
  Key, Message, Nested, Manager, option_eq, list_at, touch, enqueue, enqueue_all, store_message,
  send, put_message,
}
use langgraph_runtime_inmem.Stream.Replay.{
  Put, run_puts, stamped, is_to, list_at-write, same_list, ++-assoc, ++-nil,
}

-- How often a queue stands in a list.
unfoldable pub count : ℕ → List ℕ → ℕ
count q [] = 0
count q (x ∷ xs) = let rest = count q xs in if x == q then 1 + rest else rest

contents_of : ℕ → Dict ℕ (List Message) → List Message
contents_of q contents = get_or (get q contents) []

contents-enqueue :
    (m : Message) (x q : ℕ) (contents : Dict ℕ (List Message))
    → contents_of q (enqueue m x contents)
      ≡ (if x == q then contents_of q contents ++ (m ∷ []) else contents_of q contents)
unfolding contents_of enqueue
contents-enqueue m x q contents = elim (Bool-cases (x == q)) [
  | inl same ↦
      rw (get-put x q (get_or (get x contents) [] ++ (m ∷ [])) contents, same)
        (ap (λ i. get_or (get i contents) [] ++ (m ∷ [])) ((nat_eq.same_iff x q).0 same))
  | inr other ↦ rw (get-put x q (get_or (get x contents) [] ++ (m ∷ [])) contents, other) refl
]

contents-none :
    (m : Message) (q : ℕ) (qs : List ℕ) (contents : Dict ℕ (List Message))
    → count q qs ≡ 0
    → contents_of q (enqueue_all m qs contents) ≡ contents_of q contents
unfolding enqueue_all count
contents-none m q [] contents h = refl
contents-none m q (x ∷ xs) contents h = elim (Bool-cases (x == q)) [
  | inl same ↦ ground (arith, rw (count, same) at h)
  | inr other ↦
      contents-none m q xs (enqueue m x contents) (rw (count, other) at h)
      ∙ contents-enqueue m x q contents
      ∙ rw other refl
]

contents-one :
    (m : Message) (q : ℕ) (qs : List ℕ) (contents : Dict ℕ (List Message))
    → count q qs ≡ 1
    → contents_of q (enqueue_all m qs contents) ≡ contents_of q contents ++ (m ∷ [])
unfolding enqueue_all count
contents-one m q [] contents h = ground arith
contents-one m q (x ∷ xs) contents h = elim (Bool-cases (x == q)) [
  | inl same ↦
      contents-none m q xs (enqueue m x contents) (omega (arith, rw (count, same) at h))
      ∙ contents-enqueue m x q contents
      ∙ rw same refl
  | inr other ↦
      contents-one m q xs (enqueue m x contents) (rw (count, other) at h)
      ∙ ap (λ l. l ++ (m ∷ [])) (contents-enqueue m x q contents ∙ rw other refl)
]

list_at-touch :
    {A : Type 0} (thread run t r : Key) (m : Nested (List A))
    → list_at t r (touch thread run m) ≡ list_at t r m
unfolding touch
list_at-touch thread run t r m =
    list_at-write thread run t r (list_at thread run m) m
    ∙ elim (Bool-cases (thread == t && run == r)) [
      | inl same ↦ rw same (same_list t r thread run m same)
      | inr other ↦ rw other refl
    ]

-- A queue that was added for a run once, and nowhere else.
pub record IsSubscribed (q : ℕ) (run thread : Key) (s : Manager) : Type 0 where
  pub once : count q (list_at thread run s.queues) ≡ 1
  pub nowhere_else :
      (t r : Key) → (t == thread && r == run) ≡ false → count q (list_at t r s.queues) ≡ 0
  pub not_control : (t r : Key) → count q (list_at t r s.control_queues) ≡ 0

-- The messages of a run but the control messages.
unfoldable pub messages_of : Key → Key → List Put → List Message
messages_of run thread [] = []
messages_of run thread (c ∷ cs) =
    let rest = messages_of run thread cs in
    if not c.message.is_control && is_to run thread c then stamped c ∷ rest else rest

module _ (q : ℕ) (run thread : Key) where
  store_message-IsSubscribed :
      (r t : Key) (m : Message) (b : Bool) (s : Manager)
      → IsSubscribed q run thread s
      → IsSubscribed q run thread (store_message r t m b s)
        × ((store_message r t m b s).contents ≡ s.contents)
  unfolding store_message
  store_message-IsSubscribed r t m true s w =
      (record { once = w.once; nowhere_else = w.nowhere_else; not_control = w.not_control }, refl)
  store_message-IsSubscribed r t m false s w = (w, refl)

  send-IsSubscribed :
      (r t : Key) (m : Message) (b : Bool) (s : Manager)
      → IsSubscribed q run thread s
      → IsSubscribed q run thread (send r t m b s)
  unfolding send
  send-IsSubscribed r t m true s w = record {
    once = w.once;
    nowhere_else = w.nowhere_else;
    not_control = λ u v. ap (count q) (list_at-touch t r u v s.control_queues) ∙ w.not_control u v;
  }
  send-IsSubscribed r t m false s w = record {
    once = ap (count q) (list_at-touch t r thread run s.queues) ∙ w.once;
    nowhere_else = λ u v h. ap (count q) (list_at-touch t r u v s.queues) ∙ w.nowhere_else u v h;
    not_control = w.not_control;
  }

  send-contents :
      (r t : Key) (m : Message) (b : Bool) (s : Manager)
      → IsSubscribed q run thread s
      → contents_of q (send r t m b s).contents
        ≡ contents_of q s.contents ++ (if not b && (t == thread && r == run) then m ∷ [] else [])
  unfolding send
  send-contents r t m true s w =
      contents-none m q _ s.contents (w.not_control t r) ∙ sym (++-nil (contents_of q s.contents))
  send-contents r t m false s w = elim (Bool-cases (t == thread && r == run)) [
    | inl same ↦ rw same (
        contents-one m q _ s.contents
          (ap (count q) (same_list thread run t r s.queues same) ∙ w.once))
    | inr other ↦ rw other (
        contents-none m q _ s.contents (w.nowhere_else t r other)
        ∙ sym (++-nil (contents_of q s.contents)))
  ]

  put_message-contents :
      (c : Put) (s : Manager)
      → IsSubscribed q run thread s
      → IsSubscribed q run thread (put_message c.run c.thread c.message c.resumable c.now s)
        × (contents_of q (put_message c.run c.thread c.message c.resumable c.now s).contents
            ≡ contents_of q s.contents ++ messages_of run thread (c ∷ []))
  unfolding put_message messages_of
  put_message-contents c s w =
      let (v, same) = store_message-IsSubscribed c.run c.thread (stamped c) c.resumable s w in
      (
        send-IsSubscribed c.run c.thread (stamped c) c.message.is_control _ v,
        send-contents c.run c.thread (stamped c) c.message.is_control _ v
            ∙ ap (λ x. contents_of q x ++ messages_of run thread (c ∷ [])) same,
      )

  messages_of-cons :
      (c : Put) (cs : List Put)
      → messages_of run thread (c ∷ []) ++ messages_of run thread cs
        ≡ messages_of run thread (c ∷ cs)
  unfolding messages_of
  messages_of-cons c cs = elim (Bool-cases (not c.message.is_control && is_to run thread c)) [
    | inl sent ↦ rw sent refl
    | inr passed ↦ rw passed refl
  ]

  -- A queue that was added for a run, and stands in no other list, is given every message that is put
  -- to the run and is no control message, exactly once and in the order of the puts, after what it had,
  -- and nothing that is put to another run.
  pub run_puts-delivered :
      (cs : List Put) (s : Manager)
      → IsSubscribed q run thread s
      → get_or (get q (run_puts cs s).contents) []
        ≡ get_or (get q s.contents) [] ++ messages_of run thread cs
  unfolding run_puts contents_of messages_of
  run_puts-delivered [] s w = sym (++-nil (contents_of q s.contents))
  run_puts-delivered (c ∷ cs) s w =
      let (v, sent) = put_message-contents c s w in
      run_puts-delivered cs _ v
      ∙ ap (λ l. l ++ messages_of run thread cs) sent
      ∙ ++-assoc (contents_of q s.contents) (messages_of run thread (c ∷ []))
          (messages_of run thread cs)
      ∙ ap (λ l. contents_of q s.contents ++ l) (messages_of-cons c cs)
