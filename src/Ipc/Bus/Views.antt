-- ===== src/Ipc/Bus/Views.antt =====
-- The bus from the side of one subscriber: its topic and its queue. Each step of the bus is a step of
-- this small machine, and a queue without a limit loses nothing.
use forge_agent.Base.{
  Text, text_eq, text_eq_iff, ℕ, zero, suc, ◌+◌, ◌≡◌, refl, ap, ◌∙◌, Bool, true, false, ◌&&◌,
  Option, none, some, Option-cases, List, [], ◌∷◌, ◌++◌, ◌==◌, length, get_elem?, arith,
  if◌then◌else◌, Bool-cases, inl, inr,
}
use forge_agent.Ipc.Bus.{
  Message, Queue, Bus, subscribe, unsubscribe, publish, get, popped, subscribers_of, contains,
  without,
}
use forge_agent.Ipc.Bus.Heap.{
  put_if, get-set, get-some-lt, get-deliver_matching, stored, stored-deliver_matching,
}
use forge_agent.Ipc.Bus.Table.{
  subscription, held-without, held-none, subscription-add_other, subscription-add_self,
  subscription-without_other, listed_iff, takes, is_target-subscription, one_if,
}
use forge_agent.Ipc.Bus.Valid.{
  BusEvent, subscribing, unsubscribing, publishing, getting, IsValid, step,
}

-- what one subscriber sees
pub record View (A : Type 0) : Type 0 where
  pub topic : Option Text
  pub queue : Queue A

abbrev pub is_on : Text → Option Text → Bool
is_on t none = false
is_on t (some s) = text_eq s t

-- the topic of subscriber `i` after `unsubscribe` of subscriber `j`
abbrev pub left : ℕ → Text → ℕ → Option Text → Option Text
left i t j topic = if j == i && is_on t topic then none else topic

module _ {A : Type 0} where
  abbrev pub view_of : List (Queue A) → Option Text → ℕ → Option (View A)
  view_of queues topic i = elim (get_elem? queues i) [
    | none ↦ none
    | some q ↦ some (record { topic = topic; queue = q })
  ]

  abbrev pub view : ℕ → Bus A → Option (View A)
  view i bus = view_of bus.queues (subscription i bus.subscribers) i

  -- the machine of subscriber `i`
  abbrev pub view_step : ℕ → BusEvent A → View A → View A
  view_step i (subscribing t maxsize) v = v
  view_step i (unsubscribing t j) v = record v { topic = left i t j v.topic }
  view_step i (publishing msg) v = record v { queue = put_if msg (takes msg.topic v.topic) v.queue }
  view_step i (getting j) v = record v { queue = if j == i then popped v.queue else v.queue }

  view-of :
      (queues : List (Queue A)) (topic : Option Text) (i : ℕ) {q : Queue A} {o : Option Text}
      → get_elem? queues i ≡ some q
      → topic ≡ o
      → view_of queues topic i ≡ some (record { topic = o; queue = q })
  view-of queues topic i h e = ground (arith, h, e)

  get-append :
      (queues : List (Queue A)) (r : Queue A) (i : ℕ) {q : Queue A}
      → get_elem? queues i ≡ some q
      → get_elem? (queues ++ r ∷ []) i ≡ some q
  get-append [] r i h = cc
  get-append (p ∷ queues) r zero h = h
  get-append (p ∷ queues) r (suc i) h = get-append queues r i h

  subscribe-view :
      (t : Text) (maxsize i : ℕ) (bus : Bus A) {q : Queue A}
      → get_elem? bus.queues i ≡ some q
      → view i (subscribe t maxsize bus).0
        ≡ some (record { topic = subscription i bus.subscribers; queue = q })
  unfolding subscribe
  subscribe-view t maxsize i bus h =
      view-of (bus.queues ++ (record { maxsize = maxsize; items = [] }) ∷ []) _ i
        (get-append bus.queues _ i h)
        (subscription-add_other i t (length bus.queues) bus.subscribers
          (ground (arith, get-some-lt bus.queues i _ h)))

  listed-topic :
      (t : Text) (j i : ℕ) (bus : Bus A)
      → IsValid bus
      → contains j (subscribers_of t bus.subscribers) ≡ true
      → subscription i (without t j bus.subscribers) ≡ left i t j (subscription i bus.subscribers)
  listed-topic t j i bus v e = elim (Bool-cases (j == i)) [
    | inr n ↦ ground (arith, n, subscription-without_other i t j bus.subscribers n)
    | inl m ↦ ground (
      arith,
      m,
      e,
      (listed_iff j t bus.subscribers (v.once j) (v.keys t)).0 e,
      text_eq_iff t t,
      held-none i (without t j bus.subscribers)
          (omega (arith, held-without i t j bus.subscribers e, v.once i, ap one_if m)),
    )
  ]

  unlisted-topic :
      (t : Text) (j i : ℕ) (bus : Bus A)
      → IsValid bus
      → contains j (subscribers_of t bus.subscribers) ≡ false
      → subscription i bus.subscribers ≡ left i t j (subscription i bus.subscribers)
  unlisted-topic t j i bus v n = elim (Option-cases (subscription i bus.subscribers)) [
    | inl e ↦ ground (arith, e)
    | inr (s, e) ↦
        ground
          (arith, e, n, (listed_iff j t bus.subscribers (v.once j) (v.keys t)).1, text_eq_iff s t)
  ]

  unsubscribe-topic :
      (t : Text) (j i : ℕ) (bus : Bus A)
      → IsValid bus
      → subscription i (unsubscribe t j bus).0.subscribers
        ≡ left i t j (subscription i bus.subscribers)
  unfolding unsubscribe
  unsubscribe-topic t j i bus v =
      elim (Bool-cases (contains j (subscribers_of t bus.subscribers))) [
        | inl e ↦ rw e (listed-topic t j i bus v e)
        | inr n ↦ rw n (unlisted-topic t j i bus v n)
      ]

  unsubscribe-queues :
      (t : Text) (j : ℕ) (bus : Bus A) → (unsubscribe t j bus).0.queues ≡ bus.queues
  unfolding unsubscribe
  unsubscribe-queues t j bus = ground arith

  publish-view :
      (msg : Message A) (i : ℕ) (bus : Bus A) {q : Queue A}
      → IsValid bus
      → get_elem? bus.queues i ≡ some q
      → view i (publish msg bus).0
        ≡ some (record {
          topic = subscription i bus.subscribers;
          queue = put_if msg (takes msg.topic (subscription i bus.subscribers)) q;
        })
  unfolding publish
  publish-view msg i bus {q} v h =
      view-of _ _ i
        (get-deliver_matching msg bus.subscribers bus.queues 0 i (v.once i) h
          ∙ ap (λ b. some (put_if msg b q))
              (is_target-subscription msg i bus.subscribers (v.once i)))
        refl

  get-view :
      (j i : ℕ) (bus : Bus A) {q : Queue A}
      → get_elem? bus.queues i ≡ some q
      → view i (get j bus).0
        ≡ some (record {
          topic = subscription i bus.subscribers;
          queue = if j == i then popped q else q;
        })
  unfolding get
  get-view j i bus {q} h = elim (Option-cases (get_elem? bus.queues j)) [
    | inl e ↦ ground (arith, h, e)
    | inr (p, e) ↦
        ground (arith, h, e, get-set bus.queues j i (popped p) (get-some-lt bus.queues j p e))
  ]

  unsubscribe-view :
      (t : Text) (j i : ℕ) (bus : Bus A) {q : Queue A}
      → IsValid bus
      → get_elem? bus.queues i ≡ some q
      → view i (unsubscribe t j bus).0
        ≡ some (record { topic = left i t j (subscription i bus.subscribers); queue = q })
  unsubscribe-view t j i bus v h =
      view-of _ _ i (ap (λ qs. get_elem? qs i) (unsubscribe-queues t j bus) ∙ h)
        (unsubscribe-topic t j i bus v)

  pub view-queue :
      (i : ℕ) (bus : Bus A) (v : View A)
      → view i bus ≡ some v
      → (get_elem? bus.queues i ≡ some v.queue) × (subscription i bus.subscribers ≡ v.topic)
  view-queue i bus v h = elim (Option-cases (get_elem? bus.queues i)) [
    | inl e ↦ ground (arith, h, e)
    | inr (q, e) ↦ ground (arith, h, e)
  ]

  step-of_queue :
      (e : BusEvent A) (i : ℕ) (bus : Bus A) {q : Queue A}
      → IsValid bus
      → get_elem? bus.queues i ≡ some q
      → view i (step e bus)
        ≡ some (view_step i e (record { topic = subscription i bus.subscribers; queue = q }))
  step-of_queue (subscribing t maxsize) i bus v h = subscribe-view t maxsize i bus h
  step-of_queue (unsubscribing t j) i bus v h = unsubscribe-view t j i bus v h
  step-of_queue (publishing msg) i bus v h = publish-view msg i bus v h
  step-of_queue (getting j) i bus v h = get-view j i bus h

  -- Each step of a valid bus is, for each queue, the step of its subscriber's own machine: it is
  -- put the messages of the topics that its subscription takes, and no others, until it leaves.
  pub view-step :
      (e : BusEvent A) (i : ℕ) (bus : Bus A) (v : View A)
      → IsValid bus
      → view i bus ≡ some v
      → view i (step e bus) ≡ some (view_step i e v)
  view-step e i bus v valid h =
      let w = view-queue i bus v h in
      step-of_queue e i bus valid w.0
      ∙ ap (λ o. some (view_step i e (record { topic = o; queue = v.queue }))) w.1

  -- A subscription gets a new and empty queue of its size.
  pub subscribe-new :
      (t : Text) (maxsize : ℕ) (bus : Bus A)
      → IsValid bus
      → view (subscribe t maxsize bus).1 (subscribe t maxsize bus).0
        ≡ some (record { topic = some t; queue = record { maxsize = maxsize; items = [] } })
  unfolding subscribe
  subscribe-new t maxsize bus v = view-of _ _ (length bus.queues) (get-last bus.queues _) (
      subscription-add_self t (length bus.queues) bus.subscribers
        (v.fresh (length bus.queues) (omega arith)))
    where
      get-last : (qs : List (Queue A)) (r : Queue A) → get_elem? (qs ++ r ∷ []) (length qs) ≡ some r
      get-last [] r = refl
      get-last (q ∷ qs) r = get-last qs r

  -- The number that `publish` returns is that of the messages that it put.
  pub publish-stored :
      (msg : Message A) (bus : Bus A)
      → stored (publish msg bus).0.queues ≡ stored bus.queues + (publish msg bus).1
  unfolding publish
  publish-stored msg bus = omega (arith, stored-deliver_matching msg bus.subscribers bus.queues 0)
