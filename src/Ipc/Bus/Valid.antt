-- ===== src/Ipc/Bus/Valid.antt =====
-- The steps of the bus, and what every one of them keeps.
use forge_agent.Base.{
  Text, ℕ, ◌≤◌, ◌≡◌, refl, List, [], ◌∷◌, length, get_elem?, arith, Bool-cases, Option-cases, inl,
  inr, length-append,
}
use forge_agent.Ipc.Bus.{
  Message, Bus, subscribe, unsubscribe, publish, get, popped, subscribers_of, contains,
}
use forge_agent.Ipc.Bus.Heap.{held, length-set, length-deliver_matching}
use forge_agent.Ipc.Bus.Table.{named, held-add, held-without, named-add, named-without}

pub data BusEvent (A : Type 0) : Type 0 where
  subscribing : Text → ℕ → BusEvent A
  unsubscribing : Text → ℕ → BusEvent A
  publishing : Message A → BusEvent A
  getting : ℕ → BusEvent A

module _ {A : Type 0} where
  -- A queue is subscribed once at most, and only if it is there; a topic has one entry.
  pub record IsValid (bus : Bus A) : Type 0 where
    pub once : (i : ℕ) → held i bus.subscribers ≤ 1
    pub fresh : (i : ℕ) → length bus.queues ≤ i → held i bus.subscribers ≡ 0
    pub keys : (t : Text) → named t bus.subscribers ≤ 1

  abbrev pub step : BusEvent A → Bus A → Bus A
  step (subscribing t maxsize) bus = (subscribe t maxsize bus).0
  step (unsubscribing t i) bus = (unsubscribe t i bus).0
  step (publishing msg) bus = (publish msg bus).0
  step (getting i) bus = (get i bus).0

  abbrev pub run : List (BusEvent A) → Bus A → Bus A
  run [] bus = bus
  run (e ∷ es) bus = run es (step e bus)

  abbrev pub empty_bus : Bus A
  empty_bus = record { queues = []; subscribers = [] }

  pub empty-IsValid : IsValid empty_bus
  empty-IsValid = record { once = λ i. omega arith; fresh = λ i h. refl; keys = λ t. omega arith }

  subscribe-IsValid :
      (t : Text) (maxsize : ℕ) {bus : Bus A} → IsValid bus → IsValid (subscribe t maxsize bus).0
  unfolding subscribe
  subscribe-IsValid t maxsize {bus} v = record {
    once =
        λ i. ground (arith, held-add i t (length bus.queues) bus.subscribers, v.once i, v.fresh i);
    fresh = λ i h. ground (
      arith,
      held-add i t (length bus.queues) bus.subscribers,
      v.fresh i,
      h,
      length-append bus.queues ((record { maxsize = maxsize; items = [] }) ∷ []),
    );
    keys = λ k. named-add k t (length bus.queues) bus.subscribers (v.keys k);
  }

  unsubscribe-IsValid :
      (t : Text) (j : ℕ) {bus : Bus A} → IsValid bus → IsValid (unsubscribe t j bus).0
  unfolding unsubscribe
  unsubscribe-IsValid t j {bus} v =
      elim (Bool-cases (contains j (subscribers_of t bus.subscribers))) [
        | inl e ↦ rw e (record {
          once = λ i. omega (arith, held-without i t j bus.subscribers e, v.once i);
          fresh = λ i h. omega (arith, held-without i t j bus.subscribers e, v.fresh i h);
          keys = λ k. omega (arith, named-without k t j bus.subscribers, v.keys k);
        })
        | inr n ↦ rw n v
      ]

  publish-IsValid : (msg : Message A) {bus : Bus A} → IsValid bus → IsValid (publish msg bus).0
  unfolding publish
  publish-IsValid msg {bus} v = record {
    once = v.once;
    fresh = λ i h.
        v.fresh i (omega (arith, h, length-deliver_matching msg bus.subscribers bus.queues 0));
    keys = v.keys;
  }

  get-IsValid : (j : ℕ) {bus : Bus A} → IsValid bus → IsValid (get j bus).0
  unfolding get
  get-IsValid j {bus} v = elim (Option-cases (get_elem? bus.queues j)) [
    | inl e ↦ rw (e, get) v
    | inr (q, e) ↦
        rw (e, get)
          (record {
            once = v.once;
            fresh = λ i h. v.fresh i (omega (arith, h, length-set bus.queues j (popped q)));
            keys = v.keys;
          })
  ]

  -- Every operation keeps a queue subscribed once at most, under one entry for each topic.
  pub step-IsValid : (e : BusEvent A) {bus : Bus A} → IsValid bus → IsValid (step e bus)
  step-IsValid (subscribing t maxsize) v = subscribe-IsValid t maxsize v
  step-IsValid (unsubscribing t j) v = unsubscribe-IsValid t j v
  step-IsValid (publishing msg) v = publish-IsValid msg v
  step-IsValid (getting j) v = get-IsValid j v
