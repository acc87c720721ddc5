-- ===== src/Ipc/Bus/Lossless.antt =====
-- A subscriber's queue without a limit, over any steps of the bus: what is taken from it and what
-- waits in it is what was published to it, in order.
use forge_agent.Base.{
  Text, ℕ, ◌≡◌, refl, sym, ap, ◌∙◌, Option, none, some, List, [], ◌∷◌, ◌++◌, ◌==◌, get_elem?, drop,
  arith, if◌then◌else◌,
}
use mathlib.Core.List.{append_assoc, append-nil}
use forge_agent.Ipc.Bus.{Message, Queue, Bus, get}
use forge_agent.Ipc.Bus.Table.{takes}
use forge_agent.Ipc.Bus.Valid.{
  BusEvent, subscribing, unsubscribing, publishing, getting, IsValid, step, run, step-IsValid,
}
use forge_agent.Ipc.Bus.Views.{View, view, left, view_step, view-step, view-queue}

abbrev pub listed {ℓ} : {B : Type ℓ} → Option B → List B
listed none = []
listed (some b) = b ∷ []

module _ {A : Type 0} where
  -- what subscriber `i` is given by one step
  abbrev pub given : ℕ → BusEvent A → Bus A → List (Message A)
  given i (getting j) bus = if j == i then listed (get j bus).1 else []
  given i _ bus = []

  -- what subscriber `i` takes from its queue over the steps, in order
  abbrev pub taken : ℕ → List (BusEvent A) → Bus A → List (Message A)
  taken i [] bus = []
  taken i (e ∷ es) bus = given i e bus ++ taken i es (step e bus)

  -- what is published to a subscriber of `topic`, until it leaves
  abbrev pub sent : ℕ → List (BusEvent A) → Option Text → List (Message A)
  sent i [] topic = []
  sent i (subscribing t maxsize ∷ es) topic = sent i es topic
  sent i (unsubscribing t j ∷ es) topic = sent i es (left i t j topic)
  sent i (publishing msg ∷ es) topic =
      let rest = sent i es topic in if takes msg.topic topic then msg ∷ rest else rest
  sent i (getting j ∷ es) topic = sent i es topic

  -- the same for one step
  abbrev sent_by : BusEvent A → Option Text → List (Message A)
  sent_by (publishing msg) topic = if takes msg.topic topic then msg ∷ [] else []
  sent_by _ topic = []

  sent-cons :
      (i : ℕ) (e : BusEvent A) (es : List (BusEvent A)) (v : View A)
      → sent i (e ∷ es) v.topic ≡ sent_by e v.topic ++ sent i es (view_step i e v).topic
  sent-cons i (subscribing t maxsize) es v = refl
  sent-cons i (unsubscribing t j) es v = refl
  sent-cons i (publishing msg) es v = ground arith
  sent-cons i (getting j) es v = refl

  front : (items : List (Message A)) → listed (get_elem? items 0) ++ drop 1 items ≡ items
  front [] = refl
  front (m ∷ items) = refl

  taken-get :
      (i : ℕ) (bus : Bus A) (q : Queue A)
      → get_elem? bus.queues i ≡ some q
      → (get i bus).1 ≡ get_elem? q.items 0
  unfolding get
  taken-get i bus q h = ground (arith, h)

  step_lossless :
      (i : ℕ) (e : BusEvent A) (bus : Bus A) (v : View A)
      → view i bus ≡ some v
      → v.queue.maxsize ≡ 0
      → given i e bus ++ (view_step i e v).queue.items ≡ v.queue.items ++ sent_by e v.topic
  step_lossless i (subscribing t maxsize) bus v h z = sym (append-nil v.queue.items)
  step_lossless i (unsubscribing t j) bus v h z = sym (append-nil v.queue.items)
  step_lossless i (publishing msg) bus v h z = ground (arith, z, append-nil v.queue.items)
  step_lossless i (getting j) bus v h z = ground (
    arith,
    (view-queue i bus v h).0,
    taken-get i bus v.queue ((view-queue i bus v h).0),
    front v.queue.items,
    append-nil v.queue.items,
  )

  size_kept :
      (i : ℕ) (e : BusEvent A) (v : View A) → (view_step i e v).queue.maxsize ≡ v.queue.maxsize
  size_kept i (subscribing t maxsize) v = refl
  size_kept i (unsubscribing t j) v = refl
  size_kept i (publishing msg) v = ground arith
  size_kept i (getting j) v = ground arith

  -- what waits in a queue
  abbrev pub waiting : ℕ → Bus A → List (Message A)
  waiting i bus = elim (get_elem? bus.queues i) [ none ↦ [] | some q ↦ q.items ]

  -- Over any steps of a valid bus, what a subscriber with a queue without limit takes, followed by
  -- what waits in its queue at the end, is what waited before, followed by what was published to its
  -- topic until it left: no message is lost, doubled or moved.
  pub lossless :
      (es : List (BusEvent A)) (i : ℕ) (bus : Bus A) (v : View A)
      → IsValid bus
      → view i bus ≡ some v
      → v.queue.maxsize ≡ 0
      → taken i es bus ++ waiting i (run es bus) ≡ v.queue.items ++ sent i es v.topic
  lossless [] i bus v valid h z = ground (arith, (view-queue i bus v h).0, append-nil v.queue.items)
  lossless (e ∷ es) i bus v valid h z =
      append_assoc (given i e bus) (taken i es (step e bus)) (waiting i (run es (step e bus)))
      ∙ ap (λ r. given i e bus ++ r)
          (lossless es i (step e bus) (view_step i e v) (step-IsValid e valid)
            (view-step e i bus v valid h) (size_kept i e v ∙ z))
      ∙ sym (append_assoc (given i e bus) (view_step i e v).queue.items _)
      ∙ ap (λ r. r ++ sent i es (view_step i e v).topic) (step_lossless i e bus v h z)
      ∙ append_assoc v.queue.items (sent_by e v.topic) _
      ∙ ap (λ r. v.queue.items ++ r) (sym (sent-cons i e es v))
