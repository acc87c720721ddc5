-- ===== src/Ipc/Bus.antt =====
-- ipc/bus.py: `AgentBus`. A topic is the list of its code points. A queue is an object that its
-- subscriber keeps after `unsubscribe`, so the queues stand in a heap and the bus holds numbers of
-- them. `publish` does not wait anywhere, so it is one step.
pub mod Topics
pub mod Heap
pub mod Table
pub mod Valid
pub mod Views
pub mod Lossless
mod Examples
use forge_agent.Base.{
  Text, text_eq, starts_with, ends_with, ℕ, zero, suc, ◌+◌, ◌-◌, String, Bool, true, false, not,
  ◌&&◌, ◌||◌, Option, none, some, List, [], ◌∷◌, ◌++◌, leb, ltb, ◌==◌, if◌then◌else◌, length,
  get_elem?, take, drop, any, map,
}

abbrev pub dot_star : Text
dot_star = b'.' ∷ b'*' ∷ []

-- _topic_matches
pub topic_matches : Text → Text → Bool
topic_matches subscription topic =
    let prefix = take (length subscription - 2) subscription in
    let rest = drop (length prefix + 1) topic in
    if text_eq subscription topic
    then true
    else if ends_with subscription dot_star
    then (if not (starts_with topic (prefix ++ b'.' ∷ []))
        then false
        else not (any (λ c. c == b'.') rest))
    else false

-- the body and the values of the metadata are any values
pub record Message (A : Type 0) : Type 0 where
  pub sender : String
  pub topic : Text
  pub content : A
  pub msg_type : String
  pub metadata : List (String × A)
  pub ts : ℕ
  pub id : String

-- asyncio.Queue; a size of 0 means no limit
pub record Queue (A : Type 0) : Type 0 where
  pub maxsize : ℕ
  pub items : List (Message A)

abbrev pub Entry : Type 0
Entry = Text × List ℕ

pub record Bus (A : Type 0) : Type 0 where
  pub queues : List (Queue A)
  pub subscribers : List Entry

-- a write out of bounds changes nothing
abbrev pub set {ℓ} : {B : Type ℓ} → List B → ℕ → B → List B
set [] i v = []
set (x ∷ xs) zero v = v ∷ xs
set (x ∷ xs) (suc i) v = x ∷ set xs i v

abbrev pub contains : ℕ → List ℕ → Bool
contains i ids = any (λ j. j == i) ids

-- self._subscribers[topic].append(q) of the defaultdict
pub add_subscriber : Text → ℕ → List Entry → List Entry
add_subscriber topic i [] = (topic, i ∷ []) ∷ []
add_subscriber topic i ((key, ids) ∷ rest) =
    if text_eq key topic
    then (key, ids ++ i ∷ []) ∷ rest
    else (key, ids) ∷ add_subscriber topic i rest

-- subs.remove(queue): the first one
pub remove_first : ℕ → List ℕ → List ℕ
remove_first i [] = []
remove_first i (j ∷ ids) = if j == i then ids else j ∷ remove_first i ids

-- the entry of the topic without the queue; an entry that becomes empty is deleted
abbrev pub entry_without : Text → List ℕ → List Entry → List Entry
entry_without key [] rest = rest
entry_without key (j ∷ ids) rest = (key, j ∷ ids) ∷ rest

pub without : Text → ℕ → List Entry → List Entry
unfolding remove_first
without topic i [] = []
without topic i ((key, ids) ∷ rest) =
    if text_eq key topic
    then entry_without key (remove_first i ids) rest
    else (key, ids) ∷ without topic i rest

-- the queues of a topic, none for a missing key
pub subscribers_of : Text → List Entry → List ℕ
subscribers_of topic [] = []
subscribers_of topic ((key, ids) ∷ rest) =
    if text_eq key topic then ids else subscribers_of topic rest

abbrev pub or_empty {ℓ} : {B : Type ℓ} → Option (List B) → List B
or_empty none = []
or_empty (some l) = l

module _ {A : Type 0} where
  pub subscribe : Text → ℕ → Bus A → Bus A × ℕ
  unfolding add_subscriber
  subscribe topic maxsize bus =
      let i = length bus.queues in
      (
        record {
          queues = bus.queues ++ (record { maxsize = maxsize; items = [] }) ∷ [];
          subscribers = add_subscriber topic i bus.subscribers;
        },
        i,
      )

  pub unsubscribe : Text → ℕ → Bus A → Bus A × Bool
  unfolding without subscribers_of
  unsubscribe topic i bus =
      if contains i (subscribers_of topic bus.subscribers)
      then (record bus { subscribers = without topic i bus.subscribers }, true)
      else (bus, false)

  abbrev pub full : Queue A → Bool
  full q = ltb 0 q.maxsize && leb q.maxsize (length q.items)

  -- put_nowait on one queue, with the counter of deliveries; a full queue drops the message
  pub deliver : Message A → List (Queue A) → ℕ → ℕ → List (Queue A) × ℕ
  deliver msg queues n i = elim (get_elem? queues i) [
    | none ↦ (queues, n)
    | some q ↦
        if full q
        then (queues, n)
        else (set queues i (record q { items = q.items ++ msg ∷ [] }), n + 1)
  ]

  -- the inner loop of `publish`
  pub deliver_all : Message A → List (Queue A) → ℕ → List ℕ → List (Queue A) × ℕ
  unfolding deliver
  deliver_all msg queues n [] = (queues, n)
  deliver_all msg queues n (i ∷ ids) = let r = deliver msg queues n i in deliver_all msg r.0 r.1 ids

  -- the outer loop, over the topics in the order of their first subscription
  pub deliver_matching : Message A → List (Queue A) → ℕ → List Entry → List (Queue A) × ℕ
  unfolding deliver_all topic_matches
  deliver_matching msg queues n [] = (queues, n)
  deliver_matching msg queues n ((key, ids) ∷ rest) =
      let r = if topic_matches key msg.topic then deliver_all msg queues n ids else (queues, n) in
      deliver_matching msg r.0 r.1 rest

  -- the message that `publish` makes; its time and its identifier are arguments
  abbrev pub message_for :
      Text → String → A → String → Option (List (String × A)) → ℕ → String → Message A
  message_for topic sender content msg_type metadata now id = record {
    sender = sender;
    topic = topic;
    content = content;
    msg_type = msg_type;
    metadata = or_empty metadata;
    ts = now;
    id = id;
  }

  pub publish : Message A → Bus A → Bus A × ℕ
  unfolding deliver_matching
  publish msg bus =
      let r = deliver_matching msg bus.queues 0 bus.subscribers in
      (record bus { queues = r.0 }, r.1)

  abbrev pub popped : Queue A → Queue A
  popped q = record q { items = drop 1 q.items }

  -- `await q.get()` of the subscriber, which waits while the queue is empty
  pub get : ℕ → Bus A → Bus A × Option (Message A)
  get i bus = elim (get_elem? bus.queues i) [
    | none ↦ (bus, none)
    | some q ↦ (record bus { queues = set bus.queues i (popped q) }, get_elem? q.items 0)
  ]

  pub subscriber_count : Text → Bus A → ℕ
  unfolding subscribers_of
  subscriber_count topic bus = length (subscribers_of topic bus.subscribers)

  pub topics : Bus A → List Text
  topics bus = map (λ e. e.0) bus.subscribers
