-- ===== src/Ipc/Bus/Examples.antt =====
-- A bus with two subscribers, and uses of its theorems.
use forge_agent.Base.{Text, ℕ, ◌+◌, ◌≡◌, ◌↔◌, ◌⊎◌, refl, true, none, some, List, [], ◌∷◌, ◌++◌}
use forge_agent.Ipc.Bus.{
  topic_matches, message_for, Message, Bus, subscribe, unsubscribe, publish, get,
}
use forge_agent.Ipc.Bus.Topics.{IsBelow, topic_matches_iff}
use forge_agent.Ipc.Bus.Heap.{stored}
use forge_agent.Ipc.Bus.Valid.{
  BusEvent, subscribing, unsubscribing, publishing, getting, IsValid, step, run, empty_bus,
  empty-IsValid, step-IsValid,
}
use forge_agent.Ipc.Bus.Views.{View, view, view_step, view-step, subscribe-new, publish-stored}
use forge_agent.Ipc.Bus.Lossless.{taken, sent, waiting, lossless}

-- "a.*", "a.b" and "c"
abbrev all_below_a : Text
all_below_a = b'a' ∷ b'.' ∷ b'*' ∷ []

abbrev a_b : Text
a_b = b'a' ∷ b'.' ∷ b'b' ∷ []

abbrev c_topic : Text
c_topic = b'c' ∷ []

abbrev to_a_b : Message ℕ
to_a_b = message_for a_b "lead" 7 "message" none 1 "msg_1"

abbrev to_c : Message ℕ
to_c = message_for c_topic "lead" 8 "message" none 2 "msg_2"

-- the first subscriber is on "a.*" without a limit
abbrev one_bus : Bus ℕ
one_bus = run (subscribing all_below_a 0 ∷ []) empty_bus

one_bus-IsValid : IsValid one_bus
one_bus-IsValid = step-IsValid (subscribing all_below_a 0) empty-IsValid

abbrev first_view : View ℕ
first_view = record { topic = some all_below_a; queue = record { maxsize = 0; items = [] } }

one_bus-view : view 0 one_bus ≡ some first_view
unfolding subscribe
one_bus-view = subscribe-new all_below_a 0 empty_bus empty-IsValid

abbrev events : List (BusEvent ℕ)
events =
    subscribing c_topic 1
    ∷ publishing to_a_b
    ∷ publishing to_c
    ∷ publishing to_a_b
    ∷ getting 0
    ∷ unsubscribing all_below_a 0
    ∷ publishing to_a_b
    ∷ []

two_sent : sent 0 events (some all_below_a) ≡ to_a_b ∷ to_a_b ∷ []
unfolding topic_matches
two_sent = refl

two_waiting : waiting 0 (run events one_bus) ≡ to_a_b ∷ []
unfolding subscribe unsubscribe publish get
two_waiting = refl

lossless_example :
    taken 0 events one_bus ++ waiting 0 (run events one_bus)
    ≡ [] ++ sent 0 events (some all_below_a)
lossless_example = lossless events 0 one_bus first_view one_bus-IsValid one_bus-view refl

view-step_example :
    view 0 (step (publishing to_a_b) one_bus) ≡ some (view_step 0 (publishing to_a_b) first_view)
view-step_example = view-step (publishing to_a_b) 0 one_bus first_view one_bus-IsValid one_bus-view

topic_matches_iff_example :
    (topic_matches all_below_a a_b ≡ true) ↔ ((all_below_a ≡ a_b) ⊎ IsBelow all_below_a a_b)
topic_matches_iff_example = topic_matches_iff all_below_a a_b

publish-stored_example :
    stored (publish to_a_b one_bus).0.queues ≡ stored one_bus.queues + (publish to_a_b one_bus).1
publish-stored_example = publish-stored to_a_b one_bus
