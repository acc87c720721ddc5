-- ===== src/Context/Pruning/Examples.antt =====
-- A history whose old search is repeated later, and a use of the theorem on it.
use forge_agent.Base.{
  ℕ, ◌≡◌, ◌⊎◌, refl, Option, none, some, List, [], ◌∷◌, ◌++◌, String, length, get_elem?, Text,
  codes,
}
use forge_agent.Context.History.{Message, units_from}
use forge_agent.Context.Evidence.{LlmMessage, parse_action, parse_observation}
use forge_agent.Context.Pruning.{prune}
use forge_agent.Context.Pruning.Sound.{IsPruned}
use forge_agent.Context.Pruning.Kept.{prune-Kept}

abbrev no_json : Text → Option ℕ
no_json t = none

abbrev count_messages : List (Message ℕ) → ℕ
count_messages ms = length ms

abbrev message : String → Text → Option String → LlmMessage
message role content ref = record {
  role = role;
  content = content;
  tool_call_id = none;
  event_ref = ref;
}

abbrev line : Text
line = 10 ∷ []

abbrev searched : Text
searched = codes "[Tool: search_text | SUCCESS]" ++ (line ++ codes "a.py:1")

abbrev history : List LlmMessage
history =
    message "user" (codes "find it") none
    ∷ message "assistant" (codes "Action: search_text") (some "e1")
    ∷ message "user" searched (some "e2")
    ∷ message "assistant" (codes "Action: search_text") (some "e3")
    ∷ message "user" searched (some "e4")
    ∷ []

older_points_to_newer :
    (prune no_json length count_messages 200 history 4).pruned_event_ids ≡ "e2" ∷ []
unfolding prune units_from parse_action parse_observation
older_points_to_newer = refl

protected_stays : (prune no_json length count_messages 200 history 1).pruned_event_ids ≡ []
unfolding prune units_from parse_action parse_observation
protected_stays = refl

prune-Kept_example :
    let out : List LlmMessage = (prune no_json length count_messages 200 history 4).messages in
    (length out ≡ length history)
    × ((i : ℕ) (m : LlmMessage)
        → get_elem? history i ≡ some m
        → (r : LlmMessage) × (get_elem? out i ≡ some r)
          × ((r ≡ m) ⊎ IsPruned length 200 history 4 i r))
prune-Kept_example = prune-Kept no_json length count_messages 200 history 4
