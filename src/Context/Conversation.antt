-- ===== src/Context/Conversation.antt =====
-- context/history.py: `ConversationHistory`. The hint of a size changes nothing.
use forge_agent.Base.{
  ℕ, ◌-◌, String, Option, none, List, [], ◌∷◌, ◌++◌, map, length, get_elem?, take, if◌then◌else◌,
  Text,
}
use forge_agent.Context.History.{Message}
use forge_agent.Context.Evidence.{LlmMessage}
use forge_agent.Context.Pruning.{has_ref}

pub record ConversationHistory : Type 0 where
  pub messages : List LlmMessage
  pub max : Option ℕ

-- the dictionary of a message, as the history keeps it: it has no tool_call_id
pub record HistoryDict : Type 0 where
  pub role : String
  pub content : Text
  pub event_ref : Option String

abbrev pub new_history : Option ℕ → ConversationHistory
new_history max_messages = record { messages = []; max = max_messages }

abbrev pub add : LlmMessage → ConversationHistory → ConversationHistory
add m h = record h { messages = h.messages ++ m ∷ [] }

abbrev pub add_many : List LlmMessage → ConversationHistory → ConversationHistory
add_many ms h = record h { messages = h.messages ++ ms }

abbrev pub to_dict : LlmMessage → HistoryDict
to_dict m = record {
  role = m.role;
  content = m.content;
  event_ref = if has_ref m.event_ref then m.event_ref else none;
}

abbrev pub to_dicts : ConversationHistory → List HistoryDict
to_dicts h = map to_dict h.messages

abbrev pub from_dict : HistoryDict → LlmMessage
from_dict d = record {
  role = d.role;
  content = d.content;
  tool_call_id = none;
  event_ref = d.event_ref;
}

abbrev pub from_dicts : List HistoryDict → Option ℕ → ConversationHistory
from_dicts ds max_messages = record { messages = map from_dict ds; max = max_messages }

abbrev pub message_count : ConversationHistory → ℕ
message_count h = length h.messages

abbrev pub last_message : ConversationHistory → Option LlmMessage
last_message h = get_elem? h.messages (length h.messages - 1)

abbrev pub clear_except_first : ConversationHistory → ConversationHistory
clear_except_first h = record h { messages = take 1 h.messages }

abbrev pub clear : ConversationHistory → ConversationHistory
clear h = record h { messages = [] }

abbrev pub replace : List LlmMessage → ConversationHistory → ConversationHistory
replace ms h = record h { messages = ms }

-- what the counters and the units read of a dictionary
abbrev pub counted_dict : HistoryDict → Message ℕ
counted_dict d = record { role = d.role; content = d.content; tool_call_id = none }
