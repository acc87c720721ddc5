-- ===== src/Context/Trimming/Examples.antt =====
-- A history that is trimmed, and uses of the theorems about it.
use forge_agent.Base.{
  ℕ, ◌+◌, ◌≤◌, ◌<◌, ◌≡◌, refl, String, none, List, [], ◌∷◌, length, replicate, arith,
}
use forge_agent.Context.Budget.{TokenBudget, history_limit}
use forge_agent.Context.History.{
  unit_tokens, history_notice, Message, units_from, count_messages, build_from,
  recent_history_units,
}
use forge_agent.Context.Selection.{store_state, select_units_dp}
use forge_agent.Context.Trimming.{trim_history}
use forge_agent.Context.Trimming.Bound.{trim_history-le, trim_history-selected, request-le}

abbrev counter : Message ℕ → ℕ
counter m = 4 + length m.content

-- every notice has two characters
abbrev text_of : String → List ℕ
text_of s = 0 ∷ 0 ∷ []

abbrev count_text : List ℕ → ℕ
count_text = length

abbrev message : String → ℕ → Message ℕ
message role n = record { role = role; content = replicate n 1; tool_call_id = none }

abbrev first : Message ℕ
first = message "user" 10

abbrev rest : List (Message ℕ)
rest =
    message "assistant" 20
    ∷ message "user" 30
    ∷ message "assistant" 5
    ∷ message "tool" 6
    ∷ message "user" 3
    ∷ []

newest_unit : recent_history_units counter text_of (first ∷ rest) 20 ≡ (5 ∷ []) ∷ []
unfolding recent_history_units
newest_unit = refl

last_selected :
    select_units_dp counter text_of (first ∷ rest) (units_from 1 rest) 50 first ≡ 3 ∷ 4 ∷ 5 ∷ []
unfolding select_units_dp units_from unit_tokens store_state history_notice
last_selected = refl

too_long : 50 < count_messages counter text_of (first ∷ rest)
unfolding count_messages
too_long = omega arith

trim_history-le_example :
    count_messages counter text_of (trim_history counter text_of count_text [] (first ∷ rest) 50)
    ≤ 50
trim_history-le_example = trim_history-le counter text_of count_text [] (first ∷ rest) 50

trim_history-selected_example :
    trim_history counter text_of count_text [] (first ∷ rest) 50
    ≡ first ∷ build_from counter text_of (first ∷ rest) 1 (3 ∷ 4 ∷ 5 ∷ [])
trim_history-selected_example =
    trim_history-selected counter text_of count_text [] first rest 50 3 (4 ∷ 5 ∷ []) too_long
      (omega arith) (omega arith) last_selected

abbrev budget : TokenBudget
budget = record {
  total = 120;
  reserved_output_tokens = 20;
  safety_margin_tokens = 0;
  legacy_reserve_tokens = 0;
}

request-le_example :
    30
      + count_messages counter text_of
          (trim_history counter text_of count_text [] (first ∷ rest) (history_limit budget 30))
    ≤ 100
request-le_example = request-le counter text_of count_text [] budget 30 (first ∷ rest) (omega arith)
