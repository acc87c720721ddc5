-- ===== src/Context/Evidence.antt =====
-- context/history_evidence.py: the calls and the results of tools that the messages of a history show.
-- The regular expressions are written out: each of them can match in one way only. The parser of JSON
-- is a parameter, which gives the parameters of a call for the text of an object.
use forge_agent.Base.{
  ℕ, zero, suc, ◌+◌, String, Bool, true, false, not, ◌&&◌, ◌||◌, Option, none, some, List, [], ◌∷◌,
  ◌++◌, str_eq, ◌==◌, leb, if◌then◌else◌, length, drop, Text, codes, text_eq, starts_with,
  ends_with, is_space, take_while, drop_while, rstrip, strip,
}

-- LLMMessage
pub record LlmMessage : Type 0 where
  pub role : String
  pub content : Text
  pub tool_call_id : Option String
  pub event_ref : Option String

pub record ParsedAction (P : Type 0) : Type 0 where
  pub tool_name : Text
  pub params : Option P
  pub event_ref : Option String

pub record ParsedObservation : Type 0 where
  pub tool_name : Text
  pub is_success : Bool
  pub body : Text
  pub event_ref : Option String

abbrev newline : ℕ
newline = 10

abbrev not_newline : ℕ → Bool
not_newline c = not (c == newline)

-- the end of a line: the end of the text, or a newline
abbrev at_line_end : Text → Bool
at_line_end [] = true
at_line_end (c ∷ s) = c == newline

-- `\s*$` of a pattern for many lines
abbrev ends_line : Text → Bool
ends_line s = at_line_end (drop_while (λ c. is_space c && not_newline c) s)

-- what follows the first newline
abbrev next_line : Text → Text
next_line s = drop 1 (drop_while not_newline s)

-- _ACTION_TOOL at the start of a line
abbrev tool_at : Text → Option Text
tool_at s =
    let rest = drop_while is_space (drop 7 s) in
    let token = take_while (λ c. not (is_space c)) rest in
    if starts_with s (codes "Action:")
      && (leb 1 (length token) && ends_line (drop (length token) rest))
    then some token
    else none

-- _ACTION_PARAMS at the start of a line
abbrev params_at : Text → Option Text
params_at s =
    let line = rstrip (take_while not_newline (drop_while is_space (drop 7 s))) in
    if starts_with s (codes "Params:")
      && (leb 2 (length line) && (starts_with line (codes "{") && ends_with line (codes "}")))
    then some line
    else none

-- the first match at the start of a line; a text has no more lines than characters and one
pub search_lines : (Text → Option Text) → ℕ → Text → Option Text
search_lines matches zero s = none
search_lines matches (suc n) s =
    let rest = search_lines matches n (next_line s) in
    elim (matches s) [ some t ↦ some t | none ↦ if leb (length s) 0 then none else rest ]

abbrev search : (Text → Option Text) → Text → Option Text
search matches s = search_lines matches (length s + 1) s

module _ {P : Type 0} (json_object : Text → Option P) where
  abbrev action_with : Text → Option String → Option Text → Option (ParsedAction P)
  action_with tool ref none = some (record { tool_name = tool; params = none; event_ref = ref })
  action_with tool ref (some line) = elim (json_object line) [
    | none ↦ none
    | some params ↦ some (record { tool_name = tool; params = some params; event_ref = ref })
  ]

  -- parse_action_message
  unfoldable pub parse_action : LlmMessage → Option (ParsedAction P)
  unfolding search_lines
  parse_action m =
      if str_eq m.role "assistant"
      then (elim (search tool_at m.content) [
        | none ↦ none
        | some tool ↦ action_with (strip tool) m.event_ref (search params_at m.content)
      ])
      else none

-- the rest of the header behind the tool: its status, and the body behind a newline
abbrev status_of : Text → Option (Bool × Text)
status_of s =
    if starts_with s (codes "| SUCCESS]")
    then some (true, drop 10 s)
    else if starts_with s (codes "| ERROR]")
    then some (false, drop 8 s)
    else none

abbrev observed : Text → Option String → Option (Bool × Text) → Option ParsedObservation
observed tool ref none = none
observed tool ref (some (success, s)) =
    if at_line_end s
    then some
        (record { tool_name = strip tool; is_success = success; body = drop 1 s; event_ref = ref })
    else none

abbrev not_bar : ℕ → Bool
not_bar c = not (c == b'|')

-- parse_observation_message
unfoldable pub parse_observation : LlmMessage → Option ParsedObservation
parse_observation m =
    let rest = drop 7 m.content in
    let named = take_while not_bar rest in
    if (str_eq m.role "user" || str_eq m.role "tool")
      && (starts_with m.content (codes "[Tool: ")
          && (leb 2 (length named) && ends_with named (codes " ")))
    then observed named m.event_ref (status_of (drop (length named) rest))
    else none

-- is_user_authored_message
unfoldable pub is_user_authored : LlmMessage → Bool
unfolding parse_observation
is_user_authored m =
    if str_eq m.role "user"
    then (elim (parse_observation m) [
      | some o ↦ false
      | none ↦ not (starts_with (drop_while is_space m.content) (codes "[REFLECTION]"))
    ])
    else false

-- an action and the observation that follows it
pub record HistoryInteraction (P : Type 0) : Type 0 where
  pub action_index : ℕ
  pub observation_index : ℕ
  pub action : ParsedAction P
  pub observation : ParsedObservation

module _ {P : Type 0} (json_object : Text → Option P) where
  abbrev interaction_at :
      ℕ → Option (ParsedAction P) → Option ParsedObservation → List (HistoryInteraction P)
  interaction_at i none o = []
  interaction_at i (some a) none = []
  interaction_at i (some a) (some o) =
      if text_eq o.tool_name a.tool_name
      then record { action_index = i; observation_index = i + 1; action = a; observation = o } ∷ []
      else []

  -- the loop of `iter_interactions` over the messages from `index` on
  unfoldable pub interactions_from : ℕ → List LlmMessage → List (HistoryInteraction P)
  unfolding parse_action parse_observation
  interactions_from index [] = []
  interactions_from index (m ∷ []) = []
  interactions_from index (m ∷ n ∷ ms) =
      interaction_at index (parse_action json_object m) (parse_observation n)
      ++ interactions_from (index + 1) (n ∷ ms)
