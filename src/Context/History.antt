-- ===== src/Context/History.antt =====
-- context/token_budget.py: messages, `history_units`, `recent_history_units` and the history that
-- `_build_trimmed_history` makes. The counter of a message is a function of it; `text_of` gives the
-- characters of a text.
pub mod Units
use forge_agent.Base.{
  ℕ, zero, suc, ◌+◌, ◌-◌, ◌*◌, max, String, Bool, true, false, not, ◌&&◌, ◌||◌, Option, none, some,
  List, [], ◌∷◌, ◌++◌, map, str_eq, leb, ltb, ◌==◌, if◌then◌else◌, length, get_elem?, take, select,
  concat, digits, drop,
}
use mathlib.Core.List.{reverse}
use forge_agent.Context.Trim.{search, trim_prefix}

pub record Message (A : Type 0) : Type 0 where
  pub role : String
  pub content : List A
  pub tool_call_id : Option String

-- HistoryUnit: the indices of one message, or of an answer with what follows it
abbrev pub HistoryUnit : Type 0
HistoryUnit = List ℕ

abbrev pub sum : List ℕ → ℕ
sum [] = 0
sum (n ∷ ns) = n + sum ns

abbrev pub is_reply : String → Bool
is_reply role = str_eq role "user" || str_eq role "tool"

-- The loop of `history_units` over the messages from `index` on.
unfoldable pub units_from : {A : Type 0} → ℕ → List (Message A) → List HistoryUnit
units_from index [] = []
units_from index (m ∷ []) = (index ∷ []) ∷ []
units_from index (m ∷ n ∷ ms) =
    let paired = units_from (index + 2) ms in
    let alone = units_from (index + 1) (n ∷ ms) in
    if str_eq m.role "assistant" && is_reply n.role
    then (index ∷ (index + 1) ∷ []) ∷ paired
    else (index ∷ []) ∷ alone

module _ {A : Type 0} (count_message : Message A → ℕ) (text_of : String → List A) where
  unfoldable pub count_messages : List (Message A) → ℕ
  count_messages ms = sum (map count_message ms)

  abbrev pub plural : ℕ → String
  plural n = if n == 1 then "message" else "messages"

  -- _history_notice
  unfoldable pub history_notice : ℕ → Message A
  history_notice dropped = record {
    role = "user";
    content = text_of (
        concat (
          "["
          ∷ digits dropped
          ∷ " "
          ∷ plural dropped
          ∷ " omitted here to fit context window]"
          ∷ []));
    tool_call_id = none;
  }

  abbrev pub cost_at : List (Message A) → ℕ → ℕ
  cost_at ms i = elim (get_elem? ms i) [ none ↦ 0 | some m ↦ count_message m ]

  -- history_unit_tokens
  unfoldable pub unit_tokens : List (Message A) → HistoryUnit → ℕ
  unit_tokens ms u = sum (map (cost_at ms) u)

  abbrev pub recent_loop : List (Message A) → ℕ → ℕ → Bool → List HistoryUnit → List HistoryUnit
  recent_loop ms limit used selected [] = []
  recent_loop ms limit used selected (u ∷ us) =
      let cost = unit_tokens ms u in
      let more = recent_loop ms limit (used + cost) true us in
      if selected && ltb limit (used + cost)
      then []
      else u ∷ (if leb limit (used + cost) then [] else more)

  -- recent_history_units: the newest units within the limit, one at least
  unfoldable pub recent_history_units : List (Message A) → ℕ → List HistoryUnit
  unfolding units_from unit_tokens
  recent_history_units ms limit =
      if limit == 0
      then []
      else reverse (recent_loop ms limit 0 false (reverse (units_from 1 (drop 1 ms))))

  abbrev pub notice_cost : ℕ → ℕ
  notice_cost zero = 0
  notice_cost (suc n) = count_message (history_notice (suc n))

  abbrev pub notice_for : ℕ → List (Message A)
  notice_for zero = []
  notice_for (suc n) = history_notice (suc n) ∷ []

  abbrev pub message_at : List (Message A) → ℕ → List (Message A)
  message_at ms i = elim (get_elem? ms i) [ none ↦ [] | some m ↦ m ∷ [] ]

  -- the loop of `_build_trimmed_history`, from `cursor` on
  unfoldable pub build_from : List (Message A) → ℕ → List ℕ → List (Message A)
  build_from ms cursor [] = notice_for (length ms - cursor)
  build_from ms cursor (i ∷ is) =
      notice_for (i - cursor) ++ (message_at ms i ++ build_from ms (i + 1) is)
