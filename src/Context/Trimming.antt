-- ===== src/Context/Trimming.antt =====
-- context/token_budget.py: `trim_history` and `_trim_first_message`.
pub mod Bound
mod Examples
use forge_agent.Base.{
  ℕ, zero, suc, ◌+◌, ◌-◌, ◌*◌, max, String, Bool, true, false, not, ◌&&◌, ◌||◌, Option, none, some,
  List, [], ◌∷◌, ◌++◌, map, str_eq, leb, ltb, ◌==◌, if◌then◌else◌, length, get_elem?, take, select,
  concat, digits, drop,
}
use mathlib.Core.List.{reverse}
use forge_agent.Context.Trim.{search, trim_prefix}
use forge_agent.Context.History.{
  HistoryUnit, Message, build_from, cost_at, count_messages, history_notice, is_reply, message_at,
  notice_cost, notice_for, plural, recent_history_units, recent_loop, sum, unit_tokens, units_from,
}
use forge_agent.Context.Selection.{
  State, best_of, better, extend_all, extended, final_cost, gaps, has_gap, insert_by_used,
  keep_better, preferred, prune_gaps, prune_states, select_units_dp, selected_of, sort_by_used,
  states_after, store_state,
}

module _ {A : Type 0} (count_message : Message A → ℕ) (text_of : String → List A) where
  module _ (count_text : List A → ℕ) (suffix : List A) where
    abbrev pub with_content : Message A → List A → Message A
    with_content m c = record m { content = c }

    -- the loop that drops the last character while the message is too long, `n` characters are left
    pub shorten_message : ℕ → Message A → ℕ → Message A
    shorten_message zero m limit = m
    shorten_message (suc n) m limit =
        let rest = shorten_message n (with_content m (take n m.content)) limit in
        if leb (count_message m) limit then m else rest

    abbrev cut_content : Message A → ℕ → ℕ → List A
    cut_content first limit zero = trim_prefix count_text suffix first.content (max 1 (limit - 5))
    cut_content first limit (suc n) = take (suc n) first.content ++ suffix

    within : ℕ → Message A → Option (Message A)
    within limit m = if leb (count_message m) limit then some m else none

    -- _trim_first_message
    pub trim_first_message : Message A → ℕ → Option (Message A)
    unfolding shorten_message within
    trim_first_message first limit =
        let low =
          search
            (λ k. leb (count_message (with_content first (take k first.content ++ suffix))) limit)
            (length first.content) 0 (length first.content) in
        let cut = cut_content first limit low in
        if leb (count_message (with_content first [])) limit
        then within limit (shorten_message (length cut) (with_content first cut) limit)
        else none

    abbrev pub one_or_none : Option (Message A) → List (Message A)
    one_or_none none = []
    one_or_none (some m) = m ∷ []

    -- the history once it is known to be too long
    trimmed : Message A → List (Message A) → ℕ → List (Message A)
    unfolding count_messages trim_first_message select_units_dp units_from build_from
    trimmed first rest limit =
        let ms = first ∷ rest in
        let result =
          first
          ∷ build_from count_message text_of ms 1
              (select_units_dp count_message text_of ms (units_from 1 rest) limit first) in
        if ltb limit (count_message first)
        then one_or_none (trim_first_message first limit)
        else if leb (count_messages count_message text_of result) limit
        then result
        else first ∷ []

    pub trim_history : List (Message A) → ℕ → List (Message A)
    unfolding count_messages trimmed
    trim_history [] limit = []
    trim_history (m ∷ ms) limit =
        if limit == 0
        then []
        else if leb (count_messages count_message text_of (m ∷ ms)) limit
        then m ∷ ms
        else trimmed m ms limit
