-- ===== src/Context/Selection.antt =====
-- context/token_budget.py: `_select_units_dp`, the search for the units of a history that are kept.
pub mod States
pub mod Costs
pub mod Search
use forge_agent.Base.{
  ℕ, zero, suc, ◌+◌, ◌-◌, ◌*◌, max, String, Bool, true, false, not, ◌&&◌, ◌||◌, Option, none, some,
  List, [], ◌∷◌, ◌++◌, map, str_eq, leb, ltb, ◌==◌, if◌then◌else◌, length, get_elem?, take, select,
  concat, digits, drop,
}
use mathlib.Core.List.{reverse}
use forge_agent.Context.Trim.{search, trim_prefix}
use forge_agent.Context.History.{
  HistoryUnit, Message, build_from, cost_at, count_messages, history_notice, is_reply, message_at,
  notice_cost, notice_for, plural, recent_history_units, recent_loop, sum, unit_tokens, units_from,
}

-- a state of the search: (used, gap) and (utility, selected)
pub record State : Type 0 where
  pub used : ℕ
  pub gap : ℕ
  pub utility : ℕ
  pub selected : List ℕ

-- _store_state: a dictionary keeps the place of a key whose value is replaced
unfoldable pub store_state : State → List State → List State
store_state s [] = s ∷ []
store_state s (t ∷ ts) =
    let rest = store_state s ts in
    if t.used == s.used && t.gap == s.gap
    then (if ltb t.utility s.utility then s ∷ ts else t ∷ ts)
    else t ∷ rest

-- sorted(candidates): the keys (used, gap) differ, so the order is that of `used`
abbrev pub insert_by_used : State → List State → List State
insert_by_used s [] = s ∷ []
insert_by_used s (t ∷ ts) =
    let rest = insert_by_used s ts in if leb s.used t.used then s ∷ t ∷ ts else t ∷ rest

abbrev pub sort_by_used : List State → List State
sort_by_used [] = []
sort_by_used (s ∷ ss) = insert_by_used s (sort_by_used ss)

abbrev pub better : Option ℕ → ℕ → Bool
better none u = true
better (some best) u = ltb best u

abbrev pub keep_better : Option ℕ → List State → List State
keep_better best [] = []
keep_better best (s ∷ ss) =
    let kept = s ∷ keep_better (some s.utility) ss in
    let rest = keep_better best ss in if better best s.utility then kept else rest

abbrev pub has_gap : ℕ → List ℕ → Bool
has_gap g [] = false
has_gap g (h ∷ hs) = if h == g then true else has_gap g hs

-- the keys of `by_gap`, in the order in which they come
abbrev pub gaps : List ℕ → List State → List ℕ
gaps seen [] = seen
gaps seen (s ∷ ss) = gaps (if has_gap s.gap seen then seen else seen ++ s.gap ∷ []) ss

abbrev pub prune_gaps : List ℕ → List State → List State
prune_gaps [] ss = []
prune_gaps (g ∷ gs) ss =
    keep_better none (sort_by_used (select (λ s. s.gap == g) ss)) ++ prune_gaps gs ss

pub prune_states : List State → List State
prune_states ss = prune_gaps (gaps [] ss) ss

module _ {A : Type 0} (count_message : Message A → ℕ) (text_of : String → List A) where
  -- the two states that a state gives with one more unit: the unit dropped, and the unit kept
  pub extended : List (Message A) → ℕ → HistoryUnit → State → List State → List State
  extended ms limit u s next =
      let cost =
        s.used + notice_cost count_message text_of s.gap + unit_tokens count_message text_of ms u in
      let dropped = store_state (record s { gap = s.gap + length u }) next in
      if leb cost limit
      then store_state
          (record {
            used = cost;
            gap = 0;
            utility = s.utility + (length u * 10000 + sum u);
            selected = s.selected ++ u;
          })
          dropped
      else dropped

  pub extend_all : List (Message A) → ℕ → HistoryUnit → List State → List State → List State
  unfolding extended
  extend_all ms limit u [] next = next
  extend_all ms limit u (s ∷ ss) next = extend_all ms limit u ss (extended ms limit u s next)

  pub states_after : List (Message A) → ℕ → List HistoryUnit → List State → List State
  unfolding extend_all prune_states
  states_after ms limit [] ss = ss
  states_after ms limit (u ∷ us) ss =
      states_after ms limit us (prune_states (extend_all ms limit u ss []))

  abbrev pub final_cost : State → ℕ
  final_cost s = s.used + notice_cost count_message text_of s.gap

  -- (utility, -final_cost) is larger
  abbrev pub preferred : State → Option State → Bool
  preferred s none = true
  preferred s (some t) =
      ltb t.utility s.utility || (t.utility == s.utility && ltb (final_cost s) (final_cost t))

  pub best_of : ℕ → Option State → List State → Option State
  best_of limit best [] = best
  best_of limit best (s ∷ ss) =
      best_of limit (if leb (final_cost s) limit && preferred s best then some s else best) ss

  abbrev pub selected_of : Option State → List ℕ
  selected_of none = []
  selected_of (some s) = s.selected

  -- _select_units_dp; the indices are in increasing order
  unfoldable pub select_units_dp : List (Message A) → List HistoryUnit → ℕ → Message A → List ℕ
  unfolding states_after best_of
  select_units_dp ms us limit first =
      let start : State = record {
        used = count_message first;
        gap = 0;
        utility = 0;
        selected = [];
      } in
      selected_of (best_of limit none (states_after ms limit us (start ∷ [])))
