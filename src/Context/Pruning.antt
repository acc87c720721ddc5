-- ===== src/Context/Pruning.antt =====
-- context/tool_pruning.py: `DeterministicToolPruner` (its markers are in Context.Markers). The counters
-- of tokens and the parser of JSON are parameters.
pub mod Sound
pub mod Order
pub mod Steps
pub mod Kept
pub mod Protected
mod Examples
use forge_agent.Base.{
  ℕ, zero, suc, ◌+◌, ◌-◌, ◌*◌, String, Bool, true, false, not, ◌&&◌, ◌||◌, Option, none, some, List,
  [], ◌∷◌, ◌++◌, map, str_eq, ◌==◌, leb, ltb, if◌then◌else◌, length, get_elem?, drop, take, select,
  any, all, Text, codes, text_eq, starts_with, rstrip, strip, split_lines, digits,
}
use mathlib.Core.List.{reverse}
use forge_agent.Context.History.{Message, units_from, HistoryUnit}
use forge_agent.Context.Markers.{
  copy_message, file_read_marker, shell_marker, test_marker, duplicate_marker,
}
use forge_agent.Context.Evidence.{
  LlmMessage, ParsedAction, ParsedObservation, parse_action, parse_observation,
}

-- `if message.event_ref`: None and the empty text are false
abbrev pub has_ref : Option String → Bool
has_ref none = false
has_ref (some r) = not (str_eq r "")

-- the dictionary of a message
abbrev pub message_dict : LlmMessage → Message ℕ
message_dict m = record {
  role = m.role;
  content = m.content;
  tool_call_id = if has_ref m.tool_call_id then m.tool_call_id else none;
}

abbrev one_of : List String → Text → Bool
one_of names t = any (λ n. text_eq (codes n) t) names

abbrev pub search_tools : List String
search_tools = "search_text" ∷ "find_files" ∷ "find_symbol" ∷ []

-- what a search is a duplicate by: the call, the tool and the result
pub record DuplicateKey : Type 0 where
  pub call : Text
  pub tool : Text
  pub result : Text

abbrev same_key : DuplicateKey → DuplicateKey → Bool
same_key k l = text_eq k.call l.call && (text_eq k.tool l.tool && text_eq k.result l.result)

pub lookup_key : DuplicateKey → List (DuplicateKey × String) → Option String
lookup_key k [] = none
lookup_key k ((l, r) ∷ d) = if same_key l k then some r else lookup_key k d

-- the variables of the loop; the newest replacement is at the head
pub record Pruning : Type 0 where
  pub latest : List (DuplicateKey × String)
  pub replacements : List (ℕ × LlmMessage)

-- a successful call with its result, as the loop takes it from a unit
pub record Pair : Type 0 where
  pub index : ℕ
  pub call : LlmMessage
  pub result : LlmMessage
  pub parsed : ParsedObservation

module _ {P : Type 0} (json_object : Text → Option P) where
  abbrev paired :
      ℕ → LlmMessage → LlmMessage → Option (ParsedAction P) → Option ParsedObservation → Option Pair
  paired j a o none q = none
  paired j a o (some p) none = none
  paired j a o (some p) (some q) =
      if q.is_success && text_eq p.tool_name q.tool_name
      then some (record { index = j; call = a; result = o; parsed = q })
      else none

  -- the messages of a unit, if the loop does not pass it over
  pub pair_of : List LlmMessage → HistoryUnit → Option Pair
  pair_of ms (i ∷ j ∷ []) = elim (get_elem? ms i) [
    | none ↦ none
    | some a ↦ elim (get_elem? ms j) [
      | none ↦ none
      | some o ↦ paired j a o (parse_action json_object a) (parse_observation o)
    ]
  ]
  pair_of ms _ = none

module _ (count_text : Text → ℕ) (min_output_tokens : ℕ) where
  -- _prune_large_success
  pub prune_large_success : LlmMessage → ParsedObservation → Option LlmMessage
  unfolding file_read_marker shell_marker test_marker
  prune_large_success m o =
      let n = count_text o.body in
      if ltb n min_output_tokens
      then none
      else if one_of ("file_read" ∷ []) o.tool_name
      then some (copy_message m (file_read_marker m o n))
      else if one_of ("shell" ∷ []) o.tool_name
      then some (copy_message m (shell_marker m o n))
      else if one_of ("test" ∷ "pytest" ∷ []) o.tool_name
      then some (copy_message m (test_marker m o n))
      else none

  abbrev put_replacement : ℕ → Option LlmMessage → Pruning → Pruning
  put_replacement i none s = s
  put_replacement i (some m) s = record s { replacements = (i, m) ∷ s.replacements }

  -- the end of the body, for a result that is no older copy of a search
  pub prune_large : ℕ → Pair → Pruning → Pruning
  unfolding prune_large_success
  prune_large protected p s =
      if leb protected p.index || not (has_ref p.result.event_ref)
      then s
      else put_replacement p.index (prune_large_success p.result p.parsed) s

  abbrev key_of : Pair → DuplicateKey
  key_of p = record { call = p.call.content; tool = p.parsed.tool_name; result = p.result.content }

  -- a search: its newest copy is noted, an older one outside the protected part points to it
  pub prune_search : ℕ → Pair → String → Option String → Pruning → Pruning
  unfolding prune_large duplicate_marker
  prune_search protected p ref none s =
      prune_large protected p (record s { latest = (key_of p, ref) ∷ s.latest })
  prune_search protected p ref (some newer) s =
      if ltb p.index protected
      then record s {
        replacements =
            (p.index, copy_message p.result (duplicate_marker p.parsed.tool_name newer))
            ∷ s.replacements;
      }
      else prune_large protected p s

  abbrev prune_by_ref : ℕ → Pair → Option String → Pruning → Pruning
  prune_by_ref protected p none s = prune_large protected p s
  prune_by_ref protected p (some ref) s =
      if one_of search_tools p.parsed.tool_name && not (str_eq ref "")
      then prune_search protected p ref (lookup_key (key_of p) s.latest) s
      else prune_large protected p s

  pub prune_pair : ℕ → Option Pair → Pruning → Pruning
  unfolding prune_search prune_large lookup_key
  prune_pair protected none s = s
  prune_pair protected (some p) s = prune_by_ref protected p p.result.event_ref s

-- working[index] = replacement, for the newest replacement of an index
pub replacement_at : ℕ → List (ℕ × LlmMessage) → Option LlmMessage
replacement_at i [] = none
replacement_at i ((j, m) ∷ rs) = if j == i then some m else replacement_at i rs

abbrev or_message : LlmMessage → Option LlmMessage → LlmMessage
or_message m none = m
or_message m (some r) = r

-- the messages from `index` on, with their replacements
pub replaced_from : ℕ → List (ℕ × LlmMessage) → List LlmMessage → List LlmMessage
unfolding replacement_at
replaced_from index rs [] = []
replaced_from index rs (m ∷ ms) =
    or_message m (replacement_at index rs) ∷ replaced_from (index + 1) rs ms

-- the event references of the replaced messages from `index` on, in order
pub refs_from : ℕ → List (ℕ × LlmMessage) → List LlmMessage → List String
unfolding replacement_at
refs_from index rs [] = []
refs_from index rs (m ∷ ms) =
    let rest = refs_from (index + 1) rs ms in
    elim (replacement_at index rs) [
      | none ↦ rest
      | some r ↦ elim m.event_ref [ none ↦ rest | some e ↦ e ∷ rest ]
    ]

-- len(replacements)
pub count_from : ℕ → List (ℕ × LlmMessage) → List LlmMessage → ℕ
unfolding replacement_at
count_from index rs [] = 0
count_from index rs (m ∷ ms) =
    let rest = count_from (index + 1) rs ms in
    elim (replacement_at index rs) [ none ↦ rest | some r ↦ rest + 1 ]

pub record PruningResult : Type 0 where
  pub messages : List LlmMessage
  pub pruned_event_ids : List String
  pub before_tokens : ℕ
  pub after_tokens : ℕ
  pub pruned_units : ℕ

module _ {P : Type 0} (json_object : Text → Option P) (count_text : Text → ℕ)
    (count_messages : List (Message ℕ) → ℕ) (min_output_tokens : ℕ) where
  -- the loop over the units, the newest first
  pub prune_units : ℕ → List LlmMessage → List HistoryUnit → Pruning → Pruning
  unfolding prune_pair pair_of
  prune_units protected ms [] s = s
  prune_units protected ms (u ∷ us) s =
      prune_units protected ms us
        (prune_pair count_text min_output_tokens protected (pair_of json_object ms u) s)

  abbrev history_units : List LlmMessage → List HistoryUnit
  history_units ms = units_from 1 (drop 1 (map message_dict ms))

  abbrev pub replacements_of : List LlmMessage → ℕ → List (ℕ × LlmMessage)
  replacements_of ms protected =
      (prune_units protected ms (reverse (history_units ms))
        (record { latest = []; replacements = [] })).replacements

  unfoldable pub prune : List LlmMessage → ℕ → PruningResult
  unfolding prune_units replaced_from refs_from count_from
  prune ms protected =
      let rs = replacements_of ms protected in
      record {
        messages = replaced_from 0 rs ms;
        pruned_event_ids = refs_from 0 rs ms;
        before_tokens = count_messages (map message_dict ms);
        after_tokens = count_messages (map message_dict (replaced_from 0 rs ms));
        pruned_units = count_from 0 rs ms;
      }
