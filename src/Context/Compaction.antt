-- ===== src/Context/Compaction.antt =====
-- context/compaction.py: `TraceableCompaction`. The counters, the summariser with the text that is
-- rendered of its answer, identifiers, times and digests are parameters of a turn; the threshold is in
-- hundredths, and a ratio is compared without division.
pub mod Call
pub mod Chain
pub mod Views
pub mod Tail
mod Examples
use forge_agent.Base.{
  ℕ, zero, suc, ◌+◌, ◌-◌, ◌*◌, ◌/◌, min, String, Bool, true, false, not, ◌&&◌, ◌||◌, Option, none,
  some, List, [], ◌∷◌, ◌++◌, map, str_eq, ◌==◌, leb, ltb, if◌then◌else◌, length, get_elem?, drop,
  take, Text, codes, text_eq, is_space,
}
use forge_agent.Llm.Usage.{TokenUsage, SessionUsage, unused, recorded}
use forge_agent.Context.History.{
  Message, HistoryUnit, count_messages, unit_tokens, recent_history_units, sum,
}
use forge_agent.Context.Evidence.{LlmMessage}
use forge_agent.Context.Conversation.{to_dict, counted_dict}
use forge_agent.Context.Pruning.{prune, PruningResult, has_ref, message_dict}

pub record CompactionEntry : Type 0 where
  pub checkpoint_id : String
  pub created_at : String
  pub summary_method : String
  pub summary_hash : String
  pub summary_text : Text
  pub source_event_ids : List String
  pub previous_checkpoint_id : Option String
  pub keep_recent_tokens : ℕ
  pub retained_tail_tokens : ℕ

pub record ActiveCompactedView : Type 0 where
  pub summary_text : Text
  pub source_end_index : ℕ
  pub source_prefix_hash : String
  pub checkpoint_id : String
  pub task_description : Text

-- what request_pressure gives: the projected and the available tokens
pub record Pressure : Type 0 where
  pub projected_input : ℕ
  pub available_input : ℕ

pub record CompactionCheckpoint : Type 0 where
  pub checkpoint_id : String
  pub created_at : String
  pub source_event_ids : List String
  pub before_tokens : ℕ
  pub after_tokens : ℕ
  pub repo_revision : String
  pub summary_method : String
  pub summary_hash : String
  pub retained_tail : ℕ
  pub keep_recent_tokens : ℕ
  pub retained_tail_tokens : ℕ
  pub previous_checkpoint_id : Option String
  pub pressure : Pressure
  pub projected_after_tokens : ℕ
  pub pruning_method : Option String
  pub pruned_event_ids : List String
  pub pruned_before_tokens : ℕ
  pub pruned_after_tokens : ℕ
  pub pruned_units : ℕ
  pub summary_usage : Option TokenUsage
  pub semantic_packet_truncated : Bool
  pub semantic_error : Option String

-- the object; its checkpoints and entries are the newest first
pub record Compaction : Type 0 where
  pub entries : List CompactionEntry
  pub checkpoints : List CompactionCheckpoint
  pub lineage_checkpoint_id : Option String
  pub active_view : Option ActiveCompactedView
  pub pending_usage : SessionUsage

pub record CompactionConfig : Type 0 where
  pub threshold : ℕ
  pub target_ratio : ℕ
  pub keep_recent_tokens : ℕ
  pub max_summary_chars : ℕ
  pub min_output_tokens : ℕ

-- the answer of the summariser; `rendered` is the text of the structured state with its fields
pub record Summary : Type 0 where
  pub has_fields : Bool
  pub rendered : Text
  pub usage : TokenUsage
  pub packet_truncated : Bool
  pub error : Option String

-- The context of a turn, and what the outside answers in it. A summariser is given the messages that
-- are dropped and the recent ones.
pub record Turn : Type 0 where
  pub history : List LlmMessage
  pub task_description : Text
  pub fixed_tokens : ℕ
  pub available_input : ℕ
  pub history_budget : ℕ
  pub count_message : Message ℕ → ℕ
  pub estimate_text : Text → ℕ
  pub estimate_message : Message ℕ → ℕ
  pub digest : Text → String
  pub json_object : Text → Option ℕ
  pub summarizer : Option (List LlmMessage → List LlmMessage → Summary)
  pub checkpoint_id : String
  pub now : String
  pub repo_revision : String

-- the trace events of a turn
pub data CompactionEvent : Type 0 where
  compaction_started : Pressure → CompactionEvent
  compaction_failed : Option String → CompactionEvent
  context_compacted : CompactionCheckpoint → CompactionEvent

-- the object after a call, its events, and the view that is given to the model, if any
pub record Prepared : Type 0 where
  pub compaction : Compaction
  pub events : List CompactionEvent
  pub history_override : Option (List LlmMessage)

-- restore_checkpoint_lineage; reset_checkpoint_lineage is the case of None
pub restore_checkpoint_lineage : Option String → Compaction → Compaction
restore_checkpoint_lineage checkpoint_id s = record {
  entries = [];
  checkpoints = [];
  lineage_checkpoint_id = checkpoint_id;
  active_view = none;
  pending_usage = unused;
}

-- consume_usage
pub consume_usage : Compaction → Compaction × SessionUsage
consume_usage s = (record s { pending_usage = unused }, s.pending_usage)

-- ratio < threshold; with nothing available the ratio is 1, which no threshold exceeds
abbrev pub below : ℕ → Pressure → Bool
below threshold p =
    ltb 0 p.available_input && ltb (p.projected_input * 100) (threshold * p.available_input)

-- _message_dicts
abbrev pub dicts : List LlmMessage → List (Message ℕ)
dicts ms = map message_dict ms

-- context.history.to_dicts()
abbrev pub raw : Turn → List (Message ℕ)
raw t = map (λ m. counted_dict (to_dict m)) t.history

abbrev pub count : Turn → List (Message ℕ) → ℕ
count t ds = count_messages t.count_message codes ds

abbrev pub pressure_of : Turn → List (Message ℕ) → Pressure
pressure_of t ds = record {
  projected_input = t.fixed_tokens + count t ds;
  available_input = t.available_input;
}

-- _summary_message
unfoldable pub summary_message : Text → LlmMessage
summary_message summary = record {
  role = "user";
  content =
      codes "[Compacted earlier context; full tool results remain in EventLog]" ++ (10 ∷ summary);
  tool_call_id = none;
  event_ref = none;
}

abbrev ref_or_empty : Option String → Text
ref_or_empty none = []
ref_or_empty (some r) = codes r

-- what _prefix_hash puts into the digest for the first messages
unfoldable pub prefix_text : List LlmMessage → Text
prefix_text [] = []
prefix_text (m ∷ ms) =
    codes m.role ++ (0 ∷ (m.content ++ (0 ∷ (ref_or_empty m.event_ref ++ (10 ∷ prefix_text ms)))))

-- _prefix_hash
unfoldable pub prefix_hash : Turn → List LlmMessage → ℕ → String
unfolding prefix_text
prefix_hash t ms end = t.digest (prefix_text (take end ms))

abbrev first_of : List LlmMessage → List LlmMessage
first_of ms = take 1 ms

abbrev pub compact_view : List LlmMessage → Text → ℕ → List LlmMessage
compact_view ms summary start = first_of ms ++ (summary_message summary ∷ drop start ms)

-- _active_messages: the view, or the object without a view that the history no longer fits
unfoldable pub active_messages : Turn → Compaction → Compaction × Option (List LlmMessage)
unfolding prefix_hash
active_messages t s = elim s.active_view [
  | none ↦ (s, none)
  | some v ↦
      if ltb (length t.history) v.source_end_index
      then (record s { active_view = none }, none)
      else if not (str_eq (prefix_hash t t.history v.source_end_index) v.source_prefix_hash)
      then (record s { active_view = none }, none)
      else (s, some (compact_view t.history v.summary_text v.source_end_index))
]

module _ (cfg : CompactionConfig) (t : Turn) where
  -- the first index of the recent units, if there is one
  abbrev first_index : List HistoryUnit → Option ℕ
  first_index [] = none
  first_index ([] ∷ us) = none
  first_index ((i ∷ is) ∷ us) = some i

  abbrev pub recent_units : List (Message ℕ) → List HistoryUnit
  recent_units ds = recent_history_units t.count_message codes ds cfg.keep_recent_tokens

  abbrev pub tail_start : List (Message ℕ) → Option ℕ
  tail_start ds = first_index (recent_units ds)

  abbrev pub pruned_of : List LlmMessage → ℕ → PruningResult
  pruned_of ms start =
      prune t.json_object t.estimate_text (λ ds. sum (map t.estimate_message ds))
        cfg.min_output_tokens ms start

  -- the messages of the view, pruned before their recent part
  abbrev pub reuse_at : List LlmMessage → Option ℕ → Option (List LlmMessage)
  reuse_at ms none = none
  reuse_at ms (some start) =
      if (pruned_of ms start).pruned_units == 0
      then none
      else if below cfg.threshold (pressure_of t (dicts (pruned_of ms start).messages))
      then some (pruned_of ms start).messages
      else none

  -- _reuse_active_view, from the messages of the view on
  unfoldable pub reuse_messages : List LlmMessage → Option (List LlmMessage)
  reuse_messages ms =
      if below cfg.threshold (pressure_of t (dicts ms))
      then some ms
      else reuse_at ms (tail_start (dicts ms))

  abbrev pub reuse_from :
      Compaction × Option (List LlmMessage) → Compaction × Option (List LlmMessage)
  reuse_from (s, none) = (s, none)
  reuse_from (s, some ms) = (s, reuse_messages ms)

  abbrev pub other_task : Option ActiveCompactedView → Bool
  other_task none = false
  other_task (some v) = not (text_eq v.task_description t.task_description)

  -- _reuse_active_view
  unfoldable pub reuse_active_view : Compaction → Compaction × Option (List LlmMessage)
  unfolding reuse_messages active_messages
  reuse_active_view s =
      if other_task s.active_view
      then (record s { active_view = none }, none)
      else reuse_from (active_messages t s)
