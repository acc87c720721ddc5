-- ===== src/Context/Compaction/Examples.antt =====
-- A conversation that is compacted, and uses of the theorems on it.
use forge_agent.Base.{
  true, false, take, drop, ◌≡◌, ◌⊎◌, refl, Option, none, some, List, [], ◌∷◌, ◌++◌, map, String,
  length, Text, codes,
}
use forge_agent.Llm.Usage.{unused}
use forge_agent.Context.History.{units_from, count_messages, recent_history_units}
use forge_agent.Context.Evidence.{LlmMessage, parse_action, parse_observation}
use forge_agent.Context.Pruning.{prune}
use forge_agent.Context.Compaction.{
  reuse_active_view, Compaction, CompactionConfig, Summary, Turn, restore_checkpoint_lineage,
  summary_message,
}
use forge_agent.Context.Compaction.Call.{call}
use forge_agent.Context.Compaction.Chain.{Extends, call-Extends}
use forge_agent.Context.Compaction.Views.{FromHistory, FromView}
use forge_agent.Context.Compaction.Tail.{call-Shows}

abbrev message : String → Text → Option String → LlmMessage
message role content ref = record {
  role = role;
  content = content;
  tool_call_id = none;
  event_ref = ref;
}

abbrev history : List LlmMessage
history =
    message "user" (codes "fix it") none
    ∷ message "assistant" (codes "think") (some "e1")
    ∷ message "user" (codes "go on") (some "e2")
    ∷ message "assistant" (codes "done") (some "e3")
    ∷ []

abbrev config : CompactionConfig
config = record {
  threshold = 90;
  target_ratio = 50;
  keep_recent_tokens = 1;
  max_summary_chars = 100;
  min_output_tokens = 200;
}

abbrev summary : Summary
summary = record {
  has_fields = true;
  rendered = codes "goal";
  usage = record {
    input_tokens = 3;
    cached_tokens = 0;
    cache_write_tokens = 0;
    output_tokens = 1;
    reasoning_tokens = 0;
    estimated = false;
  };
  packet_truncated = false;
  error = none;
}

abbrev turn : Turn
turn = record {
  history = history;
  task_description = codes "task";
  fixed_tokens = 0;
  available_input = 4;
  history_budget = 10;
  count_message = λ m. 1;
  estimate_text = length;
  estimate_message = λ m. 1;
  digest = λ text. "digest";
  json_object = λ text. none;
  summarizer = some (λ dropped recent. summary);
  checkpoint_id = "c2";
  now = "now";
  repo_revision = "r";
}

abbrev restored : Compaction
restored = restore_checkpoint_lineage (some "c1") (record {
  entries = [];
  checkpoints = [];
  lineage_checkpoint_id = none;
  active_view = none;
  pending_usage = unused;
})

abbrev new_checkpoints : List (String × Option String)
new_checkpoints =
    map (λ c. (c.checkpoint_id, c.previous_checkpoint_id))
      (call config turn restored).compaction.checkpoints

one_checkpoint : new_checkpoints ≡ ("c2", some "c1") ∷ []
unfolding call prune units_from parse_action parse_observation restore_checkpoint_lineage
    reuse_active_view count_messages recent_history_units
one_checkpoint = refl

abbrev view : List LlmMessage
view = take 1 history ++ (summary_message (codes "goal") ∷ drop 3 history)

gives_view : (call config turn restored).history_override ≡ some view
unfolding call prune units_from parse_action parse_observation restore_checkpoint_lineage
    reuse_active_view count_messages recent_history_units
gives_view = refl

call-Extends_example : Extends restored (call config turn restored)
call-Extends_example = call-Extends config turn restored

call-Shows_example : FromHistory config turn view ⊎ FromView config turn restored view
call-Shows_example = call-Shows config turn restored view gives_view
