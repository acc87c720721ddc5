-- ===== src/Context/Compaction/Call.antt =====
-- context/compaction.py: `TraceableCompaction.__call__`, a function for each part of it.
use forge_agent.Base.{
  ℕ, zero, suc, ◌+◌, ◌-◌, ◌*◌, ◌/◌, min, String, Bool, false, not, ◌&&◌, Option, none, some, List,
  [], ◌∷◌, ◌++◌, map, ◌==◌, leb, if◌then◌else◌, length, drop, take, Text, codes, is_space,
  drop_while, take_while,
}
use forge_agent.Llm.Usage.{TokenUsage, recorded}
use forge_agent.Context.History.{unit_tokens, sum}
use forge_agent.Context.Evidence.{LlmMessage}
use forge_agent.Context.Pruning.{PruningResult}
use forge_agent.Context.Compaction.{
  raw, dicts, CompactionEntry, CompactionCheckpoint, Compaction, CompactionConfig, Summary, Turn,
  CompactionEvent, compaction_started, compaction_failed, context_compacted, Prepared, below, count,
  pressure_of, prefix_hash, compact_view, active_messages, recent_units, tail_start, pruned_of,
  reuse_active_view,
}

-- " ".join(text.split()), with at most `n` words
abbrev words_joined : ℕ → Text → Text
words_joined zero s = []
words_joined (suc n) s =
    let rest = drop_while is_space s in
    let word = take_while (λ c. not (is_space c)) rest in
    let after = drop_while is_space (drop (length word) rest) in
    if leb (length after) 0 then word else word ++ (b' ' ∷ words_joined n after)

abbrev summary_lines : List LlmMessage → Text
summary_lines [] = []
summary_lines (m ∷ []) =
    codes "- " ++ (codes m.role ++ (codes ": " ++ words_joined (length m.content + 1) m.content))
summary_lines (m ∷ n ∷ ms) =
    codes "- "
    ++ (codes m.role
        ++ (codes ": "
            ++ (words_joined (length m.content + 1) m.content ++ (10 ∷ summary_lines (n ∷ ms)))))

-- _extractive_summary
unfoldable pub extractive_summary : List LlmMessage → ℕ → Text
extractive_summary ms limit = take limit (summary_lines ms)

-- the event references of messages
unfoldable pub source_ids : List LlmMessage → List String
source_ids [] = []
source_ids (m ∷ ms) =
    let rest = source_ids ms in elim m.event_ref [ none ↦ rest | some r ↦ r ∷ rest ]

-- message[start:end] for a positive start
abbrev slice : ℕ → ℕ → List LlmMessage → List LlmMessage
slice start end ms = drop start (take end ms)

abbrev pub unchanged : Compaction → Prepared
unchanged s = record { compaction = s; events = []; history_override = none }

-- _record_checkpoint
unfoldable pub record_checkpoint : CompactionCheckpoint → Compaction → Compaction
record_checkpoint c s = record s {
  checkpoints = c ∷ s.checkpoints;
  lineage_checkpoint_id = some c.checkpoint_id;
}

-- what the semantic part leaves: the method, the text, and what the checkpoint says of it
pub record SummaryDigest : Type 0 where
  pub method : String
  pub text : Text
  pub usage : Option TokenUsage
  pub truncated : Bool
  pub error : Option String

module _ (cfg : CompactionConfig) (t : Turn) where
  abbrev retained_tokens : ℕ
  retained_tokens =
      sum (map (unit_tokens t.count_message codes (raw t)) (recent_units cfg t (raw t)))

  -- _make_checkpoint, for a view that is only pruned
  unfoldable pub make_checkpoint : ℕ → PruningResult → Compaction → CompactionCheckpoint
  make_checkpoint start pruning s = record {
    checkpoint_id = t.checkpoint_id;
    created_at = t.now;
    source_event_ids = pruning.pruned_event_ids;
    before_tokens = count t (raw t);
    after_tokens = count t (dicts pruning.messages);
    repo_revision = t.repo_revision;
    summary_method = "none";
    summary_hash = "";
    retained_tail = length t.history - start;
    keep_recent_tokens = cfg.keep_recent_tokens;
    retained_tail_tokens = retained_tokens;
    previous_checkpoint_id = s.lineage_checkpoint_id;
    pressure = pressure_of t (raw t);
    projected_after_tokens = (pressure_of t (dicts pruning.messages)).projected_input;
    pruning_method = some "deterministic-tool-pruning-v1";
    pruned_event_ids = pruning.pruned_event_ids;
    pruned_before_tokens = pruning.before_tokens;
    pruned_after_tokens = pruning.after_tokens;
    pruned_units = pruning.pruned_units;
    summary_usage = none;
    semantic_packet_truncated = false;
    semantic_error = none;
  }

  unfoldable pub with_pruned : ℕ → PruningResult → Compaction → Prepared
  unfolding make_checkpoint record_checkpoint
  with_pruned start pruning s =
      let c = make_checkpoint start pruning s in
      record {
        compaction = record_checkpoint c s;
        events = context_compacted c ∷ [];
        history_override = some pruning.messages;
      }

  abbrev method_of : Bool → String
  method_of fields = if fields then "structured-hybrid-v1" else "structured-fallback-v1"

  -- the summary, its entry and its checkpoint, and the new view
  unfoldable pub compacted :
      ℕ → PruningResult → SummaryDigest → List CompactionEvent → Compaction → Prepared
  unfolding record_checkpoint source_ids
  compacted start pruning d events s =
      let view = compact_view pruning.messages d.text start in
      let sources = source_ids (slice 1 start t.history) in
      let hash = t.digest d.text in
      let entry : CompactionEntry = record {
        checkpoint_id = t.checkpoint_id;
        created_at = t.now;
        summary_method = d.method;
        summary_hash = hash;
        summary_text = d.text;
        source_event_ids = sources;
        previous_checkpoint_id = s.lineage_checkpoint_id;
        keep_recent_tokens = cfg.keep_recent_tokens;
        retained_tail_tokens = retained_tokens;
      } in
      let c : CompactionCheckpoint = record {
        checkpoint_id = t.checkpoint_id;
        created_at = t.now;
        source_event_ids = sources;
        before_tokens = count t (raw t);
        after_tokens = count t (dicts view);
        repo_revision = t.repo_revision;
        summary_method = d.method;
        summary_hash = hash;
        retained_tail = length t.history - start;
        keep_recent_tokens = cfg.keep_recent_tokens;
        retained_tail_tokens = retained_tokens;
        previous_checkpoint_id = s.lineage_checkpoint_id;
        pressure = pressure_of t (raw t);
        projected_after_tokens = (pressure_of t (dicts view)).projected_input;
        pruning_method =
            if pruning.pruned_units == 0 then none else some "deterministic-tool-pruning-v1";
        pruned_event_ids = pruning.pruned_event_ids;
        pruned_before_tokens = pruning.before_tokens;
        pruned_after_tokens = pruning.after_tokens;
        pruned_units = pruning.pruned_units;
        summary_usage = d.usage;
        semantic_packet_truncated = d.truncated;
        semantic_error = d.error;
      } in
      record {
        compaction = record (record_checkpoint c s) {
          entries = entry ∷ s.entries;
          active_view = some (record {
            summary_text = d.text;
            source_end_index = start;
            source_prefix_hash = prefix_hash t t.history start;
            checkpoint_id = t.checkpoint_id;
            task_description = t.task_description;
          });
        };
        events = events ++ context_compacted c ∷ [];
        history_override = some view;
      }

  abbrev pub digest_of : Summary → SummaryDigest
  digest_of r = record {
    method = method_of r.has_fields;
    text = r.rendered;
    usage = some r.usage;
    truncated = r.packet_truncated;
    error = r.error;
  }

  -- a summary without fields: the view that is still good is kept, else the structured fallback
  unfoldable pub fell_back :
      ℕ
      → PruningResult
      → Summary
      → List CompactionEvent
      → Compaction × Option (List LlmMessage)
      → Prepared
  unfolding compacted
  fell_back start pruning r events (s, some view) = record {
    compaction = s;
    events = events;
    history_override = some view;
  }
  fell_back start pruning r events (s, none) = compacted start pruning (digest_of r) events s

  unfoldable pub summarised : ℕ → PruningResult → Summary → Compaction → Prepared
  unfolding compacted fell_back
  summarised start pruning r s =
      let started = compaction_started (pressure_of t (dicts pruning.messages)) in
      let charged = record s { pending_usage = recorded s.pending_usage r.usage } in
      if r.has_fields
      then compacted start pruning (digest_of r) (started ∷ []) charged
      else fell_back start pruning r (started ∷ compaction_failed r.error ∷ [])
          (active_messages t charged)

  abbrev pub extractive : ℕ → PruningResult → SummaryDigest
  extractive start pruning = record {
    method = "extractive-v1";
    text =
        extractive_summary (slice 1 start pruning.messages)
          (min cfg.max_summary_chars (t.history_budget * cfg.target_ratio * 4 / 100));
    usage = none;
    truncated = false;
    error = none;
  }

  -- with a summariser or without
  abbrev pub summary_by :
      Option (List LlmMessage → List LlmMessage → Summary)
      → ℕ
      → PruningResult
      → Compaction
      → Prepared
  summary_by (some f) start pruning s =
      summarised start pruning (f (slice 1 start pruning.messages) (drop start t.history)) s
  summary_by none start pruning s = compacted start pruning (extractive start pruning) [] s

  unfoldable pub summary_stage : ℕ → PruningResult → Compaction → Prepared
  unfolding summarised compacted extractive_summary
  summary_stage start pruning s = summary_by t.summarizer start pruning s

  -- the statements from the pruning on
  unfoldable pub pruned_stage : ℕ → PruningResult → Compaction → Prepared
  unfolding with_pruned summary_stage
  pruned_stage start pruning s =
      if not (pruning.pruned_units == 0)
        && below cfg.threshold (pressure_of t (dicts pruning.messages))
      then with_pruned start pruning s
      else if leb (length (slice 1 start pruning.messages)) 0
      then (if pruning.pruned_units == 0 then unchanged s else with_pruned start pruning s)
      else summary_stage start pruning s

  abbrev pub tail_stage : Option ℕ → Compaction → Prepared
  tail_stage none s = unchanged s
  tail_stage (some start) s = pruned_stage start (pruned_of cfg t t.history start) s

  -- the statements on the canonical history
  unfoldable pub fresh : Compaction → Prepared
  unfolding pruned_stage
  fresh s =
      if below cfg.threshold (pressure_of t (raw t))
      then unchanged s
      else tail_stage (tail_start cfg t (raw t)) s

  abbrev pub after_reuse : Compaction × Option (List LlmMessage) → Prepared
  after_reuse (s, none) = fresh s
  after_reuse (s, some view) = record { compaction = s; events = []; history_override = some view }

  -- __call__
  unfoldable pub call : Compaction → Prepared
  unfolding fresh
  call s = if leb (length t.history) 1 then unchanged s else after_reuse (reuse_active_view cfg t s)
