-- ===== src/Agent/Session/Writing.antt =====
-- agent/session.py: the dictionary of a state.
use forge_agent.Base.{Option, none, some, List, [], ◌∷◌}
use forge_agent.Llm.Usage.{SessionUsage}
use forge_agent.Agent.Session.{
  num, Dict, PendingRoundState, ChatRoundState, ChatSessionState, Raw, RawSession,
}

-- asdict of a usage
unfoldable pub usage_to_dict : SessionUsage → Dict
usage_to_dict u =
    ("llm_calls", num u.llm_calls)
    ∷ ("input_tokens", num u.input_tokens)
    ∷ ("cached_tokens", num u.cached_tokens)
    ∷ ("cache_write_tokens", num u.cache_write_tokens)
    ∷ ("output_tokens", num u.output_tokens)
    ∷ ("reasoning_tokens", num u.reasoning_tokens)
    ∷ ("estimated_calls", num u.estimated_calls)
    ∷ ("unattributed_tokens", num u.unattributed_tokens)
    ∷ []

abbrev pub pending_to_dict : PendingRoundState → Dict
pending_to_dict p =
    ("round_number", p.round_number)
    ∷ ("task_id", p.task_id)
    ∷ ("user_input", p.user_input)
    ∷ ("started_at", p.started_at)
    ∷ ("log_path", p.log_path)
    ∷ []

unfoldable pub round_to_dict : ChatRoundState → Raw
unfolding usage_to_dict
round_to_dict r = record {
  fields =
      ("round_number", r.round_number)
      ∷ ("task_id", r.task_id)
      ∷ ("user_input", r.user_input)
      ∷ ("status", r.status)
      ∷ ("log_path", r.log_path)
      ∷ ("started_at", r.started_at)
      ∷ ("summary", r.summary)
      ∷ ("steps", r.steps)
      ∷ ("tokens", r.tokens)
      ∷ ("finished_at", r.finished_at)
      ∷ ("error", r.error)
      ∷ [];
  usage = some (some (usage_to_dict r.usage));
}

unfoldable pub rounds_to_dicts : List ChatRoundState → List Raw
unfolding round_to_dict
rounds_to_dicts [] = []
rounds_to_dicts (r ∷ rs) = round_to_dict r ∷ rounds_to_dicts rs

abbrev pub pending_dict : Option PendingRoundState → Option Dict
pending_dict none = none
pending_dict (some p) = some (pending_to_dict p)

-- ChatSessionState.to_dict
unfoldable pub to_dict : ChatSessionState → RawSession
unfolding rounds_to_dicts usage_to_dict
to_dict s = record {
  version = some s.version;
  fields =
      ("session_id", s.session_id)
      ∷ ("repo_path", s.repo_path)
      ∷ ("repo_key", s.repo_key)
      ∷ ("created_at", s.created_at)
      ∷ ("updated_at", s.updated_at)
      ∷ ("title", s.title)
      ∷ ("history", s.history)
      ∷ ("round_count", s.round_count)
      ∷ ("total_steps", s.total_steps)
      ∷ ("total_tokens", s.total_tokens)
      ∷ ("repo_revision", s.repo_revision)
      ∷ ("compaction_checkpoints", s.compaction_checkpoints)
      ∷ ("revision", s.revision)
      ∷ [];
  usage = some (some (usage_to_dict s.usage));
  pending_round = some (pending_dict s.pending_round);
  rounds = some (rounds_to_dicts s.rounds);
}
