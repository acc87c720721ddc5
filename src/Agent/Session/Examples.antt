-- ===== src/Agent/Session/Examples.antt =====
-- A session that is written and read, and uses of the theorems on it.
use forge_agent.Base.{◌≡◌, refl, ℕ, String, Option, none, some, [], ◌∷◌, ok, err}
use forge_agent.Llm.Usage.{unused}
use forge_agent.Agent.Session.{
  null, num, text, arr, nil, value_error, ChatRoundState, ChatSessionState, Dict, RawSession,
}
use forge_agent.Agent.Session.Reading.{
  uncaught, from_dict, format_error, session_of, session_from, version_test, old,
}
use forge_agent.Agent.Session.Writing.{to_dict}
use forge_agent.Agent.Session.RoundTrip.{from_dict-to_dict}
use forge_agent.Agent.Session.Migration.{Migrates, from_dict-version_1}
use forge_agent.Agent.Session.Failures.{bare, from_dict-value_error}

abbrev no_numbers : String → Option ℕ
no_numbers s = none

abbrev a_round : ChatRoundState
a_round = record {
  round_number = num 1;
  task_id = text "t1";
  user_input = text "fix it";
  status = text "completed";
  log_path = text "/log";
  started_at = text "2026-01-01";
  summary = text "done";
  steps = num 3;
  tokens = num 40;
  usage = record unused { input_tokens = 30; output_tokens = 10; llm_calls = 2 };
  finished_at = text "2026-01-02";
  error = null;
}

abbrev a_session : ChatSessionState
a_session = record {
  session_id = text "s1";
  repo_path = text "/repo";
  repo_key = text "k";
  created_at = text "2026-01-01";
  updated_at = text "2026-01-01";
  title = null;
  history = arr nil;
  round_count = num 1;
  total_steps = num 3;
  total_tokens = num 40;
  usage = record unused { input_tokens = 30; output_tokens = 10; llm_calls = 2 };
  repo_revision = text "abc";
  pending_round = some (record {
    round_number = num 2;
    task_id = text "t2";
    user_input = text "and this";
    started_at = text "2026-01-03";
    log_path = text "/log2";
  });
  rounds = a_round ∷ [];
  compaction_checkpoints = arr nil;
  revision = num 4;
  version = num 2;
}

from_dict-to_dict_example : from_dict no_numbers (to_dict a_session) ≡ ok a_session
from_dict-to_dict_example = from_dict-to_dict no_numbers a_session refl

-- a session of version 1, from before usage was kept
abbrev old_session : RawSession
old_session = record {
  version = some (num 1);
  fields =
      ("session_id", text "s1")
      ∷ ("repo_path", text "/repo")
      ∷ ("repo_key", text "k")
      ∷ ("created_at", text "2026-01-01")
      ∷ ("updated_at", text "2026-01-01")
      ∷ ("total_tokens", num 40)
      ∷ [];
  usage = none;
  pending_round = none;
  rounds = none;
}

old_tokens :
    from_dict no_numbers old_session
    ≡ ok (record {
      session_id = text "s1";
      repo_path = text "/repo";
      repo_key = text "k";
      created_at = text "2026-01-01";
      updated_at = text "2026-01-01";
      title = null;
      history = arr nil;
      round_count = num 0;
      total_steps = num 0;
      total_tokens = num 40;
      usage = record unused { unattributed_tokens = 40 };
      repo_revision = text "";
      pending_round = none;
      rounds = [];
      compaction_checkpoints = arr nil;
      revision = num 0;
      version = num 2;
    })
unfolding from_dict session_of session_from
old_tokens = refl

old_version : version_test old_session.version ≡ old
unfolding version_test
old_version = refl

from_dict-version_1_example :
    (from_dict no_numbers old_session
      ≡ from_dict no_numbers (record old_session { version = some (num 2) }))
    × Migrates no_numbers old_session (from_dict no_numbers old_session)
from_dict-version_1_example = from_dict-version_1 no_numbers old_session old_version

abbrev bad_tokens : Dict
bad_tokens = ("session_id", text "s1") ∷ ("total_tokens", text "many") ∷ []

from_dict-value_error_example : from_dict no_numbers (bare bad_tokens) ≡ err (uncaught value_error)
from_dict-value_error_example = from_dict-value_error no_numbers bad_tokens "many" refl refl

missing_keys : from_dict no_numbers (bare []) ≡ err format_error
unfolding from_dict session_from
missing_keys = refl
