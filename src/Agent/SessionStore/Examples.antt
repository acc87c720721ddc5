-- ===== src/Agent/SessionStore/Examples.antt =====
-- A session that two clients save, and uses of the theorems on it.
use forge_agent.Base.{ℕ, ◌≤◌, ◌≡◌, refl, String, Option, none, List, [], ◌∷◌, ok, err, arith}
use forge_agent.Llm.Usage.{unused}
use forge_agent.Agent.Session.{num, text, null, arr, nil, ChatSessionState}
use forge_agent.Agent.Session.Writing.{to_dict}
use forge_agent.Agent.SessionStore.{redact, Files, conflict, not_found, save, load, create}
use forge_agent.Agent.SessionStore.Conflicts.{SaveCall, wins_of, wins_of-le-one}
use forge_agent.Agent.SessionStore.Reload.{clean_state, load-save}

abbrev no_numbers : String → Option ℕ
no_numbers s = none

abbrev hide_all : String → String
hide_all s = s

abbrev new_session : ChatSessionState
new_session = record {
  session_id = text "s1";
  repo_path = text "/repo";
  repo_key = text "k";
  created_at = text "2026-01-01";
  updated_at = text "2026-01-01";
  title = null;
  history = arr nil;
  round_count = num 0;
  total_steps = num 0;
  total_tokens = num 0;
  usage = unused;
  repo_revision = text "";
  pending_round = none;
  rounds = [];
  compaction_checkpoints = arr nil;
  revision = num 0;
  version = num 2;
}

saved_once : (save no_numbers hide_all "2026-01-02" [] new_session).outcome ≡ ok tt
unfolding save
saved_once = refl

load-save_example :
    load no_numbers hide_all "s1" (save no_numbers hide_all "2026-01-02" [] new_session).files
    ≡ ok (clean_state hide_all (save no_numbers hide_all "2026-01-02" [] new_session).state)
load-save_example =
    load-save no_numbers hide_all "2026-01-02" "k" "s1" [] new_session refl refl refl (omega arith)
      refl saved_once

-- two clients with copies of the same revision
abbrev two_saves : List SaveCall
two_saves =
    (record { now = "2026-01-02"; state = new_session })
    ∷ (record { now = "2026-01-03"; state = record new_session { title = text "late" } })
    ∷ []

one_wins : wins_of no_numbers hide_all 0 ("k", "s1") two_saves [] ≡ 1
unfolding save to_dict redact
one_wins = refl

wins_of-le-one_example : wins_of no_numbers hide_all 0 ("k", "s1") two_saves [] ≤ 1
wins_of-le-one_example = wins_of-le-one no_numbers hide_all 0 ("k", "s1") two_saves []

abbrev first_files : Files
first_files = (save no_numbers hide_all "2026-01-02" [] new_session).files

second_refused :
    (save no_numbers hide_all "2026-01-03" first_files new_session).outcome ≡ err conflict
unfolding save to_dict redact
second_refused = refl

missing_session : load no_numbers hide_all "s2" [] ≡ err not_found
unfolding load
missing_session = refl

created : (create no_numbers hide_all "2026-01-01" "s1" "/repo" "k" []).outcome ≡ ok tt
unfolding create
created = refl
