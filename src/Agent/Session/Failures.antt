-- ===== src/Agent/Session/Failures.antt =====
-- An exception that `ChatSessionState.from_dict` lets pass.
use forge_agent.Base.{false, ◌≡◌, refl, ap, ◌∙◌, ℕ, String, Option, none, some, err}
use forge_agent.Agent.Session.{num, text, value_error, RawSession, lookup, Dict}
use forge_agent.Agent.Session.Reading.{
  uncaught, usage_or_tokens, pending_or_none, rounds_from_dicts, session_of, session_from,
  from_dict, caught, version_test, int_of,
}
use forge_agent.Agent.Session.RoundTrip.{from_dict-current}

abbrev pub bare : Dict → RawSession
bare d = record {
  version = some (num 2);
  fields = d;
  usage = none;
  pending_round = none;
  rounds = none;
}

module _ (int_of_text : String → Option ℕ) where
  tokens_fail :
      (d : Dict) (s : String)
      → lookup "total_tokens" d ≡ some (text s)
      → int_of_text s ≡ none
      → usage_or_tokens int_of_text "total_tokens" d none ≡ err value_error
  unfolding usage_or_tokens int_of
  tokens_fail d s h k = rw (h, k) refl

  session_fails :
      (d : Dict) (s : String)
      → lookup "total_tokens" d ≡ some (text s)
      → int_of_text s ≡ none
      → session_of int_of_text false (num 2) (bare d) ≡ err value_error
  unfolding session_of session_from pending_or_none rounds_from_dicts
  session_fails d s h k = rw (tokens_fail d s h k) refl

  -- A dictionary of the current version without a usage, a pending round and rounds, whose tokens
  -- are a text that is no number, is not refused as a dictionary of the wrong form: the ValueError
  -- of the conversion passes.
  pub from_dict-value_error :
      (d : Dict) (s : String)
      → lookup "total_tokens" d ≡ some (text s)
      → int_of_text s ≡ none
      → from_dict int_of_text (bare d) ≡ err (uncaught value_error)
  from_dict-value_error d s h k =
      from_dict-current int_of_text (bare d) (unfold version_test in refl)
      ∙ ap caught (session_fails d s h k)
