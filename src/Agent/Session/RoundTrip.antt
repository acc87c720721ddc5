-- ===== src/Agent/Session/RoundTrip.antt =====
-- A state that is written and read again is the same.
use forge_agent.Base.{
  false, ℕ, ◌≡◌, refl, ap, ◌∙◌, String, Option, none, some, List, [], ◌∷◌, arith, ok,
}
use forge_agent.Llm.Usage.{SessionUsage}
use forge_agent.Agent.Session.{
  num, ◌>>=◌, PendingRoundState, ChatRoundState, ChatSessionState, null, get_or, RawSession,
}
use forge_agent.Agent.Session.Reading.{
  usage_from_dict, round_from_dict, rounds_from_dicts, pending_or_none, from_dict, session_of,
  session_from, caught, version_test, current,
}
use forge_agent.Agent.Session.Writing.{
  usage_to_dict, round_to_dict, rounds_to_dicts, pending_dict, to_dict,
}

module _ (int_of_text : String → Option ℕ) where
  pub usage_round_trip :
      (u : SessionUsage) → usage_from_dict int_of_text (some (usage_to_dict u)) ≡ ok u
  unfolding usage_from_dict usage_to_dict
  usage_round_trip u = refl

  round_round_trip : (r : ChatRoundState) → round_from_dict int_of_text (round_to_dict r) ≡ ok r
  unfolding round_from_dict round_to_dict
  round_round_trip r = refl

  pub rounds_round_trip :
      (rs : List ChatRoundState) → rounds_from_dicts int_of_text (rounds_to_dicts rs) ≡ ok rs
  unfolding rounds_from_dicts rounds_to_dicts
  rounds_round_trip [] = refl
  rounds_round_trip (r ∷ rs) = ap (λ t. t >>= (λ xs. ok (r ∷ xs))) (rounds_round_trip rs)

  pub pending_round_trip :
      (p : Option PendingRoundState) → pending_or_none int_of_text (some (pending_dict p)) ≡ ok p
  unfolding pending_or_none
  pending_round_trip none = refl
  pending_round_trip (some p) = refl

  session_round_trip :
      (s : ChatSessionState) → session_of int_of_text false s.version (to_dict s) ≡ ok s
  unfolding session_of session_from to_dict
  session_round_trip s = rw (pending_round_trip s.pending_round, rounds_round_trip s.rounds) refl

  pub from_dict-current :
      (raw : RawSession)
      → version_test raw.version ≡ current
      → from_dict int_of_text raw
        ≡ caught (session_of int_of_text false (get_or null raw.version) raw)
  unfolding from_dict
  from_dict-current raw h = ground (arith, h)

  current_version :
      (s : ChatSessionState) → s.version ≡ num 2 → version_test (some s.version) ≡ current
  unfolding version_test
  current_version s h = ap (λ v. version_test (some v)) h

  to_dict-version : (s : ChatSessionState) → (to_dict s).version ≡ some s.version
  unfolding to_dict
  to_dict-version s = refl

  -- A state of the current version that is made a dictionary and read again is the same state,
  -- whatever its values are.
  pub from_dict-to_dict :
      (s : ChatSessionState) → s.version ≡ num 2 → from_dict int_of_text (to_dict s) ≡ ok s
  unfolding to_dict
  from_dict-to_dict s h =
      from_dict-current (to_dict s) (current_version s h) ∙ ap caught (session_round_trip s)
