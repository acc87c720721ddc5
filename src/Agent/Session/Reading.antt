-- ===== src/Agent/Session/Reading.antt =====
-- agent/session.py: the states that are made of dictionaries, and what is raised for others.
use forge_agent.Base.{
  ℕ, String, Bool, true, false, ◌&&◌, Option, none, some, List, [], ◌∷◌, ◌++◌, str_eq, ◌==◌,
  if◌then◌else◌, any, all, Result, ok, err,
}
use forge_agent.Llm.Usage.{SessionUsage, unused}
use forge_agent.Agent.Session.{
  JsonValue, null, boolean, num, text, arr, obj, nil, Dict, lookup, get_or, PyError, type_error,
  value_error, ◌>>=◌, PendingRoundState, ChatRoundState, ChatSessionState, Raw, RawSession,
}

abbrev pub mentions : String → List String → Bool
mentions k ks = any (λ j. str_eq j k) ks

abbrev pub has_key {ℓ} : {V : Type ℓ} → List (String × V) → String → Bool
has_key d k = any (λ e. str_eq e.0 k) d

-- cls(**raw): each required field is given, and no other field than the known ones
abbrev pub accepted : List String → List String → Dict → Result PyError (Unit {0})
accepted required optional raw =
    if all (has_key raw) required && all (λ e. mentions e.0 (required ++ optional)) raw
    then ok tt
    else err type_error

abbrev pub set_default : String → JsonValue → Dict → Dict
set_default k v d = if has_key d k then d else d ++ (k, v) ∷ []

-- a dictionary of version 1 with the fields that version 2 added
abbrev pub upgraded : Bool → Dict → Dict
upgraded is_old d =
    if is_old
    then set_default "compaction_checkpoints" (arr nil) (set_default "revision" (num 0) d)
    else d

module _ (int_of_text : String → Option ℕ) where
  -- int(value)
  unfoldable pub int_of : JsonValue → Result PyError ℕ
  int_of (boolean b) = ok (if b then 1 else 0)
  int_of (num n) = ok n
  int_of (text s) = elim (int_of_text s) [ none ↦ err value_error | some n ↦ ok n ]
  int_of _ = err type_error

  abbrev pub usage_fields : List String
  usage_fields =
      "llm_calls" ∷ "input_tokens" ∷ "cached_tokens" ∷ "cache_write_tokens" ∷ "output_tokens"
      ∷ "reasoning_tokens" ∷ "estimated_calls" ∷ "unattributed_tokens" ∷ []

  -- {key: int(value) for key, value in data.items() if key in fields}
  unfoldable pub known_ints : Dict → Result PyError (List (String × ℕ))
  unfolding int_of
  known_ints [] = ok []
  known_ints ((k, v) ∷ d) =
      let rest = known_ints d in
      if mentions k usage_fields
      then int_of v >>= (λ n. rest >>= (λ ns. ok ((k, n) ∷ ns)))
      else rest

  abbrev pub int_at : String → List (String × ℕ) → ℕ
  int_at k ns = get_or 0 (lookup k ns)

  -- SessionUsage.from_dict
  unfoldable pub usage_from_dict : Option Dict → Result PyError SessionUsage
  unfolding known_ints
  usage_from_dict none = ok unused
  usage_from_dict (some []) = ok unused
  usage_from_dict (some (e ∷ d)) = do
    ns ← known_ints (e ∷ d)
    ok (record {
      llm_calls = int_at "llm_calls" ns;
      input_tokens = int_at "input_tokens" ns;
      cached_tokens = int_at "cached_tokens" ns;
      cache_write_tokens = int_at "cache_write_tokens" ns;
      output_tokens = int_at "output_tokens" ns;
      reasoning_tokens = int_at "reasoning_tokens" ns;
      estimated_calls = int_at "estimated_calls" ns;
      unattributed_tokens = int_at "unattributed_tokens" ns;
    })

  -- the usage of a round or of a session; without one, its tokens are not attributed
  unfoldable pub usage_or_tokens :
      String → Dict → Option (Option Dict) → Result PyError SessionUsage
  unfolding usage_from_dict int_of
  usage_or_tokens tokens_key fields none = do
    n ← int_of (get_or (num 0) (lookup tokens_key fields))
    ok (record unused { unattributed_tokens = n })
  usage_or_tokens tokens_key fields (some u) = usage_from_dict u

  abbrev pub value_at : String → Dict → JsonValue
  value_at k d = get_or null (lookup k d)

  -- PendingRoundState.from_dict
  unfoldable pub pending_from_dict : Dict → Result PyError PendingRoundState
  pending_from_dict raw = do
    _ ← accepted ("round_number" ∷ "task_id" ∷ "user_input" ∷ "started_at" ∷ "log_path" ∷ []) [] raw
    ok (record {
      round_number = value_at "round_number" raw;
      task_id = value_at "task_id" raw;
      user_input = value_at "user_input" raw;
      started_at = value_at "started_at" raw;
      log_path = value_at "log_path" raw;
    })

  -- ChatRoundState.from_dict
  unfoldable pub round_from_dict : Raw → Result PyError ChatRoundState
  unfolding usage_or_tokens
  round_from_dict raw = do
    usage ← usage_or_tokens "tokens" raw.fields raw.usage
    _ ←
        accepted
          ("round_number" ∷ "task_id" ∷ "user_input" ∷ "status" ∷ "log_path" ∷ "started_at" ∷ [])
          ("summary" ∷ "steps" ∷ "tokens" ∷ "finished_at" ∷ "error" ∷ []) raw.fields
    ok (record {
      round_number = value_at "round_number" raw.fields;
      task_id = value_at "task_id" raw.fields;
      user_input = value_at "user_input" raw.fields;
      status = value_at "status" raw.fields;
      log_path = value_at "log_path" raw.fields;
      started_at = value_at "started_at" raw.fields;
      summary = get_or (text "") (lookup "summary" raw.fields);
      steps = get_or (num 0) (lookup "steps" raw.fields);
      tokens = get_or (num 0) (lookup "tokens" raw.fields);
      usage = usage;
      finished_at = value_at "finished_at" raw.fields;
      error = value_at "error" raw.fields;
    })

  unfoldable pub rounds_from_dicts : List Raw → Result PyError (List ChatRoundState)
  unfolding round_from_dict
  rounds_from_dicts [] = ok []
  rounds_from_dicts (r ∷ rs) = do
    round ← round_from_dict r
    rounds ← rounds_from_dicts rs
    ok (round ∷ rounds)

  -- `PendingRoundState.from_dict(pending) if pending else None`
  unfoldable pub pending_or_none : Option (Option Dict) → Result PyError (Option PendingRoundState)
  unfolding pending_from_dict
  pending_or_none none = ok none
  pending_or_none (some none) = ok none
  pending_or_none (some (some [])) = ok none
  pending_or_none (some (some (e ∷ d))) = do p ← pending_from_dict (e ∷ d); ok (some p)

  -- the statements under `try`, from `pending` on: `d` holds the values that are passed on, and
  -- `raw` those that are converted
  unfoldable pub session_from : Dict → JsonValue → RawSession → Result PyError ChatSessionState
  unfolding usage_or_tokens rounds_from_dicts pending_or_none
  session_from d version raw = do
    pending ← pending_or_none raw.pending_round
    rounds ← rounds_from_dicts (get_or [] raw.rounds)
    usage ← usage_or_tokens "total_tokens" d raw.usage
    _ ←
        accepted ("session_id" ∷ "repo_path" ∷ "repo_key" ∷ "created_at" ∷ "updated_at" ∷ [])
          ("title" ∷ "history" ∷ "round_count" ∷ "total_steps" ∷ "total_tokens" ∷ "repo_revision"
            ∷ "compaction_checkpoints" ∷ "revision" ∷ [])
          d
    ok (record {
      session_id = value_at "session_id" d;
      repo_path = value_at "repo_path" d;
      repo_key = value_at "repo_key" d;
      created_at = value_at "created_at" d;
      updated_at = value_at "updated_at" d;
      title = value_at "title" d;
      history = get_or (arr nil) (lookup "history" d);
      round_count = get_or (num 0) (lookup "round_count" d);
      total_steps = get_or (num 0) (lookup "total_steps" d);
      total_tokens = get_or (num 0) (lookup "total_tokens" d);
      usage = usage;
      repo_revision = get_or (text "") (lookup "repo_revision" d);
      pending_round = pending;
      rounds = rounds;
      compaction_checkpoints = get_or (arr nil) (lookup "compaction_checkpoints" d);
      revision = get_or (num 0) (lookup "revision" d);
      version = version;
    })

  -- the statements under `try`
  unfoldable pub session_of : Bool → JsonValue → RawSession → Result PyError ChatSessionState
  session_of is_old version raw =
      session_from (upgraded is_old raw.fields) (if is_old then num 2 else version) raw

-- ChatSessionFormatError, or an exception that `from_dict` lets pass
pub data SessionError : Type 0 where
  format_error : SessionError
  uncaught : PyError → SessionError

-- how a version stands to the set {1, SESSION_STATE_VERSION}; True is 1 there
pub data VersionTest : Type 0 where
  old current unsupported unhashable : VersionTest

unfoldable pub version_test : Option JsonValue → VersionTest
version_test none = unsupported
version_test (some null) = unsupported
version_test (some (boolean b)) = if b then old else unsupported
version_test (some (num n)) = if n == 1 then old else if n == 2 then current else unsupported
version_test (some (text s)) = unsupported
version_test (some (arr xs)) = unhashable
version_test (some (obj fs)) = unhashable

-- except (TypeError, KeyError, AttributeError)
abbrev pub caught {ℓ} : {A : Type ℓ} → Result PyError A → Result SessionError A
caught (ok a) = ok a
caught (err type_error) = err format_error
caught (err value_error) = err (uncaught value_error)

-- ChatSessionState.from_dict
unfoldable pub from_dict : (String → Option ℕ) → RawSession → Result SessionError ChatSessionState
unfolding session_of version_test
from_dict int_of_text raw = elim (version_test raw.version) [
  | unsupported ↦ err format_error
  | unhashable ↦ err (uncaught type_error)
  | old ↦ caught (session_of int_of_text true (get_or null raw.version) raw)
  | current ↦ caught (session_of int_of_text false (get_or null raw.version) raw)
]
