-- ===== src/Agent/Session.antt =====
-- agent/session.py: the state of a chat session and the dictionary that it is kept as. A value that the
-- code passes on is any JSON value; numbers are natural. A dictionary that is read has an object or
-- null as its pending round, objects as its rounds, and an object or null as each usage; every key of
-- it may be missing, and others may stand beside them.
pub mod Reading
pub mod Writing
pub mod RoundTrip
mod Defaults
pub mod Migration
pub mod Failures
mod Examples
use forge_agent.Base.{
  ℕ, String, Bool, true, false, Option, none, some, List, [], ◌∷◌, str_eq, if◌then◌else◌, Result,
  ok, err,
}
use forge_agent.Llm.Usage.{SessionUsage}

mutual
  pub data JsonValue : Type 0 where
    null : JsonValue
    boolean : Bool → JsonValue
    num : ℕ → JsonValue
    text : String → JsonValue
    arr : JsonItems → JsonValue
    obj : JsonFields → JsonValue

  pub data JsonItems : Type 0 where
    nil : JsonItems
    cons : JsonValue → JsonItems → JsonItems

  pub data JsonFields : Type 0 where
    end : JsonFields
    field : String → JsonValue → JsonFields → JsonFields

abbrev pub Dict : Type 0
Dict = List (String × JsonValue)

abbrev pub lookup {ℓ} : {V : Type ℓ} → String → List (String × V) → Option V
lookup k [] = none
lookup k ((j, v) ∷ d) = if str_eq j k then some v else lookup k d

-- d.get(k, v)
abbrev pub get_or {ℓ} : {V : Type ℓ} → V → Option V → V
get_or d none = d
get_or d (some v) = v

-- the exceptions of the language that the conversions raise
pub data PyError : Type 0 where
  type_error value_error : PyError

infixl 5 ◌>>=◌
abbrev pub ◌>>=◌ {ℓ κ μ} :
    {E : Type ℓ} {A : Type κ} {B : Type μ} → Result E A → (A → Result E B) → Result E B
ok a >>= f = f a
err e >>= f = err e

pub record PendingRoundState : Type 0 where
  pub round_number : JsonValue
  pub task_id : JsonValue
  pub user_input : JsonValue
  pub started_at : JsonValue
  pub log_path : JsonValue

pub record ChatRoundState : Type 0 where
  pub round_number : JsonValue
  pub task_id : JsonValue
  pub user_input : JsonValue
  pub status : JsonValue
  pub log_path : JsonValue
  pub started_at : JsonValue
  pub summary : JsonValue
  pub steps : JsonValue
  pub tokens : JsonValue
  pub usage : SessionUsage
  pub finished_at : JsonValue
  pub error : JsonValue

pub record ChatSessionState : Type 0 where
  pub session_id : JsonValue
  pub repo_path : JsonValue
  pub repo_key : JsonValue
  pub created_at : JsonValue
  pub updated_at : JsonValue
  pub title : JsonValue
  pub history : JsonValue
  pub round_count : JsonValue
  pub total_steps : JsonValue
  pub total_tokens : JsonValue
  pub usage : SessionUsage
  pub repo_revision : JsonValue
  pub pending_round : Option PendingRoundState
  pub rounds : List ChatRoundState
  pub compaction_checkpoints : JsonValue
  pub revision : JsonValue
  pub version : JsonValue

-- a dictionary with a usage: its other keys, and the usage, which may be missing (none) or null
pub record Raw : Type 0 where
  pub fields : Dict
  pub usage : Option (Option Dict)

-- the dictionary of a session
pub record RawSession : Type 0 where
  pub version : Option JsonValue
  pub fields : Dict
  pub usage : Option (Option Dict)
  pub pending_round : Option (Option Dict)
  pub rounds : Option (List Raw)
