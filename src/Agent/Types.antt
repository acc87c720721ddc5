-- ===== src/Agent/Types.antt =====
-- agent/task.py: what the core of the agent works on and what it returns.
use forge_agent.Base.{ℕ, String, Bool, true, false, Option}
use forge_agent.Tools.Registry.{Value, ToolResult, ObservationStatus, observation_status}
use forge_agent.Llm.Usage.{SessionUsage, TokenUsage}

pub data RunStatus : Type 0 where
  success incomplete failed max_steps gave_up canceled : RunStatus

pub data ActionType : Type 0 where
  tool_call reflection finish give_up : ActionType

pub record ToolCall : Type 0 where
  pub name : String
  pub params : Value

pub record Action : Type 0 where
  pub action_type : ActionType
  pub thought : String
  pub tool_call : Option ToolCall
  pub message : Option String

pub record Observation : Type 0 where
  pub status : ObservationStatus
  pub output : String
  pub tool_name : String
  pub error : Option String

abbrev pub is_success : Observation → Bool
is_success o = elim o.status [ ObservationStatus.success ↦ true | _ ↦ false ]

-- ToolResult.to_observation
abbrev pub to_observation : ToolResult → String → Observation
to_observation r name = record {
  status = observation_status r;
  output = r.output;
  tool_name = name;
  error = r.error;
}

-- The parts of a task that the core reads.
pub record Task : Type 0 where
  pub require_changes : Bool
  pub require_tests : Bool
  pub max_steps : ℕ

pub record RunResult : Type 0 where
  pub status : RunStatus
  pub summary : String
  pub steps_taken : ℕ
  pub usage : SessionUsage
  pub patch : Option String
  pub error : Option String
  pub termination_reason : String
  pub resource_reason : Option String

-- what a backend returns
pub record Response : Type 0 where
  pub action : Action
  pub usage : TokenUsage
