-- ===== src/Agent/Memory.antt =====
-- agent/core.py: the local variables of `Agent.run`, what it logs and adds to the history, and what
-- the outside answers in each step.
use forge_agent.Base.{ℕ, String, Bool, Option, none, some, List, [], ◌∷◌, ◌++◌, Result, Exn}
use forge_agent.Llm.Usage.{SessionUsage}
use forge_agent.Harness.Executor.{Executor}
use forge_agent.Agent.Types.{RunStatus, canceled, Action, Observation, RunResult}
use forge_agent.Agent.LoopDetector.{Detector, Signal}
use forge_agent.Agent.Retry.{RetryConfig, Try}

pub record AgentConfig : Type 0 where
  pub test_tool_names : List String
  pub fatal_tool_error_repeats : ℕ
  pub reflection_no_edit_steps : ℕ
  pub loop_detection_window : ℕ
  pub loop_detection_max_period : ℕ
  pub retry : RetryConfig
  pub lower : String → String
  -- the fingerprints that the loop detector compares
  pub fingerprint_action : Action → String
  pub fingerprint_observation : Observation → String

-- Why a finish is refused; each has its code in the source.
pub data Rejection : Type 0 where
  repository_unchanged required_test_missing latest_test_failed final_state_unverified : Rejection

-- A message of the history, by the function that formats it.
pub data Entry : Type 0 where
  acted : Action → Entry
  observed : Observation → Entry
  rejected : Rejection → Entry
  thought : String → Entry
  reflected_loop : ℕ → ℕ → Entry
  reflected_test_failed : Entry
  reflected_no_edit : ℕ → Entry
  -- a message that the prepare callback gives: its role and its text
  given : String → String → Entry

-- The trace events of the core.
pub data TraceKind : Type 0 where
  prepare_started prepare_failed prepare_finished : TraceKind
  llm_started llm_retry llm_failed llm_finished : TraceKind
  tool_started tool_failed tool_finished : TraceKind

pub data LogEvent : Type 0 where
  task_start : LogEvent
  trace : TraceKind → ℕ → LogEvent
  action_taken : ℕ → Action → LogEvent
  observation_made : ℕ → Observation → LogEvent
  completion_rejected : ℕ → Rejection → LogEvent
  reflection : ℕ → String → LogEvent
  loop_detected : ℕ → Signal → LogEvent
  task_complete : ℕ → String → LogEvent
  task_failed : ℕ → String → LogEvent
  task_incomplete : ℕ → String → String → LogEvent

-- The log has the newest event first, the history the oldest message.
pub record Memory : Type 0 where
  pub usage : SessionUsage
  pub steps_without_edit : ℕ
  pub detector : Detector
  pub test_attempted : Bool
  pub last_test_passed : Option Bool
  pub last_successful_test_step : Option ℕ
  pub last_repo_state : String
  pub last_repo_change_step : Option ℕ
  pub fatal_error_key : Option String
  pub fatal_error_count : ℕ
  pub history : List Entry
  pub log : List LogEvent

-- What the prepare callback does in a step, and the polls of the cancel flag around it.
pub record Preparation : Type 0 where
  pub canceled_before : Bool
  pub outcome : Result Exn (List Entry)
  pub canceled_after : Bool

-- What the outside answers in one step: each poll of the cancel flag, each run of the backend, of the
-- executor, and of the functions that read the repository.
pub record Turn : Type 0 where
  pub canceled_at_start : Bool
  -- none where no callback is configured
  pub preparation : Option Preparation
  pub tries : ℕ → Try
  pub canceled_on_failure : Bool
  pub canceled_after_model : Bool
  pub patch : Option String
  pub final_repo_state : String
  pub canceled_before_tool : Bool
  pub executor : Executor
  -- an exception of the executor that is none of its own two
  pub framework_error : Option Exn
  pub repo_state : String
  pub canceled_after_tool : Bool

-- A stage of a step returns from `run`, or goes on.
pub data Stage (A : Type 0) : Type 0 where
  returned : RunResult → Memory → Stage A
  went_on : A → Memory → Stage A

abbrev pub then_on : {A B : Type 0} → Stage A → (A → Memory → Stage B) → Stage B
then_on (returned r m) f = returned r m
then_on (went_on a m) f = f a m

abbrev pub logged : LogEvent → Memory → Memory
logged e m = record m { log = e ∷ m.log }

abbrev pub remembered : Entry → Memory → Memory
remembered e m = record m { history = m.history ++ e ∷ [] }

-- the early returns with their log line
abbrev pub failing :
    {A : Type 0}
    → RunStatus
    → String
    → String
    → ℕ
    → Option String
    → Option String
    → Memory
    → Stage A
failing status reason termination steps patch error m =
    returned
      (record {
        status = status;
        summary = reason;
        steps_taken = steps;
        usage = m.usage;
        patch = patch;
        error = error;
        termination_reason = termination;
        resource_reason = none;
      })
      (logged (task_failed steps reason) m)

abbrev pub cancel : {A : Type 0} → ℕ → Option String → Memory → Stage A
cancel steps patch m = failing canceled "Canceled by external request" "canceled" steps patch none m

abbrev pub infrastructure_failure : {A : Type 0} → String → ℕ → Option String → Memory → Stage A
infrastructure_failure reason steps patch m =
    failing RunStatus.failed reason "infrastructure_error" steps patch (some reason) m
