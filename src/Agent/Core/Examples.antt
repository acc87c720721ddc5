-- ===== src/Agent/Core/Examples.antt =====
-- A run of `Agent.run` and uses of its theorems.
use forge_agent.Base.{ℕ, zero, suc, ◌≤◌, ◌≡◌, refl, true, false, none, some, [], ◌∷◌, ok}
use forge_agent.Tools.Registry.{
  observation_status, Tool, object, end, validate_tool_call, execute_tool, find_tool,
  validate_tool_params, first_misfit,
}
use forge_agent.Harness.Executor.{Executor, execute}
use forge_agent.Llm.Usage.{TokenUsage}
use forge_agent.Agent.Types.{RunStatus, ActionType, Task, Action}
use forge_agent.Agent.LoopDetector.{new, observe, scan, judge}
use forge_agent.Agent.Retry.{Try, call_with_retry}
use forge_agent.Agent.Memory.{AgentConfig, Turn}
use forge_agent.Agent.Completion.{finish_turn}
use forge_agent.Agent.ToolTurn.{tool_turn}
use forge_agent.Agent.Core.{run}
use forge_agent.Agent.Core.Evidence.{observations}
use forge_agent.Agent.Core.Invariant.{Completed, Ended}
use forge_agent.Agent.Core.Verified.{success-Completed, run-Ended, run-le}

abbrev config : AgentConfig
config = record {
  test_tool_names = "test" ∷ "pytest" ∷ [];
  fatal_tool_error_repeats = 2;
  reflection_no_edit_steps = 6;
  loop_detection_window = 3;
  loop_detection_max_period = 3;
  retry = record {
    llm_max_retries = 3;
    llm_retry_delay = 2000;
    llm_retry_max_delay = 30000;
    jitters = false;
    can_wait = true;
  };
  lower = λ s. s;
  fingerprint_action = λ a. a.thought;
  fingerprint_observation = λ o. o.output;
}

abbrev task : Task
task = record { require_changes = true; require_tests = true; max_steps = 5 }

abbrev few_tokens : TokenUsage
few_tokens = record {
  input_tokens = 100;
  cached_tokens = 0;
  cache_write_tokens = 0;
  output_tokens = 20;
  reasoning_tokens = 0;
  estimated = false;
}

abbrev run_test : Action
run_test = record {
  action_type = ActionType.tool_call;
  thought = "run the tests";
  tool_call = some (record { name = "test"; params = object end });
  message = none;
}

abbrev finish_now : Action
finish_now = record {
  action_type = ActionType.finish;
  thought = "done";
  tool_call = none;
  message = none;
}

abbrev answered : Action → ℕ → Try
answered a n = record {
  canceled_before = false;
  outcome = ok (record { action = a; usage = few_tokens });
  output_started = false;
  canceled_after = false;
  jitter = 0;
  wait_canceled = false;
}

abbrev test_tool : Tool
test_tool = record {
  name = "test";
  parameters_schema = record { required = []; properties = [] };
  run = λ _. ok (record {
    success = true;
    output = "3 passed";
    error = none;
    error_type = none;
    diagnostics = [];
  });
}

abbrev executor : Executor
executor = record {
  registry = test_tool ∷ [];
  permission = none;
  hooks = none;
  confirm_callback = none;
  observed = false;
  lower = λ s. s;
  cancel = λ n. false;
}

abbrev turn_with : Action → Turn
turn_with a = record {
  canceled_at_start = false;
  preparation = none;
  tries = answered a;
  canceled_on_failure = false;
  canceled_after_model = false;
  patch = some "diff";
  final_repo_state = "fixed";
  canceled_before_tool = false;
  executor = executor;
  framework_error = none;
  repo_state = "fixed";
  canceled_after_tool = false;
}

-- the tests pass in the first step, in which the repository changes; then the model finishes
abbrev turns : ℕ → Turn
turns zero = turn_with finish_now
turns (suc zero) = turn_with run_test
turns (suc (suc n)) = turn_with finish_now

run_succeeds : (run config task "broken" turns).0.status ≡ RunStatus.success
unfolding run observation_status finish_turn tool_turn call_with_retry execute validate_tool_call
    execute_tool find_tool validate_tool_params first_misfit new observe scan judge
run_succeeds = refl

success-Completed_example :
    Completed config task "broken" turns
      (run config task "broken" turns).0.steps_taken
      (observations (run config task "broken" turns).1.log)
success-Completed_example = success-Completed config task "broken" turns run_succeeds

run-Ended_example :
    Ended (run config task "broken" turns).0.status (run config task "broken" turns).1.log
run-Ended_example = run-Ended config task "broken" turns

run-le_example :
    ((run config task "broken" turns).0.steps_taken ≤ 5)
    × ((run config task "broken" turns).0.usage.llm_calls ≤ 5)
run-le_example = run-le config task "broken" turns
