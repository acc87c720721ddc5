-- ===== src/Harness/Executor/Examples.antt =====
-- A run of `ToolExecutor` and uses of its theorems.
use forge_agent.Base.{◌≡◌, ℕ, refl, true, none, some, [], ◌∷◌, ok, arith, ap, ltb}
use forge_agent.Tools.Registry.{
  validate_tool_params, find_tool, first_misfit, ToolResult, Value, string, object, end, field,
  Tool, execute_tool, validate_tool_call,
}
use forge_agent.Harness.Hooks.{Callback, block_result, trigger, trigger_pre_tool_use}
use forge_agent.Harness.Permission.{ToolUseBlock, confirm}
use forge_agent.Harness.Exec.{
  Progress, done, tool_run, pre_hooks, permission_check, observer, confirm_prompt, post_hooks,
}
use forge_agent.Harness.Executor.{
  Executor, execute, block_of, validation_stage, pre_hook_stage, permission_stage, tool_stage,
}
use forge_agent.Harness.Executor.Ends.{runs}
use forge_agent.Harness.Executor.Stages.{HooksApprove, PermissionGranted}
use forge_agent.Harness.Executor.Safety.{tool_run-authorised}

abbrev pass : ℕ → Callback ToolUseBlock
pass k = record { identity = k; call = λ _. ok none }

abbrev refuse : ℕ → Callback ToolUseBlock
refuse k = record { identity = k; call = λ _. ok (some (block_result "not now")) }

abbrev arguments : Value
arguments = object (field "cmd" (string "rm x") end)

abbrev shell_call : ToolUseBlock
shell_call = block_of "shell" arguments

abbrev ran_result : ToolResult
ran_result = record {
  success = true;
  output = "done";
  error = none;
  error_type = none;
  diagnostics = [];
}

abbrev shell : Tool
shell = record {
  name = "shell";
  parameters_schema = record { required = "cmd" ∷ []; properties = [] };
  run = λ _. ok ran_result;
}

abbrev executor : Executor
executor = record {
  registry = shell ∷ [];
  permission = some (λ _. ok (confirm "destructive command"));
  hooks = some (record { pre = pass 1 ∷ []; post = [] });
  confirm_callback = some (λ _. ok true);
  observed = true;
  lower = λ s. s;
  cancel = λ n. ltb 6 n;
}

abbrev start : Progress
start = record { polls = 0; effects = [] }

abbrev late : ToolResult
late = record {
  success = true;
  output = "done";
  error = none;
  error_type = none;
  diagnostics = "cancel_requested_after_tool" ∷ [];
}

shell_runs : execute executor "shell" arguments start ≡ (
  done late,
  record {
    polls = 8;
    effects = pre_hooks ∷ permission_check ∷ observer ∷ confirm_prompt ∷ tool_run ∷ post_hooks ∷ [];
  },
)
unfolding execute validate_tool_params find_tool first_misfit validate_tool_call execute_tool
    trigger trigger_pre_tool_use validation_stage pre_hook_stage permission_stage tool_stage
shell_runs = refl

one_run : runs (execute executor "shell" arguments start).1 ≡ 1
one_run = ap (λ r. runs r.1) shell_runs

tool_run-authorised_example :
    (validate_tool_call executor.registry "shell" arguments ≡ none)
    × HooksApprove executor shell_call
    × PermissionGranted executor shell_call
tool_run-authorised_example =
    tool_run-authorised executor "shell" arguments start (omega (arith, one_run))
