-- ===== src/Harness/Executor.antt =====
-- harness/executor.py: `ToolExecutor.execute`. What the outside does is a record of functions; the
-- cancel flag is the answers to its successive polls, for another thread may set it at any moment.
pub mod Ends
pub mod Stages
pub mod Run
pub mod Safety
pub mod Examples
use forge_agent.Base.{
  ℕ, suc, ◌+◌, String, Bool, true, false, not, ◌&&◌, ◌||◌, Option, none, some, List, [], ◌∷◌, ◌++◌,
  str_eq, if◌then◌else◌, any, Result, ok, err, Exn, Attempt, concat, join, is_in, select,
}
use forge_agent.Tools.Registry.{
  ToolErrorType, timeout, infrastructure, tool_execution, hook_failed, hook_blocked,
  permission_denied, ToolResult, Value, Fields, object, get_field, string, Registry, failure,
  validate_tool_call, execute_tool, or_empty, end,
}
use forge_agent.Harness.Hooks.{Callback, trigger, trigger_pre_tool_use}
use forge_agent.Harness.Exec.{
  Effect, pre_hooks, permission_check, observer, confirm_prompt, tool_run, post_hooks, Progress,
  Outcome, done, canceled, broken, Exec, ◌>>=◌, ◌>>◌, pure, halt, emit, unless_returned,
}
use forge_agent.Harness.Permission.{
  ToolUseBlock, PermissionDecision, allow, deny, confirm, or_value, one_of,
}

-- The hooks of the two events that the executor triggers.
pub record ToolHooks : Type 0 where
  pub pre : List (Callback ToolUseBlock)
  pub post : List (Callback (ToolUseBlock × ToolResult))

pub record Executor : Type 0 where
  pub registry : Registry
  pub permission : Option (ToolUseBlock → Attempt PermissionDecision)
  pub hooks : Option ToolHooks
  -- the confirm callback takes the prompt: the value of `cmd` or `command`, or the tool's name
  pub confirm_callback : Option (Value → Attempt Bool)
  -- whether a decision callback is given
  pub observed : Bool
  pub lower : String → String
  -- the answer to the n-th poll of the cancel event
  pub cancel : ℕ → Bool

abbrev pub runtime_tools : List String
runtime_tools = "shell" ∷ "test" ∷ "pytest" ∷ "git" ∷ []

abbrev docker_markers : List String
docker_markers =
    "cannot connect to the docker daemon" ∷ "docker is not available" ∷ "failed to start container"
    ∷ "duplicate mount point" ∷ "invalid mount config" ∷ []

abbrev is_none : {A : Type 0} → Option A → Bool
is_none none = true
is_none (some a) = false

abbrev pub input_of : Value → Fields
input_of (object fs) = fs
input_of _ = end

abbrev pub block_of : String → Value → ToolUseBlock
block_of name params = record { name = name; input = input_of params }

module _ (x : Executor) where
  -- _is_cancel_requested
  pub is_cancel_requested : Exec Bool
  is_cancel_requested s = (done (x.cancel s.polls), record s { polls = suc s.polls })

  -- _raise_if_canceled
  pub raise_if_canceled : String → Exec (Unit {0})
  unfolding is_cancel_requested
  raise_if_canceled phase =
      is_cancel_requested >>= λ c. if c then halt (canceled phase) else pure tt

  -- `except Exception as exc`: cancellation first, then `otherwise`
  pub canceled_or : {A : Type 0} → String → Outcome A → Exec A
  unfolding is_cancel_requested
  canceled_or phase otherwise =
      is_cancel_requested >>= λ c. if c then halt (canceled phase) else halt otherwise

  after_pre_hooks : Attempt (Option String) → Exec (Option ToolResult)
  unfolding raise_if_canceled canceled_or
  after_pre_hooks (err e) = canceled_or "after_pre_hook" (
      done (
        some (
          failure (concat ("PreToolUse hook failed: " ∷ e.class_name ∷ ": " ∷ e.message ∷ []))
            hook_failed)))
  after_pre_hooks (ok blocked) =
      raise_if_canceled "after_pre_hook"
      >> pure (elim blocked [ none ↦ none | some reason ↦ some (failure reason hook_blocked) ])

  pub pre_hook_stage : ToolUseBlock → Exec (Option ToolResult)
  unfolding after_pre_hooks
  pre_hook_stage block = elim x.hooks [
    | none ↦ pure none
    | some h ↦ emit pre_hooks >> after_pre_hooks (trigger_pre_tool_use h.pre block)
  ]

  -- _confirm_prompt_ok
  pub confirm_prompt_ok : ToolUseBlock → Attempt Bool
  confirm_prompt_ok block = elim x.confirm_callback [
    | none ↦ ok false
    | some ask ↦ ask (
        or_value (get_field "cmd" block.input)
          (or_value (get_field "command" block.input) (string block.name)))
  ]

  after_confirm : String → Attempt Bool → Exec (Option ToolResult)
  unfolding raise_if_canceled canceled_or
  after_confirm reason (err e) = canceled_or "permission_confirm" (broken "permission_confirm" e)
  after_confirm reason (ok confirmed) =
      raise_if_canceled "after_permission"
      >> pure (
          if confirmed
          then none
          else some
              (failure (concat ("Permission denied by user: " ∷ reason ∷ [])) permission_denied))

  decide : ToolUseBlock → PermissionDecision → Exec (Option ToolResult)
  unfolding after_confirm confirm_prompt_ok
  decide block allow = pure none
  decide block (deny reason) =
      pure (some (failure (concat ("Permission denied: " ∷ reason ∷ [])) permission_denied))
  decide block (confirm reason) =
      emit confirm_prompt >> after_confirm reason (confirm_prompt_ok block)

  -- an exception of the observer is logged and has no other effect
  after_check : ToolUseBlock → Attempt PermissionDecision → Exec (Option ToolResult)
  unfolding raise_if_canceled canceled_or decide
  after_check block (err e) = canceled_or "permission" (broken "permission" e)
  after_check block (ok decision) =
      (if x.observed then emit observer else pure tt)
      >> (raise_if_canceled "after_permission" >> decide block decision)

  pub permission_stage : ToolUseBlock → Exec (Option ToolResult)
  unfolding raise_if_canceled after_check
  permission_stage block = elim x.permission [
    | none ↦ pure none
    | some check ↦
        raise_if_canceled "before_permission"
        >> (emit permission_check >> after_check block (check block))
  ]

  -- _classify_tool_error
  pub classify_tool_error : String → ToolResult → ToolErrorType
  classify_tool_error name r =
      let text =
        x.lower (join "\n" (select (λ s. not (str_eq s "")) (r.output ∷ or_empty r.error ∷ []))) in
      if is_in "timed out" text || is_in "timeout" text
      then timeout
      else if one_of runtime_tools name && any (λ marker. is_in marker text) docker_markers
      then infrastructure
      else tool_execution

  -- the result of the registry, with an error type where a failed tool gave none
  classified : String → ToolResult → ToolResult
  unfolding classify_tool_error
  classified name r =
      if not r.success && is_none r.error_type
      then record r { error_type = some (classify_tool_error name r) }
      else r

  abbrev pub diagnosed : ToolResult → List String → ToolResult
  diagnosed r more = record r { diagnostics = r.diagnostics ++ more }

  post_hook_stage : ToolUseBlock → ToolResult → Exec ToolResult
  post_hook_stage block r = elim x.hooks [
    | none ↦ pure r
    | some h ↦
        emit post_hooks
        >> pure (elim (trigger h.post (block, r)).outcome [
          | ok v ↦ r
          | err e ↦ diagnosed r (concat ("post_tool_hook:" ∷ e.class_name ∷ []) ∷ [])
        ])
  ]

  -- The second poll is made only if the first found no cancellation.
  finish : Bool → ToolResult → Exec ToolResult
  unfolding is_cancel_requested
  finish canceled_after r = do
    late ← (if canceled_after then pure true else is_cancel_requested)
    pure (if late then diagnosed r ("cancel_requested_after_tool" ∷ []) else r)

  after_tool : ToolUseBlock → ToolResult → Exec ToolResult
  unfolding is_cancel_requested post_hook_stage finish
  after_tool block r = do
    canceled_after ← is_cancel_requested
    result ← post_hook_stage block r
    finish canceled_after result

  pub tool_stage : String → Value → ToolUseBlock → Exec ToolResult
  unfolding raise_if_canceled classified after_tool
  tool_stage name params block = do
    raise_if_canceled "before_tool"
    emit tool_run
    after_tool block (classified name (execute_tool x.registry name params))

  pub validation_stage : String → Value → Exec (Option ToolResult)
  unfolding raise_if_canceled
  validation_stage name params =
      raise_if_canceled "before_validation" >> pure (validate_tool_call x.registry name params)

  unfoldable pub execute : String → Value → Exec ToolResult
  unfolding validation_stage pre_hook_stage permission_stage tool_stage
  execute name params =
      let block = block_of name params in
      unless_returned (validation_stage name params) (
        unless_returned (pre_hook_stage block)
          (unless_returned (permission_stage block) (tool_stage name params block)))
