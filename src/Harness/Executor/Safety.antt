-- ===== src/Harness/Executor/Safety.antt =====
-- When `ToolExecutor.execute` runs the tool, and what it returns.
use forge_agent.Base.{suc, ◌≡◌, ◌≢◌, subst, inl, inr, String, true, none, arith}
use forge_agent.Tools.Registry.{ToolResult, Value, validate_tool_call, execute_tool}
use forge_agent.Harness.Permission.{ToolUseBlock}
use forge_agent.Harness.Exec.{Progress, done, Exec, unless_returned}
use forge_agent.Harness.Executor.{
  Executor, pre_hook_stage, permission_stage, tool_stage, validation_stage, execute, block_of,
}
use forge_agent.Harness.Executor.Ends.{runs, Fails, Ends, SameResult, unless_returned-Ends}
use forge_agent.Harness.Executor.Stages.{
  validation_stage-Guards, pre_hook_stage-Guards, permission_stage-Guards, HooksApprove,
  PermissionGranted,
}
use forge_agent.Harness.Executor.Run.{tool_stage-Ends}

module _ (x : Executor) (block : ToolUseBlock) where
  abbrev Authorised : String → Value → ToolResult → Type 0
  Authorised name params r =
      (validate_tool_call x.registry name params ≡ none)
      × (HooksApprove x block
          × (PermissionGranted x block × SameResult r (execute_tool x.registry name params)))

  abbrev called : String → Value → Exec ToolResult
  called name params = unless_returned (validation_stage x name params) (
      unless_returned (pre_hook_stage x block)
        (unless_returned (permission_stage x block) (tool_stage x name params block)))

  Authorised-call :
      (name : String) (params : Value) (s : Progress)
      → Ends (Authorised name params) (runs s) (called name params s)
  Authorised-call name params s =
      unless_returned-Ends (validate_tool_call x.registry name params ≡ none) _
        (validation_stage x name params) _ s (validation_stage-Guards x name params s)
        (λ t.
          unless_returned-Ends (HooksApprove x block) _ (pre_hook_stage x block) _ t
            (pre_hook_stage-Guards x block t)
            (λ u.
              unless_returned-Ends (PermissionGranted x block) _ (permission_stage x block) _ u
                (permission_stage-Guards x block u) (tool_stage-Ends x block name params)))

module _ (x : Executor) (name : String) (params : Value) (s : Progress) where
  ends : Ends (Authorised x (block_of name params) name params) (runs s) (execute x name params s)
  unfolding execute
  ends = Authorised-call x (block_of name params) name params s

  -- A call that runs the tool has arguments that its schema accepts, every PreToolUse hook
  -- returned None, and the permission check allowed it or asked for a confirmation that was given.
  pub tool_run-authorised :
      runs (execute x name params s).1 ≢ runs s
      → (validate_tool_call x.registry name params ≡ none)
        × HooksApprove x (block_of name params)
        × PermissionGranted x (block_of name params)
  tool_run-authorised h = elim ends [
    | inl (e, f) ↦ absurd (h e)
    | inr (e, r, o, q) ↦ (q.0, q.1.0, q.1.1.0)
  ]

  -- A call that runs the tool runs it once and returns what the registry returned, whatever the
  -- later hooks and polls do: only the diagnostics and the error type of a failure may differ.
  pub tool_run-result :
      runs (execute x name params s).1 ≢ runs s
      → (runs (execute x name params s).1 ≡ suc (runs s))
        × (r : ToolResult) × ((execute x name params s).0 ≡ done r)
        × SameResult r (execute_tool x.registry name params)
  tool_run-result h = elim ends [
    | inl (e, f) ↦ absurd (h e)
    | inr (e, r, o, q) ↦ (e, r, o, q.1.1.1)
  ]

  -- A call that returns a successful result has run the tool once.
  pub success-tool_run :
      (r : ToolResult)
      → (execute x name params s).0 ≡ done r
      → r.success ≡ true
      → runs (execute x name params s).1 ≡ suc (runs s)
  success-tool_run r h t = elim ends [
    | inl (e, f) ↦ absurd (ground (arith, subst Fails h f, t))
    | inr (e, u, o, q) ↦ e
  ]
