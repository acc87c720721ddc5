-- ===== src/Harness/Executor/Stages.antt =====
-- The checks before the run of the tool: what holds where each of them lets the call go on.
use forge_agent.Base.{
  suc, ◌≡◌, refl, String, Bool, true, false, Option, none, some, arith, if◌then◌else◌, ok, err,
  Attempt, All,
}
use forge_agent.Tools.Registry.{ToolResult, Value, validate_tool_call}
use forge_agent.Tools.Registry.Checks.{validate_tool_call-fails}
use forge_agent.Harness.Hooks.{trigger_pre_tool_use}
use forge_agent.Harness.Hooks.Order.{Approves, trigger_pre_tool_use_iff}
use forge_agent.Harness.Permission.{ToolUseBlock, PermissionDecision, allow, deny, confirm}
use forge_agent.Harness.Exec.{
  observer, confirm_prompt, permission_check, pre_hooks, Progress, Outcome, done, canceled, Exec,
  pure, halt, emit, ◌>>◌,
}
use forge_agent.Harness.Executor.{
  Executor, ToolHooks, is_cancel_requested, raise_if_canceled, canceled_or, after_pre_hooks,
  after_confirm, after_check, pre_hook_stage, confirm_prompt_ok, decide, permission_stage,
  validation_stage,
}
use forge_agent.Harness.Executor.Ends.{runs, Passes, Guards, bind-Guards, emit-runs, weaken}

-- Every PreToolUse hook returned None.
abbrev pub HooksApprove : Executor → ToolUseBlock → Type 0
HooksApprove x block = elim x.hooks [ none ↦ Unit | some h ↦ All (Approves block) h.pre ]

-- The decision allows the call, or asks for a confirmation that is given.
abbrev pub Permits : Executor → ToolUseBlock → Attempt PermissionDecision → Type 0
Permits x block (ok allow) = Unit
Permits x block (ok (deny reason)) = ⊥
Permits x block (ok (confirm reason)) = confirm_prompt_ok x block ≡ ok true
Permits x block (err e) = ⊥

abbrev pub PermissionGranted : Executor → ToolUseBlock → Type 0
PermissionGranted x block = elim x.permission [
  | none ↦ Unit
  | some check ↦ Permits x block (check block)
]

module _ (x : Executor) where
  pub raise_if_canceled-runs :
      (phase : String) (s : Progress) → runs (raise_if_canceled x phase s).1 ≡ runs s
  unfolding raise_if_canceled is_cancel_requested
  raise_if_canceled-runs phase s = ground arith

  canceled_or-Guards :
      (P : Type 0) (phase : String) (o : Outcome (Option ToolResult)) (s : Progress)
      → Passes P o
      → Guards P (canceled_or x phase o) s
  unfolding canceled_or is_cancel_requested
  canceled_or-Guards P phase o s p =
      elim (x.cancel s.polls)
        as (λ c.
          (runs ((if c then halt (canceled phase) else halt o) (record s { polls = suc s.polls })).1
            ≡ runs s)
          × Passes P
              ((if c then halt (canceled phase) else halt o)
                (record s { polls = suc s.polls })).0) [ true ↦ (refl, tt) | false ↦ (refl, p) ]

  raise_if_canceled-Guards :
      (P : Type 0) (phase : String) (rest : Exec (Option ToolResult)) (s : Progress)
      → ((t : Progress) → Guards P rest t)
      → Guards P (raise_if_canceled x phase >> rest) s
  raise_if_canceled-Guards P phase rest s h =
      bind-Guards P (raise_if_canceled x phase) (λ _. rest) s (raise_if_canceled-runs phase s)
        (λ _ t. h t)

  pub validation_stage-Guards :
      (name : String) (params : Value) (s : Progress)
      → Guards (validate_tool_call x.registry name params ≡ none) (validation_stage x name params) s
  unfolding validation_stage
  validation_stage-Guards name params s =
      raise_if_canceled-Guards (validate_tool_call x.registry name params ≡ none)
        "before_validation" (pure (validate_tool_call x.registry name params)) s
        (λ t. (refl, go (validate_tool_call x.registry name params) refl))
    where
      go :
          (v : Option ToolResult)
          → validate_tool_call x.registry name params ≡ v
          → Passes (validate_tool_call x.registry name params ≡ none) (done v)
      go none q = q
      go (some r) q = validate_tool_call-fails x.registry name params r q

  module _ (block : ToolUseBlock) where
    after_pre_hooks-Guards :
        (a : Attempt (Option String)) (s : Progress) → Guards (a ≡ ok none) (after_pre_hooks x a) s
    unfolding after_pre_hooks
    after_pre_hooks-Guards (err e) s = canceled_or-Guards _ "after_pre_hook" _ s refl
    after_pre_hooks-Guards (ok none) s =
        raise_if_canceled-Guards _ "after_pre_hook" (pure none) s (λ t. (refl, refl))
    after_pre_hooks-Guards (ok (some reason)) s =
        raise_if_canceled-Guards _ "after_pre_hook" _ s (λ t. (refl, refl))

    after_confirm-Guards :
        (reason : String) (a : Attempt Bool) (s : Progress)
        → Guards (a ≡ ok true) (after_confirm x reason a) s
    unfolding after_confirm
    after_confirm-Guards reason (err e) s = canceled_or-Guards _ "permission_confirm" _ s tt
    after_confirm-Guards reason (ok true) s =
        raise_if_canceled-Guards _ "after_permission" (pure none) s (λ t. (refl, refl))
    after_confirm-Guards reason (ok false) s =
        raise_if_canceled-Guards _ "after_permission" _ s (λ t. (refl, refl))

    decide-Guards :
        (d : PermissionDecision) (s : Progress)
        → Guards (Permits x block (ok d)) (decide x block d) s
    unfolding decide
    decide-Guards allow s = (refl, tt)
    decide-Guards (deny reason) s = (refl, refl)
    decide-Guards (confirm reason) s =
        bind-Guards (confirm_prompt_ok x block ≡ ok true) (emit confirm_prompt)
          (λ _. after_confirm x reason (confirm_prompt_ok x block)) s
          (emit-runs confirm_prompt s refl)
          (λ _ t. after_confirm-Guards reason (confirm_prompt_ok x block) t)

    after_check-Guards :
        (a : Attempt PermissionDecision) (s : Progress)
        → Guards (Permits x block a) (after_check x block a) s
    unfolding after_check
    after_check-Guards (err e) s = canceled_or-Guards _ "permission" _ s tt
    after_check-Guards (ok d) s =
        bind-Guards (Permits x block (ok d)) (if x.observed then emit observer else pure tt)
          (λ _. raise_if_canceled x "after_permission" >> decide x block d) s
          (elim x.observed as (λ b. runs ((if b then emit observer else pure tt) s).1 ≡ runs s) [
            | true ↦ emit-runs observer s refl
            | false ↦ refl
          ])
          (λ _ t.
            raise_if_canceled-Guards (Permits x block (ok d)) "after_permission" (decide x block d)
              t (decide-Guards d))

    pub pre_hook_stage-Guards :
        (s : Progress) → Guards (HooksApprove x block) (pre_hook_stage x block) s
    unfolding pre_hook_stage
    pre_hook_stage-Guards s = go x.hooks
      where
        go :
            (hs : Option ToolHooks)
            → Guards
                (elim hs [ none ↦ Unit | some h ↦ All (Approves block) h.pre ])
                (elim hs [
                  | none ↦ pure none
                  | some h ↦ emit pre_hooks >> after_pre_hooks x (trigger_pre_tool_use h.pre block)
                ])
                s
        go none = (refl, tt)
        go (some h) =
            weaken (emit pre_hooks >> after_pre_hooks x (trigger_pre_tool_use h.pre block)) s
              (trigger_pre_tool_use_iff block h.pre).0
              (bind-Guards (trigger_pre_tool_use h.pre block ≡ ok none) (emit pre_hooks)
                (λ _. after_pre_hooks x (trigger_pre_tool_use h.pre block)) s
                (emit-runs pre_hooks s refl)
                (λ _ t. after_pre_hooks-Guards (trigger_pre_tool_use h.pre block) t))

    pub permission_stage-Guards :
        (s : Progress) → Guards (PermissionGranted x block) (permission_stage x block) s
    unfolding permission_stage
    permission_stage-Guards s = go x.permission
      where
        go :
            (p : Option (ToolUseBlock → Attempt PermissionDecision))
            → Guards
                (elim p [ none ↦ Unit | some check ↦ Permits x block (check block) ])
                (elim p [
                  | none ↦ pure none
                  | some check ↦
                      raise_if_canceled x "before_permission"
                      >> (emit permission_check >> after_check x block (check block))
                ])
                s
        go none = (refl, tt)
        go (some check) =
            raise_if_canceled-Guards (Permits x block (check block)) "before_permission"
              (emit permission_check >> after_check x block (check block)) s
              (λ t.
                bind-Guards (Permits x block (check block)) (emit permission_check)
                  (λ _. after_check x block (check block)) t (emit-runs permission_check t refl)
                  (λ _ u. after_check-Guards (check block) u))
