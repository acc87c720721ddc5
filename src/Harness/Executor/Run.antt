-- ===== src/Harness/Executor/Run.antt =====
-- The run of the tool, and what comes after it.
use forge_agent.Base.{
  suc, ◌∙◌, inr, refl, String, Bool, true, false, Option, none, some, [], ◌∷◌, arith, if◌then◌else◌,
  ok, err, concat, count_where-append,
}
use forge_agent.Tools.Registry.{ToolResult, Value, execute_tool}
use forge_agent.Harness.Hooks.{trigger}
use forge_agent.Harness.Permission.{ToolUseBlock}
use forge_agent.Harness.Exec.{
  tool_run, post_hooks, Progress, Outcome, done, Exec, pure, emit, ◌>>=◌, ◌>>◌,
}
use forge_agent.Harness.Executor.{
  Executor, ToolHooks, is_cancel_requested, raise_if_canceled, classified, finish, after_tool,
  diagnosed, post_hook_stage, tool_stage,
}
use forge_agent.Harness.Executor.Ends.{
  is_tool_run, runs, Ends, SameResult, Returns, emit-runs, bind-Ends,
}
use forge_agent.Harness.Executor.Stages.{raise_if_canceled-runs}

module _ (x : Executor) (block : ToolUseBlock) where
  post_hook_stage-Same : (r : ToolResult) (s : Progress) → Returns r s (post_hook_stage x block r s)
  unfolding post_hook_stage
  post_hook_stage-Same r s = go x.hooks
    where
      go :
          (hs : Option ToolHooks)
          → Returns r s (
              (elim hs as (λ _. Exec ToolResult) [
                | none ↦ pure r
                | some h ↦
                    emit post_hooks
                    >> pure (elim (trigger h.post (block, r)).outcome [
                      | ok v ↦ r
                      | err e ↦ diagnosed x r (concat ("post_tool_hook:" ∷ e.class_name ∷ []) ∷ [])
                    ])
              ])
                s)
      go none = (refl, r, refl, (refl, refl, refl))
      go (some h) =
          elim (trigger h.post (block, r)).outcome
            as (λ o. Returns r s (
              done (elim o [
                | ok v ↦ r
                | err e ↦ diagnosed x r (concat ("post_tool_hook:" ∷ e.class_name ∷ []) ∷ [])
              ]),
              (emit post_hooks s).1,
            )) [
              | ok v ↦ (emit-runs post_hooks s refl, r, refl, (refl, refl, refl))
              | err e ↦ (emit-runs post_hooks s refl, _, refl, (refl, refl, refl))
            ]

  finish-Same : (c : Bool) (r : ToolResult) (s : Progress) → Returns r s (finish x c r s)
  unfolding finish is_cancel_requested
  finish-Same true r s = (refl, _, refl, (refl, refl, refl))
  finish-Same false r s =
      elim (x.cancel s.polls)
        as (λ late. Returns r s (
          done (if late then diagnosed x r ("cancel_requested_after_tool" ∷ []) else r),
          record s { polls = suc s.polls },
        )) [
          | true ↦ (refl, _, refl, (refl, refl, refl))
          | false ↦ (refl, _, refl, (refl, refl, refl))
        ]

  bind-Same :
      (m : Exec ToolResult) (f : ToolResult → Exec ToolResult) (r : ToolResult) (s : Progress)
      → Returns r s (m s)
      → ((t : ToolResult) (u : Progress) → Returns t u (f t u))
      → Returns r s ((m >>= f) s)
  bind-Same m f r s (e, t, o, q) h = rw o (compose (f t (m s).1) (h t (m s).1))
    where
      compose : (c : Outcome ToolResult × Progress) → Returns t (m s).1 c → Returns r s c
      compose c (e', t', o', q') = (e' ∙ e, t', o', (q'.0 ∙ q.0, q'.1 ∙ q.1, q'.2 ∙ q.2))

  after_tool-Same : (r : ToolResult) (s : Progress) → Returns r s (after_tool x block r s)
  unfolding after_tool is_cancel_requested
  after_tool-Same r s =
      bind-Same (post_hook_stage x block r) (finish x (x.cancel s.polls)) r
        (record s { polls = suc s.polls }) (post_hook_stage-Same r _)
        (finish-Same (x.cancel s.polls))

  classified-Same : (name : String) (r : ToolResult) → SameResult (classified x name r) r
  unfolding classified
  classified-Same name r = ground arith

  pub tool_stage-Ends :
      (name : String) (params : Value) (s : Progress)
      → Ends
          (λ r. SameResult r (execute_tool x.registry name params))
          (runs s)
          (tool_stage x name params block s)
  unfolding tool_stage
  tool_stage-Ends name params s =
      bind-Ends (λ r. SameResult r t) (raise_if_canceled x "before_tool")
        (emit tool_run >> after_tool x block (classified x name t)) s
        (raise_if_canceled-runs x "before_tool" s)
        (λ u. ran u (after_tool-Same (classified x name t) (emit tool_run u).1))
    where
      t : ToolResult
      t = execute_tool x.registry name params

      ran :
          (u : Progress)
          → Returns
              (classified x name t)
              (emit tool_run u).1
              (after_tool x block (classified x name t) (emit tool_run u).1)
          → Ends
              (λ r. SameResult r t)
              (runs u)
              ((emit tool_run >> after_tool x block (classified x name t)) u)
      ran u (e, r, o, q) = inr (
        omega (arith, e, count_where-append is_tool_run u.effects (tool_run ∷ [])),
        r,
        o,
        (
          q.0 ∙ (classified-Same name t).0,
          q.1 ∙ (classified-Same name t).1,
          q.2 ∙ (classified-Same name t).2,
        ),
      )
