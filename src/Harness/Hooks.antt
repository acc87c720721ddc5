-- ===== src/Harness/Hooks.antt =====
-- harness/hooks.py: the hook registry. A callback is known by its identity; what a trigger passes
-- to the callbacks is the type `A`, and a callback returns a value or raises.
pub mod Order
pub mod Examples
use forge_agent.Base.{
  ℕ, suc, ◌+◌, ◌≡◌, ◌≤◌, refl, String, Bool, true, false, Option, none, some, List, [], ◌∷◌, ◌++◌,
  arith, str_eq, ◌==◌, if◌then◌else◌, Result, ok, err, Exn, Attempt, concat, length, length-append,
}

-- HookEvent: the four keys of the registry
pub data HookEvent : Type 0 where
  pre_tool_use post_tool_use user_prompt_submit stop : HookEvent

-- What a callback returns where it does not return None: a `HookBlockResult`, or another value
-- with its `str`.
pub data HookValue : Type 0 where
  block_result : String → HookValue
  other : String → HookValue

pub record Callback (A : Type 0) : Type 0 where
  pub identity : ℕ
  pub call : A → Attempt (Option HookValue)

-- What a trigger does: the callbacks that it called, in order, and how it ended.
pub record Triggered : Type 0 where
  pub called : List ℕ
  pub outcome : Attempt (Option HookValue)

module _ {A : Type 0} where
  -- for callback in …: the first value that is not None ends the loop, and so does an exception
  unfoldable pub trigger : List (Callback A) → A → Triggered
  trigger [] a = record { called = []; outcome = ok none }
  trigger (c ∷ cs) a =
      let rest = trigger cs a in
      elim (c.call a) [
        | err e ↦ record { called = c.identity ∷ []; outcome = err e }
        | ok (some v) ↦ record { called = c.identity ∷ []; outcome = ok (some v) }
        | ok none ↦ record { called = c.identity ∷ rest.called; outcome = rest.outcome }
      ]

  pub register : Callback A → List (Callback A) → List (Callback A)
  register c cs = cs ++ c ∷ []

  -- list.remove: the first callback that is this one; `false` where there is none
  pub unregister : ℕ → List (Callback A) → List (Callback A) × Bool
  unregister k [] = ([], false)
  unregister k (c ∷ cs) =
      let rest = unregister k cs in if c.identity == k then (cs, true) else (c ∷ rest.0, rest.1)

  pub count : List (Callback A) → ℕ
  count cs = length cs

-- `trigger_pre_tool_use`: why the call is blocked, if it is
abbrev blocked_reason : Option HookValue → Option String
blocked_reason none = none
blocked_reason (some (block_result reason)) = some reason
blocked_reason (some (other text)) = some text

abbrev as_block : Attempt (Option HookValue) → Attempt (Option String)
as_block (err e) = err e
as_block (ok v) = ok (blocked_reason v)

unfoldable pub trigger_pre_tool_use : {A : Type 0} → List (Callback A) → A → Attempt (Option String)
unfolding trigger
trigger_pre_tool_use cs a = as_block (trigger cs a).outcome

-- the name of an event, among the keys of the registry
abbrev pub event_of : String → Option HookEvent
event_of name =
    if str_eq name "PreToolUse"
    then some pre_tool_use
    else if str_eq name "PostToolUse"
    then some post_tool_use
    else if str_eq name "UserPromptSubmit"
    then some user_prompt_submit
    else if str_eq name "Stop"
    then some stop
    else none

-- self._hooks: the callbacks of each event
pub record Hooks (A : Type 0) : Type 0 where
  pub on_pre_tool_use : List (Callback A)
  pub on_post_tool_use : List (Callback A)
  pub on_user_prompt_submit : List (Callback A)
  pub on_stop : List (Callback A)

module _ {A : Type 0} where
  abbrev pub new_hooks : Hooks A
  new_hooks = record {
    on_pre_tool_use = [];
    on_post_tool_use = [];
    on_user_prompt_submit = [];
    on_stop = [];
  }

  abbrev pub hooks_of : HookEvent → Hooks A → List (Callback A)
  hooks_of pre_tool_use h = h.on_pre_tool_use
  hooks_of post_tool_use h = h.on_post_tool_use
  hooks_of user_prompt_submit h = h.on_user_prompt_submit
  hooks_of stop h = h.on_stop

  abbrev pub set_hooks : HookEvent → List (Callback A) → Hooks A → Hooks A
  set_hooks pre_tool_use cs h = record h { on_pre_tool_use = cs }
  set_hooks post_tool_use cs h = record h { on_post_tool_use = cs }
  set_hooks user_prompt_submit cs h = record h { on_user_prompt_submit = cs }
  set_hooks stop cs h = record h { on_stop = cs }

  -- Hooks.register; the name of an unknown event has no quote in it
  pub register_event : String → Callback A → Hooks A → Attempt (Hooks A)
  unfolding register
  register_event name c h = elim (event_of name) [
    | none ↦ err (record {
      class_name = "ValueError";
      message = concat ("Unknown hook event: '" ∷ name ∷ "'" ∷ []);
    })
    | some e ↦ ok (set_hooks e (register c (hooks_of e h)) h)
  ]

  -- Hooks.unregister
  pub unregister_event : String → ℕ → Hooks A → Hooks A × Bool
  unfolding unregister
  unregister_event name k h = elim (event_of name) [
    | none ↦ (h, false)
    | some e ↦ let r = unregister k (hooks_of e h) in (set_hooks e r.0 h, r.1)
  ]

  -- Hooks.trigger and Hooks.count of a name
  pub trigger_event : String → A → Hooks A → Triggered
  unfolding trigger
  trigger_event name a h = elim (event_of name) [
    | none ↦ trigger [] a
    | some e ↦ trigger (hooks_of e h) a
  ]

  pub count_event : String → Hooks A → ℕ
  unfolding count
  count_event name h = elim (event_of name) [ none ↦ 0 | some e ↦ count (hooks_of e h) ]
