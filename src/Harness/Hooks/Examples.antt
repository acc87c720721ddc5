-- ===== src/Harness/Hooks/Examples.antt =====
-- Runs of the hooks and uses of their theorems.
use forge_agent.Base.{◌≡◌, ◌↔◌, refl, ℕ, String, false, none, some, [], ◌∷◌, ok, err, All, Attempt}
use forge_agent.Harness.Hooks.{
  Callback, block_result, trigger_pre_tool_use, Hooks, new_hooks, register_event, unregister_event,
  trigger_event, count_event,
}
use forge_agent.Harness.Hooks.Order.{Approves, trigger_pre_tool_use_iff}

abbrev pass : ℕ → Callback String
pass k = record { identity = k; call = λ _. ok none }

abbrev refuse : ℕ → Callback String
refuse k = record { identity = k; call = λ _. ok (some (block_result "not now")) }

abbrev call : String
call = "shell"

trigger_pre_tool_use_iff_example :
    (trigger_pre_tool_use (pass 1 ∷ refuse 2 ∷ []) call ≡ ok none)
    ↔ All (Approves call) (pass 1 ∷ refuse 2 ∷ [])
trigger_pre_tool_use_iff_example = trigger_pre_tool_use_iff call (pass 1 ∷ refuse 2 ∷ [])

abbrev registered : Attempt (Hooks String)
registered = register_event "PreToolUse" (refuse 2) new_hooks

abbrev or_new : Attempt (Hooks String) → Hooks String
or_new (ok h) = h
or_new (err e) = new_hooks

-- a hook is called for its event and for no other
hears_its_event :
    ((trigger_event "PreToolUse" call (or_new registered)).called ≡ 2 ∷ [])
    × ((trigger_event "Stop" call (or_new registered)).called ≡ [])
unfolding register_event trigger_event
hears_its_event = (refl, refl)

unknown_event :
    (register_event "preToolUse" (pass 1) new_hooks
      ≡ err (record { class_name = "ValueError"; message = "Unknown hook event: 'preToolUse'" }))
    × (count_event "preToolUse" (or_new registered) ≡ 0)
    × ((unregister_event "preToolUse" 2 (or_new registered)).1 ≡ false)
unfolding register_event count_event unregister_event
unknown_event = (refl, refl, refl)

leaves : count_event "PreToolUse" (unregister_event "PreToolUse" 2 (or_new registered)).0 ≡ 0
unfolding register_event count_event unregister_event
leaves = refl
