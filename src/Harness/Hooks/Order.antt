-- ===== src/Harness/Hooks/Order.antt =====
-- Hooks run in the order of their registration, and the first that answers decides.
use forge_agent.Base.{
  ℕ, ◌≡◌, ◌↔◌, refl, Bool, true, false, none, some, List, [], ◌∷◌, ◌++◌, arith, ◌==◌, if◌then◌else◌,
  ok, err, All,
}
use forge_agent.Harness.Hooks.{
  Callback, Triggered, trigger, register, unregister, trigger_pre_tool_use,
}

abbrev pub Approves : {A : Type 0} → A → Callback A → Type 0
Approves a c = c.call a ≡ ok none

module _ {A : Type 0} (a : A) where
  approved-All : (cs : List (Callback A)) → (trigger cs a).outcome ≡ ok none → All (Approves a) cs
  unfolding trigger
  approved-All [] h = tt
  approved-All (c ∷ cs) h = (ground arith, approved-All cs (ground arith))

  All-approved : (cs : List (Callback A)) → All (Approves a) cs → (trigger cs a).outcome ≡ ok none
  unfolding trigger
  All-approved [] h = refl
  All-approved (c ∷ cs) h = ground (arith, h.0, All-approved cs h.1)

  -- A tool call passes the PreToolUse hooks exactly when every hook returns None: an answer and an
  -- exception of any hook both keep it from passing.
  pub trigger_pre_tool_use_iff :
      (cs : List (Callback A)) → (trigger_pre_tool_use cs a ≡ ok none) ↔ All (Approves a) cs
  unfolding trigger_pre_tool_use
  trigger_pre_tool_use_iff cs =
      ((λ h. approved-All cs (ground arith)), (λ h. ground (arith, All-approved cs h)))

  -- what the hooks `ds` add behind hooks that ended in `first`
  abbrev pub then_hooks : Triggered → Triggered → Triggered
  then_hooks first rest = elim first.outcome [
    | err e ↦ first
    | ok (some v) ↦ first
    | ok none ↦ record { called = first.called ++ rest.called; outcome = rest.outcome }
  ]

  -- Hooks registered later are called only if all before them returned None, and then decide.
  pub trigger-append :
      (cs ds : List (Callback A)) → trigger (cs ++ ds) a ≡ then_hooks (trigger cs a) (trigger ds a)
  unfolding trigger
  trigger-append [] ds = refl
  trigger-append (c ∷ cs) ds = ground (arith, trigger-append cs ds)

abbrev pub has_hook : {A : Type 0} → ℕ → List (Callback A) → Bool
has_hook k [] = false
has_hook k (c ∷ cs) = if c.identity == k then true else has_hook k cs

-- Unregistering a hook that was just registered, and was not there before, gives the hooks back.
pub unregister-register :
    {A : Type 0} (c : Callback A) (cs : List (Callback A))
    → has_hook c.identity cs ≡ false
    → unregister c.identity (register c cs) ≡ (cs, true)
unfolding register unregister
unregister-register c [] h = ground arith
unregister-register c (d ∷ ds) h = ground (arith, unregister-register c ds)
