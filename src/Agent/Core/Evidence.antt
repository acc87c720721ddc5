-- ===== src/Agent/Core/Evidence.antt =====
-- What the log says about tests and changes, and that the variables of the loop agree with it.
use forge_agent.Base.{
  ℕ, ◌+◌, ◌<◌, ◌≡◌, refl, String, Bool, true, false, ◌&&◌, ◌||◌, Option, none, some, List, [], ◌∷◌,
  str_eq, if◌then◌else◌, arith, eq_iff, sym, subst, ap, ◌∙◌,
}
use forge_agent.Tools.Registry.{ToolResult}
use forge_agent.Harness.Permission.{one_of}
use forge_agent.Agent.Types.{Observation, ToolCall, Action, is_success, to_observation}
use forge_agent.Agent.Memory.{AgentConfig, LogEvent, observation_made, Memory, Turn}
use forge_agent.Agent.Completion.{outdated}
use forge_agent.Agent.ToolTurn.{noted, note_test, note_repo_state}

-- The observations of a log, the newest first, each with its step.
abbrev pub observations : List LogEvent → List (ℕ × Observation)
observations [] = []
observations (observation_made k o ∷ es) = (k, o) ∷ observations es
observations (e ∷ es) = observations es

module _ (cfg : AgentConfig) (initial : String) (turns : ℕ → Turn) where
  abbrev pub tests : Observation → Bool
  tests o = one_of cfg.test_tool_names o.tool_name

  -- the repository after the newest observation
  abbrev pub seen_state : List (ℕ × Observation) → String
  seen_state [] = initial
  seen_state ((k, o) ∷ os) = (turns k).repo_state

  -- the result of the newest test
  abbrev pub latest_test : List (ℕ × Observation) → Option Bool
  latest_test [] = none
  latest_test ((k, o) ∷ os) = if tests o then some (is_success o) else latest_test os

  -- whether any test was run
  abbrev pub tested : List (ℕ × Observation) → Bool
  tested [] = false
  tested ((k, o) ∷ os) = tests o || tested os

  -- whether the repository changed in a step with no successful test in it or after it
  abbrev pub unverified : List (ℕ × Observation) → Bool
  unverified [] = false
  unverified ((k, o) ∷ os) =
      if tests o && is_success o
      then false
      else if str_eq (turns k).repo_state (seen_state os)
      then unverified os
      else true

  abbrev pub Before : ℕ → Option ℕ → Type 0
  Before step none = Unit
  Before step (some k) = k < step

  abbrev pub AgreesWith : ℕ → List (ℕ × Observation) → Memory → Type 0
  AgreesWith step os m =
      (m.last_repo_state ≡ seen_state os)
      × (m.test_attempted ≡ tested os)
      × (m.last_test_passed ≡ latest_test os)
      × (outdated m.last_repo_change_step m.last_successful_test_step ≡ unverified os)
      × Before step m.last_repo_change_step
      × Before step m.last_successful_test_step

  -- The variables of the loop before a step against the log.
  abbrev pub Agrees : ℕ → Memory → Type 0
  Agrees step m = AgreesWith step (observations m.log) m

  pub Before-suc : (step : ℕ) (o : Option ℕ) → Before step o → Before (step + 1) o
  Before-suc step none h = tt
  Before-suc step (some k) h = omega (arith, h)

  pub Before-ltb : (step : ℕ) (o : Option ℕ) → Before step o → outdated o (some step) ≡ false
  Before-ltb step none h = refl
  Before-ltb step (some k) h = ground (arith, h)

  outdated-now : (step : ℕ) (o : Option ℕ) → Before step o → outdated (some step) o ≡ true
  outdated-now step none h = refl
  outdated-now step (some k) h = ground (arith, h)

  module _ (step : ℕ) (action : Action) (tc : ToolCall) (r : ToolResult) (m : Memory) where
    abbrev after : Memory
    after = noted cfg (turns step) step action tc r m

    abbrev o : Observation
    o = to_observation r tc.name

    abbrev kept : Bool
    kept = str_eq (turns step).repo_state m.last_repo_state

    after-log : observations after.log ≡ (step, o) ∷ observations m.log
    unfolding noted note_test note_repo_state
    after-log = ground arith

    after-last_repo_state : after.last_repo_state ≡ (turns step).repo_state
    unfolding noted note_test note_repo_state
    after-last_repo_state = ground (arith, eq_iff (turns step).repo_state m.last_repo_state)

    after-test_attempted : after.test_attempted ≡ (tests o || m.test_attempted)
    unfolding noted note_test note_repo_state
    after-test_attempted = ground arith

    after-last_test_passed :
        after.last_test_passed ≡ (if tests o then some (is_success o) else m.last_test_passed)
    unfolding noted note_test note_repo_state
    after-last_test_passed = ground arith

    after-last_repo_change_step :
        after.last_repo_change_step ≡ (if kept then m.last_repo_change_step else some step)
    unfolding noted note_test note_repo_state
    after-last_repo_change_step = ground arith

    after-last_successful_test_step :
        after.last_successful_test_step
        ≡ (if tests o && is_success o then some step else m.last_successful_test_step)
    unfolding noted note_test note_repo_state
    after-last_successful_test_step = ground arith

    Before-choice :
        (b : Bool) (k : Option ℕ) → Before step k → Before (step + 1) (if b then k else some step)
    Before-choice true k h = Before-suc step k h
    Before-choice false k h = omega arith

    Before-test :
        (b : Bool) (k : Option ℕ) → Before step k → Before (step + 1) (if b then some step else k)
    Before-test true k h = omega arith
    Before-test false k h = Before-suc step k h

    outdated-choice :
        (b c : Bool) (p q : Option ℕ)
        → Before step p
        → Before step q
        → outdated (if b then p else some step) (if c then some step else q)
          ≡ (if c then false else if b then outdated p q else true)
    outdated-choice true true p q hp hq = Before-ltb step p hp
    outdated-choice false true p q hp hq = ground arith
    outdated-choice true false p q hp hq = refl
    outdated-choice false false p q hp hq = outdated-now step q hq

    pub noted-Agrees : Agrees step m → Agrees (step + 1) after
    noted-Agrees (s, a, l, u, c, t) = (
      after-last_repo_state ∙ sym (ap seen_state after-log),
      after-test_attempted ∙ ap (λ b. tests o || b) a ∙ sym (ap tested after-log),
      after-last_test_passed
          ∙ ap (λ b. if tests o then some (is_success o) else b) l
          ∙ sym (ap latest_test after-log),
      ap (λ p. outdated p after.last_successful_test_step) after-last_repo_change_step
          ∙ ap (λ q. outdated (if kept then m.last_repo_change_step else some step) q)
              after-last_successful_test_step
          ∙ outdated-choice kept (tests o && is_success o) _ _ c t
          ∙ ap (λ b. if tests o && is_success o then false else if kept then b else true) u
          ∙ ap
              (λ x.
                if tests o && is_success o
                then false
                else if str_eq (turns step).repo_state x
                then unverified (observations m.log)
                else true)
              s
          ∙ sym (ap unverified after-log),
      subst (Before (step + 1)) (sym after-last_repo_change_step)
          (Before-choice kept m.last_repo_change_step c),
      subst (Before (step + 1)) (sym after-last_successful_test_step)
          (Before-test (tests o && is_success o) m.last_successful_test_step t),
    )
