-- ===== src/Agent/Core/Rounds.antt =====
-- A whole step, and the run.
use forge_agent.Base.{ℕ, ◌+◌, ◌-◌, ◌≤◌, refl, String, Option, none, some, arith}
use forge_agent.Agent.Types.{Task, ActionType, ToolCall, Action}
use forge_agent.Agent.Memory.{AgentConfig, Memory, Turn, Stage, went_on, returned}
use forge_agent.Agent.Core.{exhausted, turn, run, act_as, act}
use forge_agent.Agent.Core.Stages.{Holds, then_on-Holds, run-Holds}
use forge_agent.Agent.Core.Invariant.{if-Holds, Good, Final, Good-suc}
use forge_agent.Agent.Core.BeforeAction.{prepare_stage-Holds, model_stage-Holds}
use forge_agent.Agent.Core.Finishing.{finish_turn-Holds, give_up_turn-Holds}
use forge_agent.Agent.Core.ToolSteps.{tool_turn-Holds}

module _ (cfg : AgentConfig) (task : Task) (initial : String) (turns : ℕ → Turn) where
  module _ (step : ℕ) (bound : step ≤ task.max_steps) where
    abbrev t : Turn
    t = turns step

    act_as-Holds :
        (kind : ActionType) (tc : Option ToolCall) (a : Action) (n : ℕ) (m : Memory)
        → n ≤ task.max_steps
        → Good cfg task initial turns step n m
        → Holds
            (Good cfg task initial turns (step + 1) n)
            (Final cfg task initial turns)
            (act_as cfg task initial t step kind tc a m)
    unfolding act_as
    act_as-Holds ActionType.finish tc a n m h g =
        finish_turn-Holds cfg task initial turns step bound a n m h g
    act_as-Holds ActionType.give_up tc a n m h g =
        give_up_turn-Holds cfg task initial turns step bound a n m h g
    act_as-Holds ActionType.tool_call (some tc) a n m h g =
        tool_turn-Holds cfg task initial turns step bound a tc n h m g
    act_as-Holds ActionType.tool_call none a n m h g = Good-suc cfg task initial turns step n m g
    act_as-Holds ActionType.reflection tc a n m h g = Good-suc cfg task initial turns step n m g

    pub turn-Holds :
        (m : Memory)
        → 1 ≤ step
        → Good cfg task initial turns step (step - 1) m
        → Holds
            (Good cfg task initial turns (step + 1) (step + 1 - 1))
            (Final cfg task initial turns)
            (turn cfg task initial t step m)
    unfolding turn act
    turn-Holds m l g =
        if-Holds (Good cfg task initial turns (step + 1) (step + 1 - 1))
          (Final cfg task initial turns) t.canceled_at_start _ _
          (tt, (refl, g.1), omega (arith, bound), omega (arith, g.2, bound))
          (then_on-Holds (Good cfg task initial turns step (step - 1))
            (Good cfg task initial turns (step + 1) (step + 1 - 1)) (Final cfg task initial turns) _
            _
            (prepare_stage-Holds cfg task initial turns step bound (step - 1) m
              (omega (arith, bound)) g)
            (λ _ m1 g1.
              then_on-Holds (Good cfg task initial turns step (step - 1 + 1))
                (Good cfg task initial turns (step + 1) (step + 1 - 1))
                (Final cfg task initial turns) _ _
                (model_stage-Holds cfg task initial turns step bound (step - 1) m1
                  (omega (arith, bound, l)) g1)
                (λ r m2 g2.
                  act_as-Holds r.action.action_type r.action.tool_call r.action (step + 1 - 1) _
                    (omega (arith, bound)) (g2.0, g2.1, omega (arith, g2.2)))))

  weaken :
      (P : Memory → Type 0) (k : ℕ) (s : Stage (Unit {0}))
      → ((m : Memory) → 1 ≤ k + 1)
      → Holds P (Final cfg task initial turns) s
      → Holds (λ m. (1 ≤ k + 1) × P m) (Final cfg task initial turns) s
  weaken P k (returned r m) l h = h
  weaken P k (went_on u m) l h = (l m, h)

  exhausted-Final :
      (m : Memory) (n : ℕ)
      → n ≤ task.max_steps
      → Good cfg task initial turns (task.max_steps + 1) n m
      → (Final cfg task initial turns) (exhausted task m).0 (exhausted task m).1
  exhausted-Final m n h g = (tt, (refl, g.1), omega arith, omega (arith, g.2, h))

  pub run-Final :
      (Final cfg task initial turns) (run cfg task initial turns).0 (run cfg task initial turns).1
  run-Final =
      run-Holds cfg task initial turns
        (λ step m. (1 ≤ step) × Good cfg task initial turns step (step - 1) m)
        (Final cfg task initial turns)
        (omega arith, ((refl, refl, refl, refl, tt, tt), refl, omega arith))
        (λ k m b g.
          weaken (Good cfg task initial turns (k + 1) (k + 1 - 1)) k
            (turn cfg task initial (turns k) k m) (λ m'. omega arith) (turn-Holds k b m g.0 g.1))
        (λ m g. exhausted-Final m (task.max_steps + 1 - 1) (omega arith) g.1)
