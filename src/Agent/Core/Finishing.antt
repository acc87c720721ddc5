-- ===== src/Agent/Core/Finishing.antt =====
-- The actions that end a run.
use forge_agent.Base.{ℕ, ◌+◌, ◌≤◌, ◌≡◌, refl, String, Option, none, some, arith}
use forge_agent.Agent.Types.{Task, Action}
use forge_agent.Agent.Memory.{AgentConfig, Rejection, Memory, Turn}
use forge_agent.Agent.Completion.{
  rejection, finish_turn, unless_fatal, judged, complete, give_up_turn,
}
use forge_agent.Agent.Core.Stages.{Holds}
use forge_agent.Agent.Core.Evidence.{observations}
use forge_agent.Agent.Core.Invariant.{Completed, Good, Final, Good-suc}

module _ (cfg : AgentConfig) (task : Task) (initial : String) (turns : ℕ → Turn) where
  module _ (step : ℕ) (bound : step ≤ task.max_steps) where
    abbrev t : Turn
    t = turns step

    complete-Final :
        (action : Action) (n : ℕ) (m : Memory)
        → n ≤ task.max_steps
        → Good cfg task initial turns step n m
        → Completed cfg task initial turns step (observations m.log)
        → Holds
            (Good cfg task initial turns (step + 1) n)
            (Final cfg task initial turns)
            (complete task initial t step action m)
    unfolding complete
    complete-Final action n m h (g, z, k) c = (c, (refl, z), bound, omega (arith, k, h))

    accepted-Completed :
        (n : ℕ) (m : Memory)
        → Good cfg task initial turns step n m
        → rejection task initial t.final_repo_state m ≡ none
        → Completed cfg task initial turns step (observations m.log)
    unfolding rejection
    accepted-Completed n m ((s, a, l, u, c, p), z, k) h =
        (ground (arith, h), ground (arith, h, a), ground (arith, h, a, l), ground (arith, h, a, u))

    judged-Holds :
        (action : Action) (n : ℕ) (o : Option Rejection) (m : Memory)
        → n ≤ task.max_steps
        → Good cfg task initial turns step n m
        → rejection task initial t.final_repo_state m ≡ o
        → Holds
            (Good cfg task initial turns (step + 1) n)
            (Final cfg task initial turns)
            (judged task initial t step action o m)
    unfolding judged
    judged-Holds action n none m h g q = complete-Final action n m h g (accepted-Completed n m g q)
    judged-Holds action n (some r) m h g q = Good-suc cfg task initial turns step n m g

    unless_fatal-Holds :
        (action : Action) (n : ℕ) (o : Option String) (m : Memory)
        → n ≤ task.max_steps
        → Good cfg task initial turns step n m
        → Holds
            (Good cfg task initial turns (step + 1) n)
            (Final cfg task initial turns)
            (unless_fatal task initial t step action o m)
    unfolding unless_fatal
    unless_fatal-Holds action n none m h g = judged-Holds action n _ m h g refl
    unless_fatal-Holds action n (some key) m h g = (tt, (refl, g.1), bound, omega (arith, g.2, h))

    pub finish_turn-Holds :
        (action : Action) (n : ℕ) (m : Memory)
        → n ≤ task.max_steps
        → Good cfg task initial turns step n m
        → Holds
            (Good cfg task initial turns (step + 1) n)
            (Final cfg task initial turns)
            (finish_turn task initial t step action m)
    unfolding finish_turn
    finish_turn-Holds action n m h g = unless_fatal-Holds action n m.fatal_error_key m h g

    pub give_up_turn-Holds :
        (action : Action) (n : ℕ) (m : Memory)
        → n ≤ task.max_steps
        → Good cfg task initial turns step n m
        → Holds
            (Good cfg task initial turns (step + 1) n)
            (Final cfg task initial turns)
            (give_up_turn task initial t step action m)
    unfolding give_up_turn
    give_up_turn-Holds action n m h g = (tt, (refl, g.1), bound, omega (arith, g.2, h))
