-- ===== src/Agent/Core/Verified.antt =====
-- What the result of `Agent.run` guarantees.
use forge_agent.Base.{ℕ, ◌≤◌, ◌≡◌, String, subst}
use forge_agent.Agent.Types.{RunStatus, Task}
use forge_agent.Agent.Memory.{AgentConfig, Turn}
use forge_agent.Agent.Core.{run}
use forge_agent.Agent.Core.Evidence.{observations}
use forge_agent.Agent.Core.Invariant.{Ended, Verified, Completed}
use forge_agent.Agent.Core.Rounds.{run-Final}

module _ (cfg : AgentConfig) (task : Task) (initial : String) (turns : ℕ → Turn) where
  -- If a run succeeds, then by its log and the repository at its last step: the repository differs
  -- from the initial one if the task requires changes, a test was run if the task requires tests,
  -- and if any test was run, the newest test passed and no step changed the repository without a
  -- successful test in the step or after it.
  pub success-Completed :
      (run cfg task initial turns).0.status ≡ RunStatus.success
      → Completed cfg task initial turns
          (run cfg task initial turns).0.steps_taken
          (observations (run cfg task initial turns).1.log)
  success-Completed h =
      subst
        (λ s.
          Verified cfg task initial turns s (run cfg task initial turns).0.steps_taken
            (run cfg task initial turns).1)
        h (run-Final cfg task initial turns).0

  -- Every run ends with one closing event, which is the newest of its log and fits its status.
  pub run-Ended : Ended (run cfg task initial turns).0.status (run cfg task initial turns).1.log
  run-Ended = (run-Final cfg task initial turns).1

  -- A run takes at most `max_steps` steps and gets at most as many answers of the model.
  pub run-le :
      ((run cfg task initial turns).0.steps_taken ≤ task.max_steps)
      × ((run cfg task initial turns).0.usage.llm_calls ≤ task.max_steps)
  run-le = ((run-Final cfg task initial turns).2, (run-Final cfg task initial turns).3)
