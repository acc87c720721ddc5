-- ===== src/Agent/Core/Stages.antt =====
-- How a property of the stages of a step becomes one of `Agent.run`.
use forge_agent.Base.{ℕ, zero, suc, ◌+◌, ◌≤◌, ◌≡◌, refl, String, arith, subst}
use forge_agent.Agent.Types.{Task, RunResult}
use forge_agent.Agent.Memory.{AgentConfig, Memory, Turn, Stage, returned, went_on, then_on}
use forge_agent.Agent.Core.{start, turn, run_from, run, exhausted}

-- `P` holds of the memory where the stage goes on, `Q` of what it returns.
abbrev pub Holds :
    {A : Type 0} → (Memory → Type 0) → (RunResult → Memory → Type 0) → Stage A → Type 0
Holds P Q (returned r m) = Q r m
Holds P Q (went_on a m) = P m

pub then_on-Holds :
    {A B : Type 0} (P R : Memory → Type 0) (Q : RunResult → Memory → Type 0) (s : Stage A)
    (f : A → Memory → Stage B)
    → Holds P Q s
    → ((a : A) (m : Memory) → P m → Holds R Q (f a m))
    → Holds R Q (then_on s f)
then_on-Holds P R Q (returned r m) f h g = h
then_on-Holds P R Q (went_on a m) f h g = g a m h

module _ (cfg : AgentConfig) (task : Task) (initial : String) (turns : ℕ → Turn)
    (P : ℕ → Memory → Type 0) (Q : RunResult → Memory → Type 0) where
  run_from-Holds :
      (n step : ℕ) (m : Memory)
      → n + step ≡ task.max_steps + 1
      → P step m
      → ((k : ℕ) (m' : Memory)
          → k ≤ task.max_steps
          → P k m'
          → Holds (P (k + 1)) Q (turn cfg task initial (turns k) k m'))
      → ((m' : Memory) → P (task.max_steps + 1) m' → Q (exhausted task m').0 (exhausted task m').1)
      → Q (run_from cfg task initial turns n step m).0 (run_from cfg task initial turns n step m).1
  unfolding run_from
  run_from-Holds zero step m e p h stop = stop m (subst (λ k. P k m) (omega (arith, e)) p)
  run_from-Holds (suc n) step m e p h stop =
      go (turn cfg task initial (turns step) step m) (h step m (omega (arith, e)) p)
        (λ m' p'. run_from-Holds n (step + 1) m' (omega (arith, e)) p' h stop)
    where
      go :
          (s : Stage (Unit {0}))
          → Holds (P (step + 1)) Q s
          → ((m' : Memory)
              → P (step + 1) m'
              → Q
                  (run_from cfg task initial turns n (step + 1) m').0
                  (run_from cfg task initial turns n (step + 1) m').1)
          → (let c = (elim s as (λ _. RunResult × Memory) [
            | returned r m' ↦ (r, m')
            | went_on u m' ↦ run_from cfg task initial turns n (step + 1) m'
          ]) in
              Q c.0 c.1)
      go (returned r m') q ih = q
      go (went_on u m') q ih = ih m' q

  -- the rule for the loop: `P` before each step, `Q` at the end
  pub run-Holds :
      P 1 (start cfg initial)
      → ((k : ℕ) (m' : Memory)
          → k ≤ task.max_steps
          → P k m'
          → Holds (P (k + 1)) Q (turn cfg task initial (turns k) k m'))
      → ((m' : Memory) → P (task.max_steps + 1) m' → Q (exhausted task m').0 (exhausted task m').1)
      → Q (run cfg task initial turns).0 (run cfg task initial turns).1
  unfolding run
  run-Holds p h stop = run_from-Holds task.max_steps 1 (start cfg initial) refl p h stop
