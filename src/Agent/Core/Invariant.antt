-- ===== src/Agent/Core/Invariant.antt =====
-- What holds before each step of `Agent.run` and at its end.
use forge_agent.Base.{
  ℕ, ◌+◌, ◌≤◌, ◌≡◌, refl, String, Bool, true, false, not, ◌&&◌, List, [], ◌∷◌, ◌++◌, str_eq,
  if◌then◌else◌, any, map,
}
use forge_agent.Agent.Types.{RunStatus, RunResult, Task, Observation}
use forge_agent.Agent.Memory.{
  AgentConfig, LogEvent, trace, llm_retry, task_complete, task_failed, task_incomplete, Memory,
  Turn, Stage,
}
use forge_agent.Agent.Completion.{passed}
use forge_agent.Agent.Core.Stages.{Holds}
use forge_agent.Agent.Core.Evidence.{
  observations, tested, latest_test, unverified, Agrees, Before-suc,
}

abbrev pub is_end : LogEvent → Bool
is_end (task_complete k s) = true
is_end (task_failed k s) = true
is_end (task_incomplete k s r) = true
is_end _ = false

-- The event that closes a run of this status.
abbrev pub closes : RunStatus → LogEvent → Bool
closes RunStatus.success (task_complete k s) = true
closes RunStatus.incomplete (task_incomplete k s r) = true
closes RunStatus.failed (task_failed k s) = true
closes RunStatus.gave_up (task_failed k s) = true
closes RunStatus.canceled (task_failed k s) = true
closes _ _ = false

-- The newest event closes the run, and no older one does.
abbrev pub Ended : RunStatus → List LogEvent → Type 0
Ended s [] = ⊥
Ended s (e ∷ es) = (closes s e ≡ true) × (any is_end es ≡ false)

pub if-Holds :
    {A : Type 0} (P : Memory → Type 0) (Q : RunResult → Memory → Type 0) (b : Bool) (x y : Stage A)
    → Holds P Q x
    → Holds P Q y
    → Holds P Q (if b then x else y)
if-Holds P Q true x y h k = h
if-Holds P Q false x y h k = k

pub retries-observations :
    (step : ℕ) (ds : List ℕ) (es : List LogEvent)
    → observations (map (λ _. trace llm_retry step) ds ++ es) ≡ observations es
retries-observations step [] es = refl
retries-observations step (d ∷ ds) es = retries-observations step ds es

pub retries-ends :
    (step : ℕ) (ds : List ℕ) (es : List LogEvent)
    → any is_end (map (λ _. trace llm_retry step) ds ++ es) ≡ any is_end es
retries-ends step [] es = refl
retries-ends step (d ∷ ds) es = retries-ends step ds es

module _ (cfg : AgentConfig) (task : Task) (initial : String) (turns : ℕ → Turn) where
  -- The requirements of the task, as the log and the repository show them.
  abbrev pub Completed : ℕ → List (ℕ × Observation) → Type 0
  Completed step os =
      ((task.require_changes && str_eq (turns step).final_repo_state initial) ≡ false)
      × ((task.require_tests && not (tested cfg initial turns os)) ≡ false)
      × ((tested cfg initial turns os && not (passed (latest_test cfg initial turns os))) ≡ false)
      × ((tested cfg initial turns os && unverified cfg initial turns os) ≡ false)

  abbrev pub Verified : RunStatus → ℕ → Memory → Type 0
  Verified RunStatus.success step m = Completed step (observations m.log)
  Verified _ step m = Unit

  -- before a step, after `n` calls of the model
  abbrev pub Good : ℕ → ℕ → Memory → Type 0
  Good step n m =
      Agrees cfg initial turns step m × (any is_end m.log ≡ false) × (m.usage.llm_calls ≤ n)

  abbrev pub Final : RunResult → Memory → Type 0
  Final r m =
      Verified r.status r.steps_taken m
      × Ended r.status m.log
      × (r.steps_taken ≤ task.max_steps)
      × (r.usage.llm_calls ≤ task.max_steps)

  pub Good-suc : (step n : ℕ) (m : Memory) → Good step n m → Good (step + 1) n m
  Good-suc step n m ((s, a, l, u, c, p), e, k) = (
    (s, a, l, u, Before-suc cfg initial turns step _ c, Before-suc cfg initial turns step _ p),
    e,
    k,
  )
