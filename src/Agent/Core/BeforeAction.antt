-- ===== src/Agent/Core/BeforeAction.antt =====
-- The stages of a step before the action: preparation and the call of the model.
use forge_agent.Base.{
  ℕ, ◌+◌, ◌<◌, ◌≤◌, refl, String, Bool, true, false, Option, none, some, List, ◌∷◌, arith, ◌==◌,
  Result, ok, err, Exn, subst, sym, ◌∙◌,
}
use forge_agent.Llm.Usage.{recorded-llm_calls}
use forge_agent.Agent.Types.{Task, Response}
use forge_agent.Agent.Retry.{call_with_retry}
use forge_agent.Agent.Memory.{AgentConfig, trace, llm_started, Entry, Memory, Preparation, Turn}
use forge_agent.Agent.Core.{prepared, prepare_with, prepare_stage, answer, model_stage}
use forge_agent.Agent.Core.Stages.{Holds}
use forge_agent.Agent.Core.Evidence.{AgreesWith}
use forge_agent.Agent.Core.Invariant.{if-Holds, retries-observations, retries-ends, Good, Final}

module _ (cfg : AgentConfig) (task : Task) (initial : String) (turns : ℕ → Turn) where
  module _ (step : ℕ) (bound : step ≤ task.max_steps) where
    abbrev t : Turn
    t = turns step

    prepared-Holds :
        (n : ℕ) (b : Bool) (o : Result Exn (List Entry)) (m : Memory)
        → n ≤ task.max_steps
        → Good cfg task initial turns step n m
        → Holds
            (Good cfg task initial turns step n)
            (Final cfg task initial turns)
            (prepared cfg task initial t step b o m)
    unfolding prepared
    prepared-Holds n b (err e) m h (g, z, k) =
        (tt, (refl, z), omega (arith, bound), omega (arith, k, h))
    prepared-Holds n true (ok es) m h (g, z, k) =
        (tt, (refl, z), omega (arith, bound), omega (arith, k, h))
    prepared-Holds n false (ok es) m h (g, z, k) = (g, z, k)

    prepare_with-Holds :
        (n : ℕ) (o : Option Preparation) (m : Memory)
        → n ≤ task.max_steps
        → Good cfg task initial turns step n m
        → Holds
            (Good cfg task initial turns step n)
            (Final cfg task initial turns)
            (prepare_with cfg task initial t step o m)
    unfolding prepare_with
    prepare_with-Holds n none m h g = g
    prepare_with-Holds n (some p) m h g =
        if-Holds (Good cfg task initial turns step n) (Final cfg task initial turns)
          p.canceled_before _ _ (tt, (refl, g.1), omega (arith, bound), omega (arith, g.2, h))
          (prepared-Holds n p.canceled_after p.outcome _ h g)

    pub prepare_stage-Holds :
        (n : ℕ) (m : Memory)
        → n ≤ task.max_steps
        → Good cfg task initial turns step n m
        → Holds
            (Good cfg task initial turns step n)
            (Final cfg task initial turns)
            (prepare_stage cfg task initial t step m)
    unfolding prepare_stage
    prepare_stage-Holds n m h g =
        if-Holds (Good cfg task initial turns step n) (Final cfg task initial turns) (step == 1) _ _
          g (prepare_with-Holds n t.preparation m h g)

    answer-Holds :
        (n : ℕ) (o : Result Exn Response) (m : Memory)
        → n < task.max_steps
        → Good cfg task initial turns step n m
        → Holds
            (Good cfg task initial turns step (n + 1))
            (Final cfg task initial turns)
            (answer cfg task initial t step o m)
    unfolding answer
    answer-Holds n (err e) m h (g, z, k) =
        if-Holds (Good cfg task initial turns step (n + 1)) (Final cfg task initial turns)
          t.canceled_on_failure _ _ (tt, (refl, z), omega (arith, bound), omega (arith, k, h))
          (tt, (refl, z), omega (arith, bound), omega (arith, k, h))
    answer-Holds n (ok r) m h (g, z, k) =
        if-Holds (Good cfg task initial turns step (n + 1)) (Final cfg task initial turns)
          t.canceled_after_model _ _
          (
            tt,
            (refl, z),
            omega (arith, bound),
            omega (arith, k, h, recorded-llm_calls m.usage r.usage),
          )
          (g, z, omega (arith, k, h, recorded-llm_calls m.usage r.usage))

    pub model_stage-Holds :
        (n : ℕ) (m : Memory)
        → n < task.max_steps
        → Good cfg task initial turns step n m
        → Holds
            (Good cfg task initial turns step (n + 1))
            (Final cfg task initial turns)
            (model_stage cfg task initial t step m)
    unfolding model_stage
    model_stage-Holds n m h (g, z, k) = answer-Holds n _ _ h (
      subst (λ os. AgreesWith cfg initial turns step os m)
          (sym (
            retries-observations step (call_with_retry cfg.retry t.tries).delays
              (trace llm_started step ∷ m.log)))
          g,
      retries-ends step (call_with_retry cfg.retry t.tries).delays (trace llm_started step ∷ m.log)
          ∙ z,
      k,
    )
