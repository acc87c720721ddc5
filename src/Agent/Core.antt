-- ===== src/Agent/Core.antt =====
-- agent/core.py: `Agent.run`, the loop over the steps. The answers of the outside come as a function
-- from the step. The repository map and the text of the messages are not part of the model.
pub mod Stages
pub mod Evidence
pub mod Invariant
pub mod BeforeAction
pub mod Finishing
pub mod ToolSteps
pub mod Rounds
pub mod Verified
mod Examples
use forge_agent.Base.{
  ℕ, zero, suc, ◌+◌, ◌-◌, String, Bool, true, false, not, ◌&&◌, ◌||◌, Option, none, some, List, [],
  ◌∷◌, ◌++◌, leb, ltb, if◌then◌else◌, concat, digits, Result, ok, err, Exn, map, ◌==◌,
}
use forge_agent.Llm.Usage.{unused}
use forge_agent.Llm.Usage as Usage
use forge_agent.Agent.Types.{
  RunStatus, ActionType, tool_call, reflection, finish, give_up, Task, ToolCall, Action, Response,
  RunResult,
}
use forge_agent.Agent.LoopDetector.{new}
use forge_agent.Agent.Retry.{Called, call_with_retry}
use forge_agent.Agent.Memory.{
  AgentConfig, Entry, thought, TraceKind, prepare_started, prepare_failed, prepare_finished,
  llm_started, llm_retry, llm_failed, llm_finished, LogEvent, task_start, trace, action_taken,
  task_incomplete, task_failed, Memory, Preparation, Turn, Stage, returned, went_on, then_on,
  logged, remembered, cancel, failing, infrastructure_failure,
}
use forge_agent.Agent.Completion.{finish_turn, give_up_turn}
use forge_agent.Agent.ToolTurn.{tool_turn}

abbrev pub start : AgentConfig → String → Memory
start cfg initial = record {
  usage = unused;
  steps_without_edit = 0;
  detector = new cfg.loop_detection_window cfg.loop_detection_max_period none;
  test_attempted = false;
  last_test_passed = none;
  last_successful_test_step = none;
  last_repo_state = initial;
  last_repo_change_step = none;
  fatal_error_key = none;
  fatal_error_count = 0;
  history = [];
  log = task_start ∷ [];
}

module _ (cfg : AgentConfig) (task : Task) (initial : String) (t : Turn) (step : ℕ) where
  -- history.add_many
  abbrev pub given_all : List Entry → Memory → Memory
  given_all es m = record m { history = m.history ++ es }

  prepared : Bool → Result Exn (List Entry) → Memory → Stage (Unit {0})
  prepared canceled (err e) m =
      infrastructure_failure
        (concat ("prepare_next_turn failed: " ∷ e.class_name ∷ ": " ∷ e.message ∷ [])) (step - 1)
        none (logged (trace prepare_failed step) m)
  prepared canceled (ok es) m =
      let m1 = logged (trace prepare_finished step) m in
      if canceled then cancel (step - 1) none m1 else went_on tt (given_all es m1)

  prepare_with : Option Preparation → Memory → Stage (Unit {0})
  unfolding prepared
  prepare_with none m = went_on tt m
  prepare_with (some p) m =
      if p.canceled_before
      then cancel (step - 1) none m
      else prepared p.canceled_after p.outcome (logged (trace prepare_started step) m)

  -- _prepare_next_turn, which is called from the second step on
  pub prepare_stage : Memory → Stage (Unit {0})
  unfolding prepare_with
  prepare_stage m = if step == 1 then went_on tt m else prepare_with t.preparation m

  -- one line for each retry, the newest first
  abbrev pub retries_logged : Called → Memory → Memory
  retries_logged c m = record m { log = map (λ _. trace llm_retry step) c.delays ++ m.log }

  abbrev model_failed : Exn → Memory → Stage Response
  model_failed e m =
      let m1 = logged (trace llm_failed step) m in
      if t.canceled_on_failure
      then cancel step none m1
      else returned
          (record {
            status = RunStatus.failed;
            summary = concat ("LLM call failed: " ∷ e.message ∷ []);
            steps_taken = step;
            usage = m1.usage;
            patch = none;
            error = some e.message;
            termination_reason = "provider_error";
            resource_reason = none;
          })
          (logged (task_failed step (concat ("LLM error: " ∷ e.message ∷ []))) m1)

  abbrev model_answered : Response → Memory → Stage Response
  model_answered r m =
      let m1 = logged (trace llm_finished step) m in
      let m2 = record m1 { usage = Usage.recorded m1.usage r.usage } in
      if t.canceled_after_model then cancel step none m2 else went_on r m2

  answer : Result Exn Response → Memory → Stage Response
  answer (err e) m = model_failed e m
  answer (ok r) m = model_answered r m

  pub model_stage : Memory → Stage Response
  unfolding answer
  model_stage m =
      let called = call_with_retry cfg.retry t.tries in
      answer called.outcome (retries_logged called (logged (trace llm_started step) m))

  act_as : ActionType → Option ToolCall → Action → Memory → Stage (Unit {0})
  act_as finish tc a m = finish_turn task initial t step a m
  act_as give_up tc a m = give_up_turn task initial t step a m
  act_as tool_call (some tc) a m = tool_turn cfg t step a tc m
  act_as tool_call none a m = went_on tt m
  act_as reflection tc a m = went_on tt (remembered (thought a.thought) m)

  -- a tool call without a tool changes nothing
  pub act : Action → Memory → Stage (Unit {0})
  unfolding act_as
  act a m = act_as a.action_type a.tool_call a m

  pub turn : Memory → Stage (Unit {0})
  unfolding prepare_stage model_stage act
  turn m =
      if t.canceled_at_start
      then cancel (step - 1) none m
      else then_on (prepare_stage m) (λ _ m1.
        then_on (model_stage m1) (λ r m2. act r.action (logged (action_taken step r.action) m2)))

abbrev pub exhausted : Task → Memory → RunResult × Memory
exhausted task m =
    let reason = concat ("Reached max_steps limit (" ∷ digits task.max_steps ∷ ")" ∷ []) in
    (
      record {
        status = RunStatus.incomplete;
        summary = reason;
        steps_taken = task.max_steps;
        usage = m.usage;
        patch = none;
        error = none;
        termination_reason = "resource_exhausted";
        resource_reason = some "max_steps";
      },
      logged (task_incomplete task.max_steps reason "resource_exhausted") m,
    )

module _ (cfg : AgentConfig) (task : Task) (initial : String) (turns : ℕ → Turn) where
  -- for step in range(step, task.max_steps + 1), `n` steps left
  pub run_from : ℕ → ℕ → Memory → RunResult × Memory
  unfolding turn
  run_from zero step m = exhausted task m
  run_from (suc n) step m = elim (turn cfg task initial (turns step) step m) [
    | returned r m' ↦ (r, m')
    | went_on u m' ↦ run_from n (step + 1) m'
  ]

  pub run : RunResult × Memory
  unfolding run_from
  run = run_from task.max_steps 1 (start cfg initial)
