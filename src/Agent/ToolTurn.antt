-- ===== src/Agent/ToolTurn.antt =====
-- agent/core.py: the step of `Agent.run` in which the model calls a tool.
use forge_agent.Base.{
  ℕ, ◌+◌, max, String, Bool, true, false, not, ◌&&◌, ◌||◌, Option, none, some, List, [], ◌∷◌, leb,
  str_eq, if◌then◌else◌, concat, join, select, is_in, digits,
}
use forge_agent.Tools.Registry.{ToolResult, or_empty}
use forge_agent.Harness.Exec.{Progress, Outcome, done, canceled, broken}
use forge_agent.Harness.Executor.{execute, runtime_tools}
use forge_agent.Harness.Permission.{one_of, first_match}
use forge_agent.Tools.Registry.{ObservationStatus}
use forge_agent.Agent.Types.{RunStatus, ToolCall, Action, Observation, is_success, to_observation}
use forge_agent.Agent.LoopDetector.{StepRecord, Severity, Signal, reflect, terminate, observe}
use forge_agent.Agent.Memory.{
  AgentConfig, acted, observed, reflected_loop, reflected_test_failed, reflected_no_edit,
  tool_started, tool_failed, tool_finished, trace, observation_made, reflection, loop_detected,
  task_incomplete, Memory, Turn, Stage, returned, went_on, then_on, logged, remembered, cancel,
  infrastructure_failure,
}

abbrev fatal_markers : List String
fatal_markers =
    "duplicate mount point" ∷ "invalid mount config" ∷ "cannot connect to the docker daemon"
    ∷ "docker is not available" ∷ "failed to start container"
    ∷ "permission denied while trying to connect to the docker daemon" ∷ []

-- _detect_known_fatal_infrastructure_error
pub detect_fatal : (String → String) → Observation → Option String
detect_fatal lower o =
    if is_success o || not (one_of runtime_tools o.tool_name)
    then none
    else (let text =
          lower (join "\n" (select (λ s. not (str_eq s "")) (o.output ∷ or_empty o.error ∷ []))) in
        first_match (λ marker. is_in marker text) fatal_markers)

-- What the executor did, its own exceptions and the others told apart.
pub data Execution : Type 0 where
  finished : ToolResult → Execution
  stopped : String → Execution
  failed : String → Execution

abbrev of_outcome : Outcome ToolResult → Execution
of_outcome (done r) = finished r
of_outcome (canceled phase) = stopped phase
of_outcome (broken phase e) = failed (
    concat (
      "Tool lifecycle infrastructure failure: " ∷ phase ∷ " failed: " ∷ e.class_name ∷ ": "
      ∷ e.message ∷ []))

abbrev fresh : Progress
fresh = record { polls = 0; effects = [] }

module _ (cfg : AgentConfig) (t : Turn) (step : ℕ) (action : Action) (tc : ToolCall) where
  pub executed : Execution
  executed = elim t.framework_error [
    | none ↦ of_outcome (execute t.executor tc.name tc.params fresh).0
    | some e ↦
        failed
          (concat ("Tool executor infrastructure failure: " ∷ e.class_name ∷ ": " ∷ e.message ∷ []))
  ]

  abbrev pub is_test : Bool
  is_test = one_of cfg.test_tool_names tc.name

  -- the repository compared with the last step
  unfoldable pub note_repo_state : Memory → Memory
  note_repo_state m =
      if str_eq t.repo_state m.last_repo_state
      then record m { steps_without_edit = m.steps_without_edit + 1 }
      else record m {
        steps_without_edit = 0;
        last_repo_change_step = some step;
        last_repo_state = t.repo_state;
      }

  unfoldable pub note_test : Bool → Memory → Memory
  note_test success m =
      if is_test
      then record m {
        test_attempted = true;
        last_test_passed = some success;
        last_successful_test_step = if success then some step else m.last_successful_test_step;
      }
      else m

  abbrev pub same_key : Option String → String → Bool
  same_key none key = false
  same_key (some k) key = str_eq key k

  unfoldable pub counted : String → Memory → Memory
  counted key m =
      if same_key m.fatal_error_key key
      then record m { fatal_error_count = m.fatal_error_count + 1 }
      else record m { fatal_error_key = some key; fatal_error_count = 1 }

  abbrev pub repeated : String → Memory → Stage (Unit {0})
  repeated key m =
      if leb (max 1 cfg.fatal_tool_error_repeats) m.fatal_error_count
      then infrastructure_failure (concat ("Repeated fatal infrastructure error: " ∷ key ∷ [])) step
          t.patch m
      else went_on tt m

  unfoldable pub on_fatal : Observation → Option String → Memory → Stage (Unit {0})
  unfolding counted
  on_fatal o (some key) m = repeated key (counted key m)
  on_fatal o none m = went_on tt (
      if is_success o && one_of runtime_tools tc.name
      then record m { fatal_error_key = none; fatal_error_count = 0 }
      else m)

  unfoldable pub fatal_stage : Observation → Memory → Stage (Unit {0})
  unfolding detect_fatal on_fatal
  fatal_stage o m = on_fatal o (detect_fatal cfg.lower o) m

  abbrev status_text : ObservationStatus → String
  status_text s = elim s [
    | ObservationStatus.success ↦ "success"
    | ObservationStatus.error ↦ "error"
    | ObservationStatus.timed_out ↦ "timeout"
  ]

  pub step_record : Observation → StepRecord
  step_record o = record {
    action = cfg.fingerprint_action action;
    observation = cfg.fingerprint_observation o;
    repo_state = t.repo_state;
    test_state = if is_test then some (status_text o.status) else none;
  }

  -- the reflections after a step without a loop
  unfoldable pub reflect_stage : Observation → Memory → Stage (Unit {0})
  reflect_stage o m =
      if is_test && not (is_success o)
      then went_on tt (remembered reflected_test_failed (logged (reflection step "test_failed") m))
      else if leb cfg.reflection_no_edit_steps m.steps_without_edit
      then went_on tt
          (record (remembered (reflected_no_edit m.steps_without_edit)
            (logged (reflection step "no_edit") m)) { steps_without_edit = 0 })
      else went_on tt m

  abbrev loop_reason : Signal → String
  loop_reason s = concat (
      "Loop detected again after reflection: period "
      ∷ digits s.period
      ∷ " repeated "
      ∷ digits s.repeats
      ∷ " times without progress"
      ∷ [])

  abbrev pub on_severity : Severity → Signal → Memory → Stage (Unit {0})
  on_severity terminate s m =
      returned
        (record {
          status = RunStatus.incomplete;
          summary = loop_reason s;
          steps_taken = step;
          usage = m.usage;
          patch = none;
          error = none;
          termination_reason = "loop_detected";
          resource_reason = none;
        })
        (logged (task_incomplete step (loop_reason s) "loop_detected") m)
  on_severity reflect s m =
      went_on tt (
        remembered (reflected_loop s.repeats s.period) (logged (reflection step "loop_detected") m))

  unfoldable pub on_signal : Observation → Option Signal → Memory → Stage (Unit {0})
  unfolding reflect_stage
  on_signal o none m = reflect_stage o m
  on_signal o (some s) m = on_severity s.severity s (logged (loop_detected step s) m)

  unfoldable pub loop_stage : Observation → Memory → Stage (Unit {0})
  unfolding step_record on_signal
  loop_stage o m =
      let seen = observe m.detector (step_record o) in
      on_signal o seen.1 (record m { detector = seen.0 })

  abbrev pub poll_after_tool : Memory → Stage (Unit {0})
  poll_after_tool m = if t.canceled_after_tool then cancel step t.patch m else went_on tt m

  -- The memory once the observation is logged, before the poll after the tool.
  unfoldable pub noted : ToolResult → Memory → Memory
  unfolding note_repo_state note_test
  noted r m =
      let o = to_observation r tc.name in
      let m1 = logged (trace (if r.success then tool_finished else tool_failed) step) m in
      logged (observation_made step o) (note_test (is_success o) (note_repo_state m1))

  unfoldable pub after_execution : Execution → Memory → Stage (Unit {0})
  unfolding noted fatal_stage loop_stage
  after_execution (stopped phase) m = cancel step none (logged (trace tool_failed step) m)
  after_execution (failed reason) m =
      infrastructure_failure reason step t.patch (logged (trace tool_failed step) m)
  after_execution (finished r) m =
      let o = to_observation r tc.name in
      then_on (poll_after_tool (noted r m)) (λ _ m2.
        then_on (fatal_stage o m2)
          (λ _ m3. loop_stage o (remembered (observed o) (remembered (acted action) m3))))

  unfoldable pub tool_turn : Memory → Stage (Unit {0})
  unfolding executed after_execution
  tool_turn m =
      if t.canceled_before_tool
      then cancel step none m
      else after_execution executed (logged (trace tool_started step) m)
