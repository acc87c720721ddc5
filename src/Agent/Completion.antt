-- ===== src/Agent/Completion.antt =====
-- agent/core.py: the guard of `Agent.run` on a finish, and the step in which the model finishes or
-- gives up.
use forge_agent.Base.{
  ℕ, String, Bool, true, false, not, ◌&&◌, Option, none, some, [], ◌∷◌, ltb, str_eq, if◌then◌else◌,
  concat,
}
use forge_agent.Agent.Types.{RunStatus, Task, Action}
use forge_agent.Agent.Memory.{
  Rejection, repository_unchanged, required_test_missing, latest_test_failed,
  final_state_unverified, acted, rejected, completion_rejected, task_complete, Memory, Turn, Stage,
  returned, went_on, logged, remembered, failing, infrastructure_failure,
}

abbrev pub passed : Option Bool → Bool
passed (some true) = true
passed _ = false

-- Whether the last change of the repository came after the last successful test.
abbrev pub outdated : Option ℕ → Option ℕ → Bool
outdated none tested = false
outdated (some changed) none = true
outdated (some changed) (some tested) = ltb tested changed

-- The guard, in the order of the source; `none` accepts the finish.
unfoldable pub rejection : Task → String → String → Memory → Option Rejection
rejection task initial final m =
    if task.require_changes && str_eq final initial
    then some repository_unchanged
    else if task.require_tests && not m.test_attempted
    then some required_test_missing
    else if m.test_attempted && not (passed m.last_test_passed)
    then some latest_test_failed
    else if m.test_attempted && outdated m.last_repo_change_step m.last_successful_test_step
    then some final_state_unverified
    else none

-- `text or default`
abbrev pub or_text : Option String → String → String
or_text none d = d
or_text (some s) d = if str_eq s "" then d else s

module _ (task : Task) (initial : String) (t : Turn) (step : ℕ) (action : Action) where
  unfoldable pub complete : Memory → Stage (Unit {0})
  complete m =
      let summary = or_text action.message "Task complete." in
      returned
        (record {
          status = RunStatus.success;
          summary = summary;
          steps_taken = step;
          usage = m.usage;
          patch = t.patch;
          error = none;
          termination_reason = "completion_satisfied";
          resource_reason = none;
        })
        (logged (task_complete step summary) m)

  unfoldable pub judged : Option Rejection → Memory → Stage (Unit {0})
  unfolding complete
  judged none m = complete m
  judged (some r) m =
      went_on tt (
        remembered (rejected r) (remembered (acted action) (logged (completion_rejected step r) m)))

  unfoldable pub unless_fatal : Option String → Memory → Stage (Unit {0})
  unfolding judged rejection
  unless_fatal (some key) m =
      infrastructure_failure (concat ("Unresolved fatal infrastructure error: " ∷ key ∷ [])) step
        t.patch m
  unless_fatal none m = judged (rejection task initial t.final_repo_state m) m

  unfoldable pub finish_turn : Memory → Stage (Unit {0})
  unfolding unless_fatal
  finish_turn m = unless_fatal m.fatal_error_key m

  unfoldable pub give_up_turn : Memory → Stage (Unit {0})
  give_up_turn m =
      failing RunStatus.gave_up (or_text action.message "Agent gave up.") "agent_gave_up" step none
        none m
