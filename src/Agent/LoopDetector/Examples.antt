-- ===== src/Agent/LoopDetector/Examples.antt =====
-- Runs of `LoopDetector` and uses of its theorems.
use forge_agent.Base.{
  ◌≤◌, ◌<◌, ◌≡◌, refl, none, some, List, [], ◌∷◌, ◌++◌, arith, replicate, String, eq_iff, ◌≢◌,
}
use forge_agent.Agent.LoopDetector.{
  reflect, Signal, StepRecord, Detector, new, recorded, observe, observe_all, scan, judge,
}
use forge_agent.Agent.LoopDetector.Signals.{
  progress-ne-terminate, first_signal, after, repo_progress,
}
use forge_agent.Agent.LoopDetector.Windows.{IsLoop, observe_sound}
use forge_agent.Agent.LoopDetector.Stuck.{stuck_run, two_signals}

abbrev read_file : StepRecord
read_file = record { action = "read"; observation = "text"; repo_state = "r0"; test_state = none }

abbrev run_tests : StepRecord
run_tests = record {
  action = "test";
  observation = "failed";
  repo_state = "r0";
  test_state = some "error";
}

abbrev edit : StepRecord
edit = record { action = "read"; observation = "text"; repo_state = "r1"; test_state = none }

abbrev two_periods : List StepRecord
two_periods = read_file ∷ run_tests ∷ read_file ∷ run_tests ∷ read_file ∷ []

abbrev waiting : Detector
waiting = (observe_all (new 3 3 none) two_periods).0

abbrev alternating : Signal
alternating = record {
  severity = reflect;
  period = 2;
  repeats = 3;
  occurrence = 1;
  action_pattern = "read" ∷ "test" ∷ [];
}

waiting_signals : (observe waiting run_tests).1 ≡ some alternating
unfolding observe_all observe new scan judge
waiting_signals = refl

waiting_repeats : waiting.repeats ≡ 3
unfolding observe_all observe new scan judge
waiting_repeats = refl

observe_sound_example :
    IsLoop waiting.repeats 2 ("read" ∷ "test" ∷ []) (recorded waiting run_tests).records
    × (0 < 2)
    × (2 ≤ waiting.max_period)
observe_sound_example =
    observe_sound waiting run_tests alternating (omega (arith, waiting_repeats)) waiting_signals

first_signals :
    first_signal (observe_all (new 3 3 none) (two_periods ++ run_tests ∷ [])).1 ≡ some alternating
unfolding observe_all observe new scan judge
first_signals = refl

stuck_run_example :
    (observe_all (new 1 3 none) (replicate 2 read_file ++ replicate 2 read_file)).1
    ≡ two_signals read_file 1
stuck_run_example = stuck_run 1 3 none read_file

-- an agent that edits a file and reverts it
abbrev revert : StepRecord
revert = record { action = "undo"; observation = "text"; repo_state = "r0"; test_state = none }

abbrev flips : List StepRecord
flips = revert ∷ edit ∷ revert ∷ []

abbrev flipping : Detector
flipping = after (new 2 2 none) flips

abbrev flip : Signal
flip = record {
  severity = reflect;
  period = 2;
  repeats = 2;
  occurrence = 1;
  action_pattern = "undo" ∷ "read" ∷ [];
}

flipping_signals : (observe flipping edit).1 ≡ some flip
unfolding observe_all observe new scan judge
flipping_signals = refl

other_state : ◌≢◌ {A = String} "r0" "r1"
other_state e = absurd (ground (arith, e, eq_iff "r0" "r1"))

progress-ne-terminate_example : (flip.severity ≡ reflect) × (flip.occurrence ≡ 1)
progress-ne-terminate_example =
    progress-ne-terminate (new 2 2 none) flips edit flip
      (repo_progress (revert ∷ edit ∷ []) revert refl other_state) flipping_signals
