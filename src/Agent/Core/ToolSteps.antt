-- ===== src/Agent/Core/ToolSteps.antt =====
-- The action that calls a tool.
use forge_agent.Base.{
  ℕ, ◌+◌, ◌≤◌, ◌≡◌, refl, String, Bool, true, false, not, ◌&&◌, Option, none, some, if◌then◌else◌,
  arith, max, leb, any, subst, sym, ◌∙◌,
}
use forge_agent.Tools.Registry.{ToolResult}
use forge_agent.Harness.Executor.{runtime_tools}
use forge_agent.Harness.Permission.{one_of}
use forge_agent.Agent.Types.{Task, Observation, ToolCall, Action, is_success, to_observation}
use forge_agent.Agent.LoopDetector.{terminate, reflect, Severity, Signal}
use forge_agent.Agent.Memory.{AgentConfig, loop_detected, Memory, Turn, logged}
use forge_agent.Agent.ToolTurn.{
  Execution, executed, noted, fatal_stage, on_fatal, counted, detect_fatal, loop_stage, on_severity,
  note_test, note_repo_state, on_signal, reflect_stage, after_execution, tool_turn, poll_after_tool,
  same_key,
}
use forge_agent.Agent.Core.Stages.{Holds, then_on-Holds}
use forge_agent.Agent.Core.Evidence.{noted-Agrees}
use forge_agent.Agent.Core.Invariant.{is_end, if-Holds, Good, Final}

module _ (cfg : AgentConfig) (task : Task) (initial : String) (turns : ℕ → Turn) where
  module _ (step : ℕ) (bound : step ≤ task.max_steps) where
    abbrev t : Turn
    t = turns step

    module _ (action : Action) (tc : ToolCall) (n : ℕ) (few : n ≤ task.max_steps) where
      note-usage : (m : Memory) (r : ToolResult) → (noted cfg t step action tc r m).usage ≡ m.usage
      unfolding noted note_test note_repo_state
      note-usage m r = ground arith

      note-ends :
          (m : Memory) (r : ToolResult)
          → any is_end (noted cfg t step action tc r m).log ≡ any is_end m.log
      unfolding noted note_test note_repo_state
      note-ends m r = ground arith

      noted-Good :
          (m : Memory) (r : ToolResult)
          → Good cfg task initial turns step n m
          → Good cfg task initial turns (step + 1) n (noted cfg t step action tc r m)
      noted-Good m r (g, z, k) = (
        noted-Agrees cfg initial turns step action tc r m g,
        note-ends m r ∙ z,
        subst (λ u. u.llm_calls ≤ n) (sym (note-usage m r)) k,
      )

      poll_after_tool-Holds :
          (m : Memory)
          → Good cfg task initial turns (step + 1) n m
          → Holds
              (Good cfg task initial turns (step + 1) n)
              (Final cfg task initial turns)
              (poll_after_tool cfg t step action tc m)
      poll_after_tool-Holds m (g, z, k) =
          if-Holds (Good cfg task initial turns (step + 1) n) (Final cfg task initial turns)
            t.canceled_after_tool _ _ (tt, (refl, z), bound, omega (arith, k, few)) (g, z, k)

      if-Good :
          (b : Bool) (x y : Memory)
          → Good cfg task initial turns (step + 1) n x
          → Good cfg task initial turns (step + 1) n y
          → Good cfg task initial turns (step + 1) n (if b then x else y)
      if-Good true x y h k = h
      if-Good false x y h k = k

      counted-Good :
          (key : String) (m : Memory)
          → Good cfg task initial turns (step + 1) n m
          → Good cfg task initial turns (step + 1) n (counted cfg t step action tc key m)
      unfolding counted
      counted-Good key m g = if-Good (same_key cfg t step action tc m.fatal_error_key key) _ _ g g

      on_fatal-Holds :
          (o : Observation) (key : Option String) (m : Memory)
          → Good cfg task initial turns (step + 1) n m
          → Holds
              (Good cfg task initial turns (step + 1) n)
              (Final cfg task initial turns)
              (on_fatal cfg t step action tc o key m)
      unfolding on_fatal
      on_fatal-Holds o (some key) m g =
          let g' = counted-Good key m g in
          if-Holds (Good cfg task initial turns (step + 1) n) (Final cfg task initial turns)
            (leb (max 1 cfg.fatal_tool_error_repeats)
              (counted cfg t step action tc key m).fatal_error_count)
            _ _ (tt, (refl, g'.1), bound, omega (arith, g'.2, few)) g'
      on_fatal-Holds o none m g = if-Good (is_success o && one_of runtime_tools tc.name) _ _ g g

      fatal_stage-Holds :
          (o : Observation) (m : Memory)
          → Good cfg task initial turns (step + 1) n m
          → Holds
              (Good cfg task initial turns (step + 1) n)
              (Final cfg task initial turns)
              (fatal_stage cfg t step action tc o m)
      unfolding fatal_stage
      fatal_stage-Holds o m g = on_fatal-Holds o (detect_fatal cfg.lower o) m g

      reflect_stage-Holds :
          (o : Observation) (m : Memory)
          → Good cfg task initial turns (step + 1) n m
          → Holds
              (Good cfg task initial turns (step + 1) n)
              (Final cfg task initial turns)
              (reflect_stage cfg t step action tc o m)
      unfolding reflect_stage
      reflect_stage-Holds o m g =
          if-Holds (Good cfg task initial turns (step + 1) n) (Final cfg task initial turns)
            (one_of cfg.test_tool_names tc.name && not (is_success o)) _ _ g
            (if-Holds (Good cfg task initial turns (step + 1) n) (Final cfg task initial turns)
              (leb cfg.reflection_no_edit_steps m.steps_without_edit) _ _ g g)

      on_severity-Holds :
          (v : Severity) (s : Signal) (m : Memory)
          → Good cfg task initial turns (step + 1) n m
          → Holds
              (Good cfg task initial turns (step + 1) n)
              (Final cfg task initial turns)
              (on_severity cfg t step action tc v s m)
      on_severity-Holds terminate s m g = (tt, (refl, g.1), bound, omega (arith, g.2, few))
      on_severity-Holds reflect s m g = g

      on_signal-Holds :
          (o : Observation) (s : Option Signal) (m : Memory)
          → Good cfg task initial turns (step + 1) n m
          → Holds
              (Good cfg task initial turns (step + 1) n)
              (Final cfg task initial turns)
              (on_signal cfg t step action tc o s m)
      unfolding on_signal
      on_signal-Holds o none m g = reflect_stage-Holds o m g
      on_signal-Holds o (some s) m g =
          on_severity-Holds s.severity s (logged (loop_detected step s) m) g

      loop_stage-Holds :
          (o : Observation) (m : Memory)
          → Good cfg task initial turns (step + 1) n m
          → Holds
              (Good cfg task initial turns (step + 1) n)
              (Final cfg task initial turns)
              (loop_stage cfg t step action tc o m)
      unfolding loop_stage
      loop_stage-Holds o m g = on_signal-Holds o _ _ g

      after_execution-Holds :
          (e : Execution) (m : Memory)
          → Good cfg task initial turns step n m
          → Holds
              (Good cfg task initial turns (step + 1) n)
              (Final cfg task initial turns)
              (after_execution cfg t step action tc e m)
      unfolding after_execution
      after_execution-Holds (Execution.stopped phase) m g =
          (tt, (refl, g.1), bound, omega (arith, g.2, few))
      after_execution-Holds (Execution.failed reason) m g =
          (tt, (refl, g.1), bound, omega (arith, g.2, few))
      after_execution-Holds (Execution.finished r) m g =
          then_on-Holds (Good cfg task initial turns (step + 1) n)
            (Good cfg task initial turns (step + 1) n) (Final cfg task initial turns) _ _
            (poll_after_tool-Holds _ (noted-Good m r g))
            (λ _ m2 g2.
              then_on-Holds (Good cfg task initial turns (step + 1) n)
                (Good cfg task initial turns (step + 1) n) (Final cfg task initial turns) _ _
                (fatal_stage-Holds (to_observation r tc.name) m2 g2)
                (λ _ m3 g3. loop_stage-Holds (to_observation r tc.name) _ g3))

      pub tool_turn-Holds :
          (m : Memory)
          → Good cfg task initial turns step n m
          → Holds
              (Good cfg task initial turns (step + 1) n)
              (Final cfg task initial turns)
              (tool_turn cfg t step action tc m)
      unfolding tool_turn
      tool_turn-Holds m g =
          if-Holds (Good cfg task initial turns (step + 1) n) (Final cfg task initial turns)
            t.canceled_before_tool _ _ (tt, (refl, g.1), bound, omega (arith, g.2, few))
            (after_execution-Holds (executed cfg t step action tc) _ g)
