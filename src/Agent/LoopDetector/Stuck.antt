-- ===== src/Agent/LoopDetector/Stuck.antt =====
-- An agent that repeats one step with one result is asked to reflect after `repeats` steps, and
-- terminated after `repeats` more.
use mathlib.Core.List.{append-nil}
use forge_agent.Base.{
  ℕ, zero, suc, ◌+◌, ◌-◌, ◌*◌, ◌≤◌, ◌<◌, ◌≡◌, max, refl, ap, subst, sym, ◌∙◌, String, false, Option,
  none, some, List, [], ◌∷◌, ◌++◌, arith, ◌==◌, if◌then◌else◌, length, eq_iff, replicate,
  length-replicate, replicate_snoc,
}
use forge_agent.Agent.LoopDetector.{
  Severity, reflect, terminate, Signal, StepRecord, Detector, hit, push, recorded, conclude, scan,
  observe, observe_all, last, changed, test_changed, or_last, or_minimum, new,
}
use forge_agent.Agent.LoopDetector.Same.{
  scan_short, last_all, judge_same, test_changed_last, test_changed-none, or_last_idem,
}

-- The detector that holds `k` copies of a step, after `o` signals.
module _ (n m c : ℕ) (fits : suc n ≤ c) (r : StepRecord) where
  abbrev holding : Option String → Option String → ℕ → ℕ → Detector
  holding repo tests o k = record {
    repeats = suc n;
    max_period = suc m;
    capacity = c;
    records = replicate k r;
    occurrence = o;
    last_repo_state = repo;
    last_test_state = tests;
  }

  abbrev IsSettled : Option String → Option String → Type 0
  IsSettled repo tests =
      (changed repo r.repo_state ≡ false) × (test_changed tests r.test_state ≡ false)

  push_same : (k : ℕ) → k ≤ n → push c (replicate k r) r ≡ replicate (suc k) r
  unfolding push
  push_same k h = ap (last c) (replicate_snoc k r) ∙ last_all c (suc k) r (omega arith)

  recorded_same :
      (repo tests : Option String) (o k : ℕ)
      → IsSettled repo tests
      → k ≤ n
      → recorded (holding repo tests o k) r
        ≡ holding (some r.repo_state) (or_last r.test_state tests) o (suc k)
  unfolding recorded
  recorded_same repo tests o k s h = ground (arith, s.0, s.1, push_same k h)

  abbrev judged : Detector → Detector × Option Signal
  judged d = conclude d (scan d.repeats d.records d.max_period 1 false)

  observe_via : (d d' : Detector) → recorded d r ≡ d' → observe d r ≡ judged d'
  unfolding observe
  observe_via d d' e = ap judged e

  quiet_step :
      (repo tests : Option String) (o k : ℕ)
      → IsSettled repo tests
      → suc k ≤ n
      → observe (holding repo tests o k) r
        ≡ (holding (some r.repo_state) (or_last r.test_state tests) o (suc k), none)
  unfolding conclude
  quiet_step repo tests o k s h =
      observe_via _ _ (recorded_same repo tests o k s (omega arith))
      ∙ (let few : length (replicate (suc k) r) < suc n =
            omega (arith, length-replicate (suc k) r) in
          rw (scan_short (suc n) (replicate (suc k) r) (suc m) 1 false few (omega arith), conclude))

  abbrev loop_signal : Severity → ℕ → Signal
  loop_signal severity o = record {
    severity = severity;
    period = 1;
    repeats = suc n;
    occurrence = o;
    action_pattern = r.action ∷ [];
  }

  scan_same : scan (suc n) (replicate (suc n) r) (suc m) 1 false ≡ hit 1 (r.action ∷ [])
  unfolding scan
  scan_same = rw (judge_same n r, scan)

  hit_step :
      (repo tests : Option String) (o : ℕ)
      → IsSettled repo tests
      → observe (holding repo tests o n) r ≡ (
        holding (some r.repo_state) (or_last r.test_state tests) (o + 1) 0,
        some (loop_signal (if (o + 1) == 1 then reflect else terminate) (o + 1)),
      )
  unfolding conclude
  hit_step repo tests o s =
      observe_via _ _ (recorded_same repo tests o n s (omega arith))
      ∙ ap (conclude (holding (some r.repo_state) (or_last r.test_state tests) o (suc n))) scan_same

  IsSettled-next :
      (tests : Option String) → IsSettled (some r.repo_state) (or_last r.test_state tests)
  IsSettled-next tests =
      (ground (arith, eq_iff r.repo_state r.repo_state), test_changed_last r.test_state tests)

  -- The signals of `j` quiet steps, of the step that fills the window, and of the steps after it.
  window_run :
      (j k o : ℕ) (repo tests : Option String) (rest : List StepRecord)
      → k + j ≡ n
      → IsSettled repo tests
      → (observe_all (holding repo tests o k) (replicate (suc j) r ++ rest)).1
        ≡ replicate j none
          ++ some (loop_signal (if (o + 1) == 1 then reflect else terminate) (o + 1))
            ∷ (observe_all
                (holding (some r.repo_state) (or_last r.test_state tests) (o + 1) 0)
                rest).1
  unfolding observe_all
  window_run zero k o repo tests rest e s =
      let full : k ≡ n = omega arith in rw full (rw (hit_step repo tests o s, observe_all))
  window_run (suc j) k o repo tests rest e s =
      rw (quiet_step repo tests o k s (omega arith), observe_all)
        (ap (λ (x : List (Option Signal)). none ∷ x)
          (window_run j (suc k) o (some r.repo_state) (or_last r.test_state tests) rest
              (omega arith) (IsSettled-next tests)
            ∙ rw (or_last_idem r.test_state tests)))

  -- Two windows of one step.
  two_windows :
      1 ≤ n
      → (observe_all (holding none none 0 0) (replicate (suc n) r ++ replicate (suc n) r)).1
        ≡ replicate n none
          ++ some (loop_signal reflect 1)
            ∷ (replicate n none ++ some (loop_signal terminate 2) ∷ [])
  unfolding observe_all
  two_windows h =
      window_run n 0 0 none none (replicate (suc n) r) (omega arith)
        (refl, test_changed-none r.test_state)
      ∙ ap (λ x. replicate n none ++ some (loop_signal reflect 1) ∷ x)
          (subst
            (λ xs.
              (observe_all (holding (some r.repo_state) (or_last r.test_state none) 1 0) xs).1
              ≡ replicate n none ++ some (loop_signal terminate 2) ∷ [])
            (append-nil (replicate (suc n) r))
            (window_run n 0 1 (some r.repo_state) (or_last r.test_state none) [] (omega arith)
              (IsSettled-next none)))

-- a new detector, for a window of `suc n`
fresh :
    (repeats n m : ℕ) (capacity : Option ℕ)
    → max 2 repeats ≡ suc n
    → new repeats m capacity ≡ record {
      repeats = suc n;
      max_period = suc (max 1 m - 1);
      capacity = max (suc n * suc (max 1 m - 1)) (or_minimum capacity (suc n * suc (max 1 m - 1)));
      records = [];
      occurrence = 0;
      last_repo_state = none;
      last_test_state = none;
    }
unfolding new
fresh repeats n m capacity two = let one : max 1 m ≡ suc (max 1 m - 1) = omega arith in cc

-- what the two windows give, for a window of `suc n`
abbrev pub two_signals : StepRecord → ℕ → List (Option Signal)
two_signals r n =
    replicate n none
    ++ some (record {
      severity = reflect;
      period = 1;
      repeats = suc n;
      occurrence = 1;
      action_pattern = r.action ∷ [];
    })
      ∷ (replicate n none
          ++ some (record {
            severity = terminate;
            period = 1;
            repeats = suc n;
            occurrence = 2;
            action_pattern = r.action ∷ [];
          })
            ∷ [])

stuck_windows :
    (repeats n m : ℕ) (capacity : Option ℕ) (r : StepRecord)
    → max 2 repeats ≡ suc n
    → (observe_all (new repeats m capacity) (replicate (suc n) r ++ replicate (suc n) r)).1
      ≡ two_signals r n
stuck_windows repeats n m capacity r e =
    let m' : ℕ = max 1 m - 1 in
    let c : ℕ = max (suc n * suc m') (or_minimum capacity (suc n * suc m')) in
    let fits : suc n ≤ c = grind arith in
    let h : 1 ≤ n = omega (arith, e) in
    rw (fresh repeats n m capacity e) (two_windows n m' c fits r h)

-- From a new detector, for every number of repeats that it is given: let w be that number, and 2
-- where it is less. Then w equal steps end in a signal to reflect, and w more in one that
-- terminates; there is no other signal.
pub stuck_run :
    (repeats m : ℕ) (capacity : Option ℕ) (r : StepRecord)
    → (observe_all
        (new repeats m capacity)
        (replicate (max 2 repeats) r ++ replicate (max 2 repeats) r)).1
      ≡ two_signals r (max 2 repeats - 1)
stuck_run repeats m capacity r =
    let e : max 2 repeats ≡ suc (max 2 repeats - 1) = omega arith in
    subst
      (λ w.
        (observe_all (new repeats m capacity) (replicate w r ++ replicate w r)).1
        ≡ two_signals r (max 2 repeats - 1))
      (sym e) (stuck_windows repeats (max 2 repeats - 1) m capacity r e)
