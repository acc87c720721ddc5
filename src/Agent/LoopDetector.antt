-- ===== src/Agent/LoopDetector.antt =====
-- agent/loop_detector.py: `LoopDetector`, over the fingerprints of actions and observations. A
-- fingerprint is a text that is only compared, so the detector is modelled for every way to take one.
pub mod Signals
pub mod Windows
pub mod Same
pub mod Stuck
mod Examples
use forge_agent.Base.{
  ℕ, zero, suc, ◌+◌, ◌-◌, ◌*◌, max, String, Bool, true, false, not, ◌&&◌, ◌||◌, Option, none, some,
  List, [], ◌∷◌, ◌++◌, map, str_eq, ltb, ◌==◌, if◌then◌else◌, length, take, drop, any,
}

-- LoopSeverity
pub data Severity : Type 0 where
  reflect terminate : Severity

-- LoopSignal
pub record Signal : Type 0 where
  pub severity : Severity
  pub period : ℕ
  pub repeats : ℕ
  pub occurrence : ℕ
  pub action_pattern : List String

-- _StepRecord
pub record StepRecord : Type 0 where
  pub action : String
  pub observation : String
  pub repo_state : String
  pub test_state : Option String

-- `capacity` is the `maxlen` of the deque; `records` has the oldest record first.
pub record Detector : Type 0 where
  pub repeats : ℕ
  pub max_period : ℕ
  pub capacity : ℕ
  pub records : List StepRecord
  pub occurrence : ℕ
  pub last_repo_state : Option String
  pub last_test_state : Option String

-- `capacity or minimum_capacity`: None and 0 both give the minimum.
abbrev pub or_minimum : Option ℕ → ℕ → ℕ
or_minimum none least = least
or_minimum (some zero) least = least
or_minimum (some (suc n)) least = suc n

unfoldable pub new : ℕ → ℕ → Option ℕ → Detector
new repeats max_period capacity =
    let r = max 2 repeats in
    let p = max 1 max_period in
    record {
      repeats = r;
      max_period = p;
      capacity = max (r * p) (or_minimum capacity (r * p));
      records = [];
      occurrence = 0;
      last_repo_state = none;
      last_test_state = none;
    }

abbrev pub last : ℕ → List StepRecord → List StepRecord
last n xs = drop (length xs - n) xs

-- deque.append: the oldest records go where there is no room
pub push : ℕ → List StepRecord → StepRecord → List StepRecord
push capacity records r = last capacity (records ++ r ∷ [])

abbrev pub texts_eq : List String → List String → Bool
texts_eq [] [] = true
texts_eq [] (y ∷ ys) = false
texts_eq (x ∷ xs) [] = false
texts_eq (x ∷ xs) (y ∷ ys) = str_eq x y && texts_eq xs ys

abbrev pub option_eq : Option String → Option String → Bool
option_eq none none = true
option_eq none (some b) = false
option_eq (some a) none = false
option_eq (some a) (some b) = str_eq a b

-- The slices `xs[offset:offset + period]`, `n` of them.
pub blocks : ℕ → ℕ → List StepRecord → List (List StepRecord)
blocks zero period xs = []
blocks (suc n) period xs = take period xs ∷ blocks n period (drop period xs)

-- Whether an element differs from the first: for a list that is not empty, `len(set(xs)) > 1`.
abbrev pub differ {ℓ} : {A : Type ℓ} → (A → A → Bool) → List A → Bool
differ eq [] = false
differ eq (x ∷ xs) = any (λ y. not (eq x y)) xs

abbrev pub actions : List StepRecord → List String
actions = map (λ (r : StepRecord). r.action)

abbrev pub observations : List StepRecord → List String
observations = map (λ (r : StepRecord). r.observation)

-- `cycle[-1]`; a cycle has `period` records, one at least
abbrev pub end_repo_state : List StepRecord → Option String
end_repo_state [] = none
end_repo_state (r ∷ []) = some r.repo_state
end_repo_state (r ∷ s ∷ rs) = end_repo_state (s ∷ rs)

abbrev pub end_test_state : List StepRecord → Option String
end_test_state [] = none
end_test_state (r ∷ []) = r.test_state
end_test_state (r ∷ s ∷ rs) = end_test_state (s ∷ rs)

-- _cycles_show_progress
pub cycles_show_progress : List (List StepRecord) → Bool
cycles_show_progress cycles =
    differ texts_eq (map observations cycles)
    || (differ option_eq (map end_repo_state cycles)
        || differ option_eq (map end_test_state cycles))

-- What one round of the loop over the periods finds.
pub data Verdict : Type 0 where
  skip progressing : Verdict
  looping : List String → Verdict

abbrev first_actions : List (List StepRecord) → List String
first_actions [] = []
first_actions (c ∷ cs) = actions c

judge_cycles : List (List StepRecord) → Verdict
unfolding cycles_show_progress
judge_cycles cycles =
    if differ texts_eq (map actions cycles)
    then skip
    else if cycles_show_progress cycles
    then progressing
    else looping (first_actions cycles)

unfoldable pub judge : ℕ → List StepRecord → ℕ → Verdict
unfolding judge_cycles blocks
judge repeats records period =
    let needed = period * repeats in
    if ltb (length records) needed
    then skip
    else judge_cycles (blocks repeats period (last needed records))

pub data Scan : Type 0 where
  hit : ℕ → List String → Scan
  miss : Bool → Scan

-- for period in range(1, max_period + 1), from `period` on, `n` rounds left
unfoldable pub scan : ℕ → List StepRecord → ℕ → ℕ → Bool → Scan
scan repeats records zero period candidate = miss candidate
scan repeats records (suc n) period candidate = elim (judge repeats records period) [
  | skip ↦ scan repeats records n (period + 1) candidate
  | progressing ↦ scan repeats records n (period + 1) true
  | looping pattern' ↦ hit period pattern'
]

abbrev changed : Option String → String → Bool
changed none now = false
changed (some before) now = not (str_eq now before)

abbrev test_changed : Option String → Option String → Bool
test_changed before none = false
test_changed before (some now) = changed before now

-- _has_external_progress
pub has_external_progress : Detector → String → Option String → Bool
has_external_progress d repo_state test_state =
    changed d.last_repo_state repo_state || test_changed d.last_test_state test_state

abbrev or_last : Option String → Option String → Option String
or_last none before = before
or_last (some now) before = some now

-- The state once the step is recorded, before the periods are tried.
pub recorded : Detector → StepRecord → Detector
unfolding has_external_progress push
recorded d r = record d {
  occurrence = if has_external_progress d r.repo_state r.test_state then 0 else d.occurrence;
  records = push d.capacity d.records r;
  last_repo_state = some r.repo_state;
  last_test_state = or_last r.test_state d.last_test_state;
}

conclude : Detector → Scan → Detector × Option Signal
conclude d (hit period pattern') =
    let n = d.occurrence + 1 in
    (
      record d { records = []; occurrence = n },
      some (record {
        severity = if n == 1 then reflect else terminate;
        period = period;
        repeats = d.repeats;
        occurrence = n;
        action_pattern = pattern';
      }),
    )
conclude d (miss candidate) = (if candidate then record d { occurrence = 0 } else d, none)

unfoldable pub observe : Detector → StepRecord → Detector × Option Signal
unfolding recorded conclude
observe d r =
    let d' = recorded d r in conclude d' (scan d'.repeats d'.records d'.max_period 1 false)

-- The signals of a run of steps, and the detector after it.
pub observe_all : Detector → List StepRecord → Detector × List (Option Signal)
observe_all d [] = (d, [])
observe_all d (r ∷ rs) =
    let (d', signal) = observe d r in
    let (d'', signals) = observe_all d' rs in (d'', signal ∷ signals)
