-- ===== src/Agent/LoopDetector/Signals.antt =====
-- When `LoopDetector` terminates a run: never at its first signal, never on progress from outside;
-- and its buffer stays bounded.
use forge_agent.Base.{
  ◌-◌, ◌≤◌, ◌<◌, ◌≡◌, ◌≢◌, ◌⊎◌, refl, sym, ap, ◌∙◌, Bool-cases, str_eq, eq_iff, All, String, ◌++◌,
  Option-cases, true, false, Option, none, some, List, [], ◌∷◌, arith, length, length-drop, inl,
  inr,
}
use forge_agent.Agent.LoopDetector.{
  reflect, terminate, Signal, StepRecord, Detector, Scan, hit, miss, recorded, conclude, observe,
  observe_all, has_external_progress, or_last,
}

abbrev pub IsBounded : Detector → Type 0
IsBounded d = length d.records ≤ d.capacity

conclude-IsBounded : (d : Detector) (found : Scan) → IsBounded d → IsBounded (conclude d found).0
unfolding conclude
conclude-IsBounded d (hit p pat) h = omega arith
conclude-IsBounded d (miss true) h = h
conclude-IsBounded d (miss false) h = h

-- Each step leaves at most `capacity` records.
pub observe-IsBounded : (d : Detector) (r : StepRecord) → IsBounded (observe d r).0
unfolding observe
observe-IsBounded d r = conclude-IsBounded (recorded d r) _ kept
  where
    kept : IsBounded (recorded d r)
    kept =
        omega (arith, length-drop (length (d.records ++ r ∷ []) - d.capacity) (d.records ++ r ∷ []))

Severity-cases : (s : Signal) → (s.severity ≡ reflect) ⊎ (s.severity ≡ terminate)
Severity-cases s = ground arith

-- a signal at a step with external progress
external_progress-reflect :
    (d : Detector) (r : StepRecord) (s : Signal)
    → has_external_progress d r.repo_state r.test_state ≡ true
    → (observe d r).1 ≡ some s
    → (s.severity ≡ reflect) × (s.occurrence ≡ 1)
unfolding observe
external_progress-reflect d r s h e = (ground arith, ground arith)

-- the detector after all of the steps
abbrev pub after : Detector → List StepRecord → Detector
after d rs = (observe_all d rs).0

after-append : (d : Detector) (rs ss : List StepRecord) → after d (rs ++ ss) ≡ after (after d rs) ss
unfolding observe_all
after-append d [] ss = refl
after-append d (r ∷ rs) ss = after-append (observe d r).0 rs ss

-- a signal and its absence leave the states that are recorded
conclude-states :
    (d : Detector) (found : Scan)
    → ((conclude d found).0.last_repo_state ≡ d.last_repo_state)
      × ((conclude d found).0.last_test_state ≡ d.last_test_state)
unfolding conclude
conclude-states d (hit p pat) = (refl, refl)
conclude-states d (miss true) = (refl, refl)
conclude-states d (miss false) = (refl, refl)

observe-repo_state :
    (d : Detector) (r : StepRecord) → (observe d r).0.last_repo_state ≡ some r.repo_state
unfolding observe recorded
observe-repo_state d r = (conclude-states (recorded d r) _).0

observe-test_state :
    (d : Detector) (r : StepRecord)
    → (observe d r).0.last_test_state ≡ or_last r.test_state d.last_test_state
unfolding observe recorded
observe-test_state d r = (conclude-states (recorded d r) _).1

-- a step that ran no tests
abbrev pub RanNoTests : StepRecord → Type 0
RanNoTests r = r.test_state ≡ none

untested-test_state :
    (d : Detector) (qs : List StepRecord)
    → All RanNoTests qs
    → (after d qs).last_test_state ≡ d.last_test_state
unfolding observe_all
untested-test_state d [] h = refl
untested-test_state d (q ∷ qs) (h, hs) =
    untested-test_state (observe d q).0 qs hs
    ∙ observe-test_state d q
    ∙ ap (λ t. or_last t d.last_test_state) h

-- The step `r` after the steps `rs` shows progress: it leaves another state of the repository than
-- the step before it, or its tests end in another state than the newest tests before it.
pub data ExternalProgress (rs : List StepRecord) (r : StepRecord) : Type 0 where
  repo_progress :
      (ps : List StepRecord) (s : StepRecord)
      → rs ≡ ps ++ s ∷ []
      → s.repo_state ≢ r.repo_state
      → ExternalProgress rs r
  test_progress :
      (ps : List StepRecord) (s : StepRecord) (qs : List StepRecord) (before now : String)
      → rs ≡ ps ++ s ∷ qs
      → s.test_state ≡ some before
      → All RanNoTests qs
      → r.test_state ≡ some now
      → before ≢ now
      → ExternalProgress rs r

differing : (a b : String) → a ≢ b → str_eq b a ≡ false
differing a b h = elim (Bool-cases (str_eq b a)) [
  | inl e ↦ absurd (h (sym ((eq_iff b a).0 e)))
  | inr e ↦ e
]

repo_progress-external :
    (d : Detector) (r : StepRecord) (a : String)
    → d.last_repo_state ≡ some a
    → a ≢ r.repo_state
    → has_external_progress d r.repo_state r.test_state ≡ true
unfolding has_external_progress
repo_progress-external d r a e h = ground (arith, e, differing a r.repo_state h)

test_progress-external :
    (d : Detector) (r : StepRecord) (a b : String)
    → d.last_test_state ≡ some a
    → r.test_state ≡ some b
    → a ≢ b
    → has_external_progress d r.repo_state r.test_state ≡ true
unfolding has_external_progress
test_progress-external d r a b e t h = ground (arith, e, t, differing a b h)

ExternalProgress-external :
    (d : Detector) (rs : List StepRecord) (r : StepRecord)
    → ExternalProgress rs r
    → has_external_progress (after d rs) r.repo_state r.test_state ≡ true
unfolding observe_all
ExternalProgress-external d rs r (repo_progress ps s e h) =
    repo_progress-external (after d rs) r s.repo_state
      (ap (λ x. (after d x).last_repo_state) e
        ∙ ap (λ (x : Detector). x.last_repo_state) (after-append d ps (s ∷ []))
        ∙ observe-repo_state (after d ps) s)
      h
ExternalProgress-external d rs r (test_progress ps s qs a b e t q u h) =
    test_progress-external (after d rs) r a b
      (ap (λ x. (after d x).last_test_state) e
        ∙ ap (λ (x : Detector). x.last_test_state) (after-append d ps (s ∷ qs))
        ∙ untested-test_state (observe (after d ps) s).0 qs q
        ∙ observe-test_state (after d ps) s
        ∙ ap (λ x. or_last x (after d ps).last_test_state) t)
      u h

-- After any steps, a step that leaves another state of the repository than the step before it, or
-- whose tests end in another state than the newest tests before it, has no signal that terminates:
-- if it has one, it asks to reflect, and it is the first of a new count.
pub progress-ne-terminate :
    (d : Detector) (rs : List StepRecord) (r : StepRecord) (s : Signal)
    → ExternalProgress rs r
    → (observe (after d rs) r).1 ≡ some s
    → (s.severity ≡ reflect) × (s.occurrence ≡ 1)
progress-ne-terminate d rs r s p e =
    external_progress-reflect (after d rs) r s (ExternalProgress-external d rs r p) e

-- a signal that terminates comes from a detector that has signalled before
terminate-needs-occurrence :
    (d : Detector) (r : StepRecord) (s : Signal)
    → (observe d r).1 ≡ some s
    → s.severity ≡ terminate
    → 0 < d.occurrence
unfolding observe
terminate-needs-occurrence d r s e t = ground arith

observe-quiet :
    (d : Detector) (r : StepRecord)
    → d.occurrence ≡ 0
    → (observe d r).1 ≡ none
    → (observe d r).0.occurrence ≡ 0
unfolding observe
observe-quiet d r h e = ground arith

abbrev pub first_signal : List (Option Signal) → Option Signal
first_signal [] = none
first_signal (none ∷ xs) = first_signal xs
first_signal (some s ∷ xs) = some s

-- From a detector with no occurrence, such as a new one, the first signal of any run asks to
-- reflect and does not terminate.
pub first_signal-reflect :
    (rs : List StepRecord) (d : Detector) (s : Signal)
    → d.occurrence ≡ 0
    → first_signal (observe_all d rs).1 ≡ some s
    → s.severity ≡ reflect
unfolding observe_all
first_signal-reflect [] d s h e = cc
first_signal-reflect (r ∷ rs) d s h e = elim (Option-cases (observe d r).1) [
  | inl q ↦
      first_signal-reflect rs (observe d r).0 s (observe-quiet d r h q) (rw (q, observe_all) at e)
  | inr (t, q) ↦ elim (Severity-cases s) [
    | inl reflects ↦ reflects
    | inr terminates ↦
        absurd (omega (arith, h, terminate-needs-occurrence d r s (ground arith) terminates))
  ]
]
