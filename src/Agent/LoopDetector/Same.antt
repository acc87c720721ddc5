-- ===== src/Agent/LoopDetector/Same.antt =====
-- How `LoopDetector` judges windows of equal steps.
use forge_agent.Base.{
  ℕ, zero, suc, ◌+◌, ◌-◌, ◌*◌, ◌≤◌, ◌<◌, ◌≡◌, refl, ap, ◌∙◌, String, Bool, true, false, not, Option,
  none, some, List, [], ◌∷◌, map, arith, length, any, eq_iff, ltb, lt→ltb, replicate,
  length-replicate,
}
use forge_agent.Agent.LoopDetector.{
  StepRecord, skip, looping, miss, scan, judge, judge_cycles, cycles_show_progress, blocks,
  texts_eq, option_eq, last, actions, observations, end_repo_state, end_test_state, test_changed,
  or_last,
}

pub judge_short :
    (n : ℕ) (records : List StepRecord) (p : ℕ)
    → length records < n
    → 0 < p
    → judge n records p ≡ skip
unfolding judge
judge_short n records p h pos =
    let more : length records < p * n = grind arith in rw (lt→ltb (length records) (p * n) more)

pub scan_short :
    (n : ℕ) (records : List StepRecord) (left p : ℕ) (candidate : Bool)
    → length records < n
    → 0 < p
    → scan n records left p candidate ≡ miss candidate
unfolding scan
scan_short n records zero p candidate h pos = refl
scan_short n records (suc left) p candidate h pos =
    rw (judge_short n records p h pos, scan)
      (scan_short n records left (p + 1) candidate h (omega arith))

pub texts_eq_refl : (xs : List String) → texts_eq xs xs ≡ true
texts_eq_refl [] = refl
texts_eq_refl (x ∷ xs) = ground (arith, eq_iff x x, texts_eq_refl xs)

pub option_eq_refl : (a : Option String) → option_eq a a ≡ true
option_eq_refl none = refl
option_eq_refl (some a) = ground (arith, eq_iff a a)

pub same_differ :
    {A B : Type 0} (eq : B → B → Bool) (f : A → B) (c : A) (n : ℕ)
    → eq (f c) (f c) ≡ true
    → any (λ y. not (eq (f c) y)) (map f (replicate n c)) ≡ false
same_differ eq f c zero h = refl
same_differ eq f c (suc n) h = ground (arith, same_differ eq f c n h)

pub blocks_same : (n : ℕ) (r : StepRecord) → blocks n 1 (replicate n r) ≡ replicate n (r ∷ [])
unfolding blocks
blocks_same zero r = refl
blocks_same (suc n) r = ap (λ x. (r ∷ []) ∷ x) (blocks_same n r)

judge_cycles_same :
    (n : ℕ) (r : StepRecord) → judge_cycles (replicate (suc n) (r ∷ [])) ≡ looping (r.action ∷ [])
unfolding judge_cycles cycles_show_progress
judge_cycles_same n r = ground (
  arith,
  same_differ texts_eq actions (r ∷ []) n (texts_eq_refl (r.action ∷ [])),
  same_differ texts_eq observations (r ∷ []) n (texts_eq_refl (r.observation ∷ [])),
  same_differ option_eq end_repo_state (r ∷ []) n (option_eq_refl (some r.repo_state)),
  same_differ option_eq end_test_state (r ∷ []) n (option_eq_refl r.test_state),
)

pub last_all : (n k : ℕ) (r : StepRecord) → k ≤ n → last n (replicate k r) ≡ replicate k r
last_all n k r h =
    let none_over : length (replicate k r) - n ≡ 0 = omega (arith, length-replicate k r) in
    rw none_over

pub judge_same :
    (n : ℕ) (r : StepRecord) → judge (suc n) (replicate (suc n) r) 1 ≡ looping (r.action ∷ [])
unfolding judge
judge_same n r =
    let exact : ltb (length (replicate (suc n) r)) (1 * suc n) ≡ false =
      ground (arith, length-replicate (suc n) r) in
    rw exact (
      ap judge_cycles (
        ap (blocks (suc n) 1) (last_all (1 * suc n) (suc n) r (omega arith))
        ∙ blocks_same (suc n) r)
      ∙ judge_cycles_same n r)

pub test_changed_last : (now before : Option String) → test_changed (or_last now before) now ≡ false
test_changed_last none before = refl
test_changed_last (some a) before = ground (arith, eq_iff a a)

pub test_changed-none : (now : Option String) → test_changed none now ≡ false
test_changed-none none = refl
test_changed-none (some a) = refl

pub or_last_idem :
    (now before : Option String) → or_last now (or_last now before) ≡ or_last now before
or_last_idem none before = refl
or_last_idem (some a) before = refl
