-- ===== src/Agent/LoopDetector/Windows.antt =====
-- What a signal of `LoopDetector` says of the recorded steps: their last actions and observations
-- are one pattern over and over, with the repository and the tests unchanged from round to round.
use mathlib.Core.List.{map-append}
use forge_agent.Base.{
  ℕ, zero, suc, ◌+◌, ◌-◌, ◌*◌, ◌≤◌, ◌<◌, ◌≡◌, refl, sym, ap, subst, ◌∙◌, String, Bool, true, false,
  not, Option, none, some, List, [], ◌∷◌, ◌++◌, map, arith, length, take, drop, any, All,
  take-append-drop, length-drop, eq_iff,
}
use forge_agent.Agent.LoopDetector.{
  Signal, StepRecord, Detector, looping, hit, recorded, scan, observe, judge, judge_cycles, blocks,
  differ, texts_eq, option_eq, last, actions, observations, end_repo_state, end_test_state,
  first_actions,
}

texts_eq_sound : (xs ys : List String) → texts_eq xs ys ≡ true → xs ≡ ys
texts_eq_sound [] [] h = refl
texts_eq_sound [] (y ∷ ys) h = cc
texts_eq_sound (x ∷ xs) [] h = cc
texts_eq_sound (x ∷ xs) (y ∷ ys) h = ground (arith, eq_iff x y, texts_eq_sound xs ys)

option_eq_sound : (a b : Option String) → option_eq a b ≡ true → a ≡ b
option_eq_sound none none h = refl
option_eq_sound none (some b) h = cc
option_eq_sound (some a) none h = cc
option_eq_sound (some a) (some b) h = ground (arith, eq_iff a b)

module _ {A : Type 0} (eq : A → A → Bool) (sound : (x y : A) → eq x y ≡ true → x ≡ y) where
  All-same :
      {B : Type 0} (f : B → A) (x : A) (bs : List B)
      → any (λ y. not (eq x y)) (map f bs) ≡ false
      → All (λ b. f b ≡ x) bs
  All-same f x [] h = tt
  All-same f x (b ∷ bs) h = (sym (sound x (f b) (ground arith)), All-same f x bs (ground arith))

  differ_sound :
      {B : Type 0} (f : B → A) (b : B) (bs : List B)
      → differ eq (map f (b ∷ bs)) ≡ false
      → All (λ c. f c ≡ f b) (b ∷ bs)
  differ_sound f b bs h = (refl, All-same f (f b) bs h)

-- `n` copies of a list, one after the other.
abbrev pub repeated : ℕ → List String → List String
repeated zero xs = []
repeated (suc n) xs = xs ++ repeated n xs

blocks-repeated :
    (f : StepRecord → String) (n p : ℕ) (xs : List StepRecord) (pat : List String)
    → length xs ≡ n * p
    → All (λ c. map f c ≡ pat) (blocks n p xs)
    → map f xs ≡ repeated n pat
unfolding blocks
blocks-repeated f zero p [] pat e h = refl
blocks-repeated f zero p (x ∷ xs) pat e h = absurd (omega arith)
blocks-repeated f (suc n) p xs pat e h =
    ap (map f) (sym (take-append-drop p xs))
    ∙ (map-append f (take p xs) (drop p xs)
        ∙ cc (h.0, blocks-repeated f n p (drop p xs) pat (omega (arith, e, length-drop p xs)) h.1))

-- The last `period * repeats` records are one cycle over and over.
pub record IsLoop (repeats period : ℕ) (pat : List String) (records : List StepRecord)
    : Type 0 where
  pub enough : period * repeats ≤ length records
  pub same_actions : actions (last (period * repeats) records) ≡ repeated repeats pat
  pub seen : List String
  pub same_observations : observations (last (period * repeats) records) ≡ repeated repeats seen
  pub repo : Option String
  pub same_repo :
      All (λ c. end_repo_state c ≡ repo) (blocks repeats period (last (period * repeats) records))
  pub tests : Option String
  pub same_tests :
      All (λ c. end_test_state c ≡ tests) (blocks repeats period (last (period * repeats) records))

-- The tests that `judge_cycles` makes, once it has found a loop.
record Passed (cycles : List (List StepRecord)) (pat : List String) : Type 0 where
  acts : differ texts_eq (map actions cycles) ≡ false
  obs : differ texts_eq (map observations cycles) ≡ false
  repos : differ option_eq (map end_repo_state cycles) ≡ false
  ends : differ option_eq (map end_test_state cycles) ≡ false
  first : first_actions cycles ≡ pat

judge-Passed :
    (cycles : List (List StepRecord)) (pat : List String)
    → judge_cycles cycles ≡ looping pat
    → Passed cycles pat
unfolding judge_cycles
judge-Passed cycles pat h = record {
  acts = ground arith;
  obs = ground arith;
  repos = ground arith;
  ends = ground arith;
  first = ground arith;
}

judge-enough :
    (n : ℕ) (records : List StepRecord) (p : ℕ) (pat : List String)
    → judge n records p ≡ looping pat
    → (p * n ≤ length records) × (judge_cycles (blocks n p (last (p * n) records)) ≡ looping pat)
unfolding judge
judge-enough n records p pat h = ground arith

judge-IsLoop :
    (n : ℕ) (records : List StepRecord) (p : ℕ) (pat : List String)
    → 0 < n
    → judge n records p ≡ looping pat
    → IsLoop n p pat records
unfolding blocks
judge-IsLoop zero records p pat pos h = absurd (omega arith)
judge-IsLoop (suc n) records p pat pos h =
    let (enough, found) = judge-enough (suc n) records p pat h in
    let passed = judge-Passed _ pat found in
    let window = last (p * suc n) records in
    let size : length window ≡ suc n * p =
      omega (arith, enough, length-drop (length records - p * suc n) records) in
    record {
      enough = enough;
      same_actions =
          blocks-repeated (λ r. r.action) (suc n) p window pat size
            (subst (λ q. All (λ c. actions c ≡ q) (blocks (suc n) p window)) passed.first
              (differ_sound texts_eq texts_eq_sound actions _ _ passed.acts));
      seen = observations (take p window);
      same_observations =
          blocks-repeated (λ r. r.observation) (suc n) p window _ size
            (differ_sound texts_eq texts_eq_sound observations _ _ passed.obs);
      repo = end_repo_state (take p window);
      same_repo =
          differ_sound option_eq option_eq_sound end_repo_state (take p window) _ passed.repos;
      tests = end_test_state (take p window);
      same_tests =
          differ_sound option_eq option_eq_sound end_test_state (take p window) _ passed.ends;
    }

scan_hit :
    (n : ℕ) (records : List StepRecord) (left period p : ℕ) (candidate : Bool) (pat : List String)
    → scan n records left period candidate ≡ hit p pat
    → (judge n records p ≡ looping pat) × (period ≤ p) × (p < period + left)
unfolding scan
scan_hit n records zero period p candidate pat h = cc
scan_hit n records (suc left) period p candidate pat h = ground (
  arith,
  scan_hit n records left (period + 1) p candidate pat,
  scan_hit n records left (period + 1) p true pat,
)

observe_hit :
    (d : Detector) (r : StepRecord) (s : Signal)
    → (observe d r).1 ≡ some s
    → (scan d.repeats (recorded d r).records d.max_period 1 false ≡ hit s.period s.action_pattern)
      × (s.repeats ≡ d.repeats)
unfolding observe
observe_hit d r s e = ground arith

-- A signal is sound: among the records that end in the new step, the last `period * repeats`
-- actions are the signal's pattern `repeats` times, the observations are one block as often, the
-- repository and test states at the ends of the rounds are the same, and the period is in range.
pub observe_sound :
    (d : Detector) (r : StepRecord) (s : Signal)
    → 0 < d.repeats
    → (observe d r).1 ≡ some s
    → IsLoop d.repeats s.period s.action_pattern (recorded d r).records
      × (0 < s.period)
      × (s.period ≤ d.max_period)
observe_sound d r s pos e =
    let (found, same) = observe_hit d r s e in
    let (judged, low, high) =
      scan_hit d.repeats (recorded d r).records d.max_period 1 s.period false s.action_pattern
        found in
    (
      judge-IsLoop d.repeats (recorded d r).records s.period s.action_pattern pos judged,
      low,
      omega arith,
    )
