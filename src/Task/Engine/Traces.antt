-- ===== src/Task/Engine/Traces.antt =====
-- What holds of a task over every sequence of requests.
use forge_agent.Base.{
  ℕ, ◌+◌, ◌≤◌, ◌≡◌, ◌⊎◌, refl, String, Bool, true, false, Option, none, some, List, [], ◌∷◌, arith,
  str_eq, eq_iff, if◌then◌else◌, count_where, Bool-cases, inl, inr, Result, ok, err,
}
use forge_agent.Task.Tables.{Engine, Status, Error, pending, in_progress, completed, claimable}
use forge_agent.Task.Rows.{find-update_where, count_claimable}
use forge_agent.Task.Engine.{
  claim_task, claimed, Request, create, depend, bind, claim, complete, fail, serve, serve_all,
}
use forge_agent.Task.Engine.Steps.{set_claimed}
use forge_agent.Task.Engine.Invariant.{IsConsistent, serve-IsConsistent}
use forge_agent.Task.Engine.Claims.{claim_task_iff}
use forge_agent.Task.Engine.Lifecycle.{
  Move, status_of, serve-Move, stay, appear, start, finish, fail_pending, fail_running,
}

-- How many claims of a task can still succeed.
abbrev open_slots : Option Status → ℕ
open_slots none = 1
open_slots (some pending) = 1
open_slots (some _) = 0

Move-open_slots : {a b : Option Status} → Move a b → open_slots b ≤ open_slots a
Move-open_slots stay = omega arith
Move-open_slots appear = omega arith
Move-open_slots start = omega arith
Move-open_slots finish = omega arith
Move-open_slots fail_pending = omega arith
Move-open_slots fail_running = omega arith

abbrev succeeded : Result Error Bool → ℕ
succeeded (ok true) = 1
succeeded (ok false) = 0
succeeded (err e) = 0

-- 1 where the request is a claim of `j` that succeeds
abbrev pub won : String → Request → Engine → ℕ
won j (claim k owner) s = if str_eq k j then succeeded (claim_task k owner s).1 else 0
won j (create _ _ _ _ _) s = 0
won j (depend _ _) s = 0
won j (bind _ _) s = 0
won j (complete _) s = 0
won j (fail _) s = 0

-- how many claims of `j` succeed in a sequence of requests
abbrev pub claims_won : String → List Request → Engine → ℕ
claims_won j [] s = 0
claims_won j (r ∷ rs) s = won j r s + claims_won j rs (serve r s)

claim_task_state :
    (s : Engine) (k owner : String)
    → (claim_task k owner s).1 ≡ ok true
    → ((claim_task k owner s).0 ≡ set_claimed k owner s) × (count_where (claimable k) s.tasks ≡ 1)
unfolding claim_task
claim_task_state s k owner e = ground arith

claim_task-in_progress :
    {s : Engine}
    → IsConsistent s
    → (k owner : String) → (claim_task k owner s).1 ≡ ok true
    → status_of k (claim_task k owner s).0 ≡ some in_progress
claim_task-in_progress {s} h k owner e =
    let r = (claim_task_iff h k owner).0 e in
    let (state, one) = claim_task_state s k owner e in
    rw state (
      ground (
        arith,
        one,
        r.found,
        count_claimable k s.tasks (h.unique k),
        find-update_where (claimable k) (claimed owner) (λ u. refl) k s.tasks,
      ))

success-cases : (r : Result Error Bool) → (r ≡ ok true) ⊎ (succeeded r ≡ 0)
success-cases (ok true) = inl refl
success-cases (ok false) = inr refl
success-cases (err e) = inr refl

slots-serve :
    (r : Request) (s : Engine) (j : String)
    → open_slots (status_of j (serve r s)) ≤ open_slots (status_of j s)
slots-serve r s j = Move-open_slots (serve-Move r s j)

serve-claim : (k owner : String) (s : Engine) → serve (claim k owner) s ≡ (claim_task k owner s).0
unfolding serve
serve-claim k owner s = refl

-- a successful claim takes the slot
claim_takes :
    {s : Engine}
    → IsConsistent s
    → (k owner : String)
    → succeeded (claim_task k owner s).1 + open_slots (status_of k (serve (claim k owner) s))
      ≤ open_slots (status_of k s)
claim_takes {s} h k owner = elim (success-cases (claim_task k owner s).1) [
  | inl e ↦
      (let r = (claim_task_iff h k owner).0 e in
        ground
          (arith, e, r.found, r.waiting, serve-claim k owner s, claim_task-in_progress h k owner e))
  | inr e ↦ omega (arith, e, slots-serve (claim k owner) s k)
]

won-le :
    (r : Request) {s : Engine} (j : String)
    → IsConsistent s
    → won j r s + open_slots (status_of j (serve r s)) ≤ open_slots (status_of j s)
won-le (claim k owner) {s} j h = elim (Bool-cases (str_eq k j)) [
  | inl b ↦ (let e : k ≡ j = (eq_iff k j).0 b in rw (b, ← e) (claim_takes h k owner))
  | inr b ↦ rw b (omega (arith, slots-serve (claim k owner) s j))
]
won-le (create k now subject description ds) {s} j h =
    omega (arith, slots-serve (create k now subject description ds) s j)
won-le (depend k d) {s} j h = omega (arith, slots-serve (depend k d) s j)
won-le (bind k name) {s} j h = omega (arith, slots-serve (bind k name) s j)
won-le (complete k) {s} j h = omega (arith, slots-serve (complete k) s j)
won-le (fail k) {s} j h = omega (arith, slots-serve (fail k) s j)

-- From consistent tables, at most one claim of a task succeeds, however the requests follow.
pub claims_won-le-one :
    (rs : List Request) {s : Engine} (j : String) → IsConsistent s → claims_won j rs s ≤ 1
claims_won-le-one rs {s} j h = omega (arith, claims_won-le rs s j h, open_slots-le (status_of j s))
  where
    open_slots-le : (o : Option Status) → open_slots o ≤ 1
    open_slots-le none = omega arith
    open_slots-le (some pending) = omega arith
    open_slots-le (some _) = omega arith

    claims_won-le :
        (rs : List Request) (s : Engine) (j : String)
        → IsConsistent s
        → claims_won j rs s ≤ open_slots (status_of j s)
    claims_won-le [] s j h = omega arith
    claims_won-le (r ∷ rs) s j h =
        omega (arith, won-le r j h, claims_won-le rs (serve r s) j (serve-IsConsistent r s h))

Move-completed : {a b : Option Status} → Move a b → a ≡ some completed → b ≡ some completed
Move-completed stay e = e
Move-completed appear e = cc
Move-completed start e = cc
Move-completed finish e = cc
Move-completed fail_pending e = cc
Move-completed fail_running e = cc

-- A completed task stays completed, so what its completion unblocked is not blocked again by it.
pub completed_stays :
    (rs : List Request) (s : Engine) (j : String)
    → status_of j s ≡ some completed
    → status_of j (serve_all rs s) ≡ some completed
unfolding serve_all
completed_stays [] s j h = h
completed_stays (r ∷ rs) s j h =
    completed_stays rs (serve r s) j (Move-completed (serve-Move r s j) h)
