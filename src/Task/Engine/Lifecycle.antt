-- ===== src/Task/Engine/Lifecycle.antt =====
-- The life of one task under any sequence of requests: its status moves along a diagram, at most
-- one claim of it succeeds, and a task that depends on itself never starts.
use mathlib.Core.Option
use forge_agent.Base.{
  ℕ, ◌≡◌, refl, sym, subst, String, Bool, true, false, ◌||◌, Option, none, some, arith, str_eq,
  eq_iff, Bool-cases, inl, inr, Option-cases,
}
use forge_agent.Task.Tables.{
  Task, Engine, Status, pending, in_progress, completed, failed, is_pending, is_in_progress,
  find_task, exists_task, update_where,
}
use forge_agent.Task.Rows.{find-update_where, find-append_row, find-id}
use forge_agent.Task.Engine.{
  insert_task, Request, create, depend, bind, claim, complete, fail, serve,
}
use forge_agent.Task.Engine.Steps.{
  with_dep, bind_worktree_ind, claim_task_ind, complete_task_ind, fail_task_ind, add_dependency_ind,
  create_task_ind,
}

abbrev pub status_of : String → Engine → Option Status
status_of j s = Option.map (λ (t : Task). t.status) (find_task j s.tasks)

-- The moves of a status; `none` is a task that is not there.
pub data Move : Option Status → Option Status → Type 0 where
  stay : {a : Option Status} → Move a a
  appear : Move none (some pending)
  start : Move (some pending) (some in_progress)
  finish : Move (some in_progress) (some completed)
  fail_pending : Move (some pending) (some failed)
  fail_running : Move (some in_progress) (some failed)

ruleset moves = (stay, appear, start, finish, fail_pending, fail_running)

module _ (j : String) (s : Engine) where
  abbrev MovesTo : Engine → Type 0
  MovesTo s' = Move (status_of j s) (status_of j s')

  move_same : (s' : Engine) → status_of j s' ≡ status_of j s → MovesTo s'
  move_same s' e = subst (Move (status_of j s)) (sym e) stay

  same_dep : (t : Engine) (k d : String) → MovesTo t → MovesTo (with_dep k d t)
  same_dep t k d h = h

  moves-insert_task :
      (k subject description : String) (now : ℕ)
      → exists_task s k ≡ false
      → MovesTo (insert_task s k subject description now)
  unfolding insert_task exists_task
  moves-insert_task k subject description now a = elim (Option-cases (find_task j s.tasks)) [
    | inl e ↦
        rw (find-append_row j s.tasks _, e)
          (elim (Bool-cases (str_eq k j)) [ inl b ↦ rw b appear | inr b ↦ rw b stay ])
    | inr (t, e) ↦
        move_same (insert_task s k subject description now) (rw (find-append_row j s.tasks _, e))
  ]

-- Where an UPDATE moves each row along the diagram, it moves the task that a lookup finds.
moves-update :
    (j : String) (s : Engine) (p : Task → Bool) (f : Task → Task)
    → ((t : Task) → (f t).id ≡ t.id)
    → ((t : Task)
        → find_task j s.tasks ≡ some t
        → p t ≡ true
        → Move (some t.status) (some (f t).status))
    → Move (status_of j s) (status_of j (record s { tasks = update_where p f s.tasks }))
moves-update j s p f keeps move =
    rw (find-update_where p f keeps j s.tasks) (elim (Option-cases (find_task j s.tasks)) [
      | inl e ↦ rw e stay
      | inr (t, e) ↦
          rw e (elim (Bool-cases (p t)) [ inl c ↦ rw c (move t e c) | inr c ↦ rw c stay ])
    ])

move_pending : (a b : Status) → is_pending a ≡ true → b ≡ in_progress → Move (some a) (some b)
move_pending a b h e = grind (arith, moves)

move_running : (a : Status) → is_in_progress a ≡ true → Move (some a) (some completed)
move_running a h = grind (arith, moves)

move_failed : (a : Status) → (is_in_progress a || is_pending a) ≡ true → Move (some a) (some failed)
move_failed a h = grind (arith, moves)

-- A request moves each task along the diagram.
pub serve-Move :
    (r : Request) (s : Engine) (j : String) → Move (status_of j s) (status_of j (serve r s))
unfolding serve
serve-Move (create k now subject description ds) s j =
    create_task_ind (MovesTo j s) s k now subject description ds stay
      (moves-insert_task j s k subject description now) (λ t d h a b. h)
serve-Move (depend k d) s j = add_dependency_ind (MovesTo j s) s k d stay (λ a b. stay)
serve-Move (bind k name) s j =
    bind_worktree_ind (MovesTo j s) s stay k name
      (λ e. moves-update j s _ _ (λ t. refl) (λ t q c. stay))
serve-Move (claim k owner) s j = claim_task_ind (MovesTo j s) s stay k owner (λ e r.
    moves-update j s _ _ (λ t. refl)
      (λ t q c. move_pending t.status in_progress (ground arith) refl))
serve-Move (complete k) s j =
    complete_task_ind (MovesTo j s) s stay k
      (λ u e b. moves-update j s _ _ (λ t. refl) (λ t q c. move_running t.status (ground arith)))
serve-Move (fail k) s j = fail_task_ind (MovesTo j s) s stay k (λ u e b.
    moves-update j s _ _ (λ t. refl)
      (λ t q c. move_failed t.status (ground (arith, find-id j s.tasks t q, eq_iff t.id k))))
