-- ===== src/Task/Engine/Endings.antt =====
-- After complete_task or fail_task, refused or not, their task is not in progress.
use forge_agent.Base.{
  ok, ◌≡◌, refl, Bool, true, false, ◌&&◌, ◌||◌, some, Option-cases, Bool-cases, inl, inr, List, [],
  ◌∷◌, String, str_eq, arith,
}
use forge_agent.Task.Tables.{
  Task, Engine, Status, completed, failed, is_in_progress, is_pending, find_task, update_where,
}
use forge_agent.Task.Rows.{find-update_where, updated}
use forge_agent.Task.Engine.{complete_task, fail_task}

-- no row that a lookup of `k` finds is in progress
abbrev pub NotInProgress : String → Engine → Type 0
NotInProgress k s = (t : Task) → find_task k s.tasks ≡ some t → is_in_progress t.status ≡ false

found_id : (k : String) (ts : List Task) (t : Task) → find_task k ts ≡ some t → str_eq t.id k ≡ true
unfolding find_task
found_id k [] t h = absurd (ground (arith, h))
found_id k (u ∷ ts) t h = elim (Bool-cases (str_eq u.id k)) [
  | inl e ↦ ground (arith, h, e)
  | inr e ↦ found_id k ts t (ground (arith, h, e))
]

-- the row that is found after an UPDATE
updated_row :
    (p : Task → Bool) (f : Task → Task) (k : String) (ts : List Task) (t u : Task)
    → ((x : Task) → (f x).id ≡ x.id)
    → find_task k ts ≡ some t
    → find_task k (update_where p f ts) ≡ some u
    → u ≡ updated p f t
updated_row p f k ts t u keeps e h = ground (arith, find-update_where p f keeps k ts, e, h)

-- the row of the task after a complete_task that is not refused
completed_row :
    (k : String) (s : Engine) (t u : Task)
    → find_task k s.tasks ≡ some t
    → is_in_progress t.status ≡ true
    → find_task k (complete_task k s).0.tasks ≡ some u
    → u.status ≡ completed
unfolding complete_task
completed_row k s t u e b h =
    let p : Task → Bool = λ v. str_eq v.id k && is_in_progress v.status in
    let f : Task → Task = λ v. record v { status = completed } in
    let q : u ≡ updated p f t =
      updated_row p f k s.tasks t u (λ x. refl) e (ground (arith, h, e, b)) in
    ground (arith, q, b, found_id k s.tasks t e)

-- and after a fail_task that is not refused
failed_row :
    (k : String) (s : Engine) (t u : Task)
    → find_task k s.tasks ≡ some t
    → (is_in_progress t.status || is_pending t.status) ≡ true
    → find_task k (fail_task k s).0.tasks ≡ some u
    → u.status ≡ failed
unfolding fail_task
failed_row k s t u e b h =
    let p : Task → Bool = λ v. str_eq v.id k in
    let f : Task → Task = λ v. record v { status = failed } in
    let q : u ≡ updated p f t =
      updated_row p f k s.tasks t u (λ x. refl) e (ground (arith, h, e, b)) in
    ground (arith, q, found_id k s.tasks t e)

pub complete_task-NotInProgress : (k : String) (s : Engine) → NotInProgress k (complete_task k s).0
unfolding complete_task
complete_task-NotInProgress k s u h = elim (Option-cases (find_task k s.tasks)) [
  | inl e ↦ absurd (ground (arith, h, e))
  | inr (t, e) ↦ elim (Bool-cases (is_in_progress t.status)) [
    | inr b ↦ ground (arith, h, e, b)
    | inl b ↦ rw (completed_row k s t u e b h) refl
  ]
]

pub fail_task-NotInProgress : (k : String) (s : Engine) → NotInProgress k (fail_task k s).0
unfolding fail_task
fail_task-NotInProgress k s u h = elim (Option-cases (find_task k s.tasks)) [
  | inl e ↦ absurd (ground (arith, h, e))
  | inr (t, e) ↦ elim (Bool-cases (is_in_progress t.status || is_pending t.status)) [
    | inr b ↦ ground (arith, h, e, b)
    | inl b ↦ rw (failed_row k s t u e b h) refl
  ]
]

-- a row that a lookup of `k` finds has the status
abbrev pub HasStatus : String → Status → Engine → Type 0
HasStatus k status s = (t : Task) → find_task k s.tasks ≡ some t → t.status ≡ status

pub complete_task-completed :
    (k : String) (s : Engine) (ks : List String)
    → (complete_task k s).1 ≡ ok ks
    → HasStatus k completed (complete_task k s).0
unfolding complete_task
complete_task-completed k s ks r u h = elim (Option-cases (find_task k s.tasks)) [
  | inl e ↦ absurd (ground (arith, h, e))
  | inr (t, e) ↦ elim (Bool-cases (is_in_progress t.status)) [
    | inr b ↦ absurd (ground (arith, r, e, b))
    | inl b ↦ completed_row k s t u e b h
  ]
]

pub fail_task-failed :
    (k : String) (s : Engine) (x : Unit {0})
    → (fail_task k s).1 ≡ ok x
    → HasStatus k failed (fail_task k s).0
unfolding fail_task
fail_task-failed k s x r u h = elim (Option-cases (find_task k s.tasks)) [
  | inl e ↦ absurd (ground (arith, h, e))
  | inr (t, e) ↦ elim (Bool-cases (is_in_progress t.status || is_pending t.status)) [
    | inr b ↦ absurd (ground (arith, r, e, b))
    | inl b ↦ failed_row k s t u e b h
  ]
]
