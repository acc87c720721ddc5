-- ===== src/Task/Engine/Cycles.antt =====
-- The engine takes a dependency of a task on itself, and such a task never starts.
use mathlib.Core.Option
use forge_agent.Base.{
  ℕ, ◌<◌, ◌≡◌, ◌⊎◌, refl, String, Bool, true, false, Option, none, some, List, [], ◌∷◌, ◌++◌, arith,
  eq_iff, ◌==◌, Bool-cases, inl, inr, Option-cases,
}
use forge_agent.Task.Tables.{
  Task, Dependency, Engine, Status, pending, failed, has_dep, find_task, exists_task, insert_dep,
  update_where, unfinished, unfinished_of,
}
use forge_agent.Task.Rows.{find-id, find-append_row, find-update_where}
use forge_agent.Task.Engine.{
  add_dependency, insert_task, Request, create, depend, bind, claim, complete, fail, serve,
  serve_all,
}
use forge_agent.Task.Engine.Steps.{
  bind_worktree_ind, claim_task_ind, complete_task_ind, fail_task_ind, add_dependency_ind,
  create_task_ind,
}
use forge_agent.Task.Engine.Lifecycle.{status_of}

has_dep-append :
    (k d : String) (rs : List Dependency) (r : Dependency)
    → has_dep k d rs ≡ true
    → has_dep k d (rs ++ r ∷ []) ≡ true
has_dep-append k d [] r h = cc
has_dep-append k d (q ∷ rs) r h = ground (arith, has_dep-append k d rs r)

serve-has_dep :
    (r : Request) (s : Engine) (k d : String)
    → has_dep k d s.deps ≡ true
    → has_dep k d (serve r s).deps ≡ true
unfolding serve insert_task
serve-has_dep (create i now subject description ds) s k d h =
    create_task_ind (λ t. has_dep k d t.deps ≡ true) s i now subject description ds h (λ a. h)
      (λ t e q a b. has_dep-append k d t.deps _ q)
serve-has_dep (depend i e) s k d h =
    add_dependency_ind (λ t. has_dep k d t.deps ≡ true) s i e h
      (λ a b. has_dep-append k d s.deps _ h)
serve-has_dep (bind i name) s k d h =
    bind_worktree_ind (λ t. has_dep k d t.deps ≡ true) s h i name (λ e. h)
serve-has_dep (claim i owner) s k d h =
    claim_task_ind (λ t. has_dep k d t.deps ≡ true) s h i owner (λ e r. h)
serve-has_dep (complete i) s k d h =
    complete_task_ind (λ t. has_dep k d t.deps ≡ true) s h i (λ t e b. h)
serve-has_dep (fail i) s k d h = fail_task_ind (λ t. has_dep k d t.deps ≡ true) s h i (λ t e b. h)

-- A task that is pending or failed.
abbrev IsParked : Option Status → Type 0
IsParked o = (o ≡ some pending) ⊎ (o ≡ some failed)

self_unfinished :
    (k : String) (deps : List Dependency) (ts : List Task)
    → has_dep k k deps ≡ true
    → 0 < unfinished_of k ts
    → (unfinished k deps ts == 0) ≡ false
unfolding unfinished
self_unfinished k [] ts h p = cc
self_unfinished k (r ∷ rs) ts h p =
    ground (arith, self_unfinished k rs ts, eq_iff r.depends_on_id k)

parked_unfinished :
    (k : String) (ts : List Task)
    → IsParked (Option.map (λ (t : Task). t.status) (find_task k ts))
    → 0 < unfinished_of k ts
unfolding find_task
parked_unfinished k [] h = absurd (ground arith)
parked_unfinished k (t ∷ ts) h = ground (arith, parked_unfinished k ts)

IsParked-update :
    (k : String) (s : Engine) (p : Task → Bool) (f : Task → Task)
    → ((t : Task) → (f t).id ≡ t.id)
    → ((t : Task) → find_task k s.tasks ≡ some t → p t ≡ true → IsParked (some (f t).status))
    → IsParked (status_of k s)
    → IsParked (status_of k (record s { tasks = update_where p f s.tasks }))
IsParked-update k s p f keeps move h =
    rw (find-update_where p f keeps k s.tasks) (elim (Option-cases (find_task k s.tasks)) [
      | inl e ↦ rw e (rw e at h)
      | inr (t, e) ↦
          rw e (elim (Bool-cases (p t)) [ inl c ↦ rw c (move t e c) | inr c ↦ rw c (rw e at h) ])
    ])

IsParked-insert_task :
    (k : String) (s : Engine) (i subject description : String) (now : ℕ)
    → IsParked (status_of k s)
    → IsParked (status_of k (insert_task s i subject description now))
unfolding insert_task
IsParked-insert_task k s i subject description now h = ground (
  arith,
  find-append_row k s.tasks (record {
    id = i;
    subject = subject;
    description = description;
    status = pending;
    owner = none;
    worktree = none;
    created_at = now;
  }),
)

abbrev pub IsStuck : String → Engine → Type 0
IsStuck k s = (has_dep k k s.deps ≡ true) × IsParked (status_of k s)

serve-IsParked :
    (r : Request) (s : Engine) (k : String) → IsStuck k s → IsParked (status_of k (serve r s))
unfolding serve
serve-IsParked (create i now subject description ds) s k h =
    create_task_ind (λ t. IsParked (status_of k t)) s i now subject description ds h.1
      (λ a. IsParked-insert_task k s i subject description now h.1) (λ t e q a b. q)
serve-IsParked (depend i e) s k h =
    add_dependency_ind (λ t. IsParked (status_of k t)) s i e h.1 (λ a b. h.1)
serve-IsParked (bind i name) s k h =
    bind_worktree_ind (λ t. IsParked (status_of k t)) s h.1 i name
      (λ e. IsParked-update k s _ _ (λ t. refl) (λ t q c. ground (arith, q, h.1)) h.1)
serve-IsParked (claim i owner) s k h =
    claim_task_ind (λ t. IsParked (status_of k t)) s h.1 i owner
      (λ e r.
        IsParked-update k s _ _ (λ t. refl)
          (λ t q c. absurd (
            ground (
              arith,
              r,
              self_unfinished k s.deps s.tasks h.0 (parked_unfinished k s.tasks h.1),
              eq_iff t.id i,
              find-id k s.tasks t q,
            )))
          h.1)
serve-IsParked (complete i) s k h =
    complete_task_ind (λ t. IsParked (status_of k t)) s h.1 i
      (λ u e b. IsParked-update k s _ _ (λ t. refl) (λ t q c. absurd (ground (arith, q, h.1))) h.1)
serve-IsParked (fail i) s k h =
    fail_task_ind (λ t. IsParked (status_of k t)) s h.1 i
      (λ u e b. IsParked-update k s _ _ (λ t. refl) (λ t q c. inr refl) h.1)

IsStuck-after :
    (rs : List Request) (s : Engine) (k : String) → IsStuck k s → IsStuck k (serve_all rs s)
unfolding serve_all
IsStuck-after [] s k h = h
IsStuck-after (r ∷ rs) s k h =
    IsStuck-after rs (serve r s) k (serve-has_dep r s k k h.0, serve-IsParked r s k h)

has_dep-append_self :
    (k d : String) (rs : List Dependency)
    → has_dep k d (rs ++ (record { task_id = k; depends_on_id = d }) ∷ []) ≡ true
has_dep-append_self k d [] = ground (arith, eq_iff k k, eq_iff d d)
has_dep-append_self k d (r ∷ rs) = ground (arith, has_dep-append_self k d rs)

depend_self :
    (s : Engine) (k : String)
    → status_of k s ≡ some pending
    → has_dep k k (serve (depend k k) s).deps ≡ true
unfolding serve add_dependency insert_dep exists_task
depend_self s k h = ground (arith, has_dep-append_self k k s.deps)

depend-IsParked :
    (s : Engine) (k : String)
    → status_of k s ≡ some pending
    → IsParked (status_of k (serve (depend k k) s))
unfolding serve
depend-IsParked s k h =
    add_dependency_ind (λ t. IsParked (status_of k t)) s k k (inl h) (λ a b. inl h)

-- Once a pending task depends on itself, which `add_dependency` accepts, no sequence of requests
-- starts or completes it.
pub self_dependency_stuck :
    (rs : List Request) (s : Engine) (k : String)
    → status_of k s ≡ some pending
    → (status_of k (serve_all (depend k k ∷ rs) s) ≡ some pending)
      ⊎ (status_of k (serve_all (depend k k ∷ rs) s) ≡ some failed)
unfolding serve_all
self_dependency_stuck rs s k h =
    (IsStuck-after rs (serve (depend k k) s) k (depend_self s k h, depend-IsParked s k h)).1
