-- ===== src/Task/Engine/Invariant.antt =====
-- What holds of the tables of `TaskEngine` between two requests.
use forge_agent.Base.{
  ℕ, ◌≤◌, ◌≡◌, refl, String, Bool, true, false, none, List, [], ◌∷◌, ◌++◌, arith, eq_iff,
  count_where, All, count_where-append, All-append_one, ◌∙◌,
}
use forge_agent.Task.Tables.{
  Task, Dependency, Engine, pending, is_pending, is_in_progress, is_none, exists_task, update_where,
}
use forge_agent.Task.Rows.{
  with_id, find-update_where, count-update_where, All-update_where, find-append_row, count_of_none,
}
use forge_agent.Task.Engine.{
  insert_task, Request, create, depend, bind, claim, complete, fail, serve, serve_all, empty,
}
use forge_agent.Task.Engine.Steps.{
  with_dep, bind_worktree_ind, claim_task_ind, complete_task_ind, fail_task_ind, add_dependency_ind,
  create_task_ind,
}

-- A pending task has no owner, and a task in progress has one.
abbrev pub IsOwned : Task → Type 0
IsOwned t =
    (is_pending t.status ≡ true → is_none t.owner ≡ true)
    × (is_in_progress t.status ≡ true → is_none t.owner ≡ false)

-- Both ends of a dependency are tasks of the table.
abbrev pub IsLinked : Engine → Dependency → Type 0
IsLinked s r = (exists_task s r.task_id ≡ true) × (exists_task s r.depends_on_id ≡ true)

pub record IsConsistent (s : Engine) : Type 0 where
  pub unique : (j : String) → count_where (with_id j) s.tasks ≤ 1
  pub linked : All (IsLinked s) s.deps
  pub owned : All IsOwned s.tasks

All-map-IsLinked :
    (s s' : Engine) (deps : List Dependency)
    → ((j : String) → exists_task s j ≡ true → exists_task s' j ≡ true)
    → All (IsLinked s) deps
    → All (IsLinked s') deps
All-map-IsLinked s s' [] keep h = tt
All-map-IsLinked s s' (r ∷ rs) keep h =
    ((keep r.task_id h.0.0, keep r.depends_on_id h.0.1), All-map-IsLinked s s' rs keep h.1)

module _ (p : Task → Bool) (f : Task → Task) (s : Engine) where
  abbrev after_update : Engine
  after_update = record s { tasks = update_where p f s.tasks }

  pub exists-update :
      ((t : Task) → (f t).id ≡ t.id) → (j : String) → exists_task after_update j ≡ exists_task s j
  unfolding exists_task
  exists-update keeps j = ground (arith, find-update_where p f keeps j s.tasks)

  pub update-IsConsistent :
      ((t : Task) → (f t).id ≡ t.id)
      → ((t : Task) → IsOwned t → p t ≡ true → IsOwned (f t))
      → IsConsistent s
      → IsConsistent after_update
  update-IsConsistent keeps owns h = record {
    unique = λ j. omega (arith, h.unique j, count-update_where p f keeps j s.tasks);
    linked = All-map-IsLinked s after_update s.deps (λ j e. exists-update keeps j ∙ e) h.linked;
    owned = All-update_where IsOwned p f s.tasks owns h.owned;
  }

-- A dependency whose two ends are there keeps the tables consistent.
with_dep-IsConsistent :
    (s : Engine) (k d : String)
    → IsConsistent s
    → exists_task s k ≡ true
    → exists_task s d ≡ true
    → IsConsistent (with_dep k d s)
unfolding exists_task
with_dep-IsConsistent s k d h a b = record {
  unique = h.unique;
  linked = All-append_one (IsLinked s) s.deps _ h.linked (a, b);
  owned = h.owned;
}

module _ (s : Engine) (k subject description : String) (now : ℕ) where
  abbrev new_row : Task
  new_row = record {
    id = k;
    subject = subject;
    description = description;
    status = pending;
    owner = none;
    worktree = none;
    created_at = now;
  }

  exists-insert_task :
      (j : String)
      → exists_task s j ≡ true
      → exists_task (insert_task s k subject description now) j ≡ true
  unfolding insert_task exists_task
  exists-insert_task j e = ground (arith, find-append_row j s.tasks new_row)

  unique-insert_task :
      IsConsistent s
      → exists_task s k ≡ false
      → (j : String) → count_where (with_id j) (s.tasks ++ new_row ∷ []) ≤ 1
  unfolding exists_task
  unique-insert_task h a j = ground (
    arith,
    h.unique j,
    count_where-append (with_id j) s.tasks (new_row ∷ []),
    count_of_none j s.tasks,
    eq_iff k j,
  )

  insert_task-IsConsistent :
      IsConsistent s
      → exists_task s k ≡ false
      → IsConsistent (insert_task s k subject description now)
  unfolding insert_task
  insert_task-IsConsistent h a = record {
    unique = unique-insert_task h a;
    linked = All-map-IsLinked s _ s.deps exists-insert_task h.linked;
    owned = All-append_one IsOwned s.tasks new_row h.owned ((λ x. refl), (λ x. cc));
  }

-- Every request, refused or not, keeps the tables consistent.
pub serve-IsConsistent : (r : Request) (s : Engine) → IsConsistent s → IsConsistent (serve r s)
unfolding serve
serve-IsConsistent (create k now subject description ds) s h =
    create_task_ind IsConsistent s k now subject description ds h
      (insert_task-IsConsistent s k subject description now h) (λ t d. with_dep-IsConsistent t k d)
serve-IsConsistent (depend k d) s h =
    add_dependency_ind IsConsistent s k d h (with_dep-IsConsistent s k d h)
serve-IsConsistent (bind k name) s h =
    bind_worktree_ind IsConsistent s h k name
      (λ e. update-IsConsistent _ _ s (λ t. refl) (λ t o q. o) h)
serve-IsConsistent (claim k owner) s h =
    claim_task_ind IsConsistent s h k owner
      (λ e r. update-IsConsistent _ _ s (λ t. refl) (λ t o q. ((λ x. cc), (λ x. refl))) h)
serve-IsConsistent (complete k) s h =
    complete_task_ind IsConsistent s h k
      (λ t e b. update-IsConsistent _ _ s (λ u. refl) (λ u o q. ((λ x. cc), (λ x. cc))) h)
serve-IsConsistent (fail k) s h =
    fail_task_ind IsConsistent s h k
      (λ t e b. update-IsConsistent _ _ s (λ u. refl) (λ u o q. ((λ x. cc), (λ x. cc))) h)

pub serve_all-IsConsistent :
    (rs : List Request) (s : Engine) → IsConsistent s → IsConsistent (serve_all rs s)
unfolding serve_all
serve_all-IsConsistent [] s h = h
serve_all-IsConsistent (r ∷ rs) s h =
    serve_all-IsConsistent rs (serve r s) (serve-IsConsistent r s h)

pub empty-IsConsistent : IsConsistent empty
empty-IsConsistent = record { unique = λ j. omega arith; linked = tt; owned = tt }
