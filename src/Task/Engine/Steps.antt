-- ===== src/Task/Engine/Steps.antt =====
-- The tables that each method of `TaskEngine` may leave: one rule for each method, which a proof
-- about its final tables goes by.
use forge_agent.Base.{
  ℕ, ◌≡◌, String, true, false, ◌&&◌, ◌||◌, some, List, [], ◌∷◌, ◌++◌, arith, count_where, ◌==◌,
  Bool-cases, inl, inr, Option-cases, str_eq, subst,
}
use forge_agent.Task.Tables.{
  Task, Engine, completed, failed, is_pending, is_in_progress, find_task, exists_task, has_dep,
  insert_dep, insert_deps, update_where, claimable, unfinished,
}
use forge_agent.Task.Engine.{
  create_task, insert_task, add_dependency, bind_worktree, claim_task, complete_task, fail_task,
  claimed,
}

-- The rows that the UPDATE of each method leaves.
abbrev pub set_worktree : String → String → Engine → Engine
set_worktree k name s = record s {
  tasks = update_where (λ t. str_eq t.id k) (λ t. record t { worktree = some name }) s.tasks;
}

abbrev pub set_claimed : String → String → Engine → Engine
set_claimed k owner s = record s { tasks = update_where (claimable k) (claimed owner) s.tasks }

abbrev pub set_completed : String → Engine → Engine
set_completed k s = record s {
  tasks =
      update_where (λ u. str_eq u.id k && is_in_progress u.status)
        (λ u. record u { status = completed }) s.tasks;
}

abbrev pub set_failed : String → Engine → Engine
set_failed k s = record s {
  tasks = update_where (λ u. str_eq u.id k) (λ u. record u { status = failed }) s.tasks;
}

abbrev pub with_dep : String → String → Engine → Engine
with_dep k d s = record s { deps = s.deps ++ (record { task_id = k; depends_on_id = d }) ∷ [] }

module _ (P : Engine → Type 0) (s : Engine) (start : P s) where
  pub bind_worktree_ind :
      (k name : String)
      → (exists_task s k ≡ true → P (set_worktree k name s))
      → P (bind_worktree k name s).0
  unfolding bind_worktree
  bind_worktree_ind k name step = elim (Bool-cases (exists_task s k)) [
    | inl e ↦ rw (e, bind_worktree) (step e)
    | inr e ↦ rw (e, bind_worktree) start
  ]

  pub claim_task_ind :
      (k owner : String)
      → (exists_task s k ≡ true
          → (unfinished k s.deps s.tasks == 0) ≡ true
          → P (set_claimed k owner s))
      → P (claim_task k owner s).0
  unfolding claim_task
  claim_task_ind k owner step = elim (Bool-cases (exists_task s k)) [
    | inl e ↦ elim (Bool-cases (unfinished k s.deps s.tasks == 0)) [
      | inl r ↦ elim (Bool-cases (count_where (claimable k) s.tasks == 1)) [
        | inl c ↦ rw (e, r, c, claim_task) (step e r)
        | inr c ↦ rw (e, r, c, claim_task) (step e r)
      ]
      | inr r ↦ rw (e, r, claim_task) start
    ]
    | inr e ↦ rw (e, claim_task) start
  ]

  pub complete_task_ind :
      (k : String)
      → ((t : Task)
          → find_task k s.tasks ≡ some t
          → is_in_progress t.status ≡ true
          → P (set_completed k s))
      → P (complete_task k s).0
  unfolding complete_task
  complete_task_ind k step = elim (Option-cases (find_task k s.tasks)) [
    | inl e ↦ rw (e, complete_task) start
    | inr (t, e) ↦ elim (Bool-cases (is_in_progress t.status)) [
      | inl b ↦ rw (e, b, complete_task) (step t e b)
      | inr b ↦ rw (e, b, complete_task) start
    ]
  ]

  pub fail_task_ind :
      (k : String)
      → ((t : Task)
          → find_task k s.tasks ≡ some t
          → (is_in_progress t.status || is_pending t.status) ≡ true
          → P (set_failed k s))
      → P (fail_task k s).0
  unfolding fail_task
  fail_task_ind k step = elim (Option-cases (find_task k s.tasks)) [
    | inl e ↦ rw (e, fail_task) start
    | inr (t, e) ↦ elim (Bool-cases (is_in_progress t.status || is_pending t.status)) [
      | inl b ↦ rw (e, b, fail_task) (step t e b)
      | inr b ↦ rw (e, b, fail_task) start
    ]
  ]

module _ (P : Engine → Type 0) where
  pub insert_dep_ind :
      (s : Engine) (k d : String) (s' : Engine)
      → P s
      → (exists_task s k ≡ true → exists_task s d ≡ true → P (with_dep k d s))
      → insert_dep s k d ≡ some s'
      → P s'
  unfolding insert_dep
  insert_dep_ind s k d s' start step e = elim (Bool-cases (exists_task s k)) [
    | inl a ↦ elim (Bool-cases (exists_task s d)) [
      | inl b ↦ elim (Bool-cases (has_dep k d s.deps)) [
        | inl c ↦ (let q : s ≡ s' = ground arith in subst P q start)
        | inr c ↦ (let q : with_dep k d s ≡ s' = ground arith in subst P q (step a b))
      ]
      | inr b ↦ absurd (ground arith)
    ]
    | inr a ↦ absurd (ground arith)
  ]

  pub add_dependency_ind :
      (s : Engine) (k d : String)
      → P s
      → (exists_task s k ≡ true → exists_task s d ≡ true → P (with_dep k d s))
      → P (add_dependency k d s).0
  unfolding add_dependency
  add_dependency_ind s k d start step = elim (Bool-cases (exists_task s k)) [
    | inl a ↦ elim (Option-cases (insert_dep s k d)) [
      | inl e ↦ rw (a, e, add_dependency) start
      | inr (s', e) ↦ rw (a, e, add_dependency) (insert_dep_ind s k d s' start step e)
    ]
    | inr a ↦ rw (a, add_dependency) start
  ]

  pub insert_deps_ind :
      (k : String) (ds : List String) (s' : Engine)
      → ((t : Engine) (d : String)
          → P t
          → exists_task t k ≡ true
          → exists_task t d ≡ true
          → P (with_dep k d t))
      → (t : Engine) → P t
      → insert_deps t k ds ≡ some s'
      → P s'
  unfolding insert_deps
  insert_deps_ind k [] s' step t h e = let q : t ≡ s' = ground arith in subst P q h
  insert_deps_ind k (d ∷ ds) s' step t h e = elim (Option-cases (insert_dep t k d)) [
    | inl q ↦ absurd (ground arith)
    | inr (u, q) ↦
        insert_deps_ind k ds s' step u (insert_dep_ind t k d u h (step t d h) q) (ground arith)
  ]

  -- `create_task` keeps the tables, or adds a pending task and then its dependencies.
  pub create_task_ind :
      (s : Engine) (k : String) (now : ℕ) (subject description : String) (ds : List String)
      → P s
      → (exists_task s k ≡ false → P (insert_task s k subject description now))
      → ((t : Engine) (d : String)
          → P t
          → exists_task t k ≡ true
          → exists_task t d ≡ true
          → P (with_dep k d t))
      → P (create_task k now subject description ds s).0
  unfolding create_task
  create_task_ind s k now subject description ds start insert step =
      elim (Bool-cases (exists_task s k)) [
        | inl a ↦ rw (a, create_task) start
        | inr a ↦
            (let t = insert_task s k subject description now in
              elim (Option-cases (insert_deps t k ds)) [
                | inl e ↦ rw (a, e, create_task) start
                | inr (s', e) ↦ rw (a, e, create_task) (insert_deps_ind k ds s' step t (insert a) e)
              ])
      ]
