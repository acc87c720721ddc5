-- ===== src/Task/Tables.antt =====
-- task/engine.py: the rows of `TaskEngine`, its exceptions, and the SQL statements of its methods.
-- A table is the list of its rows in the order of insertion.
use forge_agent.Base.{
  ℕ, ◌+◌, String, Bool, true, false, not, ◌&&◌, Option, none, some, List, [], ◌∷◌, ◌++◌, str_eq,
  leb, if◌then◌else◌, count_where, any, Result,
}

-- STATUS_PENDING, STATUS_IN_PROGRESS, STATUS_COMPLETED, STATUS_FAILED
pub data Status : Type 0 where
  pending in_progress completed failed : Status

abbrev pub is_pending : Status → Bool
is_pending pending = true
is_pending _ = false

abbrev pub is_in_progress : Status → Bool
is_in_progress in_progress = true
is_in_progress _ = false

abbrev pub is_completed : Status → Bool
is_completed completed = true
is_completed _ = false

abbrev pub is_none {ℓ} : {A : Type ℓ} → Option A → Bool
is_none none = true
is_none (some _) = false

pub record Task : Type 0 where
  pub id : String
  pub subject : String
  pub description : String
  pub status : Status
  pub owner : Option String
  pub worktree : Option String
  pub created_at : ℕ

-- A row of task_dependencies.
pub record Dependency : Type 0 where
  pub task_id : String
  pub depends_on_id : String

pub record Engine : Type 0 where
  pub tasks : List Task
  pub deps : List Dependency

pub data Reason : Type 0 where
  already_owned wrong_status : Reason
  blocked : List String → Reason

-- The exceptions of the methods; `integrity` is the database's own error.
pub data Error : Type 0 where
  not_found : String → Error
  not_claimable : String → Reason → Error
  not_completable : String → Status → Error
  integrity : Error

abbrev pub Outcome : Type 0 → Type 0
Outcome A = Engine × Result Error A

-- SELECT * FROM tasks WHERE id=? (the first row)
unfoldable pub find_task : String → List Task → Option Task
find_task k [] = none
find_task k (t ∷ ts) = if str_eq t.id k then some t else find_task k ts

unfoldable pub exists_task : Engine → String → Bool
unfolding find_task
exists_task s k = not (is_none (find_task k s.tasks))

abbrev pub has_dep : String → String → List Dependency → Bool
has_dep k d = any (λ r. str_eq r.task_id k && str_eq r.depends_on_id d)

-- INSERT OR IGNORE: a row that is there stays; a reference to a missing task is an error that
-- OR IGNORE does not cover.
unfoldable pub insert_dep : Engine → String → String → Option Engine
unfolding exists_task
insert_dep s k d =
    if exists_task s k && exists_task s d
    then some (
        if has_dep k d s.deps
        then s
        else record s { deps = s.deps ++ (record { task_id = k; depends_on_id = d }) ∷ [] })
    else none

-- the loop over `blocked_by`
unfoldable pub insert_deps : Engine → String → List String → Option Engine
insert_deps s k [] = some s
insert_deps s k (d ∷ ds) = elim (insert_dep s k d) [ none ↦ none | some s' ↦ insert_deps s' k ds ]

-- UPDATE tasks SET … WHERE …
unfoldable pub update_where : (Task → Bool) → (Task → Task) → List Task → List Task
update_where p f [] = []
update_where p f (t ∷ ts) = (if p t then f t else t) ∷ update_where p f ts

-- ORDER BY created_at
insert_by_time : Task → List Task → List Task
insert_by_time t [] = t ∷ []
insert_by_time t (u ∷ us) =
    let rest = insert_by_time t us in if leb t.created_at u.created_at then t ∷ u ∷ us else u ∷ rest

unfoldable pub sort_by_time : List Task → List Task
unfolding insert_by_time
sort_by_time [] = []
sort_by_time (t ∷ ts) = insert_by_time t (sort_by_time ts)

abbrev pub same_status : Status → Status → Bool
same_status pending u = is_pending u
same_status in_progress u = is_in_progress u
same_status completed u = is_completed u
same_status failed failed = true
same_status failed _ = false

-- SELECT COUNT(*) FROM task_dependencies td JOIN tasks t … WHERE td.task_id = ? AND t.status != ?
abbrev pub unfinished_of : String → List Task → ℕ
unfinished_of d ts = count_where (λ t. str_eq t.id d && not (is_completed t.status)) ts

unfoldable pub unfinished : String → List Dependency → List Task → ℕ
unfinished k [] ts = 0
unfinished k (r ∷ rs) ts =
    (if str_eq r.task_id k then unfinished_of r.depends_on_id ts else 0) + unfinished k rs ts

-- the reverse join: pending tasks that depend on `k` and wait for nothing more
unfoldable pub waits : List Dependency → List Task → Task → Bool
waits deps ts t =
    any
      (λ r.
        str_eq r.task_id t.id
        && any (λ u. str_eq u.id r.depends_on_id && not (is_completed u.status)) ts)
      deps

abbrev pub depends_on : String → List Dependency → Task → Bool
depends_on k deps t = any (λ r. str_eq r.depends_on_id k && str_eq r.task_id t.id) deps

abbrev pub claimable : String → Task → Bool
claimable k t = str_eq t.id k && (is_pending t.status && is_none t.owner)
