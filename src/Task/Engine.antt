-- ===== src/Task/Engine.antt =====
-- task/engine.py: the methods of `TaskEngine`. Each runs under the lock of the engine and so is
-- one step; identifiers and times come from outside (`uuid`, `time`) as arguments.
pub mod Steps
pub mod Invariant
pub mod Claims
pub mod Unblock
pub mod Lifecycle
pub mod Traces
pub mod Refusals
pub mod Cycles
pub mod Endings
mod Examples
use forge_agent.Base.{
  ℕ, String, Bool, true, not, ◌&&◌, ◌||◌, Option, none, some, List, [], ◌∷◌, ◌++◌, map, str_eq,
  ◌==◌, if◌then◌else◌, select, count_where, Result, ok, err,
}
use forge_agent.Task.Tables.{
  Status, pending, in_progress, completed, failed, is_pending, is_in_progress, is_completed,
  is_none, Task, Dependency, Engine, already_owned, wrong_status, blocked, Error, not_found,
  not_claimable, not_completable, integrity, Outcome, find_task, exists_task, insert_dep,
  insert_deps, update_where, sort_by_time, same_status, unfinished, waits, depends_on, claimable,
}

pub insert_task : Engine → String → String → String → ℕ → Engine
insert_task s k subject description now = record s {
  tasks =
      s.tasks
      ++ (record {
        id = k;
        subject = subject;
        description = description;
        status = pending;
        owner = none;
        worktree = none;
        created_at = now;
      })
        ∷ [];
}

-- `ROLLBACK` gives the state before `BEGIN` back.
pub create_task : String → ℕ → String → String → List String → Engine → Outcome String
unfolding insert_task
create_task k now subject description blocked_by s =
    if exists_task s k
    then (s, err integrity)
    else elim (insert_deps (insert_task s k subject description now) k blocked_by) [
      | none ↦ (s, err integrity)
      | some s' ↦ (s', ok k)
    ]

pub add_dependency : String → String → Engine → Outcome (Unit {0})
add_dependency k d s =
    if exists_task s k
    then elim (insert_dep s k d) [ none ↦ (s, err integrity) | some s' ↦ (s', ok tt) ]
    else (s, err (not_found k))

unfoldable pub bind_worktree : String → String → Engine → Outcome (Unit {0})
unfolding exists_task update_where
bind_worktree k name s =
    if exists_task s k
    then (
      record s {
        tasks = update_where (λ t. str_eq t.id k) (λ t. record t { worktree = some name }) s.tasks;
      },
      ok tt,
    )
    else (s, err (not_found k))

pub get_task : String → Engine → Outcome Task
unfolding find_task
get_task k s = elim (find_task k s.tasks) [ none ↦ (s, err (not_found k)) | some t ↦ (s, ok t) ]

pub list_tasks : Option Status → Engine → List Task
unfolding sort_by_time
list_tasks none s = sort_by_time s.tasks
list_tasks (some status) s = sort_by_time (select (λ t. same_status t.status status) s.tasks)

pub can_start : String → Engine → Result Error Bool
unfolding exists_task unfinished
can_start k s = if exists_task s k then ok (unfinished k s.deps s.tasks == 0) else err (not_found k)

pub dependencies : String → Engine → List String
dependencies k s =
    map (λ (r : Dependency). r.depends_on_id) (select (λ r. str_eq r.task_id k) s.deps)

-- the comprehension over `dependencies`; `get_task` may raise in it
blocked_by : List String → Engine → Result Error (List String)
unfolding find_task
blocked_by [] s = ok []
blocked_by (d ∷ ds) s =
    let rest = blocked_by ds s in
    elim (find_task d s.tasks) [
      | none ↦ err (not_found d)
      | some t ↦ elim rest [
        | err e ↦ err e
        | ok more ↦ ok (if is_completed t.status then more else d ∷ more)
      ]
    ]

abbrev claimed : String → Task → Task
claimed owner t = record t { status = in_progress; owner = some owner }

-- why the UPDATE matched no row
claim_failure : String → Engine → Error
unfolding find_task
claim_failure k s = elim (find_task k s.tasks) [
  | none ↦ not_found k
  | some t ↦
      if is_pending t.status && not (is_none t.owner)
      then not_claimable k already_owned
      else not_claimable k wrong_status
]

claim_ready : String → String → Engine → Outcome Bool
unfolding update_where claim_failure
claim_ready k owner s =
    let s' = record s { tasks = update_where (claimable k) (claimed owner) s.tasks } in
    if count_where (claimable k) s.tasks == 1 then (s', ok true) else (s', err (claim_failure k s'))

-- `raise TaskNotClaimable(task_id, REASON_BLOCKED, blocked_by)`, or what the comprehension raised
raise_blocked : String → Result Error (List String) → Error
raise_blocked k (err e) = e
raise_blocked k (ok ds) = not_claimable k (blocked ds)

pub claim_task : String → String → Engine → Outcome Bool
unfolding exists_task can_start dependencies blocked_by claim_ready raise_blocked
claim_task k owner s =
    if exists_task s k
    then (if unfinished k s.deps s.tasks == 0
        then claim_ready k owner s
        else (s, err (raise_blocked k (blocked_by (dependencies k s) s))))
    else (s, err (not_found k))

-- the WHERE clause of the reverse join: a pending task that depends on `k` and waits for nothing
pending_dependent : String → Engine → Task → Bool
unfolding waits
pending_dependent k s t =
    is_pending t.status && (depends_on k s.deps t && not (waits s.deps s.tasks t))

pub unblocked : String → Engine → List Task
unfolding pending_dependent
unblocked k s = select (pending_dependent k s) s.tasks

unfoldable pub complete_task : String → Engine → Outcome (List String)
unfolding find_task update_where unblocked
complete_task k s = elim (find_task k s.tasks) [
  | none ↦ (s, err (not_found k))
  | some t ↦
      if is_in_progress t.status
      then (let s' = record s {
        tasks =
            update_where (λ u. str_eq u.id k && is_in_progress u.status)
              (λ u. record u { status = completed }) s.tasks;
      } in
          (s', ok (map (λ (u : Task). u.id) (unblocked k s'))))
      else (s, err (not_completable k t.status))
]

unfoldable pub fail_task : String → Engine → Outcome (Unit {0})
unfolding find_task update_where
fail_task k s = elim (find_task k s.tasks) [
  | none ↦ (s, err (not_found k))
  | some t ↦
      if is_in_progress t.status || is_pending t.status
      then (
        record s {
          tasks = update_where (λ u. str_eq u.id k) (λ u. record u { status = failed }) s.tasks;
        },
        ok tt,
      )
      else (s, err (not_completable k t.status))
]

-- The requests that change the tables.
pub data Request : Type 0 where
  create : String → ℕ → String → String → List String → Request
  depend : String → String → Request
  bind : String → String → Request
  claim : String → String → Request
  complete : String → Request
  fail : String → Request

pub serve : Request → Engine → Engine
unfolding create_task add_dependency bind_worktree claim_task complete_task fail_task
serve (create k now subject description ds) s = (create_task k now subject description ds s).0
serve (depend k d) s = (add_dependency k d s).0
serve (bind k name) s = (bind_worktree k name s).0
serve (claim k owner) s = (claim_task k owner s).0
serve (complete k) s = (complete_task k s).0
serve (fail k) s = (fail_task k s).0

-- Requests one after the other, in the order in which they take the lock.
unfoldable pub serve_all : List Request → Engine → Engine
serve_all [] s = s
serve_all (r ∷ rs) s = serve_all rs (serve r s)

-- The tables after `_init_schema`.
abbrev pub empty : Engine
empty = record { tasks = []; deps = [] }
