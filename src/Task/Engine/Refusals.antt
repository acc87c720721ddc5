-- ===== src/Task/Engine/Refusals.antt =====
-- A method of `TaskEngine` that raises has changed nothing.
use forge_agent.Base.{◌≡◌, String, Bool, true, false, arith, Result, ok, err}
use forge_agent.Task.Tables.{Engine, Error, claimable}
use forge_agent.Task.Rows.{count_claimable, update_none}
use forge_agent.Task.Engine.{
  claim_task, create_task, add_dependency, bind_worktree, complete_task, fail_task, claimed,
  Request, create, depend, bind, claim, complete, fail, serve,
}
use forge_agent.Task.Engine.Invariant.{IsConsistent}

abbrev pub is_err : {A : Type 0} → Result Error A → Bool
is_err (ok a) = false
is_err (err e) = true

-- Whether the method that serves a request raises.
abbrev pub raises : Request → Engine → Bool
raises (create k now subject description ds) s =
    is_err (create_task k now subject description ds s).1
raises (depend k d) s = is_err (add_dependency k d s).1
raises (bind k name) s = is_err (bind_worktree k name s).1
raises (claim k owner) s = is_err (claim_task k owner s).1
raises (complete k) s = is_err (complete_task k s).1
raises (fail k) s = is_err (fail_task k s).1

claim_task-raises :
    {s : Engine}
    → IsConsistent s
    → (k owner : String) → is_err (claim_task k owner s).1 ≡ true
    → (claim_task k owner s).0 ≡ s
unfolding claim_task
claim_task-raises {s} h k owner e = ground (
  arith,
  count_claimable k s.tasks (h.unique k),
  update_none (claimable k) (claimed owner) s.tasks,
)

-- On consistent tables a request whose method raises leaves them as they were, the rolled back
-- `create_task` and the UPDATE of a refused claim included.
pub raises_unchanged :
    (r : Request) {s : Engine} → IsConsistent s → raises r s ≡ true → serve r s ≡ s
unfolding serve create_task add_dependency bind_worktree complete_task fail_task
raises_unchanged (claim k owner) h e = claim_task-raises h k owner e
raises_unchanged (create k now subject description ds) h e = ground arith
raises_unchanged (depend k d) h e = ground arith
raises_unchanged (bind k name) h e = ground arith
raises_unchanged (complete k) h e = ground arith
raises_unchanged (fail k) h e = ground arith
