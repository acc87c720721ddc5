-- ===== src/Task/Engine/Claims.antt =====
-- What `claim_task` and `complete_task` promise on consistent tables.
use forge_agent.Base.{
  ◌≡◌, ◌≢◌, ◌↔◌, refl, String, true, some, List, [], ◌∷◌, arith, eq_iff, inl, inr, ok, err,
  Option-cases,
}
use forge_agent.Task.Tables.{
  Task, Engine, is_pending, find_task, exists_task, already_owned, not_claimable, claimable,
}
use forge_agent.Task.Rows.{find-update_where, All-find, find-id, count_claimable}
use forge_agent.Task.Engine.{
  can_start, dependencies, blocked_by, raise_blocked, claim_task, claimed,
}
use forge_agent.Task.Engine.Invariant.{IsConsistent, IsOwned}

-- A task that waits for an owner and whose dependencies are all completed.
pub record IsStartable (k : String) (s : Engine) : Type 0 where
  pub task : Task
  pub found : find_task k s.tasks ≡ some task
  pub waiting : is_pending task.status ≡ true
  pub free : can_start k s ≡ ok true

blocked_by-ne :
    (ds : List String) (s : Engine) (k : String)
    → blocked_by ds s ≢ err (not_claimable k already_owned)
unfolding blocked_by
blocked_by-ne [] s k e = cc
blocked_by-ne (d ∷ ds) s k e = ground (arith, blocked_by-ne ds s k)

raise_blocked-ne :
    (k : String) (ds : List String) (s : Engine)
    → raise_blocked k (blocked_by ds s) ≢ not_claimable k already_owned
unfolding raise_blocked
raise_blocked-ne k ds s e = ground (arith, blocked_by-ne ds s k)

module _ {s : Engine} (h : IsConsistent s) (k owner : String) where
  IsOwned-found : (t : Task) → find_task k s.tasks ≡ some t → IsOwned t
  IsOwned-found t e = All-find IsOwned k s.tasks t h.owned e

  claim_task_ok : IsStartable k s → (claim_task k owner s).1 ≡ ok true
  unfolding claim_task exists_task
  claim_task_ok r = ground (
    arith,
    r.found,
    r.waiting,
    r.free,
    IsOwned-found r.task r.found,
    find-id k s.tasks r.task r.found,
    eq_iff r.task.id k,
    count_claimable k s.tasks (h.unique k),
  )

  claim_task-IsStartable : (claim_task k owner s).1 ≡ ok true → IsStartable k s
  unfolding claim_task exists_task
  claim_task-IsStartable e = elim (Option-cases (find_task k s.tasks)) [
    | inl q ↦ absurd (ground arith)
    | inr (t, q) ↦ record {
      task = t;
      found = q;
      waiting = ground (arith, count_claimable k s.tasks (h.unique k));
      free = ground arith;
    }
  ]

  pub claim_task_iff : ((claim_task k owner s).1 ≡ ok true) ↔ IsStartable k s
  claim_task_iff = (claim_task-IsStartable, claim_task_ok)

  -- A claim is never refused as already owned: a pending task has no owner.
  pub claim_task-ne-already_owned : (claim_task k owner s).1 ≢ err (not_claimable k already_owned)
  unfolding claim_task exists_task
  claim_task-ne-already_owned e = elim (Option-cases (find_task k s.tasks)) [
    | inl q ↦ ground arith
    | inr (t, q) ↦ ground (
      arith,
      IsOwned-found t q,
      find-id k s.tasks t q,
      eq_iff t.id k,
      count_claimable k s.tasks (h.unique k),
      find-update_where (claimable k) (claimed owner) (λ u. refl) k s.tasks,
      raise_blocked-ne k (dependencies k s) s,
    )
  ]
