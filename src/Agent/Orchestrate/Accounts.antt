-- ===== src/Agent/Orchestrate/Accounts.antt =====
-- The task of a run in the task engine at its end, and when a worktree with changes is removed.
use forge_agent.Base.{
  ℕ, ◌≡◌, refl, sym, ap, subst, Bool, true, false, Option, none, some, Bool-cases, inl, inr, String,
  Result, ok, err, arith, if◌then◌else◌, codes, List,
}
use forge_agent.Task.Tables.{Engine, Error, completed, failed}
use forge_agent.Task.Engine.{complete_task, fail_task}
use forge_agent.Task.Engine.Endings.{
  NotInProgress, HasStatus, complete_task-NotInProgress, fail_task-NotInProgress,
  complete_task-completed, fail_task-failed,
}
use forge_agent.Agent.Types.{RunResult}
use forge_agent.Runtime.Worktree.{validate_worktree_name, has_changes}
use forge_agent.Runtime.Worktree.Session.{
  Session, Raised, worktree_error, checked, new_fields, new_session, inspect_changes,
}
use forge_agent.Runtime.Worktree.Closing.{WorktreeArtifact, removed, finalize}
use forge_agent.Runtime.Worktree.Changes.{
  NothingThere, IntRaises, inspect-NothingThere, unchanged-Removable,
}
use forge_agent.Runtime.Worktree.Cleanup.{finalize-retained}
use forge_agent.Agent.Orchestrate.{
  WorktreeResultPolicy, keep_if_changed, Failure, worktree_failure, Orchestration, Place, succeeded,
  shared, logged, publish, task_claimed, try_run, worktrees_dir, wt_name,
}
use forge_agent.Agent.Orchestrate.Run.{
  action_for, finalize_worktree, Disposed, Returned, accounted, settle, with_worktree, run_claimed,
  dispose,
}

module _ {H : Type 0} (o : Orchestration H) where
  -- At the end of a run its task is not in progress. If the run returns a result, the task is completed
  -- when the result is a success, and failed when it is not.
  pub record Accounted (r : Returned o) : Type 0 where
    pub ended : NotInProgress o.task_id r.0.engine
    pub completes :
        (result : RunResult) (a : Option WorktreeArtifact)
        → r.1 ≡ ok (result, a)
        → HasStatus o.task_id (if succeeded result then completed else failed) r.0.engine

  publish-engine : (topic : String) (p : Place H) → (publish o topic p).engine ≡ p.engine
  publish-engine topic p = ground arith

  same_result :
      (r s : RunResult) {a b : Option WorktreeArtifact} {E : Type 0}
      → ◌≡◌ {A = Result E (RunResult × Option WorktreeArtifact)} (ok (r, a)) (ok (s, b))
      → r ≡ s
  same_result r s q = ap (λ x. of_ok x) q
    where
      of_ok : {E : Type 0} → Result E (RunResult × Option WorktreeArtifact) → RunResult
      of_ok (ok x) = x.0
      of_ok (err e) = r

  -- the answer of the engine at the end
  accounted-Accounted :
      {A : Type 0} (p : Place H) (result : RunResult) (a : Option WorktreeArtifact) (topic : String)
      (r : Engine × Result Error A)
      → NotInProgress o.task_id r.0
      → ((x : A)
          → r.1 ≡ ok x
          → HasStatus o.task_id (if succeeded result then completed else failed) r.0)
      → Accounted (accounted o p result a topic r)
  accounted-Accounted p result a topic (e, ok x) n h = record {
    ended =
        subst (NotInProgress o.task_id) (sym (publish-engine topic (record p { engine = e }))) n;
    completes = λ s b q.
        subst (HasStatus o.task_id (if succeeded s then completed else failed))
          (sym (publish-engine topic (record p { engine = e })))
          (subst (λ z. HasStatus o.task_id (if succeeded z then completed else failed) e)
            (same_result result s q) (h x refl));
  }
  accounted-Accounted p result a topic (e, err x) n h = record {
    ended = n;
    completes = λ s b q. absurd (ground (arith, q));
  }

  settle-Accounted : (d : Disposed o) → Accounted (settle o d)
  unfolding settle
  settle-Accounted d = by d.outcome
    where
      by : (r : Result Failure RunResult) → Accounted (settle o (record d { outcome = r }))
      by (err f) = record {
        ended = fail_task-NotInProgress o.task_id d.place.engine;
        completes = λ s b q. absurd (ground (arith, q));
      }
      by (ok r) = elim (Bool-cases (succeeded r)) [
        | inl e ↦ rw e (
            accounted-Accounted d.place r d.artifact "tasks.completed"
              (complete_task o.task_id d.place.engine)
              (complete_task-NotInProgress o.task_id d.place.engine)
              (λ x q. rw e (complete_task-completed o.task_id d.place.engine x q)))
        | inr e ↦ rw e (
            accounted-Accounted d.place r d.artifact "tasks.failed"
              (fail_task o.task_id d.place.engine)
              (fail_task-NotInProgress o.task_id d.place.engine)
              (λ x q. rw e (fail_task-failed o.task_id d.place.engine x q)))
      ]

  abbrev fields : Session
  fields = new_fields o.repo_path (worktrees_dir o) (codes (wt_name o)) (codes "HEAD") true

  abbrev announced : Place H → Place H
  announced p = publish o "tasks.claimed" (logged o (task_claimed o.task_id) p)

  -- After its claim, a run with a name that a worktree may have ends with its task not in progress,
  -- whether it returns or raises, and whatever the runtime, the agent, git and the requests of other
  -- workers do: if it returns a result, the task is completed for a success and failed for another
  -- one.
  pub run_claimed-Accounted :
      (p : Place H)
      → validate_worktree_name (codes (wt_name o)) ≡ none
      → Accounted (run_claimed o p)
  unfolding run_claimed new_session
  run_claimed-Accounted p h =
      subst (λ v. Accounted (with_worktree o (announced p) (checked fields v))) (sym h)
        (settle-Accounted (dispose o (try_run o (announced p) fields)))

  -- A run with a name that no worktree may have raises after the claim, and leaves the task as it was
  -- claimed: it is not failed, and not completed.
  pub run_claimed-invalid_name :
      (p : Place H) (e : List ℕ)
      → validate_worktree_name (codes (wt_name o)) ≡ some e
      → ((run_claimed o p).1 ≡ err (worktree_failure (worktree_error e)))
        × ((run_claimed o p).0.engine ≡ p.engine)
  unfolding run_claimed new_session
  run_claimed-invalid_name p e h =
      subst
        (λ v.
          let r : Returned o = with_worktree o (announced p) (checked fields v) in
          (r.1 ≡ err (worktree_failure (worktree_error e))) × (r.0.engine ≡ p.engine))
        (sym h) (refl, publish-engine "tasks.claimed" (logged o (task_claimed o.task_id) p))

  -- With `keep_if_changed`, an artifact says that a worktree which was there is removed only if git
  -- showed that nothing is in it: its status exited with 0 and printed no line, and it counted 0
  -- commits over the base. `int` raises with a text.
  pub finalize_worktree-NothingThere :
      (partial : Bool) (w : H × Engine) (s : Session) (a : WorktreeArtifact)
      → o.result_policy ≡ keep_if_changed
      → s.created ≡ true
      → o.outside.exists w.0 ≡ true
      → IntRaises (shared o)
      → (finalize_worktree o partial w s).1 ≡ ok a
      → a.disposition ≡ removed
      → NothingThere (shared o) w s
  unfolding finalize_worktree
  finalize_worktree-NothingThere partial w s a policy c e law h d =
      by (has_changes (inspect_changes (shared o) w s).1) refl (
        subst (λ q. (finalize_with q (has_changes (inspect_changes (shared o) w s).1)).1 ≡ ok a)
          policy h)
    where
      finalize_with :
          WorktreeResultPolicy → Bool → ((H × Engine) × Session) × Result Raised WorktreeArtifact
      finalize_with q b =
          finalize (shared o) (action_for o q b) (some (inspect_changes (shared o) w s).1) partial
            (inspect_changes (shared o) w s).0 s

      by :
          (b : Bool)
          → has_changes (inspect_changes (shared o) w s).1 ≡ b
          → (finalize_with keep_if_changed b).1 ≡ ok a
          → NothingThere (shared o) w s
      by true q h = absurd (
          ground (
            arith,
            d,
            finalize-retained (shared o) (some (inspect_changes (shared o) w s).1) partial
                (inspect_changes (shared o) w s).0 s a h,
          ))
      by false q h =
          inspect-NothingThere (shared o) w s c e law
            (unchanged-Removable (shared o) (inspect_changes (shared o) w s).1 q)
