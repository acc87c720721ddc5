-- ===== src/Agent/Orchestrate/Run.antt =====
-- agent/orchestrate.py: the end of `orchestrate_run`, and the whole. The log of an exception has no text
-- of it.
use forge_agent.Base.{
  String, Bool, true, not, ◌||◌, Option, none, some, [], if◌then◌else◌, Result, ok, err, codes,
}
use forge_agent.Task.Tables.{Engine, Error}
use forge_agent.Task.Engine.{create_task, claim_task, complete_task, fail_task}
use forge_agent.Agent.Types.{RunResult}
use forge_agent.Runtime.Worktree.{has_changes}
use forge_agent.Runtime.Worktree.Session.{Session, Raised, new_session, inspect_changes}
use forge_agent.Runtime.Worktree.Closing.{
  WorktreeFinalizeAction, discard, retain, retained, removed, WorktreeArtifact, finalize,
}
use forge_agent.Agent.Orchestrate.{
  WorktreeResultPolicy, always_discard, keep_if_changed, task_claimed, worktree_retained,
  worktree_removed, task_failed, Failure, engine_error, worktree_failure, Orchestration, Place,
  succeeded, shared, logged, publish, Tried, try_run, worktrees_dir, first_chars, wt_name,
}

module _ {H : Type 0} (o : Orchestration H) where
  abbrev pub action_for : WorktreeResultPolicy → Bool → WorktreeFinalizeAction
  action_for always_discard changed = discard
  action_for keep_if_changed changed = if changed then retain else discard

  -- _finalize_worktree
  unfoldable pub finalize_worktree :
      Bool → H × Engine → Session → ((H × Engine) × Session) × Result Raised WorktreeArtifact
  unfolding inspect_changes has_changes finalize
  finalize_worktree partial w s =
      let c = inspect_changes (shared o) w s in
      finalize (shared o) (action_for o.result_policy (has_changes c.1)) (some c.1) partial c.0 s

  -- _record_worktree_finalized
  abbrev record_finalized : WorktreeArtifact → String → Place H → Place H
  record_finalized a reason p = elim a.disposition [
    | retained ↦ publish o "worktree.retained" (logged o (worktree_retained a reason) p)
    | removed ↦ publish o "worktree.removed" (logged o (worktree_removed reason) p)
  ]

  abbrev pub is_partial : Result Failure RunResult → Bool
  is_partial (ok r) = not (succeeded r)
  is_partial (err f) = true

  abbrev final_reason : Tried o → String
  final_reason t = elim t.outcome [ ok r ↦ t.worktree_exit_reason | err f ↦ "exception" ]

  -- what the end of a run decides from
  pub record Disposed : Type 0 where
    pub place : Place H
    pub artifact : Option WorktreeArtifact
    pub outcome : Result Failure RunResult

  -- an exception of the run stays before one of the finalization
  abbrev first_failure : Result Failure RunResult → Raised → Result Failure RunResult
  first_failure (ok r) x = err (worktree_failure x)
  first_failure (err f) x = err f

  abbrev disposed : Tried o → ((H × Engine) × Session) × Result Raised WorktreeArtifact → Disposed
  disposed t (((h, e), s), ok a) = record {
    place = record_finalized a (final_reason t) (record t.place { host = h; engine = e });
    artifact = some a;
    outcome = t.outcome;
  }
  disposed t (((h, e), s), err x) = record {
    place = record t.place { host = h; engine = e };
    artifact = none;
    outcome = first_failure t.outcome x;
  }

  unfoldable pub dispose : Tried o → Disposed
  unfolding finalize_worktree
  dispose t =
      if t.worktree_created || t.session.created
      then disposed t
          (finalize_worktree (is_partial t.outcome) (t.place.host, t.place.engine) t.session)
      else record { place = t.place; artifact = none; outcome = t.outcome }

  -- what orchestrate_run returns: the result with its artifact, or an exception
  abbrev pub Returned : Type 0
  Returned = Place H × Result Failure (RunResult × Option WorktreeArtifact)

  abbrev pub accounted :
      {A : Type 0}
      → Place H
      → RunResult
      → Option WorktreeArtifact
      → String
      → Engine × Result Error A
      → Returned
  accounted p r a topic (e, ok x) = (publish o topic (record p { engine = e }), ok (r, a))
  accounted p r a topic (e, err x) = (record p { engine = e }, err (engine_error x))

  -- the end of orchestrate_run
  unfoldable pub settle : Disposed → Returned
  settle d = elim d.outcome [
    | err f ↦ (
      logged o (task_failed "exception")
          (record d.place { engine = (fail_task o.task_id d.place.engine).0 }),
      err f,
    )
    | ok r ↦
        if succeeded r
        then accounted d.place r d.artifact "tasks.completed"
            (complete_task o.task_id d.place.engine)
        else accounted d.place r d.artifact "tasks.failed" (fail_task o.task_id d.place.engine)
  ]

  -- orchestrate_run after the claim; the constructor of the session stands outside the `try`
  abbrev pub with_worktree : Place H → Result Raised Session → Returned
  with_worktree p (err x) = (p, err (worktree_failure x))
  with_worktree p (ok s) = settle (dispose (try_run o p s))

  unfoldable pub run_claimed : Place H → Returned
  unfolding new_session try_run dispose settle
  run_claimed p =
      let q = publish o "tasks.claimed" (logged o (task_claimed o.task_id) p) in
      with_worktree q
        (new_session o.repo_path (worktrees_dir o) (codes (wt_name o)) (codes "HEAD") true)

  abbrev claimed : Place H → Engine × Result Error Bool → Returned
  claimed p (e, ok b) = run_claimed (record p { engine = e })
  claimed p (e, err x) = (record p { engine = e }, err (engine_error x))

  abbrev task_created : Place H → Engine × Result Error String → Returned
  task_created p (e, ok k) = claimed p (claim_task k "agent" e)
  task_created p (e, err x) = (record p { engine = e }, err (engine_error x))

  unfoldable pub orchestrate_run : Place H → Returned
  unfolding run_claimed
  orchestrate_run p =
      task_created p
        (create_task o.task_id o.now (first_chars 80 o.description) o.description [] p.engine)
