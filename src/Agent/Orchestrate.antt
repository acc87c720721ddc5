-- ===== src/Agent/Orchestrate.antt =====
-- agent/orchestrate.py: `orchestrate_run` over the task engine, a session of a worktree and the host.
-- The runtime, the agent and other workers' requests meanwhile are parameters. The log and the bus are
-- the list of what they were given, the newest first; they do not raise. The forwarding of events
-- between threads is not modelled.
pub mod Run
pub mod Accounts
mod Examples
use Prim.Native.Char.{code}
use forge_agent.Base.{
  zero, suc, is_space, ℕ, String, Bool, true, false, not, ◌&&◌, ◌||◌, Option, none, some, List, [],
  ◌∷◌, ◌++◌, leb, if◌then◌else◌, Result, ok, err, length, Text, codes, strip, concat, str_eq,
}
use forge_agent.Llm.Usage.{unused}
use forge_agent.Task.Tables.{Engine, Error}
use forge_agent.Task.Engine.{
  Request, create_task, claim_task, bind_worktree, complete_task, fail_task, serve_all,
}
use forge_agent.Agent.Types.{RunStatus, success, RunResult}
use forge_agent.Runtime.Worktree.{Outside, WorktreeChanges, has_changes}
use forge_agent.Runtime.Worktree.Session.{
  Session, Raised, new_session, known, create, inspect_changes,
}
use forge_agent.Runtime.Worktree.Closing.{
  WorktreeFinalizeAction, discard, retain, WorktreeDisposition, retained, removed, WorktreeArtifact,
  finalize,
}

pub data WorktreeResultPolicy : Type 0 where
  always_discard keep_if_changed : WorktreeResultPolicy

-- what the log and the bus are given
pub data RunEvent : Type 0 where
  task_claimed : String → RunEvent
  worktree_created : String → Text → RunEvent
  worktree_retained : WorktreeArtifact → String → RunEvent
  worktree_removed : String → RunEvent
  task_failed : String → RunEvent
  published : String → RunEvent

-- the exceptions of a run
pub data Failure : Type 0 where
  engine_error : Error → Failure
  worktree_failure : Raised → Failure
  preflight_failed : String → Failure
  exception : Text → Failure

-- The arguments of a run, and what the outside does in it: an exception is given by its text.
-- While the agent runs, other workers have requests to
-- the task engine.
pub record Orchestration (H : Type 0) : Type 0 where
  pub outside : Outside H
  pub error_text : Error → Text
  pub task_id : String
  pub now : ℕ
  pub description : String
  pub repo_path : Text
  pub worktree_name : Option String
  pub result_policy : WorktreeResultPolicy
  pub has_bus : Bool
  pub sandbox : Bool
  pub make_runtime : H → H × Option Text
  pub preflight : H → H × Result Text (Bool × String)
  pub agent_run : H → H × Result Text RunResult
  pub others : List Request
  pub cleanup_runtime : H → H × Option Text

pub record Place (H : Type 0) : Type 0 where
  pub host : H
  pub engine : Engine
  pub events : List RunEvent

-- RunResult.is_success
abbrev pub succeeded : RunResult → Bool
succeeded r = elim r.status [ success ↦ true | _ ↦ false ]

-- text[:n]
abbrev pub first_chars : ℕ → String → String
first_chars zero s = String.[]
first_chars (suc n) String.[] = String.[]
first_chars (suc n) (String.◌∷◌ c s) = String.◌∷◌ c (first_chars n s)

-- output.strip()
abbrev before_spaces : String → String
before_spaces String.[] = String.[]
before_spaces (String.◌∷◌ c s) =
    let rest = before_spaces s in
    if str_eq rest "" && is_space (code c) then String.[] else String.◌∷◌ c rest

abbrev strip_string : String → String
strip_string String.[] = String.[]
strip_string (String.◌∷◌ c s) =
    let rest = strip_string s in if is_space (code c) then rest else before_spaces (String.◌∷◌ c s)

module _ {H : Type 0} (o : Orchestration H) where
  -- worktree_name or f"task-{task_id}"
  abbrev name_or_default : Option String → String
  name_or_default none = concat ("task-" ∷ o.task_id ∷ [])
  name_or_default (some name) = if str_eq name "" then concat ("task-" ∷ o.task_id ∷ []) else name

  abbrev pub wt_name : String
  wt_name = name_or_default o.worktree_name

  -- self._repo_path / ".worktrees"
  abbrev pub worktrees_dir : Text
  worktrees_dir = o.repo_path ++ codes "/.worktrees"

  -- the binding of a worktree is a request to the task engine
  abbrev bind_task : H × Engine → (H × Engine) × Option Text
  bind_task (h, e) =
      let r = bind_worktree o.task_id wt_name e in
      elim r.1 [ ok u ↦ ((h, r.0), none) | err x ↦ ((h, r.0), some (o.error_text x)) ]

  -- the outside of the session: the host with the task engine
  abbrev pub shared : Outside (H × Engine)
  shared = record {
    run = λ w cwd args. let r = o.outside.run w.0 cwd args in ((r.0, w.1), r.1);
    exists = λ w. o.outside.exists w.0;
    mkdir = λ w. let r = o.outside.mkdir w.0 in ((r.0, w.1), r.1);
    rmtree = λ w. let r = o.outside.rmtree w.0 in ((r.0, w.1), r.1);
    bind = some bind_task;
    int_of_text = o.outside.int_of_text;
  }

  abbrev pub logged : RunEvent → Place H → Place H
  logged e p = record p { events = e ∷ p.events }

  abbrev pub publish : String → Place H → Place H
  publish topic p = if o.has_bus then logged (published topic) p else p

  -- what the `try` leaves: the session, whether create returned, and the result or the exception
  pub record Tried : Type 0 where
    pub place : Place H
    pub session : Session
    pub worktree_created : Bool
    pub worktree_exit_reason : String
    pub outcome : Result Failure RunResult

  abbrev pub Done : Type 0
  Done = Place H × Result Failure RunResult

  abbrev attempted : Result Text RunResult → Result Failure RunResult
  attempted (ok r) = ok r
  attempted (err e) = err (exception e)

  -- from the registry to the end of Agent.run
  abbrev run_agent : Place H → Done
  run_agent p =
      let r = o.agent_run p.host in
      (record p { host = r.0; engine = serve_all o.others p.engine }, attempted r.1)

  abbrev or_unknown : String → String
  or_unknown detail = if str_eq detail "" then "unknown sandbox error" else detail

  abbrev preflighted : Place H → H × Result Text (Bool × String) → Done
  preflighted p (h, ok (true, output)) = run_agent (record p { host = h })
  preflighted p (h, ok (false, output)) =
      (record p { host = h }, err (preflight_failed (or_unknown (strip_string output))))
  preflighted p (h, err e) = (record p { host = h }, err (exception e))

  -- the inner `try`
  abbrev in_runtime : Place H → Done
  in_runtime p = if o.sandbox then preflighted p (o.preflight p.host) else run_agent p

  abbrev cleaned_up : Result Failure RunResult → Place H → H × Option Text → Done
  cleaned_up r p (h, none) = (record p { host = h }, r)
  cleaned_up r p (h, some e) = (record p { host = h }, err (exception e))

  abbrev with_runtime : Place H → H × Option Text → Done
  with_runtime p (h, some e) = (record p { host = h }, err (exception e))
  with_runtime p (h, none) =
      let r = in_runtime (record p { host = h }) in cleaned_up r.1 r.0 (o.cleanup_runtime r.0.host)

  -- the `except` clauses
  abbrev failed_preflight : String → RunResult
  failed_preflight reason = record {
    status = RunStatus.failed;
    summary = reason;
    steps_taken = 0;
    usage = unused;
    patch = none;
    error = some reason;
    termination_reason = "";
    resource_reason = none;
  }

  abbrev excepted : Session → Bool → Done → Tried
  excepted s created (p, err (preflight_failed detail)) =
      let reason = concat ("Sandbox preflight failed: " ∷ detail ∷ []) in
      record {
        place = logged (task_failed reason) p;
        session = s;
        worktree_created = created;
        worktree_exit_reason = "preflight_failed";
        outcome = ok (failed_preflight reason);
      }
  excepted s created (p, r) = record {
    place = p;
    session = s;
    worktree_created = created;
    worktree_exit_reason = "normal";
    outcome = r;
  }

  abbrev after_create : Place H → ((H × Engine) × Session) × Result Raised (Unit {0}) → Tried
  after_create p (((h, e), s), err x) =
      excepted s false (record p { host = h; engine = e }, err (worktree_failure x))
  after_create p (((h, e), s), ok u) =
      let q = publish "worktree.created" (
        logged (worktree_created wt_name (known s.base_commit))
          (record p { host = h; engine = e })) in
      excepted s true (with_runtime q (o.make_runtime q.host))

  -- the `try` with its `except` clauses
  unfoldable pub try_run : Place H → Session → Tried
  unfolding create
  try_run p s = after_create p (create shared (p.host, p.engine) s)
