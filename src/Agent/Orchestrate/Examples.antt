-- ===== src/Agent/Orchestrate/Examples.antt =====
-- A run that succeeds in a worktree without changes, and one whose worktree has a refused name.
use forge_agent.Base.{
  ◌≡◌, refl, String, Bool, true, false, Option, none, some, List, [], ◌∷◌, Bool-cases, inl, inr,
  if◌then◌else◌, ok, err, Text, codes, text_eq, map, arith,
}
use forge_agent.Llm.Usage.{unused}
use forge_agent.Task.Tables.{Task, Engine, Status, in_progress, completed}
use forge_agent.Task.Engine.{complete_task, bind_worktree, serve_all}
use forge_agent.Agent.Types.{success, RunResult}
use forge_agent.Runtime.Worktree.{Process, exited, Outside, validate_worktree_name, no_changes}
use forge_agent.Runtime.Worktree.Session.{Session, worktree_error}
use forge_agent.Runtime.Worktree.Closing.{WorktreeArtifact, artifact, removed}
use forge_agent.Runtime.Worktree.Changes.{NothingThere, IntRaises}
use forge_agent.Agent.Orchestrate.{Orchestration, Place, keep_if_changed, worktree_failure, shared}
use forge_agent.Agent.Orchestrate.Run.{finalize_worktree, run_claimed}
use forge_agent.Agent.Orchestrate.Accounts.{
  Accounted, run_claimed-Accounted, run_claimed-invalid_name, finalize_worktree-NothingThere,
}

-- the state of the host is whether the directory is there
abbrev git : Bool → Text → List Text → Bool × Process
git w cwd (g ∷ command ∷ option ∷ args) =
    if text_eq command (codes "worktree")
    then (text_eq option (codes "add"), exited 0 [] [])
    else if text_eq command (codes "rev-parse")
    then (w, exited 0 (codes "abc") [])
    else if text_eq command (codes "rev-list")
    then (w, exited 0 (codes "0") [])
    else (w, exited 0 [] [])
git w cwd args = (w, exited 1 [] (codes "usage"))

abbrev outside : Outside Bool
outside = record {
  run = git;
  exists = λ w. w;
  mkdir = λ w. (w, none);
  rmtree = λ w. (false, none);
  bind = none;
  int_of_text = λ t. if text_eq t (codes "0") then ok 0 else err (codes "invalid literal");
}

abbrev result : RunResult
result = record {
  status = success;
  summary = "done";
  steps_taken = 3;
  usage = unused;
  patch = none;
  error = none;
  termination_reason = "";
  resource_reason = none;
}

abbrev orchestration : Option String → Orchestration Bool
orchestration worktree_name = record {
  outside = outside;
  error_text = λ e. codes "error";
  task_id = "t1";
  now = 0;
  description = "fix it";
  repo_path = codes "/r";
  worktree_name = worktree_name;
  result_policy = keep_if_changed;
  has_bus = true;
  sandbox = false;
  make_runtime = λ w. (w, none);
  preflight = λ w. (w, ok (true, ""));
  agent_run = λ w. (w, ok result);
  others = [];
  cleanup_runtime = λ w. (w, none);
}

abbrev claimed_engine : Engine
claimed_engine = record {
  tasks =
      (record {
        id = "t1";
        subject = "fix it";
        description = "fix it";
        status = in_progress;
        owner = some "agent";
        worktree = none;
        created_at = 0;
      })
      ∷ [];
  deps = [];
}

abbrev place : Place Bool
place = record { host = false; engine = claimed_engine; events = [] }

abbrev statuses : Engine → List Status
statuses e = map (λ (t : Task). t.status) e.tasks

completes : statuses (run_claimed (orchestration none) place).0.engine ≡ completed ∷ []
unfolding run_claimed complete_task bind_worktree serve_all validate_worktree_name
completes = refl

stays_in_progress :
    statuses (run_claimed (orchestration (some "a/b")) place).0.engine ≡ in_progress ∷ []
unfolding run_claimed validate_worktree_name
stays_in_progress = refl

int_raises : IntRaises (shared (orchestration none))
int_raises t e h = elim (Bool-cases (text_eq t (codes "0"))) [
  | inl q ↦ absurd (ground (arith, h, q))
  | inr q ↦ ground (arith, h, q)
]

abbrev session : Session
session = record {
  repo_path = codes "/r";
  name = codes "task-t1";
  base = codes "HEAD";
  path = codes "/r/.worktrees/task-t1";
  created = true;
  discard_changes = true;
  keep = false;
  base_commit = some (codes "abc");
}

abbrev report : WorktreeArtifact
report =
    artifact (shared (orchestration none)) session removed none (some (codes "abc")) no_changes
      false false

removes :
    (finalize_worktree (orchestration none) false (true, claimed_engine) session).1 ≡ ok report
unfolding finalize_worktree
removes = refl

default_is_valid : validate_worktree_name (codes "task-t1") ≡ none
unfolding validate_worktree_name
default_is_valid = refl

abbrev refusal : Text
refusal =
    codes
      "Invalid worktree name 'a/b': only letters, digits, dots, underscores, dashes (1-64 chars)"

slash_is_invalid : validate_worktree_name (codes "a/b") ≡ some refusal
unfolding validate_worktree_name
slash_is_invalid = refl

run_claimed-Accounted_example :
    Accounted (orchestration none) (run_claimed (orchestration none) place)
run_claimed-Accounted_example = run_claimed-Accounted (orchestration none) place default_is_valid

run_claimed-invalid_name_example :
    let o = orchestration (some "a/b") in
    ((run_claimed o place).1 ≡ err (worktree_failure (worktree_error refusal)))
    × ((run_claimed o place).0.engine ≡ claimed_engine)
run_claimed-invalid_name_example =
    run_claimed-invalid_name (orchestration (some "a/b")) place refusal slash_is_invalid

finalize_worktree-NothingThere_example :
    NothingThere (shared (orchestration none)) (true, claimed_engine) session
finalize_worktree-NothingThere_example =
    finalize_worktree-NothingThere (orchestration none) false (true, claimed_engine) session report
      refl refl refl int_raises removes refl
