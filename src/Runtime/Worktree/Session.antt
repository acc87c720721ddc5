-- ===== src/Runtime/Worktree/Session.antt =====
-- runtime/worktree.py: `WorktreeSession`, a function for each of its methods over the session and the
-- state of the outside.
use forge_agent.Base.{
  ℕ, Bool, true, false, not, ◌||◌, Option, none, some, List, [], ◌∷◌, ◌++◌, map, if◌then◌else◌,
  Result, ok, err, length, Text, codes, strip, split_lines,
}
use forge_agent.Runtime.Worktree.{
  validate_worktree_name, Outside, run_git_sync, git_output_lines, porcelain_path, sorted_paths,
  WorktreeChanges, is_given, no_changes, inspection_failed,
}

pub record Session : Type 0 where
  pub repo_path : Text
  pub name : Text
  pub base : Text
  pub path : Text
  pub created : Bool
  pub discard_changes : Bool
  pub keep : Bool
  pub base_commit : Option Text

-- a WorktreeError, or another exception
pub data Raised : Type 0 where
  worktree_error : Text → Raised
  other_exception : Text → Raised

abbrev pub checked : Session → Option Text → Result Raised Session
checked s none = ok s
checked s (some e) = err (worktree_error e)

-- the fields that __init__ sets, with resolved paths
abbrev pub new_fields : Text → Text → Text → Text → Bool → Session
new_fields repo_path worktrees_dir name base discard_changes = record {
  repo_path = repo_path;
  name = name;
  base = base;
  path = worktrees_dir ++ (codes "/" ++ name);
  created = false;
  discard_changes = discard_changes;
  keep = false;
  base_commit = none;
}

-- __init__
unfoldable pub new_session : Text → Text → Text → Text → Bool → Result Raised Session
new_session repo_path worktrees_dir name base discard_changes =
    checked (new_fields repo_path worktrees_dir name base discard_changes)
      (validate_worktree_name name)

abbrev pub branch : Session → Text
branch s = codes "wt/" ++ s.name

abbrev pub known : Option Text → Text
known none = []
known (some b) = b

module _ {W : Type 0} (o : Outside W) where
  -- what a method leaves, and what it returns or raises
  abbrev pub Done : Type 0 → Type 0
  Done A = (W × Session) × Result Raised A

  abbrev pub run_git : W → Session → List Text → W × (Bool × Text)
  run_git w s args = run_git_sync o w s.repo_path args 60

  abbrev pub run_git_in : W → Session → List Text → W × (Bool × Text)
  run_git_in w s args = run_git_sync o w s.path args 30

  -- the end of create, with the worktree there
  abbrev bound : Session → W × Option Text → Done (Unit {0})
  bound s (w, none) = ((w, s), ok tt)
  bound s (w, some e) = ((w, s), err (other_exception e))

  abbrev bind_task : Session → W → Option (W → W × Option Text) → Done (Unit {0})
  bind_task s w none = ((w, s), ok tt)
  bind_task s w (some bind) = bound s (bind w)

  abbrev added : Session → W × (Bool × Text) → Done (Unit {0})
  added s (w, (true, out)) = bind_task (record s { created = true }) w o.bind
  added s (w, (false, out)) =
      ((w, s), err (worktree_error (codes "git worktree add failed: " ++ out)))

  abbrev add_worktree : W → Session → List Text → Done (Unit {0})
  add_worktree w s [] = ((w, s), err (other_exception (codes "list index out of range")))
  add_worktree w s (line ∷ lines) =
      let commit = strip line in
      let based : Session = record s { base_commit = some commit } in
      added based (
        run_git w based
          (codes "worktree" ∷ codes "add" ∷ codes "-b" ∷ branch s ∷ s.path ∷ commit ∷ []))

  abbrev with_base : Session → W × (Bool × Text) → Done (Unit {0})
  with_base s (w, (true, out)) = add_worktree w s (split_lines out)
  with_base s (w, (false, out)) = (
    (w, s),
    err (
        worktree_error
          (codes "Cannot resolve worktree base '" ++ (s.base ++ (codes "': " ++ out)))),
  )

  -- create after `mkdir`
  abbrev with_directory : Session → W × Option Text → Done (Unit {0})
  with_directory s (w, some e) = ((w, s), err (other_exception e))
  with_directory s (w, none) =
      if o.exists w
      then (
        (w, s),
        err (
            worktree_error
              (codes "Worktree '" ++ (s.name ++ (codes "' already exists at " ++ s.path)))),
      )
      else with_base s
          (run_git w s (codes "rev-parse" ∷ codes "--verify" ∷ (s.base ++ codes "^{commit}") ∷ []))

  unfoldable pub create : W → Session → Done (Unit {0})
  unfolding run_git_sync
  create w s = with_directory s (o.mkdir w)

  -- inspect_changes after `git diff`
  abbrev pub diffed : List Text → ℕ → W × (Bool × Text) → W × WorktreeChanges
  diffed status n (w, (true, out)) = (
    w,
    record {
      changed_files = sorted_paths (map porcelain_path status ++ git_output_lines out);
      uncommitted_count = length status;
      commit_count = n;
      inspection_error = none;
    },
  )
  diffed status n (w, (false, out)) = (w, inspection_failed (codes "git diff failed: " ++ out))

  abbrev pub numbered : Session → Text → List Text → W → Result Text ℕ → W × WorktreeChanges
  numbered s base status w (ok n) =
      diffed status n (run_git_in w s (codes "diff" ∷ codes "--name-only" ∷ base ∷ []))
  numbered s base status w (err e) = (w, inspection_failed e)

  -- after `git rev-list`
  abbrev pub counted : Session → Text → List Text → W × (Bool × Text) → W × WorktreeChanges
  counted s base status (w, (true, out)) = numbered s base status w (o.int_of_text (strip out))
  counted s base status (w, (false, out)) =
      (w, inspection_failed (codes "git rev-list failed: " ++ out))

  abbrev pub count_args : Text → List Text
  count_args base = codes "rev-list" ∷ codes "--count" ∷ (base ++ codes "..HEAD") ∷ []

  -- after `git status`
  abbrev pub with_status : Session → Text → W × (Bool × Text) → W × WorktreeChanges
  with_status s base (w, (true, out)) =
      counted s base (git_output_lines out) (run_git_in w s (count_args base))
  with_status s base (w, (false, out)) = (w, inspection_failed (codes "git status failed: " ++ out))

  abbrev pub status_args : List Text
  status_args = codes "status" ∷ codes "--porcelain=v1" ∷ codes "--untracked-files=all" ∷ []

  unfoldable pub inspect_changes : W → Session → W × WorktreeChanges
  unfolding run_git_sync git_output_lines porcelain_path sorted_paths
  inspect_changes w s =
      if not s.created || not (o.exists w)
      then (w, no_changes)
      else if not (is_given s.base_commit)
      then (w, inspection_failed (codes "worktree base commit is unknown"))
      else with_status s (known s.base_commit) (run_git_in w s status_args)

  -- count_changes; the pair (-1, -1) is `none`
  unfoldable pub count_changes : W → Session → W × Option (ℕ × ℕ)
  unfolding inspect_changes
  count_changes w s =
      let r = inspect_changes w s in
      (
        r.0,
        if is_given r.1.inspection_error
            then none
            else some (r.1.uncommitted_count, r.1.commit_count),
      )
