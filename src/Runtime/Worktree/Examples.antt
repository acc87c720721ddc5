-- ===== src/Runtime/Worktree/Examples.antt =====
-- A repository with one directory for worktrees, where git reports two changed files.
use forge_agent.Base.{
  ℕ, ◌≡◌, inl, inr, ◌↔◌, refl, Bool, true, false, Option, none, some, List, [], ◌∷◌, ◌++◌,
  Bool-cases, if◌then◌else◌, Result, ok, err, Text, codes, text_eq, arith,
}
use forge_agent.Runtime.Worktree.{Process, exited, Outside, validate_worktree_name, no_changes}
use forge_agent.Runtime.Worktree.Session.{Session, Raised, create, inspect_changes}
use forge_agent.Runtime.Worktree.Closing.{
  WorktreeArtifact, discard, removed, artifact, cleanup, head_commit, finalize, leave, with_session,
}
use forge_agent.Runtime.Worktree.Names.{IsValidName, validate_worktree_name_iff}
use forge_agent.Runtime.Worktree.Cleanup.{
  RmtreeRemoves, IsGone, Finalized, with_session-IsGone, finalize-Finalized,
}
use forge_agent.Runtime.Worktree.Changes.{IntRaises}

abbrev lines : List Text → Text
lines [] = []
lines (l ∷ ls) = l ++ (10 ∷ lines ls)

-- the state is whether the directory is there
abbrev git : Bool → Text → List Text → Bool × Process
git w cwd (g ∷ command ∷ option ∷ args) =
    if text_eq command (codes "worktree")
    then (text_eq option (codes "add"), exited 0 [] [])
    else if text_eq command (codes "rev-parse")
    then (w, exited 0 (codes "abc") [])
    else if text_eq command (codes "status")
    then (w, exited 0 (lines (codes " M foo.py" ∷ codes " M bar.py" ∷ [])) [])
    else if text_eq command (codes "diff")
    then (w, exited 0 (lines (codes "bar.py" ∷ codes "foo.py" ∷ [])) [])
    else (w, exited 0 (codes "0") [])
git w cwd args = (w, exited 1 [] (codes "usage"))

abbrev int_of_text : Text → Result Text ℕ
int_of_text t = if text_eq t (codes "0") then ok 0 else err (codes "invalid literal")

abbrev outside : Outside Bool
outside = record {
  run = git;
  exists = λ w. w;
  mkdir = λ w. (w, none);
  rmtree = λ w. (false, none);
  bind = none;
  int_of_text = int_of_text;
}

abbrev session : Bool → Option Text → Session
session created base_commit = record {
  repo_path = codes "/r";
  name = codes "feat-x";
  base = codes "HEAD";
  path = codes "/r/.worktrees/feat-x";
  created = created;
  discard_changes = true;
  keep = false;
  base_commit = base_commit;
}

abbrev there : Session
there = session true (some (codes "abc"))

accepts_newline : validate_worktree_name (codes "feat-x" ++ 10 ∷ []) ≡ none
unfolding validate_worktree_name
accepts_newline = refl

-- the output of git is stripped, so the first line of the status begins without its space
loses_a_character :
    (inspect_changes outside true there).1.changed_files
    ≡ codes "bar.py" ∷ codes "foo.py" ∷ codes "oo.py" ∷ []
unfolding inspect_changes
loses_a_character = refl

abbrev body : Bool → Session → (Bool × Session) × Option Raised
body w s = ((w, s), none)

ends_well : (with_session outside body false (session false none)).1 ≡ none
unfolding with_session create leave cleanup
ends_well = refl

rmtree_removes : RmtreeRemoves outside
rmtree_removes w e = refl

int_raises : IntRaises outside
int_raises t e h = elim (Bool-cases (text_eq t (codes "0"))) [
  | inl q ↦ absurd (ground (arith, h, q))
  | inr q ↦ ground (arith, h, q)
]

abbrev report : WorktreeArtifact
report = artifact outside there removed none (some (codes "abc")) no_changes false false

discards : (finalize outside discard (some no_changes) false true there).1 ≡ ok report
unfolding finalize head_commit cleanup
discards = refl

validate_worktree_name_iff_example :
    (validate_worktree_name (codes "feat-x") ≡ none) ↔ IsValidName (codes "feat-x")
validate_worktree_name_iff_example = validate_worktree_name_iff (codes "feat-x")

with_session-IsGone_example :
    IsGone outside (with_session outside body false (session false none)).0
with_session-IsGone_example =
    with_session-IsGone outside body false (session false none) rmtree_removes ends_well

finalize-Finalized_example :
    Finalized outside there (finalize outside discard (some no_changes) false true there) report
finalize-Finalized_example =
    finalize-Finalized outside discard (some no_changes) false true there report rmtree_removes
      discards
