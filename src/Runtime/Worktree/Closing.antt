-- ===== src/Runtime/Worktree/Closing.antt =====
-- runtime/worktree.py: the methods of `WorktreeSession` that end its worktree.
use forge_agent.Base.{
  Bool, true, false, not, ◌&&◌, ◌||◌, Option, none, some, [], ◌∷◌, ◌++◌, leb, if◌then◌else◌, ok,
  err, length, Text, codes, strip, split_lines,
}
use forge_agent.Runtime.Worktree.{Outside, run_git_sync, WorktreeChanges, has_changes, is_given}
use forge_agent.Runtime.Worktree.Session.{
  Session, Raised, worktree_error, other_exception, known, branch, Done, create, inspect_changes,
  run_git, run_git_in,
}

pub data WorktreeFinalizeAction : Type 0 where
  discard retain : WorktreeFinalizeAction

pub data WorktreeDisposition : Type 0 where
  removed retained : WorktreeDisposition

pub record WorktreeArtifact : Type 0 where
  pub disposition : WorktreeDisposition
  pub branch : Text
  pub path : Option Text
  pub base_commit : Text
  pub head_commit : Option Text
  pub changes : WorktreeChanges
  pub partial : Bool
  pub cleanup_required : Bool

-- self._base_commit or self._base
abbrev base_or : Session → Text
base_or s = if is_given s.base_commit then known s.base_commit else s.base

module _ {W : Type 0} (o : Outside W) where
  -- the end of a removal, with the directory gone or not
  abbrev pub gone : W → Session → Done o (Unit {0})
  gone w s =
      if o.exists w
      then ((w, s), err (worktree_error (codes "Worktree directory still exists: " ++ s.path)))
      else ((w, record s { created = false }), ok tt)

  abbrev pub tree_removed : Session → W × Option Text → Done o (Unit {0})
  tree_removed s (w, none) = gone w s
  tree_removed s (w, some e) = (
    (w, s),
    err (
        worktree_error
          (codes "Failed to remove worktree directory " ++ (s.path ++ (codes ": " ++ e)))),
  )

  -- the step 3 of _cleanup
  abbrev pub remove_directory : W → Session → Done o (Unit {0})
  remove_directory w s = if o.exists w then tree_removed s (o.rmtree w) else gone w s

  -- the steps 1 to 3 of _cleanup
  unfoldable pub remove : W → Session → Done o (Unit {0})
  unfolding run_git_sync
  remove w s =
      let r = run_git o w s (codes "worktree" ∷ codes "remove" ∷ codes "--force" ∷ s.path ∷ []) in
      let b = run_git o r.0 s (codes "branch" ∷ codes "-D" ∷ branch s ∷ []) in
      remove_directory b.0 s

  abbrev pub residual_removed : Session → W × Option Text → Done o (Unit {0})
  residual_removed s (w, none) = ((w, s), ok tt)
  residual_removed s (w, some e) = (
    (w, s),
    err (
        worktree_error
          (codes "Failed to remove residual worktree directory " ++ (s.path ++ (codes ": " ++ e)))),
  )

  -- the removal after an inspection, if that allows it
  abbrev pub remove_unchanged : Session → W × WorktreeChanges → Done o (Unit {0})
  remove_unchanged s (w, c) =
      if is_given c.inspection_error
      then ((w, s), ok tt)
      else if has_changes c
      then ((w, s), ok tt)
      else remove w s

  -- _cleanup
  unfoldable pub cleanup : Bool → Bool → W → Session → Done o (Unit {0})
  unfolding inspect_changes has_changes remove
  cleanup force honor_keep w s =
      if honor_keep && s.keep
      then ((w, s), ok tt)
      else if not s.created
      then (if o.exists w then residual_removed s (o.rmtree w) else ((w, s), ok tt))
      else if not force
      then remove_unchanged s (inspect_changes o w s)
      else remove w s

  abbrev head_of : Bool × Text → Option Text
  head_of (okay, out) =
      if okay && not (leb (length (strip out)) 0)
      then (elim (split_lines out) [ [] ↦ none | line ∷ lines ↦ some (strip line) ])
      else none

  -- _head_commit
  unfoldable pub head_commit : W → Session → W × Option Text
  unfolding run_git_sync
  head_commit w s =
      if not s.created || not (o.exists w)
      then (w, none)
      else (let r = run_git_in o w s (codes "rev-parse" ∷ codes "HEAD" ∷ []) in (r.0, head_of r.1))

  abbrev pub artifact :
      Session
      → WorktreeDisposition
      → Option Text
      → Option Text
      → WorktreeChanges
      → Bool
      → Bool
      → WorktreeArtifact
  artifact s disposition path head changes partial cleanup_required = record {
    disposition = disposition;
    branch = branch s;
    path = path;
    base_commit = base_or s;
    head_commit = head;
    changes = changes;
    partial = partial;
    cleanup_required = cleanup_required;
  }

  abbrev pub snapshot_of : W → Session → Option WorktreeChanges → W × WorktreeChanges
  snapshot_of w s none = inspect_changes o w s
  snapshot_of w s (some c) = (w, c)

  abbrev pub discarded :
      WorktreeChanges → Bool → Option Text → Done o (Unit {0}) → Done o WorktreeArtifact
  discarded c partial head ((w, s), ok u) =
      ((w, s), ok (artifact s removed none head c partial false))
  discarded c partial head ((w, s), err e) = ((w, s), err e)

  unfoldable pub finalize :
      WorktreeFinalizeAction → Option WorktreeChanges → Bool → W → Session → Done o WorktreeArtifact
  unfolding inspect_changes head_commit cleanup
  finalize action changes partial w s =
      let c = snapshot_of w s changes in
      let h = head_commit c.0 s in
      elim action [
        | retain ↦ ((h.0, s), ok (artifact s retained (some s.path) h.1 c.1 partial true))
        | discard ↦ discarded c.1 partial h.1 (cleanup true false h.0 s)
      ]

  -- keep()
  unfoldable pub keep_worktree : Session → Session
  keep_worktree s = record s { keep = true }

  abbrev pub or_default : Bool → Option Bool → Bool
  or_default d none = d
  or_default d (some b) = b

  unfoldable pub close : Option Bool → W → Session → Done o (Unit {0})
  unfolding cleanup
  close discard_changes w s = cleanup (or_default s.discard_changes discard_changes) true w s

  -- __aexit__, and the exception that leaves the `async with` block
  abbrev pub after_cleanup : Option Raised → Done o (Unit {0}) → (W × Session) × Option Raised
  after_cleanup exc (ws, ok u) = (ws, exc)
  after_cleanup none (ws, err e) = (ws, some e)
  after_cleanup (some x) (ws, err (worktree_error e)) = (ws, some x)
  after_cleanup (some x) (ws, err (other_exception e)) = (ws, some (other_exception e))

  unfoldable pub leave : Option Raised → W → Session → (W × Session) × Option Raised
  unfolding cleanup
  leave exc w s = after_cleanup exc (cleanup true false w s)

  abbrev pub entered :
      (W → Session → (W × Session) × Option Raised)
      → Done o (Unit {0})
      → (W × Session) × Option Raised
  entered body ((w, s), err e) = ((w, s), some e)
  entered body ((w, s), ok u) = let r = body w s in leave r.1 r.0.0 r.0.1

  -- async with WorktreeSession(...) as wt: body
  unfoldable pub with_session :
      (W → Session → (W × Session) × Option Raised) → W → Session → (W × Session) × Option Raised
  unfolding create leave
  with_session body w s = entered body (create o w s)
