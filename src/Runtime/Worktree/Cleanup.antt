-- ===== src/Runtime/Worktree/Cleanup.antt =====
-- A session that ends without an exception leaves no worktree behind, unless it is retained.
use forge_agent.Base.{
  ◌≡◌, ◌⊎◌, inl, inr, refl, sym, Bool, true, false, not, Option, none, some, Bool-cases, subst,
  if◌then◌else◌, ok, err, arith, Text,
}
use forge_agent.Runtime.Worktree.{Outside, WorktreeChanges}
use forge_agent.Runtime.Worktree.Session.{
  Session, Raised, worktree_error, other_exception, Done, create,
}
use forge_agent.Runtime.Worktree.Closing.{
  WorktreeFinalizeAction, discard, retain, removed, retained, WorktreeArtifact, gone, tree_removed,
  residual_removed, remove_directory, remove, cleanup, discarded, finalize, after_cleanup, leave,
  entered, with_session,
}

module _ {W : Type 0} (o : Outside W) where
  -- shutil.rmtree raises unless the directory is gone
  abbrev pub RmtreeRemoves : Type 0
  RmtreeRemoves = (w : W) → (o.rmtree w).1 ≡ none → o.exists (o.rmtree w).0 ≡ false

  -- no directory, and a session without a worktree
  pub record IsGone (ws : W × Session) : Type 0 where
    pub no_directory : o.exists ws.0 ≡ false
    pub not_created : ws.1.created ≡ false

  -- a method that returns leaves nothing
  abbrev Leaves : Done o (Unit {0}) → Type 0
  Leaves r = r.1 ≡ ok tt → IsGone r.0

  gone-Leaves : (w : W) (s : Session) → Leaves (gone o w s)
  gone-Leaves w s = elim (Bool-cases (o.exists w)) [
    | inl h ↦ λ e. absurd (ground (arith, h, e))
    | inr h ↦ rw h (λ e. record { no_directory = h; not_created = refl })
  ]

  if-Leaves :
      {p q : Done o (Unit {0})} (b : Bool)
      → (b ≡ true → Leaves p)
      → (b ≡ false → Leaves q)
      → Leaves (if b then p else q)
  if-Leaves true h k = h refl
  if-Leaves false h k = k refl

  tree_removed-Leaves : (s : Session) (r : W × Option Text) → Leaves (tree_removed o s r)
  tree_removed-Leaves s (w, none) = gone-Leaves w s
  tree_removed-Leaves s (w, some e) = λ q. absurd (ground (arith, q))

  remove_directory-Leaves : (w : W) (s : Session) → Leaves (remove_directory o w s)
  remove_directory-Leaves w s =
      if-Leaves (o.exists w) (λ h. tree_removed-Leaves s (o.rmtree w)) (λ h. gone-Leaves w s)

  remove-Leaves : (w : W) (s : Session) → Leaves (remove o w s)
  unfolding remove
  remove-Leaves w s = remove_directory-Leaves _ s

  residual-Leaves :
      (s : Session) (r : W × Option Text)
      → s.created ≡ false
      → (r.1 ≡ none → o.exists r.0 ≡ false)
      → Leaves (residual_removed o s r)
  residual-Leaves s (w, none) c h = λ q. record { no_directory = h refl; not_created = c }
  residual-Leaves s (w, some e) c h = λ q. absurd (ground (arith, q))

  pub cleanup-Leaves : (w : W) (s : Session) → RmtreeRemoves → Leaves (cleanup o true false w s)
  unfolding cleanup
  cleanup-Leaves w s law =
      if-Leaves (not s.created)
        (λ c.
          if-Leaves (o.exists w) (λ h. residual-Leaves s (o.rmtree w) (ground (arith, c)) (law w))
            (λ h e. record { no_directory = h; not_created = ground (arith, c) }))
        (λ c. remove-Leaves w s)

  leave-cases :
      (exc : Option Raised) (r : Done o (Unit {0}))
      → (after_cleanup o exc r).1 ≡ none
      → (exc ≡ none) × (r.1 ≡ ok tt) × ((after_cleanup o exc r).0 ≡ r.0)
  leave-cases none (ws, ok u) h = (refl, refl, refl)
  leave-cases (some x) (ws, ok u) h = absurd (ground (arith, h))
  leave-cases none (ws, err e) h = absurd (ground (arith, h))
  leave-cases (some x) (ws, err (worktree_error e)) h = absurd (ground (arith, h))
  leave-cases (some x) (ws, err (other_exception e)) h = absurd (ground (arith, h))

  leave-IsGone :
      (exc : Option Raised) (w : W) (s : Session)
      → RmtreeRemoves
      → (leave o exc w s).1 ≡ none
      → IsGone (leave o exc w s).0
  unfolding leave
  leave-IsGone exc w s law h =
      let (x, r, e) = leave-cases exc (cleanup o true false w s) h in
      subst IsGone (sym e) (cleanup-Leaves w s law r)

  entered-IsGone :
      (body : W → Session → (W × Session) × Option Raised) (r : Done o (Unit {0}))
      → RmtreeRemoves
      → (entered o body r).1 ≡ none
      → IsGone (entered o body r).0
  entered-IsGone body ((w, s), ok u) law h = leave-IsGone _ _ _ law h
  entered-IsGone body ((w, s), err e) law h = absurd (ground (arith, h))

  -- An `async with` block that ends without an exception, whatever its body does with the worktree
  -- and the session, leaves no directory, and a session without a worktree; `rmtree` raises if it
  -- does not remove the directory.
  pub with_session-IsGone :
      (body : W → Session → (W × Session) × Option Raised) (w : W) (s : Session)
      → RmtreeRemoves
      → (with_session o body w s).1 ≡ none
      → IsGone (with_session o body w s).0
  unfolding with_session
  with_session-IsGone body w s law h = entered-IsGone body (create o w s) law h

  -- what `finalize` promises: an artifact of a removed worktree has no path, and nothing is left; one
  -- of a retained worktree has its path, and the session is as it was
  pub record Finalized (s : Session) (r : Done o WorktreeArtifact) (a : WorktreeArtifact)
      : Type 0 where
    pub fate :
        ((a.disposition ≡ removed) × (a.path ≡ none) × (a.cleanup_required ≡ false) × IsGone r.0)
        ⊎ ((a.disposition ≡ retained)
            × (a.path ≡ some s.path)
            × (a.cleanup_required ≡ true)
            × (r.0.1 ≡ s))

  discarded-Finalized :
      (s : Session) (c : WorktreeChanges) (partial : Bool) (head : Option Text)
      (r : Done o (Unit {0})) (a : WorktreeArtifact)
      → Leaves r
      → (discarded o c partial head r).1 ≡ ok a
      → Finalized s (discarded o c partial head r) a
  discarded-Finalized s c partial head (ws, ok u) a l h = record {
    fate = inl (ground (arith, h), ground (arith, h), ground (arith, h), l refl);
  }
  discarded-Finalized s c partial head (ws, err e) a l h = absurd (ground (arith, h))

  -- Given that rmtree raises if it does not remove the directory: when finalize returns an artifact
  -- that says `removed`, the artifact has no path, the directory is gone and the session has no
  -- worktree. When it says `retained`, it has the path of the session, asks for a cleanup, and the
  -- session is as it was.
  pub finalize-Finalized :
      (action : WorktreeFinalizeAction) (changes : Option WorktreeChanges) (partial : Bool) (w : W)
      (s : Session) (a : WorktreeArtifact)
      → RmtreeRemoves
      → (finalize o action changes partial w s).1 ≡ ok a
      → Finalized s (finalize o action changes partial w s) a
  unfolding finalize
  finalize-Finalized retain changes partial w s a law h = record {
    fate = inr (ground (arith, h), ground (arith, h), ground (arith, h), refl);
  }
  finalize-Finalized discard changes partial w s a law h =
      discarded-Finalized s _ partial _ (cleanup o true false _ s) a (cleanup-Leaves _ s law) h

  -- what a retained worktree's artifact says
  pub finalize-retained :
      (changes : Option WorktreeChanges) (partial : Bool) (w : W) (s : Session)
      (a : WorktreeArtifact)
      → (finalize o retain changes partial w s).1 ≡ ok a
      → a.disposition ≡ retained
  unfolding finalize
  finalize-retained changes partial w s a h = ground (arith, h)
