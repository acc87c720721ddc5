-- ===== src/Runtime/Worktree/Changes.antt =====
-- A close that keeps changes removes a worktree only if git shows that nothing is in it.
use forge_agent.Base.{
  ℕ, ◌≡◌, ◌⊎◌, inl, inr, refl, ap, subst, ◌∙◌, Bool, true, false, Option, none, some, List, [], ◌∷◌,
  Bool-cases, length, ltb, arith, Result, ok, err, Text, codes, strip,
}
use forge_agent.Runtime.Worktree.{
  Outside, run_git_sync, git_output_lines, WorktreeChanges, has_changes, is_given,
}
use forge_agent.Runtime.Worktree.Session.{
  Session, known, run_git_in, status_args, count_args, with_status, counted, numbered, diffed,
  inspect_changes,
}
use forge_agent.Runtime.Worktree.Closing.{remove_unchanged, cleanup, close}
use forge_agent.Runtime.Worktree.Output.{Silent, git_output-Silent}

length-zero : {A : Type 0} (xs : List A) → ltb 0 (length xs) ≡ false → xs ≡ []
length-zero [] h = refl
length-zero (x ∷ xs) h = absurd (ground (arith, h))

module _ {W : Type 0} (o : Outside W) where
  -- `int` raises with a text
  abbrev pub IntRaises : Type 0
  IntRaises = (t e : Text) → o.int_of_text t ≡ err e → is_given (some e) ≡ true

  -- What git shows of a worktree with nothing in it: the status has no line, and no commit stands
  -- over its base.
  pub record NothingThere (w : W) (s : Session) : Type 0 where
    pub base : Text
    pub is_base : s.base_commit ≡ some base
    pub no_files : Silent (o.run w s.path (codes "git" ∷ status_args o)).1
    pub count_out : Text
    pub is_count :
        (run_git_in o (run_git_in o w s (status_args o)).0 s (count_args o base)).1
        ≡ (true, count_out)
    pub no_commits : o.int_of_text (strip count_out) ≡ ok 0

  -- changes that let a close remove the worktree
  pub record Removable (c : WorktreeChanges) : Type 0 where
    pub no_error : is_given c.inspection_error ≡ false
    pub unchanged : has_changes c ≡ false

  diffed-count :
      (status : List Text) (n : ℕ) (r : W × (Bool × Text))
      → Removable (diffed o status n r).1
      → (status ≡ []) × (n ≡ 0)
  unfolding has_changes
  diffed-count status n (w, (true, out)) c =
      (length-zero status (ground (arith, c.unchanged)), ground (arith, c.unchanged))
  diffed-count status n (w, (false, out)) c = absurd (ground (arith, c.no_error))

  numbered-count :
      (s : Session) (base : Text) (status : List Text) (w : W) (r : Result Text ℕ)
      → ((e : Text) → r ≡ err e → is_given (some e) ≡ true)
      → Removable (numbered o s base status w r).1
      → (status ≡ []) × (r ≡ ok 0)
  numbered-count s base status w (ok n) law c =
      let (e, z) = diffed-count status n _ c in (e, ap (λ k. ok k) z)
  numbered-count s base status w (err e) law c = absurd (ground (arith, c.no_error, law e refl))

  counted-count :
      (s : Session) (base : Text) (status : List Text) (r : W × (Bool × Text))
      → IntRaises
      → Removable (counted o s base status r).1
      → (status ≡ []) × (out : Text) × (r.1 ≡ (true, out)) × (o.int_of_text (strip out) ≡ ok 0)
  counted-count s base status (w, (true, out)) law c =
      let (e, z) = numbered-count s base status w (o.int_of_text (strip out)) (law (strip out)) c in
      (e, out, refl, z)
  counted-count s base status (w, (false, out)) law c = absurd (ground (arith, c.no_error))

  with_status-count :
      (s : Session) (base : Text) (r : W × (Bool × Text))
      → IntRaises
      → Removable (with_status o s base r).1
      → (out : Text) × (r.1 ≡ (true, out))
        × (git_output_lines out ≡ [])
        × (count : Text) × ((run_git_in o r.0 s (count_args o base)).1 ≡ (true, count))
        × (o.int_of_text (strip count) ≡ ok 0)
  with_status-count s base (w, (true, out)) law c =
      let (e, count, q, z) =
        counted-count s base (git_output_lines out) (run_git_in o w s (count_args o base)) law c in
      (out, refl, e, count, q, z)
  with_status-count s base (w, (false, out)) law c = absurd (ground (arith, c.no_error))

  with_status-NothingThere :
      (w : W) (s : Session) (base : Text)
      → s.base_commit ≡ some base
      → IntRaises
      → Removable (with_status o s base (run_git_in o w s (status_args o))).1
      → NothingThere w s
  unfolding run_git_sync
  with_status-NothingThere w s base b law c =
      let (out, q, l, count, k, z) =
        with_status-count s base (run_git_in o w s (status_args o)) law c in
      record {
        base = base;
        is_base = b;
        no_files = git_output-Silent (o.run w s.path (codes "git" ∷ status_args o)).1 30 out q l;
        count_out = count;
        is_count = k;
        no_commits = z;
      }

  inspected :
      (w : W) (s : Session)
      → s.created ≡ true
      → o.exists w ≡ true
      → is_given s.base_commit ≡ true
      → inspect_changes o w s
        ≡ with_status o s (known s.base_commit) (run_git_in o w s (status_args o))
  unfolding inspect_changes
  inspected w s c e b = rw (c, e, b) refl

  not_inspected :
      (w : W) (s : Session)
      → s.created ≡ true
      → o.exists w ≡ true
      → is_given s.base_commit ≡ false
      → is_given (inspect_changes o w s).1.inspection_error ≡ true
  unfolding inspect_changes
  not_inspected w s c e b = rw (c, e, b) refl

  given-known : (b : Option Text) → is_given b ≡ true → b ≡ some (known b)
  given-known none h = absurd (ground (arith, h))
  given-known (some b) h = refl

  pub inspect-NothingThere :
      (w : W) (s : Session)
      → s.created ≡ true
      → o.exists w ≡ true
      → IntRaises
      → Removable (inspect_changes o w s).1
      → NothingThere w s
  inspect-NothingThere w s c e law r = elim (Bool-cases (is_given s.base_commit)) [
    | inl b ↦
        with_status-NothingThere w s (known s.base_commit) (given-known s.base_commit b) law
          (subst (λ x. Removable x.1) (inspected w s c e b) r)
    | inr b ↦ absurd (ground (arith, r.no_error, not_inspected w s c e b))
  ]

  -- changes that are none have no error either
  pub unchanged-Removable : (c : WorktreeChanges) → has_changes c ≡ false → Removable c
  unfolding has_changes
  unchanged-Removable c h = record { no_error = ground (arith, h); unchanged = h }

  -- a removal that keeps changes does nothing, or may remove
  unchanged-cases :
      (s : Session) (r : W × WorktreeChanges)
      → (remove_unchanged o s r ≡ ((r.0, s), ok tt)) ⊎ Removable r.1
  unchanged-cases s (w, c) = elim (Bool-cases (is_given c.inspection_error)) [
    | inl h ↦ inl (rw h refl)
    | inr h ↦ elim (Bool-cases (has_changes c)) [
      | inl k ↦ inl (rw (h, k) refl)
      | inr k ↦ inr (record { no_error = h; unchanged = k })
    ]
  ]

  close-cases :
      (w : W) (s : Session)
      → s.created ≡ true
      → (close o (some false) w s ≡ ((w, s), ok tt))
        ⊎ (close o (some false) w s ≡ remove_unchanged o s (inspect_changes o w s))
  unfolding close cleanup
  close-cases w s c = elim (Bool-cases s.keep) [
    | inl k ↦ inl (rw k refl)
    | inr k ↦ inr (rw (k, c) refl)
  ]

  -- A close without `discard_changes` on a worktree that is there returns without an exception and
  -- changes nothing, beyond what the reads of git do; or git showed before that nothing is in the
  -- worktree: its status exited with 0 and printed no line, and it counted 0 commits over the base.
  -- `int` raises with a text.
  pub close-NothingThere :
      (w : W) (s : Session)
      → s.created ≡ true
      → o.exists w ≡ true
      → IntRaises
      → (close o (some false) w s ≡ ((w, s), ok tt))
        ⊎ ((close o (some false) w s ≡ (((inspect_changes o w s).0, s), ok tt)) ⊎ NothingThere w s)
  close-NothingThere w s c e law = elim (close-cases w s c) [
    | inl q ↦ inl q
    | inr q ↦ elim (unchanged-cases s (inspect_changes o w s)) [
      | inl u ↦ inr (inl (q ∙ u))
      | inr r ↦ inr (inr (inspect-NothingThere w s c e law r))
    ]
  ]
