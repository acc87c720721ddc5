-- ===== src/Harness/Permission/Policy.antt =====
-- The policy that `PermissionManager` carries out.
use forge_agent.Base.{
  ◌≡◌, refl, String, Bool, true, false, not, ◌&&◌, ◌||◌, Option, none, some, List, [], ◌∷◌, arith,
  str_eq, any, Attempt, ok, err, is_in, sym, subst, eq_iff, Bool-cases, inl, inr, All, Text,
  text_eq, text_eq→eq, if◌then◌else◌, codes,
}
use forge_agent.Harness.Paths.{is_abs, path_join, abs_path}
use forge_agent.Harness.Paths.Bounds.{
  IsName, names, IsBelow, IsBelow-self, starts_with-IsBelow, abs_path-IsName,
}
use forge_agent.Tools.Registry.{
  Value, null, boolean, integer, real, string, array, object, get_field,
}
use forge_agent.Harness.Permission.{
  ToolUseBlock, PermissionDecision, allow, deny, confirm, Platform, PermissionManager, first_match,
  check_command, check, inside, target_of, path_bound_tools, one_of, truthy, path_escape_reason,
}

abbrev pub is_allow : PermissionDecision → Bool
is_allow allow = true
is_allow _ = false

abbrev pub is_deny : PermissionDecision → Bool
is_deny (deny reason) = true
is_deny _ = false

abbrev pub is_confirm : PermissionDecision → Bool
is_confirm (confirm prompt) = true
is_confirm _ = false

abbrev is_found : Option String → Bool
is_found none = false
is_found (some p) = true

first_match-any :
    (test : String → Bool) (ps : List String) → is_found (first_match test ps) ≡ any test ps
first_match-any test [] = refl
first_match-any test (p ∷ ps) = ground (arith, first_match-any test ps)

-- a tool whose path is bound is no shell
bound-no_shell :
    (name : String)
    → one_of path_bound_tools name ≡ true
    → (str_eq name "shell" || str_eq name "bash") ≡ false
bound-no_shell name h = go (str_eq name "shell") (str_eq name "bash") refl refl
  where
    other : (t : String) → one_of path_bound_tools t ≡ false → str_eq name t ≡ true → ⊥
    other t unbound e =
        let is_t : one_of path_bound_tools t ≡ true =
          subst (λ k. one_of path_bound_tools k ≡ true) ((eq_iff name t).0 e) h in
        ground (arith, unbound, is_t)

    go :
        (a b : Bool)
        → str_eq name "shell" ≡ a
        → str_eq name "bash" ≡ b
        → (str_eq name "shell" || str_eq name "bash") ≡ false
    go false false p q = rw (p, q) refl
    go false true p q = absurd (other "bash" refl q)
    go true b p q = absurd (other "shell" refl p)

module _ (os : Platform) (m : PermissionManager) where
  abbrev pub hits_deny : String → Bool
  hits_deny command = any (λ p. is_in (os.lower p) (os.lower command)) m.deny_patterns

  abbrev pub hits_confirm : String → Bool
  hits_confirm command = any (λ kw. is_in kw (os.lower command)) m.confirm_keywords

  -- A command is denied exactly when it contains a denied pattern, whatever else it contains; of
  -- the others those with a keyword are confirmed, and the rest are allowed.
  pub check_command_policy :
      (command : String)
      → (is_deny (check_command os m command) ≡ hits_deny command)
        × (is_confirm (check_command os m command)
            ≡ (not (hits_deny command) && hits_confirm command))
        × (is_allow (check_command os m command)
            ≡ (not (hits_deny command) && not (hits_confirm command)))
  unfolding check_command
  check_command_policy command = ground (
    arith,
    first_match-any (λ p. is_in (os.lower p) (os.lower command)) m.deny_patterns,
    first_match-any (λ kw. is_in kw (os.lower command)) m.confirm_keywords,
  )

  inside-IsBelow :
      (ws target : Text)
      → All IsName (names target)
      → inside os ws target ≡ true
      → IsBelow ws target
  inside-IsBelow ws target a h = elim (Bool-cases (text_eq target ws)) [
    | inl t ↦
        subst (IsBelow ws) (sym (text_eq→eq target ws t))
          (IsBelow-self ws (subst (λ p. All IsName (names p)) (text_eq→eq target ws t) a))
    | inr f ↦ starts_with-IsBelow ws target (ground (arith, h, f)) a
  ]

  target_of-IsName :
      (ws : Text) (path : Value) (target : Text)
      → is_abs os.cwd ≡ true
      → target_of os ws path ≡ ok target
      → All IsName (names target)
  target_of-IsName ws (string p) target c h = go (is_abs (codes p)) (ground (arith, h))
    where
      go :
          (b : Bool)
          → (if not b then abs_path os.cwd (path_join ws (codes p)) else abs_path os.cwd (codes p))
            ≡ target
          → All IsName (names target)
      go true e = subst (λ t. All IsName (names t)) e (abs_path-IsName os.cwd (codes p) c)
      go false e =
          subst (λ t. All IsName (names t)) e (abs_path-IsName os.cwd (path_join ws (codes p)) c)
  target_of-IsName ws null target c h = absurd (ground (arith, h))
  target_of-IsName ws (boolean b) target c h = absurd (ground (arith, h))
  target_of-IsName ws (integer s n) target c h = absurd (ground (arith, h))
  target_of-IsName ws (real r) target c h = absurd (ground (arith, h))
  target_of-IsName ws (array xs) target c h = absurd (ground (arith, h))
  target_of-IsName ws (object fs) target c h = absurd (ground (arith, h))

  escape_none-IsBelow :
      (path : Value) (ws : String)
      → is_abs os.cwd ≡ true
      → path_escape_reason os path ws ≡ none
      → (target : Text) × (target_of os (abs_path os.cwd (codes ws)) path ≡ ok target)
        × IsBelow (abs_path os.cwd (codes ws)) target
  unfolding path_escape_reason
  escape_none-IsBelow path ws c h = go (target_of os (abs_path os.cwd (codes ws)) path) refl
    where
      go :
          (r : Attempt Text)
          → target_of os (abs_path os.cwd (codes ws)) path ≡ r
          → (target : Text) × (target_of os (abs_path os.cwd (codes ws)) path ≡ ok target)
            × IsBelow (abs_path os.cwd (codes ws)) target
      go (err e) q = absurd (ground arith)
      go (ok target) q = (
        target,
        q,
        inside-IsBelow (abs_path os.cwd (codes ws)) target
            (target_of-IsName (abs_path os.cwd (codes ws)) path target c q) (ground arith),
      )

  check-no_escape :
      (block : ToolUseBlock) (ws : String) (path : Value)
      → one_of path_bound_tools block.name ≡ true
      → (str_eq block.name "shell" || str_eq block.name "bash") ≡ false
      → m.workspace ≡ some ws
      → str_eq ws "" ≡ false
      → get_field "path" block.input ≡ some path
      → truthy path ≡ true
      → check os m block ≡ ok allow
      → path_escape_reason os path ws ≡ none
  unfolding check
  check-no_escape block ws path bound not_shell w nonempty p t h =
      ground (arith, bound, not_shell, w, nonempty, p, t, h)

  -- In an absolute working directory of a POSIX system, a file tool that the manager allows with a
  -- workspace and a path has a target at or below the workspace: the names along the absolute path
  -- are those along the absolute workspace and more, and none of them is a dot or two.
  pub check-inside :
      (block : ToolUseBlock) (ws : String) (path : Value)
      → is_abs os.cwd ≡ true
      → one_of path_bound_tools block.name ≡ true
      → m.workspace ≡ some ws
      → str_eq ws "" ≡ false
      → get_field "path" block.input ≡ some path
      → truthy path ≡ true
      → check os m block ≡ ok allow
      → (target : Text) × (target_of os (abs_path os.cwd (codes ws)) path ≡ ok target)
        × IsBelow (abs_path os.cwd (codes ws)) target
  check-inside block ws path c bound w nonempty p t h =
      escape_none-IsBelow path ws c
        (check-no_escape block ws path bound (bound-no_shell block.name bound) w nonempty p t h)
