-- ===== src/Harness/Permission.antt =====
-- harness/permission.py: `PermissionManager`. `str.lower`, the working directory, and the texts that
-- the language makes of a value and of its own exceptions come as parameters.
pub mod Policy
pub mod Examples
use text.Mathlib.Text.{starts_with as str_starts_with}
use forge_agent.Base.{
  ℕ, String, Bool, true, false, not, ◌&&◌, ◌||◌, Option, none, some, List, [], ◌∷◌, ◌++◌, map,
  str_eq, ◌==◌, if◌then◌else◌, select, any, Result, ok, err, Exn, Attempt, concat, is_in, Text,
  text_eq, starts_with, codes,
}
use forge_agent.Harness.Paths.{is_abs, path_join, abs_path}
use forge_agent.Tools.Registry.{
  Value, null, boolean, integer, real, string, array, object, nil, cons, end, field, Fields,
  get_field,
}

pub record ToolUseBlock : Type 0 where
  pub name : String
  pub input : Fields

-- PermissionDecision: a decision and its reason
pub data PermissionDecision : Type 0 where
  allow : PermissionDecision
  deny confirm : String → PermissionDecision

-- What the check asks of the language and of the operating system.
pub record Platform : Type 0 where
  pub lower : String → String
  -- os.getcwd()
  pub cwd : Text
  -- the text of the exception that os.path.isabs raises on a value that is no path
  pub no_path : Value → String
  pub show : Value → String
  pub repr : Value → String

pub record PermissionManager : Type 0 where
  pub deny_patterns : List String
  pub confirm_keywords : List String
  pub workspace : Option String

-- `_BLOCKED_PATTERNS` of tools/shell_tool.py and `_EXTRA_DENY`
abbrev pub blocked_patterns : List String
blocked_patterns =
    "rm -rf /" ∷ "rm -rf ~" ∷ "mkfs" ∷ "dd if=" ∷ ":(){:|:&};:" ∷ "chmod -R 777 /" ∷ "chown -R"
    ∷ "> /dev/sda" ∷ []

abbrev pub extra_deny : List String
extra_deny = "sudo" ∷ "shutdown" ∷ "reboot" ∷ []

-- `_CONFIRM_KEYWORDS` of tools/shell_tool.py
abbrev pub confirm_keywords : List String
confirm_keywords =
    "rm " ∷ "rmdir" ∷ "mv " ∷ "cp -r" ∷ "cp -f" ∷ "chmod" ∷ "chown" ∷ "pip install"
    ∷ "pip uninstall" ∷ "npm install" ∷ "npm uninstall" ∷ "git commit" ∷ "git push" ∷ "git reset"
    ∷ "git checkout" ∷ "git merge" ∷ "git rebase" ∷ "git clean" ∷ "sudo" ∷ "curl" ∷ "wget" ∷ "kill"
    ∷ "pkill" ∷ "killall" ∷ "shutdown" ∷ "reboot" ∷ "docker" ∷ "kubectl" ∷ "make" ∷ "make install"
    ∷ "> " ∷ "| tee " ∷ []

abbrev pub one_of : List String → String → Bool
one_of names k = any (λ n. str_eq n k) names

abbrev or_default {ℓ} : {A : Type ℓ} → Option A → A → A
or_default none d = d
or_default (some a) d = a

pub new : Option (List String) → Option (List String) → Option String → PermissionManager
new patterns keywords workspace = record {
  deny_patterns =
      or_default patterns
        (blocked_patterns ++ select (λ p. not (one_of blocked_patterns p)) extra_deny);
  confirm_keywords = or_default keywords confirm_keywords;
  workspace = workspace;
}

-- _PATH_BOUND_TOOLS
abbrev pub path_bound_tools : List String
path_bound_tools =
    "file_read" ∷ "file_view" ∷ "file_write" ∷ "read_file" ∷ "view_file" ∷ "write_file"
    ∷ "edit_file" ∷ "edit" ∷ []

-- whether Python takes the value for true
abbrev pub truthy : Value → Bool
truthy null = false
truthy (boolean b) = b
truthy (integer s n) = not (n == 0)
truthy (real r) = not (str_eq r "0.0" || str_eq r "-0.0")
truthy (string s) = not (str_eq s "")
truthy (array nil) = false
truthy (array (cons x xs)) = true
truthy (object end) = false
truthy (object (field k v fs)) = true

abbrev pub or_value : Option Value → Value → Value
or_value none d = d
or_value (some v) d = if truthy v then v else d

abbrev pub first_match : (String → Bool) → List String → Option String
first_match test [] = none
first_match test (p ∷ ps) = if test p then some p else first_match test ps

module _ (os : Platform) where
  -- _check_command
  pub check_command : PermissionManager → String → PermissionDecision
  check_command m command =
      let low = os.lower command in
      elim (first_match (λ p. is_in (os.lower p) low) m.deny_patterns) [
        | some p ↦ deny (concat ("'" ∷ p ∷ "' is on the deny list" ∷ []))
        | none ↦ elim (first_match (λ kw. is_in kw low) m.confirm_keywords) [
          | some kw ↦ confirm (concat ("destructive command: " ∷ command ∷ []))
          | none ↦ allow
        ]
      ]

  -- os.path.abspath(os.path.join(ws, path)), or os.path.abspath(path) for an absolute path
  abbrev pub target_of : Text → Value → Attempt Text
  target_of ws (string p) =
      let path = codes p in
      ok (if not (is_abs path) then abs_path os.cwd (path_join ws path) else abs_path os.cwd path)
  target_of ws v = err (record { class_name = "TypeError"; message = os.no_path v })

  -- whether a target path lies in the workspace, as the code compares the two texts
  abbrev pub inside : Text → Text → Bool
  inside ws target = text_eq target ws || starts_with target (ws ++ 47 ∷ [])

  -- _path_escape_reason; `none` is the empty text, a safe path
  pub path_escape_reason : Value → String → Option String
  path_escape_reason path workspace =
      let ws = abs_path os.cwd (codes workspace) in
      elim (target_of ws path) [
        | err e ↦ some (concat ("invalid path " ∷ os.repr path ∷ ": " ∷ e.message ∷ []))
        | ok target ↦
            if inside ws target
            then none
            else some (concat ("path escapes workspace: " ∷ os.show path ∷ []))
      ]

  -- the command of a shell call: `input.get("cmd") or input.get("command") or ""`
  abbrev pub command_of : Fields → Value
  command_of input =
      or_value (get_field "cmd" input) (or_value (get_field "command" input) (string ""))

  check_shell : PermissionManager → Value → Attempt PermissionDecision
  unfolding check_command
  check_shell m (string command) = ok (check_command m command)
  check_shell m _ =
      err (record { class_name = "AttributeError"; message = "object has no attribute 'lower'" })

  check_path : PermissionManager → Value → PermissionDecision
  check_path m path = elim m.workspace [
    | none ↦ allow
    | some ws ↦
        if not (str_eq ws "") && truthy path
        then elim (path_escape_reason path ws) [ none ↦ allow | some reason ↦ deny reason ]
        else allow
  ]

  pub check : PermissionManager → ToolUseBlock → Attempt PermissionDecision
  unfolding check_shell check_path
  check m block =
      if str_eq block.name "shell" || str_eq block.name "bash"
      then check_shell m (command_of block.input)
      else if one_of path_bound_tools block.name
      then ok (check_path m (or_default (get_field "path" block.input) (string "")))
      else if str_starts_with block.name "mcp__" && is_in "deploy" block.name
      then ok (confirm (concat ("MCP destructive-looking tool: " ∷ block.name ∷ [])))
      else ok allow
