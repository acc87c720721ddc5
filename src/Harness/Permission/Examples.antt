-- ===== src/Harness/Permission/Examples.antt =====
-- Runs of the permission check and uses of its theorems.
use forge_agent.Base.{◌≡◌, refl, true, not, ◌&&◌, none, some, ok, Text, codes}
use forge_agent.Harness.Paths.Bounds.{IsBelow}
use forge_agent.Tools.Registry.{string, end, field}
use forge_agent.Harness.Permission.{
  path_escape_reason, ToolUseBlock, allow, confirm, Platform, PermissionManager, new, check_command,
  check, target_of,
}
use forge_agent.Harness.Permission.Policy.{
  is_allow, is_confirm, is_deny, hits_deny, hits_confirm, check_command_policy, check-inside,
}

-- texts are compared as they stand; the working directory is /home
abbrev plain : Platform
plain = record {
  lower = λ s. s;
  cwd = codes "/home";
  no_path = λ v. "not a path";
  show = λ v. "value";
  repr = λ v. "value";
}

abbrev manager : PermissionManager
manager = new none none (some "/work")

denied_first : is_deny (check_command plain manager "rm -rf / && sudo ls") ≡ true
unfolding check_command new
denied_first = refl

confirmed_next : check_command plain manager "rm x" ≡ confirm "destructive command: rm x"
unfolding check_command new
confirmed_next = refl

check_command_policy_example :
    (is_deny (check_command plain manager "rm x") ≡ hits_deny plain manager "rm x")
    × (is_confirm (check_command plain manager "rm x")
        ≡ (not (hits_deny plain manager "rm x") && hits_confirm plain manager "rm x"))
    × (is_allow (check_command plain manager "rm x")
        ≡ (not (hits_deny plain manager "rm x") && not (hits_confirm plain manager "rm x")))
check_command_policy_example = check_command_policy plain manager "rm x"

abbrev read_call : ToolUseBlock
read_call = record { name = "file_read"; input = field "path" (string "a.py") end }

read_allowed : check plain manager read_call ≡ ok allow
unfolding check new path_escape_reason
read_allowed = refl

manager_workspace : manager.workspace ≡ some "/work"
unfolding new
manager_workspace = refl

escape_up :
    path_escape_reason plain (string "a/../../etc") "/work" ≡ some "path escapes workspace: value"
unfolding path_escape_reason
escape_up = refl

-- a workspace that is the root holds only itself
root_workspace : path_escape_reason plain (string "a.py") "/" ≡ some "path escapes workspace: value"
unfolding path_escape_reason
root_workspace = refl

check-inside_example :
    (target : Text) × (target_of plain (codes "/work") (string "a.py") ≡ ok target)
    × IsBelow (codes "/work") target
check-inside_example =
    check-inside plain manager read_call "/work" (string "a.py") refl refl manager_workspace refl
      refl refl read_allowed
