-- ===== src/Runtime/Worktree.antt =====
-- runtime/worktree.py: names, git processes, and the changes that git reports of a worktree. The
-- processes, the directory calls and the numbers that `int` reads of a text are parameters. An exit
-- code is 0 or not, and git counts no fewer than 0 commits.
pub mod Session
pub mod Closing
pub mod Output
pub mod Names
pub mod Changes
pub mod Cleanup
mod Examples
use forge_agent.Base.{
  ℕ, zero, suc, ◌+◌, String, Bool, true, false, not, ◌&&◌, ◌||◌, Option, none, some, List, [], ◌∷◌,
  ◌++◌, map, ◌==◌, leb, ltb, if◌then◌else◌, Result, ok, err, length, drop, take, any, all, select,
  digits, Text, codes, text_eq, reverse, starts_with, is_space, take_while, drop_while, rstrip,
  strip, split_lines,
}

-- the characters of VALID_WT_NAME
abbrev pub is_name_char : ℕ → Bool
is_name_char c =
    (leb 65 c && leb c 90)
    || ((leb 97 c && leb c 122) || ((leb 48 c && leb c 57) || any (λ d. c == d) (codes "._-")))

-- the end of a text, or the newline before it
abbrev at_end : Text → Bool
at_end [] = true
at_end (c ∷ []) = c == 10
at_end (c ∷ d ∷ s) = false

-- VALID_WT_NAME.match: no character of a name is a newline, so the longest run of them is the only
-- one that can end at `$`
unfoldable pub valid_wt_name : Text → Bool
valid_wt_name name =
    let stem = take_while is_name_char name in
    leb 1 (length stem) && (leb (length stem) 64 && at_end (drop (length stem) name))

unfoldable pub validate_worktree_name : Text → Option Text
unfolding valid_wt_name
validate_worktree_name name =
    if leb (length name) 0
    then some (codes "Worktree name cannot be empty")
    else if text_eq name (codes ".") || text_eq name (codes "..")
    then some (codes "'" ++ (name ++ codes "' is not a valid worktree name"))
    else if not (valid_wt_name name)
    then some (
        codes "Invalid worktree name '"
        ++ (name ++ codes "': only letters, digits, dots, underscores, dashes (1-64 chars)"))
    else none

-- how a process of git ends
pub data Process : Type 0 where
  exited : ℕ → Text → Text → Process
  timed_out : Process
  not_run : Text → Process

-- The outside over its states: a git process in a directory, and the calls on the directory of the
-- worktree. `mkdir` and `rmtree` give the text of their OSError; `bind` is the binding to a task, if there is one,
-- with the text of its exception.
pub record Outside (W : Type 0) : Type 0 where
  pub run : W → Text → List Text → W × Process
  pub exists : W → Bool
  pub mkdir : W → W × Option Text
  pub rmtree : W → W × Option Text
  pub bind : Option (W → W × Option Text)
  pub int_of_text : Text → Result Text ℕ

abbrev or_no_output : Text → Text
or_no_output [] = codes "(no output)"
or_no_output (c ∷ s) = take 5000 (c ∷ s)

-- _run_git_sync, from the end of the process on
unfoldable pub git_output : ℕ → Process → Bool × Text
git_output timeout (exited code stdout stderr) =
    (code == 0, or_no_output (strip (stdout ++ stderr)))
git_output timeout timed_out =
    (false, codes "Error: git timeout (" ++ (codes (digits timeout) ++ codes "s)"))
git_output timeout (not_run exc) = (false, codes "Error: git execution failed: " ++ exc)

-- _run_git_sync
unfoldable pub run_git_sync :
    {W : Type 0} → Outside W → W → Text → List Text → ℕ → W × (Bool × Text)
unfolding git_output
run_git_sync o w cwd args timeout =
    let r = o.run w cwd (codes "git" ∷ args) in (r.0, git_output timeout r.1)

-- not line.strip()
abbrev pub is_blank : Text → Bool
is_blank line = all is_space line

-- _git_output_lines
unfoldable pub git_output_lines : Text → List Text
git_output_lines [] = []
git_output_lines (c ∷ s) =
    if text_eq (c ∷ s) (codes "(no output)")
    then []
    else select (λ line. not (is_blank line)) (split_lines (c ∷ s))

abbrev arrow : Text
arrow = codes " -> "

-- what stands behind the first " -> ", if it is there
abbrev after_arrow : Text → Option Text
after_arrow [] = none
after_arrow (c ∷ s) =
    let rest = after_arrow s in if starts_with (c ∷ s) arrow then some (drop 4 (c ∷ s)) else rest

abbrev target_of : Text → Option Text → Text
target_of path none = path
target_of path (some target) = target

abbrev is_quote : ℕ → Bool
is_quote c = c == 34

-- path.strip('"')
abbrev unquoted : Text → Text
unquoted path = reverse (drop_while is_quote (reverse (drop_while is_quote path)))

-- _porcelain_path
unfoldable pub porcelain_path : Text → Text
porcelain_path line =
    let path = if ltb 3 (length line) then drop 3 line else [] in
    unquoted (strip (target_of path (after_arrow path)))

-- the order of texts by code points
abbrev pub text_lt : Text → Text → Bool
text_lt s [] = false
text_lt [] (d ∷ t) = true
text_lt (c ∷ s) (d ∷ t) = ltb c d || (c == d && text_lt s t)

unfoldable pub insert_unique : Text → List Text → List Text
insert_unique x [] = x ∷ []
insert_unique x (y ∷ ys) =
    let rest = insert_unique x ys in
    if text_lt x y then x ∷ y ∷ ys else if text_lt y x then y ∷ rest else y ∷ ys

-- sorted({path for path in paths if path})
unfoldable pub sorted_paths : List Text → List Text
unfolding insert_unique
sorted_paths [] = []
sorted_paths (x ∷ xs) =
    let rest = sorted_paths xs in if leb (length x) 0 then rest else insert_unique x rest

pub record WorktreeChanges : Type 0 where
  pub changed_files : List Text
  pub uncommitted_count : ℕ
  pub commit_count : ℕ
  pub inspection_error : Option Text

-- the truth of an optional text
abbrev pub is_given : Option Text → Bool
is_given none = false
is_given (some e) = not (leb (length e) 0)

-- WorktreeChanges.has_changes
unfoldable pub has_changes : WorktreeChanges → Bool
has_changes c = is_given c.inspection_error || (ltb 0 c.uncommitted_count || ltb 0 c.commit_count)

abbrev pub no_changes : WorktreeChanges
no_changes = record {
  changed_files = [];
  uncommitted_count = 0;
  commit_count = 0;
  inspection_error = none;
}

abbrev pub inspection_failed : Text → WorktreeChanges
inspection_failed e = record no_changes { inspection_error = some e }
