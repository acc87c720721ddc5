-- ===== src/Harness/Paths.antt =====
-- The functions of `os.path` that harness/permission.py works with, as POSIX systems have them, on
-- texts as lists of code points: 47 is the slash and 46 the dot.
pub mod Bounds
use forge_agent.Base.{
  ℕ, Bool, true, false, not, ◌&&◌, ◌||◌, List, [], ◌∷◌, ◌++◌, ◌==◌, if◌then◌else◌, Text, text_eq,
  starts_with, ends_with, extend,
}

-- path.split("/")
abbrev pub split : Text → List Text
split [] = [] ∷ []
split (c ∷ s) = let rest = split s in if c == 47 then [] ∷ rest else extend c rest

-- "/".join(parts)
abbrev pub join_parts : List Text → Text
join_parts [] = []
join_parts (p ∷ []) = p
join_parts (p ∷ q ∷ ps) = p ++ 47 ∷ join_parts (q ∷ ps)

-- os.path.isabs
abbrev pub is_abs : Text → Bool
is_abs path = starts_with path (47 ∷ [])

-- os.path.join
abbrev pub path_join : Text → Text → Text
path_join a b =
    if is_abs b then b else if text_eq a [] || ends_with a (47 ∷ []) then a ++ b else a ++ 47 ∷ b

-- whether a list of parts ends in `..`
abbrev pub ends_in_dots : List Text → Bool
ends_in_dots [] = false
ends_in_dots (p ∷ []) = text_eq p (46 ∷ 46 ∷ [])
ends_in_dots (p ∷ q ∷ ps) = ends_in_dots (q ∷ ps)

-- parts.pop(), where there is one
abbrev pub pop : List Text → List Text
pop [] = []
pop (p ∷ []) = []
pop (p ∷ q ∷ ps) = p ∷ pop (q ∷ ps)

abbrev is_empty : List Text → Bool
is_empty [] = true
is_empty (p ∷ ps) = false

-- one turn of the loop of os.path.normpath
abbrev pub push : Bool → List Text → Text → List Text
push initial parts part =
    if text_eq part [] || text_eq part (46 ∷ [])
    then parts
    else if not (text_eq part (46 ∷ 46 ∷ []))
        || ((not initial && is_empty parts) || ends_in_dots parts)
    then parts ++ part ∷ []
    else pop parts

abbrev pub normal_parts : Bool → List Text → List Text → List Text
normal_parts initial parts [] = parts
normal_parts initial parts (c ∷ cs) = normal_parts initial (push initial parts c) cs

-- two slashes at the start are kept, three and more are one
abbrev pub initial_slashes : Text → Text
initial_slashes path =
    if is_abs path
    then if starts_with path (47 ∷ 47 ∷ []) && not (starts_with path (47 ∷ 47 ∷ 47 ∷ []))
      then 47 ∷ 47 ∷ []
      else 47 ∷ []
    else []

abbrev pub or_dot : Text → Text
or_dot [] = 46 ∷ []
or_dot (c ∷ s) = c ∷ s

-- os.path.normpath
abbrev pub norm_path : Text → Text
norm_path path =
    or_dot (initial_slashes path ++ join_parts (normal_parts (is_abs path) [] (split path)))

-- os.path.abspath, in a working directory
abbrev pub abs_path : Text → Text → Text
abs_path cwd path = norm_path (if is_abs path then path else path_join cwd path)
