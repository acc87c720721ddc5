-- ===== src/Harness/Paths/Bounds.antt =====
-- The parts of an absolute path that os.path.abspath gives.
use forge_agent.Base.{
  ℕ, ◌≡◌, inl, inr, refl, sym, subst, ap, ◌∙◌, Bool, true, false, not, ◌&&◌, Bool-cases, List, [],
  ◌∷◌, ◌++◌, ◌==◌, arith, Text, text_eq, starts_with, ends_with, extend, select, All,
  All-append_one, if◌then◌else◌,
}
use mathlib.Core.List.{append-nil}
use forge_agent.Harness.Paths.{
  split, join_parts, is_abs, path_join, ends_in_dots, pop, push, normal_parts, initial_slashes,
  or_dot, norm_path, abs_path,
}

-- The names along a path: what stands between its slashes.
abbrev pub names : Text → List Text
names path = select (λ p. not (text_eq p [])) (split path)

abbrev pub NoSlash : Text → Type 0
NoSlash p = All (λ c. (c == 47) ≡ false) p

abbrev pub IsName : Text → Type 0
IsName p =
    NoSlash p
    × (text_eq p [] ≡ false)
    × (text_eq p (46 ∷ []) ≡ false)
    × (text_eq p (46 ∷ 46 ∷ []) ≡ false)

split_nonempty : (s : Text) → (l : Text) × (ls : List Text) × (split s ≡ l ∷ ls)
split_nonempty [] = ([], [], refl)
split_nonempty (c ∷ s) =
    let (l, ls, h) = split_nonempty s in
    elim (Bool-cases (c == 47)) [
      | inl t ↦ ([], split s, rw t refl)
      | inr f ↦ (c ∷ l, ls, rw (f, h) refl)
    ]

extend-append :
    (c : ℕ) (s : Text) (ls : List Text) → extend c (split s ++ ls) ≡ extend c (split s) ++ ls
extend-append c s ls = let (m, ms, h) = split_nonempty s in rw h refl

split-append : (s u : Text) → split (s ++ 47 ∷ u) ≡ split s ++ split u
split-append [] u = refl
split-append (c ∷ s) u = elim (Bool-cases (c == 47)) [
  | inl t ↦ rw (t, split-append s u) refl
  | inr f ↦ rw (f, split-append s u) (extend-append c s (split u))
]

select-append {ℓ} :
    {A : Type ℓ} (p : A → Bool) (xs ys : List A) → select p (xs ++ ys) ≡ select p xs ++ select p ys
select-append p [] ys = refl
select-append p (x ∷ xs) ys = ground (arith, select-append p xs ys)

-- The names along a path that goes on behind a slash.
pub names-append : (s u : Text) → names (s ++ 47 ∷ u) ≡ names s ++ names u
names-append s u =
    ap (select (λ p. not (text_eq p []))) (split-append s u)
    ∙ select-append (λ p. not (text_eq p [])) (split s) (split u)

split-NoSlash : (s : Text) → All NoSlash (split s)
split-NoSlash [] = (tt, tt)
split-NoSlash (c ∷ s) = go (split-NoSlash s)
  where
    go : All NoSlash (split s) → All NoSlash (split (c ∷ s))
    go hs =
        let (l, ls, h) = split_nonempty s in
        elim (Bool-cases (c == 47)) [
          | inl t ↦ rw t ((tt, hs))
          | inr f ↦ let (a, ms) = subst (All NoSlash) h hs in rw (f, h) (((f, a), ms))
        ]

split_name : (p : Text) → NoSlash p → split p ≡ p ∷ []
split_name [] h = refl
split_name (c ∷ p) (h, hs) = rw (h, split_name p hs) refl

names-join_parts : (ps : List Text) → All IsName ps → names (join_parts ps) ≡ ps
names-join_parts [] h = refl
names-join_parts (p ∷ []) ((s, e, _, _), _) = rw (split_name p s, e) refl
names-join_parts (p ∷ q ∷ ps) ((s, e, _, _), hs) =
    names-append p (join_parts (q ∷ ps)) ∙ rw (names-join_parts (q ∷ ps) hs, split_name p s, e) refl

ends_in_dots-IsName : (ps : List Text) → All IsName ps → ends_in_dots ps ≡ false
ends_in_dots-IsName [] h = refl
ends_in_dots-IsName (p ∷ []) ((_, _, _, h), _) = h
ends_in_dots-IsName (p ∷ q ∷ ps) (_, h) = ends_in_dots-IsName (q ∷ ps) h

pop-IsName : (ps : List Text) → All IsName ps → All IsName (pop ps)
pop-IsName [] h = tt
pop-IsName (p ∷ []) h = tt
pop-IsName (p ∷ q ∷ ps) (h, hs) = (h, pop-IsName (q ∷ ps) hs)

push-IsName : (ps : List Text) (p : Text) → All IsName ps → NoSlash p → All IsName (push true ps p)
push-IsName ps p h s = elim (Bool-cases (text_eq p [])) [
  | inl t ↦ rw t h
  | inr f ↦ elim (Bool-cases (text_eq p (46 ∷ []))) [
    | inl t ↦ rw (f, t) h
    | inr g ↦ elim (Bool-cases (text_eq p (46 ∷ 46 ∷ []))) [
      | inl t ↦ rw (f, g, t, ends_in_dots-IsName ps h) (pop-IsName ps h)
      | inr e ↦ rw (f, g, e) (All-append_one IsName ps p h (s, f, g, e))
    ]
  ]
]

normal_parts-IsName :
    (ps cs : List Text) → All IsName ps → All NoSlash cs → All IsName (normal_parts true ps cs)
normal_parts-IsName ps [] h s = h
normal_parts-IsName ps (c ∷ cs) h (s, ss) =
    normal_parts-IsName (push true ps c) cs (push-IsName ps c h s) ss

names-rooted :
    (path x : Text) → is_abs path ≡ true → names (or_dot (initial_slashes path ++ x)) ≡ names x
names-rooted path x h =
    elim (Bool-cases
      (starts_with path (47 ∷ 47 ∷ []) && not (starts_with path (47 ∷ 47 ∷ 47 ∷ [])))) [
        | inl t ↦ rw (h, t) refl
        | inr f ↦ rw (h, f) refl
      ]

names-norm_path :
    (path : Text) → is_abs path ≡ true → names (norm_path path) ≡ normal_parts true [] (split path)
names-norm_path path h =
    names-rooted path (join_parts (normal_parts (is_abs path) [] (split path))) h
    ∙ ap (λ b. names (join_parts (normal_parts b [] (split path)))) h
    ∙ names-join_parts (normal_parts true [] (split path))
        (normal_parts-IsName [] (split path) tt (split-NoSlash path))

path_join-is_abs : (a b : Text) → is_abs a ≡ true → is_abs (path_join a b) ≡ true
path_join-is_abs [] b h = absurd (ground (arith, h))
path_join-is_abs (c ∷ a) b h = elim (Bool-cases (is_abs b)) [
  | inl t ↦ rw (t) t
  | inr f ↦ elim (Bool-cases (ends_with (c ∷ a) (47 ∷ []))) [
    | inl t ↦ rw (f, t) h
    | inr g ↦ rw (f, g) h
  ]
]

absolute :
    (cwd path : Text)
    → is_abs cwd ≡ true
    → is_abs (if is_abs path then path else path_join cwd path) ≡ true
absolute cwd path h = go (is_abs path) (λ t. t)
  where
    go :
        (b : Bool)
        → (b ≡ true → is_abs path ≡ true)
        → is_abs (if b then path else path_join cwd path) ≡ true
    go true k = k refl
    go false k = path_join-is_abs cwd path h

-- In an absolute working directory no name along an absolute path is a dot or two.
pub abs_path-IsName : (cwd path : Text) → is_abs cwd ≡ true → All IsName (names (abs_path cwd path))
abs_path-IsName cwd path h =
    let full = if is_abs path then path else path_join cwd path in
    subst (All IsName) (sym (names-norm_path full (absolute cwd path h)))
      (normal_parts-IsName [] (split full) tt (split-NoSlash full))

starts_with-append :
    (s p : Text) → starts_with s (p ++ 47 ∷ []) ≡ true → (u : Text) × (s ≡ p ++ 47 ∷ u)
starts_with-append [] [] h = absurd (ground (arith, h))
starts_with-append (d ∷ s) [] h = (s, ground (arith, h))
starts_with-append [] (c ∷ p) h = absurd (ground (arith, h))
starts_with-append (d ∷ s) (c ∷ p) h =
    let (u, e) = starts_with-append s p (ground (arith, h)) in (u, ground (arith, h, e))

-- A path at or below another: the names along it are those along the other and more, and none of
-- them goes up.
pub record IsBelow (ws target : Text) : Type 0 where
  pub rest : List Text
  pub along : names target ≡ names ws ++ rest
  pub all_names : All IsName (names target)

pub IsBelow-self : (ws : Text) → All IsName (names ws) → IsBelow ws ws
IsBelow-self ws h = record { rest = []; along = sym (append-nil (names ws)); all_names = h }

pub starts_with-IsBelow :
    (ws target : Text)
    → starts_with target (ws ++ 47 ∷ []) ≡ true
    → All IsName (names target)
    → IsBelow ws target
starts_with-IsBelow ws target h a =
    let (u, e) = starts_with-append target ws h in
    record { rest = names u; along = ap names e ∙ names-append ws u; all_names = a }
