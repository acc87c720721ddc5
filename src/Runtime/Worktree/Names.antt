-- ===== src/Runtime/Worktree/Names.antt =====
-- Which names pass the check of a worktree's name.
use forge_agent.Base.{
  ℕ, ◌≤◌, ◌≡◌, ◌≢◌, ◌⊎◌, inl, inr, ◌↔◌, refl, ap, ◌∙◌, Bool, true, false, none, [], ◌∷◌, ◌++◌,
  Bool-cases, length, arith, drop, take_while, All, Text, text_eq, text_eq_iff, codes,
}
use mathlib.Core.List.{append-nil}
use forge_agent.Runtime.Worktree.{is_name_char, at_end, valid_wt_name, validate_worktree_name}

-- Between 1 and 64 characters of names, not `.` or `..`; a newline may stand behind them.
pub record IsValidName (name : Text) : Type 0 where
  pub stem : Text
  pub chars : All (λ c. is_name_char c ≡ true) stem
  pub not_empty : 1 ≤ length stem
  pub bounded : length stem ≤ 64
  pub ends : (name ≡ stem) ⊎ (name ≡ stem ++ 10 ∷ [])
  pub not_dot : name ≢ codes "."
  pub not_dots : name ≢ codes ".."

module _ (p : ℕ → Bool) where
  stem-rest : (s : Text) → s ≡ take_while p s ++ drop (length (take_while p s)) s
  stem-rest [] = refl
  stem-rest (c ∷ s) = ground (arith, stem-rest s)

  stem-All : (s : Text) → All (λ c. p c ≡ true) (take_while p s)
  stem-All [] = tt
  stem-All (c ∷ s) = elim (Bool-cases (p c)) [ inl h ↦ rw h ((h, stem-All s)) | inr h ↦ rw h tt ]

  take_while-stem : (s : Text) → All (λ c. p c ≡ true) s → take_while p s ≡ s
  take_while-stem [] h = refl
  take_while-stem (c ∷ s) (h, hs) = ground (arith, h, take_while-stem s hs)

  take_while-end :
      (s : Text) (d : ℕ) → All (λ c. p c ≡ true) s → p d ≡ false → take_while p (s ++ d ∷ []) ≡ s
  take_while-end [] d h q = ground (arith, q)
  take_while-end (c ∷ s) d (h, hs) q = ground (arith, h, take_while-end s d hs q)

drop_self : (s : Text) → drop (length s) s ≡ []
drop_self [] = refl
drop_self (c ∷ s) = drop_self s

drop-append : (s t : Text) → drop (length s) (s ++ t) ≡ t
drop-append [] t = refl
drop-append (c ∷ s) t = drop-append s t

at_end-cases : (s : Text) → at_end s ≡ true → (s ≡ []) ⊎ (s ≡ 10 ∷ [])
at_end-cases [] h = inl refl
at_end-cases (c ∷ []) h = inr (ground (arith, h))
at_end-cases (c ∷ d ∷ s) h = absurd (ground (arith, h))

valid-parts :
    (name : Text)
    → valid_wt_name name ≡ true
    → (1 ≤ length (take_while is_name_char name))
      × (length (take_while is_name_char name) ≤ 64)
      × (at_end (drop (length (take_while is_name_char name)) name) ≡ true)
unfolding valid_wt_name
valid-parts name h = (ground (arith, h), ground (arith, h), ground (arith, h))

valid-stem :
    (name stem : Text)
    → take_while is_name_char name ≡ stem
    → at_end (drop (length stem) name) ≡ true
    → 1 ≤ length stem
    → length stem ≤ 64
    → valid_wt_name name ≡ true
unfolding valid_wt_name
valid-stem name stem e a l u = rw e (ground (arith, a, l, u))

valid_wt_name-IsValidName :
    (name : Text)
    → name ≢ codes "."
    → name ≢ codes ".."
    → valid_wt_name name ≡ true
    → IsValidName name
valid_wt_name-IsValidName name d e h =
    let (l, u, a) = valid-parts name h in
    let stem = take_while is_name_char name in
    record {
      stem = stem;
      chars = stem-All is_name_char name;
      not_empty = l;
      bounded = u;
      ends = elim (at_end-cases (drop (length stem) name) a) [
        | inl q ↦ inl (stem-rest is_name_char name ∙ ap (λ r. stem ++ r) q ∙ append-nil stem)
        | inr q ↦ inr (stem-rest is_name_char name ∙ ap (λ r. stem ++ r) q)
      ];
      not_dot = d;
      not_dots = e;
    }

IsValidName-valid : (name : Text) → IsValidName name → valid_wt_name name ≡ true
IsValidName-valid name v = elim v.ends [
  | inl e ↦
      valid-stem name v.stem
        (ap (take_while is_name_char) e ∙ take_while-stem is_name_char v.stem v.chars)
        (ap (λ n. at_end (drop (length v.stem) n)) e ∙ ap at_end (drop_self v.stem)) v.not_empty
        v.bounded
  | inr e ↦
      valid-stem name v.stem
        (ap (take_while is_name_char) e ∙ take_while-end is_name_char v.stem 10 v.chars refl)
        (ap (λ n. at_end (drop (length v.stem) n)) e ∙ ap at_end (drop-append v.stem (10 ∷ [])))
        v.not_empty v.bounded
]

-- what the three tests of the check say of an accepted name
accepted :
    (name : Text)
    → validate_worktree_name name ≡ none
    → (text_eq name (codes ".") ≡ false)
      × (text_eq name (codes "..") ≡ false)
      × (valid_wt_name name ≡ true)
unfolding validate_worktree_name
accepted name h = (ground (arith, h), ground (arith, h), ground (arith, h))

accepts :
    (name : Text)
    → text_eq name (codes ".") ≡ false
    → text_eq name (codes "..") ≡ false
    → valid_wt_name name ≡ true
    → 1 ≤ length name
    → validate_worktree_name name ≡ none
unfolding validate_worktree_name
accepts name d e v l = ground (arith, d, e, v, l)

differs : (s t : Text) → text_eq s t ≡ false → s ≢ t
differs s t h e = absurd (ground (arith, h, (text_eq_iff s t).1 e))

not_eq : (s t : Text) → s ≢ t → text_eq s t ≡ false
not_eq s t n = elim (Bool-cases (text_eq s t)) [
  | inl h ↦ absurd (n ((text_eq_iff s t).0 h))
  | inr h ↦ h
]

name-length : (name : Text) → valid_wt_name name ≡ true → 1 ≤ length name
unfolding valid_wt_name
name-length [] h = absurd (ground (arith, h))
name-length (c ∷ s) h = omega arith

-- A name of a worktree is accepted exactly when it has 1 to 64 letters, digits, dots, underscores or
-- dashes and is not `.` or `..`, or when one newline stands behind such characters.
pub validate_worktree_name_iff :
    (name : Text) → (validate_worktree_name name ≡ none) ↔ IsValidName name
validate_worktree_name_iff name = (
  λ h.
      let (d, e, v) = accepted name h in
      valid_wt_name-IsValidName name (differs name _ d) (differs name _ e) v,
  λ v.
      let valid = IsValidName-valid name v in
      accepts name (not_eq name _ v.not_dot) (not_eq name _ v.not_dots) valid
        (name-length name valid),
)
