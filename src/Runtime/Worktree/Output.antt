-- ===== src/Runtime/Worktree/Output.antt =====
-- When the output of a git process has no line.
use forge_agent.Base.{
  ℕ, ◌≡◌, ◌≢◌, ◌⊎◌, inl, inr, refl, sym, ap, subst, ◌∙◌, Bool, true, false, not, List, [], ◌∷◌,
  ◌++◌, Bool-cases, if◌then◌else◌, arith, take, all, select, Text, text_eq, codes, is_space, strip,
  rstrip, drop_while, take_while, split_lines, extend, is_line_break, reverse,
}
use mathlib.Core.List.{reverse-append, reverse-reverse}
use forge_agent.Runtime.Worktree.{
  Process, exited, timed_out, not_run, or_no_output, git_output, git_output_lines, is_blank,
}

drop_while-split : (p : ℕ → Bool) (s : Text) → s ≡ take_while p s ++ drop_while p s
drop_while-split p [] = refl
drop_while-split p (c ∷ s) = ground (arith, drop_while-split p s)

all-take_while : (p : ℕ → Bool) (s : Text) → all p (take_while p s) ≡ true
all-take_while p [] = refl
all-take_while p (c ∷ s) = ground (arith, all-take_while p s)

all-append : (p : ℕ → Bool) (s t : Text) → all p s ≡ true → all p t ≡ true → all p (s ++ t) ≡ true
all-append p [] t h k = k
all-append p (c ∷ s) t h k = ground (arith, h, all-append p s t (ground (arith, h)) k)

all-reverse : (p : ℕ → Bool) (s : Text) → all p s ≡ true → all p (reverse s) ≡ true
all-reverse p [] h = refl
all-reverse p (c ∷ s) h =
    rw (reverse-append (c ∷ []) s)
      (all-append p (reverse s) (c ∷ []) (all-reverse p s (ground (arith, h))) (ground (arith, h)))

-- a text is what `rstrip` leaves of it, with spaces behind
rstrip-split : (s : Text) → (t : Text) × (s ≡ rstrip s ++ t) × (all is_space t ≡ true)
rstrip-split s =
    let r = reverse s in
    (
      reverse (take_while is_space r),
      sym (reverse-reverse s)
          ∙ ap reverse (drop_while-split is_space r)
          ∙ reverse-append (take_while is_space r) (drop_while is_space r),
      all-reverse is_space (take_while is_space r) (all-take_while is_space r),
    )

-- what `drop_while` leaves begins with another character
drop_while-head :
    (p : ℕ → Bool) (s : Text) (c : ℕ) (t : Text) → drop_while p s ≡ c ∷ t → p c ≡ false
drop_while-head p [] c t h = absurd (ground (arith, h))
drop_while-head p (d ∷ s) c t h = elim (Bool-cases (p d)) [
  | inl e ↦ drop_while-head p s c t (ground (arith, e, h))
  | inr e ↦ ground (arith, e, h)
]

strip-nil : (s : Text) → strip s ≡ [] → all is_space s ≡ true
strip-nil s h =
    let (t, e, a) = rstrip-split (drop_while is_space s) in
    subst (λ x. all is_space x ≡ true) (sym (drop_while-split is_space s))
      (all-append is_space (take_while is_space s) (drop_while is_space s)
        (all-take_while is_space s)
        (subst (λ x. all is_space x ≡ true) (sym (e ∙ ap (λ x. x ++ t) h)) a))

strip-head : (s : Text) (c : ℕ) (u : Text) → strip s ≡ c ∷ u → is_space c ≡ false
strip-head s c u h =
    let (t, e, a) = rstrip-split (drop_while is_space s) in
    drop_while-head is_space s c (u ++ t) (e ∙ ap (λ x. x ++ t) h)

line_break-space : (c : ℕ) → is_space c ≡ false → is_line_break c ≡ false
line_break-space c h = ground (arith, h)

extend-first :
    (c : ℕ) (ls : List Text) → (l : Text) × (ks : List Text) × (extend c ls ≡ (c ∷ l) ∷ ks)
extend-first c [] = ([], [], refl)
extend-first c (l ∷ ls) = (l, ls, refl)

-- the first line begins with the first character, if that ends no line
split_lines-first :
    (c : ℕ) (s : Text)
    → is_line_break c ≡ false
    → (l : Text) × (ls : List Text) × (split_lines (c ∷ s) ≡ (c ∷ l) ∷ ls)
split_lines-first c [] h = ([], [], ground (arith, h))
split_lines-first c (d ∷ s) h =
    let (l, ls, e) = extend-first c (split_lines (d ∷ s)) in (l, ls, ground (arith, h, e))

some_line :
    (c : ℕ) (s : Text)
    → is_space c ≡ false
    → select (λ line. not (is_blank line)) (split_lines (c ∷ s)) ≢ []
some_line c s h e =
    let (l, ls, q) = split_lines-first c s (line_break-space c h) in
    absurd (ground (arith, h, e, q))

-- what git prints is no line: spaces, or the text that stands for no output
pub record Silent (p : Process) : Type 0 where
  pub stdout : Text
  pub stderr : Text
  pub is_exit : p ≡ exited 0 stdout stderr
  pub blank :
      (all is_space (stdout ++ stderr) ≡ true)
      ⊎ (text_eq (take 5000 (strip (stdout ++ stderr))) (codes "(no output)") ≡ true)

lines_of :
    (c : ℕ) (u : Text)
    → text_eq (c ∷ u) (codes "(no output)") ≡ false
    → git_output_lines (c ∷ u) ≡ select (λ line. not (is_blank line)) (split_lines (c ∷ u))
unfolding git_output_lines
lines_of c u q =
    ap (λ b. if b then [] else select (λ line. not (is_blank line)) (split_lines (c ∷ u))) q

no_lines :
    (out s : Text)
    → strip s ≡ out
    → git_output_lines (or_no_output out) ≡ []
    → (all is_space s ≡ true) ⊎ (text_eq (take 5000 out) (codes "(no output)") ≡ true)
no_lines [] s e h = inl (strip-nil s e)
no_lines (c ∷ u) s e h = elim (Bool-cases (text_eq (take 5000 (c ∷ u)) (codes "(no output)"))) [
  | inl q ↦ inr q
  | inr q ↦
      absurd (some_line c (take 4999 u) (strip-head s c u e) (sym (lines_of c (take 4999 u) q) ∙ h))
]

pub git_output-Silent :
    (p : Process) (timeout : ℕ) (out : Text)
    → git_output timeout p ≡ (true, out)
    → git_output_lines out ≡ []
    → Silent p
unfolding git_output
git_output-Silent (exited n a b) timeout out h l = record {
  stdout = a;
  stderr = b;
  is_exit = ground (arith, h);
  blank =
      no_lines (strip (a ++ b)) (a ++ b) refl
        (subst (λ x. git_output_lines x ≡ []) (ap (λ r. r.1) (sym h)) l);
}
git_output-Silent timed_out timeout out h l = absurd (ground (arith, h))
git_output-Silent (not_run e) timeout out h l = absurd (ground (arith, h))
