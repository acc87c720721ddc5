-- ===== src/Task/Rows.antt =====
-- Lemmas on the SQL statements of `TaskEngine`: which rows a lookup finds after an UPDATE or an
-- INSERT, and how the COUNT of a join agrees with a NOT EXISTS.
use mathlib.Core.Option
use forge_agent.Base.{
  ℕ, ◌≤◌, ◌≡◌, refl, subst, String, Bool, true, not, ◌&&◌, Option, none, some, List, [], ◌∷◌, ◌++◌,
  arith, str_eq, eq_iff, if◌then◌else◌, count_where, any, All, ◌==◌, Bool-cases, inl, inr,
}
use forge_agent.Task.Tables.{
  Task, Dependency, is_completed, is_none, find_task, update_where, unfinished, unfinished_of,
  waits, claimable,
}

abbrev pub with_id : String → Task → Bool
with_id k t = str_eq t.id k

-- The row that an UPDATE leaves in the place of `t`.
abbrev pub updated : (Task → Bool) → (Task → Task) → Task → Task
updated p f t = if p t then f t else t

module _ (p : Task → Bool) (f : Task → Task) (keeps : (t : Task) → (f t).id ≡ t.id) where
  pub find-update_where :
      (j : String) (ts : List Task)
      → find_task j (update_where p f ts) ≡ Option.map (updated p f) (find_task j ts)
  unfolding find_task update_where
  find-update_where j [] = refl
  find-update_where j (t ∷ ts) = ground (arith, keeps t, find-update_where j ts)

  pub count-update_where :
      (j : String) (ts : List Task)
      → count_where (with_id j) (update_where p f ts) ≡ count_where (with_id j) ts
  unfolding update_where
  count-update_where j [] = refl
  count-update_where j (t ∷ ts) = ground (arith, keeps t, count-update_where j ts)

pub All-update_where :
    (P : Task → Type 0) (p : Task → Bool) (f : Task → Task) (ts : List Task)
    → ((t : Task) → P t → p t ≡ true → P (f t))
    → All P ts
    → All P (update_where p f ts)
unfolding update_where
All-update_where P p f [] keep h = tt
All-update_where P p f (t ∷ ts) keep h =
    (ground (arith, keep t h.0), All-update_where P p f ts keep h.1)

pub find-append_row :
    (j : String) (ts : List Task) (t : Task)
    → find_task j (ts ++ t ∷ []) ≡ (
        if is_none (find_task j ts)
        then (if str_eq t.id j then some t else none)
        else find_task j ts)
unfolding find_task
find-append_row j [] t = refl
find-append_row j (u ∷ ts) t = ground (arith, find-append_row j ts t)

pub find-id : (j : String) (ts : List Task) (t : Task) → find_task j ts ≡ some t → t.id ≡ j
unfolding find_task
find-id j [] t h = cc
find-id j (u ∷ ts) t h = ground (arith, eq_iff u.id j, find-id j ts t)

pub All-find :
    (P : Task → Type 0) (j : String) (ts : List Task) (t : Task)
    → All P ts
    → find_task j ts ≡ some t
    → P t
unfolding find_task
All-find P j [] t h e = cc
All-find P j (u ∷ ts) t h e = elim (Bool-cases (str_eq u.id j)) [
  | inl same ↦ (let q : u ≡ t = ground arith in subst P q h.0)
  | inr other ↦ All-find P j ts t h.1 (rw other at e)
]

pub count_of_none :
    (j : String) (ts : List Task) → find_task j ts ≡ none → count_where (with_id j) ts ≡ 0
unfolding find_task
count_of_none j [] h = refl
count_of_none j (u ∷ ts) h = ground (arith, count_of_none j ts)

claimable-le-with_id :
    (k : String) (ts : List Task) → count_where (claimable k) ts ≤ count_where (with_id k) ts
claimable-le-with_id k [] = omega arith
claimable-le-with_id k (u ∷ ts) = ground (arith, claimable-le-with_id k ts)

abbrev pub claimable_row : String → Option Task → ℕ
claimable_row k none = 0
claimable_row k (some t) = if claimable k t then 1 else 0

-- With unique identifiers the UPDATE of `claim_task` matches one row exactly when the task that
-- `find_task` gives is claimable.
pub count_claimable :
    (k : String) (ts : List Task)
    → count_where (with_id k) ts ≤ 1
    → count_where (claimable k) ts ≡ claimable_row k (find_task k ts)
unfolding find_task
count_claimable k [] h = refl
count_claimable k (u ∷ ts) h = ground (arith, claimable-le-with_id k ts, count_claimable k ts)

-- An UPDATE that matches no row changes nothing.
pub update_none :
    (p : Task → Bool) (f : Task → Task) (ts : List Task)
    → count_where p ts ≡ 0
    → update_where p f ts ≡ ts
unfolding update_where
update_none p f [] h = refl
update_none p f (t ∷ ts) h = ground (arith, update_none p f ts)

-- The COUNT of `can_start` is 0 exactly when the NOT EXISTS of `complete_task` holds.
any_unfinished :
    (d : String) (ts : List Task)
    → any (λ u. str_eq u.id d && not (is_completed u.status)) ts ≡ not (unfinished_of d ts == 0)
any_unfinished d [] = refl
any_unfinished d (t ∷ ts) = ground (arith, any_unfinished d ts)

pub waits-eq-unfinished :
    (deps : List Dependency) (ts : List Task) (t : Task)
    → waits deps ts t ≡ not (unfinished t.id deps ts == 0)
unfolding waits unfinished
waits-eq-unfinished [] ts t = refl
waits-eq-unfinished (r ∷ rs) ts t =
    ground (arith, any_unfinished r.depends_on_id ts, waits-eq-unfinished rs ts t)
