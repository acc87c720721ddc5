-- ===== src/Task/Engine/Unblock.antt =====
-- `complete_task` returns exactly the tasks that its completion lets start.
use forge_agent.Base.{
  ◌≤◌, ◌≡◌, ◌↔◌, refl, ap, subst, ◌∙◌, String, Bool, true, false, ◌&&◌, Option, none, some, List,
  [], ◌∷◌, arith, map, select, str_eq, count_where, any, ◌==◌, inl, inr, ok, Option-cases,
}
use forge_agent.Task.Tables.{
  Task, Dependency, Engine, is_pending, find_task, exists_task, has_dep, unfinished, depends_on,
}
use forge_agent.Task.Rows.{with_id, find-id, waits-eq-unfinished}
use forge_agent.Task.Engine.{
  can_start, complete_task, pending_dependent, unblocked, complete, serve,
}
use forge_agent.Task.Engine.Invariant.{IsConsistent, serve-IsConsistent}
use forge_agent.Task.Engine.Claims.{IsStartable}

abbrev pub contains : String → List String → Bool
contains j ids = any (λ i. str_eq i j) ids

abbrev pub ids_of : List Task → List String
ids_of = map (λ (t : Task). t.id)

abbrev found_and : (Task → Bool) → Option Task → Bool
found_and p none = false
found_and p (some t) = p t

select_absent :
    (p : Task → Bool) (j : String) (ts : List Task)
    → count_where (with_id j) ts ≡ 0
    → contains j (ids_of (select p ts)) ≡ false
select_absent p j [] h = refl
select_absent p j (t ∷ ts) h = ground (arith, select_absent p j ts)

select_found :
    (p : Task → Bool) (j : String) (ts : List Task)
    → count_where (with_id j) ts ≤ 1
    → contains j (ids_of (select p ts)) ≡ found_and p (find_task j ts)
unfolding find_task
select_found p j [] h = refl
select_found p j (t ∷ ts) h = ground (arith, select_absent p j ts, select_found p j ts)

depends_on-eq-has_dep :
    (k : String) (deps : List Dependency) (t : Task) → depends_on k deps t ≡ has_dep t.id k deps
depends_on-eq-has_dep k [] t = refl
depends_on-eq-has_dep k (r ∷ rs) t = ground (arith, depends_on-eq-has_dep k rs t)

pending_dependent-eq :
    (k : String) (s : Engine) (t : Task)
    → pending_dependent k s t
      ≡ (is_pending t.status && (has_dep t.id k s.deps && (unfinished t.id s.deps s.tasks == 0)))
unfolding pending_dependent
pending_dependent-eq k s t =
    ground (arith, waits-eq-unfinished s.deps s.tasks t, depends_on-eq-has_dep k s.deps t)

module _ {s : Engine} (h : IsConsistent s) (k j : String) where
  unblocked_found :
      (t : Task)
      → find_task j s.tasks ≡ some t
      → contains j (ids_of (unblocked k s))
        ≡ (is_pending t.status && (has_dep j k s.deps && (unfinished j s.deps s.tasks == 0)))
  unfolding unblocked
  unblocked_found t q =
      let e : t.id ≡ j = find-id j s.tasks t q in
      select_found (pending_dependent k s) j s.tasks (h.unique j)
      ∙ (rw q (
          pending_dependent-eq k s t
          ∙ ap
              (λ i.
                is_pending t.status && (has_dep i k s.deps && (unfinished i s.deps s.tasks == 0)))
              e))

  unblocked_missing : find_task j s.tasks ≡ none → contains j (ids_of (unblocked k s)) ≡ false
  unfolding unblocked
  unblocked_missing q = select_found (pending_dependent k s) j s.tasks (h.unique j) ∙ rw q

  -- `unblocked` lists the startable tasks that depend on `k`.
  unblocked_iff :
      (contains j (ids_of (unblocked k s)) ≡ true) ↔ (IsStartable j s × (has_dep j k s.deps ≡ true))
  unfolding can_start exists_task
  unblocked_iff = elim (Option-cases (find_task j s.tasks)) [
    | inl q ↦ (
      (λ c. absurd (ground (arith, unblocked_missing q))),
      (λ r. absurd (ground (arith, r.0.found))),
    )
    | inr (t, q) ↦ (
      (λ c. (
        record {
          task = t;
          found = q;
          waiting = ground (arith, unblocked_found t q);
          free = ground (arith, unblocked_found t q);
        },
        ground (arith, unblocked_found t q),
      )),
      (λ r. ground (arith, unblocked_found t q, r.0.found, r.0.waiting, r.0.free, r.1)),
    )
  ]

complete_task_ids :
    (s : Engine) (k : String) (ids : List String)
    → (complete_task k s).1 ≡ ok ids
    → ids_of (unblocked k (complete_task k s).0) ≡ ids
unfolding complete_task
complete_task_ids s k ids e = ground arith

serve-complete : (s : Engine) (k : String) → serve (complete k) s ≡ (complete_task k s).0
unfolding serve
serve-complete s k = refl

-- After a completion, `complete_task` returns a task exactly when it can start now and depends on
-- the completed one.
pub complete_task_unblocks :
    {s : Engine}
    → IsConsistent s
    → (k : String) (ids : List String) → (complete_task k s).1 ≡ ok ids
    → (j : String)
    → (contains j ids ≡ true)
      ↔ (IsStartable j (complete_task k s).0 × (has_dep j k (complete_task k s).0.deps ≡ true))
complete_task_unblocks {s} h k ids e j =
    let kept : IsConsistent (complete_task k s).0 =
      rw serve-complete at (serve-IsConsistent (complete k) s h) in
    subst
      (λ is.
        (contains j is ≡ true)
        ↔ (IsStartable j (complete_task k s).0 × (has_dep j k (complete_task k s).0.deps ≡ true)))
      (complete_task_ids s k ids e) (unblocked_iff kept k j)
