-- ===== src/Entry/ApiStore/Started.antt =====
-- How often a task of the API is started.
use forge_agent.Base.{
  ℕ, ◌+◌, ◌≤◌, ◌≡◌, refl, String, Bool, true, false, ◌&&◌, ◌||◌, none, some, List, [], ◌∷◌, ◌++◌,
  str_eq, eq_iff, sym, subst, ◌∙◌, ap, Bool-cases, inl, inr, if◌then◌else◌, any, count_where, ok,
  err, arith,
}
use forge_agent.Entry.ApiStore.{
  ApiStatus, ApiTask, Table, Response, is_queued, update_rows, exists, find_row, startable,
  new_task, integrity, task_not_found, as_running, as_finished, FinishInfo, create_task,
  mark_running, set_runtime_info, mark_finished, request_cancel, cancel_row, updated, ApiRequest,
  serve,
}

abbrev pub has_queued : String → Table → Bool
has_queued k s = any (startable k) s

-- whether a request starts the task `k`: a `mark_running` that returns True
abbrev pub starts : String → ApiRequest → Table → Bool
starts k (ApiRequest.start j now) s =
    str_eq j k && (elim (mark_running j now s).1 as (λ _. Bool) [ ok b ↦ b | err e ↦ false ])
starts k _ s = false

-- how many of the requests start the task
abbrev pub starts_of : String → List ApiRequest → Table → ℕ
starts_of k [] s = 0
starts_of k (r ∷ rs) s = (if starts k r s then 1 else 0) + starts_of k rs (serve r s)

module _ (j : String) where
  queued-count_where : (s : Table) → has_queued j s ≡ false → count_where (startable j) s ≡ 0
  queued-count_where [] h = refl
  queued-count_where (t ∷ ts) h = ground (arith, queued-count_where ts, h)

  running-has_queued :
      (now : ℕ) (s : Table) → has_queued j (update_rows (startable j) (as_running now) s) ≡ false
  unfolding update_rows
  running-has_queued now [] = refl
  running-has_queued now (t ∷ ts) = ground (arith, running-has_queued now ts)

  started-has_queued :
      (now : ℕ) (s : Table) → (mark_running j now s).1 ≡ ok true → has_queued j s ≡ true
  unfolding mark_running
  started-has_queued now s h = ground (arith, h, queued-count_where s)

module _ (k : String) where
  -- an update that keeps identifiers and makes no row queued
  update_rows-has_queued :
      (p : ApiTask → Bool) (f : ApiTask → ApiTask) (s : Table)
      → ((t : ApiTask) → startable k t ≡ false → startable k (f t) ≡ false)
      → has_queued k s ≡ false
      → has_queued k (update_rows p f s) ≡ false
  unfolding update_rows
  update_rows-has_queued p f [] h q = refl
  update_rows-has_queued p f (t ∷ ts) h q = ground (arith, h t, q, update_rows-has_queued p f ts h)

  update_rows-exists :
      (p : ApiTask → Bool) (f : ApiTask → ApiTask) (s : Table)
      → ((t : ApiTask) → (f t).id ≡ t.id)
      → exists k (update_rows p f s) ≡ exists k s
  unfolding update_rows exists
  update_rows-exists p f [] h = refl
  update_rows-exists p f (t ∷ ts) h = ground (arith, h t, update_rows-exists p f ts h)

  mark_running-table :
      (j : String) (now : ℕ) (s : Table)
      → (mark_running j now s).0 ≡ update_rows (startable j) (as_running now) s
  unfolding mark_running
  mark_running-table j now s = ground arith

  updated-table :
      (j : String) (f : ApiTask → ApiTask) (s : Table)
      → (updated j f s).0 ≡ update_rows (λ t. str_eq t.id j) f s
  updated-table j f s = ground arith

  any-append :
      (p : ApiTask → Bool) (xs : Table) (t : ApiTask) → any p (xs ++ t ∷ []) ≡ (any p xs || p t)
  any-append p [] t = ground arith
  any-append p (x ∷ xs) t = ground (arith, any-append p xs t)

  -- the table keeps its row, and the row does not come back to the queue
  abbrev Keeps : Table → Table → Type 0
  Keeps s s' = (has_queued k s ≡ false → has_queued k s' ≡ false) × (exists k s' ≡ true)

  update-Keeps :
      (p : ApiTask → Bool) (f : ApiTask → ApiTask) (s : Table)
      → ((t : ApiTask) → startable k t ≡ false → startable k (f t) ≡ false)
      → ((t : ApiTask) → (f t).id ≡ t.id)
      → exists k s ≡ true
      → Keeps s (update_rows p f s)
  update-Keeps p f s h i e = (update_rows-has_queued p f s h, update_rows-exists p f s i ∙ e)

  create-Keeps :
      (j : String) (now : ℕ) (a b c : String) (s : Table)
      → exists k s ≡ true
      → Keeps s (create_task j now a b c s).0
  unfolding create_task exists
  create-Keeps j now a b c s e =
      elim (exists j s)
          as (λ b'.
            exists j s ≡ b'
            → Keeps s
                (if◌then◌else◌ {A = Response String} b' (s, err integrity)
                  (s ++ new_task j now a b c ∷ [], ok j)).0) [
                    | true ↦ λ q. (λ h. h, e)
                    | false ↦ λ q. (
                      (λ h.
                          ground
                            (arith, any-append (startable k) s (new_task j now a b c), h, other q)),
                      ground (arith, any-append (λ t. str_eq t.id k) s (new_task j now a b c), e),
                    )
                  ]
        refl
    where
      other : exists j s ≡ false → str_eq j k ≡ false
      other q = elim (Bool-cases (str_eq j k)) [
        | inl f ↦ absurd (ground (arith, q, e, ap (λ i. exists i s) ((eq_iff j k).0 f)))
        | inr f ↦ f
      ]

  as_finished-Keeps :
      (j : String) (status : ApiStatus) (now : ℕ) (i : FinishInfo) (s : Table)
      → is_queued status ≡ false
      → exists k s ≡ true
      → Keeps s (updated j (as_finished status now i) s).0
  as_finished-Keeps j status now i s q e =
      subst (Keeps s) (sym (updated-table j (as_finished status now i) s)) (
        update-Keeps (λ t. str_eq t.id j) (as_finished status now i) s (λ t h. ground (arith, q))
          (λ t. refl) e)

  finish-Keeps :
      (j : String) (status : ApiStatus) (now : ℕ) (i : FinishInfo) (s : Table)
      → exists k s ≡ true
      → Keeps s (mark_finished j status now i s).0
  unfolding mark_finished
  finish-Keeps j ApiStatus.queued now i s e = (λ h. h, e)
  finish-Keeps j ApiStatus.running now i s e = (λ h. h, e)
  finish-Keeps j ApiStatus.cancel_requested now i s e = (λ h. h, e)
  finish-Keeps j ApiStatus.succeeded now i s e =
      as_finished-Keeps j ApiStatus.succeeded now i s refl e
  finish-Keeps j ApiStatus.failed now i s e = as_finished-Keeps j ApiStatus.failed now i s refl e
  finish-Keeps j ApiStatus.canceled now i s e =
      as_finished-Keeps j ApiStatus.canceled now i s refl e

  cancel_row-Keeps :
      (j : String) (now : ℕ) (status : ApiStatus) (s : Table)
      → exists k s ≡ true
      → Keeps s (cancel_row j now status s).0
  unfolding cancel_row
  cancel_row-Keeps j now ApiStatus.queued s e =
      update-Keeps _ _ s (λ t h. ground arith) (λ t. refl) e
  cancel_row-Keeps j now ApiStatus.running s e =
      update-Keeps _ _ s (λ t h. ground arith) (λ t. refl) e
  cancel_row-Keeps j now ApiStatus.succeeded s e = (λ h. h, e)
  cancel_row-Keeps j now ApiStatus.failed s e = (λ h. h, e)
  cancel_row-Keeps j now ApiStatus.cancel_requested s e = (λ h. h, e)
  cancel_row-Keeps j now ApiStatus.canceled s e = (λ h. h, e)

  cancel-Keeps :
      (j : String) (now : ℕ) (s : Table) → exists k s ≡ true → Keeps s (request_cancel j now s).0
  unfolding request_cancel
  cancel-Keeps j now s e =
      elim (find_row j s)
        as (λ o.
          Keeps s
            (elim o as (λ _. Response ApiStatus) [
              | none ↦ (s, err (task_not_found j))
              | some t ↦ cancel_row j now t.status s
            ]).0) [ none ↦ (λ h. h, e) | some t ↦ cancel_row-Keeps j now t.status s e ]

  serve-Keeps : (r : ApiRequest) (s : Table) → exists k s ≡ true → Keeps s (serve r s)
  unfolding serve set_runtime_info
  serve-Keeps (ApiRequest.create j now a b c) s e = create-Keeps j now a b c s e
  serve-Keeps (ApiRequest.start j now) s e =
      subst (Keeps s) (sym (mark_running-table j now s))
        (update-Keeps (startable j) (as_running now) s (λ t h. ground (arith, h)) (λ t. refl) e)
  serve-Keeps (ApiRequest.describe j a b) s e =
      subst (Keeps s) (sym (updated-table j _ s)) (update-Keeps _ _ s (λ t h. h) (λ t. refl) e)
  serve-Keeps (ApiRequest.finish j status now i) s e = finish-Keeps j status now i s e
  serve-Keeps (ApiRequest.cancel j now) s e = cancel-Keeps j now s e

  start_queued :
      (r : ApiRequest) (s : Table)
      → starts k r s ≡ true
      → (has_queued k s ≡ true) × (has_queued k (serve r s) ≡ false)
  unfolding serve
  start_queued (ApiRequest.start j now) s h =
      let q : j ≡ k = (eq_iff j k).0 (ground (arith, h)) in
      (
        subst (λ i. has_queued i s ≡ true) q (started-has_queued j now s (ground (arith, h))),
        subst (λ i. has_queued i (mark_running j now s).0 ≡ false) q
            (ap (has_queued j) (mark_running-table j now s) ∙ running-has_queued j now s),
      )
  start_queued (ApiRequest.create j now a b c) s h = absurd (ground (arith, h))
  start_queued (ApiRequest.describe j a b) s h = absurd (ground (arith, h))
  start_queued (ApiRequest.finish j status now i) s h = absurd (ground (arith, h))
  start_queued (ApiRequest.cancel j now) s h = absurd (ground (arith, h))

  starts-le :
      (r : ApiRequest) (s : Table)
      → exists k s ≡ true
      → (if starts k r s then 1 else 0) + (if has_queued k (serve r s) then 1 else 0)
        ≤ (if has_queued k s then 1 else 0)
  starts-le r s e = elim (Bool-cases (starts k r s)) [
    | inl q ↦ ground (arith, q, start_queued r s q)
    | inr q ↦ ground (arith, q, (serve-Keeps r s e).0)
  ]

  -- A task that is in the table is started at most once over any requests, and not at all if it does
  -- not wait in the queue.
  pub starts_of-le :
      (rs : List ApiRequest) (s : Table)
      → exists k s ≡ true
      → starts_of k rs s ≤ (if has_queued k s then 1 else 0)
  starts_of-le [] s e = omega arith
  starts_of-le (r ∷ rs) s e =
      omega (arith, starts-le r s e, starts_of-le rs (serve r s) (serve-Keeps r s e).1)
