-- ===== src/Context/Compaction/Views.antt =====
-- The views of the history that the object keeps, and what `_reuse_active_view` gives.
use forge_agent.Base.{
  ℕ, ◌≤◌, ◌≡◌, ◌⊎◌, inl, inr, refl, ap, sym, subst, ◌∙◌, Bool, true, false, Option, none, some,
  Option-cases, List, ◌++◌, Bool-cases, length, ltb, ◌==◌, str_eq, if◌then◌else◌, arith, map, drop,
  take, take-append-drop, text_eq,
}
use forge_agent.Context.Evidence.{LlmMessage}
use forge_agent.Context.History.{sum}
use forge_agent.Context.Pruning.{PruningResult}
use forge_agent.Context.Pruning.Protected.{drop-prune}
use forge_agent.Context.Compaction.{
  raw, dicts, ActiveCompactedView, Compaction, CompactionConfig, Turn, Prepared, below, pressure_of,
  active_messages, reuse_messages, reuse_at, reuse_from, reuse_active_view, tail_start, pruned_of,
  prefix_hash, compact_view, other_task,
}
use forge_agent.Context.Compaction.Call.{unchanged}

abbrev pub EndsWith : List LlmMessage → List LlmMessage → Type 0
EndsWith out tail = (front : List LlmMessage) × (out ≡ front ++ tail)

module _ (cfg : CompactionConfig) (t : Turn) where
  -- The view ends with the recent part of the history, as it is there.
  pub record FromHistory (out : List LlmMessage) : Type 0 where
    pub start : ℕ
    pub is_start : tail_start cfg t (raw t) ≡ some start
    pub ends : EndsWith out (drop start t.history)

  abbrev pub view_messages : ActiveCompactedView → List LlmMessage
  view_messages v = compact_view t.history v.summary_text v.source_end_index

  -- The view is made of the summary of the active view, whose task is that of the turn and whose
  -- digest is that of the messages that it stands for, with all messages since then; or of these
  -- pruned, and then it ends with their recent part, as it is there.
  pub record FromView (s : Compaction) (out : List LlmMessage) : Type 0 where
    pub active : ActiveCompactedView
    pub is_active : s.active_view ≡ some active
    pub same_task : text_eq active.task_description t.task_description ≡ true
    pub within : active.source_end_index ≤ length t.history
    pub same_prefix :
        str_eq (prefix_hash t t.history active.source_end_index) active.source_prefix_hash ≡ true
    pub shown :
        (out ≡ view_messages active)
        ⊎ ((k : ℕ) × (tail_start cfg t (dicts (view_messages active)) ≡ some k)
            × EndsWith out (drop k (view_messages active)))

  abbrev pub Shows : Compaction → Prepared → Type 0
  Shows s p =
      (out : List LlmMessage) → p.history_override ≡ some out → FromHistory out ⊎ FromView s out

  pub if-Shows :
      {s : Compaction} (p q : Prepared) (b : Bool)
      → Shows s p
      → Shows s q
      → Shows s (if b then p else q)
  if-Shows p q true h k = h
  if-Shows p q false h k = k

  pub unchanged-Shows : (s u : Compaction) → Shows s (unchanged u)
  unchanged-Shows s u out e = absurd (ground (arith, e))

  pub drop-pruned :
      (ms : List LlmMessage) (start : ℕ)
      → drop start (pruned_of cfg t ms start).messages ≡ drop start ms
  drop-pruned ms start =
      drop-prune t.json_object t.estimate_text (λ ds. sum (map t.estimate_message ds))
        cfg.min_output_tokens ms start

  pub pruned-EndsWith :
      (ms : List LlmMessage) (start : ℕ)
      → EndsWith (pruned_of cfg t ms start).messages (drop start ms)
  pruned-EndsWith ms start =
      let out : List LlmMessage = (pruned_of cfg t ms start).messages in
      (
        take start out,
        sym (take-append-drop start out) ∙ ap (λ l. take start out ++ l) (drop-pruned ms start),
      )

  -- a view that `_active_messages` gives
  pub record IsView (u : Compaction) (view : List LlmMessage) : Type 0 where
    pub active : ActiveCompactedView
    pub is_active : u.active_view ≡ some active
    pub same_task : text_eq active.task_description t.task_description ≡ true
    pub within : active.source_end_index ≤ length t.history
    pub same_prefix :
        str_eq (prefix_hash t t.history active.source_end_index) active.source_prefix_hash ≡ true
    pub is_view : view ≡ view_messages active

  pub active_messages-IsView :
      (u : Compaction) (view : List LlmMessage)
      → other_task cfg t u.active_view ≡ false
      → (active_messages t u).1 ≡ some view
      → IsView u view
  unfolding active_messages
  active_messages-IsView u view o h = elim (Option-cases u.active_view) [
    | inl e ↦ absurd (ground (arith, h, e))
    | inr (v, e) ↦ record {
      active = v;
      is_active = e;
      same_task = ground (arith, o, e);
      within = ground (arith, h, e);
      same_prefix = ground (arith, h, e);
      is_view = ground (arith, h, e);
    }
  ]

  pub IsView-FromView :
      {u : Compaction} {view : List LlmMessage} (out : List LlmMessage)
      → IsView u view
      → view ≡ out
      → FromView u out
  IsView-FromView out v e = record {
    active = v.active;
    is_active = v.is_active;
    same_task = v.same_task;
    within = v.within;
    same_prefix = v.same_prefix;
    shown = inl (sym e ∙ v.is_view);
  }

  reuse_at-EndsWith :
      (view out : List LlmMessage) (k : Option ℕ)
      → reuse_at cfg t view k ≡ some out
      → (start : ℕ) × (k ≡ some start) × EndsWith out (drop start view)
  reuse_at-EndsWith view out none h = absurd (ground (arith, h))
  reuse_at-EndsWith view out (some start) h =
      let r : PruningResult = pruned_of cfg t view start in
      let e : r.messages ≡ out =
        taken (r.pruned_units == 0) (below cfg.threshold (pressure_of t (dicts r.messages))) h in
      (start, refl, subst (λ x. EndsWith x (drop start view)) e (pruned-EndsWith view start))
    where
      taken :
          {m o : List LlmMessage} (b c : Bool)
          → (if b then none else if c then some m else none) ≡ some o
          → m ≡ o
      taken true c q = absurd (ground (arith, q))
      taken false true q = ground (arith, q)
      taken false false q = absurd (ground (arith, q))

  -- `_reuse_active_view` on the messages of a view
  reuse_messages-FromView :
      (s : Compaction) (view out : List LlmMessage)
      → IsView s view
      → reuse_messages cfg t view ≡ some out
      → FromView s out
  unfolding reuse_messages
  reuse_messages-FromView s view out v h =
      elim (Bool-cases (below cfg.threshold (pressure_of t (dicts view)))) [
        | inl e ↦ IsView-FromView out v (ground (arith, h, e))
        | inr e ↦
            let at : reuse_at cfg t view (tail_start cfg t (dicts view)) ≡ some out =
              ground (arith, h, e) in
            let (start, is_start, ends) =
              reuse_at-EndsWith view out (tail_start cfg t (dicts view)) at in
            record {
              active = v.active;
              is_active = v.is_active;
              same_task = v.same_task;
              within = v.within;
              same_prefix = v.same_prefix;
              shown = inr (
                start,
                subst (λ w. tail_start cfg t (dicts w) ≡ some start) v.is_view is_start,
                subst (λ w. EndsWith out (drop start w)) v.is_view ends,
              );
            }
      ]

  -- what a look at the active view leaves: the view, or none
  pub record Looked (s : Compaction) (p : Compaction × Option (List LlmMessage)) : Type 0 where
    pub current : other_task cfg t p.0.active_view ≡ false
    pub kept : (p.0.active_view ≡ s.active_view) ⊎ (p.0.active_view ≡ none)
    pub viewed : (view : List LlmMessage) → p.1 ≡ some view → FromView s view

  pub from_kept :
      (s u : Compaction) (out : List LlmMessage)
      → (u.active_view ≡ s.active_view) ⊎ (u.active_view ≡ none)
      → FromView u out
      → FromView s out
  from_kept s u out (inr e) v = absurd (ground (arith, e, v.is_active))
  from_kept s u out (inl e) v = record {
    active = v.active;
    is_active = sym e ∙ v.is_active;
    same_task = v.same_task;
    within = v.within;
    same_prefix = v.same_prefix;
    shown = v.shown;
  }

  active_messages-view :
      (s : Compaction)
      → ((active_messages t s).0.active_view ≡ s.active_view)
        ⊎ ((active_messages t s).0.active_view ≡ none)
  unfolding active_messages
  active_messages-view s = elim (Option-cases s.active_view) [
    | inl e ↦ inl (ground (arith, e))
    | inr (v, e) ↦ elim (Bool-cases (ltb (length t.history) v.source_end_index)) [
      | inl b ↦ inr (ground (arith, e, b))
      | inr b ↦
          elim (Bool-cases
            (str_eq (prefix_hash t t.history v.source_end_index) v.source_prefix_hash)) [
              | inl c ↦ inl (ground (arith, e, b, c))
              | inr c ↦ inr (ground (arith, e, b, c))
            ]
    ]
  ]

  not_other :
      (s : Compaction) (o : Option ActiveCompactedView)
      → other_task cfg t s.active_view ≡ false
      → (o ≡ s.active_view) ⊎ (o ≡ none)
      → other_task cfg t o ≡ false
  not_other s o n (inl e) = ap (other_task cfg t) e ∙ n
  not_other s o n (inr e) = ap (other_task cfg t) e

  reuse_from-Looked :
      (s u : Compaction) (o : Option (List LlmMessage))
      → other_task cfg t s.active_view ≡ false
      → (u.active_view ≡ s.active_view) ⊎ (u.active_view ≡ none)
      → ((view : List LlmMessage) → o ≡ some view → IsView s view)
      → Looked s (reuse_from cfg t (u, o))
  reuse_from-Looked s u none n k h = record {
    current = not_other s u.active_view n k;
    kept = k;
    viewed = λ view e. absurd (ground (arith, e));
  }
  reuse_from-Looked s u (some w) n k h = record {
    current = not_other s u.active_view n k;
    kept = k;
    viewed = λ view e. reuse_messages-FromView s w view (h w refl) e;
  }

  pub reuse-Looked : (s : Compaction) → Looked s (reuse_active_view cfg t s)
  unfolding reuse_active_view
  reuse-Looked s = by (other_task cfg t s.active_view) refl
    where
      by :
          (b : Bool)
          → other_task cfg t s.active_view ≡ b
          → Looked s (
              if b
              then (record s { active_view = none }, none)
              else reuse_from cfg t (active_messages t s))
      by true e = record {
        current = refl;
        kept = inr refl;
        viewed = λ view q. absurd (ground (arith, q));
      }
      by false e =
          reuse_from-Looked s (active_messages t s).0 (active_messages t s).1 e
            (active_messages-view s) (λ view q. active_messages-IsView s view e q)
