-- ===== src/Context/Compaction/Tail.antt =====
-- What the model is shown after a call: the recent messages as they are.
use forge_agent.Base.{
  ℕ, ◌≡◌, ◌⊎◌, inl, inr, refl, ap, sym, subst, ◌∙◌, false, not, ◌&&◌, Option, none, some, List, [],
  ◌∷◌, ◌++◌, length, leb, ◌==◌, arith, drop, take,
}
use mathlib.Core.List.{append_assoc}
use forge_agent.Llm.Usage.{recorded}
use forge_agent.Context.Evidence.{LlmMessage}
use forge_agent.Context.Pruning.{PruningResult}
use forge_agent.Context.Compaction.{
  raw, dicts, Compaction, CompactionConfig, Turn, CompactionEvent, compaction_started,
  compaction_failed, Summary, below, pressure_of, active_messages, reuse_active_view, tail_start,
  pruned_of, summary_message, other_task,
}
use forge_agent.Context.Compaction.Call.{
  with_pruned, SummaryDigest, compacted, fell_back, summarised, summary_stage, summary_by,
  extractive, digest_of, pruned_stage, tail_stage, fresh, after_reuse, call,
}
use forge_agent.Context.Compaction.Views.{
  EndsWith, FromHistory, FromView, Shows, if-Shows, unchanged-Shows, drop-pruned, pruned-EndsWith,
  IsView, active_messages-IsView, IsView-FromView, Looked, reuse-Looked, from_kept,
}

module _ (cfg : CompactionConfig) (t : Turn) where
  -- the stages on the canonical history, whose recent part begins at `start`
  module _ (s : Compaction) (start : ℕ) (e : tail_start cfg t (raw t) ≡ some start) where
    abbrev result : PruningResult
    result = pruned_of cfg t t.history start

    some-FromHistory :
        (out view : List LlmMessage)
        → EndsWith view (drop start t.history)
        → some view ≡ some out
        → FromHistory cfg t out ⊎ FromView cfg t s out
    some-FromHistory out view h q = inl (record {
      start = start;
      is_start = e;
      ends = subst (λ x. EndsWith x (drop start t.history)) (ground (arith, q)) h;
    })

    with_pruned-Shows : (u : Compaction) → Shows cfg t s (with_pruned cfg t start result u)
    unfolding with_pruned
    with_pruned-Shows u out q =
        some-FromHistory out result.messages (pruned-EndsWith cfg t t.history start) q

    compacted-Shows :
        (d : SummaryDigest) (es : List CompactionEvent) (u : Compaction)
        → Shows cfg t s (compacted cfg t start result d es u)
    unfolding compacted
    compacted-Shows d es u out q =
        some-FromHistory out _
          (
            take 1 result.messages ++ (summary_message d.text ∷ []),
            ap (λ l. take 1 result.messages ++ (summary_message d.text ∷ l))
                  (drop-pruned cfg t t.history start)
                ∙ sym (append_assoc (take 1 result.messages) (summary_message d.text ∷ []) _),
          )
          q

    fell_back-Shows :
        (a : Summary) (es : List CompactionEvent) (u : Compaction)
        (p : Compaction × Option (List LlmMessage))
        → ((view : List LlmMessage) → p.1 ≡ some view → IsView cfg t s view)
        → Shows cfg t s (fell_back cfg t start result a es p)
    unfolding fell_back
    fell_back-Shows a es u (w, none) h out q = compacted-Shows (digest_of cfg t a) es w out q
    fell_back-Shows a es u (w, some view) h out q =
        inr (IsView-FromView cfg t out (h view refl) (ground (arith, q)))

    summarised-Shows :
        (a : Summary)
        → other_task cfg t s.active_view ≡ false
        → Shows cfg t s (summarised cfg t start result a s)
    unfolding summarised
    summarised-Shows a o =
        let u : Compaction = record s { pending_usage = recorded s.pending_usage a.usage } in
        let started : CompactionEvent =
          compaction_started (pressure_of t (dicts result.messages)) in
        if-Shows cfg t _ _ a.has_fields (compacted-Shows (digest_of cfg t a) (started ∷ []) u) (
          fell_back-Shows a (started ∷ compaction_failed a.error ∷ []) u (active_messages t u)
            (λ view e. of_charged view (active_messages-IsView cfg t u view o e)))
      where
        of_charged :
            (view : List LlmMessage)
            → IsView cfg t (record s { pending_usage = recorded s.pending_usage a.usage }) view
            → IsView cfg t s view
        of_charged view v = record {
          active = v.active;
          is_active = v.is_active;
          same_task = v.same_task;
          within = v.within;
          same_prefix = v.same_prefix;
          is_view = v.is_view;
        }

    summary_stage-Shows :
        other_task cfg t s.active_view ≡ false → Shows cfg t s (summary_stage cfg t start result s)
    unfolding summary_stage
    summary_stage-Shows o = by t.summarizer
      where
        by :
            (f : Option (List LlmMessage → List LlmMessage → Summary))
            → Shows cfg t s (summary_by cfg t f start result s)
        by none = compacted-Shows (extractive cfg t start result) [] s
        by (some f) = summarised-Shows _ o

    pruned_stage-Shows :
        other_task cfg t s.active_view ≡ false → Shows cfg t s (pruned_stage cfg t start result s)
    unfolding pruned_stage
    pruned_stage-Shows o =
        if-Shows cfg t _ _
          (not (result.pruned_units == 0)
            && below cfg.threshold (pressure_of t (dicts result.messages)))
          (with_pruned-Shows s)
          (if-Shows cfg t _ _ _
            (if-Shows cfg t _ _ (result.pruned_units == 0) (unchanged-Shows cfg t s s)
              (with_pruned-Shows s))
            (summary_stage-Shows o))

  fresh-Shows :
      (s : Compaction) → other_task cfg t s.active_view ≡ false → Shows cfg t s (fresh cfg t s)
  unfolding fresh
  fresh-Shows s o =
      if-Shows cfg t _ _ (below cfg.threshold (pressure_of t (raw t))) (unchanged-Shows cfg t s s)
        (at_tail (tail_start cfg t (raw t)) refl)
    where
      at_tail : (k : Option ℕ) → tail_start cfg t (raw t) ≡ k → Shows cfg t s (tail_stage cfg t k s)
      at_tail none e = unchanged-Shows cfg t s s
      at_tail (some start) e = pruned_stage-Shows s start e o

  after_reuse-Shows :
      (s u : Compaction) (o : Option (List LlmMessage))
      → Looked cfg t s (u, o)
      → Shows cfg t s (after_reuse cfg t (u, o))
  after_reuse-Shows s u none l out q = of_fresh (fresh-Shows u l.current out q)
    where
      of_fresh :
          FromHistory cfg t out ⊎ FromView cfg t u out
          → FromHistory cfg t out ⊎ FromView cfg t s out
      of_fresh (inl h) = inl h
      of_fresh (inr v) = inr (from_kept cfg t s u out l.kept v)
  after_reuse-Shows s u (some view) l out q = inr (l.viewed out q)

  -- Whatever the summariser answers: a view that is given to the model ends with the recent part of
  -- the history, message for message. Or it is the active view, or that pruned before its recent
  -- part: then the active view is of the task of this turn, and the digest of the messages that its
  -- summary stands for is that of the history's first messages now.
  pub call-Shows : (s : Compaction) → Shows cfg t s (call cfg t s)
  unfolding call
  call-Shows s = if-Shows cfg t _ _ (leb (length t.history) 1) (unchanged-Shows cfg t s s) (
      after_reuse-Shows s (reuse_active_view cfg t s).0 (reuse_active_view cfg t s).1
        (reuse-Looked cfg t s))
