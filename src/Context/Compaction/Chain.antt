-- ===== src/Context/Compaction/Chain.antt =====
-- The checkpoints of a compaction form a chain, and each of them is logged.
use forge_agent.Base.{
  ℕ, ◌≡◌, refl, ap, sym, subst, ◌∙◌, String, Bool, true, false, not, ◌&&◌, Option, none, some, List,
  [], ◌∷◌, ◌++◌, length, leb, ◌==◌, if◌then◌else◌, arith,
}
use forge_agent.Llm.Usage.{recorded}
use forge_agent.Context.Evidence.{LlmMessage}
use forge_agent.Context.Pruning.{PruningResult}
use forge_agent.Context.Compaction.{
  raw, dicts, CompactionCheckpoint, Compaction, CompactionConfig, Turn, CompactionEvent,
  compaction_started, compaction_failed, context_compacted, Prepared, Summary, below, pressure_of,
  active_messages, reuse_active_view, restore_checkpoint_lineage, tail_start, pruned_of,
}
use forge_agent.Context.Compaction.Call.{
  unchanged, with_pruned, SummaryDigest, compacted, fell_back, summarised, summary_stage,
  summary_by, extractive, pruned_stage, tail_stage, fresh, after_reuse, call,
}

-- From the newest checkpoint back to the checkpoint that the object was restored at: each names the
-- one before it, and the newest is the one that the object has as its last.
abbrev pub IsChain : Option String → List CompactionCheckpoint → Option String → Type 0
IsChain base [] last = last ≡ base
IsChain base (c ∷ cs) last =
    (last ≡ some c.checkpoint_id) × IsChain base cs c.previous_checkpoint_id

abbrev pub Linked : Option String → Compaction → Type 0
Linked base s = IsChain base s.checkpoints s.lineage_checkpoint_id

-- the checkpoints that events log
abbrev pub logged : List CompactionEvent → List CompactionCheckpoint
logged [] = []
logged (context_compacted c ∷ es) = c ∷ logged es
logged (compaction_started p ∷ es) = logged es
logged (compaction_failed e ∷ es) = logged es

-- A call adds the checkpoints that it logs, and keeps the chain.
pub record Extends (s : Compaction) (p : Prepared) : Type 0 where
  pub grown : p.compaction.checkpoints ≡ logged p.events ++ s.checkpoints
  pub linked : (base : Option String) → Linked base s → Linked base p.compaction

record Same (s u : Compaction) : Type 0 where
  checkpoints : u.checkpoints ≡ s.checkpoints
  lineage : u.lineage_checkpoint_id ≡ s.lineage_checkpoint_id

Same-Extends : {s u : Compaction} (p : Prepared) → Same s u → Extends u p → Extends s p
Same-Extends {s} {u} p e h = record {
  grown = h.grown ∙ ap (λ cs. logged p.events ++ cs) e.checkpoints;
  linked = λ base l. h.linked base (
      subst (λ cs. IsChain base cs u.lineage_checkpoint_id) (sym e.checkpoints)
        (subst (λ o. IsChain base s.checkpoints o) (sym e.lineage) l));
}

-- a result that adds no checkpoint
kept-Extends :
    {s u : Compaction} (p : Prepared)
    → Same s u
    → p.compaction ≡ u
    → logged p.events ≡ []
    → Extends s p
kept-Extends {s} {u} p e c n = Same-Extends p e (record {
  grown = ap (λ x. x.checkpoints) c ∙ ap (λ l. l ++ u.checkpoints) (sym n);
  linked = λ base l. subst (λ x. Linked base x) (sym c) l;
})

active_messages-Same : (t : Turn) (s : Compaction) → Same s (active_messages t s).0
unfolding active_messages
active_messages-Same t s = record { checkpoints = ground arith; lineage = ground arith }

reuse-Same :
    (cfg : CompactionConfig) (t : Turn) (s : Compaction) → Same s (reuse_active_view cfg t s).0
unfolding reuse_active_view
reuse-Same cfg t s = record {
  checkpoints = ground (arith, (active_messages-Same t s).checkpoints);
  lineage = ground (arith, (active_messages-Same t s).lineage);
}

if-Extends :
    {s : Compaction} {p q : Prepared} (b : Bool)
    → Extends s p
    → Extends s q
    → Extends s (if b then p else q)
if-Extends true h k = h
if-Extends false h k = k

abbrev charged : Summary → Compaction → Compaction
charged a s = record s { pending_usage = recorded s.pending_usage a.usage }

recharged : (a : Summary) {s u : Compaction} → Same (charged a s) u → Same s u
recharged a e = record { checkpoints = e.checkpoints; lineage = e.lineage }

module _ (cfg : CompactionConfig) (t : Turn) where
  with_pruned-Extends :
      (start : ℕ) (r : PruningResult) (s : Compaction) → Extends s (with_pruned cfg t start r s)
  unfolding with_pruned
  with_pruned-Extends start r s = record { grown = refl; linked = λ base l. (refl, l) }

  logged-compacted :
      (es : List CompactionEvent) (c : CompactionCheckpoint)
      → logged es ≡ []
      → logged (es ++ context_compacted c ∷ []) ≡ c ∷ []
  logged-compacted [] c h = refl
  logged-compacted (context_compacted d ∷ es) c h = absurd (ground (arith, h))
  logged-compacted (compaction_started p ∷ es) c h = logged-compacted es c h
  logged-compacted (compaction_failed e ∷ es) c h = logged-compacted es c h

  compacted-Extends :
      (start : ℕ) (r : PruningResult) (d : SummaryDigest) (es : List CompactionEvent)
      (s : Compaction)
      → logged es ≡ []
      → Extends s (compacted cfg t start r d es s)
  unfolding compacted
  compacted-Extends start r d es s h = record {
    grown = ap (λ l. l ++ s.checkpoints) (sym (logged-compacted es _ h));
    linked = λ base l. (refl, l);
  }

  fell_back-Extends :
      (start : ℕ) (r : PruningResult) (a : Summary) (es : List CompactionEvent)
      (p : Compaction × Option (List LlmMessage))
      → logged es ≡ []
      → Extends p.0 (fell_back cfg t start r a es p)
  unfolding fell_back
  fell_back-Extends start r a es (s, some view) h =
      kept-Extends _ (record { checkpoints = refl; lineage = refl }) refl h
  fell_back-Extends start r a es (s, none) h = compacted-Extends start r _ es s h

  summarised-Extends :
      (start : ℕ) (r : PruningResult) (a : Summary) (s : Compaction)
      → Extends s (summarised cfg t start r a s)
  unfolding summarised
  summarised-Extends start r a s =
      let started : CompactionEvent = compaction_started (pressure_of t (dicts r.messages)) in
      if-Extends {s = s} a.has_fields
        (Same-Extends {s = s} {u = charged a s} _ (record { checkpoints = refl; lineage = refl })
          (compacted-Extends start r _ (started ∷ []) (charged a s) refl))
        (Same-Extends {s = s} _ (recharged a (active_messages-Same t (charged a s))) (
          fell_back-Extends start r a (started ∷ compaction_failed a.error ∷ [])
            (active_messages t (charged a s)) refl))

  summary_stage-Extends :
      (start : ℕ) (r : PruningResult) (s : Compaction) → Extends s (summary_stage cfg t start r s)
  unfolding summary_stage
  summary_stage-Extends start r s = by t.summarizer
    where
      by :
          (o : Option (List LlmMessage → List LlmMessage → Summary))
          → Extends s (summary_by cfg t o start r s)
      by none = compacted-Extends start r (extractive cfg t start r) [] s refl
      by (some f) = summarised-Extends start r _ s

  unchanged-Extends : (s : Compaction) → Extends s (unchanged s)
  unchanged-Extends s = record { grown = refl; linked = λ base l. l }

  pruned_stage-Extends :
      (start : ℕ) (r : PruningResult) (s : Compaction) → Extends s (pruned_stage cfg t start r s)
  unfolding pruned_stage
  pruned_stage-Extends start r s =
      if-Extends
        (not (r.pruned_units == 0) && below cfg.threshold (pressure_of t (dicts r.messages)))
        (with_pruned-Extends start r s)
        (if-Extends _
          (if-Extends (r.pruned_units == 0) (unchanged-Extends s) (with_pruned-Extends start r s))
          (summary_stage-Extends start r s))

  fresh-Extends : (s : Compaction) → Extends s (fresh cfg t s)
  unfolding fresh
  fresh-Extends s =
      if-Extends (below cfg.threshold (pressure_of t (raw t))) (unchanged-Extends s)
        (at_tail (tail_start cfg t (raw t)))
    where
      at_tail : (o : Option ℕ) → Extends s (tail_stage cfg t o s)
      at_tail none = unchanged-Extends s
      at_tail (some start) = pruned_stage-Extends start (pruned_of cfg t t.history start) s

  after_reuse-Extends :
      (p : Compaction × Option (List LlmMessage)) → Extends p.0 (after_reuse cfg t p)
  after_reuse-Extends (s, none) = fresh-Extends s
  after_reuse-Extends (s, some view) =
      kept-Extends _ (record { checkpoints = refl; lineage = refl }) refl refl

  -- Every call adds exactly the checkpoints that it logs, and they stay a chain: each names the one
  -- before it, back to the checkpoint at which the object was restored, and the newest is the last
  -- of the object.
  pub call-Extends : (s : Compaction) → Extends s (call cfg t s)
  unfolding call
  call-Extends s =
      if-Extends (leb (length t.history) 1) (unchanged-Extends s)
        (Same-Extends _ (reuse-Same cfg t s) (after_reuse-Extends (reuse_active_view cfg t s)))

-- A restored object is a chain without checkpoints.
pub restore-Linked :
    (o : Option String) (s : Compaction) → Linked o (restore_checkpoint_lineage o s)
unfolding restore_checkpoint_lineage
restore-Linked o s = refl
