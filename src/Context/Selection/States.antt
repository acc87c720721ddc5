-- ===== src/Context/Selection/States.antt =====
-- What holds of all states still holds of those that are stored, sorted and pruned.
use forge_agent.Base.{
  ℕ, Bool, true, false, ◌&&◌, Option, none, some, List, [], ◌∷◌, ◌++◌, leb, ltb, ◌==◌,
  if◌then◌else◌, select, All,
}
use forge_agent.Context.Selection.{
  State, store_state, prune_states, prune_gaps, gaps, keep_better, sort_by_used, insert_by_used,
  better,
}

module _ (P : State → Type 0) where
  pub All-if : (b : Bool) (xs ys : List State) → All P xs → All P ys → All P (if b then xs else ys)
  All-if true xs ys h k = h
  All-if false xs ys h k = k

  All-append : (xs ys : List State) → All P xs → All P ys → All P (xs ++ ys)
  All-append [] ys h k = k
  All-append (x ∷ xs) ys h k = (h.0, All-append xs ys h.1 k)

  All-select : (p : State → Bool) (ss : List State) → All P ss → All P (select p ss)
  All-select p [] h = tt
  All-select p (s ∷ ss) h = All-if (p s) _ _ (h.0, All-select p ss h.1) (All-select p ss h.1)

  pub All-store_state : (s : State) (ts : List State) → P s → All P ts → All P (store_state s ts)
  unfolding store_state
  All-store_state s [] p h = (p, tt)
  All-store_state s (t ∷ ts) p h =
      All-if (t.used == s.used && t.gap == s.gap) _ _
        (All-if (ltb t.utility s.utility) (s ∷ ts) (t ∷ ts) (p, h.1) h)
        (h.0, All-store_state s ts p h.1)

  All-insert_by_used : (s : State) (ts : List State) → P s → All P ts → All P (insert_by_used s ts)
  All-insert_by_used s [] p h = (p, tt)
  All-insert_by_used s (t ∷ ts) p h =
      All-if (leb s.used t.used) _ _ (p, h) (h.0, All-insert_by_used s ts p h.1)

  All-sort_by_used : (ss : List State) → All P ss → All P (sort_by_used ss)
  All-sort_by_used [] h = tt
  All-sort_by_used (s ∷ ss) h = All-insert_by_used s (sort_by_used ss) h.0 (All-sort_by_used ss h.1)

  All-keep_better : (best : Option ℕ) (ss : List State) → All P ss → All P (keep_better best ss)
  All-keep_better best [] h = tt
  All-keep_better best (s ∷ ss) h =
      All-if (better best s.utility) _ _ (h.0, All-keep_better (some s.utility) ss h.1)
        (All-keep_better best ss h.1)

  All-prune_gaps : (gs : List ℕ) (ss : List State) → All P ss → All P (prune_gaps gs ss)
  All-prune_gaps [] ss h = tt
  All-prune_gaps (g ∷ gs) ss h =
      All-append (keep_better none (sort_by_used (select (λ s. s.gap == g) ss))) (prune_gaps gs ss)
        (All-keep_better none _ (All-sort_by_used _ (All-select (λ s. s.gap == g) ss h)))
        (All-prune_gaps gs ss h)

  pub All-prune_states : (ss : List State) → All P ss → All P (prune_states ss)
  unfolding prune_states
  All-prune_states ss h = All-prune_gaps (gaps [] ss) ss h
