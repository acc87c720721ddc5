-- ===== src/Context/Selection/Search.antt =====
-- The costs that `_select_units_dp` counts are those of the history that is built.
use forge_agent.Base.{
  ℕ, ◌+◌, ◌*◌, ◌≤◌, ◌≡◌, refl, String, Bool, true, false, ◌&&◌, Option, none, some, List, [], ◌∷◌,
  ◌++◌, leb, if◌then◌else◌, length, arith, leb→le, All, ap, subst,
}
use forge_agent.Context.History.{
  Message, HistoryUnit, sum, count_messages, notice_cost, unit_tokens, build_from,
}
use forge_agent.Context.Selection.{
  State, extended, extend_all, states_after, best_of, final_cost, preferred, selected_of,
  select_units_dp,
}
use forge_agent.Context.Selection.States.{All-if, All-store_state, All-prune_states}
use forge_agent.Context.History.Units.{IsRun, Covers}
use forge_agent.Context.Selection.Costs.{
  left_over, cursor_after, cursor_after-append, count, cost_from, cost_from-append,
  count-build_from, run-cost_from, run-cursor_after,
}

module _ {A : Type 0} (count_message : Message A → ℕ) (text_of : String → List A)
    (ms : List (Message A)) where
  -- The state stands for indices below `c`: its costs are those of the history built from them, and
  -- its gap counts the messages since the last of them.
  abbrev pub IsExact : ℕ → ℕ → State → Type 0
  IsExact base c s =
      (base + cost_from count_message text_of ms 1 s.selected ≡ s.used)
      × (cursor_after 1 s.selected + s.gap ≡ c)

  kept-IsExact :
      (base c : ℕ) (u : HistoryUnit) (s : State) (utility : ℕ)
      → IsRun c u
      → IsExact base c s
      → IsExact base (c + length u) (record {
        used =
            s.used
            + notice_cost count_message text_of s.gap
            + unit_tokens count_message text_of ms u;
        gap = 0;
        utility = utility;
        selected = s.selected ++ u;
      })
  kept-IsExact base c u s utility r (e, g) = (
    omega (
      arith,
      e,
      cost_from-append count_message text_of ms 1 s.selected u,
      run-cost_from count_message text_of ms (cursor_after 1 s.selected) c u r,
      ap (notice_cost count_message text_of) (left_over (cursor_after 1 s.selected) s.gap c g),
    ),
    omega (
      arith,
      cursor_after-append 1 s.selected u,
      run-cursor_after count_message text_of ms (cursor_after 1 s.selected) c u r,
    ),
  )

  extended-IsExact :
      (base c limit : ℕ) (u : HistoryUnit) (s : State) (next : List State)
      → IsRun c u
      → IsExact base c s
      → All (IsExact base (c + length u)) next
      → All (IsExact base (c + length u)) (extended count_message text_of ms limit u s next)
  unfolding extended
  extended-IsExact base c limit u s next r x h =
      let p : State → Type 0 = IsExact base (c + length u) in
      let dropped =
        All-store_state p (record s { gap = s.gap + length u }) next (x.0, omega (arith, x.1)) h in
      All-if p
        (leb
          (s.used
            + notice_cost count_message text_of s.gap
            + unit_tokens count_message text_of ms u)
          limit)
        _ _
        (All-store_state p _ _
          (kept-IsExact base c u s (s.utility + (length u * 10000 + sum u)) r x) dropped)
        dropped

  extend_all-IsExact :
      (base c limit : ℕ) (u : HistoryUnit) (ss next : List State)
      → IsRun c u
      → All (IsExact base c) ss
      → All (IsExact base (c + length u)) next
      → All (IsExact base (c + length u)) (extend_all count_message text_of ms limit u ss next)
  unfolding extend_all
  extend_all-IsExact base c limit u [] next r x h = h
  extend_all-IsExact base c limit u (s ∷ ss) next r x h =
      extend_all-IsExact base c limit u ss _ r x.1 (extended-IsExact base c limit u s next r x.0 h)

  states_after-IsExact :
      (base c end limit : ℕ) (us : List HistoryUnit) (ss : List State)
      → Covers c us end
      → All (IsExact base c) ss
      → All (IsExact base end) (states_after count_message text_of ms limit us ss)
  unfolding states_after
  states_after-IsExact base c end limit [] ss r h = subst (λ e. All (IsExact base e) ss) r h
  states_after-IsExact base c end limit (u ∷ us) ss r h =
      states_after-IsExact base (c + length u) end limit us _ r.1 (
        All-prune_states (IsExact base (c + length u)) _
          (extend_all-IsExact base c limit u ss [] r.0 h tt))

  -- what the choice of the best state keeps
  abbrev IsChoice : ℕ → ℕ → ℕ → Option State → Type 0
  IsChoice base end limit none = Unit
  IsChoice base end limit (some s) =
      IsExact base end s × (final_cost count_message text_of s ≤ limit)

  best_of-IsChoice :
      (base end limit : ℕ) (ss : List State) (best : Option State)
      → IsChoice base end limit best
      → All (IsExact base end) ss
      → IsChoice base end limit (best_of count_message text_of limit best ss)
  unfolding best_of
  best_of-IsChoice base end limit [] best b h = b
  best_of-IsChoice base end limit (s ∷ ss) best b h =
      best_of-IsChoice base end limit ss _
        (choose (leb (final_cost count_message text_of s) limit)
          (preferred count_message text_of s best) refl)
        h.1
    where
      choose :
          (p q : Bool)
          → leb (final_cost count_message text_of s) limit ≡ p
          → IsChoice base end limit (if p && q then some s else best)
      choose true true e = (h.0, leb→le _ limit e)
      choose true false e = b
      choose false q e = b

  chosen-le :
      (first : Message A) (limit : ℕ) (o : Option State) (i : ℕ) (is : List ℕ)
      → IsChoice (count_message first) (length ms) limit o
      → selected_of count_message text_of o ≡ i ∷ is
      → count_message first
          + count count_message text_of ms (build_from count_message text_of ms 1 (i ∷ is))
        ≤ limit
  chosen-le first limit none i is c q = absurd (ground (arith, q))
  chosen-le first limit (some s) i is (x, l) q =
      subst
        (λ js.
          count_message first
            + count count_message text_of ms (build_from count_message text_of ms 1 js)
          ≤ limit)
        q
        (omega (
          arith,
          count-build_from count_message text_of ms 1 s.selected,
          x.0,
          l,
          ap (notice_cost count_message text_of)
              (left_over (cursor_after 1 s.selected) s.gap (length ms) x.1),
        ))

  -- If the search selects any message, the history that is built from the selection, its notices
  -- included, keeps to the limit.
  pub select_units_dp-le :
      (first : Message A) (us : List HistoryUnit) (limit i : ℕ) (is : List ℕ)
      → Covers 1 us (length ms)
      → select_units_dp count_message text_of ms us limit first ≡ i ∷ is
      → count_messages count_message text_of
          (first ∷ build_from count_message text_of ms 1 (i ∷ is))
        ≤ limit
  unfolding select_units_dp count_messages
  select_units_dp-le first us limit i is r q =
      chosen-le first limit _ i is
        (best_of-IsChoice (count_message first) (length ms) limit _ none tt (
          states_after-IsExact (count_message first) 1 (length ms) limit us _ r
            ((omega arith, omega arith), tt)))
        q
