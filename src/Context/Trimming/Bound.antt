-- ===== src/Context/Trimming/Bound.antt =====
-- What `trim_history` keeps, and how many tokens that takes.
use forge_agent.Base.{◌+◌, ℕ, ◌≤◌, ◌<◌, ◌≡◌, String, List, [], ◌∷◌, length, arith, ap, subst}
use forge_agent.Context.Budget.{TokenBudget, available_input_tokens, history_limit}
use forge_agent.Context.Budget.Plan.{history_limit-le}
use forge_agent.Context.History.Units.{Covers, units_from-Covers}
use forge_agent.Context.Selection.Search.{select_units_dp-le}
use forge_agent.Context.History.{Message, units_from, count_messages, build_from}
use forge_agent.Context.Selection.{select_units_dp}
use forge_agent.Context.Trimming.{trim_history, trimmed, within, trim_first_message, one_or_none}

module _ {A : Type 0} (count_message : Message A → ℕ) (text_of : String → List A)
    (count_text : List A → ℕ) (suffix : List A) where
  within-le :
      (limit : ℕ) (m : Message A)
      → count_messages count_message text_of (
          one_or_none count_message text_of count_text suffix
            (within count_message text_of count_text suffix limit m))
        ≤ limit
  unfolding within count_messages
  within-le limit m = ground arith

  first_message-le :
      (first : Message A) (limit : ℕ)
      → count_messages count_message text_of (
          one_or_none count_message text_of count_text suffix
            (trim_first_message count_message text_of count_text suffix first limit))
        ≤ limit
  unfolding trim_first_message count_messages
  first_message-le first limit = ground (arith, within-le limit _)

  trimmed-le :
      (first : Message A) (rest : List (Message A)) (limit : ℕ)
      → count_messages count_message text_of
          (trimmed count_message text_of count_text suffix first rest limit)
        ≤ limit
  unfolding trimmed count_messages
  trimmed-le first rest limit = ground (arith, first_message-le first limit)

  -- A trimmed history takes no more tokens than its limit, for every counter of messages.
  pub trim_history-le :
      (ms : List (Message A)) (limit : ℕ)
      → count_messages count_message text_of
          (trim_history count_message text_of count_text suffix ms limit)
        ≤ limit
  unfolding trim_history count_messages
  trim_history-le [] limit = omega arith
  trim_history-le (m ∷ ms) limit = ground (arith, trimmed-le m ms limit)

  units-Covers :
      (m : Message A) (ms : List (Message A)) → Covers 1 (units_from 1 ms) (length (m ∷ ms))
  units-Covers m ms =
      subst (λ e. Covers 1 (units_from 1 ms) e) (omega arith) (units_from-Covers 1 ms)

  -- A history that is too long, whose first message fits and from which the search selects a
  -- message, is trimmed to the history built from the selection: the first message alone is only
  -- kept where the search selects none.
  pub trim_history-selected :
      (m : Message A) (ms : List (Message A)) (limit i : ℕ) (is : List ℕ)
      → limit < count_messages count_message text_of (m ∷ ms)
      → 0 < limit
      → count_message m ≤ limit
      → select_units_dp count_message text_of (m ∷ ms) (units_from 1 ms) limit m ≡ i ∷ is
      → trim_history count_message text_of count_text suffix (m ∷ ms) limit
        ≡ m ∷ build_from count_message text_of (m ∷ ms) 1 (i ∷ is)
  unfolding trim_history trimmed
  trim_history-selected m ms limit i is h l f q = ground (
    arith,
    h,
    l,
    f,
    q,
    ap (build_from count_message text_of (m ∷ ms) 1) q,
    select_units_dp-le count_message text_of (m ∷ ms) m (units_from 1 ms) limit i is
        (units-Covers m ms) q,
  )

  -- A request whose text and schemas fit into the available tokens still fits with its history
  -- trimmed to the limit that the budget gives for them.
  pub request-le :
      (b : TokenBudget) (fixed_tokens : ℕ) (ms : List (Message A))
      → fixed_tokens ≤ available_input_tokens b
      → fixed_tokens
          + count_messages count_message text_of (
              trim_history count_message text_of count_text suffix ms
                (history_limit b fixed_tokens))
        ≤ available_input_tokens b
  request-le b fixed_tokens ms h =
      history_limit-le b fixed_tokens _ h (trim_history-le ms (history_limit b fixed_tokens))
