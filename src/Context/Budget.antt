-- ===== src/Context/Budget.antt =====
-- context/token_budget.py: the limits of `TokenBudget` and its plan. The arguments are those that
-- `__init__` has once it has read the attributes of its first one; a number is not negative.
pub mod Plan
mod Examples
use forge_agent.Base.{
  ℕ, zero, suc, ◌+◌, ◌-◌, ◌*◌, ◌/◌, min, String, Bool, true, false, not, ◌&&◌, ◌||◌, Option, none,
  some, leb, ◌==◌, if◌then◌else◌, Result, ok, err,
}

pub record BudgetArguments : Type 0 where
  pub total : Option ℕ
  pub model_context_window : Option ℕ
  pub model_max_output_tokens : Option ℕ
  pub request_max_output_tokens : Option ℕ
  pub context_budget_cap : Option ℕ
  pub safety_margin_tokens : ℕ
  -- whether the first argument carries the metadata of a model
  pub is_model_aware : Bool

pub record TokenBudget : Type 0 where
  pub total : ℕ
  pub reserved_output_tokens : ℕ
  pub safety_margin_tokens : ℕ
  pub legacy_reserve_tokens : ℕ

abbrev pub default_total : ℕ
default_total = 80000

abbrev given : Option ℕ → Bool
given none = false
given (some n) = true

abbrev is_zero : Option ℕ → Bool
is_zero none = false
is_zero (some n) = n == 0

abbrev pub or_number : Option ℕ → ℕ → ℕ
or_number none d = d
or_number (some n) d = n

abbrev legacy_only : BudgetArguments → Bool
legacy_only a = not (
    a.is_model_aware
    || (given a.model_context_window
        || (given a.context_budget_cap
            || (given a.request_max_output_tokens || given a.model_max_output_tokens))))

-- the checks at the end of `__init__`
checked : ℕ → ℕ → ℕ → ℕ → Result String TokenBudget
checked effective reserved safety legacy =
    if effective == 0
    then err "effective context window must be positive"
    else if leb effective (reserved + safety + legacy)
    then err "reserved tokens must be smaller than context window"
    else ok (record {
      total = effective;
      reserved_output_tokens = reserved;
      safety_margin_tokens = safety;
      legacy_reserve_tokens = legacy;
    })

-- the smaller of the window and the cap, where both are given
abbrev pub effective_window : Option ℕ → Option ℕ → Result String ℕ
effective_window none none =
    err "model_context_window is required when no context budget cap is configured"
effective_window none (some cap) = ok cap
effective_window (some window) none = ok window
effective_window (some window) (some cap) = ok (min window cap)

with_window : BudgetArguments → Result String ℕ → Result String TokenBudget
unfolding checked
with_window a (err e) = err e
with_window a (ok effective) =
    let request_max = or_number a.request_max_output_tokens 0 in
    if is_zero a.model_max_output_tokens
    then err "model_max_output_tokens must be positive"
    else checked effective (min request_max (or_number a.model_max_output_tokens request_max))
        a.safety_margin_tokens 0

-- TokenBudget.__init__
pub new : BudgetArguments → Result String TokenBudget
unfolding checked with_window
new a =
    if legacy_only a
    then (let effective = or_number a.total default_total in
        checked effective 0 0 (effective * 15 / 100))
    else if is_zero a.model_context_window
    then err "model_context_window must be positive"
    else if is_zero a.context_budget_cap
    then err "context_budget_cap must be positive"
    else with_window a (effective_window a.model_context_window a.context_budget_cap)

pub record BudgetPlan : Type 0 where
  pub total : ℕ
  pub reserve : ℕ
  pub system_core : ℕ
  pub repo_map : ℕ
  pub history : ℕ
  pub observation : ℕ

abbrev pub reserve_of : TokenBudget → ℕ
reserve_of b = b.reserved_output_tokens + b.safety_margin_tokens + b.legacy_reserve_tokens

-- available_input_tokens
abbrev pub available_input_tokens : TokenBudget → ℕ
available_input_tokens b = b.total - reserve_of b

-- The shares are hundredths of the available tokens, rounded down.
pub default_plan : TokenBudget → BudgetPlan
default_plan b =
    let available = b.total - reserve_of b in
    record {
      total = b.total;
      reserve = reserve_of b;
      system_core = available * 10 / 100;
      repo_map = available * 15 / 100;
      history = available * 50 / 100;
      observation = available * 25 / 100;
    }

-- history_limit_for_request, for the tokens that the system text and the tool schemas take
pub history_limit : TokenBudget → ℕ → ℕ
unfolding default_plan
history_limit b fixed_tokens =
    min (default_plan b).history (available_input_tokens b - fixed_tokens)
