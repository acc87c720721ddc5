-- ===== src/Context/Budget/Plan.antt =====
-- The room for input of a budget, and the plan in it.
use forge_agent.Base.{ℕ, ◌+◌, ◌*◌, ◌/◌, ◌≤◌, ◌<◌, ◌≡◌, String, Result, ok, err, arith}
use forge_agent.Context.Budget.{
  BudgetArguments, TokenBudget, new, checked, with_window, reserve_of, available_input_tokens,
  default_plan, history_limit, or_number, default_total, effective_window,
}

checked-lt : (e r s l : ℕ) (b : TokenBudget) → checked e r s l ≡ ok b → reserve_of b < b.total
unfolding checked
checked-lt e r s l b h = ground arith

with_window-lt :
    (a : BudgetArguments) (w : Result String ℕ) (b : TokenBudget)
    → with_window a w ≡ ok b
    → reserve_of b < b.total
unfolding with_window
with_window-lt a (err e) b h = ground arith
with_window-lt a (ok w) b h = ground (arith, checked-lt w _ _ _ b)

new-lt : (a : BudgetArguments) (b : TokenBudget) → new a ≡ ok b → reserve_of b < b.total
unfolding new
new-lt a b h = ground (
  arith,
  h,
  with_window-lt a (effective_window a.model_context_window a.context_budget_cap) b,
  checked-lt (or_number a.total default_total) 0 0 (or_number a.total default_total * 15 / 100) b,
)

-- A budget that is made leaves room for input, and the four parts of its plan and its reserve fit
-- into the whole window.
pub default_plan-le :
    (a : BudgetArguments) (b : TokenBudget)
    → new a ≡ ok b
    → (0 < available_input_tokens b)
      × ((default_plan b).system_core
            + (default_plan b).repo_map
            + (default_plan b).history
            + (default_plan b).observation
            + (default_plan b).reserve
          ≤ b.total)
unfolding default_plan
default_plan-le a b h = omega (arith, new-lt a b h)

pub history_limit-le :
    (b : TokenBudget) (fixed_tokens history : ℕ)
    → fixed_tokens ≤ available_input_tokens b
    → history ≤ history_limit b fixed_tokens
    → fixed_tokens + history ≤ available_input_tokens b
unfolding history_limit
history_limit-le b fixed_tokens history h k = omega (arith, h, k)
