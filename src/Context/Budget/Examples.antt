-- ===== src/Context/Budget/Examples.antt =====
-- Uses of the theorems about budgets.
use forge_agent.Base.{◌≡◌, refl, true, none, some, ok}
use forge_agent.Context.Budget.{BudgetArguments, TokenBudget, new}

abbrev arguments : BudgetArguments
arguments = record {
  total = none;
  model_context_window = some 128000;
  model_max_output_tokens = some 8000;
  request_max_output_tokens = some 4096;
  context_budget_cap = some 80000;
  safety_margin_tokens = 1000;
  is_model_aware = true;
}

abbrev budget : TokenBudget
budget = record {
  total = 80000;
  reserved_output_tokens = 4096;
  safety_margin_tokens = 1000;
  legacy_reserve_tokens = 0;
}

budget_made : new arguments ≡ ok budget
unfolding new
budget_made = refl
