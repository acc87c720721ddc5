-- ===== src/Llm/Examples.antt =====
-- Uses of the theorems about the usage of tokens and the errors of a provider.
use forge_agent.Base.{ℕ, ◌≡◌, refl, true, false, none, some}
use forge_agent.Llm.Usage.{TokenUsage}
use forge_agent.Llm.Errors.{ProviderError, classify_llm_error}

abbrev tokens : ℕ → TokenUsage
tokens n = record {
  input_tokens = n;
  cached_tokens = 0;
  cache_write_tokens = 0;
  output_tokens = 7;
  reasoning_tokens = 2;
  estimated = true;
}

abbrev slow : ProviderError
slow = record {
  message = "request timeout";
  status_code = some 408;
  retry_after = none;
  is_timeout = false;
  is_connection = false;
  is_callback = false;
}

slow_retryable : (classify_llm_error slow).retryable ≡ true
unfolding classify_llm_error
slow_retryable = refl
