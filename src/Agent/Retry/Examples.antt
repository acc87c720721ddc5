-- ===== src/Agent/Retry/Examples.antt =====
-- A call of the model that is tried twice, and uses of the theorems about retries.
use forge_agent.Base.{
  ℕ, zero, suc, ◌≡◌, refl, true, false, none, some, [], ◌∷◌, ok, err, Result, arith,
}
use forge_agent.Llm.Errors.{ProviderError, classify_llm_error}
use forge_agent.Agent.Types.{ActionType, Response}
use forge_agent.Agent.Retry.{RetryConfig, CallError, Try, call_with_retry}
use forge_agent.Agent.Retry.Bounds.{
  IsBounded, FailsRetryably, call_with_retry-IsBounded, retried-FailsRetryably,
}

abbrev config : RetryConfig
config = record {
  llm_max_retries = 3;
  llm_retry_delay = 2000;
  llm_retry_max_delay = 30000;
  jitters = false;
  can_wait = true;
}

abbrev busy : ProviderError
busy = record {
  message = "too many requests";
  status_code = some 429;
  retry_after = none;
  is_timeout = false;
  is_connection = false;
  is_callback = false;
}

abbrev answer : Response
answer = record {
  action = record {
    action_type = ActionType.reflection;
    thought = "think";
    tool_call = none;
    message = none;
  };
  usage = record {
    input_tokens = 10;
    cached_tokens = 0;
    cache_write_tokens = 0;
    output_tokens = 5;
    reasoning_tokens = 0;
    estimated = false;
  };
}

abbrev refused : CallError
refused = record {
  exn = record { class_name = "RateLimitError"; message = "429" };
  provider = busy;
}

abbrev trying : Result CallError Response → Try
trying o = record {
  canceled_before = false;
  outcome = o;
  output_started = false;
  canceled_after = false;
  jitter = 0;
  wait_canceled = false;
}

abbrev tries : ℕ → Try
tries zero = trying (err refused)
tries (suc zero) = trying (err refused)
tries (suc (suc n)) = trying (ok answer)

two_calls :
    call_with_retry config tries ≡ record { calls = 2; delays = 2000 ∷ []; outcome = ok answer }
unfolding call_with_retry classify_llm_error
two_calls = refl

call_with_retry-IsBounded_example : IsBounded config tries 3 (call_with_retry config tries)
call_with_retry-IsBounded_example = call_with_retry-IsBounded config tries

retried-FailsRetryably_example : FailsRetryably config tries 1
retried-FailsRetryably_example =
    retried-FailsRetryably config tries 1 (omega arith) (rw two_calls (omega arith))
