-- ===== src/Agent/Retry.antt =====
-- agent/core.py: `Agent._call_with_retry`. What the backend, the cancel flag and the jitter do in the
-- n-th try are given; a delay is a number of some unit of time.
pub mod Bounds
pub mod Returns
mod Examples
use forge_agent.Base.{
  ℕ, zero, suc, ◌+◌, ◌-◌, ◌*◌, ◌^◌, min, ◌≡◌, String, Bool, true, false, not, ◌&&◌, ◌||◌, Option,
  none, some, List, [], ◌∷◌, ltb, leb, ◌==◌, if◌then◌else◌, Result, ok, err, Exn,
}
use forge_agent.Llm.Errors.{ErrorInfo, ProviderError, classify_llm_error}
use forge_agent.Agent.Types.{Response}

pub record RetryConfig : Type 0 where
  pub llm_max_retries : ℕ
  pub llm_retry_delay : ℕ
  pub llm_retry_max_delay : ℕ
  -- whether the jitter ratio is positive
  pub jitters : Bool
  -- whether the cancel event has a `wait`
  pub can_wait : Bool

-- An exception of a call: its text, and what the classification reads of it.
pub record CallError : Type 0 where
  pub exn : Exn
  pub provider : ProviderError

pub record Try : Type 0 where
  pub canceled_before : Bool
  pub outcome : Result CallError Response
  -- whether the callback was given a chunk that is not empty
  pub output_started : Bool
  pub canceled_after : Bool
  -- the value of `random.uniform`
  pub jitter : ℕ
  -- the answer of `wait(delay)`
  pub wait_canceled : Bool

-- The number of calls of the backend, the delays that were waited for, and the end.
pub record Called : Type 0 where
  pub calls : ℕ
  pub delays : List ℕ
  pub outcome : Result Exn Response

abbrev pub stopped : ℕ → Result Exn Response → Called
stopped n o = record { calls = n; delays = []; outcome = o }

abbrev pub runtime_error : String → Exn
runtime_error message = record { class_name = "RuntimeError"; message = message }

abbrev requested_delay : RetryConfig → ℕ → Option ℕ → ℕ
requested_delay cfg attempt none = cfg.llm_retry_delay * 2 ^ (attempt - 1)
requested_delay cfg attempt (some d) = d

-- What follows an exception: it is raised, or raised because the wait was canceled, or the next
-- try is made.
pub after_error : Bool → Bool → ℕ → Exn → Called → Called
after_error true wait_canceled delay e later = stopped 1 (err e)
after_error false true delay e later = record { calls = 1; delays = delay ∷ []; outcome = err e }
after_error false false delay e later = record {
  calls = 1 + later.calls;
  delays = delay ∷ later.delays;
  outcome = later.outcome;
}

abbrev pub unexpected : Exn
unexpected = record { class_name = "AssertionError"; message = "retry loop exited unexpectedly" }

-- The delay before the try after `attempt`.
pub delay_after : RetryConfig → ℕ → ErrorInfo → ℕ → ℕ
delay_after cfg attempt e jitter =
    let delay = min cfg.llm_retry_max_delay (requested_delay cfg attempt e.retry_after) in
    if not (delay == 0) && cfg.jitters then min cfg.llm_retry_max_delay (delay + jitter) else delay

module _ (cfg : RetryConfig) (tries : ℕ → Try) where
  -- `if stream_output_started or not error.retryable or attempt >= attempts: raise`
  abbrev pub gives_up : ℕ → CallError → Bool
  gives_up attempt e =
      e.provider.is_callback
      || ((tries attempt).canceled_after
          || ((tries attempt).output_started
              || (not (classify_llm_error e.provider).retryable
                  || leb cfg.llm_max_retries attempt)))

  delay_of : ℕ → CallError → ℕ
  unfolding delay_after
  delay_of attempt e =
      delay_after cfg attempt (classify_llm_error e.provider) (tries attempt).jitter

  unfoldable pub outcome_of : ℕ → Called → Result CallError Response → Called
  unfolding delay_of after_error
  outcome_of attempt later (ok r) = stopped 1 (ok r)
  outcome_of attempt later (err e) =
      after_error (gives_up attempt e)
        (not (delay_of attempt e == 0) && (cfg.can_wait && (tries attempt).wait_canceled))
        (delay_of attempt e) e.exn later

  -- for attempt in range(attempt, attempts + 1), `n` rounds left
  unfoldable pub try_from : ℕ → ℕ → Called
  unfolding outcome_of
  try_from zero attempt = stopped 0 (err unexpected)
  try_from (suc n) attempt =
      let later = try_from n (attempt + 1) in
      if (tries attempt).canceled_before
      then stopped 0 (err (runtime_error "Canceled by external request"))
      else outcome_of attempt later (tries attempt).outcome

  unfoldable pub call_with_retry : Called
  unfolding try_from
  call_with_retry =
      if ltb cfg.llm_max_retries 1
      then stopped 0 (err (runtime_error "llm_max_retries must be at least 1"))
      else try_from cfg.llm_max_retries 1
