-- ===== src/Agent/Retry/Bounds.antt =====
-- How often `Agent._call_with_retry` calls the backend, how long it waits, and what it returns.
use forge_agent.Base.{
  ℕ, zero, suc, ◌+◌, ◌-◌, ◌≤◌, ◌<◌, ◌≡◌, inl, inr, refl, Bool, true, false, ltb, ◌==◌,
  if◌then◌else◌, Result, ok, err, Exn, All, length, arith, Bool-cases, subst, sym, ==_iff,
}
use forge_agent.Llm.Errors.{classify_llm_error}
use forge_agent.Agent.Types.{Response}
use forge_agent.Agent.Retry.{
  RetryConfig, CallError, Try, Called, delay_after, delay_of, try_from, call_with_retry, gives_up,
  outcome_of, after_error, stopped, runtime_error,
}

module _ (cfg : RetryConfig) (tries : ℕ → Try) where
  delay_of-le :
      (attempt : ℕ) (e : CallError) → delay_of cfg tries attempt e ≤ cfg.llm_retry_max_delay
  unfolding delay_of delay_after
  delay_of-le attempt e = ground arith

  abbrev pub IsBounded : ℕ → Called → Type 0
  IsBounded n c =
      (c.calls ≤ n) × (length c.delays ≤ n - 1) × All (λ d. d ≤ cfg.llm_retry_max_delay) c.delays

  after_error-IsBounded :
      (n d : ℕ) (g w : Bool) (e : Exn) (c : Called)
      → d ≤ cfg.llm_retry_max_delay
      → IsBounded n c
      → (g ≡ false → 1 ≤ n)
      → IsBounded (suc n) (after_error g w d e c)
  unfolding after_error
  after_error-IsBounded n d true w e c hd h t = (omega arith, omega arith, tt)
  after_error-IsBounded n d false true e c hd h t = (omega arith, omega (arith, t refl), (hd, tt))
  after_error-IsBounded n d false false e c hd h t =
      (omega (arith, h.0), omega (arith, h.1, t refl), (hd, h.2))

  outcome_of-IsBounded :
      (n attempt : ℕ) (c : Called) (o : Result CallError Response)
      → n + attempt ≡ cfg.llm_max_retries
      → IsBounded n c
      → IsBounded (suc n) (outcome_of cfg tries attempt c o)
  unfolding outcome_of
  outcome_of-IsBounded n attempt c (ok r) h b = (omega arith, omega arith, tt)
  outcome_of-IsBounded n attempt c (err e) h b =
      after_error-IsBounded n _ _ _ e.exn c (delay_of-le attempt e) b (λ g. ground arith)

  try_from-IsBounded :
      (n attempt : ℕ)
      → n + attempt ≡ cfg.llm_max_retries + 1
      → IsBounded n (try_from cfg tries n attempt)
  unfolding try_from
  try_from-IsBounded zero attempt h = (omega arith, omega arith, tt)
  try_from-IsBounded (suc n) attempt h =
      elim (tries attempt).canceled_before
        as (λ b. IsBounded (suc n) (
          if b
          then stopped 0 (err (runtime_error "Canceled by external request"))
          else outcome_of cfg tries attempt (try_from cfg tries n (attempt + 1))
              (tries attempt).outcome)) [
                | true ↦ (omega arith, omega arith, tt)
                | false ↦
                    outcome_of-IsBounded n attempt _ (tries attempt).outcome (omega (arith, h))
                      (try_from-IsBounded n (attempt + 1) (omega (arith, h)))
              ]

  -- A call of the model makes at most `llm_max_retries` tries and waits one time fewer, never longer
  -- than the maximal delay, jitter included.
  pub call_with_retry-IsBounded : IsBounded cfg.llm_max_retries (call_with_retry cfg tries)
  unfolding call_with_retry
  call_with_retry-IsBounded =
      elim (ltb cfg.llm_max_retries 1)
        as (λ b. IsBounded cfg.llm_max_retries (
          if b
          then stopped 0 (err (runtime_error "llm_max_retries must be at least 1"))
          else try_from cfg tries cfg.llm_max_retries 1)) [
            | true ↦ (omega arith, omega arith, tt)
            | false ↦ try_from-IsBounded cfg.llm_max_retries 1 (omega arith)
          ]

  -- the try after which the call goes on to another one
  abbrev pub FailsRetryably : ℕ → Type 0
  FailsRetryably k =
      ((tries k).canceled_before ≡ false)
      × (e : CallError) × ((tries k).outcome ≡ err e)
      × ((classify_llm_error e.provider).retryable ≡ true)
      × ((tries k).output_started ≡ false)
      × ((tries k).canceled_after ≡ false)

  goes_on :
      (attempt : ℕ) (later : Called) (o : Result CallError Response)
      → (tries attempt).canceled_before ≡ false
      → (tries attempt).outcome ≡ o
      → 1 < (outcome_of cfg tries attempt later o).calls
      → FailsRetryably attempt
  unfolding outcome_of after_error
  goes_on attempt later (ok r) c q h = absurd (omega (arith, h))
  goes_on attempt later (err e) c q h = elim (Bool-cases (gives_up cfg tries attempt e)) [
    | inl g ↦ absurd (ground (arith, h, g))
    | inr g ↦ (c, e, q, ground (arith, g), ground (arith, g), ground (arith, g))
  ]

  outcome_of-calls :
      (attempt : ℕ) (later : Called) (o : Result CallError Response)
      → (outcome_of cfg tries attempt later o).calls ≤ 1 + later.calls
  unfolding outcome_of after_error
  outcome_of-calls attempt later (ok r) = omega arith
  outcome_of-calls attempt later (err e) = ground arith

  later_or_first :
      (n attempt j : ℕ)
      → attempt ≤ j
      → j + 1
        < attempt
          + (outcome_of cfg tries attempt
              (try_from cfg tries n (attempt + 1))
              (tries attempt).outcome).calls
      → (tries attempt).canceled_before ≡ false
      → (attempt + 1 ≤ j
          → j + 1 < attempt + 1 + (try_from cfg tries n (attempt + 1)).calls
          → FailsRetryably j)
      → FailsRetryably j
  later_or_first n attempt j l h c ih = elim (Bool-cases (j == attempt)) [
    | inl q ↦ subst FailsRetryably (sym ((==_iff j attempt).0 q)) (
        goes_on attempt (try_from cfg tries n (attempt + 1)) (tries attempt).outcome c refl
          (omega (arith, h, (==_iff j attempt).0 q)))
    | inr q ↦ ih (ground (arith, q, l)) (
        omega (
          arith,
          h,
          outcome_of-calls attempt (try_from cfg tries n (attempt + 1)) (tries attempt).outcome,
        ))
  ]

  retried_from :
      (n attempt j : ℕ)
      → attempt ≤ j
      → j + 1 < attempt + (try_from cfg tries n attempt).calls
      → FailsRetryably j
  unfolding try_from
  retried_from zero attempt j l h = absurd (omega (arith, l, h))
  retried_from (suc n) attempt j l h = elim (Bool-cases (tries attempt).canceled_before) [
    | inl c ↦ absurd (ground (arith, l, h, c))
    | inr c ↦ later_or_first n attempt j l (ground (arith, h, c)) c (retried_from n (attempt + 1) j)
  ]

  -- Every try before the last failed with an error that is worth another try, before any output and
  -- without a cancellation.
  pub retried-FailsRetryably :
      (j : ℕ) → 1 ≤ j → j < (call_with_retry cfg tries).calls → FailsRetryably j
  unfolding call_with_retry
  retried-FailsRetryably j l h = retried_from cfg.llm_max_retries 1 j l (ground arith)
