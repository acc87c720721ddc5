-- ===== src/Agent/Retry/Returns.antt =====
-- What `Agent._call_with_retry` returns.
use forge_agent.Base.{
  ℕ, zero, suc, ◌+◌, ◌≡◌, refl, Bool, true, false, ltb, if◌then◌else◌, Result, ok, err, Exn, arith,
  subst,
}
use forge_agent.Agent.Types.{Response}
use forge_agent.Agent.Retry.{
  RetryConfig, CallError, Try, Called, try_from, call_with_retry, outcome_of, after_error, stopped,
  runtime_error,
}

module _ (cfg : RetryConfig) (tries : ℕ → Try) where
  -- The call ended in its last try, which returned `r`.
  abbrev pub Returned : ℕ → Response → Called → Type 0
  Returned attempt r c = (m : ℕ) × (c.calls ≡ suc m) × ((tries (attempt + m)).outcome ≡ ok r)

  shift : (a m : ℕ) → a + 1 + m ≡ a + suc m
  shift a m = omega arith

  no_shift : (a : ℕ) → a ≡ a + 0
  no_shift a = omega arith

  after_error-Returned :
      (g w : Bool) (d attempt : ℕ) (e : Exn) (c : Called) (r : Response)
      → (after_error g w d e c).outcome ≡ ok r
      → (c.outcome ≡ ok r → Returned (attempt + 1) r c)
      → Returned attempt r (after_error g w d e c)
  unfolding after_error
  after_error-Returned true w d attempt e c r h ih = absurd (ground (arith, h))
  after_error-Returned false true d attempt e c r h ih = absurd (ground (arith, h))
  after_error-Returned false false d attempt e c r h ih =
      let (m, k, q) = ih h in
      (suc m, omega (arith, k), subst (λ i. (tries i).outcome ≡ ok r) (shift attempt m) q)

  outcome_of-Returned :
      (attempt : ℕ) (later : Called) (o : Result CallError Response) (r : Response)
      → (tries attempt).outcome ≡ o
      → (outcome_of cfg tries attempt later o).outcome ≡ ok r
      → (later.outcome ≡ ok r → Returned (attempt + 1) r later)
      → Returned attempt r (outcome_of cfg tries attempt later o)
  unfolding outcome_of
  outcome_of-Returned attempt later (ok s) r q h ih =
      (0, refl, subst (λ i. (tries i).outcome ≡ ok r) (no_shift attempt) (ground (arith, q, h)))
  outcome_of-Returned attempt later (err e) r q h ih =
      after_error-Returned _ _ _ attempt e.exn later r h ih

  try_from-Returned :
      (n attempt : ℕ) (r : Response)
      → (try_from cfg tries n attempt).outcome ≡ ok r
      → Returned attempt r (try_from cfg tries n attempt)
  unfolding try_from
  try_from-Returned zero attempt r h = absurd (ground (arith, h))
  try_from-Returned (suc n) attempt r h =
      go (tries attempt).canceled_before h (try_from-Returned n (attempt + 1) r)
    where
      rest : Called
      rest =
          outcome_of cfg tries attempt (try_from cfg tries n (attempt + 1)) (tries attempt).outcome

      go :
          (b : Bool)
          → (if b
              then stopped 0 (err (runtime_error "Canceled by external request"))
              else rest).outcome
            ≡ ok r
          → ((try_from cfg tries n (attempt + 1)).outcome ≡ ok r
              → Returned (attempt + 1) r (try_from cfg tries n (attempt + 1)))
          → Returned attempt r
              (if b then stopped 0 (err (runtime_error "Canceled by external request")) else rest)
      go true h ih = absurd (ground (arith, h))
      go false h ih = outcome_of-Returned attempt _ (tries attempt).outcome r refl h ih

  -- A call that returns a response returns that of its last try.
  pub call_with_retry-Returned :
      (r : Response)
      → (call_with_retry cfg tries).outcome ≡ ok r
      → Returned 1 r (call_with_retry cfg tries)
  unfolding call_with_retry
  call_with_retry-Returned r h = go (ltb cfg.llm_max_retries 1) h
    where
      go :
          (b : Bool)
          → (if b
              then stopped 0 (err (runtime_error "llm_max_retries must be at least 1"))
              else try_from cfg tries cfg.llm_max_retries 1).outcome
            ≡ ok r
          → Returned 1 r (
              if b
              then stopped 0 (err (runtime_error "llm_max_retries must be at least 1"))
              else try_from cfg tries cfg.llm_max_retries 1)
      go true h = absurd (ground (arith, h))
      go false h = try_from-Returned cfg.llm_max_retries 1 r h
