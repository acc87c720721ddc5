-- ===== src/Llm/Errors.antt =====
-- llm/errors.py: which exceptions of a model's provider are worth another try. An exception is what
-- the classification reads of it; its delay is a number of some unit of time.
use forge_agent.Base.{
  ℕ, ◌≡◌, String, Bool, true, false, not, ◌&&◌, ◌||◌, Option, none, some, List, [], ◌∷◌, leb, ◌==◌,
  if◌then◌else◌, any, is_in, arith,
}

-- LLMErrorKind
pub data ErrorKind : Type 0 where
  authentication bad_request rate_limit timeout connection server overloaded callback unknown :
      ErrorKind

-- LLMErrorInfo
pub record ErrorInfo : Type 0 where
  pub kind : ErrorKind
  pub retryable : Bool
  pub status_code : Option ℕ
  pub retry_after : Option ℕ

-- `str(exc).lower()`, the status code and the delay that the exception or its response holds, and
-- whether it is a TimeoutError, a ConnectionError, an LLMCallbackError.
pub record ProviderError : Type 0 where
  pub message : String
  pub status_code : Option ℕ
  pub retry_after : Option ℕ
  pub is_timeout : Bool
  pub is_connection : Bool
  pub is_callback : Bool

abbrev pub code_is : ℕ → Option ℕ → Bool
code_is n none = false
code_is n (some c) = c == n

abbrev pub code_within : ℕ → ℕ → Option ℕ → Bool
code_within low high none = false
code_within low high (some c) = leb low c && leb c high

abbrev mentions : List String → String → Bool
mentions tokens message = any (λ token. is_in token message) tokens

abbrev pub is_authentication : ProviderError → Bool
is_authentication e =
    code_is 401 e.status_code
    || (code_is 403 e.status_code
        || mentions
            ("invalid api key" ∷ "authentication" ∷ "unauthorized" ∷ "permission denied" ∷ [])
            e.message)

abbrev pub is_bad_request : ProviderError → Bool
is_bad_request e =
    code_within 400 499 e.status_code
    && not (code_is 408 e.status_code || (code_is 409 e.status_code || code_is 429 e.status_code))

abbrev is_rate_limit : ProviderError → Bool
is_rate_limit e =
    code_is 429 e.status_code
    || mentions ("rate limit" ∷ "rate_limit" ∷ "too many requests" ∷ []) e.message

abbrev is_timed_out : ProviderError → Bool
is_timed_out e =
    code_is 408 e.status_code
    || (code_is 409 e.status_code
        || (e.is_timeout || mentions ("timed out" ∷ "timeout" ∷ []) e.message))

abbrev is_disconnected : ProviderError → Bool
is_disconnected e =
    e.is_connection
    || mentions
        ("connection reset" ∷ "connection aborted" ∷ "network unreachable" ∷ "network timeout"
          ∷ "connection error" ∷ [])
        e.message

abbrev is_overloaded : ProviderError → Bool
is_overloaded e =
    mentions
      ("overloaded_error" ∷ "overloaded" ∷ "temporarily unavailable" ∷ "service unavailable" ∷ [])
      e.message

-- the kind, and whether a further try may help
pub classify_kind : ProviderError → ErrorKind × Bool
classify_kind e =
    if e.is_callback
    then (callback, false)
    else if is_authentication e
    then (authentication, false)
    else if is_bad_request e
    then (bad_request, false)
    else if is_rate_limit e
    then (rate_limit, true)
    else if is_timed_out e
    then (timeout, true)
    else if is_disconnected e
    then (connection, true)
    else if code_within 500 599 e.status_code
    then (server, true)
    else if is_overloaded e
    then (overloaded, true)
    else (unknown, false)

-- a callback error carries no code and no delay
unfoldable pub classify_llm_error : ProviderError → ErrorInfo
unfolding classify_kind
classify_llm_error e = record {
  kind = (classify_kind e).0;
  retryable = (classify_kind e).1;
  status_code = if e.is_callback then none else e.status_code;
  retry_after = if e.is_callback then none else e.retry_after;
}

-- An error with a code from 400 to 499 is worth another try only if the code is 408, 409 or 429,
-- whatever its message says.
pub client_error-retryable :
    (e : ProviderError)
    → code_within 400 499 e.status_code ≡ true
    → (classify_llm_error e).retryable ≡ true
    → (code_is 408 e.status_code || (code_is 409 e.status_code || code_is 429 e.status_code)) ≡ true
unfolding classify_llm_error classify_kind
client_error-retryable e h r = ground arith
