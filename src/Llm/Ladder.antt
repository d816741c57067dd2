-- ===== src/Llm/Ladder.antt =====
-- core/llm.py: deciding what a failure means, and the retry ladder that both clients climb. The
-- SDK is not part of the repository: the request is a function of the world that it runs in, and
-- `float_of` stands for the reading of a header as a float. The pauses are whole seconds.

pub mod Laws
pub mod Errors
mod Tests
use emma.Common.{
  Float, exceeds, print_whole, ℕ, zero, suc, ◌+◌, ◌++◌, Option, none, some, List, [], ◌∷◌, Text,
  lit, decimal, Result, ok, err, Exc, ltb, ◌==◌, if◌then◌else◌,
}
use emma.Retry.{pause_before_retry, remaining_backoff}
use emma.Llm.{LlmError, unavailable, quota_exceeded, other}

-- HTTP_TOO_MANY_REQUESTS
abbrev pub http_too_many_requests : ℕ
http_too_many_requests = 429

-- The exceptions of the SDK in the order of the `except` clauses: APIConnectionError,
-- RateLimitError, APIStatusError, the root error. A status error carries the "retry-after" header
-- of its response, if there is one.
pub data SdkError : Type 0 where
  connection_error : Text → SdkError
  rate_limit_error : (status : ℕ) → (retry_after : Option Text) → Text → SdkError
  status_error : (status : ℕ) → (retry_after : Option Text) → Text → SdkError
  root_error : Text → SdkError

-- What `await call()` may raise.
pub data Failure : Type 0 where
  sdk : SdkError → Failure
  foreign : Exc → Failure

-- `getattr(exc, "status_code", None)`
unfoldable pub status_code : SdkError → Option ℕ
status_code (rate_limit_error s h m) = some s
status_code (status_error s h m) = some s
status_code (connection_error m) = none
status_code (root_error m) = none

-- `exc.response.headers.get("retry-after")`
unfoldable pub retry_after_header : SdkError → Option Text
retry_after_header (rate_limit_error s h m) = h
retry_after_header (status_error s h m) = h
retry_after_header (connection_error m) = none
retry_after_header (root_error m) = none

-- What the ladder does to the outside, oldest first: the calls made and the pauses slept.
pub data Event : Type 0 where
  called : Event
  slept : ℕ → Event

pub record Env (W : Type 0) : Type 0 where
  pub world : W
  pub trace : List Event

-- The fields of `_RetryLadder`.
pub record RetryLadder : Type 0 where
  pub name : Text
  pub max_attempts : ℕ
  pub backoff_seconds : ℕ

-- What one `except` clause decides: raise this, or go on to the pause.
pub data Verdict : Type 0 where
  give_up : LlmError → Verdict
  retry : SdkError → Verdict

abbrev pub note_pause : {W : Type 0} → Option ℕ → Env W → Env W
note_pause none env = env
note_pause (some t) env = record env { trace = env.trace ++ (slept t ∷ []) }

-- `await call()`
abbrev pub make_call :
    {W A : Type 0} → (W → Result Failure A × W) → Env W → Result Failure A × Env W
make_call call env =
    let (r, w) = call env.world in (r, record { world = w; trace = env.trace ++ (called ∷ []) })

module _ (float_of : Text → Option Float) where
  unfoldable pub retry_after_seconds : SdkError → Option Float
  unfolding retry_after_header
  retry_after_seconds exc = elim (retry_after_header exc) [ none ↦ none | some h ↦ float_of h ]

  -- `none` where the function returns, the error where it raises.
  unfoldable pub check_rate_limit : RetryLadder → SdkError → ℕ → Option LlmError
  check_rate_limit ladder exc attempt = elim (retry_after_seconds exc) [
    | none ↦ none
    | some wait ↦
        if exceeds wait (remaining_backoff attempt ladder.max_attempts ladder.backoff_seconds)
        then some (
            quota_exceeded
              (lit "the "
                ++ (ladder.name
                    ++ (lit " API is rate limiting for another " ++ (print_whole wait ++ lit "s"))))
              (some wait))
        else none
  ]

  -- `last_error` is no LLMQuotaExceededError here: the ladder raises those at once.
  unfoldable pub exhausted : RetryLadder → Option SdkError → LlmError
  exhausted ladder last_error =
      let attempts = lit " after " ++ (decimal ladder.max_attempts ++ lit " attempts") in
      let quota = λ (exc : SdkError).
        quota_exceeded
          (lit "the " ++ (ladder.name ++ (lit " API was still rate limiting" ++ attempts)))
          (retry_after_seconds exc) in
      let outage =
        unavailable (lit "the " ++ (ladder.name ++ (lit " API did not answer" ++ attempts))) in
      elim last_error [
        | none ↦ outage
        | some exc ↦ elim (status_code exc) [
          | none ↦ outage
          | some s ↦ if s == http_too_many_requests then quota exc else outage
        ]
      ]

  unfoldable pub classify : RetryLadder → ℕ → Failure → Verdict
  classify ladder attempt (sdk (connection_error m)) = retry (connection_error m)
  classify ladder attempt (sdk (rate_limit_error s h m)) =
      elim (check_rate_limit ladder (rate_limit_error s h m) attempt) [
        | none ↦ retry (rate_limit_error s h m)
        | some e ↦ give_up e
      ]
  classify ladder attempt (sdk (status_error s h m)) =
      if ltb s 500
      then give_up (
          unavailable
            (lit "the " ++ (ladder.name ++ (lit " API returned a permanent error: " ++ m))))
      else retry (status_error s h m)
  classify ladder attempt (sdk (root_error m)) = give_up (
      unavailable (lit "the " ++ (ladder.name ++ (lit " API raised a non-retryable error: " ++ m))))
  classify ladder attempt (foreign e) = give_up (other e)

  module _ {W A : Type 0} (call : W → Result Failure A × W) where
    -- The attempts that are left, from `attempt` on, in front of the exhaustion.
    unfoldable pub run_from :
        RetryLadder → ℕ → ℕ → Option SdkError → Env W → Result LlmError (A × ℕ) × Env W
    run_from ladder zero attempt last_error env = (err (exhausted ladder last_error), env)
    run_from ladder (suc left) attempt last_error env =
        let (r, env') = make_call call env in
        elim r [
          | ok a ↦ (ok (a, attempt), env')
          | err f ↦ elim (classify ladder attempt f) [
            | give_up e ↦ (err e, env')
            | retry exc ↦ run_from ladder left (attempt + 1) (some exc) (
                note_pause (pause_before_retry attempt ladder.max_attempts ladder.backoff_seconds)
                  env')
          ]
        ]

    unfoldable pub run : RetryLadder → Env W → Result LlmError (A × ℕ) × Env W
    unfolding run_from
    run ladder env = run_from ladder ladder.max_attempts 1 none env
