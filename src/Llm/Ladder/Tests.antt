-- ===== src/Llm/Ladder/Tests.antt =====
-- Runs of the retry ladder of core/llm.py against scripted SDKs.
use emma.Common.{
  Float, ℕ, zero, suc, ◌≡◌, ◌≢◌, refl, Option, none, some, [], ◌∷◌, Text, lit, Result, ok, err, Exc,
  arith,
}
use emma.Retry.{default_max_attempts}
use emma.Llm.{unavailable}
use emma.Llm.Ladder.{
  SdkError, connection_error, rate_limit_error, status_error, Failure, sdk, foreign, Env, called,
  slept, RetryLadder, classify, make_call, note_pause, run_from, run, http_too_many_requests,
}
use emma.Llm.Ladder.Laws.{Rounds, run-Rounds}
use emma.Llm.Ladder.Errors.{
  IsTransient, retry_iff_IsTransient, EndsInQuota, limited-EndsInQuota, KeepsContract,
  run-KeepsContract,
}
use emma.Retry.{pause_before_retry}

abbrev ladder : RetryLadder
ladder = record { name = lit "Groq"; max_attempts = default_max_attempts; backoff_seconds = 1 }

-- The first call fails to connect, and the next one returns.
abbrev flaky : ℕ → Result Failure ℕ × ℕ
flaky zero = (err (sdk (connection_error [])), 1)
flaky (suc n) = (ok 7, suc (suc n))

abbrev limited : ℕ → Result Failure ℕ × ℕ
limited n = (err (sdk (rate_limit_error http_too_many_requests none [])), suc n)

abbrev rejected : ℕ → Result Failure ℕ × ℕ
rejected n = (err (sdk (status_error 401 none [])), suc n)

abbrev start : Env ℕ
start = record { world = 0; trace = [] }

abbrev no_float : Text → Option Float
no_float t = none

flaky_run :
    run no_float flaky ladder start
    ≡ (ok (7, 2), record { world = 2; trace = called ∷ slept 1 ∷ called ∷ [] })
unfolding run classify pause_before_retry emma.Retry.backoff_delay
flaky_run = refl

run-Rounds_example : (k : ℕ) × Rounds ladder 1 start (run no_float flaky ladder start) k
run-Rounds_example = run-Rounds no_float flaky ladder start (omega arith)

retry_iff_IsTransient_example :
    ((¬ IsTransient no_float ladder 1 (sdk (status_error 401 none [])))
      → (e : emma.Llm.LlmError) × (run_from no_float rejected ladder 3 1 none start
          ≡ (err e, (make_call rejected start).1)))
    × (IsTransient no_float ladder 1 (sdk (status_error 401 none []))
        → (exc : SdkError) × (sdk (status_error 401 none []) ≡ sdk exc)
          × (run_from no_float rejected ladder 3 1 none start
              ≡ run_from no_float rejected ladder 2 2
                  (some exc)
                  (note_pause (pause_before_retry 1 3 1) (make_call rejected start).1)))
retry_iff_IsTransient_example =
    retry_iff_IsTransient no_float rejected ladder 2 1 none start (sdk (status_error 401 none []))
      refl

limited-EndsInQuota_instance : EndsInQuota (run no_float limited ladder start).0
limited-EndsInQuota_instance =
    limited-EndsInQuota no_float limited ladder (λ w. (none, [], refl)) start (omega arith)

limited_is_sdk : (w : ℕ) (x : Exc) → (limited w).0 ≢ err (foreign x)
limited_is_sdk w x e = cc

run-KeepsContract_instance : KeepsContract (run no_float limited ladder start).0
run-KeepsContract_instance = run-KeepsContract no_float limited ladder limited_is_sdk start
