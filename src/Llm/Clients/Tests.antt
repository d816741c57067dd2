-- ===== src/Llm/Clients/Tests.antt =====
-- The Groq client against a service that answers at the second attempt, and against one that answers nothing.
use emma.Common.{
  Float, ℕ, zero, suc, ◌+◌, ◌≡◌, ◌≢◌, refl, true, Option, none, List, [], Text, lit, Result, ok,
  err, Exc,
}
use emma.Llm.{other, LlmResponse, Message, text_block, LlmError}
use emma.Llm.Json.{Json, Fields}
use emma.Llm.Ladder.{Failure, sdk, foreign, connection_error, Env, RetryLadder, run}
use emma.Llm.Groq.{GroqReply}
use emma.Llm.Clients.{
  Client, GroqPayload, GroqCompletion, index_error, groq_payload, read_completion, groq_complete,
}
use emma.Llm.Clients.Contract.{Ends, Reads, groq_complete-Ends}

abbrev client : Client
client = record {
  model = lit "m";
  max_tokens = 2048;
  retry = record { name = lit "Groq"; max_attempts = 3; backoff_seconds = 1 };
}

abbrev completion : List (GroqReply × Option Text) → GroqCompletion
completion choices = record { choices = choices; has_usage = true }

-- The first call fails.
abbrev flaky : List (GroqReply × Option Text) → GroqPayload → ℕ → Result Failure GroqCompletion × ℕ
flaky choices payload zero = (err (sdk (connection_error [])), 1)
flaky choices payload (suc n) = (ok (completion choices), n + 2)

flaky_is_sdk :
    (choices : List (GroqReply × Option Text)) (payload : GroqPayload) (w : ℕ) (x : Exc)
    → (flaky choices payload w).0 ≢ err (foreign x)
flaky_is_sdk choices payload zero x = λ e. cc
flaky_is_sdk choices payload (suc n) x = λ e. cc

abbrev start : Env ℕ
start = record { world = 0; trace = [] }

abbrev no_float : Text → Option Float
no_float t = none

abbrev dumps : Fields → Text
dumps fields = []

abbrev loads : Text → Option Json
loads t = none

groq_complete-Ends_example :
    Ends
      (read_completion loads)
      (run no_float (flaky [] (groq_payload dumps client [] [] none)) client.retry start).0
      (groq_complete no_float dumps loads (flaky []) client [] [] none start).0
    × ((raw : GroqCompletion) → Reads loads raw (read_completion loads raw))
groq_complete-Ends_example =
    groq_complete-Ends no_float client [] [] none start dumps loads (flaky [])
      (flaky_is_sdk [] (groq_payload dumps client [] [] none))

-- The second attempt is answered, with no choice.
no_choices :
    (groq_complete no_float dumps loads (flaky []) client [] [] none start).0
    ≡ err (other index_error)
unfolding groq_complete read_completion run emma.Llm.Ladder.run_from emma.Llm.Ladder.classify
    emma.Retry.pause_before_retry
no_choices = refl
