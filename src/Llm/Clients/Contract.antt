-- ===== src/Llm/Clients/Contract.antt =====
-- What a call of a client of core/llm.py comes to.
use emma.Common.{
  Float, ℕ, ◌≡◌, ◌≢◌, refl, inl, inr, true, false, Option, List, [], ◌∷◌, Text, Result, ok, err,
  Exc, Bool-cases,
}
use emma.Llm.{LlmError, other, LlmResponse, Message}
use emma.Llm.Json.{Json, Fields}
use emma.Llm.Ladder.{Failure, foreign, Env, run}
use emma.Llm.Ladder.Errors.{IsForeign, KeepsContract, run-KeepsContract}
use emma.Llm.Anthropic.{to_response}
use emma.Llm.Groq.{GroqReply, from_groq_message}
use emma.Llm.Clients.{
  Client, AnthropicPayload, AnthropicReply, GroqPayload, GroqCompletion, index_error,
  attribute_error, anthropic_payload, groq_payload, read_completion, then_read, anthropic_complete,
  groq_complete,
}
use emma.Router.{Schema}

-- The ends of a call, on what the ladder returned of it.
pub data Ends {A : Type 0} (read : A → Result LlmError LlmResponse)
    (ladder : Result LlmError (A × ℕ)) (out : Result LlmError LlmResponse) : Type 0 where
  -- Every attempt failed, or one failed for good: one of the two errors that the interface promises.
  promised : (e : LlmError) → ladder ≡ err e → ¬ (IsForeign e) → out ≡ err e → Ends read ladder out
  -- An attempt was answered, and the answer is read.
  answered :
      (raw : A) (attempt : ℕ) → ladder ≡ ok (raw, attempt) → out ≡ read raw → Ends read ladder out

ends :
    {W A : Type 0} (read : A → Result LlmError LlmResponse) (r : Result LlmError (A × ℕ) × Env W)
    → KeepsContract r.0
    → Ends read r.0 (then_read read r).0
ends read (err e, env) k = promised e refl k refl
ends read (ok (raw, attempt), env) k = answered raw attempt refl refl

-- What a reply of Groq reads as.
pub data Reads (loads : Text → Option Json) (raw : GroqCompletion)
    (out : Result LlmError LlmResponse) : Type 0 where
  translated :
      (message : GroqReply) (finish_reason : Option Text) (rest : List (GroqReply × Option Text))
      → raw.choices ≡ (message, finish_reason) ∷ rest
      → raw.has_usage ≡ true
      → out ≡ ok (from_groq_message loads message finish_reason)
      → Reads loads raw out
  no_choice : raw.choices ≡ [] → out ≡ err (other index_error) → Reads loads raw out
  no_usage : raw.has_usage ≡ false → out ≡ err (other attribute_error) → Reads loads raw out

read_completion-Reads :
    (loads : Text → Option Json) (raw : GroqCompletion) (choices : List (GroqReply × Option Text))
    → raw.choices ≡ choices
    → Reads loads raw (read_completion loads raw)
unfolding read_completion
read_completion-Reads loads raw [] e = no_choice e (rw (read_completion, e) refl)
read_completion-Reads loads raw ((message, finish_reason) ∷ rest) e =
    elim (Bool-cases raw.has_usage) [
      | inl u ↦ translated message finish_reason rest e u (rw (read_completion, e, u) refl)
      | inr u ↦ no_usage u (rw (read_completion, e, u) refl)
    ]

module _ {W : Type 0} (float_of : Text → Option Float) (c : Client) (system : Text)
    (messages : List Message) (tools : Option (List Schema)) (env : Env W) where
  -- If the Anthropic SDK raises nothing but its own errors, `complete` raises one of the two errors that the
  -- interface promises, or returns what the answer of an attempt translates to.
  pub anthropic_complete-Ends :
      (create : AnthropicPayload → W → Result Failure AnthropicReply × W)
      → ((w : W) (x : Exc)
          → (create (anthropic_payload c system messages tools) w).0 ≢ err (foreign x))
      → Ends
          (λ raw. ok (to_response raw.content raw.stop_reason))
          (run float_of (create (anthropic_payload c system messages tools)) c.retry env).0
          (anthropic_complete float_of create c system messages tools env).0
  unfolding anthropic_complete
  anthropic_complete-Ends create sdk_only = ends _ _ (
      run-KeepsContract float_of (create (anthropic_payload c system messages tools)) c.retry
        sdk_only env)

  -- If the Groq SDK raises nothing but its own errors, `complete` raises one of the two errors that the interface
  -- promises, or an attempt was answered. Then it returns the translation of the first choice, but for two answers:
  -- one with no choice raises an IndexError, and one with a choice and no usage, which only the log reads, an
  -- AttributeError. Neither is an error of the interface.
  pub groq_complete-Ends :
      (dumps : Fields → Text) (loads : Text → Option Json)
      (create : GroqPayload → W → Result Failure GroqCompletion × W)
      → ((w : W) (x : Exc)
          → (create (groq_payload dumps c system messages tools) w).0 ≢ err (foreign x))
      → Ends
          (read_completion loads)
          (run float_of (create (groq_payload dumps c system messages tools)) c.retry env).0
          (groq_complete float_of dumps loads create c system messages tools env).0
        × ((raw : GroqCompletion) → Reads loads raw (read_completion loads raw))
  unfolding groq_complete
  groq_complete-Ends dumps loads create sdk_only = (
    ends _ _ (
        run-KeepsContract float_of (create (groq_payload dumps c system messages tools)) c.retry
          sdk_only env),
    λ raw. read_completion-Reads loads raw raw.choices refl,
  )
