-- ===== src/Llm/Clients.antt =====
-- core/llm.py: the two clients, which build a payload, send it through the retry ladder and translate the reply. What
-- the SDK does with a payload is a function of the world that it is sent in.
use emma.Common.{
  Float, ℕ, zero, suc, Bool, true, false, Option, none, some, List, [], ◌∷◌, Text, lit, map, Result,
  ok, err, Exc, value_error, other_error, missing_dependency, leb, ◌==◌, if◌then◌else◌,
}
use emma.Retry.{default_max_attempts}
use emma.Llm.{LlmError, other, LlmResponse, Message}
use emma.Llm.Json.{Json, Fields}
use emma.Llm.Ladder.{RetryLadder, Failure, Env, run}
use emma.Llm.Anthropic.{RawBlock, to_response}
use emma.Llm.Groq.{
  GroqMessage, GroqTool, GroqReply, to_groq_messages, to_groq_tool, from_groq_message,
}
use emma.Router.{Schema}
pub mod Contract
mod Tests

abbrev pub default_max_tokens : ℕ
default_max_tokens = 2048

-- The fields that the two clients share.
pub record Client : Type 0 where
  pub model : Text
  pub max_tokens : ℕ
  pub retry : RetryLadder

abbrev pub no_attempts : Exc
no_attempts = record { kind = value_error; message = lit "max_attempts must be at least 1" }

abbrev pub no_groq : Exc
no_groq = record {
  kind = missing_dependency;
  message =
      lit
        "LLM_PROVIDER is 'groq' but the groq package is not installed. Install the dependencies with 'pip install -r requirements.txt' inside the virtual environment the service runs from.";
}

-- The constructors; the groq package has to be there to import.
unfoldable pub anthropic_client :
    (model : Text) (max_tokens max_attempts backoff_seconds : ℕ) → Result Exc Client
anthropic_client model max_tokens max_attempts backoff_seconds =
    if max_attempts == 0
    then err no_attempts
    else ok (record {
      model = model;
      max_tokens = max_tokens;
      retry = record {
        name = lit "Anthropic";
        max_attempts = max_attempts;
        backoff_seconds = backoff_seconds;
      };
    })

unfoldable pub groq_client :
    (installed : Bool) (model : Text) (max_tokens max_attempts backoff_seconds : ℕ)
    → Result Exc Client
groq_client installed model max_tokens max_attempts backoff_seconds =
    if max_attempts == 0
    then err no_attempts
    else if installed
    then ok (record {
      model = model;
      max_tokens = max_tokens;
      retry = record {
        name = lit "Groq";
        max_attempts = max_attempts;
        backoff_seconds = backoff_seconds;
      };
    })
    else err no_groq

-- `if tools: payload["tools"] = tools`
abbrev pub tools_if_any : {A : Type 0} → Option (List A) → Option (List A)
tools_if_any none = none
tools_if_any (some []) = none
tools_if_any (some (t ∷ ts)) = some (t ∷ ts)

pub record AnthropicPayload : Type 0 where
  pub model : Text
  pub max_tokens : ℕ
  pub system : Text
  pub messages : List Message
  pub tools : Option (List Schema)

-- What the code reads of a reply.
pub record AnthropicReply : Type 0 where
  pub content : List RawBlock
  pub stop_reason : Option Text

pub record GroqPayload : Type 0 where
  pub model : Text
  pub messages : List GroqMessage
  pub max_tokens : ℕ
  pub tools : Option (List GroqTool)

-- A choice is its message with its finish reason. The log reads the usage, which may be missing.
pub record GroqCompletion : Type 0 where
  pub choices : List (GroqReply × Option Text)
  pub has_usage : Bool

abbrev pub index_error : Exc
index_error = record { kind = other_error; message = lit "list index out of range" }

abbrev pub attribute_error : Exc
attribute_error = record {
  kind = other_error;
  message = lit "'NoneType' object has no attribute 'prompt_tokens'";
}

unfoldable pub anthropic_payload :
    Client → Text → List Message → Option (List Schema) → AnthropicPayload
anthropic_payload c system messages tools = record {
  model = c.model;
  max_tokens = c.max_tokens;
  system = system;
  messages = messages;
  tools = tools_if_any tools;
}

abbrev pub groq_tools : Option (List Schema) → Option (List GroqTool)
groq_tools none = none
groq_tools (some tools) = some (map (λ t. to_groq_tool t.name t.description t.input_schema) tools)

unfoldable pub groq_payload :
    (Fields → Text) → Client → Text → List Message → Option (List Schema) → GroqPayload
groq_payload dumps c system messages tools = record {
  model = c.model;
  messages = to_groq_messages dumps system messages;
  max_tokens = c.max_tokens;
  tools = groq_tools (tools_if_any tools);
}

-- `raw.choices[0]`, its translation, and the log line
unfoldable pub read_completion : (Text → Option Json) → GroqCompletion → Result LlmError LlmResponse
read_completion loads raw = elim raw.choices [
  | [] ↦ err (other index_error)
  | choice ∷ choices ↦
      if raw.has_usage
      then ok (from_groq_message loads choice.0 choice.1)
      else err (other attribute_error)
]

-- What follows the ladder, on what it returned.
abbrev pub then_read :
    {W A : Type 0}
    → (A → Result LlmError LlmResponse)
    → Result LlmError (A × ℕ) × Env W
    → Result LlmError LlmResponse × Env W
then_read read (err e, env) = (err e, env)
then_read read (ok (raw, attempt), env) = (read raw, env)

module _ {W : Type 0} (float_of : Text → Option Float) where
  -- `AnthropicLanguageModel.complete`
  unfoldable pub anthropic_complete :
      (AnthropicPayload → W → Result Failure AnthropicReply × W)
      → Client
      → Text
      → List Message
      → Option (List Schema)
      → Env W
      → Result LlmError LlmResponse × Env W
  unfolding anthropic_payload
  anthropic_complete create c system messages tools env =
      then_read (λ raw. ok (to_response raw.content raw.stop_reason))
        (run float_of (create (anthropic_payload c system messages tools)) c.retry env)

  -- `GroqLanguageModel.complete`
  unfoldable pub groq_complete :
      (Fields → Text)
      → (Text → Option Json)
      → (GroqPayload → W → Result Failure GroqCompletion × W)
      → Client
      → Text
      → List Message
      → Option (List Schema)
      → Env W
      → Result LlmError LlmResponse × Env W
  unfolding groq_payload read_completion
  groq_complete dumps loads create c system messages tools env =
      then_read (read_completion loads)
        (run float_of (create (groq_payload dumps c system messages tools)) c.retry env)
